-- ===== src/Sync/Paths/Parents.antt =====
-- src/sync/files.rs: the directories that a path goes through.
use mathlib.Core.List.{append_assoc, reverse-cons, reverse-reverse, append-nil}
use vivado_server.Base.{
  ℕ, zero, suc, ◌+◌, ◌-◌, ◌≤◌, ◌≡◌, refl, sym, ap, ◌∙◌, Str, length, length-append, false, none,
  some, List, [], ◌∷◌, ◌++◌, reverse, arith,
}
use vivado_server.Sync.Paths.{slash, join, contains_char, rsplit_once, parents_from, parent_paths}
use vivado_server.Sync.Paths.Segments.{NoSlash}

-- The proper prefixes of a path, the outermost first: `p` with further and further segments.
abbrev pub prefixes : Str → List Str → List Str
prefixes p [] = []
prefixes p (s ∷ rest) = p ∷ prefixes (p ++ (slash ∷ s)) rest

abbrev joined : Str → List Str → Str
joined p [] = p
joined p (s ∷ rest) = joined (p ++ (slash ∷ s)) rest

join-joined : (p : Str) (rest : List Str) → join (p ∷ rest) ≡ joined p rest
unfolding join
join-joined p [] = refl
join-joined p (s ∷ []) = refl
join-joined p (s ∷ t ∷ rest) =
    sym (append_assoc p (slash ∷ s) (slash ∷ join (t ∷ rest)))
    ∙ join-joined (p ++ (slash ∷ s)) (t ∷ rest)

rsplit_once-plain : (s : Str) → contains_char slash s ≡ false → rsplit_once s ≡ none
unfolding rsplit_once contains_char
rsplit_once-plain [] h = refl
rsplit_once-plain (c ∷ s) h = ground (arith, rsplit_once-plain s)

rsplit_once-append :
    (p s : Str) → contains_char slash s ≡ false → rsplit_once (p ++ (slash ∷ s)) ≡ some p
unfolding rsplit_once
rsplit_once-append [] s h = rw (rsplit_once-plain s h) refl
rsplit_once-append (c ∷ p) s h = rw (rsplit_once-append p s h) refl

parents_from-joined :
    (p : Str) (rest : List Str) (fuel : ℕ)
    → NoSlash rest
    → parents_from (fuel + length rest) (joined p rest)
      ≡ reverse (prefixes p rest) ++ parents_from fuel p
unfolding parents_from
parents_from-joined p [] fuel h = ap (λ n. parents_from n p) (omega arith)
parents_from-joined p (s ∷ rest) fuel (plain, others) =
    let p' = p ++ (slash ∷ s) in
    let one_up : parents_from (suc fuel) p' ≡ p ∷ parents_from fuel p =
      rw (parents_from, rsplit_once-append p s plain) refl in
    ap (λ n. parents_from n (joined p' rest)) (omega arith)
    ∙ parents_from-joined p' rest (suc fuel) others
    ∙ ap (λ xs. reverse (prefixes p' rest) ++ xs) one_up
    ∙ sym (append_assoc (reverse (prefixes p' rest)) (p ∷ []) (parents_from fuel p))
    ∙ ap (λ xs. xs ++ parents_from fuel p) (sym (reverse-cons p (prefixes p' rest)))

joined-length : (p : Str) (rest : List Str) → length rest ≤ length (joined p rest)
joined-length p rest = omega (arith, long p rest)
  where
    long : (p : Str) (rest : List Str) → length p + length rest ≤ length (joined p rest)
    long p [] = omega arith
    long p (s ∷ rest) = omega (arith, long (p ++ (slash ∷ s)) rest, length-append p (slash ∷ s))

-- The parents of a path of segments without a slash are its proper prefixes, the outermost first.
pub parent_paths-join :
    (first : Str) (rest : List Str)
    → NoSlash (first ∷ rest)
    → parent_paths (join (first ∷ rest)) ≡ prefixes first rest
unfolding parent_paths parents_from
parent_paths-join first rest (plain, others) =
    let path = joined first rest in
    let room : length path ≡ (length path - length rest) + length rest =
      omega (arith, joined-length first rest) in
    let top = no_parent (length path - length rest) in
    ap parent_paths (join-joined first rest)
    ∙ ap reverse (
        ap (λ n. parents_from n path) room
        ∙ parents_from-joined first rest (length path - length rest) others
        ∙ ap (λ xs. reverse (prefixes first rest) ++ xs) top
        ∙ append-nil (reverse (prefixes first rest)))
    ∙ reverse-reverse (prefixes first rest)
  where
    no_parent : (fuel : ℕ) → parents_from fuel first ≡ []
    no_parent zero = refl
    no_parent (suc fuel) = rw (parents_from, rsplit_once-plain first plain) refl
