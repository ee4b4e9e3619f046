-- ===== src/Sync/Paths/Segments.antt =====
-- src/sync/files.rs: splitting a path at its slashes and joining the segments again.
use vivado_server.Base.{
  ℕ, ◌≡◌, refl, sym, ap, ap₂, ◌∙◌, Str, ◌==◌, ==_iff, Bool-cases, false, inl, inr, List, [], ◌∷◌,
  ◌++◌, arith,
}
use vivado_server.Sync.Paths.{slash, prepend, split, join, contains_char}

-- `split` returns at least one segment.
pub split-cons : (s : Str) → (first : Str) × (rest : List Str) × (split s ≡ first ∷ rest)
unfolding split
split-cons [] = ([], [], refl)
split-cons (c ∷ s) = elim (Bool-cases (c == slash)) [
  | inl at ↦ ([], split s, rw at)
  | inr within ↦ let (first, rest, e) = split-cons s in (c ∷ first, rest, rw (within, e))
]

join-prepend :
    (c : ℕ) (first : Str) (rest : List Str)
    → join (prepend c (first ∷ rest)) ≡ c ∷ join (first ∷ rest)
unfolding join prepend
join-prepend c first [] = refl
join-prepend c first (next ∷ rest) = refl

-- Joining the segments of a path gives the path.
pub join-split : (path : Str) → join (split path) ≡ path
unfolding split join
join-split [] = refl
join-split (c ∷ s) =
    let (first, rest, e) = split-cons s in
    let ih : join (first ∷ rest) ≡ s = ap join (sym e) ∙ join-split s in
    elim (Bool-cases (c == slash)) [
      | inl at ↦ rw (at, e) (ap₂ ◌∷◌ (sym ((==_iff c slash).0 at)) ih)
      | inr within ↦ rw (within, e) (join-prepend c first rest ∙ ap (◌∷◌ c) ih)
    ]

-- No segment holds a slash.
abbrev pub NoSlash : List Str → Type 0
NoSlash [] = Unit {0}
NoSlash (segment ∷ rest) = (contains_char slash segment ≡ false) × NoSlash rest

pub split-NoSlash : (path : Str) → NoSlash (split path)
unfolding split contains_char
split-NoSlash [] = (refl, tt)
split-NoSlash (c ∷ s) =
    let (first, rest, e) = split-cons s in
    let (plain, others) : NoSlash (first ∷ rest) = rw e at (split-NoSlash s) in
    elim (Bool-cases (c == slash)) [
      | inl at ↦ rw (at, e) (refl, (plain, others))
      | inr within ↦ rw (within, e) (ground arith, others)
    ]

split_plain : (segment : Str) → contains_char slash segment ≡ false → split segment ≡ segment ∷ []
unfolding split contains_char
split_plain [] h = refl
split_plain (c ∷ s) h = rw (split_plain s (ground arith)) (ground arith)

split-append :
    (segment t : Str)
    → contains_char slash segment ≡ false
    → split (segment ++ (slash ∷ t)) ≡ segment ∷ split t
unfolding split contains_char
split-append [] t h = refl
split-append (c ∷ s) t h = rw (split-append s t (ground arith)) (ground arith)

-- Splitting what was joined from segments without slashes gives the segments.
pub split-join :
    (first : Str) (rest : List Str)
    → NoSlash (first ∷ rest)
    → split (join (first ∷ rest)) ≡ first ∷ rest
unfolding join
split-join first [] h = split_plain first h.0
split-join first (next ∷ rest) (plain, others) =
    split-append first (join (next ∷ rest)) plain ∙ ap (◌∷◌ first) (split-join next rest others)
