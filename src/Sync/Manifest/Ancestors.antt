-- ===== src/Sync/Manifest/Ancestors.antt =====
-- src/sync/files.rs: the parents of a path are the paths that it is below.
use mathlib.Core.List.{reverse-cons, append_assoc}
use vivado_server.Base.{
  ℕ, zero, suc, ◌+◌, ◌≤◌, ◌<◌, ◌≡◌, refl, subst, sym, ap, ◌∙◌, Str, len, len-append, ◌=s=◌, ◌==◌,
  ==_iff, any, length, Bool, true, false, ◌||◌, Bool-cases, Option-cases, inl, inr, none, some,
  List, [], ◌∷◌, ◌++◌, reverse, arith,
}
use vivado_server.Sync.Paths.{slash, split, rsplit_once, parents_from, parent_paths}
use vivado_server.Sync.Paths.Segments.{split-cons}
use vivado_server.Sync.Paths.Normalize.{AllPortable, IsSyncPath}
use vivado_server.Sync.Order.{starts_with, is_below}
use vivado_server.Sync.Order.Strict.{contains_path}

pub any-append {ℓ} :
    {A : Type ℓ} (f : A → Bool) (xs ys : List A) → any f (xs ++ ys) ≡ (any f xs || any f ys)
any-append f [] ys = refl
any-append f (x ∷ xs) ys = ground (arith, any-append f xs ys)

any-reverse {ℓ} : {A : Type ℓ} (f : A → Bool) (xs : List A) → any f (reverse xs) ≡ any f xs
any-reverse f [] = refl
any-reverse f (x ∷ xs) =
    ap (any f) (reverse-cons x xs)
    ∙ any-append f (reverse xs) (x ∷ [])
    ∙ ground (arith, any-reverse f xs)

plain-below : (q p : Str) → rsplit_once q ≡ none → is_below q p ≡ false
unfolding rsplit_once starts_with
plain-below [] [] h = refl
plain-below [] (d ∷ p) h = refl
plain-below (c ∷ q) [] h = ground arith
plain-below (c ∷ q) (d ∷ p) h = ground (arith, plain-below q p)

slash-below :
    (q p : Str) → rsplit_once q ≡ none → is_below (slash ∷ q) p ≡ ([] =s= p || is_below [] p)
unfolding starts_with ◌=s=◌
slash-below q [] h = refl
slash-below q (d ∷ p) h = ground (arith, plain-below q p h)

cons-below :
    (c : ℕ) (q a p : Str)
    → ((p : Str) → is_below q p ≡ (a =s= p || is_below a p))
    → is_below (c ∷ q) p ≡ ((c ∷ a) =s= p || is_below (c ∷ a) p)
unfolding starts_with ◌=s=◌
cons-below c q a [] h = refl
cons-below c q a (d ∷ p) h = ground (arith, h p)

-- A path is below its nearest parent, and below what that is below.
parent-below : (q p a : Str) → rsplit_once q ≡ some a → is_below q p ≡ (a =s= p || is_below a p)
unfolding rsplit_once
parent-below [] p a h = ground arith
parent-below (c ∷ q) p a h = elim (Option-cases (rsplit_once q)) [
  | inl plain ↦
      let at : c ≡ slash = ground (arith, ==_iff c slash) in
      let top : [] ≡ a = ground arith in rw (at, ← top) (slash-below q p plain)
  | inr (a', e) ↦
      let whole : c ∷ a' ≡ a = ground arith in
      rw (← whole) (cons-below c q a' p (λ p'. parent-below q p' a' e))
]

rsplit_once-length : (q a : Str) → rsplit_once q ≡ some a → length a < length q
unfolding rsplit_once
rsplit_once-length [] a h = ground arith
rsplit_once-length (c ∷ q) a h = elim (Option-cases (rsplit_once q)) [
  | inl plain ↦ ground arith
  | inr (a', e) ↦
      let whole : a ≡ c ∷ a' = ground arith in rw whole (omega (arith, rsplit_once-length q a' e))
]

parents_from-below :
    (fuel : ℕ) (q p : Str) → length q ≤ fuel → contains_path p (parents_from fuel q) ≡ is_below q p
unfolding parents_from rsplit_once
parents_from-below zero [] p h = sym (plain-below [] p refl)
parents_from-below zero (c ∷ q) p h = absurd (omega arith)
parents_from-below (suc fuel) q p h = elim (Option-cases (rsplit_once q)) [
  | inl plain ↦ rw (parents_from, plain) (sym (plain-below q p plain))
  | inr (a, e) ↦
      let shorter = rsplit_once-length q a e in
      rw (parents_from, e)
        (ap (λ b. a =s= p || b) (parents_from-below fuel a p (omega arith))
          ∙ sym (parent-below q p a e))
]

pub parent_paths-below : (q p : Str) → contains_path p (parent_paths q) ≡ is_below q p
unfolding parent_paths
parent_paths-below q p =
    any-reverse (λ r. r =s= p) (parents_from (length q) q)
    ∙ parents_from-below (length q) q p (omega arith)

-- What a path below a directory consists of.
below-split : (q p : Str) → is_below q p ≡ true → (r : Str) × (q ≡ p ++ (slash ∷ r))
unfolding starts_with
below-split [] [] h = absurd (ground arith)
below-split (c ∷ q) [] h = (q, ground (arith, ==_iff slash c))
below-split [] (d ∷ p) h = absurd (ground arith)
below-split (c ∷ q) (d ∷ p) h =
    let (r, e) = below-split q p (ground arith) in (r, ground (arith, e, ==_iff d c))

append-below : (p r : Str) → is_below (p ++ (slash ∷ r)) p ≡ true
unfolding starts_with
append-below [] r = refl
append-below (d ∷ p) r = ground (arith, append-below p r)

pub below_trans : (a b c : Str) → is_below a b ≡ true → is_below b c ≡ true → is_below a c ≡ true
below_trans a b c h k =
    let (r, e) = below-split a b h in
    let (t, f) = below-split b c k in
    let whole : a ≡ c ++ (slash ∷ (t ++ (slash ∷ r))) =
      e ∙ ap (λ x. x ++ (slash ∷ r)) f ∙ append_assoc c (slash ∷ t) (slash ∷ r) in
    rw whole (append-below c (t ++ (slash ∷ r)))

split-append : (p r : Str) → split (p ++ (slash ∷ r)) ≡ split p ++ split r
unfolding split
split-append [] r = refl
split-append (c ∷ p) r =
    let (first, rest, e) = split-cons p in
    let ih : split (p ++ (slash ∷ r)) ≡ (first ∷ rest) ++ split r =
      split-append p r ∙ ap (λ x. x ++ split r) e in
    elim (Bool-cases (c == slash)) [
      | inl at ↦ ground (arith, at, ih, e)
      | inr within ↦ ground (arith, within, ih, e)
    ]

portable_front : (xs ys : List Str) → AllPortable (xs ++ ys) → AllPortable xs
portable_front [] ys h = tt
portable_front (x ∷ xs) ys (first, h) = (first, portable_front xs ys h)

-- A directory that an accepted path goes through has an accepted path.
pub below-IsSyncPath : (q p : Str) → is_below q p ≡ true → IsSyncPath q → IsSyncPath p
below-IsSyncPath q p h v =
    let (r, e) = below-split q p h in
    let parts : split q ≡ split p ++ split r = ap split e ∙ split-append p r in
    let size : len q ≡ len p + len (slash ∷ r) = ap len e ∙ len-append p (slash ∷ r) in
    record {
      short = omega (arith, size, v.short);
      portable = portable_front (split p) (split r) (subst AllPortable parts v.portable);
    }
