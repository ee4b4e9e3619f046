-- ===== src/Sync/Sessions/Steps/Count.antt =====
-- src/sync.rs: counting the sessions that have a property.
use vivado_server.Base.{
  ℕ, zero, suc, ◌+◌, ◌≤◌, ◌≡◌, refl, ap, Bool-cases, inl, inr, Bool, true, some, List, [], ◌∷◌,
  ◌++◌, arith,
}
use vivado_server.Base.Maps.{get_elem?, set}
use vivado_server.Sync.Sessions.Registry.{count_of}

module _ {A : Type 0} (p : A → Bool) where
  abbrev pub count : List A → ℕ
  count [] = 0
  count (x ∷ xs) = count_of (p x) + count xs

  pub count-append : (xs : List A) (y : A) → count (xs ++ (y ∷ [])) ≡ count xs + count_of (p y)
  count-append [] y = omega arith
  count-append (x ∷ xs) y = omega (arith, count-append xs y)

  pub count-set :
      (xs : List A) (h : ℕ) (x y : A)
      → get_elem? xs h ≡ some x
      → count (set xs h y) + count_of (p x) ≡ count xs + count_of (p y)
  count-set [] h x y e = ground arith
  count-set (z ∷ xs) zero x y e = ground arith
  count-set (z ∷ xs) (suc h) x y e = omega (arith, count-set xs h x y e)

  pub count-at : (xs : List A) (h : ℕ) (x : A) → get_elem? xs h ≡ some x → count_of (p x) ≤ count xs
  count-at [] h x e = ground arith
  count-at (z ∷ xs) zero x e = ground arith
  count-at (z ∷ xs) (suc h) x e = omega (arith, count-at xs h x e)

  -- Two of them are counted twice.
  pub count-two :
      (xs : List A) (h k : ℕ) (x y : A)
      → get_elem? xs h ≡ some x
      → get_elem? xs k ≡ some y
      → p x ≡ true
      → p y ≡ true
      → count xs ≤ 1
      → h ≡ k
  count-two [] h k x y e f a b c = ground arith
  count-two (z ∷ xs) zero zero x y e f a b c = refl
  count-two (z ∷ xs) zero (suc k) x y e f a b c = ground (arith, count-at xs k y f)
  count-two (z ∷ xs) (suc h) zero x y e f a b c = ground (arith, count-at xs h x e)
  count-two (z ∷ xs) (suc h) (suc k) x y e f a b c =
      ap suc (count-two xs h k x y e f a b (omega arith))

  -- What is counted is there.
  pub count-some :
      (xs : List A) → 1 ≤ count xs → (h : ℕ) × (x : A) × (get_elem? xs h ≡ some x) × (p x ≡ true)
  count-some [] c = absurd (omega arith)
  count-some (z ∷ xs) c = elim (Bool-cases (p z)) [
    | inl y ↦ (0, z, refl, y)
    | inr n ↦ let (h, x, at, y) = count-some xs (ground arith) in (suc h, x, at, y)
  ]
