-- ===== src/Base/Maps.antt =====
-- A `HashMap` keyed by numbers (the UUIDs) as an association list, and a store of shared objects
-- as a list that an `Arc` indexes.
use Prim.Native.Nat.{ℕ, zero, suc}
use mathlib.Core.Path.{◌≡◌, refl, ap}
use mathlib.Core.Logic.{◌≢◌, ◌⊎◌, inl, inr}
use mathlib.Core.Bool.{Bool}
use mathlib.Core.Option.{Option, none, some}
use mathlib.Core.List.{List, [], ◌∷◌, ◌++◌}
use native.Mathlib.Omega.{arith}
use vivado_server.Base.Tests.{◌==◌, if◌then◌else◌}
use vivado_server.Base.Lists.{length}

module _ {ℓ} {V : Type ℓ} where
  unfoldable pub lookup : ℕ → List (ℕ × V) → Option V
  lookup key [] = none
  lookup key ((id, value) ∷ rest) = if id == key then some value else lookup key rest

  -- `HashMap::insert`: one entry per key.
  unfoldable pub insert : ℕ → V → List (ℕ × V) → List (ℕ × V)
  insert key new [] = (key, new) ∷ []
  insert key new ((id, value) ∷ rest) =
      if id == key then (key, new) ∷ rest else (id, value) ∷ insert key new rest

  -- `HashMap::remove`
  unfoldable pub remove : ℕ → List (ℕ × V) → List (ℕ × V)
  remove k [] = []
  remove k ((j, w) ∷ m) = let rest = remove k m in if j == k then rest else (j, w) ∷ rest

  -- `HashMap::retain`
  unfoldable pub retain : (ℕ → V → Bool) → List (ℕ × V) → List (ℕ × V)
  retain p [] = []
  retain p ((j, w) ∷ m) = let rest = retain p m in if p j w then (j, w) ∷ rest else rest

  pub lookup-insert :
      (wanted key : ℕ) (new : V) (entries : List (ℕ × V))
      → lookup wanted (insert key new entries)
        ≡ (if key == wanted then some new else lookup wanted entries)
  unfolding lookup insert
  lookup-insert wanted key new [] = refl
  lookup-insert wanted key new ((id, value) ∷ rest) =
      ground (arith, lookup-insert wanted key new rest)

  pub lookup-remove :
      (j k : ℕ) (m : List (ℕ × V)) → lookup j (remove k m) ≡ (if k == j then none else lookup j m)
  unfolding lookup remove
  lookup-remove j k [] = ground arith
  lookup-remove j k ((i, w) ∷ m) = ground (arith, lookup-remove j k m)

  -- At most one entry per key.
  abbrev pub NodupKeys : List (ℕ × V) → Type ℓ
  NodupKeys [] = Unit
  NodupKeys ((k, v) ∷ m) = (lookup k m ≡ none) × NodupKeys m

  pub insert-NodupKeys : (k : ℕ) (v : V) (m : List (ℕ × V)) → NodupKeys m → NodupKeys (insert k v m)
  unfolding insert lookup
  insert-NodupKeys k v [] u = (refl, tt)
  insert-NodupKeys k v ((j, w) ∷ m) (fresh, u) =
      ground (arith, insert-NodupKeys k v m u, lookup-insert j k v m)

  pub remove-NodupKeys : (k : ℕ) (m : List (ℕ × V)) → NodupKeys m → NodupKeys (remove k m)
  unfolding remove lookup
  remove-NodupKeys k [] u = tt
  remove-NodupKeys k ((j, w) ∷ m) (fresh, u) =
      ground (arith, remove-NodupKeys k m u, lookup-remove j k m)

  pub lookup-retain-none :
      (p : ℕ → V → Bool) (k : ℕ) (m : List (ℕ × V))
      → lookup k m ≡ none
      → lookup k (retain p m) ≡ none
  unfolding retain lookup
  lookup-retain-none p k [] h = refl
  lookup-retain-none p k ((j, w) ∷ m) h = ground (arith, lookup-retain-none p k m)

  pub retain-NodupKeys :
      (p : ℕ → V → Bool) (m : List (ℕ × V)) → NodupKeys m → NodupKeys (retain p m)
  unfolding retain lookup
  retain-NodupKeys p [] u = tt
  retain-NodupKeys p ((j, w) ∷ m) (fresh, u) =
      ground (arith, retain-NodupKeys p m u, lookup-retain-none p j m fresh)

  -- Where no key is listed twice, a key keeps its value exactly if the value passes.
  pub lookup-retain :
      (p : ℕ → V → Bool) (k : ℕ) (v : V) (m : List (ℕ × V))
      → NodupKeys m
      → lookup k m ≡ some v
      → lookup k (retain p m) ≡ (if p k v then some v else none)
  unfolding retain lookup
  lookup-retain p k v [] u h = ground arith
  lookup-retain p k v ((j, w) ∷ m) (fresh, u) h =
      ground (arith, lookup-retain p k v m u, lookup-retain-none p j m fresh)

module _ {ℓ} {A : Type ℓ} where
  abbrev pub get_elem? : List A → ℕ → Option A
  get_elem? [] i = none
  get_elem? (x ∷ xs) zero = some x
  get_elem? (x ∷ xs) (suc i) = get_elem? xs i

  -- A write out of bounds changes nothing.
  abbrev pub set : List A → ℕ → A → List A
  set [] i v = []
  set (x ∷ xs) zero v = v ∷ xs
  set (x ∷ xs) (suc i) v = x ∷ set xs i v

  pub get_elem?-set :
      (xs : List A) (i j : ℕ) (v : A) {y : A}
      → get_elem? (set xs i v) j ≡ some y
      → ((i ≡ j) × (y ≡ v)) ⊎ ((i ≢ j) × (get_elem? xs j ≡ some y))
  get_elem?-set [] i j v h = ground arith
  get_elem?-set (x ∷ xs) zero zero v h = inl (refl, ground arith)
  get_elem?-set (x ∷ xs) zero (suc j) v h = inr (omega arith, h)
  get_elem?-set (x ∷ xs) (suc i) zero v h = inr (omega arith, h)
  get_elem?-set (x ∷ xs) (suc i) (suc j) v h = elim (get_elem?-set xs i j v h) [
    | inl (e, f) ↦ inl (ap suc e, f)
    | inr (n, f) ↦ inr (omega arith, f)
  ]

  pub get_elem?-set_self :
      (xs : List A) (i : ℕ) (v : A) {x : A}
      → get_elem? xs i ≡ some x
      → get_elem? (set xs i v) i ≡ some v
  get_elem?-set_self [] i v h = ground arith
  get_elem?-set_self (x ∷ xs) zero v h = refl
  get_elem?-set_self (x ∷ xs) (suc i) v h = get_elem?-set_self xs i v h

  pub get_elem?-set_ne :
      (xs : List A) (i j : ℕ) (v : A) → i ≢ j → get_elem? (set xs i v) j ≡ get_elem? xs j
  get_elem?-set_ne [] i j v h = refl
  get_elem?-set_ne (x ∷ xs) zero zero v h = absurd (h refl)
  get_elem?-set_ne (x ∷ xs) zero (suc j) v h = refl
  get_elem?-set_ne (x ∷ xs) (suc i) zero v h = refl
  get_elem?-set_ne (x ∷ xs) (suc i) (suc j) v h = get_elem?-set_ne xs i j v (λ e. h (ap suc e))

  pub get_elem?-append :
      (xs : List A) (v : A) (j : ℕ) {y : A}
      → get_elem? (xs ++ (v ∷ [])) j ≡ some y
      → ((j ≡ length xs) × (y ≡ v)) ⊎ (get_elem? xs j ≡ some y)
  get_elem?-append [] v zero h = inl (refl, ground arith)
  get_elem?-append [] v (suc j) h = ground arith
  get_elem?-append (x ∷ xs) v zero h = inr h
  get_elem?-append (x ∷ xs) v (suc j) h = elim (get_elem?-append xs v j h) [
    | inl (e, f) ↦ inl (ap suc e, f)
    | inr f ↦ inr f
  ]

  pub get_elem?-append_left :
      (xs : List A) (v : A) (j : ℕ) {y : A}
      → get_elem? xs j ≡ some y
      → get_elem? (xs ++ (v ∷ [])) j ≡ some y
  get_elem?-append_left [] v j h = ground arith
  get_elem?-append_left (x ∷ xs) v zero h = h
  get_elem?-append_left (x ∷ xs) v (suc j) h = get_elem?-append_left xs v j h

  pub get_elem?-append_last :
      (xs : List A) (v : A) → get_elem? (xs ++ (v ∷ [])) (length xs) ≡ some v
  get_elem?-append_last [] v = refl
  get_elem?-append_last (x ∷ xs) v = get_elem?-append_last xs v
