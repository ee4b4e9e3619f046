-- ===== src/Workflow/Prune/Bounds.antt =====
-- src/workflow.rs: what `prune` keeps, and how much of it.
use vivado_server.Base.{
  ℕ, zero, suc, ◌-◌, ◌≤◌, ◌==◌, if◌then◌else◌, length, Bool, false, ◌||◌, Option-cases, none, some,
  List, [], ◌∷◌, ◌≡◌, refl, sym, ap, ◌∙◌, inl, inr, ==_iff, arith,
}
use vivado_server.Base.Maps.{
  lookup, remove, retain, get_elem?, lookup-remove, lookup-retain, NodupKeys, remove-NodupKeys,
  retain-NodupKeys,
}
use vivado_server.Workflow.Model.{Workflow}
use vivado_server.Workflow.Registry.{Manager}
use vivado_server.Workflow.Prune.{
  ended_of, is_retained, ended_list, insert_sorted, sort_by_key, take, remove_keys, forget, prune,
}

abbrev pub has_key : ℕ → List (ℕ × ℕ) → Bool
has_key k [] = false
has_key k ((j, e) ∷ xs) = j == k || has_key k xs

-- What is left of a list without the keys of another.
abbrev pub without : List (ℕ × ℕ) → List (ℕ × ℕ) → List (ℕ × ℕ)
without ks [] = []
without ks ((j, e) ∷ xs) = let rest = without ks xs in if has_key j ks then rest else (j, e) ∷ rest

pub has_key-insert_sorted :
    (k : ℕ) (x : ℕ × ℕ) (xs : List (ℕ × ℕ)) → has_key k (insert_sorted x xs) ≡ has_key k (x ∷ xs)
has_key-insert_sorted k (i, e) [] = refl
has_key-insert_sorted k (i, e) ((j, f) ∷ xs) = ground (arith, has_key-insert_sorted k (i, e) xs)

pub has_key-sort : (k : ℕ) (xs : List (ℕ × ℕ)) → has_key k (sort_by_key xs) ≡ has_key k xs
has_key-sort k [] = refl
has_key-sort k ((i, e) ∷ xs) =
    has_key-insert_sorted k (i, e) (sort_by_key xs) ∙ ap (λ b. i == k || b) (has_key-sort k xs)

pub has_key-take :
    (k n : ℕ) (xs : List (ℕ × ℕ)) → has_key k xs ≡ false → has_key k (take n xs) ≡ false
has_key-take k zero xs h = refl
has_key-take k (suc n) [] h = refl
has_key-take k (suc n) ((i, e) ∷ xs) h = ground (arith, has_key-take k n xs)

without_nil : (xs : List (ℕ × ℕ)) → without [] xs ≡ xs
without_nil [] = refl
without_nil ((j, e) ∷ xs) = ap (λ ys. (j, e) ∷ ys) (without_nil xs)

without-remove :
    (k e : ℕ) (ks xs : List (ℕ × ℕ)) → without ks (remove k xs) ≡ without ((k, e) ∷ ks) xs
unfolding remove
without-remove k e ks [] = refl
without-remove k e ks ((j, f) ∷ xs) = ground (arith, without-remove k e ks xs)

remove_keys-without : (ks xs : List (ℕ × ℕ)) → remove_keys ks xs ≡ without ks xs
remove_keys-without [] xs = sym (without_nil xs)
remove_keys-without ((k, e) ∷ ks) xs =
    remove_keys-without ks (remove k xs) ∙ without-remove k e ks xs

pub lookup-remove_keys :
    (k : ℕ) (ks xs : List (ℕ × ℕ))
    → lookup k (remove_keys ks xs) ≡ (if has_key k ks then none else lookup k xs)
lookup-remove_keys k [] xs = refl
lookup-remove_keys k ((j, e) ∷ ks) xs =
    ground (arith, lookup-remove_keys k ks (remove j xs), lookup-remove k j xs)

pub remove_keys-NodupKeys : (ks xs : List (ℕ × ℕ)) → NodupKeys xs → NodupKeys (remove_keys ks xs)
remove_keys-NodupKeys [] xs u = u
remove_keys-NodupKeys ((j, e) ∷ ks) xs u =
    remove_keys-NodupKeys ks (remove j xs) (remove-NodupKeys j xs u)

ended_list-without :
    (objects : List Workflow) (ks es : List (ℕ × ℕ))
    → ended_list objects (without ks es) ≡ without ks (ended_list objects es)
unfolding ended_list
ended_list-without objects ks [] = refl
ended_list-without objects ks ((id, h) ∷ es) =
    elim (Option-cases (ended_of (get_elem? objects h))) [
      | inl live ↦ ground (arith, ended_list-without objects ks es)
      | inr (e, over) ↦ ground (arith, ended_list-without objects ks es)
    ]

length-without-insert_sorted :
    (ks : List (ℕ × ℕ)) (x : ℕ × ℕ) (xs : List (ℕ × ℕ))
    → length (without ks (insert_sorted x xs)) ≡ length (without ks (x ∷ xs))
length-without-insert_sorted ks (i, e) [] = refl
length-without-insert_sorted ks (i, e) ((j, f) ∷ xs) =
    ground (arith, length-without-insert_sorted ks (i, e) xs)

length-without-sort :
    (ks xs : List (ℕ × ℕ)) → length (without ks (sort_by_key xs)) ≡ length (without ks xs)
length-without-sort ks [] = refl
length-without-sort ks ((i, e) ∷ xs) =
    length-without-insert_sorted ks (i, e) (sort_by_key xs)
    ∙ ground (arith, length-without-sort ks xs)

length-insert_sorted :
    (x : ℕ × ℕ) (xs : List (ℕ × ℕ)) → length (insert_sorted x xs) ≡ suc (length xs)
length-insert_sorted x [] = refl
length-insert_sorted x (y ∷ xs) = ground (arith, length-insert_sorted x xs)

length-without : (ks xs : List (ℕ × ℕ)) → length (without ks xs) ≤ length xs
length-without ks [] = omega arith
length-without ks ((j, e) ∷ xs) = ground (arith, length-without ks xs)

without-weaker :
    (k e : ℕ) (ks xs : List (ℕ × ℕ)) → length (without ((k, e) ∷ ks) xs) ≤ length (without ks xs)
without-weaker k e ks [] = omega arith
without-weaker k e ks ((j, f) ∷ xs) = ground (arith, without-weaker k e ks xs)

-- Without the keys of its first entries, a list has at most the others.
length-without-take : (n : ℕ) (xs : List (ℕ × ℕ)) → length (without (take n xs) xs) ≤ length xs - n
length-without-take zero xs = ground (arith, without_nil xs)
length-without-take (suc n) [] = omega arith
length-without-take (suc n) ((j, e) ∷ xs) =
    ground (arith, ==_iff j j, length-without-take n xs, without-weaker j e (take n xs) xs)

forget-bounded :
    (most : ℕ) (objects : List Workflow) (es : List (ℕ × ℕ))
    → length (ended_list objects (forget most objects es)) ≤ most
unfolding forget
forget-bounded most objects es =
    let over = ended_list objects es in
    let s = sort_by_key over in
    let ks = take (length s - most) s in
    rw (remove_keys-without ks es, ended_list-without objects ks es)
      (let a = length-without-sort ks over in
        let b = length-without-take (length s - most) s in omega (arith, a, b))

-- After pruning, the registry has at most as many ended workflows as it may retain.
pub prune-bounded :
    (retention most : ℕ) (m : Manager)
    → length (ended_list m.objects (prune retention most m).entries) ≤ most
unfolding prune
prune-bounded retention most m = forget-bounded most m.objects _

ended_list-none :
    (objects : List Workflow) (k : ℕ) (es : List (ℕ × ℕ))
    → lookup k es ≡ none
    → lookup k (ended_list objects es) ≡ none
unfolding ended_list lookup
ended_list-none objects k [] h = refl
ended_list-none objects k ((id, j) ∷ es) h = elim (Option-cases (ended_of (get_elem? objects j))) [
  | inl live ↦ ground (arith, ended_list-none objects k es)
  | inr (e, over) ↦ ground (arith, ended_list-none objects k es)
]

-- The list holds an ID exactly if its workflow is over.
pub lookup-ended_list :
    (objects : List Workflow) (k h : ℕ) (es : List (ℕ × ℕ))
    → NodupKeys es
    → lookup k es ≡ some h
    → lookup k (ended_list objects es) ≡ ended_of (get_elem? objects h)
unfolding ended_list lookup
lookup-ended_list objects k h [] u e = ground arith
lookup-ended_list objects k h ((id, j) ∷ es) (fresh, u) e =
    elim (Option-cases (ended_of (get_elem? objects j))) [
      | inl live ↦
          ground (arith, lookup-ended_list objects k h es u, ended_list-none objects id es fresh)
      | inr (o, over) ↦
          ground (arith, lookup-ended_list objects k h es u, ended_list-none objects id es fresh)
    ]

pub ended_list-NodupKeys :
    (objects : List Workflow) (es : List (ℕ × ℕ)) → NodupKeys es → NodupKeys (ended_list objects es)
unfolding ended_list
ended_list-NodupKeys objects [] u = tt
ended_list-NodupKeys objects ((id, h) ∷ es) (fresh, u) =
    elim (Option-cases (ended_of (get_elem? objects h))) [
      | inl live ↦ rw (NodupKeys, live) (ended_list-NodupKeys objects es u)
      | inr (e, over) ↦
          rw (NodupKeys, over)
            (ended_list-none objects id es fresh, ended_list-NodupKeys objects es u)
    ]

pub has_key-none : (k : ℕ) (xs : List (ℕ × ℕ)) → lookup k xs ≡ none → has_key k xs ≡ false
unfolding lookup
has_key-none k [] h = refl
has_key-none k ((j, e) ∷ xs) h = ground (arith, has_key-none k xs)

-- A workflow that is not over stays in the registry.
pub prune-live :
    (retention most id h : ℕ) (m : Manager)
    → NodupKeys m.entries
    → lookup id m.entries ≡ some h
    → ended_of (get_elem? m.objects h) ≡ none
    → lookup id (prune retention most m).entries ≡ some h
unfolding prune forget is_retained
prune-live retention most id h m u known live =
    let p = is_retained retention m.now m.objects in
    let es = retain p m.entries in
    let kept : lookup id es ≡ some h = lookup-retain p id h m.entries u known ∙ rw live in
    let over = ended_list m.objects es in
    let out : has_key id over ≡ false =
      has_key-none id over
        (lookup-ended_list m.objects id h es (retain-NodupKeys p m.entries u) kept ∙ live) in
    let n = length (sort_by_key over) - most in
    lookup-remove_keys id (take n (sort_by_key over)) es
    ∙ rw (has_key-take id n (sort_by_key over) (has_key-sort id over ∙ out)) kept
