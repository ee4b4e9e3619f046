-- ===== src/Workflow/Prune/Order.antt =====
-- src/workflow.rs: when `prune` must choose, the workflows go that ended first.
use vivado_server.Base.{
  ℕ, zero, suc, ◌-◌, ◌≤◌, leb, ◌==◌, if◌then◌else◌, length, all, Bool, true, false, Bool-cases,
  none, some, List, [], ◌∷◌, ◌≡◌, refl, sym, ap, ◌∙◌, inl, inr, arith,
}
use vivado_server.Base.Maps.{lookup, retain, get_elem?, lookup-retain, NodupKeys, retain-NodupKeys}
use vivado_server.Workflow.Registry.{Manager}
use vivado_server.Workflow.Prune.{
  ended_of, is_retained, ended_list, insert_sorted, sort_by_key, take, forget, prune,
}
use vivado_server.Workflow.Prune.Bounds.{
  has_key, has_key-sort, has_key-none, lookup-remove_keys, lookup-ended_list, ended_list-NodupKeys,
}

abbrev IsSorted : List (ℕ × ℕ) → Type 0
IsSorted [] = Unit
IsSorted (x ∷ xs) = (all (λ y. leb x.1 y.1) xs ≡ true) × IsSorted xs

all-insert_sorted :
    (p : (ℕ × ℕ) → Bool) (x : ℕ × ℕ) (xs : List (ℕ × ℕ))
    → all p (insert_sorted x xs) ≡ all p (x ∷ xs)
all-insert_sorted p x [] = refl
all-insert_sorted p x (y ∷ xs) = ground (arith, all-insert_sorted p x xs)

all-leb :
    (a b : ℕ) (xs : List (ℕ × ℕ))
    → leb a b ≡ true
    → all (λ y. leb b y.1) xs ≡ true
    → all (λ y. leb a y.1) xs ≡ true
all-leb a b [] h k = refl
all-leb a b ((i, e) ∷ xs) h k = ground (arith, all-leb a b xs)

insert_sorted-IsSorted :
    (x : ℕ × ℕ) (xs : List (ℕ × ℕ)) → IsSorted xs → IsSorted (insert_sorted x xs)
insert_sorted-IsSorted x [] s = (refl, tt)
insert_sorted-IsSorted x (y ∷ xs) (a, s) = elim (Bool-cases (leb x.1 y.1)) [
  | inl small ↦ rw (IsSorted, small) (ground (arith, small, all-leb x.1 y.1 xs small a), (a, s))
  | inr large ↦
      rw (IsSorted, large)
        (
          all-insert_sorted (λ z. leb y.1 z.1) x xs ∙ ground (arith, large, a),
          insert_sorted-IsSorted x xs s,
        )
]

sort_by_key-IsSorted : (xs : List (ℕ × ℕ)) → IsSorted (sort_by_key xs)
sort_by_key-IsSorted [] = tt
sort_by_key-IsSorted (x ∷ xs) = insert_sorted-IsSorted x (sort_by_key xs) (sort_by_key-IsSorted xs)

lookup-insert_sorted :
    (k i e : ℕ) (xs : List (ℕ × ℕ))
    → has_key i xs ≡ false
    → lookup k (insert_sorted (i, e) xs) ≡ lookup k ((i, e) ∷ xs)
unfolding lookup
lookup-insert_sorted k i e [] h = refl
lookup-insert_sorted k i e ((j, f) ∷ xs) h = ground (arith, lookup-insert_sorted k i e xs)

lookup-sort : (k : ℕ) (xs : List (ℕ × ℕ)) → NodupKeys xs → lookup k (sort_by_key xs) ≡ lookup k xs
unfolding lookup
lookup-sort k [] u = refl
lookup-sort k ((i, e) ∷ xs) (fresh, u) =
    lookup-insert_sorted k i e (sort_by_key xs) (has_key-sort i xs ∙ has_key-none i xs fresh)
    ∙ ap (λ o. if i == k then some e else o) (lookup-sort k xs u)

-- A taken key has the value of the whole list.
lookup-take :
    (n k : ℕ) (xs : List (ℕ × ℕ))
    → has_key k (take n xs) ≡ true
    → lookup k (take n xs) ≡ lookup k xs
unfolding lookup
lookup-take zero k xs h = ground arith
lookup-take (suc n) k [] h = refl
lookup-take (suc n) k ((i, e) ∷ xs) h = ground (arith, lookup-take n k xs)

all-lookup :
    (a k e : ℕ) (xs : List (ℕ × ℕ)) → all (λ y. leb a y.1) xs ≡ true → lookup k xs ≡ some e → a ≤ e
unfolding lookup
all-lookup a k e [] h l = ground arith
all-lookup a k e ((j, f) ∷ xs) h l = ground (arith, all-lookup a k e xs)

-- What is taken of a sorted list is not larger than what is left.
take-least :
    (n k j e f : ℕ) (xs : List (ℕ × ℕ))
    → IsSorted xs
    → lookup k xs ≡ some e
    → has_key k (take n xs) ≡ true
    → lookup j xs ≡ some f
    → has_key j (take n xs) ≡ false
    → e ≤ f
unfolding lookup
take-least zero k j e f xs s a b c d = ground arith
take-least (suc n) k j e f [] s a b c d = ground arith
take-least (suc n) k j e f ((i, g) ∷ xs) (le, s) a b c d =
    ground (arith, all-lookup g j f xs le, take-least n k j e f xs s)

-- A workflow that goes although it could be retained ended no later than one that stays.
pub prune-oldest :
    (retention most id id' h h' ended ended' : ℕ) (m : Manager)
    → NodupKeys m.entries
    → lookup id m.entries ≡ some h
    → is_retained retention m.now m.objects id h ≡ true
    → ended_of (get_elem? m.objects h) ≡ some ended
    → lookup id (prune retention most m).entries ≡ none
    → ended_of (get_elem? m.objects h') ≡ some ended'
    → lookup id' (prune retention most m).entries ≡ some h'
    → ended ≤ ended'
unfolding prune forget
prune-oldest retention most id id' h h' ended ended' m u known young over gone over' stays =
    let p = is_retained retention m.now m.objects in
    let es = retain p m.entries in
    let v = retain-NodupKeys p m.entries u in
    let s = sort_by_key (ended_list m.objects es) in
    let n = length s - most in
    let here : lookup id es ≡ some h = lookup-retain p id h m.entries u known ∙ rw young in
    let sorted_as : (k : ℕ) → lookup k s ≡ lookup k (ended_list m.objects es) =
      λ k. lookup-sort k (ended_list m.objects es) (ended_list-NodupKeys m.objects es v) in
    let gone' = sym (lookup-remove_keys id (take n s) es) ∙ gone in
    let stays' = sym (lookup-remove_keys id' (take n s) es) ∙ stays in
    let here' : lookup id' es ≡ some h' = ground (arith, stays') in
    take-least n id id' ended ended' s (sort_by_key-IsSorted (ended_list m.objects es))
      (sorted_as id ∙ lookup-ended_list m.objects id h es v here ∙ over)
      (ground (arith, gone', here))
      (sorted_as id' ∙ lookup-ended_list m.objects id' h' es v here' ∙ over')
      (ground (arith, stays'))
