-- ===== src/Sync/Order/Strict.antt =====
-- src/sync/files.rs: what the sorts of paths guarantee.
use vivado_server.Base.{
  ◌≡◌, refl, sym, ap, ◌∙◌, Str, ◌=s=◌, =s=_eq, =s=_self, any, all, Bool, true, false, ◌&&◌, ◌||◌,
  not, Bool-cases, inl, inr, List, [], ◌∷◌, arith,
}
use vivado_server.Sync.Order.{lt_str, insert_by, sort_by, dedup, lt_deepest}

abbrev pub contains_path : Str → List Str → Bool
contains_path path = any (λ p. p =s= path)

lt_str_self : (s : Str) → lt_str s s ≡ false
unfolding lt_str
lt_str_self [] = refl
lt_str_self (c ∷ s) = ground (arith, lt_str_self s)

lt_str_trans : (s t u : Str) → lt_str s t ≡ true → lt_str t u ≡ true → lt_str s u ≡ true
unfolding lt_str
lt_str_trans [] [] u h k = ground arith
lt_str_trans [] (d ∷ t) [] h k = ground arith
lt_str_trans [] (d ∷ t) (e ∷ u) h k = refl
lt_str_trans (c ∷ s) [] u h k = ground arith
lt_str_trans (c ∷ s) (d ∷ t) [] h k = ground arith
lt_str_trans (c ∷ s) (d ∷ t) (e ∷ u) h k = ground (arith, lt_str_trans s t u)

lt_str_connected : (s t : Str) → lt_str s t ≡ false → lt_str t s ≡ false → s ≡ t
unfolding lt_str
lt_str_connected [] [] h k = refl
lt_str_connected [] (d ∷ t) h k = ground arith
lt_str_connected (c ∷ s) [] h k = ground arith
lt_str_connected (c ∷ s) (d ∷ t) h k = ground (arith, lt_str_connected s t)

pub lt_deepest_self : (s : Str) → lt_deepest s s ≡ false
unfolding lt_deepest
lt_deepest_self s = ground (arith, lt_str_self s)

pub lt_deepest_trans :
    (s t u : Str) → lt_deepest s t ≡ true → lt_deepest t u ≡ true → lt_deepest s u ≡ true
unfolding lt_deepest
lt_deepest_trans s t u h k = ground (arith, lt_str_trans s t u)

pub lt_deepest_connected : (s t : Str) → lt_deepest s t ≡ false → lt_deepest t s ≡ false → s ≡ t
unfolding lt_deepest
lt_deepest_connected s t h k = ground (arith, lt_str_connected s t)

-- A test holds of every element and each later one.
abbrev pub Pairwise : {A : Type 0} → (A → A → Bool) → List A → Type 0
Pairwise less [] = Unit {0}
Pairwise less (x ∷ xs) = (all (less x) xs ≡ true) × Pairwise less xs

abbrev pub Weak : {A : Type 0} → (A → A → Bool) → List A → Type 0
Weak less [] = Unit {0}
Weak less (x ∷ xs) = (all (λ y. not (less y x)) xs ≡ true) × Weak less xs

-- A comparison that is one of a total order, up to elements that compare as equal.
pub record IsWeakOrder {A : Type 0} (less : A → A → Bool) : Type 0 where
  pub asym : (a b : A) → less a b ≡ true → less b a ≡ false
  pub not_less_trans : (a b c : A) → less b a ≡ false → less c b ≡ false → less c a ≡ false

module _ {A : Type 0} (less : A → A → Bool) where
  pub any-insert_by :
      (f : A → Bool) (x : A) (ys : List A) → any f (insert_by less x ys) ≡ (f x || any f ys)
  unfolding insert_by
  any-insert_by f x [] = refl
  any-insert_by f x (y ∷ ys) = ground (arith, any-insert_by f x ys)

  pub any-sort_by : (f : A → Bool) (xs : List A) → any f (sort_by less xs) ≡ any f xs
  unfolding sort_by
  any-sort_by f [] = refl
  any-sort_by f (x ∷ xs) =
      any-insert_by f x (sort_by less xs) ∙ ap (λ b. f x || b) (any-sort_by f xs)

  pub all-insert_by :
      (f : A → Bool) (x : A) (ys : List A) → all f (insert_by less x ys) ≡ (f x && all f ys)
  unfolding insert_by
  all-insert_by f x [] = refl
  all-insert_by f x (y ∷ ys) = ground (arith, all-insert_by f x ys)

  module _ (order : IsWeakOrder less) where
    all_after :
        (x y : A) (ys : List A)
        → less y x ≡ false
        → all (λ z. not (less z y)) ys ≡ true
        → all (λ z. not (less z x)) ys ≡ true
    all_after x y [] h k = refl
    all_after x y (z ∷ zs) h k = ground (arith, order.not_less_trans x y z, all_after x y zs)

    insert_by-Weak : (x : A) (ys : List A) → Weak less ys → Weak less (insert_by less x ys)
    unfolding insert_by
    insert_by-Weak x [] w = (refl, tt)
    insert_by-Weak x (y ∷ ys) (first, w) = elim (Bool-cases (less y x)) [
      | inl h ↦ rw h (
        all-insert_by (λ z. not (less z y)) x ys ∙ ground (arith, order.asym y x h, first),
        insert_by-Weak x ys w,
      )
      | inr h ↦ rw h (ground (arith, h, all_after x y ys h first), (first, w))
    ]

    pub sort_by-Weak : (xs : List A) → Weak less (sort_by less xs)
    unfolding sort_by
    sort_by-Weak [] = tt
    sort_by-Weak (x ∷ xs) = insert_by-Weak x (sort_by less xs) (sort_by-Weak xs)

all-dedup : (f : Str → Bool) (xs : List Str) → all f xs ≡ true → all f (dedup xs) ≡ true
unfolding dedup
all-dedup f [] h = refl
all-dedup f (x ∷ []) h = h
all-dedup f (x ∷ y ∷ rest) h = ground (arith, all-dedup f (y ∷ rest))

pub contains-dedup : (p : Str) (xs : List Str) → contains_path p (dedup xs) ≡ contains_path p xs
unfolding dedup
contains-dedup p [] = refl
contains-dedup p (x ∷ []) = refl
contains-dedup p (x ∷ y ∷ rest) = elim (Bool-cases (x =s= y)) [
  | inl same ↦ rw (same, contains-dedup p (y ∷ rest)) (rw (=s=_eq x y same) (ground arith))
  | inr other ↦ rw (other, contains-dedup p (y ∷ rest)) refl
]

-- A comparison of texts that is a strict total order.
pub record IsTotal (less : Str → Str → Bool) : Type 0 where
  pub self : (s : Str) → less s s ≡ false
  pub trans : (s t u : Str) → less s t ≡ true → less t u ≡ true → less s u ≡ true
  pub connected : (s t : Str) → less s t ≡ false → less t s ≡ false → s ≡ t

module _ (less : Str → Str → Bool) (order : IsTotal less) where
  pub total_asym : (a b : Str) → less a b ≡ true → less b a ≡ false
  total_asym a b h = elim (Bool-cases (less b a)) [
    | inl k ↦ absurd (ground (arith, order.trans a b a h k, order.self a))
    | inr k ↦ k
  ]

  total_not_less_trans : (a b c : Str) → less b a ≡ false → less c b ≡ false → less c a ≡ false
  total_not_less_trans a b c h k = elim (Bool-cases (less c a)) [
    | inr l ↦ l
    | inl l ↦ elim (Bool-cases (less a b)) [
      | inl m ↦ absurd (ground (arith, order.trans c a b l m))
      | inr m ↦
          let e : a ≡ b = order.connected a b m h in
          let l' : less c b ≡ true = ap (less c) (sym e) ∙ l in absurd (ground arith)
    ]
  ]

  pub total-IsWeakOrder : IsWeakOrder less
  total-IsWeakOrder = record { asym = total_asym; not_less_trans = total_not_less_trans }

  -- What is not after `x` and comes after something later than `x` is later than `x`.
  all_later :
      (x y : Str) (ys : List Str)
      → less x y ≡ true
      → all (λ z. not (less z y)) ys ≡ true
      → all (less x) ys ≡ true
  all_later x y [] h k = refl
  all_later x y (z ∷ zs) h k = ground (arith, later x y z h, all_later x y zs h)
    where
      later : (x y z : Str) → less x y ≡ true → less z y ≡ false → less x z ≡ true
      later x y z h k = elim (Bool-cases (less x z)) [
        | inl l ↦ l
        | inr l ↦
            absurd (ground (arith, total_not_less_trans z x y, total_not_less_trans y z x k l, h))
      ]

  pub adjacent : (x y : Str) → (x =s= y) ≡ false → less y x ≡ false → less x y ≡ true
  adjacent x y other h = elim (Bool-cases (less x y)) [
    | inl l ↦ l
    | inr l ↦
        let same : (x =s= y) ≡ true =
          ap (λ t. x =s= t) (sym (order.connected x y l h)) ∙ =s=_self x in
        absurd (ground arith)
  ]

  pub dedup-strict : (xs : List Str) → Weak less xs → Pairwise less (dedup xs)
  unfolding dedup
  dedup-strict [] w = tt
  dedup-strict (x ∷ []) w = (refl, tt)
  dedup-strict (x ∷ y ∷ rest) (first, w) = elim (Bool-cases (x =s= y)) [
    | inl same ↦ rw same (dedup-strict (y ∷ rest) w)
    | inr other ↦
        let next : less x y ≡ true = adjacent x y other (ground arith) in
        let others = all_later x y rest next w.0 in
        rw other (all-dedup (less x) (y ∷ rest) (ground arith), dedup-strict (y ∷ rest) w)
  ]

  pub different : (x y : Str) → less x y ≡ true → (x =s= y) ≡ false
  different x y h = elim (Bool-cases (x =s= y)) [
    | inr other ↦ other
    | inl same ↦
        let h' : less y y ≡ true = ap (λ t. less t y) (sym (=s=_eq x y same)) ∙ h in
        absurd (ground (arith, h', order.self y))
  ]

  pub all_pairs :
      (test : Str → Str → Bool)
      → ((x y : Str) → less x y ≡ true → test x y ≡ true)
      → (xs : List Str) → Pairwise less xs
      → Pairwise test xs
  all_pairs test h [] w = tt
  all_pairs test h (x ∷ xs) (first, w) = (go xs first, all_pairs test h xs w)
    where
      go : (ys : List Str) → all (less x) ys ≡ true → all (test x) ys ≡ true
      go [] k = refl
      go (y ∷ ys) k = ground (arith, h x y, go ys)

pub lt_str-IsTotal : IsTotal lt_str
lt_str-IsTotal = record { self = lt_str_self; trans = lt_str_trans; connected = lt_str_connected }

pub lt_str-IsWeakOrder : IsWeakOrder lt_str
lt_str-IsWeakOrder = total-IsWeakOrder lt_str lt_str-IsTotal
