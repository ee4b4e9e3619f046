-- ===== src/Sync/Manifest/Entries.antt =====
-- src/sync/files.rs: lists of entries as maps by path.
use mathlib.Core.List.{append_assoc, append-nil}
use vivado_server.Base.{
  ◌≡◌, refl, sym, ap, ◌∙◌, Str, ◌=s=◌, =s=_eq, =s=_self, =s=_sym, suc, if◌then◌else◌, any, all,
  length, Bool, true, false, ◌||◌, not, Bool-cases, inl, inr, some, List, [], ◌∷◌, ◌++◌, arith,
}
use vivado_server.Sync.Model.{ManifestEntry}
use vivado_server.Sync.Order.{lt_str, insert_by, sort_by}
use vivado_server.Sync.Order.Strict.{
  Pairwise, Weak, IsWeakOrder, lt_str-IsWeakOrder, lt_str-IsTotal, sort_by-Weak, any-sort_by,
  any-insert_by, adjacent, different,
}
use vivado_server.Sync.Manifest.{before, find_entry, insert_entry, collect_entries, manifest_map}

before-IsWeakOrder : IsWeakOrder before
before-IsWeakOrder = record {
  asym = λ a b. lt_str-IsWeakOrder.asym a.path b.path;
  not_less_trans = λ a b c. lt_str-IsWeakOrder.not_less_trans a.path b.path c.path;
}

pub different_paths : (a b : ManifestEntry) → before a b ≡ true → (a.path =s= b.path) ≡ false
different_paths a b h = different lt_str lt_str-IsTotal a.path b.path h

pub find_entry-path :
    (path : Str) (es : List ManifestEntry) (e : ManifestEntry)
    → find_entry path es ≡ some e
    → e.path ≡ path
unfolding find_entry
find_entry-path path [] e h = ground arith
find_entry-path path (d ∷ es) e h = ground (arith, =s=_eq d.path path, find_entry-path path es e)

-- Two texts that differ are not both equal to a third.
other_path : (p a b : Str) → (a =s= p) ≡ true → (a =s= b) ≡ false → (b =s= p) ≡ false
other_path p a b h k = elim (Bool-cases (b =s= p)) [
  | inr off ↦ off
  | inl at ↦
      let same : a ≡ b = =s=_eq a p h ∙ sym (=s=_eq b p at) in
      let self : (a =s= b) ≡ true = ap (λ t. a =s= t) (sym same) ∙ =s=_self a in
      absurd (ground arith)
]

find_entry-insert :
    (path : Str) (x : ManifestEntry) (ys : List ManifestEntry)
    → find_entry path (insert_by before x ys)
      ≡ (if x.path =s= path then some x else find_entry path ys)
unfolding find_entry insert_by
find_entry-insert path x [] = refl
find_entry-insert path x (y ∷ ys) = elim (Bool-cases (before y x)) [
  | inr h ↦ rw h refl
  | inl h ↦
      rw (h, find_entry-insert path x ys)
        (elim (Bool-cases (y.path =s= path)) [
          | inr off ↦ rw off refl
          | inl at ↦
              let n = other_path path y.path x.path at (different_paths y x h) in ground (arith, n)
        ])
]

pub find_entry-sort_by :
    (path : Str) (es : List ManifestEntry)
    → find_entry path (sort_by before es) ≡ find_entry path es
unfolding find_entry sort_by
find_entry-sort_by path [] = refl
find_entry-sort_by path (e ∷ es) =
    find_entry-insert path e (sort_by before es)
    ∙ ap (λ o. if e.path =s= path then some e else o) (find_entry-sort_by path es)

-- No path twice.
abbrev pub Distinct : List ManifestEntry → Type 0
Distinct [] = Unit {0}
Distinct (e ∷ es) = (any (λ d. d.path =s= e.path) es ≡ false) × Distinct es

pub strictly_first :
    (e : ManifestEntry) (es : List ManifestEntry)
    → all (λ d. not (before d e)) es ≡ true
    → any (λ d. d.path =s= e.path) es ≡ false
    → all (before e) es ≡ true
strictly_first e [] h k = refl
strictly_first e (d ∷ es) h k =
    let apart : (e.path =s= d.path) ≡ false = =s=_sym e.path d.path ∙ ground arith in
    ground (arith, adjacent lt_str lt_str-IsTotal e.path d.path apart, strictly_first e es)

strict : (es : List ManifestEntry) → Weak before es → Distinct es → Pairwise before es
strict [] w d = tt
strict (e ∷ es) (first, w) (new, d) = (strictly_first e es first new, strict es w d)

any-insert :
    (f : ManifestEntry → Bool) (x : ManifestEntry) (ys : List ManifestEntry)
    → any f (insert_by before x ys) ≡ (f x || any f ys)
any-insert f x ys = any-insert_by before f x ys

insert-Distinct :
    (x : ManifestEntry) (ys : List ManifestEntry)
    → any (λ d. d.path =s= x.path) ys ≡ false
    → Distinct ys
    → Distinct (insert_by before x ys)
unfolding insert_by
insert-Distinct x [] new d = (refl, tt)
insert-Distinct x (y ∷ ys) new (newer, d) = elim (Bool-cases (before y x)) [
  | inr h ↦ rw h (new, (newer, d))
  | inl h ↦ rw h (
    any-insert (λ d. d.path =s= y.path) x ys ∙ ground (arith, =s=_sym x.path y.path),
    insert-Distinct x ys (ground arith) d,
  )
]

sort_by-Distinct : (es : List ManifestEntry) → Distinct es → Distinct (sort_by before es)
unfolding sort_by
sort_by-Distinct [] d = tt
sort_by-Distinct (e ∷ es) (new, d) =
    insert-Distinct e (sort_by before es) (any-sort_by before (λ x. x.path =s= e.path) es ∙ new)
      (sort_by-Distinct es d)

-- Sorted entries of which no two have one path are in strict order.
pub sort_by-strict : (es : List ManifestEntry) → Distinct es → Pairwise before (sort_by before es)
sort_by-strict es d =
    strict (sort_by before es) (sort_by-Weak before before-IsWeakOrder es) (sort_by-Distinct es d)

pub length-sort_by : (es : List ManifestEntry) → length (sort_by before es) ≡ length es
unfolding sort_by
length-sort_by [] = refl
length-sort_by (e ∷ es) = length-insert e (sort_by before es) ∙ ap suc (length-sort_by es)
  where
    length-insert :
        (x : ManifestEntry) (ys : List ManifestEntry)
        → length (insert_by before x ys) ≡ suc (length ys)
    length-insert x [] = unfold insert_by in refl
    length-insert x (y ∷ ys) = unfold insert_by in ground (arith, length-insert x ys)

-- An entry that comes after all others is inserted last.
insert_entry-last :
    (m : List ManifestEntry) (e : ManifestEntry)
    → all (λ d. before d e) m ≡ true
    → insert_entry e m ≡ m ++ (e ∷ [])
unfolding insert_entry
insert_entry-last [] e h = refl
insert_entry-last (d ∷ m) e h = ground (arith, before-IsWeakOrder.asym d e, insert_entry-last m e)

collect_entries-append :
    (m es : List ManifestEntry)
    → all (λ d. all (before d) es) m ≡ true
    → Pairwise before es
    → collect_entries m es ≡ m ++ es
unfolding collect_entries
collect_entries-append m [] h w = sym (append-nil m)
collect_entries-append m (e ∷ es) h (first, w) =
    ap (λ x. collect_entries x es) (insert_entry-last m e (heads m h))
    ∙ collect_entries-append (m ++ (e ∷ [])) es (tails m h) w
    ∙ append_assoc m (e ∷ []) es
  where
    heads :
        (m : List ManifestEntry)
        → all (λ d. all (before d) (e ∷ es)) m ≡ true
        → all (λ d. before d e) m ≡ true
    heads [] h = refl
    heads (d ∷ m) h = ground (arith, heads m)

    tails :
        (m : List ManifestEntry)
        → all (λ d. all (before d) (e ∷ es)) m ≡ true
        → all (λ d. all (before d) es) (m ++ (e ∷ [])) ≡ true
    tails [] h = ground arith
    tails (d ∷ m) h = ground (arith, tails m)

-- The map of entries that are in strict order is those entries.
pub manifest_map-ordered : (es : List ManifestEntry) → Pairwise before es → manifest_map es ≡ es
unfolding manifest_map
manifest_map-ordered es w = collect_entries-append [] es refl w
