-- ===== src/Sync/Plan/Carried.antt =====
-- src/sync.rs: what carrying out a plan does to a path.
use vivado_server.Base.{
  ℕ, ◌≡◌, refl, subst, ap, ◌∙◌, Str, ◌=s=◌, =s=_eq, =s=_self, =s=_sym, if◌then◌else◌, any, all,
  filter, map, Bool, true, false, ◌&&◌, ◌||◌, not, Bool-cases, ◌⊎◌, inl, inr, Option, none, some,
  List, [], ◌∷◌, arith,
}
use vivado_server.Sync.Model.{ManifestEntry}
use vivado_server.Sync.Order.{insert_by, sort_by}
use vivado_server.Sync.Order.Strict.{Pairwise}
use vivado_server.Sync.Order.Outermost.{plan_order}
use vivado_server.Sync.Manifest.{is_dir, is_file, dir_entry, find_entry, before}
use vivado_server.Sync.Manifest.Entries.{find_entry-sort_by, Distinct, different_paths}
use vivado_server.Sync.Manifest.Checked.{IsEntry, AllEntries, has_path}
use vivado_server.Sync.Manifest.Complete.{HasParents, find_entry-none, find_entry-has}
use vivado_server.Sync.Plan.{
  PlannedUpload, Plan, same_file, contains_key, drop_extra, upload_before, sort_plan,
}
use vivado_server.Sync.Plan.Lists.{
  uploads, creates, deletes, delete_entries-deletes, delete_entries-SameWants, has_path-filter,
  SameWants,
}
use vivado_server.Sync.Plan.Diff.{empties}

-- The tree after the plan, path by path: what it deletes is gone, then its directories are there,
-- and then its files are what was sent. Everything else is as it was.
abbrev pub carry_out : Plan → List ManifestEntry → Str → Option ManifestEntry
carry_out plan baseline path = elim (find_entry path (uploads plan)) [
  | some sent ↦ some sent
  | none ↦
      if creates plan path
      then some (dir_entry path)
      else if deletes plan path
      then none
      else find_entry path baseline
]

-- The entry is the wanted one, as far as the service compares entries.
abbrev pub Meets : ManifestEntry → ManifestEntry → Type 0
Meets entry found =
    ((is_dir entry.kind ≡ true) × (is_dir found.kind ≡ true))
    ⊎ (found ≡ entry)
    ⊎ (same_file entry found ≡ true)

-- A path that goes with a directory which a wanted file replaces.
abbrev pub replaced : List ManifestEntry → List ManifestEntry → Str → Bool
replaced wanted baseline path = any (empties baseline path) wanted

pub any_at :
    (test : ManifestEntry → Bool) (p : Str) (es : List ManifestEntry)
    → Distinct es
    → any (λ e. test e && e.path =s= p) es
      ≡ elim (find_entry p es) [ none ↦ false | some e ↦ test e ]
unfolding find_entry
any_at test p [] d = refl
any_at test p (e ∷ es) (new, d) = elim (Bool-cases (e.path =s= p)) [
  | inr off ↦ ground (arith, off, any_at test p es d)
  | inl at ↦
      let gone =
        find_entry-none p es (subst (λ q. has_path q es ≡ false) (=s=_eq e.path p at) new) in
      ground (arith, at, gone, any_at test p es d)
]

pub find_at :
    (test : ManifestEntry → Bool) (p : Str) (es : List ManifestEntry)
    → Distinct es
    → find_entry p (filter test es)
      ≡ elim (find_entry p es) [ none ↦ none | some e ↦ if test e then some e else none ]
unfolding find_entry
find_at test p [] d = refl
find_at test p (e ∷ es) (new, d) = elim (Bool-cases (e.path =s= p)) [
  | inr off ↦ ground (arith, off, find_at test p es d)
  | inl at ↦
      let gone =
        find_entry-none p es (subst (λ q. has_path q es ≡ false) (=s=_eq e.path p at) new) in
      ground (arith, at, gone, find_at test p es d)
]

-- Entries in strict order are distinct.
pub ordered-Distinct : (es : List ManifestEntry) → Pairwise before es → Distinct es
ordered-Distinct [] w = tt
ordered-Distinct (e ∷ es) (first, w) = (go es first, ordered-Distinct es w)
  where
    go : (ds : List ManifestEntry) → all (before e) ds ≡ true → has_path e.path ds ≡ false
    go [] k = refl
    go (d ∷ ds) k = ground (arith, go ds, different_paths e d, =s=_sym d.path e.path)

upload_sort :
    (us : List PlannedUpload)
    → map (λ u. u.entry) (sort_by upload_before us) ≡ sort_by before (map (λ u. u.entry) us)
unfolding sort_by
upload_sort [] = refl
upload_sort (u ∷ us) =
    go u (sort_by upload_before us) ∙ ap (insert_by before u.entry) (upload_sort us)
  where
    go :
        (u : PlannedUpload) (us : List PlannedUpload)
        → map (λ u. u.entry) (insert_by upload_before u us)
          ≡ insert_by before u.entry (map (λ u. u.entry) us)
    go u [] = unfold insert_by in refl
    go u (v ∷ us) = unfold insert_by in ground (arith, go u us)

-- Sorting a plan does not change what it does.
pub carry_out-sort_plan :
    (plan : Plan) (baseline : List ManifestEntry) (p : Str)
    → carry_out (sort_plan plan) baseline p ≡ carry_out plan baseline p
unfolding sort_plan
carry_out-sort_plan plan baseline p =
    let (created, a, x, b) = plan_order plan.create_dirs in
    let (deleted, c, y, d) = plan_order plan.delete_files in
    let (z, e, removed, f) = plan_order plan.delete_dirs in
    ground (
      arith,
      ap (find_entry p) (upload_sort plan.files) ∙ find_entry-sort_by p (uploads plan),
      created p,
      deleted p,
      removed p,
    )

any_witness :
    (test : ManifestEntry → Bool) (es : List ManifestEntry)
    → Distinct es
    → any test es ≡ true
    → (e : ManifestEntry) × (find_entry e.path es ≡ some e) × (test e ≡ true)
unfolding find_entry
any_witness test [] d h = absurd (ground arith)
any_witness test (e ∷ es) (new, d) h = elim (Bool-cases (test e)) [
  | inl here ↦ (e, ground (arith, =s=_self e.path), here)
  | inr off ↦
      let (x, found, fits) = any_witness test es d (ground arith) in
      (x, ground (arith, found, later e x es new found), fits)
]
  where
    later :
        (e x : ManifestEntry) (es : List ManifestEntry)
        → has_path e.path es ≡ false
        → find_entry x.path es ≡ some x
        → (e.path =s= x.path) ≡ false
    later e x es new found = elim (Bool-cases (e.path =s= x.path)) [
      | inr off ↦ off
      | inl same ↦
          let absent = subst (λ q. has_path q es ≡ false) (=s=_eq e.path x.path same) new in
          absurd (ground (arith, find_entry-has x.path es x found, absent))
    ]

find_first : (e : ManifestEntry) (es : List ManifestEntry) → find_entry e.path (e ∷ es) ≡ some e
unfolding find_entry
find_first e es = rw (=s=_self e.path) refl

find_later :
    (p : Str) (e d : ManifestEntry) (es : List ManifestEntry)
    → has_path e.path es ≡ false
    → find_entry p es ≡ some d
    → find_entry p (e ∷ es) ≡ some d
unfolding find_entry
find_later p e d es new found = elim (Bool-cases (e.path =s= p)) [
  | inr off ↦ rw off found
  | inl at ↦
      let absent = subst (λ q. has_path q es ≡ false) (=s=_eq e.path p at) new in
      absurd (ground (arith, find_entry-has p es d found, absent))
]

pub all_entries :
    (max : ℕ) (es : List ManifestEntry)
    → Distinct es
    → ((p : Str) (e : ManifestEntry) → find_entry p es ≡ some e → IsEntry max e)
    → AllEntries max es
all_entries max [] d h = tt
all_entries max (e ∷ es) (new, d) h = (
  h e.path e (find_first e es),
  all_entries max es d (λ p x found. h p x (find_later p e x es new found)),
)

any_path :
    (test : Str → Bool) (p : Str) (es : List ManifestEntry)
    → any (λ e. test e.path && e.path =s= p) es ≡ (test p && has_path p es)
any_path test p [] = ground arith
any_path test p (e ∷ es) = elim (Bool-cases (e.path =s= p)) [
  | inr off ↦ ground (arith, off, any_path test p es)
  | inl at ↦ ground (arith, at, ap test (=s=_eq e.path p at), any_path test p es)
]

pub drop_extra-deletes :
    (delete_extra : Bool) (wanted baseline : List ManifestEntry) (plan : Plan) (p : Str)
    → deletes (drop_extra delete_extra wanted baseline plan) p
      ≡ (deletes plan p || (delete_extra && not (contains_key wanted p) && has_path p baseline))
unfolding drop_extra
drop_extra-deletes false wanted baseline plan p = ground arith
drop_extra-deletes true wanted baseline plan p =
    let unwanted = λ (e : ManifestEntry). not (contains_key wanted e.path) in
    delete_entries-deletes (filter unwanted baseline) plan p
    ∙ ap (λ b. deletes plan p || b)
        (has_path-filter unwanted p baseline
          ∙ any_path (λ q. not (contains_key wanted q)) p baseline)

pub drop_extra-SameWants :
    (delete_extra : Bool) (wanted baseline : List ManifestEntry) (plan : Plan)
    → SameWants plan (drop_extra delete_extra wanted baseline plan)
unfolding drop_extra
drop_extra-SameWants false wanted baseline plan = (refl, refl)
drop_extra-SameWants true wanted baseline plan =
    delete_entries-SameWants (filter (λ old. not (contains_key wanted old.path)) baseline) plan

-- What is wanted is not below a wanted file.
pub wanted_kept :
    (wanted baseline : List ManifestEntry) (p : Str) (e : ManifestEntry)
    → Distinct wanted
    → HasParents wanted
    → find_entry p wanted ≡ some e
    → replaced wanted baseline p ≡ false
unfolding is_file
wanted_kept wanted baseline p e distinct closed found =
    elim (Bool-cases (replaced wanted baseline p)) [
      | inr kept ↦ kept
      | inl gone ↦
          let (x, at, emptied) = any_witness (empties baseline p) wanted distinct gone in
          let (d, above, kind) = closed p x.path e found (ground arith) in
          absurd (ground (arith, at, above, kind, emptied))
    ]
