-- ===== src/Sync/Manifest/Valid.antt =====
-- src/sync/files.rs: the manifests that the server works with.
use vivado_server.Base.{
  ℕ, ◌≤◌, ◌≡◌, refl, subst, sym, ap, ◌∙◌, Str, ◌=s=◌, =s=_eq, =s=_self, Bool-cases, true, false,
  length, inl, inr, some, List, [], ◌∷◌, arith,
}
use vivado_server.Error.{Result-cases, ok}
use vivado_server.Sync.Model.{ManifestEntry}
use vivado_server.Sync.Paths.Normalize.{IsSyncPath, normalize_sync_path_iff}
use vivado_server.Sync.Order.{sort_by}
use vivado_server.Sync.Order.Strict.{Pairwise}
use vivado_server.Sync.Manifest.{
  SyncFilters, matches_entry, check_entry, before, check_entries, synthesize_parent_dirs,
  validate_client_manifest, find_entry,
}
use vivado_server.Sync.Manifest.Entries.{
  find_entry-path, find_entry-sort_by, sort_by-strict, length-sort_by,
}
use vivado_server.Sync.Manifest.Checked.{
  IsEntry, check_entry-IsEntry, AllEntries, check_entries-fit, check_entries-cons,
}
use vivado_server.Sync.Manifest.Complete.{HasParents, synthesize_parent_dirs-HasParents}

-- What the rest of the component relies on: the entries are in strict order of their paths and not
-- too many, every entry is fit, and so is every directory above an entry an entry of its own.
pub record IsManifest (max_entries max_file_bytes : ℕ) (es : List ManifestEntry) : Type 0 where
  pub ordered : Pairwise before es
  pub bounded : length es ≤ max_entries
  pub fit :
      (path : Str) (e : ManifestEntry)
      → find_entry path es ≡ some e
      → (e.path ≡ path) × IsEntry max_file_bytes e
  pub has_parents : HasParents es

fit_of_found :
    (max : ℕ) (path : Str) (es : List ManifestEntry) (e : ManifestEntry)
    → AllEntries max es
    → find_entry path es ≡ some e
    → IsEntry max e
unfolding find_entry
fit_of_found max path [] e fit h = absurd (ground arith)
fit_of_found max path (d ∷ es) e (first, fit) h = elim (Bool-cases (d.path =s= path)) [
  | inl at ↦ let same : d ≡ e = ground arith in subst (IsEntry max) same first
  | inr off ↦ fit_of_found max path es e fit (ground arith)
]

shorter :
    (filters : SyncFilters) (max : ℕ) (seen : List Str) (es vs : List ManifestEntry)
    → check_entries filters max seen es ≡ ok vs
    → length vs ≤ length es
unfolding check_entries
shorter filters max seen [] vs h =
    let none_left : [] ≡ vs = ground arith in rw (← none_left) (omega arith)
shorter filters max seen (e ∷ es) vs h =
    let (path, others, accepted, new, passed, result) =
      check_entries-cons filters max seen e es vs h in
    let less = shorter filters max (path ∷ seen) es others passed in
    elim result [
      | inl (skipped, same) ↦ omega (arith, ap length same)
      | inr (checked, good, whole) ↦ omega (arith, ap length whole)
    ]

-- An entry that the filters select is checked, and kept under its path.
selected :
    (filters : SyncFilters) (max : ℕ) (seen : List Str) (es vs : List ManifestEntry) (path : Str)
    (e : ManifestEntry)
    → check_entries filters max seen es ≡ ok vs
    → find_entry path es ≡ some e
    → matches_entry filters path ≡ true
    → (v : ManifestEntry) × (check_entry max e ≡ ok v) × (find_entry path vs ≡ some v)
unfolding find_entry
selected filters max seen [] vs path e h found m = absurd (ground arith)
selected filters max seen (d ∷ es) vs path e h found m =
    let (p, others, accepted, new, passed, result) =
      check_entries-cons filters max seen d es vs h in
    let (kept, safe) = (normalize_sync_path_iff d.path p).0 accepted in
    elim (Bool-cases (d.path =s= path)) [
      | inl at ↦
          let here : p ≡ path = kept ∙ =s=_eq d.path path at in
          let same : d ≡ e = ground arith in
          elim result [
            | inl (skipped, rest) ↦
                let skipped' : matches_entry filters path ≡ false =
                  ap (matches_entry filters) (sym here) ∙ skipped in
                absurd (ground arith)
            | inr (v, good, rest) ↦
                let whole : record d { path = p } ≡ e =
                  ap (λ q. record d { path = q }) kept ∙ same in
                let good' : check_entry max e ≡ ok v = ap (check_entry max) (sym whole) ∙ good in
                let safe' : IsSyncPath p = subst IsSyncPath (sym kept) safe in
                let (v_path, fit) = check_entry-IsEntry max (record d { path = p }) v safe' good in
                let first : (v.path =s= path) ≡ true =
                  ap (λ q. q =s= path) (v_path ∙ here) ∙ =s=_self path in
                (v, good', rw (rest, first) refl)
          ]
      | inr off ↦
          let (v, good, there) =
            selected filters max (p ∷ seen) es others path e passed (ground arith) m in
          elim result [
            | inl (skipped, rest) ↦ (v, good, rw rest there)
            | inr (first, good', rest) ↦
                let safe' : IsSyncPath p = subst IsSyncPath (sym kept) safe in
                let (first_path, fit) =
                  check_entry-IsEntry max (record d { path = p }) first safe' good' in
                let apart : (first.path =s= path) ≡ false =
                  ap (λ q. q =s= path) (first_path ∙ kept) ∙ off in
                (v, good, rw (rest, apart) there)
          ]
    ]

-- A client's manifest that is accepted becomes a manifest that the server can work with, in which
-- every entry that the filters select stands under its path, as it was checked.
pub validate_client_manifest-IsManifest :
    (entries result : List ManifestEntry) (filters : SyncFilters) (max_entries max_file_bytes : ℕ)
    → validate_client_manifest entries filters max_entries max_file_bytes ≡ ok result
    → IsManifest max_entries max_file_bytes result
      × ((path : Str) (e : ManifestEntry)
          → find_entry path entries ≡ some e
          → matches_entry filters path ≡ true
          → (v : ManifestEntry) × (check_entry max_file_bytes e ≡ ok v)
            × (find_entry path result ≡ some v))
unfolding validate_client_manifest
validate_client_manifest-IsManifest entries result filters max_entries max_file_bytes h =
    elim (Result-cases (check_entries filters max_file_bytes [] entries)) [
      | inl (x, refused) ↦ absurd (ground arith)
      | inr (checked, passed) ↦ elim (Result-cases (synthesize_parent_dirs max_entries checked)) [
        | inl (x, refused) ↦ absurd (ground arith)
        | inr (complete, added) ↦
            let whole : sort_by before complete ≡ result = ground arith in
            let few : length entries ≤ max_entries = ground arith in
            let (fit, distinct, unseen) =
              check_entries-fit filters max_file_bytes [] entries checked passed in
            let room = shorter filters max_file_bytes [] entries checked passed in
            let (all_fit, all_distinct, bounded, closed, kept) =
              synthesize_parent_dirs-HasParents max_entries max_file_bytes checked complete fit
                distinct (omega arith) added in
            rw (← whole) (
              record {
                ordered = sort_by-strict complete all_distinct;
                bounded = rw (length-sort_by complete) bounded;
                fit = λ path e found.
                    let found' = sym (find_entry-sort_by path complete) ∙ found in
                    (
                      find_entry-path path complete e found',
                      fit_of_found max_file_bytes path complete e all_fit found',
                    );
                has_parents = λ path q e found below.
                    let (d, at, kind) =
                      closed path q e (sym (find_entry-sort_by path complete) ∙ found) below in
                    (d, find_entry-sort_by q complete ∙ at, kind);
              },
              λ path e found m.
                  let (v, good, there) =
                    selected filters max_file_bytes [] entries checked path e passed found m in
                  (v, good, find_entry-sort_by path complete ∙ kept path v there),
            )
      ]
    ]
