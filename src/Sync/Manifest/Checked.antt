-- ===== src/Sync/Manifest/Checked.antt =====
-- src/sync/files.rs: what the check of a client's entries establishes.
use vivado_server.Base.{
  ℕ, ◌≤◌, ◌≡◌, refl, subst, sym, ap, Str, len, ◌=s=◌, =s=_eq, =s=_self, any, all, map, Bool, true,
  false, Bool-cases, Option-cases, ◌⊎◌, inl, inr, some, List, [], ◌∷◌, arith,
}
use vivado_server.Auth.{to_ascii_lowercase}
use vivado_server.Error.{Result-cases, ok}
use vivado_server.Sync.Model.{ManifestEntry, ManifestEntryKind}
use vivado_server.Sync.Paths.{normalize_sync_path}
use vivado_server.Sync.Paths.Normalize.{IsSyncPath, normalize_sync_path_iff}
use vivado_server.Sync.Manifest.{
  SyncFilters, matches_entry, is_ascii_hexdigit, is_sha256_hex, dir_entry, check_file, check_entry,
  check_entries,
}
use vivado_server.Sync.Manifest.Entries.{Distinct}

-- A file within the limit, with its time and its hash in small letters.
pub record IsFileEntry (max_file_bytes : ℕ) (e : ManifestEntry) : Type 0 where
  pub is_file : e.kind ≡ ManifestEntryKind.file
  pub sized : (size : ℕ) × (e.size_bytes ≡ some size) × (size ≤ max_file_bytes)
  pub timed : (mtime : ℕ) × (e.mtime_unix_ms ≡ some mtime)
  pub hashed :
      (sha : Str) × (e.sha256 ≡ some sha)
      × (is_sha256_hex sha ≡ true)
      × (map to_ascii_lowercase sha ≡ sha)

-- An entry that the server works with: its path is safe, and it is a complete file or a plain
-- directory.
pub record IsEntry (max_file_bytes : ℕ) (e : ManifestEntry) : Type 0 where
  pub safe : IsSyncPath e.path
  pub shape : IsFileEntry max_file_bytes e ⊎ (e ≡ dir_entry e.path)

abbrev pub AllEntries : ℕ → List ManifestEntry → Type 0
AllEntries max [] = Unit {0}
AllEntries max (e ∷ es) = IsEntry max e × AllEntries max es

lower-hex :
    (s : Str)
    → all is_ascii_hexdigit s ≡ true
    → all is_ascii_hexdigit (map to_ascii_lowercase s) ≡ true
lower-hex [] h = refl
lower-hex (c ∷ s) h = ground (arith, lower-hex s)

lower-len : (s : Str) → all is_ascii_hexdigit s ≡ true → len (map to_ascii_lowercase s) ≡ len s
lower-len [] h = refl
lower-len (c ∷ s) h = ground (arith, lower-len s)

lower_lower :
    (s : Str)
    → all is_ascii_hexdigit s ≡ true
    → map to_ascii_lowercase (map to_ascii_lowercase s) ≡ map to_ascii_lowercase s
lower_lower [] h = refl
lower_lower (c ∷ s) h = ground (arith, lower_lower s)

lower-is_sha256_hex :
    (s : Str) → is_sha256_hex s ≡ true → is_sha256_hex (map to_ascii_lowercase s) ≡ true
unfolding is_sha256_hex
lower-is_sha256_hex s h = ground (arith, lower-hex s, lower-len s)

hex_digits : (s : Str) → is_sha256_hex s ≡ true → all is_ascii_hexdigit s ≡ true
unfolding is_sha256_hex
hex_digits s h = ground arith

check_file-IsFileEntry :
    (max : ℕ) (e v : ManifestEntry)
    → e.kind ≡ ManifestEntryKind.file
    → check_file max e ≡ ok v
    → (v.path ≡ e.path) × IsFileEntry max v
unfolding check_file
check_file-IsFileEntry max e v k h = elim (Option-cases e.size_bytes) [
  | inl no_size ↦ absurd (ground arith)
  | inr (size, has_size) ↦ elim (Option-cases e.mtime_unix_ms) [
    | inl no_time ↦ absurd (ground arith)
    | inr (mtime, has_time) ↦ elim (Option-cases e.sha256) [
      | inl no_hash ↦ absurd (ground arith)
      | inr (sha, has_hash) ↦
          let hexed : is_sha256_hex sha ≡ true = ground arith in
          let fits : size ≤ max = ground arith in
          let whole : v ≡ record e { sha256 = some (map to_ascii_lowercase sha) } = ground arith in
          let digits = hex_digits sha hexed in
          rw whole (
            refl,
            record {
              is_file = k;
              sized = (size, has_size, fits);
              timed = (mtime, has_time);
              hashed = (
                map to_ascii_lowercase sha,
                refl,
                lower-is_sha256_hex sha hexed,
                lower_lower sha digits,
              );
            },
          )
    ]
  ]
]

pub kind_cases :
    (kind : ManifestEntryKind) → (kind ≡ ManifestEntryKind.file) ⊎ (kind ≡ ManifestEntryKind.dir)
kind_cases ManifestEntryKind.file = inl refl
kind_cases ManifestEntryKind.dir = inr refl

pub check_entry-IsEntry :
    (max : ℕ) (e v : ManifestEntry)
    → IsSyncPath e.path
    → check_entry max e ≡ ok v
    → (v.path ≡ e.path) × IsEntry max v
unfolding check_entry
check_entry-IsEntry max e v safe h = elim (kind_cases e.kind) [
  | inl k ↦
      let (same, file) = check_file-IsFileEntry max e v k (ground arith) in
      (same, record { safe = subst IsSyncPath (sym same) safe; shape = inl file })
  | inr k ↦
      let whole : v ≡ dir_entry e.path = ground arith in
      rw whole (refl, record { safe = safe; shape = inr refl })
]

abbrev pub seen_path : Str → List Str → Bool
seen_path path seen = any (λ p. p =s= path) seen

abbrev pub has_path : Str → List ManifestEntry → Bool
has_path path es = any (λ d. d.path =s= path) es

pub check_entries-cons :
    (filters : SyncFilters) (max : ℕ) (seen : List Str) (e : ManifestEntry)
    (es vs : List ManifestEntry)
    → check_entries filters max seen (e ∷ es) ≡ ok vs
    → (path : Str) × (others : List ManifestEntry) × (normalize_sync_path e.path ≡ ok path)
      × (seen_path path seen ≡ false)
      × (check_entries filters max (path ∷ seen) es ≡ ok others)
      × (((matches_entry filters path ≡ false) × (vs ≡ others))
          ⊎ ((checked : ManifestEntry) × (check_entry max (record e { path = path }) ≡ ok checked)
              × (vs ≡ checked ∷ others)))
unfolding check_entries
check_entries-cons filters max seen e es vs h = elim (Result-cases (normalize_sync_path e.path)) [
  | inl (x, refused) ↦ absurd (ground arith)
  | inr (path, accepted) ↦ elim (Result-cases (check_entries filters max (path ∷ seen) es)) [
    | inl (x, refused) ↦ absurd (elim (Result-cases (check_entry max (record e { path = path }))) [
      | inl (y, bad) ↦ ground arith
      | inr (checked, good) ↦ ground arith
    ])
    | inr (others, passed) ↦ elim (Result-cases (check_entry max (record e { path = path }))) [
      | inl (y, bad) ↦
          (path, others, accepted, ground arith, passed, inl (ground arith, ground arith))
      | inr (checked, good) ↦ elim (Bool-cases (matches_entry filters path)) [
        | inl taken ↦
            (path, others, accepted, ground arith, passed, inr (checked, good, ground arith))
        | inr skipped ↦
            (path, others, accepted, ground arith, passed, inl (ground arith, ground arith))
      ]
    ]
  ]
]

unseen_other :
    (p path : Str) (seen : List Str)
    → seen_path p seen ≡ true
    → seen_path path seen ≡ false
    → (path =s= p) ≡ false
unseen_other p path seen h k = elim (Bool-cases (path =s= p)) [
  | inr other ↦ other
  | inl same ↦
      let e : seen_path path seen ≡ seen_path p seen =
        ap (λ q. seen_path q seen) (=s=_eq path p same) in
      absurd (ground arith)
]

-- The entries that pass are fit, no two have one path, and none has a path that was seen before.
pub check_entries-fit :
    (filters : SyncFilters) (max : ℕ) (seen : List Str) (es vs : List ManifestEntry)
    → check_entries filters max seen es ≡ ok vs
    → AllEntries max vs
      × Distinct vs
      × ((p : Str) → seen_path p seen ≡ true → has_path p vs ≡ false)
unfolding check_entries
check_entries-fit filters max seen [] vs h =
    let none_left : [] ≡ vs = ground arith in rw (← none_left) (tt, tt, λ p k. refl)
check_entries-fit filters max seen (e ∷ es) vs h =
    let (path, others, accepted, new, passed, result) =
      check_entries-cons filters max seen e es vs h in
    let (fit, distinct, unseen) = check_entries-fit filters max (path ∷ seen) es others passed in
    elim result [
      | inl (skipped, same) ↦ rw same (fit, distinct, λ p k. unseen p (ground arith))
      | inr (checked, good, whole) ↦
          let (kept, safe) = (normalize_sync_path_iff e.path path).0 accepted in
          let (at, first) =
            check_entry-IsEntry max (record e { path = path }) checked
              (subst IsSyncPath (sym kept) safe) good in
          rw whole (
            (first, fit),
            (
              subst (λ q. has_path q others ≡ false) (sym at)
                  (unseen path (ground (arith, =s=_self path))),
              distinct,
            ),
            λ p k. ground (arith, at, unseen p (ground arith), unseen_other p path seen k new),
          )
    ]
