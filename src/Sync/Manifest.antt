-- ===== src/Sync/Manifest.antt =====
-- src/sync/files.rs: the filters, the check of a client's manifest, and the comparison of files. The
-- glob patterns are those of the crate `globset`, a parameter.
pub mod Entries
pub mod Ancestors
pub mod Checked
pub mod Parents
pub mod Complete
pub mod Valid
pub mod Examples
use vivado_server.Base.{
  ℕ, ◌+◌, Str, String, codes, len, ◌=s=◌, leb, ltb, ◌==◌, if◌then◌else◌, any, all, length, map,
  Bool, true, false, ◌&&◌, ◌||◌, not, Option, none, some, List, [], ◌∷◌, ◌++◌,
}
use vivado_server.Auth.{to_ascii_lowercase}
use vivado_server.Error.{
  AppError, Result, ok, err, bad_request, text, about, counted, ◌>>=◌, ◌>>◌, guard,
}
use vivado_server.Sync.Model.{ManifestEntry, ManifestEntryKind, FileTransfer}
use vivado_server.Sync.Order.{lt_str, sort_by}
use vivado_server.Sync.Paths.{normalize_sync_path, parent_paths, is_internal_path}

-- `Option::ok_or`
abbrev pub ok_or {ℓ} : {A : Type ℓ} → Option A → AppError → Result A
ok_or none failure = err failure
ok_or (some a) failure = ok a

-- The sets of globs, by the paths that they match.
pub record SyncFilters : Type 0 where
  pub include : Str → Bool
  pub include_active : Bool
  pub exclude : Str → Bool

-- Globs and sets of them; the texts of their errors are left out.
pub record Globs : Type 1 where
  pub Glob : Type 0
  pub glob : Str → Option Glob
  pub build : List Glob → Option (Str → Bool)

abbrev max_globs : ℕ
max_globs = 256

abbrev max_glob_bytes : ℕ
max_glob_bytes = 4_096

module _ (globs : Globs) where
  open globs use {Glob, glob, build}

  compile : String → List Str → Result (List Glob)
  compile kind [] = ok []
  compile kind (pattern_text ∷ rest) =
      ok_or (glob pattern_text) (bad_request (about kind pattern_text)) >>= λ g.
      compile kind rest >>= λ gs. ok (g ∷ gs)

  -- `SyncFilters::new`
  pub new_filters : List Str → List Str → Result SyncFilters
  unfolding compile
  new_filters include_globs exclude_globs = do
    guard (not (ltb max_globs (length include_globs + length exclude_globs)))
        (bad_request (counted "at most that many include/exclude globs are allowed: " max_globs))
    guard (not (any (λ p. ltb max_glob_bytes (len p)) (include_globs ++ exclude_globs)))
        (bad_request (counted "each glob must be at most that many bytes: " max_glob_bytes))
    include ← compile "invalid include glob " include_globs
    exclude ← compile "invalid exclude glob " exclude_globs
    included ← ok_or (build include) (bad_request (text "invalid include globs"))
    excluded ← ok_or (build exclude) (bad_request (text "invalid exclude globs"))
    ok (record {
      include = included;
      include_active = not (elim include_globs [ [] ↦ true | _ ∷ _ ↦ false ]);
      exclude = excluded;
    })

unfoldable pub should_descend : SyncFilters → Str → Bool
should_descend filters path =
    not (is_internal_path path)
    && not (filters.exclude path)
    && not (any filters.exclude (parent_paths path))

unfoldable pub matches_entry : SyncFilters → Str → Bool
unfolding should_descend
matches_entry filters path =
    should_descend filters path && (not filters.include_active || filters.include path)

unfoldable pub is_dir : ManifestEntryKind → Bool
is_dir ManifestEntryKind.dir = true
is_dir ManifestEntryKind.file = false

unfoldable pub is_file : ManifestEntryKind → Bool
is_file ManifestEntryKind.dir = false
is_file ManifestEntryKind.file = true

-- `u8::is_ascii_hexdigit`
abbrev pub is_ascii_hexdigit : ℕ → Bool
is_ascii_hexdigit c =
    (leb b'0' c && leb c b'9') || (leb b'a' c && leb c b'f') || (leb b'A' c && leb c b'F')

-- The bytes of a character that is not ASCII are no digits either.
unfoldable pub is_sha256_hex : Str → Bool
is_sha256_hex value = len value == 64 && all is_ascii_hexdigit value

-- A directory as the server lists it.
abbrev pub dir_entry : Str → ManifestEntry
dir_entry path = record {
  path = path;
  kind = ManifestEntryKind.dir;
  size_bytes = none;
  mtime_unix_ms = none;
  sha256 = none;
  executable = false;
}

unfoldable pub check_file : ℕ → ManifestEntry → Result ManifestEntry
check_file max_file_bytes entry = do
  size ← ok_or entry.size_bytes (bad_request (about "file entry missing size: " entry.path))
  guard (not (ltb max_file_bytes size))
      (bad_request (about "file exceeds sync_max_file_bytes: " entry.path))
  mtime ← ok_or entry.mtime_unix_ms (bad_request (about "file entry missing mtime: " entry.path))
  sha ← ok_or entry.sha256 (bad_request (about "file entry missing sha256: " entry.path))
  guard (is_sha256_hex sha) (bad_request (about "file entry has invalid sha256: " entry.path))
  ok (record entry { sha256 = some (map to_ascii_lowercase sha) })

-- The match on the entry's kind.
unfoldable pub check_entry : ℕ → ManifestEntry → Result ManifestEntry
unfolding check_file
check_entry max_file_bytes entry = elim entry.kind [
  | ManifestEntryKind.file ↦ check_file max_file_bytes entry
  | ManifestEntryKind.dir ↦
      ok (record entry {
        size_bytes = none;
        mtime_unix_ms = none;
        sha256 = none;
        executable = false;
      })
]

-- The loop over the client's entries; `seen` holds the paths met so far.
unfoldable pub check_entries :
    SyncFilters → ℕ → List Str → List ManifestEntry → Result (List ManifestEntry)
unfolding check_entry matches_entry
check_entries filters max_file_bytes seen [] = ok []
check_entries filters max_file_bytes seen (entry ∷ rest) =
    normalize_sync_path entry.path >>= λ path.
    let others = check_entries filters max_file_bytes (path ∷ seen) rest in
    guard (not (any (λ p. p =s= path) seen)) (bad_request (about "duplicate manifest path: " path))
    >> (if matches_entry filters path
        then (check_entry max_file_bytes (record entry { path = path }) >>= λ checked.
            others >>= λ validated. ok (checked ∷ validated))
        else others)

-- `kinds.get`, and the map that the entries are collected into; a later entry hides an earlier one.
unfoldable pub kind_of : Str → List (Str × ManifestEntryKind) → Option ManifestEntryKind
kind_of path [] = none
kind_of path ((p, kind) ∷ rest) = if p =s= path then some kind else kind_of path rest

unfoldable pub collect_kinds :
    List (Str × ManifestEntryKind) → List ManifestEntry → List (Str × ManifestEntryKind)
collect_kinds kinds [] = kinds
collect_kinds kinds (entry ∷ rest) = collect_kinds ((entry.path, entry.kind) ∷ kinds) rest

-- What the loop of `synthesize_parent_dirs` changes.
pub record Synthesis : Type 0 where
  pub kinds : List (Str × ManifestEntryKind)
  pub entries : List ManifestEntry

-- One round of the inner loop.
unfoldable pub add_parent : ℕ → Str → Synthesis → Result Synthesis
unfolding kind_of
add_parent max_entries parent s = elim (kind_of parent s.kinds) [
  | some ManifestEntryKind.file ↦
      err (bad_request (about "file is an ancestor of another manifest entry: " parent))
  | some ManifestEntryKind.dir ↦ ok s
  | none ↦
      if leb max_entries (length s.entries)
      then err (
          bad_request (
            counted "manifest exceeds sync_max_manifest_entries after adding parent directories: "
              max_entries))
      else ok (record {
        kinds = (parent, ManifestEntryKind.dir) ∷ s.kinds;
        entries = s.entries ++ (dir_entry parent ∷ []);
      })
]

unfoldable pub add_parents : ℕ → List Str → Synthesis → Result Synthesis
unfolding add_parent
add_parents max_entries [] s = ok s
add_parents max_entries (parent ∷ rest) s =
    add_parent max_entries parent s >>= λ t. add_parents max_entries rest t

unfoldable pub add_all_parents : ℕ → List ManifestEntry → Synthesis → Result Synthesis
unfolding add_parents
add_all_parents max_entries [] s = ok s
add_all_parents max_entries (entry ∷ rest) s =
    add_parents max_entries (parent_paths entry.path) s >>= λ t. add_all_parents max_entries rest t

unfoldable pub synthesize_parent_dirs : ℕ → List ManifestEntry → Result (List ManifestEntry)
unfolding add_all_parents collect_kinds
synthesize_parent_dirs max_entries entries =
    add_all_parents max_entries entries
      (record { kinds = collect_kinds [] entries; entries = entries })
    >>= λ s. ok s.entries

abbrev pub before : ManifestEntry → ManifestEntry → Bool
before left right = lt_str left.path right.path

unfoldable pub validate_client_manifest :
    List ManifestEntry → SyncFilters → ℕ → ℕ → Result (List ManifestEntry)
unfolding check_entries synthesize_parent_dirs sort_by
validate_client_manifest entries filters max_entries max_file_bytes = do
  guard (not (ltb max_entries (length entries)))
      (bad_request (counted "manifest exceeds sync_max_manifest_entries: " max_entries))
  validated ← check_entries filters max_file_bytes [] entries
  complete ← synthesize_parent_dirs max_entries validated
  ok (sort_by before complete)

-- A `BTreeMap` by path, as its values in order; an entry replaces one of the same path.
unfoldable pub insert_entry : ManifestEntry → List ManifestEntry → List ManifestEntry
insert_entry entry [] = entry ∷ []
insert_entry entry (first ∷ rest) =
    let later = insert_entry entry rest in
    if before entry first
    then entry ∷ first ∷ rest
    else if before first entry
    then first ∷ later
    else entry ∷ rest

unfoldable pub collect_entries : List ManifestEntry → List ManifestEntry → List ManifestEntry
unfolding insert_entry
collect_entries map_so_far [] = map_so_far
collect_entries map_so_far (entry ∷ rest) = collect_entries (insert_entry entry map_so_far) rest

unfoldable pub manifest_map : List ManifestEntry → List ManifestEntry
unfolding collect_entries
manifest_map entries = collect_entries [] entries

-- `BTreeMap::get`
unfoldable pub find_entry : Str → List ManifestEntry → Option ManifestEntry
find_entry path [] = none
find_entry path (entry ∷ rest) = if entry.path =s= path then some entry else find_entry path rest
