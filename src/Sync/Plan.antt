-- ===== src/Sync/Plan.antt =====
-- src/sync.rs: the plans of a push and of a pull. Both compare the tree that is wanted with the one
-- that is there; the source has the loop twice, and only the name of the list of files differs.
pub mod Lists
pub mod Diff
pub mod Carried
pub mod Yields
mod Examples
use vivado_server.Base.{
  ℕ, Str, ◌=s=◌, ==_iff, ◌==◌, if◌then◌else◌, any, Bool, true, false, ◌&&◌, ◌||◌, not, Option, none,
  some, List, [], ◌∷◌, ◌++◌, map,
}
use vivado_server.Base.{filter}
use vivado_server.Error.{Result, ok, err, bad_request, text, about, ◌>>=◌, ◌>>◌, guard}
use vivado_server.Sync.Model.{ManifestEntry, ManifestEntryKind, FileTransfer}
use vivado_server.Sync.Order.{
  lt_str, insert_by, sort_by, sort_paths, sort_paths_deepest_first, starts_with, is_below,
}
use vivado_server.Sync.Manifest.{ok_or, is_dir, is_file, find_entry, manifest_map}

-- The comparison of an optional number, and of an optional text.
same_number : Option ℕ → Option ℕ → Bool
same_number none none = true
same_number none (some n) = false
same_number (some m) none = false
same_number (some m) (some n) = m == n

same_hash : Option Str → Option Str → Bool
same_hash none none = true
same_hash none (some t) = false
same_hash (some s) none = false
same_hash (some s) (some t) = s =s= t

same_flag : Bool → Bool → Bool
same_flag true b = b
same_flag false b = not b

unfoldable pub same_file : ManifestEntry → ManifestEntry → Bool
unfolding same_number same_hash same_flag
same_file left right =
    is_file left.kind
    && is_file right.kind
    && same_number left.size_bytes right.size_bytes
    && same_number left.mtime_unix_ms right.mtime_unix_ms
    && same_hash left.sha256 right.sha256
    && same_flag left.executable right.executable

unfoldable pub file_transfer : ManifestEntry → Result FileTransfer
file_transfer entry = do
  guard (is_file entry.kind) (bad_request (about "not a file: " entry.path))
  size ← ok_or entry.size_bytes (bad_request (about "file entry missing size: " entry.path))
  mtime ← ok_or entry.mtime_unix_ms (bad_request (about "file entry missing mtime: " entry.path))
  sha ← ok_or entry.sha256 (bad_request (about "file entry missing sha256: " entry.path))
  ok (record {
    path = entry.path;
    size_bytes = size;
    mtime_unix_ms = mtime;
    sha256 = sha;
    executable = entry.executable;
  })

pub record PlannedUpload : Type 0 where
  pub entry : ManifestEntry
  pub transfer : FileTransfer

-- The lists of a plan, in the order in which they are filled.
pub record Plan : Type 0 where
  pub files : List PlannedUpload
  pub create_dirs : List Str
  pub delete_files : List Str
  pub delete_dirs : List Str

abbrev pub no_changes : Plan
no_changes = record { files = []; create_dirs = []; delete_files = []; delete_dirs = [] }

-- `old.is_some_and(|old| old.kind == ...)`
abbrev pub was_dir : Option ManifestEntry → Bool
was_dir none = false
was_dir (some old) = is_dir old.kind

abbrev pub was_file : Option ManifestEntry → Bool
was_file none = false
was_file (some old) = is_file old.kind

abbrev pub was_same : ManifestEntry → Option ManifestEntry → Bool
was_same entry none = false
was_same entry (some old) = same_file entry old

-- A directory is wanted.
unfoldable pub want_dir : ManifestEntry → Option ManifestEntry → Plan → Plan
want_dir entry old plan = record plan {
  create_dirs = if was_dir old then plan.create_dirs else plan.create_dirs ++ (entry.path ∷ []);
  delete_files = if was_file old then plan.delete_files ++ (entry.path ∷ []) else plan.delete_files;
}

-- An entry that has to go, by its kind.
unfoldable pub delete_entry : Plan → ManifestEntry → Plan
delete_entry plan old =
    if is_file old.kind
    then record plan { delete_files = plan.delete_files ++ (old.path ∷ []) }
    else record plan { delete_dirs = plan.delete_dirs ++ (old.path ∷ []) }

unfoldable pub delete_entries : List ManifestEntry → Plan → Plan
unfolding delete_entry
delete_entries [] plan = plan
delete_entries (old ∷ rest) plan = delete_entries rest (delete_entry plan old)

-- A file replaces a directory: all that is below it goes, and the directory itself.
unfoldable pub replace_dir : Str → List ManifestEntry → Plan → Plan
unfolding delete_entries
replace_dir path baseline plan =
    let emptied = delete_entries (filter (λ child. is_below child.path path) baseline) plan in
    record emptied { delete_dirs = emptied.delete_dirs ++ (path ∷ []) }

-- The entry's file is sent, unless it is there already.
unfoldable pub send_file : ManifestEntry → Option ManifestEntry → Plan → Result Plan
unfolding file_transfer same_file
send_file entry old plan =
    if was_same entry old
    then ok plan
    else (file_transfer entry >>= λ transfer.
        let upload : PlannedUpload = record { entry = entry; transfer = transfer } in
        ok (record plan { files = plan.files ++ (upload ∷ []) }))

-- A file is wanted.
unfoldable pub want_file :
    ManifestEntry → Option ManifestEntry → List ManifestEntry → Plan → Result Plan
unfolding send_file replace_dir
want_file entry old baseline plan = send_file entry old plan >>= λ sent.
    ok (if was_dir old then replace_dir entry.path baseline sent else sent)

unfoldable pub want_entry : List ManifestEntry → ManifestEntry → Plan → Result Plan
unfolding want_dir want_file
want_entry baseline entry plan = elim entry.kind [
  | ManifestEntryKind.dir ↦ ok (want_dir entry (find_entry entry.path baseline) plan)
  | ManifestEntryKind.file ↦ want_file entry (find_entry entry.path baseline) baseline plan
]

-- The loop over the wanted tree.
unfoldable pub want_entries : List ManifestEntry → List ManifestEntry → Plan → Result Plan
unfolding want_entry
want_entries baseline [] plan = ok plan
want_entries baseline (entry ∷ rest) plan =
    want_entry baseline entry plan >>= λ next. want_entries baseline rest next

abbrev pub contains_key : List ManifestEntry → Str → Bool
contains_key wanted path = elim (find_entry path wanted) [ none ↦ false | some e ↦ true ]

-- What is there and not wanted goes, if the request says so.
unfoldable pub drop_extra : Bool → List ManifestEntry → List ManifestEntry → Plan → Plan
unfolding delete_entries
drop_extra delete_extra wanted baseline plan =
    if delete_extra
    then delete_entries (filter (λ old. not (contains_key wanted old.path)) baseline) plan
    else plan

abbrev pub upload_before : PlannedUpload → PlannedUpload → Bool
upload_before left right = lt_str left.entry.path right.entry.path

-- The files are kept in the order of their paths: a push collects them in a `BTreeMap`, and a pull
-- sorts its list.
unfoldable pub sort_plan : Plan → Plan
unfolding sort_by sort_paths sort_paths_deepest_first
sort_plan plan = record {
  files = sort_by upload_before plan.files;
  create_dirs = sort_paths plan.create_dirs;
  delete_files = sort_paths plan.delete_files;
  delete_dirs = sort_paths_deepest_first plan.delete_dirs;
}

-- What turns the tree that is there into the one that is wanted.
unfoldable pub make_plan : Bool → List ManifestEntry → List ManifestEntry → Result Plan
unfolding want_entries drop_extra sort_plan
make_plan delete_extra wanted baseline = want_entries baseline wanted no_changes >>= λ plan.
    ok (sort_plan (drop_extra delete_extra wanted baseline plan))

-- The part of `create_plan` that plans, from the client's entries and a scan of the server's: a
-- full replacement takes the server's tree as empty and accepts no filters.
unfoldable pub planned_push :
    Bool → Bool → Bool → List ManifestEntry → Result (List ManifestEntry) → Result Plan
unfolding make_plan
planned_push reset filtered delete_extra client scanned = do
  guard (not (reset && filtered)) (bad_request (text "full replacement does not accept filters"))
  baseline ← if reset then ok [] else (scanned >>= λ entries. ok (manifest_map entries))
  make_plan (delete_extra && not reset) (manifest_map client) baseline

-- The part of `create_pull_plan` that plans.
unfoldable pub planned_pull : Bool → List ManifestEntry → Result (List ManifestEntry) → Result Plan
unfolding make_plan
planned_pull delete_extra client scanned = do
  server ← scanned
  make_plan delete_extra (manifest_map server) (manifest_map client)
