-- ===== src/Sync/Commit/Checks.antt =====
-- src/sync.rs: what a commit asks of the disk besides its transaction, and the checks before it.
use vivado_server.Base.{
  ◌+◌, Str, codes, ◌=s=◌, ◌==◌, if◌then◌else◌, any, all, length, Bool, ◌&&◌, Option, List, [], ◌∷◌,
  ◌++◌, map,
}
use vivado_server.Error.{Result, ok, err, about, text, conflict, guard, ◌>>=◌, ◌>>◌}
use vivado_server.Sync.Model.{ManifestEntry, FileTransfer}
use vivado_server.Sync.Paths.{split, normalize_sync_path}
use vivado_server.Sync.Manifest.{find_entry, is_dir}
use vivado_server.Sync.Plan.{Plan, PlannedUpload, same_file}
use vivado_server.Sync.Disk.{FilePath, join_path, Disk, done, failed}
use vivado_server.Sync.Transaction.{CommitTransaction, failure}
use vivado_server.Sync.Sessions.{CommitPlan}

-- `resolve_relative_path`
unfoldable pub resolve_relative_path : FilePath → Str → Result FilePath
resolve_relative_path root path =
    normalize_sync_path path >>= λ normalized. ok (root ++ split normalized)

-- A check of each item, up to the first that fails.
unfoldable pub check_each : {A : Type 0} → (A → Result (Unit {0})) → List A → Result (Unit {0})
check_each check [] = ok tt
check_each check (x ∷ xs) = let rest = check_each check xs in check x >> rest

module _ (disk : Disk) where
  open disk use {State, create_dir_all}

  -- The directories of a commit, and what it asks of the disk besides the calls of a transaction:
  -- checks that change nothing, and the times and permissions of a file, which a state of the disk
  -- does not show. `draw` is the UUID that names the next backup.
  pub record Site : Type 0 where
    pub workspace_root : FilePath
    pub project : Str
    pub staging_dir : FilePath
    pub check_project_root : State → Result (Unit {0})
    pub ensure_same_filesystem : State → Result (Unit {0})
    pub ensure_no_links : FilePath → Str → State → Result (Unit {0})
    pub open_file_for_transfer : FilePath → Str → State → Result FileTransfer
    pub ensure_baseline_matches : FilePath → Option ManifestEntry → State → Result (Unit {0})
    pub set_file_attributes : FilePath → ManifestEntry → State → Result (Unit {0})
    pub scan_manifest : FilePath → State → Result (List ManifestEntry)
    pub draw : CommitTransaction → State → Str

  module _ (site : Site) where
    open site use {
      workspace_root, project, staging_dir, check_project_root, ensure_same_filesystem,
      ensure_no_links, open_file_for_transfer, ensure_baseline_matches, set_file_attributes,
      scan_manifest, draw,
    }

    abbrev pub project_dir : FilePath
    project_dir = join_path workspace_root project

    abbrev pub files_dir : FilePath
    files_dir = join_path staging_dir (codes "files")

    -- A staged file is still there, and what the plan says.
    unfoldable pub check_staged : State → PlannedUpload → Result (Unit {0})
    check_staged s upload = do
      ensure_no_links staging_dir (codes "files/" ++ upload.entry.path) s
      staged ← resolve_relative_path files_dir upload.entry.path
      transfer ← open_file_for_transfer staged upload.entry.path s
      guard
          (transfer.size_bytes == upload.transfer.size_bytes
            && transfer.sha256 =s= upload.transfer.sha256)
          (conflict (about "staged file does not match plan: " upload.entry.path))

    unfoldable pub check_target : State → List ManifestEntry → Str → Result (Unit {0})
    check_target s baseline path = do
      ensure_no_links workspace_root (project ++ codes "/" ++ path) s
      target ← resolve_relative_path project_dir path
      ensure_baseline_matches target (find_entry path baseline) s

    unfoldable pub check_commit : CommitPlan → State → Result (Unit {0})
    unfolding check_each check_staged
    check_commit plan s =
        check_project_root s
        >> (ensure_same_filesystem s >> check_each (check_staged s) plan.changes.files)

    unfoldable pub check_targets : CommitPlan → State → Result (Unit {0})
    unfolding check_each check_target
    check_targets plan s = check_each (check_target s plan.baseline) (
        plan.changes.create_dirs
        ++ (map (λ upload. upload.entry.path) plan.changes.files
            ++ (plan.changes.delete_files ++ plan.changes.delete_dirs)))

    -- The directories of a replacement are made among the staged files.
    unfoldable pub prepare_dirs : List Str → State → Result (Unit {0}) × State
    prepare_dirs [] s = (ok tt, s)
    prepare_dirs (path ∷ paths) s =
        elim (ensure_no_links files_dir path s >> resolve_relative_path files_dir path) [
          | err e ↦ (err e, s)
          | ok dir ↦
              let (made, s') = create_dir_all dir s in
              let rest = prepare_dirs paths s' in
              elim made [
                | done unit ↦ rest
                | failed e ↦ (err (failure "sync filesystem operation failed: " e), s')
              ]
        ]

    unfoldable pub prepare_file : State → PlannedUpload → Result (Unit {0})
    prepare_file s upload = resolve_relative_path files_dir upload.entry.path >>= λ path.
        set_file_attributes path upload.entry s

    -- The staged tree is the one that was planned.
    unfoldable pub is_planned : Plan → ManifestEntry → Bool
    is_planned changes entry =
        if is_dir entry.kind
        then any (λ path. path =s= entry.path) changes.create_dirs
        else any (λ upload. upload.entry.path =s= entry.path && same_file entry upload.entry)
            changes.files

    unfoldable pub check_replacement : Plan → List ManifestEntry → Result (Unit {0})
    unfolding is_planned
    check_replacement changes actual =
        guard
          (length actual == length changes.create_dirs + length changes.files
            && all (λ entry. is_planned changes entry) actual)
          (conflict (text "replacement tree differs from the complete manifest"))

    -- The prepared tree is checked as a whole.
    unfoldable pub check_prepared : CommitPlan → Result (Unit {0}) × State → Result (Unit {0})
    unfolding check_each prepare_file check_replacement
    check_prepared plan (prepared, s) = do
      prepared
      check_each (prepare_file s) plan.changes.files
      actual ← scan_manifest files_dir s
      check_replacement plan.changes actual
