-- ===== src/Sync/Commit.antt =====
-- src/sync.rs: `apply_commit` and `apply_reset`, which carry out a plan over a transaction.
pub mod Checks
pub mod Reached
pub mod Made
pub mod Restores
mod Examples
use vivado_server.Base.{
  ℕ, ◌+◌, Str, codes, ◌=s=◌, ◌==◌, if◌then◌else◌, any, all, length, Bool, true, false, ◌&&◌, ◌||◌,
  not, Option, none, some, List, [], ◌∷◌, ◌++◌, map,
}
use vivado_server.Error.{Result, ok, err, about, text, conflict, guard, AppError, ◌>>=◌, ◌>>◌}
use vivado_server.Sync.Model.{ManifestEntry, ManifestEntryKind, FileTransfer, CommitSyncResponse}
use vivado_server.Sync.Paths.{split, normalize_sync_path}
use vivado_server.Sync.Manifest.{find_entry, is_dir}
use vivado_server.Sync.Plan.{Plan, PlannedUpload, same_file}
use vivado_server.Sync.Disk.{FilePath, join_path, Disk, done, failed}
use vivado_server.Sync.Transaction.{
  CommitTransaction, Outcome, failure, new, create_missing_dir, install_file, replace_project,
  delete_file, delete_empty_dir,
}
use vivado_server.Sync.Rollback.{settle_transaction}
use vivado_server.Sync.Sessions.{CommitPlan}
use vivado_server.Sync.Commit.Checks.{
  Site, resolve_relative_path, check_each, project_dir, files_dir, check_staged, check_target,
  check_commit, check_targets, prepare_dirs, check_prepared,
}

unfoldable pub commit_response : ℕ → CommitPlan → List Str → List Str → CommitSyncResponse
commit_response sync_id plan deleted_files deleted_dirs = record {
  sync_id = sync_id;
  uploaded_files = map (λ upload. upload.entry.path) plan.changes.files;
  created_dirs = plan.changes.create_dirs;
  deleted_files = deleted_files;
  deleted_dirs = deleted_dirs;
}

module _ (disk : Disk) where
  open disk use {State, create_dir_all}

  -- An operation on each item, up to the first that fails, with what each found.
  unfoldable pub for_each :
      {A B : Type 0}
      → (A → CommitTransaction → State → Outcome disk (Option B))
      → List A
      → CommitTransaction
      → State
      → Outcome disk (List B)
  for_each operation [] t s = (ok [], t, s)
  for_each operation (x ∷ xs) t s =
      let (result, t', s') = operation x t s in
      let (later, t'', s'') = for_each operation xs t' s' in
      elim result [
        | err e ↦ (err e, t', s')
        | ok found ↦
            (later >>= λ rest. ok (elim found [ some b ↦ b ∷ rest | none ↦ rest ]), t'', s'')
      ]

  -- The operator `?` on an outcome.
  abbrev pub and_then :
      {A B : Type 0}
      → Outcome disk A
      → (A → CommitTransaction → State → Outcome disk B)
      → Outcome disk B
  and_then (err e, t, s) next = (err e, t, s)
  and_then (ok a, t, s) next = next a t s

  module _ (site : Site disk) where
    open site use {
      workspace_root, project, staging_dir, check_project_root, ensure_same_filesystem,
      ensure_no_links, open_file_for_transfer, ensure_baseline_matches, set_file_attributes,
      scan_manifest, draw,
    }

    -- What was deleted is listed.
    deleted : Str → Outcome disk Bool → Outcome disk (Option Str)
    deleted path (result, t, s) = (result >>= λ gone. ok (if gone then some path else none), t, s)

    unfoldable pub delete_planned_file : Str → CommitTransaction → State → Outcome disk (Option Str)
    unfolding deleted
    delete_planned_file path t s = elim (resolve_relative_path (project_dir disk site) path) [
      | err e ↦ (err e, t, s)
      | ok target ↦ deleted path (delete_file disk (draw t s) target path t s)
    ]

    unfoldable pub delete_planned_dir : Str → CommitTransaction → State → Outcome disk (Option Str)
    unfolding deleted
    delete_planned_dir path t s = elim (resolve_relative_path (project_dir disk site) path) [
      | err e ↦ (err e, t, s)
      | ok target ↦ deleted path (delete_empty_dir disk (draw t s) target path t s)
    ]

    -- Nothing is listed.
    unlisted : Outcome disk (Unit {0}) → Outcome disk (Option Str)
    unlisted (result, t, s) = (result >>= λ unit. ok none, t, s)

    unfoldable pub create_planned_dir : Str → CommitTransaction → State → Outcome disk (Option Str)
    unfolding unlisted
    create_planned_dir path t s = elim (resolve_relative_path (project_dir disk site) path) [
      | err e ↦ (err e, t, s)
      | ok target ↦ unlisted (create_missing_dir disk target path t s)
    ]

    with_attributes : FilePath → ManifestEntry → Outcome disk (Unit {0}) → Outcome disk (Option Str)
    with_attributes target entry (result, t, s) =
        (result >> (set_file_attributes target entry s >>= λ unit. ok none), t, s)

    install_staged :
        PlannedUpload → FilePath → FilePath → CommitTransaction → State → Outcome disk (Option Str)
    unfolding with_attributes
    install_staged upload target staged t s =
        with_attributes target upload.entry
          (install_file disk (draw t s) staged target upload.entry.path t s)

    unfoldable pub install_planned :
        PlannedUpload → CommitTransaction → State → Outcome disk (Option Str)
    unfolding install_staged
    install_planned upload t s =
        elim (resolve_relative_path (project_dir disk site) upload.entry.path) [
          | err e ↦ (err e, t, s)
          | ok target ↦ elim (resolve_relative_path (files_dir disk site) upload.entry.path) [
            | err e ↦ (err e, t, s)
            | ok staged ↦ install_staged upload target staged t s
          ]
        ]

    -- The changes of a push, in their order, with the files and the directories that were deleted.
    unfoldable pub push_changes :
        Plan → CommitTransaction → State → Outcome disk (List Str × List Str)
    unfolding for_each delete_planned_file delete_planned_dir create_planned_dir install_planned
    push_changes changes t s =
        and_then (create_missing_dir disk (project_dir disk site) (codes "project root") t s)
          λ made t s.
            and_then (for_each delete_planned_file changes.delete_files t s) λ deleted_files t s.
              and_then (for_each delete_planned_dir changes.delete_dirs t s) λ deleted_dirs t s.
                and_then (for_each create_planned_dir changes.create_dirs t s) λ created t s.
                  and_then (for_each install_planned changes.files t s)
                    λ installed t s. (ok (deleted_files, deleted_dirs), t, s)

    unfoldable pub replace_changes : CommitTransaction → State → Outcome disk (List Str × List Str)
    replace_changes t s =
        and_then (replace_project disk (draw t s) (files_dir disk site) (project_dir disk site) t s)
          λ replaced t s. (ok ([], []), t, s)

    abbrev pub rollback_dir : FilePath
    rollback_dir = join_path staging_dir (codes "rollback")

    unfoldable pub begin_reset : CommitPlan → State → Result CommitTransaction × State
    unfolding prepare_dirs check_prepared new
    begin_reset plan s =
        let prepared = prepare_dirs disk site plan.changes.create_dirs s in
        elim (check_prepared disk site plan prepared) [
          | err e ↦ (err e, prepared.1)
          | ok unit ↦ new disk rollback_dir prepared.1
        ]

    unfoldable pub begin_push : CommitPlan → State → Result CommitTransaction × State
    unfolding check_targets new
    begin_push plan s = elim (check_targets disk site plan s) [
      | err e ↦ (err e, s)
      | ok unit ↦ new disk rollback_dir s
    ]

    -- What comes before the transaction of a commit.
    unfoldable pub begin_changes : CommitPlan → State → Result CommitTransaction × State
    unfolding check_commit begin_reset begin_push
    begin_changes plan s = elim (check_commit disk site plan s) [
      | err e ↦ (err e, s)
      | ok unit ↦ if plan.reset then begin_reset plan s else begin_push plan s
    ]

    unfoldable pub make_changes :
        CommitPlan → CommitTransaction → State → Outcome disk (List Str × List Str)
    unfolding push_changes replace_changes
    make_changes plan t s =
        if plan.reset then replace_changes t s else push_changes plan.changes t s

    module _ (to_string : AppError → Str) (decimal : ℕ → Str) where
      -- The answer is made of what was deleted.
      settle_changes :
          ℕ → CommitPlan → Outcome disk (List Str × List Str) → Result CommitSyncResponse × State
      unfolding settle_transaction commit_response
      settle_changes sync_id plan (result, t, s) =
          let answer = result >>= λ (files, dirs). ok (commit_response sync_id plan files dirs) in
          let (settled, t', s') = settle_transaction disk to_string decimal answer t s in
          (settled, s')

      unfoldable pub apply_commit : ℕ → CommitPlan → State → Result CommitSyncResponse × State
      unfolding begin_changes make_changes settle_changes
      apply_commit sync_id plan s =
          let (begun, s') = begin_changes plan s in
          elim begun [
            | err e ↦ (err e, s')
            | ok t ↦ settle_changes sync_id plan (make_changes plan t s')
          ]
