-- ===== src/Sync/Commit/Restores.antt =====
-- src/sync.rs: how a commit ends.
use vivado_server.Base.{◌≡◌, ◌⊎◌, map}
use vivado_server.Error.{AppError, Message, Result, ok, err, project_reupload_required}
use vivado_server.Sync.Model.{CommitSyncResponse}
use vivado_server.Sync.Disk.{Disk}
use vivado_server.Sync.Transaction.{CommitTransaction}
use vivado_server.Sync.Transaction.Rollback.{Run}
use vivado_server.Sync.Sessions.{CommitPlan}
use vivado_server.Sync.Commit.Checks.{Site}
use vivado_server.Sync.Commit.Made.{IsCarriedOut}

module _ (disk : Disk) (site : Site disk) where
  open disk use {State, create_dir_all}

  -- How a commit can end, the disk being `outcome.1` then and having been `s₀` when its transaction
  -- began.
  abbrev pub Ends : CommitPlan → State → Result CommitSyncResponse × State → Type 0
  Ends plan s₀ outcome =
      ((answer : CommitSyncResponse) × (outcome.0 ≡ ok answer)
        × (answer.uploaded_files ≡ map (λ upload. upload.entry.path) plan.changes.files)
        × (answer.created_dirs ≡ plan.changes.create_dirs)
        × ((t : CommitTransaction) × Run disk s₀ t outcome.1
            × IsCarriedOut disk site plan.reset plan t.changes))
      ⊎ ((e : AppError) × (outcome.0 ≡ err e) × (outcome.1 ≡ s₀))
      ⊎ ((m : Message) × (outcome.0 ≡ err (project_reupload_required m)))
