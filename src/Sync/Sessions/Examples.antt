-- ===== src/Sync/Sessions/Examples.antt =====
-- src/sync.rs: a plan with one upload, from its making to a clean-up that fails.
use vivado_server.Base.{ℕ, ◌<◌, ◌≡◌, ◌=s=◌, ◌↔◌, refl, Str, codes, true, false, some, [], ◌∷◌}
use vivado_server.Base.Maps.{insert}
use vivado_server.Error.{ok, err, text, internal, conflict}
use vivado_server.Sync.Model.{ManifestEntryKind, CommitSyncResponse, committing}
use vivado_server.Sync.Plan.{PlannedUpload}
use vivado_server.Sync.Sessions.{
  CommitPlan, PushSession, is_live, is_missing, check_upload, finish_upload, begin_commit,
  conclude_commit,
}
use vivado_server.Sync.Sessions.Registry.{
  SyncManager, new_manager, new_session, finish_session, reserve_slot, register_plan,
  settle_cleanup, is_cleanup_degraded,
}
use vivado_server.Sync.Sessions.Steps.{
  At, hold_activity, Steps, reserves, registers, receives, stages, begins, settles, takes, cleans,
  stays, joined, after,
}
use vivado_server.Sync.Sessions.Steps.Slot.{one_live, commit_alone, is_cleanup_degraded_iff}

abbrev pub path : Str
path = codes "a.v"

abbrev pub project : Str
project = codes "p"

abbrev pub upload : PlannedUpload
upload = record {
  entry = record {
    path = path;
    kind = ManifestEntryKind.file;
    size_bytes = some 1;
    mtime_unix_ms = some 0;
    sha256 = some [];
    executable = false;
  };
  transfer = record {
    path = path;
    size_bytes = 1;
    mtime_unix_ms = 0;
    sha256 = [];
    executable = false;
  };
}

abbrev pub plan : CommitPlan
plan = record {
  reset = false;
  changes = record { files = upload ∷ []; create_dirs = []; delete_files = []; delete_dirs = [] };
  baseline = [];
}

abbrev pub response : CommitSyncResponse
response = record {
  sync_id = 7;
  uploaded_files = path ∷ [];
  created_dirs = [];
  deleted_files = [];
  deleted_dirs = [];
}

abbrev pub open_session : PushSession
open_session = new_session 7 project plan 60

abbrev pub uploaded_session : PushSession
uploaded_session = record open_session { uploaded_files = path ∷ [] }

abbrev committing_session : PushSession
committing_session = record uploaded_session { state = committing }

unfoldable pub committed_session : PushSession
unfolding conclude_commit
committed_session = conclude_commit 0 (ok response) committing_session

abbrev reserved : SyncManager
reserved = record new_manager { permits = 0; creating = true }

abbrev pub on_manager : PushSession → SyncManager
on_manager d = record reserved { sessions = d ∷ []; entries = (7, 0) ∷ []; creating = false }

pub opened_run : Steps new_manager (on_manager open_session)
unfolding reserve_slot register_plan insert
opened_run =
    after (after (stays new_manager) (reserves new_manager reserved refl refl))
      (registers reserved 7 60 project plan refl)

receiving_run : Steps new_manager (on_manager (hold_activity path open_session))
unfolding check_upload ◌=s=◌
receiving_run =
    after opened_run (receives (on_manager open_session) 0 open_session path upload refl refl)

pub uploaded_run : Steps new_manager (on_manager uploaded_session)
unfolding finish_upload ◌=s=◌
uploaded_run = after receiving_run (
    stages (on_manager (hold_activity path open_session)) 0 (hold_activity path open_session)
      (hold_activity path uploaded_session) path refl refl refl)

committing_run : Steps new_manager (on_manager committing_session)
unfolding begin_commit is_missing ◌=s=◌
committing_run =
    after uploaded_run (begins (on_manager uploaded_session) 0 uploaded_session refl refl)

abbrev pub committed_manager : SyncManager
committed_manager = record (on_manager committed_session) { permits = 1 }

pub committed_run : Steps new_manager committed_manager
unfolding finish_session committed_session conclude_commit
committed_run =
    after committing_run
      (settles (on_manager committing_session) 0 committing_session (ok response) refl refl)

abbrev cleaning_session : PushSession
cleaning_session = record committed_session { cleaning = true }

abbrev degraded_session : PushSession
degraded_session = record committed_session { cleanup_failures = 1 }

abbrev pub degraded_manager : SyncManager
degraded_manager = record committed_manager {
  sessions = degraded_session ∷ [];
  cleanup_degraded = 1;
}

pub cleanup_run : Steps committed_manager degraded_manager
unfolding settle_cleanup committed_session
cleanup_run =
    after
      (after (stays committed_manager) (takes committed_manager 0 committed_session refl refl refl))
      (cleans (record committed_manager { sessions = cleaning_session ∷ [] }) 0 cleaning_session
        (err (internal (text "removal failed"))) refl refl)

one_live_example :
    (◌≡◌ {A = ℕ} 0 0)
    × ((on_manager committing_session).creating ≡ false)
    × (reserve_slot (on_manager committing_session)
        ≡ err (conflict (text "an open sync plan already exists")))
unfolding is_live
one_live_example =
    one_live (on_manager committing_session) 0 0 committing_session committing_session
      committing_run refl refl refl refl

commit_alone_example : (committing_session.receiving ≡ []) × (is_missing committing_session ≡ false)
commit_alone_example =
    commit_alone (on_manager committing_session) 0 committing_session committing_run refl refl

is_cleanup_degraded_iff_example :
    (is_cleanup_degraded degraded_manager ≡ true)
    ↔ ((h : ℕ) × (d : PushSession) × At degraded_manager h d × (0 < d.cleanup_failures))
is_cleanup_degraded_iff_example =
    is_cleanup_degraded_iff degraded_manager (joined committed_run cleanup_run)
