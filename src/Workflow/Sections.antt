-- ===== src/Workflow/Sections.antt =====
-- src/workflow.rs: what the handlers write into a workflow between two waits.
use vivado_server.Base.{
  ℕ, ◌-◌, ◌==◌, if◌then◌else◌, length, drop, any, Bool, true, false, ◌&&◌, not, none, some, [], ◌∷◌,
  ◌++◌,
}
use vivado_server.Error.{AppError, Result, ok, err, not_found, text}
use vivado_server.Workflow.Model.{WorkflowStatus, same_status, Workflow}
use vivado_server.Workflow.Registry.{transition}

-- The activity lock: its write half excludes the other half, and every transfer.
unfoldable pub is_free : Workflow → Bool
is_free w = not w.writing && w.transfers == 0

unfoldable pub lock : Workflow → Workflow
lock w = record w { writing = true }

unfoldable pub unlock : Workflow → Workflow
unlock w = record w { writing = false }

abbrev pub max_retained_sync_results : ℕ
max_retained_sync_results = 128

-- `push_plan` notes the new plan, and forgets the oldest ones beyond the limit.
unfoldable pub note_plan : ℕ → ℕ → Workflow → Workflow
note_plan sync_id deadline w =
    let ids = w.sync_ids ++ (sync_id ∷ []) in
    record w {
      state = record (w.state) {
        open_sync = some sync_id;
        open_sync_deadline = some deadline;
        sync_ids = drop (length ids - max_retained_sync_results) ids;
      };
    }

unfoldable pub close_plan : Workflow → Workflow
close_plan w = record w { state = record (w.state) { open_sync = none; open_sync_deadline = none } }

unfoldable pub check_sync : ℕ → Workflow → Result (Unit {0})
check_sync sync_id w =
    if any (λ id. id == sync_id) w.sync_ids
    then ok tt
    else err (not_found (text "sync plan does not belong to this workflow"))

-- `commit`, after the sync manager's success.
unfoldable pub note_commit : Workflow → Workflow
note_commit w = record w {
  state = record (w.state) {
    open_sync = none;
    open_sync_deadline = none;
    baseline_clean = true;
    info = record (w.state.info) { requires_full_upload = false };
  };
}

-- `start_session`, after the session manager's success.
unfoldable pub note_session : ℕ → Workflow → Workflow
note_session session_id w =
    let d = record (w.state) { info = record (w.state.info) { session_id = some session_id } } in
    record w {
      state =
          if same_status w.status WorkflowStatus.stopping
          then d
          else transition WorkflowStatus.running d;
    }

-- `observe_session`, once the project is marked clean.
unfoldable pub note_exit : Workflow → Workflow
note_exit w =
    let d = transition WorkflowStatus.pulling w.state in
    if same_status w.status WorkflowStatus.running
    then record w { state = record d { info = record (d.info) { requires_full_upload = false } } }
    else w

-- `finish`, when the last cleanup of plans fails.
unfoldable pub note_finish_failure : AppError → Workflow → Workflow
note_finish_failure e w = record w {
  state = record (w.state) {
    info = record (w.state.info) { cleanup_pending = true; error = some e };
  };
}

-- `cleanup_workflow`, when a round fails.
unfoldable pub note_cleanup_failure : AppError → Workflow → Workflow
note_cleanup_failure e w = record w {
  state = record (w.state) { info = record (w.state.info) { error = some e } };
}
