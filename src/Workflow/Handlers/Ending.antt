-- ===== src/Workflow/Handlers/Ending.antt =====
-- src/workflow.rs: the handlers that end a workflow, and the worker that cleans up after one.
use vivado_server.Base.{
  ℕ, zero, suc, if◌then◌else◌, Bool, true, false, ◌&&◌, not, none, some, [], ◌∷◌,
}
use vivado_server.Base.Maps.{get_elem?}
use vivado_server.Error.{Result, ok, err, internal, workflow_phase, text}
use vivado_server.Session.Model.{SessionInfo, workflow_closed}
use vivado_server.Session.Model
use vivado_server.Workflow.Model.{WorkflowStatus, is_terminal, same_status, WorkflowInfo, Workflow}
use vivado_server.Workflow.Registry.{phase}
use vivado_server.Workflow.Cleanup.{request_cleanup}
use vivado_server.Workflow.Sections.{note_finish_failure, note_cleanup_failure}
use vivado_server.Workflow.Machine.{
  Machine, M, ◌>>=◌, ◌>>◌, give, block, fail_with, check, attempt, act, object, update, call, wait,
  can_lock, exclusive, locked, managed,
}
use vivado_server.Workflow.Services.{Services}
use vivado_server.Workflow.Handlers.{handle, end_workflow}

unfoldable pub try_exclusive : {W A : Type 0} → Bool → ℕ → M W A → M W A
try_exclusive true h body = exclusive h body
try_exclusive false h body = fail_with (workflow_phase (text "transfers are still active"))

-- `try_write`
unfoldable pub try_locked : {W A : Type 0} → ℕ → M W A → M W A
unfolding try_exclusive
try_locked h body s = try_exclusive (can_lock (get_elem? s.manager.objects h)) h body s

module _ {W : Type 0} (others : ℕ → Machine W → Machine W) (svc : Services W) where
  unfoldable pub settle_finish : ℕ → Result (Unit {0}) → M W WorkflowInfo
  settle_finish h (err e) = do update h (note_finish_failure e); fail_with e
  settle_finish h (ok u) = do
    ended ← end_workflow svc h WorkflowStatus.completed none false
    w ← object h
    if ended then give w.info else fail_with (workflow_phase (text "workflow is stopping"))

  unfoldable pub finish_locked : ℕ → M W WorkflowInfo
  finish_locked h = do
    w ← object h
    check (phase (WorkflowStatus.pulling ∷ []) w)
    result ← attempt (call others 2 (svc.abort_open w.project))
    settle_finish h result

  unfoldable pub finish : ℕ → M W WorkflowInfo
  finish id = managed others (svc.requested "workflow_finish") (do
    h ← handle id
    w ← object h
    if same_status w.status WorkflowStatus.completed
        then give w.info
        else try_locked h (finish_locked h))

  unfoldable pub cancel : ℕ → M W WorkflowInfo
  cancel id = managed others (svc.requested "workflow_cancel") (do
    h ← handle id
    act (request_cleanup h workflow_closed WorkflowStatus.cancelled none false)
    w ← object h
    give w.info)

  unfoldable pub degraded : M W Bool
  degraded s = give (svc.sessions_degraded s.world) s

  unfoldable pub confirm_stopped : Bool → M W (Unit {0})
  confirm_stopped over =
      if over
      then give tt
      else fail_with (internal (text "waiting for confirmed Vivado process cleanup"))

  unfoldable pub confirm_idle : Bool → M W (Unit {0})
  confirm_idle unsure =
      if unsure
      then fail_with (internal (text "Vivado startup cleanup is not confirmed"))
      else give tt

  -- The process is gone, or never was.
  unfoldable pub stop_process : Workflow → M W (Unit {0})
  stop_process w = elim w.session_id [
    | some session_id ↦
        (call others 1 (svc.stop_session session_id w.stop_reason) >>= λ session.
        confirm_stopped (Model.is_terminal session.status))
    | none ↦ (degraded >>= confirm_idle)
  ]

  -- The awaited part of a round: whether the project is clean in the end.
  unfoldable pub release_services : Workflow → M W Bool
  release_services w = do
    stop_process w
    if w.invalidate_project then call others 2 (svc.mark_dirty w.project) else give tt
    call others 3 (svc.abort_open w.project)
    call others 4 (svc.is_clean w.project)

  unfoldable pub settle_round : ℕ → Workflow → Result Bool → M W Bool
  settle_round h w (err e) = do update h (note_cleanup_failure e); wait others 5; give false
  settle_round h w (ok clean) = do
    v ← object h
    if v.invalidate_project && not w.invalidate_project
        then give false
        else (end_workflow svc h v.cleanup_target v.terminal_error (not clean) >>= λ ended.
            if ended then give true else (wait others 5 >> give false))

  -- One round; the result says that the workflow has ended. After a round that has not ended it,
  -- the worker sleeps, unless a dirty marker has come to be wanted meanwhile: then it goes on at once.
  unfoldable pub cleanup_round : ℕ → M W Bool
  cleanup_round h = do
    w ← object h
    if is_terminal w.status then give true else (attempt (release_services w) >>= settle_round h w)

  -- The loop of the worker, for a number of rounds.
  unfoldable pub cleanup_rounds : ℕ → ℕ → M W (Unit {0})
  cleanup_rounds zero h = block
  cleanup_rounds (suc rounds) h =
      let again = cleanup_rounds rounds h in
      do ended ← cleanup_round h; if ended then give tt else again

  unfoldable pub cleanup_workflow : ℕ → ℕ → M W (Unit {0})
  cleanup_workflow rounds h = locked others 0 h (cleanup_rounds rounds h)
