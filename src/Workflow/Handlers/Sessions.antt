-- ===== src/Workflow/Handlers/Sessions.antt =====
-- src/workflow.rs: the handlers of the running phase.
use vivado_server.Base.{
  ℕ, zero, suc, Str, ◌==◌, if◌then◌else◌, Bool, true, false, ◌&&◌, not, Option, none, some, List,
  [], ◌∷◌,
}
use vivado_server.Error.{
  Result, ok, err, session_not_found, workflow_phase, project_reupload_required, text, about,
}
use vivado_server.Session.Model.{
  SessionInfo, SessionStatus, TerminationReason, process_exited, client_requested,
}
use vivado_server.Session.Model
use vivado_server.Workflow.Model.{WorkflowStatus, same_status, Workflow}
use vivado_server.Workflow.Registry.{phase}
use vivado_server.Workflow.Cleanup.{request_cleanup}
use vivado_server.Workflow.Sections.{note_session, note_exit}
use vivado_server.Workflow.Machine.{
  Machine, M, ◌>>=◌, ◌>>◌, give, block, fail_with, check, attempt, act, object, update, call, wait,
  locked, managed,
}
use vivado_server.Workflow.Services.{Services}
use vivado_server.Workflow.Handlers.{handle, fail}
use vivado_server.Workflow.Handlers.Push.{refresh_open_sync, no_open_plan}

-- `termination_reason == Some(ProcessExited)`
unfoldable pub has_exited : Option TerminationReason → Bool
has_exited (some process_exited) = true
has_exited _ = false

unfoldable pub is_zero : Option ℕ → Bool
is_zero none = false
is_zero (some status) = status == 0

unfoldable pub session_of : Workflow → Result ℕ
session_of w = elim w.session_id [ none ↦ err session_not_found | some session_id ↦ ok session_id ]

unfoldable pub upload_done : Workflow → Result (Unit {0})
upload_done w =
    if w.requires_full_upload then err (project_reupload_required (about "" w.project)) else ok tt

-- `get_or_insert`
abbrev or_requested : Option TerminationReason → Option TerminationReason
or_requested none = some client_requested
or_requested (some reason) = some reason

module _ {W : Type 0} (others : ℕ → Machine W → Machine W) (svc : Services W) where
  unfoldable pub settle_start : ℕ → Result SessionInfo → M W SessionInfo
  settle_start h (ok session) = do update h (note_session session.session_id); give session
  settle_start h (err e) = do fail h e true; fail_with e

  -- The project is dirty from here on.
  unfoldable pub start_marked : ℕ → ℕ → Str → List Str → Result (Unit {0}) → M W SessionInfo
  start_marked h id project args (err e) = do fail h e true; fail_with e
  start_marked h id project args (ok u) = do
    w ← object h
    check (phase (WorkflowStatus.preparing ∷ []) w)
    result ← attempt (call others 6 (svc.create_session project args id))
    settle_start h result

  unfoldable pub start_locked : ℕ → ℕ → List Str → M W SessionInfo
  start_locked h id args = do
    w ← object h
    check (phase (WorkflowStatus.preparing ∷ []) w)
    refresh_open_sync others svc h
    v ← object h
    check (upload_done v)
    check (no_open_plan v (workflow_phase (text "commit or abort the open plan first")))
    marked ← attempt (call others 5 (svc.mark_dirty v.project))
    start_marked h id v.project args marked

  unfoldable pub start_session : ℕ → List Str → M W SessionInfo
  start_session id args = do
    check (svc.validate_vivado_args args)
    managed others (svc.requested "workflow_start_session")
        (do h ← handle id; locked others 2 h (start_locked h id args))

  unfoldable pub note_clean : ℕ → Result (Unit {0}) → M W (Unit {0})
  note_clean h (ok u) = update h note_exit
  note_clean h (err e) = fail h e true

  -- What the observer does once the session is over, with the activity lock held.
  unfoldable pub settle_exit : ℕ → SessionInfo → M W (Unit {0})
  settle_exit h session = do
    w ← object h
    if not (same_status w.status WorkflowStatus.running)
        then give tt
        else if has_exited session.termination_reason && is_zero session.exit_code
        then (attempt (call others 2 (svc.mark_clean w.project)) >>= note_clean h)
        else fail h
            (project_reupload_required (text "Vivado did not exit normally with status zero")) true

  unfoldable pub observed : ℕ → M W (Unit {0}) → Result SessionInfo → M W (Unit {0})
  observed h again (err e) = fail h e true
  observed h again (ok session) =
      if Model.is_terminal session.status
      then locked others 1 h (settle_exit h session)
      else (wait others 3 >> again)

  -- The polling loop, for a number of polls.
  unfoldable pub observe_session : ℕ → ℕ → ℕ → M W (Unit {0})
  observe_session zero h session_id = block
  observe_session (suc polls) h session_id =
      let again = observe_session polls h session_id in
      do
        w ← object h
        if not (same_status w.status WorkflowStatus.running)
            then give tt
            else (attempt (call others 0 (svc.get_session session_id)) >>= observed h again)

  unfoldable pub stop_live : ℕ → SessionInfo → M W SessionInfo
  stop_live h session = if Model.is_terminal session.status then give session else (do
    act (
        request_cleanup h client_requested WorkflowStatus.failed
          (some (project_reupload_required (text "Vivado was stopped by the client"))) true)
    give (record session {
      status = SessionStatus.stopping;
      termination_reason = or_requested session.termination_reason;
    }))

  unfoldable pub stop_session : ℕ → M W SessionInfo
  stop_session id = managed others (svc.requested "workflow_stop_session") (do
    h ← handle id
    w ← object h
    session_id ← check (session_of w)
    session ← call others 2 (svc.get_session session_id)
    stop_live h session)
