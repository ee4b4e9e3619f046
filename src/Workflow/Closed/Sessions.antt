-- ===== src/Workflow/Closed/Sessions.antt =====
-- src/workflow.rs: the other handlers of the running phase keep what their steps keep.
use vivado_server.Base.{ℕ, zero, suc, true, ◌&&◌, not}
use vivado_server.Error.{Result, ok, err}
use vivado_server.Session.Model.{SessionInfo, SessionStatus}
use vivado_server.Session.Model
use vivado_server.Workflow.Model.{WorkflowStatus, same_status}
use vivado_server.Workflow.Registry.{Manager}
use vivado_server.Workflow.Machine.{Machine, M}
use vivado_server.Workflow.Services.{Services}
use vivado_server.Workflow.Handlers.Sessions.{
  has_exited, is_zero, note_clean, settle_exit, observed, observe_session, stop_live, stop_session,
}
use vivado_server.Workflow.Keeps.{
  Keeps, Keeps-bind, Keeps-then, Keeps-give, Keeps-block, Keeps-check, Keeps-attempt, Keeps-act,
  Keeps-update, Keeps-object, Keeps-if, Keeps-call, Keeps-wait, Keeps-managed,
}
use vivado_server.Workflow.Closed.{exits, Closed}
use vivado_server.Workflow.Closed.Create.{handle-Keeps, fail-Keeps}
use vivado_server.Workflow.Closed.Push.{locked-Keeps}

module _ {W : Type 0} (P : Manager → Type 0) (c : Closed P) (others : ℕ → Machine W → Machine W)
    (respect : (n : ℕ) (s : Machine W) → P s.manager → P (others n s).manager)
    (svc : Services W) where
  note_clean-Keeps : (h : ℕ) (marked : Result (Unit {0})) → Keeps P (note_clean others svc h marked)
  unfolding note_clean
  note_clean-Keeps h (ok u) = Keeps-update P h _ (λ m. c.writes h _ m exits)
  note_clean-Keeps h (err e) = fail-Keeps P c h e true

  settle_exit-Keeps : (h : ℕ) (session : SessionInfo) → Keeps P (settle_exit others svc h session)
  unfolding settle_exit
  settle_exit-Keeps h session = Keeps-bind P (Keeps-object P h) λ w.
      Keeps-if P (not (same_status w.status WorkflowStatus.running)) (Keeps-give P tt) (
        Keeps-if P (has_exited session.termination_reason && is_zero session.exit_code)
          (Keeps-bind P (Keeps-attempt P (Keeps-call P others respect 2 (svc.mark_clean w.project)))
            (note_clean-Keeps h))
          (fail-Keeps P c h _ true))

  observed-Keeps :
      (h : ℕ) (again : M W (Unit {0})) (result : Result SessionInfo)
      → Keeps P again
      → Keeps P (observed others svc h again result)
  unfolding observed
  observed-Keeps h again (err e) k = fail-Keeps P c h e true
  observed-Keeps h again (ok session) k =
      Keeps-if P (Model.is_terminal session.status)
        (locked-Keeps P c others respect svc 1 h (settle_exit-Keeps h session))
        (Keeps-then P (Keeps-wait P others respect 3) k)

  pub observe_session-Keeps :
      (polls h session_id : ℕ) → Keeps P (observe_session others svc polls h session_id)
  unfolding observe_session
  observe_session-Keeps zero h session_id = Keeps-block P
  observe_session-Keeps (suc polls) h session_id = Keeps-bind P (Keeps-object P h) λ w.
      Keeps-if P (not (same_status w.status WorkflowStatus.running)) (Keeps-give P tt) (
        Keeps-bind P (Keeps-attempt P (Keeps-call P others respect 0 (svc.get_session session_id)))
          (λ result. observed-Keeps h _ result (observe_session-Keeps polls h session_id)))

  stop_live-Keeps : (h : ℕ) (session : SessionInfo) → Keeps P (stop_live others svc h session)
  unfolding stop_live
  stop_live-Keeps h session =
      Keeps-if P (Model.is_terminal session.status) (Keeps-give P session)
        (Keeps-then P (Keeps-act P _ (c.stops h _ _ _ true)) (Keeps-give P _))

  pub stop_session-Keeps : (id : ℕ) → Keeps P (stop_session others svc id)
  unfolding stop_session
  stop_session-Keeps id = Keeps-managed P others respect _ (
      Keeps-bind P (handle-Keeps P c id) λ h. Keeps-bind P (Keeps-object P h) λ w.
        Keeps-bind P (Keeps-check P _) λ session_id.
          Keeps-bind P (Keeps-call P others respect 2 (svc.get_session session_id))
            (stop_live-Keeps h))
