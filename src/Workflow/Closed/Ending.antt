-- ===== src/Workflow/Closed/Ending.antt =====
-- src/workflow.rs: the handlers that end a workflow, and the cleanup worker, keep what their steps
-- keep.
use vivado_server.Base.{
  ◌≡◌, ℕ, zero, suc, if◌then◌else◌, Bool, true, false, ◌&&◌, not, Option, none, some, Option-cases,
  inl, inr, refl,
}
use vivado_server.Base.Maps.{get_elem?}
use vivado_server.Error.{Result, ok, err}
use vivado_server.Session.Model
use vivado_server.Workflow.Model.{WorkflowStatus, is_terminal, same_status, Workflow}
use vivado_server.Workflow.Registry.{Manager}
use vivado_server.Workflow.Machine.{
  Machine, M, give, ◌>>=◌, next, object, fetched, call, wait, ◌>>◌,
}
use vivado_server.Workflow.Services.{Services}
use vivado_server.Workflow.Handlers.{end_workflow}
use vivado_server.Workflow.Handlers.Ending.{
  try_exclusive, try_locked, settle_finish, finish_locked, finish, cancel, degraded,
  confirm_stopped, confirm_idle, stop_process, release_services, settle_round, cleanup_round,
  cleanup_rounds, cleanup_workflow,
}
use vivado_server.Workflow.Machine.{can_lock}
use vivado_server.Workflow.Keeps.{
  Keeps, Keeps-bind, Keeps-then, Keeps-give, Keeps-fail, Keeps-block, Keeps-check, Keeps-attempt,
  Keeps-act, Keeps-update, Keeps-object, Keeps-if, Keeps-call, Keeps-wait, exclusive-after,
  Keeps-managed,
}
use vivado_server.Workflow.Closed.{unlocks, fails_finish, fails_cleanup, Closed}
use vivado_server.Workflow.Closed.Create.{handle-Keeps, end_workflow-Keeps}
use vivado_server.Workflow.Closed.Push.{locked-Keeps}

module _ {W : Type 0} (P : Manager → Type 0) (c : Closed P) (others : ℕ → Machine W → Machine W)
    (respect : (n : ℕ) (s : Machine W) → P s.manager → P (others n s).manager)
    (svc : Services W) where
  settle_finish-Keeps :
      (h : ℕ) (result : Result (Unit {0})) → Keeps P (settle_finish others svc h result)
  unfolding settle_finish is_terminal
  settle_finish-Keeps h (err e) =
      Keeps-then P (Keeps-update P h _ (λ m. c.writes h _ m (fails_finish e))) (Keeps-fail P e)
  settle_finish-Keeps h (ok u) =
      Keeps-bind P (end_workflow-Keeps P c svc h WorkflowStatus.completed none false refl) λ ended.
        Keeps-bind P (Keeps-object P h) λ w. Keeps-if P ended (Keeps-give P w.info) (Keeps-fail P _)

  finish_locked-Keeps : (h : ℕ) → Keeps P (finish_locked others svc h)
  unfolding finish_locked
  finish_locked-Keeps h = Keeps-bind P (Keeps-object P h) λ w. Keeps-then P (Keeps-check P _) (
      Keeps-bind P (Keeps-attempt P (Keeps-call P others respect 2 (svc.abort_open w.project)))
        (settle_finish-Keeps h))

  try_exclusive-Keeps :
      {A : Type 0} (b : Bool) (h : ℕ) {body : M W A}
      → Keeps P body
      → (s : Machine W) → can_lock (get_elem? s.manager.objects h) ≡ b
      → P s.manager
      → P (try_exclusive b h body s).1.manager
  unfolding try_exclusive
  try_exclusive-Keeps true h k s free p =
      exclusive-after P c.acquires (λ h m. c.writes h _ m unlocks) h k s free p
  try_exclusive-Keeps false h k s free p = (Keeps-fail P _).after s p

  try_locked-Keeps :
      {A : Type 0} (h : ℕ) {body : M W A} → Keeps P body → Keeps P (try_locked h body)
  unfolding try_locked
  try_locked-Keeps h k = record { after = λ s p. try_exclusive-Keeps _ h k s refl p }

  pub finish-Keeps : (id : ℕ) → Keeps P (finish others svc id)
  unfolding finish
  finish-Keeps id = Keeps-managed P others respect _ (
      Keeps-bind P (handle-Keeps P c id) λ h. Keeps-bind P (Keeps-object P h) λ w.
        Keeps-if P (same_status w.status WorkflowStatus.completed) (Keeps-give P w.info)
          (try_locked-Keeps h (finish_locked-Keeps h)))

  pub cancel-Keeps : (id : ℕ) → Keeps P (cancel others svc id)
  unfolding cancel
  cancel-Keeps id = Keeps-managed P others respect _ (
      Keeps-bind P (handle-Keeps P c id) λ h.
        Keeps-then P (Keeps-act P _ (c.stops h _ _ _ false))
          (Keeps-bind P (Keeps-object P h) λ w. Keeps-give P w.info))

  degraded-Keeps : Keeps P (degraded others svc)
  unfolding degraded
  degraded-Keeps = record {
    after = λ s p. (Keeps-give P (svc.sessions_degraded s.world)).after s p;
  }

  stop_process-Keeps : (w : Workflow) → Keeps P (stop_process others svc w)
  unfolding stop_process confirm_stopped confirm_idle
  stop_process-Keeps w = process w.session_id
    where
      process :
          (session : Option ℕ)
          → Keeps P (elim session [
            | some session_id ↦
                (call others 1 (svc.stop_session session_id w.stop_reason) >>= λ session.
                confirm_stopped others svc (Model.is_terminal session.status))
            | none ↦ (degraded others svc >>= confirm_idle others svc)
          ])
      process (some session_id) =
          Keeps-bind P (Keeps-call P others respect 1 (svc.stop_session session_id w.stop_reason))
            λ session.
              Keeps-if P (Model.is_terminal session.status) (Keeps-give P tt) (Keeps-fail P _)
      process none =
          Keeps-bind P degraded-Keeps λ unsure. Keeps-if P unsure (Keeps-fail P _) (Keeps-give P tt)

  release_services-Keeps : (w : Workflow) → Keeps P (release_services others svc w)
  unfolding release_services
  release_services-Keeps w = Keeps-then P (stop_process-Keeps w) (
      Keeps-then P
        (Keeps-if P w.invalidate_project (Keeps-call P others respect 2 (svc.mark_dirty w.project))
          (Keeps-give P tt))
        (Keeps-then P (Keeps-call P others respect 3 (svc.abort_open w.project))
          (Keeps-call P others respect 4 (svc.is_clean w.project))))

  -- The target is read and used in one section, and is an end.
  aimed_end-Keeps :
      (h : ℕ) (f : Workflow → Bool) (full : Bool)
      → Keeps P (
          object h >>= λ v.
          if f v
          then give false
          else (end_workflow svc h v.cleanup_target v.terminal_error full >>= λ ended.
              if ended then give true else (wait others 5 >> give false)))
  unfolding ◌>>=◌ object next fetched
  aimed_end-Keeps h f full = record {
    after = λ s p. elim (Option-cases (get_elem? s.manager.objects h)) [
      | inl gone ↦ rw gone p
      | inr (v, at) ↦ rw at (
          (Keeps-if P (f v) (Keeps-give P false) (
              Keeps-bind P
                (end_workflow-Keeps P c svc h v.cleanup_target v.terminal_error full
                  (c.aimed h s.manager v p at))
                (λ ended.
                  Keeps-if P ended (Keeps-give P true)
                    (Keeps-then P (Keeps-wait P others respect 5) (Keeps-give P false))))).after
            s p)
    ];
  }

  settle_round-Keeps :
      (h : ℕ) (w : Workflow) (result : Result Bool) → Keeps P (settle_round others svc h w result)
  unfolding settle_round
  settle_round-Keeps h w (err e) =
      Keeps-then P (Keeps-update P h _ (λ m. c.writes h _ m (fails_cleanup e)))
        (Keeps-then P (Keeps-wait P others respect 5) (Keeps-give P false))
  settle_round-Keeps h w (ok clean) =
      aimed_end-Keeps h (λ v. v.invalidate_project && not w.invalidate_project) (not clean)

  cleanup_round-Keeps : (h : ℕ) → Keeps P (cleanup_round others svc h)
  unfolding cleanup_round
  cleanup_round-Keeps h = Keeps-bind P (Keeps-object P h) λ w.
      Keeps-if P (is_terminal w.status) (Keeps-give P true)
        (Keeps-bind P (Keeps-attempt P (release_services-Keeps w)) (settle_round-Keeps h w))

  cleanup_rounds-Keeps : (rounds h : ℕ) → Keeps P (cleanup_rounds others svc rounds h)
  unfolding cleanup_rounds
  cleanup_rounds-Keeps zero h = Keeps-block P
  cleanup_rounds-Keeps (suc rounds) h =
      Keeps-bind P (cleanup_round-Keeps h)
        λ ended. Keeps-if P ended (Keeps-give P tt) (cleanup_rounds-Keeps rounds h)

  pub cleanup_workflow-Keeps : (rounds h : ℕ) → Keeps P (cleanup_workflow others svc rounds h)
  unfolding cleanup_workflow
  cleanup_workflow-Keeps rounds h =
      locked-Keeps P c others respect svc 0 h (cleanup_rounds-Keeps rounds h)
