-- ===== src/Workflow/Closed/Create.antt =====
-- src/workflow.rs: `create` keeps what its steps keep.
use vivado_server.Base.{ℕ, Bool, true, false, Option, none, some, ◌≡◌, refl}
use vivado_server.Error.{AppError, Result, ok, err}
use vivado_server.Workflow.Model.{WorkflowStatus, is_terminal, CreateWorkflowRequest, Workflow}
use vivado_server.Workflow.Registry.{Manager, Reservation, seen, claimed}
use vivado_server.Workflow.Machine.{Machine, give, fail_with}
use vivado_server.Workflow.Services.{Services}
use vivado_server.Workflow.Handlers.{handle, fail, end_workflow}
use vivado_server.Workflow.Handlers.Create.{
  initialized, wait_initialized, inspect, give_up, set_up, observe_or_set_up, create,
}
use vivado_server.Workflow.Keeps.{
  Keeps, Keeps-bind, Keeps-then, Keeps-give, Keeps-fail, Keeps-block, Keeps-check, Keeps-attempt,
  Keeps-section, Keeps-act, Keeps-update, Keeps-object, Keeps-if, Keeps-wait, Keeps-call,
  Keeps-managed,
}
use vivado_server.Workflow.Closed.{initializes, unlocks, Closed}

module _ {W : Type 0} (P : Manager → Type 0) (c : Closed P) where
  pub end_workflow-Keeps :
      (svc : Services W) (h : ℕ) (status : WorkflowStatus) (error : Option AppError) (full : Bool)
      → is_terminal status ≡ true
      → Keeps P (end_workflow svc h status error full)
  unfolding end_workflow
  end_workflow-Keeps svc h status error full final = record {
    after = λ s p. c.ends h status error full s.manager final p;
  }

  pub handle-Keeps : (id : ℕ) → Keeps P (handle {W = W} id)
  unfolding handle
  handle-Keeps id = Keeps-section P _ (λ m p. p)

  pub fail-Keeps :
      (h : ℕ) (e : AppError) (invalidate : Bool) → Keeps P (fail {W = W} h e invalidate)
  unfolding fail
  fail-Keeps h e invalidate = Keeps-act P _ (c.stops h _ _ _ invalidate)

  module _ (others : ℕ → Machine W → Machine W)
      (respect : (n : ℕ) (s : Machine W) → P s.manager → P (others n s).manager)
      (svc : Services W) where
    initialized-Keeps : (w : Workflow) → Keeps P (initialized {W = W} w)
    unfolding initialized
    initialized-Keeps w =
        Keeps-if P w.initializing (Keeps-block P) (answered w.initialization_error)
      where
        answered :
            (e : Option AppError)
            → Keeps P (elim e [ some e ↦ fail_with e | none ↦ give {W = W} w.info ])
        answered none = Keeps-give P w.info
        answered (some e) = Keeps-fail P e

    wait_initialized-Keeps : (h : ℕ) → Keeps P (wait_initialized others svc h)
    unfolding wait_initialized
    wait_initialized-Keeps h =
        Keeps-then P (Keeps-wait P others respect 2)
          (Keeps-bind P (Keeps-object P h) initialized-Keeps)

    inspect-Keeps : (request : CreateWorkflowRequest) → Keeps P (inspect others svc request)
    unfolding inspect
    inspect-Keeps request = Keeps-then P (Keeps-call P others respect 2 _) (
        Keeps-bind P (Keeps-call P others respect 3 _)
          (λ clean. Keeps-if P _ (Keeps-fail P _) (Keeps-give P clean)))

    give_up-Keeps : (h : ℕ) (result : Result Bool) → Keeps P (give_up others svc h result)
    unfolding give_up is_terminal
    give_up-Keeps h (ok clean) = Keeps-give P false
    give_up-Keeps h (err e) = end_workflow-Keeps svc h WorkflowStatus.failed (some e) true refl

    set_up-Keeps : (request : CreateWorkflowRequest) (h : ℕ) → Keeps P (set_up others svc request h)
    unfolding set_up
    set_up-Keeps request h = Keeps-bind P (Keeps-attempt P (inspect-Keeps request)) λ result.
        Keeps-then P
          (Keeps-update P h _ (λ m. c.writes h _ m (initializes request.reset_project result)))
          (Keeps-bind P (give_up-Keeps h result) λ ended. Keeps-bind P (Keeps-object P h) λ w.
            Keeps-then P (Keeps-update P h _ (λ m. c.writes h _ m unlocks))
              (Keeps-bind P (Keeps-check P result) (λ clean. Keeps-give P w.info)))

    pub create-Keeps :
        (id : ℕ) (request : CreateWorkflowRequest) → Keeps P (create others svc id request)
    unfolding create observe_or_set_up
    create-Keeps id request = Keeps-then P (Keeps-check P _) (
        Keeps-managed P others respect _
          (Keeps-bind P (Keeps-section P _ (c.reserves id request)) reserved))
      where
        reserved : (r : Reservation) → Keeps P (observe_or_set_up others svc request r)
        reserved (seen h) = wait_initialized-Keeps h
        reserved (claimed h) = set_up-Keeps request h
