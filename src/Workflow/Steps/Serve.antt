-- ===== src/Workflow/Steps/Serve.antt =====
-- src/workflow.rs: every handler, the observer and the cleanup worker take steps of the relation
-- only, if the other tasks do while they wait.
use vivado_server.Base.{ℕ, Bool, List, Str}
use vivado_server.Error.{Result}
use vivado_server.Sync.Model.{PushPlanRequest}
use vivado_server.Workflow.Model.{WorkflowStatus, CreateWorkflowRequest, Workflow}
use vivado_server.Workflow.Registry.{Manager}
use vivado_server.Workflow.Machine.{Machine, Call}
use vivado_server.Workflow.Services.{Services}
use vivado_server.Workflow.Handlers.Create.{create}
use vivado_server.Workflow.Handlers.Push.{push_plan, commit, abort_sync}
use vivado_server.Workflow.Handlers.Sessions.{start_session, observe_session, stop_session}
use vivado_server.Workflow.Handlers.Transfers.{transfer}
use vivado_server.Workflow.Handlers.Ending.{finish, cancel, cleanup_workflow}
use vivado_server.Workflow.Closed.{Closed, IsHeld}
use vivado_server.Workflow.Closed.Create.{create-Keeps}
use vivado_server.Workflow.Closed.Push.{push_plan-Keeps, commit-Keeps, abort_sync-Keeps}
use vivado_server.Workflow.Closed.Start.{start_session-Keeps}
use vivado_server.Workflow.Closed.Sessions.{observe_session-Keeps, stop_session-Keeps}
use vivado_server.Workflow.Closed.Transfers.{transfer-Keeps}
use vivado_server.Workflow.Closed.Ending.{finish-Keeps, cancel-Keeps, cleanup_workflow-Keeps}
use vivado_server.Workflow.Slot.{Inv}
use vivado_server.Workflow.Steps.{
  reserving, ending, requesting, entering, locking, writing, starting, Steps, none_yet, step,
  Steps-trans,
}
use vivado_server.Workflow.Steps.Invariant.{Steps-Inv}

pub Steps-Closed : (m₀ : Manager) → Inv m₀ → Closed (Steps m₀)
Steps-Closed m₀ v = record {
  reserves = λ id request m s. step s (reserving id request m);
  ends = λ h status error full m final s. step s (ending h status error full m final);
  stops = λ h reason target error invalidate m s.
      step s (requesting h reason target error invalidate m);
  enters = λ h allowed m w at free s. step s (entering h allowed m w at free);
  acquires = λ h m w at free s. step s (locking h m w at free);
  writes = λ h f m plain s. step s (writing h f m plain);
  starts = λ h session_id m w at early s. step s (starting h session_id m w at early);
  aimed = λ h m w s at. (Steps-inv s).aimed h w at;
}
  where
    Steps-inv : {m : Manager} → Steps m₀ m → Inv m
    Steps-inv s = Steps-Inv s v

-- A task of the manager that is made of several sections: a request, or work in the background.
pub data Task (W : Type 0) : Type 1 where
  creating : (id : ℕ) (request : CreateWorkflowRequest) → Task W
  planning : (ttl id : ℕ) (request : PushPlanRequest) → Task W
  committing : (id sync_id : ℕ) → Task W
  aborting : (id sync_id : ℕ) → Task W
  launching : (id : ℕ) (args : List Str) → Task W
  observing : (polls h session_id : ℕ) → Task W
  halting : (id : ℕ) → Task W
  transferring :
      {A : Type 0} (cut_first cut : Bool) (allowed : List WorkflowStatus)
      (permitted : Workflow → Result (Unit {0})) (id : ℕ) (f : Str → Call W A)
      → Task W
  finishing : (id : ℕ) → Task W
  cancelling : (id : ℕ) → Task W
  cleaning : (rounds h : ℕ) → Task W

-- What a task makes of the state.
unfoldable pub serve :
    {W : Type 0} → (ℕ → Machine W → Machine W) → Services W → Task W → Machine W → Machine W
serve others svc (creating id request) s = (create others svc id request s).1
serve others svc (planning ttl id request) s = (push_plan others svc ttl id request s).1
serve others svc (committing id sync_id) s = (commit others svc id sync_id s).1
serve others svc (aborting id sync_id) s = (abort_sync others svc id sync_id s).1
serve others svc (launching id args) s = (start_session others svc id args s).1
serve others svc (observing polls h session_id) s =
    (observe_session others svc polls h session_id s).1
serve others svc (halting id) s = (stop_session others svc id s).1
serve others svc (transferring cut_first cut allowed permitted id f) s =
    (transfer others cut_first cut allowed permitted id f s).1
serve others svc (finishing id) s = (finish others svc id s).1
serve others svc (cancelling id) s = (cancel others svc id s).1
serve others svc (cleaning rounds h) s = (cleanup_workflow others svc rounds h s).1

-- A task keeps what every section keeps, if the other tasks do while it waits.
pub serve-kept :
    {W : Type 0} (P : Manager → Type 0) (c : Closed P) (others : ℕ → Machine W → Machine W)
    (svc : Services W) (task : Task W) (s : Machine W)
    → ((n : ℕ) (t : Machine W) → P t.manager → P (others n t).manager)
    → ((h n : ℕ) (t : Machine W) → IsHeld h t.manager → IsHeld h (others n t).manager)
    → P s.manager
    → P (serve others svc task s).manager
unfolding serve
serve-kept {W} P c others svc task s respect hold p = run task
  where
    run : (task : Task W) → P (serve others svc task s).manager
    run (creating id request) = (create-Keeps P c others respect svc id request).after s p
    run (planning ttl id request) =
        (push_plan-Keeps P c others respect svc ttl id request).after s p
    run (committing id sync_id) = (commit-Keeps P c others respect svc id sync_id).after s p
    run (aborting id sync_id) = (abort_sync-Keeps P c others respect svc id sync_id).after s p
    run (launching id args) = (start_session-Keeps P c others respect svc hold id args).after s p
    run (observing polls h session_id) =
        (observe_session-Keeps P c others respect svc polls h session_id).after s p
    run (halting id) = (stop_session-Keeps P c others respect svc id).after s p
    run (transferring cut_first cut allowed permitted id f) =
        (transfer-Keeps P c others respect cut_first cut allowed permitted id f).after s p
    run (finishing id) = (finish-Keeps P c others respect svc id).after s p
    run (cancelling id) = (cancel-Keeps P c others respect svc id).after s p
    run (cleaning rounds h) = (cleanup_workflow-Keeps P c others respect svc rounds h).after s p

-- Whatever the services answer, a task changes the manager by steps of the relation only. During
-- its waits, the other tasks take steps too, and leave a workflow alone whose lock is held: it
-- stays locked, and before its session or on the way out.
pub serve-Steps :
    {W : Type 0} (others : ℕ → Machine W → Machine W) (svc : Services W) (task : Task W)
    (s : Machine W)
    → ((n : ℕ) (t : Machine W) → Steps t.manager (others n t).manager)
    → ((h n : ℕ) (t : Machine W) → IsHeld h t.manager → IsHeld h (others n t).manager)
    → Inv s.manager
    → Steps s.manager (serve others svc task s).manager
serve-Steps others svc task s moves hold v =
    serve-kept (Steps s.manager) (Steps-Closed s.manager v) others svc task s
      (λ n t before. Steps-trans before (moves n t)) hold none_yet
