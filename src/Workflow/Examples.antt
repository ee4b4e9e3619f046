-- ===== src/Workflow/Examples.antt =====
-- src/workflow.rs: the theorems on a small manager.
use vivado_server.Base.{ℕ, ◌+◌, ◌≡◌, refl, ◌∷◌, codes, Bool, true, false, none, some, [], arith}
use vivado_server.Base.Maps.{lookup, insert}
use vivado_server.Error.{ok}
use vivado_server.Session.Model.{SessionInfo, SessionStatus, workflow_closed}
use vivado_server.Sync.Model.{SyncSessionStatus}
use vivado_server.Workflow.Model.{
  WorkflowStatus, is_terminal, same_status, CreateWorkflowRequest, Workflow, fresh,
}
use vivado_server.Workflow.Registry.{Manager, new, reserve, claim, seen}
use vivado_server.Workflow.Cleanup.{request_cleanup, holds_slot, stop, enlist}
use vivado_server.Session.Model
use vivado_server.Workflow.Machine.{
  Machine, done, ◌>>◌, ◌>>=◌, next, section, of_result, wait, object, fetched, block,
}
use vivado_server.Workflow.Registry.{admit, find}
use vivado_server.Workflow.Handlers.{handle}
use vivado_server.Workflow.Handlers.Ending.{cleanup_workflow}
use vivado_server.Workflow.Worker.{undisturbed, cleanup_workflow-ends}
use vivado_server.Workflow.Closed.{unlocks}
use vivado_server.Workflow.Steps.{writing}
use vivado_server.Workflow.Registry.{modify, transition}
use vivado_server.Workflow.Sections.{unlock, is_free}
use vivado_server.Workflow.Handlers.Transfers.{acquire, transfer}
use vivado_server.Workflow.Services.{Services}
use vivado_server.Workflow.Slot.{At, Inv}
use vivado_server.Workflow.Steps.{Steps, none_yet, step, reserving, requesting, ticking}
use vivado_server.Workflow.Steps.Exclusion.{clashes}
use vivado_server.Workflow.Excludes.{serve-clashes}
use vivado_server.Workflow.Steps.Advance.{Advances, Steps-Advances}
use vivado_server.Workflow.Steps.Invariant.{Steps-Inv}
use vivado_server.Workflow.Steps.Serve.{creating, transferring, serve, serve-Steps}
use vivado_server.Workflow.Steps.Workers.{Tidy, Steps-Tidy}
use vivado_server.Workflow.Lifetime.{new-Inv, new-Tidy, one_unfinished, reserve-again}

abbrev a_request : CreateWorkflowRequest
a_request = record { project = codes "adder"; reset_project = true }

abbrev start : Manager
start = new 0 0

-- One workflow, with the ID 7.
abbrev reserved : Manager
reserved = (reserve 7 a_request start).1

abbrev stopped : Manager
stopped = request_cleanup 0 workflow_closed WorkflowStatus.cancelled none true reserved

abbrev to_reserved : Steps start reserved
to_reserved = step none_yet (reserving 7 a_request start)

abbrev to_stopped : Steps start stopped
to_stopped =
    step to_reserved (requesting 0 workflow_closed WorkflowStatus.cancelled none true reserved)

abbrev the_workflow : Workflow
the_workflow = fresh 7 a_request 0 0

reserved-Inv : Inv reserved
reserved-Inv = Steps-Inv to_reserved (new-Inv 0 0)

one_unfinished_example : ◌≡◌ {A = ℕ} 0 0
unfolding new reserve claim insert lookup fresh is_terminal
one_unfinished_example =
    one_unfinished 0 0 reserved 0 0 the_workflow the_workflow to_reserved refl refl refl refl

reserve-again_example :
    reserve 7 a_request (reserve 7 a_request start).1 ≡ (ok (seen 0), (reserve 7 a_request start).1)
unfolding new reserve claim insert lookup fresh
reserve-again_example = reserve-again 7 a_request start 0 refl

Steps-Inv_example : Inv stopped
Steps-Inv_example = Steps-Inv to_stopped (new-Inv 0 0)

Steps-Tidy_example : Tidy stopped
Steps-Tidy_example = Steps-Tidy to_stopped (new-Tidy 0 0)

Steps-Advances_example : Advances reserved stopped
Steps-Advances_example =
    Steps-Advances reserved stopped
      (step none_yet (requesting 0 workflow_closed WorkflowStatus.cancelled none true reserved))

abbrev a_session : SessionInfo
a_session = record {
  session_id = 1;
  project = codes "adder";
  status = SessionStatus.exited;
  started_at = 0;
  ended_at = some 1;
  exit_code = some 0;
  termination_reason = none;
  output_truncated = false;
  cleanup_error = none;
}

-- Services that always succeed.
abbrev willing : {W : Type 0} → Services W
willing = record {
  requested = λ name x. (ok tt, x);
  project_path = λ p x. (ok tt, x);
  is_clean = λ p x. (ok true, x);
  mark_clean = λ p x. (ok tt, x);
  mark_dirty = λ p x. (ok tt, x);
  push_plan = λ full p request x. (
    ok (record {
      sync_id = 5;
      upload_files = [];
      create_dirs = [];
      delete_files = [];
      delete_dirs = [];
      expires_at = 9;
    }),
    x,
  );
  status = λ p id x. (
    ok (record {
      sync_id = id;
      project = p;
      status = SyncSessionStatus.opened;
      cleanup_pending = false;
      result = none;
      error = none;
    }),
    x,
  );
  commit = λ p id x. (
    ok (record {
      sync_id = id;
      uploaded_files = [];
      created_dirs = [];
      deleted_files = [];
      deleted_dirs = [];
    }),
    x,
  );
  abort = λ p id x. (ok tt, x);
  abort_open = λ p x. (ok tt, x);
  validate_vivado_args = λ args. ok tt;
  create_session = λ p args id x. (ok a_session, x);
  get_session = λ id x. (ok a_session, x);
  stop_session = λ id reason x. (ok a_session, x);
  sessions_degraded = λ x. false;
  release_session = λ id x. x;
}

-- A project store with one marker: the project is clean.
abbrev marking : Services Bool
marking = record willing { is_clean = λ p x. (ok x, x); mark_dirty = λ p x. (ok tt, false) }

-- Time goes by.
abbrev later : ℕ → Machine (Unit {0}) → Machine (Unit {0})
later n t = record t { manager = record (t.manager) { now = t.manager.now + 1 } }

serve-Steps_example :
    Steps start
      (serve later willing (creating 7 a_request) (record { manager = start; world = tt })).manager
serve-Steps_example =
    serve-Steps later willing (creating 7 a_request) (record { manager = start; world = tt })
      (λ n t. step none_yet (ticking (t.manager.now + 1) t.manager.wall t.manager (omega arith)))
      (λ h n t k. record { held = k.held; at = k.at; writing = k.writing; starting = k.starting })
      (new-Inv 0 0)

-- A cancelled workflow whose project is invalidated, and whose lock is free.
abbrev waiting : Manager
waiting = modify 0 unlock stopped

abbrev the_waiting : Workflow
the_waiting = unlock (enlist workflow_closed (stop WorkflowStatus.cancelled none true the_workflow))

abbrev waiting_machine : Machine Bool
waiting_machine = record { manager = waiting; world = true }

cleanup_workflow-ends_example :
    let r = cleanup_workflow undisturbed marking 1 0 waiting_machine in
    (r.0 ≡ done tt)
    × ((w' : Workflow) × At r.1.manager 0 w' × (w'.status ≡ the_waiting.cleanup_target))
    × (r.1.manager.active ≡ none)
unfolding new reserve claim insert lookup fresh is_terminal request_cleanup holds_slot stop enlist
    modify unlock is_free same_status Model.is_terminal transition
cleanup_workflow-ends_example =
    cleanup_workflow-ends marking the_waiting (λ id reason x. (a_session, x, refl, refl))
      (λ x. refl) (λ x. x ≡ false) (λ x. (false, refl, refl)) (λ x. (x, refl, λ dirty. dirty))
      (λ x. (x, x, refl, λ dirty. dirty)) 0 0 waiting_machine
      (Steps-Inv (step to_stopped (writing 0 unlock stopped unlocks)) (new-Inv 0 0)) refl refl refl
      refl

-- A transfer that has to wait, since the project is being prepared.
serve-clashes_example : clashes the_workflow ≡ false
unfolding new reserve claim insert lookup fresh serve transfer acquire ◌>>◌ ◌>>=◌ next section
    of_result admit handle find wait object fetched block
serve-clashes_example =
    serve-clashes undisturbed willing
      (transferring false false (WorkflowStatus.preparing ∷ []) (λ w. ok tt) 7 (λ p x. (ok tt, x)))
      0 0 (record { manager = reserved; world = tt }) 0 the_workflow (λ n t quiet. none_yet)
      (λ h n t k. k) to_reserved refl
