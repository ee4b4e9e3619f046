-- ===== src/Workflow/Handlers/Create.antt =====
-- src/workflow.rs: `create` and what it waits for.
use vivado_server.Base.{ℕ, if◌then◌else◌, Bool, true, false, ◌&&◌, not, none, some}
use vivado_server.Error.{Result, ok, err, project_reupload_required, about}
use vivado_server.Workspace.{validate_project_name}
use vivado_server.Workflow.Model.{WorkflowStatus, CreateWorkflowRequest, WorkflowInfo, Workflow}
use vivado_server.Workflow.Registry.{Reservation, seen, claimed, reserve, initialize}
use vivado_server.Workflow.Sections.{unlock}
use vivado_server.Workflow.Machine.{
  Machine, M, ◌>>=◌, ◌>>◌, give, block, fail_with, check, attempt, section, object, update, wait,
  call, managed,
}
use vivado_server.Workflow.Services.{Services}
use vivado_server.Workflow.Handlers.{end_workflow}

-- What `wait_initialized` makes of the object that it finds.
unfoldable pub initialized : {W : Type 0} → Workflow → M W WorkflowInfo
initialized w =
    if w.initializing
    then block
    else elim w.initialization_error [ some e ↦ fail_with e | none ↦ give w.info ]

module _ {W : Type 0} (others : ℕ → Machine W → Machine W) (svc : Services W) where
  unfoldable pub wait_initialized : ℕ → M W WorkflowInfo
  wait_initialized h = do wait others 2; w ← object h; initialized w

  -- The state of the project, which decides whether the workflow may start.
  unfoldable pub inspect : CreateWorkflowRequest → M W Bool
  inspect request = do
    call others 2 (svc.project_path request.project)
    clean ← call others 3 (svc.is_clean request.project)
    if not clean && not request.reset_project
        then fail_with (project_reupload_required (about "" request.project))
        else give clean

  -- A reservation that cannot be initialised ends at once.
  unfoldable pub give_up : ℕ → Result Bool → M W Bool
  give_up h (ok clean) = give false
  give_up h (err e) = end_workflow svc h WorkflowStatus.failed (some e) true

  unfoldable pub set_up : CreateWorkflowRequest → ℕ → M W WorkflowInfo
  set_up request h = do
    result ← attempt (inspect request)
    update h (initialize request.reset_project result)
    ended ← give_up h result
    w ← object h
    update h unlock
    clean ← check result
    give w.info

  unfoldable pub observe_or_set_up : CreateWorkflowRequest → Reservation → M W WorkflowInfo
  observe_or_set_up request (seen h) = wait_initialized h
  observe_or_set_up request (claimed h) = set_up request h

  unfoldable pub create : ℕ → CreateWorkflowRequest → M W WorkflowInfo
  create id request = do
    check (validate_project_name request.project)
    managed others (svc.requested "workflow_create")
        (do reservation ← section (reserve id request); observe_or_set_up request reservation)
