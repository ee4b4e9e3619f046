-- ===== src/Workflow/Model.antt =====
-- src/workflow.rs: the types of a workflow. Metrics, spans and phase timers are left out. The code
-- and the message of an error are both read off the error itself, which is kept instead.
use vivado_server.Base.{ℕ, ◌≡◌, refl, arith, Str, Bool, true, false, Option, none, List, [], any}
use vivado_server.Error.{AppError}
use vivado_server.Session.Model.{TerminationReason, workflow_closed}

pub data WorkflowStatus : Type 0 where
  preparing running pulling stopping completed cancelled failed : WorkflowStatus

unfoldable pub is_terminal : WorkflowStatus → Bool
is_terminal completed = true
is_terminal cancelled = true
is_terminal failed = true
is_terminal preparing = false
is_terminal running = false
is_terminal pulling = false
is_terminal stopping = false

-- The derived `PartialEq`.
unfoldable pub same_status : WorkflowStatus → WorkflowStatus → Bool
same_status preparing preparing = true
same_status running running = true
same_status pulling pulling = true
same_status stopping stopping = true
same_status completed completed = true
same_status cancelled cancelled = true
same_status failed failed = true
same_status _ _ = false

unfoldable pub contains : List WorkflowStatus → WorkflowStatus → Bool
unfolding same_status
contains allowed s = any (λ a. same_status a s) allowed

pub record CreateWorkflowRequest : Type 0 where
  pub project : Str
  pub reset_project : Bool

-- `error` is the source of `error_code` and `error_message`.
pub record WorkflowInfo : Type 0 where
  pub workflow_id : ℕ
  pub project : Str
  pub status : WorkflowStatus
  pub session_id : Option ℕ
  pub requires_full_upload : Bool
  pub cleanup_pending : Bool
  pub started_at : ℕ
  pub last_heartbeat_at : ℕ
  pub ended_at : Option ℕ
  pub error : Option AppError

pub record WorkflowData : Type 0 where
  pub info : WorkflowInfo
  pub open info use *
  pub request : CreateWorkflowRequest
  pub heartbeat : ℕ
  pub ended : Option ℕ
  pub open_sync : Option ℕ
  pub open_sync_deadline : Option ℕ
  pub sync_ids : List ℕ
  pub baseline_clean : Bool
  pub transfers : ℕ
  pub initializing : Bool
  pub initialization_error : Option AppError
  pub cleanup_started : Bool
  pub cleanup_target : WorkflowStatus
  pub terminal_error : Option AppError
  pub stop_reason : TerminationReason
  pub invalidate_project : Bool

-- `writing` says whether the write half of the activity lock is held. The read halves are the
-- transfer leases, which `transfers` counts.
pub record Workflow : Type 0 where
  pub state : WorkflowData
  pub open state use *
  pub writing : Bool
  pub cancelled : Bool

-- The value that `create` builds.
unfoldable pub fresh : ℕ → CreateWorkflowRequest → ℕ → ℕ → Workflow
fresh id request now wall = record {
  state = record {
    info = record {
      workflow_id = id;
      project = request.project;
      status = preparing;
      session_id = none;
      requires_full_upload = true;
      cleanup_pending = false;
      started_at = wall;
      last_heartbeat_at = wall;
      ended_at = none;
      error = none;
    };
    request = request;
    heartbeat = now;
    ended = none;
    open_sync = none;
    open_sync_deadline = none;
    sync_ids = [];
    baseline_clean = false;
    transfers = 0;
    initializing = true;
    initialization_error = none;
    cleanup_started = false;
    cleanup_target = WorkflowStatus.cancelled;
    terminal_error = none;
    stop_reason = workflow_closed;
    invalidate_project = false;
  };
  writing = true;
  cancelled = false;
}

pub same_status_eq : (a b : WorkflowStatus) → same_status a b ≡ true → a ≡ b
unfolding same_status
same_status_eq preparing b h = ground arith
same_status_eq running b h = ground arith
same_status_eq pulling b h = ground arith
same_status_eq stopping b h = ground arith
same_status_eq completed b h = ground arith
same_status_eq cancelled b h = ground arith
same_status_eq failed b h = ground arith

pub same_status_self : (a : WorkflowStatus) → same_status a a ≡ true
unfolding same_status
same_status_self preparing = refl
same_status_self running = refl
same_status_self pulling = refl
same_status_self stopping = refl
same_status_self completed = refl
same_status_self cancelled = refl
same_status_self failed = refl
