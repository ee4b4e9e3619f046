-- ===== src/Workflow/Closed.antt =====
-- src/workflow.rs: properties of the manager that every step of a handler keeps. The children show
-- that then every handler keeps them, whatever the other tasks do that keep them too.
pub mod Create
pub mod Push
pub mod Start
pub mod Sessions
pub mod Transfers
pub mod Ending
use vivado_server.Base.{ℕ, Bool, true, false, ◌||◌, ◌≡◌, Option, none, some, List}
use vivado_server.Base.Maps.{get_elem?}
use vivado_server.Error.{AppError, Result, ok, err}
use vivado_server.Session.Model.{TerminationReason}
use vivado_server.Workflow.Model.{
  WorkflowStatus, is_terminal, same_status, CreateWorkflowRequest, Workflow,
}
use vivado_server.Workflow.Registry.{Manager, modify, reserve, initialize, leave}
use vivado_server.Workflow.Cleanup.{request_cleanup, terminal}
use vivado_server.Workflow.Sections.{
  is_free, lock, unlock, note_plan, close_plan, note_commit, note_session, note_exit,
  note_finish_failure, note_cleanup_failure,
}
use vivado_server.Workflow.Handlers.Transfers.{enter_at}
use vivado_server.Workflow.Slot.{At}

-- The writes to a workflow that neither end nor start it.
pub data IsPlain : (Workflow → Workflow) → Type 0 where
  unlocks : IsPlain unlock
  initializes : (reset : Bool) (result : Result Bool) → IsPlain (initialize reset result)
  plans : (sync_id deadline : ℕ) → IsPlain (note_plan sync_id deadline)
  closes_plan : IsPlain close_plan
  commits : IsPlain note_commit
  exits : IsPlain note_exit
  fails_finish : (e : AppError) → IsPlain (note_finish_failure e)
  fails_cleanup : (e : AppError) → IsPlain (note_cleanup_failure e)
  leaves : IsPlain leave

-- A workflow before its session, or on its way out.
unfoldable pub is_starting : WorkflowStatus → Bool
is_starting s = same_status s WorkflowStatus.preparing || same_status s WorkflowStatus.stopping

pub record Closed (P : Manager → Type 0) : Type 0 where
  pub reserves :
      (id : ℕ) (request : CreateWorkflowRequest) (m : Manager) → P m → P (reserve id request m).1
  pub ends :
      (h : ℕ) (status : WorkflowStatus) (error : Option AppError) (full : Bool) (m : Manager)
      → is_terminal status ≡ true
      → P m
      → P (terminal h status error full m).1
  pub stops :
      (h : ℕ) (reason : TerminationReason) (target : WorkflowStatus) (error : Option AppError)
      (invalidate : Bool) (m : Manager)
      → P m
      → P (request_cleanup h reason target error invalidate m)
  pub enters :
      (h : ℕ) (allowed : List WorkflowStatus) (m : Manager) (w : Workflow)
      → At m h w
      → w.writing ≡ false
      → P m
      → P (enter_at h allowed m).1
  pub acquires :
      (h : ℕ) (m : Manager) (w : Workflow) → At m h w → is_free w ≡ true → P m → P (modify h lock m)
  pub writes : (h : ℕ) (f : Workflow → Workflow) (m : Manager) → IsPlain f → P m → P (modify h f m)
  pub starts :
      (h session_id : ℕ) (m : Manager) (w : Workflow)
      → At m h w
      → is_starting w.status ≡ true
      → P m
      → P (modify h (note_session session_id) m)
  pub aimed :
      (h : ℕ) (m : Manager) (w : Workflow) → P m → At m h w → is_terminal w.cleanup_target ≡ true

-- The write lock of `h` is held, before the session or on the way out.
pub record IsHeld (h : ℕ) (m : Manager) : Type 0 where
  pub held : Workflow
  pub at : At m h held
  pub writing : held.writing ≡ true
  pub starting : is_starting held.status ≡ true
