-- ===== src/Workflow/Steps.antt =====
-- src/workflow.rs: the atomic steps of the manager as a relation. Every handler, the reaper and
-- the cleanup worker are made of these, which the children show.
pub mod Invariant
pub mod Order
pub mod Effect
pub mod Exclusion
pub mod Tidy
pub mod Workers
pub mod Advance
pub mod Serve
use vivado_server.Base.{false, ℕ, ◌≤◌, Bool, true, ◌≡◌, Option, List}
use vivado_server.Error.{AppError}
use vivado_server.Session.Model.{TerminationReason}
use vivado_server.Workflow.Model.{WorkflowStatus, is_terminal, CreateWorkflowRequest, Workflow}
use vivado_server.Workflow.Registry.{Manager, modify, reserve, heartbeat}
use vivado_server.Workflow.Cleanup.{request_cleanup, terminal, expire_active, close_admission}
use vivado_server.Workflow.Prune.{prune}
use vivado_server.Workflow.Sections.{is_free, lock, note_session}
use vivado_server.Workflow.Handlers.Transfers.{enter_at}
use vivado_server.Workflow.Closed.{IsPlain, is_starting}
use vivado_server.Workflow.Slot.{At}

pub data Step : Manager → Manager → Type 0 where
  reserving :
      (id : ℕ) (request : CreateWorkflowRequest) (m : Manager) → Step m (reserve id request m).1
  ending :
      (h : ℕ) (status : WorkflowStatus) (error : Option AppError) (full : Bool) (m : Manager)
      → is_terminal status ≡ true
      → Step m (terminal h status error full m).1
  requesting :
      (h : ℕ) (reason : TerminationReason) (target : WorkflowStatus) (error : Option AppError)
      (invalidate : Bool) (m : Manager)
      → Step m (request_cleanup h reason target error invalidate m)
  entering :
      (h : ℕ) (allowed : List WorkflowStatus) (m : Manager) (w : Workflow)
      → At m h w
      → w.writing ≡ false
      → Step m (enter_at h allowed m).1
  locking :
      (h : ℕ) (m : Manager) (w : Workflow) → At m h w → is_free w ≡ true → Step m (modify h lock m)
  writing : (h : ℕ) (f : Workflow → Workflow) (m : Manager) → IsPlain f → Step m (modify h f m)
  starting :
      (h session_id : ℕ) (m : Manager) (w : Workflow)
      → At m h w
      → is_starting w.status ≡ true
      → Step m (modify h (note_session session_id) m)
  beating : (id : ℕ) (m : Manager) → Step m (heartbeat id m).1
  expiring : (timeout : ℕ) (m : Manager) → Step m (expire_active timeout m)
  pruning : (retention most : ℕ) (m : Manager) → Step m (prune retention most m)
  closing : (m : Manager) → Step m (close_admission m)
  ticking :
      (now wall : ℕ) (m : Manager) → m.now ≤ now → Step m (record m { now = now; wall = wall })

-- Any number of steps.
pub data Steps (m : Manager) : Manager → Type 0 where
  none_yet : Steps m m
  step : {m' m'' : Manager} → Steps m m' → Step m' m'' → Steps m m''

pub Steps-trans : {m m' m'' : Manager} → Steps m m' → Steps m' m'' → Steps m m''
Steps-trans s none_yet = s
Steps-trans s (step t x) = step (Steps-trans s t) x

-- What every step keeps, any number of steps keep.
pub Steps-kept {ℓ} :
    (P : Manager → Type ℓ)
    → ((m m' : Manager) → Step m m' → P m → P m')
    → {m m' : Manager} → Steps m m'
    → P m
    → P m'
Steps-kept P k none_yet p = p
Steps-kept P k (step {m'} {m''} s x) p = k m' m'' x (Steps-kept P k s p)
