-- ===== src/Workflow/Services.antt =====
-- What the workflow manager calls: the session manager, the sync manager and the project store.
-- `W` is their state.
use vivado_server.Base.{ℕ, Str, String, Bool, List}
use vivado_server.Error.{Result}
use vivado_server.Session.Model.{SessionInfo, TerminationReason}
use vivado_server.Sync.Model.{
  PushPlanRequest, PushPlanResponse, CommitSyncResponse, SyncStatusResponse,
}
use vivado_server.Workflow.Machine.{Call}

pub record Services (W : Type 0) : Type 0 where
  -- The history's record of a request; it fails if the request must be recorded and cannot be.
  pub requested : String → Call W (Unit {0})
  -- `ProjectStore`
  pub project_path : Str → Call W (Unit {0})
  pub is_clean : Str → Call W Bool
  pub mark_clean : Str → Call W (Unit {0})
  pub mark_dirty : Str → Call W (Unit {0})
  -- `SyncManager`; the flag says that the plan replaces the whole project.
  pub push_plan : Bool → Str → PushPlanRequest → Call W PushPlanResponse
  pub status : Str → ℕ → Call W SyncStatusResponse
  pub commit : Str → ℕ → Call W CommitSyncResponse
  pub abort : Str → ℕ → Call W (Unit {0})
  pub abort_open : Str → Call W (Unit {0})
  -- `SessionManager`, and the check of the arguments for Vivado.
  pub validate_vivado_args : List Str → Result (Unit {0})
  pub create_session : Str → List Str → ℕ → Call W SessionInfo
  pub get_session : ℕ → Call W SessionInfo
  pub stop_session : ℕ → TerminationReason → Call W SessionInfo
  pub sessions_degraded : W → Bool
  pub release_session : ℕ → W → W
