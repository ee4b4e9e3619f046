-- ===== src/Workflow/Handlers.antt =====
-- src/workflow.rs: the handlers, in the order of the source within each group. `others n` is what
-- the other tasks do during a handler's n-th wait.
pub mod Create
pub mod Push
pub mod Sessions
pub mod Transfers
pub mod Ending
use vivado_server.Base.{ℕ, if◌then◌else◌, Bool, true, false, ◌&&◌, not, Option, none, some}
use vivado_server.Base.Maps.{get_elem?}
use vivado_server.Error.{AppError}
use vivado_server.Session.Model.{workflow_closed}
use vivado_server.Workflow.Model.{WorkflowStatus, is_terminal, Workflow}
use vivado_server.Workflow.Registry.{Manager, find}
use vivado_server.Workflow.Cleanup.{request_cleanup, terminal}
use vivado_server.Workflow.Machine.{Machine, Outcome, done, M, section, act}
use vivado_server.Workflow.Services.{Services}

unfoldable pub handle : {W : Type 0} → ℕ → M W ℕ
handle id = section (λ m. (find id m, m))

unfoldable pub fail : {W : Type 0} → ℕ → AppError → Bool → M W (Unit {0})
fail h e invalidate =
    act (request_cleanup h workflow_closed WorkflowStatus.failed (some e) invalidate)

-- The session that `terminal` releases: that of a workflow which it ends now.
unfoldable pub released : Option Workflow → Bool → Option ℕ
released none ended = none
released (some w) ended = if ended && not (is_terminal w.status) then w.session_id else none

unfoldable pub end_workflow :
    {W : Type 0} → Services W → ℕ → WorkflowStatus → Option AppError → Bool → M W Bool
end_workflow {W} svc h status error full s =
    let (ended, m) = terminal h status error full s.manager in
    let world : W = elim (released (get_elem? s.manager.objects h) ended) [
      | none ↦ s.world
      | some session_id ↦ svc.release_session session_id s.world
    ] in
    (done ended, record { manager = m; world = world })
