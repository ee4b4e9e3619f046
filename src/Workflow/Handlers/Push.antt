-- ===== src/Workflow/Handlers/Push.antt =====
-- src/workflow.rs: the handlers of the push phase.
use vivado_server.Base.{
  ℕ, ◌+◌, leb, ◌==◌, if◌then◌else◌, Bool, true, false, ◌||◌, ◌&&◌, not, Option, none, some, [], ◌∷◌,
}
use vivado_server.Error.{
  AppError, Result, ok, err, not_found, conflict, project_reupload_required, text,
}
use vivado_server.Sync.Model.{
  PushPlanRequest, PushPlanResponse, CommitSyncResponse, SyncSessionStatus, SyncStatusResponse,
}
use vivado_server.Workflow.Model.{WorkflowStatus, Workflow}
use vivado_server.Workflow.Registry.{modify, phase}
use vivado_server.Workflow.Sections.{note_plan, close_plan, check_sync, note_commit}
use vivado_server.Workflow.Machine.{
  Machine, M, ◌>>=◌, ◌>>◌, give, fail_with, check, attempt, act, object, update, call, locked,
  managed,
}
use vivado_server.Workflow.Services.{Services}
use vivado_server.Workflow.Handlers.{handle, fail}

unfoldable pub is_open : SyncSessionStatus → Bool
is_open SyncSessionStatus.opened = true
is_open _ = false

unfoldable pub is_settled : SyncSessionStatus → Bool
is_settled SyncSessionStatus.opened = false
is_settled SyncSessionStatus.committing = false
is_settled _ = true

unfoldable pub has_passed : ℕ → Option ℕ → Bool
has_passed now none = false
has_passed now (some deadline) = leb deadline now

unfoldable pub is_plan : ℕ → Option ℕ → Bool
is_plan sync_id none = false
is_plan sync_id (some current) = current == sync_id

unfoldable pub is_reupload : AppError → Bool
is_reupload (project_reupload_required m) = true
is_reupload _ = false

unfoldable pub is_not_found : AppError → Bool
is_not_found (not_found m) = true
is_not_found _ = false

unfoldable pub no_open_plan : Workflow → AppError → Result (Unit {0})
no_open_plan w e = elim w.open_sync [ none ↦ ok tt | some sync_id ↦ err e ]

-- Whether the project is as it was before a commit that failed: nothing was uploaded completely,
-- and it was clean; or the commit was rolled back to a clean project.
unfoldable pub may_restore : Bool → Bool → Bool → Bool → Bool
may_restore reupload still_open was_clean baseline_clean =
    not reupload && ((still_open && was_clean) || (not still_open && baseline_clean))

unfoldable pub still_open : Result SyncStatusResponse → Bool
still_open (ok status) = is_open status.status
still_open (err e) = false

module _ {W : Type 0} (others : ℕ → Machine W → Machine W) (svc : Services W) where
  -- Whether the plan that the workflow calls open is over; an expired one is aborted.
  unfoldable pub settle_plan : Workflow → ℕ → Bool → Result SyncStatusResponse → M W Bool
  settle_plan w sync_id expired (ok status) =
      if is_open status.status && expired
      then (call others 4 (svc.abort w.project sync_id) >> give true)
      else give (is_settled status.status)
  settle_plan w sync_id expired (err e) = if is_not_found e then give true else fail_with e

  unfoldable pub refresh_plan : ℕ → Workflow → Bool → ℕ → M W (Unit {0})
  refresh_plan h w expired sync_id = do
    status ← attempt (call others 3 (svc.status w.project sync_id))
    terminal ← settle_plan w sync_id expired status
    if terminal then update h close_plan else give tt

  unfoldable pub refresh_open_sync : ℕ → M W (Unit {0})
  refresh_open_sync h s =
      (do
        w ← object h
        let expired = has_passed s.manager.now w.open_sync_deadline
        elim w.open_sync [ none ↦ give tt | some sync_id ↦ refresh_plan h w expired sync_id ])
        s

  unfoldable pub plan_push : ℕ → ℕ → PushPlanRequest → M W PushPlanResponse
  plan_push ttl h request = do
    w ← object h
    check (phase (WorkflowStatus.preparing ∷ []) w)
    refresh_open_sync h
    w' ← object h
    check (no_open_plan w' (conflict (text "an upload plan is already open")))
    plan ← call others 5 (svc.push_plan w'.requires_full_upload w'.project request)
    act (λ m. modify h (note_plan plan.sync_id (m.now + ttl)) m)
    give plan

  unfoldable pub push_plan : ℕ → ℕ → PushPlanRequest → M W PushPlanResponse
  push_plan ttl id request =
      managed others (svc.requested "workflow_push_plan")
        (do h ← handle id; locked others 2 h (plan_push ttl h request))

  -- The marker of the project after a failed commit.
  unfoldable pub restore : Workflow → Bool → M W (Result (Unit {0}))
  restore w may = if may then attempt (call others 7 (svc.mark_clean w.project)) else give (ok tt)

  unfoldable pub settle_failure : ℕ → AppError → Bool → Result (Unit {0}) → M W CommitSyncResponse
  settle_failure h e retryable (err mark_error) = do fail h mark_error true; fail_with mark_error
  settle_failure h e true (ok u) = fail_with e
  settle_failure h e false (ok u) = do fail h e (is_reupload e); fail_with e

  unfoldable pub settle_commit :
      ℕ → Workflow → ℕ → Bool → Result CommitSyncResponse → M W CommitSyncResponse
  settle_commit h w sync_id was_clean (ok response) = do update h note_commit; give response
  settle_commit h w sync_id was_clean (err e) = do
    v ← object h
    status ← attempt (call others 6 (svc.status w.project sync_id))
    let retryable = still_open status
    marked ← restore w (may_restore (is_reupload e) retryable was_clean v.baseline_clean)
    settle_failure h e (retryable && not (is_reupload e)) marked

  -- The project is dirty from here until the commit has succeeded.
  unfoldable pub commit_marked :
      ℕ → Workflow → ℕ → Bool → Result (Unit {0}) → M W CommitSyncResponse
  commit_marked h w sync_id was_clean (err e) = do fail h e true; fail_with e
  commit_marked h w sync_id was_clean (ok u) = do
    result ← attempt (call others 5 (svc.commit w.project sync_id))
    settle_commit h w sync_id was_clean result

  unfoldable pub commit_open : ℕ → Workflow → ℕ → M W CommitSyncResponse
  commit_open h w sync_id = do
    was_clean ← call others 3 (svc.is_clean w.project)
    marked ← attempt (call others 4 (svc.mark_dirty w.project))
    commit_marked h w sync_id was_clean marked

  unfoldable pub commit_plan : ℕ → ℕ → M W CommitSyncResponse
  commit_plan h sync_id = do
    w ← object h
    check (phase (WorkflowStatus.preparing ∷ []) w)
    check (check_sync sync_id w)
    if is_plan sync_id w.open_sync
        then commit_open h w sync_id
        else call others 3 (svc.commit w.project sync_id)

  unfoldable pub commit : ℕ → ℕ → M W CommitSyncResponse
  commit id sync_id =
      managed others (svc.requested "workflow_commit")
        (do h ← handle id; locked others 2 h (commit_plan h sync_id))

  unfoldable pub abort_plan : ℕ → ℕ → M W (Unit {0})
  abort_plan h sync_id = do
    w ← object h
    check (phase (WorkflowStatus.preparing ∷ []) w)
    check (check_sync sync_id w)
    call others 3 (svc.abort w.project sync_id)
    v ← object h
    if is_plan sync_id v.open_sync then update h close_plan else give tt

  unfoldable pub abort_sync : ℕ → ℕ → M W (Unit {0})
  abort_sync id sync_id =
      managed others (svc.requested "workflow_abort_sync")
        (do h ← handle id; locked others 2 h (abort_plan h sync_id))
