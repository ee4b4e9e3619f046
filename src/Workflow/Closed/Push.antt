-- ===== src/Workflow/Closed/Push.antt =====
-- src/workflow.rs: the handlers of the push phase keep what their steps keep.
use vivado_server.Base.{ℕ, ◌+◌, Bool, true, false, ◌&&◌, Option, none, some}
use vivado_server.Error.{AppError, Result, ok, err}
use vivado_server.Sync.Model.{PushPlanRequest, CommitSyncResponse, SyncStatusResponse}
use vivado_server.Workflow.Model.{Workflow}
use vivado_server.Workflow.Registry.{Manager, modify}
use vivado_server.Workflow.Sections.{unlock, close_plan}
use vivado_server.Workflow.Machine.{Machine, M, give, locked}
use vivado_server.Workflow.Services.{Services}
use vivado_server.Workflow.Handlers.Push.{
  is_open, has_passed, is_plan, is_reupload, is_not_found, settle_plan, refresh_plan,
  refresh_open_sync, plan_push, push_plan, restore, settle_failure, settle_commit, commit_marked,
  commit_open, commit_plan, commit, abort_plan, abort_sync,
}
use vivado_server.Workflow.Keeps.{
  Keeps, Keeps-bind, Keeps-then, Keeps-give, Keeps-fail, Keeps-check, Keeps-attempt, Keeps-act,
  Keeps-update, Keeps-object, Keeps-if, Keeps-call, Keeps-locked, Keeps-managed,
}
use vivado_server.Workflow.Closed.{unlocks, plans, closes_plan, commits, Closed}
use vivado_server.Workflow.Closed.Create.{handle-Keeps, fail-Keeps}

module _ {W : Type 0} (P : Manager → Type 0) (others : ℕ → Machine W → Machine W)
    (respect : (n : ℕ) (s : Machine W) → P s.manager → P (others n s).manager) (svc : Services W)
    (h : ℕ) (closes : (m : Manager) → P m → P (modify h close_plan m)) where
  settle_plan-Keeps :
      (w : Workflow) (sync_id : ℕ) (expired : Bool) (status : Result SyncStatusResponse)
      → Keeps P (settle_plan others svc w sync_id expired status)
  unfolding settle_plan
  settle_plan-Keeps w sync_id expired (ok status) =
      Keeps-if P (is_open status.status && expired)
        (Keeps-then P (Keeps-call P others respect 4 (svc.abort w.project sync_id))
          (Keeps-give P true))
        (Keeps-give P _)
  settle_plan-Keeps w sync_id expired (err e) =
      Keeps-if P (is_not_found e) (Keeps-give P true) (Keeps-fail P e)

  refresh_plan-Keeps :
      (w : Workflow) (expired : Bool) (sync_id : ℕ)
      → Keeps P (refresh_plan others svc h w expired sync_id)
  unfolding refresh_plan
  refresh_plan-Keeps w expired sync_id =
      Keeps-bind P (Keeps-attempt P (Keeps-call P others respect 3 (svc.status w.project sync_id)))
        λ status.
          Keeps-bind P (settle_plan-Keeps w sync_id expired status)
            λ over. Keeps-if P over (Keeps-update P h _ closes) (Keeps-give P tt)

  pub refresh_open_sync-Keeps : Keeps P (refresh_open_sync others svc h)
  unfolding refresh_open_sync
  refresh_open_sync-Keeps = record {
    after = λ s p.
        (Keeps-bind P (Keeps-object P h)
            (λ w. found w (has_passed s.manager.now w.open_sync_deadline) w.open_sync)).after
          s p;
  }
    where
      found :
          (w : Workflow) (expired : Bool) (sync : Option ℕ)
          → Keeps P (elim sync [
            | none ↦ give {W = W} tt
            | some sync_id ↦ refresh_plan others svc h w expired sync_id
          ])
      found w expired none = Keeps-give P tt
      found w expired (some sync_id) = refresh_plan-Keeps w expired sync_id

module _ {W : Type 0} (P : Manager → Type 0) (c : Closed P) (others : ℕ → Machine W → Machine W)
    (respect : (n : ℕ) (s : Machine W) → P s.manager → P (others n s).manager)
    (svc : Services W) where
  plan_push-Keeps :
      (ttl h : ℕ) (request : PushPlanRequest) → Keeps P (plan_push others svc ttl h request)
  unfolding plan_push
  plan_push-Keeps ttl h request = Keeps-bind P (Keeps-object P h) λ w.
      Keeps-then P (Keeps-check P _) (
        Keeps-then P
          (refresh_open_sync-Keeps P others respect svc h
            (λ m. c.writes h close_plan m closes_plan))
          (Keeps-bind P (Keeps-object P h) λ w'. Keeps-then P (Keeps-check P _) (
            Keeps-bind P
              (Keeps-call P others respect 5
                (svc.push_plan w'.requires_full_upload w'.project request))
              λ plan.
                Keeps-then P
                  (Keeps-act P _ (λ m. c.writes h _ m (plans plan.sync_id (m.now + ttl))))
                  (Keeps-give P plan))))

  -- A body that runs under the lock of a workflow.
  pub locked-Keeps :
      {A : Type 0} (n h : ℕ) {body : M W A} → Keeps P body → Keeps P (locked others n h body)
  locked-Keeps n h k =
      Keeps-locked P c.acquires (λ h m. c.writes h unlock m unlocks) others respect n h k

  pub push_plan-Keeps :
      (ttl id : ℕ) (request : PushPlanRequest) → Keeps P (push_plan others svc ttl id request)
  unfolding push_plan
  push_plan-Keeps ttl id request =
      Keeps-managed P others respect _
        (Keeps-bind P (handle-Keeps P c id) λ h. locked-Keeps 2 h (plan_push-Keeps ttl h request))

  restore-Keeps : (w : Workflow) (may : Bool) → Keeps P (restore others svc w may)
  unfolding restore
  restore-Keeps w may =
      Keeps-if P may (Keeps-attempt P (Keeps-call P others respect 7 (svc.mark_clean w.project)))
        (Keeps-give P (ok tt))

  settle_failure-Keeps :
      (h : ℕ) (e : AppError) (retryable : Bool) (marked : Result (Unit {0}))
      → Keeps P (settle_failure others svc h e retryable marked)
  unfolding settle_failure
  settle_failure-Keeps h e retryable (err mark_error) =
      Keeps-then P (fail-Keeps P c h mark_error true) (Keeps-fail P mark_error)
  settle_failure-Keeps h e true (ok u) = Keeps-fail P e
  settle_failure-Keeps h e false (ok u) =
      Keeps-then P (fail-Keeps P c h e (is_reupload e)) (Keeps-fail P e)

  settle_commit-Keeps :
      (h : ℕ) (w : Workflow) (sync_id : ℕ) (was_clean : Bool) (result : Result CommitSyncResponse)
      → Keeps P (settle_commit others svc h w sync_id was_clean result)
  unfolding settle_commit
  settle_commit-Keeps h w sync_id was_clean (ok response) =
      Keeps-then P (Keeps-update P h _ (λ m. c.writes h _ m commits)) (Keeps-give P response)
  settle_commit-Keeps h w sync_id was_clean (err e) = Keeps-bind P (Keeps-object P h) λ v.
      Keeps-bind P (Keeps-attempt P (Keeps-call P others respect 6 (svc.status w.project sync_id)))
        λ status. Keeps-bind P (restore-Keeps w _) (λ marked. settle_failure-Keeps h e _ marked)

  commit_marked-Keeps :
      (h : ℕ) (w : Workflow) (sync_id : ℕ) (was_clean : Bool) (marked : Result (Unit {0}))
      → Keeps P (commit_marked others svc h w sync_id was_clean marked)
  unfolding commit_marked
  commit_marked-Keeps h w sync_id was_clean (err e) =
      Keeps-then P (fail-Keeps P c h e true) (Keeps-fail P e)
  commit_marked-Keeps h w sync_id was_clean (ok u) =
      Keeps-bind P (Keeps-attempt P (Keeps-call P others respect 5 (svc.commit w.project sync_id)))
        (settle_commit-Keeps h w sync_id was_clean)

  commit_open-Keeps :
      (h : ℕ) (w : Workflow) (sync_id : ℕ) → Keeps P (commit_open others svc h w sync_id)
  unfolding commit_open
  commit_open-Keeps h w sync_id =
      Keeps-bind P (Keeps-call P others respect 3 (svc.is_clean w.project)) λ was_clean.
        Keeps-bind P (Keeps-attempt P (Keeps-call P others respect 4 (svc.mark_dirty w.project)))
          (commit_marked-Keeps h w sync_id was_clean)

  commit_plan-Keeps : (h sync_id : ℕ) → Keeps P (commit_plan others svc h sync_id)
  unfolding commit_plan
  commit_plan-Keeps h sync_id = Keeps-bind P (Keeps-object P h) λ w.
      Keeps-then P (Keeps-check P _) (
        Keeps-then P (Keeps-check P _) (
          Keeps-if P (is_plan sync_id w.open_sync) (commit_open-Keeps h w sync_id)
            (Keeps-call P others respect 3 (svc.commit w.project sync_id))))

  pub commit-Keeps : (id sync_id : ℕ) → Keeps P (commit others svc id sync_id)
  unfolding commit
  commit-Keeps id sync_id =
      Keeps-managed P others respect _
        (Keeps-bind P (handle-Keeps P c id) λ h. locked-Keeps 2 h (commit_plan-Keeps h sync_id))

  abort_plan-Keeps : (h sync_id : ℕ) → Keeps P (abort_plan others svc h sync_id)
  unfolding abort_plan
  abort_plan-Keeps h sync_id = Keeps-bind P (Keeps-object P h) λ w. Keeps-then P (Keeps-check P _) (
      Keeps-then P (Keeps-check P _) (
        Keeps-then P (Keeps-call P others respect 3 (svc.abort w.project sync_id)) (
          Keeps-bind P (Keeps-object P h) λ v.
            Keeps-if P (is_plan sync_id v.open_sync)
              (Keeps-update P h _ (λ m. c.writes h _ m closes_plan)) (Keeps-give P tt))))

  pub abort_sync-Keeps : (id sync_id : ℕ) → Keeps P (abort_sync others svc id sync_id)
  unfolding abort_sync
  abort_sync-Keeps id sync_id =
      Keeps-managed P others respect _
        (Keeps-bind P (handle-Keeps P c id) λ h. locked-Keeps 2 h (abort_plan-Keeps h sync_id))
