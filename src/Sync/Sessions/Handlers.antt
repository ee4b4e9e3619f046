-- ===== src/Sync/Sessions/Handlers.antt =====
-- src/sync.rs: the handlers that commit, abort and clean up a plan. While a handler waits for the
-- n-th time, the other tasks turn the manager into `others n` of it.
pub mod Create
pub mod Created
pub mod Commit
pub mod Later
pub mod Upload
pub mod Reap
mod Examples
use vivado_server.Base.{
  ℕ, zero, suc, if◌then◌else◌, ◌≡◌, refl, Str, Bool, true, false, not, Option, none, some, List, [],
  ◌∷◌,
}
use vivado_server.Base.Maps.{get_elem?}
use vivado_server.Error.{AppError, Result, ok, err, text, not_found, conflict}
use vivado_server.Sync.Model.{
  CommitSyncResponse, SyncSessionStatus, opened, committing, committed, aborted, expired, failed,
}
use vivado_server.Sync.Sessions.{
  CommitPlan, PushSession, CommitStart, started, awaits, expires, replies, is_live, is_opened,
  commit_result, begin_commit, conclude_commit, close_session,
}
use vivado_server.Sync.Sessions.Registry.{
  SyncManager, write_session, finish_session, settle_cleanup, prune_results, find_session,
}

-- What the code meets: the other tasks, the outcome of `apply_commit`, of `remove_staging_dir` and
-- of the reception of an upload into its place, and the limits on retained results.
pub record Environment : Type 0 where
  pub others : ℕ → SyncManager → SyncManager
  pub applied : CommitPlan → Result CommitSyncResponse
  pub removed : Result (Unit {0})
  pub received : Result (Unit {0})
  pub most : ℕ
  pub retention : ℕ

-- A handler returns, or still waits for a lock or for another task.
pub data Run (A : Type 0) : Type 0 where
  returns : Result A → Run A
  blocked : Run A

-- The session's data; there always is a session behind an `Arc`.
unfoldable pub with_session :
    {A : Type 0} → ℕ → SyncManager → (PushSession → Run A × SyncManager) → Run A × SyncManager
with_session h m go = elim (get_elem? m.sessions h) [ none ↦ (blocked, m) | some d ↦ go d ]

pub with_session-some :
    {A : Type 0} (h : ℕ) (m : SyncManager) (go : PushSession → Run A × SyncManager)
    (d : PushSession)
    → get_elem? m.sessions h ≡ some d
    → with_session h m go ≡ go d
unfolding with_session
with_session-some h m go d at = rw (with_session, at) refl

abbrev pub no_uploads : List Str → Bool
no_uploads [] = true
no_uploads (path ∷ paths) = false

is_committing : SyncSessionStatus → Bool
unfolding is_live is_opened
is_committing s = if is_opened s then false else is_live s

module _ (env : Environment) where
  -- The removal of the staging directory, under the cleanup lock.
  unfoldable pub remove_staging : ℕ → PushSession → SyncManager → Run (Unit {0}) × SyncManager
  unfolding with_session
  remove_staging h d m =
      let m1 = env.others 3 (write_session h (record d { cleaning = true }) m) in
      with_session h m1 (λ d'. (
        returns env.removed,
        prune_results env.most env.retention (env.others 4 (settle_cleanup h env.removed d' m1)),
      ))

  unfoldable pub cleanup_session : ℕ → SyncManager → Run (Unit {0}) × SyncManager
  unfolding with_session remove_staging
  cleanup_session h m =
      let m1 = env.others 2 m in
      with_session h m1 (λ d.
        if d.cleaning
        then (blocked, m1)
        else if not d.cleanup_pending
        then (returns (ok tt), m1)
        else remove_staging h d m1)

  -- `abort_session_inner`: a commit that runs is waited for, a number of rounds.
  unfoldable pub abort_session :
      ℕ → ℕ → SyncSessionStatus → SyncManager → Run (Unit {0}) × SyncManager
  unfolding with_session is_committing cleanup_session
  abort_session zero h terminal m = (blocked, m)
  abort_session (suc rounds) h terminal m =
      let m1 = env.others 6 m in
      let again = abort_session rounds h terminal m1 in
      with_session h m1 (λ d.
        if not (no_uploads d.receiving)
        then (blocked, m1)
        else if is_committing d.state
        then again
        else cleanup_session h (finish_session h d (close_session m1.now terminal d) m1))

  expired_answer : Run (Unit {0}) → Run CommitSyncResponse
  expired_answer (returns (ok unit)) = returns (err (not_found (text "sync session expired")))
  expired_answer (returns (err error)) = returns (err error)
  expired_answer blocked = blocked

  -- The outcome of the clean-up does not change the answer.
  unfoldable pub answer : Run (Unit {0}) → Result CommitSyncResponse → Run CommitSyncResponse
  answer (returns cleaned) result = returns result
  answer blocked result = blocked

  unfoldable pub carry_on : ℕ → ℕ → CommitStart → SyncManager → Run CommitSyncResponse × SyncManager
  unfolding with_session is_committing cleanup_session abort_session expired_answer answer
  carry_on rounds h (replies result) m = (returns result, m)
  carry_on rounds h awaits m =
      let m1 = env.others 5 m in
      with_session h m1
        (λ d. if is_committing d.state then (blocked, m1) else (returns (commit_result d), m1))
  carry_on rounds h expires m =
      let (run, m1) = abort_session rounds h expired m in (expired_answer run, m1)
  carry_on rounds h (started plan) m =
      let m1 = env.others 1 m in
      with_session h m1 (λ d.
        let m2 = finish_session h d (conclude_commit m1.now (env.applied plan) d) m1 in
        let (run, m3) = cleanup_session h m2 in (answer run (env.applied plan), m3))

  unfoldable pub commit_session : ℕ → Str → ℕ → SyncManager → Run CommitSyncResponse × SyncManager
  unfolding with_session carry_on
  commit_session rounds project sync_id m = elim (find_session sync_id project m) [
    | err error ↦ (returns (err error), m)
    | ok h ↦
        let m1 = env.others 0 m in
        with_session h m1 (λ d.
          if not (no_uploads d.receiving)
          then (blocked, m1)
          else (let (start, d') = begin_commit m1.now d in
              carry_on rounds h start (write_session h d' m1)))
  ]

  -- `abort`, once the plan is closed and cleaned up.
  abort_answer : Run (Unit {0}) → SyncManager → ℕ → Run (Unit {0}) × SyncManager
  unfolding with_session
  abort_answer (returns (ok unit)) m h = with_session h m (λ d. elim d.state [
    | aborted ↦ (returns (ok tt), m)
    | opened ↦ (returns (err (conflict (text "only an open sync plan can be aborted"))), m)
    | committing ↦ (returns (err (conflict (text "only an open sync plan can be aborted"))), m)
    | committed ↦ (returns (err (conflict (text "only an open sync plan can be aborted"))), m)
    | expired ↦ (returns (err (conflict (text "only an open sync plan can be aborted"))), m)
    | failed ↦ (returns (err (conflict (text "only an open sync plan can be aborted"))), m)
  ])
  abort_answer (returns (err error)) m h = (returns (err error), m)
  abort_answer blocked m h = (blocked, m)

  unfoldable pub abort_by_client : ℕ → Str → ℕ → SyncManager → Run (Unit {0}) × SyncManager
  unfolding abort_session abort_answer
  abort_by_client rounds project sync_id m = elim (find_session sync_id project m) [
    | err error ↦ (returns (err error), m)
    | ok h ↦
        let (run, m1) = abort_session rounds h aborted m in abort_answer run (env.others 7 m1) h
  ]
