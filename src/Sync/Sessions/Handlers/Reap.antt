-- ===== src/Sync/Sessions/Handlers/Reap.antt =====
-- src/sync.rs: the reaper, and the closing of a project's plans.
use vivado_server.Base.{ℕ, ◌=s=◌, if◌then◌else◌, Str, Option, none, some, List, [], ◌∷◌}
use vivado_server.Error.{AppError, Result, ok, err}
use vivado_server.Sync.Model.{aborted, expired}
use vivado_server.Sync.Sessions.Registry.{
  SyncManager, Reaping, expires, cleans, skips, reaping, prune_results,
}
use vivado_server.Sync.Sessions.Handlers.{
  Environment, Run, returns, blocked, with_session, cleanup_session, abort_session,
}

module _ (env : Environment) (rounds : ℕ) where
  reap_session : ℕ → Reaping → SyncManager → Run (Unit {0}) × SyncManager
  reap_session h expires m = abort_session env rounds h expired m
  reap_session h cleans m = cleanup_session env h m
  reap_session h skips m = (returns (ok tt), m)

  first_error : Option AppError → Result (Unit {0}) → Option AppError
  first_error none (ok unit) = none
  first_error none (err error) = some error
  first_error (some first) result = some first

  finish_reaping : Option AppError → SyncManager → Run (Unit {0}) × SyncManager
  finish_reaping none m = (returns (ok tt), prune_results env.most env.retention m)
  finish_reaping (some first) m = (returns (err first), prune_results env.most env.retention m)

  -- The sessions of the snapshot, one after the other.
  reap_all : List (ℕ × ℕ) → Option AppError → SyncManager → Run (Unit {0}) × SyncManager
  unfolding with_session reap_session first_error finish_reaping
  reap_all [] first m = finish_reaping first m
  reap_all ((id, h) ∷ entries) first m = with_session h m (λ d.
      let (run, m1) = reap_session h (reaping m.now d) m in
      elim run [
        | returns result ↦ reap_all entries (first_error first result) m1
        | blocked ↦ (blocked, m1)
      ])

  unfoldable pub reap : SyncManager → Run (Unit {0}) × SyncManager
  unfolding reap_all
  reap m = reap_all m.entries none m

  abort_all : Str → List (ℕ × ℕ) → SyncManager → Run (Unit {0}) × SyncManager
  unfolding with_session
  abort_all project [] m = (returns (ok tt), m)
  abort_all project ((id, h) ∷ entries) m = with_session h m (λ d.
      let others = abort_all project entries m in
      let (run, m1) = abort_session env rounds h aborted m in
      let after : Run (Unit {0}) × SyncManager = elim run [
        | returns (ok unit) ↦ abort_all project entries m1
        | returns (err error) ↦ (returns (err error), m1)
        | blocked ↦ (blocked, m1)
      ] in
      if d.project =s= project then after else others)

  -- `abort_open`, while no plan is being made.
  unfoldable pub abort_open : Str → SyncManager → Run (Unit {0}) × SyncManager
  unfolding abort_all
  abort_open project m = if m.creating then (blocked, m) else abort_all project m.entries m
