-- ===== src/Sync/Sessions/Handlers/Later.antt =====
-- src/sync.rs: a commit of a plan that is over, found by its ID.
use vivado_server.Base.{ℕ, ◌≡◌, ap, ◌∙◌, Str, false, [], arith}
use vivado_server.Error.{ok}
use vivado_server.Sync.Sessions.{PushSession, is_live, commit_result, begin_commit}
use vivado_server.Sync.Sessions.Registry.{SyncManager, new_manager, write_session, find_session}
use vivado_server.Sync.Sessions.Handlers.{Environment, returns, carry_on, commit_session}
use vivado_server.Sync.Sessions.Handlers.Commit.{commit_session-begins}
use vivado_server.Sync.Sessions.Steps.{At, Steps, begins, joined, after}
use vivado_server.Sync.Sessions.Steps.Rules.{IsSession}
use vivado_server.Sync.Sessions.Steps.Slot.{reached}
use vivado_server.Sync.Sessions.Steps.Settled.{Steps-Kept, begin_commit-replies}

over-quiet : (d : PushSession) → IsSession d → is_live d.state ≡ false → d.receiving ≡ []
unfolding is_live
over-quiet d i l = ground (arith, i.receives)

-- Once a plan is committed, failed, aborted or expired, whatever the tasks do from then on: as long
-- as its ID still finds it (its result is not pruned), a commit under the ID returns its result or
-- its error as it was when it ended, by steps, and the plan stays what it is.
pub commit_session-settled :
    (env : Environment) (rounds h : ℕ) (project : Str) (sync_id : ℕ) (m m' : SyncManager)
    (d : PushSession)
    → ((n : ℕ) (t : SyncManager) → Steps t (env.others n t))
    → Steps new_manager m
    → At m h d
    → is_live d.state ≡ false
    → Steps m m'
    → find_session sync_id project m' ≡ ok h
    → (m'' : SyncManager) × (d'' : PushSession) × (commit_session env rounds project sync_id m'
        ≡ (returns (commit_result d), m''))
      × Steps m' m''
      × At m'' h d''
      × (d''.state ≡ d.state)
unfolding carry_on
commit_session-settled env rounds h project sync_id m m' d moves run at l s f =
    let m1 = env.others 0 m' in
    let before = joined s (moves 0 m') in
    let (d1, at1, o) = Steps-Kept h d before at l in
    let quiet =
      over-quiet d1 ((reached (joined run before)).each h d1 at1) (ap is_live o.state ∙ l) in
    let m2 = write_session h (begin_commit m1.now d1).1 m1 in
    let later = after (moves 0 m') (begins m1 h d1 at1 quiet) in
    let (d2, at2, o2) = Steps-Kept h d (joined s later) at l in
    (
      m2,
      d2,
      commit_session-begins env h rounds project sync_id m' d1 f at1 quiet
          (begin_commit-replies m1.now d d1 l o),
      later,
      at2,
      o2.state,
    )
