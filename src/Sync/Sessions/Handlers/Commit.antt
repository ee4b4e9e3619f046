-- ===== src/Sync/Sessions/Handlers/Commit.antt =====
-- src/sync.rs: the answer of a commit.
use vivado_server.Base.{
  ℕ, ◌≡◌, refl, ap, not, if◌then◌else◌, ◌∙◌, Str, Bool-cases, true, false, inl, inr, none, [],
  arith,
}
use vivado_server.Base.Maps.{get_elem?-set_self}
use vivado_server.Error.{Result, ok, err}
use vivado_server.Sync.Model.{CommitSyncResponse, committing}
use vivado_server.Sync.Sessions.{
  CommitPlan, PushSession, CommitStart, started, is_live, commit_result, begin_commit,
  conclude_commit,
}
use vivado_server.Sync.Sessions.Registry.{
  SyncManager, new_manager, write_session, finish_session, settle_cleanup, prune_results,
  find_session,
}
use vivado_server.Sync.Sessions.Handlers.{
  Environment, with_session-some, Run, no_uploads, returns, blocked, remove_staging,
  cleanup_session, answer, carry_on, commit_session,
}
use vivado_server.Sync.Sessions.Steps.{
  At, Steps, begins, settles, takes, cleans, prunes, stays, joined, after,
}
use vivado_server.Sync.Sessions.Steps.Slot.{reached}
use vivado_server.Sync.Sessions.Steps.Settled.{Steps-Kept, commit_result-kept}

-- What a commit of the session `h` may rely on: the others take steps; while the plan is applied,
-- only this task settles the session, while the staging directory is removed, only this task lets
-- go of the cleanup lock, and this task gets the cleanup lock in the end.
pub record IsEnvironment (env : Environment) (h : ℕ) : Type 0 where
  pub moves : (n : ℕ) (m : SyncManager) → Steps m (env.others n m)
  pub spares :
      (m : SyncManager) (d : PushSession)
      → At m h d
      → d.state ≡ committing
      → (d' : PushSession) × At (env.others 1 m) h d' × (d'.state ≡ committing)
  pub frees : (m : SyncManager) (d : PushSession) → At (env.others 2 m) h d → d.cleaning ≡ false
  pub leaves_lock :
      (m : SyncManager) (d : PushSession)
      → At m h d
      → d.cleaning ≡ true
      → (d' : PushSession) × At (env.others 3 m) h d' × (d'.cleaning ≡ true)

-- A commit that finds its session, with no upload on its way, goes on as the session's start says.
pub commit_session-begins :
    (env : Environment) (h rounds : ℕ) (project : Str) (sync_id : ℕ) (m : SyncManager)
    (d : PushSession) {start : CommitStart}
    → find_session sync_id project m ≡ ok h
    → At (env.others 0 m) h d
    → d.receiving ≡ []
    → (begin_commit (env.others 0 m).now d).0 ≡ start
    → commit_session env rounds project sync_id m
      ≡ carry_on env rounds h start
          (write_session h (begin_commit (env.others 0 m).now d).1 (env.others 0 m))
unfolding commit_session
commit_session-begins env h rounds project sync_id m d f at r s =
    rw (commit_session, f)
      (with_session-some h (env.others 0 m) _ d at
        ∙ ap
            (λ l.
              if not (no_uploads l)
              then (blocked, env.others 0 m)
              else going (begin_commit (env.others 0 m).now d).0)
            r
        ∙ ap going s)
  where
    going : CommitStart → Run CommitSyncResponse × SyncManager
    going start =
        carry_on env rounds h start
          (write_session h (begin_commit (env.others 0 m).now d).1 (env.others 0 m))

module _ (env : Environment) (h : ℕ) (e : IsEnvironment env h) where
  cleanup_session-idle :
      (m : SyncManager) (d : PushSession)
      → At (env.others 2 m) h d
      → d.cleaning ≡ false
      → d.cleanup_pending ≡ false
      → cleanup_session env h m ≡ (returns (ok tt), env.others 2 m)
  unfolding cleanup_session
  cleanup_session-idle m d at c p = with_session-some h (env.others 2 m) _ d at ∙ rw (c, p) refl

  cleanup_session-removes :
      (m : SyncManager) (d : PushSession)
      → At (env.others 2 m) h d
      → d.cleaning ≡ false
      → d.cleanup_pending ≡ true
      → cleanup_session env h m ≡ remove_staging env h d (env.others 2 m)
  unfolding cleanup_session
  cleanup_session-removes m d at c p = with_session-some h (env.others 2 m) _ d at ∙ rw (c, p) refl

  -- The clean-up takes the lock, notes how the removal ended, and prunes.
  remove_staging-runs :
      (m : SyncManager) (d : PushSession)
      → At m h d
      → d.cleaning ≡ false
      → d.cleanup_pending ≡ true
      → (r : Result (Unit {0})) × (m' : SyncManager) × (remove_staging env h d m ≡ (returns r, m'))
        × Steps m m'
  unfolding remove_staging
  remove_staging-runs m d at c p =
      let locked = record d { cleaning = true } in
      let m1 = env.others 3 (write_session h locked m) in
      let (d2, at2, c2) =
        e.leaves_lock (write_session h locked m) locked (get_elem?-set_self m.sessions h locked at)
          refl in
      let m2 = settle_cleanup h env.removed d2 m1 in
      (
        env.removed,
        prune_results env.most env.retention (env.others 4 m2),
        with_session-some h m1 _ d2 at2,
        after
            (joined
              (after
                (joined (after (stays m) (takes m h d at c p))
                  (e.moves 3 (write_session h locked m)))
                (cleans m1 h d2 env.removed at2 c2))
              (e.moves 4 m2))
            (prunes (env.others 4 m2) env.most env.retention),
      )

  -- The clean-up of a session that is over comes to its end, by steps.
  cleanup_session-runs :
      (m : SyncManager) (d : PushSession)
      → At m h d
      → is_live d.state ≡ false
      → (r : Result (Unit {0})) × (m' : SyncManager) × (cleanup_session env h m ≡ (returns r, m'))
        × Steps m m'
  cleanup_session-runs m d at l =
      let (d1, at1, o) = Steps-Kept h d (e.moves 2 m) at l in
      let c = e.frees m d1 at1 in
      elim (Bool-cases d1.cleanup_pending) [
        | inr p ↦ (ok tt, env.others 2 m, cleanup_session-idle m d1 at1 c p, e.moves 2 m)
        | inl p ↦
            let (r, m', run, steps) = remove_staging-runs (env.others 2 m) d1 at1 c p in
            (r, m', cleanup_session-removes m d1 at1 c p ∙ run, joined (e.moves 2 m) steps)
      ]

  started-committing :
      (now : ℕ) (d : PushSession) {plan : CommitPlan}
      → (begin_commit now d).0 ≡ started plan
      → (begin_commit now d).1.state ≡ committing
  unfolding begin_commit
  started-committing now d s = ground (arith, s)

  settled-answer :
      (now : ℕ) (result : Result CommitSyncResponse) (d : PushSession)
      → d.result ≡ none
      → commit_result (conclude_commit now result d) ≡ result
  unfolding commit_result conclude_commit
  settled-answer now (ok response) d n = refl
  settled-answer now (err error) d n = rw (n) refl

  settled-over :
      (now : ℕ) (result : Result CommitSyncResponse) (d : PushSession)
      → is_live (conclude_commit now result d).state ≡ false
  unfolding conclude_commit is_live
  settled-over now (ok response) d = refl
  settled-over now (err error) d = refl

  finish_session-At :
      (m : SyncManager) (old new : PushSession) → At m h old → At (finish_session h old new m) h new
  unfolding finish_session
  finish_session-At m old new at = get_elem?-set_self m.sessions h new at

  committing-live : (d : PushSession) → d.state ≡ committing → is_live d.state ≡ true
  unfolding is_live
  committing-live d c = ap is_live c

  module _ (rounds : ℕ) where
    carry_on-settles :
        (plan : CommitPlan) (m m' : SyncManager) (d : PushSession) {r : Result (Unit {0})}
        → At (env.others 1 m) h d
        → cleanup_session env h (
            finish_session h d
              (conclude_commit (env.others 1 m).now (env.applied plan) d)
              (env.others 1 m))
          ≡ (returns r, m')
        → carry_on env rounds h (started plan) m ≡ (returns (env.applied plan), m')
    unfolding carry_on answer
    carry_on-settles plan m m' d at run =
        with_session-some h (env.others 1 m) _ d at
        ∙ ap (λ c. (answer env c.0 (env.applied plan), c.1)) run

    -- A commit that starts, after whatever the tasks did since the start, returns what came of
    -- applying the plan, however the clean-up ends; all it does are steps; and they leave the session
    -- over, with this outcome as its result.
    pub commit_session-answers :
        (project : Str) (sync_id : ℕ) (m : SyncManager) (d : PushSession) (plan : CommitPlan)
        → Steps new_manager m
        → find_session sync_id project m ≡ ok h
        → At (env.others 0 m) h d
        → d.receiving ≡ []
        → (begin_commit (env.others 0 m).now d).0 ≡ started plan
        → (m' : SyncManager) × (d' : PushSession) × (commit_session env rounds project sync_id m
            ≡ (returns (env.applied plan), m'))
          × Steps m m'
          × At m' h d'
          × (is_live d'.state ≡ false)
          × (commit_result d' ≡ env.applied plan)
    commit_session-answers project sync_id m d plan run f at r s =
        let m1 = env.others 0 m in
        let begun = (begin_commit m1.now d).1 in
        let m2 = write_session h begun m1 in
        let (d3, at3, c3) =
          e.spares m2 begun (get_elem?-set_self m1.sessions h begun at)
            (started-committing m1.now d s) in
        let m3 = env.others 1 m2 in
        let before = joined (after (e.moves 0 m) (begins m1 h d at r)) (e.moves 1 m2) in
        let settled = conclude_commit m3.now (env.applied plan) d3 in
        let m4 = finish_session h d3 settled m3 in
        let at4 : At m4 h settled = finish_session-At m3 d3 settled at3 in
        let (x, m5, cleaned, steps) =
          cleanup_session-runs m4 settled at4 (settled-over m3.now (env.applied plan) d3) in
        let over = settled-over m3.now (env.applied plan) d3 in
        let (d5, at5, o) = Steps-Kept h settled steps at4 over in
        let i = (reached (joined run before)).each h d3 at3 in
        (
          m5,
          d5,
          commit_session-begins env h rounds project sync_id m d f at r s
              ∙ carry_on-settles plan m2 m5 d3 at3 cleaned,
          joined (after before (settles m3 h d3 (env.applied plan) at3 c3)) steps,
          at5,
          ap is_live o.state ∙ over,
          commit_result-kept settled d5 o
              ∙ settled-answer m3.now (env.applied plan) d3 (i.fresh (committing-live d3 c3)),
        )
