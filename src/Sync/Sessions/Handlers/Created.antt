-- ===== src/Sync/Sessions/Handlers/Created.antt =====
-- src/sync.rs: how the making of a plan ends.
use vivado_server.Base.{
  ℕ, ◌+◌, ◌-◌, ◌≡◌, ◌⊎◌, inl, inr, refl, sym, ap, =s=_self, ◌∙◌, subst, Str, Bool, Bool-cases, true,
  false, if◌then◌else◌, length, ltb, arith,
}
use vivado_server.Base.Maps.{lookup-insert, get_elem?-append_last}
use vivado_server.Error.{AppError, Result, Result-cases, ok, err, text, conflict}
use vivado_server.Sync.Model.{PushPlanRequest, PushPlanResponse}
use vivado_server.Sync.Sessions.{CommitPlan}
use vivado_server.Sync.Sessions.Registry.{
  SyncManager, new_manager, new_session, count_of, reserve_slot, drop_slot, register_plan,
  prune_results, find_session,
}
use vivado_server.Sync.Sessions.Handlers.{Environment, Run, returns, blocked}
use vivado_server.Sync.Sessions.Steps.{
  At, Steps, reserves, drops, registers, prunes, stays, joined, after,
}
use vivado_server.Sync.Sessions.Steps.Slot.{reached}
use vivado_server.Sync.Sessions.Handlers.Create.{
  Planning, prepare_plan, plan_response, finish_plan, make_session, create_plan,
}

-- What the making of a plan may rely on: the others take steps, and only this task ends it.
pub record IsCreating (env : Environment) : Type 0 where
  pub moves : (n : ℕ) (m : SyncManager) → Steps m (env.others n m)
  pub keeps : (m : SyncManager) → m.creating ≡ true → (env.others 10 m).creating ≡ true

reserve_slot-taken :
    (m : SyncManager)
    → ltb 0 m.permits ≡ false
    → (m.permits ≡ 0) × (reserve_slot m ≡ err (conflict (text "an open sync plan already exists")))
unfolding reserve_slot
reserve_slot-taken m h = (ground (arith, h), ground (arith, h))

reserve_slot-free :
    (m : SyncManager)
    → ltb 0 m.permits ≡ true
    → reserve_slot m ≡ ok (record m { permits = m.permits - 1; creating = true })
unfolding reserve_slot
reserve_slot-free m h = ground (arith, h)

-- The permit that a creator holds is the only one.
dropped : (m : SyncManager) → Steps new_manager m → m.creating ≡ true → (drop_slot m).permits ≡ 1
unfolding drop_slot
dropped m s c = omega (arith, (reached s).slot, ap count_of c)

registered :
    (sync_id : ℕ) (project : Str) (plan : CommitPlan) (ttl : ℕ) (m : SyncManager)
    → (find_session sync_id project (register_plan sync_id project plan ttl m)
        ≡ ok (length m.sessions))
      × At
          (register_plan sync_id project plan ttl m)
          (length m.sessions)
          (new_session sync_id project plan (m.now + ttl))
unfolding register_plan find_session
registered sync_id project plan ttl m =
    let last = get_elem?-append_last m.sessions (new_session sync_id project plan (m.now + ttl)) in
    (
      ground (
        arith,
        lookup-insert sync_id sync_id (length m.sessions) m.entries,
        last,
        =s=_self project,
      ),
      last,
    )

module _ (env : Environment) (e : IsCreating env) (planning : Planning) (reset : Bool)
    (project : Str) (sync_id : ℕ) (request : PushPlanRequest) where
  create_plan-makes :
      (m : SyncManager)
      → m.creating ≡ false
      → create_plan env planning reset project sync_id request m
        ≡ make_session env planning reset project sync_id request
            (reserve_slot (prune_results env.most env.retention m))
            (prune_results env.most env.retention m)
  unfolding create_plan
  create_plan-makes m c =
      ap
        (λ b.
          if b
          then (blocked, m)
          else make_session env planning reset project sync_id request
              (reserve_slot (prune_results env.most env.retention m))
              (prune_results env.most env.retention m))
        c

  -- How the making of a plan can end: it is refused while the permit is out, it fails and gives the
  -- permit back, or its session is found under the ID.
  abbrev pub Answers : SyncManager → Run PushPlanResponse × SyncManager → Type 0
  Answers m run =
      (m' : SyncManager) × Steps m m'
      × (m'.creating ≡ false)
      × (((m.permits ≡ 0)
            × (run ≡ (returns (err (conflict (text "an open sync plan already exists"))), m'))
            × (m'.sessions ≡ m.sessions))
          ⊎ ((error : AppError) × (prepare_plan planning reset request ≡ err error)
              × (run ≡ (returns (err error), m'))
              × (m'.permits ≡ 1))
          ⊎ ((plan : CommitPlan) × (expires_at : ℕ) × (h : ℕ) × (prepare_plan planning reset request
                ≡ ok (plan, expires_at))
              × (run ≡ (returns (ok (plan_response sync_id expires_at plan)), m'))
              × (find_session sync_id project m' ≡ ok h)
              × At m' h (new_session sync_id project plan (m'.now + planning.ttl))))

  make_session-Answers :
      (m : SyncManager)
      → Steps new_manager m
      → m.creating ≡ false
      → Answers m (make_session env planning reset project sync_id request (reserve_slot m) m)
  unfolding make_session finish_plan drop_slot register_plan
  make_session-Answers m s c = elim (Bool-cases (ltb 0 m.permits)) [
    | inr out ↦
        let (none_left, refused) = reserve_slot-taken m out in
        (m, stays m, c, inl (none_left, ap (λ r. making r m) refused, refl))
    | inl in_slot ↦
        let m1 = record m { permits = m.permits - 1; creating = true } in
        let m2 = env.others 10 m1 in
        let free = reserve_slot-free m in_slot in
        let begun = joined (after (stays m) (reserves m m1 c free)) (e.moves 10 m1) in
        let held = e.keeps m1 refl in
        elim (Result-cases (prepare_plan planning reset request)) [
          | inl (error, failed) ↦ (
            drop_slot m2,
            after begun (drops m2 held),
            refl,
            inr (
                inl (
                  error,
                  failed,
                  ap (λ r. making r m) free ∙ ap (λ p. ending p m2) failed,
                  dropped m2 (joined s begun) held,
                )),
          )
          | inr ((plan, expires_at), made) ↦
              let (found, there) = registered sync_id project plan planning.ttl m2 in
              (
                register_plan sync_id project plan planning.ttl m2,
                after begun (registers m2 sync_id planning.ttl project plan held),
                refl,
                inr (
                    inr (
                      plan,
                      expires_at,
                      length m2.sessions,
                      made,
                      ap (λ r. making r m) free ∙ ap (λ p. ending p m2) made,
                      found,
                      there,
                    )),
              )
        ]
  ]
    where
      making : Result SyncManager → SyncManager → Run PushPlanResponse × SyncManager
      making = make_session env planning reset project sync_id request

      ending : Result (CommitPlan × ℕ) → SyncManager → Run PushPlanResponse × SyncManager
      ending = finish_plan env planning reset project sync_id request

  -- Whatever the tasks did since the start: while no other task holds the lock of the creators, the
  -- making of a plan comes to an end, by steps, and leaves that lock free. If the permit is out, it is refused and the sessions are as before. If
  -- the request, the disk or a limit does not allow the plan, it fails with that error and the permit is
  -- back. Else it answers with the plan and the time at which it expires, and its session is found
  -- under the ID, open and fresh, with a deadline that is the TTL away from when it was entered.
  pub create_plan-Answers :
      (m : SyncManager)
      → Steps new_manager m
      → m.creating ≡ false
      → Answers m (create_plan env planning reset project sync_id request m)
  unfolding prune_results
  create_plan-Answers m s c =
      let m1 = prune_results env.most env.retention m in
      let pruned = after (stays m) (prunes m env.most env.retention) in
      let (m', steps, left, how) = make_session-Answers m1 (joined s pruned) c in
      subst (Answers m) (sym (create_plan-makes m c)) (m', joined pruned steps, left, how)
