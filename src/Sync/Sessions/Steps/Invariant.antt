-- ===== src/Sync/Sessions/Steps/Invariant.antt =====
-- src/sync.rs: what every session and the manager keep.
use vivado_server.Base.{
  ℕ, ◌+◌, ◌-◌, ◌≤◌, ◌≡◌, ◌⊎◌, inl, inr, refl, sym, subst, ap, ltb, Bool, true, false, arith,
}
use vivado_server.Base.Maps.{get_elem?-append}
use vivado_server.Error.{Result, ok, err}
use vivado_server.Sync.Sessions.{
  PushSession, is_live, begin_commit, conclude_commit, close_session, note_cleanup,
}
use vivado_server.Sync.Sessions.Registry.{
  SyncManager, new_session, count_of, finish_session, reserve_slot, drop_slot, register_plan,
  settle_cleanup, prune_results,
}
use vivado_server.Sync.Sessions.Steps.{
  hold_activity, release_activity, Step, reserves, drops, registers, receives, stages, leaves,
  begins, settles, closes, takes, cleans, prunes, ticks,
}
use vivado_server.Sync.Sessions.Steps.Rules.{
  IsManager, IsSession, is_failing, holds_permit, write-IsManager,
}
use vivado_server.Sync.Sessions.Steps.Changes.{
  check_upload-opened, hold_activity-IsSession, release_activity-IsSession, finish_upload-IsSession,
  begin_commit-IsSession, conclude_commit-IsSession, close_session-IsSession, cleaning-IsSession,
  note_cleanup-IsSession, new_session-IsSession, finish_upload-same, begin_commit-same,
  conclude_commit-releases, close_session-releases, note_cleanup-same,
}
use vivado_server.Sync.Sessions.Steps.Count.{count-append, count-at}

-- The equations of the permits and of the counter.
kept : (n : ℕ) {b c : Bool} → b ≡ c → n + count_of b ≡ n + count_of c
kept n e = ap (λ b. n + count_of b) e

same_failing : (n : ℕ) {f g : ℕ} → g ≡ f → n + count_of (ltb 0 f) ≡ n + count_of (ltb 0 g)
same_failing n e = ap (λ f. n + count_of (ltb 0 f)) (sym e)

given_back :
    (n : ℕ) (old new : Bool)
    → (new ≡ false) ⊎ (new ≡ old)
    → n + (count_of old - count_of new) + count_of new ≡ n + count_of old
given_back n true true e = omega arith
given_back n true false e = omega arith
given_back n false false e = omega arith
given_back n false true e = ground arith

recounted :
    (result : Result (Unit {0})) (d : PushSession) (h : ℕ) (m : SyncManager)
    → count_of (is_failing d) ≤ m.cleanup_degraded
    → (settle_cleanup h result d m).cleanup_degraded + count_of (is_failing d)
      ≡ m.cleanup_degraded + count_of (is_failing (note_cleanup result d))
unfolding settle_cleanup note_cleanup
recounted (ok unit) d h m k = ground arith
recounted (err error) d h m k = ground arith

pub Step-IsManager : {m m' : SyncManager} → Step m m' → IsManager m → IsManager m'
unfolding reserve_slot drop_slot register_plan finish_session settle_cleanup prune_results is_live
Step-IsManager (reserves m m' c h) i = ground arith
Step-IsManager (drops m c) i = record {
  each = i.each;
  slot = ground (arith, i.slot);
  counter = i.counter;
}
Step-IsManager (registers m sync_id ttl project plan c) i = record {
  each = λ k d e.
      elim (get_elem?-append m.sessions (new_session sync_id project plan (m.now + ttl)) k e) [
        | inl (last, it) ↦
            subst IsSession (sym it) (new_session-IsSession sync_id (m.now + ttl) project plan)
        | inr it ↦ i.each k d it
      ];
  slot = ground (
    arith,
    i.slot,
    count-append holds_permit m.sessions (new_session sync_id project plan (m.now + ttl)),
  );
  counter = omega (
    arith,
    i.counter,
    count-append is_failing m.sessions (new_session sync_id project plan (m.now + ttl)),
  );
}
Step-IsManager (receives m h d path upload at e) i =
    write-IsManager m h m.permits m.cleanup_degraded d (hold_activity path d) i at
      (hold_activity-IsSession path d (check_upload-opened m.now path d e) (i.each h d at)) refl
      refl
Step-IsManager (stages m h d d' path at r e) i =
    write-IsManager m h m.permits m.cleanup_degraded d (release_activity path d') i at
      (release_activity-IsSession path d' (finish_upload-IsSession path d d' e (i.each h d at)))
      (kept m.permits (finish_upload-same path d d' e).0)
      (same_failing m.cleanup_degraded (finish_upload-same path d d' e).1)
Step-IsManager (leaves m h d path at) i =
    write-IsManager m h m.permits m.cleanup_degraded d (release_activity path d) i at
      (release_activity-IsSession path d (i.each h d at)) refl refl
Step-IsManager (begins m h d at r) i =
    write-IsManager m h m.permits m.cleanup_degraded d (begin_commit m.now d).1 i at
      (begin_commit-IsSession m.now d r (i.each h d at))
      (kept m.permits (begin_commit-same m.now d).0)
      (same_failing m.cleanup_degraded (begin_commit-same m.now d).1)
Step-IsManager (settles m h d result at c) i =
    write-IsManager m h _ m.cleanup_degraded d (conclude_commit m.now result d) i at
      (conclude_commit-IsSession m.now result d c (i.each h d at))
      (given_back m.permits d.active_permit _ (inl (conclude_commit-releases m.now result d).0))
      (same_failing m.cleanup_degraded (conclude_commit-releases m.now result d).1)
Step-IsManager (closes m h d terminal at r t) i =
    write-IsManager m h _ m.cleanup_degraded d (close_session m.now terminal d) i at
      (close_session-IsSession m.now terminal d r t (i.each h d at))
      (given_back m.permits d.active_permit _ (close_session-releases m.now terminal d).0)
      (same_failing m.cleanup_degraded (close_session-releases m.now terminal d).1)
Step-IsManager (takes m h d at c p) i =
    write-IsManager m h m.permits m.cleanup_degraded d (record d { cleaning = true }) i at
      (cleaning-IsSession d p (i.each h d at)) refl refl
Step-IsManager (cleans m h d result at c) i =
    write-IsManager m h m.permits _ d (record (note_cleanup result d) { cleaning = false }) i at
      (note_cleanup-IsSession result d c (i.each h d at))
      (kept m.permits (note_cleanup-same result d))
      (recounted result d h m (omega (arith, i.counter, count-at is_failing m.sessions h d at)))
Step-IsManager (prunes m most retention) i = record {
  each = i.each;
  slot = i.slot;
  counter = i.counter;
}
Step-IsManager (ticks m elapsed) i = record { each = i.each; slot = i.slot; counter = i.counter }
