-- ===== src/Sync/Sessions/Steps/Settled.antt =====
-- src/sync.rs: the steps of others on a session that is over.
use vivado_server.Base.{
  ℕ, ◌≡◌, ◌==◌, ==_iff, Bool-cases, inl, inr, refl, subst, ap, ◌∙◌, Str, true, false, some, List,
  arith,
}
use vivado_server.Base.Maps.{
  get_elem?, set, get_elem?-set_self, get_elem?-set_ne, get_elem?-append_left,
}
use vivado_server.Error.{Result, ok, err}
use vivado_server.Sync.Model.{CommitSyncResponse, SyncSessionStatus, committing}
use vivado_server.Sync.Sessions.{
  PushSession, replies, is_live, is_opened, ensure_open, commit_result, finish_upload, begin_commit,
  conclude_commit, close_session, note_cleanup, release_plan,
}
use vivado_server.Sync.Sessions.Registry.{
  SyncManager, finish_session, reserve_slot, drop_slot, register_plan, settle_cleanup,
  prune_results,
}
use vivado_server.Sync.Sessions.Steps.{
  At, hold_activity, release_activity, Step, Steps, reserves, drops, registers, receives, stages,
  leaves, begins, settles, closes, takes, cleans, prunes, ticks, stays, follows,
}

-- A session that is over keeps its outcome.
pub record SameOutcome (d d' : PushSession) : Type 0 where
  pub state : d'.state ≡ d.state
  pub result : d'.result ≡ d.result
  pub error : d'.error ≡ d.error

abbrev Settles : PushSession → PushSession → Type 0
Settles d d' = is_live d.state ≡ false → SameOutcome d d'

begin_commit-Settles : (now : ℕ) (d : PushSession) → Settles d (begin_commit now d).1
unfolding begin_commit is_live
begin_commit-Settles now d l = ground arith

finish_upload-Settles :
    (path : Str) (d d' : PushSession) → finish_upload path d ≡ ok d' → Settles d d'
unfolding finish_upload ensure_open is_opened is_live
finish_upload-Settles path d d' e l = ground arith

close_session-Settles :
    (now : ℕ) (terminal : SyncSessionStatus) (d : PushSession)
    → Settles d (close_session now terminal d)
unfolding close_session is_opened is_live release_plan
close_session-Settles now terminal d l = ground arith

conclude_commit-Settles :
    (now : ℕ) (result : Result CommitSyncResponse) (d : PushSession)
    → d.state ≡ committing
    → Settles d (conclude_commit now result d)
unfolding is_live
conclude_commit-Settles now result d c l = ground arith

note_cleanup-Settles :
    (result : Result (Unit {0})) (d : PushSession)
    → Settles d (record (note_cleanup result d) { cleaning = false })
unfolding note_cleanup
note_cleanup-Settles (ok unit) d l = ground arith
note_cleanup-Settles (err e) d l = ground arith

-- The session at `h` afterwards.
abbrev pub Kept : ℕ → PushSession → List PushSession → Type 0
Kept h d sessions = (d' : PushSession) × (get_elem? sessions h ≡ some d') × SameOutcome d d'

same : (d : PushSession) → SameOutcome d d
same d = record { state = refl; result = refl; error = refl }

set-Kept :
    (sessions : List PushSession) (h k : ℕ) (d old new : PushSession)
    → get_elem? sessions k ≡ some old
    → Settles old new
    → get_elem? sessions h ≡ some d
    → is_live d.state ≡ false
    → Kept h d (set sessions k new)
set-Kept sessions h k d old new at s e l = elim (Bool-cases (k == h)) [
  | inl y ↦
      let it : k ≡ h = (==_iff k h).0 y in
      let only : old ≡ d = ground (arith, at, e, it) in
      let outcome = s (ap (λ o. is_live o.state) only ∙ l) in
      (
        new,
        subst (λ j. get_elem? (set sessions k new) j ≡ some new) it
            (get_elem?-set_self sessions k new at),
        subst (λ o. SameOutcome o new) only outcome,
      )
  | inr n ↦
      (d, get_elem?-set_ne sessions k h new (λ it. ground (arith, (==_iff k h).1 it)) ∙ e, same d)
]

reserve_slot-sessions : (m m' : SyncManager) → reserve_slot m ≡ ok m' → m'.sessions ≡ m.sessions
unfolding reserve_slot
reserve_slot-sessions m m' r = ground arith

Step-Kept :
    {m m' : SyncManager} (h : ℕ) (d : PushSession)
    → Step m m'
    → At m h d
    → is_live d.state ≡ false
    → Kept h d m'.sessions
unfolding reserve_slot drop_slot register_plan finish_session settle_cleanup prune_results
Step-Kept h d (reserves m m' c r) e l =
    (d, ap (λ sessions. get_elem? sessions h) (reserve_slot-sessions m m' r) ∙ e, same d)
Step-Kept h d (drops m c) e l = (d, e, same d)
Step-Kept h d (registers m sync_id ttl project plan c) e l =
    (d, get_elem?-append_left m.sessions _ h e, same d)
Step-Kept h d (receives m k old path upload at u) e l =
    set-Kept m.sessions h k d old (hold_activity path old) at (λ x. ground arith) e l
Step-Kept h d (stages m k old new path at r u) e l =
    set-Kept m.sessions h k d old (release_activity path new) at
      (λ x. ground (arith, finish_upload-Settles path old new u x)) e l
Step-Kept h d (leaves m k old path at) e l =
    set-Kept m.sessions h k d old (release_activity path old) at (λ x. ground arith) e l
Step-Kept h d (begins m k old at r) e l =
    set-Kept m.sessions h k d old _ at (begin_commit-Settles m.now old) e l
Step-Kept h d (settles m k old result at c) e l =
    set-Kept m.sessions h k d old _ at (conclude_commit-Settles m.now result old c) e l
Step-Kept h d (closes m k old terminal at r t) e l =
    set-Kept m.sessions h k d old _ at (close_session-Settles m.now terminal old) e l
Step-Kept h d (takes m k old at c p) e l =
    set-Kept m.sessions h k d old (record old { cleaning = true }) at (λ x. ground arith) e l
Step-Kept h d (cleans m k old result at c) e l =
    set-Kept m.sessions h k d old _ at (note_cleanup-Settles result old) e l
Step-Kept h d (prunes m most retention) e l = (d, e, same d)
Step-Kept h d (ticks m elapsed) e l = (d, e, same d)

pub Steps-Kept :
    {m m' : SyncManager} (h : ℕ) (d : PushSession)
    → Steps m m'
    → At m h d
    → is_live d.state ≡ false
    → Kept h d m'.sessions
Steps-Kept h d (stays m) at l = (d, at, same d)
Steps-Kept h d (follows m m' m'' step rest) at l =
    let (d', at', o) = Step-Kept h d step at l in
    let (d'', at'', o') = Steps-Kept h d' rest at' (ap is_live o.state ∙ l) in
    (
      d'',
      at'',
      record {
        state = o'.state ∙ o.state;
        result = o'.result ∙ o.result;
        error = o'.error ∙ o.error;
      },
    )

-- What a commit of a session that is over is answered, whenever it comes.
pub begin_commit-replies :
    (now : ℕ) (d d' : PushSession)
    → is_live d.state ≡ false
    → SameOutcome d d'
    → (begin_commit now d').0 ≡ replies (commit_result d)
unfolding begin_commit commit_result is_live
begin_commit-replies now d d' l o = ground (arith, o.state, o.result, o.error)

pub commit_result-kept :
    (d d' : PushSession) → SameOutcome d d' → commit_result d' ≡ commit_result d
unfolding commit_result
commit_result-kept d d' o = ground (arith, o.result, o.error)
