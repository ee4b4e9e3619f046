-- ===== src/Sync/Sessions/Steps.antt =====
-- src/sync.rs: the steps of the tasks that work on plans, each a section under locks. An upload holds
-- the read half of the activity lock from its admission on; a commit starts, and a plan is closed,
-- under the write half; one plan is made at a time.
pub mod Count
pub mod Rules
pub mod Changes
pub mod Invariant
pub mod Slot
pub mod Settled
use vivado_server.Base.{
  ℕ, ◌+◌, ◌≤◌, ◌≡◌, ◌⊎◌, ◌=s=◌, if◌then◌else◌, Str, Bool, true, false, Option, some, List, [], ◌∷◌,
}
use vivado_server.Base.Maps.{get_elem?}
use vivado_server.Error.{Result, ok}
use vivado_server.Sync.Model.{CommitSyncResponse, SyncSessionStatus, committing, aborted, expired}
use vivado_server.Sync.Plan.{PlannedUpload}
use vivado_server.Sync.Sessions.{
  CommitPlan, PushSession, is_live, lists_path, check_upload, finish_upload, begin_commit,
  conclude_commit, close_session,
}
use vivado_server.Sync.Sessions.Registry.{
  SyncManager, write_session, finish_session, reserve_slot, drop_slot, register_plan,
  settle_cleanup, prune_results,
}

abbrev pub At : SyncManager → ℕ → PushSession → Type 0
At m h d = get_elem? m.sessions h ≡ some d

-- An upload enters, and one of them leaves.
abbrev pub hold_activity : Str → PushSession → PushSession
hold_activity path d = record d { receiving = path ∷ d.receiving }

abbrev pub drop_first : Str → List Str → List Str
drop_first path [] = []
drop_first path (p ∷ rest) =
    let others = drop_first path rest in if p =s= path then rest else p ∷ others

abbrev pub release_activity : Str → PushSession → PushSession
release_activity path d = record d { receiving = drop_first path d.receiving }

pub data Step : SyncManager → SyncManager → Type 0 where
  reserves : (m m' : SyncManager) → m.creating ≡ false → reserve_slot m ≡ ok m' → Step m m'
  drops : (m : SyncManager) → m.creating ≡ true → Step m (drop_slot m)
  registers :
      (m : SyncManager) (sync_id ttl : ℕ) (project : Str) (plan : CommitPlan)
      → m.creating ≡ true
      → Step m (register_plan sync_id project plan ttl m)
  receives :
      (m : SyncManager) (h : ℕ) (d : PushSession) (path : Str) (upload : PlannedUpload)
      → At m h d
      → check_upload m.now path d ≡ ok upload
      → Step m (write_session h (hold_activity path d) m)
  stages :
      (m : SyncManager) (h : ℕ) (d d' : PushSession) (path : Str)
      → At m h d
      → lists_path path d.receiving ≡ true
      → finish_upload path d ≡ ok d'
      → Step m (write_session h (release_activity path d') m)
  leaves :
      (m : SyncManager) (h : ℕ) (d : PushSession) (path : Str)
      → At m h d
      → Step m (write_session h (release_activity path d) m)
  begins :
      (m : SyncManager) (h : ℕ) (d : PushSession)
      → At m h d
      → d.receiving ≡ []
      → Step m (write_session h (begin_commit m.now d).1 m)
  settles :
      (m : SyncManager) (h : ℕ) (d : PushSession) (result : Result CommitSyncResponse)
      → At m h d
      → d.state ≡ committing
      → Step m (finish_session h d (conclude_commit m.now result d) m)
  closes :
      (m : SyncManager) (h : ℕ) (d : PushSession) (terminal : SyncSessionStatus)
      → At m h d
      → d.receiving ≡ []
      → (terminal ≡ aborted) ⊎ (terminal ≡ expired)
      → Step m (finish_session h d (close_session m.now terminal d) m)
  takes :
      (m : SyncManager) (h : ℕ) (d : PushSession)
      → At m h d
      → d.cleaning ≡ false
      → d.cleanup_pending ≡ true
      → Step m (write_session h (record d { cleaning = true }) m)
  cleans :
      (m : SyncManager) (h : ℕ) (d : PushSession) (result : Result (Unit {0}))
      → At m h d
      → d.cleaning ≡ true
      → Step m (settle_cleanup h result d m)
  prunes : (m : SyncManager) (most retention : ℕ) → Step m (prune_results most retention m)
  ticks : (m : SyncManager) (elapsed : ℕ) → Step m (record m { now = m.now + elapsed })

pub data Steps : SyncManager → SyncManager → Type 0 where
  stays : (m : SyncManager) → Steps m m
  follows : (m m' m'' : SyncManager) → Step m m' → Steps m' m'' → Steps m m''

-- Two runs, one after the other, and a further step.
pub joined : {m m' m'' : SyncManager} → Steps m m' → Steps m' m'' → Steps m m''
joined (stays m) t = t
joined (follows m m' m'' s rest) t = follows _ _ _ s (joined rest t)

pub after : {m m' m'' : SyncManager} → Steps m m' → Step m' m'' → Steps m m''
after s t = joined s (follows _ _ _ t (stays _))
