-- ===== src/Sync/Sessions/Registry.antt =====
-- src/sync.rs: the manager of the sessions. A session is an object that entries of the map point to
-- by an index (an `Arc`); the slot is a semaphore with one permit.
use vivado_server.Base.{
  ℕ, zero, suc, ◌+◌, ◌-◌, leb, ltb, ◌==◌, ◌=s=◌, if◌then◌else◌, length, Str, Bool, true, false,
  ◌&&◌, ◌||◌, not, Option, none, some, List, [], ◌∷◌, ◌++◌,
}
use vivado_server.Base.Maps.{lookup, insert, remove, get_elem?, set}
use vivado_server.Error.{Result, ok, err, text, conflict, not_found, ◌>>◌, guard}
use vivado_server.Sync.Model.{opened, committing, committed, aborted, expired, failed}
use vivado_server.Sync.Order.{sort_by}
use vivado_server.Sync.Sessions.{CommitPlan, PushSession, is_live, note_cleanup}

-- `creating` says that a plan that is being made holds the permit.
pub record SyncManager : Type 0 where
  pub now : ℕ
  pub sessions : List PushSession
  pub entries : List (ℕ × ℕ)
  pub permits : ℕ
  pub creating : Bool
  pub cleanup_degraded : ℕ

abbrev pub new_manager : SyncManager
new_manager = record {
  now = 0;
  sessions = [];
  entries = [];
  permits = 1;
  creating = false;
  cleanup_degraded = 0;
}

of_project : Str → ℕ → Option PushSession → Result ℕ
of_project project h none = err (not_found (text "sync session not found"))
of_project project h (some d) =
    guard (d.project =s= project) (not_found (text "sync session not found")) >> ok h

-- `SyncManager::session`
unfoldable pub find_session : ℕ → Str → SyncManager → Result ℕ
unfolding of_project
find_session sync_id project m = elim (lookup sync_id m.entries) [
  | none ↦ err (not_found (text "sync session not found"))
  | some h ↦ of_project project h (get_elem? m.sessions h)
]

-- A write to a session.
abbrev pub write_session : ℕ → PushSession → SyncManager → SyncManager
write_session h d m = record m { sessions = set m.sessions h d }

-- The permit that a session gives back.
abbrev pub count_of : Bool → ℕ
count_of flag = if flag then 1 else 0

-- A session lets go of its plan, and of the permit if it still has it.
unfoldable pub finish_session : ℕ → PushSession → PushSession → SyncManager → SyncManager
finish_session h old new m = record (write_session h new m) {
  permits = m.permits + (count_of old.active_permit - count_of new.active_permit);
}

-- `create_plan`: the slot, which an error gives back.
unfoldable pub reserve_slot : SyncManager → Result SyncManager
reserve_slot m =
    guard (ltb 0 m.permits) (conflict (text "an open sync plan already exists"))
    >> ok (record m { permits = m.permits - 1; creating = true })

unfoldable pub drop_slot : SyncManager → SyncManager
drop_slot m = record m { permits = m.permits + 1; creating = false }

abbrev pub new_session : ℕ → Str → CommitPlan → ℕ → PushSession
new_session sync_id project plan deadline = record {
  sync_id = sync_id;
  state = opened;
  project = project;
  plan = plan;
  expires_deadline = deadline;
  finished_at = none;
  uploaded_files = [];
  result = none;
  error = none;
  cleanup_pending = false;
  cleanup_failures = 0;
  active_permit = true;
  receiving = [];
  cleaning = false;
}

-- `create_plan`, once the plan is made: the session takes the permit over.
unfoldable pub register_plan : ℕ → Str → CommitPlan → ℕ → SyncManager → SyncManager
register_plan sync_id project plan ttl m = record m {
  sessions = m.sessions ++ (new_session sync_id project plan (m.now + ttl) ∷ []);
  entries = insert sync_id (length m.sessions) m.entries;
  creating = false;
}

-- `cleanup_session`, once the removal of the staging directory has ended: what failed is counted
-- among the degraded sessions as long as it fails.
counted_after : Result (Unit {0}) → PushSession → ℕ → ℕ
counted_after (ok unit) d degraded = if ltb 0 d.cleanup_failures then degraded - 1 else degraded
counted_after (err error) d degraded = if d.cleanup_failures == 0 then degraded + 1 else degraded

unfoldable pub settle_cleanup : ℕ → Result (Unit {0}) → PushSession → SyncManager → SyncManager
unfolding counted_after note_cleanup
settle_cleanup h result d m =
    record (write_session h (record (note_cleanup result d) { cleaning = false }) m) {
      cleanup_degraded = counted_after result d m.cleanup_degraded;
    }

-- A session that is over and has nothing left to clean up, with the instant at which it ended.
unfoldable pub finished_of : Option PushSession → Option ℕ
finished_of none = none
finished_of (some d) =
    if not d.cleanup_pending && not (is_live d.state) then d.finished_at else none

finished_list : List PushSession → List (ℕ × ℕ) → List (ℕ × ℕ)
finished_list sessions [] = []
finished_list sessions ((id, h) ∷ entries) =
    let rest = finished_list sessions entries in
    elim (finished_of (get_elem? sessions h)) [ none ↦ rest | some at ↦ (id, at) ∷ rest ]

earlier : (ℕ × ℕ) → (ℕ × ℕ) → Bool
earlier (i, s) (j, t) = ltb s t || (s == t && ltb i j)

-- The first `excess` sessions go, and those that have been over for the retention time.
drop_results : ℕ → ℕ → ℕ → List (ℕ × ℕ) → List (ℕ × ℕ) → List (ℕ × ℕ)
drop_results excess retention now [] entries = entries
drop_results zero retention now ((id, at) ∷ rest) entries =
    drop_results zero retention now rest
      (if leb retention (now - at) then remove id entries else entries)
drop_results (suc excess) retention now ((id, at) ∷ rest) entries =
    drop_results excess retention now rest (remove id entries)

unfoldable pub prune_results : ℕ → ℕ → SyncManager → SyncManager
unfolding finished_list earlier drop_results
prune_results most retention m =
    let finished = sort_by earlier (finished_list m.sessions m.entries) in
    record m { entries = drop_results (length finished - most) retention m.now finished m.entries }

-- What `reap` does with a session.
pub data Reaping : Type 0 where
  expires cleans skips : Reaping

unfoldable pub reaping : ℕ → PushSession → Reaping
reaping now d = elim d.state [
  | opened ↦ if leb d.expires_deadline now then expires else skips
  | committing ↦ skips
  | committed ↦ cleans
  | aborted ↦ cleans
  | expired ↦ cleans
  | failed ↦ cleans
]

-- The part of `is_degraded` that is about the clean-up.
unfoldable pub is_cleanup_degraded : SyncManager → Bool
is_cleanup_degraded m = ltb 0 m.cleanup_degraded
