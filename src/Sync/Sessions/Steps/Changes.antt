-- ===== src/Sync/Sessions/Steps/Changes.antt =====
-- src/sync.rs: each section, and the rules of the session that it changes.
use vivado_server.Base.{ℕ, ◌≡◌, ◌⊎◌, refl, if◌then◌else◌, Str, Bool, true, false, some, [], arith}
use vivado_server.Error.{Result, ok, err}
use vivado_server.Sync.Model.{
  CommitSyncResponse, SyncSessionStatus, opened, committing, committed, aborted, expired, failed,
}
use vivado_server.Sync.Plan.{PlannedUpload}
use vivado_server.Sync.Sessions.{
  CommitPlan, PushSession, is_live, is_opened, is_missing, ensure_open, check_upload, finish_upload,
  begin_commit, conclude_commit, close_session, note_cleanup, release_plan,
}
use vivado_server.Sync.Sessions.Registry.{new_session}
use vivado_server.Sync.Sessions.Steps.{hold_activity, release_activity}
use vivado_server.Sync.Sessions.Steps.Rules.{IsSession}

is_opened-state : (s : SyncSessionStatus) → is_opened s ≡ true → s ≡ opened
unfolding is_opened
is_opened-state s h = ground arith

pub check_upload-opened :
    (now : ℕ) (path : Str) (d : PushSession) {u : PlannedUpload}
    → check_upload now path d ≡ ok u
    → d.state ≡ opened
unfolding check_upload ensure_open is_opened
check_upload-opened now path d h = is_opened-state d.state (ground (arith, h))

pub hold_activity-IsSession :
    (path : Str) (d : PushSession)
    → d.state ≡ opened
    → IsSession d
    → IsSession (hold_activity path d)
unfolding is_missing
hold_activity-IsSession path d o i = ground arith

pub release_activity-IsSession :
    (path : Str) (d : PushSession) → IsSession d → IsSession (release_activity path d)
unfolding is_missing
release_activity-IsSession path d i = ground (arith, i.receives)

pub finish_upload-IsSession :
    (path : Str) (d d' : PushSession) → finish_upload path d ≡ ok d' → IsSession d → IsSession d'
unfolding finish_upload ensure_open is_opened
finish_upload-IsSession path d d' h i = ground arith

pub begin_commit-IsSession :
    (now : ℕ) (d : PushSession) → d.receiving ≡ [] → IsSession d → IsSession (begin_commit now d).1
unfolding begin_commit is_live
begin_commit-IsSession now d r i = ground arith

pub conclude_commit-IsSession :
    (now : ℕ) (result : Result CommitSyncResponse) (d : PushSession)
    → d.state ≡ committing
    → IsSession d
    → IsSession (conclude_commit now result d)
unfolding conclude_commit is_live release_plan
conclude_commit-IsSession now (ok r) d c i = ground arith
conclude_commit-IsSession now (err e) d c i = ground arith

closed-IsSession :
    (now : ℕ) (terminal : SyncSessionStatus) (d : PushSession)
    → d.receiving ≡ []
    → (terminal ≡ aborted) ⊎ (terminal ≡ expired)
    → IsSession d
    → IsSession (
        release_plan
          (record d { state = terminal; finished_at = some now; cleanup_pending = true }))
unfolding is_live release_plan
closed-IsSession now aborted d r t i = ground arith
closed-IsSession now expired d r t i = ground arith
closed-IsSession now opened d r t i = ground arith
closed-IsSession now committing d r t i = ground arith
closed-IsSession now committed d r t i = ground arith
closed-IsSession now failed d r t i = ground arith

if-IsSession :
    (b : Bool) (d d' : PushSession) → IsSession d → IsSession d' → IsSession (if b then d else d')
if-IsSession true d d' i i' = i
if-IsSession false d d' i i' = i'

pub close_session-IsSession :
    (now : ℕ) (terminal : SyncSessionStatus) (d : PushSession)
    → d.receiving ≡ []
    → (terminal ≡ aborted) ⊎ (terminal ≡ expired)
    → IsSession d
    → IsSession (close_session now terminal d)
unfolding close_session
close_session-IsSession now terminal d r t i =
    if-IsSession (is_opened d.state) _ d (closed-IsSession now terminal d r t i) i

pub cleaning-IsSession :
    (d : PushSession)
    → d.cleanup_pending ≡ true
    → IsSession d
    → IsSession (record d { cleaning = true })
unfolding is_missing
cleaning-IsSession d p i = ground arith

pub note_cleanup-IsSession :
    (result : Result (Unit {0})) (d : PushSession)
    → d.cleaning ≡ true
    → IsSession d
    → IsSession (record (note_cleanup result d) { cleaning = false })
unfolding note_cleanup is_missing
note_cleanup-IsSession (ok unit) d c i = ground arith
note_cleanup-IsSession (err e) d c i = ground arith

pub new_session-IsSession :
    (sync_id deadline : ℕ) (project : Str) (plan : CommitPlan)
    → IsSession (new_session sync_id project plan deadline)
unfolding is_live
new_session-IsSession sync_id deadline project plan = ground arith

-- What a section leaves of the permit and of the failures.
pub finish_upload-same :
    (path : Str) (d d' : PushSession)
    → finish_upload path d ≡ ok d'
    → (d'.active_permit ≡ d.active_permit) × (d'.cleanup_failures ≡ d.cleanup_failures)
unfolding finish_upload ensure_open
finish_upload-same path d d' e = ground arith

pub begin_commit-same :
    (now : ℕ) (d : PushSession)
    → ((begin_commit now d).1.active_permit ≡ d.active_permit)
      × ((begin_commit now d).1.cleanup_failures ≡ d.cleanup_failures)
unfolding begin_commit
begin_commit-same now d = ground arith

pub conclude_commit-releases :
    (now : ℕ) (result : Result CommitSyncResponse) (d : PushSession)
    → ((conclude_commit now result d).active_permit ≡ false)
      × ((conclude_commit now result d).cleanup_failures ≡ d.cleanup_failures)
unfolding conclude_commit release_plan
conclude_commit-releases now (ok response) d = (refl, refl)
conclude_commit-releases now (err error) d = (refl, refl)

pub close_session-releases :
    (now : ℕ) (terminal : SyncSessionStatus) (d : PushSession)
    → (((close_session now terminal d).active_permit ≡ false)
        ⊎ ((close_session now terminal d).active_permit ≡ d.active_permit))
      × ((close_session now terminal d).cleanup_failures ≡ d.cleanup_failures)
unfolding close_session release_plan
close_session-releases now terminal d = ground arith

pub note_cleanup-same :
    (result : Result (Unit {0})) (d : PushSession)
    → (note_cleanup result d).active_permit ≡ d.active_permit
unfolding note_cleanup
note_cleanup-same (ok unit) d = refl
note_cleanup-same (err error) d = refl
