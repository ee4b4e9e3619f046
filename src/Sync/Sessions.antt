-- ===== src/Sync/Sessions.antt =====
-- src/sync.rs: the accepted plans. This file holds what is done to a session while its data is locked.
-- The project's directory and the staging directory of a plan follow from the project and the ID.
pub mod Registry
pub mod Steps
pub mod Handlers
pub mod Examples
use vivado_server.Base.{
  ℕ, ◌+◌, ◌-◌, ◌^◌, Str, ◌=s=◌, leb, ltb, ◌==◌, if◌then◌else◌, any, min, Bool, true, false, ◌&&◌,
  ◌||◌, not, Option, none, some, List, [], ◌∷◌, map,
}
use vivado_server.Error.{
  AppError, Result, ok, err, text, bad_request, conflict, not_found, payload_too_large, ◌>>=◌, ◌>>◌,
  guard,
}
use vivado_server.Sync.Model.{
  ManifestEntry, CommitSyncResponse, SyncSessionStatus, opened, committing, committed, aborted,
  expired, failed, SyncStatusResponse,
}
use vivado_server.Sync.Plan.{Plan, PlannedUpload, no_changes}

pub record CommitPlan : Type 0 where
  pub reset : Bool
  pub changes : Plan
  pub baseline : List ManifestEntry

-- `receiving` are the uploads that hold the read half of the session's activity lock, each with the
-- path that it was admitted for; `cleaning` says that the session's cleanup lock is held.
pub record PushSession : Type 0 where
  pub sync_id : ℕ
  pub state : SyncSessionStatus
  pub project : Str
  pub plan : CommitPlan
  pub expires_deadline : ℕ
  pub finished_at : Option ℕ
  pub uploaded_files : List Str
  pub result : Option CommitSyncResponse
  pub error : Option AppError
  pub cleanup_pending : Bool
  pub cleanup_failures : ℕ
  pub active_permit : Bool
  pub receiving : List Str
  pub cleaning : Bool

-- Open or committing.
unfoldable pub is_live : SyncSessionStatus → Bool
is_live opened = true
is_live committing = true
is_live committed = false
is_live aborted = false
is_live expired = false
is_live failed = false

unfoldable pub is_opened : SyncSessionStatus → Bool
is_opened opened = true
is_opened committing = false
is_opened committed = false
is_opened aborted = false
is_opened expired = false
is_opened failed = false

-- The diagnostic that names the state.
abbrev pub session_is : SyncSessionStatus → AppError
session_is opened = conflict (text "sync session is Open")
session_is committing = conflict (text "sync session is Committing")
session_is committed = conflict (text "sync session is Committed")
session_is aborted = conflict (text "sync session is Aborted")
session_is expired = conflict (text "sync session is Expired")
session_is failed = conflict (text "sync session is Failed")

unfoldable pub ensure_open : PushSession → Result (Unit {0})
unfolding is_opened
ensure_open d = guard (is_opened d.state) (session_is d.state)

error_or : Option AppError → AppError → AppError
error_or none other = other
error_or (some error) other = error

unfoldable pub commit_result : PushSession → Result CommitSyncResponse
unfolding error_or
commit_result d = elim d.result [
  | some result ↦ ok result
  | none ↦ err (error_or d.error (session_is d.state))
]

-- The permit goes back to the slot (see Registry).
unfoldable pub release_plan : PushSession → PushSession
release_plan d = record d {
  plan = record d.plan { changes = no_changes; baseline = [] };
  uploaded_files = [];
  active_permit = false;
}

abbrev pub lists_path : Str → List Str → Bool
lists_path path paths = any (λ p. p =s= path) paths

unfoldable pub find_upload : Str → List PlannedUpload → Option PlannedUpload
find_upload path [] = none
find_upload path (upload ∷ rest) =
    if upload.entry.path =s= path then some upload else find_upload path rest

upload_of : Option PlannedUpload → Result PlannedUpload
upload_of none = err (bad_request (text "file was not requested by the push plan"))
upload_of (some upload) = ok upload

-- `receive_upload`, before the body is read.
unfoldable pub check_upload : ℕ → Str → PushSession → Result PlannedUpload
unfolding ensure_open find_upload upload_of
check_upload now path d =
    ensure_open d
    >> (guard (ltb now d.expires_deadline) (not_found (text "sync session expired"))
        >> upload_of (find_upload path d.plan.changes.files))

unfoldable pub check_length : Option ℕ → ℕ → Result (Unit {0})
check_length none size = ok tt
check_length (some length) size =
    guard (leb length size) payload_too_large
    >> guard (length == size) (bad_request (text "Content-Length does not match plan"))

-- `receive_upload`, once the file is in its place.
unfoldable pub finish_upload : Str → PushSession → Result PushSession
unfolding ensure_open
finish_upload path d =
    ensure_open d
    >> ok (record d {
      uploaded_files =
          if lists_path path d.uploaded_files then d.uploaded_files else path ∷ d.uploaded_files;
    })

-- How a commit goes on: with the plan, by waiting for the commit that runs, by expiring the session,
-- or with an answer.
pub data CommitStart : Type 0 where
  started : CommitPlan → CommitStart
  awaits expires : CommitStart
  replies : Result CommitSyncResponse → CommitStart

-- A planned file has not been uploaded.
unfoldable pub is_missing : PushSession → Bool
is_missing d =
    any (λ upload. not (lists_path upload.entry.path d.uploaded_files)) d.plan.changes.files

unfoldable pub begin_commit : ℕ → PushSession → CommitStart × PushSession
unfolding is_missing commit_result
begin_commit now d = elim d.state [
  | committing ↦ (awaits, d)
  | opened ↦
      if leb d.expires_deadline now
      then (expires, d)
      else if is_missing d
      then (replies (err (conflict (text "planned uploads are missing"))), d)
      else (started d.plan, record d { state = committing })
  | committed ↦ (replies (commit_result d), d)
  | aborted ↦ (replies (commit_result d), d)
  | expired ↦ (replies (commit_result d), d)
  | failed ↦ (replies (commit_result d), d)
]

noted : Result CommitSyncResponse → PushSession → PushSession
noted (ok response) d = record d { state = committed; result = some response }
noted (err error) d = record d { state = failed; error = some error }

-- `commit_session`, once the commit has been applied or has failed.
unfoldable pub conclude_commit : ℕ → Result CommitSyncResponse → PushSession → PushSession
unfolding noted release_plan
conclude_commit now result d =
    release_plan (record (noted result d) { finished_at = some now; cleanup_pending = true })

-- `abort_session_inner`, which waits while the session is committing.
unfoldable pub close_session : ℕ → SyncSessionStatus → PushSession → PushSession
unfolding is_opened release_plan
close_session now terminal d =
    if is_opened d.state
    then release_plan
        (record d { state = terminal; finished_at = some now; cleanup_pending = true })
    else d

-- `cleanup_session`, with what became of the staging directory. The counter of failures is a `u64`.
unfoldable pub note_cleanup : Result (Unit {0}) → PushSession → PushSession
note_cleanup (ok unit) d = record d { cleanup_pending = false; cleanup_failures = 0 }
note_cleanup (err error) d = record d {
  cleanup_failures = min (d.cleanup_failures + 1) (2 ^ 64 - 1);
}

unfoldable pub sync_status : PushSession → SyncStatusResponse
sync_status d = record {
  sync_id = d.sync_id;
  project = d.project;
  status = d.state;
  cleanup_pending = d.cleanup_pending;
  result = d.result;
  error = d.error;
}
