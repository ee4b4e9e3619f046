-- ===== src/Sync/Sessions/Handlers/Upload.antt =====
-- src/sync.rs: the handler of an upload. The file is received, checked against the plan and moved
-- into its place while the handler holds the read half of the activity lock.
use vivado_server.Base.{ℕ, ◌≡◌, ap, ◌∙◌, =s=_self, Str, true, Option, arith}
use vivado_server.Base.Maps.{get_elem?-set_self}
use vivado_server.Error.{Result, ok, err}
use vivado_server.Sync.Model.{UploadResponse}
use vivado_server.Sync.Paths.{normalize_sync_path}
use vivado_server.Sync.Plan.{PlannedUpload}
use vivado_server.Sync.Sessions.{PushSession, lists_path, check_upload, check_length, finish_upload}
use vivado_server.Sync.Sessions.Registry.{SyncManager, new_manager, write_session, find_session}
use vivado_server.Sync.Sessions.Handlers.{
  Environment, with_session-some, Run, returns, with_session,
}
use vivado_server.Sync.Sessions.Steps.{
  At, hold_activity, release_activity, Steps, receives, stages, joined, after,
}
use vivado_server.Sync.Sessions.Steps.Slot.{admitted_upload}

abbrev pub upload_response : Str → PlannedUpload → UploadResponse
upload_response path upload = record {
  path = path;
  size_bytes = upload.transfer.size_bytes;
  sha256 = upload.transfer.sha256;
}

module _ (env : Environment) where
  -- The end of an upload, and an upload that fails.
  put_upload :
      ℕ
      → Str
      → PlannedUpload
      → PushSession
      → Result PushSession
      → SyncManager
      → Run UploadResponse × SyncManager
  put_upload h path upload d (ok d') m =
      (returns (ok (upload_response path upload)), write_session h (release_activity path d') m)
  put_upload h path upload d (err error) m =
      (returns (err error), write_session h (release_activity path d) m)

  end_upload :
      ℕ → Str → PlannedUpload → Result (Unit {0}) → SyncManager → Run UploadResponse × SyncManager
  unfolding with_session put_upload
  end_upload h path upload (ok unit) m =
      with_session h m (λ d. put_upload h path upload d (finish_upload path d) m)
  end_upload h path upload (err error) m =
      with_session h m (λ d. put_upload h path upload d (err error) m)

  stage_upload :
      ℕ → Str → PlannedUpload → Result (Unit {0}) → SyncManager → Run UploadResponse × SyncManager
  unfolding end_upload
  stage_upload h path upload (ok unit) m = end_upload h path upload env.received (env.others 9 m)
  stage_upload h path upload (err error) m = end_upload h path upload (err error) m

  admit_upload :
      ℕ
      → Str
      → Option ℕ
      → PushSession
      → Result PlannedUpload
      → SyncManager
      → Run UploadResponse × SyncManager
  unfolding stage_upload
  admit_upload h path length d (err error) m = (returns (err error), m)
  admit_upload h path length d (ok upload) m =
      stage_upload h path upload (check_length length upload.transfer.size_bytes)
        (write_session h (hold_activity path d) m)

  unfoldable pub receive_upload :
      Str → ℕ → Str → Option ℕ → SyncManager → Run UploadResponse × SyncManager
  unfolding with_session admit_upload
  receive_upload project sync_id raw_path length m = elim (normalize_sync_path raw_path) [
    | err error ↦ (returns (err error), m)
    | ok path ↦ elim (find_session sync_id project m) [
      | err error ↦ (returns (err error), m)
      | ok h ↦
          let m1 = env.others 8 m in
          with_session h m1 (λ d. admit_upload h path length d (check_upload m1.now path d) m1)
    ]
  ]

-- What an upload to the session `h` may rely on: the others take steps, and while the file is
-- received, only this task lets go of its hold on the activity lock.
pub record IsUploading (env : Environment) (h : ℕ) (path : Str) : Type 0 where
  pub moves : (n : ℕ) (m : SyncManager) → Steps m (env.others n m)
  pub keeps :
      (m : SyncManager) (d : PushSession)
      → At m h d
      → lists_path path d.receiving ≡ true
      → (d' : PushSession) × At (env.others 9 m) h d' × (lists_path path d'.receiving ≡ true)

module _ (env : Environment) (h : ℕ) (path : Str) (e : IsUploading env h path) where
  entered : (d : PushSession) → lists_path path (hold_activity path d).receiving ≡ true
  entered d = ground (arith, =s=_self path)

  receive_upload-admits :
      (project : Str) (sync_id : ℕ) (raw : Str) (length : Option ℕ) (m : SyncManager)
      (d : PushSession) (upload : PlannedUpload)
      → normalize_sync_path raw ≡ ok path
      → find_session sync_id project m ≡ ok h
      → At (env.others 8 m) h d
      → check_upload (env.others 8 m).now path d ≡ ok upload
      → check_length length upload.transfer.size_bytes ≡ ok tt
      → env.received ≡ ok tt
      → receive_upload env project sync_id raw length m
        ≡ end_upload env h path upload
            (ok tt)
            (env.others 9 (write_session h (hold_activity path d) (env.others 8 m)))
  unfolding receive_upload admit_upload stage_upload
  receive_upload-admits project sync_id raw length m d upload n f at c l r =
      rw (receive_upload, n)
        (rw (f) (
          with_session-some h m1 _ d at
          ∙ ap (λ c. admit_upload env h path length d c m1) c
          ∙ ap (λ l. stage_upload env h path upload l m2) l
          ∙ ap (λ r. end_upload env h path upload r (env.others 9 m2)) r))
    where
      m1 : SyncManager
      m1 = env.others 8 m

      m2 : SyncManager
      m2 = write_session h (hold_activity path d) m1

  end_upload-puts :
      (m : SyncManager) (upload : PlannedUpload) (d d' : PushSession)
      → At m h d
      → finish_upload path d ≡ ok d'
      → end_upload env h path upload (ok tt) m
        ≡ (returns (ok (upload_response path upload)), write_session h (release_activity path d') m)
  unfolding end_upload put_upload
  end_upload-puts m upload d d' at f =
      with_session-some h m _ d at ∙ ap (λ f. put_upload env h path upload d f m) f

  -- An upload, after whatever the tasks did since the start, that the plan asks for, has the planned
  -- length and arrives, is acknowledged: it is not refused in the end. All it does are steps, and its
  -- path is then among the uploaded files.
  pub receive_upload-answers :
      (project : Str) (sync_id : ℕ) (raw : Str) (length : Option ℕ) (m : SyncManager)
      (d : PushSession) (upload : PlannedUpload)
      → Steps new_manager m
      → normalize_sync_path raw ≡ ok path
      → find_session sync_id project m ≡ ok h
      → At (env.others 8 m) h d
      → check_upload (env.others 8 m).now path d ≡ ok upload
      → check_length length upload.transfer.size_bytes ≡ ok tt
      → env.received ≡ ok tt
      → (m' : SyncManager) × (d' : PushSession) × (receive_upload env project sync_id raw length m
          ≡ (returns (ok (upload_response path upload)), m'))
        × Steps m m'
        × At m' h d'
        × (lists_path path d'.uploaded_files ≡ true)
  receive_upload-answers project sync_id raw length m d upload run n f at c l r =
      let m1 = env.others 8 m in
      let m2 = write_session h (hold_activity path d) m1 in
      let m3 = env.others 9 m2 in
      let (d3, at3, r3) =
        e.keeps m2 (hold_activity path d)
          (get_elem?-set_self m1.sessions h (hold_activity path d) at) (entered d) in
      let before = joined (after (e.moves 8 m) (receives m1 h d path upload at c)) (e.moves 9 m2) in
      let (d4, finished, uploaded) = admitted_upload m3 h d3 path (joined run before) at3 r3 in
      (
        write_session h (release_activity path d4) m3,
        release_activity path d4,
        receive_upload-admits project sync_id raw length m d upload n f at c l r
            ∙ end_upload-puts m3 upload d3 d4 at3 finished,
        after before (stages m3 h d3 d4 path at3 r3 finished),
        get_elem?-set_self m3.sessions h (release_activity path d4) at3,
        uploaded,
      )
