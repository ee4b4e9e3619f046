-- ===== src/Sync/Model.antt =====
-- src/sync/model.rs: the records of the synchronisation protocol. A modification time is an `i64`,
-- which is only ever compared and passed on; it is kept as its bit pattern.
use vivado_server.Base.{ℕ, Str, Bool, Option, List}
use vivado_server.Error.{AppError}

pub data ManifestEntryKind : Type 0 where
  file dir : ManifestEntryKind

pub record ManifestEntry : Type 0 where
  pub path : Str
  pub kind : ManifestEntryKind
  pub size_bytes : Option ℕ
  pub mtime_unix_ms : Option ℕ
  pub sha256 : Option Str
  pub executable : Bool

pub record PushPlanRequest : Type 0 where
  pub entries : List ManifestEntry
  pub delete_extra : Bool
  pub include_globs : List Str
  pub exclude_globs : List Str

pub record FileTransfer : Type 0 where
  pub path : Str
  pub size_bytes : ℕ
  pub mtime_unix_ms : ℕ
  pub sha256 : Str
  pub executable : Bool

pub record PushPlanResponse : Type 0 where
  pub sync_id : ℕ
  pub upload_files : List FileTransfer
  pub create_dirs : List Str
  pub delete_files : List Str
  pub delete_dirs : List Str
  pub expires_at : ℕ

pub record UploadResponse : Type 0 where
  pub path : Str
  pub size_bytes : ℕ
  pub sha256 : Str

pub record CommitSyncResponse : Type 0 where
  pub sync_id : ℕ
  pub uploaded_files : List Str
  pub created_dirs : List Str
  pub deleted_files : List Str
  pub deleted_dirs : List Str

pub data SyncSessionStatus : Type 0 where
  opened committing committed aborted expired failed : SyncSessionStatus

pub record SyncStatusResponse : Type 0 where
  pub sync_id : ℕ
  pub project : Str
  pub status : SyncSessionStatus
  pub cleanup_pending : Bool
  pub result : Option CommitSyncResponse
  pub error : Option AppError
