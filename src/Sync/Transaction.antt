-- ===== src/Sync/Transaction.antt =====
-- src/sync/transaction.rs: the changes of a commit, and their rollback. The disk is a parameter, and
-- an operation is told the UUID that it draws for a backup.
pub mod Undo
pub mod Perform
pub mod Rollback
pub mod Made
pub mod Examples
use vivado_server.Base.{
  ℕ, Str, String, codes, length, if◌then◌else◌, Bool, true, false, Option, none, some, List, [],
  ◌∷◌, ◌++◌,
}
use vivado_server.Error.{
  AppError, Message, text, about, Result, ok, err, conflict, internal, project_reupload_required,
}
use vivado_server.Sync.Disk.{
  FilePath, join_path, IoError, IoResult, done, failed, Metadata, is_real_dir, is_real_file, Disk,
}

-- A created path is always a directory: `CreatedPathKind` has the one value `Dir`.
pub data AppliedChange : Type 0 where
  created : FilePath → AppliedChange
  replaced : FilePath → FilePath → AppliedChange
  installed : FilePath → FilePath → Option FilePath → AppliedChange

-- The changes are a stack, the last on top.
pub record CommitTransaction : Type 0 where
  pub backup_root : FilePath
  pub changes : List AppliedChange

abbrev pub record_change : AppliedChange → CommitTransaction → CommitTransaction
record_change change t = record t { changes = change ∷ t.changes }

abbrev pub pop_change : CommitTransaction → CommitTransaction
pop_change t = record t { changes = elim t.changes [ [] ↦ [] | _ ∷ rest ↦ rest ] }

-- `{context} {path}: {err}` and `{context}: {err}`
abbrev pub failure : String → IoError → AppError
failure context e = internal (about context e.display)

abbrev pub failure_at : String → Str → IoError → AppError
failure_at context path e = internal (about context (path ++ codes ": " ++ e.display))

module _ (disk : Disk) where
  open disk use {
    State, symlink_metadata, read_dir, create_dir, create_dir_all, remove_dir, remove_file, rename,
  }

  -- What an operation comes to: its result, the transaction and the disk.
  abbrev pub Outcome : Type 0 → Type 0
  Outcome A = Result A × CommitTransaction × State

  unfoldable pub new : FilePath → State → Result CommitTransaction × State
  new backup_root s =
      let (result, s') = create_dir_all backup_root s in
      (
        elim result [
          | done unit ↦ ok (record { backup_root = backup_root; changes = [] })
          | failed e ↦ err (failure "failed to create rollback dir: " e)
        ],
        s',
      )

  -- `backup`, which renames the target to a new name below the backup root.
  pub backup : Str → FilePath → CommitTransaction → State → Result FilePath × State
  backup uuid target t s =
      let path = join_path t.backup_root uuid in
      let (result, s') = rename target path s in
      (
        elim result [
          | done unit ↦ ok path
          | failed e ↦ err (failure "failed to stage rollback backup: " e)
        ],
        s',
      )

  -- A backup that is recorded as a replacement.
  pub back_up : {A : Type 0} → A → Str → FilePath → CommitTransaction → State → Outcome A
  unfolding backup
  back_up value uuid target t s =
      let (result, s') = backup uuid target t s in
      elim result [
        | ok path ↦ (ok value, record_change (replaced target path) t, s')
        | err e ↦ (err e, t, s')
      ]

  pub make_dir : FilePath → Str → CommitTransaction → State → Outcome (Unit {0})
  make_dir target path t s =
      let (result, s') = create_dir target s in
      elim result [
        | done unit ↦ (ok tt, record_change (created target) t, s')
        | failed e ↦ (err (failure_at "failed to create dir " path e), t, s')
      ]

  -- `CommitTransaction::create_dir`
  unfoldable pub create_missing_dir :
      FilePath → Str → CommitTransaction → State → Outcome (Unit {0})
  unfolding make_dir
  create_missing_dir target path t s = elim (symlink_metadata target s) [
    | done metadata ↦
        if is_real_dir metadata
        then (ok tt, t, s)
        else (err (conflict (about "target is not a directory: " path)), t, s)
    | failed e ↦
        if e.not_found
        then make_dir target path t s
        else (err (failure "failed to inspect directory target: " e), t, s)
  ]

  -- The rename of the staged path to a target that is free: after a backup, or from the start.
  pub put :
      (IoError → AppError)
      → FilePath
      → FilePath
      → Option FilePath
      → CommitTransaction
      → State
      → Outcome (Unit {0})
  put error staged target saved t s =
      let (result, s') = rename staged target s in
      elim result [
        | done unit ↦ (
          ok tt,
          record_change (installed target staged saved)
              (elim saved [ none ↦ t | some _ ↦ pop_change t ]),
          s',
        )
        | failed e ↦ (err (error e), t, s')
      ]

  -- The target is moved away first, and recorded, so that a failed rename can be undone.
  pub swap_in :
      (IoError → AppError)
      → Str
      → FilePath
      → FilePath
      → CommitTransaction
      → State
      → Outcome (Unit {0})
  unfolding backup put
  swap_in error uuid staged target t s =
      let (result, s') = backup uuid target t s in
      elim result [
        | err e ↦ (err e, t, s')
        | ok path ↦ put error staged target (some path) (record_change (replaced target path) t) s'
      ]

  unfoldable pub install_file :
      Str → FilePath → FilePath → Str → CommitTransaction → State → Outcome (Unit {0})
  unfolding swap_in put
  install_file uuid staged target path t s =
      let error = λ (e : IoError). failure_at "failed to commit staged file " path e in
      elim (symlink_metadata target s) [
        | done metadata ↦
            if is_real_file metadata
            then swap_in error uuid staged target t s
            else (err (conflict (about "target is not a regular file: " path)), t, s)
        | failed e ↦
            if e.not_found
            then put error staged target none t s
            else (err (failure "failed to inspect file target: " e), t, s)
      ]

  unfoldable pub replace_project :
      Str → FilePath → FilePath → CommitTransaction → State → Outcome (Unit {0})
  unfolding swap_in put
  replace_project uuid staged target t s =
      let error = λ (e : IoError). failure "failed to install rebuilt project: " e in
      elim (symlink_metadata target s) [
        | done metadata ↦
            if is_real_dir metadata
            then swap_in error uuid staged target t s
            else (err (conflict (text "project target is not a directory")), t, s)
        | failed e ↦
            if e.not_found
            then put error staged target none t s
            else (err (failure "failed to inspect project target: " e), t, s)
      ]

  unfoldable pub delete_file : Str → FilePath → Str → CommitTransaction → State → Outcome Bool
  unfolding back_up
  delete_file uuid target path t s = elim (symlink_metadata target s) [
    | done metadata ↦
        if is_real_file metadata
        then back_up true uuid target t s
        else (err (conflict (about "file target changed type during commit: " path)), t, s)
    | failed e ↦
        if e.not_found
        then (ok false, t, s)
        else (err (failure "failed to inspect file for deletion: " e), t, s)
  ]

  -- Only an empty directory is moved away.
  pub delete_listed :
      IoResult (List (IoResult Str))
      → Str
      → FilePath
      → Str
      → CommitTransaction
      → State
      → Outcome Bool
  unfolding back_up
  delete_listed (failed e) uuid target path t s =
      (err (failure_at "failed to read dir " path e), t, s)
  delete_listed (done (failed e ∷ rest)) uuid target path t s =
      (err (failure_at "failed to read dir " path e), t, s)
  delete_listed (done (done entry ∷ rest)) uuid target path t s =
      (err (conflict (about "directory contains entries outside the sync plan: " path)), t, s)
  delete_listed (done []) uuid target path t s = back_up true uuid target t s

  unfoldable pub delete_empty_dir : Str → FilePath → Str → CommitTransaction → State → Outcome Bool
  unfolding delete_listed
  delete_empty_dir uuid target path t s = elim (symlink_metadata target s) [
    | done metadata ↦
        if is_real_dir metadata
        then delete_listed (read_dir target s) uuid target path t s
        else (err (conflict (about "directory target changed type during commit: " path)), t, s)
    | failed e ↦
        if e.not_found
        then (ok false, t, s)
        else (err (failure "failed to inspect directory for deletion: " e), t, s)
  ]
