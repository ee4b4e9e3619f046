-- ===== src/Sync/Rollback.antt =====
-- src/sync/transaction.rs: the rollback of a transaction, and `settle_transaction` of src/sync.rs.
use vivado_server.Base.{
  ℕ, Str, String, codes, length, if◌then◌else◌, none, some, List, [], ◌∷◌, ◌++◌,
}
use vivado_server.Error.{AppError, about, Result, ok, err, internal, project_reupload_required}
use vivado_server.Sync.Disk.{FilePath, IoResult, done, failed, is_real_dir, Disk}
use vivado_server.Sync.Transaction.{
  AppliedChange, created, replaced, installed, CommitTransaction, failure, Outcome,
}

module _ (disk : Disk) where
  open disk use {State, symlink_metadata, remove_dir, remove_file, rename}

  unfoldable pub remove_created_path : FilePath → State → Result (Unit {0}) × State
  remove_created_path path s =
      let (result, s') = remove_dir path s in
      (
        elim result [
          | done unit ↦ ok tt
          | failed e ↦
              if e.not_found
              then ok tt
              else err (failure "failed to remove created path during rollback: " e)
        ],
        s',
      )

  unfoldable pub cleared : IoResult (Unit {0}) × State → Result (Unit {0}) × State
  cleared (done unit, s) = (ok tt, s)
  cleared (failed e, s) = (err (failure "failed to clear rollback target: " e), s)

  unfoldable pub remove_replacement_target : FilePath → State → Result (Unit {0}) × State
  unfolding cleared
  remove_replacement_target path s = elim (symlink_metadata path s) [
    | done metadata ↦
        cleared (if is_real_dir metadata then remove_dir path s else remove_file path s)
    | failed e ↦
        if e.not_found
        then (ok tt, s)
        else (err (failure "failed to inspect rollback target: " e), s)
  ]

  unfoldable pub restore_to : String → FilePath → FilePath → State → Result (Unit {0}) × State
  restore_to context source target s =
      let (result, s') = rename source target s in
      (elim result [ done unit ↦ ok tt | failed e ↦ err (failure context e) ], s')

  -- One round of the loop in `rollback`.
  unfoldable pub undo : AppliedChange → State → Result (Unit {0}) × State
  unfolding remove_created_path remove_replacement_target restore_to
  undo (created target) s = remove_created_path target s
  undo (replaced target saved) s =
      let (result, s') = remove_replacement_target target s in
      elim result [
        | ok unit ↦ restore_to "failed to restore rollback backup: " saved target s'
        | err e ↦ (err e, s')
      ]
  undo (installed target staged saved) s =
      let (result, s') = restore_to "failed to restore staged upload: " target staged s in
      elim result [
        | err e ↦ (err e, s')
        | ok unit ↦ elim saved [
          | none ↦ (ok tt, s')
          | some path ↦ restore_to "failed to restore replaced path: " path target s'
        ]
      ]

  -- The loop, with the errors met.
  unfoldable pub undo_all : List AppliedChange → List AppError → State → List AppError × State
  unfolding undo
  undo_all [] errors s = (errors, s)
  undo_all (change ∷ rest) errors s =
      let (result, s') = undo change s in
      undo_all rest (elim result [ ok unit ↦ errors | err e ↦ errors ++ (e ∷ []) ]) s'

  module _ (to_string : AppError → Str) (decimal : ℕ → Str) where
    join_errors : List AppError → Str
    join_errors [] = []
    join_errors (e ∷ []) = to_string e
    join_errors (e ∷ next ∷ rest) = to_string e ++ codes "; " ++ join_errors (next ∷ rest)

    unfoldable pub settled_errors : List AppError → Result (Unit {0})
    unfolding join_errors
    settled_errors [] = ok tt
    settled_errors (e ∷ rest) = err (
        internal (
          about "rollback encountered "
            (decimal (length (e ∷ rest)) ++ codes " error(s): " ++ join_errors (e ∷ rest))))

    unfoldable pub rollback : CommitTransaction → State → Outcome disk (Unit {0})
    unfolding settled_errors undo_all
    rollback t s =
        let (errors, s') = undo_all t.changes [] s in
        (settled_errors errors, record t { changes = [] }, s')

    -- `settle_transaction` of src/sync.rs
    unfoldable pub settle_transaction :
        {A : Type 0} → Result A → CommitTransaction → State → Outcome disk A
    unfolding rollback
    settle_transaction (ok value) t s = (ok value, t, s)
    settle_transaction (err error) t s =
        let (rolled, t', s') = rollback t s in
        elim rolled [
          | ok unit ↦ (err error, t', s')
          | err failed_rollback ↦ (
            err (
                project_reupload_required (
                  about "sync failed (" (
                    to_string error
                    ++ codes "); rollback failed ("
                    ++ to_string failed_rollback
                    ++ codes ")"))),
            t',
            s',
          )
        ]
