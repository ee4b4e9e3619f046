-- ===== src/Sync/Transaction/Perform.antt =====
-- src/sync/transaction.rs: what an operation adds to the transaction, whatever its result is.
use vivado_server.Base.{
  ◌≡◌, refl, subst, sym, ◌⊎◌, inl, inr, Str, if◌then◌else◌, Bool, true, false, Bool-cases, none,
  some, List, [], ◌∷◌, arith,
}
use vivado_server.Error.{AppError, Result, ok, err}
use vivado_server.Sync.Disk.{
  FilePath, join_path, IoError, IoResult, done, failed, Metadata, is_real_dir, is_real_file, Disk,
  Missing, IsReversible,
}
use vivado_server.Sync.Transaction.{
  AppliedChange, created, replaced, installed, CommitTransaction, record_change, back_up, make_dir,
  create_missing_dir, put, swap_in, install_file, replace_project, delete_file, delete_listed,
  delete_empty_dir,
}
use vivado_server.Sync.Transaction.Undo.{
  call_cases, look_cases, Undoes, created-Undoes, replaced-Undoes, put-Undoes, swapped-Undoes,
}

-- A call of an operation, with the UUID that it draws.
pub data Operation : Type 0 where
  create_dir : FilePath → Str → Operation
  install : Str → FilePath → FilePath → Str → Operation
  replace : Str → FilePath → FilePath → Operation
  delete : Str → FilePath → Str → Operation
  delete_dir : Str → FilePath → Str → Operation

module _ (disk : Disk) where
  open disk use {State, symlink_metadata, read_dir, remove_dir, rename}

  -- The transaction and the disk after an operation, whatever its result is.
  unfoldable pub perform : Operation → CommitTransaction → State → CommitTransaction × State
  perform (create_dir target path) t s =
      let (result, t', s') = create_missing_dir disk target path t s in (t', s')
  perform (install uuid staged target path) t s =
      let (result, t', s') = install_file disk uuid staged target path t s in (t', s')
  perform (replace uuid staged target) t s =
      let (result, t', s') = replace_project disk uuid staged target t s in (t', s')
  perform (delete uuid target path) t s =
      let (result, t', s') = delete_file disk uuid target path t s in (t', s')
  perform (delete_dir uuid target path) t s =
      let (result, t', s') = delete_empty_dir disk uuid target path t s in (t', s')

  -- The UUID is a new one: nothing stands where the backup goes.
  abbrev pub IsFresh : Operation → CommitTransaction → State → Type 0
  IsFresh (create_dir target path) t s = Unit {0}
  IsFresh (install uuid staged target path) t s = Missing disk (join_path t.backup_root uuid) s
  IsFresh (replace uuid staged target) t s = Missing disk (join_path t.backup_root uuid) s
  IsFresh (delete uuid target path) t s = Missing disk (join_path t.backup_root uuid) s
  IsFresh (delete_dir uuid target path) t s = Missing disk (join_path t.backup_root uuid) s

  -- An operation has left everything, or it has recorded a change that undoes what it did.
  abbrev pub Extends : CommitTransaction → State → CommitTransaction → State → Type 0
  Extends t s t' s' =
      ((t'.changes ≡ t.changes) × (s' ≡ s))
      ⊎ ((change : AppliedChange) × (t'.changes ≡ change ∷ t.changes) × Undoes disk change s' s)

  module _ (laws : IsReversible disk) where
    open laws use {
      create_failed, rename_failed, rename_leaves, rename_back, create_there, create_back,
    }

    by_outcome :
        {A : Type 0} (t : CommitTransaction) (s : State) (t' : CommitTransaction) (s' : State)
        (outcome : Result A × CommitTransaction × State)
        → outcome.1 ≡ t'
        → outcome.2 ≡ s'
        → Extends t s t' s'
        → Extends t s outcome.1 outcome.2
    by_outcome t s t' s' outcome same_t same_s h =
        subst (λ x. Extends t s x outcome.2) (sym same_t)
          (subst (λ x. Extends t s t' x) (sym same_s) h)

    back_up-Extends :
        {A : Type 0} (value : A) (uuid : Str) (target : FilePath) (t : CommitTransaction)
        (s : State)
        → Missing disk (join_path t.backup_root uuid) s
        → let outcome = back_up disk value uuid target t s in Extends t s outcome.1 outcome.2
    unfolding back_up
    back_up-Extends value uuid target t s free =
        let path = join_path t.backup_root uuid in
        let outcome = back_up disk value uuid target t s in
        elim (call_cases (rename target path s)) [
          | inl (s', e) ↦
              by_outcome t s (record_change (replaced target path) t) s' outcome (ground (arith, e))
                (ground (arith, e))
                (inr
                  (replaced target path, refl, replaced-Undoes disk laws target path s s' free e))
          | inr (x, s', e) ↦
              by_outcome t s t s' outcome (ground (arith, e)) (ground (arith, e))
                (inl (refl, rename_failed target path s s' x e))
        ]

    make_dir-Extends :
        (target : FilePath) (path : Str) (t : CommitTransaction) (s : State)
        → let outcome = make_dir disk target path t s in Extends t s outcome.1 outcome.2
    unfolding make_dir
    make_dir-Extends target path t s =
        let outcome = make_dir disk target path t s in
        elim (call_cases (disk.create_dir target s)) [
          | inl (s', e) ↦
              by_outcome t s (record_change (created target) t) s' outcome (ground (arith, e))
                (ground (arith, e))
                (inr (created target, refl, created-Undoes disk laws target s s' e))
          | inr (x, s', e) ↦
              by_outcome t s t s' outcome (ground (arith, e)) (ground (arith, e))
                (inl (refl, create_failed target s s' x e))
        ]

    put-Extends :
        (error : IoError → AppError) (staged target : FilePath) (t : CommitTransaction) (s : State)
        → Missing disk target s
        → let outcome = put disk error staged target none t s in Extends t s outcome.1 outcome.2
    unfolding put
    put-Extends error staged target t s free =
        let outcome = put disk error staged target none t s in
        elim (call_cases (rename staged target s)) [
          | inl (s', e) ↦
              by_outcome t s (record_change (installed target staged none) t) s' outcome
                (ground (arith, e)) (ground (arith, e))
                (inr (
                  installed target staged none,
                  refl,
                  put-Undoes disk laws staged target s s' free e,
                ))
          | inr (x, s', e) ↦
              by_outcome t s t s' outcome (ground (arith, e)) (ground (arith, e))
                (inl (refl, rename_failed staged target s s' x e))
        ]

    swap_in-Extends :
        (error : IoError → AppError) (uuid : Str) (staged target : FilePath) (t : CommitTransaction)
        (s : State)
        → Missing disk (join_path t.backup_root uuid) s
        → let outcome = swap_in disk error uuid staged target t s in Extends t s outcome.1 outcome.2
    unfolding swap_in
    swap_in-Extends error uuid staged target t s free =
        let path = join_path t.backup_root uuid in
        let outcome = swap_in disk error uuid staged target t s in
        elim (call_cases (rename target path s)) [
          | inr (x, s', e) ↦
              by_outcome t s t s' outcome (ground (arith, e)) (ground (arith, e))
                (inl (refl, rename_failed target path s s' x e))
          | inl (s', e) ↦ elim (call_cases (rename staged target s')) [
            | inl (s'', f) ↦
                by_outcome t s (record_change (installed target staged (some path)) t) s'' outcome
                  (ground (arith, e, f)) (ground (arith, e, f))
                  (inr (
                    installed target staged (some path),
                    refl,
                    swapped-Undoes disk laws staged target path s s' s'' free e f,
                  ))
            | inr (x, s'', f) ↦
                by_outcome t s (record_change (replaced target path) t) s' outcome
                  (ground (arith, e, f))
                  (ground (arith, e, f, rename_failed staged target s' s'' x f))
                  (inr
                    (replaced target path, refl, replaced-Undoes disk laws target path s s' free e))
          ]
        ]

    delete_listed-Extends :
        (listing : IoResult (List (IoResult Str))) (uuid : Str) (target : FilePath) (path : Str)
        (t : CommitTransaction) (s : State)
        → Missing disk (join_path t.backup_root uuid) s
        → let outcome = delete_listed disk listing uuid target path t s in
          Extends t s outcome.1 outcome.2
    unfolding delete_listed
    delete_listed-Extends (failed e) uuid target path t s free = inl (refl, refl)
    delete_listed-Extends (done (failed e ∷ rest)) uuid target path t s free = inl (refl, refl)
    delete_listed-Extends (done (done entry ∷ rest)) uuid target path t s free = inl (refl, refl)
    delete_listed-Extends (done []) uuid target path t s free =
        back_up-Extends true uuid target t s free

    -- The cases that an operation distinguishes when it has looked at its target.
    inspect-Extends :
        {A : Type 0} (t : CommitTransaction) (s : State) (target : FilePath)
        (test : Metadata → Bool) (there missing : Result A × CommitTransaction × State)
        (unfit : AppError) (unknown : IoError → AppError)
        → Extends t s there.1 there.2
        → (Missing disk target s → Extends t s missing.1 missing.2)
        → let outcome : Result A × CommitTransaction × State = elim (symlink_metadata target s) [
          | done m ↦ if test m then there else (err unfit, t, s)
          | failed e ↦ if e.not_found then missing else (err (unknown e), t, s)
        ] in
          Extends t s outcome.1 outcome.2
    inspect-Extends t s target test there missing unfit unknown h k =
        elim (look_cases (symlink_metadata target s)) [
          | inl (m, e) ↦
              rw e (elim (Bool-cases (test m)) [ inl f ↦ rw f h | inr f ↦ rw f (inl (refl, refl)) ])
          | inr (x, e) ↦ rw e (elim (Bool-cases x.not_found) [
            | inl f ↦ rw f (k (x, e, f))
            | inr f ↦ rw f (inl (refl, refl))
          ])
        ]

    pub perform-Extends :
        (operation : Operation) (t : CommitTransaction) (s : State)
        → IsFresh operation t s
        → let pair = perform operation t s in Extends t s pair.0 pair.1
    unfolding perform create_missing_dir install_file replace_project delete_file delete_empty_dir
    perform-Extends (create_dir target path) t s fresh =
        inspect-Extends t s target (λ m. is_real_dir m) (ok tt, t, s)
          (make_dir disk target path t s) _ _ (inl (refl, refl))
          (λ gone. make_dir-Extends target path t s)
    perform-Extends (install uuid staged target path) t s fresh =
        inspect-Extends t s target (λ m. is_real_file m) (swap_in disk _ uuid staged target t s)
          (put disk _ staged target none t s) _ _ (swap_in-Extends _ uuid staged target t s fresh)
          (put-Extends _ staged target t s)
    perform-Extends (replace uuid staged target) t s fresh =
        inspect-Extends t s target (λ m. is_real_dir m) (swap_in disk _ uuid staged target t s)
          (put disk _ staged target none t s) _ _ (swap_in-Extends _ uuid staged target t s fresh)
          (put-Extends _ staged target t s)
    perform-Extends (delete uuid target path) t s fresh =
        inspect-Extends t s target (λ m. is_real_file m) (back_up disk true uuid target t s)
          (ok false, t, s) _ _ (back_up-Extends true uuid target t s fresh)
          (λ gone. inl (refl, refl))
    perform-Extends (delete_dir uuid target path) t s fresh =
        inspect-Extends t s target (λ m. is_real_dir m)
          (delete_listed disk (read_dir target s) uuid target path t s) (ok false, t, s) _ _
          (delete_listed-Extends (read_dir target s) uuid target path t s fresh)
          (λ gone. inl (refl, refl))
