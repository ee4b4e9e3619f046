-- ===== src/Sync/Transaction/Made.antt =====
-- src/sync/transaction.rs: what an operation that succeeds has recorded, and that none forgets a change.
use mathlib.Core.List.{append_assoc}
use vivado_server.Base.{
  ◌≡◌, ◌⊎◌, refl, ap, ◌∙◌, sym, Str, true, Bool-cases, Option, none, some, inl, inr, List, [], ◌∷◌,
  ◌++◌,
}
use vivado_server.Error.{AppError, err}
use vivado_server.Sync.Disk.{
  FilePath, join_path, IoError, IoResult, done, failed, Metadata, is_real_dir, is_real_file, Disk,
  Missing,
}
use vivado_server.Sync.Transaction.{
  AppliedChange, created, replaced, installed, CommitTransaction, Outcome, record_change, backup,
  back_up, make_dir, put, swap_in, create_missing_dir, install_file, replace_project, delete_file,
  delete_listed, delete_empty_dir,
}
use vivado_server.Sync.Transaction.Undo.{call_cases, look_cases}

abbrev pub Has : AppliedChange → List AppliedChange → Type 0
Has change changes =
    (later : List AppliedChange) × (earlier : List AppliedChange) × (changes
      ≡ later ++ (change ∷ earlier))

abbrev pub Grown : CommitTransaction → CommitTransaction → Type 0
Grown t t' = (more : List AppliedChange) × (t'.changes ≡ more ++ t.changes)

pub Has-grown :
    (change : AppliedChange) (more changes : List AppliedChange)
    → Has change changes
    → Has change (more ++ changes)
Has-grown change more changes (later, earlier, e) = (
  more ++ later,
  earlier,
  ap (λ cs. more ++ cs) e ∙ sym (append_assoc more later (change ∷ earlier)),
)

module _ (disk : Disk) where
  open disk use {State, symlink_metadata, read_dir, create_dir, rename}

  -- An operation forgets no change, and fails or has made what it should.
  abbrev pub Makes :
      {A : Type 0} → (List AppliedChange → Type 0) → CommitTransaction → Outcome disk A → Type 0
  Makes P t o = Grown t o.1 × (((e : AppError) × (o.0 ≡ err e)) ⊎ P o.1.changes)

  abbrev pub IsInstalled : FilePath → FilePath → List AppliedChange → Type 0
  IsInstalled staged target changes =
      (saved : Option FilePath) × Has (installed target staged saved) changes

  put-Makes :
      (error : IoError → AppError) (staged target : FilePath) (t : CommitTransaction) (s : State)
      → Makes (IsInstalled staged target) t (put disk error staged target none t s)
  unfolding put
  put-Makes error staged target t s = elim (call_cases (rename staged target s)) [
    | inl (s', e) ↦
        rw (put, e) ((installed target staged none ∷ [], refl), inr (none, ([], t.changes, refl)))
    | inr (x, s', e) ↦ rw (put, e) (([], refl), inl (error x, refl))
  ]

  put_over-Makes :
      (error : IoError → AppError) (staged target saved : FilePath) (t : CommitTransaction)
      (s : State)
      → Makes
          (IsInstalled staged target)
          t
          (put disk error staged target (some saved) (record_change (replaced target saved) t) s)
  unfolding put
  put_over-Makes error staged target saved t s = elim (call_cases (rename staged target s)) [
    | inl (s', e) ↦
        rw (put, e)
          (
            (installed target staged (some saved) ∷ [], refl),
            inr (some saved, ([], t.changes, refl)),
          )
    | inr (x, s', e) ↦ rw (put, e) ((replaced target saved ∷ [], refl), inl (error x, refl))
  ]

  swap_in-Makes :
      (error : IoError → AppError) (uuid : Str) (staged target : FilePath) (t : CommitTransaction)
      (s : State)
      → Makes (IsInstalled staged target) t (swap_in disk error uuid staged target t s)
  unfolding swap_in backup
  swap_in-Makes error uuid staged target t s =
      let path = join_path t.backup_root uuid in
      elim (call_cases (rename target path s)) [
        | inr (x, s', e) ↦ rw (swap_in, backup, e) (([], refl), inl (_, refl))
        | inl (s', e) ↦
            rw (swap_in, backup, e)
              (put_over-Makes error staged target path t (rename target path s).1)
      ]

  pub install_file-Makes :
      (uuid : Str) (staged target : FilePath) (path : Str) (t : CommitTransaction) (s : State)
      → Makes (IsInstalled staged target) t (install_file disk uuid staged target path t s)
  unfolding install_file
  install_file-Makes uuid staged target path t s = elim (look_cases (symlink_metadata target s)) [
    | inl (m, e) ↦ elim (Bool-cases (is_real_file m)) [
      | inl real ↦ rw (install_file, e, real) (swap_in-Makes _ uuid staged target t s)
      | inr other ↦ rw (install_file, e, other) (([], refl), inl (_, refl))
    ]
    | inr (x, e) ↦ elim (Bool-cases x.not_found) [
      | inl absent ↦ rw (install_file, e, absent) (put-Makes _ staged target t s)
      | inr broken ↦ rw (install_file, e, broken) (([], refl), inl (_, refl))
    ]
  ]

  pub replace_project-Makes :
      (uuid : Str) (staged target : FilePath) (t : CommitTransaction) (s : State)
      → Makes (IsInstalled staged target) t (replace_project disk uuid staged target t s)
  unfolding replace_project
  replace_project-Makes uuid staged target t s = elim (look_cases (symlink_metadata target s)) [
    | inl (m, e) ↦ elim (Bool-cases (is_real_dir m)) [
      | inl real ↦ rw (replace_project, e, real) (swap_in-Makes _ uuid staged target t s)
      | inr other ↦ rw (replace_project, e, other) (([], refl), inl (_, refl))
    ]
    | inr (x, e) ↦ elim (Bool-cases x.not_found) [
      | inl absent ↦ rw (replace_project, e, absent) (put-Makes _ staged target t s)
      | inr broken ↦ rw (replace_project, e, broken) (([], refl), inl (_, refl))
    ]
  ]

  -- What is to be deleted is moved to a backup, unless nothing was there when its turn came.
  abbrev pub IsGone : FilePath → List AppliedChange → Type 0
  IsGone target changes =
      ((saved : FilePath) × Has (replaced target saved) changes)
      ⊎ ((s : State) × Missing disk target s)

  back_up-Makes :
      (uuid : Str) (target : FilePath) (t : CommitTransaction) (s : State)
      → Makes (IsGone target) t (back_up disk true uuid target t s)
  unfolding back_up backup
  back_up-Makes uuid target t s =
      let path = join_path t.backup_root uuid in
      elim (call_cases (rename target path s)) [
        | inr (x, s', e) ↦ rw (back_up, backup, e) (([], refl), inl (_, refl))
        | inl (s', e) ↦
            rw (back_up, backup, e)
              ((replaced target path ∷ [], refl), inr (inl (path, ([], t.changes, refl))))
      ]

  pub delete_file-Makes :
      (uuid : Str) (target : FilePath) (path : Str) (t : CommitTransaction) (s : State)
      → Makes (IsGone target) t (delete_file disk uuid target path t s)
  unfolding delete_file
  delete_file-Makes uuid target path t s = elim (look_cases (symlink_metadata target s)) [
    | inl (m, e) ↦ elim (Bool-cases (is_real_file m)) [
      | inl real ↦ rw (delete_file, e, real) (back_up-Makes uuid target t s)
      | inr other ↦ rw (delete_file, e, other) (([], refl), inl (_, refl))
    ]
    | inr (x, e) ↦ elim (Bool-cases x.not_found) [
      | inl absent ↦ rw (delete_file, e, absent) (([], refl), inr (inr (s, (x, e, absent))))
      | inr broken ↦ rw (delete_file, e, broken) (([], refl), inl (_, refl))
    ]
  ]

  delete_listed-Makes :
      (listing : IoResult (List (IoResult Str))) (uuid : Str) (target : FilePath) (path : Str)
      (t : CommitTransaction) (s : State)
      → Makes (IsGone target) t (delete_listed disk listing uuid target path t s)
  unfolding delete_listed
  delete_listed-Makes (failed e) uuid target path t s = (([], refl), inl (_, refl))
  delete_listed-Makes (done (failed e ∷ rest)) uuid target path t s = (([], refl), inl (_, refl))
  delete_listed-Makes (done (done entry ∷ rest)) uuid target path t s = (([], refl), inl (_, refl))
  delete_listed-Makes (done []) uuid target path t s = back_up-Makes uuid target t s

  pub delete_empty_dir-Makes :
      (uuid : Str) (target : FilePath) (path : Str) (t : CommitTransaction) (s : State)
      → Makes (IsGone target) t (delete_empty_dir disk uuid target path t s)
  unfolding delete_empty_dir
  delete_empty_dir-Makes uuid target path t s = elim (look_cases (symlink_metadata target s)) [
    | inl (m, e) ↦ elim (Bool-cases (is_real_dir m)) [
      | inl real ↦
          rw (delete_empty_dir, e, real)
            (delete_listed-Makes (read_dir target s) uuid target path t s)
      | inr other ↦ rw (delete_empty_dir, e, other) (([], refl), inl (_, refl))
    ]
    | inr (x, e) ↦ elim (Bool-cases x.not_found) [
      | inl absent ↦ rw (delete_empty_dir, e, absent) (([], refl), inr (inr (s, (x, e, absent))))
      | inr broken ↦ rw (delete_empty_dir, e, broken) (([], refl), inl (_, refl))
    ]
  ]

  -- A directory is made, or was there when its turn came.
  abbrev pub IsMade : FilePath → List AppliedChange → Type 0
  IsMade target changes =
      Has (created target) changes
      ⊎ ((s : State) × (m : Metadata) × (symlink_metadata target s ≡ done m)
          × (is_real_dir m ≡ true))

  make_dir-Makes :
      (target : FilePath) (path : Str) (t : CommitTransaction) (s : State)
      → Makes (IsMade target) t (make_dir disk target path t s)
  unfolding make_dir
  make_dir-Makes target path t s = elim (call_cases (create_dir target s)) [
    | inr (x, s', e) ↦ rw (make_dir, e) (([], refl), inl (_, refl))
    | inl (s', e) ↦ rw (make_dir, e) ((created target ∷ [], refl), inr (inl ([], t.changes, refl)))
  ]

  pub create_missing_dir-Makes :
      (target : FilePath) (path : Str) (t : CommitTransaction) (s : State)
      → Makes (IsMade target) t (create_missing_dir disk target path t s)
  unfolding create_missing_dir
  create_missing_dir-Makes target path t s = elim (look_cases (symlink_metadata target s)) [
    | inl (m, e) ↦ elim (Bool-cases (is_real_dir m)) [
      | inl real ↦ rw (create_missing_dir, e, real) (([], refl), inr (inr (s, m, e, real)))
      | inr other ↦ rw (create_missing_dir, e, other) (([], refl), inl (_, refl))
    ]
    | inr (x, e) ↦ elim (Bool-cases x.not_found) [
      | inl absent ↦ rw (create_missing_dir, e, absent) (make_dir-Makes target path t s)
      | inr broken ↦ rw (create_missing_dir, e, broken) (([], refl), inl (_, refl))
    ]
  ]
