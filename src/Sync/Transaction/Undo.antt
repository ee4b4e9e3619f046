-- ===== src/Sync/Transaction/Undo.antt =====
-- src/sync/transaction.rs: undoing a single change.
use vivado_server.Base.{◌≡◌, refl, sym, ap, ◌∙◌, ◌⊎◌, inl, inr, none, some, arith}
use vivado_server.Error.{ok}
use vivado_server.Sync.Disk.{FilePath, IoError, IoResult, done, failed, Disk, Missing, IsReversible}
use vivado_server.Sync.Transaction.{AppliedChange, created, replaced, installed}
use vivado_server.Sync.Rollback.{undo}

pub call_cases :
    {S : Type 0} (call : IoResult (Unit {0}) × S)
    → ((s : S) × (call ≡ (done tt, s))) ⊎ ((e : IoError) × (s : S) × (call ≡ (failed e, s)))
call_cases (done tt, s) = inl (s, refl)
call_cases (failed e, s) = inr (e, s, refl)

pub look_cases :
    {A : Type 0} (look : IoResult A)
    → ((a : A) × (look ≡ done a)) ⊎ ((e : IoError) × (look ≡ failed e))
look_cases (done a) = inl (a, refl)
look_cases (failed e) = inr (e, refl)

module _ (disk : Disk) where
  open disk use {State, symlink_metadata, read_dir, remove_dir, rename}

  -- If the change is undone with no error, the disk is as it was before.
  abbrev pub Undoes : AppliedChange → State → State → Type 0
  Undoes change s' s = (u : State) → undo disk change s' ≡ (ok tt, u) → u ≡ s

  module _ (laws : IsReversible disk) where
    open laws use {
      create_failed, rename_failed, rename_leaves, rename_back, create_there, create_back,
    }

    pub created-Undoes :
        (target : FilePath) (s s' : State)
        → disk.create_dir target s ≡ (done tt, s')
        → Undoes (created target) s' s
    unfolding undo
    created-Undoes target s s' made u h = elim (call_cases (remove_dir target s')) [
      | inl (v, e) ↦ ground (arith, create_back target s s' v made e)
      | inr (x, v, e) ↦ absurd (ground (arith, create_there target s s' v x made e))
    ]

    pub replaced-Undoes :
        (target saved : FilePath) (s s' : State)
        → Missing disk saved s
        → rename target saved s ≡ (done tt, s')
        → Undoes (replaced target saved) s' s
    unfolding undo
    replaced-Undoes target saved s s' free moved u h =
        let (x, gone, kind) = rename_leaves target saved s s' free moved in
        elim (call_cases (rename saved target s')) [
          | inl (v, e) ↦ ground (arith, rename_back target saved s s' v free moved e)
          | inr (y, v, e) ↦ absurd (ground arith)
        ]

    pub put-Undoes :
        (staged target : FilePath) (s s' : State)
        → Missing disk target s
        → rename staged target s ≡ (done tt, s')
        → Undoes (installed target staged none) s' s
    unfolding undo
    put-Undoes staged target s s' free moved u h = elim (call_cases (rename target staged s')) [
      | inl (v, e) ↦ ground (arith, rename_back staged target s s' v free moved e)
      | inr (y, v, e) ↦ absurd (ground arith)
    ]

    pub swapped-Undoes :
        (staged target saved : FilePath) (s s' s'' : State)
        → Missing disk saved s
        → rename target saved s ≡ (done tt, s')
        → rename staged target s' ≡ (done tt, s'')
        → Undoes (installed target staged (some saved)) s'' s
    unfolding undo
    swapped-Undoes staged target saved s s' s'' free moved put_in u h =
        let gone = rename_leaves target saved s s' free moved in
        elim (call_cases (rename target staged s'')) [
          | inr (y, v, e) ↦ absurd (ground arith)
          | inl (v, e) ↦
              let back : v ≡ s' = rename_back staged target s' s'' v gone put_in e in
              elim (call_cases (rename saved target v)) [
                | inr (y, w, f) ↦ absurd (ground arith)
                | inl (w, f) ↦
                    let home : rename saved target s' ≡ (done tt, w) =
                      ap (rename saved target) (sym back) ∙ f in
                    ground (arith, rename_back target saved s s' w free moved home)
              ]
        ]
