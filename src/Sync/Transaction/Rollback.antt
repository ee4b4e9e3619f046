-- ===== src/Sync/Transaction/Rollback.antt =====
-- src/sync/transaction.rs: what a rollback restores.
use vivado_server.Base.{
  ℕ, ◌≡◌, refl, subst, ap, ◌⊎◌, inl, inr, Str, codes, List, [], ◌∷◌, ◌++◌, arith,
}
use vivado_server.Error.{
  AppError, Message, about, Result, Result-cases, ok, err, project_reupload_required,
}
use vivado_server.Sync.Disk.{FilePath, Disk, IsReversible}
use vivado_server.Sync.Transaction.{AppliedChange, CommitTransaction}
use vivado_server.Sync.Rollback.{undo, undo_all, settled_errors, settle_transaction}
use vivado_server.Sync.Transaction.Undo.{Undoes}
use vivado_server.Sync.Transaction.Perform.{Operation, perform, IsFresh, Extends, perform-Extends}

List-cases : {A : Type 0} (l : List A) → (l ≡ []) ⊎ ((x : A) × (rest : List A) × (l ≡ x ∷ rest))
List-cases [] = inl refl
List-cases (x ∷ rest) = inr (x, rest, refl)

module _ (disk : Disk) where
  open disk use {State, symlink_metadata, read_dir, remove_dir, rename}

  -- The transaction and the disk that operations lead to, from a disk `s₀` and no changes.
  pub data Run (s₀ : State) : CommitTransaction → State → Type 0 where
    begin : (root : FilePath) → Run s₀ (record { backup_root = root; changes = [] }) s₀
    next :
        {t t' : CommitTransaction} {s s' : State}
        → Run s₀ t s
        → (operation : Operation) → IsFresh disk operation t s
        → perform disk operation t s ≡ (t', s')
        → Run s₀ t' s'

  module _ (laws : IsReversible disk) where
    open laws use {
      create_failed, rename_failed, rename_leaves, rename_back, create_there, create_back,
    }

    -- Undoing all changes with no error leads back to the disk `s₀`.
    abbrev Restores : List AppliedChange → State → State → Type 0
    Restores changes s s₀ = (u : State) → undo_all disk changes [] s ≡ ([], u) → u ≡ s₀

    undo_all-failed :
        (changes : List AppliedChange) (e : AppError) (errors : List AppError) (s u : State)
        → undo_all disk changes (e ∷ errors) s ≡ ([], u)
        → ⊥
    unfolding undo_all
    undo_all-failed [] e errors s u h = ground arith
    undo_all-failed (change ∷ rest) e errors s u h =
        let (result, s') = undo disk change s in
        elim (Result-cases (undo disk change s).0) [
          | inl (x, f) ↦ undo_all-failed rest e (errors ++ (x ∷ [])) _ u (rw f at h)
          | inr (tt, f) ↦ undo_all-failed rest e errors _ u (rw f at h)
        ]

    Restores-cons :
        (change : AppliedChange) (changes : List AppliedChange) (s' s s₀ : State)
        → Undoes disk change s' s
        → Restores changes s s₀
        → Restores (change ∷ changes) s' s₀
    unfolding undo_all
    Restores-cons change changes s' s s₀ undone rest u h =
        elim (Result-cases (undo disk change s').0) [
          | inl (x, f) ↦ absurd (undo_all-failed changes x [] _ u (rw f at h))
          | inr (done_unit, f) ↦
              let step : (undo disk change s').1 ≡ s =
                undone _ (ap (λ r. (r, (undo disk change s').1)) f) in
              rest u (rw (f, step) at h)
        ]

    Run-Restores : {s₀ s : State} {t : CommitTransaction} → Run s₀ t s → Restores t.changes s s₀
    unfolding undo_all
    Run-Restores (begin root) u h = ground arith
    Run-Restores {s₀} (next {t} {t'} {s} {s'} run operation fresh step) u h =
        elim (moved (perform-Extends disk laws operation t s fresh)) [
          | inl (same_t, same_s) ↦ Run-Restores run u (ground (arith, same_t, same_s, h))
          | inr (change, recorded, undone) ↦
              Restores-cons change t.changes s' s s₀ undone (Run-Restores run) u (rw recorded at h)
        ]
      where
        moved :
            Extends disk t s (perform disk operation t s).0 (perform disk operation t s).1
            → Extends disk t s t' s'
        moved = subst (λ (x : CommitTransaction × State). Extends disk t s x.0 x.1) step

    -- A transaction that fails leaves the disk as it was before its first change, or it asks for a
    -- complete upload; one that succeeds is left alone.
    pub settle_transaction-restores :
        (to_string : AppError → Str) (decimal : ℕ → Str) {A : Type 0} {s₀ s : State}
        {t : CommitTransaction}
        → Run s₀ t s
        → (result : Result A)
        → let (settled, t', s') = settle_transaction disk to_string decimal result t s in
          ((value : A) × (result ≡ ok value) × (settled ≡ ok value) × (s' ≡ s))
          ⊎ ((e : AppError) × (result ≡ err e) × (settled ≡ err e) × (s' ≡ s₀))
          ⊎ ((e : AppError) × (m : Message) × (result ≡ err e)
              × (settled ≡ err (project_reupload_required m)))
    unfolding settle_transaction
    settle_transaction-restores to_string decimal run (ok value) = inl (value, refl, refl, refl)
    settle_transaction-restores to_string decimal {s = s} {t = t} run (err e) =
        elim (List-cases (undo_all disk t.changes [] s).0) [
          | inl none_met ↦
              let back =
                Run-Restores run (undo_all disk t.changes [] s).1
                  (ap (λ l. (l, (undo_all disk t.changes [] s).1)) none_met) in
              inr (inl (e, refl, ground (arith, none_met), ground (arith, none_met, back)))
          | inr (x, rest, met) ↦
              let (failed_rollback, f) = settled_errors-cons x rest in
              inr (
                inr (
                  e,
                  about "sync failed (" (
                      to_string e
                      ++ codes "); rollback failed ("
                      ++ to_string failed_rollback
                      ++ codes ")"),
                  refl,
                  ground (arith, met, f),
                ))
        ]
      where
        settled_errors-cons :
            (x : AppError) (rest : List AppError)
            → (e' : AppError) × (settled_errors disk to_string decimal (x ∷ rest) ≡ err e')
        settled_errors-cons x rest = unfold settled_errors in (_, refl)
