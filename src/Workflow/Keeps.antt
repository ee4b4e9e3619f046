-- ===== src/Workflow/Keeps.antt =====
-- src/workflow.rs: what holds of the manager before a handler holds after it, if its sections keep
-- it and the other tasks do. One rule for each way to build a handler.
use vivado_server.Base.{
  ℕ, Bool, true, false, if◌then◌else◌, ◌≡◌, refl, some, Option-cases, inl, inr, arith,
}
use vivado_server.Base.Maps.{get_elem?}
use vivado_server.Workflow.Model.{Workflow}
use vivado_server.Workflow.Sections.{is_free}
use vivado_server.Workflow.Machine.{can_lock}
use vivado_server.Error.{AppError, Result}
use vivado_server.Workflow.Model.{Workflow}
use vivado_server.Workflow.Registry.{Manager, modify}
use vivado_server.Workflow.Sections.{lock, unlock}
use vivado_server.Workflow.Machine.{
  Machine, next, Outcome, done, refused, blocked, M, ◌>>=◌, ◌>>◌, give, block, fail_with, check,
  attempt, section, act, object, update, Call, wait, call, exclusive, exclusive_if, locked, managed,
}

pub record Keeps {W A : Type 0} (P : Manager → Type 0) (m : M W A) : Type 0 where
  pub after : (s : Machine W) → P s.manager → P (m s).1.manager

module _ {W : Type 0} (P : Manager → Type 0) where
  next-keeps :
      {A B : Type 0} (r : Outcome A) (f : A → M W B) (t : Machine W)
      → ((a : A) → Keeps P (f a))
      → P t.manager
      → P (next r f t).1.manager
  unfolding next
  next-keeps (done a) f t l p = (l a).after t p
  next-keeps (refused e) f t l p = p
  next-keeps blocked f t l p = p

  pub Keeps-bind :
      {A B : Type 0} {first : M W A} {rest : A → M W B}
      → Keeps P first
      → ((value : A) → Keeps P (rest value))
      → Keeps P (first >>= rest)
  unfolding ◌>>=◌
  Keeps-bind {first = first} {rest = rest} before afterwards = record {
    after = λ s p. next-keeps (first s).0 rest (first s).1 afterwards (before.after s p);
  }

  pub Keeps-then :
      {B : Type 0} {m : M W (Unit {0})} {k : M W B} → Keeps P m → Keeps P k → Keeps P (m >> k)
  unfolding ◌>>◌
  Keeps-then {m = m} {k = k} h l = Keeps-bind h (λ u. l)

  pub Keeps-give : {A : Type 0} (a : A) → Keeps P (give {W = W} a)
  unfolding give
  Keeps-give a = record { after = λ s p. p }

  pub Keeps-fail : {A : Type 0} (e : AppError) → Keeps P (fail_with {W = W} {A = A} e)
  unfolding fail_with
  Keeps-fail e = record { after = λ s p. p }

  pub Keeps-block : {A : Type 0} → Keeps P (block {W = W} {A = A})
  unfolding block
  Keeps-block = record { after = λ s p. p }

  pub Keeps-check : {A : Type 0} (r : Result A) → Keeps P (check {W = W} r)
  unfolding check
  Keeps-check r = record { after = λ s p. p }

  pub Keeps-attempt : {A : Type 0} {m : M W A} → Keeps P m → Keeps P (attempt m)
  unfolding attempt
  Keeps-attempt k = record { after = λ s p. k.after s p }

  pub Keeps-section :
      {A : Type 0} (f : Manager → Result A × Manager)
      → ((m : Manager) → P m → P (f m).1)
      → Keeps P (section {W = W} f)
  unfolding section
  Keeps-section f k = record { after = λ s p. k s.manager p }

  pub Keeps-act :
      (f : Manager → Manager) → ((m : Manager) → P m → P (f m)) → Keeps P (act {W = W} f)
  unfolding act
  Keeps-act f k = record { after = λ s p. k s.manager p }

  pub Keeps-update :
      (h : ℕ) (f : Workflow → Workflow)
      → ((m : Manager) → P m → P (modify h f m))
      → Keeps P (update {W = W} h f)
  unfolding update
  Keeps-update h f k = Keeps-act (modify h f) k

  pub Keeps-object : (h : ℕ) → Keeps P (object {W = W} h)
  unfolding object
  Keeps-object h = record { after = λ s p. p }

  pub Keeps-if :
      {A : Type 0} (test : Bool) {yes no : M W A}
      → Keeps P yes
      → Keeps P no
      → Keeps P (if test then yes else no)
  Keeps-if true k l = k
  Keeps-if false k l = l

  -- A body that runs under the lock.
  module _
      (taken : (h : ℕ) (m : Manager) (w : Workflow)
        → get_elem? m.objects h ≡ some w
        → is_free w ≡ true
        → P m
        → P (modify h lock m))
      (freed : (h : ℕ) (m : Manager) → P m → P (modify h unlock m)) where
    pub exclusive-after :
        {A : Type 0} (h : ℕ) {body : M W A}
        → Keeps P body
        → (s : Machine W) → can_lock (get_elem? s.manager.objects h) ≡ true
        → P s.manager
        → P (exclusive h body s).1.manager
    unfolding exclusive can_lock
    exclusive-after h k s free p = elim (Option-cases (get_elem? s.manager.objects h)) [
      | inl gone ↦ ground (arith, gone, free)
      | inr (w, at) ↦ freed h _ (k.after _ (taken h s.manager w at (rw at at free) p))
    ]

    exclusive_if-after :
        {A : Type 0} (b : Bool) (h : ℕ) {body : M W A}
        → Keeps P body
        → (s : Machine W) → can_lock (get_elem? s.manager.objects h) ≡ b
        → P s.manager
        → P (exclusive_if b h body s).1.manager
    unfolding exclusive_if
    exclusive_if-after true h k s free p = exclusive-after h k s free p
    exclusive_if-after false h k s free p = p

    pub Keeps-locked :
        (others : ℕ → Machine W → Machine W)
        → ((n : ℕ) (s : Machine W) → P s.manager → P (others n s).manager)
        → {A : Type 0} (n h : ℕ) {body : M W A} → Keeps P body
        → Keeps P (locked others n h body)
    unfolding locked
    Keeps-locked others respect n h k = record {
      after = λ s p. exclusive_if-after _ h k (others n s) refl (respect n s p);
    }

  module _ (others : ℕ → Machine W → Machine W)
      (respect : (n : ℕ) (s : Machine W) → P s.manager → P (others n s).manager) where
    pub Keeps-wait : (n : ℕ) → Keeps P (wait others n)
    unfolding wait
    Keeps-wait n = record { after = λ s p. respect n s p }

    pub Keeps-call : {A : Type 0} (n : ℕ) (f : Call W A) → Keeps P (call others n f)
    unfolding call
    Keeps-call n f = record { after = λ s p. respect n _ p }

    pub Keeps-managed :
        {A : Type 0} (requested : Call W (Unit {0})) {body : M W A}
        → Keeps P body
        → Keeps P (managed others requested body)
    unfolding managed
    Keeps-managed requested k =
        Keeps-then (Keeps-call 0 requested)
          (Keeps-then (Keeps-section _ (λ m p. p)) (Keeps-then (Keeps-wait 1) k))
