-- ===== src/Workflow/Machine.antt =====
-- src/workflow.rs: how the handlers run. A handler is a sequence of sections under locks and of
-- waits. During its n-th wait the other tasks turn the state into `others n` of it.
use vivado_server.Base.{ℕ, Bool, true, false, Option, none, some}
use vivado_server.Base.Maps.{get_elem?}
use vivado_server.Error.{AppError, Result, ok, err}
use vivado_server.Workflow.Model.{Workflow}
use vivado_server.Workflow.Registry.{Manager, modify, admit}
use vivado_server.Workflow.Sections.{is_free, lock, unlock}

-- The manager, and the state of the services below it.
pub record Machine (W : Type 0) : Type 0 where
  pub manager : Manager
  pub world : W

-- A handler returns, fails, or still waits for a lock or for another task.
pub data Outcome (A : Type 0) : Type 0 where
  done : A → Outcome A
  refused : AppError → Outcome A
  blocked : Outcome A

abbrev pub M : Type 0 → Type 0 → Type 0
M W A = Machine W → Outcome A × Machine W

-- An error leaves the state as it is by then.
unfoldable pub next : {W A B : Type 0} → Outcome A → (A → M W B) → M W B
next (done a) f t = f a t
next (refused e) f t = (refused e, t)
next blocked f t = (blocked, t)

infixl 5 ◌>>=◌ ◌>>◌
unfoldable pub ◌>>=◌ : {W A B : Type 0} → M W A → (A → M W B) → M W B
◌>>=◌ m f s = let (r, t) = m s in next r f t

unfoldable pub ◌>>◌ : {W B : Type 0} → M W (Unit {0}) → M W B → M W B
m >> k = m >>= λ _. k

unfoldable pub give : {W A : Type 0} → A → M W A
give a s = (done a, s)

-- A handler that does not get further.
unfoldable pub block : {W A : Type 0} → M W A
block s = (blocked, s)

unfoldable pub fail_with : {W A : Type 0} → AppError → M W A
fail_with e s = (refused e, s)

unfoldable pub of_result : {A : Type 0} → Result A → Outcome A
of_result (ok a) = done a
of_result (err e) = refused e

-- `?` on a value.
unfoldable pub check : {W A : Type 0} → Result A → M W A
check r s = (of_result r, s)

unfoldable pub settle : {A : Type 0} → Outcome A → Outcome (Result A)
settle (done a) = done (ok a)
settle (refused e) = done (err e)
settle blocked = blocked

-- An inner block whose error is a value.
unfoldable pub attempt : {W A : Type 0} → M W A → M W (Result A)
attempt m s = let (r, t) = m s in (settle r, t)

-- A section on the manager.
unfoldable pub section : {W A : Type 0} → (Manager → Result A × Manager) → M W A
section f s = let (r, m) = f s.manager in (of_result r, record s { manager = m })

unfoldable pub act : {W : Type 0} → (Manager → Manager) → M W (Unit {0})
act f s = (done tt, record s { manager = f s.manager })

unfoldable pub fetched : Option Workflow → Outcome Workflow
fetched none = blocked
fetched (some w) = done w

-- The object behind an `Arc`; there always is one.
unfoldable pub object : {W : Type 0} → ℕ → M W Workflow
object h s = (fetched (get_elem? s.manager.objects h), s)

unfoldable pub update : {W : Type 0} → ℕ → (Workflow → Workflow) → M W (Unit {0})
update h f = act (modify h f)

-- A call of a service, as a function on the services' state.
abbrev pub Call : Type 0 → Type 0 → Type 0
Call W A = W → Result A × W

unfoldable pub exclusive : {W A : Type 0} → ℕ → M W A → M W A
exclusive h body s =
    let (r, t) = body (record s { manager = modify h lock s.manager }) in
    (r, record t { manager = modify h unlock t.manager })

unfoldable pub can_lock : Option Workflow → Bool
can_lock none = false
can_lock (some w) = is_free w

unfoldable pub exclusive_if : {W A : Type 0} → Bool → ℕ → M W A → M W A
exclusive_if true h body s = exclusive h body s
exclusive_if false h body s = (blocked, s)

module _ {W : Type 0} (others : ℕ → Machine W → Machine W) where
  unfoldable pub wait : ℕ → M W (Unit {0})
  wait n s = (done tt, others n s)

  -- A call, and what others do until its caller goes on.
  unfoldable pub call : {A : Type 0} → ℕ → Call W A → M W A
  call n f s = let (r, w) = f s.world in (of_result r, others n (record s { world = w }))

  -- The write half of a workflow's activity lock, for as long as the body runs.
  unfoldable pub locked : {A : Type 0} → ℕ → ℕ → M W A → M W A
  locked n h body s =
      let t = others n s in exclusive_if (can_lock (get_elem? t.manager.objects h)) h body t

  -- `managed`: the request is recorded, and is admitted unless the service stops.
  unfoldable pub managed : {A : Type 0} → Call W (Unit {0}) → M W A → M W A
  managed requested body = do call 0 requested; section (λ m. (admit m, m)); wait 1; body
