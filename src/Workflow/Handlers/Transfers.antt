-- ===== src/Workflow/Handlers/Transfers.antt =====
-- src/workflow.rs: the handlers that hold a lease while they transfer: `manifest`, `upload`,
-- `pull_plan`, `download` and `head_download`. They differ in the phases that they allow, in what
-- they check first, and in the call that they make.
use vivado_server.Base.{ℕ, Str, if◌then◌else◌, Bool, ◌&&◌, none, some, List}
use vivado_server.Base.Maps.{get_elem?, set}
use vivado_server.Error.{AppError, Result, ok, err, internal, workflow_phase, text}
use vivado_server.Workflow.Model.{WorkflowStatus, Workflow}
use vivado_server.Workflow.Registry.{Manager, admit, enter, leave}
use vivado_server.Workflow.Machine.{
  Machine, M, ◌>>=◌, ◌>>◌, block, fail_with, check, attempt, section, object, update, call, wait,
  Call,
}
use vivado_server.Workflow.Handlers.{handle}

abbrev pub cancelled_error : AppError
cancelled_error = workflow_phase (text "workflow cancelled")

-- `enter` on the object of a handle.
unfoldable pub enter_at : ℕ → List WorkflowStatus → Manager → Result (Unit {0}) × Manager
enter_at h allowed m = elim (get_elem? m.objects h) [
  | none ↦ (err (internal (text "no such object")), m)
  | some w ↦ elim (enter allowed w) [
    | err e ↦ (err e, m)
    | ok w' ↦ (ok tt, record m { objects = set m.objects h w' })
  ]
]

module _ {W : Type 0} (others : ℕ → Machine W → Machine W) where
  -- The read half of the activity lock. `cut` says that `select!` took the cancellation.
  unfoldable pub acquire : Bool → List WorkflowStatus → ℕ → M W (Unit {0})
  acquire cut allowed h = do
    wait others 0
    w ← object h
    if cut && w.cancelled
        then fail_with cancelled_error
        else if w.writing
        then block
        else section (enter_at h allowed)

  -- `select!` between the transfer and the cancellation, while the lease is held.
  unfoldable pub conclude : {A : Type 0} → Bool → ℕ → Result A → M W A
  conclude cut h result = do
    w ← object h
    update h leave
    if cut && w.cancelled then fail_with cancelled_error else check result

  -- With the lease held: a request that is not permitted gives it back at once.
  unfoldable pub run :
      {A : Type 0} → Bool → ℕ → (Str → Call W A) → Workflow → Result (Unit {0}) → M W A
  run cut h f w (err e) = do update h leave; fail_with e
  run cut h f w (ok u) = do result ← attempt (call others 1 (f w.project)); conclude cut h result

  unfoldable pub transfer :
      {A : Type 0}
      → Bool
      → Bool
      → List WorkflowStatus
      → (Workflow → Result (Unit {0}))
      → ℕ
      → (Str → Call W A)
      → M W A
  transfer cut_first cut allowed permitted id f = do
    section (λ m. (admit m, m))
    h ← handle id
    acquire cut_first allowed h
    w ← object h
    run cut h f w (permitted w)
