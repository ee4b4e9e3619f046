-- ===== src/Workflow/Closed/Transfers.antt =====
-- src/workflow.rs: the handlers that transfer keep what their steps keep.
use vivado_server.Base.{ℕ, Str, Bool, ◌&&◌, List}
use vivado_server.Error.{Result, ok, err}
use vivado_server.Workflow.Model.{WorkflowStatus, Workflow}
use vivado_server.Workflow.Registry.{Manager}
use vivado_server.Base.{if◌then◌else◌, Bool-cases, Option-cases, inl, inr}
use vivado_server.Base.Maps.{get_elem?}
use vivado_server.Workflow.Slot.{At}
use vivado_server.Workflow.Machine.{
  fail_with, block, section, ◌>>=◌, ◌>>◌, next, object, fetched, wait, Machine, Call,
}
use vivado_server.Workflow.Handlers.Transfers.{
  cancelled_error, enter_at, acquire, conclude, run, transfer,
}
use vivado_server.Workflow.Keeps.{
  Keeps, Keeps-bind, Keeps-then, Keeps-fail, Keeps-check, Keeps-attempt, Keeps-section,
  Keeps-update, Keeps-object, Keeps-if, Keeps-call,
}
use vivado_server.Workflow.Closed.{leaves, Closed}
use vivado_server.Workflow.Closed.Create.{handle-Keeps}

module _ {W : Type 0} (P : Manager → Type 0) (c : Closed P) (others : ℕ → Machine W → Machine W)
    (respect : (n : ℕ) (s : Machine W) → P s.manager → P (others n s).manager) where
  -- The lock is looked at and taken in one section.
  admitted :
      (cut : Bool) (allowed : List WorkflowStatus) (h : ℕ) (w : Workflow) (s : Machine W)
      → At s.manager h w
      → P s.manager
      → P
          ((if cut && w.cancelled
              then fail_with cancelled_error
              else if w.writing
              then block
              else section (enter_at h allowed))
            s).1.manager
  unfolding fail_with block section
  admitted cut allowed h w s at p = elim (Bool-cases (cut && w.cancelled)) [
    | inl stopped ↦ rw stopped p
    | inr going ↦ elim (Bool-cases w.writing) [
      | inl busy ↦ rw (going, busy) p
      | inr free ↦ rw (going, free) (c.enters h allowed s.manager w at free p)
    ]
  ]

  acquire-Keeps :
      (cut : Bool) (allowed : List WorkflowStatus) (h : ℕ) → Keeps P (acquire others cut allowed h)
  unfolding acquire ◌>>=◌ ◌>>◌ next object fetched wait
  acquire-Keeps cut allowed h = record {
    after = λ s p.
        let q = respect 0 s p in
        elim (Option-cases (get_elem? (others 0 s).manager.objects h)) [
          | inl gone ↦ rw gone q
          | inr (w, at) ↦ rw at (admitted cut allowed h w (others 0 s) at q)
        ];
  }

  conclude-Keeps :
      {A : Type 0} (cut : Bool) (h : ℕ) (result : Result A) → Keeps P (conclude others cut h result)
  unfolding conclude
  conclude-Keeps cut h result = Keeps-bind P (Keeps-object P h) λ w.
      Keeps-then P (Keeps-update P h _ (λ m. c.writes h _ m leaves))
        (Keeps-if P (cut && w.cancelled) (Keeps-fail P _) (Keeps-check P result))

  run-Keeps :
      {A : Type 0} (cut : Bool) (h : ℕ) (f : Str → Call W A) (w : Workflow)
      (permission : Result (Unit {0}))
      → Keeps P (run others cut h f w permission)
  unfolding run
  run-Keeps cut h f w (err e) =
      Keeps-then P (Keeps-update P h _ (λ m. c.writes h _ m leaves)) (Keeps-fail P e)
  run-Keeps cut h f w (ok u) =
      Keeps-bind P (Keeps-attempt P (Keeps-call P others respect 1 (f w.project)))
        (conclude-Keeps cut h)

  pub transfer-Keeps :
      {A : Type 0} (cut_first cut : Bool) (allowed : List WorkflowStatus)
      (permitted : Workflow → Result (Unit {0})) (id : ℕ) (f : Str → Call W A)
      → Keeps P (transfer others cut_first cut allowed permitted id f)
  unfolding transfer
  transfer-Keeps cut_first cut allowed permitted id f =
      Keeps-then P (Keeps-section P _ (λ m p. p)) (
        Keeps-bind P (handle-Keeps P c id) λ h.
          Keeps-then P (acquire-Keeps cut_first allowed h)
            (Keeps-bind P (Keeps-object P h) λ w. run-Keeps cut h f w (permitted w)))
