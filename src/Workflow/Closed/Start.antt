-- ===== src/Workflow/Closed/Start.antt =====
-- src/workflow.rs: `start_session` keeps what its steps keep. It writes to the workflow after a long
-- wait, and relies on the lock that it holds.
use vivado_server.Base.{
  ℕ, Str, Bool, true, false, ◌&&◌, not, Option-cases, Bool-cases, inl, inr, ◌≡◌, refl, sym, List,
  [], ◌∷◌, arith,
}
use vivado_server.Base.Maps.{get_elem?}
use vivado_server.Error.{Result, ok, err, Result-cases}
use vivado_server.Session.Model.{SessionInfo}
use vivado_server.Workflow.Model.{WorkflowStatus, same_status, same_status_eq, contains, Workflow}
use vivado_server.Workflow.Registry.{Manager, modify, phase}
use vivado_server.Workflow.Sections.{lock, unlock, close_plan}
use vivado_server.Workflow.Machine.{
  Machine, M, Outcome, done, refused, blocked, give, ◌>>=◌, ◌>>◌, next, object, fetched, check,
  of_result, update, act, locked, exclusive, exclusive_if, can_lock,
}
use vivado_server.Workflow.Services.{Services}
use vivado_server.Workflow.Handlers.Sessions.{
  settle_start, start_marked, start_locked, start_session,
}
use vivado_server.Workflow.Keeps.{
  Keeps, Keeps-bind, Keeps-then, Keeps-fail, Keeps-check, Keeps-attempt, Keeps-object, Keeps-call,
  Keeps-managed,
}
use vivado_server.Workflow.Closed.{unlocks, closes_plan, is_starting, Closed, IsHeld}
use vivado_server.Workflow.Closed.Create.{handle-Keeps, fail-Keeps}
use vivado_server.Workflow.Closed.Push.{refresh_open_sync-Keeps}
use vivado_server.Workflow.Slot.{At, modify-At}

-- Where `P` holds and a workflow is held before the handler, `P` holds after it.
record Leads {W A : Type 0} (P : Manager → Type 0) (h : ℕ) (m : M W A) : Type 0 where
  lead : (s : Machine W) → P s.manager → IsHeld h s.manager → P (m s).1.manager

-- The write half is held, in any phase.
record IsLocked (h : ℕ) (m : Manager) : Type 0 where
  inside : Workflow
  there : At m h inside
  writing : inside.writing ≡ true

close_plan-IsHeld : (h : ℕ) (m : Manager) → IsHeld h m → IsHeld h (modify h close_plan m)
unfolding close_plan
close_plan-IsHeld h m k = record {
  held = close_plan k.held;
  at = modify-At h close_plan m k.held k.at;
  writing = k.writing;
  starting = k.starting;
}

-- The phase of a workflow that a guard has let pass.
phase-status : (s : WorkflowStatus) (w : Workflow) → phase (s ∷ []) w ≡ ok tt → w.status ≡ s
unfolding phase contains
phase-status s w e = elim (Bool-cases (not w.initializing && contains (s ∷ []) w.status)) [
  | inl allowed ↦ sym (same_status_eq s w.status (ground arith))
  | inr other ↦ ground (arith, phase)
]

Both : (Manager → Type 0) → ℕ → Manager → Type 0
Both P h m = P m × IsHeld h m

module _ {W : Type 0} (P : Manager → Type 0) (h : ℕ) where
  next-leads :
      {A B : Type 0} (r : Outcome A) (f : A → M W B) (t : Machine W)
      → ((a : A) → Leads P h (f a))
      → P t.manager
      → IsHeld h t.manager
      → P (next r f t).1.manager
  unfolding next
  next-leads (done a) f t l p k = (l a).lead t p k
  next-leads (refused e) f t l p k = p
  next-leads blocked f t l p k = p

  Leads-bind :
      {A B : Type 0} {m : M W A} {f : A → M W B}
      → Keeps (Both P h) m
      → ((a : A) → Leads P h (f a))
      → Leads P h (m >>= f)
  unfolding ◌>>=◌ Both
  Leads-bind {m = m} {f = f} k l = record {
    lead = λ s p held. let (q, i) = k.after s (p, held) in next-leads (m s).0 f (m s).1 l q i;
  }

  Leads-then :
      {B : Type 0} {m : M W (Unit {0})} {k : M W B}
      → Keeps (Both P h) m
      → Leads P h k
      → Leads P h (m >> k)
  unfolding ◌>>◌
  Leads-then k l = Leads-bind k (λ u. l)

  Leads-kept : {A : Type 0} {m : M W A} → Keeps P m → Leads P h m
  Leads-kept k = record { lead = λ s p held. k.after s p }

  -- The phase is checked while the lock is held.
  locked_phase :
      {A : Type 0} (k : Workflow → M W A) (s : Machine W)
      → ((w : Workflow) → Leads P h (k w))
      → P s.manager
      → IsLocked h s.manager
      → P ((object h >>= λ w. check (phase (WorkflowStatus.preparing ∷ []) w) >> k w) s).1.manager
  unfolding ◌>>=◌ ◌>>◌ next object fetched check of_result is_starting same_status
  locked_phase k s l p i = elim (Result-cases (phase (WorkflowStatus.preparing ∷ []) i.inside)) [
    | inl (e, other) ↦ rw (i.there, other) p
    | inr (u, allowed) ↦
        let at_work = phase-status WorkflowStatus.preparing i.inside allowed in
        rw (i.there, allowed)
          ((l i.inside).lead s p
            (record { held = i.inside; at = i.there; writing = i.writing; starting = rw at_work }))
  ]

  module _ (c : Closed P) (others : ℕ → Machine W → Machine W)
      (respect : (n : ℕ) (s : Machine W) → P s.manager → P (others n s).manager)
      (hold : (n : ℕ) (s : Machine W) → IsHeld h s.manager → IsHeld h (others n s).manager)
      (svc : Services W) where
    respect-Both : (n : ℕ) (s : Machine W) → Both P h s.manager → Both P h (others n s).manager
    unfolding Both
    respect-Both n s (p, k) = (respect n s p, hold n s k)

    settle_start-Leads :
        (result : Result SessionInfo) → Leads P h (settle_start others svc h result)
    unfolding settle_start update ◌>>◌ ◌>>=◌ next act give
    settle_start-Leads (ok session) = record {
      lead = λ s p k. c.starts h session.session_id s.manager k.held k.at k.starting p;
    }
    settle_start-Leads (err e) =
        Leads-kept (Keeps-then P (fail-Keeps P c h e true) (Keeps-fail P e))

    start_marked-Leads :
        (id : ℕ) (project : Str) (args : List Str) (marked : Result (Unit {0}))
        → Leads P h (start_marked others svc h id project args marked)
    unfolding start_marked
    start_marked-Leads id project args (err e) =
        Leads-kept (Keeps-then P (fail-Keeps P c h e true) (Keeps-fail P e))
    start_marked-Leads id project args (ok u) = Leads-bind (Keeps-object (Both P h) h) λ w.
        Leads-then (Keeps-check (Both P h) _) (
          Leads-bind
            (Keeps-attempt (Both P h)
              (Keeps-call (Both P h) others respect-Both 6 (svc.create_session project args id)))
            settle_start-Leads)

    closes-Both : (m : Manager) → Both P h m → Both P h (modify h close_plan m)
    unfolding Both
    closes-Both m (p, k) = (c.writes h close_plan m closes_plan p, close_plan-IsHeld h m k)

    start_locked-keeps :
        (id : ℕ) (args : List Str) (s : Machine W)
        → P s.manager
        → IsLocked h s.manager
        → P (start_locked others svc h id args s).1.manager
    unfolding start_locked
    start_locked-keeps id args s p i =
        locked_phase _ s
          (λ w.
            Leads-then (refresh_open_sync-Keeps (Both P h) others respect-Both svc h closes-Both) (
              Leads-bind (Keeps-object (Both P h) h) λ v. Leads-then (Keeps-check (Both P h) _) (
                Leads-then (Keeps-check (Both P h) _) (
                  Leads-bind
                    (Keeps-attempt (Both P h)
                      (Keeps-call (Both P h) others respect-Both 5 (svc.mark_dirty v.project)))
                    (start_marked-Leads id v.project args)))))
          p i

    start_exclusive :
        (id : ℕ) (args : List Str) (b : Bool) (s : Machine W)
        → can_lock (get_elem? s.manager.objects h) ≡ b
        → P s.manager
        → P (exclusive_if b h (start_locked others svc h id args) s).1.manager
    unfolding exclusive_if exclusive lock can_lock
    start_exclusive id args true s free p = elim (Option-cases (get_elem? s.manager.objects h)) [
      | inl gone ↦ ground (arith)
      | inr (w, at) ↦ c.writes h unlock _ unlocks (
          start_locked-keeps id args _ (c.acquires h s.manager w at (rw at at free) p)
            (record { inside = lock w; there = modify-At h lock s.manager w at; writing = refl }))
    ]
    start_exclusive id args false s free p = p

    start_under_lock :
        (n id : ℕ) (args : List Str)
        → Keeps P (locked others n h (start_locked others svc h id args))
    unfolding locked
    start_under_lock n id args = record {
      after = λ s p. start_exclusive id args _ (others n s) refl (respect n s p);
    }

module _ {W : Type 0} (P : Manager → Type 0) (c : Closed P) (others : ℕ → Machine W → Machine W)
    (respect : (n : ℕ) (s : Machine W) → P s.manager → P (others n s).manager)
    (svc : Services W) where
  pub start_session-Keeps :
      ((h n : ℕ) (s : Machine W) → IsHeld h s.manager → IsHeld h (others n s).manager)
      → (id : ℕ) (args : List Str) → Keeps P (start_session others svc id args)
  unfolding start_session
  start_session-Keeps hold id args = Keeps-then P (Keeps-check P _) (
      Keeps-managed P others respect _ (
        Keeps-bind P (handle-Keeps P c id)
          λ h. start_under_lock P h c others respect (hold h) svc 2 id args))
