-- ===== src/Workflow/Worker.antt =====
-- src/workflow.rs: `cleanup_workflow` ends its workflow once the services let it.
use vivado_server.Base.{
  if◌then◌else◌, ℕ, suc, ◌≡◌, refl, ◌∙◌, Bool, true, false, ◌&&◌, not, none, Option-cases, inl, inr,
  arith,
}
use vivado_server.Base.Maps.{get_elem?}
use vivado_server.Error.{ok}
use vivado_server.Session.Model.{SessionInfo, TerminationReason}
use vivado_server.Session.Model
use vivado_server.Workflow.Model.{WorkflowStatus, is_terminal, same_status, Workflow}
use vivado_server.Workflow.Registry.{Manager, modify}
use vivado_server.Workflow.Cleanup.{may_end}
use vivado_server.Workflow.Sections.{is_free, lock, unlock}
use vivado_server.Workflow.Machine.{
  Machine, done, give, ◌>>=◌, ◌>>◌, next, attempt, settle, object, fetched, of_result, call, locked,
  exclusive, exclusive_if, can_lock,
}
use vivado_server.Workflow.Services.{Services}
use vivado_server.Workflow.Handlers.{end_workflow}
use vivado_server.Workflow.Handlers.Ending.{
  degraded, confirm_stopped, confirm_idle, stop_process, release_services, settle_round,
  cleanup_round, cleanup_rounds, cleanup_workflow,
}
use vivado_server.Workflow.Slot.{At, Inv, modify-At}
use vivado_server.Workflow.Steps.{none_yet, step, locking}
use vivado_server.Workflow.Steps.Invariant.{Steps-Inv}
use vivado_server.Workflow.Lifetime.{terminal-may_end, terminal_lem}

-- No other task is at work.
abbrev pub undisturbed : {W : Type 0} → ℕ → Machine W → Machine W
undisturbed n s = s

and_not : (b : Bool) → (b && not b) ≡ false
and_not true = refl
and_not false = refl

and_false : (a b : Bool) → (a ≡ true → b ≡ false) → (a && b) ≡ false
and_false true b h = h refl
and_false false b h = refl

module _ {W : Type 0} (svc : Services W) (w : Workflow)
    (stops : (id : ℕ) (reason : TerminationReason) (x : W)
      → (session : SessionInfo) × (y : W) × (svc.stop_session id reason x ≡ (ok session, y))
        × (Model.is_terminal session.status ≡ true))
    (sure : (x : W) → svc.sessions_degraded x ≡ false) (IsDirty : W → Type 0)
    (marks : (x : W) → (y : W) × (svc.mark_dirty w.project x ≡ (ok tt, y)) × IsDirty y)
    (aborts : (x : W)
      → (y : W) × (svc.abort_open w.project x ≡ (ok tt, y)) × (IsDirty x → IsDirty y))
    (reads : (x : W)
      → (clean : Bool) × (y : W) × (svc.is_clean w.project x ≡ (ok clean, y))
        × (IsDirty x → clean ≡ false)) where
  process_stops :
      (s : Machine W)
      → (y : W) × (stop_process undisturbed svc w s ≡ (done tt, record s { world = y }))
  unfolding stop_process confirm_stopped confirm_idle degraded ◌>>=◌ next call of_result give
  process_stops s = elim (Option-cases w.session_id) [
    | inl never ↦ (s.world, rw (never, sure s.world) refl)
    | inr (id, began) ↦
        let (session, y, e, over) = stops id w.stop_reason s.world in (y, rw (began, e, over) refl)
  ]

  invalidated :
      (invalidate : Bool) (s : Machine W)
      → (y : W) × ((if invalidate then call undisturbed 2 (svc.mark_dirty w.project) else give tt) s
          ≡ (done tt, record s { world = y }))
        × (invalidate ≡ true → IsDirty y)
  unfolding call of_result give
  invalidated true s = let (y, e, dirty) = marks s.world in (y, rw e refl, λ _. dirty)
  invalidated false s = (s.world, refl, λ never. absurd (ground (arith, never)))

  services_release :
      (s : Machine W)
      → (clean : Bool) × (y : W) × (release_services undisturbed svc w s
          ≡ (done clean, record s { world = y }))
        × ((w.invalidate_project && clean) ≡ false)
  unfolding release_services ◌>>◌ ◌>>=◌ next call of_result give
  services_release s =
      let (y, e) = process_stops s in
      let (y', e', dirty) = invalidated w.invalidate_project (record s { world = y }) in
      let (y'', e'', stays_dirty) = aborts y' in
      let (clean, z, f, read) = reads y'' in
      (
        clean,
        z,
        rw (e, e', e'', f) refl,
        and_false w.invalidate_project clean (λ spoilt. read (stays_dirty (dirty spoilt))),
      )

  -- One round ends the workflow.
  round_ends :
      (h : ℕ) (s : Machine W)
      → Inv s.manager
      → At s.manager h w
      → is_terminal w.status ≡ false
      → same_status w.cleanup_target WorkflowStatus.completed ≡ false
      → let r = cleanup_round undisturbed svc h s in
        (r.0 ≡ done true)
        × ((w' : Workflow) × At r.1.manager h w' × (w'.status ≡ w.cleanup_target))
        × (r.1.manager.active ≡ none)
  unfolding cleanup_round settle_round end_workflow ◌>>=◌ next object fetched attempt settle give
  round_ends h s v at live failing =
      let (clean, y, e, may) = services_release s in
      let allowed : may_end w.cleanup_target (not clean) w ≡ true =
        unfold may_end in ground (arith, failing, may) in
      let ends =
        terminal-may_end h w.cleanup_target w.terminal_error (not clean) s.manager w at live
          allowed in
      let (w', at', is, full, dated, free, kept) =
        terminal_lem h w.cleanup_target w.terminal_error (not clean) s.manager w v at live ends in
      rw (at, live, e, at, and_not w.invalidate_project, ends) (refl, (w', at', is), free)

rounds_stop :
    {W : Type 0} (svc : Services W) (rounds h : ℕ) (s : Machine W)
    → (cleanup_round undisturbed svc h s).0 ≡ done true
    → cleanup_rounds undisturbed svc (suc rounds) h s
      ≡ (done tt, (cleanup_round undisturbed svc h s).1)
unfolding cleanup_rounds ◌>>=◌ next give
rounds_stop svc rounds h s ends = rw (cleanup_rounds, ends) refl

modify-active : (h : ℕ) (f : Workflow → Workflow) (m : Manager) → (modify h f m).active ≡ m.active
unfolding modify
modify-active h f m = elim (Option-cases (get_elem? m.objects h)) [
  | inl gone ↦ rw (modify, gone) refl
  | inr (w, at) ↦ rw (modify, at) refl
]

-- Where no other task is at work, the session manager stops the process and is sure of its starts,
-- and neither the project store nor the sync manager fails, the cleanup worker ends a live workflow
-- whose lock is free, and whose cleanup does not ask for completion, in its first round: it returns,
-- the workflow has ended as its cleanup asks, and the slot is free. The project store must call a
-- project unclean from when it is marked dirty on, also after the abort of its plans.
pub cleanup_workflow-ends :
    {W : Type 0} (svc : Services W) (w : Workflow)
    → ((id : ℕ) (reason : TerminationReason) (x : W)
        → (session : SessionInfo) × (y : W) × (svc.stop_session id reason x ≡ (ok session, y))
          × (Model.is_terminal session.status ≡ true))
    → ((x : W) → svc.sessions_degraded x ≡ false)
    → (IsDirty : W → Type 0)
    → ((x : W) → (y : W) × (svc.mark_dirty w.project x ≡ (ok tt, y)) × IsDirty y)
    → ((x : W) → (y : W) × (svc.abort_open w.project x ≡ (ok tt, y)) × (IsDirty x → IsDirty y))
    → ((x : W)
        → (clean : Bool) × (y : W) × (svc.is_clean w.project x ≡ (ok clean, y))
          × (IsDirty x → clean ≡ false))
    → (rounds h : ℕ) (s : Machine W) → Inv s.manager
    → At s.manager h w
    → is_terminal w.status ≡ false
    → is_free w ≡ true
    → same_status w.cleanup_target WorkflowStatus.completed ≡ false
    → let r = cleanup_workflow undisturbed svc (suc rounds) h s in
      (r.0 ≡ done tt)
      × ((w' : Workflow) × At r.1.manager h w' × (w'.status ≡ w.cleanup_target))
      × (r.1.manager.active ≡ none)
unfolding cleanup_workflow locked exclusive exclusive_if can_lock lock unlock
cleanup_workflow-ends svc w stops sure IsDirty marks aborts reads rounds h s v at live free
      failing =
    let t = record s { manager = modify h lock s.manager } in
    let inside = Steps-Inv (step none_yet (locking h s.manager w at free)) v in
    let (ends, (w', at', is), slot) =
      round_ends svc (lock w) stops sure IsDirty marks aborts reads h t inside
        (modify-At h lock s.manager w at) live failing in
    rw (at, free, rounds_stop svc rounds h t ends)
      (
        refl,
        (unlock w', modify-At h unlock (cleanup_round undisturbed svc h t).1.manager w' at', is),
        modify-active h unlock (cleanup_round undisturbed svc h t).1.manager ∙ slot,
      )
