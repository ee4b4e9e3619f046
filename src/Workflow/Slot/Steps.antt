-- ===== src/Workflow/Slot/Steps.antt =====
-- src/workflow.rs: every step on the registry keeps the slot's invariant.
use mathlib.Core.Bool.{true≢false}
use mathlib.Core.Option.{some-injective, none-ne-some}
use vivado_server.Base.{
  ℕ, ◌≡◌, refl, sym, ◌∙◌, ap, ◌==◌, if◌then◌else◌, Bool, true, false, ◌||◌, not, Option, none, some,
  List, ◌∷◌, inl, inr, Bool-cases, Option-cases, ==_iff, arith,
}
use vivado_server.Base.Maps.{get_elem?, set, get_elem?-set, get_elem?-set_self, get_elem?-set_ne}
use vivado_server.Error.{AppError}
use vivado_server.Session.Model.{TerminationReason}
use vivado_server.Workflow.Model.{
  WorkflowStatus, is_terminal, same_status, same_status_eq, WorkflowData, Workflow,
}
use vivado_server.Workflow.Registry.{Manager, modify, transition}
use vivado_server.Workflow.Cleanup.{
  holds_slot, stop, enlist, request_cleanup, may_end, end_as, terminal,
}
use vivado_server.Workflow.Slot.{is_some, At, Inv, Inv-unique, Quiet, write-Inv}

-- `transition` sets the status and leaves the rest.
pub transition_lem :
    (next : WorkflowStatus) (d : WorkflowData)
    → transition next d ≡ record d { info = record (d.info) { status = next } }
unfolding transition
transition_lem next d = elim (Bool-cases (same_status d.status next)) [
  | inl same ↦ rw same (ground (arith, same_status_eq d.status next same))
  | inr other ↦ rw other
]

stop-aim :
    (target old : WorkflowStatus)
    → is_terminal old ≡ true
    → is_terminal (if same_status target WorkflowStatus.failed then target else old) ≡ true
unfolding is_terminal
stop-aim target old h = elim (Bool-cases (same_status target WorkflowStatus.failed)) [
  | inl fails ↦ rw fails (rw (same_status_eq target WorkflowStatus.failed fails))
  | inr other ↦ rw other h
]

stop-Quiet :
    (target : WorkflowStatus) (error : Option AppError) (invalidate : Bool) (w : Workflow)
    → is_terminal w.status ≡ false
    → Quiet w (stop target error invalidate w)
unfolding stop is_terminal
stop-Quiet target error invalidate w live = rw transition_lem (record {
  same_id = refl;
  same_life = sym live;
  same_end = refl;
  aim = stop-aim target w.cleanup_target;
})

enlist-Quiet :
    (target : WorkflowStatus) (error : Option AppError) (invalidate : Bool)
    (reason : TerminationReason) (w : Workflow)
    → is_terminal w.status ≡ false
    → Quiet w (enlist reason (stop target error invalidate w))
unfolding stop enlist is_terminal
enlist-Quiet target error invalidate reason w live = rw transition_lem (record {
  same_id = refl;
  same_life = sym live;
  same_end = refl;
  aim = stop-aim target w.cleanup_target;
})

-- The invariant speaks of neither the workers nor the clocks nor admission.
pub Inv-elsewhere :
    (m : Manager) (stopping : Bool) (workers : List ℕ) (now wall : ℕ)
    → Inv m
    → Inv (record m { stopping = stopping; workers = workers; now = now; wall = wall })
Inv-elsewhere m stopping workers now wall v = record {
  slot = v.slot;
  owned = v.owned;
  entered = v.entered;
  dated = v.dated;
  aimed = v.aimed;
  distinct = v.distinct;
}

-- A request for cleanup is void, or is recorded, or is recorded and starts the worker.
pub request_cleanup_cases {ℓ} :
    (P : Manager → Type ℓ) (h : ℕ) (reason : TerminationReason) (target : WorkflowStatus)
    (error : Option AppError) (invalidate : Bool) (m : Manager)
    → P m
    → ((w : Workflow)
        → At m h w
        → is_terminal w.status ≡ false
        → w.cleanup_started ≡ true
        → P (record m { objects = set m.objects h (stop target error invalidate w) }))
    → ((w : Workflow)
        → At m h w
        → is_terminal w.status ≡ false
        → w.cleanup_started ≡ false
        → P (record m {
          objects = set m.objects h (enlist reason (stop target error invalidate w));
          workers = h ∷ m.workers;
        }))
    → P (request_cleanup h reason target error invalidate m)
unfolding request_cleanup
request_cleanup_cases P h reason target error invalidate m void again first =
    elim (Option-cases (get_elem? m.objects h)) [
      | inl gone ↦ rw (gone, request_cleanup) void
      | inr (w, at) ↦
          elim (Bool-cases (is_terminal w.status || not (holds_slot m.active w.workflow_id))) [
            | inl refused ↦ rw (at, request_cleanup, refused) void
            | inr live ↦ elim (Bool-cases w.cleanup_started) [
              | inl started ↦
                  simp (at, request_cleanup, live, started) (again w at (ground arith) started)
              | inr idle ↦ simp (at, request_cleanup, live, idle) (first w at (ground arith) idle)
            ]
          ]
    ]

pub request_cleanup-Inv :
    (h : ℕ) (reason : TerminationReason) (target : WorkflowStatus) (error : Option AppError)
    (invalidate : Bool) (m : Manager)
    → Inv m
    → Inv (request_cleanup h reason target error invalidate m)
request_cleanup-Inv h reason target error invalidate m v =
    request_cleanup_cases Inv h reason target error invalidate m v
      (λ w at live started. write-Inv m h w _ v at (stop-Quiet target error invalidate w live))
      (λ w at live idle.
        Inv-elsewhere _ m.stopping (h ∷ m.workers) m.now m.wall
          (write-Inv m h w _ v at (enlist-Quiet target error invalidate reason w live)))

pub modify-Inv :
    (h : ℕ) (f : Workflow → Workflow) (m : Manager)
    → ((w : Workflow) → Quiet w (f w))
    → Inv m
    → Inv (modify h f m)
unfolding modify
modify-Inv h f m q v = elim (Option-cases (get_elem? m.objects h)) [
  | inl gone ↦ rw (gone, modify) v
  | inr (w, at) ↦ rw (at, modify) (write-Inv m h w (f w) v at (q w))
]

end_as-fields :
    (status : WorkflowStatus) (error : Option AppError) (full : Bool) (now wall : ℕ) (w : Workflow)
    → let w' = end_as status error full now wall w in
      (w'.workflow_id ≡ w.workflow_id)
      × (w'.status ≡ status)
      × (w'.ended ≡ some now)
      × (w'.cleanup_target ≡ w.cleanup_target)
unfolding end_as
end_as-fields status error full now wall w = rw transition_lem (refl, refl, refl, refl)

-- `terminal` has no effect, or ends a workflow that had not ended and frees its slot.
pub terminal_cases {ℓ} :
    (P : Bool × Manager → Type ℓ) (h : ℕ) (status : WorkflowStatus) (error : Option AppError)
    (full : Bool) (m : Manager)
    → ((done : Bool) → P (done, m))
    → ((w : Workflow)
        → At m h w
        → is_terminal w.status ≡ false
        → may_end status full w ≡ true
        → P (
          true,
          record m {
            objects = set m.objects h (end_as status error full m.now m.wall w);
            active = if holds_slot m.active w.workflow_id then none else m.active;
          },
        ))
    → P (terminal h status error full m)
unfolding terminal
terminal_cases P h status error full m void ends = elim (Option-cases (get_elem? m.objects h)) [
  | inl gone ↦ rw (gone, terminal) (void false)
  | inr (w, at) ↦ elim (Bool-cases (is_terminal w.status)) [
    | inl over ↦ rw (at, terminal, over) (void _)
    | inr live ↦ elim (Bool-cases (may_end status full w)) [
      | inl may ↦ rw (at, terminal, live, may) (ends w at live may)
      | inr may_not ↦ rw (at, terminal, live, may_not) (void false)
    ]
  ]
]

-- The owner of the slot ends, and the slot is free.
ended-Inv :
    (m : Manager) (h : ℕ) (w w' : Workflow)
    → Inv m
    → At m h w
    → is_terminal w.status ≡ false
    → w'.workflow_id ≡ w.workflow_id
    → is_terminal w'.status ≡ true
    → is_some w'.ended ≡ true
    → is_terminal w'.cleanup_target ≡ true
    → Inv (record m { active = none; objects = set m.objects h w' })
ended-Inv m h w w' v at live same over dated aim = record {
  slot = λ j u a live'. elim (get_elem?-set m.objects h j w' a) [
    | inl (e, f) ↦
        let over' : is_terminal u.status ≡ true = rw f over in
        absurd (true≢false (sym over' ∙ live'))
    | inr (n, f) ↦ absurd (n (Inv-unique m v h j w u at f live live'))
  ];
  owned = λ id e. absurd (none-ne-some id e);
  entered = λ id j e.
      let (u, a, i) = v.entered id j e in
      elim (Bool-cases (h == j)) [
        | inl here ↦
            let e' : h ≡ j = (==_iff h j).0 here in
            let f : u ≡ w = some-injective _ _ (sym a ∙ rw (← e') at) in
            (
              w',
              rw (← e') (get_elem?-set_self m.objects h w' at),
              same ∙ ap (λ (x : Workflow). x.workflow_id) (sym f) ∙ i,
            )
        | inr there ↦ (u, get_elem?-set_ne m.objects h j w' (ground arith) ∙ a, i)
      ];
  dated = λ j u a. elim (get_elem?-set m.objects h j w' a) [
    | inl (e, f) ↦ rw f (dated ∙ sym over)
    | inr (n, f) ↦ v.dated j u f
  ];
  aimed = λ j u a. elim (get_elem?-set m.objects h j w' a) [
    | inl (e, f) ↦ rw f aim
    | inr (n, f) ↦ v.aimed j u f
  ];
  distinct = v.distinct;
}

pub terminal-Inv :
    (h : ℕ) (status : WorkflowStatus) (error : Option AppError) (full : Bool) (m : Manager)
    → is_terminal status ≡ true
    → Inv m
    → Inv (terminal h status error full m).1
terminal-Inv h status error full m final v =
    terminal_cases (λ r. Inv r.1) h status error full m (λ done. v)
      λ w at live may.
        let w' = end_as status error full m.now m.wall w in
        let (same, is, ended, kept) = end_as-fields status error full m.now m.wall w in
        let e : (if holds_slot m.active w.workflow_id then none else m.active) ≡ none =
          unfold holds_slot in ground (arith, v.slot h w at live) in
        rw e (
          ended-Inv m h w w' v at live same (rw is final) (ap (λ (x : Option ℕ). is_some x) ended)
            (rw kept (v.aimed h w at)))
