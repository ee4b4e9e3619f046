-- ===== src/Workflow/Lifetime.antt =====
-- src/workflow.rs: what holds of every manager that the steps lead to from an empty registry, and
-- what the sections of `create` and `terminal` promise.
use mathlib.Core.Bool.{true≢false}
use mathlib.Core.Option.{none-ne-some}
use vivado_server.Base.{
  ℕ, ◌≡◌, refl, sym, ◌∙◌, =s=_self, length, Bool, true, false, ◌&&◌, not, Option, none, some, [],
  ◌∷◌, ◌++◌, inl, inr, Bool-cases, Option-cases, if◌then◌else◌, ==_iff, arith,
}
use vivado_server.Base.Maps.{
  lookup, insert, get_elem?, lookup-insert, get_elem?-set_self, get_elem?-append_last,
}
use vivado_server.Error.{AppError, ok}
use vivado_server.Workflow.Model.{
  WorkflowStatus, is_terminal, CreateWorkflowRequest, Workflow, fresh,
}
use vivado_server.Workflow.Registry.{
  Manager, new, reserve, claim, existing, same_request, same_bool, seen, claimed,
}
use vivado_server.Workflow.Cleanup.{holds_slot, may_end, end_as, terminal}
use vivado_server.Workflow.Slot.{At, Inv, Inv-unique}
use vivado_server.Workflow.Slot.Steps.{transition_lem}
use vivado_server.Workflow.Steps.{Steps}
use vivado_server.Workflow.Steps.Invariant.{Steps-Inv}
use vivado_server.Workflow.Steps.Workers.{Tidy}

pub new-Inv : (now wall : ℕ) → Inv (new now wall)
unfolding new lookup
new-Inv now wall = record {
  slot = λ h w at. absurd (none-ne-some w at);
  owned = λ id e. absurd (none-ne-some id e);
  entered = λ id h e. absurd (none-ne-some h e);
  dated = λ h w at. absurd (none-ne-some w at);
  aimed = λ h w at. absurd (none-ne-some w at);
  distinct = tt;
}

pub new-Tidy : (now wall : ℕ) → Tidy (new now wall)
unfolding new
new-Tidy now wall = record {
  tidy = λ h w at. absurd (none-ne-some w at);
  worker = λ h w at. absurd (none-ne-some w at);
  no_worker = λ h e. refl;
}

-- From an empty registry, however the steps interleave, two workflows that have not ended are one
-- and the same.
pub one_unfinished :
    (now wall : ℕ) (m : Manager) (h h' : ℕ) (w w' : Workflow)
    → Steps (new now wall) m
    → At m h w
    → At m h' w'
    → is_terminal w.status ≡ false
    → is_terminal w'.status ≡ false
    → h ≡ h'
one_unfinished now wall m h h' w w' s at at' live live' =
    Inv-unique m (Steps-Inv s (new-Inv now wall)) h h' w w' at at' live live'

same_request_self : (r : CreateWorkflowRequest) → same_request r r ≡ true
unfolding same_request same_bool
same_request_self r = ground (arith, =s=_self r.project)

-- The registry once the slot is claimed.
claiming : ℕ → CreateWorkflowRequest → Manager → Manager
claiming id request m = record m {
  active = some id;
  entries = insert id (length m.objects) m.entries;
  objects = m.objects ++ (fresh id request m.now m.wall ∷ []);
}

claimed-lem :
    (id : ℕ) (request : CreateWorkflowRequest) (m : Manager) (h : ℕ)
    → (reserve id request m).0 ≡ ok (claimed h)
    → (m.stopping ≡ false)
      × (h ≡ length m.objects)
      × ((reserve id request m).1 ≡ claiming id request m)
unfolding reserve claim existing claiming
claimed-lem id request m h e = elim (Bool-cases m.stopping) [
  | inl closed ↦ ground (arith, e, closed)
  | inr opened ↦ elim (Option-cases (lookup id m.entries)) [
    | inr (j, known) ↦ elim (Option-cases (get_elem? m.objects j)) [
      | inl gone ↦ ground (arith, e, opened, known, gone)
      | inr (w, at) ↦ ground (arith, e, opened, known, at)
    ]
    | inl unknown ↦ elim (Option-cases m.active) [
      | inr (other, busy) ↦ ground (arith, e, opened, unknown, busy)
      | inl idle ↦ (
        opened,
        ground (arith, e, opened, unknown, idle),
        simp (reserve, opened, unknown, idle, claim) refl,
      )
    ]
  ]
]

existing-fresh :
    (h id : ℕ) (request : CreateWorkflowRequest) (now wall : ℕ)
    → existing h request (some (fresh id request now wall)) ≡ ok (seen h)
unfolding existing fresh
existing-fresh h id request now wall = rw (same_request_self request) refl

reserve-known :
    (id : ℕ) (request : CreateWorkflowRequest) (m : Manager) (h : ℕ)
    → m.stopping ≡ false
    → lookup id m.entries ≡ some h
    → existing h request (get_elem? m.objects h) ≡ ok (seen h)
    → reserve id request m ≡ (ok (seen h), m)
unfolding reserve
reserve-known id request m h opened known same = simp (reserve, opened, known, same) refl

claiming-again :
    (id : ℕ) (request : CreateWorkflowRequest) (m : Manager)
    → m.stopping ≡ false
    → reserve id request (claiming id request m)
      ≡ (ok (seen (length m.objects)), claiming id request m)
unfolding claiming
claiming-again id request m opened =
    let known : lookup id (insert id (length m.objects) m.entries) ≡ some (length m.objects) =
      lookup-insert id id (length m.objects) m.entries ∙ rw ((==_iff id id).1 refl) refl in
    let there = get_elem?-append_last m.objects (fresh id request m.now m.wall) in
    reserve-known id request (claiming id request m) (length m.objects) opened known
      (rw there (existing-fresh (length m.objects) id request m.now m.wall))

-- A creation that has claimed the slot is idempotent: asked for again, it finds the workflow that
-- it made, and changes nothing.
pub reserve-again :
    (id : ℕ) (request : CreateWorkflowRequest) (m : Manager) (h : ℕ)
    → (reserve id request m).0 ≡ ok (claimed h)
    → reserve id request (reserve id request m).1 ≡ (ok (seen h), (reserve id request m).1)
reserve-again id request m h e =
    let (opened, new_one, becomes) = claimed-lem id request m h e in
    rw (becomes, new_one) (claiming-again id request m opened)

-- If `terminal` ends a live workflow under the slot's rules, the status, the need for a full upload
-- and the time are as asked, the slot is free, and an invalidated project needs a full upload.
pub terminal_lem :
    (h : ℕ) (status : WorkflowStatus) (error : Option AppError) (full : Bool) (m : Manager)
    (w : Workflow)
    → Inv m
    → At m h w
    → is_terminal w.status ≡ false
    → (terminal h status error full m).0 ≡ true
    → (w' : Workflow) × At (terminal h status error full m).1 h w'
      × (w'.status ≡ status)
      × (w'.requires_full_upload ≡ full)
      × (w'.ended ≡ some m.now)
      × ((terminal h status error full m).1.active ≡ none)
      × ((w.invalidate_project && not full) ≡ false)
unfolding terminal may_end end_as
terminal_lem h status error full m w v at live ended = elim (Bool-cases (may_end status full w)) [
  | inr may_not ↦ absurd (true≢false (sym ended ∙ rw (terminal, at, live, may_not) refl))
  | inl may ↦
      let free : (if holds_slot m.active w.workflow_id then none else m.active) ≡ none =
        unfold holds_slot in ground (arith, v.slot h w at live) in
      let w' = end_as status error full m.now m.wall w in
      rw (terminal, at, live, may)
        (
          w',
          get_elem?-set_self m.objects h w' at,
          rw transition_lem refl,
          refl,
          refl,
          free,
          ground (arith, may),
        )
]

pub terminal-may_end :
    (h : ℕ) (status : WorkflowStatus) (error : Option AppError) (full : Bool) (m : Manager)
    (w : Workflow)
    → At m h w
    → is_terminal w.status ≡ false
    → may_end status full w ≡ true
    → (terminal h status error full m).0 ≡ true
unfolding terminal
terminal-may_end h status error full m w at live may = rw (terminal, at, live, may) refl
