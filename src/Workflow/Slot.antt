-- ===== src/Workflow/Slot.antt =====
-- src/workflow.rs: the one slot. What every step keeps: a workflow that has not ended owns the slot.
pub mod Steps
pub mod Operations
use vivado_server.Base.{
  ℕ, ◌+◌, ◌≤◌, ◌<◌, ◌≡◌, ◌≢◌, refl, sym, ◌∙◌, ap, ◌==◌, if◌then◌else◌, length, Bool, true, false,
  ◌||◌, ◌&&◌, not, Option, none, some, List, [], ◌∷◌, ◌++◌, ◌⊎◌, inl, inr, Bool-cases, Option-cases,
  ==_iff, arith,
}
use vivado_server.Base.Maps.{
  lookup, insert, get_elem?, set, lookup-insert, get_elem?-set, get_elem?-set_self,
  get_elem?-set_ne, get_elem?-append, get_elem?-append_left, get_elem?-append_last, NodupKeys,
  insert-NodupKeys,
}
use mathlib.Core.Option.{some-injective}
use vivado_server.Error.{AppError, Result, ok, err}
use vivado_server.Session.Model.{TerminationReason}
use vivado_server.Workflow.Model.{
  WorkflowStatus, is_terminal, same_status, CreateWorkflowRequest, WorkflowInfo, WorkflowData,
  Workflow, fresh,
}
use vivado_server.Workflow.Registry.{Manager, modify, transition, reserve}
use vivado_server.Workflow.Cleanup.{
  holds_slot, stop, enlist, request_cleanup, may_end, end_as, terminal, expire_active,
  active_handle, close_admission,
}

abbrev pub is_some {ℓ} : {A : Type ℓ} → Option A → Bool
is_some none = false
is_some (some a) = true

-- The handle `h` holds the workflow `w`.
abbrev pub At : Manager → ℕ → Workflow → Type 0
At m h w = get_elem? m.objects h ≡ some w

-- Every object that has not ended owns the slot, and is the entry of its ID. The slot is owned by
-- such an object. Each entry is an object of its ID. What has ended says so, and nothing else does.
-- A cleanup aims at an end.
pub record Inv (m : Manager) : Type 0 where
  pub slot :
      (h : ℕ) (w : Workflow)
      → At m h w
      → is_terminal w.status ≡ false
      → (m.active ≡ some w.workflow_id) × (lookup w.workflow_id m.entries ≡ some h)
  pub owned :
      (id : ℕ)
      → m.active ≡ some id
      → (h : ℕ) × (w : Workflow) × At m h w × (w.workflow_id ≡ id) × (is_terminal w.status ≡ false)
  pub entered :
      (id h : ℕ) → lookup id m.entries ≡ some h → (w : Workflow) × At m h w × (w.workflow_id ≡ id)
  pub dated : (h : ℕ) (w : Workflow) → At m h w → is_some w.ended ≡ is_terminal w.status
  pub aimed : (h : ℕ) (w : Workflow) → At m h w → is_terminal w.cleanup_target ≡ true
  pub distinct : NodupKeys m.entries

-- Two objects that have not ended are one and the same.
pub Inv-unique :
    (m : Manager)
    → Inv m
    → (h h' : ℕ) (w w' : Workflow) → At m h w
    → At m h' w'
    → is_terminal w.status ≡ false
    → is_terminal w'.status ≡ false
    → h ≡ h'
Inv-unique m v h h' w w' a a' live live' =
    let (s, l) = v.slot h w a live in
    let (s', l') = v.slot h' w' a' live' in ground (arith, s, s', l, l')

-- A write that keeps the ID, and that neither ends nor revives the workflow.
pub record Quiet (w w' : Workflow) : Type 0 where
  pub same_id : w'.workflow_id ≡ w.workflow_id
  pub same_life : is_terminal w'.status ≡ is_terminal w.status
  pub same_end : is_some w'.ended ≡ is_some w.ended
  pub aim : is_terminal w.cleanup_target ≡ true → is_terminal w'.cleanup_target ≡ true

-- What a handle holds after a quiet write elsewhere or to it.
write-kept :
    (m : Manager) (h : ℕ) (w w' : Workflow)
    → At m h w
    → Quiet w w'
    → (j : ℕ) (u : Workflow) → At m j u
    → (u' : Workflow) × At (record m { objects = set m.objects h w' }) j u'
      × (u'.workflow_id ≡ u.workflow_id)
      × (is_terminal u'.status ≡ is_terminal u.status)
write-kept m h w w' at q j u a = elim (Bool-cases (h == j)) [
  | inl same ↦
      let e : h ≡ j = (==_iff h j).0 same in
      let f : u ≡ w = some-injective _ _ (sym a ∙ rw (← e) at) in
      (w', rw (← e) (get_elem?-set_self m.objects h w' at), rw f q.same_id, rw f q.same_life)
  | inr other ↦ (u, get_elem?-set_ne m.objects h j w' (ground arith) ∙ a, refl, refl)
]

pub write-Inv :
    (m : Manager) (h : ℕ) (w w' : Workflow)
    → Inv m
    → At m h w
    → Quiet w w'
    → Inv (record m { objects = set m.objects h w' })
write-Inv m h w w' v at q = record {
  slot = λ j u a live. elim (get_elem?-set m.objects h j w' a) [
    | inl (e, f) ↦
        let i : u.workflow_id ≡ w.workflow_id =
          ap (λ (x : Workflow). x.workflow_id) f ∙ q.same_id in
        let l = ap (λ (x : Workflow). is_terminal x.status) f ∙ q.same_life in
        let (s, k) = v.slot h w at (sym l ∙ live) in (rw i s, rw (i, ← e) k)
    | inr (n, f) ↦ v.slot j u f live
  ];
  owned = λ id e.
      let (j, u, a, i, live) = v.owned id e in
      let (u', a', i', live') = write-kept m h w w' at q j u a in (j, u', a', i' ∙ i, live' ∙ live);
  entered = λ id j e.
      let (u, a, i) = v.entered id j e in
      let (u', a', i', live') = write-kept m h w w' at q j u a in (u', a', i' ∙ i);
  dated = λ j u a. elim (get_elem?-set m.objects h j w' a) [
    | inl (e, f) ↦
        ap (λ (x : Workflow). is_some x.ended) f
        ∙ q.same_end
        ∙ v.dated h w at
        ∙ sym q.same_life
        ∙ ap (λ (x : Workflow). is_terminal x.status) (sym f)
    | inr (n, f) ↦ v.dated j u f
  ];
  aimed = λ j u a. elim (get_elem?-set m.objects h j w' a) [
    | inl (e, f) ↦ rw f (q.aim (v.aimed h w at))
    | inr (n, f) ↦ v.aimed j u f
  ];
  distinct = v.distinct;
}

-- What a write through a handle leaves there.
pub modify-At :
    (h : ℕ) (f : Workflow → Workflow) (m : Manager) (w : Workflow)
    → At m h w
    → At (modify h f m) h (f w)
unfolding modify
modify-At h f m w at = rw (at, modify) (get_elem?-set_self m.objects h (f w) at)
