-- ===== src/Workflow/Slot/Operations.antt =====
-- src/workflow.rs: the operations that decide under the registry's lock keep the slot's invariant.
use mathlib.Core.Option.{some-injective, none-ne-some}
use vivado_server.Base.{
  ℕ, ◌≡◌, refl, sym, ◌∙◌, ◌==◌, length, true, false, ◌||◌, Option, none, some, [], ◌∷◌, ◌++◌, inl,
  inr, Bool-cases, Option-cases, ==_iff, arith,
}
use vivado_server.Base.Maps.{
  lookup, insert, get_elem?, lookup-insert, get_elem?-append, get_elem?-append_left,
  get_elem?-append_last, insert-NodupKeys,
}
use vivado_server.Session.Model.{heartbeat_timeout, service_shutdown}
use vivado_server.Workflow.Model.{
  WorkflowStatus, is_terminal, same_status, CreateWorkflowRequest, Workflow, fresh,
}
use vivado_server.Workflow.Registry.{Manager, reserve, heartbeat, beat, claim}
use vivado_server.Workflow.Cleanup.{
  expire_active, active_handle, close_admission, has_expired, expire,
}
use vivado_server.Workflow.Slot.{Inv, Quiet, write-Inv}
use vivado_server.Workflow.Slot.Steps.{Inv-elsewhere, request_cleanup-Inv}

beat-Quiet : (now wall : ℕ) (w : Workflow) → Quiet w (beat now wall w)
unfolding beat
beat-Quiet now wall w = record { same_id = refl; same_life = refl; same_end = refl; aim = λ h. h }

pub heartbeat-Inv : (id : ℕ) (m : Manager) → Inv m → Inv (heartbeat id m).1
unfolding heartbeat
heartbeat-Inv id m v = elim (Bool-cases m.stopping) [
  | inl closed ↦ simp (heartbeat, closed) v
  | inr opened ↦ elim (Option-cases (lookup id m.entries)) [
    | inl unknown ↦ simp (heartbeat, opened, unknown) v
    | inr (h, known) ↦ elim (Option-cases (get_elem? m.objects h)) [
      | inl gone ↦ simp (heartbeat, opened, known, gone) v
      | inr (w, at) ↦
          elim (Bool-cases (is_terminal w.status || same_status w.status WorkflowStatus.stopping)) [
            | inl refused ↦ simp (heartbeat, opened, known, at, refused) v
            | inr live ↦
                simp (heartbeat, opened, known, at, live)
                  (Inv-elsewhere _ false m.workers m.now m.wall
                    (write-Inv m h w (beat m.now m.wall w) v at (beat-Quiet m.now m.wall w)))
          ]
    ]
  ]
]

expire-Inv :
    (timeout : ℕ) (m : Manager) (h : ℕ) (o : Option Workflow) → Inv m → Inv (expire timeout m h o)
unfolding expire
expire-Inv timeout m h none v = v
expire-Inv timeout m h (some w) v = elim (Bool-cases (has_expired timeout m.now w)) [
  | inl late ↦
      simp (expire, late)
        (request_cleanup-Inv h heartbeat_timeout WorkflowStatus.cancelled none false m v)
  | inr fine ↦ simp (expire, fine) v
]

pub expire_active-Inv : (timeout : ℕ) (m : Manager) → Inv m → Inv (expire_active timeout m)
unfolding expire_active
expire_active-Inv timeout m v = elim (Bool-cases m.stopping) [
  | inl closed ↦ simp (expire_active, closed) v
  | inr opened ↦ elim (Option-cases (active_handle m)) [
    | inl idle ↦ simp (expire_active, opened, idle) v
    | inr (h, busy) ↦
        simp (expire_active, opened, busy) (expire-Inv timeout m h (get_elem? m.objects h) v)
  ]
]

pub close_admission-Inv : (m : Manager) → Inv m → Inv (close_admission m)
unfolding close_admission
close_admission-Inv m v =
    let closed = Inv-elsewhere m true m.workers m.now m.wall v in
    elim (Option-cases (active_handle m)) [
      | inl idle ↦ simp (close_admission, idle) closed
      | inr (h, busy) ↦
          simp (close_admission, busy)
            (request_cleanup-Inv h service_shutdown WorkflowStatus.cancelled none false _ closed)
    ]

claim-Inv :
    (id : ℕ) (request : CreateWorkflowRequest) (m : Manager)
    → Inv m
    → m.active ≡ none
    → Inv (record m {
      active = some id;
      entries = insert id (length m.objects) m.entries;
      objects = m.objects ++ (fresh id request m.now m.wall ∷ []);
    })
unfolding fresh is_terminal
claim-Inv id request m v idle =
    let w = fresh id request m.now m.wall in
    record {
      slot = λ j u a live. elim (get_elem?-append m.objects w j a) [
        | inl (e, f) ↦
            (rw f refl, rw (f, e, lookup-insert id id (length m.objects) m.entries) (ground arith))
        | inr f ↦ absurd (none-ne-some _ (sym idle ∙ (v.slot j u f live).0))
      ];
      owned = λ id' e.
          (length m.objects, w, get_elem?-append_last m.objects w, some-injective id id' e, refl);
      entered = λ id' j e. elim (Bool-cases (id == id')) [
        | inl same ↦
            let q : length m.objects ≡ j =
              ground (arith, lookup-insert id' id (length m.objects) m.entries) in
            (w, rw (← q) (get_elem?-append_last m.objects w), (==_iff id id').0 same)
        | inr other ↦
            let (u, a, i) =
              v.entered id' j (ground (arith, lookup-insert id' id (length m.objects) m.entries)) in
            (u, get_elem?-append_left m.objects w j a, i)
      ];
      dated = λ j u a. elim (get_elem?-append m.objects w j a) [
        | inl (e, f) ↦ rw f refl
        | inr f ↦ v.dated j u f
      ];
      aimed = λ j u a. elim (get_elem?-append m.objects w j a) [
        | inl (e, f) ↦ rw f refl
        | inr f ↦ v.aimed j u f
      ];
      distinct = insert-NodupKeys id (length m.objects) m.entries v.distinct;
    }

pub reserve-Inv :
    (id : ℕ) (request : CreateWorkflowRequest) (m : Manager) → Inv m → Inv (reserve id request m).1
unfolding reserve claim
reserve-Inv id request m v = elim (Bool-cases m.stopping) [
  | inl closed ↦ simp (reserve, closed) v
  | inr opened ↦ elim (Option-cases (lookup id m.entries)) [
    | inr (h, known) ↦ simp (reserve, opened, known) v
    | inl unknown ↦ elim (Option-cases m.active) [
      | inr (other, busy) ↦ simp (reserve, opened, unknown, busy, claim) v
      | inl idle ↦
          simp (reserve, opened, unknown, idle, claim)
            (Inv-elsewhere _ false m.workers m.now m.wall (claim-Inv id request m v idle))
    ]
  ]
]
