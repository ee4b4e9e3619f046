-- ===== src/Workflow/Steps/Effect.antt =====
-- src/workflow.rs: what a step does to the objects and to the workers of the manager.
use mathlib.Core.Option.{some-injective}
use vivado_server.Base.{
  ℕ, ◌+◌, ◌≡◌, refl, sym, ◌∙◌, Bool, true, false, ◌||◌, not, Option, none, some, List, [], ◌∷◌,
  ◌++◌, inl, inr, Bool-cases, Option-cases,
}
use vivado_server.Base.Maps.{lookup, get_elem?, set}
use vivado_server.Error.{AppError}
use vivado_server.Session.Model.{TerminationReason, heartbeat_timeout, service_shutdown}
use vivado_server.Workflow.Model.{
  WorkflowStatus, is_terminal, same_status, contains, CreateWorkflowRequest, Workflow, fresh,
}
use vivado_server.Workflow.Registry.{Manager, modify, beat, heartbeat, reserve, claim, enter}
use vivado_server.Workflow.Cleanup.{
  stop, enlist, end_as, request_cleanup, terminal, active_handle, has_expired, expire,
  expire_active, close_admission,
}
use vivado_server.Workflow.Sections.{is_free, lock, note_session}
use vivado_server.Workflow.Handlers.Transfers.{enter_at}
use vivado_server.Workflow.Prune.{prune}
use vivado_server.Workflow.Slot.{At}
use vivado_server.Workflow.Slot.Steps.{request_cleanup_cases, terminal_cases}
use vivado_server.Workflow.Steps.{
  Step, reserving, ending, requesting, entering, locking, writing, starting, beating, expiring,
  pruning, closing, ticking,
}
use vivado_server.Workflow.Closed.{IsPlain, is_starting}

-- A write to one workflow.
pub data Write : Workflow → Workflow → Type 0 where
  plainly : (f : Workflow → Workflow) (w : Workflow) → IsPlain f → Write w (f w)
  starts :
      (session_id : ℕ) (w : Workflow)
      → is_starting w.status ≡ true
      → Write w (note_session session_id w)
  beats : (now wall : ℕ) (w : Workflow) → Write w (beat now wall w)
  enters :
      (w : Workflow)
      → w.writing ≡ false
      → Write w (record w { state = record (w.state) { transfers = w.transfers + 1 } })
  locks : (w : Workflow) → is_free w ≡ true → Write w (lock w)
  stops :
      (target : WorkflowStatus) (error : Option AppError) (invalidate : Bool) (w : Workflow)
      → is_terminal w.status ≡ false
      → w.cleanup_started ≡ true
      → Write w (stop target error invalidate w)
  ends :
      (status : WorkflowStatus) (error : Option AppError) (full : Bool) (now wall : ℕ)
      (w : Workflow)
      → is_terminal status ≡ true
      → is_terminal w.status ≡ false
      → Write w (end_as status error full now wall w)

-- A step leaves the objects and the workers alone, or writes to one workflow, or stops one and
-- starts its worker, or adds one.
pub data Effect (m m' : Manager) : Type 0 where
  unseen : m'.objects ≡ m.objects → m'.workers ≡ m.workers → Effect m m'
  writes :
      (h : ℕ) (w w' : Workflow)
      → At m h w
      → Write w w'
      → m'.objects ≡ set m.objects h w'
      → m'.workers ≡ m.workers
      → Effect m m'
  adopts :
      (h : ℕ) (w : Workflow) (reason : TerminationReason) (target : WorkflowStatus)
      (error : Option AppError) (invalidate : Bool)
      → At m h w
      → is_terminal w.status ≡ false
      → w.cleanup_started ≡ false
      → m'.objects ≡ set m.objects h (enlist reason (stop target error invalidate w))
      → m'.workers ≡ h ∷ m.workers
      → Effect m m'
  adds :
      (id : ℕ) (request : CreateWorkflowRequest) (now wall : ℕ)
      → m'.objects ≡ m.objects ++ (fresh id request now wall ∷ [])
      → m'.workers ≡ m.workers
      → Effect m m'

modify-Effect :
    (h : ℕ) (f : Workflow → Workflow) (m : Manager)
    → ((w : Workflow) → At m h w → Write w (f w))
    → Effect m (modify h f m)
unfolding modify
modify-Effect h f m l = elim (Option-cases (get_elem? m.objects h)) [
  | inl gone ↦ rw (modify, gone) (unseen refl refl)
  | inr (w, at) ↦ rw (modify, at) (writes h w (f w) at (l w at) refl refl)
]

request_cleanup-Effect :
    (h : ℕ) (reason : TerminationReason) (target : WorkflowStatus) (error : Option AppError)
    (invalidate : Bool) (m : Manager)
    → Effect m (request_cleanup h reason target error invalidate m)
request_cleanup-Effect h reason target error invalidate m =
    request_cleanup_cases (Effect m) h reason target error invalidate m (unseen refl refl)
      (λ w at live started.
        writes h w _ at (stops target error invalidate w live started) refl refl)
      (λ w at live idle. adopts h w reason target error invalidate at live idle refl refl)

terminal-Effect :
    (h : ℕ) (status : WorkflowStatus) (error : Option AppError) (full : Bool) (m : Manager)
    → is_terminal status ≡ true
    → Effect m (terminal h status error full m).1
terminal-Effect h status error full m final =
    terminal_cases (λ r. Effect m r.1) h status error full m (λ done. unseen refl refl)
      (λ w at live may.
        writes h w _ at (ends status error full m.now m.wall w final live) refl refl)

reserve-Effect :
    (id : ℕ) (request : CreateWorkflowRequest) (m : Manager) → Effect m (reserve id request m).1
unfolding reserve claim
reserve-Effect id request m = elim (Bool-cases m.stopping) [
  | inl closed ↦ simp (reserve, closed) (unseen refl refl)
  | inr opened ↦ elim (Option-cases (lookup id m.entries)) [
    | inr (h, known) ↦ simp (reserve, opened, known) (unseen refl refl)
    | inl unknown ↦ elim (Option-cases m.active) [
      | inr (other, busy) ↦ simp (reserve, opened, unknown, busy, claim) (unseen refl refl)
      | inl idle ↦
          simp (reserve, opened, unknown, idle, claim) (adds id request m.now m.wall refl refl)
    ]
  ]
]

heartbeat-Effect : (id : ℕ) (m : Manager) → Effect m (heartbeat id m).1
unfolding heartbeat
heartbeat-Effect id m = elim (Bool-cases m.stopping) [
  | inl closed ↦ simp (heartbeat, closed) (unseen refl refl)
  | inr opened ↦ elim (Option-cases (lookup id m.entries)) [
    | inl unknown ↦ simp (heartbeat, opened, unknown) (unseen refl refl)
    | inr (h, known) ↦ elim (Option-cases (get_elem? m.objects h)) [
      | inl gone ↦ simp (heartbeat, opened, known, gone) (unseen refl refl)
      | inr (w, at) ↦
          elim (Bool-cases (is_terminal w.status || same_status w.status WorkflowStatus.stopping)) [
            | inl refused ↦ simp (heartbeat, opened, known, at, refused) (unseen refl refl)
            | inr live ↦
                simp (heartbeat, opened, known, at, live)
                  (writes h w (beat m.now m.wall w) at (beats m.now m.wall w) refl refl)
          ]
    ]
  ]
]

expire-Effect :
    (timeout : ℕ) (m : Manager) (h : ℕ) (o : Option Workflow) → Effect m (expire timeout m h o)
unfolding expire
expire-Effect timeout m h none = unseen refl refl
expire-Effect timeout m h (some w) = elim (Bool-cases (has_expired timeout m.now w)) [
  | inl late ↦
      rw (expire, late)
        (request_cleanup-Effect h heartbeat_timeout WorkflowStatus.cancelled none false m)
  | inr fine ↦ rw (expire, fine) (unseen refl refl)
]

expire_active-Effect : (timeout : ℕ) (m : Manager) → Effect m (expire_active timeout m)
unfolding expire_active
expire_active-Effect timeout m = elim (Bool-cases m.stopping) [
  | inl closed ↦ simp (expire_active, closed) (unseen refl refl)
  | inr opened ↦ elim (Option-cases (active_handle m)) [
    | inl idle ↦ simp (expire_active, opened, idle) (unseen refl refl)
    | inr (h, busy) ↦
        simp (expire_active, opened, busy) (expire-Effect timeout m h (get_elem? m.objects h))
  ]
]

-- Admission is neither an object nor a worker.
rephrase : (m : Manager) {m' : Manager} → Effect (record m { stopping = true }) m' → Effect m m'
rephrase m (unseen a b) = unseen a b
rephrase m (writes h w w' at k a b) = writes h w w' at k a b
rephrase m (adopts h w reason target error invalidate at live idle a b) =
    adopts h w reason target error invalidate at live idle a b
rephrase m (adds id request now wall a b) = adds id request now wall a b

close_admission-Effect : (m : Manager) → Effect m (close_admission m)
unfolding close_admission
close_admission-Effect m = elim (Option-cases (active_handle m)) [
  | inl idle ↦ simp (close_admission, idle) (unseen refl refl)
  | inr (h, busy) ↦
      simp (close_admission, busy)
        (rephrase m
          (request_cleanup-Effect h service_shutdown WorkflowStatus.cancelled none false _))
]

enter_at-Effect :
    (h : ℕ) (allowed : List WorkflowStatus) (m : Manager) (w : Workflow)
    → At m h w
    → w.writing ≡ false
    → Effect m (enter_at h allowed m).1
unfolding enter_at enter
enter_at-Effect h allowed m w at free =
    elim (Bool-cases (w.initializing || not (contains allowed w.status) || w.cancelled)) [
      | inl refuses ↦ rw (enter_at, at, enter, refuses) (unseen refl refl)
      | inr lets ↦ rw (enter_at, at, enter, lets) (writes h w _ at (enters w free) refl refl)
    ]

pub Step-Effect : (m m' : Manager) → Step m m' → Effect m m'
unfolding prune
Step-Effect m _ (reserving id request _) = reserve-Effect id request m
Step-Effect m _ (ending h status error full _ final) = terminal-Effect h status error full m final
Step-Effect m _ (requesting h reason target error invalidate _) =
    request_cleanup-Effect h reason target error invalidate m
Step-Effect m _ (entering h allowed _ w at free) = enter_at-Effect h allowed m w at free
Step-Effect m _ (locking h _ w at free) =
    modify-Effect h lock m (λ u there. locks u (rw (some-injective _ _ (sym there ∙ at)) free))
Step-Effect m _ (writing h f _ plain) = modify-Effect h f m (λ w at. plainly f w plain)
Step-Effect m _ (starting h session_id _ w at early) =
    modify-Effect h (note_session session_id) m
      (λ u there. starts session_id u (rw (some-injective _ _ (sym there ∙ at)) early))
Step-Effect m _ (beating id _) = heartbeat-Effect id m
Step-Effect m _ (expiring timeout _) = expire_active-Effect timeout m
Step-Effect m _ (pruning retention most _) = unseen refl refl
Step-Effect m _ (closing _) = close_admission-Effect m
Step-Effect m _ (ticking now wall _ later) = unseen refl refl
