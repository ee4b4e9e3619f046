-- ===== src/Workflow/Registry.antt =====
-- src/workflow.rs: the registry of workflows, and the steps that happen under its lock or under a
-- workflow's lock. Each step is atomic; what runs between two steps is in the handlers.
-- A workflow is an object on a store, which the registry's entries and the handlers point to.
use vivado_server.Base.{
  ℕ, ◌+◌, ◌-◌, ◌=s=◌, if◌then◌else◌, length, Bool, true, false, ◌||◌, ◌&&◌, not, Option, none, some,
  List, [], ◌∷◌, ◌++◌,
}
use vivado_server.Base.Maps.{lookup, insert, get_elem?, set}
use vivado_server.Error.{
  Result, ok, err, text, not_found, conflict, workflow_busy, workflow_phase, shutting_down,
}
use vivado_server.Workflow.Model.{
  WorkflowStatus, is_terminal, same_status, contains, CreateWorkflowRequest, WorkflowInfo,
  WorkflowData, Workflow, fresh,
}

-- The registry, the objects that were ever entered into it, the workers that run a cleanup, and
-- the two clocks.
pub record Manager : Type 0 where
  pub active : Option ℕ
  pub entries : List (ℕ × ℕ)
  pub stopping : Bool
  pub objects : List Workflow
  pub workers : List ℕ
  pub now : ℕ
  pub wall : ℕ

-- `Registry::default`, at an instant.
unfoldable pub new : ℕ → ℕ → Manager
new now wall = record {
  active = none;
  entries = [];
  stopping = false;
  objects = [];
  workers = [];
  now = now;
  wall = wall;
}

unfoldable pub same_bool : Bool → Bool → Bool
same_bool true b = b
same_bool false b = not b

-- A write through a workflow's lock.
unfoldable pub modify : ℕ → (Workflow → Workflow) → Manager → Manager
modify h f m = elim (get_elem? m.objects h) [
  | none ↦ m
  | some w ↦ record m { objects = set m.objects h (f w) }
]

unfoldable pub transition : WorkflowStatus → WorkflowData → WorkflowData
transition next d =
    if same_status d.status next then d else record d { info = record (d.info) { status = next } }

unfoldable pub admit : Manager → Result (Unit {0})
admit m = if m.stopping then err shutting_down else ok tt

unfoldable pub find : ℕ → Manager → Result ℕ
find id m = elim (lookup id m.entries) [
  | none ↦ err (not_found (text "workflow not found"))
  | some h ↦ ok h
]

unfoldable pub phase : List WorkflowStatus → Workflow → Result (Unit {0})
phase allowed w =
    if not w.initializing && contains allowed w.status
    then ok tt
    else err (workflow_phase (text "operation is not allowed in the current phase"))

-- Whether a workflow of the same ID was asked for with the same parameters.
unfoldable pub same_request : CreateWorkflowRequest → CreateWorkflowRequest → Bool
unfolding ◌=s=◌ same_bool
same_request a b = a.project =s= b.project && same_bool a.reset_project b.reset_project

-- The section of `create` that claims the slot. `seen` is the handle of a workflow that has the
-- ID already, and `claimed` that of the new object, which takes the slot.
pub data Reservation : Type 0 where
  seen claimed : ℕ → Reservation

unfoldable pub existing : ℕ → CreateWorkflowRequest → Option Workflow → Result Reservation
unfolding same_request
existing h request none = ok (seen h)
existing h request (some w) =
    if same_request w.request request
    then ok (seen h)
    else err (conflict (text "workflow ID was already used with different parameters"))

unfoldable pub claim : ℕ → CreateWorkflowRequest → Option ℕ → Manager → Result Reservation × Manager
claim id request (some other) m = (err workflow_busy, m)
claim id request none m = (
  ok (claimed (length m.objects)),
  record m {
    active = some id;
    entries = insert id (length m.objects) m.entries;
    objects = m.objects ++ (fresh id request m.now m.wall ∷ []);
  },
)

unfoldable pub reserve : ℕ → CreateWorkflowRequest → Manager → Result Reservation × Manager
unfolding existing
reserve id request m = if m.stopping then (err shutting_down, m) else elim (lookup id m.entries) [
  | some h ↦ (existing h request (get_elem? m.objects h), m)
  | none ↦ claim id request m.active m
]

-- The section of `create` that records what the project store said.
unfoldable pub initialize : Bool → Result Bool → Workflow → Workflow
initialize reset (ok clean) w = record w {
  state = record (w.state) {
    initializing = false;
    baseline_clean = clean;
    info = record (w.state.info) { requires_full_upload = reset || not clean };
  };
}
initialize reset (err e) w = record w {
  state = record (w.state) { initializing = false; initialization_error = some e };
}

unfoldable pub beat : ℕ → ℕ → Workflow → Workflow
beat now wall w = record w {
  state = record (w.state) {
    heartbeat = now;
    info = record (w.state.info) { last_heartbeat_at = wall };
  };
}

-- `heartbeat` runs whole under the registry's lock.
unfoldable pub heartbeat : ℕ → Manager → Result WorkflowInfo × Manager
heartbeat id m = if m.stopping then (err shutting_down, m) else elim (lookup id m.entries) [
  | none ↦ (err (not_found (text "workflow not found")), m)
  | some h ↦ elim (get_elem? m.objects h) [
    | none ↦ (err (not_found (text "workflow not found")), m)
    | some w ↦
        if is_terminal w.status || same_status w.status WorkflowStatus.stopping
        then (err (workflow_phase (text "workflow no longer accepts heartbeats")), m)
        else (
          ok (beat m.now m.wall w).info,
          record m { objects = set m.objects h (beat m.now m.wall w) },
        )
  ]
]

-- The section of `lease` that counts a transfer, with the read half of the activity lock held.
unfoldable pub enter : List WorkflowStatus → Workflow → Result Workflow
enter allowed w =
    if w.initializing || not (contains allowed w.status) || w.cancelled
    then err (workflow_phase (text "operation is not allowed in the current phase"))
    else ok (record w { state = record (w.state) { transfers = w.transfers + 1 } })

-- `Drop` of a lease.
unfoldable pub leave : Workflow → Workflow
leave w = record w { state = record (w.state) { transfers = w.transfers - 1 } }
