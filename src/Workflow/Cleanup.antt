-- ===== src/Workflow/Cleanup.antt =====
-- src/workflow.rs: how a workflow is stopped and ended, expires, and is forgotten. Each function
-- here runs under the registry's lock.
use vivado_server.Base.{
  ℕ, ◌-◌, leb, ◌==◌, if◌then◌else◌, Bool, true, false, ◌||◌, ◌&&◌, not, Option, none, some, ◌∷◌,
}
use vivado_server.Base.Maps.{lookup, get_elem?, set}
use vivado_server.Error.{AppError}
use vivado_server.Session.Model.{TerminationReason, heartbeat_timeout, service_shutdown}
use vivado_server.Workflow.Model.{WorkflowStatus, is_terminal, same_status, Workflow}
use vivado_server.Workflow.Registry.{Manager, transition}

-- `registry.active == Some(id)`
unfoldable pub holds_slot : Option ℕ → ℕ → Bool
holds_slot none id = false
holds_slot (some other) id = other == id

abbrev or_else : Option AppError → Option AppError → Option AppError
or_else (some e) old = some e
or_else none old = old

-- What a request for cleanup writes into the workflow, before it asks whether a worker runs.
unfoldable pub stop : WorkflowStatus → Option AppError → Bool → Workflow → Workflow
unfolding transition
stop target error invalidate w =
    let d = transition WorkflowStatus.stopping w.state in
    record w {
      state = record d {
        info = record (d.info) {
          cleanup_pending = true;
          requires_full_upload = if invalidate then true else d.info.requires_full_upload;
          error = or_else error d.info.error;
        };
        invalidate_project = d.invalidate_project || invalidate;
        cleanup_target =
            if same_status target WorkflowStatus.failed then target else d.cleanup_target;
        terminal_error = or_else error d.terminal_error;
      };
      cancelled = true;
    }

-- The first request gives the reason, and starts the worker.
unfoldable pub enlist : TerminationReason → Workflow → Workflow
enlist reason w = record w {
  state = record (w.state) { cleanup_started = true; stop_reason = reason };
}

unfoldable pub request_cleanup :
    ℕ → TerminationReason → WorkflowStatus → Option AppError → Bool → Manager → Manager
request_cleanup h reason target error invalidate m = elim (get_elem? m.objects h) [
  | none ↦ m
  | some w ↦
      if is_terminal w.status || not (holds_slot m.active w.workflow_id)
      then m
      else if w.cleanup_started
      then record m { objects = set m.objects h (stop target error invalidate w) }
      else record m {
        objects = set m.objects h (enlist reason (stop target error invalidate w));
        workers = h ∷ m.workers;
      }
]

-- The guards of `terminal`, for a workflow that has not ended.
unfoldable pub may_end : WorkflowStatus → Bool → Workflow → Bool
may_end status full w =
    not (
      same_status status WorkflowStatus.completed
      && not (same_status w.status WorkflowStatus.pulling))
    && not (w.invalidate_project && not full)

unfoldable pub end_as : WorkflowStatus → Option AppError → Bool → ℕ → ℕ → Workflow → Workflow
unfolding transition
end_as status error full now wall w =
    let d = transition status w.state in
    record w {
      state = record d {
        info = record (d.info) {
          cleanup_pending = false;
          requires_full_upload = full;
          ended_at = some wall;
          error = error;
        };
        open_sync = none;
        open_sync_deadline = none;
        ended = some now;
      };
    }

abbrev free_slot : Option ℕ → ℕ → Option ℕ
free_slot active id = if holds_slot active id then none else active

unfoldable pub terminal : ℕ → WorkflowStatus → Option AppError → Bool → Manager → Bool × Manager
terminal h status error full m = elim (get_elem? m.objects h) [
  | none ↦ (false, m)
  | some w ↦
      if is_terminal w.status
      then (same_status w.status status, m)
      else if may_end status full w
      then (
        true,
        record m {
          objects = set m.objects h (end_as status error full m.now m.wall w);
          active = free_slot m.active w.workflow_id;
        },
      )
      else (false, m)
]

-- `Instant::elapsed`, which is 0 for an instant of the future.
abbrev pub elapsed : ℕ → ℕ → ℕ
elapsed now since = now - since

-- Whether the workflow's client has been silent for too long.
unfoldable pub has_expired : ℕ → ℕ → Workflow → Bool
has_expired timeout now w =
    not (is_terminal w.status)
    && not (same_status w.status WorkflowStatus.stopping)
    && leb timeout (elapsed now w.heartbeat)

-- The handle that the slot points to.
unfoldable pub active_handle : Manager → Option ℕ
active_handle m = elim m.active [ none ↦ none | some id ↦ lookup id m.entries ]

unfoldable pub expire : ℕ → Manager → ℕ → Option Workflow → Manager
expire timeout m h none = m
expire timeout m h (some w) =
    if has_expired timeout m.now w
    then request_cleanup h heartbeat_timeout WorkflowStatus.cancelled none false m
    else m

unfoldable pub expire_active : ℕ → Manager → Manager
expire_active timeout m =
    if m.stopping
    then m
    else elim (active_handle m) [ none ↦ m | some h ↦ expire timeout m h (get_elem? m.objects h) ]

-- The first section of `shutdown`: no workflow is admitted from here on.
unfoldable pub close_admission : Manager → Manager
close_admission m =
    let closed = record m { stopping = true } in
    elim (active_handle m) [
      | none ↦ closed
      | some h ↦ request_cleanup h service_shutdown WorkflowStatus.cancelled none false closed
    ]
