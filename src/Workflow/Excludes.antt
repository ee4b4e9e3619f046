-- ===== src/Workflow/Excludes.antt =====
-- src/workflow.rs: what the handlers do with the activity lock. Who writes to a project excludes every
-- transfer.
use vivado_server.Base.{ℕ, ◌≡◌, false}
use vivado_server.Workflow.Model.{Workflow}
use vivado_server.Workflow.Registry.{Manager, new}
use vivado_server.Workflow.Machine.{Machine}
use vivado_server.Workflow.Services.{Services}
use vivado_server.Workflow.Closed.{IsHeld}
use vivado_server.Workflow.Slot.{At}
use vivado_server.Workflow.Steps.{Steps, Steps-trans}
use vivado_server.Workflow.Steps.Exclusion.{clashes, never_clashes}
use vivado_server.Workflow.Steps.Serve.{Task, serve, serve-kept, Steps-Closed}
use vivado_server.Workflow.Lifetime.{new-Inv}

-- A manager that the steps lead to from an empty registry, where no transfer holds its lease while a
-- task holds the write half of the same workflow's activity lock.
abbrev pub IsQuiet : ℕ → ℕ → Manager → Type 0
IsQuiet now wall m =
    Steps (new now wall) m × ((h : ℕ) (w : Workflow) → At m h w → clashes w ≡ false)

-- Whatever the services answer, a task that starts on a manager reached from the empty registry, with
-- any lease and any lock held by then, ends on one where no transfer holds its lease while a task
-- holds the write half of the same workflow's activity lock. The same holds whenever the task waits:
-- the other tasks have to take steps, and only where they are handed such a manager. They leave a
-- workflow alone whose lock is held, as for `serve-Steps`.
pub serve-clashes :
    {W : Type 0} (others : ℕ → Machine W → Machine W) (svc : Services W) (task : Task W)
    (now wall : ℕ) (s : Machine W) (h : ℕ) (w : Workflow)
    → ((n : ℕ) (t : Machine W) → IsQuiet now wall t.manager → Steps t.manager (others n t).manager)
    → ((j n : ℕ) (t : Machine W) → IsHeld j t.manager → IsHeld j (others n t).manager)
    → Steps (new now wall) s.manager
    → At (serve others svc task s).manager h w
    → clashes w ≡ false
serve-clashes others svc task now wall s h w moves hold reached at =
    never_clashes now wall (serve others svc task s).manager h w
      (serve-kept (Steps (new now wall)) (Steps-Closed (new now wall) (new-Inv now wall)) others svc
        task s
        (λ n t before.
          Steps-trans before
            (moves n t (before, λ j u there. never_clashes now wall t.manager j u before there)))
        hold reached)
      at
