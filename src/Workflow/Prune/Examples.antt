-- ===== src/Workflow/Prune/Examples.antt =====
-- src/workflow.rs: pruning a registry with two ended workflows and a live one.
use vivado_server.Base.{ℕ, ◌≤◌, ◌≡◌, refl, codes, Option, none, some, [], ◌∷◌, length, true, false}
use vivado_server.Base.Maps.{lookup, remove, retain}
use vivado_server.Workflow.Model.{Workflow, fresh}
use vivado_server.Workflow.Registry.{Manager}
use vivado_server.Workflow.Prune.{ended_of, is_retained, ended_list, forget, prune}
use vivado_server.Workflow.Prune.Bounds.{prune-bounded, prune-live}
use vivado_server.Workflow.Prune.Order.{prune-oldest}

abbrev ended_at : ℕ → Option ℕ → Workflow
unfolding fresh
ended_at id ended =
    let w = fresh id (record { project = codes "adder"; reset_project = true }) 0 0 in
    record w { state = record (w.state) { ended = ended } }

abbrev busy : Manager
busy = record {
  active = some 3;
  entries = (1, 0) ∷ (2, 1) ∷ (3, 2) ∷ [];
  stopping = false;
  objects = ended_at 1 (some 10) ∷ ended_at 2 (some 20) ∷ ended_at 3 none ∷ [];
  workers = [];
  now = 25;
  wall = 0;
}

prune_test : (prune 100 1 busy).entries ≡ (2, 1) ∷ (3, 2) ∷ []
unfolding prune forget ended_list ended_of is_retained retain remove fresh
prune_test = refl

prune-bounded_example : length (ended_list busy.objects (prune 100 1 busy).entries) ≤ 1
prune-bounded_example = prune-bounded 100 1 busy

prune-live_example : lookup 3 (prune 100 1 busy).entries ≡ some 2
unfolding lookup ended_of fresh
prune-live_example = prune-live 100 1 3 2 busy (refl, (refl, (refl, tt))) refl refl

prune-oldest_example : 10 ≤ 20
unfolding prune forget ended_list ended_of is_retained retain remove fresh lookup
prune-oldest_example =
    prune-oldest 100 1 1 2 0 1 10 20 busy (refl, (refl, (refl, tt))) refl refl refl refl refl refl
