-- ===== src/Sync/Order/Examples.antt =====
-- src/sync/files.rs: the sorts of paths on three paths.
use vivado_server.Base.{◌≡◌, refl, codes, Str, ◌=s=◌, ◌&&◌, not, List, [], ◌∷◌}
use vivado_server.Sync.Order.{sort_paths, sort_paths_deepest_first, is_below}
use vivado_server.Sync.Order.Strict.{contains_path, Pairwise}
use vivado_server.Sync.Order.Outermost.{plan_order}

abbrev paths : List Str
paths = codes "a/b" ∷ codes "a" ∷ codes "a/b/c" ∷ codes "a" ∷ []

deepest : sort_paths_deepest_first paths ≡ codes "a/b/c" ∷ codes "a/b" ∷ codes "a" ∷ []
unfolding sort_paths_deepest_first ◌=s=◌
deepest = refl

plan_order_example :
    ((p : Str) → contains_path p (sort_paths paths) ≡ contains_path p paths)
    × Pairwise (λ x y. not (x =s= y) && not (is_below x y)) (sort_paths paths)
    × ((p : Str) → contains_path p (sort_paths_deepest_first paths) ≡ contains_path p paths)
    × Pairwise (λ x y. not (x =s= y) && not (is_below y x)) (sort_paths_deepest_first paths)
plan_order_example = plan_order paths
