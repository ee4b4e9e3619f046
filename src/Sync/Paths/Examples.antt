-- ===== src/Sync/Paths/Examples.antt =====
-- src/sync/files.rs: the path functions on single paths.
use vivado_server.Base.{◌≡◌, refl, codes, [], ◌∷◌}
use mathlib.Core.Logic.{◌↔◌}
use vivado_server.Error.{ok}
use vivado_server.Sync.Paths.{
  split, join, normalize_sync_path, parent_paths, rsplit_once, parents_from,
}
use vivado_server.Sync.Paths.Segments.{join-split}
use vivado_server.Sync.Paths.Normalize.{IsSyncPath, normalize_sync_path_iff}

parents_test : parent_paths (codes "src/rtl/top.v") ≡ codes "src" ∷ codes "src/rtl" ∷ []
unfolding parent_paths parents_from rsplit_once
parents_test = refl

join-split_example : join (split (codes "src/rtl/top.v")) ≡ codes "src/rtl/top.v"
join-split_example = join-split (codes "src/rtl/top.v")

normalize_sync_path_iff_example :
    (normalize_sync_path (codes "src/top.v") ≡ ok (codes "src/top.v"))
    ↔ ((codes "src/top.v" ≡ codes "src/top.v") × IsSyncPath (codes "src/top.v"))
normalize_sync_path_iff_example = normalize_sync_path_iff (codes "src/top.v") (codes "src/top.v")
