-- ===== src/Sync/Plan/Examples.antt =====
-- src/sync.rs: a plan for one new file and one that is not wanted.
use vivado_server.Base.{◌≡◌, refl, codes, true, false, ◌=s=◌, List, [], ◌∷◌}
use vivado_server.Error.{ok}
use vivado_server.Workspace.{is_empty, validate_portable_segment, is_reserved}
use vivado_server.Sync.Paths.{
  normalize_sync_path, normalize_sync_path_allow_internal, check_parts, split, join,
  is_internal_path, contains_char, starts_with_char, parent_paths, rsplit_once, parents_from,
}
use vivado_server.Sync.Model.{ManifestEntry}
use vivado_server.Sync.Order.{sort_paths, sort_paths_deepest_first, sort_by, lt_str}
use vivado_server.Sync.Manifest.{
  find_entry, dir_entry, manifest_map, validate_client_manifest, is_file, matches_entry,
}
use vivado_server.Sync.Manifest.Valid.{IsManifest, validate_client_manifest-IsManifest}
use vivado_server.Sync.Manifest.Examples.{listed, listed-IsManifest, top, hash, all_files}
use vivado_server.Sync.Plan.{Plan, planned_push, planned_pull}
use vivado_server.Sync.Plan.Yields.{Yields, plans-Yields}

abbrev on_server : List ManifestEntry
on_server = dir_entry (codes "old") ∷ []

scanned : validate_client_manifest on_server all_files 10 1_000 ≡ ok on_server
unfolding validate_client_manifest normalize_sync_path normalize_sync_path_allow_internal
    check_parts split join is_internal_path contains_char starts_with_char parent_paths parents_from
    rsplit_once lt_str matches_entry is_empty validate_portable_segment is_reserved ◌=s=◌
scanned = refl

on_server-IsManifest : IsManifest 10 1_000 on_server
on_server-IsManifest =
    (validate_client_manifest-IsManifest on_server on_server all_files 10 1_000 scanned).0

plans-Yields_example :
    ((plan : Plan) × (planned_push false false true listed (ok on_server) ≡ ok plan)
      × Yields true listed on_server plan)
    × ((plan : Plan) × (planned_push true false true listed (ok on_server) ≡ ok plan)
        × Yields false listed [] plan)
    × ((plan : Plan) × (planned_pull true listed (ok on_server) ≡ ok plan)
        × Yields true on_server listed plan)
plans-Yields_example =
    plans-Yields true false 10 1_000 listed on_server listed-IsManifest on_server-IsManifest

planned :
    planned_push false false true listed (ok on_server)
    ≡ ok (record {
      files =
          record {
            entry = top hash;
            transfer = record {
              path = codes "src/top.v";
              size_bytes = 7;
              mtime_unix_ms = 1_700_000_000_000;
              sha256 = hash;
              executable = false;
            };
          }
          ∷ [];
      create_dirs = codes "src" ∷ [];
      delete_files = [];
      delete_dirs = codes "old" ∷ [];
    })
unfolding planned_push manifest_map sort_by lt_str find_entry ◌=s=◌ sort_paths
    sort_paths_deepest_first is_file
planned = refl
