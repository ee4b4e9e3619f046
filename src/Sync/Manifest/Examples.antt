-- ===== src/Sync/Manifest/Examples.antt =====
-- src/sync/files.rs: a client's manifest with one file.
use vivado_server.Base.{◌≡◌, refl, Str, codes, ◌=s=◌, true, false, some, List, [], ◌∷◌}
use vivado_server.Error.{ok}
use vivado_server.Workspace.{is_empty, validate_portable_segment, is_reserved}
use vivado_server.Sync.Model.{ManifestEntry, ManifestEntryKind}
use vivado_server.Sync.Paths.{
  normalize_sync_path, normalize_sync_path_allow_internal, check_parts, split, join,
  is_internal_path, contains_char, starts_with_char, parent_paths, rsplit_once, parents_from,
}
use vivado_server.Sync.Order.{lt_str}
use vivado_server.Sync.Manifest.{
  SyncFilters, matches_entry, check_entry, validate_client_manifest, find_entry, dir_entry,
  is_sha256_hex,
}
use vivado_server.Sync.Manifest.Valid.{IsManifest, validate_client_manifest-IsManifest}

abbrev pub all_files : SyncFilters
all_files = record { include = λ p. true; include_active = false; exclude = λ p. false }

abbrev pub hash : Str
hash = codes "0123456789abcdef0123456789abcdef0123456789abcdef0123456789abcdef"

abbrev sent_hash : Str
sent_hash = codes "0123456789ABCDEF0123456789ABCDEF0123456789abcdef0123456789abcdef"

abbrev pub top : Str → ManifestEntry
top sha = record {
  path = codes "src/top.v";
  kind = ManifestEntryKind.file;
  size_bytes = some 7;
  mtime_unix_ms = some 1_700_000_000_000;
  sha256 = some sha;
  executable = false;
}

abbrev pub listed : List ManifestEntry
listed = dir_entry (codes "src") ∷ top hash ∷ []

accepted : validate_client_manifest (top sent_hash ∷ []) all_files 10 1_000 ≡ ok listed
unfolding validate_client_manifest normalize_sync_path normalize_sync_path_allow_internal
    check_parts split join is_internal_path contains_char starts_with_char parent_paths parents_from
    rsplit_once lt_str is_sha256_hex matches_entry is_empty validate_portable_segment is_reserved
    ◌=s=◌
accepted = refl

pub listed-IsManifest : IsManifest 10 1_000 listed
listed-IsManifest =
    (validate_client_manifest-IsManifest (top sent_hash ∷ []) listed all_files 10 1_000 accepted).0

validate_client_manifest-IsManifest_example :
    IsManifest 10 1_000 listed
    × ((path : Str) (e : ManifestEntry)
        → find_entry path (top sent_hash ∷ []) ≡ some e
        → matches_entry all_files path ≡ true
        → (v : ManifestEntry) × (check_entry 1_000 e ≡ ok v) × (find_entry path listed ≡ some v))
validate_client_manifest-IsManifest_example =
    validate_client_manifest-IsManifest (top sent_hash ∷ []) listed all_files 10 1_000 accepted
