-- ===== src/Sync/Commit/Examples.antt =====
-- src/sync.rs: a push of one file.
use vivado_server.Base.{List, Str, codes, none, some, [], ◌∷◌}
use vivado_server.Error.{ok}
use vivado_server.Sync.Transaction.{CommitTransaction}
use vivado_server.Sync.Transaction.Examples.{Tree, real_file, update, flat}
use vivado_server.Sync.Sessions.Examples.{upload}
use vivado_server.Sync.Commit.Checks.{Site}

-- One letter for each change that is recorded.
letters : {A : Type 0} → List A → Str
letters [] = codes "u"
letters (x ∷ xs) = b'u' ∷ letters xs

abbrev site : Site flat
site = record {
  workspace_root = codes "work" ∷ [];
  project = codes "p";
  staging_dir = codes "staging" ∷ [];
  check_project_root = λ s. ok tt;
  ensure_same_filesystem = λ s. ok tt;
  ensure_no_links = λ root path s. ok tt;
  open_file_for_transfer = λ path name s. ok (upload.transfer);
  ensure_baseline_matches = λ target entry s. ok tt;
  set_file_attributes = λ path entry s. ok tt;
  scan_manifest = λ dir s. ok [];
  draw = λ t s. letters t.changes;
}

abbrev staged_tree : Tree
staged_tree =
    update (codes "staging" ∷ codes "files" ∷ codes "a.v" ∷ []) (some real_file) (λ p. none)

abbrev begun : CommitTransaction
begun = record { backup_root = codes "staging" ∷ codes "rollback" ∷ []; changes = [] }
