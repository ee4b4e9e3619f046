-- ===== src/Sync/Sessions/Handlers/Examples.antt =====
-- src/sync.rs: a plan that is made, an upload, and a commit whose clean-up fails.
use vivado_server.Base.{
  true, ℕ, zero, suc, ◌≡◌, ◌=s=◌, refl, if◌then◌else◌, Bool-cases, inl, inr, false, Option, some,
  none, [], ◌∷◌, arith,
}
use vivado_server.Base.Maps.{get_elem?, get_elem?-set_self, lookup}
use vivado_server.Error.{ok, err, text, internal}
use vivado_server.Sync.Sessions.{
  PushSession, is_missing, lists_path, check_upload, check_length, begin_commit, note_cleanup,
}
use vivado_server.Sync.Sessions.Registry.{SyncManager, settle_cleanup, find_session}
use vivado_server.Sync.Sessions.Steps.{At, Steps, cleans, stays, after}
use vivado_server.Sync.Sessions.Handlers.{Environment, returns, commit_session}
use vivado_server.Sync.Sessions.Handlers.Commit.{IsEnvironment, commit_session-answers}
use vivado_server.Sync.Sessions.Handlers.Later.{commit_session-settled}
use vivado_server.Sync.Sessions.{is_live, commit_result, conclude_commit}
use vivado_server.Sync.Sessions.Examples.{
  committed_session, committed_manager, degraded_manager, committed_run, cleanup_run,
}
use vivado_server.Workspace.{is_empty, validate_portable_segment, is_reserved}
use vivado_server.Sync.Paths.{
  normalize_sync_path, normalize_sync_path_allow_internal, starts_with_char, contains_char,
  check_parts, split, is_internal_path, join,
}
use vivado_server.Sync.Sessions.Handlers.Upload.{
  IsUploading, upload_response, receive_upload, receive_upload-answers,
}
use vivado_server.Sync.Sessions.Registry.{new_manager}
use vivado_server.Sync.Model.{PushPlanRequest}
use vivado_server.Sync.Sessions.Handlers.Create.{Planning, create_plan}
use vivado_server.Sync.Sessions.Handlers.Created.{IsCreating, Answers, create_plan-Answers}
use vivado_server.Sync.Sessions.Examples.{
  path, upload, opened_run, open_session, project, plan, response, uploaded_session, on_manager,
  uploaded_run,
}

-- Another task that holds the cleanup lock lets go of it.
let_go : Option PushSession → SyncManager → SyncManager
let_go none m = m
let_go (some d) m = if d.cleaning then settle_cleanup 0 (ok tt) d m else m

abbrev others : ℕ → SyncManager → SyncManager
unfolding let_go settle_cleanup
others (suc (suc zero)) m = let_go (get_elem? m.sessions 0) m
others n m = m

abbrev environment : Environment
unfolding others
environment = record {
  others = others;
  applied = λ plan. ok response;
  removed = err (internal (text "removal failed"));
  received = ok tt;
  most = 128;
  retention = 3_600;
}

let_go-Steps :
    (m : SyncManager) (o : Option PushSession) → get_elem? m.sessions 0 ≡ o → Steps m (let_go o m)
unfolding let_go settle_cleanup
let_go-Steps m none at = stays m
let_go-Steps m (some d) at = elim (Bool-cases d.cleaning) [
  | inl c ↦ rw (c) (after (stays m) (cleans m 0 d (ok tt) at c))
  | inr c ↦ rw (c) (stays m)
]

let_go-frees :
    (m : SyncManager) (o : Option PushSession) (d : PushSession)
    → get_elem? m.sessions 0 ≡ o
    → At (let_go o m) 0 d
    → d.cleaning ≡ false
unfolding let_go settle_cleanup
let_go-frees m none d at it = ground (arith, at, it)
let_go-frees m (some old) d at it = ground (
  arith,
  at,
  it,
  get_elem?-set_self m.sessions 0 (record (note_cleanup (ok tt) old) { cleaning = false }) at,
)

environment-IsEnvironment : IsEnvironment environment 0
unfolding others
environment-IsEnvironment = record {
  moves = λ n m. moves n m;
  spares = λ m d at c. (d, at, c);
  frees = λ m d at. let_go-frees m (get_elem? m.sessions 0) d refl at;
  leaves_lock = λ m d at c. (d, at, c);
}
  where
    moves : (n : ℕ) (m : SyncManager) → Steps m (others n m)
    moves zero m = stays m
    moves (suc zero) m = stays m
    moves (suc (suc zero)) m = let_go-Steps m (get_elem? m.sessions 0) refl
    moves (suc (suc (suc n))) m = stays m

commit_session-answers_example :
    (m' : SyncManager) × (d' : PushSession) × (commit_session environment 1 project 7
        (on_manager uploaded_session)
      ≡ (returns (ok response), m'))
    × Steps (on_manager uploaded_session) m'
    × At m' 0 d'
    × (is_live d'.state ≡ false)
    × (commit_result d' ≡ ok response)
unfolding others environment find_session lookup ◌=s=◌ begin_commit is_missing
commit_session-answers_example =
    commit_session-answers environment 0 environment-IsEnvironment 1 project 7
      (on_manager uploaded_session) uploaded_session plan uploaded_run refl refl refl refl

commit_session-settled_example :
    (m'' : SyncManager) × (d'' : PushSession) × (commit_session environment 1 project 7
        degraded_manager
      ≡ (returns (commit_result committed_session), m''))
    × Steps degraded_manager m''
    × At m'' 0 d''
    × (d''.state ≡ committed_session.state)
unfolding environment find_session lookup ◌=s=◌ committed_session conclude_commit is_live
commit_session-settled_example =
    commit_session-settled environment 1 0 project 7 committed_manager degraded_manager
      committed_session environment-IsEnvironment.moves committed_run refl refl cleanup_run refl

environment-IsUploading : IsUploading environment 0 path
unfolding others environment
environment-IsUploading = record {
  moves = environment-IsEnvironment.moves;
  keeps = λ m d at r. (d, at, r);
}

path-normal : normalize_sync_path path ≡ ok path
unfolding normalize_sync_path normalize_sync_path_allow_internal is_empty starts_with_char
    contains_char check_parts split validate_portable_segment is_reserved is_internal_path join
    ◌=s=◌
path-normal = refl

receive_upload-answers_example :
    (m' : SyncManager) × (d' : PushSession) × (receive_upload environment project 7 path
        (some 1)
        (on_manager open_session)
      ≡ (returns (ok (upload_response path upload)), m'))
    × Steps (on_manager open_session) m'
    × At m' 0 d'
    × (lists_path path d'.uploaded_files ≡ true)
unfolding others environment find_session lookup ◌=s=◌ check_upload check_length
receive_upload-answers_example =
    receive_upload-answers environment 0 path environment-IsUploading project 7 path (some 1)
      (on_manager open_session) open_session upload opened_run path-normal refl refl refl refl refl

abbrev planning : Planning
planning = record {
  filters = ok (record { include = λ p. true; include_active = false; exclude = λ p. false });
  resolved = ok tt;
  scanned = ok [];
  expires_at = ok 60;
  staged = ok tt;
  same_filesystem = ok tt;
  max_entries = 10;
  max_file_bytes = 10;
  ttl = 60;
}

abbrev request : PushPlanRequest
request = record {
  entries = upload.entry ∷ [];
  delete_extra = false;
  include_globs = [];
  exclude_globs = [];
}

environment-IsCreating : IsCreating environment
unfolding others environment
environment-IsCreating = record { moves = environment-IsEnvironment.moves; keeps = λ m c. c }

create_plan-Answers_example :
    Answers environment environment-IsCreating planning false project 7 request new_manager
      (create_plan environment planning false project 7 request new_manager)
create_plan-Answers_example =
    create_plan-Answers environment environment-IsCreating planning false project 7 request
      new_manager (stays new_manager) refl
