-- ===== src/Sync/Sessions/Handlers/Create.antt =====
-- src/sync.rs: the handler that makes a plan. It holds the lock of the creators, and the permit.
use vivado_server.Base.{
  ℕ, ◌+◌, Str, Bool, true, false, ◌&&◌, not, if◌then◌else◌, length, ltb, map, List, [],
}
use vivado_server.Error.{Result, ok, err, text, bad_request, guard, ◌>>=◌, ◌>>◌}
use vivado_server.Sync.Model.{ManifestEntry, PushPlanRequest, PushPlanResponse}
use vivado_server.Sync.Manifest.{SyncFilters, validate_client_manifest, manifest_map}
use vivado_server.Sync.Plan.{planned_push}
use vivado_server.Sync.Sessions.{CommitPlan}
use vivado_server.Sync.Sessions.Registry.{
  SyncManager, reserve_slot, drop_slot, register_plan, prune_results,
}
use vivado_server.Sync.Sessions.Handlers.{Environment, Run, returns, blocked}

-- What the making of a plan meets: the filters that the request's globs give, the project's
-- directory, the scan of its tree, the staging directory, and the configuration.
pub record Planning : Type 0 where
  pub filters : Result SyncFilters
  pub resolved : Result (Unit {0})
  pub scanned : Result (List ManifestEntry)
  -- When the session expires by the wall clock, or that its TTL is too long for that.
  pub expires_at : Result ℕ
  pub staged : Result (Unit {0})
  pub same_filesystem : Result (Unit {0})
  pub max_entries : ℕ
  pub max_file_bytes : ℕ
  pub ttl : ℕ

has_filters : PushPlanRequest → Bool
has_filters request = ltb 0 (length request.include_globs + length request.exclude_globs)

scanned_baseline : Bool → Result (List ManifestEntry) → Result (List ManifestEntry)
scanned_baseline true scanned = ok []
scanned_baseline false scanned = scanned >>= λ entries. ok (manifest_map entries)

-- The plan and the time that its answer gives, as far as the request, the disk and the limits
-- allow one.
unfoldable pub prepare_plan : Planning → Bool → PushPlanRequest → Result (CommitPlan × ℕ)
unfolding has_filters scanned_baseline
prepare_plan planning reset request = do
  guard (not (reset && has_filters request))
      (bad_request (text "full replacement does not accept filters"))
  filters ← planning.filters
  client ←
      validate_client_manifest request.entries filters planning.max_entries planning.max_file_bytes
  planning.resolved
  baseline ← scanned_baseline reset planning.scanned
  changes ← planned_push reset (has_filters request) request.delete_extra client planning.scanned
  expires_at ← planning.expires_at
  planning.staged
  planning.same_filesystem
  ok (record { reset = reset; changes = changes; baseline = baseline }, expires_at)

unfoldable pub plan_response : ℕ → ℕ → CommitPlan → PushPlanResponse
plan_response sync_id expires_at plan = record {
  sync_id = sync_id;
  upload_files = map (λ upload. upload.transfer) plan.changes.files;
  create_dirs = plan.changes.create_dirs;
  delete_files = plan.changes.delete_files;
  delete_dirs = plan.changes.delete_dirs;
  expires_at = expires_at;
}

module _ (env : Environment) (planning : Planning) (reset : Bool) (project : Str) (sync_id : ℕ)
    (request : PushPlanRequest) where
  -- The plan is registered, or the permit is given back.
  unfoldable pub finish_plan :
      Result (CommitPlan × ℕ) → SyncManager → Run PushPlanResponse × SyncManager
  finish_plan (ok (plan, expires_at)) m = (
    returns (ok (plan_response sync_id expires_at plan)),
    register_plan sync_id project plan planning.ttl m,
  )
  finish_plan (err error) m = (returns (err error), drop_slot m)

  unfoldable pub make_session :
      Result SyncManager → SyncManager → Run PushPlanResponse × SyncManager
  unfolding finish_plan
  make_session (ok m1) m = finish_plan (prepare_plan planning reset request) (env.others 10 m1)
  make_session (err error) m = (returns (err error), m)

  unfoldable pub create_plan : SyncManager → Run PushPlanResponse × SyncManager
  unfolding make_session
  create_plan m =
      let m1 = prune_results env.most env.retention m in
      if m.creating then (blocked, m) else make_session (reserve_slot m1) m1
