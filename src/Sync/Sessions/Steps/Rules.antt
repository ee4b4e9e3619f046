-- ===== src/Sync/Sessions/Steps/Rules.antt =====
-- src/sync.rs: the rules that every session and the manager keep.
use vivado_server.Base.{
  ℕ, ◌+◌, ◌≡◌, ◌⊎◌, inl, inr, refl, sym, subst, ltb, Bool, true, false, none, some, [], arith,
}
use vivado_server.Base.Maps.{set, get_elem?-set}
use vivado_server.Error.{AppError}
use vivado_server.Sync.Model.{CommitSyncResponse, opened, committing, committed, failed}
use vivado_server.Sync.Sessions.{PushSession, is_live, is_missing}
use vivado_server.Sync.Sessions.Registry.{SyncManager, new_manager, count_of}
use vivado_server.Sync.Sessions.Steps.{At}
use vivado_server.Sync.Sessions.Steps.Count.{count, count-set}

abbrev pub is_failing : PushSession → Bool
is_failing d = ltb 0 d.cleanup_failures

abbrev pub holds_permit : PushSession → Bool
holds_permit d = d.active_permit

-- A session holds its permit as long as it is open or committing. Uploads are on their way only
-- while it is open, and none is missing once it commits. What is live has no result. What is over has an end, and its
-- clean-up goes on as long as it fails.
pub record IsSession (d : PushSession) : Type 0 where
  pub permit : d.active_permit ≡ is_live d.state
  pub receives : (d.receiving ≡ []) ⊎ (d.state ≡ opened)
  pub fresh : is_live d.state ≡ true → d.result ≡ none
  pub complete : d.state ≡ committing → is_missing d ≡ false
  pub answers : d.state ≡ committed → (r : CommitSyncResponse) × (d.result ≡ some r)
  pub blames : d.state ≡ failed → (e : AppError) × (d.error ≡ some e)
  pub settled : d.cleanup_pending ≡ true → is_live d.state ≡ false
  pub busy : d.cleaning ≡ true → d.cleanup_pending ≡ true
  pub fails : is_failing d ≡ true → d.cleanup_pending ≡ true
  pub dated : is_live d.state ≡ false → (at : ℕ) × (d.finished_at ≡ some at)

pub record IsManager (m : SyncManager) : Type 0 where
  pub each : (h : ℕ) (d : PushSession) → At m h d → IsSession d
  pub slot : m.permits + count_of m.creating + count holds_permit m.sessions ≡ 1
  pub counter : m.cleanup_degraded ≡ count is_failing m.sessions

pub new_manager-IsManager : IsManager new_manager
new_manager-IsManager = record { each = λ h d e. ground (arith, e); slot = refl; counter = refl }

-- A write keeps the rules if the session that is written does.
pub write-IsManager :
    (m : SyncManager) (h permits degraded : ℕ) (old new : PushSession)
    → IsManager m
    → At m h old
    → IsSession new
    → permits + count_of new.active_permit ≡ m.permits + count_of old.active_permit
    → degraded + count_of (is_failing old) ≡ m.cleanup_degraded + count_of (is_failing new)
    → IsManager (record m {
      sessions = set m.sessions h new;
      permits = permits;
      cleanup_degraded = degraded;
    })
write-IsManager m h permits degraded old new i at s p c = record {
  each = λ k d e. elim (get_elem?-set m.sessions h k new e) [
    | inl (same, it) ↦ subst IsSession (sym it) s
    | inr (other, it) ↦ i.each k d it
  ];
  slot = omega (arith, i.slot, p, count-set holds_permit m.sessions h old new at);
  counter = omega (arith, i.counter, c, count-set is_failing m.sessions h old new at);
}
