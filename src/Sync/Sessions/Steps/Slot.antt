-- ===== src/Sync/Sessions/Steps/Slot.antt =====
-- src/sync.rs: the slot, and the uploads of a plan that is being committed.
use vivado_server.Base.{
  ℕ, ◌+◌, ◌≤◌, ◌<◌, ltb, ltb→lt, lt→ltb, ◌≡◌, ◌↔◌, ap, ◌∙◌, =s=_self, if◌then◌else◌, Str, true,
  false, [], ◌∷◌, arith,
}
use vivado_server.Error.{ok, err, text, conflict}
use vivado_server.Sync.Model.{opened, committing}
use vivado_server.Sync.Sessions.{
  PushSession, is_live, is_missing, is_opened, lists_path, ensure_open, finish_upload,
}
use vivado_server.Sync.Sessions.Registry.{
  SyncManager, new_manager, count_of, reserve_slot, is_cleanup_degraded,
}
use vivado_server.Sync.Sessions.Steps.{At, Steps, stays, follows}
use vivado_server.Sync.Sessions.Steps.Count.{count, count-at, count-two, count-some}
use vivado_server.Sync.Sessions.Steps.Rules.{
  IsManager, IsSession, is_failing, holds_permit, new_manager-IsManager,
}
use vivado_server.Sync.Sessions.Steps.Invariant.{Step-IsManager}

keeps_rules : {m m' : SyncManager} → Steps m m' → IsManager m → IsManager m'
keeps_rules (stays m) i = i
keeps_rules (follows m m' m'' s rest) i = keeps_rules rest (Step-IsManager s i)

pub reached : {m : SyncManager} → Steps new_manager m → IsManager m
reached s = keeps_rules s new_manager-IsManager

-- What the permits that are out say of the slot.
slot_taken :
    (m : SyncManager) (n : ℕ)
    → m.permits + count_of m.creating + n ≡ 1
    → 1 ≤ n
    → (m.creating ≡ false)
      × (reserve_slot m ≡ err (conflict (text "an open sync plan already exists")))
unfolding reserve_slot
slot_taken m n e h = ground arith

-- Whatever the tasks do after the start: two plans that are open or being committed are the same
-- one, and while there is one, no plan is being made and the slot refuses a further one.
pub one_live :
    (m : SyncManager) (h k : ℕ) (d e : PushSession)
    → Steps new_manager m
    → At m h d
    → At m k e
    → is_live d.state ≡ true
    → is_live e.state ≡ true
    → (h ≡ k)
      × (m.creating ≡ false)
      × (reserve_slot m ≡ err (conflict (text "an open sync plan already exists")))
one_live m h k d e s at at' l l' =
    let i = reached s in
    let held = (i.each h d at).permit ∙ l in
    let held' = (i.each k e at').permit ∙ l' in
    let one = count-at holds_permit m.sessions h d at in
    let taken =
      slot_taken m (count holds_permit m.sessions) i.slot (omega (arith, ap count_of held)) in
    (
      count-two holds_permit m.sessions h k d e at at' held held' (omega (arith, i.slot)),
      taken.0,
      taken.1,
    )

finish_upload-opened :
    (path : Str) (d : PushSession)
    → d.state ≡ opened
    → (d' : PushSession) × (finish_upload path d ≡ ok d')
      × (lists_path path d'.uploaded_files ≡ true)
unfolding finish_upload ensure_open is_opened
finish_upload-opened path d o = (
  record d {
    uploaded_files =
        if lists_path path d.uploaded_files then d.uploaded_files else path ∷ d.uploaded_files;
  },
  ground (arith, o),
  ground (arith, =s=_self path),
)

receiving-opened :
    (path : Str) (d : PushSession)
    → IsSession d
    → lists_path path d.receiving ≡ true
    → d.state ≡ opened
receiving-opened path d i h = ground (arith, i.receives)

committing-alone : (d : PushSession) → IsSession d → d.state ≡ committing → d.receiving ≡ []
committing-alone d i c = ground (arith, i.receives)

-- Whatever the tasks do after the start: an upload that was admitted and is on its way can be
-- finished, since its session is still open, and is then among the uploaded files.
pub admitted_upload :
    (m : SyncManager) (h : ℕ) (d : PushSession) (path : Str)
    → Steps new_manager m
    → At m h d
    → lists_path path d.receiving ≡ true
    → (d' : PushSession) × (finish_upload path d ≡ ok d')
      × (lists_path path d'.uploaded_files ≡ true)
admitted_upload m h d path s at r =
    finish_upload-opened path d (receiving-opened path d ((reached s).each h d at) r)

-- Whatever the tasks do after the start: while a plan is being committed, no upload of it is on its
-- way, and none that it asks for is missing.
pub commit_alone :
    (m : SyncManager) (h : ℕ) (d : PushSession)
    → Steps new_manager m
    → At m h d
    → d.state ≡ committing
    → (d.receiving ≡ []) × (is_missing d ≡ false)
commit_alone m h d s at c =
    let i = (reached s).each h d at in (committing-alone d i c, i.complete c)

-- Whatever the tasks do after the start: the manager counts as degraded, as far as the clean-up goes,
-- exactly if a session counts failed attempts to remove its staging directory.
pub is_cleanup_degraded_iff :
    (m : SyncManager)
    → Steps new_manager m
    → (is_cleanup_degraded m ≡ true)
      ↔ ((h : ℕ) × (d : PushSession) × At m h d × (0 < d.cleanup_failures))
unfolding is_cleanup_degraded
is_cleanup_degraded_iff m s = (found, shown)
  where
    i : IsManager m
    i = reached s

    found :
        ltb 0 m.cleanup_degraded ≡ true
        → (h : ℕ) × (d : PushSession) × At m h d × (0 < d.cleanup_failures)
    found y =
        let (h, d, at, f) =
          count-some is_failing m.sessions
            (omega (arith, ltb→lt 0 m.cleanup_degraded y, i.counter)) in
        (h, d, at, ltb→lt 0 d.cleanup_failures f)

    shown :
        (h : ℕ) × (d : PushSession) × At m h d × (0 < d.cleanup_failures)
        → ltb 0 m.cleanup_degraded ≡ true
    shown (h, d, at, f) =
        let one = count-at is_failing m.sessions h d at in
        let it = lt→ltb 0 d.cleanup_failures f in
        lt→ltb 0 m.cleanup_degraded (omega (arith, ap count_of it, i.counter))
