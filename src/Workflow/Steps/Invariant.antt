-- ===== src/Workflow/Steps/Invariant.antt =====
-- src/workflow.rs: every step keeps the slot's invariant.
use mathlib.Core.Option.{some-injective}
use vivado_server.Base.{
  ℕ, length, ◌-◌, ◌≡◌, refl, sym, ◌∙◌, ap, true, false, ◌||◌, not, Option, none, some, List, inl,
  inr, Bool-cases, Option-cases, arith,
}
use vivado_server.Base.Maps.{
  lookup, retain, get_elem?, lookup-retain, lookup-retain-none, NodupKeys, retain-NodupKeys,
}
use vivado_server.Error.{ok, err}
use vivado_server.Workflow.Model.{
  WorkflowStatus, is_terminal, same_status, same_status_eq, contains, Workflow,
}
use vivado_server.Workflow.Registry.{Manager, modify, initialize, enter, leave}
use vivado_server.Workflow.Sections.{
  lock, unlock, note_plan, close_plan, note_commit, note_session, note_exit, note_finish_failure,
  note_cleanup_failure,
}
use vivado_server.Workflow.Handlers.Transfers.{enter_at}
use vivado_server.Workflow.Prune.{
  ended_of, is_retained, ended_list, sort_by_key, take, forget, prune,
}
use vivado_server.Workflow.Prune.Bounds.{prune-live, lookup-remove_keys, remove_keys-NodupKeys}
use vivado_server.Workflow.Closed.{
  IsPlain, unlocks, initializes, plans, closes_plan, commits, exits, fails_finish, fails_cleanup,
  leaves, is_starting,
}
use vivado_server.Workflow.Slot.{is_some, At, Inv, Quiet, write-Inv}
use vivado_server.Workflow.Slot.Steps.{
  transition_lem, Inv-elsewhere, request_cleanup-Inv, terminal-Inv,
}
use vivado_server.Workflow.Slot.Operations.{
  heartbeat-Inv, expire_active-Inv, close_admission-Inv, reserve-Inv,
}
use vivado_server.Workflow.Steps.{
  Step, reserving, ending, requesting, entering, locking, writing, starting, beating, expiring,
  pruning, closing, ticking, Steps, Steps-kept,
}

still :
    (w w' : Workflow)
    → w'.workflow_id ≡ w.workflow_id
    → w'.status ≡ w.status
    → w'.ended ≡ w.ended
    → w'.cleanup_target ≡ w.cleanup_target
    → Quiet w w'
still w w' a b c d = record {
  same_id = a;
  same_life = ap (λ (x : WorkflowStatus). is_terminal x) b;
  same_end = ap (λ (x : Option ℕ). is_some x) c;
  aim = λ e. rw d e;
}

note_exit-Quiet : (w : Workflow) → Quiet w (note_exit w)
unfolding note_exit is_terminal
note_exit-Quiet w = elim (Bool-cases (same_status w.status WorkflowStatus.running)) [
  | inl same ↦
      let s : w.status ≡ WorkflowStatus.running =
        same_status_eq w.status WorkflowStatus.running same in
      rw (same, transition_lem)
        (record {
          same_id = refl;
          same_life = sym (ap (λ (x : WorkflowStatus). is_terminal x) s);
          same_end = refl;
          aim = λ e. e;
        })
  | inr other ↦ rw other (still w w refl refl refl refl)
]

lock-Quiet : (w : Workflow) → Quiet w (lock w)
unfolding lock
lock-Quiet w = still w _ refl refl refl refl

IsPlain-Quiet : (f : Workflow → Workflow) → IsPlain f → (w : Workflow) → Quiet w (f w)
unfolding unlock initialize note_plan close_plan note_commit note_finish_failure
    note_cleanup_failure leave
IsPlain-Quiet _ unlocks w = still w _ refl refl refl refl
IsPlain-Quiet _ (initializes reset (ok clean)) w = still w _ refl refl refl refl
IsPlain-Quiet _ (initializes reset (err e)) w = still w _ refl refl refl refl
IsPlain-Quiet _ (plans sync_id deadline) w = still w _ refl refl refl refl
IsPlain-Quiet _ closes_plan w = still w _ refl refl refl refl
IsPlain-Quiet _ commits w = still w _ refl refl refl refl
IsPlain-Quiet _ exits w = note_exit-Quiet w
IsPlain-Quiet _ (fails_finish e) w = still w _ refl refl refl refl
IsPlain-Quiet _ (fails_cleanup e) w = still w _ refl refl refl refl
IsPlain-Quiet _ leaves w = still w _ refl refl refl refl

is_starting-live : (s : WorkflowStatus) → is_starting s ≡ true → is_terminal s ≡ false
unfolding is_starting same_status is_terminal
is_starting-live WorkflowStatus.preparing h = refl
is_starting-live WorkflowStatus.running h = refl
is_starting-live WorkflowStatus.pulling h = refl
is_starting-live WorkflowStatus.stopping h = refl
is_starting-live WorkflowStatus.completed h = ground arith
is_starting-live WorkflowStatus.cancelled h = ground arith
is_starting-live WorkflowStatus.failed h = ground arith

note_session-Quiet :
    (session_id : ℕ) (w : Workflow)
    → is_terminal w.status ≡ false
    → Quiet w (note_session session_id w)
unfolding note_session is_terminal
note_session-Quiet session_id w live =
    elim (Bool-cases (same_status w.status WorkflowStatus.stopping)) [
      | inl same ↦
          rw same (record { same_id = refl; same_life = refl; same_end = refl; aim = λ e. e })
      | inr other ↦
          rw (other, transition_lem)
            (record { same_id = refl; same_life = sym live; same_end = refl; aim = λ e. e })
    ]

modify-write :
    (h : ℕ) (f : Workflow → Workflow) (m : Manager)
    → ((w : Workflow) → At m h w → Quiet w (f w))
    → Inv m
    → Inv (modify h f m)
unfolding modify
modify-write h f m q v = elim (Option-cases (get_elem? m.objects h)) [
  | inl gone ↦ rw (gone, modify) v
  | inr (w, at) ↦ rw (at, modify) (write-Inv m h w (f w) v at (q w at))
]

enter_at-Inv :
    (h : ℕ) (allowed : List WorkflowStatus) (m : Manager) → Inv m → Inv (enter_at h allowed m).1
unfolding enter_at enter
enter_at-Inv h allowed m v = elim (Option-cases (get_elem? m.objects h)) [
  | inl gone ↦ rw (gone, enter_at) v
  | inr (w, at) ↦
      elim (Bool-cases (w.initializing || not (contains allowed w.status) || w.cancelled)) [
        | inl refuses ↦ rw (at, enter_at, enter, refuses) v
        | inr lets ↦
            rw (at, enter_at, enter, lets) (write-Inv m h w _ v at (still w _ refl refl refl refl))
      ]
]

absent : (o : Option ℕ) → is_some o ≡ false → o ≡ none
absent none e = refl
absent (some a) e = ground arith

-- An entry that is left was there before.
prune-sub :
    (retention most id h : ℕ) (m : Manager)
    → NodupKeys m.entries
    → lookup id (prune retention most m).entries ≡ some h
    → lookup id m.entries ≡ some h
unfolding prune forget
prune-sub retention most id h m u e =
    let p = is_retained retention m.now m.objects in
    let es = retain p m.entries in
    let s = sort_by_key (ended_list m.objects es) in
    let left = sym (lookup-remove_keys id (take (length s - most) s) es) ∙ e in
    elim (Option-cases (lookup id m.entries)) [
      | inl unknown ↦ ground (arith, left, lookup-retain-none p id m.entries unknown)
      | inr (j, known) ↦ ground (arith, left, lookup-retain p id j m.entries u known)
    ]

prune-Inv : (retention most : ℕ) (m : Manager) → Inv m → Inv (prune retention most m)
unfolding prune forget
prune-Inv retention most m v = record {
  slot = λ h w at live.
      let (s, l) = v.slot h w at live in
      let going : w.ended ≡ none = absent w.ended (v.dated h w at ∙ live) in
      (
        s,
        prune-live retention most w.workflow_id h m v.distinct l (unfold ended_of in (rw at going)),
      );
  owned = v.owned;
  entered = λ id h e. v.entered id h (prune-sub retention most id h m v.distinct e);
  dated = v.dated;
  aimed = v.aimed;
  distinct =
      let p = is_retained retention m.now m.objects in
      let s = sort_by_key (ended_list m.objects (retain p m.entries)) in
      remove_keys-NodupKeys (take (length s - most) s) _ (retain-NodupKeys p m.entries v.distinct);
}

pub Step-Inv : (m m' : Manager) → Step m m' → Inv m → Inv m'
Step-Inv m _ (reserving id request _) v = reserve-Inv id request m v
Step-Inv m _ (ending h status error full _ final) v = terminal-Inv h status error full m final v
Step-Inv m _ (requesting h reason target error invalidate _) v =
    request_cleanup-Inv h reason target error invalidate m v
Step-Inv m _ (entering h allowed _ w at free) v = enter_at-Inv h allowed m v
Step-Inv m _ (locking h _ w at free) v = modify-write h lock m (λ u there. lock-Quiet u) v
Step-Inv m _ (writing h f _ plain) v = modify-write h f m (λ w at. IsPlain-Quiet f plain w) v
Step-Inv m _ (starting h session_id _ w at early) v =
    modify-write h (note_session session_id) m
      (λ u there.
        note_session-Quiet session_id u
          (is_starting-live u.status (rw (some-injective _ _ (sym there ∙ at)) early)))
      v
Step-Inv m _ (beating id _) v = heartbeat-Inv id m v
Step-Inv m _ (expiring timeout _) v = expire_active-Inv timeout m v
Step-Inv m _ (pruning retention most _) v = prune-Inv retention most m v
Step-Inv m _ (closing _) v = close_admission-Inv m v
Step-Inv m _ (ticking now wall _ later) v = Inv-elsewhere m m.stopping m.workers now wall v

-- What the steps make of a manager that keeps the slot's rules keeps them.
pub Steps-Inv : {m m' : Manager} → Steps m m' → Inv m → Inv m'
Steps-Inv s v = Steps-kept Inv Step-Inv s v
