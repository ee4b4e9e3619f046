-- ===== src/Workflow/Steps/Exclusion.antt =====
-- src/workflow.rs: the activity lock. Who writes to a project excludes every transfer.
use vivado_server.Base.{
  ℕ, ◌≡◌, refl, sym, ap, ◌∙◌, ◌==◌, Bool, true, false, ◌&&◌, not, Option, inl, inr, Bool-cases,
  arith,
}
use vivado_server.Base.Maps.{get_elem?, set, get_elem?-set, get_elem?-append}
use vivado_server.Error.{AppError, ok, err}
use vivado_server.Session.Model.{TerminationReason}
use vivado_server.Workflow.Model.{
  WorkflowStatus, same_status, CreateWorkflowRequest, Workflow, fresh,
}
use vivado_server.Workflow.Registry.{Manager, initialize, beat, leave, new}
use vivado_server.Workflow.Cleanup.{stop, enlist, end_as}
use vivado_server.Workflow.Sections.{
  is_free, lock, unlock, note_plan, close_plan, note_commit, note_session, note_exit,
  note_finish_failure, note_cleanup_failure,
}
use vivado_server.Workflow.Closed.{
  IsPlain, unlocks, initializes, plans, closes_plan, commits, exits, fails_finish, fails_cleanup,
  leaves,
}
use vivado_server.Workflow.Slot.{At}
use vivado_server.Workflow.Slot.Steps.{transition_lem}
use vivado_server.Workflow.Steps.{Steps, Steps-kept}
use vivado_server.Workflow.Steps.Effect.{
  Write, plainly, starts, beats, enters, locks, stops, ends, Effect, unseen, writes, adopts, adds,
  Step-Effect,
}

-- Every workflow of a manager.
record Each (Q : Workflow → Type 0) (m : Manager) : Type 0 where
  each : (h : ℕ) (w : Workflow) → At m h w → Q w

-- What each write keeps, and a new workflow has, each workflow has after any number of steps.
Steps-Each :
    (Q : Workflow → Type 0)
    → ((w w' : Workflow) → Write w w' → Q w → Q w')
    → ((reason : TerminationReason) (target : WorkflowStatus) (error : Option AppError)
          (invalidate : Bool) (w : Workflow)
        → Q w
        → Q (enlist reason (stop target error invalidate w)))
    → ((id : ℕ) (request : CreateWorkflowRequest) (now wall : ℕ) → Q (fresh id request now wall))
    → {m m' : Manager} → Steps m m'
    → Each Q m
    → Each Q m'
Steps-Each Q kept adopted created s v =
    Steps-kept (Each Q) (λ m m' x. after m m' (Step-Effect m m' x)) s v
  where
    written :
        (m m' : Manager) (h : ℕ) (w' : Workflow)
        → m'.objects ≡ set m.objects h w'
        → Q w'
        → Each Q m
        → Each Q m'
    written m m' h w' a q v = record {
      each = λ j u at.
          elim (get_elem?-set m.objects h j w' (sym (ap (λ xs. get_elem? xs j) a) ∙ at)) [
            | inl (e, f) ↦ rw f q
            | inr (n, f) ↦ v.each j u f
          ];
    }

    after : (m m' : Manager) → Effect m m' → Each Q m → Each Q m'
    after m m' (unseen a b) v = record {
      each = λ j u at. v.each j u (sym (ap (λ xs. get_elem? xs j) a) ∙ at);
    }
    after m m' (writes h w w' at k a b) v = written m m' h w' a (kept w w' k (v.each h w at)) v
    after m m' (adopts h w reason target error invalidate at live idle a b) v =
        written m m' h _ a (adopted reason target error invalidate w (v.each h w at)) v
    after m m' (adds id request now wall a b) v = record {
      each = λ j u at.
          elim (get_elem?-append m.objects _ j (sym (ap (λ xs. get_elem? xs j) a) ∙ at)) [
            | inl (e, f) ↦ rw f (created id request now wall)
            | inr f ↦ v.each j u f
          ];
    }

-- A writer and a transfer at the same time.
unfoldable pub clashes : Workflow → Bool
clashes w = w.writing && not (w.transfers == 0)

no_clash :
    (w w' : Workflow)
    → w'.writing ≡ w.writing
    → w'.transfers ≡ w.transfers
    → clashes w ≡ false
    → clashes w' ≡ false
unfolding clashes
no_clash w w' a b h = rw (a, b) h

exit-clashes : (w : Workflow) → clashes w ≡ false → clashes (note_exit w) ≡ false
unfolding note_exit
exit-clashes w h = elim (Bool-cases (same_status w.status WorkflowStatus.running)) [
  | inl same ↦ rw (same, transition_lem) (no_clash w _ refl refl h)
  | inr other ↦ rw other h
]

session-clashes : (id : ℕ) (w : Workflow) → clashes w ≡ false → clashes (note_session id w) ≡ false
unfolding note_session
session-clashes id w h = elim (Bool-cases (same_status w.status WorkflowStatus.stopping)) [
  | inl same ↦ rw same (no_clash w _ refl refl h)
  | inr other ↦ rw (other, transition_lem) (no_clash w _ refl refl h)
]

leave-clashes : (w : Workflow) → clashes w ≡ false → clashes (leave w) ≡ false
unfolding clashes leave
leave-clashes w h = ground (arith, h)

plain-clashes :
    (f : Workflow → Workflow)
    → IsPlain f
    → (w : Workflow) → clashes w ≡ false
    → clashes (f w) ≡ false
unfolding unlock initialize note_plan close_plan note_commit note_finish_failure
    note_cleanup_failure
plain-clashes _ unlocks w h = unfold clashes in refl
plain-clashes _ (initializes reset (ok clean)) w h = no_clash w _ refl refl h
plain-clashes _ (initializes reset (err e)) w h = no_clash w _ refl refl h
plain-clashes _ (plans sync_id deadline) w h = no_clash w _ refl refl h
plain-clashes _ closes_plan w h = no_clash w _ refl refl h
plain-clashes _ commits w h = no_clash w _ refl refl h
plain-clashes _ exits w h = exit-clashes w h
plain-clashes _ (fails_finish e) w h = no_clash w _ refl refl h
plain-clashes _ (fails_cleanup e) w h = no_clash w _ refl refl h
plain-clashes _ leaves w h = leave-clashes w h

lock-clashes : (w : Workflow) → is_free w ≡ true → clashes (lock w) ≡ false
unfolding clashes lock is_free
lock-clashes w free = ground (arith, free)

Write-clashes : (w w' : Workflow) → Write w w' → clashes w ≡ false → clashes w' ≡ false
unfolding stop end_as beat
Write-clashes w _ (plainly f _ plain) h = plain-clashes f plain w h
Write-clashes w _ (starts session_id _ early) h = session-clashes session_id w h
Write-clashes w _ (beats now wall _) h = no_clash w _ refl refl h
Write-clashes w _ (enters _ free) h = unfold clashes in (rw free refl)
Write-clashes w _ (locks _ free) h = lock-clashes w free
Write-clashes w _ (stops target error invalidate _ live started) h =
    rw transition_lem (no_clash w _ refl refl h)
Write-clashes w _ (ends status error full now wall _ final live) h =
    rw transition_lem (no_clash w _ refl refl h)

adopt-clashes :
    (reason : TerminationReason) (target : WorkflowStatus) (error : Option AppError)
    (invalidate : Bool) (w : Workflow)
    → clashes w ≡ false
    → clashes (enlist reason (stop target error invalidate w)) ≡ false
unfolding stop enlist
adopt-clashes reason target error invalidate w h = rw transition_lem (no_clash w _ refl refl h)

-- From an empty registry, however the steps interleave, no transfer holds its lease while a task
-- holds the write half of the same workflow's activity lock.
pub never_clashes :
    (now wall : ℕ) (m : Manager) (h : ℕ) (w : Workflow)
    → Steps (new now wall) m
    → At m h w
    → clashes w ≡ false
unfolding new clashes fresh
never_clashes now wall m h w s at =
    (Steps-Each (λ u. clashes u ≡ false) Write-clashes adopt-clashes (λ id request n c. refl) s
        (record { each = λ j u none_there. ground (arith, none_there) })).each
      h w at
