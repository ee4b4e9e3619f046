-- ===== src/Workflow/Steps/Order.antt =====
-- src/workflow.rs: the direction in which a workflow goes.
use mathlib.Core.Bool.{true≢false}
use vivado_server.Base.{
  ℕ, ◌≤◌, ◌≡◌, refl, sym, ◌∙◌, ap, if◌then◌else◌, Bool, true, false, Option, inl, inr, Bool-cases,
  arith,
}
use vivado_server.Error.{AppError, ok, err}
use vivado_server.Session.Model.{TerminationReason}
use vivado_server.Workflow.Model.{
  WorkflowStatus, is_terminal, same_status, same_status_eq, Workflow,
}
use vivado_server.Workflow.Registry.{initialize, beat, leave}
use vivado_server.Workflow.Cleanup.{stop, enlist, end_as}
use vivado_server.Workflow.Sections.{
  lock, unlock, note_plan, close_plan, note_commit, note_session, note_exit, note_finish_failure,
  note_cleanup_failure,
}
use vivado_server.Workflow.Closed.{
  IsPlain, unlocks, initializes, plans, closes_plan, commits, exits, fails_finish, fails_cleanup,
  leaves, is_starting,
}
use vivado_server.Workflow.Slot.Steps.{transition_lem}

-- How far a workflow has come.
unfoldable pub rank : WorkflowStatus → ℕ
rank WorkflowStatus.preparing = 0
rank WorkflowStatus.running = 1
rank WorkflowStatus.pulling = 2
rank WorkflowStatus.stopping = 3
rank WorkflowStatus.completed = 4
rank WorkflowStatus.cancelled = 4
rank WorkflowStatus.failed = 4

-- The same workflow later on. It does not go back to an earlier phase, and stays as it ended. What
-- was cancelled or invalidated stays so, a cleanup keeps the reason that started it, and a failure
-- is not forgotten.
pub record Later (w w' : Workflow) : Type 0 where
  pub same_id : w'.workflow_id ≡ w.workflow_id
  pub same_params : w'.request ≡ w.request
  pub onward : rank w.status ≤ rank w'.status
  pub frozen : is_terminal w.status ≡ true → w'.status ≡ w.status
  pub cancels : w.cancelled ≡ true → w'.cancelled ≡ true
  pub invalidates : w.invalidate_project ≡ true → w'.invalidate_project ≡ true
  pub begun : w.cleanup_started ≡ true → w'.cleanup_started ≡ true
  pub reason : w.cleanup_started ≡ true → w'.stop_reason ≡ w.stop_reason
  pub fails : w.cleanup_target ≡ WorkflowStatus.failed → w'.cleanup_target ≡ WorkflowStatus.failed

pub Later-refl : (w : Workflow) → Later w w
Later-refl w = record {
  same_id = refl;
  same_params = refl;
  onward = omega arith;
  frozen = λ e. refl;
  cancels = λ e. e;
  invalidates = λ e. e;
  begun = λ e. e;
  reason = λ e. refl;
  fails = λ e. e;
}

pub Later-trans : (u v w : Workflow) → Later u v → Later v w → Later u w
Later-trans u v w a b = record {
  same_id = b.same_id ∙ a.same_id;
  same_params = b.same_params ∙ a.same_params;
  onward = omega (arith, a.onward, b.onward);
  frozen = λ e. b.frozen (ap (λ (x : WorkflowStatus). is_terminal x) (a.frozen e) ∙ e) ∙ a.frozen e;
  cancels = λ e. b.cancels (a.cancels e);
  invalidates = λ e. b.invalidates (a.invalidates e);
  begun = λ e. b.begun (a.begun e);
  reason = λ e. b.reason (a.begun e) ∙ a.reason e;
  fails = λ e. b.fails (a.fails e);
}

-- A write that leaves the status and the cleanup alone.
pub aside :
    (w w' : Workflow)
    → w'.workflow_id ≡ w.workflow_id
    → w'.request ≡ w.request
    → w'.status ≡ w.status
    → w'.cancelled ≡ w.cancelled
    → w'.invalidate_project ≡ w.invalidate_project
    → w'.cleanup_started ≡ w.cleanup_started
    → w'.stop_reason ≡ w.stop_reason
    → w'.cleanup_target ≡ w.cleanup_target
    → Later w w'
aside w w' a b c d e f g k = record {
  same_id = a;
  same_params = b;
  onward = rw c (omega arith);
  frozen = λ x. c;
  cancels = λ x. d ∙ x;
  invalidates = λ x. e ∙ x;
  begun = λ x. f ∙ x;
  reason = λ x. g;
  fails = λ x. k ∙ x;
}

-- A write that changes the status of a workflow that has not ended, and leaves the cleanup alone.
moves_on :
    (w : Workflow) (w' : Workflow)
    → is_terminal w.status ≡ false
    → w'.workflow_id ≡ w.workflow_id
    → w'.request ≡ w.request
    → rank w.status ≤ rank w'.status
    → w'.cancelled ≡ w.cancelled
    → w'.invalidate_project ≡ w.invalidate_project
    → w'.cleanup_started ≡ w.cleanup_started
    → w'.stop_reason ≡ w.stop_reason
    → w'.cleanup_target ≡ w.cleanup_target
    → Later w w'
moves_on w w' live a b c d e f g k = record {
  same_id = a;
  same_params = b;
  onward = c;
  frozen = λ x. absurd (true≢false (sym x ∙ live));
  cancels = λ x. d ∙ x;
  invalidates = λ x. e ∙ x;
  begun = λ x. f ∙ x;
  reason = λ x. g;
  fails = λ x. k ∙ x;
}

rank_live : (s : WorkflowStatus) → is_terminal s ≡ false → rank s ≤ 3
unfolding is_terminal rank
rank_live s h = ground arith

rank_over : (s t : WorkflowStatus) → is_terminal t ≡ true → rank s ≤ rank t
unfolding is_terminal rank
rank_over s t h = ground arith

pub stop-Later :
    (target : WorkflowStatus) (error : Option AppError) (invalidate : Bool) (w : Workflow)
    → is_terminal w.status ≡ false
    → Later w (stop target error invalidate w)
unfolding stop rank
stop-Later target error invalidate w live = rw transition_lem (record {
  same_id = refl;
  same_params = refl;
  onward = rank_live w.status live;
  frozen = λ x. absurd (true≢false (sym x ∙ live));
  cancels = λ x. refl;
  invalidates = λ x. rw x refl;
  begun = λ x. x;
  reason = λ x. refl;
  fails = kept_failure target w.cleanup_target;
})
  where
    kept_failure :
        (t old : WorkflowStatus)
        → old ≡ WorkflowStatus.failed
        → (if same_status t WorkflowStatus.failed then t else old) ≡ WorkflowStatus.failed
    kept_failure t old e = elim (Bool-cases (same_status t WorkflowStatus.failed)) [
      | inl fails ↦ rw fails (same_status_eq t WorkflowStatus.failed fails)
      | inr other ↦ rw other e
    ]

pub enlist-Later :
    (reason : TerminationReason) (w : Workflow)
    → w.cleanup_started ≡ false
    → Later w (enlist reason w)
unfolding enlist
enlist-Later reason w idle = record {
  same_id = refl;
  same_params = refl;
  onward = omega arith;
  frozen = λ x. refl;
  cancels = λ x. x;
  invalidates = λ x. x;
  begun = λ x. refl;
  reason = λ x. absurd (true≢false (sym x ∙ idle));
  fails = λ x. x;
}

pub end_as-Later :
    (status : WorkflowStatus) (error : Option AppError) (full : Bool) (now wall : ℕ) (w : Workflow)
    → is_terminal status ≡ true
    → is_terminal w.status ≡ false
    → Later w (end_as status error full now wall w)
unfolding end_as
end_as-Later status error full now wall w final live =
    rw transition_lem
      (moves_on w _ live refl refl (rank_over w.status status final) refl refl refl refl refl)

note_exit-Later : (w : Workflow) → Later w (note_exit w)
unfolding note_exit rank is_terminal
note_exit-Later w = elim (Bool-cases (same_status w.status WorkflowStatus.running)) [
  | inl same ↦
      let s : w.status ≡ WorkflowStatus.running =
        same_status_eq w.status WorkflowStatus.running same in
      rw (same, transition_lem)
        (moves_on w _ (ap (λ (x : WorkflowStatus). is_terminal x) s) refl refl (rw s (omega arith))
          refl refl refl refl refl)
  | inr other ↦ rw other (Later-refl w)
]

pub note_session-Later :
    (session_id : ℕ) (w : Workflow)
    → is_starting w.status ≡ true
    → Later w (note_session session_id w)
unfolding note_session is_starting rank is_terminal
note_session-Later session_id w early =
    elim (Bool-cases (same_status w.status WorkflowStatus.stopping)) [
      | inl same ↦ rw same (aside w _ refl refl refl refl refl refl refl refl)
      | inr other ↦
          let s : w.status ≡ WorkflowStatus.preparing =
            same_status_eq w.status WorkflowStatus.preparing (ground (arith, early, other)) in
          rw (other, transition_lem)
            (moves_on w _ (ap (λ (x : WorkflowStatus). is_terminal x) s) refl refl
              (rw s (omega arith)) refl refl refl refl refl)
    ]

pub beat-Later : (now wall : ℕ) (w : Workflow) → Later w (beat now wall w)
unfolding beat
beat-Later now wall w = aside w _ refl refl refl refl refl refl refl refl

pub lock-Later : (w : Workflow) → Later w (lock w)
unfolding lock
lock-Later w = aside w _ refl refl refl refl refl refl refl refl

pub IsPlain-Later : (f : Workflow → Workflow) → IsPlain f → (w : Workflow) → Later w (f w)
unfolding unlock initialize note_plan close_plan note_commit note_finish_failure
    note_cleanup_failure leave
IsPlain-Later _ unlocks w = aside w _ refl refl refl refl refl refl refl refl
IsPlain-Later _ (initializes reset (ok clean)) w = aside w _ refl refl refl refl refl refl refl refl
IsPlain-Later _ (initializes reset (err e)) w = aside w _ refl refl refl refl refl refl refl refl
IsPlain-Later _ (plans sync_id deadline) w = aside w _ refl refl refl refl refl refl refl refl
IsPlain-Later _ closes_plan w = aside w _ refl refl refl refl refl refl refl refl
IsPlain-Later _ commits w = aside w _ refl refl refl refl refl refl refl refl
IsPlain-Later _ exits w = note_exit-Later w
IsPlain-Later _ (fails_finish e) w = aside w _ refl refl refl refl refl refl refl refl
IsPlain-Later _ (fails_cleanup e) w = aside w _ refl refl refl refl refl refl refl refl
IsPlain-Later _ leaves w = aside w _ refl refl refl refl refl refl refl refl
