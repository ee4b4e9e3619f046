-- ===== src/Workflow/Steps/Tidy.antt =====
-- src/workflow.rs: the workers and the plans of the workflows that a manager can come to hold.
use vivado_server.Base.{
  ℕ, zero, suc, ◌-◌, ◌≤◌, ◌≡◌, refl, sym, ◌∙◌, length, drop, any, Bool, true, Option, none, some,
  List, [], ◌∷◌, ◌++◌, inl, inr, Bool-cases, ◌==◌, ==_iff, length-append, drop-append, arith,
}
use vivado_server.Error.{AppError, ok, err}
use vivado_server.Session.Model.{TerminationReason}
use vivado_server.Workflow.Model.{
  WorkflowStatus, is_terminal, same_status, CreateWorkflowRequest, Workflow, fresh,
}
use vivado_server.Workflow.Registry.{initialize, beat, leave}
use vivado_server.Workflow.Cleanup.{stop, enlist, end_as}
use vivado_server.Workflow.Sections.{
  lock, unlock, max_retained_sync_results, note_plan, close_plan, note_commit, note_session,
  note_exit, note_finish_failure, note_cleanup_failure,
}
use vivado_server.Workflow.Closed.{
  IsPlain, unlocks, initializes, plans, closes_plan, commits, exits, fails_finish, fails_cleanup,
  leaves,
}
use vivado_server.Workflow.Slot.Steps.{transition_lem}
use vivado_server.Workflow.Steps.Effect.{Write, plainly, starts, beats, enters, locks, stops, ends}

-- `sync_ids.contains`
abbrev pub lists : List ℕ → Option ℕ → Bool
lists ids none = true
lists ids (some sync_id) = any (λ id. id == sync_id) ids

-- A workflow knows its open plan among a bounded number of plans, and stops only with a worker.
pub record IsTidy (w : Workflow) : Type 0 where
  pub few : length w.sync_ids ≤ max_retained_sync_results
  pub listed : lists w.sync_ids w.open_sync ≡ true
  pub tended : w.status ≡ WorkflowStatus.stopping → w.cleanup_started ≡ true

any-append : (p : ℕ → Bool) (xs : List ℕ) (y : ℕ) → p y ≡ true → any p (xs ++ (y ∷ [])) ≡ true
any-append p [] y h = ground arith
any-append p (x ∷ xs) y h = ground (arith, any-append p xs y h)

length-drop : (n : ℕ) (xs : List ℕ) → length (drop n xs) ≡ length xs - n
length-drop zero xs = omega arith
length-drop (suc n) [] = omega arith
length-drop (suc n) (x ∷ xs) = omega (arith, length-drop n xs)

plan-few : (ids : List ℕ) → length (drop (length ids - 128) ids) ≤ 128
plan-few ids = omega (arith, length-drop (length ids - 128) ids)

-- The new plan is the last one, and is not forgotten.
plan-listed :
    (ids : List ℕ) (sync_id : ℕ)
    → let all_ids = ids ++ (sync_id ∷ []) in
      any (λ id. id == sync_id) (drop (length all_ids - 128) all_ids) ≡ true
plan-listed ids sync_id =
    let n = length (ids ++ (sync_id ∷ [])) - 128 in
    let e : drop n (ids ++ (sync_id ∷ [])) ≡ drop n ids ++ (sync_id ∷ []) =
      drop-append n ids (sync_id ∷ []) (omega (arith, length-append ids (sync_id ∷ []))) in
    rw e (any-append (λ id. id == sync_id) (drop n ids) sync_id ((==_iff sync_id sync_id).1 refl))

-- A write that leaves the plans, the status and the worker alone.
apart :
    (w w' : Workflow)
    → w'.sync_ids ≡ w.sync_ids
    → w'.open_sync ≡ w.open_sync
    → w'.status ≡ w.status
    → w'.cleanup_started ≡ w.cleanup_started
    → IsTidy w
    → IsTidy w'
apart w w' a b c d t = record {
  few = rw a t.few;
  listed = rw (a, b) t.listed;
  tended = λ e. d ∙ t.tended (sym c ∙ e);
}

note_exit-IsTidy : (w : Workflow) → IsTidy w → IsTidy (note_exit w)
unfolding note_exit
note_exit-IsTidy w t = elim (Bool-cases (same_status w.status WorkflowStatus.running)) [
  | inl same ↦
      rw (same, transition_lem)
        (record { few = t.few; listed = t.listed; tended = λ e. ground (arith, e) })
  | inr other ↦ rw other t
]

note_session-IsTidy :
    (session_id : ℕ) (w : Workflow) → IsTidy w → IsTidy (note_session session_id w)
unfolding note_session
note_session-IsTidy session_id w t =
    elim (Bool-cases (same_status w.status WorkflowStatus.stopping)) [
      | inl same ↦ rw same (apart w _ refl refl refl refl t)
      | inr other ↦
          rw (other, transition_lem)
            (record { few = t.few; listed = t.listed; tended = λ e. ground (arith, e) })
    ]

end_as-IsTidy :
    (status : WorkflowStatus) (error : Option AppError) (full : Bool) (now wall : ℕ) (w : Workflow)
    → is_terminal status ≡ true
    → IsTidy w
    → IsTidy (end_as status error full now wall w)
unfolding end_as is_terminal
end_as-IsTidy status error full now wall w final t =
    rw transition_lem
      (record { few = t.few; listed = refl; tended = λ e. ground (arith, final, e) })

IsPlain-IsTidy : (f : Workflow → Workflow) → IsPlain f → (w : Workflow) → IsTidy w → IsTidy (f w)
unfolding unlock initialize note_plan close_plan note_commit note_finish_failure
    note_cleanup_failure leave
IsPlain-IsTidy _ unlocks w t = apart w _ refl refl refl refl t
IsPlain-IsTidy _ (initializes reset (ok clean)) w t = apart w _ refl refl refl refl t
IsPlain-IsTidy _ (initializes reset (err e)) w t = apart w _ refl refl refl refl t
IsPlain-IsTidy _ (plans sync_id deadline) w t = record {
  few = plan-few (w.sync_ids ++ (sync_id ∷ []));
  listed = plan-listed w.sync_ids sync_id;
  tended = t.tended;
}
IsPlain-IsTidy _ closes_plan w t = record { few = t.few; listed = refl; tended = t.tended }
IsPlain-IsTidy _ commits w t = record { few = t.few; listed = refl; tended = t.tended }
IsPlain-IsTidy _ exits w t = note_exit-IsTidy w t
IsPlain-IsTidy _ (fails_finish e) w t = apart w _ refl refl refl refl t
IsPlain-IsTidy _ (fails_cleanup e) w t = apart w _ refl refl refl refl t
IsPlain-IsTidy _ leaves w t = apart w _ refl refl refl refl t

pub Write-IsTidy : (w w' : Workflow) → Write w w' → IsTidy w → IsTidy w'
unfolding stop beat lock
Write-IsTidy w _ (plainly f _ plain) t = IsPlain-IsTidy f plain w t
Write-IsTidy w _ (starts session_id _ early) t = note_session-IsTidy session_id w t
Write-IsTidy w _ (locks _ free) t = apart w _ refl refl refl refl t
Write-IsTidy w _ (beats now wall _) t = apart w _ refl refl refl refl t
Write-IsTidy w _ (enters _ free) t = apart w _ refl refl refl refl t
Write-IsTidy w _ (stops target error invalidate _ live started) t =
    rw transition_lem (record { few = t.few; listed = t.listed; tended = λ e. started })
Write-IsTidy w _ (ends status error full now wall _ final live) t =
    end_as-IsTidy status error full now wall w final t

pub fresh-IsTidy :
    (id : ℕ) (request : CreateWorkflowRequest) (now wall : ℕ) → IsTidy (fresh id request now wall)
unfolding fresh
fresh-IsTidy id request now wall = record {
  few = omega arith;
  listed = refl;
  tended = λ e. ground (arith, e);
}

pub enlist-IsTidy :
    (reason : TerminationReason) (target : WorkflowStatus) (error : Option AppError)
    (invalidate : Bool) (w : Workflow)
    → IsTidy w
    → IsTidy (enlist reason (stop target error invalidate w))
unfolding enlist stop
enlist-IsTidy reason target error invalidate w t =
    rw transition_lem (record { few = t.few; listed = t.listed; tended = λ e. refl })
