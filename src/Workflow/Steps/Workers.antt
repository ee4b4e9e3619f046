-- ===== src/Workflow/Steps/Workers.antt =====
-- src/workflow.rs: a workflow gets its one cleanup worker with the first request to stop it.
use vivado_server.Base.{
  ℕ, zero, suc, ◌≡◌, refl, sym, ◌∙◌, ap, length, Bool, true, false, none, List, [], ◌∷◌, ◌++◌, inl,
  inr, Bool-cases, ◌==◌, if◌then◌else◌, ==_iff, arith,
}
use vivado_server.Base.Maps.{get_elem?, set, get_elem?-set, get_elem?-append}
use vivado_server.Error.{ok, err}
use vivado_server.Workflow.Model.{WorkflowStatus, same_status, Workflow, fresh}
use vivado_server.Workflow.Registry.{Manager, initialize, beat, leave}
use vivado_server.Workflow.Cleanup.{stop, enlist, end_as}
use vivado_server.Workflow.Sections.{
  lock, unlock, note_plan, close_plan, note_commit, note_session, note_exit, note_finish_failure,
  note_cleanup_failure,
}
use vivado_server.Workflow.Closed.{
  IsPlain, unlocks, initializes, plans, closes_plan, commits, exits, fails_finish, fails_cleanup,
  leaves,
}
use vivado_server.Workflow.Slot.{At}
use vivado_server.Workflow.Slot.Steps.{transition_lem}
use vivado_server.Workflow.Steps.{Steps, Steps-kept}
use vivado_server.Workflow.Steps.Effect.{
  Write, plainly, starts, beats, enters, locks, stops, ends, Effect, unseen, writes, adopts, adds,
  Step-Effect,
}
use vivado_server.Workflow.Steps.Tidy.{IsTidy, Write-IsTidy, fresh-IsTidy, enlist-IsTidy}

-- How often a worker was started for a workflow.
abbrev pub count : ℕ → List ℕ → ℕ
count h [] = 0
count h (j ∷ js) = let rest = count h js in if j == h then suc rest else rest

abbrev pub once : Bool → ℕ
once true = 1
once false = 0

-- Every workflow is tidy, and has its one worker exactly if its cleanup has begun.
pub record Tidy (m : Manager) : Type 0 where
  pub tidy : (h : ℕ) (w : Workflow) → At m h w → IsTidy w
  pub worker : (h : ℕ) (w : Workflow) → At m h w → count h m.workers ≡ once w.cleanup_started
  pub no_worker : (h : ℕ) → get_elem? m.objects h ≡ none → count h m.workers ≡ 0

note_exit-started : (w : Workflow) → (note_exit w).cleanup_started ≡ w.cleanup_started
unfolding note_exit
note_exit-started w = elim (Bool-cases (same_status w.status WorkflowStatus.running)) [
  | inl same ↦ rw (same, transition_lem) refl
  | inr other ↦ rw other refl
]

note_session-started :
    (session_id : ℕ) (w : Workflow)
    → (note_session session_id w).cleanup_started ≡ w.cleanup_started
unfolding note_session
note_session-started session_id w =
    elim (Bool-cases (same_status w.status WorkflowStatus.stopping)) [
      | inl same ↦ rw same refl
      | inr other ↦ rw (other, transition_lem) refl
    ]

IsPlain-started :
    (f : Workflow → Workflow)
    → IsPlain f
    → (w : Workflow) → (f w).cleanup_started ≡ w.cleanup_started
unfolding unlock initialize note_plan close_plan note_commit note_finish_failure
    note_cleanup_failure leave
IsPlain-started _ unlocks w = refl
IsPlain-started _ (initializes reset (ok clean)) w = refl
IsPlain-started _ (initializes reset (err e)) w = refl
IsPlain-started _ (plans sync_id deadline) w = refl
IsPlain-started _ closes_plan w = refl
IsPlain-started _ commits w = refl
IsPlain-started _ exits w = note_exit-started w
IsPlain-started _ (fails_finish e) w = refl
IsPlain-started _ (fails_cleanup e) w = refl
IsPlain-started _ leaves w = refl

-- Only the first request for a cleanup starts it.
Write-started : (w w' : Workflow) → Write w w' → w'.cleanup_started ≡ w.cleanup_started
unfolding stop end_as beat lock
Write-started w _ (plainly f _ plain) = IsPlain-started f plain w
Write-started w _ (starts session_id _ early) = note_session-started session_id w
Write-started w _ (beats now wall _) = refl
Write-started w _ (enters _ free) = refl
Write-started w _ (locks _ free) = refl
Write-started w _ (stops target error invalidate _ live started) = rw transition_lem refl
Write-started w _ (ends status error full now wall _ final live) = rw transition_lem refl

set-none :
    (xs : List Workflow) (h j : ℕ) (v : Workflow)
    → get_elem? (set xs h v) j ≡ none
    → get_elem? xs j ≡ none
set-none [] h j v e = e
set-none (x ∷ xs) zero zero v e = ground arith
set-none (x ∷ xs) zero (suc j) v e = e
set-none (x ∷ xs) (suc h) zero v e = ground arith
set-none (x ∷ xs) (suc h) (suc j) v e = set-none xs h j v e

append-none :
    (xs : List Workflow) (v : Workflow) (j : ℕ)
    → get_elem? (xs ++ (v ∷ [])) j ≡ none
    → get_elem? xs j ≡ none
append-none [] v j e = refl
append-none (x ∷ xs) v zero e = ground arith
append-none (x ∷ xs) v (suc j) e = append-none xs v j e

end_none : (xs : List Workflow) → get_elem? xs (length xs) ≡ none
end_none [] = refl
end_none (x ∷ xs) = end_none xs

written-Tidy :
    (m m' : Manager) (h : ℕ) (w w' : Workflow)
    → Tidy m
    → At m h w
    → IsTidy w'
    → w'.cleanup_started ≡ w.cleanup_started
    → m'.objects ≡ set m.objects h w'
    → m'.workers ≡ m.workers
    → Tidy m'
written-Tidy m m' h w w' v at t started a b = record {
  tidy = λ j u at'.
      elim (get_elem?-set m.objects h j w' (sym (ap (λ xs. get_elem? xs j) a) ∙ at')) [
        | inl (e, f) ↦ rw f t
        | inr (n, f) ↦ v.tidy j u f
      ];
  worker = λ j u at'.
      elim (get_elem?-set m.objects h j w' (sym (ap (λ xs. get_elem? xs j) a) ∙ at')) [
        | inl (e, f) ↦ rw (b, ← e, f, started) (v.worker h w at)
        | inr (n, f) ↦ rw b (v.worker j u f)
      ];
  no_worker = λ j e.
      rw b (v.no_worker j (set-none m.objects h j w' (sym (ap (λ xs. get_elem? xs j) a) ∙ e)));
}

adopted-Tidy :
    (m m' : Manager) (h : ℕ) (w w' : Workflow)
    → Tidy m
    → At m h w
    → IsTidy w'
    → w.cleanup_started ≡ false
    → w'.cleanup_started ≡ true
    → m'.objects ≡ set m.objects h w'
    → m'.workers ≡ h ∷ m.workers
    → Tidy m'
adopted-Tidy m m' h w w' v at t idle begun a b = record {
  tidy = λ j u at'.
      elim (get_elem?-set m.objects h j w' (sym (ap (λ xs. get_elem? xs j) a) ∙ at')) [
        | inl (e, f) ↦ rw f t
        | inr (n, f) ↦ v.tidy j u f
      ];
  worker = λ j u at'.
      elim (get_elem?-set m.objects h j w' (sym (ap (λ xs. get_elem? xs j) a) ∙ at')) [
        | inl (e, f) ↦
            let c : count j m.workers ≡ 0 = rw (← e) (v.worker h w at ∙ ap once idle) in
            rw (b, f, begun, (==_iff h j).1 e) (ap suc c)
        | inr (n, f) ↦ let other : (h == j) ≡ false = ground arith in rw (b, other) (v.worker j u f)
      ];
  no_worker = λ j e.
      let gone = set-none m.objects h j w' (sym (ap (λ xs. get_elem? xs j) a) ∙ e) in
      elim (Bool-cases (h == j)) [
        | inl same ↦ ground (arith, (==_iff h j).0 same, at, gone)
        | inr other ↦ rw (b, other) (v.no_worker j gone)
      ];
}

added-Tidy :
    (m m' : Manager) (w : Workflow)
    → Tidy m
    → IsTidy w
    → w.cleanup_started ≡ false
    → m'.objects ≡ m.objects ++ (w ∷ [])
    → m'.workers ≡ m.workers
    → Tidy m'
added-Tidy m m' w v t idle a b = record {
  tidy = λ j u at'.
      elim (get_elem?-append m.objects w j (sym (ap (λ xs. get_elem? xs j) a) ∙ at')) [
        | inl (e, f) ↦ rw f t
        | inr f ↦ v.tidy j u f
      ];
  worker = λ j u at'.
      elim (get_elem?-append m.objects w j (sym (ap (λ xs. get_elem? xs j) a) ∙ at')) [
        | inl (e, f) ↦ rw (b, e, f, idle) (v.no_worker (length m.objects) (end_none m.objects))
        | inr f ↦ rw b (v.worker j u f)
      ];
  no_worker = λ j e.
      rw b (v.no_worker j (append-none m.objects w j (sym (ap (λ xs. get_elem? xs j) a) ∙ e)));
}

Effect-Tidy : (m m' : Manager) → Effect m m' → Tidy m → Tidy m'
unfolding enlist fresh
Effect-Tidy m m' (unseen a b) v = record {
  tidy = λ j u at. v.tidy j u (sym (ap (λ xs. get_elem? xs j) a) ∙ at);
  worker = λ j u at. rw b (v.worker j u (sym (ap (λ xs. get_elem? xs j) a) ∙ at));
  no_worker = λ j e. rw b (v.no_worker j (sym (ap (λ xs. get_elem? xs j) a) ∙ e));
}
Effect-Tidy m m' (writes h w w' at k a b) v =
    written-Tidy m m' h w w' v at (Write-IsTidy w w' k (v.tidy h w at)) (Write-started w w' k) a b
Effect-Tidy m m' (adopts h w reason target error invalidate at live idle a b) v =
    adopted-Tidy m m' h w _ v at (enlist-IsTidy reason target error invalidate w (v.tidy h w at))
      idle refl a b
Effect-Tidy m m' (adds id request now wall a b) v =
    added-Tidy m m' _ v (fresh-IsTidy id request now wall) refl a b

-- From a tidy manager, the steps lead to tidy ones only.
pub Steps-Tidy : {m m' : Manager} → Steps m m' → Tidy m → Tidy m'
Steps-Tidy s v = Steps-kept Tidy (λ m m' x. Effect-Tidy m m' (Step-Effect m m' x)) s v
