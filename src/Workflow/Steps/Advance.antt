-- ===== src/Workflow/Steps/Advance.antt =====
-- src/workflow.rs: every step, and so every task, leaves each workflow in place, at a later point.
use mathlib.Core.Option.{some-injective}
use vivado_server.Base.{
  ℕ, ◌≡◌, refl, sym, ◌∙◌, Bool, false, Option, inl, inr, Bool-cases, ◌==◌, ==_iff, arith,
}
use vivado_server.Base.Maps.{set, get_elem?-set_self, get_elem?-set_ne, get_elem?-append_left}
use vivado_server.Error.{AppError}
use vivado_server.Workflow.Model.{WorkflowStatus, Workflow}
use vivado_server.Workflow.Registry.{Manager}
use vivado_server.Workflow.Cleanup.{stop, enlist}
use vivado_server.Workflow.Slot.{At}
use vivado_server.Workflow.Slot.Steps.{transition_lem}
use vivado_server.Workflow.Steps.{Steps, none_yet, step}
use vivado_server.Workflow.Steps.Effect.{
  Write, plainly, starts, beats, enters, locks, stops, ends, Effect, unseen, writes, adopts, adds,
  Step-Effect,
}
use vivado_server.Workflow.Steps.Order.{
  Later, Later-refl, Later-trans, aside, stop-Later, enlist-Later, end_as-Later, note_session-Later,
  lock-Later, beat-Later, IsPlain-Later,
}

-- Every object of `m` is in `m'` under the same handle, at a later point.
pub record Advances (m m' : Manager) : Type 0 where
  pub goes : (h : ℕ) (w : Workflow) → At m h w → (w' : Workflow) × At m' h w' × Later w w'

same-Advances : (m m' : Manager) → m'.objects ≡ m.objects → Advances m m'
same-Advances m m' e = record { goes = λ h w at. (w, rw e at, Later-refl w) }

set-Advances :
    (m m' : Manager) (h : ℕ) (w w' : Workflow)
    → At m h w
    → Later w w'
    → m'.objects ≡ set m.objects h w'
    → Advances m m'
set-Advances m m' h w w' at l e = record {
  goes = λ j u a. elim (Bool-cases (h == j)) [
    | inl same ↦
        let i : h ≡ j = (==_iff h j).0 same in
        let f : w ≡ u = some-injective _ _ (sym at ∙ rw i a) in
        (w', rw (e, ← i) (get_elem?-set_self m.objects h w' at), rw (← f) l)
    | inr other ↦ (u, rw e (get_elem?-set_ne m.objects h j w' (ground arith) ∙ a), Later-refl u)
  ];
}

Advances-trans : (m m' m'' : Manager) → Advances m m' → Advances m' m'' → Advances m m''
Advances-trans m m' m'' a b = record {
  goes = λ h w at.
      let (w', at', l) = a.goes h w at in
      let (w'', at'', l') = b.goes h w' at' in (w'', at'', Later-trans w w' w'' l l');
}

Write-Later : (w w' : Workflow) → Write w w' → Later w w'
Write-Later w _ (plainly f _ plain) = IsPlain-Later f plain w
Write-Later w _ (starts session_id _ early) = note_session-Later session_id w early
Write-Later w _ (beats now wall _) = beat-Later now wall w
Write-Later w _ (locks _ free) = lock-Later w
Write-Later w _ (enters _ free) = aside w _ refl refl refl refl refl refl refl refl
Write-Later w _ (stops target error invalidate _ live started) =
    stop-Later target error invalidate w live
Write-Later w _ (ends status error full now wall _ final live) =
    end_as-Later status error full now wall w final live

stop-idle :
    (target : WorkflowStatus) (error : Option AppError) (invalidate : Bool) (w : Workflow)
    → w.cleanup_started ≡ false
    → (stop target error invalidate w).cleanup_started ≡ false
unfolding stop
stop-idle target error invalidate w idle = rw transition_lem idle

Effect-Advances : (m m' : Manager) → Effect m m' → Advances m m'
Effect-Advances m m' (unseen a b) = same-Advances m m' a
Effect-Advances m m' (writes h w w' at k a b) = set-Advances m m' h w w' at (Write-Later w w' k) a
Effect-Advances m m' (adopts h w reason target error invalidate at live idle a b) =
    let w' = stop target error invalidate w in
    set-Advances m m' h w (enlist reason w') at
      (Later-trans w w' (enlist reason w') (stop-Later target error invalidate w live)
        (enlist-Later reason w' (stop-idle target error invalidate w idle)))
      a
Effect-Advances m m' (adds id request now wall a b) = record {
  goes = λ h w at. (w, rw a (get_elem?-append_left m.objects _ h at), Later-refl w);
}

pub Steps-Advances : (m m' : Manager) → Steps m m' → Advances m m'
Steps-Advances m _ none_yet = same-Advances m m refl
Steps-Advances m _ (step {m'} {m''} s x) =
    Advances-trans m m' m'' (Steps-Advances m m' s) (Effect-Advances m' m'' (Step-Effect m' m'' x))
