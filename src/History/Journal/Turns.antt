-- ===== src/History/Journal/Turns.antt =====
-- src/history.rs: what holds of the journal while the writer is in the middle of a turn.
use mathlib.Core.List.{append_assoc}
use vivado_server.Base.{ℕ, ◌-◌, ◌≤◌, ◌≡◌, ◌⊎◌, sym, subst, Bool, false, List, [], ◌∷◌, ◌++◌, arith}
use vivado_server.History.Journal.Retained.{Event, Reader}
use vivado_server.History.Journal.State.{Message, Journal}
use vivado_server.History.Journal.{enqueue}
use vivado_server.History.Journal.Accounts.{Rising, Told}
use vivado_server.History.Journal.Books.{queued, Sheet, Halfway, IsJournal}
use vivado_server.History.Journal.Queue.{event_bytes-append, enqueue-Sheet, enqueue-kept}
use vivado_server.History.Journal.Detached.{with_gaps}
use vivado_server.History.Journal.Moves.{
  Turn, resting, gathering, writing, storing, tracking, trimming, joining, pruning, finishing,
  answering, noting, recovering, aging,
}

-- The numbers of a batch rise, up to what was given out.
abbrev pub Spans : ℕ → List Event → Type 0
Spans p batch = (c : ℕ) × Rising c p batch

Rising-raise : (c p n : ℕ) (es : List Event) → p ≤ n → Rising c p es → Rising c n es
Rising-raise c p n [] l h = omega (arith, l, h)
Rising-raise c p n (e ∷ es) l (m, h) = (m, Rising-raise e.seq p n es l h)

module _ (encoded : Event → ℕ) where
  abbrev pub IsOpen : List Event → Journal → Type 0
  IsOpen left j = Sheet encoded (Unit {0}) left j.reader j

  -- While a batch reaches the reader, and until the pending gaps are taken, the reader need not know
  -- of every number up to its cursor.
  abbrev pub IsDesk : Turn → Journal → Type 0
  IsDesk resting j = IsJournal encoded j
  IsDesk (gathering batch) j = Halfway encoded batch j
  IsDesk (writing batch) j = Halfway encoded batch j
  IsDesk (storing batch left) j = IsOpen left j × Spans j.producer batch
  IsDesk (tracking batch e left) j = IsOpen left j × Spans j.producer batch
  IsDesk (trimming batch left id bytes items) j = IsOpen left j × Spans j.producer batch
  IsDesk (joining batch gaps) j =
      Sheet encoded (Told (with_gaps gaps j.reader)) [] (with_gaps gaps j.reader) j
      × Spans j.producer batch
  IsDesk (pruning batch) j = IsJournal encoded j × Spans j.producer batch
  IsDesk (finishing batch) j = IsJournal encoded j × Spans j.producer batch
  IsDesk (answering batch left done) j =
      Halfway encoded left j
      × Spans j.producer batch
      × ((left ≡ []) ⊎ ((left ≡ batch) × (done ≡ false)))
  IsDesk (noting batch left done) j =
      Halfway encoded left j
      × Spans j.producer batch
      × ((left ≡ []) ⊎ ((left ≡ batch) × (done ≡ false)))
  IsDesk (recovering changed) j = IsJournal encoded j
  IsDesk aging j = IsJournal encoded j

  -- The clock and the shutdown do not touch the accounts.
  pub clock-IsDesk :
      (t : Turn) (j : Journal) (stopped : Bool) (now : ℕ)
      → IsDesk t j
      → IsDesk t (record j { stopped = stopped; now = now })
  clock-IsDesk resting j stopped now v = v
  clock-IsDesk (gathering batch) j stopped now v = v
  clock-IsDesk (writing batch) j stopped now v = v
  clock-IsDesk (storing batch left) j stopped now v = v
  clock-IsDesk (tracking batch e left) j stopped now v = v
  clock-IsDesk (trimming batch left id bytes items) j stopped now v = v
  clock-IsDesk (joining batch gaps) j stopped now v = v
  clock-IsDesk (pruning batch) j stopped now v = v
  clock-IsDesk (finishing batch) j stopped now v = v
  clock-IsDesk (answering batch left done) j stopped now v = v
  clock-IsDesk (noting batch left done) j stopped now v = v
  clock-IsDesk (recovering changed) j stopped now v = v
  clock-IsDesk aging j stopped now v = v

  module _ (j : Journal) (events : List Event) where
    enqueued : Journal
    enqueued = (enqueue encoded events j).1

    seen-Sheet :
        (T : Reader → Type 0) (f : Reader → Reader) (left : List Event)
        → Sheet encoded (T (f j.reader)) left (f j.reader) j
        → Sheet encoded (T (f enqueued.reader)) left (f enqueued.reader) enqueued
    unfolding enqueued
    seen-Sheet T f left v =
        let (same, given) = enqueue-kept encoded j events in
        subst (λ r. Sheet encoded (T (f r)) left (f r) enqueued) (sym same)
          (enqueue-Sheet encoded (T (f j.reader)) left (f j.reader) j events v)

    enqueue-Halfway : (left : List Event) → Halfway encoded left j → Halfway encoded left enqueued
    enqueue-Halfway left v = seen-Sheet Told (λ r. r) left v

    enqueue-IsOpen : (left : List Event) → IsOpen left j → IsOpen left enqueued
    enqueue-IsOpen left v = seen-Sheet (λ r. Unit {0}) (λ r. r) left v

    enqueue-Spans : (batch : List Event) → Spans j.producer batch → Spans enqueued.producer batch
    unfolding enqueued
    enqueue-Spans batch (c, h) =
        let (same, given) = enqueue-kept encoded j events in
        (c, Rising-raise c j.producer enqueued.producer batch given h)

    pub enqueue-IsDesk : (t : Turn) → IsDesk t j → IsDesk t (enqueue encoded events j).1
    unfolding enqueued
    enqueue-IsDesk resting v = enqueue-Halfway [] v
    enqueue-IsDesk (gathering batch) v = enqueue-Halfway batch v
    enqueue-IsDesk (writing batch) v = enqueue-Halfway batch v
    enqueue-IsDesk (storing batch left) (v, s) = (enqueue-IsOpen left v, enqueue-Spans batch s)
    enqueue-IsDesk (tracking batch e left) (v, s) = (enqueue-IsOpen left v, enqueue-Spans batch s)
    enqueue-IsDesk (trimming batch left id bytes items) (v, s) =
        (enqueue-IsOpen left v, enqueue-Spans batch s)
    enqueue-IsDesk (joining batch gaps) (v, s) =
        (seen-Sheet Told (with_gaps gaps) [] v, enqueue-Spans batch s)
    enqueue-IsDesk (pruning batch) (v, s) = (enqueue-Halfway [] v, enqueue-Spans batch s)
    enqueue-IsDesk (finishing batch) (v, s) = (enqueue-Halfway [] v, enqueue-Spans batch s)
    enqueue-IsDesk (answering batch left done) (v, s, how) =
        (enqueue-Halfway left v, enqueue-Spans batch s, how)
    enqueue-IsDesk (noting batch left done) (v, s, how) =
        (enqueue-Halfway left v, enqueue-Spans batch s, how)
    enqueue-IsDesk (recovering changed) v = enqueue-Halfway [] v
    enqueue-IsDesk aging v = enqueue-Halfway [] v

  -- The writer takes one message.
  pub take-Halfway :
      (batch : List Event) (j : Journal) (m : Message) (queue : List Message)
      → j.queue ≡ m ∷ queue
      → Halfway encoded batch j
      → Halfway encoded
          (batch ++ m.events)
          (record j { queue = queue; queued_bytes = j.queued_bytes - m.bytes })
  unfolding queued
  take-Halfway batch j m queue e v =
      let (h, s) = rw e at (v.sized) in
      let split = event_bytes-append encoded m.events (queued queue) in
      record {
        accounts = rw (append_assoc batch m.events (queued queue)) (rw e at (v.accounts));
        told = v.told;
        counted = let c = rw e at (v.counted) in omega (arith, c, h, split);
        sized = s;
      }
