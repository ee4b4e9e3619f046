-- ===== src/History/Journal/Writer.antt =====
-- src/history.rs: the accounts of the journal, while the writer receives a batch.
use mathlib.Core.List.{append_assoc}
use vivado_server.Base.{
  ℕ, ◌+◌, ◌-◌, ◌≡◌, refl, ◌∙◌, ltb, length, any, Bool, true, false, ◌&&◌, Bool-cases, inl, inr,
  List, [], ◌∷◌, ◌++◌, arith,
}
use vivado_server.History.Journal.Retained.{
  Event, Settings, event_limit, stored_bytes, move_pending,
}
use vivado_server.History.Journal.Pruning.{prune_reader}
use vivado_server.History.Journal.State.{
  Disk, Message, Journal, compact, settle_pending, gather, note_failure,
}
use vivado_server.History.Journal.{
  event_bytes, wastes, prune_journal, record_batch, finish_append, append, record_events, receive,
}
use vivado_server.History.Journal.Limits.{prune_reader-Kept}
use vivado_server.History.Journal.Accounts.{
  Rising, Accounts, Accounts-Told, Kept-Accounts, Kept-Told,
}
use vivado_server.History.Journal.Recorded.{accept_all-Accounts, move_pending-Accounts}
use vivado_server.History.Journal.Queue.{event_bytes-append}
use vivado_server.History.Journal.Books.{queued, Sized, Halfway, IsJournal}
use vivado_server.History.Journal.Failed.{Rising-front, note_failure-lost, note_failure-kept}

module _ (encoded : Event → ℕ) (settings : Settings) where
  -- The pending gaps join the reader's, and pruning follows.
  pub prune_journal-IsJournal :
      (j : Journal) → IsJournal encoded j → IsJournal encoded (prune_journal encoded settings j)
  unfolding prune_journal
  prune_journal-IsJournal j v =
      let kept = prune_reader-Kept settings j.now j.reader j.tails in
      record {
        accounts =
            Kept-Accounts (queued j.queue) j.producer j.pending j.reader
              (prune_reader settings j.now (j.reader, j.tails)).0 kept v.accounts;
        told = Kept-Told j.reader (prune_reader settings j.now (j.reader, j.tails)).0 kept v.told;
        counted = v.counted;
        sized = v.sized;
      }

  pub settle_pending-IsJournal :
      (j : Journal)
      → Accounts (queued j.queue) j.producer j.pending j.reader
      → j.queued_bytes ≡ event_bytes encoded (queued j.queue)
      → Sized encoded j.queue
      → IsJournal encoded (settle_pending j)
  unfolding settle_pending
  settle_pending-IsJournal j a c s =
      let moved = move_pending-Accounts (queued j.queue) j.producer j.pending j.reader a in
      record {
        accounts = moved;
        told = Accounts-Told (queued j.queue) j.producer (move_pending j.pending j.reader) moved;
        counted = c;
        sized = s;
      }

  pub compact-IsJournal :
      (disk : Disk) (j : Journal) → IsJournal encoded j → IsJournal encoded (compact disk j).1
  unfolding compact
  compact-IsJournal disk j v = elim (Bool-cases disk.replaced) [
    | inl replaced ↦ simp (compact, replaced) v
    | inr left ↦ simp (compact, left) v
  ]

  recorded : List Event → Journal → Journal
  recorded events j =
      prune_journal encoded settings (settle_pending (record_batch encoded settings events j))

  -- Before pruning
  pub settled-IsJournal :
      (events : List Event) (j : Journal)
      → Halfway encoded events j
      → IsJournal encoded (settle_pending (record_batch encoded settings events j))
  unfolding record_batch
  settled-IsJournal events j v =
      settle_pending-IsJournal (record_batch encoded settings events j)
        (accept_all-Accounts encoded settings events (queued j.queue) j.producer j.pending j.reader
          j.tails v.accounts)
        v.counted v.sized

  recorded-IsJournal :
      (events : List Event) (j : Journal)
      → Halfway encoded events j
      → IsJournal encoded (recorded events j)
  unfolding recorded
  recorded-IsJournal events j v =
      prune_journal-IsJournal (settle_pending (record_batch encoded settings events j))
        (settled-IsJournal events j v)

  -- The end of an attempt on a batch: its health is noted, and a failure.
  Ends : List Event → Bool × Journal → Type 0
  Ends events (done, j) = IsJournal encoded (note_failure events done (record j { healthy = done }))

  Ends-kept :
      (c : ℕ) (events : List Event) (done : Bool) (j : Journal)
      → Rising c j.producer events
      → IsJournal encoded j
      → Ends events (done, j)
  unfolding Ends
  Ends-kept c events done j h v =
      note_failure-kept encoded c events done (record j { healthy = done }) h v

  Ends-lost :
      (events : List Event) (j : Journal) → Halfway encoded events j → Ends events (false, j)
  unfolding Ends
  Ends-lost events j v = note_failure-lost encoded events (record j { healthy = false }) v

  finish_append-Ends :
      (c : ℕ) (disk : Disk) (events : List Event) (j : Journal)
      → Rising c j.producer events
      → IsJournal encoded j
      → Ends events (finish_append encoded settings disk j)
  unfolding finish_append compact
  finish_append-Ends c disk events j h v = elim (Bool-cases (wastes encoded settings j)) [
    | inr thrifty ↦ simp (finish_append, thrifty) (Ends-kept c events disk.persisted j h v)
    | inl wasteful ↦
        let done = compact disk j in
        elim (Bool-cases disk.replaced) [
          | inl replaced ↦
              let smaller = record j { physical = stored_bytes j.reader.events } in
              simp (finish_append, wasteful, compact, replaced)
                (Ends-kept c events (disk.compacted && disk.persisted) smaller h v)
          | inr left ↦
              simp (finish_append, wasteful, compact, left) (Ends-kept c events false j h v)
        ]
  ]

  -- A batch is recorded or lost, with or without an error.
  append-Ends :
      (disk : Disk) (events : List Event) (j : Journal)
      → Halfway encoded events j
      → Ends events (append encoded settings disk events j)
  unfolding append recorded
  append-Ends disk events j v =
      let rising =
        Rising-front j.reader.next_cursor j.producer events (queued j.queue) v.accounts.rising in
      elim (Bool-cases (any (λ e. ltb event_limit (encoded e)) events)) [
        | inl large ↦ simp (append, large) (Ends-lost events j v)
        | inr fit ↦ elim (Bool-cases disk.written) [
          | inl written ↦
              simp (append, fit, written)
                (finish_append-Ends j.reader.next_cursor disk events (recorded events j) rising
                  (recorded-IsJournal events j v))
          | inr failed ↦ elim (Bool-cases disk.rolled_back) [
            | inl back ↦ simp (append, fit, failed, back) (Ends-lost events j v)
            | inr torn ↦
                simp (append, fit, failed, torn) (Ends-lost events (record j { stopped = true }) v)
          ]
        ]
      ]

  gather-keeps :
      (events : List Event) (bytes : ℕ) (queue : List Message)
      → bytes ≡ event_bytes encoded events
      → Sized encoded queue
      → let (es, b, rest) = gather events bytes queue in
        (es ++ queued rest ≡ events ++ queued queue)
        × (b ≡ event_bytes encoded es)
        × Sized encoded rest
  unfolding gather queued
  gather-keeps events bytes [] e s = (refl, e, tt)
  gather-keeps events bytes (m ∷ queue) e (h, s) = elim (Bool-cases (ltb (length events) 256)) [
    | inr full ↦ rw full (refl, e, (h, s))
    | inl room ↦
        let (whole, right, rest) =
          gather-keeps (events ++ m.events) (bytes + m.bytes) queue
            (let a = event_bytes-append encoded events m.events in omega (arith, a, e, h)) s in
        rw room (whole ∙ append_assoc events m.events (queued queue), right, rest)
  ]

  pub gather-Halfway :
      (j : Journal) (m : Message) (queue : List Message)
      → j.queue ≡ m ∷ queue
      → IsJournal encoded j
      → let (events, bytes, rest) = gather m.events m.bytes queue in
        Halfway encoded events (record j { queue = rest; queued_bytes = j.queued_bytes - bytes })
  unfolding queued
  gather-Halfway j m queue e v =
      let g = gather m.events m.bytes queue in
      let (h, s) = rw e at (v.sized) in
      let (whole, right, rest) = gather-keeps m.events m.bytes queue h s in
      let split = event_bytes-append encoded g.0 (queued g.2) in
      record {
        accounts = rw whole (rw e at (v.accounts));
        told = v.told;
        counted = let c = rw (e, ← whole) at (v.counted) in omega (arith, c, right, split);
        sized = rest;
      }

  pub receive-IsJournal :
      (disk : Disk) (j : Journal)
      → IsJournal encoded j
      → IsJournal encoded (receive encoded settings disk j)
  unfolding receive record_events Ends
  receive-IsJournal disk j v = takes j.queue refl
    where
      takes :
          (queue : List Message)
          → j.queue ≡ queue
          → IsJournal encoded (elim queue [
            | [] ↦ j
            | message ∷ rest_queue ↦
                let (events, bytes, rest) = gather message.events message.bytes rest_queue in
                record_events encoded settings disk events
                  (record j { queue = rest; queued_bytes = j.queued_bytes - bytes })
          ])
      takes [] e = v
      takes (m ∷ queue) e =
          let g = gather m.events m.bytes queue in
          append-Ends disk g.0 (record j { queue = g.2; queued_bytes = j.queued_bytes - g.1 })
            (gather-Halfway j m queue e v)
