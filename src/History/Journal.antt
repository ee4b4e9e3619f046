-- ===== src/History/Journal.antt =====
-- src/history.rs: the journal of events. `Inner`, `Reader`, `State` and `Writer` of the source are
-- one state, in Journal/State; what is retained is in Journal/Retained and Journal/Pruning.
pub mod Retained
pub mod Pruning
pub mod State
pub mod Kept
pub mod Limits
pub mod Accounts
pub mod Recorded
pub mod Books
pub mod Moves
pub mod Queue
pub mod Detached
pub mod Turns
pub mod Failed
pub mod Writer
pub mod Undisturbed
pub mod Told
pub mod Known
pub mod Reaches
pub mod Collector
mod Examples
use vivado_server.Base.{
  ℕ, zero, suc, ◌+◌, ◌-◌, ◌*◌, ◌/◌, Str, codes, ltb, leb, ◌==◌, if◌then◌else◌, length, any, Bool,
  true, false, ◌&&◌, ◌||◌, not, Option, none, some, List, [], ◌∷◌, ◌++◌,
}
use vivado_server.Error.{Result, ok, err, capacity, text}
use vivado_server.History.{Gap, gap, larger}
use vivado_server.History.Journal.State.{
  Message, Journal, Disk, max_queued_bytes, max_messages, gc_bytes, unavailable, refuse,
  settle_pending, compact, gather, note_failure, pass_gaps, recover,
}
use vivado_server.History.Journal.Retained.{
  Event, Stored, Settings, Reader, Tail, event_limit, accept, move_pending, stored_bytes,
}
use vivado_server.History.Journal.Pruning.{prune_reader}

-- The loop that numbers the events of a batch, up to the first that is too large.
pub data Numbered : Type 0 where
  numbered : List Event → ℕ → Numbered
  oversized : ℕ → Numbered

-- `encoded` is the number of bytes of an event on a line of the spool file.
module _ (encoded : Event → ℕ) where
  unfoldable pub event_bytes : List Event → ℕ
  event_bytes [] = 0
  event_bytes (e ∷ es) = encoded e + event_bytes es

  unfoldable pub stamp : ℕ → ℕ → Event → Event
  stamp instance_id seq e = record e {
    seq = seq;
    instance_id = if e.instance_id == 0 then instance_id else e.instance_id;
  }

  unfoldable pub number : ℕ → ℕ → List Event → Numbered
  unfolding stamp
  number instance_id next [] = numbered [] next
  number instance_id next (e ∷ es) =
      let stamped = stamp instance_id (next + 1) e in
      let rest = number instance_id (next + 1) es in
      if ltb event_limit (encoded stamped) then oversized (next + 1) else elim rest [
        | numbered stamped_rest last ↦ numbered (stamped ∷ stamped_rest) last
        | oversized last ↦ oversized last
      ]

  -- The bytes are counted first, and `try_send` fails on a full or a closed channel.
  unfoldable pub send : ℕ → ℕ → List Event → Journal → Result (Unit {0}) × Journal
  unfolding refuse event_bytes
  send first last events j =
      let bytes = event_bytes events in
      if ltb max_queued_bytes (j.queued_bytes + bytes)
      then refuse first last j
      else if j.finished || leb max_messages (length j.queue)
      then refuse first last j
      else (
        ok tt,
        record j {
          queue = j.queue ++ (record { events = events; bytes = bytes } ∷ []);
          queued_bytes = j.queued_bytes + bytes;
        },
      )

  enqueue_numbered : ℕ → Numbered → Journal → Result (Unit {0}) × Journal
  unfolding send
  enqueue_numbered first (oversized last) j = (
    err (capacity (text "history event too large")),
    record j { producer = last; pending = gap j.pending first last (codes "event_too_large") },
  )
  enqueue_numbered first (numbered events last) j =
      send first last events (record j { producer = last })

  -- The whole body runs under the lock of the producer.
  unfoldable pub enqueue : List Event → Journal → Result (Unit {0}) × Journal
  unfolding unavailable number enqueue_numbered
  enqueue events j =
      if j.stopped
      then (unavailable, j)
      else enqueue_numbered (j.producer + 1) (number j.instance_id j.producer events) j

  module _ (settings : Settings) where
    -- The events of a batch reach the reader one by one; each may trim its session's output.
    unfoldable pub accept_all : List Event → Reader × List (ℕ × Tail) → Reader × List (ℕ × Tail)
    accept_all [] kept = kept
    accept_all (e ∷ es) kept = accept_all es (accept settings (encoded e) e kept)

    -- Whether the spool file has enough room to win for a compaction.
    unfoldable pub wastes : Journal → Bool
    wastes j =
        ltb (settings.max_bytes + gc_bytes / 2) j.physical
        || leb gc_bytes (j.physical - j.reader.bytes)

    unfoldable pub prune_journal : Journal → Journal
    unfolding prune_reader
    prune_journal j =
        let kept = prune_reader settings j.now (j.reader, j.tails) in
        record j { reader = kept.0; tails = kept.1 }

    unfoldable pub record_batch : List Event → Journal → Journal
    unfolding accept_all event_bytes
    record_batch events j =
        let kept = accept_all events (j.reader, j.tails) in
        record j { physical = j.physical + event_bytes events; reader = kept.0; tails = kept.1 }

    unfoldable pub finish_append : Disk → Journal → Bool × Journal
    unfolding wastes compact
    finish_append disk j =
        let compacted = compact disk j in
        if wastes j then (compacted.0 && disk.persisted, compacted.1) else (disk.persisted, j)

    unfoldable pub append : Disk → List Event → Journal → Bool × Journal
    unfolding record_batch settle_pending prune_journal finish_append
    append disk events j =
        if any (λ e. ltb event_limit (encoded e)) events
        then (false, j)
        else if disk.written
        then finish_append disk (prune_journal (settle_pending (record_batch events j)))
        else (false, if disk.rolled_back then j else record j { stopped = true })

    unfoldable pub record_events : Disk → List Event → Journal → Journal
    unfolding append note_failure
    record_events disk events j =
        let done = append disk events j in
        note_failure events done.0 (record (done.1) { healthy = done.0 })

    -- The writer receives a message: the first branch of the loop in `run`.
    unfoldable pub receive : Disk → Journal → Journal
    unfolding record_events gather
    receive disk j = elim j.queue [
      | [] ↦ j
      | message ∷ queue ↦
          let (events, bytes, rest) = gather message.events message.bytes queue in
          record_events disk events
            (record j { queue = rest; queued_bytes = j.queued_bytes - bytes })
    ]

    unfoldable pub prune_due : Disk → Journal → Journal
    unfolding prune_journal compact
    prune_due disk j =
        let pruned = record (prune_journal j) { last_prune = j.now } in
        if ltb 60 (j.now - j.last_prune)
        then if pruned.reader.bytes == j.reader.bytes then pruned else (compact disk pruned).1
        else j

    -- Nothing came for a while: the second branch of the loop in `run`.
    unfoldable pub idle : Disk → Journal → Journal
    unfolding settle_pending pass_gaps recover prune_due
    idle disk j =
        let passed = pass_gaps (settle_pending j) in
        let changed =
          ltb 0 (length j.pending) || not (j.reader.next_cursor == passed.reader.next_cursor) in
        let kept = prune_due disk (recover disk changed passed) in
        record kept { finished = kept.stopped }
