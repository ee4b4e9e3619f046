-- ===== src/History/Journal/State.antt =====
-- src/history.rs: the state of the journal, `Inner` and `Writer` of the source in one, and what the
-- code does to it without a look at the options.
use vivado_server.Base.{
  ℕ, ◌+◌, ◌*◌, codes, ltb, ◌==◌, if◌then◌else◌, length, Bool, true, false, ◌&&◌, not, List, [], ◌∷◌,
  ◌++◌,
}
use vivado_server.Error.{Result, err, capacity, text}
use vivado_server.History.{Gap, gap, larger}
use vivado_server.History.Journal.Retained.{Event, Reader, Tail, stored_bytes, move_pending}

abbrev pub max_queued_bytes : ℕ
max_queued_bytes = 8 * 1_024 * 1_024

-- The capacity of the channel to the writer.
abbrev pub max_messages : ℕ
max_messages = 2_048

abbrev pub gc_bytes : ℕ
gc_bytes = 32 * 1_024 * 1_024

-- A batch on its way to the writer; the channel that acknowledges it is left out.
pub record Message : Type 0 where
  pub events : List Event
  pub bytes : ℕ

pub record Journal : Type 0 where
  pub instance_id : ℕ
  pub producer : ℕ
  pub queue : List Message
  pub queued_bytes : ℕ
  pub pending : List Gap
  pub reader : Reader
  pub tails : List (ℕ × Tail)
  pub physical : ℕ
  pub healthy : Bool
  pub stopped : Bool
  pub finished : Bool
  pub last_prune : ℕ
  pub now : ℕ

-- What the disk does to one attempt of the writer: the batch is written, or the file is cut back;
-- the compacted file takes the place of the old one, and its directory is synced; the state is
-- written; the file is synced and the state is written again.
pub record Disk : Type 0 where
  pub written : Bool
  pub rolled_back : Bool
  pub replaced : Bool
  pub compacted : Bool
  pub persisted : Bool
  pub retried : Bool

unfoldable pub unavailable : Result (Unit {0})
unavailable = err (capacity (text "history recording unavailable"))

-- A batch that the queue does not take is a gap.
unfoldable pub refuse : ℕ → ℕ → Journal → Result (Unit {0}) × Journal
unfolding unavailable
refuse first last j = (
  unavailable,
  record j { pending = gap j.pending first last (codes "queue_full"); healthy = false },
)

-- The pending gaps join the reader's.
unfoldable pub settle_pending : Journal → Journal
unfolding move_pending
settle_pending j = record j { pending = []; reader = move_pending j.pending j.reader }

unfoldable pub compact : Disk → Journal → Bool × Journal
unfolding stored_bytes
compact disk j = (
  disk.replaced && disk.compacted,
  if disk.replaced then record j { physical = stored_bytes j.reader.events } else j,
)

-- The loop that takes further messages while the batch has less than 256 events. It returns the
-- events, their bytes, and the messages that are left.
unfoldable pub gather : List Event → ℕ → List Message → List Event × ℕ × List Message
gather events bytes [] = (events, bytes, [])
gather events bytes (message ∷ queue) =
    if ltb (length events) 256
    then gather (events ++ message.events) (bytes + message.bytes) queue
    else (events, bytes, message ∷ queue)

unfoldable pub last_seq : ℕ → List Event → ℕ
last_seq seq [] = seq
last_seq seq (e ∷ es) = last_seq e.seq es

-- A batch that failed is a gap, although some of it may be recorded.
unfoldable pub note_failure : List Event → Bool → Journal → Journal
unfolding last_seq
note_failure events true j = j
note_failure [] false j = j
note_failure (e ∷ es) false j = record j {
  pending = gap j.pending e.seq (last_seq e.seq es) (codes "disk_error");
}

-- Behind an empty queue, the cursor passes the lost numbers.
unfoldable pub highest : List Gap → ℕ
highest [] = 0
highest (g ∷ gaps) = larger g.through_seq (highest gaps)

unfoldable pub pass_gaps : Journal → Journal
unfolding highest
pass_gaps j =
    if j.queued_bytes == 0
    then record j {
      reader = record (j.reader) {
        next_cursor = larger j.reader.next_cursor (highest j.reader.gaps);
      };
    }
    else j

-- A state that has changed is written; an unhealthy writer tries again.
unfoldable pub recover : Disk → Bool → Journal → Journal
recover disk changed j =
    let healthy = if changed then disk.persisted else j.healthy in
    record j { healthy = if not healthy && not j.stopped then disk.retried else healthy }
