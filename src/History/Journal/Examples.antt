-- ===== src/History/Journal/Examples.antt =====
-- src/history.rs: a journal whose disk fails once, and then works again.
use vivado_server.Base.{
  ℕ, ◌+◌, ◌-◌, ◌++◌, inr, ◌≤◌, ◌≡◌, refl, ◌=s=◌, codes, length, true, false, not, ◌||◌, none, [],
  ◌∷◌, arith,
}
use vivado_server.Error.{ok}
use vivado_server.History.{merge_last, bound, gap}
use vivado_server.History.Gaps.{covers}
use vivado_server.History.Pages.{Page, range, fill, close, page}
use vivado_server.History.Journal.Retained.{
  Event, Settings, max_events, stored_bytes, insert_event, apply_lifecycle, store_event, accept,
  track_tail, move_pending,
}
use vivado_server.History.Journal.Pruning.{
  drop_oldest, drop_tails, earliest, first_retained, prune_reader,
}
use vivado_server.History.Journal.State.{
  Disk, Message, Journal, compact, gather, note_failure, settle_pending,
}
use vivado_server.History.Journal.{
  event_bytes, stamp, number, send, enqueue_numbered, enqueue, accept_all, wastes, prune_journal,
  record_batch, finish_append, append, record_events, receive, idle,
}
use vivado_server.History.Journal.Kept.{entries}
use vivado_server.History.Journal.Books.{new_journal}
use vivado_server.History.Journal.Undisturbed.{one, joined, receive-Moves}
use vivado_server.History.Journal.Moves.{
  Turn, resting, tracking, carried, is_resting, Moves, rests, moves, enqueues, takes, writes,
  records, stores,
}
use vivado_server.History.Journal.Reaches.{idle-reaches, receive-Limited}
use vivado_server.History.Journal.Collector.{lists, page-tells}

-- Every line of the spool file has 100 bytes.
abbrev line : Event → ℕ
line e = 100

abbrev settings : Settings
settings = record {
  max_bytes = 65_536;
  retention_secs = 60;
  session_head_bytes = 4_096;
  session_tail_bytes = 4_096;
}

abbrev an_event : Event
an_event = record {
  seq = 0;
  instance_id = 0;
  timestamp = 1_000;
  event = codes "service.started";
  workflow_id = none;
  session_id = none;
  byte_offset = 0;
  byte_length = 0;
}

abbrev full_disk : Disk
full_disk = record {
  written = false;
  rolled_back = true;
  replaced = true;
  compacted = true;
  persisted = true;
  retried = true;
}

abbrev disk : Disk
disk = record full_disk { written = true }

abbrev start : Journal
start = new_journal 7 1_000

abbrev asked : Journal
asked = (enqueue line (an_event ∷ []) start).1

abbrev first_attempt : Journal
first_attempt = receive line settings full_disk asked

abbrev asked_again : Journal
asked_again = (enqueue line (an_event ∷ []) first_attempt).1

abbrev second_attempt : Journal
second_attempt = receive line settings disk asked_again

abbrev first_message : Message
first_message = record { events = record an_event { seq = 1; instance_id = 7 } ∷ []; bytes = 100 }

-- The batch of the second attempt.
abbrev message : Message
message = record { events = record an_event { seq = 2; instance_id = 7 } ∷ []; bytes = 100 }

asked_run : Moves line settings resting start resting asked
asked_run =
    moves resting resting resting start start asked (rests resting start)
      (enqueues resting start (an_event ∷ []))

first_attempt_run : Moves line settings resting start resting first_attempt
unfolding new_journal enqueue number stamp send enqueue_numbered event_bytes
first_attempt_run =
    joined line settings asked_run
      (receive-Moves line settings full_disk asked first_message [] refl refl)

asked_again_run : Moves line settings resting start resting asked_again
asked_again_run =
    moves resting resting resting start first_attempt asked_again first_attempt_run
      (enqueues resting first_attempt (an_event ∷ []))

second_attempt_run : Moves line settings resting start resting second_attempt
unfolding new_journal enqueue number stamp send enqueue_numbered event_bytes receive gather
    record_events append note_failure
second_attempt_run =
    joined line settings asked_again_run
      (receive-Moves line settings disk asked_again message [] refl refl)

a_byte : (e : Event) → 1 ≤ line e
a_byte e = omega arith

receive-Moves_example : Moves line settings resting asked_again resting second_attempt
unfolding new_journal enqueue number stamp send enqueue_numbered event_bytes receive gather
    record_events append note_failure
receive-Moves_example = receive-Moves line settings disk asked_again message [] refl refl

-- In the middle of the second attempt: the event is recorded and has reached the reader, and the gap
-- of the first one is still pending.
abbrev second_event : Event
second_event = record an_event { seq = 2; instance_id = 7 }

abbrev taken : Journal
taken = record asked_again { queue = []; queued_bytes = asked_again.queued_bytes - 100 }

abbrev recorded : Journal
recorded = record taken { physical = taken.physical + event_bytes line message.events }

abbrev halfway : Journal
halfway = record recorded { reader = store_event 100 second_event recorded.reader }

abbrev halfway_turn : Turn
halfway_turn = tracking message.events second_event []

halfway_run : Moves line settings resting start halfway_turn halfway
unfolding new_journal enqueue number stamp send enqueue_numbered event_bytes receive gather
    record_events append note_failure
halfway_run = joined line settings asked_again_run (
    joined line settings (one line settings (takes asked_again message [] refl refl)) (
      joined line settings (one line settings (writes taken message.events (inr refl))) (
        joined line settings (one line settings (records taken message.events refl))
          (one line settings (stores recorded message.events second_event [])))))

idle-reaches_example :
    (idle line settings disk first_attempt).reader.next_cursor ≡ first_attempt.producer
unfolding new_journal enqueue number stamp send enqueue_numbered event_bytes receive gather
    record_events append note_failure
idle-reaches_example =
    idle-reaches line settings 7 1_000 disk first_attempt a_byte first_attempt_run refl

second_attempt_healthy : second_attempt.healthy ≡ true
unfolding new_journal enqueue number stamp send enqueue_numbered event_bytes receive gather
    record_events append note_failure finish_append wastes record_batch settle_pending prune_journal
    compact accept_all accept store_event apply_lifecycle insert_event track_tail move_pending
    prune_reader drop_oldest stored_bytes gap merge_last bound earliest first_retained drop_tails
    ◌=s=◌
second_attempt_healthy = refl

receive-Limited_example :
    (second_attempt.reader.bytes ≡ stored_bytes second_attempt.reader.events)
    × (second_attempt.reader.bytes ≤ 65_536)
    × (length second_attempt.reader.events ≤ max_events)
unfolding new_journal enqueue number stamp send enqueue_numbered event_bytes receive gather
    record_events append note_failure
receive-Limited_example =
    receive-Limited line settings 7 1_000 disk asked_again message [] a_byte asked_again_run refl
      second_attempt_healthy

-- A page on which the second event is, and neither the first nor its gap.
abbrev second_page : Page
second_page = record {
  events = record { seq = 2; size = 100 } ∷ [];
  next_cursor = 2;
  has_more = false;
}

second_read :
    page true halfway.reader.next_cursor (entries halfway.reader.events) 0 10 ≡ ok second_page
unfolding new_journal enqueue number stamp send enqueue_numbered event_bytes receive gather
    record_events append note_failure store_event apply_lifecycle insert_event ◌=s=◌ page range fill
    close
second_read = refl

page-tells_example :
    ((lists 1 second_page.events
        || covers 1 (carried halfway_turn ++ halfway.reader.gaps)
        || covers 1 halfway.pending)
      ≡ true)
    × ((lists 1 second_page.events || covers 1 halfway.reader.gaps || not (is_resting halfway_turn))
        ≡ true)
page-tells_example =
    page-tells line settings 7 1_000 halfway_turn halfway 0 10 second_page 1 a_byte halfway_run
      second_read (omega arith) (omega arith)
