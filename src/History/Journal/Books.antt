-- ===== src/History/Journal/Books.antt =====
-- src/history.rs: a new journal, and the accounts of a journal.
use vivado_server.Base.{ℕ, ◌≡◌, true, false, List, [], ◌∷◌, ◌++◌}
use vivado_server.History.{Gap}
use vivado_server.History.Journal.Retained.{Event, Reader}
use vivado_server.History.Journal.State.{Message, Journal}
use vivado_server.History.Journal.{event_bytes}
use vivado_server.History.Journal.Accounts.{Accounts, Told}

-- A journal that `initialize` makes in an empty directory, before the event of the start.
unfoldable pub new_journal : ℕ → ℕ → Journal
new_journal instance_id now = record {
  instance_id = instance_id;
  producer = 0;
  queue = [];
  queued_bytes = 0;
  pending = [];
  reader = record {
    next_cursor = 0;
    earliest_cursor = 0;
    is_partial = false;
    gaps = [];
    session_windows = [];
    open_sessions = [];
    open_workflows = [];
    events = [];
    bytes = 0;
  };
  tails = [];
  physical = 0;
  healthy = true;
  stopped = false;
  finished = false;
  last_prune = now;
  now = now;
}

unfoldable pub queued : List Message → List Event
queued [] = []
queued (message ∷ queue) = message.events ++ queued queue

module _ (encoded : Event → ℕ) where
  abbrev pub Sized : List Message → Type 0
  Sized [] = Unit {0}
  Sized (message ∷ queue) = (message.bytes ≡ event_bytes encoded message.events) × Sized queue

  -- The accounts of a journal, of which `events` have left the queue and not reached the reader, and
  -- what else holds of the reader.
  pub record Books (T : Type 0) (events : List Event) (queue : List Message)
      (queued_bytes producer : ℕ) (pending : List Gap) (reader : Reader) : Type 0 where
    pub accounts : Accounts (events ++ queued queue) producer pending reader
    pub told : T
    pub counted : queued_bytes ≡ event_bytes encoded (queued queue)
    pub sized : Sized queue

  abbrev pub Sheet : Type 0 → List Event → Reader → Journal → Type 0
  Sheet T events reader j = Books T events j.queue j.queued_bytes j.producer j.pending reader

  abbrev pub Halfway : List Event → Journal → Type 0
  Halfway events j = Sheet (Told j.reader) events j.reader j

  abbrev pub IsJournal : Journal → Type 0
  IsJournal j = Halfway [] j
