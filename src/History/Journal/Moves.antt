-- ===== src/History/Journal/Moves.antt =====
-- src/history.rs: the steps of the producers, the writer and the clock. A turn of the writer is a
-- sequence of steps, one for each section under the locks of the reader and of the pending gaps, so
-- that producers enqueue and pages are read in between.
use vivado_server.Base.{
  ℕ, ◌+◌, ◌-◌, ◌≡◌, ◌⊎◌, codes, ◌=s=◌, ltb, ◌==◌, length, any, if◌then◌else◌, Bool, true, false,
  ◌||◌, not, none, some, List, [], ◌∷◌, ◌++◌,
}
use vivado_server.Base.Maps.{insert}
use vivado_server.History.{Gap}
use vivado_server.History.Journal.Retained.{
  Event, Settings, Item, event_limit, store_event, tail_of, trim_item, move_pending,
}
use vivado_server.History.Journal.State.{
  Disk, Message, Journal, settle_pending, note_failure, pass_gaps, recover,
}
use vivado_server.History.Journal.{event_bytes, enqueue, prune_journal, finish_append, prune_due}

-- What the writer is about to do. Of a batch, `left` has not reached the reader.
pub data Turn : Type 0 where
  resting : Turn
  gathering : (batch : List Event) → Turn
  writing : (batch : List Event) → Turn
  storing : (batch left : List Event) → Turn
  tracking : (batch : List Event) (e : Event) (left : List Event) → Turn
  trimming : (batch left : List Event) (id bytes : ℕ) (items : List Item) → Turn
  joining : (batch : List Event) (gaps : List Gap) → Turn
  pruning : (batch : List Event) → Turn
  finishing : (batch : List Event) → Turn
  answering : (batch left : List Event) (done : Bool) → Turn
  noting : (batch left : List Event) (done : Bool) → Turn
  recovering : (changed : Bool) → Turn
  aging : Turn

-- The events that the writer has taken and that have not reached the reader.
unfoldable pub unread : Turn → List Event
unread resting = []
unread (gathering batch) = batch
unread (writing batch) = batch
unread (storing batch left) = left
unread (tracking batch e left) = left
unread (trimming batch left id bytes items) = left
unread (joining batch gaps) = []
unread (pruning batch) = []
unread (finishing batch) = []
unread (answering batch left done) = left
unread (noting batch left done) = left
unread (recovering changed) = []
unread aging = []

-- The pending gaps that the writer has taken and that have not reached the reader.
unfoldable pub carried : Turn → List Gap
carried resting = []
carried (gathering batch) = []
carried (writing batch) = []
carried (storing batch left) = []
carried (tracking batch e left) = []
carried (trimming batch left id bytes items) = []
carried (joining batch gaps) = gaps
carried (pruning batch) = []
carried (finishing batch) = []
carried (answering batch left done) = []
carried (noting batch left done) = []
carried (recovering changed) = []
carried aging = []

-- Between two turns
unfoldable pub is_resting : Turn → Bool
is_resting resting = true
is_resting (gathering batch) = false
is_resting (writing batch) = false
is_resting (storing batch left) = false
is_resting (tracking batch e left) = false
is_resting (trimming batch left id bytes items) = false
is_resting (joining batch gaps) = false
is_resting (pruning batch) = false
is_resting (finishing batch) = false
is_resting (answering batch left done) = false
is_resting (noting batch left done) = false
is_resting (recovering changed) = false
is_resting aging = false

-- `track_tail`, up to its loop
unfoldable pub track_turn : Settings → List Event → List Event → Event → Journal → Turn
track_turn settings batch left e j =
    if e.event =s= codes "session.output"
    then elim e.session_id [
      | none ↦ storing batch left
      | some id ↦
          if ltb e.byte_offset settings.session_head_bytes
          then storing batch left
          else trimming batch left id ((tail_of id j.tails).bytes + e.byte_length) (
              (tail_of id j.tails).items
              ++ (record { seq = e.seq; offset = e.byte_offset; len = e.byte_length } ∷ []))
    ]
    else storing batch left

-- An idle writer goes on with whether the state of the reader has changed.
unfoldable pub pass_turn : Journal → Turn
pass_turn j = recovering (
    ltb 0 (length j.pending)
    || not (j.reader.next_cursor == (pass_gaps (settle_pending j)).reader.next_cursor))

module _ (encoded : Event → ℕ) (settings : Settings) where
  abbrev pub too_large : List Event → Bool
  too_large batch = any (λ e. ltb event_limit (encoded e)) batch

  -- Producers, the clock and the shutdown take their steps at any time. The writer runs until it has
  -- finished: when it finds at a time-out that the service has stopped, or when the last producer is
  -- gone and the queue is empty.
  pub data Move : Turn → Journal → Turn → Journal → Type 0 where
    enqueues :
        (t : Turn) (j : Journal) (events : List Event) → Move t j t (enqueue encoded events j).1
    stops : (t : Turn) (j : Journal) → Move t j t (record j { stopped = true })
    ticks : (t : Turn) (j : Journal) (elapsed : ℕ) → Move t j t (record j { now = j.now + elapsed })
    closes : (j : Journal) → j.queue ≡ [] → Move resting j resting (record j { finished = true })
    takes :
        (j : Journal) (m : Message) (queue : List Message)
        → j.finished ≡ false
        → j.queue ≡ m ∷ queue
        → Move resting j
            (gathering m.events)
            (record j { queue = queue; queued_bytes = j.queued_bytes - m.bytes })
    gathers :
        (j : Journal) (batch : List Event) (m : Message) (queue : List Message)
        → ltb (length batch) 256 ≡ true
        → j.queue ≡ m ∷ queue
        → Move
            (gathering batch)
            j
            (gathering (batch ++ m.events))
            (record j { queue = queue; queued_bytes = j.queued_bytes - m.bytes })
    writes :
        (j : Journal) (batch : List Event)
        → (ltb (length batch) 256 ≡ false) ⊎ (j.queue ≡ [])
        → Move (gathering batch) j (writing batch) j
    rejects :
        (j : Journal) (batch : List Event)
        → too_large batch ≡ true
        → Move (writing batch) j (answering batch batch false) j
    fails :
        (j : Journal) (batch : List Event) (rolled_back : Bool)
        → too_large batch ≡ false
        → Move
            (writing batch)
            j
            (answering batch batch false)
            (if rolled_back then j else record j { stopped = true })
    records :
        (j : Journal) (batch : List Event)
        → too_large batch ≡ false
        → Move
            (writing batch)
            j
            (storing batch batch)
            (record j { physical = j.physical + event_bytes encoded batch })
    stores :
        (j : Journal) (batch : List Event) (e : Event) (left : List Event)
        → Move
            (storing batch (e ∷ left))
            j
            (tracking batch e left)
            (record j { reader = store_event (encoded e) e j.reader })
    tracks :
        (j : Journal) (batch : List Event) (e : Event) (left : List Event)
        → Move (tracking batch e left) j (track_turn settings batch left e j) j
    trims :
        (j : Journal) (batch left : List Event) (id bytes : ℕ) (item : Item) (items : List Item)
        → ltb settings.session_tail_bytes bytes ≡ true
        → Move
            (trimming batch left id bytes (item ∷ items))
            j
            (trimming batch left id (bytes - item.len) items)
            (record j { reader = trim_item id item items j.reader })
    trimmed :
        (j : Journal) (batch left : List Event) (id bytes : ℕ) (items : List Item)
        → (ltb settings.session_tail_bytes bytes ≡ false) ⊎ (items ≡ [])
        → Move
            (trimming batch left id bytes items)
            j
            (storing batch left)
            (record j { tails = insert id (record { bytes = bytes; items = items }) j.tails })
    detaches :
        (j : Journal) (batch : List Event)
        → Move (storing batch []) j (joining batch j.pending) (record j { pending = [] })
    joins :
        (j : Journal) (batch : List Event) (gaps : List Gap)
        → Move
            (joining batch gaps)
            j
            (pruning batch)
            (record j { reader = move_pending gaps j.reader })
    prunes :
        (j : Journal) (batch : List Event)
        → Move (pruning batch) j (finishing batch) (prune_journal encoded settings j)
    finishes :
        (j : Journal) (batch : List Event) (disk : Disk)
        → Move
            (finishing batch)
            j
            (answering batch [] (finish_append encoded settings disk j).0)
            (finish_append encoded settings disk j).1
    answers :
        (j : Journal) (batch left : List Event) (done : Bool)
        → Move (answering batch left done) j (noting batch left done) (record j { healthy = done })
    notes :
        (j : Journal) (batch left : List Event) (done : Bool)
        → Move (noting batch left done) j resting (note_failure batch done j)
    passes :
        (j : Journal)
        → j.finished ≡ false
        → Move resting j (pass_turn j) (pass_gaps (settle_pending j))
    recovers :
        (j : Journal) (changed : Bool) (disk : Disk)
        → Move (recovering changed) j aging (recover disk changed j)
    ages :
        (j : Journal) (disk : Disk)
        → Move aging j resting (record (prune_due encoded settings disk j) {
          finished = (prune_due encoded settings disk j).stopped;
        })

  pub data Moves : Turn → Journal → Turn → Journal → Type 0 where
    rests : (t : Turn) (j : Journal) → Moves t j t j
    moves :
        (t t' t'' : Turn) (j j' j'' : Journal)
        → Moves t j t' j'
        → Move t' j' t'' j''
        → Moves t j t'' j''
