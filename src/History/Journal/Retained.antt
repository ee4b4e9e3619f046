-- ===== src/History/Journal/Retained.antt =====
-- src/history.rs: what the reader retains of the journal, and how the writer limits the output
-- of a session.
use vivado_server.Base.{
  ℕ, ◌+◌, ◌-◌, ◌*◌, Str, codes, ◌=s=◌, ltb, ◌==◌, if◌then◌else◌, Bool, true, ◌||◌, Option, none,
  some, List, [], ◌∷◌, ◌++◌,
}
use vivado_server.Base.Maps.{lookup, insert, remove}
use vivado_server.History.{Gap, gap, larger}

abbrev pub event_limit : ℕ
event_limit = 32 * 1_024

abbrev pub max_events : ℕ
max_events = 100_000

-- An event, with the fields of its data that the journal reads. A UUID is a number, nil is 0.
pub record Event : Type 0 where
  pub seq : ℕ
  pub instance_id : ℕ
  pub timestamp : ℕ
  pub event : Str
  pub workflow_id : Option ℕ
  pub session_id : Option ℕ
  pub byte_offset : ℕ
  pub byte_length : ℕ

-- An entry of the map of events.
pub record Stored : Type 0 where
  pub event : Event
  pub size : ℕ

pub record Settings : Type 0 where
  pub max_bytes : ℕ
  pub retention_secs : ℕ
  pub session_head_bytes : ℕ
  pub session_tail_bytes : ℕ

-- `Reader`, with the fields of its `State`; `is_partial` is the recording state "partial".
pub record Reader : Type 0 where
  pub next_cursor : ℕ
  pub earliest_cursor : ℕ
  pub is_partial : Bool
  pub gaps : List Gap
  pub session_windows : List (ℕ × ℕ)
  pub open_sessions : List (ℕ × Event)
  pub open_workflows : List (ℕ × Event)
  pub events : List Stored
  pub bytes : ℕ

-- An item of a session's retained output: sequence number, byte offset, byte length.
pub record Item : Type 0 where
  pub seq : ℕ
  pub offset : ℕ
  pub len : ℕ

-- `TailWindow`
pub record Tail : Type 0 where
  pub bytes : ℕ
  pub items : List Item

unfoldable pub stored_bytes : List Stored → ℕ
stored_bytes [] = 0
stored_bytes (s ∷ stored) = s.size + stored_bytes stored

-- `BTreeMap::insert` and `BTreeMap::remove`, by sequence number
unfoldable pub insert_event : Stored → List Stored → List Stored
insert_event new [] = new ∷ []
insert_event new (s ∷ stored) =
    if ltb new.event.seq s.event.seq
    then new ∷ s ∷ stored
    else if new.event.seq == s.event.seq
    then new ∷ stored
    else s ∷ insert_event new stored

unfoldable pub find_event : ℕ → List Stored → Option Stored
find_event seq [] = none
find_event seq (s ∷ stored) = if s.event.seq == seq then some s else find_event seq stored

unfoldable pub remove_event : ℕ → List Stored → List Stored
remove_event seq [] = []
remove_event seq (s ∷ stored) = if s.event.seq == seq then stored else s ∷ remove_event seq stored

unfoldable pub add_session : Event → Reader → Reader
add_session e r = elim e.session_id [
  | some id ↦ record r { open_sessions = insert id e r.open_sessions }
  | none ↦ r
]

unfoldable pub drop_session : Event → Reader → Reader
drop_session e r = elim e.session_id [
  | some id ↦ record r { open_sessions = remove id r.open_sessions }
  | none ↦ r
]

unfoldable pub add_workflow : Event → Reader → Reader
add_workflow e r = elim e.workflow_id [
  | some id ↦ record r { open_workflows = insert id e r.open_workflows }
  | none ↦ r
]

unfoldable pub drop_workflow : Event → Reader → Reader
drop_workflow e r = elim e.workflow_id [
  | some id ↦ record r { open_workflows = remove id r.open_workflows }
  | none ↦ r
]

unfoldable pub apply_lifecycle : Event → Reader → Reader
unfolding add_session drop_session add_workflow drop_workflow
apply_lifecycle e r =
    if e.event =s= codes "session.started"
    then add_session e r
    else if e.event =s= codes "session.finished" || e.event =s= codes "session.interrupted"
    then drop_session e r
    else if e.event =s= codes "workflow.created"
    then add_workflow e r
    else if e.event =s= codes "workflow.completed" || e.event =s= codes "workflow.interrupted"
    then drop_workflow e r
    else r

-- What the removal of an event leaves behind, in `track_tail` and in `prune`.
unfoldable pub lose : Stored → Str → List Stored → Reader → Reader
lose s reason events r = record r {
  events = events;
  bytes = r.bytes - s.size;
  gaps = gap r.gaps s.event.seq s.event.seq reason;
  is_partial = true;
}

unfoldable pub window_start : Item → List Item → ℕ
window_start popped [] = popped.offset + popped.len
window_start popped (item ∷ items) = item.offset

-- One item leaves the tail. Its event is trimmed, unless it is gone already.
unfoldable pub trim_item : ℕ → Item → List Item → Reader → Reader
unfolding lose window_start find_event remove_event
trim_item id item items r = elim (find_event item.seq r.events) [
  | none ↦ r
  | some s ↦ record (lose s (codes "session_middle_trimmed") (remove_event item.seq r.events) r) {
    session_windows = insert id (window_start item items) r.session_windows;
  }
]

-- The loop of `track_tail`
unfoldable pub trim : ℕ → ℕ → ℕ → List Item → Reader → Reader × Tail
unfolding trim_item
trim limit id bytes [] r = (r, record { bytes = bytes; items = [] })
trim limit id bytes (item ∷ items) r =
    let rest = trim limit id (bytes - item.len) items (trim_item id item items r) in
    if ltb limit bytes then rest else (r, record { bytes = bytes; items = item ∷ items })

unfoldable pub tail_of : ℕ → List (ℕ × Tail) → Tail
tail_of id tails = elim (lookup id tails) [
  | some tail ↦ tail
  | none ↦ record { bytes = 0; items = [] }
]

unfoldable pub track_output :
    Settings → ℕ → Event → Reader × List (ℕ × Tail) → Reader × List (ℕ × Tail)
unfolding trim tail_of
track_output settings id e (r, tails) =
    let tail = tail_of id tails in
    let item : Item = record { seq = e.seq; offset = e.byte_offset; len = e.byte_length } in
    let trimmed =
      trim settings.session_tail_bytes id (tail.bytes + e.byte_length) (tail.items ++ (item ∷ []))
        r in
    (trimmed.0, insert id trimmed.1 tails)

unfoldable pub track_tail : Settings → Event → Reader × List (ℕ × Tail) → Reader × List (ℕ × Tail)
unfolding track_output
track_tail settings e kept =
    if e.event =s= codes "session.output"
    then elim e.session_id [
      | none ↦ kept
      | some id ↦
          if ltb e.byte_offset settings.session_head_bytes
          then kept
          else track_output settings id e kept
    ]
    else kept

-- One turn of the loop in `append` that records the events of a batch.
unfoldable pub store_event : ℕ → Event → Reader → Reader
unfolding apply_lifecycle insert_event
store_event size e r =
    let moved = apply_lifecycle e (record r { next_cursor = larger r.next_cursor e.seq }) in
    record moved {
      bytes = moved.bytes + size;
      events = insert_event (record { event = e; size = size }) moved.events;
    }

unfoldable pub accept : Settings → ℕ → Event → Reader × List (ℕ × Tail) → Reader × List (ℕ × Tail)
unfolding store_event track_tail
accept settings size e (r, tails) = track_tail settings e (store_event size e r, tails)

unfoldable pub move_pending : List Gap → Reader → Reader
move_pending [] r = r
move_pending (g ∷ pending) r =
    move_pending pending
      (record r { gaps = gap r.gaps (g.after_seq + 1) g.through_seq g.reason; is_partial = true })
