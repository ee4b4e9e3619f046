-- ===== src/History/Chunks.antt =====
-- src/history.rs: `text_events`, which cuts the output of a session and what is written to it into
-- events. A text is its list of characters, and byte positions count UTF-8 bytes.
pub mod Whole
mod Examples
use vivado_server.Base.{
  ℕ, zero, suc, ◌+◌, ◌-◌, Str, codes, ◌=s=◌, len, len_utf8, leb, ◌==◌, if◌then◌else◌, length, Bool,
  true, false, ◌&&◌, not, Option, none, some, List, [], ◌∷◌,
}
use vivado_server.History.{smaller}
use vivado_server.Session.Output.{is_char_boundary, slice_from}

abbrev pub text_chunk : ℕ
text_chunk = 4_096

-- An event, with the fields of its data that are set here.
pub record TextEvent : Type 0 where
  pub event : Str
  pub text : Str
  pub byte_offset : Option ℕ
  pub byte_length : ℕ
  pub total_bytes : Option ℕ

-- `while !remaining.is_char_boundary(n) { n -= 1; }`
unfoldable pub floor_boundary : ℕ → Str → ℕ
floor_boundary zero remaining = zero
floor_boundary (suc n) remaining =
    let earlier = floor_boundary n remaining in
    if is_char_boundary (suc n) remaining then suc n else earlier

-- `remaining[..n]`, where `n` is a boundary; the source panics elsewhere.
unfoldable pub slice_to : ℕ → Str → Str
slice_to n [] = []
slice_to n (c ∷ s) = if n == 0 then [] else c ∷ slice_to (n - len_utf8 c) s

-- The first chunk keeps the name of an intent.
unfoldable pub chunk_event : Str → Bool → Str
chunk_event event is_first =
    if event =s= codes "session.stdin_intent" && not is_first
    then codes "session.stdin_chunk"
    else event

unfoldable pub chunk_length : Str → ℕ
unfolding floor_boundary
chunk_length remaining = floor_boundary (smaller (len remaining) text_chunk) remaining

-- The loop runs on fuel.
unfoldable pub chunk_loop : ℕ → Str → ℕ → Bool → ℕ → Str → List TextEvent
unfolding chunk_length slice_to chunk_event
chunk_loop zero event total is_first offset remaining = []
chunk_loop (suc fuel) event total is_first offset [] = []
chunk_loop (suc fuel) event total is_first offset (c ∷ s) =
    let n = chunk_length (c ∷ s) in
    record {
      event = chunk_event event is_first;
      text = slice_to n (c ∷ s);
      byte_offset = some offset;
      byte_length = n;
      total_bytes = some total;
    }
    ∷ chunk_loop fuel event total false (offset + n) (slice_from n (c ∷ s))

-- The offset that the given data has, if it has one.
unfoldable pub given_offset : Option ℕ → ℕ
given_offset none = 0
given_offset (some offset) = offset

-- The event of an empty text leaves the offset of the given data as it is.
unfoldable pub text_events : Str → Option ℕ → Str → List TextEvent
unfolding chunk_loop given_offset
text_events event given [] =
    record { event = event; text = []; byte_offset = given; byte_length = 0; total_bytes = none }
    ∷ []
text_events event given (c ∷ s) =
    chunk_loop (length (c ∷ s)) event (len (c ∷ s)) true (given_offset given) (c ∷ s)
