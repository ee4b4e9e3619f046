-- ===== src/Session/Output.antt =====
-- src/session/output.rs: the bounded buffer of the terminal's output. The clock is an argument;
-- a text is its list of characters, and byte positions count UTF-8 bytes.
pub mod Tail
pub mod Bounds
pub mod Holds
pub mod Log
mod Examples
use vivado_server.Base.{
  ℕ, zero, suc, ◌+◌, ◌-◌, Str, len, len_utf8, ltb, leb, ◌==◌, if◌then◌else◌, add_word, length,
  filter, Bool, true, false, ◌||◌, Option, none, some, List, [], ◌∷◌, ◌++◌,
}
use vivado_server.Session.Model.{SessionStatus, OutputChunk, OutputResponse}

pub record OutputBuffer : Type 0 where
  pub chunks : List OutputChunk
  pub bytes : ℕ
  pub max_bytes : ℕ
  pub next_seq : ℕ
  pub truncated_seq : Option ℕ

unfoldable pub new : ℕ → OutputBuffer
new max_bytes = record {
  chunks = [];
  bytes = 0;
  max_bytes = max_bytes;
  next_seq = 0;
  truncated_seq = none;
}

-- `str::is_char_boundary`
unfoldable pub is_char_boundary : ℕ → Str → Bool
is_char_boundary i [] = i == 0
is_char_boundary i (c ∷ s) =
    if i == 0
    then true
    else if ltb i (len_utf8 c)
    then false
    else is_char_boundary (i - len_utf8 c) s

-- `while !text.is_char_boundary(start) { start += 1; }`
pub next_boundary : ℕ → ℕ → Str → ℕ
next_boundary zero start text = start
next_boundary (suc fuel) start text =
    let later = next_boundary fuel (start + 1) text in
    if is_char_boundary start text then start else later

-- `text[start..]`, where `start` is a boundary; the source panics elsewhere.
unfoldable pub slice_from : ℕ → Str → Str
slice_from start [] = []
slice_from start (c ∷ s) = if start == 0 then c ∷ s else slice_from (start - len_utf8 c) s

-- Where the kept part of a text of more than `max_bytes` bytes begins.
pub tail_start : ℕ → Str → ℕ
unfolding next_boundary is_char_boundary
tail_start max_bytes text = next_boundary (len text + 1) (len text - max_bytes) text

pub retain_tail : ℕ → Str → Str
unfolding tail_start slice_from
retain_tail max_bytes text =
    if ltb max_bytes (len text) then slice_from (tail_start max_bytes text) text else text

pub record Retained : Type 0 where
  pub chunks : List OutputChunk
  pub bytes : ℕ
  pub evicted : ℕ

abbrev pub max_chunks : ℕ
max_chunks = 4096

-- The loop that drops chunks from the front.
pub evict : ℕ → ℕ → ℕ → List OutputChunk → Retained
evict max_bytes bytes evicted [] =
    if ltb max_bytes bytes
    then record { chunks = []; bytes = 0; evicted = evicted }
    else record { chunks = []; bytes = bytes; evicted = evicted }
evict max_bytes bytes evicted (front ∷ rest) =
    if ltb max_bytes bytes || ltb max_chunks (length (front ∷ rest))
    then evict max_bytes (bytes - len front.text) (evicted + 1) rest
    else record { chunks = front ∷ rest; bytes = bytes; evicted = evicted }

-- The new buffer; the chunk's number, the bytes held and the number of chunks lost.
unfoldable pub push : OutputBuffer → Str → ℕ → OutputBuffer × ℕ × ℕ × ℕ
unfolding retain_tail evict
push b text now =
    let truncated = ltb b.max_bytes (len text) in
    let kept = retain_tail b.max_bytes text in
    let chunk : OutputChunk = record { seq = b.next_seq; timestamp = now; text = kept } in
    let r =
      evict b.max_bytes (add_word b.bytes (len kept)) (if truncated then 1 else 0)
        (b.chunks ++ (chunk ∷ [])) in
    (
      record {
        chunks = r.chunks;
        bytes = r.bytes;
        max_bytes = b.max_bytes;
        next_seq = add_word b.next_seq 1;
        truncated_seq = if truncated then some b.next_seq else b.truncated_seq;
      },
      b.next_seq,
      r.bytes,
      r.evicted,
    )

-- A run of pushes.
unfoldable pub feed : OutputBuffer → List (Str × ℕ) → OutputBuffer
feed b [] = b
feed b ((text, now) ∷ rest) = feed (push b text now).0 rest

pub first_seq : List OutputChunk → ℕ → ℕ
first_seq [] next = next
first_seq (front ∷ rest) next = front.seq

abbrev pub at_or_before : ℕ → Option ℕ → Bool
at_or_before cursor none = false
at_or_before cursor (some truncated) = leb cursor truncated

unfoldable pub since : OutputBuffer → ℕ → SessionStatus → OutputResponse
unfolding first_seq
since b cursor status = record {
  cursor = b.next_seq;
  chunks = filter (λ c. leb cursor c.seq) b.chunks;
  status = status;
  overrun = ltb cursor (first_seq b.chunks b.next_seq) || at_or_before cursor b.truncated_seq;
  output_truncated = false;
}
