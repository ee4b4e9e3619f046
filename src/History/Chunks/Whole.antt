-- ===== src/History/Chunks/Whole.antt =====
-- src/history.rs: the events of a text, put together again.
use vivado_server.Base.{
  ℕ, zero, suc, ◌+◌, ◌-◌, ◌≤◌, ◌<◌, ◌≡◌, refl, sym, ap, ◌∙◌, Str, len, len_utf8, len-append, ◌==◌,
  length, length-append, Bool, Bool-cases, true, false, Option, none, some, ◌⊎◌, inl, inr, List, [],
  ◌∷◌, ◌++◌, arith,
}
use vivado_server.History.{smaller}
use vivado_server.Session.Output.{is_char_boundary, slice_from}
use vivado_server.Session.Output.Tail.{is_char_boundary-zero, len_utf8_bounds, slice_from_lem}
use vivado_server.History.Chunks.{
  TextEvent, text_chunk, floor_boundary, slice_to, chunk_length, chunk_loop, given_offset,
  text_events,
}

floor_boundary_lem :
    (n : ℕ) (s : Str) → (is_char_boundary (floor_boundary n s) s ≡ true) × (floor_boundary n s ≤ n)
unfolding floor_boundary
floor_boundary_lem zero s = (is_char_boundary-zero s, omega arith)
floor_boundary_lem (suc n) s = elim (Bool-cases (is_char_boundary (suc n) s)) [
  | inl here ↦ rw here (here, omega arith)
  | inr off ↦ let (at, low) = floor_boundary_lem n s in rw off (at, omega (arith, low))
]

-- No later boundary is passed over.
floor_boundary-last :
    (n k : ℕ) (s : Str) → k ≤ n → is_char_boundary k s ≡ true → k ≤ floor_boundary n s
unfolding floor_boundary
floor_boundary-last zero k s l h = l
floor_boundary-last (suc n) k s l h = elim (Bool-cases (is_char_boundary (suc n) s)) [
  | inl here ↦ rw here l
  | inr off ↦ elim (Bool-cases (k == suc n)) [
    | inl same ↦ let e : k ≡ suc n = ground (arith, same) in absurd (ground (arith, off, rw e at h))
    | inr below ↦ rw off (floor_boundary-last n k s (ground (arith, l, below)) h)
  ]
]

slice_to-slice_from : (n : ℕ) (s : Str) → slice_to n s ++ slice_from n s ≡ s
unfolding slice_to slice_from
slice_to-slice_from n [] = refl
slice_to-slice_from n (c ∷ s) = elim (Bool-cases (n == 0)) [
  | inl start ↦ rw start refl
  | inr later ↦ rw later (ap (λ r. c ∷ r) (slice_to-slice_from (n - len_utf8 c) s))
]

first_boundary : (c : ℕ) (s : Str) → is_char_boundary (len_utf8 c) (c ∷ s) ≡ true
unfolding is_char_boundary
first_boundary c s =
    let e : len_utf8 c - len_utf8 c ≡ 0 = omega arith in
    rw e (ground (arith, len_utf8_bounds c, is_char_boundary-zero s))

-- A chunk has at least a character, and at most 4096 bytes, and ends between two characters.
chunk_length-bounds :
    (c : ℕ) (s : Str)
    → let n = chunk_length (c ∷ s) in
      (1 ≤ n) × (n ≤ text_chunk) × (n ≤ len (c ∷ s)) × (is_char_boundary n (c ∷ s) ≡ true)
unfolding chunk_length
chunk_length-bounds c s =
    let most = smaller (len (c ∷ s)) text_chunk in
    let bounds = len_utf8_bounds c in
    let fits : len_utf8 c ≤ most = ground (arith, bounds) in
    let first = floor_boundary-last most (len_utf8 c) (c ∷ s) fits (first_boundary c s) in
    let (at, low) = floor_boundary_lem most (c ∷ s) in
    (omega (arith, first, bounds), ground (arith, low), ground (arith, low), at)

slice_to-len : (n : ℕ) (s : Str) → is_char_boundary n s ≡ true → len (slice_to n s) ≡ n
slice_to-len n s h =
    let (front, size, whole) = slice_from_lem n s h in
    let a = ap len whole ∙ len-append front (slice_from n s) in
    let b = ap len (sym (slice_to-slice_from n s)) ∙ len-append (slice_to n s) (slice_from n s) in
    omega (arith, size, a, b)

slice_from-shorter :
    (n : ℕ) (s : Str) → 1 ≤ n → is_char_boundary n s ≡ true → length (slice_from n s) < length s
slice_from-shorter n s l h =
    let (front, size, whole) = slice_from_lem n s h in
    let a = ap length whole ∙ length-append front (slice_from n s) in
    let some_front : 1 ≤ length front = has front size in omega (arith, a, some_front)
  where
    has : (front : Str) → len front ≡ n → 1 ≤ length front
    has [] e = absurd (omega (arith, l, e))
    has (c ∷ front) e = omega arith

-- The text of the events, put together.
unfoldable pub joined : List TextEvent → Str
joined [] = []
joined (e ∷ es) = e.text ++ joined es

-- An event says where its text starts. It may say nothing of the start only if it has no text.
abbrev pub StartsAt : ℕ → TextEvent → Type 0
StartsAt offset e =
    (e.byte_offset ≡ some offset) ⊎ ((e.byte_offset ≡ none) × (e.text ≡ []) × (offset ≡ 0))

-- The events follow one another from the offset, each as long as it says, and within the limit.
abbrev pub Contiguous : ℕ → List TextEvent → Type 0
Contiguous offset [] = Unit {0}
Contiguous offset (e ∷ es) =
    StartsAt offset e
    × (e.byte_length ≡ len e.text)
    × (e.byte_length ≤ text_chunk)
    × Contiguous (offset + e.byte_length) es

chunk_loop-whole :
    (fuel : ℕ) (event : Str) (total : ℕ) (is_first : Bool) (offset : ℕ) (s : Str)
    → length s ≤ fuel
    → let es = chunk_loop fuel event total is_first offset s in
      (joined es ≡ s) × Contiguous offset es
unfolding chunk_loop joined
chunk_loop-whole zero event total is_first offset [] l = (refl, tt)
chunk_loop-whole zero event total is_first offset (c ∷ s) l = absurd (omega (arith, l))
chunk_loop-whole (suc fuel) event total is_first offset [] l = (refl, tt)
chunk_loop-whole (suc fuel) event total is_first offset (c ∷ s) l =
    let n = chunk_length (c ∷ s) in
    let (some_text, short, within, at) = chunk_length-bounds c s in
    let shorter = slice_from-shorter n (c ∷ s) some_text at in
    let (whole, rest) =
      chunk_loop-whole fuel event total false (offset + n) (slice_from n (c ∷ s))
        (omega (arith, l, shorter)) in
    (
      ap (λ r. slice_to n (c ∷ s) ++ r) whole ∙ slice_to-slice_from n (c ∷ s),
      (inl refl, sym (slice_to-len n (c ∷ s) at), short, rest),
    )

-- The loop comes to an end with the whole text: however long a text is, its events together have
-- exactly this text; they follow one another from the given offset (from 0 where none is given),
-- each says where it starts, is as long as it says and has at most 4096 bytes; and there is at
-- least one. Only the event of an empty text has no offset, where none is given.
pub text_events-whole :
    (event : Str) (given : Option ℕ) (text : Str)
    → let es = text_events event given text in
      (joined es ≡ text) × Contiguous (given_offset given) es × (1 ≤ length es)
unfolding text_events joined chunk_loop given_offset
text_events-whole event none [] =
    (refl, (inr (refl, refl, refl), refl, omega arith, tt), omega arith)
text_events-whole event (some offset) [] = (refl, (inl refl, refl, omega arith, tt), omega arith)
text_events-whole event given (c ∷ s) =
    let (whole, rest) =
      chunk_loop-whole (length (c ∷ s)) event (len (c ∷ s)) true (given_offset given) (c ∷ s)
        (omega arith) in
    (whole, rest, omega arith)
