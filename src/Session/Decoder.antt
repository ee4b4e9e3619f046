-- ===== src/Session/Decoder.antt =====
-- src/session/output.rs: the decoder of the terminal's bytes. Bytes are numbers below 256;
-- `std::str::from_utf8` is modelled by the table of well-formed sequences that it documents.
pub mod Units
pub mod Stream
pub mod Reads
pub mod Lossy
pub mod Encode
mod Examples
use vivado_server.Base.{
  ℕ, zero, suc, ◌+◌, ◌-◌, ◌*◌, Str, leb, ltb, ◌==◌, if◌then◌else◌, length, drop, Bool, true, false,
  ◌&&◌, ◌||◌, Option, none, some, List, [], ◌∷◌, ◌++◌,
}

abbrev pub Bytes : Type 0
Bytes = List ℕ

-- U+FFFD
abbrev pub replacement : ℕ
replacement = 0xfffd

-- What stands at the front of some bytes: a character and the number of its bytes, a number of
-- bytes that no character begins with, or the beginning of a character.
pub data Sequence : Type 0 where
  char : ℕ → ℕ → Sequence
  invalid : ℕ → Sequence
  unfinished : Sequence

abbrev pub is_continuation : ℕ → Bool
is_continuation b = leb 0x80 b && leb b 0xbf

-- The second bytes that may follow a first byte of three, and one of four.
abbrev pub may_follow : ℕ → ℕ → Bool
may_follow first second =
    if first == 0xe0
    then leb 0xa0 second && leb second 0xbf
    else if first == 0xed
    then leb 0x80 second && leb second 0x9f
    else if first == 0xf0
    then leb 0x90 second && leb second 0xbf
    else if first == 0xf4
    then leb 0x80 second && leb second 0x8f
    else is_continuation second

two_bytes : ℕ → Bytes → Sequence
two_bytes a [] = unfinished
two_bytes a (b ∷ rest) =
    if is_continuation b then char ((a - 0xc0) * 64 + (b - 0x80)) 2 else invalid 1

third_byte : ℕ → ℕ → Bytes → Sequence
third_byte a b [] = unfinished
third_byte a b (c ∷ rest) =
    if is_continuation c
    then char ((a - 0xe0) * 4_096 + (b - 0x80) * 64 + (c - 0x80)) 3
    else invalid 2

three_bytes : ℕ → Bytes → Sequence
unfolding third_byte
three_bytes a [] = unfinished
three_bytes a (b ∷ rest) = if may_follow a b then third_byte a b rest else invalid 1

fourth_byte : ℕ → ℕ → ℕ → Bytes → Sequence
fourth_byte a b c [] = unfinished
fourth_byte a b c (d ∷ rest) =
    if is_continuation d
    then char ((a - 0xf0) * 262_144 + (b - 0x80) * 4_096 + (c - 0x80) * 64 + (d - 0x80)) 4
    else invalid 3

third_of_four : ℕ → ℕ → Bytes → Sequence
unfolding fourth_byte
third_of_four a b [] = unfinished
third_of_four a b (c ∷ rest) = if is_continuation c then fourth_byte a b c rest else invalid 2

four_bytes : ℕ → Bytes → Sequence
unfolding third_of_four
four_bytes a [] = unfinished
four_bytes a (b ∷ rest) = if may_follow a b then third_of_four a b rest else invalid 1

-- The sequence that a byte begins, with the bytes behind it.
unfoldable pub sequence : ℕ → Bytes → Sequence
unfolding two_bytes three_bytes four_bytes
sequence a rest =
    if ltb a 0x80
    then char a 1
    else if ltb a 0xc2
    then invalid 1
    else if ltb a 0xe0
    then two_bytes a rest
    else if ltb a 0xf0
    then three_bytes a rest
    else if ltb a 0xf5
    then four_bytes a rest
    else invalid 1

-- The well-formed text at the front, and the bytes behind it. There are fewer characters than bytes.
pub valid_prefix : ℕ → Bytes → Str × Bytes
valid_prefix zero bytes = ([], bytes)
valid_prefix (suc fuel) [] = ([], [])
valid_prefix (suc fuel) (a ∷ rest) = elim (sequence a rest) [
  | char c n ↦ let (text, left) = valid_prefix fuel (drop n (a ∷ rest)) in (c ∷ text, left)
  | invalid n ↦ ([], a ∷ rest)
  | unfinished ↦ ([], a ∷ rest)
]

-- `Utf8Error::error_len`, for the bytes behind `valid_up_to`.
pub error_len : Bytes → Option ℕ
error_len [] = none
error_len (a ∷ rest) = elim (sequence a rest) [
  | char c n ↦ none
  | invalid n ↦ some n
  | unfinished ↦ none
]

-- The loop of `push`: the text of the pending bytes, and the bytes that stay pending. Each round
-- but the last drops a byte.
pub push_loop : ℕ → Bytes → Str → Str × Bytes
unfolding valid_prefix error_len
push_loop zero pending output = (output, pending)
push_loop (suc fuel) pending output =
    let (text, left) = valid_prefix (length pending) pending in
    elim left [
      | [] ↦ (output ++ text, [])
      | a ∷ rest ↦ elim (error_len (a ∷ rest)) [
        | some n ↦ push_loop fuel (drop n (a ∷ rest)) ((output ++ text) ++ (replacement ∷ []))
        | none ↦ (output ++ text, a ∷ rest)
      ]
    ]

-- `Utf8StreamDecoder::push`: the decoder is its pending bytes.
unfoldable pub push_bytes : Bytes → Bytes → Str × Bytes
unfolding push_loop
push_bytes pending bytes = push_loop (length (pending ++ bytes) + 1) (pending ++ bytes) []

-- `String::from_utf8_lossy`: a bad sequence becomes one U+FFFD, and so does an unfinished end.
unfoldable pub lossy : ℕ → Bytes → Str
unfolding sequence
lossy zero bytes = []
lossy (suc fuel) [] = []
lossy (suc fuel) (a ∷ rest) = elim (sequence a rest) [
  | char c n ↦ c ∷ lossy fuel (drop n (a ∷ rest))
  | invalid n ↦ replacement ∷ lossy fuel (drop n (a ∷ rest))
  | unfinished ↦ replacement ∷ []
]

unfoldable pub from_utf8_lossy : Bytes → Str
unfolding lossy
from_utf8_lossy bytes = lossy (length bytes) bytes

-- `Utf8StreamDecoder::finish`
unfoldable pub finish_decoding : Bytes → Str
unfolding from_utf8_lossy
finish_decoding pending = from_utf8_lossy pending

-- The reads of a terminal, and the end of its output.
unfoldable pub decode_reads : Bytes → List Bytes → Str
unfolding push_bytes finish_decoding
decode_reads pending [] = finish_decoding pending
decode_reads pending (bytes ∷ rest) =
    let (text, left) = push_bytes pending bytes in text ++ decode_reads left rest
