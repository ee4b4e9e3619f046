-- ===== src/Session/Decoder/Encode.antt =====
-- src/session/output.rs: UTF-8 that is written by one side and decoded by the other.
use vivado_server.Base.{
  ℕ, zero, suc, ◌+◌, ◌/◌, ◌%◌, ◌≤◌, ◌<◌, ◌≡◌, ap, ◌∙◌, Str, length, ltb, drop, if◌then◌else◌,
  length-append, drop-append, drop-length, ◌⊎◌, List, [], ◌∷◌, ◌++◌, arith,
}
use vivado_server.Session.Decoder.{Bytes, char, sequence, lossy, from_utf8_lossy, decode_reads}
use vivado_server.Session.Decoder.Lossy.{
  lossy-nil, lossy-char, all_bytes, decode_reads-from_utf8_lossy,
}

-- A byte behind the first, with the lowest six bits of a number.
abbrev low_bits : ℕ → ℕ
low_bits n = 0x80 + (n % 64)

-- The bytes of a character, as RFC 3629 lays them out.
unfoldable pub encode_char : ℕ → ℕ × Bytes
encode_char c =
    if ltb c 0x80
    then (c, [])
    else if ltb c 0x800
    then (0xc0 + c / 64, low_bits c ∷ [])
    else if ltb c 0x10000
    then (0xe0 + c / 4_096, low_bits (c / 64) ∷ low_bits c ∷ [])
    else (0xf0 + c / 262_144, low_bits (c / 4_096) ∷ low_bits (c / 64) ∷ low_bits c ∷ [])

-- A Unicode scalar value: no surrogate, and not above U+10FFFF.
abbrev pub IsScalar : ℕ → Type 0
IsScalar c = (c < 0xd800) ⊎ ((0xe000 ≤ c) × (c < 0x110000))

one_byte : (c : ℕ) (more : Bytes) → c < 0x80 → sequence c more ≡ char c 1
unfolding sequence
one_byte c more h = ground arith

two :
    (c : ℕ) (more : Bytes)
    → 0x80 ≤ c
    → c < 0x800
    → sequence (0xc0 + c / 64) (low_bits c ∷ more) ≡ char c 2
unfolding sequence
two c more h k = ground arith

three :
    (c : ℕ) (more : Bytes)
    → 0x800 ≤ c
    → c < 0x10000
    → IsScalar c
    → sequence (0xe0 + c / 4_096) (low_bits (c / 64) ∷ low_bits c ∷ more) ≡ char c 3
unfolding sequence
three c more h k s = ground arith

four :
    (c : ℕ) (more : Bytes)
    → 0x10000 ≤ c
    → c < 0x110000
    → sequence (0xf0 + c / 262_144) (low_bits (c / 4_096) ∷ low_bits (c / 64) ∷ low_bits c ∷ more)
      ≡ char c 4
unfolding sequence
four c more h k = ground arith

sequence-encode_char :
    (c : ℕ) (more : Bytes)
    → IsScalar c
    → sequence (encode_char c).0 ((encode_char c).1 ++ more)
      ≡ char c (suc (length (encode_char c).1))
unfolding encode_char
sequence-encode_char c more s =
    ground (arith, one_byte c more, two c more, three c more, four c more)

unfoldable pub encode_text : Str → Bytes
encode_text [] = []
encode_text (c ∷ text) = (encode_char c).0 ∷ ((encode_char c).1 ++ encode_text text)

abbrev pub IsText : Str → Type 0
IsText [] = Unit
IsText (c ∷ text) = IsScalar c × IsText text

drop-behind : (bytes more : Bytes) → drop (length bytes) (bytes ++ more) ≡ more
drop-behind bytes more =
    drop-append (length bytes) bytes more (omega arith) ∙ ap (λ b. b ++ more) (drop-length bytes)

lossy-encode_text :
    (f : ℕ) (text : Str)
    → IsText text
    → length (encode_text text) ≤ f
    → lossy f (encode_text text) ≡ text
unfolding encode_text
lossy-encode_text f [] s h = lossy-nil f
lossy-encode_text zero (c ∷ text) s h = absurd (omega arith)
lossy-encode_text (suc f) (c ∷ text) (s, more) h =
    let (a, rest) = encode_char c in
    lossy-char f a (rest ++ encode_text text) c (suc (length rest))
      (sequence-encode_char c (encode_text text) s)
    ∙ ap (λ b. c ∷ lossy f b) (drop-behind rest (encode_text text))
    ∙ ap (λ t. c ∷ t)
        (lossy-encode_text f text more (omega (arith, length-append rest (encode_text text))))

-- A text of Unicode scalar values that is written as UTF-8 and read in parts, wherever its bytes
-- are split, is decoded to the same text: no character of it is replaced.
pub decode_reads-encode_text :
    (text : Str) (reads : List Bytes)
    → IsText text
    → all_bytes reads ≡ encode_text text
    → decode_reads [] reads ≡ text
decode_reads-encode_text text reads s e =
    decode_reads-from_utf8_lossy [] reads
    ∙ ap from_utf8_lossy e
    ∙ unfold from_utf8_lossy in lossy-encode_text (length (encode_text text)) text s (omega arith)
