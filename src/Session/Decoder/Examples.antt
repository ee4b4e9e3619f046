-- ===== src/Session/Decoder/Examples.antt =====
-- src/session/output.rs: the bytes of two characters, split inside the first and the second.
use vivado_server.Base.{◌≡◌, refl, Str, inl, List, [], ◌∷◌, arith}
use vivado_server.Session.Decoder.{Bytes, sequence, push_bytes, decode_reads, from_utf8_lossy}
use vivado_server.Session.Decoder.Lossy.{all_bytes, decode_reads-from_utf8_lossy}
use vivado_server.Session.Decoder.Encode.{encode_char, encode_text, decode_reads-encode_text}

-- U+5B8C U+6210
abbrev wancheng : Str
wancheng = 0x5b8c ∷ 0x6210 ∷ []

abbrev reads : List Bytes
reads = (0xe5 ∷ 0xae ∷ []) ∷ (0x8c ∷ 0xe6 ∷ []) ∷ (0x88 ∷ 0x90 ∷ []) ∷ []

first_read : push_bytes [] (0xe5 ∷ 0xae ∷ []) ≡ ([], 0xe5 ∷ 0xae ∷ [])
unfolding push_bytes sequence
first_read = refl

-- A byte that no character begins with, and the beginning of a character.
bad_read : push_bytes [] (0x61 ∷ 0xff ∷ 0x62 ∷ 0xf0 ∷ []) ≡ (0x61 ∷ 0xfffd ∷ 0x62 ∷ [], 0xf0 ∷ [])
unfolding push_bytes sequence
bad_read = refl

decode_reads-from_utf8_lossy_example : decode_reads [] reads ≡ from_utf8_lossy (all_bytes reads)
decode_reads-from_utf8_lossy_example = decode_reads-from_utf8_lossy [] reads

decode_reads-encode_text_example : decode_reads [] reads ≡ wancheng
unfolding encode_text encode_char
decode_reads-encode_text_example =
    decode_reads-encode_text wancheng reads (inl (omega arith), (inl (omega arith), tt)) refl
