-- ===== src/Session/Decoder/Lossy.antt =====
-- src/session/output.rs: the decoding of a whole text at once, against that of its parts.
use mathlib.Core.List.{append_assoc, append-nil}
use vivado_server.Base.{
  ℕ, zero, suc, ◌+◌, ◌≤◌, ◌≡◌, refl, sym, ap, ◌∙◌, Str, length, length-append, drop, inl, inr, List,
  [], ◌∷◌, ◌++◌, arith,
}
use vivado_server.Session.Decoder.{
  Bytes, char, invalid, unfinished, replacement, sequence, push_bytes, lossy, from_utf8_lossy,
  finish_decoding, decode_reads,
}
use vivado_server.Session.Decoder.Units.{char-length, invalid-length, sequence_cases}
use vivado_server.Session.Decoder.Stream.{
  decode, decode-nil, put_text, decode-char, decode-invalid, decode-unfinished, decode-enough,
  decode-append, length-drop, drop_shorter,
}
use vivado_server.Session.Decoder.Reads.{push_loop-decode}

-- What becomes of the bytes that are pending at the end.
ending : Bytes → Str
ending [] = []
ending (a ∷ rest) = replacement ∷ []

ended : Str × Bytes → Str
unfolding ending
ended (text, left) = text ++ ending left

pub lossy-nil : (f : ℕ) → lossy f [] ≡ []
unfolding lossy
lossy-nil zero = refl
lossy-nil (suc f) = refl

module _ (f a : ℕ) (rest : Bytes) where
  pub lossy-char :
      (c n : ℕ)
      → sequence a rest ≡ char c n
      → lossy (suc f) (a ∷ rest) ≡ c ∷ lossy f (drop n (a ∷ rest))
  unfolding lossy
  lossy-char c n e = rw (lossy, e) refl

  lossy-invalid :
      (n : ℕ)
      → sequence a rest ≡ invalid n
      → lossy (suc f) (a ∷ rest) ≡ replacement ∷ lossy f (drop n (a ∷ rest))
  unfolding lossy
  lossy-invalid n e = rw (lossy, e) refl

  lossy-unfinished : sequence a rest ≡ unfinished → lossy (suc f) (a ∷ rest) ≡ replacement ∷ []
  unfolding lossy
  lossy-unfinished e = rw (lossy, e) refl

lossy-decode : (f : ℕ) (bytes : Bytes) → length bytes ≤ f → lossy f bytes ≡ ended (decode f bytes)
unfolding ended
lossy-decode zero [] h = lossy-nil zero ∙ ap ended (sym (decode-nil zero))
lossy-decode (suc f) [] h = lossy-nil (suc f) ∙ ap ended (sym (decode-nil (suc f)))
lossy-decode zero (a ∷ rest) h = absurd (omega arith)
lossy-decode (suc f) (a ∷ rest) h = elim (sequence_cases (sequence a rest)) [
  | inl (c, n, e) ↦
      let (least, most) = char-length a rest c n e in
      lossy-char f a rest c n e
      ∙ ap (λ t. c ∷ t)
          (lossy-decode f (drop n (a ∷ rest)) (drop_shorter n f (a ∷ rest) least most h))
      ∙ ap ended (sym (decode-char f a rest c n e))
  | inr (inl (n, e)) ↦
      let (least, most) = invalid-length a rest n e in
      lossy-invalid f a rest n e
      ∙ ap (λ t. replacement ∷ t)
          (lossy-decode f (drop n (a ∷ rest)) (drop_shorter n f (a ∷ rest) least most h))
      ∙ ap ended (sym (decode-invalid f a rest n e))
  | inr (inr e) ↦ lossy-unfinished f a rest e ∙ ap ended (sym (decode-unfinished f a rest e))
]

left-length : (f : ℕ) (bytes : Bytes) → length (decode f bytes).1 ≤ length bytes
left-length zero bytes = unfold decode in omega arith
left-length (suc f) [] = rw (decode-nil (suc f)) (omega arith)
left-length (suc f) (a ∷ rest) = elim (sequence_cases (sequence a rest)) [
  | inl (c, n, e) ↦
      let (least, most) = char-length a rest c n e in
      let less = length-drop n (a ∷ rest) most in
      let ih = left-length f (drop n (a ∷ rest)) in rw (decode-char f a rest c n e) (omega arith)
  | inr (inl (n, e)) ↦
      let (least, most) = invalid-length a rest n e in
      let less = length-drop n (a ∷ rest) most in
      let ih = left-length f (drop n (a ∷ rest)) in rw (decode-invalid f a rest n e) (omega arith)
  | inr (inr e) ↦ rw (decode-unfinished f a rest e) (omega arith)
]

from_utf8_lossy-ended :
    (f : ℕ) (bytes : Bytes) → length bytes ≤ f → from_utf8_lossy bytes ≡ ended (decode f bytes)
unfolding from_utf8_lossy
from_utf8_lossy-ended f bytes h =
    lossy-decode (length bytes) bytes (omega arith)
    ∙ ap ended (decode-enough (length bytes) f bytes (omega arith) h)

ended-put_text : (text : Str) (d : Str × Bytes) → ended (put_text text d) ≡ text ++ ended d
unfolding ended
ended-put_text text (more, left) = append_assoc text more (ending left)

-- A text that is decoded in two parts.
from_utf8_lossy-append :
    (f : ℕ) (bytes more : Bytes)
    → length bytes ≤ f
    → from_utf8_lossy (bytes ++ more)
      ≡ (decode f bytes).0 ++ from_utf8_lossy ((decode f bytes).1 ++ more)
from_utf8_lossy-append f bytes more h =
    from_utf8_lossy-ended g (bytes ++ more) (omega arith)
    ∙ ap ended (decode-append g g bytes more (omega arith) (omega arith))
    ∙ ended-put_text (decode g bytes).0 (decode g ((decode g bytes).1 ++ more))
    ∙ ap (λ t. (decode g bytes).0 ++ t)
        (sym (from_utf8_lossy-ended g ((decode g bytes).1 ++ more) room))
    ∙ ap (λ d. d.0 ++ from_utf8_lossy (d.1 ++ more)) (decode-enough g f bytes short h)
  where
    g : ℕ
    g = length (bytes ++ more)

    short : length bytes ≤ g
    short = omega (arith, length-append bytes more)

    room : length ((decode g bytes).1 ++ more) ≤ g
    room = omega (
      arith,
      left-length g bytes,
      length-append (decode g bytes).1 more,
      length-append bytes more,
    )

abbrev pub all_bytes : List Bytes → Bytes
all_bytes [] = []
all_bytes (bytes ∷ rest) = bytes ++ all_bytes rest

push_bytes-decode :
    (pending bytes : Bytes)
    → push_bytes pending bytes ≡ decode (length (pending ++ bytes)) (pending ++ bytes)
unfolding push_bytes
push_bytes-decode pending bytes =
    push_loop-decode (length (pending ++ bytes) + 1) (length (pending ++ bytes)) (pending ++ bytes)
      [] (omega arith) (omega arith)

-- However the bytes of a terminal are split into reads, the decoder gives, read by read and with
-- its end, the text that `String::from_utf8_lossy` gives for all the bytes at once, those that
-- were pending first.
pub decode_reads-from_utf8_lossy :
    (pending : Bytes) (reads : List Bytes)
    → decode_reads pending reads ≡ from_utf8_lossy (pending ++ all_bytes reads)
unfolding decode_reads finish_decoding
decode_reads-from_utf8_lossy pending [] = ap from_utf8_lossy (sym (append-nil pending))
decode_reads-from_utf8_lossy pending (bytes ∷ rest) =
    let joined = pending ++ bytes in
    ap (λ d. d.0 ++ decode_reads d.1 rest) (push_bytes-decode pending bytes)
    ∙ ap (λ t. (decode (length joined) joined).0 ++ t)
        (decode_reads-from_utf8_lossy (decode (length joined) joined).1 rest)
    ∙ sym (from_utf8_lossy-append (length joined) joined (all_bytes rest) (omega arith))
    ∙ ap from_utf8_lossy (append_assoc pending bytes (all_bytes rest))
