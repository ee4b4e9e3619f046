-- ===== src/Session/Decoder/Stream.antt =====
-- src/session/output.rs: a decoder that is given a text in parts.
use vivado_server.Base.{
  ℕ, zero, suc, ◌+◌, ◌≤◌, ◌≡◌, refl, sym, ap, ◌∙◌, Str, length, length-append, drop, drop-append,
  inl, inr, [], ◌∷◌, ◌++◌, arith,
}
use vivado_server.Session.Decoder.{Bytes, char, invalid, unfinished, replacement, sequence}
use vivado_server.Session.Decoder.Units.{
  sequence-append, char-length, invalid-length, sequence_cases,
}

-- The text of some bytes, one sequence after the other, and the unfinished sequence at the end.
unfoldable pub decode : ℕ → Bytes → Str × Bytes
decode zero bytes = ([], bytes)
decode (suc fuel) [] = ([], [])
decode (suc fuel) (a ∷ rest) = elim (sequence a rest) [
  | char c n ↦ let (text, left) = decode fuel (drop n (a ∷ rest)) in (c ∷ text, left)
  | invalid n ↦ let (text, left) = decode fuel (drop n (a ∷ rest)) in (replacement ∷ text, left)
  | unfinished ↦ ([], a ∷ rest)
]

pub decode-nil : (g : ℕ) → decode g [] ≡ ([], [])
unfolding decode
decode-nil zero = refl
decode-nil (suc g) = refl

pub length-drop :
    (n : ℕ) (bytes : Bytes) → n ≤ length bytes → length (drop n bytes) + n ≡ length bytes
length-drop zero bytes h = omega arith
length-drop (suc n) [] h = absurd (omega arith)
length-drop (suc n) (a ∷ bytes) h = omega (arith, length-drop n bytes (omega arith))

-- A dropped sequence leaves fewer bytes.
pub drop_shorter :
    (n fuel : ℕ) (bytes : Bytes)
    → 1 ≤ n
    → n ≤ length bytes
    → length bytes ≤ suc fuel
    → length (drop n bytes) ≤ fuel
drop_shorter n fuel bytes h k l = omega (arith, length-drop n bytes k)

abbrev pub put_first : ℕ → Str × Bytes → Str × Bytes
put_first c (text, left) = (c ∷ text, left)

pub decode-char :
    (f a : ℕ) (rest : Bytes) (c n : ℕ)
    → sequence a rest ≡ char c n
    → decode (suc f) (a ∷ rest) ≡ put_first c (decode f (drop n (a ∷ rest)))
unfolding decode
decode-char f a rest c n e = rw (decode, e) refl

pub decode-invalid :
    (f a : ℕ) (rest : Bytes) (n : ℕ)
    → sequence a rest ≡ invalid n
    → decode (suc f) (a ∷ rest) ≡ put_first replacement (decode f (drop n (a ∷ rest)))
unfolding decode
decode-invalid f a rest n e = rw (decode, e) refl

pub decode-unfinished :
    (f a : ℕ) (rest : Bytes)
    → sequence a rest ≡ unfinished
    → decode (suc f) (a ∷ rest) ≡ ([], a ∷ rest)
unfolding decode
decode-unfinished f a rest e = rw (decode, e) refl

-- Fuel for every byte is enough.
pub decode-enough :
    (f g : ℕ) (bytes : Bytes)
    → length bytes ≤ f
    → length bytes ≤ g
    → decode f bytes ≡ decode g bytes
unfolding decode
decode-enough zero zero [] h k = refl
decode-enough zero (suc g) [] h k = refl
decode-enough (suc f) zero [] h k = refl
decode-enough (suc f) (suc g) [] h k = refl
decode-enough zero g (a ∷ bytes) h k = absurd (omega arith)
decode-enough (suc f) zero (a ∷ bytes) h k = absurd (omega arith)
decode-enough (suc f) (suc g) (a ∷ rest) h k = elim (sequence_cases (sequence a rest)) [
  | inl (c, n, e) ↦
      let (least, most) = char-length a rest c n e in
      decode-char f a rest c n e
      ∙ ap (put_first c) (
          decode-enough f g (drop n (a ∷ rest)) (drop_shorter n f (a ∷ rest) least most h)
            (drop_shorter n g (a ∷ rest) least most k))
      ∙ sym (decode-char g a rest c n e)
  | inr (inl (n, e)) ↦
      let (least, most) = invalid-length a rest n e in
      decode-invalid f a rest n e
      ∙ ap (put_first replacement) (
          decode-enough f g (drop n (a ∷ rest)) (drop_shorter n f (a ∷ rest) least most h)
            (drop_shorter n g (a ∷ rest) least most k))
      ∙ sym (decode-invalid g a rest n e)
  | inr (inr e) ↦ decode-unfinished f a rest e ∙ sym (decode-unfinished g a rest e)
]

abbrev pub put_text : Str → Str × Bytes → Str × Bytes
put_text text (more, left) = (text ++ more, left)

fewer :
    (n f a : ℕ) (rest more : Bytes)
    → 1 ≤ n
    → n ≤ length (a ∷ rest)
    → length ((a ∷ rest) ++ more) ≤ suc f
    → length (drop n (a ∷ rest) ++ more) ≤ f
fewer n f a rest more least most h = omega (
  arith,
  length-drop n (a ∷ rest) most,
  length-append (drop n (a ∷ rest)) more,
  length-append (a ∷ rest) more,
)

fewer_again :
    (n g a : ℕ) (rest more : Bytes)
    → n ≤ length (a ∷ rest)
    → length ((a ∷ rest) ++ more) ≤ g
    → length (drop n (a ∷ rest) ++ more) ≤ g
fewer_again n g a rest more most h = omega (
  arith,
  length-drop n (a ∷ rest) most,
  length-append (drop n (a ∷ rest)) more,
  length-append (a ∷ rest) more,
)

-- More bytes are decoded behind those that were left over.
pub decode-append :
    (f g : ℕ) (bytes more : Bytes)
    → length (bytes ++ more) ≤ f
    → length (bytes ++ more) ≤ g
    → decode f (bytes ++ more) ≡ put_text (decode f bytes).0 (decode g ((decode f bytes).1 ++ more))
decode-append zero g [] more h k = unfold decode in decode-enough zero g more h k
decode-append zero g (a ∷ bytes) more h k = absurd (omega arith)
decode-append (suc f) g [] more h k = unfold decode in decode-enough (suc f) g more h k
decode-append (suc f) g (a ∷ rest) more h k = elim (sequence_cases (sequence a rest)) [
  | inr (inr e) ↦
      rw (decode-unfinished f a rest e) (decode-enough (suc f) g (a ∷ (rest ++ more)) h k)
  | inl (c, n, e) ↦
      let (least, most) = char-length a rest c n e in
      let same = sequence-append a rest more (λ u. ground (arith, e, u)) ∙ e in
      let room = fewer n f a rest more least most h in
      rw (decode-char f a rest c n e, decode-char f a (rest ++ more) c n same)
        (ap (λ b. put_first c (decode f b)) (drop-append n (a ∷ rest) more most)
          ∙ ap (put_first c) (
              decode-append f g (drop n (a ∷ rest)) more room (fewer_again n g a rest more most k)))
  | inr (inl (n, e)) ↦
      let (least, most) = invalid-length a rest n e in
      let same = sequence-append a rest more (λ u. ground (arith, e, u)) ∙ e in
      let room = fewer n f a rest more least most h in
      rw (decode-invalid f a rest n e, decode-invalid f a (rest ++ more) n same)
        (ap (λ b. put_first replacement (decode f b)) (drop-append n (a ∷ rest) more most)
          ∙ ap (put_first replacement) (
              decode-append f g (drop n (a ∷ rest)) more room (fewer_again n g a rest more most k)))
]
