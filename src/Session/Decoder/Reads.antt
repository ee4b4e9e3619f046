-- ===== src/Session/Decoder/Reads.antt =====
-- src/session/output.rs: the decoder's loop, and a terminal that is read in parts.
use mathlib.Core.List.{append_assoc, append-nil}
use vivado_server.Base.{
  ℕ, zero, suc, ◌≤◌, ◌<◌, ◌≡◌, refl, subst, sym, ap, ◌∙◌, Str, length, drop, ◌⊎◌, inl, inr, [], ◌∷◌,
  ◌++◌, arith,
}
use vivado_server.Session.Decoder.{
  Bytes, char, invalid, unfinished, replacement, sequence, valid_prefix, error_len, push_loop,
}
use vivado_server.Session.Decoder.Units.{char-length, invalid-length, sequence_cases}
use vivado_server.Session.Decoder.Stream.{
  decode, decode-nil, put_first, put_text, decode-char, decode-invalid, decode-unfinished,
  decode-enough, length-drop,
}

put_text-append : (s t : Str) (d : Str × Bytes) → put_text (s ++ t) d ≡ put_text s (put_text t d)
put_text-append s t (text, left) = ap (λ x. (x, left)) (append_assoc s t text)

-- What `valid_prefix` leaves over: nothing, or bytes that begin no character.
abbrev Stops : Bytes → Type 0
Stops left =
    (left ≡ [])
    ⊎ ((a : ℕ) × (rest : Bytes) × (left ≡ a ∷ rest)
        × (((n : ℕ) × (sequence a rest ≡ invalid n)) ⊎ (sequence a rest ≡ unfinished)))

valid_prefix-char :
    (f a : ℕ) (rest : Bytes) (c n : ℕ)
    → sequence a rest ≡ char c n
    → valid_prefix (suc f) (a ∷ rest) ≡ put_first c (valid_prefix f (drop n (a ∷ rest)))
unfolding valid_prefix
valid_prefix-char f a rest c n e = rw (valid_prefix, e) refl

valid_prefix-stop :
    (f a : ℕ) (rest : Bytes)
    → ((n : ℕ) × (sequence a rest ≡ invalid n)) ⊎ (sequence a rest ≡ unfinished)
    → valid_prefix (suc f) (a ∷ rest) ≡ ([], a ∷ rest)
unfolding valid_prefix
valid_prefix-stop f a rest (inl (n, e)) = rw (valid_prefix, e) refl
valid_prefix-stop f a rest (inr e) = rw (valid_prefix, e) refl

-- The text before what is left over is decoded as it is.
record IsPrefix (f g : ℕ) (bytes : Bytes) : Type 0 where
  decoded : decode g bytes ≡ put_text (valid_prefix f bytes).0 (decode g (valid_prefix f bytes).1)
  stops : Stops (valid_prefix f bytes).1
  shorter : length (valid_prefix f bytes).1 ≤ length bytes

valid_prefix-IsPrefix :
    (f g : ℕ) (bytes : Bytes) → length bytes ≤ f → length bytes ≤ g → IsPrefix f g bytes
valid_prefix-IsPrefix zero g [] h k =
    unfold valid_prefix in record { decoded = refl; stops = inl refl; shorter = omega arith }
valid_prefix-IsPrefix zero g (a ∷ bytes) h k = absurd (omega arith)
valid_prefix-IsPrefix (suc f) g [] h k =
    unfold valid_prefix in record { decoded = refl; stops = inl refl; shorter = omega arith }
valid_prefix-IsPrefix (suc f) zero (a ∷ bytes) h k = absurd (omega arith)
valid_prefix-IsPrefix (suc f) (suc g) (a ∷ rest) h k = elim (sequence_cases (sequence a rest)) [
  | inr stop ↦
      let whole = valid_prefix-stop f a rest stop in
      rewritten whole (refl, inr (a, rest, refl, stop), omega arith)
  | inl (c, n, e) ↦
      let (least, most) = char-length a rest c n e in
      let less = length-drop n (a ∷ rest) most in
      let ih = valid_prefix-IsPrefix f (suc g) (drop n (a ∷ rest)) (omega arith) (omega arith) in
      rewritten (valid_prefix-char f a rest c n e) (
        decode-char g a rest c n e
            ∙ ap (put_first c) (
                decode-enough g (suc g) (drop n (a ∷ rest)) (omega arith) (omega arith)
                ∙ ih.decoded),
        ih.stops,
        omega (arith, ih.shorter),
      )
]
  where
    rewritten :
        {d : Str × Bytes}
        → valid_prefix (suc f) (a ∷ rest) ≡ d
        → (decode (suc g) (a ∷ rest) ≡ put_text d.0 (decode (suc g) d.1))
          × Stops d.1
          × (length d.1 ≤ length (a ∷ rest))
        → IsPrefix (suc f) (suc g) (a ∷ rest)
    rewritten e (decoded, stops, shorter) = record {
      decoded = rw e decoded;
      stops = rw e stops;
      shorter = rw e shorter;
    }

module _ (f : ℕ) (pending : Bytes) (output : Str) where
  abbrev prefix_text : Str
  prefix_text = (valid_prefix (length pending) pending).0

  loop-ends :
      (valid_prefix (length pending) pending).1 ≡ []
      → push_loop (suc f) pending output ≡ (output ++ prefix_text, [])
  unfolding push_loop
  loop-ends e = rw (push_loop, e) refl

  loop-waits :
      (a : ℕ) (rest : Bytes)
      → (valid_prefix (length pending) pending).1 ≡ a ∷ rest
      → sequence a rest ≡ unfinished
      → push_loop (suc f) pending output ≡ (output ++ prefix_text, a ∷ rest)
  unfolding push_loop error_len
  loop-waits a rest e u = rw (push_loop, e) (rw (error_len, u) refl)

  loop-replaces :
      (a : ℕ) (rest : Bytes) (n : ℕ)
      → (valid_prefix (length pending) pending).1 ≡ a ∷ rest
      → sequence a rest ≡ invalid n
      → push_loop (suc f) pending output
        ≡ push_loop f (drop n (a ∷ rest)) ((output ++ prefix_text) ++ (replacement ∷ []))
  unfolding push_loop error_len
  loop-replaces a rest n e u = rw (push_loop, e) (rw (error_len, u) refl)

-- The loop decodes the pending bytes one sequence after the other, and always comes to its end.
pub push_loop-decode :
    (f g : ℕ) (pending : Bytes) (output : Str)
    → length pending < f
    → length pending ≤ g
    → push_loop f pending output ≡ put_text output (decode g pending)
push_loop-decode zero g pending output h k = absurd (omega arith)
push_loop-decode (suc f) g pending output h k = elim whole.stops [
  | inl e ↦
      loop-ends f pending output e
      ∙ ap (λ s. (output ++ s, [])) (sym (append-nil text))
      ∙ ap (put_text output) (sym (decoded_as e (decode-nil g)))
  | inr (a, rest, e, inr u) ↦
      let fits = left_fits e in
      loop-waits f pending output a rest e u
      ∙ ap (λ s. (output ++ s, a ∷ rest)) (sym (append-nil text))
      ∙ ap (put_text output) (
          sym (
            decoded_as e (
              decode-enough g (suc g) (a ∷ rest) (omega arith) (omega arith)
              ∙ decode-unfinished g a rest u)))
  | inr (a, rest, e, inl (n, u)) ↦
      let fits = left_fits e in
      let (least, most) = invalid-length a rest n u in
      let less = length-drop n (a ∷ rest) most in
      loop-replaces f pending output a rest n e u
      ∙ push_loop-decode f g (drop n (a ∷ rest)) ((output ++ text) ++ (replacement ∷ []))
          (omega arith) (omega arith)
      ∙ put_text-append (output ++ text) (replacement ∷ []) (decode g (drop n (a ∷ rest)))
      ∙ put_text-append output text (put_first replacement (decode g (drop n (a ∷ rest))))
      ∙ ap (put_text output) (
          sym (
            decoded_as e (
              decode-enough g (suc g) (a ∷ rest) (omega arith) (omega arith)
              ∙ decode-invalid g a rest n u)))
]
  where
    text : Str
    text = (valid_prefix (length pending) pending).0

    whole : IsPrefix (length pending) g pending
    whole = valid_prefix-IsPrefix (length pending) g pending (omega arith) k

    decoded_as :
        {left : Bytes} {d : Str × Bytes}
        → (valid_prefix (length pending) pending).1 ≡ left
        → decode g left ≡ d
        → decode g pending ≡ put_text text d
    decoded_as e d = whole.decoded ∙ ap (λ l. put_text text (decode g l)) e ∙ ap (put_text text) d

    left_fits :
        {left : Bytes}
        → (valid_prefix (length pending) pending).1 ≡ left
        → length left ≤ length pending
    left_fits e = subst (λ l. length l ≤ length pending) e whole.shorter
