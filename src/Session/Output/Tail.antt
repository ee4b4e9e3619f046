-- ===== src/Session/Output/Tail.antt =====
-- src/session/output.rs: which part of an oversized text is kept.
use vivado_server.Base.{
  ℕ, zero, suc, ◌+◌, ◌-◌, ◌≤◌, ◌<◌, ◌≡◌, refl, ap, ◌∙◌, Str, len, len_utf8, len-append, ltb, ◌==◌,
  Bool-cases, true, ◌⊎◌, inl, inr, [], ◌∷◌, ◌++◌, arith,
}
use vivado_server.Session.Output.{
  is_char_boundary, next_boundary, slice_from, tail_start, retain_tail,
}

pub is_char_boundary-zero : (s : Str) → is_char_boundary 0 s ≡ true
unfolding is_char_boundary
is_char_boundary-zero [] = refl
is_char_boundary-zero (c ∷ s) = refl

pub len_utf8_bounds : (c : ℕ) → (1 ≤ len_utf8 c) × (len_utf8 c ≤ 4)
len_utf8_bounds c = ground arith

is_char_boundary-add :
    (c i : ℕ) (s : Str)
    → is_char_boundary i s ≡ true
    → is_char_boundary (len_utf8 c + i) (c ∷ s) ≡ true
unfolding is_char_boundary
is_char_boundary-add c i s h =
    let e : len_utf8 c + i - len_utf8 c ≡ i = omega arith in
    rw e (ground (arith, len_utf8_bounds c))

-- No character has more than four bytes, so a boundary is at most three bytes ahead.
boundary_ahead :
    (i : ℕ) (s : Str)
    → i ≤ len s
    → (d : ℕ) × (d ≤ 3) × (i + d ≤ len s) × (is_char_boundary (i + d) s ≡ true)
boundary_ahead zero s h = (0, omega arith, omega arith, is_char_boundary-zero s)
boundary_ahead (suc i) [] h = absurd (omega arith)
boundary_ahead (suc i) (c ∷ s) h = elim (Bool-cases (ltb (suc i) (len_utf8 c))) [
  | inl inside ↦ (
    len_utf8 c - suc i,
    omega (arith, len_utf8_bounds c),
    ground arith,
    let e : len_utf8 c + 0 ≡ suc i + (len_utf8 c - suc i) = ground arith in
        rw e at (is_char_boundary-add c 0 s (is_char_boundary-zero s)),
  )
  | inr beyond ↦
      let (d, small, within, at) = boundary_ahead (suc i - len_utf8 c) s (ground arith) in
      (
        d,
        small,
        ground arith,
        let e : len_utf8 c + (suc i - len_utf8 c + d) ≡ suc i + d = ground arith in
            rw e at (is_char_boundary-add c (suc i - len_utf8 c + d) s at),
      )
]

-- The loop stops at the first boundary, given the fuel to reach it.
next_boundary_lem :
    (d fuel i : ℕ) (s : Str)
    → d < fuel
    → is_char_boundary (i + d) s ≡ true
    → (is_char_boundary (next_boundary fuel i s) s ≡ true)
      × (i ≤ next_boundary fuel i s)
      × (next_boundary fuel i s ≤ i + d)
unfolding next_boundary
next_boundary_lem d zero i s h at = absurd (omega arith)
next_boundary_lem zero (suc fuel) i s h at =
    let e : i + 0 ≡ i = omega arith in
    let at' : is_char_boundary i s ≡ true = rw e at at in rw at' (at', omega arith, omega arith)
next_boundary_lem (suc d) (suc fuel) i s h at = elim (Bool-cases (is_char_boundary i s)) [
  | inl here ↦ rw here (here, omega arith, omega arith)
  | inr on ↦
      let e : i + suc d ≡ i + 1 + d = omega arith in
      let (a, b, c) = next_boundary_lem d fuel (i + 1) s (omega arith) (rw e at at) in
      rw on (a, omega arith, omega arith)
]

pub slice_from_lem :
    (i : ℕ) (s : Str)
    → is_char_boundary i s ≡ true
    → (front : Str) × (len front ≡ i) × (s ≡ front ++ slice_from i s)
unfolding is_char_boundary slice_from
slice_from_lem i [] h = ([], ground arith, refl)
slice_from_lem i (c ∷ s) h = elim (Bool-cases (i == 0)) [
  | inl start ↦ ([], ground arith, rw start)
  | inr later ↦
      let (front, size, e) = slice_from_lem (i - len_utf8 c) s (ground arith) in
      (c ∷ front, ground arith, rw later (ap (◌∷◌ c) e))
]

-- The start of the kept part is a character boundary, so that the slice does not panic.
pub tail_start-is_char_boundary :
    (max_bytes : ℕ) (text : Str)
    → (is_char_boundary (tail_start max_bytes text) text ≡ true)
      × (len text - max_bytes ≤ tail_start max_bytes text)
      × (tail_start max_bytes text ≤ len text - max_bytes + 3)
      × (tail_start max_bytes text ≤ len text)
unfolding tail_start
tail_start-is_char_boundary max_bytes text =
    let (d, small, within, at) = boundary_ahead (len text - max_bytes) text (omega arith) in
    let (a, b, c) =
      next_boundary_lem d (len text + 1) (len text - max_bytes) text (omega arith) at in
    (a, b, omega arith, omega arith)

-- The kept part of a text is a suffix of it that fits into the buffer's limit. It is the whole
-- text if that fits, and otherwise at most three bytes shorter than the limit.
pub retain_tail_lem :
    (max_bytes : ℕ) (text : Str)
    → (front : Str) × (text ≡ front ++ retain_tail max_bytes text)
      × (len (retain_tail max_bytes text) ≤ max_bytes)
      × ((front ≡ []) ⊎ (max_bytes < len (retain_tail max_bytes text) + 4))
unfolding retain_tail
retain_tail_lem max_bytes text = elim (Bool-cases (ltb max_bytes (len text))) [
  | inl long ↦
      let (at, low, high, within) = tail_start-is_char_boundary max_bytes text in
      let (front, size, e) = slice_from_lem (tail_start max_bytes text) text at in
      let total = ap len e ∙ len-append front (slice_from (tail_start max_bytes text) text) in
      rw long (front, e, ground arith, inr (ground arith))
  | inr short ↦ rw short ([], refl, ground arith, inl refl)
]
