-- ===== src/Session/Output/Holds.antt =====
-- src/session/output.rs: the buffer against the whole log of what was pushed.
use vivado_server.Base.{
  ℕ, zero, suc, ◌+◌, ◌-◌, ◌≤◌, ◌<◌, ◌≡◌, refl, Str, len, ltb, if◌then◌else◌, word_mod, length,
  length-append, drop, drop-append, drop-drop, Bool-cases, false, Option, some, inl, inr, List, [],
  ◌∷◌, ◌++◌, arith,
}
use vivado_server.Session.Model.{OutputChunk}
use vivado_server.Session.Output.{
  OutputBuffer, new, retain_tail, slice_from, tail_start, push, at_or_before,
}
use vivado_server.Session.Output.Bounds.{evict-drop, pushed-total, IsBounded}

-- The chunks are numbered from `s` on, and carry the texts, except up to the last shortened one.
abbrev pub Carries : Option ℕ → ℕ → List Str → List OutputChunk → Type 0
Carries t s [] [] = Unit {0}
Carries t s [] (c ∷ cs) = ⊥
Carries t s (x ∷ xs) [] = ⊥
Carries t s (x ∷ xs) (c ∷ cs) =
    (c.seq ≡ s) × (at_or_before s t ≡ false → c.text ≡ x) × Carries t (s + 1) xs cs

-- The buffer holds the end of the log, and numbers its entries by their place in the log.
pub record Holds (b : OutputBuffer) (log : List Str) : Type 0 where
  pub first : ℕ
  pub aligned : first + length b.chunks ≡ length log
  pub numbered : b.next_seq ≡ length log
  pub carried : Carries b.truncated_seq first (drop first log) b.chunks

pub new-Holds : (max_bytes : ℕ) → Holds (new max_bytes) []
unfolding new
new-Holds max_bytes = record { first = 0; aligned = refl; numbered = refl; carried = tt }

Carries-append :
    (t : Option ℕ) (s : ℕ) (xs : List Str) (cs : List OutputChunk) (x : Str) (c : OutputChunk)
    → Carries t s xs cs
    → c.seq ≡ s + length cs
    → (at_or_before c.seq t ≡ false → c.text ≡ x)
    → Carries t s (xs ++ (x ∷ [])) (cs ++ (c ∷ []))
Carries-append t s [] [] x c h e g =
    (omega arith, λ k. g (let e' : c.seq ≡ s = omega arith in rw e' k), tt)
Carries-append t s [] (d ∷ cs) x c h e g = elim h [ ]
Carries-append t s (y ∷ ys) [] x c h e g = elim h [ ]
Carries-append t s (y ∷ ys) (d ∷ cs) x c (a, f, h) e g =
    (a, f, Carries-append t (s + 1) ys cs x c h (omega arith) g)

-- A newly shortened entry relieves all older ones of carrying their text.
Carries-relax :
    (t : Option ℕ) (q s : ℕ) (xs : List Str) (cs : List OutputChunk)
    → Carries t s xs cs
    → s + length cs ≤ q
    → Carries (some q) s xs cs
Carries-relax t q s [] [] h b = tt
Carries-relax t q s [] (d ∷ cs) h b = elim h [ ]
Carries-relax t q s (y ∷ ys) [] h b = elim h [ ]
Carries-relax t q s (y ∷ ys) (d ∷ cs) (a, f, h) b =
    (a, λ k. ground arith, Carries-relax t q (s + 1) ys cs h (omega arith))

Carries-drop :
    (t : Option ℕ) (k s : ℕ) (xs : List Str) (cs : List OutputChunk)
    → Carries t s xs cs
    → k ≤ length cs
    → Carries t (s + k) (drop k xs) (drop k cs)
Carries-drop t zero s xs cs h b = let e : s + 0 ≡ s = omega arith in rw e h
Carries-drop t (suc k) s xs [] h b = absurd (omega arith)
Carries-drop t (suc k) s [] (d ∷ cs) h b = elim h [ ]
Carries-drop t (suc k) s (y ∷ ys) (d ∷ cs) (a, f, h) b =
    let e : s + suc k ≡ s + 1 + k = omega arith in
    rw e (Carries-drop t k (s + 1) ys cs h (omega arith))

length-drop : {A : Type 0} (n : ℕ) (xs : List A) → length (drop n xs) ≡ length xs - n
length-drop zero xs = omega arith
length-drop (suc n) [] = omega arith
length-drop (suc n) (x ∷ xs) = omega (arith, length-drop n xs)

pushed-Carries :
    (b : OutputBuffer) (log : List Str) (text : Str) (now : ℕ) (h : Holds b log)
    → let chunk : OutputChunk = record {
      seq = b.next_seq;
      timestamp = now;
      text = retain_tail b.max_bytes text;
    } in
      Carries
        (if ltb b.max_bytes (len text) then some b.next_seq else b.truncated_seq)
        h.first
        (drop h.first log ++ (text ∷ []))
        (b.chunks ++ (chunk ∷ []))
unfolding retain_tail
pushed-Carries b log text now h = elim (Bool-cases (ltb b.max_bytes (len text))) [
  | inl long ↦ rw long (
      Carries-append (some b.next_seq) h.first (drop h.first log) b.chunks text
        (record {
          seq = b.next_seq;
          timestamp = now;
          text = slice_from (tail_start b.max_bytes text) text;
        })
        (Carries-relax b.truncated_seq b.next_seq h.first (drop h.first log) b.chunks h.carried
          (omega arith))
        (omega arith) (λ k. ground arith))
  | inr short ↦ rw short (
      Carries-append b.truncated_seq h.first (drop h.first log) b.chunks text
        (record { seq = b.next_seq; timestamp = now; text = text }) h.carried (omega arith)
        (λ k. refl))
]

pub push-Holds :
    (b : OutputBuffer) (log : List Str) (text : Str) (now : ℕ)
    → b.max_bytes < 9_223_372_036_854_775_808
    → length log + 1 < word_mod
    → IsBounded b
    → Holds b log
    → Holds (push b text now).0 (log ++ (text ∷ []))
unfolding push
push-Holds b log text now small room v h =
    let kept = retain_tail b.max_bytes text in
    let chunk : OutputChunk = record { seq = b.next_seq; timestamp = now; text = kept } in
    let n : ℕ = if ltb b.max_bytes (len text) then 1 else 0 in
    let (k, fewer, kept', counted, over) = evict-drop b.max_bytes n (b.chunks ++ (chunk ∷ [])) in
    let grown = length-append b.chunks (chunk ∷ []) in
    record {
      first = h.first + k;
      aligned =
          rw (pushed-total b text now small v, kept')
            (omega
              (arith, length-drop k (b.chunks ++ (chunk ∷ [])), length-append log (text ∷ [])));
      numbered = omega (arith, length-append log (text ∷ []));
      carried =
          rw
            (
              pushed-total b text now small v,
              kept',
              ← drop-drop k h.first (log ++ (text ∷ [])),
              drop-append h.first log (text ∷ []) (omega arith),
            )
            (Carries-drop _ k _ _ (b.chunks ++ (chunk ∷ [])) (pushed-Carries b log text now h)
              fewer);
    }
