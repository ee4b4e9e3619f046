-- ===== src/Session/Decoder/Units.antt =====
-- src/session/output.rs: single sequences of bytes.
use vivado_server.Base.{ℕ, ◌≤◌, ◌≡◌, ◌≢◌, refl, length, ◌⊎◌, inl, inr, [], ◌∷◌, ◌++◌, arith}
use vivado_server.Session.Decoder.{Bytes, Sequence, char, invalid, unfinished, sequence}

-- A sequence that is finished does not depend on the bytes behind it.
pub sequence-append :
    (a : ℕ) (rest more : Bytes)
    → sequence a rest ≢ unfinished
    → sequence a (rest ++ more) ≡ sequence a rest
unfolding sequence
sequence-append a [] more h = ground arith
sequence-append a (b ∷ []) more h = ground arith
sequence-append a (b ∷ c ∷ []) more h = ground arith
sequence-append a (b ∷ c ∷ d ∷ rest) more h = ground arith

-- A character has at least one byte, and not more than there are.
pub char-length :
    (a : ℕ) (rest : Bytes) (c n : ℕ)
    → sequence a rest ≡ char c n
    → (1 ≤ n) × (n ≤ length (a ∷ rest))
unfolding sequence
char-length a [] x n h = ground arith
char-length a (b ∷ []) x n h = ground arith
char-length a (b ∷ c ∷ []) x n h = ground arith
char-length a (b ∷ c ∷ d ∷ rest) x n h = ground arith

-- So has what is replaced.
pub invalid-length :
    (a : ℕ) (rest : Bytes) (n : ℕ) → sequence a rest ≡ invalid n → (1 ≤ n) × (n ≤ length (a ∷ rest))
unfolding sequence
invalid-length a [] n h = ground arith
invalid-length a (b ∷ []) n h = ground arith
invalid-length a (b ∷ c ∷ []) n h = ground arith
invalid-length a (b ∷ c ∷ d ∷ rest) n h = ground arith

pub sequence_cases :
    (s : Sequence)
    → ((c : ℕ) × (n : ℕ) × (s ≡ char c n)) ⊎ ((n : ℕ) × (s ≡ invalid n)) ⊎ (s ≡ unfinished)
sequence_cases (char c n) = inl (c, n, refl)
sequence_cases (invalid n) = inr (inl (n, refl))
sequence_cases unfinished = inr (inr refl)
