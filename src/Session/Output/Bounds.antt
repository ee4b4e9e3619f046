-- ===== src/Session/Output/Bounds.antt =====
-- src/session/output.rs: the buffer stays within its byte and chunk limits.
use vivado_server.Base.{
  ℕ, zero, suc, ◌+◌, ◌-◌, ◌≤◌, ◌<◌, ◌≡◌, ◌∙◌, Str, len, ltb, if◌then◌else◌, add_word, length, drop,
  Bool-cases, ◌||◌, ◌⊎◌, inl, inr, List, [], ◌∷◌, ◌++◌, arith,
}
use vivado_server.Session.Model.{OutputChunk}
use vivado_server.Session.Output.{OutputBuffer, new, retain_tail, max_chunks, evict, push}
use vivado_server.Session.Output.Tail.{retain_tail_lem}

pub total : List OutputChunk → ℕ
total [] = 0
total (c ∷ cs) = len c.text + total cs

total-append : (cs ds : List OutputChunk) → total (cs ++ ds) ≡ total cs + total ds
unfolding total
total-append [] ds = omega arith
total-append (c ∷ cs) ds = omega (arith, total-append cs ds)

-- What the buffer promises: its count of bytes is right, and both limits hold.
pub record IsBounded (b : OutputBuffer) : Type 0 where
  pub counted : b.bytes ≡ total b.chunks
  pub within : b.bytes ≤ b.max_bytes
  pub few : length b.chunks ≤ max_chunks

pub new-IsBounded : (max_bytes : ℕ) → IsBounded (new max_bytes)
unfolding new total
new-IsBounded max_bytes = omega arith

pub evict-bounded :
    (max_bytes bytes n : ℕ) (cs : List OutputChunk)
    → bytes ≡ total cs
    → let r = evict max_bytes bytes n cs in
      (r.bytes ≡ total r.chunks) × (r.bytes ≤ max_bytes) × (length r.chunks ≤ max_chunks)
unfolding evict total
evict-bounded max_bytes bytes n [] h = ground arith
evict-bounded max_bytes bytes n (c ∷ cs) h =
    ground (arith, evict-bounded max_bytes (bytes - len c.text) (n + 1) cs)

-- The chunks that go are the oldest, each counted, and each went while a limit was exceeded.
pub evict-drop :
    (max_bytes n : ℕ) (cs : List OutputChunk)
    → let r = evict max_bytes (total cs) n cs in
      (k : ℕ) × (k ≤ length cs)
      × (r.chunks ≡ drop k cs)
      × (r.evicted ≡ n + k)
      × ((j : ℕ) → j < k → (max_bytes < total (drop j cs)) ⊎ (max_chunks < length (drop j cs)))
unfolding evict total
evict-drop max_bytes n [] =
    (0, omega arith, ground arith, ground arith, λ j h. absurd (omega arith))
evict-drop max_bytes n (c ∷ cs) =
    elim (Bool-cases (ltb max_bytes (total (c ∷ cs)) || ltb max_chunks (length (c ∷ cs)))) [
      | inl over ↦
          let e : len c.text + total cs - len c.text ≡ total cs = omega arith in
          let (k, small, kept, counted, over') = evict-drop max_bytes (n + 1) cs in
          (
            suc k,
            omega arith,
            rw (over, e) kept,
            rw (over, e) (counted ∙ (omega arith)),
            λ j h.
                elim j
                    as (λ j.
                      j < suc k
                      → (max_bytes < total (drop j (c ∷ cs)))
                        ⊎ (max_chunks < length (drop j (c ∷ cs)))) [
                          | zero ↦ λ _. ground arith
                          | suc i ↦ λ h. over' i (omega arith)
                        ]
                  h,
          )
      | inr fits ↦ (0, omega arith, rw fits, rw fits (omega arith), λ j h. absurd (omega arith))
    ]

-- The sum does not wrap, and counts the new chunk.
pub pushed-total :
    (b : OutputBuffer) (text : Str) (now : ℕ)
    → b.max_bytes < 9_223_372_036_854_775_808
    → IsBounded b
    → let kept = retain_tail b.max_bytes text in
      let chunk : OutputChunk = record { seq = b.next_seq; timestamp = now; text = kept } in
      add_word b.bytes (len kept) ≡ total (b.chunks ++ (chunk ∷ []))
unfolding total
pushed-total b text now small v =
    let (front, e, fits, longest) = retain_tail_lem b.max_bytes text in
    omega (
      arith,
      total-append b.chunks
          (record { seq = b.next_seq; timestamp = now; text = retain_tail b.max_bytes text } ∷ []),
    )

-- Every push keeps the limits, whatever the text, as long as a limit is below half a word.
pub push-IsBounded :
    (b : OutputBuffer) (text : Str) (now : ℕ)
    → b.max_bytes < 9_223_372_036_854_775_808
    → IsBounded b
    → IsBounded (push b text now).0
unfolding push
push-IsBounded b text now small v =
    let chunk : OutputChunk = record {
      seq = b.next_seq;
      timestamp = now;
      text = retain_tail b.max_bytes text;
    } in
    let (counted, within, few) =
      evict-bounded b.max_bytes (add_word b.bytes (len (retain_tail b.max_bytes text)))
        (if ltb b.max_bytes (len text) then 1 else 0) (b.chunks ++ (chunk ∷ []))
        (pushed-total b text now small v) in
    record { counted = counted; within = within; few = few }
