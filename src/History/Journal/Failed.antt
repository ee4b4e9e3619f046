-- ===== src/History/Journal/Failed.antt =====
-- src/history.rs: the gap of a batch that failed, from its first number to its last.
use vivado_server.Base.{
  ℕ, ◌≤◌, ◌≡◌, codes, ◌==◌, Bool, true, false, Bool-cases, inl, inr, List, [], ◌∷◌, ◌++◌, arith,
}
use vivado_server.History.Gaps.{within}
use vivado_server.History.Journal.Retained.{Event}
use vivado_server.History.Journal.State.{Journal, last_seq, note_failure}
use vivado_server.History.Journal.Accounts.{waits, Rising, Rising-bound, Accounts-lost}
use vivado_server.History.Journal.Books.{queued, Halfway, IsJournal}

pub Rising-front : (c p : ℕ) (a b : List Event) → Rising c p (a ++ b) → Rising c p a
Rising-front c p [] b h = Rising-bound c p b h
Rising-front c p (x ∷ a) b (l, h) = (l, Rising-front x.seq p a b h)

last_seq-bound : (c p : ℕ) (es : List Event) → Rising c p es → last_seq c es ≤ p
unfolding last_seq
last_seq-bound c p [] h = h
last_seq-bound c p (e ∷ es) (l, h) = last_seq-bound e.seq p es h

last_seq-moves : (c p : ℕ) (es : List Event) → Rising c p es → c ≤ last_seq c es
unfolding last_seq
last_seq-moves c p [] h = omega arith
last_seq-moves c p (e ∷ es) (l, h) = omega (arith, l, last_seq-moves e.seq p es h)

-- A batch lies between its first and its last number.
last_seq-within :
    (p q : ℕ) (e : Event) (es : List Event)
    → Rising e.seq p es
    → 1 ≤ q
    → waits q (e ∷ es) ≡ true
    → within q e.seq (last_seq e.seq es) ≡ true
unfolding last_seq
last_seq-within p q e [] h m w = ground (arith, m, w)
last_seq-within p q e (f ∷ es) (l, h) m w = elim (Bool-cases (e.seq == q)) [
  | inl this ↦ ground (arith, this, m, l, last_seq-moves f.seq p es h)
  | inr other ↦
      let later = last_seq-within p q f es h m (ground (arith, w, other)) in
      ground (arith, later, l)
]

module _ (encoded : Event → ℕ) where
  pub note_failure-lost :
      (events : List Event) (j : Journal)
      → Halfway encoded events j
      → IsJournal encoded (note_failure events false j)
  unfolding note_failure last_seq
  note_failure-lost [] j v = v
  note_failure-lost (e ∷ es) j v =
      let (l, h) =
        Rising-front j.reader.next_cursor j.producer (e ∷ es) (queued j.queue) v.accounts.rising in
      record {
        accounts =
            Accounts-lost (e ∷ es) (queued j.queue) j.producer e.seq (last_seq e.seq es)
              (codes "disk_error") j.pending j.reader (last_seq-bound e.seq j.producer es h)
              (λ q m w. last_seq-within j.producer q e es h m w) v.accounts;
        told = v.told;
        counted = v.counted;
        sized = v.sized;
      }

  pub note_failure-kept :
      (c : ℕ) (events : List Event) (done : Bool) (j : Journal)
      → Rising c j.producer events
      → IsJournal encoded j
      → IsJournal encoded (note_failure events done j)
  unfolding note_failure
  note_failure-kept c events true j h v = v
  note_failure-kept c [] false j h v = v
  note_failure-kept c (e ∷ es) false j (l, h) v = record {
    accounts =
        Accounts-lost [] (queued j.queue) j.producer e.seq (last_seq e.seq es) (codes "disk_error")
          j.pending j.reader (last_seq-bound e.seq j.producer es h) (λ q m w. ground (arith, w))
          v.accounts;
    told = v.told;
    counted = v.counted;
    sized = v.sized;
  }
