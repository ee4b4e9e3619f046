-- ===== src/History/Journal/Limits.antt =====
-- src/history.rs: the loops of the writer that limit what the reader retains.
use vivado_server.Base.{
  ℕ, ◌+◌, ◌-◌, ◌≤◌, ◌≡◌, refl, codes, ◌=s=◌, ltb, leb, if◌then◌else◌, length, ◌&&◌, not, Bool-cases,
  Option-cases, inl, inr, List, [], ◌∷◌, ◌++◌, arith,
}
use vivado_server.History.Journal.Retained.{
  Event, Stored, Settings, Reader, Tail, max_events, stored_bytes, lose, tail_of, track_output,
  track_tail,
}
use vivado_server.History.Journal.Pruning.{drop_oldest, prune_reader}
use vivado_server.History.Journal.Kept.{Kept, Kept-refl, trim-Kept, drop_oldest-Kept}

track_output-Kept :
    (settings : Settings) (id : ℕ) (e : Event) (r : Reader) (tails : List (ℕ × Tail))
    → Kept r (track_output settings id e (r, tails)).0
unfolding track_output
track_output-Kept settings id e r tails =
    let tail = tail_of id tails in
    trim-Kept settings.session_tail_bytes id (tail.bytes + e.byte_length)
      (tail.items ++ (record { seq = e.seq; offset = e.byte_offset; len = e.byte_length } ∷ [])) r

pub track_tail-Kept :
    (settings : Settings) (e : Event) (r : Reader) (tails : List (ℕ × Tail))
    → Kept r (track_tail settings e (r, tails)).0
unfolding track_tail
track_tail-Kept settings e r tails = elim (Bool-cases (e.event =s= codes "session.output")) [
  | inr other ↦ rw (track_tail, other) (Kept-refl r)
  | inl output ↦ elim (Option-cases e.session_id) [
    | inl none_given ↦ rw (track_tail, output, none_given) (Kept-refl r)
    | inr (id, given) ↦ elim (Bool-cases (ltb e.byte_offset settings.session_head_bytes)) [
      | inl head ↦ rw (track_tail, output, given, head) (Kept-refl r)
      | inr later ↦ rw (track_tail, output, given, later) (track_output-Kept settings id e r tails)
    ]
  ]
]

pub prune_reader-Kept :
    (settings : Settings) (now : ℕ) (r : Reader) (tails : List (ℕ × Tail))
    → Kept r (prune_reader settings now (r, tails)).0
unfolding prune_reader
prune_reader-Kept settings now r tails =
    let k = drop_oldest-Kept settings (now - settings.retention_secs) r.events r refl in
    record {
      cursor = k.cursor;
      knows = k.knows;
      fewer = k.fewer;
      ordered = k.ordered;
      below = k.below;
      weighed = k.weighed;
    }

-- What is retained is within the limits on bytes and on events.
abbrev pub Limited : Settings → Reader → Type 0
Limited settings r = (r.bytes ≤ settings.max_bytes) × (length r.events ≤ max_events)

drop_oldest-Limited :
    (settings : Settings) (cutoff : ℕ) (stored : List Stored) (r : Reader)
    → r.events ≡ stored
    → r.bytes ≡ stored_bytes stored
    → Limited settings (drop_oldest settings cutoff stored r)
unfolding drop_oldest lose stored_bytes
drop_oldest-Limited settings cutoff [] r e w = (omega (arith, w), rw e (omega arith))
drop_oldest-Limited settings cutoff (s ∷ stored) r e w =
    let reason =
      if ltb s.event.timestamp cutoff then codes "retention_expired" else codes "spool_limit" in
    let rest =
      drop_oldest-Limited settings cutoff stored (lose s reason stored r) refl (omega (arith, w)) in
    elim (Bool-cases (
      not (ltb s.event.timestamp cutoff)
      && leb r.bytes settings.max_bytes
      && leb (length (s ∷ stored)) max_events)) [
        | inl fits ↦ rw (drop_oldest, fits) (ground (arith, fits), rw e (ground (arith, fits)))
        | inr over ↦ rw (drop_oldest, over) rest
      ]

pub prune_reader-Limited :
    (settings : Settings) (now : ℕ) (r : Reader) (tails : List (ℕ × Tail))
    → r.bytes ≡ stored_bytes r.events
    → Limited settings (prune_reader settings now (r, tails)).0
unfolding prune_reader
prune_reader-Limited settings now r tails w =
    drop_oldest-Limited settings (now - settings.retention_secs) r.events r refl w
