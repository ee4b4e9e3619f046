-- ===== src/History/Journal/Undisturbed.antt =====
-- src/history.rs: a turn of the writer that nothing comes between is a sequence of its steps.
use vivado_server.Base.{
  ℕ, ◌+◌, ◌-◌, ◌≡◌, refl, sym, subst, codes, ◌=s=◌, ltb, length, any, Bool, true, false, Bool-cases,
  Option-cases, inl, inr, List, [], ◌∷◌, ◌++◌, arith,
}
use vivado_server.Base.Maps.{insert}
use vivado_server.History.Journal.Retained.{
  Event, Settings, Item, event_limit, store_event, accept, tail_of, trim_item, trim, track_output,
  track_tail,
}
use vivado_server.History.Journal.State.{
  Disk, Message, Journal, settle_pending, gather, note_failure, pass_gaps,
}
use vivado_server.History.Journal.{
  event_bytes, accept_all, prune_journal, record_batch, finish_append, append, record_events,
  receive, idle,
}
use vivado_server.History.Journal.Moves.{
  Turn, resting, gathering, writing, storing, trimming, answering, track_turn, pass_turn, too_large,
  Move, takes, gathers, writes, rejects, fails, records, stores, tracks, trims, trimmed, detaches,
  joins, prunes, finishes, answers, notes, passes, recovers, ages, Moves, rests, moves,
}

module _ (encoded : Event → ℕ) (settings : Settings) where
  abbrev Goes : Turn → Journal → Turn → Journal → Type 0
  Goes = Moves encoded settings

  pub one :
      {t t' : Turn} {j j' : Journal}
      → Move encoded settings t j t' j'
      → Moves encoded settings t j t' j'
  one m = moves _ _ _ _ _ _ (rests _ _) m

  pub joined :
      {t t' t'' : Turn} {j j' j'' : Journal}
      → Moves encoded settings t j t' j'
      → Moves encoded settings t' j' t'' j''
      → Moves encoded settings t j t'' j''
  joined s (rests _ _) = s
  joined s (moves _ _ _ _ _ _ before last) = moves _ _ _ _ _ _ (joined s before) last

  gather-Moves :
      (j : Journal) (events : List Event) (bytes : ℕ) (queue : List Message)
      → let g = gather events bytes queue in
        Goes
          (gathering events)
          (record j { queue = queue; queued_bytes = j.queued_bytes - bytes })
          (writing g.0)
          (record j { queue = g.2; queued_bytes = j.queued_bytes - g.1 })
  unfolding gather
  gather-Moves j events bytes [] = one (writes _ events (inr refl))
  gather-Moves j events bytes (m ∷ queue) = elim (Bool-cases (ltb (length events) 256)) [
    | inr full ↦ rw (gather, full) (one (writes _ events (inl full)))
    | inl room ↦
        let less : j.queued_bytes - bytes - m.bytes ≡ j.queued_bytes - (bytes + m.bytes) =
          omega arith in
        rw (gather, room)
          (joined (one (gathers _ events m queue room refl)) (
            subst
              (λ n.
                Goes (gathering (events ++ m.events)) (record j { queue = queue; queued_bytes = n })
                  (writing (gather (events ++ m.events) (bytes + m.bytes) queue).0)
                  (record j {
                    queue = (gather (events ++ m.events) (bytes + m.bytes) queue).2;
                    queued_bytes =
                        j.queued_bytes - (gather (events ++ m.events) (bytes + m.bytes) queue).1;
                  }))
              (sym less) (gather-Moves j (events ++ m.events) (bytes + m.bytes) queue)))
  ]

  trim-Moves :
      (batch left : List Event) (id bytes : ℕ) (items : List Item) (j : Journal)
      → let r = trim settings.session_tail_bytes id bytes items j.reader in
        Goes
          (trimming batch left id bytes items)
          j
          (storing batch left)
          (record j { reader = r.0; tails = insert id r.1 j.tails })
  unfolding trim
  trim-Moves batch left id bytes [] j = one (trimmed j batch left id bytes [] (inr refl))
  trim-Moves batch left id bytes (item ∷ items) j =
      elim (Bool-cases (ltb settings.session_tail_bytes bytes)) [
        | inr fits ↦ rw (trim, fits) (one (trimmed j batch left id bytes (item ∷ items) (inl fits)))
        | inl over ↦
            rw (trim, over)
              (joined (one (trims j batch left id bytes item items over)) (
                trim-Moves batch left id (bytes - item.len) items
                  (record j { reader = trim_item id item items j.reader })))
      ]

  track-Moves :
      (batch left : List Event) (e : Event) (j : Journal)
      → let r = track_tail settings e (j.reader, j.tails) in
        Goes
          (track_turn settings batch left e j)
          j
          (storing batch left)
          (record j { reader = r.0; tails = r.1 })
  unfolding track_turn track_tail track_output
  track-Moves batch left e j = elim (Bool-cases (e.event =s= codes "session.output")) [
    | inr other ↦ rw (track_turn, track_tail, other) (rests _ j)
    | inl output ↦ elim (Option-cases e.session_id) [
      | inl none_given ↦ rw (track_turn, track_tail, output, none_given) (rests _ j)
      | inr (id, given) ↦ elim (Bool-cases (ltb e.byte_offset settings.session_head_bytes)) [
        | inl head ↦ rw (track_turn, track_tail, output, given, head) (rests _ j)
        | inr later ↦
            rw (track_turn, track_tail, output, given, later)
              (trim-Moves batch left id ((tail_of id j.tails).bytes + e.byte_length)
                ((tail_of id j.tails).items
                  ++ (record { seq = e.seq; offset = e.byte_offset; len = e.byte_length } ∷ []))
                j)
      ]
    ]
  ]

  accept_all-Moves :
      (batch left : List Event) (j : Journal)
      → let r = accept_all encoded settings left (j.reader, j.tails) in
        Goes (storing batch left) j (storing batch []) (record j { reader = r.0; tails = r.1 })
  unfolding accept_all accept
  accept_all-Moves batch [] j = rests _ j
  accept_all-Moves batch (e ∷ left) j =
      let stored = record j { reader = store_event (encoded e) e j.reader } in
      let kept = track_tail settings e (stored.reader, stored.tails) in
      joined (one (stores j batch e left)) (
        joined (one (tracks stored batch e left)) (
          joined (track-Moves batch left e stored)
            (accept_all-Moves batch left (record stored { reader = kept.0; tails = kept.1 }))))

  finish-Moves :
      (disk : Disk) (batch : List Event) (j : Journal)
      → too_large encoded settings batch ≡ false
      → let r = finish_append encoded settings disk (
          prune_journal encoded settings
            (settle_pending (record_batch encoded settings batch j))) in
        Goes (writing batch) j (answering batch [] r.0) r.1
  unfolding record_batch settle_pending
  finish-Moves disk batch j fit =
      let written = record j { physical = j.physical + event_bytes encoded batch } in
      joined (one (records j batch fit)) (
        joined (accept_all-Moves batch batch written) (
          joined (one (detaches _ batch)) (
            joined (one (joins _ batch _))
              (joined (one (prunes _ batch)) (one (finishes _ batch disk))))))

  ends-Moves :
      (batch left : List Event) (r : Bool × Journal) (j : Journal)
      → Goes (writing batch) j (answering batch left r.0) r.1
      → Goes (writing batch) j resting (note_failure batch r.0 (record (r.1) { healthy = r.0 }))
  ends-Moves batch left r j s = joined s (
      joined (one (answers r.1 batch left r.0))
        (one (notes (record (r.1) { healthy = r.0 }) batch left r.0)))

  record_events-Moves :
      (disk : Disk) (batch : List Event) (j : Journal)
      → Goes (writing batch) j resting (record_events encoded settings disk batch j)
  unfolding record_events append
  record_events-Moves disk batch j =
      elim (Bool-cases (any (λ e. ltb event_limit (encoded e)) batch)) [
        | inl large ↦
            simp (record_events, append, large)
              (ends-Moves batch batch (false, j) j (one (rejects j batch large)))
        | inr fit ↦ elim (Bool-cases disk.written) [
          | inl written ↦
              simp (record_events, append, fit, written)
                (ends-Moves batch [] _ j (finish-Moves disk batch j fit))
          | inr failed ↦ elim (Bool-cases disk.rolled_back) [
            | inl back ↦
                simp (record_events, append, fit, failed, back)
                  (ends-Moves batch batch (false, j) j (one (fails j batch true fit)))
            | inr torn ↦
                simp (record_events, append, fit, failed, torn)
                  (ends-Moves batch batch (false, record j { stopped = true }) j
                    (one (fails j batch false fit)))
          ]
        ]
      ]

  -- A batch that the writer receives, and that nothing comes between, is a sequence of the writer's
  -- steps: the messages are taken, the events reach the reader one by one with what each trims, the
  -- pending gaps join, pruning and compaction follow, and a failure is noted.
  pub receive-Moves :
      (disk : Disk) (j : Journal) (m : Message) (queue : List Message)
      → j.finished ≡ false
      → j.queue ≡ m ∷ queue
      → Moves encoded settings resting j resting (receive encoded settings disk j)
  unfolding receive
  receive-Moves disk j m queue runs e =
      let g = gather m.events m.bytes queue in
      let taken = record j { queue = g.2; queued_bytes = j.queued_bytes - g.1 } in
      simp (receive, e)
        (joined (one (takes j m queue runs e))
          (joined (gather-Moves j m.events m.bytes queue) (record_events-Moves disk g.0 taken)))

  -- Nothing has come for a while, and nothing comes between.
  pub idle-Moves :
      (disk : Disk) (j : Journal)
      → j.finished ≡ false
      → Moves encoded settings resting j resting (idle encoded settings disk j)
  unfolding idle pass_turn
  idle-Moves disk j runs =
      joined (one (passes j runs))
        (joined (one (recovers (pass_gaps (settle_pending j)) _ disk)) (one (ages _ disk)))
