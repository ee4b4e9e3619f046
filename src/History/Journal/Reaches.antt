-- ===== src/History/Journal/Reaches.antt =====
-- src/history.rs: where an idle turn brings the cursor, and how much is retained after a batch.
use vivado_server.Base.{
  ℕ, ◌-◌, ◌≤◌, ◌≡◌, refl, sym, ◌∙◌, subst, ltb, leb, ◌==◌, length, Bool, true, false, ◌||◌, not,
  Bool-cases, inl, inr, List, [], ◌∷◌, any, arith,
}
use vivado_server.History.{larger}
use vivado_server.History.Journal.Retained.{Event, max_events, event_limit, Settings, stored_bytes}
use vivado_server.History.Journal.State.{
  Disk, Message, Journal, settle_pending, compact, highest, pass_gaps, recover, gather,
  note_failure,
}
use vivado_server.History.Journal.{
  event_bytes, prune_journal, prune_due, receive, idle, append, finish_append, record_batch,
  record_events,
}
use vivado_server.History.Journal.Limits.{Limited, prune_reader-Kept, prune_reader-Limited}
use vivado_server.History.Journal.Accounts.{Rising-bound}
use vivado_server.History.Journal.Moves.{resting, Moves}
use vivado_server.History.Journal.Books.{Halfway, new_journal, queued, IsJournal}
use vivado_server.History.Journal.Writer.{
  settle_pending-IsJournal, settled-IsJournal, gather-Halfway, receive-IsJournal,
}
use vivado_server.History.Journal.Told.{highest-covers, highest-Below, Moves-IsJournal}

module _ (encoded : Event → ℕ) where
  pass_gaps-reaches :
      (j : Journal)
      → j.pending ≡ []
      → j.queue ≡ []
      → IsJournal encoded j
      → (pass_gaps j).reader.next_cursor ≡ j.producer
  unfolding pass_gaps queued event_bytes
  pass_gaps-reaches j none_pending none_queued v =
      let empty : (j.queued_bytes == 0) ≡ true =
        let c = rw none_queued at (v.counted) in ground (arith, c) in
      let high = highest-Below j.producer j.reader.gaps v.accounts.below in
      let bound = Rising-bound j.reader.next_cursor j.producer (queued j.queue) v.accounts.rising in
      let reached : j.producer ≤ larger j.reader.next_cursor (highest j.reader.gaps) =
        elim (Bool-cases (leb 1 j.producer)) [
          | inr nothing ↦ ground (arith, nothing)
          | inl some_given ↦
              let c =
                rw (none_pending, none_queued) at
                  (v.accounts.complete j.producer (ground (arith, some_given)) (omega arith)) in
              ground
                (arith, c, v.accounts.behind j.producer, highest-covers j.producer j.reader.gaps)
        ] in
      simp (pass_gaps, empty) (ground (arith, reached, high, bound))

  prune_due-cursor :
      (settings : Settings) (disk : Disk) (j : Journal)
      → (prune_due encoded settings disk j).reader.next_cursor ≡ j.reader.next_cursor
  unfolding prune_due prune_journal compact
  prune_due-cursor settings disk j =
      let kept = (prune_reader-Kept settings j.now j.reader j.tails).cursor in ground (arith, kept)

  -- Once the queue of the writer is empty, an idle turn of it moves the cursor to the last number that
  -- was given out, whatever was lost before and whatever the disk does.
  pub idle-reaches :
      (settings : Settings) (instance_id now : ℕ) (disk : Disk) (j : Journal)
      → ((e : Event) → 1 ≤ encoded e)
      → Moves encoded settings resting (new_journal instance_id now) resting j
      → j.queue ≡ []
      → (idle encoded settings disk j).reader.next_cursor ≡ j.producer
  unfolding idle recover settle_pending
  idle-reaches settings instance_id now disk j a_byte s empty =
      let v = Moves-IsJournal encoded a_byte settings instance_id now s in
      let settled = settle_pending-IsJournal encoded settings j v.accounts v.counted v.sized in
      let reached = pass_gaps-reaches (settle_pending j) refl empty settled in
      let passed = pass_gaps (settle_pending j) in
      let changed =
        ltb 0 (length j.pending) || not (j.reader.next_cursor == passed.reader.next_cursor) in
      prune_due-cursor settings disk (recover disk changed passed) ∙ reached

module _ (encoded : Event → ℕ) (settings : Settings) where
  finish_append-reader :
      (disk : Disk) (j : Journal) → (finish_append encoded settings disk j).1.reader ≡ j.reader
  unfolding finish_append compact
  finish_append-reader disk j = ground arith

  -- A batch that was recorded without an error leaves the reader within the limits.
  append-Limited :
      (disk : Disk) (events : List Event) (j : Journal)
      → Halfway encoded events j
      → (append encoded settings disk events j).0 ≡ true
      → Limited settings (append encoded settings disk events j).1.reader
  unfolding append prune_journal
  append-Limited disk events j v done =
      let before = settle_pending (record_batch encoded settings events j) in
      let settled = settled-IsJournal encoded settings events j v in
      let pruned =
        prune_reader-Limited settings before.now before.reader before.tails
          settled.accounts.weighed in
      let same = finish_append-reader disk (prune_journal encoded settings before) in
      elim (Bool-cases (any (λ e. ltb event_limit (encoded e)) events)) [
        | inl large ↦ ground (arith, done, large)
        | inr fit ↦ elim (Bool-cases disk.written) [
          | inr failed ↦ ground (arith, done, fit, failed)
          | inl written ↦ simp (append, fit, written) (subst (Limited settings) (sym same) pruned)
        ]
      ]

  note_failure-healthy :
      (events : List Event) (done : Bool) (j : Journal)
      → (note_failure events done j).healthy ≡ j.healthy
  unfolding note_failure
  note_failure-healthy events true j = refl
  note_failure-healthy [] false j = refl
  note_failure-healthy (e ∷ es) false j = refl

  record_events-Limited :
      (disk : Disk) (events : List Event) (j : Journal)
      → Halfway encoded events j
      → (record_events encoded settings disk events j).healthy ≡ true
      → Limited settings (record_events encoded settings disk events j).reader
  unfolding record_events note_failure
  record_events-Limited disk events j v healthy =
      let done = append encoded settings disk events j in
      let well =
        sym (note_failure-healthy events done.0 (record (done.1) { healthy = done.0 })) ∙ healthy in
      subst
        (λ b.
          Limited settings (note_failure events b (record (done.1) { healthy = done.0 })).reader)
        (sym well) (append-Limited disk events j v well)

  -- After the writer has received a batch and is healthy, what the reader retains is counted right,
  -- and within the limits on bytes and on events.
  pub receive-Limited :
      (instance_id now : ℕ) (disk : Disk) (j : Journal) (m : Message) (queue : List Message)
      → ((e : Event) → 1 ≤ encoded e)
      → Moves encoded settings resting (new_journal instance_id now) resting j
      → j.queue ≡ m ∷ queue
      → (receive encoded settings disk j).healthy ≡ true
      → let r = (receive encoded settings disk j).reader in
        (r.bytes ≡ stored_bytes r.events)
        × (r.bytes ≤ settings.max_bytes)
        × (length r.events ≤ max_events)
  unfolding receive
  receive-Limited instance_id now disk j m queue a_byte s e healthy =
      let v = Moves-IsJournal encoded a_byte settings instance_id now s in
      let right = (receive-IsJournal encoded settings disk j v).accounts in
      let g = gather m.events m.bytes queue in
      let taken : Journal = record j { queue = g.2; queued_bytes = j.queued_bytes - g.1 } in
      let half = gather-Halfway encoded settings j m queue e v in
      let same : receive encoded settings disk j ≡ record_events encoded settings disk g.0 taken =
        rw (receive, e) refl in
      let (light, few) =
        subst (λ k. Limited settings k.reader) (sym same)
          (record_events-Limited disk g.0 taken half
            (subst (λ k. k.healthy ≡ true) same healthy)) in
      (right.weighed, light, few)
