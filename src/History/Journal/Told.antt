-- ===== src/History/Journal/Told.antt =====
-- src/history.rs: the accounts of the journal, over all its steps.
use vivado_server.Base.{
  ℕ, ◌+◌, ◌-◌, ◌≤◌, ◌≡◌, ◌⊎◌, refl, sym, subst, codes, ◌=s=◌, ltb, ◌==◌, Bool, true, false,
  Bool-cases, Option-cases, inl, inr, List, [], ◌∷◌, ◌++◌, arith,
}
use vivado_server.History.{Gap}
use vivado_server.History.Gaps.{covers}
use vivado_server.History.Gaps.Below.{Below}
use vivado_server.History.Journal.Retained.{Event, Settings, stored_bytes, trim_item, move_pending}
use vivado_server.History.Journal.State.{
  Disk, Journal, settle_pending, compact, note_failure, highest, pass_gaps, recover,
}
use vivado_server.History.Journal.{event_bytes, wastes, prune_journal, finish_append, prune_due}
use vivado_server.History.Journal.Kept.{trim_item-Kept}
use vivado_server.History.Journal.Accounts.{Rising-bound, Accounts-Told, Kept-Accounts, Kept-Told}
use vivado_server.History.Journal.Recorded.{store_event-Accounts}
use vivado_server.History.Journal.Books.{new_journal, queued, Halfway, IsJournal}
use vivado_server.History.Journal.Failed.{Rising-front, note_failure-lost, note_failure-kept}
use vivado_server.History.Journal.Writer.{
  prune_journal-IsJournal, settle_pending-IsJournal, compact-IsJournal,
}
use vivado_server.History.Journal.Detached.{with_gaps, detach-Accounts, move_pending-Kept}
use vivado_server.History.Journal.Turns.{
  Spans, IsOpen, IsDesk, clock-IsDesk, enqueue-IsDesk, take-Halfway,
}
use vivado_server.History.Journal.Moves.{
  Turn, resting, track_turn, pass_turn, Move, enqueues, stops, ticks, closes, takes, gathers,
  writes, rejects, fails, records, stores, tracks, trims, trimmed, detaches, joins, prunes,
  finishes, answers, notes, passes, recovers, ages, Moves, rests, moves,
}

pub highest-covers : (q : ℕ) (gaps : List Gap) → covers q gaps ≡ true → q ≤ highest gaps
unfolding highest
highest-covers q [] h = ground (arith, h)
highest-covers q (g ∷ gaps) h = ground (arith, h, highest-covers q gaps)

pub highest-Below : (n : ℕ) (gaps : List Gap) → Below n gaps → highest gaps ≤ n
unfolding highest
highest-Below n [] v = omega arith
highest-Below n (g ∷ gaps) (b, v) = ground (arith, b, highest-Below n gaps v)

-- An idle writer has no events to wait for if no bytes are queued.
none_waiting :
    (encoded : Event → ℕ) (es : List Event)
    → ((e : Event) → 1 ≤ encoded e)
    → event_bytes encoded es ≡ 0
    → es ≡ []
unfolding event_bytes
none_waiting encoded [] l h = refl
none_waiting encoded (e ∷ es) l h = absurd (omega (arith, l e, h))

module _ (encoded : Event → ℕ) (a_byte : (e : Event) → 1 ≤ encoded e) where
  nothing_queued :
      (j : Journal) → IsJournal encoded j → (j.queued_bytes == 0) ≡ true → queued j.queue ≡ []
  nothing_queued j v empty =
      none_waiting encoded (queued j.queue) a_byte (let c = v.counted in ground (arith, c, empty))

  pass_gaps-IsJournal :
      (j : Journal) → j.pending ≡ [] → IsJournal encoded j → IsJournal encoded (pass_gaps j)
  unfolding pass_gaps
  pass_gaps-IsJournal j none_pending v = elim (Bool-cases (j.queued_bytes == 0)) [
    | inr busy ↦ simp (pass_gaps, busy) v
    | inl empty ↦
        let nothing = nothing_queued j v empty in
        let high = highest-Below j.producer j.reader.gaps v.accounts.below in
        let bound =
          Rising-bound j.reader.next_cursor j.producer (queued j.queue) v.accounts.rising in
        simp (pass_gaps, empty)
          (record {
            accounts = record {
              complete = v.accounts.complete;
              rising = rw nothing (ground (arith, high, bound));
              below = v.accounts.below;
              pending_below = v.accounts.pending_below;
              ordered = v.accounts.ordered;
              behind = λ q h. let b = v.accounts.behind q h in ground (arith, b);
              weighed = v.accounts.weighed;
            };
            told = λ q l m.
                let c = rw (nothing, none_pending) at (v.accounts.complete q l) in
                let d = c (ground (arith, m, high, bound)) in ground (arith, d);
            counted = v.counted;
            sized = v.sized;
          })
  ]

  prune_due-IsJournal :
      (settings : Settings) (disk : Disk) (j : Journal)
      → IsJournal encoded j
      → IsJournal encoded (prune_due encoded settings disk j)
  unfolding prune_due
  prune_due-IsJournal settings disk j v =
      let p = prune_journal-IsJournal encoded settings j v in
      let pruned : Journal = record (prune_journal encoded settings j) { last_prune = j.now } in
      let w : IsJournal encoded pruned = p in
      elim (Bool-cases (ltb 60 (j.now - j.last_prune))) [
        | inr recent ↦ simp (prune_due, recent) v
        | inl due ↦ elim (Bool-cases (pruned.reader.bytes == j.reader.bytes)) [
          | inl same ↦ simp (prune_due, due, same) w
          | inr fewer ↦
              simp (prune_due, due, fewer) (compact-IsJournal encoded settings disk pruned w)
        ]
      ]

  pub new_journal-IsJournal :
      (instance_id now : ℕ) → IsJournal encoded (new_journal instance_id now)
  unfolding new_journal queued event_bytes stored_bytes
  new_journal-IsJournal instance_id now = record {
    accounts = record {
      complete = λ q l m. absurd (omega (arith, l, m));
      rising = omega arith;
      below = tt;
      pending_below = tt;
      ordered = tt;
      behind = λ q h. ground (arith, h);
      weighed = refl;
    };
    told = λ q l m. absurd (omega (arith, l, m));
    counted = refl;
    sized = tt;
  }

  module _ (settings : Settings) where
    finish_append-IsDesk :
        (disk : Disk) (batch : List Event) (j : Journal)
        → IsJournal encoded j
        → Spans j.producer batch
        → IsJournal encoded (finish_append encoded settings disk j).1
          × Spans (finish_append encoded settings disk j).1.producer batch
    unfolding finish_append compact
    finish_append-IsDesk disk batch j v s = elim (Bool-cases (wastes encoded settings j)) [
      | inr thrifty ↦ simp (finish_append, thrifty) (v, s)
      | inl wasteful ↦ elim (Bool-cases disk.replaced) [
        | inl replaced ↦ simp (finish_append, wasteful, compact, replaced) (v, s)
        | inr left ↦ simp (finish_append, wasteful, compact, left) (v, s)
      ]
    ]

    track_turn-IsDesk :
        (batch left : List Event) (e : Event) (j : Journal)
        → IsOpen encoded left j
        → Spans j.producer batch
        → IsDesk encoded (track_turn settings batch left e j) j
    unfolding track_turn
    track_turn-IsDesk batch left e j v s = elim (Bool-cases (e.event =s= codes "session.output")) [
      | inr other ↦ rw (track_turn, other) (v, s)
      | inl output ↦ elim (Option-cases e.session_id) [
        | inl none_given ↦ rw (track_turn, output, none_given) (v, s)
        | inr (id, given) ↦ elim (Bool-cases (ltb e.byte_offset settings.session_head_bytes)) [
          | inl head ↦ rw (track_turn, output, given, head) (v, s)
          | inr later ↦ rw (track_turn, output, given, later) (v, s)
        ]
      ]
    ]

    whole_batch :
        (batch : List Event) (j : Journal) → Halfway encoded batch j → Spans j.producer batch
    whole_batch batch j v = (
      j.reader.next_cursor,
      Rising-front j.reader.next_cursor j.producer batch (queued j.queue) v.accounts.rising,
    )

    note_failure-IsJournal :
        (j : Journal) (batch left : List Event) (done : Bool)
        → Halfway encoded left j
        → Spans j.producer batch
        → (left ≡ []) ⊎ ((left ≡ batch) × (done ≡ false))
        → IsJournal encoded (note_failure batch done j)
    note_failure-IsJournal j batch left done v (c, h) (inl nothing_left) =
        note_failure-kept encoded c batch done j h
          (subst (λ es. Halfway encoded es j) nothing_left v)
    note_failure-IsJournal j batch left done v s (inr (all_left, failed)) =
        subst (λ b. IsJournal encoded (note_failure batch b j)) (sym failed)
          (note_failure-lost encoded batch j (subst (λ es. Halfway encoded es j) all_left v))

    Move-IsDesk :
        {j j' : Journal} {t t' : Turn}
        → Move encoded settings t j t' j'
        → IsDesk encoded t j
        → IsDesk encoded t' j'
    unfolding recover pass_turn
    Move-IsDesk (enqueues t j events) v = enqueue-IsDesk encoded j events t v
    Move-IsDesk (stops t j) v = clock-IsDesk encoded t j true j.now v
    Move-IsDesk (ticks t j elapsed) v = clock-IsDesk encoded t j j.stopped (j.now + elapsed) v
    Move-IsDesk (closes j empty) v = v
    Move-IsDesk (takes j m queue runs e) v = take-Halfway encoded [] j m queue e v
    Move-IsDesk (gathers j batch m queue room e) v = take-Halfway encoded batch j m queue e v
    Move-IsDesk (writes j batch full) v = v
    Move-IsDesk (rejects j batch large) v = (v, whole_batch batch j v, inr (refl, refl))
    Move-IsDesk (fails j batch true fit) v = (v, whole_batch batch j v, inr (refl, refl))
    Move-IsDesk (fails j batch false fit) v = (v, whole_batch batch j v, inr (refl, refl))
    Move-IsDesk (records j batch fit) v = (
      record { accounts = v.accounts; told = tt; counted = v.counted; sized = v.sized },
      whole_batch batch j v,
    )
    Move-IsDesk (stores j batch e left) (v, s) = (
      record {
        accounts =
            store_event-Accounts (encoded e) e (left ++ queued j.queue) j.producer j.pending
              j.reader v.accounts;
        told = tt;
        counted = v.counted;
        sized = v.sized;
      },
      s,
    )
    Move-IsDesk (tracks j batch e left) (v, s) = track_turn-IsDesk batch left e j v s
    Move-IsDesk (trims j batch left id bytes item items over) (v, s) = (
      record {
        accounts =
            Kept-Accounts (left ++ queued j.queue) j.producer j.pending j.reader
              (trim_item id item items j.reader) (trim_item-Kept id item items j.reader) v.accounts;
        told = tt;
        counted = v.counted;
        sized = v.sized;
      },
      s,
    )
    Move-IsDesk (trimmed j batch left id bytes items fits) (v, s) = (v, s)
    Move-IsDesk (detaches j batch) (v, s) =
        let a = detach-Accounts (queued j.queue) j.producer j.pending j.reader v.accounts in
        (
          record {
            accounts = a;
            told = Accounts-Told (queued j.queue) j.producer (with_gaps j.pending j.reader) a;
            counted = v.counted;
            sized = v.sized;
          },
          s,
        )
    Move-IsDesk (joins j batch gaps) (v, s) =
        let kept = move_pending-Kept gaps j.reader in
        let before = with_gaps gaps j.reader in
        (
          record {
            accounts =
                Kept-Accounts (queued j.queue) j.producer j.pending before
                  (move_pending gaps j.reader) kept v.accounts;
            told = Kept-Told before (move_pending gaps j.reader) kept v.told;
            counted = v.counted;
            sized = v.sized;
          },
          s,
        )
    Move-IsDesk (prunes j batch) (v, s) =
        (prune_journal-IsJournal encoded settings j v, unfold prune_journal in s)
    Move-IsDesk (finishes j batch disk) (v, s) =
        let (w, r) = finish_append-IsDesk disk batch j v s in (w, r, inl refl)
    Move-IsDesk (answers j batch left done) (v, s, how) = (v, s, how)
    Move-IsDesk (notes j batch left done) (v, s, how) =
        note_failure-IsJournal j batch left done v s how
    Move-IsDesk (passes j runs) v =
        pass_gaps-IsJournal (settle_pending j) (unfold settle_pending in refl)
          (settle_pending-IsJournal encoded settings j v.accounts v.counted v.sized)
    Move-IsDesk (recovers j changed disk) v = v
    Move-IsDesk (ages j disk) v = prune_due-IsJournal settings disk j v

    pub Moves-IsDesk :
        {t t' : Turn} {j j' : Journal}
        → Moves encoded settings t j t' j'
        → IsDesk encoded t j
        → IsDesk encoded t' j'
    Moves-IsDesk (rests t j) v = v
    Moves-IsDesk (moves t t' t'' j j' j'' before last) v = Move-IsDesk last (Moves-IsDesk before v)

    pub Moves-IsJournal :
        (instance_id now : ℕ) {j : Journal}
        → Moves encoded settings resting (new_journal instance_id now) resting j
        → IsJournal encoded j
    Moves-IsJournal instance_id now s = Moves-IsDesk s (new_journal-IsJournal instance_id now)
