-- ===== src/History/Journal/Queue.antt =====
-- src/history.rs: the accounts of the journal, while a producer enqueues a batch.
use mathlib.Core.List.{append_assoc, append-nil}
use vivado_server.Base.{
  ℕ, ◌+◌, ◌≤◌, ◌<◌, ◌≡◌, refl, sym, ap, ◌∙◌, codes, ltb, leb, ◌==◌, length, true, ◌||◌, Bool-cases,
  inl, inr, List, [], ◌∷◌, ◌++◌, arith,
}
use vivado_server.History.Journal.Retained.{Event, Reader, event_limit}
use vivado_server.History.Journal.State.{Message, Journal, max_queued_bytes, max_messages, refuse}
use vivado_server.History.Journal.{
  Numbered, numbered, oversized, event_bytes, stamp, number, send, enqueue_numbered, enqueue,
}
use vivado_server.History.Journal.Accounts.{
  waits, Rising, Rising-bound, Accounts-refused, Accounts-sent,
}
use vivado_server.History.Journal.Books.{queued, Sized, Sheet}

queued-append :
    (queue : List Message) (m : Message) → queued (queue ++ (m ∷ [])) ≡ queued queue ++ m.events
unfolding queued
queued-append [] m = append-nil m.events
queued-append (x ∷ queue) m =
    ap (λ es. x.events ++ es) (queued-append queue m)
    ∙ sym (append_assoc x.events (queued queue) m.events)

module _ (encoded : Event → ℕ) where
  pub event_bytes-append :
      (a b : List Event)
      → event_bytes encoded (a ++ b) ≡ event_bytes encoded a + event_bytes encoded b
  unfolding event_bytes
  event_bytes-append [] b = omega arith
  event_bytes-append (x ∷ a) b = omega (arith, event_bytes-append a b)

  Sized-append :
      (queue : List Message) (m : Message)
      → Sized encoded queue
      → m.bytes ≡ event_bytes encoded m.events
      → Sized encoded (queue ++ (m ∷ []))
  Sized-append [] m s e = (e, tt)
  Sized-append (x ∷ queue) m (h, s) e = (h, Sized-append queue m s e)

  -- The numbers of a batch follow one another.
  record Consecutive (next last : ℕ) (es : List Event) : Type 0 where
    rising : Rising next last es
    all_wait : (q : ℕ) → next < q → q ≤ last → waits q es ≡ true

  Counts : ℕ → Numbered → Type 0
  Counts next (numbered es last) = Consecutive next last es
  Counts next (oversized last) = next ≤ last

  number-Counts :
      (instance_id next : ℕ) (events : List Event)
      → Counts next (number encoded instance_id next events)
  unfolding Counts number stamp
  number-Counts instance_id next [] = record {
    rising = omega arith;
    all_wait = λ q l m. absurd (omega (arith, l, m));
  }
  number-Counts instance_id next (e ∷ es) =
      elim (Bool-cases (ltb event_limit (encoded (stamp encoded instance_id (next + 1) e)))) [
        | inl large ↦ rw (number, large) (omega arith)
        | inr fits ↦
            rw (number, fits)
              (further (number encoded instance_id (next + 1) es)
                (number-Counts instance_id (next + 1) es))
      ]
    where
      further :
          (n : Numbered)
          → Counts (next + 1) n
          → Counts next (elim n [
            | numbered rest last ↦ numbered (stamp encoded instance_id (next + 1) e ∷ rest) last
            | oversized last ↦ oversized last
          ])
      further (numbered rest last) c = record {
        rising = (omega arith, c.rising);
        all_wait = λ q l m. elim (Bool-cases (next + 1 == q)) [
          | inl this ↦ ground (arith, this)
          | inr other ↦ let w = c.all_wait q (ground (arith, l, other)) m in ground (arith, w)
        ];
      }
      further (oversized last) c = omega (arith, c)

  -- `left` has left the queue before, and the reader is not looked at.
  module _ (T : Type 0) (left : List Event) (reader : Reader) where
    refuse-Sheet :
        (j : Journal) (last : ℕ)
        → j.producer ≤ last
        → Sheet encoded T left reader j
        → Sheet encoded T left reader
            (refuse (j.producer + 1) last (record j { producer = last })).1
    unfolding refuse
    refuse-Sheet j last l v = record {
      accounts =
          Accounts-refused (left ++ queued j.queue) j.producer last (codes "queue_full") j.pending
            reader l v.accounts;
      told = v.told;
      counted = v.counted;
      sized = v.sized;
    }

    send-Sheet :
        (j : Journal) (last : ℕ) (events : List Event)
        → Consecutive j.producer last events
        → Sheet encoded T left reader j
        → Sheet encoded T left reader
            (send encoded (j.producer + 1) last events (record j { producer = last })).1
    unfolding send
    send-Sheet j last events c v =
        let bytes = event_bytes encoded events in
        let refused = refuse-Sheet j last (Rising-bound j.producer last events c.rising) v in
        let more = queued-append j.queue (record { events = events; bytes = bytes }) in
        elim (Bool-cases (ltb max_queued_bytes (j.queued_bytes + bytes))) [
          | inl over ↦ rw (send, over) refused
          | inr room ↦ elim (Bool-cases (j.finished || leb max_messages (length j.queue))) [
            | inl full ↦ rw (send, room, full) refused
            | inr free ↦
                rw (send, room, free)
                  (record {
                    accounts =
                        rw (more, ← append_assoc left (queued j.queue) events)
                          (Accounts-sent (left ++ queued j.queue) events j.producer last j.pending
                            reader c.rising c.all_wait v.accounts);
                    told = v.told;
                    counted = rw more (
                        let b = event_bytes-append (queued j.queue) events in
                        let k = v.counted in omega (arith, b, k));
                    sized =
                        Sized-append j.queue (record { events = events; bytes = bytes }) v.sized
                          refl;
                  })
          ]
        ]

    pub enqueue-Sheet :
        (j : Journal) (events : List Event)
        → Sheet encoded T left reader j
        → Sheet encoded T left reader (enqueue encoded events j).1
    unfolding enqueue enqueue_numbered Counts
    enqueue-Sheet j events v = elim (Bool-cases j.stopped) [
      | inl over ↦ simp (enqueue, over) v
      | inr runs ↦
          simp (enqueue, runs)
            (numbers (number encoded j.instance_id j.producer events)
              (number-Counts j.instance_id j.producer events))
    ]
      where
        numbers :
            (n : Numbered)
            → Counts j.producer n
            → Sheet encoded T left reader (enqueue_numbered encoded (j.producer + 1) n j).1
        numbers (numbered es last) c = send-Sheet j last es c v
        numbers (oversized last) c = record {
          accounts =
              Accounts-refused (left ++ queued j.queue) j.producer last (codes "event_too_large")
                j.pending reader c v.accounts;
          told = v.told;
          counted = v.counted;
          sized = v.sized;
        }

  -- What a producer does not touch, and what only grows.
  send-kept :
      (j : Journal) (first last : ℕ) (events : List Event)
      → ((send encoded first last events j).1.reader ≡ j.reader)
        × ((send encoded first last events j).1.producer ≡ j.producer)
  unfolding send refuse
  send-kept j first last events = (ground arith, ground arith)

  pub enqueue-kept :
      (j : Journal) (events : List Event)
      → ((enqueue encoded events j).1.reader ≡ j.reader)
        × (j.producer ≤ (enqueue encoded events j).1.producer)
  unfolding enqueue enqueue_numbered Counts
  enqueue-kept j events = elim (Bool-cases j.stopped) [
    | inl over ↦ simp (enqueue, over) (refl, omega arith)
    | inr runs ↦
        simp (enqueue, runs)
          (numbers (number encoded j.instance_id j.producer events)
            (number-Counts j.instance_id j.producer events))
  ]
    where
      numbers :
          (n : Numbered)
          → Counts j.producer n
          → let j' = (enqueue_numbered encoded (j.producer + 1) n j).1 in
            (j'.reader ≡ j.reader) × (j.producer ≤ j'.producer)
      numbers (numbered es last) c =
          let (same, given) = send-kept (record j { producer = last }) (j.producer + 1) last es in
          (same, rw given (Rising-bound j.producer last es c.rising))
      numbers (oversized last) c = (refl, c)
