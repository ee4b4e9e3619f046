-- ===== src/History/Journal/Recorded.antt =====
-- src/history.rs: the events of a batch reach the reader, and the pending gaps join its own.
use vivado_server.Base.{
  ℕ, ◌+◌, ◌<◌, ◌≡◌, subst, ltb, ◌==◌, true, false, ◌||◌, Bool-cases, inl, inr, List, [], ◌∷◌, ◌++◌,
  arith,
}
use vivado_server.History.{Gap, gap, larger}
use vivado_server.History.Gaps.{gap-covers}
use vivado_server.History.Gaps.Below.{gap-Below}
use vivado_server.History.Pages.Cursor.{Beyond}
use vivado_server.History.Journal.Retained.{
  Event, Stored, Settings, Reader, Tail, stored_bytes, insert_event, apply_lifecycle, add_session,
  drop_session, add_workflow, drop_workflow, store_event, accept, track_tail, move_pending,
}
use vivado_server.History.Journal.{accept_all}
use vivado_server.History.Journal.Kept.{held, entries}
use vivado_server.History.Journal.Limits.{track_tail-Kept}
use vivado_server.History.Journal.Accounts.{Accounts, Kept-Accounts}

insert_event-held :
    (q : ℕ) (new : Stored) (stored : List Stored)
    → held q (insert_event new stored) ≡ (held q stored || new.event.seq == q)
unfolding insert_event
insert_event-held q new [] = ground arith
insert_event-held q new (s ∷ stored) = ground (arith, insert_event-held q new stored)

insert_event-Beyond :
    (b : ℕ) (new : Stored) (stored : List Stored)
    → b < new.event.seq
    → Beyond b (entries stored)
    → Beyond b (entries (insert_event new stored))
unfolding insert_event
insert_event-Beyond b new [] l v = (l, tt)
insert_event-Beyond b new (s ∷ stored) l (m, v) =
    elim (Bool-cases (ltb new.event.seq s.event.seq)) [
      | inl before ↦ rw before (l, (ground (arith, before), v))
      | inr later ↦ elim (Bool-cases (new.event.seq == s.event.seq)) [
        | inl same ↦
            let e : s.event.seq ≡ new.event.seq = ground (arith, same) in
            rw (later, same) (l, subst (λ n. Beyond n (entries stored)) e v)
        | inr apart ↦
            rw (later, apart)
              (m, insert_event-Beyond s.event.seq new stored (ground (arith, later, apart)) v)
      ]
    ]

insert_event-bytes :
    (new : Stored) (stored : List Stored)
    → held new.event.seq stored ≡ false
    → stored_bytes (insert_event new stored) ≡ new.size + stored_bytes stored
unfolding insert_event stored_bytes
insert_event-bytes new [] h = omega arith
insert_event-bytes new (s ∷ stored) h =
    ground (arith, h, insert_event-bytes new stored (ground (arith, h)))

-- The life cycle does not touch the events and the gaps.
record SameEvents (r r' : Reader) : Type 0 where
  cursor : r'.next_cursor ≡ r.next_cursor
  gaps : r'.gaps ≡ r.gaps
  events : r'.events ≡ r.events
  bytes : r'.bytes ≡ r.bytes

apply_lifecycle-SameEvents : (e : Event) (r : Reader) → SameEvents r (apply_lifecycle e r)
unfolding apply_lifecycle add_session drop_session add_workflow drop_workflow
apply_lifecycle-SameEvents e r = record {
  cursor = ground arith;
  gaps = ground arith;
  events = ground arith;
  bytes = ground arith;
}

pub store_event-Accounts :
    (size : ℕ) (e : Event) (waiting : List Event) (p : ℕ) (pending : List Gap) (r : Reader)
    → Accounts (e ∷ waiting) p pending r
    → Accounts waiting p pending (store_event size e r)
unfolding store_event
store_event-Accounts size e waiting p pending r a =
    let r1 : Reader = record r { next_cursor = larger r.next_cursor e.seq } in
    let same = apply_lifecycle-SameEvents e r1 in
    let new : Stored = record { event = e; size = size } in
    let (l, h) = a.rising in
    let head : larger r.next_cursor e.seq ≡ e.seq = ground (arith, l) in
    let fresh : held e.seq r.events ≡ false = elim (Bool-cases (held e.seq r.events)) [
      | inl there ↦ absurd (let b = a.behind e.seq there in omega (arith, b, l))
      | inr free ↦ free
    ] in
    record {
      complete = λ q m n.
          let c = a.complete q m n in
          rw (same.events, same.gaps) (ground (arith, c, insert_event-held q new r.events));
      rising = rw (same.cursor, head) h;
      below = rw (same.gaps) (a.below);
      pending_below = a.pending_below;
      ordered = rw (same.events) (insert_event-Beyond 0 new r.events (omega (arith, l)) a.ordered);
      behind = λ q there.
          let old = a.behind q in
          let t = rw (same.events, insert_event-held q new r.events) at there in
          rw (same.cursor, head) (ground (arith, old, t, l));
      weighed =
          rw (same.events, same.bytes, insert_event-bytes new r.events fresh)
            (let w = a.weighed in omega (arith, w));
    }

-- A batch that is written reaches the reader as a whole.
pub accept_all-Accounts :
    (encoded : Event → ℕ) (settings : Settings) (events waiting : List Event) (p : ℕ)
    (pending : List Gap) (r : Reader) (tails : List (ℕ × Tail))
    → Accounts (events ++ waiting) p pending r
    → Accounts waiting p pending (accept_all encoded settings events (r, tails)).0
unfolding accept_all accept
accept_all-Accounts encoded settings [] waiting p pending r tails a = a
accept_all-Accounts encoded settings (e ∷ events) waiting p pending r tails a =
    let stored = store_event (encoded e) e r in
    let kept = track_tail settings e (stored, tails) in
    accept_all-Accounts encoded settings events waiting p pending kept.0 kept.1 (
      Kept-Accounts (events ++ waiting) p pending stored kept.0
        (track_tail-Kept settings e stored tails)
        (store_event-Accounts (encoded e) e (events ++ waiting) p pending r a))

pub move_pending-Accounts :
    (waiting : List Event) (p : ℕ) (pending : List Gap) (r : Reader)
    → Accounts waiting p pending r
    → Accounts waiting p [] (move_pending pending r)
unfolding move_pending
move_pending-Accounts waiting p [] r a = a
move_pending-Accounts waiting p (g ∷ pending) r a =
    let (l, v) = a.pending_below in
    move_pending-Accounts waiting p pending
      (record r { gaps = gap r.gaps (g.after_seq + 1) g.through_seq g.reason; is_partial = true })
      (record {
        complete = λ q m n.
            let c = a.complete q m n in
            let k = gap-covers q (g.after_seq + 1) g.through_seq g.reason r.gaps in
            ground (arith, c, k, m);
        rising = a.rising;
        below = gap-Below p (g.after_seq + 1) g.through_seq g.reason r.gaps l a.below;
        pending_below = v;
        ordered = a.ordered;
        behind = a.behind;
        weighed = a.weighed;
      })
