-- ===== src/History/Journal/Kept.antt =====
-- src/history.rs: what trimming and pruning leave of what the reader knows.
use mathlib.Core.Option.{some-injective}
use vivado_server.Base.{
  ℕ, ◌+◌, ◌-◌, ◌≤◌, ◌≡◌, refl, ◌∙◌, Str, codes, ltb, leb, ◌==◌, ==_iff, if◌then◌else◌, length, Bool,
  true, ◌&&◌, ◌||◌, not, Bool-cases, Option-cases, some, inl, inr, List, [], ◌∷◌, any, arith,
}
use vivado_server.History.Gaps.{covers, gap-covers}
use vivado_server.History.Gaps.Below.{Below, gap-Below}
use vivado_server.History.Pages.{Entry}
use vivado_server.History.Pages.Cursor.{Beyond}
use vivado_server.History.Journal.Retained.{
  Stored, Settings, Reader, Item, max_events, stored_bytes, find_event, remove_event, lose,
  trim_item, trim,
}
use vivado_server.History.Journal.Pruning.{drop_oldest}

abbrev pub held : ℕ → List Stored → Bool
held q events = any (λ s. s.event.seq == q) events

-- The number `q` belongs to an event that is retained, or is told of by a gap.
abbrev pub known : ℕ → Reader → Bool
known q r = held q r.events || covers q r.gaps

abbrev pub entries : List Stored → List Entry
entries [] = []
entries (s ∷ stored) = record { seq = s.event.seq; size = s.size } ∷ entries stored

-- The list without one of its events.
record Without (s : Stored) (before after : List Stored) : Type 0 where
  covered : (q : ℕ) → held q before ≡ true → (held q after || s.event.seq == q) ≡ true
  fewer : (q : ℕ) → held q after ≡ true → held q before ≡ true
  there : held s.event.seq before ≡ true
  ordered : (b : ℕ) → Beyond b (entries before) → Beyond b (entries after)
  weight : stored_bytes before ≡ s.size + stored_bytes after

-- The reader `r'` may retain less than `r`, but knows of as much.
pub record Kept (r r' : Reader) : Type 0 where
  pub cursor : r'.next_cursor ≡ r.next_cursor
  pub knows : (q : ℕ) → 1 ≤ q → known q r ≡ true → known q r' ≡ true
  pub fewer : (q : ℕ) → held q r'.events ≡ true → held q r.events ≡ true
  pub ordered : (b : ℕ) → Beyond b (entries r.events) → Beyond b (entries r'.events)
  pub below :
      (n : ℕ) → ((q : ℕ) → held q r.events ≡ true → q ≤ n) → Below n r.gaps → Below n r'.gaps
  pub weighed : r.bytes ≡ stored_bytes r.events → r'.bytes ≡ stored_bytes r'.events

pub Kept-refl : (r : Reader) → Kept r r
Kept-refl r = record {
  cursor = refl;
  knows = λ q l h. h;
  fewer = λ q h. h;
  ordered = λ b v. v;
  below = λ n h v. v;
  weighed = λ w. w;
}

pub Kept-trans : (r r' r'' : Reader) → Kept r r' → Kept r' r'' → Kept r r''
Kept-trans r r' r'' k k' = record {
  cursor = k'.cursor ∙ k.cursor;
  knows = λ q l h. k'.knows q l (k.knows q l h);
  fewer = λ q h. k.fewer q (k'.fewer q h);
  ordered = λ b v. k'.ordered b (k.ordered b v);
  below = λ n h v. k'.below n (λ q g. h q (k.fewer q g)) (k.below n h v);
  weighed = λ w. k'.weighed (k.weighed w);
}

lower-Beyond : (a b : ℕ) (es : List Entry) → a ≤ b → Beyond b es → Beyond a es
lower-Beyond a b [] l v = tt
lower-Beyond a b (e ∷ es) l (m, v) = (omega (arith, l, m), v)

first-Without : (s : Stored) (stored : List Stored) → Without s (s ∷ stored) stored
unfolding stored_bytes
first-Without s stored = record {
  covered = λ q h. ground (arith, h);
  fewer = λ q h. ground (arith, h);
  there = ground arith;
  ordered = λ b (l, v). lower-Beyond b s.event.seq (entries stored) (omega (arith, l)) v;
  weight = refl;
}

later-Without :
    (s x : Stored) (stored rest : List Stored)
    → Without s stored rest
    → Without s (x ∷ stored) (x ∷ rest)
unfolding stored_bytes
later-Without s x stored rest w = record {
  covered = λ q h. ground (arith, h, w.covered q);
  fewer = λ q h. ground (arith, h, w.fewer q);
  there = ground (arith, w.there);
  ordered = λ b (l, v). (l, w.ordered x.event.seq v);
  weight = omega (arith, w.weight);
}

find_event-seq :
    (seq : ℕ) (stored : List Stored) (s : Stored)
    → find_event seq stored ≡ some s
    → s.event.seq ≡ seq
unfolding find_event
find_event-seq seq [] s e = ground (arith, e)
find_event-seq seq (x ∷ stored) s e = elim (Bool-cases (x.event.seq == seq)) [
  | inl this ↦
      let same : x ≡ s = some-injective x s (rw (find_event, this) at e) in
      rw (← same) ((==_iff x.event.seq seq).0 this)
  | inr other ↦ find_event-seq seq stored s (rw (find_event, other) at e)
]

find_event-Without :
    (seq : ℕ) (stored : List Stored) (s : Stored)
    → find_event seq stored ≡ some s
    → Without s stored (remove_event seq stored)
unfolding find_event remove_event
find_event-Without seq [] s e = ground (arith, e)
find_event-Without seq (x ∷ stored) s e = elim (Bool-cases (x.event.seq == seq)) [
  | inl this ↦
      let same : x ≡ s = some-injective x s (rw (find_event, this) at e) in
      rw (← same, this) (first-Without x stored)
  | inr other ↦ rw other (
      later-Without s x stored (remove_event seq stored)
        (find_event-Without seq stored s (rw (find_event, other) at e)))
]

lose-Kept :
    (s : Stored) (reason : Str) (events : List Stored) (r : Reader)
    → Without s r.events events
    → Kept r (lose s reason events r)
unfolding lose
lose-Kept s reason events r w = record {
  cursor = refl;
  knows = λ q l h. ground (
    arith,
    h,
    w.covered q,
    ==_iff s.event.seq q,
    gap-covers q s.event.seq s.event.seq reason r.gaps,
  );
  fewer = w.fewer;
  ordered = w.ordered;
  below = λ n h v. gap-Below n s.event.seq s.event.seq reason r.gaps (h s.event.seq w.there) v;
  weighed = λ e. omega (arith, e, w.weight);
}

pub trim_item-Kept :
    (id : ℕ) (item : Item) (items : List Item) (r : Reader) → Kept r (trim_item id item items r)
unfolding trim_item lose
trim_item-Kept id item items r = elim (Option-cases (find_event item.seq r.events)) [
  | inl gone ↦ rw (trim_item, gone) (Kept-refl r)
  | inr (s, found) ↦
      let k =
        lose-Kept s (codes "session_middle_trimmed") (remove_event item.seq r.events) r
          (find_event-Without item.seq r.events s found) in
      rw (trim_item, found)
        (record {
          cursor = k.cursor;
          knows = k.knows;
          fewer = k.fewer;
          ordered = k.ordered;
          below = k.below;
          weighed = k.weighed;
        })
]

pub trim-Kept :
    (limit id bytes : ℕ) (items : List Item) (r : Reader) → Kept r (trim limit id bytes items r).0
unfolding trim
trim-Kept limit id bytes [] r = Kept-refl r
trim-Kept limit id bytes (item ∷ items) r = elim (Bool-cases (ltb limit bytes)) [
  | inr fits ↦ rw (trim, fits) (Kept-refl r)
  | inl over ↦
      let first = trim_item-Kept id item items r in
      let then_ = trim-Kept limit id (bytes - item.len) items (trim_item id item items r) in
      rw (trim, over)
        (Kept-trans r (trim_item id item items r)
          (trim limit id (bytes - item.len) items (trim_item id item items r)).0 first then_)
]

pub drop_oldest-Kept :
    (settings : Settings) (cutoff : ℕ) (stored : List Stored) (r : Reader)
    → r.events ≡ stored
    → Kept r (drop_oldest settings cutoff stored r)
unfolding drop_oldest lose
drop_oldest-Kept settings cutoff [] r e = Kept-refl r
drop_oldest-Kept settings cutoff (s ∷ stored) r e =
    let reason =
      if ltb s.event.timestamp cutoff then codes "retention_expired" else codes "spool_limit" in
    let first = lose-Kept s reason stored r (rw e (first-Without s stored)) in
    let rest = drop_oldest-Kept settings cutoff stored (lose s reason stored r) refl in
    let both =
      Kept-trans r (lose s reason stored r)
        (drop_oldest settings cutoff stored (lose s reason stored r)) first rest in
    elim (Bool-cases (
      not (ltb s.event.timestamp cutoff)
      && leb r.bytes settings.max_bytes
      && leb (length (s ∷ stored)) max_events)) [
        | inl fits ↦ rw (drop_oldest, fits) (Kept-refl r)
        | inr over ↦ rw (drop_oldest, over) both
      ]
