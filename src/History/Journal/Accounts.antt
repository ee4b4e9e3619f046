-- ===== src/History/Journal/Accounts.antt =====
-- src/history.rs: the accounts of the sequence numbers that were given out: their events are
-- retained, a gap tells of them, or they are on their way to the writer.
use mathlib.Core.List.{append-nil}
use vivado_server.Base.{
  ℕ, ◌+◌, ◌≤◌, ◌<◌, ◌≡◌, subst, Str, leb, ◌==◌, Bool, true, ◌||◌, Bool-cases, inl, inr, List, [],
  ◌∷◌, ◌++◌, any, arith,
}
use vivado_server.History.{Gap, gap}
use vivado_server.History.Gaps.{covers, within, gap-covers}
use vivado_server.History.Gaps.Below.{Below, gap-Below, Below-raise}
use vivado_server.History.Pages.Cursor.{Beyond}
use vivado_server.History.Journal.Retained.{Event, Reader, stored_bytes}
use vivado_server.History.Journal.Kept.{held, known, entries, Kept}

abbrev pub waits : ℕ → List Event → Bool
waits q events = any (λ e. e.seq == q) events

-- The events are in strict order of their numbers, which lie behind `c` and not behind `p`.
abbrev pub Rising : ℕ → ℕ → List Event → Type 0
Rising c p [] = c ≤ p
Rising c p (e ∷ es) = (c < e.seq) × Rising e.seq p es

-- The events `waiting` have been numbered, up to `producer`, and have not reached the reader.
pub record Accounts (waiting : List Event) (producer : ℕ) (pending : List Gap) (r : Reader)
    : Type 0 where
  pub complete :
      (q : ℕ) → 1 ≤ q → q ≤ producer → (known q r || covers q pending || waits q waiting) ≡ true
  pub rising : Rising r.next_cursor producer waiting
  pub below : Below producer r.gaps
  pub pending_below : Below producer pending
  pub ordered : Beyond 0 (entries r.events)
  pub behind : (q : ℕ) → held q r.events ≡ true → q ≤ r.next_cursor
  pub weighed : r.bytes ≡ stored_bytes r.events

-- The reader knows of every number up to its cursor.
abbrev pub Told : Reader → Type 0
Told r = (q : ℕ) → 1 ≤ q → q ≤ r.next_cursor → known q r ≡ true

pub Rising-bound : (c p : ℕ) (es : List Event) → Rising c p es → c ≤ p
Rising-bound c p [] h = h
Rising-bound c p (e ∷ es) (l, h) = omega (arith, l, Rising-bound e.seq p es h)

pub Rising-waits :
    (c p q : ℕ) (es : List Event) → Rising c p es → waits q es ≡ true → (c < q) × (q ≤ p)
Rising-waits c p q [] h w = ground (arith, w)
Rising-waits c p q (e ∷ es) (l, h) w = elim (Bool-cases (e.seq == q)) [
  | inl this ↦
      let b = Rising-bound e.seq p es h in (ground (arith, this, l), ground (arith, this, b))
  | inr other ↦
      let (m, n) = Rising-waits e.seq p q es h (ground (arith, w, other)) in
      (omega (arith, l, m), n)
]

pub Rising-append :
    (c p n : ℕ) (es more : List Event) → Rising c p es → Rising p n more → Rising c n (es ++ more)
Rising-append c p n [] [] h k = omega (arith, h, k)
Rising-append c p n [] (m ∷ more) h (l, k) = (omega (arith, h, l), k)
Rising-append c p n (e ∷ es) more (l, h) k = (l, Rising-append e.seq p n es more h k)

pub Rising-rest : (c p : ℕ) (es rest : List Event) → Rising c p (es ++ rest) → Rising c p rest
Rising-rest c p [] rest h = h
Rising-rest c p (e ∷ es) rest (l, h) = lower e.seq rest l (Rising-rest e.seq p es rest h)
  where
    lower : (b : ℕ) (xs : List Event) → c < b → Rising b p xs → Rising c p xs
    lower b [] l h = omega (arith, l, h)
    lower b (x ∷ xs) l (m, h) = (omega (arith, l, m), h)

pub waits-append :
    (q : ℕ) (es more : List Event) → waits q (es ++ more) ≡ (waits q es || waits q more)
waits-append q [] more = ground arith
waits-append q (e ∷ es) more = ground (arith, waits-append q es more)

-- Where nothing is pending, the cursor is not ahead of what is known.
pub Accounts-Told : (waiting : List Event) (p : ℕ) (r : Reader) → Accounts waiting p [] r → Told r
Accounts-Told waiting p r a q l m =
    let b = Rising-bound r.next_cursor p waiting a.rising in
    let c = a.complete q l (omega (arith, m, b)) in
    elim (Bool-cases (waits q waiting)) [
      | inl later ↦ absurd (
          let (n, o) = Rising-waits r.next_cursor p q waiting a.rising later in omega (arith, m, n))
      | inr here ↦ ground (arith, c, here)
    ]

pub Kept-Accounts :
    (waiting : List Event) (p : ℕ) (pending : List Gap) (r r' : Reader)
    → Kept r r'
    → Accounts waiting p pending r
    → Accounts waiting p pending r'
Kept-Accounts waiting p pending r r' k a = record {
  complete = λ q l m. ground (arith, a.complete q l m, k.knows q l);
  rising = rw (k.cursor) (a.rising);
  below =
      k.below p
        (λ q h.
          let b = Rising-bound r.next_cursor p waiting a.rising in
          let c = a.behind q h in omega (arith, b, c))
        a.below;
  pending_below = a.pending_below;
  ordered = k.ordered 0 a.ordered;
  behind = λ q h. rw (k.cursor) (a.behind q (k.fewer q h));
  weighed = k.weighed a.weighed;
}

pub Kept-Told : (r r' : Reader) → Kept r r' → Told r → Told r'
Kept-Told r r' k t q l m = k.knows q l (t q l (rw (← k.cursor) m))

-- A lost range joins the pending gaps.
pub Accounts-lost :
    (events waiting : List Event) (p first last : ℕ) (reason : Str) (pending : List Gap)
    (r : Reader)
    → last ≤ p
    → ((q : ℕ) → 1 ≤ q → waits q events ≡ true → within q first last ≡ true)
    → Accounts (events ++ waiting) p pending r
    → Accounts waiting p (gap pending first last reason) r
Accounts-lost events waiting p first last reason pending r l inside a = record {
  complete = λ q m n.
      let c = a.complete q m n in
      let g = gap-covers q first last reason pending in
      ground (arith, c, g, waits-append q events waiting, inside q m);
  rising = Rising-rest r.next_cursor p events waiting a.rising;
  below = a.below;
  pending_below = gap-Below p first last reason pending l a.pending_below;
  ordered = a.ordered;
  behind = a.behind;
  weighed = a.weighed;
}

-- New numbers are given out: they are lost at once, or wait.
pub Accounts-refused :
    (waiting : List Event) (p last : ℕ) (reason : Str) (pending : List Gap) (r : Reader)
    → p ≤ last
    → Accounts waiting p pending r
    → Accounts waiting last (gap pending (p + 1) last reason) r
Accounts-refused waiting p last reason pending r l a = record {
  complete = λ q m n.
      let g = gap-covers q (p + 1) last reason pending in
      elim (Bool-cases (leb q p)) [
        | inl old ↦ let c = a.complete q m (ground (arith, old)) in ground (arith, c, g)
        | inr new ↦ ground (arith, g, m, n, new)
      ];
  rising =
      subst (λ es. Rising r.next_cursor last es) (append-nil waiting)
        (Rising-append r.next_cursor p last waiting [] a.rising l);
  below = Below-raise p last r.gaps l a.below;
  pending_below =
      gap-Below last (p + 1) last reason pending (omega arith)
        (Below-raise p last pending l a.pending_below);
  ordered = a.ordered;
  behind = a.behind;
  weighed = a.weighed;
}

pub Accounts-sent :
    (waiting events : List Event) (p last : ℕ) (pending : List Gap) (r : Reader)
    → Rising p last events
    → ((q : ℕ) → p < q → q ≤ last → waits q events ≡ true)
    → Accounts waiting p pending r
    → Accounts (waiting ++ events) last pending r
Accounts-sent waiting events p last pending r h all_wait a =
    let l = Rising-bound p last events h in
    record {
      complete = λ q m n. elim (Bool-cases (leb q p)) [
        | inl old ↦
            let c = a.complete q m (ground (arith, old)) in
            ground (arith, c, waits-append q waiting events)
        | inr new ↦
            let w = all_wait q (ground (arith, new)) n in
            ground (arith, w, waits-append q waiting events)
      ];
      rising = Rising-append r.next_cursor p last waiting events a.rising h;
      below = Below-raise p last r.gaps l a.below;
      pending_below = Below-raise p last pending l a.pending_below;
      ordered = a.ordered;
      behind = a.behind;
      weighed = a.weighed;
    }
