-- ===== src/History/Pages/Cursor.antt =====
-- src/history.rs: the pages of the journal follow one another.
use vivado_server.Base.{
  ℕ, ◌+◌, ◌-◌, ◌*◌, ◌≤◌, ◌<◌, ◌≡◌, refl, sym, ap, ◌∙◌, ltb, leb, ◌==◌, length, Bool, true, false,
  ◌&&◌, ◌||◌, Bool-cases, inl, inr, List, [], ◌∷◌, ◌++◌, arith,
}
use vivado_server.Error.{Result, ok, err}
use vivado_server.History.{larger}
use vivado_server.History.Pages.{Entry, Page, page_limit, range, fill, is_empty, close, page}

-- The keys of a `BTreeMap` ascend.
abbrev pub Beyond : ℕ → List Entry → Type 0
Beyond bound [] = Unit {0}
Beyond bound (e ∷ es) = (bound < e.seq) × Beyond e.seq es

abbrev pub Ascending : List Entry → Type 0
Ascending [] = Unit {0}
Ascending (e ∷ es) = Beyond e.seq es

pub Beyond-Ascending : (bound : ℕ) (es : List Entry) → Beyond bound es → Ascending es
Beyond-Ascending bound [] v = tt
Beyond-Ascending bound (e ∷ es) (l, v) = v

range-all :
    (after bound : ℕ) (es : List Entry) → after ≤ bound → Beyond bound es → range after es ≡ es
unfolding range
range-all after bound [] l v = refl
range-all after bound (e ∷ es) l (m, v) =
    let this : ltb after e.seq ≡ true = ground (arith, l, m) in
    rw this (ap (λ xs. e ∷ xs) (range-all after e.seq es (omega (arith, l, m)) v))

range-Beyond : (after : ℕ) (es : List Entry) → Ascending es → Beyond after (range after es)
unfolding range
range-Beyond after [] v = tt
range-Beyond after (e ∷ es) v = elim (Bool-cases (ltb after e.seq)) [
  | inl new ↦
      let below : after < e.seq = ground (arith, new) in
      let whole : range after es ≡ es = range-all after e.seq es (omega (arith, below)) v in
      rw new (below, rw whole v)
  | inr old ↦ rw old (range-Beyond after es (Beyond-Ascending e.seq es v))
]

range-range : (a b : ℕ) (es : List Entry) → a ≤ b → range b (range a es) ≡ range b es
unfolding range
range-range a b [] l = refl
range-range a b (e ∷ es) l = ground (arith, l, range-range a b es l)

fill-moves :
    (limit count bytes next : ℕ) (es : List Entry)
    → Beyond next es
    → next ≤ (fill limit count bytes next es).1
unfolding fill
fill-moves limit count bytes next [] v = omega arith
fill-moves limit count bytes next (e ∷ es) (l, v) =
    ground (arith, l, fill-moves limit (count + 1) (bytes + e.size) e.seq es v)

fill-range :
    (limit count bytes next : ℕ) (es : List Entry)
    → Beyond next es
    → let r = fill limit count bytes next es in es ≡ r.0 ++ range r.1 es
unfolding fill
fill-range limit count bytes next [] v = unfold range in refl
fill-range limit count bytes next (e ∷ es) (l, v) =
    elim (Bool-cases (leb limit count || ltb (page_limit - 64 * 1_024) (bytes + e.size))) [
      | inl full ↦ rw full (sym (range-all next next (e ∷ es) (omega arith) (l, v)))
      | inr room ↦
          let rest = fill limit (count + 1) (bytes + e.size) e.seq es in
          let moved = fill-moves limit (count + 1) (bytes + e.size) e.seq es v in
          let passed : range rest.1 (e ∷ es) ≡ range rest.1 es =
            unfold range in
            (rw (let old : ltb rest.1 e.seq ≡ false = ground (arith, moved) in old) refl) in
          rw (room, passed)
            (ap (λ xs. e ∷ xs) (fill-range limit (count + 1) (bytes + e.size) e.seq es v))
    ]

close-range :
    (limit head next : ℕ) (events page : List Entry)
    → range (close limit head events (page, next)).next_cursor events ≡ range next events
unfolding close
close-range limit head next events page =
    elim (Bool-cases (ltb (length page) limit && is_empty (range next events))) [
      | inr short ↦ rw (close, short) refl
      | inl over ↦
          let gone = nothing (range next events) (ground (arith, over)) in
          let up : next ≤ larger next head = ground arith in
          rw (close, over)
            (sym (range-range next (larger next head) events up)
              ∙ ap (range (larger next head)) gone
              ∙ unfold range in (sym gone))
    ]
  where
    nothing : (es : List Entry) → is_empty es ≡ true → es ≡ []
    nothing [] h = refl
    nothing (e ∷ es) h = ground (arith, h)

pub ok-injective : (a b : Page) → ok a ≡ ok b → a ≡ b
ok-injective a b e = ap (λ (r : Result Page). elim r [ ok x ↦ x | err f ↦ a ]) e

-- A page is followed by the page at its cursor: the events behind the old cursor are those of the
-- page and then those behind the new cursor, in order. None is skipped, and none comes twice.
pub page-range :
    (enabled : Bool) (head : ℕ) (events : List Entry) (after limit : ℕ) (p : Page)
    → Ascending events
    → page enabled head events after limit ≡ ok p
    → range after events ≡ p.events ++ range p.next_cursor events
unfolding page close
page-range enabled head events after limit p v e =
    let from = range-Beyond after events v in
    let r = fill limit 0 0 after (range after events) in
    let moved : after ≤ r.1 = fill-moves limit 0 0 after (range after events) from in
    let split : range after events ≡ r.0 ++ range r.1 events =
      fill-range limit 0 0 after (range after events) from
      ∙ ap (λ xs. r.0 ++ xs) (range-range after r.1 events moved) in
    elim (Bool-cases (limit == 0 || ltb 256 limit)) [
      | inl bad ↦ ground (arith, e, bad)
      | inr good ↦ elim (Bool-cases enabled) [
        | inr off ↦ ground (arith, e, good, off)
        | inl on ↦
            let q : close limit head events r ≡ p =
              ok-injective (close limit head events r) p (rw (page, good, on) at e) in
            rw (← q) (split ∙ ap (λ xs. r.0 ++ xs) (sym (close-range limit head r.1 events r.0)))
      ]
    ]

first-moves :
    (limit after : ℕ) (e : Entry) (es : List Entry)
    → 1 ≤ limit
    → e.size ≤ page_limit - 64 * 1_024
    → after < e.seq
    → Beyond e.seq es
    → after < (fill limit 0 0 after (e ∷ es)).1
unfolding fill
first-moves limit after e es l s b v =
    ground (arith, l, s, b, fill-moves limit (0 + 1) (0 + e.size) e.seq es v)

close-moves :
    (limit head next : ℕ) (events page : List Entry)
    → next ≤ (close limit head events (page, next)).next_cursor
unfolding close
close-moves limit head next events page = ground arith

-- A collector makes progress: if there are events behind its cursor, and the first of them fits on
-- a page, a page moves the cursor on.
pub page-moves :
    (enabled : Bool) (head : ℕ) (events : List Entry) (after limit : ℕ) (p : Page) (e : Entry)
    (es : List Entry)
    → Ascending events
    → range after events ≡ e ∷ es
    → e.size ≤ page_limit - 64 * 1_024
    → page enabled head events after limit ≡ ok p
    → after < p.next_cursor
unfolding page close
page-moves enabled head events after limit p e es v is fits given =
    let (b, w) = rw is at (range-Beyond after events v) in
    elim (Bool-cases (limit == 0 || ltb 256 limit)) [
      | inl bad ↦ ground (arith, given, bad)
      | inr good ↦ elim (Bool-cases enabled) [
        | inr off ↦ ground (arith, given, good, off)
        | inl on ↦
            let r = fill limit 0 0 after (range after events) in
            let q : close limit head events r ≡ p =
              ok-injective (close limit head events r) p (rw (page, good, on) at given) in
            let m : after < r.1 =
              rw is (first-moves limit after e es (ground (arith, good)) fits b w) in
            let c = close-moves limit head r.1 events r.0 in rw (← q) (omega (arith, m, c))
      ]
    ]
