-- ===== src/History/Journal/Collector.antt =====
-- src/history.rs: what a collector that reads the journal page by page is told.
use vivado_server.Base.{
  ℕ, ◌+◌, ◌≤◌, ◌<◌, ◌≡◌, refl, sym, ap, ◌∙◌, ltb, ◌==◌, Bool, true, ◌&&◌, ◌||◌, Bool-cases, inl,
  inr, not, List, [], ◌∷◌, ◌++◌, any, arith,
}
use vivado_server.Error.{ok}
use vivado_server.History.{larger}
use vivado_server.History.Gaps.{covers}
use vivado_server.History.Pages.{Entry, Page, range, fill, close, page}
use vivado_server.History.Pages.Cursor.{Beyond-Ascending, page-range, ok-injective}
use vivado_server.History.Journal.Retained.{Event, Stored, Settings}
use vivado_server.History.Journal.State.{Journal}
use vivado_server.History.Journal.Kept.{held, entries}
use vivado_server.History.Journal.Books.{new_journal, queued}
use vivado_server.History.Journal.Moves.{Turn, resting, unread, carried, is_resting, Moves}
use vivado_server.History.Journal.Accounts.{waits, Rising-bound, Rising-waits}
use vivado_server.History.Journal.Known.{desk-Accounts, resting-Told}
use vivado_server.History.Journal.Told.{Moves-IsDesk, new_journal-IsJournal}

abbrev pub lists : ℕ → List Entry → Bool
lists q es = any (λ e. e.seq == q) es

entries-lists : (q : ℕ) (stored : List Stored) → lists q (entries stored) ≡ held q stored
entries-lists q [] = refl
entries-lists q (s ∷ stored) = ground (arith, entries-lists q stored)

lists-append : (q : ℕ) (a b : List Entry) → lists q (a ++ b) ≡ (lists q a || lists q b)
lists-append q [] b = refl
lists-append q (e ∷ a) b = ground (arith, lists-append q a b)

range-lists :
    (q after : ℕ) (es : List Entry) → lists q (range after es) ≡ (ltb after q && lists q es)
unfolding range
range-lists q after [] = ground arith
range-lists q after (e ∷ es) = ground (arith, range-lists q after es)

fill-bound :
    (n limit count bytes next : ℕ) (es : List Entry)
    → next ≤ n
    → ((q : ℕ) → lists q es ≡ true → q ≤ n)
    → (fill limit count bytes next es).1 ≤ n
unfolding fill
fill-bound n limit count bytes next [] l h = l
fill-bound n limit count bytes next (e ∷ es) l h =
    let first : e.seq ≤ n = h e.seq (ground arith) in
    let rest =
      fill-bound n limit (count + 1) (bytes + e.size) e.seq es first
        (λ q w. h q (ground (arith, w))) in
    ground (arith, l, rest)

page-bound :
    (head : ℕ) (events : List Entry) (after limit : ℕ) (p : Page)
    → ((q : ℕ) → lists q events ≡ true → q ≤ head)
    → page true head events after limit ≡ ok p
    → p.next_cursor ≤ larger after head
unfolding page close
page-bound head events after limit p h e =
    let r = fill limit 0 0 after (range after events) in
    let bound =
      fill-bound (larger after head) limit 0 0 after (range after events) (ground arith)
        (λ q w. let l = h q in ground (arith, l, w, range-lists q after events)) in
    elim (Bool-cases (limit == 0 || ltb 256 limit)) [
      | inl bad ↦ ground (arith, e, bad)
      | inr good ↦
          let q : close limit head events r ≡ p =
            ok-injective (close limit head events r) p (rw (page, good) at e) in
          rw (← q) (ground (arith, bound))
    ]

-- Whatever was done to a new journal, also in the middle of a turn of the writer: on a page that a
-- collector reads at its cursor, every sequence number from there to the page's cursor is that of an
-- event on the page, or a gap tells of it: one that comes with the page, or one that is pending or on
-- its way to the reader. Between two turns of the writer, the gaps that come with the page suffice.
pub page-tells :
    (encoded : Event → ℕ) (settings : Settings) (instance_id now : ℕ) (t : Turn) (j : Journal)
    (after limit : ℕ) (p : Page) (q : ℕ)
    → ((e : Event) → 1 ≤ encoded e)
    → Moves encoded settings resting (new_journal instance_id now) t j
    → page true j.reader.next_cursor (entries j.reader.events) after limit ≡ ok p
    → after < q
    → q ≤ p.next_cursor
    → ((lists q p.events || covers q (carried t ++ j.reader.gaps) || covers q j.pending) ≡ true)
      × ((lists q p.events || covers q j.reader.gaps || not (is_resting t)) ≡ true)
page-tells encoded settings instance_id now t j after limit p q a_byte s e l m =
    let v =
      Moves-IsDesk encoded a_byte settings s
        (new_journal-IsJournal encoded a_byte instance_id now) in
    let a = desk-Accounts encoded t j v in
    let es = entries j.reader.events in
    let head = j.reader.next_cursor in
    let behind : (n : ℕ) → lists n es ≡ true → n ≤ head =
      λ n h. a.behind n (sym (entries-lists n j.reader.events) ∙ h) in
    let bound = page-bound head es after limit p behind e in
    let waiting = unread t ++ queued j.queue in
    let given = Rising-bound head j.producer waiting a.rising in
    let here : q ≤ head = ground (arith, bound, l, m) in
    let first : 1 ≤ q = omega (arith, l) in
    let split = page-range true head es after limit p (Beyond-Ascending 0 es a.ordered) e in
    let on_page =
      sym (range-lists q after es)
      ∙ ap (λ xs. lists q xs) split
      ∙ lists-append q p.events (range p.next_cursor es) in
    let shown : held q j.reader.events ≡ true → lists q p.events ≡ true = λ h.
      ground (
        arith,
        h,
        on_page,
        range-lists q p.next_cursor es,
        entries-lists q j.reader.events,
        l,
        m,
      ) in
    let known_all = a.complete q first (omega (arith, here, given)) in
    let none_waits : waits q waiting ≡ true → q ≤ 0 = λ w.
      let (b, c) = Rising-waits head j.producer q waiting a.rising w in omega (arith, b, here) in
    (
      ground (arith, known_all, shown, none_waits, first),
      elim (Bool-cases (is_resting t)) [
        | inl rests ↦
            let told = resting-Told encoded t j rests v q first here in ground (arith, told, shown)
        | inr busy ↦ ground (arith, busy)
      ],
    )
