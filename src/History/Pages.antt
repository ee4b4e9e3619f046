-- ===== src/History/Pages.antt =====
-- src/history.rs: how a collector reads the journal page by page.
pub mod Cursor
use mathlib.Core.Logic.{◌↔◌}
use vivado_server.Base.{
  ℕ, ◌+◌, ◌-◌, ◌*◌, ◌≤◌, ◌<◌, ◌≡◌, refl, sym, ap, ◌∙◌, Str, ltb, leb, ◌==◌, if◌then◌else◌, length,
  filter, Bool, true, false, ◌&&◌, ◌||◌, Bool-cases, Option, none, some, inl, inr, List, [], ◌∷◌,
  ◌++◌, arith,
}
use vivado_server.Error.{Result, ok, err, bad_request, not_found, text}
use vivado_server.History.{larger}

-- An event of the journal, and its size on a page.
pub record Entry : Type 0 where
  pub seq : ℕ
  pub size : ℕ

pub record Page : Type 0 where
  pub events : List Entry
  pub next_cursor : ℕ
  pub has_more : Bool

abbrev pub page_limit : ℕ
page_limit = 2 * 1_024 * 1_024

-- `BTreeMap::range`, from a sequence number that is not included.
unfoldable pub range : ℕ → List Entry → List Entry
range after events = filter (λ e. ltb after e.seq) events

-- The loop that fills a page, with the cursor behind its last event.
unfoldable pub fill : ℕ → ℕ → ℕ → ℕ → List Entry → List Entry × ℕ
fill limit count bytes next [] = ([], next)
fill limit count bytes next (e ∷ es) =
    let rest = fill limit (count + 1) (bytes + e.size) e.seq es in
    if leb limit count || ltb (page_limit - 64 * 1_024) (bytes + e.size)
    then ([], next)
    else (e ∷ rest.0, rest.1)

abbrev pub is_empty : List Entry → Bool
is_empty [] = true
is_empty (e ∷ es) = false

-- A page that is not full at the end of the journal moves the cursor to the journal's head.
unfoldable pub close : ℕ → ℕ → List Entry → List Entry × ℕ → Page
close limit head events (page, next) =
    let cursor =
      if ltb (length page) limit && is_empty (range next events) then larger next head else next in
    record { events = page; next_cursor = cursor; has_more = ltb cursor head }

-- `enabled` says that there is a journal, and `head` is its next sequence number.
unfoldable pub page : Bool → ℕ → List Entry → ℕ → ℕ → Result Page
page enabled head events after limit =
    if limit == 0 || ltb 256 limit
    then err (bad_request (text "history limit must be 1..256"))
    else if enabled
    then ok (close limit head events (fill limit 0 0 after (range after events)))
    else err (not_found (text "history is disabled"))
