-- ===== src/History/Journal/Pruning.antt =====
-- src/history.rs: how the writer limits what the reader retains, by age and by size.
use vivado_server.Base.{
  ℕ, ◌-◌, codes, ltb, leb, ◌==◌, if◌then◌else◌, length, any, Bool, false, ◌&&◌, not, none, some,
  List, [], ◌∷◌, word_mod,
}
use vivado_server.Base.Maps.{retain}
use vivado_server.History.Journal.Retained.{Stored, Settings, Reader, Item, Tail, max_events, lose}

-- The first loop of `prune`: the oldest events go, if they are too old or there are too many.
unfoldable pub drop_oldest : Settings → ℕ → List Stored → Reader → Reader
unfolding lose
drop_oldest settings cutoff [] r = r
drop_oldest settings cutoff (s ∷ stored) r =
    let expired = ltb s.event.timestamp cutoff in
    let reason = if expired then codes "retention_expired" else codes "spool_limit" in
    let rest = drop_oldest settings cutoff stored (lose s reason stored r) in
    if not expired && leb r.bytes settings.max_bytes && leb (length (s ∷ stored)) max_events
    then r
    else rest

unfoldable pub is_session : ℕ → Stored → Bool
is_session id s = elim s.event.session_id [ some session_id ↦ session_id == id | none ↦ false ]

unfoldable pub retains_session : ℕ → List Stored → Bool
unfolding is_session
retains_session id events = any (λ s. is_session id s) events

-- Items whose events are gone leave the front of a tail.
unfoldable pub drop_items : ℕ → ℕ → List Item → Tail
drop_items first bytes [] = record { bytes = bytes; items = [] }
drop_items first bytes (item ∷ items) =
    let rest = drop_items first (bytes - item.len) items in
    if ltb item.seq first then rest else record { bytes = bytes; items = item ∷ items }

unfoldable pub drop_tails : ℕ → List (ℕ × Tail) → List (ℕ × Tail)
unfolding drop_items
drop_tails first [] = []
drop_tails first ((id, tail) ∷ tails) =
    (id, drop_items first tail.bytes tail.items) ∷ drop_tails first tails

-- `u64::MAX`, where no event is retained
unfoldable pub first_retained : List Stored → ℕ
first_retained [] = word_mod - 1
first_retained (s ∷ stored) = s.event.seq

unfoldable pub earliest : ℕ → List Stored → ℕ
earliest next_cursor [] = next_cursor
earliest next_cursor (s ∷ stored) = s.event.seq - 1

unfoldable pub prune_reader : Settings → ℕ → Reader × List (ℕ × Tail) → Reader × List (ℕ × Tail)
unfolding drop_oldest retains_session drop_tails first_retained earliest
prune_reader settings now (r, tails) =
    let fewer = drop_oldest settings (now - settings.retention_secs) r.events r in
    (
      record fewer {
        session_windows =
            retain (λ id start. retains_session id fewer.events) fewer.session_windows;
        earliest_cursor = earliest fewer.next_cursor fewer.events;
      },
      drop_tails (first_retained fewer.events)
          (retain (λ id tail. retains_session id fewer.events) tails),
    )
