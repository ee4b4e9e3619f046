-- ===== src/History/Examples.antt =====
-- src/history.rs: a short list of gaps.
use vivado_server.Base.{◌<◌, ◌≤◌, ◌≡◌, refl, codes, length, true, ◌=s=◌, List, [], ◌∷◌, arith}
use vivado_server.History.{Gap, absorbs, widen, merge_last, gap, max_gaps}
use vivado_server.Error.{ok}
use vivado_server.History.Pages.{Entry, Page, range, fill, close, page}
use vivado_server.History.Pages.Cursor.{Ascending, page-moves}
use vivado_server.History.Gaps.{gap-bounded}

abbrev one_gap : List Gap
one_gap = record { after_seq = 4; through_seq = 6; reason = codes "queue_full" } ∷ []

merged_test :
    gap one_gap 7 9 (codes "queue_full")
    ≡ record { after_seq = 4; through_seq = 9; reason = codes "queue_full" } ∷ []
unfolding gap merge_last absorbs widen ◌=s=◌
merged_test = refl

gap-bounded_example : length (gap one_gap 7 9 (codes "queue_full")) ≤ max_gaps
gap-bounded_example = gap-bounded 7 9 (codes "queue_full") one_gap (omega arith)

abbrev journal : List Entry
journal =
    record { seq = 1; size = 10 }
    ∷ record { seq = 4; size = 10 }
    ∷ record { seq = 5; size = 10 }
    ∷ []

abbrev second_page : Page
second_page = record {
  events = record { seq = 4; size = 10 } ∷ [];
  next_cursor = 4;
  has_more = true;
}

journal-Ascending : Ascending journal
journal-Ascending = (omega arith, (omega arith, tt))

page_test : page true 6 journal 1 1 ≡ ok second_page
unfolding page close fill range
page_test = refl

page-moves_example : 1 < second_page.next_cursor
unfolding range
page-moves_example =
    page-moves true 6 journal 1 1 second_page (record { seq = 4; size = 10 })
      (record { seq = 5; size = 10 } ∷ []) journal-Ascending refl (omega arith) page_test
