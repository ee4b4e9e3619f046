-- ===== src/History/Chunks/Examples.antt =====
-- src/history.rs: a short text in one event.
use vivado_server.Base.{◌≡◌, ◌≤◌, codes, length, some}
use vivado_server.History.Chunks.{given_offset, text_events}
use vivado_server.History.Chunks.Whole.{joined, Contiguous, text_events-whole}

text_events-whole_example :
    (joined (text_events (codes "session.output") (some 7) (codes "开始ab")) ≡ codes "开始ab")
    × Contiguous 7 (text_events (codes "session.output") (some 7) (codes "开始ab"))
    × (1 ≤ length (text_events (codes "session.output") (some 7) (codes "开始ab")))
unfolding given_offset
text_events-whole_example = text_events-whole (codes "session.output") (some 7) (codes "开始ab")
