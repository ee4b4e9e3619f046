-- ===== src/Session/Output/Examples.antt =====
-- src/session/output.rs: the cases of its tests, and the theorems at such inputs.
use vivado_server.Base.{
  ℕ, ◌≡◌, refl, Str, codes, length, List, [], ◌∷◌, ◌⊎◌, map, drop, true, arith,
}
use vivado_server.Session.Model.{OutputChunk, running}
use vivado_server.Session.Output.{new, push, feed, since, retain_tail}
use vivado_server.Session.Output.Bounds.{IsBounded}
use vivado_server.Session.Output.Log.{since-feed, texts, feed-IsBounded}

abbrev inputs : List (Str × ℕ)
inputs = (codes "abc", 1) ∷ (codes "def", 2) ∷ []

-- `output_buffer_tracks_cursor_and_overrun`
overrun_test : (since (feed (new 5) inputs) 0 running).overrun ≡ true
unfolding since feed push new
overrun_test = refl

kept_test :
    map (λ (c : OutputChunk). c.text) (since (feed (new 5) inputs) 0 running).chunks
    ≡ codes "def" ∷ []
unfolding since feed push new
kept_test = refl

-- `oversized_output_retains_a_bounded_utf8_tail`
oversized_test : retain_tail 5 (codes "开始abcdef") ≡ codes "bcdef"
unfolding retain_tail
oversized_test = refl

straddling_test : retain_tail 4 (codes "开始") ≡ codes "始"
unfolding retain_tail
straddling_test = refl

since-feed_example :
    let r = since (feed (new 5) inputs) 1 running in
    (r.cursor ≡ length (texts inputs))
    × ((r.overrun ≡ true) ⊎ (map (λ (c : OutputChunk). c.text) r.chunks ≡ drop 1 (texts inputs)))
since-feed_example = since-feed 5 inputs 1 running (omega arith) (omega arith)

feed-IsBounded_example : IsBounded (feed (new 5) inputs)
feed-IsBounded_example = feed-IsBounded 5 inputs (omega arith) (omega arith)
