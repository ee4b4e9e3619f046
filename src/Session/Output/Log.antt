-- ===== src/Session/Output/Log.antt =====
-- src/session/output.rs: a reader that is not told of an overrun has lost nothing.
use vivado_server.Base.{
  ℕ, suc, ◌+◌, ◌-◌, ◌≤◌, ◌<◌, ◌≡◌, refl, ap, ap₂, ◌∙◌, sym, Str, ltb, leb, word_mod, length,
  length-append, drop, drop-drop, drop-nil, filter, Bool-cases, true, false, ◌⊎◌, ◌||◌, Option,
  none, some, inl, inr, List, [], ◌∷◌, ◌++◌, map, arith,
}
use mathlib.Core.List.{append-nil, append_assoc}
use vivado_server.Session.Model.{SessionStatus, OutputChunk}
use vivado_server.Session.Output.{OutputBuffer, new, push, feed, first_seq, at_or_before, since}
use vivado_server.Session.Output.Bounds.{IsBounded, new-IsBounded, push-IsBounded}
use vivado_server.Session.Output.Holds.{Carries, Holds, new-Holds, push-Holds}

Carries-first :
    (t : Option ℕ) (s next : ℕ) (xs : List Str) (cs : List OutputChunk)
    → Carries t s xs cs
    → s + length cs ≡ next
    → first_seq cs next ≡ s
unfolding first_seq
Carries-first t s next xs [] h e = omega arith
Carries-first t s next [] (c ∷ cs) h e = elim h [ ]
Carries-first t s next (x ∷ xs) (c ∷ cs) (a, f, h) e = a

-- Reading from a cursor beyond the last shortened entry.
at_or_before_mono :
    (t : Option ℕ) (i j : ℕ) → i ≤ j → at_or_before i t ≡ false → at_or_before j t ≡ false
at_or_before_mono none i j h e = refl
at_or_before_mono (some q) i j h e = ground arith

Carries-filter :
    (t : Option ℕ) (cursor s : ℕ) (xs : List Str) (cs : List OutputChunk)
    → at_or_before cursor t ≡ false
    → Carries t s xs cs
    → map (λ (c : OutputChunk). c.text) (filter (λ (c : OutputChunk). leb cursor c.seq) cs)
      ≡ drop (cursor - s) xs
Carries-filter t cursor s [] [] g h = sym (drop-nil (cursor - s))
Carries-filter t cursor s [] (c ∷ cs) g h = elim h [ ]
Carries-filter t cursor s (x ∷ xs) [] g h = elim h [ ]
Carries-filter t cursor s (x ∷ xs) (c ∷ cs) g (a, f, h) = elim (Bool-cases (leb cursor c.seq)) [
  | inl seen ↦
      let at : cursor - s ≡ 0 = ground arith in
      let on : cursor - (s + 1) ≡ 0 = ground arith in
      let ih = Carries-filter t cursor (s + 1) xs cs g h in
      rw (seen, at) (ap₂ ◌∷◌ (f (at_or_before_mono t cursor s (ground arith) g)) (rw on at ih))
  | inr skipped ↦
      let e : cursor - s ≡ suc (cursor - (s + 1)) = ground arith in
      rw (skipped, e) (Carries-filter t cursor (s + 1) xs cs g h)
]

abbrev pub texts : List (Str × ℕ) → List Str
texts = map (λ ((text, now) : Str × ℕ). text)

push-max_bytes :
    (b : OutputBuffer) (text : Str) (now : ℕ) → (push b text now).0.max_bytes ≡ b.max_bytes
unfolding push
push-max_bytes b text now = refl

feed-Holds :
    (b : OutputBuffer) (log : List Str) (inputs : List (Str × ℕ))
    → b.max_bytes < 9_223_372_036_854_775_808
    → length log + length inputs < word_mod
    → IsBounded b
    → Holds b log
    → IsBounded (feed b inputs) × Holds (feed b inputs) (log ++ texts inputs)
unfolding feed
feed-Holds b log [] small room v h = (v, rw append-nil h)
feed-Holds b log ((text, now) ∷ rest) small room v h =
    let b' = (push b text now).0 in
    rw (← append_assoc log (text ∷ []) (texts rest)) (
      feed-Holds b' (log ++ (text ∷ [])) rest (rw (push-max_bytes b text now) small)
        (omega (arith, length-append log (text ∷ []))) (push-IsBounded b text now small v)
        (push-Holds b log text now small (omega arith) v h))

not_overrun :
    (first : ℕ) (t : Option ℕ) (front cursor : ℕ)
    → front ≡ first
    → (ltb cursor front || at_or_before cursor t) ≡ false
    → (first ≤ cursor) × (at_or_before cursor t ≡ false)
not_overrun first none front cursor at e = ground arith
not_overrun first (some q) front cursor at e = ground arith

since-Holds :
    (b : OutputBuffer) (log : List Str) (cursor : ℕ) (status : SessionStatus)
    → Holds b log
    → let r = since b cursor status in
      (r.cursor ≡ length log)
      × (r.overrun ≡ false → map (λ (c : OutputChunk). c.text) r.chunks ≡ drop cursor log)
unfolding since
since-Holds b log cursor status h = (
  h.numbered,
  λ e.
      let at =
        Carries-first _ h.first b.next_seq (drop h.first log) b.chunks h.carried (omega arith) in
      let (from, beyond) =
        not_overrun h.first b.truncated_seq (first_seq b.chunks b.next_seq) cursor at e in
      Carries-filter b.truncated_seq cursor h.first (drop h.first log) b.chunks beyond h.carried
      ∙ drop-drop (cursor - h.first) h.first log
      ∙ ap (λ n. drop n log) (omega arith),
)

-- After any run of pushes into an empty buffer (limit below half a word, fewer pushes than a word
-- counts), a read reports the number of texts pushed as its cursor. Unless it reports an overrun,
-- the chunks that it returns are exactly the texts pushed since the given cursor, in order.
pub since-feed :
    (max_bytes : ℕ) (inputs : List (Str × ℕ)) (cursor : ℕ) (status : SessionStatus)
    → max_bytes < 9_223_372_036_854_775_808
    → length inputs < word_mod
    → let r = since (feed (new max_bytes) inputs) cursor status in
      (r.cursor ≡ length (texts inputs))
      × ((r.overrun ≡ true)
          ⊎ (map (λ (c : OutputChunk). c.text) r.chunks ≡ drop cursor (texts inputs)))
unfolding new
since-feed max_bytes inputs cursor status small room =
    let (numbered, kept) =
      since-Holds (feed (new max_bytes) inputs) (texts inputs) cursor status
        (feed-Holds (new max_bytes) [] inputs small (omega arith) (new-IsBounded max_bytes)
          (new-Holds max_bytes)).1 in
    (
      numbered,
      elim (Bool-cases (since (feed (new max_bytes) inputs) cursor status).overrun) [
        | inl over ↦ inl over
        | inr fine ↦ inr (kept fine)
      ],
    )

-- After any run of pushes into an empty buffer the count of bytes is right, and the buffer is
-- within its byte limit and its limit on chunks.
pub feed-IsBounded :
    (max_bytes : ℕ) (inputs : List (Str × ℕ))
    → max_bytes < 9_223_372_036_854_775_808
    → length inputs < word_mod
    → IsBounded (feed (new max_bytes) inputs)
unfolding new
feed-IsBounded max_bytes inputs small room =
    (feed-Holds (new max_bytes) [] inputs small (omega arith) (new-IsBounded max_bytes)
      (new-Holds max_bytes)).0
