-- ===== src/History/Gaps.antt =====
-- src/history.rs: no lost sequence number is forgotten, and the list of gaps stays short.
pub mod Below
use mathlib.Core.Option.{some-injective}
use vivado_server.Base.{
  ℕ, ◌-◌, ◌≤◌, ◌≡◌, Str, ltb, leb, length, length-append, any, Bool, true, ◌&&◌, ◌||◌, Bool-cases,
  Option-cases, some, inl, inr, List, [], ◌∷◌, ◌++◌, arith,
}
use vivado_server.History.{Gap, max_gaps, absorbs, widen, merge_last, merge_oldest, bound, gap}

-- The gap tells of the sequence number `q`.
abbrev pub tells : ℕ → Gap → Bool
tells q g = ltb g.after_seq q && leb q g.through_seq

abbrev pub covers : ℕ → List Gap → Bool
covers q gaps = any (λ g. tells q g) gaps

-- The number `q` lies in the range from `first` to `last`; numbers start at 1.
abbrev pub within : ℕ → ℕ → ℕ → Bool
within q first last = leb 1 q && leb first q && leb q last

widen-tells :
    (q first last : ℕ) (g : Gap)
    → (tells q g || within q first last) ≡ true
    → first ≤ last
    → tells q (widen g first last) ≡ true
unfolding widen
widen-tells q first last g h ordered = ground (arith, h)

merge_last-covers :
    (q first last : ℕ) (reason : Str) (gaps merged : List Gap)
    → merge_last first last reason gaps ≡ some merged
    → (covers q gaps || within q first last) ≡ true
    → first ≤ last
    → covers q merged ≡ true
unfolding merge_last
merge_last-covers q first last reason [] merged e h ordered = ground (arith, e)
merge_last-covers q first last reason (g ∷ []) merged e h ordered =
    elim (Bool-cases (absorbs g first reason)) [
      | inl takes ↦
          let m : widen g first last ∷ [] ≡ merged =
            some-injective (widen g first last ∷ []) merged (rw (merge_last, takes) at e) in
          let w = widen-tells q first last g (ground (arith, h)) ordered in
          rw (← m) (ground (arith, w))
      | inr leaves ↦ ground (arith, e, leaves)
    ]
merge_last-covers q first last reason (g ∷ k ∷ rest) merged e h ordered =
    elim (Option-cases (merge_last first last reason (k ∷ rest))) [
      | inl none_left ↦ ground (arith, e, none_left)
      | inr (r, f) ↦
          let m : g ∷ r ≡ merged = some-injective (g ∷ r) merged (rw (merge_last, f) at e) in
          rw (← m) (elim (Bool-cases (tells q g)) [
            | inl told ↦ ground (arith, told)
            | inr untold ↦
                let ih =
                  merge_last-covers q first last reason (k ∷ rest) r f (ground (arith, h, untold))
                    ordered in
                ground (arith, ih)
          ])
    ]

merge_last-length :
    (first last : ℕ) (reason : Str) (gaps merged : List Gap)
    → merge_last first last reason gaps ≡ some merged
    → length merged ≡ length gaps
unfolding merge_last
merge_last-length first last reason [] merged e = ground (arith, e)
merge_last-length first last reason (g ∷ []) merged e = ground (arith, e)
merge_last-length first last reason (g ∷ k ∷ rest) merged e =
    elim (Option-cases (merge_last first last reason (k ∷ rest))) [
      | inl none_left ↦ ground (arith, e, none_left)
      | inr (r, f) ↦ ground (arith, e, f, merge_last-length first last reason (k ∷ rest) r f)
    ]

merge_oldest-covers :
    (q : ℕ) (gaps : List Gap) → covers q gaps ≡ true → covers q (merge_oldest gaps) ≡ true
unfolding merge_oldest
merge_oldest-covers q [] h = h
merge_oldest-covers q (a ∷ []) h = h
merge_oldest-covers q (a ∷ b ∷ rest) h = ground (arith, h)

bound-covers : (q : ℕ) (gaps : List Gap) → covers q gaps ≡ true → covers q (bound gaps) ≡ true
unfolding bound
bound-covers q gaps h = ground (arith, h, merge_oldest-covers q gaps h)

merge_oldest-length :
    (gaps : List Gap) → 1 ≤ length gaps - 1 → length (merge_oldest gaps) ≡ length gaps - 1
unfolding merge_oldest
merge_oldest-length [] h = absurd (omega arith)
merge_oldest-length (a ∷ []) h = absurd (omega arith)
merge_oldest-length (a ∷ b ∷ rest) h = omega arith

covers-append :
    (q : ℕ) (gaps : List Gap) (g : Gap) → covers q (gaps ++ (g ∷ [])) ≡ (covers q gaps || tells q g)
covers-append q [] g = ground arith
covers-append q (x ∷ gaps) g = ground (arith, covers-append q gaps g)

-- A sequence number that was told of, or that lies in the new gap, is told of afterwards.
pub gap-covers :
    (q first last : ℕ) (reason : Str) (gaps : List Gap)
    → (covers q gaps || within q first last) ≡ true
    → covers q (gap gaps first last reason) ≡ true
unfolding gap
gap-covers q first last reason gaps h = elim (Bool-cases (ltb last first)) [
  | inl void ↦ rw (gap, void) (ground (arith, h, void))
  | inr real ↦ elim (Option-cases (merge_last first last reason gaps)) [
    | inr (merged, e) ↦
        rw (gap, real, e)
          (merge_last-covers q first last reason gaps merged e h (ground (arith, real)))
    | inl apart ↦
        let g : Gap = record { after_seq = first - 1; through_seq = last; reason = reason } in
        rw (gap, real, apart)
          (bound-covers q (gaps ++ (g ∷ [])) (ground (arith, h, covers-append q gaps g)))
  ]
]

-- A list of at most 128 gaps has at most 128 gaps after a new one.
pub gap-bounded :
    (first last : ℕ) (reason : Str) (gaps : List Gap)
    → length gaps ≤ max_gaps
    → length (gap gaps first last reason) ≤ max_gaps
unfolding gap bound
gap-bounded first last reason gaps few = elim (Bool-cases (ltb last first)) [
  | inl void ↦ rw (gap, void) few
  | inr real ↦ elim (Option-cases (merge_last first last reason gaps)) [
    | inr (merged, e) ↦
        rw (gap, real, e) (omega (arith, few, merge_last-length first last reason gaps merged e))
    | inl apart ↦
        let g : Gap = record { after_seq = first - 1; through_seq = last; reason = reason } in
        let n = length-append gaps (g ∷ []) in
        elim (Bool-cases (ltb max_gaps (length (gaps ++ (g ∷ []))))) [
          | inl many ↦
              rw (gap, real, apart, bound, many)
                (let l = merge_oldest-length (gaps ++ (g ∷ [])) (ground (arith, many)) in
                  omega (arith, l, n, few))
          | inr fine ↦ rw (gap, real, apart, bound, fine) (ground (arith, fine))
        ]
  ]
]
