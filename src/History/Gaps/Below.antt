-- ===== src/History/Gaps/Below.antt =====
-- src/history.rs: how far the gaps reach.
use mathlib.Core.Option.{some-injective}
use vivado_server.Base.{
  ℕ, ◌-◌, ◌≤◌, ◌≡◌, Str, ltb, length, true, Bool-cases, Option-cases, some, inl, inr, List, [], ◌∷◌,
  ◌++◌, arith,
}
use vivado_server.History.{Gap, max_gaps, absorbs, widen, merge_last, merge_oldest, bound, gap}
use vivado_server.History.Gaps.{tells, covers}

abbrev pub Below : ℕ → List Gap → Type 0
Below n [] = Unit {0}
Below n (g ∷ gaps) = (g.through_seq ≤ n) × Below n gaps

merge_last-Below :
    (n first last : ℕ) (reason : Str) (gaps merged : List Gap)
    → last ≤ n
    → merge_last first last reason gaps ≡ some merged
    → Below n gaps
    → Below n merged
unfolding merge_last widen
merge_last-Below n first last reason [] merged l e v = ground (arith, e)
merge_last-Below n first last reason (g ∷ []) merged l e (b, v) =
    elim (Bool-cases (absorbs g first reason)) [
      | inr apart ↦ ground (arith, e, apart)
      | inl near ↦
          let m : widen g first last ∷ [] ≡ merged =
            some-injective (widen g first last ∷ []) merged (rw (merge_last, near) at e) in
          rw (← m) (ground (arith, l, b), tt)
    ]
merge_last-Below n first last reason (g ∷ k ∷ rest) merged l e (b, v) =
    elim (Option-cases (merge_last first last reason (k ∷ rest))) [
      | inl none_left ↦ ground (arith, e, none_left)
      | inr (r, f) ↦
          let m : g ∷ r ≡ merged = some-injective (g ∷ r) merged (rw (merge_last, f) at e) in
          rw (← m) (b, merge_last-Below n first last reason (k ∷ rest) r l f v)
    ]

merge_oldest-Below : (n : ℕ) (gaps : List Gap) → Below n gaps → Below n (merge_oldest gaps)
unfolding merge_oldest
merge_oldest-Below n [] v = v
merge_oldest-Below n (a ∷ []) v = v
merge_oldest-Below n (a ∷ b ∷ rest) (h, (k, v)) = (ground (arith, h, k), v)

append-Below :
    (n : ℕ) (gaps : List Gap) (g : Gap)
    → g.through_seq ≤ n
    → Below n gaps
    → Below n (gaps ++ (g ∷ []))
append-Below n [] g l v = (l, tt)
append-Below n (x ∷ gaps) g l (b, v) = (b, append-Below n gaps g l v)

pub gap-Below :
    (n first last : ℕ) (reason : Str) (gaps : List Gap)
    → last ≤ n
    → Below n gaps
    → Below n (gap gaps first last reason)
unfolding gap bound
gap-Below n first last reason gaps l v = elim (Bool-cases (ltb last first)) [
  | inl void ↦ rw (gap, void) v
  | inr real ↦ elim (Option-cases (merge_last first last reason gaps)) [
    | inr (merged, e) ↦ rw (gap, real, e) (merge_last-Below n first last reason gaps merged l e v)
    | inl apart ↦
        let g : Gap = record { after_seq = first - 1; through_seq = last; reason = reason } in
        let w = append-Below n gaps g l v in
        elim (Bool-cases (ltb max_gaps (length (gaps ++ (g ∷ []))))) [
          | inl many ↦
              rw (gap, real, apart, bound, many) (merge_oldest-Below n (gaps ++ (g ∷ [])) w)
          | inr fine ↦ rw (gap, real, apart, bound, fine) w
        ]
  ]
]

-- A larger bound is a bound.
pub Below-raise : (m n : ℕ) (gaps : List Gap) → m ≤ n → Below m gaps → Below n gaps
Below-raise m n [] l v = tt
Below-raise m n (g ∷ gaps) l (b, v) = (omega (arith, l, b), Below-raise m n gaps l v)

-- What a gap tells of is within the bound.
pub covers-Below : (n q : ℕ) (gaps : List Gap) → Below n gaps → covers q gaps ≡ true → q ≤ n
covers-Below n q [] v h = ground (arith, h)
covers-Below n q (g ∷ gaps) (b, v) h = elim (Bool-cases (tells q g)) [
  | inl told ↦ ground (arith, told, b)
  | inr untold ↦ covers-Below n q gaps v (ground (arith, h, untold))
]
