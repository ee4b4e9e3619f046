-- ===== src/History.antt =====
-- src/history.rs: the list of gaps, which tells a collector which sequence numbers were lost.
pub mod Gaps
pub mod Chunks
pub mod Journal
pub mod Pages
mod Examples
use vivado_server.Base.{
  ℕ, ◌+◌, ◌-◌, Str, codes, ◌=s=◌, ltb, leb, if◌then◌else◌, length, Bool, true, false, ◌&&◌, Option,
  none, some, List, [], ◌∷◌, ◌++◌, word_mod,
}

pub record Gap : Type 0 where
  pub after_seq : ℕ
  pub through_seq : ℕ
  pub reason : Str

-- `u64::min` and `u64::max`
abbrev pub smaller : ℕ → ℕ → ℕ
smaller a b = if leb a b then a else b

abbrev pub larger : ℕ → ℕ → ℕ
larger a b = if leb a b then b else a

-- `u64::saturating_add`; the subtraction of the model stops at 0, like `saturating_sub`.
abbrev pub saturating_add : ℕ → ℕ → ℕ
saturating_add a b = smaller (a + b) (word_mod - 1)

abbrev pub max_gaps : ℕ
max_gaps = 128

unfoldable pub absorbs : Gap → ℕ → Str → Bool
absorbs previous first reason =
    previous.reason =s= reason && leb first (saturating_add previous.through_seq 1)

unfoldable pub widen : Gap → ℕ → ℕ → Gap
widen previous first last = record previous {
  after_seq = smaller previous.after_seq (first - 1);
  through_seq = larger previous.through_seq last;
}

-- The last gap takes in the new one, if it can.
unfoldable pub merge_last : ℕ → ℕ → Str → List Gap → Option (List Gap)
merge_last first last reason [] = none
merge_last first last reason (previous ∷ []) =
    if absorbs previous first reason then some (widen previous first last ∷ []) else none
merge_last first last reason (g ∷ h ∷ rest) = elim (merge_last first last reason (h ∷ rest)) [
  | none ↦ none
  | some merged ↦ some (g ∷ merged)
]

-- The two oldest gaps become one.
unfoldable pub merge_oldest : List Gap → List Gap
merge_oldest [] = []
merge_oldest (a ∷ []) = a ∷ []
merge_oldest (a ∷ b ∷ rest) =
    record {
      after_seq = smaller a.after_seq b.after_seq;
      through_seq = larger a.through_seq b.through_seq;
      reason = codes "older_history_gaps";
    }
    ∷ rest

unfoldable pub bound : List Gap → List Gap
bound gaps = if ltb max_gaps (length gaps) then merge_oldest gaps else gaps

unfoldable pub gap : List Gap → ℕ → ℕ → Str → List Gap
gap gaps first last reason =
    if ltb last first then gaps else elim (merge_last first last reason gaps) [
      | some merged ↦ merged
      | none ↦
          bound
            (gaps ++ (record { after_seq = first - 1; through_seq = last; reason = reason } ∷ []))
    ]
