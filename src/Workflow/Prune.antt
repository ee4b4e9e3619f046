-- ===== src/Workflow/Prune.antt =====
-- src/workflow.rs: how the registry forgets the workflows that have ended.
pub mod Bounds
pub mod Order
mod Examples
use vivado_server.Base.{
  ℕ, zero, suc, ◌-◌, leb, ltb, ◌==◌, if◌then◌else◌, length, any, Bool, true, false, Option, none,
  some, List, [], ◌∷◌,
}
use vivado_server.Base.Maps.{remove, retain, get_elem?}
use vivado_server.Workflow.Model.{Workflow}
use vivado_server.Workflow.Registry.{Manager}
use vivado_server.Workflow.Cleanup.{elapsed}

unfoldable pub ended_of : Option Workflow → Option ℕ
ended_of none = none
ended_of (some w) = w.ended

abbrev pub within : ℕ → ℕ → Option ℕ → Bool
within retention now none = true
within retention now (some ended) = ltb (elapsed now ended) retention

-- An entry is retained until it has been over for the retention time.
unfoldable pub is_retained : ℕ → ℕ → List Workflow → ℕ → ℕ → Bool
unfolding ended_of
is_retained retention now objects id h = within retention now (ended_of (get_elem? objects h))

-- The IDs that are over, with the instant at which they ended.
unfoldable pub ended_list : List Workflow → List (ℕ × ℕ) → List (ℕ × ℕ)
ended_list objects [] = []
ended_list objects ((id, h) ∷ entries) =
    let rest = ended_list objects entries in
    elim (ended_of (get_elem? objects h)) [ none ↦ rest | some ended ↦ (id, ended) ∷ rest ]

-- `sort_by_key`, which is stable.
abbrev pub insert_sorted : (ℕ × ℕ) → List (ℕ × ℕ) → List (ℕ × ℕ)
insert_sorted x [] = x ∷ []
insert_sorted x (y ∷ ys) =
    let rest = insert_sorted x ys in if leb x.1 y.1 then x ∷ y ∷ ys else y ∷ rest

abbrev pub sort_by_key : List (ℕ × ℕ) → List (ℕ × ℕ)
sort_by_key [] = []
sort_by_key (x ∷ xs) = insert_sorted x (sort_by_key xs)

abbrev pub take : ℕ → List (ℕ × ℕ) → List (ℕ × ℕ)
take zero xs = []
take (suc n) [] = []
take (suc n) (x ∷ xs) = x ∷ take n xs

abbrev pub remove_keys : List (ℕ × ℕ) → List (ℕ × ℕ) → List (ℕ × ℕ)
remove_keys [] entries = entries
remove_keys ((id, ended) ∷ rest) entries = remove_keys rest (remove id entries)

-- The workflows that ended first go, as far as there are too many.
unfoldable pub forget : ℕ → List Workflow → List (ℕ × ℕ) → List (ℕ × ℕ)
forget most objects entries =
    let over = sort_by_key (ended_list objects entries) in
    remove_keys (take (length over - most) over) entries

unfoldable pub prune : ℕ → ℕ → Manager → Manager
prune retention most m = record m {
  entries = forget most m.objects (retain (is_retained retention m.now m.objects) m.entries);
}
