-- ===== src/Sync/Order/Outermost.antt =====
-- src/sync/files.rs: the order in which the lists of a plan are carried out.
use vivado_server.Base.{
  ◌<◌, ◌≡◌, refl, ◌∙◌, Str, ◌=s=◌, true, ◌&&◌, not, Bool-cases, inl, inr, List, [], ◌∷◌, arith,
}
use vivado_server.Sync.Order.{
  lt_str, sort_by, depth, lt_deepest, sort_paths, sort_paths_deepest_first, starts_with, is_below,
}
use vivado_server.Sync.Order.Strict.{
  sort_by-Weak, contains_path, lt_deepest_self, lt_deepest_trans, lt_deepest_connected, Pairwise,
  any-sort_by, contains-dedup, IsTotal, total_asym, total-IsWeakOrder, dedup-strict, different,
  all_pairs, lt_str-IsTotal, lt_str-IsWeakOrder,
}

lt_deepest-IsTotal : IsTotal lt_deepest
lt_deepest-IsTotal = record {
  self = lt_deepest_self;
  trans = lt_deepest_trans;
  connected = lt_deepest_connected;
}

below-later :
    (path directory : Str)
    → is_below path directory ≡ true
    → (lt_str directory path ≡ true) × (depth directory < depth path)
unfolding starts_with lt_str depth
below-later [] [] h = absurd (ground arith)
below-later (d ∷ path) [] h = (refl, ground arith)
below-later [] (c ∷ directory) h = absurd (ground arith)
below-later (d ∷ path) (c ∷ directory) h =
    let (less, deeper) = below-later path directory (ground arith) in (ground arith, ground arith)

outermost_first : (x y : Str) → lt_str x y ≡ true → (not (x =s= y) && not (is_below x y)) ≡ true
outermost_first x y h = elim (Bool-cases (is_below x y)) [
  | inl below ↦
      absurd (ground (arith, below-later x y below, total_asym lt_str lt_str-IsTotal x y h))
  | inr free ↦ ground (arith, free, different lt_str lt_str-IsTotal x y h)
]

deepest_first : (x y : Str) → lt_deepest x y ≡ true → (not (x =s= y) && not (is_below y x)) ≡ true
unfolding lt_deepest
deepest_first x y h = elim (Bool-cases (is_below y x)) [
  | inl below ↦ absurd (ground (arith, below-later y x below))
  | inr free ↦ ground (arith, free, different lt_deepest lt_deepest-IsTotal x y h)
]

-- The lists of a plan hold the paths that were pushed, each once, and can be executed in order: of
-- the directories to delete none comes before one below it, of the paths to create and the files
-- to delete none comes after one below it.
pub plan_order :
    (paths : List Str)
    → ((p : Str) → contains_path p (sort_paths paths) ≡ contains_path p paths)
      × Pairwise (λ x y. not (x =s= y) && not (is_below x y)) (sort_paths paths)
      × ((p : Str) → contains_path p (sort_paths_deepest_first paths) ≡ contains_path p paths)
      × Pairwise (λ x y. not (x =s= y) && not (is_below y x)) (sort_paths_deepest_first paths)
unfolding sort_paths sort_paths_deepest_first
plan_order paths = (
  λ p. contains-dedup p (sort_by lt_str paths) ∙ any-sort_by lt_str (λ q. q =s= p) paths,
  all_pairs lt_str lt_str-IsTotal _ outermost_first _
      (dedup-strict lt_str lt_str-IsTotal _ (sort_by-Weak lt_str lt_str-IsWeakOrder paths)),
  λ p. contains-dedup p (sort_by lt_deepest paths) ∙ any-sort_by lt_deepest (λ q. q =s= p) paths,
  all_pairs lt_deepest lt_deepest-IsTotal _ deepest_first _ (
      dedup-strict lt_deepest lt_deepest-IsTotal _
        (sort_by-Weak lt_deepest (total-IsWeakOrder lt_deepest lt_deepest-IsTotal) paths)),
)
