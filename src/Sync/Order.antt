-- ===== src/Sync/Order.antt =====
-- The order of texts, which is that of their UTF-8 bytes, and the sorts of src/sync/files.rs.
pub mod Strict
pub mod Outermost
mod Examples
use vivado_server.Base.{
  ℕ, ◌+◌, Str, ◌=s=◌, ltb, ◌==◌, if◌then◌else◌, Bool, true, false, ◌&&◌, ◌||◌, not, List, [], ◌∷◌,
  ◌++◌,
}
use vivado_server.Sync.Paths.{slash}

-- `str::cmp` is `Less`.
unfoldable pub lt_str : Str → Str → Bool
lt_str [] [] = false
lt_str [] (d ∷ t) = true
lt_str (c ∷ s) [] = false
lt_str (c ∷ s) (d ∷ t) = ltb c d || (c == d && lt_str s t)

-- `slice::sort_by`, which is stable, where `less` says that the comparison is `Less`.
module _ {A : Type 0} (less : A → A → Bool) where
  unfoldable pub insert_by : A → List A → List A
  insert_by x [] = x ∷ []
  insert_by x (y ∷ ys) = let rest = insert_by x ys in if less y x then y ∷ rest else x ∷ y ∷ ys

  unfoldable pub sort_by : List A → List A
  unfolding insert_by
  sort_by [] = []
  sort_by (x ∷ xs) = insert_by x (sort_by xs)

-- `Vec::dedup`, which drops an element that equals the one kept before it.
unfoldable pub dedup : List Str → List Str
dedup [] = []
dedup (x ∷ []) = x ∷ []
dedup (x ∷ y ∷ rest) = let kept = dedup (y ∷ rest) in if x =s= y then kept else x ∷ kept

unfoldable pub sort_paths : List Str → List Str
unfolding sort_by dedup
sort_paths paths = dedup (sort_by lt_str paths)

-- `path.matches('/').count()`
unfoldable pub depth : Str → ℕ
depth [] = 0
depth (c ∷ s) = (if c == slash then 1 else 0) + depth s

unfoldable pub lt_deepest : Str → Str → Bool
unfolding depth lt_str
lt_deepest left right =
    ltb (depth right) (depth left) || (depth right == depth left && lt_str left right)

unfoldable pub sort_paths_deepest_first : List Str → List Str
unfolding sort_by dedup lt_deepest
sort_paths_deepest_first paths = dedup (sort_by lt_deepest paths)

-- `path.starts_with(&prefix)`
unfoldable pub starts_with : Str → Str → Bool
starts_with [] path = true
starts_with (c ∷ prefix) [] = false
starts_with (c ∷ prefix) (d ∷ path) = c == d && starts_with prefix path

-- The path is below the directory.
abbrev pub is_below : Str → Str → Bool
is_below path directory = starts_with (directory ++ (slash ∷ [])) path
