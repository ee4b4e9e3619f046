-- ===== src/Sync/Paths.antt =====
-- src/sync/files.rs: the wire paths of files. A path is a text with `/` between its segments.
pub mod Segments
pub mod Normalize
pub mod Parents
mod Examples
use vivado_server.Base.{
  ℕ, zero, suc, ◌+◌, Str, codes, len, ◌=s=◌, ltb, ◌==◌, if◌then◌else◌, any, all, length, Bool, true,
  false, ◌||◌, not, Option, none, some, List, [], ◌∷◌, ◌++◌, reverse,
}
use vivado_server.Error.{Result, ok, err, bad_request, text, ◌>>=◌, ◌>>◌, guard}
use vivado_server.Workspace.{internal_dir, dot, dot_dot, is_empty, validate_portable_segment}

abbrev pub slash : ℕ
slash = b'/'

abbrev backslash : ℕ
backslash = 0x5c

abbrev colon : ℕ
colon = b':'

prepend : ℕ → List Str → List Str
prepend c [] = (c ∷ []) ∷ []
prepend c (segment ∷ rest) = (c ∷ segment) ∷ rest

-- `str::split('/')`
unfoldable pub split : Str → List Str
unfolding prepend
split [] = [] ∷ []
split (c ∷ s) = let rest = split s in if c == slash then [] ∷ rest else prepend c rest

-- `[&str]::join("/")`
unfoldable pub join : List Str → Str
join [] = []
join (segment ∷ []) = segment
join (segment ∷ next ∷ rest) = segment ++ (slash ∷ join (next ∷ rest))

-- `str::contains` and `str::starts_with`, for a character.
unfoldable pub contains_char : ℕ → Str → Bool
contains_char c = any (λ d. d == c)

unfoldable pub starts_with_char : ℕ → Str → Bool
starts_with_char c [] = false
starts_with_char c (d ∷ s) = d == c

unfoldable pub is_internal_path : Str → Bool
is_internal_path path = any (λ part. part =s= internal_dir) (split path)

-- The loop over the segments.
unfoldable pub check_parts : List Str → Result (List Str)
check_parts [] = ok []
check_parts (part ∷ rest) =
    if is_empty part || part =s= dot || part =s= dot_dot || not (validate_portable_segment part)
    then err (bad_request (text "invalid sync path"))
    else (check_parts rest >>= λ parts. ok (part ∷ parts))

unfoldable pub normalize_sync_path_allow_internal : Str → Result Str
normalize_sync_path_allow_internal raw =
    if is_empty raw
      || ltb 4096 (len raw)
      || raw =s= dot
      || raw =s= dot_dot
      || starts_with_char slash raw
      || starts_with_char backslash raw
      || contains_char backslash raw
      || contains_char colon raw
      || contains_char 0 raw
    then err (bad_request (text "invalid sync path"))
    else (check_parts (split raw) >>= λ parts. ok (join parts))

unfoldable pub normalize_sync_path : Str → Result Str
normalize_sync_path raw = do
  normalized ← normalize_sync_path_allow_internal raw
  guard (not (is_internal_path normalized)) (bad_request (text "internal sync path is reserved"))
  ok normalized

-- `str::rsplit_once('/')`: what stands before the last slash.
unfoldable pub rsplit_once : Str → Option Str
rsplit_once [] = none
rsplit_once (c ∷ s) = elim (rsplit_once s) [
  | some parent ↦ some (c ∷ parent)
  | none ↦ if c == slash then some [] else none
]

-- The loop of `parent_paths`, nearest parent first.
unfoldable pub parents_from : ℕ → Str → List Str
parents_from zero current = []
parents_from (suc fuel) current = elim (rsplit_once current) [
  | none ↦ []
  | some parent ↦ parent ∷ parents_from fuel parent
]

-- The parents of a path, the outermost first. A parent is shorter than its path, so that the
-- path's length is fuel enough.
unfoldable pub parent_paths : Str → List Str
parent_paths path = reverse (parents_from (length path) path)
