-- ===== src/Auth.antt =====
-- src/auth.rs: who may send a request. The hash, its comparison in constant time, and the reading
-- of a header as a text belong to other crates, and are parameters.
pub mod Bearer
pub mod Access
mod Examples
use vivado_server.Base.{
  ℕ, ◌+◌, Str, codes, ◌=s=◌, leb, ◌==◌, if◌then◌else◌, Bool, true, false, ◌||◌, ◌&&◌, Option, none,
  some, List, [], ◌∷◌, map,
}
use vivado_server.Error.{Result, ok, err, unauthorized}

abbrev pub space : ℕ
space = 32

-- `u8::to_ascii_lowercase`
abbrev pub to_ascii_lowercase : ℕ → ℕ
to_ascii_lowercase c = if leb 65 c && leb c 90 then c + 32 else c

-- `str::eq_ignore_ascii_case`
unfoldable pub eq_ignore_ascii_case : Str → Str → Bool
eq_ignore_ascii_case a b = map to_ascii_lowercase a =s= map to_ascii_lowercase b

-- `str::split_once`, at a character.
unfoldable pub split_once : ℕ → Str → Option (Str × Str)
split_once at [] = none
split_once at (c ∷ s) =
    let later = split_once at s in
    if c == at
    then some ([], s)
    else elim later [ none ↦ none | some halves ↦ some (c ∷ halves.0, halves.1) ]

-- `str::trim_start_matches`, of a character.
unfoldable pub trim_start_matches : ℕ → Str → Str
trim_start_matches what [] = []
trim_start_matches what (c ∷ s) =
    let rest = trim_start_matches what s in if c == what then rest else c ∷ s

abbrev pub nonempty : Str → Option Str
nonempty [] = none
nonempty (c ∷ s) = some (c ∷ s)

unfoldable pub bearer_token : Str → Option Str
bearer_token value = elim (split_once space value) [
  | none ↦ none
  | some halves ↦
      if eq_ignore_ascii_case halves.0 (codes "Bearer")
      then nonempty (trim_start_matches space halves.1)
      else none
]

module _ {D : Type 0} (digest : Str → D) (ct_eq : D → D → Bool) where
  -- `AuthState::new`
  unfoldable pub token_digests : List Str → List D
  token_digests tokens = map digest tokens

  -- The fold over every digest.
  abbrev pub matched : Bool → D → List D → Bool
  matched found candidate [] = found
  matched found candidate (token ∷ rest) = matched (found || ct_eq token candidate) candidate rest

  unfoldable pub is_allowed : List D → Str → Bool
  is_allowed digests candidate = matched false (digest candidate) digests

  module _ {H : Type 0} (to_str : H → Option Str) where
    unfoldable pub check_token : List D → Option Str → Result (Unit {0})
    check_token digests none = err unauthorized
    check_token digests (some token) = if is_allowed digests token then ok tt else err unauthorized

    unfoldable pub check_value : List D → Option Str → Result (Unit {0})
    check_value digests none = err unauthorized
    check_value digests (some value) = check_token digests (bearer_token value)

    -- The values of the header `Authorization`; on success the request goes on.
    unfoldable pub require_auth : List D → List H → Result (Unit {0})
    require_auth digests [] = err unauthorized
    require_auth digests (value ∷ []) = check_value digests (to_str value)
    require_auth digests (value ∷ second ∷ more) = err unauthorized
