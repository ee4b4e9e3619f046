-- ===== src/Auth/Examples.antt =====
-- src/auth.rs: the checks on single headers.
use mathlib.Core.Logic.{◌↔◌}
use vivado_server.Base.{
  ◌≡◌, refl, Str, codes, ◌=s=◌, =s=_eq, =s=_self, subst, true, Option, some, [], ◌∷◌,
}
use vivado_server.Error.{ok}
use vivado_server.Auth.{
  bearer_token, eq_ignore_ascii_case, split_once, trim_start_matches, token_digests, require_auth,
}
use vivado_server.Auth.Bearer.{Carries, bearer_token_iff}
use vivado_server.Auth.Access.{IsAuthorized, require_auth_iff}

bearer_test : bearer_token (codes "bEARER  s3cret ") ≡ some (codes "s3cret ")
unfolding bearer_token eq_ignore_ascii_case split_once trim_start_matches ◌=s=◌
bearer_test = refl

bearer_token_iff_example :
    (bearer_token (codes "Bearer s3cret") ≡ some (codes "s3cret"))
    ↔ Carries (codes "Bearer s3cret") (codes "s3cret")
bearer_token_iff_example = bearer_token_iff (codes "Bearer s3cret") (codes "s3cret")

-- A hash that is the text itself, and headers that are texts.
abbrev same_text : (a b : Str) → ((a =s= b) ≡ true) ↔ (a ≡ b)
same_text a b = (=s=_eq a b, λ e. subst (λ x. (a =s= x) ≡ true) e (=s=_self a))

abbrev plain : Str → Str
plain s = s

abbrev readable : Str → Option Str
readable s = some s

require_auth_iff_example :
    (require_auth plain ◌=s=◌ readable
        (token_digests plain ◌=s=◌ (codes "s3cret" ∷ []))
        (codes "Bearer s3cret" ∷ [])
      ≡ ok tt)
    ↔ IsAuthorized plain readable (codes "s3cret" ∷ []) (codes "Bearer s3cret" ∷ [])
require_auth_iff_example =
    require_auth_iff plain ◌=s=◌ same_text readable (codes "s3cret" ∷ [])
      (codes "Bearer s3cret" ∷ [])
