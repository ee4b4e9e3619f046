-- ===== src/Auth/Access.antt =====
-- src/auth.rs: which requests go on.
use mathlib.Core.Logic.{◌↔◌}
use vivado_server.Base.{
  ◌≡◌, refl, Str, Bool, true, false, Bool-cases, Option, Option-cases, some, inl, inr, List, [],
  ◌∷◌, map, arith,
}
use vivado_server.Error.{Result, ok, err, unauthorized}
use vivado_server.Auth.{
  bearer_token, token_digests, matched, is_allowed, check_token, check_value, require_auth,
}
use vivado_server.Auth.Bearer.{Carries, bearer_token_iff}

pub data Among {D : Type 0} (x : D) : List D → Type 0 where
  first : (rest : List D) → Among x (x ∷ rest)
  later : (other : D) (rest : List D) → Among x rest → Among x (other ∷ rest)

-- A request with one header, which is a text and carries a token with the hash of a known one.
pub record IsAuthorized {D H : Type 0} (digest : Str → D) (to_str : H → Option Str)
    (tokens : List Str) (values : List H) : Type 0 where
  pub value : H
  pub header : Str
  pub token : Str
  pub single : values ≡ value ∷ []
  pub readable : to_str value ≡ some header
  pub carried : Carries header token
  pub known : Among (digest token) (map digest tokens)

err-ne-ok : ¬ (◌≡◌ {A = Result (Unit {0})} (err unauthorized) (ok tt))
err-ne-ok e = ground (arith, e)

module _ {D : Type 0} (digest : Str → D) (ct_eq : D → D → Bool)
    (compares : (a b : D) → (ct_eq a b ≡ true) ↔ (a ≡ b)) where
  matched_found : (candidate : D) (ds : List D) → matched digest ct_eq true candidate ds ≡ true
  matched_found candidate [] = refl
  matched_found candidate (d ∷ ds) = matched_found candidate ds

  -- The fold over all digests is a search for the candidate.
  matched_iff :
      (candidate : D) (ds : List D)
      → (matched digest ct_eq false candidate ds ≡ true) ↔ Among candidate ds
  matched_iff candidate ds = (found ds, seen ds)
    where
      found : (ds : List D) → matched digest ct_eq false candidate ds ≡ true → Among candidate ds
      found [] h = ground arith
      found (d ∷ ds) h = elim (Bool-cases (ct_eq d candidate)) [
        | inl same ↦ rw ((compares d candidate).0 same) (first ds)
        | inr other ↦ later d ds (found ds (rw (matched, other) at h))
      ]

      seen : (ds : List D) → Among candidate ds → matched digest ct_eq false candidate ds ≡ true
      seen _ (first rest) =
          rw (matched, (compares candidate candidate).1 refl) (matched_found candidate rest)
      seen _ (later other rest among) = elim (Bool-cases (ct_eq other candidate)) [
        | inl same ↦ rw (matched, same) (matched_found candidate rest)
        | inr differs ↦ rw (matched, differs) (seen rest among)
      ]

  module _ {H : Type 0} (to_str : H → Option Str) where
    accepted :
        (tokens : List Str) (values : List H)
        → require_auth digest ct_eq to_str (token_digests digest ct_eq tokens) values ≡ ok tt
        → IsAuthorized digest to_str tokens values
    unfolding require_auth check_value check_token is_allowed token_digests
    accepted tokens [] h = ground arith
    accepted tokens (value ∷ second ∷ more) h = ground arith
    accepted tokens (value ∷ []) h = elim (Option-cases (to_str value)) [
      | inl garbled ↦ absurd (err-ne-ok (rw (require_auth, check_value, garbled) at h))
      | inr (header, readable) ↦ elim (Option-cases (bearer_token header)) [
        | inl bare ↦ absurd (err-ne-ok (rw (require_auth, check_value, readable, bare) at h))
        | inr (token, e) ↦
            elim (Bool-cases (matched digest ct_eq false (digest token) (map digest tokens))) [
              | inl found ↦ record {
                value = value;
                header = header;
                token = token;
                single = refl;
                readable = readable;
                carried = (bearer_token_iff header token).0 e;
                known = (matched_iff (digest token) (map digest tokens)).0 found;
              }
              | inr missing ↦ absurd (
                  err-ne-ok (
                    rw
                      (
                        require_auth, check_value, readable, e, check_token, is_allowed,
                        token_digests, missing,
                      )
                      at h))
            ]
      ]
    ]

    authorized :
        (tokens : List Str) (values : List H)
        → IsAuthorized digest to_str tokens values
        → require_auth digest ct_eq to_str (token_digests digest ct_eq tokens) values ≡ ok tt
    unfolding require_auth check_value check_token is_allowed token_digests
    authorized tokens values v =
        let e = (bearer_token_iff v.header v.token).1 v.carried in
        let found = (matched_iff (digest v.token) (map digest tokens)).1 v.known in
        rw (v.single, v.readable, e, found) refl

    -- Where the comparison of hashes is equality, a request goes on exactly if it has a single
    -- authorization header, which is a text and carries a bearer token whose hash is that of a
    -- configured token.
    pub require_auth_iff :
        (tokens : List Str) (values : List H)
        → (require_auth digest ct_eq to_str (token_digests digest ct_eq tokens) values ≡ ok tt)
          ↔ IsAuthorized digest to_str tokens values
    require_auth_iff tokens values = (accepted tokens values, authorized tokens values)
