-- ===== src/Auth/Bearer.antt =====
-- src/auth.rs: the credentials in a header.
use mathlib.Core.Option.{some-injective, none-ne-some}
use mathlib.Core.Logic.{◌↔◌}
use vivado_server.Base.{
  ℕ, zero, suc, ◌≡◌, refl, sym, ap, ◌∙◌, Str, codes, =s=_eq, =s=_self, ◌==◌, ==_iff, if◌then◌else◌,
  any, Bool, true, false, ◌||◌, Bool-cases, Option-cases, some, inl, inr, [], ◌∷◌, ◌++◌, map, arith,
}
use vivado_server.Auth.{
  space, to_ascii_lowercase, eq_ignore_ascii_case, split_once, trim_start_matches, nonempty,
  bearer_token,
}

abbrev pub spaces : ℕ → Str → Str
spaces zero s = s
spaces (suc n) s = space ∷ spaces n s

-- A text that is there and does not start with a space.
abbrev pub starts_plain : Str → Bool
starts_plain [] = false
starts_plain (c ∷ s) = if c == space then false else true

-- A header that carries a token: the scheme in any case, spaces, and the token as it is.
pub record Carries (value token : Str) : Type 0 where
  pub scheme : Str
  pub gap : ℕ
  pub written : value ≡ scheme ++ (space ∷ spaces gap token)
  pub is_bearer : map to_ascii_lowercase scheme ≡ codes "bearer"
  pub plain : starts_plain token ≡ true

split_once-append :
    (value : Str) (halves : Str × Str)
    → split_once space value ≡ some halves
    → value ≡ halves.0 ++ (space ∷ halves.1)
unfolding split_once
split_once-append [] halves h = absurd (none-ne-some halves h)
split_once-append (c ∷ s) halves h = elim (Bool-cases (c == space)) [
  | inl here ↦
      let found : ([], s) ≡ halves = some-injective ([], s) halves (rw here at h) in
      rw (← found) (ap (λ x. x ∷ s) ((==_iff c space).0 here))
  | inr there ↦ elim (Option-cases (split_once space s)) [
    | inl nowhere ↦ absurd (none-ne-some halves (rw (there, nowhere) at h))
    | inr (later, e) ↦
        let found : (c ∷ later.0, later.1) ≡ halves =
          some-injective (c ∷ later.0, later.1) halves (rw (there, e) at h) in
        rw (← found) (ap (λ x. c ∷ x) (split_once-append s later e))
  ]
]

trim_start_matches-spaces : (s : Str) → (n : ℕ) × (s ≡ spaces n (trim_start_matches space s))
unfolding trim_start_matches
trim_start_matches-spaces [] = (0, refl)
trim_start_matches-spaces (c ∷ s) = elim (Bool-cases (c == space)) [
  | inl blank ↦
      let (n, e) = trim_start_matches-spaces s in
      (suc n, rw blank (ap (λ x. x ∷ s) ((==_iff c space).0 blank) ∙ ap (◌∷◌ space) e))
  | inr other ↦ (0, rw other refl)
]

trim_start_matches-plain :
    (s token : Str)
    → nonempty (trim_start_matches space s) ≡ some token
    → (trim_start_matches space s ≡ token) × (starts_plain token ≡ true)
unfolding trim_start_matches
trim_start_matches-plain [] token h = absurd (none-ne-some token h)
trim_start_matches-plain (c ∷ s) token h = elim (Bool-cases (c == space)) [
  | inl blank ↦ rw blank (trim_start_matches-plain s token (rw blank at h))
  | inr other ↦
      let whole : c ∷ s ≡ token = some-injective (c ∷ s) token (rw other at h) in
      (rw other whole, rw (← whole) (rw other refl))
]

spaces-trim :
    (n : ℕ) (token : Str)
    → starts_plain token ≡ true
    → trim_start_matches space (spaces n token) ≡ token
unfolding trim_start_matches
spaces-trim zero [] h = refl
spaces-trim zero (c ∷ s) h = ground (arith, h)
spaces-trim (suc n) token h = spaces-trim n token h

lower-space : (s : Str) → any (λ c. c == space) (map to_ascii_lowercase s) ≡ any (λ c. c == space) s
lower-space [] = refl
lower-space (c ∷ s) = ground (arith, lower-space s)

apart : (p q : Bool) → (p || q) ≡ false → (p ≡ false) × (q ≡ false)
apart true q h = ground arith
apart false q h = (refl, h)

append-split_once :
    (a b : Str)
    → any (λ c. c == space) a ≡ false
    → split_once space (a ++ (space ∷ b)) ≡ some (a, b)
unfolding split_once
append-split_once [] b h = refl
append-split_once (c ∷ a) b h =
    let (other, rest) = apart (c == space) (any (λ d. d == space) a) h in
    rw (other, append-split_once a b rest) refl

bearer_token-Carries : (value token : Str) → bearer_token value ≡ some token → Carries value token
unfolding bearer_token eq_ignore_ascii_case
bearer_token-Carries value token h = elim (Option-cases (split_once space value)) [
  | inl whole ↦ absurd (none-ne-some token (rw (bearer_token, whole) at h))
  | inr (halves, e) ↦ elim (Bool-cases (eq_ignore_ascii_case halves.0 (codes "Bearer"))) [
    | inr other ↦ absurd (none-ne-some token (rw (bearer_token, e, other) at h))
    | inl bearer ↦
        let (trimmed, plain) =
          trim_start_matches-plain halves.1 token (rw (bearer_token, e, bearer) at h) in
        let (gap, g) = trim_start_matches-spaces halves.1 in
        record {
          scheme = halves.0;
          gap = gap;
          written =
              split_once-append value halves e
              ∙ ap (λ x. halves.0 ++ (space ∷ x)) (g ∙ ap (spaces gap) trimmed);
          is_bearer = =s=_eq (map to_ascii_lowercase halves.0) (codes "bearer") bearer;
          plain = plain;
        }
  ]
]

nonempty-plain : (token : Str) → starts_plain token ≡ true → nonempty token ≡ some token
nonempty-plain [] h = ground arith
nonempty-plain (c ∷ s) h = refl

bearer_token-append :
    (scheme : Str) (gap : ℕ) (token : Str)
    → map to_ascii_lowercase scheme ≡ codes "bearer"
    → starts_plain token ≡ true
    → bearer_token (scheme ++ (space ∷ spaces gap token)) ≡ some token
unfolding bearer_token eq_ignore_ascii_case
bearer_token-append scheme gap token is plain =
    let one_word : any (λ c. c == space) scheme ≡ false = sym (lower-space scheme) ∙ rw is refl in
    let halved = append-split_once scheme (spaces gap token) one_word in
    rw (bearer_token, halved, is, =s=_self (codes "bearer"), spaces-trim gap token plain)
      (nonempty-plain token plain)

Carries-bearer_token : (value token : Str) → Carries value token → bearer_token value ≡ some token
Carries-bearer_token value token v =
    ap bearer_token v.written ∙ bearer_token-append v.scheme v.gap token v.is_bearer v.plain

-- A header value carries a token exactly if it is the scheme `Bearer` in any case, at least one
-- space, and the token unchanged, which is there and does not start with a space.
pub bearer_token_iff : (value token : Str) → (bearer_token value ≡ some token) ↔ Carries value token
bearer_token_iff value token = (bearer_token-Carries value token, Carries-bearer_token value token)
