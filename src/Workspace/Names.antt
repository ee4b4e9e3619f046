-- ===== src/Workspace/Names.antt =====
-- src/workspace.rs: what the validated names are.
use mathlib.Core.Bool.{true≢false}
use vivado_server.Base.{
  ℕ, ◌≤◌, ◌≡◌, ◌≢◌, ◌↔◌, refl, sym, ap, ◌∙◌, Str, len, ◌=s=◌, =s=_eq, =s=_self, any, all,
  Bool-cases, true, false, ◌⊎◌, inl, inr, [], ◌∷◌, arith,
}
use vivado_server.Error.{ok}
use vivado_server.Workspace.{
  dot, dot_dot, internal_dir, is_empty, is_reserved, validate_portable_segment, is_project_char,
  is_ascii_alphanumeric, validate_project_name,
}

project_char_range :
    (ch : ℕ)
    → is_project_char ch ≡ true
    → ((b'-' ≤ ch) × (ch ≤ b'.'))
      ⊎ ((b'0' ≤ ch) × (ch ≤ b'9'))
      ⊎ ((b'A' ≤ ch) × (ch ≤ b'Z'))
      ⊎ ((b'_' ≤ ch) × (ch ≤ b'z'))
unfolding is_project_char is_ascii_alphanumeric
project_char_range ch h = ground arith

project_char-is_reserved : (ch : ℕ) → is_project_char ch ≡ true → is_reserved ch ≡ false
unfolding is_reserved
project_char-is_reserved ch h = ground (arith, project_char_range ch h)

all_project-any_reserved : (s : Str) → all is_project_char s ≡ true → any is_reserved s ≡ false
all_project-any_reserved [] h = refl
all_project-any_reserved (c ∷ s) h =
    ground (arith, project_char-is_reserved c, all_project-any_reserved s)

neq_of_test : (s t : Str) → (s =s= t) ≡ false → s ≢ t
neq_of_test s t h e = true≢false (sym (=s=_self s) ∙ ap (λ x. s =s= x) e ∙ h)

pub test_of_neq : (s t : Str) → s ≢ t → (s =s= t) ≡ false
test_of_neq s t n = elim (Bool-cases (s =s= t)) [
  | inl same ↦ absurd (n (=s=_eq s t same))
  | inr other ↦ other
]

nonempty_of_test : (s : Str) → is_empty s ≡ false → s ≢ []
unfolding is_empty
nonempty_of_test [] h e = absurd (true≢false h)
nonempty_of_test (c ∷ s) h e = cc

pub test_of_nonempty : (s : Str) → s ≢ [] → is_empty s ≡ false
unfolding is_empty
test_of_nonempty [] n = absurd (n refl)
test_of_nonempty (c ∷ s) n = refl

-- What may stand between two slashes of a path.
pub record IsPortable (segment : Str) : Type 0 where
  pub nonempty : segment ≢ []
  pub not_dot : segment ≢ dot
  pub not_dot_dot : segment ≢ dot_dot
  pub not_internal : segment ≢ internal_dir
  pub short : len segment ≤ 255
  pub plain : any is_reserved segment ≡ false

pub validate_portable_segment_iff :
    (segment : Str) → (validate_portable_segment segment ≡ true) ↔ IsPortable segment
unfolding validate_portable_segment
validate_portable_segment_iff segment = (accepted, valid)
  where
    accepted : validate_portable_segment segment ≡ true → IsPortable segment
    accepted h = record {
      nonempty = nonempty_of_test segment (ground arith);
      not_dot = neq_of_test segment dot (ground arith);
      not_dot_dot = neq_of_test segment dot_dot (ground arith);
      not_internal = neq_of_test segment internal_dir (ground arith);
      short = ground arith;
      plain = ground arith;
    }

    valid : IsPortable segment → validate_portable_segment segment ≡ true
    valid v = ground (
      arith,
      test_of_nonempty segment v.nonempty,
      test_of_neq segment dot v.not_dot,
      test_of_neq segment dot_dot v.not_dot_dot,
      test_of_neq segment internal_dir v.not_internal,
    )

-- What a project may be called.
pub record IsProjectName (project : Str) : Type 0 where
  pub nonempty : project ≢ []
  pub short : len project ≤ 64
  pub plain : all is_project_char project ≡ true
  pub not_dot : project ≢ dot
  pub not_dot_dot : project ≢ dot_dot
  pub not_internal : project ≢ internal_dir

-- A name is accepted exactly if it has 1 to 64 bytes, is made of ASCII letters, digits, dashes,
-- dots and underscores, and is none of `.`, `..` and the server's own directory. The checks for a
-- portable segment add nothing else.
pub validate_project_name_iff :
    (project : Str) → (validate_project_name project ≡ ok tt) ↔ IsProjectName project
unfolding validate_project_name
validate_project_name_iff project = (accepted, valid)
  where
    accepted : validate_project_name project ≡ ok tt → IsProjectName project
    accepted h =
        let portable = (validate_portable_segment_iff project).0 (ground arith) in
        record {
          nonempty = portable.nonempty;
          short = ground arith;
          plain = ground arith;
          not_dot = portable.not_dot;
          not_dot_dot = portable.not_dot_dot;
          not_internal = portable.not_internal;
        }

    valid : IsProjectName project → validate_project_name project ≡ ok tt
    valid v = ground (
      arith,
      test_of_nonempty project v.nonempty,
      test_of_neq project dot v.not_dot,
      test_of_neq project dot_dot v.not_dot_dot,
      (validate_portable_segment_iff project).1 (record {
        nonempty = v.nonempty;
        not_dot = v.not_dot;
        not_dot_dot = v.not_dot_dot;
        not_internal = v.not_internal;
        short = omega arith;
        plain = all_project-any_reserved project v.plain;
      }),
    )
