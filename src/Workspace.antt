-- ===== src/Workspace.antt =====
-- src/workspace.rs: which names may stand in a path, and the names of projects.
pub mod Names
mod Examples
use vivado_server.Base.{
  ℕ, ◌+◌, Str, codes, len, ◌=s=◌, ltb, leb, ◌==◌, if◌then◌else◌, any, all, Bool, true, false, ◌||◌,
  ◌&&◌, not, List, [], ◌∷◌,
}
use vivado_server.Error.{Result, ok, err, invalid_project}

abbrev pub internal_dir : Str
internal_dir = codes ".vivado-server"

abbrev pub dot : Str
dot = codes "."

abbrev pub dot_dot : Str
dot_dot = codes ".."

unfoldable pub is_empty : Str → Bool
is_empty [] = true
is_empty (c ∷ s) = false

-- The characters `< > " | ? * : / \`.
abbrev pub reserved_chars : Str
reserved_chars = codes "<>\"|?*:/\\"

unfoldable pub is_reserved : ℕ → Bool
is_reserved ch = leb ch 0x1f || ch == 0x7f || any (λ r. r == ch) reserved_chars

unfoldable pub validate_portable_segment : Str → Bool
validate_portable_segment segment =
    if is_empty segment
      || (segment =s= dot || segment =s= dot_dot || segment =s= internal_dir)
      || ltb 255 (len segment)
      || any is_reserved segment
    then false
    else true

-- `char::is_ascii_alphanumeric`
unfoldable pub is_ascii_alphanumeric : ℕ → Bool
is_ascii_alphanumeric ch =
    (leb b'0' ch && leb ch b'9') || (leb b'A' ch && leb ch b'Z') || (leb b'a' ch && leb ch b'z')

unfoldable pub is_project_char : ℕ → Bool
is_project_char ch = is_ascii_alphanumeric ch || ch == b'_' || ch == b'-' || ch == b'.'

unfoldable pub validate_project_name : Str → Result (Unit {0})
validate_project_name project =
    if is_empty project
      || project =s= dot
      || project =s= dot_dot
      || ltb 64 (len project)
      || not (validate_portable_segment project)
      || not (all is_project_char project)
    then err invalid_project
    else ok tt
