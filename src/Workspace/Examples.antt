-- ===== src/Workspace/Examples.antt =====
-- src/workspace.rs: the name checks on single names.
use vivado_server.Base.{◌≡◌, refl, codes, ◌=s=◌, true, false}
use mathlib.Core.Logic.{◌↔◌}
use vivado_server.Error.{ok}
use vivado_server.Workspace.{
  validate_portable_segment, validate_project_name, is_reserved, is_project_char, is_empty,
  is_ascii_alphanumeric,
}
use vivado_server.Workspace.Names.{
  IsPortable, IsProjectName, validate_portable_segment_iff, validate_project_name_iff,
}

accepted_test : validate_project_name (codes "uart_rx-2") ≡ ok tt
unfolding validate_project_name validate_portable_segment is_project_char is_reserved is_empty ◌=s=◌
    is_ascii_alphanumeric
accepted_test = refl

hidden_test : validate_portable_segment (codes "..") ≡ false
unfolding validate_portable_segment is_reserved is_empty ◌=s=◌
hidden_test = refl

validate_portable_segment_iff_example :
    (validate_portable_segment (codes "a b") ≡ true) ↔ IsPortable (codes "a b")
validate_portable_segment_iff_example = validate_portable_segment_iff (codes "a b")

validate_project_name_iff_example :
    (validate_project_name (codes "uart_rx-2") ≡ ok tt) ↔ IsProjectName (codes "uart_rx-2")
validate_project_name_iff_example = validate_project_name_iff (codes "uart_rx-2")
