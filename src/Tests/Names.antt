-- ===== src/Tests/Names.antt =====
-- The theorems about the texts of filter.go at concrete texts.
use Prim.Native.Char.{Char}
use go_seccomp_bpf.Base.{true}
use go_seccomp_bpf.Base.{◌≡◌, refl, ok}
use go_seccomp_bpf.Constants.{action_kill_process, action_errno}
use go_seccomp_bpf.Filter.{greater_than}
use go_seccomp_bpf.Policy.{is_named_action}
use go_seccomp_bpf.Text.{to_lower}
use go_seccomp_bpf.Names.{
  find_action, unpack_action, action_string, operation_text, find_operation, unpack_operation,
}
use go_seccomp_bpf.Names.Correct.{
  unpack_action-action_string, unpack_action_lem, unpack_operation_lem,
  unpack_operation-operation_text,
}
use go_seccomp_bpf.Policy.{action_names}
use go_seccomp_bpf.Decision.{IsKnown}

abbrev same_char : Char → Char
same_char c = c

unpack_action-action_string_example :
    unpack_action same_char (action_string action_errno) ≡ ok action_errno
unfolding is_named_action
unpack_action-action_string_example = unpack_action-action_string same_char action_errno refl

unpack_action_lem_example :
    (is_named_action action_kill_process action_names ≡ true)
    × (action_string action_kill_process ≡ to_lower same_char "Kill_Process")
unfolding unpack_action find_action to_lower
unpack_action_lem_example = unpack_action_lem same_char "Kill_Process" action_kill_process refl

unpack_operation_lem_example :
    IsKnown greater_than
    × (to_lower same_char (operation_text greater_than) ≡ to_lower same_char "greaterTHAN")
unfolding unpack_operation find_operation operation_text to_lower
unpack_operation_lem_example = unpack_operation_lem same_char "greaterTHAN" greater_than refl

unpack_operation-operation_text_example : unpack_operation same_char "greaterTHAN" ≡ ok greater_than
unfolding operation_text to_lower
unpack_operation-operation_text_example =
    unpack_operation-operation_text same_char greater_than "greaterTHAN" tt refl
