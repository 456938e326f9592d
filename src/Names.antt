-- ===== src/Names.antt =====
-- filter.go: the texts of actions and operations in a configuration.
pub mod Correct
use Prim.Native.Char.{Char}
use go_seccomp_bpf.Base.{
  ℕ, Option, none, some, ◌++◌, bit_and, bit_xor, String, List, [], ◌∷◌, str_eq, ◌==◌, if◌then◌else◌,
  Result, ok, err, invalid_action, invalid_operation,
}
use go_seccomp_bpf.Constants.{filter_flag_tsync, filter_flag_log}
use go_seccomp_bpf.Arch.{name_of}
use go_seccomp_bpf.Text.Search.{join}
use go_seccomp_bpf.Text.{to_lower}
use go_seccomp_bpf.Filter.{
  Operation, equal, not_equal, greater_than, less_than, greater_or_equal, less_or_equal, bits_set,
  bits_not_set, other,
}
use go_seccomp_bpf.Policy.{action_names}

-- The loop of `Action.Unpack` over the map of names.
unfoldable pub find_action : String → List (ℕ × String) → Result ℕ
find_action s [] = err (invalid_action s)
find_action s ((action, name) ∷ m) = if str_eq name s then ok action else find_action s m

-- `Action.Unpack`, whose result is the new value of the receiver.
unfoldable pub unpack_action : (unicode_lower : Char → Char) → String → Result ℕ
unfolding find_action
unpack_action lower s = find_action (to_lower lower s) action_names

unfoldable pub name_in : ℕ → List (ℕ × String) → String
name_in action [] = "unknown"
name_in action ((a, name) ∷ m) = if a == action then name else name_in action m

-- `Action.String`
unfoldable pub action_string : ℕ → String
unfolding name_in
action_string action = name_in action action_names

-- The string that a constant of type Operation is.
unfoldable pub operation_text : Operation → String
operation_text equal = "Equal"
operation_text not_equal = "NotEqual"
operation_text greater_than = "GreaterThan"
operation_text less_than = "LessThan"
operation_text greater_or_equal = "GreaterOrEqual"
operation_text less_or_equal = "LessOrEqual"
operation_text bits_set = "BitsSet"
operation_text bits_not_set = "BitsNotSet"
operation_text (other name) = name

-- `Operations`
abbrev pub operations : List Operation
operations =
    equal ∷ not_equal ∷ greater_than ∷ less_than ∷ greater_or_equal ∷ less_or_equal ∷ bits_set
    ∷ bits_not_set ∷ []

-- The loop of `Operation.Unpack`, for a string in lower case.
unfoldable pub find_operation : (Char → Char) → String → List Operation → Result Operation
unfolding operation_text
find_operation lower s [] = err (invalid_operation s)
find_operation lower s (op ∷ ops) =
    if str_eq (to_lower lower (operation_text op)) s then ok op else find_operation lower s ops

-- `Operation.Unpack`, whose result is the new value of the receiver.
unfoldable pub unpack_operation : (unicode_lower : Char → Char) → String → Result Operation
unfolding find_operation
unpack_operation lower s = find_operation lower (to_lower lower s) operations

-- The map `filterFlagNames`.
abbrev pub filter_flag_names : List (ℕ × String)
filter_flag_names = (filter_flag_tsync, "tsync") ∷ (filter_flag_log, "log") ∷ []

-- The loop of `FilterFlag.String` over the map: the bits that are left, and the names.
unfoldable pub flag_list : ℕ → List (ℕ × String) → ℕ × List String
flag_list f [] = (f, [])
flag_list f ((flag, name) ∷ m) =
    let without = flag_list f m in
    let (rest, names) = flag_list (bit_xor f flag) m in
    if bit_and f flag == 0 then without else (rest, name ∷ names)

abbrev with_unknown : ℕ × List String → String
with_unknown (rest, names) = join (if rest == 0 then names else names ++ "unknown" ∷ []) "|"

-- `FilterFlag.String`; `order` is the order in which Go ranges over the map.
unfoldable pub flag_string : (order : List (ℕ × String) → List (ℕ × String)) → ℕ → String
unfolding flag_list join name_of
flag_string order f = elim (name_of f filter_flag_names) [
  | some name ↦ name
  | none ↦ with_unknown (flag_list f (order filter_flag_names))
]
