-- ===== src/Group.antt =====
-- filter.go: a group of system calls by name, and its translation to numbers and conditions.
use go_seccomp_bpf.Base.{
  ℕ, ◌+◌, ◌%◌, ◌^◌, String, Option, none, some, List, [], ◌∷◌, ◌++◌, ltb, ◌==◌, if◌then◌else◌,
  is_empty, length, bit_or, Problem, duplicate_syscall, unknown_syscall, invalid_argument,
  conditional_and_unconditional, Result, ok, err, problems, ◌>>=◌,
}
use go_seccomp_bpf.Bpf.{ByteOrder}
use go_seccomp_bpf.Arch.{Info, number_of}
use go_seccomp_bpf.Assembler.{Program}
use go_seccomp_bpf.Filter.{ArgumentConditions, SyscallWithConditions, assemble_group}

pub record NameWithConditions : Type 0 where
  pub name : String
  pub conditions : ArgumentConditions

-- `arch` is nil where the policy's is to be used.
pub record SyscallGroup : Type 0 where
  pub names : List String
  pub names_with_conditions : List NameWithConditions
  pub action : ℕ
  pub arch : Option Info

-- `ArgumentConditions.Validate`. An argument is a uint32, so that it is never below 0.
unfoldable pub validate_conditions : ArgumentConditions → List Problem
validate_conditions [] = []
validate_conditions (c ∷ cs) =
    let rest = validate_conditions cs in
    if ltb 5 c.argument then invalid_argument c.argument ∷ rest else rest

-- The first entry with the number, which the pointer of `getSyscall` points to.
unfoldable pub get_syscall : List SyscallWithConditions → ℕ → Option SyscallWithConditions
get_syscall [] num = none
get_syscall (s ∷ ss) num = if s.num == num then some s else get_syscall ss num

-- The append to `check.Conditions` through that pointer.
unfoldable pub append_conditions :
    List SyscallWithConditions → ℕ → ArgumentConditions → List SyscallWithConditions
append_conditions [] num cs = []
append_conditions (s ∷ ss) num cs =
    if s.num == num
    then record s { conditions = s.conditions ++ cs ∷ [] } ∷ ss
    else s ∷ append_conditions ss num cs

-- `uint32(num | g.arch.SeccompMask)`
unfoldable pub masked : Info → ℕ → ℕ
masked arch num = bit_or num arch.seccomp_mask % 2 ^ 32

-- The system calls and the problems found so far.
abbrev pub Found : Type 0
Found = List SyscallWithConditions × List Problem

abbrev pub problem : Problem → Found → Found
problem e (ss, es) = (ss, es ++ e ∷ [])

abbrev pub unconditional : ℕ → SyscallWithConditions
unconditional num = record { num = num; conditions = [] }

-- The body of the first loop, for a name and its number.
unfoldable pub add_number : String → ℕ → Found → Found
add_number name num (ss, es) = elim (get_syscall ss num) [
  | none ↦ (ss ++ unconditional num ∷ [], es)
  | some s ↦ (ss, es ++ duplicate_syscall name ∷ [])
]

unfoldable pub add_name : Info → String → Found → Found
add_name arch name found = elim (number_of name arch.syscall_names) [
  | none ↦ problem (unknown_syscall arch.name name) found
  | some num ↦ add_number name (masked arch num) found
]

unfoldable pub add_names : Info → List String → Found → Found
add_names arch [] found = found
add_names arch (name ∷ names) found = add_names arch names (add_name arch name found)

-- The second loop's body behind `Validate`, for the number and what `getSyscall` found.
unfoldable pub add_conditional : NameWithConditions → ℕ → Found → Found
add_conditional nc num (ss, es) = elim (get_syscall ss num) [
  | none ↦ (ss ++ record { num = num; conditions = nc.conditions ∷ [] } ∷ [], es)
  | some s ↦
      if is_empty s.conditions
      then (ss, es ++ conditional_and_unconditional nc.name ∷ [])
      else (append_conditions ss num nc.conditions, es)
]

abbrev pub validated : NameWithConditions → ℕ → List Problem → Found → Found
validated nc num invalid (ss, es) =
    if is_empty invalid then add_conditional nc num (ss, es) else (ss, es ++ invalid)

unfoldable pub add_name_with_conditions : Info → NameWithConditions → Found → Found
add_name_with_conditions arch nc found = elim (number_of nc.name arch.syscall_names) [
  | none ↦ problem (unknown_syscall arch.name nc.name) found
  | some num ↦ validated nc (masked arch num) (validate_conditions nc.conditions) found
]

unfoldable pub add_names_with_conditions : Info → List NameWithConditions → Found → Found
add_names_with_conditions arch [] found = found
add_names_with_conditions arch (nc ∷ ncs) found =
    add_names_with_conditions arch ncs (add_name_with_conditions arch nc found)

abbrev pub without_problems : Found → Result (List SyscallWithConditions)
without_problems (ss, es) = if is_empty es then ok ss else err (problems es)

unfoldable pub to_syscalls_with_conditions :
    Info → SyscallGroup → Result (List SyscallWithConditions)
to_syscalls_with_conditions arch g =
    without_problems
      (add_names_with_conditions arch g.names_with_conditions (add_names arch g.names ([], [])))

-- `SyscallGroup.Assemble`, of a group whose architecture is set. An empty group is skipped.
unfoldable pub assemble_syscall_group : ByteOrder → Info → SyscallGroup → Program → Result Program
assemble_syscall_group order arch g p =
    if length g.names + length g.names_with_conditions == 0
    then ok p
    else (to_syscalls_with_conditions arch g >>= λ syscalls.
        ok (assemble_group order syscalls g.action p))
