-- ===== src/Policy.antt =====
-- filter.go: a policy, and its assembly into BPF instructions.
use Prim.Native.Char.{Char}
use go_seccomp_bpf.Base.{
  ℕ, ◌+◌, ◌%◌, ◌^◌, String, Bool, true, false, Option, none, some, List, [], ◌∷◌, ◌++◌, ◌==◌, leb,
  if◌then◌else◌, is_empty, length, bit_or, to_u8, Result, ok, err, invalid_default_action,
  no_syscalls, ◌>>=◌,
}
use go_seccomp_bpf.Constants.{
  action_kill_thread, action_kill_process, action_trap, action_errno, action_trace, action_log,
  action_allow, errno_enosys,
}
use go_seccomp_bpf.Bpf.{
  ByteOrder, Instruction, load_absolute, jump_if, jump, ret_constant, jump_equal, jump_not_equal,
  jump_greater_or_equal,
}
use go_seccomp_bpf.Arch.{Info, get_info, x32_syscall_mask, audit_arch_x86_64}
use go_seccomp_bpf.Assembler.{Program, new_program, ret, size_of_u32}
use go_seccomp_bpf.Resolver.{assemble}
use go_seccomp_bpf.Group.{SyscallGroup, assemble_syscall_group}

pub record Policy : Type 0 where
  pub default_action : ℕ
  pub syscalls : List SyscallGroup
  pub arch : Option Info

abbrev pub syscall_num_offset : ℕ
syscall_num_offset = 0

abbrev pub arch_offset : ℕ
arch_offset = 4

-- The map `actionNames`.
abbrev pub action_names : List (ℕ × String)
action_names =
    (action_kill_thread, "kill_thread")
    ∷ (action_kill_process, "kill_process")
    ∷ (action_trap, "trap")
    ∷ (action_errno, "errno")
    ∷ (action_trace, "trace")
    ∷ (action_log, "log")
    ∷ (action_allow, "allow")
    ∷ []

unfoldable pub is_named_action : ℕ → List (ℕ × String) → Bool
is_named_action action [] = false
is_named_action action ((a, name) ∷ m) = if a == action then true else is_named_action action m

-- `Policy.Validate`
unfoldable pub validate : Policy → Result (Unit {0})
validate p =
    if is_named_action p.default_action action_names
    then (if is_empty p.syscalls then err no_syscalls else ok tt)
    else err (invalid_default_action p.default_action)

-- The architecture of a group, or the policy's.
abbrev pub arch_or : Info → Option Info → Info
arch_or arch none = arch
arch_or arch (some own) = own

-- The loop of `Policy.Assemble` over the groups.
unfoldable pub assemble_groups : ByteOrder → Info → List SyscallGroup → Program → Result Program
assemble_groups order arch [] p = ok p
assemble_groups order arch (g ∷ gs) p =
    assemble_syscall_group order (arch_or arch g.arch) g p >>= assemble_groups order arch gs

-- The filter against the x32 interface, on x86_64 only.
unfoldable pub x32_filter : Info → List Instruction
x32_filter arch =
    if arch.id == audit_arch_x86_64
    then jump_if jump_greater_or_equal x32_syscall_mask 0 1
      ∷ ret_constant (bit_or action_errno errno_enosys)
      ∷ []
    else []

-- The check of the architecture: where it is another one, the program goes to its last instruction.
unfoldable pub arch_check : Info → ℕ → List Instruction
arch_check arch jump_n =
    if leb jump_n 255
    then jump_if jump_not_equal arch.id (to_u8 jump_n) 0 ∷ []
    else jump_if jump_equal arch.id 1 0 ∷ jump (jump_n % 2 ^ 32) ∷ []

unfoldable pub with_header : Info → List Instruction → List Instruction
with_header arch instructions =
    load_absolute arch_offset size_of_u32
    ∷ (arch_check arch (length (x32_filter arch) + length instructions)
        ++ load_absolute syscall_num_offset size_of_u32 ∷ (x32_filter arch ++ instructions))

-- `Policy.Assemble` once the architecture is set.
unfoldable pub assemble_for : ByteOrder → Info → Policy → Result (List Instruction)
assemble_for order arch p = do
  prog ← assemble_groups order arch p.syscalls new_program
  instructions ← assemble (ret p.default_action prog)
  ok (with_header arch instructions)

abbrev pub arch_of : (unicode_lower : Char → Char) → (goarch : String) → Policy → Result Info
arch_of unicode_lower goarch p = elim p.arch [
  | none ↦ get_info unicode_lower goarch ""
  | some arch ↦ ok arch
]

-- `Policy.Assemble`
unfoldable pub assemble_policy :
    (unicode_lower : Char → Char)
    → (goarch : String) → ByteOrder
    → Policy
    → Result (List Instruction)
assemble_policy unicode_lower goarch order p = do
  valid ← validate p
  arch ← arch_of unicode_lower goarch p
  assemble_for order arch p
