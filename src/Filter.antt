-- ===== src/Filter.antt =====
-- filter.go: the configuration of a filter, and the code that a group of system calls becomes.
use go_seccomp_bpf.Base.{
  ℕ, ◌/◌, ◌%◌, ◌^◌, String, Bool, not, List, [], ◌∷◌, if◌then◌else◌, is_empty,
}
use go_seccomp_bpf.Bpf.{
  ByteOrder, jump_equal, jump_not_equal, jump_greater_than, jump_less_than, jump_greater_or_equal,
  jump_less_or_equal, jump_bits_set, jump_bits_not_set,
}
use go_seccomp_bpf.Assembler.{
  Label, Program, new_label, set_label, jmp_if, jmp_if_true, ret, ld_hi, ld_lo,
}

-- `other` stands for any string that is none of the eight constants.
pub data Operation : Type 0 where
  equal not_equal greater_than less_than greater_or_equal less_or_equal : Operation
  bits_set bits_not_set : Operation
  other : String → Operation

pub record Condition : Type 0 where
  pub argument : ℕ
  pub operation : Operation
  pub value : ℕ

abbrev pub ArgumentConditions : Type 0
ArgumentConditions = List Condition

pub record SyscallWithConditions : Type 0 where
  pub num : ℕ
  pub conditions : List ArgumentConditions

-- A new label if `more`, else the given one.
unfoldable pub next_label : Program → Bool → Label → Program × Label
next_label p more end = if more then new_label p else (p, end)

-- `uint32(c.Value >> 32)` and `uint32(c.Value)`
abbrev pub hi_value : Condition → ℕ
hi_value c = c.value / 2 ^ 32 % 2 ^ 32

abbrev pub lo_value : Condition → ℕ
lo_value c = c.value % 2 ^ 32

-- The comparisons of one condition, behind the load of the high word: the `switch` of
-- `SyscallWithConditions.Assemble`. An operation that is none of the constants emits none.
unfoldable pub assemble_operation :
    ByteOrder
    → Operation
    → (arg hi lo : ℕ) → (next_argument next_condition : Label) → Program
    → Program
assemble_operation order equal arg hi lo t f p =
    jmp_if jump_equal lo t f (ld_lo order arg (jmp_if_true jump_not_equal hi f p))
assemble_operation order not_equal arg hi lo t f p =
    jmp_if jump_not_equal lo t f (ld_lo order arg (jmp_if_true jump_not_equal hi t p))
assemble_operation order greater_than arg hi lo t f p =
    jmp_if jump_greater_than lo t f
      (ld_lo order arg (jmp_if_true jump_not_equal hi f (jmp_if_true jump_greater_than hi t p)))
assemble_operation order greater_or_equal arg hi lo t f p =
    jmp_if jump_greater_or_equal lo t f
      (ld_lo order arg (jmp_if_true jump_not_equal hi f (jmp_if_true jump_greater_than hi t p)))
assemble_operation order less_than arg hi lo t f p =
    jmp_if jump_less_than lo t f
      (ld_lo order arg (jmp_if_true jump_not_equal hi f (jmp_if_true jump_less_than hi t p)))
assemble_operation order less_or_equal arg hi lo t f p =
    jmp_if jump_less_or_equal lo t f
      (ld_lo order arg (jmp_if_true jump_not_equal hi f (jmp_if_true jump_less_than hi t p)))
assemble_operation order bits_set arg hi lo t f p =
    jmp_if jump_bits_set lo t f (ld_lo order arg (jmp_if_true jump_bits_set hi t p))
assemble_operation order bits_not_set arg hi lo t f p =
    jmp_if jump_bits_not_set lo t f (ld_lo order arg (jmp_if_true jump_bits_set hi f p))
assemble_operation order (other name) arg hi lo t f p = p

unfoldable pub assemble_condition : ByteOrder → Condition → Label → Label → Program → Program
assemble_condition order c next_argument next_condition p =
    assemble_operation order c.operation c.argument (hi_value c) (lo_value c) next_argument
      next_condition (ld_hi order c.argument p)

-- The label, if it was made for the next part.
abbrev pub set_if : Bool → Label → Program → Program
set_if more label p = if more then set_label label p else p

-- All conditions of a set must match. `more` is whether any follow, `i < len(conditions)-1`.
unfoldable pub assemble_arguments :
    ByteOrder → ArgumentConditions → (action next_condition : Label) → Program → Program
assemble_arguments order [] action next_condition p = p
assemble_arguments order (c ∷ cs) action next_condition p =
    let more = not (is_empty cs) in
    let (p1, next_argument) = next_label p more action in
    assemble_arguments order cs action next_condition
      (set_if more next_argument (assemble_condition order c next_argument next_condition p1))

-- One set of conditions must match.
unfoldable pub assemble_sets :
    ByteOrder → List ArgumentConditions → (action next_syscall : Label) → Program → Program
assemble_sets order [] action next_syscall p = p
assemble_sets order (s ∷ ss) action next_syscall p =
    let more = not (is_empty ss) in
    let (p1, next_condition) = next_label p more next_syscall in
    assemble_sets order ss action next_syscall
      (set_if more next_condition (assemble_arguments order s action next_condition p1))

-- SyscallWithConditions.Assemble
unfoldable pub assemble_conditional :
    ByteOrder → SyscallWithConditions → Bool → (action end : Label) → Program → Program
assemble_conditional order s more action end p =
    let (p1, next_syscall) = next_label p more end in
    set_if more next_syscall (
      assemble_sets order s.conditions action next_syscall
        (jmp_if_true jump_not_equal s.num next_syscall p1))

unfoldable pub assemble_syscall :
    ByteOrder → SyscallWithConditions → Bool → (action end : Label) → Program → Program
assemble_syscall order s more action end p =
    if is_empty s.conditions
    then (if more
        then jmp_if_true jump_equal s.num action p
        else jmp_if jump_equal s.num action end p)
    else assemble_conditional order s more action end p

-- The loop of `SyscallGroup.Assemble` over the system calls of a group.
unfoldable pub assemble_syscalls :
    ByteOrder → List SyscallWithConditions → (action next_group : Label) → Program → Program
assemble_syscalls order [] action next_group p = p
assemble_syscalls order (s ∷ ss) action next_group p =
    assemble_syscalls order ss action next_group
      (assemble_syscall order s (not (is_empty ss)) action next_group p)

-- `SyscallGroup.Assemble` behind `toSyscallsWithConditions`.
unfoldable pub assemble_group : ByteOrder → List SyscallWithConditions → ℕ → Program → Program
assemble_group order syscalls action p =
    let (p1, action_label) = new_label p in
    let (p2, next_group_label) = new_label p1 in
    set_label next_group_label (
      ret action (
        set_label action_label (assemble_syscalls order syscalls action_label next_group_label p2)))
