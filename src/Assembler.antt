-- ===== src/Assembler.antt =====
-- assembler.go: a program with symbolic jump targets, and the operations that build it.
-- A slice is a list; the map from labels to positions is a function, empty where no key is. A method
-- that mutates `*Program` returns the new program.
use go_seccomp_bpf.Base.{
  ℕ, suc, ◌+◌, ◌*◌, ◌%◌, ◌^◌, Option, none, some, List, [], ◌∷◌, ◌++◌, ◌==◌, if◌then◌else◌, length,
  bit_or,
}
use go_seccomp_bpf.Constants.{action_errno, errno_eperm}
use go_seccomp_bpf.Bpf.{
  JumpTest, Instruction, load_absolute, jump_if, ret_constant, ByteOrder, little_endian, big_endian,
}

abbrev pub argument_offset : ℕ
argument_offset = 16

abbrev pub size_of_u32 : ℕ
size_of_u32 = 4

abbrev pub size_of_u64 : ℕ
size_of_u64 = 8

-- The order of the host's bytes, from how the two bytes of 0xABCD lie in memory; `none` is the
-- panic of `init`.
unfoldable pub native_endian : ℕ → ℕ → Option ByteOrder
native_endian b0 b1 =
    if b0 == 0xCD
    then (if b1 == 0xAB then some little_endian else none)
    else (if b0 == 0xAB then (if b1 == 0xCD then some big_endian else none) else none)

abbrev pub Label : Type 0
Label = ℕ

abbrev pub Index : Type 0
Index = ℕ

-- The target labels of the conditional jump at an index.
pub record JumpIf : Type 0 where
  pub index : Index
  pub true_label : Label
  pub false_label : Label

pub record Program : Type 0 where
  pub instructions : List Instruction
  pub jumps : List JumpIf
  pub labels : Label → List Index
  pub next_label : Label

unfoldable pub new_program : Program
new_program = record { instructions = []; jumps = []; labels = λ l. []; next_label = 1 }

unfoldable pub current_index : Program → Index
current_index p = length p.instructions

-- The map `labels` with `labels[label] = dest`.
abbrev pub update : (Label → List Index) → Label → List Index → Label → List Index
update labels label dest l = if l == label then dest else labels l

unfoldable pub new_label : Program → Program × Label
new_label p = (record p { next_label = suc p.next_label }, suc p.next_label)

unfoldable pub set_label : Label → Program → Program
unfolding current_index
set_label label p = record p {
  labels = update p.labels label (p.labels label ++ current_index p ∷ []);
}

unfoldable pub jmp_if : JumpTest → ℕ → Label → Label → Program → Program
unfolding current_index
jmp_if cond val true_label false_label p = record p {
  jumps =
      p.jumps
      ++ record { index = current_index p; true_label = true_label; false_label = false_label }
        ∷ [];
  instructions = p.instructions ++ jump_if cond val 0 0 ∷ [];
}

unfoldable pub jmp_if_true : JumpTest → ℕ → Label → Program → Program
unfolding new_label jmp_if set_label
jmp_if_true cond val true_label p =
    let (p1, next_inst) = new_label p in
    set_label next_inst (jmp_if cond val true_label next_inst p1)

-- The append of one instruction that is no conditional jump.
unfoldable pub emit : Instruction → Program → Program
emit inst p = record p { instructions = p.instructions ++ inst ∷ [] }

-- `ActionErrno` gets the error number EPERM.
unfoldable pub ret_value : ℕ → ℕ
ret_value action = if action == action_errno then bit_or action errno_eperm else action

unfoldable pub ret : ℕ → Program → Program
unfolding emit ret_value
ret action p = emit (ret_constant (ret_value action)) p

unfoldable pub ld_hi : ByteOrder → ℕ → Program → Program
unfolding emit
ld_hi little_endian arg p =
    emit
      (load_absolute (((argument_offset + size_of_u64 * arg) % 2 ^ 32 + size_of_u32) % 2 ^ 32)
        size_of_u32)
      p
ld_hi big_endian arg p =
    emit (load_absolute ((argument_offset + size_of_u64 * arg) % 2 ^ 32) size_of_u32) p

unfoldable pub ld_lo : ByteOrder → ℕ → Program → Program
unfolding emit
ld_lo little_endian arg p =
    emit (load_absolute ((argument_offset + size_of_u64 * arg) % 2 ^ 32) size_of_u32) p
ld_lo big_endian arg p =
    emit
      (load_absolute (((argument_offset + size_of_u64 * arg) % 2 ^ 32 + size_of_u32) % 2 ^ 32)
        size_of_u32)
      p
