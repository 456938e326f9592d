-- ===== src/Bpf.antt =====
-- The part of golang.org/x/net/bpf and of the kernel that the assembler relies on: the instruction
-- values that assembler.go and filter.go build, and what the kernel documents of running them.
pub mod Simulator
use go_seccomp_bpf.Base.{
  ℕ, ◌+◌, ◌*◌, ◌/◌, ◌%◌, ◌^◌, ◌≤◌, ◌<◌, suc, ◌≡◌, Bool, true, false, not, Option, some, List, ◌∷◌,
  ltb, leb, ◌==◌, if◌then◌else◌, drop, bit_and,
}

-- bpf.JumpTest
pub data JumpTest : Type 0 where
  jump_equal jump_not_equal jump_greater_than jump_less_than : JumpTest
  jump_greater_or_equal jump_less_or_equal jump_bits_set jump_bits_not_set : JumpTest

-- The four implementations of bpf.Instruction that the package builds, with their fields.
pub data Instruction : Type 0 where
  load_absolute : (off size : ℕ) → Instruction
  jump_if : (cond : JumpTest) (val skip_true skip_false : ℕ) → Instruction
  jump : (skip : ℕ) → Instruction
  ret_constant : (val : ℕ) → Instruction

-- The documented meaning of each test, of the accumulator against the constant.
abbrev pub holds : JumpTest → ℕ → ℕ → Bool
holds jump_equal a k = a == k
holds jump_not_equal a k = not (a == k)
holds jump_greater_than a k = ltb k a
holds jump_less_than a k = ltb a k
holds jump_greater_or_equal a k = leb k a
holds jump_less_or_equal a k = leb a k
holds jump_bits_set a k = not (bit_and a k == 0)
holds jump_bits_not_set a k = bit_and a k == 0

-- What the kernel knows of a system call: struct seccomp_data, its arguments as 64-bit words.
pub record SeccompData : Type 0 where
  pub nr : ℕ
  pub arch : ℕ
  pub args : ℕ → ℕ

pub data ByteOrder : Type 0 where
  little_endian big_endian : ByteOrder

-- The offsets of the two halves of argument `i` in struct seccomp_data.
abbrev pub hi_offset : ByteOrder → ℕ → ℕ
hi_offset little_endian i = 16 + 8 * i + 4
hi_offset big_endian i = 16 + 8 * i

abbrev pub lo_offset : ByteOrder → ℕ → ℕ
lo_offset little_endian i = 16 + 8 * i
lo_offset big_endian i = 16 + 8 * i + 4

-- A classic BPF machine as the kernel runs it on a filter: `exec` is given the instructions that
-- are left, the accumulator and the data, and is `none` where the filter is not acceptable.
-- Jumps are forward, and their distance counts from the instruction behind the jump.
pub record Kernel (order : ByteOrder) : Type 0 where
  pub exec : List Instruction → ℕ → SeccompData → Option ℕ
  pub exec-ret :
      (k : ℕ) (code : List Instruction) (a : ℕ) (d : SeccompData)
      → exec (ret_constant k ∷ code) a d ≡ some k
  pub exec-jump :
      (n : ℕ) (code : List Instruction) (a : ℕ) (d : SeccompData)
      → exec (jump n ∷ code) a d ≡ exec (drop n code) a d
  pub exec-jump_if :
      (c : JumpTest) (k t f : ℕ) (code : List Instruction) (a : ℕ) (d : SeccompData)
      → exec (jump_if c k t f ∷ code) a d ≡ exec (drop (if holds c a k then t else f) code) a d
  pub exec-load_nr :
      (code : List Instruction) (a : ℕ) (d : SeccompData)
      → exec (load_absolute 0 4 ∷ code) a d ≡ exec code d.nr d
  pub exec-load_arch :
      (code : List Instruction) (a : ℕ) (d : SeccompData)
      → exec (load_absolute 4 4 ∷ code) a d ≡ exec code d.arch d
  pub exec-load_hi :
      (i : ℕ) (code : List Instruction) (a : ℕ) (d : SeccompData)
      → i ≤ 5
      → exec (load_absolute (hi_offset order i) 4 ∷ code) a d ≡ exec code (d.args i / 2 ^ 32) d
  pub exec-load_lo :
      (i : ℕ) (code : List Instruction) (a : ℕ) (d : SeccompData)
      → i ≤ 5
      → exec (load_absolute (lo_offset order i) 4 ∷ code) a d ≡ exec code (d.args i % 2 ^ 32) d
