-- ===== src/Decision.antt =====
-- What the code of a policy computes: for each construct of filter.go, the tests that it makes on the
-- accumulator and on the arguments, in order. `t` and `f` say how it goes on where the construct
-- matches and where it does not, given what the accumulator holds then.
pub mod Operations
pub mod Conditions
pub mod Syscalls
pub mod Groups
use go_seccomp_bpf.Base.{
  ℕ, ◌/◌, ◌%◌, ◌^◌, ◌≤◌, ◌<◌, ◌≡◌, Bool, false, Option, some, List, [], ◌∷◌, All, if◌then◌else◌,
  ◌==◌, is_empty,
}
use go_seccomp_bpf.Bpf.{
  SeccompData, holds, jump_equal, jump_not_equal, jump_greater_than, jump_less_than,
  jump_greater_or_equal, jump_less_or_equal, jump_bits_set, jump_bits_not_set,
}
use go_seccomp_bpf.Assembler.{ret_value}
use go_seccomp_bpf.Filter.{
  Operation, equal, not_equal, greater_than, less_than, greater_or_equal, less_or_equal, bits_set,
  bits_not_set, other, Condition, ArgumentConditions, SyscallWithConditions, hi_value, lo_value,
}

module _ {ℓ} {A : Type ℓ} where
  -- One of the eight operations, on the words `x` of an argument and `v` of the value.
  abbrev pub check_operation : Operation → (x_hi x_lo v_hi v_lo : ℕ) → (t f : ℕ → A) → A
  check_operation equal xh xl vh vl t f =
      if holds jump_not_equal xh vh then f xh else (if holds jump_equal xl vl then t xl else f xl)
  check_operation not_equal xh xl vh vl t f =
      if holds jump_not_equal xh vh
      then t xh
      else (if holds jump_not_equal xl vl then t xl else f xl)
  check_operation greater_than xh xl vh vl t f =
      if holds jump_greater_than xh vh
      then t xh
      else (if holds jump_not_equal xh vh
          then f xh
          else (if holds jump_greater_than xl vl then t xl else f xl))
  check_operation greater_or_equal xh xl vh vl t f =
      if holds jump_greater_than xh vh
      then t xh
      else (if holds jump_not_equal xh vh
          then f xh
          else (if holds jump_greater_or_equal xl vl then t xl else f xl))
  check_operation less_than xh xl vh vl t f =
      if holds jump_less_than xh vh
      then t xh
      else (if holds jump_not_equal xh vh
          then f xh
          else (if holds jump_less_than xl vl then t xl else f xl))
  check_operation less_or_equal xh xl vh vl t f =
      if holds jump_less_than xh vh
      then t xh
      else (if holds jump_not_equal xh vh
          then f xh
          else (if holds jump_less_or_equal xl vl then t xl else f xl))
  check_operation bits_set xh xl vh vl t f =
      if holds jump_bits_set xh vh then t xh else (if holds jump_bits_set xl vl then t xl else f xl)
  check_operation bits_not_set xh xl vh vl t f =
      if holds jump_bits_set xh vh
      then f xh
      else (if holds jump_bits_not_set xl vl then t xl else f xl)
  check_operation (other name) xh xl vh vl t f = f xh

  unfoldable pub check_condition : SeccompData → Condition → (t f : ℕ → A) → A
  check_condition d c t f =
      check_operation c.operation (d.args c.argument / 2 ^ 32) (d.args c.argument % 2 ^ 32)
        (hi_value c) (lo_value c) t f

  unfoldable pub check_arguments : SeccompData → ArgumentConditions → (t f : ℕ → A) → ℕ → A
  check_arguments d [] t f a = t a
  check_arguments d (c ∷ cs) t f a = check_condition d c (check_arguments d cs t f) f

  unfoldable pub check_sets : SeccompData → List ArgumentConditions → (t f : ℕ → A) → ℕ → A
  check_sets d [] t f a = f a
  check_sets d (s ∷ ss) t f a = check_arguments d s t (check_sets d ss t f) a

  unfoldable pub check_syscall : SeccompData → SyscallWithConditions → (t f : ℕ → A) → ℕ → A
  check_syscall d s t f a =
      if is_empty s.conditions
      then (if a == s.num then t a else f a)
      else (if a == s.num then check_sets d s.conditions t f a else f a)

  unfoldable pub check_syscalls : SeccompData → List SyscallWithConditions → (t f : ℕ → A) → ℕ → A
  check_syscalls d [] t f a = f a
  check_syscalls d (s ∷ ss) t f a = check_syscall d s t (check_syscalls d ss t f) a

-- A group with its action, its system calls as `toSyscallsWithConditions` gives them.
abbrev pub Translated : Type 0
Translated = List SyscallWithConditions × ℕ

unfoldable pub check_groups : SeccompData → List Translated → ℕ → ℕ → Option ℕ
check_groups d [] default a = some (ret_value default)
check_groups d ((ss, action) ∷ gs) default a =
    check_syscalls d ss (λ _. some (ret_value action)) (check_groups d gs default) a

-- What `Validate` and the decoding of a configuration leave: the argument is one of six, the operation
-- one of the eight, and the value a uint64.
abbrev pub IsKnown : Operation → Type 0
IsKnown (other name) = ⊥
IsKnown _ = Unit

pub record IsWellFormed (c : Condition) : Type 0 where
  pub in_range : c.argument ≤ 5
  pub known : IsKnown c.operation
  pub is_u64 : c.value < 2 ^ 64

abbrev pub IsNonempty {ℓ} : {A : Type ℓ} → List A → Type 0
IsNonempty xs = is_empty xs ≡ false

-- A set of conditions that is not empty.
pub record IsProperSet (s : ArgumentConditions) : Type 0 where
  pub nonempty : IsNonempty s
  pub conditions : All IsWellFormed s

abbrev pub IsProper : SyscallWithConditions → Type 0
IsProper s = All IsProperSet s.conditions
