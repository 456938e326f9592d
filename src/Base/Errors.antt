-- ===== src/Base/Errors.antt =====
-- The `(value, error)` returns of the Go code, and its panics.
use Prim.Native.Nat.{ℕ}
use Prim.Native.String.{String}
use mathlib.Core.List.{List}

-- A line of the error that `toSyscallsWithConditions` joins from its problems.
pub data Problem : Type 0 where
  duplicate_syscall : String → Problem
  unknown_syscall : String → String → Problem
  invalid_argument : ℕ → Problem
  conditional_and_unconditional : String → Problem

-- The errors that the package returns, by the message; `panic` is an index out of range or a
-- failed type assertion.
pub data Error : Type 0 where
  invalid_default_action : ℕ → Error
  no_syscalls : Error
  unsupported_arch : String → Error
  problems : List Problem → Error
  backward_jump useless_jump panic : Error
  invalid_action invalid_operation : String → Error

pub data Result {ℓ} (A : Type ℓ) : Type ℓ where
  ok : A → Result A
  err : Error → Result A

infixl 1 ◌>>=◌
abbrev pub ◌>>=◌ {ℓ κ} : {A : Type ℓ} {B : Type κ} → Result A → (A → Result B) → Result B
ok a >>= f = f a
err e >>= f = err e
