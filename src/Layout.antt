-- ===== src/Layout.antt =====
-- Well-formed programs (assembler.go): every jump goes forward, to a label that is set once or that is
-- still open, and no jump is useless. Each operation that builds a program keeps this.
pub mod Operations
pub mod Labels
pub mod Filters
use go_seccomp_bpf.Base.{
  ℕ, zero, suc, ◌≤◌, ◌<◌, ◌≡◌, ◌⊎◌, some, List, [], ◌∷◌, length, get_elem?, All, In,
}
use go_seccomp_bpf.Bpf.{JumpTest, Instruction, jump_if}
use go_seccomp_bpf.Assembler.{Label, Index, JumpIf, Program}

-- A label is open, or it is set once, behind instruction `i` and not behind the end.
abbrev pub HasEnd : (Label → List Index) → (len : ℕ) → (o : List Label) → ℕ → Label → Type 0
HasEnd labels len o i l = In l o ⊎ ((k : ℕ) × (labels l ≡ k ∷ []) × (i < k) × (k ≤ len))

-- A label is open, or it is set behind the instruction that follows `i`.
abbrev pub IsFar : (Label → List Index) → (o : List Label) → ℕ → Label → Type 0
IsFar labels o i l = In l o ⊎ ((k : ℕ) × (labels l ≡ k ∷ []) × (suc i < k))

pub record IsGood (labels : Label → List Index) (instructions : List Instruction) (o : List Label)
    (j : JumpIf) : Type 0 where
  pub inside : j.index < length instructions
  pub branch : (c : JumpTest) × (k : ℕ) × (get_elem? instructions j.index ≡ some (jump_if c k 0 0))
  pub true_end : HasEnd labels (length instructions) o j.index j.true_label
  pub false_end : HasEnd labels (length instructions) o j.index j.false_label
  pub useful : IsFar labels o j.index j.true_label ⊎ IsFar labels o j.index j.false_label

-- The indices rise from `lo` on.
abbrev pub IsIncreasing : ℕ → List JumpIf → Type 0
IsIncreasing lo [] = Unit
IsIncreasing lo (j ∷ js) = (lo ≤ j.index) × IsIncreasing (suc j.index) js

-- `o` are the labels that jumps may name and that are not set yet.
pub record IsLaidOut (o : List Label) (p : Program) : Type 0 where
  pub fresh : (l : Label) → p.next_label < l → p.labels l ≡ []
  pub single : (l : Label) → (p.labels l ≡ []) ⊎ ((k : ℕ) × (p.labels l ≡ k ∷ []))
  pub opens : All (λ l. (l ≤ p.next_label) × (p.labels l ≡ [])) o
  pub jumps : All (IsGood p.labels p.instructions o) p.jumps
  pub increasing : IsIncreasing 0 p.jumps

-- The last instruction, if it is a jump, has a label of `o`: any other label may be set now.
abbrev pub HasTail : List Label → Program → Type 0
HasTail o p =
    All (λ j. (suc j.index < length p.instructions) ⊎ In j.true_label o ⊎ In j.false_label o)
      p.jumps
