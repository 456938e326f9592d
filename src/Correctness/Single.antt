-- ===== src/Correctness/Single.antt =====
-- Policies of one group that names known system calls, no two with the same number (filter.go).
use go_seccomp_bpf.Base.{
  ℕ, ◌+◌, ◌≤◌, ◌≡◌, refl, ap, String, false, none, List, [], ◌∷◌, All, length, ==_ne, ok, arith,
}
use go_seccomp_bpf.Bpf.{ByteOrder}
use go_seccomp_bpf.Arch.{Info}
use go_seccomp_bpf.Assembler.{new_program}
use go_seccomp_bpf.Filter.{SyscallWithConditions, assemble_group}
use go_seccomp_bpf.Group.{
  SyscallGroup, without_problems, add_names_with_conditions, to_syscalls_with_conditions,
}
use go_seccomp_bpf.Decision.{Translated}
use go_seccomp_bpf.Decision.Groups.{assemble_translated}
use go_seccomp_bpf.Correctness.Groups.{has_no_names, translate}
use go_seccomp_bpf.Correctness.Verdict.{built}
use go_seccomp_bpf.Correctness.Unconditional.{to_syscalls_with_conditions-IsUnconditional}
use go_seccomp_bpf.Correctness.Distinct.{
  IsNew, AreApart, add_names_new, length-ret, length-assemble_group,
}

-- The group of these names.
abbrev pub group_of : List String → ℕ → SyscallGroup
group_of ns action = record { names = ns; names_with_conditions = []; action = action; arch = none }

group_translates :
    (arch : Info) (ns : List String) (action : ℕ)
    → All (IsNew arch []) ns
    → AreApart arch ns
    → (ss : List SyscallWithConditions) × (to_syscalls_with_conditions arch (group_of ns action)
        ≡ ok ss)
      × (length ss ≡ length ns)
unfolding to_syscalls_with_conditions add_names_with_conditions
group_translates arch ns action w a =
    let (ss, e, size) = add_names_new arch ns [] w a in
    (ss, ap without_problems e, omega (arith, size))

-- The policy translates, and its code has at most two instructions more than names.
pub single_translates :
    (order : ByteOrder) (arch : Info) (ns : List String) (action default : ℕ)
    → All (IsNew arch []) ns
    → AreApart arch ns
    → (ts : List Translated) × (translate arch (group_of ns action ∷ []) ≡ ok ts)
      × (length (built order ts default).instructions ≤ 2 + length ns)
unfolding translate built assemble_translated new_program
single_translates order arch [] action default w a =
    ([], refl, omega (arith, length-ret default new_program))
single_translates order arch (n ∷ ns) action default w a =
    let (ss, e, size) = group_translates arch (n ∷ ns) action w a in
    let some_name : has_no_names (group_of (n ∷ ns) action) ≡ false =
      ==_ne (length (n ∷ ns) + 0) 0 (λ h. absurd (omega (arith, h))) in
    let u = to_syscalls_with_conditions-IsUnconditional arch (group_of (n ∷ ns) action) ss refl e in
    (
      (ss, action) ∷ [],
      rw (some_name, translate) (rw (e, translate) refl),
      omega (
        arith,
        size,
        length-ret default (assemble_group order ss action new_program),
        length-assemble_group order ss action new_program u,
      ),
    )
