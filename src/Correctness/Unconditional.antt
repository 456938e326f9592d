-- ===== src/Correctness/Unconditional.antt =====
-- Policies that only name system calls (filter.go): no condition can disturb them.
use Prim.Native.Char.{Char}
use go_seccomp_bpf.Base.{
  ℕ, ◌≤◌, ◌≡◌, refl, sym, ◌∙◌, subst, inl, inr, String, true, some, List, [], ◌∷◌, All, length,
  is_empty, Bool-cases, Option-cases, ok, arith, ◌++◌, unknown_syscall, duplicate_syscall,
}
use go_seccomp_bpf.Bpf.{SeccompData, ByteOrder, Kernel, Instruction}
use go_seccomp_bpf.Arch.{Info, number_of}
use go_seccomp_bpf.Assembler.{ret_value}
use go_seccomp_bpf.Layout.Operations.{All-snoc}
use go_seccomp_bpf.Filter.{SyscallWithConditions}
use go_seccomp_bpf.Group.{
  SyscallGroup, Found, problem, unconditional, get_syscall, masked, add_number, add_name, add_names,
  add_names_with_conditions, to_syscalls_with_conditions,
}
use go_seccomp_bpf.Policy.{Policy, validate, arch_of, arch_or, assemble_policy}
use go_seccomp_bpf.Decision.{Translated}
use go_seccomp_bpf.Specification.{entry_matches, IsSettled, AreSettledBeforeLast, IsUndisturbed}
use go_seccomp_bpf.Correctness.Translation.{without_problems_ok}
use go_seccomp_bpf.Correctness.Groups.{has_no_names, translate, translate-cons, translate_skip}
use go_seccomp_bpf.Correctness.Proper.{IsUsableGroup, IsUsable}
use go_seccomp_bpf.Correctness.Meaning.{first_group}
use go_seccomp_bpf.Correctness.Verdict.{built, verdict}
use go_seccomp_bpf.Correctness.Program.{assemble_policy-first_group}

abbrev pub IsUnconditional : SyscallWithConditions → Type 0
IsUnconditional s = is_empty s.conditions ≡ true

-- The group names system calls only.
abbrev pub IsNamesOnly : SyscallGroup → Type 0
IsNamesOnly g = g.names_with_conditions ≡ []

abbrev AreFoundUnconditional : Found → Type 0
AreFoundUnconditional found = All IsUnconditional found.0

AreFoundUnconditional-add_number :
    (name : String) (num : ℕ) (found : Found)
    → AreFoundUnconditional found
    → AreFoundUnconditional (add_number name num found)
unfolding add_number
AreFoundUnconditional-add_number name num (ss, es) u = elim (Option-cases (get_syscall ss num)) [
  | inl e ↦
      let new : (ss ++ unconditional num ∷ [], es) ≡ add_number name num (ss, es) =
        rw (e, add_number) refl in
      subst AreFoundUnconditional new (All-snoc IsUnconditional ss _ u refl)
  | inr (s, e) ↦
      let same : (ss, es ++ duplicate_syscall name ∷ []) ≡ add_number name num (ss, es) =
        rw (e, add_number) refl in
      subst AreFoundUnconditional same u
]

AreFoundUnconditional-add_name :
    (arch : Info) (name : String) (found : Found)
    → AreFoundUnconditional found
    → AreFoundUnconditional (add_name arch name found)
unfolding add_name
AreFoundUnconditional-add_name arch name found u =
    elim (Option-cases (number_of name arch.syscall_names)) [
      | inl e ↦
          let same : problem (unknown_syscall arch.name name) found ≡ add_name arch name found =
            rw (e, add_name) refl in
          subst AreFoundUnconditional same u
      | inr (num, e) ↦
          let more : add_number name (masked arch num) found ≡ add_name arch name found =
            rw (e, add_name) refl in
          subst AreFoundUnconditional more
            (AreFoundUnconditional-add_number name (masked arch num) found u)
    ]

AreFoundUnconditional-add_names :
    (arch : Info) (names : List String) (found : Found)
    → AreFoundUnconditional found
    → AreFoundUnconditional (add_names arch names found)
unfolding add_names
AreFoundUnconditional-add_names arch [] found u = u
AreFoundUnconditional-add_names arch (n ∷ ns) found u =
    AreFoundUnconditional-add_names arch ns (add_name arch n found)
      (AreFoundUnconditional-add_name arch n found u)

-- The entries of such a group have no conditions.
pub to_syscalls_with_conditions-IsUnconditional :
    (arch : Info) (g : SyscallGroup) (ss : List SyscallWithConditions)
    → IsNamesOnly g
    → to_syscalls_with_conditions arch g ≡ ok ss
    → All IsUnconditional ss
unfolding to_syscalls_with_conditions add_names_with_conditions
to_syscalls_with_conditions-IsUnconditional arch g ss only h =
    subst (All IsUnconditional) (without_problems_ok _ ss (rw only at h)).1
      (AreFoundUnconditional-add_names arch g.names ([], []) tt)

abbrev AreUnconditional : Translated → Type 0
AreUnconditional (ss, action) = All IsUnconditional ss

translate-AreUnconditional :
    (arch : Info) (gs : List SyscallGroup) (ts : List Translated)
    → All IsNamesOnly gs
    → translate arch gs ≡ ok ts
    → All AreUnconditional ts
unfolding translate
translate-AreUnconditional arch [] ts u h =
    let same : [] ≡ ts = cc in subst (All AreUnconditional) same tt
translate-AreUnconditional arch (g ∷ gs) ts u h = elim (Bool-cases (has_no_names g)) [
  | inl y ↦ translate-AreUnconditional arch gs ts u.1 (sym (translate_skip arch g gs y) ∙ h)
  | inr n ↦
      let (ss, rest, first, others, same) = translate-cons arch g gs ts n h in
      subst (All AreUnconditional) same (
        to_syscalls_with_conditions-IsUnconditional (arch_or arch g.arch) g ss u.0 first,
        translate-AreUnconditional arch gs rest u.1 others,
      )
]

module _ (d : SeccompData) where
  IsSettled-unconditional : (s : SyscallWithConditions) → IsUnconditional s → IsSettled d s
  unfolding entry_matches
  IsSettled-unconditional s u = λ h. rw u (ground arith)

  All-IsSettled : (ss : List SyscallWithConditions) → All IsUnconditional ss → All (IsSettled d) ss
  All-IsSettled [] u = tt
  All-IsSettled (s ∷ ss) u = (IsSettled-unconditional s u.0, All-IsSettled ss u.1)

  settled_before_last :
      (ss : List SyscallWithConditions) → All (IsSettled d) ss → AreSettledBeforeLast d ss
  settled_before_last [] u = tt
  settled_before_last (s ∷ []) u = tt
  settled_before_last (s ∷ s' ∷ ss) u = (u.0, settled_before_last (s' ∷ ss) u.1)

  IsUndisturbed-unconditional :
      (ts : List Translated) → All AreUnconditional ts → IsUndisturbed d ts
  IsUndisturbed-unconditional [] u = tt
  IsUndisturbed-unconditional ((ss, action) ∷ []) u = settled_before_last ss (All-IsSettled ss u.0)
  IsUndisturbed-unconditional ((ss, action) ∷ t ∷ ts) u =
      (All-IsSettled ss u.0, λ h. IsUndisturbed-unconditional (t ∷ ts) u.1)

AreUsable : (gs : List SyscallGroup) → All IsNamesOnly gs → All IsUsableGroup gs
AreUsable [] u = tt
AreUsable (g ∷ gs) u = (subst (All IsUsable) (sym u.0) tt, AreUsable gs u.1)

-- A valid policy whose groups name known system calls and have no conditions, and whose code has at
-- most 256 instructions, has an assembly. For every system call of its architecture the program returns
-- the action of the first group that names it, or the default action if none does; the default action
-- for another architecture; and ENOSYS for the x32 interface.
pub assemble_policy-names_only :
    (lower : Char → Char) (goarch : String) (order : ByteOrder) (p : Policy) (arch : Info)
    (ts : List Translated) (vm : Kernel order) (a : ℕ) (d : SeccompData)
    → validate p ≡ ok tt
    → arch_of lower goarch p ≡ ok arch
    → All IsNamesOnly p.syscalls
    → translate arch p.syscalls ≡ ok ts
    → length (built order ts p.default_action).instructions ≤ 256
    → (prog : List Instruction) × (assemble_policy lower goarch order p ≡ ok prog)
      × (vm.exec prog a d
          ≡ verdict arch d p.default_action
              (some (ret_value (first_group arch d p.syscalls p.default_action))))
assemble_policy-names_only lower goarch order p arch ts vm a d valid selected only translated
      short =
    assemble_policy-first_group lower goarch order p arch ts valid selected translated
      (AreUsable p.syscalls only) short vm a d
      (IsUndisturbed-unconditional d ts
        (translate-AreUnconditional arch p.syscalls ts only translated))
