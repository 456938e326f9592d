-- ===== src/Correctness/Distinct.antt =====
-- Groups that name known system calls, no two with the same number (filter.go): they translate, and each
-- name is one instruction.
use go_seccomp_bpf.Base.{
  ℕ, suc, ◌+◌, ◌≡◌, refl, ◌∙◌, ap, String, true, false, not, none, some, List, [], ◌∷◌, ◌++◌, All,
  length, length-append, ◌==◌, is_empty, arith, Bool, Bool-cases, inl, inr,
}
use go_seccomp_bpf.Bpf.{ByteOrder, JumpTest, jump_if, jump_equal, ret_constant}
use go_seccomp_bpf.Arch.{Info, number_of}
use go_seccomp_bpf.Assembler.{
  Label, Program, new_label, set_label, jmp_if, jmp_if_true, ret, ret_value, emit,
}
use go_seccomp_bpf.Filter.{
  SyscallWithConditions, assemble_syscall, assemble_syscalls, assemble_group,
}
use go_seccomp_bpf.Group.{
  Found, unconditional, get_syscall, masked, add_number, add_name, add_names,
}
use go_seccomp_bpf.Correctness.Unconditional.{IsUnconditional}

-- The name is known, and none of these entries has its number.
pub record IsNew (arch : Info) (ss : List SyscallWithConditions) (n : String) : Type 0 where
  pub num : ℕ
  pub known : number_of n arch.syscall_names ≡ some num
  pub free : get_syscall ss (masked arch num) ≡ none

-- Known names have other numbers.
abbrev pub HaveOtherNumbers : Info → String → String → Type 0
HaveOtherNumbers arch n m =
    (a b : ℕ)
    → number_of n arch.syscall_names ≡ some a
    → number_of m arch.syscall_names ≡ some b
    → (masked arch a == masked arch b) ≡ false

abbrev pub AreApart : Info → List String → Type 0
AreApart arch [] = Unit
AreApart arch (n ∷ ns) = All (HaveOtherNumbers arch n) ns × AreApart arch ns

get_syscall-append :
    (ss : List SyscallWithConditions) (s : SyscallWithConditions) (num : ℕ)
    → get_syscall ss num ≡ none
    → (s.num == num) ≡ false
    → get_syscall (ss ++ s ∷ []) num ≡ none
unfolding get_syscall
get_syscall-append [] s num h f = rw f refl
get_syscall-append (t ∷ ss) s num h f = elim (Bool-cases (t.num == num)) [
  | inl y ↦ let never : some t ≡ none = rw y at h in cc
  | inr n ↦ rw n (get_syscall-append ss s num (rw n at h) f)
]

All-IsNew :
    (arch : Info) (ss : List SyscallWithConditions) (n : String) (num : ℕ) (ns : List String)
    → number_of n arch.syscall_names ≡ some num
    → All (IsNew arch ss) ns
    → All (HaveOtherNumbers arch n) ns
    → All (IsNew arch (ss ++ unconditional (masked arch num) ∷ [])) ns
All-IsNew arch ss n num [] known w o = tt
All-IsNew arch ss n num (m ∷ ns) known w o = (
  record {
    num = w.0.num;
    known = w.0.known;
    free =
        get_syscall-append ss (unconditional (masked arch num)) (masked arch w.0.num) w.0.free
          (o.0 num w.0.num known w.0.known);
  },
  All-IsNew arch ss n num ns known w.1 o.1,
)

-- Such names are all added, in turn and without problems.
pub add_names_new :
    (arch : Info) (ns : List String) (ss : List SyscallWithConditions)
    → All (IsNew arch ss) ns
    → AreApart arch ns
    → (ss' : List SyscallWithConditions) × (◌≡◌ {A = Found} (add_names arch ns (ss, [])) (ss', []))
      × (length ss' ≡ length ss + length ns)
unfolding add_names add_name masked add_number
add_names_new arch [] ss w a = (ss, refl, omega arith)
add_names_new arch (n ∷ ns) ss w a =
    let new = ss ++ unconditional (masked arch w.0.num) ∷ [] in
    let (ss', e, size) =
      add_names_new arch ns new (All-IsNew arch ss n w.0.num ns w.0.known w.1 a.0) a.1 in
    let first : ◌≡◌ {A = Found} (add_name arch n (ss, [])) (new, []) =
      rw (w.0.known, add_name) (rw (w.0.free, add_number) refl) in
    (
      ss',
      ap (add_names arch ns) first ∙ e,
      omega (arith, size, length-append ss (unconditional (masked arch w.0.num) ∷ [])),
    )

length-jmp_if :
    (test : JumpTest) (v : ℕ) (t f : Label) (p : Program)
    → length (jmp_if test v t f p).instructions ≡ suc (length p.instructions)
unfolding jmp_if
length-jmp_if test v t f p = omega (arith, length-append p.instructions (jump_if test v 0 0 ∷ []))

length-jmp_if_true :
    (test : JumpTest) (v : ℕ) (t : Label) (p : Program)
    → length (jmp_if_true test v t p).instructions ≡ suc (length p.instructions)
unfolding jmp_if_true jmp_if set_label new_label
length-jmp_if_true test v t p =
    omega (arith, length-append p.instructions (jump_if test v 0 0 ∷ []))

pub length-ret :
    (action : ℕ) (p : Program) → length (ret action p).instructions ≡ suc (length p.instructions)
unfolding ret emit
length-ret action p =
    omega (arith, length-append p.instructions (ret_constant (ret_value action) ∷ []))

length-assemble_syscall :
    (order : ByteOrder) (s : SyscallWithConditions) (more : Bool) (action end : Label) (p : Program)
    → IsUnconditional s
    → length (assemble_syscall order s more action end p).instructions ≡ suc (length p.instructions)
unfolding assemble_syscall
length-assemble_syscall order s true action end p u =
    rw u (length-jmp_if_true jump_equal s.num action p)
length-assemble_syscall order s false action end p u =
    rw u (length-jmp_if jump_equal s.num action end p)

length-assemble_syscalls :
    (order : ByteOrder) (ss : List SyscallWithConditions) (action end : Label) (p : Program)
    → All IsUnconditional ss
    → length (assemble_syscalls order ss action end p).instructions
      ≡ length p.instructions + length ss
unfolding assemble_syscalls
length-assemble_syscalls order [] action end p u = omega arith
length-assemble_syscalls order (s ∷ ss) action end p u =
    let q = assemble_syscall order s (not (is_empty ss)) action end p in
    omega (
      arith,
      length-assemble_syscalls order ss action end q u.1,
      length-assemble_syscall order s (not (is_empty ss)) action end p u.0,
    )

-- The code of a group without conditions has an instruction for each entry, and the return.
pub length-assemble_group :
    (order : ByteOrder) (ss : List SyscallWithConditions) (action : ℕ) (p : Program)
    → All IsUnconditional ss
    → length (assemble_group order ss action p).instructions
      ≡ suc (length p.instructions + length ss)
unfolding assemble_group new_label set_label
length-assemble_group order ss action p u =
    let (p1, action_label) = new_label p in
    let (p2, next_group_label) = new_label p1 in
    let q = assemble_syscalls order ss action_label next_group_label p2 in
    omega (
      arith,
      length-ret action (set_label action_label q),
      length-assemble_syscalls order ss action_label next_group_label p2 u,
    )
