-- ===== src/Correctness/Header.antt =====
-- The instructions that `Policy.Assemble` puts in front: the checks of the architecture and of x32.
use go_seccomp_bpf.Base.{
  ℕ, suc, ◌+◌, ◌≤◌, ◌<◌, ◌%◌, ◌^◌, ◌≡◌, ◌∙◌, ap, inl, inr, Bool, true, false, some, List, ◌∷◌, ◌++◌,
  length, length-append, drop, get_elem?, leb, ◌==◌, if◌then◌else◌, Bool-cases, leb→le, to_u8,
  get_elem?-append_right, drop-eq_cons, bit_or, arith,
}
use go_seccomp_bpf.Constants.{action_errno, errno_enosys}
use go_seccomp_bpf.Bpf.{
  SeccompData, ByteOrder, Kernel, Instruction, load_absolute, jump, ret_constant, jump_equal,
  jump_not_equal, jump_greater_or_equal,
}
use go_seccomp_bpf.Arch.{Info, x32_syscall_mask, audit_arch_x86_64}
use go_seccomp_bpf.Policy.{x32_filter, arch_check, with_header}

-- The system call comes in by the x32 interface of x86_64.
abbrev pub is_x32 : Info → SeccompData → Bool
is_x32 arch d = if arch.id == audit_arch_x86_64 then leb x32_syscall_mask d.nr else false

abbrev pub enosys : ℕ
enosys = bit_or action_errno errno_enosys

length-arch_check : (arch : Info) (n : ℕ) → length (arch_check arch n) ≤ 2
unfolding arch_check
length-arch_check arch n = ground arith

length-x32_filter : (arch : Info) → length (x32_filter arch) ≤ 2
unfolding x32_filter
length-x32_filter arch = ground arith

-- The header takes one to six instructions.
pub length-with_header :
    (arch : Info) (code : List Instruction)
    → (1 ≤ length (with_header arch code)) × (length (with_header arch code) ≤ length code + 6)
unfolding with_header
length-with_header arch code =
    let n = length (x32_filter arch) + length code in
    let rest = load_absolute 0 4 ∷ (x32_filter arch ++ code) in
    (
      omega arith,
      omega (
        arith,
        length-append (arch_check arch n) rest,
        length-append (x32_filter arch) code,
        length-arch_check arch n,
        length-x32_filter arch,
      ),
    )

module _ {order : ByteOrder} (vm : Kernel order) (arch : Info) (code : List Instruction) (a : ℕ)
    (d : SeccompData) where
  -- Behind the check of the architecture.
  abbrev checked : List Instruction
  checked = load_absolute 0 4 ∷ (x32_filter arch ++ code)

  exec-x32_filter :
      (b : ℕ) → vm.exec checked b d ≡ (if is_x32 arch d then some enosys else vm.exec code d.nr d)
  unfolding x32_filter
  exec-x32_filter b = vm.exec-load_nr _ b d ∙ elim (Bool-cases (arch.id == audit_arch_x86_64)) [
    | inl y ↦ rw y (
        vm.exec-jump_if jump_greater_or_equal x32_syscall_mask 0 1 _ d.nr d
        ∙ elim (Bool-cases (leb x32_syscall_mask d.nr)) [
          | inl y' ↦ rw y' (vm.exec-ret _ _ d.nr d)
          | inr n' ↦ rw n'
        ])
    | inr n ↦ rw n
  ]

  abbrev jump_n : ℕ
  jump_n = length (x32_filter arch) + length code

  exec-header_same :
      (d.arch == arch.id) ≡ true → vm.exec (with_header arch code) a d ≡ vm.exec checked d.arch d
  unfolding with_header arch_check
  exec-header_same e = vm.exec-load_arch _ a d ∙ elim (Bool-cases (leb jump_n 255)) [
    | inl y ↦ rw y (vm.exec-jump_if jump_not_equal arch.id (to_u8 jump_n) 0 checked d.arch d ∙ rw e)
    | inr n ↦
        rw n (
          vm.exec-jump_if jump_equal arch.id 1 0 (jump (jump_n % 2 ^ 32) ∷ checked) d.arch d ∙ rw e)
  ]

  exec-header_other :
      length code + 2 < 2 ^ 32
      → (d.arch == arch.id) ≡ false
      → vm.exec (with_header arch code) a d ≡ vm.exec (drop jump_n checked) d.arch d
  unfolding with_header arch_check
  exec-header_other short e = vm.exec-load_arch _ a d ∙ elim (Bool-cases (leb jump_n 255)) [
    | inl y ↦ rw y (
        vm.exec-jump_if jump_not_equal arch.id (to_u8 jump_n) 0 checked d.arch d
        ∙ rw e (
            ap (λ n. vm.exec (drop n checked) d.arch d)
              (let b = leb→le jump_n 255 y in omega arith)))
    | inr n ↦ rw n (
        vm.exec-jump_if jump_equal arch.id 1 0 (jump (jump_n % 2 ^ 32) ∷ checked) d.arch d
        ∙ rw e (
            vm.exec-jump (jump_n % 2 ^ 32) checked d.arch d
            ∙ ap (λ n. vm.exec (drop n checked) d.arch d) (omega (arith, length-x32_filter arch))))
  ]

  -- The last instruction of the program, where it is a return.
  exec-last :
      (m v b : ℕ)
      → length code ≡ suc m
      → get_elem? code m ≡ some (ret_constant v)
      → vm.exec (drop jump_n checked) b d ≡ some v
  exec-last m v b e h =
      let at_end : jump_n ≡ suc (length (x32_filter arch) + m) = omega arith in
      ap (λ n. vm.exec (drop n checked) b d) at_end
      ∙ ap (λ c. vm.exec c b d)
          (drop-eq_cons (x32_filter arch ++ code) (length (x32_filter arch) + m)
            (get_elem?-append_right (x32_filter arch) code m ∙ h))
      ∙ vm.exec-ret v _ b d

  -- The program with its header returns the default action on another architecture, ENOSYS on x32,
  -- and else what the code behind the header returns, begun with the number.
  pub exec-with_header :
      (m v : ℕ)
      → length code + 2 < 2 ^ 32
      → length code ≡ suc m
      → get_elem? code m ≡ some (ret_constant v)
      → vm.exec (with_header arch code) a d ≡ (
          if d.arch == arch.id
          then (if is_x32 arch d then some enosys else vm.exec code d.nr d)
          else some v)
  exec-with_header m v short e h = elim (Bool-cases (d.arch == arch.id)) [
    | inl y ↦ rw y (exec-header_same y ∙ exec-x32_filter d.arch)
    | inr n ↦ rw n (exec-header_other short n ∙ exec-last m v d.arch e h)
  ]
