-- ===== src/Decision/Syscalls.antt =====
-- The code of a system call and of the system calls of a group (filter.go), run.
use go_seccomp_bpf.Base.{
  ℕ, ◌≡◌, refl, Bool, true, false, not, Option, List, [], ◌∷◌, All, if◌then◌else◌, is_empty, ◌==◌,
  Bool-cases, inl, inr, subst, ◌∙◌, ap, fun_ext,
}
use go_seccomp_bpf.Bpf.{SeccompData, ByteOrder, jump_equal, jump_not_equal}
use go_seccomp_bpf.Assembler.{
  Label, Program, current_index, new_label, set_label, jmp_if, jmp_if_true,
}
use go_seccomp_bpf.Symbolic.{
  Runs, Runs-set_label, Runs-jmp_if, Runs-jmp_if_true, run-jmp_if, run-jmp_if_true,
  current_index-new_label,
}
use go_seccomp_bpf.Filter.{
  ArgumentConditions, SyscallWithConditions, next_label, assemble_arguments, assemble_sets,
  assemble_conditional, assemble_syscall, assemble_syscalls,
}
use go_seccomp_bpf.Decision.{
  check_arguments, check_sets, check_syscall, check_syscalls, IsNonempty, IsProperSet, IsProper,
}
use go_seccomp_bpf.Decision.Conditions.{
  Runs-next_label, Runs-set_if, Runs-assemble_arguments, run-assemble_arguments, at-set_label,
}

if_not {ℓ} : {A : Type ℓ} (b : Bool) (x y : A) → (if not b then x else y) ≡ (if b then y else x)
if_not true x y = refl
if_not false x y = refl

-- Where a system call's code goes on when it does not match.
abbrev pub after : (Label → ℕ) → Bool → Label → Program → ℕ
after pos more end p = if more then current_index p else pos end

pub assemble_syscall_unconditional :
    (order : ByteOrder) (s : SyscallWithConditions) (more : Bool) (action end : Label) (p : Program)
    → is_empty s.conditions ≡ true
    → assemble_syscall order s more action end p ≡ (
        if more
        then jmp_if_true jump_equal s.num action p
        else jmp_if jump_equal s.num action end p)
unfolding assemble_syscall
assemble_syscall_unconditional order s more action end p e = rw e

pub assemble_syscall_conditional :
    (order : ByteOrder) (s : SyscallWithConditions) (more : Bool) (action end : Label) (p : Program)
    → is_empty s.conditions ≡ false
    → assemble_syscall order s more action end p ≡ assemble_conditional order s more action end p
unfolding assemble_syscall
assemble_syscall_conditional order s more action end p e = rw e

check_syscall_unconditional {ℓ} :
    {A : Type ℓ} (d : SeccompData) (s : SyscallWithConditions) (t f : ℕ → A) (a : ℕ)
    → is_empty s.conditions ≡ true
    → check_syscall d s t f a ≡ (if a == s.num then t a else f a)
unfolding check_syscall
check_syscall_unconditional d s t f a e = rw e

module _ {order : ByteOrder} {d : SeccompData} {at : ℕ → ℕ → Option ℕ} {pos : Label → ℕ} where
  pub Runs-assemble_sets :
      (ss : List ArgumentConditions) (action ns : Label) (p : Program)
      → Runs order d at pos (assemble_sets order ss action ns p)
      → Runs order d at pos p
  unfolding assemble_sets
  Runs-assemble_sets [] action ns p r = r
  Runs-assemble_sets (s ∷ ss) action ns p r = Runs-next_label p (not (is_empty ss)) ns (
      Runs-assemble_arguments s action _ _
        (Runs-set_if (not (is_empty ss)) _ _ (Runs-assemble_sets ss action ns _ r)))

  pub run-assemble_sets :
      (ss : List ArgumentConditions) (action ns : Label) (p : Program) (a : ℕ)
      → IsNonempty ss
      → All IsProperSet ss
      → Runs order d at pos (assemble_sets order ss action ns p)
      → at (current_index p) a ≡ check_sets d ss (at (pos action)) (at (pos ns)) a
  unfolding assemble_sets check_sets next_label
  run-assemble_sets [] action ns p a e w r = cc
  run-assemble_sets (s ∷ []) action ns p a e w r =
      run-assemble_arguments s action ns p a w.0.nonempty w.0.conditions r
  run-assemble_sets (s ∷ s' ∷ ss) action ns p a e w r =
      let l = (new_label p).1 in
      let q = assemble_arguments order s action l (new_label p).0 in
      let r' : Runs order d at pos (set_label l q) =
        Runs-assemble_sets (s' ∷ ss) action ns (set_label l q) r in
      let rest : at (pos l) ≡ check_sets d (s' ∷ ss) (at (pos action)) (at (pos ns)) =
        at-set_label l q _ r'
          (λ b. run-assemble_sets (s' ∷ ss) action ns (set_label l q) b refl w.1 r) in
      rw (← current_index-new_label p) (
        run-assemble_arguments s action l (new_label p).0 a w.0.nonempty w.0.conditions
          (Runs-set_label l q r')
        ∙ ap (λ k. check_arguments d s (at (pos action)) k a) rest)

  Runs-unconditional :
      (more : Bool) (num : ℕ) (action end : Label) (p : Program)
      → Runs order d at pos
          (if more then jmp_if_true jump_equal num action p else jmp_if jump_equal num action end p)
      → Runs order d at pos p
  Runs-unconditional true num action end p r = Runs-jmp_if_true _ _ _ p r
  Runs-unconditional false num action end p r = Runs-jmp_if _ _ _ _ p r

  Runs-assemble_conditional :
      (s : SyscallWithConditions) (more : Bool) (action end : Label) (p : Program)
      → Runs order d at pos (assemble_conditional order s more action end p)
      → Runs order d at pos p
  unfolding assemble_conditional
  Runs-assemble_conditional s more action end p r = Runs-next_label p more end (
      Runs-jmp_if_true _ _ _ _
        (Runs-assemble_sets s.conditions action _ _ (Runs-set_if more _ _ r)))

  pub Runs-assemble_syscall :
      (s : SyscallWithConditions) (more : Bool) (action end : Label) (p : Program)
      → Runs order d at pos (assemble_syscall order s more action end p)
      → Runs order d at pos p
  Runs-assemble_syscall s more action end p r = elim (Bool-cases (is_empty s.conditions)) [
    | inl e ↦
        Runs-unconditional more s.num action end p (
          subst (Runs order d at pos) (assemble_syscall_unconditional order s more action end p e)
            r)
    | inr e ↦
        Runs-assemble_conditional s more action end p
          (subst (Runs order d at pos) (assemble_syscall_conditional order s more action end p e) r)
  ]

  pub run-jump_over :
      (s : SyscallWithConditions) (action ns : Label) (p : Program) (a : ℕ)
      → IsNonempty s.conditions
      → IsProper s
      → Runs order d at pos
          (assemble_sets order s.conditions action ns (jmp_if_true jump_not_equal s.num ns p))
      → at (current_index p) a ≡ check_syscall d s (at (pos action)) (at (pos ns)) a
  unfolding check_syscall
  run-jump_over s action ns p a e w r =
      let r' = Runs-assemble_sets s.conditions action ns _ r in
      run-jmp_if_true jump_not_equal s.num ns p a r'
      ∙ if_not (a == s.num) _ _
      ∙ ap (λ o. if a == s.num then o else at (pos ns) a)
          (run-assemble_sets s.conditions action ns _ a e w r)
      ∙ rw e

  run-unconditional :
      (more : Bool) (num : ℕ) (action end : Label) (p : Program) (a : ℕ)
      → Runs order d at pos
          (if more then jmp_if_true jump_equal num action p else jmp_if jump_equal num action end p)
      → at (current_index p) a ≡ (
          if a == num
          then at (pos action) a
          else at
              (after pos more end (
                if more
                then jmp_if_true jump_equal num action p
                else jmp_if jump_equal num action end p))
              a)
  run-unconditional true num action end p a r = run-jmp_if_true jump_equal num action p a r
  run-unconditional false num action end p a r = run-jmp_if jump_equal num action end p a r

  run-assemble_conditional :
      (s : SyscallWithConditions) (more : Bool) (action end : Label) (p : Program) (a : ℕ)
      → IsNonempty s.conditions
      → IsProper s
      → Runs order d at pos (assemble_conditional order s more action end p)
      → at (current_index p) a
        ≡ check_syscall d s
            (at (pos action))
            (at (after pos more end (assemble_conditional order s more action end p)))
            a
  unfolding assemble_conditional next_label
  run-assemble_conditional s false action end p a e w r = run-jump_over s action end p a e w r
  run-assemble_conditional s true action end p a e w r =
      let l = (new_label p).1 in
      let q =
        assemble_sets order s.conditions action l
          (jmp_if_true jump_not_equal s.num l (new_label p).0) in
      let rest : at (pos l) ≡ at (current_index (set_label l q)) =
        at-set_label l q _ r (λ b. refl) in
      rw (← current_index-new_label p) (
        run-jump_over s action l (new_label p).0 a e w (Runs-set_label l q r)
        ∙ ap (λ k. check_syscall d s (at (pos action)) k a) rest)

  pub run-assemble_syscall :
      (s : SyscallWithConditions) (more : Bool) (action end : Label) (p : Program) (a : ℕ)
      → IsProper s
      → Runs order d at pos (assemble_syscall order s more action end p)
      → at (current_index p) a
        ≡ check_syscall d s
            (at (pos action))
            (at (after pos more end (assemble_syscall order s more action end p)))
            a
  run-assemble_syscall s more action end p a w r = elim (Bool-cases (is_empty s.conditions)) [
    | inl e ↦
        let u = assemble_syscall_unconditional order s more action end p e in
        rw (u, check_syscall_unconditional d s _ _ a e)
          (run-unconditional more s.num action end p a (subst (Runs order d at pos) u r))
    | inr e ↦
        let u = assemble_syscall_conditional order s more action end p e in
        rw u (run-assemble_conditional s more action end p a e w (subst (Runs order d at pos) u r))
  ]

  pub Runs-assemble_syscalls :
      (ss : List SyscallWithConditions) (action next : Label) (p : Program)
      → Runs order d at pos (assemble_syscalls order ss action next p)
      → Runs order d at pos p
  unfolding assemble_syscalls
  Runs-assemble_syscalls [] action next p r = r
  Runs-assemble_syscalls (s ∷ ss) action next p r =
      Runs-assemble_syscall s (not (is_empty ss)) action next p
        (Runs-assemble_syscalls ss action next _ r)

  pub run-assemble_syscalls :
      (ss : List SyscallWithConditions) (action next : Label) (p : Program) (a : ℕ)
      → IsNonempty ss
      → All IsProper ss
      → Runs order d at pos (assemble_syscalls order ss action next p)
      → at (current_index p) a ≡ check_syscalls d ss (at (pos action)) (at (pos next)) a
  unfolding assemble_syscalls check_syscalls
  run-assemble_syscalls [] action next p a e w r = cc
  run-assemble_syscalls (s ∷ []) action next p a e w r =
      run-assemble_syscall s false action next p a w.0 r
  run-assemble_syscalls (s ∷ s' ∷ ss) action next p a e w r =
      let q = assemble_syscall order s true action next p in
      let rest : at (current_index q)
          ≡ check_syscalls d (s' ∷ ss) (at (pos action)) (at (pos next)) =
        fun_ext λ b. run-assemble_syscalls (s' ∷ ss) action next q b refl w.1 r in
      run-assemble_syscall s true action next p a w.0
        (Runs-assemble_syscalls (s' ∷ ss) action next q r)
      ∙ ap (λ k. check_syscall d s (at (pos action)) k a) rest
