-- ===== src/Decision/Groups.antt =====
-- The code of a group, and of the groups of a policy up to the final return (filter.go), run.
use go_seccomp_bpf.Base.{
  ℕ, ◌≡◌, refl, Option, List, [], ◌∷◌, All, some, subst, ap₂, ◌∙◌, ap, fun_ext,
}
use go_seccomp_bpf.Bpf.{SeccompData, ByteOrder}
use go_seccomp_bpf.Assembler.{Label, Program, current_index, new_label, set_label, ret, ret_value}
use go_seccomp_bpf.Symbolic.{
  Runs, Runs-emit, Runs-new_label, Runs-set_label, run-ret, current_index-new_label,
}
use go_seccomp_bpf.Filter.{SyscallWithConditions, assemble_syscalls, assemble_group}
use go_seccomp_bpf.Decision.{check_syscalls, IsNonempty, IsProper}
use go_seccomp_bpf.Decision.{Translated, check_groups}
use go_seccomp_bpf.Decision.Conditions.{at-set_label}
use go_seccomp_bpf.Decision.Syscalls.{Runs-assemble_syscalls, run-assemble_syscalls}

-- The labels of a group are the next two, and its system calls extend this program.
abbrev body : ByteOrder → List SyscallWithConditions → Program → Program
body order ss p =
    assemble_syscalls order ss (new_label p).1 (new_label (new_label p).0).1
      (new_label (new_label p).0).0

assemble_group_lem :
    (order : ByteOrder) (ss : List SyscallWithConditions) (action : ℕ) (p : Program)
    → assemble_group order ss action p
      ≡ set_label
          (new_label (new_label p).0).1
          (ret action (set_label (new_label p).1 (body order ss p)))
unfolding assemble_group
assemble_group_lem order ss action p = refl

-- The code of the translated groups in turn.
unfoldable pub assemble_translated : ByteOrder → List Translated → Program → Program
assemble_translated order [] p = p
assemble_translated order ((ss, action) ∷ gs) p =
    assemble_translated order gs (assemble_group order ss action p)

abbrev pub IsProperGroup : Translated → Type 0
IsProperGroup (ss, action) = IsNonempty ss × All IsProper ss

module _ {order : ByteOrder} {d : SeccompData} {at : ℕ → ℕ → Option ℕ} {pos : Label → ℕ} where
  Runs-ret : (action : ℕ) (p : Program) → Runs order d at pos (ret action p) → Runs order d at pos p
  unfolding ret
  Runs-ret action p r = Runs-emit _ p r

  Runs-body :
      (ss : List SyscallWithConditions) (p : Program)
      → Runs order d at pos (body order ss p)
      → Runs order d at pos p
  Runs-body ss p r = Runs-new_label p (Runs-new_label _ (Runs-assemble_syscalls ss _ _ _ r))

  Runs-assemble_group :
      (ss : List SyscallWithConditions) (action : ℕ) (p : Program)
      → Runs order d at pos (assemble_group order ss action p)
      → Runs order d at pos p
  Runs-assemble_group ss action p r = Runs-body ss p (
      Runs-set_label _ _ (
        Runs-ret action _ (
          Runs-set_label _ _
            (subst (Runs order d at pos) (assemble_group_lem order ss action p) r))))

  run-assemble_group :
      (ss : List SyscallWithConditions) (action : ℕ) (p : Program) (a : ℕ)
      → IsNonempty ss
      → All IsProper ss
      → Runs order d at pos (assemble_group order ss action p)
      → at (current_index p) a
        ≡ check_syscalls d ss
            (λ _. some (ret_value action))
            (at (current_index (assemble_group order ss action p)))
            a
  run-assemble_group ss action p a e w r =
      let u = assemble_group_lem order ss action p in
      let l = (new_label p).1 in
      let n = (new_label (new_label p).0).1 in
      let q = set_label l (body order ss p) in
      let r1 : Runs order d at pos (set_label n (ret action q)) = subst (Runs order d at pos) u r in
      let r2 : Runs order d at pos (ret action q) = Runs-set_label _ _ r1 in
      let r3 : Runs order d at pos q = Runs-ret action _ r2 in
      let hit : at (pos l) ≡ (λ _. some (ret_value action)) =
        at-set_label l (body order ss p) _ r3 (λ b. run-ret action q b r2) in
      let miss : at (pos n) ≡ at (current_index (set_label n (ret action q))) =
        at-set_label n (ret action q) _ r1 (λ b. refl) in
      rw (u, ← current_index-new_label p, ← current_index-new_label (new_label p).0)
        (run-assemble_syscalls ss l n _ a e w (Runs-set_label _ _ r3)
          ∙ ap₂ (λ t f. check_syscalls d ss t f a) hit miss)

  Runs-assemble_translated :
      (gs : List Translated) (p : Program)
      → Runs order d at pos (assemble_translated order gs p)
      → Runs order d at pos p
  unfolding assemble_translated
  Runs-assemble_translated [] p r = r
  Runs-assemble_translated ((ss, action) ∷ gs) p r =
      Runs-assemble_group ss action p (Runs-assemble_translated gs _ r)

  pub run-assemble_translated :
      (gs : List Translated) (default : ℕ) (p : Program) (a : ℕ)
      → All IsProperGroup gs
      → Runs order d at pos (ret default (assemble_translated order gs p))
      → at (current_index p) a ≡ check_groups d gs default a
  unfolding assemble_translated check_groups
  run-assemble_translated [] default p a w r = run-ret default p a r
  run-assemble_translated ((ss, action) ∷ gs) default p a w r =
      let q = assemble_group order ss action p in
      let rest : at (current_index q) ≡ check_groups d gs default =
        fun_ext λ b. run-assemble_translated gs default q b w.1 r in
      run-assemble_group ss action p a w.0.0 w.0.1
        (Runs-assemble_translated gs q (Runs-ret default _ r))
      ∙ ap (λ k. check_syscalls d ss (λ _. some (ret_value action)) k a) rest
