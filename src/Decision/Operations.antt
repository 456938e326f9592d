-- ===== src/Decision/Operations.antt =====
-- The comparisons of one condition (the `switch` of `SyscallWithConditions.Assemble`), run.
use go_seccomp_bpf.Base.{ℕ, ◌/◌, ◌%◌, ◌^◌, ◌≤◌, ◌≡◌, Option, if◌then◌else◌, ◌∙◌, ap}
use go_seccomp_bpf.Bpf.{SeccompData, ByteOrder, JumpTest, holds, jump_not_equal}
use go_seccomp_bpf.Assembler.{Label, Program, current_index, jmp_if, jmp_if_true, ld_lo}
use go_seccomp_bpf.Symbolic.{
  Runs, Runs-jmp_if, Runs-jmp_if_true, Runs-ld_lo, run-jmp_if, run-jmp_if_true, run-ld_lo,
}
use go_seccomp_bpf.Filter.{
  Operation, equal, not_equal, greater_than, less_than, greater_or_equal, less_or_equal, bits_set,
  bits_not_set, other, assemble_operation,
}
use go_seccomp_bpf.Decision.{check_operation, IsKnown}

module _ {order : ByteOrder} {d : SeccompData} {at : ℕ → ℕ → Option ℕ} {pos : Label → ℕ} where
  -- The low word is loaded and compared.
  pub run_low :
      (c : JumpTest) (arg lo : ℕ) (t f : Label) (p : Program) (a : ℕ)
      → arg ≤ 5
      → Runs order d at pos (jmp_if c lo t f (ld_lo order arg p))
      → at (current_index p) a ≡ (
          if holds c (d.args arg % 2 ^ 32) lo
          then at (pos t) (d.args arg % 2 ^ 32)
          else at (pos f) (d.args arg % 2 ^ 32))
  run_low c arg lo t f p a h r =
      run-ld_lo arg p a h (Runs-jmp_if c lo t f _ r) ∙ run-jmp_if c lo t f _ _ r

  pub Runs-low :
      (c : JumpTest) (arg lo : ℕ) (t f : Label) (p : Program)
      → Runs order d at pos (jmp_if c lo t f (ld_lo order arg p))
      → Runs order d at pos p
  Runs-low c arg lo t f p r = Runs-ld_lo arg p (Runs-jmp_if c lo t f _ r)

  pub Runs-assemble_operation :
      (op : Operation) (arg hi lo : ℕ) (t f : Label) (p : Program)
      → Runs order d at pos (assemble_operation order op arg hi lo t f p)
      → Runs order d at pos p
  unfolding assemble_operation
  Runs-assemble_operation equal arg hi lo t f p r =
      Runs-jmp_if_true _ _ _ p (Runs-low _ arg lo t f _ r)
  Runs-assemble_operation not_equal arg hi lo t f p r =
      Runs-jmp_if_true _ _ _ p (Runs-low _ arg lo t f _ r)
  Runs-assemble_operation greater_than arg hi lo t f p r =
      Runs-jmp_if_true _ _ _ p (Runs-jmp_if_true _ _ _ _ (Runs-low _ arg lo t f _ r))
  Runs-assemble_operation greater_or_equal arg hi lo t f p r =
      Runs-jmp_if_true _ _ _ p (Runs-jmp_if_true _ _ _ _ (Runs-low _ arg lo t f _ r))
  Runs-assemble_operation less_than arg hi lo t f p r =
      Runs-jmp_if_true _ _ _ p (Runs-jmp_if_true _ _ _ _ (Runs-low _ arg lo t f _ r))
  Runs-assemble_operation less_or_equal arg hi lo t f p r =
      Runs-jmp_if_true _ _ _ p (Runs-jmp_if_true _ _ _ _ (Runs-low _ arg lo t f _ r))
  Runs-assemble_operation bits_set arg hi lo t f p r =
      Runs-jmp_if_true _ _ _ p (Runs-low _ arg lo t f _ r)
  Runs-assemble_operation bits_not_set arg hi lo t f p r =
      Runs-jmp_if_true _ _ _ p (Runs-low _ arg lo t f _ r)
  Runs-assemble_operation (other name) arg hi lo t f p r = r

  pub run-two :
      (c c' : JumpTest) (arg hi lo : ℕ) (h t f : Label) (p : Program)
      → arg ≤ 5
      → Runs order d at pos (jmp_if c' lo t f (ld_lo order arg (jmp_if_true c hi h p)))
      → (a : ℕ)
      → at (current_index p) a ≡ (
          if holds c a hi
          then at (pos h) a
          else (if holds c' (d.args arg % 2 ^ 32) lo
              then at (pos t) (d.args arg % 2 ^ 32)
              else at (pos f) (d.args arg % 2 ^ 32)))
  run-two c c' arg hi lo h t f p b r a =
      run-jmp_if_true c hi h p a (Runs-low c' arg lo t f _ r)
      ∙ ap (λ o. if holds c a hi then at (pos h) a else o) (run_low c' arg lo t f _ a b r)

  pub run-three :
      (c c' : JumpTest) (arg hi lo : ℕ) (t f : Label) (p : Program)
      → arg ≤ 5
      → Runs order d at pos (
          jmp_if c' lo t f
            (ld_lo order arg (jmp_if_true jump_not_equal hi f (jmp_if_true c hi t p))))
      → (a : ℕ)
      → at (current_index p) a ≡ (
          if holds c a hi
          then at (pos t) a
          else (if holds jump_not_equal a hi
              then at (pos f) a
              else (if holds c' (d.args arg % 2 ^ 32) lo
                  then at (pos t) (d.args arg % 2 ^ 32)
                  else at (pos f) (d.args arg % 2 ^ 32))))
  run-three c c' arg hi lo t f p b r a =
      run-jmp_if_true c hi t p a (Runs-jmp_if_true _ _ _ _ (Runs-low c' arg lo t f _ r))
      ∙ ap (λ o. if holds c a hi then at (pos t) a else o)
          (run-two jump_not_equal c' arg hi lo f t f _ b r a)

  pub run-assemble_operation :
      (op : Operation) (arg hi lo : ℕ) (t f : Label) (p : Program)
      → arg ≤ 5
      → IsKnown op
      → Runs order d at pos (assemble_operation order op arg hi lo t f p)
      → at (current_index p) (d.args arg / 2 ^ 32)
        ≡ check_operation op
            (d.args arg / 2 ^ 32)
            (d.args arg % 2 ^ 32)
            hi
            lo
            (at (pos t))
            (at (pos f))
  unfolding assemble_operation
  run-assemble_operation equal arg hi lo t f p b k r = run-two _ _ arg hi lo f t f p b r _
  run-assemble_operation not_equal arg hi lo t f p b k r = run-two _ _ arg hi lo t t f p b r _
  run-assemble_operation greater_than arg hi lo t f p b k r = run-three _ _ arg hi lo t f p b r _
  run-assemble_operation greater_or_equal arg hi lo t f p b k r =
      run-three _ _ arg hi lo t f p b r _
  run-assemble_operation less_than arg hi lo t f p b k r = run-three _ _ arg hi lo t f p b r _
  run-assemble_operation less_or_equal arg hi lo t f p b k r = run-three _ _ arg hi lo t f p b r _
  run-assemble_operation bits_set arg hi lo t f p b k r = run-two _ _ arg hi lo t t f p b r _
  run-assemble_operation bits_not_set arg hi lo t f p b k r = run-two _ _ arg hi lo f t f p b r _
  run-assemble_operation (other name) arg hi lo t f p b k r = elim k [ ]
