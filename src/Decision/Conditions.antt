-- ===== src/Decision/Conditions.antt =====
-- The code of a condition and of a set of conditions (filter.go), run.
use go_seccomp_bpf.Base.{
  ℕ, ◌≡◌, refl, Bool, true, false, not, Option, [], ◌∷◌, All, is_empty, ◌∙◌, ap, fun_ext,
}
use go_seccomp_bpf.Bpf.{SeccompData, ByteOrder}
use go_seccomp_bpf.Assembler.{Label, Program, current_index, new_label, set_label}
use go_seccomp_bpf.Symbolic.{
  Runs, Runs-new_label, Runs-set_label, Runs-ld_hi, run-ld_hi, pos-set_label,
  current_index-set_label, current_index-new_label,
}
use go_seccomp_bpf.Filter.{
  Condition, ArgumentConditions, next_label, assemble_condition, set_if, assemble_arguments,
}
use go_seccomp_bpf.Decision.{check_condition, check_arguments, IsWellFormed, IsNonempty}
use go_seccomp_bpf.Decision.Operations.{Runs-assemble_operation, run-assemble_operation}

module _ {order : ByteOrder} {d : SeccompData} {at : ℕ → ℕ → Option ℕ} {pos : Label → ℕ} where
  pub Runs-next_label :
      (p : Program) (more : Bool) (end : Label)
      → Runs order d at pos (next_label p more end).0
      → Runs order d at pos p
  unfolding next_label
  Runs-next_label p true end r = Runs-new_label p r
  Runs-next_label p false end r = r

  pub Runs-set_if :
      (more : Bool) (l : Label) (p : Program)
      → Runs order d at pos (set_if more l p)
      → Runs order d at pos p
  Runs-set_if true l p r = Runs-set_label l p r
  Runs-set_if false l p r = r

  pub Runs-assemble_condition :
      (c : Condition) (t f : Label) (p : Program)
      → Runs order d at pos (assemble_condition order c t f p)
      → Runs order d at pos p
  unfolding assemble_condition
  Runs-assemble_condition c t f p r =
      Runs-ld_hi c.argument p (Runs-assemble_operation c.operation _ _ _ t f _ r)

  pub run-assemble_condition :
      (c : Condition) (t f : Label) (p : Program) (a : ℕ)
      → IsWellFormed c
      → Runs order d at pos (assemble_condition order c t f p)
      → at (current_index p) a ≡ check_condition d c (at (pos t)) (at (pos f))
  unfolding assemble_condition check_condition
  run-assemble_condition c t f p a w r =
      run-ld_hi c.argument p a w.in_range (Runs-assemble_operation c.operation _ _ _ t f _ r)
      ∙ run-assemble_operation c.operation c.argument _ _ t f _ w.in_range w.known r

  pub Runs-assemble_arguments :
      (cs : ArgumentConditions) (action nc : Label) (p : Program)
      → Runs order d at pos (assemble_arguments order cs action nc p)
      → Runs order d at pos p
  unfolding assemble_arguments
  Runs-assemble_arguments [] action nc p r = r
  Runs-assemble_arguments (c ∷ cs) action nc p r = Runs-next_label p (not (is_empty cs)) action (
      Runs-assemble_condition c _ nc _
        (Runs-set_if (not (is_empty cs)) _ _ (Runs-assemble_arguments cs action nc _ r)))

  -- A part that ends where its own label is set goes on behind that label.
  pub at-set_label :
      (l : Label) (q : Program) (k : ℕ → Option ℕ)
      → Runs order d at pos (set_label l q)
      → ((a : ℕ) → at (current_index (set_label l q)) a ≡ k a)
      → at (pos l) ≡ k
  at-set_label l q k r h =
      fun_ext λ a. rw (pos-set_label l q r, ← current_index-set_label l q) (h a)

  pub run-assemble_arguments :
      (cs : ArgumentConditions) (action nc : Label) (p : Program) (a : ℕ)
      → IsNonempty cs
      → All IsWellFormed cs
      → Runs order d at pos (assemble_arguments order cs action nc p)
      → at (current_index p) a ≡ check_arguments d cs (at (pos action)) (at (pos nc)) a
  unfolding assemble_arguments check_arguments next_label
  run-assemble_arguments [] action nc p a e w r = cc
  run-assemble_arguments (c ∷ []) action nc p a e w r = run-assemble_condition c action nc p a w.0 r
  run-assemble_arguments (c ∷ c' ∷ cs) action nc p a e w r =
      let l = (new_label p).1 in
      let q = assemble_condition order c l nc (new_label p).0 in
      let r' : Runs order d at pos (set_label l q) =
        Runs-assemble_arguments (c' ∷ cs) action nc (set_label l q) r in
      let rest : at (pos l) ≡ check_arguments d (c' ∷ cs) (at (pos action)) (at (pos nc)) =
        at-set_label l q _ r'
          (λ b. run-assemble_arguments (c' ∷ cs) action nc (set_label l q) b refl w.1 r) in
      rw (← current_index-new_label p) (
        run-assemble_condition c l nc (new_label p).0 a w.0 (Runs-set_label l q r')
        ∙ ap (λ k. check_condition d c k (at (pos nc))) rest)
