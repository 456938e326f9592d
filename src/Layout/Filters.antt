-- ===== src/Layout/Filters.antt =====
-- The code of conditions, system calls and groups (filter.go) is well-formed.
use go_seccomp_bpf.Base.{
  ℕ, ◌≡◌, refl, ◌⊎◌, inl, inr, Bool, true, false, List, [], ◌∷◌, All, In, is_empty, Bool-cases,
  subst, sym, if◌then◌else◌,
}
use go_seccomp_bpf.Bpf.{ByteOrder, JumpTest, jump_equal}
use go_seccomp_bpf.Assembler.{Label, Program, new_label, jmp_if, jmp_if_true, ret, ld_hi, ld_lo}
use go_seccomp_bpf.Symbolic.{ld_hi-emits, ld_lo-emits}
use go_seccomp_bpf.Layout.{IsLaidOut, HasTail}
use go_seccomp_bpf.Layout.Operations.{
  IsLaidOut-emit, HasTail-emit, IsLaidOut-jmp_if, HasTail-jmp_if,
}
use go_seccomp_bpf.Layout.Labels.{
  IsLaidOut-new_label, IsLaidOut-set_label, IsLaidOut-jmp_if_true, IsLaidOut-swap,
  new_label-not_open,
}
use go_seccomp_bpf.Filter.{
  Operation, equal, not_equal, greater_than, less_than, greater_or_equal, less_or_equal, bits_set,
  bits_not_set, other, Condition, ArgumentConditions, SyscallWithConditions, next_label,
  assemble_operation, assemble_condition, assemble_arguments, assemble_sets, assemble_conditional,
  assemble_syscall, assemble_syscalls, assemble_group,
}
use go_seccomp_bpf.Decision.{IsKnown, IsWellFormed, IsNonempty, IsProperSet, IsProper, Translated}
use go_seccomp_bpf.Decision.Syscalls.{assemble_syscall_unconditional, assemble_syscall_conditional}
use go_seccomp_bpf.Decision.Groups.{IsProperGroup, assemble_translated}

-- Well-formed, with a jump to `t` and `f` at the end.
abbrev Ends : List Label → Label → Label → Program → Type 0
Ends o t f q = IsLaidOut o q × ((o' : List Label) → In t o' ⊎ In f o' → HasTail o' q)

-- Well-formed, with such a jump at the end if it is the last system call of its group.
abbrev EndsLast : List Label → Bool → Label → Label → Program → Type 0
EndsLast o more t f q =
    IsLaidOut o q × (more ≡ false → (o' : List Label) → In t o' ⊎ In f o' → HasTail o' q)

module _ (order : ByteOrder) where
  IsLaidOut-ld_hi :
      (o : List Label) (arg : ℕ) (p : Program) → IsLaidOut o p → IsLaidOut o (ld_hi order arg p)
  IsLaidOut-ld_hi o arg p v =
      let (inst, e) = ld_hi-emits order arg p in rw e (IsLaidOut-emit o inst p v)

  IsLaidOut-ld_lo :
      (o : List Label) (arg : ℕ) (p : Program) → IsLaidOut o p → IsLaidOut o (ld_lo order arg p)
  IsLaidOut-ld_lo o arg p v =
      let (inst, e) = ld_lo-emits order arg p in rw e (IsLaidOut-emit o inst p v)

  Ends-low :
      (o : List Label) (c : JumpTest) (arg lo : ℕ) (t f : Label) (p : Program)
      → In t o
      → In f o
      → IsLaidOut o p
      → Ends o t f (jmp_if c lo t f (ld_lo order arg p))
  Ends-low o c arg lo t f p ht hf v =
      let w = IsLaidOut-ld_lo o arg p v in
      (IsLaidOut-jmp_if o c lo t f _ ht hf w, λ o' h. HasTail-jmp_if o o' c lo t f _ w h)

  Ends-assemble_operation :
      (o : List Label) (op : Operation) (arg hi lo : ℕ) (t f : Label) (p : Program)
      → IsKnown op
      → In t o
      → In f o
      → IsLaidOut o p
      → Ends o t f (assemble_operation order op arg hi lo t f p)
  unfolding assemble_operation
  Ends-assemble_operation o equal arg hi lo t f p k ht hf v =
      Ends-low o _ arg lo t f _ ht hf (IsLaidOut-jmp_if_true o _ hi f p hf v)
  Ends-assemble_operation o not_equal arg hi lo t f p k ht hf v =
      Ends-low o _ arg lo t f _ ht hf (IsLaidOut-jmp_if_true o _ hi t p ht v)
  Ends-assemble_operation o greater_than arg hi lo t f p k ht hf v =
      Ends-low o _ arg lo t f _ ht hf
        (IsLaidOut-jmp_if_true o _ hi f _ hf (IsLaidOut-jmp_if_true o _ hi t p ht v))
  Ends-assemble_operation o greater_or_equal arg hi lo t f p k ht hf v =
      Ends-low o _ arg lo t f _ ht hf
        (IsLaidOut-jmp_if_true o _ hi f _ hf (IsLaidOut-jmp_if_true o _ hi t p ht v))
  Ends-assemble_operation o less_than arg hi lo t f p k ht hf v =
      Ends-low o _ arg lo t f _ ht hf
        (IsLaidOut-jmp_if_true o _ hi f _ hf (IsLaidOut-jmp_if_true o _ hi t p ht v))
  Ends-assemble_operation o less_or_equal arg hi lo t f p k ht hf v =
      Ends-low o _ arg lo t f _ ht hf
        (IsLaidOut-jmp_if_true o _ hi f _ hf (IsLaidOut-jmp_if_true o _ hi t p ht v))
  Ends-assemble_operation o bits_set arg hi lo t f p k ht hf v =
      Ends-low o _ arg lo t f _ ht hf (IsLaidOut-jmp_if_true o _ hi t p ht v)
  Ends-assemble_operation o bits_not_set arg hi lo t f p k ht hf v =
      Ends-low o _ arg lo t f _ ht hf (IsLaidOut-jmp_if_true o _ hi f p hf v)
  Ends-assemble_operation o (other name) arg hi lo t f p k ht hf v = elim k [ ]

  Ends-assemble_condition :
      (o : List Label) (c : Condition) (t f : Label) (p : Program)
      → IsWellFormed c
      → In t o
      → In f o
      → IsLaidOut o p
      → Ends o t f (assemble_condition order c t f p)
  unfolding assemble_condition
  Ends-assemble_condition o c t f p w ht hf v =
      Ends-assemble_operation o c.operation c.argument _ _ t f _ w.known ht hf
        (IsLaidOut-ld_hi o c.argument p v)

  Ends-assemble_arguments :
      (o : List Label) (cs : ArgumentConditions) (action nc : Label) (p : Program)
      → IsNonempty cs
      → All IsWellFormed cs
      → In action o
      → In nc o
      → IsLaidOut o p
      → Ends o action nc (assemble_arguments order cs action nc p)
  unfolding assemble_arguments next_label
  Ends-assemble_arguments o [] action nc p e w ha hn v = cc
  Ends-assemble_arguments o (c ∷ []) action nc p e w ha hn v =
      Ends-assemble_condition o c action nc p w.0 ha hn v
  Ends-assemble_arguments o (c ∷ c' ∷ cs) action nc p e w ha hn v =
      let n = (new_label p).1 in
      let (q, tail) =
        Ends-assemble_condition (n ∷ o) c n nc _ w.0 (inl refl) (inr hn)
          (IsLaidOut-new_label o p v) in
      Ends-assemble_arguments o (c' ∷ cs) action nc _ refl w.1 ha hn
        (IsLaidOut-set_label o n _ (new_label-not_open o p v) (tail o (inr hn)) q)

  Ends-assemble_sets :
      (o : List Label) (ss : List ArgumentConditions) (action ns : Label) (p : Program)
      → IsNonempty ss
      → All IsProperSet ss
      → In action o
      → In ns o
      → IsLaidOut o p
      → Ends o action ns (assemble_sets order ss action ns p)
  unfolding assemble_sets next_label
  Ends-assemble_sets o [] action ns p e w ha hn v = cc
  Ends-assemble_sets o (s ∷ []) action ns p e w ha hn v =
      Ends-assemble_arguments o s action ns p w.0.nonempty w.0.conditions ha hn v
  Ends-assemble_sets o (s ∷ s' ∷ ss) action ns p e w ha hn v =
      let n = (new_label p).1 in
      let (q, tail) =
        Ends-assemble_arguments (n ∷ o) s action n _ w.0.nonempty w.0.conditions (inr ha) (inl refl)
          (IsLaidOut-new_label o p v) in
      Ends-assemble_sets o (s' ∷ ss) action ns _ refl w.1 ha hn
        (IsLaidOut-set_label o n _ (new_label-not_open o p v) (tail o (inl ha)) q)

  EndsLast-conditional :
      (o : List Label) (s : SyscallWithConditions) (more : Bool) (action end : Label) (p : Program)
      → IsNonempty s.conditions
      → IsProper s
      → In action o
      → In end o
      → IsLaidOut o p
      → EndsLast o more action end (assemble_conditional order s more action end p)
  unfolding assemble_conditional next_label
  EndsLast-conditional o s false action end p e w ha he v =
      let (q, tail) =
        Ends-assemble_sets o s.conditions action end _ e w ha he
          (IsLaidOut-jmp_if_true o _ s.num end p he v) in
      (q, λ _. tail)
  EndsLast-conditional o s true action end p e w ha he v =
      let n = (new_label p).1 in
      let (q, tail) =
        Ends-assemble_sets (n ∷ o) s.conditions action n _ e w (inr ha) (inl refl)
          (IsLaidOut-jmp_if_true (n ∷ o) _ s.num n _ (inl refl) (IsLaidOut-new_label o p v)) in
      (IsLaidOut-set_label o n _ (new_label-not_open o p v) (tail o (inl ha)) q, λ last. cc)

  EndsLast-unconditional :
      (o : List Label) (num : ℕ) (more : Bool) (action end : Label) (p : Program)
      → In action o
      → In end o
      → IsLaidOut o p
      → EndsLast o more action end
          (if more then jmp_if_true jump_equal num action p else jmp_if jump_equal num action end p)
  EndsLast-unconditional o num true action end p ha he v =
      (IsLaidOut-jmp_if_true o _ num action p ha v, λ last. cc)
  EndsLast-unconditional o num false action end p ha he v = (
    IsLaidOut-jmp_if o _ num action end p ha he v,
    λ last o' h. HasTail-jmp_if o o' _ num action end p v h,
  )

  EndsLast-assemble_syscall :
      (o : List Label) (s : SyscallWithConditions) (more : Bool) (action end : Label) (p : Program)
      → IsProper s
      → In action o
      → In end o
      → IsLaidOut o p
      → EndsLast o more action end (assemble_syscall order s more action end p)
  EndsLast-assemble_syscall o s more action end p w ha he v =
      elim (Bool-cases (is_empty s.conditions)) [
        | inl e ↦
            subst (EndsLast o more action end)
              (sym (assemble_syscall_unconditional order s more action end p e))
              (EndsLast-unconditional o s.num more action end p ha he v)
        | inr e ↦
            subst (EndsLast o more action end)
              (sym (assemble_syscall_conditional order s more action end p e))
              (EndsLast-conditional o s more action end p e w ha he v)
      ]

  Ends-assemble_syscalls :
      (o : List Label) (ss : List SyscallWithConditions) (action next : Label) (p : Program)
      → IsNonempty ss
      → All IsProper ss
      → In action o
      → In next o
      → IsLaidOut o p
      → Ends o action next (assemble_syscalls order ss action next p)
  unfolding assemble_syscalls
  Ends-assemble_syscalls o [] action next p e w ha hn v = cc
  Ends-assemble_syscalls o (s ∷ []) action next p e w ha hn v =
      let (q, tail) = EndsLast-assemble_syscall o s false action next p w.0 ha hn v in
      (q, tail refl)
  Ends-assemble_syscalls o (s ∷ s' ∷ ss) action next p e w ha hn v =
      Ends-assemble_syscalls o (s' ∷ ss) action next _ refl w.1 ha hn
        (EndsLast-assemble_syscall o s true action next p w.0 ha hn v).0

  IsLaidOut-assemble_group :
      (ss : List SyscallWithConditions) (action : ℕ) (p : Program)
      → IsNonempty ss
      → All IsProper ss
      → IsLaidOut [] p
      → IsLaidOut [] (assemble_group order ss action p)
  unfolding assemble_group ret
  IsLaidOut-assemble_group ss action p e w v =
      let l = (new_label p).1 in
      let n = (new_label (new_label p).0).1 in
      let v1 = IsLaidOut-new_label [] p v in
      let v2 = IsLaidOut-new_label (l ∷ []) _ v1 in
      let (q, tail) =
        Ends-assemble_syscalls (n ∷ l ∷ []) ss l n _ e w (inr (inl refl)) (inl refl) v2 in
      let distinct : ¬ (In l (n ∷ [])) = λ i. elim i [
        | inl same ↦ new_label-not_open (l ∷ []) _ v1 (inl (sym same))
        | inr none ↦ none
      ] in
      let v3 =
        IsLaidOut-set_label (n ∷ []) l _ distinct (tail (n ∷ []) (inr (inl refl)))
          (IsLaidOut-swap n l [] _ q) in
      IsLaidOut-set_label [] n _ (λ i. i) (HasTail-emit (n ∷ []) [] _ _ v3)
        (IsLaidOut-emit (n ∷ []) _ _ v3)

  -- The code of groups with at least one entry and no empty set of conditions extends a well-formed
  -- program without open labels to another: each jump is a conditional jump in range, in rising order,
  -- both of its labels are set behind it at one place, and they are not both the next instruction.
  pub IsLaidOut-assemble_translated :
      (gs : List Translated) (p : Program)
      → All IsProperGroup gs
      → IsLaidOut [] p
      → IsLaidOut [] (assemble_translated order gs p)
  unfolding assemble_translated
  IsLaidOut-assemble_translated [] p w v = v
  IsLaidOut-assemble_translated ((ss, action) ∷ gs) p w v =
      IsLaidOut-assemble_translated gs _ w.1 (IsLaidOut-assemble_group ss action p w.0.0 w.0.1 v)
