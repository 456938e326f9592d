-- ===== src/Layout/Operations.antt =====
-- The operations of assembler.go keep a program well-formed.
use go_seccomp_bpf.Base.{
  ℕ, suc, ◌≤◌, ◌<◌, refl, ◌⊎◌, inl, inr, List, [], ◌∷◌, ◌++◌, length, All, In, length-append,
  get_elem?-append_old, get_elem?-append_new, arith,
}
use go_seccomp_bpf.Bpf.{JumpTest, Instruction, jump_if}
use go_seccomp_bpf.Assembler.{Label, Index, JumpIf, Program, new_program, jmp_if, emit}
use go_seccomp_bpf.Layout.{HasEnd, IsGood, IsIncreasing, IsLaidOut, HasTail}

pub All-map {ℓ κ μ} :
    {A : Type ℓ} {P : A → Type κ} {Q : A → Type μ} (xs : List A)
    → ((a : A) → P a → Q a)
    → All P xs
    → All Q xs
All-map [] f h = tt
All-map (x ∷ xs) f h = (f x h.0, All-map xs f h.1)

pub All-both {ℓ κ μ ν} :
    {A : Type ℓ} {P : A → Type κ} {Q : A → Type μ} {R : A → Type ν} (xs : List A)
    → ((a : A) → P a → Q a → R a)
    → All P xs
    → All Q xs
    → All R xs
All-both [] f h k = tt
All-both (x ∷ xs) f h k = (f x h.0 k.0, All-both xs f h.1 k.1)

pub All-snoc {ℓ κ} :
    {A : Type ℓ} (P : A → Type κ) (xs : List A) (y : A) → All P xs → P y → All P (xs ++ y ∷ [])
All-snoc P [] y h k = (k, tt)
All-snoc P (x ∷ xs) y h k = (h.0, All-snoc P xs y h.1 k)

IsIncreasing-snoc :
    (lo : ℕ) (js : List JumpIf) (j : JumpIf)
    → lo ≤ j.index
    → All (λ i. i.index < j.index) js
    → IsIncreasing lo js
    → IsIncreasing lo (js ++ j ∷ [])
IsIncreasing-snoc lo [] j b h s = (b, tt)
IsIncreasing-snoc lo (i ∷ js) j b h s = (s.0, IsIncreasing-snoc (suc i.index) js j h.0 h.1 s.1)

pub IsLaidOut-new_program : IsLaidOut [] new_program
unfolding new_program
IsLaidOut-new_program = record {
  fresh = λ l h. refl;
  single = λ l. inl refl;
  opens = tt;
  jumps = tt;
  increasing = tt;
}

-- A further instruction moves no jump and no label.
IsGood-append :
    (labels : Label → List Index) (code : List Instruction) (inst : Instruction) (o : List Label)
    (j : JumpIf)
    → IsGood labels code o j
    → IsGood labels (code ++ inst ∷ []) o j
IsGood-append labels code inst o j g = record {
  inside = omega (arith, length-append code (inst ∷ []), g.inside);
  branch = (g.branch.0, g.branch.1, get_elem?-append_old code inst j.index g.branch.2);
  true_end = HasEnd-append j.true_label g.true_end;
  false_end = HasEnd-append j.false_label g.false_end;
  useful = g.useful;
}
  where
    HasEnd-append :
        (l : Label)
        → HasEnd labels (length code) o j.index l
        → HasEnd labels (length (code ++ inst ∷ [])) o j.index l
    HasEnd-append l (inl e) = inl e
    HasEnd-append l (inr (k, e, a, b)) =
        inr (k, e, a, omega (arith, length-append code (inst ∷ [])))

pub IsLaidOut-emit :
    (o : List Label) (inst : Instruction) (p : Program) → IsLaidOut o p → IsLaidOut o (emit inst p)
unfolding emit
IsLaidOut-emit o inst p v = record {
  fresh = v.fresh;
  single = v.single;
  opens = v.opens;
  jumps = All-map p.jumps (IsGood-append p.labels p.instructions inst o) v.jumps;
  increasing = v.increasing;
}

pub HasTail-emit :
    (o o' : List Label) (inst : Instruction) (p : Program)
    → IsLaidOut o p
    → HasTail o' (emit inst p)
unfolding emit
HasTail-emit o o' inst p v =
    All-map p.jumps (λ j g. inl (omega (arith, length-append p.instructions (inst ∷ []), g.inside)))
      v.jumps

pub IsLaidOut-jmp_if :
    (o : List Label) (c : JumpTest) (k : ℕ) (t f : Label) (p : Program)
    → In t o
    → In f o
    → IsLaidOut o p
    → IsLaidOut o (jmp_if c k t f p)
unfolding jmp_if
IsLaidOut-jmp_if o c k t f p ht hf v = record {
  fresh = v.fresh;
  single = v.single;
  opens = v.opens;
  jumps =
      All-snoc _ p.jumps _
        (All-map p.jumps (IsGood-append p.labels p.instructions (jump_if c k 0 0) o) v.jumps)
        (record {
          inside = omega (arith, length-append p.instructions (jump_if c k 0 0 ∷ []));
          branch = (c, k, get_elem?-append_new p.instructions _);
          true_end = inl ht;
          false_end = inl hf;
          useful = inl (inl ht);
        });
  increasing =
      IsIncreasing-snoc 0 p.jumps _ (omega arith) (All-map p.jumps (λ j g. g.inside) v.jumps)
        v.increasing;
}

pub HasTail-jmp_if :
    (o o' : List Label) (c : JumpTest) (k : ℕ) (t f : Label) (p : Program)
    → IsLaidOut o p
    → In t o' ⊎ In f o'
    → HasTail o' (jmp_if c k t f p)
unfolding jmp_if
HasTail-jmp_if o o' c k t f p v h =
    All-snoc _ p.jumps _
      (All-map p.jumps
        (λ j g. inl (omega (arith, length-append p.instructions (jump_if c k 0 0 ∷ []), g.inside)))
        v.jumps)
      (inr h)
