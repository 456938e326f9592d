-- ===== src/Symbolic.antt =====
-- The meaning of a program while its jumps still name labels (assembler.go), and what each operation
-- that builds a program adds to it.
use native.Mathlib.Numerals.{add-one}
use go_seccomp_bpf.Base.{
  ℕ, suc, ◌/◌, ◌%◌, ◌^◌, ◌≤◌, ◌≡◌, refl, ap, subst, Option, some, List, [], ◌∷◌, ◌++◌,
  if◌then◌else◌, length, get_elem?, All, arith, length-append, get_elem?-append_old,
  get_elem?-append_new, ◌==◌, ==_iff, Bool-cases, inl, inr,
}
use go_seccomp_bpf.Bpf.{
  JumpTest, Instruction, load_absolute, jump_if, ret_constant, holds, SeccompData, ByteOrder,
  little_endian, big_endian, hi_offset, lo_offset,
}
use go_seccomp_bpf.Assembler.{
  Label, Program, current_index, new_label, set_label, jmp_if, jmp_if_true, emit, ret, ret_value,
  ld_hi, ld_lo, update,
}

-- `at i a` is the outcome from instruction `i` on with accumulator `a`, and `pos` the position of
-- each label. A jump goes to its label's position; all else goes on to the next instruction.
pub record Runs (order : ByteOrder) (d : SeccompData) (at : ℕ → ℕ → Option ℕ) (pos : Label → ℕ)
    (p : Program) : Type 0 where
  pub returns : (i v a : ℕ) → get_elem? p.instructions i ≡ some (ret_constant v) → at i a ≡ some v
  pub loads_hi :
      (i arg a : ℕ)
      → arg ≤ 5
      → get_elem? p.instructions i ≡ some (load_absolute (hi_offset order arg) 4)
      → at i a ≡ at (suc i) (d.args arg / 2 ^ 32)
  pub loads_lo :
      (i arg a : ℕ)
      → arg ≤ 5
      → get_elem? p.instructions i ≡ some (load_absolute (lo_offset order arg) 4)
      → at i a ≡ at (suc i) (d.args arg % 2 ^ 32)
  pub branches :
      All
        (λ j.
          (c : JumpTest) (k a : ℕ)
          → get_elem? p.instructions j.index ≡ some (jump_if c k 0 0)
          → at j.index a
            ≡ (if holds c a k then at (pos j.true_label) a else at (pos j.false_label) a))
        p.jumps
  pub placed : (l : Label) → All (λ k. pos l ≡ k) (p.labels l)

All-append_left {ℓ κ} : {A : Type ℓ} (P : A → Type κ) (xs ys : List A) → All P (xs ++ ys) → All P xs
All-append_left P [] ys h = tt
All-append_left P (x ∷ xs) ys h = (h.0, All-append_left P xs ys h.1)

All-append_last {ℓ κ} :
    {A : Type ℓ} (P : A → Type κ) (xs : List A) (y : A) → All P (xs ++ y ∷ []) → P y
All-append_last P [] y h = h.0
All-append_last P (x ∷ xs) y h = All-append_last P xs y h.1

All-map {ℓ κ μ} :
    {A : Type ℓ} {P : A → Type κ} {Q : A → Type μ} (xs : List A)
    → ((a : A) → P a → Q a)
    → All P xs
    → All Q xs
All-map [] f h = tt
All-map (x ∷ xs) f h = (f x h.0, All-map xs f h.1)

pub current_index-emit :
    (inst : Instruction) (p : Program) → current_index (emit inst p) ≡ suc (current_index p)
unfolding current_index emit
current_index-emit inst p = omega (arith, length-append p.instructions (inst ∷ []))

pub current_index-jmp_if :
    (c : JumpTest) (k : ℕ) (t f : Label) (p : Program)
    → current_index (jmp_if c k t f p) ≡ suc (current_index p)
unfolding current_index jmp_if
current_index-jmp_if c k t f p = omega (arith, length-append p.instructions (jump_if c k 0 0 ∷ []))

pub current_index-set_label :
    (l : Label) (p : Program) → current_index (set_label l p) ≡ current_index p
unfolding current_index set_label
current_index-set_label l p = refl

-- The offsets that `LdHi` and `LdLo` compute are those of the two words of an argument.
ld_hi_lem :
    (order : ByteOrder) (arg : ℕ) (p : Program)
    → arg ≤ 5
    → ld_hi order arg p ≡ emit (load_absolute (hi_offset order arg) 4) p
unfolding ld_hi
ld_hi_lem little_endian arg p h = ap (λ o. emit (load_absolute o 4) p) (omega arith)
ld_hi_lem big_endian arg p h = ap (λ o. emit (load_absolute o 4) p) (omega arith)

ld_lo_lem :
    (order : ByteOrder) (arg : ℕ) (p : Program)
    → arg ≤ 5
    → ld_lo order arg p ≡ emit (load_absolute (lo_offset order arg) 4) p
unfolding ld_lo
ld_lo_lem little_endian arg p h = ap (λ o. emit (load_absolute o 4) p) (omega arith)
ld_lo_lem big_endian arg p h = ap (λ o. emit (load_absolute o 4) p) (omega arith)

pub ld_hi-emits :
    (order : ByteOrder) (arg : ℕ) (p : Program)
    → (inst : Instruction) × (ld_hi order arg p ≡ emit inst p)
unfolding ld_hi
ld_hi-emits little_endian arg p = (_, refl)
ld_hi-emits big_endian arg p = (_, refl)

pub ld_lo-emits :
    (order : ByteOrder) (arg : ℕ) (p : Program)
    → (inst : Instruction) × (ld_lo order arg p ≡ emit inst p)
unfolding ld_lo
ld_lo-emits little_endian arg p = (_, refl)
ld_lo-emits big_endian arg p = (_, refl)

pub jmp_if_true_lem :
    (c : JumpTest) (k : ℕ) (t : Label) (p : Program)
    → jmp_if_true c k t p
      ≡ set_label ((new_label p).1) (jmp_if c k t ((new_label p).1) (new_label p).0)
unfolding jmp_if_true
jmp_if_true_lem c k t p = refl

pub current_index-new_label : (p : Program) → current_index (new_label p).0 ≡ current_index p
unfolding current_index new_label
current_index-new_label p = refl

module _ {order : ByteOrder} {d : SeccompData} {at : ℕ → ℕ → Option ℕ} {pos : Label → ℕ} where
  pub Runs-emit :
      (inst : Instruction) (p : Program) → Runs order d at pos (emit inst p) → Runs order d at pos p
  unfolding emit
  Runs-emit inst p r = record {
    returns = λ i v a h. r.returns i v a (get_elem?-append_old p.instructions inst i h);
    loads_hi = λ i g a b h. r.loads_hi i g a b (get_elem?-append_old p.instructions inst i h);
    loads_lo = λ i g a b h. r.loads_lo i g a b (get_elem?-append_old p.instructions inst i h);
    branches =
        All-map p.jumps
          (λ j f c k a h. f c k a (get_elem?-append_old p.instructions inst j.index h)) r.branches;
    placed = r.placed;
  }

  pub Runs-new_label : (p : Program) → Runs order d at pos (new_label p).0 → Runs order d at pos p
  unfolding new_label
  Runs-new_label p r = record {
    returns = r.returns;
    loads_hi = r.loads_hi;
    loads_lo = r.loads_lo;
    branches = r.branches;
    placed = r.placed;
  }

  pub Runs-jmp_if :
      (c : JumpTest) (k : ℕ) (t f : Label) (p : Program)
      → Runs order d at pos (jmp_if c k t f p)
      → Runs order d at pos p
  unfolding jmp_if
  Runs-jmp_if c k t f p r = record {
    returns = λ i v a h. r.returns i v a (get_elem?-append_old p.instructions _ i h);
    loads_hi = λ i g a b h. r.loads_hi i g a b (get_elem?-append_old p.instructions _ i h);
    loads_lo = λ i g a b h. r.loads_lo i g a b (get_elem?-append_old p.instructions _ i h);
    branches =
        All-map p.jumps
          (λ j g c' k' a h. g c' k' a (get_elem?-append_old p.instructions _ j.index h))
          (All-append_left _ p.jumps _ r.branches);
    placed = r.placed;
  }

  pub Runs-set_label :
      (l : Label) (p : Program) → Runs order d at pos (set_label l p) → Runs order d at pos p
  unfolding set_label
  Runs-set_label l p r = record {
    returns = r.returns;
    loads_hi = r.loads_hi;
    loads_lo = r.loads_lo;
    branches = r.branches;
    placed = λ m. elim (Bool-cases (m == l)) [
      | inl e ↦
          let same : m ≡ l = (==_iff m l).0 e in
          rw same (
            All-append_left (λ k. pos l ≡ k) (p.labels l) _
              (let h : All (λ k. pos l ≡ k)
                    (if l == l then p.labels l ++ current_index p ∷ [] else p.labels l) =
                  r.placed l in
                rw ((==_iff l l).1 refl) at h))
      | inr e ↦
          let h : All (λ k. pos m ≡ k)
              (if m == l then p.labels l ++ current_index p ∷ [] else p.labels m) =
            r.placed m in
          rw e at h
    ];
  }

  pub run-jmp_if :
      (c : JumpTest) (k : ℕ) (t f : Label) (p : Program) (a : ℕ)
      → Runs order d at pos (jmp_if c k t f p)
      → at (current_index p) a ≡ (if holds c a k then at (pos t) a else at (pos f) a)
  unfolding jmp_if current_index
  run-jmp_if c k t f p a r =
      All-append_last _ p.jumps _ r.branches c k a (get_elem?-append_new p.instructions _)

  pub run-ret :
      (action : ℕ) (p : Program) (a : ℕ)
      → Runs order d at pos (ret action p)
      → at (current_index p) a ≡ some (ret_value action)
  unfolding ret current_index
  run-ret action p a r =
      r.returns (current_index p) (ret_value action) a (get_elem?-append_new p.instructions _)

  pub pos-set_label :
      (l : Label) (p : Program) → Runs order d at pos (set_label l p) → pos l ≡ current_index p
  unfolding set_label
  pos-set_label l p r =
      let h : All (λ k. pos l ≡ k) (update p.labels l (p.labels l ++ current_index p ∷ []) l) =
        r.placed l in
      All-append_last (λ k. pos l ≡ k) (p.labels l) (current_index p)
        (rw ((==_iff l l).1 refl) at h)

  pub run-ld_hi :
      (arg : ℕ) (p : Program) (a : ℕ)
      → arg ≤ 5
      → Runs order d at pos (ld_hi order arg p)
      → at (current_index p) a ≡ at (current_index (ld_hi order arg p)) (d.args arg / 2 ^ 32)
  unfolding current_index emit
  run-ld_hi arg p a h r =
      let q : Runs order d at pos (emit (load_absolute (hi_offset order arg) 4) p) =
        subst (Runs order d at pos) (ld_hi_lem order arg p h) r in
      rw (ld_hi_lem order arg p h, length-append, add-one)
        (q.loads_hi (length p.instructions) arg a h (get_elem?-append_new p.instructions _))

  pub run-ld_lo :
      (arg : ℕ) (p : Program) (a : ℕ)
      → arg ≤ 5
      → Runs order d at pos (ld_lo order arg p)
      → at (current_index p) a ≡ at (current_index (ld_lo order arg p)) (d.args arg % 2 ^ 32)
  unfolding current_index emit
  run-ld_lo arg p a h r =
      let q : Runs order d at pos (emit (load_absolute (lo_offset order arg) 4) p) =
        subst (Runs order d at pos) (ld_lo_lem order arg p h) r in
      rw (ld_lo_lem order arg p h, length-append, add-one)
        (q.loads_lo (length p.instructions) arg a h (get_elem?-append_new p.instructions _))

  pub Runs-ld_hi :
      (arg : ℕ) (p : Program) → Runs order d at pos (ld_hi order arg p) → Runs order d at pos p
  Runs-ld_hi arg p r =
      let (inst, e) = ld_hi-emits order arg p in Runs-emit inst p (subst (Runs order d at pos) e r)

  pub Runs-ld_lo :
      (arg : ℕ) (p : Program) → Runs order d at pos (ld_lo order arg p) → Runs order d at pos p
  Runs-ld_lo arg p r =
      let (inst, e) = ld_lo-emits order arg p in Runs-emit inst p (subst (Runs order d at pos) e r)

  pub run-jmp_if_true :
      (c : JumpTest) (k : ℕ) (t : Label) (p : Program) (a : ℕ)
      → Runs order d at pos (jmp_if_true c k t p)
      → at (current_index p) a
        ≡ (if holds c a k then at (pos t) a else at (current_index (jmp_if_true c k t p)) a)
  run-jmp_if_true c k t p a r =
      rw
        (
          jmp_if_true_lem c k t p,
          current_index-set_label,
          ← pos-set_label _ _ r',
          ← current_index-new_label p,
        )
        (run-jmp_if c k t _ _ a (Runs-set_label _ _ r'))
    where
      r' :
          Runs order d at pos
            (set_label ((new_label p).1) (jmp_if c k t ((new_label p).1) (new_label p).0))
      r' = subst (Runs order d at pos) (jmp_if_true_lem c k t p) r

  pub Runs-jmp_if_true :
      (c : JumpTest) (k : ℕ) (t : Label) (p : Program)
      → Runs order d at pos (jmp_if_true c k t p)
      → Runs order d at pos p
  Runs-jmp_if_true c k t p r = Runs-new_label p (
      Runs-jmp_if c k t _ _
        (Runs-set_label _ _ (subst (Runs order d at pos) (jmp_if_true_lem c k t p) r)))
