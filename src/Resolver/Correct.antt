-- ===== src/Resolver/Correct.antt =====
-- `Program.Assemble` (assembler.go) on a well-formed short program always succeeds, and what it gives
-- runs as the program with labels does.
use go_seccomp_bpf.Base.{
  ℕ, suc, ◌-◌, ◌≤◌, ◌<◌, ◌≡◌, refl, ◌∙◌, ap, ◌⊎◌, inl, inr, Option, some, List, [], ◌∷◌, length,
  get_elem?, set, drop, All, if◌then◌else◌, Bool-cases, ok, drop-drop, drop-eq_cons,
  get_elem?_of_drop, arith,
}
use go_seccomp_bpf.Bpf.{JumpTest, Instruction, load_absolute, jump_if, ret_constant}
use go_seccomp_bpf.Assembler.{Index, Label, JumpIf, Program}
use go_seccomp_bpf.Layout.Operations.{All-map, All-both}
use go_seccomp_bpf.Layout.{HasEnd, IsFar, IsGood, IsIncreasing, IsLaidOut}
use go_seccomp_bpf.Resolver.{resolve_jumps, assemble}
use go_seccomp_bpf.Resolver.Short.{
  position, IsNear, true_skip, false_skip, resolve_jump-short, IsPending, IsPending-set, IsResolved,
  IsResolved-step,
}
use go_seccomp_bpf.Bpf.{SeccompData, ByteOrder, Kernel, holds, hi_offset, lo_offset}
use go_seccomp_bpf.Symbolic.{Runs}

resolve_jumps-short :
    (js : List JumpIf) (i lo : ℕ) (q : Program)
    → drop i q.jumps ≡ js
    → IsIncreasing lo js
    → IsPending q.labels q.instructions js
    → (after : List Instruction) × (resolve_jumps (length js) i q
        ≡ ok (record q { instructions = after }))
      × IsResolved (position q.labels) q.instructions after lo js
unfolding resolve_jumps
resolve_jumps-short [] i lo q e s h = (
  q.instructions,
  refl,
  record { size = refl; below = λ m b. refl; plain = λ m x p e'. e'; jumps = tt },
)
resolve_jumps-short (j ∷ js) i lo q e s ((inside, (c, v, b), t, f, far), h) =
    let at = position q.labels in
    let x = jump_if c v (true_skip at j) (false_skip at j) in
    let q1 = record q { instructions = set q.instructions j.index x } in
    let (found, rest) = get_elem?_of_drop q.jumps i e in
    let (after, run, r) =
      resolve_jumps-short js (suc i) (suc j.index) q1 rest s.1
        (IsPending-set q.labels q.instructions j.index x js (suc j.index) (omega arith) s.1 h) in
    (
      after,
      rw (found, resolve_jumps)
          (rw (resolve_jump-short j q c v (at j.true_label) (at j.false_label) b t f far) run),
      IsResolved-step at q.instructions after lo j js c v inside b s r,
    )

-- What the labels of a well-formed program are, once none is open.
IsNear-of_end :
    (labels : Label → List Index) (len i l : ℕ)
    → len ≤ 256
    → HasEnd labels len [] i l
    → IsNear labels i l (position labels l)
IsNear-of_end labels len i l b (inl o) = absurd o
IsNear-of_end labels len i l b (inr (k, e, a, c)) = rw (e, position) (refl, a, omega arith)

far_of_useful :
    (labels : Label → List Index) (i l : ℕ) → IsFar labels [] i l → suc i < position labels l
far_of_useful labels i l (inl o) = absurd o
far_of_useful labels i l (inr (k, e, a)) = rw (e, position) a

-- A well-formed program of at most 256 instructions has an assembly.
pub assemble-short :
    (p : Program)
    → IsLaidOut [] p
    → length p.instructions ≤ 256
    → (after : List Instruction) × (assemble p ≡ ok after)
      × IsResolved (position p.labels) p.instructions after 0 p.jumps
unfolding assemble
assemble-short p v b =
    let (after, run, r) = resolve_jumps-short p.jumps 0 0 p refl v.increasing (
      All-map p.jumps
        (λ j g. (
          g.inside,
          g.branch,
          IsNear-of_end p.labels _ j.index j.true_label b g.true_end,
          IsNear-of_end p.labels _ j.index j.false_label b g.false_end,
          useful g,
        ))
        v.jumps) in
    (after, rw run, r)
  where
    useful :
        {j : JumpIf}
        → IsGood p.labels p.instructions [] j
        → (suc j.index < position p.labels j.true_label)
          ⊎ (suc j.index < position p.labels j.false_label)
    useful {j} g = elim g.useful [
      | inl t ↦ inl (far_of_useful p.labels j.index j.true_label t)
      | inr f ↦ inr (far_of_useful p.labels j.index j.false_label f)
    ]

-- The assembly, run from each position, has the meaning of the program with labels.
module _ {order : ByteOrder} (vm : Kernel order) (d : SeccompData) (p : Program)
    (v : IsLaidOut [] p) {after : List Instruction}
    (r : IsResolved (position p.labels) p.instructions after 0 p.jumps) where
  abbrev from : ℕ → ℕ → Option ℕ
  from i a = vm.exec (drop i after) a d

  from_step :
      (i : ℕ) (x : Instruction) (a : ℕ)
      → get_elem? after i ≡ some x
      → from i a ≡ vm.exec (x ∷ drop (suc i) after) a d
  from_step i x a e = ap (λ code. vm.exec code a d) (drop-eq_cons after i e)

  jump_target : (i k : ℕ) → i < k → drop (k - suc i) (drop (suc i) after) ≡ drop k after
  jump_target i k h = drop-drop (k - suc i) (suc i) after ∙ ap (λ n. drop n after) (omega arith)

  from-jump_if :
      (i : ℕ) (c : JumpTest) (k t f a : ℕ)
      → i < t
      → i < f
      → get_elem? after i ≡ some (jump_if c k (t - suc i) (f - suc i))
      → from i a ≡ (if holds c a k then from t a else from f a)
  from-jump_if i c k t f a ht hf e =
      from_step i _ a e
      ∙ vm.exec-jump_if c k (t - suc i) (f - suc i) (drop (suc i) after) a d
      ∙ elim (Bool-cases (holds c a k)) [
        | inl y ↦ rw y (ap (λ code. vm.exec code a d) (jump_target i t ht))
        | inr n ↦ rw n (ap (λ code. vm.exec code a d) (jump_target i f hf))
      ]

  end_ahead : (i l : ℕ) → HasEnd p.labels (length p.instructions) [] i l → i < position p.labels l
  end_ahead i l (inl o) = absurd o
  end_ahead i l (inr (k, e, a, b)) = rw (e, position) a

  placed_of_single :
      (l : Label)
      → (p.labels l ≡ []) ⊎ ((k : ℕ) × (p.labels l ≡ k ∷ []))
      → All (λ k. position p.labels l ≡ k) (p.labels l)
  placed_of_single l (inl e) = rw e tt
  placed_of_single l (inr (k, e)) = rw (e, position) (refl, tt)

  pub Runs-assembly : Runs order d from (position p.labels) p
  Runs-assembly = record {
    returns = λ i k a e. from_step i _ a (r.plain i (ret_constant k) tt e) ∙ vm.exec-ret k _ a d;
    loads_hi = λ i g a b e.
        from_step i _ a (r.plain i (load_absolute (hi_offset order g) 4) tt e)
        ∙ vm.exec-load_hi g _ a d b;
    loads_lo = λ i g a b e.
        from_step i _ a (r.plain i (load_absolute (lo_offset order g) 4) tt e)
        ∙ vm.exec-load_lo g _ a d b;
    branches =
        All-both p.jumps
          (λ j g w c k a e.
            from-jump_if j.index c k _ _ a (end_ahead j.index j.true_label g.true_end)
              (end_ahead j.index j.false_label g.false_end) (w c k e))
          v.jumps r.jumps;
    placed = λ l. placed_of_single l (v.single l);
  }
