-- ===== src/Resolver/Short.antt =====
-- `Program.Assemble` (assembler.go) on a well-formed program of at most 256 instructions: every jump is
-- short, so that it only gets its two distances.
use go_seccomp_bpf.Base.{
  ℕ, suc, ◌-◌, ◌≤◌, ◌<◌, ◌≡◌, ◌≢◌, sym, ◌∙◌, ap, fun_ext, ◌⊎◌, inl, inr, false, ◌&&◌, some, List,
  [], ◌∷◌, length, get_elem?, set, All, pos, sub_ℕ_of_le, ◌==◌, ==_iff, Bool-cases, ok, length-set,
  get_elem?-set_self, get_elem?-set_ne, arith, le→leb,
}
use go_seccomp_bpf.Bpf.{JumpTest, Instruction, load_absolute, jump_if, jump, ret_constant}
use go_seccomp_bpf.Assembler.{Index, Label, JumpIf, Program, update}
use go_seccomp_bpf.Layout.{IsIncreasing}
use go_seccomp_bpf.Resolver.{compute_skip_n, skip_passed, resolve_label, resolve_jump}

-- The position of a label that is set.
abbrev pub position : (Label → List Index) → Label → ℕ
position labels l = elim (labels l) [ [] ↦ 0 | k ∷ ks ↦ k ]

update_same :
    (labels : Label → List Index) (l : Label) (s : List Index)
    → labels l ≡ s
    → update labels l s ≡ labels
update_same labels l s e = fun_ext λ m. elim (Bool-cases (m == l)) [
  | inl t ↦ rw t (sym (ap labels ((==_iff m l).0 t) ∙ e))
  | inr f ↦ rw f
]

compute_skip_n-ahead :
    (j : JumpIf) (k : ℕ) → j.index < k → compute_skip_n j k ≡ pos (k - suc j.index)
unfolding compute_skip_n
compute_skip_n-ahead j k h = sub_ℕ_of_le k (suc j.index) h

skip_passed-one :
    (j : JumpIf) (k : ℕ) → j.index < k → skip_passed j (k ∷ []) ≡ ok (k, [], k - suc j.index)
unfolding skip_passed
skip_passed-one j k h = rw (compute_skip_n-ahead j k h, skip_passed)

resolve_label-short :
    (j : JumpIf) (l : Label) (k : ℕ) (q : Program)
    → q.labels l ≡ k ∷ []
    → j.index < k
    → k ≤ 256
    → resolve_label j l q ≡ ok (q, k - suc j.index)
unfolding resolve_label
resolve_label-short j l k q e h b =
    rw (e, resolve_label)
      (rw
        (
          skip_passed-one j k h,
          le→leb (k - suc j.index) 255 (omega arith),
          update_same q.labels l (k ∷ []) e,
        )
        (ap (λ n. ok (q, n)) (omega arith)))

-- The two distances of a jump.
abbrev pub true_skip : (Label → ℕ) → JumpIf → ℕ
true_skip at j = at j.true_label - suc j.index

abbrev pub false_skip : (Label → ℕ) → JumpIf → ℕ
false_skip at j = at j.false_label - suc j.index

-- A label behind the jump, within reach.
abbrev pub IsNear : (Label → List Index) → ℕ → Label → ℕ → Type 0
IsNear labels i l k = (labels l ≡ k ∷ []) × (i < k) × (k ≤ 256)

pub not_both_zero : (a b : ℕ) → (0 < a) ⊎ (0 < b) → (a == 0 && b == 0) ≡ false
not_both_zero a b (inl h) = ground arith
not_both_zero a b (inr h) = ground arith

pub resolve_jump-short :
    (j : JumpIf) (q : Program) (c : JumpTest) (v kt kf : ℕ)
    → get_elem? q.instructions j.index ≡ some (jump_if c v 0 0)
    → IsNear q.labels j.index j.true_label kt
    → IsNear q.labels j.index j.false_label kf
    → (suc j.index < kt) ⊎ (suc j.index < kf)
    → resolve_jump j q
      ≡ ok (record q {
        instructions =
            set q.instructions j.index (jump_if c v (kt - suc j.index) (kf - suc j.index));
      })
unfolding resolve_jump
resolve_jump-short j q c v kt kf e (te, ti, tb) (fe, fi, fb) far =
    rw
      (
        e,
        resolve_label-short j j.true_label kt q te ti tb,
        resolve_label-short j j.false_label kf q fe fi fb,
      )
      (rw (not_both_zero (kt - suc j.index) (kf - suc j.index) (omega arith)))

abbrev pub IsPlain : Instruction → Type 0
IsPlain (jump_if c k t f) = ⊥
IsPlain _ = Unit

-- How the code `after` comes from `code` by the resolution of the jumps `js`, from index `lo` on.
pub record IsResolved (at : Label → ℕ) (code after : List Instruction) (lo : ℕ) (js : List JumpIf)
    : Type 0 where
  pub size : length after ≡ length code
  pub below : (m : ℕ) → m < lo → get_elem? after m ≡ get_elem? code m
  pub plain :
      (m : ℕ) (x : Instruction) → IsPlain x → get_elem? code m ≡ some x → get_elem? after m ≡ some x
  pub jumps :
      All
        (λ j.
          (c : JumpTest) (v : ℕ)
          → get_elem? code j.index ≡ some (jump_if c v 0 0)
          → get_elem? after j.index ≡ some (jump_if c v (true_skip at j) (false_skip at j)))
        js

-- The facts about the jumps that are still to be resolved.
abbrev pub IsPending : (Label → List Index) → List Instruction → List JumpIf → Type 0
IsPending labels code js =
    All
      (λ j.
        (j.index < length code)
        × ((c : JumpTest) × (v : ℕ) × (get_elem? code j.index ≡ some (jump_if c v 0 0)))
        × IsNear labels j.index j.true_label (position labels j.true_label)
        × IsNear labels j.index j.false_label (position labels j.false_label)
        × ((suc j.index < position labels j.true_label)
            ⊎ (suc j.index < position labels j.false_label)))
      js

-- A write below the remaining jumps leaves them pending.
pub IsPending-set :
    (labels : Label → List Index) (code : List Instruction) (i : ℕ) (x : Instruction)
    (js : List JumpIf) (lo : ℕ)
    → i < lo
    → IsIncreasing lo js
    → IsPending labels code js
    → IsPending labels (set code i x) js
IsPending-set labels code i x [] lo b s h = tt
IsPending-set labels code i x (j ∷ js) lo b s ((inside, (c, v, e), t, f, far), h) = (
  (
    rw (length-set code i x) inside,
    (c, v, get_elem?-set_ne code i j.index x (λ same. absurd (omega (arith, s.0))) ∙ e),
    t,
    f,
    far,
  ),
  IsPending-set labels code i x js (suc j.index) (omega (arith, s.0)) s.1 h,
)

abbrev IsWritten : (Label → ℕ) → (code after : List Instruction) → JumpIf → Type 0
IsWritten at code after j =
    (c : JumpTest) (v : ℕ)
    → get_elem? code j.index ≡ some (jump_if c v 0 0)
    → get_elem? after j.index ≡ some (jump_if c v (true_skip at j) (false_skip at j))

IsWritten-set :
    (at : Label → ℕ) (code after : List Instruction) (i : ℕ) (x : Instruction) (js : List JumpIf)
    (lo : ℕ)
    → i < lo
    → IsIncreasing lo js
    → All (IsWritten at (set code i x) after) js
    → All (IsWritten at code after) js
IsWritten-set at code after i x [] lo b s h = tt
IsWritten-set at code after i x (j ∷ js) lo b s h = (
  (λ c v e. h.0 c v (get_elem?-set_ne code i j.index x (λ same. absurd (omega (arith, s.0))) ∙ e)),
  IsWritten-set at code after i x js (suc j.index) (omega (arith, s.0)) s.1 h.1,
)

plain-ne :
    (code : List Instruction) (i m : ℕ) (c : JumpTest) (v : ℕ) (x : Instruction)
    → IsPlain x
    → get_elem? code i ≡ some (jump_if c v 0 0)
    → get_elem? code m ≡ some x
    → i ≢ m
plain-ne code i m c v (jump_if c' v' t f) p e e' = elim p [ ]
plain-ne code i m c v (load_absolute off size) p e e' = λ same. cc (ap (get_elem? code) same)
plain-ne code i m c v (jump skip) p e e' = λ same. cc (ap (get_elem? code) same)
plain-ne code i m c v (ret_constant k) p e e' = λ same. cc (ap (get_elem? code) same)

pub IsResolved-step :
    (at : Label → ℕ) (code after : List Instruction) (lo : ℕ) (j : JumpIf) (js : List JumpIf)
    (c : JumpTest) (v : ℕ)
    → j.index < length code
    → get_elem? code j.index ≡ some (jump_if c v 0 0)
    → IsIncreasing lo (j ∷ js)
    → IsResolved at
        (set code j.index (jump_if c v (true_skip at j) (false_skip at j)))
        after
        (suc j.index)
        js
    → IsResolved at code after lo (j ∷ js)
IsResolved-step at code after lo j js c v inside e s r =
    let x = jump_if c v (true_skip at j) (false_skip at j) in
    record {
      size = r.size ∙ length-set code j.index x;
      below = λ m b.
          r.below m (omega (arith, s.0))
          ∙ get_elem?-set_ne code j.index m x (λ same. absurd (omega (arith, s.0)));
      plain = λ m y p e'.
          r.plain m y p
            (get_elem?-set_ne code j.index m x (plain-ne code j.index m c v y p e e') ∙ e');
      jumps = (
        (λ c' v' e'.
            let w : get_elem? after j.index ≡ some x =
              r.below j.index (omega arith) ∙ get_elem?-set_self code j.index x inside in
            let same : some (jump_if c v 0 0) ≡ some (jump_if c' v' 0 0) = sym e ∙ e' in cc),
        IsWritten-set at code after j.index x js (suc j.index) (omega arith) s.1 r.jumps,
      );
    }
