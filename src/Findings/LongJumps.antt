-- ===== src/Findings/LongJumps.antt =====
-- Where the long jumps of assembler.go do not do what they mean to.
use go_seccomp_bpf.Base.{
  ℕ, suc, ◌+◌, ◌-◌, ◌^◌, ◌≤◌, ◌<◌, ◌≡◌, ◌∙◌, ap, some, List, ◌∷◌, map, length, get_elem?, sub_ℕ,
  sub_ℕ_of_le, ok, arith,
}
use go_seccomp_bpf.Bpf.{JumpTest, Instruction, load_absolute, jump_if, jump, ret_constant}
use go_seccomp_bpf.Assembler.{Index, Label, JumpIf, Program, update}
use go_seccomp_bpf.Resolver.{
  find_insert_after, update_indices, compute_skip_n, short_skip, copy_or_jump, shift, resolve_long,
}
use go_seccomp_bpf.Resolver.Long.{
  inserted, insert_after_lem, get_elem?-inserted, get_elem?-inserted_self, labels-inserted,
  update_self,
}

abbrev pub IsNoReturn : Instruction → Type 0
IsNoReturn (ret_constant k) = ⊥
IsNoReturn _ = Unit

copy_or_jump-long :
    (x : Instruction) (n i : ℕ)
    → IsNoReturn x
    → i ≤ n
    → n < 2 ^ 32
    → copy_or_jump (some x) (sub_ℕ n i) ≡ ok (jump (n - i))
copy_or_jump-long (ret_constant k) n i r h b = elim r [ ]
copy_or_jump-long (load_absolute off size) n i r h b =
    rw (sub_ℕ_of_le n i h) (ap (λ m. ok (jump m)) (omega arith))
copy_or_jump-long (jump_if c k t f) n i r h b =
    rw (sub_ℕ_of_le n i h) (ap (λ m. ok (jump m)) (omega arith))
copy_or_jump-long (jump skip) n i r h b =
    rw (sub_ℕ_of_le n i h) (ap (λ m. ok (jump m)) (omega arith))

-- Let the first position of a label be too far for a jump and hold no return, let the last jump in reach
-- be at `i`, and let `i` be at most the distance. Then a long jump is inserted behind `i`, the instruction
-- at the position stands one further on, where the label now says that it is behind the long jump, and
-- the long jump lands as many instructions in front of it as the index of the jump says. So it is right
-- only for a jump at index 0.
pub resolve_long-lands_short :
    (j : JumpIf) (label : Label) (dest : ℕ) (others : List Index) (skip_n i : ℕ) (q : Program)
    (c : JumpTest) (k t f : ℕ) (x : Instruction)
    → q.labels label ≡ dest ∷ others
    → dest ≡ suc (j.index + skip_n)
    → (find_insert_after q.jumps j).index ≡ i
    → i ≤ skip_n
    → skip_n < 2 ^ 32
    → get_elem? q.instructions i ≡ some (jump_if c k t f)
    → get_elem? q.instructions dest ≡ some x
    → IsNoReturn x
    → suc (suc i) ≤ length q.instructions
    → (p : Program) × (s : ℕ) × (resolve_long j label dest skip_n q ≡ ok (p, s))
      × (get_elem? p.instructions (suc i) ≡ some (jump (skip_n - i)))
      × (p.labels label ≡ suc i ∷ suc dest ∷ map (shift (suc i)) others)
      × (get_elem? p.instructions (suc dest) ≡ some x)
      × (suc (suc i) + (skip_n - i) + j.index ≡ suc dest)
unfolding resolve_long update_indices
resolve_long-lands_short j label dest others skip_n i q c k t f x el ed ei h b e ex r len =
    let p1 = inserted i (jump_if c k t f) (jump (skip_n - i)) q in
    (
      record p1 { labels = update p1.labels label (suc i ∷ p1.labels label) },
      short_skip (compute_skip_n j (suc i)),
      rw (ei, ex, copy_or_jump-long x skip_n i r h b)
          (rw (insert_after_lem i (jump (skip_n - i)) q c k t f e)),
      get_elem?-inserted_self i (jump_if c k t f) (jump (skip_n - i)) q len,
      update_self p1.labels label (suc i ∷ p1.labels label)
          ∙ ap (◌∷◌ (suc i)) (
              labels-inserted i (jump_if c k t f) (jump (skip_n - i)) q label dest others el
                (omega arith)),
      get_elem?-inserted i (jump_if c k t f) (jump (skip_n - i)) q dest (omega arith) ∙ ex,
      omega arith,
    )
