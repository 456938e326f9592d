-- ===== src/Resolver/Long.antt =====
-- The branch of `resolveLabel` (assembler.go) for a distance that no conditional jump can hold.
use go_seccomp_bpf.Base.{
  ℕ, zero, suc, ◌+◌, ◌-◌, ◌≤◌, ◌<◌, ◌≡◌, refl, ◌∙◌, ap, Bool, if◌then◌else◌, ◌%◌, ◌^◌, true, false,
  some, List, [], ◌∷◌, ◌++◌, map, length, get_elem?, set, take, drop, ltb, leb, pos, sub_ℕ_of_le,
  ok, le→leb, length-append, length-set, get_elem?-set_self, get_elem?-set_ne, arith,
}
use go_seccomp_bpf.Bpf.{JumpTest, Instruction, jump_if, ret_constant}
use go_seccomp_bpf.Assembler.{Index, Label, JumpIf, Program, update}
use go_seccomp_bpf.Resolver.{
  search_insert_after, find_insert_after, insert_after, update_indices, compute_skip_n, shift,
  skip_passed, resolve_long, resolve_label,
}

length-take : (n : ℕ) (xs : List Instruction) → n ≤ length xs → length (take n xs) ≡ n
length-take zero xs h = refl
length-take (suc n) [] h = absurd (omega arith)
length-take (suc n) (x ∷ xs) h = ap suc (length-take n xs (omega arith))

length-drop : (n : ℕ) (xs : List Instruction) → n ≤ length xs → length (drop n xs) + n ≡ length xs
length-drop zero xs h = omega arith
length-drop (suc n) [] h = absurd (omega arith)
length-drop (suc n) (x ∷ xs) h = omega (arith, length-drop n xs (omega arith))

-- The list that is opened at `i + 1` has one more place.
length_opened :
    (i : ℕ) (xs : List Instruction)
    → suc (suc i) ≤ length xs
    → length (take (suc (suc i)) xs ++ drop (suc i) xs) ≡ suc (length xs)
length_opened i xs h = omega (
  arith,
  length-append (take (suc (suc i)) xs) (drop (suc i) xs),
  length-take (suc (suc i)) xs h,
  length-drop (suc i) xs (omega arith),
)

-- The program with an instruction behind the jump at `i`.
abbrev pub inserted : ℕ → (jump_inst inst : Instruction) → Program → Program
inserted i jump_inst inst q =
    let xs = set q.instructions i jump_inst in
    update_indices (suc i)
      (record q { instructions = set (take (suc (suc i)) xs ++ drop (suc i) xs) (suc i) inst })

pub insert_after_lem :
    (i : ℕ) (inst : Instruction) (q : Program) (c : JumpTest) (k t f : ℕ)
    → get_elem? q.instructions i ≡ some (jump_if c k t f)
    → insert_after i inst q ≡ ok (inserted i (jump_if c k t f) inst q, suc i)
unfolding insert_after
insert_after_lem i inst q c k t f e = rw e

-- Behind the place that is opened, every element is one place further on.
get_elem?_opened :
    (a m : ℕ) (xs : List Instruction)
    → a ≤ m
    → get_elem? (take (suc a) xs ++ drop a xs) (suc m) ≡ get_elem? xs m
get_elem?_opened zero m [] h = refl
get_elem?_opened zero m (x ∷ xs) h = refl
get_elem?_opened (suc a) m [] h = refl
get_elem?_opened (suc a) zero (x ∷ xs) h = absurd (omega arith)
get_elem?_opened (suc a) (suc m) (x ∷ xs) h = get_elem?_opened a m xs (omega arith)

pub get_elem?-inserted :
    (i : ℕ) (jump_inst inst : Instruction) (q : Program) (dest : ℕ)
    → suc i ≤ dest
    → get_elem? (inserted i jump_inst inst q).instructions (suc dest)
      ≡ get_elem? q.instructions dest
unfolding update_indices
get_elem?-inserted i jump_inst inst q dest h =
    get_elem?-set_ne _ (suc i) (suc dest) inst (λ e. absurd (omega (arith, e)))
    ∙ get_elem?_opened (suc i) dest (set q.instructions i jump_inst) h
    ∙ get_elem?-set_ne q.instructions i dest jump_inst (λ e. absurd (omega (arith, e)))

pub labels-inserted :
    (i : ℕ) (jump_inst inst : Instruction) (q : Program) (label : Label) (dest : ℕ)
    (others : List Index)
    → q.labels label ≡ dest ∷ others
    → suc i ≤ dest
    → (inserted i jump_inst inst q).labels label ≡ suc dest ∷ map (shift (suc i)) others
unfolding update_indices shift
labels-inserted i jump_inst inst q label dest others e h = rw e (rw (le→leb (suc i) dest h) refl)

pub update_self : (m : Label → List Index) (l : Label) (v : List Index) → update m l v l ≡ v
update_self m l v = ground arith

pub get_elem?-inserted_self :
    (i : ℕ) (jump_inst inst : Instruction) (q : Program)
    → suc (suc i) ≤ length q.instructions
    → get_elem? (inserted i jump_inst inst q).instructions (suc i) ≡ some inst
unfolding update_indices
get_elem?-inserted_self i jump_inst inst q len =
    let xs = set q.instructions i jump_inst in
    let same = length-set q.instructions i jump_inst in
    get_elem?-set_self _ (suc i) inst
      (omega (arith, length_opened i xs (omega (arith, same)), same))

ltb_lt : (a b : ℕ) → ltb a b ≡ true → a < b
ltb_lt a b h = ground arith

chosen_lt :
    (b : Bool) (j found : JumpIf) (m : ℕ)
    → (b ≡ true → j.index < m)
    → found.index < m
    → (if b then j else found).index < m
chosen_lt true j found m near h = near refl
chosen_lt false j found m near h = h

-- The jump behind which a new instruction goes is in reach.
search_insert_after-lt :
    (current found : JumpIf) (js : List JumpIf)
    → found.index < current.index + 255
    → (search_insert_after current found js).index < current.index + 255
unfolding search_insert_after
search_insert_after-lt current found [] h = h
search_insert_after-lt current found (j ∷ js) h =
    search_insert_after-lt current (if ltb j.index (current.index + 255) then j else found) js (
      chosen_lt (ltb j.index (current.index + 255)) j found (current.index + 255)
        (ltb_lt j.index (current.index + 255)) h)

lt_of_get_elem? :
    (xs : List Instruction) (i : ℕ) (x : Instruction) → get_elem? xs i ≡ some x → i < length xs
lt_of_get_elem? [] i x h = cc
lt_of_get_elem? (y ∷ xs) zero x h = omega arith
lt_of_get_elem? (y ∷ xs) (suc i) x h = omega (arith, lt_of_get_elem? xs i x h)

compute_skip_n_lem :
    (j : JumpIf) (dest skip_n : ℕ)
    → dest ≡ suc (j.index + skip_n)
    → compute_skip_n j dest ≡ pos skip_n
unfolding compute_skip_n
compute_skip_n_lem j dest skip_n h =
    sub_ℕ_of_le dest (suc j.index) (omega (arith, h)) ∙ ap pos (omega (arith, h))

skip_passed_first :
    (j : JumpIf) (dest : ℕ) (others : List Index) (skip_n : ℕ)
    → dest ≡ suc (j.index + skip_n)
    → skip_passed j (dest ∷ others) ≡ ok (dest, others, skip_n)
unfolding skip_passed
skip_passed_first j dest others skip_n h = rw (compute_skip_n_lem j dest skip_n h, skip_passed) refl

leb-false : (n : ℕ) → 255 < n → leb n 255 ≡ false
leb-false n h = ground arith

-- The first position of the label is ahead and too far.
resolve_label-far :
    (j : JumpIf) (label : Label) (dest : ℕ) (others : List Index) (skip_n : ℕ) (q : Program)
    → q.labels label ≡ dest ∷ others
    → dest ≡ suc (j.index + skip_n)
    → 255 < skip_n
    → resolve_label j label q
      ≡ resolve_long j label dest skip_n
          (record q { labels = update q.labels label (dest ∷ others) })
unfolding resolve_label
resolve_label-far j label dest others skip_n q el ed far =
    rw (el, resolve_label)
      (rw (skip_passed_first j dest others skip_n ed) (rw (leb-false skip_n far) refl))

-- Let the first position of a label be more than 255 instructions behind a jump and hold a return, and
-- let the last jump in reach be at `i`, not in front of the jump. Then the return is copied behind `i`,
-- and the skip that is returned, at most 254, leads the jump to the copy. The label has the copy as its
-- first position, and its others are moved with the instructions behind the copy; the return itself is
-- at the second.
pub resolve_label-copies_return :
    (j : JumpIf) (label : Label) (dest : ℕ) (others : List Index) (skip_n i : ℕ) (q : Program)
    (c : JumpTest) (k t f value : ℕ)
    → q.labels label ≡ dest ∷ others
    → dest ≡ suc (j.index + skip_n)
    → 255 < skip_n
    → (find_insert_after q.jumps j).index ≡ i
    → j.index ≤ i
    → get_elem? q.instructions i ≡ some (jump_if c k t f)
    → get_elem? q.instructions dest ≡ some (ret_constant value)
    → (p : Program) × (s : ℕ) × (resolve_label j label q ≡ ok (p, s))
      × (s ≤ 254)
      × (get_elem? p.instructions (suc (j.index + s)) ≡ some (ret_constant value))
      × (p.labels label ≡ suc (j.index + s) ∷ suc dest ∷ map (shift (suc i)) others)
      × (get_elem? p.instructions (suc dest) ≡ some (ret_constant value))
unfolding resolve_long compute_skip_n update_indices find_insert_after
resolve_label-copies_return j label dest others skip_n i q c k t f value el ed far ei front e ex =
    let q' = record q { labels = update q.labels label (dest ∷ others) } in
    let inst = jump_if c k t f in
    let copy = ret_constant value in
    let p1 = inserted i inst copy q' in
    let reach : i < j.index + 255 =
      omega (arith, search_insert_after-lt j j q.jumps (omega arith), ei) in
    let place : j.index + (i - j.index) ≡ i = omega arith in
    let inside : suc i ≤ dest = omega arith in
    let len : suc (suc i) ≤ length q.instructions =
      omega (arith, lt_of_get_elem? q.instructions dest copy ex) in
    let r = record p1 { labels = update p1.labels label (suc i ∷ p1.labels label) } in
    let distance : (suc i - suc j.index) % 2 ^ 8 ≡ i - j.index = omega arith in
    (
      r,
      i - j.index,
      resolve_label-far j label dest others skip_n q el ed far
          ∙ rw (ei, ex, insert_after_lem i copy q' c k t f e)
              (rw (sub_ℕ_of_le (suc i) (suc j.index) (omega arith))
                (ap (λ (s : ℕ). ok (r, s)) distance)),
      omega arith,
      rw place (get_elem?-inserted_self i inst copy q' len),
      rw place (
          update_self p1.labels label (suc i ∷ p1.labels label)
          ∙ ap (◌∷◌ (suc i)) (
              labels-inserted i inst copy q' label dest others
                (update_self q.labels label (dest ∷ others)) inside)),
      get_elem?-inserted i inst copy q' dest inside ∙ ex,
    )
