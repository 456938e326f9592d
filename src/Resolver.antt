-- ===== src/Resolver.antt =====
-- assembler.go, `Program.Assemble`: the resolution of symbolic jumps. A distance above 255 gets a
-- copy of a return, or a long jump, behind the last jump that is within reach.
-- `int` values are ℤ where they can be negative, and the conversions to uint8 and uint32 wrap.
pub mod Short
pub mod Correct
pub mod Long
use go_seccomp_bpf.Base.{
  ℕ, zero, suc, ◌+◌, ◌&&◌, Option, none, some, List, [], ◌∷◌, ◌++◌, map, ltb, leb, ◌==◌,
  if◌then◌else◌, length, get_elem?, set, take, drop, ℤ, pos, negsuc, sub_ℕ, to_u32, to_u8, Result,
  ok, err, ◌>>=◌, backward_jump, useless_jump, panic,
}
use go_seccomp_bpf.Bpf.{Instruction, jump_if, jump, ret_constant}
use go_seccomp_bpf.Assembler.{Index, Label, JumpIf, Program, update}

-- `int(dest[0]-jump.index) - 1`, for the first position of a label.
unfoldable pub compute_skip_n : JumpIf → Index → ℤ
compute_skip_n j dest = sub_ℕ dest (suc j.index)

-- The jump behind which a new instruction goes: the last in the list below `current + 255`.
unfoldable pub search_insert_after : JumpIf → JumpIf → List JumpIf → JumpIf
search_insert_after current found [] = found
search_insert_after current found (j ∷ js) =
    search_insert_after current (if ltb j.index (current.index + 255) then j else found) js

unfoldable pub find_insert_after : List JumpIf → JumpIf → JumpIf
unfolding search_insert_after
find_insert_after jumps current = search_insert_after current current jumps

-- An index at or behind the new instruction moves by one.
unfoldable pub shift : Index → Index → Index
shift after i = if leb after i then suc i else i

abbrev pub shift_jump : Index → JumpIf → JumpIf
shift_jump after j = record j { index = shift after j.index }

unfoldable pub update_indices : Index → Program → Program
unfolding shift
update_indices after p = record p {
  jumps = map (shift_jump after) p.jumps;
  labels = λ l. map (shift after) (p.labels l);
}

-- The instruction at an index, if it is a conditional jump; else the type assertion panics.
abbrev pub as_jump_if : Option Instruction → Result Instruction
as_jump_if (some (jump_if c k t f)) = ok (jump_if c k t f)
as_jump_if _ = err panic

-- The new instruction comes behind the jump at `index`; its own index is returned.
unfoldable pub insert_after : Index → Instruction → Program → Result (Program × Index)
unfolding update_indices
insert_after index inst p = do
  jump_inst ← as_jump_if (get_elem? p.instructions index)
  let instructions = set p.instructions index jump_inst
  let opened = take (suc (suc index)) instructions ++ drop (suc index) instructions
  let written = set opened (suc index) inst
  ok (update_indices (suc index) (record p { instructions = written }), suc index)

-- The loop of `resolveLabel` over the positions that the jump has passed: the first that is left,
-- those behind it, and the distance to the first.
unfoldable pub skip_passed : JumpIf → List Index → Result (Index × List Index × ℕ)
unfolding compute_skip_n
skip_passed j [] = err backward_jump
skip_passed j (d ∷ ds) =
    let rest = skip_passed j ds in
    elim (compute_skip_n j d) [ pos n ↦ ok (d, ds, n) | negsuc n ↦ rest ]

-- An early return where the destination returns, else a long jump.
abbrev pub copy_or_jump : Option Instruction → ℤ → Result Instruction
copy_or_jump none skip = err panic
copy_or_jump (some (ret_constant k)) skip = ok (ret_constant k)
copy_or_jump (some _) skip = ok (jump (to_u32 skip))

-- `uint8(skipN)` of the distance to the inserted instruction.
abbrev pub short_skip : ℤ → ℕ
short_skip (pos n) = to_u8 n
short_skip (negsuc n) = to_u8 (to_u32 (negsuc n))

-- The branch of `resolveLabel` for a distance that no conditional jump can hold.
unfoldable pub resolve_long : JumpIf → Label → Index → ℕ → Program → Result (Program × ℕ)
unfolding find_insert_after insert_after compute_skip_n
resolve_long j label dest skip_n p =
    let after = find_insert_after p.jumps j in
    do
      inst ← copy_or_jump (get_elem? p.instructions dest) (sub_ℕ skip_n after.index)
      (p1, index) ← insert_after after.index inst p
      ok (
        record p1 { labels = update p1.labels label (index ∷ p1.labels label) },
        short_skip (compute_skip_n j index),
      )

abbrev pub resolve_first : JumpIf → Label → Program → Index × List Index × ℕ → Result (Program × ℕ)
resolve_first j label p (dest, others, skip_n) =
    let p1 = record p { labels = update p.labels label (dest ∷ others) } in
    if leb skip_n 255 then ok (p1, to_u8 skip_n) else resolve_long j label dest skip_n p1

unfoldable pub resolve_label : JumpIf → Label → Program → Result (Program × ℕ)
unfolding skip_passed resolve_long
resolve_label j label p = elim (p.labels label) [
  | [] ↦ err panic
  | d ∷ ds ↦ skip_passed j (d ∷ ds) >>= resolve_first j label p
]

abbrev pub with_skips : Instruction → ℕ → ℕ → Instruction
with_skips (jump_if c k _ _) skip_true skip_false = jump_if c k skip_true skip_false
with_skips inst skip_true skip_false = inst

abbrev pub patch : JumpIf → Instruction → ℕ → ℕ → Program → Result Program
patch j inst skip_true skip_false p =
    if skip_true == 0 && skip_false == 0
    then err useless_jump
    else ok (record p {
      instructions = set p.instructions j.index (with_skips inst skip_true skip_false);
    })

-- The body of the loop of `Assemble`.
unfoldable pub resolve_jump : JumpIf → Program → Result Program
unfolding resolve_label
resolve_jump j p = do
  inst ← as_jump_if (get_elem? p.instructions j.index)
  (p1, skip_true) ← resolve_label j j.true_label p
  (p2, skip_false) ← resolve_label j j.false_label p1
  patch j inst skip_true skip_false p2

-- The loop over the jumps from the `i`-th on, of which `n` are left. It reads each from the program,
-- since an insertion has moved those behind it.
unfoldable pub resolve_jumps : ℕ → ℕ → Program → Result Program
unfolding resolve_jump
resolve_jumps zero i p = ok p
resolve_jumps (suc n) i p = elim (get_elem? p.jumps i) [
  | none ↦ err panic
  | some j ↦ resolve_jump j p >>= resolve_jumps n (suc i)
]

unfoldable pub assemble : Program → Result (List Instruction)
unfolding resolve_jumps
assemble p = do resolved ← resolve_jumps (length p.jumps) 0 p; ok resolved.instructions
