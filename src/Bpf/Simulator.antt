-- ===== src/Bpf/Simulator.antt =====
-- A machine that meets the laws of `Kernel` on a little-endian host, for tests.
use go_seccomp_bpf.Base.{
  ℕ, zero, suc, ◌+◌, ◌-◌, ◌*◌, ◌/◌, ◌%◌, ◌^◌, ◌≡◌, refl, Option, none, some, List, [], ◌∷◌, ◌==◌,
  if◌then◌else◌, drop, arith, ◌≤◌, ap, ◌∙◌,
}
use go_seccomp_bpf.Bpf.{
  JumpTest, Instruction, load_absolute, jump_if, jump, ret_constant, holds, SeccompData, Kernel,
  little_endian,
}

-- The 32-bit word at an offset of struct seccomp_data.
abbrev pub word : SeccompData → ℕ → ℕ
word d off =
    if off == 0
    then d.nr
    else (if off == 4
        then d.arch
        else (if off % 8 == 0
            then d.args ((off - 16) / 8) % 2 ^ 32
            else d.args ((off - 20) / 8) / 2 ^ 32))

-- `pending` instructions are passed over before the next one runs.
unfoldable pub simulate : List Instruction → ℕ → ℕ → SeccompData → Option ℕ
simulate [] n a d = none
simulate (i ∷ code) (suc n) a d = simulate code n a d
simulate (load_absolute off size ∷ code) zero a d = simulate code 0 (word d off) d
simulate (jump_if c k t f ∷ code) zero a d = simulate code (if holds c a k then t else f) a d
simulate (jump n ∷ code) zero a d = simulate code n a d
simulate (ret_constant k ∷ code) zero a d = some k

simulate-drop :
    (code : List Instruction) (n a : ℕ) (d : SeccompData)
    → simulate code n a d ≡ simulate (drop n code) 0 a d
unfolding simulate
simulate-drop code zero a d = refl
simulate-drop [] (suc n) a d = refl
simulate-drop (i ∷ code) (suc n) a d = simulate-drop code n a d

pub word_hi : (i : ℕ) (d : SeccompData) → i ≤ 5 → word d (16 + 8 * i + 4) ≡ d.args i / 2 ^ 32
word_hi i d h =
    let e : (16 + 8 * i + 4 - 20) / 8 ≡ i = omega arith in
    let m : (16 + 8 * i + 4) % 8 ≡ 4 = omega arith in ground (arith, ap d.args e)

pub word_lo : (i : ℕ) (d : SeccompData) → i ≤ 5 → word d (16 + 8 * i) ≡ d.args i % 2 ^ 32
word_lo i d h =
    let e : (16 + 8 * i - 16) / 8 ≡ i = omega arith in
    let m : (16 + 8 * i) % 8 ≡ 0 = omega arith in ground (arith, ap d.args e)

unfoldable pub run_from_start : List Instruction → ℕ → SeccompData → Option ℕ
unfolding simulate
run_from_start code a d = simulate code 0 a d

pub load_lem :
    (off size : ℕ) (code : List Instruction) (a : ℕ) (d : SeccompData)
    → run_from_start (load_absolute off size ∷ code) a d ≡ run_from_start code (word d off) d
unfolding run_from_start
load_lem off size code a d = refl

pub ret_lem :
    (k : ℕ) (code : List Instruction) (a : ℕ) (d : SeccompData)
    → run_from_start (ret_constant k ∷ code) a d ≡ some k
unfolding run_from_start
ret_lem k code a d = refl

pub jump_lem :
    (n : ℕ) (code : List Instruction) (a : ℕ) (d : SeccompData)
    → run_from_start (jump n ∷ code) a d ≡ run_from_start (drop n code) a d
unfolding run_from_start
jump_lem n code a d = simulate-drop code n a d

pub jump_if_lem :
    (c : JumpTest) (k t f : ℕ) (code : List Instruction) (a : ℕ) (d : SeccompData)
    → run_from_start (jump_if c k t f ∷ code) a d
      ≡ run_from_start (drop (if holds c a k then t else f) code) a d
unfolding run_from_start
jump_if_lem c k t f code a d = simulate-drop code (if holds c a k then t else f) a d

unfoldable pub little_machine : Kernel little_endian
little_machine = record {
  exec = run_from_start;
  exec-ret = ret_lem;
  exec-jump = jump_lem;
  exec-jump_if = jump_if_lem;
  exec-load_nr = λ code a d. load_lem 0 4 code a d;
  exec-load_arch = λ code a d. load_lem 4 4 code a d;
  exec-load_hi = λ i code a d h.
      load_lem (16 + 8 * i + 4) 4 code a d ∙ ap (λ w. run_from_start code w d) (word_hi i d h);
  exec-load_lo = λ i code a d h.
      load_lem (16 + 8 * i) 4 code a d ∙ ap (λ w. run_from_start code w d) (word_lo i d h);
}
