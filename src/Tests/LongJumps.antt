-- ===== src/Tests/LongJumps.antt =====
-- A long jump and an early return of assembler.go.
use go_seccomp_bpf.Base.{
  ℕ, zero, suc, ◌+◌, ◌-◌, ◌≤◌, ◌++◌, ◌≡◌, refl, some, List, [], ◌∷◌, get_elem?, ok, arith,
}
use go_seccomp_bpf.Bpf.{Instruction, jump_if, jump, jump_equal, load_absolute, ret_constant}
use go_seccomp_bpf.Assembler.{Program}
use go_seccomp_bpf.Resolver.Long.{resolve_label-copies_return}
use go_seccomp_bpf.Resolver.{resolve_long, resolve_label, find_insert_after, search_insert_after}
use go_seccomp_bpf.Findings.LongJumps.{resolve_long-lands_short}

abbrev loads : ℕ → List Instruction
loads zero = []
loads (suc n) = load_absolute 0 4 ∷ loads n

-- A load, a jump, and its destination 301 instructions further on.
abbrev far_jump : Program
far_jump = record {
  instructions = load_absolute 0 4 ∷ jump_if jump_equal 7 0 0 ∷ loads 310;
  jumps = record { index = 1; true_label = 2; false_label = 3 } ∷ [];
  labels = λ l. elim l [
    | zero ↦ []
    | suc n ↦ (elim n [ zero ↦ [] | suc m ↦ (elim m [ zero ↦ 302 ∷ [] | suc k ↦ 2 ∷ [] ]) ])
  ];
  next_label = 3;
}

resolve_long-lands_short_example :
    (p : Program) × (s : ℕ) × (resolve_long
        (record { index = 1; true_label = 2; false_label = 3 })
        2
        302
        300
        far_jump
      ≡ ok (p, s))
    × (get_elem? p.instructions 2 ≡ some (jump (300 - 1)))
    × (p.labels 2 ≡ 2 ∷ 303 ∷ [])
    × (get_elem? p.instructions 303 ≡ some (load_absolute 0 4))
    × (3 + (300 - 1) + 1 ≡ 303)
unfolding find_insert_after search_insert_after
resolve_long-lands_short_example =
    resolve_long-lands_short (record { index = 1; true_label = 2; false_label = 3 }) 2 302 [] 300 1
      far_jump jump_equal 7 0 0 (load_absolute 0 4) refl refl refl (omega arith) (omega arith) refl
      refl tt (omega arith)

-- A load, two jumps, and a return 300 instructions behind the first jump.
abbrev far_return : Program
far_return = record {
  instructions =
      load_absolute 0 4
      ∷ jump_if jump_equal 7 0 0
      ∷ jump_if jump_equal 8 0 0
      ∷ (loads 299 ++ ret_constant 5 ∷ []);
  jumps =
      record { index = 1; true_label = 2; false_label = 3 }
      ∷ record { index = 2; true_label = 2; false_label = 3 }
      ∷ [];
  labels = far_jump.labels;
  next_label = 3;
}

resolve_label-copies_return_example :
    (p : Program) × (s : ℕ) × (resolve_label
        (record { index = 1; true_label = 2; false_label = 3 })
        2
        far_return
      ≡ ok (p, s))
    × (s ≤ 254)
    × (get_elem? p.instructions (suc (1 + s)) ≡ some (ret_constant 5))
    × (p.labels 2 ≡ suc (1 + s) ∷ 303 ∷ [])
    × (get_elem? p.instructions 303 ≡ some (ret_constant 5))
unfolding find_insert_after search_insert_after
resolve_label-copies_return_example =
    resolve_label-copies_return (record { index = 1; true_label = 2; false_label = 3 }) 2 302 [] 300
      2 far_return jump_equal 8 0 0 5 refl refl (omega arith) refl (omega arith) refl refl
