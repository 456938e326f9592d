-- ===== src/Findings/Accumulator.antt =====
-- Where the code of filter.go takes a word of an argument for the number of the system call.
use Prim.Native.Char.{Char}
use go_seccomp_bpf.Base.{
  ℕ, ◌≤◌, ◌≡◌, refl, sym, ◌∙◌, ap, inl, inr, String, Bool, true, false, ◌||◌, some, List, [], ◌∷◌,
  ◌++◌, All, length, ok, ◌==◌, if◌then◌else◌, is_empty, Bool-cases, arith,
}
use go_seccomp_bpf.Bpf.{SeccompData, ByteOrder, Kernel, Instruction}
use go_seccomp_bpf.Arch.{Info}
use go_seccomp_bpf.Assembler.{ret_value}
use go_seccomp_bpf.Filter.{ArgumentConditions, SyscallWithConditions}
use go_seccomp_bpf.Policy.{Policy, validate, arch_of, assemble_policy}
use go_seccomp_bpf.Decision.{
  Translated, IsWellFormed, IsProperSet, IsProper, check_arguments, check_sets, check_syscall,
  check_syscalls, check_groups,
}
use go_seccomp_bpf.Specification.{
  condition_holds, set_holds, some_set_holds, entry_matches, some_entry_matches, first_match,
}
use go_seccomp_bpf.Specification.Words.{last_word_of, check_condition_words}
use go_seccomp_bpf.Correctness.Header.{is_x32}
use go_seccomp_bpf.Correctness.Groups.{translate}
use go_seccomp_bpf.Correctness.Proper.{IsUsableGroup, translate-IsProperGroup}
use go_seccomp_bpf.Correctness.Meaning.{first_group, first_match-eq-first_group}
use go_seccomp_bpf.Correctness.Verdict.{built}
use go_seccomp_bpf.Correctness.Program.{assemble_policy-check_groups}

-- What the accumulator holds behind a list of conditions, which is left at the first that fails.
unfoldable pub left_by_set : SeccompData → ArgumentConditions → ℕ → ℕ
left_by_set d [] a = a
left_by_set d (c ∷ cs) a =
    let rest = left_by_set d cs (last_word_of d c) in
    if condition_holds d c then rest else last_word_of d c

-- What it holds behind lists of conditions that do not hold.
unfoldable pub left_by_sets : SeccompData → List ArgumentConditions → ℕ → ℕ
unfolding left_by_set
left_by_sets d [] a = a
left_by_sets d (s ∷ ss) a = left_by_sets d ss (left_by_set d s a)

-- An entry has this number.
unfoldable pub is_listed : ℕ → List SyscallWithConditions → Bool
is_listed n [] = false
is_listed n (s ∷ ss) = n == s.num || is_listed n ss

-- The action of the first group with an entry of this number.
unfoldable pub first_listed : ℕ → List Translated → (default : ℕ) → ℕ
unfolding is_listed
first_listed n [] default = default
first_listed n ((ss, action) ∷ gs) default =
    if is_listed n ss then action else first_listed n gs default

-- The group has names and no conditions.
abbrev pub HasOnlyNames : Translated → Type 0
HasOnlyNames (ss, action) = All (λ s. is_empty s.conditions ≡ true) ss

module _ {ℓ} {A : Type ℓ} (d : SeccompData) where
  check_arguments_words :
      (cs : ArgumentConditions) (t f : ℕ → A) (a : ℕ)
      → All IsWellFormed cs
      → check_arguments d cs t f a
        ≡ (if set_holds d cs then t (left_by_set d cs a) else f (left_by_set d cs a))
  unfolding check_arguments set_holds left_by_set
  check_arguments_words [] t f a w = refl
  check_arguments_words (c ∷ cs) t f a w = elim (Bool-cases (condition_holds d c)) [
    | inl y ↦
        rw (check_condition_words d c (check_arguments d cs t f) f w.0, y)
          (check_arguments_words cs t f (last_word_of d c) w.1)
    | inr n ↦ rw (check_condition_words d c (check_arguments d cs t f) f w.0, n) refl
  ]

  check_sets-failed :
      (ss : List ArgumentConditions) (t f : ℕ → A) (a : ℕ)
      → All IsProperSet ss
      → some_set_holds d ss ≡ false
      → check_sets d ss t f a ≡ f (left_by_sets d ss a)
  unfolding check_sets some_set_holds left_by_sets
  check_sets-failed [] t f a w h = refl
  check_sets-failed (s ∷ ss) t f a w h = elim (Bool-cases (set_holds d s)) [
    | inl y ↦ let never : true ≡ false = rw y at h in cc
    | inr n ↦
        check_arguments_words s t (check_sets d ss t f) a w.0.conditions
        ∙ rw n (check_sets-failed ss t f (left_by_set d s a) w.1 (rw n at h))
  ]

  check_syscalls-failed :
      (ss : List SyscallWithConditions) (s : SyscallWithConditions) (t f : ℕ → A)
      → All (λ u. (d.nr == u.num) ≡ false) ss
      → (d.nr == s.num) ≡ true
      → is_empty s.conditions ≡ false
      → All IsProperSet s.conditions
      → some_set_holds d s.conditions ≡ false
      → check_syscalls d (ss ++ s ∷ []) t f d.nr ≡ f (left_by_sets d s.conditions d.nr)
  unfolding check_syscalls check_syscall
  check_syscalls-failed [] s t f others same given w h =
      rw (given, same) (check_sets-failed s.conditions t f d.nr w h)
  check_syscalls-failed (u ∷ ss) s t f others same given w h =
      elim (Bool-cases (is_empty u.conditions)) [
        | inl y ↦ rw (y, others.0) (check_syscalls-failed ss s t f others.1 same given w h)
        | inr n ↦ rw (n, others.0) (check_syscalls-failed ss s t f others.1 same given w h)
      ]

  check_syscalls-names :
      (ss : List SyscallWithConditions) (r : A) (f : ℕ → A) (a : ℕ)
      → All (λ s. is_empty s.conditions ≡ true) ss
      → check_syscalls d ss (λ _. r) f a ≡ (if is_listed a ss then r else f a)
  unfolding check_syscalls check_syscall is_listed
  check_syscalls-names [] r f a w = refl
  check_syscalls-names (s ∷ ss) r f a w = elim (Bool-cases (a == s.num)) [
    | inl y ↦ rw (w.0, y) refl
    | inr n ↦ rw (w.0, n) (check_syscalls-names ss r f a w.1)
  ]

-- The tests of groups of names look the accumulator up in them, whatever it holds.
check_groups-names :
    (d : SeccompData) (gs : List Translated) (default a : ℕ)
    → All HasOnlyNames gs
    → check_groups d gs default a ≡ some (ret_value (first_listed a gs default))
unfolding check_groups first_listed
check_groups-names d [] default a w = refl
check_groups-names d ((ss, action) ∷ gs) default a w =
    check_syscalls-names d ss (some (ret_value action)) (check_groups d gs default) a w.0
    ∙ elim (Bool-cases (is_listed a ss)) [
      | inl y ↦ rw y refl
      | inr n ↦ rw n (check_groups-names d gs default a w.1)
    ]

some_entry_matches-names :
    (d : SeccompData) (ss : List SyscallWithConditions)
    → All (λ s. is_empty s.conditions ≡ true) ss
    → some_entry_matches d ss ≡ is_listed d.nr ss
unfolding some_entry_matches entry_matches is_listed
some_entry_matches-names d [] w = refl
some_entry_matches-names d (s ∷ ss) w = elim (Bool-cases (d.nr == s.num)) [
  | inl y ↦ rw (w.0, y) refl
  | inr n ↦ rw (w.0, n) (some_entry_matches-names d ss w.1)
]

first_match-names :
    (d : SeccompData) (gs : List Translated) (default : ℕ)
    → All HasOnlyNames gs
    → first_match d gs default ≡ first_listed d.nr gs default
unfolding first_match first_listed
first_match-names d [] default w = refl
first_match-names d ((ss, action) ∷ gs) default w =
    rw (some_entry_matches-names d ss w.0)
      (ap (λ r. if is_listed d.nr ss then action else r) (first_match-names d gs default w.1))

no_entry_matches :
    (d : SeccompData) (ss : List SyscallWithConditions) (s : SyscallWithConditions)
    → All (λ u. (d.nr == u.num) ≡ false) ss
    → is_empty s.conditions ≡ false
    → some_set_holds d s.conditions ≡ false
    → some_entry_matches d (ss ++ s ∷ []) ≡ false
unfolding some_entry_matches entry_matches
no_entry_matches d [] s others given h = ground (arith, given, h)
no_entry_matches d (u ∷ ss) s others given h =
    rw others.0 (no_entry_matches d ss s others.1 given h)

All-last :
    (P : SyscallWithConditions → Type 0) (ss : List SyscallWithConditions)
    (s : SyscallWithConditions)
    → All P (ss ++ s ∷ [])
    → P s
All-last P [] s h = h.0
All-last P (u ∷ ss) s h = All-last P ss s h.1

-- Let the first group of a policy that is not empty end with an entry for the system call of a call, whose
-- conditions do not hold, have no other entry for it, and be followed by groups of names without
-- conditions. Then the assembled program treats the call as that of the number which the conditions have
-- left in the accumulator, a word of an argument: it returns the action of the first of these groups that
-- lists this word, where the policy means the first that lists the number of the call. The policy is
-- valid, its lists of conditions are decoded and not empty, its code has at most 256 instructions, and the
-- call is of the policy's architecture and not of x32.
pub assemble_policy-confused :
    (lower : Char → Char) (goarch : String) (order : ByteOrder) (p : Policy) (arch : Info)
    (vm : Kernel order) (a : ℕ) (d : SeccompData) (ss : List SyscallWithConditions)
    (s : SyscallWithConditions) (action : ℕ) (gs : List Translated)
    → validate p ≡ ok tt
    → arch_of lower goarch p ≡ ok arch
    → translate arch p.syscalls ≡ ok ((ss ++ s ∷ [], action) ∷ gs)
    → All IsUsableGroup p.syscalls
    → length (built order ((ss ++ s ∷ [], action) ∷ gs) p.default_action).instructions ≤ 256
    → (d.arch == arch.id) ≡ true
    → is_x32 arch d ≡ false
    → All (λ u. (d.nr == u.num) ≡ false) ss
    → (d.nr == s.num) ≡ true
    → is_empty s.conditions ≡ false
    → some_set_holds d s.conditions ≡ false
    → All HasOnlyNames gs
    → (prog : List Instruction) × (assemble_policy lower goarch order p ≡ ok prog)
      × (vm.exec prog a d
          ≡ some (ret_value (first_listed (left_by_sets d s.conditions d.nr) gs p.default_action)))
      × (first_group arch d p.syscalls p.default_action ≡ first_listed d.nr gs p.default_action)
unfolding check_groups first_match
assemble_policy-confused lower goarch order p arch vm a d ss s action gs valid selected translated
      usable short same native others own given failed names =
    let ts = (ss ++ s ∷ [], action) ∷ gs in
    let (prog, done, e) =
      assemble_policy-check_groups lower goarch order p arch ts valid selected translated usable
        short vm a d in
    let proper = translate-IsProperGroup arch p.syscalls ts usable translated in
    let found : check_groups d ts p.default_action d.nr
        ≡ check_groups d gs p.default_action (left_by_sets d s.conditions d.nr) =
      check_syscalls-failed d ss s (λ _. some (ret_value action))
        (check_groups d gs p.default_action) others own given (All-last IsProper ss s proper.0.1)
        failed in
    (
      prog,
      done,
      e
          ∙ rw (same, native)
              (found
                ∙ check_groups-names d gs p.default_action (left_by_sets d s.conditions d.nr)
                    names),
      sym (first_match-eq-first_group arch d p.syscalls ts p.default_action translated)
          ∙ rw (no_entry_matches d ss s others given failed)
              (first_match-names d gs p.default_action names),
    )
