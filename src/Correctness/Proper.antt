-- ===== src/Correctness/Proper.antt =====
-- What `toSyscallsWithConditions` (filter.go) returns can be assembled: it is not empty, and its conditions
-- have arguments in range, since `Validate` has passed them.
use go_seccomp_bpf.Base.{
  ℕ, ◌+◌, ◌<◌, ◌^◌, ◌≡◌, refl, sym, ◌∙◌, subst, inl, inr, String, true, false, some, List, [], ◌∷◌,
  ◌++◌, All, length, ltb, ◌==◌, is_empty, Bool-cases, Option-cases, Problem, ok, arith,
}
use go_seccomp_bpf.Arch.{Info, number_of}
use go_seccomp_bpf.Filter.{Condition, ArgumentConditions, SyscallWithConditions}
use go_seccomp_bpf.Group.{
  NameWithConditions, SyscallGroup, validate_conditions, get_syscall, append_conditions, masked,
  Found, add_number, add_name, add_names, add_conditional, validated, add_name_with_conditions,
  add_names_with_conditions, to_syscalls_with_conditions,
}
use go_seccomp_bpf.Policy.{arch_or}
use go_seccomp_bpf.Decision.{IsKnown, IsWellFormed, IsNonempty, IsProperSet, IsProper, Translated}
use go_seccomp_bpf.Decision.Groups.{IsProperGroup}
use go_seccomp_bpf.Layout.Operations.{All-snoc}
use go_seccomp_bpf.Correctness.Translation.{
  without_problems_ok, is_empty-append, is_empty-append_cons,
}
use go_seccomp_bpf.Correctness.Groups.{has_no_names, translate, translate-cons, translate_skip}

-- What decoding a configuration checks of a condition.
abbrev pub IsDecoded : Condition → Type 0
IsDecoded c = IsKnown c.operation × (c.value < 2 ^ 64)

-- A list of conditions is not empty, and its operations and values are as decoded.
abbrev pub IsUsable : NameWithConditions → Type 0
IsUsable nc = IsNonempty nc.conditions × All IsDecoded nc.conditions

IsWellFormed-validated :
    (cs : ArgumentConditions)
    → is_empty (validate_conditions cs) ≡ true
    → All IsDecoded cs
    → All IsWellFormed cs
unfolding validate_conditions
IsWellFormed-validated [] h u = tt
IsWellFormed-validated (c ∷ cs) h u = elim (Bool-cases (ltb 5 c.argument)) [
  | inl y ↦ let both : false ≡ true = rw y at h in cc
  | inr n ↦ (
    record { in_range = ground arith; known = u.0.0; is_u64 = u.0.1 },
    IsWellFormed-validated cs (rw n at h) u.1,
  )
]

IsProper-append_conditions :
    (ss : List SyscallWithConditions) (num : ℕ) (cs : ArgumentConditions)
    → IsProperSet cs
    → All IsProper ss
    → All IsProper (append_conditions ss num cs)
unfolding append_conditions
IsProper-append_conditions [] num cs p h = tt
IsProper-append_conditions (s ∷ ss) num cs p h = elim (Bool-cases (s.num == num)) [
  | inl y ↦ rw y (All-snoc IsProperSet s.conditions cs h.0 p, h.1)
  | inr n ↦ rw n (h.0, IsProper-append_conditions ss num cs p h.1)
]

append_conditions-nonempty :
    (ss : List SyscallWithConditions) (num : ℕ) (cs : ArgumentConditions)
    (s : SyscallWithConditions)
    → get_syscall ss num ≡ some s
    → is_empty (append_conditions ss num cs) ≡ false
unfolding append_conditions get_syscall
append_conditions-nonempty [] num cs s h = cc
append_conditions-nonempty (s' ∷ ss) num cs s h = ground arith

-- A step keeps the entries proper, and leaves some entry if it leaves no problem.
abbrev Steps : Found → Found → Type 0
Steps found found' =
    (All IsProper found.0 → All IsProper found'.0)
    × (is_empty found'.1 ≡ true → is_empty found'.0 ≡ false)

Steps-problems :
    (ss : List SyscallWithConditions) (es : List Problem) (e : Problem) (more : List Problem)
    → Steps (ss, es) (ss, es ++ e ∷ more)
Steps-problems ss es e more =
    ((λ p. p), λ h. let both : true ≡ false = sym h ∙ is_empty-append_cons es e more in cc)

Steps-add_name :
    (arch : Info) (name : String) (found : Found) → Steps found (add_name arch name found)
unfolding add_name add_number
Steps-add_name arch name (ss, es) = elim (Option-cases (number_of name arch.syscall_names)) [
  | inl unknown ↦ rw (unknown, add_name) (Steps-problems ss es _ [])
  | inr (num, known) ↦
      rw (known, add_name)
        (elim (Option-cases (get_syscall ss (masked arch num))) [
          | inl none_there ↦
              rw (none_there, add_number)
                ((λ p. All-snoc IsProper ss _ p tt), λ h. is_empty-append ss _)
          | inr (s, there) ↦ rw (there, add_number) (Steps-problems ss es _ [])
        ])
]

Steps-add_conditional :
    (nc : NameWithConditions) (num : ℕ) (found : Found)
    → IsProperSet nc.conditions
    → Steps found (add_conditional nc num found)
unfolding add_conditional
Steps-add_conditional nc num (ss, es) p = elim (Option-cases (get_syscall ss num)) [
  | inl none_there ↦
      rw (none_there, add_conditional)
        ((λ q. All-snoc IsProper ss _ q (p, tt)), λ h. is_empty-append ss _)
  | inr (s, there) ↦ elim (Bool-cases (is_empty s.conditions)) [
    | inl y ↦ rw (there, add_conditional) (rw y (Steps-problems ss es _ []))
    | inr n ↦
        rw (there, add_conditional)
          (rw n (
            (λ q. IsProper-append_conditions ss num nc.conditions p q),
            λ h. append_conditions-nonempty ss num nc.conditions s there,
          ))
  ]
]

Steps-validated :
    (nc : NameWithConditions) (num : ℕ) (invalid : List Problem) (found : Found)
    → (is_empty invalid ≡ true → IsProperSet nc.conditions)
    → Steps found (validated nc num invalid found)
Steps-validated nc num [] (ss, es) p = Steps-add_conditional nc num (ss, es) (p refl)
Steps-validated nc num (e ∷ invalid) (ss, es) p = Steps-problems ss es e invalid

Steps-add_name_with_conditions :
    (arch : Info) (nc : NameWithConditions) (found : Found)
    → IsUsable nc
    → Steps found (add_name_with_conditions arch nc found)
unfolding add_name_with_conditions
Steps-add_name_with_conditions arch nc (ss, es) u =
    elim (Option-cases (number_of nc.name arch.syscall_names)) [
      | inl unknown ↦ rw (unknown, add_name_with_conditions) (Steps-problems ss es _ [])
      | inr (num, known) ↦
          rw (known, add_name_with_conditions)
            (Steps-validated nc (masked arch num) (validate_conditions nc.conditions) (ss, es)
              λ h. record {
                nonempty = u.0;
                conditions = IsWellFormed-validated nc.conditions h u.1;
              })
    ]

Steps-add_names :
    (arch : Info) (name : String) (names : List String) (found : Found)
    → Steps found (add_names arch (name ∷ names) found)
unfolding add_names
Steps-add_names arch name [] found = Steps-add_name arch name found
Steps-add_names arch name (n ∷ names) found =
    let (p, q) = Steps-add_name arch name found in
    let (p', q') = Steps-add_names arch n names (add_name arch name found) in ((λ h. p' (p h)), q')

Steps-add_names_with_conditions :
    (arch : Info) (nc : NameWithConditions) (ncs : List NameWithConditions) (found : Found)
    → All IsUsable (nc ∷ ncs)
    → Steps found (add_names_with_conditions arch (nc ∷ ncs) found)
unfolding add_names_with_conditions
Steps-add_names_with_conditions arch nc [] found u =
    Steps-add_name_with_conditions arch nc found u.0
Steps-add_names_with_conditions arch nc (nc' ∷ ncs) found u =
    let (p, q) = Steps-add_name_with_conditions arch nc found u.0 in
    let (p', q') =
      Steps-add_names_with_conditions arch nc' ncs (add_name_with_conditions arch nc found) u.1 in
    ((λ h. p' (p h)), q')

-- Both loops, from no entries, over a group that is not empty.
Steps-both :
    (arch : Info) (names : List String) (ncs : List NameWithConditions)
    → (length names + length ncs == 0) ≡ false
    → All IsUsable ncs
    → Steps ([], []) (add_names_with_conditions arch ncs (add_names arch names ([], [])))
unfolding add_names add_names_with_conditions
Steps-both arch [] [] h u = cc
Steps-both arch [] (nc ∷ ncs) h u = Steps-add_names_with_conditions arch nc ncs ([], []) u
Steps-both arch (n ∷ ns) [] h u = Steps-add_names arch n ns ([], [])
Steps-both arch (n ∷ ns) (nc ∷ ncs) h u =
    let (p, q) = Steps-add_names arch n ns ([], []) in
    let (p', q') =
      Steps-add_names_with_conditions arch nc ncs (add_names arch (n ∷ ns) ([], [])) u in
    ((λ e. p' (p e)), q')

abbrev pub IsUsableGroup : SyscallGroup → Type 0
IsUsableGroup g = All IsUsable g.names_with_conditions

to_syscalls_with_conditions-IsProper :
    (arch : Info) (g : SyscallGroup) (ss : List SyscallWithConditions)
    → has_no_names g ≡ false
    → IsUsableGroup g
    → to_syscalls_with_conditions arch g ≡ ok ss
    → IsNonempty ss × All IsProper ss
unfolding to_syscalls_with_conditions
to_syscalls_with_conditions-IsProper arch g ss n u h =
    let (none_left, same) = without_problems_ok _ ss h in
    let (p, q) = Steps-both arch g.names g.names_with_conditions n u in
    (rw same at (q none_left), rw same at (p tt))

-- The translation of usable groups can be assembled.
pub translate-IsProperGroup :
    (arch : Info) (gs : List SyscallGroup) (ts : List Translated)
    → All IsUsableGroup gs
    → translate arch gs ≡ ok ts
    → All IsProperGroup ts
unfolding translate
translate-IsProperGroup arch [] ts u h =
    let same : [] ≡ ts = cc in subst (All IsProperGroup) same tt
translate-IsProperGroup arch (g ∷ gs) ts u h = elim (Bool-cases (has_no_names g)) [
  | inl y ↦ translate-IsProperGroup arch gs ts u.1 (sym (translate_skip arch g gs y) ∙ h)
  | inr n ↦
      let (ss, rest, first, others, same) = translate-cons arch g gs ts n h in
      subst (All IsProperGroup) same (
        to_syscalls_with_conditions-IsProper (arch_or arch g.arch) g ss n u.0 first,
        translate-IsProperGroup arch gs rest u.1 others,
      )
]
