-- ===== src/Correctness/Program.antt =====
-- The whole of `Policy.Assemble` (filter.go): success, the decision of its program, and its errors.
use Prim.Native.Char.{Char}
use go_seccomp_bpf.Base.{
  ℕ, ◌≤◌, ◌≡◌, ◌∙◌, ap, inl, inr, Bool-cases, String, some, List, All, length, is_empty, Result, ok,
  err, Error, invalid_default_action, no_syscalls, ◌>>=◌, if◌then◌else◌,
}
use go_seccomp_bpf.Bpf.{SeccompData, ByteOrder, Kernel, Instruction}
use go_seccomp_bpf.Arch.{Info}
use go_seccomp_bpf.Assembler.{ret_value, new_program}
use go_seccomp_bpf.Policy.{
  Policy, validate, is_named_action, action_names, arch_of, assemble_for, assemble_policy,
}
use go_seccomp_bpf.Decision.{Translated, check_groups}
use go_seccomp_bpf.Specification.{IsUndisturbed}
use go_seccomp_bpf.Correctness.Groups.{translate, assemble_groups-eq-translate}
use go_seccomp_bpf.Correctness.Proper.{IsUsableGroup, translate-IsProperGroup}
use go_seccomp_bpf.Correctness.Meaning.{first_group, first_match-eq-first_group}
use go_seccomp_bpf.Correctness.Verdict.{
  built, verdict, assemble_for-check_groups, assemble_for-first_match,
}

pub assemble_policy_lem :
    (lower : Char → Char) (goarch : String) (order : ByteOrder) (p : Policy) (arch : Info)
    → validate p ≡ ok tt
    → arch_of lower goarch p ≡ ok arch
    → assemble_policy lower goarch order p ≡ assemble_for order arch p
unfolding assemble_policy
assemble_policy_lem lower goarch order p arch v s = rw (v, s)

module _ (lower : Char → Char) (goarch : String) (order : ByteOrder) (p : Policy) (arch : Info)
    (ts : List Translated) (valid : validate p ≡ ok tt)
    (selected : arch_of lower goarch p ≡ ok arch) (translated : translate arch p.syscalls ≡ ok ts)
    (usable : All IsUsableGroup p.syscalls)
    (short : length (built order ts p.default_action).instructions ≤ 256) (vm : Kernel order)
    (a : ℕ) (d : SeccompData) where
  -- A valid policy with known names, whose lists of conditions are decoded and not empty, and whose code
  -- has at most 256 instructions, has an assembly. On a system call that fails no list of conditions
  -- before another entry is compared, the program returns the action of the first group that matches
  -- by name and conditions, or the default action if none does; the default action for another
  -- architecture; and ENOSYS for the x32 interface.
  pub assemble_policy-first_group :
      IsUndisturbed d ts
      → (prog : List Instruction) × (assemble_policy lower goarch order p ≡ ok prog)
        × (vm.exec prog a d
            ≡ verdict arch d p.default_action
                (some (ret_value (first_group arch d p.syscalls p.default_action))))
  assemble_policy-first_group u =
      let (prog, done, e) =
        assemble_for-first_match order arch p ts translated
          (translate-IsProperGroup arch p.syscalls ts usable translated) short vm a d u in
      (
        prog,
        assemble_policy_lem lower goarch order p arch valid selected ∙ done,
        e
            ∙ ap (λ r. verdict arch d p.default_action (some (ret_value r)))
                (first_match-eq-first_group arch d p.syscalls ts p.default_action translated),
      )

  -- For such a policy and any system call, the program makes exactly the tests of `Decision.check_groups`,
  -- behind the checks of the architecture and of x32.
  pub assemble_policy-check_groups :
      (prog : List Instruction) × (assemble_policy lower goarch order p ≡ ok prog)
      × (vm.exec prog a d
          ≡ verdict arch d p.default_action (check_groups d ts p.default_action d.nr))
  assemble_policy-check_groups =
      let (prog, done, e) =
        assemble_for-check_groups order arch p ts translated
          (translate-IsProperGroup arch p.syscalls ts usable translated) short vm a d in
      (prog, assemble_policy_lem lower goarch order p arch valid selected ∙ done, e)

-- What `Assemble` reports before it builds any code: an unknown default action, a policy without
-- groups, an unsupported architecture, or the problems of the first group that has some.
unfoldable pub reported :
    (lower : Char → Char) → (goarch : String) → Policy → Result (List Translated)
reported lower goarch p =
    if is_named_action p.default_action action_names
    then (if is_empty p.syscalls
        then err no_syscalls
        else (arch_of lower goarch p >>= λ arch. translate arch p.syscalls))
    else err (invalid_default_action p.default_action)

assemble_for_error :
    (order : ByteOrder) (p : Policy) (arch : Result Info) (e : Error)
    → (arch >>= λ i. translate i p.syscalls) ≡ err e
    → (arch >>= λ i. assemble_for order i p) ≡ err e
unfolding assemble_for
assemble_for_error order p (err e') e h = cc
assemble_for_error order p (ok i) e h =
    rw (assemble_groups-eq-translate order i p.syscalls new_program, h)

retype :
    (e e' : Error)
    → ◌≡◌ {A = Result (List Translated)} (err e) (err e')
    → ◌≡◌ {A = Result (List Instruction)} (err e) (err e')
retype e e' h = cc

-- `Assemble` returns the error, if the default action has no name, or else the policy has no groups, or
-- else its architecture is not supported, or else a group has problems in its translation.
pub assemble_policy-reported :
    (lower : Char → Char) (goarch : String) (order : ByteOrder) (p : Policy) (e : Error)
    → reported lower goarch p ≡ err e
    → assemble_policy lower goarch order p ≡ err e
unfolding reported assemble_policy validate
assemble_policy-reported lower goarch order p e h =
    elim (Bool-cases (is_named_action p.default_action action_names)) [
      | inl y ↦ elim (Bool-cases (is_empty p.syscalls)) [
        | inl y' ↦ rw y (rw y' (retype no_syscalls e (rw y' at (rw y at h))))
        | inr n ↦
            rw y
              (rw n (assemble_for_error order p (arch_of lower goarch p) e (rw n at (rw y at h))))
      ]
      | inr n ↦ rw n (retype (invalid_default_action p.default_action) e (rw n at h))
    ]
