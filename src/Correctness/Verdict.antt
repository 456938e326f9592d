-- ===== src/Correctness/Verdict.antt =====
-- The main theorems about `Policy.Assemble` (filter.go): it succeeds, and its program decides as the policy
-- says.
use go_seccomp_bpf.Base.{
  ℕ, suc, ◌≤◌, ◌≡◌, ◌∙◌, ap, Option, some, List, [], ◌∷◌, All, length, get_elem?, ◌==◌,
  if◌then◌else◌, ok, length-append, get_elem?-append_new, arith,
}
use go_seccomp_bpf.Bpf.{SeccompData, ByteOrder, Kernel, Instruction, ret_constant}
use go_seccomp_bpf.Arch.{Info}
use go_seccomp_bpf.Assembler.{Program, current_index, new_program, ret, ret_value, emit}
use go_seccomp_bpf.Resolver.Short.{position, IsResolved}
use go_seccomp_bpf.Resolver.Correct.{assemble-short, Runs-assembly}
use go_seccomp_bpf.Layout.{IsLaidOut}
use go_seccomp_bpf.Layout.Operations.{IsLaidOut-new_program, IsLaidOut-emit}
use go_seccomp_bpf.Layout.Filters.{IsLaidOut-assemble_translated}
use go_seccomp_bpf.Policy.{Policy, with_header, assemble_for}
use go_seccomp_bpf.Decision.{Translated, check_groups}
use go_seccomp_bpf.Decision.Groups.{IsProperGroup, assemble_translated, run-assemble_translated}
use go_seccomp_bpf.Specification.{first_match, IsUndisturbed}
use go_seccomp_bpf.Specification.Outcome.{check_groups-eq-first_match}
use go_seccomp_bpf.Correctness.Header.{is_x32, enosys, exec-with_header, length-with_header}
use go_seccomp_bpf.Correctness.Groups.{translate, assemble_groups-eq-translate}

-- The program of a policy's groups before its jumps are resolved.
unfoldable pub built : ByteOrder → List Translated → ℕ → Program
built order ts default = ret default (assemble_translated order ts new_program)

-- What a program does about a system call, given what its groups decide.
abbrev pub verdict : Info → SeccompData → (default : ℕ) → (groups : Option ℕ) → Option ℕ
verdict arch d default groups =
    if d.arch == arch.id
    then (if is_x32 arch d then some enosys else groups)
    else some (ret_value default)

module _ (order : ByteOrder) (arch : Info) (p : Policy) (ts : List Translated)
    (translated : translate arch p.syscalls ≡ ok ts) (proper : All IsProperGroup ts)
    (short : length (built order ts p.default_action).instructions ≤ 256) where
  built-IsLaidOut : IsLaidOut [] (built order ts p.default_action)
  unfolding built ret
  built-IsLaidOut =
      IsLaidOut-emit [] _ _
        (IsLaidOut-assemble_translated order ts new_program proper IsLaidOut-new_program)

  built-last :
      (m : ℕ) × (length (built order ts p.default_action).instructions ≡ suc m)
      × (get_elem? (built order ts p.default_action).instructions m
          ≡ some (ret_constant (ret_value p.default_action)))
  unfolding built ret emit
  built-last =
      let q = assemble_translated order ts new_program in
      (
        length q.instructions,
        omega
            (arith, length-append q.instructions (ret_constant (ret_value p.default_action) ∷ [])),
        get_elem?-append_new q.instructions _,
      )

  assembled :
      (after : List Instruction) × (assemble_for order arch p ≡ ok (with_header arch after))
      × IsResolved
          (position (built order ts p.default_action).labels)
          (built order ts p.default_action).instructions
          after
          0
          (built order ts p.default_action).jumps
  unfolding assemble_for built
  assembled =
      let (after, done, r) =
        assemble-short (built order ts p.default_action) built-IsLaidOut short in
      (
        after,
        rw (assemble_groups-eq-translate order arch p.syscalls new_program, translated, done),
        r,
      )

  -- The assembly of a short policy succeeds, and its program has at most six instructions more.
  pub assemble_for_bounds :
      (prog : List Instruction) × (assemble_for order arch p ≡ ok prog)
      × (1 ≤ length prog)
      × (length prog ≤ 262)
  assemble_for_bounds =
      let (after, done, r) = assembled in
      let (least, most) = length-with_header arch after in
      (with_header arch after, done, least, omega (arith, most, r.size))

  -- The resolved code, begun with the number, makes the tests of the groups.
  exec-code :
      (vm : Kernel order) (d : SeccompData) (after : List Instruction)
      → IsResolved
          (position (built order ts p.default_action).labels)
          (built order ts p.default_action).instructions
          after
          0
          (built order ts p.default_action).jumps
      → vm.exec after d.nr d ≡ check_groups d ts p.default_action d.nr
  unfolding built current_index new_program
  exec-code vm d after r =
      run-assemble_translated ts p.default_action new_program d.nr proper
        (Runs-assembly vm d (built order ts p.default_action) built-IsLaidOut r)

  -- The assembly of a short policy succeeds. Its program returns the default action for another
  -- architecture, ENOSYS for the x32 interface, and else what the tests of the groups find.
  pub assemble_for-check_groups :
      (vm : Kernel order) (a : ℕ) (d : SeccompData)
      → (prog : List Instruction) × (assemble_for order arch p ≡ ok prog)
        × (vm.exec prog a d
            ≡ verdict arch d p.default_action (check_groups d ts p.default_action d.nr))
  assemble_for-check_groups vm a d =
      let (after, done, r) = assembled in
      let (m, size, last) = built-last in
      (
        with_header arch after,
        done,
        exec-with_header vm arch after a d m (ret_value p.default_action) (omega (arith, r.size))
              (r.size ∙ size) (r.plain m _ tt last)
            ∙ ap (verdict arch d p.default_action) (exec-code vm d after r),
      )

  -- The assembly of a short policy succeeds. Where no condition of the system call fails before another
  -- entry is compared, its program returns the action of the first group that matches, or the default
  -- action if none does or the architecture is another, and ENOSYS for the x32 interface.
  pub assemble_for-first_match :
      (vm : Kernel order) (a : ℕ) (d : SeccompData)
      → IsUndisturbed d ts
      → (prog : List Instruction) × (assemble_for order arch p ≡ ok prog)
        × (vm.exec prog a d
            ≡ verdict arch d p.default_action
                (some (ret_value (first_match d ts p.default_action))))
  assemble_for-first_match vm a d u =
      let (prog, done, e) = assemble_for-check_groups vm a d in
      (
        prog,
        done,
        e
            ∙ ap (verdict arch d p.default_action)
                (check_groups-eq-first_match d ts p.default_action proper u),
      )
