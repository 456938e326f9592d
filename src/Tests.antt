-- ===== src/Tests.antt =====
-- Runs of the model on concrete policies, and each theorem at an input that meets its hypotheses.
mod Names
mod LongJumps
mod Runs
mod Numbers
mod Disassembly
mod Profiles
mod Enforced
mod Generating
mod Kernels
mod Loading
mod Sandboxing
mod Tables
use Prim.Native.Char.{Char}
use go_seccomp_bpf.Base.{true}
use go_seccomp_bpf.Base.{
  if◌then◌else◌, ◌==◌, ℕ, zero, suc, ◌+◌, ◌-◌, ◌^◌, ◌≤◌, ◌≡◌, refl, Option, none, some, List, [],
  ◌∷◌, length, get_elem?, Result, ok, err, ◌>>=◌, problems, unknown_syscall, arith,
}
use go_seccomp_bpf.Constants.{action_kill_process, action_errno, action_allow}
use go_seccomp_bpf.Bpf.{
  SeccompData, little_endian, Instruction, jump_if, jump, jump_equal, load_absolute,
}
use go_seccomp_bpf.Bpf.Simulator.{little_machine, run_from_start, simulate}
use go_seccomp_bpf.Arch.{Info, number_of}
use go_seccomp_bpf.Assembler.{
  Program, current_index, new_program, new_label, set_label, jmp_if, jmp_if_true, emit, ret,
  ret_value, ld_hi, ld_lo,
}
use go_seccomp_bpf.Resolver.{
  assemble, resolve_jumps, resolve_jump, resolve_label, resolve_long, find_insert_after,
  search_insert_after, insert_after, update_indices, shift, skip_passed, compute_skip_n,
}
use go_seccomp_bpf.Filter.{
  Condition, equal, greater_than, next_label, assemble_operation, assemble_condition,
  assemble_arguments, assemble_sets, assemble_conditional, assemble_syscall, assemble_syscalls,
  assemble_group,
}
use go_seccomp_bpf.Group.{
  SyscallGroup, validate_conditions, get_syscall, append_conditions, masked, add_number, add_name,
  add_names, add_conditional, add_name_with_conditions, add_names_with_conditions,
  to_syscalls_with_conditions, assemble_syscall_group,
}
use go_seccomp_bpf.Policy.{
  Policy, validate, is_named_action, assemble_groups, x32_filter, arch_check, with_header,
  assemble_for, assemble_policy,
}
use go_seccomp_bpf.Decision.{Translated, check_groups}
use go_seccomp_bpf.Decision.Groups.{assemble_translated}
use go_seccomp_bpf.Specification.{
  IsUndisturbed, some_entry_matches, entry_matches, some_set_holds, set_holds, condition_holds,
}
use go_seccomp_bpf.Correctness.Groups.{translate}
use go_seccomp_bpf.Correctness.Translation.{group_matches, to_syscalls_with_conditions-matches}
use go_seccomp_bpf.Correctness.Meaning.{first_group}
use go_seccomp_bpf.Correctness.Verdict.{built, verdict}
use go_seccomp_bpf.Correctness.Program.{
  assemble_policy-first_group, assemble_policy-check_groups, reported, assemble_policy-reported,
}
use go_seccomp_bpf.Text.{to_lower}
use go_seccomp_bpf.Names.{
  find_action, unpack_action, action_string, operation_text, find_operation, unpack_operation,
}
use go_seccomp_bpf.Names.Correct.{
  unpack_action-action_string, unpack_action_lem, unpack_operation_lem,
  unpack_operation-operation_text,
}
use go_seccomp_bpf.Policy.{action_names}
use go_seccomp_bpf.Decision.{IsKnown}
use go_seccomp_bpf.Correctness.Unconditional.{assemble_policy-names_only}
use go_seccomp_bpf.Findings.Accumulator.{first_listed, left_by_sets, assemble_policy-confused}
use go_seccomp_bpf.Specification.Words.{last_word_of}
use go_seccomp_bpf.Filter.{SyscallWithConditions}
use go_seccomp_bpf.Correctness.Header.{enosys, exec-with_header}
use go_seccomp_bpf.Correctness.Proper.{translate-IsProperGroup}
use go_seccomp_bpf.Decision.Groups.{IsProperGroup}
use go_seccomp_bpf.Resolver.Short.{position, IsResolved}
use go_seccomp_bpf.Resolver.Correct.{assemble-short}
use go_seccomp_bpf.Layout.{IsLaidOut}
use go_seccomp_bpf.Layout.Operations.{IsLaidOut-new_program}
use go_seccomp_bpf.Layout.Filters.{IsLaidOut-assemble_translated}
use go_seccomp_bpf.Bpf.{ret_constant}
use go_seccomp_bpf.Assembler.{set_label, jmp_if, jmp_if_true, emit, ret, ld_hi, ld_lo}
use go_seccomp_bpf.Base.{All}

-- The part of the x86_64 table that the tests use.
abbrev pub small_arch : Info
small_arch = record {
  name = "x86_64";
  id = 0xc000003e;
  syscall_names = ("exit", 60) ∷ ("execve", 59) ∷ ("write", 1) ∷ ("read", 0) ∷ [];
  syscall_numbers = (0, "read") ∷ (1, "write") ∷ (59, "execve") ∷ (60, "exit") ∷ [];
  seccomp_mask = 0;
}

abbrev pub to_stdout : Condition
to_stdout = record { argument = 0; operation = equal; value = 1 }

abbrev long_write : Condition
long_write = record { argument = 2; operation = greater_than; value = 2 ^ 32 + 5 }

-- Writes to standard output, or long ones, are allowed, and so is exit; execve fails; all else kills.
abbrev pub sample_groups : List SyscallGroup
sample_groups =
    record {
      names = "exit" ∷ [];
      names_with_conditions =
          record { name = "write"; conditions = to_stdout ∷ [] }
          ∷ record { name = "write"; conditions = long_write ∷ to_stdout ∷ [] }
          ∷ [];
      action = action_allow;
      arch = none;
    }
    ∷ record {
      names = "execve" ∷ [];
      names_with_conditions = [];
      action = action_errno;
      arch = none;
    }
    ∷ []

abbrev pub sample : Policy
sample = record {
  default_action = action_kill_process;
  syscalls = sample_groups;
  arch = some small_arch;
}

abbrev sample_translated : List Translated
sample_translated =
    (
      record { num = 60; conditions = [] }
          ∷ record { num = 1; conditions = (to_stdout ∷ []) ∷ (long_write ∷ to_stdout ∷ []) ∷ [] }
          ∷ [],
      action_allow,
    )
    ∷ (record { num = 59; conditions = [] } ∷ [], action_errno)
    ∷ []

abbrev pub write_to_stdout : SeccompData
write_to_stdout = record { nr = 1; arch = 0xc000003e; args = λ i. 1 }

abbrev pub same_char : Char → Char
same_char c = c

sample_translates : translate small_arch sample_groups ≡ ok sample_translated
unfolding translate to_syscalls_with_conditions add_names add_name add_number
    add_names_with_conditions add_name_with_conditions add_conditional validate_conditions
    get_syscall append_conditions masked number_of
sample_translates = refl

sample_valid : validate sample ≡ ok tt
unfolding validate is_named_action
sample_valid = refl

-- The construction of programs.
build : List Translated → ℕ → Program
unfolding built assemble_translated assemble_group assemble_syscalls assemble_syscall
    assemble_conditional assemble_sets assemble_arguments assemble_condition assemble_operation
    next_label new_program new_label set_label jmp_if jmp_if_true emit ret ret_value ld_hi ld_lo
    current_index
build ts default = built little_endian ts default

sample_size : length (built little_endian sample_translated action_kill_process).instructions ≡ 19
unfolding build
sample_size = refl

sample_short : length (built little_endian sample_translated action_kill_process).instructions ≤ 256
sample_short = rw sample_size (omega arith)

sample-IsUndisturbed : IsUndisturbed write_to_stdout sample_translated
unfolding entry_matches some_entry_matches some_set_holds set_holds condition_holds
sample-IsUndisturbed = (((λ h. cc), ((λ h. refl), tt)), λ h. tt)

assemble_policy-first_group_example :
    (prog : List Instruction) × (assemble_policy same_char "amd64" little_endian sample ≡ ok prog)
    × (little_machine.exec prog 0 write_to_stdout
        ≡ verdict small_arch write_to_stdout action_kill_process (
            some (
              ret_value
                (first_group small_arch write_to_stdout sample_groups action_kill_process))))
assemble_policy-first_group_example =
    assemble_policy-first_group same_char "amd64" little_endian sample small_arch sample_translated
      sample_valid refl sample_translates
      (
        (
          (refl, ((tt, omega arith), tt)),
          ((refl, ((tt, omega arith), ((tt, omega arith), tt))), tt),
        ),
        (tt, tt),
      )
      sample_short little_machine 0 write_to_stdout sample-IsUndisturbed

assemble_policy-check_groups_example :
    (prog : List Instruction) × (assemble_policy same_char "amd64" little_endian sample ≡ ok prog)
    × (little_machine.exec prog 0 write_to_stdout
        ≡ verdict small_arch write_to_stdout action_kill_process
            (check_groups write_to_stdout sample_translated action_kill_process 1))
assemble_policy-check_groups_example =
    assemble_policy-check_groups same_char "amd64" little_endian sample small_arch sample_translated
      sample_valid refl sample_translates
      (
        (
          (refl, ((tt, omega arith), tt)),
          ((refl, ((tt, omega arith), ((tt, omega arith), tt))), tt),
        ),
        (tt, tt),
      )
      sample_short little_machine 0 write_to_stdout

abbrev pub misspelt : Policy
misspelt = record sample {
  syscalls =
      record { names = "exti" ∷ []; names_with_conditions = []; action = action_allow; arch = none }
      ∷ [];
}

assemble_policy-reported_example :
    assemble_policy same_char "amd64" little_endian misspelt
    ≡ err (problems (unknown_syscall "x86_64" "exti" ∷ []))
unfolding reported is_named_action translate to_syscalls_with_conditions add_names add_name
    add_names_with_conditions number_of
assemble_policy-reported_example =
    assemble_policy-reported same_char "amd64" little_endian misspelt
      (problems (unknown_syscall "x86_64" "exti" ∷ [])) refl

abbrev sample_group : SyscallGroup
sample_group = record {
  names = "exit" ∷ [];
  names_with_conditions = record { name = "write"; conditions = to_stdout ∷ [] } ∷ [];
  action = action_allow;
  arch = none;
}

to_syscalls_with_conditions-matches_example :
    some_entry_matches write_to_stdout (
      record { num = 60; conditions = [] }
      ∷ record { num = 1; conditions = (to_stdout ∷ []) ∷ [] }
      ∷ [])
    ≡ group_matches small_arch write_to_stdout sample_group
unfolding to_syscalls_with_conditions add_names add_name add_number add_names_with_conditions
    add_name_with_conditions add_conditional validate_conditions get_syscall masked number_of
to_syscalls_with_conditions-matches_example =
    to_syscalls_with_conditions-matches small_arch sample_group _ write_to_stdout refl

-- A write to descriptor 59, the number of execve, where only writes to descriptor 1 are allowed.
abbrev confusing : Policy
confusing = record sample {
  syscalls =
      record {
        names = [];
        names_with_conditions = record { name = "write"; conditions = to_stdout ∷ [] } ∷ [];
        action = action_allow;
        arch = none;
      }
      ∷ record {
        names = "execve" ∷ [];
        names_with_conditions = [];
        action = action_errno;
        arch = none;
      }
      ∷ [];
}

abbrev write_to_59 : SeccompData
write_to_59 = record { nr = 1; arch = 0xc000003e; args = λ i. 59 }

abbrev only_to_stdout : SyscallWithConditions
only_to_stdout = record { num = 1; conditions = (to_stdout ∷ []) ∷ [] }

abbrev refused_execve : List Translated
refused_execve = (record { num = 59; conditions = [] } ∷ [], action_errno) ∷ []

confusing_translates :
    translate small_arch confusing.syscalls
    ≡ ok ((only_to_stdout ∷ [], action_allow) ∷ refused_execve)
unfolding translate to_syscalls_with_conditions add_names add_name add_number
    add_names_with_conditions add_name_with_conditions add_conditional validate_conditions
    get_syscall append_conditions masked number_of
confusing_translates = refl

confusing_size :
    length
      (built little_endian
        ((only_to_stdout ∷ [], action_allow) ∷ refused_execve)
        action_kill_process).instructions
    ≡ 9
unfolding build
confusing_size = refl

confusing_valid : validate confusing ≡ ok tt
unfolding validate is_named_action
confusing_valid = refl

assemble_policy-confused_example :
    (prog : List Instruction) × (assemble_policy same_char "amd64" little_endian confusing
      ≡ ok prog)
    × (little_machine.exec prog 0 write_to_59 ≡ some (ret_value action_errno))
    × (first_group small_arch write_to_59 confusing.syscalls action_kill_process
        ≡ action_kill_process)
unfolding first_listed left_by_sets last_word_of some_set_holds set_holds condition_holds
assemble_policy-confused_example =
    assemble_policy-confused same_char "amd64" little_endian confusing small_arch little_machine 0
      write_to_59 [] only_to_stdout action_allow refused_execve confusing_valid refl
      confusing_translates ((((refl, ((tt, omega arith), tt)), tt)), (tt, tt))
      (rw confusing_size (omega arith)) refl refl tt refl refl refl ((refl, tt), tt)

exec-with_header_example :
    little_machine.exec
      (with_header small_arch (load_absolute 0 4 ∷ ret_constant action_allow ∷ []))
      0
      (record write_to_59 { nr = 0x40000001 })
    ≡ some enosys
exec-with_header_example =
    exec-with_header little_machine small_arch (load_absolute 0 4 ∷ ret_constant action_allow ∷ [])
      0 (record write_to_59 { nr = 0x40000001 }) 1 action_allow (omega arith) refl refl

sample_proper : All IsProperGroup sample_translated
sample_proper =
    translate-IsProperGroup small_arch sample_groups sample_translated
      (
        (
          (refl, ((tt, omega arith), tt)),
          ((refl, ((tt, omega arith), ((tt, omega arith), tt))), tt),
        ),
        (tt, tt),
      )
      sample_translates

sample_program : Program
sample_program = assemble_translated little_endian sample_translated new_program

sample_program-IsLaidOut : IsLaidOut [] sample_program
unfolding sample_program
sample_program-IsLaidOut =
    IsLaidOut-assemble_translated little_endian sample_translated new_program sample_proper
      IsLaidOut-new_program

IsLaidOut-assemble_translated_example :
    IsLaidOut [] (assemble_translated little_endian sample_translated new_program)
IsLaidOut-assemble_translated_example =
    IsLaidOut-assemble_translated little_endian sample_translated new_program sample_proper
      IsLaidOut-new_program

sample_program-short : length sample_program.instructions ≤ 256
unfolding sample_program assemble_translated assemble_group assemble_syscalls assemble_syscall
    assemble_conditional assemble_sets assemble_arguments assemble_condition assemble_operation
    next_label new_program new_label set_label jmp_if jmp_if_true emit ret ret_value ld_hi ld_lo
    current_index
sample_program-short = let size : length sample_program.instructions ≡ 18 = refl in omega arith

assemble-short_example :
    (after : List Instruction) × (assemble sample_program ≡ ok after)
    × IsResolved
        (position sample_program.labels)
        sample_program.instructions
        after
        0
        sample_program.jumps
assemble-short_example = assemble-short sample_program sample_program-IsLaidOut sample_program-short

abbrev pub named : Policy
named = record sample {
  syscalls =
      record {
        names = "read" ∷ "exit" ∷ [];
        names_with_conditions = [];
        action = action_allow;
        arch = none;
      }
      ∷ record {
        names = "execve" ∷ [];
        names_with_conditions = [];
        action = action_errno;
        arch = none;
      }
      ∷ [];
}

abbrev pub named_translated : List Translated
named_translated =
    (record { num = 0; conditions = [] } ∷ record { num = 60; conditions = [] } ∷ [], action_allow)
    ∷ (record { num = 59; conditions = [] } ∷ [], action_errno)
    ∷ []

pub named_translates : translate small_arch named.syscalls ≡ ok named_translated
unfolding translate to_syscalls_with_conditions add_names add_name add_number
    add_names_with_conditions get_syscall masked number_of
named_translates = refl

pub named_valid : validate named ≡ ok tt
unfolding validate is_named_action
named_valid = refl

pub named_short :
    length (built little_endian named_translated action_kill_process).instructions ≤ 256
unfolding build
named_short =
    let size : length (built little_endian named_translated action_kill_process).instructions ≡ 6 =
      refl in
    omega arith

assemble_policy-names_only_example :
    (prog : List Instruction) × (assemble_policy same_char "amd64" little_endian named ≡ ok prog)
    × (little_machine.exec prog 0 (record write_to_stdout { nr = 59 })
        ≡ verdict small_arch
            (record write_to_stdout { nr = 59 })
            action_kill_process
            (some (
              ret_value (
                first_group small_arch
                  (record write_to_stdout { nr = 59 })
                  named.syscalls
                  action_kill_process))))
assemble_policy-names_only_example =
    assemble_policy-names_only same_char "amd64" little_endian named small_arch named_translated
      little_machine 0 (record write_to_stdout { nr = 59 }) named_valid refl (refl, (refl, tt))
      named_translates named_short
