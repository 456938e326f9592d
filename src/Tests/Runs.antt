-- ===== src/Tests/Runs.antt =====
-- Whole runs of the sample policy: assembly, then execution.
use go_seccomp_bpf.Base.{if◌then◌else◌, ◌==◌, ℕ, ◌^◌, ◌≡◌, refl, Option, some, Result, ok, ◌>>=◌}
use go_seccomp_bpf.Constants.{action_kill_process, action_allow}
use go_seccomp_bpf.Bpf.{SeccompData, little_endian}
use go_seccomp_bpf.Bpf.Simulator.{little_machine, run_from_start, simulate}
use go_seccomp_bpf.Arch.{number_of}
use go_seccomp_bpf.Assembler.{
  current_index, new_program, new_label, set_label, jmp_if, jmp_if_true, emit, ret, ret_value,
  ld_hi, ld_lo,
}
use go_seccomp_bpf.Resolver.{
  assemble, resolve_jumps, resolve_jump, resolve_label, resolve_long, find_insert_after,
  search_insert_after, insert_after, update_indices, shift, skip_passed, compute_skip_n,
}
use go_seccomp_bpf.Filter.{
  next_label, assemble_operation, assemble_condition, assemble_arguments, assemble_sets,
  assemble_conditional, assemble_syscall, assemble_syscalls, assemble_group,
}
use go_seccomp_bpf.Group.{
  validate_conditions, get_syscall, append_conditions, masked, add_number, add_name, add_names,
  add_conditional, add_name_with_conditions, add_names_with_conditions, to_syscalls_with_conditions,
  assemble_syscall_group,
}
use go_seccomp_bpf.Policy.{
  Policy, validate, is_named_action, assemble_groups, x32_filter, arch_check, with_header,
  assemble_for, assemble_policy,
}
use go_seccomp_bpf.Decision.Groups.{assemble_translated}
use go_seccomp_bpf.Correctness.Verdict.{built}
use go_seccomp_bpf.Assembler.{set_label, jmp_if, jmp_if_true, emit, ret, ld_hi, ld_lo}
use go_seccomp_bpf.Tests.{sample, write_to_stdout, same_char}

execute : Policy → SeccompData → Result (Option ℕ)
unfolding assemble_policy validate is_named_action assemble_for assemble_groups
    assemble_syscall_group to_syscalls_with_conditions add_names add_name add_number
    add_names_with_conditions add_name_with_conditions add_conditional validate_conditions
    get_syscall append_conditions masked number_of built assemble_translated assemble_group
    assemble_syscalls assemble_syscall assemble_conditional assemble_sets assemble_arguments
    assemble_condition assemble_operation next_label new_program new_label set_label jmp_if
    jmp_if_true emit ret ret_value ld_hi ld_lo current_index assemble resolve_jumps resolve_jump
    resolve_label skip_passed compute_skip_n with_header arch_check x32_filter little_machine
    run_from_start simulate resolve_long find_insert_after search_insert_after insert_after
    update_indices shift
execute p d =
    assemble_policy same_char "amd64" little_endian p >>= λ prog. ok (little_machine.exec prog 0 d)

allowed_write : execute sample write_to_stdout ≡ ok (some action_allow)
unfolding execute
allowed_write = refl

killed_read : execute sample (record write_to_stdout { nr = 0 }) ≡ ok (some action_kill_process)
unfolding execute
killed_read = refl

failing_execve : execute sample (record write_to_stdout { nr = 59 }) ≡ ok (some 0x50001)
unfolding execute
failing_execve = refl

x32_write : execute sample (record write_to_stdout { nr = 0x40000001 }) ≡ ok (some 0x50026)
unfolding execute
x32_write = refl

other_arch : execute sample (record write_to_stdout { arch = 7 }) ≡ ok (some action_kill_process)
unfolding execute
other_arch = refl

-- Argument 0 of a write is 59, so no rule applies to it, and yet it gets the action of execve.
confused_write :
    execute sample (record write_to_stdout { args = λ i. if i == 0 then 59 else 2 ^ 33 })
    ≡ ok (some 0x50001)
unfolding execute
confused_write = refl
