-- ===== src/Tests/Loading.antt =====
-- Loading filters into a concrete kernel, and the theorems about it.
use go_seccomp_bpf.Base.{
  Bool, false, arith, ◌≤◌, ◌≡◌, refl, ap, suc, ◌⊎◌, Option, none, some, List, [], ◌∷◌, map, length,
  true, ok, subst, sym, ◌∙◌,
}
use go_seccomp_bpf.Bpf.{Instruction, little_endian}
use go_seccomp_bpf.Arch.{number_of}
use go_seccomp_bpf.Assembler.{
  current_index, new_program, new_label, set_label, jmp_if, jmp_if_true, emit, ret, ret_value,
  ld_hi, ld_lo,
}
use go_seccomp_bpf.Resolver.{
  assemble, resolve_jumps, resolve_jump, resolve_label, skip_passed, compute_skip_n,
}
use go_seccomp_bpf.Filter.{
  next_label, assemble_sets, assemble_conditional, assemble_syscall, assemble_syscalls,
  assemble_group,
}
use go_seccomp_bpf.Group.{
  validate_conditions, get_syscall, append_conditions, masked, add_number, add_name, add_names,
  add_conditional, add_name_with_conditions, add_names_with_conditions, to_syscalls_with_conditions,
  assemble_syscall_group,
}
use go_seccomp_bpf.Policy.{
  validate, is_named_action, assemble_groups, x32_filter, arch_check, with_header, assemble_for,
  assemble_policy,
}
use go_seccomp_bpf.Decision.Groups.{assemble_translated}
use go_seccomp_bpf.Loader.{
  FilterSpec, RawInstruction, no_new_privs_failed, sock_filter, sock_fprog, load_encoded,
  load_filter, set_no_new_privs, prctl_call, seccomp_call,
}
use go_seccomp_bpf.Loader.Installed.{load_filter_early, IsAnswered, IsEarly}
use go_seccomp_bpf.Loader.Filters.{HasFilterOrIsOutOfSync, load_filter_success, load_filter_failed}
use go_seccomp_bpf.Loader.Bounds.{load_filter_bounds}
use go_seccomp_bpf.Tests.Kernels.{
  fresh, noting, filters_of, noting-IsDocumented, refusing, refusing-IsDocumented,
}
use go_seccomp_bpf.Tests.{
  small_arch, same_char, misspelt, named, named_translated, named_translates, named_valid,
  named_short,
}

-- An encoding that keeps the number of instructions.
pub encode_each : List Instruction → List RawInstruction
encode_each = map (λ i. record { op = 6; jt = 0; jf = 0; k = 0 })

abbrev pub some_each : List Instruction → Option (List RawInstruction)
some_each insts = some (encode_each insts)

length-encode_each : (insts : List Instruction) → length (encode_each insts) ≡ length insts
unfolding encode_each
length-encode_each [] = refl
length-encode_each (i ∷ is) = ap suc (length-encode_each is)

abbrev pub named_filter : FilterSpec
named_filter = record { no_new_privs = true; flag = 1; policy = named }

abbrev misspelt_filter : FilterSpec
misspelt_filter = record { no_new_privs = true; flag = 1; policy = misspelt }

pub loaded :
    (in_step : Bool)
    → ((load_filter (noting in_step) same_char "amd64" little_endian some_each named_filter fresh).0
        ≡ none)
      × ((load_filter
            (noting in_step)
            same_char
            "amd64"
            little_endian
            some_each
            named_filter
            fresh).1.calls
          ≡ 1 ∷ 38 ∷ [])
unfolding load_filter assemble_policy validate is_named_action assemble_for assemble_groups
    assemble_syscall_group to_syscalls_with_conditions add_names add_name add_number
    add_names_with_conditions add_name_with_conditions add_conditional validate_conditions
    get_syscall append_conditions masked number_of assemble_translated assemble_group
    assemble_syscalls assemble_syscall assemble_conditional assemble_sets next_label new_program
    new_label set_label jmp_if jmp_if_true emit ret ret_value ld_hi ld_lo current_index assemble
    resolve_jumps resolve_jump resolve_label skip_passed compute_skip_n with_header arch_check
    x32_filter encode_each load_encoded sock_filter set_no_new_privs prctl_call seccomp_call
loaded true = (refl, refl)
loaded false = (refl, refl)

-- The threads are in step: the kernel has the filter.
load_filter_success_example :
    (insts : List Instruction) × (raw : List RawInstruction) × (assemble_policy same_char "amd64"
        little_endian named
      ≡ ok insts)
    × (some_each insts ≡ some raw)
    × IsAnswered
        (noting true)
        true
        1
        (sock_filter raw)
        fresh
        (load_filter (noting true) same_char "amd64" little_endian some_each named_filter fresh).1
    × HasFilterOrIsOutOfSync
        (noting true)
        filters_of
        true
        1
        (sock_filter raw)
        fresh
        (load_filter (noting true) same_char "amd64" little_endian some_each named_filter fresh).1
load_filter_success_example =
    load_filter_success (noting true) same_char "amd64" little_endian some_each named_filter fresh
      filters_of (noting-IsDocumented true) (omega arith) (loaded true).0

refused :
    load_filter refusing same_char "amd64" little_endian some_each named_filter fresh
    ≡ (some (no_new_privs_failed 1), record { calls = 38 ∷ []; filters = [] })
unfolding load_filter assemble_policy validate is_named_action assemble_for assemble_groups
    assemble_syscall_group to_syscalls_with_conditions add_names add_name add_number
    add_names_with_conditions add_name_with_conditions add_conditional validate_conditions
    get_syscall append_conditions masked number_of assemble_translated assemble_group
    assemble_syscalls assemble_syscall assemble_conditional assemble_sets next_label new_program
    new_label set_label jmp_if jmp_if_true emit ret ret_value ld_hi ld_lo current_index assemble
    resolve_jumps resolve_jump resolve_label skip_passed compute_skip_n with_header arch_check
    x32_filter encode_each load_encoded sock_filter set_no_new_privs prctl_call seccomp_call
refused = refl

load_filter_early_example :
    ((load_filter refusing same_char "amd64" little_endian some_each named_filter fresh).1 ≡ fresh)
    ⊎ ((true ≡ true)
        × ((load_filter refusing same_char "amd64" little_endian some_each named_filter fresh).1
            ≡ (set_no_new_privs refusing fresh).1))
load_filter_early_example =
    load_filter_early refusing same_char "amd64" little_endian some_each named_filter fresh
      (subst (λ r. IsEarly r.0) (sym refused) tt)

load_filter_failed_example :
    filters_of (load_filter refusing same_char "amd64" little_endian some_each named_filter fresh).1
    ≡ []
load_filter_failed_example =
    load_filter_failed refusing same_char "amd64" little_endian some_each named_filter fresh
      filters_of refusing-IsDocumented
      (λ h. let same : some (no_new_privs_failed 1) ≡ none = sym (ap (λ r. r.0) refused) ∙ h in cc)

load_filter_bounds_example :
    (insts : List Instruction) × (assemble_policy same_char "amd64" little_endian named ≡ ok insts)
    × ((raw : List RawInstruction)
        → some_each insts ≡ some raw
        → (load_filter (noting true) same_char "amd64" little_endian some_each named_filter fresh
            ≡ load_encoded (noting true) true 1 (sock_filter raw) fresh)
          × (1 ≤ length (sock_filter raw))
          × (length (sock_filter raw) ≤ 262)
          × ((sock_fprog (sock_filter raw)).len ≡ length (sock_filter raw)))
load_filter_bounds_example =
    load_filter_bounds (noting true) same_char "amd64" little_endian some_each named_filter fresh
      small_arch named_translated
      (λ insts raw e.
        let it : encode_each insts ≡ raw = cc in ap length (sym it) ∙ length-encode_each insts)
      named_valid refl named_translates (tt, (tt, tt)) named_short

-- A misspelt name is reported before the kernel is touched.
not_loaded :
    (load_filter (noting true) same_char "amd64" little_endian some_each misspelt_filter fresh).1
    ≡ fresh
unfolding load_filter assemble_policy validate is_named_action assemble_for assemble_groups
    assemble_syscall_group to_syscalls_with_conditions add_names add_name add_number
    add_names_with_conditions add_name_with_conditions add_conditional validate_conditions
    get_syscall append_conditions masked number_of assemble_translated assemble_group
    assemble_syscalls assemble_syscall assemble_conditional assemble_sets next_label new_program
    new_label set_label jmp_if jmp_if_true emit ret ret_value ld_hi ld_lo current_index assemble
    resolve_jumps resolve_jump resolve_label skip_passed compute_skip_n with_header arch_check
    x32_filter encode_each load_encoded sock_filter set_no_new_privs prctl_call seccomp_call
not_loaded = refl
