-- ===== src/Tests/Enforced.antt =====
-- The filter of a profile of a small dump for x86_64.
use go_seccomp_bpf.Base.{◌≡◌, ◌≤◌, refl, String, true, some, List, [], ◌∷◌, length, ok, arith}
use go_seccomp_bpf.Constants.{action_errno}
use go_seccomp_bpf.Text.Search.{has_prefix, contains, fields, join}
use go_seccomp_bpf.Text.Numbers.{parse_int}
use go_seccomp_bpf.Bpf.{SeccompData, Instruction, little_endian}
use go_seccomp_bpf.Bpf.Simulator.{little_machine}
use go_seccomp_bpf.Arch.{x86_64, get_info, invert, arches, number_of, name_of}
use go_seccomp_bpf.Arch.Tables.{syscalls_x86_64}
use go_seccomp_bpf.Arch.Invert.{IsInvertible, has_distinct_names}
use go_seccomp_bpf.Arch.Apart.{are_apart}
use go_seccomp_bpf.Group.{masked}
use go_seccomp_bpf.Policy.{assemble_policy}
use go_seccomp_bpf.Correctness.Verdict.{verdict}
use go_seccomp_bpf.Disasm.{x86_64_parser, scanned, returned, parse}
use go_seccomp_bpf.Disasm.Patterns.{find_submatch}
use go_seccomp_bpf.Profiler.{profile_names, profile_policy}
use go_seccomp_bpf.Profiler.Enforced.{profile_enforced, profile_value}
use go_seccomp_bpf.Tests.{same_char}
use go_seccomp_bpf.Tests.Disassembly.{dump, found_write, found_exit}
use go_seccomp_bpf.Tests.Profiles.{in_order, in_order-IsFair}

parsed : parse x86_64_parser (scanned dump true) ≡ returned (found_write ∷ found_exit ∷ []) []
unfolding parse find_submatch parse_int has_prefix contains fields join name_of x86_64_parser x86_64
    syscalls_x86_64
parsed = refl

x86_64-IsInvertible : IsInvertible x86_64
unfolding x86_64 invert has_distinct_names syscalls_x86_64
x86_64-IsInvertible = record { inverted = refl; distinct = refl }

x86_64_apart : are_apart x86_64 syscalls_x86_64 ≡ true
unfolding are_apart masked x86_64 syscalls_x86_64
x86_64_apart = refl

abbrev names : List String
names = profile_names in_order x86_64 ("write" ∷ []) ("read" ∷ []) (found_write ∷ found_exit ∷ [])

few : length names ≤ 254
unfolding profile_names number_of x86_64 invert syscalls_x86_64
few = let size : length names ≡ 2 = refl in omega (arith, size)

profile_enforced_example :
    (prog : List Instruction) × (assemble_policy same_char "amd64" little_endian
        (profile_policy names)
      ≡ ok prog)
    × ((d : SeccompData)
        → little_machine.exec prog 0 d
          ≡ verdict x86_64 d action_errno (some (profile_value x86_64 d names)))
unfolding get_info arches x86_64_parser x86_64 invert syscalls_x86_64
profile_enforced_example =
    profile_enforced same_char "amd64" little_endian in_order x86_64_parser ("write" ∷ [])
      ("read" ∷ []) dump true (found_write ∷ found_exit ∷ []) [] little_machine 0 in_order-IsFair
      x86_64-IsInvertible x86_64_apart refl parsed few
