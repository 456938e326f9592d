-- ===== src/Tests/Profiles.antt =====
-- A profile of cmd/seccomp-profiler, and the theorems about profiles at it.
use go_seccomp_bpf.Base.{
  ◌≡◌, refl, ◌∙◌, ap, String, true, not, ◌&&◌, ◌||◌, List, [], ◌∷◌, map, some, arith,
}
use go_seccomp_bpf.Text.Sorting.{count, IsSorted}
use go_seccomp_bpf.Arch.{number_of, name_of, invert, put, get_info, x86_64, arches}
use go_seccomp_bpf.Arch.Tables.{syscalls_x86_64}
use go_seccomp_bpf.Arch.Invert.{IsInvertible, has_distinct_names, number_of-invert}
use go_seccomp_bpf.Arch.Supported.{IsSupported, get_info-IsSupported}
use go_seccomp_bpf.Disasm.{Syscall}
use go_seccomp_bpf.Profiler.{Ranges, deduplicate, member, is_known, profile_names, set_slice}
use go_seccomp_bpf.Profiler.Names.{IsFair, names_of}
use go_seccomp_bpf.Profiler.Profile.{member-profile_names, profile_names_fair}
use go_seccomp_bpf.Profiler.Known.{profile_names_known}
use go_seccomp_bpf.Arch.{arm}
use go_seccomp_bpf.Profiler.{em_arm, get_binary_arch}
use go_seccomp_bpf.Profiler.Detected.{IsDetected, get_binary_arch-IsDetected}
use go_seccomp_bpf.Tests.{small_arch, same_char}
use go_seccomp_bpf.Tests.Disassembly.{small_parser, dump, found_write, found_exit, dump_parsed}

abbrev pub in_order : Ranges
in_order = record { syscalls = λ ss. ss; names = λ ns. ns }

pub in_order-IsFair : IsFair in_order
in_order-IsFair = record { names_same = λ n ns. refl; syscalls_same = λ n ss. refl }

-- Another order: the first two entries change places.
abbrev pub swap_first {ℓ} : {A : Type ℓ} → List A → List A
swap_first (x ∷ y ∷ xs) = y ∷ x ∷ xs
swap_first xs = xs

abbrev swapped : Ranges
swapped = record { syscalls = swap_first; names = swap_first }

count-swap_first : (n : String) (ns : List String) → count n (swap_first ns) ≡ count n ns
count-swap_first n [] = refl
count-swap_first n (m ∷ []) = refl
count-swap_first n (m ∷ m' ∷ ns) = omega arith

map-swap_first :
    (ss : List Syscall) → map (λ s. s.name) (swap_first ss) ≡ swap_first (map (λ s. s.name) ss)
map-swap_first [] = refl
map-swap_first (s ∷ []) = refl
map-swap_first (s ∷ t ∷ ss) = refl

swapped-IsFair : IsFair swapped
swapped-IsFair = record {
  names_same = count-swap_first;
  syscalls_same =
      λ n ss. ap (count n) (map-swap_first ss) ∙ count-swap_first n (map (λ s. s.name) ss);
}

abbrev found : List Syscall
found = found_write ∷ found_exit ∷ found_write ∷ []

-- `-b write -allow "read; nonsense"`
profile_run :
    profile_names in_order small_arch ("write" ∷ []) (set_slice [] "read; nonsense") found
    ≡ "exit" ∷ "read" ∷ []
unfolding profile_names set_slice number_of
profile_run = refl

member-profile_names_example :
    IsSorted (profile_names in_order small_arch ("write" ∷ []) ("read" ∷ []) found)
    × ((n : String)
        → member n (profile_names in_order small_arch ("write" ∷ []) ("read" ∷ []) found) ≡ (
            member n (names_of found) && not (member n ("write" ∷ []))
            || member n ("read" ∷ []) && is_known small_arch n))
unfolding name_of
member-profile_names_example =
    member-profile_names in_order small_arch ("write" ∷ []) ("read" ∷ []) found in_order-IsFair
      (refl, (refl, (refl, tt)))

profile_names_fair_example :
    profile_names in_order small_arch [] ("read" ∷ []) found
    ≡ profile_names swapped small_arch [] ("read" ∷ []) found
profile_names_fair_example =
    profile_names_fair in_order swapped small_arch [] ("read" ∷ []) found in_order-IsFair
      swapped-IsFair

-- The two orders of the names, before they are sorted.
orders_differ :
    (deduplicate in_order found ≡ "write" ∷ "exit" ∷ [])
    × (deduplicate swapped found ≡ "exit" ∷ "write" ∷ [])
unfolding deduplicate
orders_differ = (refl, refl)

small_arch-IsInvertible : IsInvertible small_arch
unfolding invert put has_distinct_names
small_arch-IsInvertible = record { inverted = refl; distinct = refl }

profile_names_known_example : is_known small_arch "exit" ≡ true
unfolding profile_names number_of member
profile_names_known_example =
    profile_names_known in_order small_parser [] [] dump true (found_write ∷ found_exit ∷ []) []
      "exit" in_order-IsFair small_arch-IsInvertible dump_parsed refl

number_of-invert_example : number_of "execve" (invert syscalls_x86_64) ≡ some 59
unfolding has_distinct_names name_of syscalls_x86_64
number_of-invert_example = number_of-invert syscalls_x86_64 59 "execve" refl refl

get_info-IsSupported_example : IsSupported x86_64
unfolding get_info arches invert syscalls_x86_64
get_info-IsSupported_example = get_info-IsSupported same_char "amd64" "" x86_64 refl

-- A Go binary for ARM: its architecture is detected, and then its dump is not parsed.
get_binary_arch-IsDetected_example : IsDetected arm "arm"
unfolding get_binary_arch
get_binary_arch-IsDetected_example =
    get_binary_arch-IsDetected
      (record { has_go_buildid = true; libraries = some []; machine = em_arm }) arm "arm" refl
