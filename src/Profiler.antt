-- ===== src/Profiler.antt =====
-- cmd/seccomp-profiler/main.go: from the system calls of a binary to the policy of its profile.
pub mod Sets
pub mod Names
pub mod Profile
pub mod Known
pub mod Unique
pub mod Enforced
pub mod Detected
use go_seccomp_bpf.Base.{
  ℕ, String, Bool, true, false, not, ◌&&◌, ◌||◌, List, [], ◌∷◌, ◌++◌, map, Option, none, some,
  str_eq, ◌==◌, if◌then◌else◌, is_empty, ℤ, pos, negsuc,
}
use go_seccomp_bpf.Constants.{action_errno, action_allow}
use go_seccomp_bpf.Arch.{Info, number_of, i386, arm, x86_64}
use go_seccomp_bpf.Group.{SyscallGroup}
use go_seccomp_bpf.Policy.{Policy}
use go_seccomp_bpf.Text.Search.{is_space, fields_func, join}
use go_seccomp_bpf.Text.Sorting.{sort_texts}
use go_seccomp_bpf.Disasm.{Syscall}

-- What separates the names of a flag.
unfoldable pub is_separator : ℕ → Bool
unfolding is_space
is_separator c = is_space c || c == b',' || c == b';'

-- `stringSlice.Set`, whose result is the new value of the receiver; it returns no error.
unfoldable pub set_slice : List String → (value : String) → List String
unfolding fields_func is_separator
set_slice names value = names ++ fields_func is_separator value

-- `stringSlice.String`
unfoldable pub slice_string : List String → String
unfolding join
slice_string names = join names ", "

-- The field Machine of an ELF header.
pub data Machine : Type 0 where
  em_386 em_arm em_x86_64 : Machine
  em_other : String → Machine

-- What package debug/elf reads of a binary.
pub record Binary : Type 0 where
  pub has_go_buildid : Bool
  pub libraries : Option (List String)
  pub machine : Machine

pub data BinaryError : Type 0 where
  not_opened not_a_go_binary bad_libraries : BinaryError
  unsupported_machine : String → BinaryError

pub data BinaryArch : Type 0 where
  detected : Info → (goarch : String) → BinaryArch
  rejected : BinaryError → BinaryArch

abbrev pub arch_of_machine : Machine → BinaryArch
unfolding i386 arm x86_64
arch_of_machine em_386 = detected i386 "386"
arch_of_machine em_arm = detected arm "arm"
arch_of_machine em_x86_64 = detected x86_64 "amd64"
arch_of_machine (em_other name) = rejected (unsupported_machine name)

abbrev with_libraries : Option (List String) → Machine → BinaryArch
unfolding arch_of_machine
with_libraries none machine = rejected bad_libraries
with_libraries (some libraries) machine = arch_of_machine machine

-- `getBinaryArch`; `none` is a file that is not opened or no ELF file.
unfoldable pub get_binary_arch : Option Binary → BinaryArch
unfolding with_libraries
get_binary_arch none = rejected not_opened
get_binary_arch (some b) =
    if b.has_go_buildid then with_libraries b.libraries b.machine else rejected not_a_go_binary

-- A set of names, `map[string]struct{}`, and whether a name is in it.
unfoldable pub member : String → List String → Bool
member n [] = false
member n (m ∷ ms) = str_eq n m || member n ms

unfoldable pub add_to_set : String → List String → List String
unfolding member
add_to_set n set = if member n set then set else n ∷ set

unfoldable pub set_of : List String → List String
unfolding add_to_set
set_of [] = []
set_of (n ∷ ns) = add_to_set n (set_of ns)

-- `m[s.Num] = s`
unfoldable pub same_num : ℤ → ℤ → Bool
same_num (pos n) (pos m) = n == m
same_num (negsuc n) (negsuc m) = n == m
same_num _ _ = false

unfoldable pub put_syscall : Syscall → List Syscall → List Syscall
unfolding same_num
put_syscall s [] = s ∷ []
put_syscall s (t ∷ m) =
    let rest = put_syscall s m in if same_num t.num s.num then s ∷ m else t ∷ rest

-- The first loop of `main`: the map from numbers to system calls, filled in order.
unfoldable pub put_all : List Syscall → List Syscall → List Syscall
unfolding put_syscall
put_all [] m = m
put_all (s ∷ ss) m = put_all ss (put_syscall s m)

-- The orders in which Go ranges over the maps of this file: each yields every entry once.
pub record Ranges : Type 0 where
  pub syscalls : List Syscall → List Syscall
  pub names : List String → List String

-- The names of the map's system calls.
unfoldable pub deduplicate : Ranges → List Syscall → List String
unfolding put_all
deduplicate order ss = map (λ s. s.name) (order.syscalls (put_all ss []))

-- `filterBlacklist`: what is kept, and what is filtered out.
unfoldable pub filter_blacklist : (blacklist syscalls : List String) → List String × List String
unfolding member
filter_blacklist blacklist [] = ([], [])
filter_blacklist blacklist (s ∷ ss) =
    let (out, filtered) = filter_blacklist blacklist ss in
    if member s blacklist then (out, s ∷ filtered) else (s ∷ out, filtered)

unfoldable pub is_known : Info → String → Bool
is_known arch name = elim (number_of name arch.syscall_names) [ none ↦ false | some n ↦ true ]

-- The loop of `addWhitelist` over the flag's names: the set `m` and the names added, in order.
unfoldable pub add_allowed : Info → (allow_list m added : List String) → List String × List String
unfolding member is_known
add_allowed arch [] m added = (m, added)
add_allowed arch (s ∷ ss) m added =
    let rest = add_allowed arch ss (s ∷ m) (added ++ s ∷ []) in
    let without = add_allowed arch ss m added in
    if is_known arch s && not (member s m) then rest else without

-- `addWhitelist`
unfoldable pub add_whitelist :
    Ranges → Info → (allow_list syscalls : List String) → List String × List String
unfolding add_allowed set_of
add_whitelist order arch allow_list syscalls =
    let (m, added) = add_allowed arch allow_list (set_of syscalls) [] in (order.names m, added)

-- The names of the profile: what `main` does between ExtractSyscalls and the output.
unfoldable pub profile_names :
    Ranges → Info → (blacklist allow_list : List String) → List Syscall → List String
unfolding deduplicate filter_blacklist add_whitelist sort_texts
profile_names order arch blacklist allow_list ss =
    let names = deduplicate order ss in
    let kept = if is_empty blacklist then names else (filter_blacklist blacklist names).0 in
    let allowed =
      if is_empty allow_list then kept else (add_whitelist order arch allow_list kept).0 in
    sort_texts allowed

-- The policy that `writeProfileConfig` writes, and that the code template spells.
unfoldable pub profile_policy : List String → Policy
profile_policy names = record {
  default_action = action_errno;
  syscalls =
      record { names = names; names_with_conditions = []; action = action_allow; arch = none } ∷ [];
  arch = none;
}
