-- ===== src/Arch.antt =====
-- arch/info.go, arch/zarches.go: what the package knows of an architecture, and the choice of one.
pub mod Tables
pub mod Audit
pub mod Supported
pub mod Invert
pub mod Apart
use Prim.Native.Char.{Char}
use go_seccomp_bpf.Base.{
  ℕ, String, List, [], ◌∷◌, Option, none, some, str_eq, ◌==◌, if◌then◌else◌, is_empty, Result, ok,
  err, unsupported_arch,
}
use go_seccomp_bpf.Text.{to_lower}
pub use Audit.{audit_arch_x86_64}
use Audit.{
  audit_arch_aarch64, audit_arch_arm, audit_arch_i386, audit_arch_mips, audit_arch_mips64,
  audit_arch_mips64n32, audit_arch_mipsel, audit_arch_mipsel64, audit_arch_mipsel64n32,
  audit_arch_ppc, audit_arch_ppc64, audit_arch_ppc64le, audit_arch_s390, audit_arch_s390x,
}
use go_seccomp_bpf.Arch.Tables.{
  syscalls_arm, syscalls_aarch64, syscalls_386, syscalls_x32, syscalls_x86_64,
}

pub record Info : Type 0 where
  pub name : String
  pub id : ℕ
  pub syscall_names : List (String × ℕ)
  pub syscall_numbers : List (ℕ × String)
  pub seccomp_mask : ℕ

-- `m[key]` of a map, as an association list.
unfoldable pub number_of : String → List (String × ℕ) → Option ℕ
number_of key [] = none
number_of key ((k, n) ∷ m) = if str_eq k key then some n else number_of key m

unfoldable pub name_of : ℕ → List (ℕ × String) → Option String
name_of key [] = none
name_of key ((k, s) ∷ m) = if k == key then some s else name_of key m

-- `m[key] = n`
unfoldable pub put : String → ℕ → List (String × ℕ) → List (String × ℕ)
put key n [] = (key, n) ∷ []
put key n ((k, i) ∷ m) = if str_eq k key then (key, n) ∷ m else (k, i) ∷ put key n m

-- The loop of `invert`, in one of the orders that Go may choose.
unfoldable pub invert : List (ℕ × String) → List (String × ℕ)
unfolding put
invert [] = []
invert ((k, v) ∷ m) = put v k (invert m)

abbrev pub x32_syscall_mask : ℕ
x32_syscall_mask = 0x40000000

-- An architecture with a table, and one without.
abbrev implemented : String → ℕ → List (ℕ × String) → ℕ → Info
implemented name id numbers mask = record {
  name = name;
  id = id;
  syscall_names = invert numbers;
  syscall_numbers = numbers;
  seccomp_mask = mask;
}

abbrev unimplemented : String → ℕ → Info
unimplemented name id = record {
  name = name;
  id = id;
  syscall_names = [];
  syscall_numbers = [];
  seccomp_mask = 0;
}

unfoldable pub arm : Info
arm = implemented "arm" audit_arch_arm syscalls_arm 0

unfoldable pub aarch64 : Info
aarch64 = implemented "aarch64" audit_arch_aarch64 syscalls_aarch64 0

unfoldable pub i386 : Info
i386 = implemented "i386" audit_arch_i386 syscalls_386 0

unfoldable pub x32 : Info
x32 = implemented "x32" audit_arch_x86_64 syscalls_x32 x32_syscall_mask

unfoldable pub x86_64 : Info
x86_64 = implemented "x86_64" audit_arch_x86_64 syscalls_x86_64 0

unfoldable pub arches : List (String × Info)
unfolding arm aarch64 i386 x32 x86_64
arches =
    ("arm", arm)
    ∷ ("ppc", unimplemented "ppc" audit_arch_ppc)
    ∷ ("ppc64", unimplemented "ppc64" audit_arch_ppc64)
    ∷ ("ppc64le", unimplemented "ppc64le" audit_arch_ppc64le)
    ∷ ("s390", unimplemented "s390" audit_arch_s390)
    ∷ ("s390x", unimplemented "s390x" audit_arch_s390x)
    ∷ ("mips", unimplemented "mips" audit_arch_mips)
    ∷ ("mipsle", unimplemented "mipsel" audit_arch_mipsel)
    ∷ ("mips64", unimplemented "mips64" audit_arch_mips64)
    ∷ ("i386", i386)
    ∷ ("386", i386)
    ∷ ("x32", x32)
    ∷ ("x86_64", x86_64)
    ∷ ("amd64", x86_64)
    ∷ ("aarch64", aarch64)
    ∷ ("arm64", aarch64)
    ∷ ("mips64n32", unimplemented "mips64n32" audit_arch_mips64n32)
    ∷ ("mips64p32", unimplemented "mips64n32" audit_arch_mips64n32)
    ∷ ("mipsel64", unimplemented "mipsel64" audit_arch_mipsel64)
    ∷ ("mips64le", unimplemented "mipsel64" audit_arch_mipsel64)
    ∷ ("mipsel64n32", unimplemented "mipsel64n32" audit_arch_mipsel64n32)
    ∷ ("mips64p32le", unimplemented "mipsel64n32" audit_arch_mipsel64n32)
    ∷ []

unfoldable pub find_arch : String → List (String × Info) → Option Info
find_arch key [] = none
find_arch key ((k, i) ∷ m) = if str_eq k key then some i else find_arch key m

-- An architecture with no table of system calls is not supported.
abbrev pub supported : String → Option Info → Result Info
supported name none = err (unsupported_arch name)
supported name (some arch) =
    if is_empty arch.syscall_names then err (unsupported_arch name) else ok arch

-- `goarch` is `runtime.GOARCH`.
unfoldable pub get_info : (unicode_lower : Char → Char) → (goarch name : String) → Result Info
unfolding find_arch
get_info unicode_lower goarch name =
    let key = if str_eq name "" then goarch else to_lower unicode_lower name in
    supported key (find_arch key arches)
