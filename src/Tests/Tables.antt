-- ===== src/Tests/Tables.antt =====
-- The tables of system calls.
use go_seccomp_bpf.Base.{◌≡◌, refl, true, false}
use go_seccomp_bpf.Arch.Tables.{
  syscalls_arm, syscalls_aarch64, syscalls_386, syscalls_x86_64, syscalls_x32,
}
use go_seccomp_bpf.Arch.Invert.{has_name, has_distinct_names}

distinct_x86_64 : has_distinct_names syscalls_x86_64 ≡ true
unfolding has_distinct_names has_name syscalls_x86_64
distinct_x86_64 = refl

distinct_arm : has_distinct_names syscalls_arm ≡ true
unfolding has_distinct_names syscalls_arm
distinct_arm = refl

distinct_386 : has_distinct_names syscalls_386 ≡ true
unfolding has_distinct_names syscalls_386
distinct_386 = refl

distinct_aarch64 : has_distinct_names syscalls_aarch64 ≡ true
unfolding has_distinct_names syscalls_aarch64
distinct_aarch64 = refl

distinct_x32 : has_distinct_names syscalls_x32 ≡ false
unfolding has_distinct_names syscalls_x32
distinct_x32 = refl
