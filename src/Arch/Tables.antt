-- ===== src/Arch/Tables.antt =====
-- arch/zsyscalls.go: the tables of system calls, each put together from its parts.
mod ArmPart1
mod ArmPart2
mod ArmPart3
mod Aarch64Part1
mod Aarch64Part2
mod Aarch64Part3
mod I386Part1
mod I386Part2
mod I386Part3
mod I386Part4
mod X32Part1
mod X32Part2
mod X32Part3
mod X86Part1
mod X86Part2
mod X86Part3
use ArmPart1.{syscalls_arm_part1}
use ArmPart2.{syscalls_arm_part2}
use ArmPart3.{syscalls_arm_part3}
use Aarch64Part1.{syscalls_aarch64_part1}
use Aarch64Part2.{syscalls_aarch64_part2}
use Aarch64Part3.{syscalls_aarch64_part3}
use I386Part1.{syscalls_386_part1}
use I386Part2.{syscalls_386_part2}
use I386Part3.{syscalls_386_part3}
use I386Part4.{syscalls_386_part4}
use X32Part1.{syscalls_x32_part1}
use X32Part2.{syscalls_x32_part2}
use X32Part3.{syscalls_x32_part3}
use X86Part1.{syscalls_x86_64_part1}
use X86Part2.{syscalls_x86_64_part2}
use X86Part3.{syscalls_x86_64_part3}
use go_seccomp_bpf.Base.{ℕ, String, List, ◌++◌}

unfoldable pub syscalls_arm : List (ℕ × String)
unfolding syscalls_arm_part1 syscalls_arm_part2 syscalls_arm_part3
syscalls_arm = syscalls_arm_part1 ++ (syscalls_arm_part2 ++ (syscalls_arm_part3))

unfoldable pub syscalls_aarch64 : List (ℕ × String)
unfolding syscalls_aarch64_part1 syscalls_aarch64_part2 syscalls_aarch64_part3
syscalls_aarch64 = syscalls_aarch64_part1 ++ (syscalls_aarch64_part2 ++ (syscalls_aarch64_part3))

unfoldable pub syscalls_386 : List (ℕ × String)
unfolding syscalls_386_part1 syscalls_386_part2 syscalls_386_part3 syscalls_386_part4
syscalls_386 =
    syscalls_386_part1 ++ (syscalls_386_part2 ++ (syscalls_386_part3 ++ (syscalls_386_part4)))

unfoldable pub syscalls_x32 : List (ℕ × String)
unfolding syscalls_x32_part1 syscalls_x32_part2 syscalls_x32_part3
syscalls_x32 = syscalls_x32_part1 ++ (syscalls_x32_part2 ++ (syscalls_x32_part3))

unfoldable pub syscalls_x86_64 : List (ℕ × String)
unfolding syscalls_x86_64_part1 syscalls_x86_64_part2 syscalls_x86_64_part3
syscalls_x86_64 = syscalls_x86_64_part1 ++ (syscalls_x86_64_part2 ++ (syscalls_x86_64_part3))
