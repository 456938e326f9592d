-- ===== src/Constants.antt =====
-- constants.go and internal/unix/types_other.go: the kernel's numbers for actions, errors and flags.
use go_seccomp_bpf.Base.{ℕ}

abbrev pub pr_set_no_new_privs : ℕ
pr_set_no_new_privs = 0x26

abbrev pub seccomp_set_mode_strict : ℕ
seccomp_set_mode_strict = 0x0

abbrev pub seccomp_set_mode_filter : ℕ
seccomp_set_mode_filter = 0x1

abbrev pub action_kill_thread : ℕ
action_kill_thread = 0x0

abbrev pub action_kill_process : ℕ
action_kill_process = 0x80000000

abbrev pub action_trap : ℕ
action_trap = 0x30000

abbrev pub action_errno : ℕ
action_errno = 0x50000

abbrev pub action_trace : ℕ
action_trace = 0x7ff00000

abbrev pub action_log : ℕ
action_log = 0x7ffc0000

abbrev pub action_allow : ℕ
action_allow = 0x7fff0000

abbrev pub action_user_notify : ℕ
action_user_notify = 0x7fc00000

abbrev pub errno_eperm : ℕ
errno_eperm = 0x1

abbrev pub errno_enosys : ℕ
errno_enosys = 0x26

abbrev pub filter_flag_tsync : ℕ
filter_flag_tsync = 0x1

abbrev pub filter_flag_log : ℕ
filter_flag_log = 0x2
