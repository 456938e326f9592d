-- ===== src/Arch/Tables/Aarch64Part1.antt =====
-- arch/zsyscalls.go: part 1 of 3 of the map `syscallsAARCH64` from system call numbers to names.
use go_seccomp_bpf.Base.{ℕ, String, List, [], ◌∷◌}

unfoldable pub syscalls_aarch64_part1 : List (ℕ × String)
syscalls_aarch64_part1 =
    (0, "io_setup")
    ∷ (1, "io_destroy")
    ∷ (2, "io_submit")
    ∷ (3, "io_cancel")
    ∷ (4, "io_getevents")
    ∷ (5, "setxattr")
    ∷ (6, "lsetxattr")
    ∷ (7, "fsetxattr")
    ∷ (8, "getxattr")
    ∷ (9, "lgetxattr")
    ∷ (10, "fgetxattr")
    ∷ (11, "listxattr")
    ∷ (12, "llistxattr")
    ∷ (13, "flistxattr")
    ∷ (14, "removexattr")
    ∷ (15, "lremovexattr")
    ∷ (16, "fremovexattr")
    ∷ (17, "getcwd")
    ∷ (18, "lookup_dcookie")
    ∷ (19, "eventfd2")
    ∷ (20, "epoll_create1")
    ∷ (21, "epoll_ctl")
    ∷ (22, "epoll_pwait")
    ∷ (23, "dup")
    ∷ (24, "dup3")
    ∷ (25, "fcntl")
    ∷ (26, "inotify_init1")
    ∷ (27, "inotify_add_watch")
    ∷ (28, "inotify_rm_watch")
    ∷ (29, "ioctl")
    ∷ (30, "ioprio_set")
    ∷ (31, "ioprio_get")
    ∷ (32, "flock")
    ∷ (33, "mknodat")
    ∷ (34, "mkdirat")
    ∷ (35, "unlinkat")
    ∷ (36, "symlinkat")
    ∷ (37, "linkat")
    ∷ (38, "renameat")
    ∷ (39, "umount2")
    ∷ (40, "mount")
    ∷ (41, "pivot_root")
    ∷ (42, "nfsservctl")
    ∷ (43, "statfs")
    ∷ (44, "fstatfs")
    ∷ (45, "truncate")
    ∷ (46, "ftruncate")
    ∷ (47, "fallocate")
    ∷ (48, "faccessat")
    ∷ (49, "chdir")
    ∷ (50, "fchdir")
    ∷ (51, "chroot")
    ∷ (52, "fchmod")
    ∷ (53, "fchmodat")
    ∷ (54, "fchownat")
    ∷ (55, "fchown")
    ∷ (56, "openat")
    ∷ (57, "close")
    ∷ (58, "vhangup")
    ∷ (59, "pipe2")
    ∷ (60, "quotactl")
    ∷ (61, "getdents64")
    ∷ (62, "lseek")
    ∷ (63, "read")
    ∷ (64, "write")
    ∷ (65, "readv")
    ∷ (66, "writev")
    ∷ (67, "pread64")
    ∷ (68, "pwrite64")
    ∷ (69, "preadv")
    ∷ (70, "pwritev")
    ∷ (71, "sendfile")
    ∷ (72, "pselect6")
    ∷ (73, "ppoll")
    ∷ (74, "signalfd4")
    ∷ (75, "vmsplice")
    ∷ (76, "splice")
    ∷ (77, "tee")
    ∷ (78, "readlinkat")
    ∷ (79, "fstatat")
    ∷ (80, "fstat")
    ∷ (81, "sync")
    ∷ (82, "fsync")
    ∷ (83, "fdatasync")
    ∷ (84, "sync_file_range")
    ∷ (85, "timerfd_create")
    ∷ (86, "timerfd_settime")
    ∷ (87, "timerfd_gettime")
    ∷ (88, "utimensat")
    ∷ (89, "acct")
    ∷ (90, "capget")
    ∷ (91, "capset")
    ∷ (92, "personality")
    ∷ (93, "exit")
    ∷ (94, "exit_group")
    ∷ (95, "waitid")
    ∷ (96, "set_tid_address")
    ∷ (97, "unshare")
    ∷ (98, "futex")
    ∷ (99, "set_robust_list")
    ∷ (100, "get_robust_list")
    ∷ (101, "nanosleep")
    ∷ (102, "getitimer")
    ∷ (103, "setitimer")
    ∷ (104, "kexec_load")
    ∷ (105, "init_module")
    ∷ (106, "delete_module")
    ∷ (107, "timer_create")
    ∷ (108, "timer_gettime")
    ∷ (109, "timer_getoverrun")
    ∷ (110, "timer_settime")
    ∷ (111, "timer_delete")
    ∷ (112, "clock_settime")
    ∷ (113, "clock_gettime")
    ∷ (114, "clock_getres")
    ∷ (115, "clock_nanosleep")
    ∷ (116, "syslog")
    ∷ (117, "ptrace")
    ∷ (118, "sched_setparam")
    ∷ (119, "sched_setscheduler")
    ∷ (120, "sched_getscheduler")
    ∷ (121, "sched_getparam")
    ∷ (122, "sched_setaffinity")
    ∷ (123, "sched_getaffinity")
    ∷ (124, "sched_yield")
    ∷ (125, "sched_get_priority_max")
    ∷ (126, "sched_get_priority_min")
    ∷ (127, "sched_rr_get_interval")
    ∷ (128, "restart_syscall")
    ∷ (129, "kill")
    ∷ (130, "tkill")
    ∷ (131, "tgkill")
    ∷ (132, "sigaltstack")
    ∷ (133, "rt_sigsuspend")
    ∷ (134, "rt_sigaction")
    ∷ (135, "rt_sigprocmask")
    ∷ (136, "rt_sigpending")
    ∷ (137, "rt_sigtimedwait")
    ∷ (138, "rt_sigqueueinfo")
    ∷ (139, "rt_sigreturn")
    ∷ (140, "setpriority")
    ∷ (141, "getpriority")
    ∷ (142, "reboot")
    ∷ (143, "setregid")
    ∷ (144, "setgid")
    ∷ []
