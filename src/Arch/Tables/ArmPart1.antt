-- ===== src/Arch/Tables/ArmPart1.antt =====
-- arch/zsyscalls.go: part 1 of 3 of the map `syscallsARM` from system call numbers to names.
use go_seccomp_bpf.Base.{ℕ, String, List, [], ◌∷◌}

unfoldable pub syscalls_arm_part1 : List (ℕ × String)
syscalls_arm_part1 =
    (0, "restart_syscall")
    ∷ (1, "exit")
    ∷ (2, "fork")
    ∷ (3, "read")
    ∷ (4, "write")
    ∷ (5, "open")
    ∷ (6, "close")
    ∷ (8, "creat")
    ∷ (9, "link")
    ∷ (10, "unlink")
    ∷ (11, "execve")
    ∷ (12, "chdir")
    ∷ (14, "mknod")
    ∷ (15, "chmod")
    ∷ (16, "lchown")
    ∷ (19, "lseek")
    ∷ (20, "getpid")
    ∷ (21, "mount")
    ∷ (23, "setuid")
    ∷ (24, "getuid")
    ∷ (26, "ptrace")
    ∷ (29, "pause")
    ∷ (33, "access")
    ∷ (34, "nice")
    ∷ (36, "sync")
    ∷ (37, "kill")
    ∷ (38, "rename")
    ∷ (39, "mkdir")
    ∷ (40, "rmdir")
    ∷ (41, "dup")
    ∷ (42, "pipe")
    ∷ (43, "times")
    ∷ (45, "brk")
    ∷ (46, "setgid")
    ∷ (47, "getgid")
    ∷ (49, "geteuid")
    ∷ (50, "getegid")
    ∷ (51, "acct")
    ∷ (52, "umount2")
    ∷ (54, "ioctl")
    ∷ (55, "fcntl")
    ∷ (57, "setpgid")
    ∷ (60, "umask")
    ∷ (61, "chroot")
    ∷ (62, "ustat")
    ∷ (63, "dup2")
    ∷ (64, "getppid")
    ∷ (65, "getpgrp")
    ∷ (66, "setsid")
    ∷ (67, "sigaction")
    ∷ (70, "setreuid")
    ∷ (71, "setregid")
    ∷ (72, "sigsuspend")
    ∷ (73, "sigpending")
    ∷ (74, "sethostname")
    ∷ (75, "setrlimit")
    ∷ (77, "getrusage")
    ∷ (78, "gettimeofday")
    ∷ (79, "settimeofday")
    ∷ (80, "getgroups")
    ∷ (81, "setgroups")
    ∷ (83, "symlink")
    ∷ (85, "readlink")
    ∷ (86, "uselib")
    ∷ (87, "swapon")
    ∷ (88, "reboot")
    ∷ (91, "munmap")
    ∷ (92, "truncate")
    ∷ (93, "ftruncate")
    ∷ (94, "fchmod")
    ∷ (95, "fchown")
    ∷ (96, "getpriority")
    ∷ (97, "setpriority")
    ∷ (99, "statfs")
    ∷ (100, "fstatfs")
    ∷ (103, "syslog")
    ∷ (104, "setitimer")
    ∷ (105, "getitimer")
    ∷ (106, "stat")
    ∷ (107, "lstat")
    ∷ (108, "fstat")
    ∷ (111, "vhangup")
    ∷ (114, "wait4")
    ∷ (115, "swapoff")
    ∷ (116, "sysinfo")
    ∷ (118, "fsync")
    ∷ (119, "sigreturn")
    ∷ (120, "clone")
    ∷ (121, "setdomainname")
    ∷ (122, "uname")
    ∷ (124, "adjtimex")
    ∷ (125, "mprotect")
    ∷ (126, "sigprocmask")
    ∷ (128, "init_module")
    ∷ (129, "delete_module")
    ∷ (131, "quotactl")
    ∷ (132, "getpgid")
    ∷ (133, "fchdir")
    ∷ (134, "bdflush")
    ∷ (135, "sysfs")
    ∷ (136, "personality")
    ∷ (138, "setfsuid")
    ∷ (139, "setfsgid")
    ∷ (140, "_llseek")
    ∷ (141, "getdents")
    ∷ (142, "_newselect")
    ∷ (143, "flock")
    ∷ (144, "msync")
    ∷ (145, "readv")
    ∷ (146, "writev")
    ∷ (147, "getsid")
    ∷ (148, "fdatasync")
    ∷ (149, "_sysctl")
    ∷ (150, "mlock")
    ∷ (151, "munlock")
    ∷ (152, "mlockall")
    ∷ (153, "munlockall")
    ∷ (154, "sched_setparam")
    ∷ (155, "sched_getparam")
    ∷ (156, "sched_setscheduler")
    ∷ (157, "sched_getscheduler")
    ∷ (158, "sched_yield")
    ∷ (159, "sched_get_priority_max")
    ∷ (160, "sched_get_priority_min")
    ∷ (161, "sched_rr_get_interval")
    ∷ (162, "nanosleep")
    ∷ (163, "mremap")
    ∷ (164, "setresuid")
    ∷ (165, "getresuid")
    ∷ (168, "poll")
    ∷ (169, "nfsservctl")
    ∷ (170, "setresgid")
    ∷ (171, "getresgid")
    ∷ (172, "prctl")
    ∷ (173, "rt_sigreturn")
    ∷ (174, "rt_sigaction")
    ∷ (175, "rt_sigprocmask")
    ∷ (176, "rt_sigpending")
    ∷ (177, "rt_sigtimedwait")
    ∷ (178, "rt_sigqueueinfo")
    ∷ (179, "rt_sigsuspend")
    ∷ (180, "pread64")
    ∷ (181, "pwrite64")
    ∷ (182, "chown")
    ∷ (183, "getcwd")
    ∷ []
