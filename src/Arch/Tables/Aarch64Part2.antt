-- ===== src/Arch/Tables/Aarch64Part2.antt =====
-- arch/zsyscalls.go: part 2 of 3 of the map `syscallsAARCH64` from system call numbers to names.
use go_seccomp_bpf.Base.{ℕ, String, List, [], ◌∷◌}

unfoldable pub syscalls_aarch64_part2 : List (ℕ × String)
syscalls_aarch64_part2 =
    (145, "setreuid")
    ∷ (146, "setuid")
    ∷ (147, "setresuid")
    ∷ (148, "getresuid")
    ∷ (149, "setresgid")
    ∷ (150, "getresgid")
    ∷ (151, "setfsuid")
    ∷ (152, "setfsgid")
    ∷ (153, "times")
    ∷ (154, "setpgid")
    ∷ (155, "getpgid")
    ∷ (156, "getsid")
    ∷ (157, "setsid")
    ∷ (158, "getgroups")
    ∷ (159, "setgroups")
    ∷ (160, "uname")
    ∷ (161, "sethostname")
    ∷ (162, "setdomainname")
    ∷ (163, "getrlimit")
    ∷ (164, "setrlimit")
    ∷ (165, "getrusage")
    ∷ (166, "umask")
    ∷ (167, "prctl")
    ∷ (168, "getcpu")
    ∷ (169, "gettimeofday")
    ∷ (170, "settimeofday")
    ∷ (171, "adjtimex")
    ∷ (172, "getpid")
    ∷ (173, "getppid")
    ∷ (174, "getuid")
    ∷ (175, "geteuid")
    ∷ (176, "getgid")
    ∷ (177, "getegid")
    ∷ (178, "gettid")
    ∷ (179, "sysinfo")
    ∷ (180, "mq_open")
    ∷ (181, "mq_unlink")
    ∷ (182, "mq_timedsend")
    ∷ (183, "mq_timedreceive")
    ∷ (184, "mq_notify")
    ∷ (185, "mq_getsetattr")
    ∷ (186, "msgget")
    ∷ (187, "msgctl")
    ∷ (188, "msgrcv")
    ∷ (189, "msgsnd")
    ∷ (190, "semget")
    ∷ (191, "semctl")
    ∷ (192, "semtimedop")
    ∷ (193, "semop")
    ∷ (194, "shmget")
    ∷ (195, "shmctl")
    ∷ (196, "shmat")
    ∷ (197, "shmdt")
    ∷ (198, "socket")
    ∷ (199, "socketpair")
    ∷ (200, "bind")
    ∷ (201, "listen")
    ∷ (202, "accept")
    ∷ (203, "connect")
    ∷ (204, "getsockname")
    ∷ (205, "getpeername")
    ∷ (206, "sendto")
    ∷ (207, "recvfrom")
    ∷ (208, "setsockopt")
    ∷ (209, "getsockopt")
    ∷ (210, "shutdown")
    ∷ (211, "sendmsg")
    ∷ (212, "recvmsg")
    ∷ (213, "readahead")
    ∷ (214, "brk")
    ∷ (215, "munmap")
    ∷ (216, "mremap")
    ∷ (217, "add_key")
    ∷ (218, "request_key")
    ∷ (219, "keyctl")
    ∷ (220, "clone")
    ∷ (221, "execve")
    ∷ (222, "mmap")
    ∷ (223, "fadvise64")
    ∷ (224, "swapon")
    ∷ (225, "swapoff")
    ∷ (226, "mprotect")
    ∷ (227, "msync")
    ∷ (228, "mlock")
    ∷ (229, "munlock")
    ∷ (230, "mlockall")
    ∷ (231, "munlockall")
    ∷ (232, "mincore")
    ∷ (233, "madvise")
    ∷ (234, "remap_file_pages")
    ∷ (235, "mbind")
    ∷ (236, "get_mempolicy")
    ∷ (237, "set_mempolicy")
    ∷ (238, "migrate_pages")
    ∷ (239, "move_pages")
    ∷ (240, "rt_tgsigqueueinfo")
    ∷ (241, "perf_event_open")
    ∷ (242, "accept4")
    ∷ (243, "recvmmsg")
    ∷ (244, "arch_specific_syscall")
    ∷ (260, "wait4")
    ∷ (261, "prlimit64")
    ∷ (262, "fanotify_init")
    ∷ (263, "fanotify_mark")
    ∷ (264, "name_to_handle_at")
    ∷ (265, "open_by_handle_at")
    ∷ (266, "clock_adjtime")
    ∷ (267, "syncfs")
    ∷ (268, "setns")
    ∷ (269, "sendmmsg")
    ∷ (270, "process_vm_readv")
    ∷ (271, "process_vm_writev")
    ∷ (272, "kcmp")
    ∷ (273, "finit_module")
    ∷ (274, "sched_setattr")
    ∷ (275, "sched_getattr")
    ∷ (276, "renameat2")
    ∷ (277, "seccomp")
    ∷ (278, "getrandom")
    ∷ (279, "memfd_create")
    ∷ (280, "bpf")
    ∷ (281, "execveat")
    ∷ (282, "userfaultfd")
    ∷ (283, "membarrier")
    ∷ (284, "mlock2")
    ∷ (285, "copy_file_range")
    ∷ (286, "preadv2")
    ∷ (287, "pwritev2")
    ∷ (288, "pkey_mprotect")
    ∷ (289, "pkey_alloc")
    ∷ (290, "pkey_free")
    ∷ (291, "statx")
    ∷ (292, "io_pgetevents")
    ∷ (293, "rseq")
    ∷ (294, "kexec_file_load")
    ∷ (403, "clock_gettime64")
    ∷ (404, "clock_settime64")
    ∷ (405, "clock_adjtime64")
    ∷ (406, "clock_getres_time64")
    ∷ (407, "clock_nanosleep_time64")
    ∷ (408, "timer_gettime64")
    ∷ (409, "timer_settime64")
    ∷ (410, "timerfd_gettime64")
    ∷ (411, "timerfd_settime64")
    ∷ (412, "utimensat_time64")
    ∷ []
