-- ===== src/Arch/Tables/I386Part2.antt =====
-- arch/zsyscalls.go: part 2 of 4 of the map `syscalls386` from system call numbers to names.
use go_seccomp_bpf.Base.{ℕ, String, List, [], ◌∷◌}

unfoldable pub syscalls_386_part2 : List (ℕ × String)
syscalls_386_part2 =
    (145, "readv")
    ∷ (146, "writev")
    ∷ (147, "getsid")
    ∷ (148, "fdatasync")
    ∷ (149, "_sysctl")
    ∷ (150, "mlock")
    ∷ (151, "munlock")
    ∷ (152, "mlockall")
    ∷ (153, "munlockall")
    ∷ (154, "sched_setparam")
    ∷ (155, "sched_getparam")
    ∷ (156, "sched_setscheduler")
    ∷ (157, "sched_getscheduler")
    ∷ (158, "sched_yield")
    ∷ (159, "sched_get_priority_max")
    ∷ (160, "sched_get_priority_min")
    ∷ (161, "sched_rr_get_interval")
    ∷ (162, "nanosleep")
    ∷ (163, "mremap")
    ∷ (164, "setresuid")
    ∷ (165, "getresuid")
    ∷ (166, "vm86")
    ∷ (167, "query_module")
    ∷ (168, "poll")
    ∷ (169, "nfsservctl")
    ∷ (170, "setresgid")
    ∷ (171, "getresgid")
    ∷ (172, "prctl")
    ∷ (173, "rt_sigreturn")
    ∷ (174, "rt_sigaction")
    ∷ (175, "rt_sigprocmask")
    ∷ (176, "rt_sigpending")
    ∷ (177, "rt_sigtimedwait")
    ∷ (178, "rt_sigqueueinfo")
    ∷ (179, "rt_sigsuspend")
    ∷ (180, "pread64")
    ∷ (181, "pwrite64")
    ∷ (182, "chown")
    ∷ (183, "getcwd")
    ∷ (184, "capget")
    ∷ (185, "capset")
    ∷ (186, "sigaltstack")
    ∷ (187, "sendfile")
    ∷ (188, "getpmsg")
    ∷ (189, "putpmsg")
    ∷ (190, "vfork")
    ∷ (191, "ugetrlimit")
    ∷ (192, "mmap2")
    ∷ (193, "truncate64")
    ∷ (194, "ftruncate64")
    ∷ (195, "stat64")
    ∷ (196, "lstat64")
    ∷ (197, "fstat64")
    ∷ (198, "lchown32")
    ∷ (199, "getuid32")
    ∷ (200, "getgid32")
    ∷ (201, "geteuid32")
    ∷ (202, "getegid32")
    ∷ (203, "setreuid32")
    ∷ (204, "setregid32")
    ∷ (205, "getgroups32")
    ∷ (206, "setgroups32")
    ∷ (207, "fchown32")
    ∷ (208, "setresuid32")
    ∷ (209, "getresuid32")
    ∷ (210, "setresgid32")
    ∷ (211, "getresgid32")
    ∷ (212, "chown32")
    ∷ (213, "setuid32")
    ∷ (214, "setgid32")
    ∷ (215, "setfsuid32")
    ∷ (216, "setfsgid32")
    ∷ (217, "pivot_root")
    ∷ (218, "mincore")
    ∷ (219, "madvise")
    ∷ (220, "getdents64")
    ∷ (221, "fcntl64")
    ∷ (224, "gettid")
    ∷ (225, "readahead")
    ∷ (226, "setxattr")
    ∷ (227, "lsetxattr")
    ∷ (228, "fsetxattr")
    ∷ (229, "getxattr")
    ∷ (230, "lgetxattr")
    ∷ (231, "fgetxattr")
    ∷ (232, "listxattr")
    ∷ (233, "llistxattr")
    ∷ (234, "flistxattr")
    ∷ (235, "removexattr")
    ∷ (236, "lremovexattr")
    ∷ (237, "fremovexattr")
    ∷ (238, "tkill")
    ∷ (239, "sendfile64")
    ∷ (240, "futex")
    ∷ (241, "sched_setaffinity")
    ∷ (242, "sched_getaffinity")
    ∷ (243, "set_thread_area")
    ∷ (244, "get_thread_area")
    ∷ (245, "io_setup")
    ∷ (246, "io_destroy")
    ∷ (247, "io_getevents")
    ∷ (248, "io_submit")
    ∷ (249, "io_cancel")
    ∷ (250, "fadvise64")
    ∷ (252, "exit_group")
    ∷ (253, "lookup_dcookie")
    ∷ (254, "epoll_create")
    ∷ (255, "epoll_ctl")
    ∷ (256, "epoll_wait")
    ∷ (257, "remap_file_pages")
    ∷ (258, "set_tid_address")
    ∷ (259, "timer_create")
    ∷ (260, "timer_settime")
    ∷ (261, "timer_gettime")
    ∷ (262, "timer_getoverrun")
    ∷ (263, "timer_delete")
    ∷ (264, "clock_settime")
    ∷ (265, "clock_gettime")
    ∷ (266, "clock_getres")
    ∷ (267, "clock_nanosleep")
    ∷ (268, "statfs64")
    ∷ (269, "fstatfs64")
    ∷ (270, "tgkill")
    ∷ (271, "utimes")
    ∷ (272, "fadvise64_64")
    ∷ (273, "vserver")
    ∷ (274, "mbind")
    ∷ (275, "get_mempolicy")
    ∷ (276, "set_mempolicy")
    ∷ (277, "mq_open")
    ∷ (278, "mq_unlink")
    ∷ (279, "mq_timedsend")
    ∷ (280, "mq_timedreceive")
    ∷ (281, "mq_notify")
    ∷ (282, "mq_getsetattr")
    ∷ (283, "kexec_load")
    ∷ (284, "waitid")
    ∷ (286, "add_key")
    ∷ (287, "request_key")
    ∷ (288, "keyctl")
    ∷ (289, "ioprio_set")
    ∷ (290, "ioprio_get")
    ∷ (291, "inotify_init")
    ∷ (292, "inotify_add_watch")
    ∷ (293, "inotify_rm_watch")
    ∷ []
