-- ===== src/Arch/Tables/ArmPart2.antt =====
-- arch/zsyscalls.go: part 2 of 3 of the map `syscallsARM` from system call numbers to names.
use go_seccomp_bpf.Base.{ℕ, String, List, [], ◌∷◌}

unfoldable pub syscalls_arm_part2 : List (ℕ × String)
syscalls_arm_part2 =
    (184, "capget")
    ∷ (185, "capset")
    ∷ (186, "sigaltstack")
    ∷ (187, "sendfile")
    ∷ (190, "vfork")
    ∷ (191, "ugetrlimit")
    ∷ (192, "mmap2")
    ∷ (193, "truncate64")
    ∷ (194, "ftruncate64")
    ∷ (195, "stat64")
    ∷ (196, "lstat64")
    ∷ (197, "fstat64")
    ∷ (198, "lchown32")
    ∷ (199, "getuid32")
    ∷ (200, "getgid32")
    ∷ (201, "geteuid32")
    ∷ (202, "getegid32")
    ∷ (203, "setreuid32")
    ∷ (204, "setregid32")
    ∷ (205, "getgroups32")
    ∷ (206, "setgroups32")
    ∷ (207, "fchown32")
    ∷ (208, "setresuid32")
    ∷ (209, "getresuid32")
    ∷ (210, "setresgid32")
    ∷ (211, "getresgid32")
    ∷ (212, "chown32")
    ∷ (213, "setuid32")
    ∷ (214, "setgid32")
    ∷ (215, "setfsuid32")
    ∷ (216, "setfsgid32")
    ∷ (217, "getdents64")
    ∷ (218, "pivot_root")
    ∷ (219, "mincore")
    ∷ (220, "madvise")
    ∷ (221, "fcntl64")
    ∷ (224, "gettid")
    ∷ (225, "readahead")
    ∷ (226, "setxattr")
    ∷ (227, "lsetxattr")
    ∷ (228, "fsetxattr")
    ∷ (229, "getxattr")
    ∷ (230, "lgetxattr")
    ∷ (231, "fgetxattr")
    ∷ (232, "listxattr")
    ∷ (233, "llistxattr")
    ∷ (234, "flistxattr")
    ∷ (235, "removexattr")
    ∷ (236, "lremovexattr")
    ∷ (237, "fremovexattr")
    ∷ (238, "tkill")
    ∷ (239, "sendfile64")
    ∷ (240, "futex")
    ∷ (241, "sched_setaffinity")
    ∷ (242, "sched_getaffinity")
    ∷ (243, "io_setup")
    ∷ (244, "io_destroy")
    ∷ (245, "io_getevents")
    ∷ (246, "io_submit")
    ∷ (247, "io_cancel")
    ∷ (248, "exit_group")
    ∷ (249, "lookup_dcookie")
    ∷ (250, "epoll_create")
    ∷ (251, "epoll_ctl")
    ∷ (252, "epoll_wait")
    ∷ (253, "remap_file_pages")
    ∷ (256, "set_tid_address")
    ∷ (257, "timer_create")
    ∷ (258, "timer_settime")
    ∷ (259, "timer_gettime")
    ∷ (260, "timer_getoverrun")
    ∷ (261, "timer_delete")
    ∷ (262, "clock_settime")
    ∷ (263, "clock_gettime")
    ∷ (264, "clock_getres")
    ∷ (265, "clock_nanosleep")
    ∷ (266, "statfs64")
    ∷ (267, "fstatfs64")
    ∷ (268, "tgkill")
    ∷ (269, "utimes")
    ∷ (270, "arm_fadvise64_64")
    ∷ (271, "pciconfig_iobase")
    ∷ (272, "pciconfig_read")
    ∷ (273, "pciconfig_write")
    ∷ (274, "mq_open")
    ∷ (275, "mq_unlink")
    ∷ (276, "mq_timedsend")
    ∷ (277, "mq_timedreceive")
    ∷ (278, "mq_notify")
    ∷ (279, "mq_getsetattr")
    ∷ (280, "waitid")
    ∷ (281, "socket")
    ∷ (282, "bind")
    ∷ (283, "connect")
    ∷ (284, "listen")
    ∷ (285, "accept")
    ∷ (286, "getsockname")
    ∷ (287, "getpeername")
    ∷ (288, "socketpair")
    ∷ (289, "send")
    ∷ (290, "sendto")
    ∷ (291, "recv")
    ∷ (292, "recvfrom")
    ∷ (293, "shutdown")
    ∷ (294, "setsockopt")
    ∷ (295, "getsockopt")
    ∷ (296, "sendmsg")
    ∷ (297, "recvmsg")
    ∷ (298, "semop")
    ∷ (299, "semget")
    ∷ (300, "semctl")
    ∷ (301, "msgsnd")
    ∷ (302, "msgrcv")
    ∷ (303, "msgget")
    ∷ (304, "msgctl")
    ∷ (305, "shmat")
    ∷ (306, "shmdt")
    ∷ (307, "shmget")
    ∷ (308, "shmctl")
    ∷ (309, "add_key")
    ∷ (310, "request_key")
    ∷ (311, "keyctl")
    ∷ (312, "semtimedop")
    ∷ (313, "vserver")
    ∷ (314, "ioprio_set")
    ∷ (315, "ioprio_get")
    ∷ (316, "inotify_init")
    ∷ (317, "inotify_add_watch")
    ∷ (318, "inotify_rm_watch")
    ∷ (319, "mbind")
    ∷ (320, "get_mempolicy")
    ∷ (321, "set_mempolicy")
    ∷ (322, "openat")
    ∷ (323, "mkdirat")
    ∷ (324, "mknodat")
    ∷ (325, "fchownat")
    ∷ (326, "futimesat")
    ∷ (327, "fstatat64")
    ∷ (328, "unlinkat")
    ∷ (329, "renameat")
    ∷ (330, "linkat")
    ∷ (331, "symlinkat")
    ∷ (332, "readlinkat")
    ∷ (333, "fchmodat")
    ∷ (334, "faccessat")
    ∷ []
