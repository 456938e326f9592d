-- ===== src/Arch/Tables/I386Part3.antt =====
-- arch/zsyscalls.go: part 3 of 4 of the map `syscalls386` from system call numbers to names.
use go_seccomp_bpf.Base.{ℕ, String, List, [], ◌∷◌}

unfoldable pub syscalls_386_part3 : List (ℕ × String)
syscalls_386_part3 =
    (294, "migrate_pages")
    ∷ (295, "openat")
    ∷ (296, "mkdirat")
    ∷ (297, "mknodat")
    ∷ (298, "fchownat")
    ∷ (299, "futimesat")
    ∷ (300, "fstatat64")
    ∷ (301, "unlinkat")
    ∷ (302, "renameat")
    ∷ (303, "linkat")
    ∷ (304, "symlinkat")
    ∷ (305, "readlinkat")
    ∷ (306, "fchmodat")
    ∷ (307, "faccessat")
    ∷ (308, "pselect6")
    ∷ (309, "ppoll")
    ∷ (310, "unshare")
    ∷ (311, "set_robust_list")
    ∷ (312, "get_robust_list")
    ∷ (313, "splice")
    ∷ (314, "sync_file_range")
    ∷ (315, "tee")
    ∷ (316, "vmsplice")
    ∷ (317, "move_pages")
    ∷ (318, "getcpu")
    ∷ (319, "epoll_pwait")
    ∷ (320, "utimensat")
    ∷ (321, "signalfd")
    ∷ (322, "timerfd_create")
    ∷ (323, "eventfd")
    ∷ (324, "fallocate")
    ∷ (325, "timerfd_settime")
    ∷ (326, "timerfd_gettime")
    ∷ (327, "signalfd4")
    ∷ (328, "eventfd2")
    ∷ (329, "epoll_create1")
    ∷ (330, "dup3")
    ∷ (331, "pipe2")
    ∷ (332, "inotify_init1")
    ∷ (333, "preadv")
    ∷ (334, "pwritev")
    ∷ (335, "rt_tgsigqueueinfo")
    ∷ (336, "perf_event_open")
    ∷ (337, "recvmmsg")
    ∷ (338, "fanotify_init")
    ∷ (339, "fanotify_mark")
    ∷ (340, "prlimit64")
    ∷ (341, "name_to_handle_at")
    ∷ (342, "open_by_handle_at")
    ∷ (343, "clock_adjtime")
    ∷ (344, "syncfs")
    ∷ (345, "sendmmsg")
    ∷ (346, "setns")
    ∷ (347, "process_vm_readv")
    ∷ (348, "process_vm_writev")
    ∷ (349, "kcmp")
    ∷ (350, "finit_module")
    ∷ (351, "sched_setattr")
    ∷ (352, "sched_getattr")
    ∷ (353, "renameat2")
    ∷ (354, "seccomp")
    ∷ (355, "getrandom")
    ∷ (356, "memfd_create")
    ∷ (357, "bpf")
    ∷ (358, "execveat")
    ∷ (359, "socket")
    ∷ (360, "socketpair")
    ∷ (361, "bind")
    ∷ (362, "connect")
    ∷ (363, "listen")
    ∷ (364, "accept4")
    ∷ (365, "getsockopt")
    ∷ (366, "setsockopt")
    ∷ (367, "getsockname")
    ∷ (368, "getpeername")
    ∷ (369, "sendto")
    ∷ (370, "sendmsg")
    ∷ (371, "recvfrom")
    ∷ (372, "recvmsg")
    ∷ (373, "shutdown")
    ∷ (374, "userfaultfd")
    ∷ (375, "membarrier")
    ∷ (376, "mlock2")
    ∷ (377, "copy_file_range")
    ∷ (378, "preadv2")
    ∷ (379, "pwritev2")
    ∷ (380, "pkey_mprotect")
    ∷ (381, "pkey_alloc")
    ∷ (382, "pkey_free")
    ∷ (383, "statx")
    ∷ (384, "arch_prctl")
    ∷ (385, "io_pgetevents")
    ∷ (386, "rseq")
    ∷ (393, "semget")
    ∷ (394, "semctl")
    ∷ (395, "shmget")
    ∷ (396, "shmctl")
    ∷ (397, "shmat")
    ∷ (398, "shmdt")
    ∷ (399, "msgget")
    ∷ (400, "msgsnd")
    ∷ (401, "msgrcv")
    ∷ (402, "msgctl")
    ∷ (403, "clock_gettime64")
    ∷ (404, "clock_settime64")
    ∷ (405, "clock_adjtime64")
    ∷ (406, "clock_getres_time64")
    ∷ (407, "clock_nanosleep_time64")
    ∷ (408, "timer_gettime64")
    ∷ (409, "timer_settime64")
    ∷ (410, "timerfd_gettime64")
    ∷ (411, "timerfd_settime64")
    ∷ (412, "utimensat_time64")
    ∷ (413, "pselect6_time64")
    ∷ (414, "ppoll_time64")
    ∷ (416, "io_pgetevents_time64")
    ∷ (417, "recvmmsg_time64")
    ∷ (418, "mq_timedsend_time64")
    ∷ (419, "mq_timedreceive_time64")
    ∷ (420, "semtimedop_time64")
    ∷ (421, "rt_sigtimedwait_time64")
    ∷ (422, "futex_time64")
    ∷ (423, "sched_rr_get_interval_time64")
    ∷ (424, "pidfd_send_signal")
    ∷ (425, "io_uring_setup")
    ∷ (426, "io_uring_enter")
    ∷ (427, "io_uring_register")
    ∷ (428, "open_tree")
    ∷ (429, "move_mount")
    ∷ (430, "fsopen")
    ∷ (431, "fsconfig")
    ∷ (432, "fsmount")
    ∷ (433, "fspick")
    ∷ (434, "pidfd_open")
    ∷ (435, "clone3")
    ∷ (436, "close_range")
    ∷ (437, "openat2")
    ∷ (438, "pidfd_getfd")
    ∷ (439, "faccessat2")
    ∷ (440, "process_madvise")
    ∷ (441, "epoll_pwait2")
    ∷ (442, "mount_setattr")
    ∷ (443, "quotactl_fd")
    ∷ (444, "landlock_create_ruleset")
    ∷ (445, "landlock_add_rule")
    ∷ []
