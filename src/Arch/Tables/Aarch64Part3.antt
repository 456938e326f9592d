-- ===== src/Arch/Tables/Aarch64Part3.antt =====
-- arch/zsyscalls.go: part 3 of 3 of the map `syscallsAARCH64` from system call numbers to names.
use go_seccomp_bpf.Base.{ℕ, String, List, [], ◌∷◌}

unfoldable pub syscalls_aarch64_part3 : List (ℕ × String)
syscalls_aarch64_part3 =
    (413, "pselect6_time64")
    ∷ (414, "ppoll_time64")
    ∷ (416, "io_pgetevents_time64")
    ∷ (417, "recvmmsg_time64")
    ∷ (418, "mq_timedsend_time64")
    ∷ (419, "mq_timedreceive_time64")
    ∷ (420, "semtimedop_time64")
    ∷ (421, "rt_sigtimedwait_time64")
    ∷ (422, "futex_time64")
    ∷ (423, "sched_rr_get_interval_time64")
    ∷ (424, "pidfd_send_signal")
    ∷ (425, "io_uring_setup")
    ∷ (426, "io_uring_enter")
    ∷ (427, "io_uring_register")
    ∷ (428, "open_tree")
    ∷ (429, "move_mount")
    ∷ (430, "fsopen")
    ∷ (431, "fsconfig")
    ∷ (432, "fsmount")
    ∷ (433, "fspick")
    ∷ (434, "pidfd_open")
    ∷ (435, "clone3")
    ∷ (436, "close_range")
    ∷ (437, "openat2")
    ∷ (438, "pidfd_getfd")
    ∷ (439, "faccessat2")
    ∷ (440, "process_madvise")
    ∷ (441, "epoll_pwait2")
    ∷ (442, "mount_setattr")
    ∷ (443, "quotactl_fd")
    ∷ (444, "landlock_create_ruleset")
    ∷ (445, "landlock_add_rule")
    ∷ (446, "landlock_restrict_self")
    ∷ (447, "memfd_secret")
    ∷ (448, "process_mrelease")
    ∷ (449, "futex_waitv")
    ∷ (450, "set_mempolicy_home_node")
    ∷ (451, "cachestat")
    ∷ (452, "fchmodat2")
    ∷ (453, "map_shadow_stack")
    ∷ (454, "futex_wake")
    ∷ (455, "futex_wait")
    ∷ (456, "futex_requeue")
    ∷ (457, "statmount")
    ∷ (458, "listmount")
    ∷ (459, "lsm_get_self_attr")
    ∷ (460, "lsm_set_self_attr")
    ∷ (461, "lsm_list_modules")
    ∷ (462, "mseal")
    ∷ (463, "setxattrat")
    ∷ (464, "getxattrat")
    ∷ (465, "listxattrat")
    ∷ (466, "removexattrat")
    ∷ (467, "open_tree_attr")
    ∷ []
