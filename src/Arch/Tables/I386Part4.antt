-- ===== src/Arch/Tables/I386Part4.antt =====
-- arch/zsyscalls.go: part 4 of 4 of the map `syscalls386` from system call numbers to names.
use go_seccomp_bpf.Base.{ℕ, String, List, [], ◌∷◌}

unfoldable pub syscalls_386_part4 : List (ℕ × String)
syscalls_386_part4 =
    (446, "landlock_restrict_self")
    ∷ (447, "memfd_secret")
    ∷ (448, "process_mrelease")
    ∷ (449, "futex_waitv")
    ∷ (450, "set_mempolicy_home_node")
    ∷ (451, "cachestat")
    ∷ (452, "fchmodat2")
    ∷ (453, "map_shadow_stack")
    ∷ (454, "futex_wake")
    ∷ (455, "futex_wait")
    ∷ (456, "futex_requeue")
    ∷ (457, "statmount")
    ∷ (458, "listmount")
    ∷ (459, "lsm_get_self_attr")
    ∷ (460, "lsm_set_self_attr")
    ∷ (461, "lsm_list_modules")
    ∷ (462, "mseal")
    ∷ (463, "setxattrat")
    ∷ (464, "getxattrat")
    ∷ (465, "listxattrat")
    ∷ (466, "removexattrat")
    ∷ (467, "open_tree_attr")
    ∷ []
