-- ===== src/Arch/Tables/I386Part1.antt =====
-- arch/zsyscalls.go: part 1 of 4 of the map `syscalls386` from system call numbers to names.
use go_seccomp_bpf.Base.{ℕ, String, List, [], ◌∷◌}

unfoldable pub syscalls_386_part1 : List (ℕ × String)
syscalls_386_part1 =
    (0, "restart_syscall")
    ∷ (1, "exit")
    ∷ (2, "fork")
    ∷ (3, "read")
    ∷ (4, "write")
    ∷ (5, "open")
    ∷ (6, "close")
    ∷ (7, "waitpid")
    ∷ (8, "creat")
    ∷ (9, "link")
    ∷ (10, "unlink")
    ∷ (11, "execve")
    ∷ (12, "chdir")
    ∷ (13, "time")
    ∷ (14, "mknod")
    ∷ (15, "chmod")
    ∷ (16, "lchown")
    ∷ (17, "break")
    ∷ (18, "oldstat")
    ∷ (19, "lseek")
    ∷ (20, "getpid")
    ∷ (21, "mount")
    ∷ (22, "umount")
    ∷ (23, "setuid")
    ∷ (24, "getuid")
    ∷ (25, "stime")
    ∷ (26, "ptrace")
    ∷ (27, "alarm")
    ∷ (28, "oldfstat")
    ∷ (29, "pause")
    ∷ (30, "utime")
    ∷ (31, "stty")
    ∷ (32, "gtty")
    ∷ (33, "access")
    ∷ (34, "nice")
    ∷ (35, "ftime")
    ∷ (36, "sync")
    ∷ (37, "kill")
    ∷ (38, "rename")
    ∷ (39, "mkdir")
    ∷ (40, "rmdir")
    ∷ (41, "dup")
    ∷ (42, "pipe")
    ∷ (43, "times")
    ∷ (44, "prof")
    ∷ (45, "brk")
    ∷ (46, "setgid")
    ∷ (47, "getgid")
    ∷ (48, "signal")
    ∷ (49, "geteuid")
    ∷ (50, "getegid")
    ∷ (51, "acct")
    ∷ (52, "umount2")
    ∷ (53, "lock")
    ∷ (54, "ioctl")
    ∷ (55, "fcntl")
    ∷ (56, "mpx")
    ∷ (57, "setpgid")
    ∷ (58, "ulimit")
    ∷ (59, "oldolduname")
    ∷ (60, "umask")
    ∷ (61, "chroot")
    ∷ (62, "ustat")
    ∷ (63, "dup2")
    ∷ (64, "getppid")
    ∷ (65, "getpgrp")
    ∷ (66, "setsid")
    ∷ (67, "sigaction")
    ∷ (68, "sgetmask")
    ∷ (69, "ssetmask")
    ∷ (70, "setreuid")
    ∷ (71, "setregid")
    ∷ (72, "sigsuspend")
    ∷ (73, "sigpending")
    ∷ (74, "sethostname")
    ∷ (75, "setrlimit")
    ∷ (76, "getrlimit")
    ∷ (77, "getrusage")
    ∷ (78, "gettimeofday")
    ∷ (79, "settimeofday")
    ∷ (80, "getgroups")
    ∷ (81, "setgroups")
    ∷ (82, "select")
    ∷ (83, "symlink")
    ∷ (84, "oldlstat")
    ∷ (85, "readlink")
    ∷ (86, "uselib")
    ∷ (87, "swapon")
    ∷ (88, "reboot")
    ∷ (89, "readdir")
    ∷ (90, "mmap")
    ∷ (91, "munmap")
    ∷ (92, "truncate")
    ∷ (93, "ftruncate")
    ∷ (94, "fchmod")
    ∷ (95, "fchown")
    ∷ (96, "getpriority")
    ∷ (97, "setpriority")
    ∷ (98, "profil")
    ∷ (99, "statfs")
    ∷ (100, "fstatfs")
    ∷ (101, "ioperm")
    ∷ (102, "socketcall")
    ∷ (103, "syslog")
    ∷ (104, "setitimer")
    ∷ (105, "getitimer")
    ∷ (106, "stat")
    ∷ (107, "lstat")
    ∷ (108, "fstat")
    ∷ (109, "olduname")
    ∷ (110, "iopl")
    ∷ (111, "vhangup")
    ∷ (112, "idle")
    ∷ (113, "vm86old")
    ∷ (114, "wait4")
    ∷ (115, "swapoff")
    ∷ (116, "sysinfo")
    ∷ (117, "ipc")
    ∷ (118, "fsync")
    ∷ (119, "sigreturn")
    ∷ (120, "clone")
    ∷ (121, "setdomainname")
    ∷ (122, "uname")
    ∷ (123, "modify_ldt")
    ∷ (124, "adjtimex")
    ∷ (125, "mprotect")
    ∷ (126, "sigprocmask")
    ∷ (127, "create_module")
    ∷ (128, "init_module")
    ∷ (129, "delete_module")
    ∷ (130, "get_kernel_syms")
    ∷ (131, "quotactl")
    ∷ (132, "getpgid")
    ∷ (133, "fchdir")
    ∷ (134, "bdflush")
    ∷ (135, "sysfs")
    ∷ (136, "personality")
    ∷ (137, "afs_syscall")
    ∷ (138, "setfsuid")
    ∷ (139, "setfsgid")
    ∷ (140, "_llseek")
    ∷ (141, "getdents")
    ∷ (142, "_newselect")
    ∷ (143, "flock")
    ∷ (144, "msync")
    ∷ []
