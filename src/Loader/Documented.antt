-- ===== src/Loader/Documented.antt =====
-- What prctl(2) and seccomp(2) document of the filters of a thread, as `LoadFilter`
-- (seccomp_linux.go) uses them.
use go_seccomp_bpf.Base.{ℕ, ◌%◌, ◌<◌, ◌≡◌, ◌≢◌, some, List, ◌∷◌, take}
use go_seccomp_bpf.Constants.{pr_set_no_new_privs, seccomp_set_mode_filter}
use go_seccomp_bpf.Loader.{SockFilter, SockFprog, System}

-- The instructions that the kernel reads of a program: as many as its length says.
abbrev pub instructions_of : SockFprog → List SockFilter
instructions_of p = take p.len p.filter

-- The filters of the calling thread, the last one installed first. No call but an accepted one
-- changes them. Flags below 8 are those that return no file descriptor; of these only TSYNC, which is 1,
-- can fail without an error number: then the value is the id of a thread, and there is no new filter.
pub record IsDocumented (S : System) (filters : S.Kernel → List (List SockFilter)) : Type 0 where
  pub no_new_privs :
      (arg0 arg1 arg2 arg3 : ℕ) (k : S.Kernel)
      → filters (S.prctl pr_set_no_new_privs arg0 arg1 arg2 arg3 k).1 ≡ filters k
  pub accepted :
      (flag : ℕ) (p : SockFprog) (k : S.Kernel)
      → flag < 8
      → (S.seccomp seccomp_set_mode_filter flag (some p) k).0.errno ≡ 0
      → (S.seccomp seccomp_set_mode_filter flag (some p) k).0.value ≡ 0
      → filters (S.seccomp seccomp_set_mode_filter flag (some p) k).1
        ≡ instructions_of p ∷ filters k
  pub out_of_sync :
      (flag : ℕ) (p : SockFprog) (k : S.Kernel)
      → flag < 8
      → (S.seccomp seccomp_set_mode_filter flag (some p) k).0.errno ≡ 0
      → (S.seccomp seccomp_set_mode_filter flag (some p) k).0.value ≢ 0
      → (flag % 2 ≡ 1) × (filters (S.seccomp seccomp_set_mode_filter flag (some p) k).1 ≡ filters k)
  pub refused :
      (flag : ℕ) (p : SockFprog) (k : S.Kernel)
      → (S.seccomp seccomp_set_mode_filter flag (some p) k).0.errno ≢ 0
      → filters (S.seccomp seccomp_set_mode_filter flag (some p) k).1 ≡ filters k
