-- ===== src/Loader.antt =====
-- seccomp_linux.go and seccomp_unsupported.go: installing a filter. The kernel's system calls and
-- `bpf.Assemble` of golang.org/x/net are parameters; an error number of 0 is success.
pub mod Documented
pub mod Installed
pub mod Filters
pub mod Bounds
use Prim.Native.Char.{Char}
use go_seccomp_bpf.Base.{
  ℕ, zero, ◌%◌, ◌^◌, String, Bool, true, false, Option, none, some, List, [], ◌∷◌, map, length, ltb,
  ◌==◌, if◌then◌else◌, get_elem?, Error, Result, ok, err,
}
use go_seccomp_bpf.Constants.{pr_set_no_new_privs, seccomp_set_mode_strict, seccomp_set_mode_filter}
use go_seccomp_bpf.Bpf.{ByteOrder, Instruction}
use go_seccomp_bpf.Policy.{Policy, assemble_policy}

-- `Filter`
pub record FilterSpec : Type 0 where
  pub no_new_privs : Bool
  pub flag : ℕ
  pub policy : Policy

-- bpf.RawInstruction and syscall.SockFilter.
pub record RawInstruction : Type 0 where
  pub op : ℕ
  pub jt : ℕ
  pub jf : ℕ
  pub k : ℕ

pub record SockFilter : Type 0 where
  pub code : ℕ
  pub jt : ℕ
  pub jf : ℕ
  pub k : ℕ

-- syscall.SockFprog, with the array that its pointer points to.
pub record SockFprog : Type 0 where
  pub len : ℕ
  pub filter : List SockFilter

-- What a system call returns, the results r1 and err of `syscall.Syscall`.
pub record Reply : Type 0 where
  pub value : ℕ
  pub errno : ℕ

-- The system calls SYS_PRCTL and SYS_SECCOMP: what they return, and what they do to the kernel.
pub record System : Type 1 where
  pub Kernel : Type 0
  pub prctl : (option arg0 arg1 arg2 arg3 : ℕ) → Kernel → Reply × Kernel
  pub seccomp : (op flags : ℕ) → Option SockFprog → Kernel → Reply × Kernel

abbrev pub e2big : ℕ
e2big = 7

abbrev pub einval : ℕ
einval = 22

abbrev pub enosys_number : ℕ
enosys_number = 38

-- The errors that `LoadFilter` wraps; `no_code` is the panic of `&sockFilter[0]`.
pub data LoadError : Type 0 where
  assembly_failed : Error → LoadError
  encoding_failed no_code : LoadError
  no_new_privs_failed not_supported load_failed : (errno : ℕ) → LoadError

-- `arg[i]`, of an array that `copy` has filled from the front.
abbrev pub arg_at : List ℕ → ℕ → ℕ
arg_at args i = elim (get_elem? args i) [ none ↦ 0 | some a ↦ a ]

-- `sockFilter`
unfoldable pub sock_filter : List RawInstruction → List SockFilter
sock_filter = map (λ i. record { code = i.op; jt = i.jt; jf = i.jf; k = i.k })

abbrev pub sock_fprog : List SockFilter → SockFprog
sock_fprog filter = record { len = length filter % 2 ^ 16; filter = filter }

-- What `LoadFilter` returns for the error number of its last call; `none` is success.
abbrev pub install_result : (errno : ℕ) → Option LoadError
install_result e =
    if e == 0
    then none
    else (if e == enosys_number then some (not_supported e) else some (load_failed e))

module _ (S : System) where
  -- The wrappers `prctl` and `seccomp`, which return the error number and drop the value.
  unfoldable pub prctl_call : (option : ℕ) → (args : List ℕ) → S.Kernel → ℕ × S.Kernel
  prctl_call option args k =
      if ltb 4 (length args)
      then (e2big, k)
      else (let (r, k') =
            S.prctl option (arg_at args 0) (arg_at args 1) (arg_at args 2) (arg_at args 3) k in
          (r.errno, k'))

  unfoldable pub seccomp_call : (op flags : ℕ) → Option SockFprog → S.Kernel → ℕ × S.Kernel
  seccomp_call op flags uargs k = let (r, k') = S.seccomp op flags uargs k in (r.errno, k')

  -- `Supported`
  unfoldable pub is_supported : S.Kernel → Bool × S.Kernel
  unfolding seccomp_call
  is_supported k = let (e, k') = seccomp_call seccomp_set_mode_strict 1 none k in (e == einval, k')

  -- `SetNoNewPrivs`
  unfoldable pub set_no_new_privs : S.Kernel → ℕ × S.Kernel
  unfolding prctl_call
  set_no_new_privs k = prctl_call pr_set_no_new_privs (1 ∷ []) k

  -- The last call of `LoadFilter`.
  abbrev pub install : (flag : ℕ) → SockFprog → S.Kernel → Option LoadError × S.Kernel
  install flag prog k =
      let (e, k') = seccomp_call seccomp_set_mode_filter flag (some prog) k in
      (install_result e, k')

  -- `LoadFilter` behind the encoding of the program.
  unfoldable pub load_encoded :
      (no_new_privs : Bool) → (flag : ℕ) → List SockFilter → S.Kernel → Option LoadError × S.Kernel
  load_encoded no_new_privs flag [] k = (some no_code, k)
  load_encoded false flag (i ∷ is) k = install flag (sock_fprog (i ∷ is)) k
  load_encoded true flag (i ∷ is) k =
      let (e, k') = set_no_new_privs k in
      if e == 0 then install flag (sock_fprog (i ∷ is)) k' else (some (no_new_privs_failed e), k')

  -- `LoadFilter`, with `bpf.Assemble` as `encode`.
  unfoldable pub load_filter :
      (unicode_lower : Char → Char)
      → (goarch : String) → ByteOrder
      → (encode : List Instruction → Option (List RawInstruction)) → FilterSpec
      → S.Kernel
      → Option LoadError × S.Kernel
  unfolding load_encoded sock_filter
  load_filter unicode_lower goarch order encode f k =
      elim (assemble_policy unicode_lower goarch order f.policy) [
        | err e ↦ (some (assembly_failed e), k)
        | ok insts ↦ elim (encode insts) [
          | none ↦ (some encoding_failed, k)
          | some raw ↦ load_encoded f.no_new_privs f.flag (sock_filter raw) k
        ]
      ]

  -- The functions of seccomp_unsupported.go, which leave the system alone.
  unfoldable pub is_supported_elsewhere : S.Kernel → Bool × S.Kernel
  is_supported_elsewhere k = (false, k)

  unfoldable pub set_no_new_privs_elsewhere : S.Kernel → ℕ × S.Kernel
  set_no_new_privs_elsewhere k = (0, k)

  unfoldable pub load_filter_elsewhere : FilterSpec → S.Kernel → Option LoadError × S.Kernel
  load_filter_elsewhere f k = (none, k)
