-- ===== src/Sandbox.antt =====
-- cmd/sandbox/main.go: a command that runs under a policy. The configuration file, the kernel and the
-- execution of the command are parameters. The program is built on Linux and elsewhere, with the
-- `LoadFilter` of that system.
pub mod Guarded
use Prim.Native.Char.{Char}
use go_seccomp_bpf.Base.{
  String, Bool, true, false, Option, none, some, List, [], ◌∷◌, is_empty, if◌then◌else◌,
}
use go_seccomp_bpf.Constants.{filter_flag_tsync}
use go_seccomp_bpf.Bpf.{ByteOrder, Instruction}
use go_seccomp_bpf.Policy.{Policy}
use go_seccomp_bpf.Loader.{
  FilterSpec, RawInstruction, System, LoadError, load_filter, load_filter_elsewhere,
}

-- How `main` ends.
pub data Exit : Type 0 where
  no_command no_policy : Exit
  not_loaded : LoadError → Exit
  command_failed command_done : Exit

-- The build constraint of seccomp_linux.go, or that of seccomp_unsupported.go.
pub data Platform : Type 0 where
  linux elsewhere : Platform

-- The filter that `main` creates.
abbrev pub filter_of : (no_new_privs : Bool) → Policy → FilterSpec
filter_of no_new_privs policy = record {
  no_new_privs = no_new_privs;
  flag = filter_flag_tsync;
  policy = policy;
}

module _ (S : System) (unicode_lower : Char → Char) (goarch : String) (order : ByteOrder)
    (encode : List Instruction → Option (List RawInstruction)) where
  -- `LoadFilter` of the system that the program is built for.
  unfoldable pub platform_load_filter :
      Platform → FilterSpec → S.Kernel → Option LoadError × S.Kernel
  platform_load_filter linux f k = load_filter S unicode_lower goarch order encode f k
  platform_load_filter elsewhere f k = load_filter_elsewhere S f k

module _ (S : System) (run_command : List String → S.Kernel → Bool × S.Kernel) where
  -- The end of `main`, from what `LoadFilter` returns.
  unfoldable pub execute_command :
      (args : List String) → Option LoadError × S.Kernel → Exit × S.Kernel
  execute_command args (some e, k) = (not_loaded e, k)
  execute_command args (none, k) =
      let (good, k') = run_command args k in (if good then command_done else command_failed, k')

  module _ (unicode_lower : Char → Char) (goarch : String) (order : ByteOrder)
      (encode : List Instruction → Option (List RawInstruction)) where
    -- `main` behind `parsePolicy`.
    unfoldable pub load_and_execute :
        Platform
        → (args : List String) → (no_new_privs : Bool) → Option Policy
        → S.Kernel
        → Exit × S.Kernel
    unfolding execute_command platform_load_filter
    load_and_execute platform args no_new_privs none k = (no_policy, k)
    load_and_execute platform args no_new_privs (some policy) k = execute_command args (
        platform_load_filter S unicode_lower goarch order encode platform
          (filter_of no_new_privs policy) k)

    -- `main`. `parsed` is what `parsePolicy` returns, `none` its error.
    unfoldable pub sandbox :
        Platform
        → (args : List String) → (no_new_privs : Bool) → (parsed : Option Policy) → S.Kernel
        → Exit × S.Kernel
    unfolding load_and_execute
    sandbox platform args no_new_privs parsed k =
        if is_empty args
        then (no_command, k)
        else load_and_execute platform args no_new_privs parsed k
