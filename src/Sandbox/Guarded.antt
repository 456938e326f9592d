-- ===== src/Sandbox/Guarded.antt =====
-- The kernel in which the sandbox (cmd/sandbox/main.go) runs its command.
use Prim.Native.Char.{Char}
use go_seccomp_bpf.Base.{
  ◌≡◌, refl, String, Bool, true, false, Option, none, some, List, is_empty, if◌then◌else◌, ok,
  arith,
}
use go_seccomp_bpf.Constants.{filter_flag_tsync}
use go_seccomp_bpf.Bpf.{ByteOrder, Instruction}
use go_seccomp_bpf.Policy.{Policy, assemble_policy}
use go_seccomp_bpf.Loader.{
  RawInstruction, SockFilter, System, LoadError, sock_filter, load_filter_elsewhere,
}
use go_seccomp_bpf.Loader.Documented.{IsDocumented}
use go_seccomp_bpf.Loader.Installed.{IsAnswered}
use go_seccomp_bpf.Loader.Filters.{HasFilterOrIsOutOfSync, load_filter_success}
use go_seccomp_bpf.Sandbox.{
  Exit, no_command, command_failed, command_done, Platform, linux, elsewhere, filter_of,
  execute_command, platform_load_filter, load_and_execute, sandbox,
}

-- The command has run, with or without success.
abbrev pub HasRun : Exit → Type 0
HasRun command_failed = Unit
HasRun command_done = Unit
HasRun e = ⊥

module _ (S : System) (run_command : List String → S.Kernel → Bool × S.Kernel) (lower : Char → Char)
    (goarch : String) (order : ByteOrder) (encode : List Instruction → Option (List RawInstruction))
    (args : List String) (no_new_privs : Bool) (filters : S.Kernel → List (List SockFilter))
    (doc : IsDocumented S filters) where
  -- The kernel was given the encoded policy with the flag TSYNC and has returned no error number; it has
  -- the filter, or could not synchronise the threads and has the filters of before.
  pub record IsFiltered (policy : Policy) (k filtered : S.Kernel) : Type 0 where
    pub insts : List Instruction
    pub raw : List RawInstruction
    pub assembled : assemble_policy lower goarch order policy ≡ ok insts
    pub encoded : encode insts ≡ some raw
    pub answered : IsAnswered S no_new_privs filter_flag_tsync (sock_filter raw) k filtered
    pub outcome :
        HasFilterOrIsOutOfSync S filters no_new_privs filter_flag_tsync (sock_filter raw) k filtered

  -- The kernel when the command starts; elsewhere than on Linux it is as it was.
  abbrev pub IsReady : Platform → Policy → (k before : S.Kernel) → Type 0
  IsReady linux policy k before = IsFiltered policy k before
  IsReady elsewhere policy k before = before ≡ k

  of_result :
      (r : Option LoadError × S.Kernel)
      → HasRun (execute_command S run_command args r).0
      → (r.0 ≡ none) × ((execute_command S run_command args r).1 ≡ (run_command args r.1).1)
  unfolding execute_command
  of_result (some e, k) h = absurd h
  of_result (none, k) h = (refl, refl)

  of_platform :
      (platform : Platform) (policy : Policy) (k : S.Kernel)
      → (platform_load_filter S lower goarch order encode platform
          (filter_of no_new_privs policy)
          k).0
        ≡ none
      → IsReady platform policy k
          (platform_load_filter S lower goarch order encode platform
            (filter_of no_new_privs policy)
            k).1
  unfolding platform_load_filter load_filter_elsewhere
  of_platform elsewhere policy k h = refl
  of_platform linux policy k h =
      let (insts, raw, done, encoded, answered, outcome) =
        load_filter_success S lower goarch order encode (filter_of no_new_privs policy) k filters
          doc (omega arith) h in
      record {
        insts = insts;
        raw = raw;
        assembled = done;
        encoded = encoded;
        answered = answered;
        outcome = outcome;
      }

  of_policy :
      (platform : Platform) (parsed : Option Policy) (k : S.Kernel)
      → HasRun
          (load_and_execute S run_command lower goarch order encode platform args no_new_privs
            parsed k).0
      → (policy : Policy) × (parsed ≡ some policy)
        × (before : S.Kernel) × IsReady platform policy k before
        × ((load_and_execute S run_command lower goarch order encode platform args no_new_privs
              parsed k).1
            ≡ (run_command args before).1)
  unfolding load_and_execute
  of_policy platform none k h = absurd h
  of_policy platform (some policy) k h =
      let r =
        platform_load_filter S lower goarch order encode platform (filter_of no_new_privs policy)
          k in
      let (loaded, ran) = of_result r h in
      (policy, refl, r.1, of_platform platform policy k loaded, ran)

  -- Let the kernel be as documented. If the command has run, it was given and the configuration was read.
  -- On Linux it ran in the kernel as it was when it had been given the encoded assembly of the policy with
  -- the flag TSYNC, with no_new_privs set first if that is asked for, and had returned no error number:
  -- with the filters of before and the program in front, if the kernel returned the value 0, and else,
  -- where the threads could not be synchronised, with the filters of before. Elsewhere it ran in the kernel
  -- as it was.
  pub sandbox-IsGuarded :
      (platform : Platform) (parsed : Option Policy) (k : S.Kernel)
      → HasRun
          (sandbox S run_command lower goarch order encode platform args no_new_privs parsed k).0
      → (is_empty args ≡ false)
        × (policy : Policy) × (parsed ≡ some policy)
        × (before : S.Kernel) × IsReady platform policy k before
        × ((sandbox S run_command lower goarch order encode platform args no_new_privs parsed k).1
            ≡ (run_command args before).1)
  unfolding sandbox
  sandbox-IsGuarded platform parsed k h = by_args (is_empty args) refl h
    where
      by_args :
          (b : Bool)
          → is_empty args ≡ b
          → HasRun
              (if b
                then (no_command, k)
                else load_and_execute S run_command lower goarch order encode platform args
                    no_new_privs parsed k).0
          → (is_empty args ≡ false)
            × (policy : Policy) × (parsed ≡ some policy)
            × (before : S.Kernel) × IsReady platform policy k before
            × ((if b
                  then (no_command, k)
                  else load_and_execute S run_command lower goarch order encode platform args
                      no_new_privs parsed k).1
                ≡ (run_command args before).1)
      by_args true e g = absurd g
      by_args false e g =
          let (policy, read, before, ready, ran) = of_policy platform parsed k g in
          (e, policy, read, before, ready, ran)
