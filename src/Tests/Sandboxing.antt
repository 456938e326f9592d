-- ===== src/Tests/Sandboxing.antt =====
-- The sandbox on a concrete kernel, and a filter that is not installed.
use go_seccomp_bpf.Base.{
  String, Bool, false, ◌≡◌, refl, Option, none, some, List, [], ◌∷◌, true, arith,
}
use go_seccomp_bpf.Bpf.{little_endian}
use go_seccomp_bpf.Loader.{LoadError, set_no_new_privs, prctl_call, load_filter}
use go_seccomp_bpf.Policy.{Policy}
use go_seccomp_bpf.Loader.Filters.{load_filter-out_of_sync, load_filter_success}
use go_seccomp_bpf.Sandbox.{linux, execute_command, platform_load_filter, load_and_execute, sandbox}
use go_seccomp_bpf.Sandbox.Guarded.{HasRun, IsReady, sandbox-IsGuarded}
use go_seccomp_bpf.Tests.{same_char, named}
use go_seccomp_bpf.Tests.Kernels.{State, fresh, note, noting, filters_of, noting-IsDocumented}
use go_seccomp_bpf.Tests.Loading.{some_each, named_filter, loaded}

-- A command is noted too, and ends well.
abbrev run_noted : List String → State → Bool × State
run_noted args k = (true, note 99 k)

ran :
    (r : Option LoadError × State)
    → r.0 ≡ none
    → HasRun (execute_command (noting true) run_noted ("ls" ∷ []) r).0
unfolding execute_command
ran (none, k) h = tt
ran (some e, k) h = cc

sandboxed :
    HasRun
      (sandbox
        (noting true)
        run_noted
        same_char
        "amd64"
        little_endian
        some_each
        linux
        ("ls" ∷ [])
        true
        (some named)
        fresh).0
unfolding sandbox load_and_execute platform_load_filter
sandboxed = ran _ (loaded true).0

sandbox-IsGuarded_example :
    (false ≡ false)
    × (policy : Policy) × (some named ≡ some policy)
    × (before : State) × IsReady
        (noting true)
        run_noted
        same_char
        "amd64"
        little_endian
        some_each
        ("ls" ∷ [])
        true
        filters_of
        (noting-IsDocumented true)
        linux
        policy
        fresh
        before
    × ((sandbox
          (noting true)
          run_noted
          same_char
          "amd64"
          little_endian
          some_each
          linux
          ("ls" ∷ [])
          true
          (some named)
          fresh).1
        ≡ (run_noted ("ls" ∷ []) before).1)
sandbox-IsGuarded_example =
    sandbox-IsGuarded (noting true) run_noted same_char "amd64" little_endian some_each ("ls" ∷ [])
      true filters_of (noting-IsDocumented true) linux (some named) fresh sandboxed

-- The threads are not in step: success, and no filter.
load_filter-out_of_sync_example :
    ((load_filter (noting false) same_char "amd64" little_endian some_each named_filter fresh).0
      ≡ none)
    × (filters_of
          (load_filter
            (noting false)
            same_char
            "amd64"
            little_endian
            some_each
            named_filter
            fresh).1
        ≡ [])
unfolding set_no_new_privs prctl_call
load_filter-out_of_sync_example =
    let w =
      load_filter_success (noting false) same_char "amd64" little_endian some_each named_filter
        fresh filters_of (noting-IsDocumented false) (omega arith) (loaded false).0 in
    load_filter-out_of_sync (noting false) same_char "amd64" little_endian some_each named_filter
      fresh filters_of (noting-IsDocumented false) w.0 w.1 (omega arith) w.2 w.3 w.4.nonempty
      (λ asked. refl) refl (λ e. absurd (omega (arith, e)))
