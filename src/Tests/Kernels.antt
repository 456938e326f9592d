-- ===== src/Tests/Kernels.antt =====
-- Concrete kernels for tests of the loader, and that they are as documented.
use go_seccomp_bpf.Base.{
  ℕ, ◌%◌, ◌-◌, ◌^◌, refl, Bool, false, true, not, ◌&&◌, ◌==◌, if◌then◌else◌, Option, none, some,
  List, [], ◌∷◌, arith,
}
use go_seccomp_bpf.Loader.{SockFilter, SockFprog, Reply, System}
use go_seccomp_bpf.Loader.Documented.{IsDocumented, instructions_of}

-- The calls, the last one first, and the filters.
pub record State : Type 0 where
  pub calls : List ℕ
  pub filters : List (List SockFilter)

abbrev pub fresh : State
fresh = record { calls = []; filters = [] }

abbrev pub success : Reply
success = record { value = 0; errno = 0 }

abbrev pub note : ℕ → State → State
note n k = record k { calls = n ∷ k.calls }

-- A call of seccomp; it fails for a flag with TSYNC, unless the threads are in step.
abbrev pub answer_seccomp : Bool → (op flags : ℕ) → Option SockFprog → State → Reply × State
answer_seccomp in_step op flags none k = (success, note op k)
answer_seccomp in_step op flags (some p) k =
    if not in_step && flags % 2 == 1
    then (record { value = 4242; errno = 0 }, note op k)
    else (success, record { calls = op ∷ k.calls; filters = instructions_of p ∷ k.filters })

-- A kernel that notes the calls.
abbrev pub noting : (in_step : Bool) → System
noting in_step = record {
  Kernel = State;
  prctl = λ option a b c d k. (success, note option k);
  seccomp = answer_seccomp in_step;
}

abbrev pub filters_of : State → List (List SockFilter)
filters_of k = k.filters

pub noting-IsDocumented : (in_step : Bool) → IsDocumented (noting in_step) filters_of
noting-IsDocumented true = record {
  no_new_privs = λ a b c d k. refl;
  accepted = λ flag p k small e v. refl;
  out_of_sync = λ flag p k small e v. absurd (v refl);
  refused = λ flag p k e. absurd (e refl);
}
noting-IsDocumented false = record {
  no_new_privs = λ a b c d k. refl;
  accepted = λ flag p k small e v. ground arith;
  out_of_sync = λ flag p k small e v. (ground arith, ground arith);
  refused = λ flag p k e. ground arith;
}

-- A kernel that refuses to set no_new_privs.
abbrev pub refusing : System
refusing = record (noting true) {
  prctl = λ option a b c d k. (record { value = 2 ^ 64 - 1; errno = 1 }, note option k);
}

pub refusing-IsDocumented : IsDocumented refusing filters_of
refusing-IsDocumented = record {
  no_new_privs = λ a b c d k. refl;
  accepted = λ flag p k small e v. refl;
  out_of_sync = λ flag p k small e v. absurd (v refl);
  refused = λ flag p k e. absurd (e refl);
}
