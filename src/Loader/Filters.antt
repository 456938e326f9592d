-- ===== src/Loader/Filters.antt =====
-- Which filters the kernel has after `LoadFilter` (seccomp_linux.go), if it is as documented.
use Prim.Native.Char.{Char}
use native.Mathlib.Decide.{ℕ_discrete}
use go_seccomp_bpf.Base.{
  ℕ, ◌%◌, ◌<◌, ◌≤◌, ◌≡◌, ◌≢◌, refl, ◌∙◌, ap, ◌⊎◌, inl, inr, String, Bool, true, false, Option, none,
  some, List, ◌∷◌, length, ok, [], arith,
}
use go_seccomp_bpf.Bpf.{ByteOrder, Instruction}
use go_seccomp_bpf.Policy.{assemble_policy}
use go_seccomp_bpf.Loader.{
  FilterSpec, RawInstruction, SockFilter, System, sock_filter, sock_fprog, prctl_call, seccomp_call,
  set_no_new_privs, load_encoded, load_filter,
}
use go_seccomp_bpf.Loader.Documented.{IsDocumented, instructions_of}
use go_seccomp_bpf.Loader.Installed.{
  prepared, answer, IsAnswered, load_filter-IsLoaded, load_filter-IsAnswered,
}

-- The kernel has returned 0 and has the program as a new filter, or the flag has TSYNC, the kernel has
-- returned the id of a thread that could not be synchronised, and it has the filters of before.
abbrev pub HasFilterOrIsOutOfSync :
    (S : System)
    → (filters : S.Kernel → List (List SockFilter)) → (no_new_privs : Bool) → (flag : ℕ)
    → List SockFilter
    → (k k' : S.Kernel) → Type 0
HasFilterOrIsOutOfSync S filters b flag code k k' =
    (((answer S b flag code k).0.value ≡ 0)
      × (filters k' ≡ instructions_of (sock_fprog code) ∷ filters k))
    ⊎ (((answer S b flag code k).0.value ≢ 0) × (flag % 2 ≡ 1) × (filters k' ≡ filters k))

-- What `LoadFilter` returns where the kernel answers with no error number.
load_encoded_answered :
    (S : System) (b : Bool) (flag : ℕ) (code : List SockFilter) (k : S.Kernel)
    → 1 ≤ length code
    → (b ≡ true → (set_no_new_privs S k).0 ≡ 0)
    → (answer S b flag code k).0.errno ≡ 0
    → load_encoded S b flag code k ≡ (none, (answer S b flag code k).1)
unfolding load_encoded seccomp_call
load_encoded_answered S b flag [] k size asked no_error = absurd (omega arith)
load_encoded_answered S false flag (i ∷ is) k size asked no_error = rw (no_error, load_encoded) refl
load_encoded_answered S true flag (i ∷ is) k size asked no_error =
    let e : (set_no_new_privs S k).0 ≡ 0 = asked refl in rw e (rw (no_error, load_encoded) refl)

module _ (S : System) (lower : Char → Char) (goarch : String) (order : ByteOrder)
    (encode : List Instruction → Option (List RawInstruction)) (f : FilterSpec) (k : S.Kernel)
    (filters : S.Kernel → List (List SockFilter)) (doc : IsDocumented S filters) where
  filters-prepared : (b : Bool) → filters (prepared S b k) ≡ filters k
  unfolding set_no_new_privs prctl_call
  filters-prepared false = refl
  filters-prepared true = doc.no_new_privs 1 0 0 0 k

  answered_filters :
      (code : List SockFilter) (k' : S.Kernel)
      → f.flag < 8
      → IsAnswered S f.no_new_privs f.flag code k k'
      → HasFilterOrIsOutOfSync S filters f.no_new_privs f.flag code k k'
  answered_filters code k' small w =
      let p = sock_fprog code in
      let q = prepared S f.no_new_privs k in
      elim (ℕ_discrete (answer S f.no_new_privs f.flag code k).0.value 0) [
        | yes z ↦ inl (
          z,
          ap filters w.after
              ∙ doc.accepted f.flag p q small w.no_error z
              ∙ ap (◌∷◌ (instructions_of p)) (filters-prepared f.no_new_privs),
        )
        | no n ↦
            let (tsync, same) = doc.out_of_sync f.flag p q small w.no_error n in
            inr (n, tsync, ap filters w.after ∙ same ∙ filters-prepared f.no_new_privs)
      ]

  -- Let the kernel be as documented, and the flags below 8. If `LoadFilter` succeeds, the policy has
  -- an assembly with an encoding that is not empty, no_new_privs was set first if the filter demands
  -- it, and then the kernel was given this encoding with the filter's flag and has returned no error
  -- number. If the value that it returned is 0, the filters are those of before with the program in
  -- front; else the flag has TSYNC, and the filters are those of before.
  pub load_filter_success :
      f.flag < 8
      → (load_filter S lower goarch order encode f k).0 ≡ none
      → (insts : List Instruction) × (raw : List RawInstruction) × (assemble_policy lower goarch
            order f.policy
          ≡ ok insts)
        × (encode insts ≡ some raw)
        × IsAnswered S f.no_new_privs f.flag
            (sock_filter raw)
            k
            (load_filter S lower goarch order encode f k).1
        × HasFilterOrIsOutOfSync S filters f.no_new_privs f.flag
            (sock_filter raw)
            k
            (load_filter S lower goarch order encode f k).1
  load_filter_success small h =
      let (insts, raw, done, encoded, w) =
        load_filter-IsAnswered S lower goarch order encode f k h in
      (insts, raw, done, encoded, w, answered_filters (sock_filter raw) _ small w)

  -- If the kernel is as documented and `LoadFilter` fails, with whatever error, the filters are those of
  -- before.
  pub load_filter_failed :
      (load_filter S lower goarch order encode f k).0 ≢ none
      → filters (load_filter S lower goarch order encode f k).1 ≡ filters k
  load_filter_failed h = elim (load_filter-IsLoaded S lower goarch order encode f k) [
    | inl (same, failed) ↦ ap filters same
    | inr (insts, raw, done, encoded, w) ↦ elim (w.failed h) [
      | inl same ↦ ap filters same
      | inr (inl (asked, same)) ↦ ap filters same ∙ filters-prepared f.no_new_privs
      | inr (inr (refused, same)) ↦
          ap filters same
          ∙ doc.refused f.flag (sock_fprog (sock_filter raw)) (prepared S f.no_new_privs k) refused
          ∙ filters-prepared f.no_new_privs
    ]
  ]

  -- If the kernel is as documented, and it answers the encoded program of `LoadFilter` with a value that
  -- is not 0 and no error number, since it could not synchronise the threads, then `LoadFilter` succeeds
  -- all the same, and the filters are those of before. The policy has to have an assembly with an encoding
  -- that is not empty, no_new_privs must not have failed, and the flags are below 8.
  pub load_filter-out_of_sync :
      (insts : List Instruction) (raw : List RawInstruction)
      → f.flag < 8
      → assemble_policy lower goarch order f.policy ≡ ok insts
      → encode insts ≡ some raw
      → 1 ≤ length (sock_filter raw)
      → (f.no_new_privs ≡ true → (set_no_new_privs S k).0 ≡ 0)
      → (answer S f.no_new_privs f.flag (sock_filter raw) k).0.errno ≡ 0
      → (answer S f.no_new_privs f.flag (sock_filter raw) k).0.value ≢ 0
      → ((load_filter S lower goarch order encode f k).0 ≡ none)
        × (filters (load_filter S lower goarch order encode f k).1 ≡ filters k)
  unfolding load_filter
  load_filter-out_of_sync insts raw small done encoded size asked no_error value =
      let code = sock_filter raw in
      let q = prepared S f.no_new_privs k in
      let it = load_encoded_answered S f.no_new_privs f.flag code k size asked no_error in
      rw (done, load_filter)
        (rw (encoded, load_filter)
          (
            ap (λ r. r.0) it,
            ap (λ r. filters r.1) it
                ∙ (doc.out_of_sync f.flag (sock_fprog code) q small no_error value).1
                ∙ filters-prepared f.no_new_privs,
          ))
