-- ===== src/Loader/Installed.antt =====
-- What `LoadFilter` (seccomp_linux.go) asks of the kernel, and in which order.
use Prim.Native.Char.{Char}
use go_seccomp_bpf.Base.{
  ℕ, ◌≤◌, ◌≡◌, ◌≢◌, refl, sym, ◌∙◌, ap, subst, ◌⊎◌, inl, inr, String, Bool, true, false, Option,
  none, some, List, [], ◌∷◌, length, ◌==◌, ==_iff, Bool-cases, Option-cases, Error, Result, ok, err,
  arith,
}
use go_seccomp_bpf.Bpf.{ByteOrder, Instruction}
use go_seccomp_bpf.Policy.{assemble_policy}
use go_seccomp_bpf.Constants.{seccomp_set_mode_filter}
use go_seccomp_bpf.Loader.{
  FilterSpec, RawInstruction, SockFilter, Reply, System, LoadError, not_supported, load_failed,
  sock_filter, sock_fprog, seccomp_call, set_no_new_privs, install_result, load_encoded,
  load_filter, enosys_number,
}

-- An error that comes before the filter is given to the kernel.
abbrev pub IsEarly : Option LoadError → Type 0
IsEarly none = ⊥
IsEarly (some (not_supported e)) = ⊥
IsEarly (some (load_failed e)) = ⊥
IsEarly (some e) = Unit

Result-cases : {A : Type 0} (r : Result A) → ((e : Error) × (r ≡ err e)) ⊎ ((a : A) × (r ≡ ok a))
Result-cases (ok a) = inr (a, refl)
Result-cases (err e) = inl (e, refl)

install_result-ne-early : (e : ℕ) → IsEarly (install_result e) → ⊥
install_result-ne-early e h = elim (Bool-cases (e == 0)) [
  | inl y ↦ rw (y, install_result) at h
  | inr n ↦ elim (Bool-cases (e == enosys_number)) [
    | inl y ↦ rw (y, install_result) at (rw (n, install_result) at h)
    | inr m ↦ rw (m, install_result) at (rw (n, install_result) at h)
  ]
]

install_result-none : (e : ℕ) → install_result e ≡ none → e ≡ 0
install_result-none e h = ground arith

install_result_zero : (e : ℕ) → e ≡ 0 → install_result e ≡ none
install_result_zero e h = rw h refl

module _ (S : System) where
  -- What the kernel is before the filter is installed.
  abbrev pub prepared : (no_new_privs : Bool) → S.Kernel → S.Kernel
  prepared true k = (set_no_new_privs S k).1
  prepared false k = k

  -- The program given to the kernel so prepared, and what it answers.
  abbrev pub answer :
      (no_new_privs : Bool) → (flag : ℕ) → List SockFilter → S.Kernel → Reply × S.Kernel
  answer b flag code k =
      S.seccomp seccomp_set_mode_filter flag (some (sock_fprog code)) (prepared b k)

  -- The program was given to the kernel so prepared, without an error.
  pub record IsAnswered (b : Bool) (flag : ℕ) (code : List SockFilter) (k k' : S.Kernel)
      : Type 0 where
    pub nonempty : 1 ≤ length code
    pub asked : b ≡ true → (set_no_new_privs S k).0 ≡ 0
    pub no_error : (answer b flag code k).0.errno ≡ 0
    pub after : k' ≡ (answer b flag code k).1

  -- Either an error came first and no filter was given to the kernel, or there is code, the bit
  -- no_new_privs is set, if that is asked for, and the kernel has answered.
  pub record IsLoaded (b : Bool) (flag : ℕ) (code : List SockFilter) (k : S.Kernel)
      (r : Option LoadError × S.Kernel) : Type 0 where
    pub early : IsEarly r.0 → (r.1 ≡ k) ⊎ ((b ≡ true) × (r.1 ≡ prepared b k))
    pub failed :
        r.0 ≢ none
        → (r.1 ≡ k)
          ⊎ ((b ≡ true) × (r.1 ≡ prepared b k))
          ⊎ (((answer b flag code k).0.errno ≢ 0) × (r.1 ≡ (answer b flag code k).1))
    pub installed : r.0 ≡ none → IsAnswered b flag code k r.1

  load_encoded-IsLoaded :
      (b : Bool) (flag : ℕ) (code : List SockFilter) (k : S.Kernel)
      → IsLoaded b flag code k (load_encoded S b flag code k)
  unfolding load_encoded seccomp_call
  load_encoded-IsLoaded b flag [] k = record {
    early = λ h. inl refl;
    failed = λ h. inl refl;
    installed = λ h. cc;
  }
  load_encoded-IsLoaded false flag (i ∷ is) k =
      let e = (answer false flag (i ∷ is) k).0.errno in
      record {
        early = λ h. absurd (install_result-ne-early e h);
        failed = λ h. inr (inr ((λ z. h (install_result_zero e z)), refl));
        installed = λ h. record {
          nonempty = omega arith;
          asked = λ no. cc;
          no_error = install_result-none e h;
          after = refl;
        };
      }
  load_encoded-IsLoaded true flag (i ∷ is) k =
      let e = (answer true flag (i ∷ is) k).0.errno in
      elim (Bool-cases ((set_no_new_privs S k).0 == 0)) [
        | inl z ↦ rw z (record {
          early = λ h. absurd (install_result-ne-early e h);
          failed = λ h. inr (inr ((λ z'. h (install_result_zero e z')), refl));
          installed = λ h. record {
            nonempty = omega arith;
            asked = λ asked. (==_iff (set_no_new_privs S k).0 0).0 z;
            no_error = install_result-none e h;
            after = refl;
          };
        })
        | inr n ↦ rw n (record {
          early = λ h. inr (refl, refl);
          failed = λ h. inr (inl (refl, refl));
          installed = λ h. cc;
        })
      ]

  module _ (lower : Char → Char) (goarch : String) (order : ByteOrder)
      (encode : List Instruction → Option (List RawInstruction)) (f : FilterSpec)
      (k : S.Kernel) where
    abbrev result : Option LoadError × S.Kernel
    result = load_filter S lower goarch order encode f k

    -- An error in front of the kernel's calls, or a result of these calls.
    load_filter_cases :
        (IsEarly result.0 × (result.1 ≡ k) × (result.0 ≢ none))
        ⊎ ((insts : List Instruction) × (raw : List RawInstruction) × (assemble_policy lower goarch
                order f.policy
              ≡ ok insts)
            × (encode insts ≡ some raw)
            × (result ≡ load_encoded S f.no_new_privs f.flag (sock_filter raw) k))
    unfolding load_filter
    load_filter_cases = elim (Result-cases (assemble_policy lower goarch order f.policy)) [
      | inl (e, h) ↦ inl (rw (h, load_filter) (tt, refl, λ no. cc))
      | inr (insts, h) ↦ elim (Option-cases (encode insts)) [
        | inl g ↦ inl (rw (h, load_filter) (rw (g, load_filter) (tt, refl, λ no. cc)))
        | inr (raw, g) ↦ inr (insts, raw, h, g, rw (h, load_filter) (rw (g, load_filter) refl))
      ]
    ]

    -- An error in front of the kernel's calls, or what is known of a result of these calls.
    pub load_filter-IsLoaded :
        ((load_filter S lower goarch order encode f k).1 ≡ k)
          × ((load_filter S lower goarch order encode f k).0 ≢ none)
        ⊎ ((insts : List Instruction) × (raw : List RawInstruction) × (assemble_policy lower goarch
                order f.policy
              ≡ ok insts)
            × (encode insts ≡ some raw)
            × IsLoaded f.no_new_privs f.flag
                (sock_filter raw)
                k
                (load_filter S lower goarch order encode f k))
    load_filter-IsLoaded = elim load_filter_cases [
      | inl (early, same, failed) ↦ inl (same, failed)
      | inr (insts, raw, done, encoded, it) ↦ inr (
        insts,
        raw,
        done,
        encoded,
        subst (IsLoaded f.no_new_privs f.flag (sock_filter raw) k) (sym it)
            (load_encoded-IsLoaded f.no_new_privs f.flag (sock_filter raw) k),
      )
    ]

    -- If `LoadFilter` fails before it gives the kernel a filter, the kernel is as it was, or only the
    -- bit no_new_privs has been asked for, as the filter demands.
    pub load_filter_early :
        IsEarly (load_filter S lower goarch order encode f k).0
        → ((load_filter S lower goarch order encode f k).1 ≡ k)
          ⊎ ((f.no_new_privs ≡ true)
              × ((load_filter S lower goarch order encode f k).1 ≡ (set_no_new_privs S k).1))
    load_filter_early h = elim load_filter-IsLoaded [
      | inl (same, failed) ↦ inl same
      | inr (insts, raw, done, encoded, w) ↦ elim (w.early h) [
        | inl same ↦ inl same
        | inr (asked, same) ↦ inr (asked, same ∙ ap (λ (b : Bool). prepared b k) asked)
      ]
    ]

    -- If `LoadFilter` succeeds, the policy has an assembly with an encoding that is not empty, the bit
    -- no_new_privs was set first if the filter demands it, and then the kernel was given this encoding
    -- with the filter's flag and has returned no error number.
    pub load_filter-IsAnswered :
        (load_filter S lower goarch order encode f k).0 ≡ none
        → (insts : List Instruction) × (raw : List RawInstruction) × (assemble_policy lower goarch
              order f.policy
            ≡ ok insts)
          × (encode insts ≡ some raw)
          × IsAnswered f.no_new_privs f.flag
              (sock_filter raw)
              k
              (load_filter S lower goarch order encode f k).1
    load_filter-IsAnswered h = elim load_filter-IsLoaded [
      | inl (same, failed) ↦ absurd (failed h)
      | inr (insts, raw, done, encoded, w) ↦ (insts, raw, done, encoded, w.installed h)
    ]
