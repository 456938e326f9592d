-- ===== src/Profiler/Enforced.antt =====
-- From the disassembly of a binary to the filter of its profile (cmd/seccomp-profiler/main.go, filter.go).
use Prim.Native.Char.{Char}
use go_seccomp_bpf.Base.{
  ℕ, ◌≤◌, ◌≡◌, refl, sym, ◌∙◌, ap, inl, inr, String, Bool, true, false, ◌||◌, none, some, List, [],
  ◌∷◌, str_eq, eq_iff, ◌==◌, ==_iff, if◌then◌else◌, bit_or, length, All, Bool-cases, Option-cases,
  ok, arith,
}
use go_seccomp_bpf.Constants.{action_errno, action_allow, errno_eperm}
use go_seccomp_bpf.Text.Sorting.{count, occurs}
use go_seccomp_bpf.Layout.Operations.{All-map}
use go_seccomp_bpf.Bpf.{SeccompData, ByteOrder, Kernel, Instruction}
use go_seccomp_bpf.Arch.{Info, number_of, get_info}
use go_seccomp_bpf.Arch.Invert.{IsInvertible}
use go_seccomp_bpf.Arch.Apart.{are_apart, invert-apart}
use go_seccomp_bpf.Assembler.{ret_value}
use go_seccomp_bpf.Group.{masked, get_syscall}
use go_seccomp_bpf.Policy.{validate, is_named_action, assemble_policy}
use go_seccomp_bpf.Correctness.Translation.{
  some_name_matches, some_condition_matches, group_matches,
}
use go_seccomp_bpf.Correctness.Meaning.{first_group}
use go_seccomp_bpf.Correctness.Verdict.{verdict}
use go_seccomp_bpf.Correctness.Unconditional.{assemble_policy-names_only}
use go_seccomp_bpf.Correctness.Distinct.{IsNew, HaveOtherNumbers, AreApart}
use go_seccomp_bpf.Correctness.Single.{single_translates}
use go_seccomp_bpf.Disasm.{Parser, Syscall, Warning, scanned, returned, parse}
use go_seccomp_bpf.Disasm.Sound.{IsFound, parse-IsFound}
use go_seccomp_bpf.Profiler.{Ranges, member, is_known, profile_names, profile_policy}
use go_seccomp_bpf.Profiler.Sets.{bit}
use go_seccomp_bpf.Profiler.Names.{IsFair}
use go_seccomp_bpf.Profiler.Unique.{HasNoDuplicates-profile_names}
use go_seccomp_bpf.Profiler.Known.{profile_names_known}

IsNew-of_known : (arch : Info) (n : String) → is_known arch n ≡ true → IsNew arch [] n
unfolding is_known get_syscall
IsNew-of_known arch n h = elim (Option-cases (number_of n arch.syscall_names)) [
  | inl e ↦ let never : false ≡ true = rw (e, is_known) at h in cc
  | inr (num, e) ↦ record { num = num; known = e; free = no_entry (masked arch num) }
]
  where
    no_entry : (num : ℕ) → get_syscall [] num ≡ none
    no_entry num = refl

All-IsNew-of_known :
    (arch : Info) (ns : List String)
    → ((n : String) → member n ns ≡ true → is_known arch n ≡ true)
    → All (IsNew arch []) ns
unfolding member
All-IsNew-of_known arch [] h = tt
All-IsNew-of_known arch (n ∷ ns) h = (
  IsNew-of_known arch n (h n (rw ((eq_iff n n).1 refl, ◌||◌) refl)),
  All-IsNew-of_known arch ns (λ m e. h m (rw e (or_true (str_eq m n)))),
)
  where
    or_true : (b : Bool) → (b || true) ≡ true
    or_true b = ground arith

module _ (arch : Info) (v : IsInvertible arch)
    (apart : are_apart arch arch.syscall_numbers ≡ true) where
  other_numbers : (n m : String) → str_eq n m ≡ false → HaveOtherNumbers arch n m
  other_numbers n m f a b h g = elim (Bool-cases (masked arch a == masked arch b)) [
    | inl y ↦
        let same =
          invert-apart arch arch.syscall_numbers n m a b apart
            (sym (ap (number_of n) v.inverted) ∙ h) (sym (ap (number_of m) v.inverted) ∙ g)
            ((==_iff (masked arch a) (masked arch b)).0 y) in
        let never : false ≡ true = sym f ∙ (eq_iff n m).1 same in cc
    | inr differ ↦ differ
  ]

  All-other_numbers :
      (n : String) (ns : List String) → count n ns ≡ 0 → All (HaveOtherNumbers arch n) ns
  All-other_numbers n [] h = tt
  All-other_numbers n (m ∷ ns) h = elim (Bool-cases (str_eq n m)) [
    | inl y ↦ absurd (omega (arith, rw y at h))
    | inr f ↦ (
      other_numbers n m f,
      All-other_numbers n ns (let later = rw f at h in omega (arith, later)),
    )
  ]

  AreApart-once : (ns : List String) → ((n : String) → count n ns ≤ 1) → AreApart arch ns
  AreApart-once [] once = tt
  AreApart-once (n ∷ ns) once =
      let itself : occurs n n ≡ 1 = rw ((eq_iff n n).1 refl) refl in
      (
        All-other_numbers n ns (omega (arith, once n, itself)),
        AreApart-once ns (λ m. omega (arith, once m)),
      )

ok_injective : {A : Type 0} {x y : A} → ok x ≡ ok y → x ≡ y
ok_injective h = cc

bit_small : (b : Bool) → bit b ≤ 1
bit_small b = ground arith

-- What the filter of a profile does with a system call of the architecture.
abbrev pub profile_value : Info → SeccompData → List String → ℕ
profile_value arch d names =
    if some_name_matches arch d names then action_allow else bit_or action_errno errno_eperm

first_group-profile :
    (arch : Info) (d : SeccompData) (names : List String)
    → ret_value (first_group arch d (profile_policy names).syscalls action_errno)
      ≡ profile_value arch d names
unfolding first_group group_matches some_condition_matches profile_policy ret_value
first_group-profile arch d names = elim (Bool-cases (some_name_matches arch d names)) [
  | inl y ↦ rw y refl
  | inr n ↦ rw n refl
]

profile_policy-valid : (names : List String) → validate (profile_policy names) ≡ ok tt
unfolding validate is_named_action profile_policy
profile_policy-valid names = refl

-- Let the architecture of the dump be that of the host, its table of names be its numbers inverted, no
-- name twice, and no two numbers meet under the mask. Then the policy of a profile with at most 254
-- names has an assembly, and its filter allows the system calls that the profile names and fails all
-- others with EPERM; on another architecture all fail so, and x32 calls with ENOSYS.
pub profile_enforced :
    (lower : Char → Char) (goarch : String) (bytes : ByteOrder) (order : Ranges) (p : Parser)
    (blacklist allow_list lines : List String) (complete : Bool) (ss : List Syscall)
    (ws : List Warning) (vm : Kernel bytes) (a : ℕ)
    → IsFair order
    → IsInvertible p.info
    → are_apart p.info p.info.syscall_numbers ≡ true
    → get_info lower goarch "" ≡ ok p.info
    → parse p (scanned lines complete) ≡ returned ss ws
    → length (profile_names order p.info blacklist allow_list ss) ≤ 254
    → (prog : List Instruction) × (assemble_policy lower goarch bytes
          (profile_policy (profile_names order p.info blacklist allow_list ss))
        ≡ ok prog)
      × ((d : SeccompData)
          → vm.exec prog a d
            ≡ verdict p.info d action_errno (
                some (profile_value p.info d (profile_names order p.info blacklist allow_list ss))))
unfolding profile_policy
profile_enforced lower goarch bytes order p blacklist allow_list lines complete ss ws vm a fair v
      apart host parsed few =
    let names = profile_names order p.info blacklist allow_list ss in
    let named =
      All-map ss (λ s (f : IsFound p lines s). f.named)
        (parse-IsFound p lines complete ss ws parsed) in
    let single =
      HasNoDuplicates-profile_names order p.info blacklist allow_list ss fair v.distinct named in
    let known = All-IsNew-of_known p.info names (λ n.
      profile_names_known order p blacklist allow_list lines complete ss ws n fair v parsed) in
    let others =
      AreApart-once p.info v apart names
        (λ n. omega (arith, single n, bit_small (member n names))) in
    let (ts, translated, size) =
      single_translates bytes p.info names action_allow action_errno known others in
    let run = λ (d : SeccompData).
      assemble_policy-names_only lower goarch bytes (profile_policy names) p.info ts vm a d
        (profile_policy-valid names) host (refl, tt) translated (omega (arith, size, few)) in
    let none_yet : SeccompData = record { nr = 0; arch = 0; args = λ i. 0 } in
    let (prog, done, e0) = run none_yet in
    (
      prog,
      done,
      λ d.
          let (prog', done', e) = run d in
          let same : prog ≡ prog' = ok_injective (sym done ∙ done') in
          ap (λ code. vm.exec code a d) same
          ∙ e
          ∙ ap (λ value. verdict p.info d action_errno (some value))
              (first_group-profile p.info d names),
    )
