-- ===== src/Profiler/Known.antt =====
-- From the disassembly to the profile: every name is one that the library accepts.
use go_seccomp_bpf.Base.{
  ◌≡◌, sym, ◌∙◌, ap, inl, inr, String, Bool, true, not, ◌&&◌, ◌||◌, List, [], ◌∷◌, some, str_eq,
  eq_iff, All, Bool-cases, ℤ, pos, negsuc, arith,
}
use go_seccomp_bpf.Layout.Operations.{All-map}
use go_seccomp_bpf.Arch.{Info}
use go_seccomp_bpf.Arch.Invert.{IsInvertible, number_of-invert}
use go_seccomp_bpf.Disasm.{Parser, Syscall, Warning, name_of_num, scanned, returned, parse}
use go_seccomp_bpf.Disasm.Sound.{IsFound, parse-IsFound}
use go_seccomp_bpf.Profiler.{Ranges, member, is_known, profile_names}
use go_seccomp_bpf.Profiler.Names.{IsFair, IsNamed, names_of}
use go_seccomp_bpf.Profiler.Profile.{member-profile_names}

known_of_named :
    (arch : Info) (s : Syscall) → IsInvertible arch → IsNamed arch s → is_known arch s.name ≡ true
unfolding is_known
known_of_named arch s v w = by_num s.num w
  where
    by_num :
        (n : ℤ) → name_of_num n arch.syscall_numbers ≡ some s.name → is_known arch s.name ≡ true
    by_num (negsuc n) h = cc
    by_num (pos n) h =
        rw (v.inverted, is_known)
          (rw (number_of-invert arch.syscall_numbers n s.name v.distinct h, is_known))

known_of_member :
    (arch : Info) (n : String) (ss : List Syscall)
    → IsInvertible arch
    → All (IsNamed arch) ss
    → member n (names_of ss) ≡ true
    → is_known arch n ≡ true
unfolding member
known_of_member arch n [] v w h = cc
known_of_member arch n (s ∷ ss) v w h = elim (Bool-cases (str_eq n s.name)) [
  | inl y ↦ ap (is_known arch) ((eq_iff n s.name).0 y) ∙ known_of_named arch s v w.0
  | inr f ↦ known_of_member arch n ss v w.1 (rw f at h)
]

chosen_known : (a b c k : Bool) → (a ≡ true → k ≡ true) → (a && b || c && k) ≡ true → k ≡ true
chosen_known a b c k h g = ground (arith, h)

-- Let the table of names be the table of numbers inverted, with no name twice. Then the names of the
-- profile of a binary are names of its architecture.
pub profile_names_known :
    (order : Ranges) (p : Parser) (blacklist allow_list lines : List String) (complete : Bool)
    (ss : List Syscall) (ws : List Warning) (n : String)
    → IsFair order
    → IsInvertible p.info
    → parse p (scanned lines complete) ≡ returned ss ws
    → member n (profile_names order p.info blacklist allow_list ss) ≡ true
    → is_known p.info n ≡ true
profile_names_known order p blacklist allow_list lines complete ss ws n fair v parsed h =
    let named =
      All-map ss (λ s (f : IsFound p lines s). f.named)
        (parse-IsFound p lines complete ss ws parsed) in
    let (sorted, members) = member-profile_names order p.info blacklist allow_list ss fair named in
    chosen_known (member n (names_of ss)) (not (member n blacklist)) (member n allow_list)
      (is_known p.info n) (known_of_member p.info n ss v named) (sym (members n) ∙ h)
