-- ===== src/Profiler/Names.antt =====
-- The map from numbers to system calls of `main` (cmd/seccomp-profiler/main.go).
use go_seccomp_bpf.Base.{
  ◌≡◌, refl, sym, ◌∙◌, ap, inl, inr, String, Bool, true, ◌||◌, List, [], ◌∷◌, map, some, str_eq,
  ==_iff, All, Bool-cases, arith, ℤ, pos, negsuc,
}
use go_seccomp_bpf.Arch.{Info}
use go_seccomp_bpf.Text.Sorting.{count}
use go_seccomp_bpf.Disasm.{Syscall, name_of_num}
use go_seccomp_bpf.Profiler.{member, same_num, put_syscall, put_all, Ranges}

-- Ranging over a map yields every entry once.
pub record IsFair (order : Ranges) : Type 0 where
  pub names_same : (n : String) (ns : List String) → count n (order.names ns) ≡ count n ns
  pub syscalls_same :
      (n : String) (ss : List Syscall)
      → count n (map (λ s. s.name) (order.syscalls ss)) ≡ count n (map (λ s. s.name) ss)

-- The system call has the name that the table gives its number.
abbrev pub IsNamed : Info → Syscall → Type 0
IsNamed arch s = name_of_num s.num arch.syscall_numbers ≡ some s.name

abbrev pub names_of : List Syscall → List String
names_of ss = map (λ s. s.name) ss

same_num_iff : (a b : ℤ) → same_num a b ≡ true → a ≡ b
unfolding same_num
same_num_iff (pos n) (pos m) h = ap pos ((==_iff n m).0 h)
same_num_iff (negsuc n) (negsuc m) h = ap negsuc ((==_iff n m).0 h)
same_num_iff (pos n) (negsuc m) h = cc
same_num_iff (negsuc n) (pos m) h = cc

pub same_name :
    (arch : Info) (s t : Syscall)
    → IsNamed arch s
    → IsNamed arch t
    → same_num t.num s.num ≡ true
    → t.name ≡ s.name
same_name arch s t v w h =
    let it : some t.name ≡ some s.name =
      sym w ∙ ap (λ n. name_of_num n arch.syscall_numbers) (same_num_iff t.num s.num h) ∙ v in
    cc

again : (a b c : Bool) → (a || (b || c)) ≡ (b || (a || c))
again a b c = ground arith

replaced : (a b c : Bool) → a ≡ b → (a || c) ≡ (a || (b || c))
replaced a b c h = ground arith

member-put_syscall :
    (arch : Info) (n : String) (s : Syscall) (m : List Syscall)
    → IsNamed arch s
    → All (IsNamed arch) m
    → member n (names_of (put_syscall s m)) ≡ (str_eq n s.name || member n (names_of m))
unfolding put_syscall member
member-put_syscall arch n s [] v w = refl
member-put_syscall arch n s (t ∷ m) v w = elim (Bool-cases (same_num t.num s.num)) [
  | inl y ↦ rw y (
      replaced (str_eq n s.name) (str_eq n t.name) (member n (names_of m))
        (ap (str_eq n) (sym (same_name arch s t v w.0 y))))
  | inr f ↦ rw f (
      ap (◌||◌ (str_eq n t.name)) (member-put_syscall arch n s m v w.1)
      ∙ again (str_eq n t.name) (str_eq n s.name) (member n (names_of m)))
]

pub All-put_syscall :
    (arch : Info) (s : Syscall) (m : List Syscall)
    → IsNamed arch s
    → All (IsNamed arch) m
    → All (IsNamed arch) (put_syscall s m)
unfolding put_syscall
All-put_syscall arch s [] v w = (v, tt)
All-put_syscall arch s (t ∷ m) v w = elim (Bool-cases (same_num t.num s.num)) [
  | inl y ↦ rw y (v, w.1)
  | inr f ↦ rw f (w.0, All-put_syscall arch s m v w.1)
]

pub member-put_all :
    (arch : Info) (n : String) (ss m : List Syscall)
    → All (IsNamed arch) ss
    → All (IsNamed arch) m
    → member n (names_of (put_all ss m)) ≡ (member n (names_of ss) || member n (names_of m))
unfolding put_all member
member-put_all arch n [] m v w = refl
member-put_all arch n (s ∷ ss) m v w =
    member-put_all arch n ss (put_syscall s m) v.1 (All-put_syscall arch s m v.0 w)
    ∙ ap (◌||◌ (member n (names_of ss))) (member-put_syscall arch n s m v.0 w)
    ∙ regroup (str_eq n s.name) (member n (names_of ss)) (member n (names_of m))
  where
    regroup : (a b c : Bool) → (b || (a || c)) ≡ ((a || b) || c)
    regroup a b c = ground arith
