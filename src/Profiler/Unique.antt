-- ===== src/Profiler/Unique.antt =====
-- No name stands in a profile twice (cmd/seccomp-profiler/main.go).
use go_seccomp_bpf.Base.{
  ◌≡◌, refl, sym, ◌∙◌, ap, inl, inr, String, Bool, true, false, ◌||◌, ◌&&◌, ◌⊎◌, List, [], ◌∷◌,
  some, str_eq, eq_iff, ltb, if◌then◌else◌, is_empty, ==_iff, All, Bool-cases, arith, ℤ, pos,
  negsuc,
}
use go_seccomp_bpf.Text.Sorting.{count}
use go_seccomp_bpf.Arch.{Info, number_of, invert}
use go_seccomp_bpf.Arch.Invert.{has_distinct_names, number_of-invert}
use go_seccomp_bpf.Disasm.{Syscall, name_of_num}
use go_seccomp_bpf.Profiler.{
  member, same_num, add_to_set, put_syscall, put_all, Ranges, is_known, profile_names,
}
use go_seccomp_bpf.Profiler.Sets.{
  bit, HasNoDuplicates, HasNoDuplicates-add_to_set, member-eq-count, member_of_count,
}
use go_seccomp_bpf.Profiler.Names.{IsFair, IsNamed, names_of, same_name, All-put_syscall}
use go_seccomp_bpf.Profiler.Profile.{count-profile_names}

same_num_of_name :
    (arch : Info) (s t : Syscall)
    → has_distinct_names arch.syscall_numbers ≡ true
    → IsNamed arch s
    → IsNamed arch t
    → s.name ≡ t.name
    → same_num t.num s.num ≡ true
unfolding same_num
same_num_of_name arch s t d v w e = by_nums s.num t.num v w
  where
    by_nums :
        (a b : ℤ)
        → name_of_num a arch.syscall_numbers ≡ some s.name
        → name_of_num b arch.syscall_numbers ≡ some t.name
        → same_num b a ≡ true
    by_nums (negsuc a) b h g = cc
    by_nums (pos a) (negsuc b) h g = cc
    by_nums (pos a) (pos b) h g =
        let first = number_of-invert arch.syscall_numbers a s.name d h in
        let second = number_of-invert arch.syscall_numbers b t.name d g in
        let it : some b ≡ some a =
          sym second ∙ ap (λ n. number_of n (invert arch.syscall_numbers)) (sym e) ∙ first in
        let same : b ≡ a = cc in (==_iff b a).1 same

module _ (arch : Info) (distinct : has_distinct_names arch.syscall_numbers ≡ true) where
  count-put_syscall :
      (n : String) (s : Syscall) (m : List Syscall)
      → IsNamed arch s
      → All (IsNamed arch) m
      → count n (names_of (put_syscall s m)) ≡ count n (add_to_set s.name (names_of m))
  unfolding put_syscall add_to_set member
  count-put_syscall n s [] v w = refl
  count-put_syscall n s (t ∷ m) v w = elim (Bool-cases (same_num t.num s.num)) [
    | inl y ↦
        let e = same_name arch s t v w.0 y in
        let here : str_eq s.name t.name ≡ true = (eq_iff s.name t.name).1 (sym e) in
        rw y (rw (here, ◌||◌) (ap (λ (k : String). count n (k ∷ names_of m)) (sym e)))
    | inr f ↦ elim (Bool-cases (str_eq s.name t.name)) [
      | inl here ↦
          let never : false ≡ true =
            sym f ∙ same_num_of_name arch s t distinct v w.0 ((eq_iff s.name t.name).0 here) in
          cc
      | inr other ↦ rw f (
          rw (other, ◌||◌)
            (later (Bool-cases (member s.name (names_of m))) (count-put_syscall n s m v w.1)))
    ]
  ]
    where
      later :
          (member s.name (names_of m) ≡ true) ⊎ (member s.name (names_of m) ≡ false)
          → count n (names_of (put_syscall s m)) ≡ count n (add_to_set s.name (names_of m))
          → count n (t.name ∷ names_of (put_syscall s m))
            ≡ count n (
                if member s.name (names_of m)
                then t.name ∷ names_of m
                else s.name ∷ t.name ∷ names_of m)
      later (inl y) h = rw y (omega (arith, rw (y, add_to_set) at h))
      later (inr g) h = rw g (omega (arith, rw (g, add_to_set) at h))

  HasNoDuplicates-put_all :
      (ss m : List Syscall)
      → All (IsNamed arch) ss
      → All (IsNamed arch) m
      → HasNoDuplicates (names_of m)
      → HasNoDuplicates (names_of (put_all ss m))
  unfolding put_all
  HasNoDuplicates-put_all [] m v w h = h
  HasNoDuplicates-put_all (s ∷ ss) m v w h =
      HasNoDuplicates-put_all ss (put_syscall s m) v.1 (All-put_syscall arch s m v.0 w) (λ n.
        count-put_syscall n s m v.0 w
        ∙ HasNoDuplicates-add_to_set s.name (names_of m) h n
        ∙ ap bit (
            sym (
              member_of_count n (names_of (put_syscall s m)) (add_to_set s.name (names_of m))
                (count-put_syscall n s m v.0 w))))

HasNoDuplicates-nil : HasNoDuplicates []
unfolding member
HasNoDuplicates-nil n = refl

HasNoDuplicates-of_bits :
    (ns : List String) → ((n : String) → (b : Bool) × (count n ns ≡ bit b)) → HasNoDuplicates ns
HasNoDuplicates-of_bits ns h n =
    let (b, e) = h n in e ∙ ap bit (sym (member-eq-count n ns ∙ ap (ltb 0) e ∙ positive b))
  where
    positive : (b : Bool) → ltb 0 (bit b) ≡ b
    positive true = refl
    positive false = refl

-- No name stands in the profile twice.
pub HasNoDuplicates-profile_names :
    (order : Ranges) (arch : Info) (blacklist allow_list : List String) (ss : List Syscall)
    → IsFair order
    → has_distinct_names arch.syscall_numbers ≡ true
    → All (IsNamed arch) ss
    → HasNoDuplicates (profile_names order arch blacklist allow_list ss)
HasNoDuplicates-profile_names order arch blacklist allow_list ss fair distinct named =
    HasNoDuplicates-of_bits (profile_names order arch blacklist allow_list ss) (λ n.
      let (b, e) = by_list n allow_list in
      (b, count-profile_names order fair arch blacklist allow_list ss n ∙ e))
  where
    kept :
        (n : String)
        → (b : Bool) × ((if member n blacklist then 0 else count n (names_of (put_all ss [])))
            ≡ bit b)
    kept n = elim (Bool-cases (member n blacklist)) [
      | inl y ↦ (false, rw y refl)
      | inr f ↦ (
        member n (names_of (put_all ss [])),
        rw f (HasNoDuplicates-put_all arch distinct ss [] named tt HasNoDuplicates-nil n),
      )
    ]

    by_list :
        (n : String) (l : List String)
        → (b : Bool) × ((if is_empty l
              then (if member n blacklist then 0 else count n (names_of (put_all ss [])))
              else bit (
                  ltb 0 (if member n blacklist then 0 else count n (names_of (put_all ss [])))
                  || (member n l && is_known arch n)))
            ≡ bit b)
    by_list n [] = kept n
    by_list n (a ∷ l) = (_, refl)
