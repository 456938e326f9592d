-- ===== src/Specification/Outcome.antt =====
-- Where no condition fails before a further comparison, the tests of `Decision` find the first match.
use go_seccomp_bpf.Base.{
  ℕ, ◌≡◌, refl, sym, ◌∙◌, subst, inl, inr, Bool, true, false, some, List, [], ◌∷◌, All, ◌==◌,
  if◌then◌else◌, Bool-cases, arith,
}
use go_seccomp_bpf.Bpf.{SeccompData}
use go_seccomp_bpf.Assembler.{ret_value}
use go_seccomp_bpf.Filter.{ArgumentConditions, SyscallWithConditions}
use go_seccomp_bpf.Decision.{
  check_arguments, check_sets, check_syscall, check_syscalls, check_groups, Translated,
  IsWellFormed, IsProperSet, IsProper,
}
use go_seccomp_bpf.Decision.Groups.{IsProperGroup}
use go_seccomp_bpf.Specification.{
  condition_holds, set_holds, some_set_holds, entry_matches, some_entry_matches, first_match,
  IsSettled, AreSettledBeforeLast, IsUndisturbed,
}
use go_seccomp_bpf.Specification.Words.{check_condition-split}

-- The outcome is that of `t` if `b`, else that of `f`, with some accumulator.
abbrev Lands {ℓ} : {A : Type ℓ} → Bool → (t f : ℕ → A) → A → Type ℓ
Lands true t f r = (a : ℕ) × (r ≡ t a)
Lands false t f r = (a : ℕ) × (r ≡ f a)

module _ {ℓ} {A : Type ℓ} (d : SeccompData) where
  Lands-check_arguments :
      (cs : ArgumentConditions) (t f : ℕ → A) (a : ℕ)
      → All IsWellFormed cs
      → Lands (set_holds d cs) t f (check_arguments d cs t f a)
  unfolding check_arguments set_holds
  Lands-check_arguments [] t f a w = (a, refl)
  Lands-check_arguments (c ∷ cs) t f a w =
      let (b, e) = check_condition-split d c (check_arguments d cs t f) f w.0 in
      elim (Bool-cases (condition_holds d c)) [
        | inl y ↦ rw (y, e) (rw y (Lands-check_arguments cs t f b w.1))
        | inr n ↦ rw n (b, e ∙ rw n)
      ]

  Lands-check_sets :
      (ss : List ArgumentConditions) (t f : ℕ → A) (a : ℕ)
      → All IsProperSet ss
      → Lands (some_set_holds d ss) t f (check_sets d ss t f a)
  unfolding check_sets some_set_holds
  Lands-check_sets [] t f a w = (a, refl)
  Lands-check_sets (s ∷ ss) t f a w =
      let r = check_arguments d s t (check_sets d ss t f) a in
      let first : Lands (set_holds d s) t (check_sets d ss t f) r =
        Lands-check_arguments s t (check_sets d ss t f) a w.0.conditions in
      elim (Bool-cases (set_holds d s)) [
        | inl y ↦ rw y (subst (λ b. Lands b t (check_sets d ss t f) r) y first)
        | inr n ↦
            let (b, e) = subst (λ b. Lands b t (check_sets d ss t f) r) n first in
            rw n (subst (Lands (some_set_holds d ss) t f) (sym e) (Lands-check_sets ss t f b w.1))
      ]

  -- The three ways out of a list of sets, where the outcome of a match is `r`.
  sets-hit :
      (ss : List ArgumentConditions) (r : A) (f : ℕ → A) (a : ℕ)
      → All IsProperSet ss
      → some_set_holds d ss ≡ true
      → check_sets d ss (λ _. r) f a ≡ r
  sets-hit ss r f a w h =
      (subst (λ b. Lands b (λ _. r) f (check_sets d ss (λ _. r) f a)) h
        (Lands-check_sets ss (λ _. r) f a w)).1

  sets-miss :
      (ss : List ArgumentConditions) (r q : A) (a : ℕ)
      → All IsProperSet ss
      → some_set_holds d ss ≡ false
      → check_sets d ss (λ _. r) (λ _. q) a ≡ q
  sets-miss ss r q a w h =
      (subst (λ b. Lands b (λ _. r) (λ _. q) (check_sets d ss (λ _. r) (λ _. q) a)) h
        (Lands-check_sets ss (λ _. r) (λ _. q) a w)).1

  entry-hit :
      (s : SyscallWithConditions) (r : A) (f : ℕ → A)
      → IsProper s
      → entry_matches d s ≡ true
      → check_syscall d s (λ _. r) f d.nr ≡ r
  unfolding check_syscall entry_matches
  entry-hit s r f w h = ground (arith, sets-hit s.conditions r f d.nr w)

  other_number :
      (s : SyscallWithConditions) (t f : ℕ → A) (a : ℕ)
      → (a == s.num) ≡ false
      → check_syscall d s t f a ≡ f a
  unfolding check_syscall
  other_number s t f a n = ground arith

  entry-miss :
      (s : SyscallWithConditions) (r : A) (f : ℕ → A)
      → IsSettled d s
      → entry_matches d s ≡ false
      → check_syscall d s (λ _. r) f d.nr ≡ f d.nr
  entry-miss s r f u h = elim (Bool-cases (d.nr == s.num)) [
    | inl y ↦ let both : true ≡ false = sym (u y) ∙ h in cc
    | inr n ↦ other_number s (λ _. r) f d.nr n
  ]

  entry-miss_last :
      (s : SyscallWithConditions) (r q : A)
      → IsProper s
      → entry_matches d s ≡ false
      → check_syscall d s (λ _. r) (λ _. q) d.nr ≡ q
  unfolding check_syscall entry_matches
  entry-miss_last s r q w h = ground (arith, sets-miss s.conditions r q d.nr w)

  entries-hit :
      (ss : List SyscallWithConditions) (r : A) (f : ℕ → A)
      → All IsProper ss
      → All (IsSettled d) ss
      → some_entry_matches d ss ≡ true
      → check_syscalls d ss (λ _. r) f d.nr ≡ r
  unfolding check_syscalls some_entry_matches
  entries-hit [] r f w u h = cc
  entries-hit (s ∷ ss) r f w u h = elim (Bool-cases (entry_matches d s)) [
    | inl y ↦ entry-hit s r _ w.0 y
    | inr n ↦ entry-miss s r _ u.0 n ∙ entries-hit ss r f w.1 u.1 (rw n at h)
  ]

  entries-miss :
      (ss : List SyscallWithConditions) (r : A) (f : ℕ → A)
      → All (IsSettled d) ss
      → some_entry_matches d ss ≡ false
      → check_syscalls d ss (λ _. r) f d.nr ≡ f d.nr
  unfolding check_syscalls some_entry_matches
  entries-miss [] r f u h = refl
  entries-miss (s ∷ ss) r f u h = elim (Bool-cases (entry_matches d s)) [
    | inl y ↦ let both : true ≡ false = rw y at h in cc
    | inr n ↦ entry-miss s r _ u.0 n ∙ entries-miss ss r f u.1 (rw n at h)
  ]

  entries_last :
      (ss : List SyscallWithConditions) (r q : A)
      → All IsProper ss
      → AreSettledBeforeLast d ss
      → check_syscalls d ss (λ _. r) (λ _. q) d.nr ≡ (if some_entry_matches d ss then r else q)
  unfolding check_syscalls some_entry_matches
  entries_last [] r q w u = refl
  entries_last (s ∷ []) r q w u = elim (Bool-cases (entry_matches d s)) [
    | inl y ↦ rw y (entry-hit s r _ w.0 y)
    | inr n ↦ rw n (entry-miss_last s r q w.0 n)
  ]
  entries_last (s ∷ s' ∷ ss) r q w u = elim (Bool-cases (entry_matches d s)) [
    | inl y ↦ rw y (entry-hit s r _ w.0 y)
    | inr n ↦ rw n (entry-miss s r _ u.0 n ∙ entries_last (s' ∷ ss) r q w.1 u.1)
  ]

-- The tests of the groups of a policy, begun with the number, find the action of the first match.
pub check_groups-eq-first_match :
    (d : SeccompData) (gs : List Translated) (default : ℕ)
    → All IsProperGroup gs
    → IsUndisturbed d gs
    → check_groups d gs default d.nr ≡ some (ret_value (first_match d gs default))
unfolding check_groups first_match
check_groups-eq-first_match d [] default w u = refl
check_groups-eq-first_match d ((ss, action) ∷ []) default w u =
    entries_last d ss (some (ret_value action)) (some (ret_value default)) w.0.1 u
    ∙ if_some (some_entry_matches d ss)
  where
    if_some :
        (b : Bool)
        → (if b then some (ret_value action) else some (ret_value default))
          ≡ some (ret_value (if b then action else default))
    if_some true = refl
    if_some false = refl
check_groups-eq-first_match d ((ss, action) ∷ g ∷ gs) default w u =
    elim (Bool-cases (some_entry_matches d ss)) [
      | inl y ↦ rw y (entries-hit d ss (some (ret_value action)) _ w.0.1 u.0 y)
      | inr n ↦ rw n (
          entries-miss d ss (some (ret_value action)) _ u.0 n
          ∙ check_groups-eq-first_match d (g ∷ gs) default w.1 (u.1 n))
    ]
