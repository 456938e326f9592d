-- ===== src/Correctness/Translation.antt =====
-- `toSyscallsWithConditions` (filter.go) keeps the meaning of a group: what its entries match is what
-- its names and its names with conditions match.
use go_seccomp_bpf.Base.{
  ℕ, ◌≡◌, refl, sym, ◌∙◌, ap, inl, inr, String, Bool, true, false, ◌&&◌, ◌||◌, none, some, List, [],
  ◌∷◌, ◌++◌, ◌==◌, is_empty, Bool-cases, Option-cases, Problem, duplicate_syscall, ok, arith,
  ==_iff,
}
use go_seccomp_bpf.Bpf.{SeccompData}
use go_seccomp_bpf.Arch.{Info, number_of}
use go_seccomp_bpf.Filter.{ArgumentConditions, SyscallWithConditions}
use go_seccomp_bpf.Group.{
  NameWithConditions, SyscallGroup, validate_conditions, get_syscall, append_conditions, masked,
  Found, unconditional, add_number, add_name, add_names, add_conditional, validated,
  add_name_with_conditions, add_names_with_conditions, without_problems,
  to_syscalls_with_conditions,
}
use go_seccomp_bpf.Specification.{set_holds, some_set_holds, entry_matches, some_entry_matches}

-- The name is that of the system call.
unfoldable pub is_named : Info → SeccompData → String → Bool
is_named arch d name = elim (number_of name arch.syscall_names) [
  | none ↦ false
  | some num ↦ d.nr == masked arch num
]

unfoldable pub some_name_matches : Info → SeccompData → List String → Bool
some_name_matches arch d [] = false
some_name_matches arch d (n ∷ ns) = is_named arch d n || some_name_matches arch d ns

-- The name is that of the system call, and all conditions hold.
unfoldable pub some_condition_matches : Info → SeccompData → List NameWithConditions → Bool
some_condition_matches arch d [] = false
some_condition_matches arch d (nc ∷ ncs) =
    is_named arch d nc.name && set_holds d nc.conditions || some_condition_matches arch d ncs

-- What a group of the configuration matches.
unfoldable pub group_matches : Info → SeccompData → SyscallGroup → Bool
group_matches arch d g =
    some_name_matches arch d g.names || some_condition_matches arch d g.names_with_conditions

one_more : (a b c e : Bool) → (a && (b || c) || e) ≡ ((a && b || e) || a && c)
one_more a b c e = ground arith

or_assoc : (a b c : Bool) → ((a || b) || c) ≡ (a || (b || c))
or_assoc a b c = ground arith

or_false : (a : Bool) → (a || false) ≡ a
or_false a = ground arith

pub is_empty-append_cons {ℓ} :
    {A : Type ℓ} (xs : List A) (y : A) (ys : List A) → is_empty (xs ++ y ∷ ys) ≡ false
is_empty-append_cons [] y ys = refl
is_empty-append_cons (x ∷ xs) y ys = refl

pub is_empty-append {ℓ} : {A : Type ℓ} (xs : List A) (y : A) → is_empty (xs ++ y ∷ []) ≡ false
is_empty-append [] y = refl
is_empty-append (x ∷ xs) y = refl

module _ (d : SeccompData) where
  some_entry_matches-append :
      (ss : List SyscallWithConditions) (s : SyscallWithConditions)
      → some_entry_matches d (ss ++ s ∷ []) ≡ (some_entry_matches d ss || entry_matches d s)
  unfolding some_entry_matches
  some_entry_matches-append [] s = ground arith
  some_entry_matches-append (s' ∷ ss) s = ground (arith, some_entry_matches-append ss s)

  some_set_holds-append :
      (ss : List ArgumentConditions) (s : ArgumentConditions)
      → some_set_holds d (ss ++ s ∷ []) ≡ (some_set_holds d ss || set_holds d s)
  unfolding some_set_holds
  some_set_holds-append [] s = ground arith
  some_set_holds-append (s' ∷ ss) s = ground (arith, some_set_holds-append ss s)

  -- A set that is added to the first entry for a number is one more way to match it.
  some_entry_matches-append_conditions :
      (ss : List SyscallWithConditions) (num : ℕ) (cs : ArgumentConditions)
      (s : SyscallWithConditions)
      → get_syscall ss num ≡ some s
      → is_empty s.conditions ≡ false
      → some_entry_matches d (append_conditions ss num cs)
        ≡ (some_entry_matches d ss || (d.nr == num && set_holds d cs))
  unfolding some_entry_matches entry_matches get_syscall append_conditions
  some_entry_matches-append_conditions [] num cs s h e = cc
  some_entry_matches-append_conditions (s' ∷ ss) num cs s h e = elim (Bool-cases (s'.num == num)) [
    | inl y ↦
        let same : s'.num ≡ num = (==_iff _ _).0 y in
        let it : some s' ≡ some s = rw y at h in
        let own : s' ≡ s = cc in
        let full : is_empty s'.conditions ≡ false = rw own e in
        rw (y, is_empty-append s'.conditions cs, full, some_set_holds-append s'.conditions cs, same)
          (one_more (d.nr == num) (some_set_holds d s'.conditions) (set_holds d cs)
            (some_entry_matches d ss))
    | inr n ↦ rw n (ground (arith, some_entry_matches-append_conditions ss num cs s (rw n at h) e))
  ]

  -- What a step of a loop does, if the problems are still none behind it: there were none before, and
  -- the entries match what they did or what is added.
  abbrev Adds : Bool → Found → Found → Type 0
  Adds b found found' =
      is_empty found'.1 ≡ true
      → (is_empty found.1 ≡ true)
        × (some_entry_matches d found'.0 ≡ (some_entry_matches d found.0 || b))

  Adds-problem :
      (b : Bool) (ss ss' : List SyscallWithConditions) (es : List Problem) (e : Problem)
      → Adds b (ss, es) (ss', es ++ e ∷ [])
  Adds-problem b ss ss' es e h = let both : true ≡ false = sym h ∙ is_empty-append es e in cc

  Adds-add_number :
      (name : String) (num : ℕ) (found : Found)
      → Adds (d.nr == num) found (add_number name num found)
  unfolding add_number entry_matches
  Adds-add_number name num (ss, es) = elim (Option-cases (get_syscall ss num)) [
    | inl none_there ↦
        rw (none_there, add_number)
          λ h. (
            h,
            some_entry_matches-append ss (unconditional num)
                ∙ ap (λ b. some_entry_matches d ss || b) unconditional_matches,
          )
    | inr (s, there) ↦
        rw (there, add_number) (Adds-problem (d.nr == num) ss ss es (duplicate_syscall name))
  ]
    where
      unconditional_matches : entry_matches d (unconditional num) ≡ (d.nr == num)
      unconditional_matches = ground arith

  -- A name that the architecture does not know is a problem; any other adds its number.
  Adds-add_name :
      (arch : Info) (name : String) (found : Found)
      → Adds (is_named arch d name) found (add_name arch name found)
  unfolding add_name is_named
  Adds-add_name arch name (ss, es) = elim (Option-cases (number_of name arch.syscall_names)) [
    | inl unknown ↦ rw (unknown, add_name) (Adds-problem _ ss ss es _)
    | inr (num, known) ↦
        rw (known, add_name, is_named) (Adds-add_number name (masked arch num) (ss, es))
  ]

  Adds-trans : (b c : Bool) (x y z : Found) → Adds b x y → Adds c y z → Adds (b || c) x z
  Adds-trans b c x y z f g h =
      let (none_y, e) = g h in
      let (none_x, e') = f none_y in (none_x, rw (e, e') (or_assoc (some_entry_matches d x.0) b c))

  Adds-add_names :
      (arch : Info) (names : List String) (found : Found)
      → Adds (some_name_matches arch d names) found (add_names arch names found)
  unfolding add_names some_name_matches
  Adds-add_names arch [] found = λ h. (h, sym (or_false _))
  Adds-add_names arch (name ∷ names) found =
      Adds-trans (is_named arch d name) (some_name_matches arch d names) found
        (add_name arch name found) _ (Adds-add_name arch name found)
        (Adds-add_names arch names (add_name arch name found))

  Adds-add_conditional :
      (nc : NameWithConditions) (num : ℕ) (found : Found)
      → Adds (d.nr == num && set_holds d nc.conditions) found (add_conditional nc num found)
  unfolding add_conditional entry_matches some_set_holds
  Adds-add_conditional nc num (ss, es) = elim (Option-cases (get_syscall ss num)) [
    | inl none_there ↦
        rw (none_there, add_conditional)
          λ h. (
            h,
            some_entry_matches-append ss (record { num = num; conditions = nc.conditions ∷ [] })
                ∙ ap (λ b. some_entry_matches d ss || d.nr == num && b)
                    (or_false (set_holds d nc.conditions)),
          )
    | inr (s, there) ↦ elim (Bool-cases (is_empty s.conditions)) [
      | inl y ↦ rw (there, add_conditional) (rw y (Adds-problem _ ss ss es _))
      | inr n ↦
          rw (there, add_conditional)
            (rw n λ h. (h, some_entry_matches-append_conditions ss num nc.conditions s there n))
    ]
  ]

  Adds-validated :
      (nc : NameWithConditions) (num : ℕ) (invalid : List Problem) (found : Found)
      → Adds (d.nr == num && set_holds d nc.conditions) found (validated nc num invalid found)
  Adds-validated nc num [] (ss, es) = Adds-add_conditional nc num (ss, es)
  Adds-validated nc num (e ∷ invalid) (ss, es) =
      λ h. let both : true ≡ false = sym h ∙ is_empty-append_cons es e invalid in cc

  Adds-add_name_with_conditions :
      (arch : Info) (nc : NameWithConditions) (found : Found)
      → Adds
          (is_named arch d nc.name && set_holds d nc.conditions)
          found
          (add_name_with_conditions arch nc found)
  unfolding add_name_with_conditions is_named
  Adds-add_name_with_conditions arch nc (ss, es) =
      elim (Option-cases (number_of nc.name arch.syscall_names)) [
        | inl unknown ↦ rw (unknown, add_name_with_conditions) (Adds-problem _ ss ss es _)
        | inr (num, known) ↦
            rw (known, add_name_with_conditions, is_named)
              (Adds-validated nc (masked arch num) (validate_conditions nc.conditions) (ss, es))
      ]

  Adds-add_names_with_conditions :
      (arch : Info) (ncs : List NameWithConditions) (found : Found)
      → Adds (some_condition_matches arch d ncs) found (add_names_with_conditions arch ncs found)
  unfolding add_names_with_conditions some_condition_matches
  Adds-add_names_with_conditions arch [] found = λ h. (h, sym (or_false _))
  Adds-add_names_with_conditions arch (nc ∷ ncs) found =
      Adds-trans (is_named arch d nc.name && set_holds d nc.conditions)
        (some_condition_matches arch d ncs) found (add_name_with_conditions arch nc found) _
        (Adds-add_name_with_conditions arch nc found)
        (Adds-add_names_with_conditions arch ncs (add_name_with_conditions arch nc found))

pub without_problems_ok :
    (found : Found) (ss : List SyscallWithConditions)
    → without_problems found ≡ ok ss
    → (is_empty found.1 ≡ true) × (found.0 ≡ ss)
without_problems_ok (ss', []) ss h = (refl, cc)
without_problems_ok (ss', e ∷ es) ss h = cc

-- If a group is translated, its entries match exactly the system calls that the group names without
-- conditions, or names with a list of conditions that all hold.
pub to_syscalls_with_conditions-matches :
    (arch : Info) (g : SyscallGroup) (ss : List SyscallWithConditions) (d : SeccompData)
    → to_syscalls_with_conditions arch g ≡ ok ss
    → some_entry_matches d ss ≡ group_matches arch d g
unfolding to_syscalls_with_conditions group_matches some_entry_matches
to_syscalls_with_conditions-matches arch g ss d h =
    let first = add_names arch g.names ([], []) in
    let (none_left, same) = without_problems_ok _ ss h in
    rw (← same)
      (Adds-trans d (some_name_matches arch d g.names)
        (some_condition_matches arch d g.names_with_conditions) ([], []) first _
        (Adds-add_names d arch g.names ([], []))
        (Adds-add_names_with_conditions d arch g.names_with_conditions first) none_left).1
