-- ===== src/Correctness/Meaning.antt =====
-- What the groups of a policy mean (filter.go), by the names of the configuration.
use go_seccomp_bpf.Base.{
  ℕ, ◌+◌, ◌≡◌, refl, sym, ◌∙◌, ap, subst, inl, inr, String, true, false, ◌||◌, List, [], ◌∷◌,
  length, ◌==◌, ==_ne, if◌then◌else◌, Bool-cases, ok, arith,
}
use go_seccomp_bpf.Bpf.{SeccompData}
use go_seccomp_bpf.Arch.{Info}
use go_seccomp_bpf.Group.{NameWithConditions, SyscallGroup}
use go_seccomp_bpf.Policy.{arch_or}
use go_seccomp_bpf.Decision.{Translated}
use go_seccomp_bpf.Specification.{first_match}
use go_seccomp_bpf.Correctness.Translation.{
  some_name_matches, some_condition_matches, group_matches, to_syscalls_with_conditions-matches,
}
use go_seccomp_bpf.Correctness.Groups.{has_no_names, translate, translate-cons, translate_skip}

-- The action of the first group of the configuration that matches; a group with no names never does.
unfoldable pub first_group : Info → SeccompData → List SyscallGroup → (default : ℕ) → ℕ
first_group arch d [] default = default
first_group arch d (g ∷ gs) default =
    if group_matches (arch_or arch g.arch) d g then g.action else first_group arch d gs default

none_match :
    (arch : Info) (d : SeccompData) (ns : List String) (ncs : List NameWithConditions)
    → (length ns + length ncs == 0) ≡ true
    → (some_name_matches arch d ns || some_condition_matches arch d ncs) ≡ false
unfolding some_name_matches some_condition_matches
none_match arch d [] [] h = refl
none_match arch d [] (nc ∷ ncs) h =
    let both : false ≡ true =
      (sym (==_ne (0 + length (nc ∷ ncs)) 0 (λ e. absurd (omega arith)))) ∙ h in
    cc
none_match arch d (n ∷ ns) ncs h =
    let both : false ≡ true =
      (sym (==_ne (length (n ∷ ns) + length ncs) 0 (λ e. absurd (omega arith)))) ∙ h in
    cc

no_names-matches_none :
    (arch : Info) (d : SeccompData) (g : SyscallGroup)
    → has_no_names g ≡ true
    → group_matches arch d g ≡ false
unfolding group_matches
no_names-matches_none arch d g e = none_match arch d g.names g.names_with_conditions e

-- The first match of the translation is that of the configuration.
pub first_match-eq-first_group :
    (arch : Info) (d : SeccompData) (gs : List SyscallGroup) (ts : List Translated) (default : ℕ)
    → translate arch gs ≡ ok ts
    → first_match d ts default ≡ first_group arch d gs default
unfolding first_match first_group translate
first_match-eq-first_group arch d [] ts default h =
    let same : [] ≡ ts = cc in subst (λ l. first_match d l default ≡ default) same refl
first_match-eq-first_group arch d (g ∷ gs) ts default h = elim (Bool-cases (has_no_names g)) [
  | inl y ↦
      rw (no_names-matches_none (arch_or arch g.arch) d g y)
        (first_match-eq-first_group arch d gs ts default (sym (translate_skip arch g gs y) ∙ h))
  | inr n ↦
      let (ss, rest, first, others, same) = translate-cons arch g gs ts n h in
      subst (λ l. first_match d l default ≡ first_group arch d (g ∷ gs) default) same
        (rw (to_syscalls_with_conditions-matches (arch_or arch g.arch) g ss d first) (
          ap (λ r. if group_matches (arch_or arch g.arch) d g then g.action else r)
            (first_match-eq-first_group arch d gs rest default others)))
]
