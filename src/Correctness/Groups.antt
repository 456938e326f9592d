-- ===== src/Correctness/Groups.antt =====
-- The loop of `Policy.Assemble` over its groups: translation first, and code from what it gives.
use go_seccomp_bpf.Base.{
  ℕ, ◌+◌, ◌≡◌, refl, ◌∙◌, inl, inr, Bool, true, false, List, [], ◌∷◌, length, ◌==◌, if◌then◌else◌,
  Bool-cases, Result, ok, err, ◌>>=◌,
}
use go_seccomp_bpf.Bpf.{ByteOrder}
use go_seccomp_bpf.Arch.{Info}
use go_seccomp_bpf.Assembler.{Program}
use go_seccomp_bpf.Filter.{SyscallWithConditions, assemble_group}
use go_seccomp_bpf.Group.{SyscallGroup, to_syscalls_with_conditions, assemble_syscall_group}
use go_seccomp_bpf.Policy.{arch_or, assemble_groups}
use go_seccomp_bpf.Decision.{Translated}
use go_seccomp_bpf.Decision.Groups.{assemble_translated}

abbrev pub has_no_names : SyscallGroup → Bool
has_no_names g = length g.names + length g.names_with_conditions == 0

-- The groups that are not empty, as numbers and conditions.
unfoldable pub translate : Info → List SyscallGroup → Result (List Translated)
translate arch [] = ok []
translate arch (g ∷ gs) =
    let rest = translate arch gs in
    if has_no_names g
    then rest
    else (to_syscalls_with_conditions (arch_or arch g.arch) g >>= λ ss.
        rest >>= λ ts. ok ((ss, g.action) ∷ ts))

-- The loop fails as the translation fails, and else gives the code of the translated groups.
pub assemble_groups-eq-translate :
    (order : ByteOrder) (arch : Info) (gs : List SyscallGroup) (p : Program)
    → assemble_groups order arch gs p
      ≡ (translate arch gs >>= λ ts. ok (assemble_translated order ts p))
unfolding assemble_groups translate assemble_syscall_group assemble_translated
assemble_groups-eq-translate order arch [] p = refl
assemble_groups-eq-translate order arch (g ∷ gs) p = elim (Bool-cases (has_no_names g)) [
  | inl y ↦ rw y (assemble_groups-eq-translate order arch gs p)
  | inr n ↦ rw n (
      group (to_syscalls_with_conditions (arch_or arch g.arch) g)
        (assemble_groups-eq-translate order arch gs))
]
  where
    group :
        (r : Result (List SyscallWithConditions))
        → ((q : Program)
            → assemble_groups order arch gs q
              ≡ (translate arch gs >>= λ ts. ok (assemble_translated order ts q)))
        → ((r >>= λ ss. ok (assemble_group order ss g.action p)) >>= assemble_groups order arch gs)
          ≡ ((r >>= λ ss. translate arch gs >>= λ ts. ok ((ss, g.action) ∷ ts)) >>= λ ts.
              ok (assemble_translated order ts p))
    group (err e) ih = refl
    group (ok ss) ih = ih _ ∙ regroup (translate arch gs)
      where
        regroup :
            (t : Result (List Translated))
            → (t >>= λ ts. ok (assemble_translated order ts (assemble_group order ss g.action p)))
              ≡ ((t >>= λ ts. ok ((ss, g.action) ∷ ts)) >>= λ ts.
                  ok (assemble_translated order ts p))
        regroup (err e) = refl
        regroup (ok ts) = refl

both_ok :
    (r : Result (List SyscallWithConditions)) (t : Result (List Translated)) (action : ℕ)
    (ts : List Translated)
    → (r >>= λ ss. t >>= λ rest. ok ((ss, action) ∷ rest)) ≡ ok ts
    → (ss : List SyscallWithConditions) × (rest : List Translated) × (r ≡ ok ss)
      × (t ≡ ok rest)
      × ((ss, action) ∷ rest ≡ ts)
both_ok (err e) t action ts h = cc
both_ok (ok ss) (err e) action ts h = cc
both_ok (ok ss) (ok rest) action ts h = (ss, rest, refl, refl, cc)

-- A group that is not empty comes first in the translation.
pub translate-cons :
    (arch : Info) (g : SyscallGroup) (gs : List SyscallGroup) (ts : List Translated)
    → has_no_names g ≡ false
    → translate arch (g ∷ gs) ≡ ok ts
    → (ss : List SyscallWithConditions) × (rest : List Translated) × (to_syscalls_with_conditions
          (arch_or arch g.arch)
          g
        ≡ ok ss)
      × (translate arch gs ≡ ok rest)
      × ((ss, g.action) ∷ rest ≡ ts)
unfolding translate
translate-cons arch g gs ts n h =
    both_ok (to_syscalls_with_conditions (arch_or arch g.arch) g) (translate arch gs) g.action ts
      (rw n at h)

-- An empty group is left out.
pub translate_skip :
    (arch : Info) (g : SyscallGroup) (gs : List SyscallGroup)
    → has_no_names g ≡ true
    → translate arch (g ∷ gs) ≡ translate arch gs
unfolding translate
translate_skip arch g gs e = rw e
