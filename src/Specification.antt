-- ===== src/Specification.antt =====
-- What a policy means, with no word of the code that it becomes: conditions compare whole 64-bit
-- arguments, a group matches if one of its entries does, and the first group that matches decides.
pub mod Words
pub mod Outcome
use go_seccomp_bpf.Base.{
  ℕ, ◌≡◌, Bool, true, false, not, ◌&&◌, ◌||◌, List, [], ◌∷◌, ltb, leb, ◌==◌, if◌then◌else◌,
  is_empty, All, bit_and,
}
use go_seccomp_bpf.Bpf.{SeccompData}
use go_seccomp_bpf.Filter.{
  Operation, equal, not_equal, greater_than, less_than, greater_or_equal, less_or_equal, bits_set,
  bits_not_set, other, Condition, ArgumentConditions, SyscallWithConditions,
}
use go_seccomp_bpf.Decision.{Translated}

-- The documented meaning of an operation, of an argument `x` against a value `v`.
abbrev pub compares : Operation → ℕ → ℕ → Bool
compares equal x v = x == v
compares not_equal x v = not (x == v)
compares greater_than x v = ltb v x
compares less_than x v = ltb x v
compares greater_or_equal x v = leb v x
compares less_or_equal x v = leb x v
compares bits_set x v = not (bit_and x v == 0)
compares bits_not_set x v = bit_and x v == 0
compares (other name) x v = false

unfoldable pub condition_holds : SeccompData → Condition → Bool
condition_holds d c = compares c.operation (d.args c.argument) c.value

-- All conditions of a set hold.
unfoldable pub set_holds : SeccompData → ArgumentConditions → Bool
set_holds d [] = true
set_holds d (c ∷ cs) = condition_holds d c && set_holds d cs

-- One of the sets holds.
unfoldable pub some_set_holds : SeccompData → List ArgumentConditions → Bool
some_set_holds d [] = false
some_set_holds d (s ∷ ss) = set_holds d s || some_set_holds d ss

-- The number is that of the entry, and its conditions hold, if it has any.
unfoldable pub entry_matches : SeccompData → SyscallWithConditions → Bool
entry_matches d s = d.nr == s.num && (is_empty s.conditions || some_set_holds d s.conditions)

unfoldable pub some_entry_matches : SeccompData → List SyscallWithConditions → Bool
some_entry_matches d [] = false
some_entry_matches d (s ∷ ss) = entry_matches d s || some_entry_matches d ss

-- The action of the first group that matches.
unfoldable pub first_match : SeccompData → List Translated → ℕ → ℕ
first_match d [] default = default
first_match d ((ss, action) ∷ gs) default =
    if some_entry_matches d ss then action else first_match d gs default

-- If the entry is for this system call, its conditions hold. Where they do not, the accumulator is left
-- with a word of an argument, and the comparisons that follow are not with the number.
abbrev pub IsSettled : SeccompData → SyscallWithConditions → Type 0
IsSettled d s = (d.nr == s.num) ≡ true → entry_matches d s ≡ true

-- Every entry but the last is settled.
abbrev pub AreSettledBeforeLast : SeccompData → List SyscallWithConditions → Type 0
AreSettledBeforeLast d [] = Unit
AreSettledBeforeLast d (s ∷ []) = Unit
AreSettledBeforeLast d (s ∷ s' ∷ ss) = IsSettled d s × AreSettledBeforeLast d (s' ∷ ss)

-- Up to the first group that matches, every entry is settled but the very last of the policy.
abbrev pub IsUndisturbed : SeccompData → List Translated → Type 0
IsUndisturbed d [] = Unit
IsUndisturbed d ((ss, action) ∷ []) = AreSettledBeforeLast d ss
IsUndisturbed d ((ss, action) ∷ g ∷ gs) =
    All (IsSettled d) ss × (some_entry_matches d ss ≡ false → IsUndisturbed d (g ∷ gs))
