-- ===== src/Disasm/Known.antt =====
-- How `parseX86_64` knows the number of a system call (disasm.go).
use go_seccomp_bpf.Base.{
  ◌≡◌, refl, ◌∙◌, ap, inl, inr, String, Bool, true, false, List, [], ◌∷◌, ◌++◌, none, some, All,
  Option-cases, Bool-cases, ◌⊎◌, ℤ, pos, not, ◌&&◌, arith,
}
use go_seccomp_bpf.Text.Search.{fields, contains}
use go_seccomp_bpf.Text.Numbers.{parse_int}
use go_seccomp_bpf.Disasm.Patterns.{Pattern, syscall_pattern, raw_syscall_pattern, find_submatch}
use go_seccomp_bpf.Disasm.{
  Parser, Syscall, bad_number, Number, number, error, number_of_match, find_syscall_num,
  with_number, Parsed, not_syscall, found, parse_x86_64, is_raw_syscall, is_function_call,
  is_syscall_function, last_instruction,
}

-- The instruction that gives the number is the last one before the call that matches the pattern.
pub record IsLoad (m : Pattern) (instructions : List String) (num : ℤ) (assembly : String)
    : Type 0 where
  pub later : List String
  pub line : String
  pub earlier : List String
  pub sub : String
  pub splits : instructions ≡ later ++ line ∷ earlier
  pub no_match : All (λ l. find_submatch m l ≡ none) later
  pub matches : find_submatch m line ≡ some (assembly, sub)
  pub reads : parse_int sub ≡ some num

number_of_match-number :
    (whole sub assembly : String) (num : ℤ)
    → number_of_match whole sub ≡ number num assembly
    → (whole ≡ assembly) × (parse_int sub ≡ some num)
number_of_match-number whole sub assembly num h = elim (Option-cases (parse_int sub)) [
  | inl e ↦
      let never : error (bad_number sub) ≡ number num assembly = rw (e, number_of_match) at h in cc
  | inr (n, e) ↦
      let it : number n whole ≡ number num assembly = rw (e, number_of_match) at h in
      let same : n ≡ num = cc in (cc, e ∙ ap some same)
]

-- If a number is found, it is that of the last matching instruction before the call.
pub find_syscall_num-IsLoad :
    (m : Pattern) (instructions : List String) (num : ℤ) (assembly : String)
    → find_syscall_num instructions m ≡ number num assembly
    → IsLoad m instructions num assembly
unfolding find_syscall_num
find_syscall_num-IsLoad m [] num assembly h = cc
find_syscall_num-IsLoad m (line ∷ earlier) num assembly h =
    elim (Option-cases (find_submatch m line)) [
      | inl e ↦
          let l = find_syscall_num-IsLoad m earlier num assembly (rw (e, find_syscall_num) at h) in
          record {
            later = line ∷ l.later;
            line = l.line;
            earlier = l.earlier;
            sub = l.sub;
            splits = ap (◌∷◌ line) l.splits;
            no_match = (e, l.no_match);
            matches = l.matches;
            reads = l.reads;
          }
      | inr ((whole, sub), e) ↦
          let (same, reads) =
            number_of_match-number whole sub assembly num (rw (e, find_syscall_num) at h) in
          record {
            later = [];
            line = line;
            earlier = earlier;
            sub = sub;
            splits = refl;
            no_match = tt;
            matches = e ∙ ap (λ (w : String). some (w, sub)) same;
            reads = reads;
          }
    ]

-- How a line, the last one of `instructions`, is known to make a system call of this number: it is the
-- raw instruction outside the functions for system calls, behind an instruction that clears the
-- register or a load, or it calls one of these functions, behind a load.
abbrev pub IsKnownBy : Parser → (caller : String) → List String → ℤ → (assembly : String) → Type 0
IsKnownBy p caller [] num assembly = ⊥
IsKnownBy p caller (line ∷ earlier) num assembly =
    ((is_raw_syscall p line ≡ true)
      × (is_syscall_function caller ≡ false)
      × (((contains (last_instruction (line ∷ earlier)) "XORL AX, AX" ≡ true)
            × (assembly ≡ "XORL AX, AX")
            × (num ≡ pos 0))
          ⊎ IsLoad raw_syscall_pattern (line ∷ earlier) num assembly))
    ⊎ ((is_function_call p line ≡ true)
        × (is_syscall_function line ≡ true)
        × IsLoad syscall_pattern (line ∷ earlier) num assembly)

both_true : (a b : Bool) → (a && b) ≡ true → (a ≡ true) × (b ≡ true)
both_true a b h = ground (arith, h)

first_only : (a b : Bool) → (a && not b) ≡ true → (a ≡ true) × (b ≡ false)
first_only a b h = ground (arith, h)

with_number-found :
    (fs : List String) (line : String) (n : Number) (s : Syscall)
    → with_number fs line n ≡ found s
    → n ≡ number s.num s.assembly
with_number-found [] line n s h = cc
with_number-found (a ∷ []) line n s h = cc
with_number-found (a ∷ b ∷ []) line n s h = cc
with_number-found (a ∷ b ∷ c ∷ rest) line (error e) s h = cc
with_number-found (a ∷ b ∷ c ∷ rest) line (number num assembly) s h = ap number_in h
  where
    number_in : Parsed → Number
    number_in (found t) = number t.num t.assembly
    number_in _ = number num assembly

pub parse_x86_64-IsKnownBy :
    (p : Parser) (line caller : String) (earlier : List String) (s : Syscall)
    → parse_x86_64 p line caller (line ∷ earlier) ≡ found s
    → IsKnownBy p caller (line ∷ earlier) s.num s.assembly
unfolding parse_x86_64
parse_x86_64-IsKnownBy p line caller earlier s h =
    elim (Bool-cases (is_raw_syscall p line && not (is_syscall_function caller))) [
      | inl raw ↦
          let (makes, outside) =
            first_only (is_raw_syscall p line) (is_syscall_function caller) raw in
          elim (Bool-cases (contains (last_instruction (line ∷ earlier)) "XORL AX, AX")) [
            | inl y ↦
                let it =
                  with_number-found (fields line) line (number (pos 0) "XORL AX, AX") s
                    (rw y at (rw raw at h)) in
                inl (makes, outside, inl (y, cc, cc))
            | inr n ↦ inl (
              makes,
              outside,
              inr (
                  find_syscall_num-IsLoad raw_syscall_pattern (line ∷ earlier) s.num s.assembly
                    (with_number-found (fields line) line _ s (rw n at (rw raw at h)))),
            )
          ]
      | inr call ↦ elim (Bool-cases (is_function_call p line && is_syscall_function line)) [
        | inl y ↦
            let (calls, known) = both_true (is_function_call p line) (is_syscall_function line) y in
            inr (
              calls,
              known,
              find_syscall_num-IsLoad syscall_pattern (line ∷ earlier) s.num s.assembly
                  (with_number-found (fields line) line _ s (rw y at (rw call at h))),
            )
        | inr n ↦ let never : not_syscall ≡ found s = rw n at (rw call at h) in cc
      ]
    ]
