-- ===== src/Disasm/Longest.antt =====
-- Where a line begins with a match of a regular expression of disasm.go, the search there finds one that
-- is as long.
use go_seccomp_bpf.Base.{
  ℕ, suc, ◌≤◌, ◌≡◌, refl, sym, ◌∙◌, ap, subst, inl, inr, String, true, false, [], ◌∷◌, Option, none,
  some, Option-cases, ==_iff, ◌==◌, le→leb, arith,
}
use Prim.Native.Char.{code, Char}
use go_seccomp_bpf.Text.Search.{append, is_blank, cut_prefix}
use go_seccomp_bpf.Disasm.Patterns.{
  Pattern, suffix_at, before_suffix, after_mov, submatch, match_here,
}
use go_seccomp_bpf.Disasm.Matches.{append_assoc, IsSuffixOf, IsOperandStart, Matches}

abbrev pub size : String → ℕ
size String.[] = 0
size (String.◌∷◌ c s) = suc (size s)

same_code : (c : Char) → (code c == code c) ≡ true
same_code c = (==_iff (code c) (code c)).1 refl

cut_prefix_self : (p rest : String) → cut_prefix p (append p rest) ≡ some rest
unfolding cut_prefix
cut_prefix_self String.[] rest = refl
cut_prefix_self (String.◌∷◌ c p) rest = rw (same_code c) (cut_prefix_self p rest)

suffix_at-some :
    (m : Pattern) (t rest : String)
    → IsSuffixOf m t
    → (u : String) × (suffix_at m (append t rest) ≡ some u)
unfolding suffix_at
suffix_at-some [] t rest h = absurd h
suffix_at-some (u ∷ m) t rest (inl e) =
    let it : cut_prefix u (append t rest) ≡ some rest =
      subst (λ v. cut_prefix u (append v rest) ≡ some rest) (sym e) (cut_prefix_self u rest) in
    (u, rw (it, suffix_at) refl)
suffix_at-some (u ∷ m) t rest (inr h) = elim (Option-cases (cut_prefix u (append t rest))) [
  | inl e ↦ let (v, it) = suffix_at-some m t rest h in (v, rw (e, suffix_at) it)
  | inr (r, e) ↦ (u, rw (e, suffix_at) refl)
]

-- The text in front of a suffix that is found is as long as any.
before_suffix-longest :
    (m : Pattern) (sub t rest line : String)
    → IsSuffixOf m t
    → line ≡ append sub (append t rest)
    → (sub' : String) × (t' : String) × (before_suffix m line ≡ some (sub', t'))
      × (size sub ≤ size sub')
unfolding before_suffix
before_suffix-longest m String.[] t rest String.[] h e =
    let (u, it) = suffix_at-some m t rest h in
    let here : suffix_at m "" ≡ some u = ap (suffix_at m) e ∙ it in
    ("", u, rw (here, before_suffix) refl, omega arith)
before_suffix-longest m String.[] t rest (String.◌∷◌ c line) h e =
    let (u, it) = suffix_at-some m t rest h in
    let here : suffix_at m (String.◌∷◌ c line) ≡ some u = ap (suffix_at m) e ∙ it in
    elim (Option-cases (before_suffix m line)) [
      | inl deeper ↦
          ("", u, rw (deeper, before_suffix) (rw (here, before_suffix) refl), omega arith)
      | inr ((sub', t'), deeper) ↦
          (String.◌∷◌ c sub', t', rw (deeper, before_suffix) refl, omega arith)
    ]
before_suffix-longest m (String.◌∷◌ c sub) t rest String.[] h e = cc
before_suffix-longest m (String.◌∷◌ c sub) t rest (String.◌∷◌ d line) h e =
    let tail : line ≡ append sub (append t rest) = cc in
    let (sub', t', it, longer) = before_suffix-longest m sub t rest line h tail in
    (String.◌∷◌ d sub', t', rw (it, before_suffix) refl, omega (arith, longer))

after_mov-some :
    (front rest : String)
    → IsOperandStart front
    → after_mov (append front rest) ≡ some (front, rest)
unfolding after_mov
after_mov-some front rest (inl e) =
    subst (λ v. after_mov (append v rest) ≡ some (v, rest)) (sym e) blank
  where
    blank : after_mov (append " $" rest) ≡ some (" $", rest)
    blank = rw (cut_prefix_self " $" rest, after_mov) refl
after_mov-some front rest (inr (c, low, high, e)) =
    subst (λ v. after_mov (append v rest) ≡ some (v, rest)) (sym e) letter
  where
    letter : after_mov (String.◌∷◌ c (append " $" rest)) ≡ some (String.◌∷◌ c " $", rest)
    letter =
        rw (le→leb b'A' (code c) low)
          (rw (le→leb (code c) b'Z' high) (rw (cut_prefix_self " $" rest, after_mov) refl))

submatch-longest :
    (m : Pattern) (start sub t rest : String)
    → is_blank sub ≡ false
    → IsSuffixOf m t
    → (whole' : String) × (sub' : String) × (submatch m start (append sub (append t rest))
        ≡ some (whole', sub'))
      × (size sub ≤ size sub')
submatch-longest m start String.[] t rest full h = cc
submatch-longest m start (String.◌∷◌ c sub) t rest full h =
    let (sub', t', it, longer) =
      before_suffix-longest m sub t rest (append sub (append t rest)) h refl in
    (
      append start (append (String.◌∷◌ c sub') t'),
      String.◌∷◌ c sub',
      rw (it, submatch) refl,
      omega (arith, longer),
    )

-- Where there is a match, the search at this place finds one that is as long.
pub match_here-longest :
    (m : Pattern) (line whole sub : String)
    → Matches m line whole sub
    → (whole' : String) × (sub' : String) × (match_here m line ≡ some (whole', sub'))
      × (size sub ≤ size sub')
unfolding match_here
match_here-longest m line whole sub w =
    let tail = append sub (append w.suffix w.rest) in
    let apart : line ≡ append "MOV" (append w.front tail) =
      w.place
      ∙ ap (λ v. append v w.rest) w.shape
      ∙ append_assoc (append "MOV" w.front) (append sub w.suffix) w.rest
      ∙ append_assoc "MOV" w.front (append (append sub w.suffix) w.rest)
      ∙ ap (λ v. append "MOV" (append w.front v)) (append_assoc sub w.suffix w.rest) in
    let opcode : cut_prefix "MOV" line ≡ some (append w.front tail) =
      ap (cut_prefix "MOV") apart ∙ cut_prefix_self "MOV" (append w.front tail) in
    let operand = after_mov-some w.front tail w.operand in
    let (whole', sub', it, longer) =
      submatch-longest m (append "MOV" w.front) sub w.suffix w.rest w.nonempty w.is_suffix in
    (whole', sub', rw (opcode, match_here) (rw (operand, match_here) it), longer)

pub no_match_here :
    (m : Pattern) (line whole sub : String)
    → match_here m line ≡ none
    → Matches m line whole sub
    → ⊥
no_match_here m line whole sub e w =
    let (whole', sub', it, longer) = match_here-longest m line whole sub w in
    let never : ◌≡◌ {A = Option (String × String)} none (some (whole', sub')) = sym e ∙ it in cc

pub empty_line : (m : Pattern) → match_here m "" ≡ none
unfolding match_here cut_prefix
empty_line m = refl
