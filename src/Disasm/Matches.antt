-- ===== src/Disasm/Matches.antt =====
-- What a match of the regular expressions of disasm.go is, and that the search for one at the beginning
-- of a line finds such a match.
use go_seccomp_bpf.Base.{
  ◌≡◌, refl, sym, ◌∙◌, ap, subst, inl, inr, String, [], ◌∷◌, Option, none, some, Option-cases,
  Bool-cases, ◌⊎◌, leb, ◌&&◌, ◌≤◌, leb→le, false, arith,
}
use Prim.Native.Char.{code, Char}
use go_seccomp_bpf.Text.Search.{append, is_blank, cut_prefix, cut_prefix-append}
use go_seccomp_bpf.Disasm.Patterns.{
  Pattern, suffix_at, before_suffix, after_mov, submatch, match_here,
}

pub append_assoc : (s t u : String) → append (append s t) u ≡ append s (append t u)
append_assoc String.[] t u = refl
append_assoc (String.◌∷◌ c s) t u = ap (String.◌∷◌ c) (append_assoc s t u)

-- A text that is one of a pattern's suffixes.
abbrev pub IsSuffixOf : Pattern → String → Type 0
IsSuffixOf [] t = ⊥
IsSuffixOf (u ∷ m) t = (t ≡ u) ⊎ IsSuffixOf m t

-- The line begins with `sub` and a suffix.
record Cut (m : Pattern) (line sub t : String) : Type 0 where
  suffix : IsSuffixOf m t
  rest : String
  whole : line ≡ append sub (append t rest)

Cut-found :
    (m : Pattern) (line sub t sub' t' : String)
    → ◌≡◌ {A = Option (String × String)} (some (sub, t)) (some (sub', t'))
    → Cut m line sub t
    → Cut m line sub' t'
Cut-found m line sub t sub' t' h c =
    let same : ◌≡◌ {A = String × String} (sub, t) (sub', t') = cc in
    subst (λ (p : String × String). Cut m line p.0 p.1) same c

Cut-suffix_at : (m : Pattern) (line t : String) → suffix_at m line ≡ some t → Cut m line "" t
unfolding suffix_at
Cut-suffix_at [] line t h = cc
Cut-suffix_at (u ∷ m) line t h = elim (Option-cases (cut_prefix u line)) [
  | inl e ↦
      let c = Cut-suffix_at m line t (rw (e, suffix_at) at h) in
      record { suffix = inr c.suffix; rest = c.rest; whole = c.whole }
  | inr (rest, e) ↦
      let it : some u ≡ some t = rw (e, suffix_at) at h in
      let same : u ≡ t = cc in
      record {
        suffix = inl (sym same);
        rest = rest;
        whole = cut_prefix-append u line rest e ∙ ap (λ v. append v rest) same;
      }
]

Cut-before_suffix :
    (m : Pattern) (line sub t : String) → before_suffix m line ≡ some (sub, t) → Cut m line sub t
unfolding before_suffix
Cut-before_suffix m String.[] sub t h = elim (Option-cases (suffix_at m String.[])) [
  | inl e ↦
      let never : ◌≡◌ {A = Option (String × String)} none (some (sub, t)) =
        rw (e, before_suffix) at h in
      cc
  | inr (u, e) ↦ Cut-found m "" "" u sub t (rw (e, before_suffix) at h) (Cut-suffix_at m "" u e)
]
Cut-before_suffix m (String.◌∷◌ c line) sub t h = elim (Option-cases (before_suffix m line)) [
  | inr ((sub', u), e) ↦
      let deeper = Cut-before_suffix m line sub' u e in
      Cut-found m (String.◌∷◌ c line) (String.◌∷◌ c sub') u sub t (rw (e, before_suffix) at h)
        (record {
          suffix = deeper.suffix;
          rest = deeper.rest;
          whole = ap (String.◌∷◌ c) deeper.whole;
        })
  | inl none_deeper ↦ elim (Option-cases (suffix_at m (String.◌∷◌ c line))) [
    | inl e ↦
        let never : ◌≡◌ {A = Option (String × String)} none (some (sub, t)) =
          rw (e, before_suffix) at (rw (none_deeper, before_suffix) at h) in
        cc
    | inr (u, e) ↦
        Cut-found m (String.◌∷◌ c line) "" u sub t
          (rw (e, before_suffix) at (rw (none_deeper, before_suffix) at h))
          (Cut-suffix_at m (String.◌∷◌ c line) u e)
  ]
]

-- What `[A-Z]? \$` matches: a blank and a dollar sign, perhaps behind an upper-case letter.
abbrev pub IsOperandStart : String → Type 0
IsOperandStart front =
    (front ≡ " $") ⊎ ((c : Char) × (b'A' ≤ code c) × (code c ≤ b'Z') × (front ≡ String.◌∷◌ c " $"))

-- A match of `MOV[A-Z]? \$(.+)` and one of the suffixes with which the line begins: `whole` is the match,
-- and `sub` is its submatch.
pub record Matches (m : Pattern) (line whole sub : String) : Type 0 where
  pub front : String
  pub suffix : String
  pub rest : String
  pub operand : IsOperandStart front
  pub nonempty : is_blank sub ≡ false
  pub is_suffix : IsSuffixOf m suffix
  pub shape : whole ≡ append (append "MOV" front) (append sub suffix)
  pub place : line ≡ append whole rest

after_mov_lem :
    (line front rest : String)
    → after_mov line ≡ some (front, rest)
    → IsOperandStart front × (line ≡ append front rest)
unfolding after_mov
after_mov_lem String.[] front rest h = cc
after_mov_lem (String.◌∷◌ c line) front rest h =
    elim (Bool-cases (leb b'A' (code c) && leb (code c) b'Z')) [
      | inl y ↦
          letter (leb→le b'A' (code c) (ground (arith, y)))
            (leb→le (code c) b'Z' (ground (arith, y))) (cut_prefix " $" line) refl (rw y at h)
      | inr n ↦ no_letter (cut_prefix " $" (String.◌∷◌ c line)) refl (rw n at h)
    ]
  where
    letter :
        b'A' ≤ code c
        → code c ≤ b'Z'
        → (o : Option String) → cut_prefix " $" line ≡ o
        → ◌≡◌ {A = Option (String × String)}
            (elim o [ none ↦ none | some r ↦ some (String.◌∷◌ c " $", r) ])
            (some (front, rest))
        → IsOperandStart front × (String.◌∷◌ c line ≡ append front rest)
    letter low high none e g = cc
    letter low high (some r) e g =
        let same : ◌≡◌ {A = String × String} (String.◌∷◌ c " $", r) (front, rest) = cc in
        subst (λ (p : String × String). IsOperandStart p.0 × (String.◌∷◌ c line ≡ append p.0 p.1))
          same (inr (c, low, high, refl), ap (String.◌∷◌ c) (cut_prefix-append " $" line r e))

    no_letter :
        (o : Option String)
        → cut_prefix " $" (String.◌∷◌ c line) ≡ o
        → ◌≡◌ {A = Option (String × String)}
            (elim o [ none ↦ none | some r ↦ some (" $", r) ])
            (some (front, rest))
        → IsOperandStart front × (String.◌∷◌ c line ≡ append front rest)
    no_letter none e g = cc
    no_letter (some r) e g =
        let same : ◌≡◌ {A = String × String} (" $", r) (front, rest) = cc in
        subst (λ (p : String × String). IsOperandStart p.0 × (String.◌∷◌ c line ≡ append p.0 p.1))
          same (inl refl, cut_prefix-append " $" (String.◌∷◌ c line) r e)

-- The match behind its opcode, at the beginning of the line.
submatch_lem :
    (m : Pattern) (front line whole sub : String)
    → IsOperandStart front
    → submatch m (append "MOV" front) line ≡ some (whole, sub)
    → Matches m (append (append "MOV" front) line) whole sub
submatch_lem m front String.[] whole sub o h = cc
submatch_lem m front (String.◌∷◌ c line) whole sub o h =
    elim (Option-cases (before_suffix m line)) [
      | inl e ↦
          let never : ◌≡◌ {A = Option (String × String)} none (some (whole, sub)) =
            rw (e, submatch) at h in
          cc
      | inr ((sub', t), e) ↦
          let cut = Cut-before_suffix m line sub' t e in
          let opcode = append "MOV" front in
          let found = String.◌∷◌ c sub' in
          let it : ◌≡◌ {A = Option (String × String)} (some (append opcode (append found t), found))
              (some (whole, sub)) =
            rw (e, submatch) at h in
          let same : ◌≡◌ {A = String × String} (append opcode (append found t), found)
              (whole, sub) =
            cc in
          subst (λ (p : String × String). Matches m (append opcode (String.◌∷◌ c line)) p.0 p.1)
            same
            (record {
              front = front;
              suffix = t;
              rest = cut.rest;
              operand = o;
              nonempty = refl;
              is_suffix = cut.suffix;
              shape = refl;
              place =
                  ap (λ l. append opcode (String.◌∷◌ c l))
                    (cut.whole ∙ sym (append_assoc sub' t cut.rest))
                  ∙ sym (append_assoc opcode (append found t) cut.rest);
            })
    ]

pub match_here-Matches :
    (m : Pattern) (line whole sub : String)
    → match_here m line ≡ some (whole, sub)
    → Matches m line whole sub
unfolding match_here
match_here-Matches m line whole sub h = elim (Option-cases (cut_prefix "MOV" line)) [
  | inl e ↦
      let never : ◌≡◌ {A = Option (String × String)} none (some (whole, sub)) =
        rw (e, match_here) at h in
      cc
  | inr (rest, e) ↦ elim (Option-cases (after_mov rest)) [
    | inl e' ↦
        let never : ◌≡◌ {A = Option (String × String)} none (some (whole, sub)) =
          rw (e', match_here) at (rw (e, match_here) at h) in
        cc
    | inr ((front, rest'), e') ↦
        let (operand, behind) = after_mov_lem rest front rest' e' in
        let at_start : line ≡ append (append "MOV" front) rest' =
          cut_prefix-append "MOV" line rest e
          ∙ ap (append "MOV") behind
          ∙ sym (append_assoc "MOV" front rest') in
        subst (λ l. Matches m l whole sub) (sym at_start)
          (submatch_lem m front rest' whole sub operand
            (rw (e', match_here) at (rw (e, match_here) at h)))
  ]
]
