-- ===== src/Disasm/Leftmost.antt =====
-- The search of disasm.go for a regular expression finds the leftmost match, as long as possible.
use go_seccomp_bpf.Base.{
  ◌≤◌, ◌≡◌, refl, sym, ◌∙◌, ap, subst, inl, inr, String, false, Option, none, some, Option-cases,
}
use Prim.Native.Char.{Char}
use go_seccomp_bpf.Text.Search.{append, is_blank}
use go_seccomp_bpf.Disasm.Patterns.{Pattern, match_here, find_submatch}
use go_seccomp_bpf.Disasm.Matches.{Matches, match_here-Matches}
use go_seccomp_bpf.Disasm.Longest.{size, match_here-longest, no_match_here, empty_line}

-- The leftmost match in a line: at no place in front of it is there another, and none at its place has
-- a longer submatch.
pub record IsFirstMatch (m : Pattern) (line whole sub : String) : Type 0 where
  pub before : String
  pub behind : String
  pub splits : line ≡ append before behind
  pub here : Matches m behind whole sub
  pub leftmost :
      (a b w u : String)
      → before ≡ append a b
      → is_blank b ≡ false
      → Matches m (append b behind) w u
      → ⊥
  pub longest : (w u : String) → Matches m behind w u → size u ≤ size sub

-- What a search has to return: the leftmost match, or nothing, if there is no match at any place.
abbrev pub IsSearched : Pattern → String → Option (String × String) → Type 0
IsSearched m line (some (whole, sub)) = IsFirstMatch m line whole sub
IsSearched m line none =
    (before behind w u : String) → line ≡ append before behind → Matches m behind w u → ⊥

found_here :
    (m : Pattern) (line whole sub : String)
    → match_here m line ≡ some (whole, sub)
    → IsFirstMatch m line whole sub
found_here m line whole sub e = record {
  before = "";
  behind = line;
  splits = refl;
  here = match_here-Matches m line whole sub e;
  leftmost = no_room;
  longest = λ w u v. shorter w u (match_here-longest m line w u v);
}
  where
    no_room :
        (a b w u : String)
        → "" ≡ append a b
        → is_blank b ≡ false
        → Matches m (append b line) w u
        → ⊥
    no_room String.[] String.[] w u same full v = cc
    no_room String.[] (String.◌∷◌ d b) w u same full v = cc
    no_room (String.◌∷◌ d a) b w u same full v = cc

    shorter :
        (w u : String)
        → ((whole' : String) × (sub' : String) × (match_here m line ≡ some (whole', sub'))
            × (size u ≤ size sub'))
        → size u ≤ size sub
    shorter w u (whole', sub', it, longer) =
        let both : ◌≡◌ {A = Option (String × String)} (some (whole', sub')) (some (whole, sub)) =
          sym it ∙ e in
        let same : sub' ≡ sub = cc in subst (λ v. size u ≤ size v) same longer

found_later :
    (m : Pattern) (c : Char) (line : String) (r : Option (String × String))
    → match_here m (String.◌∷◌ c line) ≡ none
    → IsSearched m line r
    → IsSearched m (String.◌∷◌ c line) r
found_later m c line (some (whole, sub)) e s = record {
  before = String.◌∷◌ c s.before;
  behind = s.behind;
  splits = ap (String.◌∷◌ c) s.splits;
  here = s.here;
  leftmost = earlier;
  longest = s.longest;
}
  where
    earlier :
        (a b w u : String)
        → String.◌∷◌ c s.before ≡ append a b
        → is_blank b ≡ false
        → Matches m (append b s.behind) w u
        → ⊥
    earlier String.[] b w u same full v =
        let at_start : append b s.behind ≡ String.◌∷◌ c line =
          ap (λ x. append x s.behind) (sym same) ∙ ap (String.◌∷◌ c) (sym s.splits) in
        no_match_here m (String.◌∷◌ c line) w u e (subst (λ l. Matches m l w u) at_start v)
    earlier (String.◌∷◌ d a) b w u same full v =
        let tail : s.before ≡ append a b = cc in s.leftmost a b w u tail full v
found_later m c line none e s = nowhere
  where
    nowhere :
        (before behind w u : String)
        → String.◌∷◌ c line ≡ append before behind
        → Matches m behind w u
        → ⊥
    nowhere String.[] behind w u same v =
        no_match_here m (String.◌∷◌ c line) w u e (subst (λ l. Matches m l w u) (sym same) v)
    nowhere (String.◌∷◌ d before) behind w u same v =
        let tail : line ≡ append before behind = cc in s before behind w u tail v

-- A search returns the leftmost match in the line, and of those at its place one with a longest submatch;
-- it returns nothing only if there is no match at any place of the line. A match is an opcode `MOV` with
-- at most one further upper-case letter, a blank and a dollar sign, a submatch that is not empty, and one
-- of the pattern's last operands.
pub find_submatch-IsSearched :
    (m : Pattern) (line : String) → IsSearched m line (find_submatch m line)
unfolding find_submatch
find_submatch-IsSearched m String.[] = nowhere
  where
    nowhere : (before behind w u : String) → "" ≡ append before behind → Matches m behind w u → ⊥
    nowhere String.[] behind w u same v =
        no_match_here m "" w u (empty_line m) (subst (λ l. Matches m l w u) (sym same) v)
    nowhere (String.◌∷◌ d before) behind w u same v = cc
find_submatch-IsSearched m (String.◌∷◌ c line) =
    elim (Option-cases (match_here m (String.◌∷◌ c line))) [
      | inl e ↦
          rw (e, find_submatch)
            (found_later m c line (find_submatch m line) e (find_submatch-IsSearched m line))
      | inr ((whole, sub), e) ↦ rw (e, find_submatch) (found_here m (String.◌∷◌ c line) whole sub e)
    ]
