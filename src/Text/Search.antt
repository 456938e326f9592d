-- ===== src/Text/Search.antt =====
-- Functions of Go's package strings, on texts as lists of characters: HasPrefix, Contains, FieldsFunc,
-- Fields, TrimSpace and Join.
use Prim.Native.Char.{code}
use text.Mathlib.TextEquality.{Char-path}
use go_seccomp_bpf.Base.{
  ◌≡◌, ap₂, inl, inr, Bool-cases, ==_iff, ℕ, String, Bool, true, false, ◌&&◌, ◌||◌, List, [], ◌∷◌,
  Option, none, some, leb, ◌==◌, if◌then◌else◌,
}

abbrev pub is_blank : String → Bool
is_blank String.[] = true
is_blank (String.◌∷◌ c s) = false

abbrev pub append : String → String → String
append String.[] t = t
append (String.◌∷◌ c s) t = String.◌∷◌ c (append s t)

-- What follows a prefix, `strings.CutPrefix`.
unfoldable pub cut_prefix : (prefix s : String) → Option String
cut_prefix String.[] s = some s
cut_prefix (String.◌∷◌ d p) String.[] = none
cut_prefix (String.◌∷◌ d p) (String.◌∷◌ c s) = if code c == code d then cut_prefix p s else none

pub cut_prefix-append :
    (prefix s rest : String) → cut_prefix prefix s ≡ some rest → s ≡ append prefix rest
unfolding cut_prefix
cut_prefix-append String.[] s rest h = cc
cut_prefix-append (String.◌∷◌ d p) String.[] rest h = cc
cut_prefix-append (String.◌∷◌ d p) (String.◌∷◌ c s) rest h = elim (Bool-cases (code c == code d)) [
  | inl y ↦
      ap₂ String.◌∷◌ (Char-path c d ((==_iff _ _).0 y)) (cut_prefix-append p s rest (rw y at h))
  | inr n ↦ let never : none ≡ some rest = rw n at h in cc
]

-- `strings.HasPrefix`
unfoldable pub has_prefix : (s prefix : String) → Bool
unfolding cut_prefix
has_prefix s prefix = elim (cut_prefix prefix s) [ none ↦ false | some t ↦ true ]

-- `strings.Contains`
unfoldable pub contains : (s sub : String) → Bool
unfolding has_prefix
contains String.[] sub = has_prefix String.[] sub
contains (String.◌∷◌ c s) sub = has_prefix (String.◌∷◌ c s) sub || contains s sub

-- `unicode.IsSpace`, on the code of a character.
unfoldable pub is_space : ℕ → Bool
is_space c =
    leb 9 c && leb c 13
    || c == 32
    || c == 0x85
    || c == 0xa0
    || c == 0x1680
    || leb 0x2000 c && leb c 0x200a
    || c == 0x2028
    || c == 0x2029
    || c == 0x202f
    || c == 0x205f
    || c == 0x3000

-- A word, unless it is empty, in front of others.
abbrev pub keep : String → List String → List String
keep String.[] ws = ws
keep (String.◌∷◌ c w) ws = String.◌∷◌ c w ∷ ws

-- The word that a text begins with, which may be empty, and the words behind it.
unfoldable pub words : (ℕ → Bool) → String → String × List String
words sep String.[] = (String.[], [])
words sep (String.◌∷◌ c s) =
    let (w, ws) = words sep s in
    if sep (code c) then (String.[], keep w ws) else (String.◌∷◌ c w, ws)

-- `strings.FieldsFunc`
unfoldable pub fields_func : (ℕ → Bool) → String → List String
unfolding words
fields_func sep s = let (w, ws) = words sep s in keep w ws

-- `strings.Fields`
unfoldable pub fields : String → List String
unfolding fields_func is_space
fields s = fields_func is_space s

unfoldable pub trim_left : String → String
unfolding is_space
trim_left String.[] = String.[]
trim_left (String.◌∷◌ c s) = if is_space (code c) then trim_left s else String.◌∷◌ c s

unfoldable pub trim_right : String → String
unfolding is_space
trim_right String.[] = String.[]
trim_right (String.◌∷◌ c s) =
    let rest = trim_right s in
    if is_space (code c) && is_blank rest then String.[] else String.◌∷◌ c rest

-- `strings.TrimSpace`
unfoldable pub trim_space : String → String
unfolding trim_left trim_right
trim_space s = trim_right (trim_left s)

-- `strings.Join`
unfoldable pub join : List String → (sep : String) → String
join [] sep = String.[]
join (s ∷ []) sep = s
join (s ∷ t ∷ ss) sep = append s (append sep (join (t ∷ ss) sep))
