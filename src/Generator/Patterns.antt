-- ===== src/Generator/Patterns.antt =====
-- The two regular expressions of arch/mk_syscalls_linux.go, as searches at the start of a line. Their
-- character classes are disjoint from what follows them, so that the longest match is the only one.
use Prim.Native.Char.{code}
use go_seccomp_bpf.Base.{ℕ, String, Bool, ◌&&◌, ◌||◌, Option, none, some, leb, ◌==◌, if◌then◌else◌}
use go_seccomp_bpf.Text.Search.{cut_prefix, has_prefix, is_blank}

-- The longest text in front of which all characters pass, and what follows it.
unfoldable pub span : (ℕ → Bool) → String → String × String
span pass String.[] = (String.[], String.[])
span pass (String.◌∷◌ c s) =
    let (front, rest) = span pass s in
    if pass (code c) then (String.◌∷◌ c front, rest) else (String.[], String.◌∷◌ c s)

-- `[a-z0-9_]`, `\s` and `\d` of package regexp.
abbrev pub is_name_char : ℕ → Bool
is_name_char c = leb b'a' c && leb c b'z' || leb b'0' c && leb c b'9' || c == b'_'

abbrev pub is_white : ℕ → Bool
is_white c = c == 9 || c == 10 || c == 12 || c == 13 || c == 32

abbrev pub is_decimal : ℕ → Bool
is_decimal c = leb b'0' c && leb c b'9'

-- `([a-z0-9_]+)\s+`: the name, and what follows.
unfoldable pub name_and_space : String → Option (String × String)
unfolding span
name_and_space s =
    let (name, behind) = span is_name_char s in
    let (space, rest) = span is_white behind in
    if is_blank name || is_blank space then none else some (name, rest)

-- `\(__ARM_NR_BASE\+(\d+)\)`
unfoldable pub base_number : String → Option String
unfolding span cut_prefix has_prefix
base_number s = elim (cut_prefix "(__ARM_NR_BASE+" s) [
  | none ↦ none
  | some behind ↦
      let (number, rest) = span is_decimal behind in
      if is_blank number then none else (if has_prefix rest ")" then some number else none)
]

-- `(\d+)`
unfoldable pub plain_number : String → Option String
unfolding span
plain_number s =
    let (number, rest) = span is_decimal s in if is_blank number then none else some number

abbrev pub with_name :
    (String → Option String) → Option (String × String) → Option (String × String)
with_name number none = none
with_name number (some (name, rest)) = elim (number rest) [ none ↦ none | some n ↦ some (name, n) ]

-- The submatches of armUnistdSycallRegex in `buildARM`, anchored at the start of the line.
unfoldable pub arm_match : String → Option (String × String)
unfolding name_and_space base_number cut_prefix
arm_match line = elim (cut_prefix "#define __ARM_NR_" line) [
  | none ↦ none
  | some rest ↦ with_name base_number (name_and_space rest)
]

-- `_(?P<syscall>[a-z0-9_]+)\s+(?P<number>\d+)`
abbrev pub underscored : String → Option (String × String)
unfolding name_and_space plain_number cut_prefix
underscored s = elim (cut_prefix "_" s) [
  | none ↦ none
  | some rest ↦ with_name plain_number (name_and_space rest)
]

-- The submatches of armUnistdSycallRegex in `buildAARCH64`.
unfoldable pub aarch64_match : String → Option (String × String)
unfolding underscored cut_prefix
aarch64_match line = elim (cut_prefix "#define __NR" line) [
  | none ↦ none
  | some rest ↦ elim (cut_prefix "3264" rest) [
    | none ↦ underscored rest
    | some behind ↦ underscored behind
  ]
]
