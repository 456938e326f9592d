-- ===== src/Disasm/Patterns.antt =====
-- The two regular expressions of disasm.go, with the meaning that package regexp documents: the leftmost
-- match, `[A-Z]?` and `.+` as long as possible. A line holds no newline, so that `.` is any character.
use Prim.Native.Char.{code}
use go_seccomp_bpf.Base.{String, ◌&&◌, List, [], ◌∷◌, Option, none, some, leb, if◌then◌else◌}
use go_seccomp_bpf.Text.Search.{cut_prefix, append}

-- `MOV[A-Z]? \$(.+)` and then one of these texts.
abbrev pub Pattern : Type 0
Pattern = List String

-- x86_64SyscallRegex: `MOV[A-Z]? \$(.+), 0\(SP\)`
abbrev pub syscall_pattern : Pattern
syscall_pattern = ", 0(SP)" ∷ []

-- x86_64RawSyscallRegex: `MOV[A-Z]? \$(.+), (?:AX|BP)`
abbrev pub raw_syscall_pattern : Pattern
raw_syscall_pattern = ", AX" ∷ ", BP" ∷ []

-- The first of the texts that the line begins with.
unfoldable pub suffix_at : Pattern → String → Option String
suffix_at [] line = none
suffix_at (t ∷ ts) line = elim (cut_prefix t line) [ none ↦ suffix_at ts line | some rest ↦ some t ]

-- The longest text in front of one of the suffixes, and that suffix.
unfoldable pub before_suffix : Pattern → String → Option (String × String)
unfolding suffix_at
before_suffix m String.[] = elim (suffix_at m String.[]) [ none ↦ none | some t ↦ some ("", t) ]
before_suffix m (String.◌∷◌ c line) = elim (before_suffix m line) [
  | some (sub, t) ↦ some (String.◌∷◌ c sub, t)
  | none ↦ elim (suffix_at m (String.◌∷◌ c line)) [ none ↦ none | some t ↦ some ("", t) ]
]

-- `[A-Z]? \$`, as the text that it matches and the one behind it.
unfoldable pub after_mov : String → Option (String × String)
after_mov String.[] = none
after_mov (String.◌∷◌ c line) =
    if leb b'A' (code c) && leb (code c) b'Z'
    then elim (cut_prefix " $" line) [ none ↦ none | some rest ↦ some (String.◌∷◌ c " $", rest) ]
    else elim (cut_prefix " $" (String.◌∷◌ c line)) [ none ↦ none | some rest ↦ some (" $", rest) ]

-- `(.+)` and the suffix, behind the text `front`: the whole match and the submatch.
abbrev pub submatch : Pattern → (front line : String) → Option (String × String)
submatch m front String.[] = none
submatch m front (String.◌∷◌ c line) = elim (before_suffix m line) [
  | none ↦ none
  | some (sub, t) ↦ some (append front (append (String.◌∷◌ c sub) t), String.◌∷◌ c sub)
]

-- A match that begins here.
unfoldable pub match_here : Pattern → String → Option (String × String)
unfolding before_suffix after_mov
match_here m line = elim (cut_prefix "MOV" line) [
  | none ↦ none
  | some rest ↦ elim (after_mov rest) [
    | none ↦ none
    | some (front, rest') ↦ submatch m (append "MOV" front) rest'
  ]
]

-- `FindStringSubmatch`: the leftmost match.
unfoldable pub find_submatch : Pattern → String → Option (String × String)
unfolding match_here
find_submatch m String.[] = none
find_submatch m (String.◌∷◌ c line) = elim (match_here m (String.◌∷◌ c line)) [
  | some found ↦ some found
  | none ↦ find_submatch m line
]
