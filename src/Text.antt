-- ===== src/Text.antt =====
-- What the sources use of Go's packages strings, strconv and sort. Here, `strings.ToLower`.
pub mod Search
pub mod Numbers
pub mod Sorting
use Prim.Native.Char.{Char, code}
use go_seccomp_bpf.Base.{ℕ, String, List, [], ◌∷◌, ltb, ◌==◌, if◌then◌else◌}

-- The lower-case letter of an ASCII capital.
abbrev capitals : List (ℕ × Char)
capitals =
    (b'A', "a")
    ∷ (b'B', "b")
    ∷ (b'C', "c")
    ∷ (b'D', "d")
    ∷ (b'E', "e")
    ∷ (b'F', "f")
    ∷ (b'G', "g")
    ∷ (b'H', "h")
    ∷ (b'I', "i")
    ∷ (b'J', "j")
    ∷ (b'K', "k")
    ∷ (b'L', "l")
    ∷ (b'M', "m")
    ∷ (b'N', "n")
    ∷ (b'O', "o")
    ∷ (b'P', "p")
    ∷ (b'Q', "q")
    ∷ (b'R', "r")
    ∷ (b'S', "s")
    ∷ (b'T', "t")
    ∷ (b'U', "u")
    ∷ (b'V', "v")
    ∷ (b'W', "w")
    ∷ (b'X', "x")
    ∷ (b'Y', "y")
    ∷ (b'Z', "z")
    ∷ []

lower_in : List (ℕ × Char) → Char → Char
lower_in [] c = c
lower_in ((k, l) ∷ t) c = if code c == k then l else lower_in t c

-- `unicode_lower` is Go's table for the characters that are not ASCII.
unfoldable pub to_lower : (unicode_lower : Char → Char) → String → String
unfolding lower_in
to_lower unicode_lower String.[] = String.[]
to_lower unicode_lower (String.◌∷◌ c s) =
    String.◌∷◌ (if ltb (code c) 128 then lower_in capitals c else unicode_lower c)
      (to_lower unicode_lower s)
