-- ===== src/Text/Numbers.antt =====
-- Functions of Go's package strconv: Atoi, ParseInt with base 0, and Itoa.
use Prim.Native.Char.{Char, code}
use go_seccomp_bpf.Base.{
  ℕ, zero, suc, ◌/◌, ◌%◌, zero, suc, ◌+◌, ◌-◌, ◌*◌, ◌^◌, String, Bool, true, false, ◌&&◌, ◌||◌,
  Option, none, some, leb, ltb, ◌==◌, if◌then◌else◌, ℤ, pos, negsuc,
}
use go_seccomp_bpf.Text.Search.{is_blank}

-- The value of a digit, up to base 36.
unfoldable pub digit : ℕ → Option ℕ
digit c =
    if leb b'0' c && leb c b'9'
    then some (c - b'0')
    else (if leb b'a' c && leb c b'z'
        then some (c - b'a' + 10)
        else (if leb b'A' c && leb c b'Z' then some (c - b'A' + 10) else none))

abbrev pub digit_below : ℕ → ℕ → Option ℕ
unfolding digit
digit_below base c = elim (digit c) [ none ↦ none | some d ↦ if ltb d base then some d else none ]

-- The digits of a number behind those already read. An underscore is passed over if `lax`.
unfoldable pub digits_from : (lax : Bool) → (base acc : ℕ) → String → Option ℕ
unfolding digit_below
digits_from lax base acc String.[] = some acc
digits_from lax base acc (String.◌∷◌ c s) =
    let rest = digits_from lax base acc s in
    if lax && code c == b'_' then rest else elim (digit_below base (code c)) [
      | none ↦ none
      | some d ↦ digits_from lax base (acc * base + d) s
    ]

-- The number with its sign, in the range of int64.
abbrev pub in_range : (neg : Bool) → Option ℕ → Option ℤ
in_range neg none = none
in_range true (some zero) = some (pos 0)
in_range true (some (suc n)) = if ltb n (2 ^ 63) then some (negsuc n) else none
in_range false (some n) = if ltb n (2 ^ 63) then some (pos n) else none

-- The sign in front, and the text behind it.
abbrev pub signed : String → Bool × String
signed String.[] = (false, String.[])
signed (String.◌∷◌ c s) =
    if code c == b'-'
    then (true, s)
    else (if code c == b'+' then (false, s) else (false, String.◌∷◌ c s))

abbrev decimal : String → Option ℕ
unfolding digits_from
decimal s = if is_blank s then none else digits_from false 10 0 s

-- `strconv.Atoi`; `none` is an error.
unfoldable pub atoi : String → Option ℤ
unfolding decimal
atoi s = let (neg, t) = signed s in in_range neg (decimal t)

abbrev lower : ℕ → ℕ
lower c = if leb b'A' c && leb c b'Z' then c + 32 else c

-- The base that a prefix of an unsigned literal gives, and the digits behind it.
abbrev pub base_of : String → ℕ × String
base_of String.[] = (10, String.[])
base_of (String.◌∷◌ c String.[]) =
    if code c == b'0' then (8, String.[]) else (10, String.◌∷◌ c String.[])
base_of (String.◌∷◌ c (String.◌∷◌ x String.[])) =
    if code c == b'0'
    then (8, String.◌∷◌ x String.[])
    else (10, String.◌∷◌ c (String.◌∷◌ x String.[]))
base_of (String.◌∷◌ c (String.◌∷◌ x (String.◌∷◌ y s))) =
    if code c == b'0'
    then (if lower (code x) == b'b'
        then (2, String.◌∷◌ y s)
        else (if lower (code x) == b'o'
            then (8, String.◌∷◌ y s)
            else (if lower (code x) == b'x'
                then (16, String.◌∷◌ y s)
                else (8, String.◌∷◌ x (String.◌∷◌ y s)))))
    else (10, String.◌∷◌ c (String.◌∷◌ x (String.◌∷◌ y s)))

-- What an underscore may follow: a digit or the prefix of a base.
pub data Before : Type 0 where
  nothing a_digit underscore another : Before

abbrev is_hex_digit : Bool → ℕ → Bool
is_hex_digit hex c = leb b'0' c && leb c b'9' || hex && leb b'a' (lower c) && leb (lower c) b'f'

separated : (hex : Bool) → Before → String → Bool
separated hex underscore String.[] = false
separated hex _ String.[] = true
separated hex before (String.◌∷◌ c s) =
    let rest = separated hex a_digit s in
    if is_hex_digit hex (code c)
    then rest
    else (if code c == b'_'
        then elim before [ a_digit ↦ separated hex underscore s | _ ↦ false ]
        else elim before [ underscore ↦ false | _ ↦ separated hex another s ])

-- Underscores only separate digits, or stand behind the prefix of a base.
abbrev underscores_ok : String → Bool
unfolding separated
underscores_ok String.[] = true
underscores_ok (String.◌∷◌ c String.[]) = separated false nothing (String.◌∷◌ c String.[])
underscores_ok (String.◌∷◌ c (String.◌∷◌ x s)) =
    if code c == b'0'
      && (lower (code x) == b'b' || lower (code x) == b'o' || lower (code x) == b'x')
    then separated (lower (code x) == b'x') a_digit s
    else separated false nothing (String.◌∷◌ c (String.◌∷◌ x s))

abbrev unsigned : String → Option ℕ
unfolding digits_from underscores_ok
unsigned s =
    if is_blank s
    then none
    else (let (base, t) = base_of s in if underscores_ok s then digits_from true base 0 t else none)

-- `strconv.ParseInt(s, 0, 64)`; `none` is an error.
unfoldable pub parse_int : String → Option ℤ
unfolding unsigned
parse_int s = let (neg, t) = signed s in in_range neg (unsigned t)

abbrev char_of_digit : ℕ → Char
char_of_digit zero = "0"
char_of_digit (suc zero) = "1"
char_of_digit (suc (suc zero)) = "2"
char_of_digit (suc (suc (suc zero))) = "3"
char_of_digit (suc (suc (suc (suc zero)))) = "4"
char_of_digit (suc (suc (suc (suc (suc zero))))) = "5"
char_of_digit (suc (suc (suc (suc (suc (suc zero)))))) = "6"
char_of_digit (suc (suc (suc (suc (suc (suc (suc zero))))))) = "7"
char_of_digit (suc (suc (suc (suc (suc (suc (suc (suc zero)))))))) = "8"
char_of_digit _ = "9"

-- The decimal digits of a number in front of a text; the fuel is more than the number of digits.
unfoldable pub digits_onto : (fuel : ℕ) → ℕ → String → String
digits_onto zero n t = t
digits_onto (suc fuel) n t =
    let d = char_of_digit (n % 10) in
    let rest = digits_onto fuel (n / 10) (String.◌∷◌ d t) in
    if n / 10 == 0 then String.◌∷◌ d t else rest

-- `strconv.Itoa` of a number that is not negative and below 10 ^ 20.
unfoldable pub itoa : ℕ → String
unfolding digits_onto
itoa n = digits_onto 20 n String.[]
