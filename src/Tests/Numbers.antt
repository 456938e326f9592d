-- ===== src/Tests/Numbers.antt =====
-- Runs of the functions of strconv.
use go_seccomp_bpf.Base.{◌≡◌, refl, ◌^◌, ◌-◌, none, some, pos, negsuc}
use go_seccomp_bpf.Text.Numbers.{atoi, parse_int}

hexadecimal : parse_int "0x0f_3b" ≡ some (pos 0x0f3b)
unfolding parse_int
hexadecimal = refl

negative : parse_int "-0x3b" ≡ some (negsuc 58)
unfolding parse_int
negative = refl

no_digits : parse_int "0x" ≡ none
unfolding parse_int
no_digits = refl

least : parse_int "-9223372036854775808" ≡ some (negsuc (2 ^ 63 - 1))
unfolding parse_int
least = refl

no_number : atoi "12a" ≡ none
unfolding atoi
no_number = refl

octal : parse_int "010" ≡ some (pos 8)
unfolding parse_int
octal = refl

two_underscores : parse_int "1__0" ≡ none
unfolding parse_int
two_underscores = refl
