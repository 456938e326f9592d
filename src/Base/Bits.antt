-- ===== src/Base/Bits.antt =====
-- `bit_and` of two numbers, from that of their high and low words.
use Prim.Native.Nat.{
  ℕ, zero, suc, ◌+◌, ◌*◌, ◌/◌, ◌%◌, ◌^◌, ◌≤◌, ◌-◌, min, bit_and, digits, bit_and-bitwise,
}
use mathlib.Core.Path.{◌≡◌, refl, ap, ap₂, ◌∙◌}
use native.Mathlib.Omega.{arith}

-- The common binary digits of `x` and `y`, of the `k` lowest.
abbrev common : (k x y : ℕ) → ℕ
common k x y = digits (λ z. 0) min k x y

-- A number has no more digits than its value says.
common_one_more : (k y x : ℕ) → x ≤ k → common k x y ≡ common (suc k) x y
common_one_more k y zero h = all_gone k
  where
    all_gone : (k : ℕ) → common k 0 y ≡ common (suc k) 0 y
    all_gone zero = refl
    all_gone (suc k) = refl
common_one_more zero y (suc x) h = absurd (omega arith)
common_one_more (suc k) y (suc x) h =
    omega (arith, common_one_more k (y / 2) (suc x / 2) (omega arith))

common_more : (extra k y x : ℕ) → x ≤ k → common k x y ≡ common (extra + k) x y
common_more zero k y x h = ap (λ (n : ℕ). common n x y) (omega arith)
common_more (suc extra) k y x h =
    common_more extra k y x h
    ∙ common_one_more (extra + k) y x (omega arith)
    ∙ ap (λ (n : ℕ). common n x y) {x = suc (extra + k)} (omega arith)

bit_and_none : (y : ℕ) → bit_and zero y ≡ zero
bit_and_none y = bit_and-bitwise zero y

bit_and_halves : (x y : ℕ) → bit_and x y ≡ min (x % 2) (y % 2) + bit_and (x / 2) (y / 2) * 2
bit_and_halves zero y = omega (arith, bit_and_none (y / 2), bit_and_none y)
bit_and_halves (suc x) y =
    let half = suc x / 2 in
    let rest : common half half (y / 2) ≡ common x half (y / 2) =
      common_more (x - half) half (y / 2) half (omega arith)
      ∙ ap (λ (k : ℕ). common k half (y / 2)) (omega arith) in
    omega (arith, rest, bit_and-bitwise half (y / 2), bit_and-bitwise (suc x) y)

-- `bit_and` splits at the words of base `m`.
abbrev Splits : ℕ → Type 0
Splits m = (a b : ℕ) → bit_and a b ≡ bit_and (a / m) (b / m) * m + bit_and (a % m) (b % m)

Splits-two : Splits 2
Splits-two a b = omega (
  arith,
  bit_and_halves a b,
  bit_and_halves (a % 2) (b % 2),
  ap₂ bit_and (div_mod a) (div_mod b),
  bit_and_none 0,
)
  where
    div_mod : (x : ℕ) → x % 2 / 2 ≡ 0
    div_mod x = omega arith

-- Splitting at `m` twice is splitting at `m * m`.
module _ (m n : ℕ) (at_m : Splits m) (high : (x : ℕ) → x / m / m ≡ x / n)
    (middle : (x : ℕ) → x % n / m ≡ x / m % m) (low : (x : ℕ) → x % n % m ≡ x % m)
    (square : (x : ℕ) → x * m * m ≡ x * n) where
  Splits-square : Splits n
  Splits-square a b =
      let high_word = bit_and (a / n) (b / n) in
      let e2 : bit_and (a / m) (b / m) ≡ high_word * m + bit_and (a / m % m) (b / m % m) =
        at_m (a / m) (b / m)
        ∙ ap (λ t. t * m + bit_and (a / m % m) (b / m % m)) (ap₂ bit_and (high a) (high b)) in
      let e3 : bit_and (a % n) (b % n)
          ≡ bit_and (a / m % m) (b / m % m) * m + bit_and (a % m) (b % m) =
        at_m (a % n) (b % n)
        ∙ ap₂ (λ s t. s * m + t) (ap₂ bit_and (middle a) (middle b))
            (ap₂ bit_and (low a) (low b)) in
      omega (arith, at_m a b, ap (λ (t : ℕ). t * m) e2, e3, square high_word)

Splits-four : Splits 4
Splits-four =
    Splits-square 2 4 Splits-two (λ x. omega arith) (λ x. omega arith) (λ x. omega arith)
      (λ x. omega arith)

Splits-16 : Splits 16
Splits-16 =
    Splits-square 4 16 Splits-four (λ x. omega arith) (λ x. omega arith) (λ x. omega arith)
      (λ x. omega arith)

Splits-byte : Splits (2 ^ 8)
Splits-byte =
    Splits-square 16 (2 ^ 8) Splits-16 (λ x. omega arith) (λ x. omega arith) (λ x. omega arith)
      (λ x. omega arith)

Splits-half : Splits (2 ^ 16)
Splits-half =
    Splits-square (2 ^ 8) (2 ^ 16) Splits-byte (λ x. omega arith) (λ x. omega arith)
      (λ x. omega arith) (λ x. omega arith)

pub bit_and-words :
    (a b : ℕ)
    → bit_and a b ≡ bit_and (a / 2 ^ 32) (b / 2 ^ 32) * 2 ^ 32 + bit_and (a % 2 ^ 32) (b % 2 ^ 32)
bit_and-words =
    Splits-square (2 ^ 16) (2 ^ 32) Splits-half (λ x. omega arith) (λ x. omega arith)
      (λ x. omega arith) (λ x. omega arith)
