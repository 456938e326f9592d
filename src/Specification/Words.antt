-- ===== src/Specification/Words.antt =====
-- The tests that the code makes on the two words of an argument decide the comparison of the whole.
use go_seccomp_bpf.Base.{
  ℕ, ◌/◌, ◌%◌, ◌^◌, ◌<◌, ◌≡◌, refl, ◌∙◌, ap, Bool, true, false, if◌then◌else◌, bit_and-words, arith,
}
use go_seccomp_bpf.Bpf.{SeccompData}
use go_seccomp_bpf.Filter.{
  Operation, equal, not_equal, greater_than, less_than, greater_or_equal, less_or_equal, bits_set,
  bits_not_set, other, Condition, hi_value, lo_value,
}
use go_seccomp_bpf.Decision.{check_operation, check_condition, IsWellFormed}
use go_seccomp_bpf.Specification.{compares, condition_holds}

-- The result of the tests on the two words, and the word that the accumulator holds then.
abbrev word_test : Operation → (x_hi x_lo v_hi v_lo : ℕ) → Bool
word_test op xh xl vh vl = check_operation op xh xl vh vl (λ a. true) (λ a. false)

abbrev last_word : Operation → (x_hi x_lo v_hi v_lo : ℕ) → ℕ
last_word op xh xl vh vl = check_operation op xh xl vh vl (λ a. a) (λ a. a)

check_operation-split {ℓ} :
    {A : Type ℓ} (op : Operation) (xh xl vh vl : ℕ) (t f : ℕ → A)
    → check_operation op xh xl vh vl t f ≡ (
        if word_test op xh xl vh vl
        then t (last_word op xh xl vh vl)
        else f (last_word op xh xl vh vl))
check_operation-split equal xh xl vh vl t f = ground arith
check_operation-split not_equal xh xl vh vl t f = ground arith
check_operation-split greater_than xh xl vh vl t f = ground arith
check_operation-split greater_or_equal xh xl vh vl t f = ground arith
check_operation-split less_than xh xl vh vl t f = ground arith
check_operation-split less_or_equal xh xl vh vl t f = ground arith
check_operation-split bits_set xh xl vh vl t f = ground arith
check_operation-split bits_not_set xh xl vh vl t f = ground arith
check_operation-split (other name) xh xl vh vl t f = refl

word_test-eq-compares :
    (op : Operation) (x v : ℕ)
    → v < 2 ^ 64
    → word_test op (x / 2 ^ 32) (x % 2 ^ 32) (v / 2 ^ 32 % 2 ^ 32) (v % 2 ^ 32) ≡ compares op x v
word_test-eq-compares equal x v h = ground arith
word_test-eq-compares not_equal x v h = ground arith
word_test-eq-compares greater_than x v h = ground arith
word_test-eq-compares greater_or_equal x v h = ground arith
word_test-eq-compares less_than x v h = ground arith
word_test-eq-compares less_or_equal x v h = ground arith
word_test-eq-compares bits_set x v h =
    let e : v / 2 ^ 32 % 2 ^ 32 ≡ v / 2 ^ 32 = omega arith in
    rw e (ground (arith, bit_and-words x v))
word_test-eq-compares bits_not_set x v h =
    let e : v / 2 ^ 32 % 2 ^ 32 ≡ v / 2 ^ 32 = omega arith in
    rw e (ground (arith, bit_and-words x v))
word_test-eq-compares (other name) x v h = refl

-- The word of the argument on which the last test of a condition's code is made.
unfoldable pub last_word_of : SeccompData → Condition → ℕ
last_word_of d c =
    let x = d.args c.argument in
    last_word c.operation (x / 2 ^ 32) (x % 2 ^ 32) (hi_value c) (lo_value c)

-- The code of a condition goes on as the comparison of the whole argument says, with that word in the
-- accumulator.
pub check_condition_words {ℓ} :
    {A : Type ℓ} (d : SeccompData) (c : Condition) (t f : ℕ → A)
    → IsWellFormed c
    → check_condition d c t f
      ≡ (if condition_holds d c then t (last_word_of d c) else f (last_word_of d c))
unfolding check_condition condition_holds last_word_of
check_condition_words d c t f w =
    let x = d.args c.argument in
    let a = last_word c.operation (x / 2 ^ 32) (x % 2 ^ 32) (hi_value c) (lo_value c) in
    check_operation-split c.operation (x / 2 ^ 32) (x % 2 ^ 32) (hi_value c) (lo_value c) t f
    ∙ ap (λ b. if b then t a else f a) (word_test-eq-compares c.operation x c.value w.is_u64)

-- The same with some word.
pub check_condition-split {ℓ} :
    {A : Type ℓ} (d : SeccompData) (c : Condition) (t f : ℕ → A)
    → IsWellFormed c
    → (a : ℕ) × (check_condition d c t f ≡ (if condition_holds d c then t a else f a))
check_condition-split d c t f w = (last_word_of d c, check_condition_words d c t f w)
