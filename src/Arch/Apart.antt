-- ===== src/Arch/Apart.antt =====
-- Tables in which no two numbers meet when the mask of the architecture is added (arch/info.go, and
-- `uint32(num | g.arch.SeccompMask)` of filter.go).
use go_seccomp_bpf.Base.{
  ℕ, ◌≡◌, sym, ◌∙◌, ap, inl, inr, String, Bool, true, false, not, ◌&&◌, ◌||◌, List, [], ◌∷◌, some,
  str_eq, eq_iff, ◌==◌, ==_iff, Bool-cases, arith,
}
use go_seccomp_bpf.Arch.{Info, number_of, invert}
use go_seccomp_bpf.Arch.Invert.{number_of-put}
use go_seccomp_bpf.Group.{masked}

-- A number of the table has this masked number.
unfoldable pub has_masked : Info → ℕ → List (ℕ × String) → Bool
has_masked arch n [] = false
has_masked arch n ((k, v) ∷ m) = masked arch k == n || has_masked arch n m

-- No two numbers of the table have the same masked number.
unfoldable pub are_apart : Info → List (ℕ × String) → Bool
unfolding has_masked
are_apart arch [] = true
are_apart arch ((k, v) ∷ m) = not (has_masked arch (masked arch k) m) && are_apart arch m

apart : (a b : Bool) → (not a && b) ≡ true → (a ≡ false) × (b ≡ true)
apart a b h = ground (arith, h)

has_masked_of_invert :
    (arch : Info) (t : List (ℕ × String)) (s : String) (n : ℕ)
    → number_of s (invert t) ≡ some n
    → has_masked arch (masked arch n) t ≡ true
unfolding invert has_masked number_of
has_masked_of_invert arch [] s n h = cc
has_masked_of_invert arch ((k, v) ∷ m) s n h = elim (Bool-cases (str_eq v s)) [
  | inl y ↦
      let it : some k ≡ some n = sym (rw y at (number_of-put s v k (invert m))) ∙ h in
      let same : k ≡ n = cc in
      ap (λ (b : Bool). b || has_masked arch (masked arch n) m)
        ((==_iff (masked arch k) (masked arch n)).1 (ap (masked arch) same))
  | inr g ↦
      ap (◌||◌ (masked arch k == masked arch n))
        (has_masked_of_invert arch m s n (sym (rw g at (number_of-put s v k (invert m))) ∙ h))
      ∙ or_true (masked arch k == masked arch n)
]
  where
    or_true : (b : Bool) → (b || true) ≡ true
    or_true b = ground arith

-- Then names whose masked numbers are the same are the same.
pub invert-apart :
    (arch : Info) (t : List (ℕ × String)) (a b : String) (x y : ℕ)
    → are_apart arch t ≡ true
    → number_of a (invert t) ≡ some x
    → number_of b (invert t) ≡ some y
    → masked arch x ≡ masked arch y
    → a ≡ b
unfolding are_apart invert number_of
invert-apart arch [] a b x y w h g e = cc
invert-apart arch ((k, v) ∷ m) a b x y w h g e =
    let (free, rest) = apart (has_masked arch (masked arch k) m) (are_apart arch m) w in
    elim (Bool-cases (str_eq v a)) [
      | inl va ↦ elim (Bool-cases (str_eq v b)) [
        | inl vb ↦ sym ((eq_iff v a).0 va) ∙ (eq_iff v b).0 vb
        | inr nb ↦
            let it : some k ≡ some x = sym (rw va at (number_of-put a v k (invert m))) ∙ h in
            let same : k ≡ x = cc in
            let there =
              has_masked_of_invert arch m b y
                (sym (rw nb at (number_of-put b v k (invert m))) ∙ g) in
            let never : false ≡ true =
              sym free ∙ ap (λ n. has_masked arch n m) (ap (masked arch) same ∙ e) ∙ there in
            cc
      ]
      | inr na ↦ elim (Bool-cases (str_eq v b)) [
        | inl vb ↦
            let it : some k ≡ some y = sym (rw vb at (number_of-put b v k (invert m))) ∙ g in
            let same : k ≡ y = cc in
            let there =
              has_masked_of_invert arch m a x
                (sym (rw na at (number_of-put a v k (invert m))) ∙ h) in
            let never : false ≡ true =
              sym free ∙ ap (λ n. has_masked arch n m) (ap (masked arch) same ∙ sym e) ∙ there in
            cc
        | inr nb ↦
            invert-apart arch m a b x y rest (sym (rw na at (number_of-put a v k (invert m))) ∙ h)
              (sym (rw nb at (number_of-put b v k (invert m))) ∙ g) e
      ]
    ]
