-- ===== src/Arch/Invert.antt =====
-- `invert` (arch/info.go): looking a name up in the inverted table, and back.
use go_seccomp_bpf.Base.{
  ℕ, ◌≡◌, refl, sym, ◌∙◌, ap, inl, inr, String, Bool, true, false, not, ◌&&◌, ◌||◌, some, List, [],
  ◌∷◌, str_eq, eq_iff, ◌==◌, ==_iff, if◌then◌else◌, Bool-cases, arith,
}
use go_seccomp_bpf.Arch.{Info, number_of, name_of, put, invert}

pub number_of-put :
    (key k : String) (n : ℕ) (m : List (String × ℕ))
    → number_of key (put k n m) ≡ (if str_eq k key then some n else number_of key m)
unfolding number_of put
number_of-put key k n [] = refl
number_of-put key k n ((j, i) ∷ m) =
    ground (arith, eq_iff k key, eq_iff j k, eq_iff j key, number_of-put key k n m)

-- Whether a name stands in a table.
unfoldable pub has_name : String → List (ℕ × String) → Bool
has_name s [] = false
has_name s ((k, t) ∷ m) = str_eq t s || has_name s m

-- No two numbers have the same name.
unfoldable pub has_distinct_names : List (ℕ × String) → Bool
unfolding has_name
has_distinct_names [] = true
has_distinct_names ((k, s) ∷ m) = not (has_name s m) && has_distinct_names m

name_of-has_name :
    (n : ℕ) (s : String) (t : List (ℕ × String)) → name_of n t ≡ some s → has_name s t ≡ true
unfolding name_of has_name
name_of-has_name n s [] h = cc
name_of-has_name n s ((k, v) ∷ m) h = elim (Bool-cases (k == n)) [
  | inl y ↦
      let it : some v ≡ some s = rw y at h in let same : v ≡ s = cc in rw ((eq_iff v s).1 same) refl
  | inr f ↦ elim (Bool-cases (str_eq v s)) [
    | inl y ↦ rw y refl
    | inr g ↦ rw g (name_of-has_name n s m (rw f at h))
  ]
]

-- If no two numbers of a table have the same name, the inverted table gives the name of a number this
-- number.
pub number_of-invert :
    (t : List (ℕ × String)) (n : ℕ) (s : String)
    → has_distinct_names t ≡ true
    → name_of n t ≡ some s
    → number_of s (invert t) ≡ some n
unfolding invert has_distinct_names name_of
number_of-invert [] n s d h = cc
number_of-invert ((k, v) ∷ m) n s d h =
    number_of-put s v k (invert m) ∙ elim (Bool-cases (k == n)) [
      | inl y ↦
          let it : some v ≡ some s = rw y at h in
          let same : v ≡ s = cc in rw ((eq_iff v s).1 same) (ap some ((==_iff k n).0 y))
      | inr f ↦
          let later : name_of n m ≡ some s = rw f at h in
          elim (Bool-cases (str_eq v s)) [
            | inl y ↦
                let here : has_name v m ≡ true =
                  ap (λ (w : String). has_name w m) ((eq_iff v s).0 y)
                  ∙ name_of-has_name n s m later in
                let never : false ≡ true = rw here at d in cc
            | inr g ↦
                rw g (number_of-invert m n s (tail (has_name v m) (has_distinct_names m) d) later)
          ]
    ]
  where
    tail : (a b : Bool) → (not a && b) ≡ true → b ≡ true
    tail a b e = ground arith

-- The names of an architecture are its inverted numbers, and no two numbers have the same name.
pub record IsInvertible (arch : Info) : Type 0 where
  pub inverted : arch.syscall_names ≡ invert arch.syscall_numbers
  pub distinct : has_distinct_names arch.syscall_numbers ≡ true

-- A name of the inverted table stands in the table.
pub invert-name_of :
    (t : List (ℕ × String)) (s : String) {n : ℕ}
    → number_of s (invert t) ≡ some n
    → has_name s t ≡ true
unfolding invert has_name number_of
invert-name_of [] s h = cc
invert-name_of ((k, v) ∷ m) s h = elim (Bool-cases (str_eq v s)) [
  | inl y ↦ rw y refl
  | inr g ↦ rw g (invert-name_of m s (sym (rw g at (number_of-put s v k (invert m))) ∙ h))
]
