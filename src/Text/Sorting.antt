-- ===== src/Text/Sorting.antt =====
-- `sort.Strings` of Go's package sort: the sorted list of the same texts, which is the only one. The order
-- is that of the characters' codes, which for UTF-8 is that of the bytes.
use Prim.Native.Char.{code}
use text.Mathlib.TextEquality.{Char-path}
use go_seccomp_bpf.Base.{
  ℕ, ◌+◌, ◌<◌, subst, ◌≡◌, refl, ap, ap₂, sym, ◌∙◌, inl, inr, String, Bool, true, false, List, [],
  ◌∷◌, ltb, ◌==◌, str_eq, eq_iff, if◌then◌else◌, Bool-cases, All, arith,
}

unfoldable pub text_leb : String → String → Bool
text_leb String.[] t = true
text_leb (String.◌∷◌ c s) String.[] = false
text_leb (String.◌∷◌ c s) (String.◌∷◌ d t) =
    let rest = text_leb s t in if code c == code d then rest else ltb (code c) (code d)

unfoldable pub insert_text : String → List String → List String
unfolding text_leb
insert_text s [] = s ∷ []
insert_text s (t ∷ ts) =
    let rest = insert_text s ts in if text_leb s t then s ∷ t ∷ ts else t ∷ rest

unfoldable pub sort_texts : List String → List String
unfolding insert_text
sort_texts [] = []
sort_texts (s ∷ ss) = insert_text s (sort_texts ss)

abbrev pub occurs : String → String → ℕ
occurs s t = if str_eq s t then 1 else 0

-- How often a text stands in a list.
abbrev pub count : String → List String → ℕ
count s [] = 0
count s (t ∷ ts) = occurs s t + count s ts

-- Each text is at most all that follow it.
abbrev pub IsSorted : List String → Type 0
IsSorted [] = Unit
IsSorted (s ∷ ss) = All (λ t. text_leb s t ≡ true) ss × IsSorted ss

text_leb_total : (s t : String) → text_leb s t ≡ false → text_leb t s ≡ true
unfolding text_leb
text_leb_total String.[] t h = cc
text_leb_total (String.◌∷◌ c s) String.[] h = refl
text_leb_total (String.◌∷◌ c s) (String.◌∷◌ d t) h = ground (arith, text_leb_total s t)

text_leb_trans : (s t u : String) → text_leb s t ≡ true → text_leb t u ≡ true → text_leb s u ≡ true
unfolding text_leb
text_leb_trans String.[] t u h k = refl
text_leb_trans (String.◌∷◌ c s) String.[] u h k = cc
text_leb_trans (String.◌∷◌ c s) (String.◌∷◌ d t) String.[] h k = cc
text_leb_trans (String.◌∷◌ c s) (String.◌∷◌ d t) (String.◌∷◌ e u) h k =
    ground (arith, text_leb_trans s t u)

text_leb_antisymm : (s t : String) → text_leb s t ≡ true → text_leb t s ≡ true → s ≡ t
unfolding text_leb
text_leb_antisymm String.[] String.[] h k = refl
text_leb_antisymm String.[] (String.◌∷◌ d t) h k = cc
text_leb_antisymm (String.◌∷◌ c s) String.[] h k = cc
text_leb_antisymm (String.◌∷◌ c s) (String.◌∷◌ d t) h k =
    let same : code c ≡ code d = ground arith in
    ap₂ String.◌∷◌ (Char-path c d same)
      (text_leb_antisymm s t (ground (arith, same)) (ground (arith, same)))

pub count-insert_text :
    (n s : String) (ss : List String) → count n (insert_text s ss) ≡ count n (s ∷ ss)
unfolding insert_text
count-insert_text n s [] = refl
count-insert_text n s (t ∷ ts) = elim (Bool-cases (text_leb s t)) [
  | inl y ↦ rw y
  | inr f ↦ rw f (omega (arith, count-insert_text n s ts))
]

-- The same texts, as often.
pub count-sort_texts : (n : String) (ss : List String) → count n (sort_texts ss) ≡ count n ss
unfolding sort_texts
count-sort_texts n [] = refl
count-sort_texts n (s ∷ ss) =
    count-insert_text n s (sort_texts ss) ∙ ap (◌+◌ (occurs n s)) (count-sort_texts n ss)

All-text_leb_trans :
    (s t : String) (ts : List String)
    → text_leb s t ≡ true
    → All (λ u. text_leb t u ≡ true) ts
    → All (λ u. text_leb s u ≡ true) ts
All-text_leb_trans s t [] h w = tt
All-text_leb_trans s t (u ∷ ts) h w = (text_leb_trans s t u h w.0, All-text_leb_trans s t ts h w.1)

All-insert_text {κ} :
    (P : String → Type κ) (s : String) (ts : List String)
    → P s
    → All P ts
    → All P (insert_text s ts)
unfolding insert_text
All-insert_text P s [] p w = (p, tt)
All-insert_text P s (t ∷ ts) p w = elim (Bool-cases (text_leb s t)) [
  | inl y ↦ rw y (p, w)
  | inr f ↦ rw f (w.0, All-insert_text P s ts p w.1)
]

insert_text-IsSorted : (s : String) (ts : List String) → IsSorted ts → IsSorted (insert_text s ts)
unfolding insert_text
insert_text-IsSorted s [] w = (tt, tt)
insert_text-IsSorted s (t ∷ ts) w = elim (Bool-cases (text_leb s t)) [
  | inl y ↦ rw y ((y, All-text_leb_trans s t ts y w.0), w)
  | inr f ↦ rw f (
    All-insert_text (λ u. text_leb t u ≡ true) s ts (text_leb_total s t f) w.0,
    insert_text-IsSorted s ts w.1,
  )
]

pub sort_texts-IsSorted : (ss : List String) → IsSorted (sort_texts ss)
unfolding sort_texts
sort_texts-IsSorted [] = tt
sort_texts-IsSorted (s ∷ ss) = insert_text-IsSorted s (sort_texts ss) (sort_texts-IsSorted ss)

-- What holds for all members of a list holds for each that is counted in it.
pub All-member {κ} :
    (P : String → Type κ) (n : String) (ts : List String) → All P ts → 0 < count n ts → P n
All-member P n [] w h = absurd (omega arith)
All-member P n (t ∷ ts) w h = elim (Bool-cases (str_eq n t)) [
  | inl y ↦ subst P (sym ((eq_iff n t).0 y)) w.0
  | inr f ↦ All-member P n ts w.1 (let more = rw f at h in omega arith)
]

text_leb_refl : (s : String) → text_leb s s ≡ true
text_leb_refl s = elim (Bool-cases (text_leb s s)) [ inl y ↦ y | inr f ↦ text_leb_total s s f ]

count_head : (s : String) (ts : List String) → 0 < count s (s ∷ ts)
count_head s ts = rw ((eq_iff s s).1 refl) (omega arith)

-- A sorted list is determined by how often each text stands in it.
pub sorted_unique :
    (xs ys : List String)
    → IsSorted xs
    → IsSorted ys
    → ((n : String) → count n xs ≡ count n ys)
    → xs ≡ ys
sorted_unique [] [] v w h = refl
sorted_unique [] (y ∷ ys) v w h = absurd (omega (arith, h y, count_head y ys))
sorted_unique (x ∷ xs) [] v w h = absurd (omega (arith, h x, count_head x xs))
sorted_unique (x ∷ xs) (y ∷ ys) v w h =
    let up : text_leb x y ≡ true =
      All-member (λ t. text_leb x t ≡ true) y (x ∷ xs) (text_leb_refl x, v.0)
        (omega (arith, h y, count_head y ys)) in
    let down : text_leb y x ≡ true =
      All-member (λ t. text_leb y t ≡ true) x (y ∷ ys) (text_leb_refl y, w.0)
        (omega (arith, h x, count_head x xs)) in
    let same : x ≡ y = text_leb_antisymm x y up down in
    ap₂ ◌∷◌ same (
      sorted_unique xs ys v.1 w.1 (λ n.
        let heads : occurs n x ≡ occurs n y = ap (occurs n) same in omega (arith, heads, h n)))
