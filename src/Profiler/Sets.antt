-- ===== src/Profiler/Sets.antt =====
-- Sets of names, the blacklist and the whitelist (cmd/seccomp-profiler/main.go).
use go_seccomp_bpf.Base.{
  ℕ, ◌+◌, ◌≡◌, refl, sym, ◌∙◌, ap, inl, inr, String, Bool, true, false, ◌&&◌, ◌||◌, List, [], ◌∷◌,
  ◌++◌, str_eq, eq_iff, ltb, if◌then◌else◌, Bool-cases, arith,
}
use go_seccomp_bpf.Arch.{Info}
use go_seccomp_bpf.Text.Sorting.{count}
use go_seccomp_bpf.Profiler.{member, add_to_set, set_of, filter_blacklist, is_known, add_allowed}

abbrev pub bit : Bool → ℕ
bit b = if b then 1 else 0

pub member-eq-count : (n : String) (ns : List String) → member n ns ≡ ltb 0 (count n ns)
unfolding member
member-eq-count n [] = refl
member-eq-count n (m ∷ ms) = ground (arith, member-eq-count n ms)

pub member_of_count :
    (n : String) (ns ms : List String) → count n ns ≡ count n ms → member n ns ≡ member n ms
member_of_count n ns ms h = member-eq-count n ns ∙ ap (ltb 0) h ∙ sym (member-eq-count n ms)

-- No name stands in the list twice.
abbrev pub HasNoDuplicates : List String → Type 0
HasNoDuplicates ns = (n : String) → count n ns ≡ bit (member n ns)

member_of_eq : (n m : String) (ns : List String) → str_eq n m ≡ true → member n ns ≡ member m ns
member_of_eq n m ns h = ap (λ (k : String). member k ns) ((eq_iff n m).0 h)

absorb : (a b c : Bool) → (a ≡ true → b ≡ true) → b ≡ c → b ≡ (a || c)
absorb a b c h k = ground (arith, h)

member-add_to_set :
    (n m : String) (ns : List String) → member n (add_to_set m ns) ≡ (str_eq n m || member n ns)
unfolding add_to_set member
member-add_to_set n m ns = elim (Bool-cases (member m ns)) [
  | inl y ↦
      rw (y, add_to_set)
        (absorb (str_eq n m) (member n ns) (member n ns) (λ e. member_of_eq n m ns e ∙ y) refl)
  | inr f ↦ rw (f, add_to_set)
]

pub member-set_of : (n : String) (ns : List String) → member n (set_of ns) ≡ member n ns
unfolding set_of member
member-set_of n [] = refl
member-set_of n (m ∷ ms) =
    member-add_to_set n m (set_of ms) ∙ ap (◌||◌ (str_eq n m)) (member-set_of n ms)

HasNoDuplicates-cons :
    (m : String) (ns : List String)
    → HasNoDuplicates ns
    → member m ns ≡ false
    → HasNoDuplicates (m ∷ ns)
unfolding member
HasNoDuplicates-cons m ns w f n = elim (Bool-cases (str_eq n m)) [
  | inl y ↦
      let none_yet : member n ns ≡ false = member_of_eq n m ns y ∙ f in
      rw (y, ◌||◌) (omega (arith, w n, ap bit none_yet))
  | inr g ↦ rw (g, ◌||◌) (omega (arith, w n))
]

pub HasNoDuplicates-add_to_set :
    (m : String) (ns : List String) → HasNoDuplicates ns → HasNoDuplicates (add_to_set m ns)
unfolding add_to_set
HasNoDuplicates-add_to_set m ns w = elim (Bool-cases (member m ns)) [
  | inl y ↦ rw (y, add_to_set) w
  | inr f ↦ rw (f, add_to_set) (HasNoDuplicates-cons m ns w f)
]

pub HasNoDuplicates-set_of : (ns : List String) → HasNoDuplicates (set_of ns)
unfolding set_of member
HasNoDuplicates-set_of [] n = refl
HasNoDuplicates-set_of (m ∷ ms) n =
    HasNoDuplicates-add_to_set m (set_of ms) (HasNoDuplicates-set_of ms) n

pub HasNoDuplicates-add_allowed :
    (arch : Info) (allow_list m added : List String)
    → HasNoDuplicates m
    → HasNoDuplicates (add_allowed arch allow_list m added).0
unfolding add_allowed
HasNoDuplicates-add_allowed arch [] m added w = w
HasNoDuplicates-add_allowed arch (s ∷ ss) m added w = elim (Bool-cases (is_known arch s)) [
  | inl k ↦ elim (Bool-cases (member s m)) [
    | inl y ↦ rw k (rw y (HasNoDuplicates-add_allowed arch ss m added w))
    | inr f ↦ rw k (
        rw f (
          HasNoDuplicates-add_allowed arch ss (s ∷ m) (added ++ s ∷ [])
            (HasNoDuplicates-cons s m w f)))
  ]
  | inr u ↦ rw u (HasNoDuplicates-add_allowed arch ss m added w)
]

known_of_eq : (arch : Info) (n s : String) → str_eq n s ≡ true → is_known arch n ≡ is_known arch s
known_of_eq arch n s h = ap (λ (k : String). is_known arch k) ((eq_iff n s).0 h)

held : (e m s k : Bool) → (e ≡ true → m ≡ true) → (m || s && k) ≡ (m || (e || s) && k)
held e m s k h = ground (arith, h)

added_now : (e m s k : Bool) → (e ≡ true → k ≡ true) → ((e || m) || s && k) ≡ (m || (e || s) && k)
added_now e m s k h = ground (arith, h)

unknown : (e m s k : Bool) → (e ≡ true → k ≡ false) → (m || s && k) ≡ (m || (e || s) && k)
unknown e m s k h = ground (arith, h)

-- The set of the whitelist's loop holds what it held, and the known names of the flag.
pub member-add_allowed :
    (arch : Info) (n : String) (allow_list m added : List String)
    → member n (add_allowed arch allow_list m added).0
      ≡ (member n m || (member n allow_list && is_known arch n))
unfolding add_allowed member
member-add_allowed arch n [] m added = ground arith
member-add_allowed arch n (s ∷ ss) m added = elim (Bool-cases (is_known arch s)) [
  | inl k ↦ elim (Bool-cases (member s m)) [
    | inl y ↦ rw k (
        rw y (
          member-add_allowed arch n ss m added
          ∙ held (str_eq n s) (member n m) (member n ss) (is_known arch n)
              (λ e. member_of_eq n s m e ∙ y)))
    | inr f ↦ rw k (
        rw f (
          member-add_allowed arch n ss (s ∷ m) (added ++ s ∷ [])
          ∙ added_now (str_eq n s) (member n m) (member n ss) (is_known arch n)
              (λ e. known_of_eq arch n s e ∙ k)))
  ]
  | inr u ↦ rw u (
      member-add_allowed arch n ss m added
      ∙ unknown (str_eq n s) (member n m) (member n ss) (is_known arch n)
          (λ e. known_of_eq arch n s e ∙ u))
]

filtered_out :
    (e b : Bool) (c k : ℕ)
    → (e ≡ true → b ≡ true)
    → k ≡ (if b then 0 else c)
    → k ≡ (if b then 0 else bit e + c)
filtered_out e b c k h g = ground (arith, h)

kept_in :
    (e b : Bool) (c k : ℕ)
    → (e ≡ true → b ≡ false)
    → k ≡ (if b then 0 else c)
    → bit e + k ≡ (if b then 0 else bit e + c)
kept_in e b c k h g = ground (arith, h)

pub count-filter_blacklist :
    (n : String) (blacklist ns : List String)
    → count n (filter_blacklist blacklist ns).0 ≡ (if member n blacklist then 0 else count n ns)
unfolding filter_blacklist
count-filter_blacklist n blacklist [] = ground arith
count-filter_blacklist n blacklist (s ∷ ss) =
    let ih = count-filter_blacklist n blacklist ss in
    elim (Bool-cases (member s blacklist)) [
      | inl y ↦ rw y (
          filtered_out (str_eq n s) (member n blacklist) (count n ss) _
            (λ e. member_of_eq n s blacklist e ∙ y) ih)
      | inr f ↦ rw f (
          kept_in (str_eq n s) (member n blacklist) (count n ss) _
            (λ e. member_of_eq n s blacklist e ∙ f) ih)
    ]
