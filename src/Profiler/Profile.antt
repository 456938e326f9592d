-- ===== src/Profiler/Profile.antt =====
-- Which names a profile has (cmd/seccomp-profiler/main.go), in whatever order Go ranges over its maps.
use go_seccomp_bpf.Base.{
  ℕ, ◌≡◌, refl, sym, ◌∙◌, ap, String, Bool, true, false, not, ◌&&◌, ◌||◌, List, [], ◌∷◌, ltb,
  if◌then◌else◌, is_empty, All, arith,
}
use go_seccomp_bpf.Arch.{Info}
use go_seccomp_bpf.Text.Sorting.{
  count, IsSorted, count-sort_texts, sort_texts-IsSorted, sorted_unique,
}
use go_seccomp_bpf.Disasm.{Syscall}
use go_seccomp_bpf.Profiler.{
  member, set_of, put_all, Ranges, deduplicate, filter_blacklist, is_known, add_allowed,
  add_whitelist, profile_names,
}
use go_seccomp_bpf.Profiler.Sets.{
  bit, member-eq-count, member-set_of, HasNoDuplicates-set_of, HasNoDuplicates-add_allowed,
  member-add_allowed, count-filter_blacklist,
}
use go_seccomp_bpf.Profiler.Names.{IsFair, IsNamed, names_of, member-put_all}

module _ (order : Ranges) (fair : IsFair order) (arch : Info) (blacklist allow_list : List String)
    (ss : List Syscall) where
  -- The names that are not filtered out.
  abbrev kept : List String
  kept =
      if is_empty blacklist
      then deduplicate order ss
      else (filter_blacklist blacklist (deduplicate order ss)).0

  abbrev kept_count : String → ℕ
  kept_count n = if member n blacklist then 0 else count n (names_of (put_all ss []))

  count-deduplicate :
      (n : String) → count n (deduplicate order ss) ≡ count n (names_of (put_all ss []))
  unfolding deduplicate
  count-deduplicate n = fair.syscalls_same n (put_all ss [])

  count-kept : (n : String) → count n kept ≡ kept_count n
  unfolding member
  count-kept n = by_list blacklist
    where
      by_list :
          (l : List String)
          → count n (
              if is_empty l
              then deduplicate order ss
              else (filter_blacklist l (deduplicate order ss)).0)
            ≡ (if member n l then 0 else count n (names_of (put_all ss [])))
      by_list [] = count-deduplicate n
      by_list (b ∷ l) =
          count-filter_blacklist n (b ∷ l) (deduplicate order ss)
          ∙ ap (λ (k : ℕ). if member n (b ∷ l) then 0 else k) (count-deduplicate n)

  -- How often a name stands in the profile.
  abbrev profile_count : String → ℕ
  profile_count n =
      if is_empty allow_list
      then kept_count n
      else bit (ltb 0 (kept_count n) || (member n allow_list && is_known arch n))

  pub count-profile_names :
      (n : String) → count n (profile_names order arch blacklist allow_list ss) ≡ profile_count n
  unfolding profile_names add_whitelist
  count-profile_names n = count-sort_texts n _ ∙ by_list allow_list
    where
      by_list :
          (l : List String)
          → count n (if is_empty l then kept else (add_whitelist order arch l kept).0) ≡ (
              if is_empty l
              then kept_count n
              else bit (ltb 0 (kept_count n) || (member n l && is_known arch n)))
      by_list [] = count-kept n
      by_list (a ∷ l) =
          fair.names_same n (add_allowed arch (a ∷ l) (set_of kept) []).0
          ∙ HasNoDuplicates-add_allowed arch (a ∷ l) (set_of kept) [] (HasNoDuplicates-set_of kept)
              n
          ∙ ap bit (
              member-add_allowed arch n (a ∷ l) (set_of kept) []
              ∙ ap (λ (b : Bool). b || (member n (a ∷ l) && is_known arch n))
                  (member-set_of n kept ∙ member-eq-count n kept ∙ ap (ltb 0) (count-kept n)))

  abbrev allowed : List String
  allowed = if is_empty allow_list then kept else (add_whitelist order arch allow_list kept).0

  profile_names-IsSorted : IsSorted (profile_names order arch blacklist allow_list ss)
  unfolding profile_names
  profile_names-IsSorted = sort_texts-IsSorted allowed

  positive_bit : (b : Bool) → ltb 0 (bit b) ≡ b
  positive_bit true = refl
  positive_bit false = refl

  positive-profile_count :
      (n : String)
      → ltb 0 (profile_count n) ≡ (ltb 0 (kept_count n) || (member n allow_list && is_known arch n))
  unfolding member
  positive-profile_count n = by_list allow_list
    where
      or_false : (b : Bool) → b ≡ (b || false)
      or_false true = refl
      or_false false = refl

      by_list :
          (l : List String)
          → ltb 0 (
              if is_empty l
              then kept_count n
              else bit (ltb 0 (kept_count n) || (member n l && is_known arch n)))
            ≡ (ltb 0 (kept_count n) || (member n l && is_known arch n))
      by_list [] = or_false (ltb 0 (kept_count n))
      by_list (a ∷ l) = positive_bit (ltb 0 (kept_count n) || (member n (a ∷ l) && is_known arch n))

-- The profile does not depend on the orders in which Go ranges over the maps.
pub profile_names_fair :
    (order order' : Ranges) (arch : Info) (blacklist allow_list : List String) (ss : List Syscall)
    → IsFair order
    → IsFair order'
    → profile_names order arch blacklist allow_list ss
      ≡ profile_names order' arch blacklist allow_list ss
unfolding profile_names
profile_names_fair order order' arch blacklist allow_list ss fair fair' =
    sorted_unique _ _ (profile_names-IsSorted order fair arch blacklist allow_list ss)
      (profile_names-IsSorted order' fair' arch blacklist allow_list ss)
      (λ n.
        count-profile_names order fair arch blacklist allow_list ss n
        ∙ sym (count-profile_names order' fair' arch blacklist allow_list ss n))

chosen : (c : ℕ) (b : Bool) → ltb 0 (if b then 0 else c) ≡ (ltb 0 c && not b)
chosen c b = ground arith

or_false : (b : Bool) → (b || false) ≡ b
or_false b = ground arith

-- A name is in the profile exactly if it is that of a system call found and not blacklisted, or it is on
-- the list of allowed names and the architecture has it. The names are sorted.
pub member-profile_names :
    (order : Ranges) (arch : Info) (blacklist allow_list : List String) (ss : List Syscall)
    → IsFair order
    → All (IsNamed arch) ss
    → IsSorted (profile_names order arch blacklist allow_list ss)
      × ((n : String)
          → member n (profile_names order arch blacklist allow_list ss) ≡ (
              member n (names_of ss) && not (member n blacklist)
              || member n allow_list && is_known arch n))
unfolding member
member-profile_names order arch blacklist allow_list ss fair named = (
  profile_names-IsSorted order fair arch blacklist allow_list ss,
  λ n.
      member-eq-count n (profile_names order arch blacklist allow_list ss)
      ∙ ap (ltb 0) (count-profile_names order fair arch blacklist allow_list ss n)
      ∙ positive-profile_count order fair arch blacklist allow_list ss n
      ∙ ap (λ (b : Bool). b || (member n allow_list && is_known arch n))
          (chosen (count n (names_of (put_all ss []))) (member n blacklist)
            ∙ ap (λ (b : Bool). b && not (member n blacklist))
                (sym (member-eq-count n (names_of (put_all ss [])))
                  ∙ member-put_all arch n ss [] named tt
                  ∙ or_false (member n (names_of ss)))),
)
