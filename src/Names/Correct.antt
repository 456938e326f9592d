-- ===== src/Names/Correct.antt =====
-- Texts of actions and operations (filter.go), there and back.
use Prim.Native.Char.{Char}
use go_seccomp_bpf.Base.{
  ℕ, ◌≡◌, refl, ◌∙◌, subst, inl, inr, String, true, List, [], ◌∷◌, All, str_eq, eq_iff, ◌==◌,
  ==_iff, Bool-cases, ok,
}
use go_seccomp_bpf.Text.{to_lower}
use go_seccomp_bpf.Filter.{
  Operation, equal, not_equal, greater_than, less_than, greater_or_equal, less_or_equal, bits_set,
  bits_not_set, other,
}
use go_seccomp_bpf.Policy.{action_names, is_named_action}
use go_seccomp_bpf.Decision.{IsKnown}
use go_seccomp_bpf.Names.{
  find_action, unpack_action, name_in, action_string, operation_text, operations, find_operation,
  unpack_operation,
}

-- What holds for the actions of a table holds for each that is found in it.
named-All {κ} :
    (P : ℕ → Type κ) (m : List (ℕ × String)) (a : ℕ)
    → All (λ (e : ℕ × String). P e.0) m
    → is_named_action a m ≡ true
    → P a
unfolding is_named_action
named-All P [] a h n = cc
named-All P ((k, s) ∷ m) a h n = elim (Bool-cases (k == a)) [
  | inl y ↦ subst P ((==_iff k a).0 y) h.0
  | inr f ↦ named-All P m a h.1 (rw f at n)
]

-- The text of an action that has a name is read back as this action.
pub unpack_action-action_string :
    (lower : Char → Char) (a : ℕ)
    → is_named_action a action_names ≡ true
    → unpack_action lower (action_string a) ≡ ok a
unfolding unpack_action find_action action_string name_in to_lower
unpack_action-action_string lower a n =
    named-All (λ b. unpack_action lower (action_string b) ≡ ok b) action_names a
      (refl, (refl, (refl, (refl, (refl, (refl, (refl, tt))))))) n

found_action :
    (s : String) (a : ℕ) (m : List (ℕ × String))
    → All
        (λ (e : ℕ × String). (is_named_action e.0 action_names ≡ true) × (action_string e.0 ≡ e.1))
        m
    → find_action s m ≡ ok a
    → (is_named_action a action_names ≡ true) × (action_string a ≡ s)
unfolding find_action
found_action s a [] w h = cc
found_action s a ((k, name) ∷ m) w h = elim (Bool-cases (str_eq name s)) [
  | inl y ↦
      let same : ok k ≡ ok a = rw y at h in
      let it : k ≡ a = cc in
      subst (λ b. (is_named_action b action_names ≡ true) × (action_string b ≡ s)) it
        (w.0.0, w.0.1 ∙ (eq_iff name s).0 y)
  | inr n ↦ found_action s a m w.1 (rw n at h)
]

-- An action that is read from a text has a name, so that it is a valid default action, and its name is
-- the text in lower case.
pub unpack_action_lem :
    (lower : Char → Char) (s : String) (a : ℕ)
    → unpack_action lower s ≡ ok a
    → (is_named_action a action_names ≡ true) × (action_string a ≡ to_lower lower s)
unfolding unpack_action is_named_action action_string name_in
unpack_action_lem lower s a h =
    found_action (to_lower lower s) a action_names
      (
        (refl, refl),
        (
          (refl, refl),
          ((refl, refl), ((refl, refl), ((refl, refl), ((refl, refl), ((refl, refl), tt))))),
        ),
      )
      h

found_operation :
    (lower : Char → Char) (s : String) (op : Operation) (ops : List Operation)
    → All IsKnown ops
    → find_operation lower s ops ≡ ok op
    → IsKnown op × (to_lower lower (operation_text op) ≡ s)
unfolding find_operation
found_operation lower s op [] w h = cc
found_operation lower s op (o ∷ ops) w h =
    elim (Bool-cases (str_eq (to_lower lower (operation_text o)) s)) [
      | inl y ↦
          let same : ok o ≡ ok op = rw y at h in
          let it : o ≡ op = cc in
          subst (λ o'. IsKnown o' × (to_lower lower (operation_text o') ≡ s)) it
            (w.0, (eq_iff _ s).0 y)
      | inr n ↦ found_operation lower s op ops w.1 (rw n at h)
    ]

-- An operation that is read from a text is one of the eight constants, the one whose text agrees with it
-- up to case.
pub unpack_operation_lem :
    (lower : Char → Char) (s : String) (op : Operation)
    → unpack_operation lower s ≡ ok op
    → IsKnown op × (to_lower lower (operation_text op) ≡ to_lower lower s)
unfolding unpack_operation
unpack_operation_lem lower s op h =
    found_operation lower (to_lower lower s) op operations
      (tt, (tt, (tt, (tt, (tt, (tt, (tt, (tt, tt)))))))) h

-- The text of each of the eight constants, in any mixture of cases, is read back as this constant.
pub unpack_operation-operation_text :
    (lower : Char → Char) (op : Operation) (s : String)
    → IsKnown op
    → to_lower lower s ≡ to_lower lower (operation_text op)
    → unpack_operation lower s ≡ ok op
unfolding unpack_operation find_operation operation_text to_lower
unpack_operation-operation_text lower op s k h = rw h (known op k)
  where
    known :
        (op : Operation)
        → IsKnown op
        → find_operation lower (to_lower lower (operation_text op)) operations ≡ ok op
    known equal k = refl
    known not_equal k = refl
    known greater_than k = refl
    known less_than k = refl
    known greater_or_equal k = refl
    known less_or_equal k = refl
    known bits_set k = refl
    known bits_not_set k = refl
    known (other name) k = elim k [ ]
