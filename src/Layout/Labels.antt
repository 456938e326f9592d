-- ===== src/Layout/Labels.antt =====
-- New labels, and the setting of labels, keep a program well-formed (assembler.go).
use go_seccomp_bpf.Base.{
  ℕ, suc, ◌≤◌, ◌<◌, ◌≡◌, ◌≢◌, refl, sym, ◌⊎◌, inl, inr, List, [], ◌∷◌, ◌++◌, length, All, In, ◌==◌,
  ==_iff, ==_ne, Bool-cases, arith, ap, ◌∙◌,
}
use go_seccomp_bpf.Bpf.{JumpTest}
use go_seccomp_bpf.Assembler.{
  Label, Index, Program, current_index, new_label, set_label, jmp_if_true, update,
}
use go_seccomp_bpf.Symbolic.{jmp_if_true_lem}
use go_seccomp_bpf.Layout.{HasEnd, IsFar, IsLaidOut, HasTail}
use go_seccomp_bpf.Layout.Operations.{All-map, All-both, IsLaidOut-jmp_if, HasTail-jmp_if}

-- A new label is none of those that were open.
not-In-next :
    (o : List Label) (n : ℕ) (labels : Label → List Index)
    → All (λ l. (l ≤ n) × (labels l ≡ [])) o
    → ¬ (In (suc n) o)
not-In-next [] n labels h i = i
not-In-next (l ∷ o) n labels h (inl e) = absurd (omega (arith, h.0.0))
not-In-next (l ∷ o) n labels h (inr i) = not-In-next o n labels h.1 i

pub new_label-not_open : (o : List Label) (p : Program) → IsLaidOut o p → ¬ (In (new_label p).1 o)
unfolding new_label
new_label-not_open o p v = not-In-next o p.next_label p.labels v.opens

-- A further label is open.
module _ (labels : Label → List Index) (o : List Label) (n i : ℕ) where
  HasEnd-open : (len l : ℕ) → HasEnd labels len o i l → HasEnd labels len (n ∷ o) i l
  HasEnd-open len l (inl e) = inl (inr e)
  HasEnd-open len l (inr s) = inr s

  IsFar-open : (l : ℕ) → IsFar labels o i l → IsFar labels (n ∷ o) i l
  IsFar-open l (inl e) = inl (inr e)
  IsFar-open l (inr s) = inr s

  useful-open :
      (l m : ℕ)
      → IsFar labels o i l ⊎ IsFar labels o i m
      → IsFar labels (n ∷ o) i l ⊎ IsFar labels (n ∷ o) i m
  useful-open l m (inl h) = inl (IsFar-open l h)
  useful-open l m (inr h) = inr (IsFar-open m h)

pub IsLaidOut-new_label :
    (o : List Label) (p : Program) → IsLaidOut o p → IsLaidOut ((new_label p).1 ∷ o) (new_label p).0
unfolding new_label
IsLaidOut-new_label o p v = record {
  fresh = λ l h. v.fresh l (omega arith);
  single = v.single;
  opens = (
    (omega arith, v.fresh (suc p.next_label) (omega arith)),
    All-map o (λ l h. (omega (arith, h.0), h.1)) v.opens,
  );
  jumps =
      All-map p.jumps
        (λ j g. record {
          inside = g.inside;
          branch = g.branch;
          true_end = HasEnd-open p.labels o _ j.index _ j.true_label g.true_end;
          false_end = HasEnd-open p.labels o _ j.index _ j.false_label g.false_end;
          useful = useful-open p.labels o _ j.index j.true_label j.false_label g.useful;
        })
        v.jumps;
  increasing = v.increasing;
}

update_self : (labels : Label → List Index) (l : Label) (s : List Index) → update labels l s l ≡ s
update_self labels l s = rw ((==_iff l l).1 refl)

update_ne :
    (labels : Label → List Index) (l m : Label) (s : List Index)
    → m ≢ l
    → update labels l s m ≡ labels m
update_ne labels l m s h = rw (==_ne m l h)

-- The labels of a program in which `l`, which was open, is set at `len`.
module _ (labels : Label → List Index) (l : Label) (len : ℕ) (unset : labels l ≡ []) where
  abbrev placed : Label → List Index
  placed = update labels l (labels l ++ len ∷ [])

  placed_self : placed l ≡ len ∷ []
  placed_self = update_self labels l (labels l ++ len ∷ []) ∙ ap (λ s. s ++ len ∷ []) unset

  placed_ne : (m k : ℕ) → labels m ≡ k ∷ [] → placed m ≡ k ∷ []
  placed_ne m k e =
      update_ne labels l m (labels l ++ len ∷ []) (λ same. absurd (cc (ap labels same))) ∙ e

  HasEnd-set :
      (o : List Label) (i m : ℕ) → i < len → HasEnd labels len (l ∷ o) i m → HasEnd placed len o i m
  HasEnd-set o i m b (inl (inl e)) = inr (len, ap placed e ∙ placed_self, b, omega arith)
  HasEnd-set o i m b (inl (inr h)) = inl h
  HasEnd-set o i m b (inr (k, e, x, y)) = inr (k, placed_ne m k e, x, y)

  IsFar-set :
      (o : List Label) (i m : ℕ) → suc i < len → IsFar labels (l ∷ o) i m → IsFar placed o i m
  IsFar-set o i m b (inl (inl e)) = inr (len, ap placed e ∙ placed_self, b)
  IsFar-set o i m b (inl (inr h)) = inl h
  IsFar-set o i m b (inr (k, e, s)) = inr (k, placed_ne m k e, s)

  useful-set :
      (o : List Label) (i m n : ℕ)
      → (suc i < len) ⊎ In m o ⊎ In n o
      → IsFar labels (l ∷ o) i m ⊎ IsFar labels (l ∷ o) i n
      → IsFar placed o i m ⊎ IsFar placed o i n
  useful-set o i m n (inl b) (inl h) = inl (IsFar-set o i m b h)
  useful-set o i m n (inl b) (inr h) = inr (IsFar-set o i n b h)
  useful-set o i m n (inr (inl h)) u = inl (inl h)
  useful-set o i m n (inr (inr h)) u = inr (inl h)

  single-set :
      (m : ℕ)
      → (labels m ≡ []) ⊎ ((k : ℕ) × (labels m ≡ k ∷ []))
      → (placed m ≡ []) ⊎ ((k : ℕ) × (placed m ≡ k ∷ []))
  single-set m (inr (k, e)) = inr (k, placed_ne m k e)
  single-set m (inl e) = elim (Bool-cases (m == l)) [
    | inl t ↦ inr (len, ap placed ((==_iff m l).0 t) ∙ placed_self)
    | inr f ↦ inl (rw f e)
  ]

  opens-set :
      (o : List Label) (n : ℕ)
      → ¬ (In l o)
      → All (λ m. (m ≤ n) × (labels m ≡ [])) o
      → All (λ m. (m ≤ n) × (placed m ≡ [])) o
  opens-set [] n h a = tt
  opens-set (m ∷ o) n h a = (
    (a.0.0, update_ne labels l m _ (λ e. h (inl (sym e))) ∙ a.0.1),
    opens-set o n (λ i. h (inr i)) a.1,
  )

pub IsLaidOut-set_label :
    (o : List Label) (l : Label) (p : Program)
    → ¬ (In l o)
    → HasTail o p
    → IsLaidOut (l ∷ o) p
    → IsLaidOut o (set_label l p)
unfolding set_label current_index
IsLaidOut-set_label o l p h t v =
    let unset : p.labels l ≡ [] = v.opens.0.1 in
    let len = length p.instructions in
    record {
      fresh =
          λ m b. update_ne p.labels l m _ (λ e. absurd (omega (arith, v.opens.0.0))) ∙ v.fresh m b;
      single = λ m. single-set p.labels l len unset m (v.single m);
      opens = opens-set p.labels l len unset o p.next_label h v.opens.1;
      jumps =
          All-both p.jumps
            (λ j g u. record {
              inside = g.inside;
              branch = g.branch;
              true_end = HasEnd-set p.labels l len unset o _ _ g.inside g.true_end;
              false_end = HasEnd-set p.labels l len unset o _ _ g.inside g.false_end;
              useful = useful-set p.labels l len unset o _ _ _ u g.useful;
            })
            v.jumps t;
      increasing = v.increasing;
    }

-- The order of the open labels does not matter.
module _ (a b : ℕ) (o : List Label) where
  In-swap : (x : ℕ) → In x (a ∷ b ∷ o) → In x (b ∷ a ∷ o)
  In-swap x (inl e) = inr (inl e)
  In-swap x (inr (inl e)) = inl e
  In-swap x (inr (inr h)) = inr (inr h)

  IsFar-swap :
      (labels : Label → List Index) (i l : ℕ)
      → IsFar labels (a ∷ b ∷ o) i l
      → IsFar labels (b ∷ a ∷ o) i l
  IsFar-swap labels i l (inl h) = inl (In-swap l h)
  IsFar-swap labels i l (inr s) = inr s

  HasEnd-swap :
      (labels : Label → List Index) (len i l : ℕ)
      → HasEnd labels len (a ∷ b ∷ o) i l
      → HasEnd labels len (b ∷ a ∷ o) i l
  HasEnd-swap labels len i l (inl h) = inl (In-swap l h)
  HasEnd-swap labels len i l (inr s) = inr s

  useful-swap :
      (labels : Label → List Index) (i l m : ℕ)
      → IsFar labels (a ∷ b ∷ o) i l ⊎ IsFar labels (a ∷ b ∷ o) i m
      → IsFar labels (b ∷ a ∷ o) i l ⊎ IsFar labels (b ∷ a ∷ o) i m
  useful-swap labels i l m (inl h) = inl (IsFar-swap labels i l h)
  useful-swap labels i l m (inr h) = inr (IsFar-swap labels i m h)

  pub IsLaidOut-swap : (p : Program) → IsLaidOut (a ∷ b ∷ o) p → IsLaidOut (b ∷ a ∷ o) p
  IsLaidOut-swap p v = record {
    fresh = v.fresh;
    single = v.single;
    opens = (v.opens.1.0, (v.opens.0, v.opens.1.1));
    jumps =
        All-map p.jumps
          (λ j g. record {
            inside = g.inside;
            branch = g.branch;
            true_end = HasEnd-swap p.labels _ j.index j.true_label g.true_end;
            false_end = HasEnd-swap p.labels _ j.index j.false_label g.false_end;
            useful = useful-swap p.labels j.index j.true_label j.false_label g.useful;
          })
          v.jumps;
    increasing = v.increasing;
  }

pub IsLaidOut-jmp_if_true :
    (o : List Label) (c : JumpTest) (k : ℕ) (t : Label) (p : Program)
    → In t o
    → IsLaidOut o p
    → IsLaidOut o (jmp_if_true c k t p)
IsLaidOut-jmp_if_true o c k t p h v =
    let n = (new_label p).1 in
    let w = IsLaidOut-new_label o p v in
    rw (jmp_if_true_lem c k t p) (
      IsLaidOut-set_label o n _ (new_label-not_open o p v)
        (HasTail-jmp_if (n ∷ o) o c k t n _ w (inl h))
        (IsLaidOut-jmp_if (n ∷ o) c k t n _ (inr h) (inl refl) w))
