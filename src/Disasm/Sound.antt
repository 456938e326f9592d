-- ===== src/Disasm/Sound.antt =====
-- Where the system calls that `Parse` returns come from (disasm.go).
use go_seccomp_bpf.Base.{
  ◌≡◌, refl, ◌∙◌, ap, subst, inl, inr, String, Bool, true, false, List, [], ◌∷◌, ◌++◌, Option, none,
  some, All, Option-cases, Bool-cases, sym,
}
use mathlib.Core.List.{append_assoc}
use go_seccomp_bpf.Layout.Operations.{All-snoc}
use go_seccomp_bpf.Text.Search.{has_prefix}
use go_seccomp_bpf.Disasm.{
  Parser, Syscall, Warning, extraction, Parsed, not_syscall, found, failed, panicked, parse_x86_64,
  State, start, name_of_num, record_syscall, handle, behind_marker, step, run, scanned, Outcome,
  returned, outcome, parse,
}
use go_seccomp_bpf.Disasm.Known.{IsKnownBy, parse_x86_64-IsKnownBy}

-- The lines of a stack, the last one first, in front of the rest of a file.
abbrev pub stacked : List String → List String → List String
stacked [] rest = rest
stacked (i ∷ is) rest = stacked is (i ∷ rest)

stacked-append : (is rest : List String) → (b : List String) × (stacked is rest ≡ b ++ rest)
stacked-append [] rest = ([], refl)
stacked-append (i ∷ is) rest =
    let (b, e) = stacked-append is (i ∷ rest) in
    (b ++ i ∷ [], e ∙ sym (append_assoc b (i ∷ []) rest))

-- The stack is a stretch of the file that ends in front of the rest and in which no function starts.
pub record IsWindow (lines instructions rest : List String) : Type 0 where
  pub before : List String
  pub splits : lines ≡ before ++ stacked instructions rest
  pub unmarked : All (λ l. has_prefix l "TEXT" ≡ false) instructions

IsWindow-cleared :
    (lines instructions rest : List String)
    → IsWindow lines instructions rest
    → IsWindow lines [] rest
IsWindow-cleared lines instructions rest w =
    let (b, e) = stacked-append instructions rest in
    record {
      before = w.before ++ b;
      splits = w.splits ∙ ap (◌++◌ w.before) e ∙ sym (append_assoc w.before b rest);
      unmarked = tt;
    }

-- A system call with the name of its number, and the stretch of the file that makes it known.
pub record IsFound (p : Parser) (lines : List String) (s : Syscall) : Type 0 where
  pub named : name_of_num s.num p.info.syscall_numbers ≡ some s.name
  pub instructions : List String
  pub rest : List String
  pub window : IsWindow lines instructions rest
  pub known : IsKnownBy p s.caller instructions s.num s.assembly

record IsSound (p : Parser) (lines rest : List String) (st : State) : Type 0 where
  window : IsWindow lines st.instructions rest
  sound : All (IsFound p lines) st.syscalls

module _ (p : Parser) (lines rest : List String) where
  record_syscall-IsSound :
      (s : Syscall) (st : State)
      → IsKnownBy p st.function st.instructions s.num s.assembly
      → IsSound p lines rest st
      → IsSound p lines rest (record_syscall p s st)
  unfolding record_syscall
  record_syscall-IsSound s st k w =
      let cleared = IsWindow-cleared lines st.instructions rest w.window in
      elim (Option-cases (name_of_num s.num p.info.syscall_numbers)) [
        | inl e ↦ rw (e, record_syscall) (record { window = cleared; sound = w.sound })
        | inr (name, e) ↦
            rw (e, record_syscall)
              (record {
                window = cleared;
                sound = All-snoc (IsFound p lines) st.syscalls _ w.sound (record {
                  named = e;
                  instructions = st.instructions;
                  rest = rest;
                  window = w.window;
                  known = k;
                });
              })
      ]

  handle-IsSound :
      (st : State) (r : Parsed) (st' : State)
      → ((s : Syscall) → r ≡ found s → IsKnownBy p st.function st.instructions s.num s.assembly)
      → IsSound p lines rest st
      → handle p st r ≡ some st'
      → IsSound p lines rest st'
  handle-IsSound st not_syscall st' k w h =
      let same : st ≡ st' = cc in subst (IsSound p lines rest) same w
  handle-IsSound st (found s) st' k w h =
      let same : record_syscall p s st ≡ st' = cc in
      subst (IsSound p lines rest) same (record_syscall-IsSound s st (k s refl) w)
  handle-IsSound st (failed line e) st' k w h =
      let same : record st { warnings = st.warnings ++ extraction line e ∷ [] } ≡ st' = cc in
      subst (IsSound p lines rest) same (record { window = w.window; sound = w.sound })
  handle-IsSound st panicked st' k w h = cc

  step-IsSound :
      (st : State) (line : String) (st' : State)
      → IsSound p lines (line ∷ rest) st
      → step p st line ≡ some st'
      → IsSound p lines rest st'
  unfolding step
  step-IsSound st line st' w h = elim (Bool-cases (has_prefix line "TEXT")) [
    | inl y ↦ marked (behind_marker line) (rw y at h)
    | inr n ↦
        handle-IsSound (record st { instructions = line ∷ st.instructions })
          (parse_x86_64 p line st.function (line ∷ st.instructions)) st'
          (λ s e. parse_x86_64-IsKnownBy p line st.function st.instructions s e)
          (record {
            window = record {
              before = w.window.before;
              splits = w.window.splits;
              unmarked = (n, w.window.unmarked);
            };
            sound = w.sound;
          })
          (rw n at h)
  ]
    where
      marked :
          (o : Option String)
          → ◌≡◌ {A = Option State}
              (elim o [
                | none ↦ none
                | some f ↦ some (record st { function = f; instructions = [] })
              ])
              (some st')
          → IsSound p lines rest st'
      marked none g = cc
      marked (some f) g =
          let same : record st { function = f; instructions = [] } ≡ st' = cc in
          let cleared = IsWindow-cleared lines st.instructions (line ∷ rest) w.window in
          subst (IsSound p lines rest) same (record {
            window = record {
              before = cleared.before ++ line ∷ [];
              splits = cleared.splits ∙ sym (append_assoc cleared.before (line ∷ []) rest);
              unmarked = tt;
            };
            sound = w.sound;
          })

run-IsSound :
    (p : Parser) (lines ls : List String) (st st' : State)
    → IsSound p lines ls st
    → run p st ls ≡ some st'
    → IsSound p lines [] st'
unfolding run
run-IsSound p lines [] st st' w h = let same : st ≡ st' = cc in subst (IsSound p lines []) same w
run-IsSound p lines (l ∷ ls) st st' w h = elim (Option-cases (step p st l)) [
  | inl e ↦ let never : none ≡ some st' = rw (e, run) at h in cc
  | inr (next, e) ↦
      run-IsSound p lines ls next st' (step-IsSound p lines ls st l next w e) (rw (e, run) at h)
]

abbrev syscalls_of : Outcome → List Syscall
syscalls_of (returned ss ws) = ss
syscalls_of o = []

-- For every system call that `Parse` returns, the table of the architecture gives its number its name,
-- and there is a stretch of the file, in which no function starts, whose last line makes the call: a raw
-- instruction outside the functions for system calls, or a call of one of these. Its number is the
-- operand of the last matching load of the stretch, or, for a raw instruction, zero if the line in front
-- of it clears the register.
pub parse-IsFound :
    (p : Parser) (lines : List String) (complete : Bool) (ss : List Syscall) (ws : List Warning)
    → parse p (scanned lines complete) ≡ returned ss ws
    → All (IsFound p lines) ss
unfolding parse
parse-IsFound p lines complete ss ws h =
    subst (All (IsFound p lines)) (ap syscalls_of h) (elim (Option-cases (run p start lines)) [
      | inl e ↦ rw (e, parse) tt
      | inr (st, e) ↦
          rw (e, parse)
            (last complete st
              (run-IsSound p lines lines start st
                (record {
                  window = record { before = []; splits = refl; unmarked = tt };
                  sound = tt;
                })
                e).sound)
    ])
  where
    last :
        (c : Bool) (st : State)
        → All (IsFound p lines) st.syscalls
        → All (IsFound p lines) (syscalls_of (outcome c (some st)))
    last true st w = w
    last false st w = tt
