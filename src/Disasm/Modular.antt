-- ===== src/Disasm/Modular.antt =====
-- `Parse` (disasm.go) looks at one function of the disassembly at a time.
use mathlib.Core.List.{append_assoc, append-nil}
use go_seccomp_bpf.Base.{
  ◌≡◌, refl, sym, ◌∙◌, ap, ap₂, inl, inr, String, Bool, true, false, List, [], ◌∷◌, ◌++◌, Option,
  none, some, Bool-cases, Option-cases,
}
use go_seccomp_bpf.Text.Search.{has_prefix}
use go_seccomp_bpf.Disasm.{
  outcome, Parser, Syscall, Warning, State, Parsed, not_syscall, found, failed, panicked, start,
  name_of_num, extraction, unknown_number, record_syscall, handle, behind_marker, step, run,
  scanned, Outcome, returned, parse, parse_x86_64,
}

abbrev map_option {ℓ} : {A : Type ℓ} → (A → A) → Option A → Option A
map_option f none = none
map_option f (some a) = some (f a)

-- What is found behind what was found before.
abbrev behind : List Syscall → List Warning → State → State
behind ss ws st = record st { syscalls = ss ++ st.syscalls; warnings = ws ++ st.warnings }

module _ (p : Parser) (ss : List Syscall) (ws : List Warning) where
  record_syscall-behind :
      (s : Syscall) (st : State)
      → record_syscall p s (behind ss ws st) ≡ behind ss ws (record_syscall p s st)
  unfolding record_syscall
  record_syscall-behind s st = elim (Option-cases (name_of_num s.num p.info.syscall_numbers)) [
    | inl e ↦
        rw (e, record_syscall)
          (ap (λ l. record st { instructions = []; syscalls = ss ++ st.syscalls; warnings = l })
            (append_assoc ws st.warnings (unknown_number s ∷ [])))
    | inr (name, e) ↦
        rw (e, record_syscall)
          (ap (λ l. record st { instructions = []; syscalls = l; warnings = ws ++ st.warnings })
            (append_assoc ss st.syscalls (record s { caller = st.function; name = name } ∷ [])))
  ]

  handle-behind :
      (st : State) (r : Parsed)
      → handle p (behind ss ws st) r ≡ map_option (behind ss ws) (handle p st r)
  handle-behind st not_syscall = refl
  handle-behind st (found s) = ap some (record_syscall-behind s st)
  handle-behind st (failed line e) =
      ap (λ l. some (record st { syscalls = ss ++ st.syscalls; warnings = l }))
        (append_assoc ws st.warnings (extraction line e ∷ []))
  handle-behind st panicked = refl

  step-behind :
      (st : State) (line : String)
      → step p (behind ss ws st) line ≡ map_option (behind ss ws) (step p st line)
  unfolding step
  step-behind st line = elim (Bool-cases (has_prefix line "TEXT")) [
    | inl y ↦ rw y (marked (behind_marker line))
    | inr n ↦ rw n (
        handle-behind (record st { instructions = line ∷ st.instructions })
          (parse_x86_64 p line st.function (line ∷ st.instructions)))
  ]
    where
      marked :
          (o : Option String)
          → ◌≡◌ {A = Option State}
              (elim o [
                | none ↦ none
                | some f ↦ some (record (behind ss ws st) { function = f; instructions = [] })
              ])
              (map_option (behind ss ws) (elim o [
                | none ↦ none
                | some f ↦ some (record st { function = f; instructions = [] })
              ]))
      marked none = refl
      marked (some f) = refl

  run-behind :
      (lines : List String) (st : State)
      → run p (behind ss ws st) lines ≡ map_option (behind ss ws) (run p st lines)
  unfolding run
  run-behind [] st = refl
  run-behind (line ∷ lines) st = elim (Option-cases (step p st line)) [
    | inl e ↦ rw (step-behind st line, run) (rw (e, run))
    | inr (st', e) ↦ rw (step-behind st line, run) (rw (e, run) (run-behind lines st'))
  ]

-- One outcome after another: what both found, unless one of them panics.
abbrev pub both : Outcome → Outcome → Outcome
both (returned ss ws) (returned ss' ws') = returned (ss ++ ss') (ws ++ ws')
both (returned ss ws) o = o
both o o' = o

module _ (p : Parser) where
  -- A line that starts a function forgets what came before, but for what was found.
  step_marker :
      (st : State) (line : String)
      → has_prefix line "TEXT" ≡ true
      → step p st line
        ≡ step p (record start { syscalls = st.syscalls; warnings = st.warnings }) line
  unfolding step
  step_marker st line h = rw h refl

  run_marker :
      (st : State) (marker : String) (body : List String)
      → has_prefix marker "TEXT" ≡ true
      → run p st (marker ∷ body)
        ≡ map_option (behind st.syscalls st.warnings) (run p start (marker ∷ body))
  unfolding run
  run_marker st marker body h =
      let fresh : record start { syscalls = st.syscalls; warnings = st.warnings }
          ≡ behind st.syscalls st.warnings start =
        ap₂ (λ ss ws. record start { syscalls = ss; warnings = ws }) (sym (append-nil st.syscalls))
          (sym (append-nil st.warnings)) in
      rw (step_marker st marker h, run)
        (ap (λ (st' : State). run p st' (marker ∷ body)) fresh
          ∙ run-behind p st.syscalls st.warnings (marker ∷ body) start)

  run-append :
      (xs ys : List String) (st : State)
      → run p st (xs ++ ys) ≡ elim (run p st xs) [ none ↦ none | some st' ↦ run p st' ys ]
  unfolding run
  run-append [] ys st = refl
  run-append (x ∷ xs) ys st = elim (Option-cases (step p st x)) [
    | inl e ↦ rw (e, run)
    | inr (st', e) ↦ rw (e, run) (run-append xs ys st')
  ]

  -- A function of the disassembly is read as if nothing stood in front of it: the lines up to one that
  -- starts a function, and those from it on, can be parsed apart.
  pub parse-both :
      (earlier : List String) (marker : String) (body : List String) (complete : Bool)
      → has_prefix marker "TEXT" ≡ true
      → parse p (scanned (earlier ++ marker ∷ body) complete)
        ≡ both (parse p (scanned earlier complete)) (parse p (scanned (marker ∷ body) complete))
  unfolding parse
  parse-both earlier marker body complete h =
      rw (run-append earlier (marker ∷ body) start, parse)
        (elim (Option-cases (run p start earlier)) [
          | inl e ↦ rw (e, parse)
          | inr (st, e) ↦
              rw (e, parse)
                (rw (run_marker st marker body h, parse)
                  (last complete st (run p start (marker ∷ body))))
        ])
    where
      last :
          (c : Bool) (st : State) (o : Option State)
          → outcome c (map_option (behind st.syscalls st.warnings) o)
            ≡ both (outcome c (some st)) (outcome c o)
      last true st none = refl
      last false st none = refl
      last true st (some st') = refl
      last false st (some st') = refl
