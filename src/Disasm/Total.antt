-- ===== src/Disasm/Total.antt =====
-- On which lines `Parse` (disasm.go) does not panic, and what it does of an incomplete scan.
use go_seccomp_bpf.Base.{
  ◌≤◌, ◌≡◌, ◌≢◌, refl, inl, inr, String, Bool, true, false, not, List, [], ◌∷◌, none, some, All,
  Option-cases, Bool-cases, length, arith, ◌&&◌, ◌||◌,
}
use go_seccomp_bpf.Text.Search.{has_prefix, fields, contains}
use go_seccomp_bpf.Disasm.{
  Parser, Syscall, Warning, Number, number, error, with_number, Parsed, not_syscall, found, failed,
  panicked, parse_x86_64, is_raw_syscall, is_function_call, is_syscall_function, last_instruction,
  State, start, handle, behind_marker, step, run, scanned, returned, parse,
}

-- The line has an instruction that calls the system, or calls a function that does.
abbrev pub may_call : Parser → String → Bool
may_call p line = is_raw_syscall p line || is_function_call p line && is_syscall_function line

-- A line that starts a function has a character behind the marker, and any other that may call the
-- system has a location, an address and the bytes of an instruction.
pub record IsReadable (p : Parser) (line : String) : Type 0 where
  pub marker : has_prefix line "TEXT" ≡ true → behind_marker line ≢ none
  pub instruction :
      has_prefix line "TEXT" ≡ false → may_call p line ≡ true → 3 ≤ length (fields line)

with_number-ne-panicked :
    (fs : List String) (line : String) (n : Number)
    → 3 ≤ length fs
    → with_number fs line n ≢ panicked
with_number-ne-panicked [] line n h = absurd (omega arith)
with_number-ne-panicked (a ∷ []) line n h = absurd (omega arith)
with_number-ne-panicked (a ∷ b ∷ []) line n h = absurd (omega arith)
with_number-ne-panicked (a ∷ b ∷ c ∷ rest) line (number num assembly) h = λ same. cc
with_number-ne-panicked (a ∷ b ∷ c ∷ rest) line (error e) h = λ same. cc

raw_calls : (a b c : Bool) → (a && b) ≡ true → (a || c) ≡ true
raw_calls a b c h = ground arith

function_calls : (a c : Bool) → c ≡ true → (a || c) ≡ true
function_calls a c h = ground arith

parse_x86_64-ne-panicked :
    (p : Parser) (line caller : String) (instructions : List String)
    → (may_call p line ≡ true → 3 ≤ length (fields line))
    → parse_x86_64 p line caller instructions ≢ panicked
unfolding parse_x86_64
parse_x86_64-ne-panicked p line caller instructions h =
    let raws = is_raw_syscall p line in
    let calls = is_function_call p line && is_syscall_function line in
    elim (Bool-cases (raws && not (is_syscall_function caller))) [
      | inl raw ↦
          let enough = h (raw_calls raws (not (is_syscall_function caller)) calls raw) in
          elim (Bool-cases (contains (last_instruction instructions) "XORL AX, AX")) [
            | inl y ↦ rw raw (rw y (with_number-ne-panicked (fields line) line _ enough))
            | inr n ↦ rw raw (rw n (with_number-ne-panicked (fields line) line _ enough))
          ]
      | inr call ↦ elim (Bool-cases calls) [
        | inl y ↦
            rw call (
              rw y (with_number-ne-panicked (fields line) line _ (h (function_calls raws calls y))))
        | inr n ↦ rw call (rw n (λ same. cc))
      ]
    ]

handle_total :
    (p : Parser) (st : State) (r : Parsed)
    → r ≢ panicked
    → (st' : State) × (handle p st r ≡ some st')
handle_total p st not_syscall h = (_, refl)
handle_total p st (found s) h = (_, refl)
handle_total p st (failed line e) h = (_, refl)
handle_total p st panicked h = absurd (h refl)

step_total :
    (p : Parser) (st : State) (line : String)
    → IsReadable p line
    → (st' : State) × (step p st line ≡ some st')
unfolding step
step_total p st line h = elim (Bool-cases (has_prefix line "TEXT")) [
  | inl y ↦ elim (Option-cases (behind_marker line)) [
    | inl e ↦ absurd (h.marker y e)
    | inr (f, e) ↦ (record st { function = f; instructions = [] }, rw (y, step) (rw (e, step)))
  ]
  | inr n ↦
      let (st', e) =
        handle_total p (record st { instructions = line ∷ st.instructions })
          (parse_x86_64 p line st.function (line ∷ st.instructions))
          (parse_x86_64-ne-panicked p line st.function (line ∷ st.instructions)
            (h.instruction n)) in
      (st', rw (n, step) e)
]

run_total :
    (p : Parser) (lines : List String) (st : State)
    → All (IsReadable p) lines
    → (st' : State) × (run p st lines ≡ some st')
unfolding run
run_total p [] st h = (st, refl)
run_total p (line ∷ lines) st h =
    let (next, e) = step_total p st line h.0 in
    let (st', e') = run_total p lines next h.1 in (st', rw (e, run) e')

-- On lines of which none is a bare marker, and of which those that may call the system have three fields,
-- `Parse` returns. If the scan of the file breaks off behind them, it returns no system calls where it
-- has found some, and still no error.
pub parse_total :
    (p : Parser) (lines : List String)
    → All (IsReadable p) lines
    → (ss : List Syscall) × (ws : List Warning) × (parse p (scanned lines true) ≡ returned ss ws)
      × (parse p (scanned lines false) ≡ returned [] ws)
unfolding parse
parse_total p lines h =
    let (st, e) = run_total p lines start h in
    (st.syscalls, st.warnings, rw (e, parse), rw (e, parse))
