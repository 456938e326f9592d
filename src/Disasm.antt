-- ===== src/Disasm.antt =====
-- cmd/seccomp-profiler/disasm/disasm.go: the system calls in the output of `go tool objdump`. The
-- file is what bufio.Scanner gives of it: its lines, and whether the scan ends with an error.
pub mod Patterns
pub mod Modular
pub mod Matches
pub mod Longest
pub mod Leftmost
pub mod Known
pub mod Sound
pub mod Total
use go_seccomp_bpf.Base.{
  ℕ, ◌-◌, String, Bool, true, false, not, ◌&&◌, ◌||◌, List, [], ◌∷◌, ◌++◌, Option, none, some, ◌==◌,
  if◌then◌else◌, length, get_elem?, drop, ℤ, pos, negsuc,
}
use go_seccomp_bpf.Arch.{Info, name_of, x86_64, i386}
use go_seccomp_bpf.Text.Search.{
  cut_prefix, has_prefix, contains, fields, trim_space, join, is_blank,
}
use go_seccomp_bpf.Text.Numbers.{parse_int}
use Patterns.{Pattern, syscall_pattern, raw_syscall_pattern, find_submatch}

pub record Syscall : Type 0 where
  pub num : ℤ
  pub name : String
  pub caller : String
  pub function : String
  pub location : String
  pub assembly : String

-- Both parsers of the source have `parseX86_64` as their field `parse`.
pub record Parser : Type 0 where
  pub info : Info
  pub call_op : String
  pub raw_syscall_instructions : List String

unfoldable pub x86_64_parser : Parser
x86_64_parser = record {
  info = x86_64;
  call_op = "CALL";
  raw_syscall_instructions = "SYSCALL" ∷ [];
}

unfoldable pub i386_parser : Parser
i386_parser = record {
  info = i386;
  call_op = "CALL";
  raw_syscall_instructions = "INT $0x80" ∷ "SYSENTER" ∷ [];
}

-- The errors of `findSyscallNum`.
pub data NumberError : Type 0 where
  bad_number : String → NumberError
  no_instruction : NumberError

-- What `parseX86_64` returns. `failed` holds the line that its error quotes; `panicked` is an index
-- out of range.
pub data Parsed : Type 0 where
  not_syscall : Parsed
  found : Syscall → Parsed
  failed : String → NumberError → Parsed
  panicked : Parsed

unfoldable pub contains_any : String → List String → Bool
contains_any line [] = false
contains_any line (s ∷ ss) = contains line s || contains_any line ss

unfoldable pub is_raw_syscall : Parser → String → Bool
unfolding contains_any
is_raw_syscall p line = contains_any line p.raw_syscall_instructions

unfoldable pub is_function_call : Parser → String → Bool
is_function_call p line = contains line p.call_op

-- `isSyscallFunction`, its disjunction as a list.
unfoldable pub is_syscall_function : String → Bool
unfolding contains_any
is_syscall_function function = contains_any function (
    "syscall.Syscall(SB)" ∷ "syscall.Syscall6(SB)" ∷ "syscall.rawVforkSyscall(SB)"
    ∷ "syscall.RawSyscall(SB)" ∷ "syscall.RawSyscall6(SB)" ∷ "unix.RawSyscall(SB)"
    ∷ "unix.RawSyscall6(SB)" ∷ "unix.RawSyscallNoError(SB)" ∷ "unix.Syscall(SB)"
    ∷ "unix.Syscall6(SB)" ∷ "unix.Syscall9(SB)" ∷ "unix.SyscallNoError(SB)" ∷ [])

-- What `findSyscallNum` sets, or its error.
pub data Number : Type 0 where
  number : (num : ℤ) (assembly : String) → Number
  error : NumberError → Number

abbrev pub number_of_match : (whole sub : String) → Number
number_of_match whole sub = elim (parse_int sub) [
  | none ↦ error (bad_number sub)
  | some n ↦ number n whole
]

-- `findSyscallNum` with one matcher. The instructions are the stack of `Parse`, the last one first.
unfoldable pub find_syscall_num : List String → Pattern → Number
find_syscall_num [] m = error no_instruction
find_syscall_num (line ∷ earlier) m = elim (find_submatch m line) [
  | none ↦ find_syscall_num earlier m
  | some (whole, sub) ↦ number_of_match whole sub
]

-- `lastInstruction`, the one in front of the current line, or the empty string.
abbrev pub last_instruction : List String → String
last_instruction [] = ""
last_instruction (line ∷ []) = ""
last_instruction (line ∷ previous ∷ earlier) = previous

-- The end of `parseX86_64`: the location, the function, and the number or its error. `fields[0]` and
-- `fields[3:]` come first, and panic if the line has fewer fields.
abbrev pub with_number : (fields : List String) → (line : String) → Number → Parsed
with_number (location ∷ address ∷ bytes ∷ rest) line (number num assembly) = found (record {
  num = num;
  name = "";
  caller = "";
  function = join rest " ";
  location = location;
  assembly = assembly;
})
with_number (location ∷ address ∷ bytes ∷ rest) line (error e) = failed (trim_space line) e
with_number _ line n = panicked

-- `parseX86_64`
unfoldable pub parse_x86_64 :
    Parser → (line caller : String) → (instructions : List String) → Parsed
unfolding is_raw_syscall is_function_call is_syscall_function find_syscall_num fields
parse_x86_64 p line caller instructions =
    if is_raw_syscall p line && not (is_syscall_function caller)
    then (if contains (last_instruction instructions) "XORL AX, AX"
        then with_number (fields line) line (number (pos 0) "XORL AX, AX")
        else with_number (fields line) line (find_syscall_num instructions raw_syscall_pattern))
    else (if is_function_call p line && is_syscall_function line
        then with_number (fields line) line (find_syscall_num instructions syscall_pattern)
        else not_syscall)

-- The lines that `Parse` prints to standard error.
pub data Warning : Type 0 where
  extraction : String → NumberError → Warning
  unknown_number : Syscall → Warning

-- The variables of the loop; `instructions` has the last line first.
pub record State : Type 0 where
  pub function : String
  pub instructions : List String
  pub syscalls : List Syscall
  pub warnings : List Warning

abbrev pub start : State
start = record { function = ""; instructions = []; syscalls = []; warnings = [] }

abbrev pub name_of_num : ℤ → List (ℕ × String) → Option String
name_of_num (pos n) m = name_of n m
name_of_num (negsuc n) m = none

-- The end of the loop's body, for a system call that the line makes.
unfoldable pub record_syscall : Parser → Syscall → State → State
record_syscall p s st = elim (name_of_num s.num p.info.syscall_numbers) [
  | none ↦ record st { instructions = []; warnings = st.warnings ++ unknown_number s ∷ [] }
  | some name ↦ record st {
    instructions = [];
    syscalls = st.syscalls ++ record s { caller = st.function; name = name } ∷ [];
  }
]

-- `line[5:]`, which panics if the line is shorter.
abbrev pub behind_marker : String → Option String
behind_marker line = elim (cut_prefix "TEXT" line) [
  | some (String.◌∷◌ c rest) ↦ some rest
  | _ ↦ none
]

-- The body for a line that starts no function, already on the stack of instructions.
abbrev pub handle : Parser → State → Parsed → Option State
handle p st not_syscall = some st
handle p st (found s) = some (record_syscall p s st)
handle p st (failed line e) = some (record st { warnings = st.warnings ++ extraction line e ∷ [] })
handle p st panicked = none

-- The body of the loop of `Parse`; `none` is a panic.
unfoldable pub step : Parser → State → String → Option State
unfolding record_syscall parse_x86_64
step p st line =
    if has_prefix line "TEXT"
    then elim (behind_marker line) [
      | none ↦ none
      | some function ↦ some (record st { function = function; instructions = [] })
    ]
    else (let pushed = record st { instructions = line ∷ st.instructions } in
        handle p pushed (parse_x86_64 p line st.function pushed.instructions))

unfoldable pub run : Parser → State → List String → Option State
unfolding step
run p st [] = some st
run p st (line ∷ lines) = elim (step p st line) [ none ↦ none | some st' ↦ run p st' lines ]

-- What `os.Open` and the scan give: no file, or its lines and whether `s.Err()` is nil.
pub data File : Type 0 where
  no_file : File
  scanned : (lines : List String) → (complete : Bool) → File

-- What `Parse` returns and prints.
pub data Outcome : Type 0 where
  unreadable : Outcome
  unsupported : String → Outcome
  returned : List Syscall → List Warning → Outcome
  panic : Outcome

-- The end of `Parse`, behind the loop.
abbrev pub outcome : (complete : Bool) → Option State → Outcome
outcome complete none = panic
outcome true (some st) = returned st.syscalls st.warnings
outcome false (some st) = returned [] st.warnings

-- `parser.Parse`. Behind an incomplete scan it returns `err` of `os.Open`, which is nil here, and no
-- system calls.
unfoldable pub parse : Parser → File → Outcome
unfolding run
parse p no_file = unreadable
parse p (scanned lines complete) = outcome complete (run p start lines)

-- `ExtractSyscalls`
unfoldable pub extract_syscalls : Info → File → Outcome
unfolding parse x86_64_parser i386_parser
extract_syscalls arch file =
    if arch.id == i386_parser.info.id
    then parse i386_parser file
    else (if arch.id == x86_64_parser.info.id
        then parse x86_64_parser file
        else unsupported arch.name)
