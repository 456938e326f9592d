-- ===== src/Tests/Disassembly.antt =====
-- A run of the parser of disasm.go, and its theorems at this run.
use go_seccomp_bpf.Base.{◌≡◌, refl, ◌++◌, String, true, false, List, [], ◌∷◌, All, pos, arith}
use go_seccomp_bpf.Text.Search.{has_prefix, fields, cut_prefix, contains, join}
use go_seccomp_bpf.Text.Numbers.{parse_int}
use go_seccomp_bpf.Arch.{name_of}
use go_seccomp_bpf.Disasm.{
  Parser, Syscall, Warning, is_raw_syscall, is_function_call, scanned, returned, parse,
}
use go_seccomp_bpf.Disasm.Patterns.{raw_syscall_pattern, find_submatch}
use go_seccomp_bpf.Disasm.Leftmost.{IsFirstMatch, find_submatch-IsSearched}
use go_seccomp_bpf.Disasm.Modular.{both, parse-both}
use go_seccomp_bpf.Disasm.Sound.{IsFound, parse-IsFound}
use go_seccomp_bpf.Disasm.Total.{IsReadable, parse_total}
use go_seccomp_bpf.Tests.{small_arch}

abbrev pub small_parser : Parser
small_parser = record {
  info = small_arch;
  call_op = "CALL";
  raw_syscall_instructions = "SYSCALL" ∷ [];
}

abbrev first_function : List String
first_function =
    "TEXT main.main(SB) main.go" ∷ "  main.go:10  0x401000  48c704  MOVQ $0x1, 0(SP)"
    ∷ "  main.go:11  0x401007  e8aa04  CALL syscall.Syscall(SB)" ∷ []

abbrev second_body : List String
second_body =
    "  other.go:3  0x401010  b83c00  MOVL $0x3c, AX" ∷ "  other.go:4  0x401015  0f05  SYSCALL" ∷ []

abbrev second_marker : String
second_marker = "TEXT main.other(SB) other.go"

abbrev pub dump : List String
dump = first_function ++ second_marker ∷ second_body

abbrev pub found_write : Syscall
found_write = record {
  num = pos 1;
  name = "write";
  caller = "main.main(SB) main.go";
  function = "CALL syscall.Syscall(SB)";
  location = "main.go:11";
  assembly = "MOVQ $0x1, 0(SP)";
}

abbrev pub found_exit : Syscall
found_exit = record {
  num = pos 60;
  name = "exit";
  caller = "main.other(SB) other.go";
  function = "SYSCALL";
  location = "other.go:4";
  assembly = "MOVL $0x3c, AX";
}

pub dump_parsed :
    parse small_parser (scanned dump true) ≡ returned (found_write ∷ found_exit ∷ []) []
unfolding parse has_prefix contains find_submatch parse_int name_of join
dump_parsed = refl

parse-both_example :
    parse small_parser (scanned (first_function ++ second_marker ∷ second_body) true)
    ≡ both
        (parse small_parser (scanned first_function true))
        (parse small_parser (scanned (second_marker ∷ second_body) true))
unfolding has_prefix
parse-both_example = parse-both small_parser first_function second_marker second_body true refl

parse-IsFound_example : All (IsFound small_parser dump) (found_write ∷ found_exit ∷ [])
parse-IsFound_example =
    parse-IsFound small_parser dump true (found_write ∷ found_exit ∷ []) [] dump_parsed

-- The line in front of the dump that has the hash of the binary.
abbrev hash_line : String
hash_line = "9f86d081884c7d659a2feaa0c55ad015a3bf4f1b2b0b822cd15d6c15b0f00a08"

hash_line-IsReadable : IsReadable small_parser hash_line
unfolding has_prefix contains is_raw_syscall is_function_call
hash_line-IsReadable = record { marker = λ h e. cc; instruction = λ h c. cc }

marker_line : IsReadable small_parser second_marker
unfolding has_prefix
marker_line = record { marker = λ h e. cc; instruction = λ h c. cc }

load_line : IsReadable small_parser "  other.go:3  0x401010  b83c00  MOVL $0x3c, AX"
unfolding has_prefix fields
load_line = record { marker = λ h e. cc; instruction = λ h c. omega arith }

call_line : IsReadable small_parser "  other.go:4  0x401015  0f05  SYSCALL"
unfolding has_prefix fields
call_line = record { marker = λ h e. cc; instruction = λ h c. omega arith }

parse_total_example :
    (ss : List Syscall) × (ws : List Warning) × (parse small_parser
        (scanned (hash_line ∷ second_marker ∷ second_body) true)
      ≡ returned ss ws)
    × (parse small_parser (scanned (hash_line ∷ second_marker ∷ second_body) false)
        ≡ returned [] ws)
parse_total_example =
    parse_total small_parser (hash_line ∷ second_marker ∷ second_body)
      (hash_line-IsReadable, (marker_line, (load_line, (call_line, tt))))

find_submatch-IsSearched_example :
    IsFirstMatch raw_syscall_pattern "  other.go:3  0x401010  b83c00  MOVL $0x3c, AX"
      "MOVL $0x3c, AX" "0x3c"
unfolding find_submatch cut_prefix
find_submatch-IsSearched_example =
    find_submatch-IsSearched raw_syscall_pattern "  other.go:3  0x401010  b83c00  MOVL $0x3c, AX"
