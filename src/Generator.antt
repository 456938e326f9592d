-- ===== src/Generator.antt =====
-- arch/mk_syscalls_linux.go: the tables of system calls, read from files of the Linux sources. What
-- the download of a file and the scanner give is a parameter, and so is sort.Slice.
pub mod Patterns
pub mod Lines
pub mod Builders
use Prim.Native.Char.{code}
use go_seccomp_bpf.Base.{
  ℕ, suc, ◌+◌, ◌-◌, ◌^◌, String, Bool, true, false, ◌&&◌, ◌||◌, List, [], ◌∷◌, ◌++◌, Option, none,
  some, str_eq, ltb, leb, ◌==◌, if◌then◌else◌, ℤ, pos, negsuc, sub_ℕ,
}
use go_seccomp_bpf.Text.Search.{append, cut_prefix, has_prefix, is_blank, fields, trim_space}
use go_seccomp_bpf.Text.Numbers.{atoi}
use Patterns.{arm_match, aarch64_match}

-- `Syscall`
pub record TableEntry : Type 0 where
  pub num : ℤ
  pub name : String

-- `Arch`
pub record ArchTable : Type 0 where
  pub name : String
  pub syscalls : List TableEntry

-- The errors of the closures that parse a line, with the line.
pub data LineError : Type 0 where
  unexpected_format bad_syscall_number : String → LineError

-- What such a closure returns: nil, an entry, or an error.
pub data Line : Type 0 where
  skipped : Line
  entry : TableEntry → Line
  refused : LineError → Line

abbrev pub entry_of : (line name : String) → Option ℤ → Line
entry_of line name none = refused (bad_syscall_number line)
entry_of line name (some num) = entry (record { num = num; name = name })

abbrev pub line_of_fields : (line : String) → (other_abi : String → Bool) → List String → Line
line_of_fields line other_abi (number ∷ abi ∷ name ∷ rest) =
    if other_abi abi then skipped else entry_of line name (atoi number)
line_of_fields line other_abi _ = refused (unexpected_format line)

-- A line of a file syscall.tbl. The closures of the builders differ in the ABI that they pass over.
unfoldable pub table_line : (other_abi : String → Bool) → String → Line
unfolding has_prefix fields atoi
table_line other_abi line =
    if is_blank line || has_prefix line "#"
    then skipped
    else line_of_fields line other_abi (fields line)

abbrev pub arm_nr_base : ℕ
arm_nr_base = 0x0f0000

-- `num += armNrBase`, on 64-bit integers.
abbrev pub add_base : ℤ → ℤ
add_base (pos n) =
    if ltb (n + arm_nr_base) (2 ^ 63)
    then pos (n + arm_nr_base)
    else negsuc (2 ^ 64 - (n + arm_nr_base) - 1)
add_base (negsuc n) = sub_ℕ arm_nr_base (suc n)

abbrev pub based : Option ℤ → Option ℤ
based none = none
based (some num) = some (add_base num)

-- The closure of `buildARM` for the private system calls.
unfoldable pub arm_line : String → Line
unfolding arm_match atoi
arm_line line = elim (arm_match line) [
  | none ↦ skipped
  | some (name, number) ↦ entry_of line name (based (atoi number))
]

-- The closure of `buildAARCH64`, with its sentinel and its only omission.
unfoldable pub aarch64_line : String → Line
unfolding aarch64_match atoi
aarch64_line line = elim (aarch64_match line) [
  | none ↦ skipped
  | some (name, number) ↦
      if str_eq name "syscalls" || str_eq name "sync_file_range2"
      then skipped
      else entry_of line name (atoi number)
]

-- A file of the sources: not downloaded or opened, or its lines, and whether the scan is complete.
pub data Source : Type 0 where
  unavailable : Source
  downloaded : (lines : List String) → (complete : Bool) → Source

-- What `readSyscalls` returns. Where the source returns entries with an error, its callers drop them.
pub data Read : Type 0 where
  entries : List TableEntry → Read
  not_downloaded scan_failed : Read
  bad_line : LineError → Read

-- An entry in front of those of the following lines.
abbrev pub put_first : TableEntry → Read → Read
put_first e (entries es) = entries (e ∷ es)
put_first e r = r

abbrev pub read_rest : Line → Read → Read
read_rest skipped r = r
read_rest (entry e) r = put_first e r
read_rest (refused e) r = bad_line e

-- The loop of `readSyscalls` over the lines.
unfoldable pub read_lines : (parse : String → Line) → (complete : Bool) → List String → Read
unfolding trim_space
read_lines parse true [] = entries []
read_lines parse false [] = scan_failed
read_lines parse complete (l ∷ ls) = read_rest (parse (trim_space l)) (read_lines parse complete ls)

-- What a builder returns; `not_built` holds the error.
pub data Built : Type 0 where
  built_table : ArchTable → Built
  not_built : Read → Built

-- `TemplateParams`
pub record TemplateParams : Type 0 where
  pub linux_version : String
  pub arches : List ArchTable

-- What `main` passes to the template, or the error that it stops with.
pub data Generated : Type 0 where
  generated : TemplateParams → Generated
  aborted : Read → Generated

-- The loop of `main` over what the builders return, in turn.
unfoldable pub collect : TemplateParams → List Built → Generated
collect params [] = generated params
collect params (built_table t ∷ bs) =
    collect (record params { arches = params.arches ++ t ∷ [] }) bs
collect params (not_built r ∷ bs) = aborted r

-- The version of Linux, what the download of a URL gives, and sort.Slice by number.
module _ (linux_version : String) (download : (url : String) → Source)
    (sort : List TableEntry → List TableEntry) where
  unfoldable pub read_syscalls : (path : String) → (parse : String → Line) → Read
  unfolding read_lines
  read_syscalls path parse =
      elim (download
        (append "https://raw.githubusercontent.com/torvalds/linux/" (append linux_version path))) [
          | unavailable ↦ not_downloaded
          | downloaded lines complete ↦ read_lines parse complete lines
        ]

  -- The end of a builder.
  abbrev pub sorted_table : String → Read → Built
  sorted_table name (entries es) = built_table (record { name = name; syscalls = sort es })
  sorted_table name r = not_built r

  -- `append(syscallsA, syscallsB...)`, or the first error.
  abbrev pub both_reads : Read → Read → Read
  both_reads (entries es) (entries es') = entries (es ++ es')
  both_reads (entries es) r = r
  both_reads r r' = r

  unfoldable pub build_arm : Built
  unfolding read_syscalls table_line arm_line
  build_arm = sorted_table "ARM" (
      both_reads
        (read_syscalls "/arch/arm/tools/syscall.tbl" (table_line (λ abi. str_eq abi "oabi")))
        (read_syscalls "/arch/arm/include/uapi/asm/unistd.h" arm_line))

  unfoldable pub build_aarch64 : Built
  unfolding read_syscalls aarch64_line
  build_aarch64 =
      sorted_table "AARCH64" (read_syscalls "/include/uapi/asm-generic/unistd.h" aarch64_line)

  unfoldable pub build_386 : Built
  unfolding read_syscalls table_line
  build_386 =
      sorted_table "386"
        (read_syscalls "/arch/x86/entry/syscalls/syscall_32.tbl" (table_line (λ abi. false)))

  unfoldable pub build_x32 : Built
  unfolding read_syscalls table_line
  build_x32 = sorted_table "X32" (
      read_syscalls "/arch/x86/entry/syscalls/syscall_64.tbl"
        (table_line (λ abi. str_eq abi "x64")))

  unfoldable pub build_x86_64 : Built
  unfolding read_syscalls table_line
  build_x86_64 = sorted_table "X86_64" (
      read_syscalls "/arch/x86/entry/syscalls/syscall_64.tbl"
        (table_line (λ abi. str_eq abi "x32")))

  -- `main`, up to the output.
  unfoldable pub generate : Generated
  unfolding build_arm build_aarch64 build_386 build_x32 build_x86_64 collect
  generate =
      collect (record { linux_version = linux_version; arches = [] })
        (build_arm ∷ build_aarch64 ∷ build_386 ∷ build_x32 ∷ build_x86_64 ∷ [])
