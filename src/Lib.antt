-- ===== src/Lib.antt =====
-- go-seccomp-bpf: from a seccomp policy to a BPF program.
--
-- The package turns a policy, which is a default action and a list of groups of system calls with
-- an action each, into a program of the kernel's classic BPF machine, and installs it. This library
-- models that path completely: the validation of a policy, the choice of an architecture and its
-- table of system calls, the translation of names to numbers, the generation of code with labels,
-- the resolution of labels to the 8-bit distances of BPF's conditional jumps, and the calls of the
-- kernel. It proves what the program decides about each system call. It also models the profiler,
-- which makes a policy from the system calls in the disassembly of a Go binary.
--
-- The program's parts, and the files that model them:
--   * constants.go, internal/unix/types_other.go: Constants.
--   * arch/info.go, arch/zarches.go: Arch (Info, arches, invert, GetInfo) and Arch.Audit.
--     arch/zsyscalls.go: Arch.Tables, its maps as association lists in the source's order.
--   * assembler.go: Assembler is the construction of a Program (NewLabel, SetLabel, JmpIf, JmpIfTrue,
--     Ret, LdHi, LdLo); Resolver is Program.Assemble (resolveLabel, insertAfter, updateIndices,
--     findInsertAfter). A program is a record that each operation takes and returns, as the
--     methods change `*Program`; its map of labels is a function to lists of indices, empty where
--     the map has no key.
--   * filter.go: Filter is SyscallWithConditions.Assemble and the loop of SyscallGroup.Assemble;
--     Group is toSyscallsWithConditions; Policy is Validate and Policy.Assemble; Names is Unpack and
--     String of actions, operations and flags. The loops are recursions over their lists;
--     `i < len(xs)-1` is whether any elements are left.
--   * seccomp_linux.go, seccomp_unsupported.go: Loader. The kernel is a parameter, the record System:
--     a state, what prctl and seccomp do to it, and the value and the error number that they return.
--     Loader.Documented is what their manual pages say of the filters. `bpf.Assemble` is a parameter too.
--   * cmd/sandbox/main.go: Sandbox, on the model of Loader, with the `LoadFilter` of Linux or that of
--     other systems. The configuration and the execution of the command are parameters.
--   * cmd/seccomp-profiler/disasm/disasm.go: Disasm, a step over the lines of a dump from a state
--     of the loop's variables, and Disasm.Patterns, its regular expressions as searches. A file
--     is what the scanner gives: lines, and whether the scan ends with an error.
--   * cmd/seccomp-profiler/main.go: Profiler, from the system calls of a binary to the policy of
--     its profile. The orders in which Go ranges over maps are the parameter Ranges, of which
--     Profiler.Names says that they yield every entry once; a binary is what debug/elf reads of it.
--   * arch/mk_syscalls_linux.go: Generator, from the lines of the kernel's files to the tables. What
--     the download of a file gives and sort.Slice are parameters; Generator.Patterns has its
--     regular expressions, and Generator.Lines and Generator.Builders are about the entries of a file and of a table.
--   * what the source uses of strings, strconv and sort: Text, Text.Search, Text.Numbers and
--     Text.Sorting. Strings are sequences of characters; `unicode.ToLower` is a parameter.
--   * the kernel and golang.org/x/net/bpf: Bpf has the four instructions that the package builds, and
--     the machine as a parameter, the record Kernel, whose laws are the documented effects of these
--     instructions. Bpf.Simulator is an instance.
-- Errors and panics are values of Result (Base.Errors) or of a type of the component. Integers are natural numbers with Go's
-- conversions written out; what may be negative is an integer of Base.Int.
--
-- The proofs, from the source's side to the program's:
--   * Specification is what a policy means, on whole 64-bit arguments. Decision is what its code
--     tests, on 32-bit words and an accumulator. Specification.Words and Specification.Outcome compare
--     the two; Correctness.Translation and Correctness.Meaning go back to the names of a policy.
--   * Symbolic says what it is for a machine to run a program with labels; Decision.Operations,
--     Decision.Conditions, Decision.Syscalls and Decision.Groups run the generated code.
--   * Layout is the form of generated programs, kept by each operation. Resolver.Short and
--     Resolver.Correct are about the resolution of such programs, Resolver.Long about a distance
--     above 255.
--   * Correctness.Header, Correctness.Verdict, Correctness.Program and, for policies without
--     conditions, Correctness.Unconditional put these together. Findings.Accumulator and
--     Findings.LongJumps say where the code does not do what it means to.
--   * Loader.Installed is the order of the calls of the kernel, Loader.Filters which filters the
--     kernel has then, and Loader.Bounds the size of the program that it gets. Sandbox.Guarded is
--     about the command that runs behind it.
--   * Arch.Invert and Arch.Supported are about the tables of names. Disasm.Known and Disasm.Sound
--     say where the system calls of a dump come from, Disasm.Modular that functions are parsed
--     apart, Disasm.Total when the parser returns, Disasm.Matches, Disasm.Longest and
--     Disasm.Leftmost what a search finds.
--     Profiler.Sets, Profiler.Names and Profiler.Profile count the names of a profile, and
--     Profiler.Known compares them with the table of the architecture. Arch.Apart,
--     Correctness.Distinct, Correctness.Single and Profiler.Unique lead to Profiler.Enforced, about
--     the filter that the profile of a binary becomes. Profiler.Detected compares the architectures
--     that the profiler detects with those that the library and the parsers support.
--
-- Bounds: the only fuel is the number of jumps, which resolution goes through once, as the Go loop
-- does. The theorems about whole programs are for at most 256 instructions before resolution, so that
-- every distance fits a conditional jump; for larger ones, Resolver.Long and Findings.LongJumps are
-- about the resolution of one label.
--
-- Not modelled: Policy.Dump, which prints; of cmd/seccomp-profiler, the hash of the binary, the cache
-- of dumps, the run of objdump, the templates and YAML (input and output); of cmd/sandbox, the reading
-- of the configuration; of arch/mk_syscalls_linux.go, the download and the template; and
-- arch/defs_arches_linux.go, from which arch/zarches.go is made. The loop of `invert` is modelled
-- in one of the orders that Go may choose. Error messages are constructors with their arguments, not
-- the formatted text, and log lines other than the parser's warnings are left out.
pub mod Base
pub mod Constants
pub mod Bpf
pub mod Text
pub mod Arch
pub mod Assembler
pub mod Resolver
pub mod Symbolic
pub mod Filter
pub mod Group
pub mod Policy
pub mod Decision
pub mod Names
pub mod Specification
pub mod Layout
pub mod Correctness
pub mod Loader
pub mod Disasm
pub mod Profiler
pub mod Sandbox
pub mod Generator
pub mod Findings
mod Tests
