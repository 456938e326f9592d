-- ===== src/Loader/Bounds.antt =====
-- The program that `LoadFilter` (seccomp_linux.go) gives the kernel for a short policy fits its length.
use Prim.Native.Char.{Char}
use go_seccomp_bpf.Base.{
  ◌≤◌, ◌≡◌, refl, ◌∙◌, ap, String, Option, some, List, [], ◌∷◌, All, length, ok, suc, arith,
}
use go_seccomp_bpf.Bpf.{ByteOrder, Instruction}
use go_seccomp_bpf.Arch.{Info}
use go_seccomp_bpf.Policy.{validate, arch_of, assemble_policy}
use go_seccomp_bpf.Decision.{Translated}
use go_seccomp_bpf.Correctness.Groups.{translate}
use go_seccomp_bpf.Correctness.Proper.{IsUsableGroup, translate-IsProperGroup}
use go_seccomp_bpf.Correctness.Verdict.{built, assemble_for_bounds}
use go_seccomp_bpf.Correctness.Program.{assemble_policy_lem}
use go_seccomp_bpf.Loader.{
  FilterSpec, RawInstruction, System, sock_filter, sock_fprog, load_encoded, load_filter,
}

length-sock_filter : (raw : List RawInstruction) → length (sock_filter raw) ≡ length raw
unfolding sock_filter
length-sock_filter [] = refl
length-sock_filter (i ∷ raw) = ap suc (length-sock_filter raw)

-- Let a policy be valid, its names known, its lists of conditions decoded and not empty, and its code at
-- most 256 instructions, and let the encoding keep the number of instructions. Then the policy has an
-- assembly, and for each encoding of it `LoadFilter` comes to its calls of the kernel with a program of 1
-- to 262 instructions, whose 16-bit length is their number.
pub load_filter_bounds :
    (S : System) (lower : Char → Char) (goarch : String) (order : ByteOrder)
    (encode : List Instruction → Option (List RawInstruction)) (f : FilterSpec) (k : S.Kernel)
    (arch : Info) (ts : List Translated)
    → ((insts : List Instruction) (raw : List RawInstruction)
        → encode insts ≡ some raw
        → length raw ≡ length insts)
    → validate f.policy ≡ ok tt
    → arch_of lower goarch f.policy ≡ ok arch
    → translate arch f.policy.syscalls ≡ ok ts
    → All IsUsableGroup f.policy.syscalls
    → length (built order ts f.policy.default_action).instructions ≤ 256
    → (insts : List Instruction) × (assemble_policy lower goarch order f.policy ≡ ok insts)
      × ((raw : List RawInstruction)
          → encode insts ≡ some raw
          → (load_filter S lower goarch order encode f k
              ≡ load_encoded S f.no_new_privs f.flag (sock_filter raw) k)
            × (1 ≤ length (sock_filter raw))
            × (length (sock_filter raw) ≤ 262)
            × ((sock_fprog (sock_filter raw)).len ≡ length (sock_filter raw)))
unfolding load_filter
load_filter_bounds S lower goarch order encode f k arch ts same_length valid selected translated
      usable short =
    let (insts, done, least, most) =
      assemble_for_bounds order arch f.policy ts translated
        (translate-IsProperGroup arch f.policy.syscalls ts usable translated) short in
    let assembled = assemble_policy_lem lower goarch order f.policy arch valid selected ∙ done in
    (
      insts,
      assembled,
      λ raw e.
          let size = length-sock_filter raw ∙ same_length insts raw e in
          (
            rw (assembled, load_filter) (rw (e, load_filter) refl),
            omega (arith, size, least),
            omega (arith, size, most),
            omega (arith, size, most),
          ),
    )
