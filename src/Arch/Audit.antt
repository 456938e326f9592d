-- ===== src/Arch/Audit.antt =====
-- arch/zarches.go: the audit numbers of architectures, and their texts.
use go_seccomp_bpf.Base.{ℕ, String, List, [], ◌∷◌, ◌==◌, if◌then◌else◌}
use go_seccomp_bpf.Text.Search.{append}
use go_seccomp_bpf.Text.Numbers.{itoa}

abbrev pub audit_arch_aarch64 : ℕ
audit_arch_aarch64 = 0xc00000b7

abbrev pub audit_arch_arm : ℕ
audit_arch_arm = 0x40000028

abbrev pub audit_arch_armeb : ℕ
audit_arch_armeb = 0x28

abbrev pub audit_arch_cris : ℕ
audit_arch_cris = 0x4000004c

abbrev pub audit_arch_frv : ℕ
audit_arch_frv = 0x5441

abbrev pub audit_arch_i386 : ℕ
audit_arch_i386 = 0x40000003

abbrev pub audit_arch_ia64 : ℕ
audit_arch_ia64 = 0xc0000032

abbrev pub audit_arch_m32r : ℕ
audit_arch_m32r = 0x58

abbrev pub audit_arch_m68k : ℕ
audit_arch_m68k = 0x4

abbrev pub audit_arch_mips : ℕ
audit_arch_mips = 0x8

abbrev pub audit_arch_mips64 : ℕ
audit_arch_mips64 = 0x80000008

abbrev pub audit_arch_mips64n32 : ℕ
audit_arch_mips64n32 = 0xa0000008

abbrev pub audit_arch_mipsel : ℕ
audit_arch_mipsel = 0x40000008

abbrev pub audit_arch_mipsel64 : ℕ
audit_arch_mipsel64 = 0xc0000008

abbrev pub audit_arch_mipsel64n32 : ℕ
audit_arch_mipsel64n32 = 0xe0000008

abbrev pub audit_arch_parisc : ℕ
audit_arch_parisc = 0xf

abbrev pub audit_arch_parisc64 : ℕ
audit_arch_parisc64 = 0x8000000f

abbrev pub audit_arch_ppc : ℕ
audit_arch_ppc = 0x14

abbrev pub audit_arch_ppc64 : ℕ
audit_arch_ppc64 = 0x80000015

abbrev pub audit_arch_ppc64le : ℕ
audit_arch_ppc64le = 0xc0000015

abbrev pub audit_arch_s390 : ℕ
audit_arch_s390 = 0x16

abbrev pub audit_arch_s390x : ℕ
audit_arch_s390x = 0x80000016

abbrev pub audit_arch_sh : ℕ
audit_arch_sh = 0x2a

abbrev pub audit_arch_sh64 : ℕ
audit_arch_sh64 = 0x8000002a

abbrev pub audit_arch_shel : ℕ
audit_arch_shel = 0x4000002a

abbrev pub audit_arch_shel64 : ℕ
audit_arch_shel64 = 0xc000002a

abbrev pub audit_arch_sparc : ℕ
audit_arch_sparc = 0x2

abbrev pub audit_arch_sparc64 : ℕ
audit_arch_sparc64 = 0x8000002b

abbrev pub audit_arch_x86_64 : ℕ
audit_arch_x86_64 = 0xc000003e

-- The map `auditArchNames`.
abbrev pub audit_arch_names : List (ℕ × String)
audit_arch_names =
    (audit_arch_aarch64, "aarch64")
    ∷ (audit_arch_arm, "arm")
    ∷ (audit_arch_armeb, "armeb")
    ∷ (audit_arch_cris, "cris")
    ∷ (audit_arch_frv, "frv")
    ∷ (audit_arch_i386, "i386")
    ∷ (audit_arch_ia64, "ia64")
    ∷ (audit_arch_m32r, "m32r")
    ∷ (audit_arch_m68k, "m68k")
    ∷ (audit_arch_mips, "mips")
    ∷ (audit_arch_mips64, "mips64")
    ∷ (audit_arch_mips64n32, "mips64n32")
    ∷ (audit_arch_mipsel, "mipsel")
    ∷ (audit_arch_mipsel64, "mipsel64")
    ∷ (audit_arch_mipsel64n32, "mipsel64n32")
    ∷ (audit_arch_parisc, "parisc")
    ∷ (audit_arch_parisc64, "parisc64")
    ∷ (audit_arch_ppc, "ppc")
    ∷ (audit_arch_ppc64, "ppc64")
    ∷ (audit_arch_ppc64le, "ppc64le")
    ∷ (audit_arch_s390, "s390")
    ∷ (audit_arch_s390x, "s390x")
    ∷ (audit_arch_sh, "sh")
    ∷ (audit_arch_sh64, "sh64")
    ∷ (audit_arch_shel, "shel")
    ∷ (audit_arch_shel64, "shel64")
    ∷ (audit_arch_sparc, "sparc")
    ∷ (audit_arch_sparc64, "sparc64")
    ∷ (audit_arch_x86_64, "x86_64")
    ∷ []

unfoldable pub audit_name_in : ℕ → List (ℕ × String) → String
unfolding itoa
audit_name_in a [] = append "unknown[" (append (itoa a) "]")
audit_name_in a ((k, name) ∷ m) = if k == a then name else audit_name_in a m

-- `AuditArch.String`
unfoldable pub audit_arch_string : ℕ → String
unfolding audit_name_in
audit_arch_string a = audit_name_in a audit_arch_names
