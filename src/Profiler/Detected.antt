-- ===== src/Profiler/Detected.antt =====
-- The architecture that `getBinaryArch` (cmd/seccomp-profiler/main.go) detects, and who supports it.
use Prim.Native.Char.{Char}
use go_seccomp_bpf.Base.{
  ◌≡◌, refl, ap, subst, ◌⊎◌, inl, inr, String, Bool, true, false, Option, none, some, List, ok,
}
use go_seccomp_bpf.Arch.{Info, get_info, arches, invert, i386, arm, x86_64}
use go_seccomp_bpf.Arch.Tables.{syscalls_386, syscalls_arm, syscalls_x86_64}
use go_seccomp_bpf.Disasm.{
  Parser, File, unsupported, parse, extract_syscalls, i386_parser, x86_64_parser,
}
use go_seccomp_bpf.Profiler.{
  Machine, em_386, em_arm, em_x86_64, em_other, Binary, BinaryArch, detected, rejected,
  arch_of_machine, get_binary_arch,
}

-- The library supports the architecture under this name. The parser of the dump is that of the
-- architecture, or there is none.
pub record IsDetected (arch : Info) (goarch : String) : Type 0 where
  pub supported : (lower : Char → Char) → get_info lower goarch "" ≡ ok arch
  pub parsed :
      ((p : Parser) × (p.info ≡ arch) × ((file : File) → extract_syscalls arch file ≡ parse p file))
      ⊎ ((goarch ≡ "arm") × ((file : File) → extract_syscalls arch file ≡ unsupported "arm"))

IsDetected-i386 : IsDetected i386 "386"
unfolding get_info arches i386 invert syscalls_386 extract_syscalls i386_parser x86_64_parser x86_64
IsDetected-i386 = record {
  supported = λ lower. refl;
  parsed = inl (i386_parser, refl, λ file. refl);
}

IsDetected-arm : IsDetected arm "arm"
unfolding get_info arches arm invert syscalls_arm extract_syscalls i386_parser x86_64_parser x86_64
    i386
IsDetected-arm = record { supported = λ lower. refl; parsed = inr (refl, λ file. refl) }

IsDetected-x86_64 : IsDetected x86_64 "amd64"
unfolding get_info arches x86_64 invert syscalls_x86_64 extract_syscalls i386_parser x86_64_parser
    i386
IsDetected-x86_64 = record {
  supported = λ lower. refl;
  parsed = inl (x86_64_parser, refl, λ file. refl);
}

arch_of_result : Info → BinaryArch → Info
arch_of_result default (detected arch goarch) = arch
arch_of_result default (rejected e) = default

goarch_of_result : BinaryArch → String
goarch_of_result (detected arch goarch) = goarch
goarch_of_result (rejected e) = ""

detected_same :
    (arch arch' : Info) (goarch goarch' : String)
    → IsDetected arch goarch
    → detected arch goarch ≡ detected arch' goarch'
    → IsDetected arch' goarch'
unfolding arch_of_result goarch_of_result
detected_same arch arch' goarch goarch' w h =
    subst (IsDetected arch') (ap goarch_of_result h)
      (subst (λ a. IsDetected a goarch) (ap (arch_of_result arch) h) w)

-- The library supports each architecture that is detected, under the name that is detected with it.
-- The disassembly has a parser of this architecture, but none for ARM, which it reports.
pub get_binary_arch-IsDetected :
    (b : Binary) (arch : Info) (goarch : String)
    → get_binary_arch (some b) ≡ detected arch goarch
    → IsDetected arch goarch
unfolding get_binary_arch
get_binary_arch-IsDetected b arch goarch h = by_parts b.has_go_buildid b.libraries b.machine h
  where
    by_machine : (m : Machine) → arch_of_machine m ≡ detected arch goarch → IsDetected arch goarch
    by_machine em_386 g = detected_same i386 arch "386" goarch IsDetected-i386 g
    by_machine em_arm g = detected_same arm arch "arm" goarch IsDetected-arm g
    by_machine em_x86_64 g = detected_same x86_64 arch "amd64" goarch IsDetected-x86_64 g
    by_machine (em_other name) g = cc

    by_parts :
        (go : Bool) (l : Option (List String)) (m : Machine)
        → get_binary_arch (some (record { has_go_buildid = go; libraries = l; machine = m }))
          ≡ detected arch goarch
        → IsDetected arch goarch
    by_parts false l m g = cc
    by_parts true none m g = cc
    by_parts true (some l) m g = by_machine m g
