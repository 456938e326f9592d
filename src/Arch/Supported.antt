-- ===== src/Arch/Supported.antt =====
-- What `GetInfo` (arch/info.go) returns.
use Prim.Native.Char.{Char}
use go_seccomp_bpf.Base.{
  ◌≡◌, refl, subst, ◌⊎◌, inl, inr, String, false, List, [], ◌∷◌, Option, none, some, str_eq, All,
  Bool-cases, Result, ok, err, if◌then◌else◌, is_empty, unsupported_arch,
}
use go_seccomp_bpf.Arch.{
  Info, arches, find_arch, supported, get_info, invert, arm, aarch64, i386, x32, x86_64,
}
use go_seccomp_bpf.Arch.Tables.{syscalls_arm, syscalls_aarch64, syscalls_386, syscalls_x86_64}
use go_seccomp_bpf.Arch.Audit.{audit_arch_string}
use go_seccomp_bpf.Arch.Invert.{IsInvertible, has_distinct_names}
use go_seccomp_bpf.Text.{to_lower}

-- The architecture has a table, and its names are exactly inverted, or it is x32, whose table has names
-- with two numbers. The text of its audit number is its name, but for x32.
pub record IsSupported (arch : Info) : Type 0 where
  pub nonempty : is_empty arch.syscall_names ≡ false
  pub entry : (arch.name ≡ "x32") ⊎ (IsInvertible arch × (audit_arch_string arch.id ≡ arch.name))

abbrev IsEntry : Info → Type 0
IsEntry i = (i.name ≡ "x32") ⊎ (IsInvertible i × (audit_arch_string i.id ≡ i.name))

All-find_arch :
    (P : Info → Type 0) (key : String) (m : List (String × Info)) (i : Info)
    → All (λ (e : String × Info). P e.1) m
    → find_arch key m ≡ some i
    → P i
unfolding find_arch
All-find_arch P key [] i w h = cc
All-find_arch P key ((k, j) ∷ m) i w h = elim (Bool-cases (str_eq k key)) [
  | inl y ↦ let it : some j ≡ some i = rw y at h in let same : j ≡ i = cc in subst P same w.0
  | inr n ↦ All-find_arch P key m i w.1 (rw n at h)
]

arm-IsEntry : IsEntry arm
unfolding arm has_distinct_names audit_arch_string syscalls_arm
arm-IsEntry = inr (record { inverted = refl; distinct = refl }, refl)

aarch64-IsEntry : IsEntry aarch64
unfolding aarch64 has_distinct_names audit_arch_string syscalls_aarch64
aarch64-IsEntry = inr (record { inverted = refl; distinct = refl }, refl)

i386-IsEntry : IsEntry i386
unfolding i386 has_distinct_names audit_arch_string syscalls_386
i386-IsEntry = inr (record { inverted = refl; distinct = refl }, refl)

x86_64-IsEntry : IsEntry x86_64
unfolding x86_64 has_distinct_names audit_arch_string syscalls_x86_64
x86_64-IsEntry = inr (record { inverted = refl; distinct = refl }, refl)

x32-IsEntry : IsEntry x32
unfolding x32
x32-IsEntry = inl refl

All-IsEntry : All (λ (e : String × Info). IsEntry e.1) arches
unfolding arches has_distinct_names invert audit_arch_string
All-IsEntry = (
  arm-IsEntry,
  (
    inr (record { inverted = refl; distinct = refl }, refl),
    (
      inr (record { inverted = refl; distinct = refl }, refl),
      (
        inr (record { inverted = refl; distinct = refl }, refl),
        (
          inr (record { inverted = refl; distinct = refl }, refl),
          (
            inr (record { inverted = refl; distinct = refl }, refl),
            (
              inr (record { inverted = refl; distinct = refl }, refl),
              (
                inr (record { inverted = refl; distinct = refl }, refl),
                (
                  inr (record { inverted = refl; distinct = refl }, refl),
                  (
                    i386-IsEntry,
                    (
                      i386-IsEntry,
                      (
                        x32-IsEntry,
                        (
                          x86_64-IsEntry,
                          (
                            x86_64-IsEntry,
                            (
                              aarch64-IsEntry,
                              (
                                aarch64-IsEntry,
                                (
                                  inr (record { inverted = refl; distinct = refl }, refl),
                                  (
                                    inr (record { inverted = refl; distinct = refl }, refl),
                                    (
                                      inr (record { inverted = refl; distinct = refl }, refl),
                                      (
                                        inr (record { inverted = refl; distinct = refl }, refl),
                                        (
                                          inr (record { inverted = refl; distinct = refl }, refl),
                                          (
                                            inr (record { inverted = refl; distinct = refl }, refl),
                                            tt,
                                          ),
                                        ),
                                      ),
                                    ),
                                  ),
                                ),
                              ),
                            ),
                          ),
                        ),
                      ),
                    ),
                  ),
                ),
              ),
            ),
          ),
        ),
      ),
    ),
  ),
)

-- What `GetInfo` returns has a table. It is x32, or its names are exactly its numbers inverted, no two
-- numbers have the same name, and the text of its audit number is its name.
pub get_info-IsSupported :
    (lower : Char → Char) (goarch name : String) (arch : Info)
    → get_info lower goarch name ≡ ok arch
    → IsSupported arch
unfolding get_info
get_info-IsSupported lower goarch name arch h =
    of_key (if str_eq name "" then goarch else to_lower lower name) h
  where
    of_found :
        (key : String) (o : Option Info)
        → ((i : Info) → o ≡ some i → IsEntry i)
        → supported key o ≡ ok arch
        → IsSupported arch
    of_found key none w g = cc
    of_found key (some i) w g = elim (Bool-cases (is_empty i.syscall_names)) [
      | inl y ↦
          let never : ◌≡◌ {A = Result Info} (err (unsupported_arch key)) (ok arch) =
            rw (y, supported) at g in
          cc
      | inr n ↦
          let it : ok i ≡ ok arch = rw (n, supported) at g in
          let same : i ≡ arch = cc in
          subst IsSupported same (record { nonempty = n; entry = w i refl })
    ]

    of_key : (key : String) → supported key (find_arch key arches) ≡ ok arch → IsSupported arch
    of_key key g =
        of_found key (find_arch key arches)
          (λ i e. All-find_arch IsEntry key arches i All-IsEntry e) g
