-- ===== src/Tests/Generating.antt =====
-- Tables of system calls from small files, sorted by insertion.
use go_seccomp_bpf.Base.{
  suc, ◌≡◌, refl, ◌∙◌, ap, ◌⊎◌, inl, inr, String, true, false, List, [], ◌∷◌, All, str_eq, length,
  Bool-cases, if◌then◌else◌, ℤ, pos, negsuc, arith,
}
use go_seccomp_bpf.Layout.Operations.{All-map}
use go_seccomp_bpf.Text.Search.{trim_space}
use go_seccomp_bpf.Generator.{
  TableEntry, ArchTable, entry, skipped, table_line, arm_line, aarch64_line, Source, downloaded,
  built_table, build_x32, build_x86_64,
}
use go_seccomp_bpf.Generator.Lines.{Among}
use go_seccomp_bpf.Generator.Builders.{
  int_leb, AreOrdered, IsSort, IsTableOf, build_x32-build_x86_64,
}

int_leb_total : (a b : ℤ) → int_leb a b ≡ false → int_leb b a ≡ true
int_leb_total (pos a) (pos b) h = ground arith
int_leb_total (negsuc a) (negsuc b) h = ground arith
int_leb_total (pos a) (negsuc b) h = refl
int_leb_total (negsuc a) (pos b) h = cc

int_leb_trans : (a b c : ℤ) → int_leb a b ≡ true → int_leb b c ≡ true → int_leb a c ≡ true
int_leb_trans (pos a) (pos b) (pos c) h k = ground arith
int_leb_trans (pos a) (pos b) (negsuc c) h k = cc
int_leb_trans (pos a) (negsuc b) c h k = cc
int_leb_trans (negsuc a) b (pos c) h k = refl
int_leb_trans (negsuc a) (pos b) (negsuc c) h k = cc
int_leb_trans (negsuc a) (negsuc b) (negsuc c) h k = ground arith

insert_entry : TableEntry → List TableEntry → List TableEntry
insert_entry e [] = e ∷ []
insert_entry e (f ∷ es) =
    let rest = insert_entry e es in if int_leb e.num f.num then e ∷ f ∷ es else f ∷ rest

sort_entries : List TableEntry → List TableEntry
unfolding insert_entry
sort_entries [] = []
sort_entries (e ∷ es) = insert_entry e (sort_entries es)

length-insert_entry :
    (e : TableEntry) (es : List TableEntry) → length (insert_entry e es) ≡ suc (length es)
unfolding insert_entry
length-insert_entry e [] = refl
length-insert_entry e (f ∷ es) = elim (Bool-cases (int_leb e.num f.num)) [
  | inl y ↦ rw y refl
  | inr n ↦ rw n (ap suc (length-insert_entry e es))
]

insert_entry-Among :
    (x e : TableEntry) (es : List TableEntry)
    → (Among x (insert_entry e es) → (x ≡ e) ⊎ Among x es)
      × ((x ≡ e) ⊎ Among x es → Among x (insert_entry e es))
unfolding insert_entry
insert_entry-Among x e [] = ((λ a. a), λ a. a)
insert_entry-Among x e (f ∷ es) = elim (Bool-cases (int_leb e.num f.num)) [
  | inl y ↦ rw y ((λ a. a), λ a. a)
  | inr n ↦
      let (there, back) = insert_entry-Among x e es in
      rw n (
        (λ a. elim a [
          | inl same ↦ inr (inl same)
          | inr later ↦ elim (there later) [ inl same ↦ inl same | inr l ↦ inr (inr l) ]
        ]),
        λ a. elim a [
          | inl same ↦ inr (back (inl same))
          | inr later ↦ elim later [ inl same ↦ inl same | inr l ↦ inr (back (inr l)) ]
        ],
      )
]

All-insert_entry :
    (P : TableEntry → Type 0) (e : TableEntry) (es : List TableEntry)
    → P e
    → All P es
    → All P (insert_entry e es)
unfolding insert_entry
All-insert_entry P e [] p w = (p, tt)
All-insert_entry P e (f ∷ es) p w = elim (Bool-cases (int_leb e.num f.num)) [
  | inl y ↦ rw y (p, w)
  | inr n ↦ rw n (w.0, All-insert_entry P e es p w.1)
]

insert_entry-AreOrdered :
    (e : TableEntry) (es : List TableEntry) → AreOrdered es → AreOrdered (insert_entry e es)
unfolding insert_entry
insert_entry-AreOrdered e [] w = (tt, tt)
insert_entry-AreOrdered e (f ∷ es) w = elim (Bool-cases (int_leb e.num f.num)) [
  | inl y ↦ rw y ((y, All-map es (λ g h. int_leb_trans e.num f.num g.num y h) w.0), w)
  | inr n ↦ rw n (
    All-insert_entry (λ g. int_leb f.num g.num ≡ true) e es (int_leb_total e.num f.num n) w.0,
    insert_entry-AreOrdered e es w.1,
  )
]

sort_entries-IsSort : IsSort sort_entries
unfolding sort_entries
sort_entries-IsSort = record { ordered = ordered; size = size; kept = kept; from = from }
  where
    ordered : (es : List TableEntry) → AreOrdered (sort_entries es)
    ordered [] = tt
    ordered (e ∷ es) = insert_entry-AreOrdered e (sort_entries es) (ordered es)

    size : (es : List TableEntry) → length (sort_entries es) ≡ length es
    size [] = refl
    size (e ∷ es) = length-insert_entry e (sort_entries es) ∙ ap suc (size es)

    kept : (x : TableEntry) (es : List TableEntry) → Among x es → Among x (sort_entries es)
    kept x [] a = a
    kept x (e ∷ es) a =
        (insert_entry-Among x e (sort_entries es)).1
          (elim a [ inl same ↦ inl same | inr later ↦ inr (kept x es later) ])

    from : (x : TableEntry) (es : List TableEntry) → Among x (sort_entries es) → Among x es
    from x [] a = a
    from x (e ∷ es) a = elim ((insert_entry-Among x e (sort_entries es)).0 a) [
      | inl same ↦ inl same
      | inr later ↦ inr (from x es later)
    ]

abbrev table_lines : List String
table_lines =
    "# a comment" ∷ "" ∷ "1\tcommon\twrite\tsys_write" ∷ "0 common read sys_read"
    ∷ "  13 64 rt_sigaction sys_rt_sigaction" ∷ "512 x32 rt_sigaction compat_sys_rt_sigaction"
    ∷ "59 x64 execve sys_execve" ∷ []

abbrev from_table : String → Source
from_table url = downloaded table_lines true

abbrev small_x32 : ArchTable
small_x32 = record {
  name = "X32";
  syscalls =
      record { num = pos 0; name = "read" }
      ∷ record { num = pos 1; name = "write" }
      ∷ record { num = pos 13; name = "rt_sigaction" }
      ∷ record { num = pos 512; name = "rt_sigaction" }
      ∷ [];
}

abbrev small_x86_64 : ArchTable
small_x86_64 = record {
  name = "X86_64";
  syscalls =
      record { num = pos 0; name = "read" }
      ∷ record { num = pos 1; name = "write" }
      ∷ record { num = pos 13; name = "rt_sigaction" }
      ∷ record { num = pos 59; name = "execve" }
      ∷ [];
}

x32_built : build_x32 "v6.15" from_table sort_entries ≡ built_table small_x32
unfolding build_x32 sort_entries
x32_built = refl

x86_64_built : build_x86_64 "v6.15" from_table sort_entries ≡ built_table small_x86_64
unfolding build_x86_64 sort_entries
x86_64_built = refl

build_x32-build_x86_64_example :
    (true ≡ true)
    × IsTableOf (table_line (λ abi. str_eq abi "x64")) table_lines small_x32
    × IsTableOf (table_line (λ abi. str_eq abi "x32")) table_lines small_x86_64
    × All
        (λ l.
          (e : TableEntry)
          → table_line (λ abi. false) (trim_space l) ≡ entry e
          → Among e small_x32.syscalls ⊎ Among e small_x86_64.syscalls)
        table_lines
build_x32-build_x86_64_example =
    build_x32-build_x86_64 "v6.15" from_table sort_entries table_lines true small_x32 small_x86_64
      sort_entries-IsSort refl x32_built x86_64_built

private_call :
    arm_line "#define __ARM_NR_cacheflush\t\t(__ARM_NR_BASE+2)"
    ≡ entry (record { num = pos 0xf0002; name = "cacheflush" })
unfolding arm_line
private_call = refl

generic_call :
    aarch64_line "#define __NR3264_fcntl 25" ≡ entry (record { num = pos 25; name = "fcntl" })
unfolding aarch64_line
generic_call = refl

omitted_call : aarch64_line "#define __NR_sync_file_range2 84" ≡ skipped
unfolding aarch64_line
omitted_call = refl
