-- ===== src/Generator/Builders.antt =====
-- The tables that the builders of arch/mk_syscalls_linux.go make.
use go_seccomp_bpf.Base.{
  ◌≡◌, refl, sym, ◌∙◌, ap, subst, ◌⊎◌, inl, inr, String, Bool, true, false, ◌||◌, List, [], ◌∷◌,
  All, str_eq, eq_iff, Bool-cases, leb, ℤ, pos, negsuc, length,
}
use go_seccomp_bpf.Layout.Operations.{All-map}
use go_seccomp_bpf.Text.Search.{append, trim_space, is_blank, has_prefix, fields}
use go_seccomp_bpf.Generator.{
  TableEntry, ArchTable, Line, skipped, entry, line_of_fields, table_line, Source, downloaded, Read,
  entries, not_downloaded, scan_failed, bad_line, read_lines, built_table, read_syscalls,
  sorted_table, build_x32, build_x86_64,
}
use go_seccomp_bpf.Generator.Lines.{Among, IsFrom, read_lines-AreEntries}

abbrev pub int_leb : ℤ → ℤ → Bool
int_leb (pos a) (pos b) = leb a b
int_leb (negsuc a) (negsuc b) = leb b a
int_leb (pos a) (negsuc b) = false
int_leb (negsuc a) (pos b) = true

-- No number is greater than a following one.
abbrev pub AreOrdered : List TableEntry → Type 0
AreOrdered [] = Unit
AreOrdered (e ∷ es) = All (λ f. int_leb e.num f.num ≡ true) es × AreOrdered es

-- What sort.Slice by number does: the same entries, as many, and in order.
pub record IsSort (sort : List TableEntry → List TableEntry) : Type 0 where
  pub ordered : (es : List TableEntry) → AreOrdered (sort es)
  pub size : (es : List TableEntry) → length (sort es) ≡ length es
  pub kept : (e : TableEntry) (es : List TableEntry) → Among e es → Among e (sort es)
  pub from : (e : TableEntry) (es : List TableEntry) → Among e (sort es) → Among e es

-- A table in order, each entry from a line, and with those of all lines.
pub record IsTableOf (parse : String → Line) (lines : List String) (t : ArchTable) : Type 0 where
  pub ordered : AreOrdered t.syscalls
  pub sound : (e : TableEntry) → Among e t.syscalls → IsFrom parse lines e
  pub complete :
      All (λ l. (e : TableEntry) → parse (trim_space l) ≡ entry e → Among e t.syscalls) lines

All-Among :
    (P : TableEntry → Type 0) (e : TableEntry) (es : List TableEntry) → All P es → Among e es → P e
All-Among P e [] w a = absurd a
All-Among P e (f ∷ es) w a = elim a [
  | inl same ↦ subst P (sym same) w.0
  | inr later ↦ All-Among P e es w.1 later
]

-- The URL of a file.
abbrev pub url_of : (linux_version path : String) → String
url_of linux_version path =
    append "https://raw.githubusercontent.com/torvalds/linux/" (append linux_version path)

module _ (linux_version : String) (download : (url : String) → Source)
    (sort : List TableEntry → List TableEntry) (sorting : IsSort sort) where
  sorted_table-IsTableOf :
      (name path : String) (parse : String → Line) (lines : List String) (complete : Bool)
      (t : ArchTable)
      → download (url_of linux_version path) ≡ downloaded lines complete
      → sorted_table linux_version download sort name
          (read_syscalls linux_version download sort path parse)
        ≡ built_table t
      → (complete ≡ true) × IsTableOf parse lines t
  unfolding read_syscalls
  sorted_table-IsTableOf name path parse lines complete t d h =
      let read : read_syscalls linux_version download sort path parse
          ≡ read_lines parse complete lines =
        rw (d, read_syscalls) refl in
      by_read (read_lines parse complete lines) refl
        (ap (sorted_table linux_version download sort name) (sym read) ∙ h)
    where
      by_read :
          (r : Read)
          → read_lines parse complete lines ≡ r
          → sorted_table linux_version download sort name r ≡ built_table t
          → (complete ≡ true) × IsTableOf parse lines t
      by_read not_downloaded e g = cc
      by_read scan_failed e g = cc
      by_read (bad_line b) e g = cc
      by_read (entries es) e g =
          let (scanned, w) = read_lines-AreEntries parse complete lines es e in
          let same : record { name = name; syscalls = sort es } ≡ t = cc in
          (
            scanned,
            subst (IsTableOf parse lines) same (record {
              ordered = sorting.ordered es;
              sound = λ f a. All-Among (IsFrom parse lines) f es w.sound (sorting.from f es a);
              complete = All-map lines (λ l c f q. sorting.kept f es (c f q)) w.complete;
            }),
          )

-- A line that is an entry for some ABI is one for all but one of two.
table_line-either :
    (l : String) (e : TableEntry)
    → table_line (λ abi. false) l ≡ entry e
    → (table_line (λ abi. str_eq abi "x64") l ≡ entry e)
      ⊎ (table_line (λ abi. str_eq abi "x32") l ≡ entry e)
unfolding table_line
table_line-either l e h = elim (Bool-cases (is_blank l || has_prefix l "#")) [
  | inl y ↦ let never : skipped ≡ entry e = rw y at h in cc
  | inr n ↦ rw n (by_fields (fields l) (rw n at h))
]
  where
    by_fields :
        (fs : List String)
        → line_of_fields l (λ abi. false) fs ≡ entry e
        → (line_of_fields l (λ abi. str_eq abi "x64") fs ≡ entry e)
          ⊎ (line_of_fields l (λ abi. str_eq abi "x32") fs ≡ entry e)
    by_fields [] g = cc
    by_fields (a ∷ []) g = cc
    by_fields (a ∷ b ∷ []) g = cc
    by_fields (a ∷ abi ∷ c ∷ rest) g = elim (Bool-cases (str_eq abi "x64")) [
      | inr other ↦ inl (rw other g)
      | inl x64 ↦
          let not_x32 : str_eq abi "x32" ≡ false =
            ap (λ (s : String). str_eq s "x32") ((eq_iff abi "x64").0 x64) in
          inr (rw not_x32 g)
    ]

-- Let the builders of x32 and x86_64 succeed. Then the scan of their file was complete, both tables are in
-- order, each entry of the one is that of a line with an ABI other than x64 and each of the other that
-- of a line with an ABI other than x32, and the entry of every line is in one of the two.
pub build_x32-build_x86_64 :
    (linux_version : String) (download : (url : String) → Source)
    (sort : List TableEntry → List TableEntry) (lines : List String) (complete : Bool)
    (x32 x86_64 : ArchTable)
    → IsSort sort
    → download (url_of linux_version "/arch/x86/entry/syscalls/syscall_64.tbl")
      ≡ downloaded lines complete
    → build_x32 linux_version download sort ≡ built_table x32
    → build_x86_64 linux_version download sort ≡ built_table x86_64
    → (complete ≡ true)
      × IsTableOf (table_line (λ abi. str_eq abi "x64")) lines x32
      × IsTableOf (table_line (λ abi. str_eq abi "x32")) lines x86_64
      × All
          (λ l.
            (e : TableEntry)
            → table_line (λ abi. false) (trim_space l) ≡ entry e
            → Among e x32.syscalls ⊎ Among e x86_64.syscalls)
          lines
unfolding build_x32 build_x86_64
build_x32-build_x86_64 linux_version download sort lines complete x32 x86_64 sorting d h g =
    let (scanned, first) =
      sorted_table-IsTableOf linux_version download sort sorting "X32" _
        (table_line (λ abi. str_eq abi "x64")) lines complete x32 d h in
    let (scanned', second) =
      sorted_table-IsTableOf linux_version download sort sorting "X86_64" _
        (table_line (λ abi. str_eq abi "x32")) lines complete x86_64 d g in
    (scanned, first, second, All_both lines first.complete second.complete)
  where
    All_both :
        (ls : List String)
        → All
            (λ l.
              (e : TableEntry)
              → table_line (λ abi. str_eq abi "x64") (trim_space l) ≡ entry e
              → Among e x32.syscalls)
            ls
        → All
            (λ l.
              (e : TableEntry)
              → table_line (λ abi. str_eq abi "x32") (trim_space l) ≡ entry e
              → Among e x86_64.syscalls)
            ls
        → All
            (λ l.
              (e : TableEntry)
              → table_line (λ abi. false) (trim_space l) ≡ entry e
              → Among e x32.syscalls ⊎ Among e x86_64.syscalls)
            ls
    All_both [] v w = tt
    All_both (l ∷ ls) v w = (
      λ e q. elim (table_line-either (trim_space l) e q) [
        | inl a ↦ inl (v.0 e a)
        | inr b ↦ inr (w.0 e b)
      ],
      All_both ls v.1 w.1,
    )
