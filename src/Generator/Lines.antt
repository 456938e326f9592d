-- ===== src/Generator/Lines.antt =====
-- What `readSyscalls` (arch/mk_syscalls_linux.go) makes of the lines of a file.
use go_seccomp_bpf.Base.{
  ◌≡◌, refl, sym, ◌∙◌, subst, ◌⊎◌, inl, inr, String, Bool, true, false, List, [], ◌∷◌, All,
}
use go_seccomp_bpf.Layout.Operations.{All-map}
use go_seccomp_bpf.Text.Search.{trim_space}
use go_seccomp_bpf.Generator.{
  TableEntry, Line, skipped, entry, refused, Read, entries, not_downloaded, scan_failed, bad_line,
  put_first, read_rest, read_lines,
}

abbrev pub Among : {A : Type 0} → A → List A → Type 0
Among x [] = ⊥
Among x (y ∷ ys) = (x ≡ y) ⊎ Among x ys

-- The entry is that of a line.
abbrev pub IsFrom : (String → Line) → List String → TableEntry → Type 0
IsFrom parse lines e = (l : String) × Among l lines × (parse (trim_space l) ≡ entry e)

-- The entries of a file, each from a line, and those of all lines.
pub record AreEntries (parse : String → Line) (lines : List String) (es : List TableEntry)
    : Type 0 where
  pub sound : All (IsFrom parse lines) es
  pub complete : All (λ l. (e : TableEntry) → parse (trim_space l) ≡ entry e → Among e es) lines

put_first-entries :
    (e : TableEntry) (r : Read) (es : List TableEntry)
    → put_first e r ≡ entries es
    → (rest : List TableEntry) × (r ≡ entries rest) × (e ∷ rest ≡ es)
put_first-entries e (entries rest) es h = (rest, refl, cc)
put_first-entries e not_downloaded es h = cc
put_first-entries e scan_failed es h = cc
put_first-entries e (bad_line b) es h = cc

IsFrom-later :
    (parse : String → Line) (l : String) (ls : List String) (es : List TableEntry)
    → All (IsFrom parse ls) es
    → All (IsFrom parse (l ∷ ls)) es
IsFrom-later parse l ls es w = All-map es (λ e f. (f.0, inr f.1, f.2)) w

by_line :
    (parse : String → Line) (l : String) (ls : List String) (es : List TableEntry) (complete : Bool)
    (r : Line)
    → parse (trim_space l) ≡ r
    → read_rest r (read_lines parse complete ls) ≡ entries es
    → ((es' : List TableEntry)
        → read_lines parse complete ls ≡ entries es'
        → (complete ≡ true) × AreEntries parse ls es')
    → (complete ≡ true) × AreEntries parse (l ∷ ls) es
by_line parse l ls es complete skipped p h ih =
    let (scanned, w) = ih es h in
    (
      scanned,
      record {
        sound = IsFrom-later parse l ls es w.sound;
        complete = ((λ e q. let never : skipped ≡ entry e = sym p ∙ q in cc), w.complete);
      },
    )
by_line parse l ls es complete (refused b) p h ih = cc
by_line parse l ls es complete (entry e) p h ih =
    let (rest, others, same) = put_first-entries e (read_lines parse complete ls) es h in
    let (scanned, w) = ih rest others in
    (
      scanned,
      subst (AreEntries parse (l ∷ ls)) same (record {
        sound = ((l, inl refl, p), IsFrom-later parse l ls rest w.sound);
        complete = (
          (λ f q. let it : entry e ≡ entry f = sym p ∙ q in inl cc),
          All-map ls (λ k c f q. inr (c f q)) w.complete,
        );
      }),
    )

-- If the lines are read, the scan was complete, and the entries are those of the lines.
pub read_lines-AreEntries :
    (parse : String → Line) (complete : Bool) (lines : List String) (es : List TableEntry)
    → read_lines parse complete lines ≡ entries es
    → (complete ≡ true) × AreEntries parse lines es
unfolding read_lines
read_lines-AreEntries parse true [] es h =
    let none_read : [] ≡ es = cc in
    (refl, record { sound = subst (All (IsFrom parse [])) none_read tt; complete = tt })
read_lines-AreEntries parse false [] es h = cc
read_lines-AreEntries parse true (l ∷ ls) es h =
    by_line parse l ls es true (parse (trim_space l)) refl h
      (λ es'. read_lines-AreEntries parse true ls es')
read_lines-AreEntries parse false (l ∷ ls) es h =
    by_line parse l ls es false (parse (trim_space l)) refl h
      (λ es'. read_lines-AreEntries parse false ls es')
