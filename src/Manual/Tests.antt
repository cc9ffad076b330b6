-- ===== src/Manual/Tests.antt =====
-- A small manual: the theorems at files that meet their hypotheses, and runs.
use hanlin.Base.{
  Bool, subst, ℕ, ◌≡◌, refl, true, false, List, [], ◌∷◌, ◌++◌, Option, none, some, ok, arith,
  if◌then◌else◌,
}
use mathlib.Core.Option.{some-injective}
use hanlin.CString.{str_eq, atoi}
use hanlin.Proxy.Request.{codes}
use hanlin.Manual.{Files, concat}
use hanlin.Manual.Lookup.{wman}
use hanlin.Manual.Search.{bold, starts_with, is_name, contains, search_lines, wapropos}
use hanlin.Manual.Found.{IsText, PrintsFirst, PrintsSection, wman_correct}
use hanlin.Manual.Sections.{
  Section, lines_of, Plain, AllSections, search_by_section, search_lines_correct,
}

abbrev page : List ℕ
page = codes "ls\nlists\n"

-- One page, in section 2.
abbrev one_page : Files
one_page path = if str_eq path (codes "./man_pages/man2/ls.2") then some page else none

page-IsText : IsText page
page-IsText = ground arith

one_page-IsText : (path text : List ℕ) → one_page path ≡ some text → IsText text
one_page-IsText path text h = when (str_eq path (codes "./man_pages/man2/ls.2")) h
  where
    when : (b : Bool) → (if b then some page else none) ≡ some text → IsText text
    when true e = subst IsText (some-injective _ _ e) page-IsText
    when false e = absurd (none_ne e)
      where
        none_ne : none ≡ some text → ⊥
        none_ne e = cc

wman_runs : wman one_page (codes "ls" ∷ []) ≡ ok (0, page)
unfolding wman str_eq
wman_runs = refl

wman_correct_example :
    PrintsFirst one_page (codes "ls") × PrintsSection one_page (codes "3") (codes "ls") 3
unfolding atoi
wman_correct_example =
    wman_correct one_page (codes "ls") (codes "3") 3 (omega arith) one_page-IsText refl
      (omega arith) (omega arith)

abbrev heading : List ℕ → List ℕ
heading name = bold ++ (name ++ codes "\n")

abbrev sections : List Section
sections =
    record { heading = heading (codes "NAME"); body = codes "ls - lists\n" ∷ [] }
    ∷ record { heading = heading (codes "SYNOPSIS"); body = codes "ls\n" ∷ [] }
    ∷ record {
      heading = heading (codes "DESCRIPTION");
      body = codes "It shows\n" ∷ codes "the files\n" ∷ [];
    }
    ∷ record { heading = heading (codes "SEE ALSO"); body = [] }
    ∷ []

nil_ne : {l : List ℕ} {ls : List (List ℕ)} → l ∷ ls ≡ [] → ⊥
nil_ne h = cc

sections-IsSection : AllSections (codes "file") sections
unfolding starts_with contains is_name
sections-IsSection = (
  record {
    bold_heading = refl;
    plain_body = (refl, tt);
    not_in_heading = refl;
    name_line = λ h e. nil_ne e;
  },
  (
    record {
      bold_heading = refl;
      plain_body = (refl, tt);
      not_in_heading = refl;
      name_line = λ h e. nil_ne e;
    },
    (
      record {
        bold_heading = refl;
        plain_body = (refl, (refl, tt));
        not_in_heading = refl;
        name_line = λ h e. nil_ne e;
      },
      (
        record {
          bold_heading = refl;
          plain_body = tt;
          not_in_heading = refl;
          name_line = λ h e. false_ne h;
        },
        tt,
      ),
    ),
  ),
)
  where
    false_ne : false ≡ true → ⊥
    false_ne h = cc

before-Plain : Plain (codes "ls(1)\n" ∷ [])
unfolding starts_with
before-Plain = (refl, tt)

search_lines_correct_example :
    search_lines
      (codes "./man_pages/man1/ls.1")
      (codes "file")
      false
      none
      ((codes "ls(1)\n" ∷ []) ++ lines_of sections)
    ≡ search_by_section (codes "./man_pages/man1/ls.1") (codes "file") none sections
search_lines_correct_example =
    search_lines_correct (codes "./man_pages/man1/ls.1") (codes "file") (codes "ls(1)\n" ∷ [])
      sections before-Plain sections-IsSection

-- The keyword is in the first page of section 1 and not in the second.
abbrev two_pages : Files
two_pages path =
    if str_eq path (codes "./man_pages/man1/ls.1")
    then some (concat ((codes "ls(1)\n" ∷ []) ++ lines_of sections))
    else some page

abbrev man1 : List ℕ → Option (List (List ℕ))
man1 path =
    if str_eq path (codes "./man_pages/man1") then some (codes "ls.1" ∷ codes "rm.1" ∷ []) else none

wapropos_forgets :
    wapropos two_pages man1 (codes "file" ∷ []) ≡ ok (codes "ls (1) - lists\nnothing appropriate\n")
unfolding wapropos str_eq
wapropos_forgets = refl
