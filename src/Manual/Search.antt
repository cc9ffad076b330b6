-- ===== src/Manual/Search.antt =====
-- wapropos.c.
use hanlin.Base.{
  ℕ, zero, suc, ◌+◌, Bool, true, false, ◌&&◌, not, List, [], ◌∷◌, ◌++◌, Option, none, some, ltb,
  ◌==◌, if◌then◌else◌, take, length, Run, ok, fault, out_of_bounds, null_dereference, or_fault,
  ◌>>=◌,
}
use hanlin.CString.{strtok, after_last}
use hanlin.Groff.{strip, strstr}
use hanlin.Proxy.Request.{codes}
use hanlin.Manual.{Files, fgets_lines}

-- `strchr(s, c) + 1`
unfoldable pub after_first : ℕ → List ℕ → Option (List ℕ)
after_first c [] = none
after_first c (d ∷ s) = let rest = after_first c s in if d == c then some s else rest

-- `strncmp(s, p, strlen(p)) == 0`
unfoldable pub starts_with : List ℕ → List ℕ → Bool
unfolding strip
starts_with p s = elim (strip p s) [ none ↦ false | some rest ↦ true ]

-- `strstr(s, sub) != NULL`
unfoldable pub contains : List ℕ → List ℕ → Bool
unfolding strstr
contains sub s = elim (strstr sub s) [ none ↦ false | some at ↦ true ]

abbrev pub bold : List ℕ
bold = 27 ∷ 91 ∷ 49 ∷ 109 ∷ []

-- The calls of `strncmp` compare 12 and 5 bytes of the headings "DESCRIPTION" and "NAME" in bold.
unfoldable pub is_description : List ℕ → Bool
unfolding starts_with
is_description line = starts_with (bold ++ codes "DESCRIPT") line

unfoldable pub is_name : List ℕ → Bool
unfolding starts_with
is_name line = starts_with (bold ++ codes "N") line

-- What is printed for a page where the keyword was found.
unfoldable pub report : List ℕ → Option (List ℕ) → Run (List ℕ)
unfolding after_first strtok after_last
report filename name_line = if ltb 255 (length filename) then fault out_of_bounds else do
  page ← or_fault (strtok (λ c. c == 46) filename) null_dereference
  title ← or_fault (after_last 47 page.0) null_dereference
  section ← or_fault (after_last 46 filename) null_dereference
  line ← or_fault name_line null_dereference
  text ← or_fault (after_first 45 line) null_dereference
  ok (title ++ (codes " (" ++ (section ++ (codes ") -" ++ text))))

-- The loop of `searchFileForKeyword` over the lines: what it prints if it finds the keyword.
unfoldable pub search_lines :
    List ℕ → List ℕ → Bool → Option (List ℕ) → List (List ℕ) → Run (Option (List ℕ))
unfolding report starts_with contains is_description is_name
search_lines filename keyword in_description name_line [] = ok none
search_lines filename keyword in_description name_line (line ∷ []) =
    elim (not (is_description line) && (in_description && contains keyword line)) [
      | true ↦ report filename name_line >>= λ text. ok (some text)
      | false ↦ ok none
    ]
search_lines filename keyword in_description name_line (line ∷ next ∷ rest) =
    elim (is_description line) [
      | true ↦ search_lines filename keyword true name_line (next ∷ rest)
      | false ↦ elim (in_description && contains keyword line) [
        | true ↦ report filename name_line >>= λ text. ok (some text)
        | false ↦ elim (is_name line) [
          | true ↦
              search_lines filename keyword (in_description && not (starts_with bold line))
                (some next) rest
          | false ↦
              search_lines filename keyword (in_description && not (starts_with bold line))
                name_line (next ∷ rest)
        ]
      ]
    ]

-- `searchFileForKeyword`
unfoldable pub search_file : Files → List ℕ → List ℕ → Run (Option (List ℕ))
unfolding search_lines fgets_lines
search_file fopen filename keyword = elim (fopen filename) [
  | none ↦ ok none
  | some file ↦ search_lines filename keyword false none (fgets_lines 1023 1023 file)
]

-- What `main` has printed, and `found`.
pub record Searched : Type 0 where
  pub printed : List ℕ
  pub found : Bool

abbrev pub note : Searched → Option (List ℕ) → Searched
note s none = record s { found = false }
note s (some text) = record { printed = s.printed ++ text; found = true }

-- The loop over the regular files of a directory.
unfoldable pub search_directory : Files → List ℕ → List ℕ → List (List ℕ) → Searched → Run Searched
unfolding search_file
search_directory fopen keyword path [] s = ok s
search_directory fopen keyword path (name ∷ names) s =
    search_file fopen (take 499 (path ++ (47 ∷ name))) keyword >>= λ found.
    search_directory fopen keyword path names (note s found)

-- The loop over `count` sections from `i` on; `readdir` gives the names of the regular files in a
-- directory that can be opened.
unfoldable pub search_sections :
    Files → (List ℕ → Option (List (List ℕ))) → List ℕ → ℕ → ℕ → Searched → Run Searched
unfolding search_directory
search_sections fopen readdir keyword zero i s = ok s
search_sections fopen readdir keyword (suc count) i s =
    let path = codes "./man_pages/man" ++ ((i + 48) ∷ []) in
    elim (readdir path) [
      | none ↦ search_sections fopen readdir keyword count (i + 1) s
      | some names ↦ search_directory fopen keyword path names s >>= λ s'.
          search_sections fopen readdir keyword count (i + 1) s'
    ]

-- `main` on the arguments behind the name of the program: what it prints.
unfoldable pub wapropos : Files → (List ℕ → Option (List (List ℕ))) → List (List ℕ) → Run (List ℕ)
unfolding search_sections
wapropos fopen readdir [] = ok (codes "wapropos what?\n")
wapropos fopen readdir (keyword ∷ []) =
    search_sections fopen readdir keyword 9 1 (record { printed = []; found = false }) >>= λ s.
    ok (if s.found then s.printed else s.printed ++ codes "nothing appropriate\n")
wapropos fopen readdir (a ∷ b ∷ rest) = ok (codes "wapropos what?\n")
