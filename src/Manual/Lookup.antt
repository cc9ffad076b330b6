-- ===== src/Manual/Lookup.antt =====
-- wman.c.
use hanlin.Base.{
  ℕ, zero, suc, ◌+◌, ◌||◌, List, [], ◌∷◌, ◌++◌, Option, none, some, ltb, map, if◌then◌else◌, length,
  Run, ok, fault, buffer_overflow, ◌>>=◌, pos, negsuc,
}
use hanlin.CString.{c_str, atoi}
use hanlin.Proxy.Request.{codes}
use hanlin.Manual.{Files, fgets_lines, concat}

-- `strcat` on `filepath`, an array of 256 bytes.
unfoldable pub strcat : List ℕ → List ℕ → Run (List ℕ)
strcat s t = if ltb 255 (length s + length t) then fault buffer_overflow else ok (s ++ t)

-- `charToString` on `filepath`
unfoldable pub char_to_string : List ℕ → ℕ → Run (List ℕ)
unfolding strcat
char_to_string s ch = strcat s (ch ∷ [])

-- The path of a page in a section.
unfoldable pub make_path : ℕ → List ℕ → Run (List ℕ)
unfolding strcat char_to_string
make_path section name = do
  path ← char_to_string (codes "./man_pages/man") (section + 48)
  path ← char_to_string path 47
  path ← strcat path name
  path ← char_to_string path 46
  char_to_string path (section + 48)

-- The loop over `count` sections from `i` on: the first page that there is.
unfoldable pub find_page : Files → ℕ → ℕ → List ℕ → Run (Option (List ℕ))
unfolding make_path
find_page fopen zero i name = ok none
find_page fopen (suc count) i name = do
  path ← make_path i name
  elim (fopen path) [ some page ↦ ok (some page) | none ↦ find_page fopen count (i + 1) name ]

-- The loop that prints a page.
unfoldable pub print_page : List ℕ → List ℕ
unfolding fgets_lines c_str
print_page page = concat (map c_str (fgets_lines 999 999 page))

abbrev pub usage : List ℕ
usage = codes "What manual page do you want?\nFor example, try 'wman wman'\n"

-- `main` on the arguments behind the name of the program: its status and what it prints.
unfoldable pub wman : Files → List (List ℕ) → Run (ℕ × List ℕ)
unfolding find_page make_path print_page atoi
wman fopen [] = ok (0, usage)
wman fopen (name ∷ []) = find_page fopen 9 1 name >>= λ fp. elim fp [
  | none ↦ ok (0, codes "No manual entry for " ++ (name ++ codes "\n"))
  | some page ↦ ok (0, print_page page)
]
wman fopen (number ∷ name ∷ []) = elim (atoi number) [
  | negsuc n ↦ ok (1, codes "invalid section\n")
  | pos section ↦
      if ltb section 1 || ltb 9 section
      then ok (1, codes "invalid section\n")
      else make_path section name >>= λ path. elim (fopen path) [
        | none ↦ ok (
          0,
          codes "No manual entry for "
              ++ (name ++ (codes " in section " ++ (number ++ codes "\n"))),
        )
        | some page ↦ ok (0, print_page page)
      ]
]
wman fopen (a ∷ b ∷ c ∷ rest) = ok (0, usage)
