-- ===== src/Groff.antt =====
-- private/P1/wgroff.c. A line is what `fgets` reads: at most 255 bytes. What `sscanf` makes of the
-- first line is an argument.
pub mod Replace
pub mod Layout
mod Tests
use hanlin.Base.{
  ℕ, zero, suc, ◌+◌, ◌-◌, ◌*◌, ◌/◌, ◌≡◌, Bool, true, false, ◌&&◌, ◌||◌, not, List, [], ◌∷◌, ◌++◌,
  Option, none, some, ltb, leb, ◌==◌, if◌then◌else◌, length, get_or, take, drop, Run, ok, fault,
  out_of_fuel, buffer_overflow, ◌>>=◌, ℤ, pos, negsuc,
}
use hanlin.CString.{str_eq}
use hanlin.Proxy.Request.{codes}

-- `toUpper`: the string ends at its first line break.
unfoldable pub to_upper : List ℕ → List ℕ
to_upper [] = []
to_upper (c ∷ s) =
    if c == 10 then [] else (if leb 97 c && leb c 122 then c - 32 else c) ∷ to_upper s

abbrev pub is_digit : ℕ → Bool
is_digit c = leb 48 c && leb c 57

abbrev pub all_digits : List ℕ → Bool
all_digits [] = true
all_digits (c ∷ s) = is_digit c && all_digits s

-- `dateCheck`
unfoldable pub date_check : List ℕ → Bool
date_check s =
    length s == 10
    && (all_digits (take 4 s)
        && (get_or s 4 0 == 45
            && (all_digits (take 2 (drop 5 s))
                && (get_or s 7 0 == 45 && all_digits (take 2 (drop 8 s))))))

-- What is left of a string behind a prefix.
unfoldable pub strip : List ℕ → List ℕ → Option (List ℕ)
strip [] s = some s
strip (c ∷ p) [] = none
strip (c ∷ p) (d ∷ s) = if c == d then strip p s else none

abbrev pub in_front : ℕ → Option (List ℕ × List ℕ) → Option (List ℕ × List ℕ)
in_front c none = none
in_front c (some (before, after)) = some (c ∷ before, after)

-- `strstr`: what stands before the first occurrence, and what stands behind it.
unfoldable pub strstr : List ℕ → List ℕ → Option (List ℕ × List ℕ)
unfolding strip
strstr sub [] = elim (strip sub []) [ none ↦ none | some after ↦ some ([], after) ]
strstr sub (c ∷ s) = elim (strip sub (c ∷ s)) [
  | none ↦ in_front c (strstr sub s)
  | some after ↦ some ([], after)
]

-- The loop of `replaceStr`: what it puts into its buffer.
unfoldable pub replace_loop : ℕ → List ℕ → List ℕ → List ℕ → Run (List ℕ)
replace_loop zero sub replacement s = out_of_fuel
replace_loop (suc fuel) sub replacement s = elim (strstr sub s) [
  | none ↦ ok s
  | some (before, after) ↦ do
    rest ← replace_loop fuel sub replacement after
    ok (before ++ (replacement ++ rest))
]

-- `replaceStr` on the array `line` of 256 bytes; its own buffer has 512.
unfoldable pub replace_str : List ℕ → List ℕ → List ℕ → Run (List ℕ)
unfolding replace_loop
replace_str s sub replacement = do
  result ← replace_loop (length s + 1) sub replacement s
  if ltb 511 (length result) || ltb 255 (length result) then fault buffer_overflow else ok result

-- The escape codes of the terminal: bold, italic, underlined and normal.
abbrev pub escape : ℕ → List ℕ
escape c = 27 ∷ 91 ∷ c ∷ 109 ∷ []

unfoldable pub process_line : List ℕ → Run (List ℕ)
unfolding replace_str
process_line line = do
  line ← replace_str line (codes "/fB") (escape 49)
  line ← replace_str line (codes "/fI") (escape 51)
  line ← replace_str line (codes "/fU") (escape 52)
  line ← replace_str line (codes "/fP") (escape 48)
  line ← replace_str line (codes "//") (codes "/")
  ok (codes "       " ++ line)

abbrev pub spaces : ℕ → List ℕ
spaces zero = []
spaces (suc n) = 32 ∷ spaces n

-- The width of the gap; `%*s` with a negative width pads on the other side.
abbrev pub gap : List ℕ → ℕ
gap title =
    let total_len = length title * 2 + 6 in
    if leb total_len 80 then 80 - total_len else total_len - 80

unfoldable pub title_line : List ℕ → ℕ → List ℕ
title_line title section =
    let name = title ++ (40 ∷ (48 + section) ∷ 41 ∷ []) in
    name ++ (spaces (gap title) ++ (name ++ (10 ∷ [])))

unfoldable pub date_line : List ℕ → List ℕ
date_line date =
    let padding = (80 - length date) / 2 in
    spaces padding ++ (date ++ (spaces padding ++ (10 ∷ [])))

-- One line of the text. `stale` is what the array has behind the NUL of a last line of three bytes.
unfoldable pub render_line : List ℕ → List ℕ → Run (List ℕ)
unfolding process_line to_upper
render_line stale line =
    if get_or line 0 0 == 35
    then ok []
    else if str_eq (take 3 line) (codes ".SH")
    then ok (
        (10 ∷ escape 49)
        ++ ((if length line == 3 then stale else drop 4 (to_upper line))
            ++ (escape 48 ++ (10 ∷ []))))
    else process_line line

unfoldable pub render : List ℕ → List (List ℕ) → Run (List ℕ)
unfolding render_line
render stale [] = ok []
render stale (line ∷ lines) = do
  first ← render_line stale line
  rest ← render stale lines
  ok (first ++ rest)

-- `main`, on the title, the section and the date that `sscanf` finds in the first line: the name of
-- the output file and its text, or `none` after the message on improper formatting.
unfoldable pub wgroff :
    Option (List ℕ × ℤ × List ℕ) → List ℕ → List (List ℕ) → Run (Option (List ℕ × List ℕ))
unfolding date_check title_line date_line render
wgroff none stale lines = ok none
wgroff (some (title, negsuc n, date)) stale lines =
    if ltb 99 (length title) || ltb 19 (length date) then fault buffer_overflow else ok none
wgroff (some (title, pos section, date)) stale lines =
    if ltb 99 (length title) || ltb 19 (length date)
    then fault buffer_overflow
    else if ltb 9 section || not (date_check date)
    then ok none
    else (do
      text ← render stale lines
      ok (
          some (
            title ++ (46 ∷ (48 + section) ∷ []),
            title_line title section ++ (text ++ date_line date),
          )))
