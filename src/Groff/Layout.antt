-- ===== src/Groff/Layout.antt =====
-- The first and the last line that wgroff.c writes.
use hanlin.Base.{
  ℕ, zero, suc, ◌+◌, ◌-◌, ◌*◌, ◌/◌, ◌≤◌, ◌≡◌, refl, ap, true, List, [], ◌∷◌, ◌++◌, length, arith,
  length-append,
}
use hanlin.Groff.{date_check, title_line, date_line, spaces, gap}

length-spaces : (n : ℕ) → length (spaces n) ≡ n
length-spaces zero = refl
length-spaces (suc n) = ap suc (length-spaces n)

date_check-length : (date : List ℕ) → date_check date ≡ true → length date ≡ 10
unfolding date_check
date_check-length date good = ground (arith)

-- For a title of at most 37 bytes and a date that passes the check, the first line has 80 columns and
-- a line break, and so has the last.
pub lines-columns :
    (title date : List ℕ) (section : ℕ)
    → length title ≤ 37
    → date_check date ≡ true
    → (length (title_line title section) ≡ 81) × (length (date_line date) ≡ 81)
unfolding title_line date_line
lines-columns title date section short good =
    let name = title ++ (40 ∷ (48 + section) ∷ 41 ∷ []) in
    let width : gap title ≡ 80 - (length title * 2 + 6) = ground arith in
    let padding = (80 - length date) / 2 in
    (
      omega (
        arith,
        width,
        length-append name (spaces (gap title) ++ (name ++ (10 ∷ []))),
        length-append title (40 ∷ (48 + section) ∷ 41 ∷ []),
        length-append (spaces (gap title)) (name ++ (10 ∷ [])),
        length-append name (10 ∷ []),
        length-spaces (gap title),
      ),
      omega (
        arith,
        date_check-length date good,
        length-append (spaces padding) (date ++ (spaces padding ++ (10 ∷ []))),
        length-append date (spaces padding ++ (10 ∷ [])),
        length-append (spaces padding) (10 ∷ []),
        length-spaces padding,
      ),
    )
