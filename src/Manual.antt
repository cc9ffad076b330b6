-- ===== src/Manual.antt =====
-- private/P1/wman.c and private/P1/wapropos.c: the search for a manual page. What `fopen` finds behind a
-- path is an argument, the contents of the file; a string is a list of bytes that are not NUL.
pub mod Lookup
pub mod Search
pub mod Found
pub mod Sections
mod Tests
use hanlin.Base.{
  ℕ, zero, suc, ◌+◌, ◌-◌, ◌≡◌, refl, ap, ◌∙◌, Bool, true, false, ◌||◌, List, [], ◌∷◌, ◌++◌, Option,
  none, some, ◌==◌, if◌then◌else◌, inl, inr, Bool-cases,
}

-- The files: what `fopen(path, "r")` finds.
abbrev pub Files : Type 0
Files = List ℕ → Option (List ℕ)

abbrev pub cons_first : ℕ → List (List ℕ) → List (List ℕ)
cons_first c [] = (c ∷ []) ∷ []
cons_first c (l ∷ ls) = (c ∷ l) ∷ ls

-- What the calls of `fgets(line, size + 1, fp)` read one after the other, when `left` bytes of the
-- first line may still come.
unfoldable pub fgets_lines : ℕ → ℕ → List ℕ → List (List ℕ)
fgets_lines size left [] = []
fgets_lines size left (c ∷ s) =
    let next = fgets_lines size size s in
    let same = fgets_lines size (left - 1) s in
    if c == 10 || left == 1 then (c ∷ []) ∷ next else cons_first c same

abbrev pub concat : List (List ℕ) → List ℕ
concat [] = []
concat (l ∷ ls) = l ++ concat ls

concat-cons_first : (c : ℕ) (ls : List (List ℕ)) → concat (cons_first c ls) ≡ c ∷ concat ls
concat-cons_first c [] = refl
concat-cons_first c (l ∷ ls) = refl

-- The lines make up the file.
pub concat-fgets_lines : (size left : ℕ) (s : List ℕ) → concat (fgets_lines size left s) ≡ s
unfolding fgets_lines
concat-fgets_lines size left [] = refl
concat-fgets_lines size left (c ∷ s) = elim (Bool-cases (c == 10 || left == 1)) [
  | inl ends ↦ rw (fgets_lines, ends) (ap (◌∷◌ c) (concat-fgets_lines size size s))
  | inr goes ↦
      rw (fgets_lines, goes)
        (concat-cons_first c (fgets_lines size (left - 1) s)
          ∙ ap (◌∷◌ c) (concat-fgets_lines size (left - 1) s))
]
