-- ===== src/CString.antt =====
-- The parts of the C library's <string.h> and <stdlib.h> that the programs call, on strings as
-- lists of bytes that are not NUL: strtok, strcmp, strrchr and atoi.
pub mod Tokens
use hanlin.Base.{
  ℕ, zero, suc, ◌+◌, ◌-◌, ◌*◌, ◌≡◌, refl, Bool, true, false, ◌&&◌, ◌||◌, List, [], ◌∷◌, ◌++◌,
  Option, none, some, arith, ltb, leb, ◌==◌, if◌then◌else◌, length, ℤ, pos, neg,
}

-- What a `char` array holds as a string: the bytes in front of the first NUL.
unfoldable pub c_str : List ℕ → List ℕ
c_str [] = []
c_str (c ∷ s) = if c == 0 then [] else c ∷ c_str s

-- `strcmp(s, t) == 0`
unfoldable pub str_eq : List ℕ → List ℕ → Bool
str_eq [] [] = true
str_eq [] (d ∷ t) = false
str_eq (c ∷ s) [] = false
str_eq (c ∷ s) (d ∷ t) = c == d && str_eq s t

-- Whether a byte is one of a string's.
unfoldable pub is_in : List ℕ → ℕ → Bool
is_in [] c = false
is_in (d ∷ ds) c = d == c || is_in ds c

unfoldable pub skip : (ℕ → Bool) → List ℕ → List ℕ
skip d [] = []
skip d (c ∷ s) = if d c then skip d s else c ∷ s

-- The token in front of the first delimiter, and what stands behind that delimiter.
unfoldable pub until : (ℕ → Bool) → List ℕ → List ℕ × List ℕ
until d [] = ([], [])
until d (c ∷ s) = let (t, r) = until d s in if d c then ([], s) else (c ∷ t, r)

-- One call of strtok: the token, and the text that the next call goes on with.
unfoldable pub strtok : (ℕ → Bool) → List ℕ → Option (List ℕ × List ℕ)
unfolding skip until
strtok d s = elim (skip d s) [ [] ↦ none | c ∷ r ↦ some (until d (c ∷ r)) ]

-- The text behind the last `/`, and the text in front of it: `strrchr(s, '/')`.
unfoldable pub after_last : ℕ → List ℕ → Option (List ℕ)
after_last c [] = none
after_last c (x ∷ s) = elim (after_last c s) [
  | some r ↦ some r
  | none ↦ if x == c then some s else none
]

unfoldable pub before_last : ℕ → List ℕ → Option (List ℕ)
before_last c [] = none
before_last c (x ∷ s) = elim (before_last c s) [
  | some r ↦ some (x ∷ r)
  | none ↦ if x == c then some [] else none
]

is_space : ℕ → Bool
is_space c = c == 32 || (leb 9 c && leb c 13)

-- The number that the leading digits write, on top of `acc`.
digits : ℕ → List ℕ → ℕ
digits acc [] = acc
digits acc (c ∷ s) =
    let more = digits (acc * 10 + (c - b'0')) s in if leb b'0' c && leb c b'9' then more else acc

signed : List ℕ → ℤ
signed [] = pos 0
signed (c ∷ s) =
    if c == b'-'
    then neg (pos (digits 0 s))
    else if c == b'+'
    then pos (digits 0 s)
    else pos (digits 0 (c ∷ s))

-- `atoi`; a number that no `int` holds, for which C fixes no result, is not cut.
unfoldable pub atoi : List ℕ → ℤ
unfolding signed digits is_space skip neg
atoi s = signed (skip is_space s)

pub str_eq→eq : (s t : List ℕ) → str_eq s t ≡ true → s ≡ t
unfolding str_eq
str_eq→eq [] [] h = refl
str_eq→eq [] (d ∷ t) h = cc
str_eq→eq (c ∷ s) [] h = cc
str_eq→eq (c ∷ s) (d ∷ t) h = ground (arith, str_eq→eq s t)

pub str_eq_refl : (s : List ℕ) → str_eq s s ≡ true
unfolding str_eq
str_eq_refl [] = refl
str_eq_refl (c ∷ s) = ground (arith, str_eq_refl s)
