-- ===== src/Groff/Replace.antt =====
-- `replaceStr` of wgroff.c: what it replaces, and that its loop ends.
use hanlin.Base.{
  ℕ, zero, suc, ◌+◌, ◌≤◌, ◌<◌, ◌≡◌, refl, sym, ◌∙◌, ap, subst, List, [], ◌∷◌, ◌++◌, Option, none,
  some, ltb, ◌==◌, if◌then◌else◌, length, arith, ok, fault, buffer_overflow, ◌>>=◌, Returns,
  returns, Bool-cases, inl, inr, Option-cases, length-append, Returns-value,
}
use hanlin.Groff.{strip, strstr, in_front, replace_loop, replace_str}

-- `sub` stands in `s` behind `before`.
abbrev pub OccursAt : List ℕ → List ℕ → List ℕ → Type 0
OccursAt sub s before = (after : List ℕ) × (s ≡ before ++ (sub ++ after))

-- The text with every occurrence replaced, found from the left and not overlapping.
pub data Replaced (sub replacement : List ℕ) : List ℕ → List ℕ → Type 0 where
  no_more :
      {s : List ℕ} → ((before : List ℕ) → ¬ (OccursAt sub s before)) → Replaced sub replacement s s
  one_more :
      (before : List ℕ) {after rest : List ℕ}
      → ((earlier : List ℕ)
          → OccursAt sub (before ++ (sub ++ after)) earlier
          → length before ≤ length earlier)
      → Replaced sub replacement after rest
      → Replaced sub replacement (before ++ (sub ++ after)) (before ++ (replacement ++ rest))

strip-some : (p s r : List ℕ) → strip p s ≡ some r → s ≡ p ++ r
unfolding strip
strip-some [] s r h = cc
strip-some (c ∷ p) [] r h = cc
strip-some (c ∷ p) (d ∷ s) r h = elim (Bool-cases (c == d)) [
  | inl same ↦ ground (arith, strip-some p s r)
  | inr other ↦ ground arith
]

strip-append : (p r : List ℕ) → strip p (p ++ r) ≡ some r
unfolding strip
strip-append [] r = refl
strip-append (c ∷ p) r = ground (arith, strip-append p r)

-- What strstr promises of its answer.
abbrev Found : List ℕ → List ℕ → Option (List ℕ × List ℕ) → Type 0
Found sub s none = (before : List ℕ) → ¬ (OccursAt sub s before)
Found sub s (some (before, after)) =
    (s ≡ before ++ (sub ++ after))
    × ((earlier : List ℕ) → OccursAt sub s earlier → length before ≤ length earlier)

not_in_front : (sub s after : List ℕ) → strip sub s ≡ none → ¬ (s ≡ sub ++ after)
not_in_front sub s after fails e = none-some (sym fails ∙ ap (strip sub) e ∙ strip-append sub after)
  where
    none-some : {A : Type 0} {a : A} → ¬ (none ≡ some a)
    none-some h = cc

-- An occurrence that is not in front stands in the rest of the string.
OccursAt-tail :
    (sub : List ℕ) (c : ℕ) (s before : List ℕ)
    → strip sub (c ∷ s) ≡ none
    → OccursAt sub (c ∷ s) before
    → (shorter : List ℕ) × (length before ≡ suc (length shorter)) × OccursAt sub s shorter
OccursAt-tail sub c s [] fails (after, e) = absurd (not_in_front sub (c ∷ s) after fails e)
OccursAt-tail sub c s (x ∷ b) fails (after, e) = (b, refl, (after, cc))

Found-tail :
    (sub : List ℕ) (c : ℕ) (s : List ℕ) (o : Option (List ℕ × List ℕ))
    → strip sub (c ∷ s) ≡ none
    → Found sub s o
    → Found sub (c ∷ s) (in_front c o)
Found-tail sub c s none fails missing = λ before occurs.
    let (shorter, _, inside) = OccursAt-tail sub c s before fails occurs in missing shorter inside
Found-tail sub c s (some (before, after)) fails (e, first) = (
  ap (◌∷◌ c) e,
  λ earlier occurs.
      let (shorter, size, inside) = OccursAt-tail sub c s earlier fails occurs in
      omega (arith, size, first shorter inside),
)

Found-empty : (sub : List ℕ) → strip sub [] ≡ none → Found sub [] none
Found-empty sub fails [] (after, e) = not_in_front sub [] after fails e
Found-empty sub fails (x ∷ b) (after, e) = cc

Found-front : (sub s r : List ℕ) → strip sub s ≡ some r → Found sub s (some ([], r))
Found-front sub s r holds = (strip-some sub s r holds, λ earlier occurs. omega arith)

strstr_correct : (sub s : List ℕ) → Found sub s (strstr sub s)
unfolding strstr
strstr_correct sub [] = elim (Option-cases (strip sub [])) [
  | inl fails ↦
      let step : strstr sub [] ≡ none = rw (strstr, fails) in
      subst (Found sub []) (sym step) (Found-empty sub fails)
  | inr (r, holds) ↦
      let step : strstr sub [] ≡ some ([], r) = rw (strstr, holds) in
      subst (Found sub []) (sym step) (Found-front sub [] r holds)
]
strstr_correct sub (c ∷ s) = elim (Option-cases (strip sub (c ∷ s))) [
  | inl fails ↦
      let step : strstr sub (c ∷ s) ≡ in_front c (strstr sub s) = rw (strstr, fails) in
      subst (Found sub (c ∷ s)) (sym step)
        (Found-tail sub c s (strstr sub s) fails (strstr_correct sub s))
  | inr (r, holds) ↦
      let step : strstr sub (c ∷ s) ≡ some ([], r) = rw (strstr, holds) in
      subst (Found sub (c ∷ s)) (sym step) (Found-front sub (c ∷ s) r holds)
]

-- The loop ends, with every occurrence replaced.
replace_loop_correct :
    (fuel : ℕ) (sub replacement s : List ℕ)
    → 0 < length sub
    → length s < fuel
    → Returns (Replaced sub replacement s) (replace_loop fuel sub replacement s)
unfolding replace_loop
replace_loop_correct zero sub replacement s some_sub enough = absurd (omega (arith, enough))
replace_loop_correct (suc fuel) sub replacement s some_sub enough =
    elim (Option-cases (strstr sub s)) [
      | inl missing ↦
          let step : replace_loop (suc fuel) sub replacement s ≡ ok s =
            rw (replace_loop, missing) in
          subst (Returns (Replaced sub replacement s)) (sym step)
            (returns (no_more (subst (Found sub s) missing (strstr_correct sub s))))
      | inr ((before, after), found) ↦
          let (split, first) = subst (Found sub s) found (strstr_correct sub s) in
          let shorter : length after < fuel = omega (
            arith,
            ap length split,
            length-append before (sub ++ after),
            length-append sub after,
            some_sub,
          ) in
          let (rest, runs, replaced) =
            Returns-value (replace_loop_correct fuel sub replacement after some_sub shorter) in
          let step : replace_loop (suc fuel) sub replacement s
              ≡ ok (before ++ (replacement ++ rest)) =
            rw (replace_loop, found, runs) in
          subst (Returns (Replaced sub replacement s)) (sym step) (
            returns (
              subst (λ t. Replaced sub replacement t (before ++ (replacement ++ rest))) (sym split)
                (one_more before
                  (subst
                    (λ t.
                      (earlier : List ℕ) → OccursAt sub t earlier → length before ≤ length earlier)
                    split first)
                  replaced)))
    ]

replace_str-result :
    (s sub replacement result : List ℕ)
    → replace_loop (length s + 1) sub replacement s ≡ ok result
    → replace_str s sub replacement
      ≡ (if ltb 255 (length result) then fault buffer_overflow else ok result)
unfolding replace_str
replace_str-result s sub replacement result runs = rw (replace_str, runs, ◌>>=◌) (ground arith)

-- replaceStr of a string that is not empty finds the text with every occurrence replaced, and returns
-- it exactly if it fits the 256 bytes of the line: else it writes past an array.
pub replace_str_correct :
    (s sub replacement : List ℕ)
    → 0 < length sub
    → (result : List ℕ) × Replaced sub replacement s result
      × (replace_str s sub replacement
          ≡ (if ltb 255 (length result) then fault buffer_overflow else ok result))
replace_str_correct s sub replacement some_sub =
    let (result, runs, replaced) =
      Returns-value
        (replace_loop_correct (length s + 1) sub replacement s some_sub (omega arith)) in
    (result, replaced, replace_str-result s sub replacement result runs)
