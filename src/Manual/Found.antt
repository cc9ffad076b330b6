-- ===== src/Manual/Found.antt =====
-- wman.c: which page is printed.
use hanlin.Base.{
  ℕ, zero, suc, ◌+◌, ◌≤◌, ◌<◌, ◌≡◌, ◌≢◌, refl, sym, ap, ◌∙◌, subst, false, List, [], ◌∷◌, ◌++◌,
  Option, none, some, length, length-append, ltb, map, Run, ok, fault, buffer_overflow, ◌>>=◌, ◌⊎◌,
  inl, inr, arith, append_assoc, Option-cases, pos, ℕ_discrete, ◌||◌,
}
use hanlin.CString.{c_str, atoi}
use hanlin.Proxy.Request.{codes}
use hanlin.Manual.{Files, fgets_lines, concat, concat-fgets_lines}
use hanlin.Manual.Lookup.{strcat, char_to_string, make_path, find_page, print_page, wman}

-- The path of a page in a section.
abbrev pub page_path : ℕ → List ℕ → List ℕ
page_path section name =
    codes "./man_pages/man" ++ ((section + 48) ∷ 47 ∷ (name ++ (46 ∷ (section + 48) ∷ [])))

-- The path in front of the name.
abbrev front : ℕ → List ℕ
front section = codes "./man_pages/man" ++ ((section + 48) ∷ 47 ∷ [])

strcat_fits : (s t : List ℕ) → length s + length t < 256 → strcat s t ≡ ok (s ++ t)
unfolding strcat
strcat_fits s t h = ground arith

strcat_full : (s t : List ℕ) → 256 ≤ length s + length t → strcat s t ≡ fault buffer_overflow
unfolding strcat
strcat_full s t h = ground arith

make_path_fits :
    (section : ℕ) (name : List ℕ)
    → length name < 237
    → make_path section name ≡ ok (page_path section name)
unfolding make_path char_to_string strcat
make_path_fits section name h =
    let dotted =
      strcat_fits (front section ++ name) (46 ∷ [])
        (omega (arith, length-append (front section) name)) in
    let whole = strcat_fits ((front section ++ name) ++ (46 ∷ [])) ((section + 48) ∷ []) (
      omega (
        arith,
        length-append (front section ++ name) (46 ∷ []),
        length-append (front section) name,
      )) in
    ap (λ r. r >>= λ path. char_to_string path 46 >>= λ p. char_to_string p (section + 48))
      (strcat_fits (front section) name (omega arith))
    ∙ ap (λ r. r >>= λ p. char_to_string p (section + 48)) dotted
    ∙ whole
    ∙ ap (λ p. ok p)
        (append_assoc (front section ++ name) (46 ∷ []) ((section + 48) ∷ [])
          ∙ append_assoc (front section) name (46 ∷ (section + 48) ∷ []))

-- The file has no byte that is NUL.
abbrev pub IsText : List ℕ → Type 0
IsText [] = Unit
IsText (c ∷ s) = (c ≢ 0) × IsText s

c_str-IsText : (s : List ℕ) → IsText s → c_str s ≡ s
unfolding c_str
c_str-IsText [] h = refl
c_str-IsText (c ∷ s) h = let (nonzero, rest) = h in ground (arith, c_str-IsText s rest)

IsText-append : (s t : List ℕ) → IsText (s ++ t) → IsText s × IsText t
IsText-append [] t h = (tt, h)
IsText-append (c ∷ s) t h = let both = IsText-append s t h.1 in ((h.0, both.0), both.1)

concat-c_str : (ls : List (List ℕ)) → IsText (concat ls) → concat (map c_str ls) ≡ concat ls
concat-c_str [] h = refl
concat-c_str (l ∷ ls) h =
    let (here, rest) = IsText-append l (concat ls) h in
    ap (λ x. x ++ concat (map c_str ls)) (c_str-IsText l here)
    ∙ ap (λ x. l ++ x) (concat-c_str ls rest)

print_page-IsText : (page : List ℕ) → IsText page → print_page page ≡ page
unfolding print_page
print_page-IsText page h =
    let whole = concat-fgets_lines 999 999 page in
    concat-c_str (fgets_lines 999 999 page) (subst IsText (sym whole) h) ∙ whole

module _ (fopen : Files) (name : List ℕ) (fits : length name < 237) where
  -- There is a page in a section from `i` on, and none in those before it; or in none of `count` sections.
  abbrev FirstPage : ℕ → ℕ → Run (Option (List ℕ)) → Type 0
  FirstPage count i result =
      ((k : ℕ) × (page : List ℕ) × (i ≤ k)
        × (k < i + count)
        × (fopen (page_path k name) ≡ some page)
        × ((j : ℕ) → i ≤ j → j < k → fopen (page_path j name) ≡ none)
        × (result ≡ ok (some page)))
      ⊎ (((j : ℕ) → i ≤ j → j < i + count → fopen (page_path j name) ≡ none) × (result ≡ ok none))

  absent_from :
      (i n : ℕ)
      → fopen (page_path i name) ≡ none
      → ((j : ℕ) → i + 1 ≤ j → j < n → fopen (page_path j name) ≡ none)
      → (j : ℕ) → i ≤ j
      → j < n
      → fopen (page_path j name) ≡ none
  absent_from i n here rest j low high = elim (ℕ_discrete i j) [
    | yes e ↦ subst (λ x. fopen (page_path x name) ≡ none) e here
    | no ne ↦ rest j (omega (arith, low, ne)) high
  ]

  find_page-FirstPage : (count i : ℕ) → FirstPage count i (find_page fopen count i name)
  unfolding find_page
  find_page-FirstPage zero i = inr ((λ j low high. absurd (omega (arith, low, high))), refl)
  find_page-FirstPage (suc count) i = elim (Option-cases (fopen (page_path i name))) [
    | inr (page, e) ↦ inl (
      i,
      page,
      omega arith,
      omega arith,
      e,
      (λ j low high. absurd (omega (arith, low, high))),
      rw (find_page, make_path_fits i name fits, e) refl,
    )
    | inl e ↦
        let step : find_page fopen (suc count) i name ≡ find_page fopen count (i + 1) name =
          rw (find_page, make_path_fits i name fits, e) refl in
        elim (find_page-FirstPage count (i + 1)) [
          | inl (k, page, low, high, there, before, result) ↦
              inl
                (k, page, omega arith, omega arith, there, absent_from i k e before, step ∙ result)
          | inr (missing, result) ↦ inr (
            (λ j low high. absent_from i (i + 1 + count) e missing j low (omega arith)),
            step ∙ result,
          )
        ]
  ]

-- `wman name` prints the page of the first section that has one, or that there is none.
abbrev pub PrintsFirst : Files → List ℕ → Type 0
PrintsFirst fopen name =
    ((k : ℕ) × (page : List ℕ) × (1 ≤ k)
      × (k ≤ 9)
      × (fopen (page_path k name) ≡ some page)
      × ((j : ℕ) → 1 ≤ j → j < k → fopen (page_path j name) ≡ none)
      × (wman fopen (name ∷ []) ≡ ok (0, page)))
    ⊎ (((j : ℕ) → 1 ≤ j → j ≤ 9 → fopen (page_path j name) ≡ none)
        × (wman fopen (name ∷ []) ≡ ok (0, codes "No manual entry for " ++ (name ++ codes "\n"))))

-- `wman number name` prints the page of the section, or that there is none.
abbrev pub PrintsSection : Files → List ℕ → List ℕ → ℕ → Type 0
PrintsSection fopen number name section =
    wman fopen (number ∷ name ∷ [])
    ≡ ok (
      0,
      elim (fopen (page_path section name)) [
        | some page ↦ page
        | none ↦
            codes "No manual entry for "
            ++ (name ++ (codes " in section " ++ (number ++ codes "\n")))
      ],
    )

module _ (fopen : Files) (name : List ℕ) (fits : length name < 237)
    (texts : (path page : List ℕ) → fopen path ≡ some page → IsText page) where
  wman_name : PrintsFirst fopen name
  unfolding wman
  wman_name = elim (find_page-FirstPage fopen name fits 9 1) [
    | inl (k, page, least, most, there, before, result) ↦ inl (
      k,
      page,
      least,
      omega arith,
      there,
      before,
      rw (wman, result)
          (ap (λ p. ok (0, p)) (print_page-IsText page (texts (page_path k name) page there))),
    )
    | inr (missing, result) ↦ inr ((λ j l h. missing j l (omega arith)), rw (wman, result) refl)
  ]

  valid_section : (n : ℕ) → 1 ≤ n → n ≤ 9 → (ltb n 1 || ltb 9 n) ≡ false
  valid_section n low high = ground arith

  wman_section :
      (number : List ℕ) (section : ℕ)
      → atoi number ≡ pos section
      → 1 ≤ section
      → section ≤ 9
      → PrintsSection fopen number name section
  unfolding wman
  wman_section number section digits low high =
      elim (Option-cases (fopen (page_path section name))) [
        | inl e ↦
            rw (wman, digits, valid_section section low high)
              (rw (make_path_fits section name fits, e) refl)
        | inr (page, e) ↦
            rw (wman, digits, valid_section section low high)
              (rw (make_path_fits section name fits, e)
                (ap (λ p. ok (0, p))
                  (print_page-IsText page (texts (page_path section name) page e))))
      ]

-- With a name of at most 236 bytes and pages without NUL bytes, `wman name` prints the whole page of
-- the lowest section from 1 to 9 that has one, and says that there is no entry if none has; with the
-- number of a section in front of the name it does the same for that section.
pub wman_correct :
    (fopen : Files) (name number : List ℕ) (section : ℕ)
    → length name < 237
    → ((path page : List ℕ) → fopen path ≡ some page → IsText page)
    → atoi number ≡ pos section
    → 1 ≤ section
    → section ≤ 9
    → PrintsFirst fopen name × PrintsSection fopen number name section
wman_correct fopen name number section fits texts digits low high = (
  wman_name fopen name fits texts,
  wman_section fopen name fits texts number section digits low high,
)
