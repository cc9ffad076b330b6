-- ===== src/Manual/Sections.antt =====
-- wapropos.c: the loop over the lines of a page, against a search by sections.
use hanlin.Base.{
  ℕ, ◌≡◌, ◌≢◌, refl, ap, ◌∙◌, Bool, true, false, ◌&&◌, ◌||◌, not, List, [], ◌∷◌, ◌++◌, Option, none,
  some, ◌==◌, Run, ok, ◌>>=◌, inl, inr, Bool-cases,
}
use hanlin.Proxy.Request.{codes}
use hanlin.Manual.Search.{
  starts_with, contains, bold, is_description, is_name, report, search_lines,
}

-- A section of a page: its heading in bold, and its lines.
pub record Section : Type 0 where
  pub heading : List ℕ
  pub body : List (List ℕ)

abbrev pub lines_of : List Section → List (List ℕ)
lines_of [] = []
lines_of (s ∷ ss) = s.heading ∷ (s.body ++ lines_of ss)

abbrev pub any_line : List ℕ → List (List ℕ) → Bool
any_line keyword [] = false
any_line keyword (line ∷ lines) = contains keyword line || any_line keyword lines

abbrev pub first_line : List (List ℕ) → Option (List ℕ)
first_line [] = none
first_line (line ∷ lines) = some line

-- The search by sections: the first DESCRIPTION with the keyword in a line is reported with the first
-- line of the last NAME before it.
abbrev pub search_by_section :
    List ℕ → List ℕ → Option (List ℕ) → List Section → Run (Option (List ℕ))
search_by_section filename keyword name_line [] = ok none
search_by_section filename keyword name_line (s ∷ ss) = elim (is_description s.heading) [
  | true ↦ elim (any_line keyword s.body) [
    | true ↦ report filename name_line >>= λ text. ok (some text)
    | false ↦ search_by_section filename keyword name_line ss
  ]
  | false ↦ elim (is_name s.heading) [
    | true ↦ search_by_section filename keyword (first_line s.body) ss
    | false ↦ search_by_section filename keyword name_line ss
  ]
]

abbrev pub Plain : List (List ℕ) → Type 0
Plain [] = Unit
Plain (line ∷ lines) = (starts_with bold line ≡ false) × Plain lines

-- The heading is bold, the lines are not, the keyword is not in the heading, and the heading of a name
-- has a line.
pub record IsSection (keyword : List ℕ) (s : Section) : Type 0 where
  pub bold_heading : starts_with bold s.heading ≡ true
  pub plain_body : Plain s.body
  pub not_in_heading : contains keyword s.heading ≡ false
  pub name_line : is_name s.heading ≡ true → s.body ≢ []

abbrev pub AllSections : List ℕ → List Section → Type 0
AllSections keyword [] = Unit
AllSections keyword (s ∷ ss) = IsSection keyword s × AllSections keyword ss

starts_with-append : (p q s : List ℕ) → starts_with p s ≡ false → starts_with (p ++ q) s ≡ false
unfolding starts_with
starts_with-append [] q s h = absurd cc
starts_with-append (c ∷ p) q [] h = refl
starts_with-append (c ∷ p) q (d ∷ s) h = elim (Bool-cases (c == d)) [
  | inl e ↦ rw (starts_with, e) (starts_with-append p q s (rw (starts_with, e) at h))
  | inr e ↦ rw (starts_with, e) refl
]

-- One line of the loop, when another one may follow.
module _ (filename keyword : List ℕ) (d : Bool) (n : Option (List ℕ)) (line : List ℕ) where
  step_description :
      (rest : List (List ℕ))
      → is_description line ≡ true
      → search_lines filename keyword d n (line ∷ rest) ≡ search_lines filename keyword true n rest
  unfolding search_lines
  step_description [] h = rw h refl
  step_description (next ∷ rest) h = rw h refl

  step_match :
      (rest : List (List ℕ))
      → is_description line ≡ false
      → (d && contains keyword line) ≡ true
      → search_lines filename keyword d n (line ∷ rest)
        ≡ (report filename n >>= λ text. ok (some text))
  unfolding search_lines
  step_match [] h m = rw (h, m) refl
  step_match (next ∷ rest) h m = rw (h, m) refl

  step_name :
      (next : List ℕ) (rest : List (List ℕ))
      → is_description line ≡ false
      → (d && contains keyword line) ≡ false
      → is_name line ≡ true
      → search_lines filename keyword d n (line ∷ next ∷ rest)
        ≡ search_lines filename keyword (d && not (starts_with bold line)) (some next) rest
  unfolding search_lines
  step_name next rest h m e = rw (h, m, e) refl

  step_other :
      (rest : List (List ℕ))
      → is_description line ≡ false
      → (d && contains keyword line) ≡ false
      → is_name line ≡ false
      → search_lines filename keyword d n (line ∷ rest)
        ≡ search_lines filename keyword (d && not (starts_with bold line)) n rest
  unfolding search_lines
  step_other [] h m e = rw (h, m) refl
  step_other (next ∷ rest) h m e = rw (h, m, e) refl

and_true : (d : Bool) → (d && true) ≡ d
and_true true = refl
and_true false = refl

and_or : (d a b : Bool) → (d && (a || b)) ≡ false → ((d && a) ≡ false) × ((d && b) ≡ false)
and_or true true b h = absurd cc
and_or true false b h = (refl, h)
and_or false a b h = (refl, refl)

and_false : (d : Bool) {b : Bool} → b ≡ false → (d && b) ≡ false
and_false true h = h
and_false false h = refl

plain-is_description : (line : List ℕ) → starts_with bold line ≡ false → is_description line ≡ false
unfolding is_description
plain-is_description line h = starts_with-append bold (codes "DESCRIPT") line h

plain-is_name : (line : List ℕ) → starts_with bold line ≡ false → is_name line ≡ false
unfolding is_name
plain-is_name line h = starts_with-append bold (codes "N") line h

module _ (filename keyword : List ℕ) where
  -- Lines in which the keyword is not, or is not looked for, are skipped.
  skip_body :
      (d : Bool) (n : Option (List ℕ)) (body rest : List (List ℕ))
      → Plain body
      → (d && any_line keyword body) ≡ false
      → search_lines filename keyword d n (body ++ rest) ≡ search_lines filename keyword d n rest
  skip_body d n [] rest plain h = refl
  skip_body d n (line ∷ body) rest plain h =
      let (here, there) = and_or d (contains keyword line) (any_line keyword body) h in
      step_other filename keyword d n line (body ++ rest) (plain-is_description line plain.0) here
        (plain-is_name line plain.0)
      ∙ ap (λ b. search_lines filename keyword b n (body ++ rest))
          (ap (λ b. d && not b) plain.0 ∙ and_true d)
      ∙ skip_body d n body rest plain.1 there

  -- The first line with the keyword ends the search.
  match_body :
      (n : Option (List ℕ)) (body rest : List (List ℕ))
      → Plain body
      → any_line keyword body ≡ true
      → search_lines filename keyword true n (body ++ rest)
        ≡ (report filename n >>= λ text. ok (some text))
  match_body n [] rest plain h = absurd cc
  match_body n (line ∷ body) rest plain h = elim (Bool-cases (contains keyword line)) [
    | inl e ↦
        step_match filename keyword true n line (body ++ rest) (plain-is_description line plain.0) e
    | inr e ↦
        step_other filename keyword true n line (body ++ rest) (plain-is_description line plain.0) e
          (plain-is_name line plain.0)
        ∙ ap (λ b. search_lines filename keyword b n (body ++ rest)) (ap (λ b. not b) plain.0)
        ∙ match_body n body rest plain.1 (rw e at h)
  ]

  -- A heading that is not the description's, and the lines below it.
  name_section :
      (d : Bool) (n : Option (List ℕ)) (heading : List ℕ) (body rest : List (List ℕ))
      → is_description heading ≡ false
      → (d && contains keyword heading) ≡ false
      → (d && not (starts_with bold heading)) ≡ false
      → is_name heading ≡ true
      → body ≢ []
      → Plain body
      → search_lines filename keyword d n (heading ∷ (body ++ rest))
        ≡ search_lines filename keyword false (first_line body) rest
  name_section d n heading [] rest e silent ended name filled plain = absurd (filled refl)
  name_section d n heading (line ∷ body) rest e silent ended name filled plain =
      step_name filename keyword d n heading line (body ++ rest) e silent name
      ∙ ap (λ b. search_lines filename keyword b (some line) (body ++ rest)) ended
      ∙ skip_body false (some line) body rest plain.1 refl

  other_section :
      (d : Bool) (n : Option (List ℕ)) (heading : List ℕ) (body rest : List (List ℕ))
      → is_description heading ≡ false
      → (d && contains keyword heading) ≡ false
      → (d && not (starts_with bold heading)) ≡ false
      → is_name heading ≡ false
      → Plain body
      → search_lines filename keyword d n (heading ∷ (body ++ rest))
        ≡ search_lines filename keyword false n rest
  other_section d n heading body rest e silent ended other plain =
      step_other filename keyword d n heading (body ++ rest) e silent other
      ∙ ap (λ b. search_lines filename keyword b n (body ++ rest)) ended
      ∙ skip_body false n body rest plain refl

  search_nil : (d : Bool) (n : Option (List ℕ)) → search_lines filename keyword d n [] ≡ ok none
  unfolding search_lines
  search_nil d n = refl

  sections_lem :
      (d : Bool) (n : Option (List ℕ)) (ss : List Section)
      → AllSections keyword ss
      → search_lines filename keyword d n (lines_of ss) ≡ search_by_section filename keyword n ss
  sections_lem d n [] all = search_nil d n
  sections_lem d n (s ∷ ss) all =
      let silent = and_false d all.0.not_in_heading in
      let ended : (d && not (starts_with bold s.heading)) ≡ false =
        and_false d (ap (λ b. not b) all.0.bold_heading) in
      elim (Bool-cases (is_description s.heading)) [
        | inl e ↦
            step_description filename keyword d n s.heading (s.body ++ lines_of ss) e
            ∙ elim (Bool-cases (any_line keyword s.body)) [
              | inl m ↦
                  match_body n s.body (lines_of ss) all.0.plain_body m
                  ∙ rw (search_by_section, e, m) refl
              | inr m ↦
                  skip_body true n s.body (lines_of ss) all.0.plain_body m
                  ∙ sections_lem true n ss all.1
                  ∙ rw (search_by_section, e, m) refl
            ]
        | inr e ↦ elim (Bool-cases (is_name s.heading)) [
          | inl name ↦
              name_section d n s.heading s.body (lines_of ss) e silent ended name
                (all.0.name_line name) all.0.plain_body
              ∙ sections_lem false (first_line s.body) ss all.1
              ∙ rw (search_by_section, e, name) refl
          | inr other ↦
              other_section d n s.heading s.body (lines_of ss) e silent ended other all.0.plain_body
              ∙ sections_lem false n ss all.1
              ∙ rw (search_by_section, e, other) refl
        ]
      ]

-- For a page of lines that are not bold and then sections, each with a bold heading in which the keyword
-- is not and lines that are not bold, where a heading that begins with N has a line below it, the loop
-- over the lines does what the search by sections does.
pub search_lines_correct :
    (filename keyword : List ℕ) (before : List (List ℕ)) (ss : List Section)
    → Plain before
    → AllSections keyword ss
    → search_lines filename keyword false none (before ++ lines_of ss)
      ≡ search_by_section filename keyword none ss
search_lines_correct filename keyword before ss plain all =
    skip_body filename keyword false none before (lines_of ss) plain refl
    ∙ sections_lem filename keyword false none ss all
