-- ===== src/CString/Tokens.antt =====
-- Repeated strtok: the tokens of a text, by calls and by a scan that makes none.
use mathlib.Core.Path.{subst₂}
use hanlin.Base.{
  sym, ◌∙◌, Option-cases, ℕ, zero, suc, ◌≤◌, ◌<◌, ◌≡◌, refl, Bool, true, false, List, [], ◌∷◌, ◌++◌,
  Option, none, some, arith, if◌then◌else◌, length, ap, Bool-cases, inl, inr, ◌≢◌,
}
use hanlin.CString.{skip, until, strtok}

module _ (d : ℕ → Bool) where
  -- `while ((token = strtok(...)) != NULL)`, with `fuel` calls at most.
  unfoldable pub tokens_loop : ℕ → List ℕ → List (List ℕ)
  tokens_loop zero s = []
  tokens_loop (suc fuel) s = elim (strtok d s) [ none ↦ [] | some (t, r) ↦ t ∷ tokens_loop fuel r ]

  -- A text has fewer tokens than bytes and one, so the fuel is enough.
  unfoldable pub tokens : List ℕ → List (List ℕ)
  unfolding tokens_loop strtok
  tokens s = tokens_loop (suc (length s)) s

  -- The text with the delimiters taken out.
  pub strip : List ℕ → List ℕ
  strip [] = []
  strip (c ∷ s) = if d c then strip s else c ∷ strip s

  abbrev pub joined : List (List ℕ) → List ℕ
  joined [] = []
  joined (t ∷ ts) = t ++ joined ts

  -- No byte of a token is a delimiter.
  abbrev pub NoDelimiter : List ℕ → Type 0
  NoDelimiter [] = Unit
  NoDelimiter (c ∷ s) = (d c ≡ false) × NoDelimiter s

  -- Every token is a word: it has a byte, and no delimiter.
  abbrev pub AllWords : List (List ℕ) → Type 0
  AllWords [] = Unit
  AllWords (t ∷ ts) = (t ≢ []) × NoDelimiter t × AllWords ts

  until-strip : (s : List ℕ) → (until d s).0 ++ strip (until d s).1 ≡ strip s
  unfolding until strip
  until-strip [] = refl
  until-strip (c ∷ s) = elim (Bool-cases (d c)) [
    | inl e ↦ rw e
    | inr e ↦ rw e (ap (◌∷◌ c) (until-strip s))
  ]

  until-NoDelimiter : (s : List ℕ) → NoDelimiter (until d s).0
  unfolding until
  until-NoDelimiter [] = tt
  until-NoDelimiter (c ∷ s) = elim (Bool-cases (d c)) [
    | inl e ↦ rw e tt
    | inr e ↦ rw e (e, until-NoDelimiter s)
  ]

  length-until : (s : List ℕ) → length (until d s).1 ≤ length s
  unfolding until
  length-until [] = omega arith
  length-until (c ∷ s) = ground (arith, length-until s)

  -- What one call of strtok gives.
  record IsToken (s t r : List ℕ) : Type 0 where
    shorter : length r < length s
    kept : t ++ strip r ≡ strip s
    word : t ≢ []
    clean : NoDelimiter t

  strtok-skip : (c : ℕ) (s : List ℕ) → d c ≡ true → strtok d (c ∷ s) ≡ strtok d s
  unfolding strtok
  strtok-skip c s e = rw (e, strtok)

  strtok-word :
      (c : ℕ) (s : List ℕ)
      → d c ≡ false
      → strtok d (c ∷ s) ≡ some (c ∷ (until d s).0, (until d s).1)
  unfolding strtok
  strtok-word c s e = rw (e, strtok) (rw e)

  word-IsToken :
      (c : ℕ) (s : List ℕ) → d c ≡ false → IsToken (c ∷ s) (c ∷ (until d s).0) (until d s).1
  unfolding strip
  word-IsToken c s e = record {
    shorter = omega (arith, length-until s);
    kept = rw e (ap (◌∷◌ c) (until-strip s));
    word = λ z. cc;
    clean = (e, until-NoDelimiter s);
  }

  skip-IsToken : (c : ℕ) (s t r : List ℕ) → d c ≡ true → IsToken s t r → IsToken (c ∷ s) t r
  unfolding strip
  skip-IsToken c s t r e k = record {
    shorter = omega (arith, k.shorter);
    kept = rw e (k.kept);
    word = k.word;
    clean = k.clean;
  }

  strtok-IsToken : (s t r : List ℕ) → strtok d s ≡ some (t, r) → IsToken s t r
  unfolding strtok
  strtok-IsToken [] t r h = cc
  strtok-IsToken (c ∷ s) t r h = elim (Bool-cases (d c)) [
    | inl e ↦ skip-IsToken c s t r e (strtok-IsToken s t r (sym (strtok-skip c s e) ∙ h))
    | inr e ↦
        let p : ◌≡◌ {A = Option (List ℕ × List ℕ)} (some (c ∷ (until d s).0, (until d s).1))
            (some (t, r)) =
          sym (strtok-word c s e) ∙ h in
        let q : (c ∷ (until d s).0) ≡ t = cc in
        let u : (until d s).1 ≡ r = cc in subst₂ (IsToken (c ∷ s)) q u (word-IsToken c s e)
  ]

  -- With no token left, the text is delimiters only.
  strtok-none : (s : List ℕ) → strtok d s ≡ none → strip s ≡ []
  unfolding strip strtok
  strtok-none [] h = refl
  strtok-none (c ∷ s) h = elim (Bool-cases (d c)) [
    | inl e ↦ rw e (strtok-none s (sym (strtok-skip c s e) ∙ h))
    | inr e ↦ cc (strtok-word c s e)
  ]

  tokens_loop-words :
      (fuel : ℕ) (s : List ℕ)
      → length s < fuel
      → (joined (tokens_loop fuel s) ≡ strip s) × AllWords (tokens_loop fuel s)
  unfolding tokens_loop
  tokens_loop-words zero s f = absurd (omega arith)
  tokens_loop-words (suc fuel) s f = elim (Option-cases (strtok d s)) [
    | inl e ↦ rw (e, tokens_loop) (sym (strtok-none s e), tt)
    | inr ((t, r), e) ↦
        let k = strtok-IsToken s t r e in
        let rest = tokens_loop-words fuel r (omega (arith, k.shorter)) in
        rw (e, tokens_loop) (ap (λ z. t ++ z) rest.0 ∙ k.kept, (k.word, k.clean, rest.1))
  ]

  -- The loop of calls of strtok ends within its fuel and splits every text: each token is a word,
  -- and together the tokens are the text without its delimiters, in order.
  tokens_split : (s : List ℕ) → (joined (tokens s) ≡ strip s) × AllWords (tokens s)
  unfolding tokens
  tokens_split s = tokens_loop-words (suc (length s)) s (omega arith)

  pub NoDelimiter-append : (s t : List ℕ) → NoDelimiter s → NoDelimiter t → NoDelimiter (s ++ t)
  NoDelimiter-append [] t hs ht = ht
  NoDelimiter-append (c ∷ s) t hs ht = (hs.0, NoDelimiter-append s t hs.1 ht)

  until-append :
      (t : List ℕ) (c : ℕ) (r : List ℕ)
      → NoDelimiter t
      → d c ≡ true
      → until d (t ++ (c ∷ r)) ≡ (t, r)
  unfolding until
  until-append [] c r h e = rw e
  until-append (x ∷ t) c r h e = rw (until-append t c r h.1 e, h.0)

  -- A word in front of a delimiter is what strtok takes, and the next call goes on behind it.
  pub strtok-append :
      (t : List ℕ) (c : ℕ) (r : List ℕ)
      → t ≢ []
      → NoDelimiter t
      → d c ≡ true
      → strtok d (t ++ (c ∷ r)) ≡ some (t, r)
  unfolding strtok skip until
  strtok-append [] c r w h e = absurd (w refl)
  strtok-append (x ∷ t) c r w h e = rw (h.0, strtok) (rw (h.0, until-append t c r h.1 e))
