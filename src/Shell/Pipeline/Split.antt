-- ===== src/Shell/Pipeline/Split.antt =====
-- The children of a pipeline are the commands between the bars.
use hanlin.Base.{
  ℕ, zero, suc, ◌+◌, ◌<◌, ◌≡◌, ◌⊎◌, refl, sym, ap, subst, ◌∙◌, Bool, true, false, List, [], ◌∷◌,
  ◌++◌, Option, none, some, if◌then◌else◌, length, append-nil, ok, arith, Returns, returns,
  Returns-value, Bool-cases, inl, inr,
}
use hanlin.CString.{str_eq→eq}
use hanlin.Proxy.Request.{codes}
use hanlin.Shell.Pipeline.{Spawn, is_bar, next_command, pipe_loop, pipeline}

abbrev bar : List ℕ
bar = codes "|"

-- None of the arguments is a bar.
abbrev pub AllPlain : List (List ℕ) → Type 0
AllPlain [] = Unit
AllPlain (arg ∷ args) = (is_bar arg ≡ false) × AllPlain args

abbrev pub EachPlain : List Spawn → Type 0
EachPlain [] = Unit
EachPlain (s ∷ spawned) = AllPlain s.argv × EachPlain spawned

-- The line that the children came from.
abbrev pub rejoin : List Spawn → List (List ℕ)
rejoin [] = []
rejoin (s ∷ spawned) =
    let rest = rejoin spawned in s.argv ++ (if s.to_pipe then bar ∷ rest else rest)

-- The first child reads the input of the shell, and each other one the pipe of the child before it;
-- only the last child may have no pipe to write to.
abbrev pub Chained : Bool → List Spawn → Type 0
Chained first [] = Unit
Chained first (s ∷ spawned) =
    (s.from_pipe ≡ first) × ((s.to_pipe ≡ true) ⊎ (spawned ≡ [])) × Chained true spawned

abbrev Split : List (List ℕ) → List (List ℕ) → Option (List (List ℕ)) → Type 0
Split args command none = (args ≡ command) × AllPlain command
Split args command (some rest) =
    (args ≡ command ++ (bar ∷ rest)) × AllPlain command × (length rest < length args)

Split-cons :
    (arg : List ℕ) (args command : List (List ℕ)) (rest : Option (List (List ℕ)))
    → is_bar arg ≡ false
    → Split args command rest
    → Split (arg ∷ args) (arg ∷ command) rest
Split-cons arg args command none plain (e, all) = (ap (◌∷◌ arg) e, (plain, all))
Split-cons arg args command (some rest) plain (e, all, shorter) =
    (ap (◌∷◌ arg) e, (plain, all), omega (arith, shorter))

next_command-Split : (args : List (List ℕ)) → Split args (next_command args).0 (next_command args).1
unfolding next_command
next_command-Split [] = (refl, tt)
next_command-Split (arg ∷ args) = elim (Bool-cases (is_bar arg)) [
  | inl stop ↦ rw stop (ap (λ a. a ∷ args) (str_eq→eq arg bar stop), tt, omega arith)
  | inr plain ↦ rw plain (
      Split-cons arg args (next_command args).0 (next_command args).1 plain
        (next_command-Split args))
]

abbrev pub IsPipeline : Bool → List (List ℕ) → List Spawn → Type 0
IsPipeline first args spawned = (rejoin spawned ≡ args) × EachPlain spawned × Chained first spawned

pipe_loop-last :
    (fuel : ℕ) (first : Bool) (arg : List ℕ) (args command : List (List ℕ))
    → next_command (arg ∷ args) ≡ (command, none)
    → pipe_loop (suc fuel) first (arg ∷ args)
      ≡ ok (record { argv = command; from_pipe = first; to_pipe = false } ∷ [])
unfolding pipe_loop
pipe_loop-last fuel first arg args command e =
    rw (pipe_loop, e)
      (ap (λ r. ok (record { argv = r.0; from_pipe = first; to_pipe = false } ∷ [])) e)

pipe_loop-more :
    (fuel : ℕ) (first : Bool) (arg : List ℕ) (args command behind : List (List ℕ))
    (spawned : List Spawn)
    → next_command (arg ∷ args) ≡ (command, some behind)
    → pipe_loop fuel true behind ≡ ok spawned
    → pipe_loop (suc fuel) first (arg ∷ args)
      ≡ ok (record { argv = command; from_pipe = first; to_pipe = true } ∷ spawned)
unfolding pipe_loop
pipe_loop-more fuel first arg args command behind spawned e h =
    rw (pipe_loop, e, h)
      (ap (λ r. ok (record { argv = r.0; from_pipe = first; to_pipe = true } ∷ spawned)) e)

-- One round of the loop, from what it finds up to the next bar.
round_correct :
    (fuel : ℕ) (first : Bool) (arg : List ℕ) (args command : List (List ℕ))
    (rest : Option (List (List ℕ)))
    → next_command (arg ∷ args) ≡ (command, rest)
    → ((behind : List (List ℕ))
        → length behind < fuel
        → Returns (IsPipeline true behind) (pipe_loop fuel true behind))
    → length args < fuel
    → Returns (IsPipeline first (arg ∷ args)) (pipe_loop (suc fuel) first (arg ∷ args))
round_correct fuel first arg args command none e ih enough =
    let (same, plain) =
      subst (λ r. Split (arg ∷ args) r.0 r.1) e (next_command-Split (arg ∷ args)) in
    subst (Returns (IsPipeline first (arg ∷ args)))
      (sym (pipe_loop-last fuel first arg args command e))
      (returns (append-nil command ∙ sym same, (plain, tt), (refl, inr refl, tt)))
round_correct fuel first arg args command (some behind) e ih enough =
    let (same, plain, shorter) =
      subst (λ r. Split (arg ∷ args) r.0 r.1) e (next_command-Split (arg ∷ args)) in
    let (spawned, runs, whole) = Returns-value (ih behind (omega (arith, shorter, enough))) in
    subst (Returns (IsPipeline first (arg ∷ args)))
      (sym (pipe_loop-more fuel first arg args command behind spawned e runs))
      (returns (
        ap (λ rest. command ++ (bar ∷ rest)) whole.0 ∙ sym same,
        (plain, whole.1),
        (refl, inl refl, whole.2),
      ))

pipe_loop_correct :
    (fuel : ℕ) (first : Bool) (args : List (List ℕ))
    → length args < fuel
    → Returns (IsPipeline first args) (pipe_loop fuel first args)
unfolding pipe_loop
pipe_loop_correct zero first args enough = absurd (omega (arith, enough))
pipe_loop_correct (suc fuel) first [] enough = returns (refl, tt, tt)
pipe_loop_correct (suc fuel) first (arg ∷ args) enough =
    round_correct fuel first arg args (next_command (arg ∷ args)).0 (next_command (arg ∷ args)).1
      refl (pipe_loop_correct fuel true) (omega (arith, enough))

-- execute_with_pipe returns for every list of arguments. The children in order, with a bar behind each
-- one that writes to a pipe, give back the arguments; none has a bar among its own; the first reads the
-- input of the shell and each other one the pipe of the child before; and only the last can be without
-- a pipe to write to.
pub pipeline_correct : (args : List (List ℕ)) → Returns (IsPipeline false args) (pipeline args)
unfolding pipeline
pipeline_correct args = pipe_loop_correct (length args + 1) false args (omega arith)
