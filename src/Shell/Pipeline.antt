-- ===== src/Shell/Pipeline.antt =====
-- `execute_with_pipe` of wsh.c: the children that it starts. Each call of `pipe` and `fork` succeeds.
pub mod Split
use hanlin.Base.{
  ℕ, zero, suc, ◌+◌, ◌≤◌, ◌<◌, ◌≡◌, refl, sym, ap, subst, ◌∙◌, Bool, true, false, List, [], ◌∷◌,
  ◌++◌, Option, none, some, if◌then◌else◌, length, Run, ok, out_of_fuel, ◌>>=◌, arith, Returns,
  returns, Bool-cases, inl, inr,
}
use hanlin.CString.{str_eq}
use hanlin.Proxy.Request.{codes}

-- A child: its arguments, whether its input is the pipe of the child before, and whether its output is
-- a pipe.
pub record Spawn : Type 0 where
  pub argv : List (List ℕ)
  pub from_pipe : Bool
  pub to_pipe : Bool

abbrev pub is_bar : List ℕ → Bool
is_bar arg = str_eq arg (codes "|")

-- The inner loop: the arguments up to the next "|", and those behind it if there is one.
unfoldable pub next_command : List (List ℕ) → List (List ℕ) × Option (List (List ℕ))
next_command [] = ([], none)
next_command (arg ∷ args) =
    let (command, rest) = next_command args in
    if is_bar arg then ([], some args) else (arg ∷ command, rest)

-- The outer loop: a round starts a child for the next command, and is the last one if no "|" ends it.
unfoldable pub pipe_loop : ℕ → Bool → List (List ℕ) → Run (List Spawn)
pipe_loop zero from_pipe args = out_of_fuel
pipe_loop (suc fuel) from_pipe [] = ok []
pipe_loop (suc fuel) from_pipe (arg ∷ args) =
    let (command, rest) = next_command (arg ∷ args) in
    elim rest [
      | none ↦ ok (record { argv = command; from_pipe = from_pipe; to_pipe = false } ∷ [])
      | some behind ↦ do
        spawned ← pipe_loop fuel true behind
        ok (record { argv = command; from_pipe = from_pipe; to_pipe = true } ∷ spawned)
    ]

unfoldable pub pipeline : List (List ℕ) → Run (List Spawn)
unfolding pipe_loop
pipeline args = pipe_loop (length args + 1) false args
