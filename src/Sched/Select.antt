-- ===== src/Sched/Select.antt =====
-- proc.c: the choice that `scheduler` makes in one round of its loop.
pub mod First
use hanlin.Base.{
  ℕ, zero, suc, ◌+◌, ◌≡◌, Bool, true, false, ◌&&◌, ◌||◌, not, List, [], ◌∷◌, Option, none, some,
  ltb, ◌==◌, if◌then◌else◌,
}
use hanlin.Sched.Table.{Proc, Kernel, State, is_runnable, running, set_state, modify, yield}

-- The variables of the loop over the table: `minPriority`, `selectedProc` and the static `lastPicked`.
pub record Choice : Type 0 where
  pub min_priority : ℕ
  pub selected : Option ℕ
  pub last_picked : Option ℕ

abbrev pub is_none {ℓ} : {A : Type ℓ} → Option A → Bool
is_none none = true
is_none (some a) = false

abbrev pub is_slot : Option ℕ → ℕ → Bool
is_slot none i = false
is_slot (some j) i = j == i

-- The body of the loop, at the process `p` in slot `i`. A priority is an `int` that is never
-- negative.
unfoldable pub consider : Choice → ℕ → Proc → Choice
consider c i p =
    if not (is_runnable p.state) || ltb c.min_priority p.priority
    then c
    else if ltb p.priority c.min_priority
    then record { min_priority = p.priority; selected = some i; last_picked = some i }
    else if is_slot c.last_picked i
    then c
    else if is_none c.selected
    then record c { selected = some i }
    else c

unfoldable pub scan : Choice → ℕ → List Proc → Choice
scan c i [] = c
scan c i (p ∷ ps) = scan (consider c i p) (suc i) ps

abbrev pub initial : Option ℕ → Choice
initial last_picked = record { min_priority = 200; selected = none; last_picked = last_picked }

-- One round: the choice, from the `lastPicked` of the round before.
unfoldable pub pick : Option ℕ → List Proc → Choice
unfolding scan consider
pick last_picked procs = scan (initial last_picked) 0 procs

-- The round runs the chosen process: it is RUNNING and on the CPU until it switches back.
unfoldable pub scheduler : Kernel → Option ℕ → Kernel × Option ℕ
unfolding pick modify
scheduler k last_picked =
    let c = pick last_picked k.procs in
    elim (c.selected) [
      | none ↦ (k, c.last_picked)
      | some i ↦ (
        record k { procs = modify k.procs i (set_state running); current = some i },
        c.last_picked,
      )
    ]
