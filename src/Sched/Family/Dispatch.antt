-- ===== src/Sched/Family/Dispatch.antt =====
-- The scheduler puts a runnable process on the CPU.
use hanlin.Base.{
  ℕ, suc, ◌+◌, ◌≡◌, refl, sym, ap, ◌∙◌, subst, Bool, true, false, List, [], ◌∷◌, Option, none, some,
  not, ◌||◌, ◌⊎◌, if◌then◌else◌, get_elem?, ltb, arith, inl, inr, Option-cases, ℕ_discrete,
}
use hanlin.Sched.Table.{
  Proc, Kernel, State, running, is_unused, is_started, is_zombie, is_runnable, modify, set_state,
}
use hanlin.Sched.Select.{Choice, consider, scan, pick, initial, scheduler, is_slot, is_none}
use hanlin.Sched.Life.{get_elem?-modify}
use mathlib.Core.Option.{some-injective}
use hanlin.Sched.Family.{get_elem?-modify_other, IsSound, Keeps, same, Slots-modify}
use hanlin.Sched.Family.Kept.{IsSound-Keeps}
use hanlin.Sched.Family.Leave.{moves}

-- The scheduler chooses a runnable process.
abbrev Considered : Choice → ℕ → Proc → Choice → Type 0
Considered c i p result =
    (result.selected ≡ c.selected) ⊎ ((is_runnable p.state ≡ true) × (result.selected ≡ some i))

if_Considered :
    (c : Choice) (i : ℕ) (p : Proc) (test : Bool) (yes_choice no_choice : Choice)
    → Considered c i p yes_choice
    → (test ≡ false → Considered c i p no_choice)
    → Considered c i p (if test then yes_choice else no_choice)
if_Considered c i p true x y this other = this
if_Considered c i p false x y this other = other refl

or_false : (a b : Bool) → (not a || b) ≡ false → a ≡ true
or_false true b h = refl
or_false false b h = absurd cc

consider-Considered : (c : Choice) (i : ℕ) (p : Proc) → Considered c i p (consider c i p)
unfolding consider
consider-Considered c i p =
    if_Considered c i p (not (is_runnable p.state) || ltb c.min_priority p.priority) _ _ (inl refl)
      (λ on.
        if_Considered c i p (ltb p.priority c.min_priority) _ _ (inr (or_false _ _ on, refl)) (λ _.
          if_Considered c i p (is_slot c.last_picked i) _ _ (inl refl) (λ _.
            if_Considered c i p (is_none c.selected) _ _ (inr (or_false _ _ on, refl))
              (λ _. inl refl))))

consider-selected :
    (P : ℕ → Type 0) (c : Choice) (i : ℕ) (p : Proc)
    → ((j : ℕ) → c.selected ≡ some j → P j)
    → (is_runnable p.state ≡ true → P i)
    → (j : ℕ) → (consider c i p).selected ≡ some j
    → P j
consider-selected P c i p before here j e = elim (consider-Considered c i p) [
  | inl as_before ↦ before j (sym as_before ∙ e)
  | inr (on, chosen) ↦ subst P (some-injective _ _ (sym chosen ∙ e)) (here on)
]

scan-selected :
    (P : ℕ → Type 0) (c : Choice) (i : ℕ) (ps : List Proc)
    → ((j : ℕ) → c.selected ≡ some j → P j)
    → ((j : ℕ) (p : Proc) → get_elem? ps j ≡ some p → is_runnable p.state ≡ true → P (i + j))
    → (j : ℕ) → (scan c i ps).selected ≡ some j
    → P j
unfolding scan
scan-selected P c i [] before here j e = before j e
scan-selected P c i (p ∷ ps) before here j e =
    scan-selected P (consider c i p) (suc i) ps
      (consider-selected P c i p before (λ r. subst P (omega arith) (here 0 p refl r)))
      (λ l q at r. subst P (omega arith) (here (suc l) q at r)) j e

runnable-in_use : (s : State) → is_runnable s ≡ true → is_unused s ≡ false
runnable-in_use s h = ground arith

runnable-started : (s : State) → is_runnable s ≡ true → is_started s ≡ true
runnable-started s h = ground arith

runnable_going : (s : State) → is_runnable s ≡ true → is_zombie s ≡ false
runnable_going s h = ground arith

pub scheduler-IsSound :
    (k : Kernel) (last : Option ℕ) → IsSound k → k.current ≡ none → IsSound (scheduler k last).0
unfolding scheduler
scheduler-IsSound k last v idle = elim (Option-cases ((pick last k.procs).selected)) [
  | inl nobody ↦ rw (scheduler, nobody) v
  | inr (i, e) ↦ rw (scheduler, e) (dispatched i (chosen i e))
]
  where
    zero_plus : (j : ℕ) → j ≡ 0 + j
    zero_plus j = omega arith

    none_ne : (j : ℕ) → none ≡ some j → ⊥
    none_ne j h = cc

    to_running :
        (p : Proc) (q : Proc)
        → is_runnable p.state ≡ true
        → q ≡ p
        → Keeps same q (set_state running q)
    to_running p q on e =
        let used : is_runnable q.state ≡ true = ap (λ (r : Proc). is_runnable r.state) e ∙ on in
        moves q (set_state running q) (runnable-in_use q.state used) (runnable-started q.state used)
          (runnable_going q.state used) refl refl refl refl refl

    alone :
        (i j : ℕ) (q : Proc)
        → get_elem? (modify k.procs i (set_state running)) j ≡ some q
        → q.state ≡ running
        → some i ≡ some j
    alone i j q at on = elim (ℕ_discrete i j) [
      | yes here ↦ ap (λ l. some l) here
      | no other ↦ absurd (
          none_ne j (
            sym idle
            ∙ v.alone j q (sym (get_elem?-modify_other (set_state running) k.procs i j other) ∙ at)
                on))
    ]

    chosen :
        (i : ℕ)
        → (pick last k.procs).selected ≡ some i
        → (p : Proc) × (get_elem? k.procs i ≡ some p) × (is_runnable p.state ≡ true)
    chosen =
        scan-selected
          (λ i. (p : Proc) × (get_elem? k.procs i ≡ some p) × (is_runnable p.state ≡ true))
          (initial last) 0 k.procs (λ j e. absurd (none_ne j e))
          (λ j p at on. (p, subst (λ l. get_elem? k.procs l ≡ some p) (zero_plus j) at, on))

    dispatched :
        (i : ℕ)
        → (p : Proc) × (get_elem? k.procs i ≡ some p) × (is_runnable p.state ≡ true)
        → IsSound (record k { procs = modify k.procs i (set_state running); current = some i })
    dispatched i (p, at, on) =
        IsSound-Keeps k
          (record k { procs = modify k.procs i (set_state running); current = some i }) refl refl
          (Slots-modify (Keeps same) (set_state running) k.procs i
            (λ q there. to_running p q on (some-injective _ _ (sym there ∙ at)))
            (λ q. record {
              pid = refl;
              in_use = refl;
              started = refl;
              going = refl;
              parent = refl;
            }))
          v
          (λ j e.
            let same_slot = some-injective _ _ e in
            (
              set_state running p,
              subst
                  (λ l.
                    get_elem? (modify k.procs i (set_state running)) l ≡ some (set_state running p))
                  same_slot (get_elem?-modify (set_state running) k.procs i p at),
              refl,
            ))
          (alone i)
