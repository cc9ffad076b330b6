-- ===== src/Sched/Family/Reuse.antt =====
-- A slot whose process is not alive is used for another, or emptied.
use mathlib.Core.Option.{some-injective}
use hanlin.Base.{
  ℕ, ◌≡◌, ◌≢◌, refl, sym, ap, ◌∙◌, subst, true, false, List, [], ◌∷◌, none, some, ◌⊎◌, inl, inr,
  get_elem?, Bool-cases, Option-cases, ℕ_discrete,
}
use hanlin.Sched.Table.{
  Proc, Kernel, running, is_unused, is_started, is_zombie, modify, find_unused,
}
use hanlin.Sched.Life.{IsNumbered}
use hanlin.Sched.Family.{IsAlive, HasFamily, IsSound, get_elem?-modify_other, get_elem?-modify_same}

-- The slot is free or reserved, or its process has exited.
abbrev pub IsDead : Proc → Type 0
IsDead p = (is_started p.state ≡ false) ⊎ (is_zombie p.state ≡ true)

module _ (procs : List Proc) (i : ℕ) (p : Proc) (f : Proc → Proc) (at : get_elem? procs i ≡ some p)
    (dead : IsDead p) where
  elsewhere : (j : ℕ) → IsAlive procs j → i ≢ j
  elsewhere j alive e =
      let same : alive.proc ≡ p =
        some-injective _ _ (sym alive.slot ∙ ap (get_elem? procs) (sym e) ∙ at) in
      elim dead [
        | inl free ↦ true_ne (sym alive.started ∙ ap (λ (q : Proc). is_started q.state) same ∙ free)
        | inr gone ↦ false_ne (sym alive.going ∙ ap (λ (q : Proc). is_zombie q.state) same ∙ gone)
      ]
    where
      true_ne : true ≡ false → ⊥
      true_ne h = cc

      false_ne : false ≡ true → ⊥
      false_ne h = cc

  modify-IsAlive : (j : ℕ) → IsAlive procs j → IsAlive (modify procs i f) j
  modify-IsAlive j alive = record {
    proc = alive.proc;
    slot = get_elem?-modify_other f procs i j (elsewhere j alive) ∙ alive.slot;
    started = alive.started;
    going = alive.going;
  }

  -- The process that stands in the slot afterwards.
  filled : (q : Proc) → get_elem? (modify procs i f) i ≡ some q → f p ≡ q
  filled q after =
      let (r, before, e) = get_elem?-modify_same f procs i q after in
      ap f (some-injective _ _ (sym at ∙ before)) ∙ e

-- Its slot is emptied, or given to a process that is not running and has a family.
pub dead_slot-IsSound :
    (k : Kernel) (i n : ℕ) (p : Proc) (f : Proc → Proc)
    → IsSound k
    → get_elem? k.procs i ≡ some p
    → IsDead p
    → (f p).state ≢ running
    → (is_started (f p).state ≡ true → (j : ℕ) × ((f p).parent ≡ some j) × IsAlive k.procs j)
    → IsNumbered (record k { procs = modify k.procs i f; nextpid = n })
    → IsSound (record k { procs = modify k.procs i f; nextpid = n })
dead_slot-IsSound k i n p f v at dead stops own numbered =
    let (j, e, alive) = v.first in
    record {
      numbered = numbered;
      first = (j, e, modify-IsAlive k.procs i p f at dead j alive);
      family = family;
      runs = runs;
      alone = alone;
    }
  where
    family : HasFamily (modify k.procs i f) k.initproc
    family j q after started = elim (ℕ_discrete i j) [
      | yes here ↦
          let e = filled k.procs i p f at dead q (rw (sym here) at after) in
          let (l, parent, alive) = own (ap (λ (r : Proc). is_started r.state) e ∙ started) in
          inr (
            l,
            sym (ap (λ (r : Proc). r.parent) e) ∙ parent,
            modify-IsAlive k.procs i p f at dead l alive,
          )
      | no other ↦
          elim (v.family j q (sym (get_elem?-modify_other f k.procs i j other) ∙ after) started) [
            | inl first ↦ inl first
            | inr (l, parent, alive) ↦ inr (l, parent, modify-IsAlive k.procs i p f at dead l alive)
          ]
    ]

    runs :
        (j : ℕ)
        → k.current ≡ some j
        → (q : Proc) × (get_elem? (modify k.procs i f) j ≡ some q) × (q.state ≡ running)
    runs j cpu =
        let (q, there, on) = v.runs j cpu in
        let alive : IsAlive k.procs j = record {
          proc = q;
          slot = there;
          started = ap is_started on;
          going = ap is_zombie on;
        } in
        (
          q,
          get_elem?-modify_other f k.procs i j (elsewhere k.procs i p f at dead j alive) ∙ there,
          on,
        )

    alone :
        (j : ℕ) (q : Proc)
        → get_elem? (modify k.procs i f) j ≡ some q
        → q.state ≡ running
        → k.current ≡ some j
    alone j q after on = elim (ℕ_discrete i j) [
      | yes here ↦
          let e = filled k.procs i p f at dead q (rw (sym here) at after) in
          absurd (stops (ap (λ (r : Proc). r.state) e ∙ on))
      | no other ↦ v.alone j q (sym (get_elem?-modify_other f k.procs i j other) ∙ after) on
    ]

pub find_unused-unused :
    (ps : List Proc) (i : ℕ)
    → find_unused ps ≡ some i
    → (p : Proc) × (get_elem? ps i ≡ some p) × (is_unused p.state ≡ true)
unfolding find_unused
find_unused-unused [] i h = absurd (none_ne h)
  where
    none_ne : none ≡ some i → ⊥
    none_ne h = cc
find_unused-unused (p ∷ ps) i h = elim (Bool-cases (is_unused p.state)) [
  | inl free ↦
      let e = some-injective _ _ (rw (find_unused, free) at h) in
      subst (λ j. (q : Proc) × (get_elem? (p ∷ ps) j ≡ some q) × (is_unused q.state ≡ true)) e
        (p, refl, free)
  | inr used ↦ elim (Option-cases (find_unused ps)) [
    | inl nothing ↦ absurd (none_ne (rw (find_unused, used, nothing) at h))
    | inr (j, found) ↦
        let e = some-injective _ _ (rw (find_unused, used, found) at h) in
        subst (λ l. (q : Proc) × (get_elem? (p ∷ ps) l ≡ some q) × (is_unused q.state ≡ true)) e
          (find_unused-unused ps j found)
  ]
]
  where
    none_ne : none ≡ some i → ⊥
    none_ne h = cc

-- The process on the CPU is alive.
pub current-IsAlive : (k : Kernel) (i : ℕ) → IsSound k → k.current ≡ some i → IsAlive k.procs i
current-IsAlive k i v cpu =
    let (q, there, on) = v.runs i cpu in
    record { proc = q; slot = there; started = ap is_started on; going = ap is_zombie on }
