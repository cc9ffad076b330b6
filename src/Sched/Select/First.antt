-- ===== src/Sched/Select/First.antt =====
-- The choice is the first of the runnable processes with the least priority value.
use hanlin.Base.{
  ℕ, suc, ◌+◌, ◌≤◌, ◌<◌, ◌≡◌, refl, sym, true, false, ◌||◌, not, List, [], ◌∷◌, Option, none, some,
  ltb, arith, get_elem?, length, Bool-cases, inl, inr, ap, subst,
}
use native.Mathlib.Nat.{add-zero, zero-add}
use native.Mathlib.Decide.{dec_lt}
use hanlin.Sched.Table.{Proc, Kernel, is_runnable}
use hanlin.Sched.Select.{Choice, initial, is_none, is_slot, consider, scan, pick, scheduler}

shift : (n k : ℕ) → n + suc k ≡ suc n + k
shift n k = omega arith

module _ (procs : List Proc) where
  -- Every process in a slot below `n` that is runnable satisfies `P`.
  abbrev pub RunnableBelow : ℕ → (ℕ → Proc → Type 0) → Type 0
  RunnableBelow n P =
      (j : ℕ) (p : Proc) → j < n → get_elem? procs j ≡ some p → is_runnable p.state ≡ true → P j p

  -- What a choice among the slots below `n` says, at the value `m` of `minPriority`: none if no
  -- process there is runnable, and else the first of the runnable ones with the least value, `m`.
  abbrev pub Best : ℕ → Option ℕ → ℕ → Type 0
  Best n none m = (m ≡ 200) × RunnableBelow n (λ j p. ⊥)
  Best n (some i) m =
      (q : Proc) × (get_elem? procs i ≡ some q)
      × (is_runnable q.state ≡ true)
      × (q.priority ≡ m)
      × (m < 200)
      × (i < n)
      × RunnableBelow n (λ j p. (m ≤ p.priority) × (j < i → m < p.priority))

  -- The slots below `n + 1` are those below `n`, and slot `n`.
  RunnableBelow-suc :
      (n : ℕ) (p : Proc) (P : ℕ → Proc → Type 0)
      → get_elem? procs n ≡ some p
      → RunnableBelow n P
      → (is_runnable p.state ≡ true → P n p)
      → RunnableBelow (suc n) P
  RunnableBelow-suc n p P at below here j q h e r = elim (dec_lt j n) [
    | yes lt ↦ below j q lt e r
    | no ge ↦
        let same : j ≡ n = omega arith in
        let found : get_elem? procs n ≡ some q = subst (λ k. get_elem? procs k ≡ some q) same e in
        let one : p ≡ q = cc in
        subst (λ k. P k q) (sym same)
          (subst (P n) one (here (subst (λ (x : Proc). is_runnable x.state ≡ true) (sym one) r)))
  ]

  module _ (n : ℕ) (p : Proc) (at : get_elem? procs n ≡ some p)
      (low : is_runnable p.state ≡ true → p.priority < 200) where
    -- The choice does not change at a process that is not runnable or has a higher value.
    Best-keep :
        (sel : Option ℕ) (m : ℕ)
        → Best n sel m
        → (is_runnable p.state ≡ true → m ≤ p.priority)
        → Best (suc n) sel m
    Best-keep none m (e, b) h =
        (e, RunnableBelow-suc n p _ at b (λ r. absurd (omega (arith, h r, low r))))
    Best-keep (some i) m (q, e, r, s, t, inside, b) h = (
      q,
      e,
      r,
      s,
      t,
      omega arith,
      RunnableBelow-suc n p _ at b (λ u. (h u, λ lt. absurd (omega arith))),
    )

    -- A process of a lower value takes the place of the choice.
    Best-replace :
        (sel : Option ℕ) (m : ℕ)
        → Best n sel m
        → is_runnable p.state ≡ true
        → p.priority < m
        → Best (suc n) (some n) p.priority
    Best-replace none m (e, b) r h = (
      p,
      at,
      r,
      refl,
      low r,
      omega arith,
      RunnableBelow-suc n p _ at (λ j q lt f g. absurd (b j q lt f g)) (λ _. omega arith),
    )
    Best-replace (some i) m (q, e, run, s, t, inside, b) r h = (
      p,
      at,
      r,
      refl,
      low r,
      omega arith,
      RunnableBelow-suc n p _ at (λ j q lt f g. omega (arith, b j q lt f g)) (λ _. omega arith),
    )

    Best-chosen :
        (sel : Option ℕ) (m : ℕ)
        → Best n sel m
        → is_runnable p.state ≡ true
        → p.priority ≡ m
        → is_none sel ≡ false
    Best-chosen none m (e, b) r h = absurd (omega (arith, low r))
    Best-chosen (some i) m v r h = refl

    consider-Best :
        (c : Choice)
        → Best n c.selected c.min_priority
        → Best (suc n) (consider c n p).selected (consider c n p).min_priority
    unfolding consider
    consider-Best c v =
        elim (Bool-cases (not (is_runnable p.state) || ltb c.min_priority p.priority)) [
          | inl skip ↦ rw skip (Best-keep c.selected c.min_priority v (λ r. ground arith))
          | inr look ↦ elim (Bool-cases (ltb p.priority c.min_priority)) [
            | inl below ↦
                rw (look, below)
                  (Best-replace c.selected c.min_priority v (ground arith) (ground arith))
            | inr above ↦
                let tie : p.priority ≡ c.min_priority = ground arith in
                let kept = Best-keep c.selected c.min_priority v (λ r. omega arith) in
                rw (look, above, Best-chosen c.selected c.min_priority v (ground arith) tie)
                  (elim (Bool-cases (is_slot c.last_picked n)) [
                    | inl last ↦ rw last kept
                    | inr other ↦ rw other kept
                  ])
          ]
        ]

  scan-Best :
      (rest : List Proc) (n : ℕ) (c : Choice)
      → ((j : ℕ) → get_elem? procs (n + j) ≡ get_elem? rest j)
      → ((j : ℕ) (p : Proc)
          → get_elem? rest j ≡ some p
          → is_runnable p.state ≡ true
          → p.priority < 200)
      → Best n c.selected c.min_priority
      → Best (n + length rest) (scan c n rest).selected (scan c n rest).min_priority
  unfolding scan
  scan-Best [] n c same low v = rw add-zero v
  scan-Best (p ∷ rest) n c same low v =
      let at : get_elem? procs n ≡ some p = rw add-zero at (same 0) in
      let next = consider-Best n p at (low 0 p refl) c v in
      rw (shift n (length rest)) (
        scan-Best rest (suc n) (consider c n p) (λ j. rw (← shift n j) (same (suc j)))
          (λ j q e. low (suc j) q e) next)

-- With the priority value of every runnable process below 200: `scheduler` finds no process only if none is runnable; and a
-- process that it chooses is runnable, has the least value of the runnable ones, and is the first in
-- the table with that value, whichever process was picked before.
pub pick-Best :
    (last_picked : Option ℕ) (procs : List Proc)
    → ((j : ℕ) (p : Proc)
        → get_elem? procs j ≡ some p
        → is_runnable p.state ≡ true
        → p.priority < 200)
    → Best procs
        (length procs)
        (pick last_picked procs).selected
        (pick last_picked procs).min_priority
unfolding pick
pick-Best last_picked procs low = rw zero-add at (
    scan-Best procs procs 0 (initial last_picked) (λ j. rw zero-add) low
      (refl, λ j p h. absurd (omega arith)))

Best-unique :
    (procs : List Proc) (n : ℕ) (a b : Option ℕ) (l m : ℕ)
    → Best procs n a l
    → Best procs n b m
    → a ≡ b
Best-unique procs n none none l m v w = refl
Best-unique procs n none (some j) l m (e, v) (q, f, r, s, t, inside, w) = absurd (v j q inside f r)
Best-unique procs n (some i) none l m (q, f, r, s, t, inside, w) (e, v) = absurd (v i q inside f r)
Best-unique procs n (some i) (some j) l m (p, e, r, s, t, hi, v) (q, f, u, x, y, hj, w) =
    let one = v j q hj f u in let two = w i p hi e r in ap some (grind (arith, one, two))

-- With the priority value of every runnable process below 200 the choice does not depend on `lastPicked`.
pub pick-last_picked :
    (a b : Option ℕ) (procs : List Proc)
    → ((j : ℕ) (p : Proc)
        → get_elem? procs j ≡ some p
        → is_runnable p.state ≡ true
        → p.priority < 200)
    → (pick a procs).selected ≡ (pick b procs).selected
pick-last_picked a b procs low =
    Best-unique procs (length procs) _ _ (pick a procs).min_priority (pick b procs).min_priority
      (pick-Best a procs low) (pick-Best b procs low)

scheduler-none :
    (k : Kernel) (last : Option ℕ)
    → (pick last k.procs).selected ≡ none
    → scheduler k last ≡ (k, (pick last k.procs).last_picked)
unfolding scheduler
scheduler-none k last h = rw (h, scheduler)
