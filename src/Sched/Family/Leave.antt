-- ===== src/Sched/Family/Leave.antt =====
-- The process on the CPU gives it up: `yield` and `sleep`.
use hanlin.Base.{
  ℕ, ◌≡◌, ◌≢◌, refl, sym, ap, ◌∙◌, subst, true, false, none, some, get_elem?, ℕ_discrete,
}
use hanlin.Sched.Table.{
  Proc, Kernel, running, runnable, sleeping, Chan, is_unused, is_started, is_zombie, modify,
  set_state, sleep, yield,
}
use mathlib.Core.Option.{some-injective}
use hanlin.Sched.Boot.{switched}
use hanlin.Sched.Family.{
  get_elem?-modify_other, get_elem?-modify_same, IsSound, Keeps, same, Slots-modify,
}
use hanlin.Sched.Family.Kept.{IsSound-Keeps}

-- A process that is on the CPU leaves it for the scheduler.
module _ (k : Kernel) (i : ℕ) (f : Proc → Proc) (v : IsSound k) (on_cpu : k.current ≡ some i)
    (kept : (p : Proc) → p.state ≡ running → Keeps same p (f p))
    (stops : (p : Proc) → (f p).state ≢ running) where
  switched-IsSound : IsSound (record k { procs = modify k.procs i f; current = none })
  switched-IsSound =
      IsSound-Keeps k (record k { procs = modify k.procs i f; current = none }) refl refl
        (Slots-modify (Keeps same) f k.procs i (λ p at. kept p (is_running p at))
          (λ p. record { pid = refl; in_use = refl; started = refl; going = refl; parent = refl }))
        v (λ j e. absurd (none_ne j e)) alone
    where
      none_ne : (j : ℕ) → none ≡ some j → ⊥
      none_ne j h = cc

      is_running : (p : Proc) → get_elem? k.procs i ≡ some p → p.state ≡ running
      is_running p at =
          let (q, at', on) = v.runs i on_cpu in
          let e : q ≡ p = some-injective _ _ (sym at' ∙ at) in subst (λ x. x.state ≡ running) e on

      alone :
          (j : ℕ) (q : Proc)
          → get_elem? (modify k.procs i f) j ≡ some q
          → q.state ≡ running
          → none ≡ some j
      alone j q at on = elim (ℕ_discrete i j) [
        | yes here ↦
            let (p, before, e) = get_elem?-modify_same f k.procs i q (rw (sym here) at at) in
            absurd (stops p (ap (λ (x : Proc). x.state) e ∙ on))
        | no other ↦
            let cpu = v.alone j q (sym (get_elem?-modify_other f k.procs i j other) ∙ at) on in
            absurd (other (some-injective _ _ (sym on_cpu ∙ cpu)))
      ]

-- A process that runs or waits goes from one such state to another.
pub moves :
    (p q : Proc)
    → is_unused p.state ≡ false
    → is_started p.state ≡ true
    → is_zombie p.state ≡ false
    → is_unused q.state ≡ false
    → is_started q.state ≡ true
    → is_zombie q.state ≡ false
    → q.pid ≡ p.pid
    → q.parent ≡ p.parent
    → Keeps same p q
moves p q used started going used' started' going' pid parent = record {
  pid = pid;
  in_use = used' ∙ sym used;
  started = started' ∙ sym started;
  going = going' ∙ sym going;
  parent = parent;
}

pub yield-IsSound :
    (k : Kernel) (i : ℕ) → IsSound k → k.current ≡ some i → IsSound (switched (yield k i))
unfolding yield
yield-IsSound k i v cpu =
    switched-IsSound k i (set_state runnable) v cpu
      (λ p on.
        moves p (set_state runnable p) (ap is_unused on) (ap is_started on) (ap is_zombie on) refl
          refl refl refl refl)
      (λ p e. cc)

pub sleep-IsSound :
    (k : Kernel) (i : ℕ) (chan : Chan)
    → IsSound k
    → k.current ≡ some i
    → IsSound (switched (sleep k i chan))
unfolding sleep
sleep-IsSound k i chan v cpu =
    switched-IsSound k i (λ p. record p { chan = chan; state = sleeping }) v cpu
      (λ p on.
        moves p (record p { chan = chan; state = sleeping }) (ap is_unused on) (ap is_started on)
          (ap is_zombie on) refl refl refl refl refl)
      (λ p e. cc)
