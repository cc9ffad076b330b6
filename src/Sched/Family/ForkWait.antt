-- ===== src/Sched/Family/ForkWait.antt =====
-- The sections of `fork`, and one scan of `wait`.
use mathlib.Core.Option.{some-injective}
use hanlin.Base.{
  ℕ, ◌+◌, ◌≡◌, ◌≢◌, refl, sym, ap, ◌∙◌, subst, Bool, true, false, List, [], ◌∷◌, none, some, ◌==◌,
  not, ◌||◌, ◌&&◌, inl, inr, get_elem?, Bool-cases, Option-cases, arith, Option, ok, fault,
  integer_overflow, ok-injective,
}
use hanlin.Sched.Table.{
  Proc, Kernel, State, running, runnable, unused, embryo, is_unused, is_started, is_zombie, modify,
  set_state, reserve, give_stack, copy_process, publish, is_parent, find_zombie, has_kids, reap,
  reaped, failed, sleeps, wait, proc_chan,
}
use hanlin.Sched.Life.{
  no_slot, overflows, reserved, reserve-Reserved, fresh-IsNumbered, modify-IsNumbered,
}
use hanlin.Sched.Boot.{switched, IsEmbryo}
use hanlin.Sched.Family.{IsSound, Slots-modify}
use hanlin.Sched.Family.Kept.{KeepsPid, IsNumbered-KeepsPid}
use hanlin.Sched.Family.Leave.{sleep-IsSound}
use hanlin.Sched.Family.Reuse.{dead_slot-IsSound, find_unused-unused, current-IsAlive}

unused-started : (s : State) → is_unused s ≡ true → is_started s ≡ false
unused-started s h = ground arith

true_ne : true ≡ false → ⊥
true_ne h = cc

-- The section of `allocproc` under the lock.
pub reserve-IsSound :
    (k k' : Kernel) (found : Option ℕ) → IsSound k → reserve k ≡ ok (found, k') → IsSound k'
reserve-IsSound k k' found v h = elim (reserve-Reserved k) [
  | no_slot e ↦ subst IsSound (next e) v
  | overflows e ↦ absurd (fault_ne (sym e ∙ h))
  | reserved i free small e ↦
      let (p, at, dead) = find_unused-unused k.procs i free in
      subst IsSound (next e) (
        dead_slot-IsSound k i (k.nextpid + 1) p (λ q. record q { state = embryo; pid = k.nextpid })
          v at (inl (unused-started p.state dead)) (λ on. embryo_ne on)
          (λ started. absurd (true_ne (sym started)))
          (fresh-IsNumbered k (λ q. record q { state = embryo; pid = k.nextpid }) i (λ q. refl)
            small v.numbered))
]
  where
    fault_ne : {r : Option ℕ × Kernel} → fault integer_overflow ≡ ok r → ⊥
    fault_ne h = cc

    embryo_ne : embryo ≡ running → ⊥
    embryo_ne h = cc

    next : {o : Option ℕ} {x : Kernel} → reserve k ≡ ok (o, x) → x ≡ k'
    next e = ap (λ r. r.1) (ok-injective (sym e ∙ h))

-- What is done to an EMBRYO slot.
module _ (k : Kernel) (i : ℕ) (q : Proc) (v : IsSound k) (made : IsEmbryo k i q) where
  not_started : is_started q.state ≡ false
  not_started = ap is_started made.state

  given_up-IsSound :
      (f : Proc → Proc)
      → ((p : Proc) → (f p).state ≡ unused)
      → IsSound (record k { procs = modify k.procs i f })
  given_up-IsSound f state =
      dead_slot-IsSound k i k.nextpid q f v made.slot (inl not_started)
        (λ on. unused_ne (sym (state q) ∙ on))
        (λ started. absurd (true_ne (sym started ∙ ap is_started (state q))))
        (modify-IsNumbered k f i (λ p used. absurd (true_ne (sym (ap is_unused (state p)) ∙ used)))
          v.numbered)
    where
      unused_ne : unused ≡ running → ⊥
      unused_ne h = cc

  kept-IsSound :
      (f : Proc → Proc)
      → ((p : Proc) → (f p).state ≡ p.state)
      → ((p : Proc) → (f p).pid ≡ p.pid)
      → IsSound (record k { procs = modify k.procs i f })
  kept-IsSound f state pid =
      dead_slot-IsSound k i k.nextpid q f v made.slot (inl not_started)
        (λ on. embryo_ne (sym made.state ∙ sym (state q) ∙ on))
        (λ started. absurd (true_ne (sym started ∙ ap is_started (state q) ∙ not_started)))
        (modify-IsNumbered k f i (λ p used. (sym (ap is_unused (state p)) ∙ used, pid p))
          v.numbered)
    where
      embryo_ne : embryo ≡ running → ⊥
      embryo_ne h = cc

  pub give_stack-IsSound : (kstack : ℕ) → IsSound (give_stack k i kstack).1
  unfolding give_stack
  give_stack-IsSound kstack = elim (Bool-cases (kstack == 0)) [
    | inl fail ↦ rw (give_stack, fail) (given_up-IsSound (set_state unused) (λ p. refl))
    | inr page ↦
        rw (give_stack, page)
          (kept-IsSound (λ p. record p { kstack = kstack }) (λ p. refl) (λ p. refl))
  ]

  pub copy_process-IsSound :
      (cur : ℕ) (curproc : Proc) (pgdir : ℕ) → IsSound (copy_process k cur curproc i pgdir).1
  unfolding copy_process
  copy_process-IsSound cur curproc pgdir = elim (Bool-cases (pgdir == 0)) [
    | inl fail ↦ rw (copy_process, fail) (given_up-IsSound _ (λ p. refl))
    | inr page ↦ rw (copy_process, page) (kept-IsSound _ (λ p. refl) (λ p. refl))
  ]

  -- The new process is numbered already; now it has a parent.
  pub publish-IsSound :
      (cur : ℕ) → k.current ≡ some cur → q.parent ≡ some cur → IsSound (publish k i)
  unfolding publish
  publish-IsSound cur cpu parent =
      dead_slot-IsSound k i k.nextpid q (set_state runnable) v made.slot (inl not_started)
        (λ on. runnable_ne on) (λ started. (cur, parent, current-IsAlive k cur v cpu))
        (IsNumbered-KeepsPid k (record k { procs = modify k.procs i (set_state runnable) }) refl
          (Slots-modify KeepsPid (set_state runnable) k.procs i
            (λ p at.
              let same : q ≡ p = some-injective _ _ (sym made.slot ∙ at) in
              record {
                pid = refl;
                in_use =
                    sym (ap (λ (x : Proc). is_unused x.state) (sym same) ∙ ap is_unused made.state);
              })
            (λ p. record { pid = refl; in_use = refl }))
          v.numbered)
    where
      runnable_ne : runnable ≡ running → ⊥
      runnable_ne h = cc

find_zombie-zombie :
    (cur : ℕ) (ps : List Proc) (i : ℕ)
    → find_zombie cur ps ≡ some i
    → (p : Proc) × (get_elem? ps i ≡ some p) × (is_zombie p.state ≡ true)
unfolding find_zombie
find_zombie-zombie cur [] i h = absurd (none_ne h)
  where
    none_ne : none ≡ some i → ⊥
    none_ne h = cc
find_zombie-zombie cur (p ∷ ps) i h = elim (Bool-cases (is_parent cur p && is_zombie p.state)) [
  | inl gone ↦
      let e = some-injective _ _ (rw (find_zombie, gone) at h) in
      subst (λ j. (q : Proc) × (get_elem? (p ∷ ps) j ≡ some q) × (is_zombie q.state ≡ true)) e
        (p, refl, and_right (is_parent cur p) (is_zombie p.state) gone)
  | inr other ↦ elim (Option-cases (find_zombie cur ps)) [
    | inl nothing ↦ absurd (none_ne (rw (find_zombie, other, nothing) at h))
    | inr (j, found) ↦
        let e = some-injective _ _ (rw (find_zombie, other, found) at h) in
        subst (λ l. (q : Proc) × (get_elem? (p ∷ ps) l ≡ some q) × (is_zombie q.state ≡ true)) e
          (find_zombie-zombie cur ps j found)
  ]
]
  where
    none_ne : none ≡ some i → ⊥
    none_ne h = cc

    and_right : (a b : Bool) → (a && b) ≡ true → b ≡ true
    and_right true b h = h
    and_right false b h = absurd cc

reap-IsSound :
    (k : Kernel) (i : ℕ) (p : Proc)
    → IsSound k
    → get_elem? k.procs i ≡ some p
    → is_zombie p.state ≡ true
    → IsSound (record k { procs = modify k.procs i reap })
reap-IsSound k i p v at gone =
    dead_slot-IsSound k i k.nextpid p reap v at (inr gone) (λ e. cc)
      (λ started. absurd (true_ne (sym started)))
      (modify-IsNumbered k reap i (λ q used. absurd (true_ne used)) v.numbered)

-- A scan of `wait` that ends the call.
pub waited-IsSound :
    (k : Kernel) (i : ℕ) (p : Proc) → IsSound k → (wait k i p).0 ≢ sleeps → IsSound (wait k i p).1
unfolding wait
waited-IsSound k i p v ends = elim (Option-cases (find_zombie i k.procs)) [
  | inr (j, e) ↦
      let (q, at, gone) = find_zombie-zombie i k.procs j e in
      rw (wait, e) (reap-IsSound k j q v at gone)
  | inl nothing ↦ elim (Bool-cases (not (has_kids i k.procs) || p.killed)) [
    | inl fails ↦ rw (wait, nothing, fails) v
    | inr sleepy ↦ absurd (ends (rw (wait, nothing, sleepy) refl))
  ]
]

-- A scan that goes to sleep.
pub waits-IsSound :
    (k : Kernel) (i : ℕ) (p : Proc)
    → IsSound k
    → k.current ≡ some i
    → (wait k i p).0 ≡ sleeps
    → IsSound (switched (wait k i p).1)
unfolding wait
waits-IsSound k i p v cpu sleepy = elim (Option-cases (find_zombie i k.procs)) [
  | inr (j, e) ↦ absurd (reaped_ne (rw (wait, e) at sleepy))
  | inl nothing ↦ elim (Bool-cases (not (has_kids i k.procs) || p.killed)) [
    | inl fails ↦ absurd (failed_ne (rw (wait, nothing, fails) at sleepy))
    | inr goes ↦ rw (wait, nothing, goes) (sleep-IsSound k i (proc_chan i) v cpu)
  ]
]
  where
    reaped_ne : {n : ℕ} → reaped n ≡ sleeps → ⊥
    reaped_ne h = cc

    failed_ne : failed ≡ sleeps → ⊥
    failed_ne h = cc
