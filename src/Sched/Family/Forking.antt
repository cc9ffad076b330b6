-- ===== src/Sched/Family/Forking.antt =====
-- A `fork` that nothing comes between is a sequence of the steps of the kernel.
use mathlib.Core.Option.{some-injective}
use hanlin.Base.{
  ℕ, ◌+◌, ◌≡◌, ◌≢◌, refl, sym, ap, ◌∙◌, subst, Bool, true, false, none, some, Option, ◌==◌,
  get_elem?, Bool-cases, Run, ok, fault, Fault, if◌then◌else◌, ok-injective, inl, inr,
}
use hanlin.Sched.Table.{
  Proc, Kernel, embryo, is_unused, modify, give_stack, allocproc, copy_process, publish, fork,
  pid_at,
}
use hanlin.Sched.Life
use hanlin.Sched.Life.{reserve-Reserved, get_elem?-modify}
use hanlin.Sched.Boot.{Reach, Runs, IsEmbryo, reserved, stacked, copied, published}
use hanlin.Sched.Family.{IsSound, get_elem?-modify_other}
use hanlin.Sched.Family.Reuse.{find_unused-unused}
use hanlin.Sched.Family.Reached.{Reach-IsSound}

-- The process on the CPU, and the slot that it has reserved.
pub record Forks (k : Kernel) (cur i : ℕ) (p q : Proc) : Type 0 where
  pub runs : Runs k cur p
  pub made : IsEmbryo k i q
  pub apart : i ≢ cur

-- A change of the reserved slot that leaves it reserved.
Forks-modify :
    (k : Kernel) (cur i : ℕ) (p q : Proc) (f : Proc → Proc)
    → ((r : Proc) → (f r).state ≡ r.state)
    → Forks k cur i p q
    → Forks (record k { procs = modify k.procs i f }) cur i p (f q)
Forks-modify k cur i p q f state h = record {
  runs = record {
    on_cpu = h.runs.on_cpu;
    slot = get_elem?-modify_other f k.procs i cur h.apart ∙ h.runs.slot;
  };
  made = record {
    slot = get_elem?-modify f k.procs i q h.made.slot;
    state = state q ∙ h.made.state;
  };
  apart = h.apart;
}

-- The kernel once slot `i` is reserved.
abbrev reserving : Kernel → ℕ → Kernel
reserving k i = record k {
  procs = modify k.procs i (λ r. record r { state = embryo; pid = k.nextpid });
  nextpid = k.nextpid + 1;
}

reserve-Forks :
    (k : Kernel) (cur i : ℕ) (p q : Proc)
    → IsSound k
    → Runs k cur p
    → get_elem? k.procs i ≡ some q
    → is_unused q.state ≡ true
    → Forks (reserving k i) cur i p (record q { state = embryo; pid = k.nextpid })
reserve-Forks k cur i p q v on at free = record {
  runs = record {
    on_cpu = on.on_cpu;
    slot = get_elem?-modify_other _ k.procs i cur apart ∙ on.slot;
  };
  made = record { slot = get_elem?-modify _ k.procs i q at; state = refl };
  apart = apart;
}
  where
    true_ne : true ≡ false → ⊥
    true_ne h = cc

    apart : i ≢ cur
    apart e =
        let (r, there, run) = v.runs cur on.on_cpu in
        let same : q ≡ r = some-injective _ _ (sym at ∙ ap (get_elem? k.procs) e ∙ there) in
        true_ne (sym free ∙ ap (λ (x : Proc). is_unused x.state) same ∙ ap is_unused run)

-- Once the stack is there: a copy that fails, or one that is made runnable.
module _ (k : Kernel) (cur i : ℕ) (p q : Proc) (r : Reach k) (h : Forks k cur i p q) where
  copied-Reach :
      (pgdir : ℕ)
      → let (done, next) = copy_process k cur p i pgdir in
        Reach (if done then publish next i else next)
  unfolding copy_process
  copied-Reach pgdir =
      let next = copied k cur p i q pgdir r h.runs h.made in
      elim (Bool-cases (pgdir == 0)) [
        | inl fail ↦ rw (copy_process, fail) (rw (copy_process, fail) at next)
        | inr good ↦
            rw (copy_process, good)
              (finish _ (rw (copy_process, good) at next) (λ x. refl) (λ x. refl))
      ]
    where
      finish :
          (f : Proc → Proc)
          → Reach (record k { procs = modify k.procs i f })
          → ((x : Proc) → (f x).state ≡ x.state)
          → ((x : Proc) → (f x).parent ≡ some cur)
          → Reach (publish (record k { procs = modify k.procs i f }) i)
      finish f reach state parent =
          let after = Forks-modify k cur i p q f state h in
          published (record k { procs = modify k.procs i f }) cur p i (f q) reach after.runs
            after.made (parent q)

-- The slot, if `give_stack` gives one, is still reserved.
give_stack-Forks :
    (k : Kernel) (cur i kstack j : ℕ) (p q : Proc)
    → Forks k cur i p q
    → (give_stack k i kstack).0 ≡ some j
    → (x : Proc) × Forks (give_stack k i kstack).1 cur j p x
unfolding give_stack
give_stack-Forks k cur i kstack j p q h given = elim (Bool-cases (kstack == 0)) [
  | inl fail ↦ absurd (none_ne (rw (give_stack, fail) at given))
  | inr page ↦
      let same : i ≡ j = some-injective _ _ (rw (give_stack, page) at given) in
      let after = Forks-modify k cur i p q (λ x. record x { kstack = kstack }) (λ x. refl) h in
      rw (give_stack, page)
        (
          record q { kstack = kstack },
          subst
              (λ l.
                Forks (record k { procs = modify k.procs i (λ x. record x { kstack = kstack }) })
                  cur l p (record q { kstack = kstack }))
              same after,
        )
]
  where
    none_ne : none ≡ some j → ⊥
    none_ne h = cc

-- Each way out of a `fork` by the process on the CPU leaves a state that the kernel reaches.
module _ (cur : ℕ) (p : Proc) (pgdir : ℕ) (result : Option ℕ) (k' : Kernel) where
  -- What `fork` returns, and the kernel after it, from what `allocproc` gives it.
  abbrev ends : Option ℕ × Kernel → Option ℕ × Kernel
  ends given = elim given.0 [
    | none ↦ (none, given.1)
    | some i ↦
        let (done, next) = copy_process given.1 cur p i pgdir in
        if done then (some (pid_at next.procs i), publish next i) else (none, next)
  ]

  outcome :
      (c : Bool × Kernel) (i : ℕ)
      → Reach (if c.0 then publish c.1 i else c.1)
      → let ended : Option ℕ × Kernel =
          if c.0 then (some (pid_at c.1.procs i), publish c.1 i) else (none, c.1) in
        Reach ended.1
  outcome (true, next) i reach = reach
  outcome (false, next) i reach = reach

  ends-Reach :
      (g : Option ℕ × Kernel)
      → Reach g.1
      → ((j : ℕ) → g.0 ≡ some j → (q : Proc) × Forks g.1 cur j p q)
      → Reach (ends g).1
  ends-Reach (none, k) reach forks = reach
  ends-Reach (some i, k) reach forks =
      let (q, h) = forks i refl in
      outcome (copy_process k cur p i pgdir) i (copied-Reach k cur i p q reach h pgdir)

  fork-Reach :
      (k : Kernel) (kstack : ℕ)
      → Reach k
      → Runs k cur p
      → fork k cur p kstack pgdir ≡ ok (result, k')
      → Reach k'
  unfolding fork allocproc
  fork-Reach k kstack r on done = elim (reserve-Reserved k) [
    | Life.no_slot e ↦ arrives (none, k) r (rw (fork, allocproc, e) at done)
    | Life.overflows e ↦ absurd (fault_ne (rw (fork, allocproc, e) at done))
    | Life.reserved i free small e ↦
        let (q, at, dead) = find_unused-unused k.procs i free in
        let h = reserve-Forks k cur i p q (Reach-IsSound k r) on at dead in
        let r0 = reserved k (reserving k i) cur p (some i) r on e in
        arrives (ends (give_stack (reserving k i) i kstack))
          (ends-Reach (give_stack (reserving k i) i kstack)
            (stacked (reserving k i) i (record q { state = embryo; pid = k.nextpid }) kstack r0
              h.made)
            (λ j given. give_stack-Forks (reserving k i) cur i kstack j p _ h given))
          (rw (fork, allocproc, e) at done)
  ]
    where
      fault_ne : {e : Fault} {x : Option ℕ × Kernel} → fault e ≡ ok x → ⊥
      fault_ne h = cc

      arrives :
          (x : Option ℕ × Kernel)
          → Reach x.1
          → ◌≡◌ {A = Run (Option ℕ × Kernel)} (ok x) (ok (result, k'))
          → Reach k'
      arrives x reach e = subst Reach (ap (λ (y : Option ℕ × Kernel). y.1) (ok-injective e)) reach
