-- ===== src/Sched/Family/Reached.antt =====
-- proc.c: every state that the kernel reaches is sound.
use hanlin.Base.{
  ℕ, suc, ◌+◌, ◌≡◌, ◌≢◌, refl, sym, ap, ◌∙◌, subst, arith, true, false, List, [], ◌∷◌, none, some,
  ◌==◌, inl, inr, get_elem?, ok, exit, fault, Fault, ok-injective, Bool-cases, ℕ_discrete,
}
use hanlin.Sched.Table.{
  Proc, Kernel, State, running, runnable, unused, modify, is_unused, is_started, is_zombie,
  allocproc, give_stack,
}
use hanlin.Sched.Life.{
  IsOld, Apart, AllApart, IsNumbered, reserve-Reserved, fresh-IsNumbered, modify-modify,
  get_elem?-modify,
}
use hanlin.Sched.Life
use hanlin.Sched.Clock.Calm.{All}
use hanlin.Sched.Boot.{
  userinit, IsEmpty, Reach, booted, scheduled, ticked, woken, killed, reserved, stacked, copied,
  published, niced, resumed, yielded, slept, waited, waits, exited,
}
use hanlin.Sched.Family.{HasFamily, IsSound, get_elem?-modify_other, get_elem?-modify_same}
use hanlin.Sched.Family.Dispatch.{scheduler-IsSound}
use hanlin.Sched.Family.Leave.{yield-IsSound, sleep-IsSound}
use hanlin.Sched.Family.Steady.{
  wakeup-IsSound, timer-IsSound, nice-IsSound, tidy_up-IsSound, kill-IsSound,
}
use hanlin.Sched.Family.ForkWait.{
  reserve-IsSound, give_stack-IsSound, copy_process-IsSound, publish-IsSound, waited-IsSound,
  waits-IsSound,
}
use hanlin.Sched.Family.Reuse.{find_unused-unused}
use hanlin.Sched.Family.Exit.{exit-IsSound}

IsEmpty-IsNumbered : (k : Kernel) → IsEmpty k → IsNumbered k
IsEmpty-IsNumbered k empty = record {
  old = all (IsOld k.nextpid) k.procs empty.procs (λ p free used. absurd (both free used));
  apart = spread k.procs empty.procs;
  small = omega (arith, empty.nextpid);
}
  where
    both : {s : State} → s ≡ unused → is_unused s ≡ false → ⊥
    both e h = true_ne (sym (ap is_unused e) ∙ h)
      where
        true_ne : true ≡ false → ⊥
        true_ne h = cc

    all :
        (P : Proc → Type 0) (ps : List Proc)
        → ((i : ℕ) (p : Proc) → get_elem? ps i ≡ some p → (p.state ≡ unused) × (p.parent ≡ none))
        → ((p : Proc) → p.state ≡ unused → P p)
        → All P ps
    all P [] h f = tt
    all P (p ∷ ps) h f = (f p (h 0 p refl).0, all P ps (λ i. h (suc i)) f)

    spread :
        (ps : List Proc)
        → ((i : ℕ) (p : Proc) → get_elem? ps i ≡ some p → (p.state ≡ unused) × (p.parent ≡ none))
        → AllApart ps
    spread [] h = tt
    spread (p ∷ ps) h = (
      all (Apart p) ps (λ i. h (suc i)) (λ q free used used'. absurd (both free used')),
      spread ps (λ i. h (suc i)),
    )

-- The first process.
module _ (k : Kernel) (empty : IsEmpty k) (i : ℕ) (f : Proc → Proc)
    (pid : (p : Proc) → (f p).pid ≡ k.nextpid) (state : (p : Proc) → (f p).state ≡ runnable)
    (p : Proc) (at : get_elem? k.procs i ≡ some p) where
  init-IsSound :
      IsSound (record k { procs = modify k.procs i f; nextpid = k.nextpid + 1; initproc = some i })
  init-IsSound = record {
    numbered =
        let n =
          fresh-IsNumbered k f i pid (omega (arith, empty.nextpid)) (IsEmpty-IsNumbered k empty) in
        record { old = n.old; apart = n.apart; small = n.small };
    first = (
      i,
      refl,
      record {
        proc = f p;
        slot = get_elem?-modify f k.procs i p at;
        started = ap is_started (state p);
        going = ap is_zombie (state p);
      },
    );
    family = family;
    runs = λ j e. absurd (none_ne j (sym empty.current ∙ e));
    alone = alone;
  }
    where
      none_ne : (j : ℕ) → none ≡ some j → ⊥
      none_ne j h = cc

      runnable_ne : runnable ≡ running → ⊥
      runnable_ne h = cc

      unused_ne : unused ≡ running → ⊥
      unused_ne h = cc

      true_ne : true ≡ false → ⊥
      true_ne h = cc

      others :
          (j : ℕ) (q : Proc) → i ≢ j → get_elem? (modify k.procs i f) j ≡ some q → q.state ≡ unused
      others j q ne after =
          (empty.procs j q (sym (get_elem?-modify_other f k.procs i j ne) ∙ after)).0

      family : HasFamily (modify k.procs i f) (some i)
      family j q after started = elim (ℕ_discrete i j) [
        | yes here ↦ inl (ap (λ l. some l) here)
        | no ne ↦ absurd (true_ne (sym started ∙ ap is_started (others j q ne after)))
      ]

      alone :
          (j : ℕ) (q : Proc)
          → get_elem? (modify k.procs i f) j ≡ some q
          → q.state ≡ running
          → k.current ≡ some j
      alone j q after on = elim (ℕ_discrete i j) [
        | yes here ↦
            let (r, before, e) = get_elem?-modify_same f k.procs i q (rw (sym here) at after) in
            absurd (runnable_ne (sym (state r) ∙ ap (λ (x : Proc). x.state) e ∙ on))
        | no ne ↦ absurd (unused_ne (sym (others j q ne after) ∙ on))
      ]

userinit-IsSound :
    (k k' : Kernel) (kstack pgdir : ℕ) (registers name : List ℕ) (root : ℕ)
    → IsEmpty k
    → userinit k kstack pgdir registers name root ≡ ok k'
    → IsSound k'
unfolding userinit allocproc give_stack
userinit-IsSound k k' kstack pgdir registers name root empty done = elim (reserve-Reserved k) [
  | Life.no_slot e ↦ absurd (fault_ne (rw (userinit, allocproc, e) at done))
  | Life.overflows e ↦ absurd (fault_ne (rw (userinit, allocproc, e) at done))
  | Life.reserved i free few e ↦ elim (Bool-cases (kstack == 0)) [
    | inl empty_page ↦
        absurd (fault_ne (rw (userinit, allocproc, e, give_stack, empty_page) at done))
    | inr page ↦ elim (Bool-cases (pgdir == 0)) [
      | inl fail ↦ absurd (exit_ne (rw (userinit, allocproc, e, give_stack, page, fail) at done))
      | inr made ↦
          let (p, at, dead) = find_unused-unused k.procs i free in
          let same = ok-injective (
            rw (modify-modify _ _ k.procs i, modify-modify _ _ k.procs i) at
              (rw (userinit, allocproc, e, give_stack, page, made) at done)) in
          subst IsSound same (init-IsSound k empty i _ (λ q. refl) (λ q. refl) p at)
    ]
  ]
]
  where
    fault_ne : {e : Fault} → fault e ≡ ok k' → ⊥
    fault_ne h = cc

    exit_ne : exit ≡ ok k' → ⊥
    exit_ne h = cc

-- In every state that the kernel reaches from an empty table by `userinit`, the scheduler, the clock
-- interrupt, `wakeup`, and `kill`, by the sections of `fork`, with anything between them, and by `nice`,
-- `yield`, `sleep`, `wait` and `exit` of the process on the CPU, the pids of the slots in use are
-- distinct and below `nextpid`, which is below 2 ^ 31; `initproc` is alive; every other process that was started, a zombie
-- included, has a parent that is alive; and a process is RUNNING exactly if it is the one on the CPU.
-- A slot that is still EMBRYO is in use and numbered, but need not have a parent.
pub Reach-IsSound : (k : Kernel) → Reach k → IsSound k
Reach-IsSound k (booted k0 k' kstack pgdir registers name root empty done) =
    userinit-IsSound k0 k' kstack pgdir registers name root empty done
Reach-IsSound _ (scheduled k last r idle) = scheduler-IsSound k last (Reach-IsSound k r) idle
Reach-IsSound _ (ticked k r) = timer-IsSound k (Reach-IsSound k r)
Reach-IsSound _ (woken k chan r) = wakeup-IsSound chan k (Reach-IsSound k r)
Reach-IsSound _ (killed k pid r) = kill-IsSound k pid (Reach-IsSound k r)
Reach-IsSound _ (reserved k k' cur p found r on done) =
    reserve-IsSound k k' found (Reach-IsSound k r) done
Reach-IsSound _ (stacked k i q kstack r made) =
    give_stack-IsSound k i q (Reach-IsSound k r) made kstack
Reach-IsSound _ (copied k cur p i q pgdir r on made) =
    copy_process-IsSound k i q (Reach-IsSound k r) made cur p pgdir
Reach-IsSound _ (published k cur p i q r on made parent) =
    publish-IsSound k i q (Reach-IsSound k r) made cur on.on_cpu parent
Reach-IsSound _ (niced k i p n r on) = nice-IsSound k i p n (Reach-IsSound k r)
Reach-IsSound _ (resumed k i p r on) = tidy_up-IsSound k i (Reach-IsSound k r)
Reach-IsSound _ (yielded k i p r on) = yield-IsSound k i (Reach-IsSound k r) on.on_cpu
Reach-IsSound _ (slept k i p chan r on) = sleep-IsSound k i chan (Reach-IsSound k r) on.on_cpu
Reach-IsSound _ (waited k i p r on ends) = waited-IsSound k i p (Reach-IsSound k r) ends
Reach-IsSound _ (waits k i p r on sleepy) = waits-IsSound k i p (Reach-IsSound k r) on.on_cpu sleepy
Reach-IsSound _ (exited k k' i p r on done) =
    exit-IsSound k k' i p (Reach-IsSound k r) on.on_cpu done
