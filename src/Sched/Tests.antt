-- ===== src/Sched/Tests.antt =====
-- A small process table: the theorems at states that meet their hypotheses, and runs.
use hanlin.Base.{
  ℕ, ◌-◌, ◌≤◌, ◌<◌, ◌≡◌, refl, true, false, List, [], ◌∷◌, none, some, ℤ, pos, arith, get_elem?, ok,
}
use hanlin.Sched.Table.{
  Proc, Kernel, State, unused, sleeping, runnable, running, zombie, no_chan, ticks_chan, reserve,
  give_stack, copy_process, publish, embryo, is_runnable, exit, wait, proc_chan,
}
use hanlin.Sched.Select.{pick, scheduler}
use hanlin.Sched.Select.First.{Best, pick-Best}
use hanlin.Sched.Clock.{timer}
use hanlin.Sched.Clock.Calm.{IsCalmAt, timer-IsCalmAt}
use hanlin.Sched.Clock.Sleep.{ticked, ticked-sleeping}
use hanlin.Sched.Boot.{
  userinit, switched, IsEmpty, Reach, booted, scheduled, reserved, stacked, copied, published,
  waits, exited,
}
use hanlin.Sched.Family.{IsSound}
use hanlin.Sched.Family.Reached.{Reach-IsSound}
use hanlin.Sched.Life.{IsNumbered}

abbrev proc_of : State → ℕ → ℕ → Proc
proc_of state pid priority = record {
  sz = 4096;
  pgdir = 1;
  kstack = 2;
  state = state;
  pid = pid;
  parent = none;
  eax = 0;
  registers = [];
  chan = no_chan;
  killed = false;
  ofile = [];
  cwd = none;
  priority = priority;
  nice = 5;
  ticks = 0;
  cpu = 40;
  stillsleep = pos 0;
  name = [];
}

-- Two runnable processes of one priority value behind a better zombie, and a free slot.
abbrev table : List Proc
table = proc_of zombie 1 0 ∷ proc_of runnable 2 7 ∷ proc_of runnable 3 7 ∷ proc_of unused 0 99 ∷ []

abbrev kernel : Kernel
kernel = record { procs = table; nextpid = 4; initproc = some 0; current = none; ticks = 99 }

low :
    (j : ℕ) (p : Proc) → get_elem? table j ≡ some p → is_runnable p.state ≡ true → p.priority < 200
low j p h r = ground arith

pick_runs : (pick none table).selected ≡ some 1
unfolding pick
pick_runs = refl

pick-Best_example : Best table 4 (pick (some 1) table).selected (pick (some 1) table).min_priority
pick-Best_example = pick-Best (some 1) table low

kernel-IsCalmAt : IsCalmAt kernel
kernel-IsCalmAt = ground arith

timer-IsCalmAt_example : IsCalmAt (timer kernel)
timer-IsCalmAt_example = timer-IsCalmAt kernel (omega arith) kernel-IsCalmAt

kernel-IsNumbered : IsNumbered kernel
kernel-IsNumbered = ground arith

abbrev sleeper : ℤ → Proc
sleeper n = record (proc_of sleeping 2 7) { chan = ticks_chan; stillsleep = n }

ticked-sleeping_example :
    ((k : ℕ) → k ≤ 2 → ticked k (sleeper (pos 3)) ≡ sleeper (pos (3 - k)))
    × (ticked 3 (sleeper (pos 3)) ≡ record (sleeper (pos 0)) { state = runnable })
ticked-sleeping_example = ticked-sleeping 2 (sleeper (pos 3)) refl refl refl

-- An empty table of two slots; the first process; its child, which exits.
abbrev blank : Kernel
blank = record {
  procs = proc_of unused 0 0 ∷ proc_of unused 0 0 ∷ [];
  nextpid = 1;
  initproc = none;
  current = none;
  ticks = 0;
}

abbrev init_proc : Proc
init_proc = record (proc_of runnable 1 0) {
  pgdir = 6;
  kstack = 5;
  registers = 9 ∷ [];
  name = 105 ∷ [];
  cwd = some 1;
}

abbrev started : Kernel
started = record blank {
  procs = init_proc ∷ proc_of unused 0 0 ∷ [];
  nextpid = 2;
  initproc = some 0;
}

blank-IsEmpty : IsEmpty blank
blank-IsEmpty = record { procs = ground arith; current = refl; nextpid = refl }

started_lem : userinit blank 5 6 (9 ∷ []) (105 ∷ []) 1 ≡ ok started
unfolding userinit
started_lem = refl

-- The two processes while the first waits for its child, which is on the CPU, and after its exit.
abbrev child_proc : Proc
child_proc = record (proc_of running 2 0) {
  pgdir = 8;
  kstack = 7;
  parent = some 0;
  registers = 9 ∷ [];
  name = 105 ∷ [];
  cwd = some 1;
}

abbrev init_waits : Proc
init_waits = record init_proc { state = sleeping; chan = proc_chan 0 }

abbrev child_runs : Kernel
child_runs = record started { procs = init_waits ∷ child_proc ∷ []; nextpid = 3; current = some 1 }

abbrev child_gone : Kernel
child_gone = record child_runs {
  procs =
      record init_waits { state = runnable }
      ∷ record child_proc { state = zombie; cwd = none }
      ∷ [];
}

abbrev init_runs : Proc
init_runs = record init_proc { state = running }

abbrev forking : List Proc → Kernel
forking procs = record started { procs = procs; nextpid = 3; current = some 0 }

first_runs-Reach :
    Reach (record started { procs = init_runs ∷ proc_of unused 0 0 ∷ []; current = some 0 })
unfolding pick scheduler
first_runs-Reach =
    scheduled started none
      (booted blank started 5 6 (9 ∷ []) (105 ∷ []) 1 blank-IsEmpty started_lem) refl

child_runs-Reach : Reach child_runs
unfolding reserve give_stack copy_process publish wait pick scheduler
child_runs-Reach =
    let embryo_proc = record (proc_of unused 0 0) { state = embryo; pid = 2 } in
    let r0 =
      reserved _ (forking (init_runs ∷ embryo_proc ∷ [])) 0 init_runs (some 1) first_runs-Reach
        (record { on_cpu = refl; slot = refl }) refl in
    let r1 = stacked _ 1 embryo_proc 7 r0 (record { slot = refl; state = refl }) in
    let r2 =
      copied _ 0 init_runs 1 (record embryo_proc { kstack = 7 }) 8 r1
        (record { on_cpu = refl; slot = refl }) (record { slot = refl; state = refl }) in
    let r3 =
      published _ 0 init_runs 1 (record child_proc { state = embryo }) r2
        (record { on_cpu = refl; slot = refl }) (record { slot = refl; state = refl }) refl in
    scheduled _ (some 0) (waits _ 0 init_runs r3 (record { on_cpu = refl; slot = refl }) refl) refl

child_gone_lem : exit child_runs 1 child_proc ≡ some child_gone
unfolding exit
child_gone_lem = refl

Reach-IsSound_example : IsSound (switched child_gone)
Reach-IsSound_example = Reach-IsSound (switched child_gone) (
    exited child_runs child_gone 1 child_proc child_runs-Reach
      (record { on_cpu = refl; slot = refl }) child_gone_lem)
