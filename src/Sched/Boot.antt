-- ===== src/Sched/Boot.antt =====
-- proc.c: the first process, and what the processes and the scheduler do from then on.
use hanlin.Base.{
  ℕ, ◌≡◌, ◌≢◌, List, Option, none, some, ◌==◌, if◌then◌else◌, get_elem?, ℤ, Run, ok, exit, fault,
  null_dereference, ◌>>=◌,
}
use hanlin.Sched.Table.{
  Proc, Kernel, State, runnable, running, unused, embryo, Chan, modify, allocproc, reserve,
  give_stack, copy_process, publish, wakeup, sleep, tidy_up, yield, kill, Waited, sleeps, wait,
}
use hanlin.Sched.Table
use hanlin.Sched.Select.{scheduler}
use hanlin.Sched.Clock.{timer, nice}

-- `userinit`, where `pgdir` is what `setupkvm` returns, 0 on failure, and `root` what `namei("/")`
-- returns; `exit` is the panic.
unfoldable pub userinit : Kernel → ℕ → ℕ → List ℕ → List ℕ → ℕ → Run Kernel
unfolding allocproc modify
userinit k kstack pgdir registers name root = do
  (found, k') ← allocproc k kstack
  elim found [
    | none ↦ fault null_dereference
    | some i ↦
        if pgdir == 0
        then exit
        else ok (record k' {
          initproc = some i;
          procs = modify k'.procs i (λ p. record p {
            pgdir = pgdir;
            sz = 4096;
            eax = 0;
            registers = registers;
            name = name;
            cwd = some root;
            state = runnable;
          });
        })
  ]

-- The table before `userinit`: no slot was ever used, and the first pid is 1.
pub record IsEmpty (k : Kernel) : Type 0 where
  pub procs :
      (i : ℕ) (p : Proc) → get_elem? k.procs i ≡ some p → (p.state ≡ unused) × (p.parent ≡ none)
  pub current : k.current ≡ none
  pub nextpid : k.nextpid ≡ 1

-- The process in slot `i` is on the CPU.
pub record Runs (k : Kernel) (i : ℕ) (p : Proc) : Type 0 where
  pub on_cpu : k.current ≡ some i
  pub slot : get_elem? k.procs i ≡ some p

-- The slot `i` is reserved for a process that `fork` makes.
pub record IsEmbryo (k : Kernel) (i : ℕ) (p : Proc) : Type 0 where
  pub slot : get_elem? k.procs i ≡ some p
  pub state : p.state ≡ embryo

-- The CPU is back in the scheduler.
abbrev pub switched : Kernel → Kernel
switched k = record k { current = none }

-- What the kernel does, one critical section at a time. A call of the process on the CPU that gives it
-- up ends in the switch. `fork` is four steps, and anything may come between them: `reserved` and
-- `published` are its sections under the lock, `stacked` and `copied` what it writes without it. Each
-- is allowed on any EMBRYO slot, which is more than the code does: there only the process that has
-- reserved the slot makes them, in this order.
pub data Reach : Kernel → Type 0 where
  booted :
      (k k' : Kernel) (kstack pgdir : ℕ) (registers name : List ℕ) (root : ℕ)
      → IsEmpty k
      → userinit k kstack pgdir registers name root ≡ ok k'
      → Reach k'
  scheduled :
      (k : Kernel) (last : Option ℕ) → Reach k → k.current ≡ none → Reach (scheduler k last).0
  ticked : (k : Kernel) → Reach k → Reach (timer k)
  woken : (k : Kernel) (chan : Chan) → Reach k → Reach (wakeup chan k)
  killed : (k : Kernel) (pid : ℕ) → Reach k → Reach (kill k pid).1
  reserved :
      (k k' : Kernel) (cur : ℕ) (p : Proc) (found : Option ℕ)
      → Reach k
      → Runs k cur p
      → reserve k ≡ ok (found, k')
      → Reach k'
  stacked :
      (k : Kernel) (i : ℕ) (q : Proc) (kstack : ℕ)
      → Reach k
      → IsEmbryo k i q
      → Reach (give_stack k i kstack).1
  copied :
      (k : Kernel) (cur : ℕ) (p : Proc) (i : ℕ) (q : Proc) (pgdir : ℕ)
      → Reach k
      → Runs k cur p
      → IsEmbryo k i q
      → Reach (copy_process k cur p i pgdir).1
  published :
      (k : Kernel) (cur : ℕ) (p : Proc) (i : ℕ) (q : Proc)
      → Reach k
      → Runs k cur p
      → IsEmbryo k i q
      → q.parent ≡ some cur
      → Reach (publish k i)
  niced : (k : Kernel) (i : ℕ) (p : Proc) (n : ℤ) → Reach k → Runs k i p → Reach (nice k i p n).1
  resumed : (k : Kernel) (i : ℕ) (p : Proc) → Reach k → Runs k i p → Reach (tidy_up k i)
  yielded : (k : Kernel) (i : ℕ) (p : Proc) → Reach k → Runs k i p → Reach (switched (yield k i))
  slept :
      (k : Kernel) (i : ℕ) (p : Proc) (chan : Chan)
      → Reach k
      → Runs k i p
      → Reach (switched (sleep k i chan))
  waited :
      (k : Kernel) (i : ℕ) (p : Proc)
      → Reach k
      → Runs k i p
      → (wait k i p).0 ≢ sleeps
      → Reach (wait k i p).1
  waits :
      (k : Kernel) (i : ℕ) (p : Proc)
      → Reach k
      → Runs k i p
      → (wait k i p).0 ≡ sleeps
      → Reach (switched (wait k i p).1)
  exited :
      (k k' : Kernel) (i : ℕ) (p : Proc)
      → Reach k
      → Runs k i p
      → Table.exit k i p ≡ some k'
      → Reach (switched k')
