-- ===== src/Sched/Table.antt =====
-- proc.h and the parts of proc.c that keep the process table. A pointer to a process is the index
-- of its slot. Each function is one section of the code that no other process comes between: what runs
-- under `ptable.lock`, or, in `fork`, what its process does without the lock to the EMBRYO slot that it
-- has reserved. The switch to another process is an event of its own.
use hanlin.Base.{
  ℕ, zero, suc, ◌+◌, Bool, true, false, ◌&&◌, ◌||◌, not, List, [], ◌∷◌, Option, none, some, ◌==◌,
  if◌then◌else◌, get_elem?, map, ℤ, pos, negsuc, ltb_ℤ, eqb_ℤ, leb, ◌^◌, ◌-◌, Run, ok, fault,
  integer_overflow, ◌>>=◌,
}

-- `enum procstate`
pub data State : Type 0 where
  unused embryo sleeping runnable running zombie : State

abbrev pub is_unused : State → Bool
is_unused unused = true
is_unused _ = false

abbrev pub is_sleeping : State → Bool
is_sleeping sleeping = true
is_sleeping _ = false

abbrev pub is_runnable : State → Bool
is_runnable runnable = true
is_runnable _ = false

abbrev pub is_zombie : State → Bool
is_zombie zombie = true
is_zombie _ = false

-- The states of a process that runs or has run; an EMBRYO is still being made.
abbrev pub is_started : State → Bool
is_started unused = false
is_started embryo = false
is_started _ = true

-- What a process sleeps on: the address of a process, of `ticks`, or another one; 0 is `no_chan`.
pub data Chan : Type 0 where
  no_chan ticks_chan : Chan
  proc_chan : ℕ → Chan
  other_chan : ℕ → Chan

abbrev pub chan_eq : Chan → Chan → Bool
chan_eq no_chan no_chan = true
chan_eq ticks_chan ticks_chan = true
chan_eq (proc_chan i) (proc_chan j) = i == j
chan_eq (other_chan i) (other_chan j) = i == j
chan_eq _ _ = false

-- `struct proc`. A page (`kstack`, `pgdir`) is a number, 0 for none; a trap frame is `eax` and the
-- other registers; files and the directory are numbers.
pub record Proc : Type 0 where
  pub sz : ℕ
  pub pgdir : ℕ
  pub kstack : ℕ
  pub state : State
  pub pid : ℕ
  pub parent : Option ℕ
  pub eax : ℕ
  pub registers : List ℕ
  pub chan : Chan
  pub killed : Bool
  pub ofile : List (Option ℕ)
  pub cwd : Option ℕ
  pub priority : ℕ
  pub nice : ℕ
  pub ticks : ℕ
  pub cpu : ℕ
  pub stillsleep : ℤ
  pub name : List ℕ

-- The table, the counter of pids, `initproc`, the process on the (one) CPU, and `ticks`.
pub record Kernel : Type 0 where
  pub procs : List Proc
  pub nextpid : ℕ
  pub initproc : Option ℕ
  pub current : Option ℕ
  pub ticks : ℕ

-- `table[i] = f(table[i])`; out of range nothing changes.
unfoldable pub modify {ℓ} : {A : Type ℓ} → List A → ℕ → (A → A) → List A
modify [] i f = []
modify (p ∷ ps) zero f = f p ∷ ps
modify (p ∷ ps) (suc i) f = p ∷ modify ps i f

abbrev pub set_state : State → Proc → Proc
set_state s p = record p { state = s }

-- The loop of `allocproc` for the first UNUSED slot.
unfoldable pub find_unused : List Proc → Option ℕ
find_unused [] = none
find_unused (p ∷ ps) =
    if is_unused p.state
    then some 0
    else elim (find_unused ps) [ none ↦ none | some i ↦ some (suc i) ]

abbrev pub pid_at : List Proc → ℕ → ℕ
pid_at procs i = elim (get_elem? procs i) [ none ↦ 0 | some p ↦ p.pid ]

-- The section of `allocproc` under the lock: the first UNUSED slot becomes an EMBRYO with the next pid,
-- an `int`.
unfoldable pub reserve : Kernel → Run (Option ℕ × Kernel)
unfolding find_unused modify
reserve k = elim (find_unused k.procs) [
  | none ↦ ok (none, k)
  | some i ↦
      if leb (2 ^ 31 - 1) k.nextpid
      then fault integer_overflow
      else ok (
        some i,
        record k {
          procs = modify k.procs i (λ p. record p { state = embryo; pid = k.nextpid });
          nextpid = k.nextpid + 1;
        },
      )
]

-- The rest of `allocproc`, without the lock; `kstack` is what `kalloc` returns, 0 if it has no page. The
-- trap frame on the new stack is set later (`copy_process`). No other field of the slot is written.
unfoldable pub give_stack : Kernel → ℕ → ℕ → Option ℕ × Kernel
give_stack k i kstack =
    if kstack == 0
    then (none, record k { procs = modify k.procs i (set_state unused) })
    else (some i, record k { procs = modify k.procs i (λ p. record p { kstack = kstack }) })

unfoldable pub allocproc : Kernel → ℕ → Run (Option ℕ × Kernel)
unfolding reserve give_stack
allocproc k kstack = do
  (found, k') ← reserve k
  ok (elim found [ none ↦ (none, k') | some i ↦ give_stack k' i kstack ])

-- What `fork` by the process in slot `cur` does without the lock to the new slot `i`, where `pgdir` is
-- what `copyuvm` returns, 0 on failure: no other process looks at the fields of an EMBRYO but the
-- state, the pid and the parent. The reference counts of the files and of the directory are file.c's
-- and fs.c's.
unfoldable pub copy_process : Kernel → ℕ → Proc → ℕ → ℕ → Bool × Kernel
copy_process k cur curproc i pgdir =
    if pgdir == 0
    then (
      false,
      record k { procs = modify k.procs i (λ p. record p { kstack = 0; state = unused }) },
    )
    else (
      true,
      record k {
        procs = modify k.procs i (λ p. record p {
          pgdir = pgdir;
          sz = curproc.sz;
          parent = some cur;
          eax = 0;
          registers = curproc.registers;
          ofile = curproc.ofile;
          cwd = curproc.cwd;
          name = curproc.name;
        });
      },
    )

-- The last section of `fork`, under the lock again.
unfoldable pub publish : Kernel → ℕ → Kernel
publish k i = record k { procs = modify k.procs i (set_state runnable) }

-- `fork`, when no other process comes between its sections.
unfoldable pub fork : Kernel → ℕ → Proc → ℕ → ℕ → Run (Option ℕ × Kernel)
unfolding allocproc copy_process publish
fork k cur curproc kstack pgdir = do
  (found, k') ← allocproc k kstack
  ok (elim found [
    | none ↦ (none, k')
    | some i ↦
        let (copied, k'') = copy_process k' cur curproc i pgdir in
        if copied then (some (pid_at k''.procs i), publish k'' i) else (none, k'')
  ])

-- `wakeup1`, and `wakeup`, which takes the lock around it.
abbrev pub wake : Chan → Proc → Proc
wake chan p = if is_sleeping p.state && chan_eq p.chan chan then set_state runnable p else p

unfoldable pub wakeup1 : Chan → List Proc → List Proc
wakeup1 chan procs = map (wake chan) procs

unfoldable pub wakeup : Chan → Kernel → Kernel
unfolding wakeup1
wakeup chan k = record k { procs = wakeup1 chan k.procs }

-- `stillsleep - 1`
abbrev pub less_one : ℤ → ℤ
less_one (pos zero) = negsuc 0
less_one (pos (suc n)) = pos n
less_one (negsuc n) = negsuc (suc n)

-- The loop body of `wakeup2`: a tick of the sleep of a process that sleeps on `chan`.
abbrev pub tick_sleep : Chan → Proc → Proc
tick_sleep chan p =
    let left = less_one p.stillsleep in
    if is_sleeping p.state && (ltb_ℤ (pos 0) p.stillsleep && chan_eq p.chan chan)
    then record p { stillsleep = left; state = if eqb_ℤ left (pos 0) then runnable else p.state }
    else p

unfoldable pub wakeup2 : Chan → Kernel → Kernel
wakeup2 chan k = record k { procs = map (tick_sleep chan) k.procs }

-- `sleep`, up to the switch: what it changes in the slot of the process.
unfoldable pub sleep : Kernel → ℕ → Chan → Kernel
sleep k cur chan = record k {
  procs = modify k.procs cur (λ p. record p { chan = chan; state = sleeping });
}

-- The end of `sleep`, when the process runs again.
unfoldable pub tidy_up : Kernel → ℕ → Kernel
tidy_up k cur = record k { procs = modify k.procs cur (λ p. record p { chan = no_chan }) }

-- `yield`, up to the switch.
unfoldable pub yield : Kernel → ℕ → Kernel
yield k cur = record k { procs = modify k.procs cur (set_state runnable) }

-- `kill`: the first process with the pid, if there is one, an unused slot included.
unfoldable pub kill_first : List Proc → ℕ → Option (List Proc)
kill_first [] pid = none
kill_first (p ∷ ps) pid =
    let rest = kill_first ps pid in
    if p.pid == pid
    then some
        (record p { killed = true; state = if is_sleeping p.state then runnable else p.state } ∷ ps)
    else elim rest [ none ↦ none | some qs ↦ some (p ∷ qs) ]

unfoldable pub kill : Kernel → ℕ → ℤ × Kernel
unfolding kill_first
kill k pid = elim (kill_first k.procs pid) [
  | none ↦ (negsuc 0, k)
  | some procs ↦ (pos 0, record k { procs = procs })
]

abbrev pub is_parent : ℕ → Proc → Bool
is_parent cur p = elim (p.parent) [ none ↦ false | some i ↦ i == cur ]

-- The loop of `exit` that hands the children to `initproc`; `wakes` records whether one of them is
-- a zombie, for which `initproc` is woken.
unfoldable pub reparent : ℕ → Option ℕ → Proc → Proc
reparent cur initproc p = if is_parent cur p then record p { parent = initproc } else p

unfoldable pub any_zombie_child : ℕ → List Proc → Bool
any_zombie_child cur [] = false
any_zombie_child cur (p ∷ ps) = (is_parent cur p && is_zombie p.state) || any_zombie_child cur ps

abbrev pub chan_of : Option ℕ → Chan
chan_of none = no_chan
chan_of (some i) = proc_chan i

-- `exit` by the process in slot `cur`, up to the switch; `none` is the panic if that is `initproc`.
-- Files are closed by file.c.
unfoldable pub exit : Kernel → ℕ → Proc → Option Kernel
unfolding wakeup1 reparent any_zombie_child modify
exit k cur curproc =
    let closed =
      modify k.procs cur (λ p. record p { ofile = map (λ _. none) p.ofile; cwd = none }) in
    let woken = wakeup1 (chan_of curproc.parent) closed in
    let handed = map (reparent cur k.initproc) woken in
    let told = if any_zombie_child cur woken then wakeup1 (chan_of k.initproc) handed else handed in
    if chan_eq (chan_of k.initproc) (proc_chan cur)
    then none
    else some (record k { procs = modify told cur (set_state zombie) })

-- The scan of `wait`: the first zombie child, and whether there is any child.
unfoldable pub find_zombie : ℕ → List Proc → Option ℕ
find_zombie cur [] = none
find_zombie cur (p ∷ ps) =
    if is_parent cur p && is_zombie p.state
    then some 0
    else elim (find_zombie cur ps) [ none ↦ none | some i ↦ some (suc i) ]

unfoldable pub has_kids : ℕ → List Proc → Bool
has_kids cur [] = false
has_kids cur (p ∷ ps) = is_parent cur p || has_kids cur ps

-- What one scan of `wait` does: a pid, -1, or to sleep on the process and scan again.
pub data Waited : Type 0 where
  reaped : ℕ → Waited
  failed sleeps : Waited

abbrev pub reap : Proc → Proc
reap p = record p { kstack = 0; pid = 0; parent = none; name = []; killed = false; state = unused }

unfoldable pub wait : Kernel → ℕ → Proc → Waited × Kernel
unfolding find_zombie has_kids sleep modify
wait k cur curproc = elim (find_zombie cur k.procs) [
  | some i ↦ (reaped (pid_at k.procs i), record k { procs = modify k.procs i reap })
  | none ↦
      if not (has_kids cur k.procs) || curproc.killed
      then (failed, k)
      else (sleeps, sleep k cur (proc_chan cur))
]
