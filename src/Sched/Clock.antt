-- ===== src/Sched/Clock.antt =====
-- proc.c, trap.c and sysproc.c: what a clock tick does to the table, and the calls `nice` and
-- `getschedstate`.
pub mod Calm
pub mod Sleep
use hanlin.Base.{
  ℕ, zero, suc, ◌+◌, ◌-◌, ◌*◌, ◌/◌, ◌%◌, ◌^◌, ◌≤◌, ◌≡◌, refl, Bool, true, false, ◌&&◌, ◌||◌, List,
  [], ◌∷◌, Option, none, some, ltb, ◌==◌, if◌then◌else◌, map, get_elem?, ℤ, pos, negsuc, ltb_ℤ,
  arith,
}
use hanlin.Sched.Table.{
  Proc, Kernel, State, unused, is_unused, Chan, ticks_chan, modify, wakeup2, tick_sleep,
}

-- `nice` by the process in slot `cur`; the value that was set before, or -1.
unfoldable pub nice : Kernel → ℕ → Proc → ℤ → ℤ × Kernel
nice k cur curproc (negsuc n) = (negsuc 0, k)
nice k cur curproc (pos n) =
    if ltb 20 n
    then (negsuc 0, k)
    else (pos curproc.nice, record k { procs = modify k.procs cur (λ p. record p { nice = n }) })

-- The loop body of `priorityupdate`.
unfoldable pub decay : Proc → Proc
decay p =
    if is_unused p.state then p else record p { cpu = p.cpu / 2; priority = p.cpu / 2 / 2 + p.nice }

unfoldable pub priorityupdate : Kernel → Kernel
unfolding decay
priorityupdate k = record k { procs = map decay k.procs }

-- `cpuupdate`: the process on the CPU, if there is one.
unfoldable pub charge : Proc → Proc
charge p = record p { ticks = p.ticks + 1; cpu = p.cpu + 1 }

unfoldable pub cpuupdate : Kernel → Kernel
unfolding modify charge
cpuupdate k = elim (k.current) [
  | none ↦ k
  | some cur ↦ record k { procs = modify k.procs cur charge }
]

-- The timer interrupt on CPU 0; `ticks` is a `uint`. The scheduler's part follows as `yield`.
unfoldable pub timer : Kernel → Kernel
unfolding wakeup2 cpuupdate priorityupdate
timer k =
    let ticked = record k { ticks = (k.ticks + 1) % 2 ^ 32 } in
    let charged = cpuupdate (wakeup2 ticks_chan ticked) in
    if charged.ticks % 100 == 0 then priorityupdate charged else charged

-- One slot of `struct pschedinfo`; the fields of an unused slot are left as the caller had them.
pub record SchedInfo : Type 0 where
  pub inuse : ℕ
  pub priority : ℕ
  pub nice : ℕ
  pub pid : ℕ
  pub ticks : ℕ

unfoldable pub getschedstate : List Proc → List SchedInfo → List SchedInfo
getschedstate [] infos = infos
getschedstate (p ∷ ps) [] = []
getschedstate (p ∷ ps) (info ∷ infos) =
    let filled = if is_unused p.state then record info { inuse = 0 } else record {
      inuse = 1;
      priority = p.priority;
      nice = p.nice;
      pid = p.pid;
      ticks = p.ticks;
    } in
    filled ∷ getschedstate ps infos
