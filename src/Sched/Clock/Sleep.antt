-- ===== src/Sched/Clock/Sleep.antt =====
-- sysproc.c: `sys_sleep`, and how many ticks a sleeping process stays asleep.
use hanlin.Base.{
  ℕ, zero, suc, ◌+◌, ◌-◌, ◌%◌, ◌^◌, ◌≤◌, ◌≡◌, refl, false, ltb, if◌then◌else◌, ℤ, pos, negsuc,
  ltb_ℤ, arith,
}
use hanlin.Sched.Table.{Proc, Kernel, sleeping, runnable, ticks_chan, tick_sleep, sleep, modify}

-- One round of the loop of `sys_sleep`: the difference of two `uint`s is compared with the `int` as
-- a `uint`.
pub data Slept : Type 0 where
  returned : ℤ → Slept
  sleeps : Slept

abbrev pub as_uint : ℤ → ℕ
as_uint (pos n) = n % 2 ^ 32
as_uint (negsuc n) = 2 ^ 32 - suc n

pub sleep_round : Kernel → ℕ → Proc → ℕ → ℤ → Slept × Kernel
sleep_round k cur curproc ticks0 n =
    if ltb ((k.ticks + 2 ^ 32 - ticks0) % 2 ^ 32) (as_uint n)
    then (if curproc.killed then (returned (negsuc 0), k) else (sleeps, sleep k cur ticks_chan))
    else (returned (pos 0), k)

-- The first round of `sys_sleep`, with `stillsleep` set to the argument.
pub sys_sleep : Kernel → ℕ → Proc → ℤ → Slept × Kernel
unfolding sleep_round
sys_sleep k cur curproc n =
    sleep_round (record k { procs = modify k.procs cur (λ p. record p { stillsleep = n }) }) cur
      curproc k.ticks n

-- What `k` ticks make of a process.
pub ticked : ℕ → Proc → Proc
ticked zero p = p
ticked (suc k) p = tick_sleep ticks_chan (ticked k p)

-- A process that sleeps on the clock with `n` ticks to go, at least one, sleeps through fewer than
-- `n` ticks, one less to go after each, and the `n`-th makes it runnable; nothing else changes.
pub ticked-sleeping :
    (n : ℕ) (p : Proc)
    → p.state ≡ sleeping
    → p.chan ≡ ticks_chan
    → p.stillsleep ≡ pos (suc n)
    → ((k : ℕ) → k ≤ n → ticked k p ≡ record p { stillsleep = pos (suc n - k) })
      × (ticked (suc n) p ≡ record p { stillsleep = pos 0; state = runnable })
unfolding ticked
ticked-sleeping n p s c t = (still, rw (still n (omega arith), left) last)
  where
    step :
        (m : ℕ)
        → tick_sleep ticks_chan (record p { stillsleep = pos (suc (suc m)) })
          ≡ record p { stillsleep = pos (suc m) }
    step m = ground arith

    left : suc n - n ≡ 1
    left = omega arith

    last :
        tick_sleep ticks_chan (record p { stillsleep = pos 1 })
        ≡ record p { stillsleep = pos 0; state = runnable }
    last = ground arith

    still : (k : ℕ) → k ≤ n → ticked k p ≡ record p { stillsleep = pos (suc n - k) }
    still zero h = ground arith
    still (suc k) h =
        let two : suc n - k ≡ suc (suc (n - suc k)) = omega arith in
        let one : suc n - suc k ≡ suc (n - suc k) = omega arith in
        rw (still k (omega arith), two, one) (step (n - suc k))

-- A process whose count is not positive is not woken by the clock, however often it ticks: so a
-- negative argument of `sys_sleep` sleeps until the process is killed.
pub ticked-stuck : (k : ℕ) (p : Proc) → ltb_ℤ (pos 0) p.stillsleep ≡ false → ticked k p ≡ p
unfolding ticked
ticked-stuck zero p h = refl
ticked-stuck (suc k) p h = rw (ticked-stuck k p h) (ground arith)
