-- ===== src/Sched/Family/Steady.antt =====
-- The calls and events that leave every process where it is.
use hanlin.Base.{
  ℕ, ◌+◌, ◌%◌, ◌^◌, ◌≡◌, refl, sym, ap, ◌∙◌, Bool, true, false, List, [], ◌∷◌, Option, none, some,
  ◌==◌, if◌then◌else◌, ℤ, pos, negsuc, ltb, arith, Bool-cases, inl, inr, Option-cases,
}
use hanlin.Sched.Table.{
  Proc, Kernel, runnable, Chan, no_chan, ticks_chan, is_unused, is_started, is_zombie, is_sleeping,
  modify, wake, wakeup1, wakeup, tick_sleep, wakeup2, tidy_up, kill_first, kill,
}
use hanlin.Sched.Clock.{nice, decay, priorityupdate, charge, cpuupdate, timer}
use hanlin.Sched.Family.{IsSound, Slots, Slots-map, Slots-modify, Slots-refl}
use hanlin.Sched.Family.Kept.{KeepsRunning, IsSound-KeepsRunning}

unchanged :
    (p q : Proc) → q.pid ≡ p.pid → q.state ≡ p.state → q.parent ≡ p.parent → KeepsRunning p q
unchanged p q pid state parent = record {
  kept = record {
    pid = pid;
    in_use = ap is_unused state;
    started = ap is_started state;
    going = ap is_zombie state;
    parent = parent;
  };
  starts = λ h. state ∙ h;
  ran = λ h. sym state ∙ h;
}

KeepsRunning-refl : (p : Proc) → KeepsRunning p p
KeepsRunning-refl p = unchanged p p refl refl refl

pub wake-KeepsRunning : (chan : Chan) (p : Proc) → KeepsRunning p (wake chan p)
wake-KeepsRunning chan p = ground arith

tick_sleep-KeepsRunning : (p : Proc) → KeepsRunning p (tick_sleep ticks_chan p)
tick_sleep-KeepsRunning p = ground arith

decay-KeepsRunning : (p : Proc) → KeepsRunning p (decay p)
unfolding decay
decay-KeepsRunning p = ground arith

charge-KeepsRunning : (p : Proc) → KeepsRunning p (charge p)
unfolding charge
charge-KeepsRunning p = ground arith

pub wakeup-IsSound : (chan : Chan) (k : Kernel) → IsSound k → IsSound (wakeup chan k)
unfolding wakeup wakeup1
wakeup-IsSound chan k v =
    IsSound-KeepsRunning k (wakeup chan k) refl refl refl
      (Slots-map KeepsRunning (wake chan) k.procs (wake-KeepsRunning chan)) v

pub wakeup2-IsSound : (k : Kernel) → IsSound k → IsSound (wakeup2 ticks_chan k)
unfolding wakeup2
wakeup2-IsSound k v =
    IsSound-KeepsRunning k (wakeup2 ticks_chan k) refl refl refl
      (Slots-map KeepsRunning (tick_sleep ticks_chan) k.procs tick_sleep-KeepsRunning) v

priorityupdate-IsSound : (k : Kernel) → IsSound k → IsSound (priorityupdate k)
unfolding priorityupdate
priorityupdate-IsSound k v =
    IsSound-KeepsRunning k (priorityupdate k) refl refl refl
      (Slots-map KeepsRunning decay k.procs decay-KeepsRunning) v

-- One slot changes.
modify-IsSound :
    (k : Kernel) (i : ℕ) (f : Proc → Proc)
    → ((p : Proc) → KeepsRunning p (f p))
    → IsSound k
    → IsSound (record k { procs = modify k.procs i f })
modify-IsSound k i f h v =
    IsSound-KeepsRunning k (record k { procs = modify k.procs i f }) refl refl refl
      (Slots-modify KeepsRunning f k.procs i (λ p at. h p) KeepsRunning-refl) v

cpuupdate-IsSound :
    (k : Kernel) (cur : Option ℕ) → k.current ≡ cur → IsSound k → IsSound (cpuupdate k)
unfolding cpuupdate
cpuupdate-IsSound k none e v = rw (cpuupdate, e) v
cpuupdate-IsSound k (some i) e v =
    rw (cpuupdate, e) (modify-IsSound k i charge charge-KeepsRunning v)

counted-IsSound : (k : Kernel) (t : ℕ) → IsSound k → IsSound (record k { ticks = t })
counted-IsSound k t v =
    IsSound-KeepsRunning k (record k { ticks = t }) refl refl refl
      (Slots-refl KeepsRunning k.procs KeepsRunning-refl) v

pub timer-IsSound : (k : Kernel) → IsSound k → IsSound (timer k)
unfolding timer
timer-IsSound k v = settle ((charged.ticks % 100) == 0) charged (
    cpuupdate-IsSound (wakeup2 ticks_chan ticked) (wakeup2 ticks_chan ticked).current refl
      (wakeup2-IsSound ticked (counted-IsSound k ((k.ticks + 1) % 2 ^ 32) v)))
  where
    ticked : Kernel
    ticked = record k { ticks = (k.ticks + 1) % 2 ^ 32 }

    charged : Kernel
    charged = cpuupdate (wakeup2 ticks_chan ticked)

    settle : (test : Bool) (c : Kernel) → IsSound c → IsSound (if test then priorityupdate c else c)
    settle true c s = priorityupdate-IsSound c s
    settle false c s = s

pub nice-IsSound : (k : Kernel) (i : ℕ) (p : Proc) (n : ℤ) → IsSound k → IsSound (nice k i p n).1
unfolding nice
nice-IsSound k i p (negsuc n) v = v
nice-IsSound k i p (pos n) v = elim (Bool-cases (ltb 20 n)) [
  | inl large ↦ rw large v
  | inr fine ↦ rw fine (
      modify-IsSound k i (λ q. record q { nice = n })
        (λ q. unchanged q (record q { nice = n }) refl refl refl) v)
]

pub tidy_up-IsSound : (k : Kernel) (i : ℕ) → IsSound k → IsSound (tidy_up k i)
unfolding tidy_up
tidy_up-IsSound k i v =
    modify-IsSound k i (λ q. record q { chan = no_chan })
      (λ q. unchanged q (record q { chan = no_chan }) refl refl refl) v

abbrev Killed : List Proc → Option (List Proc) → Type 0
Killed ps none = Unit
Killed ps (some qs) = Slots KeepsRunning ps qs

killed-KeepsRunning :
    (p : Proc)
    → KeepsRunning p
        (record p { killed = true; state = if is_sleeping p.state then runnable else p.state })
killed-KeepsRunning p = ground arith

Killed-cons :
    (p : Proc) (ps : List Proc) (o : Option (List Proc))
    → Killed ps o
    → Killed (p ∷ ps) (elim o [ none ↦ none | some qs ↦ some (p ∷ qs) ])
Killed-cons p ps none h = tt
Killed-cons p ps (some qs) h = (KeepsRunning-refl p, h)

kill_first-Killed : (ps : List Proc) (pid : ℕ) → Killed ps (kill_first ps pid)
unfolding kill_first
kill_first-Killed [] pid = tt
kill_first-Killed (p ∷ ps) pid = elim (Bool-cases (p.pid == pid)) [
  | inl here ↦
      rw (kill_first, here) (killed-KeepsRunning p, Slots-refl KeepsRunning ps KeepsRunning-refl)
  | inr other ↦
      rw (kill_first, other) (Killed-cons p ps (kill_first ps pid) (kill_first-Killed ps pid))
]

pub kill-IsSound : (k : Kernel) (pid : ℕ) → IsSound k → IsSound (kill k pid).1
unfolding kill
kill-IsSound k pid v = elim (Option-cases (kill_first k.procs pid)) [
  | inl e ↦ rw (kill, e) v
  | inr (procs, e) ↦
      rw (kill, e)
        (IsSound-KeepsRunning k (record k { procs = procs }) refl refl refl
          (rw e at (kill_first-Killed k.procs pid)) v)
]
