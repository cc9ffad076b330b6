-- ===== src/Sched/Clock/Calm.antt =====
-- Ticks keep the priority values of the processes low enough for `scheduler`.
use hanlin.Base.{
  ℕ, zero, suc, ◌+◌, ◌%◌, ◌^◌, ◌≤◌, ◌<◌, ◌≡◌, refl, false, List, [], ◌∷◌, Option, none, some, ltb,
  ◌==◌, if◌then◌else◌, map, ℤ, pos, negsuc, arith, Bool-cases, inl, inr,
}
use hanlin.Sched.Table.{Proc, Kernel, is_unused, ticks_chan, modify, wakeup2, tick_sleep}
use hanlin.Sched.Clock.{nice, decay, priorityupdate, charge, cpuupdate, timer}

-- A process whose cpu count is at most `c`, in a slot that is in use.
abbrev pub IsCalm : ℕ → Proc → Type 0
IsCalm c p = is_unused p.state ≡ false → (p.cpu ≤ c) × (p.nice ≤ 20) × (p.priority ≤ 70)

abbrev pub All : (Proc → Type 0) → List Proc → Type 0
All P [] = Unit
All P (p ∷ ps) = P p × All P ps

pub All-map :
    (P Q : Proc → Type 0) (f : Proc → Proc) (ps : List Proc)
    → ((p : Proc) → P p → Q (f p))
    → All P ps
    → All Q (map f ps)
All-map P Q f [] h v = tt
All-map P Q f (p ∷ ps) h v = (h p v.0, All-map P Q f ps h v.1)

pub All-weaken :
    (P Q : Proc → Type 0) (ps : List Proc) → ((p : Proc) → P p → Q p) → All P ps → All Q ps
All-weaken P Q [] w v = tt
All-weaken P Q (p ∷ ps) w v = (w p v.0, All-weaken P Q ps w v.1)

pub All-modify :
    (P Q : Proc → Type 0) (f : Proc → Proc) (ps : List Proc) (i : ℕ)
    → ((p : Proc) → P p → Q (f p))
    → ((p : Proc) → P p → Q p)
    → All P ps
    → All Q (modify ps i f)
unfolding modify
All-modify P Q f [] i h w v = tt
All-modify P Q f (p ∷ ps) zero h w v = (h p v.0, All-weaken P Q ps w v.1)
All-modify P Q f (p ∷ ps) (suc i) h w v = (w p v.0, All-modify P Q f ps i h w v.1)

-- The cpu counts have grown by at most one since the last update, for each tick since then.
pub record IsCalmAt (k : Kernel) : Type 0 where
  pub calm : All (IsCalm (100 + k.ticks % 100)) k.procs

tick_sleep-IsCalm : (c : ℕ) (p : Proc) → IsCalm c p → IsCalm c (tick_sleep ticks_chan p)
tick_sleep-IsCalm c p v = ground arith

charge-IsCalm : (c : ℕ) (p : Proc) → IsCalm c p → IsCalm (c + 1) (charge p)
unfolding charge
charge-IsCalm c p v = ground arith

decay-IsCalm : (p : Proc) → IsCalm 200 p → IsCalm 100 (decay p)
unfolding decay
decay-IsCalm p v = ground arith

cpuupdate-IsCalm :
    (k : Kernel) (cur : Option ℕ) (c : ℕ)
    → k.current ≡ cur
    → All (IsCalm c) k.procs
    → All (IsCalm (c + 1)) (cpuupdate k).procs × ((cpuupdate k).ticks ≡ k.ticks)
unfolding cpuupdate
cpuupdate-IsCalm k none c e v =
    rw (e, cpuupdate) (All-weaken _ _ k.procs (λ p h u. omega (arith, h u)) v, refl)
cpuupdate-IsCalm k (some i) c e v =
    rw (e, cpuupdate)
      (All-modify _ _ charge k.procs i (charge-IsCalm c) (λ p h u. omega (arith, h u)) v, refl)

settle :
    (t : ℕ) (k : Kernel)
    → k.ticks ≡ (t + 1) % 2 ^ 32
    → t < 2 ^ 32
    → All (IsCalm (100 + t % 100 + 1)) k.procs
    → IsCalmAt (if k.ticks % 100 == 0 then priorityupdate k else k)
unfolding priorityupdate
settle t k e small v = elim (Bool-cases (k.ticks % 100 == 0)) [
  | inl full ↦
      let start : 100 + k.ticks % 100 ≡ 100 = ground arith in
      let grown : All (IsCalm 200) k.procs =
        All-weaken _ _ k.procs (λ p h u. omega (arith, h u)) v in
      rw full (record { calm = rw start (All-map _ _ decay k.procs decay-IsCalm grown) })
  | inr part ↦
      let more : 100 + t % 100 + 1 ≤ 100 + k.ticks % 100 = ground arith in
      rw part (record { calm = All-weaken _ _ k.procs (λ p h u. omega (arith, h u)) v })
]

-- A clock tick keeps the table calm: the cpu count of a process in use is at most 100 more than the
-- ticks since the last update, its priority value at most 70 and its nice value at most 20; and so
-- `scheduler`, which looks below 200, overlooks no runnable process.
pub timer-IsCalmAt : (k : Kernel) → k.ticks < 2 ^ 32 → IsCalmAt k → IsCalmAt (timer k)
unfolding timer wakeup2
timer-IsCalmAt k small v =
    let ticked = record k { ticks = (k.ticks + 1) % 2 ^ 32 } in
    let slept = wakeup2 ticks_chan ticked in
    let calm : All (IsCalm (100 + k.ticks % 100)) slept.procs =
      All-map _ _ (tick_sleep ticks_chan) k.procs (tick_sleep-IsCalm (100 + k.ticks % 100))
        v.calm in
    let charged = cpuupdate-IsCalm slept slept.current (100 + k.ticks % 100) refl calm in
    settle k.ticks (cpuupdate slept) charged.1 small charged.0

-- `nice` keeps the table calm, whatever its argument: it sets no value above 20.
pub nice-IsCalmAt :
    (k : Kernel) (cur : ℕ) (curproc : Proc) (n : ℤ) → IsCalmAt k → IsCalmAt (nice k cur curproc n).1
unfolding nice
nice-IsCalmAt k cur curproc (negsuc n) v = v
nice-IsCalmAt k cur curproc (pos n) v = elim (Bool-cases (ltb 20 n)) [
  | inl high ↦ rw high v
  | inr fine ↦ rw fine (record {
    calm =
        All-modify _ _ (λ (p : Proc). record p { nice = n }) k.procs cur
          (λ p h u. ground (arith, h u)) (λ p h. h) v.calm;
  })
]
