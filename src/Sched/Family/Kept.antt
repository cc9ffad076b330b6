-- ===== src/Sched/Family/Kept.antt =====
-- A change that keeps the pid, the parent and the life of every process keeps the families.
use hanlin.Base.{ℕ, ◌≡◌, sym, ◌∙◌, subst, List, [], ◌∷◌, Option, some, get_elem?, inl, inr, arith}
use hanlin.Sched.Table.{Proc, Kernel, running, is_unused}
use hanlin.Sched.Life.{IsOld, Apart, AllApart, IsNumbered}
use hanlin.Sched.Clock.Calm.{All}
use hanlin.Sched.Family.{
  IsAlive, HasFamily, IsSound, Slots, Keeps, same, Slots-before, Slots-after, Slots-weaken,
}

-- A change that keeps the pid, and whether the process is in use.
pub record KeepsPid (p q : Proc) : Type 0 where
  pub pid : q.pid ≡ p.pid
  pub in_use : is_unused q.state ≡ is_unused p.state

All-KeepsPid :
    (P Q : Proc → Type 0) (ps qs : List Proc)
    → ((p q : Proc) → KeepsPid p q → P p → Q q)
    → Slots KeepsPid ps qs
    → All P ps
    → All Q qs
All-KeepsPid P Q [] [] h s all = tt
All-KeepsPid P Q (p ∷ ps) (q ∷ qs) h s all = (h p q s.0 all.0, All-KeepsPid P Q ps qs h s.1 all.1)
All-KeepsPid P Q [] (q ∷ qs) h s all = absurd s
All-KeepsPid P Q (p ∷ ps) [] h s all = absurd s

IsOld-KeepsPid : (n : ℕ) (p q : Proc) → KeepsPid p q → IsOld n p → IsOld n q
IsOld-KeepsPid n p q k old used = omega (arith, k.pid, old (sym k.in_use ∙ used))

Apart-KeepsPid : (p p' q q' : Proc) → KeepsPid p q → KeepsPid p' q' → Apart p p' → Apart q q'
Apart-KeepsPid p p' q q' k k' distinct used used' e =
    distinct (sym k.in_use ∙ used) (sym k'.in_use ∙ used') (sym k.pid ∙ e ∙ k'.pid)

AllApart-KeepsPid : (ps qs : List Proc) → Slots KeepsPid ps qs → AllApart ps → AllApart qs
AllApart-KeepsPid [] [] s distinct = tt
AllApart-KeepsPid (p ∷ ps) (q ∷ qs) s distinct = (
  All-KeepsPid (Apart p) (Apart q) ps qs (λ x y k. Apart-KeepsPid p x q y s.0 k) s.1 distinct.0,
  AllApart-KeepsPid ps qs s.1 distinct.1,
)
AllApart-KeepsPid [] (q ∷ qs) s distinct = absurd s
AllApart-KeepsPid (p ∷ ps) [] s distinct = absurd s

pub IsNumbered-KeepsPid :
    (k k' : Kernel)
    → k'.nextpid ≡ k.nextpid
    → Slots KeepsPid k.procs k'.procs
    → IsNumbered k
    → IsNumbered k'
IsNumbered-KeepsPid k k' e s v = record {
  old =
      All-KeepsPid (IsOld k.nextpid) (IsOld k'.nextpid) k.procs k'.procs
        (λ p q kept old. subst (λ n. IsOld n q) (sym e) (IsOld-KeepsPid k.nextpid p q kept old)) s
        v.old;
  apart = AllApart-KeepsPid k.procs k'.procs s v.apart;
  small = omega (arith, e, v.small);
}

module _ (g : Option ℕ → Option ℕ) where
  pub IsNumbered-Keeps :
      (k k' : Kernel)
      → k'.nextpid ≡ k.nextpid
      → Slots (Keeps g) k.procs k'.procs
      → IsNumbered k
      → IsNumbered k'
  IsNumbered-Keeps k k' e s v =
      IsNumbered-KeepsPid k k' e
        (Slots-weaken (Keeps g) KeepsPid k.procs k'.procs
          (λ p q kept. record { pid = kept.pid; in_use = kept.in_use }) s)
        v

  pub IsAlive-Keeps :
      (ps qs : List Proc) (i : ℕ) → Slots (Keeps g) ps qs → IsAlive ps i → IsAlive qs i
  IsAlive-Keeps ps qs i s alive =
      let (q, at, kept) = Slots-after (Keeps g) ps qs i alive.proc s alive.slot in
      record {
        proc = q;
        slot = at;
        started = kept.started ∙ alive.started;
        going = kept.going ∙ alive.going;
      }

pub HasFamily-Keeps :
    (ps qs : List Proc) (initproc : Option ℕ)
    → Slots (Keeps same) ps qs
    → HasFamily ps initproc
    → HasFamily qs initproc
HasFamily-Keeps ps qs initproc s family i q at started =
    let (p, before, kept) = Slots-before (Keeps same) ps qs i q s at in
    elim (family i p before (sym kept.started ∙ started)) [
      | inl first ↦ inl first
      | inr (j, e, alive) ↦ inr (j, kept.parent ∙ e, IsAlive-Keeps same ps qs j s alive)
    ]

-- What is left to show of a kernel after such a change.
pub IsSound-Keeps :
    (k k' : Kernel)
    → k'.nextpid ≡ k.nextpid
    → k'.initproc ≡ k.initproc
    → Slots (Keeps same) k.procs k'.procs
    → IsSound k
    → ((i : ℕ)
        → k'.current ≡ some i
        → (p : Proc) × (get_elem? k'.procs i ≡ some p) × (p.state ≡ running))
    → ((i : ℕ) (p : Proc) → get_elem? k'.procs i ≡ some p → p.state ≡ running → k'.current ≡ some i)
    → IsSound k'
IsSound-Keeps k k' pids init s v runs alone =
    let (i, e, alive) = v.first in
    record {
      numbered = IsNumbered-Keeps same k k' pids s v.numbered;
      first = (i, init ∙ e, IsAlive-Keeps same k.procs k'.procs i s alive);
      family =
          subst (HasFamily k'.procs) (sym init)
            (HasFamily-Keeps k.procs k'.procs k.initproc s v.family);
      runs = runs;
      alone = alone;
    }

-- A change that keeps besides which process is running.
pub record KeepsRunning (p q : Proc) : Type 0 where
  pub kept : Keeps same p q
  pub starts : p.state ≡ running → q.state ≡ running
  pub ran : q.state ≡ running → p.state ≡ running

pub IsSound-KeepsRunning :
    (k k' : Kernel)
    → k'.nextpid ≡ k.nextpid
    → k'.initproc ≡ k.initproc
    → k'.current ≡ k.current
    → Slots KeepsRunning k.procs k'.procs
    → IsSound k
    → IsSound k'
IsSound-KeepsRunning k k' pids init cpu s v =
    IsSound-Keeps k k' pids init
      (Slots-weaken KeepsRunning (Keeps same) k.procs k'.procs (λ p q both. both.kept) s) v runs
      alone
  where
    runs :
        (i : ℕ)
        → k'.current ≡ some i
        → (p : Proc) × (get_elem? k'.procs i ≡ some p) × (p.state ≡ running)
    runs i e =
        let (p, at, on) = v.runs i (sym cpu ∙ e) in
        let (q, after, both) = Slots-after KeepsRunning k.procs k'.procs i p s at in
        (q, after, both.starts on)

    alone :
        (i : ℕ) (q : Proc) → get_elem? k'.procs i ≡ some q → q.state ≡ running → k'.current ≡ some i
    alone i q at on =
        let (p, before, both) = Slots-before KeepsRunning k.procs k'.procs i q s at in
        cpu ∙ v.alone i p before (both.ran on)
