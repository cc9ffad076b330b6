-- ===== src/Sched/Family/Exit.antt =====
-- `exit`: the process becomes a zombie when its children have been handed on.
use mathlib.Core.Option.{some-injective}
use hanlin.Base.{
  ℕ, ◌≡◌, ◌≢◌, refl, sym, ap, ◌∙◌, subst, true, false, List, Option, none, some, ◌==◌, ◌⊎◌, inl,
  inr, get_elem?, map, arith, Bool-cases, ℕ_discrete,
}
use hanlin.Sched.Table.{
  Proc, Kernel, State, running, runnable, unused, zombie, is_unused, is_started, is_zombie, modify,
  set_state, wake, wakeup1, is_parent, reparent, any_zombie_child, chan_of, chan_eq, proc_chan,
  Chan,
}
use hanlin.Sched.Table
use hanlin.Sched.Life.{IsNumbered}
use hanlin.Sched.Boot.{switched}
use hanlin.Sched.Family.{
  IsAlive, HasFamily, IsSound, Slots, Keeps, Slots-modify, Slots-trans, Slots-weaken, Slots-before,
  get_elem?-modify_other, get_elem?-modify_same,
}
use hanlin.Sched.Family.Kept.{KeepsPid, IsNumbered-KeepsPid, IsAlive-Keeps}
use hanlin.Sched.Family.Children.{handed, Handed, Alike, told-Handed}

-- The process becomes a zombie when its children have been handed on.
module _ (k : Kernel) (cur first : ℕ) (told : List Proc) (v : IsSound k)
    (cpu : k.current ≡ some cur) (init : k.initproc ≡ some first) (other : first ≢ cur)
    (s : Slots (Handed cur k.initproc) k.procs told) where
  told-Keeps : Slots (Keeps (handed cur k.initproc)) k.procs told
  told-Keeps =
      Slots-weaken (Handed cur k.initproc) (Keeps (handed cur k.initproc)) k.procs told
        (λ p q h. h.kept) s

  abbrev gone : List Proc
  gone = modify told cur (set_state zombie)

  stays : (j : ℕ) → j ≢ cur → IsAlive k.procs j → IsAlive gone j
  stays j apart alive =
      let after = IsAlive-Keeps (handed cur k.initproc) k.procs told j told-Keeps alive in
      record {
        proc = after.proc;
        slot =
            get_elem?-modify_other (set_state zombie) told cur j (λ e. apart (sym e)) ∙ after.slot;
        started = after.started;
        going = after.going;
      }

  first-IsAlive : IsAlive k.procs first
  first-IsAlive =
      let (i, e, alive) = v.first in
      subst (IsAlive k.procs) (some-injective _ _ (sym e ∙ init)) alive

  -- The parent of a process after the call.
  abbrev Parent : Option ℕ → Type 0
  Parent parent = (l : ℕ) × (parent ≡ some l) × IsAlive gone l

  handed-child : (l : ℕ) → l ≡ cur → handed cur k.initproc (some l) ≡ some first
  handed-child l e = ground arith

  handed-other : (l : ℕ) → l ≢ cur → handed cur k.initproc (some l) ≡ some l
  handed-other l ne = ground arith

  handed-Parent : (l : ℕ) → IsAlive k.procs l → Parent (handed cur k.initproc (some l))
  handed-Parent l alive = elim (ℕ_discrete l cur) [
    | yes e ↦ (first, handed-child l e, stays first other first-IsAlive)
    | no ne ↦ (l, handed-other l ne, stays l ne alive)
  ]

  told_family :
      (j : ℕ) (q : Proc)
      → get_elem? told j ≡ some q
      → is_started q.state ≡ true
      → (k.initproc ≡ some j) ⊎ Parent q.parent
  told_family j q at started =
      let (p, before, h) = Slots-before (Handed cur k.initproc) k.procs told j q s at in
      elim (v.family j p before (sym h.kept.started ∙ started)) [
        | inl e ↦ inl e
        | inr (l, parent, alive) ↦ inr (
            subst Parent (sym (h.kept.parent ∙ ap (handed cur k.initproc) parent))
              (handed-Parent l alive))
      ]

  -- The slot of the process is in use before.
  cur_used : (q : Proc) → get_elem? told cur ≡ some q → is_unused q.state ≡ false
  cur_used q at =
      let (r, there, on) = v.runs cur cpu in
      let (p, before, h) = Slots-before (Handed cur k.initproc) k.procs told cur q s at in
      let same_proc : p ≡ r = some-injective _ _ (sym before ∙ there) in
      h.kept.in_use ∙ ap (λ (x : Proc). is_unused x.state) same_proc ∙ ap is_unused on

  cur_started : (q : Proc) → get_elem? told cur ≡ some q → is_started q.state ≡ true
  cur_started q at =
      let (r, there, on) = v.runs cur cpu in
      let (p, before, h) = Slots-before (Handed cur k.initproc) k.procs told cur q s at in
      let same_proc : p ≡ r = some-injective _ _ (sym before ∙ there) in
      h.kept.started ∙ ap (λ (x : Proc). is_started x.state) same_proc ∙ ap is_started on

  gone-HasFamily : HasFamily gone k.initproc
  gone-HasFamily j q at started = elim (ℕ_discrete cur j) [
    | yes here ↦
        let (p, before, e) =
          get_elem?-modify_same (set_state zombie) told cur q (rw (sym here) at at) in
        let same_parent : p.parent ≡ q.parent = ap (λ (x : Proc). x.parent) e in
        elim (told_family cur p before (cur_started p before)) [
          | inl h ↦ inl (h ∙ ap (λ x. some x) here)
          | inr h ↦ inr (subst Parent same_parent h)
        ]
    | no ne ↦
        told_family j q (sym (get_elem?-modify_other (set_state zombie) told cur j ne) ∙ at) started
  ]

  gone-IsNumbered : IsNumbered (record k { procs = gone; current = none })
  gone-IsNumbered =
      IsNumbered-KeepsPid k (record k { procs = gone; current = none }) refl
        (Slots-trans (Handed cur k.initproc) KeepsPid KeepsPid k.procs told gone
          (λ p q r h kept. record {
            pid = kept.pid ∙ h.kept.pid;
            in_use = kept.in_use ∙ h.kept.in_use;
          })
          s
          (Slots-modify KeepsPid (set_state zombie) told cur
            (λ p at. record { pid = refl; in_use = sym (cur_used p at) })
            (λ p. record { pid = refl; in_use = refl })))
        v.numbered

  gone-IsSound : IsSound (record k { procs = gone; current = none })
  gone-IsSound = record {
    numbered = gone-IsNumbered;
    first = (first, init, stays first other first-IsAlive);
    family = gone-HasFamily;
    runs = λ j e. absurd (none_ne j e);
    alone = alone;
  }
    where
      zombie_ne : zombie ≡ running → ⊥
      zombie_ne h = cc

      none_ne : (j : ℕ) → none ≡ some j → ⊥
      none_ne j h = cc

      alone : (j : ℕ) (q : Proc) → get_elem? gone j ≡ some q → q.state ≡ running → none ≡ some j
      alone j q at on = elim (ℕ_discrete cur j) [
        | yes here ↦
            let (p, before, e) =
              get_elem?-modify_same (set_state zombie) told cur q (rw (sym here) at at) in
            absurd (zombie_ne (ap (λ (x : Proc). x.state) e ∙ on))
        | no ne ↦
            let before = sym (get_elem?-modify_other (set_state zombie) told cur j ne) ∙ at in
            let (p, there, h) = Slots-before (Handed cur k.initproc) k.procs told j q s before in
            absurd (ne (some-injective _ _ (sym cpu ∙ v.alone j p there (h.ran on))))
      ]

not_first :
    (initproc : Option ℕ) (first i : ℕ)
    → initproc ≡ some first
    → chan_eq (chan_of initproc) (proc_chan i) ≡ false
    → first ≢ i
not_first initproc first i init goes e = differ first i e (rw init at goes)
  where
    differ : (a b : ℕ) → a ≡ b → (a == b) ≡ false → ⊥
    differ a b e h = ground arith

pub exit-IsSound :
    (k k' : Kernel) (i : ℕ) (p : Proc)
    → IsSound k
    → k.current ≡ some i
    → Table.exit k i p ≡ some k'
    → IsSound (switched k')
unfolding Table.exit
exit-IsSound k k' i p v cpu done = elim (Bool-cases (chan_eq (chan_of k.initproc) (proc_chan i))) [
  | inl panics ↦ absurd (none_ne (rw (Table.exit, panics) at done))
  | inr goes ↦
      let (first, init, alive) = v.first in
      let e = some-injective _ _ (rw (Table.exit, goes) at done) in
      subst (λ x. IsSound (switched x)) e
        (gone-IsSound k i first _ v cpu init (not_first k.initproc first i init goes)
          (told-Handed i k.initproc p.parent k.procs _ closes))
]
  where
    none_ne : none ≡ some k' → ⊥
    none_ne h = cc

    closes :
        (q : Proc) → Alike q (record q { ofile = map (λ (x : Option ℕ). none) q.ofile; cwd = none })
    closes q = record {
      kept = record { pid = refl; in_use = refl; started = refl; going = refl; parent = refl };
      ran = λ h. h;
    }
