-- ===== src/Sched/Family/Children.antt =====
-- `exit` up to the zombie: the children of the process go to `initproc`.
use hanlin.Base.{
  ℕ, ◌≡◌, refl, sym, ap, ◌∙◌, Bool, true, false, List, Option, none, some, ◌==◌, inl, inr,
  if◌then◌else◌, map, Bool-cases,
}
use hanlin.Sched.Table.{
  Proc, running, modify, wake, wakeup1, is_parent, reparent, any_zombie_child, chan_of, Chan,
}
use hanlin.Sched.Family.{Slots, Keeps, same, Slots-map, Slots-modify, Slots-trans}
use hanlin.Sched.Family.Steady.{wake-KeepsRunning}

-- The parent of a process after `exit` of slot `cur`.
abbrev pub handed : ℕ → Option ℕ → Option ℕ → Option ℕ
handed cur initproc none = none
handed cur initproc (some i) = if i == cur then initproc else some i

-- A process before and after the loop over the children, and whether it runs.
pub record Handed (cur : ℕ) (initproc : Option ℕ) (p q : Proc) : Type 0 where
  pub kept : Keeps (handed cur initproc) p q
  pub ran : q.state ≡ running → p.state ≡ running

pub record Alike (p q : Proc) : Type 0 where
  pub kept : Keeps same p q
  pub ran : q.state ≡ running → p.state ≡ running

Alike-wakeup1 : (chan : Chan) (ps : List Proc) → Slots Alike ps (wakeup1 chan ps)
unfolding wakeup1
Alike-wakeup1 chan ps =
    Slots-map Alike (wake chan) ps
      (λ p. let w = wake-KeepsRunning chan p in record { kept = w.kept; ran = w.ran })

Alike-refl : (p : Proc) → Alike p p
Alike-refl p = record {
  kept = record { pid = refl; in_use = refl; started = refl; going = refl; parent = refl };
  ran = λ h. h;
}

parent_handed :
    (cur : ℕ) (initproc parent : Option ℕ)
    → (elim parent [ none ↦ false | some i ↦ i == cur ]) ≡ true
    → handed cur initproc parent ≡ initproc
parent_handed cur initproc none h = absurd cc
parent_handed cur initproc (some i) h = rw h refl

other_handed :
    (cur : ℕ) (initproc parent : Option ℕ)
    → (elim parent [ none ↦ false | some i ↦ i == cur ]) ≡ false
    → handed cur initproc parent ≡ parent
other_handed cur initproc none h = refl
other_handed cur initproc (some i) h = rw h refl

reparent-Handed :
    (cur : ℕ) (initproc : Option ℕ) (p : Proc) → Handed cur initproc p (reparent cur initproc p)
unfolding reparent
reparent-Handed cur initproc p = elim (Bool-cases (is_parent cur p)) [
  | inl child ↦
      rw (reparent, child)
        (record {
          kept = record {
            pid = refl;
            in_use = refl;
            started = refl;
            going = refl;
            parent = sym (parent_handed cur initproc p.parent child);
          };
          ran = λ h. h;
        })
  | inr other ↦
      rw (reparent, other)
        (record {
          kept = record {
            pid = refl;
            in_use = refl;
            started = refl;
            going = refl;
            parent = sym (other_handed cur initproc p.parent other);
          };
          ran = λ h. h;
        })
]

Alike-Handed :
    (cur : ℕ) (initproc : Option ℕ) (p q r : Proc)
    → Alike p q
    → Handed cur initproc q r
    → Handed cur initproc p r
Alike-Handed cur initproc p q r a h = record {
  kept = record {
    pid = h.kept.pid ∙ a.kept.pid;
    in_use = h.kept.in_use ∙ a.kept.in_use;
    started = h.kept.started ∙ a.kept.started;
    going = h.kept.going ∙ a.kept.going;
    parent = h.kept.parent ∙ ap (handed cur initproc) a.kept.parent;
  };
  ran = λ on. a.ran (h.ran on);
}

Handed-Alike :
    (cur : ℕ) (initproc : Option ℕ) (p q r : Proc)
    → Handed cur initproc p q
    → Alike q r
    → Handed cur initproc p r
Handed-Alike cur initproc p q r h a = record {
  kept = record {
    pid = a.kept.pid ∙ h.kept.pid;
    in_use = a.kept.in_use ∙ h.kept.in_use;
    started = a.kept.started ∙ h.kept.started;
    going = a.kept.going ∙ h.kept.going;
    parent = a.kept.parent ∙ h.kept.parent;
  };
  ran = λ on. h.ran (a.ran on);
}

-- The table of `exit` before the process becomes a zombie.
pub told-Handed :
    (cur : ℕ) (initproc parent : Option ℕ) (ps : List Proc) (f : Proc → Proc)
    → ((p : Proc) → Alike p (f p))
    → let woken = wakeup1 (chan_of parent) (modify ps cur f) in
      let handed = map (reparent cur initproc) woken in
      Slots
        (Handed cur initproc)
        ps
        (if any_zombie_child cur woken then wakeup1 (chan_of initproc) handed else handed)
told-Handed cur initproc parent ps f h = tell (any_zombie_child cur woken)
  where
    woken : List Proc
    woken = wakeup1 (chan_of parent) (modify ps cur f)

    children : List Proc
    children = map (reparent cur initproc) woken

    before : Slots (Handed cur initproc) ps children
    before =
        Slots-trans Alike (Handed cur initproc) (Handed cur initproc) ps (modify ps cur f) children
          (Alike-Handed cur initproc) (Slots-modify Alike f ps cur (λ p at. h p) Alike-refl)
          (Slots-trans Alike (Handed cur initproc) (Handed cur initproc) (modify ps cur f) woken
            children (Alike-Handed cur initproc) (Alike-wakeup1 (chan_of parent) (modify ps cur f))
            (Slots-map (Handed cur initproc) (reparent cur initproc) woken
              (reparent-Handed cur initproc)))

    tell :
        (b : Bool)
        → Slots
            (Handed cur initproc)
            ps
            (if b then wakeup1 (chan_of initproc) children else children)
    tell true =
        Slots-trans (Handed cur initproc) Alike (Handed cur initproc) ps children
          (wakeup1 (chan_of initproc) children) (Handed-Alike cur initproc) before
          (Alike-wakeup1 (chan_of initproc) children)
    tell false = before
