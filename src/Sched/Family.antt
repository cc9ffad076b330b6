-- ===== src/Sched/Family.antt =====
-- proc.c: the pids, the parents and the process on the CPU fit together.
pub mod Kept
pub mod Steady
pub mod Leave
pub mod Dispatch
pub mod Reuse
pub mod ForkWait
pub mod Children
pub mod Exit
pub mod Reached
pub mod Forking
use hanlin.Base.{
  ℕ, zero, suc, ◌+◌, ◌<◌, ◌≡◌, ◌≢◌, refl, sym, ap, ◌∙◌, subst, Bool, true, false, List, [], ◌∷◌,
  Option, none, some, ◌==◌, if◌then◌else◌, get_elem?, map, ◌⊎◌, inl, inr, arith, Bool-cases,
  ℕ_discrete,
}
use hanlin.Sched.Table.{Proc, Kernel, State, running, is_unused, is_started, is_zombie, modify}
use hanlin.Sched.Life.{IsOld, Apart, AllApart, IsNumbered}
use hanlin.Sched.Clock.Calm.{All}

-- The process in the slot runs or has run, and has not exited.
pub record IsAlive (procs : List Proc) (i : ℕ) : Type 0 where
  pub proc : Proc
  pub slot : get_elem? procs i ≡ some proc
  pub started : is_started proc.state ≡ true
  pub going : is_zombie proc.state ≡ false

-- A process that runs or has run is `initproc`, or has a parent that is alive.
abbrev pub HasFamily : List Proc → Option ℕ → Type 0
HasFamily procs initproc =
    (i : ℕ) (p : Proc)
    → get_elem? procs i ≡ some p
    → is_started p.state ≡ true
    → (initproc ≡ some i) ⊎ ((j : ℕ) × (p.parent ≡ some j) × IsAlive procs j)

-- The pids in use are distinct and below the counter, which an `int` holds; `initproc` is alive; every other process that
-- runs or has run has a parent that is alive; and the process on the CPU is the one that is running.
pub record IsSound (k : Kernel) : Type 0 where
  pub numbered : IsNumbered k
  pub first : (i : ℕ) × (k.initproc ≡ some i) × IsAlive k.procs i
  pub family : HasFamily k.procs k.initproc
  pub runs :
      (i : ℕ)
      → k.current ≡ some i
      → (p : Proc) × (get_elem? k.procs i ≡ some p) × (p.state ≡ running)
  pub alone :
      (i : ℕ) (p : Proc) → get_elem? k.procs i ≡ some p → p.state ≡ running → k.current ≡ some i

-- The relation holds slot by slot.
abbrev pub Slots : (Proc → Proc → Type 0) → List Proc → List Proc → Type 0
Slots R [] [] = Unit
Slots R (p ∷ ps) (q ∷ qs) = R p q × Slots R ps qs
Slots R [] (q ∷ qs) = ⊥
Slots R (p ∷ ps) [] = ⊥

-- A change of a process that keeps its pid, whether it is in use, whether it has been started, and
-- whether it has exited; the parent becomes `g` of it.
pub record Keeps (g : Option ℕ → Option ℕ) (p q : Proc) : Type 0 where
  pub pid : q.pid ≡ p.pid
  pub in_use : is_unused q.state ≡ is_unused p.state
  pub started : is_started q.state ≡ is_started p.state
  pub going : is_zombie q.state ≡ is_zombie p.state
  pub parent : q.parent ≡ g p.parent

abbrev pub same : Option ℕ → Option ℕ
same parent = parent

module _ (R : Proc → Proc → Type 0) where
  pub Slots-map :
      (f : Proc → Proc) (ps : List Proc) → ((p : Proc) → R p (f p)) → Slots R ps (map f ps)
  Slots-map f [] h = tt
  Slots-map f (p ∷ ps) h = (h p, Slots-map f ps h)

  pub Slots-refl : (ps : List Proc) → ((p : Proc) → R p p) → Slots R ps ps
  Slots-refl [] h = tt
  Slots-refl (p ∷ ps) h = (h p, Slots-refl ps h)

  pub Slots-modify :
      (f : Proc → Proc) (ps : List Proc) (i : ℕ)
      → ((p : Proc) → get_elem? ps i ≡ some p → R p (f p))
      → ((p : Proc) → R p p)
      → Slots R ps (modify ps i f)
  unfolding modify
  Slots-modify f [] i h r = tt
  Slots-modify f (p ∷ ps) zero h r = (h p refl, Slots-refl ps r)
  Slots-modify f (p ∷ ps) (suc i) h r = (r p, Slots-modify f ps i h r)

  -- The process that a slot had before,
  pub Slots-before :
      (ps qs : List Proc) (i : ℕ) (q : Proc)
      → Slots R ps qs
      → get_elem? qs i ≡ some q
      → (p : Proc) × (get_elem? ps i ≡ some p) × R p q
  Slots-before [] [] i q s h = absurd (none_ne h)
    where
      none_ne : none ≡ some q → ⊥
      none_ne h = cc
  Slots-before [] (r ∷ qs) i q s h = absurd s
  Slots-before (p ∷ ps) [] i q s h = absurd s
  Slots-before (p ∷ ps) (r ∷ qs) zero q s h = let e : r ≡ q = cc in (p, refl, subst (R p) e s.0)
  Slots-before (p ∷ ps) (r ∷ qs) (suc i) q s h = Slots-before ps qs i q s.1 h

  -- and the one that it has afterwards.
  pub Slots-after :
      (ps qs : List Proc) (i : ℕ) (p : Proc)
      → Slots R ps qs
      → get_elem? ps i ≡ some p
      → (q : Proc) × (get_elem? qs i ≡ some q) × R p q
  Slots-after [] [] i p s h = absurd (none_ne h)
    where
      none_ne : none ≡ some p → ⊥
      none_ne h = cc
  Slots-after [] (q ∷ qs) i p s h = absurd s
  Slots-after (r ∷ ps) [] i p s h = absurd s
  Slots-after (r ∷ ps) (q ∷ qs) zero p s h =
      let e : r ≡ p = cc in (q, refl, subst (λ x. R x q) e s.0)
  Slots-after (r ∷ ps) (q ∷ qs) (suc i) p s h = Slots-after ps qs i p s.1 h

pub Slots-trans :
    (R S T : Proc → Proc → Type 0) (ps qs rs : List Proc)
    → ((p q r : Proc) → R p q → S q r → T p r)
    → Slots R ps qs
    → Slots S qs rs
    → Slots T ps rs
Slots-trans R S T [] [] [] h a b = tt
Slots-trans R S T (p ∷ ps) (q ∷ qs) (r ∷ rs) h a b =
    (h p q r a.0 b.0, Slots-trans R S T ps qs rs h a.1 b.1)
Slots-trans R S T [] [] (r ∷ rs) h a b = absurd b
Slots-trans R S T [] (q ∷ qs) rs h a b = absurd a
Slots-trans R S T (p ∷ ps) [] rs h a b = absurd a
Slots-trans R S T (p ∷ ps) (q ∷ qs) [] h a b = absurd b

pub Slots-weaken :
    (R S : Proc → Proc → Type 0) (ps qs : List Proc)
    → ((p q : Proc) → R p q → S p q)
    → Slots R ps qs
    → Slots S ps qs
Slots-weaken R S [] [] h a = tt
Slots-weaken R S (p ∷ ps) (q ∷ qs) h a = (h p q a.0, Slots-weaken R S ps qs h a.1)
Slots-weaken R S [] (q ∷ qs) h a = absurd a
Slots-weaken R S (p ∷ ps) [] h a = absurd a

-- The slots after one has changed.
pub get_elem?-modify_other :
    (f : Proc → Proc) (ps : List Proc) (i j : ℕ)
    → i ≢ j
    → get_elem? (modify ps i f) j ≡ get_elem? ps j
unfolding modify
get_elem?-modify_other f [] i j h = refl
get_elem?-modify_other f (p ∷ ps) zero zero h = absurd (h refl)
get_elem?-modify_other f (p ∷ ps) zero (suc j) h = refl
get_elem?-modify_other f (p ∷ ps) (suc i) zero h = refl
get_elem?-modify_other f (p ∷ ps) (suc i) (suc j) h =
    get_elem?-modify_other f ps i j (λ e. h (ap suc e))

pub get_elem?-modify_same :
    (f : Proc → Proc) (ps : List Proc) (i : ℕ) (q : Proc)
    → get_elem? (modify ps i f) i ≡ some q
    → (p : Proc) × (get_elem? ps i ≡ some p) × (f p ≡ q)
unfolding modify
get_elem?-modify_same f [] i q h = absurd (none_ne h)
  where
    none_ne : none ≡ some q → ⊥
    none_ne h = cc
get_elem?-modify_same f (p ∷ ps) zero q h = let e : f p ≡ q = cc in (p, refl, e)
get_elem?-modify_same f (p ∷ ps) (suc i) q h = get_elem?-modify_same f ps i q h
