-- ===== src/Sched/Life.antt =====
-- proc.c: processes come and go, and their pids stay distinct.
use hanlin.Base.{
  ℕ, zero, suc, ◌+◌, ◌<◌, ◌≡◌, ◌≢◌, refl, false, List, [], ◌∷◌, none, some, get_elem?, arith,
  Bool-cases, inl, inr, Option-cases, ap, leb, ◌^◌, ◌-◌, ok, fault, integer_overflow,
}
use hanlin.Sched.Table.{Proc, Kernel, embryo, is_unused, modify, find_unused, reserve}
use hanlin.Sched.Clock.Calm.{All, All-modify, All-weaken}

-- A process in use has a pid below `n`.
abbrev pub IsOld : ℕ → Proc → Type 0
IsOld n p = is_unused p.state ≡ false → p.pid < n

-- `q` does not share the pid of `p`, if both are in use.
abbrev pub Apart : Proc → Proc → Type 0
Apart p q = is_unused p.state ≡ false → is_unused q.state ≡ false → p.pid ≢ q.pid

abbrev pub AllApart : List Proc → Type 0
AllApart [] = Unit
AllApart (p ∷ ps) = All (Apart p) ps × AllApart ps

-- The pids of the processes in use are distinct, and below `nextpid`, which is an `int`.
pub record IsNumbered (k : Kernel) : Type 0 where
  pub old : All (IsOld k.nextpid) k.procs
  pub apart : AllApart k.procs
  pub small : k.nextpid < 2 ^ 31

-- A change that neither puts a slot to use nor changes its pid while it is in use.
abbrev pub Keeps : (Proc → Proc) → Type 0
Keeps f =
    (p : Proc) → is_unused (f p).state ≡ false → (is_unused p.state ≡ false) × ((f p).pid ≡ p.pid)

AllApart-Keeps :
    (f : Proc → Proc) (ps : List Proc) (i : ℕ) → Keeps f → AllApart ps → AllApart (modify ps i f)
unfolding modify
AllApart-Keeps f [] i h v = tt
AllApart-Keeps f (p ∷ ps) zero h v =
    (All-weaken _ _ ps (λ q a u w. ground (arith, a (h p u).0 w, h p u)) v.0, v.1)
AllApart-Keeps f (p ∷ ps) (suc i) h v = (
  All-modify _ _ f ps i (λ q a u w. ground (arith, a u (h q w).0, h q w)) (λ q a. a) v.0,
  AllApart-Keeps f ps i h v.1,
)

-- A slot that gets the pid `n`, above those in use.
AllApart-fresh :
    (f : Proc → Proc) (n : ℕ) (ps : List Proc) (i : ℕ)
    → ((p : Proc) → (f p).pid ≡ n)
    → All (IsOld n) ps
    → AllApart ps
    → AllApart (modify ps i f)
unfolding modify
AllApart-fresh f n [] i h o v = tt
AllApart-fresh f n (p ∷ ps) zero h o v =
    (All-weaken _ _ ps (λ q a u w. omega (arith, a w, h p)) o.1, v.1)
AllApart-fresh f n (p ∷ ps) (suc i) h o v = (
  All-modify (λ q. Apart p q) _ f ps i (λ q a u w. omega (arith, o.0 u, h q)) (λ q a. a) v.0,
  AllApart-fresh f n ps i h o.1 v.1,
)

pub modify-IsNumbered :
    (k : Kernel) (f : Proc → Proc) (i : ℕ)
    → Keeps f
    → IsNumbered k
    → IsNumbered (record k { procs = modify k.procs i f })
modify-IsNumbered k f i h v = record {
  old = All-modify _ _ f k.procs i (λ p o u. omega (arith, o (h p u).0, h p u)) (λ p o. o) v.old;
  apart = AllApart-Keeps f k.procs i h v.apart;
  small = v.small;
}

pub modify-modify :
    (f g : Proc → Proc) (ps : List Proc) (i : ℕ)
    → modify (modify ps i f) i g ≡ modify ps i (λ p. g (f p))
unfolding modify
modify-modify f g [] i = refl
modify-modify f g (p ∷ ps) zero = refl
modify-modify f g (p ∷ ps) (suc i) = ap (◌∷◌ p) (modify-modify f g ps i)

-- A slot that is given the next pid and any contents.
pub fresh-IsNumbered :
    (k : Kernel) (f : Proc → Proc) (i : ℕ)
    → ((p : Proc) → (f p).pid ≡ k.nextpid)
    → k.nextpid < 2 ^ 31 - 1
    → IsNumbered k
    → IsNumbered (record k { procs = modify k.procs i f; nextpid = k.nextpid + 1 })
fresh-IsNumbered k f i h small v = record {
  old =
      All-modify _ _ f k.procs i (λ p o u. omega (arith, h p)) (λ p o u. omega (arith, o u)) v.old;
  apart = AllApart-fresh f k.nextpid k.procs i h v.old v.apart;
  small = omega (arith, small);
}

-- The three ways out of `reserve`.
pub data Reserved (k : Kernel) : Type 0 where
  no_slot : reserve k ≡ ok (none, k) → Reserved k
  overflows : reserve k ≡ fault integer_overflow → Reserved k
  reserved :
      (i : ℕ)
      → find_unused k.procs ≡ some i
      → k.nextpid < 2 ^ 31 - 1
      → reserve k
        ≡ ok (
          some i,
          record k {
            procs = modify k.procs i (λ p. record p { state = embryo; pid = k.nextpid });
            nextpid = k.nextpid + 1;
          },
        )
      → Reserved k

pub reserve-Reserved : (k : Kernel) → Reserved k
unfolding reserve
reserve-Reserved k = elim (Option-cases (find_unused k.procs)) [
  | inl e ↦ no_slot (rw (e, reserve))
  | inr (i, e) ↦ elim (Bool-cases (leb (2 ^ 31 - 1) k.nextpid)) [
    | inl last ↦ overflows (rw (e, reserve) (rw last))
    | inr more ↦ reserved i e (ground arith) (rw (e, reserve) (rw more))
  ]
]

pub get_elem?-modify :
    (f : Proc → Proc) (ps : List Proc) (i : ℕ) (p : Proc)
    → get_elem? ps i ≡ some p
    → get_elem? (modify ps i f) i ≡ some (f p)
unfolding modify
get_elem?-modify f [] i p h = absurd (none_ne h)
  where
    none_ne : none ≡ some p → ⊥
    none_ne h = cc
get_elem?-modify f (q ∷ ps) zero p h = let same : q ≡ p = cc in ap (λ x. some (f x)) same
get_elem?-modify f (q ∷ ps) (suc i) p h = get_elem?-modify f ps i p h
