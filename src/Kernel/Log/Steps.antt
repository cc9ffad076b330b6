-- ===== src/Kernel/Log/Steps.antt =====
-- How the operations in progress share the log.
use hanlin.Base.{
  ℕ, suc, ◌+◌, ◌*◌, ◌≤◌, ◌≡◌, Bool, true, false, List, [], ◌∷◌, ◌++◌, none, some, length, arith,
}
use hanlin.Kernel.Log.{Log, begin_op, end_op, end_commit, absorb, log_write, max_op_blocks}

-- How many blocks each operation in progress may still log, together.
abbrev pub total : List ℕ → ℕ
total [] = 0
total (r ∷ rs) = r + total rs

pub total-append :
    (pre : List ℕ) (r : ℕ) (post : List ℕ) → total (pre ++ (r ∷ post)) ≡ total pre + r + total post
total-append [] r post = omega arith
total-append (p ∷ pre) r post = omega (arith, total-append pre r post)

pub total-append_two : (pre post : List ℕ) → total (pre ++ post) ≡ total pre + total post
total-append_two [] post = omega arith
total-append_two (p ∷ pre) post = omega (arith, total-append_two pre post)

abbrev AllFew : List ℕ → Type 0
AllFew [] = Unit
AllFew (r ∷ rs) = (r ≤ 10) × AllFew rs

pub total-AllFew : (left : List ℕ) → AllFew left → total left ≤ 10 * length left
total-AllFew [] few = omega arith
total-AllFew (r ∷ rs) few = omega (arith, few.0, total-AllFew rs few.1)

pub AllFew-logged :
    (pre : List ℕ) (r : ℕ) (post : List ℕ)
    → AllFew (pre ++ (suc r ∷ post))
    → AllFew (pre ++ (r ∷ post))
AllFew-logged [] r post few = (omega (arith, few.0), few.1)
AllFew-logged (p ∷ pre) r post few = (few.0, AllFew-logged pre r post few.1)

pub AllFew-ended :
    (pre : List ℕ) (r : ℕ) (post : List ℕ) → AllFew (pre ++ (r ∷ post)) → AllFew (pre ++ post)
AllFew-ended [] r post few = few.1
AllFew-ended (p ∷ pre) r post few = (few.0, AllFew-ended pre r post few.1)

-- What the operations do with the log: each begins with ten blocks to log, and logs at most so many.
pub data Reach (size : ℕ) : Log → List ℕ → Type 0 where
  booted : Reach size (record { size = size; outstanding = 0; committing = false; blocks = [] }) []
  begun :
      {l l' : Log} {left : List ℕ}
      → Reach size l left
      → begin_op l ≡ some l'
      → Reach size l' (max_op_blocks ∷ left)
  logged :
      {l l' : Log} (pre : List ℕ) (r : ℕ) (post : List ℕ) (b : ℕ)
      → Reach size l (pre ++ ((suc r) ∷ post))
      → log_write l b ≡ some l'
      → Reach size l' (pre ++ (r ∷ post))
  ended :
      {l l' : Log} {committing : Bool} (pre : List ℕ) (r : ℕ) (post : List ℕ)
      → Reach size l (pre ++ (r ∷ post))
      → end_op l ≡ some (l', committing)
      → Reach size l' (pre ++ post)
  committed :
      {l : Log} {left : List ℕ}
      → Reach size l left
      → l.committing ≡ true
      → Reach size (end_commit l) left

pub record IsRoomy (size : ℕ) (l : Log) (left : List ℕ) : Type 0 where
  pub sized : l.size ≡ size
  pub counted : l.outstanding ≡ length left
  pub reserved : length l.blocks + total left ≤ 30
  pub each : AllFew left
  pub quiet : l.committing ≡ true → length left ≡ 0

pub length-absorb : (blocks : List ℕ) (b : ℕ) → length (absorb blocks b) ≤ length blocks + 1
unfolding absorb
length-absorb [] b = omega arith
length-absorb (c ∷ blocks) b = ground (arith, length-absorb blocks b)

pub some-injective : {A : Type 0} {a b : A} → some a ≡ some b → a ≡ b
some-injective h = cc

pub none-some : {A : Type 0} {a : A} → ¬ (none ≡ some a)
none-some h = cc

pub false-true : ¬ (false ≡ true)
false-true h = cc
