-- ===== src/Kernel/Cache/Recycle.antt =====
-- The buffer of another block is reused.
use mathlib.Core.Option.{some-injective}
use hanlin.Base.{
  ℕ, ◌≡◌, ◌≢◌, refl, sym, ◌∙◌, subst, Bool, true, false, ◌&&◌, not, List, [], ◌∷◌, Option, none,
  some, ◌==◌, if◌then◌else◌, arith, Bool-cases, Option-cases, inl, inr,
}
use hanlin.Kernel.Cache.{Buf, block_eq, holds, lookup, renew, recycle}

pub block_eq_refl : (d n : ℕ) → block_eq d n d n ≡ true
unfolding block_eq
block_eq_refl d n = ground arith

pub block_eq_sym : (d n e m : ℕ) → block_eq d n e m ≡ false → block_eq e m d n ≡ false
unfolding block_eq
block_eq_sym d n e m h = ground (arith, h)

pub block_eq→eq : (d n e m : ℕ) → block_eq d n e m ≡ true → (d ≡ e) × (n ≡ m)
unfolding block_eq
block_eq→eq d n e m h = ground (arith, h)

pub block_eq_trans :
    (d n e m x y : ℕ) → block_eq d n e m ≡ true → block_eq x y e m ≡ block_eq x y d n
block_eq_trans d n e m x y h = let (p, q) = block_eq→eq d n e m h in rw (p, q) refl

-- A buffer that is valid and not dirty holds what the disk holds.
abbrev pub IsClean : (ℕ → ℕ → List ℕ) → Buf → Type 0
IsClean disk b = b.is_valid ≡ true → b.is_dirty ≡ false → b.contents ≡ disk b.dev b.blockno

abbrev pub AllClean : (ℕ → ℕ → List ℕ) → List Buf → Type 0
AllClean disk [] = Unit
AllClean disk (b ∷ bs) = IsClean disk b × AllClean disk bs

-- No two buffers hold the same block; those of device 0 hold none.
abbrev pub Distinct : List Buf → Type 0
Distinct [] = Unit
Distinct (b ∷ bs) = (b.dev ≢ 0 → lookup b.dev b.blockno bs ≡ none) × Distinct bs

-- What a reader of the block gets from a buffer of it, and from the disk without one.
abbrev pub shown : (ℕ → ℕ → List ℕ) → ℕ → ℕ → Option Buf → List ℕ
shown disk d n none = disk d n
shown disk d n (some b) = if b.is_valid then b.contents else disk d n

pub lookup_here :
    (d n : ℕ) (b : Buf) (bs : List Buf) → holds d n b ≡ true → lookup d n (b ∷ bs) ≡ some b
unfolding lookup
lookup_here d n b bs h = rw h refl

pub lookup_later :
    (d n : ℕ) (b : Buf) (bs : List Buf) → holds d n b ≡ false → lookup d n (b ∷ bs) ≡ lookup d n bs
unfolding lookup
lookup_later d n b bs h = rw h refl

pub lookup-none :
    (d n : ℕ) (b : Buf) (bs : List Buf)
    → lookup d n (b ∷ bs) ≡ none
    → (holds d n b ≡ false) × (lookup d n bs ≡ none)
lookup-none d n b bs h = elim (Bool-cases (holds d n b)) [
  | inl e ↦ absurd (some_ne (sym (lookup_here d n b bs e) ∙ h))
  | inr e ↦ (e, sym (lookup_later d n b bs e) ∙ h)
]
  where
    some_ne : some b ≡ none → ⊥
    some_ne h = cc

-- The two ways in which a list is recycled.
pub data Recycled (dev blockno : ℕ) : List Buf → List Buf → Type 0 where
  here :
      (b : Buf) (bs : List Buf)
      → b.refcnt ≡ 0
      → b.is_dirty ≡ false
      → Recycled dev blockno (b ∷ bs) (renew dev blockno b ∷ bs)
  later :
      (b : Buf) (bs bs' : List Buf)
      → Recycled dev blockno bs bs'
      → Recycled dev blockno (b ∷ bs) (b ∷ bs')

pub recycle-Recycled :
    (dev blockno : ℕ) (bs bs' : List Buf)
    → recycle dev blockno bs ≡ some bs'
    → Recycled dev blockno bs bs'
unfolding recycle
recycle-Recycled dev blockno [] bs' h = absurd (none_ne h)
  where
    none_ne : none ≡ some bs' → ⊥
    none_ne h = cc
recycle-Recycled dev blockno (b ∷ bs) bs' h = elim (Option-cases (recycle dev blockno bs)) [
  | inr (rest, e) ↦
      subst (Recycled dev blockno (b ∷ bs)) (some-injective _ _ (rw (recycle, e) at h))
        (later b bs rest (recycle-Recycled dev blockno bs rest e))
  | inl e ↦ elim (Bool-cases (b.refcnt == 0 && not b.is_dirty)) [
    | inl idle ↦
        let (held, dirty) = idle_lem b.refcnt b.is_dirty idle in
        subst (Recycled dev blockno (b ∷ bs))
          (some-injective _ _ (rw idle at (rw (recycle, e) at h))) (here b bs held dirty)
    | inr busy ↦ absurd (none_ne (rw busy at (rw (recycle, e) at h)))
  ]
]
  where
    none_ne : none ≡ some bs' → ⊥
    none_ne h = cc

    idle_lem : (n : ℕ) (d : Bool) → (n == 0 && not d) ≡ true → (n ≡ 0) × (d ≡ false)
    idle_lem n true h = absurd (ground arith)
    idle_lem n false h = (ground arith, refl)
