-- ===== src/Kernel/Cache/Change.antt =====
-- What a reader sees of a list of buffers of which one is changed.
use mathlib.Core.Option.{some-injective}
use hanlin.Base.{
  ℕ, ◌≡◌, inl, inr, refl, sym, ap, ap₂, ◌∙◌, subst, true, false, List, [], ◌∷◌, none, some,
  Bool-cases,
}
use hanlin.Kernel.Cache.{Buf, block_eq, holds, lookup, update}
use hanlin.Kernel.Cache.Recycle.{
  block_eq_sym, block_eq→eq, IsClean, AllClean, Distinct, shown, lookup_here, lookup_later,
}

-- The first buffer of a block is changed, and stays the block's.
module _ (dev blockno : ℕ) (f : Buf → Buf) (same_dev : (b : Buf) → (f b).dev ≡ b.dev)
    (same_block : (b : Buf) → (f b).blockno ≡ b.blockno) where
  holds-same : (d n : ℕ) (b : Buf) → holds d n (f b) ≡ holds d n b
  holds-same d n b = ap₂ (λ x y. block_eq x y d n) (same_dev b) (same_block b)

  pub update_here :
      (b : Buf) (bs : List Buf)
      → holds dev blockno b ≡ true
      → update dev blockno f (b ∷ bs) ≡ f b ∷ bs
  unfolding update
  update_here b bs e = rw e refl

  pub update_later :
      (b : Buf) (bs : List Buf)
      → holds dev blockno b ≡ false
      → update dev blockno f (b ∷ bs) ≡ b ∷ update dev blockno f bs
  unfolding update
  update_later b bs e = rw e refl

  pub lookup-update_same :
      (bs : List Buf) (b : Buf)
      → lookup dev blockno bs ≡ some b
      → lookup dev blockno (update dev blockno f bs) ≡ some (f b)
  unfolding lookup
  lookup-update_same [] b h = absurd (none_ne h)
    where
      none_ne : none ≡ some b → ⊥
      none_ne h = cc
  lookup-update_same (x ∷ bs) b h = elim (Bool-cases (holds dev blockno x)) [
    | inl e ↦
        ap (lookup dev blockno) (update_here x bs e)
        ∙ lookup_here dev blockno (f x) bs (holds-same dev blockno x ∙ e)
        ∙ ap (λ y. some (f y)) (some-injective _ _ (sym (lookup_here dev blockno x bs e) ∙ h))
    | inr e ↦
        ap (lookup dev blockno) (update_later x bs e)
        ∙ lookup_later dev blockno x (update dev blockno f bs) e
        ∙ lookup-update_same bs b (sym (lookup_later dev blockno x bs e) ∙ h)
  ]

  pub lookup-update_other :
      (bs : List Buf) (d n : ℕ)
      → block_eq dev blockno d n ≡ false
      → lookup d n (update dev blockno f bs) ≡ lookup d n bs
  unfolding update
  lookup-update_other [] d n other = refl
  lookup-update_other (x ∷ bs) d n other = elim (Bool-cases (holds dev blockno x)) [
    | inl e ↦
        let (same_d, same_b) = block_eq→eq x.dev x.blockno dev blockno e in
        let elsewhere : holds d n x ≡ false = ap₂ (λ y z. block_eq y z d n) same_d same_b ∙ other in
        ap (lookup d n) (update_here x bs e)
        ∙ lookup_later d n (f x) bs (holds-same d n x ∙ elsewhere)
        ∙ sym (lookup_later d n x bs elsewhere)
    | inr e ↦ ap (lookup d n) (update_later x bs e) ∙ elim (Bool-cases (holds d n x)) [
      | inl own ↦ lookup_here d n x (update dev blockno f bs) own ∙ sym (lookup_here d n x bs own)
      | inr away ↦
          lookup_later d n x (update dev blockno f bs) away
          ∙ lookup-update_other bs d n other
          ∙ sym (lookup_later d n x bs away)
    ]
  ]

  pub Distinct-update : (bs : List Buf) → Distinct bs → Distinct (update dev blockno f bs)
  unfolding update
  Distinct-update [] distinct = tt
  Distinct-update (x ∷ bs) distinct = elim (Bool-cases (holds dev blockno x)) [
    | inl e ↦ subst Distinct (sym (update_here x bs e)) (
      (λ used.
          ap₂ (λ y z. lookup y z bs) (same_dev x) (same_block x)
          ∙ distinct.0 (λ z. used (same_dev x ∙ z))),
      distinct.1,
    )
    | inr e ↦ subst Distinct (sym (update_later x bs e)) (
      (λ used.
          lookup-update_other bs x.dev x.blockno (block_eq_sym x.dev x.blockno dev blockno e)
          ∙ distinct.0 used),
      Distinct-update bs distinct.1,
    )
  ]

  pub AllClean-update :
      (disk : ℕ → ℕ → List ℕ) (bs : List Buf)
      → ((b : Buf) → holds dev blockno b ≡ true → IsClean disk b → IsClean disk (f b))
      → AllClean disk bs
      → AllClean disk (update dev blockno f bs)
  unfolding update
  AllClean-update disk [] h clean = tt
  AllClean-update disk (x ∷ bs) h clean = elim (Bool-cases (holds dev blockno x)) [
    | inl e ↦ subst (AllClean disk) (sym (update_here x bs e)) (h x e clean.0, clean.1)
    | inr e ↦
        subst (AllClean disk) (sym (update_later x bs e))
          (clean.0, AllClean-update disk bs h clean.1)
  ]

  -- What is shown stays, if the change keeps it.
  pub shown-update :
      (disk : ℕ → ℕ → List ℕ) (bs : List Buf) (b : Buf) (d n : ℕ)
      → lookup dev blockno bs ≡ some b
      → shown disk dev blockno (some (f b)) ≡ shown disk dev blockno (some b)
      → shown disk d n (lookup d n (update dev blockno f bs)) ≡ shown disk d n (lookup d n bs)
  shown-update disk bs b d n found same = elim (Bool-cases (block_eq dev blockno d n)) [
    | inr other ↦ ap (shown disk d n) (lookup-update_other bs d n other)
    | inl e ↦
        let (same_d, same_n) = block_eq→eq dev blockno d n e in
        subst
          (λ x.
            shown disk x n (lookup x n (update dev blockno f bs)) ≡ shown disk x n (lookup x n bs))
          same_d
          (subst
            (λ y.
              shown disk dev y (lookup dev y (update dev blockno f bs))
              ≡ shown disk dev y (lookup dev y bs))
            same_n
            (ap (shown disk dev blockno) (lookup-update_same bs b found)
              ∙ same
              ∙ ap (shown disk dev blockno) (sym found)))
  ]
