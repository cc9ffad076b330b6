-- ===== src/Kernel/Cache/Reuse.antt =====
-- What a reader sees of a list of buffers of which one is reused.
use hanlin.Base.{
  ℕ, ◌≡◌, ◌≢◌, inl, inr, refl, sym, ap, ap₂, ◌∙◌, Bool, true, false, List, ◌∷◌, none, some,
  if◌then◌else◌, Bool-cases,
}
use hanlin.Kernel.Cache.{Buf, block_eq, holds, lookup, renew}
use hanlin.Kernel.Cache.Recycle.{
  block_eq_refl, block_eq_sym, block_eq→eq, AllClean, Distinct, shown, lookup_here, lookup_later,
  lookup-none, Recycled, here, later,
}

false_ne : false ≡ true → ⊥
false_ne h = cc

-- A buffer becomes that of a block that no buffer holds.
module _ (dev blockno : ℕ) where
  pub absent-Recycled :
      (bs bs' : List Buf) (d n : ℕ)
      → Recycled dev blockno bs bs'
      → block_eq dev blockno d n ≡ false
      → lookup d n bs ≡ none
      → lookup d n bs' ≡ none
  absent-Recycled _ _ d n (here b bs idle kept) other h =
      lookup_later d n (renew dev blockno b) bs other ∙ (lookup-none d n b bs h).1
  absent-Recycled _ _ d n (later b bs bs' r) other h =
      let (not_here, rest) = lookup-none d n b bs h in
      lookup_later d n b bs' not_here ∙ absent-Recycled bs bs' d n r other rest

  pub Distinct-Recycled :
      (bs bs' : List Buf)
      → Recycled dev blockno bs bs'
      → lookup dev blockno bs ≡ none
      → Distinct bs
      → Distinct bs'
  Distinct-Recycled _ _ (here b bs idle kept) h distinct =
      ((λ used. (lookup-none dev blockno b bs h).1), distinct.1)
  Distinct-Recycled _ _ (later b bs bs' r) h distinct =
      let (not_here, rest) = lookup-none dev blockno b bs h in
      (
        (λ used.
            absent-Recycled bs bs' b.dev b.blockno r
              (block_eq_sym b.dev b.blockno dev blockno not_here) (distinct.0 used)),
        Distinct-Recycled bs bs' r rest distinct.1,
      )

  pub AllClean-Recycled :
      (disk : ℕ → ℕ → List ℕ) (bs bs' : List Buf)
      → Recycled dev blockno bs bs'
      → AllClean disk bs
      → AllClean disk bs'
  AllClean-Recycled disk _ _ (here b bs idle kept) clean =
      ((λ valid written. absurd (false_ne valid)), clean.1)
  AllClean-Recycled disk _ _ (later b bs bs' r) clean =
      (clean.0, AllClean-Recycled disk bs bs' r clean.1)

  pub shown-Recycled :
      (disk : ℕ → ℕ → List ℕ) (bs bs' : List Buf) (d n : ℕ)
      → Recycled dev blockno bs bs'
      → lookup dev blockno bs ≡ none
      → Distinct bs
      → AllClean disk bs
      → d ≢ 0
      → shown disk d n (lookup d n bs') ≡ shown disk d n (lookup d n bs)
  shown-Recycled disk _ _ d n (later b bs bs' r) h distinct clean nonzero =
      elim (Bool-cases (holds d n b)) [
        | inl e ↦ ap (shown disk d n) (lookup_here d n b bs' e ∙ sym (lookup_here d n b bs e))
        | inr e ↦
            ap (shown disk d n) (lookup_later d n b bs' e)
            ∙ shown-Recycled disk bs bs' d n r (lookup-none dev blockno b bs h).1 distinct.1 clean.1
                nonzero
            ∙ ap (shown disk d n) (sym (lookup_later d n b bs e))
      ]
  shown-Recycled disk _ _ d n (here b bs idle kept) h distinct clean nonzero =
      elim (Bool-cases (block_eq dev blockno d n)) [
        | inl e ↦
            let (same_dev, same_block) = block_eq→eq dev blockno d n e in
            ap (shown disk d n) (lookup_here d n (renew dev blockno b) bs e)
            ∙ ap (shown disk d n)
                (sym (ap₂ (λ x y. lookup x y (b ∷ bs)) (sym same_dev) (sym same_block) ∙ h))
        | inr e ↦
            ap (shown disk d n) (lookup_later d n (renew dev blockno b) bs e)
            ∙ elim (Bool-cases (holds d n b)) [
              | inr other ↦ ap (shown disk d n) (sym (lookup_later d n b bs other))
              | inl own ↦
                  let (same_dev, same_block) = block_eq→eq b.dev b.blockno d n own in
                  ap (shown disk d n) (
                    ap₂ (λ x y. lookup x y bs) (sym same_dev) (sym same_block)
                    ∙ distinct.0 (λ z. nonzero (sym same_dev ∙ z)))
                  ∙ sym (
                      ap (shown disk d n) (lookup_here d n b bs own)
                      ∙ on_disk b.is_valid
                          (λ valid. clean.0 valid kept ∙ ap₂ disk same_dev same_block))
            ]
      ]
    where
      on_disk :
          (valid : Bool)
          → (valid ≡ true → b.contents ≡ disk d n)
          → (if valid then b.contents else disk d n) ≡ disk d n
      on_disk true same = same refl
      on_disk false same = refl

  pub found-Recycled :
      (bs bs' : List Buf)
      → Recycled dev blockno bs bs'
      → lookup dev blockno bs ≡ none
      → (b : Buf) × (lookup dev blockno bs' ≡ some b)
  found-Recycled _ _ (here b bs idle kept) h = (
    renew dev blockno b,
    lookup_here dev blockno (renew dev blockno b) bs (block_eq_refl dev blockno),
  )
  found-Recycled _ _ (later b bs bs' r) h =
      let (not_here, rest) = lookup-none dev blockno b bs h in
      let (x, found) = found-Recycled bs bs' r rest in
      (x, lookup_later dev blockno b bs' not_here ∙ found)
