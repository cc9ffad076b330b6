-- ===== src/Kernel/Cache/Write.antt =====
-- A write goes to the cache and to the disk.
use hanlin.Base.{
  ℕ, ◌≡◌, ◌≢◌, refl, sym, ap, ap₂, ◌∙◌, subst, true, false, List, [], ◌∷◌, Option, none, some, inl,
  inr, Bool-cases, if◌then◌else◌,
}
use hanlin.Kernel.Cache.{Buf, Cache, block_eq, holds, lookup, update, bwrite}
use hanlin.Kernel.Cache.Recycle.{
  block_eq_refl, block_eq_sym, block_eq→eq, IsClean, AllClean, Distinct, shown, lookup-none,
}
use hanlin.Kernel.Cache.Change.{
  lookup-update_same, lookup-update_other, update_here, update_later, Distinct-update,
}
use hanlin.Kernel.Cache.Transparent.{IsCoherent, content}

module _ (dev blockno : ℕ) (stored : List ℕ) (disk : ℕ → ℕ → List ℕ) where
  abbrev write : Buf → Buf
  write b = record b { is_valid = true; is_dirty = false; contents = stored }

  abbrev written : ℕ → ℕ → List ℕ
  written d n = if block_eq dev blockno d n then stored else disk d n

  written_other : (d n : ℕ) → block_eq dev blockno d n ≡ false → written d n ≡ disk d n
  written_other d n other = rw other refl

  -- The other buffers hold what the disk holds as before.
  IsClean-written : (b : Buf) → holds dev blockno b ≡ false → IsClean disk b → IsClean written b
  IsClean-written b other clean valid synced =
      clean valid synced
      ∙ sym (written_other b.dev b.blockno (block_eq_sym b.dev b.blockno dev blockno other))

  AllClean-written :
      (bs : List Buf) → lookup dev blockno bs ≡ none → AllClean disk bs → AllClean written bs
  AllClean-written [] absent clean = tt
  AllClean-written (b ∷ bs) absent clean =
      let (other, rest) = lookup-none dev blockno b bs absent in
      (IsClean-written b other clean.0, AllClean-written bs rest clean.1)

  AllClean-write :
      (bs : List Buf)
      → dev ≢ 0
      → Distinct bs
      → AllClean disk bs
      → AllClean written (update dev blockno write bs)
  unfolding update
  AllClean-write [] nonzero distinct clean = tt
  AllClean-write (b ∷ bs) nonzero distinct clean = elim (Bool-cases (holds dev blockno b)) [
    | inl own ↦
        let (same_dev, same_block) = block_eq→eq b.dev b.blockno dev blockno own in
        let absent : lookup dev blockno bs ≡ none =
          ap₂ (λ x y. lookup x y bs) (sym same_dev) (sym same_block)
          ∙ distinct.0 (λ z. nonzero (sym same_dev ∙ z)) in
        subst (AllClean written)
          (sym (update_here dev blockno write (λ x. refl) (λ x. refl) b bs own))
          (
            (λ valid synced. sym (
                ap₂ written same_dev same_block
                ∙ ap (λ t. if t then stored else disk dev blockno) (block_eq_refl dev blockno))),
            AllClean-written bs absent clean.1,
          )
    | inr other ↦
        subst (AllClean written)
          (sym (update_later dev blockno write (λ x. refl) (λ x. refl) b bs other))
          (IsClean-written b other clean.0, AllClean-write bs nonzero distinct.1 clean.1)
  ]

-- In a coherent cache in which a block of a device other than 0 has a buffer, `bwrite` of that buffer
-- leaves a coherent cache in which the block has the new contents in the buffer and on the disk, and
-- every other block has the contents it had.
pub bwrite_correct :
    (c : Cache) (dev blockno : ℕ) (stored : List ℕ) (b : Buf)
    → dev ≢ 0
    → IsCoherent c
    → lookup dev blockno c.bufs ≡ some b
    → let c' = bwrite c dev blockno stored in
      IsCoherent c'
      × (content c' dev blockno ≡ stored)
      × (c'.disk dev blockno ≡ stored)
      × ((d n : ℕ)
          → block_eq dev blockno d n ≡ false
          → (content c' d n ≡ content c d n) × (c'.disk d n ≡ c.disk d n))
unfolding bwrite
bwrite_correct c dev blockno stored b nonzero good found = (
  record {
    distinct =
        Distinct-update dev blockno (write dev blockno stored c.disk) (λ x. refl) (λ x. refl) c.bufs
          good.distinct;
    clean = AllClean-write dev blockno stored c.disk c.bufs nonzero good.distinct good.clean;
  },
  ap (shown (written dev blockno stored c.disk) dev blockno) (
      lookup-update_same dev blockno (write dev blockno stored c.disk) (λ x. refl) (λ x. refl)
        c.bufs b found),
  ap (λ t. if t then stored else c.disk dev blockno) (block_eq_refl dev blockno),
  (λ d n other. (
    (ap (shown (written dev blockno stored c.disk) d n) (
          lookup-update_other dev blockno (write dev blockno stored c.disk) (λ x. refl) (λ x. refl)
            c.bufs d n other)
        ∙ shown_other d n (lookup d n c.bufs) other),
    written_other dev blockno stored c.disk d n other,
  )),
)
  where
    shown_other :
        (d n : ℕ) (o : Option Buf)
        → block_eq dev blockno d n ≡ false
        → shown (written dev blockno stored c.disk) d n o ≡ shown c.disk d n o
    shown_other d n none other = written_other dev blockno stored c.disk d n other
    shown_other d n (some x) other =
        ap (λ y. if x.is_valid then x.contents else y)
          (written_other dev blockno stored c.disk d n other)
