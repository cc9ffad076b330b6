-- ===== src/Kernel/Cache/Transparent.antt =====
-- A reader of a block does not see the cache.
use hanlin.Base.{
  ℕ, ◌≡◌, ◌≢◌, ◌⊎◌, inl, inr, refl, sym, ap, ap₂, ◌∙◌, subst, Bool, true, false, ◌&&◌, not, List,
  [], ◌∷◌, none, some, ◌==◌, if◌then◌else◌, arith, Bool-cases, Option-cases, ok, exit,
}
use hanlin.Kernel.Cache.{Buf, Cache, lookup, update, hold, read_block, recycle, bget, bread}
use hanlin.Kernel.Cache.Recycle.{block_eq→eq, IsClean, AllClean, Distinct, shown, recycle-Recycled}
use hanlin.Kernel.Cache.Reuse.{Distinct-Recycled, AllClean-Recycled, shown-Recycled, found-Recycled}
use hanlin.Kernel.Cache.Change.{lookup-update_same, Distinct-update, AllClean-update, shown-update}

-- No two buffers hold the same block, and a buffer that is valid and not dirty holds what the disk holds.
pub record IsCoherent (c : Cache) : Type 0 where
  pub distinct : Distinct c.bufs
  pub clean : AllClean c.disk c.bufs

-- What a reader of the block is to get.
abbrev pub content : Cache → ℕ → ℕ → List ℕ
content c d n = shown c.disk d n (lookup d n c.bufs)

-- Every buffer is held or dirty.
abbrev pub AllBusy : List Buf → Type 0
AllBusy [] = Unit
AllBusy (b ∷ bs) = ((b.refcnt ≢ 0) ⊎ (b.is_dirty ≡ true)) × AllBusy bs

-- After `bread`: the block has a buffer that is valid and has the contents of the block; no block
-- has changed.
pub record IsRead (c : Cache) (dev blockno : ℕ) (c' : Cache) : Type 0 where
  pub buffer : Buf
  pub found : lookup dev blockno c'.bufs ≡ some buffer
  pub valid : buffer.is_valid ≡ true
  pub read : buffer.contents ≡ content c dev blockno
  pub unchanged : (d n : ℕ) → d ≢ 0 → content c' d n ≡ content c d n
  pub disk : c'.disk ≡ c.disk
  pub coherent : IsCoherent c'

recycle-none : (dev blockno : ℕ) (bs : List Buf) → recycle dev blockno bs ≡ none → AllBusy bs
unfolding recycle
recycle-none dev blockno [] h = tt
recycle-none dev blockno (b ∷ bs) h = elim (Option-cases (recycle dev blockno bs)) [
  | inr (rest, e) ↦ absurd (some_ne (rw (recycle, e) at h))
  | inl e ↦ elim (Bool-cases (b.refcnt == 0 && not b.is_dirty)) [
    | inl idle ↦ absurd (some_ne (rw idle at (rw (recycle, e) at h)))
    | inr busy ↦ (busy_lem b.refcnt b.is_dirty busy, recycle-none dev blockno bs e)
  ]
]
  where
    some_ne : {x : List Buf} → some x ≡ none → ⊥
    some_ne h = cc

    busy_lem : (n : ℕ) (d : Bool) → (n == 0 && not d) ≡ false → (n ≢ 0) ⊎ (d ≡ true)
    busy_lem n true h = inr refl
    busy_lem n false h = inl (λ e. ground arith)

-- The read of a buffer that is not valid.
module _ (stored : List ℕ) (b : Buf) where
  read_block-dev : (read_block stored b).dev ≡ b.dev
  read_block-dev = elim (Bool-cases b.is_valid) [ inl e ↦ rw e refl | inr e ↦ rw e refl ]

  read_block-blockno : (read_block stored b).blockno ≡ b.blockno
  read_block-blockno = elim (Bool-cases b.is_valid) [ inl e ↦ rw e refl | inr e ↦ rw e refl ]

  read_block-valid : (read_block stored b).is_valid ≡ true
  read_block-valid = elim (Bool-cases b.is_valid) [ inl e ↦ rw e refl | inr e ↦ rw e refl ]

  read_block-contents : (read_block stored b).contents ≡ (if b.is_valid then b.contents else stored)
  read_block-contents = elim (Bool-cases b.is_valid) [ inl e ↦ rw e refl | inr e ↦ rw e refl ]

  read_block-IsClean :
      (disk : ℕ → ℕ → List ℕ)
      → stored ≡ disk b.dev b.blockno
      → IsClean disk b
      → IsClean disk (read_block stored b)
  read_block-IsClean disk same clean = elim (Bool-cases b.is_valid) [
    | inl e ↦ subst (IsClean disk) (sym (kept e)) clean
    | inr e ↦ subst (IsClean disk) (sym (filled e)) (λ valid written. same)
  ]
    where
      kept : b.is_valid ≡ true → read_block stored b ≡ b
      kept e = simp (e)

      filled :
          b.is_valid ≡ false → read_block stored b ≡ record b { is_valid = true; contents = stored }
      filled e = simp (e)

-- What `bget` gives: a buffer of the block, and nothing else seems different.
record IsGot (c : Cache) (dev blockno : ℕ) (bs : List Buf) : Type 0 where
  buffer : Buf
  found : lookup dev blockno bs ≡ some buffer
  unchanged : (d n : ℕ) → d ≢ 0 → shown c.disk d n (lookup d n bs) ≡ content c d n
  coherent : IsCoherent (record c { bufs = bs })

bget-cases :
    (c : Cache) (dev blockno : ℕ)
    → IsCoherent c
    → ((bs : List Buf) × (bget dev blockno c.bufs ≡ ok bs) × IsGot c dev blockno bs)
      ⊎ ((bget dev blockno c.bufs ≡ exit) × (lookup dev blockno c.bufs ≡ none) × AllBusy c.bufs)
unfolding bget
bget-cases c dev blockno good = elim (Option-cases (lookup dev blockno c.bufs)) [
  | inr (b, e) ↦ inl (
    update dev blockno hold c.bufs,
    rw (bget, e) refl,
    record {
      buffer = hold b;
      found = lookup-update_same dev blockno hold (λ x. refl) (λ x. refl) c.bufs b e;
      unchanged = λ d n nonzero.
          shown-update dev blockno hold (λ x. refl) (λ x. refl) c.disk c.bufs b d n e refl;
      coherent = record {
        distinct = Distinct-update dev blockno hold (λ x. refl) (λ x. refl) c.bufs good.distinct;
        clean =
            AllClean-update dev blockno hold (λ x. refl) (λ x. refl) c.disk c.bufs
              (λ x own clean. clean) good.clean;
      };
    },
  )
  | inl e ↦ elim (Option-cases (recycle dev blockno c.bufs)) [
    | inl none_left ↦
        inr (rw (bget, e) (rw none_left refl), e, recycle-none dev blockno c.bufs none_left)
    | inr (bs, taken) ↦
        let r = recycle-Recycled dev blockno c.bufs bs taken in
        let (b, found) = found-Recycled dev blockno c.bufs bs r e in
        inl (
          bs,
          rw (bget, e) (rw taken refl),
          record {
            buffer = b;
            found = found;
            unchanged = λ d n nonzero.
                shown-Recycled dev blockno c.disk c.bufs bs d n r e good.distinct good.clean
                  nonzero;
            coherent = record {
              distinct = Distinct-Recycled dev blockno c.bufs bs r e good.distinct;
              clean = AllClean-Recycled dev blockno c.disk c.bufs bs r good.clean;
            };
          },
        )
  ]
]

read_block-update :
    (c : Cache) (dev blockno : ℕ) (bs : List Buf)
    → dev ≢ 0
    → IsGot c dev blockno bs
    → IsRead c dev blockno
        (record c { bufs = update dev blockno (read_block (c.disk dev blockno)) bs })
read_block-update c dev blockno bs nonzero got =
    let stored = c.disk dev blockno in
    let f = read_block stored in
    let dev_kept = read_block-dev stored in
    let block_kept = read_block-blockno stored in
    let same : (f got.buffer).contents ≡ shown c.disk dev blockno (lookup dev blockno bs) =
      read_block-contents stored got.buffer ∙ ap (shown c.disk dev blockno) (sym got.found) in
    record {
      buffer = f got.buffer;
      found = lookup-update_same dev blockno f dev_kept block_kept bs got.buffer got.found;
      valid = read_block-valid stored got.buffer;
      read = same ∙ got.unchanged dev blockno nonzero;
      unchanged = λ d n used.
          shown-update dev blockno f dev_kept block_kept c.disk bs got.buffer d n got.found (
            ap (λ v. if v then (f got.buffer).contents else stored)
              (read_block-valid stored got.buffer)
            ∙ read_block-contents stored got.buffer)
          ∙ got.unchanged d n used;
      disk = refl;
      coherent = record {
        distinct = Distinct-update dev blockno f dev_kept block_kept bs got.coherent.distinct;
        clean =
            AllClean-update dev blockno f dev_kept block_kept c.disk bs
              (λ x own clean.
                let (same_dev, same_block) = block_eq→eq x.dev x.blockno dev blockno own in
                read_block-IsClean stored x c.disk (ap₂ c.disk (sym same_dev) (sym same_block))
                  clean)
              got.coherent.clean;
      };
    }

-- In a coherent cache `bread` of a block of a device other than 0 gives a buffer that is valid and
-- has the contents of the block, and leaves a coherent cache in which no block of such a device has other
-- contents than before; it panics only if no buffer is the block's and every buffer is held or dirty.
pub bread_transparent :
    (c : Cache) (dev blockno : ℕ)
    → dev ≢ 0
    → IsCoherent c
    → ((c' : Cache) × (bread c dev blockno ≡ ok c') × IsRead c dev blockno c')
      ⊎ ((bread c dev blockno ≡ exit) × (lookup dev blockno c.bufs ≡ none) × AllBusy c.bufs)
unfolding bread
bread_transparent c dev blockno nonzero good = elim (bget-cases c dev blockno good) [
  | inl (bs, run, got) ↦ inl (
    record c { bufs = update dev blockno (read_block (c.disk dev blockno)) bs },
    rw (bread, run) refl,
    read_block-update c dev blockno bs nonzero got,
  )
  | inr (run, absent, busy) ↦ inr (rw (bread, run) refl, absent, busy)
]
