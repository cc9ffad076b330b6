-- ===== src/Kernel/Cache/Session.antt =====
-- The cache implements the blocks.
use hanlin.Base.{
  ℕ, zero, suc, ◌≡◌, ◌≢◌, ◌⊎◌, refl, sym, ap, ap₂, ◌∙◌, ok-injective, subst, true, false, List,
  none, some, inl, inr, Bool-cases, if◌then◌else◌, ok, exit,
}
use hanlin.Kernel.Cache.{Buf, Cache, binit, block_eq, lookup, bread, bwrite, pin, brelse}
use hanlin.Kernel.Cache.Recycle.{AllClean, Distinct, shown, block_eq→eq}
use hanlin.Kernel.Cache.Change.{
  Distinct-update, AllClean-update, lookup-update_same, lookup-update_other,
}
use hanlin.Kernel.Cache.Transparent.{IsCoherent, content, AllBusy, bread_transparent}
use hanlin.Kernel.Cache.Write.{bwrite_correct}
use hanlin.Kernel.Cache.Release.{brelse-Alike}

-- The abstract disk: the contents of each block, of which one is set.
abbrev pub set_block : (ℕ → ℕ → List ℕ) → ℕ → ℕ → List ℕ → ℕ → ℕ → List ℕ
set_block blocks dev blockno stored d n = if block_eq dev blockno d n then stored else blocks d n

-- A cache, from `binit` on, and the blocks that its users have written. A user writes a buffer of a block
-- that is valid, by `bwrite`, or by `log_write`, which only marks it dirty.
pub data Session : Cache → (ℕ → ℕ → List ℕ) → Type 0 where
  start :
      (count : ℕ) (disk : ℕ → ℕ → List ℕ)
      → Session (record { bufs = binit count; disk = disk }) disk
  reads :
      (c c' : Cache) (blocks : ℕ → ℕ → List ℕ) (dev blockno : ℕ)
      → Session c blocks
      → dev ≢ 0
      → bread c dev blockno ≡ ok c'
      → Session c' blocks
  writes :
      (c : Cache) (blocks : ℕ → ℕ → List ℕ) (dev blockno : ℕ) (stored : List ℕ) (b : Buf)
      → Session c blocks
      → dev ≢ 0
      → lookup dev blockno c.bufs ≡ some b
      → Session (bwrite c dev blockno stored) (set_block blocks dev blockno stored)
  pins :
      (c : Cache) (blocks : ℕ → ℕ → List ℕ) (dev blockno : ℕ) (stored : List ℕ) (b : Buf)
      → Session c blocks
      → dev ≢ 0
      → lookup dev blockno c.bufs ≡ some b
      → b.is_valid ≡ true
      → Session (pin c dev blockno stored) (set_block blocks dev blockno stored)
  releases :
      (c : Cache) (blocks : ℕ → ℕ → List ℕ) (dev blockno : ℕ)
      → Session c blocks
      → dev ≢ 0
      → Session (record c { bufs = brelse dev blockno c.bufs }) blocks

-- The cache is coherent and shows the blocks.
pub record Implements (c : Cache) (blocks : ℕ → ℕ → List ℕ) : Type 0 where
  pub coherent : IsCoherent c
  pub shows : (d n : ℕ) → d ≢ 0 → content c d n ≡ blocks d n

binit-IsCoherent :
    (count : ℕ) (disk : ℕ → ℕ → List ℕ) → Distinct (binit count) × AllClean disk (binit count)
unfolding binit
binit-IsCoherent zero disk = (tt, tt)
binit-IsCoherent (suc count) disk =
    let (distinct, clean) = binit-IsCoherent count disk in
    (((λ used. absurd (used refl)), distinct), ((λ valid synced. absurd (false_ne valid)), clean))
  where
    false_ne : false ≡ true → ⊥
    false_ne h = cc

binit-shown :
    (count : ℕ) (disk : ℕ → ℕ → List ℕ) (d n : ℕ)
    → shown disk d n (lookup d n (binit count)) ≡ disk d n
unfolding binit lookup
binit-shown zero disk d n = refl
binit-shown (suc count) disk d n = elim (Bool-cases (block_eq 0 0 d n)) [
  | inl e ↦ rw e refl
  | inr e ↦ rw e (binit-shown count disk d n)
]

-- The blocks after one is set.
set_block-shows :
    (c c' : Cache) (blocks : ℕ → ℕ → List ℕ) (dev blockno : ℕ) (stored : List ℕ)
    → content c' dev blockno ≡ stored
    → ((d n : ℕ) → block_eq dev blockno d n ≡ false → content c' d n ≡ content c d n)
    → ((d n : ℕ) → d ≢ 0 → content c d n ≡ blocks d n)
    → (d n : ℕ) → d ≢ 0
    → content c' d n ≡ set_block blocks dev blockno stored d n
set_block-shows c c' blocks dev blockno stored own other shows d n used =
    elim (Bool-cases (block_eq dev blockno d n)) [
      | inl e ↦
          let (same_d, same_n) = block_eq→eq dev blockno d n e in
          ap₂ (λ x y. content c' x y) (sym same_d) (sym same_n) ∙ own ∙ rw e refl
      | inr e ↦ other d n e ∙ shows d n used ∙ rw e refl
    ]

read-Implements :
    (c c' : Cache) (blocks : ℕ → ℕ → List ℕ) (dev blockno : ℕ)
    → dev ≢ 0
    → bread c dev blockno ≡ ok c'
    → Implements c blocks
    → Implements c' blocks
read-Implements c c' blocks dev blockno nonzero run i =
    elim (bread_transparent c dev blockno nonzero i.coherent) [
      | inr (panic, absent, busy) ↦ absurd (ok_ne (sym run ∙ panic))
      | inl (next, done, r) ↦
          subst (λ x. Implements x blocks) (ok-injective (sym done ∙ run))
            (record {
              coherent = r.coherent;
              shows = λ d n used. r.unchanged d n used ∙ i.shows d n used;
            })
    ]
  where
    ok_ne : ok c' ≡ exit → ⊥
    ok_ne h = cc

pin-Implements :
    (c : Cache) (blocks : ℕ → ℕ → List ℕ) (dev blockno : ℕ) (stored : List ℕ) (b : Buf)
    → lookup dev blockno c.bufs ≡ some b
    → b.is_valid ≡ true
    → Implements c blocks
    → Implements (pin c dev blockno stored) (set_block blocks dev blockno stored)
unfolding pin
pin-Implements c blocks dev blockno stored b found valid i =
    let write : Buf → Buf = λ x. record x { is_dirty = true; contents = stored } in
    record {
      coherent = record {
        distinct =
            Distinct-update dev blockno write (λ x. refl) (λ x. refl) c.bufs i.coherent.distinct;
        clean =
            AllClean-update dev blockno write (λ x. refl) (λ x. refl) c.disk c.bufs
              (λ x own clean good synced. absurd (true_ne synced)) i.coherent.clean;
      };
      shows =
          set_block-shows c (pin c dev blockno stored) blocks dev blockno stored
            (ap (shown c.disk dev blockno)
                (lookup-update_same dev blockno write (λ x. refl) (λ x. refl) c.bufs b found)
              ∙ ap (λ v. if v then stored else c.disk dev blockno) valid)
            (λ d n other.
              ap (shown c.disk d n)
                (lookup-update_other dev blockno write (λ x. refl) (λ x. refl) c.bufs d n other))
            i.shows;
    }
  where
    true_ne : true ≡ false → ⊥
    true_ne h = cc

Session-Implements : (c : Cache) (blocks : ℕ → ℕ → List ℕ) → Session c blocks → Implements c blocks
Session-Implements _ _ (start count disk) =
    let (distinct, clean) = binit-IsCoherent count disk in
    record {
      coherent = record { distinct = distinct; clean = clean };
      shows = λ d n used. binit-shown count disk d n;
    }
Session-Implements _ _ (reads c c' blocks dev blockno s nonzero run) =
    read-Implements c c' blocks dev blockno nonzero run (Session-Implements c blocks s)
Session-Implements _ _ (writes c blocks dev blockno stored b s nonzero found) =
    let i = Session-Implements c blocks s in
    let (coherent, own, on_disk, others) =
      bwrite_correct c dev blockno stored b nonzero i.coherent found in
    record {
      coherent = coherent;
      shows =
          set_block-shows c (bwrite c dev blockno stored) blocks dev blockno stored own
            (λ d n other. (others d n other).0) i.shows;
    }
Session-Implements _ _ (pins c blocks dev blockno stored b s nonzero found valid) =
    pin-Implements c blocks dev blockno stored b found valid (Session-Implements c blocks s)
Session-Implements _ _ (releases c blocks dev blockno s nonzero) =
    let i = Session-Implements c blocks s in
    let (coherent, same) = brelse-Alike c dev blockno nonzero i.coherent in
    record { coherent = coherent; shows = λ d n used. same d n used ∙ i.shows d n used }

-- After any sequence of `bread`, of `bwrite` and `log_write` of buffers, and of `brelse`, on devices other
-- than 0, that starts with `binit`: `bread` of a block of such a device gives a valid buffer with what was
-- last written to the block, or with what the disk held at the start; it panics only if no buffer is the
-- block's and every buffer is held or dirty.
pub bread_refines :
    (c : Cache) (blocks : ℕ → ℕ → List ℕ) (dev blockno : ℕ)
    → Session c blocks
    → dev ≢ 0
    → ((c' : Cache) × (b : Buf) × (bread c dev blockno ≡ ok c')
        × (lookup dev blockno c'.bufs ≡ some b)
        × (b.is_valid ≡ true)
        × (b.contents ≡ blocks dev blockno))
      ⊎ ((bread c dev blockno ≡ exit) × (lookup dev blockno c.bufs ≡ none) × AllBusy c.bufs)
bread_refines c blocks dev blockno s nonzero =
    let i = Session-Implements c blocks s in
    elim (bread_transparent c dev blockno nonzero i.coherent) [
      | inl (c', run, r) ↦
          inl (c', r.buffer, run, r.found, r.valid, r.read ∙ i.shows dev blockno nonzero)
      | inr panic ↦ inr panic
    ]
