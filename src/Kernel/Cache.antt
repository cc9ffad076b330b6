-- ===== src/Kernel/Cache.antt =====
-- bio.c: the buffer cache. The list of buffers goes from the most recently used one on; a buffer that
-- `bget` has returned is named by its block. The driver, `iderw`, is taken to read a buffer that is not
-- valid from the disk, and to write one that is dirty to it.
pub mod Recycle
pub mod Reuse
pub mod Change
pub mod Transparent
pub mod Write
pub mod Release
pub mod Session
mod Tests
use hanlin.Base.{
  ℕ, zero, suc, ◌+◌, ◌-◌, ◌%◌, ◌^◌, Bool, true, false, ◌&&◌, not, List, [], ◌∷◌, Option, none, some,
  ◌==◌, if◌then◌else◌, Run, ok, exit, ◌>>=◌,
}

-- `struct buf`; the locks and the queue of the disk driver are left out.
pub record Buf : Type 0 where
  pub dev : ℕ
  pub blockno : ℕ
  pub refcnt : ℕ
  pub is_valid : Bool
  pub is_dirty : Bool
  pub contents : List ℕ

-- `bcache`, and the blocks on the disks.
pub record Cache : Type 0 where
  pub bufs : List Buf
  pub disk : ℕ → ℕ → List ℕ

abbrev pub blank : Buf
blank = record {
  dev = 0;
  blockno = 0;
  refcnt = 0;
  is_valid = false;
  is_dirty = false;
  contents = [];
}

-- `binit` for `count` buffers: each is put in front of those before it.
unfoldable pub binit : ℕ → List Buf
binit zero = []
binit (suc count) = blank ∷ binit count

unfoldable pub block_eq : ℕ → ℕ → ℕ → ℕ → Bool
block_eq dev blockno d n = dev == d && blockno == n

abbrev pub holds : ℕ → ℕ → Buf → Bool
holds d n b = block_eq b.dev b.blockno d n

-- The first loop of `bget`: the first buffer of the block.
unfoldable pub lookup : ℕ → ℕ → List Buf → Option Buf
unfolding block_eq
lookup d n [] = none
lookup d n (b ∷ bs) = let later = lookup d n bs in if holds d n b then some b else later

-- A change of that buffer.
unfoldable pub update : ℕ → ℕ → (Buf → Buf) → List Buf → List Buf
unfolding block_eq
update d n f [] = []
update d n f (b ∷ bs) = let later = update d n f bs in if holds d n b then f b ∷ bs else b ∷ later

abbrev pub hold : Buf → Buf
hold b = record b { refcnt = (b.refcnt + 1) % 2 ^ 32 }

-- `b->refcnt--`
abbrev pub let_go : Buf → Buf
let_go b = record b { refcnt = (b.refcnt + (2 ^ 32 - 1)) % 2 ^ 32 }

abbrev pub renew : ℕ → ℕ → Buf → Buf
renew dev blockno b = record b {
  dev = dev;
  blockno = blockno;
  is_valid = false;
  is_dirty = false;
  refcnt = 1;
}

-- The second loop of `bget`: the last buffer that nobody holds and that is not dirty becomes the block's.
unfoldable pub recycle : ℕ → ℕ → List Buf → Option (List Buf)
recycle dev blockno [] = none
recycle dev blockno (b ∷ bs) = elim (recycle dev blockno bs) [
  | some bs' ↦ some (b ∷ bs')
  | none ↦ if b.refcnt == 0 && not b.is_dirty then some (renew dev blockno b ∷ bs) else none
]

-- `bget`: the buffers afterwards; `exit` is the panic.
unfoldable pub bget : ℕ → ℕ → List Buf → Run (List Buf)
unfolding lookup update recycle
bget dev blockno bs = elim (lookup dev blockno bs) [
  | some b ↦ ok (update dev blockno hold bs)
  | none ↦ elim (recycle dev blockno bs) [ none ↦ exit | some bs' ↦ ok bs' ]
]

-- `iderw` of a buffer that is not valid. Such a buffer is not dirty: only who has got one from `bread` marks
-- it.
abbrev pub read_block : List ℕ → Buf → Buf
read_block stored b = if b.is_valid then b else record b { is_valid = true; contents = stored }

-- `bread`
unfoldable pub bread : Cache → ℕ → ℕ → Run Cache
unfolding bget update
bread c dev blockno = bget dev blockno c.bufs >>= λ bs.
    ok (record c { bufs = update dev blockno (read_block (c.disk dev blockno)) bs })

-- `bwrite` of the buffer of a block, whose data the caller has changed.
unfoldable pub bwrite : Cache → ℕ → ℕ → List ℕ → Cache
unfolding update block_eq
bwrite c dev blockno stored = record {
  bufs =
      update dev blockno (λ b. record b { is_valid = true; is_dirty = false; contents = stored })
        c.bufs;
  disk = λ d n. if block_eq dev blockno d n then stored else c.disk d n;
}

-- What `log_write` does to the buffer of a block, whose data the caller has changed.
unfoldable pub pin : Cache → ℕ → ℕ → List ℕ → Cache
unfolding update
pin c dev blockno stored = record c {
  bufs = update dev blockno (λ b. record b { is_dirty = true; contents = stored }) c.bufs;
}

-- The buffers without that of the block.
unfoldable pub unlink : ℕ → ℕ → List Buf → List Buf
unfolding block_eq
unlink d n [] = []
unlink d n (b ∷ bs) = let later = unlink d n bs in if holds d n b then bs else b ∷ later

-- `brelse` of the buffer of a block: the last one who holds it puts it in front.
unfoldable pub brelse : ℕ → ℕ → List Buf → List Buf
unfolding lookup update unlink
brelse dev blockno bs = elim (lookup dev blockno bs) [
  | none ↦ bs
  | some b ↦
      if (let_go b).refcnt == 0
      then let_go b ∷ unlink dev blockno bs
      else update dev blockno let_go bs
]
