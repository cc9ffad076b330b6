-- ===== src/Kernel/Log.antt =====
-- log.c. A block is a list of words; the block at `start` has the header, the `tail`-th logged block is
-- at `start + tail + 1`. The buffer cache is what `bread` shows for each block, with the writes that
-- went to the disk, in order: a crash loses the cache and a tail of these writes.
pub mod Disk
pub mod Writes
pub mod Crash
pub mod Atomic
pub mod Steps
pub mod Space
use hanlin.Base.{
  ℕ, zero, suc, ◌+◌, ◌-◌, ◌*◌, Bool, true, false, ◌||◌, List, [], ◌∷◌, ◌++◌, Option, none, some,
  ◌==◌, leb, ltb, if◌then◌else◌, length, get_or, take, drop,
}

-- LOGSIZE and MAXOPBLOCKS
abbrev pub log_size : ℕ
log_size = 30

abbrev pub max_op_blocks : ℕ
max_op_blocks = 10

abbrev pub Block : Type 0
Block = List ℕ

abbrev pub Blocks : Type 0
Blocks = ℕ → Block

abbrev pub Write : Type 0
Write = ℕ × Block

pub record Buffers : Type 0 where
  pub view : Blocks
  pub written : List Write

unfoldable pub store : Blocks → ℕ → Block → Blocks
store blocks b value x = if x == b then value else blocks x

-- `bwrite` of a buffer whose data is `value`.
unfoldable pub bwrite : Buffers → ℕ → Block → Buffers
unfolding store
bwrite m b value = record { view = store m.view b value; written = m.written ++ ((b, value) ∷ []) }

-- The loop of `install_trans` from `tail` on, where the header lists `blocks`.
unfoldable pub install_trans : Buffers → ℕ → ℕ → List ℕ → Buffers
install_trans m start tail [] = m
install_trans m start tail (b ∷ blocks) =
    install_trans (bwrite m b (m.view (start + tail + 1))) start (suc tail) blocks

-- The header in a block: `n`, and the first `n` of the block numbers behind it.
unfoldable pub header : Block → List ℕ
header words = take (get_or words 0 0) (drop 1 words)

unfoldable pub head_block : Block → List ℕ → Block
head_block words blocks = length blocks ∷ (blocks ++ drop (length blocks + 1) words)

unfoldable pub read_head : Buffers → ℕ → List ℕ
read_head m start = header (m.view start)

unfoldable pub write_head : Buffers → ℕ → List ℕ → Buffers
write_head m start blocks = bwrite m start (head_block (m.view start) blocks)

unfoldable pub recover_from_log : Buffers → ℕ → Buffers
unfolding install_trans read_head write_head
recover_from_log m start = write_head (install_trans m start 0 (read_head m start)) start []

-- The loop of `write_log` from `tail` on.
unfoldable pub write_log : Buffers → ℕ → ℕ → List ℕ → Buffers
write_log m start tail [] = m
write_log m start tail (b ∷ blocks) =
    write_log (bwrite m (start + tail + 1) (m.view b)) start (suc tail) blocks

-- `commit`; afterwards the log in memory is empty.
unfoldable pub commit : Buffers → ℕ → List ℕ → Buffers
unfolding write_log install_trans write_head
commit m start [] = m
commit m start (b ∷ blocks) =
    let logged = write_log m start 0 (b ∷ blocks) in
    let committed = write_head logged start (b ∷ blocks) in
    let installed = install_trans committed start 0 (b ∷ blocks) in write_head installed start []

-- `struct log` in memory.
pub record Log : Type 0 where
  pub size : ℕ
  pub outstanding : ℕ
  pub committing : Bool
  pub blocks : List ℕ

-- One round of the loop of `begin_op`; `none` is `sleep`.
unfoldable pub begin_op : Log → Option Log
begin_op l =
    if l.committing || ltb log_size (length l.blocks + (l.outstanding + 1) * max_op_blocks)
    then none
    else some (record l { outstanding = l.outstanding + 1 })

-- The first critical section of `end_op`, and whether it goes on to commit; `none` is its panic.
unfoldable pub end_op : Log → Option (Log × Bool)
end_op l =
    let left = record l { outstanding = l.outstanding - 1 } in
    if l.committing
    then none
    else if left.outstanding == 0
    then some (record left { committing = true }, true)
    else some (left, false)

-- The end of `end_op` after `commit`, which has emptied the log.
unfoldable pub end_commit : Log → Log
end_commit l = record l { committing = false; blocks = [] }

-- The loop of `log_write`: a block that the log has already is absorbed.
unfoldable pub absorb : List ℕ → ℕ → List ℕ
absorb [] b = b ∷ []
absorb (c ∷ blocks) b = let rest = c ∷ absorb blocks b in if c == b then c ∷ blocks else rest

-- `log_write`; `none` is a panic.
unfoldable pub log_write : Log → ℕ → Option Log
unfolding absorb
log_write l b =
    if leb log_size (length l.blocks) || leb (l.size - 1) (length l.blocks)
    then none
    else if l.outstanding == 0
    then none
    else some (record l { blocks = absorb l.blocks b })
