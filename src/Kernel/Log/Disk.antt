-- ===== src/Kernel/Log/Disk.antt =====
-- Sequences of disk writes, and what the loops of log.c write.
use hanlin.Base.{
  ℕ, zero, suc, ◌+◌, ◌≤◌, ◌<◌, ◌≡◌, ◌≢◌, ◌⊎◌, inl, refl, sym, ap, ◌∙◌, Bool, false, ◌||◌, List, [],
  ◌∷◌, ◌++◌, ◌==◌, if◌then◌else◌, length, take, drop, take-append, arith,
}
use hanlin.Kernel.Log.{Block, Blocks, Write, store, header, head_block}

-- The disk after some writes.
unfoldable pub apply : Blocks → List Write → Blocks
apply d [] = d
apply d ((b, value) ∷ writes) = apply (store d b value) writes

unfoldable pub is_mem : ℕ → List ℕ → Bool
is_mem x [] = false
is_mem x (b ∷ blocks) = x == b || is_mem x blocks

-- What the two loops write when `v` is what `bread` shows of the blocks.
unfoldable pub log_writes : Blocks → ℕ → ℕ → List ℕ → List Write
log_writes v start tail [] = []
log_writes v start tail (b ∷ blocks) =
    (start + tail + 1, v b) ∷ log_writes v start (suc tail) blocks

unfoldable pub home_writes : Blocks → List ℕ → List Write
home_writes v [] = []
home_writes v (b ∷ blocks) = (b, v b) ∷ home_writes v blocks

pub apply-append : (d : Blocks) (xs ys : List Write) → apply d (xs ++ ys) ≡ apply (apply d xs) ys
unfolding apply
apply-append d [] ys = refl
apply-append d ((b, value) ∷ xs) ys = apply-append (store d b value) xs ys

-- Block `b` is no part of the log.
abbrev pub Outside : ℕ → ℕ → Type 0
Outside start b = (b < start) ⊎ (start + 30 < b)

abbrev pub AllOutside : ℕ → List ℕ → Type 0
AllOutside start [] = Unit
AllOutside start (b ∷ blocks) = Outside start b × AllOutside start blocks

-- The log blocks from `tail` on hold the contents `v` of `blocks`.
abbrev pub Slots : Blocks → Blocks → ℕ → ℕ → List ℕ → Type 0
Slots x v start tail [] = Unit
Slots x v start tail (b ∷ blocks) = (x (start + tail + 1) ≡ v b) × Slots x v start (suc tail) blocks

pub header-head_block :
    (words : Block) (blocks : List ℕ) → header (head_block words blocks) ≡ blocks
unfolding header head_block
header-head_block words blocks = take-append blocks (drop (length blocks + 1) words)

pub store_other : (d : Blocks) (b : ℕ) (value : Block) (x : ℕ) → x ≢ b → store d b value x ≡ d x
unfolding store
store_other d b value x h = ground arith

pub store_same : (d : Blocks) (b : ℕ) (value : Block) → store d b value b ≡ value
unfolding store
store_same d b value = ground arith

pub take-all : (xs : List Write) → take (length xs) xs ≡ xs
take-all [] = refl
take-all (x ∷ xs) = ap (◌∷◌ x) (take-all xs)

-- Writes to the log blocks leave every other block.
pub log_writes-other :
    (n : ℕ) (d v : Blocks) (start tail : ℕ) (blocks : List ℕ) (x : ℕ)
    → (x ≤ start + tail) ⊎ (start + tail + length blocks < x)
    → apply d (take n (log_writes v start tail blocks)) x ≡ d x
unfolding apply log_writes
log_writes-other zero d v start tail blocks x h = refl
log_writes-other (suc n) d v start tail [] x h = refl
log_writes-other (suc n) d v start tail (b ∷ blocks) x h =
    log_writes-other n (store d (start + tail + 1) (v b)) v start (suc tail) blocks x (omega arith)
    ∙ store_other d (start + tail + 1) (v b) x (omega arith)

-- After all of them the log blocks hold the contents.
pub log_writes-Slots :
    (d v : Blocks) (start tail : ℕ) (blocks : List ℕ)
    → Slots (apply d (log_writes v start tail blocks)) v start tail blocks
unfolding apply log_writes
log_writes-Slots d v start tail [] = tt
log_writes-Slots d v start tail (b ∷ blocks) =
    let rest = log_writes v start (suc tail) blocks in
    let kept =
      log_writes-other (length rest) (store d (start + tail + 1) (v b)) v start (suc tail) blocks
        (start + tail + 1) (inl (omega arith)) in
    (
      ap (λ w. apply (store d (start + tail + 1) (v b)) w (start + tail + 1)) (sym (take-all rest))
          ∙ kept
          ∙ store_same d (start + tail + 1) (v b),
      log_writes-Slots (store d (start + tail + 1) (v b)) v start (suc tail) blocks,
    )

-- Writes outside the log keep the log blocks.
pub Slots-store :
    (x v : Blocks) (start tail : ℕ) (blocks : List ℕ) (b : ℕ) (value : Block)
    → (b ≤ start + tail) ⊎ (start + tail + length blocks < b)
    → Slots x v start tail blocks
    → Slots (store x b value) v start tail blocks
Slots-store x v start tail [] b value h slots = tt
Slots-store x v start tail (c ∷ blocks) b value h slots = (
  store_other x b value (start + tail + 1) (omega arith) ∙ slots.0,
  Slots-store x v start (suc tail) blocks b value (omega arith) slots.1,
)

pub home_writes-other :
    (n : ℕ) (d v : Blocks) (blocks : List ℕ) (x : ℕ)
    → is_mem x blocks ≡ false
    → apply d (take n (home_writes v blocks)) x ≡ d x
unfolding apply home_writes is_mem
home_writes-other zero d v blocks x h = refl
home_writes-other (suc n) d v [] x h = refl
home_writes-other (suc n) d v (b ∷ blocks) x h =
    home_writes-other n (store d b (v b)) v blocks x (ground arith)
    ∙ store_other d b (v b) x (ground arith)

-- After all of them every block of the list has its content, and no other has changed.
pub home_writes-all :
    (d v : Blocks) (blocks : List ℕ) (x : ℕ)
    → apply d (home_writes v blocks) x ≡ (if is_mem x blocks then v x else d x)
unfolding apply home_writes is_mem store
home_writes-all d v [] x = refl
home_writes-all d v (b ∷ blocks) x = home_writes-all (store d b (v b)) v blocks x ∙ ground arith

pub home_writes-Slots :
    (n : ℕ) (d v : Blocks) (start tail : ℕ) (listed blocks : List ℕ)
    → AllOutside start blocks
    → tail + length listed ≤ 30
    → Slots d v start tail listed
    → Slots (apply d (take n (home_writes v blocks))) v start tail listed
unfolding apply home_writes
home_writes-Slots zero d v start tail listed blocks out small slots = slots
home_writes-Slots (suc n) d v start tail listed [] out small slots = slots
home_writes-Slots (suc n) d v start tail listed (b ∷ blocks) out small slots =
    home_writes-Slots n (store d b (v b)) v start tail listed blocks out.1 small
      (Slots-store d v start tail listed b (v b) (omega arith) slots)

pub is_mem-start :
    (start : ℕ) (blocks : List ℕ) → AllOutside start blocks → is_mem start blocks ≡ false
unfolding is_mem
is_mem-start start [] out = refl
is_mem-start start (b ∷ blocks) out =
    let other : start ≢ b = omega (arith, out.0) in ground (arith, is_mem-start start blocks out.1)
