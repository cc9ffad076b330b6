-- ===== src/Kernel/Log/Writes.antt =====
-- What a commit and a recovery write to the disk, in which order.
use hanlin.Base.{
  ℕ, suc, ◌+◌, ◌≤◌, ◌≡◌, inl, refl, sym, ap, subst, ◌∙◌, List, [], ◌∷◌, ◌++◌, append-nil,
  append_assoc, length, arith,
}
use hanlin.Kernel.Log.{
  Block, Blocks, Write, Buffers, bwrite, install_trans, head_block, write_head, write_log, commit,
}
use hanlin.Kernel.Log.Disk.{
  apply, log_writes, home_writes, apply-append, Outside, AllOutside, Slots, store_other,
  log_writes-Slots, Slots-store,
}

-- The buffers after a boot: the cache is empty, so `bread` shows the disk.
abbrev pub boot : Blocks → Buffers
boot d = record { view = d; written = [] }

-- What a function has written, and that the cache shows it.
pub record Wrote (m : Buffers) (writes : List Write) (after : Buffers) : Type 0 where
  pub written : after.written ≡ m.written ++ writes
  pub view : after.view ≡ apply m.view writes

pub Wrote-nil : (m : Buffers) → Wrote m [] m
unfolding apply
Wrote-nil m = record { written = sym (append-nil m.written); view = refl }

pub Wrote-append :
    (m : Buffers) (xs : List Write) (m' : Buffers) (ys : List Write) (after : Buffers)
    → Wrote m xs m'
    → Wrote m' ys after
    → Wrote m (xs ++ ys) after
Wrote-append m xs m' ys after first second = record {
  written = second.written ∙ ap (λ w. w ++ ys) first.written ∙ append_assoc m.written xs ys;
  view = second.view ∙ ap (λ x. apply x ys) first.view ∙ sym (apply-append m.view xs ys);
}

bwrite-Wrote :
    (m : Buffers) (b : ℕ) (value expected : Block)
    → value ≡ expected
    → Wrote m ((b, expected) ∷ []) (bwrite m b value)
unfolding bwrite apply
bwrite-Wrote m b value expected e =
    subst (λ w. Wrote m ((b, w) ∷ []) (bwrite m b value)) e (record { written = refl; view = refl })

pub install_trans-Wrote :
    (m : Buffers) (v : Blocks) (start tail : ℕ) (blocks : List ℕ)
    → AllOutside start blocks
    → tail + length blocks ≤ 30
    → Slots m.view v start tail blocks
    → Wrote m (home_writes v blocks) (install_trans m start tail blocks)
unfolding install_trans home_writes bwrite
install_trans-Wrote m v start tail [] out small slots = Wrote-nil m
install_trans-Wrote m v start tail (b ∷ blocks) out small slots =
    let value = m.view (start + tail + 1) in
    let m' = bwrite m b value in
    let kept = Slots-store m.view v start (suc tail) blocks b value (omega arith) slots.1 in
    Wrote-append m ((b, v b) ∷ []) m' (home_writes v blocks)
      (install_trans m' start (suc tail) blocks) (bwrite-Wrote m b value (v b) slots.0)
      (install_trans-Wrote m' v start (suc tail) blocks out.1 (omega arith) kept)

-- Nothing that the log writes changes what it reads of the blocks.
write_log-Wrote :
    (m : Buffers) (v : Blocks) (start tail : ℕ) (blocks : List ℕ)
    → AllOutside start blocks
    → tail + length blocks ≤ 30
    → ((b : ℕ) → Outside start b → m.view b ≡ v b)
    → Wrote m (log_writes v start tail blocks) (write_log m start tail blocks)
unfolding write_log log_writes bwrite
write_log-Wrote m v start tail [] out small same = Wrote-nil m
write_log-Wrote m v start tail (b ∷ blocks) out small same =
    let value = m.view b in
    let m' = bwrite m (start + tail + 1) value in
    let kept : (x : ℕ) → Outside start x → m'.view x ≡ v x =
      λ x o. store_other m.view (start + tail + 1) value x (omega arith) ∙ same x o in
    Wrote-append m ((start + tail + 1, v b) ∷ []) m' (log_writes v start (suc tail) blocks)
      (write_log m' start (suc tail) blocks)
      (bwrite-Wrote m (start + tail + 1) value (v b) (same b out.0))
      (write_log-Wrote m' v start (suc tail) blocks out.1 (omega arith) kept)

-- The writes of a commit: the log, its header, the blocks, and the empty header.
abbrev pub commit_writes : Blocks → ℕ → List ℕ → Block → Block → List Write
commit_writes v start blocks head cleared =
    log_writes v start 0 blocks
    ++ ((start, head) ∷ (home_writes v blocks ++ ((start, cleared) ∷ [])))

-- Once the header is written the log blocks are complete.
pub Slots-head :
    (d v : Blocks) (start : ℕ) (blocks : List ℕ) (head : Block)
    → Slots (apply d (log_writes v start 0 blocks ++ ((start, head) ∷ []))) v start 0 blocks
unfolding apply
Slots-head d v start blocks head =
    subst (λ x. Slots x v start 0 blocks)
      (sym (apply-append d (log_writes v start 0 blocks) ((start, head) ∷ [])))
      (Slots-store (apply d (log_writes v start 0 blocks)) v start 0 blocks start head
        (inl (omega arith)) (log_writes-Slots d v start 0 blocks))

pub write_head-Wrote :
    (m : Buffers) (start : ℕ) (blocks : List ℕ)
    → Wrote m ((start, head_block (m.view start) blocks) ∷ []) (write_head m start blocks)
unfolding write_head
write_head-Wrote m start blocks = bwrite-Wrote m start (head_block (m.view start) blocks) _ refl

pub commit-Wrote :
    (v : Blocks) (start b : ℕ) (rest : List ℕ)
    → AllOutside start (b ∷ rest)
    → length (b ∷ rest) ≤ 30
    → (w : Block) × (w' : Block) × ((commit (boot v) start (b ∷ rest)).written
        ≡ commit_writes v start (b ∷ rest) (head_block w (b ∷ rest)) (head_block w' []))
unfolding commit
commit-Wrote v start b rest out small =
    let blocks = b ∷ rest in
    let logged = write_log (boot v) start 0 blocks in
    let committed = write_head logged start blocks in
    let installed = install_trans committed start 0 blocks in
    let head = head_block (logged.view start) blocks in
    let cleared = head_block (installed.view start) [] in
    let log = log_writes v start 0 blocks in
    let log_written = write_log-Wrote (boot v) v start 0 blocks out (omega arith) (λ x o. refl) in
    let head_written =
      Wrote-append (boot v) log logged ((start, head) ∷ []) committed log_written
        (write_head-Wrote logged start blocks) in
    let slots =
      subst (λ x. Slots x v start 0 blocks) (sym head_written.view)
        (Slots-head v v start blocks head) in
    let home_written =
      Wrote-append committed (home_writes v blocks) installed ((start, cleared) ∷ [])
        (write_head installed start [])
        (install_trans-Wrote committed v start 0 blocks out (omega arith) slots)
        (write_head-Wrote installed start []) in
    let all =
      Wrote-append (boot v) (log ++ ((start, head) ∷ [])) committed
        (home_writes v blocks ++ ((start, cleared) ∷ [])) (write_head installed start [])
        head_written home_written in
    (
      logged.view start,
      installed.view start,
      all.written
          ∙ append_assoc log ((start, head) ∷ []) (home_writes v blocks ++ ((start, cleared) ∷ [])),
    )
