-- ===== src/Kernel/Log/Atomic.antt =====
-- A transaction survives crashes whole or not at all.
use hanlin.Base.{ℕ, ◌+◌, List, ltb, if◌then◌else◌, take}
use hanlin.Kernel.Log.{Blocks, recover_from_log, commit}
use hanlin.Kernel.Log.Disk.{apply}
use hanlin.Kernel.Log.Writes.{boot}

-- The `i`-th block that is no part of the log.
abbrev pub home : ℕ → ℕ → ℕ
home start i = if ltb i start then i else i + 31

-- The disks on which a boot can find itself, when `d` was the disk at the beginning of the commit: the
-- commit is cut off after some writes, and so is each recovery.
pub data Crashed (d v : Blocks) (start : ℕ) (blocks : List ℕ) : Blocks → Type 0 where
  in_commit :
      (n : ℕ) → Crashed d v start blocks (apply d (take n (commit (boot v) start blocks).written))
  in_recovery :
      {x : Blocks} (n : ℕ)
      → Crashed d v start blocks x
      → Crashed d v start blocks (apply x (take n (recover_from_log (boot x) start).written))

-- The disk after a recovery that is not cut off.
abbrev pub recovered : Blocks → ℕ → Blocks
recovered x start = apply x (recover_from_log (boot x) start).written
