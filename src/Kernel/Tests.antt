-- ===== src/Kernel/Tests.antt =====
-- Runs of the kernel.
use hanlin.Base.{
  ◌≡◌, refl, Bool, false, List, [], ◌∷◌, ◌++◌, some, replicate, take, if◌then◌else◌, arith,
}
use hanlin.Kernel.Pipe.{Pipe, pipealloc, write_loop, piperead}
use hanlin.Kernel.Pipe.Fifo.{IsValid, queue}
use hanlin.Kernel.Pipe.Refine.{write_loop_refines, piperead_refines}
use hanlin.Kernel.Pipe.Abstract.{view, fifo_write, fifo_read}
use hanlin.Kernel.Pipe.History.{Section, writing, reading, history, history_fifo}
use hanlin.Kernel.Log.{
  Log, Blocks, begin_op, end_op, log_write, header, commit, write_log, install_trans, write_head,
  bwrite, store, head_block, recover_from_log, read_head, absorb,
}
use hanlin.Kernel.Log.Disk.{is_mem, apply}
use hanlin.Kernel.Log.Writes.{boot}
use hanlin.Kernel.Log.Atomic.{recovered}
use hanlin.Kernel.Log.Space.{log_write_roomy}
use hanlin.Kernel.Log.Steps.{Reach, booted, begun}

abbrev new_pipe : Pipe
unfolding pipealloc
new_pipe = pipealloc (replicate 512 0)

new_pipe-IsValid : IsValid new_pipe
unfolding new_pipe
new_pipe-IsValid = record {
  page = refl;
  read_word = omega arith;
  write_word = omega arith;
  bounded = omega arith;
}

write_loop_refines_example :
    let (p', rest, outcome, woken) = write_loop new_pipe false (1 ∷ 2 ∷ []) in
    IsValid p' × ((view p', rest, outcome, woken) ≡ fifo_write (view new_pipe) false (1 ∷ 2 ∷ []))
write_loop_refines_example = write_loop_refines new_pipe false (1 ∷ 2 ∷ []) new_pipe-IsValid

piperead_refines_example :
    let (p', outcome, woken) = piperead new_pipe false 3 in
    IsValid p' × ((view p', outcome, woken) ≡ fifo_read (view new_pipe) false 3)
piperead_refines_example = piperead_refines new_pipe false 3 new_pipe-IsValid

abbrev three_sections : List Section
three_sections = writing false (1 ∷ 2 ∷ 3 ∷ []) ∷ reading false 2 ∷ writing false (4 ∷ []) ∷ []

history_fifo_example :
    let (last, stored, out) = history new_pipe three_sections in
    IsValid last × (out ++ queue last ≡ queue new_pipe ++ stored)
history_fifo_example = history_fifo new_pipe three_sections new_pipe-IsValid

-- A disk of empty blocks with its log at block 2, a transaction of the blocks 40 and 50, and a crash
-- after the third write of its commit, then one after the first write of the recovery.
abbrev empty_disk : Blocks
empty_disk b = 0 ∷ 0 ∷ 0 ∷ []

abbrev cached : Blocks
cached b = if is_mem b (40 ∷ 50 ∷ []) then b ∷ [] else 0 ∷ 0 ∷ 0 ∷ []

abbrev crashed_disk : Blocks
crashed_disk = apply empty_disk (take 3 (commit (boot cached) 2 (40 ∷ 50 ∷ [])).written)

abbrev crashed_again : Blocks
crashed_again = apply crashed_disk (take 1 (recover_from_log (boot crashed_disk) 2).written)

-- The crash leaves a complete log, and the recovery installs it.
crashed_disk-recovered : recovered crashed_disk 2 40 ≡ 40 ∷ []
unfolding apply commit write_log install_trans write_head bwrite store head_block recover_from_log
    read_head header is_mem
crashed_disk-recovered = refl

-- A log of 31 blocks with one operation in progress.
abbrev one_op : Log
one_op = record { size = 31; outstanding = 1; committing = false; blocks = [] }

one_op-Reach : Reach 31 one_op (10 ∷ [])
unfolding begin_op
one_op-Reach = begun booted refl

log_write_roomy_example :
    (log_write one_op 5 ≡ some (record one_op { blocks = absorb [] 5 }))
    × ((l' : Log) × (commits : Bool) × (end_op one_op ≡ some (l', commits)))
log_write_roomy_example = log_write_roomy [] 9 [] 5 (omega arith) one_op-Reach
