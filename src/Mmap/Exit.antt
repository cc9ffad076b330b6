-- ===== src/Mmap/Exit.antt =====
-- proc.c of private/P5: the loop of `exit` that takes the mappings away.
pub mod Entries
pub mod Emptied
use hanlin.Base.{
  ℕ, zero, suc, ◌+◌, ◌==◌, true, false, List, [], ◌∷◌, Option, none, some, get_elem?, Run, ok, exit,
  or_fault, out_of_bounds, ◌>>=◌,
}
use hanlin.Mmap.Calls.{Files, Mapping, Process, WriteBack, kmunmap}

abbrev pub note_write : Option WriteBack → List WriteBack → List WriteBack
note_write none ws = ws
note_write (some w) ws = w ∷ ws

-- The body of the loop for an entry: the process, and what was written to a file. `exit` is the panic.
unfoldable pub unmap_entry : Files → Process → Mapping → Run (Process × Option WriteBack)
unfolding kmunmap
unmap_entry files p x = elim (x.addr == 0) [
  | true ↦ ok (p, none)
  | false ↦ kmunmap files p x.addr x.len >>= λ u. elim (u.success) [
    | false ↦ exit
    | true ↦ ok (u.proc, u.written)
  ]
]

-- `n` rounds of the loop from entry `i` on: the process, and what was written to files.
unfoldable pub unmap_loop : Files → ℕ → ℕ → Process → Run (Process × List WriteBack)
unfolding unmap_entry
unmap_loop files zero i p = ok (p, [])
unmap_loop files (suc n) i p = or_fault (get_elem? p.maparray i) out_of_bounds >>= λ x.
    unmap_entry files p x >>= λ done.
    unmap_loop files n (i + 1) done.0 >>= λ r. ok (r.0, note_write done.1 r.1)

-- The loop over the 32 entries.
unfoldable pub unmap_all : Files → Process → Run (Process × List WriteBack)
unfolding unmap_loop
unmap_all files p = unmap_loop files 32 0 p
