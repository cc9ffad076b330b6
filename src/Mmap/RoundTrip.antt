-- ===== src/Mmap/RoundTrip.antt =====
-- An anonymous mapping, and the call that takes it away.
use hanlin.Base.{
  ℕ, ◌/◌, ◌^◌, ◌<◌, ◌≡◌, refl, sym, ◌∙◌, true, Option, none, some, arith, Returns, returns,
  Returns->>=, Returns-weaken, subst, set, or_fault-some, out_of_bounds,
}
use hanlin.Mmap.{Memory, page_down, fresh}
use hanlin.Mmap.Calls.{
  Files, Process, Mapping, Unmapped, is_anon, is_fixed, user_writable, note_mapping, sys_mmap,
  kmunmap,
}
use hanlin.Mmap.Filling.{Filled}
use hanlin.Mmap.Undo.{SameEntries, end_page, undone}
use hanlin.Mmap.Unmap.{IsFreed, kmunmap-IsFreed}
use hanlin.Mmap.Slots.{HasRoom, Known, Known-IsNew, IsTaken, unused_slot-IsTaken}
use hanlin.Mmap.Anonymous.{IsPlace, Anonymous, IsAddress, mmap-Anonymous}

-- The call succeeded, wrote no file, and left the page table and `maparray` as in `p`.
pub record IsRestored (p : Process) (u : Unmapped) : Type 0 where
  pub success : u.success ≡ true
  pub written : u.written ≡ none
  pub memory : SameEntries p.memory u.proc.memory
  pub maparray : u.proc.maparray ≡ p.maparray

IsFreed-IsRestored :
    (p : Process) (next : Memory) (y : Mapping) (i length : ℕ)
    → IsPlace p.memory y.addr length
    → Filled p.memory next (page_down y.addr) (end_page y.addr length) (some (fresh user_writable))
    → IsTaken p.maparray y i
    → (u : Unmapped)
    → IsFreed (record { memory = next; maparray = set p.maparray i y }) y.addr length u
    → IsRestored p u
IsFreed-IsRestored p next y i length place filled slot u done = record {
  success = done.success;
  written = done.written;
  memory =
      undone p.memory next u.proc.memory (page_down y.addr) (end_page y.addr length)
        (λ q low high. place.free q (omega (arith, place.aligned)) (omega (arith, place.aligned)))
        filled.outside done.freed;
  maparray = done.maparray ∙ slot.cleared;
}

kmunmap-IsRestored :
    (files : Files) (p : Process) (next : Memory) (y : Mapping) (i length : ℕ)
    → is_anon y.flag ≡ true
    → IsPlace p.memory y.addr length
    → Filled p.memory next (page_down y.addr) (end_page y.addr length) (some (fresh user_writable))
    → IsTaken p.maparray y i
    → Returns
        (IsRestored p)
        (kmunmap files (record { memory = next; maparray = set p.maparray i y }) y.addr length)
kmunmap-IsRestored files p next y i length anon place filled slot =
    Returns-weaken
      (kmunmap-IsFreed files (record { memory = next; maparray = set p.maparray i y }) y i length
        slot.found slot.there anon
        (record { low = place.low; aligned = place.aligned; below = place.below }))
      (IsFreed-IsRestored p next y i length place filled slot)

-- The process has no mapping more, or one that `kmunmap` takes away again.
abbrev pub IsUndone : Files → Process → ℕ → Process × Option ℕ → Type 0
IsUndone files p length (q, none) = SameEntries p.memory q.memory × (q.maparray ≡ p.maparray)
IsUndone files p length (q, some va) = Returns (IsRestored p) (kmunmap files q va length)

note_mapping-IsUndone :
    (files : Files) (p : Process) (length : ℕ) (x : Mapping) (done : Memory × Option ℕ)
    → Known p.memory p.maparray
    → HasRoom p.maparray
    → is_anon x.flag ≡ true
    → 0 < length
    → Anonymous p.memory length done
    → Returns (IsUndone files p length) (note_mapping p done.0 done.1 x)
unfolding note_mapping
note_mapping-IsUndone files p length x (next, none) known room anon positive same =
    returns (same, refl)
note_mapping-IsUndone files p length x (next, some va) known room anon positive (place, filled) =
    let free = place.free (va / 4096) (omega arith) (omega arith) in
    let new =
      Known-IsNew p.memory p.maparray va (λ zero. omega (arith, place.low, zero)) free known in
    let (i, slot) = unused_slot-IsTaken p.maparray (record x { addr = va }) new room in
    Returns->>= (or_fault-some out_of_bounds slot.taken) (λ j here. returns (
      subst
        (λ k. Returns (IsRestored p) (
          kmunmap files
            (record { memory = next; maparray = set p.maparray k (record x { addr = va }) }) va
            length))
        (sym here)
        (kmunmap-IsRestored files p next (record x { addr = va }) i length anon place filled slot)))

-- For a process whose entries of `maparray` of length 0 are cleared, and whose others start with a
-- present page, with an entry left: `sys_mmap` with MAP_ANON of a positive length below 2 ^ 31 (and with
-- MAP_FIXED only at the address of a page so that the region ends below KERNBASE) returns. If it gives
-- an address, then `kmunmap` of this address and length succeeds, writes no file, and leaves the page
-- table and `maparray` as they were before both calls; if it fails, they are as before.
pub kmunmap-sys_mmap :
    (files : Files) (p : Process) (addr length prot flags fd : ℕ)
    → Known p.memory p.maparray
    → HasRoom p.maparray
    → is_anon flags ≡ true
    → 0 < length
    → length < 2 ^ 31
    → (is_fixed flags ≡ true → IsAddress addr length)
    → Returns (IsUndone files p length) (sys_mmap files p addr length prot flags fd)
unfolding sys_mmap
kmunmap-sys_mmap files p addr length prot flags fd known room anon positive small address =
    Returns->>= (mmap-Anonymous files p.memory addr length flags fd anon small address)
      (λ done mapped.
        note_mapping-IsUndone files p length
          (record { addr = 0; flag = flags; len = length; prot = prot; fd = fd }) done known room
          anon positive mapped)
