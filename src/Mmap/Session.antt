-- ===== src/Mmap/Session.antt =====
-- A process that maps and unmaps.
use hanlin.Base.{
  ℕ, ◌^◌, ◌<◌, ◌≡◌, ◌≢◌, inl, inr, sym, ap, true, List, [], ◌∷◌, Option, some, get_elem?, subst, ok,
  Returns, Returns->>=, Returns-ok, Returns-weaken,
}
use hanlin.Mmap.Calls.{
  Files, Mapping, Process, Unmapped, clear, unused, is_anon, is_fixed, slot_of, sys_mmap, kmunmap,
}
use hanlin.Mmap.Slots.{HasRoom}
use hanlin.Mmap.Anonymous.{IsAddress, mmap-Anonymous}
use hanlin.Mmap.Unmap.{IsFreed, kmunmap-IsFreed}
use hanlin.Mmap.Backed.{note_mapping-IsValid, clear-IsBacked, unused-IsBacked}
use hanlin.Mmap.Valid.{
  Each, Each-map, Each-weaken, Each-both, Each-get_elem?, IsBacked, Disjoint, Apart, Apart-clear,
  others_elsewhere, IsValid,
}

-- A process all of whose mappings were made by `sys_mmap` with MAP_ANON, some of which `kmunmap` has
-- taken away with the address and the length of an entry.
pub data Session (files : Files) : Process → Type 0 where
  start : (p : Process) → Each (λ x. x ≡ unused) p.maparray → Session files p
  mapped :
      (p q : Process) (addr length prot flags fd : ℕ) (result : Option ℕ)
      → Session files p
      → HasRoom p.maparray
      → is_anon flags ≡ true
      → 0 < length
      → length < 2 ^ 31
      → (is_fixed flags ≡ true → IsAddress addr length)
      → sys_mmap files p addr length prot flags fd ≡ ok (q, result)
      → Session files q
  unmapped :
      (p : Process) (x : Mapping) (i : ℕ) (u : Unmapped)
      → Session files p
      → slot_of p.maparray x.addr ≡ some i
      → get_elem? p.maparray i ≡ some x
      → is_anon x.flag ≡ true
      → 0 < x.len
      → kmunmap files p x.addr x.len ≡ ok u
      → Session files u.proc

sys_mmap-IsValid :
    (files : Files) (p : Process) (addr length prot flags fd : ℕ)
    → IsValid p
    → HasRoom p.maparray
    → is_anon flags ≡ true
    → 0 < length
    → length < 2 ^ 31
    → (is_fixed flags ≡ true → IsAddress addr length)
    → Returns (λ r. IsValid r.0) (sys_mmap files p addr length prot flags fd)
unfolding sys_mmap
sys_mmap-IsValid files p addr length prot flags fd valid room anon positive small address =
    Returns->>= (mmap-Anonymous files p.memory addr length flags fd anon small address)
      (λ done placed.
        note_mapping-IsValid p
          (record { addr = 0; flag = flags; len = length; prot = prot; fd = fd }) done valid room
          positive placed)

pub kmunmap-IsValid :
    (files : Files) (p : Process) (x : Mapping) (i : ℕ)
    → IsValid p
    → slot_of p.maparray x.addr ≡ some i
    → get_elem? p.maparray i ≡ some x
    → is_anon x.flag ≡ true
    → 0 < x.len
    → Returns (λ u. IsValid u.proc) (kmunmap files p x.addr x.len)
kmunmap-IsValid files p x i valid found there anon used =
    let backed = Each-get_elem? (IsBacked p.memory) p.maparray i x there valid.backed in
    Returns-weaken
      (kmunmap-IsFreed files p x i x.len found there anon
        (record { low = backed.low used; aligned = backed.aligned; below = backed.below }))
      cleared
  where
    cleared : (u : Unmapped) → IsFreed p x.addr x.len u → IsValid u.proc
    cleared u done = record {
      backed = subst (Each (IsBacked u.proc.memory)) (sym done.maparray) (
          Each-map (λ z. IsBacked p.memory z × (z.addr ≢ x.addr → Disjoint x z))
            (IsBacked u.proc.memory) (clear x.addr) p.maparray
            (λ z both. clear-IsBacked p.memory u.proc.memory x done.freed used z both.0 both.1)
            (Each-both (IsBacked p.memory) (λ z. z.addr ≢ x.addr → Disjoint x z)
              (λ z. IsBacked p.memory z × (z.addr ≢ x.addr → Disjoint x z)) p.maparray
              (λ z b d. (b, d)) valid.backed (others_elsewhere p.maparray i x there valid.apart)));
      apart = subst Apart (sym done.maparray) (Apart-clear x.addr p.maparray valid.apart);
    }

unused-Apart : (l : List Mapping) → Each (λ x. x ≡ unused) l → Apart l
unused-Apart [] all = tt
unused-Apart (x ∷ rest) (here, all) = (
  Each-weaken (λ z. z ≡ unused) (Disjoint x) rest (λ z e. inr (inl (ap (λ (m : Mapping). m.len) e)))
      all,
  unused-Apart rest all,
)

-- In a process that starts without a mapping, makes mappings with MAP_ANON of a positive length below
-- 2 ^ 31 while an entry is left (with MAP_FIXED only at the address of a page, to end below KERNBASE),
-- and takes mappings away by the address and length of an entry: after every such sequence of calls
-- the entries of length 0 are cleared, every other lies between MMAPBASE and KERNBASE, starts with a
-- page and has all its pages present, and no two have a page in common.
pub Session-IsValid : (files : Files) (p : Process) → Session files p → IsValid p
Session-IsValid files p (start q none_used) = record {
  backed =
      Each-weaken (λ x. x ≡ unused) (IsBacked q.memory) q.maparray
        (λ x e. subst (IsBacked q.memory) (sym e) (unused-IsBacked q.memory)) none_used;
  apart = unused-Apart q.maparray none_used;
}
Session-IsValid files p
      (mapped before q addr length prot flags fd result s room anon used small address run) =
    Returns-ok
      (sys_mmap-IsValid files before addr length prot flags fd (Session-IsValid files before s) room
        anon used small address)
      (q, result) run
Session-IsValid files p (unmapped before x i u s found there anon used run) =
    Returns-ok
      (kmunmap-IsValid files before x i (Session-IsValid files before s) found there anon used) u
      run
