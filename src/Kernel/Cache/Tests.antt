-- ===== src/Kernel/Cache/Tests.antt =====
-- A cache of two buffers: the theorem, and a run.
use hanlin.Base.{ℕ, ◌≡◌, ◌⊎◌, refl, true, false, List, [], ◌∷◌, some, none, Run, ok, exit, arith}
use hanlin.Kernel.Cache.{Buf, Cache, binit, lookup, bread, pin}
use hanlin.Kernel.Cache.Transparent.{AllBusy}
use hanlin.Kernel.Cache.Session.{Session, start, reads, pins, set_block, bread_refines}

abbrev disk : ℕ → ℕ → List ℕ
disk d n = n ∷ []

abbrev empty_cache : Cache
empty_cache = record { bufs = binit 2; disk = disk }

abbrev cache_of : Run Cache → Cache
cache_of (ok c) = c
cache_of m = empty_cache

abbrev seven : Buf
seven = record {
  dev = 1;
  blockno = 7;
  refcnt = 1;
  is_valid = true;
  is_dirty = false;
  contents = 7 ∷ [];
}

abbrev after_read : Cache
after_read = cache_of (bread empty_cache 1 7)

-- Block 7 is read and changed.
abbrev after_pin : Cache
after_pin = pin after_read 1 7 (8 ∷ [])

after_read-Session : Session after_read disk
unfolding bread binit
after_read-Session = reads empty_cache after_read disk 1 7 (start 2 disk) (λ e. omega arith) refl

after_pin-Session : Session after_pin (set_block disk 1 7 (8 ∷ []))
unfolding bread binit pin
after_pin-Session =
    pins after_read disk 1 7 (8 ∷ []) seven after_read-Session (λ e. omega arith) refl refl

bread_refines_example :
    ((c' : Cache) × (b : Buf) × (bread after_pin 1 9 ≡ ok c')
      × (lookup 1 9 c'.bufs ≡ some b)
      × (b.is_valid ≡ true)
      × (b.contents ≡ set_block disk 1 7 (8 ∷ []) 1 9))
    ⊎ ((bread after_pin 1 9 ≡ exit) × (lookup 1 9 after_pin.bufs ≡ none) × AllBusy after_pin.bufs)
bread_refines_example =
    bread_refines after_pin (set_block disk 1 7 (8 ∷ [])) 1 9 after_pin-Session (λ e. omega arith)
