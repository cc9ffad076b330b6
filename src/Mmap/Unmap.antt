-- ===== src/Mmap/Unmap.antt =====
-- `kmunmap` of an anonymous mapping.
use hanlin.Base.{
  ℕ, ◌+◌, ◌*◌, ◌%◌, ◌≤◌, ◌<◌, ◌≡◌, refl, sym, ap, ◌∙◌, Bool, true, false, map, Option, none, some,
  if◌then◌else◌, arith, Returns, returns, ok, Returns->>=, subst, leb, ◌==◌, ◌&&◌, not, get_elem?,
  or_fault-some, out_of_bounds,
}
use hanlin.Mmap.{Memory, page_up, page_down, page_size, u32, deallocuvm, mmap_base, kern_base}
use hanlin.Mmap.Calls.{
  Files, Process, Mapping, Unmapped, WriteBack, is_anon, is_shared, write_back, unmap, kmunmap,
  clear, slot_of,
}
use hanlin.Mmap.Filling.{Filled}
use hanlin.Mmap.Undo.{end_page, deallocuvm-aligned}

-- The call succeeded, wrote no file, took the pages of the region away and cleared its entries.
pub record IsFreed (p : Process) (addr length : ℕ) (u : Unmapped) : Type 0 where
  pub success : u.success ≡ true
  pub written : u.written ≡ none
  pub freed : Filled p.memory u.proc.memory (page_down addr) (end_page addr length) none
  pub maparray : u.proc.maparray ≡ map (clear addr) p.maparray

-- A region between MMAPBASE and KERNBASE that starts with a page.
pub record IsRegion (addr length : ℕ) : Type 0 where
  pub low : mmap_base ≤ addr
  pub aligned : addr % 4096 ≡ 0
  pub below : addr + length < kern_base

deallocuvm-result : (m : Memory) (va size : ℕ) → (deallocuvm m (va + size) va).1 ≡ va
unfolding deallocuvm
deallocuvm-result m va size = by_test (leb (va + size) va) _ (λ nothing. ground arith)
  where
    by_test :
        (test : Bool) (next : Memory)
        → (test ≡ true → va + size ≡ va)
        → let result : Memory × ℕ = if test then (m, va + size) else (next, va) in result.1 ≡ va
    by_test true next nothing = nothing refl
    by_test false next nothing = refl

not_shared : (shared anon : Bool) → anon ≡ true → (shared && not anon) ≡ false
not_shared true true h = refl
not_shared false true h = refl
not_shared s false h = absurd cc

write_back-anon :
    (files : Files) (m : Memory) (x : Mapping) (length : ℕ)
    → is_anon x.flag ≡ true
    → write_back files m x length ≡ ok none
unfolding write_back
write_back-anon files m x length anon =
    rw (not_shared (is_shared x.flag) (is_anon x.flag) anon) refl

unmap-IsFreed :
    (p : Process) (va length : ℕ)
    → IsRegion va length
    → IsFreed p va length (unmap p va (page_up length * page_size) none)
unfolding unmap
unmap-IsFreed p va length region =
    by_test ((deallocuvm p.memory top va).1 == 0) _ _ (ap (λ r. r == 0) result ∙ positive) (record {
      success = refl;
      written = refl;
      freed =
          subst (λ b. Filled p.memory (deallocuvm p.memory top va).0 (page_down va) b none) same_end
            (deallocuvm-aligned p.memory va size top region.aligned
              (omega (arith, region.below, region.aligned)) (sym whole));
      maparray = refl;
    })
  where
    size : ℕ
    size = page_up length * page_size

    top : ℕ
    top = u32 (va + size)

    whole : top ≡ va + size
    whole = omega (arith, region.below, region.aligned)

    same_end : end_page va size ≡ end_page va length
    same_end = omega (arith, region.below, region.aligned)

    result : (deallocuvm p.memory top va).1 ≡ va
    result =
        subst (λ t. (deallocuvm p.memory t va).1 ≡ va) (sym whole)
          (deallocuvm-result p.memory va size)

    positive : (va == 0) ≡ false
    positive = ground (arith, region.low)

    by_test :
        (test : Bool) (failed done : Unmapped)
        → test ≡ false
        → IsFreed p va length done
        → IsFreed p va length (if test then failed else done)
    by_test true failed done differ freed = absurd cc
    by_test false failed done differ freed = freed

pub kmunmap-IsFreed :
    (files : Files) (p : Process) (x : Mapping) (i length : ℕ)
    → slot_of p.maparray x.addr ≡ some i
    → get_elem? p.maparray i ≡ some x
    → is_anon x.flag ≡ true
    → IsRegion x.addr length
    → Returns (IsFreed p x.addr length) (kmunmap files p x.addr length)
unfolding kmunmap
kmunmap-IsFreed files p x i length found there anon region =
    Returns->>= (or_fault-some out_of_bounds found) (λ j here.
      Returns->>= (or_fault-some out_of_bounds (ap (get_elem? p.maparray) here ∙ there))
        (λ y this. Returns->>= (nothing_written y this) (λ w e. returns (freed w e))))
  where
    rounded : ℕ
    rounded = page_up length * page_size

    nothing_written :
        (y : Mapping) → y ≡ x → Returns (λ w. w ≡ none) (write_back files p.memory y rounded)
    nothing_written y this =
        let same : is_anon y.flag ≡ true = ap (λ (m : Mapping). is_anon m.flag) this ∙ anon in
        rw (write_back-anon files p.memory y rounded same) (returns refl)

    freed : (w : Option WriteBack) → w ≡ none → IsFreed p x.addr length (unmap p x.addr rounded w)
    freed w e =
        subst (λ v. IsFreed p x.addr length (unmap p x.addr rounded v)) (sym e)
          (unmap-IsFreed p x.addr length region)
