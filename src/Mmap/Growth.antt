-- ===== src/Mmap/Growth.antt =====
-- The page fault of P5: the case T_PGFLT of `trap` in trap.c.
use hanlin.Base.{
  ℕ, ◌+◌, ◌-◌, ◌*◌, ◌^◌, Bool, true, false, not, ◌||◌, leb, ltb, if◌then◌else◌, get_elem?, set, Run,
  ok, ◌>>=◌, or_fault, out_of_bounds,
}
use hanlin.Mmap.{
  Memory, u32, page_size, page_down, mmap_base, kern_base, map_one_pages, is_region_free,
}
use hanlin.Mmap.Calls.{Process, Mapping, slot_of, is_growsup, user_writable}

-- A process after a page fault, whether `killed` was set, and whether the fault counts as handled.
pub record Faulted : Type 0 where
  pub proc : Process
  pub killed : Bool
  pub correct : Bool

-- The guards in front of the search: each sets `killed`, and the handler goes on.
unfoldable pub is_bad_fault : Memory → ℕ → Bool
unfolding is_region_free
is_bad_fault m ftaddr =
    (leb kern_base ftaddr || ltb ftaddr mmap_base)
    || not (is_region_free m (u32 (ftaddr + page_size)) 1)
    || is_region_free m (u32 (ftaddr + 2 ^ 32 - page_size)) 1

-- A mapping with MAP_GROWSUP gets the page of the fault.
unfoldable pub grow : Process → ℕ → ℕ → Mapping → Run Faulted
unfolding is_bad_fault map_one_pages
grow p ftaddr i x = map_one_pages p.memory ftaddr user_writable >>= λ done. ok (record {
  proc = record {
    memory = done.0;
    maparray = set p.maparray i (record x { len = u32 (x.len + page_size) });
  };
  killed = is_bad_fault p.memory ftaddr;
  correct = true;
})

-- What the handler does with the entry that it finds.
unfoldable pub after_search : Process → ℕ → ℕ → Mapping → Run Faulted
unfolding grow
after_search p ftaddr i x =
    if is_growsup x.flag
    then grow p ftaddr i x
    else ok (record { proc = p; killed = true; correct = false })

-- `rdaddr`
abbrev pub page_below : ℕ → ℕ
page_below ftaddr = page_down (u32 (ftaddr + 2 ^ 32 - page_size)) * page_size

-- The case T_PGFLT of `trap`: the search is for a mapping that starts one page below the fault.
unfoldable pub page_fault : Process → ℕ → Run Faulted
unfolding slot_of after_search
page_fault p ftaddr = do
  i ← or_fault (slot_of p.maparray (page_below ftaddr)) out_of_bounds
  x ← or_fault (get_elem? p.maparray i) out_of_bounds
  after_search p ftaddr i x
