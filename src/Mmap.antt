-- ===== src/Mmap.antt =====
-- The memory mappings of P5: vm.c. Addresses are 32-bit words; a page is named by its number, the
-- address divided by the page size. What `walkpgdir` reaches is a table for each 1024 pages, and an
-- entry for each page, which means nothing while its table is missing. Frames of the machine's memory
-- are only counted.
pub mod Calls
pub mod Fork
pub mod Growth
pub mod Regions
pub mod Filling
pub mod Pages
pub mod Undo
pub mod Slots
pub mod Anonymous
pub mod Unmap
pub mod RoundTrip
pub mod Valid
pub mod Backed
pub mod Session
pub mod Exit
mod Tests
use hanlin.Base.{
  ℕ, zero, suc, ◌+◌, ◌-◌, ◌*◌, ◌/◌, ◌%◌, ◌^◌, Bool, true, false, not, Option, none, some, ◌==◌, leb,
  ltb, if◌then◌else◌, Run, ok, exit, out_of_fuel, ◌>>=◌,
}

abbrev pub page_size : ℕ
page_size = 4096

abbrev pub mmap_base : ℕ
mmap_base = 1610612736

abbrev pub kern_base : ℕ
kern_base = 2147483648

abbrev pub u32 : ℕ → ℕ
u32 n = n % 2 ^ 32

-- PGROUNDDOWN and PGROUNDUP, divided by the page size
abbrev pub page_down : ℕ → ℕ
page_down address = address / 4096

abbrev pub page_up : ℕ → ℕ
page_up address = u32 (address + 4095) / 4096

-- A present page: its flags and its bytes.
pub record Page : Type 0 where
  pub flags : ℕ
  pub bytes : ℕ → ℕ

-- `frames` is the number of frames that `kalloc` can still give.
pub record Memory : Type 0 where
  pub frames : ℕ
  pub tables : ℕ → Bool
  pub pages : ℕ → Option Page

-- PDX, of the number of a page
abbrev pub directory_index : ℕ → ℕ
directory_index p = p / 1024

unfoldable pub kalloc : Memory → Option Memory
kalloc m = if m.frames == 0 then none else some (record m { frames = m.frames - 1 })

unfoldable pub kfree : Memory → Memory
kfree m = record m { frames = m.frames + 1 }

-- A new page table, with all its entries zero.
unfoldable pub with_table : Memory → ℕ → Memory
with_table m d = record m {
  tables = λ e. if e == d then true else m.tables e;
  pages = λ p. if directory_index p == d then none else m.pages p;
}

-- `walkpgdir` with `alloc` set; `none` is its null pointer.
unfoldable pub walkpgdir : Memory → ℕ → Option Memory
unfolding kalloc with_table
walkpgdir m p =
    if m.tables (directory_index p)
    then some m
    else elim (kalloc m) [ none ↦ none | some taken ↦ some (with_table taken (directory_index p)) ]

-- What `walkpgdir` without `alloc` finds for a page.
unfoldable pub entry : Memory → ℕ → Option Page
entry m p = if m.tables (directory_index p) then m.pages p else none

abbrev pub is_present : Option Page → Bool
is_present none = false
is_present (some page) = true

unfoldable pub set_entry : Memory → ℕ → Option Page → Memory
set_entry m p value = record m { pages = λ q. if q == p then value else m.pages q }

-- The loop of `deallocuvm`, from page `a` to before page `last`.
unfoldable pub free_pages : ℕ → Memory → ℕ → ℕ → Memory
unfolding entry kfree set_entry
free_pages zero m a last = m
free_pages (suc fuel) m a last =
    let next_table = free_pages fuel m ((directory_index a + 1) * 1024 % 2 ^ 20) last in
    let next = free_pages fuel m (a + 1) last in
    let freed = free_pages fuel (set_entry (kfree m) a none) (a + 1) last in
    if not (ltb a last)
    then m
    else if not (m.tables (directory_index a))
    then next_table
    else if is_present (m.pages a)
    then freed
    else next

-- `deallocuvm`, with the size it returns.
unfoldable pub deallocuvm : Memory → ℕ → ℕ → Memory × ℕ
unfolding free_pages
deallocuvm m old_size new_size =
    if leb old_size new_size
    then (m, old_size)
    else (free_pages (2 ^ 20) m (page_up new_size) ((old_size + 4095) / 4096), new_size)

-- A page that `memset` has cleared.
abbrev pub fresh : ℕ → Page
fresh perm = record { flags = perm; bytes = λ i. 0 }

-- The end of `mappages` for one page.
unfoldable pub install : Memory → ℕ → Page → Run (Memory × Bool)
unfolding set_entry
install m a page = if is_present (m.pages a) then exit else ok (set_entry m a (some page), true)

-- A frame with the contents of `page` is mapped as page `a`: `false` is a failure.
unfoldable pub map_page : Memory → ℕ → Page → Run (Memory × Bool)
unfolding kalloc walkpgdir kfree install
map_page m a page = elim (kalloc m) [
  | none ↦ ok (m, false)
  | some taken ↦ elim (walkpgdir taken a) [
    | none ↦ ok (kfree taken, false)
    | some walked ↦ install walked a page
  ]
]

unfoldable pub map_loop : ℕ → Memory → ℕ → ℕ → Run (Memory × Bool)
unfolding map_page
map_loop zero m a perm = ok (m, true)
map_loop (suc n) m a perm = map_page m a (fresh perm) >>= λ done. elim done.1 [
  | true ↦ map_loop n done.0 (a + 1) perm
  | false ↦ ok done
]

-- `map_pages`; the null pointer is 0.
unfoldable pub map_pages : Memory → ℕ → ℕ → ℕ → Run (Memory × ℕ)
unfolding map_loop deallocuvm
map_pages m va size perm =
    map_loop (page_up (u32 (va + size)) - page_down va) m (page_down va) perm >>= λ done.
    if done.1 then ok (done.0, va) else ok ((deallocuvm done.0 (u32 (va + size)) va).0, 0)

unfoldable pub map_one_pages : Memory → ℕ → ℕ → Run (Memory × Option ℕ)
unfolding map_page deallocuvm
map_one_pages m va perm = map_page m (page_down va) (fresh perm) >>= λ done.
    if done.1 then ok (done.0, some va) else ok ((deallocuvm done.0 va va).0, none)

-- The loop of `is_region_free` over `n` pages.
unfoldable pub free_loop : ℕ → Memory → ℕ → Bool
unfolding entry
free_loop zero m a = true
free_loop (suc n) m a =
    let rest = free_loop n m (a + 1) in if is_present (entry m a) then false else rest

unfoldable pub is_region_free : Memory → ℕ → ℕ → Bool
unfolding free_loop
is_region_free m va size = free_loop (page_up (u32 (va + size)) - page_down va) m (page_down va)

-- The loop of `find_free_region` from `a` on.
unfoldable pub find_loop : ℕ → Memory → ℕ → ℕ → Run ℕ
unfolding is_region_free
find_loop zero m size a = out_of_fuel
find_loop (suc fuel) m size a =
    let rest = find_loop fuel m size (u32 (a + page_size)) in
    if not (ltb (u32 (a + size)) kern_base)
    then ok 0
    else if is_region_free m a size
    then ok a
    else rest

unfoldable pub find_free_region : Memory → ℕ → Run ℕ
unfolding find_loop
find_free_region m size = find_loop 131073 m size mmap_base

-- The loop of `copyrange` over `n` pages from page `a` on. The two page tables take their frames from
-- the same memory, which `target` counts.
unfoldable pub copy_loop : ℕ → Memory → Memory → ℕ → Run (Memory × Bool)
unfolding entry map_page
copy_loop zero source target a = ok (target, true)
copy_loop (suc n) source target a = elim (entry source a) [
  | none ↦ copy_loop n source target (a + 1)
  | some page ↦ map_page target a page >>= λ done. elim done.1 [
    | true ↦ copy_loop n source done.0 (a + 1)
    | false ↦ ok done
  ]
]

-- `copyrange` between page addresses.
unfoldable pub copyrange : Memory → Memory → ℕ → ℕ → Run (Memory × Bool)
unfolding copy_loop
copyrange source target start end =
    copy_loop (page_up end - page_down start) source target (page_down start)
