-- ===== src/Mmap/Calls.antt =====
-- The calls of P5: `mmap` and `kmunmap` of proc.c, `sys_mmap` and `sys_munmap` of sysproc.c.
-- An argument `files` stands for the open files: for each descriptor, what
-- `fileread` leaves in a buffer. An `int` argument is the word that it shares its bits with.
use hanlin.Base.{
  ℕ, suc, ◌+◌, ◌-◌, ◌*◌, ◌/◌, ◌%◌, Bool, true, false, not, ◌&&◌, ◌||◌, List, [], ◌∷◌, map, Option,
  none, some, ◌==◌, leb, ltb, if◌then◌else◌, get_elem?, set, Run, ok, fault, ◌>>=◌, or_fault,
  out_of_bounds, null_dereference, buffer_overflow,
}
use hanlin.Mmap.{
  Memory, u32, page_size, page_down, page_up, mmap_base, kern_base, entry, map_pages,
  is_region_free, find_free_region, deallocuvm,
}

-- One entry of `maparray`.
pub record Mapping : Type 0 where
  pub addr : ℕ
  pub flag : ℕ
  pub len : ℕ
  pub prot : ℕ
  pub fd : ℕ

pub record Process : Type 0 where
  pub memory : Memory
  pub maparray : List Mapping

abbrev pub Files : Type 0
Files = ℕ → Option (ℕ → ℕ)

-- Tests of one bit: MAP_SHARED, MAP_ANON, MAP_FIXED and MAP_GROWSUP.
abbrev pub has_bit : ℕ → ℕ → Bool
has_bit flags bit = not (flags / bit % 2 == 0)

abbrev pub is_shared : ℕ → Bool
is_shared flags = has_bit flags 2

abbrev pub is_anon : ℕ → Bool
is_anon flags = has_bit flags 4

abbrev pub is_fixed : ℕ → Bool
is_fixed flags = has_bit flags 8

abbrev pub is_growsup : ℕ → Bool
is_growsup flags = has_bit flags 16

-- NOFILE, and the size of the stack of the kernel, where `buffer[length]` lies
abbrev pub n_ofile : ℕ
n_ofile = 16

abbrev pub kstack_size : ℕ
kstack_size = 4096

-- PTE_W | PTE_U
abbrev pub user_writable : ℕ
user_writable = 6

-- `myproc()->ofile[fd]`, with its bounds.
unfoldable pub open_file : Files → ℕ → Option (ℕ → ℕ)
open_file files fd = if ltb fd n_ofile then files fd else none

-- `memmove` of the first `count` bytes of a buffer to address `va`.
unfoldable pub fill_pages : Memory → ℕ → ℕ → (ℕ → ℕ) → Memory
fill_pages m va count buffer = record m {
  pages = λ p. elim (m.pages p) [
    | none ↦ none
    | some page ↦ some (record page {
      bytes = λ o.
          let address = p * page_size + o in
          if leb va address && ltb address (va + count)
          then buffer (address - va)
          else page.bytes o;
    })
  ];
}

-- Where the pages are mapped, and the result of mapping them; `none` is (void *) -1.
unfoldable pub map_at : Memory → ℕ → ℕ → Run (Memory × Option ℕ)
unfolding map_pages
map_at m va length = map_pages m va length user_writable >>= λ done.
    ok (done.0, if done.1 == 0 then none else some done.1)

unfoldable pub map_anywhere : Memory → ℕ → Run (Memory × Option ℕ)
unfolding find_free_region map_at
map_anywhere m length =
    find_free_region m length >>= λ va. if va == 0 then ok (m, none) else map_at m va length

unfoldable pub map_somewhere : Memory → ℕ → ℕ → ℕ → Run (Memory × Option ℕ)
unfolding map_at map_anywhere
map_somewhere m addr length flags =
    if is_fixed flags then map_at m addr length else map_anywhere m length

-- The file's bytes go to the mapped pages through a buffer on the stack.
unfoldable pub fill : Memory × Option ℕ → ℕ → (ℕ → ℕ) → Run (Memory × Option ℕ)
unfolding fill_pages
fill (m, none) length buffer = ok (m, none)
fill (m, some va) length buffer =
    if leb kstack_size length
    then fault buffer_overflow
    else ok (fill_pages m va length buffer, some va)

unfoldable pub map_file : Memory → Option (ℕ → ℕ) → ℕ → ℕ → ℕ → Run (Memory × Option ℕ)
unfolding map_somewhere fill
map_file m none addr length flags = ok (m, none)
map_file m (some buffer) addr length flags =
    map_somewhere m addr length flags >>= λ done. fill done length buffer

-- `mmap`. A negative `(int)addr` is below MMAPBASE.
unfoldable pub mmap : Files → Memory → ℕ → ℕ → ℕ → ℕ → Run (Memory × Option ℕ)
unfolding map_somewhere map_file open_file is_region_free
mmap files m addr length flags fd =
    if is_fixed flags && (leb kern_base addr || ltb addr mmap_base)
    then ok (m, none)
    else if is_fixed flags && not (is_region_free m addr length)
    then ok (m, none)
    else if is_anon flags
    then map_somewhere m addr length flags
    else map_file m (open_file files fd) addr length flags

-- The first entry of length 0, and the first with address `addr`.
unfoldable pub unused_slot : List Mapping → Option ℕ
unused_slot [] = none
unused_slot (x ∷ rest) =
    let later : Option ℕ = elim (unused_slot rest) [ none ↦ none | some i ↦ some (suc i) ] in
    if x.len == 0 then some 0 else later

unfoldable pub slot_of : List Mapping → ℕ → Option ℕ
slot_of [] addr = none
slot_of (x ∷ rest) addr =
    let later : Option ℕ = elim (slot_of rest addr) [ none ↦ none | some i ↦ some (suc i) ] in
    if x.addr == addr then some 0 else later

unfoldable pub note_mapping : Process → Memory → Option ℕ → Mapping → Run (Process × Option ℕ)
unfolding unused_slot
note_mapping p m none x = ok (record p { memory = m }, none)
note_mapping p m (some va) x = do
  i ← or_fault (unused_slot p.maparray) out_of_bounds
  ok (record { memory = m; maparray = set p.maparray i (record x { addr = va }) }, some va)

-- `sys_mmap`. Its loop runs out of `maparray` when every entry is in use.
unfoldable pub sys_mmap : Files → Process → ℕ → ℕ → ℕ → ℕ → ℕ → Run (Process × Option ℕ)
unfolding mmap note_mapping
sys_mmap files p addr length prot flags fd = mmap files p.memory addr length flags fd >>= λ done.
    note_mapping p done.0 done.1
      (record { addr = 0; flag = flags; len = length; prot = prot; fd = fd })

-- The byte at an address, when its page is present.
unfoldable pub user_byte : Memory → ℕ → Option ℕ
unfolding entry
user_byte m address = elim (entry m (page_down address)) [
  | none ↦ none
  | some page ↦ some (page.bytes (address % page_size))
]

-- The call of `filewrite` for a shared mapping: the descriptor, how many bytes, and which.
pub record WriteBack : Type 0 where
  pub fd : ℕ
  pub count : ℕ
  pub bytes : ℕ → Option ℕ

unfoldable pub write_back : Files → Memory → Mapping → ℕ → Run (Option WriteBack)
unfolding open_file user_byte
write_back files m x length =
    if is_shared x.flag && not (is_anon x.flag)
    then elim (open_file files x.fd) [
      | none ↦ fault null_dereference
      | some buffer ↦
          if leb kstack_size length
          then fault buffer_overflow
          else ok (
              some (record {
                fd = x.fd;
                count = x.len;
                bytes = λ i. if ltb i length then user_byte m (x.addr + i) else none;
              }))
    ]
    else ok none

abbrev pub unused : Mapping
unused = record { addr = 0; flag = 0; len = 0; prot = 0; fd = 0 }

unfoldable pub clear : ℕ → Mapping → Mapping
clear addr x = if x.addr == addr then unused else x

-- What a process is after `kmunmap`, whether it succeeded, and what was written to a file.
pub record Unmapped : Type 0 where
  pub proc : Process
  pub success : Bool
  pub written : Option WriteBack

-- The part of `kmunmap` behind the write to the file.
unfoldable pub unmap : Process → ℕ → ℕ → Option WriteBack → Unmapped
unfolding deallocuvm clear
unmap p addr length written =
    let freed = deallocuvm p.memory (u32 (addr + length)) addr in
    if freed.1 == 0
    then record { proc = record p { memory = freed.0 }; success = false; written = written }
    else record {
      proc = record { memory = freed.0; maparray = map (clear addr) p.maparray };
      success = true;
      written = written;
    }

-- `kmunmap`, and `sys_munmap`, which has the same statements. The code reads the entry behind the
-- last one when no entry has the address.
unfoldable pub kmunmap : Files → Process → ℕ → ℕ → Run Unmapped
unfolding slot_of write_back unmap
kmunmap files p addr length = do
  i ← or_fault (slot_of p.maparray addr) out_of_bounds
  x ← or_fault (get_elem? p.maparray i) out_of_bounds
  written ← write_back files p.memory x (page_up length * page_size)
  ok (unmap p addr (page_up length * page_size) written)
