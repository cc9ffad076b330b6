-- ===== src/Wfs/Fsck.antt =====
-- private/P7/fsck.wfs.c, on the bytes of the mapped image. A pointer is an offset from `disk`; an access
-- behind the end of the mapping is a fault. The two functions that scan the log stand in mount.wfs.c
-- too, where they are modelled on the list of entries.
pub mod Scan
pub mod Ordered
pub mod Rounds
pub mod Compact
mod Tests
use hanlin.Base.{
  ℕ, zero, suc, ◌+◌, ◌-◌, ◌*◌, ◌/◌, ◌%◌, true, false, ◌&&◌, Option, none, some, leb, ltb, ◌==◌,
  if◌then◌else◌, Run, ok, fault, out_of_bounds, out_of_fuel, ◌>>=◌,
}
use hanlin.Wfs.Disk.{u32, inode_size, superblock_size}

-- The mapping: its bytes, and `sb.st_size`.
pub record Image : Type 0 where
  pub bytes : ℕ → ℕ
  pub st_size : ℕ

-- The `unsigned int` at address `a`.
abbrev pub word : (ℕ → ℕ) → ℕ → ℕ
word bytes a = bytes a + 256 * (bytes (a + 1) + 256 * (bytes (a + 2) + 256 * bytes (a + 3)))

-- `superblock->head`
abbrev pub head : Image → ℕ
head m = word m.bytes 4

-- The three fields of an inode that a scan reads.
pub record Seen : Type 0 where
  pub number : ℕ
  pub deleted : ℕ
  pub size : ℕ

unfoldable pub read_inode : Image → ℕ → Run Seen
read_inode m ptr =
    if leb (ptr + 28) m.st_size
    then ok (record {
      number = word m.bytes ptr;
      deleted = word m.bytes (ptr + 4);
      size = word m.bytes (ptr + 24);
    })
    else fault out_of_bounds

-- The loop of `inodenum_to_logentry` from `ptr` on.
unfoldable pub scan_log : ℕ → Image → ℕ → ℕ → Option ℕ → Run (Option ℕ)
unfolding read_inode
scan_log zero m ino ptr final = out_of_fuel
scan_log (suc fuel) m ino ptr final = elim (ltb ptr (head m)) [
  | false ↦ ok final
  | true ↦ read_inode m ptr >>= λ lep.
      scan_log fuel m ino (ptr + inode_size + lep.size)
        (if lep.number == ino && lep.deleted == 0 then some ptr else final)
]

unfoldable pub logentry_address : Image → ℕ → Run (Option ℕ)
unfolding scan_log
logentry_address m ino = scan_log (head m + 1) m ino superblock_size none

-- The loop of `find_max_inodenum` from `ptr` on.
unfoldable pub scan_max : ℕ → Image → ℕ → ℕ → Run ℕ
unfolding read_inode
scan_max zero m ptr inodenum = out_of_fuel
scan_max (suc fuel) m ptr inodenum = elim (ltb ptr (head m)) [
  | false ↦ ok inodenum
  | true ↦ read_inode m ptr >>= λ lep.
      scan_max fuel m (ptr + inode_size + lep.size)
        (if ltb inodenum lep.number && lep.deleted == 0 then lep.number else inodenum)
]

unfoldable pub max_inodenum : Image → Run ℕ
unfolding scan_max
max_inodenum m = scan_max (head m + 1) m superblock_size 0

-- `memmove(disk + target, disk + source, count)`
unfoldable pub memmove : Image → ℕ → ℕ → ℕ → Run Image
memmove m target source count =
    if leb (source + count) m.st_size && leb (target + count) m.st_size
    then ok (record m {
      bytes = λ x.
          if leb target x && ltb x (target + count)
          then m.bytes (source + (x - target))
          else m.bytes x;
    })
    else fault out_of_bounds

-- The body of the loop of `main`, and `ptr` after it.
unfoldable pub move_entry : Image → ℕ → Option ℕ → Run (Image × ℕ)
unfolding read_inode memmove
move_entry m ptr none = ok (m, ptr)
move_entry m ptr (some entry) = read_inode m entry >>= λ lep.
    memmove m ptr entry (inode_size + lep.size) >>= λ moved.
    ok (moved, ptr + (inode_size + lep.size))

-- The loop of `main` from inode `i` on.
unfoldable pub compact : ℕ → Image → ℕ → ℕ → Run (Image × ℕ)
unfolding max_inodenum logentry_address move_entry
compact zero m i ptr = out_of_fuel
compact (suc fuel) m i ptr =
    let rest = logentry_address m i >>= λ entry.
    move_entry m ptr entry >>= λ done. compact fuel done.0 (u32 (i + 1)) done.1 in
    max_inodenum m >>= λ last. if leb i last then rest else ok (m, ptr)

-- The `unsigned int` at address `a` set to `v`.
unfoldable pub store_word : (ℕ → ℕ) → ℕ → ℕ → ℕ → ℕ
store_word bytes a v x =
    if x == a
    then v % 256
    else if x == a + 1
    then v / 256 % 256
    else if x == a + 2
    then v / 256 / 256 % 256
    else if x == a + 3
    then v / 256 / 256 / 256 % 256
    else bytes x

-- What follows the loop: the rest is cleared, and the new head is stored. A `ptr` behind the end makes
-- the length of `memset` negative, which is a huge `size_t`.
unfoldable pub finish : Image → ℕ → Run Image
unfolding store_word
finish m ptr =
    if leb ptr m.st_size
    then ok (record m {
      bytes = store_word (λ x. if leb ptr x && ltb x m.st_size then 0 else m.bytes x) 4 ptr;
    })
    else fault out_of_bounds

-- `main` on the mapped image, with `fuel` rounds of its loop.
unfoldable pub fsck : ℕ → Image → Run Image
unfolding compact finish
fsck fuel m = compact fuel m 0 superblock_size >>= λ done. finish done.0 done.1
