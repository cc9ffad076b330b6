-- ===== src/Wfs/Ops.antt =====
-- mount.wfs.c: the operations that look up, make, read and write. The time and the user are arguments.
use Prim.Native.Nat.{bit_or}
use hanlin.Base.{
  ℕ, zero, suc, ◌+◌, ◌-◌, List, [], ◌∷◌, ◌++◌, none, some, ltb, ◌==◌, if◌then◌else◌, length, take,
  drop, Run, ok, fault, null_dereference, buffer_overflow, out_of_bounds, ◌>>=◌, or_fault, ℤ, pos,
  negsuc,
}
use hanlin.Wfs.Disk.{
  Inode, Entry, Disk, entry_at, inode_size, dentry_size, u32, find_max_inodenum, to_bytes,
  name_to_inodenum, path_to_logentry, path_to_parent_logentry, path_to_file_name,
}

-- The error codes that the operations return.
pub data Errno : Type 0 where
  enoent eexist enospc enonet : Errno

pub data Reply {ℓ} (A : Type ℓ) : Type ℓ where
  success : A → Reply A
  failed : Errno → Reply A

-- The `n` bytes from address `a` on.
unfoldable pub bytes_at : (ℕ → ℕ) → ℕ → ℕ → List ℕ
bytes_at f a zero = []
bytes_at f a (suc n) = f a ∷ bytes_at f (a + 1) n

-- The memory `f` with `bytes` written at address `a`.
unfoldable pub overlay : (ℕ → ℕ) → ℕ → List ℕ → ℕ → ℕ
overlay f a [] x = f x
overlay f a (b ∷ bytes) x = if x == a then b else overlay f (a + 1) bytes x

-- A new entry at `head`.
unfoldable pub append : Disk → Entry → Disk
append d e = record d { log = d.log ++ (e ∷ []); head = u32 (d.head + inode_size + e.inode.size) }

-- The directory entry that is written at address `a`: strcpy writes the name and its NUL, and leaves
-- what was in the rest of the 32 bytes.
unfoldable pub new_dentry : (ℕ → ℕ) → ℕ → List ℕ → ℕ → List ℕ
unfolding bytes_at
new_dentry free a name ino =
    (name ++ (0 ∷ bytes_at free (a + length name + 1) (31 - length name))) ++ to_bytes 8 ino

-- The new version of a directory, with one more directory entry.
unfoldable pub with_dentry : Disk → Entry → List ℕ → ℕ → Entry
unfolding new_dentry
with_dentry d dir name ino = record {
  inode = record (dir.inode) { size = u32 (dir.inode.size + dentry_size) };
  contents = dir.contents ++ new_dentry d.free (d.head + inode_size + dir.inode.size) name ino;
}

-- The entry of a new file or directory.
abbrev pub fresh_entry : ℕ → ℕ → ℕ → ℕ → Entry
fresh_entry ino mode uid now = record {
  inode = record {
    inode_number = ino;
    deleted = 0;
    mode = mode;
    uid = uid;
    gid = uid;
    flags = 0;
    size = 0;
    atime = now;
    mtime = now;
    ctime = now;
    links = 1;
  };
  contents = [];
}

-- What `wfs_mknod` and `wfs_mkdir` do alike, on the mode that they store. A name that does not fit its
-- 32 bytes overruns them.
unfoldable pub make_node : Disk → List ℕ → ℕ → ℕ → ℕ → Run (Reply (Unit {0}) × Disk)
unfolding append with_dentry
make_node d path mode uid now = do
  found ← path_to_parent_logentry d path
  file_name ← or_fault (path_to_file_name path) null_dereference
  parent ← or_fault found null_dereference
  let parent_log = entry_at d parent
  let new_inodenum = u32 (find_max_inodenum d + 1)
  elim (name_to_inodenum file_name parent_log) [
    | some n ↦ ok (failed eexist, d)
    | none ↦
        if ltb d.max_head
          (u32 (d.head + u32 (inode_size + parent_log.inode.size + dentry_size + inode_size)))
        then ok (failed enospc, d)
        else if ltb 31 (length file_name)
        then fault buffer_overflow
        else ok (
          success tt,
          append (append d (with_dentry d parent_log file_name new_inodenum))
              (fresh_entry new_inodenum mode uid now),
        )
  ]

-- S_IFREG and S_IFDIR
abbrev pub s_ifreg : ℕ
s_ifreg = 0x8000

abbrev pub s_ifdir : ℕ
s_ifdir = 0x4000

unfoldable pub wfs_mknod : Disk → List ℕ → ℕ → ℕ → ℕ → Run (Reply (Unit {0}) × Disk)
unfolding make_node
wfs_mknod d path mode uid now = make_node d path (bit_or mode s_ifreg) uid now

unfoldable pub wfs_mkdir : Disk → List ℕ → ℕ → ℕ → ℕ → Run (Reply (Unit {0}) × Disk)
unfolding make_node
wfs_mkdir d path mode uid now = make_node d path (bit_or s_ifdir mode) uid now

-- `wfs_getattr`: the inode whose fields it copies.
unfoldable pub wfs_getattr : Disk → List ℕ → Reply Inode
wfs_getattr d path = elim (path_to_logentry d path) [
  | none ↦ failed enoent
  | some i ↦ success (entry_at d i).inode
]

-- The bytes that `wfs_read` copies out; it returns their number.
unfoldable pub read_entry : Entry → ℕ → ℕ → List ℕ
read_entry e size offset =
    let len = e.inode.size in
    if ltb offset len
    then take (if ltb len (offset + size) then len - offset else size) (drop offset e.contents)
    else []

unfoldable pub wfs_read : Disk → List ℕ → ℕ → ℕ → Reply (List ℕ)
unfolding read_entry
wfs_read d path size offset = elim (path_to_logentry d path) [
  | none ↦ failed enoent
  | some i ↦ success (read_entry (entry_at d i) size offset)
]

-- The size that `wfs_write` gives the new version: an `unsigned int`.
unfoldable pub grown_size : Entry → ℕ → ℕ → ℕ
grown_size e size offset =
    if ltb e.inode.size (offset + size) then u32 (offset + size) else e.inode.size

-- The new version: the old bytes, then what was on the disk, with the written bytes over them.
unfoldable pub written : Disk → Entry → List ℕ → ℕ → ℕ → Entry
unfolding grown_size bytes_at
written d e buf offset now =
    let new_size = grown_size e (length buf) offset in
    let copied =
      e.contents
      ++ bytes_at d.free (d.head + inode_size + e.inode.size) (new_size - e.inode.size) in
    record {
      inode = record (e.inode) { size = new_size; mtime = now };
      contents = (take offset copied ++ buf) ++ drop (offset + length buf) copied;
    }

-- `wfs_write` of the bytes `buf`; a copy past the mapping is undefined.
unfoldable pub wfs_write : Disk → List ℕ → List ℕ → ℤ → ℕ → Run (Reply ℕ × Disk)
unfolding append written grown_size
wfs_write d path buf (negsuc n) now = ok (success 0, d)
wfs_write d path buf (pos offset) now = elim (path_to_logentry d path) [
  | none ↦ ok (failed enoent, d)
  | some i ↦
      let old_log = entry_at d i in
      if ltb d.max_head (u32 (d.head + inode_size + grown_size old_log (length buf) offset))
      then ok (failed enospc, d)
      else if ltb d.max_head (d.head + inode_size + offset + length buf)
      then fault out_of_bounds
      else ok (success (length buf), append d (written d old_log buf offset now))
]
