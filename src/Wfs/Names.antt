-- ===== src/Wfs/Names.antt =====
-- mount.wfs.c: `wfs_readdir` and `wfs_unlink`, and mkfs.wfs.c. The time is an argument.
use hanlin.Base.{
  ℕ, zero, suc, ◌+◌, ◌-◌, ◌^◌, List, [], ◌∷◌, ◌++◌, Option, none, some, ltb, ◌==◌, if◌then◌else◌,
  set, take, drop, Run, ok, fault, null_dereference, out_of_bounds, ◌>>=◌, or_fault,
}
use hanlin.Wfs.Disk.{
  Inode, Entry, Disk, entry_at, inode_size, dentry_size, superblock_size, u32, inodenum_to_logentry,
  to_bytes, dentry_name, dentry_inode, steps, path_to_logentry, path_to_parent_logentry,
}
use hanlin.Wfs.Ops.{
  Reply, success, failed, enoent, enospc, enonet, append, overlay, fresh_entry, s_ifdir,
}

-- The loop of `wfs_readdir`: a name, an inode number and a mode for each directory entry whose inode
-- is not deleted.
unfoldable pub list_dentries : Disk → ℕ → List ℕ → List (List ℕ × ℕ × ℕ)
list_dentries d zero s = []
list_dentries d (suc n) s =
    let rest = list_dentries d n (drop dentry_size s) in
    elim (inodenum_to_logentry d (u32 (dentry_inode s))) [
      | none ↦ rest
      | some i ↦ (dentry_name s, dentry_inode s, (entry_at d i).inode.mode) ∷ rest
    ]

unfoldable pub wfs_readdir : Disk → List ℕ → Run (Reply (List (List ℕ × ℕ × ℕ)))
unfolding list_dentries
wfs_readdir d path = do
  found ← path_to_parent_logentry d path
  elim (path_to_logentry d path) [
    | none ↦ ok (failed enoent)
    | some i ↦ do
      parent ← or_fault found null_dereference
      let l = entry_at d i
      ok (
          success (
            (46 ∷ [], l.inode.inode_number, l.inode.mode)
            ∷ (46 ∷ 46 ∷ [], (entry_at d parent).inode.inode_number, l.inode.mode)
            ∷ list_dentries d (steps l.inode.size) l.contents))
  ]

-- `delete_dentry`: the bytes with the first entry of that inode number taken out; `none` is -1.
unfoldable pub delete_dentry : ℕ → ℕ → List ℕ → Option (List ℕ)
delete_dentry ino zero s = none
delete_dentry ino (suc n) s =
    let rest = delete_dentry ino n (drop dentry_size s) in
    if dentry_inode s == ino
    then some (drop dentry_size s)
    else elim rest [ none ↦ none | some r ↦ some (take dentry_size s ++ r) ]

-- An inode as it lies on the disk.
unfoldable pub inode_bytes : Inode → List ℕ
inode_bytes i =
    to_bytes 4 i.inode_number
    ++ (to_bytes 4 i.deleted
        ++ (to_bytes 4 i.mode
            ++ (to_bytes 4 i.uid
                ++ (to_bytes 4 i.gid
                    ++ (to_bytes 4 i.flags
                        ++ (to_bytes 4 i.size
                            ++ (to_bytes 4 i.atime
                                ++ (to_bytes 4 i.mtime
                                    ++ (to_bytes 4 i.ctime ++ to_bytes 4 i.links)))))))))

abbrev pub mark_deleted : Entry → Entry
mark_deleted e = record e { inode = record (e.inode) { deleted = 1 } }

-- The new version of the directory; the last 40 bytes of the old one stay behind the new `head`.
unfoldable pub unlinked : Disk → Entry → List ℕ → ℕ → Disk
unfolding append overlay
unlinked d dir left now =
    let new_size = u32 (dir.inode.size + 2 ^ 32 - dentry_size) in
    let placed =
      append d
        (record { inode = record (dir.inode) { size = new_size; mtime = now }; contents = left }) in
    record placed {
      free = overlay d.free (d.head + inode_size + new_size) (drop new_size dir.contents);
    }

-- The guard of ENOSPC counts the new version as 40 bytes shorter than the directory, but all 44 + size
-- bytes of the directory are copied behind the log: up to 40 of them can lie behind the mapped disk.
unfoldable pub wfs_unlink : Disk → List ℕ → ℕ → Run (Reply (Unit {0}) × Disk)
unfolding delete_dentry unlinked
wfs_unlink d path now = elim (path_to_logentry d path) [
  | none ↦ ok (failed enoent, d)
  | some i ↦ do
    found ← path_to_parent_logentry d path
    elim found [
      | none ↦ ok (failed enonet, d)
      | some p ↦
          let marked = record d { log = set d.log i (mark_deleted (entry_at d i)) } in
          let dir = entry_at marked p in
          if ltb d.max_head (u32 (d.head + inode_size + dir.inode.size + 2 ^ 32 - dentry_size))
          then ok (failed enospc, marked)
          else if ltb d.max_head (d.head + inode_size + dir.inode.size)
          then fault out_of_bounds
          else elim (delete_dentry (entry_at d i).inode.inode_number (steps dir.inode.size)
              dir.contents) [
                | none ↦ ok (
                  failed enonet,
                  record marked {
                    free = overlay d.free d.head (inode_bytes dir.inode ++ dir.contents);
                  },
                )
                | some left ↦ ok (success tt, unlinked marked dir left now)
              ]
    ]
]

-- mkfs.wfs.c: an empty root directory behind the superblock.
unfoldable pub initialize_fs : ℕ → ℕ → (ℕ → ℕ) → Disk
initialize_fs now disk_size bytes = record {
  log = fresh_entry 0 s_ifdir 0 now ∷ [];
  head = superblock_size + inode_size;
  max_head = disk_size;
  free = bytes;
}
