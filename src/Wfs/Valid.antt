-- ===== src/Wfs/Valid.antt =====
-- The invariant of the log: what the operations append keeps its layout, and never runs past the end.
use hanlin.Base.{
  ℕ, ◌+◌, ◌-◌, ◌^◌, ◌≤◌, ◌<◌, ◌≡◌, ◌⊎◌, refl, sym, ◌∙◌, List, ◌++◌, some, ltb, length, take, drop,
  ok, Returns, returns, Returns-if, arith, length-append, length-take, length-drop, Bool-cases, inl,
  inr, pos, or_fault, Option-cases, ◌>>=◌,
}
use hanlin.Wfs.Disk.{
  Entry, Disk, entry_at, inode_size, u32, name_to_inodenum, path_to_logentry,
  path_to_parent_logentry, path_to_file_name, find_max_inodenum,
}
use hanlin.Wfs.Ops.{
  success, bytes_at, append, new_dentry, with_dentry, fresh_entry, make_node, grown_size, written,
  wfs_write,
}
use hanlin.Wfs.Layout.{
  IsValid, size-le-total, get_or-sized, length-bytes_at, length-new_dentry, append-IsValid,
  head-append,
}

-- A version never shrinks, and holds all that is written.
pub grown_size-bounds :
    (e : Entry) (size offset : ℕ)
    → offset + size < 2 ^ 32
    → (e.inode.size ≤ grown_size e size offset) × (offset + size ≤ grown_size e size offset)
unfolding grown_size
grown_size-bounds e size offset small = elim (Bool-cases (ltb e.inode.size (offset + size))) [
  | inl longer ↦ (ground arith, ground arith)
  | inr fits ↦ (ground arith, ground arith)
]

pub grown_size-upper :
    (e : Entry) (size offset bound : ℕ)
    → e.inode.size ≤ bound
    → offset + size ≤ bound
    → grown_size e size offset ≤ bound
unfolding grown_size
grown_size-upper e size offset bound h k = ground arith

pub written-size :
    (d : Disk) (e : Entry) (buf : List ℕ) (offset now : ℕ)
    → (written d e buf offset now).inode.size ≡ grown_size e (length buf) offset
unfolding written
written-size d e buf offset now = refl

-- The entry that a write appends has as many bytes as it says.
pub written-sized :
    (d : Disk) (e : Entry) (buf : List ℕ) (offset now : ℕ)
    → length e.contents ≡ e.inode.size
    → offset + length buf < 2 ^ 32
    → length (written d e buf offset now).contents ≡ (written d e buf offset now).inode.size
unfolding written
written-sized d e buf offset now h small =
    let grown = grown_size-bounds e (length buf) offset small in
    let start = d.head + inode_size + e.inode.size in
    let more = grown_size e (length buf) offset - e.inode.size in
    let copied = e.contents ++ bytes_at d.free start more in
    omega (
      arith,
      h,
      grown.0,
      grown.1,
      length-append (take offset copied ++ buf) (drop (offset + length buf) copied),
      length-append (take offset copied) buf,
      length-take offset copied,
      length-drop (offset + length buf) copied,
      length-append e.contents (bytes_at d.free start more),
      length-bytes_at d.free start more,
    )

-- The new version of the directory that holds a new name has the bytes that it says.
with_dentry-sized :
    (d : Disk) (i : ℕ) (name : List ℕ) (ino : ℕ)
    → IsValid d
    → length name ≤ 31
    → ((with_dentry d (entry_at d i) name ino).inode.size ≡ (entry_at d i).inode.size + 40)
      × (length (with_dentry d (entry_at d i) name ino).contents ≡ (entry_at d i).inode.size + 40)
unfolding with_dentry
with_dentry-sized d i name ino v short =
    let dir = entry_at d i in
    let tail = new_dentry d.free (d.head + inode_size + dir.inode.size) name ino in
    (
      omega (arith, v.small, v.layout, v.fits, size-le-total d.log i),
      omega (
        arith,
        get_or-sized d.log i v.sized,
        length-append dir.contents tail,
        length-new_dentry d.free (d.head + inode_size + dir.inode.size) name ino short,
      ),
    )

-- Both entries that make_node appends fit when its guard lets them.
two_entries-IsValid :
    (d : Disk) (i : ℕ) (name : List ℕ) (ino mode uid now : ℕ)
    → IsValid d
    → length name ≤ 31
    → d.head + 128 + (entry_at d i).inode.size ≤ d.max_head
    → IsValid
        (append (append d (with_dentry d (entry_at d i) name ino)) (fresh_entry ino mode uid now))
unfolding append
two_entries-IsValid d i name ino mode uid now v short room =
    let dir = with_dentry d (entry_at d i) name ino in
    let sizes = with_dentry-sized d i name ino v short in
    let first : IsValid (append d dir) =
      append-IsValid d dir v (sizes.1 ∙ sym sizes.0) (omega (arith, sizes.0)) in
    append-IsValid (append d dir) (fresh_entry ino mode uid now) first refl
      (omega (arith, sizes.0, head-append d dir v (omega (arith, sizes.0))))

-- A call of `make_node` whose parent directory is found and whose name has at most 31 bytes returns, and
-- leaves a valid disk; if it does not succeed it leaves the disk as it is.
pub make_node-IsValid :
    (d : Disk) (path name : List ℕ) (parent mode uid now : ℕ)
    → IsValid d
    → path_to_parent_logentry d path ≡ ok (some parent)
    → path_to_file_name path ≡ some name
    → length name ≤ 31
    → Returns (λ r. IsValid r.1 × ((r.0 ≡ success tt) ⊎ (r.1 ≡ d))) (make_node d path mode uid now)
unfolding make_node
make_node-IsValid d path name parent mode uid now v found named short =
    elim (Option-cases (name_to_inodenum name (entry_at d parent))) [
      | inr (n, there) ↦ rw (found, named, ◌>>=◌, or_fault, there) (returns (v, inr refl))
      | inl fresh ↦
          rw (found, named, ◌>>=◌, or_fault, fresh)
            (Returns-if
              (ltb d.max_head (u32 (d.head + u32 (44 + (entry_at d parent).inode.size + 40 + 44))))
              (λ full. returns (v, inr refl))
              (λ room.
                Returns-if (ltb 31 (length name)) (λ long. absurd (ground arith))
                  (λ fits. returns (
                    two_entries-IsValid d parent name (u32 (find_max_inodenum d + 1)) mode uid now v
                        short
                        (ground (arith, v.small, v.fits, v.layout, size-le-total d.log parent)),
                    inl refl,
                  ))))
    ]

-- A write inside the first 2 GiB of a file that is found returns, and leaves a valid disk; if it
-- does not succeed it leaves the disk as it is.
pub wfs_write-IsValid :
    (d : Disk) (path buf : List ℕ) (offset now i : ℕ)
    → IsValid d
    → path_to_logentry d path ≡ some i
    → offset + length buf ≤ 2 ^ 31
    → Returns
        (λ r. IsValid r.1 × ((r.0 ≡ success (length buf)) ⊎ (r.1 ≡ d)))
        (wfs_write d path buf (pos offset) now)
unfolding wfs_write
wfs_write-IsValid d path buf offset now i v found small =
    let e = entry_at d i in
    let grown = grown_size-bounds e (length buf) offset (omega arith) in
    let sized = written-sized d e buf offset now (get_or-sized d.log i v.sized) (omega arith) in
    let upper =
      grown_size-upper e (length buf) offset (2 ^ 31)
        (omega (arith, v.small, v.fits, v.layout, size-le-total d.log i)) small in
    rw (wfs_write, found)
      (Returns-if (ltb d.max_head (u32 (d.head + 44 + grown_size e (length buf) offset)))
        (λ full. returns (v, inr refl))
        (λ room.
          Returns-if (ltb d.max_head (d.head + 44 + offset + length buf))
            (λ past. absurd (ground (arith, upper, grown.1, v.small, v.fits)))
            (λ inside. returns (
              append-IsValid d (written d e buf offset now) v sized
                  (ground (arith, upper, v.small, v.fits, written-size d e buf offset now)),
              inl refl,
            ))))
