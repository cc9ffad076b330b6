-- ===== src/Wfs/Write.antt =====
-- `wfs_write` and `wfs_read` of the bytes written.
use hanlin.Base.{
  ℕ, ◌+◌, ◌-◌, ◌^◌, ◌≤◌, ◌<◌, ◌≡◌, inl, inr, refl, sym, ◌∙◌, ap, false, List, [], ◌∷◌, ◌++◌, some,
  ltb, ◌==◌, if◌then◌else◌, length, take, drop, arith, Bool-cases, length-append, length-take,
  append_assoc, take-append, ok, pos,
}
use hanlin.Wfs.Disk.{Entry, Disk, entry_at, inodenum_to_logentry, path_to_logentry, inode_size, u32}
use hanlin.Wfs.Ops.{append, bytes_at, grown_size, written, read_entry, wfs_write, success}
use hanlin.Wfs.Valid.{grown_size-bounds, written-size}
use hanlin.Wfs.Layout.{IsValid, get_or-sized, length-bytes_at}
use hanlin.Wfs.Lookup.{inodenum_to_logentry-append}
use hanlin.Wfs.Create.{get_or-behind, is_live-number}
use hanlin.Wfs.Directory.{drop_exactly}

-- The bytes before those that are written.
before_offset :
    (d : Disk) (e : Entry) (buf : List ℕ) (offset now : ℕ)
    → length e.contents ≡ e.inode.size
    → offset + length buf < 2 ^ 32
    → length (
        take offset (
          e.contents
          ++ bytes_at d.free
              (d.head + inode_size + e.inode.size)
              (grown_size e (length buf) offset - e.inode.size)))
      ≡ offset
before_offset d e buf offset now sized small =
    let grown = grown_size-bounds e (length buf) offset small in
    let start = d.head + inode_size + e.inode.size in
    let more = grown_size e (length buf) offset - e.inode.size in
    omega (
      arith,
      sized,
      grown.0,
      grown.1,
      length-take offset (e.contents ++ bytes_at d.free start more),
      length-append e.contents (bytes_at d.free start more),
      length-bytes_at d.free start more,
    )

-- The new version has the written bytes at their offset.
drop-written :
    (d : Disk) (e : Entry) (buf : List ℕ) (offset now : ℕ)
    → length e.contents ≡ e.inode.size
    → offset + length buf < 2 ^ 32
    → take (length buf) (drop offset (written d e buf offset now).contents) ≡ buf
unfolding written
drop-written d e buf offset now sized small =
    let copied =
      e.contents
      ++ bytes_at d.free (d.head + inode_size + e.inode.size)
          (grown_size e (length buf) offset - e.inode.size) in
    let rest = drop (offset + length buf) copied in
    ap (λ s. take (length buf) (drop offset s)) (append_assoc (take offset copied) buf rest)
    ∙ ap (take (length buf)) (
        drop_exactly offset (take offset copied) (buf ++ rest)
          (before_offset d e buf offset now sized small))
    ∙ take-append buf rest

length_zero : (xs : List ℕ) → length xs ≡ 0 → xs ≡ []
length_zero [] h = refl
length_zero (x ∷ xs) h = absurd (omega (arith, h))

-- wfs_read of what wfs_write put into the entry.
read_entry-written :
    (d : Disk) (e : Entry) (buf : List ℕ) (offset now : ℕ)
    → length e.contents ≡ e.inode.size
    → offset + length buf < 2 ^ 32
    → read_entry (written d e buf offset now) (length buf) offset ≡ buf
unfolding read_entry
read_entry-written d e buf offset now sized small =
    let grown = grown_size-bounds e (length buf) offset small in
    let size = written-size d e buf offset now in
    let bytes = drop-written d e buf offset now sized small in
    let len = (written d e buf offset now).inode.size in
    let all : ltb len (offset + length buf) ≡ false = ground (arith, grown.1, size) in
    elim (Bool-cases (ltb offset len)) [
      | inl inside ↦ rw inside (rw all bytes)
      | inr past ↦ rw past (sym (length_zero buf (ground (arith, grown.1, size))))
    ]

-- A write into a file that is found, inside its first 2 GiB, with room for the new version, returns
-- the number of bytes. Afterwards the scan for an inode finds the new version at the end of the log
-- for that file, and every other where it was, and the new version reads back the bytes written.
pub wfs_write_correct :
    (d : Disk) (path buf : List ℕ) (offset now i ino : ℕ)
    → IsValid d
    → path_to_logentry d path ≡ some i
    → (entry_at d i).inode.deleted ≡ 0
    → offset + length buf ≤ 2 ^ 31
    → d.head + 44 + grown_size (entry_at d i) (length buf) offset ≤ d.max_head
    → (wfs_write d path buf (pos offset) now
        ≡ ok (success (length buf), append d (written d (entry_at d i) buf offset now)))
      × (inodenum_to_logentry (append d (written d (entry_at d i) buf offset now)) ino ≡ (
          if (entry_at d i).inode.inode_number == ino
          then some (length d.log)
          else inodenum_to_logentry d ino))
      × (read_entry
            (entry_at (append d (written d (entry_at d i) buf offset now)) (length d.log))
            (length buf)
            offset
          ≡ buf)
unfolding append written wfs_write
wfs_write_correct d path buf offset now i ino v found live small room =
    let e = entry_at d i in
    let sized = get_or-sized d.log i v.sized in
    let grown = grown_size-bounds e (length buf) offset (omega (arith, small)) in
    let full : ltb d.max_head (u32 (d.head + 44 + grown_size e (length buf) offset)) ≡ false =
      ground (arith, v.small) in
    let past : ltb d.max_head (d.head + 44 + offset + length buf) ≡ false =
      ground (arith, grown.1) in
    (
      rw (wfs_write, found) (rw full (rw past)),
      inodenum_to_logentry-append d (written d e buf offset now) ino
          ∙ rw (is_live-number (written d e buf offset now) ino live),
      ap (λ x. read_entry x (length buf) offset)
            (get_or-behind d.log (written d e buf offset now) [])
          ∙ read_entry-written d e buf offset now sized (omega (arith, small)),
    )
