-- ===== src/Wfs/Create.antt =====
-- What is found after `wfs_mknod` and `wfs_mkdir`: the new name in its directory, and the new inode.
use hanlin.Base.{
  ℕ, suc, ◌+◌, ◌*◌, ◌^◌, ◌≤◌, ◌<◌, ◌≡◌, refl, sym, ◌∙◌, ap, subst, false, List, [], ◌∷◌, ◌++◌, none,
  some, ltb, ◌==◌, if◌then◌else◌, length, get_or, drop, arith, length-append, append_assoc, ok,
  ◌>>=◌, or_fault,
}
use hanlin.CString.{str_eq}
use hanlin.Wfs.Disk.{
  Entry, Disk, blank, entry_at, is_live, inodenum_to_logentry, find_max_inodenum, u32, of_bytes,
  find_name, name_to_inodenum, path_to_parent_logentry, path_to_file_name, steps,
}
use hanlin.Wfs.Ops.{append, new_dentry, with_dentry, fresh_entry, make_node, success}
use hanlin.Wfs.Layout.{IsValid, get_or-sized, size-le-total, length-new_dentry}
use hanlin.Wfs.Lookup.{inodenum_to_logentry-append}
use hanlin.Wfs.Directory.{
  NoNul, chunk, Dentries, padding, find_name-append, length-Dentries, new_dentry-chunk,
  new_dentry-inode,
}

-- The new version of a directory answers for the new name, and for every other as the old one.
with_dentry-lookup :
    {n : ℕ} (d : Disk) (i : ℕ) (name w : List ℕ) (ino : ℕ)
    → IsValid d
    → Dentries n (entry_at d i).contents
    → NoNul name
    → length name ≤ 31
    → ino < 2 ^ 32
    → name_to_inodenum w (with_dentry d (entry_at d i) name ino)
      ≡ (elim (name_to_inodenum w (entry_at d i)) [
        | some old ↦ some old
        | none ↦ if str_eq w name then some ino else none
      ])
unfolding name_to_inodenum with_dentry
with_dentry-lookup {n} d i name w ino v ds clean short small =
    let dir = entry_at d i in
    let a = d.head + 44 + dir.inode.size in
    let size : dir.inode.size ≡ 40 * n =
      omega (arith, get_or-sized d.log i v.sized, length-Dentries ds) in
    let rounds : steps dir.inode.size ≡ n = omega (arith, size) in
    let rounds' : steps (u32 (dir.inode.size + 40)) ≡ suc n =
      omega (arith, size, v.small, v.fits, v.layout, size-le-total d.log i) in
    let is_chunk = new_dentry-chunk d.free a name ino in
    let length_chunk = sym (ap length is_chunk) ∙ length-new_dentry d.free a name ino short in
    let number =
      sym (ap (λ s. of_bytes (drop 32 s)) is_chunk)
      ∙ new_dentry-inode d.free a name ino short small in
    let looked = find_name-append w name (padding d.free a name ino) ds clean length_chunk in
    rw rounds (
      ap (λ k. find_name w k (dir.contents ++ new_dentry d.free a name ino)) rounds'
      ∙ ap (λ added. find_name w (suc n) (dir.contents ++ added)) is_chunk
      ∙ subst
          (λ k.
            find_name w (suc n) (dir.contents ++ chunk name (padding d.free a name ino))
            ≡ (elim (find_name w n dir.contents) [
              | some old ↦ some old
              | none ↦ if str_eq w name then some k else none
            ]))
          number looked)

-- The disk after a name is made: a new version of its directory, and the new inode.
abbrev pub created : Disk → ℕ → List ℕ → ℕ → ℕ → ℕ → Disk
created d parent name mode uid now =
    let ino = u32 (find_max_inodenum d + 1) in
    append (append d (with_dentry d (entry_at d parent) name ino)) (fresh_entry ino mode uid now)

-- make_node with room for both entries, whose name is not there yet, leaves the disk `created`.
make_node-created :
    (d : Disk) (path name : List ℕ) (parent mode uid now : ℕ)
    → IsValid d
    → path_to_parent_logentry d path ≡ ok (some parent)
    → path_to_file_name path ≡ some name
    → length name ≤ 31
    → name_to_inodenum name (entry_at d parent) ≡ none
    → d.head + 128 + (entry_at d parent).inode.size ≤ d.max_head
    → make_node d path mode uid now ≡ ok (success tt, created d parent name mode uid now)
unfolding make_node
make_node-created d path name parent mode uid now v found named short fresh room =
    let guard : ltb d.max_head (u32 (d.head + u32 (44 + (entry_at d parent).inode.size + 40 + 44)))
        ≡ false =
      ground (arith, v.small) in
    let fits : ltb 31 (length name) ≡ false = ground arith in
    rw (found, named, ◌>>=◌, or_fault, fresh) (rw guard (rw fits))

pub is_live-number :
    (e : Entry) (ino : ℕ) → e.inode.deleted ≡ 0 → is_live e ino ≡ (e.inode.inode_number == ino)
is_live-number e ino live = ground arith

-- What the scan finds on that disk.
created-lookup :
    (d : Disk) (parent : ℕ) (name : List ℕ) (mode uid now ino : ℕ)
    → (entry_at d parent).inode.deleted ≡ 0
    → inodenum_to_logentry (created d parent name mode uid now) ino ≡ (
        if u32 (find_max_inodenum d + 1) == ino
        then some (length d.log + 1)
        else if (entry_at d parent).inode.inode_number == ino
        then some (length d.log)
        else inodenum_to_logentry d ino)
unfolding append with_dentry
created-lookup d parent name mode uid now ino live =
    let new = u32 (find_max_inodenum d + 1) in
    let dir = with_dentry d (entry_at d parent) name new in
    inodenum_to_logentry-append (append d dir) (fresh_entry new mode uid now) ino
    ∙ rw (
      is_live-number (fresh_entry new mode uid now) ino refl,
      inodenum_to_logentry-append d dir ino,
      is_live-number dir ino live,
      length-append d.log (dir ∷ []),
    )

pub get_or-behind :
    (es : List Entry) (e : Entry) (rest : List Entry)
    → get_or (es ++ (e ∷ rest)) (length es) blank ≡ e
get_or-behind [] e rest = refl
get_or-behind (x ∷ es) e rest = get_or-behind es e rest

-- The new version of the directory stands where the old log ended.
created-directory :
    (d : Disk) (parent : ℕ) (name : List ℕ) (mode uid now : ℕ)
    → entry_at (created d parent name mode uid now) (length d.log)
      ≡ with_dentry d (entry_at d parent) name (u32 (find_max_inodenum d + 1))
unfolding append
created-directory d parent name mode uid now =
    let new = u32 (find_max_inodenum d + 1) in
    let dir = with_dentry d (entry_at d parent) name new in
    ap (λ es. get_or es (length d.log) blank)
      (append_assoc d.log (dir ∷ []) (fresh_entry new mode uid now ∷ []))
    ∙ get_or-behind d.log dir (fresh_entry new mode uid now ∷ [])

-- On a valid disk, for a path whose parent directory is found live and holds whole entries, a name
-- of at most 31 bytes without NUL that the directory does not hold, and room for both entries,
-- make_node succeeds. Afterwards the scan for an inode finds the new one at the end, the directory
-- before it, and every other where it was; and the directory answers for the new name with the new
-- inode and for every other name as before.
pub make_node_correct :
    {n : ℕ} (d : Disk) (path name w : List ℕ) (parent mode uid now ino : ℕ)
    → IsValid d
    → path_to_parent_logentry d path ≡ ok (some parent)
    → (entry_at d parent).inode.deleted ≡ 0
    → Dentries n (entry_at d parent).contents
    → path_to_file_name path ≡ some name
    → NoNul name
    → length name ≤ 31
    → name_to_inodenum name (entry_at d parent) ≡ none
    → d.head + 128 + (entry_at d parent).inode.size ≤ d.max_head
    → (make_node d path mode uid now ≡ ok (success tt, created d parent name mode uid now))
      × (inodenum_to_logentry (created d parent name mode uid now) ino ≡ (
          if u32 (find_max_inodenum d + 1) == ino
          then some (length d.log + 1)
          else if (entry_at d parent).inode.inode_number == ino
          then some (length d.log)
          else inodenum_to_logentry d ino))
      × (name_to_inodenum w (entry_at (created d parent name mode uid now) (length d.log))
          ≡ (elim (name_to_inodenum w (entry_at d parent)) [
            | some old ↦ some old
            | none ↦ if str_eq w name then some (u32 (find_max_inodenum d + 1)) else none
          ]))
make_node_correct d path name w parent mode uid now ino v found live ds named clean short fresh
      room =
    (
      make_node-created d path name parent mode uid now v found named short fresh room,
      created-lookup d parent name mode uid now ino live,
      ap (name_to_inodenum w) (created-directory d parent name mode uid now)
          ∙ with_dentry-lookup d parent name w (u32 (find_max_inodenum d + 1)) v ds clean short
              (omega arith),
    )
