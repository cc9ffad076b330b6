-- ===== src/Wfs/Unlink.antt =====
-- `wfs_unlink`: the invariant, and what happens when the disk is full.
use hanlin.Base.{
  ℕ, zero, suc, ◌+◌, ◌-◌, ◌*◌, ◌^◌, ◌≤◌, ◌<◌, ◌≡◌, refl, sym, ◌∙◌, ap, true, List, [], ◌∷◌, ◌++◌,
  none, some, ltb, ◌==◌, length, get_or, set, take, drop, arith, ok, fault, out_of_bounds, ◌⊎◌,
  ◌>>=◌, Returns, returns, Bool-cases, Option-cases, inl, inr, length-append, length-take,
  length-drop,
}
use hanlin.Wfs.Disk.{
  Entry, Disk, blank, entry_at, inode_size, dentry_size, dentry_inode, steps, path_to_logentry,
  path_to_parent_logentry, u32,
}
use hanlin.Wfs.Ops.{Reply, success, failed, enonet, enospc, overlay}
use hanlin.Wfs.Names.{wfs_unlink, mark_deleted, delete_dentry, unlinked, inode_bytes}
use hanlin.Wfs.Layout.{IsValid, AllSized, total, append-IsValid, size-le-total, get_or-sized}

set-deleted :
    (es : List Entry) (i : ℕ)
    → i < length es
    → get_or (set es i (mark_deleted (get_or es i blank))) i blank
      ≡ mark_deleted (get_or es i blank)
set-deleted [] i h = absurd (omega (arith, h))
set-deleted (e ∷ es) zero h = refl
set-deleted (e ∷ es) (suc i) h = set-deleted es i (omega (arith, h))

-- A mark changes the size of no entry.
set-size :
    (es : List Entry) (i p : ℕ)
    → (get_or (set es i (mark_deleted (get_or es i blank))) p blank).inode.size
      ≡ (get_or es p blank).inode.size
set-size [] i p = refl
set-size (e ∷ es) zero zero = refl
set-size (e ∷ es) zero (suc p) = refl
set-size (e ∷ es) (suc i) zero = refl
set-size (e ∷ es) (suc i) (suc p) = set-size es i p

-- If the new version of the directory has no room, wfs_unlink fails with ENOSPC, and the entry of
-- the file is marked deleted all the same.
wfs_unlink-full :
    (d : Disk) (path : List ℕ) (i p now : ℕ)
    → path_to_logentry d path ≡ some i
    → i < length d.log
    → path_to_parent_logentry d path ≡ ok (some p)
    → d.max_head < u32 (d.head + inode_size + (entry_at d p).inode.size + 2 ^ 32 - dentry_size)
    → Returns
        (λ r. (r.0 ≡ failed enospc) × (entry_at r.1 i ≡ mark_deleted (entry_at d i)))
        (wfs_unlink d path now)
unfolding wfs_unlink
wfs_unlink-full d path i p now found inside parent full =
    let guard : ltb d.max_head (
          u32 (
            d.head
            + 44
            + (get_or (set d.log i (mark_deleted (get_or d.log i blank))) p blank).inode.size
            + 2 ^ 32
            - 40))
        ≡ true =
      ground (arith, set-size d.log i p) in
    rw (wfs_unlink, found, parent, ◌>>=◌) (rw guard (returns (refl, set-deleted d.log i inside)))

-- A mark keeps the layout and the bytes of the log.
total-marked :
    (es : List Entry) (i : ℕ) → total (set es i (mark_deleted (get_or es i blank))) ≡ total es
total-marked [] i = refl
total-marked (e ∷ es) zero = refl
total-marked (e ∷ es) (suc i) = omega (arith, total-marked es i)

marked-sized :
    (es : List Entry) (i : ℕ) → AllSized es → AllSized (set es i (mark_deleted (get_or es i blank)))
marked-sized [] i v = v
marked-sized (e ∷ es) zero v = v
marked-sized (e ∷ es) (suc i) v = (v.0, marked-sized es i v.1)

abbrev marked : Disk → ℕ → Disk
marked d i = record d { log = set d.log i (mark_deleted (entry_at d i)) }

marked-IsValid : (d : Disk) (i : ℕ) → IsValid d → IsValid (marked d i)
marked-IsValid d i v = record {
  layout = omega (arith, v.layout, total-marked d.log i);
  sized = marked-sized d.log i v.sized;
  fits = v.fits;
  small = v.small;
}

some-injective : {A : Type 0} {a b : A} → some a ≡ some b → a ≡ b
some-injective h = cc

none-some : {A : Type 0} {a : A} → ¬ (none ≡ some a)
none-some h = cc

-- Taking out an entry leaves 40 bytes less.
length-delete_dentry :
    (ino n : ℕ) (s left : List ℕ)
    → length s ≡ 40 * n
    → delete_dentry ino n s ≡ some left
    → length left + 40 ≡ length s
unfolding delete_dentry
length-delete_dentry ino zero s left size found = cc
length-delete_dentry ino (suc n) s left size found = elim (Bool-cases (dentry_inode s == ino)) [
  | inl here ↦
      let same : drop 40 s ≡ left = some-injective (rw (delete_dentry, here) at found) in
      omega (arith, size, ap length same, length-drop 40 s)
  | inr later ↦ elim (Option-cases (delete_dentry ino n (drop 40 s))) [
    | inl missing ↦ absurd (none-some (rw (delete_dentry, later, missing) at found))
    | inr (r, found_later) ↦
        let same : take 40 s ++ r ≡ left =
          some-injective (rw (delete_dentry, later, found_later) at found) in
        let less =
          length-delete_dentry ino n (drop 40 s) r (omega (arith, size, length-drop 40 s))
            found_later in
        omega (
          arith,
          size,
          less,
          ap length same,
          length-append (take 40 s) r,
          length-take 40 s,
          length-drop 40 s,
        )
  ]
]

-- The free bytes behind the log are no part of the invariant.
unlinked-IsValid :
    (d : Disk) (dir : Entry) (left : List ℕ) (now : ℕ)
    → IsValid d
    → length left + 40 ≡ dir.inode.size
    → d.head + 4 + dir.inode.size ≤ d.max_head
    → IsValid (unlinked d dir left now)
unfolding unlinked
unlinked-IsValid d dir left now v size room =
    let new : u32 (dir.inode.size + 2 ^ 32 - 40) ≡ length left = omega (arith, size, v.small) in
    let placed =
      append-IsValid d
        (record {
          inode = record (dir.inode) { size = u32 (dir.inode.size + 2 ^ 32 - 40); mtime = now };
          contents = left;
        })
        v (sym new) (omega (arith, new, size)) in
    record {
      layout = placed.layout;
      sized = placed.sized;
      fits = placed.fits;
      small = placed.small;
    }

unlink-guard :
    (head max_head size : ℕ)
    → size ≤ head
    → head ≤ max_head
    → 2 * max_head + 128 ≤ 2 ^ 32
    → u32 (head + 44 + size + 2 ^ 32 - 40) ≡ head + 4 + size
unlink-guard head max_head size h k small = omega arith

-- The new version of a directory of `size` bytes has room on the disk, and the old one, which is copied
-- behind the log, has not.
abbrev pub Overruns : Disk → ℕ → Type 0
Overruns d size = (d.head + 4 + size ≤ d.max_head) × (d.max_head < d.head + 44 + size)

-- What `wfs_unlink` does once the directory has room: it returns in both cases of `delete_dentry`.
unlinked_or_missing :
    (d : Disk) (dir : Entry) (ino now : ℕ)
    → IsValid d
    → length dir.contents ≡ dir.inode.size
    → dir.inode.size ≡ 40 * steps dir.inode.size
    → d.head + 4 + dir.inode.size ≤ d.max_head
    → Returns
        (λ (r : Reply (Unit {0}) × Disk). IsValid r.1)
        (elim (delete_dentry ino (steps dir.inode.size) dir.contents) [
          | none ↦ ok (
            failed enonet,
            record d { free = overlay d.free d.head (inode_bytes dir.inode ++ dir.contents) },
          )
          | some left ↦ ok (success tt, unlinked d dir left now)
        ])
unlinked_or_missing d dir ino now valid bytes rounds room =
    elim (Option-cases (delete_dentry ino (steps dir.inode.size) dir.contents)) [
      | inl missing ↦ rw missing (
          returns (record {
            layout = valid.layout;
            sized = valid.sized;
            fits = valid.fits;
            small = valid.small;
          }))
      | inr (left, deleted) ↦
          let size =
            length-delete_dentry ino (steps dir.inode.size) dir.contents left (bytes ∙ rounds)
              deleted
            ∙ bytes in
          rw deleted (returns (unlinked-IsValid d dir left now valid size room))
    ]

-- An unlink of a path that is found, with its parent directory of whole entries, returns, and leaves a
-- valid disk on each of its ways out, unless the new version of the directory has room behind the log
-- and the old one, 40 bytes longer, has not: then, and only then, the copy of the old one leaves the disk.
pub wfs_unlink-IsValid :
    (d : Disk) (path : List ℕ) (i p n now : ℕ)
    → IsValid d
    → path_to_logentry d path ≡ some i
    → path_to_parent_logentry d path ≡ ok (some p)
    → (entry_at d p).inode.size ≡ 40 * n
    → (Overruns d (entry_at d p).inode.size × (wfs_unlink d path now ≡ fault out_of_bounds))
      ⊎ ((¬ Overruns d (entry_at d p).inode.size)
          × Returns (λ r. IsValid r.1) (wfs_unlink d path now))
unfolding wfs_unlink
wfs_unlink-IsValid d path i p n now v found parent whole =
    let dir = entry_at (marked d i) p in
    let valid = marked-IsValid d i v in
    let same : dir.inode.size ≡ (entry_at d p).inode.size = set-size d.log i p in
    let bytes : length dir.contents ≡ dir.inode.size =
      get_or-sized (marked d i).log p valid.sized in
    let guard =
      unlink-guard d.head d.max_head dir.inode.size
        (omega (arith, valid.layout, size-le-total (marked d i).log p)) v.fits v.small in
    elim (Bool-cases (ltb d.max_head (u32 (d.head + 44 + dir.inode.size + 2 ^ 32 - 40)))) [
      | inl full ↦ inr (
        (λ over. ground (arith, guard, same)),
        rw (wfs_unlink, found, parent, ◌>>=◌) (rw full (returns valid)),
      )
      | inr room ↦ elim (Bool-cases (ltb d.max_head (d.head + 44 + dir.inode.size))) [
        | inl over ↦ inl (
          (ground (arith, guard, same), ground (arith, same)),
          rw (wfs_unlink, found, parent, ◌>>=◌) (rw (room, over)),
        )
        | inr inside ↦ inr (
          (λ over. ground (arith, same)),
          rw (wfs_unlink, found, parent, ◌>>=◌)
              (rw (room, inside)
                (unlinked_or_missing (marked d i) dir (entry_at d i).inode.inode_number now valid
                  bytes (omega (arith, whole, same)) (ground (arith, guard)))),
        )
      ]
    ]
