-- ===== src/Wfs/Fsck/Scan.antt =====
-- An image whose bytes are a list of log entries: the scans by pointers are those of the list.
use hanlin.Base.{
  ℕ, zero, suc, ◌+◌, ◌≤◌, ◌<◌, ◌≡◌, refl, sym, ap, ap₂, ◌∙◌, true, false, ◌&&◌, List, [], ◌∷◌,
  Option, none, some, leb, ltb, ◌==◌, if◌then◌else◌, arith, Bool, ok,
}
use hanlin.Wfs.Disk.{Entry, is_live, find_last, max_from, inode_size, superblock_size}
use hanlin.Wfs.Layout.{total}
use hanlin.Wfs.Ops.{bytes_at}
use hanlin.Wfs.Fsck.{
  Image, word, head, read_inode, scan_log, logentry_address, scan_max, max_inodenum,
}

-- The eleven words of an inode, and the bytes behind it.
pub record IsEntry (bytes : ℕ → ℕ) (a : ℕ) (e : Entry) : Type 0 where
  pub inode_number : word bytes a ≡ e.inode.inode_number
  pub deleted : word bytes (a + 4) ≡ e.inode.deleted
  pub mode : word bytes (a + 8) ≡ e.inode.mode
  pub uid : word bytes (a + 12) ≡ e.inode.uid
  pub gid : word bytes (a + 16) ≡ e.inode.gid
  pub flags : word bytes (a + 20) ≡ e.inode.flags
  pub size : word bytes (a + 24) ≡ e.inode.size
  pub atime : word bytes (a + 28) ≡ e.inode.atime
  pub mtime : word bytes (a + 32) ≡ e.inode.mtime
  pub ctime : word bytes (a + 36) ≡ e.inode.ctime
  pub links : word bytes (a + 40) ≡ e.inode.links
  pub contents : bytes_at bytes (a + 44) e.inode.size ≡ e.contents

-- The entries stand one behind the other from address `a` on.
abbrev pub IsLog : (ℕ → ℕ) → ℕ → List Entry → Type 0
IsLog bytes a [] = Unit
IsLog bytes a (e ∷ es) = IsEntry bytes a e × IsLog bytes (a + inode_size + e.inode.size) es

-- The image holds the superblock and the entries.
pub record IsImage (m : Image) (es : List Entry) : Type 0 where
  pub log : IsLog m.bytes superblock_size es
  pub layout : head m ≡ superblock_size + total es
  pub fits : head m ≤ m.st_size

-- The address of the entry at a position.
abbrev pub address : List Entry → ℕ → ℕ → ℕ
address es a zero = a
address [] a (suc i) = a
address (e ∷ es) a (suc i) = address es (a + inode_size + e.inode.size) i

pub read_inode-IsEntry :
    (m : Image) (ptr : ℕ) (e : Entry)
    → IsEntry m.bytes ptr e
    → ptr + 44 ≤ m.st_size
    → read_inode m ptr
      ≡ ok
          (record { number = e.inode.inode_number; deleted = e.inode.deleted; size = e.inode.size })
unfolding read_inode
read_inode-IsEntry m ptr e h inside =
    let in_range : leb (ptr + 28) m.st_size ≡ true = ground arith in
    rw in_range (
      ap₂ (λ n d. ok (record { number = n; deleted = d; size = word m.bytes (ptr + 24) }))
        h.inode_number h.deleted
      ∙ ap (λ s. ok (record { number = e.inode.inode_number; deleted = e.inode.deleted; size = s }))
          h.size)

-- The pointer that a position stands for.
abbrev pub pointer : (ℕ → ℕ) → Option ℕ → Option ℕ
pointer g none = none
pointer g (some i) = some (g i)

pointer-if :
    (g : ℕ → ℕ) (test : Bool) (i : ℕ) (f : Option ℕ)
    → (if test then some (g i) else pointer g f) ≡ pointer g (if test then some i else f)
pointer-if g true i f = refl
pointer-if g false i f = refl

-- `g` gives the addresses of the entries from position `i` on.
abbrev Addresses : (ℕ → ℕ) → ℕ → List Entry → ℕ → Type 0
Addresses g i es a = (k : ℕ) → g (i + k) ≡ address es a k

Addresses-step :
    (g : ℕ → ℕ) (i : ℕ) (e : Entry) (es : List Entry) (a : ℕ)
    → Addresses g i (e ∷ es) a
    → Addresses g (suc i) es (a + inode_size + e.inode.size)
Addresses-step g i e es a h k = ap g (omega arith) ∙ h (suc k)

scan_log-find_last :
    (fuel : ℕ) (m : Image) (es : List Entry) (a ino i : ℕ) (g : ℕ → ℕ) (f : Option ℕ)
    → IsLog m.bytes a es
    → head m ≡ a + total es
    → head m ≤ m.st_size
    → total es < fuel
    → Addresses g i es a
    → scan_log fuel m ino a (pointer g f) ≡ ok (pointer g (find_last es ino i f))
unfolding scan_log find_last
scan_log-find_last zero m es a ino i g f log layout fits enough at = absurd (omega arith)
scan_log-find_last (suc fuel) m [] a ino i g f log layout fits enough at =
    let stop : ltb a (head m) ≡ false = ground arith in rw (scan_log, stop) refl
scan_log-find_last (suc fuel) m (e ∷ es) a ino i g f (here, log) layout fits enough at =
    let go : ltb a (head m) ≡ true = ground arith in
    let here_at : a ≡ g i = sym (at 0) ∙ ap g (omega arith) in
    let next = a + inode_size + e.inode.size in
    rw (scan_log, go)
      (rw (read_inode-IsEntry m a e here (omega arith)) (
        ap (scan_log fuel m ino next) (
          ap (λ x. if is_live e ino then some x else pointer g f) here_at
          ∙ pointer-if g (is_live e ino) i f)
        ∙ scan_log-find_last fuel m es next ino (suc i) g (if is_live e ino then some i else f) log
            (omega arith) fits (omega arith) (Addresses-step g i e es a at)))

scan_max-max_from :
    (fuel : ℕ) (m : Image) (es : List Entry) (a inodenum : ℕ)
    → IsLog m.bytes a es
    → head m ≡ a + total es
    → head m ≤ m.st_size
    → total es < fuel
    → scan_max fuel m a inodenum ≡ ok (max_from es inodenum)
unfolding scan_max max_from
scan_max-max_from zero m es a inodenum log layout fits enough = absurd (omega arith)
scan_max-max_from (suc fuel) m [] a inodenum log layout fits enough =
    let stop : ltb a (head m) ≡ false = ground arith in rw (scan_max, stop) refl
scan_max-max_from (suc fuel) m (e ∷ es) a inodenum (here, log) layout fits enough =
    let go : ltb a (head m) ≡ true = ground arith in
    let next = a + inode_size + e.inode.size in
    rw (scan_max, go)
      (rw (read_inode-IsEntry m a e here (omega arith)) (
        scan_max-max_from fuel m es next
          (if ltb inodenum e.inode.inode_number && e.inode.deleted == 0
            then e.inode.inode_number
            else inodenum)
          log (omega arith) fits (omega arith)))

-- On an image that holds a list of entries, `inodenum_to_logentry` ends and gives the address of the
-- entry that the scan of the list finds, or NULL if it finds none; and `find_max_inodenum` ends and gives
-- the number that the scan of the list gives.
pub scans_refine :
    (m : Image) (es : List Entry) (ino : ℕ)
    → IsImage m es
    → (logentry_address m ino ≡ ok (pointer (address es superblock_size) (find_last es ino 0 none)))
      × (max_inodenum m ≡ ok (max_from es 0))
unfolding logentry_address max_inodenum
scans_refine m es ino image = (
  scan_log-find_last (head m + 1) m es superblock_size ino 0 (address es superblock_size) none
      image.log image.layout image.fits (omega (arith, image.layout))
      (λ k. ap (address es superblock_size) (omega arith)),
  scan_max-max_from (head m + 1) m es superblock_size 0 image.log image.layout image.fits
      (omega (arith, image.layout)),
)
