-- ===== src/Wfs/Layout.antt =====
-- The layout of the log: its entries fill the disk from the superblock to the head.
use hanlin.Base.{
  ℕ, zero, suc, ◌+◌, ◌-◌, ◌*◌, ◌/◌, ◌^◌, ◌≤◌, ◌≡◌, refl, List, [], ◌∷◌, ◌++◌, length, get_or, arith,
  length-append, ap,
}
use hanlin.Wfs.Disk.{Entry, Disk, blank, inode_size, superblock_size, u32, to_bytes}
use hanlin.Wfs.Ops.{bytes_at, append, new_dentry}

-- The bytes that the entries of a log take.
abbrev pub total : List Entry → ℕ
total [] = 0
total (e ∷ es) = inode_size + e.inode.size + total es

-- Every entry has the bytes that its size says.
abbrev pub AllSized : List Entry → Type 0
AllSized [] = Unit
AllSized (e ∷ es) = (length e.contents ≡ e.inode.size) × AllSized es

-- The log fills the disk from the superblock to `head`, and the disk is below 2 GiB, so that the sums
-- of the guards do not wrap.
pub record IsValid (d : Disk) : Type 0 where
  pub layout : d.head ≡ superblock_size + total d.log
  pub sized : AllSized d.log
  pub fits : d.head ≤ d.max_head
  pub small : 2 * d.max_head + 128 ≤ 2 ^ 32

total-append : (es : List Entry) (e : Entry) → total (es ++ (e ∷ [])) ≡ total es + 44 + e.inode.size
total-append [] e = omega arith
total-append (x ∷ es) e = omega (arith, total-append es e)

AllSized-append :
    (es : List Entry) (e : Entry)
    → AllSized es
    → length e.contents ≡ e.inode.size
    → AllSized (es ++ (e ∷ []))
AllSized-append [] e v h = (h, tt)
AllSized-append (x ∷ es) e v h = (v.0, AllSized-append es e v.1 h)

pub size-le-total : (es : List Entry) (i : ℕ) → (get_or es i blank).inode.size ≤ total es
size-le-total [] i = omega arith
size-le-total (e ∷ es) zero = omega arith
size-le-total (e ∷ es) (suc i) = omega (arith, size-le-total es i)

pub get_or-sized :
    (es : List Entry) (i : ℕ)
    → AllSized es
    → length (get_or es i blank).contents ≡ (get_or es i blank).inode.size
get_or-sized [] i v = refl
get_or-sized (e ∷ es) zero v = v.0
get_or-sized (e ∷ es) (suc i) v = get_or-sized es i v.1

pub length-to_bytes : (n v : ℕ) → length (to_bytes n v) ≡ n
unfolding to_bytes
length-to_bytes zero v = refl
length-to_bytes (suc n) v = ap suc (length-to_bytes n (v / 256))

pub length-bytes_at : (f : ℕ → ℕ) (a n : ℕ) → length (bytes_at f a n) ≡ n
unfolding bytes_at
length-bytes_at f a zero = refl
length-bytes_at f a (suc n) = ap suc (length-bytes_at f (a + 1) n)

pub length-new_dentry :
    (f : ℕ → ℕ) (a : ℕ) (name : List ℕ) (ino : ℕ)
    → length name ≤ 31
    → length (new_dentry f a name ino) ≡ 40
unfolding new_dentry
length-new_dentry f a name ino h = omega (
  arith,
  length-append (name ++ (0 ∷ bytes_at f (a + length name + 1) (31 - length name)))
      (to_bytes 8 ino),
  length-append name (0 ∷ bytes_at f (a + length name + 1) (31 - length name)),
  length-bytes_at f (a + length name + 1) (31 - length name),
  length-to_bytes 8 ino,
)

pub append-IsValid :
    (d : Disk) (e : Entry)
    → IsValid d
    → length e.contents ≡ e.inode.size
    → d.head + 44 + e.inode.size ≤ d.max_head
    → IsValid (append d e)
unfolding append
append-IsValid d e v h room =
    let wraps : u32 (d.head + 44 + e.inode.size) ≡ d.head + 44 + e.inode.size =
      omega (arith, v.small) in
    record {
      layout = omega (arith, v.layout, total-append d.log e, wraps);
      sized = AllSized-append d.log e v.sized h;
      fits = omega (arith, wraps);
      small = v.small;
    }

pub head-append :
    (d : Disk) (e : Entry)
    → IsValid d
    → d.head + 44 + e.inode.size ≤ d.max_head
    → (append d e).head ≡ d.head + 44 + e.inode.size
unfolding append
head-append d e v room = omega (arith, v.small)
