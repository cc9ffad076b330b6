-- ===== src/Wfs/Fsck/Tests.antt =====
-- Runs of fsck.
use hanlin.Base.{
  ℕ, zero, suc, ◌+◌, ◌*◌, ◌<◌, ◌≡◌, refl, List, [], ◌∷◌, none, some, get_or, length, arith, ok,
  ◌>>=◌,
}
use hanlin.Wfs.Disk.{Entry, blank, max_from, find_last, superblock_size}
use hanlin.Wfs.Ops.{bytes_at}
use hanlin.Wfs.Fsck.{Image, logentry_address, max_inodenum, fsck}
use hanlin.Wfs.Fsck.Scan.{IsEntry, IsImage, pointer, address, scans_refine}
use hanlin.Wfs.Fsck.Compact.{cleared, fsck_compact}

abbrev numbered : ℕ → Entry
numbered n = record blank { inode = record (blank.inode) { inode_number = n } }

-- The bytes of words below 256.
abbrev flatten : List ℕ → List ℕ
flatten [] = []
flatten (w ∷ ws) = w ∷ 0 ∷ 0 ∷ 0 ∷ flatten ws

abbrev inodes : List ℕ → List ℕ
inodes [] = []
inodes (n ∷ ns) = n ∷ 0 ∷ 0 ∷ 0 ∷ 0 ∷ 0 ∷ 0 ∷ 0 ∷ 0 ∷ 0 ∷ 0 ∷ inodes ns

-- An image of 256 bytes whose entries have these inode numbers and no contents.
abbrev image_of : List ℕ → Image
image_of ns = record {
  bytes = λ x. get_or (flatten (0 ∷ (8 + 44 * length ns) ∷ inodes ns)) x 0;
  st_size = 256;
}

abbrev AllBytes : List ℕ → Type 0
AllBytes [] = Unit
AllBytes (b ∷ bs) = (b < 256) × AllBytes bs

get_or-byte : (bs : List ℕ) (x : ℕ) → AllBytes bs → get_or bs x 0 < 256
get_or-byte [] x all = omega arith
get_or-byte (b ∷ bs) zero all = all.0
get_or-byte (b ∷ bs) (suc x) all = get_or-byte bs x all.1

abbrev two_files : Image
two_files = image_of (0 ∷ 3 ∷ [])

abbrev two_entries : List Entry
two_entries = numbered 0 ∷ numbered 3 ∷ []

first : IsEntry two_files.bytes 8 (numbered 0)
unfolding bytes_at
first = record {
  inode_number = refl;
  deleted = refl;
  mode = refl;
  uid = refl;
  gid = refl;
  flags = refl;
  size = refl;
  atime = refl;
  mtime = refl;
  ctime = refl;
  links = refl;
  contents = refl;
}

second : IsEntry two_files.bytes 52 (numbered 3)
unfolding bytes_at
second = record {
  inode_number = refl;
  deleted = refl;
  mode = refl;
  uid = refl;
  gid = refl;
  flags = refl;
  size = refl;
  atime = refl;
  mtime = refl;
  ctime = refl;
  links = refl;
  contents = refl;
}

two_files-IsImage : IsImage two_files two_entries
two_files-IsImage = record { log = (first, (second, tt)); layout = refl; fits = omega arith }

two_files-byte : (x : ℕ) → two_files.bytes x < 256
two_files-byte x = get_or-byte (flatten (0 ∷ 96 ∷ inodes (0 ∷ 3 ∷ []))) x (omega arith)

scans_refine_example :
    (logentry_address two_files 3
      ≡ ok (pointer (address two_entries superblock_size) (find_last two_entries 3 0 none)))
    × (max_inodenum two_files ≡ ok (max_from two_entries 0))
scans_refine_example = scans_refine two_files two_entries 3 two_files-IsImage

fsck_compact_example : fsck 5 two_files ≡ ok (cleared two_files)
unfolding max_from
fsck_compact_example =
    fsck_compact 5 two_files two_entries two_files-IsImage
      (refl, omega arith, (refl, omega arith, tt)) two_files-byte (omega arith) (omega arith)

-- Out of the order of their numbers, the second file of three is overwritten by the third.
lost : (fsck 4 (image_of (0 ∷ 2 ∷ 1 ∷ [])) >>= λ m. logentry_address m 2) ≡ ok none
unfolding fsck logentry_address
lost = refl

there : logentry_address (image_of (0 ∷ 2 ∷ 1 ∷ [])) 2 ≡ ok (some 52)
unfolding logentry_address
there = refl
