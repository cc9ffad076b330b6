-- ===== src/Wfs/Fsck/Compact.antt =====
-- fsck leaves a compact log as it is, and clears what is behind it.
use mathlib.Core.Path.{fun_ext}
use hanlin.Base.{
  ℕ, ◌+◌, ◌^◌, ◌≤◌, ◌<◌, ◌≡◌, refl, sym, ap, ◌∙◌, ◌&&◌, List, [], leb, ltb, if◌then◌else◌, arith,
  ok, ℕ_discrete,
}
use hanlin.Wfs.Disk.{Entry, max_from, superblock_size}
use hanlin.Wfs.Layout.{total}
use hanlin.Wfs.Fsck.{Image, word, head, compact, finish, fsck, store_word}
use hanlin.Wfs.Fsck.Scan.{IsImage}
use hanlin.Wfs.Fsck.Ordered.{IsCompact}
use hanlin.Wfs.Fsck.Rounds.{leb-true, compact-IsCompact}

-- The image with the bytes behind the log cleared.
abbrev pub cleared : Image → Image
cleared m = record m { bytes = λ x. if leb (head m) x && ltb x m.st_size then 0 else m.bytes x }

store_word-same :
    (bytes : ℕ → ℕ) (a x : ℕ)
    → ((y : ℕ) → bytes y < 256)
    → store_word bytes a (word bytes a) x ≡ bytes x
unfolding store_word
store_word-same bytes a x byte = elim (ℕ_discrete x a) [
  | yes e ↦ rw e (ground (arith, byte a, byte (a + 1), byte (a + 2), byte (a + 3)))
  | no n0 ↦ elim (ℕ_discrete x (a + 1)) [
    | yes e ↦ rw e (ground (arith, byte a, byte (a + 1), byte (a + 2), byte (a + 3)))
    | no n1 ↦ elim (ℕ_discrete x (a + 2)) [
      | yes e ↦ rw e (ground (arith, byte a, byte (a + 1), byte (a + 2), byte (a + 3)))
      | no n2 ↦ elim (ℕ_discrete x (a + 3)) [
        | yes e ↦ rw e (ground (arith, byte a, byte (a + 1), byte (a + 2), byte (a + 3)))
        | no n3 ↦ ground arith
      ]
    ]
  ]
]

finish-cleared :
    (m : Image)
    → ((x : ℕ) → m.bytes x < 256)
    → superblock_size ≤ head m
    → head m ≤ m.st_size
    → finish m (head m) ≡ ok (cleared m)
unfolding finish
finish-cleared m byte low fits =
    rw (leb-true (head m) m.st_size fits) (ap (λ b. ok (record m { bytes = b })) (fun_ext same))
  where
    kept : (x : ℕ) → x < 8 → (cleared m).bytes x ≡ m.bytes x
    kept x h = ground arith

    zeros : (x : ℕ) → (cleared m).bytes x < 256
    zeros x = ground (arith, byte x)

    same_head : word (cleared m).bytes 4 ≡ head m
    same_head = omega (arith, kept 4, kept 5, kept 6, kept 7)

    same : (x : ℕ) → store_word (cleared m).bytes 4 (head m) x ≡ (cleared m).bytes x
    same x =
        ap (λ v. store_word (cleared m).bytes 4 v x) (sym same_head)
        ∙ store_word-same (cleared m).bytes 4 x zeros

-- For an image that holds a list of entries, one live version for each inode in the order of their
-- numbers, none of them the greatest `unsigned int`: with a round for each number up to the greatest and
-- one more, `main` ends, clears the bytes behind the log, and leaves every other byte as it is.
pub fsck_compact :
    (fuel : ℕ) (m : Image) (es : List Entry)
    → IsImage m es
    → IsCompact 0 es
    → ((x : ℕ) → m.bytes x < 256)
    → max_from es 0 + 1 < 2 ^ 32
    → max_from es 0 + 2 ≤ fuel
    → fsck fuel m ≡ ok (cleared m)
unfolding fsck
fsck_compact fuel m es image ordered byte small enough =
    rw (fsck, start, sym image.layout)
      (finish-cleared m byte (omega (arith, image.layout)) image.fits)
  where
    start : compact fuel m 0 superblock_size ≡ ok (m, superblock_size + total es)
    start =
        compact-IsCompact m es image (max_from es 0) refl small fuel [] es 0 refl tt ordered
          (omega arith) (omega arith)
