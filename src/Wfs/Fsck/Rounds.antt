-- ===== src/Wfs/Fsck/Rounds.antt =====
-- The rounds of the loop of `main` on a log that is compact.
use mathlib.Core.Path.{fun_ext}
use hanlin.Base.{
  ℕ, zero, suc, ◌+◌, ◌-◌, ◌^◌, ◌≤◌, ◌<◌, ◌≡◌, ◌≢◌, refl, sym, ap, ◌∙◌, subst, true, false, ◌&&◌,
  List, [], ◌∷◌, ◌++◌, append_assoc, append-nil, none, some, leb, ltb, if◌then◌else◌, length, arith,
  Bool, Run, ok, dec_lt, ℕ_discrete,
}
use hanlin.Wfs.Disk.{Entry, is_live, find_last, max_from, inode_size, superblock_size, u32}
use hanlin.Wfs.Layout.{total}
use hanlin.Wfs.Fsck.{Image, memmove, move_entry, compact}
use hanlin.Wfs.Fsck.Scan.{IsEntry, IsLog, IsImage, address, scans_refine, read_inode-IsEntry}
use hanlin.Wfs.Fsck.Ordered.{
  IsCompact, AllBelow, AllBelow-suc, AllBelow-append, total-append, address-append, IsLog-append,
  find_last-AllBelow, find_last-start, find_last-IsCompact, max_from-append,
}

if-same : (test : Bool) (v : ℕ) → (if test then v else v) ≡ v
if-same true v = refl
if-same false v = refl

memmove_self : (m : Image) (a n : ℕ) → a + n ≤ m.st_size → memmove m a a n ≡ ok m
unfolding memmove
memmove_self m a n inside =
    let in_range : (leb (a + n) m.st_size && leb (a + n) m.st_size) ≡ true = ground arith in
    rw in_range (ap (λ b. ok (record m { bytes = b })) (fun_ext same))
  where
    same :
        (x : ℕ)
        → (if leb a x && ltb x (a + n) then m.bytes (a + (x - a)) else m.bytes x) ≡ m.bytes x
    same x = elim (dec_lt x a) [
      | yes before ↦ ground arith
      | no from ↦
          let there : a + (x - a) ≡ x = omega arith in
          rw there (if-same (leb a x && ltb x (a + n)) (m.bytes x))
    ]

-- An entry that stands at `ptr` already stays there.
move_entry_self :
    (m : Image) (ptr : ℕ) (e : Entry)
    → IsEntry m.bytes ptr e
    → ptr + 44 + e.inode.size ≤ m.st_size
    → move_entry m ptr (some ptr) ≡ ok (m, ptr + (inode_size + e.inode.size))
unfolding move_entry
move_entry_self m ptr e here inside =
    rw (read_inode-IsEntry m ptr e here (omega arith))
      (rw (memmove_self m ptr (inode_size + e.inode.size) (omega arith)) refl)

pub leb-true : (a b : ℕ) → a ≤ b → leb a b ≡ true
leb-true a b h = ground arith

leb-false : (a b : ℕ) → b < a → leb a b ≡ false
leb-false a b h = ground arith

module _ (m : Image) (all : List Entry) (image : IsImage m all) (top : ℕ)
    (max : max_from all 0 ≡ top) (small : top + 1 < 2 ^ 32) where
  step-stop : (fuel i ptr : ℕ) → top < i → compact (suc fuel) m i ptr ≡ ok (m, ptr)
  unfolding compact
  step-stop fuel i ptr past =
      rw
        (compact, (scans_refine m all i image).1, leb-false i (max_from all 0) (omega (arith, max)))
        refl

  step-none :
      (fuel i ptr : ℕ) (result : Run (Image × ℕ))
      → i ≤ top
      → find_last all i 0 none ≡ none
      → compact fuel m (i + 1) ptr ≡ result
      → compact (suc fuel) m i ptr ≡ result
  unfolding compact
  step-none fuel i ptr result low absent rest =
      let next : u32 (i + 1) ≡ i + 1 = omega arith in
      rw
        (
          compact,
          (scans_refine m all i image).1,
          leb-true i (max_from all 0) (omega (arith, max)),
          (scans_refine m all i image).0,
          absent,
        )
        (ap (λ j. compact fuel m j ptr) next ∙ rest)

  step-some :
      (fuel i ptr k next : ℕ) (result : Run (Image × ℕ))
      → i ≤ top
      → find_last all i 0 none ≡ some k
      → address all superblock_size k ≡ ptr
      → move_entry m ptr (some ptr) ≡ ok (m, next)
      → compact fuel m (i + 1) next ≡ result
      → compact (suc fuel) m i ptr ≡ result
  unfolding compact
  step-some fuel i ptr k next result low there at moved rest =
      let no_wrap : u32 (i + 1) ≡ i + 1 = omega arith in
      rw
        (
          compact,
          (scans_refine m all i image).1,
          leb-true i (max_from all 0) (omega (arith, max)),
          (scans_refine m all i image).0,
          there,
          at,
          moved,
        )
        (ap (λ j. compact fuel m j next) no_wrap ∙ rest)

  -- The loop has passed the entries `done`, and has the inodes from `i` on before it.
  pub compact-IsCompact :
      (fuel : ℕ) (done rest : List Entry) (i : ℕ)
      → all ≡ done ++ rest
      → AllBelow i done
      → IsCompact i rest
      → top + 2 ≤ i + fuel
      → i ≤ top + 1
      → compact fuel m i (superblock_size + total done) ≡ ok (m, superblock_size + total all)
  unfolding find_last
  compact-IsCompact zero done rest i e below ordered enough low = absurd (omega arith)
  compact-IsCompact (suc fuel) done [] i e below ordered enough low = elim (dec_lt top i) [
    | yes past ↦
        step-stop fuel i (superblock_size + total done) past
        ∙ ap (λ es. ok (m, superblock_size + total es)) (sym (append-nil done) ∙ sym e)
    | no more ↦
        step-none fuel i (superblock_size + total done) (ok (m, superblock_size + total all))
          (omega arith)
          (ap (λ es. find_last es i 0 none) e ∙ find_last-AllBelow done [] i 0 none below)
          (compact-IsCompact fuel done [] (i + 1) e (AllBelow-later below) tt (omega arith)
            (omega arith))
  ]
    where
      AllBelow-later : AllBelow i done → AllBelow (i + 1) done
      AllBelow-later b = subst (λ n. AllBelow n done) (omega arith) (AllBelow-suc i done b)
  compact-IsCompact (suc fuel) done (x ∷ rest) i e below (live, from, ordered) enough low =
      elim (ℕ_discrete x.inode.inode_number i) [
        | yes this ↦
            step-some fuel i ptr (length done) (ptr + (inode_size + x.inode.size))
              (ok (m, superblock_size + total all)) reached (found this) at
              (move_entry_self m ptr x here.0 inside)
              (ap (compact fuel m (i + 1)) longer
                ∙ compact-IsCompact fuel (done ++ (x ∷ [])) rest (i + 1)
                    (e ∙ sym (append_assoc done (x ∷ []) rest))
                    (AllBelow-append (i + 1) done x later_done (omega (arith, this)))
                    (later_rest this) (omega arith) (omega (arith, reached)))
        | no later ↦
            step-none fuel i ptr (ok (m, superblock_size + total all)) reached (absent later) (
              compact-IsCompact fuel done (x ∷ rest) (i + 1) e later_done
                (live, omega (arith, from, later), ordered) (omega arith) (omega (arith, reached)))
      ]
    where
      ptr : ℕ
      ptr = superblock_size + total done

      reached : i ≤ top
      reached =
          omega (arith, from, max, ap (λ es. max_from es 0) e, max_from-append done rest x 0 live)

      later_done : AllBelow (i + 1) done
      later_done = subst (λ n. AllBelow n done) (omega arith) (AllBelow-suc i done below)

      later_rest : x.inode.inode_number ≡ i → IsCompact (i + 1) rest
      later_rest this = subst (λ n. IsCompact n rest) (omega (arith, this)) ordered

      at : address all superblock_size (length done) ≡ ptr
      at =
          ap (λ es. address es superblock_size (length done)) e
          ∙ address-append done (x ∷ rest) superblock_size

      here : IsLog m.bytes ptr (x ∷ rest)
      here =
          IsLog-append m.bytes superblock_size done (x ∷ rest)
            (subst (λ es. IsLog m.bytes superblock_size es) e image.log)

      whole : total all ≡ total done + (inode_size + x.inode.size + total rest)
      whole = ap total e ∙ total-append done (x ∷ rest)

      inside : ptr + 44 + x.inode.size ≤ m.st_size
      inside = omega (arith, image.layout, image.fits, whole)

      longer : ptr + (inode_size + x.inode.size) ≡ superblock_size + total (done ++ (x ∷ []))
      longer = omega (arith, total-append done (x ∷ []))

      absent : x.inode.inode_number ≢ i → find_last all i 0 none ≡ none
      absent later =
          ap (λ es. find_last es i 0 none) e
          ∙ find_last-start done (x ∷ rest) i none below
          ∙ find_last-IsCompact (x ∷ rest) (i + 1) i (length done) none
              (live, omega (arith, from, later), ordered) (omega arith)

      found : x.inode.inode_number ≡ i → find_last all i 0 none ≡ some (length done)
      found this =
          let is : is_live x i ≡ true = ground (arith, live, this) in
          ap (λ es. find_last es i 0 none) e
          ∙ find_last-start done (x ∷ rest) i none below
          ∙ rw (find_last, is)
              (find_last-IsCompact rest (i + 1) i (suc (length done)) (some (length done))
                (later_rest this) (omega arith))
