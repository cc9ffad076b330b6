-- ===== src/Wfs/Fsck/Ordered.antt =====
-- Logs with one live version for each inode, in the order of the numbers.
use hanlin.Base.{
  ℕ, suc, ◌+◌, ◌≤◌, ◌<◌, ◌≡◌, refl, ap, ◌∙◌, subst, false, ◌&&◌, List, [], ◌∷◌, ◌++◌, Option, ltb,
  ◌==◌, if◌then◌else◌, length, arith,
}
use hanlin.Wfs.Disk.{Entry, find_last, max_from, inode_size}
use hanlin.Wfs.Layout.{total}
use hanlin.Wfs.Fsck.{compact}
use hanlin.Wfs.Fsck.Scan.{IsLog, address}

-- Each inode has one version, which is live, and their numbers ascend from `n` on.
abbrev pub IsCompact : ℕ → List Entry → Type 0
IsCompact n [] = Unit
IsCompact n (e ∷ es) =
    (e.inode.deleted ≡ 0) × (n ≤ e.inode.inode_number) × IsCompact (suc e.inode.inode_number) es

abbrev pub AllBelow : ℕ → List Entry → Type 0
AllBelow n [] = Unit
AllBelow n (e ∷ es) = (e.inode.inode_number < n) × AllBelow n es

pub AllBelow-suc : (n : ℕ) (es : List Entry) → AllBelow n es → AllBelow (suc n) es
AllBelow-suc n [] below = tt
AllBelow-suc n (e ∷ es) (here, below) = (omega arith, AllBelow-suc n es below)

pub AllBelow-append :
    (n : ℕ) (es : List Entry) (e : Entry)
    → AllBelow n es
    → e.inode.inode_number < n
    → AllBelow n (es ++ (e ∷ []))
AllBelow-append n [] e below h = (h, tt)
AllBelow-append n (x ∷ es) e (here, below) h = (here, AllBelow-append n es e below h)

pub total-append : (xs ys : List Entry) → total (xs ++ ys) ≡ total xs + total ys
total-append [] ys = omega arith
total-append (x ∷ xs) ys = omega (arith, total-append xs ys)

pub address-append :
    (done rest : List Entry) (a : ℕ) → address (done ++ rest) a (length done) ≡ a + total done
address-append [] rest a = omega arith
address-append (e ∷ done) rest a =
    address-append done rest (a + inode_size + e.inode.size) ∙ omega arith

pub IsLog-append :
    (bytes : ℕ → ℕ) (a : ℕ) (done rest : List Entry)
    → IsLog bytes a (done ++ rest)
    → IsLog bytes (a + total done) rest
IsLog-append bytes a [] rest log = subst (λ x. IsLog bytes x rest) (omega arith) log
IsLog-append bytes a (e ∷ done) rest (here, log) =
    subst (λ x. IsLog bytes x rest) (omega arith)
      (IsLog-append bytes (a + inode_size + e.inode.size) done rest log)

-- Entries with smaller numbers are passed, and so are those with greater ones.
pub find_last-AllBelow :
    (done rest : List Entry) (ino i : ℕ) (f : Option ℕ)
    → AllBelow ino done
    → find_last (done ++ rest) ino i f ≡ find_last rest ino (i + length done) f
unfolding find_last
find_last-AllBelow [] rest ino i f below = ap (λ k. find_last rest ino k f) (omega arith)
find_last-AllBelow (e ∷ done) rest ino i f (here, below) =
    let other : (e.inode.inode_number == ino) ≡ false = ground arith in
    rw (find_last, other)
      (find_last-AllBelow done rest ino (suc i) f below
        ∙ ap (λ k. find_last rest ino k f) (omega arith))

pub find_last-start :
    (done rest : List Entry) (ino : ℕ) (f : Option ℕ)
    → AllBelow ino done
    → find_last (done ++ rest) ino 0 f ≡ find_last rest ino (length done) f
find_last-start done rest ino f below =
    find_last-AllBelow done rest ino 0 f below ∙ ap (λ k. find_last rest ino k f) (omega arith)

pub find_last-IsCompact :
    (es : List Entry) (n ino i : ℕ) (f : Option ℕ)
    → IsCompact n es
    → ino < n
    → find_last es ino i f ≡ f
unfolding find_last
find_last-IsCompact [] n ino i f compact h = refl
find_last-IsCompact (e ∷ es) n ino i f (live, from, compact) h =
    let other : (e.inode.inode_number == ino) ≡ false = ground arith in
    rw (find_last, other)
      (find_last-IsCompact es (suc e.inode.inode_number) ino (suc i) f compact (omega arith))

max_from-le-start : (es : List Entry) (m : ℕ) → m ≤ max_from es m
unfolding max_from
max_from-le-start [] m = omega arith
max_from-le-start (e ∷ es) m = ground (
  arith,
  max_from-le-start es
      (if ltb m e.inode.inode_number && e.inode.deleted == 0 then e.inode.inode_number else m),
)

-- The greatest number is not below that of a live entry.
pub max_from-append :
    (done rest : List Entry) (e : Entry) (m : ℕ)
    → e.inode.deleted ≡ 0
    → e.inode.inode_number ≤ max_from (done ++ (e ∷ rest)) m
unfolding max_from
max_from-append [] rest e m live =
    let greatest =
      if ltb m e.inode.inode_number && e.inode.deleted == 0 then e.inode.inode_number else m in
    ground (arith, max_from-le-start rest greatest)
max_from-append (x ∷ done) rest e m live = max_from-append done rest e _ live
