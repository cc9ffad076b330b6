-- ===== src/Wfs/Lookup.antt =====
-- What the scans of the log find, before and after an entry is appended.
use hanlin.Base.{
  ℕ, zero, suc, ◌+◌, ◌^◌, ◌≤◌, ◌<◌, ◌≡◌, ◌⊎◌, inl, inr, refl, ◌∙◌, ap, true, false, ◌&&◌, List, [],
  ◌∷◌, ◌++◌, Option, none, some, ltb, ◌==◌, if◌then◌else◌, length, get_or, arith, Bool-cases,
}
use hanlin.Wfs.Disk.{
  Entry, Disk, blank, entry_at, is_live, find_last, inodenum_to_logentry, max_from,
  find_max_inodenum, u32,
}
use hanlin.Wfs.Ops.{append}

-- Position `j` of the log holds the newest version of the inode: a live one, with no live one behind it.
abbrev pub Newest : List Entry → ℕ → ℕ → Type 0
Newest es ino j =
    (j < length es)
    × (is_live (get_or es j blank) ino ≡ true)
    × ((k : ℕ) → j < k → k < length es → is_live (get_or es k blank) ino ≡ false)

-- What a scan that has passed `i` entries and found `f` among them ends with.
find_last-append :
    (es : List Entry) (e : Entry) (ino i : ℕ) (f : Option ℕ)
    → find_last (es ++ (e ∷ [])) ino i f
      ≡ (if is_live e ino then some (i + length es) else find_last es ino i f)
unfolding find_last
find_last-append [] e ino i f = ap (λ n. if is_live e ino then some n else f) (omega arith)
find_last-append (x ∷ es) e ino i f =
    let seen = if is_live x ino then some i else f in
    find_last-append es e ino (suc i) seen
    ∙ ap (λ n. if is_live e ino then some n else find_last es ino (suc i) seen) (omega arith)

-- The entry that was appended last is found if it is live.
pub inodenum_to_logentry-append :
    (d : Disk) (e : Entry) (ino : ℕ)
    → inodenum_to_logentry (append d e) ino
      ≡ (if is_live e ino then some (length d.log) else inodenum_to_logentry d ino)
unfolding append inodenum_to_logentry
inodenum_to_logentry-append d e ino =
    find_last-append d.log e ino 0 none
    ∙ ap (λ n. if is_live e ino then some n else find_last d.log ino 0 none) (omega arith)

-- No live version of the inode stands behind position `j`.
abbrev DeadAfter : List Entry → ℕ → ℕ → Type 0
DeadAfter es ino j = (k : ℕ) → j < k → k < length es → is_live (get_or es k blank) ino ≡ false

DeadAfter-cons :
    (e : Entry) (es : List Entry) (ino j : ℕ) → DeadAfter es ino j → DeadAfter (e ∷ es) ino (suc j)
DeadAfter-cons e es ino j dead zero lo hi = absurd (omega (arith, lo))
DeadAfter-cons e es ino j dead (suc k) lo hi = dead k (omega (arith, lo)) (omega (arith, hi))

-- The scan of `es` from position `i` on finds the newest version, or finds none and keeps `f`.
abbrev Found : List Entry → ℕ → ℕ → Option ℕ → Type 0
Found es ino i f =
    ((j : ℕ) × (find_last es ino i f ≡ some (i + j)) × Newest es ino j)
    ⊎ ((find_last es ino i f ≡ f)
        × ((k : ℕ) → k < length es → is_live (get_or es k blank) ino ≡ false))

-- The entry before is live, and nothing behind it is.
Newest-head :
    (e : Entry) (es : List Entry) (ino : ℕ)
    → is_live e ino ≡ true
    → ((k : ℕ) → k < length es → is_live (get_or es k blank) ino ≡ false)
    → Newest (e ∷ es) ino 0
Newest-head e es ino live dead = (omega arith, live, go)
  where
    go : DeadAfter (e ∷ es) ino 0
    go zero lo hi = absurd (omega (arith, lo))
    go (suc k) lo hi = dead k (omega (arith, hi))

dead-cons :
    (e : Entry) (es : List Entry) (ino : ℕ)
    → is_live e ino ≡ false
    → ((k : ℕ) → k < length es → is_live (get_or es k blank) ino ≡ false)
    → (k : ℕ) → k < length (e ∷ es)
    → is_live (get_or (e ∷ es) k blank) ino ≡ false
dead-cons e es ino gone dead zero hi = gone
dead-cons e es ino gone dead (suc k) hi = dead k (omega (arith, hi))

find_last_correct : (es : List Entry) (ino i : ℕ) (f : Option ℕ) → Found es ino i f
unfolding find_last
find_last_correct [] ino i f = inr (refl, λ k h. absurd (omega (arith, h)))
find_last_correct (e ∷ es) ino i f =
    elim (find_last_correct es ino (suc i) (if is_live e ino then some i else f)) [
      | inl (j, found, newest) ↦ inl (
        suc j,
        found ∙ ap some (omega arith),
        (omega (arith, newest.0), newest.1, DeadAfter-cons e es ino j newest.2),
      )
      | inr (kept, dead) ↦ elim (Bool-cases (is_live e ino)) [
        | inl live ↦ inl (0, kept ∙ rw live (ap some (omega arith)), Newest-head e es ino live dead)
        | inr gone ↦ inr (kept ∙ rw gone, dead-cons e es ino gone dead)
      ]
    ]

-- `inodenum_to_logentry` finds the newest version of the inode, and NULL exactly if no version in
-- the log is live.
pub inodenum_to_logentry_correct :
    (d : Disk) (ino : ℕ)
    → ((j : ℕ) × (inodenum_to_logentry d ino ≡ some j) × Newest d.log ino j)
      ⊎ ((inodenum_to_logentry d ino ≡ none)
          × ((k : ℕ) → k < length d.log → is_live (entry_at d k) ino ≡ false))
unfolding inodenum_to_logentry
inodenum_to_logentry_correct d ino = elim (find_last_correct d.log ino 0 none) [
  | inl (j, found, newest) ↦ inl (j, found ∙ ap some (omega arith), newest)
  | inr missing ↦ inr missing
]

is_live-deleted : (e : Entry) (ino : ℕ) → is_live e ino ≡ true → e.inode.deleted ≡ 0
is_live-deleted e ino h = ground arith

is_live-number : (e : Entry) (ino : ℕ) → is_live e ino ≡ true → e.inode.inode_number ≡ ino
is_live-number e ino h = ground arith

max_from-le : (es : List Entry) (m : ℕ) → m ≤ max_from es m
unfolding max_from
max_from-le [] m = omega arith
max_from-le (e ∷ es) m =
    let next =
      if ltb m e.inode.inode_number && e.inode.deleted == 0 then e.inode.inode_number else m in
    let here : m ≤ next = ground arith in omega (arith, here, max_from-le es next)

max_from-live :
    (es : List Entry) (m k : ℕ)
    → k < length es
    → (get_or es k blank).inode.deleted ≡ 0
    → (get_or es k blank).inode.inode_number ≤ max_from es m
unfolding max_from
max_from-live [] m k h live = absurd (omega (arith, h))
max_from-live (e ∷ es) m zero h live =
    let next =
      if ltb m e.inode.inode_number && e.inode.deleted == 0 then e.inode.inode_number else m in
    let here : e.inode.inode_number ≤ next = ground arith in
    omega (arith, here, max_from-le es next)
max_from-live (e ∷ es) m (suc k) h live = max_from-live es _ k (omega (arith, h)) live

-- The inode number that a new file gets is that of no live version, as long as the numbers do not
-- run out.
pub new_inodenum-unused :
    (d : Disk)
    → find_max_inodenum d + 1 < 2 ^ 32
    → inodenum_to_logentry d (u32 (find_max_inodenum d + 1)) ≡ none
unfolding find_max_inodenum
new_inodenum-unused d small = elim (inodenum_to_logentry_correct d (u32 (max_from d.log 0 + 1))) [
  | inr (missing, _) ↦ missing
  | inl (j, found, newest) ↦
      let at = max_from-live d.log 0 j newest.0 (is_live-deleted (entry_at d j) _ newest.1) in
      let number = is_live-number (entry_at d j) _ newest.1 in
      absurd (omega (arith, at, number, small))
]
