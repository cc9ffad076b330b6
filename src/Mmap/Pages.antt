-- ===== src/Mmap/Pages.antt =====
-- What the loops over pages leave in the page table.
use hanlin.Base.{
  ℕ, zero, suc, ◌+◌, ◌/◌, ◌≤◌, ◌<◌, ◌≡◌, inl, inr, refl, ap, ◌∙◌, Bool, true, false, none, some,
  if◌then◌else◌, arith, Returns, returns, Returns-weaken, Bool-cases, Option-cases, ok, Returns->>=,
  ◌==◌,
}
use hanlin.Mmap.{
  Memory, Page, entry, is_present, kalloc, kfree, walkpgdir, with_table, install, fresh, map_page,
  map_loop,
}
use hanlin.Mmap.Filling.{
  Filled, SameOutside, entry-set_entry, entry-with_table, Filled-extend, Filled-none, Kept,
  kalloc-Kept, Walked,
}

-- What mapping one page leaves. It fails only with at most one frame left, too few for a page and its
-- table.
abbrev pub Mapped : Memory → ℕ → Page → Memory × Bool → Type 0
Mapped m a page (next, true) = (q : ℕ) → entry next q ≡ (if q == a then some page else entry m q)
Mapped m a page (next, false) = (next.frames ≤ 1) × ((q : ℕ) → entry next q ≡ entry m q)

table_made :
    (m taken : Memory) (p : ℕ)
    → Kept m (some taken)
    → m.tables (p / 1024) ≡ false
    → Walked m p (some (with_table taken (p / 1024)))
unfolding with_table
table_made m taken p (tables, kept) missing =
    let absent : taken.tables (p / 1024) ≡ false = rw tables missing in
    ((λ q. entry-with_table taken (p / 1024) q absent ∙ kept q), ground arith)

walkpgdir-Walked : (m : Memory) (p : ℕ) → Walked m p (walkpgdir m p)
unfolding walkpgdir
walkpgdir-Walked m p = elim (Bool-cases (m.tables (p / 1024))) [
  | inl table ↦ rw table ((λ q. refl), table)
  | inr missing ↦ elim (Option-cases (kalloc m)) [
    | inl empty ↦ rw (missing, empty) tt
    | inr (taken, e) ↦ rw (missing, e) (table_made m taken p (rw e at (kalloc-Kept m)) missing)
  ]
]

entry-kfree : (m : Memory) (q : ℕ) → entry (kfree m) q ≡ entry m q
unfolding entry kfree
entry-kfree m q = refl

pages-absent :
    (m : Memory) (a : ℕ)
    → m.tables (a / 1024) ≡ true
    → entry m a ≡ none
    → is_present (m.pages a) ≡ false
unfolding entry
pages-absent m a table free = ap is_present (rw table at free)

install-Mapped :
    (m walked : Memory) (a : ℕ) (page : Page)
    → ((q : ℕ) → entry walked q ≡ entry m q)
    → walked.tables (a / 1024) ≡ true
    → entry m a ≡ none
    → Returns (Mapped m a page) (install walked a page)
unfolding install
install-Mapped m walked a page same table free =
    let absent = pages-absent walked a table (same a ∙ free) in
    rw (install, absent)
      (returns (λ q. rw (← same q) (entry-set_entry walked a q (some page) table)))

kalloc-none : (m : Memory) → kalloc m ≡ none → m.frames ≤ 1
unfolding kalloc
kalloc-none m h = ground arith

walkpgdir-none : (m : Memory) (p : ℕ) → walkpgdir m p ≡ none → (kfree m).frames ≤ 1
unfolding walkpgdir kfree kalloc
walkpgdir-none m p h = ground arith

pub map_page-Mapped :
    (m : Memory) (a : ℕ) (page : Page)
    → entry m a ≡ none
    → Returns (Mapped m a page) (map_page m a page)
unfolding map_page
map_page-Mapped m a page free = elim (Option-cases (kalloc m)) [
  | inl empty ↦ rw (map_page, empty) (returns (kalloc-none m empty, λ q. refl))
  | inr (taken, e) ↦
      let (tables, kept) = rw e at (kalloc-Kept m) in
      elim (Option-cases (walkpgdir taken a)) [
        | inl empty ↦
            rw (map_page, e, empty)
              (returns (walkpgdir-none taken a empty, λ q. entry-kfree taken q ∙ kept q))
        | inr (walked, e') ↦
            let (same, table) = rw e' at (walkpgdir-Walked taken a) in
            rw (map_page, e, e') (install-Mapped m walked a page (λ q. same q ∙ kept q) table free)
      ]
]

-- What the loop of `map_pages` leaves, whether it succeeds or fails.
abbrev pub LoopMapped : Memory → ℕ → ℕ → ℕ → Memory × Bool → Type 0
LoopMapped m a last perm (next, true) = Filled m next a last (some (fresh perm))
LoopMapped m a last perm (next, false) = SameOutside m next a last

LoopMapped-extend :
    (m next : Memory) (a last perm : ℕ)
    → a < last
    → Mapped m a (fresh perm) (next, true)
    → (done : Memory × Bool) → LoopMapped next (a + 1) last perm done
    → LoopMapped m a last perm done
LoopMapped-extend m next a last perm h first (final, true) rest =
    Filled-extend m next final a (a + 1) last (some (fresh perm)) (omega arith)
      (λ p out. ground (arith, first p)) (λ p low high end. ground (arith, first p)) rest
LoopMapped-extend m next a last perm h first (final, false) rest =
    λ p out. rest p (omega arith) ∙ ground (arith, first p)

pub map_loop-LoopMapped :
    (n : ℕ) (m : Memory) (a perm : ℕ)
    → ((p : ℕ) → a ≤ p → p < a + n → entry m p ≡ none)
    → Returns (LoopMapped m a (a + n) perm) (map_loop n m a perm)
unfolding map_loop
map_loop-LoopMapped zero m a perm free =
    returns (Filled-none m a (a + 0) (some (fresh perm)) (omega arith))
map_loop-LoopMapped (suc n) m a perm free =
    Returns->>= (map_page-Mapped m a (fresh perm) (free a (omega arith) (omega arith)))
      (go_on (λ next. map_loop-LoopMapped n next (a + 1) perm))
  where
    go_on :
        ((next : Memory)
          → ((p : ℕ) → a + 1 ≤ p → p < a + 1 + n → entry next p ≡ none)
          → Returns (LoopMapped next (a + 1) (a + 1 + n) perm) (map_loop n next (a + 1) perm))
        → (done : Memory × Bool) → Mapped m a (fresh perm) done
        → Returns
            (LoopMapped m a (a + suc n) perm)
            (elim done.1 [ true ↦ map_loop n done.0 (a + 1) perm | false ↦ ok done ])
    go_on rest (next, false) same = returns (λ p out. same.1 p)
    go_on rest (next, true) first =
        let same_end : a + 1 + n ≡ a + suc n = omega arith in
        let still_free : (p : ℕ) → a + 1 ≤ p → p < a + 1 + n → entry next p ≡ none =
          λ p low high. ground (arith, first p, free p) in
        Returns-weaken (rw same_end at (rest next still_free))
          (LoopMapped-extend m next a (a + suc n) perm (omega arith) first)
