-- ===== src/Mmap/Regions.antt =====
-- The search for a free region.
use hanlin.Base.{
  ℕ, zero, suc, ◌+◌, ◌-◌, ◌*◌, ◌^◌, ◌≤◌, ◌<◌, ◌≡◌, ◌⊎◌, inl, inr, refl, sym, ◌∙◌, dec_lt,
  ℕ_discrete, true, false, Option, none, some, arith, Returns, returns, Returns-if, Returns-weaken,
  Bool-cases, ltb,
}
use hanlin.Mmap.{
  Memory, Page, entry, is_present, free_loop, is_region_free, find_loop, find_free_region, page_up,
  page_down, u32, mmap_base, kern_base,
}

-- No page with a byte of [va, va + size) is present.
abbrev pub IsFree : Memory → ℕ → ℕ → Type 0
IsFree m va size = (p : ℕ) → p * 4096 < va + size → va < (p + 1) * 4096 → entry m p ≡ none

is_present-false : (e : Option Page) → is_present e ≡ false → e ≡ none
is_present-false none h = refl
is_present-false (some page) h = cc

false_ne : false ≡ true → ⊥
false_ne h = cc

free_loop-true :
    (n : ℕ) (m : Memory) (a p : ℕ) → free_loop n m a ≡ true → a ≤ p → p < a + n → entry m p ≡ none
unfolding free_loop
free_loop-true zero m a p h low high = absurd (omega arith)
free_loop-true (suc n) m a p h low high = elim (Bool-cases (is_present (entry m a))) [
  | inl there ↦ absurd (false_ne (rw there at h))
  | inr free ↦ elim (dec_lt a p) [
    | yes later ↦ free_loop-true n m (a + 1) p (rw free at h) (omega arith) (omega arith)
    | no here ↦ let same : p ≡ a = omega arith in rw same (is_present-false (entry m a) free)
  ]
]

free_loop-none :
    (n : ℕ) (m : Memory) (a : ℕ)
    → ((p : ℕ) → a ≤ p → p < a + n → entry m p ≡ none)
    → free_loop n m a ≡ true
unfolding free_loop
free_loop-none zero m a h = refl
free_loop-none (suc n) m a h =
    rw (h a (omega arith) (omega arith))
      (free_loop-none n m (a + 1) (λ p low high. h p (omega arith) (omega arith)))

pub is_region_free-true :
    (m : Memory) (va size : ℕ)
    → va + size ≤ kern_base
    → is_region_free m va size ≡ true
    → IsFree m va size
unfolding is_region_free
is_region_free-true m va size h free p low high =
    free_loop-true (page_up (u32 (va + size)) - page_down va) m (page_down va) p free (omega arith)
      (omega arith)

pub is_region_free-IsFree :
    (m : Memory) (va size : ℕ)
    → va + size ≤ kern_base
    → IsFree m va size
    → is_region_free m va size ≡ true
unfolding is_region_free
is_region_free-IsFree m va size h free =
    free_loop-none (page_up (u32 (va + size)) - page_down va) m (page_down va)
      (λ p low high. free p (omega arith) (omega arith))

-- The addresses that the search tries.
abbrev pub candidate : ℕ → ℕ
candidate k = mmap_base + k * 4096

-- The answer of a search from candidate `k` on.
abbrev pub IsFirst : Memory → ℕ → ℕ → ℕ → Type 0
IsFirst m size k found =
    ((found ≡ 0)
      × ((j : ℕ) → k ≤ j → candidate j + size < kern_base → ¬ IsFree m (candidate j) size))
    ⊎ ((chosen : ℕ) × (found ≡ candidate chosen)
        × (k ≤ chosen)
        × (found + size < kern_base)
        × IsFree m found size
        × ((j : ℕ) → k ≤ j → j < chosen → ¬ IsFree m (candidate j) size))

region_full :
    (m : Memory) (va size : ℕ)
    → va + size ≤ kern_base
    → is_region_free m va size ≡ false
    → ¬ IsFree m va size
region_full m va size h taken free = false_ne (sym taken ∙ is_region_free-IsFree m va size h free)

IsFirst-later :
    (m : Memory) (size k found : ℕ)
    → ¬ IsFree m (candidate k) size
    → IsFirst m size (suc k) found
    → IsFirst m size k found
IsFirst-later m size k found taken (inl (e, none_free)) = inl (e, later)
  where
    later : (j : ℕ) → k ≤ j → candidate j + size < kern_base → ¬ IsFree m (candidate j) size
    later j low high = elim (ℕ_discrete j k) [
      | yes same ↦ rw same taken
      | no other ↦ none_free j (omega arith) high
    ]
IsFirst-later m size k found taken (inr (c, e, low, high, free, before)) =
    inr (c, e, omega arith, high, free, later)
  where
    later : (j : ℕ) → k ≤ j → j < c → ¬ IsFree m (candidate j) size
    later j h below = elim (ℕ_discrete j k) [
      | yes same ↦ rw same taken
      | no other ↦ before j (omega arith) below
    ]

find_loop-IsFirst :
    (fuel : ℕ) (m : Memory) (size k : ℕ)
    → size < 2 ^ 31
    → k ≤ 131072
    → 131072 < k + fuel
    → Returns (IsFirst m size k) (find_loop fuel m size (candidate k))
unfolding find_loop
find_loop-IsFirst zero m size k small low enough = absurd (omega arith)
find_loop-IsFirst (suc fuel) m size k small low enough =
    elim (dec_lt (candidate k + size) kern_base) [
      | no past ↦
          let out : ltb (u32 (candidate k + size)) kern_base ≡ false = ground arith in
          rw out (returns (inl (refl, λ j later below. absurd (omega arith))))
      | yes inside ↦
          let fits : ltb (u32 (candidate k + size)) kern_base ≡ true = ground arith in
          let step : u32 (candidate k + 4096) ≡ candidate (suc k) = omega arith in
          let rest = find_loop-IsFirst fuel m size (suc k) small (omega arith) (omega arith) in
          rw fits (
            Returns-if (is_region_free m (candidate k) size)
              (λ free. returns (
                inr (
                  k,
                  refl,
                  omega arith,
                  inside,
                  is_region_free-true m (candidate k) size (omega arith) free,
                  λ j low' below. absurd (omega arith),
                )))
              (λ taken. Returns-weaken (rw step rest) (λ found first.
                IsFirst-later m size k found (region_full m (candidate k) size (omega arith) taken)
                  first)))
    ]

-- For a size below 2 ^ 31, `find_free_region` returns the first of the page addresses from MMAPBASE on
-- at which a region of that size ends below KERNBASE and has no present page, or 0 when there is none.
pub find_free_region_correct :
    (m : Memory) (size : ℕ) → size < 2 ^ 31 → Returns (IsFirst m size 0) (find_free_region m size)
unfolding find_free_region
find_free_region_correct m size small =
    find_loop-IsFirst 131073 m size 0 small (omega arith) (omega arith)
