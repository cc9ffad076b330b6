-- ===== src/Mmap/Undo.antt =====
-- Mapping pages, and taking them away again.
use hanlin.Base.{
  ℕ, ◌+◌, ◌-◌, ◌/◌, ◌%◌, ◌≤◌, ◌<◌, ◌≡◌, ◌⊎◌, inl, inr, refl, sym, ◌∙◌, dec_lt, Bool, true, false,
  none, some, if◌then◌else◌, arith, Returns, returns, ok, Returns->>=, subst,
}
use hanlin.Mmap.{Memory, entry, page_up, page_down, u32, kern_base, fresh, map_pages, deallocuvm}
use hanlin.Mmap.Regions.{IsFree}
use hanlin.Mmap.Pages.{LoopMapped, map_loop-LoopMapped}
use hanlin.Mmap.Filling.{Filled, SameOutside, deallocuvm-Filled}

-- The page table shows the same pages.
abbrev pub SameEntries : Memory → Memory → Type 0
SameEntries m m' = (p : ℕ) → entry m' p ≡ entry m p

-- The number of the page behind the last one of a region.
abbrev pub end_page : ℕ → ℕ → ℕ
end_page va size = (va + size + 4095) / 4096

-- A region that was free is taken away.
pub undone :
    (m mapped freed : Memory) (a b : ℕ)
    → ((p : ℕ) → a ≤ p → p < b → entry m p ≡ none)
    → SameOutside m mapped a b
    → Filled mapped freed a b none
    → SameEntries m freed
undone m mapped freed a b free same gone p = elim (dec_lt p a) [
  | yes below ↦ gone.outside p (inl below) ∙ same p (inl below)
  | no above ↦ elim (dec_lt p b) [
    | yes inside ↦ gone.inside p (omega arith) inside ∙ sym (free p (omega arith) inside)
    | no past ↦ gone.outside p (inr (omega arith)) ∙ same p (inr (omega arith))
  ]
]

pub deallocuvm-aligned :
    (m : Memory) (va size top : ℕ)
    → va % 4096 ≡ 0
    → va + size ≤ kern_base
    → va + size ≡ top
    → Filled m (deallocuvm m top va).0 (page_down va) (end_page va size) none
deallocuvm-aligned m va size top aligned below same =
    let start : page_up va ≡ page_down va = omega arith in
    subst (λ e. Filled m (deallocuvm m e va).0 (page_down va) (end_page va size) none) same
      (subst (λ a. Filled m (deallocuvm m (va + size) va).0 a (end_page va size) none) start
        (deallocuvm-Filled m va size below))

-- `deallocuvm` of a region that was free gives the page table back.
pub deallocuvm-SameEntries :
    (m mapped : Memory) (va size top : ℕ)
    → va % 4096 ≡ 0
    → va + size ≤ kern_base
    → IsFree m va size
    → SameOutside m mapped (page_down va) (end_page va size)
    → va + size ≡ top
    → SameEntries m (deallocuvm mapped top va).0
deallocuvm-SameEntries m mapped va size top aligned below free same e =
    undone m mapped (deallocuvm mapped top va).0 (page_down va) (end_page va size)
      (λ p low high. free p (omega arith) (omega arith)) same
      (deallocuvm-aligned mapped va size top aligned below e)

-- The region is mapped to pages of zeros at `va`, or nothing is and the result is null.
abbrev pub MappedOrNot : Memory → ℕ → ℕ → ℕ → Memory × ℕ → Type 0
MappedOrNot m va size perm done =
    ((done.1 ≡ va) × Filled m done.0 (page_down va) (end_page va size) (some (fresh perm)))
    ⊎ ((done.1 ≡ 0) × SameEntries m done.0)

-- `map_pages` of a free region below KERNBASE that starts at the address of a page returns: with
-- `va`, and then the region's pages are zero and have the flags `perm`, and all other pages are as
-- before; or, when no frame is left, with the null pointer, and then every page is as before.
pub map_pages_correct :
    (m : Memory) (va size perm : ℕ)
    → va % 4096 ≡ 0
    → va + size ≤ kern_base
    → IsFree m va size
    → Returns (MappedOrNot m va size perm) (map_pages m va size perm)
unfolding map_pages
map_pages_correct m va size perm aligned below free =
    Returns->>= (rw last at (map_loop-LoopMapped n m (page_down va) perm no_pages)) finish
  where
    n : ℕ
    n = page_up (u32 (va + size)) - page_down va

    last : page_down va + n ≡ end_page va size
    last = omega arith

    no_pages : (p : ℕ) → page_down va ≤ p → p < page_down va + n → entry m p ≡ none
    no_pages p low high = free p (omega arith) (omega arith)

    finish :
        (done : Memory × Bool)
        → LoopMapped m (page_down va) (end_page va size) perm done
        → Returns
            (MappedOrNot m va size perm)
            (if done.1 then ok (done.0, va) else ok ((deallocuvm done.0 (u32 (va + size)) va).0, 0))
    finish (next, true) filled = returns (inl (refl, filled))
    finish (next, false) same = returns (
        inr (
          refl,
          deallocuvm-SameEntries m next va size (u32 (va + size)) aligned below free same
              (omega arith),
        ))
