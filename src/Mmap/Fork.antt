-- ===== src/Mmap/Fork.antt =====
-- `copyrange` in `fork`: the child's mappings.
use hanlin.Base.{
  ℕ, zero, suc, ◌+◌, ◌-◌, ◌%◌, ◌≤◌, ◌<◌, ◌≡◌, ◌≢◌, inl, inr, refl, sym, ◌∙◌, ℕ_discrete, Bool, true,
  false, none, some, arith, Returns, returns, Returns-weaken, Returns->>=, ok, Option-cases,
}
use hanlin.Mmap.{Memory, Page, entry, kern_base, page_up, page_down, copy_loop, copyrange}
use hanlin.Mmap.Pages.{Mapped, map_page-Mapped}
use hanlin.Mmap.Filling.{SameOutside}

-- After the copy the pages from `a` to before `b` are those of the source; a copy that fails has at
-- most one frame left, and has changed no other page.
abbrev pub IsCopied : Memory → Memory → ℕ → ℕ → Memory × Bool → Type 0
IsCopied source target a b (next, true) =
    ((p : ℕ) → a ≤ p → p < b → entry next p ≡ entry source p) × SameOutside target next a b
IsCopied source target a b (next, false) = (next.frames ≤ 1) × SameOutside target next a b

-- One page is copied, and then the others.
IsCopied-extend :
    (source target middle : Memory) (a b : ℕ)
    → a < b
    → entry middle a ≡ entry source a
    → ((p : ℕ) → p ≢ a → entry middle p ≡ entry target p)
    → (done : Memory × Bool) → IsCopied source middle (a + 1) b done
    → IsCopied source target a b done
IsCopied-extend source target middle a b h here same (next, true) (copied, outside) =
    (first_or_later, λ p out. outside p (omega arith) ∙ same p (λ e. omega arith))
  where
    first_or_later : (p : ℕ) → a ≤ p → p < b → entry next p ≡ entry source p
    first_or_later p low high = elim (ℕ_discrete p a) [
      | yes first ↦ rw first (outside a (inl (omega arith)) ∙ here)
      | no later ↦ copied p (omega arith) high
    ]
IsCopied-extend source target middle a b h here same (next, false) (few, outside) =
    (few, λ p out. outside p (omega arith) ∙ same p (λ e. omega arith))

copy_loop-IsCopied :
    (n : ℕ) (source target : Memory) (a : ℕ)
    → ((p : ℕ) → a ≤ p → p < a + n → entry target p ≡ none)
    → Returns (IsCopied source target a (a + n)) (copy_loop n source target a)
unfolding copy_loop
copy_loop-IsCopied zero source target a free =
    returns ((λ p low high. absurd (omega arith)), λ p out. refl)
copy_loop-IsCopied (suc n) source target a free =
    let rest =
      λ (middle : Memory) (still : (p : ℕ) → a + 1 ≤ p → p < a + 1 + n → entry middle p ≡ none).
        copy_loop-IsCopied n source middle (a + 1) still in
    elim (Option-cases (entry source a)) [
      | inl absent ↦
          rw (copy_loop, absent)
            (go_on target (free a (omega arith) (omega arith) ∙ sym absent) (λ p other. refl)
              (rest target (λ p low high. free p (omega arith) (omega arith))))
      | inr (page, e) ↦
          rw (copy_loop, e)
            (Returns->>= (map_page-Mapped target a page (free a (omega arith) (omega arith)))
              (after_page page e rest))
    ]
  where
    same_end : a + 1 + n ≡ a + suc n
    same_end = omega arith

    go_on :
        (middle : Memory)
        → entry middle a ≡ entry source a
        → ((p : ℕ) → p ≢ a → entry middle p ≡ entry target p)
        → Returns (IsCopied source middle (a + 1) (a + 1 + n)) (copy_loop n source middle (a + 1))
        → Returns (IsCopied source target a (a + suc n)) (copy_loop n source middle (a + 1))
    go_on middle here same copied =
        Returns-weaken (rw same_end at copied)
          (IsCopied-extend source target middle a (a + suc n) (omega arith) here same)

    after_page :
        (page : Page)
        → entry source a ≡ some page
        → ((middle : Memory)
            → ((p : ℕ) → a + 1 ≤ p → p < a + 1 + n → entry middle p ≡ none)
            → Returns
                (IsCopied source middle (a + 1) (a + 1 + n))
                (copy_loop n source middle (a + 1)))
        → (done : Memory × Bool) → Mapped target a page done
        → Returns
            (IsCopied source target a (a + suc n))
            (elim done.1 [ true ↦ copy_loop n source done.0 (a + 1) | false ↦ ok done ])
    after_page page e rest (middle, false) (few, same) = returns (few, λ p out. same p)
    after_page page e rest (middle, true) mapped =
        go_on middle (ground (arith, mapped a) ∙ sym e) (λ p other. ground (arith, mapped p))
          (rest middle (λ p low high. ground (arith, mapped p, free p)))

-- Copying a range of pages that the target has not, below KERNBASE, returns. When it succeeds, the
-- target shows in the range the same pages as the source, with their flags and bytes, and the other
-- pages of the target are as before. It fails only when at most one frame is left, too few for another
-- page and its table, and then only pages of the range have changed.
pub copyrange_correct :
    (source target : Memory) (start end : ℕ)
    → start % 4096 ≡ 0
    → end % 4096 ≡ 0
    → start ≤ end
    → end ≤ kern_base
    → ((p : ℕ) → page_down start ≤ p → p < page_down end → entry target p ≡ none)
    → Returns
        (IsCopied source target (page_down start) (page_down end))
        (copyrange source target start end)
unfolding copyrange
copyrange_correct source target start end aligned aligned_end order below free = rw last at (
    copy_loop-IsCopied (page_up end - page_down start) source target (page_down start)
      (λ p low high. free p low (omega arith)))
  where
    last : page_down start + (page_up end - page_down start) ≡ page_down end
    last = omega arith
