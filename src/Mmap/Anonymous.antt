-- ===== src/Mmap/Anonymous.antt =====
-- `mmap` with MAP_ANON.
use hanlin.Base.{
  ℕ, ◌+◌, ◌%◌, ◌^◌, ◌≤◌, ◌<◌, ◌≡◌, inl, inr, refl, sym, ◌∙◌, Bool, true, false, Option, none, some,
  if◌then◌else◌, arith, Returns, returns, ok, Returns->>=, subst, leb, ltb, ◌==◌, ◌||◌, ◌&&◌, not,
  Returns-if,
}
use hanlin.Mmap.{Memory, page_down, mmap_base, kern_base, fresh, is_region_free}
use hanlin.Mmap.Calls.{
  Files, is_anon, is_fixed, user_writable, map_at, map_anywhere, map_somewhere, mmap,
}
use hanlin.Mmap.Regions.{IsFree, IsFirst, find_free_region_correct, is_region_free-true}
use hanlin.Mmap.Filling.{Filled}
use hanlin.Mmap.Undo.{SameEntries, end_page, MappedOrNot, map_pages_correct}

-- A place for a mapping.
pub record IsPlace (m : Memory) (va length : ℕ) : Type 0 where
  pub low : mmap_base ≤ va
  pub aligned : va % 4096 ≡ 0
  pub below : va + length < kern_base
  pub free : IsFree m va length

-- Nothing is mapped, or zero pages in a place that was free.
abbrev pub Anonymous : Memory → ℕ → Memory × Option ℕ → Type 0
Anonymous m length (next, none) = SameEntries m next
Anonymous m length (next, some va) =
    IsPlace m va length
    × Filled m next (page_down va) (end_page va length) (some (fresh user_writable))

map_at-Anonymous :
    (m : Memory) (va length : ℕ)
    → IsPlace m va length
    → Returns (Anonymous m length) (map_at m va length)
unfolding map_at
map_at-Anonymous m va length place =
    Returns->>=
      (map_pages_correct m va length user_writable place.aligned (omega (arith, place.below))
        place.free)
      finish
  where
    finish :
        (done : Memory × ℕ)
        → MappedOrNot m va length user_writable done
        → Returns (Anonymous m length) (ok (done.0, if done.1 == 0 then none else some done.1))
    finish (next, result) (inl (e, filled)) =
        let positive : (result == 0) ≡ false = ground (arith, place.low) in
        rw positive (
          returns (
            subst (λ a. IsPlace m a length) (sym e) place,
            subst
                (λ a. Filled m next (page_down a) (end_page a length) (some (fresh user_writable)))
                (sym e) filled,
          ))
    finish (next, result) (inr (e, same)) = rw e (returns same)

map_anywhere-Anonymous :
    (m : Memory) (length : ℕ)
    → length < 2 ^ 31
    → Returns (Anonymous m length) (map_anywhere m length)
unfolding map_anywhere
map_anywhere-Anonymous m length small =
    Returns->>= (find_free_region_correct m length small) place_it
  where
    place_it :
        (va : ℕ)
        → IsFirst m length 0 va
        → Returns (Anonymous m length) (if va == 0 then ok (m, none) else map_at m va length)
    place_it va (inl (nowhere, no_place)) =
        Returns-if (va == 0) (λ zero_address. returns (λ p. refl))
          (λ positive. absurd (ground arith))
    place_it va (inr (k, e, low, below, free, first)) =
        Returns-if (va == 0) (λ zero_address. absurd (ground arith))
          (λ positive.
            map_at-Anonymous m va length
              (record { low = omega arith; aligned = omega arith; below = below; free = free }))

-- What a call with MAP_FIXED must be given.
abbrev pub IsAddress : ℕ → ℕ → Type 0
IsAddress addr length = (addr % 4096 ≡ 0) × (addr + length < kern_base)

map_somewhere-Anonymous :
    (m : Memory) (addr length flags : ℕ)
    → length < 2 ^ 31
    → (is_fixed flags ≡ true → IsPlace m addr length)
    → Returns (Anonymous m length) (map_somewhere m addr length flags)
unfolding map_somewhere
map_somewhere-Anonymous m addr length flags small place =
    Returns-if (is_fixed flags) (λ fixed. map_at-Anonymous m addr length (place fixed))
      (λ anywhere. map_anywhere-Anonymous m length small)

fixed_place :
    (m : Memory) (addr length : ℕ) (fixed outside region_free : Bool)
    → (fixed && outside) ≡ false
    → (fixed && not region_free) ≡ false
    → fixed ≡ true
    → (outside ≡ false) × (region_free ≡ true)
fixed_place m addr length true false true inside free fixed = (refl, refl)
fixed_place m addr length true true r inside free fixed = absurd cc
fixed_place m addr length true false false inside free fixed = absurd cc
fixed_place m addr length false o r inside free fixed = absurd cc

pub mmap-Anonymous :
    (files : Files) (m : Memory) (addr length flags fd : ℕ)
    → is_anon flags ≡ true
    → length < 2 ^ 31
    → (is_fixed flags ≡ true → IsAddress addr length)
    → Returns (Anonymous m length) (mmap files m addr length flags fd)
unfolding mmap
mmap-Anonymous files m addr length flags fd anon small address =
    Returns-if (is_fixed flags && (leb kern_base addr || ltb addr mmap_base))
      (λ outside. returns (λ p. refl))
      (λ inside.
        Returns-if (is_fixed flags && not (is_region_free m addr length))
          (λ taken. returns (λ p. refl))
          (λ free.
            Returns-if (is_anon flags)
              (λ _. map_somewhere-Anonymous m addr length flags small (place inside free))
              (λ file. absurd (differ (sym file ∙ anon)))))
  where
    differ : false ≡ true → ⊥
    differ h = cc

    place :
        (is_fixed flags && (leb kern_base addr || ltb addr mmap_base)) ≡ false
        → (is_fixed flags && not (is_region_free m addr length)) ≡ false
        → is_fixed flags ≡ true
        → IsPlace m addr length
    place inside free fixed =
        let (aligned, below) = address fixed in
        let (range, region) =
          fixed_place m addr length (is_fixed flags) (leb kern_base addr || ltb addr mmap_base)
            (is_region_free m addr length) inside free fixed in
        record {
          low = ground arith;
          aligned = aligned;
          below = below;
          free = is_region_free-true m addr length (omega arith) region;
        }
