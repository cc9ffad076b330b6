-- ===== src/Mmap/Exit/Entries.antt =====
-- The entries of `maparray` before and after one of them is cleared.
use mathlib.Core.Option.{some-injective}
use hanlin.Base.{
  ℕ, zero, suc, ◌≤◌, ◌<◌, ◌≡◌, ◌≢◌, ◌⊎◌, inl, inr, refl, sym, ◌∙◌, ap, subst, true, List, [], ◌∷◌,
  map, none, some, get_elem?, arith, dec_lt, ℕ_discrete,
}
use hanlin.Mmap.{Memory, entry, page_down}
use hanlin.Mmap.Calls.{Mapping, Process, clear, unused, is_anon, slot_of}
use hanlin.Mmap.Undo.{end_page}
use hanlin.Mmap.Valid.{Each, Each-get_elem?, IsBacked, Disjoint, Apart, others_elsewhere}
use hanlin.Mmap.Exit.{WriteBack}

-- The page is one of a mapping's.
abbrev pub InEntry : List Mapping → ℕ → Type 0
InEntry l page =
    (i : ℕ) × (x : Mapping) × (get_elem? l i ≡ some x)
    × (page_down x.addr ≤ page)
    × (page < end_page x.addr x.len)

-- Every entry is cleared, the pages of the mappings are gone, every other page is as before, and no
-- file was written.
pub record IsEmptied (p : Process) (r : Process × List WriteBack) : Type 0 where
  pub cleared : (i : ℕ) (x : Mapping) → get_elem? r.0.maparray i ≡ some x → x ≡ unused
  pub gone : (page : ℕ) → InEntry p.maparray page → entry r.0.memory page ≡ none
  pub others : (page : ℕ) → ¬ InEntry p.maparray page → entry r.0.memory page ≡ entry p.memory page
  pub written : r.1 ≡ []

abbrev pub IsAnonymous : Mapping → Type 0
IsAnonymous x = x.addr ≢ 0 → is_anon x.flag ≡ true

-- An entry is in use exactly if its address is not 0.
module _ (m : Memory) (x : Mapping) (backed : IsBacked m x) where
  pub used_address : 0 < x.len → x.addr ≢ 0
  used_address used e = omega (arith, backed.low used)

  pub address_used : x.addr ≢ 0 → 0 < x.len
  address_used there = elim (dec_lt 0 x.len) [
    | yes used ↦ used
    | no empty ↦ absurd (there (ap (λ (z : Mapping). z.addr) (backed.cleared (omega arith))))
  ]

  pub unused_entry : x.addr ≡ 0 → x ≡ unused
  unused_entry none_there = backed.cleared (elim (dec_lt 0 x.len) [
    | yes used ↦ absurd (used_address used none_there)
    | no empty ↦ omega arith
  ])

Disjoint-addr : (x y : Mapping) → 0 < x.len → 0 < y.len → Disjoint y x → y.addr ≢ x.addr
Disjoint-addr x y used used' (inl empty) e = omega arith
Disjoint-addr x y used used' (inr (inl empty)) e = omega arith
Disjoint-addr x y used used' (inr (inr (inl before))) e = omega arith
Disjoint-addr x y used used' (inr (inr (inr after))) e = omega arith

-- The entry that `kmunmap` finds by the address of a used entry is that entry.
pub slot_of-get_elem? :
    (m : Memory) (l : List Mapping) (i : ℕ) (x : Mapping)
    → Each (IsBacked m) l
    → Apart l
    → get_elem? l i ≡ some x
    → 0 < x.len
    → slot_of l x.addr ≡ some i
unfolding slot_of
slot_of-get_elem? m [] i x backed apart at used = absurd (none_ne at)
  where
    none_ne : none ≡ some x → ⊥
    none_ne h = cc
slot_of-get_elem? m (y ∷ l) zero x backed apart at used =
    let same : y.addr ≡ x.addr = ap (λ (z : Mapping). z.addr) (some-injective _ _ at) in
    ground arith
slot_of-get_elem? m (y ∷ l) (suc i) x backed apart at used =
    let rest = slot_of-get_elem? m l i x backed.1 apart.1 at used in
    let there = used_address m x (Each-get_elem? (IsBacked m) l i x at backed.1) used in
    let other : y.addr ≢ x.addr = λ e.
      Disjoint-addr x y used (address_used m y backed.0 (λ z. there (sym e ∙ z)))
        (Each-get_elem? (Disjoint y) l i x at apart.0) e in
    by_address rest other
  where
    by_address : slot_of l x.addr ≡ some i → y.addr ≢ x.addr → slot_of (y ∷ l) x.addr ≡ some (suc i)
    by_address rest other = ground (arith, rest, other)

get_elem?-map :
    (f : Mapping → Mapping) (l : List Mapping) (i : ℕ) (y : Mapping)
    → get_elem? (map f l) i ≡ some y
    → (x : Mapping) × (get_elem? l i ≡ some x) × (f x ≡ y)
get_elem?-map f [] i y h = absurd (none_ne h)
  where
    none_ne : none ≡ some y → ⊥
    none_ne h = cc
get_elem?-map f (x ∷ l) zero y h = (x, refl, some-injective _ _ h)
get_elem?-map f (x ∷ l) (suc i) y h = get_elem?-map f l i y h

map-get_elem? :
    (f : Mapping → Mapping) (l : List Mapping) (i : ℕ) (x : Mapping)
    → get_elem? l i ≡ some x
    → get_elem? (map f l) i ≡ some (f x)
map-get_elem? f [] i x h = absurd (none_ne h)
  where
    none_ne : none ≡ some x → ⊥
    none_ne h = cc
map-get_elem? f (y ∷ l) zero x h = ap (λ z. some (f z)) (some-injective _ _ h)
map-get_elem? f (y ∷ l) (suc i) x h = map-get_elem? f l i x h

-- The entries and their pages after the mapping in entry `i` was taken away.
module _ (m : Memory) (l : List Mapping) (i : ℕ) (x : Mapping) (backed : Each (IsBacked m) l)
    (apart : Apart l) (at : get_elem? l i ≡ some x) (used : 0 < x.len) where
  pub cleared_entry :
      (j : ℕ) (y : Mapping)
      → get_elem? (map (clear x.addr) l) j ≡ some y
      → (y ≡ unused) ⊎ ((get_elem? l j ≡ some y) × (y.addr ≢ x.addr))
  unfolding clear
  cleared_entry j y h =
      let (z, there, e) = get_elem?-map (clear x.addr) l j y h in
      elim (ℕ_discrete z.addr x.addr) [
        | yes same ↦ let gone : clear x.addr z ≡ unused = ground arith in inl (sym e ∙ gone)
        | no other ↦
            let kept : clear x.addr z ≡ z = ground arith in
            let same : z ≡ y = sym kept ∙ e in
            inr (there ∙ ap (λ w. some w) same, subst (λ w. w.addr ≢ x.addr) same other)
      ]

  -- A page that was not the mapping's is in an entry as before,
  pub still_in :
      (page : ℕ)
      → InEntry l page
      → ((page_down x.addr ≤ page) × (page < end_page x.addr x.len))
        ⊎ InEntry (map (clear x.addr) l) page
  unfolding clear
  still_in page (j, z, there, low, high) = elim (ℕ_discrete z.addr x.addr) [
    | no other ↦
        let kept : clear x.addr z ≡ z = ground arith in
        inr (j, z, map-get_elem? (clear x.addr) l j z there ∙ ap (λ w. some w) kept, low, high)
    | yes same ↦
        let b = Each-get_elem? (IsBacked m) l j z there backed in
        let bx = Each-get_elem? (IsBacked m) l i x at backed in
        let used' = address_used m z b (λ e. used_address m x bx used (sym same ∙ e)) in
        let slots =
          sym (slot_of-get_elem? m l i x backed apart at used)
          ∙ ap (slot_of l) (sym same)
          ∙ slot_of-get_elem? m l j z backed apart there used' in
        let e : x ≡ z =
          some-injective _ _ (sym at ∙ ap (get_elem? l) (some-injective _ _ slots) ∙ there) in
        inl (
          subst (λ w. (page_down w.addr ≤ page) × (page < end_page w.addr w.len)) (sym e)
            (low, high))
  ]

  -- and no other page is in one.
  pub was_in :
      (page : ℕ)
      → InEntry (map (clear x.addr) l) page
      → InEntry l page × ((page < page_down x.addr) ⊎ (end_page x.addr x.len ≤ page))
  was_in page (j, y, there, low, high) = elim (cleared_entry j y there) [
    | inl e ↦ absurd (nowhere (subst (λ w. page < end_page w.addr w.len) e high))
    | inr (before, other) ↦ (
      (j, y, before, low, high),
      beside (Each-get_elem? (IsBacked m) l j y before backed)
          (Each-get_elem? (λ z. z.addr ≢ x.addr → Disjoint x z) l j y before
            (others_elsewhere l i x at apart) other)
          low high,
    )
  ]
    where
      beside :
          IsBacked m y
          → Disjoint x y
          → page_down y.addr ≤ page
          → page < end_page y.addr y.len
          → (page < page_down x.addr) ⊎ (end_page x.addr x.len ≤ page)
      beside b (inl empty) low high = absurd (omega (arith, used, empty))
      beside b (inr (inl empty)) low high = absurd (omega (arith, b.aligned, empty, low, high))
      beside b (inr (inr (inl before))) low high = inr (omega (arith, before, low))
      beside b (inr (inr (inr after))) low high = inl (omega (arith, after, high))

      nowhere : page < end_page 0 0 → ⊥
      nowhere h = omega arith
