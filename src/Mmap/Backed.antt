-- ===== src/Mmap/Backed.antt =====
-- What a new mapping and a call of `kmunmap` leave of the others.
use hanlin.Base.{
  ℕ, ◌/◌, ◌≤◌, ◌<◌, ◌≡◌, ◌≢◌, ◌⊎◌, inl, inr, refl, sym, ◌∙◌, dec_lt, ℕ_discrete, List, [], ◌∷◌,
  Option, none, some, set, arith, subst, Returns, returns, Returns->>=, or_fault-some,
  out_of_bounds,
}
use hanlin.Mmap.{Memory, Page, fresh, page_down}
use hanlin.Mmap.Calls.{Mapping, Process, clear, unused, user_writable, note_mapping}
use hanlin.Mmap.Undo.{end_page, SameEntries}
use hanlin.Mmap.Filling.{Filled}
use hanlin.Mmap.Slots.{HasRoom, Known, Known-IsNew, unused_slot-IsTaken}
use hanlin.Mmap.Anonymous.{IsPlace, Anonymous}
use hanlin.Mmap.Valid.{Each, Each-weaken, Each-set, IsBacked, Disjoint, Apart-set, IsValid}

-- The first page of every mapping is present.
IsBacked-Known : (m : Memory) (l : List Mapping) → Each (IsBacked m) l → Known m l
IsBacked-Known m [] all = tt
IsBacked-Known m (x ∷ rest) (here, all) = elim (ℕ_discrete x.len 0) [
  | yes empty ↦ ((here.cleared, inl empty), IsBacked-Known m rest all)
  | no used ↦ (
    (here.cleared, inr (here.present (x.addr / 4096) (omega arith) (omega arith))),
    IsBacked-Known m rest all,
  )
]

module _ (m next : Memory) where
  same-IsBacked : SameEntries m next → (x : Mapping) → IsBacked m x → IsBacked next x
  same-IsBacked same x b = record {
    cleared = b.cleared;
    aligned = b.aligned;
    low = b.low;
    below = b.below;
    present = λ p low high e. b.present p low high (sym (same p) ∙ e);
  }

  -- A mapping keeps its pages when others are made,
  kept-IsBacked :
      (a b : ℕ) (page : Page)
      → Filled m next a b (some page)
      → (x : Mapping) → IsBacked m x
      → IsBacked next x
  kept-IsBacked a b page filled x backed = record {
    cleared = backed.cleared;
    aligned = backed.aligned;
    low = backed.low;
    below = backed.below;
    present = λ p low high e. elim (dec_lt p a) [
      | yes before ↦ backed.present p low high (sym (filled.outside p (inl before)) ∙ e)
      | no after ↦ elim (dec_lt p b) [
        | yes inside ↦ some_ne (sym (filled.inside p (omega arith) inside) ∙ e)
        | no past ↦ backed.present p low high (sym (filled.outside p (inr (omega arith))) ∙ e)
      ]
    ];
  }
    where
      some_ne : some page ≡ none → ⊥
      some_ne h = cc

  -- and when those of another mapping are taken away.
  freed-IsBacked :
      (x z : Mapping)
      → Filled m next (page_down x.addr) (end_page x.addr x.len) none
      → 0 < x.len
      → Disjoint x z
      → IsBacked m z
      → IsBacked next z
  freed-IsBacked x z freed used disjoint backed = record {
    cleared = backed.cleared;
    aligned = backed.aligned;
    low = backed.low;
    below = backed.below;
    present =
        λ p low high e. backed.present p low high (sym (freed.outside p (apart p low high)) ∙ e);
  }
    where
      apart :
          (p : ℕ)
          → page_down z.addr ≤ p
          → p < end_page z.addr z.len
          → (p < page_down x.addr) ⊎ (end_page x.addr x.len ≤ p)
      apart p low high = omega (arith, backed.aligned)

  new-IsBacked :
      (y : Mapping) (page : Page)
      → IsPlace m y.addr y.len
      → 0 < y.len
      → Filled m next (page_down y.addr) (end_page y.addr y.len) (some page)
      → IsBacked next y
  new-IsBacked y page place used filled = record {
    cleared = λ empty. absurd (omega arith);
    aligned = place.aligned;
    low = λ h. place.low;
    below = place.below;
    present = λ p low high e. some_ne (sym (filled.inside p low high) ∙ e);
  }
    where
      some_ne : some page ≡ none → ⊥
      some_ne h = cc

-- A free place has no page in common with any mapping.
place-Disjoint : (m : Memory) (y x : Mapping) → IsPlace m y.addr y.len → IsBacked m x → Disjoint y x
place-Disjoint m y x place backed = elim (dec_lt 0 y.len) [
  | no empty ↦ inl (omega arith)
  | yes some_y ↦ elim (dec_lt 0 x.len) [
    | no empty ↦ inr (inl (omega arith))
    | yes some_x ↦ elim (dec_lt (page_down x.addr) (end_page y.addr y.len)) [
      | no after ↦ inr (inr (inl (omega arith)))
      | yes low ↦ elim (dec_lt (page_down y.addr) (end_page x.addr x.len)) [
        | no before ↦ inr (inr (inr (omega arith)))
        | yes high ↦ absurd (overlap some_y some_x low high)
      ]
    ]
  ]
]
  where
    in_both :
        (p : ℕ)
        → page_down y.addr ≤ p
        → p < end_page y.addr y.len
        → page_down x.addr ≤ p
        → p < end_page x.addr x.len
        → ⊥
    in_both p low high low' high' =
        backed.present p low' high'
          (place.free p (omega (arith, place.aligned)) (omega (arith, place.aligned)))

    overlap :
        0 < y.len
        → 0 < x.len
        → page_down x.addr < end_page y.addr y.len
        → page_down y.addr < end_page x.addr x.len
        → ⊥
    overlap some_y some_x low high = elim (dec_lt (page_down x.addr) (page_down y.addr)) [
      | yes below ↦ in_both (page_down y.addr) (omega arith) (omega arith) (omega arith) high
      | no above ↦ in_both (page_down x.addr) (omega arith) low (omega arith) (omega arith)
    ]

noted-IsValid :
    (p : Process) (next : Memory) (y : Mapping) (i : ℕ) (page : Page)
    → IsValid p
    → IsPlace p.memory y.addr y.len
    → 0 < y.len
    → Filled p.memory next (page_down y.addr) (end_page y.addr y.len) (some page)
    → IsValid (record { memory = next; maparray = set p.maparray i y })
noted-IsValid p next y i page valid place used filled = record {
  backed =
      Each-set (IsBacked next) p.maparray i y (new-IsBacked p.memory next y page place used filled)
        (Each-weaken (IsBacked p.memory) (IsBacked next) p.maparray
          (kept-IsBacked p.memory next (page_down y.addr) (end_page y.addr y.len) page filled)
          valid.backed);
  apart =
      Apart-set p.maparray i y
        (Each-weaken (IsBacked p.memory) (Disjoint y) p.maparray
          (λ x. place-Disjoint p.memory y x place) valid.backed)
        valid.apart;
}

pub note_mapping-IsValid :
    (p : Process) (x : Mapping) (done : Memory × Option ℕ)
    → IsValid p
    → HasRoom p.maparray
    → 0 < x.len
    → Anonymous p.memory x.len done
    → Returns (λ r. IsValid r.0) (note_mapping p done.0 done.1 x)
unfolding note_mapping
note_mapping-IsValid p x (next, none) valid room positive same = returns (record {
  backed =
      Each-weaken (IsBacked p.memory) (IsBacked next) p.maparray (same-IsBacked p.memory next same)
        valid.backed;
  apart = valid.apart;
})
note_mapping-IsValid p x (next, some va) valid room positive (place, filled) =
    let known = IsBacked-Known p.memory p.maparray valid.backed in
    let free = place.free (va / 4096) (omega arith) (omega arith) in
    let new =
      Known-IsNew p.memory p.maparray va (λ zero. omega (arith, place.low, zero)) free known in
    let (i, slot) = unused_slot-IsTaken p.maparray (record x { addr = va }) new room in
    Returns->>= (or_fault-some out_of_bounds slot.taken) (λ j here. returns (
      noted-IsValid p next (record x { addr = va }) j (fresh user_writable) valid place positive
        filled))

pub unused-IsBacked : (m : Memory) → IsBacked m unused
unused-IsBacked m = record {
  cleared = λ h. refl;
  aligned = refl;
  low = λ h. absurd (omega arith);
  below = omega arith;
  present = λ p low high e. absurd (omega arith);
}

-- The entry that is cleared leaves the others backed.
pub clear-IsBacked :
    (m next : Memory) (x : Mapping)
    → Filled m next (page_down x.addr) (end_page x.addr x.len) none
    → 0 < x.len
    → (z : Mapping) → IsBacked m z
    → (z.addr ≢ x.addr → Disjoint x z)
    → IsBacked next (clear x.addr z)
unfolding clear
clear-IsBacked m next x freed used z backed apart = elim (ℕ_discrete z.addr x.addr) [
  | yes same ↦
      let gone : clear x.addr z ≡ unused = ground arith in
      subst (IsBacked next) (sym gone) (unused-IsBacked next)
  | no other ↦
      let kept : clear x.addr z ≡ z = ground arith in
      subst (IsBacked next) (sym kept) (freed-IsBacked m next x z freed used (apart other) backed)
]
