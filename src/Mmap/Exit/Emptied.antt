-- ===== src/Mmap/Exit/Emptied.antt =====
-- After the loop of `exit` no mapping is left.
use mathlib.Core.Option.{some-injective}
use hanlin.Base.{
  ℕ, zero, suc, ◌+◌, ◌≤◌, ◌<◌, ◌≡◌, ◌≢◌, ◌⊎◌, inl, inr, refl, sym, ◌∙◌, ap, subst, true, List, [],
  map, none, some, ◌==◌, get_elem?, length, length-map, arith, dec_lt, ℕ_discrete, Bool-cases, Run,
  ok, Returns, returns, Returns-value, Returns-ok, Returns->>=, or_fault, ◌>>=◌, out_of_bounds,
  get_elem?-lt, get_or, get_elem?-get_or,
}
use hanlin.Mmap.{Memory, page_down}
use hanlin.Mmap.Calls.{Files, Mapping, Process, Unmapped, clear, unused, kmunmap}
use hanlin.Mmap.Undo.{end_page}
use hanlin.Mmap.Unmap.{IsFreed, kmunmap-IsFreed}
use hanlin.Mmap.Valid.{Each, Each-map, Each-get_elem?, IsBacked, Apart, IsValid}
use hanlin.Mmap.Session.{kmunmap-IsValid}
use hanlin.Mmap.Exit.{WriteBack, note_write, unmap_entry, unmap_loop, unmap_all}
use hanlin.Mmap.Exit.Entries.{
  InEntry, IsEmptied, IsAnonymous, slot_of-get_elem?, used_address, cleared_entry, still_in, was_in,
}

-- One round, and what the other rounds do.
Emptied-IsFreed :
    (p : Process) (i : ℕ) (x : Mapping) (u : Unmapped)
    → IsValid p
    → get_elem? p.maparray i ≡ some x
    → 0 < x.len
    → IsFreed p x.addr x.len u
    → (r : Process × List WriteBack) → IsEmptied u.proc r
    → IsEmptied p (r.0, note_write u.written r.1)
Emptied-IsFreed p i x u valid at used done r emptied = record {
  cleared = emptied.cleared;
  gone = λ page inside.
      elim (still_in p.memory p.maparray i x valid.backed valid.apart at used page inside) [
        | inl (low, high) ↦
            emptied.others page (λ later. outside page low high (was page later).1)
            ∙ done.freed.inside page low high
        | inr later ↦ emptied.gone page (subst (λ l. InEntry l page) (sym done.maparray) later)
      ];
  others = λ page outside.
      emptied.others page (λ later. outside (was page later).0)
      ∙ done.freed.outside page (beside page (λ low high. outside (i, x, at, low, high)));
  written = ap (λ w. note_write w r.1) done.written ∙ emptied.written;
}
  where
    was :
        (page : ℕ)
        → InEntry u.proc.maparray page
        → InEntry p.maparray page × ((page < page_down x.addr) ⊎ (end_page x.addr x.len ≤ page))
    was page later =
        was_in p.memory p.maparray i x valid.backed valid.apart at used page
          (subst (λ l. InEntry l page) done.maparray later)

    outside :
        (page : ℕ)
        → page_down x.addr ≤ page
        → page < end_page x.addr x.len
        → (page < page_down x.addr) ⊎ (end_page x.addr x.len ≤ page)
        → ⊥
    outside page low high (inl below) = omega arith
    outside page low high (inr above) = omega arith

    beside :
        (page : ℕ)
        → (page_down x.addr ≤ page → page < end_page x.addr x.len → ⊥)
        → (page < page_down x.addr) ⊎ (end_page x.addr x.len ≤ page)
    beside page out = elim (dec_lt page (page_down x.addr)) [
      | yes below ↦ inl below
      | no above ↦ elim (dec_lt page (end_page x.addr x.len)) [
        | yes below ↦ absurd (out (omega arith) below)
        | no past ↦ inr (omega arith)
      ]
    ]

-- `kmunmap` of a used entry takes its mapping away and leaves a valid process.
kmunmap-both :
    (files : Files) (p : Process) (i : ℕ) (x : Mapping)
    → IsValid p
    → Each IsAnonymous p.maparray
    → get_elem? p.maparray i ≡ some x
    → 0 < x.len
    → (u : Unmapped) × (kmunmap files p x.addr x.len ≡ ok u)
      × IsFreed p x.addr x.len u
      × IsValid u.proc
kmunmap-both files p i x valid anon at used =
    let backed = Each-get_elem? (IsBacked p.memory) p.maparray i x at valid.backed in
    let found = slot_of-get_elem? p.memory p.maparray i x valid.backed valid.apart at used in
    let own =
      Each-get_elem? IsAnonymous p.maparray i x at anon (used_address p.memory x backed used) in
    let (u, run, done) = Returns-value (
      kmunmap-IsFreed files p x i x.len found at own
        (record { low = backed.low used; aligned = backed.aligned; below = backed.below })) in
    let good = Returns-ok (kmunmap-IsValid files p x i valid found at own used) u run in
    (u, run, done, good)

clear-IsAnonymous : (a : ℕ) (x : Mapping) → IsAnonymous x → IsAnonymous (clear a x)
unfolding clear
clear-IsAnonymous a x h = elim (ℕ_discrete x.addr a) [
  | yes same ↦
      let gone : clear a x ≡ unused = ground arith in
      subst IsAnonymous (sym gone) (λ there. absurd (there refl))
  | no other ↦ let kept : clear a x ≡ x = ground arith in subst IsAnonymous (sym kept) h
]

-- The entries in front of `i` are cleared.
abbrev ClearedBelow : ℕ → List Mapping → Type 0
ClearedBelow i l = (j : ℕ) (y : Mapping) → j < i → get_elem? l j ≡ some y → y ≡ unused

one_more :
    (l : List Mapping) (i : ℕ)
    → ClearedBelow i l
    → ((y : Mapping) → get_elem? l i ≡ some y → y ≡ unused)
    → ClearedBelow (i + 1) l
one_more l i before here j y below at = elim (ℕ_discrete j i) [
  | yes e ↦ here y (subst (λ k. get_elem? l k ≡ some y) e at)
  | no other ↦ before j y (omega (arith, below, other)) at
]

cleared_one :
    (m : Memory) (l : List Mapping) (i : ℕ) (x : Mapping)
    → Each (IsBacked m) l
    → Apart l
    → get_elem? l i ≡ some x
    → 0 < x.len
    → ClearedBelow i l
    → ClearedBelow (i + 1) (map (clear x.addr) l)
cleared_one m l i x backed apart at used before j y below there =
    elim (cleared_entry m l i x backed apart at used j y there) [
      | inl e ↦ e
      | inr (old, other) ↦ elim (ℕ_discrete j i) [
        | yes e ↦ absurd (
            other (
              ap (λ (z : Mapping). z.addr)
                (some-injective _ _ (sym (subst (λ k. get_elem? l k ≡ some y) e old) ∙ at))))
        | no ne ↦ before j y (omega (arith, below, ne)) old
      ]
    ]

nothing_left :
    (files : Files) (p : Process)
    → ClearedBelow (length p.maparray) p.maparray
    → IsEmptied p (p, [])
nothing_left files p cleared = record {
  cleared = all;
  gone = λ page inside. absurd (nowhere page inside);
  others = λ page outside. refl;
  written = refl;
}
  where
    all : (i : ℕ) (x : Mapping) → get_elem? p.maparray i ≡ some x → x ≡ unused
    all i x at = cleared i x (get_elem?-lt p.maparray i x at) at

    nowhere : (page : ℕ) → InEntry p.maparray page → ⊥
    nowhere page (i, x, at, low, high) =
        let below : page < end_page 0 0 =
          subst (λ w. page < end_page w.addr w.len) (all i x at) high in
        omega (arith, below)

unmap_entry_empty :
    (files : Files) (p : Process) (x : Mapping) → x.addr ≡ 0 → unmap_entry files p x ≡ ok (p, none)
unfolding unmap_entry
unmap_entry_empty files p x e = ground arith

zero_address : (a : ℕ) → (a == 0) ≡ true → a ≡ 0
zero_address a e = ground arith

unmap_entry_used :
    (files : Files) (p : Process) (x : Mapping) (u : Unmapped)
    → x.addr ≢ 0
    → kmunmap files p x.addr x.len ≡ ok u
    → u.success ≡ true
    → unmap_entry files p x ≡ ok (u.proc, u.written)
unfolding unmap_entry
unmap_entry_used files p x u there run success = elim (Bool-cases (x.addr == 0)) [
  | inl e ↦ absurd (there (zero_address x.addr e))
  | inr e ↦ rw (unmap_entry, e) (rw run (rw success refl))
]

goes_on :
    {A B : Type 0} {P : B → Type 0} {m : Run A} {a : A} (f : A → Run B)
    → m ≡ ok a
    → Returns P (f a)
    → Returns P (m >>= f)
goes_on f e r = rw e r

unmap_loop-IsEmptied :
    (files : Files) (n i : ℕ) (p : Process)
    → IsValid p
    → Each IsAnonymous p.maparray
    → ClearedBelow i p.maparray
    → length p.maparray ≡ i + n
    → Returns (IsEmptied p) (unmap_loop files n i p)
unfolding unmap_loop
unmap_loop-IsEmptied files zero i p valid anon before size =
    returns
      (nothing_left files p (subst (λ k. ClearedBelow k p.maparray) (omega (arith, size)) before))
unmap_loop-IsEmptied files (suc n) i p valid anon before size =
    let x = get_or p.maparray i unused in
    let at : get_elem? p.maparray i ≡ some x =
      get_elem?-get_or p.maparray i unused (omega (arith, size)) in
    let backed = Each-get_elem? (IsBacked p.memory) p.maparray i x at valid.backed in
    goes_on _ (ap (λ o. or_fault o out_of_bounds) at) (elim (dec_lt 0 x.len) [
      | no empty ↦
          let none_there = backed.cleared (omega arith) in
          let rest =
            unmap_loop-IsEmptied files n (i + 1) p valid anon
              (one_more p.maparray i before (λ y e. some-injective _ _ (sym e ∙ at) ∙ none_there))
              (omega (arith, size)) in
          goes_on _ (unmap_entry_empty files p x (ap (λ (z : Mapping). z.addr) none_there))
            (Returns->>= rest (λ r emptied. returns emptied))
      | yes used ↦
          let (u, run, done, good) = kmunmap-both files p i x valid anon at used in
          let rest =
            unmap_loop-IsEmptied files n (i + 1) u.proc good
              (subst (Each IsAnonymous) (sym done.maparray) (
                Each-map IsAnonymous IsAnonymous (clear x.addr) p.maparray
                  (clear-IsAnonymous x.addr) anon))
              (subst (ClearedBelow (i + 1)) (sym done.maparray)
                (cleared_one p.memory p.maparray i x valid.backed valid.apart at used before))
              (ap length done.maparray
                ∙ length-map (clear x.addr) p.maparray
                ∙ omega (arith, size)) in
          goes_on _
            (unmap_entry_used files p x u (used_address p.memory x backed used) run done.success)
            (Returns->>= rest
              (λ r emptied. returns (Emptied-IsFreed p i x u valid at used done r emptied)))
    ])

-- In a process with valid mappings, all of them anonymous, the loop of `exit` over the 32 entries ends
-- without a panic, clears every entry, frees the pages of all mappings, leaves every other page as it
-- is, and writes no file.
pub unmap_all-IsEmptied :
    (files : Files) (p : Process)
    → IsValid p
    → Each IsAnonymous p.maparray
    → length p.maparray ≡ 32
    → Returns (IsEmptied p) (unmap_all files p)
unfolding unmap_all
unmap_all-IsEmptied files p valid anon size =
    unmap_loop-IsEmptied files 32 0 p valid anon (λ j y below at. absurd (omega arith)) size
