-- ===== src/Mmap/Filling.antt =====
-- Ranges of pages that a loop fills or frees.
use hanlin.Base.{
  ℕ, zero, suc, ◌+◌, ◌-◌, ◌*◌, ◌/◌, ◌%◌, ◌^◌, ◌≤◌, ◌<◌, ◌≡◌, ◌⊎◌, inl, inr, refl, ◌∙◌, dec_lt,
  ℕ_discrete, Bool, true, false, Option, none, some, if◌then◌else◌, arith, Bool-cases, ltb, leb,
  ◌==◌,
}
use hanlin.Mmap.{
  Memory, Page, entry, is_present, page_up, kern_base, kalloc, kfree, with_table, set_entry,
  free_pages, deallocuvm,
}

-- The pages from `a` to before `b` are `value`, and the others are as before.
pub record Filled (old new : Memory) (a b : ℕ) (value : Option Page) : Type 0 where
  pub inside : (p : ℕ) → a ≤ p → p < b → entry new p ≡ value
  pub outside : (p : ℕ) → (p < a) ⊎ (b ≤ p) → entry new p ≡ entry old p

-- The pages from `a` to before `b` may have changed.
abbrev pub SameOutside : Memory → Memory → ℕ → ℕ → Type 0
SameOutside old new a b = (p : ℕ) → (p < a) ⊎ (b ≤ p) → entry new p ≡ entry old p

pub entry-set_entry :
    (m : Memory) (p q : ℕ) (value : Option Page)
    → m.tables (p / 1024) ≡ true
    → entry (set_entry m p value) q ≡ (if q == p then value else entry m q)
unfolding entry set_entry
entry-set_entry m p q value h = elim (ℕ_discrete q p) [
  | yes same ↦ rw same (ground arith)
  | no other ↦ ground arith
]

pub entry-with_table :
    (m : Memory) (d q : ℕ) → m.tables d ≡ false → entry (with_table m d) q ≡ entry m q
unfolding entry with_table
entry-with_table m d q h = elim (ℕ_discrete (q / 1024) d) [
  | yes same ↦ rw same (ground arith)
  | no other ↦ ground arith
]

-- A range is filled in two parts.
pub Filled-extend :
    (old next new : Memory) (a b last : ℕ) (value : Option Page)
    → a ≤ b
    → SameOutside old next a last
    → ((p : ℕ) → a ≤ p → p < b → p < last → entry next p ≡ value)
    → Filled next new b last value
    → Filled old new a last value
Filled-extend old next new a b last value order same first rest = record {
  inside = λ p low high. elim (dec_lt p b) [
    | yes early ↦ rest.outside p (inl early) ∙ first p low early high
    | no late ↦ rest.inside p (omega arith) high
  ];
  outside = λ p h. rest.outside p (omega arith) ∙ same p h;
}

pub Filled-none :
    (m : Memory) (a last : ℕ) (value : Option Page) → last ≤ a → Filled m m a last value
Filled-none m a last value h = record {
  inside = λ p low high. absurd (omega arith);
  outside = λ p h. refl;
}

entry-freed :
    (m : Memory) (a q : ℕ)
    → m.tables (a / 1024) ≡ true
    → entry (set_entry (kfree m) a none) q ≡ (if q == a then none else entry m q)
unfolding kfree entry
entry-freed m a q h = entry-set_entry (kfree m) a q none h

entry-missing :
    (m : Memory) (a p : ℕ) → m.tables (a / 1024) ≡ false → p / 1024 ≡ a / 1024 → entry m p ≡ none
unfolding entry
entry-missing m a p missing same = rw (same, missing) refl

is_present-false : (e : Option Page) → is_present e ≡ false → e ≡ none
is_present-false none h = refl
is_present-false (some page) h = cc

entry-absent : (m : Memory) (a p : ℕ) → is_present (m.pages a) ≡ false → p ≡ a → entry m p ≡ none
unfolding entry
entry-absent m a p free same = rw (same, is_present-false (m.pages a) free) (ground arith)

pub free_pages-Filled :
    (fuel : ℕ) (m : Memory) (a last : ℕ)
    → last ≤ 2 ^ 19
    → last - a ≤ fuel
    → Filled m (free_pages fuel m a last) a last none
unfolding free_pages
free_pages-Filled zero m a last small enough = Filled-none m a last none (omega arith)
free_pages-Filled (suc fuel) m a last small enough = elim (dec_lt a last) [
  | no past ↦
      let out : ltb a last ≡ false = ground arith in
      rw out (Filled-none m a last none (omega arith))
  | yes before ↦
      let go : ltb a last ≡ true = ground arith in
      elim (Bool-cases (m.tables (a / 1024))) [
        | inr missing ↦
            rw (go, missing)
              (Filled-extend m m (free_pages fuel m ((a / 1024 + 1) * 1024 % 2 ^ 20) last) a
                ((a / 1024 + 1) * 1024 % 2 ^ 20) last none (omega arith) (λ p h. refl)
                (λ p low high end. entry-missing m a p missing (omega arith))
                (free_pages-Filled fuel m ((a / 1024 + 1) * 1024 % 2 ^ 20) last small
                  (omega arith)))
        | inl table ↦ elim (Bool-cases (is_present (m.pages a))) [
          | inl there ↦
              rw (go, table, there)
                (let next = set_entry (kfree m) a none in
                  Filled-extend m next (free_pages fuel next (a + 1) last) a (a + 1) last none
                    (omega arith) (λ p h. ground (arith, entry-freed m a p table))
                    (λ p low high end. ground (arith, entry-freed m a p table))
                    (free_pages-Filled fuel next (a + 1) last small (omega arith)))
          | inr free ↦
              rw (go, table, free)
                (Filled-extend m m (free_pages fuel m (a + 1) last) a (a + 1) last none
                  (omega arith) (λ p h. refl)
                  (λ p low high end. entry-absent m a p free (omega arith))
                  (free_pages-Filled fuel m (a + 1) last small (omega arith)))
        ]
      ]
]

-- The pages that `deallocuvm` goes through, below KERNBASE, have no entry afterwards.
pub deallocuvm-Filled :
    (m : Memory) (va size : ℕ)
    → va + size ≤ kern_base
    → Filled m (deallocuvm m (va + size) va).0 (page_up va) ((va + size + 4095) / 4096) none
unfolding deallocuvm
deallocuvm-Filled m va size h =
    by_test (leb (va + size) va) (va + size) va
      (λ nothing. Filled-none m (page_up va) ((va + size + 4095) / 4096) none (ground arith))
      (free_pages-Filled (2 ^ 20) m (page_up va) ((va + size + 4095) / 4096) (omega arith)
        (omega arith))
  where
    by_test :
        (test : Bool) {next : Memory} {a last : ℕ} (r s : ℕ)
        → (test ≡ true → Filled m m a last none)
        → Filled m next a last none
        → let result : Memory × ℕ = if test then (m, r) else (next, s) in
          Filled m result.0 a last none
    by_test true r s nothing done = nothing refl
    by_test false r s nothing done = done

abbrev pub Kept : Memory → Option Memory → Type 0
Kept m none = Unit
Kept m (some next) = (next.tables ≡ m.tables) × ((q : ℕ) → entry next q ≡ entry m q)

pub kalloc-Kept : (m : Memory) → Kept m (kalloc m)
unfolding kalloc entry
kalloc-Kept m = elim (Bool-cases (m.frames == 0)) [
  | inl empty ↦ rw empty tt
  | inr some_frame ↦ rw some_frame (refl, λ q. refl)
]

abbrev pub Walked : Memory → ℕ → Option Memory → Type 0
Walked m p none = Unit
Walked m p (some next) = ((q : ℕ) → entry next q ≡ entry m q) × (next.tables (p / 1024) ≡ true)
