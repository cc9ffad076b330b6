-- ===== src/Mmap/Valid.antt =====
-- The entries of `maparray` and the page table fit together.
use hanlin.Base.{
  ℕ, zero, suc, ◌+◌, ◌%◌, ◌≤◌, ◌<◌, ◌≡◌, ◌≢◌, ◌⊎◌, inl, inr, ap, ℕ_discrete, List, [], ◌∷◌, map,
  none, some, get_elem?, set, arith, subst,
}
use hanlin.Mmap.{Memory, entry, page_down, mmap_base, kern_base}
use hanlin.Mmap.Calls.{Mapping, Process, clear, unused}
use hanlin.Mmap.Undo.{end_page}

-- Every entry satisfies `P`.
abbrev pub Each : (Mapping → Type 0) → List Mapping → Type 0
Each P [] = Unit
Each P (x ∷ rest) = P x × Each P rest

pub Each-map :
    (P Q : Mapping → Type 0) (f : Mapping → Mapping) (l : List Mapping)
    → ((x : Mapping) → P x → Q (f x))
    → Each P l
    → Each Q (map f l)
Each-map P Q f [] h all = tt
Each-map P Q f (x ∷ rest) h (here, all) = (h x here, Each-map P Q f rest h all)

pub Each-weaken :
    (P Q : Mapping → Type 0) (l : List Mapping) → ((x : Mapping) → P x → Q x) → Each P l → Each Q l
Each-weaken P Q [] h all = tt
Each-weaken P Q (x ∷ rest) h (here, all) = (h x here, Each-weaken P Q rest h all)

pub Each-set :
    (P : Mapping → Type 0) (l : List Mapping) (i : ℕ) (y : Mapping)
    → P y
    → Each P l
    → Each P (set l i y)
Each-set P [] i y h all = tt
Each-set P (x ∷ rest) zero y h (here, all) = (h, all)
Each-set P (x ∷ rest) (suc i) y h (here, all) = (here, Each-set P rest i y h all)

pub Each-both :
    (P Q R : Mapping → Type 0) (l : List Mapping)
    → ((x : Mapping) → P x → Q x → R x)
    → Each P l
    → Each Q l
    → Each R l
Each-both P Q R [] h all also = tt
Each-both P Q R (x ∷ rest) h (here, all) (too, also) =
    (h x here too, Each-both P Q R rest h all also)

some_injective : {A : Type 0} {a b : A} → some a ≡ some b → a ≡ b
some_injective h = cc

none_ne : {A : Type 0} {a : A} → none ≡ some a → ⊥
none_ne h = cc

pub Each-get_elem? :
    (P : Mapping → Type 0) (l : List Mapping) (i : ℕ) (x : Mapping)
    → get_elem? l i ≡ some x
    → Each P l
    → P x
Each-get_elem? P [] i x h all = absurd (none_ne h)
Each-get_elem? P (y ∷ rest) zero x h (here, all) = subst P (some_injective h) here
Each-get_elem? P (y ∷ rest) (suc i) x h (here, all) = Each-get_elem? P rest i x h all

-- An entry of length 0 is cleared. Any other lies between MMAPBASE and KERNBASE, starts with a page,
-- and has all its pages present.
pub record IsBacked (m : Memory) (x : Mapping) : Type 0 where
  pub cleared : x.len ≡ 0 → x ≡ unused
  pub aligned : x.addr % 4096 ≡ 0
  pub low : 0 < x.len → mmap_base ≤ x.addr
  pub below : x.addr + x.len < kern_base
  pub present : (p : ℕ) → page_down x.addr ≤ p → p < end_page x.addr x.len → entry m p ≢ none

-- The two have no page in common.
abbrev pub Disjoint : Mapping → Mapping → Type 0
Disjoint x y =
    (x.len ≡ 0)
    ⊎ (y.len ≡ 0)
    ⊎ (end_page x.addr x.len ≤ page_down y.addr)
    ⊎ (end_page y.addr y.len ≤ page_down x.addr)

pub Disjoint-sym : (x y : Mapping) → Disjoint x y → Disjoint y x
Disjoint-sym x y (inl h) = inr (inl h)
Disjoint-sym x y (inr (inl h)) = inl h
Disjoint-sym x y (inr (inr (inl h))) = inr (inr (inr h))
Disjoint-sym x y (inr (inr (inr h))) = inr (inr (inl h))

abbrev pub Apart : List Mapping → Type 0
Apart [] = Unit
Apart (x ∷ rest) = Each (Disjoint x) rest × Apart rest

pub record IsValid (p : Process) : Type 0 where
  pub backed : Each (IsBacked p.memory) p.maparray
  pub apart : Apart p.maparray

pub Apart-set :
    (l : List Mapping) (i : ℕ) (y : Mapping) → Each (Disjoint y) l → Apart l → Apart (set l i y)
Apart-set [] i y new apart = tt
Apart-set (x ∷ rest) zero y (_, new) (here, apart) = (new, apart)
Apart-set (x ∷ rest) (suc i) y (other, new) (here, apart) =
    (Each-set (Disjoint x) rest i y (Disjoint-sym y x other) here, Apart-set rest i y new apart)

Disjoint-clear : (a : ℕ) (x y : Mapping) → Disjoint x y → Disjoint (clear a x) (clear a y)
unfolding clear
Disjoint-clear a x y h = elim (ℕ_discrete x.addr a) [
  | yes gone ↦ inl (ground arith)
  | no kept ↦ elim (ℕ_discrete y.addr a) [
    | yes gone ↦ inr (inl (ground arith))
    | no kept' ↦
        let same : clear a x ≡ x = ground arith in
        let same' : clear a y ≡ y = ground arith in rw (same, same') h
  ]
]

pub Apart-clear : (a : ℕ) (l : List Mapping) → Apart l → Apart (map (clear a) l)
Apart-clear a [] apart = tt
Apart-clear a (x ∷ rest) (here, apart) = (
  Each-map (Disjoint x) (Disjoint (clear a x)) (clear a) rest (Disjoint-clear a x) here,
  Apart-clear a rest apart,
)

-- An entry has no page in common with those of another address.
pub others_elsewhere :
    (l : List Mapping) (i : ℕ) (x : Mapping)
    → get_elem? l i ≡ some x
    → Apart l
    → Each (λ z. z.addr ≢ x.addr → Disjoint x z) l
others_elsewhere [] i x h apart = tt
others_elsewhere (y ∷ rest) zero x h (here, apart) = (
  (λ differ. absurd (differ (ap (λ (m : Mapping). m.addr) (some_injective h)))),
  Each-weaken (Disjoint x) (λ z. z.addr ≢ x.addr → Disjoint x z) rest (λ z d differ. d)
      (subst (λ v. Each (Disjoint v) rest) (some_injective h) here),
)
others_elsewhere (y ∷ rest) (suc i) x h (here, apart) = (
  (λ differ. Disjoint-sym y x (Each-get_elem? (Disjoint y) rest i x h here)),
  others_elsewhere rest i x h apart,
)
