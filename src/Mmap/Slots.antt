-- ===== src/Mmap/Slots.antt =====
-- The entries of `maparray`: taking one, finding it again, and clearing it.
use hanlin.Base.{
  ℕ, suc, ◌/◌, ◌≡◌, ◌≢◌, ◌⊎◌, inl, inr, refl, sym, ◌∙◌, ap, ap₂, false, List, [], ◌∷◌, map, none,
  some, ◌==◌, get_elem?, set, arith, Bool-cases,
}
use hanlin.Mmap.{Memory, entry}
use hanlin.Mmap.Calls.{Mapping, unused_slot, slot_of, clear, unused}

-- Some entry has length 0.
abbrev pub HasRoom : List Mapping → Type 0
HasRoom [] = ⊥
HasRoom (x ∷ rest) = (x.len ≡ 0) ⊎ HasRoom rest

-- An entry of length 0 is cleared; the first page of any other is present.
abbrev pub Known : Memory → List Mapping → Type 0
Known m [] = Unit
Known m (x ∷ rest) =
    ((x.len ≡ 0 → x ≡ unused) × ((x.len ≡ 0) ⊎ (entry m (x.addr / 4096) ≢ none))) × Known m rest

-- No entry has the address `va`, and the entries of length 0 are cleared.
abbrev pub IsNew : ℕ → List Mapping → Type 0
IsNew va [] = Unit
IsNew va (x ∷ rest) = ((x.len ≡ 0 → x ≡ unused) × (x.addr ≢ va)) × IsNew va rest

-- The address of a mapping of pages that were free is new.
pub Known-IsNew :
    (m : Memory) (l : List Mapping) (va : ℕ)
    → va ≢ 0
    → entry m (va / 4096) ≡ none
    → Known m l
    → IsNew va l
Known-IsNew m [] va positive free known = tt
Known-IsNew m (x ∷ rest) va positive free ((cleared, inl zero_length), known) = (
  (cleared, λ same. positive (sym same ∙ ap (λ (m : Mapping). m.addr) (cleared zero_length))),
  Known-IsNew m rest va positive free known,
)
Known-IsNew m (x ∷ rest) va positive free ((cleared, inr there), known) =
    ((cleared, λ same. there (rw same free)), Known-IsNew m rest va positive free known)

-- The entry that `sys_mmap` takes is the one that `kmunmap` finds and clears.
pub record IsTaken (l : List Mapping) (y : Mapping) (i : ℕ) : Type 0 where
  pub taken : unused_slot l ≡ some i
  pub found : slot_of (set l i y) y.addr ≡ some i
  pub there : get_elem? (set l i y) i ≡ some y
  pub cleared : map (clear y.addr) (set l i y) ≡ l

clear-IsNew : (va : ℕ) (l : List Mapping) → IsNew va l → map (clear va) l ≡ l
unfolding clear
clear-IsNew va [] new = refl
clear-IsNew va (x ∷ rest) ((cleared, other), new) = ap₂ ◌∷◌ (ground arith) (clear-IsNew va rest new)

room_later :
    (x : Mapping) (rest : List Mapping) → (x.len == 0) ≡ false → HasRoom (x ∷ rest) → HasRoom rest
room_later x rest full (inl empty) = absurd (ground arith)
room_later x rest full (inr room) = room

pub unused_slot-IsTaken :
    (l : List Mapping) (y : Mapping) → IsNew y.addr l → HasRoom l → (i : ℕ) × IsTaken l y i
unfolding unused_slot slot_of clear
unused_slot-IsTaken [] y new room = absurd room
unused_slot-IsTaken (x ∷ rest) y ((cleared, other), new) room = elim (Bool-cases (x.len == 0)) [
  | inl empty ↦ (
    0,
    record {
      taken = rw empty refl;
      found = ground arith;
      there = refl;
      cleared = ap₂ ◌∷◌ (ground (arith, cleared)) (clear-IsNew y.addr rest new);
    },
  )
  | inr full ↦
      let (i, slot) = unused_slot-IsTaken rest y new (room_later x rest full room) in
      (
        suc i,
        record {
          taken = rw (full, slot.taken) refl;
          found = rw slot.found (ground arith);
          there = slot.there;
          cleared = ap₂ ◌∷◌ (ground arith) slot.cleared;
        },
      )
]
