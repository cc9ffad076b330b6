-- ===== src/Base/Arrays.antt =====
-- Array accesses that fault out of range, the exchange of two entries, and permutations.
use Prim.Native.Nat.{ℕ, zero, suc, ◌<◌, ◌≤◌}
use mathlib.Core.Path.{◌≡◌}
use mathlib.Core.List.{List, [], ◌∷◌, ◌++◌, Mem, Perm, perm_middle, append-nil}
use mathlib.Core.List.{mem-cons_self, mem-cons_of_mem}
use mathlib.Core.List.Perm
use native.Mathlib.Omega.{arith}
use hanlin.Base.Tests.{◌==◌, if◌then◌else◌, ltb}
use hanlin.Base.Lists.{
  length, get_elem?, get_or, set, take, length-set, length-take, get_elem?-get_or,
}
use hanlin.Base.Lists.{get_or-set, get_or-take, take-set}
use hanlin.Base.Outcome.{Run, ok, or_fault, ◌>>=◌, fault, out_of_bounds}

module _ {ℓ} {A : Type ℓ} where
  -- `a[i]`
  unfoldable pub load : List A → ℕ → Run A
  load a i = or_fault (get_elem? a i) out_of_bounds

  -- `a[i] = v`
  unfoldable pub store : List A → ℕ → A → Run (List A)
  store a i v = if ltb i (length a) then ok (set a i v) else fault out_of_bounds

  -- `temp = a[i]; a[i] = a[j]; a[j] = temp`
  unfoldable pub exchange : List A → ℕ → ℕ → Run (List A)
  unfolding load store
  exchange a i j = do temp ← load a i; y ← load a j; b ← store a i y; store b j temp

  pub load-eq : (a : List A) (i : ℕ) (d : A) → i < length a → load a i ≡ ok (get_or a i d)
  unfolding load
  load-eq a i d h = rw (get_elem?-get_or a i d h)

  pub store-eq : (a : List A) (i : ℕ) (v : A) → i < length a → store a i v ≡ ok (set a i v)
  unfolding store
  store-eq a i v h = ground arith

  -- What an exchange inside the array leaves.
  abbrev pub exchanged : List A → ℕ → ℕ → A → List A
  exchanged a i j d = set (set a i (get_or a j d)) j (get_or a i d)

  pub exchange-eq :
      (a : List A) (i j : ℕ) (d : A)
      → i < length a
      → j < length a
      → exchange a i j ≡ ok (exchanged a i j d)
  unfolding exchange
  exchange-eq a i j d hi hj =
      rw (get_elem?-get_or a i d hi, get_elem?-get_or a j d hj)
        (ground (arith, length-set a i (get_or a j d)))

  pub length-exchanged : (a : List A) (i j : ℕ) (d : A) → length (exchanged a i j d) ≡ length a
  length-exchanged a i j d = simp length-set

  pub snoc-perm : (a : List A) (x : A) → Perm (a ++ (x ∷ [])) (x ∷ a)
  snoc-perm a x = rw (append-nil a) at (perm_middle {a = x} a [])

  -- A write trades the old entry for the new one.
  pub set-perm :
      (a : List A) (i : ℕ) (v d : A) → i < length a → Perm (get_or a i d ∷ set a i v) (v ∷ a)
  set-perm [] i v d h = absurd (omega arith)
  set-perm (x ∷ a) zero v d h = Perm.swap v x a
  set-perm (x ∷ a) (suc i) v d h =
      let behind = set-perm a i v d (omega arith) in
      let first = Perm.swap x (get_or a i d) (set a i v) in
      Perm.trans first (Perm.trans (Perm.cons x behind) (Perm.swap v x a))

  pub get_or-exchanged :
      (a : List A) (i j : ℕ) (d : A)
      → i < length a
      → j < length a
      → (c : ℕ)
      → get_or (exchanged a i j d) c d
        ≡ (if j == c then get_or a i d else if i == c then get_or a j d else get_or a c d)
  get_or-exchanged a i j d hi hj c =
      rw (get_or-set (set a i (get_or a j d)) j c (get_or a i d) d (rw length-set hj))
        (rw (get_or-set a i c (get_or a j d) d hi))

  exchanged-perm_whole :
      (a : List A) (i j : ℕ) (d : A) → i < length a → j < length a → Perm (exchanged a i j d) a
  exchanged-perm_whole a i j d hi hj =
      let b = set a i (get_or a j d) in
      let same : get_or b j d ≡ get_or a j d = ground (arith, get_or-set a i j (get_or a j d) d) in
      let second = set-perm b j (get_or a i d) d (rw length-set hj) in
      let traded = set-perm a i (get_or a j d) d hi in
      Perm.cons_inv (Perm.trans (rw same at second) traded)

  -- An exchange among the first `n` entries permutes them.
  pub exchanged-perm :
      (n : ℕ) (a : List A) (i j : ℕ) (d : A)
      → n ≤ length a
      → i < n
      → j < n
      → Perm (take n (exchanged a i j d)) (take n a)
  exchanged-perm n a i j d h hi hj =
      let size : length (take n a) ≡ n = omega (arith, length-take n a) in
      rw (take-set n (set a i (get_or a j d)) j (get_or a i d), take-set n a i (get_or a j d))
        (rw (← get_or-take n a i d hi, ← get_or-take n a j d hj)
          (exchanged-perm_whole (take n a) i j d (omega arith) (omega arith)))

  pub get_or-mem : (a : List A) (i : ℕ) (d : A) → i < length a → Mem (get_or a i d) a
  get_or-mem [] i d h = absurd (omega arith)
  get_or-mem (x ∷ a) zero d h = mem-cons_self
  get_or-mem (x ∷ a) (suc i) d h = mem-cons_of_mem x (get_or-mem a i d (omega arith))
