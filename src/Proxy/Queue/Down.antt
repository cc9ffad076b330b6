-- ===== src/Proxy/Queue/Down.antt =====
-- The loop of `dequeue` that moves the root down to its place.
use mathlib.Core.List.Perm
use hanlin.Base.{
  inl, inr, Bool-cases, ℕ, zero, suc, ◌+◌, ◌-◌, ◌*◌, ◌≤◌, ◌<◌, ◌≡◌, ◌≢◌, ◌⊎◌, true, refl, List,
  arith, length, ◌≤ℤ◌, ltb_ℤ, exchanged, length-exchanged, get_or-exchanged, exchange-eq, load-eq,
  ok, Returns, returns, Returns-if, ◌==◌, ltb, if◌then◌else◌,
}
use hanlin.Proxy.Queue.{
  Str, null, text, dangling, RequestInfo, PqItem, free_str, larger, sift_down, parent, blank,
  readable, readable_str,
}
use hanlin.Proxy.Queue.Order.{key, Sifted, Sifted-exchanged}

-- Only the edges below `i` may be out of order.
pub record IsSinking (n : ℕ) (a : List PqItem) (i : ℕ) : Type 0 where
  pub fits : n ≤ length a
  pub edges : (c : ℕ) → 0 < c → c < n → parent c ≢ i → key a c ≤ℤ key a (parent c)
  pub over : (c : ℕ) → 0 < c → c < n → parent c ≡ i → 0 < i → key a c ≤ℤ key a (parent i)

larger-eq :
    (a : List PqItem) (n m c : ℕ)
    → n ≤ length a
    → m < n
    → larger a n m c ≡ ok (if ltb c n then (if ltb_ℤ (key a m) (key a c) then c else m) else m)
unfolding larger
larger-eq a n m c h hm = elim (Bool-cases (ltb c n)) [
  | inl e ↦
      let hc : c < length a = ground arith in
      rw (e, load-eq a c blank hc, load-eq a m blank (omega arith))
  | inr e ↦ rw e
]

-- `m` is `i` or the child of `i` with the highest priority among the three.
record IsLargest (n : ℕ) (a : List PqItem) (i m : ℕ) : Type 0 where
  inside : m < n
  place : (m ≡ i) ⊎ (m ≡ 2 * i + 1) ⊎ (m ≡ 2 * i + 2)
  own : key a i ≤ℤ key a m
  left : 2 * i + 1 < n → key a (2 * i + 1) ≤ℤ key a m
  right : 2 * i + 2 < n → key a (2 * i + 2) ≤ℤ key a m

abbrev pick : List PqItem → ℕ → ℕ → ℕ → ℕ
pick a n m c = if ltb c n then (if ltb_ℤ (key a m) (key a c) then c else m) else m

largest : List PqItem → ℕ → ℕ → ℕ
largest a n i = pick a n (pick a n i (2 * i + 1)) (2 * i + 2)

largest-IsLargest : (n : ℕ) (a : List PqItem) (i : ℕ) → i < n → IsLargest n a i (largest a n i)
unfolding largest
largest-IsLargest n a i h = ground arith

pick_inside : (n : ℕ) (a : List PqItem) (i : ℕ) → i < n → pick a n i (2 * i + 1) < n
pick_inside n a i h = ground arith

exchanged-IsSinking :
    (n : ℕ) (a : List PqItem) (i m : ℕ)
    → IsSinking n a i
    → i < n
    → IsLargest n a i m
    → m ≢ i
    → IsSinking n (exchanged a i m blank) m
exchanged-IsSinking n a i m v hi s moved =
    let at =
      get_or-exchanged a i m blank (omega (arith, v.fits)) (omega (arith, v.fits, s.inside)) in
    record {
      fits = omega (arith, v.fits, length-exchanged a i m blank);
      edges = λ c p q r.
          ground (arith, at c, at (parent c), v.edges c, v.over m, s.place, s.own, s.left, s.right);
      over = λ c p q r t. ground (arith, at c, at (parent m), v.edges c, s.place);
    }

pub sift_down-Sifted :
    (fuel n : ℕ) (a : List PqItem) (i : ℕ)
    → n - i < fuel
    → IsSinking n a i
    → Returns (Sifted n a) (sift_down fuel a n i)
unfolding sift_down largest
sift_down-Sifted zero n a i f v = absurd (omega arith)
sift_down-Sifted (suc fuel) n a i f v =
    Returns-if (ltb (2 * i + 1) n)
      (λ e.
        let hi : i < n = ground arith in
        let s : IsLargest n a i (largest a n i) = largest-IsLargest n a i hi in
        let fits = v.fits in
        let inside = s.inside in
        rw
          (
            larger-eq a n i (2 * i + 1) v.fits hi,
            larger-eq a n (pick a n i (2 * i + 1)) (2 * i + 2) v.fits (pick_inside n a i hi),
          )
          (Returns-if (largest a n i == i)
            (λ stay. returns (record {
              heap = λ c p q. ground (arith, v.edges c, s.left, s.right);
              same = Perm.rfl;
              size = refl;
            }))
            (λ move. rw (exchange-eq a i (largest a n i) blank (omega arith) (omega arith)) (
              Sifted-exchanged n a i (largest a n i) v.fits hi s.inside (
                sift_down-Sifted fuel n (exchanged a i (largest a n i) blank) (largest a n i)
                  (ground (arith, s.place))
                  (exchanged-IsSinking n a i (largest a n i) v hi s (ground arith)))))))
      (λ e.
        returns
          (record { heap = λ c p q. ground (arith, v.edges c); same = Perm.rfl; size = refl }))

pub free_str-readable : (r : RequestInfo) → readable r ≡ true → (q : Str) × (free_str r.path ≡ ok q)
unfolding free_str
free_str-readable r h = free (r.path) (ground arith)
  where
    free : (p : Str) → readable_str p ≡ true → (q : Str) × (free_str p ≡ ok q)
    free null e = (null, refl)
    free (text t) e = (dangling, refl)
    free dangling e = cc
