-- ===== src/Proxy/Queue/Insert.antt =====
-- `add_work`: on a queue with room it adds exactly the work, and keeps the queue in order.
use mathlib.Core.List.Perm
use mathlib.Core.List.{not-mem-nil}
use native.Mathlib.Numerals.{add-one}
use hanlin.Base.{
  ℕ, zero, suc, ◌+◌, ◌≤◌, ◌<◌, ◌≡◌, ◌≢◌, true, refl, List, [], ◌∷◌, Perm, arith, length, take, set,
  get_or, get_or-set, length-set, take-suc, take-set_past, ℤ, ◌≤ℤ◌, ltb_ℤ, exchanged,
  length-exchanged, get_or-exchanged, exchange-eq, load-eq, store-eq, snoc-perm, ok, Returns,
  returns, Returns-if, Returns->>=, ◌==◌, fault, out_of_bounds, store,
}
use hanlin.Proxy.Queue.{
  RequestInfo, PqItem, PriorityQueue, copy_info, sift_up, add_work, create_queue, parent, works,
  blank, readable,
}
use hanlin.Proxy.Queue.Order.{key, IsValid, Sifted, Sifted-exchanged}
use hanlin.Proxy.Queue.Order.{AllReadable-perm, AllReadable-cons}

-- Only the edge above `i` may be out of order.
record IsRising (n : ℕ) (a : List PqItem) (i : ℕ) : Type 0 where
  fits : n ≤ length a
  inside : i < n
  edges : (c : ℕ) → 0 < c → c < n → c ≢ i → key a c ≤ℤ key a (parent c)
  over : (c : ℕ) → 0 < c → c < n → parent c ≡ i → 0 < i → key a c ≤ℤ key a (parent i)

exchanged-IsRising :
    (n : ℕ) (a : List PqItem) (i : ℕ)
    → IsRising n a i
    → 0 < i
    → ltb_ℤ (key a (parent i)) (key a i) ≡ true
    → IsRising n (exchanged a i (parent i) blank) (parent i)
exchanged-IsRising n a i v pos above =
    let at = get_or-exchanged a i (parent i) blank (omega (arith, v)) (omega (arith, v)) in
    record {
      fits = omega (arith, v.fits, length-exchanged a i (parent i) blank);
      inside = omega (arith, v.inside);
      edges = λ c p q r. ground (arith, at c, at (parent c), v.edges c, v.over c);
      over =
          λ c p q r s. ground (arith, at c, at (parent (parent i)), v.edges c, v.edges (parent i));
    }

sift_up-Sifted :
    (fuel n : ℕ) (a : List PqItem) (i : ℕ)
    → i < fuel
    → IsRising n a i
    → Returns (Sifted n a) (sift_up fuel a i)
unfolding sift_up
sift_up-Sifted zero n a i f v = absurd (omega arith)
sift_up-Sifted (suc fuel) n a i f v =
    let hi : i < length a = omega (arith, v.fits, v.inside) in
    let hp : parent i < length a = omega arith in
    rw (load-eq a i blank hi, load-eq a (parent i) blank hp, exchange-eq a i (parent i) blank hi hp)
      (Returns-if (i == 0)
        (λ root.
          returns
            (record { heap = λ c p q. v.edges c p q (ground arith); same = Perm.rfl; size = refl }))
        (λ inner.
          Returns-if (ltb_ℤ (key a (parent i)) (key a i))
            (λ above. Sifted-exchanged n a i (parent i) v.fits v.inside (omega (arith, v.inside)) (
              sift_up-Sifted fuel n (exchanged a i (parent i) blank) (parent i) (ground arith)
                (exchanged-IsRising n a i v (ground arith) above)))
            (λ settled. returns (record {
              heap = λ c p q. ground (arith, v.edges c);
              same = Perm.rfl;
              size = refl;
            }))))

-- A request whose strings can be read is duplicated as it is.
pub copy_info-readable : (r : RequestInfo) → readable r ≡ true → copy_info r ≡ ok r
unfolding copy_info
copy_info-readable r h = ground arith

module _ (pq : PriorityQueue) (value : RequestInfo) (priority : ℤ) where
  abbrev pub work : PqItem
  work = record { value = value; priority = priority }

  abbrev placed : List PqItem
  placed = set pq.items pq.size work

  placed-IsRising : IsValid pq → pq.size < pq.capacity → IsRising (pq.size + 1) placed pq.size
  placed-IsRising v h =
      let room : pq.size < length pq.items = omega (arith, v.room) in
      let at = λ (c : ℕ). get_or-set pq.items pq.size c work blank room in
      record {
        fits = omega (arith, length-set pq.items pq.size work);
        inside = omega arith;
        edges = λ c p q r. ground (arith, at c, at (parent c), v.heap c);
        over = λ c p q r s. absurd (omega arith);
      }

  placed-perm :
      IsValid pq → pq.size < pq.capacity → Perm (take (suc pq.size) placed) (work ∷ works pq)
  placed-perm v h =
      let room : pq.size < length pq.items = omega (arith, v.room) in
      let size = length-set pq.items pq.size work in
      let last : get_or placed pq.size blank ≡ work =
        ground (arith, get_or-set pq.items pq.size pq.size work blank room) in
      rw (take-suc pq.size placed blank (omega (arith, size))) (
        rw (take-set_past pq.size pq.items pq.size work (omega arith))
          (rw last (snoc-perm (works pq) work)))

  -- What `add_work` leaves: a valid queue of the old works and the new one.
  abbrev pub Added : PriorityQueue → Type 0
  Added q =
      IsValid q
      × Perm (works q) (work ∷ works pq)
      × (q.capacity ≡ pq.capacity)
      × (q.size ≡ pq.size + 1)

  -- On a valid queue with room, a request whose strings can be read is added: the queue stays valid,
  -- holds the old works and the new one, keeps its capacity and grows by one.
  pub add_work_correct :
      IsValid pq
      → pq.size < pq.capacity
      → readable value ≡ true
      → Returns Added (add_work pq value priority)
  unfolding add_work
  add_work_correct v h r =
      rw (copy_info-readable value r, store-eq pq.items pq.size work (omega (arith, v.room)))
        (Returns->>=
          (sift_up-Sifted (pq.size + 1) (pq.size + 1) placed pq.size (omega arith)
            (placed-IsRising v h))
          λ b s.
            let same : Perm (take (pq.size + 1) b) (work ∷ works pq) =
              Perm.trans s.same (rw add-one (placed-perm v h)) in
            returns (
              record {
                room = omega (arith, s.size, length-set pq.items pq.size work, v.room);
                bounded = omega arith;
                heap = s.heap;
                strings = AllReadable-perm same (AllReadable-cons work (works pq) r v.strings);
              },
              same,
              refl,
              refl,
            ))

-- On a valid queue that is full `add_work` writes past the end of the array.
pub add_work-full :
    (pq : PriorityQueue) (value : RequestInfo) (priority : ℤ)
    → IsValid pq
    → pq.size ≡ pq.capacity
    → readable value ≡ true
    → add_work pq value priority ≡ fault out_of_bounds
unfolding add_work store
add_work-full pq value priority v full r = rw (copy_info-readable value r) (ground (arith, v.room))

-- A new queue over a block of its capacity is valid and holds no work.
pub create_queue-IsValid :
    (block : List PqItem) (capacity : ℕ)
    → length block ≡ capacity
    → IsValid (create_queue block capacity) × (works (create_queue block capacity) ≡ [])
unfolding create_queue
create_queue-IsValid block capacity h = (
  record {
    room = h;
    bounded = omega arith;
    heap = λ c p q. absurd (omega arith);
    strings = λ x m. absurd (not-mem-nil m);
  },
  refl,
)
