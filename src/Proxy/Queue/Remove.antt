-- ===== src/Proxy/Queue/Remove.antt =====
-- `dequeue`: it takes out a work of the highest priority, and keeps the queue in order. On the last
-- work it reads the string that it has just freed.
use mathlib.Core.List.Perm
use mathlib.Core.List.{mem-cons_of_mem}
use hanlin.Base.{
  ℕ, suc, ◌+◌, ◌-◌, ◌≤◌, ◌<◌, ◌≡◌, false, refl, List, ◌∷◌, Perm, arith, length, take, set,
  get_or-set, length-set, set-set, ◌>>=◌, take-suc, take-set, get_or-take, length-take, ◌≤ℤ◌,
  load-eq, store-eq, set-perm, snoc-perm, ok, Returns, Option, none, some, returns, Returns->>=,
  ◌==◌, subst, fault, use_after_free,
}
use hanlin.Proxy.Queue.{
  text, dangling, RequestInfo, PqItem, PriorityQueue, copy_info, free_str, sift_down, dequeue,
  parent, works, blank,
}
use hanlin.Proxy.Queue.Order.{key, entry, IsValid, AllReadable}
use hanlin.Proxy.Queue.Order.{root_greatest, entry-readable}
use hanlin.Proxy.Queue.Insert.{copy_info-readable}
use hanlin.Proxy.Queue.Down.{IsSinking, sift_down-Sifted, free_str-readable}

module _ (pq : PriorityQueue) (n : ℕ) (size : pq.size ≡ suc (suc n)) (v : IsValid pq) where
  abbrev first : PqItem
  first = entry pq.items 0

  abbrev last : PqItem
  last = entry pq.items (suc n)

  -- The array that the loop of `dequeue` starts on.
  abbrev cut : List PqItem
  cut = set pq.items 0 last

  fits : suc (suc n) ≤ length pq.items
  fits = omega (arith, v.room, v.bounded)

  all : AllReadable (take (suc (suc n)) pq.items)
  all = subst (λ k. AllReadable (take k pq.items)) size v.strings

  cut-perm : Perm (first ∷ take (suc n) cut) (works pq)
  cut-perm =
      let inside : 0 < length (take (suc n) pq.items) =
        omega (arith, fits, length-take (suc n) pq.items) in
      let traded : Perm (first ∷ take (suc n) cut) (last ∷ take (suc n) pq.items) =
        rw (take-set (suc n) pq.items 0 last) (
          rw (← get_or-take (suc n) pq.items 0 blank (omega arith))
            (set-perm (take (suc n) pq.items) 0 last blank inside)) in
      rw (size, take-suc (suc n) pq.items blank fits)
        (Perm.trans traded (Perm.symm (snoc-perm (take (suc n) pq.items) last)))

  cut-IsSinking : IsSinking (suc n) cut 0
  cut-IsSinking =
      let at = λ (c : ℕ). get_or-set pq.items 0 c last blank (omega (arith, fits)) in
      record {
        fits = omega (arith, fits, length-set pq.items 0 last);
        edges = λ c p q r. ground (arith, at c, at (parent c), v.heap c, size);
        over = omega arith;
      }

  -- What `dequeue` leaves: the root, which no work exceeds, and a valid queue of the others.
  abbrev Taken : Option RequestInfo × PriorityQueue → Type 0
  Taken r =
      (r.0 ≡ some first.value)
      × IsValid r.1
      × Perm (first ∷ works r.1) (works pq)
      × ((i : ℕ) → i < pq.size → key pq.items i ≤ℤ first.priority)
      × (r.1.capacity ≡ pq.capacity)
      × (r.1.size + 1 ≡ pq.size)

  dequeue_loop : dequeue pq ≡ (
      sift_down (suc n + 1) cut (suc n) 0 >>= λ sorted.
      ok (some first.value, record pq { items = sorted; size = suc n }))
  unfolding dequeue
  dequeue_loop =
      let ok_first = entry-readable (suc (suc n)) pq.items 0 fits all (omega arith) in
      let ok_last = entry-readable (suc (suc n)) pq.items (suc n) fits all (omega arith) in
      let (freed, free_eq) = free_str-readable first.value ok_first in
      let top = record first { value = record (first.value) { path = freed } } in
      let a = set pq.items 0 top in
      let shorter : pq.size - 1 ≡ suc n = omega arith in
      let inside : suc n < length a = omega (arith, fits, length-set pq.items 0 top) in
      let kept : entry a (suc n) ≡ last =
        ground (arith, get_or-set pq.items 0 (suc n) top blank (omega (arith, fits))) in
      let more : (pq.size == 0) ≡ false = ground arith in
      rw (
        more,
        shorter,
        load-eq pq.items 0 blank (omega (arith, fits)),
        copy_info-readable first.value ok_first,
        free_eq,
        store-eq pq.items 0 top (omega (arith, fits)),
        load-eq a (suc n) blank inside,
        kept,
        copy_info-readable last.value ok_last,
        store-eq a 0 last (omega arith),
        set-set pq.items 0 top last,
      )

  dequeue_many : Returns Taken (dequeue pq)
  dequeue_many = rw dequeue_loop (
      Returns->>= (sift_down-Sifted (suc n + 1) (suc n) cut 0 (omega arith) cut-IsSinking) λ b s.
        let same = Perm.trans (Perm.cons first s.same) cut-perm in
        returns (
          refl,
          record {
            room = omega (arith, s.size, length-set pq.items 0 last, v.room);
            bounded = omega (arith, v.bounded);
            heap = s.heap;
            strings = λ x m. v.strings x ((Perm.mem_iff same).0 (mem-cons_of_mem first m));
          },
          same,
          λ i h. root_greatest pq.size pq.items i v.heap h,
          refl,
          omega arith,
        ))

-- `dequeue` on a valid queue of two works or more returns the request of a work that no other
-- exceeds in priority, and leaves a valid queue of exactly the other works and of the same capacity.
pub dequeue_correct :
    (pq : PriorityQueue)
    → IsValid pq
    → 2 ≤ pq.size
    → Returns
        (λ r.
          (r.0 ≡ some (entry pq.items 0).value)
          × IsValid r.1
          × Perm (entry pq.items 0 ∷ works r.1) (works pq)
          × ((i : ℕ) → i < pq.size → key pq.items i ≤ℤ key pq.items 0)
          × (r.1.capacity ≡ pq.capacity)
          × (r.1.size + 1 ≡ pq.size))
        (dequeue pq)
dequeue_correct pq v h = dequeue_many pq (pq.size - 2) (omega arith) v

copy_info-dangling : (r : RequestInfo) → r.path ≡ dangling → copy_info r ≡ fault use_after_free
unfolding copy_info
copy_info-dangling r h = ground arith

free_str-text : (t : List ℕ) → free_str (text t) ≡ ok dangling
unfolding free_str
free_str-text t = refl

dequeue_last :
    (pq : PriorityQueue)
    → IsValid pq
    → (s : List ℕ) → pq.size ≡ 1
    → (entry pq.items 0).value.path ≡ text s
    → dequeue pq ≡ fault use_after_free
unfolding dequeue
dequeue_last pq v s e p =
    let top = entry pq.items 0 in
    let inside : 0 < length pq.items = omega (arith, v.room, v.bounded) in
    let readable_top =
      entry-readable pq.size pq.items 0 (omega (arith, v.room, v.bounded)) v.strings
        (omega arith) in
    let top' = record top { value = record (top.value) { path = dangling } } in
    let a = set pq.items 0 top' in
    let more : (pq.size == 0) ≡ false = ground arith in
    let zero_left : pq.size - 1 ≡ 0 = omega arith in
    let last : entry a 0 ≡ top' = ground (arith, get_or-set pq.items 0 0 top' blank inside) in
    rw (
      more,
      zero_left,
      load-eq pq.items 0 blank inside,
      copy_info-readable top.value readable_top,
      p,
      free_str-text s,
      store-eq pq.items 0 top' inside,
      load-eq a 0 blank (omega (arith, length-set pq.items 0 top')),
      last,
      copy_info-dangling top'.value refl,
    )

-- On a valid queue with no work, `dequeue` returns -1 and changes nothing. With one work, whose path
-- is a string, it frees that string and then reads it, which is undefined.
pub dequeue_few :
    (pq : PriorityQueue)
    → IsValid pq
    → (pq.size ≡ 0 → dequeue pq ≡ ok (none, pq))
      × ((s : List ℕ)
          → pq.size ≡ 1
          → (entry pq.items 0).value.path ≡ text s
          → dequeue pq ≡ fault use_after_free)
unfolding dequeue
dequeue_few pq v = (λ e. ground arith, dequeue_last pq v)
