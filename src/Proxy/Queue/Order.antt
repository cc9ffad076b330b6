-- ===== src/Proxy/Queue/Order.antt =====
-- The heap order on the first `n` entries of the array, and what an exchange does to it.
use mathlib.Core.List.Perm
use mathlib.Core.List.{forall_mem-cons}
use mathlib.Core.Bool.{Bool-set}
use hanlin.Base.{
  ℕ, zero, suc, ◌≤◌, ◌<◌, ◌≡◌, true, List, ◌∷◌, Mem, Perm, arith, length, take, get_or, ℤ, ◌≤ℤ◌,
  exchanged, length-exchanged, exchanged-perm, Run, Returns, Returns-weaken, length-take,
  get_or-take, get_or-mem, subst,
}
use hanlin.Proxy.Queue.{PqItem, PriorityQueue, parent, works, blank, readable}

abbrev pub entry : List PqItem → ℕ → PqItem
entry a i = get_or a i blank

abbrev pub key : List PqItem → ℕ → ℤ
key a i = (entry a i).priority

-- Every work has a priority of at most its parent's.
abbrev pub IsHeap : ℕ → List PqItem → Type 0
IsHeap n a = (c : ℕ) → 0 < c → c < n → key a c ≤ℤ key a (parent c)

abbrev pub AllReadable : List PqItem → Type 0
AllReadable a = (x : PqItem) → Mem x a → readable x.value ≡ true

-- The invariant of the queue.
pub record IsValid (pq : PriorityQueue) : Type 0 where
  pub room : length pq.items ≡ pq.capacity
  pub bounded : pq.size ≤ pq.capacity
  pub heap : IsHeap pq.size pq.items
  pub strings : AllReadable (works pq)

-- What a loop leaves: a heap of the same `n` entries in an array of the same length.
pub record Sifted (n : ℕ) (a b : List PqItem) : Type 0 where
  pub heap : IsHeap n b
  pub same : Perm (take n b) (take n a)
  pub size : length b ≡ length a

pub Sifted-exchanged :
    (n : ℕ) (a : List PqItem) (i j : ℕ) {r : Run (List PqItem)}
    → n ≤ length a
    → i < n
    → j < n
    → Returns (Sifted n (exchanged a i j blank)) r
    → Returns (Sifted n a) r
Sifted-exchanged n a i j h hi hj run = Returns-weaken run λ b s. record {
  heap = s.heap;
  same = Perm.trans s.same (exchanged-perm n a i j blank h hi hj);
  size = omega (arith, s.size, length-exchanged a i j blank);
}

root_greatest_below :
    (fuel n : ℕ) (a : List PqItem) (i : ℕ) → IsHeap n a → i < fuel → i < n → key a i ≤ℤ key a 0
root_greatest_below zero n a i h f p = absurd (omega arith)
root_greatest_below (suc fuel) n a zero h f p = omega arith
root_greatest_below (suc fuel) n a (suc i) h f p =
    let up = h (suc i) (omega arith) p in
    let rest = root_greatest_below fuel n a (parent (suc i)) h (omega arith) (omega arith) in
    omega (arith, up, rest)

-- The root of a heap has the highest priority.
pub root_greatest : (n : ℕ) (a : List PqItem) (i : ℕ) → IsHeap n a → i < n → key a i ≤ℤ key a 0
root_greatest n a i h p = root_greatest_below (suc i) n a i h (omega arith) p

-- The entry at an index below `n` is one of the first `n`.
pub entry-mem :
    (n : ℕ) (a : List PqItem) (i : ℕ) → n ≤ length a → i < n → Mem (entry a i) (take n a)
entry-mem n a i h p =
    subst (λ (x : PqItem). Mem x (take n a)) (get_or-take n a i blank p)
      (get_or-mem (take n a) i blank (omega (arith, length-take n a)))

-- So it can be read.
pub entry-readable :
    (n : ℕ) (a : List PqItem) (i : ℕ)
    → n ≤ length a
    → AllReadable (take n a)
    → i < n
    → readable (entry a i).value ≡ true
entry-readable n a i h all p = all (entry a i) (entry-mem n a i h p)

pub AllReadable-perm : {a b : List PqItem} → Perm a b → AllReadable b → AllReadable a
AllReadable-perm p all x m = all x ((Perm.mem_iff p).0 m)

pub AllReadable-cons :
    (x : PqItem) (a : List PqItem) → readable x.value ≡ true → AllReadable a → AllReadable (x ∷ a)
AllReadable-cons x a h all = (forall_mem-cons (λ y. Bool-set (readable y.value) true)).1 (h, all)
