-- ===== src/Proxy/Queue.antt =====
-- safequeue.h and safequeue.c: a bounded priority queue kept as a binary max-heap in an array.
-- A `char *` field owns its block, since `copy_info` always duplicates and the loops only exchange
-- whole items: so a string is a value here, and `dangling` is a pointer to a block that was freed
-- or never set. An allocation is taken to succeed.
pub mod Order
pub mod Insert
pub mod Down
pub mod Remove
use hanlin.Base.{
  ℕ, zero, suc, ◌+◌, ◌-◌, ◌*◌, ◌/◌, ◌≡◌, Bool, true, false, ◌&&◌, List, Option, none, some, ltb,
  ◌==◌, if◌then◌else◌, length, take, Run, ok, fault, out_of_fuel, use_after_free, ◌>>=◌, load,
  store, exchange, ℤ, pos, ltb_ℤ,
}

-- A `char *` and the block behind it.
pub data Str : Type 0 where
  null : Str
  text : List ℕ → Str
  dangling : Str

-- `request_info`
pub record RequestInfo : Type 0 where
  pub delay : ℤ
  pub client_fd : ℤ
  pub path : Str
  pub buffer : Str

-- `PQItem`
pub record PqItem : Type 0 where
  pub value : RequestInfo
  pub priority : ℤ

-- `PriorityQueue`; the capacity and the size are `int`s that are never negative.
pub record PriorityQueue : Type 0 where
  pub items : List PqItem
  pub capacity : ℕ
  pub size : ℕ

-- `malloc` hands out the block `block`, whose contents are arbitrary.
unfoldable pub create_queue : List PqItem → ℕ → PriorityQueue
create_queue block capacity = record { items = block; capacity = capacity; size = 0 }

-- One string of `copy_info`: `NULL` stays, a live string is duplicated, and to read a dangling
-- pointer is undefined.
unfoldable pub copy_str : Str → Run Str
copy_str null = ok null
copy_str (text s) = ok (text s)
copy_str dangling = fault use_after_free

-- `free`
unfoldable pub free_str : Str → Run Str
free_str null = ok null
free_str (text s) = ok dangling
free_str dangling = fault use_after_free

-- `copy_info(a, b)`: every field of `*a` is written, so the result is the new `*a`.
unfoldable pub copy_info : RequestInfo → Run RequestInfo
unfolding copy_str
copy_info b = do
  path ← copy_str b.path
  buffer ← copy_str b.buffer
  ok (record { delay = b.delay; client_fd = b.client_fd; path = path; buffer = buffer })

abbrev pub parent : ℕ → ℕ
parent i = (i - 1) / 2

-- The loop of `add_work`: `&&` reads the parent only at `i != 0`.
unfoldable pub sift_up : ℕ → List PqItem → ℕ → Run (List PqItem)
sift_up zero a i = out_of_fuel
sift_up (suc fuel) a i =
    let rise = exchange a i (parent i) >>= λ b. sift_up fuel b (parent i) in
    let step : Run (List PqItem) = do
      x ← load a i
      p ← load a (parent i)
      if ltb_ℤ p.priority x.priority then rise else ok a
    in if i == 0 then ok a else step

unfoldable pub add_work : PriorityQueue → RequestInfo → ℤ → Run PriorityQueue
add_work pq value priority = do
  let i = pq.size
  copy ← copy_info value
  placed ← store pq.items i (record { value = copy; priority = priority })
  sorted ← sift_up (i + 1) placed i
  ok (record pq { items = sorted; size = pq.size + 1 })

-- One of the two tests of the loop of `dequeue`: the child `c` in place of `m` if it exists and has
-- a higher priority.
unfoldable pub larger : List PqItem → ℕ → ℕ → ℕ → Run ℕ
larger a size m c =
    let compared : Run ℕ = do
      x ← load a c
      y ← load a m
      ok (if ltb_ℤ y.priority x.priority then c else m)
    in if ltb c size then compared else ok m

-- The loop of `dequeue`.
unfoldable pub sift_down : ℕ → List PqItem → ℕ → ℕ → Run (List PqItem)
sift_down zero a size i = out_of_fuel
sift_down (suc fuel) a size i =
    let step : Run (List PqItem) = do
      largest ← larger a size i (2 * i + 1)
      largest ← larger a size largest (2 * i + 2)
      let sink = exchange a i largest >>= λ b. sift_down fuel b size largest
      if largest == i then ok a else sink
    in if ltb (2 * i + 1) size then step else ok a

-- `dequeue(pq, work)`: `none` is the return value -1; `some w` is 1 with `*work` set to `w`.
unfoldable pub dequeue : PriorityQueue → Run (Option RequestInfo × PriorityQueue)
dequeue pq = if pq.size == 0 then ok (none, pq) else do
  top ← load pq.items 0
  work ← copy_info top.value
  freed ← free_str top.value.path
  let top_freed = record top { value = record (top.value) { path = freed } }
  a ← store pq.items 0 top_freed
  let size = pq.size - 1
  last ← load a size
  moved ← copy_info last.value
  b ← store a 0 (record { value = moved; priority = last.priority })
  sorted ← sift_down (size + 1) b size 0
  ok (some work, record pq { items = sorted; size = size })

-- Both return 1 exactly if `dequeue` does, and -1 otherwise: neither blocks.
unfoldable pub get_work : PriorityQueue → Run (Option RequestInfo × PriorityQueue)
get_work pq = dequeue pq

unfoldable pub get_work_nonblocking : PriorityQueue → Run (Option RequestInfo × PriorityQueue)
get_work_nonblocking pq = dequeue pq

-- The works that the queue holds.
abbrev pub works : PriorityQueue → List PqItem
works pq = take pq.size pq.items

abbrev pub blank : PqItem
blank = record {
  value = record { delay = pos 0; client_fd = pos 0; path = dangling; buffer = dangling };
  priority = pos 0;
}

-- Both strings of a request can be read.
abbrev pub readable_str : Str → Bool
readable_str null = true
readable_str (text s) = true
readable_str dangling = false

abbrev pub readable : RequestInfo → Bool
readable r = readable_str r.path && readable_str r.buffer
