-- ===== src/Kernel/Pipe.antt =====
-- pipe.c. The spinlock makes a critical section one change of the state: a write or a read runs to its
-- end, or to the `sleep` from which it goes on later with what is left.
pub mod Fifo
pub mod Abstract
pub mod Refine
pub mod History
use hanlin.Base.{
  ℕ, zero, suc, ◌+◌, ◌%◌, ◌^◌, Bool, true, false, ◌&&◌, ◌||◌, not, List, [], ◌∷◌, Option, none,
  some, ◌==◌, if◌then◌else◌, get_or, set,
}

abbrev pub pipe_size : ℕ
pipe_size = 512

-- A `uint`.
abbrev pub u32 : ℕ → ℕ
u32 n = n % 2 ^ 32

-- `struct pipe`, the lock left out.
pub record Pipe : Type 0 where
  pub contents : List ℕ
  pub nread : ℕ
  pub nwrite : ℕ
  pub readopen : Bool
  pub writeopen : Bool

-- Those who sleep on `&p->nread` and on `&p->nwrite`.
pub data Waiters : Type 0 where
  readers writers : Waiters

-- How a critical section ends: the call returns a value, or it sleeps.
pub data Outcome {ℓ} (A : Type ℓ) : Type ℓ where
  returned : A → Outcome A
  returned_error : Outcome A
  asleep : Outcome A

-- The pipe of `pipealloc`, in a page that has held other bytes.
unfoldable pub pipealloc : List ℕ → Pipe
pipealloc page = record {
  contents = page;
  nread = 0;
  nwrite = 0;
  readopen = true;
  writeopen = true;
}

-- `pipeclose`: whom it wakes, and the pipe unless it frees the page.
unfoldable pub pipeclose : Pipe → Bool → Waiters × Option Pipe
pipeclose p true = (readers, if p.readopen then some (record p { writeopen = false }) else none)
pipeclose p false = (writers, if p.writeopen then some (record p { readopen = false }) else none)

-- p->data[p->nwrite++ % PIPESIZE] = b
unfoldable pub put : Pipe → ℕ → Pipe
put p b = record p {
  contents = set p.contents (p.nwrite % pipe_size) b;
  nwrite = u32 (p.nwrite + 1);
}

-- p->data[p->nread++ % PIPESIZE]
unfoldable pub get : Pipe → ℕ × Pipe
get p = (get_or p.contents (p.nread % pipe_size) 0, record p { nread = u32 (p.nread + 1) })

abbrev pub is_full : Pipe → Bool
is_full p = p.nwrite == u32 (p.nread + pipe_size)

abbrev pub is_empty : Pipe → Bool
is_empty p = p.nread == p.nwrite

-- The loop of `pipewrite` from the byte that it has come to: the pipe, the bytes that are left, how it
-- ends, and whom it wakes.
unfoldable pub write_loop : Pipe → Bool → List ℕ → Pipe × List ℕ × Outcome (Unit {0}) × List Waiters
unfolding put
write_loop p killed [] = (p, [], returned tt, readers ∷ [])
write_loop p killed (b ∷ bytes) =
    let next = write_loop (put p b) killed bytes in
    if is_full p
    then (if not p.readopen || killed
        then (p, b ∷ bytes, returned_error, [])
        else (p, b ∷ bytes, asleep, readers ∷ []))
    else next

-- The copying loop of `piperead`, `n` bytes at most.
unfoldable pub read_loop : Pipe → ℕ → Pipe × List ℕ
unfolding get
read_loop p zero = (p, [])
read_loop p (suc n) =
    let (b, p') = get p in
    let next = read_loop p' n in if is_empty p then (p, []) else (next.0, b ∷ next.1)

-- `piperead` from one waking to the next.
unfoldable pub piperead : Pipe → Bool → ℕ → Pipe × Outcome (List ℕ) × List Waiters
unfolding read_loop
piperead p killed n =
    let copied = read_loop p n in
    if is_empty p && p.writeopen
    then (if killed then (p, returned_error, []) else (p, asleep, []))
    else (copied.0, returned copied.1, writers ∷ [])
