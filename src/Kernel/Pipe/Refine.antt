-- ===== src/Kernel/Pipe/Refine.antt =====
-- The critical sections of a pipe, as operations on the queue of its bytes.
use hanlin.Base.{
  ℕ, zero, suc, ◌<◌, ◌≡◌, refl, sym, ap, ap₂, ◌∙◌, Bool, true, false, ◌&&◌, ◌||◌, not, List, [],
  ◌∷◌, ◌++◌, ◌==◌, length, take, drop, Bool-cases, inl, inr, arith,
}
use hanlin.Kernel.Pipe.{
  Pipe, writers, returned, put, get, is_full, is_empty, write_loop, read_loop, piperead,
}
use hanlin.Kernel.Pipe.Fifo.{
  IsValid, count, queue, length-segment, put-IsValid, queue-put, is_full-true, is_full-false,
  is_empty-false, get-IsValid, queue-get, queue-empty,
}
use hanlin.Kernel.Pipe.Abstract.{
  view, write_end, fifo_write, read_end, fifo_read, fifo_write-cons, fifo_write-full,
  fifo_write-nil,
}

view-put :
    (p : Pipe) (b : ℕ)
    → IsValid p
    → count p < 512
    → view (put p b) ≡ record (view p) { bytes = queue p ++ (b ∷ []) }
unfolding put
view-put p b v few = ap (λ q. record (view p) { bytes = q }) (queue-put p b v few)

-- A write to a valid pipe keeps it valid, and does to its queue what `fifo_write` promises.
pub write_loop_refines :
    (p : Pipe) (killed : Bool) (bytes : List ℕ)
    → IsValid p
    → let (p', rest, outcome, woken) = write_loop p killed bytes in
      IsValid p' × ((view p', rest, outcome, woken) ≡ fifo_write (view p) killed bytes)
unfolding write_loop
write_loop_refines p killed [] v = (v, sym (fifo_write-nil (view p) killed))
write_loop_refines p killed (b ∷ bytes) v = elim (Bool-cases (is_full p)) [
  | inl full ↦
      let at_end =
        fifo_write-full (view p) killed b bytes (length-segment _ _ _ ∙ is_full-true p v full) in
      rw full (elim (Bool-cases (not p.readopen || killed)) [
        | inl fails ↦
            rw fails (v, sym (at_end ∙ ap (λ t. write_end false t (view p) (b ∷ bytes)) fails))
        | inr sleeps ↦
            rw sleeps (v, sym (at_end ∙ ap (λ t. write_end false t (view p) (b ∷ bytes)) sleeps))
      ])
  | inr free ↦
      let few = is_full-false p v free in
      let (valid, same) = write_loop_refines (put p b) killed bytes (put-IsValid p b v few) in
      rw free (
        valid,
        same
            ∙ ap (λ f. fifo_write f killed bytes) (view-put p b v few)
            ∙ sym (
                fifo_write-cons (view p) killed b bytes
                  (omega (arith, few, length-segment p.contents p.nread (count p)))),
      )
]

-- The copying loop takes bytes from the front of the queue.
read_loop-queue :
    (p : Pipe) (n : ℕ)
    → IsValid p
    → let (p', out) = read_loop p n in
      IsValid p'
      × (view p' ≡ record (view p) { bytes = drop n (queue p) })
      × (out ≡ take n (queue p))
unfolding read_loop
read_loop-queue p zero v = (v, refl, refl)
read_loop-queue p (suc n) v = elim (Bool-cases (is_empty p)) [
  | inl empty ↦
      let nothing = queue-empty p v empty in
      rw empty (
        v,
        ap (λ q. record (view p) { bytes = q }) (nothing ∙ ap (drop (suc n)) (sym nothing)),
        ap (take (suc n)) (sym nothing),
      )
  | inr some_bytes ↦
      let more : 0 < count p = omega (arith, is_empty-false p v some_bytes) in
      let (valid, left, out) = read_loop-queue (get p).1 n (get-IsValid p v more) in
      let front = queue-get p v more in
      rw some_bytes (
        valid,
        left ∙ ap (λ q. record (view p) { bytes = q }) (ap (drop (suc n)) (sym front)),
        ap (◌∷◌ (get p).0) out ∙ ap (take (suc n)) (sym front),
      )
]

-- Both look at the same test.
test_empty : (p : Pipe) → IsValid p → (length (queue p) == 0) ≡ is_empty p
test_empty p v = elim (Bool-cases (is_empty p)) [
  | inl empty ↦ ground (arith, empty, ap length (queue-empty p v empty))
  | inr more ↦
      rw more (ground (arith, is_empty-false p v more, length-segment p.contents p.nread (count p)))
]

-- A read from a valid pipe keeps it valid, and does to its queue what `fifo_read` promises.
pub piperead_refines :
    (p : Pipe) (killed : Bool) (n : ℕ)
    → IsValid p
    → let (p', outcome, woken) = piperead p killed n in
      IsValid p' × ((view p', outcome, woken) ≡ fifo_read (view p) killed n)
unfolding piperead fifo_read
piperead_refines p killed n v =
    let test = ap (λ t. t && p.writeopen) (test_empty p v) in
    let after = record (view p) { bytes = drop n (queue p) } in
    let bytes = take n (queue p) in
    elim (Bool-cases (is_empty p && p.writeopen)) [
      | inl waits ↦ elim (Bool-cases killed) [
        | inl dies ↦
            rw (waits, dies)
              (v, sym (ap (λ t. read_end t true (view p) after bytes) (test ∙ waits)))
        | inr sleeps ↦
            rw (waits, sleeps)
              (v, sym (ap (λ t. read_end t false (view p) after bytes) (test ∙ waits)))
      ]
      | inr goes ↦
          let (valid, left, out) = read_loop-queue p n v in
          rw goes (
            valid,
            ap₂ (λ f b. (f, returned b, writers ∷ [])) left out
                ∙ sym (ap (λ t. read_end t killed (view p) after bytes) (test ∙ goes)),
          )
    ]
