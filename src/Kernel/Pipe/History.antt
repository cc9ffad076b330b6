-- ===== src/Kernel/Pipe/History.antt =====
-- What went into a pipe comes out, in order, over any sequence of critical sections.
use hanlin.Base.{
  ℕ, zero, suc, ◌-◌, ◌≡◌, refl, sym, ap, ◌∙◌, Bool, List, [], ◌∷◌, ◌++◌, append-nil, append_assoc,
  length, take, drop, length-drop, arith,
}
use hanlin.Kernel.Pipe.{Pipe, write_loop, piperead}
use hanlin.Kernel.Pipe.Fifo.{IsValid, queue}
use hanlin.Kernel.Pipe.Refine.{write_loop_refines, piperead_refines}
use hanlin.Kernel.Pipe.Abstract.{view, room, fifo_write_stored, delivered-fifo_read, delivered}

-- A critical section of a writer, or of a reader, and whether its process is killed.
pub data Section : Type 0 where
  writing : Bool → List ℕ → Section
  reading : Bool → ℕ → Section

-- The bytes of `bytes` before its end `rest`.
abbrev pub before : List ℕ → List ℕ → List ℕ
before bytes rest = take (length bytes - length rest) bytes

-- The pipe after the sections, the bytes that they stored, and the bytes that they returned.
pub history : Pipe → List Section → Pipe × List ℕ × List ℕ
history p [] = (p, [], [])
history p (writing killed bytes ∷ sections) =
    let (p', rest, outcome, woken) = write_loop p killed bytes in
    let (last, stored, out) = history p' sections in (last, before bytes rest ++ stored, out)
history p (reading killed n ∷ sections) =
    let (p', outcome, woken) = piperead p killed n in
    let (last, stored, out) = history p' sections in (last, stored, delivered outcome ++ out)

before-drop : (n : ℕ) (xs : List ℕ) → before xs (drop n xs) ≡ take n xs
before-drop zero xs = let e : length xs - length xs ≡ 0 = omega arith in ap (λ k. take k xs) e
before-drop (suc n) [] = refl
before-drop (suc n) (x ∷ xs) =
    let e : suc (length xs) - length (drop n xs) ≡ suc (length xs - length (drop n xs)) =
      omega (arith, length-drop n xs) in
    ap (λ k. take k (x ∷ xs)) e ∙ ap (◌∷◌ x) (before-drop n xs)

-- A write puts the bytes that it stores behind the others.
queue-write :
    (p : Pipe) (killed : Bool) (bytes : List ℕ)
    → IsValid p
    → queue (write_loop p killed bytes).0 ≡ queue p ++ before bytes (write_loop p killed bytes).1
queue-write p killed bytes v =
    let same = (write_loop_refines p killed bytes v).1 in
    let (stored, left) = fifo_write_stored (view p) killed bytes in
    ap (λ r. r.0.bytes) same
    ∙ stored
    ∙ ap (λ q. queue p ++ q)
        (sym (
          ap (λ r. before bytes r.1) same
          ∙ ap (before bytes) left
          ∙ before-drop (room (view p)) bytes))

-- A read takes the bytes that it returns from the front.
queue-read :
    (p : Pipe) (killed : Bool) (n : ℕ)
    → IsValid p
    → queue p ≡ delivered (piperead p killed n).1 ++ queue (piperead p killed n).0
queue-read p killed n v =
    let same = (piperead_refines p killed n v).1 in
    sym (ap (λ r. delivered r.1 ++ r.0.bytes) same ∙ delivered-fifo_read (view p) killed n)

-- From any valid pipe, after any sequence of sections the bytes returned, followed by those still in
-- the pipe, are the bytes that were in it, followed by those stored; and the pipe is valid.
pub history_fifo :
    (p : Pipe) (sections : List Section)
    → IsValid p
    → let (last, stored, out) = history p sections in
      IsValid last × (out ++ queue last ≡ queue p ++ stored)
unfolding history
history_fifo p [] v = (v, sym (append-nil (queue p)))
history_fifo p (writing killed bytes ∷ sections) v =
    let (p', rest, outcome, woken) = write_loop p killed bytes in
    let (valid, same) = history_fifo p' sections (write_loop_refines p killed bytes v).0 in
    (
      valid,
      same
          ∙ ap (λ q. q ++ (history p' sections).1) (queue-write p killed bytes v)
          ∙ append_assoc (queue p) (before bytes rest) (history p' sections).1,
    )
history_fifo p (reading killed n ∷ sections) v =
    let (p', outcome, woken) = piperead p killed n in
    let (valid, same) = history_fifo p' sections (piperead_refines p killed n v).0 in
    (
      valid,
      append_assoc (delivered outcome) (history p' sections).2 (queue (history p' sections).0)
          ∙ ap (λ q. delivered outcome ++ q) same
          ∙ sym (append_assoc (delivered outcome) (queue p') (history p' sections).1)
          ∙ ap (λ q. q ++ (history p' sections).1) (sym (queue-read p killed n v)),
    )
