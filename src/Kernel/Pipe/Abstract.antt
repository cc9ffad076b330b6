-- ===== src/Kernel/Pipe/Abstract.antt =====
-- The abstract pipe: a bounded queue of bytes with two ends.
use hanlin.Base.{
  ℕ, zero, suc, ◌-◌, ◌<◌, ◌≡◌, refl, sym, ap, ◌∙◌, Bool, true, false, ◌&&◌, ◌||◌, not, List, [],
  ◌∷◌, ◌++◌, append-nil, append_assoc, leb, ◌==◌, if◌then◌else◌, length, take, drop, length-append,
  arith,
}
use hanlin.Kernel.Pipe.{Pipe, Waiters, readers, writers, Outcome, returned, returned_error, asleep}
use hanlin.Kernel.Pipe.Fifo.{queue}

-- The abstract pipe: its bytes in order, and which ends are open.
pub record Fifo : Type 0 where
  pub bytes : List ℕ
  pub reading : Bool
  pub writing : Bool

abbrev pub view : Pipe → Fifo
view p = record { bytes = queue p; reading = p.readopen; writing = p.writeopen }

abbrev pub room : Fifo → ℕ
room f = 512 - length f.bytes

-- What the call has done when it ends or sleeps.
abbrev pub write_end :
    Bool → Bool → Fifo → List ℕ → Fifo × List ℕ × Outcome (Unit {0}) × List Waiters
write_end fits fails after rest =
    if fits
    then (after, rest, returned tt, readers ∷ [])
    else (if fails then (after, rest, returned_error, []) else (after, rest, asleep, readers ∷ []))

-- What a write promises: as many bytes as there is room for, and then it is done, or fails, or sleeps.
unfoldable pub fifo_write : Fifo → Bool → List ℕ → Fifo × List ℕ × Outcome (Unit {0}) × List Waiters
fifo_write f killed bytes =
    write_end (leb (length bytes) (room f)) (not f.reading || killed)
      (record f { bytes = f.bytes ++ take (room f) bytes }) (drop (room f) bytes)

-- What a read has done when it returns or sleeps.
abbrev pub read_end : Bool → Bool → Fifo → Fifo → List ℕ → Fifo × Outcome (List ℕ) × List Waiters
read_end waits killed before after out =
    if waits
    then (if killed then (before, returned_error, []) else (before, asleep, []))
    else (after, returned out, writers ∷ [])

-- What a read promises: up to `n` bytes from the front; it waits only on an empty pipe with a writer.
unfoldable pub fifo_read : Fifo → Bool → ℕ → Fifo × Outcome (List ℕ) × List Waiters
fifo_read f killed n =
    read_end (length f.bytes == 0 && f.writing) killed f (record f { bytes = drop n f.bytes })
      (take n f.bytes)

write_end_stored :
    (fits fails : Bool) (after : Fifo) (rest : List ℕ)
    → ((write_end fits fails after rest).0 ≡ after) × ((write_end fits fails after rest).1 ≡ rest)
write_end_stored true fails after rest = (refl, refl)
write_end_stored false true after rest = (refl, refl)
write_end_stored false false after rest = (refl, refl)

pub fifo_write_stored :
    (f : Fifo) (killed : Bool) (bytes : List ℕ)
    → ((fifo_write f killed bytes).0.bytes ≡ f.bytes ++ take (room f) bytes)
      × ((fifo_write f killed bytes).1 ≡ drop (room f) bytes)
unfolding fifo_write
fifo_write_stored f killed bytes =
    let stored =
      write_end_stored (leb (length bytes) (room f)) (not f.reading || killed)
        (record f { bytes = f.bytes ++ take (room f) bytes }) (drop (room f) bytes) in
    (ap (λ g. g.bytes) stored.0, stored.1)

-- The bytes that a read returns.
abbrev pub delivered : Outcome (List ℕ) → List ℕ
delivered (returned bytes) = bytes
delivered returned_error = []
delivered asleep = []

delivered-read_end :
    (waits killed : Bool) (before after : Fifo) (out : List ℕ)
    → out ++ after.bytes ≡ before.bytes
    → delivered (read_end waits killed before after out).1
        ++ (read_end waits killed before after out).0.bytes
      ≡ before.bytes
delivered-read_end true true before after out h = refl
delivered-read_end true false before after out h = refl
delivered-read_end false killed before after out h = h

take-drop : (n : ℕ) (xs : List ℕ) → take n xs ++ drop n xs ≡ xs
take-drop zero xs = refl
take-drop (suc n) [] = refl
take-drop (suc n) (x ∷ xs) = ap (◌∷◌ x) (take-drop n xs)

pub delivered-fifo_read :
    (f : Fifo) (killed : Bool) (n : ℕ)
    → delivered (fifo_read f killed n).1 ++ (fifo_read f killed n).0.bytes ≡ f.bytes
unfolding fifo_read
delivered-fifo_read f killed n =
    delivered-read_end (length f.bytes == 0 && f.writing) killed f
      (record f { bytes = drop n f.bytes }) (take n f.bytes) (take-drop n f.bytes)

take-nil : (n : ℕ) → take {A = ℕ} n [] ≡ []
take-nil zero = refl
take-nil (suc n) = refl

drop-nil : (n : ℕ) → drop {A = ℕ} n [] ≡ []
drop-nil zero = refl
drop-nil (suc n) = refl

pub fifo_write-cons :
    (f : Fifo) (killed : Bool) (b : ℕ) (bytes : List ℕ)
    → length f.bytes < 512
    → fifo_write f killed (b ∷ bytes)
      ≡ fifo_write (record f { bytes = f.bytes ++ (b ∷ []) }) killed bytes
unfolding fifo_write
fifo_write-cons f killed b bytes h =
    let left : 512 - length f.bytes ≡ suc (512 - length (f.bytes ++ (b ∷ []))) =
      omega (arith, length-append f.bytes (b ∷ []), h) in
    let fits : leb (suc (length bytes)) (512 - length f.bytes)
        ≡ leb (length bytes) (512 - length (f.bytes ++ (b ∷ []))) =
      ground arith in
    let stored : f.bytes ++ take (512 - length f.bytes) (b ∷ bytes)
        ≡ (f.bytes ++ (b ∷ [])) ++ take (512 - length (f.bytes ++ (b ∷ []))) bytes =
      ap (λ n. f.bytes ++ take n (b ∷ bytes)) left ∙ sym (append_assoc f.bytes (b ∷ []) _) in
    let rest : drop (512 - length f.bytes) (b ∷ bytes)
        ≡ drop (512 - length (f.bytes ++ (b ∷ []))) bytes =
      ap (λ n. drop n (b ∷ bytes)) left in
    λ i. write_end (fits i) (not f.reading || killed) (record f { bytes = stored i }) (rest i)

pub fifo_write-full :
    (f : Fifo) (killed : Bool) (b : ℕ) (bytes : List ℕ)
    → length f.bytes ≡ 512
    → fifo_write f killed (b ∷ bytes) ≡ write_end false (not f.reading || killed) f (b ∷ bytes)
unfolding fifo_write
fifo_write-full f killed b bytes h =
    let none_left : 512 - length f.bytes ≡ 0 = omega (arith, h) in
    let full : leb (suc (length bytes)) (512 - length f.bytes) ≡ false = ground arith in
    let stored : f.bytes ++ take (512 - length f.bytes) (b ∷ bytes) ≡ f.bytes =
      ap (λ n. f.bytes ++ take n (b ∷ bytes)) none_left ∙ append-nil f.bytes in
    let rest : drop (512 - length f.bytes) (b ∷ bytes) ≡ b ∷ bytes =
      ap (λ n. drop n (b ∷ bytes)) none_left in
    λ i. write_end (full i) (not f.reading || killed) (record f { bytes = stored i }) (rest i)

pub fifo_write-nil :
    (f : Fifo) (killed : Bool) → fifo_write f killed [] ≡ (f, [], returned tt, readers ∷ [])
unfolding fifo_write
fifo_write-nil f killed =
    let fits : leb 0 (512 - length f.bytes) ≡ true = ground arith in
    let stored : f.bytes ++ take (512 - length f.bytes) [] ≡ f.bytes =
      ap (λ t. f.bytes ++ t) (take-nil (512 - length f.bytes)) ∙ append-nil f.bytes in
    λ i.
      write_end (fits i) (not f.reading || killed) (record f { bytes = stored i })
        (drop-nil (512 - length f.bytes) i)
