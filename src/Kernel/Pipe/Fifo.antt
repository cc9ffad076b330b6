-- ===== src/Kernel/Pipe/Fifo.antt =====
-- A pipe is a queue of at most 512 bytes.
use hanlin.Base.{
  ℕ, zero, suc, ◌+◌, ◌-◌, ◌%◌, ◌^◌, ◌≤◌, ◌<◌, ◌≡◌, ◌≢◌, refl, ap, ap₂, ◌∙◌, true, false, List, [],
  ◌∷◌, ◌++◌, length, get_or, set, length-set, get_or-set, arith,
}
use hanlin.Kernel.Pipe.{Pipe, u32, put, get, is_full, is_empty}

-- The bytes that were written and not read.
abbrev pub count : Pipe → ℕ
count p = u32 (p.nwrite + 2 ^ 32 - p.nread)

pub record IsValid (p : Pipe) : Type 0 where
  pub page : length p.contents ≡ 512
  pub read_word : p.nread < 2 ^ 32
  pub write_word : p.nwrite < 2 ^ 32
  pub bounded : count p ≤ 512

-- `n` bytes of the array from position `r` on, going round.
abbrev segment : List ℕ → ℕ → ℕ → List ℕ
segment page r zero = []
segment page r (suc n) = get_or page (r % 512) 0 ∷ segment page (r + 1) n

abbrev pub queue : Pipe → List ℕ
queue p = segment p.contents p.nread (count p)

pub length-segment : (page : List ℕ) (r n : ℕ) → length (segment page r n) ≡ n
length-segment page r zero = refl
length-segment page r (suc n) = ap suc (length-segment page (r + 1) n)

-- Only the place in the array matters.
segment-mod : (page : List ℕ) (r s n : ℕ) → r % 512 ≡ s % 512 → segment page r n ≡ segment page s n
segment-mod page r s zero h = refl
segment-mod page r s (suc n) h =
    ap₂ ◌∷◌ (ap (λ i. get_or page i 0) h) (segment-mod page (r + 1) (s + 1) n (omega arith))

-- A byte stored behind a segment that is not the whole array leaves the segment, and ends it.
segment-set :
    (page : List ℕ) (b r n : ℕ)
    → length page ≡ 512
    → n < 512
    → segment (set page ((r + n) % 512) b) r (suc n) ≡ segment page r n ++ (b ∷ [])
segment-set page b r zero size h =
    ap (λ c. c ∷ []) (ground (arith, get_or-set page ((r + 0) % 512) (r % 512) b 0))
segment-set page b r (suc n) size h =
    ap₂ ◌∷◌ (ground (arith, get_or-set page ((r + suc n) % 512) (r % 512) b 0)) (
      ap (λ i. segment (set page i b) (r + 1) (suc n)) (omega arith)
      ∙ segment-set page b (r + 1) n size (omega arith))

pub put-IsValid : (p : Pipe) (b : ℕ) → IsValid p → count p < 512 → IsValid (put p b)
unfolding put
put-IsValid p b v room = record {
  page = length-set p.contents (p.nwrite % 512) b ∙ v.page;
  read_word = v.read_word;
  write_word = omega arith;
  bounded = omega (arith, v.read_word, v.write_word, room);
}

pub count-put : (p : Pipe) (b : ℕ) → IsValid p → count p < 512 → count (put p b) ≡ suc (count p)
unfolding put
count-put p b v room = omega (arith, v.read_word, v.write_word, room)

pub queue-put :
    (p : Pipe) (b : ℕ) → IsValid p → count p < 512 → queue (put p b) ≡ queue p ++ (b ∷ [])
unfolding put
queue-put p b v room =
    ap₂ (λ n i. segment (set p.contents i b) p.nread n) (count-put p b v room)
      (omega (arith, v.read_word, v.write_word))
    ∙ segment-set p.contents b p.nread (count p) v.page room

pub is_full-true : (p : Pipe) → IsValid p → is_full p ≡ true → count p ≡ 512
is_full-true p v h =
    let e : p.nwrite ≡ u32 (p.nread + 512) = ground arith in omega (arith, e, v.read_word)

pub is_full-false : (p : Pipe) → IsValid p → is_full p ≡ false → count p < 512
is_full-false p v h =
    let e : p.nwrite ≢ u32 (p.nread + 512) = ground arith in
    omega (arith, e, v.read_word, v.write_word, v.bounded)

pub is_empty-true : (p : Pipe) → IsValid p → is_empty p ≡ true → count p ≡ 0
is_empty-true p v h = let e : p.nread ≡ p.nwrite = ground arith in omega (arith, e, v.read_word)

pub is_empty-false : (p : Pipe) → IsValid p → is_empty p ≡ false → count p ≡ suc (count p - 1)
is_empty-false p v h =
    let e : p.nread ≢ p.nwrite = ground arith in
    omega (arith, e, v.read_word, v.write_word, v.bounded)

pub get-IsValid : (p : Pipe) → IsValid p → 0 < count p → IsValid (get p).1
unfolding get
get-IsValid p v some_bytes = record {
  page = v.page;
  read_word = omega arith;
  write_word = v.write_word;
  bounded = omega (arith, v.read_word, v.write_word, v.bounded, some_bytes);
}

pub queue-get : (p : Pipe) → IsValid p → 0 < count p → queue p ≡ (get p).0 ∷ queue (get p).1
unfolding get
queue-get p v some_bytes =
    let left : count p ≡ suc (u32 (p.nwrite + 2 ^ 32 - u32 (p.nread + 1))) =
      omega (arith, v.read_word, v.write_word, v.bounded, some_bytes) in
    ap (segment p.contents p.nread) left
    ∙ ap (◌∷◌ (get_or p.contents (p.nread % 512) 0))
        (segment-mod p.contents (p.nread + 1) (u32 (p.nread + 1)) _ (omega arith))

pub queue-empty : (p : Pipe) → IsValid p → is_empty p ≡ true → queue p ≡ []
queue-empty p v empty = ap (segment p.contents p.nread) (is_empty-true p v empty)
