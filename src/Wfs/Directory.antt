-- ===== src/Wfs/Directory.antt =====
-- The content of a directory as a sequence of entries, and the loop of `name_to_inodenum` on it.
use hanlin.Base.{
  ℕ, zero, suc, ◌+◌, ◌-◌, ◌*◌, ◌/◌, ◌^◌, ◌≤◌, ◌<◌, ◌≡◌, ◌≢◌, inl, inr, refl, sym, ◌∙◌, ap, subst,
  List, [], ◌∷◌, ◌++◌, none, some, if◌then◌else◌, length, take, drop, arith, Bool-cases, append-nil,
  length-append, length-drop, append_assoc, drop-append, take-append,
}
use native.Mathlib.Numerals.{unary_clauses}
use hanlin.CString.{c_str, str_eq}
use hanlin.Wfs.Disk.{to_bytes, of_bytes, find_name}
use hanlin.Wfs.Ops.{bytes_at, new_dentry}
use hanlin.Wfs.Layout.{length-bytes_at}

abbrev pub NoNul : List ℕ → Type 0
NoNul [] = Unit
NoNul (c ∷ s) = (c ≢ 0) × NoNul s

c_str-append : (name rest : List ℕ) → NoNul name → c_str (name ++ (0 ∷ rest)) ≡ name
unfolding c_str
c_str-append [] rest clean = refl
c_str-append (c ∷ name) rest clean = ground (arith, clean.0, c_str-append name rest clean.1)

of_bytes-to_bytes : (n v : ℕ) → v < 256 ^ n → of_bytes (to_bytes n v) ≡ v
unfolding of_bytes to_bytes
of_bytes-to_bytes zero v h = omega (arith, h)
of_bytes-to_bytes (suc n) v h =
    let power : 256 ^ suc n ≡ 256 * 256 ^ n = simp unary_clauses (omega arith) in
    omega (arith, of_bytes-to_bytes n (v / 256) (omega (arith, h, power)))

-- The 40 bytes of a directory entry: a name, its NUL, and what lies behind.
abbrev pub chunk : List ℕ → List ℕ → List ℕ
chunk name pad = name ++ (0 ∷ pad)

-- The content of a directory of `n` entries.
pub data Dentries : ℕ → List ℕ → Type 0 where
  no_dentries : Dentries 0 []
  dentry :
      {n : ℕ} {rest : List ℕ} (name pad : List ℕ)
      → NoNul name
      → length (chunk name pad) ≡ 40
      → Dentries n rest
      → Dentries (suc n) (chunk name pad ++ rest)

drop-in : (n : ℕ) (xs ys : List ℕ) → n ≤ length xs → drop n (xs ++ ys) ≡ drop n xs ++ ys
drop-in zero xs ys h = refl
drop-in (suc n) [] ys h = absurd (omega (arith, h))
drop-in (suc n) (x ∷ xs) ys h = drop-in n xs ys (omega (arith, h))

pub drop_exactly : (n : ℕ) (xs ys : List ℕ) → length xs ≡ n → drop n (xs ++ ys) ≡ ys
drop_exactly n xs ys h = subst (λ k. drop k (xs ++ ys) ≡ ys) h (drop-append xs ys)

pub take_exactly : (n : ℕ) (xs ys : List ℕ) → length xs ≡ n → take n (xs ++ ys) ≡ xs
take_exactly n xs ys h = subst (λ k. take k (xs ++ ys) ≡ xs) h (take-append xs ys)

-- One round of the loop of `name_to_inodenum` reads the name and the number of the entry in front.
find_name-step :
    (w : List ℕ) (n : ℕ) (name pad rest : List ℕ)
    → NoNul name
    → length (chunk name pad) ≡ 40
    → find_name w (suc n) (chunk name pad ++ rest)
      ≡ (if str_eq w name then some (of_bytes (drop 32 (chunk name pad))) else find_name w n rest)
unfolding find_name
find_name-step w n name pad rest clean size =
    let whole = chunk name pad ++ rest in
    let read_name : c_str whole ≡ name =
      ap c_str (append_assoc name (0 ∷ pad) rest) ∙ c_str-append name (pad ++ rest) clean in
    let behind = drop-in 32 (chunk name pad) rest (omega (arith, size)) in
    let read_number : take 8 (drop 32 whole) ≡ drop 32 (chunk name pad) =
      ap (take 8) behind
      ∙ take_exactly 8 (drop 32 (chunk name pad)) rest
          (omega (arith, size, length-drop 32 (chunk name pad))) in
    let go_on = drop_exactly 40 (chunk name pad) rest size in rw (read_name, read_number, go_on)

find_name-zero : (w : List ℕ) → find_name w 0 [] ≡ none
unfolding find_name
find_name-zero w = refl

-- What the loop finds in a directory with one more entry.
pub find_name-append :
    {n : ℕ} {s : List ℕ} (w name pad : List ℕ)
    → Dentries n s
    → NoNul name
    → length (chunk name pad) ≡ 40
    → find_name w (suc n) (s ++ chunk name pad) ≡ (elim (find_name w n s) [
      | some ino ↦ some ino
      | none ↦ if str_eq w name then some (of_bytes (drop 32 (chunk name pad))) else none
    ])
find_name-append w name pad no_dentries clean size =
    ap (find_name w 1) (sym (append-nil (chunk name pad)))
    ∙ find_name-step w 0 name pad [] clean size
    ∙ rw (find_name-zero w)
find_name-append w name pad (dentry {n} {rest} name' pad' clean' size' ds) clean size =
    let after = chunk name pad in
    let split = append_assoc (chunk name' pad') rest after in
    let first =
      ap (find_name w (suc (suc n))) split
      ∙ find_name-step w (suc n) name' pad' (rest ++ after) clean' size' in
    let old = find_name-step w n name' pad' rest clean' size' in
    let later = find_name-append w name pad ds clean size in
    elim (Bool-cases (str_eq w name')) [
      | inl same ↦ first ∙ rw (old, same)
      | inr other ↦ first ∙ rw (old, other) later
    ]

-- A directory of whole entries stays one.
pub Dentries-append :
    {n : ℕ} {s : List ℕ} (name pad : List ℕ)
    → Dentries n s
    → NoNul name
    → length (chunk name pad) ≡ 40
    → Dentries (suc n) (s ++ chunk name pad)
Dentries-append name pad no_dentries clean size =
    subst (Dentries 1) (append-nil (chunk name pad)) (dentry name pad clean size no_dentries)
Dentries-append name pad (dentry {rest} name' pad' clean' size' ds) clean size =
    subst (Dentries _) (sym (append_assoc (chunk name' pad') rest (chunk name pad)))
      (dentry name' pad' clean' size' (Dentries-append name pad ds clean size))

pub length-Dentries : {n : ℕ} {s : List ℕ} → Dentries n s → length s ≡ 40 * n
length-Dentries no_dentries = refl
length-Dentries (dentry {rest} name pad clean size ds) =
    omega (arith, size, length-append (chunk name pad) rest, length-Dentries ds)

-- What lies behind the NUL of a name in the entry that the operations write.
abbrev pub padding : (ℕ → ℕ) → ℕ → List ℕ → ℕ → List ℕ
padding free a name ino = bytes_at free (a + length name + 1) (31 - length name) ++ to_bytes 8 ino

pub new_dentry-chunk :
    (free : ℕ → ℕ) (a : ℕ) (name : List ℕ) (ino : ℕ)
    → new_dentry free a name ino ≡ chunk name (padding free a name ino)
unfolding new_dentry
new_dentry-chunk free a name ino =
    append_assoc name (0 ∷ bytes_at free (a + length name + 1) (31 - length name)) (to_bytes 8 ino)

pub new_dentry-inode :
    (free : ℕ → ℕ) (a : ℕ) (name : List ℕ) (ino : ℕ)
    → length name ≤ 31
    → ino < 2 ^ 32
    → of_bytes (drop 32 (new_dentry free a name ino)) ≡ ino
unfolding new_dentry
new_dentry-inode free a name ino short small =
    let front = name ++ (0 ∷ bytes_at free (a + length name + 1) (31 - length name)) in
    let size : length front ≡ 32 = omega (
      arith,
      length-append name (0 ∷ bytes_at free (a + length name + 1) (31 - length name)),
      length-bytes_at free (a + length name + 1) (31 - length name),
    ) in
    ap of_bytes (drop_exactly 32 front (to_bytes 8 ino) size)
    ∙ of_bytes-to_bytes 8 ino (omega (arith, small))
