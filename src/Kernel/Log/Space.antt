-- ===== src/Kernel/Log/Space.antt =====
-- The log has room for every operation in progress. An operation logs at most MAXOPBLOCKS blocks.
use hanlin.Base.{
  ℕ, suc, ◌+◌, ◌-◌, ◌*◌, ◌≤◌, ◌<◌, ◌≡◌, inl, inr, refl, sym, ap, subst, ◌∙◌, Bool, true, false,
  ◌||◌, List, ◌∷◌, ◌++◌, some, ltb, leb, ◌==◌, length, length-append, arith, Bool-cases,
}
use hanlin.Kernel.Log.{Log, begin_op, end_op, end_commit, absorb, log_write}
use hanlin.Kernel.Log.Steps.{
  committed, booted, begun, logged, ended, total, total-append, total-append_two, total-AllFew,
  AllFew-logged, AllFew-ended, Reach, IsRoomy, length-absorb, some-injective, none-some, false-true,
}

-- Where an operation is in progress nothing commits.
busy :
    {size : ℕ} {l : Log} (pre : List ℕ) (r : ℕ) (post : List ℕ)
    → IsRoomy size l (pre ++ (r ∷ post))
    → l.committing ≡ false
busy {l} pre r post v = elim (Bool-cases l.committing) [
  | inl yes_commit ↦ absurd (omega (arith, v.quiet yes_commit, length-append pre (r ∷ post)))
  | inr no_commit ↦ no_commit
]

begin_op-some :
    (l l' : Log)
    → begin_op l ≡ some l'
    → (record l { outstanding = l.outstanding + 1 } ≡ l')
      × (l.committing ≡ false)
      × (length l.blocks + (l.outstanding + 1) * 10 ≤ 30)
unfolding begin_op
begin_op-some l l' h =
    elim (Bool-cases (l.committing || ltb 30 (length l.blocks + (l.outstanding + 1) * 10))) [
      | inl waits ↦ absurd (none-some (rw (begin_op, waits) at h))
      | inr free ↦ (some-injective (rw (begin_op, free) at h), ground arith, ground arith)
    ]

end_op-some :
    (l l' : Log) (commits : Bool)
    → l.committing ≡ false
    → end_op l ≡ some (l', commits)
    → (l'.size ≡ l.size)
      × (l'.blocks ≡ l.blocks)
      × (l'.outstanding ≡ l.outstanding - 1)
      × (l'.committing ≡ true → l'.outstanding ≡ 0)
unfolding end_op
end_op-some l l' commits quiet h = elim (Bool-cases (l.outstanding - 1 == 0)) [
  | inl last ↦
      let zero_left : l.outstanding - 1 ≡ 0 = ground arith in
      let e = some-injective (rw (end_op, quiet, last) at h) in
      (
        sym (ap (λ p. p.0.size) e),
        sym (ap (λ p. p.0.blocks) e),
        sym (ap (λ p. p.0.outstanding) e),
        λ c. sym (ap (λ p. p.0.outstanding) e) ∙ zero_left,
      )
  | inr more ↦
      let e = some-injective (rw (end_op, quiet, more) at h) in
      (
        sym (ap (λ p. p.0.size) e),
        sym (ap (λ p. p.0.blocks) e),
        sym (ap (λ p. p.0.outstanding) e),
        λ c. absurd (false-true (ap (λ p. p.0.committing) e ∙ c)),
      )
]

log_write-some :
    (l l' : Log) (b : ℕ) → log_write l b ≡ some l' → record l { blocks = absorb l.blocks b } ≡ l'
unfolding log_write
log_write-some l l' b h =
    elim (Bool-cases (leb 30 (length l.blocks) || leb (l.size - 1) (length l.blocks))) [
      | inl full ↦ absurd (none-some (rw (log_write, full) at h))
      | inr free ↦ elim (Bool-cases (l.outstanding == 0)) [
        | inl idle ↦ absurd (none-some (rw (log_write, free, idle) at h))
        | inr busy ↦ some-injective (rw (log_write, free, busy) at h)
      ]
    ]

begun-IsRoomy :
    {size : ℕ} {l l' : Log} {left : List ℕ}
    → IsRoomy size l left
    → begin_op l ≡ some l'
    → IsRoomy size l' (10 ∷ left)
begun-IsRoomy {size} {l} {l'} {left} v h =
    let (e, quiet, room) = begin_op-some l l' h in
    subst (λ m. IsRoomy size m (10 ∷ left)) e
      (record {
        sized = v.sized;
        counted = omega (arith, v.counted);
        reserved = omega (arith, v.counted, total-AllFew left v.each, room);
        each = (omega arith, v.each);
        quiet = λ c. absurd (false-true (sym quiet ∙ c));
      })

logged-IsRoomy :
    {size : ℕ} {l l' : Log} (pre : List ℕ) (r : ℕ) (post : List ℕ) (b : ℕ)
    → IsRoomy size l (pre ++ (suc r ∷ post))
    → log_write l b ≡ some l'
    → IsRoomy size l' (pre ++ (r ∷ post))
logged-IsRoomy {size} {l} {l'} pre r post b v h =
    let before = total-append pre (suc r) post in
    let after = total-append pre r post in
    let counts = length-append pre (suc r ∷ post) in
    let counts' = length-append pre (r ∷ post) in
    subst (λ m. IsRoomy size m (pre ++ (r ∷ post))) (log_write-some l l' b h)
      (record {
        sized = v.sized;
        counted = omega (arith, v.counted, counts, counts');
        reserved = omega (arith, v.reserved, before, after, length-absorb l.blocks b);
        each = AllFew-logged pre r post v.each;
        quiet = λ c. absurd (false-true (sym (busy pre (suc r) post v) ∙ c));
      })

ended-IsRoomy :
    {size : ℕ} {l l' : Log} {commits : Bool} (pre : List ℕ) (r : ℕ) (post : List ℕ)
    → IsRoomy size l (pre ++ (r ∷ post))
    → end_op l ≡ some (l', commits)
    → IsRoomy size l' (pre ++ post)
ended-IsRoomy {size} {l} {l'} {commits} pre r post v h =
    let (size_kept, blocks_kept, counted, quiet) = end_op-some l l' commits (busy pre r post v) h in
    let counts = length-append pre (r ∷ post) in
    let counts' = length-append pre post in
    record {
      sized = size_kept ∙ v.sized;
      counted = omega (arith, counted, v.counted, counts, counts');
      reserved = omega (
        arith,
        ap length blocks_kept,
        v.reserved,
        total-append pre r post,
        total-append_two pre post,
      );
      each = AllFew-ended pre r post v.each;
      quiet = λ c. omega (arith, quiet c, counted, v.counted, counts, counts');
    }

Reach-IsRoomy : {size : ℕ} {l : Log} {left : List ℕ} → Reach size l left → IsRoomy size l left
unfolding end_commit
Reach-IsRoomy booted = record {
  sized = refl;
  counted = refl;
  reserved = omega arith;
  each = tt;
  quiet = λ c. refl;
}
Reach-IsRoomy (begun reach h) = begun-IsRoomy (Reach-IsRoomy reach) h
Reach-IsRoomy (logged pre r post b reach h) = logged-IsRoomy pre r post b (Reach-IsRoomy reach) h
Reach-IsRoomy (ended pre r post reach h) = ended-IsRoomy pre r post (Reach-IsRoomy reach) h
Reach-IsRoomy (committed {l} {left} reach h) =
    let v = Reach-IsRoomy reach in
    let idle = v.quiet h in
    record {
      sized = v.sized;
      counted = v.counted;
      reserved = omega (arith, idle, total-AllFew left v.each);
      each = v.each;
      quiet = λ c. idle;
    }

end_op-runs :
    (l : Log)
    → l.committing ≡ false
    → (l' : Log) × (commits : Bool) × (end_op l ≡ some (l', commits))
unfolding end_op
end_op-runs l quiet = elim (Bool-cases (l.outstanding - 1 == 0)) [
  | inl last ↦ (
    record l { outstanding = l.outstanding - 1; committing = true },
    true,
    ground (arith, quiet, last),
  )
  | inr more ↦ (record l { outstanding = l.outstanding - 1 }, false, ground (arith, quiet, more))
]

-- In every state that the operations reach, an operation in progress that may still log a block can, if
-- the blocks that the operations in progress may still log and those of the log are 32 or more
-- together: log_write does not panic and lists the block; and end_op does not panic. With a log of 31
-- blocks that always holds; with the 30 blocks of mkfs it holds when the operations in progress may
-- together log two blocks or more.
pub log_write_roomy :
    {size : ℕ} {l : Log} (pre : List ℕ) (r : ℕ) (post : List ℕ) (b : ℕ)
    → 32 ≤ size + total (pre ++ (suc r ∷ post))
    → Reach size l (pre ++ (suc r ∷ post))
    → (log_write l b ≡ some (record l { blocks = absorb l.blocks b }))
      × ((l' : Log) × (commits : Bool) × (end_op l ≡ some (l', commits)))
unfolding log_write absorb
log_write_roomy {size} {l} pre r post b large reach =
    let v = Reach-IsRoomy reach in
    let quiet = busy pre (suc r) post v in
    let sum = total-append pre (suc r) post in
    let counts = length-append pre (suc r ∷ post) in
    let few : length l.blocks < 30 = omega (arith, v.reserved, sum) in
    let below : length l.blocks + 1 < size = omega (arith, v.reserved, large) in
    let free : (leb 30 (length l.blocks) || leb (l.size - 1) (length l.blocks)) ≡ false =
      ground (arith, v.sized) in
    let running : (l.outstanding == 0) ≡ false = ground (arith, v.counted, counts) in
    (rw (log_write, free, running), end_op-runs l quiet)
