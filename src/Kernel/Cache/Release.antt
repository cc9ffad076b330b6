-- ===== src/Kernel/Cache/Release.antt =====
-- A buffer that is released goes to the front.
use mathlib.Core.Option.{some-injective}
use hanlin.Base.{
  ℕ, ◌≡◌, ◌≢◌, refl, sym, ap, ap₂, ◌∙◌, subst, true, false, List, [], ◌∷◌, none, some, inl, inr,
  Bool-cases, Option-cases, ◌==◌,
}
use hanlin.Kernel.Cache.{Buf, Cache, block_eq, holds, lookup, unlink, let_go, brelse}
use hanlin.Kernel.Cache.Recycle.{
  block_eq_sym, block_eq→eq, IsClean, AllClean, Distinct, shown, lookup_here, lookup_later,
}
use hanlin.Kernel.Cache.Change.{Distinct-update, AllClean-update, shown-update}
use hanlin.Kernel.Cache.Transparent.{IsCoherent, content}

module _ (d n : ℕ) where
  unlink_here : (b : Buf) (bs : List Buf) → holds d n b ≡ true → unlink d n (b ∷ bs) ≡ bs
  unfolding unlink
  unlink_here b bs e = rw e refl

  unlink_later :
      (b : Buf) (bs : List Buf) → holds d n b ≡ false → unlink d n (b ∷ bs) ≡ b ∷ unlink d n bs
  unfolding unlink
  unlink_later b bs e = rw e refl

  lookup-unlink_other :
      (bs : List Buf) (x y : ℕ)
      → block_eq d n x y ≡ false
      → lookup x y (unlink d n bs) ≡ lookup x y bs
  unfolding unlink
  lookup-unlink_other [] x y other = refl
  lookup-unlink_other (b ∷ bs) x y other = elim (Bool-cases (holds d n b)) [
    | inl own ↦
        let (same_dev, same_block) = block_eq→eq b.dev b.blockno d n own in
        ap (lookup x y) (unlink_here b bs own)
        ∙ sym (lookup_later x y b bs (ap₂ (λ u v. block_eq u v x y) same_dev same_block ∙ other))
    | inr away ↦ ap (lookup x y) (unlink_later b bs away) ∙ elim (Bool-cases (holds x y b)) [
      | inl e ↦ lookup_here x y b (unlink d n bs) e ∙ sym (lookup_here x y b bs e)
      | inr e ↦
          lookup_later x y b (unlink d n bs) e
          ∙ lookup-unlink_other bs x y other
          ∙ sym (lookup_later x y b bs e)
    ]
  ]

  lookup-unlink_same : (bs : List Buf) → d ≢ 0 → Distinct bs → lookup d n (unlink d n bs) ≡ none
  unfolding lookup unlink
  lookup-unlink_same [] nonzero distinct = refl
  lookup-unlink_same (b ∷ bs) nonzero distinct = elim (Bool-cases (holds d n b)) [
    | inl own ↦
        let (same_dev, same_block) = block_eq→eq b.dev b.blockno d n own in
        ap (lookup d n) (unlink_here b bs own)
        ∙ ap₂ (λ x y. lookup x y bs) (sym same_dev) (sym same_block)
        ∙ distinct.0 (λ z. nonzero (sym same_dev ∙ z))
    | inr away ↦
        ap (lookup d n) (unlink_later b bs away)
        ∙ lookup_later d n b (unlink d n bs) away
        ∙ lookup-unlink_same bs nonzero distinct.1
  ]

  Distinct-unlink : (bs : List Buf) → Distinct bs → Distinct (unlink d n bs)
  unfolding unlink
  Distinct-unlink [] distinct = tt
  Distinct-unlink (b ∷ bs) distinct = elim (Bool-cases (holds d n b)) [
    | inl own ↦ subst Distinct (sym (unlink_here b bs own)) distinct.1
    | inr away ↦ subst Distinct (sym (unlink_later b bs away)) (
      (λ used.
          lookup-unlink_other bs b.dev b.blockno (block_eq_sym b.dev b.blockno d n away)
          ∙ distinct.0 used),
      Distinct-unlink bs distinct.1,
    )
  ]

  AllClean-unlink :
      (disk : ℕ → ℕ → List ℕ) (bs : List Buf) → AllClean disk bs → AllClean disk (unlink d n bs)
  unfolding unlink
  AllClean-unlink disk [] clean = tt
  AllClean-unlink disk (b ∷ bs) clean = elim (Bool-cases (holds d n b)) [
    | inl own ↦ subst (AllClean disk) (sym (unlink_here b bs own)) clean.1
    | inr away ↦
        subst (AllClean disk) (sym (unlink_later b bs away))
          (clean.0, AllClean-unlink disk bs clean.1)
  ]

  -- The buffer that is found is one of the block.
  lookup-some :
      (disk : ℕ → ℕ → List ℕ) (bs : List Buf) (b : Buf)
      → AllClean disk bs
      → lookup d n bs ≡ some b
      → (holds d n b ≡ true) × IsClean disk b
  unfolding lookup
  lookup-some disk [] b clean h = absurd (none_ne h)
    where
      none_ne : none ≡ some b → ⊥
      none_ne h = cc
  lookup-some disk (x ∷ bs) b clean h = elim (Bool-cases (holds d n x)) [
    | inl own ↦
        subst (λ y. (holds d n y ≡ true) × IsClean disk y)
          (some-injective _ _ (sym (lookup_here d n x bs own) ∙ h)) (own, clean.0)
    | inr away ↦ lookup-some disk bs b clean.1 (sym (lookup_later d n x bs away) ∙ h)
  ]

-- The buffers are coherent, and a reader sees what it saw.
abbrev pub Alike : Cache → List Buf → Type 0
Alike c bs =
    IsCoherent (record c { bufs = bs })
    × ((d n : ℕ) → d ≢ 0 → content (record c { bufs = bs }) d n ≡ content c d n)

front-Alike :
    (c : Cache) (dev blockno : ℕ) (b : Buf)
    → dev ≢ 0
    → IsCoherent c
    → lookup dev blockno c.bufs ≡ some b
    → Alike c (let_go b ∷ unlink dev blockno c.bufs)
front-Alike c dev blockno b nonzero good found =
    let (own, clean) = lookup-some dev blockno c.disk c.bufs b good.clean found in
    let (same_dev, same_block) = block_eq→eq b.dev b.blockno dev blockno own in
    (
      record {
        distinct = (
          (λ used.
              ap₂ (λ x y. lookup x y (unlink dev blockno c.bufs)) same_dev same_block
              ∙ lookup-unlink_same dev blockno c.bufs nonzero good.distinct),
          Distinct-unlink dev blockno c.bufs good.distinct,
        );
        clean = (clean, AllClean-unlink dev blockno c.disk c.bufs good.clean);
      },
      (λ d n used. elim (Bool-cases (block_eq dev blockno d n)) [
        | inl e ↦
            let (same_d, same_n) = block_eq→eq dev blockno d n e in
            let own' : holds d n b ≡ true =
              ap₂ (λ x y. block_eq b.dev b.blockno x y) (sym same_d) (sym same_n) ∙ own in
            ap (shown c.disk d n) (lookup_here d n (let_go b) (unlink dev blockno c.bufs) own')
            ∙ ap (shown c.disk d n) (sym found ∙ ap₂ (λ x y. lookup x y c.bufs) same_d same_n)
        | inr other ↦ ap (shown c.disk d n) (
            lookup_later d n (let_go b) (unlink dev blockno c.bufs)
              (ap₂ (λ x y. block_eq x y d n) same_dev same_block ∙ other)
            ∙ lookup-unlink_other dev blockno c.bufs d n other)
      ]),
    )

pub brelse-Alike :
    (c : Cache) (dev blockno : ℕ) → dev ≢ 0 → IsCoherent c → Alike c (brelse dev blockno c.bufs)
unfolding brelse
brelse-Alike c dev blockno nonzero good = elim (Option-cases (lookup dev blockno c.bufs)) [
  | inl e ↦
      rw (brelse, e) (record { distinct = good.distinct; clean = good.clean }, λ d n used. refl)
  | inr (b, e) ↦ elim (Bool-cases ((let_go b).refcnt == 0)) [
    | inl last ↦ rw (brelse, e) (rw last (front-Alike c dev blockno b nonzero good e))
    | inr more ↦
        rw (brelse, e)
          (rw more (
            record {
              distinct =
                  Distinct-update dev blockno let_go (λ x. refl) (λ x. refl) c.bufs good.distinct;
              clean =
                  AllClean-update dev blockno let_go (λ x. refl) (λ x. refl) c.disk c.bufs
                    (λ x own clean. clean) good.clean;
            },
            λ d n used.
                shown-update dev blockno let_go (λ x. refl) (λ x. refl) c.disk c.bufs b d n e refl,
          ))
  ]
]
