-- ===== src/Kernel/Log/Crash.antt =====
-- A crash at any point of a commit or of a recovery.
use hanlin.Base.{
  ℕ, zero, suc, ◌≤◌, ◌≡◌, ◌⊎◌, inl, inr, refl, sym, ap, subst, ◌∙◌, false, List, [], ◌∷◌, ◌++◌,
  append-nil, append_assoc, if◌then◌else◌, length, take, arith, Bool-cases,
}
use hanlin.Kernel.Log.{
  Block, Blocks, Write, store, header, head_block, read_head, install_trans, write_head,
  recover_from_log,
}
use hanlin.Kernel.Log.Disk.{
  apply, is_mem, log_writes, home_writes, apply-append, Outside, AllOutside, Slots,
  header-head_block, store_other, store_same, log_writes-other, is_mem-start, home_writes-other,
  home_writes-all, home_writes-Slots, take-all,
}
use hanlin.Kernel.Log.Writes.{
  boot, Wrote-append, install_trans-Wrote, write_head-Wrote, commit_writes, Slots-head,
}

-- A prefix of `xs ++ ys` ends in `xs` or goes on in `ys`.
take-append_cases :
    (n : ℕ) (xs ys : List Write)
    → (take n (xs ++ ys) ≡ take n xs) ⊎ ((k : ℕ) × (take n (xs ++ ys) ≡ xs ++ take k ys))
take-append_cases n [] ys = inr (n, refl)
take-append_cases zero (x ∷ xs) ys = inl refl
take-append_cases (suc n) (x ∷ xs) ys = elim (take-append_cases n xs ys) [
  | inl inside ↦ inl (ap (◌∷◌ x) inside)
  | inr (k, behind) ↦ inr (k, ap (◌∷◌ x) behind)
]

-- The disk `d`, what `bread` shows of the blocks before the commit, and the blocks of the log.
module _ (d v : Blocks) (start : ℕ) (blocks : List ℕ) where
  -- No block of the transaction is on the disk; the log is complete; or every block is.
  pub record IsOld (x : Blocks) : Type 0 where
    pub cleared : header (x start) ≡ []
    pub home : (b : ℕ) → Outside start b → x b ≡ d b

  pub record IsLogged (x : Blocks) : Type 0 where
    pub listed : header (x start) ≡ blocks
    pub slots : Slots x v start 0 blocks
    pub home : (b : ℕ) → Outside start b → is_mem b blocks ≡ false → x b ≡ d b

  pub record IsNew (x : Blocks) : Type 0 where
    pub cleared : header (x start) ≡ []
    pub home : (b : ℕ) → Outside start b → x b ≡ (if is_mem b blocks then v b else d b)

  abbrev pub Known : Blocks → Type 0
  Known x = IsOld x ⊎ IsLogged x ⊎ IsNew x

  pub store-IsOld : (x : Blocks) (w : Block) → IsOld x → IsOld (store x start (head_block w []))
  store-IsOld x w old = record {
    cleared = ap header (store_same x start (head_block w [])) ∙ header-head_block w [];
    home = λ b o. store_other x start (head_block w []) b (omega arith) ∙ old.home b o;
  }

  pub store-IsNew : (x : Blocks) (w : Block) → IsNew x → IsNew (store x start (head_block w []))
  store-IsNew x w new = record {
    cleared = ap header (store_same x start (head_block w [])) ∙ header-head_block w [];
    home = λ b o. store_other x start (head_block w []) b (omega arith) ∙ new.home b o;
  }

  module _ (out : AllOutside start blocks) (small : length blocks ≤ 30) where
    log_writes-IsOld :
        (n : ℕ) → header (d start) ≡ [] → IsOld (apply d (take n (log_writes v start 0 blocks)))
    log_writes-IsOld n empty = record {
      cleared = ap header (log_writes-other n d v start 0 blocks start (inl (omega arith))) ∙ empty;
      home = λ b o. log_writes-other n d v start 0 blocks b (omega arith);
    }

    head-IsLogged :
        (w : Block)
        → IsLogged (apply d (log_writes v start 0 blocks ++ ((start, head_block w blocks) ∷ [])))
    unfolding apply
    head-IsLogged w =
        let log = log_writes v start 0 blocks in
        let head = head_block w blocks in
        let split = apply-append d log ((start, head) ∷ []) in
        let quiet : (b : ℕ) → Outside start b → apply d log b ≡ d b = λ b o.
          ap (λ l. apply d l b) (sym (take-all log))
          ∙ log_writes-other (length log) d v start 0 blocks b (omega arith) in
        record {
          listed =
              ap (λ x. header (x start)) split
              ∙ ap header (store_same (apply d log) start head)
              ∙ header-head_block w blocks;
          slots = Slots-head d v start blocks head;
          home = λ b o _.
              ap (λ x. x b) split
              ∙ store_other (apply d log) start head b (omega arith)
              ∙ quiet b o;
        }

    home_writes-IsLogged :
        (n : ℕ) (x : Blocks) → IsLogged x → IsLogged (apply x (take n (home_writes v blocks)))
    home_writes-IsLogged n x logged = record {
      listed =
          ap header (home_writes-other n x v blocks start (is_mem-start start blocks out))
          ∙ logged.listed;
      slots = home_writes-Slots n x v start 0 blocks blocks out (omega arith) logged.slots;
      home = λ b o other. home_writes-other n x v blocks b other ∙ logged.home b o other;
    }

    new_or_old :
        (x : Blocks) (b : ℕ)
        → (is_mem b blocks ≡ false → x b ≡ d b)
        → (if is_mem b blocks then v b else x b) ≡ (if is_mem b blocks then v b else d b)
    new_or_old x b h = elim (Bool-cases (is_mem b blocks)) [
      | inl listed ↦ rw listed
      | inr other ↦ rw other (h other)
    ]

    pub done-IsNew :
        (x : Blocks) (w : Block)
        → IsLogged x
        → IsNew (apply x (home_writes v blocks ++ ((start, head_block w []) ∷ [])))
    unfolding apply
    done-IsNew x w logged =
        let split = apply-append x (home_writes v blocks) ((start, head_block w []) ∷ []) in
        let homes = apply x (home_writes v blocks) in
        record {
          cleared =
              ap (λ y. header (y start)) split
              ∙ ap header (store_same homes start (head_block w []))
              ∙ header-head_block w [];
          home = λ b o.
              ap (λ y. y b) split
              ∙ store_other homes start (head_block w []) b (omega arith)
              ∙ home_writes-all x v blocks b
              ∙ new_or_old x b (logged.home b o);
        }

    -- Writing the blocks home and clearing the header, cut off anywhere.
    pub home-Known :
        (n : ℕ) (x : Blocks) (w : Block)
        → IsLogged x
        → Known (apply x (take n (home_writes v blocks ++ ((start, head_block w []) ∷ []))))
    home-Known n x w logged =
        let homes = home_writes v blocks in
        let last : Write = (start, head_block w []) in
        elim (take-append_cases n homes (last ∷ [])) [
          | inl inside ↦ inr (
              inl
                (subst (λ l. IsLogged (apply x l)) (sym inside) (home_writes-IsLogged n x logged)))
          | inr (zero, behind) ↦ inr (
              inl (
                subst (λ l. IsLogged (apply x l)) (take-all homes ∙ sym (behind ∙ append-nil homes))
                  (home_writes-IsLogged (length homes) x logged)))
          | inr (suc zero, behind) ↦
              inr (inr (subst (λ l. IsNew (apply x l)) (sym behind) (done-IsNew x w logged)))
          | inr (suc (suc k), behind) ↦
              inr (inr (subst (λ l. IsNew (apply x l)) (sym behind) (done-IsNew x w logged)))
        ]

    after_log-Known :
        (n : ℕ) (w w' : Block)
        → header (d start) ≡ []
        → Known (
            apply d (
              log_writes v start 0 blocks
              ++ take n (
                  (start, head_block w blocks)
                  ∷ (home_writes v blocks ++ ((start, head_block w' []) ∷ [])))))
    after_log-Known zero w w' empty =
        let log = log_writes v start 0 blocks in
        inl (
          subst (λ l. IsOld (apply d l)) (take-all log ∙ sym (append-nil log))
            (log_writes-IsOld (length log) empty))
    after_log-Known (suc n) w w' empty =
        let log = log_writes v start 0 blocks in
        let head : Write = (start, head_block w blocks) in
        let rest = take n (home_writes v blocks ++ ((start, head_block w' []) ∷ [])) in
        subst Known
          (sym (apply-append d (log ++ (head ∷ [])) rest)
            ∙ ap (apply d) (append_assoc log (head ∷ []) rest))
          (home-Known n (apply d (log ++ (head ∷ []))) w' (head-IsLogged w))

    -- Wherever a commit is cut off, the disk is as before, or complete in the log, or new.
    pub commit-Known :
        (n : ℕ) (w w' : Block)
        → header (d start) ≡ []
        → Known (
            apply d
              (take n (commit_writes v start blocks (head_block w blocks) (head_block w' []))))
    commit-Known n w w' empty =
        let log = log_writes v start 0 blocks in
        let head : Write = (start, head_block w blocks) in
        let homes = home_writes v blocks in
        let last : Write = (start, head_block w' []) in
        elim (take-append_cases n log (head ∷ (homes ++ (last ∷ [])))) [
          | inl inside ↦
              inl (subst (λ l. IsOld (apply d l)) (sym inside) (log_writes-IsOld n empty))
          | inr (k, behind) ↦
              subst (λ l. Known (apply d l)) (sym behind) (after_log-Known k w w' empty)
        ]

    -- A recovery from a complete log writes the blocks home.
    pub recover-logged :
        (x : Blocks)
        → IsLogged x
        → (w : Block) × ((recover_from_log (boot x) start).written
            ≡ home_writes v blocks ++ ((start, head_block w []) ∷ []))
    unfolding recover_from_log read_head
    recover-logged x logged =
        let installed = install_trans (boot x) start 0 blocks in
        let home = install_trans-Wrote (boot x) v start 0 blocks out (omega arith) logged.slots in
        let all =
          Wrote-append (boot x) (home_writes v blocks) installed
            ((start, head_block (installed.view start) []) ∷ []) (write_head installed start [])
            home (write_head-Wrote installed start []) in
        (
          installed.view start,
          ap (λ l. (write_head (install_trans (boot x) start 0 l) start []).written) logged.listed
              ∙ all.written,
        )

    pub recover-cleared :
        (x : Blocks)
        → header (x start) ≡ []
        → (w : Block) × ((recover_from_log (boot x) start).written ≡ (start, head_block w []) ∷ [])
    unfolding recover_from_log read_head install_trans
    recover-cleared x cleared = (
      x start,
      ap (λ l. (write_head (install_trans (boot x) start 0 l) start []).written) cleared
          ∙ (write_head-Wrote (boot x) start []).written,
    )
