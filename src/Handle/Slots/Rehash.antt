-- ===== src/Handle/Slots/Rehash.antt =====
-- The loop of the expansion in `fengnet_handle_register` of fengnet_handle.cpp, which moves the
-- contexts to a table of twice the slots.
use fengnet.Base.{
  ℕ, zero, suc, ◌+◌, ◌%◌, ◌^◌, ◌<◌, ◌≡◌, inl, inr, refl, sym, subst, ap, ◌∙◌, Option, none, some,
  List, length, ◌==◌, ==_refl, ==_iff, ==_false, Bool-cases, Option-cases, true, if◌then◌else◌, set,
  length-set, get_or-set_self, get_or-set_ne, ltb, lt→ltb, le→ltb, pow-pos, pow-suc, mod_mul-mod,
  mod-lt, trichotomy, arith,
}
use fengnet.Handle.Slots.{slot_at, hash, is_null, rehash}
use fengnet.Handle.Slots.Table.{hash_lem}

-- The context of slot `j` after the expansion to 2^(k + 1) slots: that of the old slot that `j` folds
-- to, if its handle leads to `j`.
unfoldable pub kept : (ℕ → ℕ) → ℕ → ℕ → Option ℕ → Option ℕ
kept handles size j none = none
kept handles size j (some ctx) = if handles ctx % size == j then some ctx else none

abbrev pub moved : (ℕ → ℕ) → ℕ → List (Option ℕ) → ℕ → Option ℕ
moved handles k old j = kept handles (2 ^ suc k) j (slot_at old (j % 2 ^ k))

pub mod_half : (x k : ℕ) → x % 2 ^ suc k % 2 ^ k ≡ x % 2 ^ k
mod_half x k = ap (λ t. x % t % 2 ^ k) (pow-suc 2 k) ∙ mod_mul-mod x (2 ^ k) 2

-- The new table once the slots below `i` are moved.
abbrev Progress : (ℕ → ℕ) → ℕ → List (Option ℕ) → ℕ → List (Option ℕ) → Type 0
Progress handles k old i new =
    (j : ℕ)
    → j < 2 ^ suc k
    → slot_at new j ≡ (if ltb (j % 2 ^ k) i then moved handles k old j else none)

module _ (handles : ℕ → ℕ) (k : ℕ) (old : List (Option ℕ))
    (placed : (i ctx : ℕ) → slot_at old i ≡ some ctx → handles ctx % 2 ^ k ≡ i) where
  -- An empty slot is passed over.
  skip :
      (i : ℕ) (new : List (Option ℕ))
      → slot_at old i ≡ none
      → Progress handles k old i new
      → Progress handles k old (i + 1) new
  unfolding kept
  skip i new e p j lt = p j lt ∙ elim (trichotomy (j % 2 ^ k) i) [
    | inl t ↦ rw (lt→ltb (j % 2 ^ k) i t, lt→ltb (j % 2 ^ k) (i + 1) (omega arith)) refl
    | inr (inl t) ↦
        rw (le→ltb (j % 2 ^ k) i (omega arith), lt→ltb (j % 2 ^ k) (i + 1) (omega arith))
          (sym (
            ap (λ t. kept handles (2 ^ suc k) j (slot_at old t)) t
            ∙ ap (kept handles (2 ^ suc k) j) e))
    | inr (inr t) ↦
        rw (le→ltb (j % 2 ^ k) i (omega arith), le→ltb (j % 2 ^ k) (i + 1) (omega arith)) refl
  ]

  -- A context is written to the slot of its handle, which is free.
  move :
      (i ctx : ℕ) (new : List (Option ℕ))
      → slot_at old i ≡ some ctx
      → length new ≡ 2 ^ suc k
      → Progress handles k old i new
      → (is_null (slot_at new (handles ctx % 2 ^ suc k)) ≡ true)
        × Progress handles k old (i + 1) (set new (handles ctx % 2 ^ suc k) (some ctx))
  unfolding kept is_null
  move i ctx new e l p = (ap is_null free_here, after)
    where
      at : ℕ
      at = handles ctx % 2 ^ suc k

      at_lt : at < 2 ^ suc k
      at_lt = mod-lt (handles ctx) (pow-pos (suc k))

      folds : at % 2 ^ k ≡ i
      folds = mod_half (handles ctx) k ∙ placed i ctx e

      free_here : slot_at new at ≡ none
      free_here = p at at_lt ∙ rw (le→ltb (at % 2 ^ k) i (omega (arith, folds))) refl

      after : Progress handles k old (i + 1) (set new at (some ctx))
      after j lt = elim (Bool-cases (at == j)) [
        | inl t ↦
            let same : at ≡ j = (==_iff at j).0 t in
            subst
              (λ j.
                slot_at (set new at (some ctx)) j
                ≡ (if ltb (j % 2 ^ k) (i + 1) then moved handles k old j else none))
              same
              (get_or-set_self new at (some ctx) none (omega (arith, at_lt))
                ∙ sym (
                    rw (lt→ltb (at % 2 ^ k) (i + 1) (omega (arith, folds))) (
                      ap (λ t. kept handles (2 ^ suc k) at (slot_at old t)) folds
                      ∙ ap (kept handles (2 ^ suc k) at) e
                      ∙ rw (==_refl at) refl)))
        | inr t ↦
            get_or-set_ne new at j (some ctx) none (==_false at j t)
            ∙ p j lt
            ∙ elim (trichotomy (j % 2 ^ k) i) [
              | inl u ↦ rw (lt→ltb (j % 2 ^ k) i u, lt→ltb (j % 2 ^ k) (i + 1) (omega arith)) refl
              | inr (inl u) ↦
                  rw (le→ltb (j % 2 ^ k) i (omega arith), lt→ltb (j % 2 ^ k) (i + 1) (omega arith))
                    (sym (
                      ap (λ t. kept handles (2 ^ suc k) j (slot_at old t)) u
                      ∙ ap (kept handles (2 ^ suc k) j) e
                      ∙ rw t refl))
              | inr (inr u) ↦
                  rw (le→ltb (j % 2 ^ k) i (omega arith), le→ltb (j % 2 ^ k) (i + 1) (omega arith))
                    refl
            ]
      ]

  pub rehash-moved :
      (rounds i size : ℕ) (new : List (Option ℕ))
      → size ≡ 2 ^ suc k
      → i + rounds ≡ 2 ^ k
      → length new ≡ 2 ^ suc k
      → Progress handles k old i new
      → (new' : List (Option ℕ)) × (rehash handles rounds i size old new ≡ some new')
        × (length new' ≡ 2 ^ suc k)
        × ((j : ℕ) → j < 2 ^ suc k → slot_at new' j ≡ moved handles k old j)
  unfolding rehash
  rehash-moved zero i size new w e l p = (
    new,
    refl,
    l,
    λ j lt. p j lt ∙ rw (lt→ltb (j % 2 ^ k) i (omega (arith, mod-lt j (pow-pos k)))) refl,
  )
  rehash-moved (suc rounds) i size new w e l p = elim (Option-cases (slot_at old i)) [
    | inl t ↦
        rw (t, rehash) (rehash-moved rounds (i + 1) size new w (omega arith) l (skip i new t p))
    | inr (ctx, t) ↦
        let (null, p') = move i ctx new t l p in
        let at : hash (handles ctx) size ≡ handles ctx % 2 ^ suc k =
          hash_lem (handles ctx) (suc k) size w in
        rw (t, rehash)
          (rw (at, null)
            (rehash-moved rounds (i + 1) size (set new (handles ctx % 2 ^ suc k) (some ctx)) w
              (omega arith) (length-set new (handles ctx % 2 ^ suc k) (some ctx) ∙ l) p'))
  ]
