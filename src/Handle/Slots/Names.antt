-- ===== src/Handle/Slots/Names.antt =====
-- The loop of `fengnet_handle_retire` of fengnet_handle.cpp that removes the names of a handle.
use fengnet.Base.{
  ℕ, zero, suc, ◌+◌, ◌≤◌, ◌<◌, ◌≡◌, refl, sym, ap, ◌∙◌, inl, inr, List, [], ◌∷◌, ◌++◌, append_assoc,
  append-nil, length, take, drop, set, get_or, length-set, ◌==◌, ==_iff, Bool-cases, true, false,
  if◌then◌else◌, arith,
}
use fengnet.Handle.{HandleName, zero_name}
use fengnet.Handle.Slots.{retire_names}

module _ {ℓ} {A : Type ℓ} where
  take-set_self :
      (xs : List A) (j : ℕ) (v : A)
      → j < length xs
      → take (suc j) (set xs j v) ≡ take j xs ++ (v ∷ [])
  take-set_self [] j v h = absurd (omega arith)
  take-set_self (x ∷ xs) zero v h = refl
  take-set_self (x ∷ xs) (suc j) v h = ap (λ l. x ∷ l) (take-set_self xs j v (omega arith))

  pub drop-set : (xs : List A) (i j : ℕ) (v : A) → j < i → drop i (set xs j v) ≡ drop i xs
  drop-set [] i j v h = refl
  drop-set (x ∷ xs) zero j v h = absurd (omega arith)
  drop-set (x ∷ xs) (suc i) zero v h = refl
  drop-set (x ∷ xs) (suc i) (suc j) v h = drop-set xs i j v (omega arith)

  pub drop-get_or :
      (xs : List A) (i : ℕ) (d : A) → i < length xs → drop i xs ≡ get_or xs i d ∷ drop (suc i) xs
  drop-get_or [] i d h = absurd (omega arith)
  drop-get_or (x ∷ xs) zero d h = refl
  drop-get_or (x ∷ xs) (suc i) d h = drop-get_or xs i d (omega arith)

  set_same : (xs : List A) (j : ℕ) (d : A) → set xs j (get_or xs j d) ≡ xs
  set_same [] j d = refl
  set_same (x ∷ xs) zero d = refl
  set_same (x ∷ xs) (suc j) d = ap (λ l. x ∷ l) (set_same xs j d)

-- The entries that are not of the handle, in order.
unfoldable pub without : ℕ → List HandleName → List HandleName
without handle [] = []
without handle (e ∷ es) =
    let rest = without handle es in if e.handle == handle then rest else e ∷ rest

-- The loop compacts the entries that stay, and reads no entry that it has written.
pub retire_names-without :
    (handle rounds i j : ℕ) (name : List HandleName)
    → j ≤ i
    → i + rounds ≤ length name
    → let r = retire_names handle rounds i j name in
      (take r.0 r.1 ≡ take j name ++ without handle (take rounds (drop i name)))
      × (r.0 ≤ j + rounds)
      × (length r.1 ≡ length name)
unfolding retire_names without
retire_names-without handle zero i j name le fit =
    (sym (append-nil (take j name)), omega arith, refl)
retire_names-without handle (suc rounds) i j name le fit =
    elim (Bool-cases (entry.handle == handle)) [
      | inl t ↦
          let (a, b, c) =
            retire_names-without handle rounds (suc i) j name (omega arith) (omega arith) in
          rw t (a ∙ ap (λ l. take j name ++ l) (sym (rest t)), omega (arith, b), c)
      | inr t ↦
          let (a, b, c) =
            retire_names-without handle rounds (suc i) (suc j) (set name j entry) (omega arith)
              (omega (arith, length-set name j entry)) in
          rw (t, stored)
            (
              a
                  ∙ ap (λ l. l ++ without handle (take rounds (drop (suc i) (set name j entry))))
                      (take-set_self name j entry (omega arith))
                  ∙ append_assoc (take j name) (entry ∷ [])
                      (without handle (take rounds (drop (suc i) (set name j entry))))
                  ∙ ap (λ l. take j name ++ (entry ∷ without handle (take rounds l)))
                      (drop-set name (suc i) j entry (omega arith))
                  ∙ ap (λ l. take j name ++ l) (sym (kept t)),
              omega (arith, b),
              c ∙ length-set name j entry,
            )
    ]
  where
    entry : HandleName
    entry = get_or name i zero_name

    next : drop i name ≡ entry ∷ drop (suc i) name
    next = drop-get_or name i zero_name (omega arith)

    rest :
        (entry.handle == handle) ≡ true
        → without handle (take (suc rounds) (drop i name))
          ≡ without handle (take rounds (drop (suc i) name))
    rest t = ap (λ l. without handle (take (suc rounds) l)) next ∙ rw t refl

    kept :
        (entry.handle == handle) ≡ false
        → without handle (take (suc rounds) (drop i name))
          ≡ entry ∷ without handle (take rounds (drop (suc i) name))
    kept t = ap (λ l. without handle (take (suc rounds) l)) next ∙ rw t refl

    stored : (if i == j then name else set name j entry) ≡ set name j entry
    stored = elim (Bool-cases (i == j)) [
      | inr u ↦ rw u refl
      | inl u ↦ rw u (
          sym (
            ap (λ n. set name j (get_or name n zero_name)) ((==_iff i j).0 u)
            ∙ set_same name j zero_name))
    ]
