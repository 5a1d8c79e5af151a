-- ===== src/Handle/Find.antt =====
-- The binary search of `fengnet_handle_findname` and `_insert_name` in fengnet_handle.cpp.
use fengnet.Base.{
  ℕ, zero, suc, ◌+◌, ◌-◌, ◌/◌, ◌≤◌, ◌<◌, ◌≡◌, refl, subst, ◌⊎◌, inl, inr, List, Ordering, ltb,
  ltb→lt, ltb→le, Bool-cases, length, arith,
}
use fengnet.Handle.{NameTable, entry, strcmp, Search, found, absent, no_fuel, search_name}
use fengnet.Handle.Strcmp.{strcmp-eq, strcmp_gt, strcmp_trans}

-- The name of entry `i`.
abbrev pub name_at : NameTable → ℕ → List ℕ
name_at s i = (entry s i).name

-- The entries in use are in strictly increasing order of their names, and fit the array.
pub record IsTable (s : NameTable) : Type 0 where
  pub room : s.name_count ≤ s.name_cap
  pub some_cap : 0 < s.name_cap
  pub storage : length s.name ≡ s.name_cap
  pub sorted :
      (i j : ℕ) → i < j → j < s.name_count → strcmp (name_at s i) (name_at s j) ≡ Ordering.lt

-- Place `begin` splits the entries into those before `key` and those after it.
pub record Splits (key : List ℕ) (s : NameTable) (begin : ℕ) : Type 0 where
  pub inside : begin ≤ s.name_count
  pub below : (i : ℕ) → i < begin → strcmp (name_at s i) key ≡ Ordering.lt
  pub above : (i : ℕ) → begin ≤ i → i < s.name_count → strcmp key (name_at s i) ≡ Ordering.lt

-- What the end of a search says of the table.
unfoldable pub Finds : List ℕ → NameTable → Search → Type 0
Finds key s (found mid) = (mid < s.name_count) × (name_at s mid ≡ key)
Finds key s (absent begin) = Splits key s begin
Finds key s no_fuel = ⊥

pub Order-cases : (o : Ordering) → (o ≡ Ordering.lt) ⊎ ((o ≡ Ordering.eq) ⊎ (o ≡ Ordering.gt))
Order-cases Ordering.lt = inl refl
Order-cases Ordering.eq = inr (inl refl)
Order-cases Ordering.gt = inr (inr refl)

mid_in :
    (begin stop : ℕ)
    → begin < stop
    → (begin ≤ (begin + stop - 1) / 2) × ((begin + stop - 1) / 2 < stop)
mid_in begin stop h = (omega arith, omega arith)

-- The loop from `begin` to `stop` ends within its fuel, with an answer about the whole table, when
-- what lies outside is already known.
search_range :
    (fuel begin stop : ℕ) (key : List ℕ) (s : NameTable)
    → IsTable s
    → begin ≤ stop
    → stop ≤ s.name_count
    → stop < begin + fuel
    → ((i : ℕ) → i < begin → strcmp (name_at s i) key ≡ Ordering.lt)
    → ((i : ℕ) → stop ≤ i → i < s.name_count → strcmp key (name_at s i) ≡ Ordering.lt)
    → Finds key s (search_name fuel begin stop key s)
unfolding search_name Finds
search_range zero begin stop key s t b c f below above = absurd (omega arith)
search_range (suc fuel) begin stop key s t b c f below above = elim (Bool-cases (ltb begin stop)) [
  | inr e ↦ rw e (record {
    inside = omega arith;
    below = below;
    above = λ i h l. above i (omega (arith, ltb→le begin stop e)) l;
  })
  | inl e ↦
      let m = mid_in begin stop (ltb→lt begin stop e) in
      rw e (elim (Order-cases (strcmp (name_at s ((begin + stop - 1) / 2)) key)) [
        | inl lt ↦ rw lt (
            search_range fuel ((begin + stop - 1) / 2 + 1) stop key s t (omega arith) c
              (omega arith) (lower lt (omega arith)) above)
        | inr (inl eq) ↦ rw eq (omega arith, strcmp-eq _ _ eq)
        | inr (inr gt) ↦ rw gt (
            search_range fuel begin ((begin + stop - 1) / 2) key s t (omega arith) (omega arith)
              (omega arith) below (upper (strcmp_gt _ _ gt)))
      ])
]
  where
    mid : ℕ
    mid = (begin + stop - 1) / 2

    lower :
        strcmp (name_at s mid) key ≡ Ordering.lt
        → mid < s.name_count
        → (i : ℕ) → i < mid + 1
        → strcmp (name_at s i) key ≡ Ordering.lt
    lower lt inside i h = elim (Bool-cases (ltb i mid)) [
      | inl e ↦ strcmp_trans _ _ _ (t.sorted i mid (ltb→lt i mid e) inside) lt
      | inr e ↦
          subst (λ k. strcmp (name_at s k) key ≡ Ordering.lt) (omega (arith, ltb→le i mid e)) lt
    ]

    upper :
        strcmp key (name_at s mid) ≡ Ordering.lt
        → (i : ℕ) → mid ≤ i
        → i < s.name_count
        → strcmp key (name_at s i) ≡ Ordering.lt
    upper lt i h l = elim (Bool-cases (ltb mid i)) [
      | inl e ↦ strcmp_trans _ _ _ lt (t.sorted mid i (ltb→lt mid i e) l)
      | inr e ↦
          subst (λ k. strcmp key (name_at s k) ≡ Ordering.lt) (omega (arith, ltb→le mid i e)) lt
    ]

-- On a sorted table the search ends within one round more than there are entries: it stands at an
-- entry with the name, or at the place that separates the smaller names from the greater ones.
pub search_name-Finds :
    (key : List ℕ) (s : NameTable)
    → IsTable s
    → Finds key s (search_name (suc s.name_count) 0 s.name_count key s)
search_name-Finds key s t =
    search_range (suc s.name_count) 0 s.name_count key s t (omega arith) (omega arith) (omega arith)
      (λ i h. absurd (omega arith)) (λ i h l. absurd (omega arith))
