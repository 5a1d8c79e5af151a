-- ===== src/Handle/Slots/Forget.antt =====
-- The names that `fengnet_handle_retire` of fengnet_handle.cpp leaves, through
-- `fengnet_handle_findname`.
use fengnet.Base.{
  ℕ, zero, suc, ◌≤◌, ◌<◌, ◌≡◌, ◌≢◌, ◌⊎◌, refl, sym, subst, ap, ◌∙◌, inl, inr, List, [], ◌∷◌, length,
  take, get_or, ◌==◌, Bool-cases, if◌then◌else◌, Ordering, arith,
}
use fengnet.Handle.{HandleName, NameTable, zero_name, strcmp, findname}
use fengnet.Handle.Strcmp.{strcmp-eq, strcmp_refl}
use fengnet.Handle.Find.{IsTable, Order-cases}
use fengnet.Handle.Lookup.{search-cases, Splits-Free, findname-Taken, findname-Free}
use fengnet.Handle.Slots.{without_names}
use fengnet.Handle.Slots.Names.{without, retire_names-without}

-- The entries come after `e` in the order of their names.
unfoldable After : HandleName → List HandleName → Type 0
After e [] = Unit
After e (f ∷ fs) = (strcmp e.name f.name ≡ Ordering.lt) × After e fs

unfoldable Ordered : List HandleName → Type 0
Ordered [] = Unit
Ordered (e ∷ es) = After e es × Ordered es

-- The handle of the first entry with a name, by plain search.
unfoldable pub lookup_name : List ℕ → List HandleName → ℕ
lookup_name key [] = 0
lookup_name key (e ∷ es) =
    let rest = lookup_name key es in
    elim (strcmp e.name key) [ Ordering.eq ↦ e.handle | Ordering.lt ↦ rest | Ordering.gt ↦ rest ]

After-take :
    (e : HandleName) (es : List HandleName) (n : ℕ)
    → n ≤ length es
    → ((j : ℕ) → j < n → strcmp e.name (get_or es j zero_name).name ≡ Ordering.lt)
    → After e (take n es)
unfolding After
After-take e es zero fit h = tt
After-take e [] (suc n) fit h = tt
After-take e (f ∷ fs) (suc n) fit h =
    (h 0 (omega arith), After-take e fs n (omega arith) (λ j lt. h (suc j) (omega arith)))

Ordered-take :
    (es : List HandleName) (n : ℕ)
    → n ≤ length es
    → ((i j : ℕ)
        → i < j
        → j < n
        → strcmp (get_or es i zero_name).name (get_or es j zero_name).name ≡ Ordering.lt)
    → Ordered (take n es)
unfolding Ordered
Ordered-take es zero fit h = tt
Ordered-take [] (suc n) fit h = tt
Ordered-take (f ∷ fs) (suc n) fit h = (
  After-take f fs n (omega arith) (λ j lt. h 0 (suc j) (omega arith) (omega arith)),
  Ordered-take fs n (omega arith) (λ i j lt b. h (suc i) (suc j) (omega arith) (omega arith)),
)

After-at :
    (e : HandleName) (es : List HandleName) (n j : ℕ)
    → After e (take n es)
    → j < n
    → n ≤ length es
    → strcmp e.name (get_or es j zero_name).name ≡ Ordering.lt
unfolding After
After-at e es zero j a lt fit = absurd (omega arith)
After-at e [] (suc n) j a lt fit = absurd (omega arith)
After-at e (f ∷ fs) (suc n) zero a lt fit = a.0
After-at e (f ∷ fs) (suc n) (suc j) a lt fit = After-at e fs n j a.1 (omega arith) (omega arith)

Ordered-at :
    (es : List HandleName) (n i j : ℕ)
    → Ordered (take n es)
    → i < j
    → j < n
    → n ≤ length es
    → strcmp (get_or es i zero_name).name (get_or es j zero_name).name ≡ Ordering.lt
unfolding Ordered
Ordered-at es zero i j o lt b fit = absurd (omega arith)
Ordered-at [] (suc n) i j o lt b fit = absurd (omega arith)
Ordered-at (f ∷ fs) (suc n) i zero o lt b fit = absurd (omega arith)
Ordered-at (f ∷ fs) (suc n) zero (suc j) o lt b fit =
    After-at f fs n j o.0 (omega arith) (omega arith)
Ordered-at (f ∷ fs) (suc n) (suc i) (suc j) o lt b fit =
    Ordered-at fs n i j o.1 (omega arith) (omega arith) (omega arith)

module _ (handle : ℕ) where
  After-without : (e : HandleName) (es : List HandleName) → After e es → After e (without handle es)
  unfolding After without
  After-without e [] a = tt
  After-without e (f ∷ fs) a = elim (Bool-cases (f.handle == handle)) [
    | inl t ↦ rw t (After-without e fs a.1)
    | inr t ↦ rw t (a.0, After-without e fs a.1)
  ]

  Ordered-without : (es : List HandleName) → Ordered es → Ordered (without handle es)
  unfolding Ordered without
  Ordered-without [] o = tt
  Ordered-without (f ∷ fs) o = elim (Bool-cases (f.handle == handle)) [
    | inl t ↦ rw t (Ordered-without fs o.1)
    | inr t ↦ rw t (After-without f fs o.0, Ordered-without fs o.1)
  ]

-- A name that comes before all entries is not among them.
lookup-After :
    (e : HandleName) (key : List ℕ) (es : List HandleName)
    → After e es
    → e.name ≡ key
    → lookup_name key es ≡ 0
unfolding After lookup_name
lookup-After e key [] a same = refl
lookup-After e key (f ∷ fs) a same = elim (Order-cases (strcmp f.name key)) [
  | inl t ↦ rw (t, lookup_name) (lookup-After e key fs a.1 same)
  | inr (inl t) ↦
      absurd
        (cc (a.0, strcmp_refl f.name, ap (λ x. strcmp x f.name) (same ∙ sym (strcmp-eq _ _ t))))
  | inr (inr t) ↦ rw (t, lookup_name) (lookup-After e key fs a.1 same)
]

lookup_hit :
    (key : List ℕ) (e : HandleName) (es : List HandleName)
    → strcmp e.name key ≡ Ordering.eq
    → lookup_name key (e ∷ es) ≡ e.handle
unfolding lookup_name
lookup_hit key e es t = rw (t, lookup_name) refl

lookup_miss :
    (key : List ℕ) (e : HandleName) (es : List HandleName)
    → (strcmp e.name key ≡ Ordering.lt) ⊎ (strcmp e.name key ≡ Ordering.gt)
    → lookup_name key (e ∷ es) ≡ lookup_name key es
unfolding lookup_name
lookup_miss key e es (inl t) = rw (t, lookup_name) refl
lookup_miss key e es (inr t) = rw (t, lookup_name) refl

abbrev pub forgotten : ℕ → ℕ → ℕ
forgotten handle found = if found == handle then 0 else found

-- In ordered entries a name is found after the removal unless it had the handle.
lookup-without :
    (handle : ℕ) (key : List ℕ) (es : List HandleName)
    → Ordered es
    → lookup_name key (without handle es) ≡ forgotten handle (lookup_name key es)
unfolding Ordered without
lookup-without handle key [] o = unfold lookup_name in ground arith
lookup-without handle key (e ∷ es) o = elim (Order-cases (strcmp e.name key)) [
  | inl t ↦ passed (inl t) (lookup-without handle key es o.1)
  | inr (inl t) ↦ hit t
  | inr (inr t) ↦ passed (inr t) (lookup-without handle key es o.1)
]
  where
    passed :
        (strcmp e.name key ≡ Ordering.lt) ⊎ (strcmp e.name key ≡ Ordering.gt)
        → lookup_name key (without handle es) ≡ forgotten handle (lookup_name key es)
        → lookup_name key (without handle (e ∷ es)) ≡ forgotten handle (lookup_name key (e ∷ es))
    passed t ih = elim (Bool-cases (e.handle == handle)) [
      | inl u ↦ rw u (ih ∙ ap (forgotten handle) (sym (lookup_miss key e es t)))
      | inr u ↦ rw u (
          lookup_miss key e (without handle es) t
          ∙ ih
          ∙ ap (forgotten handle) (sym (lookup_miss key e es t)))
    ]

    hit :
        strcmp e.name key ≡ Ordering.eq
        → lookup_name key (without handle (e ∷ es)) ≡ forgotten handle (lookup_name key (e ∷ es))
    hit t = elim (Bool-cases (e.handle == handle)) [
      | inl u ↦ rw u (
          lookup-After e key (without handle es) (After-without handle e es o.0) (strcmp-eq _ _ t)
          ∙ sym (ap (forgotten handle) (lookup_hit key e es t) ∙ rw u refl))
      | inr u ↦ rw u (
          lookup_hit key e (without handle es) t
          ∙ sym (ap (forgotten handle) (lookup_hit key e es t) ∙ rw u refl))
    ]

-- Plain search finds an entry of ordered entries by its name.
lookup_at :
    (key : List ℕ) (es : List HandleName) (n m : ℕ)
    → Ordered (take n es)
    → m < n
    → n ≤ length es
    → (get_or es m zero_name).name ≡ key
    → lookup_name key (take n es) ≡ (get_or es m zero_name).handle
unfolding Ordered
lookup_at key es zero m o lt fit e = absurd (omega arith)
lookup_at key [] (suc n) m o lt fit e = absurd (omega arith)
lookup_at key (f ∷ fs) (suc n) zero o lt fit e =
    lookup_hit key f (take n fs) (ap (strcmp f.name) (sym e) ∙ strcmp_refl f.name)
lookup_at key (f ∷ fs) (suc n) (suc m) o lt fit e =
    lookup_miss key f (take n fs)
      (inl (ap (strcmp f.name) (sym e) ∙ After-at f fs n m o.0 (omega arith) (omega arith)))
    ∙ lookup_at key fs n m o.1 (omega arith) (omega arith) e

lookup_absent :
    (key : List ℕ) (es : List HandleName) (n : ℕ)
    → n ≤ length es
    → ((i : ℕ) → i < n → (get_or es i zero_name).name ≢ key)
    → lookup_name key (take n es) ≡ 0
lookup_absent key es zero fit free = unfold lookup_name in refl
lookup_absent key [] (suc n) fit free = unfold lookup_name in refl
lookup_absent key (f ∷ fs) (suc n) fit free = elim (Order-cases (strcmp f.name key)) [
  | inl t ↦
      lookup_miss key f (take n fs) (inl t)
      ∙ lookup_absent key fs n (omega arith) (λ i h. free (suc i) (omega arith))
  | inr (inl t) ↦ absurd (free 0 (omega arith) (strcmp-eq _ _ t))
  | inr (inr t) ↦
      lookup_miss key f (take n fs) (inr t)
      ∙ lookup_absent key fs n (omega arith) (λ i h. free (suc i) (omega arith))
]

-- The entries in use.
abbrev pub used : NameTable → List HandleName
used s = take s.name_count s.name

Ordered-used : (s : NameTable) → IsTable s → Ordered (used s)
Ordered-used s t = Ordered-take s.name s.name_count (omega (arith, t.storage, t.room)) t.sorted

-- The binary search of `fengnet_handle_findname` agrees with plain search.
pub findname-lookup_name :
    (key : List ℕ) (s : NameTable) → IsTable s → findname key s ≡ lookup_name key (used s)
findname-lookup_name key s t = elim (search-cases key s t) [
  | inl (m, e, at_m) ↦
      findname-Taken key s m t at_m
      ∙ sym (
          lookup_at key s.name s.name_count m (Ordered-used s t) at_m.inside
            (omega (arith, t.storage, t.room)) at_m.named)
  | inr (b, e, p) ↦
      findname-Free key s t (Splits-Free key s b p)
      ∙ sym (
          lookup_absent key s.name s.name_count (omega (arith, t.storage, t.room))
            (Splits-Free key s b p))
]

-- The removal of the names of a handle keeps the table sorted and every other name: a name that had
-- the handle is no longer found.
pub without_names-IsTable :
    (handle : ℕ) (s : NameTable)
    → IsTable s
    → IsTable (without_names handle s)
      × ((key : List ℕ) → findname key (without_names handle s) ≡ forgotten handle (findname key s))
without_names-IsTable handle s t =
    let (same, count, len) =
      retire_names-without handle s.name_count 0 0 s.name (omega arith)
        (omega (arith, t.storage, t.room)) in
    let ordered : Ordered (used (without_names handle s)) =
      subst Ordered (sym same) (Ordered-without handle (used s) (Ordered-used s t)) in
    let table : IsTable (without_names handle s) = record {
      room = omega (arith, t.room);
      some_cap = t.some_cap;
      storage = len ∙ t.storage;
      sorted = λ i j lt b.
          Ordered-at (without_names handle s).name (without_names handle s).name_count i j ordered
            lt b (omega (arith, t.storage, t.room));
    } in
    (
      table,
      λ key.
          findname-lookup_name key (without_names handle s) table
          ∙ ap (lookup_name key) same
          ∙ lookup-without handle key (used s) (Ordered-used s t)
          ∙ ap (forgotten handle) (sym (findname-lookup_name key s t)),
    )
