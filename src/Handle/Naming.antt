-- ===== src/Handle/Naming.antt =====
-- `fengnet_handle_namehandle` of fengnet_handle.cpp: a table with one name more.
use fengnet.Base.{
  ℕ, ◌+◌, ◌-◌, ◌≤◌, ◌<◌, ◌≡◌, ◌≢◌, sym, subst, ap, ◌∙◌, ◌⊎◌, inl, inr, Option, none, some, List,
  ltb, ltb→lt, ltb→le, trichotomy, Bool-cases, Ordering, ◌^◌, arith,
}
use fengnet.Handle.{
  HandleName, NameTable, strcmp, Search, found, absent, no_fuel, findname, namehandle,
  insert_name_before,
}
use fengnet.Handle.Lookup.{
  Taken, Free, search, search-cases, Splits-Free, findname-Taken, findname-Free,
}
use fengnet.Handle.Find.{name_at, IsTable, Splits}
use fengnet.Handle.Insert.{Inserted, insert_name_before-Inserted}

-- Where entry `k` of the grown table comes from.
abbrev pub Origin : ℕ → ℕ → ℕ → Type 0
Origin before count k =
    (k < before) ⊎ ((k ≡ before) ⊎ ((i : ℕ) × (k ≡ i + 1) × (before ≤ i) × (i < count)))

pub origin : (before count k : ℕ) → k < count + 1 → Origin before count k
origin before count k h = elim (trichotomy k before) [
  | inl lt ↦ inl lt
  | inr (inl e) ↦ inr (inl e)
  | inr (inr lt) ↦ inr (inr (k - 1, omega arith, omega arith, omega arith))
]

module _ (key : List ℕ) (handle before : ℕ) (s s' : NameTable) (t : IsTable s)
    (p : Splits key s before) (g : Inserted key handle before s s') where
  kept : (k : ℕ) → k < before → name_at s' k ≡ name_at s k
  kept k h = ap HandleName.name (g.low k h)

  moved : (k : ℕ) → before ≤ k → k < s.name_count → name_at s' (k + 1) ≡ name_at s k
  moved k le h = ap HandleName.name (g.high k le h)

  named : name_at s' before ≡ key
  named = ap HandleName.name g.here

  -- The order of the names with the new one at its place.
  grown_sorted :
      (i j : ℕ) → i < j → j < s'.name_count → strcmp (name_at s' i) (name_at s' j) ≡ Ordering.lt
  grown_sorted i j lt h =
      go (origin before s.name_count i (omega (arith, g.count)))
        (origin before s.name_count j (omega (arith, g.count)))
    where
      go :
          Origin before s.name_count i
          → Origin before s.name_count j
          → strcmp (name_at s' i) (name_at s' j) ≡ Ordering.lt
      go (inl a) (inl b) = rw (kept i a, kept j b) (t.sorted i j lt (omega (arith, p.inside)))
      go (inl a) (inr (inl b)) = rw (kept i a) (
          subst (λ k. strcmp (name_at s i) (name_at s' k) ≡ Ordering.lt) (sym b)
            (rw named (p.below i a)))
      go (inl a) (inr (inr (j', b, le, in_j))) = rw (kept i a) (
          subst (λ k. strcmp (name_at s i) (name_at s' k) ≡ Ordering.lt) (sym b)
            (rw (moved j' le in_j) (t.sorted i j' (omega arith) in_j)))
      go (inr (inl a)) (inr (inr (j', b, le, in_j))) =
          subst (λ k. strcmp (name_at s' k) (name_at s' j) ≡ Ordering.lt) (sym a)
            (subst (λ k. strcmp (name_at s' before) (name_at s' k) ≡ Ordering.lt) (sym b)
              (rw (named, moved j' le in_j) (p.above j' le in_j)))
      go (inr (inr (i', a, le', in_i))) (inr (inr (j', b, le, in_j))) =
          subst (λ k. strcmp (name_at s' k) (name_at s' j) ≡ Ordering.lt) (sym a)
            (subst (λ k. strcmp (name_at s' (i' + 1)) (name_at s' k) ≡ Ordering.lt) (sym b)
              (rw (moved i' le' in_i, moved j' le in_j) (t.sorted i' j' (omega arith) in_j)))
      go (inr (inl a)) (inl b) = absurd (omega arith)
      go (inr (inl a)) (inr (inl b)) = absurd (omega arith)
      go (inr (inr (i', a, le', in_i))) (inl b) = absurd (omega arith)
      go (inr (inr (i', a, le', in_i))) (inr (inl b)) = absurd (omega arith)

  grown-IsTable : IsTable s'
  grown-IsTable = record {
    room = g.room;
    some_cap = g.some_cap;
    storage = g.storage;
    sorted = grown_sorted;
  }

  here-Taken : Taken key s' before
  here-Taken = record { inside = omega (arith, g.count, p.inside); named = named }

  -- The other names: an entry keeps its handle, and no name is new.
  others : (j : List ℕ) → j ≢ key → findname j s' ≡ findname j s
  others j ne = elim (search-cases j s t) [
    | inr (b, e, q) ↦
        findname-Free j s' grown-IsTable (λ k h.
          still_free (Splits-Free j s b q) k
            (origin before s.name_count k (omega (arith, g.count))))
        ∙ sym (findname-Free j s t (Splits-Free j s b q))
    | inl (m, e, at_m) ↦ elim (Bool-cases (ltb m before)) [
      | inl lt ↦
          findname-Taken j s' m grown-IsTable (record {
            inside = omega (arith, g.count, at_m.inside);
            named = kept m (ltb→lt m before lt) ∙ at_m.named;
          })
          ∙ ap HandleName.handle (g.low m (ltb→lt m before lt))
          ∙ sym (findname-Taken j s m t at_m)
      | inr ge ↦
          findname-Taken j s' (m + 1) grown-IsTable (record {
            inside = omega (arith, g.count, at_m.inside);
            named = moved m (ltb→le m before ge) at_m.inside ∙ at_m.named;
          })
          ∙ ap HandleName.handle (g.high m (ltb→le m before ge) at_m.inside)
          ∙ sym (findname-Taken j s m t at_m)
    ]
  ]
    where
      still_free : Free j s → (k : ℕ) → Origin before s.name_count k → name_at s' k ≢ j
      still_free free k (inl a) e = free k (omega (arith, p.inside)) (sym (kept k a) ∙ e)
      still_free free k (inr (inl a)) e = ne (sym e ∙ ap (name_at s') a ∙ ap HandleName.name g.here)
      still_free free k (inr (inr (i, a, le, inside))) e =
          free i inside (sym (moved i le inside) ∙ ap (name_at s') (sym a) ∙ e)

-- `s'` is `s` with the name added: the table is sorted, the name has its handle, every other name
-- the one that it had.
pub record Named (key : List ℕ) (handle : ℕ) (s s' : NameTable) : Type 0 where
  pub table : IsTable s'
  pub count : s'.name_count ≡ s.name_count + 1
  pub new : findname key s' ≡ handle
  pub old : (j : List ℕ) → j ≢ key → findname j s' ≡ findname j s

-- The result with the name, unless an assert failed.
abbrev with_name : List ℕ → Option NameTable → Option (Option (List ℕ) × NameTable)
with_name key o = elim o [ none ↦ none | some s' ↦ some (some key, s') ]

-- What `_insert_name` does at the end of its search.
abbrev named_by : List ℕ → ℕ → NameTable → Search → Option (Option (List ℕ) × NameTable)
named_by key handle s r = elim r [
  | found mid ↦ some (none, s)
  | absent begin ↦ elim (insert_name_before key handle begin s) [
    | none ↦ none
    | some s' ↦ some (some key, s')
  ]
  | no_fuel ↦ none
]

outcome :
    (key : List ℕ) (handle : ℕ) (s : NameTable) (r : Search)
    → search key s ≡ r
    → namehandle key handle s ≡ named_by key handle s r
unfolding namehandle
outcome key handle s r e = ap (named_by key handle s) e

-- `fengnet_handle_namehandle` of a name that is free, in a table with fewer than 2^29 names: it
-- returns the name, fails no assert, keeps the table sorted, and afterwards
-- `fengnet_handle_findname` gives the handle for the name and for every other name what it gave before.
pub namehandle-Named :
    (key : List ℕ) (handle : ℕ) (s : NameTable)
    → IsTable s
    → Free key s
    → s.name_count < 2 ^ 29
    → (s' : NameTable) × (namehandle key handle s ≡ some (some key, s')) × Named key handle s s'
namehandle-Named key handle s t free small = elim (search-cases key s t) [
  | inl (m, e, at_m) ↦ absurd (free m at_m.inside at_m.named)
  | inr (b, e, p) ↦
      let (s', r, g) = insert_name_before-Inserted key handle b s t p.inside small in
      (
        s',
        outcome key handle s (absent b) e ∙ ap (with_name key) r,
        record {
          table = grown-IsTable key handle b s s' t p g;
          count = g.count;
          new =
              findname-Taken key s' b (grown-IsTable key handle b s s' t p g)
                (here-Taken key handle b s s' t p g)
              ∙ ap HandleName.handle g.here;
          old = others key handle b s s' t p g;
        },
      )
]

-- `fengnet_handle_namehandle` of a name that an entry has returns NULL and changes nothing, whatever
-- the handle.
pub namehandle-Taken :
    (key : List ℕ) (handle i : ℕ) (s : NameTable)
    → IsTable s
    → Taken key s i
    → namehandle key handle s ≡ some (none, s)
namehandle-Taken key handle i s t at_i = elim (search-cases key s t) [
  | inl (m, e, at_m) ↦ outcome key handle s (found m) e
  | inr (b, e, p) ↦ absurd (Splits-Free key s b p i at_i.inside at_i.named)
]
