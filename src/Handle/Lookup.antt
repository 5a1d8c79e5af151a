-- ===== src/Handle/Lookup.antt =====
-- `fengnet_handle_findname` of fengnet_handle.cpp.
use fengnet.Base.{
  ℕ, suc, ◌<◌, ◌≡◌, ◌≢◌, refl, sym, subst, ap, ◌∙◌, ◌⊎◌, inl, inr, List, ltb, ltb→lt, ltb→le,
  trichotomy, Bool-cases, Ordering,
}
use fengnet.Handle.{NameTable, entry, strcmp, Search, found, absent, no_fuel, search_name, findname}
use fengnet.Handle.Strcmp.{strcmp_refl}
use fengnet.Handle.Find.{name_at, IsTable, Splits, Finds, search_name-Finds}

-- The name is taken, or free.
pub record Taken (key : List ℕ) (s : NameTable) (i : ℕ) : Type 0 where
  pub inside : i < s.name_count
  pub named : name_at s i ≡ key

abbrev pub Free : List ℕ → NameTable → Type 0
Free key s = (i : ℕ) → i < s.name_count → name_at s i ≢ key

abbrev pub search : List ℕ → NameTable → Search
search key s = search_name (suc s.name_count) 0 s.name_count key s

Search-cases :
    (r : Search) → ((m : ℕ) × (r ≡ found m)) ⊎ (((b : ℕ) × (r ≡ absent b)) ⊎ (r ≡ no_fuel))
Search-cases (found m) = inl (m, refl)
Search-cases (absent b) = inr (inl (b, refl))
Search-cases no_fuel = inr (inr refl)

-- A name before or after another one is not that one.
lt-ne : (a b : List ℕ) → strcmp a b ≡ Ordering.lt → a ≢ b
lt-ne a b lt e = absurd (cc (lt, strcmp_refl b, ap (λ c. strcmp c b) e))

-- No two entries have one name.
one_place :
    (key : List ℕ) (s : NameTable) (i j : ℕ) → IsTable s → Taken key s i → Taken key s j → i ≡ j
one_place key s i j t at_i at_j = elim (trichotomy i j) [
  | inl lt ↦ absurd (lt-ne _ _ (t.sorted i j lt at_j.inside) (at_i.named ∙ sym at_j.named))
  | inr (inl e) ↦ e
  | inr (inr lt) ↦ absurd (lt-ne _ _ (t.sorted j i lt at_i.inside) (at_j.named ∙ sym at_i.named))
]

pub Splits-Free : (key : List ℕ) (s : NameTable) (b : ℕ) → Splits key s b → Free key s
Splits-Free key s b p i inside e = elim (Bool-cases (ltb i b)) [
  | inl h ↦ lt-ne _ _ (p.below i (ltb→lt i b h)) e
  | inr h ↦ lt-ne _ _ (p.above i (ltb→le i b h) inside) (sym e)
]

-- A search ends at the entry, or at the place for it.
pub search-cases :
    (key : List ℕ) (s : NameTable)
    → IsTable s
    → ((m : ℕ) × (search key s ≡ found m) × Taken key s m)
      ⊎ ((b : ℕ) × (search key s ≡ absent b) × Splits key s b)
unfolding Finds
search-cases key s t = elim (Search-cases (search key s)) [
  | inl (m, e) ↦
      let h = subst (Finds key s) e (search_name-Finds key s t) in
      inl (m, e, record { inside = h.0; named = h.1 })
  | inr (inl (b, e)) ↦ inr (b, e, subst (Finds key s) e (search_name-Finds key s t))
  | inr (inr e) ↦ absurd (subst (Finds key s) e (search_name-Finds key s t))
]

-- What `fengnet_handle_findname` returns at the end of its search.
abbrev handle_of : NameTable → Search → ℕ
handle_of s r = elim r [ found mid ↦ (entry s mid).handle | absent begin ↦ 0 | no_fuel ↦ 0 ]

answer :
    (key : List ℕ) (s : NameTable) (r : Search) → search key s ≡ r → findname key s ≡ handle_of s r
unfolding findname
answer key s r e = ap (handle_of s) e

-- `fengnet_handle_findname` of a name that an entry has returns the handle of that entry.
pub findname-Taken :
    (key : List ℕ) (s : NameTable) (i : ℕ)
    → IsTable s
    → Taken key s i
    → findname key s ≡ (entry s i).handle
unfolding findname
findname-Taken key s i t at_i = elim (search-cases key s t) [
  | inl (m, e, at_m) ↦
      answer key s (found m) e ∙ ap (λ j. (entry s j).handle) (one_place key s m i t at_m at_i)
  | inr (b, e, p) ↦ absurd (Splits-Free key s b p i at_i.inside at_i.named)
]

-- `fengnet_handle_findname` of a name that no entry has returns 0.
pub findname-Free : (key : List ℕ) (s : NameTable) → IsTable s → Free key s → findname key s ≡ 0
unfolding findname
findname-Free key s t free = elim (search-cases key s t) [
  | inl (m, e, at_m) ↦ absurd (free m at_m.inside at_m.named)
  | inr (b, e, p) ↦ answer key s (absent b) e
]
