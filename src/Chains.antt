-- ===== src/Chains.antt =====
-- Linked lists in a store of links as lists of addresses: of the global queue, where a push appends
-- and a pop takes the first, and of the chains of an id table.
use fengnet.Base.{
  ℕ, ◌≡◌, ◌≢◌, refl, ap, ◌∙◌, sym, Bool, true, false, Option, none, some, List, [], ◌∷◌, ◌++◌, inl,
  inr, ◌==◌, if◌then◌else◌, ==_iff, Bool-cases, arith,
}

-- The link of each address: `none` where no queue lives.
abbrev pub Links : Type 0
Links = ℕ → Option (Option ℕ)

abbrev pub elem : ℕ → List ℕ → Bool
elem a [] = false
elem a (x ∷ xs) = if a == x then true else elem a xs

abbrev pub Distinct : List ℕ → Type 0
Distinct [] = Unit
Distinct (x ∷ xs) = (elem x xs ≡ false) × Distinct xs

-- From `h` the links run through exactly these addresses.
abbrev pub Linked : Links → Option ℕ → List ℕ → Type 0
Linked link h [] = h ≡ none
Linked link h (a ∷ xs) = (h ≡ some a) × ((n : Option ℕ) × (link a ≡ some n) × Linked link n xs)

abbrev pub last_of : List ℕ → Option ℕ
last_of [] = none
last_of (a ∷ []) = some a
last_of (a ∷ b ∷ xs) = last_of (b ∷ xs)

-- Only the links of the listed addresses matter.
pub Linked-frame :
    (link link' : Links) (h : Option ℕ) (xs : List ℕ)
    → ((a : ℕ) → elem a xs ≡ true → link a ≡ link' a)
    → Linked link h xs
    → Linked link' h xs
Linked-frame link link' h [] same l = l
Linked-frame link link' h (a ∷ xs) same (e, (n, f, l)) = (
  e,
  (
    n,
    sym (same a (ground arith)) ∙ f,
    Linked-frame link link' n xs (λ b i. same b (ground (arith, i))) l,
  ),
)

pub last-elem : (a t : ℕ) (xs : List ℕ) → last_of (a ∷ xs) ≡ some t → elem t (a ∷ xs) ≡ true
last-elem a t [] e = ground arith
last-elem a t (b ∷ xs) e = ground (arith, last-elem b t xs e)

-- The link of the last address set to a fresh one, which ends the list.
pub Linked-append :
    (link link' : Links) (h : Option ℕ) (a : ℕ) (xs : List ℕ) (t b : ℕ)
    → last_of (a ∷ xs) ≡ some t
    → Distinct (a ∷ xs)
    → elem b (a ∷ xs) ≡ false
    → link b ≡ some none
    → link' t ≡ some (some b)
    → ((x : ℕ) → x ≢ t → link' x ≡ link x)
    → Linked link h (a ∷ xs)
    → Linked link' h ((a ∷ xs) ++ (b ∷ []))
Linked-append link link' h a [] t b e d fresh fresh_end set same (p, (n, f, l)) =
    (p, (some b, ground (arith, set), (refl, (none, same b (ground arith) ∙ fresh_end, refl))))
Linked-append link link' h a (c ∷ xs) t b e d fresh fresh_end set same (p, (n, f, l)) = (
  p,
  (
    n,
    same a (ground (arith, last-elem c t xs e)) ∙ f,
    Linked-append link link' n c xs t b e d.1 (ground arith) fresh_end set same l,
  ),
)

pub Linked-live :
    (link : Links) (h : Option ℕ) (xs : List ℕ) (t : ℕ)
    → elem t xs ≡ true
    → Linked link h xs
    → (n : Option ℕ) × (link t ≡ some n)
Linked-live link h [] t i l = cc
Linked-live link h (x ∷ xs) t i (e, (n, f, l)) = elim (Bool-cases (t == x)) [
  | inl same ↦ (n, ap link ((==_iff t x).0 same) ∙ f)
  | inr other ↦ Linked-live link n xs t (rw other at i) l
]

pub last_of-append : (xs : List ℕ) (a : ℕ) → last_of (xs ++ (a ∷ [])) ≡ some a
last_of-append [] a = refl
last_of-append (x ∷ []) a = refl
last_of-append (x ∷ y ∷ xs) a = last_of-append (y ∷ xs) a

pub last_of-elem : (x : ℕ) (xs : List ℕ) → (t : ℕ) × (last_of (x ∷ xs) ≡ some t)
last_of-elem x [] = (x, refl)
last_of-elem x (y ∷ xs) = last_of-elem y xs

pub elem-append :
    (b : ℕ) (xs : List ℕ) (a : ℕ) → elem b (xs ++ (a ∷ [])) ≡ (if elem b xs then true else (b == a))
elem-append b [] a = ground arith
elem-append b (x ∷ xs) a = ground (arith, elem-append b xs a)

pub Distinct-append :
    (xs : List ℕ) (a : ℕ) → Distinct xs → elem a xs ≡ false → Distinct (xs ++ (a ∷ []))
Distinct-append [] a d fresh = (refl, tt)
Distinct-append (x ∷ xs) a d fresh =
    (ground (arith, elem-append x xs a), Distinct-append xs a d.1 (ground arith))

-- A list less one address.
abbrev pub without : ℕ → List ℕ → List ℕ
without d [] = []
without d (x ∷ xs) = if d == x then without d xs else x ∷ without d xs

pub without_absent : (d : ℕ) (xs : List ℕ) → elem d xs ≡ false → without d xs ≡ xs
without_absent d [] e = refl
without_absent d (x ∷ xs) e = ground (arith, without_absent d xs)

pub elem-without :
    (a d : ℕ) (xs : List ℕ) → elem a (without d xs) ≡ (if a == d then false else elem a xs)
elem-without a d [] = ground arith
elem-without a d (x ∷ xs) = ground (arith, elem-without a d xs)

pub Distinct-without : (d : ℕ) (xs : List ℕ) → Distinct xs → Distinct (without d xs)
Distinct-without d [] h = tt
Distinct-without d (x ∷ xs) h = elim (Bool-cases (d == x)) [
  | inl e ↦ rw e (Distinct-without d xs h.1)
  | inr e ↦ rw e (ground (arith, elem-without x d xs, h.0), Distinct-without d xs h.1)
]

-- The first and another address of a distinct list.
pub elem_apart : (c a : ℕ) (xs : List ℕ) → elem c xs ≡ false → elem a xs ≡ true → a ≢ c
elem_apart c a xs absent present e = cc (absent, ap (λ k. elem k xs) e ∙ refl, present)
