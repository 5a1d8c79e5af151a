-- ===== src/Timer/Lists.antt =====
-- Every node of a list, a node of a list, and both under an append.
use fengnet.Base.{◌≡◌, refl, sym, subst, ◌⊎◌, inl, inr, List, [], ◌∷◌, ◌++◌}
use fengnet.Timer.{TimerNode}

abbrev pub All : (TimerNode → Type 0) → List TimerNode → Type 0
All P [] = Unit
All P (x ∷ xs) = P x × All P xs

abbrev pub Within : TimerNode → List TimerNode → Type 0
Within a [] = ⊥
Within a (x ∷ xs) = (a ≡ x) ⊎ Within a xs

pub All-append :
    (P : TimerNode → Type 0) (xs : List TimerNode) (a : TimerNode)
    → All P xs
    → P a
    → All P (xs ++ (a ∷ []))
All-append P [] a h p = (p, tt)
All-append P (x ∷ xs) a h p = (h.0, All-append P xs a h.1 p)

pub All-map :
    (P Q : TimerNode → Type 0) (xs : List TimerNode)
    → ((n : TimerNode) → P n → Q n)
    → All P xs
    → All Q xs
All-map P Q [] f h = tt
All-map P Q (x ∷ xs) f h = (f x h.0, All-map P Q xs f h.1)

pub All-within :
    (P : TimerNode → Type 0) (xs : List TimerNode) (a : TimerNode) → All P xs → Within a xs → P a
All-within P [] a h m = absurd m
All-within P (x ∷ xs) a h (inl e) = subst P (sym e) h.0
All-within P (x ∷ xs) a h (inr m) = All-within P xs a h.1 m

-- A list of which no node can be is empty.
pub All-empty :
    (P : TimerNode → Type 0) (xs : List TimerNode)
    → ((n : TimerNode) → P n → ⊥)
    → All P xs
    → xs ≡ []
All-empty P [] none_can h = refl
All-empty P (x ∷ xs) none_can h = absurd (none_can x h.0)

pub Within-append_left :
    (a b : TimerNode) (xs : List TimerNode) → Within a xs → Within a (xs ++ (b ∷ []))
Within-append_left a b [] m = absurd m
Within-append_left a b (x ∷ xs) (inl e) = inl e
Within-append_left a b (x ∷ xs) (inr m) = inr (Within-append_left a b xs m)

pub Within-append_last : (b : TimerNode) (xs : List TimerNode) → Within b (xs ++ (b ∷ []))
Within-append_last b [] = inl refl
Within-append_last b (x ∷ xs) = inr (Within-append_last b xs)

pub Within-append :
    (a b : TimerNode) (xs : List TimerNode) → Within a (xs ++ (b ∷ [])) → Within a xs ⊎ (a ≡ b)
Within-append a b [] (inl e) = inr e
Within-append a b [] (inr m) = absurd m
Within-append a b (x ∷ xs) (inl e) = inl (inl e)
Within-append a b (x ∷ xs) (inr m) = weaken (Within-append a b xs m)
  where
    weaken : Within a xs ⊎ (a ≡ b) → Within a (x ∷ xs) ⊎ (a ≡ b)
    weaken (inl k) = inl (inr k)
    weaken (inr e) = inr e
