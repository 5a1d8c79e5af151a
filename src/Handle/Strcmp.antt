-- ===== src/Handle/Strcmp.antt =====
-- `strcmp` as used by fengnet_handle.cpp is a strict total order on names.
use fengnet.Base.{ℕ, ◌≡◌, refl, List, [], ◌∷◌, Ordering, arith}
use fengnet.Handle.{strcmp}

-- Only equal names compare as equal.
pub strcmp-eq : (a b : List ℕ) → strcmp a b ≡ Ordering.eq → a ≡ b
unfolding strcmp
strcmp-eq [] [] e = refl
strcmp-eq [] (y ∷ ys) e = cc
strcmp-eq (x ∷ xs) [] e = cc
strcmp-eq (x ∷ xs) (y ∷ ys) e = ground (arith, strcmp-eq xs ys)

pub strcmp_refl : (a : List ℕ) → strcmp a a ≡ Ordering.eq
unfolding strcmp
strcmp_refl [] = refl
strcmp_refl (x ∷ xs) = ground (arith, strcmp_refl xs)

pub strcmp_gt : (a b : List ℕ) → strcmp a b ≡ Ordering.gt → strcmp b a ≡ Ordering.lt
unfolding strcmp
strcmp_gt [] [] e = cc
strcmp_gt [] (y ∷ ys) e = cc
strcmp_gt (x ∷ xs) [] e = refl
strcmp_gt (x ∷ xs) (y ∷ ys) e = ground (arith, strcmp_gt xs ys)

pub strcmp_trans :
    (a b c : List ℕ)
    → strcmp a b ≡ Ordering.lt
    → strcmp b c ≡ Ordering.lt
    → strcmp a c ≡ Ordering.lt
unfolding strcmp
strcmp_trans [] [] c p q = cc
strcmp_trans [] (y ∷ ys) [] p q = cc
strcmp_trans [] (y ∷ ys) (z ∷ zs) p q = refl
strcmp_trans (x ∷ xs) [] c p q = cc
strcmp_trans (x ∷ xs) (y ∷ ys) [] p q = cc
strcmp_trans (x ∷ xs) (y ∷ ys) (z ∷ zs) p q = ground (arith, strcmp_trans xs ys zs)
