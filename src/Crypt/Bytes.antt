-- ===== src/Crypt/Bytes.antt =====
-- Lists of bytes, as Lua strings hold them, and tests over a range of numbers.
use fengnet.Base.{
  ℕ, zero, suc, ◌<◌, Bool, true, false, ◌&&◌, List, [], ◌∷◌, ◌++◌, ◌≡◌, refl, arith, replicate,
  trichotomy, subst, length, inl, inr, sym,
}

-- A list of values of `uint8_t`.
abbrev pub IsBytes : List ℕ → Type 0
IsBytes [] = Unit
IsBytes (x ∷ xs) = (x < 256) × IsBytes xs

pub IsBytes-append : (xs ys : List ℕ) → IsBytes xs → IsBytes ys → IsBytes (xs ++ ys)
IsBytes-append [] ys bx by_ = by_
IsBytes-append (x ∷ xs) ys (lx, bx) by_ = (lx, IsBytes-append xs ys bx by_)

pub IsBytes-replicate : (n x : ℕ) → x < 256 → IsBytes (replicate n x)
IsBytes-replicate zero x lt = tt
IsBytes-replicate (suc n) x lt = (lt, IsBytes-replicate n x lt)

-- A test of all numbers below a bound.
abbrev pub all_below : (ℕ → Bool) → ℕ → Bool
all_below test zero = true
all_below test (suc n) = all_below test n && test n

pub both_true : (a b : Bool) → (a && b) ≡ true → (a ≡ true) × (b ≡ true)
both_true true true e = (refl, refl)
both_true true false e = cc
both_true false b e = cc

pub checked :
    (test : ℕ → Bool) (bound : ℕ)
    → all_below test bound ≡ true
    → (n : ℕ) → n < bound
    → test n ≡ true
checked test zero e n lt = absurd (omega arith)
checked test (suc bound) e n lt =
    let (below, here) = both_true (all_below test bound) (test bound) e in
    elim (trichotomy n bound) [
      | inl less ↦ checked test bound below n less
      | inr (inl same) ↦ subst (λ k. test k ≡ true) (sym same) here
      | inr (inr more) ↦ absurd (omega arith)
    ]

-- Four values of `uint8_t`.
abbrev pub AreBytes : ℕ → ℕ → ℕ → ℕ → Type 0
AreBytes a b c d = (a < 256) × (b < 256) × (c < 256) × (d < 256)

-- Eight bytes.
pub data ListOfEight : List ℕ → Type 0 where
  eight :
      (a b c d e f g h : ℕ)
      → AreBytes a b c d
      → AreBytes e f g h
      → ListOfEight (a ∷ b ∷ c ∷ d ∷ e ∷ f ∷ g ∷ h ∷ [])

pub list_of_eight : (p : List ℕ) → IsBytes p → length p ≡ 8 → ListOfEight p
list_of_eight [] bs l8 = absurd (omega arith)
list_of_eight (a ∷ []) bs l8 = absurd (omega arith)
list_of_eight (a ∷ b ∷ []) bs l8 = absurd (omega arith)
list_of_eight (a ∷ b ∷ c ∷ []) bs l8 = absurd (omega arith)
list_of_eight (a ∷ b ∷ c ∷ d ∷ []) bs l8 = absurd (omega arith)
list_of_eight (a ∷ b ∷ c ∷ d ∷ e ∷ []) bs l8 = absurd (omega arith)
list_of_eight (a ∷ b ∷ c ∷ d ∷ e ∷ f ∷ []) bs l8 = absurd (omega arith)
list_of_eight (a ∷ b ∷ c ∷ d ∷ e ∷ f ∷ g ∷ []) bs l8 = absurd (omega arith)
list_of_eight (a ∷ b ∷ c ∷ d ∷ e ∷ f ∷ g ∷ h ∷ []) (la, (lb, (lc, (ld, (le, (lf, (lg, (lh, _))))))))
      l8 =
    eight a b c d e f g h (la, lb, lc, ld) (le, lf, lg, lh)
list_of_eight (a ∷ b ∷ c ∷ d ∷ e ∷ f ∷ g ∷ h ∷ i ∷ p) bs l8 = absurd (omega arith)
