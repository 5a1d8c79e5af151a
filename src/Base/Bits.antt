-- ===== src/Base/Bits.antt =====
-- `&` with a low mask, `|` with a low mask and `|` of disjoint fields, as arithmetic, at every width.
-- Both operations act digit by digit, so they act field by field; the laws follow from the fields.
use Prim.Native.Nat.{
  ℕ, zero, suc, ◌+◌, ◌-◌, ◌*◌, ◌/◌, ◌%◌, ◌^◌, ◌≤◌, ◌<◌, min, max, digits, bitwise, bit_and, bit_or,
  bit_and-bitwise, bit_or-bitwise,
}
use mathlib.Core.Path.{◌≡◌, refl, ap, sym, ◌∙◌}
use native.Mathlib.Nat.{pow-suc, one-le-pow, le_refl}
use native.Mathlib.Omega.{arith}

-- The count of digits to go does not matter once it covers the first number.
pub enough_digits :
    (z : ℕ → ℕ) (f : ℕ → ℕ → ℕ) (bound n a b : ℕ)
    → n < bound
    → a ≤ n
    → digits z f n a b ≡ bitwise z f a b
enough_digits z f zero n a b lt le = elim lt [ ]
enough_digits z f (suc bound) zero zero b lt le = refl
enough_digits z f (suc bound) zero (suc a) b lt le = absurd (omega arith)
enough_digits z f (suc bound) (suc n) zero b lt le = refl
enough_digits z f (suc bound) (suc n) (suc a) b lt le =
    ap (λ (t : ℕ). t * 2 + f (suc a % 2) (b % 2))
      (enough_digits z f bound n (suc a / 2) (b / 2) (omega arith) (omega arith)
        ∙ sym (enough_digits z f bound a (suc a / 2) (b / 2) (omega arith) (omega arith)))

-- An operation that is given by its lowest digit and the rest.
pub record Digitwise (op : ℕ → ℕ → ℕ) (f : ℕ → ℕ → ℕ) : Type 0 where
  pub lowest : (a b : ℕ) → op a b ≡ op (a / 2) (b / 2) * 2 + f (a % 2) (b % 2)
  pub nothing : op 0 0 ≡ 0

or_digits : Digitwise bit_or max
or_digits = record { lowest = lowest; nothing = refl }
  where
    lowest : (a b : ℕ) → bit_or a b ≡ bit_or (a / 2) (b / 2) * 2 + max (a % 2) (b % 2)
    lowest zero b = simp bit_or-bitwise (omega arith)
    lowest (suc a) b = simp bit_or-bitwise (
        ap (λ (t : ℕ). t * 2 + max (suc a % 2) (b % 2))
          (enough_digits (λ y. y) max (suc a) a (suc a / 2) (b / 2) (le_refl _) (omega arith)))

pub and_digits : Digitwise bit_and min
and_digits = record { lowest = lowest; nothing = refl }
  where
    lowest : (a b : ℕ) → bit_and a b ≡ bit_and (a / 2) (b / 2) * 2 + min (a % 2) (b % 2)
    lowest zero b = simp bit_and-bitwise (omega arith)
    lowest (suc a) b = simp bit_and-bitwise (
        ap (λ (t : ℕ). t * 2 + min (suc a % 2) (b % 2))
          (enough_digits (λ y. 0) min (suc a) a (suc a / 2) (b / 2) (le_refl _) (omega arith)))

twice_high : (q k : ℕ) → q * 2 ^ suc k ≡ q * 2 ^ k + q * 2 ^ k
twice_high q k = omega (arith, ap (λ (t : ℕ). q * t) (pow-suc 2 k))

module _ (op f : ℕ → ℕ → ℕ) (d : Digitwise op f) where
  -- High fields meet high fields, low fields meet low fields.
  pub by_fields :
      (k q r s t : ℕ)
      → r < 2 ^ k
      → t < 2 ^ k
      → op (q * 2 ^ k + r) (s * 2 ^ k + t) ≡ op q s * 2 ^ k + op r t
  by_fields zero q r s t rk tk = ground (arith, d.nothing)
  by_fields (suc k) q r s t rk tk = ground (
    arith,
    twice_high q k,
    twice_high s k,
    twice_high (op q s) k,
    pow-suc 2 k,
    d.lowest (q * 2 ^ suc k + r) (s * 2 ^ suc k + t),
    d.lowest r t,
    by_fields k q (r / 2) s (t / 2) (omega arith) (omega arith),
  )

or_nothing : (bound a : ℕ) → a < bound → bit_or a 0 ≡ a
or_nothing zero a lt = elim lt [ ]
or_nothing (suc bound) zero lt = refl
or_nothing (suc bound) (suc a) lt =
    omega (arith, or_digits.lowest (suc a) 0, or_nothing bound (suc a / 2) (omega arith))

nothing_or : (bound a : ℕ) → a < bound → bit_or 0 a ≡ a
nothing_or zero a lt = elim lt [ ]
nothing_or (suc bound) zero lt = refl
nothing_or (suc bound) (suc a) lt =
    omega (arith, or_digits.lowest 0 (suc a), nothing_or bound (suc a / 2) (omega arith))

pub and_nothing : (bound a : ℕ) → a < bound → bit_and a 0 ≡ 0
and_nothing zero a lt = elim lt [ ]
and_nothing (suc bound) zero lt = refl
and_nothing (suc bound) (suc a) lt =
    omega (arith, and_digits.lowest (suc a) 0, and_nothing bound (suc a / 2) (omega arith))

ones_or : (k r : ℕ) → r < 2 ^ k → bit_or r (2 ^ k - 1) ≡ 2 ^ k - 1
ones_or zero r rk = ground (arith, or_nothing 1 r)
ones_or (suc k) r rk = ground (
  arith,
  pow-suc 2 k,
  one-le-pow k 2,
  or_digits.lowest r (2 ^ suc k - 1),
  ones_or k (r / 2) (omega arith),
)

ones_and : (k r : ℕ) → r < 2 ^ k → bit_and r (2 ^ k - 1) ≡ r
ones_and zero r rk = ground (arith, and_nothing 1 r)
ones_and (suc k) r rk = ground (
  arith,
  pow-suc 2 k,
  one-le-pow k 2,
  and_digits.lowest r (2 ^ suc k - 1),
  ones_and k (r / 2) (omega arith),
)

-- A low field joined with a high one by `|` is a sum.
pub or_fields : (k q r : ℕ) → r < 2 ^ k → bit_or r (q * 2 ^ k) ≡ q * 2 ^ k + r
or_fields k q r rk = ground (
  arith,
  by_fields bit_or max or_digits k 0 r q 0,
  one-le-pow k 2,
  or_nothing (suc r) r,
  nothing_or (suc q) q,
)

-- `a | (2 ^ k - 1)` sets the `k` low bits.
pub or_ones : (k a : ℕ) → bit_or a (2 ^ k - 1) ≡ a / 2 ^ k * 2 ^ k + (2 ^ k - 1)
or_ones k a = ground (
  arith,
  one-le-pow k 2,
  by_fields bit_or max or_digits k (a / 2 ^ k) (a % 2 ^ k) 0 (2 ^ k - 1),
  ones_or k (a % 2 ^ k),
  or_nothing (suc (a / 2 ^ k)) (a / 2 ^ k),
)

-- `a & (2 ^ k - 1)` is the remainder by `2 ^ k`.
pub and_ones : (k a : ℕ) → bit_and a (2 ^ k - 1) ≡ a % 2 ^ k
and_ones k a = ground (
  arith,
  one-le-pow k 2,
  by_fields bit_and min and_digits k (a / 2 ^ k) (a % 2 ^ k) 0 (2 ^ k - 1),
  ones_and k (a % 2 ^ k),
  and_nothing (suc (a / 2 ^ k)) (a / 2 ^ k),
)

-- The same with the high field first.
pub fields_or : (k q r : ℕ) → r < 2 ^ k → bit_or (q * 2 ^ k) r ≡ q * 2 ^ k + r
fields_or k q r rk = ground (
  arith,
  by_fields bit_or max or_digits k q 0 0 r,
  one-le-pow k 2,
  nothing_or (suc r) r,
  or_nothing (suc q) q,
)
