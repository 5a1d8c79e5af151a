-- ===== src/Base/Xor.antt =====
-- The laws of `^` on words of every width, from its lowest digit.
use Prim.Native.Nat.{
  ℕ, zero, suc, ◌+◌, ◌*◌, ◌/◌, ◌%◌, ◌^◌, ◌≤◌, ◌<◌, differ, bit_xor, bit_and, bit_xor-bitwise,
}
use mathlib.Core.Path.{◌≡◌, refl, ap, ap₂, sym, ◌∙◌}
use mathlib.Core.Logic.{◌⊎◌, inl, inr}
use native.Mathlib.Nat.{
  pow-suc, one-le-pow, div-add-mod, mod-lt, mod-eq_of_lt, mul-add-mod_self_right, le_refl, mul_comm,
  div-one, div-div-eq-div-mul,
}
use native.Mathlib.Omega.{arith}
use fengnet.Base.Bits.{by_fields, Digitwise, enough_digits, and_digits, and_nothing}

pub xor_digits : Digitwise bit_xor differ
xor_digits = record { lowest = lowest; nothing = refl }
  where
    lowest : (a b : ℕ) → bit_xor a b ≡ bit_xor (a / 2) (b / 2) * 2 + differ (a % 2) (b % 2)
    lowest zero b = simp bit_xor-bitwise (omega arith)
    lowest (suc a) b = simp bit_xor-bitwise (
        ap (λ (t : ℕ). t * 2 + differ (suc a % 2) (b % 2))
          (enough_digits (λ y. y) differ (suc a) a (suc a / 2) (b / 2) (le_refl _) (omega arith)))

-- A digit is 0 or 1.
digit : (a : ℕ) → (a % 2 ≡ 0) ⊎ (a % 2 ≡ 1)
digit a = ground arith

differ_self : (x : ℕ) → differ x x ≡ 0
differ_self zero = refl
differ_self (suc x) = differ_self x

differ_zero : (x : ℕ) → differ x 0 ≡ x
differ_zero zero = refl
differ_zero (suc x) = refl

differ_comm : (x y : ℕ) → differ x y ≡ differ y x
differ_comm zero zero = refl
differ_comm zero (suc y) = refl
differ_comm (suc x) zero = refl
differ_comm (suc x) (suc y) = differ_comm x y

differ-lt : (a b : ℕ) → differ (a % 2) (b % 2) < 2
differ-lt a b = elim (digit a) [
  | inl e ↦ rw e (omega arith)
  | inr e ↦ elim (digit b) [ inl e' ↦ rw (e, e') (omega arith) | inr e' ↦ rw (e, e') (omega arith) ]
]

differ_assoc :
    (a b c : ℕ) → differ (differ (a % 2) (b % 2)) (c % 2) ≡ differ (a % 2) (differ (b % 2) (c % 2))
differ_assoc a b c = elim (digit a) [
  | inl e ↦ rw e refl
  | inr e ↦ elim (digit b) [
    | inl e' ↦ rw (e, e') refl
    | inr e' ↦ elim (digit c) [ inl e'' ↦ rw (e, e', e'') refl | inr e'' ↦ rw (e, e', e'') refl ]
  ]
]

pub xor_low : (a b : ℕ) → bit_xor a b % 2 ≡ differ (a % 2) (b % 2)
xor_low a b = omega (arith, xor_digits.lowest a b, differ-lt a b)

pub xor_half : (a b : ℕ) → bit_xor a b / 2 ≡ bit_xor (a / 2) (b / 2)
xor_half a b = omega (arith, xor_digits.lowest a b, differ-lt a b)

self_below : (bound a : ℕ) → a < bound → bit_xor a a ≡ 0
self_below zero a lt = absurd (omega arith)
self_below (suc bound) zero lt = refl
self_below (suc bound) (suc a) lt = omega (
  arith,
  xor_digits.lowest (suc a) (suc a),
  differ_self (suc a % 2),
  self_below bound (suc a / 2) (omega arith),
)

pub xor_self : (a : ℕ) → bit_xor a a ≡ 0
xor_self a = self_below (suc a) a (omega arith)

zero_below : (bound a : ℕ) → a < bound → bit_xor a 0 ≡ a
zero_below zero a lt = absurd (omega arith)
zero_below (suc bound) zero lt = refl
zero_below (suc bound) (suc a) lt = omega (
  arith,
  xor_digits.lowest (suc a) 0,
  differ_zero (suc a % 2),
  zero_below bound (suc a / 2) (omega arith),
)

pub xor_zero : (a : ℕ) → bit_xor a 0 ≡ a
xor_zero a = zero_below (suc a) a (omega arith)

comm_below : (bound a b : ℕ) → a < bound → b < bound → bit_xor a b ≡ bit_xor b a
comm_below zero a b la lb = absurd (omega arith)
comm_below (suc zero) a b la lb = ap₂ bit_xor z (sym z)
  where
    z : a ≡ b
    z = omega arith
comm_below (suc (suc bound)) a b la lb = omega (
  arith,
  xor_digits.lowest a b,
  xor_digits.lowest b a,
  differ_comm (a % 2) (b % 2),
  comm_below (suc bound) (a / 2) (b / 2) (omega arith) (omega arith),
)

pub xor_comm : (a b : ℕ) → bit_xor a b ≡ bit_xor b a
xor_comm a b = comm_below (suc (a + b)) a b (omega arith) (omega arith)

assoc_below :
    (bound a b c : ℕ)
    → a < bound
    → b < bound
    → c < bound
    → bit_xor (bit_xor a b) c ≡ bit_xor a (bit_xor b c)
assoc_below zero a b c la lb lc = absurd (omega arith)
assoc_below (suc zero) a b c la lb lc = cc (zero_is a la, zero_is b lb, zero_is c lc)
  where
    zero_is : (x : ℕ) → x < 1 → x ≡ 0
    zero_is x h = omega arith
assoc_below (suc (suc bound)) a b c la lb lc =
    xor_digits.lowest (bit_xor a b) c
    ∙ ap₂ (λ (x y : ℕ). bit_xor x (c / 2) * 2 + differ y (c % 2)) (xor_half a b) (xor_low a b)
    ∙ ap₂ (λ (x y : ℕ). x * 2 + y)
        (assoc_below (suc bound) (a / 2) (b / 2) (c / 2) (omega arith) (omega arith) (omega arith))
        (differ_assoc a b c)
    ∙ sym (
        xor_digits.lowest a (bit_xor b c)
        ∙ ap₂ (λ (x y : ℕ). bit_xor (a / 2) x * 2 + differ (a % 2) y) (xor_half b c) (xor_low b c))

pub xor_assoc : (a b c : ℕ) → bit_xor (bit_xor a b) c ≡ bit_xor a (bit_xor b c)
xor_assoc a b c = assoc_below (suc (a + b + c)) a b c (omega arith) (omega arith) (omega arith)

-- What was mixed in twice is gone.
pub xor_twice : (a b : ℕ) → bit_xor (bit_xor a b) b ≡ a
xor_twice a b = xor_assoc a b b ∙ ap (bit_xor a) (xor_self b) ∙ xor_zero a

-- `(a ^ t) ^ (b ^ t)` is `a ^ b`.
pub xor_both : (a b t : ℕ) → bit_xor (bit_xor a t) (bit_xor b t) ≡ bit_xor a b
xor_both a b t =
    xor_assoc a t (bit_xor b t) ∙ ap (bit_xor a) (xor_comm t (bit_xor b t) ∙ xor_twice b t)

pub xor-lt : (k a b : ℕ) → a < 2 ^ k → b < 2 ^ k → bit_xor a b < 2 ^ k
xor-lt zero a b la lb = omega (arith, ap₂ bit_xor (a0 a la) (a0 b lb))
  where
    a0 : (x : ℕ) → x < 1 → x ≡ 0
    a0 x h = omega arith
xor-lt (suc k) a b la lb = omega (
  arith,
  pow-suc 2 k,
  xor_digits.lowest a b,
  differ-lt a b,
  xor-lt k (a / 2) (b / 2) (omega (arith, pow-suc 2 k)) (omega (arith, pow-suc 2 k)),
)

halve : (x k : ℕ) → x / 2 ^ suc k ≡ x / 2 / 2 ^ k
halve x k =
    ap (λ (m : ℕ). x / m) (pow-suc 2 k ∙ mul_comm (2 ^ k) 2) ∙ sym (div-div-eq-div-mul x 2 (2 ^ k))

-- A right shift goes through.
pub xor-shift : (k a b : ℕ) → bit_xor a b / 2 ^ k ≡ bit_xor (a / 2 ^ k) (b / 2 ^ k)
xor-shift zero a b = div-one (bit_xor a b) ∙ ap₂ bit_xor (sym (div-one a)) (sym (div-one b))
xor-shift (suc k) a b =
    halve (bit_xor a b) k
    ∙ ap (λ (x : ℕ). x / 2 ^ k) (xor_half a b)
    ∙ xor-shift k (a / 2) (b / 2)
    ∙ ap₂ bit_xor (sym (halve a k)) (sym (halve b k))

and_below : (bound a b : ℕ) → b < bound → bit_and a b ≤ b
and_below zero a b lt = absurd (omega arith)
and_below (suc zero) a zero lt = omega (arith, and_nothing (suc a) a (omega arith))
and_below (suc zero) a (suc b) lt = absurd (omega arith)
and_below (suc (suc bound)) a b lt =
    ground (arith, and_digits.lowest a b, and_below (suc bound) (a / 2) (b / 2) (omega arith))

pub and-le : (a b : ℕ) → bit_and a b ≤ b
and-le a b = and_below (suc b) a b (omega arith)

-- The low digits of `a ^ b`.
pub xor_mod : (k a b : ℕ) → bit_xor a b % 2 ^ k ≡ bit_xor (a % 2 ^ k) (b % 2 ^ k)
xor_mod k a b =
    let pos : 0 < 2 ^ k = omega (arith, one-le-pow k 2) in
    let p : ℕ = a / 2 ^ k in
    let q : ℕ = a % 2 ^ k in
    let r : ℕ = b / 2 ^ k in
    let s : ℕ = b % 2 ^ k in
    let ea : p * 2 ^ k + q ≡ a = omega (arith, div-add-mod a (2 ^ k)) in
    let eb : r * 2 ^ k + s ≡ b = omega (arith, div-add-mod b (2 ^ k)) in
    let lq : q < 2 ^ k = mod-lt a pos in
    let ls : s < 2 ^ k = mod-lt b pos in
    ap₂ (λ x y. bit_xor x y % 2 ^ k) (sym ea) (sym eb)
    ∙ ap (λ x. x % 2 ^ k) (by_fields bit_xor differ xor_digits k p q r s lq ls)
    ∙ mul-add-mod_self_right (bit_xor p r) (2 ^ k) (bit_xor q s)
    ∙ mod-eq_of_lt (xor-lt k q s lq ls)
