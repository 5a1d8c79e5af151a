-- ===== src/Crypt/Dh/Product.antt =====
-- `mul_mod_p` and `pow_mod_p` of lualib-src/lua-crypt.cpp compute the product and the power.
use fengnet.Base.{
  ℕ, zero, suc, ◌+◌, ◌-◌, ◌*◌, ◌/◌, ◌%◌, ◌^◌, ◌<◌, leb, ◌==◌, ◌≡◌, ◌≢◌, ap, ap₂, sym, ◌∙◌, arith,
  mod-lt, mod-add-mod, pow-suc, Bool-cases, inl, inr, leb→le, leb→lt, ==_iff, ==_false,
  if◌then◌else◌, mul-add-mod_self_right,
}
use native.Mathlib.Nat.{div-add-mod}
use fengnet.Crypt.Dh.{prime, add_mod_p, double_mod_p, mul_loop, mul_mod_p}

add_mod_p_value : (m a : ℕ) → m < prime → a < prime → add_mod_p m a ≡ (m + a) % prime
unfolding add_mod_p
add_mod_p_value m a lm la = elim (Bool-cases (leb (prime - a) m)) [
  | inl e ↦ rw e (omega (arith, leb→le (prime - a) m e))
  | inr e ↦ rw e (omega (arith, leb→lt (prime - a) m e))
]

double_mod_p_value : (a : ℕ) → a < prime → double_mod_p a ≡ a * 2 % prime
unfolding double_mod_p
double_mod_p_value a la = elim (Bool-cases (leb (prime - a) a)) [
  | inl e ↦ rw e (omega (arith, leb→le (prime - a) a e))
  | inr e ↦ rw e (omega (arith, leb→lt (prime - a) a e))
]

-- A remainder under a product.
pub product_mod : (y x h : ℕ) → (y + x % prime * h) % prime ≡ (y + x * h) % prime
product_mod y x h =
    let q : ℕ = x / prime in
    let r : ℕ = x % prime in
    let e : prime * q + r ≡ x = div-add-mod x prime in
    let whole : y + x * h ≡ q * h * prime + (y + r * h) = omega (arith, ap (λ t. t * h) (sym e)) in
    sym (ap (λ t. t % prime) whole ∙ mul-add-mod_self_right (q * h) prime (y + r * h))

-- One turn of the loop: the sum `m + a * b` is kept.
turn :
    (a b m m' a' : ℕ)
    → m' ≡ (m + b % 2 * a) % prime
    → a' ≡ a * 2 % prime
    → (m' + a' * (b / 2)) % prime ≡ (m + a * b) % prime
turn a b m m' a' em ea =
    ap₂ (λ u v. (u + v * (b / 2)) % prime) em ea
    ∙ product_mod ((m + b % 2 * a) % prime) (a * 2) (b / 2)
    ∙ mod-add-mod (m + b % 2 * a) prime (a * 2 * (b / 2))
    ∙ ap (λ u. u % prime) (whole (b / 2) (b % 2) (omega arith))
  where
    whole : (h r : ℕ) → b ≡ h * 2 + r → m + r * a + a * 2 * h ≡ m + a * b
    whole h r e = omega (arith, ap (λ u. a * u) e)

-- The accumulator of a turn.
turn_sum :
    (a b m : ℕ)
    → m < prime
    → a < prime
    → (if b % 2 == 1 then add_mod_p m a else m) ≡ (m + b % 2 * a) % prime
turn_sum a b m lm la = elim (Bool-cases (b % 2 == 1)) [
  | inl e ↦
      let one : b % 2 ≡ 1 = (==_iff (b % 2) 1).0 e in
      rw (e, one, add_mod_p_value m a lm la) (omega arith)
  | inr e ↦
      let none_ : b % 2 ≡ 0 =
        omega (arith, b_odd (b % 2) (mod-lt b (omega arith)) (==_false (b % 2) 1 e)) in
      rw (e, none_) (omega arith)
]
  where
    b_odd : (r : ℕ) → r < 2 → r ≢ 1 → r ≡ 0
    b_odd r lt ne = omega arith

mul_loop_value :
    (fuel a b m : ℕ)
    → a < prime
    → m < prime
    → b < 2 ^ fuel
    → mul_loop fuel a b m ≡ (m + a * b) % prime
unfolding mul_loop
mul_loop_value zero a b m la lm lb =
    sym (ap (λ u. (m + a * u) % prime) {y = 0} (omega arith) ∙ omega arith)
mul_loop_value (suc fuel) a b m la lm lb = elim (Bool-cases (b == 0)) [
  | inl e ↦ rw (e, (==_iff b 0).0 e) (omega arith)
  | inr e ↦
      let m' : ℕ = if b % 2 == 1 then add_mod_p m a else m in
      let em : m' ≡ (m + b % 2 * a) % prime = turn_sum a b m lm la in
      let ea : double_mod_p a ≡ a * 2 % prime = double_mod_p_value a la in
      rw e (
        mul_loop_value fuel (double_mod_p a) (b / 2) m' (omega arith) (omega arith)
          (omega (arith, pow-suc 2 fuel))
        ∙ turn a b m m' (double_mod_p a) em ea)
]

-- For a factor below `P` and another of 64 bits, `mul_mod_p` returns their product modulo `P`.
pub mul_mod_p_lem : (a b : ℕ) → a < prime → b < 2 ^ 64 → mul_mod_p a b ≡ a * b % prime
unfolding mul_mod_p
mul_mod_p_lem a b la lb =
    mul_loop_value 65 a b 0 la (omega arith) (omega arith) ∙ ap (λ u. u % prime) (omega arith)
