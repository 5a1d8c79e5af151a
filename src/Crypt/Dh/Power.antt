-- ===== src/Crypt/Dh/Power.antt =====
-- `pow_mod_p` and `powmodp` of lualib-src/lua-crypt.cpp compute the power.
use fengnet.Base.{
  ℕ, zero, suc, ◌+◌, ◌*◌, ◌/◌, ◌%◌, ◌^◌, ◌<◌, ◌≤◌, some, ltb, ◌==◌, ◌≡◌, ◌≢◌, ap, sym, ◌∙◌, arith,
  mod-lt, mod-eq_of_lt, pow-suc, Bool-cases, inl, inr, ltb→le, ==_iff, ==_false, power_add,
}
use native.Mathlib.Nat.{zero-add, pow-zero, mul_comm}
use fengnet.Crypt.Dh.{prime, mul_mod_p, pow_step, pow_loop, powmodp}
use fengnet.Crypt.Dh.Product.{product_mod, mul_mod_p_lem}

pow_one : (a : ℕ) → a ^ 1 ≡ a
pow_one a = omega (arith, pow-suc a 0, ap (λ u. u * a) (pow-zero a))

pub factor_mod : (x h : ℕ) → x % prime * h % prime ≡ x * h % prime
factor_mod x h =
    ap (λ u. u % prime) (sym (zero-add (x % prime * h)))
    ∙ product_mod 0 x h
    ∙ ap (λ u. u % prime) (zero-add (x * h))

-- The remainder of a product from the remainders.
pub mul_mod : (x y : ℕ) → x % prime * (y % prime) % prime ≡ x * y % prime
mul_mod x y =
    factor_mod x (y % prime)
    ∙ ap (λ u. u % prime) (mul_comm x (y % prime))
    ∙ factor_mod y x
    ∙ ap (λ u. u % prime) (mul_comm y x)

-- The remainder of a power from that of the base.
pub power_mod : (a b : ℕ) → (a % prime) ^ b % prime ≡ a ^ b % prime
power_mod a zero = ap (λ u. u % prime) (pow-zero (a % prime) ∙ sym (pow-zero a))
power_mod a (suc b) =
    ap (λ u. u % prime) (pow-suc (a % prime) b)
    ∙ sym (factor_mod ((a % prime) ^ b) (a % prime))
    ∙ ap (λ u. (u * (a % prime)) % prime) (power_mod a b)
    ∙ mul_mod (a ^ b) a
    ∙ ap (λ u. u % prime) (sym (pow-suc a b))

-- The product of two powers, each taken modulo `P`.
pub powers : (a m n : ℕ) → mul_mod_p (a ^ m % prime) (a ^ n % prime) ≡ a ^ (m + n) % prime
powers a m n =
    let lm : a ^ m % prime < prime = mod-lt (a ^ m) (omega arith) in
    let ln : a ^ n % prime < prime = mod-lt (a ^ n) (omega arith) in
    mul_mod_p_lem (a ^ m % prime) (a ^ n % prime) lm (omega (arith, ln))
    ∙ mul_mod (a ^ m) (a ^ n)
    ∙ ap (λ u. u % prime) (sym (power_add a m n))

-- One level of the recursion.
pow_step_value :
    (a b : ℕ) → a < prime → pow_step a b (some (a ^ (b / 2) % prime)) ≡ some (a ^ b % prime)
unfolding pow_step
pow_step_value a b la = elim (Bool-cases (b % 2 == 1)) [
  | inl e ↦
      let odd : b / 2 + b / 2 + 1 ≡ b = omega (arith, (==_iff (b % 2) 1).0 e) in
      let first : a ≡ a ^ 1 % prime = sym (ap (λ u. u % prime) (pow_one a) ∙ mod-eq_of_lt la) in
      rw (e, powers a (b / 2) (b / 2))
        (ap some (
          ap (mul_mod_p (a ^ (b / 2 + b / 2) % prime)) first
          ∙ powers a (b / 2 + b / 2) 1
          ∙ ap (λ u. a ^ u % prime) odd))
  | inr e ↦
      let even : b / 2 + b / 2 ≡ b =
        halves (b / 2) (b % 2) (==_false (b % 2) 1 e) (mod-lt b (omega arith)) (omega arith) in
      rw (e, powers a (b / 2) (b / 2)) (ap (λ u. some (a ^ u % prime)) even)
]
  where
    halves : (h r : ℕ) → r ≢ 1 → r < 2 → b ≡ h * 2 + r → h + h ≡ b
    halves h r ne lt e = omega arith

pub pow_loop_value :
    (fuel a b : ℕ) → a < prime → 0 < b → b < 2 ^ fuel → pow_loop fuel a b ≡ some (a ^ b % prime)
unfolding pow_loop
pow_loop_value zero a b la pos lb = absurd (omega arith)
pow_loop_value (suc fuel) a b la pos lb = elim (Bool-cases (b == 1)) [
  | inl e ↦
      let one : b ≡ 1 = (==_iff b 1).0 e in
      rw (e, one) (ap some (sym (ap (λ u. u % prime) (pow_one a) ∙ mod-eq_of_lt la)))
  | inr e ↦
      let more : 2 ≤ b = omega (arith, ==_false b 1 e) in
      rw (e, pow_loop_value fuel a (b / 2) la (omega arith) (omega (arith, pow-suc 2 fuel)))
        (pow_step_value a b la)
]

-- For a base of 64 bits other than `P` itself and an exponent of 64 bits that is not 0, `powmodp`
-- returns the power of the base modulo `P`.
pub powmodp_lem :
    (a b : ℕ) → a < 2 ^ 64 → a ≢ prime → 0 < b → b < 2 ^ 64 → powmodp a b ≡ some (a ^ b % prime)
unfolding powmodp
powmodp_lem a b la ne pos lb = elim (Bool-cases (ltb prime a)) [
  | inl e ↦
      rw e
        (pow_loop_value 64 (a % prime) b (mod-lt a (omega arith)) pos lb ∙ ap some (power_mod a b))
  | inr e ↦ rw e (pow_loop_value 64 a b (omega (arith, ltb→le prime a e)) pos lb)
]
