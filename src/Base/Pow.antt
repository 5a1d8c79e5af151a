-- ===== src/Base/Pow.antt =====
-- Remainders by powers of two that divide one another.
use Prim.Native.Nat.{ℕ, zero, suc, ◌+◌, ◌-◌, ◌*◌, ◌/◌, ◌%◌, ◌^◌, ◌≤◌, ◌<◌}
use mathlib.Core.Path.{◌≡◌, refl, ap, sym, ◌∙◌, subst}
use mathlib.Core.Logic.{◌≢◌, inl, inr}
use native.Mathlib.Omega.{arith}
use native.Mathlib.Nat.{
  pow-suc, pow-zero, one-le-pow, mul_assoc, div-add-mod, mul-add-mod_self_left, mod-eq_of_lt,
  mod-lt, mod-eq-sub-mod, mul-one, mod-add-mod, add-zero, add-suc, mul-zero, mul-suc,
}
use fengnet.Base.Tests.{trichotomy}

pub pow-pos : (k : ℕ) → 0 < 2 ^ k
pow-pos k = omega (arith, one-le-pow k 2)

pub power_add : (n a b : ℕ) → n ^ (a + b) ≡ n ^ a * n ^ b
power_add n a zero = rw (add-zero a, pow-zero, mul-one) refl
power_add n a (suc b) =
    rw (add-suc a b, pow-suc n (a + b), power_add n a b, pow-suc n b) (mul_assoc (n ^ a) (n ^ b) n)

pub power_mul : (n a b : ℕ) → (n ^ a) ^ b ≡ n ^ (a * b)
power_mul n a zero = pow-zero (n ^ a) ∙ sym (ap (λ u. n ^ u) (mul-zero a) ∙ pow-zero n)
power_mul n a (suc b) =
    pow-suc (n ^ a) b
    ∙ ap (λ u. u * n ^ a) (power_mul n a b)
    ∙ sym (ap (λ u. n ^ u) (mul-suc a b) ∙ power_add n (a * b) a)

pub pow_add : (a b : ℕ) → 2 ^ (a + b) ≡ 2 ^ a * 2 ^ b
pow_add = power_add 2

-- A remainder by a multiple, taken again.
pub mod_mul-mod : (x m n : ℕ) → x % (m * n) % m ≡ x % m
mod_mul-mod x m n =
    sym (mul-add-mod_self_left m (n * (x / (m * n))) (x % (m * n)))
    ∙ ap (λ t. (t + x % (m * n)) % m) (sym (mul_assoc m n (x / (m * n))))
    ∙ ap (λ t. t % m) (div-add-mod x (m * n))

-- Half the modulus away stands another remainder.
pub mod-half_ne : (x m : ℕ) → 0 < m → (x + m) % (m * 2) ≢ x % (m * 2)
mod-half_ne x m pos e =
    let r : ℕ = x % (m * 2) in
    let small : r < m * 2 = mod-lt x (omega arith) in
    let same : (r + m) % (m * 2) ≡ r = mod-add-mod x (m * 2) m ∙ e in
    elim (trichotomy (r + m) (m * 2)) [
      | inl lt ↦ omega (arith, sym (mod-eq_of_lt lt) ∙ same)
      | inr (inl eq) ↦ omega (
        arith,
        sym (mod-eq-sub-mod (subst (λ t. m * 2 ≤ t) (sym eq) (omega arith))) ∙ same,
        mod-eq_of_lt {n = r + m - m * 2} {m = m * 2} (omega arith),
      )
      | inr (inr gt) ↦ omega (
        arith,
        sym (mod-eq-sub-mod {n = r + m} {m = m * 2} (omega arith)) ∙ same,
        mod-eq_of_lt {n = r + m - m * 2} {m = m * 2} (omega arith),
      )
    ]
