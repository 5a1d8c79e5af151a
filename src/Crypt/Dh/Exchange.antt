-- ===== src/Crypt/Dh/Exchange.antt =====
-- `ldhexchange` and `ldhsecret` of lualib-src/lua-crypt.cpp: both sides of an exchange have the same
-- secret.
use fengnet.Base.{
  ℕ, zero, suc, ◌+◌, ◌*◌, ◌/◌, ◌%◌, ◌^◌, ◌<◌, bit_and, bit_or, some, ◌==◌, ◌≡◌, ◌≢◌, refl, ap, ap₂,
  sym, ◌∙◌, arith, mod-lt, pow-suc, List, [], ◌∷◌, length, and_ones, or_fields, ne→==_false, ==_iff,
  some-injective, Bool-cases, inl, inr, and-le, power_mul,
}
use native.Mathlib.Nat.{mul_comm, pow-zero}
use mathlib.Core.Option.{bind, none-ne-some}
use fengnet.Crypt.Bytes.{IsBytes, AreBytes, ListOfEight, eight, list_of_eight}
use fengnet.Crypt.Des.{shl}
use fengnet.Crypt.Dh.{prime, read_word, read64, push64, ldhsecret, ldhexchange}
use fengnet.Crypt.Dh.Power.{factor_mod, power_mod, powmodp_lem}

-- The word of four bytes, the lowest first.
little_word :
    (a b c d : ℕ)
    → AreBytes a b c d
    → bit_or (bit_or (bit_or a (shl b 8)) (shl c 16)) (shl d 24)
      ≡ d * 2 ^ 24 + (c * 2 ^ 16 + (b * 2 ^ 8 + a))
little_word a b c d (la, lb, lc, ld) =
    let eb : shl b 8 ≡ b * 2 ^ 8 = omega arith in
    let ec : shl c 16 ≡ c * 2 ^ 16 = omega arith in
    let ed : shl d 24 ≡ d * 2 ^ 24 = omega arith in
    ap₂ (λ u v. bit_or (bit_or (bit_or a u) v) (shl d 24)) eb ec
    ∙ ap (λ u. bit_or (bit_or u (c * 2 ^ 16)) (shl d 24)) (or_fields 8 b a la)
    ∙ ap₂ bit_or (or_fields 16 c (b * 2 ^ 8 + a) (omega arith)) ed
    ∙ or_fields 24 d (c * 2 ^ 16 + (b * 2 ^ 8 + a)) (omega arith)

-- The number of two words.
two_words : (l h : ℕ) → l < 2 ^ 32 → h < 2 ^ 32 → bit_or l (h * 2 ^ 32 % 2 ^ 64) ≡ h * 2 ^ 32 + l
two_words l h ll lh =
    let e : h * 2 ^ 32 % 2 ^ 64 ≡ h * 2 ^ 32 = omega arith in ap (bit_or l) e ∙ or_fields 32 h l ll

-- The number of eight bytes.
eight_bytes :
    (a b c d e f g h : ℕ)
    → AreBytes a b c d
    → AreBytes e f g h
    → read64 (a ∷ b ∷ c ∷ d ∷ e ∷ f ∷ g ∷ h ∷ [])
      ≡ some (
          (h * 2 ^ 24 + (g * 2 ^ 16 + (f * 2 ^ 8 + e))) * 2 ^ 32
          + (d * 2 ^ 24 + (c * 2 ^ 16 + (b * 2 ^ 8 + a))))
unfolding read64 read_word
eight_bytes a b c d e f g h (la, lb, lc, ld) (le, lf, lg, lh) = ap some (
    ap₂ (λ l u. bit_or l (u * 2 ^ 32 % 2 ^ 64)) (little_word a b c d (la, lb, lc, ld))
      (little_word e f g h (le, lf, lg, lh))
    ∙ two_words (d * 2 ^ 24 + (c * 2 ^ 16 + (b * 2 ^ 8 + a)))
        (h * 2 ^ 24 + (g * 2 ^ 16 + (f * 2 ^ 8 + e))) (omega arith) (omega arith))

-- What `push64` writes, the next side reads.
pub read64-push64 : (r : ℕ) → r < 2 ^ 64 → read64 (push64 r) ≡ some r
unfolding push64
read64-push64 r lr =
    eight_bytes _ _ _ _ _ _ _ _ (low 0, low 8, low 16, low 24) (low 32, low 40, low 48, low 56)
    ∙ ap some (omega (arith, is 0, is 8, is 16, is 24, is 32, is 40, is 48, is 56))
  where
    is : (k : ℕ) → bit_and (r / 2 ^ k) 0xff ≡ r / 2 ^ k % 256
    is k = and_ones 8 (r / 2 ^ k)

    low : (k : ℕ) → bit_and (r / 2 ^ k) 0xff < 256
    low k = omega (arith, and-le (r / 2 ^ k) 0xff)

-- The number that eight bytes are read as has 64 bits.
read64-lt : (x : List ℕ) (a : ℕ) → IsBytes x → read64 x ≡ some a → a < 2 ^ 64
unfolding read64
read64-lt x a bs e = elim (Bool-cases (length x == 8)) [
  | inl l8 ↦ below (list_of_eight x bs ((==_iff (length x) 8).0 l8)) e
  | inr short ↦ absurd (none-ne-some a (rw short at e))
]
  where
    below : {p : List ℕ} → ListOfEight p → read64 p ≡ some a → a < 2 ^ 64
    below (eight a b c d e f g h (la, lb, lc, ld) (le, lf, lg, lh)) eq = omega (
      arith,
      some-injective (sym eq ∙ eight_bytes a b c d e f g h (la, lb, lc, ld) (le, lf, lg, lh)),
    )

-- 5 has an inverse modulo `P`, so no power of 5 is 0 modulo `P`.
five_power : (b : ℕ) → 5 ^ b % prime ≢ 0
five_power zero e = omega (arith, ap (λ u. u % prime) (sym (pow-zero 5)) ∙ e)
five_power (suc b) e = five_power b (
    sym (one_more (5 ^ b))
    ∙ ap (λ u. u * 7378697629483820623 % prime) (sym (pow-suc 5 b))
    ∙ sym (factor_mod (5 ^ suc b) 7378697629483820623)
    ∙ ap (λ u. u * 7378697629483820623 % prime) e)
  where
    one_more : (n : ℕ) → n * 5 * 7378697629483820623 % prime ≡ n % prime
    one_more n = omega arith

-- What a side sends.
ldhexchange_value :
    (x : List ℕ) (a : ℕ)
    → read64 x ≡ some a
    → a < 2 ^ 64
    → a ≢ 0
    → ldhexchange x ≡ some (push64 (5 ^ a % prime))
unfolding ldhexchange bind
ldhexchange_value x a e la ne =
    rw (e, ne→==_false a 0 ne, powmodp_lem 5 a (omega arith) (λ q. omega arith) (omega arith) la)
      refl

-- What a side makes of what it has received.
ldhsecret_value :
    (y : List ℕ) (a b : ℕ)
    → read64 y ≡ some b
    → b < 2 ^ 64
    → b ≢ 0
    → ldhsecret (push64 (5 ^ a % prime)) y ≡ some (push64 ((5 ^ a) ^ b % prime))
unfolding ldhsecret bind
ldhsecret_value y a b e lb ne =
    let sent : ℕ = 5 ^ a % prime in
    let ls : sent < prime = mod-lt (5 ^ a) (omega arith) in
    rw
      (
        read64-push64 sent (omega (arith, ls)),
        e,
        ne→==_false sent 0 (five_power a),
        ne→==_false b 0 ne,
        powmodp_lem sent b (omega (arith, ls)) (λ q. omega (arith, ls, q)) (omega arith) lb,
      )
      (ap (λ u. some (push64 u)) (power_mod (5 ^ a) b))

-- For two lists of eight bytes that stand for numbers `a` and `b` other than 0, each side's
-- `ldhsecret` of what the other side's `ldhexchange` sends is 5 to the power `a * b` modulo `P`, as
-- eight bytes: both sides have the same secret.
pub ldhsecret-ldhexchange :
    (x y : List ℕ) (a b : ℕ)
    → IsBytes x
    → IsBytes y
    → read64 x ≡ some a
    → read64 y ≡ some b
    → a ≢ 0
    → b ≢ 0
    → (bind (ldhexchange x) (λ sent. ldhsecret sent y) ≡ some (push64 (5 ^ (a * b) % prime)))
      × (bind (ldhexchange y) (λ sent. ldhsecret sent x) ≡ some (push64 (5 ^ (a * b) % prime)))
unfolding bind
ldhsecret-ldhexchange x y a b bx by_ ex ey na nb =
    let la : a < 2 ^ 64 = read64-lt x a bx ex in
    let lb : b < 2 ^ 64 = read64-lt y b by_ ey in
    (
      rw (ldhexchange_value x a ex la na)
          (ldhsecret_value y a b ey lb nb ∙ ap (λ u. some (push64 (u % prime))) (power_mul 5 a b)),
      rw (ldhexchange_value y b ey lb nb) (
          ldhsecret_value x b a ex la na
          ∙ ap (λ u. some (push64 (u % prime))) (power_mul 5 b a ∙ ap (λ u. 5 ^ u) (mul_comm b a))),
    )
