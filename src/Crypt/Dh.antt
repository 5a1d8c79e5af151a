-- ===== src/Crypt/Dh.antt =====
-- The key exchange of lualib-src/lua-crypt.cpp: `mul_mod_p`, `pow_mod_p`, `powmodp`, `ldhexchange`
-- and `ldhsecret`. A `uint64_t` is a number, with the wraps of `a * 2` written out; `none` is a Lua
-- error.
pub mod Product
pub mod Exchange
pub mod Power
use fengnet.Base.{
  ℕ, zero, suc, ◌+◌, ◌-◌, ◌*◌, ◌/◌, ◌%◌, ◌^◌, bit_or, Option, none, some, List, [], ◌∷◌, ltb, leb,
  ◌==◌, ◌||◌, if◌then◌else◌, get_or, length, map, bit_and,
}
use mathlib.Core.Option
use mathlib.Core.Option.{bind}
use fengnet.Crypt.Des.{shl}

-- `P`.
abbrev pub prime : ℕ
prime = 0xffffffffffffffc5

-- `m` after `if(b&1) { .. }`.
unfoldable pub add_mod_p : ℕ → ℕ → ℕ
add_mod_p m a = let t = prime - a in if leb t m then m - t else m + a

-- `a` after `if (a >= P - a) { .. }`.
unfoldable pub double_mod_p : ℕ → ℕ
double_mod_p a =
    if leb (prime - a) a then (a * 2 % 2 ^ 64 + (2 ^ 64 - prime)) % 2 ^ 64 else a * 2 % 2 ^ 64

-- The loop of `mul_mod_p`, with fuel.
unfoldable pub mul_loop : ℕ → ℕ → ℕ → ℕ → ℕ
mul_loop zero a b m = m
mul_loop (suc fuel) a b m =
    let m' = if b % 2 == 1 then add_mod_p m a else m in
    let rest = mul_loop fuel (double_mod_p a) (b / 2) m' in if b == 0 then m else rest

-- `mul_mod_p`; the loop ends within as many turns as `b` has bits.
unfoldable pub mul_mod_p : ℕ → ℕ → ℕ
mul_mod_p a b = mul_loop 65 a b 0

-- The rest of `pow_mod_p` after its call of itself.
unfoldable pub pow_step : ℕ → ℕ → Option ℕ → Option ℕ
pow_step a b none = none
pow_step a b (some t) =
    let square = mul_mod_p t t in some (if b % 2 == 1 then mul_mod_p square a else square)

-- `pow_mod_p`, with fuel; `none` for `b` = 0, where the code never returns.
unfoldable pub pow_loop : ℕ → ℕ → ℕ → Option ℕ
pow_loop zero a b = none
pow_loop (suc fuel) a b =
    let half = pow_loop fuel a (b / 2) in if b == 1 then some a else pow_step a b half

-- `powmodp`; an exponent of 64 bits is halved less than 64 times.
unfoldable pub powmodp : ℕ → ℕ → Option ℕ
powmodp a b = pow_loop 64 (if ltb prime a then a % prime else a) b

-- `x[0] | x[1]<<8 | x[2]<<16 | x[3]<<24` from `x[i]` on.
unfoldable pub read_word : List ℕ → ℕ → ℕ
read_word x i =
    bit_or
      (bit_or (bit_or (get_or x i 0) (shl (get_or x (i + 1) 0) 8)) (shl (get_or x (i + 2) 0) 16))
      (shl (get_or x (i + 3) 0) 24)

-- Eight bytes as a `uint64_t`, a check of their count included.
unfoldable pub read64 : List ℕ → Option ℕ
read64 x =
    if length x == 8 then some (bit_or (read_word x 0) (read_word x 4 * 2 ^ 32 % 2 ^ 64)) else none

-- `push64`.
unfoldable pub push64 : ℕ → List ℕ
push64 r = map (λ k. bit_and (r / 2 ^ k) 0xff) (0 ∷ 8 ∷ 16 ∷ 24 ∷ 32 ∷ 40 ∷ 48 ∷ 56 ∷ [])

-- `ldhsecret`.
unfoldable pub ldhsecret : List ℕ → List ℕ → Option (List ℕ)
ldhsecret x y = bind (read64 x) (λ xx.
    bind (read64 y) (λ yy. if xx == 0 || yy == 0 then none else Option.map push64 (powmodp xx yy)))

-- `ldhexchange`, with `G` = 5.
unfoldable pub ldhexchange : List ℕ → Option (List ℕ)
ldhexchange x =
    bind (read64 x) (λ x64. if x64 == 0 then none else Option.map push64 (powmodp 5 x64))
