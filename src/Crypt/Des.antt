-- ===== src/Crypt/Des.antt =====
-- DES and its two paddings in lualib-src/lua-crypt.cpp. A `uint32_t` is a number, with the wrap of a
-- left shift written out.
pub mod Tables
pub mod RoundTrip
pub mod Whole
pub mod Bytes
pub mod Blocks
pub mod Words
pub mod Padding
use fengnet.Base.{
  ℕ, zero, suc, ◌+◌, ◌-◌, ◌*◌, ◌/◌, ◌%◌, ◌^◌, bit_and, bit_or, bit_xor, Bool, true, false, Option,
  none, some, List, [], ◌∷◌, ◌++◌, leb, ltb, ◌==◌, ◌||◌, if◌then◌else◌, get_or, take, drop,
  replicate, length,
}
use fengnet.Crypt.Des.Tables.{sb1, sb2, sb3, sb4, sb5, sb6, sb7, sb8, left_swap, right_swap}

-- `x << k` and `x >> k` on `uint32_t`.
abbrev pub shl : ℕ → ℕ → ℕ
shl x k = x * 2 ^ k % 2 ^ 32

abbrev pub shr : ℕ → ℕ → ℕ
shr x k = x / 2 ^ k

-- `GET_UINT32`.
unfoldable pub get_uint32 : List ℕ → ℕ → ℕ
get_uint32 b i =
    bit_or
      (bit_or (bit_or (shl (get_or b i 0) 24) (shl (get_or b (i + 1) 0) 16))
        (shl (get_or b (i + 2) 0) 8))
      (get_or b (i + 3) 0)

-- `PUT_UINT32`, as the four bytes.
unfoldable pub put_uint32 : ℕ → List ℕ
put_uint32 n = shr n 24 % 256 ∷ shr n 16 % 256 ∷ shr n 8 % 256 ∷ n % 256 ∷ []

-- `T = ((X >> k) ^ Y) & m; Y ^= T; X ^= (T << k);`
unfoldable pub swap_bits : ℕ → ℕ → ℕ × ℕ → ℕ × ℕ
swap_bits k m (x, y) = let t = bit_and (bit_xor (shr x k) y) m in (bit_xor x (shl t k), bit_xor y t)

-- The same with X and Y exchanged.
unfoldable pub swap_back : ℕ → ℕ → ℕ × ℕ → ℕ × ℕ
swap_back k m (x, y) = let t = bit_and (bit_xor (shr y k) x) m in (bit_xor x t, bit_xor y (shl t k))

-- `T = (X ^ Y) & 0xAAAAAAAA; Y ^= T; X ^= T;`
unfoldable pub mix_bits : ℕ × ℕ → ℕ × ℕ
mix_bits (x, y) = let t = bit_and (bit_xor x y) 0xAAAAAAAA in (bit_xor x t, bit_xor y t)

unfoldable pub rotate_left : ℕ → ℕ
rotate_left x = bit_and (bit_or (shl x 1) (shr x 31)) 0xFFFFFFFF

unfoldable pub rotate_right : ℕ → ℕ
rotate_right x = bit_and (bit_or (shl x 31) (shr x 1)) 0xFFFFFFFF

-- `Y = ((Y << 1) | (Y >> 31)) & 0xFFFFFFFF`, and so on.
abbrev pub left_y : ℕ × ℕ → ℕ × ℕ
left_y s = (s.0, rotate_left s.1)

abbrev pub left_x : ℕ × ℕ → ℕ × ℕ
left_x s = (rotate_left s.0, s.1)

abbrev pub right_y : ℕ × ℕ → ℕ × ℕ
right_y s = (s.0, rotate_right s.1)

abbrev pub right_x : ℕ × ℕ → ℕ × ℕ
right_x s = (rotate_right s.0, s.1)

-- `DES_IP`, line by line.
unfoldable pub des_ip : ℕ × ℕ → ℕ × ℕ
des_ip s = left_x (
    mix_bits (
      left_y (
        swap_back 8 0x00FF00FF
          (swap_back 2 0x33333333 (swap_bits 16 0x0000FFFF (swap_bits 4 0x0F0F0F0F s))))))

-- `DES_FP`, line by line.
unfoldable pub des_fp : ℕ × ℕ → ℕ × ℕ
des_fp s = swap_bits 4 0x0F0F0F0F (
    swap_bits 16 0x0000FFFF
      (swap_back 2 0x33333333 (swap_back 8 0x00FF00FF (right_y (mix_bits (right_x s))))))

-- An entry of a table, by six bits of T.
abbrev pub box : List ℕ → ℕ → ℕ → ℕ
box table t k = get_or table (bit_and (shr t k) 0x3F) 0

unfoldable pub even_boxes : ℕ → ℕ
even_boxes t = bit_xor (bit_xor (bit_xor (box sb8 t 0) (box sb6 t 8)) (box sb4 t 16)) (box sb2 t 24)

unfoldable pub odd_boxes : ℕ → ℕ
odd_boxes t = bit_xor (bit_xor (bit_xor (box sb7 t 0) (box sb5 t 8)) (box sb3 t 16)) (box sb1 t 24)

-- `DES_ROUND(X,Y)` with the two subkeys at `SK`: the new Y.
unfoldable pub des_round : ℕ × ℕ → ℕ → ℕ → ℕ
des_round sk x y =
    let y' = bit_xor y (even_boxes (bit_xor sk.0 x)) in
    bit_xor y' (odd_boxes (bit_xor sk.1 (bit_or (shl x 28) (shr x 4))))

-- The subkeys that a round reads at `SK` = `p`.
abbrev pub subkeys : List ℕ → ℕ → ℕ × ℕ
subkeys sk p = (get_or sk p 0, get_or sk (p + 1) 0)

-- `DES_ROUND( Y, X );  DES_ROUND( X, Y );`, `lines` times.
unfoldable pub des_rounds : ℕ → List ℕ → ℕ → ℕ × ℕ → ℕ × ℕ
des_rounds zero sk p s = s
des_rounds (suc lines) sk p (x, y) =
    let x' = des_round (subkeys sk p) y x in
    let y' = des_round (subkeys sk (p + 2)) x' y in des_rounds lines sk (p + 4) (x', y')

-- `des_crypt`.
unfoldable pub des_crypt : List ℕ → List ℕ → List ℕ
des_crypt sk input =
    let s = des_rounds 8 sk 0 (des_ip (get_uint32 input 0, get_uint32 input 4)) in
    let t = des_fp (s.1, s.0) in put_uint32 t.0 ++ put_uint32 t.1

-- The two halves of the key, once the 64 bits are permuted.
unfoldable pub permuted_choice : ℕ × ℕ → ℕ × ℕ
permuted_choice (x, y) =
    let t = bit_and (bit_xor (shr y 4) x) 0x0F0F0F0F in
    let x = bit_xor x t in
    let y = bit_xor y (shl t 4) in
    let t = bit_and (bit_xor y x) 0x10101010 in
    let x = bit_xor x t in
    let y = bit_xor y t in
    let lh : ℕ → ℕ = λ k. get_or left_swap (bit_and (shr x k) 0xF) 0 in
    let rh : ℕ → ℕ = λ k. get_or right_swap (bit_and (shr y k) 0xF) 0 in
    let x' =
      bit_or
        (bit_or
          (bit_or
            (bit_or (bit_or (bit_or (bit_or (shl (lh 0) 3) (shl (lh 8) 2)) (shl (lh 16) 1)) (lh 24))
              (shl (lh 5) 7))
            (shl (lh 13) 6))
          (shl (lh 21) 5))
        (shl (lh 29) 4) in
    let y' =
      bit_or
        (bit_or
          (bit_or
            (bit_or (bit_or (bit_or (bit_or (shl (rh 1) 3) (shl (rh 9) 2)) (shl (rh 17) 1)) (rh 25))
              (shl (rh 4) 7))
            (shl (rh 12) 6))
          (shl (rh 20) 5))
        (shl (rh 28) 4) in
    (bit_and x' 0x0FFFFFFF, bit_and y' 0x0FFFFFFF)

-- A half rotated left by `k` of its 28 bits.
unfoldable pub rotate_half : ℕ → ℕ → ℕ
rotate_half k x = bit_and (bit_or (shl x k) (shr x (28 - k))) 0x0FFFFFFF

unfoldable pub any_of : List ℕ → ℕ
any_of [] = 0
any_of (x ∷ []) = x
any_of (x ∷ y ∷ xs) = any_of (bit_or x y ∷ xs)

-- The two subkeys of a round of the key schedule.
unfoldable pub first_subkey : ℕ → ℕ → ℕ
first_subkey x y = any_of (
    bit_and (shl x 4) 0x24000000
    ∷ bit_and (shl x 28) 0x10000000
    ∷ bit_and (shl x 14) 0x08000000
    ∷ bit_and (shl x 18) 0x02080000
    ∷ bit_and (shl x 6) 0x01000000
    ∷ bit_and (shl x 9) 0x00200000
    ∷ bit_and (shr x 1) 0x00100000
    ∷ bit_and (shl x 10) 0x00040000
    ∷ bit_and (shl x 2) 0x00020000
    ∷ bit_and (shr x 10) 0x00010000
    ∷ bit_and (shr y 13) 0x00002000
    ∷ bit_and (shr y 4) 0x00001000
    ∷ bit_and (shl y 6) 0x00000800
    ∷ bit_and (shr y 1) 0x00000400
    ∷ bit_and (shr y 14) 0x00000200
    ∷ bit_and y 0x00000100
    ∷ bit_and (shr y 5) 0x00000020
    ∷ bit_and (shr y 10) 0x00000010
    ∷ bit_and (shr y 3) 0x00000008
    ∷ bit_and (shr y 18) 0x00000004
    ∷ bit_and (shr y 26) 0x00000002
    ∷ bit_and (shr y 24) 0x00000001
    ∷ [])

unfoldable pub second_subkey : ℕ → ℕ → ℕ
second_subkey x y = any_of (
    bit_and (shl x 15) 0x20000000
    ∷ bit_and (shl x 17) 0x10000000
    ∷ bit_and (shl x 10) 0x08000000
    ∷ bit_and (shl x 22) 0x04000000
    ∷ bit_and (shr x 2) 0x02000000
    ∷ bit_and (shl x 1) 0x01000000
    ∷ bit_and (shl x 16) 0x00200000
    ∷ bit_and (shl x 11) 0x00100000
    ∷ bit_and (shl x 3) 0x00080000
    ∷ bit_and (shr x 6) 0x00040000
    ∷ bit_and (shl x 15) 0x00020000
    ∷ bit_and (shr x 4) 0x00010000
    ∷ bit_and (shr y 2) 0x00002000
    ∷ bit_and (shl y 8) 0x00001000
    ∷ bit_and (shr y 14) 0x00000808
    ∷ bit_and (shr y 9) 0x00000400
    ∷ bit_and y 0x00000200
    ∷ bit_and (shl y 7) 0x00000100
    ∷ bit_and (shr y 7) 0x00000020
    ∷ bit_and (shr y 3) 0x00000011
    ∷ bit_and (shl y 2) 0x00000004
    ∷ bit_and (shr y 21) 0x00000002
    ∷ [])

-- The loop of `des_main_ks` from round `i` on.
unfoldable pub key_rounds : ℕ → ℕ → ℕ × ℕ → List ℕ
key_rounds zero i s = []
key_rounds (suc rounds) i (x, y) =
    let k = if ltb i 2 || i == 8 || i == 15 then 1 else 2 in
    let x' = rotate_half k x in
    let y' = rotate_half k y in
    first_subkey x' y' ∷ second_subkey x' y' ∷ key_rounds rounds (i + 1) (x', y')

-- `des_main_ks`.
unfoldable pub des_main_ks : List ℕ → List ℕ
des_main_ks key = key_rounds 16 0 (permuted_choice (get_uint32 key 0, get_uint32 key 4))
