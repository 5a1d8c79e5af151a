-- ===== src/Crypt/Tests.antt =====
-- Runs of lualib-src/lua-crypt.cpp on concrete inputs.
use fengnet.Base.{◌++◌, take, drop, ℕ, ◌*◌, ◌%◌, ◌^◌, some, List, [], ◌∷◌, ◌≡◌, refl, arith}
use mathlib.Core.Option.{bind}
use fengnet.Crypt.Bytes.{IsBytes}
use fengnet.Crypt.Des.Padding.{ldesencode, ldesdecode}
use fengnet.Crypt.Des.RoundTrip.{ldesdecode-ldesencode}
use fengnet.Crypt.Des.{
  des_crypt, des_main_ks, get_uint32, put_uint32, des_ip, des_fp, des_rounds, des_round, even_boxes,
  odd_boxes, swap_bits, swap_back, mix_bits, rotate_left, rotate_right, key_rounds, permuted_choice,
  first_subkey, second_subkey, any_of, rotate_half,
}
use fengnet.Crypt.Des.Tables.{sb1, sb2, sb3, sb4, sb5, sb6, sb7, sb8, left_swap, right_swap}
use fengnet.Crypt.Md5.{lhmac64_md5, lxor_str}
use fengnet.Crypt.Md5.Reference.{md5_sum}
use fengnet.Crypt.Md5.Sum.{lhmac64_md5-md5_sum}
use fengnet.Crypt.Hex.{ltohex, lfromhex}
use fengnet.Crypt.Hex.RoundTrip.{lfromhex-ltohex, lfromhex-accepted, accepted, readable}
use fengnet.Crypt.Base64.{lb64encode, lb64decode}
use fengnet.Crypt.Base64.RoundTrip.{lb64decode-lb64encode}
use fengnet.Crypt.Dh.{prime, read64, read_word, push64, ldhsecret, ldhexchange}
use fengnet.Crypt.Dh.Exchange.{ldhsecret-ldhexchange}

abbrev three_bytes_in : List ℕ
three_bytes_in = 77 ∷ 0 ∷ 255 ∷ []

three_bytes_in-IsBytes : IsBytes three_bytes_in
three_bytes_in-IsBytes = (omega arith, (omega arith, (omega arith, tt)))

abbrev des_test_key : List ℕ
des_test_key = 1 ∷ 35 ∷ 69 ∷ 103 ∷ 137 ∷ 171 ∷ 205 ∷ 239 ∷ []

ldesdecode-ldesencode_example :
    bind (ldesencode des_test_key three_bytes_in 1) (λ code. ldesdecode des_test_key code 1)
    ≡ some three_bytes_in
ldesdecode-ldesencode_example =
    ldesdecode-ldesencode des_test_key three_bytes_in 1 refl three_bytes_in-IsBytes (omega arith)

lfromhex-ltohex_example : lfromhex (ltohex three_bytes_in) ≡ some three_bytes_in
lfromhex-ltohex_example = lfromhex-ltohex three_bytes_in three_bytes_in-IsBytes

lfromhex-accepted_example : accepted (lfromhex three_bytes_in) ≡ readable three_bytes_in
lfromhex-accepted_example = lfromhex-accepted three_bytes_in three_bytes_in-IsBytes

lb64decode-lb64encode_example : lb64decode (lb64encode three_bytes_in) ≡ some three_bytes_in
lb64decode-lb64encode_example = lb64decode-lb64encode three_bytes_in three_bytes_in-IsBytes

abbrev side_a : List ℕ
side_a = 7 ∷ 1 ∷ 0 ∷ 0 ∷ 0 ∷ 0 ∷ 0 ∷ 0 ∷ []

abbrev side_b : List ℕ
side_b = 9 ∷ 0 ∷ 2 ∷ 0 ∷ 0 ∷ 0 ∷ 0 ∷ 0 ∷ []

side_a-IsBytes : IsBytes side_a
side_a-IsBytes = (
  omega arith,
  (
    omega arith,
    (omega arith, (omega arith, (omega arith, (omega arith, (omega arith, (omega arith, tt)))))),
  ),
)

side_b-IsBytes : IsBytes side_b
side_b-IsBytes = (
  omega arith,
  (
    omega arith,
    (omega arith, (omega arith, (omega arith, (omega arith, (omega arith, (omega arith, tt)))))),
  ),
)

read_a : read64 side_a ≡ some 263
unfolding read64 read_word
read_a = refl

read_b : read64 side_b ≡ some 131081
unfolding read64 read_word
read_b = refl

ldhsecret-ldhexchange_example :
    (bind (ldhexchange side_a) (λ sent. ldhsecret sent side_b)
      ≡ some (push64 (5 ^ (263 * 131081) % prime)))
    × (bind (ldhexchange side_b) (λ sent. ldhsecret sent side_a)
        ≡ some (push64 (5 ^ (263 * 131081) % prime)))
ldhsecret-ldhexchange_example =
    ldhsecret-ldhexchange side_a side_b 263 131081 side_a-IsBytes side_b-IsBytes read_a read_b
      (λ e. omega arith) (λ e. omega arith)

-- The classic vector of DES: the block "Now is t" under the key 0123456789abcdef.
abbrev plain_block : List ℕ
plain_block = 0x4e ∷ 0x6f ∷ 0x77 ∷ 0x20 ∷ 0x69 ∷ 0x73 ∷ 0x20 ∷ 0x74 ∷ []

des_vector :
    des_crypt (des_main_ks des_test_key) plain_block
    ≡ 0x3f ∷ 0xa4 ∷ 0x0e ∷ 0x8a ∷ 0x98 ∷ 0x4d ∷ 0x48 ∷ 0x15 ∷ []
unfolding des_crypt des_main_ks get_uint32 put_uint32 des_ip des_fp des_rounds des_round even_boxes
    odd_boxes swap_bits swap_back mix_bits rotate_left rotate_right key_rounds permuted_choice
    first_subkey second_subkey any_of rotate_half sb1 sb2 sb3 sb4 sb5 sb6 sb7 sb8 left_swap
    right_swap
des_vector = refl

lhmac64_md5-md5_sum_example : lhmac64_md5 side_a side_b ≡ (
    let m = md5_sum (side_a ++ (side_b ++ (side_a ++ (side_b ++ (side_a ++ side_b))))) in
    lxor_str (take 8 m) (drop 8 m))
lhmac64_md5-md5_sum_example =
    lhmac64_md5-md5_sum side_a side_b side_a-IsBytes side_b-IsBytes refl refl

-- The vector "abc" of RFC 1321.
abc_sum :
    md5_sum (97 ∷ 98 ∷ 99 ∷ [])
    ≡ 0x90 ∷ 0x01 ∷ 0x50 ∷ 0x98 ∷ 0x3c ∷ 0xd2 ∷ 0x4f ∷ 0xb0 ∷ 0xd6 ∷ 0x96 ∷ 0x3f ∷ 0x7d ∷ 0x28
      ∷ 0xe1 ∷ 0x7f ∷ 0x72 ∷ []
abc_sum = refl
