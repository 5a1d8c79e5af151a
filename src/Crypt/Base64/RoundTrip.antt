-- ===== src/Crypt/Base64/RoundTrip.antt =====
-- `lb64decode` of lualib-src/lua-crypt.cpp undoes `lb64encode`.
use fengnet.Base.{
  ℕ, zero, suc, ◌+◌, ◌*◌, ◌/◌, ◌%◌, ◌^◌, ◌<◌, ◌≤◌, bit_and, bit_or, some, List, [], ◌∷◌, ◌++◌, ◌≡◌,
  refl, ap, ap₂, ◌∙◌, arith, and_ones, fields_or, length,
}
use fengnet.Crypt.Bytes.{IsBytes}
use fengnet.Crypt.Des.{shl, shr}
use fengnet.Crypt.Base64.{
  encoding, encode_three, lb64encode, Index, pad, six, gather, is_pad, number, pads, decode_group,
  put_group, three_bytes, two_bytes, decode_loop, lb64decode,
}
use fengnet.Crypt.Base64.Groups.{
  b64index-encoding, equals_sign, is_foreign, gather_four, three_bytes_lem, encode_three_lem,
}

-- One turn of the loop.
turn :
    (fuel c : ℕ) (text rest : List ℕ) (group : List Index) (bytes more : List ℕ)
    → gather (c ∷ text) 4 ≡ (group, rest)
    → decode_group group ≡ some bytes
    → decode_loop fuel rest ≡ some more
    → decode_loop (suc fuel) (c ∷ text) ≡ some (bytes ++ more)
unfolding decode_loop put_group
turn fuel c text rest group bytes more g d l =
    ap (λ u. put_group (decode_group u.0) (decode_loop fuel u.1)) g ∙ ap₂ put_group d l

decode_end : (fuel : ℕ) → decode_loop fuel [] ≡ some []
unfolding decode_loop
decode_end zero = refl
decode_end (suc fuel) = refl

full_group :
    (p q r s : ℕ) → decode_group (six p ∷ six q ∷ six r ∷ six s ∷ []) ≡ some (three_bytes p q r s)
unfolding decode_group pads is_pad number
full_group p q r s = refl

two_group :
    (a b : ℕ)
    → a < 256
    → b < 256
    → decode_group (six (a / 4) ∷ six (a % 4 * 16 + b / 16) ∷ six (b % 16 * 4) ∷ pad ∷ [])
      ≡ some (a ∷ b ∷ [])
unfolding decode_group pads is_pad number two_bytes
two_group a b la lb =
    let p : ℕ = a / 4 in
    let q : ℕ = a % 4 * 16 + b / 16 in
    let r : ℕ = b % 16 * 4 in
    let v : ℕ = a * 2 ^ 8 + b in
    let low : bit_and r 3 ≡ 0 = and_ones 2 r ∙ omega arith in
    let ep : shl p 10 ≡ p * 2 ^ 10 = omega arith in
    let eq : shl q 4 ≡ q * 2 ^ 4 = omega arith in
    let first : bit_or (p * 2 ^ 10) (q * 2 ^ 4) ≡ (p * 64 + q) * 2 ^ 4 =
      omega (arith, fields_or 10 p (q * 2 ^ 4) (omega arith)) in
    let joined : bit_or (bit_or (shl p 10) (shl q 4)) (shr r 2) ≡ v =
      ap₂ (λ x y. bit_or (bit_or x y) (shr r 2)) ep eq
      ∙ ap (λ x. bit_or x (shr r 2)) first
      ∙ fields_or 4 (p * 64 + q) (shr r 2) (omega arith)
      ∙ omega arith in
    let h : shr v 8 % 256 ≡ a = omega arith in
    let l : bit_and v 0xff ≡ b = and_ones 8 v ∙ omega arith in
    rw low (
      ap (λ x. some (shr x 8 % 256 ∷ bit_and x 0xff ∷ [])) joined
      ∙ ap₂ (λ x y. some (x ∷ y ∷ [])) h l)

one_group :
    (a : ℕ)
    → a < 256
    → decode_group (six (a / 4) ∷ six (a % 4 * 16) ∷ pad ∷ pad ∷ []) ≡ some (a ∷ [])
unfolding decode_group pads is_pad number
one_group a la =
    let q : ℕ = a % 4 * 16 in
    let low : bit_and q 0xf ≡ 0 = and_ones 4 q ∙ omega arith in
    let ep : shl (a / 4) 2 ≡ a / 4 * 2 ^ 2 = omega arith in
    let e : bit_or (shl (a / 4) 2) (shr q 4) % 256 ≡ a =
      ap (λ x. bit_or x (shr q 4) % 256) ep
      ∙ ap (λ x. x % 256) (fields_or 2 (a / 4) (shr q 4) (omega arith))
      ∙ omega arith in
    rw low (ap (λ x. some (x ∷ [])) e)

encode_two_lem :
    (a b : ℕ)
    → a < 256
    → b < 256
    → lb64encode (a ∷ b ∷ [])
      ≡ encoding (a / 4) ∷ encoding (a % 4 * 16 + b / 16) ∷ encoding (b % 16 * 4) ∷ 61 ∷ []
unfolding lb64encode
encode_two_lem a b la lb =
    let v : ℕ = a * 2 ^ 8 + b in
    let ea : shl a 8 ≡ a * 2 ^ 8 = omega arith in
    let joined : bit_or (shl a 8) b ≡ v = ap (λ x. bit_or x b) ea ∙ fields_or 8 a b lb in
    let e0 : shr v 10 ≡ a / 4 = omega arith in
    let e1 : bit_and (shr v 4) 0x3f ≡ a % 4 * 16 + b / 16 = and_ones 6 (shr v 4) ∙ omega arith in
    let low : bit_and v 0xf ≡ b % 16 = and_ones 4 v ∙ omega arith in
    let e2 : shl (bit_and v 0xf) 2 ≡ b % 16 * 4 = ap (λ x. shl x 2) low ∙ omega arith in
    ap
      (λ x.
        encoding (shr x 10)
        ∷ encoding (bit_and (shr x 4) 0x3f)
        ∷ encoding (shl (bit_and x 0xf) 2)
        ∷ 61
        ∷ [])
      joined
    ∙ ap₂ (λ x y. encoding x ∷ encoding y ∷ encoding (shl (bit_and v 0xf) 2) ∷ 61 ∷ []) e0 e1
    ∙ ap (λ x. encoding (a / 4) ∷ encoding (a % 4 * 16 + b / 16) ∷ encoding x ∷ 61 ∷ []) e2

encode_one_lem :
    (a : ℕ)
    → a < 256
    → lb64encode (a ∷ []) ≡ encoding (a / 4) ∷ encoding (a % 4 * 16) ∷ 61 ∷ 61 ∷ []
unfolding lb64encode
encode_one_lem a la =
    let low : bit_and a 3 ≡ a % 4 = and_ones 2 a in
    let e : shl (bit_and a 3) 4 ≡ a % 4 * 16 = ap (λ x. shl x 4) low ∙ omega arith in
    let e0 : shr a 2 ≡ a / 4 = refl in ap₂ (λ x y. encoding x ∷ encoding y ∷ 61 ∷ 61 ∷ []) e0 e

encode_more_lem :
    (a b c : ℕ) (text : List ℕ)
    → lb64encode (a ∷ b ∷ c ∷ text) ≡ encode_three a b c ++ lb64encode text
unfolding lb64encode
encode_more_lem a b c text = refl

decoded :
    (text : List ℕ) (fuel : ℕ)
    → IsBytes text
    → length text ≤ fuel
    → decode_loop fuel (lb64encode text) ≡ some text
decoded [] fuel bs le = unfold lb64encode in decode_end fuel
decoded (a ∷ []) zero bs le = absurd (omega arith)
decoded (a ∷ []) (suc fuel) (la, _) le =
    ap (decode_loop (suc fuel)) (encode_one_lem a la)
    ∙ turn fuel _ _ [] _ (a ∷ []) []
        (gather_four _ _ _ _ _ _ _ _ []
          (
            b64index-encoding (a / 4) (omega arith),
            b64index-encoding (a % 4 * 16) (omega arith),
            equals_sign,
            equals_sign,
          )
          (unfold is_foreign in (refl, refl, refl, refl)))
        (one_group a la) (decode_end fuel)
decoded (a ∷ b ∷ []) zero bs le = absurd (omega arith)
decoded (a ∷ b ∷ []) (suc fuel) (la, (lb, _)) le =
    ap (decode_loop (suc fuel)) (encode_two_lem a b la lb)
    ∙ turn fuel _ _ [] _ (a ∷ b ∷ []) []
        (gather_four _ _ _ _ _ _ _ _ []
          (
            b64index-encoding (a / 4) (omega arith),
            b64index-encoding (a % 4 * 16 + b / 16) (omega arith),
            b64index-encoding (b % 16 * 4) (omega arith),
            equals_sign,
          )
          (unfold is_foreign in (refl, refl, refl, refl)))
        (two_group a b la lb) (decode_end fuel)
decoded (a ∷ b ∷ c ∷ text) zero bs le = absurd (omega arith)
decoded (a ∷ b ∷ c ∷ text) (suc fuel) (la, (lb, (lc, bs))) le =
    ap (decode_loop (suc fuel)) (
      encode_more_lem a b c text
      ∙ ap (λ u. u ++ lb64encode text) (encode_three_lem a b c (la, lb, lc, omega arith)))
    ∙ turn fuel _ _ (lb64encode text) _ (a ∷ b ∷ c ∷ []) text
        (gather_four _ _ _ _ _ _ _ _ (lb64encode text)
          (
            b64index-encoding (a / 4) (omega arith),
            b64index-encoding (a % 4 * 16 + b / 16) (omega arith),
            b64index-encoding (b % 16 * 4 + c / 64) (omega arith),
            b64index-encoding (c % 64) (omega arith),
          )
          (unfold is_foreign in (refl, refl, refl, refl)))
        (full_group _ _ _ _ ∙ ap some (three_bytes_lem a b c (la, lb, lc, omega arith)))
        (decoded text fuel bs (omega arith))

-- A code is at least as long as its text.
length-lb64encode : (text : List ℕ) → length text ≤ length (lb64encode text)
unfolding lb64encode encode_three
length-lb64encode [] = omega arith
length-lb64encode (a ∷ []) = omega arith
length-lb64encode (a ∷ b ∷ []) = omega arith
length-lb64encode (a ∷ b ∷ c ∷ text) = omega (arith, length-lb64encode text)

-- What `lb64encode` writes for a list of bytes, `lb64decode` accepts and reads as those bytes.
pub lb64decode-lb64encode :
    (text : List ℕ) → IsBytes text → lb64decode (lb64encode text) ≡ some text
unfolding lb64decode
lb64decode-lb64encode text bs = decoded text (length (lb64encode text)) bs (length-lb64encode text)
