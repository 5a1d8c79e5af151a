-- ===== src/Crypt/Md5/Sum.antt =====
-- `digest_md5` and `lhmac64_md5` of lualib-src/lua-crypt.cpp against the MD5 sum of RFC 1321.
use fengnet.Base.{
  ℕ, zero, suc, ◌+◌, ◌*◌, ◌%◌, ◌^◌, bit_and, bit_or, bit_xor, Option, some, List, [], ◌∷◌, ◌++◌,
  length, take, drop, get_or, ltb, Bool-cases, inl, inr, if◌then◌else◌, ◌≡◌, refl, ap, ap₂, sym,
  ◌∙◌, and_ones, or_fields, xor-shift, xor_mod, arith,
}
use mathlib.Core.Option.{bind}
use fengnet.Crypt.Bytes.{IsBytes, AreBytes, ListOfEight, eight, list_of_eight}
use fengnet.Crypt.Des.{shl, shr}
use fengnet.Crypt.Dh.{read_word}
use fengnet.Crypt.Md5.{
  Md5State, sines, shifts, left_rotate, complement, mix, md5_turn, md5_loop, md5_start, digest_md5,
  hmac_words, hmac_md5, read_words, word_bytes, pushqword, lhmac64_md5, xor_loop, lxor_str,
}
use fengnet.Crypt.Md5.Reference.{
  Mixing, mix_f, mix_g, mix_h, mix_i, Operation, operations, operate, operate_all, Words, word_of,
  words_of, bytes_of, padded_message, start, sum_of, md5_sum,
}

-- Turn `i` of the code as an operation.
abbrev operation_at : ℕ → Operation
operation_at i =
    let shape : Mixing × ℕ =
      if ltb i 16
      then (mix_f, i)
      else if ltb i 32
      then (mix_g, (5 * i + 1) % 16)
      else if ltb i 48
      then (mix_h, (3 * i + 5) % 16)
      else (mix_i, 7 * i % 16) in
    record {
      function = shape.0;
      word = shape.1;
      shift = get_or shifts i 0;
      constant = get_or sines i 0;
    }

abbrev words : Md5State → Words
words s = record { a = s.a; b = s.b; c = s.c; d = s.d }

turn_lem :
    (w : List ℕ) (i : ℕ) (s : Md5State)
    → words (md5_turn w i s) ≡ operate w (operation_at i) (words s)
unfolding md5_turn mix left_rotate complement
turn_lem w i s = elim (Bool-cases (ltb i 16)) [
  | inl one ↦ rw one refl
  | inr e ↦ elim (Bool-cases (ltb i 32)) [
    | inl two ↦ rw (e, two) refl
    | inr e' ↦ elim (Bool-cases (ltb i 48)) [
      | inl three ↦ rw (e, e', three) refl
      | inr four ↦ rw (e, e', four) refl
    ]
  ]
]

-- The operations of some turns from turn `i` on.
abbrev turns_from : ℕ → ℕ → List Operation
turns_from zero i = []
turns_from (suc turns) i = operation_at i ∷ turns_from turns (i + 1)

loop_lem :
    (turns : ℕ) (w : List ℕ) (i : ℕ) (s : Md5State)
    → words (md5_loop turns w i s) ≡ operate_all w (turns_from turns i) (words s)
unfolding md5_loop
loop_lem zero w i s = refl
loop_lem (suc turns) w i s =
    loop_lem turns w (i + 1) (md5_turn w i s)
    ∙ ap (operate_all w (turns_from turns (i + 1))) (turn_lem w i s)

turns-operations : turns_from 64 0 ≡ operations
turns-operations = refl

digest-operations : (w : List ℕ) → words (digest_md5 w) ≡ operate_all w operations start
unfolding digest_md5
digest-operations w = loop_lem 64 w 0 md5_start ∙ ap (λ os. operate_all w os start) turns-operations

-- The bytes and words of the code are those of the reference.
word_bytes-bytes_of : (n : ℕ) → word_bytes n ≡ bytes_of n
unfolding word_bytes
word_bytes-bytes_of n =
    rw (and_ones 8 n, and_ones 8 (shr n 8), and_ones 8 (shr n 16), and_ones 8 (shr n 24)) refl

word_lem :
    (p q r s : ℕ)
    → AreBytes p q r s
    → bit_or (bit_or (bit_or p (shl q 8)) (shl r 16)) (shl s 24) ≡ word_of p q r s
word_lem p q r s (lp, lq, lr, ls) =
    let low : bit_or p (shl q 8) ≡ p + q * 256 =
      ap (bit_or p) (omega arith) ∙ or_fields 8 q p (omega arith) ∙ omega arith in
    let mid : bit_or (p + q * 256) (shl r 16) ≡ p + q * 256 + r * 65536 =
      ap (bit_or (p + q * 256)) (omega arith)
      ∙ or_fields 16 r (p + q * 256) (omega arith)
      ∙ omega arith in
    let high : bit_or (p + q * 256 + r * 65536) (shl s 24) ≡ word_of p q r s =
      ap (bit_or (p + q * 256 + r * 65536)) (omega arith)
      ∙ or_fields 24 s (p + q * 256 + r * 65536) (omega arith)
      ∙ omega arith in
    ap (λ u. bit_or (bit_or u (shl r 16)) (shl s 24)) low ∙ ap (λ u. bit_or u (shl s 24)) mid ∙ high

-- The words that the code puts together are those of the padded message.
message_words :
    {x y : List ℕ}
    → ListOfEight x
    → ListOfEight y
    → hmac_words (read_word x 0, read_word x 4) (read_word y 0, read_word y 4)
      ≡ words_of (padded_message (x ++ (y ++ (x ++ (y ++ (x ++ y))))))
unfolding read_word hmac_words
message_words (eight a b c d e f g h low high) (eight a' b' c' d' e' f' g' h' low' high') =
    rw
      (
        word_lem a b c d low,
        word_lem e f g h high,
        word_lem a' b' c' d' low',
        word_lem e' f' g' h' high',
      )
      refl

-- The first half of a sum mixed with the second.
abbrev halves : List ℕ → Option (List ℕ)
halves m = lxor_str (take 8 m) (drop 8 m)

-- A byte of `p ^ q`.
xor_byte :
    (k p q : ℕ)
    → bit_and (shr (bit_xor p q) k) 0xff ≡ bit_xor (bit_and (shr p k) 0xff) (bit_and (shr q k) 0xff)
xor_byte k p q =
    and_ones 8 (shr (bit_xor p q) k)
    ∙ ap (λ u. u % 2 ^ 8) (xor-shift k p q)
    ∙ xor_mod 8 (shr p k) (shr q k)
    ∙ sym (ap₂ bit_xor (and_ones 8 (shr p k)) (and_ones 8 (shr q k)))

low_byte : (p q : ℕ) → bit_and (bit_xor p q) 0xff ≡ bit_xor (bit_and p 0xff) (bit_and q 0xff)
low_byte p q =
    and_ones 8 (bit_xor p q) ∙ xor_mod 8 p q ∙ sym (ap₂ bit_xor (and_ones 8 p) (and_ones 8 q))

-- Two words mixed with two words, byte by byte.
mixed :
    (a b c d : ℕ)
    → some (pushqword (bit_xor a c, bit_xor b d))
      ≡ lxor_str (word_bytes a ++ word_bytes b) (word_bytes c ++ word_bytes d)
unfolding pushqword word_bytes lxor_str xor_loop
mixed a b c d =
    rw
      (
        low_byte a c,
        xor_byte 8 a c,
        xor_byte 16 a c,
        xor_byte 24 a c,
        low_byte b d,
        xor_byte 8 b d,
        xor_byte 16 b d,
        xor_byte 24 b d,
      )
      refl

-- The mixed words of the code are the halves of a sum in the bytes of the reference.
mixed-halves :
    (r : Md5State)
    → some (
        pushqword (
          bit_xor ((r.a + 0x67452301) % 2 ^ 32) ((r.c + 0x98badcfe) % 2 ^ 32),
          bit_xor ((r.b + 0xefcdab89) % 2 ^ 32) ((r.d + 0x10325476) % 2 ^ 32),
        ))
      ≡ halves (sum_of (words r))
unfolding word_bytes
mixed-halves r =
    let a : ℕ = (r.a + 0x67452301) % 2 ^ 32 in
    let b : ℕ = (r.b + 0xefcdab89) % 2 ^ 32 in
    let c : ℕ = (r.c + 0x98badcfe) % 2 ^ 32 in
    let d : ℕ = (r.d + 0x10325476) % 2 ^ 32 in
    mixed a b c d
    ∙ ap₂ lxor_str (ap₂ ◌++◌ (word_bytes-bytes_of a) (word_bytes-bytes_of b))
        (ap₂ ◌++◌ (word_bytes-bytes_of c) (word_bytes-bytes_of d))

-- For `a` and `b` of eight bytes each, `lhmac64_md5` is the first half of the MD5 sum of RFC 1321 of `a..b`
-- three times over, mixed by `lxor_str` with the second half.
pub lhmac64_md5-md5_sum :
    (x y : List ℕ)
    → IsBytes x
    → IsBytes y
    → length x ≡ 8
    → length y ≡ 8
    → lhmac64_md5 x y
      ≡ (let m = md5_sum (x ++ (y ++ (x ++ (y ++ (x ++ y))))) in lxor_str (take 8 m) (drop 8 m))
unfolding lhmac64_md5 read_words hmac_md5 bind
lhmac64_md5-md5_sum x y bx by_ lx ly =
    let w : List ℕ = hmac_words (read_word x 0, read_word x 4) (read_word y 0, read_word y 4) in
    rw (lx, ly)
      (mixed-halves (digest_md5 w)
        ∙ ap (λ r. halves (sum_of r)) (digest-operations w)
        ∙ ap (λ u. halves (sum_of (operate_all u operations start)))
            (message_words (list_of_eight x bx lx) (list_of_eight y by_ ly)))
