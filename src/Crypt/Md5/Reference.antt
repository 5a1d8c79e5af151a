-- ===== src/Crypt/Md5/Reference.antt =====
-- Reference: the MD5 sum of RFC 1321 of a message of one block, for `digest_md5` of
-- lualib-src/lua-crypt.cpp. It shares no table, no word and no turn with the model of the code.
use fengnet.Base.{
  ℕ, ◌+◌, ◌-◌, ◌*◌, ◌/◌, ◌%◌, ◌^◌, bit_and, bit_or, bit_xor, List, [], ◌∷◌, ◌++◌, get_or, length,
  replicate,
}

-- The functions F, G, H and I.
pub data Mixing : Type 0 where
  mix_f mix_g mix_h mix_i : Mixing

abbrev inverted : ℕ → ℕ
inverted x = 0xffffffff - x

abbrev mixing : Mixing → ℕ → ℕ → ℕ → ℕ
mixing mix_f x y z = bit_or (bit_and x y) (bit_and (inverted x) z)
mixing mix_g x y z = bit_or (bit_and z x) (bit_and (inverted z) y)
mixing mix_h x y z = bit_xor (bit_xor x y) z
mixing mix_i x y z = bit_xor y (bit_or x (inverted z))

-- An operation `[abcd k s i]` of a round: `k` is its word, `s` its shift and `T[i]` its constant.
pub record Operation : Type 0 where
  pub function : Mixing
  pub word : ℕ
  pub shift : ℕ
  pub constant : ℕ

-- A round, with its words, the shifts that are used in turn, and its constants.
abbrev round : Mixing → List ℕ → ℕ → ℕ → ℕ → ℕ → List ℕ → List Operation
round f (k ∷ ks) p q r s (t ∷ ts) =
    record { function = f; word = k; shift = p; constant = t } ∷ round f ks q r s p ts
round f [] p q r s ts = []
round f (k ∷ ks) p q r s [] = []

-- The four rounds. The constants are the whole parts of 2^32 times `|sin i|`, for `i` from 1 to 64.
abbrev pub operations : List Operation
operations =
    round mix_f (0 ∷ 1 ∷ 2 ∷ 3 ∷ 4 ∷ 5 ∷ 6 ∷ 7 ∷ 8 ∷ 9 ∷ 10 ∷ 11 ∷ 12 ∷ 13 ∷ 14 ∷ 15 ∷ []) 7 12 17
      22
      (3614090360 ∷ 3905402710 ∷ 606105819 ∷ 3250441966 ∷ 4118548399 ∷ 1200080426 ∷ 2821735955
        ∷ 4249261313 ∷ 1770035416 ∷ 2336552879 ∷ 4294925233 ∷ 2304563134 ∷ 1804603682 ∷ 4254626195
        ∷ 2792965006 ∷ 1236535329 ∷ [])
    ++ (round mix_g (1 ∷ 6 ∷ 11 ∷ 0 ∷ 5 ∷ 10 ∷ 15 ∷ 4 ∷ 9 ∷ 14 ∷ 3 ∷ 8 ∷ 13 ∷ 2 ∷ 7 ∷ 12 ∷ []) 5 9
          14 20
          (4129170786 ∷ 3225465664 ∷ 643717713 ∷ 3921069994 ∷ 3593408605 ∷ 38016083 ∷ 3634488961
            ∷ 3889429448 ∷ 568446438 ∷ 3275163606 ∷ 4107603335 ∷ 1163531501 ∷ 2850285829
            ∷ 4243563512 ∷ 1735328473 ∷ 2368359562 ∷ [])
        ++ (round mix_h (5 ∷ 8 ∷ 11 ∷ 14 ∷ 1 ∷ 4 ∷ 7 ∷ 10 ∷ 13 ∷ 0 ∷ 3 ∷ 6 ∷ 9 ∷ 12 ∷ 15 ∷ 2 ∷ []) 4
              11 16 23
              (4294588738 ∷ 2272392833 ∷ 1839030562 ∷ 4259657740 ∷ 2763975236 ∷ 1272893353
                ∷ 4139469664 ∷ 3200236656 ∷ 681279174 ∷ 3936430074 ∷ 3572445317 ∷ 76029189
                ∷ 3654602809 ∷ 3873151461 ∷ 530742520 ∷ 3299628645 ∷ [])
            ++ round mix_i
                (0 ∷ 7 ∷ 14 ∷ 5 ∷ 12 ∷ 3 ∷ 10 ∷ 1 ∷ 8 ∷ 15 ∷ 6 ∷ 13 ∷ 4 ∷ 11 ∷ 2 ∷ 9 ∷ []) 6 10 15
                21
                (4096336452 ∷ 1126891415 ∷ 2878612391 ∷ 4237533241 ∷ 1700485571 ∷ 2399980690
                  ∷ 4293915773 ∷ 2240044497 ∷ 1873313359 ∷ 4264355552 ∷ 2734768916 ∷ 1309151649
                  ∷ 4149444226 ∷ 3174756917 ∷ 718787259 ∷ 3951481745 ∷ [])))

-- The words A, B, C and D.
pub record Words : Type 0 where
  pub a : ℕ
  pub b : ℕ
  pub c : ℕ
  pub d : ℕ

-- A word of 32 bits turned to the left.
abbrev rotated : ℕ → ℕ → ℕ
rotated x s = bit_or (x * 2 ^ s % 2 ^ 32) (x / 2 ^ (32 - s))

-- `a = b + ((a + F(b,c,d) + X[k] + T[i]) <<< s)`, after which the words change places.
abbrev pub operate : List ℕ → Operation → Words → Words
operate block o s =
    let mixed = s.a + mixing o.function s.b s.c s.d + o.constant + get_or block o.word 0 in
    record { a = s.d; b = (s.b + rotated (mixed % 2 ^ 32) o.shift) % 2 ^ 32; c = s.b; d = s.c }

abbrev pub operate_all : List ℕ → List Operation → Words → Words
operate_all block [] s = s
operate_all block (o ∷ os) s = operate_all block os (operate block o s)

-- Four bytes as a word, low byte first, and a list of bytes as words.
abbrev pub word_of : ℕ → ℕ → ℕ → ℕ → ℕ
word_of p q r s = p + q * 256 + r * 65536 + s * 16777216

abbrev pub words_of : List ℕ → List ℕ
words_of (p ∷ q ∷ r ∷ s ∷ bytes) = word_of p q r s ∷ words_of bytes
words_of [] = []
words_of (p ∷ []) = []
words_of (p ∷ q ∷ []) = []
words_of (p ∷ q ∷ r ∷ []) = []

-- A word as four bytes, low byte first.
abbrev pub bytes_of : ℕ → List ℕ
bytes_of n = n % 256 ∷ n / 256 % 256 ∷ n / 65536 % 256 ∷ n / 16777216 % 256 ∷ []

-- The one block of a message shorter than 56 bytes: the message, 0x80, zeros, and the count of its bits in
-- eight bytes, low byte first.
abbrev pub padded_message : List ℕ → List ℕ
padded_message m =
    m
    ++ (0x80
        ∷ (replicate (55 - length m) 0
            ++ (length m * 8 % 256 ∷ length m * 8 / 256 ∷ 0 ∷ 0 ∷ 0 ∷ 0 ∷ 0 ∷ 0 ∷ [])))

abbrev pub start : Words
start = record { a = 0x67452301; b = 0xefcdab89; c = 0x98badcfe; d = 0x10325476 }

-- The start and what the operations make of it, added word by word, as sixteen bytes.
abbrev pub sum_of : Words → List ℕ
sum_of r =
    bytes_of ((r.a + 0x67452301) % 2 ^ 32)
    ++ (bytes_of ((r.b + 0xefcdab89) % 2 ^ 32)
        ++ (bytes_of ((r.c + 0x98badcfe) % 2 ^ 32) ++ bytes_of ((r.d + 0x10325476) % 2 ^ 32)))

-- The MD5 sum of a message shorter than 56 bytes.
abbrev pub md5_sum : List ℕ → List ℕ
md5_sum m = sum_of (operate_all (words_of (padded_message m)) operations start)
