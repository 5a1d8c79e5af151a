-- ===== src/Crypt/Md5.antt =====
-- `Hash`, `digest_md5` and the codes over them in lualib-src/lua-crypt.cpp, with `lxor_str` and
-- `lrandomkey`. Strings are lists of bytes, a `uint32_t` is a number with its wraps written out, and
-- `none` is a Lua error.
pub mod Reference
pub mod Sum
use fengnet.Base.{
  ℕ, zero, suc, ◌+◌, ◌-◌, ◌*◌, ◌/◌, ◌%◌, ◌^◌, bit_and, bit_or, bit_xor, Option, none, some, List,
  [], ◌∷◌, ◌++◌, ltb, ◌==◌, if◌then◌else◌, get_or, length, map,
}
use mathlib.Core.Option.{bind}
use fengnet.Crypt.Des.{shl, shr}
use fengnet.Crypt.Dh.{read_word}

-- `k` and `r`.
abbrev pub sines : List ℕ
sines =
    0xd76aa478 ∷ 0xe8c7b756 ∷ 0x242070db ∷ 0xc1bdceee ∷ 0xf57c0faf ∷ 0x4787c62a ∷ 0xa8304613
    ∷ 0xfd469501 ∷ 0x698098d8 ∷ 0x8b44f7af ∷ 0xffff5bb1 ∷ 0x895cd7be ∷ 0x6b901122 ∷ 0xfd987193
    ∷ 0xa679438e ∷ 0x49b40821 ∷ 0xf61e2562 ∷ 0xc040b340 ∷ 0x265e5a51 ∷ 0xe9b6c7aa ∷ 0xd62f105d
    ∷ 0x02441453 ∷ 0xd8a1e681 ∷ 0xe7d3fbc8 ∷ 0x21e1cde6 ∷ 0xc33707d6 ∷ 0xf4d50d87 ∷ 0x455a14ed
    ∷ 0xa9e3e905 ∷ 0xfcefa3f8 ∷ 0x676f02d9 ∷ 0x8d2a4c8a ∷ 0xfffa3942 ∷ 0x8771f681 ∷ 0x6d9d6122
    ∷ 0xfde5380c ∷ 0xa4beea44 ∷ 0x4bdecfa9 ∷ 0xf6bb4b60 ∷ 0xbebfbc70 ∷ 0x289b7ec6 ∷ 0xeaa127fa
    ∷ 0xd4ef3085 ∷ 0x04881d05 ∷ 0xd9d4d039 ∷ 0xe6db99e5 ∷ 0x1fa27cf8 ∷ 0xc4ac5665 ∷ 0xf4292244
    ∷ 0x432aff97 ∷ 0xab9423a7 ∷ 0xfc93a039 ∷ 0x655b59c3 ∷ 0x8f0ccc92 ∷ 0xffeff47d ∷ 0x85845dd1
    ∷ 0x6fa87e4f ∷ 0xfe2ce6e0 ∷ 0xa3014314 ∷ 0x4e0811a1 ∷ 0xf7537e82 ∷ 0xbd3af235 ∷ 0x2ad7d2bb
    ∷ 0xeb86d391 ∷ []

abbrev pub shifts : List ℕ
shifts =
    7 ∷ 12 ∷ 17 ∷ 22 ∷ 7 ∷ 12 ∷ 17 ∷ 22 ∷ 7 ∷ 12 ∷ 17 ∷ 22 ∷ 7 ∷ 12 ∷ 17 ∷ 22 ∷ 5 ∷ 9 ∷ 14 ∷ 20 ∷ 5
    ∷ 9 ∷ 14 ∷ 20 ∷ 5 ∷ 9 ∷ 14 ∷ 20 ∷ 5 ∷ 9 ∷ 14 ∷ 20 ∷ 4 ∷ 11 ∷ 16 ∷ 23 ∷ 4 ∷ 11 ∷ 16 ∷ 23 ∷ 4 ∷ 11
    ∷ 16 ∷ 23 ∷ 4 ∷ 11 ∷ 16 ∷ 23 ∷ 6 ∷ 10 ∷ 15 ∷ 21 ∷ 6 ∷ 10 ∷ 15 ∷ 21 ∷ 6 ∷ 10 ∷ 15 ∷ 21 ∷ 6 ∷ 10
    ∷ 15 ∷ 21 ∷ []

-- `LEFTROTATE`.
unfoldable pub left_rotate : ℕ → ℕ → ℕ
left_rotate x c = bit_or (shl x c) (shr x (32 - c))

-- `~x`.
unfoldable pub complement : ℕ → ℕ
complement x = 2 ^ 32 - 1 - x

-- `f` and `g` of a turn.
unfoldable pub mix : ℕ → ℕ → ℕ → ℕ → ℕ × ℕ
mix i b c d =
    if ltb i 16
    then (bit_or (bit_and b c) (bit_and (complement b) d), i)
    else if ltb i 32
    then (bit_or (bit_and d b) (bit_and (complement d) c), (5 * i + 1) % 16)
    else if ltb i 48
    then (bit_xor (bit_xor b c) d, (3 * i + 5) % 16)
    else (bit_xor c (bit_or b (complement d)), 7 * i % 16)

-- The variables a, b, c, d.
pub record Md5State : Type 0 where
  pub a : ℕ
  pub b : ℕ
  pub c : ℕ
  pub d : ℕ

unfoldable pub md5_turn : List ℕ → ℕ → Md5State → Md5State
md5_turn w i s =
    let fg = mix i s.b s.c s.d in
    let x = (s.a + fg.0 + get_or sines i 0 + get_or w fg.1 0) % 2 ^ 32 in
    record { a = s.d; b = (s.b + left_rotate x (get_or shifts i 0)) % 2 ^ 32; c = s.b; d = s.c }

-- The loop of `digest_md5` from turn `i` on.
unfoldable pub md5_loop : ℕ → List ℕ → ℕ → Md5State → Md5State
md5_loop zero w i s = s
md5_loop (suc turns) w i s = md5_loop turns w (i + 1) (md5_turn w i s)

abbrev pub md5_start : Md5State
md5_start = record { a = 0x67452301; b = 0xefcdab89; c = 0x98badcfe; d = 0x10325476 }

unfoldable pub digest_md5 : List ℕ → Md5State
digest_md5 w = md5_loop 64 w 0 md5_start

unfoldable pub hmac : ℕ × ℕ → ℕ × ℕ → ℕ × ℕ
hmac x y =
    let four = x.1 ∷ x.0 ∷ y.1 ∷ y.0 ∷ [] in
    let r = digest_md5 (four ++ (four ++ (four ++ four))) in (bit_xor r.c r.d, bit_xor r.a r.b)

-- The words `w` of `hmac_md5`.
unfoldable pub hmac_words : ℕ × ℕ → ℕ × ℕ → List ℕ
hmac_words x y =
    let four = x.0 ∷ x.1 ∷ y.0 ∷ y.1 ∷ [] in four ++ (four ++ (four ++ (0x80 ∷ 0 ∷ 384 ∷ 0 ∷ [])))

unfoldable pub hmac_md5 : ℕ × ℕ → ℕ × ℕ → ℕ × ℕ
hmac_md5 x y =
    let r = digest_md5 (hmac_words x y) in
    (
      bit_xor ((r.a + 0x67452301) % 2 ^ 32) ((r.c + 0x98badcfe) % 2 ^ 32),
      bit_xor ((r.b + 0xefcdab89) % 2 ^ 32) ((r.d + 0x10325476) % 2 ^ 32),
    )

-- The two words of one of the arguments of `read64`.
unfoldable pub read_words : List ℕ → Option (ℕ × ℕ)
read_words x = if length x == 8 then some (read_word x 0, read_word x 4) else none

-- Four bytes, the lowest first.
unfoldable pub word_bytes : ℕ → List ℕ
word_bytes n =
    bit_and n 0xff ∷ bit_and (shr n 8) 0xff ∷ bit_and (shr n 16) 0xff ∷ bit_and (shr n 24) 0xff ∷ []

unfoldable pub pushqword : ℕ × ℕ → List ℕ
pushqword result = word_bytes result.0 ++ word_bytes result.1

unfoldable pub lhmac64 : List ℕ → List ℕ → Option (List ℕ)
lhmac64 x y = bind (read_words x) (λ xx. bind (read_words y) (λ yy. some (pushqword (hmac xx yy))))

unfoldable pub lhmac64_md5 : List ℕ → List ℕ → Option (List ℕ)
lhmac64_md5 x y =
    bind (read_words x) (λ xx. bind (read_words y) (λ yy. some (pushqword (hmac_md5 xx yy))))

-- The two hashes of `Hash`, over the bytes of the string.
unfoldable pub hash_loop : List ℕ → ℕ × ℕ → ℕ × ℕ
hash_loop [] h = h
hash_loop (c ∷ str) (djb, js) =
    hash_loop str
      ((djb + (shl djb 5 + c)) % 2 ^ 32, bit_xor js ((shl js 5 + c + shr js 2) % 2 ^ 32))

-- `Hash`.
unfoldable pub hash_key : List ℕ → List ℕ
hash_key str = let h = hash_loop str (5381, 1315423911) in word_bytes h.0 ++ word_bytes h.1

unfoldable pub lhashkey : List ℕ → List ℕ
lhashkey key = hash_key key

unfoldable pub lhmac_hash : List ℕ → List ℕ → Option (List ℕ)
lhmac_hash x text =
    let h = hash_key text in
    bind (read_words x) (λ key. some (pushqword (hmac (read_word h 0, read_word h 4) key)))

-- The loop of `lxor_str` from index `i` on.
unfoldable pub xor_loop : ℕ → List ℕ → List ℕ → List ℕ
xor_loop i [] s2 = []
xor_loop i (c ∷ s1) s2 = bit_xor c (get_or s2 (i % length s2) 0) ∷ xor_loop (suc i) s1 s2

unfoldable pub lxor_str : List ℕ → List ℕ → Option (List ℕ)
lxor_str s1 s2 = if length s2 == 0 then none else some (xor_loop 0 s1 s2)

unfoldable pub xor_all : List ℕ → ℕ
xor_all [] = 0
xor_all (x ∷ xs) = bit_xor x (xor_all xs)

-- The first byte with its lowest bit set.
unfoldable pub set_lowest : List ℕ → List ℕ
set_lowest [] = []
set_lowest (x ∷ xs) = bit_or x 1 ∷ xs

-- `lrandomkey`, with the eight values of `random()` as an argument.
unfoldable pub lrandomkey : List ℕ → List ℕ
lrandomkey drawn =
    let tmp = map (λ x. bit_and x 0xff) drawn in if xor_all tmp == 0 then set_lowest tmp else tmp
