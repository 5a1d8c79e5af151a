-- ===== src/Databuffer/Codes.antt =====
-- The headers of two bytes and of four that `databuffer_readheader` of databuffer.h parses, high byte
-- first.
use fengnet.Base.{
  ℕ, ◌-◌, ◌*◌, ◌/◌, ◌%◌, ◌^◌, ◌<◌, ◌≡◌, refl, ap, ◌∙◌, List, [], ◌∷◌, lt→ltb, bit_or, fields_or,
  if◌then◌else◌, arith,
}
use fengnet.Databuffer.{pos, negsuc, int32, parse_header}
use fengnet.Databuffer.Packets.{HeaderCode}

abbrev pub two_bytes : ℕ → List ℕ
two_bytes n = n / 256 ∷ n % 256 ∷ []

abbrev pub four_bytes : ℕ → List ℕ
four_bytes n = n / 16777216 ∷ n / 65536 % 256 ∷ n / 256 % 256 ∷ n % 256 ∷ []

pub int32-pos : (w : ℕ) → w < 2 ^ 31 → int32 w ≡ pos w
int32-pos w h = ap (λ b. if b then pos w else negsuc (2 ^ 32 - 1 - w)) (lt→ltb w (2 ^ 31) h)

two_parsed : (n : ℕ) → n < 65536 → parse_header 2 (two_bytes n) ≡ pos n
unfolding parse_header
two_parsed n h =
    let whole : bit_or (n / 256 * 2 ^ 8) (n % 256) ≡ n =
      omega (arith, fields_or 8 (n / 256) (n % 256) (omega arith)) in
    ap int32 whole ∙ int32-pos n (omega arith)

four_parsed : (n : ℕ) → n < 16777216 → parse_header 4 (four_bytes n) ≡ pos n
unfolding parse_header
four_parsed n h =
    let first : bit_or (n / 16777216 * 2 ^ 24) (n / 65536 % 256 * 2 ^ 16) ≡ n / 65536 * 2 ^ 16 =
      omega (arith, fields_or 24 (n / 16777216) (n / 65536 % 256 * 2 ^ 16) (omega arith)) in
    let second : bit_or (n / 65536 * 2 ^ 16) (n / 256 % 256 * 2 ^ 8) ≡ n / 256 * 2 ^ 8 =
      omega (arith, fields_or 16 (n / 65536) (n / 256 % 256 * 2 ^ 8) (omega arith)) in
    let third : bit_or (n / 256 * 2 ^ 8) (n % 256) ≡ n =
      omega (arith, fields_or 8 (n / 256) (n % 256) (omega arith)) in
    ap (λ w. int32 (bit_or (bit_or w (n / 256 % 256 * 2 ^ 8)) (n % 256))) first
    ∙ ap (λ w. int32 (bit_or w (n % 256))) second
    ∙ ap int32 third
    ∙ int32-pos n (omega arith)

-- A length below 2^16 that is written in two bytes, and one below 2^24 that is written in four, are
-- read back.
pub headers_parsed :
    (m n : ℕ)
    → m < 65536
    → n < 16777216
    → (parse_header 2 (two_bytes m) ≡ pos m) × (parse_header 4 (four_bytes n) ≡ pos n)
headers_parsed m n lm ln = (two_parsed m lm, four_parsed n ln)

-- A length below 2^16 in two bytes.
abbrev pub two_byte_code : HeaderCode 2 65536
two_byte_code = record {
  encode = two_bytes;
  some_bytes = omega arith;
  length-encode = λ n. refl;
  parse_encode = λ n h. (headers_parsed n 0 h (omega arith)).0;
}

-- A length below 2^24 in four bytes.
abbrev pub four_byte_code : HeaderCode 4 16777216
four_byte_code = record {
  encode = four_bytes;
  some_bytes = omega arith;
  length-encode = λ n. refl;
  parse_encode = λ n h. (headers_parsed 0 n (omega arith) h).1;
}
