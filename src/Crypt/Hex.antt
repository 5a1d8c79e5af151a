-- ===== src/Crypt/Hex.antt =====
-- `ltohex` and `lfromhex` of lualib-src/lua-crypt.cpp: texts and bytes are lists of bytes, `none` is a
-- Lua error.
pub mod RoundTrip
use fengnet.Base.{
  ℕ, zero, suc, ◌+◌, ◌-◌, ◌*◌, ◌/◌, ◌%◌, ◌^◌, bit_and, bit_or, Bool, true, false, ◌&&◌, ◌||◌,
  Option, none, some, List, [], ◌∷◌, ltb, leb, if◌then◌else◌, get_or, tabulate,
}
use mathlib.Core.Option.{map}

-- `static char hex[]`: the characters 0 to 9 and a to f.
abbrev hex : List ℕ
hex = 48 ∷ 49 ∷ 50 ∷ 51 ∷ 52 ∷ 53 ∷ 54 ∷ 55 ∷ 56 ∷ 57 ∷ 97 ∷ 98 ∷ 99 ∷ 100 ∷ 101 ∷ 102 ∷ []

-- A character by four bits.
unfoldable pub digit : ℕ → ℕ
digit n = get_or hex n 0

unfoldable pub ltohex : List ℕ → List ℕ
ltohex [] = []
ltohex (c ∷ text) = digit (c / 2 ^ 4) ∷ digit (bit_and c 0xf) ∷ ltohex text

-- `HEX`: a `uint8_t`, with its wrap.
unfoldable pub hex_value : ℕ → ℕ
hex_value c = if leb 48 c && leb c 57 then c - 48 else (c + 256 - 97 + 10) % 256

-- One turn of the loop of `lfromhex`: two characters.
unfoldable pub hex_pair : ℕ → ℕ → Option ℕ
hex_pair a b =
    if ltb 16 (hex_value a) || ltb 16 (hex_value b)
    then none
    else some (bit_or (hex_value a * 2 ^ 4) (hex_value b) % 256)

cons_pair : Option ℕ → Option (List ℕ) → Option (List ℕ)
cons_pair none rest = none
cons_pair (some c) rest = map (λ cs. c ∷ cs) rest

-- An odd length is an error.
unfoldable pub lfromhex : List ℕ → Option (List ℕ)
unfolding cons_pair
lfromhex [] = some []
lfromhex (a ∷ []) = none
lfromhex (a ∷ b ∷ text) = cons_pair (hex_pair a b) (lfromhex text)
