-- ===== src/Crypt/Hex/RoundTrip.antt =====
-- `lfromhex` and `ltohex` of lualib-src/lua-crypt.cpp undo each other.
use fengnet.Base.{
  ℕ, ◌*◌, ◌/◌, ◌%◌, ◌^◌, ◌<◌, bit_and, bit_or, Bool, true, false, ◌&&◌, ◌||◌, Option, none, some,
  List, [], ◌∷◌, ltb, leb, ◌==◌, ◌≡◌, refl, ap, ap₂, sym, ◌∙◌, arith, and_ones, fields_or, ==_iff,
  le→ltb, not, Bool-cases, inl, inr,
}
use mathlib.Core.Option.{map}
use fengnet.Crypt.Bytes.{IsBytes, checked}
use fengnet.Crypt.Hex.{digit, ltohex, hex_value, hex_pair, cons_pair, lfromhex}

-- The sixteen digits are read as what they stand for.
digits_checked : (n : ℕ) → n < 16 → (hex_value (digit n) == n) ≡ true
unfolding digit hex_value
digits_checked = checked (λ n. hex_value (digit n) == n) 16 refl

hex_value-digit : (n : ℕ) → n < 16 → hex_value (digit n) ≡ n
hex_value-digit n lt = (==_iff (hex_value (digit n)) n).0 (digits_checked n lt)

hex_pair-digit : (c : ℕ) → c < 256 → hex_pair (digit (c / 2 ^ 4)) (digit (bit_and c 0xf)) ≡ some c
unfolding hex_pair
hex_pair-digit c lt =
    let h : ℕ = c / 16 in
    let l : ℕ = c % 16 in
    let eh : hex_value (digit (c / 2 ^ 4)) ≡ h = hex_value-digit h (omega arith) in
    let el : hex_value (digit (bit_and c 0xf)) ≡ l =
      ap (λ u. hex_value (digit u)) (and_ones 4 c) ∙ hex_value-digit l (omega arith) in
    let e : bit_or (h * 2 ^ 4) l % 256 ≡ c =
      ap (λ u. u % 256) (fields_or 4 h l (omega arith)) ∙ omega arith in
    rw (eh, el, le→ltb 16 h (omega arith), le→ltb 16 l (omega arith)) (ap some e)

-- What `ltohex` writes for a list of bytes, `lfromhex` accepts and reads as those bytes.
pub lfromhex-ltohex : (text : List ℕ) → IsBytes text → lfromhex (ltohex text) ≡ some text
unfolding lfromhex ltohex cons_pair
lfromhex-ltohex [] bs = refl
lfromhex-ltohex (c ∷ text) (lc, bs) = rw (hex_pair-digit c lc, lfromhex-ltohex text bs) refl

-- The characters 0 to 9 (48 to 57), and those from W (87) to g (103).
abbrev pub read_char : ℕ → Bool
read_char c = (leb 48 c && leb c 57) || (leb 87 c && leb c 103)

-- Reference: the texts of even length of such characters.
abbrev pub readable : List ℕ → Bool
readable [] = true
readable (a ∷ []) = false
readable (a ∷ b ∷ text) = (read_char a && read_char b) && readable text

abbrev pub accepted : Option (List ℕ) → Bool
accepted none = false
accepted (some bytes) = true

same : Bool → Bool → Bool
same true b = b
same false b = not b

same_is : (a b : Bool) → same a b ≡ true → a ≡ b
unfolding same
same_is true b e = sym e
same_is false true e = cc
same_is false false e = refl

chars_checked : (c : ℕ) → c < 256 → same (not (ltb 16 (hex_value c))) (read_char c) ≡ true
unfolding same hex_value
chars_checked = checked (λ c. same (not (ltb 16 (hex_value c))) (read_char c)) 256 refl

read_char_lem : (c : ℕ) → c < 256 → not (ltb 16 (hex_value c)) ≡ read_char c
read_char_lem c lt = same_is _ _ (chars_checked c lt)

still_accepted :
    (f : List ℕ → List ℕ) (rest : Option (List ℕ)) → accepted (map f rest) ≡ accepted rest
still_accepted f none = refl
still_accepted f (some cs) = refl

accepted-cons_pair :
    (x y : ℕ) (rest : Option (List ℕ))
    → accepted (cons_pair (hex_pair x y) rest)
      ≡ ((not (ltb 16 (hex_value x)) && not (ltb 16 (hex_value y))) && accepted rest)
unfolding cons_pair hex_pair
accepted-cons_pair x y rest = elim (Bool-cases (ltb 16 (hex_value x))) [
  | inl e ↦ rw e refl
  | inr e ↦ elim (Bool-cases (ltb 16 (hex_value y))) [
    | inl e' ↦ rw (e, e') refl
    | inr e' ↦
        rw (e, e')
          (still_accepted (λ cs. bit_or (hex_value x * 2 ^ 4) (hex_value y) % 256 ∷ cs) rest)
  ]
]

-- Of the lists of bytes, `lfromhex` accepts exactly those of even length whose characters are 0 to 9
-- and W to g; so it also accepts the g after the last digit and the ten characters before the a.
pub lfromhex-accepted : (text : List ℕ) → IsBytes text → accepted (lfromhex text) ≡ readable text
unfolding lfromhex
lfromhex-accepted [] bs = refl
lfromhex-accepted (a ∷ []) bs = refl
lfromhex-accepted (a ∷ b ∷ text) (la, (lb, bs)) =
    accepted-cons_pair a b (lfromhex text)
    ∙ ap₂ ◌&&◌ (ap₂ ◌&&◌ (read_char_lem a la) (read_char_lem b lb)) (lfromhex-accepted text bs)
