-- ===== src/Crypt/Des/Bytes.antt =====
-- `GET_UINT32` and `PUT_UINT32` of lualib-src/lua-crypt.cpp, and the two directions of DES on bytes.
use fengnet.Base.{
  ℕ, ◌+◌, ◌*◌, ◌%◌, ◌^◌, ◌<◌, bit_or, List, [], ◌∷◌, ◌++◌, ◌≡◌, refl, ap, ap₂, ◌∙◌, arith,
  fields_or,
}
use fengnet.Crypt.Bytes.{AreBytes}
use fengnet.Crypt.Des.{shl, shr, get_uint32, put_uint32, des_rounds, des_crypt, des_ip, des_fp}
use fengnet.Crypt.Des.Padding.{reverse_subkeys}
use fengnet.Crypt.Des.Words.{AreWords, des_ip_inverse}
use fengnet.Crypt.Des.Blocks.{des_rounds_back, des_rounds-AreWords}

-- The word of four bytes.
word_of :
    (a b c d : ℕ)
    → AreBytes a b c d
    → bit_or (bit_or (bit_or (shl a 24) (shl b 16)) (shl c 8)) d
      ≡ ((a * 256 + b) * 256 + c) * 256 + d
word_of a b c d (la, lb, lc, ld) =
    let ea : shl a 24 ≡ a * 2 ^ 24 = omega arith in
    let eb : shl b 16 ≡ b * 2 ^ 16 = omega arith in
    let ec : shl c 8 ≡ c * 2 ^ 8 = omega arith in
    let first : bit_or (a * 2 ^ 24) (b * 2 ^ 16) ≡ (a * 256 + b) * 2 ^ 16 =
      omega (arith, fields_or 24 a (b * 2 ^ 16) (omega arith)) in
    let second : bit_or ((a * 256 + b) * 2 ^ 16) (c * 2 ^ 8) ≡ ((a * 256 + b) * 256 + c) * 2 ^ 8 =
      omega (arith, fields_or 16 (a * 256 + b) (c * 2 ^ 8) (omega arith)) in
    ap₂ (λ u v. bit_or (bit_or (bit_or u v) (shl c 8)) d) ea eb
    ∙ ap (λ u. bit_or (bit_or u (shl c 8)) d) first
    ∙ ap (λ u. bit_or (bit_or ((a * 256 + b) * 2 ^ 16) u) d) ec
    ∙ ap (λ u. bit_or u d) second
    ∙ fields_or 8 ((a * 256 + b) * 256 + c) d (omega arith)

-- The bytes that `PUT_UINT32` writes, as one value each.
module _ (n : ℕ) (word : n < 2 ^ 32) where
  put_AreBytes : AreBytes (shr n 24 % 256) (shr n 16 % 256) (shr n 8 % 256) (n % 256)
  put_AreBytes = (omega arith, omega arith, omega arith, omega arith)

  put_back : ((shr n 24 % 256 * 256 + shr n 16 % 256) * 256 + shr n 8 % 256) * 256 + n % 256 ≡ n
  put_back = omega arith

-- Two words from the bytes of two words.
get-put :
    (s : ℕ × ℕ)
    → AreWords s
    → (
      get_uint32 (put_uint32 s.0 ++ put_uint32 s.1) 0,
      get_uint32 (put_uint32 s.0 ++ put_uint32 s.1) 4,
    )
      ≡ s
unfolding get_uint32 put_uint32
get-put (x, y) (lx, ly) =
    ap₂ (λ (a b : ℕ). (a, b)) (word_of _ _ _ _ (put_AreBytes x lx) ∙ put_back x lx)
      (word_of _ _ _ _ (put_AreBytes y ly) ∙ put_back y ly)

-- The bytes of the word of four bytes.
put-get :
    (a b c d : ℕ) (rest : List ℕ)
    → AreBytes a b c d
    → put_uint32 (get_uint32 (a ∷ b ∷ c ∷ d ∷ rest) 0) ≡ a ∷ b ∷ c ∷ d ∷ []
unfolding get_uint32 put_uint32
put-get a b c d rest (la, lb, lc, ld) =
    let n = ((a * 256 + b) * 256 + c) * 256 + d in
    let e0 : shr n 24 % 256 ≡ a = omega arith in
    let e1 : shr n 16 % 256 ≡ b = omega arith in
    let e2 : shr n 8 % 256 ≡ c = omega arith in
    let e3 : n % 256 ≡ d = omega arith in
    ap put_uint32 (word_of a b c d (la, lb, lc, ld))
    ∙ ap₂ (λ u v. u ∷ v ∷ shr n 8 % 256 ∷ n % 256 ∷ []) e0 e1
    ∙ ap₂ (λ u v. a ∷ b ∷ u ∷ v ∷ []) e2 e3

word_of-lt :
    (a b c d : ℕ) (rest : List ℕ) → AreBytes a b c d → get_uint32 (a ∷ b ∷ c ∷ d ∷ rest) 0 < 2 ^ 32
unfolding get_uint32
word_of-lt a b c d rest (la, lb, lc, ld) = omega (arith, word_of a b c d (la, lb, lc, ld))

-- What `des_crypt` does to the two words of its input.
pub middle : List ℕ → ℕ × ℕ → ℕ × ℕ
middle sk s = let t = des_rounds 8 sk 0 (des_ip s) in des_fp (t.1, t.0)

unfoldable pub words : ℕ × ℕ → List ℕ
words t = put_uint32 t.0 ++ put_uint32 t.1

pub inputs : List ℕ → ℕ × ℕ
inputs b = (get_uint32 b 0, get_uint32 b 4)

pub des_crypt-middle : (sk b : List ℕ) → des_crypt sk b ≡ words (middle sk (inputs b))
unfolding des_crypt middle words inputs
des_crypt-middle sk b = refl

middle-AreWords : (sk : List ℕ) (s : ℕ × ℕ) → AreWords s → AreWords (middle sk s)
unfolding middle
middle-AreWords sk s w =
    let t : AreWords (des_rounds 8 sk 0 (des_ip s)) =
      des_rounds-AreWords sk (des_ip s) (des_ip_inverse.keeps s w) in
    des_ip_inverse.keeps_back _ (t.1, t.0)

middle_back :
    (sk : List ℕ) (s : ℕ × ℕ) → AreWords s → middle (reverse_subkeys 16 0 sk) (middle sk s) ≡ s
unfolding middle
middle_back sk s w =
    let t : AreWords (des_rounds 8 sk 0 (des_ip s)) =
      des_rounds-AreWords sk (des_ip s) (des_ip_inverse.keeps s w) in
    let flip : ℕ × ℕ → ℕ × ℕ = λ s. (s.1, s.0) in
    ap (λ u. des_fp (flip (des_rounds 8 (reverse_subkeys 16 0 sk) 0 u)))
      (des_ip_inverse.back (flip (des_rounds 8 sk 0 (des_ip s))) (t.1, t.0))
    ∙ ap (λ u. des_fp (flip u)) (des_rounds_back sk (des_ip s))
    ∙ des_ip_inverse.forth s w

module _ (sk : List ℕ) (a b c d e f g h : ℕ) (l : AreBytes a b c d) (r : AreBytes e f g h) where
  abbrev block : List ℕ
  block = a ∷ b ∷ c ∷ d ∷ e ∷ f ∷ g ∷ h ∷ []

  inputs-AreWords : AreWords (inputs block)
  unfolding inputs get_uint32
  inputs-AreWords = (word_of-lt a b c d (e ∷ f ∷ g ∷ h ∷ []) l, word_of-lt e f g h [] r)

  words-inputs : words (inputs block) ≡ block
  unfolding inputs words get_uint32 put_uint32
  words-inputs = ap₂ ◌++◌ (put-get a b c d (e ∷ f ∷ g ∷ h ∷ []) l) (put-get e f g h [] r)

  -- A block of eight bytes, encoded and decoded.
  pub des_crypt_back : des_crypt (reverse_subkeys 16 0 sk) (des_crypt sk block) ≡ block
  unfolding words inputs
  des_crypt_back =
      let m : ℕ × ℕ = middle sk (inputs block) in
      ap (des_crypt (reverse_subkeys 16 0 sk)) (des_crypt-middle sk block)
      ∙ des_crypt-middle (reverse_subkeys 16 0 sk) (words m)
      ∙ ap (λ u. words (middle (reverse_subkeys 16 0 sk) u))
          (get-put m (middle-AreWords sk (inputs block) inputs-AreWords))
      ∙ ap words (middle_back sk (inputs block) inputs-AreWords)
      ∙ words-inputs
