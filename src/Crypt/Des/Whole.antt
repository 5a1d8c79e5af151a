-- ===== src/Crypt/Des/Whole.antt =====
-- Texts of whole blocks under the loop of `ldesdecode` in lualib-src/lua-crypt.cpp.
use fengnet.Base.{
  ℕ, ◌%◌, List, [], ◌∷◌, ◌++◌, ◌≡◌, refl, ap, ap₂, sym, ◌∙◌, arith, length, length-append,
  append-nil,
}
use fengnet.Crypt.Bytes.{AreBytes, ListOfEight, eight, list_of_eight, IsBytes}
use fengnet.Crypt.Des.{put_uint32, des_crypt}
use fengnet.Crypt.Des.Padding.{decode_blocks, reverse_subkeys}
use fengnet.Crypt.Des.Bytes.{words, inputs, middle, des_crypt-middle, des_crypt_back}

-- A text of whole blocks of eight bytes.
pub data Blocks : List ℕ → Type 0 where
  no_block : Blocks []
  more_blocks :
      (a b c d e f g h : ℕ) (rest : List ℕ)
      → AreBytes a b c d
      → AreBytes e f g h
      → Blocks rest
      → Blocks (a ∷ b ∷ c ∷ d ∷ e ∷ f ∷ g ∷ h ∷ rest)

decode_blocks-words :
    (sk : List ℕ) (t : ℕ × ℕ) (rest : List ℕ)
    → decode_blocks sk (words t ++ rest) ≡ des_crypt sk (words t) ++ decode_blocks sk rest
unfolding words put_uint32 decode_blocks
decode_blocks-words sk t rest = refl

length-words : (t : ℕ × ℕ) → length (words t) ≡ 8
unfolding words put_uint32
length-words t = refl

pub decode_blocks-block :
    (sk : List ℕ) (a b c d e f g h : ℕ) (rest : List ℕ)
    → decode_blocks sk (a ∷ b ∷ c ∷ d ∷ e ∷ f ∷ g ∷ h ∷ rest)
      ≡ des_crypt sk (a ∷ b ∷ c ∷ d ∷ e ∷ f ∷ g ∷ h ∷ []) ++ decode_blocks sk rest
unfolding decode_blocks
decode_blocks-block sk a b c d e f g h rest = refl

-- Decoding twice, with the subkeys in reverse order the second time.
pub decode_blocks_back :
    (sk p : List ℕ) → Blocks p → decode_blocks (reverse_subkeys 16 0 sk) (decode_blocks sk p) ≡ p
decode_blocks_back sk [] no_block = unfold decode_blocks in refl
decode_blocks_back sk _ (more_blocks a b c d e f g h rest l r more) =
    let rs : List ℕ = reverse_subkeys 16 0 sk in
    let b8 : List ℕ = a ∷ b ∷ c ∷ d ∷ e ∷ f ∷ g ∷ h ∷ [] in
    let m : ℕ × ℕ = middle sk (inputs b8) in
    let enc : des_crypt sk b8 ≡ words m = des_crypt-middle sk b8 in
    ap (decode_blocks rs)
      (decode_blocks-block sk a b c d e f g h rest ∙ ap (λ u. u ++ decode_blocks sk rest) enc)
    ∙ decode_blocks-words rs m (decode_blocks sk rest)
    ∙ ap₂ ◌++◌ (ap (des_crypt rs) (sym enc) ∙ des_crypt_back sk a b c d e f g h l r)
        (decode_blocks_back sk rest more)

pub length-decode_blocks : (sk p : List ℕ) → Blocks p → length (decode_blocks sk p) ≡ length p
length-decode_blocks sk [] no_block = unfold decode_blocks in refl
length-decode_blocks sk _ (more_blocks a b c d e f g h rest l r more) =
    let b8 : List ℕ = a ∷ b ∷ c ∷ d ∷ e ∷ f ∷ g ∷ h ∷ [] in
    ap length (decode_blocks-block sk a b c d e f g h rest)
    ∙ length-append (des_crypt sk b8) (decode_blocks sk rest)
    ∙ omega (
      arith,
      ap length (des_crypt-middle sk b8),
      length-words (middle sk (inputs b8)),
      length-decode_blocks sk rest more,
    )

-- The length of a text of whole blocks.
pub whole : (p : List ℕ) → Blocks p → length p % 8 ≡ 0
whole [] no_block = refl
whole _ (more_blocks a b c d e f g h rest l r more) = omega (arith, whole rest more)

-- Eight bytes are a block.
pub one_block :
    (sk p : List ℕ) → IsBytes p → length p ≡ 8 → Blocks p × (decode_blocks sk p ≡ des_crypt sk p)
unfolding decode_blocks
one_block sk p bs l8 = block (list_of_eight p bs l8)
  where
    block : {p : List ℕ} → ListOfEight p → Blocks p × (decode_blocks sk p ≡ des_crypt sk p)
    block (eight a b c d e f g h l r) = (
      more_blocks a b c d e f g h [] l r no_block,
      decode_blocks-block sk a b c d e f g h []
          ∙ append-nil (des_crypt sk (a ∷ b ∷ c ∷ d ∷ e ∷ f ∷ g ∷ h ∷ [])),
    )
