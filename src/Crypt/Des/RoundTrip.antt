-- ===== src/Crypt/Des/RoundTrip.antt =====
-- `ldesdecode` of lualib-src/lua-crypt.cpp undoes `ldesencode`, in both modes of padding.
use fengnet.Base.{
  ℕ, zero, suc, ◌+◌, ◌-◌, ◌%◌, ◌<◌, bit_and, List, [], ◌∷◌, ◌++◌, ◌≡◌, refl, ap, sym, ◌∙◌, arith,
  length, reverse, length-append, length-replicate, reverse-append, some, ◌==◌, and_ones,
  take-length, lt→leb, ne→==_false, false, not, ◌||◌,
}
use mathlib.Core.Option.{bind, map}
use fengnet.Crypt.Bytes.{IsBytes, IsBytes-append, IsBytes-replicate}
use fengnet.Crypt.Des.{des_crypt, des_main_ks}
use fengnet.Crypt.Des.Padding.{
  padding_add_iso7816_4, padding_add_pkcs7, iso_loop, padding_remove_iso7816_4, pkcs7_loop,
  padding_remove_pkcs7, padding_add_func, padding_remove_func, add_padding, encode_blocks,
  decode_blocks, des_key, ldesencode, remove_padding, ldesdecode,
}
use fengnet.Crypt.Des.Whole.{
  Blocks, more_blocks, decode_blocks-block, decode_blocks_back, length-decode_blocks, whole,
  one_block,
}

module _ (sk : List ℕ) (mode : ℕ) (add : ℕ → List ℕ) where
  -- A text with its padding: whole blocks, which `ldesencode` encodes.
  record IsPadded (text : List ℕ) : Type 0 where
    offset : ℕ
    small : offset < 8
    blocks : Blocks (text ++ add offset)
    encoded : encode_blocks sk mode text ≡ some (decode_blocks sk (text ++ add offset))

  module _ (known : padding_add_func mode ≡ some add)
      (sized : (n : ℕ) → n < 8 → IsBytes (add n) × (length (add n) ≡ 8 - n)) where
    tail-IsPadded :
        (src : List ℕ)
        → encode_blocks sk mode src ≡ map (des_crypt sk) (add_padding src mode)
        → IsBytes src
        → length src < 8
        → IsPadded src
    unfolding add_padding bind
    tail-IsPadded src e bs lt =
        let (bytes, len) = sized (length src) lt in
        let all : length (src ++ add (length src)) ≡ 8 =
          omega (arith, length-append src (add (length src)), len) in
        let (whole_block, same) =
          one_block sk (src ++ add (length src)) (IsBytes-append src _ bs bytes) all in
        record {
          offset = length src;
          small = lt;
          blocks = whole_block;
          encoded = e ∙ ap (map (des_crypt sk)) padding ∙ ap some (sym same);
        }
      where
        padding : add_padding src mode ≡ some (src ++ add (length src))
        padding = rw (known, lt→leb 8 (length src) lt) refl

    padded : (text : List ℕ) → IsBytes text → IsPadded text
    unfolding encode_blocks
    padded [] bs = tail-IsPadded _ refl bs (omega arith)
    padded (a ∷ []) bs = tail-IsPadded _ refl bs (omega arith)
    padded (a ∷ b ∷ []) bs = tail-IsPadded _ refl bs (omega arith)
    padded (a ∷ b ∷ c ∷ []) bs = tail-IsPadded _ refl bs (omega arith)
    padded (a ∷ b ∷ c ∷ d ∷ []) bs = tail-IsPadded _ refl bs (omega arith)
    padded (a ∷ b ∷ c ∷ d ∷ e ∷ []) bs = tail-IsPadded _ refl bs (omega arith)
    padded (a ∷ b ∷ c ∷ d ∷ e ∷ f ∷ []) bs = tail-IsPadded _ refl bs (omega arith)
    padded (a ∷ b ∷ c ∷ d ∷ e ∷ f ∷ g ∷ []) bs = tail-IsPadded _ refl bs (omega arith)
    padded (a ∷ b ∷ c ∷ d ∷ e ∷ f ∷ g ∷ h ∷ text)
          (la, (lb, (lc, (ld, (le, (lf, (lg, (lh, bs)))))))) =
        let p : IsPadded text = padded text bs in
        record {
          offset = p.offset;
          small = p.small;
          blocks = more_blocks a b c d e f g h _ (la, lb, lc, ld) (le, lf, lg, lh) p.blocks;
          encoded =
              ap (map (λ rest. des_crypt sk (a ∷ b ∷ c ∷ d ∷ e ∷ f ∷ g ∷ h ∷ []) ++ rest)) p.encoded
              ∙ ap some (sym (decode_blocks-block sk a b c d e f g h (text ++ add p.offset)));
        }

-- The padding of `padding_add_iso7816_4` is bytes up to the end of the block.
iso_sized :
    (n : ℕ) → n < 8 → IsBytes (padding_add_iso7816_4 n) × (length (padding_add_iso7816_4 n) ≡ 8 - n)
unfolding padding_add_iso7816_4
iso_sized n lt = (
  (omega arith, IsBytes-replicate (7 - n) 0 (omega arith)),
  omega (arith, length-replicate {A = ℕ} (7 - n) 0),
)

-- `padding_remove_iso7816_4` counts what `padding_add_iso7816_4` has written.
iso_removed :
    (n : ℕ) (before : List ℕ)
    → n < 8
    → padding_remove_iso7816_4 (reverse (padding_add_iso7816_4 n) ++ before) ≡ 8 - n
unfolding padding_add_iso7816_4 padding_remove_iso7816_4 iso_loop
iso_removed zero before lt = refl
iso_removed (suc zero) before lt = refl
iso_removed (suc (suc zero)) before lt = refl
iso_removed (suc (suc (suc zero))) before lt = refl
iso_removed (suc (suc (suc (suc zero)))) before lt = refl
iso_removed (suc (suc (suc (suc (suc zero))))) before lt = refl
iso_removed (suc (suc (suc (suc (suc (suc zero)))))) before lt = refl
iso_removed (suc (suc (suc (suc (suc (suc (suc zero))))))) before lt = refl
iso_removed (suc (suc (suc (suc (suc (suc (suc (suc n)))))))) before lt = absurd (omega arith)

-- The padding of `padding_add_pkcs7` is bytes up to the end of the block.
pkcs7_sized :
    (n : ℕ) → n < 8 → IsBytes (padding_add_pkcs7 n) × (length (padding_add_pkcs7 n) ≡ 8 - n)
unfolding padding_add_pkcs7
pkcs7_sized n lt =
    (IsBytes-replicate (8 - n) (8 - n) (omega arith), length-replicate (8 - n) (8 - n))

-- `padding_remove_pkcs7` counts what `padding_add_pkcs7` has written.
pkcs7_removed :
    (n : ℕ) (before : List ℕ)
    → n < 8
    → padding_remove_pkcs7 (reverse (padding_add_pkcs7 n) ++ before) ≡ 8 - n
unfolding padding_add_pkcs7 padding_remove_pkcs7 pkcs7_loop
pkcs7_removed zero before lt = refl
pkcs7_removed (suc zero) before lt = refl
pkcs7_removed (suc (suc zero)) before lt = refl
pkcs7_removed (suc (suc (suc zero))) before lt = refl
pkcs7_removed (suc (suc (suc (suc zero)))) before lt = refl
pkcs7_removed (suc (suc (suc (suc (suc zero))))) before lt = refl
pkcs7_removed (suc (suc (suc (suc (suc (suc zero)))))) before lt = refl
pkcs7_removed (suc (suc (suc (suc (suc (suc (suc zero))))))) before lt = refl
pkcs7_removed (suc (suc (suc (suc (suc (suc (suc (suc n)))))))) before lt = absurd (omega arith)

-- What a mode of padding promises.
record IsMode (mode : ℕ) (add : ℕ → List ℕ) (remove : List ℕ → ℕ) : Type 0 where
  adds : padding_add_func mode ≡ some add
  removes : padding_remove_func mode ≡ some remove
  sized : (n : ℕ) → n < 8 → IsBytes (add n) × (length (add n) ≡ 8 - n)
  counted : (n : ℕ) (before : List ℕ) → n < 8 → remove (reverse (add n) ++ before) ≡ 8 - n

module _ (mode : ℕ) (add : ℕ → List ℕ) (remove : List ℕ → ℕ) (m : IsMode mode add remove) where
  remove_padding-padded :
      (text : List ℕ) (n : ℕ) → n < 8 → remove_padding (text ++ add n) mode ≡ some text
  unfolding remove_padding bind
  remove_padding-padded text n lt =
      let count : remove (reverse (text ++ add n)) ≡ 8 - n =
        ap remove (reverse-append text (add n)) ∙ m.counted n (reverse text) lt in
      let len : length (text ++ add n) - (8 - n) ≡ length text =
        omega (arith, length-append text (add n), (m.sized n lt).1) in
      rw (m.removes, count, lt→leb (8 - n) 0 (omega arith), lt→leb 9 (8 - n) (omega arith), len)
        (ap some (take-length text (add n)))

  -- A whole number of blocks, at least one, is accepted.
  accepted :
      (code : List ℕ)
      → length code % 8 ≡ 0
      → 0 < length code
      → (not (bit_and (length code) 7 == 0) || (length code == 0)) ≡ false
  accepted code whole_blocks some_block =
      let low : bit_and (length code) 7 ≡ 0 = and_ones 3 (length code) ∙ whole_blocks in
      rw (low, ne→==_false (length code) 0 (λ e. omega arith)) refl

  decoded :
      (key text : List ℕ)
      → length key ≡ 8
      → IsBytes text
      → bind (ldesencode key text mode) (λ code. ldesdecode key code mode) ≡ some text
  unfolding ldesencode ldesdecode des_key bind
  decoded key text key8 bs =
      let sk : List ℕ = des_main_ks key in
      let p : IsPadded sk mode add text = padded sk mode add m.adds m.sized text bs in
      let q : List ℕ = text ++ add p.offset in
      let len : length (decode_blocks sk q) ≡ length q = length-decode_blocks sk q p.blocks in
      let long : length q ≡ length text + (8 - p.offset) =
        length-append text (add p.offset)
        ∙ ap (λ k. length text + k) (m.sized p.offset p.small).1 in
      rw
        (
          key8,
          p.encoded,
          accepted (decode_blocks sk q) (ap (λ k. k % 8) len ∙ whole q p.blocks)
              (omega (arith, len, long, p.small)),
          decode_blocks_back sk q p.blocks,
        )
        (remove_padding-padded text p.offset p.small)

-- For a key of eight bytes, a text of bytes and either of the two modes of padding, `ldesencode`
-- gives a code, and `ldesdecode` of that code with the same key and mode gives the text back.
pub ldesdecode-ldesencode :
    (key text : List ℕ) (mode : ℕ)
    → length key ≡ 8
    → IsBytes text
    → mode < 2
    → bind (ldesencode key text mode) (λ code. ldesdecode key code mode) ≡ some text
unfolding padding_add_func padding_remove_func
ldesdecode-ldesencode key text zero key8 bs lt =
    decoded zero _ _
      (record { adds = refl; removes = refl; sized = iso_sized; counted = iso_removed }) key text
      key8 bs
ldesdecode-ldesencode key text (suc zero) key8 bs lt =
    decoded (suc zero) _ _
      (record { adds = refl; removes = refl; sized = pkcs7_sized; counted = pkcs7_removed }) key
      text key8 bs
ldesdecode-ldesencode key text (suc (suc mode)) key8 bs lt = absurd (omega arith)
