-- ===== src/Crypt/Des/Padding.antt =====
-- The paddings of lualib-src/lua-crypt.cpp, and `ldesencode` and `ldesdecode` over them. The key and
-- the texts are lists of bytes, shorter than 2^31; `none` is a Lua error.
use fengnet.Base.{
  ℕ, zero, suc, ◌+◌, ◌-◌, bit_and, not, Option, none, some, List, [], ◌∷◌, ◌++◌, leb, ◌==◌, ◌||◌,
  if◌then◌else◌, get_or, take, replicate, length, reverse,
}
use mathlib.Core.Option.{bind, map}
use fengnet.Crypt.Des.{des_crypt, des_main_ks}

-- What `padding_add_iso7816_4` writes from `buf[offset]` on.
unfoldable pub padding_add_iso7816_4 : ℕ → List ℕ
padding_add_iso7816_4 offset = 0x80 ∷ replicate (7 - offset) 0

-- What `padding_add_pkcs7` writes from `buf[offset]` on.
unfoldable pub padding_add_pkcs7 : ℕ → List ℕ
padding_add_pkcs7 offset = replicate (8 - offset) (8 - offset)

-- The loop of `padding_remove_iso7816_4` with `rounds` left, on the bytes at `last`, `last - 1`, ...
unfoldable pub iso_loop : ℕ → ℕ → List ℕ → ℕ
iso_loop zero padding last = 0
iso_loop (suc rounds) padding [] = 0
iso_loop (suc rounds) padding (c ∷ last) =
    let rest = iso_loop rounds (suc padding) last in
    if c == 0 then rest else if c == 0x80 then padding else 0

unfoldable pub padding_remove_iso7816_4 : List ℕ → ℕ
padding_remove_iso7816_4 last = iso_loop 8 1 last

-- The loop of `padding_remove_pkcs7` with `rounds` left. Before the buffer it reads what stands there;
-- it does so for a padding above 8 only, and `ldesdecode` rejects both answers then.
unfoldable pub pkcs7_loop : ℕ → ℕ → List ℕ → ℕ
pkcs7_loop zero padding last = padding
pkcs7_loop (suc rounds) padding [] = 0
pkcs7_loop (suc rounds) padding (c ∷ last) =
    let rest = pkcs7_loop rounds padding last in if c == padding then rest else 0

unfoldable pub padding_remove_pkcs7 : List ℕ → ℕ
padding_remove_pkcs7 [] = 0
padding_remove_pkcs7 (padding ∷ last) = pkcs7_loop (padding - 1) padding last

-- `padding_add_func[mode]` and `padding_remove_func[mode]`, behind `check_padding_mode`.
unfoldable pub padding_add_func : ℕ → Option (ℕ → List ℕ)
padding_add_func zero = some padding_add_iso7816_4
padding_add_func (suc zero) = some padding_add_pkcs7
padding_add_func (suc (suc mode)) = none

unfoldable pub padding_remove_func : ℕ → Option (List ℕ → ℕ)
padding_remove_func zero = some padding_remove_iso7816_4
padding_remove_func (suc zero) = some padding_remove_pkcs7
padding_remove_func (suc (suc mode)) = none

-- `add_padding` of the whole of `src`: the eight bytes of `buf`.
unfoldable pub add_padding : List ℕ → ℕ → Option (List ℕ)
add_padding src mode =
    bind (padding_add_func mode)
      (λ add. if leb 8 (length src) then none else some (src ++ add (length src)))

-- The loop of `ldesencode` and the tail after it.
unfoldable pub encode_blocks : List ℕ → ℕ → List ℕ → Option (List ℕ)
encode_blocks sk mode (a ∷ b ∷ c ∷ d ∷ e ∷ f ∷ g ∷ h ∷ text) =
    map (λ rest. des_crypt sk (a ∷ b ∷ c ∷ d ∷ e ∷ f ∷ g ∷ h ∷ []) ++ rest)
      (encode_blocks sk mode text)
encode_blocks sk mode text = map (des_crypt sk) (add_padding text mode)

-- The loop of `ldesdecode` over whole blocks.
unfoldable pub decode_blocks : List ℕ → List ℕ → List ℕ
decode_blocks sk (a ∷ b ∷ c ∷ d ∷ e ∷ f ∷ g ∷ h ∷ text) =
    des_crypt sk (a ∷ b ∷ c ∷ d ∷ e ∷ f ∷ g ∷ h ∷ []) ++ decode_blocks sk text
decode_blocks sk text = []

-- `des_key`.
unfoldable pub des_key : List ℕ → Option (List ℕ)
des_key key = if length key == 8 then some (des_main_ks key) else none

unfoldable pub ldesencode : List ℕ → List ℕ → ℕ → Option (List ℕ)
ldesencode key text mode = bind (des_key key) (λ sk. encode_blocks sk mode text)

-- `SK[i] = ESK[30 - i]; SK[i + 1] = ESK[31 - i];` from `i` on, `rounds` times.
unfoldable pub reverse_subkeys : ℕ → ℕ → List ℕ → List ℕ
reverse_subkeys zero i esk = []
reverse_subkeys (suc rounds) i esk =
    get_or esk (30 - i) 0 ∷ get_or esk (31 - i) 0 ∷ reverse_subkeys rounds (i + 2) esk

-- The end of `ldesdecode`: the padding taken off the decoded bytes.
unfoldable pub remove_padding : List ℕ → ℕ → Option (List ℕ)
remove_padding buffer mode = bind (padding_remove_func mode) (λ remove.
    let padding = remove (reverse buffer) in
    if leb padding 0 || leb 9 padding then none else some (take (length buffer - padding) buffer))

unfoldable pub ldesdecode : List ℕ → List ℕ → ℕ → Option (List ℕ)
ldesdecode key text mode = bind (des_key key) (λ esk.
    if not (bit_and (length text) 7 == 0) || length text == 0
    then none
    else remove_padding (decode_blocks (reverse_subkeys 16 0 esk) text) mode)
