-- ===== src/Crypt/Base64.antt =====
-- `lb64encode`, `b64index` and `lb64decode` of lualib-src/lua-crypt.cpp: texts and bytes are lists of
-- bytes shorter than 2^31, `none` is a Lua error.
pub mod Groups
pub mod RoundTrip
use fengnet.Base.{
  ℕ, zero, suc, ◌+◌, ◌-◌, ◌*◌, ◌/◌, ◌%◌, ◌^◌, bit_and, bit_or, Bool, true, false, not, ◌||◌, Option,
  none, some, List, [], ◌∷◌, ◌++◌, ltb, leb, ◌==◌, if◌then◌else◌, get_or, length, replicate,
}
use mathlib.Core.Option.{map}
use fengnet.Crypt.Des.{shl, shr}

-- `encoding`: A to Z, a to z, 0 to 9, + and /.
abbrev alphabet : List ℕ
alphabet =
    65 ∷ 66 ∷ 67 ∷ 68 ∷ 69 ∷ 70 ∷ 71 ∷ 72 ∷ 73 ∷ 74 ∷ 75 ∷ 76 ∷ 77 ∷ 78 ∷ 79 ∷ 80 ∷ 81 ∷ 82 ∷ 83
    ∷ 84 ∷ 85 ∷ 86 ∷ 87 ∷ 88 ∷ 89 ∷ 90 ∷ 97 ∷ 98 ∷ 99 ∷ 100 ∷ 101 ∷ 102 ∷ 103 ∷ 104 ∷ 105 ∷ 106
    ∷ 107 ∷ 108 ∷ 109 ∷ 110 ∷ 111 ∷ 112 ∷ 113 ∷ 114 ∷ 115 ∷ 116 ∷ 117 ∷ 118 ∷ 119 ∷ 120 ∷ 121 ∷ 122
    ∷ 48 ∷ 49 ∷ 50 ∷ 51 ∷ 52 ∷ 53 ∷ 54 ∷ 55 ∷ 56 ∷ 57 ∷ 43 ∷ 47 ∷ []

unfoldable pub encoding : ℕ → ℕ
encoding n = get_or alphabet n 0

-- The four characters of three bytes.
unfoldable pub encode_three : ℕ → ℕ → ℕ → List ℕ
encode_three a b c =
    let v = bit_or (bit_or (shl a 16) (shl b 8)) c in
    encoding (shr v 18)
    ∷ encoding (bit_and (shr v 12) 0x3f)
    ∷ encoding (bit_and (shr v 6) 0x3f)
    ∷ encoding (bit_and v 0x3f)
    ∷ []

-- `lb64encode`: the loop, and the `switch` on what is left.
unfoldable pub lb64encode : List ℕ → List ℕ
lb64encode (a ∷ b ∷ c ∷ text) = encode_three a b c ++ lb64encode text
lb64encode [] = []
lb64encode (v ∷ []) = encoding (shr v 2) ∷ encoding (shl (bit_and v 3) 4) ∷ 61 ∷ 61 ∷ []
lb64encode (a ∷ b ∷ []) =
    let v = bit_or (shl a 8) b in
    encoding (shr v 10)
    ∷ encoding (bit_and (shr v 4) 0x3f)
    ∷ encoding (shl (bit_and v 0xf) 2)
    ∷ 61
    ∷ []

-- What `b64index` returns: `pad` is -2 and `foreign` is -1.
pub data Index : Type 0 where
  foreign : Index
  pad : Index
  six : ℕ → Index

-- `decoding`, from the character 43 on.
abbrev decoding : List Index
decoding =
    six 62
    ∷ foreign
    ∷ foreign
    ∷ foreign
    ∷ six 63
    ∷ six 52
    ∷ six 53
    ∷ six 54
    ∷ six 55
    ∷ six 56
    ∷ six 57
    ∷ six 58
    ∷ six 59
    ∷ six 60
    ∷ six 61
    ∷ foreign
    ∷ foreign
    ∷ foreign
    ∷ pad
    ∷ foreign
    ∷ foreign
    ∷ foreign
    ∷ six 0
    ∷ six 1
    ∷ six 2
    ∷ six 3
    ∷ six 4
    ∷ six 5
    ∷ six 6
    ∷ six 7
    ∷ six 8
    ∷ six 9
    ∷ six 10
    ∷ six 11
    ∷ six 12
    ∷ six 13
    ∷ six 14
    ∷ six 15
    ∷ six 16
    ∷ six 17
    ∷ six 18
    ∷ six 19
    ∷ six 20
    ∷ six 21
    ∷ six 22
    ∷ six 23
    ∷ six 24
    ∷ six 25
    ∷ foreign
    ∷ foreign
    ∷ foreign
    ∷ foreign
    ∷ foreign
    ∷ foreign
    ∷ six 26
    ∷ six 27
    ∷ six 28
    ∷ six 29
    ∷ six 30
    ∷ six 31
    ∷ six 32
    ∷ six 33
    ∷ six 34
    ∷ six 35
    ∷ six 36
    ∷ six 37
    ∷ six 38
    ∷ six 39
    ∷ six 40
    ∷ six 41
    ∷ six 42
    ∷ six 43
    ∷ six 44
    ∷ six 45
    ∷ six 46
    ∷ six 47
    ∷ six 48
    ∷ six 49
    ∷ six 50
    ∷ six 51
    ∷ []

unfoldable pub b64index : ℕ → Index
b64index c = if ltb c 43 then foreign else get_or decoding (c - 43) foreign

-- An index kept or skipped: the indices of a group, and the text that is left.
unfoldable pub put_index : Index → List Index × List ℕ → List Index × List ℕ
put_index foreign group = group
put_index pad group = (pad ∷ group.0, group.1)
put_index (six n) group = (six n ∷ group.0, group.1)

-- The count of indices to go after an index, with `suc j` before it.
unfoldable pub to_go : Index → ℕ → ℕ
to_go foreign j = suc j
to_go pad j = j
to_go (six n) j = j

-- The inner loop of `lb64decode` with `j` indices to go; behind the end of the text are pads.
unfoldable pub gather : List ℕ → ℕ → List Index × List ℕ
gather text zero = ([], text)
gather [] (suc j) = (replicate (suc j) pad, [])
gather (c ∷ text) (suc j) = put_index (b64index c) (gather text (to_go (b64index c) j))

unfoldable pub is_pad : Index → Bool
is_pad pad = true
is_pad foreign = false
is_pad (six n) = false

-- An index as a number; that of a pad is not used.
unfoldable pub number : Index → ℕ
number (six n) = n
number pad = 0
number foreign = 0

unfoldable pub pads : List Index → ℕ
pads [] = 0
pads (i ∷ is) = (if is_pad i then 1 else 0) + pads is

-- The bytes of a group without pads.
unfoldable pub three_bytes : ℕ → ℕ → ℕ → ℕ → List ℕ
three_bytes n0 n1 n2 n3 =
    let v = bit_or (bit_or (bit_or (shl n0 18) (shl n1 12)) (shl n2 6)) n3 in
    shr v 16 % 256 ∷ bit_and (shr v 8) 0xff ∷ bit_and v 0xff ∷ []

-- The bytes of a group with one pad.
unfoldable pub two_bytes : ℕ → ℕ → ℕ → List ℕ
two_bytes n0 n1 n2 =
    let v = bit_or (bit_or (shl n0 10) (shl n1 4)) (shr n2 2) in shr v 8 % 256 ∷ bit_and v 0xff ∷ []

-- The `switch` of `lb64decode` on the count of pads.
unfoldable pub decode_group : List Index → Option (List ℕ)
decode_group (c0 ∷ c1 ∷ c2 ∷ c3 ∷ []) =
    let padding = pads (c0 ∷ c1 ∷ c2 ∷ c3 ∷ []) in
    if padding == 0
    then some (three_bytes (number c0) (number c1) (number c2) (number c3))
    else if padding == 1
    then (if not (is_pad c3) || not (bit_and (number c2) 3 == 0)
        then none
        else some (two_bytes (number c0) (number c1) (number c2)))
    else if padding == 2
    then (if not (is_pad c3) || (not (is_pad c2) || not (bit_and (number c1) 0xf == 0))
        then none
        else some (bit_or (shl (number c0) 2) (shr (number c1) 4) % 256 ∷ []))
    else none
decode_group is = none

unfoldable pub put_group : Option (List ℕ) → Option (List ℕ) → Option (List ℕ)
put_group none rest = none
put_group (some bytes) rest = map (λ more. bytes ++ more) rest

-- The loop of `lb64decode`, with fuel.
unfoldable pub decode_loop : ℕ → List ℕ → Option (List ℕ)
decode_loop zero [] = some []
decode_loop zero (c ∷ text) = none
decode_loop (suc fuel) [] = some []
decode_loop (suc fuel) (c ∷ text) =
    let group = gather (c ∷ text) 4 in put_group (decode_group group.0) (decode_loop fuel group.1)

-- `lb64decode`; a turn of the loop takes at least one character.
unfoldable pub lb64decode : List ℕ → Option (List ℕ)
lb64decode text = decode_loop (length text) text
