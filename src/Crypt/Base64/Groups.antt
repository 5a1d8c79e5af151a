-- ===== src/Crypt/Base64/Groups.antt =====
-- The groups of four characters of `lb64encode` and `lb64decode` in lualib-src/lua-crypt.cpp.
use fengnet.Base.{
  ℕ, suc, ◌+◌, ◌*◌, ◌/◌, ◌%◌, ◌^◌, ◌<◌, bit_and, bit_or, Bool, true, false, List, [], ◌∷◌, ◌==◌,
  ◌≡◌, refl, ap, ap₂, ◌∙◌, arith, and_ones, fields_or, ==_iff,
}
use fengnet.Crypt.Bytes.{AreBytes, checked}
use fengnet.Crypt.Des.{shl, shr}
use fengnet.Crypt.Base64.{
  encoding, encode_three, Index, foreign, pad, six, b64index, put_index, to_go, gather, three_bytes,
}

is_six : Index → ℕ → Bool
is_six (six m) n = m == n
is_six foreign n = false
is_six pad n = false

is_six_lem : (i : Index) (n : ℕ) → is_six i n ≡ true → i ≡ six n
unfolding is_six
is_six_lem (six m) n e = ap six ((==_iff m n).0 e)
is_six_lem foreign n e = cc
is_six_lem pad n e = cc

indices_checked : (n : ℕ) → n < 64 → is_six (b64index (encoding n)) n ≡ true
unfolding is_six b64index encoding
indices_checked = checked (λ n. is_six (b64index (encoding n)) n) 64 refl

-- A character of the alphabet is read as what it stands for.
pub b64index-encoding : (n : ℕ) → n < 64 → b64index (encoding n) ≡ six n
b64index-encoding n lt = is_six_lem _ n (indices_checked n lt)

pub equals_sign : b64index 61 ≡ pad
unfolding b64index
equals_sign = refl

unfoldable pub is_foreign : Index → Bool
is_foreign foreign = true
is_foreign pad = false
is_foreign (six n) = false

gather_kept :
    (c : ℕ) (i : Index) (text : List ℕ) (j : ℕ)
    → b64index c ≡ i
    → is_foreign i ≡ false
    → gather (c ∷ text) (suc j) ≡ (i ∷ (gather text j).0, (gather text j).1)
unfolding gather put_index to_go is_foreign
gather_kept c foreign text j e kept = cc
gather_kept c pad text j e kept = rw e refl
gather_kept c (six n) text j e kept = rw e refl

-- A group of four characters, none of them foreign.
pub gather_four :
    (a b c d : ℕ) (i j k l : Index) (rest : List ℕ)
    → (b64index a ≡ i) × (b64index b ≡ j) × (b64index c ≡ k) × (b64index d ≡ l)
    → (is_foreign i ≡ false)
      × (is_foreign j ≡ false)
      × (is_foreign k ≡ false)
      × (is_foreign l ≡ false)
    → gather (a ∷ b ∷ c ∷ d ∷ rest) 4 ≡ (i ∷ j ∷ k ∷ l ∷ [], rest)
gather_four a b c d i j k l rest (ei, ej, ek, el) (fi, fj, fk, fl) =
    let put : Index → List Index × List ℕ → List Index × List ℕ = λ i g. (i ∷ g.0, g.1) in
    gather_kept a i (b ∷ c ∷ d ∷ rest) 3 ei fi
    ∙ ap (put i) (
        gather_kept b j (c ∷ d ∷ rest) 2 ej fj
        ∙ ap (put j) (
            gather_kept c k (d ∷ rest) 1 ek fk
            ∙ ap (put k) (gather_kept d l rest 0 el fl ∙ unfold gather in refl)))

-- The fields of a group are joined again.
pub three_bytes_lem :
    (a b c : ℕ)
    → AreBytes a b c 0
    → three_bytes (a / 4) (a % 4 * 16 + b / 16) (b % 16 * 4 + c / 64) (c % 64) ≡ a ∷ b ∷ c ∷ []
unfolding three_bytes
three_bytes_lem a b c (la, lb, lc, _) =
    let p : ℕ = a / 4 in
    let q : ℕ = a % 4 * 16 + b / 16 in
    let r : ℕ = b % 16 * 4 + c / 64 in
    let s : ℕ = c % 64 in
    let v : ℕ = a * 2 ^ 16 + b * 2 ^ 8 + c in
    let ep : shl p 18 ≡ p * 2 ^ 18 = omega arith in
    let eq : shl q 12 ≡ q * 2 ^ 12 = omega arith in
    let er : shl r 6 ≡ r * 2 ^ 6 = omega arith in
    let first : bit_or (p * 2 ^ 18) (q * 2 ^ 12) ≡ (p * 64 + q) * 2 ^ 12 =
      omega (arith, fields_or 18 p (q * 2 ^ 12) (omega arith)) in
    let second : bit_or ((p * 64 + q) * 2 ^ 12) (r * 2 ^ 6) ≡ ((p * 64 + q) * 64 + r) * 2 ^ 6 =
      omega (arith, fields_or 12 (p * 64 + q) (r * 2 ^ 6) (omega arith)) in
    let joined : bit_or (bit_or (bit_or (shl p 18) (shl q 12)) (shl r 6)) s ≡ v =
      ap₂ (λ x y. bit_or (bit_or (bit_or x y) (shl r 6)) s) ep eq
      ∙ ap₂ (λ x y. bit_or (bit_or x y) s) first er
      ∙ ap (λ x. bit_or x s) second
      ∙ fields_or 6 ((p * 64 + q) * 64 + r) s (omega arith)
      ∙ omega arith in
    let h : shr v 16 % 256 ≡ a = omega arith in
    let m : bit_and (shr v 8) 0xff ≡ b = and_ones 8 (shr v 8) ∙ omega arith in
    let l : bit_and v 0xff ≡ c = and_ones 8 v ∙ omega arith in
    ap (λ x. shr x 16 % 256 ∷ bit_and (shr x 8) 0xff ∷ bit_and x 0xff ∷ []) joined
    ∙ ap₂ (λ x y. x ∷ y ∷ bit_and v 0xff ∷ []) h m
    ∙ ap (λ x. a ∷ b ∷ x ∷ []) l

-- The characters of three bytes, by their fields.
pub encode_three_lem :
    (a b c : ℕ)
    → AreBytes a b c 0
    → encode_three a b c
      ≡ encoding (a / 4)
        ∷ encoding (a % 4 * 16 + b / 16)
        ∷ encoding (b % 16 * 4 + c / 64)
        ∷ encoding (c % 64)
        ∷ []
unfolding encode_three
encode_three_lem a b c (la, lb, lc, _) =
    let v : ℕ = (a * 2 ^ 8 + b) * 2 ^ 8 + c in
    let ea : shl a 16 ≡ a * 2 ^ 16 = omega arith in
    let eb : shl b 8 ≡ b * 2 ^ 8 = omega arith in
    let first : bit_or (a * 2 ^ 16) (b * 2 ^ 8) ≡ (a * 2 ^ 8 + b) * 2 ^ 8 =
      omega (arith, fields_or 16 a (b * 2 ^ 8) (omega arith)) in
    let joined : bit_or (bit_or (shl a 16) (shl b 8)) c ≡ v =
      ap₂ (λ x y. bit_or (bit_or x y) c) ea eb
      ∙ ap (λ x. bit_or x c) first
      ∙ fields_or 8 (a * 2 ^ 8 + b) c lc in
    let e0 : shr v 18 ≡ a / 4 = omega arith in
    let e1 : bit_and (shr v 12) 0x3f ≡ a % 4 * 16 + b / 16 = and_ones 6 (shr v 12) ∙ omega arith in
    let e2 : bit_and (shr v 6) 0x3f ≡ b % 16 * 4 + c / 64 = and_ones 6 (shr v 6) ∙ omega arith in
    let e3 : bit_and v 0x3f ≡ c % 64 = and_ones 6 v ∙ omega arith in
    ap
      (λ x.
        encoding (shr x 18)
        ∷ encoding (bit_and (shr x 12) 0x3f)
        ∷ encoding (bit_and (shr x 6) 0x3f)
        ∷ encoding (bit_and x 0x3f)
        ∷ [])
      joined
    ∙ ap₂
        (λ x y.
          encoding x
          ∷ encoding y
          ∷ encoding (bit_and (shr v 6) 0x3f)
          ∷ encoding (bit_and v 0x3f)
          ∷ [])
        e0 e1
    ∙ ap₂ (λ x y. encoding (a / 4) ∷ encoding (a % 4 * 16 + b / 16) ∷ encoding x ∷ encoding y ∷ [])
        e2 e3
