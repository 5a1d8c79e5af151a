-- ===== src/Crypt/Des/Blocks.antt =====
-- `des_crypt` of lualib-src/lua-crypt.cpp with the subkeys in reverse order undoes `des_crypt`.
use fengnet.Base.{
  ℕ, zero, suc, ◌+◌, ◌^◌, ◌<◌, bit_or, bit_xor, List, [], ◌∷◌, ◌++◌, ◌≡◌, refl, ap, ap₂, sym, ◌∙◌,
  subst, arith, xor-lt, xor_twice, xor_assoc, get_or, Bool, true, ltb, ltb→lt, ◌&&◌,
}
use fengnet.Crypt.Bytes.{both_true}
use fengnet.Crypt.Des.Tables.{sb1, sb2, sb3, sb4, sb5, sb6, sb7, sb8}
use fengnet.Crypt.Des.{shl, shr, even_boxes, odd_boxes, des_round, subkeys, des_rounds}
use fengnet.Crypt.Des.Padding.{reverse_subkeys}
use fengnet.Crypt.Des.Words.{AreWords}

-- The values of a table are words.
all_words : List ℕ → Bool
all_words [] = true
all_words (x ∷ xs) = ltb x (2 ^ 32) && all_words xs

get_or-word : (table : List ℕ) (i : ℕ) → all_words table ≡ true → get_or table i 0 < 2 ^ 32
unfolding all_words
get_or-word [] i ok = omega arith
get_or-word (x ∷ xs) zero ok = ltb→lt x (2 ^ 32) (both_true _ _ ok).0
get_or-word (x ∷ xs) (suc i) ok = get_or-word xs i (both_true _ _ ok).1

-- Four words, one from each table.
four_words :
    (a b c d : ℕ)
    → a < 2 ^ 32
    → b < 2 ^ 32
    → c < 2 ^ 32
    → d < 2 ^ 32
    → bit_xor (bit_xor (bit_xor a b) c) d < 2 ^ 32
four_words a b c d la lb lc ld = xor-lt 32 _ d (xor-lt 32 _ c (xor-lt 32 a b la lb) lc) ld

even_tables :
    (all_words sb8 ≡ true)
    × (all_words sb6 ≡ true)
    × (all_words sb4 ≡ true)
    × (all_words sb2 ≡ true)
unfolding all_words sb8 sb6 sb4 sb2
even_tables = (refl, refl, refl, refl)

even_boxes-lt : (t : ℕ) → even_boxes t < 2 ^ 32
unfolding even_boxes
even_boxes-lt t =
    let (p, q, r, u) = even_tables in
    four_words _ _ _ _ (get_or-word sb8 _ p) (get_or-word sb6 _ q) (get_or-word sb4 _ r)
      (get_or-word sb2 _ u)

odd_tables :
    (all_words sb7 ≡ true)
    × (all_words sb5 ≡ true)
    × (all_words sb3 ≡ true)
    × (all_words sb1 ≡ true)
unfolding all_words sb7 sb5 sb3 sb1
odd_tables = (refl, refl, refl, refl)

odd_boxes-lt : (t : ℕ) → odd_boxes t < 2 ^ 32
unfolding odd_boxes
odd_boxes-lt t =
    let (p, q, r, u) = odd_tables in
    four_words _ _ _ _ (get_or-word sb7 _ p) (get_or-word sb5 _ q) (get_or-word sb3 _ r)
      (get_or-word sb1 _ u)

des_round-lt : (sk : ℕ × ℕ) (x y : ℕ) → y < 2 ^ 32 → des_round sk x y < 2 ^ 32
unfolding des_round
des_round-lt sk x y ly = xor-lt 32 _ _ (xor-lt 32 y _ ly (even_boxes-lt _)) (odd_boxes-lt _)

-- A round undoes itself.
des_round_twice : (sk : ℕ × ℕ) (x y : ℕ) → des_round sk x (des_round sk x y) ≡ y
unfolding des_round
des_round_twice sk x y =
    let e = even_boxes (bit_xor sk.0 x) in
    let o = odd_boxes (bit_xor sk.1 (bit_or (shl x 28) (shr x 4))) in
    xor_assoc (bit_xor (bit_xor y e) o) e o
    ∙ ap (λ u. bit_xor u (bit_xor e o)) (xor_assoc y e o)
    ∙ xor_twice y (bit_xor e o)

-- `DES_ROUND( Y, X );  DES_ROUND( X, Y );` with two pairs of subkeys.
line : (ℕ × ℕ) × (ℕ × ℕ) → ℕ × ℕ → ℕ × ℕ
line (k, l) (x, y) = let x' = des_round k y x in (x', des_round l x' y)

lines : List ((ℕ × ℕ) × (ℕ × ℕ)) → ℕ × ℕ → ℕ × ℕ
lines [] s = s
lines (p ∷ ps) s = lines ps (line p s)

abbrev flip {ℓ} : {A : Type ℓ} → A × A → A × A
flip s = (s.1, s.0)

-- A line with its subkeys exchanged undoes the line, on exchanged words.
line_back : (p : (ℕ × ℕ) × (ℕ × ℕ)) (s : ℕ × ℕ) → line (flip p) (flip (line p s)) ≡ flip s
unfolding line
line_back (k, l) (x, y) =
    let x' = des_round k y x in
    let e : des_round l x' (des_round l x' y) ≡ y = des_round_twice l x' y in
    ap (λ u. (u, des_round k u x')) e ∙ ap (λ u. (y, u)) (des_round_twice k y x)

backwards : List ((ℕ × ℕ) × (ℕ × ℕ)) → List ((ℕ × ℕ) × (ℕ × ℕ))
backwards [] = []
backwards (p ∷ ps) = backwards ps ++ (flip p ∷ [])

lines-append :
    (ps qs : List ((ℕ × ℕ) × (ℕ × ℕ))) (s : ℕ × ℕ) → lines (ps ++ qs) s ≡ lines qs (lines ps s)
unfolding lines
lines-append [] qs s = refl
lines-append (p ∷ ps) qs s = lines-append ps qs (line p s)

lines_back :
    (ps : List ((ℕ × ℕ) × (ℕ × ℕ))) (s : ℕ × ℕ) → lines (backwards ps) (flip (lines ps s)) ≡ flip s
unfolding lines backwards
lines_back [] s = refl
lines_back (p ∷ ps) s =
    lines-append (backwards ps) (flip p ∷ []) (flip (lines ps (line p s)))
    ∙ ap (line (flip p)) (lines_back ps (line p s))
    ∙ line_back p s

lines-AreWords : (ps : List ((ℕ × ℕ) × (ℕ × ℕ))) (s : ℕ × ℕ) → AreWords s → AreWords (lines ps s)
unfolding lines line
lines-AreWords [] s w = w
lines-AreWords ((k, l) ∷ ps) (x, y) (lx, ly) =
    let x' = des_round k y x in
    lines-AreWords ps (x', des_round l x' y) (des_round-lt k y x lx, des_round-lt l x' y ly)

-- The subkeys of `rounds` lines from `sk[p]` on.
keys_from : ℕ → List ℕ → ℕ → List ((ℕ × ℕ) × (ℕ × ℕ))
keys_from zero sk p = []
keys_from (suc n) sk p = (subkeys sk p, subkeys sk (p + 2)) ∷ keys_from n sk (p + 4)

des_rounds-lines :
    (n : ℕ) (sk : List ℕ) (p : ℕ) (s : ℕ × ℕ) → des_rounds n sk p s ≡ lines (keys_from n sk p) s
unfolding des_rounds lines keys_from line
des_rounds-lines zero sk p s = refl
des_rounds-lines (suc n) sk p (x, y) = des_rounds-lines n sk (p + 4) _

reverse_subkeys-backwards :
    (sk : List ℕ) → keys_from 8 (reverse_subkeys 16 0 sk) 0 ≡ backwards (keys_from 8 sk 0)
unfolding keys_from reverse_subkeys backwards
reverse_subkeys-backwards sk = refl

-- The sixteen rounds with the subkeys in reverse order.
pub des_rounds_back :
    (sk : List ℕ) (s : ℕ × ℕ)
    → des_rounds 8 (reverse_subkeys 16 0 sk) 0 (flip (des_rounds 8 sk 0 s)) ≡ flip s
des_rounds_back sk s =
    des_rounds-lines 8 (reverse_subkeys 16 0 sk) 0 _
    ∙ ap₂ (λ ps t. lines ps (flip t)) (reverse_subkeys-backwards sk) (des_rounds-lines 8 sk 0 s)
    ∙ lines_back (keys_from 8 sk 0) s

pub des_rounds-AreWords : (sk : List ℕ) (s : ℕ × ℕ) → AreWords s → AreWords (des_rounds 8 sk 0 s)
des_rounds-AreWords sk s w =
    subst AreWords (sym (des_rounds-lines 8 sk 0 s)) (lines-AreWords (keys_from 8 sk 0) s w)
