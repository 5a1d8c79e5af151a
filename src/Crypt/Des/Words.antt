-- ===== src/Crypt/Des/Words.antt =====
-- The words of lualib-src/lua-crypt.cpp: the swaps and rotations of `DES_IP` and `DES_FP`, each
-- undone by its partner.
use fengnet.Base.{
  ℕ, ◌+◌, ◌-◌, ◌*◌, ◌/◌, ◌%◌, ◌^◌, ◌<◌, ◌≤◌, bit_and, bit_or, bit_xor, ◌≡◌, refl, ap, ap₂, sym, ◌∙◌,
  subst, arith, and-le, and_ones, fields_or, xor-lt, xor-shift, xor_both, xor_twice, mod-eq_of_lt,
  mod-lt, pow-pos,
}
use native.Mathlib.Nat.{mul-le-mul_right, mul-le-mul_left, mul-div_cancel}
use fengnet.Crypt.Des.{
  shl, shr, swap_bits, swap_back, mix_bits, rotate_left, rotate_right, left_x, left_y, right_x,
  right_y, des_ip, des_fp,
}

-- Two values of `uint32_t`.
abbrev pub AreWords : ℕ × ℕ → Type 0
AreWords s = (s.0 < 2 ^ 32) × (s.1 < 2 ^ 32)

-- Two functions on pairs of words that undo each other.
pub record AreInverse (f g : ℕ × ℕ → ℕ × ℕ) : Type 0 where
  pub forth : (s : ℕ × ℕ) → AreWords s → g (f s) ≡ s
  pub back : (s : ℕ × ℕ) → AreWords s → f (g s) ≡ s
  pub keeps : (s : ℕ × ℕ) → AreWords s → AreWords (f s)
  pub keeps_back : (s : ℕ × ℕ) → AreWords s → AreWords (g s)

module _ (f g f' g' : ℕ × ℕ → ℕ × ℕ) where
  after : AreInverse f g → AreInverse f' g' → AreInverse (λ s. f' (f s)) (λ s. g (g' s))
  after i j = record {
    forth = λ s w. ap g (j.forth (f s) (i.keeps s w)) ∙ i.forth s w;
    back = λ s w. ap f' (i.back (g' s) (j.keeps_back s w)) ∙ j.back s w;
    keeps = λ s w. j.keeps (f s) (i.keeps s w);
    keeps_back = λ s w. i.keeps_back (g' s) (j.keeps_back s w);
  }

  -- The same two functions under other names.
  other :
      ((s : ℕ × ℕ) → f' s ≡ f s) → ((s : ℕ × ℕ) → g' s ≡ g s) → AreInverse f g → AreInverse f' g'
  other e e' i = record {
    forth = λ s w. e' (f' s) ∙ ap g (e s) ∙ i.forth s w;
    back = λ s w. e (g' s) ∙ ap f (e' s) ∙ i.back s w;
    keeps = λ s w. subst AreWords (sym (e s)) (i.keeps s w);
    keeps_back = λ s w. subst AreWords (sym (e' s)) (i.keeps_back s w);
  }

-- A function that undoes itself.
own_inverse :
    (f : ℕ × ℕ → ℕ × ℕ)
    → ((s : ℕ × ℕ) → AreWords s → f (f s) ≡ s)
    → ((s : ℕ × ℕ) → AreWords s → AreWords (f s))
    → AreInverse f f
own_inverse f twice keep = record { forth = twice; back = twice; keeps = keep; keeps_back = keep }

module _ (k m : ℕ) (fits : m * 2 ^ k < 2 ^ 32) where
  abbrev chosen : ℕ → ℕ → ℕ
  chosen x y = bit_and (bit_xor (shr x k) y) m

  shifted : (t : ℕ) → t ≤ m → t * 2 ^ k < 2 ^ 32
  shifted t le = omega (arith, mul-le-mul_right (2 ^ k) le)

  placed : (t : ℕ) → t ≤ m → shl t k ≡ t * 2 ^ k
  placed t le = mod-eq_of_lt (shifted t le)

  -- The bits chosen the second time are those chosen the first time.
  again : (x y t : ℕ) → t ≤ m → chosen (bit_xor x (shl t k)) (bit_xor y t) ≡ chosen x y
  again x y t le =
      ap (λ u. bit_and u m)
        (ap (λ u. bit_xor (shr (bit_xor x u) k) (bit_xor y t)) (placed t le)
          ∙ ap (λ u. bit_xor u (bit_xor y t))
              (xor-shift k x (t * 2 ^ k) ∙ ap (bit_xor (shr x k)) (mul-div_cancel t (pow-pos k)))
          ∙ xor_both (shr x k) y t)

  swap_bits_twice : (s : ℕ × ℕ) → AreWords s → swap_bits k m (swap_bits k m s) ≡ s
  unfolding swap_bits
  swap_bits_twice (x, y) w =
      let t = chosen x y in
      let e = again x y t (and-le _ m) in
      ap₂ (λ (a b : ℕ). (a, b))
        (ap (λ u. bit_xor (bit_xor x (shl t k)) (shl u k)) e ∙ xor_twice x (shl t k))
        (ap (bit_xor (bit_xor y t)) e ∙ xor_twice y t)

  swap_bits_keeps : (s : ℕ × ℕ) → AreWords s → AreWords (swap_bits k m s)
  unfolding swap_bits
  swap_bits_keeps (x, y) (lx, ly) =
      let t = chosen x y in
      let le : t ≤ m = and-le _ m in
      (
        xor-lt 32 x (shl t k) lx (mod-lt (t * 2 ^ k) (omega arith)),
        xor-lt 32 y t ly (omega (arith, shifted t le, mul-le-mul_left t (pow-pos k))),
      )

  swap_bits_inverse : AreInverse (swap_bits k m) (swap_bits k m)
  swap_bits_inverse = own_inverse (swap_bits k m) swap_bits_twice swap_bits_keeps

  abbrev flip : ℕ × ℕ → ℕ × ℕ
  flip s = (s.1, s.0)

  swap_back_inverse : AreInverse (swap_back k m) (swap_back k m)
  unfolding swap_back swap_bits
  swap_back_inverse =
      own_inverse (swap_back k m) (λ s w. ap flip (swap_bits_twice (s.1, s.0) (w.1, w.0)))
        (λ s w. let (a, b) = swap_bits_keeps (s.1, s.0) (w.1, w.0) in (b, a))

mix_bits_inverse : AreInverse mix_bits mix_bits
unfolding mix_bits
mix_bits_inverse =
    own_inverse mix_bits
      (λ s w.
        let m : ℕ = 0xAAAAAAAA in
        let t : ℕ = bit_and (bit_xor s.0 s.1) m in
        let e : bit_and (bit_xor (bit_xor s.0 t) (bit_xor s.1 t)) m ≡ t =
          ap (λ u. bit_and u m) (xor_both s.0 s.1 t) in
        ap₂ (λ (a b : ℕ). (a, b)) (ap (bit_xor (bit_xor s.0 t)) e ∙ xor_twice s.0 t)
          (ap (bit_xor (bit_xor s.1 t)) e ∙ xor_twice s.1 t))
      (λ s (lx, ly).
        let small : bit_and (bit_xor s.0 s.1) 0xAAAAAAAA < 2 ^ 32 =
          omega (arith, and-le (bit_xor s.0 s.1) 0xAAAAAAAA) in
        (xor-lt 32 _ _ lx small, xor-lt 32 _ _ ly small))

rotate_left_value : (x : ℕ) → x < 2 ^ 32 → rotate_left x ≡ x % 2 ^ 31 * 2 + x / 2 ^ 31
unfolding rotate_left
rotate_left_value x lt =
    let high : shl x 1 ≡ x % 2 ^ 31 * 2 ^ 1 = omega arith in
    ap (λ u. bit_and (bit_or u (shr x 31)) (2 ^ 32 - 1)) high
    ∙ ap (λ u. bit_and u (2 ^ 32 - 1)) (fields_or 1 (x % 2 ^ 31) (x / 2 ^ 31) (omega arith))
    ∙ and_ones 32 (x % 2 ^ 31 * 2 + x / 2 ^ 31)
    ∙ mod-eq_of_lt (omega arith)

rotate_right_value : (x : ℕ) → x < 2 ^ 32 → rotate_right x ≡ x % 2 * 2 ^ 31 + x / 2
unfolding rotate_right
rotate_right_value x lt =
    let high : shl x 31 ≡ x % 2 * 2 ^ 31 = omega arith in
    ap (λ u. bit_and (bit_or u (shr x 1)) (2 ^ 32 - 1)) high
    ∙ ap (λ u. bit_and u (2 ^ 32 - 1)) (fields_or 31 (x % 2) (x / 2) (omega arith))
    ∙ and_ones 32 (x % 2 * 2 ^ 31 + x / 2)
    ∙ mod-eq_of_lt (omega arith)

rotate_left-lt : (x : ℕ) → x < 2 ^ 32 → rotate_left x < 2 ^ 32
rotate_left-lt x lt = omega (arith, rotate_left_value x lt)

rotate_right-lt : (x : ℕ) → x < 2 ^ 32 → rotate_right x < 2 ^ 32
rotate_right-lt x lt = omega (arith, rotate_right_value x lt)

left_right : (x : ℕ) → x < 2 ^ 32 → rotate_left (rotate_right x) ≡ x
left_right x lt =
    omega
      (arith, rotate_right_value x lt, rotate_left_value (rotate_right x) (rotate_right-lt x lt))

right_left : (x : ℕ) → x < 2 ^ 32 → rotate_right (rotate_left x) ≡ x
right_left x lt =
    omega (arith, rotate_left_value x lt, rotate_right_value (rotate_left x) (rotate_left-lt x lt))

left_y_inverse : AreInverse left_y right_y
left_y_inverse = record {
  forth = λ s w. ap (λ u. (s.0, u)) (right_left s.1 w.1);
  back = λ s w. ap (λ u. (s.0, u)) (left_right s.1 w.1);
  keeps = λ s w. (w.0, rotate_left-lt s.1 w.1);
  keeps_back = λ s w. (w.0, rotate_right-lt s.1 w.1);
}

left_x_inverse : AreInverse left_x right_x
left_x_inverse = record {
  forth = λ s w. ap (λ u. (u, s.1)) (right_left s.0 w.0);
  back = λ s w. ap (λ u. (u, s.1)) (left_right s.0 w.0);
  keeps = λ s w. (rotate_left-lt s.0 w.0, w.1);
  keeps_back = λ s w. (rotate_right-lt s.0 w.0, w.1);
}

-- `DES_FP` undoes `DES_IP`, and the other way round.
pub des_ip_inverse : AreInverse des_ip des_fp
unfolding des_ip des_fp
des_ip_inverse =
    other _ _ des_ip des_fp (λ s. refl) (λ s. refl)
      (after _ _ _ _ (swap_bits_inverse 4 0x0F0F0F0F (omega arith)) (
        after _ _ _ _ (swap_bits_inverse 16 0x0000FFFF (omega arith)) (
          after _ _ _ _ (swap_back_inverse 2 0x33333333 (omega arith)) (
            after _ _ _ _ (swap_back_inverse 8 0x00FF00FF (omega arith))
              (after _ _ _ _ left_y_inverse (after _ _ _ _ mix_bits_inverse left_x_inverse))))))
