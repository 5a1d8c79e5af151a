-- ===== src/Handle/Slots/Table.antt =====
-- What the slots of fengnet_handle.cpp mean: a finite map from handles to contexts.
use fengnet.Base.{
  ℕ, ◌+◌, ◌-◌, ◌*◌, ◌/◌, ◌%◌, ◌^◌, ◌≤◌, ◌<◌, ◌≡◌, ◌≢◌, refl, sym, ap, ◌∙◌, bit_and, bit_or, Option,
  none, some, length, ==_refl, ne→==_false, and_ones, or_fields, pow_add, mul-add-mod_self_right,
  mul_assoc, arith,
}
use fengnet.Handle.Slots.{HandleStorage, slot_at, hash, matching, handle_grab}

-- The slots of a table of 2^k slots: a context stands in the slot that its handle gives.
pub record IsSlots (handles : ℕ → ℕ) (k : ℕ) (s : HandleStorage) : Type 0 where
  pub width : s.slot_size ≡ 2 ^ k
  pub some_bit : 1 ≤ k
  pub small : k ≤ 24
  pub storage : length s.slot ≡ 2 ^ k
  pub index_low : 1 ≤ s.handle_index
  pub index_high : s.handle_index ≤ 2 ^ 24
  pub harbor_bits : s.harbor ≡ s.harbor / 2 ^ 24 * 2 ^ 24
  pub placed : (i ctx : ℕ) → slot_at s.slot i ≡ some ctx → handles ctx % 2 ^ k ≡ i

pub hash_lem : (x k n : ℕ) → n ≡ 2 ^ k → hash x n ≡ x % 2 ^ k
hash_lem x k n e = ap (λ t. bit_and x (t - 1)) e ∙ and_ones k x

pub grab_lem :
    (handles : ℕ → ℕ) (k q : ℕ) (s : HandleStorage)
    → s.slot_size ≡ 2 ^ k
    → handle_grab handles q s ≡ matching handles q (slot_at s.slot (q % 2 ^ k))
unfolding handle_grab
grab_lem handles k q s e =
    ap (λ t. matching handles q (slot_at s.slot t)) (hash_lem q k s.slot_size e)

-- The low 24 bits of a registered handle are its index, and so its slot is that of the index.
pub low_bits :
    (h harbor k : ℕ)
    → harbor ≡ harbor / 2 ^ 24 * 2 ^ 24
    → h < 2 ^ 24
    → k ≤ 24
    → bit_or h harbor % 2 ^ k ≡ h % 2 ^ k
low_bits h harbor k bits lt le =
    ap (λ t. bit_or h t % 2 ^ k) bits
    ∙ ap (λ t. t % 2 ^ k)
        (or_fields 24 (harbor / 2 ^ 24) h lt
          ∙ ap (λ t. harbor / 2 ^ 24 * t + h) split
          ∙ ap (λ t. t + h) (sym (mul_assoc (harbor / 2 ^ 24) (2 ^ (24 - k)) (2 ^ k))))
    ∙ mul-add-mod_self_right (harbor / 2 ^ 24 * 2 ^ (24 - k)) (2 ^ k) h
  where
    split : 2 ^ 24 ≡ 2 ^ (24 - k) * 2 ^ k
    split = let e : 24 ≡ 24 - k + k = omega arith in ap (λ t. 2 ^ t) e ∙ pow_add (24 - k) k

-- A context is matched by its own handle only.
pub matching_own :
    (handles : ℕ → ℕ) (q ctx : ℕ) → handles ctx ≡ q → matching handles q (some ctx) ≡ some ctx
unfolding matching
matching_own handles q ctx e = rw (e, ==_refl q) refl

pub matching_other :
    (handles : ℕ → ℕ) (q ctx : ℕ) → handles ctx ≢ q → matching handles q (some ctx) ≡ none
unfolding matching
matching_other handles q ctx ne = rw (ne→==_false (handles ctx) q ne) refl

pub matching-none : (handles : ℕ → ℕ) (q : ℕ) → matching handles q none ≡ none
unfolding matching
matching-none handles q = refl

pub matching-some :
    (handles : ℕ → ℕ) (q ctx : ℕ) (o : Option ℕ)
    → matching handles q o ≡ some ctx
    → (o ≡ some ctx) × (handles ctx ≡ q)
unfolding matching
matching-some handles q ctx none e = cc
matching-some handles q ctx (some c) e = ground arith
