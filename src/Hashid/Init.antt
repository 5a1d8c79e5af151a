-- ===== src/Hashid/Init.antt =====
-- `hashid_init` of service-src/hashid.h makes an empty table of the capacity asked for.
use fengnet.Base.{
  ℕ, zero, suc, ◌+◌, ◌*◌, ◌^◌, ◌≤◌, ◌≡◌, refl, sym, ap, ◌∙◌, Option, none, [], get_or, replicate,
  length-replicate, get_or-replicate, mul_assoc, pow_add, arith, Bool-cases, inl, inr, ltb,
}
use native.Mathlib.Nat.{pow-succ'}
use fengnet.Databuffer.{ℤ}
use fengnet.Hashid.{HashidNode, Hashid, no_node, node_at, eq_int, hash_capacity, hashid_init}
use fengnet.Hashid.Table.{IsHashid, Holds, free_id, used}

used-replicate : (n : ℕ) → used (replicate n no_node) ≡ 0
unfolding eq_int
used-replicate zero = refl
used-replicate (suc n) = used-replicate n

twice : (c k : ℕ) → c * 2 * 2 ^ k ≡ c * 2 ^ suc k
twice c k = mul_assoc c 2 (2 ^ k) ∙ ap (λ n. c * n) (sym (pow-succ' 2 k))

-- Doubling never loses what there was, and reaches `max` when the fuel is enough.
hash_capacity-ge : (fuel hashcap max : ℕ) → hashcap ≤ hash_capacity fuel hashcap max
unfolding hash_capacity
hash_capacity-ge zero hashcap max = omega arith
hash_capacity-ge (suc fuel) hashcap max = elim (Bool-cases (ltb hashcap max)) [
  | inl e ↦ rw e (omega (arith, hash_capacity-ge fuel (hashcap * 2) max))
  | inr e ↦ rw e (omega arith)
]

hash_capacity_reaches :
    (fuel hashcap max : ℕ) → max ≤ hashcap * 2 ^ fuel → max ≤ hash_capacity fuel hashcap max
unfolding hash_capacity
hash_capacity_reaches zero hashcap max le = omega arith
hash_capacity_reaches (suc fuel) hashcap max le = elim (Bool-cases (ltb hashcap max)) [
  | inl e ↦ rw e (hash_capacity_reaches fuel (hashcap * 2) max (omega (arith, twice hashcap fuel)))
  | inr e ↦ rw e (ground arith)
]

-- The capacity is a power of two times the first one, so that `hashmod` is a mask.
hash_capacity_power :
    (fuel hashcap max : ℕ) → (k : ℕ) × (hash_capacity fuel hashcap max ≡ hashcap * 2 ^ k)
unfolding hash_capacity
hash_capacity_power zero hashcap max = (0, omega arith)
hash_capacity_power (suc fuel) hashcap max = elim (Bool-cases (ltb hashcap max)) [
  | inl e ↦
      let (k, same) = hash_capacity_power fuel (hashcap * 2) max in
      (suc k, rw e (same ∙ twice hashcap k))
  | inr e ↦ (0, rw e (omega arith))
]

module _ (max : ℕ) (small : max ≤ 2 ^ 30) where
  abbrev hashcap : ℕ
  hashcap = hash_capacity 26 16 max

  -- Each node of the table is free.
  pub all_free : (i : ℕ) → node_at (hashid_init max).id i ≡ no_node
  unfolding hashid_init
  all_free i = get_or-replicate max i no_node

  free_node : (i : ℕ) → (node_at (hashid_init max).id i).id ≡ free_id
  free_node i = ap (λ (n : HashidNode). n.id) (all_free i)

  no_bucket : (b : ℕ) → get_or (hashid_init max).hash b none ≡ none
  unfolding hashid_init
  no_bucket b = get_or-replicate hashcap b none

  init-IsHashid : IsHashid (hashid_init max) (λ b. [])
  unfolding hashid_init
  init-IsHashid = record {
    nodes = length-replicate max no_node;
    buckets =
        omega (arith, length-replicate {A = Option ℕ} hashcap none, hash_capacity-ge 26 16 max);
    linked = λ b le. no_bucket b;
    distinct = λ b. tt;
    member = λ b i m. cc;
    complete = λ i lt busy. absurd (busy (free_node i));
    unique = λ i j li lj busy same. absurd (busy (free_node i));
    unlinked = λ i lt free. ap (λ (n : HashidNode). n.next) (all_free i);
    counted = sym (used-replicate max);
  }

-- A new table: well formed, of the capacity asked for, with no id in it, and with a mask of ones that
-- has at least as many buckets as nodes.
pub record IsFresh (max : ℕ) (hi : Hashid) : Type 0 where
  pub well : IsHashid hi (λ b. [])
  pub capacity : hi.cap ≡ max
  pub empty : (id : ℤ) (i : ℕ) → ¬ Holds hi id i
  pub enough : max ≤ suc hi.hashmod
  pub mask : (k : ℕ) × (suc hi.hashmod ≡ 2 ^ k)

-- For at most 2^30 nodes `hashid_init` makes an empty well-formed table of that capacity, whose buckets
-- are a power of two and no fewer than the nodes.
pub hashid_init-IsFresh : (max : ℕ) → max ≤ 2 ^ 30 → IsFresh max (hashid_init max)
unfolding hashid_init
hashid_init-IsFresh max small =
    let low : 16 ≤ hash_capacity 26 16 max = hash_capacity-ge 26 16 max in
    let (k, power) = hash_capacity_power 26 16 max in
    record {
      well = init-IsHashid max small;
      capacity = refl;
      empty = λ id i h. h.in_use (sym h.its_id ∙ free_node max small i);
      enough = omega (arith, hash_capacity_reaches 26 16 max (omega arith));
      mask = (4 + k, omega (arith, low, power, pow_add 4 k));
    }
