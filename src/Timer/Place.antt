-- ===== src/Timer/Place.antt =====
-- `add_node` of fengnet_timer.cpp puts a node where it belongs, and nothing else moves.
use fengnet.Base.{
  ℕ, ◌+◌, ◌*◌, ◌/◌, ◌%◌, ◌^◌, ◌≡◌, ◌≢◌, refl, sym, subst, ◌⊎◌, inl, inr, List, [], ◌∷◌, ◌++◌, ◌==◌,
  ==_iff, ==_false, ==_refl, Bool-cases, if◌then◌else◌, bit_or, or_ones, and_ones, arith,
}
use fengnet.Timer.{
  TimerNode, Timer, add_node, find_level, link_near, link_level, update, time_near, time_level,
}
use fengnet.Timer.Lists.{
  All, Within, All-append, Within-append, Within-append_left, Within-append_last,
}
use fengnet.Timer.Wheel.{AtNear, AtLevel, Wheel, Fits}

-- Setting the low bits of both sides compares the blocks.
same_block8 : (a b : ℕ) → (bit_or a 255 == bit_or b 255) ≡ (a / 256 == b / 256)
same_block8 a b = ground (arith, or_ones 8 a, or_ones 8 b)

same_block14 : (a b : ℕ) → (bit_or a 16383 == bit_or b 16383) ≡ (a / 16384 == b / 16384)
same_block14 a b = ground (arith, or_ones 14 a, or_ones 14 b)

same_block20 : (a b : ℕ) → (bit_or a 1048575 == bit_or b 1048575) ≡ (a / 2 ^ 20 == b / 2 ^ 20)
same_block20 a b = ground (arith, or_ones 20 a, or_ones 20 b)

same_block26 : (a b : ℕ) → (bit_or a 67108863 == bit_or b 67108863) ≡ (a / 2 ^ 26 == b / 2 ^ 26)
same_block26 a b = ground (arith, or_ones 26 a, or_ones 26 b)

-- The level that the loop of `add_node` ends at.
abbrev pub level : ℕ → ℕ → ℕ
level e now =
    if e / 2 ^ 14 == now / 2 ^ 14
    then 0
    else if e / 2 ^ 20 == now / 2 ^ 20
    then 1
    else if e / 2 ^ 26 == now / 2 ^ 26
    then 2
    else 3

find_level-level : (e now : ℕ) → find_level 3 0 (time_near * time_level) e now ≡ level e now
unfolding find_level
find_level-level e now = rw (same_block14 e now, same_block20 e now, same_block26 e now) refl

abbrev pub slot : ℕ → ℕ → ℕ
slot i e = e / 2 ^ (8 + i * 6) % 64

-- `add_node` in terms of blocks and remainders.
pub add_node-eq :
    (n : TimerNode) (T : Timer)
    → add_node n T ≡ (
        if n.expire / 256 == T.time / 256
        then link_near (n.expire % 256) n T
        else link_level (level n.expire T.time) (slot (level n.expire T.time) n.expire) n T)
unfolding add_node
add_node-eq n T =
    rw
      (
        same_block8 n.expire T.time,
        find_level-level n.expire T.time,
        and_ones 8 n.expire,
        and_ones 6 (n.expire / 2 ^ (8 + level n.expire T.time * 6)),
      )
      refl

AtLevel-level :
    (lag : ℕ) (n : TimerNode) (now : ℕ)
    → Fits lag now n
    → n.expire / 256 ≢ now / 256
    → AtLevel (level n.expire now) now (slot (level n.expire now) n.expire) n
AtLevel-level lag n now f ne = elim (Bool-cases (n.expire / 2 ^ 14 == now / 2 ^ 14)) [
  | inl a ↦ rw a (omega (arith, (==_iff _ _).0 a))
  | inr a ↦ elim (Bool-cases (n.expire / 2 ^ 20 == now / 2 ^ 20)) [
    | inl b ↦ rw (a, b) (omega (arith, ==_false _ _ a, (==_iff _ _).0 b))
    | inr b ↦ elim (Bool-cases (n.expire / 2 ^ 26 == now / 2 ^ 26)) [
      | inl c ↦ rw (a, b, c) (omega (arith, ==_false _ _ b, (==_iff _ _).0 c))
      | inr c ↦ rw (a, b, c) (omega (arith, ==_false _ _ c))
    ]
  ]
]

module _ (n : TimerNode) (T : Timer) where
  -- A node linked to a list that it belongs to.
  link_near-Wheel : (lag j : ℕ) → AtNear lag T.time j n → Wheel lag T → Wheel lag (link_near j n T)
  link_near-Wheel lag j at_j w = record {
    fits = w.fits;
    levels = w.levels;
    nears = λ k. elim (Bool-cases (j == k)) [
      | inl e ↦ rw e (
          subst (λ i. All (AtNear lag T.time i) (T.near j ++ (n ∷ []))) ((==_iff j k).0 e)
            (All-append (AtNear lag T.time j) (T.near j) n (w.nears j) at_j))
      | inr ne ↦ rw ne (w.nears k)
    ];
  }

  link_level-Wheel :
      (lag i j : ℕ) → AtLevel i T.time j n → Wheel lag T → Wheel lag (link_level i j n T)
  link_level-Wheel lag i j at_j w = record {
    fits = w.fits;
    nears = w.nears;
    levels = λ i' j'. elim (Bool-cases (i == i')) [
      | inl e ↦ rw e (at_level i' j' ((==_iff i i').0 e))
      | inr ne ↦ rw ne (w.levels i' j')
    ];
  }
    where
      at_level :
          (i' j' : ℕ)
          → i ≡ i'
          → All (AtLevel i' T.time j') (update (T.t i) j (T.t i j ++ (n ∷ [])) j')
      at_level i' j' e =
          subst (λ k. All (AtLevel k T.time j') (update (T.t i) j (T.t i j ++ (n ∷ [])) j')) e
            (elim (Bool-cases (j == j')) [
              | inl f ↦ rw f (
                  subst (λ k. All (AtLevel i T.time k) (T.t i j ++ (n ∷ []))) ((==_iff j j').0 f)
                    (All-append (AtLevel i T.time j) (T.t i j) n (w.levels i j) at_j))
              | inr ne ↦ rw ne (w.levels i j')
            ])

-- `add_node` keeps the invariant for every node that does not lie behind.
pub add_node-Wheel :
    (lag : ℕ) (n : TimerNode) (T : Timer)
    → Fits lag T.time n
    → Wheel lag T
    → Wheel lag (add_node n T)
add_node-Wheel lag n T f w =
    rw (add_node-eq n T) (elim (Bool-cases (n.expire / 256 == T.time / 256)) [
      | inl e ↦ rw e (link_near-Wheel n T lag (n.expire % 256) (near ((==_iff _ _).0 e)) w)
      | inr ne ↦ rw ne (
          link_level-Wheel n T lag (level n.expire T.time) (slot (level n.expire T.time) n.expire)
            (AtLevel-level lag n T.time f (==_false _ _ ne)) w)
    ])
  where
    near : n.expire / 256 ≡ T.time / 256 → AtNear lag T.time (n.expire % 256) n
    near e = omega arith

module _ (f : ℕ → List TimerNode) (j : ℕ) (n m : TimerNode) where
  abbrev pub linked : ℕ → List TimerNode
  linked = update f j (f j ++ (n ∷ []))

  pub old-Within : (k : ℕ) → Within m (f k) → Within m (linked k)
  old-Within k h = elim (Bool-cases (j == k)) [
    | inl e ↦
        rw e (Within-append_left m n (f j) (subst (λ i. Within m (f i)) (sym ((==_iff j k).0 e)) h))
    | inr ne ↦ rw ne h
  ]

  pub Within-old : (k : ℕ) → Within m (linked k) → Within m (f k) ⊎ (m ≡ n)
  Within-old k h = elim (Bool-cases (j == k)) [
    | inl e ↦
        subst (λ i. Within m (f i) ⊎ (m ≡ n)) ((==_iff j k).0 e)
          (Within-append m n (f j) (rw e at h))
    | inr ne ↦ inl (rw ne at h)
  ]

pub Within-new : (f : ℕ → List TimerNode) (j : ℕ) (n : TimerNode) → Within n (linked f j n n j)
Within-new f j n = rw (==_refl j) (Within-append_last n (f j))
