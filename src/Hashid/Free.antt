-- ===== src/Hashid/Free.antt =====
-- The search of `hashid_insert` of service-src/hashid.h meets every node.
use fengnet.Base.{
  ℕ, zero, suc, ◌+◌, ◌-◌, ◌*◌, ◌/◌, ◌%◌, ◌^◌, ◌≤◌, ◌<◌, ◌≡◌, ◌≢◌, refl, ap, ◌∙◌, false, some, arith,
  Bool-cases, inl, inr, mod-lt, mod-eq_of_lt, trichotomy, lt→leb, leb,
}
use native.Mathlib.Nat.{div-add-mod, mul-add-mod_self_left, mul-suc}
use fengnet.Hashid.{Hashid, node_at, eq_int, find_free}
use fengnet.Hashid.Table.{free_id, eq_int→eq, eq_int_false→ne}

module _ (cap id f : ℕ) (lt : f < cap) where
  abbrev q : ℕ
  q = id / cap

  abbrev r : ℕ
  r = id % cap

  whole : cap * q + r ≡ id
  whole = div-add-mod id cap

  ahead : (k m : ℕ) → k + id ≡ cap * m + f → (k + id) % cap ≡ f
  ahead k m e = ap (λ u. u % cap) e ∙ mul-add-mod_self_left cap m f ∙ mod-eq_of_lt lt

  -- Every index is met on the way round from `id % cap`.
  pub met : (k : ℕ) × (k < cap) × ((k + id) % cap ≡ f)
  met = elim (trichotomy r f) [
    | inl less ↦ (f - r, omega arith, ahead (f - r) q (omega (arith, whole)))
    | inr (inl same) ↦ (0, omega arith, ahead 0 q (omega (arith, whole)))
    | inr (inr more) ↦
        let small : r < cap = mod-lt id (omega arith) in
        (
          f + cap - r,
          omega arith,
          ahead (f + cap - r) (suc q) (omega (arith, whole, mul-suc cap q)),
        )
  ]

-- The search meets a free node within its rounds.
pub find_free_lem :
    (rounds i : ℕ) (hi : Hashid) (id k : ℕ)
    → i ≤ k
    → k < i + rounds
    → k + id < 2 ^ 31
    → 0 < hi.cap
    → (node_at hi.id ((k + id) % hi.cap)).id ≡ free_id
    → (c : ℕ) × (find_free rounds i hi id ≡ some c)
      × (c < hi.cap)
      × ((node_at hi.id c).id ≡ free_id)
unfolding find_free
find_free_lem zero i hi id k low high small pos_cap free = absurd (omega arith)
find_free_lem (suc rounds) i hi id k low high small pos_cap free =
    let index : ℕ = (i + id) % hi.cap in
    let fits : leb (2 ^ 31) (i + id) ≡ false = lt→leb (2 ^ 31) (i + id) (omega arith) in
    elim (Bool-cases (eq_int (node_at hi.id index).id free_id)) [
      | inl e ↦ (index, rw (fits, e) refl, mod-lt (i + id) pos_cap, eq_int→eq _ free_id e)
      | inr e ↦
          let later : i ≢ k = λ same.
            eq_int_false→ne _ free_id e
              (ap (λ j. (node_at hi.id ((j + id) % hi.cap)).id) same ∙ free) in
          let (c, run, inside, is_free) =
            find_free_lem rounds (suc i) hi id k (omega arith) (omega arith) small pos_cap free in
          (c, rw (fits, e) run, inside, is_free)
    ]
