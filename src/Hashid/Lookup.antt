-- ===== src/Hashid/Lookup.antt =====
-- `hashid_lookup` of service-src/hashid.h finds the node of an id.
use fengnet.Base.{
  ℕ, zero, suc, ◌≤◌, ◌≡◌, ◌≢◌, refl, sym, ap, ◌∙◌, true, Option, none, some, List, [], ◌∷◌, ◌==◌,
  length, get_or, arith, Bool-cases, inl, inr, subst, ==_iff, some-injective,
}
use fengnet.Databuffer.{ℤ}
use fengnet.Chains.{elem, Linked}
use fengnet.Hashid.{Hashid, node_at, eq_int, bucket, lookup_loop, hashid_lookup}
use fengnet.Hashid.Table.{
  Holds, IsMember, IsHashid, free_id, links, bucket-le, chain_short, eq_int→eq, eq_int_false→ne,
}

-- Which of the nodes of a list has the id.
abbrev pub Among : Hashid → ℤ → List ℕ → Option ℕ → Type 0
Among hi id xs none = (i : ℕ) → elem i xs ≡ true → (node_at hi.id i).id ≢ id
Among hi id xs (some i) = (elem i xs ≡ true) × ((node_at hi.id i).id ≡ id)

pub none_more :
    (hi : Hashid) (id : ℤ) (c : ℕ) (xs : List ℕ)
    → (node_at hi.id c).id ≢ id
    → Among hi id xs none
    → Among hi id (c ∷ xs) none
none_more hi id c xs ne all i m = elim (Bool-cases (i == c)) [
  | inl e ↦ subst (λ k. (node_at hi.id k).id ≢ id) (sym ((==_iff i c).0 e)) ne
  | inr e ↦ all i (rw e at m)
]

-- From a node the list goes on at its next.
pub follow :
    (hi : Hashid) (c x : ℕ) (n : Option ℕ) (xs : List ℕ)
    → some c ≡ some x
    → links hi.id x ≡ some n
    → Linked (links hi.id) n xs
    → Linked (links hi.id) (node_at hi.id c).next xs
follow hi c x n xs here e l =
    let same : n ≡ (node_at hi.id c).next =
      sym (some-injective e) ∙ ap (λ k. (node_at hi.id k).next) (sym (some-injective here)) in
    subst (λ k. Linked (links hi.id) k xs) same l

lookup_loop-Among :
    (fuel : ℕ) (hi : Hashid) (id : ℤ) (c : Option ℕ) (xs : List ℕ)
    → Linked (links hi.id) c xs
    → length xs ≤ fuel
    → (r : Option ℕ) × (lookup_loop fuel hi id c ≡ some r) × Among hi id xs r
unfolding lookup_loop
lookup_loop-Among fuel hi id none [] l le = (none, refl, λ i m. cc)
lookup_loop-Among fuel hi id (some c) [] l le = cc
lookup_loop-Among fuel hi id none (x ∷ xs) l le = cc (l.0)
lookup_loop-Among zero hi id (some c) (x ∷ xs) l le = absurd (omega arith)
lookup_loop-Among (suc fuel) hi id (some c) (x ∷ xs) (here, (n, e, l)) le =
    elim (Bool-cases (eq_int (node_at hi.id c).id id)) [
      | inl same ↦ (some c, rw same refl, (ground arith, eq_int→eq _ id same))
      | inr other ↦
          let ne : (node_at hi.id c).id ≢ id = eq_int_false→ne _ id other in
          let (r, run, among) =
            lookup_loop-Among fuel hi id (node_at hi.id c).next xs (follow hi c x n xs here e l)
              (omega arith) in
          (
            r,
            rw other run,
            later r (subst (λ k. (node_at hi.id k).id ≢ id) (some-injective here) ne) among,
          )
    ]
  where
    later : (r : Option ℕ) → (node_at hi.id x).id ≢ id → Among hi id xs r → Among hi id (x ∷ xs) r
    later none ne all = none_more hi id x xs ne all
    later (some i) ne (m, same) = (ground (arith, m), same)

-- What `hashid_lookup` finds: the node of the id, or that there is none.
abbrev pub Finds : Hashid → ℤ → Option ℕ → Type 0
Finds hi id none = (i : ℕ) → ¬ Holds hi id i
Finds hi id (some i) = Holds hi id i

pub Among-Finds :
    (hi : Hashid) (chains : ℕ → List ℕ) (id : ℤ) (r : Option ℕ)
    → IsHashid hi chains
    → Among hi id (chains (bucket id hi.hashmod)) r
    → Finds hi id r
Among-Finds hi chains id none t all = λ i h.
    all i
      (subst (λ k. elem i (chains (bucket k hi.hashmod)) ≡ true) h.its_id
        (t.complete i h.inside (subst (λ k. k ≢ free_id) (sym h.its_id) h.in_use)))
      h.its_id
Among-Finds hi chains id (some i) t (m, same) =
    let k : IsMember hi (bucket id hi.hashmod) i = t.member _ i m in
    record { inside = k.inside; its_id = same; in_use = subst (λ x. x ≢ free_id) same k.in_use }

-- On a well-formed table `hashid_lookup` ends within its fuel, with the node of the id, or with -1
-- where no node has it.
pub hashid_lookup-Finds :
    (hi : Hashid) (chains : ℕ → List ℕ) (id : ℤ)
    → IsHashid hi chains
    → (r : Option ℕ) × (hashid_lookup hi id ≡ some r) × Finds hi id r
unfolding hashid_lookup
hashid_lookup-Finds hi chains id t =
    let b : ℕ = bucket id hi.hashmod in
    let (r, run, among) =
      lookup_loop-Among hi.cap hi id (get_or hi.hash b none) (chains b)
        (t.linked b (bucket-le id hi.hashmod)) (chain_short hi chains t b) in
    (r, run, Among-Finds hi chains id r t among)
