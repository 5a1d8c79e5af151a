-- ===== src/Hashid/Remove.antt =====
-- `hashid_remove` of service-src/hashid.h: the node of the id is cut out of its chain and freed.
use fengnet.Base.{
  ℕ, ◌≤◌, ◌<◌, ◌≡◌, ◌≢◌, refl, sym, ap, ◌∙◌, true, false, Option, none, some, List, [], ◌∷◌, ◌==◌,
  length, get_or, set, arith, Bool-cases, ◌⊎◌, inl, inr, subst, ==_iff, some-injective, length-set,
  get_or-set_self, get_or-set_ne, ==_false,
}
use fengnet.Databuffer.{ℤ}
use fengnet.Chains.{elem, Linked, Distinct, Linked-frame, without, without_absent, elem_apart}
use fengnet.Hashid.{
  HashidNode, Hashid, no_node, node_at, eq_int, bucket, clear_node, remove_from, hashid_remove,
}
use fengnet.Hashid.Table.{
  Holds, IsMember, IsHashid, free_id, links, bucket-le, eq_int→eq, eq_int_false→ne, chain_short,
  used-set_free, used-set_next,
}
use fengnet.Hashid.Lookup.{Among, Finds, none_more, follow, Among-Finds}
use fengnet.Hashid.Cut.{cut, relinked, cut_other, cut_before, cut_node, IsCut, remove_loop-Removed}
use fengnet.Hashid.Cleared.{IsCleared, IsRemoved, cleared-IsRemoved}

-- The first node of its chain removed.
abbrev behead : ℕ → ℕ → Hashid → Hashid
behead b c hi = clear_node c (record hi { hash = set hi.hash b (node_at hi.id c).next })

module _ (hi : Hashid) (chains : ℕ → List ℕ) (t : IsHashid hi chains) (b c : ℕ) (xs : List ℕ)
    (low : b ≤ hi.hashmod) (whole : chains b ≡ c ∷ xs) where
  in_chain : (i : ℕ) → elem i (c ∷ xs) ≡ true → IsMember hi b i
  in_chain i m = t.member b i (ap (elem i) whole ∙ m)

  inside_nodes : (i : ℕ) → elem i (c ∷ xs) ≡ true → i < length hi.id
  inside_nodes i m = omega (arith, (in_chain i m).inside, t.nodes)

  chain-Distinct : Distinct (c ∷ xs)
  chain-Distinct = subst Distinct whole (t.distinct b)

  behead-IsCleared :
      Linked (links hi.id) (node_at hi.id c).next xs → IsCleared hi b c (chains b) (behead b c hi)
  behead-IsCleared l = record {
    same_mod = refl;
    same_cap = refl;
    less = refl;
    nodes = length-set hi.id c no_node;
    buckets = length-set hi.hash b (node_at hi.id c).next;
    node_d = get_or-set_self hi.id c no_node no_node (inside_nodes c (ground arith));
    ids = λ i ne. ap (λ (n : HashidNode). n.id) (same_node i ne);
    outside = λ i out. same_node i (λ e. ground (arith, rw whole at out));
    others = λ n ne. get_or-set_ne hi.hash b n (node_at hi.id c).next none (λ e. ne (sym e));
    linked =
        subst (Linked (links (behead b c hi).id) (get_or (behead b c hi).hash b none))
          (sym (ap (without c) whole ∙ rest))
          (subst (λ p. Linked (links (behead b c hi).id) p xs)
            (sym (get_or-set_self hi.hash b (node_at hi.id c).next none (omega (arith, t.buckets))))
            (Linked-frame (links hi.id) (links (behead b c hi).id) (node_at hi.id c).next xs
              (λ a m.
                ap (λ (n : HashidNode). some n.next)
                  (sym (same_node a (elem_apart c a xs chain-Distinct.0 m))))
              l));
    one_less =
        used-set_free hi.id c (inside_nodes c (ground arith)) (in_chain c (ground arith)).in_use;
  }
    where
      same_node : (i : ℕ) → i ≢ c → node_at (behead b c hi).id i ≡ node_at hi.id i
      same_node i ne = get_or-set_ne hi.id c i no_node no_node (λ e. ne (sym e))

      rest : without c (c ∷ xs) ≡ xs
      rest = ground (arith, without_absent c xs chain-Distinct.0)

  cut-IsCleared :
      (d p : ℕ)
      → elem d xs ≡ true
      → IsCut hi c xs d p
      → get_or hi.hash b none ≡ some c
      → IsCleared hi b d (chains b) (cut p d hi)
  cut-IsCleared d p m k first = record {
    same_mod = refl;
    same_cap = refl;
    less = refl;
    nodes =
        length-set (set hi.id p (relinked hi p d)) d no_node ∙ length-set hi.id p (relinked hi p d);
    buckets = refl;
    node_d = cut_node hi p d ld;
    ids = λ i ne. ids_kept i ne;
    outside =
        λ i out. cut_other hi p d i (λ e. not_in i out p k.before e) (λ e. not_in i out d md e);
    others = λ n ne. refl;
    linked =
        subst (Linked (links (cut p d hi).id) (get_or hi.hash b none))
          (sym (ap (without d) whole ∙ dropped))
          (subst (λ q. Linked (links (cut p d hi).id) q (c ∷ without d xs)) (sym first) k.linked);
    one_less =
        used-set_free (set hi.id p (relinked hi p d)) d
          (omega (arith, length-set hi.id p (relinked hi p d), ld))
          (subst (λ (n : HashidNode). n.id ≢ free_id)
            (sym (get_or-set_ne hi.id p d (relinked hi p d) no_node k.apart))
            (in_chain d md).in_use)
        ∙ used-set_next hi.id p (node_at hi.id d).next (inside_nodes p k.before);
  }
    where
      md : elem d (c ∷ xs) ≡ true
      md = ground (arith, m)

      ld : d < length hi.id
      ld = inside_nodes d md

      dropped : without d (c ∷ xs) ≡ c ∷ without d xs
      dropped = ground (arith, elem_apart c d xs chain-Distinct.0 m)

      not_in : (i : ℕ) → elem i (chains b) ≡ false → (j : ℕ) → elem j (c ∷ xs) ≡ true → i ≢ j
      not_in i out j mj e = cc (out, ap (λ n. elem n (chains b)) e, ap (elem j) whole, mj)

      ids_kept : (i : ℕ) → i ≢ d → (node_at (cut p d hi).id i).id ≡ (node_at hi.id i).id
      ids_kept i ne = elim (Bool-cases (i == p)) [
        | inl e ↦
            let ep : i ≡ p = (==_iff i p).0 e in
            ap (λ n. (node_at (cut p d hi).id n).id) ep
            ∙ ap (λ (n : HashidNode). n.id) (cut_before hi p d k.apart (inside_nodes p k.before))
            ∙ ap (λ n. (node_at hi.id n).id) (sym ep)
        | inr e ↦ ap (λ (n : HashidNode). n.id) (cut_other hi p d i (==_false i p e) ne)
      ]

-- How `hashid_remove` ends.
abbrev pub RemoveResult : Hashid → ℤ → Option (Option ℕ × Hashid) → Type 0
RemoveResult hi id run =
    (((i : ℕ) → ¬ Holds hi id i) × (run ≡ some (none, hi)))
    ⊎ ((d : ℕ) × (hi' : Hashid) × Holds hi id d
        × IsRemoved hi id d hi'
        × (run ≡ some (some d, hi')))

module _ (hi : Hashid) (chains : ℕ → List ℕ) (t : IsHashid hi chains) (id : ℤ) where
  abbrev home : ℕ
  home = bucket id hi.hashmod

  low : home ≤ hi.hashmod
  low = bucket-le id hi.hashmod

  Among-chain : (ys : List ℕ) (r : Option ℕ) → chains home ≡ ys → Among hi id ys r → Finds hi id r
  Among-chain ys r e a = Among-Finds hi chains id r t (subst (λ k. Among hi id k r) (sym e) a)

  remove_from-RemoveResult :
      (c : Option ℕ) (ys : List ℕ)
      → get_or hi.hash home none ≡ c
      → chains home ≡ ys
      → Linked (links hi.id) c ys
      → RemoveResult hi id (remove_from hi id c)
  unfolding remove_from
  remove_from-RemoveResult none [] first whole l = inl (Among-chain [] none whole (λ i m. cc), refl)
  remove_from-RemoveResult none (x ∷ xs) first whole l = cc (l.0)
  remove_from-RemoveResult (some c) [] first whole l = cc
  remove_from-RemoveResult (some c) (x ∷ xs) first whole (here, (n, e, l)) =
      let whole' : chains home ≡ c ∷ xs = whole ∙ ap (λ k. k ∷ xs) (sym (some-injective here)) in
      let l' : Linked (links hi.id) (node_at hi.id c).next xs = follow hi c x n xs here e l in
      let dist : Distinct (c ∷ xs) = chain-Distinct hi chains t home c xs low whole' in
      let short : length xs ≤ hi.cap =
        omega (arith, chain_short hi chains t home, ap (λ (k : List ℕ). length k) whole') in
      elim (Bool-cases (eq_int (node_at hi.id c).id id)) [
        | inl same ↦
            let its : (node_at hi.id c).id ≡ id = eq_int→eq _ id same in
            let m : elem c (chains home) ≡ true = ap (elem c) whole' ∙ ground arith in
            inr (
              c,
              behead home c hi,
              Among-chain (c ∷ xs) (some c) whole' (ground arith, its),
              cleared-IsRemoved hi chains t home c id low m its (behead home c hi)
                  (behead-IsCleared hi chains t home c xs low whole' l'),
              rw same refl,
            )
        | inr other ↦
            elim (remove_loop-Removed hi.cap hi id c (node_at hi.id c).next xs refl l' dist
              (inside_nodes hi chains t home c xs low whole') short) [
                | inl (all, run) ↦ inl (
                  Among-chain (c ∷ xs) none whole'
                      (none_more hi id c xs (eq_int_false→ne _ id other) all),
                  rw other run,
                )
                | inr (d, p, (m, its), k, run) ↦
                    let md : elem d (chains home) ≡ true = ap (elem d) whole' ∙ ground (arith, m) in
                    inr (
                      d,
                      cut p d hi,
                      Among-chain (c ∷ xs) (some d) whole' (ground (arith, m), its),
                      cleared-IsRemoved hi chains t home d id low md its (cut p d hi)
                          (cut-IsCleared hi chains t home c xs low whole' d p m k first),
                      rw other run,
                    )
              ]
      ]

-- On a well-formed table `hashid_remove` ends within its fuel: where no node has the id it gives -1
-- and changes nothing; else it gives the node, which is free afterwards, no node has the id any more,
-- every other id keeps its node, the count is one less, and the table stays well formed.
pub hashid_remove-RemoveResult :
    (hi : Hashid) (chains : ℕ → List ℕ) (id : ℤ)
    → IsHashid hi chains
    → RemoveResult hi id (hashid_remove hi id)
unfolding hashid_remove
hashid_remove-RemoveResult hi chains id t =
    remove_from-RemoveResult hi chains t id _ _ refl refl
      (t.linked (home hi chains t id) (low hi chains t id))
