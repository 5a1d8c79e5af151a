-- ===== src/Hashid/Front.antt =====
-- A free node of service-src/hashid.h put in front of the chain of its id.
use fengnet.Base.{
  ℕ, ◌≤◌, ◌<◌, ◌≡◌, ◌≢◌, ◌↔◌, refl, sym, ap, ◌∙◌, true, false, Option, none, some, List, ◌∷◌, ◌==◌,
  get_or, arith, Bool-cases, inl, inr, subst, ==_iff, ==_refl, length-set, get_or-set_self,
  get_or-set_ne, if◌then◌else◌, ==_false,
}
use fengnet.Databuffer.{ℤ, pos}
use fengnet.Chains.{elem, Linked, Distinct, Linked-frame}
use fengnet.Hashid.{HashidNode, Hashid, no_node, node_at, bucket, link_next, take_node}
use fengnet.Hashid.Table.{
  Holds, IsMember, IsHashid, free_id, links, used, bucket-le, used-set_taken,
}

link_next-none : (first : Option ℕ) → link_next first none ≡ first
unfolding link_next
link_next-none none = refl
link_next-none (some p) = refl

-- The chains with a node put in front of one.
abbrev pub with_front : (ℕ → List ℕ) → ℕ → ℕ → ℕ → List ℕ
with_front chains h c b = if b == h then c ∷ chains b else chains b

module _ (hi : Hashid) (chains : ℕ → List ℕ) (t : IsHashid hi chains) (n c : ℕ)
    (inside : c < hi.cap) (free : (node_at hi.id c).id ≡ free_id)
    (absent : (i : ℕ) → ¬ Holds hi (pos n) i) where
  abbrev new : Hashid
  new = take_node hi n c

  abbrev at_bucket : ℕ
  at_bucket = bucket (pos n) hi.hashmod

  abbrev new_node : HashidNode
  new_node = record {
    id = pos n;
    next = link_next (get_or hi.hash at_bucket none) (node_at hi.id c).next;
  }

  pub new_here : node_at new.id c ≡ new_node
  new_here = get_or-set_self hi.id c new_node no_node (omega (arith, t.nodes))

  pub new_other : (i : ℕ) → i ≢ c → node_at new.id i ≡ node_at hi.id i
  new_other i ne = get_or-set_ne hi.id c i new_node no_node (λ e. ne (sym e))

  -- The free node is in no chain.
  fresh : (b i : ℕ) → elem i (chains b) ≡ true → i ≢ c
  fresh b i m e =
      let k : IsMember hi b i = t.member b i m in k.in_use (ap (λ j. (node_at hi.id j).id) e ∙ free)

  fresh_false : (b : ℕ) → elem c (chains b) ≡ false
  fresh_false b = elim (Bool-cases (elem c (chains b))) [
    | inl m ↦ absurd (fresh b c m refl)
    | inr e ↦ e
  ]

  rest_linked : (b : ℕ) → b ≤ hi.hashmod → Linked (links new.id) (get_or hi.hash b none) (chains b)
  rest_linked b le =
      Linked-frame (links hi.id) (links new.id) (get_or hi.hash b none) (chains b)
        (λ a m. ap (λ (k : HashidNode). some k.next) (sym (new_other a (fresh b a m))))
        (t.linked b le)

  new_linked :
      (b : ℕ)
      → b ≤ hi.hashmod
      → Linked (links new.id) (get_or new.hash b none) (with_front chains at_bucket c b)
  new_linked b le = elim (Bool-cases (b == at_bucket)) [
    | inl e ↦
        let same : b ≡ at_bucket = (==_iff b at_bucket).0 e in
        let first : get_or new.hash b none ≡ some c =
          ap (λ k. get_or new.hash k none) same
          ∙ get_or-set_self hi.hash at_bucket (some c) none
              (omega (arith, t.buckets, bucket-le (pos n) hi.hashmod)) in
        let next : (node_at new.id c).next ≡ get_or hi.hash b none =
          ap (λ (k : HashidNode). k.next) new_here
          ∙ ap (link_next (get_or hi.hash at_bucket none)) (t.unlinked c inside free)
          ∙ link_next-none (get_or hi.hash at_bucket none)
          ∙ ap (λ k. get_or hi.hash k none) (sym same) in
        rw e (first, (get_or hi.hash b none, ap some next, rest_linked b le))
    | inr e ↦ rw e (
        subst (λ p. Linked (links new.id) p (chains b))
          (sym
            (get_or-set_ne hi.hash at_bucket b (some c) none (λ k. ==_false b at_bucket e (sym k))))
          (rest_linked b le))
  ]

  new-Distinct : (b : ℕ) → Distinct (with_front chains at_bucket c b)
  new-Distinct b = elim (Bool-cases (b == at_bucket)) [
    | inl e ↦ rw e (fresh_false b, t.distinct b)
    | inr e ↦ rw e (t.distinct b)
  ]

  pub busy : pos n ≢ free_id
  busy e = cc e

  -- The new node is of its bucket, and the others are as before.
  new_self : IsMember new at_bucket c
  new_self = record {
    inside = inside;
    in_use = subst (λ (k : HashidNode). k.id ≢ free_id) (sym new_here) busy;
    placed = ap (λ (k : HashidNode). bucket k.id hi.hashmod) new_here;
  }

  old-IsMember : (b i : ℕ) → elem i (chains b) ≡ true → IsMember new b i
  old-IsMember b i m =
      let k : IsMember hi b i = t.member b i m in
      let e : node_at new.id i ≡ node_at hi.id i = new_other i (fresh b i m) in
      record {
        inside = k.inside;
        in_use = subst (λ (k : HashidNode). k.id ≢ free_id) (sym e) k.in_use;
        placed = ap (λ (k : HashidNode). bucket k.id hi.hashmod) e ∙ k.placed;
      }

  new-IsMember : (b i : ℕ) → elem i (with_front chains at_bucket c b) ≡ true → IsMember new b i
  new-IsMember b i m = elim (Bool-cases (b == at_bucket)) [
    | inl e ↦ elim (Bool-cases (i == c)) [
      | inl same ↦
          let eb : b ≡ at_bucket = (==_iff b at_bucket).0 e in
          let ei : i ≡ c = (==_iff i c).0 same in
          subst (λ k. IsMember new k i) (sym eb)
            (subst (λ k. IsMember new at_bucket k) (sym ei) new_self)
      | inr other ↦ old-IsMember b i (rw (e, other) at m)
    ]
    | inr e ↦ old-IsMember b i (rw e at m)
  ]

  new_complete :
      (i : ℕ)
      → i < hi.cap
      → (node_at new.id i).id ≢ free_id
      → elem i (with_front chains at_bucket c (bucket (node_at new.id i).id hi.hashmod)) ≡ true
  new_complete i lt ne = elim (Bool-cases (i == c)) [
    | inl same ↦
        let ei : i ≡ c = (==_iff i c).0 same in
        let e : bucket (node_at new.id i).id hi.hashmod ≡ at_bucket =
          ap (λ k. bucket (node_at new.id k).id hi.hashmod) ei ∙ new_self.placed in
        rw (e, ==_refl at_bucket, same) refl
    | inr other ↦
        let e : node_at new.id i ≡ node_at hi.id i = new_other i (==_false i c other) in
        let m : elem i (chains (bucket (node_at hi.id i).id hi.hashmod)) ≡ true =
          t.complete i lt (subst (λ (k : HashidNode). k.id ≢ free_id) e ne) in
        rw e (deeper (bucket (node_at hi.id i).id hi.hashmod) i other m)
  ]
    where
      deeper :
          (b i : ℕ)
          → (i == c) ≡ false
          → elem i (chains b) ≡ true
          → elem i (with_front chains at_bucket c b) ≡ true
      deeper b i other m = elim (Bool-cases (b == at_bucket)) [
        | inl e ↦ rw (e, other) m
        | inr e ↦ rw e m
      ]

  -- A node with the new id is the new node.
  only_new : (i : ℕ) → i < hi.cap → (node_at new.id i).id ≡ pos n → i ≡ c
  only_new i lt e = elim (Bool-cases (i == c)) [
    | inl same ↦ (==_iff i c).0 same
    | inr other ↦ absurd (
        absent i (record {
          inside = lt;
          its_id = ap (λ (k : HashidNode). k.id) (sym (new_other i (==_false i c other))) ∙ e;
          in_use = busy;
        }))
  ]

  new_unique :
      (i j : ℕ)
      → i < hi.cap
      → j < hi.cap
      → (node_at new.id i).id ≢ free_id
      → (node_at new.id i).id ≡ (node_at new.id j).id
      → i ≡ j
  new_unique i j li lj ne same = elim (Bool-cases (i == c)) [
    | inl e ↦
        let ei : i ≡ c = (==_iff i c).0 e in
        ei
        ∙ sym (
            only_new j lj (
              sym same
              ∙ ap (λ k. (node_at new.id k).id) ei
              ∙ ap (λ (k : HashidNode). k.id) new_here))
    | inr e ↦ elim (Bool-cases (j == c)) [
      | inl e' ↦
          let ej : j ≡ c = (==_iff j c).0 e' in
          only_new i li
            (same ∙ ap (λ k. (node_at new.id k).id) ej ∙ ap (λ (k : HashidNode). k.id) new_here)
          ∙ sym ej
      | inr e' ↦
          let oi : node_at new.id i ≡ node_at hi.id i = new_other i (==_false i c e) in
          let oj : node_at new.id j ≡ node_at hi.id j = new_other j (==_false j c e') in
          t.unique i j li lj (subst (λ (k : HashidNode). k.id ≢ free_id) oi ne)
            (ap (λ (k : HashidNode). k.id) (sym oi) ∙ same ∙ ap (λ (k : HashidNode). k.id) oj)
    ]
  ]

  new_unlinked :
      (i : ℕ) → i < hi.cap → (node_at new.id i).id ≡ free_id → (node_at new.id i).next ≡ none
  new_unlinked i lt e = elim (Bool-cases (i == c)) [
    | inl same ↦
        absurd (new_self.in_use (ap (λ k. (node_at new.id k).id) (sym ((==_iff i c).0 same)) ∙ e))
    | inr other ↦
        let o : node_at new.id i ≡ node_at hi.id i = new_other i (==_false i c other) in
        ap (λ (k : HashidNode). k.next) o
        ∙ t.unlinked i lt (ap (λ (k : HashidNode). k.id) (sym o) ∙ e)
  ]

  new_counted : new.count ≡ used new.id
  new_counted =
      omega (arith, t.counted, used-set_taken hi.id c new_node (omega (arith, t.nodes)) free busy)

  pub new-IsHashid : IsHashid new (with_front chains at_bucket c)
  new-IsHashid = record {
    nodes = length-set hi.id c new_node ∙ t.nodes;
    buckets = length-set hi.hash at_bucket (some c) ∙ t.buckets;
    linked = new_linked;
    distinct = new-Distinct;
    member = new-IsMember;
    complete = new_complete;
    unique = new_unique;
    unlinked = new_unlinked;
    counted = new_counted;
  }

  moved_holds :
      (id : ℤ) (i : ℕ) → i ≢ c → (Holds new id i → Holds hi id i) × (Holds hi id i → Holds new id i)
  moved_holds id i ne =
      let e : node_at new.id i ≡ node_at hi.id i = new_other i ne in
      (
        λ h. record {
          inside = h.inside;
          its_id = ap (λ (k : HashidNode). k.id) (sym e) ∙ h.its_id;
          in_use = h.in_use;
        },
        λ h. record {
          inside = h.inside;
          its_id = ap (λ (k : HashidNode). k.id) e ∙ h.its_id;
          in_use = h.in_use;
        },
      )

  pub kept_holds : (id : ℤ) (i : ℕ) → id ≢ pos n → Holds new id i ↔ Holds hi id i
  kept_holds id i ne = (
    λ h. (moved_holds id i (λ e. ne (taken id i e h))).0 h,
    λ h. (moved_holds id i (λ e. h.in_use (freed id i e h))).1 h,
  )
    where
      taken : (id : ℤ) (i : ℕ) → i ≡ c → Holds new id i → id ≡ pos n
      taken id i e h =
          sym h.its_id ∙ ap (λ k. (node_at new.id k).id) e ∙ ap (λ (k : HashidNode). k.id) new_here

      freed : (id : ℤ) (i : ℕ) → i ≡ c → Holds hi id i → id ≡ free_id
      freed id i e h = sym h.its_id ∙ ap (λ k. (node_at hi.id k).id) e ∙ free
