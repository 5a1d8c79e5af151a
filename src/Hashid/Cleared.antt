-- ===== src/Hashid/Cleared.antt =====
-- A table of service-src/hashid.h with one node freed and taken out of its chain is well formed.
use fengnet.Base.{
  ℕ, suc, ◌-◌, ◌≤◌, ◌<◌, ◌≡◌, ◌≢◌, ◌↔◌, sym, ap, ◌∙◌, true, false, none, some, List, ◌==◌, length,
  get_or, arith, Bool-cases, inl, inr, subst, ==_iff, if◌then◌else◌, ==_false, ne→==_false,
}
use fengnet.Databuffer.{ℤ}
use fengnet.Chains.{elem, Linked, Distinct, Linked-frame, without, elem-without, Distinct-without}
use fengnet.Hashid.{HashidNode, Hashid, no_node, node_at, bucket}
use fengnet.Hashid.Table.{Holds, IsMember, IsHashid, free_id, links, used}

-- Node `d` is freed, out of the chain `xs` of bucket `b`; the other chains are untouched.
pub record IsCleared (hi : Hashid) (b d : ℕ) (xs : List ℕ) (hi' : Hashid) : Type 0 where
  pub same_mod : hi'.hashmod ≡ hi.hashmod
  pub same_cap : hi'.cap ≡ hi.cap
  pub less : hi'.count ≡ hi.count - 1
  pub nodes : length hi'.id ≡ length hi.id
  pub buckets : length hi'.hash ≡ length hi.hash
  pub node_d : node_at hi'.id d ≡ no_node
  pub ids : (i : ℕ) → i ≢ d → (node_at hi'.id i).id ≡ (node_at hi.id i).id
  pub outside : (i : ℕ) → elem i xs ≡ false → node_at hi'.id i ≡ node_at hi.id i
  pub others : (k : ℕ) → k ≢ b → get_or hi'.hash k none ≡ get_or hi.hash k none
  pub linked : Linked (links hi'.id) (get_or hi'.hash b none) (without d xs)
  pub one_less : suc (used hi'.id) ≡ used hi.id

abbrev pub cleared_chains : (ℕ → List ℕ) → ℕ → ℕ → ℕ → List ℕ
cleared_chains chains b d k = if k == b then without d (chains k) else chains k

module _ (hi : Hashid) (chains : ℕ → List ℕ) (t : IsHashid hi chains) (b d : ℕ)
    (low : b ≤ hi.hashmod) (here : elem d (chains b) ≡ true) (hi' : Hashid)
    (k : IsCleared hi b d (chains b) hi') where
  of_d : IsMember hi b d
  of_d = t.member b d here

  -- Nodes of other buckets.
  other_bucket : (c i : ℕ) → c ≢ b → elem i (chains c) ≡ true → elem i (chains b) ≡ false
  other_bucket c i ne m = elim (Bool-cases (elem i (chains b))) [
    | inl m' ↦
        let p : IsMember hi c i = t.member c i m in
        let p' : IsMember hi b i = t.member b i m' in absurd (ne (sym p.placed ∙ p'.placed))
    | inr e ↦ e
  ]

  cleared_linked :
      (c : ℕ)
      → c ≤ hi'.hashmod
      → Linked (links hi'.id) (get_or hi'.hash c none) (cleared_chains chains b d c)
  cleared_linked c le = elim (Bool-cases (c == b)) [
    | inl e ↦ rw e (
        subst (λ n. Linked (links hi'.id) (get_or hi'.hash n none) (without d (chains n)))
          (sym ((==_iff c b).0 e)) k.linked)
    | inr e ↦
        let ne : c ≢ b = ==_false c b e in
        rw e (
          subst (λ p. Linked (links hi'.id) p (chains c)) (sym (k.others c ne))
            (Linked-frame (links hi.id) (links hi'.id) (get_or hi.hash c none) (chains c)
              (λ a m.
                ap (λ (n : HashidNode). some n.next) (sym (k.outside a (other_bucket c a ne m))))
              (t.linked c (omega (arith, k.same_mod)))))
  ]

  cleared-Distinct : (c : ℕ) → Distinct (cleared_chains chains b d c)
  cleared-Distinct c = elim (Bool-cases (c == b)) [
    | inl e ↦ rw e (Distinct-without d (chains c) (t.distinct c))
    | inr e ↦ rw e (t.distinct c)
  ]

  -- What is left in the chains was there, and is not `d`.
  left_over :
      (c i : ℕ) → elem i (cleared_chains chains b d c) ≡ true → (elem i (chains c) ≡ true) × (i ≢ d)
  left_over c i m = elim (Bool-cases (c == b)) [
    | inl e ↦ elim (Bool-cases (i == d)) [
      | inl same ↦ cc (rw (e, elem-without i d (chains c), same) at m)
      | inr other ↦ (rw (e, elem-without i d (chains c), other) at m, ==_false i d other)
    ]
    | inr e ↦
        let m' : elem i (chains c) ≡ true = rw e at m in
        (
          m',
          λ same. ==_false c b e (
              sym (t.member c i m').placed
              ∙ ap (λ n. bucket (node_at hi.id n).id hi.hashmod) same
              ∙ of_d.placed),
        )
  ]

  kept_bucket :
      (i : ℕ)
      → i ≢ d
      → bucket (node_at hi'.id i).id hi'.hashmod ≡ bucket (node_at hi.id i).id hi.hashmod
  kept_bucket i ne =
      ap (λ x. bucket x hi'.hashmod) (k.ids i ne) ∙ ap (bucket (node_at hi.id i).id) k.same_mod

  cleared-IsMember : (c i : ℕ) → elem i (cleared_chains chains b d c) ≡ true → IsMember hi' c i
  cleared-IsMember c i m =
      let (m', ne) = left_over c i m in
      let p : IsMember hi c i = t.member c i m' in
      record {
        inside = omega (arith, p.inside, k.same_cap);
        in_use = subst (λ x. x ≢ free_id) (sym (k.ids i ne)) p.in_use;
        placed = kept_bucket i ne ∙ p.placed;
      }

  -- A node in use is not `d`.
  not_d : (i : ℕ) → (node_at hi'.id i).id ≢ free_id → i ≢ d
  not_d i ne e = ne (ap (λ n. (node_at hi'.id n).id) e ∙ ap (λ (n : HashidNode). n.id) k.node_d)

  cleared_complete :
      (i : ℕ)
      → i < hi'.cap
      → (node_at hi'.id i).id ≢ free_id
      → elem i (cleared_chains chains b d (bucket (node_at hi'.id i).id hi'.hashmod)) ≡ true
  cleared_complete i lt busy =
      let ne : i ≢ d = not_d i busy in
      rw (kept_bucket i ne) (
        still (bucket (node_at hi.id i).id hi.hashmod) i ne
          (t.complete i (omega (arith, k.same_cap)) (subst (λ x. x ≢ free_id) (k.ids i ne) busy)))
    where
      still :
          (c i : ℕ) → i ≢ d → elem i (chains c) ≡ true → elem i (cleared_chains chains b d c) ≡ true
      still c i ne m = elim (Bool-cases (c == b)) [
        | inl e ↦ rw (e, elem-without i d (chains c), ne→==_false i d ne) m
        | inr e ↦ rw e m
      ]

  cleared_unlinked :
      (i : ℕ) → i < hi'.cap → (node_at hi'.id i).id ≡ free_id → (node_at hi'.id i).next ≡ none
  cleared_unlinked i lt free = elim (Bool-cases (i == d)) [
    | inl e ↦
        ap (λ n. (node_at hi'.id n).next) ((==_iff i d).0 e)
        ∙ ap (λ (n : HashidNode). n.next) k.node_d
    | inr e ↦
        let was_free : (node_at hi.id i).id ≡ free_id = sym (k.ids i (==_false i d e)) ∙ free in
        elim (Bool-cases (elem i (chains b))) [
          | inl m ↦ absurd ((t.member b i m).in_use was_free)
          | inr m ↦
              ap (λ (n : HashidNode). n.next) (k.outside i m)
              ∙ t.unlinked i (omega (arith, k.same_cap)) was_free
        ]
  ]

  cleared-IsHashid : IsHashid hi' (cleared_chains chains b d)
  cleared-IsHashid = record {
    nodes = k.nodes ∙ t.nodes ∙ sym k.same_cap;
    buckets = k.buckets ∙ t.buckets ∙ ap suc (sym k.same_mod);
    linked = cleared_linked;
    distinct = cleared-Distinct;
    member = cleared-IsMember;
    complete = cleared_complete;
    unique = λ i j li lj busy same.
        let ni : i ≢ d = not_d i busy in
        let nj : j ≢ d = not_d j (subst (λ x. x ≢ free_id) same busy) in
        t.unique i j (omega (arith, k.same_cap)) (omega (arith, k.same_cap))
          (subst (λ x. x ≢ free_id) (k.ids i ni) busy) (sym (k.ids i ni) ∙ same ∙ k.ids j nj);
    unlinked = cleared_unlinked;
    counted = omega (arith, k.less, t.counted, k.one_less);
  }

-- A table from which the id is gone, with `d`, its node, free; every other id keeps its node.
pub record IsRemoved (hi : Hashid) (id : ℤ) (d : ℕ) (hi' : Hashid) : Type 0 where
  pub freed : (node_at hi'.id d).id ≡ free_id
  pub others : (i : ℕ) → i ≢ d → (node_at hi'.id i).id ≡ (node_at hi.id i).id
  pub gone : (i : ℕ) → ¬ Holds hi' id i
  pub kept : (other : ℤ) (i : ℕ) → other ≢ id → Holds hi' other i ↔ Holds hi other i
  pub same_cap : hi'.cap ≡ hi.cap
  pub less : hi'.count ≡ hi.count - 1
  pub chains : ℕ → List ℕ
  pub well : IsHashid hi' chains

pub cleared-IsRemoved :
    (hi : Hashid) (chains : ℕ → List ℕ) (t : IsHashid hi chains) (b d : ℕ) (id : ℤ)
    → b ≤ hi.hashmod
    → elem d (chains b) ≡ true
    → (node_at hi.id d).id ≡ id
    → (hi' : Hashid) → IsCleared hi b d (chains b) hi'
    → IsRemoved hi id d hi'
cleared-IsRemoved hi chains t b d id low here same hi' k = record {
  freed = ap (λ (n : HashidNode). n.id) k.node_d;
  others = k.ids;
  gone = λ i h. apart i h.its_id h.in_use (
      t.unique i d (omega (arith, h.inside, k.same_cap)) p.inside
        (subst (λ x. x ≢ free_id) (sym (old i h.its_id h.in_use)) h.in_use)
        (old i h.its_id h.in_use ∙ sym same));
  kept = λ other i ne. (
    λ h. record {
      inside = omega (arith, h.inside, k.same_cap);
      its_id = old i h.its_id h.in_use;
      in_use = h.in_use;
    },
    λ h. record {
      inside = omega (arith, h.inside, k.same_cap);
      its_id =
          k.ids i (λ e. ne (sym h.its_id ∙ ap (λ n. (node_at hi.id n).id) e ∙ same)) ∙ h.its_id;
      in_use = h.in_use;
    },
  );
  same_cap = k.same_cap;
  less = k.less;
  chains = cleared_chains chains b d;
  well = cleared-IsHashid hi chains t b d low here hi' k;
}
  where
    p : IsMember hi b d
    p = t.member b d here

    apart : (i : ℕ) {x : ℤ} → (node_at hi'.id i).id ≡ x → x ≢ free_id → i ≢ d
    apart i e busy = not_d hi chains t b d low here hi' k i (subst (λ y. y ≢ free_id) (sym e) busy)

    old : (i : ℕ) {x : ℤ} → (node_at hi'.id i).id ≡ x → x ≢ free_id → (node_at hi.id i).id ≡ x
    old i e busy = sym (k.ids i (apart i e busy)) ∙ e
