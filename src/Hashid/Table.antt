-- ===== src/Hashid/Table.antt =====
-- What the table of service-src/hashid.h holds: an invariant over its chains.
use fengnet.Base.{
  ℕ, zero, suc, ◌≤◌, ◌<◌, ◌≡◌, ◌≢◌, refl, sym, ap, true, false, Option, none, some, List, [], ◌∷◌,
  ==_iff, length, get_or, set, arith, and-le, if◌then◌else◌, get_or-set_ne, length-set, Bool-cases,
  inl, inr, subst,
}
use fengnet.Databuffer.{ℤ, pos, negsuc}
use fengnet.Chains.{Links, elem, Distinct, Linked}
use fengnet.Hashid.{HashidNode, Hashid, node_at, no_node, eq_int, bucket}

pub eq_int→eq : (a b : ℤ) → eq_int a b ≡ true → a ≡ b
unfolding eq_int
eq_int→eq (pos a) (pos b) e = ap pos ((==_iff a b).0 e)
eq_int→eq (pos a) (negsuc b) e = cc
eq_int→eq (negsuc a) (pos b) e = cc
eq_int→eq (negsuc a) (negsuc b) e = ap negsuc ((==_iff a b).0 e)

pub eq_int_refl : (a : ℤ) → eq_int a a ≡ true
unfolding eq_int
eq_int_refl (pos a) = ground arith
eq_int_refl (negsuc a) = ground arith

pub ne→eq_int_false : (a b : ℤ) → a ≢ b → eq_int a b ≡ false
ne→eq_int_false a b ne = elim (Bool-cases (eq_int a b)) [
  | inl e ↦ absurd (ne (eq_int→eq a b e))
  | inr e ↦ e
]

pub eq_int_false→ne : (a b : ℤ) → eq_int a b ≡ false → a ≢ b
eq_int_false→ne a b e same = cc (e, subst (λ x. eq_int a x ≡ true) same (eq_int_refl a))

pub bucket-le : (id : ℤ) (m : ℕ) → bucket id m ≤ m
unfolding bucket
bucket-le (pos n) m = and-le n m
bucket-le (negsuc n) m = omega arith

-- The id of a free node.
abbrev pub free_id : ℤ
free_id = negsuc 0

-- The number of nodes in use.
abbrev pub used : List HashidNode → ℕ
used [] = 0
used (n ∷ nodes) = if eq_int n.id free_id then used nodes else suc (used nodes)

abbrev pub links : List HashidNode → Links
links nodes i = some (node_at nodes i).next

-- Node `i` stands for `id`.
pub record Holds (hi : Hashid) (id : ℤ) (i : ℕ) : Type 0 where
  pub inside : i < hi.cap
  pub its_id : (node_at hi.id i).id ≡ id
  pub in_use : id ≢ free_id

-- A node of a chain is in use, and of this bucket.
pub record IsMember (hi : Hashid) (b i : ℕ) : Type 0 where
  pub inside : i < hi.cap
  pub in_use : (node_at hi.id i).id ≢ free_id
  pub placed : bucket (node_at hi.id i).id hi.hashmod ≡ b

-- A well-formed table, with the nodes of the chain of each bucket.
pub record IsHashid (hi : Hashid) (chains : ℕ → List ℕ) : Type 0 where
  pub nodes : length hi.id ≡ hi.cap
  pub buckets : length hi.hash ≡ suc hi.hashmod
  pub linked : (b : ℕ) → b ≤ hi.hashmod → Linked (links hi.id) (get_or hi.hash b none) (chains b)
  pub distinct : (b : ℕ) → Distinct (chains b)
  pub member : (b i : ℕ) → elem i (chains b) ≡ true → IsMember hi b i
  pub complete :
      (i : ℕ)
      → i < hi.cap
      → (node_at hi.id i).id ≢ free_id
      → elem i (chains (bucket (node_at hi.id i).id hi.hashmod)) ≡ true
  pub unique :
      (i j : ℕ)
      → i < hi.cap
      → j < hi.cap
      → (node_at hi.id i).id ≢ free_id
      → (node_at hi.id i).id ≡ (node_at hi.id j).id
      → i ≡ j
  pub unlinked :
      (i : ℕ) → i < hi.cap → (node_at hi.id i).id ≡ free_id → (node_at hi.id i).next ≡ none
  pub counted : hi.count ≡ used hi.id

-- A node freed is one less in use.
pub used-set_free :
    (nodes : List HashidNode) (i : ℕ)
    → i < length nodes
    → (node_at nodes i).id ≢ free_id
    → suc (used (set nodes i no_node)) ≡ used nodes
unfolding eq_int
used-set_free [] i lt ne = absurd (omega arith)
used-set_free (n ∷ nodes) zero lt ne = rw (ne→eq_int_false n.id free_id ne) refl
used-set_free (n ∷ nodes) (suc i) lt ne = elim (Bool-cases (eq_int n.id free_id)) [
  | inl e ↦ rw e (used-set_free nodes i (omega arith) ne)
  | inr e ↦ rw e (ap suc (used-set_free nodes i (omega arith) ne))
]

-- A free node taken is one more in use.
pub used-set_taken :
    (nodes : List HashidNode) (i : ℕ) (n : HashidNode)
    → i < length nodes
    → (node_at nodes i).id ≡ free_id
    → n.id ≢ free_id
    → used (set nodes i n) ≡ suc (used nodes)
used-set_taken [] i n lt e ne = absurd (omega arith)
used-set_taken (m ∷ nodes) zero n lt e ne =
    rw (ne→eq_int_false n.id free_id ne, e, eq_int_refl free_id) refl
used-set_taken (m ∷ nodes) (suc i) n lt e ne = elim (Bool-cases (eq_int m.id free_id)) [
  | inl f ↦ rw f (used-set_taken nodes i n (omega arith) e ne)
  | inr f ↦ rw f (ap suc (used-set_taken nodes i n (omega arith) e ne))
]

-- Only the ids count.
pub used-set_next :
    (nodes : List HashidNode) (i : ℕ) (next : Option ℕ)
    → i < length nodes
    → used (set nodes i (record { id = (node_at nodes i).id; next = next })) ≡ used nodes
used-set_next [] i next lt = absurd (omega arith)
used-set_next (n ∷ nodes) zero next lt = refl
used-set_next (n ∷ nodes) (suc i) next lt = elim (Bool-cases (eq_int n.id free_id)) [
  | inl e ↦ rw e (used-set_next nodes i next (omega arith))
  | inr e ↦ rw e (ap suc (used-set_next nodes i next (omega arith)))
]

pub used-le-length : (nodes : List HashidNode) → used nodes ≤ length nodes
used-le-length [] = omega arith
used-le-length (n ∷ nodes) = elim (Bool-cases (eq_int n.id free_id)) [
  | inl e ↦ rw e (omega (arith, used-le-length nodes))
  | inr e ↦ rw e (omega (arith, used-le-length nodes))
]

-- With fewer nodes in use than there are, one is free.
pub some_free :
    (nodes : List HashidNode)
    → used nodes < length nodes
    → (i : ℕ) × (i < length nodes) × ((node_at nodes i).id ≡ free_id)
some_free [] lt = absurd (omega arith)
some_free (n ∷ nodes) lt = elim (Bool-cases (eq_int n.id free_id)) [
  | inl e ↦ (0, omega arith, eq_int→eq n.id free_id e)
  | inr e ↦
      let (i, inside, free) = some_free nodes (omega (arith, rw e at lt)) in
      (suc i, omega arith, free)
]

-- Distinct nodes in use are no more than the nodes in use.
pub length-le-used :
    (xs : List ℕ) (nodes : List HashidNode)
    → Distinct xs
    → ((i : ℕ) → elem i xs ≡ true → (i < length nodes) × ((node_at nodes i).id ≢ free_id))
    → length xs ≤ used nodes
length-le-used [] nodes d all = omega arith
length-le-used (x ∷ xs) nodes d all =
    let (inside, busy) = all x (ground arith) in
    omega (
      arith,
      used-set_free nodes x inside busy,
      length-le-used xs (set nodes x no_node) d.1 (λ i m. others i m),
    )
  where
    others :
        (i : ℕ)
        → elem i xs ≡ true
        → (i < length (set nodes x no_node)) × ((node_at (set nodes x no_node) i).id ≢ free_id)
    others i m =
        let (inside, busy) = all i (ground arith) in
        let ne : x ≢ i = λ e. cc (d.0, subst (λ k. elem k xs ≡ true) (sym e) m) in
        (
          omega (arith, length-set nodes x no_node),
          subst (λ (n : HashidNode). n.id ≢ free_id)
              (sym (get_or-set_ne nodes x i no_node no_node ne)) busy,
        )

module _ (hi : Hashid) (chains : ℕ → List ℕ) (t : IsHashid hi chains) where
  -- A chain is no longer than the array.
  pub chain_short : (b : ℕ) → length (chains b) ≤ hi.cap
  chain_short b = omega (
    arith,
    t.nodes,
    used-le-length hi.id,
    length-le-used (chains b) hi.id (t.distinct b) (λ i m.
        let k : IsMember hi b i = t.member b i m in (omega (arith, k.inside, t.nodes), k.in_use)),
  )
