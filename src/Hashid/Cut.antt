-- ===== src/Hashid/Cut.antt =====
-- A node cut out of a chain by `hashid_remove` of service-src/hashid.h.
use fengnet.Base.{
  ℕ, zero, suc, ◌≤◌, ◌<◌, ◌≡◌, ◌≢◌, refl, sym, ap, ◌∙◌, true, false, Option, none, some, List, [],
  ◌∷◌, length, set, arith, Bool-cases, ◌⊎◌, inl, inr, subst, some-injective, length-set,
  get_or-set_self, get_or-set_ne, if◌then◌else◌,
}
use fengnet.Databuffer.{ℤ}
use fengnet.Chains.{elem, Linked, Distinct, Linked-frame, without, without_absent, elem_apart}
use fengnet.Hashid.{HashidNode, Hashid, no_node, node_at, eq_int, clear_node, unlink, remove_loop}
use fengnet.Hashid.Table.{links, eq_int→eq, eq_int_false→ne}
use fengnet.Hashid.Lookup.{Among, none_more, follow}

-- The table with `d` cut out behind `p`.
abbrev pub cut : ℕ → ℕ → Hashid → Hashid
cut p d hi = clear_node d (unlink p d hi)

module _ (hi : Hashid) (p d : ℕ) where
  abbrev pub relinked : HashidNode
  relinked = record { id = (node_at hi.id p).id; next = (node_at hi.id d).next }

  pub cut_other : (i : ℕ) → i ≢ p → i ≢ d → node_at (cut p d hi).id i ≡ node_at hi.id i
  cut_other i np nd =
      get_or-set_ne (set hi.id p relinked) d i no_node no_node (λ e. nd (sym e))
      ∙ get_or-set_ne hi.id p i relinked no_node (λ e. np (sym e))

  pub cut_before : p ≢ d → p < length hi.id → node_at (cut p d hi).id p ≡ relinked
  cut_before ne lt =
      get_or-set_ne (set hi.id p relinked) d p no_node no_node (λ e. ne (sym e))
      ∙ get_or-set_self hi.id p relinked no_node lt

  pub cut_node : d < length hi.id → node_at (cut p d hi).id d ≡ no_node
  cut_node lt =
      get_or-set_self (set hi.id p relinked) d no_node no_node
        (omega (arith, length-set hi.id p relinked))

-- The chain `c ∷ xs` with `d` cut out behind `p`.
pub record IsCut (hi : Hashid) (c : ℕ) (xs : List ℕ) (d p : ℕ) : Type 0 where
  pub before : elem p (c ∷ xs) ≡ true
  pub apart : p ≢ d
  pub linked : Linked (links (cut p d hi).id) (some c) (c ∷ without d xs)

-- The first node behind `c` is cut out.
IsCut-here :
    (hi : Hashid) (c d : ℕ) (ys : List ℕ)
    → Distinct (c ∷ d ∷ ys)
    → c < length hi.id
    → Linked (links hi.id) (node_at hi.id d).next ys
    → IsCut hi c (d ∷ ys) d c
IsCut-here hi c d ys (nc, (nd, dist)) lc l =
    let apart : c ≢ d = λ e. ground (arith, nc, e) in
    let nc' : elem c ys ≡ false = ground (arith, nc) in
    let same : without d (d ∷ ys) ≡ ys = ground (arith, without_absent d ys nd) in
    record {
      before = ground arith;
      apart = apart;
      linked = (
        refl,
        (
          (node_at hi.id d).next,
          ap (λ (k : HashidNode). some k.next) (cut_before hi c d apart lc),
          subst (Linked (links (cut c d hi).id) (node_at hi.id d).next) (sym same) (
              Linked-frame (links hi.id) (links (cut c d hi).id) (node_at hi.id d).next ys
                (λ a m.
                  ap (λ (k : HashidNode). some k.next)
                    (sym (cut_other hi c d a (elem_apart c a ys nc' m) (elem_apart d a ys nd m))))
                l),
        ),
      );
    }

-- A node further on is cut out.
IsCut-deeper :
    (hi : Hashid) (c x : ℕ) (ys : List ℕ) (d p : ℕ)
    → Distinct (c ∷ x ∷ ys)
    → links hi.id c ≡ some (some x)
    → elem d ys ≡ true
    → IsCut hi x ys d p
    → IsCut hi c (x ∷ ys) d p
IsCut-deeper hi c x ys d p (nc, (nx, dist)) link m k =
    let dx : d ≢ x = elem_apart x d ys nx m in
    let cd : c ≢ d = λ e. elem_apart c d (x ∷ ys) nc (ground (arith, m)) (sym e) in
    let cp : c ≢ p = λ e. elem_apart c p (x ∷ ys) nc k.before (sym e) in
    let same : without d (x ∷ ys) ≡ x ∷ without d ys = ground (arith, dx) in
    record {
      before = ground (arith, k.before);
      apart = k.apart;
      linked = (
        refl,
        (
          some x,
          ap (λ (k : HashidNode). some k.next) (cut_other hi p d c cp cd) ∙ link,
          subst (Linked (links (cut p d hi).id) (some x)) (sym same) k.linked,
        ),
      );
    }

-- How the loop of `hashid_remove` ends on the chain `c ∷ xs`.
abbrev pub Removed : Hashid → ℤ → ℕ → List ℕ → Option (Option ℕ × Hashid) → Type 0
Removed hi id c xs run =
    (Among hi id xs none × (run ≡ some (none, hi)))
    ⊎ ((d : ℕ) × (p : ℕ) × Among hi id xs (some d)
        × IsCut hi c xs d p
        × (run ≡ some (some d, cut p d hi)))

-- One turn of the loop, from what the next turn does.
turn :
    (hi : Hashid) (id : ℤ) (c d : ℕ) (xs : List ℕ) (further : Option (Option ℕ × Hashid))
    → (node_at hi.id c).next ≡ some d
    → Linked (links hi.id) (node_at hi.id d).next xs
    → Distinct (c ∷ d ∷ xs)
    → c < length hi.id
    → Removed hi id d xs further
    → Removed hi id c
        (d ∷ xs)
        (if eq_int (node_at hi.id d).id id then some (some d, cut c d hi) else further)
turn hi id c d xs further e l dist lc ih = elim (Bool-cases (eq_int (node_at hi.id d).id id)) [
  | inl same ↦
      inr (d, c, (ground arith, eq_int→eq _ id same), IsCut-here hi c d xs dist lc l, rw same refl)
  | inr other ↦ elim ih [
    | inl (all, run) ↦ inl (none_more hi id d xs (eq_int_false→ne _ id other) all, rw other run)
    | inr (a, p, (m, same), k, run) ↦ inr (
      a,
      p,
      (ground (arith, m), same),
      IsCut-deeper hi c d xs a p dist (ap some e) m k,
      rw other run,
    )
  ]
]

pub remove_loop-Removed :
    (fuel : ℕ) (hi : Hashid) (id : ℤ) (c : ℕ) (next : Option ℕ) (xs : List ℕ)
    → (node_at hi.id c).next ≡ next
    → Linked (links hi.id) next xs
    → Distinct (c ∷ xs)
    → ((i : ℕ) → elem i (c ∷ xs) ≡ true → i < length hi.id)
    → length xs ≤ fuel
    → Removed hi id c xs (remove_loop fuel hi id c next)
unfolding remove_loop
remove_loop-Removed fuel hi id c none [] e l dist ins le = inl (λ i m. cc, refl)
remove_loop-Removed fuel hi id c (some x) [] e l dist ins le = cc
remove_loop-Removed fuel hi id c none (x ∷ xs) e l dist ins le = cc (l.0)
remove_loop-Removed zero hi id c (some d) (x ∷ xs) e l dist ins le = absurd (omega arith)
remove_loop-Removed (suc fuel) hi id c (some d) (x ∷ xs) e (here, (n, f, l)) dist ins le =
    let ex : x ≡ d = sym (some-injective here) in
    let dist' : Distinct (c ∷ d ∷ xs) = subst (λ k. Distinct (c ∷ k ∷ xs)) ex dist in
    let ins' : (i : ℕ) → elem i (c ∷ d ∷ xs) ≡ true → i < length hi.id =
      subst (λ k. (i : ℕ) → elem i (c ∷ k ∷ xs) ≡ true → i < length hi.id) ex ins in
    let l' : Linked (links hi.id) (node_at hi.id d).next xs = follow hi d x n xs here f l in
    subst (λ k. Removed hi id c (k ∷ xs) (remove_loop (suc fuel) hi id c (some d))) (sym ex)
      (turn hi id c d xs _ e l' dist' (ins' c (ground arith)) (
        remove_loop-Removed fuel hi id d (node_at hi.id d).next xs refl l' dist'.1
          (λ i m. ins' i (ground (arith, m))) (omega arith)))
