-- ===== src/Timer/Keep.antt =====
-- No node of the wheel of fengnet_timer.cpp is lost or made up when lists are moved.
use fengnet.Base.{
  ℕ, ◌/◌, ◌%◌, ◌≡◌, refl, sym, subst, ◌∙◌, ◌⊎◌, inl, inr, List, [], ◌∷◌, ◌==◌, ==_iff, ==_refl,
  Bool-cases,
}
use fengnet.Timer.{TimerNode, Timer, add_node, add_nodes, move_list, link_near, link_level, update}
use fengnet.Timer.Lists.{All, Within}
use fengnet.Timer.Wheel.{Wheel, Holds, Fits}
use fengnet.Timer.Place.{
  add_node-eq, add_node-Wheel, old-Within, Within-old, Within-new, level, slot,
}

-- `T'` holds what `T` holds and `n`, at the same time.
pub record Adds (T : Timer) (n : TimerNode) (T' : Timer) : Type 0 where
  pub same_time : T'.time ≡ T.time
  pub same_lock : T'.locked ≡ T.locked
  pub old : (m : TimerNode) → Holds T m → Holds T' m
  pub origin : (m : TimerNode) → Holds T' m → Holds T m ⊎ (m ≡ n)
  pub new : Holds T' n

link_near-Adds : (j : ℕ) (n : TimerNode) (T : Timer) → Adds T n (link_near j n T)
link_near-Adds j n T = record {
  same_time = refl;
  same_lock = refl;
  old = keep;
  origin = come;
  new = inl (j, Within-new T.near j n);
}
  where
    keep : (m : TimerNode) → Holds T m → Holds (link_near j n T) m
    keep m (inl (k, h)) = inl (k, old-Within T.near j n m k h)
    keep m (inr h) = inr h

    widen : (m : TimerNode) (k : ℕ) → Within m (T.near k) ⊎ (m ≡ n) → Holds T m ⊎ (m ≡ n)
    widen m k (inl h) = inl (inl (k, h))
    widen m k (inr e) = inr e

    come : (m : TimerNode) → Holds (link_near j n T) m → Holds T m ⊎ (m ≡ n)
    come m (inl (k, h)) = widen m k (Within-old T.near j n m k h)
    come m (inr h) = inl (inr h)

link_level-Adds : (i j : ℕ) (n : TimerNode) (T : Timer) → Adds T n (link_level i j n T)
link_level-Adds i j n T = record {
  same_time = refl;
  same_lock = refl;
  old = keep;
  origin = come;
  new = inr (i, j, rw (==_refl i) (Within-new (T.t i) j n));
}
  where
    keep : (m : TimerNode) → Holds T m → Holds (link_level i j n T) m
    keep m (inl h) = inl h
    keep m (inr (l, k, h)) = inr (
      l,
      k,
      elim (Bool-cases (i == l)) [
        | inl e ↦ rw e (
            old-Within (T.t i) j n m k (subst (λ x. Within m (T.t x k)) (sym ((==_iff i l).0 e)) h))
        | inr ne ↦ rw ne h
      ],
    )

    widen : (m : TimerNode) (l k : ℕ) → Within m (T.t l k) ⊎ (m ≡ n) → Holds T m ⊎ (m ≡ n)
    widen m l k (inl h) = inl (inr (l, k, h))
    widen m l k (inr e) = inr e

    come : (m : TimerNode) → Holds (link_level i j n T) m → Holds T m ⊎ (m ≡ n)
    come m (inl h) = inl (inl h)
    come m (inr (l, k, h)) = elim (Bool-cases (i == l)) [
      | inl e ↦ widen m i k (Within-old (T.t i) j n m k (rw e at h))
      | inr ne ↦ inl (inr (l, k, rw ne at h))
    ]

-- `add_node` adds its node and keeps every other.
pub add_node-Adds : (n : TimerNode) (T : Timer) → Adds T n (add_node n T)
add_node-Adds n T = rw (add_node-eq n T) (elim (Bool-cases (n.expire / 256 == T.time / 256)) [
  | inl e ↦ rw e (link_near-Adds (n.expire % 256) n T)
  | inr ne ↦
      rw ne (link_level-Adds (level n.expire T.time) (slot (level n.expire T.time) n.expire) n T)
])

-- What the loop of `move_list` leaves behind.
pub record AddsAll (ns : List TimerNode) (T T' : Timer) : Type 0 where
  pub same_time : T'.time ≡ T.time
  pub same_lock : T'.locked ≡ T.locked
  pub old : (m : TimerNode) → Holds T m → Holds T' m
  pub new : (m : TimerNode) → Within m ns → Holds T' m
  pub origin : (m : TimerNode) → Holds T' m → Holds T m ⊎ Within m ns

AddsAll-cons :
    (n : TimerNode) (ns : List TimerNode) (T T' T'' : Timer)
    → Adds T n T'
    → AddsAll ns T' T''
    → AddsAll (n ∷ ns) T T''
AddsAll-cons n ns T T' T'' first rest = record {
  same_time = rest.same_time ∙ first.same_time;
  same_lock = rest.same_lock ∙ first.same_lock;
  old = λ m h. rest.old m (first.old m h);
  new = fresh;
  origin = λ m h. come m (rest.origin m h);
}
  where
    fresh : (m : TimerNode) → Within m (n ∷ ns) → Holds T'' m
    fresh m (inl e) = rest.old m (subst (Holds T') (sym e) first.new)
    fresh m (inr h) = rest.new m h

    earlier : (m : TimerNode) → Holds T m ⊎ (m ≡ n) → Holds T m ⊎ Within m (n ∷ ns)
    earlier m (inl h) = inl h
    earlier m (inr e) = inr (inl e)

    come : (m : TimerNode) → Holds T' m ⊎ Within m ns → Holds T m ⊎ Within m (n ∷ ns)
    come m (inl h) = earlier m (first.origin m h)
    come m (inr h) = inr (inr h)

pub add_nodes-AddsAll : (ns : List TimerNode) (T : Timer) → AddsAll ns T (add_nodes ns T)
unfolding add_nodes
add_nodes-AddsAll [] T = record {
  same_time = refl;
  same_lock = refl;
  old = λ m h. h;
  new = λ m h. absurd h;
  origin = λ m h. inl h;
}
add_nodes-AddsAll (n ∷ ns) T =
    AddsAll-cons n ns T (add_node n T) _ (add_node-Adds n T) (add_nodes-AddsAll ns (add_node n T))

pub add_nodes-Wheel :
    (ns : List TimerNode) (T : Timer)
    → All (Fits 0 T.time) ns
    → Wheel 0 T
    → Wheel 0 (add_nodes ns T)
unfolding add_nodes
add_nodes-Wheel [] T f w = w
add_nodes-Wheel (n ∷ ns) T f w =
    add_nodes-Wheel ns (add_node n T)
      (subst (λ now. All (Fits 0 now) ns) (sym (add_node-Adds n T).same_time) f.1)
      (add_node-Wheel 0 n T f.0 w)

-- The wheel with one list of a level taken out, as `link_clear` leaves it.
abbrev pub cleared : ℕ → ℕ → Timer → Timer
cleared level idx T = record T { t = update T.t level (update (T.t level) idx []) }

cleared-old :
    (level idx : ℕ) (T : Timer) (m : TimerNode)
    → Holds T m
    → Holds (cleared level idx T) m ⊎ Within m (T.t level idx)
cleared-old level idx T m (inl h) = inl (inl h)
cleared-old level idx T m (inr (i, j, h)) = elim (Bool-cases (level == i)) [
  | inr ne ↦ inl (inr (i, j, rw ne h))
  | inl e ↦ elim (Bool-cases (idx == j)) [
    | inr ne ↦
        inl
          (inr (i, j, rw (e, ne) (subst (λ x. Within m (T.t x j)) (sym ((==_iff level i).0 e)) h)))
    | inl f ↦ inr (
        subst (λ x. Within m (T.t level x)) (sym ((==_iff idx j).0 f))
          (subst (λ x. Within m (T.t x j)) (sym ((==_iff level i).0 e)) h))
  ]
]

cleared-origin :
    (level idx : ℕ) (T : Timer) (m : TimerNode) → Holds (cleared level idx T) m → Holds T m
cleared-origin level idx T m (inl h) = inl h
cleared-origin level idx T m (inr (i, j, h)) = elim (Bool-cases (level == i)) [
  | inr ne ↦ inr (i, j, rw ne at h)
  | inl e ↦ elim (Bool-cases (idx == j)) [
    | inr ne ↦ inr (level, j, rw ne at (rw e at h))
    | inl f ↦ absurd (rw f at (rw e at h))
  ]
]

-- Two wheels hold the same nodes.
abbrev pub SameNodes : Timer → Timer → Type 0
SameNodes T T' = (m : TimerNode) → (Holds T m → Holds T' m) × (Holds T' m → Holds T m)

-- `move_list` keeps every node, the time and the lock.
pub move_list-SameNodes :
    (level idx : ℕ) (T : Timer)
    → SameNodes T (move_list level idx T)
      × ((move_list level idx T).time ≡ T.time)
      × ((move_list level idx T).locked ≡ T.locked)
unfolding move_list
move_list-SameNodes level idx T = (λ m. (keep m, come m), moved.same_time, moved.same_lock)
  where
    moved : AddsAll (T.t level idx) (cleared level idx T) (move_list level idx T)
    moved = add_nodes-AddsAll (T.t level idx) (cleared level idx T)

    either :
        (m : TimerNode)
        → Holds (cleared level idx T) m ⊎ Within m (T.t level idx)
        → Holds (move_list level idx T) m
    either m (inl h) = moved.old m h
    either m (inr h) = moved.new m h

    keep : (m : TimerNode) → Holds T m → Holds (move_list level idx T) m
    keep m h = either m (cleared-old level idx T m h)

    back : (m : TimerNode) → Holds (cleared level idx T) m ⊎ Within m (T.t level idx) → Holds T m
    back m (inl h) = cleared-origin level idx T m h
    back m (inr h) = inr (level, idx, h)

    come : (m : TimerNode) → Holds (move_list level idx T) m → Holds T m
    come m h = back m (moved.origin m h)
