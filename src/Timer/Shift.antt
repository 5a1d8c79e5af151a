-- ===== src/Timer/Shift.antt =====
-- `timer_shift` of fengnet_timer.cpp: one tick of the wheel.
use fengnet.Base.{
  ℕ, ◌+◌, ◌/◌, ◌%◌, ◌^◌, ◌<◌, ◌≡◌, ◌≢◌, refl, sym, subst, ◌∙◌, inl, inr, ◌==◌, ==_iff, ==_false,
  Bool-cases, arith,
}
use fengnet.Timer.{TimerNode, Timer, timer_shift, cascade, move_list}
use fengnet.Timer.Lists.{All, Within, All-map}
use fengnet.Timer.Wheel.{AtNear, AtLevel, Wheel, Holds, Fits, due_exact}
use fengnet.Timer.Keep.{add_nodes-Wheel, cleared, SameNodes, move_list-SameNodes}
use fengnet.Timer.Step.{
  Stays, near_step, level_step, near_wrap, level_wrap, from3, from2, from1, next_list,
  find_cascade-next_list, no_list, list0, list1, list2, list3, wrap-Other,
}

-- The tick with one list moved, where every other list stays right.
module _ (T : Timer) (ct l idx : ℕ) (fits : ct < 2 ^ 32) (w : Wheel 1 T)
    (near_right : (j : ℕ) (n : TimerNode) → AtNear 1 T.time j n → AtNear 0 ct j n)
    (level_right : (i j : ℕ) (n : TimerNode)
      → Stays i ct j
      → AtLevel i T.time j n
      → AtLevel i ct j n) where
  abbrev ticked : Timer
  ticked = record T { time = ct }

  move-Wheel :
      ((i j : ℕ) → ((l ≡ i) × (idx ≡ j) → ⊥) → Stays i ct j)
      → ((n : TimerNode) → AtLevel l T.time idx n → Fits 0 ct n)
      → Wheel 0 (move_list l idx ticked)
  unfolding move_list
  move-Wheel others moved =
      add_nodes-Wheel (T.t l idx) (cleared l idx ticked)
        (All-map (AtLevel l T.time idx) (Fits 0 ct) (T.t l idx) moved (w.levels l idx))
        (record {
          fits = fits;
          nears = λ j.
              All-map (AtNear 1 T.time j) (AtNear 0 ct j) (T.near j) (near_right j) (w.nears j);
          levels = rest;
        })
    where
      stay : (i j : ℕ) → ((l ≡ i) × (idx ≡ j) → ⊥) → All (AtLevel i ct j) (T.t i j)
      stay i j other =
          All-map (AtLevel i T.time j) (AtLevel i ct j) (T.t i j)
            (λ n. level_right i j n (others i j other)) (w.levels i j)

      rest : (i j : ℕ) → All (AtLevel i ct j) ((cleared l idx ticked).t i j)
      rest i j = elim (Bool-cases (l == i)) [
        | inr ne ↦ rw ne (stay i j (λ e. ==_false l i ne e.0))
        | inl e ↦ elim (Bool-cases (idx == j)) [
          | inr ne ↦
              rw (e, ne)
                (subst (λ x. All (AtLevel i ct j) (T.t x j)) (sym ((==_iff l i).0 e))
                  (stay i j (λ p. ==_false idx j ne p.1)))
          | inl f ↦ rw (e, f) tt
        ]
      ]

  stay-Wheel : ((i j : ℕ) → Stays i ct j) → Wheel 0 ticked
  stay-Wheel others = record {
    fits = fits;
    nears = λ j. All-map (AtNear 1 T.time j) (AtNear 0 ct j) (T.near j) (near_right j) (w.nears j);
    levels = λ i j.
        All-map (AtLevel i T.time j) (AtLevel i ct j) (T.t i j)
          (λ n. level_right i j n (others i j)) (w.levels i j);
  }

-- What a tick does to a wheel from which the due nodes were taken.
pub record Ticked (T T' : Timer) : Type 0 where
  pub wheel : Wheel 0 T'
  pub same_nodes : SameNodes T T'
  pub next_time : T'.time ≡ (T.time + 1) % 2 ^ 32
  pub same_lock : T'.locked ≡ T.locked

module _ (T : Timer) (ct : ℕ) (ct_lt : ct < 2 ^ 32) (next : ct ≡ T.time + 1) (w : Wheel 1 T) where
  abbrev at_ct : Timer
  at_ct = record T { time = ct }

  moves :
      (l idx : ℕ)
      → ((i j : ℕ) → ((l ≡ i) × (idx ≡ j) → ⊥) → Stays i ct j)
      → ((n : TimerNode) → AtLevel l T.time idx n → Fits 0 ct n)
      → Ticked T (move_list l idx at_ct)
  moves l idx others fits =
      let kept = move_list-SameNodes l idx at_ct in
      record {
        wheel =
            move-Wheel T ct l idx ct_lt w (λ j n. near_step T.time ct j n next)
              (λ i j n. level_step i T.time ct j n next) others fits;
        same_nodes = kept.0;
        next_time = kept.1 ∙ omega arith;
        same_lock = kept.2;
      }

  stays : ((i j : ℕ) → Stays i ct j) → Ticked T at_ct
  stays others = record {
    wheel =
        stay-Wheel T ct 0 0 ct_lt w (λ j n. near_step T.time ct j n next)
          (λ i j n. level_step i T.time ct j n next) others;
    same_nodes = λ m. (λ h. h, λ h. h);
    next_time = omega arith;
    same_lock = refl;
  }

  cascade3 : ct ≢ 0 → ct / 2 ^ 20 % 64 ≡ 0 → ct % 2 ^ 20 ≡ 0 → Ticked T (cascade (from3 ct) at_ct)
  cascade3 pos z y = elim (Bool-cases (ct % 2 ^ 26 == 0)) [
    | inr a ↦ absurd (omega (arith, ==_false _ _ a))
    | inl a ↦ elim (Bool-cases (ct / 2 ^ 26 % 64 == 0)) [
      | inr b ↦
          rw (a, b)
            (moves 3 (ct / 2 ^ 26 % 64) (λ i j. list3 ct i j ((==_iff _ _).0 a) ct_lt)
              (λ n h. omega (arith, (==_iff _ _).0 a)))
      | inl b ↦ rw (a, b) (absurd (omega (arith, (==_iff _ _).0 a, (==_iff _ _).0 b)))
    ]
  ]

  cascade2 : ct ≢ 0 → ct / 2 ^ 14 % 64 ≡ 0 → ct % 2 ^ 14 ≡ 0 → Ticked T (cascade (from2 ct) at_ct)
  cascade2 pos z y = elim (Bool-cases (ct % 2 ^ 20 == 0)) [
    | inr a ↦ absurd (omega (arith, ==_false _ _ a))
    | inl a ↦ elim (Bool-cases (ct / 2 ^ 20 % 64 == 0)) [
      | inr b ↦
          rw (a, b)
            (moves 2 (ct / 2 ^ 20 % 64) (λ i j. list2 ct i j ((==_iff _ _).0 a) (==_false _ _ b))
              (λ n h. omega (arith, (==_iff _ _).0 a)))
      | inl b ↦ rw (a, b) (cascade3 pos ((==_iff _ _).0 b) ((==_iff _ _).0 a))
    ]
  ]

  cascade1 : ct ≢ 0 → ct / 2 ^ 8 % 64 ≡ 0 → ct % 2 ^ 8 ≡ 0 → Ticked T (cascade (from1 ct) at_ct)
  cascade1 pos z y = elim (Bool-cases (ct % 2 ^ 14 == 0)) [
    | inr a ↦ absurd (omega (arith, ==_false _ _ a))
    | inl a ↦ elim (Bool-cases (ct / 2 ^ 14 % 64 == 0)) [
      | inr b ↦
          rw (a, b)
            (moves 1 (ct / 2 ^ 14 % 64) (λ i j. list1 ct i j ((==_iff _ _).0 a) (==_false _ _ b))
              (λ n h. omega (arith, (==_iff _ _).0 a)))
      | inl b ↦ rw (a, b) (cascade2 pos ((==_iff _ _).0 b) ((==_iff _ _).0 a))
    ]
  ]

  -- The tick moves the right list on every branch of the loop.
  cascade-Ticked : ct ≢ 0 → Ticked T (cascade (next_list ct) at_ct)
  cascade-Ticked pos = elim (Bool-cases (ct % 2 ^ 8 == 0)) [
    | inr a ↦ rw a (stays (λ i j. no_list ct i j (==_false _ _ a)))
    | inl a ↦ elim (Bool-cases (ct / 2 ^ 8 % 64 == 0)) [
      | inr b ↦
          rw (a, b)
            (moves 0 (ct / 2 ^ 8 % 64) (λ i j. list0 ct i j (==_false _ _ b))
              (λ n h. omega (arith, (==_iff _ _).0 a)))
      | inl b ↦ rw (a, b) (cascade1 pos ((==_iff _ _).0 b) ((==_iff _ _).0 a))
    ]
  ]

-- The tick from 2 ^ 32 - 1 to 0.
wrap-Ticked :
    (T : Timer) → T.time + 1 ≡ 2 ^ 32 → Wheel 1 T → Ticked T (move_list 3 0 (record T { time = 0 }))
wrap-Ticked T last w =
    let kept = move_list-SameNodes 3 0 (record T { time = 0 }) in
    record {
      wheel =
          move-Wheel T 0 3 0 (omega arith) w (λ j n. near_wrap T.time j n last)
            (λ i j n. level_wrap i T.time j n last) wrap-Other (λ n h. omega arith);
      same_nodes = kept.0;
      next_time = kept.1 ∙ omega arith;
      same_lock = kept.2;
    }

-- One tick from a wheel whose due nodes were taken out: the time goes on by one modulo 2 ^ 32, no
-- node is lost or made up, and every node stands where it belongs.
pub timer_shift-Ticked : (T : Timer) → Wheel 1 T → Ticked T (timer_shift T)
unfolding timer_shift
timer_shift-Ticked T w = elim (Bool-cases ((T.time + 1) % 2 ^ 32 == 0)) [
  | inl zero_ct ↦
      let z = (==_iff _ _).0 zero_ct in
      rw zero_ct (
        subst (λ c. Ticked T (move_list 3 0 (record T { time = c }))) (sym z)
          (wrap-Ticked T (omega (arith, w.fits, z)) w))
  | inr pos ↦
      let ne = ==_false _ _ pos in
      rw (pos, find_cascade-next_list ((T.time + 1) % 2 ^ 32))
        (cascade-Ticked T ((T.time + 1) % 2 ^ 32) (omega arith) (omega (arith, w.fits, ne)) w ne)
]

-- After a tick the list of `near` at the new time holds exactly the nodes of the wheel that expire
-- then: no timer fires early and none is late.
pub shift_due :
    (T : Timer) (n : TimerNode)
    → Wheel 1 T
    → let T' = timer_shift T in
      let ct = (T.time + 1) % 2 ^ 32 in
      (Holds T n × (n.expire ≡ ct) → Within n (T'.near (ct % 256)))
      × (Within n (T'.near (ct % 256)) → Holds T n × (n.expire ≡ ct))
shift_due T n w = (
  λ h. subst at_due k.next_time (d.0 ((k.same_nodes n).0 h.0, h.1 ∙ sym k.next_time)),
  λ h.
      let b = d.1 (subst at_due (sym k.next_time) h) in ((k.same_nodes n).1 b.0, b.1 ∙ k.next_time),
)
  where
    k : Ticked T (timer_shift T)
    k = timer_shift-Ticked T w

    d :
        (Holds (timer_shift T) n × (n.expire ≡ (timer_shift T).time)
          → Within n ((timer_shift T).near ((timer_shift T).time % 256)))
        × (Within n ((timer_shift T).near ((timer_shift T).time % 256))
            → Holds (timer_shift T) n × (n.expire ≡ (timer_shift T).time))
    d = due_exact 0 (timer_shift T) n k.wheel

    at_due : ℕ → Type 0
    at_due c = Within n ((timer_shift T).near (c % 256))
