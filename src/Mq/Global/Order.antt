-- ===== src/Mq/Global/Order.antt =====
-- `fengnet_globalmq_push` and `fengnet_globalmq_pop` as a list of addresses.
use fengnet.Base.{
  ℕ, ◌≡◌, ◌≢◌, refl, ap, ◌∙◌, sym, subst, true, false, Option, none, some, List, [], ◌∷◌, ◌++◌, inl,
  inr, ◌==◌, ==_iff, Bool-cases, arith,
}
use fengnet.Mq.{MessageQueue}
use fengnet.Mq.Global.{World, update, mq_init, link_tail, globalmq_push, unlink_tail, globalmq_pop}
use fengnet.Chains.{
  Links, elem, Distinct, Linked, last_of, Linked-frame, Linked-append, Linked-live, last_of-append,
  last_of-elem, last-elem, Distinct-append,
}

abbrev pub link_of : World → Links
link_of w a = elim (w.mem a) [ none ↦ none | some q ↦ some q.next ]

-- A queue less its link, which the global queue never touches.
abbrev pub body_of : World → ℕ → Option MessageQueue
body_of w a = elim (w.mem a) [ none ↦ none | some q ↦ some (record q { next = none }) ]

-- The global queue holds exactly these addresses, in this order, each once.
pub record IsGlobal (w : World) (ids : List ℕ) : Type 0 where
  pub linked : Linked (link_of w) w.global.head ids
  pub at_tail : w.global.tail ≡ last_of ids
  pub distinct : Distinct ids

pub init-IsGlobal : IsGlobal mq_init []
unfolding mq_init
init-IsGlobal = record { linked = refl; at_tail = refl; distinct = tt }

live_of :
    (w : World) (a : ℕ) (n : Option ℕ)
    → link_of w a ≡ some n
    → (q : MessageQueue) × (w.mem a ≡ some q) × (q.next ≡ n)
live_of w a n e = go (w.mem a) refl
  where
    go :
        (o : Option MessageQueue)
        → w.mem a ≡ o
        → (q : MessageQueue) × (w.mem a ≡ some q) × (q.next ≡ n)
    go none f = absurd (ground (arith, f, e))
    go (some q) f = (q, f, ground (arith, f, e))

-- What a push leaves behind.
abbrev pub Pushed : World → ℕ → List ℕ → Type 0
Pushed w a ids =
    (w' : World) × (globalmq_push a w ≡ some w')
    × IsGlobal w' (ids ++ (a ∷ []))
    × ((b : ℕ) → body_of w' b ≡ body_of w b)
    × ((b : ℕ) → elem b ids ≡ false → link_of w' b ≡ link_of w b)

module _ (w : World) (a : ℕ) (q : MessageQueue) (live : w.mem a ≡ some q)
    (loose : q.next ≡ none) where
  push_empty : IsGlobal w [] → Pushed w a []
  unfolding globalmq_push link_tail
  push_empty g = (
    record w { global = record { head = some a; tail = some a } },
    ground (arith, live, loose, g.at_tail),
    record {
      linked = (refl, (none, ground (arith, live, loose), refl));
      at_tail = refl;
      distinct = (refl, tt);
    },
    λ b. refl,
    λ b out. refl,
  )

  push_last :
      (x : ℕ) (ids : List ℕ) (t : ℕ) (last : MessageQueue)
      → IsGlobal w (x ∷ ids)
      → elem a (x ∷ ids) ≡ false
      → last_of (x ∷ ids) ≡ some t
      → w.mem t ≡ some last
      → Pushed w a (x ∷ ids)
  unfolding globalmq_push link_tail
  push_last x ids t last g fresh end at_t = (
    w',
    ground (arith, live, loose, g.at_tail, end, at_t),
    record {
      linked =
          Linked-append (link_of w) (link_of w') w.global.head x ids t a end g.distinct fresh
            (ground (arith, live, loose)) (ground arith) other g.linked;
      at_tail = sym (last_of-append (x ∷ ids) a);
      distinct = Distinct-append (x ∷ ids) a g.distinct fresh;
    },
    λ b. ground (arith, at_t),
    λ b out. other b (λ e. cc (out, last-elem x t ids end, ap (λ y. elem y (x ∷ ids)) e)),
  )
    where
      w' : World
      w' = record {
        mem = update w.mem t (some (record last { next = some a }));
        global = record { head = w.global.head; tail = some a };
      }

      other : (b : ℕ) → b ≢ t → link_of w' b ≡ link_of w b
      other b ne = ground (arith, ne)

-- `fengnet_globalmq_push` of a live queue that is not linked yet meets no failed `assert` and no
-- freed address: it appends the queue and changes nothing in any queue but the link.
pub push-IsGlobal :
    (ids : List ℕ) (w : World) (a : ℕ) (q : MessageQueue)
    → IsGlobal w ids
    → w.mem a ≡ some q
    → q.next ≡ none
    → elem a ids ≡ false
    → Pushed w a ids
push-IsGlobal [] w a q g live loose fresh = push_empty w a q live loose g
push-IsGlobal (x ∷ ids) w a q g live loose fresh =
    let (t, end) = last_of-elem x ids in
    let (n, link) =
      Linked-live (link_of w) w.global.head (x ∷ ids) t (last-elem x t ids end) g.linked in
    let (last, at_t, _) = live_of w t n link in
    push_last w a q live loose x ids t last g fresh end at_t

-- `fengnet_globalmq_pop` on an empty global queue returns NULL and changes nothing.
pub pop_empty-IsGlobal : (w : World) → IsGlobal w [] → globalmq_pop w ≡ some (none, w)
unfolding globalmq_pop
pop_empty-IsGlobal w g = ground (arith, g.linked)

-- What a pop of the first queue leaves behind.
abbrev pub Popped : World → ℕ → List ℕ → Type 0
Popped w a ids =
    (w' : World) × (globalmq_pop w ≡ some (some a, w'))
    × IsGlobal w' ids
    × (link_of w' a ≡ some none)
    × ((b : ℕ) → body_of w' b ≡ body_of w b)

module _ (w : World) (a : ℕ) (q : MessageQueue) (live : w.mem a ≡ some q)
    (first : w.global.head ≡ some a) where
  pop_only : q.next ≡ none → w.global.tail ≡ some a → Popped w a []
  unfolding globalmq_pop unlink_tail
  pop_only alone last = (
    record {
      mem = update w.mem a (some (record q { next = none }));
      global = record { head = q.next; tail = none };
    },
    ground (arith, live, first, alone, last),
    record { linked = alone; at_tail = refl; distinct = tt },
    ground arith,
    λ b. ground (arith, live),
  )

  pop_more :
      (c : ℕ) (ids : List ℕ)
      → q.next ≡ some c
      → w.global.tail ≡ last_of (c ∷ ids)
      → elem a (c ∷ ids) ≡ false
      → Distinct (c ∷ ids)
      → Linked (link_of w) q.next (c ∷ ids)
      → Popped w a (c ∷ ids)
  unfolding globalmq_pop unlink_tail
  pop_more c ids more last fresh distinct l = (
    w',
    ground (arith, live, first, more),
    record {
      linked = Linked-frame (link_of w) (link_of w') q.next (c ∷ ids) same l;
      at_tail = last;
      distinct = distinct;
    },
    ground arith,
    λ b. ground (arith, live),
  )
    where
      w' : World
      w' = record {
        mem = update w.mem a (some (record q { next = none }));
        global = record { head = q.next; tail = w.global.tail };
      }

      same : (b : ℕ) → elem b (c ∷ ids) ≡ true → link_of w b ≡ link_of w' b
      same b i = elim (Bool-cases (a == b)) [
        | inl e ↦ cc (i, fresh, ap (λ x. elem x (c ∷ ids)) ((==_iff a b).0 e))
        | inr ne ↦ ground (arith, ne)
      ]

-- `fengnet_globalmq_pop` takes the first queue, clears its link and leaves the others in order; its
-- `assert` holds, and no queue changes in anything but the link.
pop-IsGlobal : (w : World) (a : ℕ) (ids : List ℕ) → IsGlobal w (a ∷ ids) → Popped w a ids
pop-IsGlobal w a [] g =
    let (e, (n, f, l)) = g.linked in
    let (q, live, next) = live_of w a n f in pop_only w a q live e (next ∙ l) g.at_tail
pop-IsGlobal w a (c ∷ ids) g =
    let (e, (n, f, l)) = g.linked in
    let (q, live, next) = live_of w a n f in
    pop_more w a q live e c ids (next ∙ l.0) g.at_tail g.distinct.0 g.distinct.1
      (subst (λ h. Linked (link_of w) h (c ∷ ids)) (sym next) l)
