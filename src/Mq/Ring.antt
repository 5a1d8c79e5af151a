-- ===== src/Mq/Ring.antt =====
-- The ring of fengnet_mq.cpp as a first-in first-out queue: what it holds, and what a push, a pop
-- and an expansion do to that.
use fengnet.Base.{
  ℕ, suc, ◌+◌, ◌-◌, ◌*◌, ◌%◌, ◌<◌, ◌≡◌, ◌≢◌, refl, ap, ap₂, sym, subst, ◌∙◌, Option, none, some,
  List, [], ◌∷◌, ◌++◌, inl, inr, leb, ltb, ◌==◌, if◌then◌else◌, Bool-cases, ==_iff, ==_false, arith,
  length, get_or, set, replicate, tabulate, length-append, length-set, length-replicate,
  length-tabulate, get_or-set_self, get_or-set_ne, get_or-append_lt, get_or-tabulate, tabulate_ext,
  tabulate_snoc, dec_lt, mod-eq_of_lt, mod-eq-sub-mod,
}
use fengnet.Mq.{
  Message, MessageQueue, zero_message, mq_pop, pop_head, expand_queue, store_tail, enqueue,
  ring_length,
}

-- Indices within the array, and an array of `cap` entries.
pub record IsValid (q : MessageQueue) : Type 0 where
  pub head_in : q.head < q.cap
  pub tail_in : q.tail < q.cap
  pub storage : length q.queue ≡ q.cap

-- The `n` messages from index `h` on, going round at `cap`.
abbrev pub window : List Message → ℕ → ℕ → ℕ → List Message
window buf cap h n = tabulate n (λ i. get_or buf ((h + i) % cap) zero_message)

-- The messages that the ring holds, oldest first.
abbrev pub contents : MessageQueue → List Message
contents q = window q.queue q.cap q.head (ring_length q.head q.tail q.cap)

pub wrap_lem :
    (h i cap : ℕ)
    → h < cap
    → i < cap
    → (h + i) % cap ≡ (if ltb (h + i) cap then h + i else h + i - cap)
wrap_lem h i cap p q = elim (dec_lt (h + i) cap) [
  | yes lt ↦ ground (arith, mod-eq_of_lt lt)
  | no ge ↦ ground (
    arith,
    mod-eq-sub-mod {n = h + i} {m = cap} (omega arith),
    mod-eq_of_lt {n = h + i - cap} {m = cap} (omega arith),
  )
]

pub ring_length-lt : (h t cap : ℕ) → h < cap → t < cap → ring_length h t cap < cap
unfolding ring_length
ring_length-lt h t cap p q = ground arith

-- The tail stands `ring_length` entries after the head.
head-add-length : (h t cap : ℕ) → h < cap → t < cap → (h + ring_length h t cap) % cap ≡ t
unfolding ring_length
head-add-length h t cap p q =
    ground (arith, wrap_lem h (ring_length h t cap) cap, ring_length-lt h t cap)

mod-ne : (h i n cap : ℕ) → h < cap → n < cap → i < n → (h + n) % cap ≢ (h + i) % cap
mod-ne h i n cap p q lt = ground (arith, wrap_lem h n cap, wrap_lem h i cap)

-- Writing just past a window extends it by that message.
window-set :
    (buf : List Message) (cap h n : ℕ) (m : Message)
    → length buf ≡ cap
    → h < cap
    → n < cap
    → window (set buf ((h + n) % cap) m) cap h (suc n) ≡ window buf cap h n ++ (m ∷ [])
window-set buf cap h n m len p q =
    tabulate_snoc n _
    ∙ ap₂'
        (tabulate_ext n _ _ (λ i lt.
          get_or-set_ne buf ((h + n) % cap) ((h + i) % cap) m zero_message
            (mod-ne h i n cap p q lt)))
        (get_or-set_self buf ((h + n) % cap) m zero_message (omega (arith, mod-lt-cap)))
  where
    ap₂' :
        {xs ys : List Message} {x y : Message} → xs ≡ ys → x ≡ y → xs ++ (x ∷ []) ≡ ys ++ (y ∷ [])
    ap₂' e f = λ i. e i ++ (f i ∷ [])

    mod-lt-cap : (h + n) % cap < cap
    mod-lt-cap = omega arith

window-set_at :
    (buf : List Message) (cap h n t : ℕ) (m : Message)
    → length buf ≡ cap
    → h < cap
    → n < cap
    → (h + n) % cap ≡ t
    → window (set buf t m) cap h (suc n) ≡ window buf cap h n ++ (m ∷ [])
window-set_at buf cap h n t m len p q e =
    subst (λ s. window (set buf s m) cap h (suc n) ≡ window buf cap h n ++ (m ∷ [])) e
      (window-set buf cap h n m len p q)

-- The array of `expand_queue` holds the whole old ring from index 0 on.
window-expand :
    (buf : List Message) (cap h : ℕ)
    → h < cap
    → window (window buf cap h cap ++ replicate cap zero_message) (cap * 2) 0 cap
      ≡ window buf cap h cap
window-expand buf cap h p = tabulate_ext cap _ _ pointwise
  where
    pointwise :
        (i : ℕ)
        → i < cap
        → get_or
            (window buf cap h cap ++ replicate cap zero_message)
            ((0 + i) % (cap * 2))
            zero_message
          ≡ get_or buf ((h + i) % cap) zero_message
    pointwise i lt =
        let e : (0 + i) % (cap * 2) ≡ i =
          mod-eq_of_lt {n = 0 + i} {m = cap * 2} (omega arith) ∙ omega arith in
        rw (
          e,
          get_or-append_lt (window buf cap h cap) (replicate cap zero_message) i zero_message
              (omega (arith, length-tabulate cap (λ j. get_or buf ((h + j) % cap) zero_message))),
          get_or-tabulate cap (λ j. get_or buf ((h + j) % cap) zero_message) i zero_message lt,
        )

-- The ring after the store and the step of `tail`: one message longer, unless it came round.
store_tail-cases :
    (q : MessageQueue) (m : Message)
    → IsValid q
    → let q' = store_tail q m in
      (length q'.queue ≡ q.cap)
      × (q'.tail < q.cap)
      × (window q'.queue q.cap q.head (suc (ring_length q.head q.tail q.cap))
          ≡ contents q ++ (m ∷ []))
unfolding store_tail
store_tail-cases q m v = (
  length-set q.queue q.tail m ∙ v.storage,
  ground arith,
  window-set_at q.queue q.cap q.head (ring_length q.head q.tail q.cap) q.tail m v.storage v.head_in
      (ring_length-lt q.head q.tail q.cap v.head_in v.tail_in)
      (head-add-length q.head q.tail q.cap v.head_in v.tail_in),
)

-- The new tail meets the head exactly when the ring has become full.
tail_step :
    (h t cap : ℕ)
    → h < cap
    → t < cap
    → let t' = if leb cap (t + 1) then 0 else t + 1 in
      if h == t'
      then (suc (ring_length h t cap) ≡ cap)
      else (ring_length h t' cap ≡ suc (ring_length h t cap))
unfolding ring_length
tail_step h t cap p q = ground arith

expand-IsValid : (q : MessageQueue) → 0 < q.cap → length q.queue ≡ q.cap → IsValid (expand_queue q)
unfolding expand_queue
expand-IsValid q pos len = record {
  head_in = omega arith;
  tail_in = omega arith;
  storage =
      length-append (window q.queue q.cap q.head q.cap) (replicate q.cap zero_message)
      ∙ omega (
        arith,
        length-tabulate q.cap (λ i. get_or q.queue ((q.head + i) % q.cap) zero_message),
        length-replicate q.cap zero_message,
      );
}

-- An expansion keeps the whole ring, in order, from the head on.
contents-expand :
    (q : MessageQueue)
    → q.head < q.cap
    → contents (expand_queue q) ≡ window q.queue q.cap q.head q.cap
unfolding expand_queue
contents-expand q p = rw (length_full q.cap) (window-expand q.queue q.cap q.head p)
  where
    length_full : (cap : ℕ) → ring_length 0 cap (cap * 2) ≡ cap
    length_full cap = unfold ring_length in ground arith

module _ (q' : MessageQueue) (n : ℕ) (xs : List Message) (len : length q'.queue ≡ q'.cap)
    (head_in : q'.head < q'.cap) (holds : window q'.queue q'.cap q'.head (suc n) ≡ xs) where
  enqueue_full : suc n ≡ q'.cap → IsValid (expand_queue q') × (contents (expand_queue q') ≡ xs)
  enqueue_full e = (
    expand-IsValid q' (omega arith) len,
    contents-expand q' head_in ∙ ap (window q'.queue q'.cap q'.head) (sym e) ∙ holds,
  )

  enqueue_room :
      q'.tail < q'.cap
      → ring_length q'.head q'.tail q'.cap ≡ suc n
      → IsValid q' × (contents q' ≡ xs)
  enqueue_room tail_in e = (
    record { head_in = head_in; tail_in = tail_in; storage = len },
    ap (window q'.queue q'.cap q'.head) e ∙ holds,
  )

-- `fengnet_mq_push` keeps the ring well formed and appends its message, an expansion included.
pub enqueue-contents :
    (q : MessageQueue) (m : Message)
    → IsValid q
    → IsValid (enqueue q m) × (contents (enqueue q m) ≡ contents q ++ (m ∷ []))
unfolding enqueue store_tail
enqueue-contents q m v = elim (Bool-cases (q.head == t')) [
  | inl full ↦ rw full (enqueue_full q' n xs s.0 v.head_in s.2 (rw full at steps))
  | inr room ↦ rw room (enqueue_room q' n xs s.0 v.head_in s.2 s.1 (rw room at steps))
]
  where
    q' : MessageQueue
    q' = store_tail q m

    t' : ℕ
    t' = q'.tail

    n : ℕ
    n = ring_length q.head q.tail q.cap

    xs : List Message
    xs = contents q ++ (m ∷ [])

    s : (length q'.queue ≡ q.cap) × (q'.tail < q.cap) × (window q'.queue q.cap q.head (suc n) ≡ xs)
    s = store_tail-cases q m v

    steps : if q.head == t' then (suc n ≡ q.cap) else (ring_length q.head t' q.cap ≡ suc n)
    steps = tail_step q.head q.tail q.cap v.head_in v.tail_in

-- A first-in first-out queue as a list, oldest first.
abbrev pub fifo_pop : List Message → Option Message × List Message
fifo_pop [] = (none, [])
fifo_pop (m ∷ ms) = (some m, ms)

head_step :
    (h t cap : ℕ)
    → h < cap
    → t < cap
    → h ≢ t
    → let h' = if leb cap (h + 1) then 0 else h + 1 in
      (h' < cap) × (ring_length h t cap ≡ suc (ring_length h' t cap))
unfolding ring_length
head_step h t cap p q ne = ground arith

-- A window is its first message and the window from the next index on.
window_cons :
    (buf : List Message) (cap h n : ℕ)
    → h < cap
    → n < cap
    → let h' = if leb cap (h + 1) then 0 else h + 1 in
      window buf cap h (suc n) ≡ get_or buf h zero_message ∷ window buf cap h' n
window_cons buf cap h n p q =
    ap₂ ◌∷◌ (ap (λ i. get_or buf i zero_message) (ground (arith, wrap_lem h 0 cap)))
      (tabulate_ext n _ _ (λ i lt. ap (λ j. get_or buf j zero_message) (index i lt)))
  where
    h' : ℕ
    h' = if leb cap (h + 1) then 0 else h + 1

    index : (i : ℕ) → i < n → (h + suc i) % cap ≡ (h' + i) % cap
    index i lt = ground (arith, wrap_lem h (suc i) cap, wrap_lem h' i cap)

module _ (q : MessageQueue) (v : IsValid q) where
  pop_empty : q.head ≡ q.tail → contents q ≡ []
  unfolding ring_length
  pop_empty e = ap (window q.queue q.cap q.head) {y = 0} (ground arith)

  pop_message :
      q.head ≢ q.tail
      → IsValid (pop_head q)
        × (contents q ≡ get_or q.queue q.head zero_message ∷ contents (pop_head q))
  unfolding pop_head
  pop_message ne =
      let step = head_step q.head q.tail q.cap v.head_in v.tail_in ne in
      (
        record { head_in = step.0; tail_in = v.tail_in; storage = v.storage },
        ap (window q.queue q.cap q.head) step.1
            ∙ window_cons q.queue q.cap q.head _ v.head_in
                (ring_length-lt _ q.tail q.cap step.0 v.tail_in),
      )

  -- `fengnet_mq_pop` keeps the ring well formed and takes the oldest message, or says that there is
  -- none.
  pub pop-contents :
      let (popped, q') = mq_pop q in IsValid q' × ((popped, contents q') ≡ fifo_pop (contents q))
  unfolding mq_pop
  pop-contents = elim (Bool-cases (q.head == q.tail)) [
    | inl e ↦
        let p = pop_empty ((==_iff q.head q.tail).0 e) in
        rw e (
          record { head_in = v.head_in; tail_in = v.tail_in; storage = v.storage },
          ap {B = Option Message × List Message} (λ ms. (none, ms)) p ∙ ap fifo_pop (sym p),
        )
    | inr ne ↦ let p = pop_message (==_false q.head q.tail ne) in rw ne (p.0, ap fifo_pop (sym p.1))
  ]

pub length-contents : (q : MessageQueue) → length (contents q) ≡ ring_length q.head q.tail q.cap
length-contents q = length-tabulate (ring_length q.head q.tail q.cap) _

pub fifo_pop-none : (ms rest : List Message) → (none, rest) ≡ fifo_pop ms → (ms ≡ []) × (rest ≡ [])
fifo_pop-none [] rest e = (refl, ap (λ (r : Option Message × List Message). r.1) e)
fifo_pop-none (m ∷ ms) rest e = cc (ap (λ (r : Option Message × List Message). r.0) e)

pub fifo_pop-some :
    (ms rest : List Message) (m : Message) → (some m, rest) ≡ fifo_pop ms → ms ≡ m ∷ rest
fifo_pop-some [] rest m e = cc (ap (λ (r : Option Message × List Message). r.0) e)
fifo_pop-some (x ∷ ms) rest m e = cc (
  ap (λ (r : Option Message × List Message). r.0) e,
  ap (λ (r : Option Message × List Message). r.1) e,
)
