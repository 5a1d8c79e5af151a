-- ===== src/Mq/Drop.antt =====
-- `_drop_queue` of fengnet_mq.cpp: it hands every message that is left to `drop_func`.
use fengnet.Base.{ℕ, zero, suc, ◌<◌, ◌≡◌, refl, ap, Option, some, none, [], arith, length}
use fengnet.Mq.{Message, MessageQueue, mq_pop, drop_queue}
use fengnet.Mq.Ring.{IsValid, contents, fifo_pop, fifo_pop-none, fifo_pop-some, pop-contents}

-- With fuel above the number of messages held, `_drop_queue` ends. It has called `drop_func` once
-- for each message that was held, oldest first, and leaves the queue empty and well formed.
pub drop_queue-contents :
    (fuel : ℕ) (q : MessageQueue)
    → IsValid q
    → length (contents q) < fuel
    → (q' : MessageQueue) × (drop_queue fuel q ≡ some (contents q, q'))
      × (contents q' ≡ [])
      × IsValid q'
unfolding drop_queue
drop_queue-contents zero q v h = absurd (omega arith)
drop_queue-contents (suc fuel) q v h =
    go (mq_pop q).0 refl (λ lt. drop_queue-contents fuel (mq_pop q).1 (pop-contents q v).0 lt)
  where
    Result : ℕ → MessageQueue → Type 0
    Result f r =
        (q' : MessageQueue) × (drop_queue f r ≡ some (contents r, q'))
        × (contents q' ≡ [])
        × IsValid q'

    popped : ((mq_pop q).0, contents (mq_pop q).1) ≡ fifo_pop (contents q)
    popped = (pop-contents q v).1

    go :
        (o : Option Message)
        → (mq_pop q).0 ≡ o
        → (length (contents (mq_pop q).1) < fuel → Result fuel (mq_pop q).1)
        → Result (suc fuel) q
    go none e ih =
        let none_left = fifo_pop-none (contents q) _ (rw e at popped) in
        ((mq_pop q).1, ground (arith, e, none_left), none_left.1, (pop-contents q v).0)
    go (some m) e ih =
        let split = fifo_pop-some (contents q) _ m (rw e at popped) in
        let rest = ih (omega (arith, ap length split)) in
        (rest.0, ground (arith, e, split, rest.1), rest.2, rest.3)
