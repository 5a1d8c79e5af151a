-- ===== src/Mq/Growth.antt =====
-- How far `expand_queue` grows the ring of fengnet_mq.cpp.
use fengnet.Base.{
  ℕ, suc, ◌+◌, ◌*◌, ◌^◌, ◌≤◌, ◌<◌, ◌≡◌, ap, ◌∙◌, List, [], ◌∷◌, Option, ◌==◌, arith, if◌then◌else◌,
  length, length-append,
}
use fengnet.Mq.{
  Message, MessageQueue, mq_create, mq_pop, pop_head, enqueue, store_tail, expand_queue,
  ring_length, default_queue_size,
}
use fengnet.Mq.Ring.{IsValid, contents, length-contents, fifo_pop, enqueue-contents, pop-contents}
use fengnet.Mq.Fifo.{Op, push, pop, create-IsValid}

-- `fengnet_mq_push` doubles the capacity exactly when its message would fill the ring, so one entry
-- always stays free.
cap-enqueue :
    (q : MessageQueue) (m : Message)
    → IsValid q
    → (enqueue q m).cap ≡ (if suc (length (contents q)) == q.cap then q.cap * 2 else q.cap)
unfolding enqueue store_tail expand_queue ring_length
cap-enqueue q m v = ground (arith, v, length-contents q)

cap-pop : (q : MessageQueue) → (mq_pop q).1.cap ≡ q.cap
unfolding mq_pop pop_head
cap-pop q = ground arith

-- The queue after a sequence of calls.
unfoldable pub after : List Op → MessageQueue → MessageQueue
after [] q = q
after (push m ∷ ops) q = after ops (enqueue q m)
after (pop ∷ ops) q = after ops (mq_pop q).1

unfoldable pub pushes : List Op → ℕ
pushes [] = 0
pushes (push m ∷ ops) = suc (pushes ops)
pushes (pop ∷ ops) = pushes ops

length-fifo_pop : (ms : List Message) → length (fifo_pop ms).1 ≤ length ms
length-fifo_pop [] = omega arith
length-fifo_pop (m ∷ ms) = omega arith

after_bound :
    (ops : List Op) (q : MessageQueue) (n : ℕ)
    → IsValid q
    → length (contents q) ≤ n
    → q.cap ≤ default_queue_size + 2 * n
    → (after ops q).cap ≤ default_queue_size + 2 * (n + pushes ops)
unfolding after pushes
after_bound [] q n v few small = omega arith
after_bound (push m ∷ ops) q n v few small =
    let p = enqueue-contents q m v in
    let len : length (contents (enqueue q m)) ≡ suc (length (contents q)) =
      ap length p.1 ∙ omega (arith, length-append (contents q) (m ∷ [])) in
    let ih =
      after_bound ops (enqueue q m) (suc n) p.0 (omega arith) (ground (arith, cap-enqueue q m v)) in
    omega (arith, ih)
after_bound (pop ∷ ops) q n v few small =
    let p = pop-contents q v in
    after_bound ops (mq_pop q).1 n p.0
      (omega (
        arith,
        length-fifo_pop (contents q),
        ap (λ (r : Option Message × List Message). length r.1) p.1,
      ))
      (omega (arith, cap-pop q))

-- From `fengnet_mq_create` on, `n` calls of `fengnet_mq_push` in any order with pops leave the
-- capacity at most 64 + 2 n: `cap` and `cap * 2` are far from the limit of an `int`.
pub cap_bound :
    (ops : List Op) (handle : ℕ)
    → pushes ops < 2 ^ 28
    → ((after ops (mq_create handle)).cap ≤ default_queue_size + 2 * pushes ops)
      × ((after ops (mq_create handle)).cap * 2 < 2 ^ 31)
unfolding mq_create
cap_bound ops handle few =
    let empty = create-IsValid handle in
    let b =
      after_bound ops (mq_create handle) 0 empty.0 (omega (arith, ap length empty.1))
        (omega arith) in
    (omega (arith, b), omega (arith, b))
