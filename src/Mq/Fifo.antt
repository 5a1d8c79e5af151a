-- ===== src/Mq/Fifo.antt =====
-- Sequences of `fengnet_mq_push` and `fengnet_mq_pop` on one queue against a first-in first-out list,
-- and the length that `fengnet_mq_length` reports.
use fengnet.Base.{
  ℕ, ◌≡◌, refl, ap, ◌∙◌, sym, Option, List, [], ◌∷◌, ◌++◌, arith, length, length-tabulate,
}
use fengnet.Mq.{Message, MessageQueue, mq_create, mq_pop, enqueue, mq_length, ring_length}
use fengnet.Mq.Ring.{IsValid, contents, fifo_pop, enqueue-contents, pop-contents}

-- A call of a client.
pub data Op : Type 0 where
  push : Message → Op
  pop : Op

-- The calls in order on the ring, with what each `fengnet_mq_pop` hands over.
unfoldable pub run : List Op → MessageQueue → List (Option Message)
run [] q = []
run (push m ∷ ops) q = run ops (enqueue q m)
run (pop ∷ ops) q = let (popped, q') = mq_pop q in popped ∷ run ops q'

-- The same on the list.
unfoldable pub run_fifo : List Op → List Message → List (Option Message)
run_fifo [] ms = []
run_fifo (push m ∷ ops) ms = run_fifo ops (ms ++ (m ∷ []))
run_fifo (pop ∷ ops) ms = let (popped, ms') = fifo_pop ms in popped ∷ run_fifo ops ms'

run_pop :
    (ops : List Op) (q : MessageQueue) (v : IsValid q)
    → ((q' : MessageQueue) → IsValid q' → run ops q' ≡ run_fifo ops (contents q'))
    → run (pop ∷ ops) q ≡ run_fifo (pop ∷ ops) (contents q)
unfolding run run_fifo
run_pop ops q v ih =
    let p = pop-contents q v in
    ap (λ r. (mq_pop q).0 ∷ r) (ih (mq_pop q).1 p.0)
    ∙ ap (λ (r : Option Message × List Message). r.0 ∷ run_fifo ops r.1) p.1

-- Every sequence of pushes and pops on a well-formed ring hands over what the list of the messages
-- that it holds hands over, whatever expansions the pushes make.
pub run_refines :
    (ops : List Op) (q : MessageQueue) → IsValid q → run ops q ≡ run_fifo ops (contents q)
unfolding run run_fifo
run_refines [] q v = refl
run_refines (push m ∷ ops) q v =
    let p = enqueue-contents q m v in run_refines ops (enqueue q m) p.0 ∙ ap (run_fifo ops) p.1
run_refines (pop ∷ ops) q v = run_pop ops q v (run_refines ops)

-- The queue of `fengnet_mq_create` is well formed and holds nothing.
pub create-IsValid : (handle : ℕ) → IsValid (mq_create handle) × (contents (mq_create handle) ≡ [])
unfolding mq_create ring_length
create-IsValid handle =
    (record { head_in = omega arith; tail_in = omega arith; storage = refl }, refl)

-- `fengnet_mq_length` of a well-formed ring is the number of messages held.
pub mq_length-contents : (q : MessageQueue) → IsValid q → mq_length q ≡ length (contents q)
unfolding mq_length
mq_length-contents q v = lengths ∙ sym (length-tabulate (ring_length q.head q.tail q.cap) _)
  where
    lengths : mq_length q ≡ ring_length q.head q.tail q.cap
    lengths = unfold ring_length in ground arith
