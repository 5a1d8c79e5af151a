-- ===== src/Mq/Tests.antt =====
-- Runs of the message queue on small rings, and the theorems about it at concrete inputs.
use fengnet.Base.{
  ℕ, ◌+◌, ◌*◌, ◌≤◌, ◌<◌, ◌≡◌, refl, Option, none, some, List, [], ◌∷◌, arith, length, if◌then◌else◌,
  ◌==◌,
}
use fengnet.Mq.{
  Message, MessageQueue, zero_message, mq_create, mq_pop, pop_head, expand_queue, store_tail,
  enqueue, ring_length, raise_overload, drop_queue,
}
use fengnet.Mq.Ring.{IsValid, contents}
use fengnet.Mq.Fifo.{Op, push, pop, run, run_fifo, run_refines}
use fengnet.Mq.Overload.{pop-overload}
use fengnet.Mq.Growth.{after, pushes, cap_bound}
use fengnet.Mq.Drop.{drop_queue-contents}
use fengnet.Mq.Global.{World}
use fengnet.Mq.Global.Order.{IsGlobal}
use fengnet.Mq.Global.Flag.{Scheduled, Sent, mq_push-Scheduled}

abbrev msg : ℕ → Message
msg n = record { source = n; session = 1; data_ptr = 0; sz = 8 }

-- Two messages round the end of an array of three.
abbrev wrapped : MessageQueue
wrapped = record {
  handle = 9;
  cap = 3;
  head = 2;
  tail = 1;
  release = 0;
  in_global = 1;
  overload = 0;
  overload_threshold = 1;
  queue = msg 2 ∷ zero_message ∷ msg 1 ∷ [];
  next = none;
}

wrapped-IsValid : IsValid wrapped
wrapped-IsValid = record { head_in = omega arith; tail_in = omega arith; storage = refl }

-- The push fills the ring, so it is expanded.
expanded : (enqueue wrapped (msg 3)).cap ≡ 6
unfolding enqueue store_tail expand_queue
expanded = refl

script : List Op
script = push (msg 3) ∷ push (msg 4) ∷ pop ∷ pop ∷ pop ∷ pop ∷ pop ∷ []

script_result :
    run script wrapped ≡ some (msg 1) ∷ some (msg 2) ∷ some (msg 3) ∷ some (msg 4) ∷ none ∷ []
unfolding script run enqueue store_tail expand_queue mq_pop pop_head ring_length raise_overload
script_result = refl

run_refines_example : run script wrapped ≡ run_fifo script (contents wrapped)
run_refines_example = run_refines script wrapped wrapped-IsValid

pop-overload_example :
    let q' = pop_head wrapped in
    let len = length (contents q') in
    (len ≤ q'.overload_threshold)
    × (0 < q'.overload_threshold)
    × (wrapped.overload_threshold < len → (q'.overload ≡ len) × (q'.overload_threshold < len + len))
    × (len ≤ wrapped.overload_threshold
        → (q'.overload ≡ wrapped.overload) × (q'.overload_threshold ≡ wrapped.overload_threshold))
pop-overload_example = pop-overload wrapped wrapped-IsValid (omega arith)

abbrev few_calls : List Op
few_calls = push (msg 3) ∷ pop ∷ []

cap_bound_example :
    ((after few_calls (mq_create 7)).cap ≤ 64 + 2 * pushes few_calls)
    × ((after few_calls (mq_create 7)).cap * 2 < 2147483648)
cap_bound_example = cap_bound few_calls 7 few
  where
    few : pushes few_calls < 268435456
    few = unfold pushes in omega arith

drop_queue-contents_example :
    (q' : MessageQueue) × (drop_queue 3 wrapped ≡ some (contents wrapped, q'))
    × (contents q' ≡ [])
    × IsValid q'
drop_queue-contents_example = drop_queue-contents 3 wrapped wrapped-IsValid few
  where
    few : length (contents wrapped) < 3
    few = unfold ring_length in omega arith

-- Queue 5 is linked, queue 6 is not.
abbrev store : ℕ → Option MessageQueue
store a =
    if a == 5
    then some wrapped
    else if a == 6
    then some (record wrapped { in_global = 0 })
    else none

abbrev world : World
world = record { mem = store; global = record { head = some 5; tail = some 5 } }

world-IsGlobal : IsGlobal world (5 ∷ [])
world-IsGlobal = record {
  linked = (refl, (none, refl, refl));
  at_tail = refl;
  distinct = (refl, tt);
}

store_ring : (b : ℕ) (q : MessageQueue) → store b ≡ some q → IsValid q
store_ring b q e = record { head_in = ground arith; tail_in = ground arith; storage = ground arith }

world-Scheduled : Scheduled world (5 ∷ [])
world-Scheduled = record {
  global = world-IsGlobal;
  loose = λ b q e out. ground arith;
  flagged = λ b q e i. ground arith;
  rings = store_ring;
}

mq_push-Scheduled_example : Sent world (5 ∷ []) 6 (record wrapped { in_global = 0 }) (msg 3)
mq_push-Scheduled_example =
    mq_push-Scheduled world (5 ∷ []) 6 (record wrapped { in_global = 0 }) (msg 3) world-Scheduled
      refl
