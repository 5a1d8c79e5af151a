-- ===== src/Mq.antt =====
-- fengnet-src/fengnet_mq.h and fengnet_mq.cpp: the message queue of a service (a growing ring) and
-- the global queue (an intrusive list of message queues).
-- Each function runs under the spin lock of the object that it changes, so it is one step here.
-- An `int` is a number: `cap` and `overload_threshold` only double while the queue grows, and
-- `Mq.Growth` says how far. A failed `assert` and a read through a freed pointer are `none`.
pub mod Ring
pub mod Fifo
pub mod Overload
pub mod Growth
pub mod Drop
pub mod Global
mod Tests
use fengnet.Base.{
  ℕ, zero, suc, ◌+◌, ◌-◌, ◌*◌, ◌%◌, Bool, true, false, Option, none, some, List, [], ◌∷◌, ◌++◌, leb,
  ltb, ◌==◌, if◌then◌else◌, get_or, set, replicate, tabulate,
}

-- `fengnet_message`; `data` is an address. Messages are moved and never computed with here.
pub record Message : Type 0 where
  pub source : ℕ
  pub session : ℕ
  pub data_ptr : ℕ
  pub sz : ℕ

-- What `new fengnet_message[n]()` fills the array with.
abbrev pub zero_message : Message
zero_message = record { source = 0; session = 0; data_ptr = 0; sz = 0 }

abbrev pub default_queue_size : ℕ
default_queue_size = 64

abbrev pub mq_in_global : ℕ
mq_in_global = 1

abbrev pub mq_overload_init : ℕ
mq_overload_init = 1024

-- `message_queue`, less its lock; `next` is the link of the global queue.
pub record MessageQueue : Type 0 where
  pub handle : ℕ
  pub cap : ℕ
  pub head : ℕ
  pub tail : ℕ
  pub release : ℕ
  pub in_global : ℕ
  pub overload : ℕ
  pub overload_threshold : ℕ
  pub queue : List Message
  pub next : Option ℕ

-- The value that `fengnet_mq_create` returns.
unfoldable pub mq_create : ℕ → MessageQueue
mq_create handle = record {
  handle = handle;
  cap = default_queue_size;
  head = 0;
  tail = 0;
  release = 0;
  in_global = mq_in_global;
  overload = 0;
  overload_threshold = mq_overload_init;
  queue = replicate default_queue_size zero_message;
  next = none;
}

-- `while (length > threshold) { overload = length; threshold *= 2; }`, on fuel.
unfoldable pub raise_overload : ℕ → ℕ → ℕ × ℕ → ℕ × ℕ
raise_overload zero len (over, threshold) = (over, threshold)
raise_overload (suc fuel) len (over, threshold) =
    let rest = raise_overload fuel len (len, threshold * 2) in
    if ltb threshold len then rest else (over, threshold)

-- `tail - head`, with `cap` added where that is negative.
unfoldable pub ring_length : ℕ → ℕ → ℕ → ℕ
ring_length head tail cap = if ltb tail head then tail + cap - head else tail - head

-- The branch of `fengnet_mq_pop` with a message.
unfoldable pub pop_head : MessageQueue → MessageQueue
pop_head q =
    let head = if leb q.cap (q.head + 1) then 0 else q.head + 1 in
    let len = ring_length head q.tail q.cap in
    let (over, threshold) = raise_overload len len (q.overload, q.overload_threshold) in
    record q { head = head; overload = over; overload_threshold = threshold }

-- `fengnet_mq_pop`: `none` is the result 1, and `some m` is 0 with `m` in `*message`.
unfoldable pub mq_pop : MessageQueue → Option Message × MessageQueue
mq_pop q =
    if q.head == q.tail
    then (none, record q { overload_threshold = mq_overload_init; in_global = 0 })
    else (some (get_or q.queue q.head zero_message), pop_head q)

-- `expand_queue`: the loop copies entry `(head + i) % cap` to entry `i` of a zeroed array.
unfoldable pub expand_queue : MessageQueue → MessageQueue
expand_queue q = record q {
  head = 0;
  tail = q.cap;
  cap = q.cap * 2;
  queue =
      tabulate q.cap (λ i. get_or q.queue ((q.head + i) % q.cap) zero_message)
      ++ replicate q.cap zero_message;
}

-- The store of `fengnet_mq_push` at `tail`, with the step of `tail`.
unfoldable pub store_tail : MessageQueue → Message → MessageQueue
store_tail q m = record q {
  queue = set q.queue q.tail m;
  tail = if leb q.cap (q.tail + 1) then 0 else q.tail + 1;
}

-- `fengnet_mq_push` up to the test of `in_global`.
unfoldable pub enqueue : MessageQueue → Message → MessageQueue
enqueue q m = let q' = store_tail q m in if q'.head == q'.tail then expand_queue q' else q'

-- `fengnet_mq_length`.
unfoldable pub mq_length : MessageQueue → ℕ
mq_length q = if leb q.head q.tail then q.tail - q.head else q.tail + q.cap - q.head

-- `fengnet_mq_overload`: reads and clears the mark.
unfoldable pub mq_overload : MessageQueue → ℕ × MessageQueue
mq_overload q = if q.overload == 0 then (0, q) else (q.overload, record q { overload = 0 })

-- The loop of `_drop_queue`, on fuel: the messages that `drop_func` is called with, in order.
-- `none` where the fuel runs out.
unfoldable pub drop_queue : ℕ → MessageQueue → Option (List Message × MessageQueue)
drop_queue zero q = none
drop_queue (suc fuel) q =
    let (popped, q') = mq_pop q in
    elim popped [
      | none ↦ some ([], q')
      | some m ↦ elim (drop_queue fuel q') [ none ↦ none | some (ms, q'') ↦ some (m ∷ ms, q'') ]
    ]
