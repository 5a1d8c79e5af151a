-- ===== src/Server/Dispatch.antt =====
-- `fengnet_context_message_dispatch` of fengnet_server.cpp: what a worker thread does with one queue.
-- The callbacks of the services are a parameter: from the address of the context, the message, what the
-- services keep in their memory and the node they give whether the data is reserved, the memory and the
-- node.
pub mod Serve
pub mod Rounds
pub mod Next
pub mod Dropped
use fengnet.Base.{
  ℕ, zero, suc, ◌+◌, ◌-◌, ◌*◌, ◌/◌, ◌%◌, ◌^◌, Bool, true, false, Option, none, some, List, [], ◌∷◌,
  ◌++◌, ◌==◌, if◌then◌else◌, bit_and,
}
use fengnet.Databuffer.{ℤ, pos, negsuc}
use fengnet.Mq.{Message, MessageQueue, mq_pop, mq_length, mq_overload}
use fengnet.Mq.Global.{World, write, globalmq_push, globalmq_pop, mq_release}
use fengnet.Server.{
  Context, Node, put, inc, found, grab_found, context_release, release_after, pushed, type_of,
  size_of,
}
use fengnet.Server.Send.{Event, Sent, delete, send}
use fengnet.Monitor.{Monitor, monitor_trigger}

-- What a callback gets: `type`, `session`, `source`, `msg` and `sz`.
pub record Call : Type 0 where
  pub type : ℕ
  pub session : ℕ
  pub source : ℕ
  pub msg : ℕ
  pub sz : ℕ

abbrev pub call_of : Message → Call
call_of m = record {
  type = type_of m.sz;
  session = m.session;
  source = m.source;
  msg = m.data_ptr;
  sz = size_of m.sz;
}

abbrev pub Callbacks : Type 0 → Type 0
Callbacks S = ℕ → Call → S → Node → Option (Bool × S × Node)

-- What a worker has at hand: its monitor, what the services keep in their memory (behind `cb_ud`), the node,
-- and the memory events of the messages.
pub record Worker (S : Type 0) : Type 0 where
  pub monitor : Monitor
  pub state : S
  pub node : Node
  pub events : List Event

unfoldable pub bind :
    {S : Type 0}
    → Option (Worker S)
    → (Worker S → Option (Bool × Worker S))
    → Option (Bool × Worker S)
bind none next = none
bind (some w) next = next w

-- `fengnet_mq_pop` of the queue at an address.
unfoldable pub pop_live : ℕ → Option MessageQueue → Node → Option (Option Message × Node)
pop_live q none n = none
pop_live q (some r) n = some ((mq_pop r).0, record n { mq = write q (mq_pop r).1 n.mq })

-- `fengnet_mq_overload` of the queue at an address; the mark is only logged.
unfoldable pub clear_overload : ℕ → Option MessageQueue → Node → Option Node
clear_overload q none n = none
clear_overload q (some r) n = some (record n { mq = write q (mq_overload r).1 n.mq })

-- `if (!reserve_msg) delete msg->data;`
unfoldable pub called :
    {S : Type 0} → Message → Worker S → Option (Bool × S × Node) → Option (Worker S)
called m w none = none
called m w (some (true, s, n)) = some (record w { state = s; node = n })
called m w (some (false, s, n)) =
    some (record w { state = s; node = n; events = w.events ++ delete m.data_ptr })

-- `dispatch_message`, with its `assert(ctx->init)`.
unfoldable pub dispatch_message :
    {S : Type 0} → Callbacks S → ℕ → Context → Message → Worker S → Option (Worker S)
dispatch_message cbs a c m w =
    let counted = put a (record c { message_count = inc c.message_count }) w.node in
    let result = called m (record w { node = counted }) (cbs a (call_of m) w.state counted) in
    if c.init then result else none

-- `if (ctx->cb == NULL)`, and else the call.
unfoldable pub handle_message :
    {S : Type 0} → Callbacks S → ℕ → Option Context → Message → Worker S → Option (Worker S)
handle_message cbs a none m w = none
handle_message cbs a (some c) m w =
    let unused = some (record w { events = w.events ++ delete m.data_ptr }) in
    let used = dispatch_message cbs a c m w in if c.cb then used else unused

-- `assert(handle==ctx->handle)`, and the trigger after it.
unfoldable pub settled : {S : Type 0} → ℕ → Option Context → Worker S → Option (Worker S)
settled handle none w = none
settled handle (some c) w =
    if handle == c.handle then some (record w { monitor = monitor_trigger 0 0 w.monitor }) else none

unfoldable pub settle : {S : Type 0} → ℕ → ℕ → Option (Worker S) → Option (Worker S)
settle a handle none = none
settle a handle (some w) = settled handle (w.node.ctx a) w

-- The body of the loop for a message, from `fengnet_mq_overload` on.
unfoldable pub serve_at :
    {S : Type 0} → Callbacks S → ℕ → ℕ → Message → Worker S → Option Node → Option (Worker S)
serve_at cbs a handle m w none = none
serve_at cbs a handle m w (some n) = settle a handle (
    handle_message cbs a (n.ctx a) m
      (record w { monitor = monitor_trigger m.source handle w.monitor; node = n }))

abbrev pub serve :
    {S : Type 0} → Callbacks S → ℕ → ℕ → ℕ → Message → Worker S → Node → Option (Worker S)
serve cbs q a handle m w n = serve_at cbs a handle m w (clear_overload q (n.mq.mem q) n)

-- What follows a pop: the queue is empty, or the message is served and the loop goes on.
unfoldable pub served :
    {S : Type 0}
    → Callbacks S
    → ℕ
    → ℕ
    → ℕ
    → Worker S
    → (Node → Worker S → Option (Bool × Worker S))
    → Option (Option Message × Node)
    → Option (Bool × Worker S)
served cbs q a handle w next none = none
served cbs q a handle w next (some (none, n)) = some (true, record w { node = n })
served cbs q a handle w next (some (some m, n)) = bind (serve cbs q a handle m w n) (next n)

abbrev pub pop_at : {S : Type 0} → ℕ → Worker S → Option (Option Message × Node)
pop_at q w = pop_live q (w.node.mq.mem q) w.node

-- The rounds of the loop from the second on; whether the queue was found empty.
unfoldable pub rounds :
    {S : Type 0} → ℕ → Callbacks S → ℕ → ℕ → ℕ → Worker S → Option (Bool × Worker S)
rounds zero cbs q a handle w = some (false, w)
rounds (suc k) cbs q a handle w =
    served cbs q a handle w (λ n w'. rounds k cbs q a handle w') (pop_at q w)

-- The rounds after the first: `n = fengnet_mq_length(q) >> weight`, when `weight >= 0`.
unfoldable pub further_rounds : ℤ → ℕ → ℕ
further_rounds (pos weight) len = len / 2 ^ weight - 1
further_rounds (negsuc weight) len = 0

-- `fengnet_mq_length` of the queue at an address.
abbrev pub length_of : Option MessageQueue → ℕ
length_of r = elim r [ none ↦ 0 | some r ↦ mq_length r ]

-- The whole loop.
unfoldable pub dispatch_loop :
    {S : Type 0} → ℤ → Callbacks S → ℕ → ℕ → ℕ → Worker S → Option (Bool × Worker S)
dispatch_loop weight cbs q a handle w =
    served cbs q a handle w
      (λ n w'. rounds (further_rounds weight (length_of (n.mq.mem q))) cbs q a handle w')
      (pop_at q w)
