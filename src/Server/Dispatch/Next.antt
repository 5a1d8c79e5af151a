-- ===== src/Server/Dispatch/Next.antt =====
-- The whole of `fengnet_context_message_dispatch` of fengnet_server.cpp around its loop, and
-- `fengnet_context_new`. The addresses that `new` gives are a parameter.
use fengnet.Base.{
  ℕ, Bool, true, false, Option, none, some, List, [], ◌∷◌, ◌++◌, ◌==◌, if◌then◌else◌,
}
use fengnet.Databuffer.{ℤ}
use fengnet.Mq.{Message}
use fengnet.Mq.Global.{World, globalmq_push, globalmq_pop, mq_release}
use fengnet.Monitor.{Monitor}
use fengnet.Server.{Context, Node, found, grab_found, context_release, pushed}
use fengnet.Server.Send.{Sent, delete, send}
use fengnet.Server.Dispatch.{Callbacks, Worker, dispatch_loop}

-- The queue to go on with, and the worker.
abbrev pub Dispatched : Type 0 → Type 0
Dispatched S = Option (Option ℕ × Worker S)

abbrev pub ptype_error : ℕ
ptype_error = 7

-- `drop_message` of one message, with its `assert(source)`.
unfoldable pub error_sent : {S : Type 0} → Worker S → Option Sent → Option (Worker S)
error_sent w none = none
error_sent w (some r) = some (record w { node = r.node; events = w.events ++ r.events })

unfoldable pub drop_message : {S : Type 0} → (ℕ → ℕ) → ℕ → Message → Worker S → Option (Worker S)
drop_message heap handle m w =
    let w' = record w { events = w.events ++ delete m.data_ptr } in
    let sent =
      error_sent w' (send 0 (heap m.source) none handle m.source ptype_error 0 0 0 w.node) in
    if handle == 0 then none else sent

-- The calls of `drop_message`, in order.
unfoldable pub and_drop :
    {S : Type 0} → (Worker S → Option (Worker S)) → Option (Worker S) → Option (Worker S)
and_drop next none = none
and_drop next (some w) = next w

unfoldable pub drop_all : {S : Type 0} → (ℕ → ℕ) → ℕ → List Message → Worker S → Option (Worker S)
drop_all heap handle [] w = some w
drop_all heap handle (m ∷ ms) w =
    and_drop (λ w'. drop_all heap handle ms w') (drop_message heap handle m w)

-- `fengnet_mq_release` with `drop_message`; the messages go before the queue is freed.
unfoldable pub dropped :
    {S : Type 0} → (ℕ → ℕ) → ℕ → Worker S → Option (List Message × World) → Option (Worker S)
dropped heap handle w none = none
dropped heap handle w (some (ms, mq)) =
    drop_all heap handle ms (record w { node = record w.node { mq = mq } })

-- `return fengnet_globalmq_pop()`.
unfoldable pub next_queue : {S : Type 0} → Worker S → Option (Option ℕ × World) → Dispatched S
next_queue w none = none
next_queue w (some (q, mq)) = some (q, record w { node = record w.node { mq = mq } })

unfoldable pub go_on : {S : Type 0} → Option (Worker S) → Dispatched S
go_on none = none
go_on (some w) = next_queue w (globalmq_pop w.node.mq)

unfoldable pub with_node : {S : Type 0} → Worker S → Option Node → Option (Worker S)
with_node w none = none
with_node w (some n) = some (record w { node = n })

-- `fengnet_context_release(ctx)`.
abbrev pub release : {S : Type 0} → ℕ → Worker S → Option (Worker S)
release a w = with_node w (context_release a w.node)

-- The end of the function, when `nq` is popped: `q` is pushed back and `nq` returned, else `q` is kept.
unfoldable pub returned : {S : Type 0} → Option ℕ → Option (Worker S) → Dispatched S
returned q none = none
returned q (some w) = some (q, w)

unfoldable pub released_with : {S : Type 0} → ℕ → Option ℕ → Option (Worker S) → Dispatched S
released_with a q none = none
released_with a q (some w) = returned q (release a w)

unfoldable pub turn : {S : Type 0} → ℕ → ℕ → Dispatched S → Dispatched S
turn q a none = none
turn q a (some (none, w)) = released_with a (some q) (some w)
turn q a (some (some nq, w)) =
    released_with a (some nq) (with_node w (pushed w.node (globalmq_push q w.node.mq)))

-- `assert(q == ctx->queue)`, and the rest.
unfoldable pub finish : {S : Type 0} → ℕ → ℕ → Option Context → Worker S → Dispatched S
finish q a none w = none
finish q a (some c) w = let rest = turn q a (go_on (some w)) in if q == c.queue then rest else none

-- What follows the loop: when the queue was found empty, and when not.
unfoldable pub after_loop : {S : Type 0} → ℕ → ℕ → Option (Bool × Worker S) → Dispatched S
after_loop q a none = none
after_loop q a (some (true, w)) = go_on (release a w)
after_loop q a (some (false, w)) = finish q a (w.node.ctx a) w

-- What follows `fengnet_handle_grab`.
unfoldable pub dispatch_grabbed :
    {S : Type 0}
    → (ℕ → ℕ)
    → Callbacks S
    → ℤ
    → ℕ
    → ℕ
    → Monitor
    → S
    → Option (Option ℕ × Node)
    → Dispatched S
dispatch_grabbed heap cbs weight q handle sm s none = none
dispatch_grabbed heap cbs weight q handle sm s (some (none, n)) =
    let w : Worker _ = record { monitor = sm; state = s; node = n; events = [] } in
    go_on (dropped heap handle w (mq_release q n.mq))
dispatch_grabbed heap cbs weight q handle sm s (some (some a, n)) =
    let w : Worker _ = record { monitor = sm; state = s; node = n; events = [] } in
    after_loop q a (dispatch_loop weight cbs q a handle w)

-- What follows `fengnet_mq_handle`.
unfoldable pub dispatch_queue :
    {S : Type 0} → (ℕ → ℕ) → Callbacks S → ℤ → Monitor → Dispatched S → Dispatched S
dispatch_queue heap cbs weight sm none = none
dispatch_queue heap cbs weight sm (some (none, w)) = some (none, w)
dispatch_queue heap cbs weight sm (some (some q, w)) = elim (w.node.mq.mem q) [
  | none ↦ none
  | some r ↦
      dispatch_grabbed heap cbs weight q r.handle sm w.state
        (grab_found (found r.handle w.node) w.node)
]

-- `fengnet_context_message_dispatch`.
unfoldable pub message_dispatch :
    {S : Type 0} → (ℕ → ℕ) → Callbacks S → Monitor → S → Option ℕ → ℤ → Node → Dispatched S
message_dispatch heap cbs sm s none weight n =
    dispatch_queue heap cbs weight sm
      (go_on (some (record { monitor = sm; state = s; node = n; events = [] })))
message_dispatch heap cbs sm s (some q) weight n =
    dispatch_queue heap cbs weight sm
      (some (some q, record { monitor = sm; state = s; node = n; events = [] }))
