-- ===== src/Server/Dispatch/Serve.antt =====
-- One message of the loop of `fengnet_context_message_dispatch` of fengnet_server.cpp: the pop, and the
-- call of the service.
use fengnet.Base.{
  ◌/◌, ◌%◌, ◌^◌, and_ones, ℕ, ◌≡◌, refl, ap, ◌∙◌, Bool, true, false, Option, none, some, List, [],
  ◌∷◌, ◌++◌, ◌==◌, if◌then◌else◌, ==_refl, Bool-cases, inl, inr,
}
use fengnet.Mq.{Message, MessageQueue, mq_pop, mq_overload}
use fengnet.Mq.Ring.{IsValid, contents, fifo_pop, pop-contents}
use fengnet.Mq.Global.{World, write}
use fengnet.Server.{Context, Node, put, inc}
use fengnet.Monitor.{monitor_trigger}
use fengnet.Server.Push.{updated}
use fengnet.Server.Send.{delete}
use fengnet.Server.Dispatch.{
  Call, call_of, Callbacks, Worker, pop_live, clear_overload, called, dispatch_message,
  handle_message, settled, settle, serve_at, serve,
}

-- The queue `q` lives and holds `ms`, and its context lives at `a`, initialised, with a callback.
pub record IsServing (q a handle : ℕ) (n : Node) (ms : List Message) : Type 0 where
  pub ring : MessageQueue
  pub at : n.mq.mem q ≡ some ring
  pub valid : IsValid ring
  pub holds : contents ring ≡ ms
  pub context : Context
  pub live : n.ctx a ≡ some context
  pub addressed : context.handle ≡ handle
  pub ready : context.init ≡ true
  pub answers : context.cb ≡ true

-- What a callback is to get of a message: the type is in the highest byte of `sz`, the size below.
abbrev pub handed : Message → Call
handed m = record {
  type = m.sz / 2 ^ 56;
  session = m.session;
  source = m.source;
  msg = m.data_ptr;
  sz = m.sz % 2 ^ 56;
}

call_of-handed : (m : Message) → call_of m ≡ handed m
call_of-handed m = ap (λ sz. record (handed m) { sz = sz }) (and_ones 56 m.sz)

-- A callback that ends, whose context goes on to be served, whose queue at most gets more messages, and
-- that notes the call in the memory of its service, where `log` reads the calls.
pub record Answers {S : Type 0} (log : S → List Call) (cbs : Callbacks S) (q a handle : ℕ)
    (state : S) (n : Node) (ms : List Message) (c : Call) : Type 0 where
  pub reserved : Bool
  pub after : S
  pub node : Node
  pub ends : cbs a c state n ≡ some (reserved, after, node)
  pub noted : log after ≡ log state ++ (c ∷ [])
  pub more : List Message
  pub serving : IsServing q a handle node (ms ++ more)

abbrev pub Answering : {S : Type 0} → (S → List Call) → Callbacks S → ℕ → ℕ → ℕ → Type 0
Answering {S} log cbs q a handle =
    (state : S) (n : Node) (ms : List Message) (c : Call)
    → IsServing q a handle n ms
    → Answers log cbs q a handle state n ms c

written : (w : World) (q : ℕ) (r : MessageQueue) → (write q r w).mem q ≡ some r
written w q r = rw (==_refl q) refl

-- The body of the loop calls the service with the message.
pub record IsServed {S : Type 0} (log : S → List Call) (q a handle : ℕ) (m : Message)
    (ms : List Message) (w : Worker S) (run : Option (Worker S)) : Type 0 where
  pub after : Worker S
  pub ends : run ≡ some after
  pub noted : log after.state ≡ log w.state ++ (handed m ∷ [])
  pub more : List Message
  pub serving : IsServing q a handle after.node (ms ++ more)

overload_lem :
    (r : MessageQueue)
    → IsValid r
    → IsValid (mq_overload r).1 × (contents (mq_overload r).1 ≡ contents r)
unfolding mq_overload
overload_lem r v = elim (Bool-cases (r.overload == 0)) [
  | inl e ↦ rw e (v, refl)
  | inr e ↦ rw e (record { head_in = v.head_in; tail_in = v.tail_in; storage = v.storage }, refl)
]

module _ {S : Type 0} (log : S → List Call) (cbs : Callbacks S) (q a handle : ℕ)
    (answer : Answering log cbs q a handle) where
  pub pop-IsServing :
      (n : Node) (m : Message) (ms : List Message)
      → IsServing q a handle n (m ∷ ms)
      → (n' : Node) × (pop_live q (n.mq.mem q) n ≡ some (some m, n')) × IsServing q a handle n' ms
  unfolding pop_live
  pop-IsServing n m ms s =
      let (v, e) = pop-contents s.ring s.valid in
      let same : ((mq_pop s.ring).0, contents (mq_pop s.ring).1) ≡ (some m, ms) =
        e ∙ ap fifo_pop s.holds in
      (
        record n { mq = write q (mq_pop s.ring).1 n.mq },
        ap (λ o. pop_live q o n) s.at
            ∙ ap
                (λ (o : Option Message). some (o, record n { mq = write q (mq_pop s.ring).1 n.mq }))
                (ap (λ (p : Option Message × List Message). p.0) same),
        record {
          ring = (mq_pop s.ring).1;
          at = written n.mq q (mq_pop s.ring).1;
          valid = v;
          holds = ap (λ (p : Option Message × List Message). p.1) same;
          context = s.context;
          live = s.live;
          addressed = s.addressed;
          ready = s.ready;
          answers = s.answers;
        },
      )

  settle_lem :
      (w : Worker S) (ms : List Message)
      → IsServing q a handle w.node ms
      → settle a handle (some w) ≡ some (record w { monitor = monitor_trigger 0 0 w.monitor })
  unfolding settle settled
  settle_lem w ms s = ap (λ o. settled handle o w) s.live ∙ rw (s.addressed, ==_refl handle) refl

  -- After the call the handle is still that of the context.
  after_call :
      (m : Message) (ms : List Message) (w : Worker S) (result : Option (Bool × S × Node))
      (reserved : Bool) (state : S) (n : Node)
      → result ≡ some (reserved, state, n)
      → IsServing q a handle n ms
      → (after : Worker S) × (settle a handle (called m w result) ≡ some after)
        × (after.state ≡ state)
        × IsServing q a handle after.node ms
  unfolding called
  after_call m ms w result true state n e s =
      let w1 : Worker S = record w { state = state; node = n } in
      (
        record w1 { monitor = monitor_trigger 0 0 w.monitor },
        ap (λ o. settle a handle (called m w o)) e ∙ settle_lem w1 ms s,
        refl,
        s,
      )
  after_call m ms w result false state n e s =
      let w1 : Worker S = record w {
        state = state;
        node = n;
        events = w.events ++ delete m.data_ptr;
      } in
      (
        record w1 { monitor = monitor_trigger 0 0 w.monitor },
        ap (λ o. settle a handle (called m w o)) e ∙ settle_lem w1 ms s,
        refl,
        s,
      )

  -- The node that the callback gets.
  counted-IsServing :
      (n : Node) (ms : List Message) (s : IsServing q a handle n ms)
      → IsServing q a handle
          (put a (record s.context { message_count = inc s.context.message_count }) n)
          ms
  counted-IsServing n ms s = record {
    ring = s.ring;
    at = s.at;
    valid = s.valid;
    holds = s.holds;
    context = record s.context { message_count = inc s.context.message_count };
    live = updated n.ctx a (record s.context { message_count = inc s.context.message_count });
    addressed = s.addressed;
    ready = s.ready;
    answers = s.answers;
  }

  abbrev counted_node : Context → Node → Node
  counted_node c n = put a (record c { message_count = inc c.message_count }) n

  handle_ready :
      (c : Context) (m : Message) (w : Worker S)
      → c.cb ≡ true
      → c.init ≡ true
      → handle_message cbs a (some c) m w
        ≡ called m
            (record w { node = counted_node c w.node })
            (cbs a (call_of m) w.state (counted_node c w.node))
  unfolding handle_message dispatch_message
  handle_ready c m w answers ready =
      let result : Option (Worker S) =
        called m (record w { node = counted_node c w.node })
          (cbs a (call_of m) w.state (counted_node c w.node)) in
      ap
        (λ b.
          if b
          then dispatch_message cbs a c m w
          else some (record w { events = w.events ++ delete m.data_ptr }))
        answers
      ∙ ap (λ b. if b then result else none) ready

  handle_lem :
      (m : Message) (ms : List Message) (w : Worker S)
      → IsServing q a handle w.node ms
      → (after : Worker S) × (settle a handle (handle_message cbs a (w.node.ctx a) m w)
          ≡ some after)
        × (log after.state ≡ log w.state ++ (handed m ∷ []))
        × (more : List Message) × IsServing q a handle after.node (ms ++ more)
  handle_lem m ms w s =
      let counted : Node =
        put a (record s.context { message_count = inc s.context.message_count }) w.node in
      let k : Answers log cbs q a handle w.state counted ms (call_of m) =
        answer w.state counted ms (call_of m) (counted-IsServing w.node ms s) in
      let (after, run, noted, s') =
        after_call m (ms ++ k.more) (record w { node = counted }) _ k.reserved k.after k.node k.ends
          k.serving in
      (
        after,
        ap (λ o. settle a handle (handle_message cbs a o m w)) s.live
            ∙ ap (settle a handle) (handle_ready s.context m w s.answers s.ready)
            ∙ run,
        ap log noted ∙ k.noted ∙ ap (λ c. log w.state ++ (c ∷ [])) (call_of-handed m),
        k.more,
        s',
      )

  cleared-IsServing :
      (n : Node) (ms : List Message)
      → IsServing q a handle n ms
      → (n' : Node) × (clear_overload q (n.mq.mem q) n ≡ some n') × IsServing q a handle n' ms
  unfolding clear_overload
  cleared-IsServing n ms s =
      let (v, same) = overload_lem s.ring s.valid in
      (
        record n { mq = write q (mq_overload s.ring).1 n.mq },
        ap (λ o. clear_overload q o n) s.at,
        record {
          ring = (mq_overload s.ring).1;
          at = written n.mq q (mq_overload s.ring).1;
          valid = v;
          holds = same ∙ s.holds;
          context = s.context;
          live = s.live;
          addressed = s.addressed;
          ready = s.ready;
          answers = s.answers;
        },
      )

  pub serve_lem :
      (m : Message) (ms : List Message) (w : Worker S) (n : Node)
      → IsServing q a handle n ms
      → IsServed log q a handle m ms w (serve cbs q a handle m w n)
  unfolding serve_at
  serve_lem m ms w n s =
      let (n', cleared, s') = cleared-IsServing n ms s in
      let w1 : Worker S = record w {
        monitor = monitor_trigger m.source handle w.monitor;
        node = n';
      } in
      let (after, run, noted, more, s'') = handle_lem m ms w1 s' in
      record {
        after = after;
        ends = ap (serve_at cbs a handle m w) cleared ∙ run;
        noted = noted;
        more = more;
        serving = s'';
      }
