-- ===== src/Server/Tests.antt =====
-- The theorems about contexts and messages of fengnet_server.cpp and fengnet.cpp at concrete inputs.
use fengnet.Base.{
  ℕ, List, ◌++◌, zero, suc, ◌%◌, ◌^◌, ◌-◌, ◌/◌, ◌≡◌, ◌≤◌, ◌<◌, refl, sym, ap, subst, true, false,
  not, ◌&&◌, none, some, some-injective, [], ◌∷◌, append-nil, replicate, arith, Bool-cases, inl,
  inr, ◌==◌, if◌then◌else◌,
}
use fengnet.Databuffer.{pos}
use fengnet.Mq.{Message, MessageQueue, zero_message, mq_create, ring_length}
use fengnet.Mq.Ring.{IsValid, contents}
use fengnet.Mq.Global.Flag.{Scheduled}
use fengnet.Handle.{init_names}
use fengnet.Handle.Slots.{slot_at}
use fengnet.Monitor.{Monitor, monitor_new, monitor_trigger, checked, monitor_check}
use fengnet.Monitor.Suspect.{triggered, Watched, monitor_check-Watched}
use fengnet.Server.{Context, Node, pack, size_of, type_of, context_push}
use fengnet.Server.Session.{session_after, session_after_lem}
use fengnet.Server.Harbor.{message_isremote, harbor_init, message_isremote-init}
use fengnet.Server.Push.{IsNode, Pushes, context_push-Pushes}
use fengnet.Server.Send.{send}
use fengnet.Server.Send.Owner.{unpack-pack, Settled, send-Settled}
use fengnet.Server.Dispatch.{Call, Callbacks, Worker, dispatch_loop}
use fengnet.Server.Dispatch.Serve.{IsServing, Answering}
use fengnet.Server.Dispatch.Next.{drop_all}
use fengnet.Server.Dispatch.Dropped.{IsDropped, drop_all-IsDropped}
use fengnet.Server.Dispatch.Rounds.{IsRun, quota, dispatch_loop-IsRun}

-- The handle of index 1 in harbor 1.
abbrev handle : ℕ
handle = 0x1000001

abbrev message : ℕ → Message
message session = record { source = 2; session = session; data_ptr = 40; sz = 6 }

-- A queue with three messages.
abbrev ring : MessageQueue
ring = record (mq_create handle) {
  tail = 3;
  queue = message 5 ∷ message 6 ∷ message 7 ∷ replicate 61 zero_message;
}

ring-IsValid : IsValid ring
unfolding mq_create
ring-IsValid = record { head_in = omega arith; tail_in = omega arith; storage = refl }

ring_contents : contents ring ≡ message 5 ∷ message 6 ∷ message 7 ∷ []
unfolding mq_create ring_length
ring_contents = refl

abbrev context : Context
context = record {
  handle = handle;
  queue = 5;
  ref = 1;
  session_id = 0;
  message_count = 0;
  init = true;
  endless = false;
  cb = true;
}

-- One context, at address 7, with its queue at address 5.
abbrev node : Node
node = record {
  ctx = λ a. if a == 7 then some context else none;
  storage = record {
    harbor = 0x1000000;
    handle_index = 2;
    slot_size = 4;
    slot = none ∷ some 7 ∷ none ∷ none ∷ [];
    names = init_names;
  };
  mq = record {
    mem = λ a. if a == 5 then some ring else none;
    global = record { head = none; tail = none };
  };
  total = 1;
  harbor = 0x1000000;
  remote = none;
}

context_lem : (a : ℕ) (c : Context) → node.ctx a ≡ some c → context ≡ c
context_lem a c e = elim (Bool-cases (a == 7)) [
  | inl here ↦ some-injective (rw here at e)
  | inr other ↦ cc (rw other at e)
]

ring_lem : (a : ℕ) (q : MessageQueue) → node.mq.mem a ≡ some q → ring ≡ q
ring_lem a q e = elim (Bool-cases (a == 5)) [
  | inl here ↦ some-injective (rw here at e)
  | inr other ↦ cc (rw other at e)
]

node-Scheduled : Scheduled node.mq []
unfolding mq_create
node-Scheduled = record {
  global = record { linked = refl; at_tail = refl; distinct = tt };
  loose = λ b q e out. ap (λ (r : MessageQueue). r.next) (sym (ring_lem b q e));
  flagged = λ b q e i. ap (λ (r : MessageQueue). r.in_global) (sym (ring_lem b q e));
  rings = λ b q e. subst IsValid (ring_lem b q e) ring-IsValid;
}

slot_lem : (i a : ℕ) → slot_at node.storage.slot i ≡ some a → 7 ≡ a
slot_lem zero a e = cc
slot_lem (suc zero) a e = some-injective e
slot_lem (suc (suc zero)) a e = cc
slot_lem (suc (suc (suc zero))) a e = cc
slot_lem (suc (suc (suc (suc i)))) a e = cc

node-IsNode : IsNode node []
node-IsNode = record {
  scheduled = node-Scheduled;
  owned = λ a c e.
      subst (λ (k : Context). (q : MessageQueue) × (node.mq.mem k.queue ≡ some q))
        (context_lem a c e) (ring, refl);
  slotted = λ i a e.
      subst (λ b. (c : Context) × (node.ctx b ≡ some c) × (1 ≤ c.ref) × (c.ref < 2 ^ 32 - 1))
        (slot_lem i a e) (context, refl, omega arith, omega arith);
}

context_push-Pushes_example : Pushes node handle (message 9) (context_push handle (message 9) node)
context_push-Pushes_example = context_push-Pushes node [] handle (message 9) node-IsNode

near : message_isremote node.harbor handle ≡ some false
unfolding message_isremote
near = refl

send-Settled_example : Settled 90 2 handle 1 3 40 5 node (send 90 91 none 2 handle 1 3 40 5 node)
send-Settled_example =
    send-Settled 90 91 none 2 handle 1 3 40 5 node [] node-IsNode (omega arith) refl near

unpack-pack_example : (size_of (pack 300 7) ≡ 300) × (type_of (pack 300 7) ≡ 7)
unpack-pack_example = unpack-pack 300 7 (omega arith) (omega arith)

-- A service that notes its calls and leaves each message to be freed.
abbrev noting : Callbacks (List Call)
noting a c calls n = some (false, calls ++ (c ∷ []), n)

noting-Answering : Answering (λ calls. calls) noting 5 7 handle
noting-Answering calls n ms c s = record {
  reserved = false;
  after = calls ++ (c ∷ []);
  node = n;
  ends = refl;
  noted = refl;
  more = [];
  serving = subst (IsServing 5 7 handle n) (sym (append-nil ms)) s;
}

abbrev worker : Worker (List Call)
worker = record { monitor = monitor_new; state = []; node = node; events = [] }

worker-IsServing : IsServing 5 7 handle node (message 5 ∷ message 6 ∷ message 7 ∷ [])
worker-IsServing = record {
  ring = ring;
  at = refl;
  valid = ring-IsValid;
  holds = ring_contents;
  context = context;
  live = refl;
  addressed = refl;
  ready = refl;
  answers = refl;
}

-- With weight 0 two of three messages are handed over.
dispatch_loop-IsRun_example :
    IsRun
      (λ calls. calls)
      5
      7
      handle
      (quota (pos 0) 2)
      (message 5 ∷ message 6 ∷ message 7 ∷ [])
      worker
      (dispatch_loop (pos 0) noting 5 7 handle worker)
dispatch_loop-IsRun_example =
    dispatch_loop-IsRun (λ calls. calls) noting 5 7 handle noting-Answering (pos 0) (message 5)
      (message 6 ∷ message 7 ∷ []) worker worker-IsServing

-- Messages from the service that lives to one that has gone.
abbrev from_live : ℕ → Message
from_live data_ptr = record { source = handle; session = 0; data_ptr = data_ptr; sz = 6 }

drop_all-IsDropped_example :
    IsDropped
      (from_live 40 ∷ from_live 41 ∷ [])
      worker
      (drop_all (λ source. 91) 0x1000002 (from_live 40 ∷ from_live 41 ∷ []) worker)
drop_all-IsDropped_example =
    drop_all-IsDropped (λ source. 91) 0x1000002 (omega arith) (from_live 40 ∷ from_live 41 ∷ [])
      worker [] node-IsNode (near, (near, tt))

session_after_lem_example : session_after 5 ≡ suc (4 % (2 ^ 31 - 1))
session_after_lem_example = session_after_lem 4

message_isremote-init_example :
    message_isremote (harbor_init 2 node).harbor handle
    ≡ some (not (handle / 2 ^ 24 == 2) && not (handle / 2 ^ 24 == 0))
message_isremote-init_example = message_isremote-init 2 handle node (omega arith) (omega arith)

-- A worker at a message from 2 to the context, that two checks find there.
abbrev busy : Monitor
busy = checked (monitor_trigger 2 handle monitor_new)

monitor_check-Watched_example : Watched [] handle busy node (monitor_check (triggered [] busy) node)
monitor_check-Watched_example =
    monitor_check-Watched 2 handle [] monitor_new node [] node-IsNode (omega arith)
