-- ===== src/Server.antt =====
-- The services of one node and the messages between them: fengnet-src/fengnet_server.cpp, with
-- `fengnet_send` of fengnet.cpp and fengnet_harbor.cpp. A context is its address; a 32-bit integer is
-- held by its bits, and counters go round. Log lines and the times of a profile are left out. `none` is
-- a failed `assert` or a use of a null or freed pointer.
pub mod Session
pub mod Harbor
pub mod Push
pub mod Send
pub mod Endless
pub mod Dispatch
mod Tests
use fengnet.Base.{
  ℕ, zero, suc, ◌+◌, ◌-◌, ◌*◌, ◌/◌, ◌%◌, ◌^◌, bit_and, bit_or, Bool, true, false, not, ◌&&◌, ◌||◌,
  Option, none, some, List, [], ◌∷◌, ◌++◌, leb, ltb, ◌==◌, if◌then◌else◌,
}
use fengnet.Databuffer.{ℤ, pos, negsuc, int32}
use fengnet.Mq.{Message}
use fengnet.Mq.Global.{World, update, mq_push, mq_mark_release}
use fengnet.Handle.Slots.{HandleStorage, handle_grab, handle_mask, handle_remote_shift}

-- `fengnet_context`, as far as the functions here read it; `cb` says whether there is a callback.
pub record Context : Type 0 where
  pub handle : ℕ
  pub queue : ℕ
  pub ref : ℕ
  pub session_id : ℕ
  pub message_count : ℕ
  pub init : Bool
  pub endless : Bool
  pub cb : Bool

-- A node: its live contexts, the slots, the message queues, `G_NODE.total`, `HARBOR` and `REMOTE`.
pub record Node : Type 0 where
  pub ctx : ℕ → Option Context
  pub storage : HandleStorage
  pub mq : World
  pub total : ℕ
  pub harbor : ℕ
  pub remote : Option ℕ

abbrev pub put : ℕ → Context → Node → Node
put a c n = record n { ctx = update n.ctx a (some c) }

-- `x++` and `x--` on 32 bits.
abbrev pub inc : ℕ → ℕ
inc x = (x + 1) % 2 ^ 32

abbrev pub dec : ℕ → ℕ
dec x = (x + (2 ^ 32 - 1)) % 2 ^ 32

-- `fengnet_context_handle` of an address, with 0 where no context lives.
unfoldable pub handle_of : Option Context → ℕ
handle_of none = 0
handle_of (some c) = c.handle

abbrev pub handles : Node → ℕ → ℕ
handles n a = handle_of (n.ctx a)

-- `fengnet_context_grab`.
unfoldable pub grab_live : ℕ → Option Context → Node → Option Node
grab_live a none n = none
grab_live a (some c) n = some (put a (record c { ref = inc c.ref }) n)

unfoldable pub context_grab : ℕ → Node → Option Node
context_grab a n = grab_live a (n.ctx a) n

-- The rest of `delete_context` after `fengnet_mq_mark_release`.
unfoldable pub deleted_context : ℕ → Node → Option World → Option Node
deleted_context a n none = none
deleted_context a n (some mq) =
    some (record n { ctx = update n.ctx a none; mq = mq; total = dec n.total })

-- `fengnet_context_release`: whether the context lives on.
unfoldable pub release_live : ℕ → Option Context → Node → Option Node
release_live a none n = none
release_live a (some c) n =
    if c.ref == 1
    then deleted_context a n (mq_mark_release c.queue n.mq)
    else some (put a (record c { ref = dec c.ref }) n)

unfoldable pub context_release : ℕ → Node → Option Node
context_release a n = release_live a (n.ctx a) n

-- `fengnet_context_reserve`, after its grab.
unfoldable pub reserved : Option Node → Option Node
reserved none = none
reserved (some n) = some (record n { total = dec n.total })

unfoldable pub context_reserve : ℕ → Node → Option Node
context_reserve a n = reserved (context_grab a n)

-- `fengnet_handle_grab`, with the reference that it takes.
unfoldable pub grabbed : ℕ → Option Node → Option (Option ℕ × Node)
grabbed a none = none
grabbed a (some n) = some (some a, n)

unfoldable pub grab_found : Option ℕ → Node → Option (Option ℕ × Node)
grab_found none n = some (none, n)
grab_found (some a) n = grabbed a (context_grab a n)

abbrev pub found : ℕ → Node → Option ℕ
found handle n = handle_grab (handles n) handle n.storage

-- `fengnet_mq_push` to the queue of a context.
unfoldable pub pushed : Node → Option World → Option Node
pushed n none = none
pushed n (some mq) = some (record n { mq = mq })

unfoldable pub push_live : Option Context → Message → Node → Option Node
push_live none m n = none
push_live (some c) m n = pushed n (mq_push c.queue m n.mq)

unfoldable pub release_after : ℕ → Option Node → Option Node
release_after a none = none
release_after a (some n) = context_release a n

unfoldable pub succeed : Option Node → Option (Bool × Node)
succeed none = none
succeed (some n) = some (true, n)

-- The rest of `fengnet_context_push` after `fengnet_handle_grab`: whether it returns 0.
unfoldable pub push_grabbed : Message → Option (Option ℕ × Node) → Option (Bool × Node)
push_grabbed m none = none
push_grabbed m (some (none, n)) = some (false, n)
push_grabbed m (some (some a, n)) = succeed (release_after a (push_live (n.ctx a) m n))

-- `fengnet_context_push`.
unfoldable pub context_push : ℕ → Message → Node → Option (Bool × Node)
context_push handle m n = push_grabbed m (grab_found (found handle n) n)

-- The body of `fengnet_context_endless` after `fengnet_handle_grab`.
unfoldable pub mark_endless : ℕ → Option Context → Node → Option Node
mark_endless a none n = none
mark_endless a (some c) n = context_release a (put a (record c { endless = true }) n)

unfoldable pub endless_grabbed : Option (Option ℕ × Node) → Option Node
endless_grabbed none = none
endless_grabbed (some (none, n)) = some n
endless_grabbed (some (some a, n)) = mark_endless a (n.ctx a) n

-- `fengnet_context_endless`.
unfoldable pub context_endless : ℕ → Node → Option Node
context_endless handle n = endless_grabbed (grab_found (found handle n) n)

-- `fengnet_context_newsession`; the `++` of an `int` goes round, as its test supposes.
unfoldable pub next_session : ℕ → ℕ
next_session session_id =
    let session = inc session_id in if session == 0 || leb (2 ^ 31) session then 1 else session

unfoldable pub session_live : ℕ → Option Context → Node → Option (ℕ × Node)
session_live a none n = none
session_live a (some c) n =
    let session = next_session c.session_id in
    some (session, put a (record c { session_id = session }) n)

abbrev pub context_newsession : ℕ → Node → Option (ℕ × Node)
context_newsession a n = session_live a (n.ctx a) n

abbrev pub message_type_mask : ℕ
message_type_mask = 2 ^ 56 - 1

abbrev pub message_type_shift : ℕ
message_type_shift = 56

-- `sz | (size_t)type << MESSAGE_TYPE_SHIFT`.
abbrev pub pack : ℕ → ℕ → ℕ
pack sz type = bit_or sz (type * 2 ^ message_type_shift % 2 ^ 64)

abbrev pub type_of : ℕ → ℕ
type_of sz = sz / 2 ^ message_type_shift

abbrev pub size_of : ℕ → ℕ
size_of sz = bit_and sz message_type_mask

-- `fengnet_context_send`.
abbrev pub context_send : ℕ → ℕ → ℕ → ℕ → ℕ → ℕ → Node → Option Node
context_send a msg sz source type session n =
    push_live (n.ctx a)
      (record { source = source; session = session; data_ptr = msg; sz = pack sz type }) n
