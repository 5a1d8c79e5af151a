-- ===== src/Server/Send.antt =====
-- `fengnet_send` and `_filter_args` of fengnet-src/fengnet.cpp, over the operations of fengnet_server.cpp
-- and fengnet_harbor.cpp. What `new` gives, at the addresses `fresh` and `rmsg`, and what `delete` takes
-- is listed in order.
pub mod Owner
use fengnet.Base.{
  ℕ, ◌+◌, ◌-◌, ◌*◌, ◌^◌, bit_and, bit_or, Bool, true, false, not, ◌&&◌, Option, none, some, List,
  [], ◌∷◌, ◌++◌, ◌==◌, if◌then◌else◌,
}
use fengnet.Databuffer.{ℤ, pos, negsuc, int32}
use fengnet.Mq.{Message}
use fengnet.Server.{
  Context, Node, context_newsession, context_push, message_type_mask, pack, type_of, size_of,
}
use fengnet.Server.Harbor.{RemoteMessage, harbor_send, message_isremote}

abbrev pub ptype_tag_dontcopy : ℕ
ptype_tag_dontcopy = 0x10000

abbrev pub ptype_tag_allocsession : ℕ
ptype_tag_allocsession = 0x20000

abbrev pub has_tag : ℕ → ℕ → Bool
has_tag tag type = not (bit_and type tag == 0)

-- What happens to memory.
pub data Event : Type 0 where
  allocated : ℕ → Event
  deleted : ℕ → Event
  wrapped : ℕ → RemoteMessage → Event

-- The value returned, the node and what happened to memory; `none` is a crash.
pub record Sent : Type 0 where
  pub value : ℤ
  pub node : Node
  pub events : List Event

-- `delete data`.
abbrev pub delete : ℕ → List Event
delete data_ptr = if data_ptr == 0 then [] else deleted data_ptr ∷ []

-- `if (allocsession)` of `_filter_args`.
unfoldable pub alloc_session : Bool → Option ℕ → ℕ → Node → Option (ℕ × Node)
alloc_session false context session n = some (session, n)
alloc_session true none session n = none
alloc_session true (some a) session n = if session == 0 then context_newsession a n else none

-- `if (needcopy && *data)` of `_filter_args`: the data to send, and the allocation.
unfoldable pub copy_data : Bool → ℕ → ℕ → ℕ × List Event
copy_data needcopy fresh data_ptr =
    if needcopy && not (data_ptr == 0) then (fresh, allocated fresh ∷ []) else (data_ptr, [])

-- `if (source == 0) source = context->handle;`
unfoldable pub source_of : ℕ → Option Context → Option ℕ
source_of source context =
    if source == 0 then elim context [ none ↦ none | some c ↦ some c.handle ] else some source

abbrev pub context_at : Option ℕ → Node → Option Context
context_at none n = none
context_at (some a) n = n.ctx a

-- The end of `fengnet_send` for another node: `harbor_send` of a new `remote_message`.
unfoldable pub sent_remote : ℕ → List Event → ℕ → RemoteMessage → Option Node → Option Sent
sent_remote session events at rmsg none = none
sent_remote session events at rmsg (some n) =
    some (record { value = int32 session; node = n; events = events ++ (wrapped at rmsg ∷ []) })

-- The end of `fengnet_send` for this node, after `fengnet_context_push`.
unfoldable pub sent_local : ℕ → List Event → ℕ → Option (Bool × Node) → Option Sent
sent_local session events data_ptr none = none
sent_local session events data_ptr (some (true, n)) =
    some (record { value = int32 session; node = n; events = events })
sent_local session events data_ptr (some (false, n)) =
    some (record { value = negsuc 0; node = n; events = events ++ delete data_ptr })

-- The rest of `fengnet_send` from the test of `fengnet_harbor_message_isremote` on.
unfoldable pub route : ℕ → ℕ → ℕ → ℕ → ℕ → ℕ → List Event → Node → Option Bool → Option Sent
route rmsg source destination session data_ptr sz events n none = none
route rmsg source destination session data_ptr sz events n (some true) =
    let m : RemoteMessage = record {
      handle = destination;
      message = data_ptr;
      sz = size_of sz;
      type = type_of sz;
    } in
    sent_remote session events rmsg m (harbor_send rmsg m source session n)
route rmsg source destination session data_ptr sz events n (some false) =
    let m : Message = record { source = source; session = session; data_ptr = data_ptr; sz = sz } in
    sent_local session events data_ptr (context_push destination m n)

-- The rest of `fengnet_send` with the source known.
unfoldable pub send_from : ℕ → ℕ → ℕ → ℕ → ℕ → List Event → Node → Option ℕ → Option Sent
send_from rmsg destination session data_ptr sz events n none = none
send_from rmsg destination session data_ptr sz events n (some source) =
    let nowhere : Sent =
      if data_ptr == 0
      then record { value = int32 session; node = n; events = events }
      else record { value = negsuc 0; node = n; events = events ++ delete data_ptr } in
    let routed =
      route rmsg source destination session data_ptr sz events n
        (message_isremote n.harbor destination) in
    if destination == 0 then some nowhere else routed

-- The rest of `fengnet_send` after the session of `_filter_args`.
unfoldable pub send_session : ℕ → ℕ → Option ℕ → ℕ → ℕ → ℕ → ℕ → ℕ → Option (ℕ × Node) → Option Sent
send_session fresh rmsg context source destination type data_ptr sz none = none
send_session fresh rmsg context source destination type data_ptr sz (some (session, n)) =
    let (held, events) = copy_data (not (has_tag ptype_tag_dontcopy type)) fresh data_ptr in
    send_from rmsg destination session held (pack sz (bit_and type 0xff)) events n
      (source_of source (context_at context n))

-- `fengnet_send`.
unfoldable pub send : ℕ → ℕ → Option ℕ → ℕ → ℕ → ℕ → ℕ → ℕ → ℕ → Node → Option Sent
send fresh rmsg context source destination type session data_ptr sz n =
    let filtered =
      send_session fresh rmsg context source destination type data_ptr sz
        (alloc_session (has_tag ptype_tag_allocsession type) context session n) in
    if bit_and sz message_type_mask == sz
    then filtered
    else some (record {
      value = negsuc 1;
      node = n;
      events = if has_tag ptype_tag_dontcopy type then delete data_ptr else [];
    })
