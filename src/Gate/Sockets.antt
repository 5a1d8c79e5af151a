-- ===== src/Gate/Sockets.antt =====
-- service-src/service_gate.cpp: the table of connections, and what the gate does with the messages of
-- the socket thread and of clients. `none` is a failed `assert`, an index out of bounds or a loop out of
-- fuel. The texts of `_report` are parameters; log lines and `free` are left out.
pub mod Table
pub mod Accept
pub mod Life
mod Tests
use fengnet.Base.{
  ℕ, zero, suc, ◌+◌, ◌-◌, ◌*◌, ◌^◌, bit_or, Bool, true, false, Option, none, some, List, [], ◌∷◌,
  ◌++◌, leb, ltb, ◌==◌, if◌then◌else◌, get_or, set, take, drop, length, replicate,
}
use fengnet.Databuffer.{ℤ, pos, negsuc, int32, databuffer_clear}
use fengnet.Gate.{
  Effect, send, close, socket_send, Connection, Gate, Dispatched, done, crash, no_fuel, ptype_text,
  dispatch_message,
}
use fengnet.Hashid.{
  Hashid, eq_int, hashid_init, hashid_lookup, hashid_insert, hashid_remove, hashid_full,
}

-- `gate`, with its table of connections.
pub record GateTable : Type 0 where
  pub gate : Gate
  pub listen_id : ℤ
  pub hash : Hashid
  pub conn : List Connection

-- A connection that is not in use.
abbrev pub no_connection : Connection
no_connection = record {
  id = negsuc 0;
  agent = 0;
  client = 0;
  buffer = record { header = pos 0; offset = 0; size = 0; messages = [] };
}

abbrev pub conn_at : List Connection → ℕ → Connection
conn_at conn i = get_or conn i no_connection

-- A `fengnet_socket_message` by its type, with the fields that the gate reads: `id`, `ud`, `buffer` and
-- the bytes behind the message.
pub data SocketMessage : Type 0 where
  socket_data : ℤ → List ℕ → ℕ → SocketMessage
  socket_connect : ℤ → SocketMessage
  socket_close : ℤ → SocketMessage
  socket_error : ℤ → SocketMessage
  socket_accept : ℤ → ℤ → List ℕ → SocketMessage
  socket_warning : ℤ → ℤ → SocketMessage

abbrev pub Handled : Type 0
Handled = Option (List Effect × GateTable)

-- `_report`.
unfoldable pub report : GateTable → List ℕ → List Effect
report g line =
    if g.gate.watchdog == 0 then [] else send 0 g.gate.watchdog ptype_text (pos 0) line ∷ []

-- The table after a `dispatch_message` for connection `i`.
unfoldable pub dispatched : GateTable → ℕ → Dispatched → Handled
dispatched g i (done effects gate c) =
    some (effects, record g { gate = gate; conn = set g.conn i c })
dispatched g i crash = none
dispatched g i no_fuel = none

-- The case FENGNET_SOCKET_TYPE_DATA after its lookup.
unfoldable pub on_data : (ℤ → List ℕ) → GateTable → ℤ → List ℕ → ℕ → Option (Option ℕ) → Handled
on_data text g id buffer ud none = none
on_data text g id buffer ud (some none) = some (close id ∷ [], g)
on_data text g id buffer ud (some (some i)) =
    dispatched g i (dispatch_message text id g.gate (conn_at g.conn i) buffer ud)

-- The case FENGNET_SOCKET_TYPE_CONNECT after its lookup.
unfoldable pub on_connect : GateTable → ℤ → Option (Option ℕ) → Handled
on_connect g id none = none
on_connect g id (some none) = some (close id ∷ [], g)
on_connect g id (some (some i)) = some ([], g)

-- The cases FENGNET_SOCKET_TYPE_CLOSE and FENGNET_SOCKET_TYPE_ERROR after `hashid_remove`.
unfoldable pub on_close : List ℕ → GateTable → Option (Option ℕ × Hashid) → Handled
on_close line g none = none
on_close line g (some (none, hash)) = some ([], record g { hash = hash })
on_close line g (some (some i, hash)) =
    let (db, mp) = databuffer_clear (conn_at g.conn i).buffer g.gate.mp in
    some (
      report g line,
      record g { hash = hash; gate = record g.gate { mp = mp }; conn = set g.conn i no_connection },
    )

-- The case FENGNET_SOCKET_TYPE_ACCEPT after `hashid_insert`.
unfoldable pub on_insert : List ℕ → GateTable → ℤ → Option (ℕ × Hashid) → Handled
on_insert line g ud none = none
on_insert line g ud (some (i, hash)) = some (
  report g line,
  record g { hash = hash; conn = set g.conn i (record (conn_at g.conn i) { id = ud }) },
)

-- `hashid_insert` of an `int`: for a negative one its search leaves the array.
unfoldable pub insert_int : Hashid → ℤ → Option (ℕ × Hashid)
insert_int hash (pos n) = hashid_insert hash n
insert_int hash (negsuc n) = none

-- The texts of `_report` on a close and on an open, and `snprintf(tmp, 32, "%d data ", id)`.
pub record Texts : Type 0 where
  pub data_text : ℤ → List ℕ
  pub close_text : ℤ → List ℕ
  pub open_text : ℤ → List ℕ → List ℕ

-- `remote_name`: at most 31 of the bytes behind the message.
abbrev pub remote_name : List ℕ → List ℕ
remote_name name = take (if leb 32 (length name) then 31 else length name) name

-- `dispatch_socket_message`.
unfoldable pub dispatch_socket_message : Texts → GateTable → SocketMessage → Handled
dispatch_socket_message t g (socket_data id buffer ud) =
    on_data t.data_text g id buffer ud (hashid_lookup g.hash id)
dispatch_socket_message t g (socket_connect id) =
    if eq_int id g.listen_id then some ([], g) else on_connect g id (hashid_lookup g.hash id)
dispatch_socket_message t g (socket_close id) =
    on_close (t.close_text id) g (hashid_remove g.hash id)
dispatch_socket_message t g (socket_error id) =
    on_close (t.close_text id) g (hashid_remove g.hash id)
dispatch_socket_message t g (socket_accept id ud name) =
    if eq_int g.listen_id id
    then (if hashid_full g.hash
        then some (close ud ∷ [], g)
        else on_insert (t.open_text ud (remote_name name)) g ud (insert_int g.hash ud))
    else none
dispatch_socket_message t g (socket_warning id ud) = some ([], g)

-- The id in the last four bytes of a client message, as an `int`.
abbrev pub client_id : List ℕ → ℤ
client_id idbuf =
    let byte : ℕ → ℕ = λ i. get_or idbuf i 0 in
    int32 (bit_or (bit_or (bit_or (byte 0) (byte 1 * 2 ^ 8)) (byte 2 * 2 ^ 16)) (byte 3 * 2 ^ 24))

-- The case PTYPE_CLIENT of `_cb` after its lookup: the return value and the effects.
unfoldable pub on_client : ℤ → List ℕ → Option (Option ℕ) → Option (ℕ × List Effect)
on_client uid bytes none = none
on_client uid bytes (some none) = some (0, [])
on_client uid bytes (some (some i)) = some (1, socket_send uid bytes ∷ [])

-- The case PTYPE_CLIENT of `_cb`.
unfoldable pub client_message : GateTable → List ℕ → Option (ℕ × List Effect)
client_message g msg =
    let sz = length msg in
    if leb sz 4
    then some (0, [])
    else let uid = client_id (drop (sz - 4) msg) in
      on_client uid (take (sz - 4) msg) (hashid_lookup g.hash uid)

-- `_forward_agent` after its lookup.
unfoldable pub set_agent : GateTable → ℕ → ℕ → Option (Option ℕ) → Option GateTable
set_agent g agentaddr clientaddr none = none
set_agent g agentaddr clientaddr (some none) = some g
set_agent g agentaddr clientaddr (some (some i)) = some (record g {
  conn = set g.conn i (record (conn_at g.conn i) { agent = agentaddr; client = clientaddr });
})

-- `_forward_agent`.
unfoldable pub forward_agent : GateTable → ℤ → ℕ → ℕ → Option GateTable
forward_agent g fd agentaddr clientaddr = set_agent g agentaddr clientaddr (hashid_lookup g.hash fd)

-- `if (id >= 0) fengnet_socket_close(ctx, id)`.
unfoldable pub close_open : ℤ → List Effect
close_open (pos n) = close (pos n) ∷ []
close_open (negsuc n) = []

-- The command `close` of `_ctrl`.
unfoldable pub close_listening : GateTable → List Effect × GateTable
close_listening g = (
  close_open g.listen_id,
  record g { listen_id = elim g.listen_id [ pos n ↦ negsuc 0 | negsuc n ↦ negsuc n ] },
)

-- The loop of `gate_release`.
unfoldable pub close_all : List Connection → List Effect
close_all [] = []
close_all (c ∷ conn) = close_open c.id ++ close_all conn

-- `gate_release`, as far as sockets go.
unfoldable pub gate_release : GateTable → List Effect
gate_release g = close_all g.conn ++ close_open g.listen_id

-- The tables that `gate_init` allocates.
unfoldable pub gate_tables : Gate → ℤ → ℕ → GateTable
gate_tables gate listen_id max = record {
  gate = gate;
  listen_id = listen_id;
  hash = hashid_init max;
  conn = replicate max no_connection;
}
