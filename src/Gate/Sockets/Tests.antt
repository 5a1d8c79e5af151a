-- ===== src/Gate/Sockets/Tests.antt =====
-- The theorems about the connections of service_gate.cpp at concrete inputs.
use fengnet.Base.{ℕ, ◌+◌, ◌≡◌, refl, ◌≤◌, ◌^◌, none, some, List, [], ◌∷◌, ◌++◌, arith}
use fengnet.Databuffer.{pos}
use fengnet.Gate.{Gate, send}
use fengnet.Hashid.{
  no_node, eq_int, bucket, hashid_init, hash_capacity, find_free, link_next, insert_node,
  insert_found, hashid_insert, hashid_full,
}
use fengnet.Hashid.Table.{Holds}
use fengnet.Hashid.Init.{hashid_init-IsFresh}
use fengnet.Gate.Sockets.{
  GateTable, no_connection, SocketMessage, socket_data, socket_accept, Texts, gate_tables, report,
  on_insert, insert_int, dispatch_socket_message, client_message,
}
use fengnet.Gate.Sockets.Table.{IsGateTable}
use fengnet.Gate.Sockets.Accept.{IsDelivered, Handles, Accepted, socket_accept-Accepted}
use fengnet.Gate.Sockets.Life.{
  Reached, begun, delivered, gate_tables-IsGateTable, Reached-IsGateTable, Reached-Handles,
  id_bytes, Delivers, client_message-Delivers,
}

abbrev texts : Texts
texts = record { data_text = λ id. []; close_text = λ id. []; open_text = λ id name. name }

abbrev gate : Gate
gate = record {
  watchdog = 8;
  broker = 0;
  client_tag = 3;
  header_size = 2;
  mp = record { freelist = 0; pool = 0 };
}

-- A gate for two connections that listens to socket 9.
abbrev table : GateTable
table = gate_tables gate (pos 9) 2

table-IsGateTable : IsGateTable table
table-IsGateTable = gate_tables-IsGateTable gate (pos 9) 2 (omega arith) (omega arith)

no_holder : (i : ℕ) → ¬ Holds table.hash (pos 21) i
unfolding gate_tables
no_holder = (hashid_init-IsFresh 2 (omega arith)).empty (pos 21)

small : 21 + table.hash.cap ≤ 2 ^ 31
unfolding gate_tables hashid_init
small = omega arith

socket_accept-Accepted_example :
    Accepted texts table 21 []
      (dispatch_socket_message texts table (socket_accept table.listen_id (pos 21) []))
socket_accept-Accepted_example =
    socket_accept-Accepted texts table 21 [] table-IsGateTable small no_holder

abbrev accept : SocketMessage
accept = socket_accept table.listen_id (pos 21) []

accept-IsDelivered : IsDelivered table accept
accept-IsDelivered = (21, refl, small, no_holder)

-- The table after the accept.
abbrev accepted : GateTable
accepted = record table {
  hash = record {
    hashmod = 15;
    cap = 2;
    count = 1;
    id = no_node ∷ record { id = pos 21; next = none } ∷ [];
    hash =
        none
        ∷ none
        ∷ none
        ∷ none
        ∷ none
        ∷ some 1
        ∷ none
        ∷ none
        ∷ none
        ∷ none
        ∷ none
        ∷ none
        ∷ none
        ∷ none
        ∷ none
        ∷ none
        ∷ [];
  };
  conn = no_connection ∷ record no_connection { id = pos 21 } ∷ [];
}

accept_run :
    dispatch_socket_message texts table accept ≡ some (send 0 8 0 (pos 0) [] ∷ [], accepted)
unfolding dispatch_socket_message gate_tables on_insert insert_int report hashid_full eq_int
    hashid_insert hashid_init hash_capacity find_free insert_found insert_node link_next bucket
accept_run = refl

accepted-Reached : Reached texts gate (pos 9) 2 accepted
accepted-Reached = delivered table accepted accept _ begun accept-IsDelivered accept_run

abbrev data_bytes : List ℕ
data_bytes = 0 ∷ 1 ∷ 7 ∷ []

Reached-Handles_example :
    Handles accepted
      (socket_data (pos 21) data_bytes 3)
      (dispatch_socket_message texts accepted (socket_data (pos 21) data_bytes 3))
Reached-Handles_example =
    Reached-Handles texts gate (pos 9) 2 (omega arith) (omega arith) accepted
      (socket_data (pos 21) data_bytes 3) accepted-Reached refl

accepted-IsGateTable : IsGateTable accepted
accepted-IsGateTable =
    Reached-IsGateTable texts gate (pos 9) 2 (omega arith) (omega arith) accepted accepted-Reached

abbrev client_bytes : List ℕ
client_bytes = 7 ∷ 8 ∷ []

client_message-Delivers_example :
    Delivers accepted (pos 21) client_bytes (client_message accepted (client_bytes ++ id_bytes 21))
client_message-Delivers_example =
    client_message-Delivers accepted client_bytes 21 accepted-IsGateTable (omega arith)
      (omega arith)
