-- ===== src/Gate/Sockets/Life.antt =====
-- The life of a gate of service_gate.cpp: what `gate_init` allocates, and all that the messages of the
-- socket thread and `_forward_agent` make of it.
use fengnet.Base.{
  ◌-◌, ◌*◌, ◌/◌, ◌%◌, bit_or, or_fields, lt→leb, length-append, ◌++◌, drop-length, take-length, ℕ,
  ◌^◌, ◌≤◌, ◌<◌, ◌≡◌, refl, sym, ap, ◌∙◌, subst, false, Option, none, some, List, [], ◌∷◌, length,
  arith, ◌⊎◌, inl, inr, take, drop, leb, length-replicate, get_or-replicate, some-injective,
}
use fengnet.Databuffer.{int32, pos, ℤ}
use fengnet.Databuffer.Read.{IsBuffer}
use fengnet.Gate.{Effect, socket_send, Connection, Gate}
use fengnet.Hashid.{HashidNode, hashid_init}
use fengnet.Hashid.Table.{Holds}
use fengnet.Hashid.Lookup.{Finds, hashid_lookup-Finds}
use fengnet.Hashid.Init.{hashid_init-IsFresh, all_free}
use fengnet.Databuffer.Codes.{int32-pos}
use fengnet.Gate.Sockets.{
  close_listening, GateTable, no_connection, conn_at, Texts, SocketMessage, dispatch_socket_message,
  client_id, on_client, client_message, set_agent, forward_agent, gate_tables,
}
use fengnet.Gate.Sockets.Table.{IsGateTable, put_connection, no_connection-IsBuffer}
use fengnet.Gate.Sockets.Accept.{IsDelivered, Handles, dispatch_socket_message-Handles}

pub gate_tables-IsGateTable :
    (gate : Gate) (listen_id : ℤ) (max : ℕ)
    → max ≤ 2 ^ 30
    → 2 ≤ gate.header_size
    → IsGateTable (gate_tables gate listen_id max)
unfolding gate_tables hashid_init
gate_tables-IsGateTable gate listen_id max small two = record {
  chains = λ b. [];
  well = (hashid_init-IsFresh max small).well;
  places = length-replicate max no_connection;
  header = two;
  matched = λ i lt.
      ap (λ (c : Connection). c.id) (get_or-replicate max i no_connection)
      ∙ sym (ap (λ (n : HashidNode). n.id) (all_free max small i));
  clean = λ i lt free. get_or-replicate max i no_connection;
  buffers = λ i lt.
      subst (λ (c : Connection). IsBuffer c.buffer) (sym (get_or-replicate max i no_connection))
        no_connection-IsBuffer;
}

-- The table has only other agents.
record IsForwarded (g : GateTable) (run : Option GateTable) : Type 0 where
  after : GateTable
  ends : run ≡ some after
  table : IsGateTable after

forward_agent-IsForwarded :
    (g : GateTable) (fd : ℤ) (agentaddr clientaddr : ℕ)
    → IsGateTable g
    → IsForwarded g (forward_agent g fd agentaddr clientaddr)
unfolding forward_agent set_agent
forward_agent-IsForwarded g fd agentaddr clientaddr t =
    let (r, run, found) = hashid_lookup-Finds g.hash t.chains fd t.well in
    subst (λ k. IsForwarded g (set_agent g agentaddr clientaddr k)) (sym run) (forwarded r found)
  where
    forwarded :
        (r : Option ℕ)
        → Finds g.hash fd r
        → IsForwarded g (set_agent g agentaddr clientaddr (some r))
    forwarded none all = record { after = g; ends = refl; table = t }
    forwarded (some i) h = record {
      after = _;
      ends = refl;
      table =
          put_connection g i fd g.gate
            (record (conn_at g.conn i) { agent = agentaddr; client = clientaddr }) t h refl
            (t.buffers i h.inside) t.header;
    }

-- The tables that a gate for at most `max` connections comes to, by messages of the socket thread, by
-- `_forward_agent` and by the command `close`.
pub data Reached (texts : Texts) (gate : Gate) (listen_id : ℤ) (max : ℕ) : GateTable → Type 0 where
  begun : Reached texts gate listen_id max (gate_tables gate listen_id max)
  delivered :
      (g g' : GateTable) (m : SocketMessage) (effects : List Effect)
      → Reached texts gate listen_id max g
      → IsDelivered g m
      → dispatch_socket_message texts g m ≡ some (effects, g')
      → Reached texts gate listen_id max g'
  forwarded_to :
      (g g' : GateTable) (fd : ℤ) (agentaddr clientaddr : ℕ)
      → Reached texts gate listen_id max g
      → forward_agent g fd agentaddr clientaddr ≡ some g'
      → Reached texts gate listen_id max g'
  stopped :
      (g : GateTable)
      → Reached texts gate listen_id max g
      → Reached texts gate listen_id max (close_listening g).1

stopped-IsGateTable : (g : GateTable) → IsGateTable g → IsGateTable (close_listening g).1
unfolding close_listening
stopped-IsGateTable g t = record {
  chains = t.chains;
  well = t.well;
  places = t.places;
  header = t.header;
  matched = t.matched;
  clean = t.clean;
  buffers = t.buffers;
}

well_after :
    (g g' : GateTable) (m : SocketMessage) (effects : List Effect)
    (run : Option (List Effect × GateTable))
    → run ≡ some (effects, g')
    → Handles g m run
    → IsGateTable g'
well_after g g' m effects run e (inl k) =
    subst IsGateTable (ap (λ p. p.1) (some-injective (sym k.ends ∙ e))) k.table
well_after g g' m effects run e (inr (stray, failed)) = cc (e, failed)

module _ (texts : Texts) (gate : Gate) (listen_id : ℤ) (max : ℕ) (small : max ≤ 2 ^ 30)
    (two : 2 ≤ gate.header_size) where
  pub Reached-IsGateTable : (g : GateTable) → Reached texts gate listen_id max g → IsGateTable g
  Reached-IsGateTable g begun = gate_tables-IsGateTable gate listen_id max small two
  Reached-IsGateTable _ (delivered g g' m effects r d e) =
      well_after g g' m effects (dispatch_socket_message texts g m) e
        (dispatch_socket_message-Handles texts g m (Reached-IsGateTable g r) d)
  Reached-IsGateTable _ (forwarded_to g g' fd agentaddr clientaddr r e) =
      let k : IsForwarded g (forward_agent g fd agentaddr clientaddr) =
        forward_agent-IsForwarded g fd agentaddr clientaddr (Reached-IsGateTable g r) in
      subst IsGateTable (some-injective (sym k.ends ∙ e)) k.table
  Reached-IsGateTable _ (stopped g r) = stopped-IsGateTable g (Reached-IsGateTable g r)

  -- In each table that a gate for at most 2^30 connections with a header of two bytes or more comes to, from
  -- the tables that `gate_init` allocates by messages of the socket thread, `_forward_agent` and the command
  -- `close` in any order, as long as each socket that is accepted has an id that no connection has and that
  -- stays an `int` when the capacity is added: the next message of the socket thread is handled to its end
  -- and leaves the table well formed, but for a socket accepted on another socket than the gate listens to
  -- then, which fails the `assert`.
  pub Reached-Handles :
      (g : GateTable) (m : SocketMessage)
      → Reached texts gate listen_id max g
      → IsDelivered g m
      → Handles g m (dispatch_socket_message texts g m)
  Reached-Handles g m r d = dispatch_socket_message-Handles texts g m (Reached-IsGateTable g r) d

-- The four bytes of an id below 2^32, low byte first.
abbrev pub id_bytes : ℕ → List ℕ
id_bytes n = n % 256 ∷ n / 256 % 256 ∷ n / 65536 % 256 ∷ n / 16777216 ∷ []

client_id-id_bytes : (n : ℕ) → n < 2 ^ 31 → client_id (id_bytes n) ≡ pos n
client_id-id_bytes n small =
    let low : bit_or (n % 256) (n / 256 % 256 * 2 ^ 8) ≡ n % 65536 =
      omega (arith, or_fields 8 (n / 256 % 256) (n % 256) (omega arith)) in
    let mid : bit_or (n % 65536) (n / 65536 % 256 * 2 ^ 16) ≡ n % 16777216 =
      omega (arith, or_fields 16 (n / 65536 % 256) (n % 65536) (omega arith)) in
    let whole : bit_or (n % 16777216) (n / 16777216 * 2 ^ 24) ≡ n =
      omega (arith, or_fields 24 (n / 16777216) (n % 16777216) (omega arith)) in
    ap (λ w. int32 (bit_or (bit_or w (n / 65536 % 256 * 2 ^ 16)) (n / 16777216 * 2 ^ 24))) low
    ∙ ap (λ w. int32 (bit_or w (n / 16777216 * 2 ^ 24))) mid
    ∙ ap int32 whole
    ∙ int32-pos n small

-- What comes of a client message whose last four bytes are an id: the bytes before go to the socket of
-- that id when a connection has it, and the return value is 1, else nothing is sent and it is 0.
abbrev pub Delivers : GateTable → ℤ → List ℕ → Option (ℕ × List Effect) → Type 0
Delivers g uid bytes run =
    (((i : ℕ) × Holds g.hash uid i × ((conn_at g.conn i).id ≡ uid))
      × (run ≡ some (1, socket_send uid bytes ∷ [])))
    ⊎ (((i : ℕ) → ¬ Holds g.hash uid i) × (run ≡ some (0, [])))

client_found :
    (g : GateTable) (uid : ℤ) (bytes : List ℕ) (r : Option ℕ)
    → IsGateTable g
    → Finds g.hash uid r
    → Delivers g uid bytes (on_client uid bytes (some r))
unfolding on_client
client_found g uid bytes none t all = inr (all, refl)
client_found g uid bytes (some i) t h = inl ((i, h, t.matched i h.inside ∙ h.its_id), refl)

-- A client message on a well-formed table, of some bytes and the four bytes of an id below 2^31, low byte
-- first: the bytes without the id go to the socket of the id when a connection has it, and else nowhere;
-- the search ends.
pub client_message-Delivers :
    (g : GateTable) (bytes : List ℕ) (n : ℕ)
    → IsGateTable g
    → 1 ≤ length bytes
    → n < 2 ^ 31
    → Delivers g (pos n) bytes (client_message g (bytes ++ id_bytes n))
unfolding client_message
client_message-Delivers g bytes n t some_bytes small =
    let msg : List ℕ = bytes ++ id_bytes n in
    let size : length msg - 4 ≡ length bytes = omega (arith, length-append bytes (id_bytes n)) in
    let more : leb (length msg) 4 ≡ false =
      lt→leb (length msg) 4 (omega (arith, length-append bytes (id_bytes n))) in
    let uid : client_id (drop (length msg - 4) msg) ≡ pos n =
      ap (λ k. client_id (drop k msg)) size
      ∙ ap client_id (drop-length bytes (id_bytes n))
      ∙ client_id-id_bytes n small in
    let front : take (length msg - 4) msg ≡ bytes =
      ap (λ k. take k msg) size ∙ take-length bytes (id_bytes n) in
    let (r, run, found) = hashid_lookup-Finds g.hash t.chains (pos n) t.well in
    rw (more, uid, front, run) (client_found g (pos n) bytes r t found)
