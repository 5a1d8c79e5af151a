-- ===== src/Gate/Sockets/Table.antt =====
-- The table of connections of service_gate.cpp: each message of the socket thread keeps it well formed.
use fengnet.Base.{
  ℕ, ◌≤◌, ◌<◌, ◌≡◌, ◌≢◌, refl, sym, ap, ◌∙◌, subst, Option, none, some, List, [], ◌∷◌, set, length,
  arith, Bool-cases, inl, inr, length-set, get_or-set_self, get_or-set_ne, ◌==◌, ==_iff, ==_false,
}
use fengnet.Databuffer.{ℤ, databuffer_clear}
use fengnet.Databuffer.Read.{IsBuffer, Sized, Starts, bytes}
use fengnet.Gate.{Effect, close, Connection, Gate, dispatch_message}
use fengnet.Gate.Dispatch.{with_pool, with_buffer}
use fengnet.Gate.Always.{Ends, dispatch_message-Ends}
use fengnet.Hashid.{Hashid, node_at}
use fengnet.Hashid.Table.{IsHashid, Holds, free_id}
use fengnet.Hashid.Lookup.{Finds}
use fengnet.Hashid.Cleared.{IsRemoved}
use fengnet.Hashid.Remove.{RemoveResult}
use fengnet.Gate.Sockets.{
  GateTable, no_connection, conn_at, Handled, report, dispatched, on_data, on_connect, on_close,
}

-- A table in which each place of `conn` stands for the id of its node, and the free ones are clean.
pub record IsGateTable (g : GateTable) : Type 0 where
  pub chains : ℕ → List ℕ
  pub well : IsHashid g.hash chains
  pub places : length g.conn ≡ g.hash.cap
  pub header : 2 ≤ g.gate.header_size
  pub matched : (i : ℕ) → i < g.hash.cap → (conn_at g.conn i).id ≡ (node_at g.hash.id i).id
  pub clean :
      (i : ℕ)
      → i < g.hash.cap
      → (node_at g.hash.id i).id ≡ free_id
      → conn_at g.conn i ≡ no_connection
  pub buffers : (i : ℕ) → i < g.hash.cap → IsBuffer (conn_at g.conn i).buffer

-- The handler has ended, in a well-formed table of the same capacity that listens to the same socket.
pub record IsHandled (g : GateTable) (run : Handled) : Type 0 where
  pub effects : List Effect
  pub after : GateTable
  pub ends : run ≡ some (effects, after)
  pub table : IsGateTable after
  pub same_cap : after.hash.cap ≡ g.hash.cap
  pub same_listen : after.listen_id ≡ g.listen_id

pub unchanged :
    (g : GateTable) (effects : List Effect) → IsGateTable g → IsHandled g (some (effects, g))
unchanged g effects t = record {
  effects = effects;
  after = g;
  ends = refl;
  table = t;
  same_cap = refl;
  same_listen = refl;
}

pub no_connection-IsBuffer : IsBuffer no_connection.buffer
unfolding Sized Starts bytes
no_connection-IsBuffer = record { sized = tt; starts = refl; counted = refl }

-- A node in use is held by its id.
pub holds_own :
    (hash : Hashid) (i : ℕ)
    → i < hash.cap
    → (node_at hash.id i).id ≢ free_id
    → Holds hash (node_at hash.id i).id i
holds_own hash i lt busy = record { inside = lt; its_id = refl; in_use = busy }

-- What holds of the connection put at one place, and of the others, holds of all.
pub at_set :
    (conn : List Connection) (i j : ℕ) (c : Connection) (P : Connection → Type 0)
    → i < length conn
    → (j ≡ i → P c)
    → (j ≢ i → P (conn_at conn j))
    → P (conn_at (set conn i c) j)
at_set conn i j c P lt here other = elim (Bool-cases (j == i)) [
  | inl e ↦
      let ei : j ≡ i = (==_iff j i).0 e in
      subst P (sym (ap (conn_at (set conn i c)) ei ∙ get_or-set_self conn i c no_connection lt))
        (here ei)
  | inr e ↦
      let ne : j ≢ i = ==_false j i e in
      subst P (sym (get_or-set_ne conn i j c no_connection (λ k. ne (sym k)))) (other ne)
]

-- The connection at one place replaced, with the id kept and a well-formed buffer.
pub put_connection :
    (g : GateTable) (i : ℕ) (id : ℤ) (gate : Gate) (c : Connection)
    → IsGateTable g
    → Holds g.hash id i
    → c.id ≡ (conn_at g.conn i).id
    → IsBuffer c.buffer
    → 2 ≤ gate.header_size
    → IsGateTable (record g { gate = gate; conn = set g.conn i c })
put_connection g i id gate c t h same v two = record {
  chains = t.chains;
  well = t.well;
  places = length-set g.conn i c ∙ t.places;
  header = two;
  matched = λ j lt.
      at_set g.conn i j c (λ k. k.id ≡ (node_at g.hash.id j).id) (omega (arith, h.inside, t.places))
        (λ e. same ∙ ap (λ n. (conn_at g.conn n).id) (sym e) ∙ t.matched j lt)
        (λ ne. t.matched j lt);
  clean = λ j lt free.
      at_set g.conn i j c (λ k. k ≡ no_connection) (omega (arith, h.inside, t.places))
        (λ e. absurd (h.in_use (sym h.its_id ∙ ap (λ n. (node_at g.hash.id n).id) (sym e) ∙ free)))
        (λ ne. t.clean j lt free);
  buffers = λ j lt.
      at_set g.conn i j c (λ k. IsBuffer k.buffer) (omega (arith, h.inside, t.places)) (λ e. v)
        (λ ne. t.buffers j lt);
}

module _ (g : GateTable) (t : IsGateTable g) where
  -- A message with data: whatever the bytes are.
  pub on_data-IsHandled :
      (text : ℤ → List ℕ) (id : ℤ) (buffer : List ℕ) (r : Option ℕ)
      → Finds g.hash id r
      → IsHandled g (on_data text g id buffer (length buffer) (some r))
  unfolding on_data dispatched
  on_data-IsHandled text id buffer none all = unchanged g (close id ∷ []) t
  on_data-IsHandled text id buffer (some i) h =
      let c : Connection = conn_at g.conn i in
      let k : Ends g.gate c (dispatch_message text id g.gate c buffer (length buffer)) =
        dispatch_message-Ends text id g.gate c buffer t.header (t.buffers i h.inside) in
      record {
        effects = k.effects;
        after = record g { gate = with_pool g.gate k.mp; conn = set g.conn i (with_buffer c k.db) };
        ends = ap (dispatched g i) k.ends;
        table =
            put_connection g i id (with_pool g.gate k.mp) (with_buffer c k.db) t h refl k.buffer
              t.header;
        same_cap = refl;
        same_listen = refl;
      }

  pub on_connect-IsHandled : (id : ℤ) (r : Option ℕ) → IsHandled g (on_connect g id (some r))
  unfolding on_connect
  on_connect-IsHandled id none = unchanged g (close id ∷ []) t
  on_connect-IsHandled id (some i) = unchanged g [] t

  closed :
      (line : List ℕ) (id : ℤ) (d : ℕ) (hash : Hashid)
      → Holds g.hash id d
      → IsRemoved g.hash id d hash
      → IsHandled g (on_close line g (some (some d, hash)))
  unfolding on_close databuffer_clear
  closed line id d hash h k =
      let inside : d < length g.conn = omega (arith, h.inside, t.places) in
      record {
        effects = report g line;
        after = record g {
          hash = hash;
          gate = record g.gate { mp = (databuffer_clear (conn_at g.conn d).buffer g.gate.mp).1 };
          conn = set g.conn d no_connection;
        };
        ends = refl;
        table = record {
          chains = k.chains;
          well = k.well;
          places = length-set g.conn d no_connection ∙ t.places ∙ sym k.same_cap;
          header = t.header;
          matched = λ j lt.
              at_set g.conn d j no_connection (λ c. c.id ≡ (node_at hash.id j).id) inside
                (λ e. sym (ap (λ n. (node_at hash.id n).id) e ∙ k.freed))
                (λ ne. t.matched j (omega (arith, k.same_cap)) ∙ sym (k.others j ne));
          clean = λ j lt free.
              at_set g.conn d j no_connection (λ c. c ≡ no_connection) inside (λ e. refl)
                (λ ne. t.clean j (omega (arith, k.same_cap)) (sym (k.others j ne) ∙ free));
          buffers = λ j lt.
              at_set g.conn d j no_connection (λ c. IsBuffer c.buffer) inside
                (λ e. no_connection-IsBuffer) (λ ne. t.buffers j (omega (arith, k.same_cap)));
        };
        same_cap = k.same_cap;
        same_listen = refl;
      }

  -- A connection closed, or one in error: its place is clean again.
  pub on_close-IsHandled :
      (line : List ℕ) (id : ℤ) (run : Option (Option ℕ × Hashid))
      → RemoveResult g.hash id run
      → IsHandled g (on_close line g run)
  on_close-IsHandled line id run (inl (none_has, e)) =
      subst (λ r. IsHandled g (on_close line g r)) (sym e) (unfold on_close in unchanged g [] t)
  on_close-IsHandled line id run (inr (d, hash, h, k, e)) =
      subst (λ r. IsHandled g (on_close line g r)) (sym e) (closed line id d hash h k)
