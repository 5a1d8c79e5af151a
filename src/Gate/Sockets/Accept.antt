-- ===== src/Gate/Sockets/Accept.antt =====
-- New connections in service_gate.cpp, and all messages of the socket thread together.
use fengnet.Base.{
  ◌≢◌, none, ℕ, ◌+◌, ◌^◌, ◌≤◌, ◌<◌, ◌≡◌, refl, sym, ap, ◌∙◌, subst, false, some, List, [], ◌∷◌, set,
  length, arith, Bool-cases, ◌⊎◌, inl, inr, length-set, ==_iff, ==_false,
}
use fengnet.Databuffer.{pos}
use fengnet.Databuffer.Read.{IsBuffer}
use fengnet.Gate.{close, Connection}
use fengnet.Hashid.{Hashid, node_at, eq_int, hashid_lookup, hashid_full}
use fengnet.Hashid.Table.{Holds, eq_int_refl, eq_int→eq, eq_int_false→ne, used-le-length}
use fengnet.Hashid.Lookup.{hashid_lookup-Finds}
use fengnet.Hashid.Insert.{IsInserted, hashid_insert-IsInserted}
use fengnet.Hashid.Remove.{hashid_remove-RemoveResult}
use fengnet.Gate.Sockets.{
  GateTable, no_connection, conn_at, Handled, report, on_data, on_connect, on_insert, insert_int,
  Texts, remote_name, SocketMessage, socket_data, socket_connect, socket_close, socket_error,
  socket_accept, socket_warning, dispatch_socket_message,
}
use fengnet.Gate.Sockets.Table.{
  IsGateTable, IsHandled, at_set, no_connection-IsBuffer, on_data-IsHandled, on_connect-IsHandled,
  on_close-IsHandled, unchanged,
}

-- The table after a connection was accepted at a place that was clean.
module _ (g : GateTable) (t : IsGateTable g) (n : ℕ) (i : ℕ) (hash : Hashid)
    (k : IsInserted g.hash n i hash) where
  abbrev fresh : Connection
  fresh = record no_connection { id = pos n }

  -- The place held nothing of an earlier connection.
  pub was_clean : record (conn_at g.conn i) { id = pos n } ≡ fresh
  was_clean =
      ap (λ (c : Connection). record c { id = pos n })
        (t.clean i (omega (arith, k.holds.inside, k.same_cap)) k.was_free)

  abbrev accepted : GateTable
  accepted = record g { hash = hash; conn = set g.conn i fresh }

  inside : i < length g.conn
  inside = omega (arith, k.holds.inside, k.same_cap, t.places)

  pub accepted-IsGateTable : IsGateTable accepted
  accepted-IsGateTable = record {
    chains = k.chains;
    well = k.well;
    places = length-set g.conn i fresh ∙ t.places ∙ sym k.same_cap;
    header = t.header;
    matched = λ j lt.
        at_set g.conn i j fresh (λ c. c.id ≡ (node_at hash.id j).id) inside
          (λ e. sym (ap (λ m. (node_at hash.id m).id) e ∙ k.holds.its_id))
          (λ ne. t.matched j (omega (arith, k.same_cap)) ∙ sym (k.others j ne));
    clean = λ j lt free.
        at_set g.conn i j fresh (λ c. c ≡ no_connection) inside
          (λ e.
            absurd (
              k.holds.in_use
                (sym k.holds.its_id ∙ ap (λ m. (node_at hash.id m).id) (sym e) ∙ free)))
          (λ ne. t.clean j (omega (arith, k.same_cap)) (sym (k.others j ne) ∙ free));
    buffers = λ j lt.
        at_set g.conn i j fresh (λ c. IsBuffer c.buffer) inside (λ e. no_connection-IsBuffer)
          (λ ne. t.buffers j (omega (arith, k.same_cap)));
  }

-- What the socket thread is relied on for: a data message has its length as `ud`, and a socket that is
-- accepted has an id that no connection has and that stays an `int` in the search of `hashid_insert`.
abbrev pub IsDelivered : GateTable → SocketMessage → Type 0
IsDelivered g (socket_data id buffer ud) = ud ≡ length buffer
IsDelivered g (socket_connect id) = Unit
IsDelivered g (socket_close id) = Unit
IsDelivered g (socket_error id) = Unit
IsDelivered g (socket_accept id ud name) =
    (n : ℕ) × (ud ≡ pos n) × (n + g.hash.cap ≤ 2 ^ 31) × ((i : ℕ) → ¬ Holds g.hash (pos n) i)
IsDelivered g (socket_warning id ud) = Unit

-- A socket accepted on a socket that the gate does not listen to, or no more.
abbrev pub IsStray : GateTable → SocketMessage → Type 0
IsStray g (socket_data id buffer ud) = ⊥
IsStray g (socket_connect id) = ⊥
IsStray g (socket_close id) = ⊥
IsStray g (socket_error id) = ⊥
IsStray g (socket_accept id ud name) = g.listen_id ≢ id
IsStray g (socket_warning id ud) = ⊥

-- How a message ends: handled, or with the failed `assert` of a stray one.
abbrev pub Handles : GateTable → SocketMessage → Handled → Type 0
Handles g m run = IsHandled g run ⊎ (IsStray g m × (run ≡ none))

-- What comes of an accepted socket: of a full table nothing but a close, else the report, with a place
-- that was free and has a fresh connection now, the other places as they were.
abbrev pub Accepted : Texts → GateTable → ℕ → List ℕ → Handled → Type 0
Accepted t g n name run =
    ((g.hash.count ≡ g.hash.cap) × (run ≡ some (close (pos n) ∷ [], g)))
    ⊎ (i : ℕ) × (hash : Hashid) × IsInserted g.hash n i hash
      × (run
          ≡ some (
            report g (t.open_text (pos n) (remote_name name)),
            record g { hash = hash; conn = set g.conn i (record no_connection { id = pos n }) },
          ))

-- While there is room, fewer nodes are in use than there are.
room : (g : GateTable) → IsGateTable g → hashid_full g.hash ≡ false → g.hash.count < g.hash.cap
unfolding hashid_full
room g t e = omega (
  arith,
  ==_false g.hash.count g.hash.cap e,
  t.well.counted,
  t.well.nodes,
  used-le-length g.hash.id,
)

-- A socket that the listening socket of a well-formed table accepts, with an id that no connection has
-- and that stays an `int` in the search: the gate asserts nothing false. A full table is kept and the
-- socket closed; else the table gets one fresh connection, with nothing left of an earlier one there.
pub socket_accept-Accepted :
    (texts : Texts) (g : GateTable) (n : ℕ) (name : List ℕ)
    → IsGateTable g
    → n + g.hash.cap ≤ 2 ^ 31
    → ((i : ℕ) → ¬ Holds g.hash (pos n) i)
    → Accepted texts g n name
        (dispatch_socket_message texts g (socket_accept g.listen_id (pos n) name))
unfolding dispatch_socket_message insert_int on_insert hashid_full
socket_accept-Accepted texts g n name t small absent = elim (Bool-cases (hashid_full g.hash)) [
  | inl e ↦ inl ((==_iff g.hash.count g.hash.cap).0 e, rw (eq_int_refl g.listen_id, e) refl)
  | inr e ↦
      let (i, hash, run, k) =
        hashid_insert-IsInserted g.hash t.chains n t.well (room g t e) small absent in
      let line : List ℕ = texts.open_text (pos n) (remote_name name) in
      inr (
        i,
        hash,
        k,
        rw (eq_int_refl g.listen_id, e)
            (ap (on_insert line g (pos n)) run
              ∙ ap (λ c. some (report g line, record g { hash = hash; conn = set g.conn i c }))
                  (was_clean g t n i hash k)),
      )
]

Accepted-IsHandled :
    (texts : Texts) (g : GateTable) (n : ℕ) (name : List ℕ) (run : Handled)
    → IsGateTable g
    → Accepted texts g n name run
    → IsHandled g run
Accepted-IsHandled texts g n name run t (inl (full, e)) =
    subst (IsHandled g) (sym e) (unchanged g (close (pos n) ∷ []) t)
Accepted-IsHandled texts g n name run t (inr (i, hash, k, e)) = record {
  effects = report g (texts.open_text (pos n) (remote_name name));
  after = accepted g t n i hash k;
  ends = e;
  table = accepted-IsGateTable g t n i hash k;
  same_cap = k.same_cap;
  same_listen = refl;
}

-- On a well-formed table every message that the socket thread delivers, with the ids that it is relied on
-- for, is handled to its end, in a well-formed table with the same capacity and the same listening socket;
-- only for a socket accepted on another socket than the listening one the `assert` fails.
pub dispatch_socket_message-Handles :
    (texts : Texts) (g : GateTable) (m : SocketMessage)
    → IsGateTable g
    → IsDelivered g m
    → Handles g m (dispatch_socket_message texts g m)
unfolding dispatch_socket_message
dispatch_socket_message-Handles texts g (socket_data id buffer ud) t same =
    let (r, run, found) = hashid_lookup-Finds g.hash t.chains id t.well in
    inl (
      subst (λ n. IsHandled g (on_data texts.data_text g id buffer n (hashid_lookup g.hash id)))
        (sym same)
        (subst (λ k. IsHandled g (on_data texts.data_text g id buffer (length buffer) k)) (sym run)
          (on_data-IsHandled g t texts.data_text id buffer r found)))
dispatch_socket_message-Handles texts g (socket_connect id) t u =
    elim (Bool-cases (eq_int id g.listen_id)) [
      | inl e ↦ rw e (inl (unchanged g [] t))
      | inr e ↦
          let (r, run, found) = hashid_lookup-Finds g.hash t.chains id t.well in
          rw e (
            inl (
              subst (λ k. IsHandled g (on_connect g id k)) (sym run)
                (on_connect-IsHandled g t id r)))
    ]
dispatch_socket_message-Handles texts g (socket_close id) t u = inl (
    on_close-IsHandled g t (texts.close_text id) id _
      (hashid_remove-RemoveResult g.hash t.chains id t.well))
dispatch_socket_message-Handles texts g (socket_error id) t u = inl (
    on_close-IsHandled g t (texts.close_text id) id _
      (hashid_remove-RemoveResult g.hash t.chains id t.well))
dispatch_socket_message-Handles texts g (socket_accept id ud name) t (n, e, small, absent) =
    elim (Bool-cases (eq_int g.listen_id id)) [
      | inl same ↦ inl (
          subst (λ k. IsHandled g (dispatch_socket_message texts g (socket_accept k ud name)))
            (eq_int→eq g.listen_id id same)
            (subst
              (λ k.
                IsHandled g (dispatch_socket_message texts g (socket_accept g.listen_id k name)))
              (sym e)
              (Accepted-IsHandled texts g n name _ t
                (socket_accept-Accepted texts g n name t small absent))))
      | inr other ↦ inr (eq_int_false→ne g.listen_id id other, rw other refl)
    ]
dispatch_socket_message-Handles texts g (socket_warning id ud) t u = inl (unchanged g [] t)
