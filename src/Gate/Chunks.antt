-- ===== src/Gate/Chunks.antt =====
-- The runs of `dispatch_message` of service_gate.cpp over all that a socket delivers, block by block.
use fengnet.Base.{
  ℕ, zero, suc, ◌≤◌, ◌≡◌, refl, sym, subst, ap, ◌∙◌, List, [], ◌∷◌, ◌++◌, append-nil, length,
  length-append, map, map-append, arith,
}
use fengnet.Databuffer.{ℤ, pos, negsuc, Databuffer, MessagePool}
use fengnet.Databuffer.Read.{contents, IsBuffer}
use fengnet.Databuffer.Packets.{HeaderCode, Packets, stream, Expects}
use fengnet.Gate.{Connection, Gate, Dispatched, done, crash, no_fuel, also, dispatch_message}
use fengnet.Gate.Forward.{sent, Serves}
use fengnet.Gate.Dispatch.{with_pool, with_buffer, dispatch_message-Cut}

unfoldable pub joined : List (List ℕ) → List ℕ
joined [] = []
joined (b ∷ bs) = b ++ joined bs

unfoldable pub and_then : Dispatched → (Gate → Connection → Dispatched) → Dispatched
and_then (done out g c) next = also out (next g c)
and_then crash next = crash
and_then no_fuel next = no_fuel

-- One `dispatch_message` for each block.
unfoldable pub dispatch_all : (ℤ → List ℕ) → ℤ → List (List ℕ) → Gate → Connection → Dispatched
dispatch_all text id [] g c = done [] g c
dispatch_all text id (b ∷ bs) g c =
    and_then (dispatch_message text id g c b (length b)) (dispatch_all text id bs)

Packets-append : (bound : ℕ) (ps qs : List (List ℕ)) → Packets bound (ps ++ qs) → Packets bound qs
unfolding Packets
Packets-append bound [] qs w = w
Packets-append bound (p ∷ ps) qs w = Packets-append bound ps qs w.2

module _ (text : ℤ → List ℕ) (id : ℤ) (header_size bound : ℕ) (code : HeaderCode header_size bound)
    (small : bound ≤ 0x1000000) where
  -- All packets were sent, in order, and nothing is left in the buffer.
  pub record AllSent (g : Gate) (c : Connection) (ps : List (List ℕ)) (d : Dispatched)
      : Type 0 where
    pub mp : MessagePool
    pub db : Databuffer
    pub ends : d ≡ done (map (sent text g c) ps) (with_pool g mp) (with_buffer c db)
    pub no_header : db.header ≡ pos 0
    pub empty : contents db ≡ []

  at_end :
      (g : Gate) (c : Connection)
      → Expects code c.buffer.header [] (contents c.buffer ++ [])
      → AllSent g c [] (done [] g c)
  unfolding Expects stream
  at_end g c x = go c.buffer.header refl
    where
      go : (h : ℤ) → c.buffer.header ≡ h → AllSent g c [] (done [] g c)
      go (negsuc n) e = absurd (subst (λ h. Expects code h [] (contents c.buffer ++ [])) e x)
      go (pos (suc n)) e = absurd (subst (λ h. Expects code h [] (contents c.buffer ++ [])) e x)
      go (pos zero) e = record {
        mp = g.mp;
        db = c.buffer;
        ends = refl;
        no_header = e;
        empty =
            sym (append-nil (contents c.buffer))
            ∙ subst (λ h. Expects code h [] (contents c.buffer ++ [])) e x;
      }

  -- A run after one that forwarded the packets `ps`.
  after_first :
      (g : Gate) (c : Connection) (ps qs : List (List ℕ)) (mp : MessagePool) (db : Databuffer)
      (d : Dispatched)
      → AllSent (with_pool g mp) (with_buffer c db) qs d
      → AllSent g c (ps ++ qs) (also (map (sent text g c) ps) d)
  unfolding also sent
  after_first g c ps qs mp db d k = record {
    mp = k.mp;
    db = k.db;
    ends =
        ap (also (map (sent text g c) ps)) k.ends
        ∙ ap (λ l. done l (with_pool g k.mp) (with_buffer c k.db))
            (sym (map-append (sent text g c) ps qs));
    no_header = k.no_header;
    empty = k.empty;
  }

  all_blocks :
      (blocks : List (List ℕ)) (g : Gate) (c : Connection) (ps : List (List ℕ))
      → g.header_size ≡ header_size
      → Serves g c
      → IsBuffer c.buffer
      → Packets bound ps
      → Expects code c.buffer.header ps (contents c.buffer ++ joined blocks)
      → (joined blocks ≡ [] → ps ≡ [])
      → AllSent g c ps (dispatch_all text id blocks g c)
  unfolding joined dispatch_all and_then
  all_blocks [] g c ps hs s v w x z =
      subst (λ qs. AllSent g c qs (done [] g c)) (sym (z refl))
        (at_end g c
          (subst (λ qs. Expects code c.buffer.header qs (contents c.buffer ++ [])) (z refl) x))
  all_blocks (b ∷ bs) g c ps hs s v w x z =
      let k =
        dispatch_message-Cut text id header_size bound code small (joined bs) g c ps b hs s v w x in
      let again =
        all_blocks bs (with_pool g k.mp) (with_buffer c k.db) k.later hs
          (record { opened = s.opened; some_route = s.some_route }) k.buffer
          (Packets-append bound k.first k.later (subst (Packets bound) k.parts w)) k.expects
          k.all_sent in
      subst (λ d. AllSent g c ps (and_then d (dispatch_all text id bs))) (sym k.ends)
        (subst
          (λ qs. AllSent g c qs (
            and_then (done (map (sent text g c) k.first) (with_pool g k.mp) (with_buffer c k.db))
              (dispatch_all text id bs)))
          (sym k.parts)
          (after_first g c k.first k.later k.mp k.db
            (dispatch_all text id bs (with_pool g k.mp) (with_buffer c k.db)) again))

  empty_stream : (ps : List (List ℕ)) → stream code ps ≡ [] → ps ≡ []
  unfolding stream
  empty_stream [] e = refl
  empty_stream (p ∷ ps) e = absurd (
      omega (
        arith,
        ap length e,
        length-append (code.encode (length p)) (p ++ stream code ps),
        code.length-encode (length p),
        code.some_bytes,
      ))

  -- However a stream of packets is cut into blocks: with a dispatch for each block, on an open
  -- connection with a broker, an agent or a watchdog and nothing held, every packet is sent once, in
  -- order and to where it belongs, nothing is left in the buffer, and there is no crash. The packets
  -- are not empty and shorter than 16M and than what the header can say.
  pub dispatch_all-AllSent :
      (blocks : List (List ℕ)) (g : Gate) (c : Connection) (ps : List (List ℕ))
      → g.header_size ≡ header_size
      → Serves g c
      → IsBuffer c.buffer
      → c.buffer.header ≡ pos 0
      → contents c.buffer ≡ []
      → Packets bound ps
      → joined blocks ≡ stream code ps
      → AllSent g c ps (dispatch_all text id blocks g c)
  unfolding Expects
  dispatch_all-AllSent blocks g c ps hs s v h held w e =
      all_blocks blocks g c ps hs s v w
        (subst (λ h. Expects code h ps (contents c.buffer ++ joined blocks)) (sym h)
          (ap (λ l. l ++ joined blocks) held ∙ e))
        (λ z. empty_stream ps (sym e ∙ z))
