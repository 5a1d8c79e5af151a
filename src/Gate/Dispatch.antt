-- ===== src/Gate/Dispatch.antt =====
-- `dispatch_message` of service_gate.cpp on a part of a stream of packets.
use fengnet.Base.{
  ℕ, zero, suc, ◌≤◌, ◌<◌, ◌≡◌, refl, sym, subst, ap, ◌∙◌, inl, inr, some, List, [], ◌∷◌, ◌++◌,
  append_assoc, append_split, length, length-append, map, if◌then◌else◌, arith, lt→leb,
}
use fengnet.Databuffer.{
  ℤ, pos, negsuc, Databuffer, MessagePool, databuffer_readheader, databuffer_push, databuffer_reset,
}
use fengnet.Databuffer.Read.{contents, IsBuffer}
use fengnet.Databuffer.Queue.{databuffer_push-contents}
use fengnet.Databuffer.Packets.{HeaderCode, Packets, stream, Expects, databuffer_readheader-Header}
use fengnet.Gate.{
  Connection, Gate, Dispatched, done, also, forwarded, react, forward, on_header, dispatch_loop,
  dispatch_message, too_long,
}
use fengnet.Gate.Forward.{sent, Serves, forward-Took}

-- The gate and the connection with another pool and another buffer.
abbrev pub with_pool : Gate → MessagePool → Gate
with_pool g mp = record g { mp = mp }

abbrev pub with_buffer : Connection → Databuffer → Connection
with_buffer c db = record c { buffer = db }

module _ (text : ℤ → List ℕ) (id : ℤ) (header_size bound : ℕ) (code : HeaderCode header_size bound)
    (small : bound ≤ 0x1000000) (future : List ℕ) where
  -- The run `d` for the gate `g` has forwarded the first of the packets `ps`, in order and to where
  -- they belong, and left a buffer that with the future bytes holds the others; with no bytes to
  -- come no packet is left.
  pub record Cut (g : Gate) (c : Connection) (ps : List (List ℕ)) (d : Dispatched) : Type 0 where
    pub first : List (List ℕ)
    pub later : List (List ℕ)
    pub mp : MessagePool
    pub db : Databuffer
    pub ends : d ≡ done (map (sent text g c) first) (with_pool g mp) (with_buffer c db)
    pub parts : ps ≡ first ++ later
    pub buffer : IsBuffer db
    pub expects : Expects code db.header later (contents db ++ future)
    pub all_sent : future ≡ [] → later ≡ []

  -- One packet more in front of a run.
  also-Cut :
      (g : Gate) (c : Connection) (p : List ℕ) (ps qs : List (List ℕ)) (d : Dispatched)
      (mp : MessagePool) (db : Databuffer)
      → ps ≡ p ∷ qs
      → Cut (with_pool g mp) (with_buffer c db) qs d
      → Cut g c ps (also (sent text g c p ∷ []) d)
  unfolding also sent
  also-Cut g c p ps qs d mp db e k = record {
    first = p ∷ k.first;
    later = k.later;
    mp = k.mp;
    db = k.db;
    ends = ap (also (sent text g c p ∷ [])) k.ends;
    parts = e ∙ ap (λ l. p ∷ l) k.parts;
    buffer = k.buffer;
    expects = k.expects;
    all_sent = k.all_sent;
  }

  -- Where the packets go depends neither on the pool nor on the buffer.
  same_route :
      (g : Gate) (c : Connection) (ps : List (List ℕ)) (d : Dispatched) (mp : MessagePool)
      (db : Databuffer)
      → Cut (with_pool g mp) (with_buffer c db) ps d
      → Cut g c ps d
  unfolding sent
  same_route g c ps d mp db k = record {
    first = k.first;
    later = k.later;
    mp = k.mp;
    db = k.db;
    ends = k.ends;
    parts = k.parts;
    buffer = k.buffer;
    expects = k.expects;
    all_sent = k.all_sent;
  }

  -- The body of the loop on a packet that is there and not too long.
  react_packet :
      (next : Gate → Connection → Dispatched) (g : Gate) (c : Connection) (n : ℕ) (out : List ℕ)
      (mp : MessagePool) (db : Databuffer)
      → suc n < 0x1000000
      → forward text g c (suc n) ≡ some (sent text g c out ∷ [], with_pool g mp, with_buffer c db)
      → react next text id g c (pos (suc n))
        ≡ also
            (sent text g c out ∷ [])
            (next (with_pool g mp) (with_buffer c (databuffer_reset db)))
  unfolding react forwarded
  react_packet next g c n out mp db lt r =
      ap (λ b. if b then too_long id g c else forwarded next (forward text g c (suc n)))
        (lt→leb 0x1000000 (suc n) lt)
      ∙ ap (forwarded next) r

  -- The first packet is what the announced number of bytes in front is.
  packet_taken :
      (n : ℕ) (ps : List (List ℕ)) (out rest : List ℕ)
      → Expects code (pos (suc n)) ps (out ++ rest)
      → length out ≡ suc n
      → (qs : List (List ℕ)) × (ps ≡ out ∷ qs) × (rest ≡ stream code qs)
  unfolding Expects
  packet_taken n [] out rest x l = absurd x
  packet_taken n (p ∷ ps) out rest x l =
      let (e, r) = append_split out p rest (stream code ps) (l ∙ sym x.0) x.1 in
      (ps, ap (λ q. q ∷ ps) (sym e), r)

  Packets-tail :
      (p : List ℕ) (ps : List (List ℕ))
      → Packets bound (p ∷ ps)
      → (length p < bound) × Packets bound ps
  unfolding Packets
  Packets-tail p ps w = (w.1, w.2)

  -- The loop, for a gate with this size of headers, ends within fuel for each byte held.
  pub dispatch_loop-Cut :
      (fuel : ℕ) (g : Gate) (c : Connection) (ps : List (List ℕ))
      → g.header_size ≡ header_size
      → Serves g c
      → IsBuffer c.buffer
      → Packets bound ps
      → Expects code c.buffer.header ps (contents c.buffer ++ future)
      → c.buffer.size < fuel
      → Cut g c ps (dispatch_loop fuel text id g c)
  unfolding dispatch_loop on_header react forwarded Expects sent
  dispatch_loop-Cut zero g c ps hs s v w x f = absurd (omega arith)
  dispatch_loop-Cut (suc fuel) g c ps hs s v w x f =
      let (db, mp, h) = databuffer_readheader-Header code ps future c.buffer g.mp v w x in
      elim h.result [
        | inl (r, none_left) ↦ record {
          first = [];
          later = ps;
          mp = mp;
          db = db;
          ends = ap (on_header (dispatch_loop fuel text id) text id g c) (
              subst (λ z. databuffer_readheader c.buffer g.mp z ≡ some (negsuc 0, db, mp)) (sym hs)
                r);
          parts = refl;
          buffer = h.buffer;
          expects = h.expects;
          all_sent = none_left;
        }
        | inr (n, r, e, le) ↦
            let g₁ : Gate = with_pool g mp in
            let c₁ : Connection = with_buffer c db in
            let s₁ : Serves g₁ c₁ = record { opened = s.opened; some_route = s.some_route } in
            let (out, db₂, mp₂, r₂, l, k) =
              forward-Took text g₁ c₁ (suc n) s₁ h.buffer (omega arith) le in
            let y = subst (λ z. Expects code z ps (contents db ++ future)) e h.expects in
            let y' =
              subst (Expects code (pos (suc n)) ps)
                (ap (λ l. l ++ future) k.split ∙ append_assoc out (contents db₂) future) y in
            let (qs, is_ps, rest) = packet_taken n ps out (contents db₂ ++ future) y' l in
            let w' = Packets-tail out qs (subst (Packets bound) is_ps w) in
            let db₃ : Databuffer = databuffer_reset db₂ in
            let again =
              dispatch_loop-Cut fuel (with_pool g mp₂) (with_buffer c db₃) qs hs
                (record { opened = s.opened; some_route = s.some_route })
                (record {
                  sized = k.buffer.sized;
                  starts = k.buffer.starts;
                  counted = k.buffer.counted;
                })
                w'.1 rest
                (omega (
                  arith,
                  h.no_more,
                  h.buffer.counted,
                  k.buffer.counted,
                  ap length k.split,
                  length-append out (contents db₂),
                  l,
                )) in
            let run =
              ap (on_header (dispatch_loop fuel text id) text id g c) (
                subst (λ z. databuffer_readheader c.buffer g.mp z ≡ some (pos (suc n), db, mp))
                  (sym hs) r)
              ∙ react_packet (dispatch_loop fuel text id) g₁ c₁ n out mp₂ db₂
                  (omega (arith, l, w'.0)) r₂ in
            subst (Cut g c ps) (sym run) (
              also-Cut g c out ps qs
                (dispatch_loop fuel text id (with_pool g mp₂) (with_buffer c db₃)) mp₂ db₃ is_ps
                again)
      ]

  -- `dispatch_message` of a block on a connection that holds the beginning of a stream of packets.
  pub dispatch_message-Cut :
      (g : Gate) (c : Connection) (ps : List (List ℕ)) (block : List ℕ)
      → g.header_size ≡ header_size
      → Serves g c
      → IsBuffer c.buffer
      → Packets bound ps
      → Expects code c.buffer.header ps (contents c.buffer ++ (block ++ future))
      → Cut g c ps (dispatch_message text id g c block (length block))
  unfolding dispatch_message
  dispatch_message-Cut g c ps block hs s v w x =
      let (v', held, same) = databuffer_push-contents c.buffer g.mp block v in
      let (db, mp) = databuffer_push c.buffer g.mp block (length block) in
      same_route g c ps (dispatch_loop (suc db.size) text id (with_pool g mp) (with_buffer c db)) mp
        db
        (dispatch_loop-Cut (suc db.size) (with_pool g mp) (with_buffer c db) ps hs
          (record { opened = s.opened; some_route = s.some_route }) v' w
          (subst (λ h. Expects code h ps (contents db ++ future)) (sym same)
            (subst (Expects code c.buffer.header ps)
              (sym (append_assoc (contents c.buffer) block future)
                ∙ ap (λ l. l ++ future) (sym held))
              x))
          (omega arith))
