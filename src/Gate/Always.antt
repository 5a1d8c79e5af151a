-- ===== src/Gate/Always.antt =====
-- `dispatch_message` of service_gate.cpp on whatever bytes a socket delivers: it ends, and never
-- crashes.
use fengnet.Base.{
  ℕ, zero, suc, ◌+◌, ◌*◌, ◌≤◌, ◌<◌, ◌≡◌, refl, sym, ap, ◌∙◌, subst, ◌⊎◌, inl, inr, some, List, [],
  ◌∷◌, ◌++◌, Bool, true, false, Bool-cases, ltb, leb, ltb→le, length, length-append, if◌then◌else◌,
  arith, ◌==◌,
}
use fengnet.Databuffer.{
  ℤ, pos, negsuc, Databuffer, MessagePool, below, is_zero, parse_header, databuffer_readheader,
  databuffer_push, databuffer_reset, databuffer_clear,
}
use fengnet.Databuffer.Read.{bytes, Sized, Starts, contents, IsBuffer}
use fengnet.Databuffer.Queue.{databuffer_read-Took, databuffer_push-contents}
use fengnet.Gate.{
  Connection, Gate, Effect, Dispatched, Forwarded, done, close, also, not_positive, read_and_send,
  send_read, forward, forwarded, react, on_header, dispatch_loop, dispatch_message, to_broker,
  to_agent, to_watchdog,
}
use fengnet.Gate.Dispatch.{with_pool, with_buffer}

-- A header behind well-formed bytes.
pub header-IsBuffer :
    (db : Databuffer) (header : ℤ) → IsBuffer db → IsBuffer (record db { header = header })
header-IsBuffer db header v = record { sized = v.sized; starts = v.starts; counted = v.counted }

pub clear-IsBuffer : (db : Databuffer) (mp : MessagePool) → IsBuffer (databuffer_clear db mp).0
unfolding databuffer_clear Sized Starts bytes
clear-IsBuffer db mp = record { sized = tt; starts = refl; counted = refl }

-- What `databuffer_readheader` gives: a negative number, or the length of a packet that is held.
record Read (db : Databuffer) (size : ℤ) (db' : Databuffer) : Type 0 where
  buffer : IsBuffer db'
  no_more : db'.size ≤ db.size
  cases :
      ((n : ℕ) × (size ≡ negsuc n))
      ⊎ ((n : ℕ) × (size ≡ pos n)
          × (n ≤ db'.size)
          × (is_zero db.header ≡ true → db'.size + 2 ≤ db.size)
          × (is_zero db.header ≡ false → 0 < n)
          × (db'.header ≡ pos n))

-- The number that is returned for a header.
abbrev shown : ℕ → ℤ → ℤ
shown size header = if below size header then negsuc 0 else header

shown_cases :
    (size : ℕ) (header : ℤ)
    → ((n : ℕ) × (shown size header ≡ negsuc n))
      ⊎ ((n : ℕ) × (shown size header ≡ pos n) × (n ≤ size) × (header ≡ pos n))
unfolding below
shown_cases size (negsuc n) = inl (n, refl)
shown_cases size (pos n) = elim (Bool-cases (ltb size n)) [
  | inl e ↦ inl (0, rw e refl)
  | inr e ↦ inr (n, rw e refl, ltb→le size n e, refl)
]

positive : (header : ℤ) (n : ℕ) → header ≡ pos n → is_zero header ≡ false → 0 < n
unfolding is_zero
positive header zero h e = cc (ap is_zero h)
positive header (suc n) h e = omega arith

readheader-Read :
    (db : Databuffer) (mp : MessagePool) (header_size : ℕ)
    → IsBuffer db
    → 2 ≤ header_size
    → (size : ℤ) × (db' : Databuffer) × (mp' : MessagePool) × (databuffer_readheader db mp
          header_size
        ≡ some (size, db', mp'))
      × Read db size db'
unfolding databuffer_readheader
readheader-Read db mp header_size v two = elim (Bool-cases (is_zero db.header)) [
  | inr e ↦ (
    shown db.size db.header,
    db,
    mp,
    rw e refl,
    record {
      buffer = v;
      no_more = omega arith;
      cases = elim (shown_cases db.size db.header) [
        | inl (n, neg) ↦ inl (n, neg)
        | inr (n, same, le, h) ↦ inr (n, same, le, λ z. cc, λ z. positive db.header n h e, h)
      ];
    },
  )
  | inl e ↦ elim (Bool-cases (ltb db.size header_size)) [
    | inl short ↦ (
      negsuc 0,
      db,
      mp,
      rw (e, short) refl,
      record { buffer = v; no_more = omega arith; cases = inl (0, refl) },
    )
    | inr enough ↦
        let (plen, db', mp', run, amount, k) =
          databuffer_read-Took db mp header_size v (omega arith)
            (ltb→le db.size header_size enough) in
        let header : ℤ = parse_header header_size plen in
        let less : db'.size + 2 ≤ db.size = omega (
          arith,
          v.counted,
          k.buffer.counted,
          ap length k.split,
          length-append plen (contents db'),
          amount,
        ) in
        (
          shown db'.size header,
          record db' { header = header },
          mp',
          rw (e, enough, run) refl,
          record {
            buffer = header-IsBuffer db' header k.buffer;
            no_more = omega (arith, less);
            cases = elim (shown_cases db'.size header) [
              | inl (n, neg) ↦ inl (n, neg)
              | inr (n, same, le, h) ↦ inr (n, same, le, λ z. less, λ z. cc, h)
            ];
          },
        )
  ]
]

-- What `_forward` of a packet that is held leaves.
record Left (g : Gate) (c : Connection) (run : Forwarded) : Type 0 where
  effects : List Effect
  mp : MessagePool
  db : Databuffer
  ends : run ≡ some (effects, with_pool g mp, with_buffer c db)
  buffer : IsBuffer db
  no_more : db.size ≤ c.buffer.size

read_and_send-Left :
    (to : List ℕ → Effect) (g : Gate) (c : Connection) (size : ℕ)
    → IsBuffer c.buffer
    → 0 < size
    → size ≤ c.buffer.size
    → Left g c (read_and_send to g c size)
unfolding read_and_send send_read
read_and_send-Left to g c size v some_bytes le =
    let (out, db, mp, run, amount, k) = databuffer_read-Took c.buffer g.mp size v some_bytes le in
    record {
      effects = to out ∷ [];
      mp = mp;
      db = db;
      ends = ap (send_read to g c) run;
      buffer = k.buffer;
      no_more =
          omega (
            arith,
            v.counted,
            k.buffer.counted,
            ap length k.split,
            length-append out (contents db),
          );
    }

forward-Left :
    (text : ℤ → List ℕ) (g : Gate) (c : Connection) (size : ℕ)
    → IsBuffer c.buffer
    → 0 < size
    → size ≤ c.buffer.size
    → Left g c (forward text g c size)
unfolding forward
forward-Left text g c size v some_bytes le =
    choose (not_positive c.id) (g.broker == 0) (c.agent == 0) (g.watchdog == 0)
  where
    nothing : Left g c (some ([], g, c))
    nothing = record {
      effects = [];
      mp = g.mp;
      db = c.buffer;
      ends = refl;
      buffer = v;
      no_more = omega arith;
    }

    choose :
        (closed no_broker no_agent no_watchdog : Bool)
        → Left g c (
            if closed
            then some ([], g, c)
            else if no_broker
            then (if no_agent
                then (if no_watchdog
                    then some ([], g, c)
                    else read_and_send (to_watchdog text g c) g c size)
                else read_and_send (to_agent g c) g c size)
            else read_and_send (to_broker g c) g c size)
    choose true nb na nw = nothing
    choose false false na nw = read_and_send-Left (to_broker g c) g c size v some_bytes le
    choose false true false nw = read_and_send-Left (to_agent g c) g c size v some_bytes le
    choose false true true false =
        read_and_send-Left (to_watchdog text g c) g c size v some_bytes le
    choose false true true true = nothing

-- A run that ends without a crash, with a well-formed buffer.
pub record Ends (g : Gate) (c : Connection) (run : Dispatched) : Type 0 where
  pub effects : List Effect
  pub mp : MessagePool
  pub db : Databuffer
  pub ends : run ≡ done effects (with_pool g mp) (with_buffer c db)
  pub buffer : IsBuffer db

also-Ends :
    (g : Gate) (c : Connection) (first : List Effect) (mp : MessagePool) (db : Databuffer)
    (d : Dispatched)
    → Ends (with_pool g mp) (with_buffer c db) d
    → Ends g c (also first d)
unfolding also
also-Ends g c first mp db d k = record {
  effects = first ++ k.effects;
  mp = k.mp;
  db = k.db;
  ends = ap (also first) k.ends;
  buffer = k.buffer;
}

-- The fuel left covers the rounds to come: a header takes two bytes at least.
Enough : Databuffer → ℕ → Type 0
Enough db fuel =
    ((is_zero db.header ≡ true) × (db.size < 2 * fuel))
    ⊎ ((is_zero db.header ≡ false) × (db.size < fuel))

-- The pool and the buffer that a run starts from do not show in how it ends.
pool_again :
    (g : Gate) (c : Connection) (mp : MessagePool) (db : Databuffer) (d : Dispatched)
    → Ends (with_pool g mp) (with_buffer c db) d
    → Ends g c d
pool_again g c mp db d e = record {
  effects = e.effects;
  mp = e.mp;
  db = e.db;
  ends = e.ends;
  buffer = e.buffer;
}

-- What the next round needs, after one that read a header or forwarded a packet.
next_size :
    (fuel old new n : ℕ) (old_zero : Bool)
    → new ≤ old
    → n ≤ new
    → (old_zero ≡ true → new + 2 ≤ old)
    → (old_zero ≡ false → 0 < n)
    → ((old_zero ≡ true) × (old < 2 * suc fuel)) ⊎ ((old_zero ≡ false) × (old < suc fuel))
    → new < 2 * fuel
next_size fuel old new n true no_more le two some_bytes (inl (z, lt)) = omega (arith, two refl)
next_size fuel old new n true no_more le two some_bytes (inr (z, lt)) = cc
next_size fuel old new n false no_more le two some_bytes (inl (z, lt)) = cc
next_size fuel old new n false no_more le two some_bytes (inr (z, lt)) =
    omega (arith, some_bytes refl)

module _ (text : ℤ → List ℕ) (id : ℤ) where
  -- The body of the loop for the number that `databuffer_readheader` gave.
  react-Ends :
      (next : Gate → Connection → Dispatched) (g : Gate) (c : Connection) (n : ℕ)
      → IsBuffer c.buffer
      → n ≤ c.buffer.size
      → ((mp : MessagePool) (db : Databuffer)
          → IsBuffer db
          → db.header ≡ pos 0
          → db.size ≤ c.buffer.size
          → Ends (with_pool g mp) (with_buffer c db) (next (with_pool g mp) (with_buffer c db)))
      → (n ≡ 0 → c.buffer.header ≡ pos 0)
      → Ends g c (react next text id g c (pos n))
  unfolding react forwarded
  react-Ends next g c zero v le go zero_header = go g.mp c.buffer v (zero_header refl) (omega arith)
  react-Ends next g c (suc n) v le go zero_header = elim (Bool-cases (leb 0x1000000 (suc n))) [
    | inl e ↦ record {
      effects = close id ∷ [];
      mp = (databuffer_clear c.buffer g.mp).1;
      db = (databuffer_clear c.buffer g.mp).0;
      ends = rw e refl;
      buffer = clear-IsBuffer c.buffer g.mp;
    }
    | inr e ↦
        let k : Left g c (forward text g c (suc n)) =
          forward-Left text g c (suc n) v (omega arith) le in
        let db : Databuffer = databuffer_reset k.db in
        let run : react next text id g c (pos (suc n))
            ≡ also k.effects (next (with_pool g k.mp) (with_buffer c db)) =
          rw e (ap (forwarded next) k.ends) in
        subst (Ends g c) (sym run) (
          also-Ends g c k.effects k.mp db (next (with_pool g k.mp) (with_buffer c db))
            (go k.mp db (header-IsBuffer k.db (pos 0) k.buffer) refl (omega (arith, k.no_more))))
  ]

  dispatch_loop-Ends :
      (fuel : ℕ) (g : Gate) (c : Connection)
      → 2 ≤ g.header_size
      → IsBuffer c.buffer
      → Enough c.buffer fuel
      → Ends g c (dispatch_loop fuel text id g c)
  unfolding dispatch_loop on_header react Enough is_zero
  dispatch_loop-Ends zero g c two v enough = elim enough [
    | inl (z, lt) ↦ absurd (omega arith)
    | inr (z, lt) ↦ absurd (omega arith)
  ]
  dispatch_loop-Ends (suc fuel) g c two v enough =
      let (size, db, mp, run, k) = readheader-Read c.buffer g.mp g.header_size v two in
      subst (Ends g c) (sym (ap (on_header (dispatch_loop fuel text id) text id g c) run))
        (elim k.cases [
          | inl (n, neg) ↦ record {
            effects = [];
            mp = mp;
            db = db;
            ends =
                ap (react (dispatch_loop fuel text id) text id (with_pool g mp) (with_buffer c db))
                  neg;
            buffer = k.buffer;
          }
          | inr (n, same, le, two_less, some_bytes, header) ↦
              let small : db.size < 2 * fuel =
                next_size fuel c.buffer.size db.size n (is_zero c.buffer.header) k.no_more le
                  two_less some_bytes enough in
              subst
                (λ z. Ends g c (
                  react (dispatch_loop fuel text id) text id (with_pool g mp) (with_buffer c db) z))
                (sym same)
                (pool_again g c mp db _ (
                  react-Ends (dispatch_loop fuel text id) (with_pool g mp) (with_buffer c db) n
                    k.buffer le
                    (λ mp' db' v' h le'.
                      dispatch_loop-Ends fuel (with_pool g mp') (with_buffer c db') two v'
                        (inl (ap is_zero h, omega arith)))
                    (λ z. header ∙ ap pos z)))
        ])

  -- Whatever bytes arrive on a connection with a well-formed buffer, `dispatch_message` of a gate with
  -- headers of two bytes at least ends within its fuel and without a crash, changes nothing of the
  -- connection but its buffer, and leaves the buffer well formed.
  pub dispatch_message-Ends :
      (g : Gate) (c : Connection) (block : List ℕ)
      → 2 ≤ g.header_size
      → IsBuffer c.buffer
      → Ends g c (dispatch_message text id g c block (length block))
  unfolding dispatch_message Enough
  dispatch_message-Ends g c block two v =
      let (v', all_held, same) = databuffer_push-contents c.buffer g.mp block v in
      let (db, mp) = databuffer_push c.buffer g.mp block (length block) in
      pool_again g c mp db (dispatch_loop (suc db.size) text id (with_pool g mp) (with_buffer c db))
        (dispatch_loop-Ends (suc db.size) (with_pool g mp) (with_buffer c db) two v'
          (elim (Bool-cases (is_zero db.header)) [
            | inl z ↦ inl (z, omega arith)
            | inr z ↦ inr (z, omega arith)
          ]))
