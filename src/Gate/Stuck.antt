-- ===== src/Gate/Stuck.antt =====
-- A packet length of 2^31 or more in service_gate.cpp: `databuffer_readheader` of databuffer.h makes
-- it a negative `int`.
use fengnet.Base.{
  ℕ, ◌+◌, ◌^◌, ◌<◌, ◌≡◌, refl, sym, ap, ◌∙◌, List, [], ◌∷◌, ◌++◌, append-nil, append_assoc, length,
  length-append, some, if◌then◌else◌, arith,
}
use fengnet.Databuffer.{
  ℤ, negsuc, Databuffer, MessagePool, below, is_zero, databuffer_readheader, databuffer_push,
}
use fengnet.Databuffer.Read.{IsBuffer, contents}
use fengnet.Databuffer.Queue.{databuffer_push-contents}
use fengnet.Gate.{
  Connection, Gate, Dispatched, done, also, react, on_header, dispatch_loop, dispatch_message,
}
use fengnet.Gate.Chunks.{joined, and_then, dispatch_all}
use fengnet.Gate.Dispatch.{with_pool, with_buffer}

readheader_negative :
    (db : Databuffer) (mp : MessagePool) (header_size n : ℕ)
    → db.header ≡ negsuc n
    → databuffer_readheader db mp header_size ≡ some (negsuc n, db, mp)
unfolding databuffer_readheader is_zero below
readheader_negative db mp header_size n e =
    rw (ap is_zero e) (ap (λ h. some (if below db.size h then negsuc 0 else h, db, mp)) e)

-- The gate waits: nothing is sent, no socket is closed, the header stays, and the buffer holds what it
-- held with the new bytes at its end, in a size that fits an `int`.
pub record Waits (g : Gate) (c : Connection) (n : ℕ) (more : List ℕ) (d : Dispatched) : Type 0 where
  pub mp : MessagePool
  pub db : Databuffer
  pub ends : d ≡ done [] (with_pool g mp) (with_buffer c db)
  pub same_header : db.header ≡ negsuc n
  pub buffer : IsBuffer db
  pub holds : contents db ≡ contents c.buffer ++ more
  pub grows : db.size ≡ c.buffer.size + length more
  pub fits : db.size < 2 ^ 31

message_held :
    (text : ℤ → List ℕ) (id : ℤ) (g : Gate) (c : Connection) (n : ℕ) (block : List ℕ)
    → IsBuffer c.buffer
    → c.buffer.header ≡ negsuc n
    → c.buffer.size + length block < 2 ^ 31
    → Waits g c n block (dispatch_message text id g c block (length block))
unfolding dispatch_message dispatch_loop on_header react databuffer_push
message_held text id g c n block v e small =
    let (db, mp) = databuffer_push c.buffer g.mp block (length block) in
    let (v', all_held, same) = databuffer_push-contents c.buffer g.mp block v in
    record {
      mp = mp;
      db = db;
      ends =
          ap (on_header (dispatch_loop db.size text id) text id (with_pool g mp) (with_buffer c db))
            (readheader_negative db mp g.header_size n e);
      same_header = e;
      buffer = v';
      holds = all_held;
      grows = refl;
      fits = small;
    }

-- Once the header of a well-formed buffer has been read as a negative length, the gate waits whatever else
-- the socket delivers, as long as the bytes held fit an `int`: it never sends anything or closes the
-- socket, and the buffer holds all the bytes, in order.
pub negative_header-Waits :
    (text : ℤ → List ℕ) (id : ℤ) (blocks : List (List ℕ)) (g : Gate) (c : Connection) (n : ℕ)
    → IsBuffer c.buffer
    → c.buffer.header ≡ negsuc n
    → c.buffer.size + length (joined blocks) < 2 ^ 31
    → Waits g c n (joined blocks) (dispatch_all text id blocks g c)
unfolding dispatch_all joined and_then also
negative_header-Waits text id [] g c n v e small = record {
  mp = g.mp;
  db = c.buffer;
  ends = refl;
  same_header = e;
  buffer = v;
  holds = sym (append-nil (contents c.buffer));
  grows = omega arith;
  fits = omega arith;
}
negative_header-Waits text id (b ∷ bs) g c n v e small =
    let k = message_held text id g c n b v e (omega (arith, length-append b (joined bs))) in
    let rest =
      negative_header-Waits text id bs (with_pool g k.mp) (with_buffer c k.db) n k.buffer
        k.same_header (omega (arith, k.grows, length-append b (joined bs))) in
    record {
      mp = rest.mp;
      db = rest.db;
      ends = ap (λ d. and_then d (dispatch_all text id bs)) k.ends ∙ ap (also []) rest.ends;
      same_header = rest.same_header;
      buffer = rest.buffer;
      holds =
          rest.holds
          ∙ ap (λ xs. xs ++ joined bs) k.holds
          ∙ append_assoc (contents c.buffer) b (joined bs);
      grows = omega (arith, rest.grows, k.grows, length-append b (joined bs));
      fits = rest.fits;
    }
