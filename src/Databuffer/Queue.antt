-- ===== src/Databuffer/Queue.antt =====
-- databuffer.h as a queue of bytes: `databuffer_push` appends to what is held, `databuffer_read` takes
-- from its front.
use fengnet.Base.{
  ℕ, ◌≤◌, ◌<◌, ◌≡◌, refl, sym, ap, ◌∙◌, some, List, [], ◌∷◌, ◌++◌, append_assoc, append-nil, length,
  drop, length-append, drop-append_le, le→leb, arith,
}
use fengnet.Databuffer.{
  DataMessage, Databuffer, MessagePool, read_done, databuffer_read, databuffer_push,
}
use fengnet.Databuffer.Read.{bytes, Sized, Starts, contents, IsBuffer, read_loop-Reads}

-- `db'` is `db` without its first bytes `out`.
pub record Took (db : Databuffer) (out : List ℕ) (db' : Databuffer) : Type 0 where
  pub buffer : IsBuffer db'
  pub split : contents db ≡ out ++ contents db'
  pub same_header : db'.header ≡ db.header

-- `databuffer_read` of at most what is held, and not of nothing, fails no assert, reads through no
-- NULL, and takes that many bytes from the front.
pub databuffer_read-Took :
    (db : Databuffer) (mp : MessagePool) (sz : ℕ)
    → IsBuffer db
    → 0 < sz
    → sz ≤ db.size
    → (out : List ℕ) × (db' : Databuffer) × (mp' : MessagePool) × (databuffer_read db mp sz
        ≡ some (out, db', mp'))
      × (length out ≡ sz)
      × Took db out db'
unfolding databuffer_read
databuffer_read-Took db mp sz v pos le =
    let (r, p, rs) =
      read_loop-Reads db.messages db.offset sz mp v.sized v.starts pos (omega (arith, v.counted)) in
    (
      r.out,
      read_done db sz r,
      r.mp,
      rw (le→leb sz db.size le, p) refl,
      rs.amount,
      record {
        buffer = record {
          sized = rs.sized;
          starts = rs.starts;
          counted = omega (
            arith,
            v.counted,
            rs.amount,
            ap length rs.split,
            length-append r.out (drop r.offset (bytes r.messages)),
          );
        };
        split = rs.split;
        same_header = refl;
      },
    )

bytes-append : (ms ms' : List DataMessage) → bytes (ms ++ ms') ≡ bytes ms ++ bytes ms'
unfolding bytes
bytes-append [] ms' = refl
bytes-append (m ∷ ms) ms' =
    ap (λ l. m.buffer ++ l) (bytes-append ms ms')
    ∙ sym (append_assoc m.buffer (bytes ms) (bytes ms'))

Sized-append : (ms ms' : List DataMessage) → Sized ms → Sized ms' → Sized (ms ++ ms')
unfolding Sized
Sized-append [] ms' s s' = s'
Sized-append (m ∷ ms) ms' s s' = (s.0, Sized-append ms ms' s.1 s')

Starts-append :
    (offset : ℕ) (ms ms' : List DataMessage)
    → Starts offset ms
    → ((z : offset ≡ 0) → Starts offset ms')
    → Starts offset (ms ++ ms')
unfolding Starts
Starts-append offset [] ms' s s' = s' s
Starts-append offset (m ∷ ms) ms' s s' = s

offset_inside :
    (offset : ℕ) (ms : List DataMessage) → Sized ms → Starts offset ms → offset ≤ length (bytes ms)
unfolding Sized Starts bytes
offset_inside offset [] s st = omega arith
offset_inside offset (m ∷ ms) s st = omega (arith, length-append m.buffer (bytes ms))

-- `databuffer_push` of a block and its size appends the block to what is held and keeps the buffer
-- well formed, its header included.
pub databuffer_push-contents :
    (db : Databuffer) (mp : MessagePool) (block : List ℕ)
    → IsBuffer db
    → let db' = (databuffer_push db mp block (length block)).0 in
      IsBuffer db' × (contents db' ≡ contents db ++ block) × (db'.header ≡ db.header)
unfolding databuffer_push bytes Sized Starts
databuffer_push-contents db mp block v = (
  record {
    sized = Sized-append db.messages (new ∷ []) v.sized (refl, tt);
    starts = Starts-append db.offset db.messages (new ∷ []) v.starts (λ z. omega arith);
    counted = omega (arith, ap length whole, length-append (contents db) block, v.counted);
  },
  whole,
  refl,
)
  where
    new : DataMessage
    new = record { buffer = block; size = length block }

    whole : drop db.offset (bytes (db.messages ++ (new ∷ []))) ≡ contents db ++ block
    whole =
        ap (drop db.offset) (
          bytes-append db.messages (new ∷ []) ∙ ap (λ l. bytes db.messages ++ l) (append-nil block))
        ∙ drop-append_le db.offset (bytes db.messages) block
            (offset_inside db.offset db.messages v.sized v.starts)
