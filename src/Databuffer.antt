-- ===== src/Databuffer.antt =====
-- service-src/databuffer.h: the bytes that a socket has delivered and that are not yet cut into
-- packets. The messages from `head` on along `next` are a list, a read through NULL and a failed
-- `assert` are `none`. Of the pool only the numbers of messages and of blocks matter.
pub mod Read
pub mod Queue
pub mod Packets
pub mod Codes
use fengnet.Base.{
  ℕ, zero, suc, ◌+◌, ◌-◌, ◌*◌, ◌^◌, bit_or, Bool, true, false, Option, none, some, List, [], ◌∷◌,
  ◌++◌, leb, ltb, ◌==◌, if◌then◌else◌, take, drop, length, get_or,
}

abbrev pub message_pool : ℕ
message_pool = 1023

-- An `int`.
pub data ℤ : Type 0 where
  pos : ℕ → ℤ
  negsuc : ℕ → ℤ

-- The `int` with the given 32 bits.
abbrev pub int32 : ℕ → ℤ
int32 w = if ltb w (2 ^ 31) then pos w else negsuc (2 ^ 32 - 1 - w)

-- `size < header` for an `int` size that is not negative.
unfoldable pub below : ℕ → ℤ → Bool
below size (pos n) = ltb size n
below size (negsuc n) = false

-- `message`, with the block that `buffer` points to.
pub record DataMessage : Type 0 where
  pub buffer : List ℕ
  pub size : ℕ

-- `databuffer`; `messages` is the chain from `head` to `tail`. `size` is an `int`, left unbounded here:
-- it is that of the source while the buffer holds fewer than 2^31 bytes, where `db->size += sz` of
-- `databuffer_push` does not overflow.
pub record Databuffer : Type 0 where
  pub header : ℤ
  pub offset : ℕ
  pub size : ℕ
  pub messages : List DataMessage

-- `messagepool`: the length of `freelist` and the number of blocks.
pub record MessagePool : Type 0 where
  pub freelist : ℕ
  pub pool : ℕ

-- What a read leaves: the bytes it copied, the chain, the offset into it and the pool.
pub record ReadResult : Type 0 where
  pub out : List ℕ
  pub messages : List DataMessage
  pub offset : ℕ
  pub mp : MessagePool

-- `_return_message`, the part for the pool.
abbrev pub return_message : MessagePool → MessagePool
return_message mp = record mp { freelist = mp.freelist + 1 }

-- The loop of `databuffer_read`. `bsz` is the rest of the first message.
unfoldable pub read_loop : List DataMessage → ℕ → ℕ → MessagePool → Option ReadResult
read_loop [] offset sz mp = none
read_loop (current ∷ rest) offset sz mp =
    let bsz = current.size - offset in
    let whole = take bsz (drop offset current.buffer) in
    let further = read_loop rest 0 (sz - bsz) (return_message mp) in
    if ltb sz bsz
    then some (record {
      out = take sz (drop offset current.buffer);
      messages = current ∷ rest;
      offset = offset + sz;
      mp = mp;
    })
    else if bsz == sz
    then some (record {
      out = take sz (drop offset current.buffer);
      messages = rest;
      offset = 0;
      mp = return_message mp;
    })
    else elim further [ none ↦ none | some r ↦ some (record r { out = whole ++ r.out }) ]

-- The state of the buffer after a read.
abbrev pub read_done : Databuffer → ℕ → ReadResult → Databuffer
read_done db sz r = record db { size = db.size - sz; offset = r.offset; messages = r.messages }

-- `databuffer_read`, with the bytes it puts into `buffer`.
unfoldable pub databuffer_read :
    Databuffer → MessagePool → ℕ → Option (List ℕ × Databuffer × MessagePool)
databuffer_read db mp sz =
    if leb sz db.size
    then elim (read_loop db.messages db.offset sz mp) [
      | none ↦ none
      | some r ↦ some (r.out, read_done db sz r, r.mp)
    ]
    else none

-- The message that `databuffer_push` takes from the free list, or from a new block.
abbrev pub take_message : MessagePool → MessagePool
take_message mp =
    if mp.freelist == 0
    then record { freelist = message_pool - 1; pool = mp.pool + 1 }
    else record mp { freelist = mp.freelist - 1 }

-- `databuffer_push`.
unfoldable pub databuffer_push : Databuffer → MessagePool → List ℕ → ℕ → Databuffer × MessagePool
databuffer_push db mp block sz = (
  record db {
    size = db.size + sz;
    messages = db.messages ++ (record { buffer = block; size = sz } ∷ []);
  },
  take_message mp,
)

-- The header in the bytes `plen`, of two bytes or four, as an `int`.
unfoldable pub parse_header : ℕ → List ℕ → ℤ
parse_header header_size plen =
    let byte : ℕ → ℕ = λ i. get_or plen i 0 in
    if header_size == 2
    then int32 (bit_or (byte 0 * 2 ^ 8) (byte 1))
    else int32
        (bit_or (bit_or (bit_or (byte 0 * 2 ^ 24) (byte 1 * 2 ^ 16)) (byte 2 * 2 ^ 8)) (byte 3))

-- The end of `databuffer_readheader`.
abbrev pub whole_packet : Databuffer → MessagePool → ℤ × Databuffer × MessagePool
whole_packet db mp = (if below db.size db.header then negsuc 0 else db.header, db, mp)

-- The test `db->header == 0`.
unfoldable pub is_zero : ℤ → Bool
is_zero (pos n) = n == 0
is_zero (negsuc n) = false

-- `databuffer_readheader`.
unfoldable pub databuffer_readheader :
    Databuffer → MessagePool → ℕ → Option (ℤ × Databuffer × MessagePool)
databuffer_readheader db mp header_size =
    if is_zero db.header
    then (if ltb db.size header_size
        then some (negsuc 0, db, mp)
        else elim (databuffer_read db mp header_size) [
          | none ↦ none
          | some (plen, db', mp') ↦
              some (whole_packet (record db' { header = parse_header header_size plen }) mp')
        ])
    else some (whole_packet db mp)

-- `databuffer_reset`.
abbrev pub databuffer_reset : Databuffer → Databuffer
databuffer_reset db = record db { header = pos 0 }

-- `databuffer_clear`: every message goes back to the pool, the fields are zero.
unfoldable pub databuffer_clear : Databuffer → MessagePool → Databuffer × MessagePool
databuffer_clear db mp = (
  record { header = pos 0; offset = 0; size = 0; messages = [] },
  record mp { freelist = mp.freelist + length db.messages },
)
