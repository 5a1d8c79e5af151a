-- ===== src/Gate.antt =====
-- service-src/service_gate.cpp: how the gate cuts what a socket delivers into packets and forwards
-- them. A read through NULL or a failed `assert` is `crash`. `text` stands for
-- `snprintf(tmp, 32, "%d data ", id)`, of which the theorems need nothing.
pub mod Forward
pub mod Dispatch
pub mod Chunks
pub mod Stuck
pub mod Always
pub mod Sockets
mod Tests
use fengnet.Base.{
  ℕ, zero, suc, ◌+◌, bit_or, Bool, true, false, Option, none, some, List, [], ◌∷◌, ◌++◌, leb, ◌==◌,
  if◌then◌else◌, length,
}
use fengnet.Databuffer.{
  ℤ, pos, negsuc, Databuffer, MessagePool, databuffer_read, databuffer_push, databuffer_readheader,
  databuffer_reset, databuffer_clear,
}

abbrev pub ptype_text : ℕ
ptype_text = 0

abbrev pub ptype_tag_dontcopy : ℕ
ptype_tag_dontcopy = 0x10000

-- `connection`, without the name of its peer.
pub record Connection : Type 0 where
  pub id : ℤ
  pub agent : ℕ
  pub client : ℕ
  pub buffer : Databuffer

-- The fields of `gate` that the dispatch of data uses.
pub record Gate : Type 0 where
  pub watchdog : ℕ
  pub broker : ℕ
  pub client_tag : ℕ
  pub header_size : ℕ
  pub mp : MessagePool

-- What the gate has others do: `fengnet_send` with source, destination, type, session and bytes, and
-- `fengnet_socket_close` and `fengnet_socket_send`.
pub data Effect : Type 0 where
  send : ℕ → ℕ → ℕ → ℤ → List ℕ → Effect
  close : ℤ → Effect
  socket_send : ℤ → List ℕ → Effect

-- The test `fd <= 0`.
unfoldable pub not_positive : ℤ → Bool
not_positive (pos n) = n == 0
not_positive (negsuc n) = true

abbrev pub Forwarded : Type 0
Forwarded = Option (List Effect × Gate × Connection)

-- The `fengnet_send` of what a `databuffer_read` read.
unfoldable pub send_read :
    (List ℕ → Effect) → Gate → Connection → Option (List ℕ × Databuffer × MessagePool) → Forwarded
send_read to g c none = none
send_read to g c (some (temp, db, mp)) =
    some (to temp ∷ [], record g { mp = mp }, record c { buffer = db })

-- The reading of a packet and its `fengnet_send`.
unfoldable pub read_and_send : (List ℕ → Effect) → Gate → Connection → ℕ → Forwarded
read_and_send to g c size = send_read to g c (databuffer_read c.buffer g.mp size)

abbrev pub client_type : Gate → ℕ
client_type g = bit_or g.client_tag ptype_tag_dontcopy

abbrev pub to_broker : Gate → Connection → List ℕ → Effect
to_broker g c temp = send 0 g.broker (client_type g) c.id temp

abbrev pub to_agent : Gate → Connection → List ℕ → Effect
to_agent g c temp = send c.client c.agent (client_type g) c.id temp

abbrev pub to_watchdog : (ℤ → List ℕ) → Gate → Connection → List ℕ → Effect
to_watchdog text g c temp =
    send 0 g.watchdog (bit_or ptype_text ptype_tag_dontcopy) c.id (text c.id ++ temp)

-- `_forward`.
unfoldable pub forward : (ℤ → List ℕ) → Gate → Connection → ℕ → Forwarded
forward text g c size =
    if not_positive c.id
    then some ([], g, c)
    else if g.broker == 0
    then (if c.agent == 0
        then (if g.watchdog == 0
            then some ([], g, c)
            else read_and_send (to_watchdog text g c) g c size)
        else read_and_send (to_agent g c) g c size)
    else read_and_send (to_broker g c) g c size

-- How `dispatch_message` ends.
pub data Dispatched : Type 0 where
  done : List Effect → Gate → Connection → Dispatched
  crash : Dispatched
  no_fuel : Dispatched

unfoldable pub also : List Effect → Dispatched → Dispatched
also sent (done later g c) = done (sent ++ later) g c
also sent crash = crash
also sent no_fuel = no_fuel

-- The packet is forwarded and the header reset, and the loop goes on.
unfoldable pub forwarded : (Gate → Connection → Dispatched) → Forwarded → Dispatched
forwarded next none = crash
forwarded next (some (sent, g, c)) =
    also sent (next g (record c { buffer = databuffer_reset c.buffer }))

-- A packet of 16M or more: the buffer is cleared and the socket closed.
abbrev pub too_long : ℤ → Gate → Connection → Dispatched
too_long id g c =
    let (db, mp) = databuffer_clear c.buffer g.mp in
    done (close id ∷ []) (record g { mp = mp }) (record c { buffer = db })

-- The body of the loop after `databuffer_readheader`, which returned the last argument.
unfoldable pub react :
    (Gate → Connection → Dispatched) → (ℤ → List ℕ) → ℤ → Gate → Connection → ℤ → Dispatched
react next text id g c (negsuc n) = done [] g c
react next text id g c (pos zero) = next g c
react next text id g c (pos (suc n)) =
    if leb 0x1000000 (suc n) then too_long id g c else forwarded next (forward text g c (suc n))

-- The same for a read of the header that may have failed.
unfoldable pub on_header :
    (Gate → Connection → Dispatched)
    → (ℤ → List ℕ)
    → ℤ
    → Gate
    → Connection
    → Option (ℤ × Databuffer × MessagePool)
    → Dispatched
on_header next text id g c none = crash
on_header next text id g c (some (size, db, mp)) =
    react next text id (record g { mp = mp }) (record c { buffer = db }) size

-- The loop of `dispatch_message`.
unfoldable pub dispatch_loop : ℕ → (ℤ → List ℕ) → ℤ → Gate → Connection → Dispatched
dispatch_loop zero text id g c = no_fuel
dispatch_loop (suc fuel) text id g c =
    on_header (dispatch_loop fuel text id) text id g c
      (databuffer_readheader c.buffer g.mp g.header_size)

-- `dispatch_message`, with fuel for each byte held.
unfoldable pub dispatch_message : (ℤ → List ℕ) → ℤ → Gate → Connection → List ℕ → ℕ → Dispatched
dispatch_message text id g c block sz =
    let (db, mp) = databuffer_push c.buffer g.mp block sz in
    dispatch_loop (suc db.size) text id (record g { mp = mp }) (record c { buffer = db })
