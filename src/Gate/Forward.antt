-- ===== src/Gate/Forward.antt =====
-- `_forward` of service_gate.cpp for a connection whose packets have somewhere to go.
use fengnet.Base.{
  ℕ, bit_or, ◌++◌, ◌≤◌, ◌<◌, ◌≡◌, ◌⊎◌, inl, inr, refl, ap, some, List, [], ◌∷◌, length, ◌==◌,
  ==_iff, false, Bool-cases, if◌then◌else◌, arith,
}
use fengnet.Databuffer.{ℤ, Databuffer, MessagePool}
use fengnet.Databuffer.Read.{IsBuffer}
use fengnet.Databuffer.Queue.{Took, databuffer_read-Took}
use fengnet.Gate.{
  Connection, Gate, Effect, not_positive, read_and_send, send_read, forward, send, ptype_text,
  ptype_tag_dontcopy,
}

-- Where the packets of the connection go: a broker comes before an agent, an agent before the
-- watchdog.
unfoldable pub sent : (ℤ → List ℕ) → Gate → Connection → List ℕ → Effect
sent text g c =
    let client_tag = bit_or g.client_tag ptype_tag_dontcopy in
    let plain = bit_or ptype_text ptype_tag_dontcopy in
    if g.broker == 0
    then (if c.agent == 0
        then (λ packet. send 0 g.watchdog plain c.id (text c.id ++ packet))
        else (λ packet. send c.client c.agent client_tag c.id packet))
    else (λ packet. send 0 g.broker client_tag c.id packet)

-- The connection is open and there is a broker, an agent or a watchdog.
pub record Serves (g : Gate) (c : Connection) : Type 0 where
  pub opened : not_positive c.id ≡ false
  pub some_route : (0 < g.broker) ⊎ ((0 < c.agent) ⊎ (0 < g.watchdog))

read_and_send-Took :
    (to : List ℕ → Effect) (g : Gate) (c : Connection) (size : ℕ)
    → IsBuffer c.buffer
    → 0 < size
    → size ≤ c.buffer.size
    → (out : List ℕ) × (db : Databuffer) × (mp : MessagePool) × (read_and_send to g c size
        ≡ some (to out ∷ [], record g { mp = mp }, record c { buffer = db }))
      × (length out ≡ size)
      × Took c.buffer out db
unfolding read_and_send send_read
read_and_send-Took to g c size v p le =
    let (out, db, mp, r, l, k) = databuffer_read-Took c.buffer g.mp size v p le in
    (out, db, mp, ap (send_read to g c) r, l, k)

forward-sent :
    (text : ℤ → List ℕ) (g : Gate) (c : Connection) (size : ℕ)
    → Serves g c
    → forward text g c size ≡ read_and_send (sent text g c) g c size
unfolding forward sent
forward-sent text g c size s = elim (Bool-cases (g.broker == 0)) [
  | inr b ↦ rw (s.opened, b) refl
  | inl b ↦ elim (Bool-cases (c.agent == 0)) [
    | inr a ↦ rw (s.opened, b, a) refl
    | inl a ↦ elim (Bool-cases (g.watchdog == 0)) [
      | inr w ↦ rw (s.opened, b, a, w) refl
      | inl w ↦
          absurd (nobody s.some_route ((==_iff _ _).0 b) ((==_iff _ _).0 a) ((==_iff _ _).0 w))
    ]
  ]
]
  where
    nobody :
        (0 < g.broker) ⊎ ((0 < c.agent) ⊎ (0 < g.watchdog))
        → g.broker ≡ 0
        → c.agent ≡ 0
        → g.watchdog ≡ 0
        → ⊥
    nobody (inl h) b a w = omega arith
    nobody (inr (inl h)) b a w = omega arith
    nobody (inr (inr h)) b a w = omega arith

-- `_forward` of a packet that is held sends its bytes where they belong, and takes them from the
-- buffer.
pub forward-Took :
    (text : ℤ → List ℕ) (g : Gate) (c : Connection) (size : ℕ)
    → Serves g c
    → IsBuffer c.buffer
    → 0 < size
    → size ≤ c.buffer.size
    → (out : List ℕ) × (db : Databuffer) × (mp : MessagePool) × (forward text g c size
        ≡ some (sent text g c out ∷ [], record g { mp = mp }, record c { buffer = db }))
      × (length out ≡ size)
      × Took c.buffer out db
forward-Took text g c size s v p le =
    rw (forward-sent text g c size s) (read_and_send-Took (sent text g c) g c size v p le)
