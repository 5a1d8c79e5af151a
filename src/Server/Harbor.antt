-- ===== src/Server/Harbor.antt =====
-- fengnet-src/fengnet_harbor.cpp: which handles belong to another node, and the messages to the service
-- that speaks to the others. `none` is a failed `assert` or a use of a null or freed pointer.
use fengnet.Base.{
  ℕ, ◌+◌, ◌-◌, ◌*◌, ◌/◌, ◌%◌, ◌^◌, ◌<◌, ◌≡◌, refl, ap, ◌∙◌, bit_and, Bool, false, not, ◌&&◌, Option,
  none, some, ◌==◌, if◌then◌else◌, arith, by_fields, and_digits, min, and_ones, mod-eq_of_lt,
  ==_refl,
}
use fengnet.Handle.Slots.{HandleStorage, handle_init, handle_mask, handle_remote_shift}
use fengnet.Handle.Slots.Occupy.{Registered}
use fengnet.Server.{Node, context_reserve, context_release, context_send}

abbrev pub ptype_system : ℕ
ptype_system = 4

abbrev pub ptype_harbor : ℕ
ptype_harbor = 5

-- `remote_message`; `destination` is its name and its handle.
pub record RemoteMessage : Type 0 where
  pub handle : ℕ
  pub message : ℕ
  pub sz : ℕ
  pub type : ℕ

-- `sizeof(remote_message)`.
abbrev pub remote_message_size : ℕ
remote_message_size = 48

-- `~0`, the `HARBOR` of a node that was not given one.
abbrev pub no_harbor : ℕ
no_harbor = 2 ^ 32 - 1

-- `fengnet_harbor_init`.
abbrev pub harbor_init : ℕ → Node → Node
harbor_init harbor n = record n { harbor = harbor * 2 ^ handle_remote_shift % 2 ^ 32 }

-- `fengnet_harbor_start`.
unfoldable pub started : ℕ → Option Node → Option Node
started a none = none
started a (some n) = some (record n { remote = some a })

unfoldable pub harbor_start : ℕ → Node → Option Node
harbor_start a n = started a (context_reserve a n)

-- `fengnet_harbor_exit`.
unfoldable pub exited : Option ℕ → Node → Option Node
exited none n = some n
exited (some a) n = context_release a n

unfoldable pub harbor_exit : Node → Option Node
harbor_exit n = exited n.remote (record n { remote = none })

-- `handle & ~HANDLE_MASK`.
abbrev pub high_byte : ℕ → ℕ
high_byte handle = bit_and handle (2 ^ 32 - 1 - handle_mask)

-- `fengnet_harbor_message_isremote`.
unfoldable pub message_isremote : ℕ → ℕ → Option Bool
message_isremote harbor handle =
    let h = high_byte handle in
    if harbor == no_harbor then none else some (not (h == harbor) && not (h == 0))

-- `invalid_type`.
abbrev pub invalid_type : ℕ → Bool
invalid_type type = not (type == ptype_system) && not (type == ptype_harbor)

-- `fengnet_harbor_send` of the message at the address `rmsg`.
unfoldable pub send_remote : Option ℕ → ℕ → ℕ → ℕ → Node → Option Node
send_remote none rmsg source session n = none
send_remote (some a) rmsg source session n =
    context_send a rmsg remote_message_size source ptype_system session n

unfoldable pub harbor_send : ℕ → RemoteMessage → ℕ → ℕ → Node → Option Node
harbor_send at rmsg source session n =
    let sent = send_remote n.remote at source session n in
    if invalid_type rmsg.type then sent else none

high_byte_lem : (q r : ℕ) → r < 2 ^ 24 → q < 2 ^ 8 → high_byte (q * 2 ^ 24 + r) ≡ q * 2 ^ 24
high_byte_lem q r low small =
    by_fields bit_and min and_digits 24 q r (2 ^ 8 - 1) 0 low (omega arith)
    ∙ omega (arith, and_ones 8 q, mod-eq_of_lt {n = q} {m = 2 ^ 8} small, and_zero r)
  where
    and_zero : (r : ℕ) → bit_and r 0 ≡ 0
    and_zero r = omega (arith, and_ones 0 r)

-- The comparison of two numbers is that of their multiples.
same_multiple : (a b : ℕ) → (a * 2 ^ 24 == b * 2 ^ 24) ≡ (a == b)
same_multiple a b = ground arith

-- Once `fengnet_harbor_init` gave the node a number of one byte, the test fails no assert, and a handle
-- is remote just when its high byte is neither that number nor 0.
pub message_isremote-init :
    (harbor handle : ℕ) (n : Node)
    → harbor < 2 ^ 8
    → handle < 2 ^ 32
    → message_isremote (harbor_init harbor n).harbor handle
      ≡ some (not (handle / 2 ^ 24 == harbor) && not (handle / 2 ^ 24 == 0))
unfolding message_isremote
message_isremote-init harbor handle n small fits =
    let q : ℕ = handle / 2 ^ 24 in
    let split : handle ≡ q * 2 ^ 24 + handle % 2 ^ 24 = omega arith in
    let high : high_byte handle ≡ q * 2 ^ 24 =
      ap high_byte split ∙ high_byte_lem q (handle % 2 ^ 24) (omega arith) (omega arith) in
    let own : harbor * 2 ^ 24 % 2 ^ 32 ≡ harbor * 2 ^ 24 = mod-eq_of_lt (omega arith) in
    let given : (harbor * 2 ^ 24 == no_harbor) ≡ false = ground arith in
    rw (own, given, high, same_multiple q harbor, same_multiple q 0) refl

-- A handle that `fengnet_handle_register` gave in a storage of the harbor of the node is not remote.
Registered-local :
    (handles : ℕ → ℕ) (ctx handle harbor : ℕ) (s s' : HandleStorage) (n : Node)
    → harbor < 2 ^ 8
    → s.harbor ≡ (handle_init harbor).harbor
    → Registered handles ctx handle s s'
    → message_isremote (harbor_init harbor n).harbor handle ≡ some false
Registered-local handles ctx handle harbor s s' n small same r =
    let masked : bit_and harbor (2 ^ 8 - 1) ≡ harbor = and_ones 8 harbor ∙ mod-eq_of_lt small in
    let mine : s.harbor ≡ harbor * 2 ^ 24 =
      same ∙ unfold handle_init in ap (λ h. h * 2 ^ 24) masked in
    let high : handle / 2 ^ 24 ≡ harbor = r.index_bits.1 ∙ omega (arith, mine) in
    message_isremote-init harbor handle n small (omega arith) ∙ rw (high, ==_refl harbor) refl
