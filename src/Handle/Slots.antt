-- ===== src/Handle/Slots.antt =====
-- fengnet-src/fengnet_handle.cpp and fengnet_handle.h: the slots, a table of contexts hashed by handle.
-- A context is its address, and `handles` gives `fengnet_context_handle` of an address. Each function
-- runs under the lock of the storage, so it is one step; what happens to a context beyond its slot,
-- the `delete` of line 49 and the calls of `fengnet_context_release`, is a list of addresses.
pub mod Table
pub mod Scan
pub mod Rehash
pub mod Expand
pub mod Occupy
pub mod Register
pub mod Names
pub mod Forget
pub mod Retire
pub mod RetireAll
pub mod Reach
mod Tests
use fengnet.Base.{
  ℕ, zero, suc, ◌+◌, ◌-◌, ◌*◌, ◌/◌, ◌%◌, ◌^◌, bit_and, bit_or, Bool, true, false, Option, none,
  some, List, [], ◌∷◌, ◌++◌, leb, ltb, ◌==◌, if◌then◌else◌, get_or, set, replicate, take,
}
use fengnet.Handle.{HandleName, NameTable, init_names, zero_name}

abbrev pub handle_mask : ℕ
handle_mask = 0xffffff

abbrev pub handle_remote_shift : ℕ
handle_remote_shift = 24

abbrev pub default_slot_size : ℕ
default_slot_size = 4

-- `handle_storage`.
pub record HandleStorage : Type 0 where
  pub harbor : ℕ
  pub handle_index : ℕ
  pub slot_size : ℕ
  pub slot : List (Option ℕ)
  pub names : NameTable

-- `fengnet_handle_init`.
unfoldable pub handle_init : ℕ → HandleStorage
handle_init harbor = record {
  harbor = bit_and harbor 0xff * 2 ^ handle_remote_shift;
  handle_index = 1;
  slot_size = default_slot_size;
  slot = replicate default_slot_size none;
  names = init_names;
}

-- The index of a handle in a table of `size` slots.
abbrev pub hash : ℕ → ℕ → ℕ
hash handle size = bit_and handle (size - 1)

abbrev pub slot_at : List (Option ℕ) → ℕ → Option ℕ
slot_at slot i = get_or slot i none

unfoldable pub is_null : Option ℕ → Bool
is_null none = true
is_null (some ctx) = false

-- `if (handle > HANDLE_MASK) handle = 1;`
abbrev pub wrap : ℕ → ℕ
wrap handle = if ltb handle_mask handle then 1 else handle

-- The inner loop of `fengnet_handle_register`: the first handle from `handle` on whose slot is free,
-- in `rounds` rounds.
unfoldable pub scan : ℕ → ℕ → HandleStorage → Option ℕ
scan zero handle s = none
scan (suc rounds) handle s =
    let further = scan rounds (wrap handle + 1) s in
    if is_null (slot_at s.slot (hash (wrap handle) s.slot_size))
    then some (wrap handle)
    else further

-- The loop of the expansion that moves the contexts from slot `i` on; `none` is a failed `assert`.
unfoldable pub rehash :
    (ℕ → ℕ) → ℕ → ℕ → ℕ → List (Option ℕ) → List (Option ℕ) → Option (List (Option ℕ))
rehash handles zero i size old new_slot = some new_slot
rehash handles (suc rounds) i size old new_slot = elim (slot_at old i) [
  | none ↦ rehash handles rounds (i + 1) size old new_slot
  | some ctx ↦
      let at = hash (handles ctx) size in
      let further = rehash handles rounds (i + 1) size old (set new_slot at (some ctx)) in
      if is_null (slot_at new_slot at) then further else none
]

-- The addresses in a table.
unfoldable pub live : List (Option ℕ) → List ℕ
live [] = []
live (none ∷ slot) = live slot
live (some ctx ∷ slot) = ctx ∷ live slot

-- The expansion to twice the slots.
unfoldable pub expand : (ℕ → ℕ) → HandleStorage → Option HandleStorage
expand handles s =
    let size = s.slot_size * 2 in
    if leb (size - 1) handle_mask
    then elim (rehash handles s.slot_size 0 size s.slot (replicate size none)) [
      | none ↦ none
      | some new_slot ↦ some (record s { slot = new_slot; slot_size = size })
    ]
    else none

-- How `fengnet_handle_register` ends: with a handle, the storage and the contexts that it deleted.
pub data RegisterResult : Type 0 where
  registered : ℕ → HandleStorage → List ℕ → RegisterResult
  assert_failed : RegisterResult
  no_fuel : RegisterResult

-- The free slot taken.
abbrev pub occupy : ℕ → ℕ → HandleStorage → HandleStorage
occupy ctx handle s = record s {
  slot = set s.slot (hash handle s.slot_size) (some ctx);
  handle_index = handle + 1;
}

-- The loop of `fengnet_handle_register`. `deleted` are the contexts deleted so far.
unfoldable pub register_loop : ℕ → (ℕ → ℕ) → ℕ → HandleStorage → List ℕ → RegisterResult
register_loop zero handles ctx s deleted = no_fuel
register_loop (suc fuel) handles ctx s deleted = elim (scan s.slot_size s.handle_index s) [
  | some handle ↦ registered (bit_or handle s.harbor) (occupy ctx handle s) deleted
  | none ↦ elim (expand handles s) [
    | none ↦ assert_failed
    | some s' ↦ register_loop fuel handles ctx s' (deleted ++ live s.slot)
  ]
]

-- `fengnet_handle_register`; the loop has fuel for a second round.
unfoldable pub handle_register : (ℕ → ℕ) → ℕ → HandleStorage → RegisterResult
handle_register handles ctx s = register_loop 2 handles ctx s []

-- The context in the slot of a handle, if it is the one with this handle.
unfoldable pub matching : (ℕ → ℕ) → ℕ → Option ℕ → Option ℕ
matching handles handle none = none
matching handles handle (some ctx) = if handles ctx == handle then some ctx else none

-- `fengnet_handle_grab`, the context that it returns and takes a reference to.
unfoldable pub handle_grab : (ℕ → ℕ) → ℕ → HandleStorage → Option ℕ
handle_grab handles handle s = matching handles handle (slot_at s.slot (hash handle s.slot_size))

-- The loop of `fengnet_handle_retire` over the names from `i` on, with the place `j` to write to.
unfoldable pub retire_names : ℕ → ℕ → ℕ → ℕ → List HandleName → ℕ × List HandleName
retire_names handle zero i j name = (j, name)
retire_names handle (suc rounds) i j name =
    let entry = get_or name i zero_name in
    let dropped = retire_names handle rounds (suc i) j name in
    let kept =
      retire_names handle rounds (suc i) (suc j) (if i == j then name else set name j entry) in
    if entry.handle == handle then dropped else kept

-- The names without those of a handle.
abbrev pub without_names : ℕ → NameTable → NameTable
without_names handle s =
    let (j, name) = retire_names handle s.name_count 0 0 s.name in
    record s { name_count = j; name = name }

-- `fengnet_handle_retire`: its result, the storage, and the context that it releases.
unfoldable pub handle_retire : (ℕ → ℕ) → ℕ → HandleStorage → Bool × HandleStorage × Option ℕ
handle_retire handles handle s = elim (handle_grab handles handle s) [
  | none ↦ (false, s, none)
  | some ctx ↦ (
    true,
    record s {
      slot = set s.slot (hash handle s.slot_size) none;
      names = without_names handle s.names;
    },
    some ctx,
  )
]

-- The address of a context as a list of the contexts released.
abbrev pub released : Option ℕ → List ℕ
released none = []
released (some ctx) = ctx ∷ []

-- One pass of `fengnet_handle_retireall` over the slots from `i` on: the number of contexts met, the
-- storage, and the contexts released.
unfoldable pub retire_pass : (ℕ → ℕ) → ℕ → ℕ → HandleStorage → ℕ × HandleStorage × List ℕ
retire_pass handles zero i s = (0, s, [])
retire_pass handles (suc rounds) i s = elim (slot_at s.slot i) [
  | none ↦ retire_pass handles rounds (suc i) s
  | some ctx ↦
      let skipped = retire_pass handles rounds (suc i) s in
      let retired = handle_retire handles (handles ctx) s in
      let further = retire_pass handles rounds (suc i) retired.1 in
      if handles ctx == 0
      then (skipped.0 + 1, skipped.1, skipped.2)
      else (further.0 + 1, further.1, released retired.2 ++ further.2)
]

-- `fengnet_handle_retireall`, with the number of passes as fuel; `none` is out of fuel.
unfoldable pub handle_retireall : ℕ → (ℕ → ℕ) → HandleStorage → Option (HandleStorage × List ℕ)
handle_retireall zero handles s = none
handle_retireall (suc fuel) handles s =
    let pass = retire_pass handles s.slot_size 0 s in
    let further = handle_retireall fuel handles pass.1 in
    if pass.0 == 0
    then some (pass.1, pass.2)
    else elim further [ none ↦ none | some (s', more) ↦ some (s', pass.2 ++ more) ]
