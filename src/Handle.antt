-- ===== src/Handle.antt =====
-- fengnet-src/fengnet_handle.h and fengnet_handle.cpp: the names of services, a sorted array that is
-- searched by halving. Each function runs under the lock of the storage, so it is one step.
-- A failed `assert` is `none`. A name is the list of its bytes before the final NUL.
pub mod Strcmp
pub mod Find
pub mod Insert
pub mod Lookup
pub mod Naming
pub mod Slots
mod Tests
use fengnet.Base.{
  ℕ, zero, suc, ◌+◌, ◌-◌, ◌*◌, ◌/◌, ◌^◌, Bool, true, false, Option, none, some, List, [], ◌∷◌, leb,
  ltb, ◌==◌, if◌then◌else◌, get_or, set, replicate, compare, Ordering,
}

abbrev pub max_slot_size : ℕ
max_slot_size = 0x40000000

-- The sign of `strcmp`.
unfoldable pub strcmp : List ℕ → List ℕ → Ordering
strcmp [] [] = Ordering.eq
strcmp [] (y ∷ ys) = Ordering.lt
strcmp (x ∷ xs) [] = Ordering.gt
strcmp (x ∷ xs) (y ∷ ys) = elim (compare x y) [
  | Ordering.lt ↦ Ordering.lt
  | Ordering.eq ↦ strcmp xs ys
  | Ordering.gt ↦ Ordering.gt
]

-- `handle_name`.
pub record HandleName : Type 0 where
  pub name : List ℕ
  pub handle : ℕ

-- What `new handle_name[n]()` fills the array with.
abbrev pub zero_name : HandleName
zero_name = record { name = []; handle = 0 }

-- The fields of `handle_storage` that hold the names.
pub record NameTable : Type 0 where
  pub name_cap : ℕ
  pub name_count : ℕ
  pub name : List HandleName

-- Entry `i` of the array.
abbrev pub entry : NameTable → ℕ → HandleName
entry s i = get_or s.name i zero_name

-- `fengnet_handle_init`, the part for the names.
unfoldable pub init_names : NameTable
init_names = record { name_cap = 2; name_count = 0; name = replicate 2 zero_name }

-- How the loop of `fengnet_handle_findname` and `_insert_name` ends: at an entry with the name, at the
-- place where it belongs, or without fuel.
pub data Search : Type 0 where
  found : ℕ → Search
  absent : ℕ → Search
  no_fuel : Search

-- The loop, with `stop` for `end + 1` (`end` may be -1): `begin <= end` is `begin < stop`,
-- `(begin + end) / 2` is `(begin + stop - 1) / 2`, and `end = mid - 1` sets `stop` to `mid`.
unfoldable pub search_name : ℕ → ℕ → ℕ → List ℕ → NameTable → Search
search_name zero begin stop key s = no_fuel
search_name (suc fuel) begin stop key s =
    let mid = (begin + stop - 1) / 2 in
    let right = search_name fuel (mid + 1) stop key s in
    let left = search_name fuel begin mid key s in
    if ltb begin stop
    then elim (strcmp (entry s mid).name key) [
      | Ordering.eq ↦ found mid
      | Ordering.lt ↦ right
      | Ordering.gt ↦ left
    ]
    else absent begin

-- `fengnet_handle_findname`; the loop has fuel for every entry.
unfoldable pub findname : List ℕ → NameTable → ℕ
findname key s = elim (search_name (suc s.name_count) 0 s.name_count key s) [
  | found mid ↦ (entry s mid).handle
  | absent begin ↦ 0
  | no_fuel ↦ 0
]

-- The two loops of `_insert_name_before` into the new array: `rounds` entries of `s->name` from `i`
-- on go to the new array, moved up by `by`.
unfoldable pub copy_names : ℕ → ℕ → ℕ → List HandleName → List HandleName → List HandleName
copy_names zero i by old n = n
copy_names (suc rounds) i by old n =
    copy_names rounds (i + 1) by old (set n (i + by) (get_or old i zero_name))

-- The loop `for (i = name_count; i > before; i--)`, with the rounds left.
unfoldable pub shift_names : ℕ → ℕ → List HandleName → List HandleName
shift_names zero i n = n
shift_names (suc rounds) i n = shift_names rounds (i - 1) (set n i (get_or n (i - 1) zero_name))

-- The last three lines of `_insert_name_before`.
abbrev pub put_name : List ℕ → ℕ → ℕ → ℕ → List HandleName → NameTable → NameTable
put_name key handle before cap n s = record {
  name_cap = cap;
  name_count = s.name_count + 1;
  name = set n before (record { name = key; handle = handle });
}

-- `_insert_name_before`.
unfoldable pub insert_name_before : List ℕ → ℕ → ℕ → NameTable → Option NameTable
insert_name_before key handle before s =
    let cap = s.name_cap * 2 in
    let low = copy_names before 0 0 s.name (replicate cap zero_name) in
    let grown = copy_names (s.name_count - before) before 1 s.name low in
    let shifted = shift_names (s.name_count - before) s.name_count s.name in
    if leb s.name_cap s.name_count
    then (if leb cap max_slot_size then some (put_name key handle before cap grown s) else none)
    else some (put_name key handle before s.name_cap shifted s)

-- `_insert_name` and `fengnet_handle_namehandle`: the name, or NULL where it is taken already, and
-- the table.
unfoldable pub namehandle : List ℕ → ℕ → NameTable → Option (Option (List ℕ) × NameTable)
namehandle key handle s = elim (search_name (suc s.name_count) 0 s.name_count key s) [
  | found mid ↦ some (none, s)
  | absent begin ↦ elim (insert_name_before key handle begin s) [
    | none ↦ none
    | some s' ↦ some (some key, s')
  ]
  | no_fuel ↦ none
]
