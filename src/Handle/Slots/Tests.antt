-- ===== src/Handle/Slots/Tests.antt =====
-- Runs of the slots, and the theorems about them at concrete inputs.
use fengnet.Base.{
  ℕ, zero, suc, ◌%◌, ◌^◌, ◌<◌, ◌≡◌, ◌≢◌, refl, none, some, List, [], ◌∷◌, true, if◌then◌else◌, ◌==◌,
  arith, Ordering,
}
use fengnet.Handle.{NameTable, zero_name, init_names, entry, strcmp, findname}
use fengnet.Handle.Find.{IsTable}
use fengnet.Handle.Slots.{
  HandleStorage, slot_at, is_null, scan, rehash, expand, live, registered, register_loop,
  handle_register, matching, handle_grab, handle_retire, retire_names, handle_retireall,
  handle_init,
}
use fengnet.Handle.Slots.Table.{IsSlots}
use fengnet.Handle.Slots.Occupy.{Registered, assign}
use fengnet.Handle.Slots.Register.{Deletes, handle_register-Registered}
use fengnet.Handle.Slots.Forget.{lookup_name, used, findname-lookup_name}
use fengnet.Handle.Slots.Retire.{Retired, handle_retire-Retired}
use fengnet.Handle.Slots.RetireAll.{Empty, Assigned, handle_retireall-Empty}
use fengnet.Handle.Slots.Reach.{System, register, Reach, here, next, handles_unique}

-- Contexts 101 to 104 with the handles 1 to 4 of harbor 1, in a table that is full.
abbrev handles : ℕ → ℕ
handles ctx =
    if ctx == 101
    then 0x1000001
    else if ctx == 102
    then 0x1000002
    else if ctx == 103
    then 0x1000003
    else if ctx == 104
    then 0x1000004
    else 0

-- The names "a" of the first context and "b" of the second.
abbrev names : NameTable
names = record {
  name_cap = 2;
  name_count = 2;
  name =
      record { name = 97 ∷ []; handle = 0x1000001 }
      ∷ record { name = 98 ∷ []; handle = 0x1000002 }
      ∷ [];
}

abbrev full : HandleStorage
full = record {
  harbor = 0x1000000;
  handle_index = 5;
  slot_size = 4;
  slot = some 104 ∷ some 101 ∷ some 102 ∷ some 103 ∷ [];
  names = names;
}

-- A fifth context doubles the table and is put behind the others.
grown :
    handle_register handles 105 full
    ≡ registered 0x1000005
        (record {
          harbor = 0x1000000;
          handle_index = 6;
          slot_size = 8;
          slot = none ∷ some 101 ∷ some 102 ∷ some 103 ∷ some 104 ∷ some 105 ∷ none ∷ none ∷ [];
          names = names;
        })
        (104 ∷ 101 ∷ 102 ∷ 103 ∷ [])
unfolding handle_register register_loop scan expand rehash is_null live
grown = refl

-- Context 102 is retired with its name.
one_retired : handle_retire handles 0x1000002 full ≡ (
  true,
  record full {
    slot = some 104 ∷ some 101 ∷ none ∷ some 103 ∷ [];
    names = record names { name_count = 1 };
  },
  some 102,
)
unfolding handle_retire handle_grab matching retire_names
one_retired = refl

full_placed : (i ctx : ℕ) → slot_at full.slot i ≡ some ctx → handles ctx % 2 ^ 2 ≡ i
full_placed zero ctx e = ground arith
full_placed (suc zero) ctx e = ground arith
full_placed (suc (suc zero)) ctx e = ground arith
full_placed (suc (suc (suc zero))) ctx e = ground arith
full_placed (suc (suc (suc (suc i)))) ctx e = cc

full_absent : (i : ℕ) → slot_at full.slot i ≢ some 105
full_absent zero e = ground arith
full_absent (suc zero) e = ground arith
full_absent (suc (suc zero)) e = ground arith
full_absent (suc (suc (suc zero))) e = ground arith
full_absent (suc (suc (suc (suc i)))) e = cc

full-Assigned : Assigned handles full
full-Assigned zero ctx e = ground arith
full-Assigned (suc zero) ctx e = ground arith
full-Assigned (suc (suc zero)) ctx e = ground arith
full-Assigned (suc (suc (suc zero))) ctx e = ground arith
full-Assigned (suc (suc (suc (suc i)))) ctx e = cc

full-IsSlots : IsSlots handles 2 full
full-IsSlots = record {
  width = refl;
  some_bit = omega arith;
  small = omega arith;
  storage = refl;
  index_low = omega arith;
  index_high = omega arith;
  harbor_bits = omega arith;
  placed = full_placed;
}

names_order :
    (i j : ℕ) → i < j → j < 2 → strcmp (entry names i).name (entry names j).name ≡ Ordering.lt
unfolding strcmp
names_order zero (suc zero) lt h = refl
names_order zero zero lt h = absurd (omega arith)
names_order (suc i) (suc zero) lt h = absurd (omega arith)
names_order (suc i) zero lt h = absurd (omega arith)
names_order i (suc (suc j)) lt h = absurd (omega arith)

names-IsTable : IsTable names
names-IsTable = record {
  room = omega arith;
  some_cap = omega arith;
  storage = refl;
  sorted = names_order;
}

handle_register-Registered_example :
    (handle : ℕ) × (s' : HandleStorage) × (deleted : List ℕ) × (handle_register handles 105 full
      ≡ registered handle s' deleted)
    × Registered handles 105 handle full s'
    × Deletes full s' deleted
handle_register-Registered_example =
    handle_register-Registered handles 105 2 full full-IsSlots full_absent (omega arith)

findname-lookup_name_example : findname (98 ∷ []) names ≡ lookup_name (98 ∷ []) (used names)
findname-lookup_name_example = findname-lookup_name (98 ∷ []) names names-IsTable

second_found : handle_grab handles 0x1000002 full ≡ some 102
unfolding handle_grab matching
second_found = refl

handle_retire-Retired_example :
    (s' : HandleStorage) × (handle_retire handles 0x1000002 full ≡ (true, s', some 102))
    × Retired handles 2 0x1000002 full s'
handle_retire-Retired_example =
    handle_retire-Retired handles 2 0x1000002 102 full full-IsSlots names-IsTable second_found

handle_retireall-Empty_example :
    (s' : HandleStorage) × (handle_retireall 2 handles full ≡ some (s', live full.slot))
    × Empty s'
    × IsSlots handles 2 s'
handle_retireall-Empty_example = handle_retireall-Empty handles 2 0 full full-IsSlots full-Assigned

-- The first context of a new storage.
abbrev one : HandleStorage
one = record {
  harbor = 0x1000000;
  handle_index = 2;
  slot_size = 4;
  slot = none ∷ some 101 ∷ none ∷ none ∷ [];
  names = record { name_cap = 2; name_count = 0; name = zero_name ∷ zero_name ∷ [] };
}

first_registered : handle_register (λ c. 0) 101 (handle_init 1) ≡ registered 0x1000001 one []
unfolding handle_register register_loop scan is_null handle_init init_names
first_registered = refl

init_absent : (i : ℕ) → slot_at (handle_init 1).slot i ≢ some 101
unfolding handle_init
init_absent zero e = cc
init_absent (suc zero) e = cc
init_absent (suc (suc zero)) e = cc
init_absent (suc (suc (suc zero))) e = cc
init_absent (suc (suc (suc (suc i)))) e = cc

abbrev first : System
first = record { handles = assign (λ c. 0) 101 0x1000001; storage = one }

first-Reach : Reach (record { handles = λ c. 0; storage = handle_init 1 }) first
first-Reach = next here (register _ 101 0x1000001 one init_absent first_registered)

handles_unique_example :
    IsTable one.names
    × (◌≡◌ {A = ℕ} 1 1)
    × (handle_grab first.handles (first.handles 101) one ≡ some 101)
handles_unique_example = handles_unique 1 (λ c. 0) first 1 1 101 101 first-Reach refl refl refl
