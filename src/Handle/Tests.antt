-- ===== src/Handle/Tests.antt =====
-- Runs of the name table, and the theorems about it at concrete inputs.
use fengnet.Base.{ℕ, zero, suc, ◌^◌, ◌<◌, ◌≡◌, refl, ap, some, [], ◌∷◌, Ordering, arith, get_or}
use fengnet.Handle.{
  NameTable, entry, zero_name, init_names, strcmp, search_name, namehandle, insert_name_before,
  copy_names, shift_names,
}
use fengnet.Handle.Find.{IsTable}
use fengnet.Handle.Lookup.{Free}
use fengnet.Handle.Naming.{Named, namehandle-Named}

-- The names "a" and "c", in an array that is full.
abbrev two_names : NameTable
two_names = record {
  name_cap = 2;
  name_count = 2;
  name = record { name = 97 ∷ []; handle = 7 } ∷ record { name = 99 ∷ []; handle = 8 } ∷ [];
}

two_names_order :
    (i j : ℕ)
    → i < j
    → j < 2
    → strcmp (entry two_names i).name (entry two_names j).name ≡ Ordering.lt
unfolding strcmp
two_names_order zero (suc zero) lt h = refl
two_names_order zero zero lt h = absurd (omega arith)
two_names_order (suc i) (suc zero) lt h = absurd (omega arith)
two_names_order (suc i) zero lt h = absurd (omega arith)
two_names_order i (suc (suc j)) lt h = absurd (omega arith)

two_names-IsTable : IsTable two_names
two_names-IsTable = record {
  room = omega arith;
  some_cap = omega arith;
  storage = refl;
  sorted = two_names_order;
}

b-Free : Free (98 ∷ []) two_names
b-Free zero h e = omega (arith, ap (λ n. get_or n 0 0) e)
b-Free (suc zero) h e = omega (arith, ap (λ n. get_or n 0 0) e)
b-Free (suc (suc i)) h e = absurd (omega arith)

-- The name "b" goes between the two, into an array of four.
named_b :
    namehandle (98 ∷ []) 9 two_names
    ≡ some (
      some (98 ∷ []),
      record {
        name_cap = 4;
        name_count = 3;
        name =
            record { name = 97 ∷ []; handle = 7 }
            ∷ record { name = 98 ∷ []; handle = 9 }
            ∷ record { name = 99 ∷ []; handle = 8 }
            ∷ zero_name
            ∷ [];
      },
    )
unfolding namehandle search_name strcmp insert_name_before copy_names shift_names
named_b = refl

first_name :
    namehandle (98 ∷ []) 9 init_names
    ≡ some (
      some (98 ∷ []),
      record {
        name_cap = 2;
        name_count = 1;
        name = record { name = 98 ∷ []; handle = 9 } ∷ zero_name ∷ [];
      },
    )
unfolding namehandle search_name insert_name_before shift_names init_names
first_name = refl

namehandle-Named_example :
    (s' : NameTable) × (namehandle (98 ∷ []) 9 two_names ≡ some (some (98 ∷ []), s'))
    × Named (98 ∷ []) 9 two_names s'
namehandle-Named_example = namehandle-Named (98 ∷ []) 9 two_names two_names-IsTable b-Free few
  where
    few : two_names.name_count < 2 ^ 29
    few = omega arith
