-- ===== src/Hashid/Tests.antt =====
-- Runs of the table of service-src/hashid.h, and the theorems about it at concrete inputs.
use fengnet.Base.{
  ℕ, ◌≡◌, refl, sym, ap, ◌∙◌, subst, some, none, Option, List, [], ◌∷◌, some-injective, arith,
}
use fengnet.Databuffer.{pos}
use fengnet.Hashid.{
  Hashid, no_node, eq_int, bucket, hash_capacity, hashid_init, link_next, find_free, insert_node,
  insert_found, hashid_lookup, lookup_loop, hashid_insert, hashid_remove,
}
use fengnet.Hashid.Table.{IsHashid}
use fengnet.Hashid.Lookup.{Finds, hashid_lookup-Finds}
use fengnet.Hashid.Remove.{RemoveResult, hashid_remove-RemoveResult}
use fengnet.Hashid.Insert.{IsInserted, hashid_insert-IsInserted}
use fengnet.Hashid.Init.{IsFresh, hashid_init-IsFresh}

two-IsFresh : IsFresh 2 (hashid_init 2)
two-IsFresh = hashid_init-IsFresh 2 (omega arith)

hashid_insert-IsInserted_example :
    (c : ℕ) × (hi : Hashid) × (hashid_insert (hashid_init 2) 21 ≡ some (c, hi))
    × IsInserted (hashid_init 2) 21 c hi
unfolding hashid_init
hashid_insert-IsInserted_example =
    hashid_insert-IsInserted (hashid_init 2) (λ b. []) 21 two-IsFresh.well (omega arith)
      (omega arith) (two-IsFresh.empty (pos 21))

-- The table with one id, in node 1 and bucket 5.
abbrev one : Hashid
one = record {
  hashmod = 15;
  cap = 2;
  count = 1;
  id = no_node ∷ record { id = pos 21; next = none } ∷ [];
  hash =
      none
      ∷ none
      ∷ none
      ∷ none
      ∷ none
      ∷ some 1
      ∷ none
      ∷ none
      ∷ none
      ∷ none
      ∷ none
      ∷ none
      ∷ none
      ∷ none
      ∷ none
      ∷ none
      ∷ [];
}

one_inserted : hashid_insert (hashid_init 2) 21 ≡ some (1, one)
unfolding hashid_insert hashid_init hash_capacity find_free insert_found insert_node link_next
    eq_int bucket
one_inserted = refl

one-IsHashid : (chains : ℕ → List ℕ) × IsHashid one chains
unfolding hashid_init
one-IsHashid =
    let (c, hi, run, k) =
      hashid_insert-IsInserted (hashid_init 2) (λ b. []) 21 two-IsFresh.well (omega arith)
        (omega arith) (two-IsFresh.empty (pos 21)) in
    subst (λ h. (chains : ℕ → List ℕ) × IsHashid h chains)
      (ap (λ (p : ℕ × Hashid). p.1) (some-injective (sym run ∙ one_inserted))) (k.chains, k.well)

hashid_lookup-Finds_example :
    (r : Option ℕ) × (hashid_lookup one (pos 21) ≡ some r) × Finds one (pos 21) r
hashid_lookup-Finds_example = hashid_lookup-Finds one one-IsHashid.0 (pos 21) one-IsHashid.1

found_in_node : hashid_lookup one (pos 21) ≡ some (some 1)
unfolding hashid_lookup lookup_loop bucket eq_int
found_in_node = refl

hashid_remove-RemoveResult_example : RemoveResult one (pos 21) (hashid_remove one (pos 21))
hashid_remove-RemoveResult_example =
    hashid_remove-RemoveResult one one-IsHashid.0 (pos 21) one-IsHashid.1
