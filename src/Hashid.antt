-- ===== src/Hashid.antt =====
-- service-src/hashid.h: a hash table from the ids of sockets to places in an array of `cap` nodes. A
-- pointer to a node is its index, and an index that is returned as -1 is `none`.
pub mod Table
pub mod Lookup
pub mod Cleared
mod Cut
pub mod Remove
mod Free
mod Front
pub mod Insert
pub mod Init
mod Tests
use fengnet.Base.{
  ℕ, zero, suc, ◌+◌, ◌-◌, ◌*◌, ◌%◌, ◌^◌, bit_and, Bool, true, false, Option, none, some, List, leb,
  ltb, ◌==◌, if◌then◌else◌, get_or, set, replicate,
}
use fengnet.Databuffer.{ℤ, pos, negsuc}

-- `hashid_node`.
pub record HashidNode : Type 0 where
  pub id : ℤ
  pub next : Option ℕ

-- `hashid`, with its two arrays.
pub record Hashid : Type 0 where
  pub hashmod : ℕ
  pub cap : ℕ
  pub count : ℕ
  pub id : List HashidNode
  pub hash : List (Option ℕ)

-- A node with the id -1 and no next.
abbrev pub no_node : HashidNode
no_node = record { id = negsuc 0; next = none }

abbrev pub node_at : List HashidNode → ℕ → HashidNode
node_at nodes i = get_or nodes i no_node

-- `a == b` on `int`.
unfoldable pub eq_int : ℤ → ℤ → Bool
eq_int (pos a) (pos b) = a == b
eq_int (negsuc a) (negsuc b) = a == b
eq_int (pos a) (negsuc b) = false
eq_int (negsuc a) (pos b) = false

-- `id & hi->hashmod`: of a negative number the bits of its complement are taken away.
unfoldable pub bucket : ℤ → ℕ → ℕ
bucket (pos n) hashmod = bit_and n hashmod
bucket (negsuc n) hashmod = hashmod - bit_and n hashmod

-- `while (hashcap < max) hashcap *= 2`, with fuel.
unfoldable pub hash_capacity : ℕ → ℕ → ℕ → ℕ
hash_capacity zero hashcap max = hashcap
hash_capacity (suc fuel) hashcap max =
    let further = hash_capacity fuel (hashcap * 2) max in
    if ltb hashcap max then further else hashcap

-- `hashid_init` for at most 2^30 nodes: doubling 26 times reaches them, and once more leaves the `int`.
unfoldable pub hashid_init : ℕ → Hashid
hashid_init max =
    let hashcap = hash_capacity 26 16 max in
    record {
      hashmod = hashcap - 1;
      cap = max;
      count = 0;
      id = replicate max no_node;
      hash = replicate hashcap none;
    }

-- The loop of `hashid_lookup` from the pointer `c` on, with fuel; `none` is out of fuel.
unfoldable pub lookup_loop : ℕ → Hashid → ℤ → Option ℕ → Option (Option ℕ)
lookup_loop fuel hi id none = some none
lookup_loop zero hi id (some c) = none
lookup_loop (suc fuel) hi id (some c) =
    let further = lookup_loop fuel hi id (node_at hi.id c).next in
    if eq_int (node_at hi.id c).id id then some (some c) else further

-- `hashid_lookup`; a chain has at most as many nodes as there are.
unfoldable pub hashid_lookup : Hashid → ℤ → Option (Option ℕ)
hashid_lookup hi id = lookup_loop hi.cap hi id (get_or hi.hash (bucket id hi.hashmod) none)

-- What `_clear:` does to the node.
abbrev pub clear_node : ℕ → Hashid → Hashid
clear_node c hi = record hi { id = set hi.id c no_node; count = hi.count - 1 }

-- `c->next = temp->next`.
abbrev pub unlink : ℕ → ℕ → Hashid → Hashid
unlink c temp hi = record hi {
  id = set hi.id c (record { id = (node_at hi.id c).id; next = (node_at hi.id temp).next });
}

-- The `while` of `hashid_remove` at the node `c` with the pointer `c->next`.
unfoldable pub remove_loop : ℕ → Hashid → ℤ → ℕ → Option ℕ → Option (Option ℕ × Hashid)
remove_loop fuel hi id c none = some (none, hi)
remove_loop zero hi id c (some temp) = none
remove_loop (suc fuel) hi id c (some temp) =
    let further = remove_loop fuel hi id temp (node_at hi.id temp).next in
    if eq_int (node_at hi.id temp).id id
    then some (some temp, clear_node temp (unlink c temp hi))
    else further

-- The rest of `hashid_remove` for the first node of the chain.
unfoldable pub remove_from : Hashid → ℤ → Option ℕ → Option (Option ℕ × Hashid)
remove_from hi id none = some (none, hi)
remove_from hi id (some c) =
    let next = (node_at hi.id c).next in
    let further = remove_loop hi.cap hi id c next in
    if eq_int (node_at hi.id c).id id
    then some (some c, clear_node c (record hi { hash = set hi.hash (bucket id hi.hashmod) next }))
    else further

-- `hashid_remove`.
unfoldable pub hashid_remove : Hashid → ℤ → Option (Option ℕ × Hashid)
hashid_remove hi id = remove_from hi id (get_or hi.hash (bucket id hi.hashmod) none)

-- The loop of `hashid_insert`: the first free index from `id % cap` on. `none` where there is none,
-- and where `i + id` leaves the `int`.
unfoldable pub find_free : ℕ → ℕ → Hashid → ℕ → Option ℕ
find_free zero i hi id = none
find_free (suc rounds) i hi id =
    let index = (i + id) % hi.cap in
    let further = find_free rounds (suc i) hi id in
    if leb (2 ^ 31) (i + id)
    then none
    else if eq_int (node_at hi.id index).id (negsuc 0)
    then some index
    else further

-- The pointer that `c->next` gets.
unfoldable pub link_next : Option ℕ → Option ℕ → Option ℕ
link_next none next = next
link_next (some first) next = some first

-- What follows the loop, for the node that it found.
abbrev pub take_node : Hashid → ℕ → ℕ → Hashid
take_node hi id c =
    let h = bucket (pos id) hi.hashmod in
    record hi {
      count = hi.count + 1;
      id =
          set hi.id c (record {
            id = pos id;
            next = link_next (get_or hi.hash h none) (node_at hi.id c).next;
          });
      hash = set hi.hash h (some c);
    }

-- `assert(c->next == NULL)`, and what follows it.
unfoldable pub insert_node : Hashid → ℕ → ℕ → Option ℕ → Option (ℕ × Hashid)
insert_node hi id c none = some (c, take_node hi id c)
insert_node hi id c (some next) = none

-- What follows the loop, with `assert(c)`.
unfoldable pub insert_found : Hashid → ℕ → Option ℕ → Option (ℕ × Hashid)
insert_found hi id none = none
insert_found hi id (some c) = insert_node hi id c (node_at hi.id c).next

-- `hashid_insert` of an id that is not negative; `none` is a failed `assert` or an overflow.
unfoldable pub hashid_insert : Hashid → ℕ → Option (ℕ × Hashid)
hashid_insert hi id = insert_found hi id (find_free hi.cap 0 hi id)

-- `hashid_full`.
unfoldable pub hashid_full : Hashid → Bool
hashid_full hi = hi.count == hi.cap
