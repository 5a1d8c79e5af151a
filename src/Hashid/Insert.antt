-- ===== src/Hashid/Insert.antt =====
-- `hashid_insert` of service-src/hashid.h: it finds a free node and puts it into the chain of its id.
use fengnet.Base.{ℕ, ◌+◌, ◌^◌, ◌≤◌, ◌<◌, ◌≡◌, ◌≢◌, ◌↔◌, refl, ap, ◌∙◌, none, some, List, arith}
use fengnet.Databuffer.{ℤ, pos}
use fengnet.Hashid.{
  HashidNode, Hashid, node_at, bucket, find_free, take_node, insert_found, insert_node,
  hashid_insert,
}
use fengnet.Hashid.Table.{Holds, IsHashid, free_id, some_free}
use fengnet.Hashid.Free.{find_free_lem, met}
use fengnet.Hashid.Front.{with_front, new_here, new_other, busy, kept_holds, new-IsHashid}

insert_at :
    (hi : Hashid) (n c : ℕ)
    → find_free hi.cap 0 hi n ≡ some c
    → (node_at hi.id c).next ≡ none
    → hashid_insert hi n ≡ some (c, take_node hi n c)
unfolding hashid_insert insert_found insert_node
insert_at hi n c run next = ap (insert_found hi n) run ∙ ap (insert_node hi n c) next

-- A table in which `c` was free and now has the id, and every other id has the node it had.
pub record IsInserted (hi : Hashid) (n c : ℕ) (hi' : Hashid) : Type 0 where
  pub was_free : (node_at hi.id c).id ≡ free_id
  pub others : (i : ℕ) → i ≢ c → (node_at hi'.id i).id ≡ (node_at hi.id i).id
  pub holds : Holds hi' (pos n) c
  pub kept : (id : ℤ) (i : ℕ) → id ≢ pos n → Holds hi' id i ↔ Holds hi id i
  pub same_cap : hi'.cap ≡ hi.cap
  pub chains : ℕ → List ℕ
  pub well : IsHashid hi' chains

-- On a well-formed table that is not full, with an id that no node has and that stays an `int` when
-- the capacity is added, `hashid_insert` fails no assert: it gives a node that was free to the id, every
-- other id keeps its node, and the table stays well formed.
pub hashid_insert-IsInserted :
    (hi : Hashid) (chains : ℕ → List ℕ) (n : ℕ)
    → IsHashid hi chains
    → hi.count < hi.cap
    → n + hi.cap ≤ 2 ^ 31
    → ((i : ℕ) → ¬ Holds hi (pos n) i)
    → (c : ℕ) × (hi' : Hashid) × (hashid_insert hi n ≡ some (c, hi')) × IsInserted hi n c hi'
hashid_insert-IsInserted hi chains n t room small absent =
    let (f, inside, free) = some_free hi.id (omega (arith, t.counted, t.nodes)) in
    let (k, low, here) = met hi.cap n f (omega (arith, t.nodes)) in
    let (c, run, lt, is_free) =
      find_free_lem hi.cap 0 hi n k (omega arith) (omega arith) (omega arith) (omega arith)
        (ap (λ j. (node_at hi.id j).id) here ∙ free) in
    (
      c,
      take_node hi n c,
      insert_at hi n c run (t.unlinked c lt is_free),
      record {
        was_free = is_free;
        others = λ i ne.
            ap (λ (k : HashidNode). k.id) (new_other hi chains t n c lt is_free absent i ne);
        holds = record {
          inside = lt;
          its_id = ap (λ (k : HashidNode). k.id) (new_here hi chains t n c lt is_free absent);
          in_use = busy hi chains t n c lt is_free absent;
        };
        kept = kept_holds hi chains t n c lt is_free absent;
        same_cap = refl;
        chains = with_front chains (bucket (pos n) hi.hashmod) c;
        well = new-IsHashid hi chains t n c lt is_free absent;
      },
    )
