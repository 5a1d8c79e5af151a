-- ===== src/Mq/Global/Flag.antt =====
-- The mark `in_global` of fengnet_mq.cpp: a queue is linked into the global queue at most once, so
-- the `assert`s of the global queue hold whatever the services send.
use fengnet.Base.{
  ℕ, ◌≡◌, ◌≢◌, ◌⊎◌, refl, ap, ◌∙◌, sym, subst, true, false, Option, none, some, List, [], ◌∷◌, ◌++◌,
  inl, inr, ◌==◌, if◌then◌else◌, ==_iff, ==_false, ne→==_false, Bool-cases, arith,
}
use fengnet.Mq.{Message, MessageQueue, enqueue, store_tail, expand_queue, mq_in_global}
use fengnet.Mq.Ring.{IsValid, contents, enqueue-contents}
use fengnet.Mq.Global.{World, write, mq_push, globalmq_push}
use fengnet.Chains.{elem, elem-append, Linked-frame}
use fengnet.Mq.Global.Order.{IsGlobal, link_of, body_of, push-IsGlobal}

-- Every queue is a valid ring; what is linked carries the mark, and what is not has no link.
pub record Scheduled (w : World) (ids : List ℕ) : Type 0 where
  pub global : IsGlobal w ids
  pub loose : (b : ℕ) (q : MessageQueue) → w.mem b ≡ some q → elem b ids ≡ false → q.next ≡ none
  pub flagged :
      (b : ℕ) (q : MessageQueue) → w.mem b ≡ some q → elem b ids ≡ true → q.in_global ≡ mq_in_global
  pub rings : (b : ℕ) (q : MessageQueue) → w.mem b ≡ some q → IsValid q

abbrev unlinked : MessageQueue → MessageQueue
unlinked q = record q { next = none }

-- A queue that lives after a step which keeps bodies lived before it, with the same body.
pub same_body :
    (w w' : World) (b : ℕ) (r : MessageQueue)
    → w'.mem b ≡ some r
    → body_of w' b ≡ body_of w b
    → (r' : MessageQueue) × (w.mem b ≡ some r') × (unlinked r ≡ unlinked r')
same_body w w' b r f e = go (w.mem b) refl
  where
    go :
        (o : Option MessageQueue)
        → w.mem b ≡ o
        → (r' : MessageQueue) × (w.mem b ≡ some r') × (unlinked r ≡ unlinked r')
    go none g = absurd (ground (arith, f, e, g))
    go (some r') g = (r', g, ground (arith, f, e, g))

ring_body : (r r' : MessageQueue) → unlinked r ≡ unlinked r' → IsValid r' → IsValid r
ring_body r r' e v =
    let u : IsValid (unlinked r') = record {
      head_in = v.head_in;
      tail_in = v.tail_in;
      storage = v.storage;
    } in
    let t = subst IsValid (sym e) u in
    record { head_in = t.head_in; tail_in = t.tail_in; storage = t.storage }

module _ (w : World) (ids : List ℕ) (s : Scheduled w ids) (a : ℕ) (q : MessageQueue)
    (live : w.mem a ≡ some q) where
  -- A queue written back with its link, and with its mark where it is linked.
  write-Scheduled :
      (q' : MessageQueue)
      → IsValid q'
      → q'.next ≡ q.next
      → (elem a ids ≡ true → q'.in_global ≡ mq_in_global)
      → Scheduled (write a q' w) ids
  write-Scheduled q' v keeps mark = record {
    global = record {
      linked =
          Linked-frame (link_of w) (link_of (write a q' w)) w.global.head ids (λ b i. links b)
            s.global.linked;
      at_tail = s.global.at_tail;
      distinct = s.global.distinct;
    };
    loose = λ b r e out. new_loose b r (written b r e) out;
    flagged = λ b r e i. new_flagged b r (written b r e) i;
    rings = λ b r e. new_ring b r (written b r e);
  }
    where
      links : (b : ℕ) → link_of w b ≡ link_of (write a q' w) b
      links b = elim (Bool-cases (a == b)) [
        | inl e ↦
            subst (λ x. link_of w x ≡ link_of (write a q' w) x) ((==_iff a b).0 e)
              (ground (arith, live, keeps))
        | inr ne ↦ ground (arith, ne)
      ]

      Source : ℕ → MessageQueue → Type 0
      Source b r = ((a ≡ b) × (q' ≡ r)) ⊎ (w.mem b ≡ some r)

      written : (b : ℕ) (r : MessageQueue) → (write a q' w).mem b ≡ some r → Source b r
      written b r e = elim (Bool-cases (a == b)) [
        | inl same ↦ inl ((==_iff a b).0 same, ground (arith, same, e))
        | inr ne ↦ inr (ground (arith, ne, e))
      ]

      new_loose : (b : ℕ) (r : MessageQueue) → Source b r → elem b ids ≡ false → r.next ≡ none
      new_loose b r (inl (at_a, e)) out =
          ap (λ (x : MessageQueue). x.next) (sym e)
          ∙ keeps
          ∙ s.loose a q live (ap (λ x. elem x ids) at_a ∙ out)
      new_loose b r (inr e) out = s.loose b r e out

      new_flagged :
          (b : ℕ) (r : MessageQueue) → Source b r → elem b ids ≡ true → r.in_global ≡ mq_in_global
      new_flagged b r (inl (at_a, e)) i =
          ap (λ (x : MessageQueue). x.in_global) (sym e) ∙ mark (ap (λ x. elem x ids) at_a ∙ i)
      new_flagged b r (inr e) i = s.flagged b r e i

      new_ring : (b : ℕ) (r : MessageQueue) → Source b r → IsValid r
      new_ring b r (inl (at_a, e)) = subst IsValid e v
      new_ring b r (inr e) = s.rings b r e

  -- A marked queue that is not linked yet goes to the end of the global queue.
  push-Scheduled :
      q.in_global ≡ mq_in_global
      → elem a ids ≡ false
      → (w' : World) × (globalmq_push a w ≡ some w')
        × Scheduled w' (ids ++ (a ∷ []))
        × ((b : ℕ) → body_of w' b ≡ body_of w b)
  push-Scheduled mark fresh =
      let (w', e, g, bodies, links) =
        push-IsGlobal ids w a q s.global live (s.loose a q live fresh) fresh in
      (
        w',
        e,
        record {
          global = g;
          loose = λ b r f out.
              let o : elem b ids ≡ false = ground (arith, out, elem-append b ids a) in
              let (r', at_b, same) = same_body w w' b r f (bodies b) in
              ground (arith, links b o, f, at_b, s.loose b r' at_b o);
          flagged = λ b r f i.
              let (r', at_b, same) = same_body w w' b r f (bodies b) in
              ap (λ (x : MessageQueue). x.in_global) same
              ∙ marked b r' at_b (ground (arith, i, elem-append b ids a));
          rings = λ b r f.
              let (r', at_b, same) = same_body w w' b r f (bodies b) in
              ring_body r r' same (s.rings b r' at_b);
        },
        bodies,
      )
    where
      marked :
          (b : ℕ) (r' : MessageQueue)
          → w.mem b ≡ some r'
          → (if elem b ids then true else (b == a)) ≡ true
          → r'.in_global ≡ mq_in_global
      marked b r' at_b i = elim (Bool-cases (elem b ids)) [
        | inl old ↦ s.flagged b r' at_b old
        | inr new ↦
            let here : b ≡ a = (==_iff b a).0 (rw new at i) in
            ground (arith, here, at_b, live, mark, ap w.mem here)
      ]

in_global-enqueue : (q : MessageQueue) (m : Message) → (enqueue q m).in_global ≡ q.in_global
unfolding enqueue store_tail expand_queue
in_global-enqueue q m = ground arith

next-enqueue : (q : MessageQueue) (m : Message) → (enqueue q m).next ≡ q.next
unfolding enqueue store_tail expand_queue
next-enqueue q m = ground arith

-- What `fengnet_mq_push` leaves behind: a schedule, with the message at the end of its queue.
abbrev pub Sent : World → List ℕ → ℕ → MessageQueue → Message → Type 0
Sent w ids a q m =
    (w' : World) × (mq_push a m w ≡ some w')
    × Scheduled w' (if q.in_global == 0 then ids ++ (a ∷ []) else ids)
    × ((q' : MessageQueue) × (w'.mem a ≡ some q') × (contents q' ≡ contents q ++ (m ∷ [])))
    × ((b : ℕ) → b ≢ a → body_of w' b ≡ body_of w b)

-- A write leaves the other queues as they are.
write_other :
    (w : World) (a b : ℕ) (q : MessageQueue) → b ≢ a → body_of (write a q w) b ≡ body_of w b
write_other w a b q ne = rw (body_of, ne→==_false a b (λ e. ne (sym e))) refl

module _ (w : World) (ids : List ℕ) (a : ℕ) (q : MessageQueue) (m : Message) (s : Scheduled w ids)
    (live : w.mem a ≡ some q) where
  push_ring : IsValid (enqueue q m) × (contents (enqueue q m) ≡ contents q ++ (m ∷ []))
  push_ring = enqueue-contents q m (s.rings a q live)

  push_unmarked : q.in_global ≡ 0 → Sent w ids a q m
  unfolding mq_push
  push_unmarked clear =
      let (w', e, s', bodies) = push-Scheduled w1 ids s1 a q1 live1 refl out in
      let (r, at_a, same) = same_body w' w1 a q1 live1 (sym (bodies a)) in
      (
        w',
        ground (arith, live, clear, in_global-enqueue q m, e),
        subst (Scheduled w') (sym longer) s',
        (r, at_a, sym (ap contents same) ∙ push_ring.1),
        λ b ne. bodies b ∙ write_other w a b q1 ne,
      )
    where
      q1 : MessageQueue
      q1 = record (enqueue q m) { in_global = mq_in_global }

      longer : (if q.in_global == 0 then ids ++ (a ∷ []) else ids) ≡ ids ++ (a ∷ [])
      longer = ap (λ b. if b then ids ++ (a ∷ []) else ids) ((==_iff q.in_global 0).1 clear)

      w1 : World
      w1 = write a q1 w

      live1 : w1.mem a ≡ some q1
      live1 = ground arith

      out : elem a ids ≡ false
      out = elim (Bool-cases (elem a ids)) [
        | inl i ↦ absurd (omega (arith, s.flagged a q live i, clear))
        | inr o ↦ o
      ]

      s1 : Scheduled w1 ids
      s1 =
          write-Scheduled w ids s a q live q1
            (record {
              head_in = push_ring.0.head_in;
              tail_in = push_ring.0.tail_in;
              storage = push_ring.0.storage;
            })
            (next-enqueue q m) (λ i. refl)

  push_marked : q.in_global ≢ 0 → Sent w ids a q m
  unfolding mq_push
  push_marked set = (
    write a (enqueue q m) w,
    ground (arith, live, set, in_global-enqueue q m),
    rw (ne→==_false q.in_global 0 set) (
        write-Scheduled w ids s a q live (enqueue q m) push_ring.0 (next-enqueue q m)
          (λ i. in_global-enqueue q m ∙ s.flagged a q live i)),
    (enqueue q m, ground arith, push_ring.1),
    λ b ne. write_other w a b (enqueue q m) ne,
  )

-- `fengnet_mq_push` to a live queue never fails an `assert`. The message goes to the end of the
-- queue; the queue goes to the end of the global queue exactly when its mark was clear, no queue is
-- ever linked twice, and of the other queues only links change.
pub mq_push-Scheduled :
    (w : World) (ids : List ℕ) (a : ℕ) (q : MessageQueue) (m : Message)
    → Scheduled w ids
    → w.mem a ≡ some q
    → Sent w ids a q m
mq_push-Scheduled w ids a q m s live = elim (Bool-cases (q.in_global == 0)) [
  | inl clear ↦ push_unmarked w ids a q m s live ((==_iff q.in_global 0).0 clear)
  | inr set ↦ push_marked w ids a q m s live (==_false q.in_global 0 set)
]
