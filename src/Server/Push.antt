-- ===== src/Server/Push.antt =====
-- `fengnet_context_push` of fengnet_server.cpp on a node that is well formed.
use fengnet.Base.{
  ℕ, ◌-◌, ◌^◌, ◌≤◌, ◌<◌, ◌≡◌, ◌≢◌, ◌⊎◌, inl, inr, refl, sym, ap, ◌∙◌, subst, Bool, true, false,
  Option, none, some, some-injective, List, [], ◌∷◌, ◌++◌, ◌==◌, arith, Bool-cases, Option-cases,
  ==_iff, ==_false, ==_refl,
}
use fengnet.Mq.{Message, MessageQueue}
use fengnet.Mq.Ring.{contents}
use fengnet.Mq.Global.{World, update, mq_push}
use fengnet.Mq.Global.Order.{body_of}
use fengnet.Mq.Global.Flag.{Scheduled, same_body, mq_push-Scheduled}
use fengnet.Handle.Slots.{handle_grab, matching, slot_at}
use fengnet.Server.{
  Context, Node, put, inc, dec, handle_of, handles, found, grabbed, context_grab, grab_live,
  grab_found, context_release, release_live, push_live, pushed, push_grabbed, release_after,
  succeed, context_push,
}

-- A context in a slot lives, and the slot has a reference to it, of which there are fewer than 2^32 - 1.
-- The queue of each live context lives.
pub record IsNode (n : Node) (ids : List ℕ) : Type 0 where
  pub scheduled : Scheduled n.mq ids
  pub owned :
      (a : ℕ) (c : Context) → n.ctx a ≡ some c → (q : MessageQueue) × (n.mq.mem c.queue ≡ some q)
  pub slotted :
      (i a : ℕ)
      → slot_at n.storage.slot i ≡ some a
      → (c : Context) × (n.ctx a ≡ some c) × (1 ≤ c.ref) × (c.ref < 2 ^ 32 - 1)

matching-some :
    (hs : ℕ → ℕ) (handle a : ℕ) (slot : Option ℕ)
    → matching hs handle slot ≡ some a
    → (slot ≡ some a) × (hs a ≡ handle)
unfolding matching
matching-some hs handle a none e = cc
matching-some hs handle a (some b) e = elim (Bool-cases (hs b == handle)) [
  | inl same ↦
      let here : b ≡ a = some-injective (rw same at e) in
      (ap (λ x. some x) here, subst (λ x. hs x ≡ handle) here ((==_iff (hs b) handle).0 same))
  | inr other ↦ cc (rw other at e)
]

-- What `fengnet_handle_grab` finds lives, and has the handle.
pub found_live :
    (n : Node) (ids : List ℕ) (handle a : ℕ)
    → IsNode n ids
    → found handle n ≡ some a
    → (c : Context) × (n.ctx a ≡ some c) × (c.handle ≡ handle) × (1 ≤ c.ref) × (c.ref < 2 ^ 32 - 1)
unfolding handle_grab handle_of
found_live n ids handle a v e =
    let (here, same) = matching-some (handles n) handle a _ e in
    let (c, live, low, high) = v.slotted _ a here in
    (c, live, ap handle_of (sym live) ∙ same, low, high)

-- The reference that a caller has.
abbrev pub with_ref : Context → Context
with_ref c = record c { ref = inc c.ref }

abbrev pub without_ref : Context → Context
without_ref c = record c { ref = dec c.ref }

pub ref_restored : (c : Context) → c.ref < 2 ^ 32 - 1 → without_ref (with_ref c) ≡ c
ref_restored c high = ap (λ r. record c { ref = r }) (omega arith)

pub updated : (f : ℕ → Option Context) (a : ℕ) (c : Context) → update f a (some c) a ≡ some c
updated f a c = rw (==_refl a) refl

-- A node whose mailboxes are `mq` and whose contexts are the same.
record IsWith (n : Node) (mq : World) (n' : Node) : Type 0 where
  pub same_ctx : (b : ℕ) → n'.ctx b ≡ n.ctx b
  pub same_storage : n'.storage ≡ n.storage
  pub same_mq : n'.mq ≡ mq
  pub same_total : n'.total ≡ n.total

-- To take a reference, to change the queues and to give the reference back.
abbrev borrowed : ℕ → Context → World → Node → Node
borrowed a c mq n = put a (without_ref (with_ref c)) (record (put a (with_ref c) n) { mq = mq })

module _ (n : Node) (a : ℕ) (c : Context) (live : n.ctx a ≡ some c) (low : 1 ≤ c.ref)
    (high : c.ref < 2 ^ 32 - 1) where
  borrowed-IsWith : (mq : World) → IsWith n mq (borrowed a c mq n)
  borrowed-IsWith mq = record {
    same_ctx = λ b. elim (Bool-cases (a == b)) [
      | inl e ↦
          rw e (ap (λ x. some x) (ref_restored c high) ∙ sym live ∙ ap n.ctx ((==_iff a b).0 e))
      | inr e ↦ rw e refl
    ];
    same_storage = refl;
    same_mq = refl;
    same_total = refl;
  }

  pub grab_lem : grab_found (some a) n ≡ some (some a, put a (with_ref c) n)
  unfolding grab_found grabbed context_grab grab_live
  grab_lem = ap (λ o. grabbed a (grab_live a o n)) live

  release_lem :
      (mq : World)
      → context_release a (record (put a (with_ref c) n) { mq = mq }) ≡ some (borrowed a c mq n)
  unfolding context_release release_live
  release_lem mq =
      let more : (inc c.ref == 1) ≡ false = ground arith in
      ap (λ o. release_live a o (record (put a (with_ref c) n) { mq = mq }))
        (updated n.ctx a (with_ref c))
      ∙ rw more refl

  push_lem :
      (handle : ℕ) (m : Message) (mq : World)
      → found handle n ≡ some a
      → mq_push c.queue m n.mq ≡ some mq
      → context_push handle m n ≡ some (true, borrowed a c mq n)
  unfolding context_push push_grabbed push_live pushed release_after succeed
  push_lem handle m mq e sent =
      let n1 : Node = put a (with_ref c) n in
      ap (λ o. push_grabbed m (grab_found o n)) e
      ∙ ap (push_grabbed m) grab_lem
      ∙ ap (λ o. succeed (release_after a (push_live o m n1))) (updated n.ctx a (with_ref c))
      ∙ ap (λ o. succeed (release_after a (pushed n1 o))) sent
      ∙ ap succeed (release_lem mq)

-- A node whose contexts are those of a well-formed node, with queues that live as before.
with-IsNode :
    (n : Node) (ids ids' : List ℕ) (mq : World) (n' : Node)
    → IsNode n ids
    → IsWith n mq n'
    → Scheduled mq ids'
    → ((b : ℕ) (q : MessageQueue)
        → n.mq.mem b ≡ some q
        → (q' : MessageQueue) × (mq.mem b ≡ some q'))
    → IsNode n' ids'
with-IsNode n ids ids' mq n' v k s live = record {
  scheduled = subst (λ w. Scheduled w ids') (sym k.same_mq) s;
  owned = λ a c e.
      let (q, at) = v.owned a c (sym (k.same_ctx a) ∙ e) in
      subst (λ (w : World). (q' : MessageQueue) × (w.mem c.queue ≡ some q')) (sym k.same_mq)
        (live c.queue q at);
  slotted = λ i a e.
      let (c, at, low, high) =
        v.slotted i a (sym (ap (λ st. slot_at st.slot i) k.same_storage) ∙ e) in
      (c, k.same_ctx a ∙ at, low, high);
}

-- What `fengnet_context_push` leaves when a context has the handle: the message at the end of the queue
-- of that context, and nothing else changed but links of other queues.
pub record IsPushed (n : Node) (handle : ℕ) (m : Message) (n' : Node) : Type 0 where
  pub at : ℕ
  pub grabbed : found handle n ≡ some at
  pub to : Context
  pub live : n.ctx at ≡ some to
  pub addressed : to.handle ≡ handle
  pub before : MessageQueue
  pub at_before : n.mq.mem to.queue ≡ some before
  pub after : MessageQueue
  pub at_after : n'.mq.mem to.queue ≡ some after
  pub appended : contents after ≡ contents before ++ (m ∷ [])
  pub others : (b : ℕ) → b ≢ to.queue → body_of n'.mq b ≡ body_of n.mq b
  pub same_ctx : (b : ℕ) → n'.ctx b ≡ n.ctx b
  pub same_storage : n'.storage ≡ n.storage
  pub same_total : n'.total ≡ n.total
  pub same_harbor : n'.harbor ≡ n.harbor
  pub ids : List ℕ
  pub well : IsNode n' ids

abbrev pub Pushes : Node → ℕ → Message → Option (Bool × Node) → Type 0
Pushes n handle m run =
    ((found handle n ≡ none) × (run ≡ some (false, n)))
    ⊎ ((n' : Node) × (run ≡ some (true, n')) × IsPushed n handle m n')

push_found :
    (n : Node) (ids : List ℕ) (handle a : ℕ) (m : Message)
    → IsNode n ids
    → found handle n ≡ some a
    → (n' : Node) × (context_push handle m n ≡ some (true, n')) × IsPushed n handle m n'
push_found n ids handle a m v e =
    let (c, live, same, low, high) = found_live n ids handle a v e in
    let (q, at) = v.owned a c live in
    let (mq, sent, sched, (q', at', app), others) =
      mq_push-Scheduled n.mq ids c.queue q m v.scheduled at in
    let k : IsWith n mq (borrowed a c mq n) = borrowed-IsWith n a c live low high mq in
    (
      borrowed a c mq n,
      push_lem n a c live low high handle m mq e sent,
      record {
        at = a;
        grabbed = e;
        to = c;
        live = live;
        addressed = same;
        before = q;
        at_before = at;
        after = q';
        at_after = at';
        appended = app;
        others = others;
        same_ctx = k.same_ctx;
        same_storage = refl;
        same_total = refl;
        same_harbor = refl;
        ids = _;
        well = with-IsNode n ids _ mq (borrowed a c mq n) v k sched (λ b r at_b.
            elim (Bool-cases (b == c.queue)) [
              | inl here ↦ (q', ap mq.mem ((==_iff b c.queue).0 here) ∙ at')
              | inr ne ↦
                  let (r', at_r, x) =
                    same_body mq n.mq b r at_b (sym (others b (==_false b c.queue ne))) in
                  (r', at_r)
            ]);
      },
    )

-- On a well-formed node `fengnet_context_push` fails no `assert` and frees nothing. Where no context has
-- the handle it returns -1 and changes nothing; else the message is at the end of the queue of the
-- context with that handle, the other queues hold what they held, the references are as before, and the
-- node is well formed.
pub context_push-Pushes :
    (n : Node) (ids : List ℕ) (handle : ℕ) (m : Message)
    → IsNode n ids
    → Pushes n handle m (context_push handle m n)
unfolding context_push grab_found push_grabbed
context_push-Pushes n ids handle m v = elim (Option-cases (found handle n)) [
  | inl e ↦ inl (e, ap (λ o. push_grabbed m (grab_found o n)) e)
  | inr (a, e) ↦ inr (push_found n ids handle a m v e)
]
