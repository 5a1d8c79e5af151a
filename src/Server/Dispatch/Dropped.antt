-- ===== src/Server/Dispatch/Dropped.antt =====
-- What `fengnet_context_message_dispatch` of fengnet_server.cpp does with the messages of a service that
-- has gone: `drop_message`.
use fengnet.Base.{
  ℕ, ◌≡◌, ◌≢◌, refl, sym, ap, ◌∙◌, subst, false, Option, none, some, List, [], ◌∷◌, ◌++◌,
  append-nil, append_assoc, arith, ne→==_false,
}
use fengnet.Databuffer.{int32, negsuc}
use fengnet.Mq.{Message}
use fengnet.Server.{Node}
use fengnet.Server.Harbor.{message_isremote}
use fengnet.Server.Push.{IsNode}
use fengnet.Server.Send.{Event, Sent, delete, send}
use fengnet.Server.Send.Owner.{
  Settled, too_large, no_receiver, only_session, delivered, send-Settled,
}
use fengnet.Server.Dispatch.{Worker}
use fengnet.Server.Dispatch.Next.{error_sent, drop_message, and_drop, drop_all}

-- The data of messages deleted, in order.
abbrev pub deletes : List Message → List Event
deletes [] = []
deletes (m ∷ ms) = delete m.data_ptr ++ deletes ms

-- An error that is sent leaves a well-formed node and no buffer.
record IsTold (n : Node) (run : Option Sent) : Type 0 where
  after : Sent
  ends : run ≡ some after
  nothing : after.events ≡ []
  same_harbor : after.node.harbor ≡ n.harbor
  ids : List ℕ
  well : IsNode after.node ids

Settled-IsTold :
    (rmsg source destination : ℕ) (n : Node) (ids : List ℕ) (run : Option Sent)
    → IsNode n ids
    → Settled 0 source destination 7 0 0 0 n run
    → IsTold n run
Settled-IsTold rmsg source destination n ids run v (too_large le e) = absurd (omega arith)
Settled-IsTold rmsg source destination n ids run v (no_receiver gone e) = record {
  after = record { value = negsuc 0; node = n; events = [] };
  ends = e;
  nothing = refl;
  same_harbor = refl;
  ids = ids;
  well = v;
}
Settled-IsTold rmsg source destination n ids run v (only_session zero_destination null e) = record {
  after = record { value = int32 0; node = n; events = [] };
  ends = e;
  nothing = refl;
  same_harbor = refl;
  ids = ids;
  well = v;
}
Settled-IsTold rmsg source destination n ids run v (delivered n' k e) = record {
  after = record { value = int32 0; node = n'; events = [] };
  ends = e;
  nothing = refl;
  same_harbor = k.same_harbor;
  ids = k.ids;
  well = k.well;
}

-- Each message has a source of the node with this harbor.
abbrev pub AllNear : ℕ → List Message → Type 0
AllNear harbor [] = Unit
AllNear harbor (m ∷ ms) = (message_isremote harbor m.source ≡ some false) × AllNear harbor ms

-- All messages are dropped: the data of each is deleted once, in order, and no other buffer is made or
-- deleted.
pub record IsDropped {S : Type 0} (ms : List Message) (w : Worker S) (run : Option (Worker S))
    : Type 0 where
  pub after : Worker S
  pub ends : run ≡ some after
  pub freed : after.events ≡ w.events ++ deletes ms
  pub ids : List ℕ
  pub well : IsNode after.node ids

module _ {S : Type 0} (heap : ℕ → ℕ) (handle : ℕ) (known : handle ≢ 0) where
  dropped_one :
      (m : Message) (w : Worker S) (told : Sent)
      → send 0 (heap m.source) none handle m.source 7 0 0 0 w.node ≡ some told
      → drop_message heap handle m w
        ≡ some
            (record w { node = told.node; events = (w.events ++ delete m.data_ptr) ++ told.events })
  unfolding drop_message error_sent
  dropped_one m w told e =
      let w' : Worker S = record w { events = w.events ++ delete m.data_ptr } in
      rw (ne→==_false handle 0 known) (ap (error_sent w') e)

  -- The messages of a service that has gone, from sources of the same node, which is well formed, are
  -- dropped without a failed `assert`: the data of each is deleted once, in order, no other buffer
  -- is made or deleted, and the node is well formed.
  pub drop_all-IsDropped :
      (ms : List Message) (w : Worker S) (ids : List ℕ)
      → IsNode w.node ids
      → AllNear w.node.harbor ms
      → IsDropped ms w (drop_all heap handle ms w)
  unfolding drop_all and_drop
  drop_all-IsDropped [] w ids v near = record {
    after = w;
    ends = refl;
    freed = sym (append-nil w.events);
    ids = ids;
    well = v;
  }
  drop_all-IsDropped (m ∷ ms) w ids v (here, near) =
      let t : IsTold w.node (send 0 (heap m.source) none handle m.source 7 0 0 0 w.node) =
        Settled-IsTold (heap m.source) handle m.source w.node ids _ v (
          send-Settled 0 (heap m.source) none handle m.source 7 0 0 0 w.node ids v known refl
            here) in
      let w' : Worker S = record w {
        node = t.after.node;
        events = (w.events ++ delete m.data_ptr) ++ t.after.events;
      } in
      let r : IsDropped ms w' (drop_all heap handle ms w') =
        drop_all-IsDropped ms w' t.ids t.well
          (subst (λ h. AllNear h ms) (sym t.same_harbor) near) in
      record {
        after = r.after;
        ends =
            ap (and_drop (λ w''. drop_all heap handle ms w'')) (dropped_one m w t.after t.ends)
            ∙ r.ends;
        freed =
            r.freed
            ∙ ap (λ es. ((w.events ++ delete m.data_ptr) ++ es) ++ deletes ms) t.nothing
            ∙ ap (λ es. es ++ deletes ms) (append-nil (w.events ++ delete m.data_ptr))
            ∙ append_assoc w.events (delete m.data_ptr) (deletes ms);
        ids = r.ids;
        well = r.well;
      }
