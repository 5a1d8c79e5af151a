-- ===== src/Server/Dispatch/Rounds.antt =====
-- How many messages the loop of `fengnet_context_message_dispatch` of fengnet_server.cpp hands over, and
-- in which order.
use fengnet.Base.{
  map, drop, drop-append_le, max, ◌/◌, ℕ, zero, suc, ◌^◌, ◌≤◌, ◌≡◌, refl, sym, ap, ◌∙◌, subst, Bool,
  false, Option, some, List, [], ◌∷◌, ◌++◌, append_assoc, append-nil, take, length, arith,
  length-append,
}
use native.Mathlib.Nat.{div-le_self}
use fengnet.Databuffer.{ℤ, pos, negsuc}
use fengnet.Mq.{Message}
use fengnet.Mq.Fifo.{mq_length-contents}
use fengnet.Server.{Node}
use fengnet.Server.Dispatch.{
  Call, Callbacks, Worker, bind, serve, served, pop_at, rounds, further_rounds, length_of,
  dispatch_loop,
}
use fengnet.Server.Dispatch.Serve.{handed, IsServing, Answering, IsServed, pop-IsServing, serve_lem}

-- The loop has gone on for as many messages as it was to, the services were called with these, and what the
-- queue holds are the others, with what the services added.
pub record IsRun {S : Type 0} (log : S → List Call) (q a handle k : ℕ) (ms : List Message)
    (w : Worker S) (run : Option (Bool × Worker S)) : Type 0 where
  pub after : Worker S
  pub ends : run ≡ some (false, after)
  pub calls : log after.state ≡ log w.state ++ map handed (take k ms)
  pub more : List Message
  pub serving : IsServing q a handle after.node (drop k ms ++ more)

-- How many messages a worker takes from a queue that holds `len` besides the first.
abbrev pub quota : ℤ → ℕ → ℕ
quota (pos weight) len = max 1 (len / 2 ^ weight)
quota (negsuc weight) len = 1

module _ {S : Type 0} (log : S → List Call) (cbs : Callbacks S) (q a handle : ℕ)
    (answer : Answering log cbs q a handle) where
  take_more : (k : ℕ) (ms more : List Message) → k ≤ length ms → take k (ms ++ more) ≡ take k ms
  take_more zero ms more le = refl
  take_more (suc k) [] more le = absurd (omega arith)
  take_more (suc k) (m ∷ ms) more le = ap (λ xs. m ∷ xs) (take_more k ms more (omega arith))

  -- A message that is there is handed over, and then what follows is run.
  next_lem :
      (next : Node → Worker S → Option (Bool × Worker S)) (k : ℕ) (m : Message) (ms : List Message)
      (w : Worker S)
      → IsServing q a handle w.node (m ∷ ms)
      → ((n : Node) (w' : Worker S) (more : List Message)
          → IsServing q a handle n ms
          → IsServing q a handle w'.node (ms ++ more)
          → IsRun log q a handle k (ms ++ more) w' (next n w'))
      → k ≤ length ms
      → IsRun log q a handle (suc k) (m ∷ ms) w (served cbs q a handle w next (pop_at q w))
  unfolding served bind
  next_lem next k m ms w s further le =
      let (n, popped, s') = pop-IsServing log cbs q a handle answer w.node m ms s in
      let v : IsServed log q a handle m ms w (serve cbs q a handle m w n) =
        serve_lem log cbs q a handle answer m ms w n s' in
      let r : IsRun log q a handle k (ms ++ v.more) v.after (next n v.after) =
        further n v.after v.more s' v.serving in
      record {
        after = r.after;
        ends = ap (served cbs q a handle w next) popped ∙ ap (λ o. bind o (next n)) v.ends ∙ r.ends;
        calls =
            r.calls
            ∙ ap (λ xs. xs ++ map handed (take k (ms ++ v.more))) v.noted
            ∙ ap (λ xs. (log w.state ++ (handed m ∷ [])) ++ map handed xs)
                (take_more k ms v.more le)
            ∙ append_assoc (log w.state) (handed m ∷ []) (map handed (take k ms));
        more = v.more ++ r.more;
        serving =
            subst (IsServing q a handle r.after.node)
              (ap (λ xs. xs ++ r.more) (drop-append_le k ms v.more le)
                ∙ append_assoc (drop k ms) v.more r.more)
              r.serving;
      }

  rounds_lem :
      (k : ℕ) (ms : List Message) (w : Worker S)
      → k ≤ length ms
      → IsServing q a handle w.node ms
      → IsRun log q a handle k ms w (rounds k cbs q a handle w)
  unfolding rounds
  rounds_lem zero ms w le s = record {
    after = w;
    ends = refl;
    calls = sym (append-nil (log w.state));
    more = [];
    serving = subst (IsServing q a handle w.node) (sym (append-nil ms)) s;
  }
  rounds_lem (suc k) [] w le s = absurd (omega arith)
  rounds_lem (suc k) (m ∷ ms) w le s =
      next_lem (λ n w'. rounds k cbs q a handle w') k m ms w s
        (λ n w' more s₀ s'. rounds_lem k (ms ++ more) w' (omega (arith, length-append ms more)) s')
        (omega arith)

  further_rounds-le : (weight : ℤ) (len : ℕ) → further_rounds weight len ≤ len
  unfolding further_rounds
  further_rounds-le (pos weight) len = omega (arith, div-le_self len (2 ^ weight))
  further_rounds-le (negsuc weight) len = omega arith

  length_lem :
      (n : Node) (ms : List Message)
      → IsServing q a handle n ms
      → length_of (n.mq.mem q) ≡ length ms
  length_lem n ms s =
      ap length_of s.at
      ∙ mq_length-contents s.ring s.valid
      ∙ ap (λ (xs : List Message). length xs) s.holds

  quota_lem : (weight : ℤ) (len : ℕ) → suc (further_rounds weight len) ≡ quota weight len
  unfolding further_rounds
  quota_lem (pos weight) len = ground arith
  quota_lem (negsuc weight) len = refl

  loop_lem :
      (weight : ℤ) (m : Message) (ms : List Message) (w : Worker S)
      → IsServing q a handle w.node (m ∷ ms)
      → IsRun log q a handle
          (suc (further_rounds weight (length ms)))
          (m ∷ ms)
          w
          (dispatch_loop weight cbs q a handle w)
  unfolding dispatch_loop
  loop_lem weight m ms w s =
      let k : ℕ = further_rounds weight (length ms) in
      next_lem _ k m ms w s
        (λ n w' more s₀ s'.
          subst
            (λ l.
              IsRun log q a handle k (ms ++ more) w'
                (rounds (further_rounds weight l) cbs q a handle w'))
            (sym (length_lem n ms s₀))
            (rounds_lem k (ms ++ more) w'
              (omega (arith, length-append ms more, further_rounds-le weight (length ms))) s'))
        (further_rounds-le weight (length ms))

  -- On a queue with a message, and with callbacks that end, keep their context served, only add to its queue
  -- and note each call in the memory of their service, the loop of a worker ends without a failed `assert`,
  -- and the calls are those of the oldest messages in order, each with the type, the session, the source, the
  -- data and the size of its message: one, and with a weight that is not negative as many as
  -- `length >> weight`, of the length without the first, when that is more. The queue holds the other
  -- messages, and what the callbacks added after them.
  pub dispatch_loop-IsRun :
      (weight : ℤ) (m : Message) (ms : List Message) (w : Worker S)
      → IsServing q a handle w.node (m ∷ ms)
      → IsRun log q a handle
          (quota weight (length ms))
          (m ∷ ms)
          w
          (dispatch_loop weight cbs q a handle w)
  dispatch_loop-IsRun weight m ms w s =
      subst (λ k. IsRun log q a handle k (m ∷ ms) w (dispatch_loop weight cbs q a handle w))
        (quota_lem weight (length ms)) (loop_lem weight m ms w s)
