-- ===== src/Timer/Update.antt =====
-- `timer_execute`, `timer_update` and `timer_add` of fengnet_timer.cpp over the whole wheel.
use fengnet.Base.{
  map, ℕ, suc, ◌+◌, ◌%◌, ◌^◌, ◌<◌, ◌≡◌, ◌≢◌, refl, ap, sym, subst, ◌∙◌, inl, inr, List, [], ◌∷◌,
  append-nil, ◌==◌, ==_refl, ==_iff, ==_false, true, false, Bool-cases, if◌then◌else◌, and_ones,
  arith,
}
use fengnet.Mq.{Message}
use fengnet.Timer.{
  TimerNode, Timer, Outcome, done, hang, ◌>>=◌, lock, unlock, update, execute_loop, timer_execute,
  timer_shift, timer_update, timer_add, add_node, dispatch_list,
}
use fengnet.Timer.Lists.{All, Within, All-map, All-empty}
use fengnet.Timer.Wheel.{AtNear, Wheel, Holds}
use fengnet.Timer.Place.{add_node-Wheel}
use fengnet.Timer.Keep.{Adds, add_node-Adds, SameNodes}
use fengnet.Timer.Shift.{Ticked, timer_shift-Ticked, shift_due}

-- The wheel with the list of one index of `near` taken out, as the loop leaves it.
abbrev pub taken : ℕ → Timer → Timer
taken idx T = record T { near = update T.near idx []; locked = false }

loop_empty :
    (fuel idx : ℕ) (T : Timer) → T.near idx ≡ [] → execute_loop (suc fuel) idx T ≡ done (T, [])
unfolding execute_loop
loop_empty fuel idx T e = rw (e, execute_loop)

loop_held :
    (fuel idx : ℕ) (T : Timer) (node : TimerNode) (nodes : List TimerNode)
    → T.near idx ≡ node ∷ nodes
    → T.locked ≡ true
    → execute_loop (suc fuel) idx T ≡ hang
unfolding execute_loop lock
loop_held fuel idx T node nodes e held = rw (e, execute_loop) (rw held refl)

loop_free :
    (fuel idx : ℕ) (T : Timer) (node : TimerNode) (nodes : List TimerNode)
    → T.near idx ≡ node ∷ nodes
    → T.locked ≡ false
    → execute_loop (suc (suc fuel)) idx T ≡ done (taken idx T, dispatch_list (node ∷ nodes))
unfolding execute_loop lock
loop_free fuel idx T node nodes e free =
    rw (e, execute_loop)
      (rw free (
        rw (loop_empty fuel idx (taken idx T) (rw (==_refl idx) refl))
          (ap (λ l. done (taken idx T, l)) (append-nil (dispatch_list (node ∷ nodes))))))

-- The response to a timer: a message of the type 1, in the highest byte, with its session and no data.
abbrev pub response : TimerNode → ℕ × Message
response node =
    (node.handle, record { source = 0; session = node.session; data_ptr = 0; sz = 2 ^ 56 })

dispatch_list-map : (l : List TimerNode) → dispatch_list l ≡ map response l
unfolding dispatch_list
dispatch_list-map [] = refl
dispatch_list-map (node ∷ nodes) = ap (λ ms. response node ∷ ms) (dispatch_list-map nodes)

-- What `timer_execute` does with the list at its index.
abbrev pub executed : Timer → List TimerNode → Outcome (Timer × List (ℕ × Message))
executed T [] = done (T, [])
executed T (node ∷ nodes) =
    if T.locked then hang else done (taken (T.time % 256) T, map response (node ∷ nodes))

-- `timer_execute` on every branch: an empty list is no work, a list that is due under a lock that is
-- held never returns, and under a free lock the response of each of its timers is pushed, in order, and
-- the list left empty.
pub timer_execute_cases :
    (T : Timer) (l : List TimerNode) → T.near (T.time % 256) ≡ l → timer_execute T ≡ executed T l
unfolding timer_execute
timer_execute_cases T [] e = rw (and_ones 8 T.time) (loop_empty 1 (T.time % 256) T e)
timer_execute_cases T (node ∷ nodes) e = elim (Bool-cases T.locked) [
  | inl held ↦
      rw (and_ones 8 T.time) (loop_held 1 (T.time % 256) T node nodes e held)
      ∙ ap (λ b. if b then hang else result) (sym held)
  | inr free ↦
      rw (and_ones 8 T.time) (loop_free 0 (T.time % 256) T node nodes e free)
      ∙ ap (λ l. done (taken (T.time % 256) T, l)) (dispatch_list-map (node ∷ nodes))
      ∙ ap (λ b. if b then hang else result) (sym free)
]
  where
    result : Outcome (Timer × List (ℕ × Message))
    result = done (taken (T.time % 256) T, map response (node ∷ nodes))

-- The wheel while `timer_update` holds the lock.
abbrev held : Timer → Timer
held T = record T { locked = true }

held-Wheel : (lag : ℕ) (T : Timer) → Wheel lag T → Wheel lag (held T)
held-Wheel lag T w = record { fits = w.fits; nears = w.nears; levels = w.levels }

nothing_due : (T : Timer) → Wheel 1 T → T.near (T.time % 256) ≡ []
nothing_due T w =
    All-empty (AtNear 1 T.time (T.time % 256)) (T.near (T.time % 256)) (λ n h. absurd (omega arith))
      (w.nears (T.time % 256))

free-Wheel : (lag : ℕ) (T : Timer) → Wheel lag T → Wheel lag (unlock T)
free-Wheel lag T w = record { fits = w.fits; nears = w.nears; levels = w.levels }

-- Once the list at the current time is empty, every node lies ahead.
advance : (T : Timer) → Wheel 0 T → T.near (T.time % 256) ≡ [] → Wheel 1 (unlock T)
advance T w e = record { fits = w.fits; nears = ahead; levels = w.levels }
  where
    ahead : (j : ℕ) → All (AtNear 1 T.time j) (T.near j)
    ahead j = elim (Bool-cases (T.time % 256 == j)) [
      | inl here ↦
          subst (λ i. All (AtNear 1 T.time j) (T.near i)) ((==_iff _ _).0 here)
            (subst (All (AtNear 1 T.time j)) (sym e) tt)
      | inr ne ↦
          All-map (AtNear 0 T.time j) (AtNear 1 T.time j) (T.near j)
            (λ n h. omega (arith, ==_false _ _ ne)) (w.nears j)
    ]

locked_hang : (T : Timer) → T.locked ≡ true → timer_update T ≡ hang
unfolding timer_update lock
locked_hang T busy = rw busy refl

-- The end of `timer_update`.
abbrev finish : Outcome (Timer × List (ℕ × Message)) → Outcome (Timer × List (ℕ × Message))
finish m = m >>= λ r. done (unlock r.0, r.1)

-- The second `timer_execute` decides how `timer_update` ends.
update-second :
    (T : Timer) (l : List TimerNode)
    → Wheel 1 T
    → T.locked ≡ false
    → (timer_shift (held T)).near ((timer_shift (held T)).time % 256) ≡ l
    → timer_update T ≡ finish (executed (timer_shift (held T)) l)
unfolding timer_update lock
update-second T l w free e =
    rw
      (
        free,
        timer_execute_cases (held T) [] (nothing_due T w),
        timer_execute_cases (timer_shift (held T)) l e,
      )
      refl

-- `timer_update` with no timer due at the next tick: it returns with nothing dispatched, the time
-- goes on by one, every node is kept and stands right, and the lock is free again.
pub timer_update_quiet :
    (T : Timer)
    → Wheel 1 T
    → T.locked ≡ false
    → ((n : TimerNode) → Holds T n → n.expire ≢ (T.time + 1) % 2 ^ 32)
    → (T' : Timer) × (timer_update T ≡ done (T', []))
      × Wheel 1 T'
      × SameNodes T T'
      × (T'.time ≡ (T.time + 1) % 2 ^ 32)
      × (T'.locked ≡ false)
timer_update_quiet T w free quiet = (
  unlock S,
  update-second T [] w free empty ∙ refl,
  advance S k.wheel empty,
  k.same_nodes,
  k.next_time,
  refl,
)
  where
    S : Timer
    S = timer_shift (held T)

    k : Ticked (held T) S
    k = timer_shift-Ticked (held T) (held-Wheel 1 T w)

    go :
        (l : List TimerNode)
        → S.near ((T.time + 1) % 2 ^ 32 % 256) ≡ l
        → S.near ((T.time + 1) % 2 ^ 32 % 256) ≡ []
    go [] e = e
    go (node ∷ nodes) e =
        let due =
          (shift_due (held T) node (held-Wheel 1 T w)).1 (subst (Within node) (sym e) (inl refl)) in
        absurd (quiet node due.0 due.1)

    empty : S.near (S.time % 256) ≡ []
    empty =
        subst (λ c. S.near (c % 256) ≡ []) (sym k.next_time)
          (go (S.near ((T.time + 1) % 2 ^ 32 % 256)) refl)

-- `timer_update` with a timer due at the next tick never returns: it holds the spin lock of the
-- timer when `timer_execute` takes it again.
pub timer_update_hangs :
    (T : Timer) (n : TimerNode)
    → Wheel 1 T
    → Holds T n
    → n.expire ≡ (T.time + 1) % 2 ^ 32
    → timer_update T ≡ hang
timer_update_hangs T n w h due = elim (Bool-cases T.locked) [
  | inl busy ↦ locked_hang T busy
  | inr free ↦ go (S.near (S.time % 256)) refl free
]
  where
    S : Timer
    S = timer_shift (held T)

    k : Ticked (held T) S
    k = timer_shift-Ticked (held T) (held-Wheel 1 T w)

    there : Within n (S.near (S.time % 256))
    there =
        subst (λ c. Within n (S.near (c % 256))) (sym k.next_time)
          ((shift_due (held T) n (held-Wheel 1 T w)).0 (h, due))

    go : (l : List TimerNode) → S.near (S.time % 256) ≡ l → T.locked ≡ false → timer_update T ≡ hang
    go [] e free = absurd (subst (Within n) e there)
    go (node ∷ nodes) e free =
        update-second T (node ∷ nodes) w free e
        ∙ ap
            (λ b.
              finish
                (if b then hang else done (taken (S.time % 256) S, map response (node ∷ nodes))))
            k.same_lock

-- `timer_add` under a free lock, with a positive `int` of ticks: the wheel holds the new timer at the
-- time that is due, keeps the others, and gives the lock back.
pub timer_add_lem :
    (handle session time : ℕ) (T : Timer)
    → Wheel 1 T
    → T.locked ≡ false
    → 0 < time
    → time < 2 ^ 31
    → (T' : Timer) × (timer_add handle session time T ≡ done T')
      × Wheel 1 T'
      × Holds T' (record { expire = (time + T.time) % 2 ^ 32; handle = handle; session = session })
      × ((m : TimerNode) → Holds T m → Holds T' m)
      × (T'.locked ≡ false)
unfolding timer_add lock
timer_add_lem handle session time T w free pos small = (
  unlock (add_node node (held T)),
  rw free refl,
  free-Wheel 1 _ (add_node-Wheel 1 node (held T) (omega (arith, w.fits)) (held-Wheel 1 T w)),
  added.new,
  added.old,
  refl,
)
  where
    node : TimerNode
    node = record { expire = (time + T.time) % 2 ^ 32; handle = handle; session = session }

    added : Adds (held T) node (add_node node (held T))
    added = add_node-Adds node (held T)
