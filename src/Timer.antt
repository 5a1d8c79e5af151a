-- ===== src/Timer.antt =====
-- fengnet-src/fengnet_timer.h and fengnet_timer.cpp: the timing wheel. One `near` ring of 256 lists
-- for the next ticks, and four levels of 64 lists each for later ones.
-- A `link_list` is a list, linked at its tail. `uint32_t` wraps by `% 2 ^ 32`. The spin lock is the
-- field `locked`: taking it while the caller itself holds it never returns, which is `hang`.
pub mod Lists
pub mod Wheel
pub mod Place
pub mod Keep
pub mod Step
pub mod Shift
pub mod Update
mod Tests
use fengnet.Base.{
  ℕ, zero, suc, ◌+◌, ◌-◌, ◌*◌, ◌/◌, ◌%◌, ◌^◌, Bool, true, false, Option, none, some, List, [], ◌∷◌,
  ◌++◌, leb, ltb, ◌==◌, if◌then◌else◌, bit_and, bit_or,
}
use fengnet.Mq.{Message}

abbrev pub time_near_shift : ℕ
time_near_shift = 8

abbrev pub time_near : ℕ
time_near = 2 ^ time_near_shift

abbrev pub time_level_shift : ℕ
time_level_shift = 6

abbrev pub time_level : ℕ
time_level = 2 ^ time_level_shift

-- `timer_node` with the `timer_event` that is stored behind it.
pub record TimerNode : Type 0 where
  pub expire : ℕ
  pub handle : ℕ
  pub session : ℕ

-- `timer`.
pub record Timer : Type 0 where
  pub near : ℕ → List TimerNode
  pub t : ℕ → ℕ → List TimerNode
  pub locked : Bool
  pub time : ℕ
  pub starttime : ℕ
  pub current : ℕ
  pub current_point : ℕ

-- How a call ends: with a value, or never.
pub data Outcome (A : Type 0) : Type 0 where
  done : A → Outcome A
  hang : Outcome A

infixl 5 ◌>>=◌
abbrev pub ◌>>=◌ : {A B : Type 0} → Outcome A → (A → Outcome B) → Outcome B
done a >>= f = f a
hang >>= f = hang

abbrev pub update {ℓ} : {A : Type ℓ} → (ℕ → A) → ℕ → A → ℕ → A
update f i v j = if i == j then v else f j

-- `lock` and `unlock` of the spin lock, called by the one thread that runs the timer.
unfoldable pub lock : Timer → Outcome Timer
lock T = if T.locked then hang else done (record T { locked = true })

abbrev pub unlock : Timer → Timer
unlock T = record T { locked = false }

-- `link(&T->near[j], node)` and `link(&T->t[i][j], node)`.
abbrev pub link_near : ℕ → TimerNode → Timer → Timer
link_near j node T = record T { near = update T.near j (T.near j ++ (node ∷ [])) }

abbrev pub link_level : ℕ → ℕ → TimerNode → Timer → Timer
link_level i j node T = record T { t = update T.t i (update (T.t i) j (T.t i j ++ (node ∷ []))) }

-- The `for` of `add_node`: the rounds left, `i`, `mask`, the two times.
unfoldable pub find_level : ℕ → ℕ → ℕ → ℕ → ℕ → ℕ
find_level zero i mask time current_time = i
find_level (suc rounds) i mask time current_time =
    let rest = find_level rounds (i + 1) (mask * time_level % 2 ^ 32) time current_time in
    if bit_or time (mask - 1) == bit_or current_time (mask - 1) then i else rest

-- `add_node`.
unfoldable pub add_node : TimerNode → Timer → Timer
add_node node T =
    let time = node.expire in
    let i = find_level 3 0 (time_near * time_level) time T.time in
    if bit_or time (time_near - 1) == bit_or T.time (time_near - 1)
    then link_near (bit_and time (time_near - 1)) node T
    else link_level i
        (bit_and (time / 2 ^ (time_near_shift + i * time_level_shift)) (time_level - 1)) node T

-- `timer_add`, under the lock.
unfoldable pub timer_add : ℕ → ℕ → ℕ → Timer → Outcome Timer
timer_add handle session time T = lock T >>= λ T'.
    let node : TimerNode = record {
      expire = (time + T'.time) % 2 ^ 32;
      handle = handle;
      session = session;
    } in
    done (unlock (add_node node T'))

-- The loop of `move_list` over the nodes that `link_clear` handed over.
unfoldable pub add_nodes : List TimerNode → Timer → Timer
add_nodes [] T = T
add_nodes (node ∷ nodes) T = add_nodes nodes (add_node node T)

-- `move_list`.
unfoldable pub move_list : ℕ → ℕ → Timer → Timer
move_list level idx T =
    add_nodes (T.t level idx) (record T { t = update T.t level (update (T.t level) idx []) })

-- The `while` of `timer_shift`: the level and the index that it moves, if it moves one.
-- The fuel is a bound on the rounds.
unfoldable pub find_cascade : ℕ → ℕ → ℕ → ℕ → ℕ → Option (ℕ × ℕ)
find_cascade zero ct time mask i = none
find_cascade (suc fuel) ct time mask i =
    let idx = bit_and time (time_level - 1) in
    let rest = find_cascade fuel ct (time / time_level) (mask * time_level % 2 ^ 32) (i + 1) in
    if bit_and ct (mask - 1) == 0 then (if idx == 0 then rest else some (i, idx)) else none

abbrev cascade : Option (ℕ × ℕ) → Timer → Timer
cascade none T = T
cascade (some (level, idx)) T = move_list level idx T

-- `timer_shift`. A `ct` other than 0 has a bit set below 2 ^ 32, so four rounds are enough.
unfoldable pub timer_shift : Timer → Timer
timer_shift T =
    let ct = (T.time + 1) % 2 ^ 32 in
    let T' = record T { time = ct } in
    if ct == 0
    then move_list 3 0 T'
    else cascade (find_cascade 4 ct (ct / time_near) time_near 0) T'

-- What `dispatch_list` pushes: the handle and the response message of each node.
abbrev pub ptype_response : ℕ
ptype_response = 1

unfoldable pub dispatch_list : List TimerNode → List (ℕ × Message)
dispatch_list [] = []
dispatch_list (node ∷ nodes) =
    (
      node.handle,
      record { source = 0; session = node.session; data_ptr = 0; sz = ptype_response * 2 ^ 56 },
    )
    ∷ dispatch_list nodes

-- The `while` of `timer_execute` at its index, on fuel, with what was pushed. The lock is taken
-- after the list was cleared and given back after the dispatch.
unfoldable pub execute_loop : ℕ → ℕ → Timer → Outcome (Timer × List (ℕ × Message))
execute_loop zero idx T = hang
execute_loop (suc fuel) idx T = elim (T.near idx) [
  | [] ↦ done (T, [])
  | node ∷ nodes ↦
      (lock (record T { near = update T.near idx [] }) >>= λ T'.
      execute_loop fuel idx (unlock T') >>= λ r. done (r.0, dispatch_list (node ∷ nodes) ++ r.1))
]

-- `timer_execute`: the list is empty at the second test, so two rounds are enough.
unfoldable pub timer_execute : Timer → Outcome (Timer × List (ℕ × Message))
timer_execute T = execute_loop 2 (bit_and T.time (time_near - 1)) T

-- `timer_update`: `lock_guard` holds the lock to the end.
unfoldable pub timer_update : Timer → Outcome (Timer × List (ℕ × Message))
timer_update T = lock T >>= λ T'. timer_execute T' >>= λ r.
    timer_execute (timer_shift r.0) >>= λ r'. done (unlock r'.0, r.1 ++ r'.1)

-- The `for` of `fengnet_updatetime`.
unfoldable pub update_times : ℕ → Timer → Outcome (Timer × List (ℕ × Message))
update_times zero T = done (T, [])
update_times (suc n) T =
    timer_update T >>= λ r. update_times n r.0 >>= λ r'. done (r'.0, r.1 ++ r'.1)

-- `fengnet_updatetime` at the monotonic clock reading `cp`, in centiseconds.
unfoldable pub updatetime : ℕ → Timer → Outcome (Timer × List (ℕ × Message))
updatetime cp T =
    let diff = (cp - T.current_point) % 2 ^ 32 in
    let T' = record T { current_point = cp; current = (T.current + diff) % 2 ^ 64 } in
    let ticks = update_times diff T' in
    if ltb cp T.current_point
    then done (record T { current_point = cp }, [])
    else (if cp == T.current_point then done (T, []) else ticks)

-- `timer_create_timer` with the clock readings of `fengnet_timer_init`.
unfoldable pub timer_init : ℕ → ℕ → ℕ → Timer
timer_init sec cs cp = record {
  near = λ j. [];
  t = λ i j. [];
  locked = false;
  time = 0;
  starttime = sec;
  current = cs;
  current_point = cp;
}
