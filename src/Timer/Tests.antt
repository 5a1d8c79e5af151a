-- ===== src/Timer/Tests.antt =====
-- Runs of the timing wheel, and the theorems about it at concrete inputs.
use fengnet.Base.{
  ℕ, zero, suc, ◌+◌, ◌%◌, ◌^◌, ◌≡◌, ◌≢◌, refl, ap, inl, inr, List, [], ◌∷◌, false, ◌==◌,
  if◌then◌else◌, ==_iff, Bool-cases, arith,
}
use fengnet.Timer.{
  TimerNode, Timer, done, hang, add_node, find_level, timer_shift, timer_update, timer_execute,
  timer_add, find_cascade, move_list, add_nodes,
}
use fengnet.Timer.Lists.{All, Within}
use fengnet.Timer.Wheel.{AtNear, AtLevel, Wheel, Holds}
use fengnet.Timer.Keep.{SameNodes}
use fengnet.Timer.Shift.{Ticked, timer_shift-Ticked}
use fengnet.Timer.Update.{
  executed, timer_execute_cases, timer_update_quiet, timer_update_hangs, timer_add_lem,
}

abbrev event : ℕ → TimerNode
event e = record { expire = e; handle = 7; session = 2 }

abbrev late : ℕ → ℕ → List TimerNode
late zero j = if j == 1 then event 256 ∷ [] else []
late (suc i) j = []

-- At time 254 a node for 256 waits in `t[0][1]`, one for 255 in `near[255]`.
abbrev wheel : Timer
wheel = record {
  near = λ j. if j == 255 then event 255 ∷ [] else [];
  t = late;
  locked = false;
  time = 254;
  starttime = 0;
  current = 0;
  current_point = 0;
}

wheel-nears : (j : ℕ) → All (AtNear 1 254 j) (wheel.near j)
wheel-nears j = elim (Bool-cases (j == 255)) [
  | inl e ↦ rw e (omega (arith, (==_iff j 255).0 e))
  | inr ne ↦ rw ne tt
]

wheel-levels : (i j : ℕ) → All (AtLevel i 254 j) (wheel.t i j)
wheel-levels zero j = elim (Bool-cases (j == 1)) [
  | inl e ↦ rw e (omega (arith, (==_iff j 1).0 e))
  | inr ne ↦ rw ne tt
]
wheel-levels (suc i) j = tt

wheel-Wheel : Wheel 1 wheel
wheel-Wheel = record { fits = omega arith; nears = wheel-nears; levels = wheel-levels }

-- The node for 256 comes down to `near[0]` when the block of 256 ticks ends.
cascades : (timer_shift (record wheel { time = 255 })).near 0 ≡ event 256 ∷ []
unfolding timer_shift find_cascade move_list add_nodes add_node find_level
cascades = refl

timer_shift-Ticked_example : Ticked wheel (timer_shift wheel)
timer_shift-Ticked_example = timer_shift-Ticked wheel wheel-Wheel

timer_update_hangs_example : timer_update wheel ≡ hang
timer_update_hangs_example =
    timer_update_hangs wheel (event 255) wheel-Wheel (inl (255, inl refl)) refl

-- The wheel with the node for 256 alone, at time 250.
abbrev calm : Timer
calm = record {
  near = λ j. [];
  t = wheel.t;
  locked = false;
  time = 250;
  starttime = 0;
  current = 0;
  current_point = 0;
}

calm-Wheel : Wheel 1 calm
calm-Wheel = record { fits = omega arith; nears = λ j. tt; levels = calm-levels }
  where
    calm-levels : (i j : ℕ) → All (AtLevel i 250 j) (wheel.t i j)
    calm-levels zero j = elim (Bool-cases (j == 1)) [
      | inl e ↦ rw e (omega (arith, (==_iff j 1).0 e))
      | inr ne ↦ rw ne tt
    ]
    calm-levels (suc i) j = tt

level_expire : (j : ℕ) (n : TimerNode) → Within n (wheel.t 0 j) → n.expire ≡ 256
level_expire j n h = elim (Bool-cases (j == 1)) [
  | inl e ↦ one n (rw e at h)
  | inr ne ↦ absurd (rw ne at h)
]
  where
    one : (m : TimerNode) → Within m (event 256 ∷ []) → m.expire ≡ 256
    one m (inl e) = ap (λ (x : TimerNode). x.expire) e
    one m (inr h) = absurd h

calm_quiet : (n : TimerNode) → Holds calm n → n.expire ≢ (250 + 1) % 2 ^ 32
calm_quiet n (inl (j, h)) e = h
calm_quiet n (inr (zero, j, h)) e = absurd (omega (arith, level_expire j n h))
calm_quiet n (inr (suc i, j, h)) e = h

timer_update_quiet_example :
    (T' : Timer) × (timer_update calm ≡ done (T', []))
    × Wheel 1 T'
    × SameNodes calm T'
    × (T'.time ≡ (250 + 1) % 2 ^ 32)
    × (T'.locked ≡ false)
timer_update_quiet_example = timer_update_quiet calm calm-Wheel refl calm_quiet

timer_add_lem_example :
    (T' : Timer) × (timer_add 7 2 6 calm ≡ done T')
    × Wheel 1 T'
    × Holds T' (event ((6 + 250) % 2 ^ 32))
    × ((m : TimerNode) → Holds calm m → Holds T' m)
    × (T'.locked ≡ false)
timer_add_lem_example = timer_add_lem 7 2 6 calm calm-Wheel refl (omega arith) (omega arith)

timer_execute_cases_example :
    timer_execute (record wheel { time = 255 })
    ≡ executed (record wheel { time = 255 }) (event 255 ∷ [])
timer_execute_cases_example =
    timer_execute_cases (record wheel { time = 255 }) (event 255 ∷ []) refl
