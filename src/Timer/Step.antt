-- ===== src/Timer/Step.antt =====
-- The arithmetic of a tick of fengnet_timer.cpp: which list `timer_shift` moves, and that the nodes of
-- every other list stand right at the new time.
use fengnet.Base.{
  ℕ, zero, suc, ◌+◌, ◌/◌, ◌%◌, ◌^◌, ◌<◌, ◌≡◌, ◌≢◌, refl, ◌⊎◌, inl, inr, Option, none, some, ◌==◌,
  if◌then◌else◌, and_ones, arith,
}
use fengnet.Timer.{TimerNode, find_cascade, time_near}
use fengnet.Timer.Wheel.{AtNear, AtLevel}

-- The list `t[i][j]` is not the one that the tick to `ct` moves.
abbrev pub Stays : ℕ → ℕ → ℕ → Type 0
Stays zero ct j = (ct % 2 ^ 8 ≢ 0) ⊎ ((ct / 2 ^ 8 % 64 ≢ j) ⊎ (j ≡ 0))
Stays (suc zero) ct j = (ct % 2 ^ 14 ≢ 0) ⊎ ((ct / 2 ^ 14 % 64 ≢ j) ⊎ (j ≡ 0))
Stays (suc (suc zero)) ct j = (ct % 2 ^ 20 ≢ 0) ⊎ ((ct / 2 ^ 20 % 64 ≢ j) ⊎ (j ≡ 0))
Stays (suc (suc (suc zero))) ct j = (ct % 2 ^ 26 ≢ 0) ⊎ (ct / 2 ^ 26 ≢ j)
Stays (suc (suc (suc (suc i)))) ct j = Unit

pub near_step : (now ct j : ℕ) (n : TimerNode) → ct ≡ now + 1 → AtNear 1 now j n → AtNear 0 ct j n
near_step now ct j n e h = omega arith

pub level_step :
    (i now ct j : ℕ) (n : TimerNode)
    → ct ≡ now + 1
    → Stays i ct j
    → AtLevel i now j n
    → AtLevel i ct j n
level_step zero now ct j n e s h = omega arith
level_step (suc zero) now ct j n e s h = omega arith
level_step (suc (suc zero)) now ct j n e s h = omega arith
level_step (suc (suc (suc zero))) now ct j n e s h = omega arith
level_step (suc (suc (suc (suc i)))) now ct j n e s h = h

-- The tick from the last number to 0.
pub near_wrap : (now j : ℕ) (n : TimerNode) → now + 1 ≡ 2 ^ 32 → AtNear 1 now j n → AtNear 0 0 j n
near_wrap now j n e h = omega arith

pub level_wrap :
    (i now j : ℕ) (n : TimerNode)
    → now + 1 ≡ 2 ^ 32
    → Stays i 0 j
    → AtLevel i now j n
    → AtLevel i 0 j n
level_wrap zero now j n e s h = omega arith
level_wrap (suc zero) now j n e s h = omega arith
level_wrap (suc (suc zero)) now j n e s h = omega arith
level_wrap (suc (suc (suc zero))) now j n e s h = omega arith
level_wrap (suc (suc (suc (suc i)))) now j n e s h = h

-- The list that the tick to `ct` moves, by remainders, from each level on.
abbrev pub from3 : ℕ → Option (ℕ × ℕ)
from3 ct =
    if ct % 2 ^ 26 == 0
    then (if ct / 2 ^ 26 % 64 == 0 then none else some (3, ct / 2 ^ 26 % 64))
    else none

abbrev pub from2 : ℕ → Option (ℕ × ℕ)
from2 ct =
    if ct % 2 ^ 20 == 0
    then (if ct / 2 ^ 20 % 64 == 0 then from3 ct else some (2, ct / 2 ^ 20 % 64))
    else none

abbrev pub from1 : ℕ → Option (ℕ × ℕ)
from1 ct =
    if ct % 2 ^ 14 == 0
    then (if ct / 2 ^ 14 % 64 == 0 then from2 ct else some (1, ct / 2 ^ 14 % 64))
    else none

abbrev pub next_list : ℕ → Option (ℕ × ℕ)
next_list ct =
    if ct % 2 ^ 8 == 0
    then (if ct / 2 ^ 8 % 64 == 0 then from1 ct else some (0, ct / 2 ^ 8 % 64))
    else none

pub deeper :
    (ct : ℕ)
    → (ct / 256 / 64 ≡ ct / 2 ^ 14)
      × (ct / 256 / 64 / 64 ≡ ct / 2 ^ 20)
      × (ct / 256 / 64 / 64 / 64 ≡ ct / 2 ^ 26)
deeper ct = omega arith

pub find_cascade-next_list :
    (ct : ℕ) → find_cascade 4 ct (ct / time_near) time_near 0 ≡ next_list ct
unfolding find_cascade
find_cascade-next_list ct =
    rw
      (
        and_ones 8 ct,
        and_ones 14 ct,
        and_ones 20 ct,
        and_ones 26 ct,
        and_ones 6 (ct / 256),
        and_ones 6 (ct / 256 / 64),
        and_ones 6 (ct / 256 / 64 / 64),
        and_ones 6 (ct / 256 / 64 / 64 / 64),
        (deeper ct).2,
        (deeper ct).1,
        (deeper ct).0,
      )
      refl

pub zero_or : (x j : ℕ) → x ≡ 0 → (x ≢ j) ⊎ (j ≡ 0)
zero_or x zero e = inr refl
zero_or x (suc j) e = inl (omega arith)

-- Where the block of 256 does not end, nothing moves.
pub no_list : (ct i j : ℕ) → ct % 2 ^ 8 ≢ 0 → Stays i ct j
no_list ct zero j a = inl a
no_list ct (suc zero) j a = inl (omega arith)
no_list ct (suc (suc zero)) j a = inl (omega arith)
no_list ct (suc (suc (suc zero))) j a = inl (omega arith)
no_list ct (suc (suc (suc (suc i)))) j a = tt

-- Where a level has a next index, the levels above do not end a block and those below moved none.
module _ (ct l idx : ℕ) where
  abbrev pub Other : ℕ → ℕ → Type 0
  Other i j = (l ≡ i) × (idx ≡ j) → ⊥

pub list0 : (ct i j : ℕ) → ct / 2 ^ 8 % 64 ≢ 0 → Other ct 0 (ct / 2 ^ 8 % 64) i j → Stays i ct j
list0 ct zero j b o = inr (inl (λ e. o (refl, e)))
list0 ct (suc zero) j b o = inl (omega arith)
list0 ct (suc (suc zero)) j b o = inl (omega arith)
list0 ct (suc (suc (suc zero))) j b o = inl (omega arith)
list0 ct (suc (suc (suc (suc i)))) j b o = tt

pub list1 :
    (ct i j : ℕ)
    → ct % 2 ^ 14 ≡ 0
    → ct / 2 ^ 14 % 64 ≢ 0
    → Other ct 1 (ct / 2 ^ 14 % 64) i j
    → Stays i ct j
list1 ct zero j a b o = inr (zero_or _ j (omega arith))
list1 ct (suc zero) j a b o = inr (inl (λ e. o (refl, e)))
list1 ct (suc (suc zero)) j a b o = inl (omega arith)
list1 ct (suc (suc (suc zero))) j a b o = inl (omega arith)
list1 ct (suc (suc (suc (suc i)))) j a b o = tt

pub list2 :
    (ct i j : ℕ)
    → ct % 2 ^ 20 ≡ 0
    → ct / 2 ^ 20 % 64 ≢ 0
    → Other ct 2 (ct / 2 ^ 20 % 64) i j
    → Stays i ct j
list2 ct zero j a b o = inr (zero_or _ j (omega arith))
list2 ct (suc zero) j a b o = inr (zero_or _ j (omega arith))
list2 ct (suc (suc zero)) j a b o = inr (inl (λ e. o (refl, e)))
list2 ct (suc (suc (suc zero))) j a b o = inl (omega arith)
list2 ct (suc (suc (suc (suc i)))) j a b o = tt

pub list3 :
    (ct i j : ℕ) → ct % 2 ^ 26 ≡ 0 → ct < 2 ^ 32 → Other ct 3 (ct / 2 ^ 26 % 64) i j → Stays i ct j
list3 ct zero j a f o = inr (zero_or _ j (omega arith))
list3 ct (suc zero) j a f o = inr (zero_or _ j (omega arith))
list3 ct (suc (suc zero)) j a f o = inr (zero_or _ j (omega arith))
list3 ct (suc (suc (suc zero))) j a f o = inr (λ e. o (refl, omega arith))
list3 ct (suc (suc (suc (suc i)))) j a f o = tt

-- The tick from 2 ^ 32 - 1 to 0 moves `t[3][0]`.
pub wrap-Other : (i j : ℕ) → Other 0 3 0 i j → Stays i 0 j
wrap-Other zero j o = inr (zero_or _ j refl)
wrap-Other (suc zero) j o = inr (zero_or _ j refl)
wrap-Other (suc (suc zero)) j o = inr (zero_or _ j refl)
wrap-Other (suc (suc (suc zero))) j o = inr (λ e. o (refl, e))
wrap-Other (suc (suc (suc (suc i)))) j o = tt
