-- ===== src/Timer/Wheel.antt =====
-- Where a node of the wheel belongs: the invariant of fengnet_timer.cpp. At time `now` the lists of
-- `near` hold the nodes of the current block of 256 ticks, and a level holds those that leave the
-- current block one level below.
use fengnet.Base.{ℕ, zero, suc, ◌+◌, ◌/◌, ◌%◌, ◌^◌, ◌≤◌, ◌<◌, ◌≡◌, ◌≢◌, subst, ◌⊎◌, inl, inr, arith}
use fengnet.Timer.{TimerNode, Timer}
use fengnet.Timer.Lists.{All, Within, All-within}

-- A node of `near[j]`. `lag` is 0 where the nodes that expire at `now` are still there, 1 after they
-- were taken out.
abbrev pub AtNear : ℕ → ℕ → ℕ → TimerNode → Type 0
AtNear lag now j n =
    (n.expire < 2 ^ 32)
    × (n.expire % 256 ≡ j)
    × (n.expire / 256 ≡ now / 256)
    × (now + lag ≤ n.expire)

-- A node of `t[i][j]`; there are four levels.
abbrev pub AtLevel : ℕ → ℕ → ℕ → TimerNode → Type 0
AtLevel zero now j n =
    (n.expire < 2 ^ 32)
    × (n.expire / 2 ^ 8 % 64 ≡ j)
    × (n.expire / 2 ^ 14 ≡ now / 2 ^ 14)
    × (now / 2 ^ 8 < n.expire / 2 ^ 8)
AtLevel (suc zero) now j n =
    (n.expire < 2 ^ 32)
    × (n.expire / 2 ^ 14 % 64 ≡ j)
    × (n.expire / 2 ^ 20 ≡ now / 2 ^ 20)
    × (now / 2 ^ 14 < n.expire / 2 ^ 14)
AtLevel (suc (suc zero)) now j n =
    (n.expire < 2 ^ 32)
    × (n.expire / 2 ^ 20 % 64 ≡ j)
    × (n.expire / 2 ^ 26 ≡ now / 2 ^ 26)
    × (now / 2 ^ 20 < n.expire / 2 ^ 20)
AtLevel (suc (suc (suc zero))) now j n =
    (n.expire < 2 ^ 32) × (n.expire / 2 ^ 26 ≡ j) × (now / 2 ^ 26 ≢ n.expire / 2 ^ 26)
AtLevel (suc (suc (suc (suc i)))) now j n = ⊥

pub record Wheel (lag : ℕ) (T : Timer) : Type 0 where
  pub fits : T.time < 2 ^ 32
  pub nears : (j : ℕ) → All (AtNear lag T.time j) (T.near j)
  pub levels : (i j : ℕ) → All (AtLevel i T.time j) (T.t i j)

-- The node waits somewhere in the wheel.
abbrev pub Holds : Timer → TimerNode → Type 0
Holds T n = ((j : ℕ) × Within n (T.near j)) ⊎ ((i : ℕ) × (j : ℕ) × Within n (T.t i j))

-- A node may be added at `now`: it does not lie behind in the current block of level 3.
abbrev pub Fits : ℕ → ℕ → TimerNode → Type 0
Fits lag now n = (n.expire < 2 ^ 32) × ((n.expire / 2 ^ 26 ≡ now / 2 ^ 26) → now + lag ≤ n.expire)

level_not_due : (i now j : ℕ) (n : TimerNode) → AtLevel i now j n → n.expire ≡ now → ⊥
level_not_due zero now j n h e = absurd (omega arith)
level_not_due (suc zero) now j n h e = absurd (omega arith)
level_not_due (suc (suc zero)) now j n h e = absurd (omega arith)
level_not_due (suc (suc (suc zero))) now j n h e = absurd (omega arith)
level_not_due (suc (suc (suc (suc i)))) now j n h e = h

-- The nodes that expire now are those of one list of `near`, no more and no less.
pub due_exact :
    (lag : ℕ) (T : Timer) (n : TimerNode)
    → Wheel lag T
    → (Holds T n × (n.expire ≡ T.time) → Within n (T.near (T.time % 256)))
      × (Within n (T.near (T.time % 256)) → Holds T n × (n.expire ≡ T.time))
due_exact lag T n w = (there, back)
  where
    there : Holds T n × (n.expire ≡ T.time) → Within n (T.near (T.time % 256))
    there (inl (j, m), e) =
        let at_j = All-within (AtNear lag T.time j) (T.near j) n (w.nears j) m in
        subst (λ k. Within n (T.near k)) (omega arith) m
    there (inr (i, j, m), e) = absurd (
        level_not_due i T.time j n (All-within (AtLevel i T.time j) (T.t i j) n (w.levels i j) m) e)

    back : Within n (T.near (T.time % 256)) → Holds T n × (n.expire ≡ T.time)
    back m =
        let at_j =
          All-within (AtNear lag T.time (T.time % 256)) (T.near (T.time % 256)) n
            (w.nears (T.time % 256)) m in
        (inl (T.time % 256, m), omega arith)
