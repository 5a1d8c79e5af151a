-- ===== src/Monitor/Suspect.antt =====
-- Which worker `fengnet_monitor_check` of fengnet_monitor.cpp takes to be in an endless loop.
use fengnet.Base.{
  ℕ, ◌+◌, ◌%◌, ◌^◌, ◌<◌, ◌≡◌, ◌≢◌, refl, sym, ◌∙◌, true, false, Option, some, List, [], ◌∷◌, length,
  ◌==◌, arith, Bool-cases, inl, inr, ==_iff, ne→==_false, ==_false, ◌⊎◌,
}
use fengnet.Server.{Node, context_endless}
use fengnet.Server.Push.{IsNode}
use fengnet.Server.Endless.{Marks, context_endless-Marks}
use fengnet.Monitor.{Monitor, monitor_trigger, suspects, checked, monitor_check, with_monitor}

-- Triggers in order, each with a source and a destination.
abbrev pub triggered : List (ℕ × ℕ) → Monitor → Monitor
triggered [] sm = sm
triggered (t ∷ ts) sm = triggered ts (monitor_trigger t.0 t.1 sm)

version-triggered :
    (ts : List (ℕ × ℕ)) (sm : Monitor)
    → sm.version < 2 ^ 32
    → (triggered ts sm).version ≡ (sm.version + length ts) % 2 ^ 32
version-triggered [] sm lt = omega arith
version-triggered (t ∷ ts) sm lt =
    version-triggered ts (monitor_trigger t.0 t.1 sm) (omega arith) ∙ omega arith

check_version-triggered :
    (ts : List (ℕ × ℕ)) (sm : Monitor) → (triggered ts sm).check_version ≡ sm.check_version
check_version-triggered [] sm = refl
check_version-triggered (t ∷ ts) sm = check_version-triggered ts (monitor_trigger t.0 t.1 sm)

version-checked : (sm : Monitor) → (checked sm).check_version ≡ sm.version
version-checked sm = ground arith

-- After a check and some triggers, fewer than 2^32, the next check suspects no one.
pub moving :
    (t : ℕ × ℕ) (ts : List (ℕ × ℕ)) (sm : Monitor)
    → sm.version < 2 ^ 32
    → length (t ∷ ts) < 2 ^ 32
    → suspects (triggered (t ∷ ts) (checked sm)) ≡ false
moving t ts sm lt few =
    let ne : (triggered (t ∷ ts) (checked sm)).version
        ≢ (triggered (t ∷ ts) (checked sm)).check_version =
      λ e. omega (
        arith,
        version-triggered (t ∷ ts) (checked sm) lt,
        check_version-triggered (t ∷ ts) (checked sm),
        version-checked sm,
        e,
      ) in
    rw (ne→==_false _ _ ne) refl

-- Where no one is suspected the check leaves the node as it is.
quiet_lem :
    (sm : Monitor) (n : Node) → suspects sm ≡ false → monitor_check sm n ≡ some (checked sm, n)
unfolding monitor_check
quiet_lem sm n e = rw e refl

-- What a second check does, for a worker at a message to `destination` whose monitor is `k` after the first
-- check, with the triggers between them. It leaves the node as it is when there was a trigger or the
-- worker had no message; else it marks the context with that handle, if there is one.
abbrev pub Watched : List (ℕ × ℕ) → ℕ → Monitor → Node → Option (Monitor × Node) → Type 0
Watched ts destination k n run =
    ((ts ≢ []) × (run ≡ some (checked (triggered ts k), n)))
    ⊎ ((ts ≡ []) × (destination ≡ 0) × (run ≡ some (checked k, n)))
    ⊎ ((ts ≡ [])
        × (destination ≢ 0)
        × (marked : Option Node) × Marks n destination marked
        × (run ≡ with_monitor (checked k) marked))

watched_lem :
    (ts : List (ℕ × ℕ)) (sm : Monitor) (n : Node) (ids : List ℕ)
    → IsNode n ids
    → sm.version < 2 ^ 32
    → length ts < 2 ^ 32
    → Watched ts sm.destination (checked sm) n (monitor_check (triggered ts (checked sm)) n)
unfolding monitor_check
watched_lem (t ∷ ts) sm n ids v lt few =
    inl (λ e. cc, quiet_lem (triggered (t ∷ ts) (checked sm)) n (moving t ts sm lt few))
watched_lem [] sm n ids v lt few = elim (Bool-cases (sm.destination == 0)) [
  | inl idle ↦ inr (
      inl (refl, (==_iff sm.destination 0).0 idle, quiet_lem (checked sm) n (ground (arith, idle))))
  | inr busy ↦
      let same : ((checked sm).version == (checked sm).check_version) ≡ true =
        (==_iff (checked sm).version (checked sm).check_version).1 (sym (version-checked sm)) in
      inr (
        inr (
          refl,
          ==_false sm.destination 0 busy,
          context_endless sm.destination n,
          context_endless-Marks n ids sm.destination v,
          rw (same, busy) refl,
        ))
]

-- A worker on a well-formed node that was triggered for a message from `source` to `destination`, with two
-- checks after it and fewer than 2^32 triggers between these: the second check marks a context just when
-- there was no trigger between and the destination is not 0, and it marks the context with the handle
-- `destination`.
pub monitor_check-Watched :
    (source destination : ℕ) (ts : List (ℕ × ℕ)) (sm : Monitor) (n : Node) (ids : List ℕ)
    → IsNode n ids
    → length ts < 2 ^ 32
    → (let k = checked (monitor_trigger source destination sm) in
        Watched ts destination k n (monitor_check (triggered ts k) n))
monitor_check-Watched source destination ts sm n ids v few =
    watched_lem ts (monitor_trigger source destination sm) n ids v (omega arith) few
