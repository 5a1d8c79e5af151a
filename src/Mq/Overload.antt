-- ===== src/Mq/Overload.antt =====
-- The overload mark of fengnet_mq.cpp: the loop of `fengnet_mq_pop` that doubles the threshold.
use fengnet.Base.{
  ℕ, zero, suc, ◌+◌, ◌*◌, ◌≤◌, ◌<◌, ◌≡◌, refl, ap, inl, inr, ltb, leb, Bool-cases, ltb→lt, ltb→le,
  arith, if◌then◌else◌, length, length-tabulate,
}
use fengnet.Mq.{MessageQueue, pop_head, raise_overload, ring_length}
use fengnet.Mq.Ring.{IsValid, contents}

raise-stop :
    (fuel len over threshold : ℕ)
    → len ≤ threshold
    → raise_overload fuel len (over, threshold) ≡ (over, threshold)
unfolding raise_overload
raise-stop zero len over threshold h = refl
raise-stop (suc fuel) len over threshold h = ground arith

-- With a positive threshold, fuel of the length is enough: the loop ends by its test, and when it
-- ran at all it stored the length and stopped below twice the length.
raise-ends :
    (fuel len over threshold : ℕ)
    → 0 < threshold
    → len < threshold + suc fuel
    → let (over', threshold') = raise_overload fuel len (over, threshold) in
      (len ≤ threshold') × (threshold < len → (over' ≡ len) × (threshold' < len + len))
unfolding raise_overload
raise-ends zero len over threshold pos h = (omega arith, λ lt. absurd (omega arith))
raise-ends (suc fuel) len over threshold pos h = elim (Bool-cases (ltb threshold len)) [
  | inl more ↦ rw more (again (raise-ends fuel len len (threshold * 2) (omega arith) (omega arith)))
  | inr stop ↦ rw stop (ltb→le _ _ stop, λ lt. absurd (omega (arith, ltb→le _ _ stop)))
]
  where
    again :
        let (over', threshold') = raise_overload fuel len (len, threshold * 2) in
        (len ≤ threshold') × (threshold * 2 < len → (over' ≡ len) × (threshold' < len + len))
        → let (over', threshold') = raise_overload fuel len (len, threshold * 2) in
          (len ≤ threshold') × (threshold < len → (over' ≡ len) × (threshold' < len + len))
    again ih = (
      ih.0,
      λ lt. elim (Bool-cases (ltb (threshold * 2) len)) [
        | inl more ↦ ih.1 (ltb→lt _ _ more)
        | inr stop ↦
            let e = raise-stop fuel len len (threshold * 2) (ltb→le _ _ stop) in
            (ap (λ (r : ℕ × ℕ). r.0) e, omega (arith, ap (λ (r : ℕ × ℕ). r.1) e))
      ],
    )

-- `fengnet_mq_pop` with a message keeps the threshold positive and not below the length that is
-- left. It sets the mark to that length when the threshold was below it, and leaves mark and
-- threshold alone when it was not.
pub pop-overload :
    (q : MessageQueue)
    → IsValid q
    → 0 < q.overload_threshold
    → let q' = pop_head q in
      let len = length (contents q') in
      (len ≤ q'.overload_threshold)
      × (0 < q'.overload_threshold)
      × (q.overload_threshold < len → (q'.overload ≡ len) × (q'.overload_threshold < len + len))
      × (len ≤ q.overload_threshold
          → (q'.overload ≡ q.overload) × (q'.overload_threshold ≡ q.overload_threshold))
unfolding pop_head
pop-overload q v pos = rw (length-tabulate len _) (
  raised.0,
  kept,
  raised.1,
  λ le. (ap (λ (r : ℕ × ℕ). r.0) (stop le), ap (λ (r : ℕ × ℕ). r.1) (stop le)),
)
  where
    h' : ℕ
    h' = if leb q.cap (q.head + 1) then 0 else q.head + 1

    len : ℕ
    len = ring_length h' q.tail q.cap

    raised :
        let (over', threshold') = raise_overload len len (q.overload, q.overload_threshold) in
        (len ≤ threshold') × (q.overload_threshold < len → (over' ≡ len) × (threshold' < len + len))
    raised = raise-ends len len q.overload q.overload_threshold pos (omega arith)

    stop :
        len ≤ q.overload_threshold
        → raise_overload len len (q.overload, q.overload_threshold)
          ≡ (q.overload, q.overload_threshold)
    stop = raise-stop len len q.overload q.overload_threshold

    kept : 0 < (raise_overload len len (q.overload, q.overload_threshold)).1
    kept = elim (Bool-cases (ltb q.overload_threshold len)) [
      | inl more ↦ omega (arith, raised.0, ltb→lt _ _ more)
      | inr le ↦ omega (arith, ap (λ (r : ℕ × ℕ). r.1) (stop (ltb→le _ _ le)))
    ]
