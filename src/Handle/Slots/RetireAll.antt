-- ===== src/Handle/Slots/RetireAll.antt =====
-- `fengnet_handle_retireall` of fengnet_handle.cpp, with no other thread registering meanwhile.
use fengnet.Base.{
  ℕ, zero, suc, ◌+◌, ◌%◌, ◌^◌, ◌≤◌, ◌<◌, ◌≡◌, ◌≢◌, refl, sym, subst, ap, ◌∙◌, inl, inr, Option,
  none, some, List, [], ◌∷◌, length, drop, ◌==◌, ==_iff, ne→==_false, ==_false, Bool-cases,
  Option-cases, true, ltb, ltb→lt, ltb→le, arith, append-nil,
}
use fengnet.Handle.Slots.{
  HandleStorage, slot_at, hash, live, handle_grab, matching, retire_pass, handle_retireall,
}
use fengnet.Handle.Slots.Table.{IsSlots, hash_lem, grab_lem, matching_own}
use fengnet.Handle.Slots.Names.{drop-set, drop-get_or}
use fengnet.Handle.Slots.Retire.{
  retired, retire_found, cleared_here, cleared_other, cleared_some, retired-IsSlots,
}

-- No slot holds a context.
abbrev pub Empty : HandleStorage → Type 0
Empty s = (i : ℕ) → slot_at s.slot i ≡ none

-- Every context in the table has a handle other than 0.
abbrev pub Assigned : (ℕ → ℕ) → HandleStorage → Type 0
Assigned handles s = (i ctx : ℕ) → slot_at s.slot i ≡ some ctx → handles ctx ≢ 0

-- What a pass leaves of a storage.
record Passed (handles : ℕ → ℕ) (k : ℕ) (gone : List ℕ) (r : ℕ × HandleStorage × List ℕ)
    : Type 0 where
  number : r.0 ≡ length gone
  empty : Empty r.1
  contexts : r.2 ≡ gone
  table : IsSlots handles k r.1

outside : (slot : List (Option ℕ)) (i : ℕ) → length slot ≤ i → slot_at slot i ≡ none
outside [] i h = refl
outside (x ∷ slot) zero h = absurd (omega arith)
outside (x ∷ slot) (suc i) h = outside slot i (omega arith)

drop_past : (slot : List (Option ℕ)) (i : ℕ) → length slot ≤ i → live (drop i slot) ≡ []
unfolding live
drop_past [] zero h = refl
drop_past [] (suc i) h = refl
drop_past (x ∷ slot) zero h = absurd (omega arith)
drop_past (x ∷ slot) (suc i) h = drop_past slot i (omega arith)

live-none :
    (slot : List (Option ℕ)) (i : ℕ)
    → i < length slot
    → slot_at slot i ≡ none
    → live (drop i slot) ≡ live (drop (suc i) slot)
unfolding live
live-none slot i h e =
    ap live (drop-get_or slot i none h) ∙ ap (λ o. live (o ∷ drop (suc i) slot)) e

live-some :
    (slot : List (Option ℕ)) (i ctx : ℕ)
    → i < length slot
    → slot_at slot i ≡ some ctx
    → live (drop i slot) ≡ ctx ∷ live (drop (suc i) slot)
unfolding live
live-some slot i ctx h e =
    ap live (drop-get_or slot i none h) ∙ ap (λ o. live (o ∷ drop (suc i) slot)) e

module _ (handles : ℕ → ℕ) (k : ℕ) where
  pub found_at :
      (i ctx : ℕ) (s : HandleStorage)
      → IsSlots handles k s
      → slot_at s.slot i ≡ some ctx
      → handle_grab handles (handles ctx) s ≡ some ctx
  found_at i ctx s t e =
      grab_lem handles k (handles ctx) s t.width
      ∙ ap (λ j. matching handles (handles ctx) (slot_at s.slot j)) (t.placed i ctx e)
      ∙ ap (matching handles (handles ctx)) e
      ∙ matching_own handles (handles ctx) ctx refl

  -- One more context retired in front of the rest of a pass.
  retired_first :
      (rounds i ctx : ℕ) (s : HandleStorage)
      → slot_at s.slot i ≡ some ctx
      → handles ctx ≢ 0
      → handle_grab handles (handles ctx) s ≡ some ctx
      → let r = retire_pass handles rounds (suc i) (retired (handles ctx) s) in
        retire_pass handles (suc rounds) i s ≡ (r.0 + 1, r.1, ctx ∷ r.2)
  unfolding retire_pass
  retired_first rounds i ctx s u ne found =
      rw (u, retire_pass)
        (rw (ne→==_false (handles ctx) 0 ne, retire_found handles (handles ctx) ctx s found) refl)

  -- A pass from slot `i` on, with the slots below cleared.
  retire_pass-Passed :
      (rounds i : ℕ) (s : HandleStorage)
      → IsSlots handles k s
      → Assigned handles s
      → i + rounds ≡ 2 ^ k
      → ((j : ℕ) → j < i → slot_at s.slot j ≡ none)
      → Passed handles k (live (drop i s.slot)) (retire_pass handles rounds i s)
  unfolding retire_pass live
  retire_pass-Passed zero i s t nonzero e below =
      let past : length s.slot ≤ i = omega (arith, t.storage) in
      record {
        number = ap length (sym (drop_past s.slot i past));
        empty = λ j. elim (Bool-cases (ltb j i)) [
          | inl u ↦ below j (ltb→lt j i u)
          | inr u ↦ outside s.slot j (omega (arith, ltb→le j i u))
        ];
        contexts = sym (drop_past s.slot i past);
        table = t;
      }
  retire_pass-Passed (suc rounds) i s t nonzero e below = elim (Option-cases (slot_at s.slot i)) [
    | inl u ↦
        let rest = retire_pass-Passed rounds (suc i) s t nonzero (omega arith) (up u) in
        subst (λ l. Passed handles k l (retire_pass handles (suc rounds) i s))
          (sym (live-none s.slot i (omega (arith, t.storage)) u)) (rw (u, retire_pass) rest)
    | inr (ctx, u) ↦
        let h : ℕ = handles ctx in
        let found = found_at i ctx s t u in
        let s₁ : HandleStorage = retired h s in
        let t₁ = retired-IsSlots handles k h ctx s t found in
        let rest =
          retire_pass-Passed rounds (suc i) s₁ t₁
            (λ j c z. nonzero j c (cleared_some handles k h ctx s t found j c z)) (omega arith)
            (cleared_up ctx u found) in
        subst (λ l. Passed handles k l (retire_pass handles (suc rounds) i s))
          (sym (live-some s.slot i ctx (omega (arith, t.storage)) u))
          (subst (Passed handles k (ctx ∷ live (drop (suc i) s.slot)))
            (sym (retired_first rounds i ctx s u (nonzero i ctx u) found))
            (record {
              number = omega (arith, rest.number, ap length (same ctx u));
              empty = rest.empty;
              contexts = ap (λ l. ctx ∷ l) (rest.contexts ∙ same ctx u);
              table = rest.table;
            }))
  ]
    where
      up : slot_at s.slot i ≡ none → (j : ℕ) → j < suc i → slot_at s.slot j ≡ none
      up u j lt = elim (Bool-cases (j == i)) [
        | inl v ↦ ap (slot_at s.slot) ((==_iff j i).0 v) ∙ u
        | inr v ↦ below j (omega (arith, ==_false j i v))
      ]

      same :
          (ctx : ℕ)
          → slot_at s.slot i ≡ some ctx
          → live (drop (suc i) (retired (handles ctx) s).slot) ≡ live (drop (suc i) s.slot)
      same ctx u = ap live (
          drop-set s.slot (suc i) (hash (handles ctx) s.slot_size) none
            (omega (arith, hash_lem (handles ctx) k s.slot_size t.width, t.placed i ctx u)))

      cleared_up :
          (ctx : ℕ)
          → slot_at s.slot i ≡ some ctx
          → handle_grab handles (handles ctx) s ≡ some ctx
          → (j : ℕ) → j < suc i
          → slot_at (retired (handles ctx) s).slot j ≡ none
      cleared_up ctx u found j lt = elim (Bool-cases (handles ctx % 2 ^ k == j)) [
        | inl v ↦
            ap (slot_at (retired (handles ctx) s).slot) (sym ((==_iff _ _).0 v))
            ∙ cleared_here handles k (handles ctx) ctx s t found
        | inr v ↦
            cleared_other handles k (handles ctx) ctx s t found j (==_false _ _ v)
            ∙ below j (omega (arith, ==_false _ _ v, t.placed i ctx u))
      ]

live_empty : (slot : List (Option ℕ)) → ((i : ℕ) → slot_at slot i ≡ none) → live slot ≡ []
unfolding live
live_empty [] e = refl
live_empty (none ∷ slot) e = live_empty slot (λ i. e (suc i))
live_empty (some ctx ∷ slot) e = cc (e 0)

all_slots :
    (handles : ℕ → ℕ) (k : ℕ) (s : HandleStorage)
    → IsSlots handles k s
    → Assigned handles s
    → Passed handles k (live s.slot) (retire_pass handles s.slot_size 0 s)
all_slots handles k s t nonzero =
    retire_pass-Passed handles k s.slot_size 0 s t nonzero (omega (arith, t.width))
      (λ j lt. absurd (omega arith))

-- The pass that finds no context is the last.
last_pass :
    (handles : ℕ → ℕ) (k fuel : ℕ) (s : HandleStorage)
    → IsSlots handles k s
    → Empty s
    → (s' : HandleStorage) × (handle_retireall (suc fuel) handles s ≡ some (s', []))
      × Empty s'
      × IsSlots handles k s'
unfolding handle_retireall
last_pass handles k fuel s t empty =
    let p = all_slots handles k s t (λ i ctx e. cc (empty i, e)) in
    let nothing = live_empty s.slot empty in
    let r : ℕ × HandleStorage × List ℕ = retire_pass handles s.slot_size 0 s in
    let none_met : (r.0 == 0) ≡ true = (==_iff r.0 0).1 (p.number ∙ ap length nothing) in
    (r.1, rw none_met (ap (λ l. some (r.1, l)) (p.contexts ∙ nothing)), p.empty, p.table)

-- `fengnet_handle_retireall` of a well-formed table in which every context has its handle ends in at
-- most two passes: it releases each context of the table once, in the order of the slots, and leaves
-- every slot empty.
pub handle_retireall-Empty :
    (handles : ℕ → ℕ) (k fuel : ℕ) (s : HandleStorage)
    → IsSlots handles k s
    → Assigned handles s
    → (s' : HandleStorage) × (handle_retireall (suc (suc fuel)) handles s ≡ some (s', live s.slot))
      × Empty s'
      × IsSlots handles k s'
unfolding handle_retireall
handle_retireall-Empty handles k fuel s t nonzero =
    let p = all_slots handles k s t nonzero in
    let r : ℕ × HandleStorage × List ℕ = retire_pass handles s.slot_size 0 s in
    elim (Bool-cases (r.0 == 0)) [
      | inl u ↦ (r.1, rw u (ap (λ l. some (r.1, l)) p.contexts), p.empty, p.table)
      | inr u ↦
          let (s', e, empty, table) = last_pass handles k fuel r.1 p.table p.empty in
          (s', rw (u, e) (ap (λ l. some (s', l)) (append-nil r.2 ∙ p.contexts)), empty, table)
    ]
