-- ===== src/Handle/Slots/Occupy.antt =====
-- A context put into a free slot by `fengnet_handle_register` of fengnet_handle.cpp.
use fengnet.Base.{
  ℕ, ◌/◌, ◌%◌, ◌^◌, ◌≤◌, ◌<◌, ◌≡◌, ◌≢◌, inl, inr, refl, sym, subst, ap, ◌∙◌, bit_or, Option, none,
  some, List, length, ◌==◌, ==_refl, ==_iff, ==_false, ne→==_false, Bool-cases, true, if◌then◌else◌,
  set, length-set, get_or-set_self, get_or-set_ne, or_fields, pow-pos, mod-lt, some-injective,
  arith,
}
use fengnet.Handle.Slots.{
  HandleStorage, slot_at, hash, is_null, handle_mask, occupy, matching, handle_grab,
}
use fengnet.Handle.Slots.Table.{
  IsSlots, hash_lem, grab_lem, low_bits, matching_own, matching_other, matching-none,
}
use fengnet.Handle.Slots.Scan.{IsFree}

-- The handles once `fengnet_context_new` has stored the handle of `ctx` in it.
abbrev pub assign : (ℕ → ℕ) → ℕ → ℕ → ℕ → ℕ
assign handles ctx handle c = if c == ctx then handle else handles c

-- `s'` is `s` with `ctx` under the new handle: the handle was free and carries the harbor of the
-- storage, every other handle finds what it found before.
pub record Registered (handles : ℕ → ℕ) (ctx handle : ℕ) (s s' : HandleStorage) : Type 0 where
  pub fresh : handle_grab handles handle s ≡ none
  pub index_bits : (0 < handle % 2 ^ 24) × (handle / 2 ^ 24 ≡ s.harbor / 2 ^ 24)
  pub log_size : ℕ
  pub table : IsSlots (assign handles ctx handle) log_size s'
  pub here : handle_grab (assign handles ctx handle) handle s' ≡ some ctx
  pub others :
      (q : ℕ) → q ≢ handle → handle_grab (assign handles ctx handle) q s' ≡ handle_grab handles q s
  pub same_names : s'.names ≡ s.names

pub null-none : (o : Option ℕ) → is_null o ≡ true → o ≡ none
unfolding is_null
null-none none e = refl
null-none (some c) e = cc

module _ (handles : ℕ → ℕ) (ctx k h : ℕ) (s : HandleStorage) (t : IsSlots handles k s)
    (absent : (i : ℕ) → slot_at s.slot i ≢ some ctx) (is_free : IsFree s h) (low : 1 ≤ h)
    (high : h ≤ handle_mask) where
  abbrev handle : ℕ
  handle = bit_or h s.harbor

  abbrev at : ℕ
  at = h % 2 ^ k

  at-hash : hash h s.slot_size ≡ at
  at-hash = hash_lem h k s.slot_size t.width

  abbrev slots : List (Option ℕ)
  slots = set s.slot (hash h s.slot_size) (some ctx)

  handle_at : handle % 2 ^ k ≡ at
  handle_at = low_bits h s.harbor k t.harbor_bits (omega arith) t.small

  at_inside : at < length s.slot
  at_inside = omega (arith, t.storage, mod-lt h (pow-pos k))

  was_none : slot_at s.slot at ≡ none
  was_none =
      null-none (slot_at s.slot at) (subst (λ x. is_null (slot_at s.slot x) ≡ true) at-hash is_free)

  slots_here : slot_at slots at ≡ some ctx
  slots_here =
      ap (λ x. slot_at (set s.slot x (some ctx)) at) at-hash
      ∙ get_or-set_self s.slot at (some ctx) none at_inside

  slots_other : (j : ℕ) → at ≢ j → slot_at slots j ≡ slot_at s.slot j
  slots_other j ne =
      ap (λ x. slot_at (set s.slot x (some ctx)) j) at-hash
      ∙ get_or-set_ne s.slot at j (some ctx) none ne

  assign_new : assign handles ctx handle ctx ≡ handle
  assign_new = rw (==_refl ctx) refl

  assign_old : (c : ℕ) → c ≢ ctx → assign handles ctx handle c ≡ handles c
  assign_old c ne = rw (ne→==_false c ctx ne) refl

  grabbed :
      (q : ℕ) (o : Option ℕ)
      → ((c : ℕ) → o ≡ some c → c ≢ ctx)
      → matching (assign handles ctx handle) q o ≡ matching handles q o
  unfolding matching
  grabbed q none ne = refl
  grabbed q (some c) ne = ap (λ x. if x == q then some c else none) (assign_old c (ne c refl))

  new_placed : (i c : ℕ) → slot_at slots i ≡ some c → assign handles ctx handle c % 2 ^ k ≡ i
  new_placed i c e = elim (Bool-cases (at == i)) [
    | inl u ↦
        let same : at ≡ i = (==_iff at i).0 u in
        let is_ctx : ctx ≡ c = some-injective (sym slots_here ∙ ap (slot_at slots) same ∙ e) in
        ap (λ x. assign handles ctx handle x % 2 ^ k) (sym is_ctx)
        ∙ ap (λ x. x % 2 ^ k) assign_new
        ∙ handle_at
        ∙ same
    | inr u ↦
        let was : slot_at s.slot i ≡ some c = sym (slots_other i (==_false at i u)) ∙ e in
        ap (λ x. x % 2 ^ k) (assign_old c (λ z. absent i (was ∙ ap some z))) ∙ t.placed i c was
  ]

  pub occupy-Registered : Registered handles ctx (bit_or h s.harbor) s (occupy ctx h s)
  occupy-Registered = record {
    fresh =
        grab_lem handles k handle s t.width
        ∙ ap (λ x. matching handles handle (slot_at s.slot x)) handle_at
        ∙ ap (matching handles handle) was_none
        ∙ matching-none handles handle;
    index_bits =
        omega
          (arith, t.harbor_bits, ap (bit_or h) t.harbor_bits, or_fields 24 (s.harbor / 2 ^ 24) h);
    log_size = k;
    table = record {
      width = t.width;
      some_bit = t.some_bit;
      small = t.small;
      storage = length-set s.slot (hash h s.slot_size) (some ctx) ∙ t.storage;
      index_low = omega arith;
      index_high = omega arith;
      harbor_bits = t.harbor_bits;
      placed = new_placed;
    };
    here =
        grab_lem (assign handles ctx handle) k handle (occupy ctx h s) t.width
        ∙ ap (λ x. matching (assign handles ctx handle) handle (slot_at slots x)) handle_at
        ∙ ap (matching (assign handles ctx handle) handle) slots_here
        ∙ matching_own (assign handles ctx handle) handle ctx assign_new;
    others = λ q ne.
        grab_lem (assign handles ctx handle) k q (occupy ctx h s) t.width
        ∙ other q ne
        ∙ sym (grab_lem handles k q s t.width);
    same_names = refl;
  }
    where
      other :
          (q : ℕ)
          → q ≢ handle
          → matching (assign handles ctx handle) q (slot_at slots (q % 2 ^ k))
            ≡ matching handles q (slot_at s.slot (q % 2 ^ k))
      other q ne = elim (Bool-cases (at == q % 2 ^ k)) [
        | inl u ↦
            let same : at ≡ q % 2 ^ k = (==_iff _ _).0 u in
            ap (matching (assign handles ctx handle) q) (ap (slot_at slots) (sym same) ∙ slots_here)
            ∙ matching_other (assign handles ctx handle) q ctx (λ z. ne (sym z ∙ assign_new))
            ∙ sym (
                ap (matching handles q) (ap (slot_at s.slot) (sym same) ∙ was_none)
                ∙ matching-none handles q)
        | inr u ↦
            ap (matching (assign handles ctx handle) q) (slots_other (q % 2 ^ k) (==_false _ _ u))
            ∙ grabbed q (slot_at s.slot (q % 2 ^ k)) (λ c e z. absent (q % 2 ^ k) (e ∙ ap some z))
      ]
