-- ===== src/Handle/Slots/Expand.antt =====
-- The expansion in `fengnet_handle_register` of fengnet_handle.cpp keeps the contexts under their
-- handles.
use fengnet.Base.{
  ℕ, zero, suc, ◌-◌, ◌*◌, ◌%◌, ◌^◌, ◌≤◌, ◌<◌, ◌≡◌, inl, inr, refl, sym, ap, ◌∙◌, Option, none, some,
  List, length, ◌==◌, ==_false, Bool-cases, length-replicate, replicate, get_or-replicate, le→ltb,
  le→leb, pow-pos, pow-suc, pow-le-pow_right, [], ◌∷◌, mod-lt, arith,
}
use fengnet.Handle.Slots.{HandleStorage, slot_at, expand, matching, handle_grab, handle_mask}
use fengnet.Handle.Slots.Table.{IsSlots, grab_lem, matching_other}
use fengnet.Handle.Slots.Rehash.{kept, moved, mod_half, rehash-moved}

-- The contexts of the old table are found under their handles in the new one.
kept-matching :
    (handles : ℕ → ℕ) (q size : ℕ) (o : Option ℕ)
    → matching handles q (kept handles size (q % size) o) ≡ matching handles q o
unfolding kept matching
kept-matching handles q size none = refl
kept-matching handles q size (some ctx) = elim (Bool-cases (handles ctx % size == q % size)) [
  | inl t ↦ rw t refl
  | inr t ↦ rw t (
      sym (
        matching_other handles q ctx
          (λ e. ==_false (handles ctx % size) (q % size) t (ap (λ x. x % size) e))))
]

pub kept-some :
    (handles : ℕ → ℕ) (size j ctx : ℕ) (o : Option ℕ)
    → kept handles size j o ≡ some ctx
    → handles ctx % size ≡ j
unfolding kept
kept-some handles size j ctx none e = cc
kept-some handles size j ctx (some c) e = ground arith

-- A context in a list of slots stands inside of it.
pub some_inside : (slot : List (Option ℕ)) (i ctx : ℕ) → slot_at slot i ≡ some ctx → i < length slot
some_inside [] i ctx e = cc
some_inside (x ∷ slot) zero ctx e = omega arith
some_inside (x ∷ slot) (suc i) ctx e = omega (arith, some_inside slot i ctx e)

-- What the expansion does to a table.
pub record Expanded (handles : ℕ → ℕ) (k : ℕ) (s s' : HandleStorage) : Type 0 where
  pub table : IsSlots handles (suc k) s'
  pub same : (q : ℕ) → handle_grab handles q s' ≡ handle_grab handles q s
  pub slots : (j : ℕ) → j < 2 ^ suc k → slot_at s'.slot j ≡ moved handles k s.slot j
  pub same_harbor : s'.harbor ≡ s.harbor
  pub same_index : s'.handle_index ≡ s.handle_index
  pub same_names : s'.names ≡ s.names

-- Below 2^24 slots the expansion fails no assert, and finds each handle as before.
pub expand-Expanded :
    (handles : ℕ → ℕ) (k : ℕ) (s : HandleStorage)
    → IsSlots handles k s
    → k < 24
    → (s' : HandleStorage) × (expand handles s ≡ some s') × Expanded handles k s s'
unfolding expand
expand-Expanded handles k s t lt =
    let size : s.slot_size * 2 ≡ 2 ^ suc k = ap (λ x. x * 2) t.width ∙ sym (pow-suc 2 k) in
    let fits : 2 ^ suc k ≤ 2 ^ 24 =
      pow-le-pow_right (omega arith) {i = suc k} {j = 24} (omega arith) in
    let (new, run, width, slots) =
      rehash-moved handles k s.slot t.placed s.slot_size 0 (s.slot_size * 2)
        (replicate (s.slot_size * 2) none) size (omega (arith, t.width))
        (length-replicate (s.slot_size * 2) none ∙ size)
        (λ j lt.
          get_or-replicate (s.slot_size * 2) j none
          ∙ rw (le→ltb (j % 2 ^ k) 0 (omega arith)) refl) in
    let s' : HandleStorage = record s { slot = new; slot_size = s.slot_size * 2 } in
    (
      s',
      rw (le→leb (s.slot_size * 2 - 1) handle_mask (omega (arith, size, fits)), run) refl,
      record {
        table = record {
          width = size;
          some_bit = omega arith;
          small = omega arith;
          storage = width;
          index_low = t.index_low;
          index_high = t.index_high;
          harbor_bits = t.harbor_bits;
          placed = λ i ctx e.
              kept-some handles (2 ^ suc k) i ctx (slot_at s.slot (i % 2 ^ k))
                (sym (slots i (omega (arith, some_inside new i ctx e, width))) ∙ e);
        };
        same = λ q.
            grab_lem handles (suc k) q s' size
            ∙ ap (matching handles q) (slots (q % 2 ^ suc k) (mod-lt q (pow-pos (suc k))))
            ∙ kept-matching handles q (2 ^ suc k) (slot_at s.slot (q % 2 ^ suc k % 2 ^ k))
            ∙ ap (λ x. matching handles q (slot_at s.slot x)) (mod_half q k)
            ∙ sym (grab_lem handles k q s t.width);
        slots = slots;
        same_harbor = refl;
        same_index = refl;
        same_names = refl;
      },
    )
