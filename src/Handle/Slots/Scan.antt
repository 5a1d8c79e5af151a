-- ===== src/Handle/Slots/Scan.antt =====
-- The inner loop of `fengnet_handle_register` in fengnet_handle.cpp.
use fengnet.Base.{
  ℕ, zero, suc, ◌+◌, ◌-◌, ◌≤◌, ◌<◌, ◌≡◌, inl, inr, subst, ap, ◌∙◌, none, some, true, false,
  Bool-cases, arith, some-injective, trichotomy,
}
use fengnet.Handle.Slots.{HandleStorage, handle_mask, slot_at, hash, is_null, wrap, scan}

-- The handle that round `d` looks at.
unfoldable pub nth : ℕ → ℕ → ℕ
nth zero handle = wrap handle
nth (suc d) handle = nth d (wrap handle + 1)

abbrev pub IsFree : HandleStorage → ℕ → Type 0
IsFree s handle = is_null (slot_at s.slot (hash handle s.slot_size)) ≡ true

-- What the scan finds is a handle in range whose slot is free.
pub scan-some :
    (rounds handle h : ℕ) (s : HandleStorage)
    → 1 ≤ handle
    → scan rounds handle s ≡ some h
    → IsFree s h × (1 ≤ h) × (h ≤ handle_mask)
unfolding scan
scan-some zero handle h s pos e = cc
scan-some (suc rounds) handle h s pos e =
    elim (Bool-cases (is_null (slot_at s.slot (hash (wrap handle) s.slot_size)))) [
      | inl t ↦
          subst (λ x. IsFree s x × (1 ≤ x) × (x ≤ handle_mask)) (some-injective (rw t at e))
            (t, ground arith, ground arith)
      | inr t ↦ scan-some rounds (wrap handle + 1) h s (omega arith) (rw t at e)
    ]

-- A scan that finds nothing has met no free slot in any round.
pub scan-none :
    (rounds handle d : ℕ) (s : HandleStorage)
    → scan rounds handle s ≡ none
    → d < rounds
    → is_null (slot_at s.slot (hash (nth d handle) s.slot_size)) ≡ false
unfolding scan nth
scan-none zero handle d s e lt = absurd (omega arith)
scan-none (suc rounds) handle zero s e lt =
    elim (Bool-cases (is_null (slot_at s.slot (hash (wrap handle) s.slot_size)))) [
      | inl t ↦ cc (rw t at e)
      | inr t ↦ t
    ]
scan-none (suc rounds) handle (suc d) s e lt =
    elim (Bool-cases (is_null (slot_at s.slot (hash (wrap handle) s.slot_size)))) [
      | inl t ↦ cc (rw t at e)
      | inr t ↦ scan-none rounds (wrap handle + 1) d s (rw t at e) (omega arith)
    ]

wrap-low : (h : ℕ) → h ≤ handle_mask → wrap h ≡ h
wrap-low h le = ground arith

-- The handles in order, up to the largest and then on from 1.
pub nth-low : (d handle : ℕ) → handle + d ≤ handle_mask → nth d handle ≡ handle + d
unfolding nth
nth-low zero handle le = ground arith
nth-low (suc d) handle le =
    ap (λ t. nth d (t + 1)) (wrap-low handle (omega arith))
    ∙ nth-low d (handle + 1) (omega arith)
    ∙ omega arith

pub nth-high :
    (d handle : ℕ)
    → 1 ≤ handle
    → handle ≤ handle_mask + 1
    → handle_mask < handle + d
    → handle + d ≤ handle_mask + handle_mask
    → nth d handle ≡ handle + d - handle_mask
unfolding nth
nth-high zero handle pos le lt small = ground arith
nth-high (suc d) handle pos le lt small = elim (trichotomy handle (handle_mask + 1)) [
  | inl t ↦
      ap (λ t. nth d (t + 1)) (wrap-low handle (omega arith))
      ∙ nth-high d (handle + 1) (omega arith) (omega arith) (omega arith) (omega arith)
      ∙ omega arith
  | inr (inl t) ↦
      let first : wrap handle ≡ 1 = ground arith in
      ap (λ t. nth d (t + 1)) first ∙ nth-low d 2 (omega arith) ∙ omega arith
  | inr (inr t) ↦ absurd (omega arith)
]
