-- ===== src/Handle/Slots/Retire.antt =====
-- `fengnet_handle_retire` of fengnet_handle.cpp.
use fengnet.Base.{
  ℕ, ◌%◌, ◌^◌, ◌≡◌, ◌≢◌, ◌⊎◌, refl, sym, ap, ◌∙◌, inl, inr, Option, none, some, List, ◌==◌, ==_iff,
  ==_false, Bool-cases, true, false, set, length-set, get_or-set_self, get_or-set_ne, pow-pos,
  mod-lt, arith,
}
use fengnet.Handle.{findname}
use fengnet.Handle.Find.{IsTable}
use fengnet.Handle.Slots.{
  HandleStorage, slot_at, hash, matching, handle_grab, handle_retire, without_names,
}
use fengnet.Handle.Slots.Table.{
  IsSlots, hash_lem, grab_lem, matching_other, matching-none, matching-some,
}
use fengnet.Handle.Slots.Forget.{forgotten, without_names-IsTable}

-- The storage with the slot of a handle cleared and its names removed.
abbrev pub retired : ℕ → HandleStorage → HandleStorage
retired handle s = record s {
  slot = set s.slot (hash handle s.slot_size) none;
  names = without_names handle s.names;
}

pub retire_found :
    (handles : ℕ → ℕ) (handle ctx : ℕ) (s : HandleStorage)
    → handle_grab handles handle s ≡ some ctx
    → handle_retire handles handle s ≡ (true, retired handle s, some ctx)
unfolding handle_retire
retire_found handles handle ctx s e = rw (e, handle_retire) refl

pub retire_missing :
    (handles : ℕ → ℕ) (handle : ℕ) (s : HandleStorage)
    → handle_grab handles handle s ≡ none
    → handle_retire handles handle s ≡ (false, s, none)
unfolding handle_retire
retire_missing handles handle s e = rw (e, handle_retire) refl

module _ (handles : ℕ → ℕ) (k handle ctx : ℕ) (s : HandleStorage) (t : IsSlots handles k s)
    (found : handle_grab handles handle s ≡ some ctx) where
  abbrev at : ℕ
  at = handle % 2 ^ k

  abbrev slots : List (Option ℕ)
  slots = (retired handle s).slot

  held : (slot_at s.slot at ≡ some ctx) × (handles ctx ≡ handle)
  held =
      matching-some handles handle ctx (slot_at s.slot at)
        (sym (grab_lem handles k handle s t.width) ∙ found)

  at-hash : hash handle s.slot_size ≡ at
  at-hash = hash_lem handle k s.slot_size t.width

  pub cleared_here : slot_at slots at ≡ none
  cleared_here =
      ap (λ x. slot_at (set s.slot x none) at) at-hash
      ∙ get_or-set_self s.slot at none none (omega (arith, t.storage, mod-lt handle (pow-pos k)))

  pub cleared_other : (j : ℕ) → at ≢ j → slot_at slots j ≡ slot_at s.slot j
  cleared_other j ne =
      ap (λ x. slot_at (set s.slot x none) j) at-hash ∙ get_or-set_ne s.slot at j none none ne

  -- A slot of the storage afterwards holds what it held before.
  pub cleared_some : (j c : ℕ) → slot_at slots j ≡ some c → slot_at s.slot j ≡ some c
  cleared_some j c e = elim (Bool-cases (at == j)) [
    | inl u ↦ cc (sym cleared_here ∙ ap (slot_at slots) ((==_iff at j).0 u) ∙ e)
    | inr u ↦ sym (cleared_other j (==_false at j u)) ∙ e
  ]

  pub retired-IsSlots : IsSlots handles k (retired handle s)
  retired-IsSlots = record {
    width = t.width;
    some_bit = t.some_bit;
    small = t.small;
    storage = length-set s.slot (hash handle s.slot_size) none ∙ t.storage;
    index_low = t.index_low;
    index_high = t.index_high;
    harbor_bits = t.harbor_bits;
    placed = λ i c e. t.placed i c (cleared_some i c e);
  }

  gone : handle_grab handles handle (retired handle s) ≡ none
  gone =
      grab_lem handles k handle (retired handle s) t.width
      ∙ ap (matching handles handle) cleared_here
      ∙ matching-none handles handle

  others : (q : ℕ) → q ≢ handle → handle_grab handles q (retired handle s) ≡ handle_grab handles q s
  others q ne =
      grab_lem handles k q (retired handle s) t.width
      ∙ slot_of (Bool-cases (at == q % 2 ^ k))
      ∙ sym (grab_lem handles k q s t.width)
    where
      slot_of :
          ((at == q % 2 ^ k) ≡ true) ⊎ ((at == q % 2 ^ k) ≡ false)
          → matching handles q (slot_at slots (q % 2 ^ k))
            ≡ matching handles q (slot_at s.slot (q % 2 ^ k))
      slot_of (inr u) = ap (matching handles q) (cleared_other (q % 2 ^ k) (==_false _ _ u))
      slot_of (inl u) =
          let same : at ≡ q % 2 ^ k = (==_iff _ _).0 u in
          ap (λ j. matching handles q (slot_at slots j)) (sym same)
          ∙ ap (matching handles q) cleared_here
          ∙ matching-none handles q
          ∙ sym (
              ap (λ j. matching handles q (slot_at s.slot j)) (sym same)
              ∙ ap (matching handles q) held.0
              ∙ matching_other handles q ctx (λ z. ne (sym z ∙ held.1)))

-- What `fengnet_handle_retire` does to a storage with the handle.
pub record Retired (handles : ℕ → ℕ) (k handle : ℕ) (s s' : HandleStorage) : Type 0 where
  pub slots : IsSlots handles k s'
  pub gone : handle_grab handles handle s' ≡ none
  pub others : (q : ℕ) → q ≢ handle → handle_grab handles q s' ≡ handle_grab handles q s
  pub names : IsTable s'.names
  pub forgets : (key : List ℕ) → findname key s'.names ≡ forgotten handle (findname key s.names)

-- `fengnet_handle_retire` of a handle that finds a context: it returns 1 and releases that context;
-- afterwards the handle finds nothing, every other handle finds what it found before, no name leads
-- to the handle, every other name leads where it led, and both tables stay well formed.
pub handle_retire-Retired :
    (handles : ℕ → ℕ) (k handle ctx : ℕ) (s : HandleStorage)
    → IsSlots handles k s
    → IsTable s.names
    → handle_grab handles handle s ≡ some ctx
    → (s' : HandleStorage) × (handle_retire handles handle s ≡ (true, s', some ctx))
      × Retired handles k handle s s'
handle_retire-Retired handles k handle ctx s t names found =
    let n = without_names-IsTable handle s.names names in
    (
      retired handle s,
      retire_found handles handle ctx s found,
      record {
        slots = retired-IsSlots handles k handle ctx s t found;
        gone = gone handles k handle ctx s t found;
        others = others handles k handle ctx s t found;
        names = n.0;
        forgets = n.1;
      },
    )
