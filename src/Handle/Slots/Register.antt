-- ===== src/Handle/Slots/Register.antt =====
-- `fengnet_handle_register` of fengnet_handle.cpp with its expansion.
use fengnet.Base.{
  ℕ, suc, ◌+◌, ◌-◌, ◌*◌, ◌/◌, ◌%◌, ◌^◌, ◌≤◌, ◌<◌, ◌≡◌, ◌≢◌, ◌⊎◌, inl, inr, refl, sym, subst, ap,
  ◌∙◌, bit_or, Option, none, some, List, [], Option-cases, false, pow-pos, pow-suc,
  pow-le-pow_right, pow_add, mod-half_ne, mod-lt, add-mod_right, mul-add-mod_self_right, trichotomy,
  arith,
}
use fengnet.Handle.Slots.{
  HandleStorage, slot_at, hash, is_null, scan, expand, live, registered, occupy, register_loop,
  handle_register,
}
use fengnet.Handle.Slots.Table.{IsSlots, hash_lem}
use fengnet.Handle.Slots.Scan.{nth, nth-low, nth-high, scan-some, scan-none}
use fengnet.Handle.Slots.Rehash.{kept, mod_half}
use fengnet.Handle.Slots.Expand.{Expanded, expand-Expanded, some_inside}
use fengnet.Handle.Slots.Occupy.{Registered, occupy-Registered}

-- One context cannot be kept in two places.
kept_once :
    (handles : ℕ → ℕ) (size i j : ℕ) (o : Option ℕ)
    → is_null (kept handles size i o) ≡ false
    → is_null (kept handles size j o) ≡ false
    → i ≡ j
unfolding kept is_null
kept_once handles size i j none e e' = cc
kept_once handles size i j (some ctx) e e' = ground arith

kept-some :
    (handles : ℕ → ℕ) (size j ctx : ℕ) (o : Option ℕ)
    → kept handles size j o ≡ some ctx
    → o ≡ some ctx
unfolding kept
kept-some handles size j ctx none e = cc
kept-some handles size j ctx (some c) e = ground arith

module _ (handles : ℕ → ℕ) (k : ℕ) (s s' : HandleStorage) (bit : 1 ≤ k) (lt : k < 24)
    (x : Expanded handles k s s') where
  -- Of two handles half a table apart one finds its slot free.
  not_both :
      (a b : ℕ)
      → a % 2 ^ k ≡ b % 2 ^ k
      → a % 2 ^ suc k ≢ b % 2 ^ suc k
      → is_null (slot_at s'.slot (hash a s'.slot_size)) ≡ false
      → is_null (slot_at s'.slot (hash b s'.slot_size)) ≡ false
      → ⊥
  not_both a b same ne e e' = ne (
      kept_once handles (2 ^ suc k) (a % 2 ^ suc k) (b % 2 ^ suc k) (slot_at s.slot (a % 2 ^ k))
        (subst (λ o. is_null o ≡ false) (at a refl) e)
        (subst (λ o. is_null o ≡ false) (at b same) e'))
    where
      at :
          (c : ℕ)
          → a % 2 ^ k ≡ c % 2 ^ k
          → slot_at s'.slot (hash c s'.slot_size)
            ≡ kept handles (2 ^ suc k) (c % 2 ^ suc k) (slot_at s.slot (a % 2 ^ k))
      at c e =
          ap (slot_at s'.slot) (hash_lem c (suc k) s'.slot_size x.table.width)
          ∙ x.slots (c % 2 ^ suc k) (mod-lt c (pow-pos (suc k)))
          ∙ ap (λ i. kept handles (2 ^ suc k) (c % 2 ^ suc k) (slot_at s.slot i))
              (mod_half c k ∙ sym e)

  half_apart :
      (a : ℕ) → (a % 2 ^ k ≡ (a + 2 ^ k) % 2 ^ k) × (a % 2 ^ suc k ≢ (a + 2 ^ k) % 2 ^ suc k)
  half_apart a = (
    sym (add-mod_right a (2 ^ k)),
    λ e.
        mod-half_ne a (2 ^ k) (pow-pos k)
          (subst (λ m. (a + 2 ^ k) % m ≡ a % m) (pow-suc 2 k) (sym e)),
  )

  twice : 2 ^ suc k ≡ 2 ^ k * 2
  twice = pow-suc 2 k

  two : 2 ≤ 2 ^ k
  two = omega (arith, pow-le-pow_right {n = 2} (omega arith) {i = 1} {j = k} bit)

  half : 2 ^ k ≤ 2 ^ 23
  half = pow-le-pow_right (omega arith) {i = k} {j = 23} (omega arith)

  -- The multiples of 2^(k + 1) up to 2^24.
  whole : 2 ^ 24 ≡ 2 ^ (23 - k) * 2 ^ suc k
  whole = let e : 24 ≡ 23 - k + suc k = omega arith in ap (λ t. 2 ^ t) e ∙ pow_add (23 - k) (suc k)

  -- After the expansion the scan finds a free slot.
  scan_finds : (h : ℕ) × (scan s'.slot_size s'.handle_index s' ≡ some h)
  scan_finds = elim (Option-cases (scan s'.slot_size s'.handle_index s')) [
    | inr found ↦ found
    | inl e ↦ absurd (
        fails
          (λ d lt. scan-none s'.slot_size s'.handle_index d s' e (omega (arith, x.table.width))))
  ]
    where
      fails :
          ((d : ℕ)
            → d < 2 ^ suc k
            → is_null (slot_at s'.slot (hash (nth d s'.handle_index) s'.slot_size)) ≡ false)
          → ⊥
      fails full = elim (trichotomy (s'.handle_index + 2 ^ k) 0x1000000) [
        | inl lt ↦
            let p = half_apart s'.handle_index in
            not_both s'.handle_index (s'.handle_index + 2 ^ k) p.0 p.1
              (subst (λ a. is_null (slot_at s'.slot (hash a s'.slot_size)) ≡ false)
                (nth-low 0 s'.handle_index (omega arith) ∙ omega arith) (full 0 (pow-pos (suc k))))
              (subst (λ a. is_null (slot_at s'.slot (hash a s'.slot_size)) ≡ false)
                (nth-low (2 ^ k) s'.handle_index (omega arith))
                (full (2 ^ k) (omega (arith, twice, pow-pos k))))
        | inr (inl eq) ↦
            let p = half_apart (s'.handle_index + 1) in
            let last : s'.handle_index + 1 + 2 ^ k ≡ 2 ^ (23 - k) * 2 ^ suc k + 1 =
              omega (arith, whole) in
            let one : (s'.handle_index + 1 + 2 ^ k) % 2 ^ suc k ≡ 1 % 2 ^ suc k =
              ap (λ t. t % 2 ^ suc k) last ∙ mul-add-mod_self_right (2 ^ (23 - k)) (2 ^ suc k) 1 in
            not_both (s'.handle_index + 1) 1
              (p.0
                ∙ sym (mod_half (s'.handle_index + 1 + 2 ^ k) k)
                ∙ ap (λ t. t % 2 ^ k) one
                ∙ mod_half 1 k)
              (λ e. p.1 (e ∙ sym one))
              (subst (λ a. is_null (slot_at s'.slot (hash a s'.slot_size)) ≡ false)
                (nth-low 1 s'.handle_index (omega (arith, two)))
                (full 1 (omega (arith, twice, two))))
              (subst (λ a. is_null (slot_at s'.slot (hash a s'.slot_size)) ≡ false)
                (nth-high (2 ^ k) s'.handle_index x.table.index_low x.table.index_high (omega arith)
                    (omega (arith, half))
                  ∙ omega arith)
                (full (2 ^ k) (omega (arith, twice, two))))
        | inr (inr gt) ↦
            let p = half_apart 1 in
            let d : ℕ = 0x1000000 - s'.handle_index in
            not_both 1 (1 + 2 ^ k) p.0 p.1
              (subst (λ a. is_null (slot_at s'.slot (hash a s'.slot_size)) ≡ false)
                (nth-high d s'.handle_index x.table.index_low (omega (arith, x.table.index_high))
                    (omega (arith, x.table.index_high)) (omega (arith, x.table.index_high))
                  ∙ omega (arith, x.table.index_high))
                (full d (omega (arith, twice))))
              (subst (λ a. is_null (slot_at s'.slot (hash a s'.slot_size)) ≡ false)
                (nth-high (d + 2 ^ k) s'.handle_index x.table.index_low
                    (omega (arith, x.table.index_high)) (omega (arith, x.table.index_high))
                    (omega (arith, x.table.index_high, half))
                  ∙ omega (arith, x.table.index_high))
                (full (d + 2 ^ k) (omega (arith, twice))))
      ]

two_rounds :
    (handles : ℕ → ℕ) (ctx h : ℕ) (s s₁ : HandleStorage)
    → scan s.slot_size s.handle_index s ≡ none
    → expand handles s ≡ some s₁
    → scan s₁.slot_size s₁.handle_index s₁ ≡ some h
    → handle_register handles ctx s
      ≡ registered (bit_or h s₁.harbor) (occupy ctx h s₁) (live s.slot)
unfolding handle_register register_loop
two_rounds handles ctx h s s₁ e run e' =
    rw (e, register_loop) (rw (run, register_loop) (rw (e', register_loop) refl))

-- What `fengnet_handle_register` deletes: nothing when it finds a free slot, and all contexts of the
-- table when it expands.
abbrev pub Deletes : HandleStorage → HandleStorage → List ℕ → Type 0
Deletes s s' deleted =
    ((s'.slot_size ≡ s.slot_size) × (deleted ≡ []))
    ⊎ ((s'.slot_size ≡ s.slot_size * 2) × (deleted ≡ live s.slot))

module _ (handles : ℕ → ℕ) (ctx k : ℕ) (s : HandleStorage) (t : IsSlots handles k s)
    (absent : (i : ℕ) → slot_at s.slot i ≢ some ctx) (lt : k < 24) where
  still_absent :
      (s' : HandleStorage) → Expanded handles k s s' → (i : ℕ) → slot_at s'.slot i ≢ some ctx
  still_absent s' x i e = absent (i % 2 ^ k) (
      kept-some handles (2 ^ suc k) i ctx (slot_at s.slot (i % 2 ^ k))
        (sym (x.slots i (omega (arith, some_inside s'.slot i ctx e, x.table.storage))) ∙ e))

  after_expansion :
      (s₁ s' : HandleStorage) (h : ℕ)
      → Expanded handles k s s₁
      → Registered handles ctx (bit_or h s₁.harbor) s₁ s'
      → Registered handles ctx (bit_or h s₁.harbor) s s'
  after_expansion s₁ s' h x r = record {
    fresh = sym (x.same (bit_or h s₁.harbor)) ∙ r.fresh;
    index_bits = (r.index_bits.0, r.index_bits.1 ∙ ap (λ b. b / 2 ^ 24) x.same_harbor);
    log_size = r.log_size;
    table = r.table;
    here = r.here;
    others = λ q ne. r.others q ne ∙ x.same q;
    same_names = r.same_names ∙ x.same_names;
  }

  -- `fengnet_handle_register` of a context that has no slot, in a table of fewer than 2^24 slots: it
  -- returns in at most two rounds with no assert failed, the new handle was free and has the harbor
  -- and an index other than 0, it finds the context, every other handle finds what it found before,
  -- and the table stays well formed. Where the table had to grow, every context that it held is
  -- deleted.
  pub handle_register-Registered :
      (handle : ℕ) × (s' : HandleStorage) × (deleted : List ℕ) × (handle_register handles ctx s
        ≡ registered handle s' deleted)
      × Registered handles ctx handle s s'
      × Deletes s s' deleted
  unfolding handle_register register_loop
  handle_register-Registered = elim (Option-cases (scan s.slot_size s.handle_index s)) [
    | inr (h, e) ↦
        let (is_free, low, high) = scan-some s.slot_size s.handle_index h s t.index_low e in
        (
          bit_or h s.harbor,
          occupy ctx h s,
          [],
          rw (e, register_loop) refl,
          occupy-Registered handles ctx k h s t absent is_free low high,
          inl (refl, refl),
        )
    | inl e ↦
        let (s₁, run, x) = expand-Expanded handles k s t lt in
        let (h, e') = scan_finds handles k s s₁ t.some_bit lt x in
        let (is_free, low, high) =
          scan-some s₁.slot_size s₁.handle_index h s₁ x.table.index_low e' in
        (
          bit_or h s₁.harbor,
          occupy ctx h s₁,
          live s.slot,
          two_rounds handles ctx h s s₁ e run e',
          after_expansion s₁ (occupy ctx h s₁) h x (
              occupy-Registered handles ctx (suc k) h s₁ x.table (still_absent s₁ x) is_free low
                high),
          inr (x.table.width ∙ pow-suc 2 k ∙ ap (λ n. n * 2) (sym t.width), refl),
        )
  ]
