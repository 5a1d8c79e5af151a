-- ===== src/Handle/Slots/Reach.antt =====
-- The storage of fengnet_handle.cpp under any sequence of its operations.
use fengnet.Base.{
  ℕ, ◌-◌, ◌*◌, ◌%◌, ◌^◌, ◌≤◌, ◌<◌, ◌≡◌, ◌≢◌, inl, inr, refl, sym, subst, ap, ◌∙◌, bit_or, Option,
  none, some, some-injective, List, [], Bool-cases, Option-cases, ltb, ltb→lt, ltb→le, lt→leb,
  get_or-replicate, arith,
}
use fengnet.Handle.{NameTable, namehandle, init_names}
use fengnet.Handle.Find.{IsTable}
use fengnet.Handle.Lookup.{search-cases, Splits-Free}
use fengnet.Handle.Naming.{namehandle-Named, namehandle-Taken}
use fengnet.Handle.Slots.{
  HandleStorage, slot_at, scan, expand, handle_mask, registered, occupy, assert_failed,
  register_loop, handle_register, handle_grab, handle_retire, handle_init,
}
use fengnet.Handle.Slots.Table.{IsSlots}
use fengnet.Handle.Slots.Occupy.{assign, Registered, occupy-Registered}
use fengnet.Handle.Slots.Scan.{scan-some}
use fengnet.Handle.Slots.Register.{handle_register-Registered}
use fengnet.Handle.Slots.Retire.{retire_missing, handle_retire-Retired}
use fengnet.Handle.Slots.RetireAll.{found_at}

-- The handles of the contexts, and the storage.
pub record System : Type 0 where
  pub handles : ℕ → ℕ
  pub storage : HandleStorage

-- What threads do to the storage: a new context is registered and gets its handle, a handle is
-- retired, a name is given to a handle. A registration for which the table grows is no step: it deletes
-- every context that the table holds, and what reads their handles later reads freed memory.
pub data Step : System → System → Type 0 where
  register :
      (y : System) (ctx handle : ℕ) (s' : HandleStorage)
      → ((i : ℕ) → slot_at y.storage.slot i ≢ some ctx)
      → handle_register y.handles ctx y.storage ≡ registered handle s' []
      → Step y (record { handles = assign y.handles ctx handle; storage = s' })
  retire :
      (y : System) (handle : ℕ)
      → Step y (record y { storage = (handle_retire y.handles handle y.storage).1 })
  name :
      (y : System) (key : List ℕ) (handle : ℕ) (result : Option (List ℕ)) (names : NameTable)
      → y.storage.names.name_count < 2 ^ 29
      → namehandle key handle y.storage.names ≡ some (result, names)
      → Step y (record y { storage = record y.storage { names = names } })

pub data Reach (y : System) : System → Type 0 where
  here : Reach y y
  next : {u v : System} → Reach y u → Step u v → Reach y v

-- The slots and the names are well formed.
pub record IsWell (y : System) : Type 0 where
  pub log_size : ℕ
  pub slots : IsSlots y.handles log_size y.storage
  pub names : IsTable y.storage.names

-- In a table of 2^24 slots the expansion fails its assert.
expand_full :
    (handles : ℕ → ℕ) (k : ℕ) (s : HandleStorage)
    → IsSlots handles k s
    → 24 ≤ k
    → expand handles s ≡ none
unfolding expand
expand_full handles k s t le =
    let e : k ≡ 24 = omega (arith, t.small) in
    let size : s.slot_size ≡ 2 ^ 24 = t.width ∙ ap (λ n. 2 ^ n) e in
    rw (lt→leb (s.slot_size * 2 - 1) handle_mask (omega (arith, size))) refl

full_fails :
    (handles : ℕ → ℕ) (ctx : ℕ) (s : HandleStorage)
    → scan s.slot_size s.handle_index s ≡ none
    → expand handles s ≡ none
    → handle_register handles ctx s ≡ assert_failed
unfolding handle_register register_loop
full_fails handles ctx s v e = rw (v, register_loop) (rw (e, register_loop) refl)

first_round :
    (handles : ℕ → ℕ) (ctx h : ℕ) (s : HandleStorage)
    → scan s.slot_size s.handle_index s ≡ some h
    → handle_register handles ctx s ≡ registered (bit_or h s.harbor) (occupy ctx h s) []
unfolding handle_register register_loop
first_round handles ctx h s v = rw (v, register_loop) refl

same_result :
    (handles : ℕ → ℕ) (ctx h h' : ℕ) (s s₁ s' : HandleStorage) (d d' : List ℕ)
    → registered h s₁ d ≡ registered h' s' d'
    → Registered handles ctx h s s₁
    → Registered handles ctx h' s s'
same_result handles ctx h h' s s₁ s' d d' e r =
    let same : h ≡ h' = cc in
    let same_storage : s₁ ≡ s' = cc in
    subst (λ x. Registered handles ctx x s s') same
      (subst (Registered handles ctx h s) same_storage r)

-- A registration that returned, whatever the size of the table.
registered-Registered :
    (handles : ℕ → ℕ) (ctx k handle : ℕ) (s s' : HandleStorage) (deleted : List ℕ)
    → IsSlots handles k s
    → ((i : ℕ) → slot_at s.slot i ≢ some ctx)
    → handle_register handles ctx s ≡ registered handle s' deleted
    → Registered handles ctx handle s s'
registered-Registered handles ctx k handle s s' deleted t absent e = elim (Bool-cases (ltb k 24)) [
  | inl u ↦
      let (h, s₁, d, run, r, _) =
        handle_register-Registered handles ctx k s t absent (ltb→lt k 24 u) in
      same_result handles ctx h handle s s₁ s' d deleted (sym run ∙ e) r
  | inr u ↦ elim (Option-cases (scan s.slot_size s.handle_index s)) [
    | inl v ↦ cc (e, full_fails handles ctx s v (expand_full handles k s t (ltb→le k 24 u)))
    | inr (h, v) ↦
        let (is_free, low, high) = scan-some s.slot_size s.handle_index h s t.index_low v in
        same_result handles ctx (bit_or h s.harbor) handle s (occupy ctx h s) s' [] deleted
          (sym (first_round handles ctx h s v) ∙ e)
          (occupy-Registered handles ctx k h s t absent is_free low high)
  ]
]

retire-IsWell :
    (y : System) (handle : ℕ)
    → IsWell y
    → IsWell (record y { storage = (handle_retire y.handles handle y.storage).1 })
retire-IsWell y handle w = elim (Option-cases (handle_grab y.handles handle y.storage)) [
  | inl e ↦ subst (λ s. IsWell (record y { storage = s })) (sym (missing e)) w
  | inr (ctx, e) ↦
      let (s', run, r) =
        handle_retire-Retired y.handles w.log_size handle ctx y.storage w.slots w.names e in
      subst (λ s. IsWell (record y { storage = s })) (sym (ap (λ p. p.1) run))
        (record { log_size = w.log_size; slots = r.slots; names = r.names })
]
  where
    missing :
        handle_grab y.handles handle y.storage ≡ none
        → (handle_retire y.handles handle y.storage).1 ≡ y.storage
    missing e = ap (λ p. p.1) (retire_missing y.handles handle y.storage e)

name-IsWell :
    (y : System) (key : List ℕ) (handle : ℕ) (result : Option (List ℕ)) (names : NameTable)
    → y.storage.names.name_count < 2 ^ 29
    → namehandle key handle y.storage.names ≡ some (result, names)
    → IsWell y
    → IsTable names
name-IsWell y key handle result names few e w = elim (search-cases key y.storage.names w.names) [
  | inl (m, _, at_m) ↦
      subst IsTable
        (ap (λ p. p.1)
          (some-injective (sym (namehandle-Taken key handle m y.storage.names w.names at_m) ∙ e)))
        w.names
  | inr (b, _, p) ↦
      let (names', run, n) =
        namehandle-Named key handle y.storage.names w.names (Splits-Free key y.storage.names b p)
          few in
      subst IsTable (ap (λ p. p.1) (some-injective (sym run ∙ e))) n.table
]

Step-IsWell : (u v : System) → Step u v → IsWell u → IsWell v
Step-IsWell u v (register _ ctx handle s' absent e) w =
    let r =
      registered-Registered u.handles ctx w.log_size handle u.storage s' [] w.slots absent e in
    record {
      log_size = r.log_size;
      slots = r.table;
      names = subst IsTable (sym r.same_names) w.names;
    }
Step-IsWell u v (retire _ handle) w = retire-IsWell u handle w
Step-IsWell u v (name _ key handle result names few e) w = record {
  log_size = w.log_size;
  slots = record {
    width = w.slots.width;
    some_bit = w.slots.some_bit;
    small = w.slots.small;
    storage = w.slots.storage;
    index_low = w.slots.index_low;
    index_high = w.slots.index_high;
    harbor_bits = w.slots.harbor_bits;
    placed = w.slots.placed;
  };
  names = name-IsWell u key handle result names few e w;
}

-- `fengnet_handle_init` makes a well-formed storage.
handle_init-IsWell :
    (harbor : ℕ) (handles : ℕ → ℕ)
    → IsWell (record { handles = handles; storage = handle_init harbor })
unfolding handle_init init_names
handle_init-IsWell harbor handles = record {
  log_size = 2;
  slots = record {
    width = refl;
    some_bit = omega arith;
    small = omega arith;
    storage = refl;
    index_low = omega arith;
    index_high = omega arith;
    harbor_bits = omega arith;
    placed = λ i ctx e. cc (sym (get_or-replicate 4 i none) ∙ e);
  };
  names = record {
    room = omega arith;
    some_cap = omega arith;
    storage = refl;
    sorted = λ i j lt b. absurd (omega arith);
  };
}

Reach-IsWell : (y u : System) → IsWell y → Reach y u → IsWell u
Reach-IsWell y u w here = w
Reach-IsWell y u w (next {u = v} r s) = Step-IsWell v u s (Reach-IsWell y v w r)

-- From `fengnet_handle_init` on, after any sequence of registrations of new contexts for which the table
-- need not grow, retirements and namings: the names are sorted, and two slots with contexts of one handle
-- are one slot, whose context `fengnet_handle_grab` finds under the handle.
pub handles_unique :
    (harbor : ℕ) (handles : ℕ → ℕ) (y : System) (i j ctx other : ℕ)
    → Reach (record { handles = handles; storage = handle_init harbor }) y
    → slot_at y.storage.slot i ≡ some ctx
    → slot_at y.storage.slot j ≡ some other
    → y.handles ctx ≡ y.handles other
    → IsTable y.storage.names
      × (i ≡ j)
      × (handle_grab y.handles (y.handles ctx) y.storage ≡ some ctx)
handles_unique harbor handles y i j ctx other r e e' same =
    let w = Reach-IsWell _ y (handle_init-IsWell harbor handles) r in
    (
      w.names,
      sym (w.slots.placed i ctx e) ∙ ap (λ h. h % 2 ^ w.log_size) same ∙ w.slots.placed j other e',
      found_at y.handles w.log_size i ctx y.storage w.slots e,
    )
