-- ===== src/Handle/Insert.antt =====
-- `_insert_name_before` of fengnet_handle.cpp: the array with one entry put in, grown or not.
use fengnet.Base.{
  ℕ, zero, suc, ◌+◌, ◌-◌, ◌*◌, ◌≤◌, ◌<◌, ◌≡◌, refl, subst, ap, ◌∙◌, ◌⊎◌, inl, inr, some, List,
  length, leb, ltb, ltb→lt, ltb→le, leb→le, le→leb, leb→lt, ◌^◌, Bool-cases, get_or, set, replicate,
  length-set, length-replicate, get_or-set_self, get_or-set_ne, arith,
}
use fengnet.Handle.{
  HandleName, NameTable, entry, zero_name, max_slot_size, copy_names, shift_names, put_name,
  insert_name_before,
}
use fengnet.Handle.Find.{IsTable}

length-copy_names :
    (rounds i by : ℕ) (old n : List HandleName) → length (copy_names rounds i by old n) ≡ length n
unfolding copy_names
length-copy_names zero i by old n = refl
length-copy_names (suc rounds) i by old n =
    length-copy_names rounds (i + 1) by old (set n (i + by) (get_or old i zero_name))
    ∙ length-set n (i + by) (get_or old i zero_name)

-- Outside of what the loop writes, the new array stays.
copy_names_out :
    (rounds i by : ℕ) (old n : List HandleName) (k : ℕ)
    → (k < i + by) ⊎ (i + by + rounds ≤ k)
    → get_or (copy_names rounds i by old n) k zero_name ≡ get_or n k zero_name
unfolding copy_names
copy_names_out zero i by old n k out = refl
copy_names_out (suc rounds) i by old n k out =
    copy_names_out rounds (i + 1) by old (set n (i + by) (get_or old i zero_name)) k (ground arith)
    ∙ get_or-set_ne n (i + by) k (get_or old i zero_name) zero_name (λ e. ground arith)

-- Each entry of the range is copied, `by` places further up.
copy_names_in :
    (rounds i by : ℕ) (old n : List HandleName) (k : ℕ)
    → i ≤ k
    → k < i + rounds
    → i + by + rounds ≤ length n
    → get_or (copy_names rounds i by old n) (k + by) zero_name ≡ get_or old k zero_name
unfolding copy_names
copy_names_in zero i by old n k low high fit = absurd (omega arith)
copy_names_in (suc rounds) i by old n k low high fit = elim (Bool-cases (ltb i k)) [
  | inl e ↦
      copy_names_in rounds (i + 1) by old written k (omega (arith, ltb→lt i k e)) (omega arith)
        (omega (arith, length-set n (i + by) (get_or old i zero_name)))
  | inr e ↦
      subst
        (λ j.
          get_or (copy_names rounds (i + 1) by old written) (j + by) zero_name
          ≡ get_or old j zero_name)
        (omega (arith, ltb→le i k e))
        (copy_names_out rounds (i + 1) by old written (i + by) (inl (omega arith))
          ∙ get_or-set_self n (i + by) (get_or old i zero_name) zero_name (omega arith))
]
  where
    written : List HandleName
    written = set n (i + by) (get_or old i zero_name)

length-shift_names :
    (rounds i : ℕ) (n : List HandleName) → length (shift_names rounds i n) ≡ length n
unfolding shift_names
length-shift_names zero i n = refl
length-shift_names (suc rounds) i n =
    length-shift_names rounds (i - 1) (set n i (get_or n (i - 1) zero_name))
    ∙ length-set n i (get_or n (i - 1) zero_name)

shift_names_out :
    (rounds i : ℕ) (n : List HandleName) (k : ℕ)
    → rounds ≤ i
    → (i < k) ⊎ (k + rounds ≤ i)
    → get_or (shift_names rounds i n) k zero_name ≡ get_or n k zero_name
unfolding shift_names
shift_names_out zero i n k le out = refl
shift_names_out (suc rounds) i n k le out =
    shift_names_out rounds (i - 1) (set n i (get_or n (i - 1) zero_name)) k (omega arith)
      (ground arith)
    ∙ get_or-set_ne n i k (get_or n (i - 1) zero_name) zero_name (λ e. ground arith)

-- The loop moves each entry up by one, and reads no entry that it has written.
shift_names_in :
    (rounds i : ℕ) (n : List HandleName) (k : ℕ)
    → rounds ≤ i
    → i < length n
    → k < i
    → i ≤ k + rounds
    → get_or (shift_names rounds i n) (k + 1) zero_name ≡ get_or n k zero_name
unfolding shift_names
shift_names_in zero i n k le fit low high = absurd (omega arith)
shift_names_in (suc rounds) i n k le fit low high = elim (Bool-cases (ltb (k + 1) i)) [
  | inl e ↦
      shift_names_in rounds (i - 1) written k (omega arith)
        (omega (arith, length-set n i (get_or n (i - 1) zero_name)))
        (omega (arith, ltb→lt (k + 1) i e)) (omega arith)
      ∙ get_or-set_ne n i k (get_or n (i - 1) zero_name) zero_name (λ e'. omega arith)
  | inr e ↦ last k (omega (arith, ltb→le (k + 1) i e))
]
  where
    written : List HandleName
    written = set n i (get_or n (i - 1) zero_name)

    last :
        (k : ℕ)
        → i ≡ k + 1
        → get_or (shift_names rounds (i - 1) written) (k + 1) zero_name ≡ get_or n k zero_name
    last k e =
        shift_names_out rounds (i - 1) written (k + 1) (omega arith) (inl (omega arith))
        ∙ subst (λ j. get_or written j zero_name ≡ get_or n k zero_name) e
            (get_or-set_self n i (get_or n (i - 1) zero_name) zero_name fit
              ∙ ap (λ j. get_or n j zero_name) (omega arith))

-- `s'` is `s` with one entry put in at `before`.
pub record Inserted (key : List ℕ) (handle before : ℕ) (s s' : NameTable) : Type 0 where
  pub count : s'.name_count ≡ s.name_count + 1
  pub room : s'.name_count ≤ s'.name_cap
  pub some_cap : 0 < s'.name_cap
  pub storage : length s'.name ≡ s'.name_cap
  pub here : entry s' before ≡ record { name = key; handle = handle }
  pub low : (i : ℕ) → i < before → entry s' i ≡ entry s i
  pub high : (i : ℕ) → before ≤ i → i < s.name_count → entry s' (i + 1) ≡ entry s i

-- An array with a gap at `before` makes the table with the entry put in.
put_name-Inserted :
    (key : List ℕ) (handle before cap : ℕ) (n : List HandleName) (s : NameTable)
    → before ≤ s.name_count
    → s.name_count < cap
    → length n ≡ cap
    → ((i : ℕ) → i < before → get_or n i zero_name ≡ entry s i)
    → ((i : ℕ) → before ≤ i → i < s.name_count → get_or n (i + 1) zero_name ≡ entry s i)
    → Inserted key handle before s (put_name key handle before cap n s)
put_name-Inserted key handle before cap n s le lt len low high = record {
  count = refl;
  room = omega arith;
  some_cap = omega arith;
  storage = length-set n before (record { name = key; handle = handle }) ∙ len;
  here = get_or-set_self n before (record { name = key; handle = handle }) zero_name (omega arith);
  low = λ i h.
      get_or-set_ne n before i (record { name = key; handle = handle }) zero_name (λ e. omega arith)
      ∙ low i h;
  high = λ i h l.
      get_or-set_ne n before (i + 1) (record { name = key; handle = handle }) zero_name
        (λ e. omega arith)
      ∙ high i h l;
}

-- `_insert_name_before` fails no assert below 2^29 names, keeps every entry and puts the new one in
-- at its place, the growth of the array included.
pub insert_name_before-Inserted :
    (key : List ℕ) (handle before : ℕ) (s : NameTable)
    → IsTable s
    → before ≤ s.name_count
    → s.name_count < 2 ^ 29
    → (s' : NameTable) × (insert_name_before key handle before s ≡ some s')
      × Inserted key handle before s s'
unfolding insert_name_before
insert_name_before-Inserted key handle before s t le small =
    elim (Bool-cases (leb s.name_cap s.name_count)) [
      | inl full ↦ (
        put_name key handle before (s.name_cap * 2) grown s,
        rw full (
            rw (le→leb (s.name_cap * 2) max_slot_size (omega (arith, leb→le _ _ full, t.room)))
              refl),
        put_name-Inserted key handle before (s.name_cap * 2) grown s le
            (omega (arith, t.room, t.some_cap))
            (length-copy_names _ before 1 s.name low ∙ length-low)
            (λ i h.
              copy_names_out (s.name_count - before) before 1 s.name low i (inl (omega arith))
              ∙ low_in i h)
            (λ i h l.
              copy_names_in (s.name_count - before) before 1 s.name low i h (omega arith)
                (omega (arith, length-low, t.room, t.some_cap))),
      )
      | inr fits ↦ (
        put_name key handle before s.name_cap shifted s,
        rw fits refl,
        put_name-Inserted key handle before s.name_cap shifted s le (leb→lt _ _ fits)
            (length-shift_names _ _ s.name ∙ t.storage)
            (λ i h.
              shift_names_out (s.name_count - before) s.name_count s.name i (omega arith)
                (inr (omega arith)))
            (λ i h l.
              shift_names_in (s.name_count - before) s.name_count s.name i (omega arith)
                (omega (arith, leb→lt _ _ fits, t.storage)) l (omega arith)),
      )
    ]
  where
    low : List HandleName
    low = copy_names before 0 0 s.name (replicate (s.name_cap * 2) zero_name)

    grown : List HandleName
    grown = copy_names (s.name_count - before) before 1 s.name low

    shifted : List HandleName
    shifted = shift_names (s.name_count - before) s.name_count s.name

    length-low : length low ≡ s.name_cap * 2
    length-low = length-copy_names before 0 0 s.name _ ∙ length-replicate (s.name_cap * 2) zero_name

    low_in : (i : ℕ) → i < before → get_or low i zero_name ≡ entry s i
    low_in i h =
        subst (λ j. get_or low j zero_name ≡ entry s i) (omega arith)
          (copy_names_in before 0 0 s.name (replicate (s.name_cap * 2) zero_name) i (omega arith)
            (omega arith) (omega (arith, length-replicate (s.name_cap * 2) zero_name, t.room)))
