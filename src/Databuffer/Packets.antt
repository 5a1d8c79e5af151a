-- ===== src/Databuffer/Packets.antt =====
-- `databuffer_readheader` of databuffer.h on a stream of packets, each behind the header that gives
-- its length.
use fengnet.Base.{
  ℕ, zero, suc, ◌-◌, ◌≤◌, ◌<◌, ◌≡◌, refl, sym, subst, ap, ◌∙◌, ◌⊎◌, inl, inr, some, List, [], ◌∷◌,
  ◌++◌, append_assoc, append_split, length, length-append, ltb, ltb→lt, ltb→le, le→ltb, Bool-cases,
  ne→==_false, if◌then◌else◌, arith,
}
use fengnet.Databuffer.{
  ℤ, pos, negsuc, Databuffer, MessagePool, below, is_zero, parse_header, whole_packet,
  databuffer_readheader,
}
use fengnet.Databuffer.Read.{contents, IsBuffer}
use fengnet.Databuffer.Queue.{databuffer_read-Took}

-- A way to write lengths below `bound` in `header_size` bytes that `databuffer_readheader` reads.
pub record HeaderCode (header_size bound : ℕ) : Type 0 where
  pub encode : ℕ → List ℕ
  pub some_bytes : 0 < header_size
  pub length-encode : (n : ℕ) → length (encode n) ≡ header_size
  pub parse_encode : (n : ℕ) → n < bound → parse_header header_size (encode n) ≡ pos n

-- Packets that are not empty and whose length is below `bound`.
unfoldable pub Packets : ℕ → List (List ℕ) → Type 0
Packets bound [] = Unit
Packets bound (p ∷ ps) = (0 < length p) × (length p < bound) × Packets bound ps

-- The bytes that carry the packets.
unfoldable pub stream :
    {header_size bound : ℕ} → HeaderCode header_size bound → List (List ℕ) → List ℕ
stream code [] = []
stream code (p ∷ ps) = code.encode (length p) ++ (p ++ stream code ps)

-- The bytes that carry the packets when the header of the first may have been read.
unfoldable pub Expects :
    {header_size bound : ℕ} → HeaderCode header_size bound → ℤ → List (List ℕ) → List ℕ → Type 0
Expects code (negsuc n) ps bs = ⊥
Expects code (pos zero) ps bs = bs ≡ stream code ps
Expects code (pos (suc n)) [] bs = ⊥
Expects code (pos (suc n)) (p ∷ ps) bs = (length p ≡ suc n) × (bs ≡ p ++ stream code ps)

module _ {header_size bound : ℕ} (code : HeaderCode header_size bound) (ps : List (List ℕ))
    (future : List ℕ) where
  -- What `databuffer_readheader` leaves, and that it waits for bytes that are still to come, or gives
  -- the length of a packet that is there.
  pub record Header (db : Databuffer) (mp : MessagePool) (db' : Databuffer) (mp' : MessagePool)
      : Type 0 where
    pub buffer : IsBuffer db'
    pub expects : Expects code db'.header ps (contents db' ++ future)
    pub no_more : db'.size ≤ db.size
    pub result :
        ((databuffer_readheader db mp header_size ≡ some (negsuc 0, db', mp'))
          × (future ≡ [] → ps ≡ []))
        ⊎ ((n : ℕ) × (databuffer_readheader db mp header_size ≡ some (pos (suc n), db', mp'))
            × (db'.header ≡ pos (suc n))
            × (suc n ≤ db'.size))

  -- With a packet announced: it is there, or a part of it is still to come.
  announced :
      (db : Databuffer) (mp : MessagePool) (n : ℕ)
      → IsBuffer db
      → db.header ≡ pos (suc n)
      → Expects code db.header ps (contents db ++ future)
      → ((whole_packet db mp ≡ (negsuc 0, db, mp)) × (future ≡ [] → ps ≡ []))
        ⊎ ((whole_packet db mp ≡ (pos (suc n), db, mp)) × (suc n ≤ db.size))
  unfolding below Expects
  announced db mp n v e x = elim (Bool-cases (ltb db.size (suc n))) [
    | inl t ↦ inl (
      ap (λ h. (if below db.size h then negsuc 0 else h, db, mp)) e
          ∙ ap (λ b. (if b then negsuc 0 else pos (suc n), db, mp)) t,
      λ none_left. absurd (
          short ps (subst (λ h. Expects code h ps (contents db ++ future)) e x) none_left
            (ltb→lt _ _ t)),
    )
    | inr t ↦ inr (
      ap (λ h. (if below db.size h then negsuc 0 else h, db, mp)) e
          ∙ ap (λ b. (if b then negsuc 0 else pos (suc n), db, mp)) t,
      ltb→le _ _ t,
    )
  ]
    where
      short :
          (qs : List (List ℕ))
          → Expects code (pos (suc n)) qs (contents db ++ future)
          → future ≡ []
          → db.size < suc n
          → ⊥
      short [] y none_left lt = y
      short (p ∷ qs) y none_left lt = omega (
        arith,
        v.counted,
        y.0,
        ap length y.1,
        length-append p (stream code qs),
        length-append (contents db) future,
        ap length none_left,
      )

  settled :
      (db db' : Databuffer) (mp mp' : MessagePool) (n : ℕ)
      → databuffer_readheader db mp header_size ≡ some (whole_packet db' mp')
      → IsBuffer db'
      → db'.size ≤ db.size
      → db'.header ≡ pos (suc n)
      → Expects code db'.header ps (contents db' ++ future)
      → Header db mp db' mp'
  settled db db' mp mp' n r v le e x = record {
    buffer = v;
    expects = x;
    no_more = le;
    result = elim (announced db' mp' n v e x) [
      | inl (p, none_left) ↦ inl (r ∙ ap some p, none_left)
      | inr (p, there) ↦ inr (n, r ∙ ap some p, e, there)
    ];
  }

  -- Too few bytes for a header are no packet.
  too_few :
      (db : Databuffer)
      → (qs : List (List ℕ)) → IsBuffer db
      → contents db ++ future ≡ stream code qs
      → db.size < header_size
      → future ≡ []
      → qs ≡ []
  unfolding stream
  too_few db [] v x lt none_left = refl
  too_few db (p ∷ qs) v x lt none_left = absurd (
      omega (
        arith,
        v.counted,
        ap length x,
        ap length none_left,
        length-append (contents db) future,
        length-append (code.encode (length p)) (p ++ stream code qs),
        code.length-encode (length p),
      ))

  abbrev Left : Databuffer → MessagePool → Type 0
  Left db mp = (db' : Databuffer) × (mp' : MessagePool) × Header db mp db' mp'

  -- The header of the next packet is there and is read.
  next_header :
      (db : Databuffer) (mp : MessagePool) (qs : List (List ℕ))
      → ps ≡ qs
      → IsBuffer db
      → db.header ≡ pos 0
      → Packets bound qs
      → contents db ++ future ≡ stream code qs
      → header_size ≤ db.size
      → Left db mp
  unfolding stream Packets Expects databuffer_readheader is_zero
  next_header db mp [] same v e w x le =
      absurd
        (omega (arith, v.counted, ap length x, length-append (contents db) future, code.some_bytes))
  next_header db mp (p ∷ qs) same v e w x le =
      let (out, db₁, mp₁, r, l, k) = databuffer_read-Took db mp header_size v code.some_bytes le in
      let n : ℕ = length p - 1 in
      let len : length p ≡ suc n = omega (arith, w.0) in
      let (is_code, rest) =
        append_split out (code.encode (length p)) (contents db₁ ++ future) (p ++ stream code qs)
          (l ∙ sym (code.length-encode (length p)))
          (sym (append_assoc out (contents db₁) future)
            ∙ ap (λ c. c ++ future) (sym k.split)
            ∙ x) in
      let parsed : parse_header header_size out ≡ pos (suc n) =
        ap (parse_header header_size) is_code ∙ code.parse_encode (length p) w.1 ∙ ap pos len in
      let db₂ : Databuffer = record db₁ { header = parse_header header_size out } in
      (
        db₂,
        mp₁,
        settled db db₂ mp mp₁ n (rw (ap is_zero e, le→ltb db.size header_size le, r) refl)
            (record {
              sized = k.buffer.sized;
              starts = k.buffer.starts;
              counted = k.buffer.counted;
            })
            (omega (
              arith,
              v.counted,
              k.buffer.counted,
              ap length k.split,
              length-append out (contents db₁),
            ))
            parsed
            (subst (λ qs. Expects code (parse_header header_size out) qs (contents db₁ ++ future))
              (sym same)
              (subst (λ h. Expects code h (p ∷ qs) (contents db₁ ++ future)) (sym parsed)
                (len, rest))),
      )

  -- `databuffer_readheader` on a part of a stream of packets, the rest of which is still to come.
  pub databuffer_readheader-Header :
      (db : Databuffer) (mp : MessagePool)
      → IsBuffer db
      → Packets bound ps
      → Expects code db.header ps (contents db ++ future)
      → Left db mp
  unfolding databuffer_readheader is_zero Expects
  databuffer_readheader-Header db mp v w x = go db.header refl
    where
      go : (h : ℤ) → db.header ≡ h → Left db mp
      go (negsuc n) e = absurd (subst (λ h. Expects code h ps (contents db ++ future)) e x)
      go (pos (suc n)) e = (
        db,
        mp,
        settled db db mp mp n (rw (ap is_zero e, ne→==_false (suc n) 0 (λ z. omega arith)) refl) v
            (omega arith) e x,
      )
      go (pos zero) e = elim (Bool-cases (ltb db.size header_size)) [
        | inl t ↦ (
          db,
          mp,
          record {
            buffer = v;
            expects = x;
            no_more = omega arith;
            result = inl (
              rw (ap is_zero e, t) refl,
              too_few db ps v (subst (λ h. Expects code h ps (contents db ++ future)) e x)
                  (ltb→lt _ _ t),
            );
          },
        )
        | inr t ↦
            next_header db mp ps refl v e w
              (subst (λ h. Expects code h ps (contents db ++ future)) e x) (ltb→le _ _ t)
      ]
