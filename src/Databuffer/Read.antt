-- ===== src/Databuffer/Read.antt =====
-- databuffer.h as a queue of bytes: what `databuffer_push` appends, `databuffer_read` takes.
use fengnet.Base.{
  ℕ, ◌+◌, ◌-◌, ◌≤◌, ◌<◌, ◌≡◌, refl, sym, ap, ◌∙◌, inl, inr, some, List, [], ◌∷◌, ◌++◌, append_assoc,
  length, take, drop, length-append, length-take, length-drop, drop-append_le, drop_add, take_all,
  take-append-drop, ltb, ltb→lt, ltb→le, ◌==◌, ==_iff, ==_false, Bool-cases, arith,
}
use fengnet.Databuffer.{DataMessage, Databuffer, MessagePool, ReadResult, return_message, read_loop}

-- The bytes of a chain, from its first message on.
unfoldable pub bytes : List DataMessage → List ℕ
bytes [] = []
bytes (m ∷ ms) = m.buffer ++ bytes ms

-- The size of each message is that of its block.
unfoldable pub Sized : List DataMessage → Type 0
Sized [] = Unit
Sized (m ∷ ms) = (length m.buffer ≡ m.size) × Sized ms

-- The offset lies in the first message, and is 0 without one.
unfoldable pub Starts : ℕ → List DataMessage → Type 0
Starts offset [] = offset ≡ 0
Starts offset (m ∷ ms) = offset ≤ m.size

-- The bytes that are held and not yet read.
abbrev pub contents : Databuffer → List ℕ
contents db = drop db.offset (bytes db.messages)

pub record IsBuffer (db : Databuffer) : Type 0 where
  pub sized : Sized db.messages
  pub starts : Starts db.offset db.messages
  pub counted : length (contents db) ≡ db.size

-- What a read of `sz` bytes does to a chain.
pub record Reads (ms : List DataMessage) (offset sz : ℕ) (r : ReadResult) : Type 0 where
  pub amount : length r.out ≡ sz
  pub split : drop offset (bytes ms) ≡ r.out ++ drop r.offset (bytes r.messages)
  pub sized : Sized r.messages
  pub starts : Starts r.offset r.messages

Starts-zero : (ms : List DataMessage) → Starts 0 ms
unfolding Starts
Starts-zero [] = refl
Starts-zero (m ∷ ms) = omega arith

-- The rest of the first message, and the messages after it.
drop_first :
    (m : DataMessage) (ms : List DataMessage) (offset : ℕ)
    → length m.buffer ≡ m.size
    → offset ≤ m.size
    → drop offset (bytes (m ∷ ms)) ≡ drop offset m.buffer ++ bytes ms
unfolding bytes
drop_first m ms offset l le = drop-append_le offset m.buffer (bytes ms) (omega arith)

rest_length :
    (m : DataMessage) (offset : ℕ)
    → length m.buffer ≡ m.size
    → length (drop offset m.buffer) ≡ m.size - offset
rest_length m offset l = omega (arith, length-drop offset m.buffer)

-- A read that stays inside the first message.
Reads-inside :
    (m : DataMessage) (ms : List DataMessage) (offset sz : ℕ) (mp : MessagePool)
    → Sized (m ∷ ms)
    → offset ≤ m.size
    → sz < m.size - offset
    → Reads (m ∷ ms) offset sz (record {
      out = take sz (drop offset m.buffer);
      messages = m ∷ ms;
      offset = offset + sz;
      mp = mp;
    })
unfolding Sized Starts
Reads-inside m ms offset sz mp s le lt = record {
  amount = omega (arith, length-take sz (drop offset m.buffer), rest_length m offset s.0);
  split =
      drop_first m ms offset s.0 le
      ∙ ap (λ l. l ++ bytes ms) (sym (take-append-drop sz (drop offset m.buffer)))
      ∙ append_assoc (take sz (drop offset m.buffer)) (drop sz (drop offset m.buffer)) (bytes ms)
      ∙ ap (λ l. take sz (drop offset m.buffer) ++ (l ++ bytes ms)) (drop_add offset sz m.buffer)
      ∙ ap (λ l. take sz (drop offset m.buffer) ++ l)
          (sym (drop_first m ms (offset + sz) s.0 (omega arith)));
  sized = s;
  starts = omega arith;
}

-- A read of the first message to its end.
Reads-whole :
    (m : DataMessage) (ms : List DataMessage) (offset sz : ℕ) (mp : MessagePool)
    → Sized (m ∷ ms)
    → offset ≤ m.size
    → m.size - offset ≡ sz
    → Reads
        (m ∷ ms)
        offset
        sz
        (record { out = take sz (drop offset m.buffer); messages = ms; offset = 0; mp = mp })
unfolding Sized
Reads-whole m ms offset sz mp s le e = record {
  amount = omega (arith, length-take sz (drop offset m.buffer), rest_length m offset s.0);
  split =
      drop_first m ms offset s.0 le
      ∙ ap (λ l. l ++ bytes ms)
          (sym (take_all sz (drop offset m.buffer) (omega (arith, rest_length m offset s.0))));
  sized = s.1;
  starts = Starts-zero ms;
}

-- A read of more than the first message goes on behind it.
Reads-further :
    (m : DataMessage) (ms : List DataMessage) (offset sz : ℕ) (r : ReadResult)
    → Sized (m ∷ ms)
    → offset ≤ m.size
    → m.size - offset < sz
    → Reads ms 0 (sz - (m.size - offset)) r
    → Reads
        (m ∷ ms)
        offset
        sz
        (record r { out = take (m.size - offset) (drop offset m.buffer) ++ r.out })
unfolding Sized
Reads-further m ms offset sz r s le lt rs = record {
  amount = omega (
    arith,
    length-append (take (m.size - offset) (drop offset m.buffer)) r.out,
    length-take (m.size - offset) (drop offset m.buffer),
    rest_length m offset s.0,
    rs.amount,
  );
  split =
      drop_first m ms offset s.0 le
      ∙ ap (λ l. l ++ bytes ms)
          (sym (
            take_all (m.size - offset) (drop offset m.buffer)
              (omega (arith, rest_length m offset s.0))))
      ∙ ap (λ l. take (m.size - offset) (drop offset m.buffer) ++ l) rs.split
      ∙ sym (
          append_assoc (take (m.size - offset) (drop offset m.buffer)) r.out
            (drop r.offset (bytes r.messages)));
  sized = rs.sized;
  starts = rs.starts;
}

-- The loop of `databuffer_read` on a chain that holds enough.
pub read_loop-Reads :
    (ms : List DataMessage) (offset sz : ℕ) (mp : MessagePool)
    → Sized ms
    → Starts offset ms
    → 0 < sz
    → sz ≤ length (drop offset (bytes ms))
    → (r : ReadResult) × (read_loop ms offset sz mp ≡ some r) × Reads ms offset sz r
unfolding read_loop Sized Starts bytes
read_loop-Reads [] offset sz mp s st pos h = absurd (omega (arith, length-drop offset (bytes [])))
read_loop-Reads (m ∷ ms) offset sz mp s st pos h = elim (Bool-cases (ltb sz (m.size - offset))) [
  | inl e ↦ (_, rw e refl, Reads-inside m ms offset sz mp s st (ltb→lt _ _ e))
  | inr e ↦ elim (Bool-cases (m.size - offset == sz)) [
    | inl e' ↦ (
      _,
      rw (e, e') refl,
      Reads-whole m ms offset sz (return_message mp) s st ((==_iff _ _).0 e'),
    )
    | inr e' ↦
        let lt : m.size - offset < sz = omega (arith, ltb→le _ _ e, ==_false _ _ e') in
        let (r, p, rs) =
          read_loop-Reads ms 0 (sz - (m.size - offset)) (return_message mp) s.1 (Starts-zero ms)
            (omega arith)
            (omega (
              arith,
              ap length (drop_first m ms offset s.0 st),
              length-append (drop offset m.buffer) (bytes ms),
              rest_length m offset s.0,
            )) in
        (_, rw (e, e', p) refl, Reads-further m ms offset sz r s st lt rs)
  ]
]
