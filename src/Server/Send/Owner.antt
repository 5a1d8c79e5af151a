-- ===== src/Server/Send/Owner.antt =====
-- What `fengnet_send` of fengnet.cpp does for a service of the same node: with the message, and with the
-- buffer that it was given or that it made.
use fengnet.Base.{
  ℕ, ◌+◌, ◌*◌, ◌%◌, ◌^◌, ◌≤◌, ◌<◌, ◌≡◌, ◌≢◌, ◌⊎◌, inl, inr, refl, sym, ap, ◌∙◌, subst, bit_and,
  bit_or, Bool, true, false, not, Option, none, some, List, [], ◌∷◌, ◌++◌, ◌==◌, if◌then◌else◌,
  arith, Bool-cases, ==_iff, ne→==_false, and_ones, or_fields, mod-eq_of_lt, dec_lt,
}
use fengnet.Databuffer.{negsuc, int32}
use fengnet.Server.{Node, found, message_type_mask, pack, type_of, size_of}
use fengnet.Server.Harbor.{message_isremote}
use fengnet.Server.Push.{IsNode, IsPushed, Pushes, context_push-Pushes}
use fengnet.Server.Send.{
  Event, allocated, Sent, delete, has_tag, ptype_tag_dontcopy, ptype_tag_allocsession,
  alloc_session, copy_data, source_of, sent_local, route, send_from, send_session, send,
}

-- A type of one byte and a size below 2^56 are read back from the word that `_filter_args` packs them into,
-- the way `dispatch_message` reads it.
pub unpack-pack :
    (sz type : ℕ)
    → sz < 2 ^ 56
    → type < 2 ^ 8
    → (size_of (pack sz type) ≡ sz) × (type_of (pack sz type) ≡ type)
unpack-pack sz type small one =
    let shifted : type * 2 ^ 56 % 2 ^ 64 ≡ type * 2 ^ 56 = mod-eq_of_lt (omega arith) in
    let word : pack sz type ≡ type * 2 ^ 56 + sz =
      ap (λ t. bit_or sz t) shifted ∙ or_fields 56 type sz small in
    (
      ap size_of word ∙ and_ones 56 (type * 2 ^ 56 + sz) ∙ omega arith,
      ap type_of word ∙ omega arith,
    )

-- The buffer that is sent, and the allocation of a copy: data that is not handed over is copied.
abbrev pub outgoing : ℕ → ℕ → ℕ → ℕ × List Event
outgoing fresh type data_ptr =
    if has_tag ptype_tag_dontcopy type
    then (data_ptr, [])
    else if data_ptr == 0
    then (data_ptr, [])
    else (fresh, allocated fresh ∷ [])

copy_data-outgoing :
    (fresh type data_ptr : ℕ)
    → copy_data (not (has_tag ptype_tag_dontcopy type)) fresh data_ptr
      ≡ outgoing fresh type data_ptr
unfolding copy_data
copy_data-outgoing fresh type data_ptr = elim (Bool-cases (has_tag ptype_tag_dontcopy type)) [
  | inl tag ↦ rw tag refl
  | inr no_tag ↦ elim (Bool-cases (data_ptr == 0)) [
    | inl null ↦ rw (no_tag, null) refl
    | inr other ↦ rw (no_tag, other) refl
  ]
]

-- How `fengnet_send` ends for a service of the same node. A message that is too large is refused, and a
-- buffer that was handed over is deleted. A message that has no receiver is refused, and the buffer to be
-- sent is deleted. Without a destination and without data there is nothing to send. Else the queue of the
-- receiver has the buffer, and nothing is deleted.
pub data Settled (fresh source destination type session data_ptr sz : ℕ) (n : Node)
    (run : Option Sent) : Type 0 where
  too_large :
      2 ^ 56 ≤ sz
      → run
        ≡ some (record {
          value = negsuc 1;
          node = n;
          events = if has_tag ptype_tag_dontcopy type then delete data_ptr else [];
        })
      → Settled fresh source destination type session data_ptr sz n run
  no_receiver :
      (destination ≡ 0) ⊎ (found destination n ≡ none)
      → run
        ≡ some (record {
          value = negsuc 0;
          node = n;
          events = (outgoing fresh type data_ptr).1 ++ delete (outgoing fresh type data_ptr).0;
        })
      → Settled fresh source destination type session data_ptr sz n run
  only_session :
      destination ≡ 0
      → (outgoing fresh type data_ptr).0 ≡ 0
      → run
        ≡ some
            (record { value = int32 session; node = n; events = (outgoing fresh type data_ptr).1 })
      → Settled fresh source destination type session data_ptr sz n run
  delivered :
      (n' : Node)
      → IsPushed n destination
          (record {
            source = source;
            session = session;
            data_ptr = (outgoing fresh type data_ptr).0;
            sz = pack sz (bit_and type 0xff);
          })
          n'
      → run
        ≡ some
            (record { value = int32 session; node = n'; events = (outgoing fresh type data_ptr).1 })
      → Settled fresh source destination type session data_ptr sz n run

module _ (fresh rmsg : ℕ) (context : Option ℕ) (source destination type session data_ptr sz : ℕ)
    (n : Node) (ids : List ℕ) (v : IsNode n ids) (known : source ≢ 0)
    (plain : has_tag ptype_tag_allocsession type ≡ false)
    (near : message_isremote n.harbor destination ≡ some false) where
  abbrev run : Option Sent
  run = send fresh rmsg context source destination type session data_ptr sz n

  abbrev held : ℕ
  held = (outgoing fresh type data_ptr).0

  abbrev made : List Event
  made = (outgoing fresh type data_ptr).1

  abbrev word : ℕ
  word = pack sz (bit_and type 0xff)

  abbrev Ends : Option Sent → Type 0
  Ends = Settled fresh source destination type session data_ptr sz n

  -- What is left once the size, the tags and the source are tested.
  filtered : sz < 2 ^ 56 → run ≡ send_from rmsg destination session held word made n (some source)
  unfolding send send_session alloc_session source_of
  filtered small =
      let fits : (bit_and sz message_type_mask == sz) ≡ true =
        (==_iff (bit_and sz message_type_mask) sz).1 (and_ones 56 sz ∙ mod-eq_of_lt small) in
      rw (fits, plain, ne→==_false source 0 known)
        (ap
          (λ (p : ℕ × List Event). send_from rmsg destination session p.0 word p.1 n (some source))
          (copy_data-outgoing fresh type data_ptr))

  pushed-Ends :
      (r : Option (Bool × Node))
      → Pushes n destination
          (record { source = source; session = session; data_ptr = held; sz = word })
          r
      → Ends (sent_local session made held r)
  unfolding sent_local
  pushed-Ends r (inl (missing, e)) = no_receiver (inr missing) (ap (sent_local session made held) e)
  pushed-Ends r (inr (n', e, k)) = delivered n' k (ap (sent_local session made held) e)

  from-Ends : Ends (send_from rmsg destination session held word made n (some source))
  unfolding send_from route
  from-Ends = elim (Bool-cases (destination == 0)) [
    | inl zero_destination ↦ elim (Bool-cases (held == 0)) [
      | inl null ↦
          only_session ((==_iff destination 0).0 zero_destination) ((==_iff held 0).0 null)
            (rw (zero_destination, null) refl)
      | inr some_data ↦
          no_receiver (inl ((==_iff destination 0).0 zero_destination))
            (rw (zero_destination, some_data) refl)
    ]
    | inr other ↦ rw (other, near) (pushed-Ends _ (context_push-Pushes n ids destination _ v))
  ]

  -- A send on a well-formed node, from a source that is given, without a new session, to a destination of
  -- the same node, ends without a failed `assert`. The buffer that it is in charge of, the one handed over
  -- or the copy, is either in the queue of the receiver and not deleted, or deleted once.
  pub send-Settled : Ends run
  unfolding send
  send-Settled = elim (dec_lt sz (2 ^ 56)) [
    | yes small ↦ subst Ends (sym (filtered small)) from-Ends
    | no large ↦
        let wide : (bit_and sz message_type_mask == sz) ≡ false =
          ne→==_false (bit_and sz message_type_mask) sz (λ e. omega (arith, e, and_ones 56 sz)) in
        too_large (omega (arith, large)) (rw wide refl)
  ]
