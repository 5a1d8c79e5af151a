-- ===== src/Server/Endless.antt =====
-- `fengnet_context_endless` of fengnet_server.cpp on a node that is well formed.
use fengnet.Base.{
  ℕ, ◌-◌, ◌^◌, ◌≤◌, ◌<◌, ◌≡◌, ◌≢◌, ◌⊎◌, inl, inr, refl, sym, ap, ◌∙◌, true, false, Option, none,
  some, List, ◌==◌, arith, Bool-cases, Option-cases, ==_iff,
}
use fengnet.Server.{
  Context, Node, put, found, grab_found, context_release, release_live, mark_endless,
  endless_grabbed, context_endless,
}
use fengnet.Server.Push.{IsNode, found_live, with_ref, without_ref, ref_restored, updated, grab_lem}

-- The context with the handle is marked, and nothing else is changed.
pub record IsMarked (n : Node) (handle : ℕ) (n' : Node) : Type 0 where
  pub at : ℕ
  pub context : Context
  pub live : n.ctx at ≡ some context
  pub addressed : context.handle ≡ handle
  pub marked : n'.ctx at ≡ some (record context { endless = true })
  pub others : (b : ℕ) → b ≢ at → n'.ctx b ≡ n.ctx b
  pub same_storage : n'.storage ≡ n.storage
  pub same_mq : n'.mq ≡ n.mq

abbrev pub Marks : Node → ℕ → Option Node → Type 0
Marks n handle run =
    ((found handle n ≡ none) × (run ≡ some n))
    ⊎ ((n' : Node) × (run ≡ some n') × IsMarked n handle n')

abbrev marked_node : ℕ → Context → Node → Node
marked_node a c n =
    put a (without_ref (record (with_ref c) { endless = true }))
      (put a (record (with_ref c) { endless = true }) (put a (with_ref c) n))

module _ (n : Node) (a : ℕ) (c : Context) (live : n.ctx a ≡ some c) (low : 1 ≤ c.ref)
    (high : c.ref < 2 ^ 32 - 1) where
  endless_lem :
      (handle : ℕ) → found handle n ≡ some a → context_endless handle n ≡ some (marked_node a c n)
  unfolding context_endless endless_grabbed mark_endless context_release release_live
  endless_lem handle e =
      let n1 : Node = put a (with_ref c) n in
      let n2 : Node = put a (record (with_ref c) { endless = true }) n1 in
      let more : ((with_ref c).ref == 1) ≡ false = ground arith in
      ap (λ o. endless_grabbed (grab_found o n)) e
      ∙ ap endless_grabbed (grab_lem n a c live low high)
      ∙ ap (λ o. mark_endless a o n1) (updated n.ctx a (with_ref c))
      ∙ ap (λ o. release_live a o n2) (updated n1.ctx a (record (with_ref c) { endless = true }))
      ∙ rw more refl

  marked_lem : (marked_node a c n).ctx a ≡ some (record c { endless = true })
  marked_lem =
      updated (put a (record (with_ref c) { endless = true }) (put a (with_ref c) n)).ctx a
        (without_ref (record (with_ref c) { endless = true }))
      ∙ ap (λ (k : Context). some (record k { endless = true })) (ref_restored c high)

  others_lem : (b : ℕ) → b ≢ a → (marked_node a c n).ctx b ≡ n.ctx b
  others_lem b ne = elim (Bool-cases (a == b)) [
    | inl e ↦ absurd (ne (sym ((==_iff a b).0 e)))
    | inr e ↦ rw e refl
  ]

-- On a well-formed node `fengnet_context_endless` fails no assert and frees nothing: it marks the context
-- with the handle, if there is one, and changes nothing else.
pub context_endless-Marks :
    (n : Node) (ids : List ℕ) (handle : ℕ)
    → IsNode n ids
    → Marks n handle (context_endless handle n)
unfolding context_endless grab_found endless_grabbed
context_endless-Marks n ids handle v = elim (Option-cases (found handle n)) [
  | inl e ↦ inl (e, ap (λ o. endless_grabbed (grab_found o n)) e)
  | inr (a, e) ↦
      let (c, live, same, low, high) = found_live n ids handle a v e in
      inr (
        marked_node a c n,
        endless_lem n a c live low high handle e,
        record {
          at = a;
          context = c;
          live = live;
          addressed = same;
          marked = marked_lem n a c live low high;
          others = others_lem n a c live low high;
          same_storage = refl;
          same_mq = refl;
        },
      )
]
