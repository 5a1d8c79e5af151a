-- ===== src/Mq/Global.antt =====
-- The global queue of fengnet_mq.cpp: message queues by address, linked through `next`, and the
-- functions that touch it. A failed `assert` and a read through a freed address are `none`.
pub mod Order
pub mod Flag
use fengnet.Base.{
  ℕ, zero, suc, ◌+◌, Bool, true, false, Option, none, some, List, [], ◌∷◌, ◌==◌, if◌then◌else◌,
}
use fengnet.Mq.{Message, MessageQueue, mq_create, enqueue, mq_length, drop_queue, mq_in_global}

-- `global_queue`, less its lock.
pub record GlobalQueue : Type 0 where
  pub head : Option ℕ
  pub tail : Option ℕ

-- Every live `message_queue` by address, with the one global queue `Q`.
pub record World : Type 0 where
  pub mem : ℕ → Option MessageQueue
  pub global : GlobalQueue

abbrev pub update {ℓ} : {A : Type ℓ} → (ℕ → A) → ℕ → A → ℕ → A
update f a v b = if a == b then v else f b

abbrev pub write : ℕ → MessageQueue → World → World
write a q w = record w { mem = update w.mem a (some q) }

-- `fengnet_mq_init` before any service exists.
unfoldable pub mq_init : World
mq_init = record { mem = λ a. none; global = record { head = none; tail = none } }

-- The `if (q->tail)` of `fengnet_globalmq_push`.
unfoldable pub link_tail : ℕ → Option ℕ → World → Option World
link_tail a none w = some (record w { global = record { head = some a; tail = some a } })
link_tail a (some t) w = elim (w.mem t) [
  | none ↦ none
  | some last ↦ some (record w {
    mem = update w.mem t (some (record last { next = some a }));
    global = record { head = w.global.head; tail = some a };
  })
]

-- `fengnet_globalmq_push`.
unfoldable pub globalmq_push : ℕ → World → Option World
globalmq_push a w = elim (w.mem a) [
  | none ↦ none
  | some q ↦ elim q.next [ some _ ↦ none | none ↦ link_tail a w.global.tail w ]
]

-- The body of `if (mq)` in `fengnet_globalmq_pop`: the new tail, with its `assert`.
unfoldable pub unlink_tail : ℕ → Option ℕ → Option ℕ → Option (Option ℕ)
unlink_tail a (some next) tail = some tail
unlink_tail a none none = none
unlink_tail a none (some t) = if a == t then some none else none

-- `fengnet_globalmq_pop`: the queue taken, if there is one.
unfoldable pub globalmq_pop : World → Option (Option ℕ × World)
globalmq_pop w = elim w.global.head [
  | none ↦ some (none, w)
  | some a ↦ elim (w.mem a) [
    | none ↦ none
    | some q ↦ elim (unlink_tail a q.next w.global.tail) [
      | none ↦ none
      | some tail ↦ some (
        some a,
        record {
          mem = update w.mem a (some (record q { next = none }));
          global = record { head = q.next; tail = tail };
        },
      )
    ]
  ]
]

-- `fengnet_mq_push`.
unfoldable pub mq_push : ℕ → Message → World → Option World
mq_push a m w = elim (w.mem a) [
  | none ↦ none
  | some q ↦
      let q' = enqueue q m in
      let marked = globalmq_push a (write a (record q' { in_global = mq_in_global }) w) in
      if q'.in_global == 0 then marked else some (write a q' w)
]

-- `fengnet_mq_mark_release`.
unfoldable pub mq_mark_release : ℕ → World → Option World
mq_mark_release a w = elim (w.mem a) [
  | none ↦ none
  | some q ↦
      let w' = write a (record q { release = 1 }) w in
      let pushed = globalmq_push a w' in
      if q.release == 0 then (if q.in_global == mq_in_global then some w' else pushed) else none
]

-- `_release`, after the loop of `_drop_queue` left the queue `q`: the address is free again.
unfoldable pub release_queue :
    ℕ → List Message → MessageQueue → World → Option (List Message × World)
release_queue a ms q w = elim q.next [
  | some _ ↦ none
  | none ↦ some (ms, record w { mem = update w.mem a none })
]

-- `fengnet_mq_release`, with the messages that `drop_func` was called with. The loop of
-- `_drop_queue` has fuel for every message that the queue holds.
unfoldable pub mq_release : ℕ → World → Option (List Message × World)
mq_release a w = elim (w.mem a) [
  | none ↦ none
  | some q ↦
      let dropped : Option (List Message × World) = elim (drop_queue (suc (mq_length q)) q) [
        | none ↦ none
        | some (ms, q') ↦ release_queue a ms q' w
      ] in
      let pushed : Option (List Message × World) = elim (globalmq_push a w) [
        | none ↦ none
        | some w' ↦ some ([], w')
      ] in
      if q.release == 0 then pushed else dropped
]
