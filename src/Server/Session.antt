-- ===== src/Server/Session.antt =====
-- `fengnet_context_newsession` of fengnet_server.cpp: which sessions it gives.
use fengnet.Base.{ℕ, zero, suc, ◌-◌, ◌%◌, ◌^◌, ◌≡◌, refl, ap, ◌∙◌, arith}
use fengnet.Server.{next_session}

-- The session after `n` calls on a context whose `session_id` is 0.
abbrev pub session_after : ℕ → ℕ
session_after zero = 0
session_after (suc n) = next_session (session_after n)

next_session_lem : (n : ℕ) → next_session (suc (n % (2 ^ 31 - 1))) ≡ suc (suc n % (2 ^ 31 - 1))
unfolding next_session
next_session_lem n = ground arith

-- The sessions of a new context count from 1 to the largest positive `int` and start again: the one
-- after `n` others is one more than `n` modulo 2^31 - 1.
pub session_after_lem : (n : ℕ) → session_after (suc n) ≡ suc (n % (2 ^ 31 - 1))
unfolding next_session
session_after_lem zero = refl
session_after_lem (suc n) = ap next_session (session_after_lem n) ∙ next_session_lem n
