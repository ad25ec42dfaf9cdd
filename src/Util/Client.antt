-- ===== src/Util/Client.antt =====
-- packages/util/index.js: createClientInit, which keeps the client of a fetch middleware.
pub mod Past
pub mod Attempts
mod Tests
use middy.Prelude.{
  ℕ, ◌+◌, ◌==◌, Bool, true, false, ◌||◌, Option, none, some, List, [], ◌∷◌, if◌then◌else◌,
}

-- What the closure keeps. A promise is known by a number: the credentials' by the one that sts stored
-- (`none` where the request has none), and an attempt's by how many were started before it.
pub record Memo : Type 0 where
  pub pending : Option ℕ
  pub credentials : Option ℕ
  pub attempts : ℕ

abbrev pub first_memo : Memo
first_memo = record { pending = none; credentials = none; attempts = 0 }

-- `===` on two promises, or on `undefined`.
abbrev pub is_same : Option ℕ → Option ℕ → Bool
is_same none none = true
is_same none (some y) = false
is_same (some x) none = false
is_same (some x) (some y) = x == y

-- The credentials of the request, and no attempt left of others.
abbrev pub take_credentials : Option ℕ → Memo → Memo
take_credentials current m =
    if is_same current m.credentials then m else record m { credentials = current; pending = none }

-- The attempt that is pending, or a new call of `createClient`.
abbrev pub pending_or_new : Option ℕ → Memo → ℕ × Memo
pending_or_new (some attempt) m = (attempt, m)
pending_or_new none m =
    (m.attempts, record m { pending = some m.attempts; attempts = m.attempts + 1 })

-- The function that `createClientInit` gives, with the attempt that it returns.
unfoldable pub init_client : Option ℕ → Memo → ℕ × Memo
init_client current m = let n = take_credentials current m in pending_or_new n.pending n

-- The handler of an attempt that is rejected.
unfoldable pub forget_attempt : ℕ → Memo → Memo
forget_attempt attempt m =
    if is_same m.pending (some attempt) then record m { pending = none } else m
