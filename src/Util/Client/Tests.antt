-- ===== src/Util/Client/Tests.antt =====
-- packages/util/index.js: createClientInit at concrete inputs.
use middy.Prelude.{◌<◌, ◌≡◌, refl, false, some, [], arith}
use middy.Util.Client.{first_memo, init_client, forget_attempt}
use middy.Util.Client.Past.{
  Past, call_client, reject_attempt, IsReachable, created, called, failed, is_rejected,
  credentials_of,
}
use middy.Util.Client.Attempts.{returned_attempt_is_live}

abbrev start : Past
start = record { memo = first_memo; started = []; rejected = [] }

-- The first attempt fails; the second is of the same credentials, and is superseded.
abbrev retried : Past
retried =
    call_client (some 8) (call_client (some 7) (reject_attempt 0 (call_client (some 7) start)))

attempts : (init_client (some 8) retried.memo).0 ≡ 2
unfolding call_client reject_attempt init_client forget_attempt
attempts = refl

superseded : (init_client (some 8) (reject_attempt 1 retried).memo).0 ≡ 2
unfolding call_client reject_attempt init_client forget_attempt
superseded = refl

one_attempt : 0 < (call_client (some 7) start).memo.attempts
unfolding call_client init_client
one_attempt = omega arith

retried-IsReachable : IsReachable retried
retried-IsReachable =
    called (some 8) (called (some 7) (failed 0 one_attempt (called (some 7) created)))

returned_attempt_is_live_example :
    (credentials_of 3 (call_client (some 7) retried).started ≡ some (some 7))
    × (is_rejected 3 (call_client (some 7) retried).rejected ≡ false)
unfolding call_client reject_attempt init_client forget_attempt
returned_attempt_is_live_example = returned_attempt_is_live retried (some 7) retried-IsReachable
