-- ===== src/Core/Tests/Data.antt =====
-- Test data: middlewares, plugins and hosts over a log of numbers.
use middy.Prelude.{
  ℕ, ◌+◌, ◌*◌, false, true, none, some, List, [], ◌∷◌, ◌++◌, ◌==◌, ok, err, fulfilled,
}
use middy.Core.Engine.{Request, Middleware, Plugin, Host, Handler, returned, threw, thenable}

abbrev pub Log : Type 0
Log = List ℕ

abbrev pub note : ℕ → Request ℕ ℕ Log → Request ℕ ℕ Log
note n q = record q { world = q.world ++ n ∷ [] }

-- Logs a number and returns `undefined`.
abbrev pub passing : ℕ → Middleware ℕ ℕ Log
passing n = record { name = "passing"; run = λ q. (ok none, note n q) }

abbrev pub answering : ℕ → ℕ → Middleware ℕ ℕ Log
answering n v = record { name = "answering"; run = λ q. (ok (some v), note n q) }

abbrev pub throwing : ℕ → ℕ → Middleware ℕ ℕ Log
throwing n e = record { name = "throwing"; run = λ q. (err e, note n q) }

abbrev pub responding : ℕ → ℕ → Middleware ℕ ℕ Log
responding n v = record {
  name = "responding";
  run = λ q. (ok none, record (note n q) { response = some v });
}

abbrev pub quiet : Plugin ℕ ℕ Log
quiet = record {
  request_start = λ q. (ok tt, q);
  before_middleware = none;
  after_middleware = none;
  before_handler = λ q. (ok tt, q);
  after_handler = λ q. (ok tt, q);
  request_end = λ q. (ok tt, note 99 q);
  timeout_early_in_millis = some 5;
  timeout_early_response = λ q. (ok (some 504), q);
}

abbrev pub plain_host : Host ℕ ℕ Log
plain_host = record {
  remaining = λ w. none;
  lambda_remaining = λ w. some (λ w'. 3000);
  durable = λ w. false;
  same = λ a b. a == b;
  aggregate = λ a b m. a * 1000 + b;
  undefined_error = 0;
}

abbrev pub durable_host : Host ℕ ℕ Log
durable_host = record plain_host { durable = λ w. true }

abbrev pub echo : Handler ℕ ℕ Log
echo w = (returned (some 200), w ++ 7 ∷ [])

abbrev pub failing : Handler ℕ ℕ Log
failing w = (threw 13, w ++ 7 ∷ [])

-- An async handler, whose promise is fulfilled after 10 ms.
abbrev pub prompt : Handler ℕ ℕ Log
prompt w = (thenable (some (10, false, fulfilled (some 200))), w ++ 7 ∷ [])

abbrev pub hanging : Handler ℕ ℕ Log
hanging w = (thenable none, w ++ 7 ∷ [])

abbrev pub request : Log → Request ℕ ℕ Log
request w = record { response = none; early_response = none; error = 0; world = w }
