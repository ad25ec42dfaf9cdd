-- ===== src/Core/Modes/RequestEnd.antt =====
-- packages/core: `requestEnd` runs on every way out, and no error is lost.
use middy.Prelude.{Settles, ◌≡◌, Option, List, arith, Outcome, ok, err, pending}
use middy.Core.Engine.{Request, Middleware, Handler, Plugin, Host}
use middy.Core.Modes.{middy_request, standard_mode, run_call}

module _ {V E W : Type 0} (host : Host V E W) (plugin : Plugin V E W)
    (befores : List (Middleware V E W)) (h : Handler V E W)
    (afters on_errors : List (Middleware V E W)) (w : W) where
  -- A `requestStart` that throws rejects the invocation: neither the stacks nor `requestEnd` run.
  pub request_start_throws :
      {e : E} {q : Request V E W}
      → plugin.request_start (middy_request host w) ≡ (err e, q)
      → standard_mode host plugin befores h afters on_errors w ≡ (err e, q)
  unfolding standard_mode
  request_start_throws st = rw st

  -- What the caller gets of a request and its `requestEnd`.
  abbrev pub ended : Outcome E (Option V) → Outcome E (Unit {0}) → Outcome E (Option V)
  ended (ok v) (ok _) = ok v
  ended (err e) (ok _) = err e
  ended (ok v) (err x) = err x
  ended (err e) (err x) = err (host.aggregate e x "Error thrown in requestEnd hook")
  ended o pending = pending
  ended pending o = pending

  -- Once the request has settled, `requestEnd` runs on the request that is left, and the caller
  -- gets the response, the request's error, the hook's error, or both errors in one.
  pub request_end_runs :
      {q q' q'' : Request V E W} {o : Outcome E (Option V)} {o' : Outcome E (Unit {0})}
      → plugin.request_start (middy_request host w) ≡ (ok tt, q)
      → run_call host plugin befores h afters on_errors q ≡ (o, q')
      → Settles o
      → plugin.request_end q' ≡ (o', q'')
      → standard_mode host plugin befores h afters on_errors w ≡ (ended o o', q'')
  unfolding standard_mode
  request_end_runs st run settles end = ground arith
