-- ===== src/Core/RunRequest.antt =====
-- packages/core/index.js: `runRequest`, with its early timeout and its catch block.
use middy.Prelude.{
  Settlement, fulfilled, rejected, ℕ, ◌-◌, Bool, true, false, ◌&&◌, ◌||◌, Option, none, some, List,
  ltb, ◌==◌, if◌then◌else◌, min, Outcome, ok, err, Action, pure, raise, hang, gets, modify, ◌>>=◌,
  ◌>>◌, try_catch, finally_do, is_some,
}
use middy.Core.Engine.{
  Request, Middleware, Handler, HandlerResult, returned, threw, thenable, Plugin, Host, Run,
  on_request, set_response, run_stack,
}

-- The largest delay that `setTimeout` takes.
abbrev pub max_delay : ℕ
max_delay = 2147483647

-- `plugin.timeoutEarlyInMillis > 0`; `null` disables the early timeout.
abbrev pub reserved_millis : Option ℕ → ℕ
reserved_millis none = 0
reserved_millis (some n) = n

-- `Math.min(2147483647, Math.max(0, remaining - reserved))`: subtraction on ℕ stops at 0.
unfoldable pub timer_delay : ℕ → ℕ → ℕ
timer_delay remaining reserved = min max_delay (remaining - reserved)

-- `Promise.race`: the handler's promise against a timer of `delay` milliseconds.
unfoldable pub timer_wins : ℕ → Option ℕ → Bool → Bool
timer_wins delay none first = true
timer_wins delay (some at) first = ltb delay at || (delay == at && first)

module _ {V E W : Type 0} where
  -- `clearTimeout(timeoutID)`
  abbrev pub clear_timer : Run V E W → Run V E W
  clear_timer s = record s { timer = none }

  -- The locals at entry, with the mark `context[inFlight] = context.middyContext` set.
  abbrev pub start_run : Request V E W → Run V E W
  start_run q = record { request = q; timer = none; aborted = false; in_flight = true }

  -- The `finally` block.
  abbrev pub unmark : Run V E W → Run V E W
  unmark s = record s { in_flight = false }

module _ {V E W : Type 0} (host : Host V E W) (plugin : Plugin V E W) where
  -- The timer fires: the handler's signal is aborted and the early response takes its place.
  unfoldable pub fire_timer : Action E (Run V E W) (Unit {0})
  fire_timer = do
    modify (λ s. record s { aborted = true; timer = none })
    v ← on_request plugin.timeout_early_response
    modify (λ s. record s { request = set_response v s.request })

  -- A promise that settles with `o`, awaited into `request.response`.
  unfoldable pub await_response : Settlement E (Option V) → Action E (Run V E W) (Unit {0})
  await_response (fulfilled v) = modify (λ s. record s { request = set_response v s.request })
  await_response (rejected e) = raise e

  unfoldable pub await_settlement :
      Option (ℕ × Bool × Settlement E (Option V)) → Action E (Run V E W) (Unit {0})
  await_settlement none = hang
  await_settlement (some (at, first, o)) = await_response o

  -- The race with the early timeout. `first` says that the timer is first in a tie.
  unfoldable pub race_settlement :
      ℕ → Option (ℕ × Bool × Settlement E (Option V)) → Action E (Run V E W) (Unit {0})
  race_settlement delay none = fire_timer
  race_settlement delay (some (at, first, o)) =
      if timer_wins delay (some at) first then fire_timer else await_response o

  -- `plugin.timeoutEarly && getRemainingTimeInMillis`, read before the stacks run.
  unfoldable pub early_clock : W → Option (W → ℕ)
  early_clock w =
      if ltb 0 (reserved_millis plugin.timeout_early_in_millis)
      then (elim (host.remaining w) [ none ↦ host.lambda_remaining w | some clock ↦ some clock ])
      else none

  -- What follows the handler's call, by what it gave.
  unfoldable pub take_result : Option (W → ℕ) → HandlerResult V E → Action E (Run V E W) (Unit {0})
  take_result clock (returned v) = modify (λ s. record s { request = set_response v s.request })
  take_result clock (threw e) = raise e
  take_result none (thenable p) = await_settlement p
  take_result (some clock) (thenable p) = do
    delay ←
        gets (λ s.
          timer_delay (clock s.request.world) (reserved_millis plugin.timeout_early_in_millis))
    modify (λ s. record s { timer = some delay })
    race_settlement delay p

  unfoldable pub call_handler : Handler V E W → Action E (Run V E W) (HandlerResult V E)
  call_handler h s =
      let (r, w) = h s.request.world in
      (ok r, record s { request = record (s.request) { world = w } })

  -- Handler and after stack, if the before stack has not exited early.
  unfoldable pub run_handler :
      Option (W → ℕ) → Handler V E W → List (Middleware V E W) → Action E (Run V E W) (Unit {0})
  run_handler clock h afters = do
    on_request plugin.before_handler
    r ← call_handler h
    take_result clock r
    modify clear_timer
    on_request plugin.after_handler
    on_request (run_stack plugin afters)

  -- The `try` block.
  unfoldable pub run_stages :
      Option (W → ℕ)
      → List (Middleware V E W)
      → Handler V E W
      → List (Middleware V E W)
      → Action E (Run V E W) (Unit {0})
  run_stages clock befores h afters = do
    on_request (run_stack plugin befores)
    early ← gets (λ s. is_some s.request.early_response)
    if early then pure tt else run_handler clock h afters

  -- The start of the `catch` block: the response is dropped and the error is recorded.
  unfoldable pub enter_catch : E → Run V E W → Run V E W
  enter_catch e s = record s {
    timer = none;
    request = record (s.request) { response = none; early_response = none; error = e };
  }

  -- The catch of the onError stack: a second error is aggregated with the first.
  unfoldable pub on_error_threw : E → Action E (Run V E W) (Unit {0})
  on_error_threw e s =
      if host.same e s.request.error
      then (err s.request.error, s)
      else let both = host.aggregate s.request.error e "Error thrown in onError middleware" in
        (err both, record s { request = record (s.request) { error = both } })

  -- `if (typeof request.response === "undefined") throw request.error`
  unfoldable pub throw_unhandled : Action E (Run V E W) (Unit {0})
  throw_unhandled s = elim s.request.response [
    | none ↦ (err s.request.error, s)
    | some v ↦ (ok tt, s)
  ]

  unfoldable pub handle_error : List (Middleware V E W) → E → Action E (Run V E W) (Unit {0})
  handle_error on_errors e = do
    modify (enter_catch e)
    durable ← gets (λ s. host.durable s.request.world)
    if durable
        then (gets (λ s. s.request.error) >>= raise)
        else (try_catch (on_request (run_stack plugin on_errors)) on_error_threw >> throw_unhandled)

  unfoldable pub run_request :
      List (Middleware V E W)
      → Handler V E W
      → List (Middleware V E W)
      → List (Middleware V E W)
      → Request V E W
      → Outcome E (Option V) × Run V E W
  run_request befores h afters on_errors q =
      (do
        finally_do
            (try_catch (run_stages (early_clock q.world) befores h afters) (handle_error on_errors))
            unmark
        gets (λ s. s.request.response))
        (start_run q)
