-- ===== src/Core/Cleanup.antt =====
-- packages/core/index.js, `runRequest`: what is cleaned up on every way out.
use middy.Prelude.{ℕ, ◌≡◌, false, Option, none, List, arith, ok, Settles}
use middy.Core.Engine.{Request, Middleware, Handler, Plugin, Host, Run, run_stack, on_request}
use middy.Core.RunRequest.{
  run_handler, run_stages, handle_error, run_request, throw_unhandled, on_error_threw, enter_catch,
}

module _ {V E W : Type 0} (host : Host V E W) (plugin : Plugin V E W) where
  throw_unhandled_timer : (s : Run V E W) → (throw_unhandled host plugin s).1.timer ≡ s.timer
  unfolding throw_unhandled
  throw_unhandled_timer s = ground arith

  on_error_threw_timer :
      (e : E) (s : Run V E W) → (on_error_threw host plugin e s).1.timer ≡ s.timer
  unfolding on_error_threw
  on_error_threw_timer e s = ground arith

  handle_error_timer :
      (ms : List (Middleware V E W)) (e : E) (s : Run V E W)
      → (handle_error host plugin ms e s).1.timer ≡ none
  unfolding handle_error enter_catch
  handle_error_timer ms e s = grind (arith, throw_unhandled_timer, on_error_threw_timer)

  run_handler_timer :
      (clock : Option (W → ℕ)) (h : Handler V E W) (afters : List (Middleware V E W))
      (s : Run V E W)
      → (run_handler host plugin clock h afters s).0 ≡ ok tt
      → (run_handler host plugin clock h afters s).1.timer ≡ none
  unfolding run_handler
  run_handler_timer clock h afters s e = ground arith

  run_stages_timer :
      (clock : Option (W → ℕ)) (befores : List (Middleware V E W)) (h : Handler V E W)
      (afters : List (Middleware V E W)) (s : Run V E W)
      → s.timer ≡ none
      → (run_stages host plugin clock befores h afters s).0 ≡ ok tt
      → (run_stages host plugin clock befores h afters s).1.timer ≡ none
  unfolding run_stages
  run_stages_timer clock befores h afters s t e =
      ground (arith, run_handler_timer clock h afters (on_request (run_stack plugin befores) s).1)

  -- Whenever a run settles, by a response or by an error, its timer is no longer armed and the
  -- context is no longer marked as in flight.
  pub run_request_cleans_up :
      (befores : List (Middleware V E W)) (h : Handler V E W)
      (afters on_errors : List (Middleware V E W)) (q : Request V E W)
      → Settles (run_request host plugin befores h afters on_errors q).0
      → ((run_request host plugin befores h afters on_errors q).1.timer ≡ none)
        × ((run_request host plugin befores h afters on_errors q).1.in_flight ≡ false)
  unfolding run_request
  run_request_cleans_up befores h afters on_errors q settles =
      grind (arith, run_stages_timer, handle_error_timer)
