-- ===== src/Core/Timeout.antt =====
-- packages/core/index.js, `runRequest`: the early timeout.
use middy.Prelude.{
  max, ℕ, ◌+◌, ◌≤◌, ◌<◌, ◌≡◌, refl, Bool, true, false, ◌⊎◌, Option, none, some, List, [], ◌∷◌,
  arith, ok, Settles, All, Settlement, fulfilled, rejected,
}
use middy.Core.Engine.{
  Request, Middleware, Handler, HandlerResult, returned, threw, thenable, Plugin, Host, Run,
  run_middleware, run_stack, on_request,
}
use middy.Core.Stack.{Passed, run_stack-Passed}
use middy.Core.RunRequest.{
  run_handler, run_stages, handle_error, run_request, early_clock, start_run, enter_catch,
  on_error_threw, throw_unhandled, call_handler, take_result, race_settlement, fire_timer,
  timer_wins, await_response, timer_delay, max_delay, reserved_millis,
}

-- The timer's delay never overflows `setTimeout`; below that limit it leaves exactly the reserved
-- milliseconds of the remaining time, or is 0 if fewer remain.
pub timer_delay_bounds :
    (remaining reserved : ℕ)
    → (timer_delay remaining reserved ≤ max_delay)
      × ((timer_delay remaining reserved + reserved ≡ max remaining reserved)
          ⊎ ((timer_delay remaining reserved ≡ max_delay) × (max_delay + reserved < remaining)))
unfolding timer_delay
timer_delay_bounds remaining reserved = grind arith

module _ {V E W : Type 0} (host : Host V E W) (plugin : Plugin V E W) where
  abbrev pub SettlesAlways : List (Middleware V E W) → Type 0
  SettlesAlways = All (λ m. (q : Request V E W) → Settles (run_middleware plugin m q).0)

  run_stack-Settles :
      (ms : List (Middleware V E W)) (q : Request V E W)
      → SettlesAlways ms
      → Settles (run_stack plugin ms q).0
  unfolding run_stack
  run_stack-Settles [] q h = tt
  run_stack-Settles (m ∷ ms) q (h, hs) =
      ground (arith, h q, run_stack-Settles ms (run_middleware plugin m q).1 hs)

  -- What the handler's promise comes to in the race: `timer_first` tells a tie.
  abbrev pub IsLate : ℕ → Option (ℕ × Bool × Settlement E (Option V)) → Type 0
  IsLate delay none = Unit
  IsLate delay (some (at, timer_first, o)) = (delay < at) ⊎ ((delay ≡ at) × (timer_first ≡ true))

  take_result-late :
      (clock : W → ℕ) (p : Option (ℕ × Bool × Settlement E (Option V))) (s : Run V E W)
      → IsLate
          (timer_delay (clock s.request.world) (reserved_millis plugin.timeout_early_in_millis))
          p
      → take_result host plugin (some clock) (thenable p) s
        ≡ fire_timer host plugin (record s {
          timer = some (
              timer_delay (clock s.request.world) (reserved_millis plugin.timeout_early_in_millis));
        })
  unfolding take_result race_settlement timer_wins
  take_result-late clock none s late = refl
  take_result-late clock (some (at, timer_first, o)) s late = ground arith

  -- An early timeout is set and the handler's promise settles after the timer's delay or never:
  -- its signal is aborted, the early response takes the place of the handler's, and the after
  -- stack runs on it.
  pub late_handler_is_replaced :
      {befores afters : List (Middleware V E W)} (h : Handler V E W)
      (on_errors : List (Middleware V E W)) {q q₁ q₂ q₃ q₄ q₅ : Request V E W} {v : Option V}
      {w : W} (clock : W → ℕ) (p : Option (ℕ × Bool × Settlement E (Option V)))
      → early_clock host plugin q.world ≡ some clock
      → Passed plugin befores q q₁
      → q₁.early_response ≡ none
      → plugin.before_handler q₁ ≡ (ok tt, q₂)
      → h q₂.world ≡ (thenable p, w)
      → IsLate (timer_delay (clock w) (reserved_millis plugin.timeout_early_in_millis)) p
      → plugin.timeout_early_response (record q₂ { world = w }) ≡ (ok v, q₃)
      → plugin.after_handler (record q₃ { response = v }) ≡ (ok tt, q₄)
      → Passed plugin afters q₄ q₅
      → run_request host plugin befores h afters on_errors q
        ≡ (ok q₅.response, record { request = q₅; timer = none; aborted = true; in_flight = false })
  unfolding run_request run_stages run_handler call_handler fire_timer
  late_handler_is_replaced h on_errors {q₁} {q₂} {w} clock p c pb n bh hr late te ah pa =
      rw (run_stack-Passed plugin pb) (
        ground (
          arith,
          run_stack-Passed plugin pa,
          take_result-late clock p
              (record {
                request = record q₂ { world = w };
                timer = none;
                aborted = false;
                in_flight = true;
              })
              late,
        ))

  take_result-Settles :
      (clock : W → ℕ) (r : HandlerResult V E) (s : Run V E W)
      → ((q : Request V E W) → Settles (plugin.timeout_early_response q).0)
      → Settles (take_result host plugin (some clock) r s).0
  unfolding take_result race_settlement fire_timer await_response
  take_result-Settles clock (returned v) s te = tt
  take_result-Settles clock (threw e) s te = tt
  take_result-Settles clock (thenable none) s te = ground (arith, te s.request)
  take_result-Settles clock (thenable (some (at, timer_first, fulfilled v))) s te =
      ground (arith, te s.request)
  take_result-Settles clock (thenable (some (at, timer_first, rejected e))) s te =
      ground (arith, te s.request)

  run_handler-Settles :
      (clock : W → ℕ) (h : Handler V E W) (afters : List (Middleware V E W)) (s : Run V E W)
      → ((q : Request V E W) → Settles (plugin.timeout_early_response q).0)
      → ((q : Request V E W) → Settles (plugin.before_handler q).0)
      → ((q : Request V E W) → Settles (plugin.after_handler q).0)
      → SettlesAlways afters
      → Settles (run_handler host plugin (some clock) h afters s).0
  unfolding run_handler call_handler
  run_handler-Settles clock h afters s te bh ah sa =
      grind (arith, take_result-Settles, run_stack-Settles)

  run_stages-Settles :
      (clock : W → ℕ) (befores : List (Middleware V E W)) (h : Handler V E W)
      (afters : List (Middleware V E W)) (s : Run V E W)
      → ((q : Request V E W) → Settles (plugin.timeout_early_response q).0)
      → ((q : Request V E W) → Settles (plugin.before_handler q).0)
      → ((q : Request V E W) → Settles (plugin.after_handler q).0)
      → SettlesAlways befores
      → SettlesAlways afters
      → Settles (run_stages host plugin (some clock) befores h afters s).0
  unfolding run_stages
  run_stages-Settles clock befores h afters s te bh ah sb sa = ground (
    arith,
    run_stack-Settles befores s.request sb,
    run_handler-Settles clock h afters (on_request (run_stack plugin befores) s).1 te bh ah sa,
  )

  handle_error-Settles :
      (on_errors : List (Middleware V E W)) (e : E) (s : Run V E W)
      → SettlesAlways on_errors
      → Settles (handle_error host plugin on_errors e s).0
  unfolding handle_error on_error_threw throw_unhandled
  handle_error-Settles on_errors e s se =
      ground (arith, run_stack-Settles on_errors (enter_catch host plugin e s).request se)

  -- With an early timeout set, a request settles whatever its handler does, even if the handler's
  -- promise never settles: the middlewares, the hooks and the early response have to settle.
  pub run_request-Settles :
      (befores : List (Middleware V E W)) (h : Handler V E W)
      (afters on_errors : List (Middleware V E W)) (q : Request V E W) {clock : W → ℕ}
      → early_clock host plugin q.world ≡ some clock
      → SettlesAlways befores
      → SettlesAlways afters
      → SettlesAlways on_errors
      → ((q : Request V E W) → Settles (plugin.timeout_early_response q).0)
      → ((q : Request V E W) → Settles (plugin.before_handler q).0)
      → ((q : Request V E W) → Settles (plugin.after_handler q).0)
      → Settles (run_request host plugin befores h afters on_errors q).0
  unfolding run_request
  run_request-Settles befores h afters on_errors q {clock} c sb sa se te bh ah = rw c (
      grind (
        arith,
        run_stages-Settles clock befores h afters (start_run q) te bh ah sb sa,
        λ (e : E) (s : Run V E W). handle_error-Settles on_errors e s se,
      ))
