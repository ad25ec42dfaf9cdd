-- ===== src/Core/Flow.antt =====
-- packages/core/index.js, `runRequest`: how the stages follow one another.
use middy.Prelude.{
  ◌≡◌, ◌≢◌, if◌then◌else◌, true, false, Option, none, some, List, ◌∷◌, ◌++◌, arith, ok, err, ℕ,
  fulfilled, Outcome, pending, [],
}
use middy.Core.Engine.{
  Request, Middleware, Handler, returned, Plugin, Host, Run, run_middleware, HandlerResult, threw,
  thenable, set_response,
}
use middy.Core.RunRequest.{
  run_handler, run_stages, handle_error, run_request, early_clock, start_run, enter_catch,
  on_error_threw, throw_unhandled, call_handler, take_result, timer_wins, timer_delay,
  reserved_millis, race_settlement, await_response, await_settlement,
}
use middy.Core.Stack.{Passed, run_stack-Passed, run_stack-stopped, run_stack-failed}

module _ {V E W : Type 0} (host : Host V E W) (plugin : Plugin V E W) where
  -- A before middleware that leaves an early response ends the request: its value is the response,
  -- and no later middleware, handler, after or onError middleware has any effect.
  pub before_short_circuits :
      {pre : List (Middleware V E W)} (m : Middleware V E W) (post : List (Middleware V E W))
      (h : Handler V E W) (afters on_errors : List (Middleware V E W)) {q q₁ q₂ : Request V E W}
      {v : Option V}
      → Passed plugin pre q q₁
      → run_middleware plugin m q₁ ≡ (ok tt, q₂)
      → q₂.early_response ≡ some v
      → run_request host plugin (pre ++ m ∷ post) h afters on_errors q ≡ (
        ok v,
        record {
          request = record q₂ { response = v };
          timer = none;
          aborted = false;
          in_flight = false;
        },
      )
  unfolding run_request run_stages
  before_short_circuits m post h afters on_errors p e n =
      rw (run_stack-stopped plugin m post p e n) (ground arith)

  -- What the handler gave comes to the value in time: it is the value itself, or a promise that is
  -- fulfilled with it and, where an early timeout is set, settles before the timer is due, or at the
  -- same time with the promise first.
  abbrev pub Gives : Option (W → ℕ) → HandlerResult V E → W → Option V → Type 0
  Gives clock (returned u) w v = u ≡ v
  Gives clock (threw e) w v = ⊥
  Gives clock (thenable none) w v = ⊥
  Gives none (thenable (some (at, first, o))) w v = o ≡ fulfilled v
  Gives (some clock) (thenable (some (at, first, o))) w v =
      (o ≡ fulfilled v)
      × (timer_wins (timer_delay (clock w) (reserved_millis plugin.timeout_early_in_millis))
            (some at) first
          ≡ false)

  take_result-Gives :
      (clock : Option (W → ℕ)) (r : HandlerResult V E) (s : Run V E W) (v : Option V)
      → Gives clock r s.request.world v
      → (t : Option ℕ) × (take_result host plugin clock r s
          ≡ (ok tt, record s { request = set_response v s.request; timer = t }))
  unfolding take_result race_settlement await_response await_settlement
  take_result-Gives clock (returned u) s v g = (s.timer, ground (arith, g))
  take_result-Gives clock (threw e) s v g = absurd g
  take_result-Gives clock (thenable none) s v g = absurd g
  take_result-Gives none (thenable (some (at, first, o))) s v g = (s.timer, ground (arith, g))
  take_result-Gives (some clock) (thenable (some (at, first, o))) s v (g, l) =
      let delay =
        timer_delay (clock s.request.world) (reserved_millis plugin.timeout_early_in_millis) in
      (some delay, ground (arith, g, l))

  -- With every middleware passing, and a handler that gives its value in time, directly or by a
  -- promise: the before stack, the handler and the after stack run once each, in this order, and
  -- the answer is the response that the last of them leaves.
  pub all_stages_run :
      {befores afters : List (Middleware V E W)} (h : Handler V E W)
      (on_errors : List (Middleware V E W)) {q q₁ q₂ q₃ q₄ : Request V E W} {v : Option V} {w : W}
      {r : HandlerResult V E}
      → Passed plugin befores q q₁
      → q₁.early_response ≡ none
      → plugin.before_handler q₁ ≡ (ok tt, q₂)
      → h q₂.world ≡ (r, w)
      → Gives (early_clock host plugin q.world) r w v
      → plugin.after_handler (record q₂ { response = v; world = w }) ≡ (ok tt, q₃)
      → Passed plugin afters q₃ q₄
      → run_request host plugin befores h afters on_errors q ≡ (
        ok q₄.response,
        record { request = q₄; timer = none; aborted = false; in_flight = false },
      )
  unfolding run_request run_stages run_handler call_handler
  all_stages_run h on_errors {q} {q₂} {v} {w} {r} p n bh hr g ah pa =
      let (t, e) =
        take_result-Gives (early_clock host plugin q.world) r
          (record {
            request = record q₂ { world = w };
            timer = none;
            aborted = false;
            in_flight = true;
          })
          v g in
      rw (run_stack-Passed plugin p) (ground (arith, run_stack-Passed plugin pa, e))

  -- What the stages come to.
  abbrev pub answer_of : Outcome E (Unit {0}) → Run V E W → Outcome E (Option V)
  answer_of (ok u) s = ok s.request.response
  answer_of (err e) s = err e
  answer_of pending s = pending

  -- In a durable execution the onError stack has no effect on a request, whatever its middlewares
  -- do: the request ends as it would with none, it is answered as its stages answer it, and it is
  -- rejected with the error that they throw, as it is.
  pub durable_error_skips_on_error :
      (befores : List (Middleware V E W)) (h : Handler V E W)
      (afters on_errors : List (Middleware V E W)) (q : Request V E W)
      → ((w : W) → host.durable w ≡ true)
      → let stages =
          run_stages host plugin (early_clock host plugin q.world) befores h afters (start_run q) in
        (run_request host plugin befores h afters on_errors q
          ≡ run_request host plugin befores h afters [] q)
        × ((run_request host plugin befores h afters on_errors q).0 ≡ answer_of stages.0 stages.1)
  unfolding run_request handle_error enter_catch
  durable_error_skips_on_error befores h afters on_errors q d =
      let x =
        run_stages host plugin (early_clock host plugin q.world) befores h afters (start_run q) in
      (ground (arith, d x.1.request.world), ground (arith, d x.1.request.world))

-- A request whose stages have thrown `e` in the state `s`.
module _ {V E W : Type 0} (host : Host V E W) (plugin : Plugin V E W)
    (befores : List (Middleware V E W)) (h : Handler V E W) (afters : List (Middleware V E W))
    (q : Request V E W) {e : E} {s : Run V E W}
    (failed : run_stages host plugin
        (early_clock host plugin q.world)
        befores
        h
        afters
        (start_run q)
      ≡ (err e, s)) where
  -- An error of any stage, when every onError middleware passes: the request is rejected with the
  -- recorded error unless one of them has set a response, which is then the answer. The response
  -- that stood before the error is dropped.
  pub error_is_handled :
      {on_errors : List (Middleware V E W)} {q' : Request V E W}
      → host.durable s.request.world ≡ false
      → Passed plugin on_errors
          (record (s.request) { response = none; early_response = none; error = e })
          q'
      → (run_request host plugin befores h afters on_errors q).0
        ≡ elim q'.response [ none ↦ err q'.error | some v ↦ ok (some v) ]
  unfolding run_request handle_error enter_catch throw_unhandled
  error_is_handled d p = rw failed (ground (arith, run_stack-Passed plugin p))

  -- Whatever the onError stack does, a request that failed and is answered all the same is never
  -- answered with `undefined`.
  pub recovered-ne-none :
      (on_errors : List (Middleware V E W))
      → (run_request host plugin befores h afters on_errors q).0 ≢ ok none
  unfolding run_request handle_error enter_catch throw_unhandled on_error_threw
  recovered-ne-none on_errors = rw failed (ground arith)

  -- An onError middleware throws after a passed prefix: the later ones are skipped, and the
  -- request is rejected with the recorded error if that is what was thrown, and otherwise with
  -- the recorded and the thrown error in one.
  pub on_error_throws :
      {pre : List (Middleware V E W)} {q₁ q₂ : Request V E W} {e' : E} (m : Middleware V E W)
      (post : List (Middleware V E W))
      → host.durable s.request.world ≡ false
      → Passed plugin pre
          (record (s.request) { response = none; early_response = none; error = e })
          q₁
      → run_middleware plugin m q₁ ≡ (err e', q₂)
      → (run_request host plugin befores h afters (pre ++ m ∷ post) q).0
        ≡ err (
            if host.same e' q₂.error
            then q₂.error
            else host.aggregate q₂.error e' "Error thrown in onError middleware")
  unfolding run_request handle_error enter_catch throw_unhandled on_error_threw
  on_error_throws m post d p x =
      rw failed (ground (arith, run_stack-failed plugin m post p x (λ z. cc)))
