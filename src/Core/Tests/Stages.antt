-- ===== src/Core/Tests/Stages.antt =====
-- The theorems on `runRequest` at concrete requests.
use middy.Prelude.{
  ℕ, ◌≡◌, ◌↔◌, refl, false, true, none, some, List, [], ◌∷◌, ◌++◌, ok, err, Settles,
}
use middy.Core.Engine.{Request, Run, run_middleware, run_stack, note_early, call_hook}
use middy.Core.RunRequest.{
  run_request, run_stages, run_handler, handle_error, early_clock, start_run, enter_catch,
  call_handler, take_result, throw_unhandled, timer_delay, timer_wins,
}
use middy.Core.Stack.{Passed, Ends, done, more, run_stack_iff}
use middy.Core.Flow.{
  before_short_circuits, all_stages_run, error_is_handled, durable_error_skips_on_error,
  on_error_throws,
}
use middy.Core.Cleanup.{run_request_cleans_up}
use middy.Core.Timeout.{late_handler_is_replaced, run_request-Settles}
use middy.Core.Tests.Data.{
  Log, passing, answering, throwing, responding, quiet, plain_host, durable_host, echo, prompt,
  failing, hanging, request,
}

-- One before, the handler and two after middlewares run in this order.
whole_run :
    (run_request plain_host quiet
      (passing 1 ∷ [])
      echo
      (passing 2 ∷ passing 3 ∷ [])
      []
      (request [])).0
    ≡ ok (some 200)
unfolding run_request run_stages run_handler call_handler take_result run_stack run_middleware
    call_hook note_early early_clock
whole_run = refl

run_stack_iff_example :
    (run_stack quiet (passing 1 ∷ answering 2 40 ∷ passing 3 ∷ []) (request []) ≡ (
      ok tt,
      record (request (1 ∷ 2 ∷ [])) { response = some 40; early_response = some (some 40) },
    ))
    ↔ Ends quiet
        (passing 1 ∷ answering 2 40 ∷ passing 3 ∷ [])
        (request [])
        (ok tt)
        (record (request (1 ∷ 2 ∷ [])) { response = some 40; early_response = some (some 40) })
run_stack_iff_example =
    run_stack_iff quiet (passing 1 ∷ answering 2 40 ∷ passing 3 ∷ []) (request [])
      (record (request (1 ∷ 2 ∷ [])) { response = some 40; early_response = some (some 40) })
      (ok tt)

one-Passed : (n : ℕ) (w : Log) → Passed quiet (passing n ∷ []) (request w) (request (w ++ n ∷ []))
unfolding run_middleware call_hook note_early
one-Passed n w = more refl refl done

before_short_circuits_example :
    run_request plain_host quiet
      (passing 1 ∷ answering 2 40 ∷ passing 3 ∷ [])
      echo
      []
      []
      (request [])
    ≡ (
      ok (some 40),
      record {
        request = record (request (1 ∷ 2 ∷ [])) {
          response = some 40;
          early_response = some (some 40);
        };
        timer = none;
        aborted = false;
        in_flight = false;
      },
    )
unfolding run_middleware call_hook note_early
before_short_circuits_example =
    before_short_circuits plain_host quiet {pre = passing 1 ∷ []} (answering 2 40) (passing 3 ∷ [])
      echo [] [] {q₂ = record (request (1 ∷ 2 ∷ [])) { early_response = some (some 40) }}
      (one-Passed 1 []) refl refl

abbrev answered : List ℕ → Run ℕ ℕ Log
answered w = record {
  request = record (request w) { response = some 200 };
  timer = none;
  aborted = false;
  in_flight = false;
}

all_stages_run_example :
    run_request plain_host quiet (passing 1 ∷ []) prompt (passing 2 ∷ []) [] (request [])
    ≡ (ok (some 200), answered (1 ∷ 7 ∷ 2 ∷ []))
unfolding run_middleware call_hook note_early early_clock timer_delay timer_wins
all_stages_run_example =
    all_stages_run plain_host quiet prompt [] {q₄ = (answered (1 ∷ 7 ∷ 2 ∷ [])).request}
      (one-Passed 1 []) refl refl refl (refl, refl) refl (more refl refl done)

-- The stages of a request whose handler throws 13.
abbrev thrown : Run ℕ ℕ Log
thrown = record { request = request (7 ∷ []); timer = none; aborted = false; in_flight = true }

handler_threw :
    run_stages plain_host quiet
      (early_clock plain_host quiet [])
      []
      failing
      []
      (start_run (request []))
    ≡ (err 13, thrown)
unfolding run_stages run_handler call_handler take_result run_stack
handler_threw = refl

durable_handler_threw :
    run_stages durable_host quiet
      (early_clock durable_host quiet [])
      []
      failing
      []
      (start_run (request []))
    ≡ (err 13, thrown)
unfolding run_stages run_handler call_handler take_result run_stack
durable_handler_threw = refl

abbrev caught : List ℕ → Request ℕ ℕ Log
caught w = record (request w) { error = 13 }

error_is_handled_example :
    (run_request plain_host quiet [] failing [] (responding 8 500 ∷ []) (request [])).0
    ≡ ok (some 500)
unfolding run_middleware call_hook note_early
error_is_handled_example =
    error_is_handled plain_host quiet [] failing [] (request []) handler_threw
      {q' = record (caught (7 ∷ 8 ∷ [])) { response = some 500 }} refl (more refl refl done)

durable_error_skips_on_error_example :
    (run_request durable_host quiet [] failing [] (responding 8 500 ∷ []) (request [])
      ≡ run_request durable_host quiet [] failing [] [] (request []))
    × ((run_request durable_host quiet [] failing [] (responding 8 500 ∷ []) (request [])).0
        ≡ err 13)
unfolding run_stages run_handler call_handler take_result run_stack
durable_error_skips_on_error_example =
    durable_error_skips_on_error durable_host quiet [] failing [] (responding 8 500 ∷ [])
      (request []) (λ w. refl)

on_error_throws_example :
    (run_request plain_host quiet [] failing [] (passing 8 ∷ throwing 9 21 ∷ []) (request [])).0
    ≡ err 13021
unfolding run_middleware call_hook note_early
on_error_throws_example =
    on_error_throws plain_host quiet [] failing [] (request []) handler_threw {pre = passing 8 ∷ []}
      {q₂ = caught (7 ∷ 8 ∷ 9 ∷ [])} (throwing 9 21) [] refl (more refl refl done) refl

run_request_cleans_up_example :
    ((run_request plain_host quiet [] failing [] [] (request [])).1.timer ≡ none)
    × ((run_request plain_host quiet [] failing [] [] (request [])).1.in_flight ≡ false)
unfolding run_request run_stages run_handler call_handler take_result run_stack handle_error
    enter_catch throw_unhandled
run_request_cleans_up_example =
    run_request_cleans_up plain_host quiet [] failing [] [] (request []) tt

-- The handler's promise never settles; the early response is 504.
late_handler_is_replaced_example :
    run_request plain_host quiet (passing 1 ∷ []) hanging (passing 2 ∷ []) [] (request []) ≡ (
      ok (some 504),
      record {
        request = record (request (1 ∷ 7 ∷ 2 ∷ [])) { response = some 504 };
        timer = none;
        aborted = true;
        in_flight = false;
      },
    )
unfolding run_middleware call_hook note_early early_clock
late_handler_is_replaced_example =
    late_handler_is_replaced plain_host quiet hanging []
      {q₅ = record (request (1 ∷ 7 ∷ 2 ∷ [])) { response = some 504 }} (λ w. 3000) none refl
      (one-Passed 1 []) refl refl refl tt refl refl (more refl refl done)

run_request-Settles_example :
    Settles
      (run_request plain_host quiet
        (passing 1 ∷ [])
        hanging
        (answering 2 3 ∷ [])
        (throwing 4 5 ∷ [])
        (request [])).0
unfolding run_middleware call_hook early_clock
run_request-Settles_example =
    run_request-Settles plain_host quiet (passing 1 ∷ []) hanging (answering 2 3 ∷ [])
      (throwing 4 5 ∷ []) (request []) {clock = λ w. 3000} refl ((λ q. tt), tt) ((λ q. tt), tt)
      ((λ q. tt), tt) (λ q. tt) (λ q. tt) (λ q. tt)
