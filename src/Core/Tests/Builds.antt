-- ===== src/Core/Tests/Builds.antt =====
-- Registration and the execution modes at concrete instances.
use middy.Prelude.{
  ℕ, ◌+◌, ◌*◌, ◌≡◌, ◌↔◌, refl, true, none, some, List, [], ◌∷◌, ◌==◌, str_eq, if◌then◌else◌, ok,
  err,
}
use middy.Core.Engine.{Plugin, Host, returned}
use middy.Core.Builder.{
  MiddlewareObject, Stacks, no_stacks, Registration, use_call, before_call, after_call, register,
  register_all, collect,
}
use middy.Core.Builder.Order.{HaveHooks, register_all_iff}
use middy.Core.RunRequest.{
  run_request, run_stages, run_handler, handle_error, call_handler, take_result, throw_unhandled,
  enter_catch,
}
use middy.Core.Engine.{run_stack}
use middy.Core.Modes.{
  standard_mode, durable_mode, DurableWorld, lambda_context_keys, run_call, middy_request,
}
use middy.Core.Modes.RequestEnd.{request_end_runs}
use middy.Core.Modes.Durable.{durable_mode-eq-standard_mode, is_listed}
use middy.Core.Tests.Data.{Log, passing, quiet, plain_host, failing, request}

abbrev both : MiddlewareObject ℕ ℕ Log
both = record { before = some (passing 1); after = some (passing 2); on_error = none }

abbrev chain : List (Registration ℕ ℕ Log)
chain = use_call (both ∷ both ∷ []) ∷ after_call (passing 3) ∷ before_call (passing 4) ∷ []

chain_builds :
    register_all chain no_stacks
    ≡ some (record {
      befores = passing 1 ∷ passing 1 ∷ passing 4 ∷ [];
      afters = passing 3 ∷ passing 2 ∷ passing 2 ∷ [];
      on_errors = [];
    })
unfolding register_all register collect
chain_builds = refl

register_all_iff_example :
    (register_all chain no_stacks
      ≡ some (record {
        befores = passing 1 ∷ passing 1 ∷ passing 4 ∷ [];
        afters = passing 3 ∷ passing 2 ∷ passing 2 ∷ [];
        on_errors = [];
      }))
    ↔ (HaveHooks chain
        × ◌≡◌ {A = Stacks ℕ ℕ Log}
            (record {
              befores = passing 1 ∷ passing 1 ∷ passing 4 ∷ [];
              afters = passing 3 ∷ passing 2 ∷ passing 2 ∷ [];
              on_errors = [];
            })
            (record {
              befores = passing 1 ∷ passing 1 ∷ passing 4 ∷ [];
              afters = passing 3 ∷ passing 2 ∷ passing 2 ∷ [];
              on_errors = [];
            }))
register_all_iff_example = register_all_iff chain (record {
  befores = passing 1 ∷ passing 1 ∷ passing 4 ∷ [];
  afters = passing 3 ∷ passing 2 ∷ passing 2 ∷ [];
  on_errors = [];
})

request_end_runs_example :
    standard_mode plain_host quiet [] failing [] [] []
    ≡ (err 13, record (request (7 ∷ 99 ∷ [])) { error = 13 })
unfolding run_call run_request run_stages run_handler call_handler take_result run_stack
    handle_error enter_catch throw_unhandled middy_request
request_end_runs_example =
    request_end_runs plain_host quiet [] failing [] [] []
      {q' = record (request (7 ∷ [])) { error = 13 }} {o = err 13} refl refl tt refl

abbrev world : DurableWorld ℕ Log
world = record {
  context = λ k. if str_eq k "awsRequestId" then some 1 else some 2;
  lambda_context = λ k. some 3;
  rest = [];
}

abbrev durable_plugin : Plugin ℕ ℕ (DurableWorld ℕ Log)
durable_plugin = record {
  request_start = λ q. (ok tt, q);
  before_middleware = none;
  after_middleware = none;
  before_handler = λ q. (ok tt, q);
  after_handler = λ q. (ok tt, q);
  request_end = λ q. (ok tt, q);
  timeout_early_in_millis = none;
  timeout_early_response = λ q. (ok none, q);
}

abbrev wide_host : Host ℕ ℕ (DurableWorld ℕ Log)
wide_host = record {
  remaining = λ w. none;
  lambda_remaining = λ w. none;
  durable = λ w. true;
  same = λ a b. a == b;
  aggregate = λ a b m. a * 1000 + b;
  undefined_error = 0;
}

durable_mode-eq-standard_mode_example :
    durable_mode wide_host durable_plugin []
      (λ w. (returned (w.context "awsRequestId"), w))
      []
      []
      world
    ≡ standard_mode wide_host durable_plugin []
        (λ w. (returned (w.context "awsRequestId"), w))
        []
        []
        (record world {
          context = λ k.
              if is_listed k lambda_context_keys then world.lambda_context k else world.context k;
        })
durable_mode-eq-standard_mode_example =
    durable_mode-eq-standard_mode wide_host durable_plugin []
      (λ w. (returned (w.context "awsRequestId"), w)) [] [] world
