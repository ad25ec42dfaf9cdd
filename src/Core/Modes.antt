-- ===== src/Core/Modes.antt =====
-- packages/core: the request hooks around `runRequest`, in the standard and durable execution
-- modes (executionModeStandard.js, executionModeDurableContext.js) and `middyRequest`.
pub mod RequestEnd
pub mod Durable
use middy.Prelude.{
  String, Option, none, some, List, [], ◌∷◌, Outcome, ok, err, pending, Settlement, fulfilled,
  rejected, pure, raise, ◌>>=◌, ◌>>◌, attempt, str_eq, if◌then◌else◌,
}
use middy.Core.Engine.{Request, Call, Middleware, Handler, Plugin, Host}
use middy.Core.RunRequest.{run_request}

module _ {V E W : Type 0} (host : Host V E W) where
  -- `middyRequest` on the world of an invocation.
  unfoldable pub middy_request : W → Request V E W
  middy_request w = record {
    response = none;
    early_response = none;
    error = host.undefined_error;
    world = w;
  }

  -- After the hook: its error is thrown, with the request's in one if there is one.
  unfoldable pub finish_request :
      Settlement E (Option V) → Settlement E (Unit {0}) → Call V E W (Option V)
  finish_request (fulfilled v) (fulfilled _) = pure v
  finish_request (rejected e) (fulfilled _) = raise e
  finish_request (fulfilled v) (rejected hook) = raise hook
  finish_request (rejected e) (rejected hook) =
      raise (host.aggregate e hook "Error thrown in requestEnd hook")

  module _ (plugin : Plugin V E W) where
    -- `requestEnd`, once the request has settled.
    unfoldable pub end_request : Settlement E (Option V) → Call V E W (Option V)
    unfolding finish_request
    end_request r = do hook ← attempt plugin.request_end; finish_request r hook

    module _ (befores : List (Middleware V E W)) (h : Handler V E W)
        (afters on_errors : List (Middleware V E W)) where
      -- `runRequest`, whose locals are dropped.
      unfoldable pub run_call : Call V E W (Option V)
      run_call q =
          let (r, s) = run_request host plugin befores h afters on_errors q in (r, s.request)

      -- The function that executionModeStandard returns.
      unfoldable pub standard_mode : W → Outcome E (Option V) × Request V E W
      unfolding end_request run_call middy_request
      standard_mode w =
          (do plugin.request_start; r ← attempt run_call; end_request r) (middy_request w)

-- A durable context: its own fields, those of the Lambda context that the SDK keeps under
-- `lambdaContext`, and the rest of the invocation's world. `none` is an absent field.
pub record DurableWorld (C R : Type 0) : Type 0 where
  pub context : String → Option C
  pub lambda_context : String → Option C
  pub rest : R

abbrev pub lambda_context_keys : List String
lambda_context_keys =
    "functionName" ∷ "functionVersion" ∷ "invokedFunctionArn" ∷ "memoryLimitInMB" ∷ "awsRequestId"
    ∷ "logGroupName" ∷ "logStreamName" ∷ "identity" ∷ "clientContext" ∷ "tenantId" ∷ []

module _ {C : Type 0} where
  abbrev pub write_field : String → Option C → (String → Option C) → String → Option C
  write_field k v fields j = if str_eq k j then v else fields j

  -- The loop of `copyKeys`.
  unfoldable pub copy_keys :
      (String → Option C) → (String → Option C) → List String → String → Option C
  copy_keys to from [] = to
  copy_keys to from (k ∷ ks) = copy_keys (write_field k (from k) to) from ks

module _ {V E C R : Type 0} (host : Host V E (DurableWorld C R))
    (plugin : Plugin V E (DurableWorld C R)) (befores : List (Middleware V E (DurableWorld C R)))
    (h : Handler V E (DurableWorld C R))
    (afters on_errors : List (Middleware V E (DurableWorld C R))) where
  -- `copyKeys(request.context, request.context.lambdaContext, lambdaContextKeys)`
  abbrev pub normalize_context : Request V E (DurableWorld C R) → Request V E (DurableWorld C R)
  normalize_context q = record q {
    world = record (q.world) {
      context = copy_keys q.world.context q.world.lambda_context lambda_context_keys;
    };
  }

  -- The function that executionModeDurableContext hands to `withDurableExecution`.
  unfoldable pub durable_mode :
      DurableWorld C R → Outcome E (Option V) × Request V E (DurableWorld C R)
  unfolding end_request run_call middy_request
  durable_mode w =
      (do
        plugin.request_start
        r ← attempt (run_call host plugin befores h afters on_errors)
        end_request host plugin r)
        (normalize_context (middy_request host w))
