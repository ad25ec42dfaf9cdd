-- ===== src/Core/Engine.antt =====
-- packages/core/index.js: the request object, the middleware stacks and `runRequest`.
use middy.Prelude.{
  ℕ, String, Bool, Option, none, some, List, [], ◌∷◌, if◌then◌else◌, is_some, Settlement, Action,
  pure, gets, modify, ◌>>=◌, ◌>>◌,
}

-- The request that `middyRequest` builds. `none` is `undefined`; `early_response` is `none` while
-- the key is absent. `world` is all that user code reaches through the event, the context,
-- `internal` and its own closures.
pub record Request (V E W : Type 0) : Type 0 where
  pub response : Option V
  pub early_response : Option (Option V)
  pub error : E
  pub world : W

-- A call of user code on the request.
abbrev pub Call : Type 0 → Type 0 → Type 0 → Type 0 → Type 0
Call V E W A = Action E (Request V E W) A

pub record Middleware (V E W : Type 0) : Type 0 where
  pub name : String
  pub run : Call V E W (Option V)

-- What a handler call gives: a value, a throw, or a thenable. A thenable settles `at` so many
-- milliseconds after the call, or never; `first` says who is first when the timer fires then too.
pub data HandlerResult (V E : Type 0) : Type 0 where
  returned : Option V → HandlerResult V E
  threw : E → HandlerResult V E
  thenable : Option (ℕ × Bool × Settlement E (Option V)) → HandlerResult V E

abbrev pub Handler : Type 0 → Type 0 → Type 0 → Type 0
Handler V E W = W → HandlerResult V E × W

-- The plugin after its defaults are filled in.
pub record Plugin (V E W : Type 0) : Type 0 where
  pub request_start : Call V E W (Unit {0})
  pub before_middleware : Option (String → Call V E W (Unit {0}))
  pub after_middleware : Option (String → Call V E W (Unit {0}))
  pub before_handler : Call V E W (Unit {0})
  pub after_handler : Call V E W (Unit {0})
  pub request_end : Call V E W (Unit {0})
  pub timeout_early_in_millis : Option ℕ
  pub timeout_early_response : Call V E W (Option V)

-- What the engine reads of the host: the context's two clocks, the durable brand, the identity of
-- thrown values, `new AggregateError([a, b], message)`, and `undefined` as a thrown value.
pub record Host (V E W : Type 0) : Type 0 where
  pub remaining : W → Option (W → ℕ)
  pub lambda_remaining : W → Option (W → ℕ)
  pub durable : W → Bool
  pub same : E → E → Bool
  pub aggregate : E → E → String → E
  pub undefined_error : E

-- `runRequest`'s state: the request and its locals.
pub record Run (V E W : Type 0) : Type 0 where
  pub request : Request V E W
  pub timer : Option ℕ
  pub aborted : Bool
  pub in_flight : Bool

module _ {V E W : Type 0} where
  abbrev pub on_request : {A : Type 0} → Call V E W A → Action E (Run V E W) A
  on_request c s = let (r, q) = c s.request in (r, record s { request = q })

  abbrev pub set_response : Option V → Request V E W → Request V E W
  set_response v q = record q { response = v }

  -- `if (typeof res !== "undefined") request.earlyResponse = res`
  unfoldable pub note_early : Option V → Request V E W → Request V E W
  note_early none q = q
  note_early (some v) q = record q { early_response = some (some v) }

  -- `if ("earlyResponse" in request) { request.response = request.earlyResponse; break }`
  unfoldable pub respond_early : Request V E W → Request V E W
  respond_early q = elim q.early_response [ none ↦ q | some v ↦ record q { response = v } ]

  unfoldable pub call_hook :
      Option (String → Call V E W (Unit {0})) → String → Call V E W (Unit {0})
  call_hook none n = pure tt
  call_hook (some hook) n = hook n

module _ {V E W : Type 0} (plugin : Plugin V E W) where
  -- One round of a stack's loop, up to the test for an early response.
  unfoldable pub run_middleware : Middleware V E W → Call V E W (Unit {0})
  unfolding call_hook note_early
  run_middleware m = do
    call_hook plugin.before_middleware m.name
    res ← m.run
    call_hook plugin.after_middleware m.name
    modify (note_early res)

  -- The loop that the before, after and onError stacks share.
  unfoldable pub run_stack : List (Middleware V E W) → Call V E W (Unit {0})
  unfolding respond_early
  run_stack [] = pure tt
  run_stack (m ∷ ms) = do
    run_middleware m
    early ← gets (λ q. is_some q.early_response)
    if early then modify respond_early else run_stack ms
