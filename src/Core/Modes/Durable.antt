-- ===== src/Core/Modes/Durable.antt =====
-- packages/core/executionModeDurableContext.js: the context that the request runs on.
use middy.Prelude.{
  ◌≡◌, refl, Bool, false, ◌||◌, Option, List, [], ◌∷◌, String, arith, str_eq, eq_iff, if◌then◌else◌,
}
use mathlib.Core.Path.{ap, fun_ext}
use middy.Core.Engine.{Middleware, Handler, Plugin, Host}
use middy.Core.Modes.{
  DurableWorld, copy_keys, durable_mode, standard_mode, lambda_context_keys, write_field,
}

abbrev pub is_listed : String → List String → Bool
is_listed k [] = false
is_listed k (j ∷ js) = str_eq j k || is_listed k js

copy_keys_lem :
    {C : Type 0} (to from : String → Option C) (ks : List String) (k : String)
    → copy_keys to from ks k ≡ (if is_listed k ks then from k else to k)
unfolding copy_keys
copy_keys_lem to from [] k = refl
copy_keys_lem to from (j ∷ js) k =
    ground (arith, eq_iff j k, copy_keys_lem (write_field j (from j) to) from js k)

-- The durable mode is the standard mode on a context that reads each Lambda context key from the
-- Lambda context and every other field as before, for its hooks too.
pub durable_mode-eq-standard_mode :
    {V E C R : Type 0} (host : Host V E (DurableWorld C R)) (plugin : Plugin V E (DurableWorld C R))
    (befores : List (Middleware V E (DurableWorld C R))) (h : Handler V E (DurableWorld C R))
    (afters on_errors : List (Middleware V E (DurableWorld C R))) (w : DurableWorld C R)
    → durable_mode host plugin befores h afters on_errors w
      ≡ standard_mode host plugin befores h afters on_errors (record w {
        context = λ k. if is_listed k lambda_context_keys then w.lambda_context k else w.context k;
      })
unfolding durable_mode standard_mode
durable_mode-eq-standard_mode host plugin befores h afters on_errors w =
    ap (λ c. standard_mode host plugin befores h afters on_errors (record w { context = c }))
      (fun_ext (copy_keys_lem w.context w.lambda_context lambda_context_keys))
