-- ===== src/Util/SetToContext.antt =====
-- packages/util/index.js: `buildSetToContextSpec` and `assignSetToContext`, on the namespace that
-- `contextNamespace` gives, and `canPrefetch`.
use middy.Prelude.{
  ℕ, ltb, ◌==◌, ◌≡◌, refl, Bool, false, ◌&&◌, ◌||◌, not, Option, none, some, is_some, or_default,
  List, [], ◌∷◌, arith, if◌then◌else◌, Bool-cases, Outcome, ok, err, Settlement, fulfilled,
  rejected, Option-cases, inl, inr,
}
use middy.Texts.{Text, same, Table, insert}
use middy.Util.Internal.{Values, InternalError, duplicate, unresolved, sanitized}
use middy.Util.Cache.{Options, CacheExpiry, millis, day, configured}

abbrev pub is_among : Text → List Text → Bool
is_among k [] = false
is_among k (j ∷ js) = same j k || is_among k js

-- The loop of `buildSetToContextSpec` over the keys, with the names that were seen.
unfoldable pub build_pairs :
    {E : Type 0} → List Text → List Text → Outcome (InternalError E) (List (Text × Text))
unfolding sanitized
build_pairs [] seen = ok []
build_pairs (k ∷ ks) seen =
    let rest = build_pairs ks (sanitized k ∷ seen) in
    if is_among (sanitized k) seen then err (duplicate (sanitized k)) else (elim rest [
      | ok ps ↦ ok ((k, sanitized k) ∷ ps)
      | err e ↦ err e
      | Outcome.pending ↦ Outcome.pending
    ])

-- `buildSetToContextSpec`: two keys with one name throw even if nothing is set to the context.
unfoldable pub build_set_to_context_spec :
    {E : Type 0} → Bool → List Text → Outcome (InternalError E) (Option (List (Text × Text)))
unfolding build_pairs
build_set_to_context_spec set_to_context ks = elim (build_pairs ks []) [
  | ok ps ↦ ok (if set_to_context then some ps else none)
  | err e ↦ err e
  | Outcome.pending ↦ Outcome.pending
]

module _ {E A : Type 0} (values : Values E A) (value : Text → A) where
  abbrev pub any_pending : List (Text × Text) → Bool
  any_pending [] = false
  any_pending ((k, n) ∷ ps) = is_some (values.thenable (value k)) || any_pending ps

  unfoldable pub assign_pairs : List (Text × Text) → Table A → Table A
  assign_pairs [] ctx = ctx
  assign_pairs ((k, n) ∷ ps) ctx = assign_pairs ps (insert n (value k) ctx)

  abbrev pub settled_value : Text → Settlement E A
  settled_value k = or_default (values.thenable (value k)) (fulfilled (value k))

  abbrev pub add_reason : Settlement E A → List E → List E
  add_reason (fulfilled v) es = es
  add_reason (rejected e) es = e ∷ es

  abbrev pub reasons : List (Text × Text) → List E
  reasons [] = []
  reasons ((k, n) ∷ ps) = add_reason (settled_value k) (reasons ps)

  abbrev pub write_result : Text → Settlement E A → Table A → Table A
  write_result n (fulfilled v) ctx = insert n v ctx
  write_result n (rejected e) ctx = insert n values.undefined ctx

  abbrev pub write_all : List (Text × Text) → Table A → Table A
  write_all [] ctx = ctx
  write_all ((k, n) ∷ ps) ctx = write_all ps (write_result n (settled_value k) ctx)

  -- `assignSetToContextAsync`
  unfoldable pub assign_async : List (Text × Text) → Table A → Outcome (InternalError E) (Table A)
  assign_async ps ctx = elim (reasons ps) [
    | [] ↦ ok (write_all ps ctx)
    | e ∷ es ↦ err (unresolved (e ∷ es))
  ]

  -- `assignSetToContext`
  unfoldable pub assign_set_to_context :
      List (Text × Text) → Table A → Outcome (InternalError E) (Table A)
  unfolding assign_pairs assign_async
  assign_set_to_context ps ctx =
      if any_pending ps then assign_async ps ctx else ok (assign_pairs ps ctx)

  reasons-none : (ps : List (Text × Text)) → any_pending ps ≡ false → reasons ps ≡ []
  reasons-none [] e = refl
  reasons-none ((k, n) ∷ ps) e = elim (Option-cases (values.thenable (value k))) [
    | inl h ↦ ground (arith, h, reasons-none ps)
    | inr (s, h) ↦ absurd (ground (arith, h))
  ]

  write_all-assign_pairs :
      (ps : List (Text × Text)) (ctx : Table A)
      → any_pending ps ≡ false
      → write_all ps ctx ≡ assign_pairs ps ctx
  unfolding assign_pairs
  write_all-assign_pairs [] ctx e = refl
  write_all-assign_pairs ((k, n) ∷ ps) ctx e = elim (Option-cases (values.thenable (value k))) [
    | inl h ↦ ground (arith, h, write_all-assign_pairs ps (insert n (value k) ctx))
    | inr (s, h) ↦ absurd (ground (arith, h))
  ]

  -- The loop that writes resolved values at once gives what awaiting them all gives.
  pub assign_set_to_context-eq-assign_async :
      (ps : List (Text × Text)) (ctx : Table A) → assign_set_to_context ps ctx ≡ assign_async ps ctx
  unfolding assign_set_to_context
  assign_set_to_context-eq-assign_async ps ctx = elim (Bool-cases (any_pending ps)) [
    | inl h ↦ ground (arith, h)
    | inr h ↦ ground (arith, h, reasons-none ps h, write_all-assign_pairs ps ctx h)
  ]

abbrev pub min_timestamp_cache_expiry : ℕ
min_timestamp_cache_expiry = 978307200000

abbrev pub is_mistyped : CacheExpiry → Bool
is_mistyped (millis n) = ltb day n && ltb n min_timestamp_cache_expiry
is_mistyped _ = false

abbrev pub is_zero : CacheExpiry → Bool
is_zero (millis n) = n == 0
is_zero _ = false

-- `canPrefetch`; `none` is the throw at a timestamp that can only be a duration.
unfoldable pub can_prefetch : Options → Option Bool
can_prefetch o =
    if is_mistyped (configured o)
    then none
    else some (not o.assumes_role && not o.disable_prefetch && not (is_zero (configured o)))
