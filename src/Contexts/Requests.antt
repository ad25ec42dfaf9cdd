-- ===== src/Contexts/Requests.antt =====
-- packages/core/index.js: `middyRequest` and the mark of a request in flight;
-- packages/util/index.js: `contextNamespace` and `setContextNamespace`.
use middy.Prelude.{
  ℕ, ◌==◌, Bool, true, false, ◌&&◌, not, Option, none, some, is_some, List, [], ◌∷◌, length,
  if◌then◌else◌,
}
use middy.Texts.{Text, units, lookup}
use middy.Contexts.Heap.{
  Value, undefined, null, reference, other, Object, Heap, create, object_at, put_object, allocate,
  assign, read, in_flight_of,
}

abbrev pub middy_context : Text
middy_context = units "middyContext"

module _ {A : Type 0} where
  -- `context[inFlight] === parent`, where only references are ever compared with success.
  abbrev pub same_reference : Value A → Value A → Bool
  same_reference (reference a) (reference b) = a == b
  same_reference null null = true
  same_reference _ _ = false

  abbrev pub is_undefined : Value A → Bool
  is_undefined undefined = true
  is_undefined _ = false

  abbrev pub is_nullish : Value A → Bool
  is_nullish undefined = true
  is_nullish null = true
  is_nullish _ = false

  -- The prototype that a value is, for `typeof value === "object" ? value : null`.
  abbrev pub as_proto : Value A → Option ℕ
  as_proto (reference a) = some a
  as_proto _ = none

  -- A context with a namespace of its own.
  abbrev pub seed : Option ℕ → ℕ → Heap A → Heap A
  seed p c h = assign c middy_context (reference (length h)) (allocate (create p) h)

  -- A context that the mark and `middyContext` agree on is in flight.
  abbrev pub request_on : ℕ → Value A → Value A → Heap A → ℕ × Heap A
  request_on c parent flight h =
      if not (is_undefined parent) && same_reference flight parent
      then (length h, seed (as_proto parent) (length h) (allocate (create (some c)) h))
      else (c, seed none c h)

  -- `middyRequest`: the request's context. A `middyContext` is an object, `null` or `undefined`.
  unfoldable pub middy_request : ℕ → Heap A → ℕ × Heap A
  middy_request c h = request_on c (read h c middy_context) (in_flight_of h c) h

  -- `context[inFlight] = context.middyContext`, and its end.
  abbrev pub mark : ℕ → Heap A → Heap A
  mark c h = put_object c (record (object_at c h) { in_flight = some (read h c middy_context) }) h

  abbrev pub unmark : ℕ → Heap A → Heap A
  unmark c h = put_object c (record (object_at c h) { in_flight = some undefined }) h

  -- `contextRoot`; `none` is a root that is no object, on which no property can be set.
  abbrev pub root_of : ℕ → Value A → Heap A → Option ℕ × Heap A
  root_of c (reference a) h = (some a, h)
  root_of c (other a) h = (none, h)
  root_of c _ h = (some (length h), seed none c h)

  unfoldable pub context_root : ℕ → Heap A → Option ℕ × Heap A
  context_root c h = root_of c (read h c middy_context) h

  abbrev pub namespace_at : ℕ → Text → Heap A → Value A × Heap A
  namespace_at root k h =
      let current = read h root k in
      if is_some (lookup k (object_at root h).own) && not (is_nullish current)
      then (current, h)
      else (
        reference (length h),
        assign root k (reference (length h)) (allocate (create (as_proto current)) h),
      )

  abbrev pub with_root : {B : Type 0} → Option ℕ × Heap A → (ℕ → Heap A → B) → Option B
  with_root (none, h) f = none
  with_root (some root, h) f = some (f root h)

  -- `contextNamespace`; `none` is a TypeError.
  unfoldable pub context_namespace : ℕ → Text → Heap A → Option (Value A × Heap A)
  unfolding context_root
  context_namespace c k h = with_root (context_root c h) (λ root. namespace_at root k)

  -- `setContextNamespace`
  unfoldable pub set_context_namespace : ℕ → Text → Value A → Heap A → Option (Heap A)
  unfolding context_root
  set_context_namespace c k v h = with_root (context_root c h) (λ root. assign root k v)

-- What the middlewares of a request do to objects: make one (a client, a pool), open a namespace of
-- the context, publish a value, which may be an object, or write one into a namespace.
pub data Act (A : Type 0) : Type 0 where
  make_object : Object A → Act A
  open_namespace : Text → Act A
  publish : Text → Value A → Act A
  write : Text → Text → Value A → Act A

module _ {A : Type 0} where
  -- `namespace[key] = value`; a primitive takes no property.
  abbrev pub write_into : Text → Value A → Value A × Heap A → Option (Heap A)
  write_into k v (reference n, h) = some (assign n k v h)
  write_into k v (_, h) = none

  abbrev pub heap_of : Value A × Heap A → Option (Heap A)
  heap_of (v, h) = some h

  abbrev pub then_heap :
      Option (Value A × Heap A) → (Value A × Heap A → Option (Heap A)) → Option (Heap A)
  then_heap none f = none
  then_heap (some r) f = f r

  unfoldable pub run_act : ℕ → Act A → Heap A → Option (Heap A)
  unfolding context_namespace set_context_namespace
  run_act c (make_object o) h = some (allocate o h)
  run_act c (open_namespace k) h = then_heap (context_namespace c k h) heap_of
  run_act c (publish k v) h = set_context_namespace c k v h
  run_act c (write k p v) h = then_heap (context_namespace c k h) (write_into p v)

  -- Any sequence of them, to its end or to a TypeError.
  unfoldable pub run_acts : ℕ → List (Act A) → Heap A → Heap A
  unfolding run_act
  run_acts c [] h = h
  run_acts c (a ∷ later) h = elim (run_act c a h) [ none ↦ h | some g ↦ run_acts c later g ]
