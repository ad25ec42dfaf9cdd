-- ===== src/Contexts/Isolation.antt =====
-- packages/core/index.js and packages/util/index.js: a nested request leaves the objects of the outer
-- request as they are.
use middy.Prelude.{
  ℕ, suc, All, ◌≤◌, ◌<◌, ◌≡◌, refl, sym, ap, ◌∙◌, subst, inl, Option, none, some, List, [], ◌∷◌,
  length, take, take-all, arith,
}
use middy.Texts.{Text, lookup, insert, lookup-insert}
use middy.Contexts.Heap.{
  Value, undefined, null, reference, other, Heap, create, object_at, put_object, allocate, assign,
  read, in_flight_of, length-put_object, take-put_object, take-allocate, object_at-allocate_new,
  object_at-put_object, object_at-put_object_other, length-allocate,
}
use middy.Contexts.Requests.{
  middy_context, request_on, seed, middy_request, context_root, namespace_at, context_namespace,
  set_context_namespace, Act, make_object, open_namespace, publish, write, write_into, heap_of,
  then_heap, run_act, run_acts, root_of, with_root,
}
use middy.Contexts.Inner.{
  IsYoung, IsInner, Preserves, allocate_inner, read_own, assign_root, assign_young, Preserves-chain,
  IsInnerResult, namespace_at-IsInnerResult,
}

module _ {A : Type 0} where
  abbrev pub OnHeap : (Heap A → Type 0) → Option (Heap A) → Type 0
  OnHeap P none = Unit
  OnHeap P (some h) = P h

  read-middy_context :
      (n c m : ℕ) (h : Heap A) → IsInner n c m h → read h c middy_context ≡ reference m
  read-middy_context n c m h i = read_own h c middy_context (reference m) i.1.1.1.0

  context_root-inner : (n c m : ℕ) (h : Heap A) → IsInner n c m h → context_root c h ≡ (some m, h)
  unfolding context_root
  context_root-inner n c m h i = ap (λ v. root_of c v h) (read-middy_context n c m h i)

  write_into-Preserves :
      (n c m : ℕ) (h : Heap A) (p : Text) (x : Value A) (r : Value A × Heap A)
      → IsInnerResult n c m h r
      → OnHeap (Preserves n c m h) (write_into p x r)
  write_into-Preserves n c m h p x (undefined, g) i = tt
  write_into-Preserves n c m h p x (null, g) i = tt
  write_into-Preserves n c m h p x (other y, g) i = tt
  write_into-Preserves n c m h p x (reference a, g) (f, i) =
      Preserves-chain n c m h g (assign a p x g) i (assign_young n c m a g p x i.1 (f a refl))

  context_namespace-inner :
      (n c m : ℕ) (k : Text) (h : Heap A)
      → IsInner n c m h
      → context_namespace c k h ≡ some (namespace_at m k h)
  unfolding context_namespace
  context_namespace-inner n c m k h i =
      ap (λ r. with_root r (λ root. namespace_at root k)) (context_root-inner n c m h i)

  set_context_namespace-inner :
      (n c m : ℕ) (k : Text) (v : Value A) (h : Heap A)
      → IsInner n c m h
      → set_context_namespace c k v h ≡ some (assign m k v h)
  unfolding set_context_namespace
  set_context_namespace-inner n c m k v h i =
      ap (λ r. with_root r (λ root. assign root k v)) (context_root-inner n c m h i)

  -- A value that is published refers to no object up to the address.
  abbrev pub IsOwn : ℕ → Act A → Type 0
  IsOwn m (publish k v) = (a : ℕ) → v ≡ reference a → m < a
  IsOwn m (make_object o) = Unit
  IsOwn m (open_namespace k) = Unit
  IsOwn m (write k p v) = Unit

  run_act-Preserves :
      (n c m : ℕ) (h : Heap A) (act : Act A)
      → IsOwn m act
      → IsInner n c m h
      → OnHeap (Preserves n c m h) (run_act c act h)
  unfolding run_act
  run_act-Preserves n c m h (make_object o) w i = allocate_inner n c m h o i
  run_act-Preserves n c m h (open_namespace k) w i =
      subst (λ r. OnHeap (Preserves n c m h) (then_heap r heap_of)) {x = some (namespace_at m k h)}
        {y = context_namespace c k h} (sym (context_namespace-inner n c m k h i))
        (namespace_at-IsInnerResult n c m k h i).1
  run_act-Preserves n c m h (publish k x) w i =
      subst (OnHeap (Preserves n c m h)) {x = some (assign m k x h)}
        {y = set_context_namespace c k x h} (sym (set_context_namespace-inner n c m k x h i))
        (assign_root n c m h k x i w)
  run_act-Preserves n c m h (write k p x) w i =
      subst (λ r. OnHeap (Preserves n c m h) (then_heap r (write_into p x)))
        {x = some (namespace_at m k h)} {y = context_namespace c k h}
        (sym (context_namespace-inner n c m k h i))
        (write_into-Preserves n c m h p x (namespace_at m k h)
          (namespace_at-IsInnerResult n c m k h i))

  OnHeap-elim :
      {B : Type 0} (o : Option (Heap A)) (h : Heap A) (f : Heap A → Heap A) (P : Heap A → Type 0)
      (q : Heap A → B)
      → OnHeap P o
      → ((g : Heap A) → P g → q (f g) ≡ q h)
      → q (elim o [ none ↦ h | some g ↦ f g ]) ≡ q h
  OnHeap-elim none h f P q i k = refl
  OnHeap-elim (some g) h f P q i k = k g i

  run_acts-Preserves :
      (n c m : ℕ) (h : Heap A) (acts : List (Act A))
      → All (IsOwn m) acts
      → IsInner n c m h
      → take n (run_acts c acts h) ≡ take n h
  unfolding run_acts
  run_acts-Preserves n c m h [] w i = refl
  run_acts-Preserves n c m h (a ∷ later) (w, ws) i =
      OnHeap-elim (run_act c a h) h (run_acts c later) (Preserves n c m h) (take n)
        (run_act-Preserves n c m h a w i) (λ g (e, j). run_acts-Preserves n c m g later ws j ∙ e)

  -- A context with a root of its own, younger than the first objects.
  pub seed-IsInner :
      (p : Option ℕ) (n c : ℕ) (h : Heap A)
      → n ≤ c
      → c < length h
      → (take n (seed p c h) ≡ take n h) × IsInner n c (length h) (seed p c h)
  seed-IsInner p n c h l q =
      let g = allocate (create p) h in
      let o = record (object_at c g) {
        own = insert middy_context (reference (length h)) (object_at c g).own;
      } in
      let r : c < length g = omega (arith, length-allocate (create p) h) in
      (
        take-put_object n c o g l ∙ take-allocate n (create p) h (omega arith),
        (
          l,
          (
            q,
            (
              omega (arith, length-put_object c o g, length-allocate (create p) h),
              (
                ap (λ x. lookup middy_context x.own) (object_at-put_object c o g r)
                    ∙ lookup-insert middy_context middy_context (reference (length h))
                        (object_at c g).own,
                subst (λ x. IsYoung (length h) x.own) {x = create p}
                    {y = object_at (length h) (put_object c o g)}
                    (sym (
                      object_at-put_object_other c (length h) o g (inl q)
                      ∙ object_at-allocate_new (create p) h))
                    (λ k a z. absurd cc),
              ),
            ),
          ),
        ),
      )

  pub nested_request :
      (c parent : ℕ) (h : Heap A)
      → read h c middy_context ≡ reference parent
      → in_flight_of h c ≡ reference parent
      → middy_request c h ≡ (length h, seed (some parent) (length h) (allocate (create (some c)) h))
  unfolding middy_request
  nested_request c parent h e f =
      ap (λ v. request_on c v (in_flight_of h c) h) e
      ∙ ap (λ v. request_on c (reference parent) v h) f
      ∙ ground arith

-- While a request is in flight on a context whose `middyContext` is an object, `middyRequest` gives
-- a request on that context a context of its own. Whatever objects its middlewares make, namespaces
-- they open, values they publish and properties they write into namespaces, up to a TypeError if
-- there is one, every object that was there before is as it was, provided that they publish none
-- of these objects, nor the new context and its `middyContext`: objects that they made, and values
-- that are no objects, may be published.
pub nested_request_isolates :
    {A : Type 0} (c parent : ℕ) (h : Heap A) (acts : List (Act A))
    → read h c middy_context ≡ reference parent
    → in_flight_of h c ≡ reference parent
    → All (IsOwn (suc (length h))) acts
    → take (length h) (run_acts (middy_request c h).0 acts (middy_request c h).1) ≡ h
nested_request_isolates c parent h acts e f own =
    let g = allocate (create (some c)) h in
    let s = seed (some parent) (length h) g in
    let (d, i) =
      seed-IsInner (some parent) (length h) (length h) g (omega arith)
        (omega (arith, length-allocate (create (some c)) h)) in
    subst (λ r. take (length h) (run_acts r.0 acts r.1) ≡ h) {x = (length h, s)}
      {y = middy_request c h} (sym (nested_request c parent h e f))
      (run_acts-Preserves (length h) (length h) (length g) s acts
          (subst (λ m. All (IsOwn m) acts) {x = suc (length h)} {y = length g}
            (sym (length-allocate (create (some c)) h)) own)
          i
        ∙ d
        ∙ take-allocate (length h) (create (some c)) h (omega arith)
        ∙ take-all (length h) h (omega arith))
