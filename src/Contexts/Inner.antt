-- ===== src/Contexts/Inner.antt =====
-- packages/core/index.js and packages/util/index.js: what keeps the objects of a nested request younger
-- than those of the outer one.
use middy.Prelude.{
  ℕ, ◌≤◌, ◌<◌, ◌≡◌, refl, sym, ap, ◌∙◌, subst, inl, inr, true, ◌&&◌, not, some, is_some, length,
  take, arith, Bool-cases, Option-cases,
}
use middy.Texts.{Text, same, Table, lookup, insert, lookup-insert}
use middy.Contexts.Heap.{
  Value, reference, Object, Heap, create, object_at, put_object, allocate, assign, own_value,
  read_from, read, length-put_object, take-put_object, take-allocate, object_at-allocate,
  object_at-put_object, object_at-put_object_other, length-allocate,
}
use middy.Contexts.Requests.{middy_context, is_nullish, as_proto, namespace_at}

module _ {A : Type 0} where
  -- Every object that the table refers to is younger than the address.
  abbrev pub IsYoung : ℕ → Table (Value A) → Type 0
  IsYoung m t = (k : Text) (a : ℕ) → lookup k t ≡ some (reference a) → m < a

  -- The context `c` and its root `m` are younger than the first `n` objects, and what the root
  -- refers to is younger than the root.
  abbrev pub IsInner : ℕ → ℕ → ℕ → Heap A → Type 0
  IsInner n c m h =
      (n ≤ c)
      × ((c < m)
          × ((m < length h)
              × ((lookup middy_context (object_at c h).own ≡ some (reference m))
                  × IsYoung m (object_at m h).own)))

  pub read_own :
      (h : Heap A) (a : ℕ) (k : Text) (v : Value A)
      → lookup k (object_at a h).own ≡ some v
      → read h a k ≡ v
  unfolding read_from
  read_own h a k v e = ap (λ o. own_value o (λ _. read_from a h (object_at a h).proto k)) e

  -- The first objects are as they were, and the request is still inner.
  abbrev pub Preserves : ℕ → ℕ → ℕ → Heap A → Heap A → Type 0
  Preserves n c m h g = (take n g ≡ take n h) × IsInner n c m g

  pub IsYoung-insert :
      (m : ℕ) (k : Text) (v : Value A) (t : Table (Value A))
      → IsYoung m t
      → ((a : ℕ) → v ≡ reference a → m < a)
      → IsYoung m (insert k v t)
  IsYoung-insert m k v t y f j a z = elim (Bool-cases (same k j)) [
    | inl b ↦ f a (ground (arith, lookup-insert k j v t, b, z))
    | inr b ↦ y j a (ground (arith, lookup-insert k j v t, b, z))
  ]

  -- Assignments to the root of what refers to no older object, and to younger objects.
  pub assign_root :
      (n c m : ℕ) (h : Heap A) (k : Text) (v : Value A)
      → IsInner n c m h
      → ((a : ℕ) → v ≡ reference a → m < a)
      → Preserves n c m h (assign m k v h)
  assign_root n c m h k v (l, (q, (r, (e, y)))) f =
      let o = record (object_at m h) { own = insert k v (object_at m h).own } in
      (
        take-put_object n m o h (omega arith),
        (
          l,
          (
            q,
            (
              omega (arith, length-put_object m o h),
              (
                ap (λ x. lookup middy_context x.own) (object_at-put_object_other m c o h (inr q))
                    ∙ e,
                subst (λ x. IsYoung m x.own) {x = o} {y = object_at m (put_object m o h)}
                    (sym (object_at-put_object m o h r))
                    (IsYoung-insert m k v (object_at m h).own y f),
              ),
            ),
          ),
        ),
      )

  pub assign_young :
      (n c m a : ℕ) (h : Heap A) (k : Text) (v : Value A)
      → IsInner n c m h
      → m < a
      → Preserves n c m h (assign a k v h)
  assign_young n c m a h k v (l, (q, (r, (e, y)))) z =
      let o = record (object_at a h) { own = insert k v (object_at a h).own } in
      (
        take-put_object n a o h (omega arith),
        (
          l,
          (
            q,
            (
              omega (arith, length-put_object a o h),
              (
                ap (λ x. lookup middy_context x.own)
                      (object_at-put_object_other a c o h (inr (omega arith)))
                    ∙ e,
                subst (λ x. IsYoung m x.own) {x = object_at m h}
                    {y = object_at m (put_object a o h)}
                    (sym (object_at-put_object_other a m o h (inr z))) y,
              ),
            ),
          ),
        ),
      )

  pub allocate_inner :
      (n c m : ℕ) (h : Heap A) (o : Object A) → IsInner n c m h → Preserves n c m h (allocate o h)
  allocate_inner n c m h o (l, (q, (r, (e, y)))) = (
    take-allocate n o h (omega arith),
    (
      l,
      (
        q,
        (
          omega (arith, length-allocate o h),
          (
            ap (λ x. lookup middy_context x.own) (object_at-allocate c o h (omega arith)) ∙ e,
            subst (λ x. IsYoung m x.own) {x = object_at m h} {y = object_at m (allocate o h)}
                (sym (object_at-allocate m o h r)) y,
          ),
        ),
      ),
    ),
  )

  pub Preserves-chain :
      (n c m : ℕ) (h g f : Heap A) → Preserves n c m h g → Preserves n c m g f → Preserves n c m h f
  Preserves-chain n c m h g f (e, i) (d, j) = (d ∙ e, j)

  -- A namespace that is handed out is none of the older objects.
  abbrev pub IsInnerResult : ℕ → ℕ → ℕ → Heap A → Value A × Heap A → Type 0
  IsInnerResult n c m h r = ((a : ℕ) → r.0 ≡ reference a → m < a) × Preserves n c m h r.1

  pub reference_young :
      (m b : ℕ) → m < b → (a : ℕ) → ◌≡◌ {A = Value A} (reference b) (reference a) → m < a
  reference_young m b l a e = let d : b ≡ a = cc in omega (arith, d)

  pub own_is_young :
      (n c m : ℕ) (k : Text) (h : Heap A)
      → IsInner n c m h
      → (is_some (lookup k (object_at m h).own) && not (is_nullish (read h m k))) ≡ true
      → (a : ℕ) → read h m k ≡ reference a
      → m < a
  own_is_young n c m k h i b a e = elim (Option-cases (lookup k (object_at m h).own)) [
    | inl z ↦ absurd (ground (arith, z, b))
    | inr (v, z) ↦ i.1.1.1.1 k a (z ∙ ap some (sym (read_own h m k v z) ∙ e))
  ]

  pub namespace_at-IsInnerResult :
      (n c m : ℕ) (k : Text) (h : Heap A)
      → IsInner n c m h
      → IsInnerResult n c m h (namespace_at m k h)
  namespace_at-IsInnerResult n c m k h i =
      let g = allocate (create (as_proto (read h m k))) h in
      elim (Bool-cases (is_some (lookup k (object_at m h).own) && not (is_nullish (read h m k)))) [
        | inl b ↦
            subst (IsInnerResult n c m h) {x = (read h m k, h)} {y = namespace_at m k h}
              (ground (arith, b)) (own_is_young n c m k h i b, (refl, i))
        | inr b ↦
            subst (IsInnerResult n c m h)
              {x = (
                reference (length h),
                assign m k (reference (length h)) (allocate (create (as_proto (read h m k))) h),
              )}
              {y = namespace_at m k h} (ground (arith, b))
              (
                reference_young m (length h) i.1.1.0,
                Preserves-chain n c m h g (assign m k (reference (length h)) g)
                    (allocate_inner n c m h (create (as_proto (read h m k))) i)
                    (assign_root n c m g k (reference (length h))
                      (allocate_inner n c m h (create (as_proto (read h m k))) i).1
                      (reference_young m (length h) i.1.1.0)),
              )
      ]
