-- ===== src/Contexts/Inheritance.antt =====
-- packages/core/index.js and packages/util/index.js: what a request reads in its `middyContext`.
use middy.Prelude.{
  ℕ, suc, zero, ◌<◌, ◌≡◌, refl, sym, ap, ◌∙◌, subst, inl, false, Option, none, some, [], ◌∷◌,
  length, take, arith,
}
use middy.Texts.{Text, lookup}
use middy.Contexts.Heap.{
  Value, undefined, reference, Heap, create, object_at, allocate, own_value, read_from, read,
  read_flight, object_at-put_object, in_flight_of, take-allocate, length-allocate,
  length-put_object, object_at-put_object_other, object_at-allocate_new,
}
use middy.Contexts.Requests.{middy_context, same_reference, seed, middy_request, unmark}
use middy.Contexts.Inner.{read_own}
use middy.Contexts.Isolation.{seed-IsInner, nested_request}

-- A prototype is older than its object.
abbrev pub IsHeap : {A : Type 0} → Heap A → Type 0
IsHeap h = (a b : ℕ) → (object_at a h).proto ≡ some b → b < a

module _ {A : Type 0} where
  object_at-take : (n b : ℕ) (h : Heap A) → b < n → object_at b (take n h) ≡ object_at b h
  object_at-take zero b h l = absurd (omega arith)
  object_at-take (suc n) b [] l = refl
  object_at-take (suc n) zero (o ∷ h) l = refl
  object_at-take (suc n) (suc b) (o ∷ h) l = object_at-take n b h (omega arith)

  same_chain :
      (o : Option (Value A)) (x y : Value A)
      → (o ≡ none → x ≡ y)
      → own_value o (λ _. x) ≡ own_value o (λ _. y)
  same_chain none x y f = f refl
  same_chain (some v) x y f = refl

  -- Two heaps with the same objects below `n` give the same reads there, with enough steps.
  read_from-agree :
      (f g n : ℕ) (h s : Heap A) (o : Option ℕ) (k : Text)
      → IsHeap h
      → ((b : ℕ) → b < n → object_at b s ≡ object_at b h)
      → ((b : ℕ) → o ≡ some b → (b < n) × ((b < f) × (b < g)))
      → read_from f s o k ≡ read_from g h o k
  unfolding read_from
  read_from-agree f g n h s none k w e l = refl
  read_from-agree zero g n h s (some a) k w e l = let (x, (y, z)) = l a refl in absurd (omega arith)
  read_from-agree (suc f) zero n h s (some a) k w e l =
      let (x, (y, z)) = l a refl in absurd (omega arith)
  read_from-agree (suc f) (suc g) n h s (some a) k w e l =
      let (x, (y, z)) = l a refl in
      ap (λ o. own_value (lookup k o.own) (λ _. read_from f s o.proto k)) (e a x)
      ∙ same_chain (lookup k (object_at a h).own) (read_from f s (object_at a h).proto k)
          (read_from g h (object_at a h).proto k)
          (λ _.
            read_from-agree f g n h s (object_at a h).proto k w e
              (λ b d. (omega (arith, w a b d), (omega (arith, w a b d), omega (arith, w a b d)))))

  same_below :
      (n b : ℕ) (h s : Heap A) → take n s ≡ take n h → b < n → object_at b s ≡ object_at b h
  same_below n b h s e l =
      sym (object_at-take n b s l) ∙ ap (object_at b) e ∙ object_at-take n b h l

  seed_root :
      (p : Option ℕ) (c : ℕ) (h : Heap A)
      → c < length h
      → object_at (length h) (seed p c h) ≡ create p
  seed_root p c h l =
      object_at-put_object_other c (length h) _ (allocate (create p) h) (inl l)
      ∙ object_at-allocate_new (create p) h

below_parent : (n p : ℕ) → p < n → (b : ℕ) → some p ≡ some b → (b < n) × ((b < suc n) × (b < suc p))
below_parent n p l b e =
    let r : p ≡ b = cc in (omega (arith, r), (omega (arith, r), omega (arith, r)))

-- A nested request's context has a `middyContext` of its own, a new object, and that gives under
-- every key what the outer one gives. Prototypes are older than their objects.
pub nested_request_inherits :
    {A : Type 0} (c parent : ℕ) (h : Heap A) (k : Text)
    → IsHeap h
    → parent < length h
    → read h c middy_context ≡ reference parent
    → in_flight_of h c ≡ reference parent
    → (read (middy_request c h).1 (middy_request c h).0 middy_context ≡ reference (suc (length h)))
      × (read (middy_request c h).1 (suc (length h)) k ≡ read h parent k)
unfolding read_from
nested_request_inherits c parent h k w l e f =
    let g = allocate (create (some c)) h in
    let s = seed (some parent) (length h) g in
    let m = suc (length h) in
    let (d, i) =
      seed-IsInner (some parent) (length h) (length h) g (omega arith)
        (omega (arith, length-allocate (create (some c)) h)) in
    let fresh : object_at m s ≡ create (some parent) =
      subst (λ x. object_at x s ≡ create (some parent)) {x = length g} {y = m}
        (length-allocate (create (some c)) h)
        (seed_root (some parent) (length h) g
          (omega (arith, length-allocate (create (some c)) h))) in
    let first : take (length h) s ≡ take (length h) h =
      d ∙ take-allocate (length h) (create (some c)) h (omega arith) in
    (
      ap (λ r. read r.1 r.0 middy_context) (nested_request c parent h e f)
          ∙ read_own s (length h) middy_context (reference (length g)) i.1.1.1.0
          ∙ ap reference (length-allocate (create (some c)) h),
      ap (λ r. read r.1 m k) (nested_request c parent h e f)
          ∙ ap (λ o. own_value (lookup k o.own) (λ _. read_from m s o.proto k)) fresh
          ∙ read_from-agree m (suc parent) (length h) h s (some parent) k w
              (λ b q. same_below (length h) b h s first q) (below_parent (length h) parent l),
    )

new_request_is_empty :
    {A : Type 0} (c : ℕ) (h : Heap A) (k : Text)
    → c < length h
    → same_reference (in_flight_of h c) (read h c middy_context) ≡ false
    → (read (middy_request c h).1 (middy_request c h).0 middy_context ≡ reference (length h))
      × (read (middy_request c h).1 (length h) k ≡ undefined)
unfolding read_from middy_request
new_request_is_empty c h k l e =
    let s = seed none c h in
    let (d, i) = seed-IsInner none c c h (omega arith) l in
    subst
      (λ r.
        (read r.1 r.0 middy_context ≡ reference (length h)) × (read r.1 (length h) k ≡ undefined))
      {x = (c, s)} {y = middy_request c h} (ground (arith, e))
      (
        read_own s c middy_context (reference (length h)) i.1.1.1.0,
        ap (λ o. own_value (lookup k o.own) (λ _. read_from (length h) s o.proto k))
            (seed_root none c h l),
      )

in_flight_of-unmark :
    {A : Type 0} (c : ℕ) (h : Heap A) → c < length h → in_flight_of (unmark c h) c ≡ undefined
unfolding read_flight
in_flight_of-unmark c h l =
    let o = record (object_at c h) { in_flight = some undefined } in
    ap (λ x. own_value x.in_flight (λ _. read_flight c (unmark c h) x.proto))
      (object_at-put_object c o h l)

unmarked_differs : {A : Type 0} (v w : Value A) → v ≡ undefined → same_reference v w ≡ false
unmarked_differs v w e = ap (λ x. same_reference x w) e

-- On a context whose request has come to its end, the next request has a `middyContext` of its own
-- that is empty: nothing that an earlier one has left is read from it.
pub reused_context_starts_fresh :
    {A : Type 0} (c : ℕ) (h : Heap A) (k : Text)
    → c < length h
    → let next = middy_request c (unmark c h) in
      (read next.1 next.0 middy_context ≡ reference (length h))
      × (read next.1 (length h) k ≡ undefined)
reused_context_starts_fresh c h k l =
    let ended = unmark c h in
    let n : length ended ≡ length h =
      length-put_object c (record (object_at c h) { in_flight = some undefined }) h in
    subst
      (λ x.
        (read (middy_request c ended).1 (middy_request c ended).0 middy_context ≡ reference x)
        × (read (middy_request c ended).1 x k ≡ undefined))
      {x = length ended} {y = length h} n
      (new_request_is_empty c ended k (omega (arith, n)) (
        unmarked_differs (in_flight_of ended c) (read ended c middy_context)
          (in_flight_of-unmark c h l)))
