-- ===== src/Contexts/Heap.antt =====
-- JavaScript objects on a heap: own properties, prototypes, allocation and assignment.
use middy.Prelude.{
  ℕ, suc, zero, ◌≤◌, ◌<◌, ◌≡◌, refl, ap, ◌⊎◌, Option, none, some, List, [], ◌∷◌, ◌++◌, length, take,
  arith,
}
use middy.Texts.{Text, Table, lookup, insert}

-- A property's value: `undefined`, `null`, a reference, or anything else.
pub data Value (A : Type 0) : Type 0 where
  undefined null : Value A
  reference : ℕ → Value A
  other : A → Value A

-- Its prototype, its own properties by name, and what it has under the symbol `inFlight`.
pub record Object (A : Type 0) : Type 0 where
  pub proto : Option ℕ
  pub own : Table (Value A)
  pub in_flight : Option (Value A)

-- An address is a position.
abbrev pub Heap : Type 0 → Type 0
Heap A = List (Object A)

module _ {A : Type 0} where
  -- `Object.create(proto)`
  abbrev pub create : Option ℕ → Object A
  create p = record { proto = p; own = []; in_flight = none }

  abbrev pub object_at : ℕ → Heap A → Object A
  object_at n [] = create none
  object_at zero (o ∷ h) = o
  object_at (suc n) (o ∷ h) = object_at n h

  abbrev pub put_object : ℕ → Object A → Heap A → Heap A
  put_object n o [] = []
  put_object zero o (p ∷ h) = o ∷ h
  put_object (suc n) o (p ∷ h) = p ∷ put_object n o h

  abbrev pub allocate : Object A → Heap A → Heap A
  allocate o h = h ++ o ∷ []

  -- `object[key] = value`
  abbrev pub assign : ℕ → Text → Value A → Heap A → Heap A
  assign a k v h = put_object a (record (object_at a h) { own = insert k v (object_at a h).own }) h

  abbrev pub own_value : Option (Value A) → (Unit {0} → Value A) → Value A
  own_value none inherited = inherited tt
  own_value (some v) inherited = v

  -- `object[key]` along the prototypes, of which no more than the number given are asked.
  unfoldable pub read_from : ℕ → Heap A → Option ℕ → Text → Value A
  read_from fuel h none k = undefined
  read_from zero h (some a) k = undefined
  read_from (suc fuel) h (some a) k =
      own_value (lookup k (object_at a h).own) (λ _. read_from fuel h (object_at a h).proto k)

  unfoldable pub read_flight : ℕ → Heap A → Option ℕ → Value A
  read_flight fuel h none = undefined
  read_flight zero h (some a) = undefined
  read_flight (suc fuel) h (some a) =
      own_value (object_at a h).in_flight (λ _. read_flight fuel h (object_at a h).proto)

  -- With as many steps as there are objects, since a prototype is older than its object.
  abbrev pub read : Heap A → ℕ → Text → Value A
  read h a k = read_from (suc a) h (some a) k

  abbrev pub in_flight_of : Heap A → ℕ → Value A
  in_flight_of h a = read_flight (suc a) h (some a)

  pub length-put_object : (n : ℕ) (o : Object A) (h : Heap A) → length (put_object n o h) ≡ length h
  length-put_object n o [] = refl
  length-put_object zero o (p ∷ h) = refl
  length-put_object (suc n) o (p ∷ h) = ap suc (length-put_object n o h)

  pub take-put_object :
      (n a : ℕ) (o : Object A) (h : Heap A) → n ≤ a → take n (put_object a o h) ≡ take n h
  take-put_object zero a o h l = refl
  take-put_object (suc n) a o [] l = refl
  take-put_object (suc n) zero o (p ∷ h) l = absurd (omega arith)
  take-put_object (suc n) (suc a) o (p ∷ h) l =
      ap (λ t. p ∷ t) (take-put_object n a o h (omega arith))

  pub take-allocate :
      (n : ℕ) (o : Object A) (h : Heap A) → n ≤ length h → take n (allocate o h) ≡ take n h
  take-allocate zero o h l = refl
  take-allocate (suc n) o [] l = absurd (omega arith)
  take-allocate (suc n) o (p ∷ h) l = ap (λ t. p ∷ t) (take-allocate n o h (omega arith))

  pub object_at-allocate_new : (o : Object A) (h : Heap A) → object_at (length h) (allocate o h) ≡ o
  object_at-allocate_new o [] = refl
  object_at-allocate_new o (p ∷ h) = object_at-allocate_new o h

  pub object_at-allocate :
      (a : ℕ) (o : Object A) (h : Heap A)
      → a < length h
      → object_at a (allocate o h) ≡ object_at a h
  object_at-allocate a o [] l = absurd (omega arith)
  object_at-allocate zero o (p ∷ h) l = refl
  object_at-allocate (suc a) o (p ∷ h) l = object_at-allocate a o h (omega arith)

  pub object_at-put_object :
      (a : ℕ) (o : Object A) (h : Heap A) → a < length h → object_at a (put_object a o h) ≡ o
  object_at-put_object a o [] l = absurd (omega arith)
  object_at-put_object zero o (p ∷ h) l = refl
  object_at-put_object (suc a) o (p ∷ h) l = object_at-put_object a o h (omega arith)

  pub object_at-put_object_other :
      (a b : ℕ) (o : Object A) (h : Heap A)
      → (a < b) ⊎ (b < a)
      → object_at b (put_object a o h) ≡ object_at b h
  object_at-put_object_other a b o [] l = refl
  object_at-put_object_other zero zero o (p ∷ h) l = absurd (omega arith)
  object_at-put_object_other zero (suc b) o (p ∷ h) l = refl
  object_at-put_object_other (suc a) zero o (p ∷ h) l = refl
  object_at-put_object_other (suc a) (suc b) o (p ∷ h) l =
      object_at-put_object_other a b o h (omega arith)

  pub length-allocate : (o : Object A) (h : Heap A) → length (allocate o h) ≡ suc (length h)
  length-allocate o [] = refl
  length-allocate o (p ∷ h) = ap suc (length-allocate o h)
