-- ===== src/Util/Omit/Totality.antt =====
-- packages/util/index.js: `omit` does not throw where no path ends in `[]`.
use middy.Prelude.{
  ◌≡◌, refl, sym, subst, inl, inr, ◌≢◌, Bool, true, Option, none, some, length, arith, Option-cases,
  Bool-cases, is_some,
}
use middy.Texts.{Text, units}
use middy.Util.Omit.{
  Node, leaf, branch, Tree, get_node, Value, simple, not_a_number, array, record_object,
  instance_object, error, Items, nil, cons, Fields, end, field, has_segment_length, Entry, kept,
  removed, to_kept, to_record, to_instance, to_error, to_array, find_node, entry_step, add_entry,
  add_item, omit, omit_array, omit_object, map_option,
}
use middy.Util.Omit.Reaching.{IsFolded, IsFoldedTree, IsFoldedTree-get_node}

-- Of a result: no value that it holds at the path but the mask.

abbrev pub IsFoldedChild : (Text → Text) → Option Node → Type 0
IsFoldedChild lower none = Unit
IsFoldedChild lower (some leaf) = ⊥
IsFoldedChild lower (some (branch t)) = IsFoldedTree lower t

map_option-some :
    {A B : Type 0} (f : A → B) (o : Option A) → is_some o ≡ true → is_some (map_option f o) ≡ true
map_option-some f none h = h
map_option-some f (some a) h = refl

add_item-some :
    (o : Option (Value × Bool)) (r : Option (Items × Bool))
    → is_some o ≡ true
    → is_some r ≡ true
    → is_some (add_item o r) ≡ true
add_item-some none r h g = h
add_item-some (some x) none h g = g
add_item-some (some (x, b)) (some (xs, c)) h g = refl

add_entry-some :
    (k : Text) (o : Option Entry) (r : Option (Fields × Bool))
    → is_some o ≡ true
    → is_some r ≡ true
    → is_some (add_entry k o r) ≡ true
add_entry-some k none r h g = h
add_entry-some k (some x) none h g = g
add_entry-some k (some (kept b x)) (some (xs, c)) h g = refl
add_entry-some k (some removed) (some (xs, c)) h g = refl

entry_step-some :
    (lower : Text → Text) (mask : Option Value) (v : Value) (o : Option Node)
    (walk : Node → Option (Value × Bool))
    → ((c : Tree) → o ≡ some (branch c) → is_some (walk (branch c)) ≡ true)
    → is_some (entry_step mask v o walk) ≡ true
entry_step-some lower mask v none walk h = refl
entry_step-some lower none v (some leaf) walk h = refl
entry_step-some lower (some m) v (some leaf) walk h = refl
entry_step-some lower mask v (some (branch c)) walk h =
    map_option-some to_kept (walk (branch c)) (h c refl)

module _ (lower : Text → Text) (mask : Option Value) where
  find_node-IsFolded :
      (k : Text) (t : Tree) (n : Node)
      → IsFoldedTree lower t
      → find_node lower k t ≡ some n
      → IsFolded lower n
  find_node-IsFolded k t n h e = elim (Option-cases (get_node k t)) [
    | inl z ↦ elim (Bool-cases (has_segment_length (length k) t)) [
      | inl b ↦ (IsFoldedTree-get_node lower (lower k) t n h (ground (arith, z, b, e))).1.1
      | inr b ↦ absurd (ground (arith, z, b, e))
    ]
    | inr (o, z) ↦ (IsFoldedTree-get_node lower k t n h (ground (arith, z, e))).1.1
  ]

  find_node-some :
      (k : Text) (v : Value) (t : Tree) (walk : Node → Option (Value × Bool))
      → IsFoldedTree lower t
      → ((c : Tree) → IsFoldedTree lower c → is_some (walk (branch c)) ≡ true)
      → is_some (entry_step mask v (find_node lower k t) walk) ≡ true
  find_node-some k v t walk h f =
      entry_step-some lower mask v (find_node lower k t) walk
        (λ c e. f c (find_node-IsFolded k t (branch c) h e))

  child-IsFolded : (t : Tree) → IsFoldedTree lower t → IsFoldedChild lower (get_node (units "[]") t)
  child-IsFolded t h = elim (Option-cases (get_node (units "[]") t)) [
    | inl z ↦ subst (IsFoldedChild lower) {x = none} {y = get_node (units "[]") t} (sym z) tt
    | inr (leaf, z) ↦ absurd ((IsFoldedTree-get_node lower (units "[]") t leaf h z).1.0 refl refl)
    | inr (branch c, z) ↦
        subst (IsFoldedChild lower) {x = some (branch c)} {y = get_node (units "[]") t} (sym z)
          (IsFoldedTree-get_node lower (units "[]") t (branch c) h z).1.1
  ]

  omit-none-some : (v : Value) → is_some (omit lower mask v none) ≡ true
  unfolding omit
  omit-none-some (simple n) = refl
  omit-none-some not_a_number = refl
  omit-none-some (array xs) = refl
  omit-none-some (record_object fs) = refl
  omit-none-some (instance_object fs) = refl
  omit-none-some (error v fs) = refl

  mutual
    unfolding omit

    omit-some :
        (v : Value) (t : Tree)
        → IsFoldedTree lower t
        → is_some (omit lower mask v (some (branch t))) ≡ true
    omit-some (simple n) t h = refl
    omit-some not_a_number t h = refl
    omit-some (array xs) t h =
        map_option-some to_array _
          (omit_array-some xs (get_node (units "[]") t) (child-IsFolded t h))
    omit-some (record_object fs) t h = map_option-some to_record _ (omit_object-some fs t h)
    omit-some (instance_object fs) t h =
        map_option-some (to_instance fs) _ (omit_object-some fs t h)
    omit-some (error v fs) t h = map_option-some to_error _ (
        add_entry-some (units "name") _ (omit_object lower mask fs t)
          (find_node-some (units "name") v t (λ n. omit lower mask v (some n)) h (omit-some v))
          (omit_object-some fs t h))

    omit_array-some :
        (xs : Items) (child : Option Node)
        → (IsFoldedChild lower child)
        → is_some (omit_array lower mask xs child) ≡ true
    omit_array-some nil child h = refl
    omit_array-some (cons x xs) none h =
        add_item-some (omit lower mask x none) (omit_array lower mask xs none) (omit-none-some x)
          (omit_array-some xs none h)
    omit_array-some (cons x xs) (some leaf) h = absurd h
    omit_array-some (cons x xs) (some (branch t)) h =
        add_item-some (omit lower mask x (some (branch t)))
          (omit_array lower mask xs (some (branch t))) (omit-some x t h)
          (omit_array-some xs (some (branch t)) h)

    omit_object-some :
        (fs : Fields) (t : Tree)
        → IsFoldedTree lower t
        → is_some (omit_object lower mask fs t) ≡ true
    omit_object-some end t h = refl
    omit_object-some (field k v fs) t h =
        (add_entry-some k _ (omit_object lower mask fs t)
          (find_node-some k v t (λ n. omit lower mask v (some n)) h (omit-some v))
          (omit_object-some fs t h))

-- Where the tree has no path that ends in `[]`, `omit` returns: it never calls a method of a leaf.
pub omit-ne-none :
    (lower : Text → Text) (mask : Option Value) (v : Value) (t : Tree)
    → IsFoldedTree lower t
    → omit lower mask v (some (branch t)) ≢ none
omit-ne-none lower mask v t h e = ground (arith, omit-some lower mask v t h, e)
