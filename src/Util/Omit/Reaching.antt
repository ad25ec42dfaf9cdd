-- ===== src/Util/Omit/Reaching.antt =====
-- packages/util/index.js: the paths of a tree, the values that stand at them, and how a name is found.
use middy.Prelude.{
  ◌≡◌, sym, ◌∙◌, subst, ◌⊎◌, inl, inr, ◌≢◌, true, some, List, [], ◌∷◌, length, arith, Option-cases,
  Bool-cases,
}
use middy.Texts.{Text, units, same, same_iff}
use middy.Util.Omit.{
  Node, leaf, branch, Tree, empty, entry, get_node, Value, simple, not_a_number, array,
  record_object, instance_object, error, Items, nil, cons, Fields, end, field, has_segment_length,
  find_node,
}

-- The path leads to a leaf.
abbrev pub Marks : List Text → Node → Type 0
Marks [] leaf = Unit
Marks [] (branch t) = ⊥
Marks (s ∷ ss) leaf = ⊥
Marks (s ∷ ss) (branch t) = (n : Node) × (get_node s t ≡ some n) × Marks ss n

-- Every segment of the tree is in lower case, and no path ends in `[]`.
abbrev mutual
  pub IsFolded : (Text → Text) → Node → Type 0
  IsFolded lower leaf = Unit
  IsFolded lower (branch t) = IsFoldedTree lower t

  pub IsFoldedTree : (Text → Text) → Tree → Type 0
  IsFoldedTree lower empty = Unit
  IsFoldedTree lower (entry k n t) =
      (lower k ≡ k)
      × ((same k (units "[]") ≡ true → n ≢ leaf) × (IsFolded lower n × IsFoldedTree lower t))

abbrev pub HasItem : Value → Items → Type 0
HasItem x nil = ⊥
HasItem x (cons y ys) = (x ≡ y) ⊎ HasItem x ys

abbrev pub HasField : Text → Value → Fields → Type 0
HasField k x end = ⊥
HasField k x (field j y fs) = ((k ≡ j) × (x ≡ y)) ⊎ HasField k x fs

-- The property's name is the segment up to case, by a lower case that is as long as the name.
abbrev pub HasProperty : (Text → Text) → Text → Value → Fields → Type 0
HasProperty lower s x fs =
    (k : Text) × ((lower k ≡ s) × ((length (lower k) ≡ length k) × HasField k x fs))

abbrev pub Child : (Text → Text) → Text → Value → Value → Type 0
Child lower s (simple n) x = ⊥
Child lower s not_a_number x = ⊥
Child lower s (array xs) x = (s ≡ units "[]") × HasItem x xs
Child lower s (record_object fs) x = HasProperty lower s x fs
Child lower s (instance_object fs) x = HasProperty lower s x fs
Child lower s (error v fs) x = HasProperty lower s x (field (units "name") v fs)

-- The second value stands in the first at the path.
abbrev pub Reaches : (Text → Text) → List Text → Value → Value → Type 0
Reaches lower [] v w = v ≡ w
Reaches lower (s ∷ ss) v w = (x : Value) × (Child lower s v x × Reaches lower ss x w)

module _ (lower : Text → Text) where
  pub IsFoldedTree-get_node :
      (s : Text) (t : Tree) (n : Node)
      → IsFoldedTree lower t
      → get_node s t ≡ some n
      → (lower s ≡ s) × ((same s (units "[]") ≡ true → n ≢ leaf) × IsFolded lower n)
  IsFoldedTree-get_node s empty n h e = absurd cc
  IsFoldedTree-get_node s (entry k m t) n h e = elim (Bool-cases (same k s)) [
    | inl b ↦
        subst (λ j. (lower j ≡ j) × ((same j (units "[]") ≡ true → n ≢ leaf) × IsFolded lower n))
          {x = k} {y = s} (ground (arith, same_iff k s))
          (subst (λ o. (lower k ≡ k) × ((same k (units "[]") ≡ true → o ≢ leaf) × IsFolded lower o))
            {x = m} {y = n} (ground arith) (h.0, (h.1.0, h.1.1.0)))
    | inr b ↦ IsFoldedTree-get_node s t n h.1.1.1 (ground arith)
  ]

  has_segment_length-get_node :
      (s : Text) (t : Tree) (n : Node)
      → get_node s t ≡ some n
      → has_segment_length (length s) t ≡ true
  has_segment_length-get_node s empty n e = absurd cc
  has_segment_length-get_node s (entry k m t) n e =
      ground (arith, same_iff k s, has_segment_length-get_node s t n)

  -- A property is found under the segment that is its name up to case.
  pub find_node-folded :
      (k s : Text) (t : Tree) (n : Node)
      → IsFoldedTree lower t
      → get_node s t ≡ some n
      → lower k ≡ s
      → length (lower k) ≡ length k
      → find_node lower k t ≡ some n
  find_node-folded k s t n h e l m = elim (Option-cases (get_node k t)) [
    | inl z ↦ ground (arith, z, has_segment_length-get_node s t n e)
    | inr (o, z) ↦
        let k_is_s : k ≡ s = sym (IsFoldedTree-get_node k t o h z).0 ∙ l in
        ground (arith, z, e, k_is_s, has_segment_length-get_node s t n e)
  ]
