-- ===== src/Util/Omit/Steps.antt =====
-- packages/util/index.js: the steps of `omit` on values that hold no more than the mask at a path.
use middy.Prelude.{
  ◌≡◌, refl, sym, ap, ◌∙◌, subst, inl, inr, ◌≢◌, Bool, true, false, Option, none, some, List, [],
  ◌∷◌, length, arith, Bool-cases,
}
use middy.Texts.{Text, units, same, same_iff}
use middy.Util.Omit.{
  Node, leaf, branch, Tree, get_node, Value, Items, Fields, Entry, kept, removed, to_kept,
  to_record, to_instance, to_error, to_array, find_node, entry_step, add_entry, add_item,
  map_option,
}
use middy.Util.Omit.Unchanged.{IsSameUnless}
use middy.Util.Omit.Reaching.{
  Marks, IsFolded, IsFoldedTree, HasItem, HasField, Reaches, find_node-folded,
  IsFoldedTree-get_node,
}

-- Of a result: no value that it holds at the path but the mask.
module _ (lower : Text → Text) (mask : Option Value) where
  abbrev pub IsRedacted : List Text → Value → Type 0
  IsRedacted p v = (w : Value) → Reaches lower p v w → mask ≡ some w

  abbrev pub AreItemsRedacted : List Text → Items → Type 0
  AreItemsRedacted ss xs = (x : Value) → HasItem x xs → IsRedacted ss x

  abbrev pub AreFieldsRedacted : Text → List Text → Fields → Type 0
  AreFieldsRedacted s ss fs =
      (k : Text) (x : Value)
      → lower k ≡ s
      → length (lower k) ≡ length k
      → HasField k x fs
      → IsRedacted ss x

abbrev pub OnResult : {A : Type 0} → (A → Type 0) → Option (A × Bool) → Type 0
OnResult P none = Unit
OnResult P (some (x, b)) = P x

abbrev pub OnEntry : (Value → Type 0) → Option Entry → Type 0
OnEntry P none = Unit
OnEntry P (some removed) = Unit
OnEntry P (some (kept b x)) = P x

module _ (lower : Text → Text) (mask : Option Value) (s : Text) (ss : List Text) where
  pub to_record-IsRedacted :
      (r : Option (Fields × Bool))
      → OnResult (AreFieldsRedacted lower mask s ss) r
      → OnResult (IsRedacted lower mask (s ∷ ss)) (map_option to_record r)
  to_record-IsRedacted none h = tt
  to_record-IsRedacted (some (fs, b)) h = λ w (x, ((k, (l, (m, f))), q)). h k x l m f w q

  pub to_error-IsRedacted :
      (r : Option (Fields × Bool))
      → OnResult (AreFieldsRedacted lower mask s ss) r
      → OnResult (IsRedacted lower mask (s ∷ ss)) (map_option to_error r)
  to_error-IsRedacted none h = tt
  to_error-IsRedacted (some (fs, b)) h = λ w (x, ((k, (l, (m, f))), q)). h k x l m f w q

  pub to_instance-IsRedacted :
      (old : Fields) (r : Option (Fields × Bool))
      → IsSameUnless old r
      → OnResult (AreFieldsRedacted lower mask s ss) r
      → OnResult (IsRedacted lower mask (s ∷ ss)) (map_option (to_instance old) r)
  to_instance-IsRedacted old none g h = tt
  to_instance-IsRedacted old (some (fs, true)) g h = λ w (x, ((k, (l, (m, f))), q)). h k x l m f w q
  to_instance-IsRedacted old (some (fs, false)) g h = λ w (x, ((k, (l, (m, f))), q)).
      h k x l m (subst (HasField k x) {x = old} {y = fs} (sym (g refl)) f) w q

  to_array-IsRedacted :
      (r : Option (Items × Bool))
      → OnResult (AreItemsRedacted lower mask ss) r
      → OnResult (IsRedacted lower mask (s ∷ ss)) (map_option to_array r)
  to_array-IsRedacted none h = tt
  to_array-IsRedacted (some (xs, b)) h = λ w (x, ((e, i), q)). h x i w q

  pub add_item-AreItemsRedacted :
      (o : Option (Value × Bool)) (r : Option (Items × Bool))
      → OnResult (IsRedacted lower mask ss) o
      → OnResult (AreItemsRedacted lower mask ss) r
      → OnResult (AreItemsRedacted lower mask ss) (add_item o r)
  add_item-AreItemsRedacted none r h g = tt
  add_item-AreItemsRedacted (some (y, b)) none h g = tt
  add_item-AreItemsRedacted (some (y, b)) (some (ys, c)) h g = λ x i w q. elim i [
    | inl e ↦ h w (subst (λ z. Reaches lower ss z w) {x = x} {y = y} e q)
    | inr j ↦ g x j w q
  ]

  -- What becomes of a property matters where its name is the segment.
  pub add_entry-AreFieldsRedacted :
      (j : Text) (e : Option Entry) (r : Option (Fields × Bool))
      → (lower j ≡ s → length (lower j) ≡ length j → OnEntry (IsRedacted lower mask ss) e)
      → OnResult (AreFieldsRedacted lower mask s ss) r
      → OnResult (AreFieldsRedacted lower mask s ss) (add_entry j e r)
  add_entry-AreFieldsRedacted j none r h g = tt
  add_entry-AreFieldsRedacted j (some e) none h g = tt
  add_entry-AreFieldsRedacted j (some removed) (some (fs, c)) h g = g
  add_entry-AreFieldsRedacted j (some (kept b y)) (some (fs, c)) h g = λ k x l m f w q. elim f [
    | inl (e, d) ↦
        h (subst (λ i. lower i ≡ s) {x = k} {y = j} e l)
          (subst (λ i. length (lower i) ≡ length i) {x = k} {y = j} e m) w
          (subst (λ z. Reaches lower ss z w) {x = x} {y = y} d q)
    | inr f ↦ g k x l m f w q
  ]

module _ (lower : Text → Text) (mask : Option Value) where
  to_kept-IsRedacted :
      (P : Value → Type 0) (o : Option (Value × Bool))
      → OnResult P o
      → OnEntry P (map_option to_kept o)
  to_kept-IsRedacted P none h = tt
  to_kept-IsRedacted P (some (x, b)) h = h

  entry_step-IsRedacted :
      (v : Value) (n : Node) (ss : List Text) (walk : Node → Option (Value × Bool))
      → Marks ss n
      → ((t : Tree) → n ≡ branch t → OnResult (IsRedacted lower mask ss) (walk (branch t)))
      → OnEntry (IsRedacted lower mask ss) (entry_step mask v (some n) walk)
  entry_step-IsRedacted v leaf (s ∷ ss) walk m h = absurd m
  entry_step-IsRedacted v leaf [] walk m h =
      elim mask as (λ mk. OnEntry (IsRedacted lower mk []) (entry_step mk v (some leaf) walk)) [
        | none ↦ tt
        | some a ↦ λ w q. ap some q
      ]
  entry_step-IsRedacted v (branch t) ss walk m h =
      to_kept-IsRedacted (IsRedacted lower mask ss) (walk (branch t)) (h t refl)

  -- Below a node that is no leaf, the rest of the path is not empty.
  below_branch :
      {A : Type 0} (P : List Text → A → Type 0) (n : Node) (ss : List Text)
      (walk : Node → Option (A × Bool))
      → Marks ss n
      → IsFolded lower n
      → n ≢ leaf
      → ((t : Tree) (r : Text) (rs : List Text)
          → IsFoldedTree lower t
          → Marks (r ∷ rs) (branch t)
          → OnResult (P (r ∷ rs)) (walk (branch t)))
      → OnResult (P ss) (walk n)
  below_branch P leaf ss walk m h e f = absurd (e refl)
  below_branch P (branch t) [] walk m h e f = absurd m
  below_branch P (branch t) (r ∷ rs) walk m h e f = f t r rs h m

  pub find_node-IsRedacted :
      (k : Text) (v : Value) (t : Tree) (s : Text) (ss : List Text)
      (walk : Node → Option (Value × Bool))
      → IsFoldedTree lower t
      → Marks (s ∷ ss) (branch t)
      → ((c : Tree) (r : Text) (rs : List Text)
          → IsFoldedTree lower c
          → Marks (r ∷ rs) (branch c)
          → OnResult (IsRedacted lower mask (r ∷ rs)) (walk (branch c)))
      → lower k ≡ s
      → length (lower k) ≡ length k
      → OnEntry (IsRedacted lower mask ss) (entry_step mask v (find_node lower k t) walk)
  find_node-IsRedacted k v t s ss walk h (n, e, m) f l z =
      subst (λ o. OnEntry (IsRedacted lower mask ss) (entry_step mask v o walk)) {x = some n}
        {y = find_node lower k t} (sym (find_node-folded lower k s t n h e l z))
        (entry_step-IsRedacted v n ss walk m (λ c d.
          below_branch (IsRedacted lower mask) (branch c) ss walk
            (subst (Marks ss) {x = n} {y = branch c} d m)
            (subst (IsFolded lower) {x = n} {y = branch c} d
              (IsFoldedTree-get_node lower s t n h e).1.1)
            (λ z. absurd cc) f))

  to_array-other :
      (s : Text) (ss : List Text) (r : Option (Items × Bool))
      → s ≢ units "[]"
      → OnResult (IsRedacted lower mask (s ∷ ss)) (map_option to_array r)
  to_array-other s ss none h = tt
  to_array-other s ss (some (xs, b)) h = λ w (x, ((e, i), q)). absurd (h e)

  pub elements-IsRedacted :
      (t : Tree) (s : Text) (ss : List Text) (walk : Option Node → Option (Items × Bool))
      → IsFoldedTree lower t
      → Marks (s ∷ ss) (branch t)
      → ((c : Tree) (r : Text) (rs : List Text)
          → IsFoldedTree lower c
          → Marks (r ∷ rs) (branch c)
          → OnResult (AreItemsRedacted lower mask (r ∷ rs)) (walk (some (branch c))))
      → OnResult
          (IsRedacted lower mask (s ∷ ss))
          (map_option to_array (walk (get_node (units "[]") t)))
  elements-IsRedacted t s ss walk h (n, e, m) f = elim (Bool-cases (same s (units "[]"))) [
    | inr b ↦
        to_array-other s ss (walk (get_node (units "[]") t))
          (λ d. ground (arith, same_iff s (units "[]")))
    | inl b ↦
        let d : s ≡ units "[]" = (same_iff s (units "[]")).0 b in
        let g = IsFoldedTree-get_node lower s t n h e in
        to_array-IsRedacted lower mask s ss (walk (get_node (units "[]") t)) (
          subst (λ o. OnResult (AreItemsRedacted lower mask ss) (walk o)) {x = some n}
            {y = get_node (units "[]") t} (sym e ∙ ap (λ k. get_node k t) d)
            (below_branch (AreItemsRedacted lower mask) n ss (λ n. walk (some n)) m g.1.1 (g.1.0 b)
              f))
  ]
