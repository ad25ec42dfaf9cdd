-- ===== src/Util/Omit/Redaction.antt =====
-- packages/util/index.js: what `omit` leaves at the paths of a tree.
use middy.Prelude.{◌≡◌, subst, Bool, Option, some, List, [], ◌∷◌}
use middy.Texts.{Text, units}
use middy.Util.Omit.{
  branch, Tree, Value, simple, not_a_number, array, record_object, instance_object, error, Items,
  nil, cons, Fields, end, field, find_node, entry_step, omit, omit_array, omit_object,
}
use middy.Util.Omit.Unchanged.{omit_object-IsSame}
use middy.Util.Omit.Reaching.{Marks, IsFoldedTree, Reaches}
-- Of a result: no value that it holds at the path but the mask.
use middy.Util.Omit.Steps.{
  IsRedacted, AreItemsRedacted, AreFieldsRedacted, OnResult, to_record-IsRedacted,
  to_error-IsRedacted, to_instance-IsRedacted, add_item-AreItemsRedacted,
  add_entry-AreFieldsRedacted, find_node-IsRedacted, elements-IsRedacted,
}

module _ (lower : Text → Text) (mask : Option Value) where
  mutual
    unfolding omit

    omit-IsRedacted :
        (v : Value) (t : Tree) (s : Text) (ss : List Text)
        → IsFoldedTree lower t
        → Marks (s ∷ ss) (branch t)
        → OnResult (IsRedacted lower mask (s ∷ ss)) (omit lower mask v (some (branch t)))
    omit-IsRedacted (simple n) t s ss h m = λ w (x, (c, q)). absurd c
    omit-IsRedacted not_a_number t s ss h m = λ w (x, (c, q)). absurd c
    omit-IsRedacted (array xs) t s ss h m =
        elements-IsRedacted lower mask t s ss (omit_array lower mask xs) h m
          (omit_array-AreItemsRedacted xs)
    omit-IsRedacted (record_object fs) t s ss h m =
        to_record-IsRedacted lower mask s ss (omit_object lower mask fs t)
          (omit_object-AreFieldsRedacted fs t s ss h m)
    omit-IsRedacted (instance_object fs) t s ss h m =
        to_instance-IsRedacted lower mask s ss fs (omit_object lower mask fs t)
          (omit_object-IsSame lower mask fs t) (omit_object-AreFieldsRedacted fs t s ss h m)
    omit-IsRedacted (error v fs) t s ss h m = to_error-IsRedacted lower mask s ss _ (
        add_entry-AreFieldsRedacted lower mask s ss (units "name") _ (omit_object lower mask fs t)
          (find_node-IsRedacted lower mask (units "name") v t s ss (λ n. omit lower mask v (some n))
            h m (omit-IsRedacted v))
          (omit_object-AreFieldsRedacted fs t s ss h m))

    omit_array-AreItemsRedacted :
        (xs : Items) (t : Tree) (s : Text) (ss : List Text)
        → IsFoldedTree lower t
        → Marks (s ∷ ss) (branch t)
        → OnResult
            (AreItemsRedacted lower mask (s ∷ ss))
            (omit_array lower mask xs (some (branch t)))
    omit_array-AreItemsRedacted nil t s ss h m = λ x i w q. absurd i
    omit_array-AreItemsRedacted (cons x xs) t s ss h m =
        add_item-AreItemsRedacted lower mask s (s ∷ ss) (omit lower mask x (some (branch t)))
          (omit_array lower mask xs (some (branch t))) (omit-IsRedacted x t s ss h m)
          (omit_array-AreItemsRedacted xs t s ss h m)

    omit_object-AreFieldsRedacted :
        (fs : Fields) (t : Tree) (s : Text) (ss : List Text)
        → IsFoldedTree lower t
        → Marks (s ∷ ss) (branch t)
        → OnResult (AreFieldsRedacted lower mask s ss) (omit_object lower mask fs t)
    omit_object-AreFieldsRedacted end t s ss h m = λ k x l e f w q. absurd f
    omit_object-AreFieldsRedacted (field k v fs) t s ss h m =
        add_entry-AreFieldsRedacted lower mask s ss k
          (entry_step mask v (find_node lower k t) (λ n. omit lower mask v (some n)))
          (omit_object lower mask fs t)
          (find_node-IsRedacted lower mask k v t s ss (λ n. omit lower mask v (some n)) h m
            (omit-IsRedacted v))
          (omit_object-AreFieldsRedacted fs t s ss h m)

-- No value that stands in the result of `omit` at a path that the tree marks is left: all that can
-- stand there is the mask, and without a mask nothing does. A name matches a segment up to case
-- when its lower case is as long as the name; the tree is in lower case and no path of it ends in
-- `[]`.
pub omit-IsRedacted_lem :
    (lower : Text → Text) (mask : Option Value) (v r : Value) (b : Bool) (t : Tree) (p : List Text)
    (w : Value)
    → IsFoldedTree lower t
    → Marks p (branch t)
    → omit lower mask v (some (branch t)) ≡ some (r, b)
    → Reaches lower p r w
    → mask ≡ some w
omit-IsRedacted_lem lower mask v r b t [] w h m e q = absurd m
omit-IsRedacted_lem lower mask v r b t (s ∷ ss) w h m e q =
    subst (OnResult (IsRedacted lower mask (s ∷ ss))) {x = omit lower mask v (some (branch t))}
      {y = some (r, b)} e (omit-IsRedacted lower mask v t s ss h m) w q
