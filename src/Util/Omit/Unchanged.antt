-- ===== src/Util/Omit/Unchanged.antt =====
-- packages/util/index.js: what `omit` says is its argument is its argument.
use middy.Prelude.{◌≡◌, refl, ap, Bool, true, false, Option, none, some, arith}
use middy.Texts.{Text, units}
use middy.Util.Omit.{
  Node, leaf, branch, Tree, get_node, Value, simple, not_a_number, array, record_object,
  instance_object, error, Items, nil, cons, Fields, end, field, Entry, kept, removed, to_kept,
  to_record, to_instance, to_error, to_array, find_node, entry_step, add_entry, add_item, omit,
  omit_array, omit_object, map_option,
}

-- The flag is right: a value that comes back as the argument by `!==` is the argument.
abbrev pub IsSameUnless : {A : Type 0} → A → Option (A × Bool) → Type 0
IsSameUnless a none = Unit
IsSameUnless a (some (x, b)) = b ≡ false → x ≡ a

abbrev pub IsSameEntry : Value → Option Entry → Type 0
IsSameEntry v none = Unit
IsSameEntry v (some removed) = Unit
IsSameEntry v (some (kept b x)) = b ≡ false → x ≡ v

to_kept-same :
    (v : Value) (o : Option (Value × Bool))
    → IsSameUnless v o
    → IsSameEntry v (map_option to_kept o)
to_kept-same v none h = tt
to_kept-same v (some (x, b)) h = h

entry_step-same :
    (mask : Option Value) (v : Value) (n : Option Node) (walk : Node → Option (Value × Bool))
    → ((m : Node) → IsSameUnless v (walk m))
    → IsSameEntry v (entry_step mask v n walk)
entry_step-same mask v none walk h = λ e. refl
entry_step-same none v (some leaf) walk h = tt
entry_step-same (some m) v (some leaf) walk h = λ e. absurd cc
entry_step-same mask v (some (branch c)) walk h = to_kept-same v (walk (branch c)) (h (branch c))

add_entry-same :
    (k : Text) (v : Value) (fs : Fields) (e : Option Entry) (r : Option (Fields × Bool))
    → IsSameEntry v e
    → IsSameUnless fs r
    → IsSameUnless (field k v fs) (add_entry k e r)
add_entry-same k v fs none r h g = tt
add_entry-same k v fs (some e) none h g = tt
add_entry-same k v fs (some (kept b x)) (some (gs, c)) h g = λ e. ground (arith, h, g)
add_entry-same k v fs (some removed) (some (gs, c)) h g = λ e. absurd cc

add_item-same :
    (x : Value) (xs : Items) (o : Option (Value × Bool)) (r : Option (Items × Bool))
    → IsSameUnless x o
    → IsSameUnless xs r
    → IsSameUnless (cons x xs) (add_item o r)
add_item-same x xs none r h g = tt
add_item-same x xs (some (y, b)) none h g = tt
add_item-same x xs (some (y, b)) (some (ys, c)) h g = λ e. ground (arith, h, g)

pub to_instance-same :
    (fs : Fields) (r : Option (Fields × Bool))
    → IsSameUnless (instance_object fs) (map_option (to_instance fs) r)
to_instance-same fs none = tt
to_instance-same fs (some (gs, true)) = λ e. absurd cc
to_instance-same fs (some (gs, false)) = λ e. refl

to_error-same :
    (v : Value) (fs : Fields) (r : Option (Fields × Bool))
    → IsSameUnless (error v fs) (map_option to_error r)
to_error-same v fs none = tt
to_error-same v fs (some (gs, b)) = λ e. absurd cc

to_record-same :
    (fs : Fields) (r : Option (Fields × Bool))
    → IsSameUnless fs r
    → IsSameUnless (record_object fs) (map_option to_record r)
to_record-same fs none h = tt
to_record-same fs (some (gs, b)) h = λ e. ap record_object (h e)

to_array-same :
    (xs : Items) (r : Option (Items × Bool))
    → IsSameUnless xs r
    → IsSameUnless (array xs) (map_option to_array r)
to_array-same xs none h = tt
to_array-same xs (some (ys, b)) h = λ e. ap array (h e)

module _ (lower : Text → Text) (mask : Option Value) where
  mutual
    unfolding omit

    pub omit-IsSame : (v : Value) (n : Option Node) → IsSameUnless v (omit lower mask v n)
    omit-IsSame (simple n) o = λ e. refl
    omit-IsSame not_a_number o = λ e. absurd cc
    omit-IsSame (array xs) none = λ e. refl
    omit-IsSame (array xs) (some leaf) = tt
    omit-IsSame (array xs) (some (branch t)) =
        to_array-same xs (omit_array lower mask xs (get_node (units "[]") t))
          (omit_array-IsSame xs (get_node (units "[]") t))
    omit-IsSame (record_object fs) none = λ e. refl
    omit-IsSame (record_object fs) (some leaf) = tt
    omit-IsSame (record_object fs) (some (branch t)) =
        to_record-same fs (omit_object lower mask fs t) (omit_object-IsSame fs t)
    omit-IsSame (instance_object fs) none = λ e. refl
    omit-IsSame (instance_object fs) (some leaf) = tt
    omit-IsSame (instance_object fs) (some (branch t)) =
        to_instance-same fs (omit_object lower mask fs t)
    omit-IsSame (error v fs) none = λ e. refl
    omit-IsSame (error v fs) (some leaf) = tt
    omit-IsSame (error v fs) (some (branch t)) = to_error-same v fs _

    omit_array-IsSame :
        (xs : Items) (child : Option Node) → IsSameUnless xs (omit_array lower mask xs child)
    omit_array-IsSame nil child = λ e. refl
    omit_array-IsSame (cons x xs) child =
        add_item-same x xs (omit lower mask x child) (omit_array lower mask xs child)
          (omit-IsSame x child) (omit_array-IsSame xs child)

    pub omit_object-IsSame :
        (fs : Fields) (t : Tree) → IsSameUnless fs (omit_object lower mask fs t)
    omit_object-IsSame end t = λ e. refl
    omit_object-IsSame (field k v fs) t =
        add_entry-same k v fs
          (entry_step mask v (find_node lower k t) (λ n. omit lower mask v (some n)))
          (omit_object lower mask fs t)
          (entry_step-same mask v (find_node lower k t) (λ n. omit lower mask v (some n))
            (λ n. omit-IsSame v (some n)))
          (omit_object-IsSame fs t)
