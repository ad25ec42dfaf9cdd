-- ===== src/Util/Omit.antt =====
-- packages/util/index.js: `buildPathTree` and `omit`, which the loggers and the error handler use to
-- mask or remove configured paths from a copy of a value.
pub mod Unchanged
pub mod Reaching
pub mod Steps
pub mod Totality
pub mod Redaction
pub mod Insertion
pub mod Paths
mod Tests
use middy.Prelude.{
  ℕ, ◌==◌, ltb, Bool, true, false, ◌||◌, not, Option, none, some, or_default, List, [], ◌∷◌, ◌++◌,
  map, reverse, length, if◌then◌else◌,
}
use middy.Texts.{Text, units, same}
use middy.Util.Internal.{path_parts}

-- The nodes that `buildPathTree` makes: a leaf is `true`, any other node a Map.
mutual
  pub data Node : Type 0 where
    leaf : Node
    branch : Tree → Node

  pub data Tree : Type 0 where
    empty : Tree
    entry : Text → Node → Tree → Tree

-- `node.get(segment)` and `node.set(segment, child)`
abbrev pub get_node : Text → Tree → Option Node
get_node k empty = none
get_node k (entry j n t) = if same j k then some n else get_node k t

abbrev pub set_node : Text → Node → Tree → Tree
set_node k n empty = entry k n empty
set_node k n (entry j m t) = if same j k then entry k n t else entry j m (set_node k n t)

-- A path is a dotted text, or an array of one or more segments.
pub data OmitPath : Type 0 where
  dotted : Text → OmitPath
  segments : Text → List Text → OmitPath

abbrev pub path_segments : OmitPath → List Text
path_segments (dotted t) = path_parts t
path_segments (segments s ss) = s ∷ ss

-- `String(path)`, by which `sort` compares: an array's segments are joined by commas.
abbrev pub comma_join : Text → List Text → Text
comma_join s [] = s
comma_join s (t ∷ ts) = s ++ b',' ∷ comma_join t ts

abbrev pub path_string : OmitPath → Text
path_string (dotted t) = t
path_string (segments s ss) = comma_join s ss

-- The order of UTF-16 code units.
abbrev pub text_leb : Text → Text → Bool
text_leb [] _ = true
text_leb (x ∷ xs) [] = false
text_leb (x ∷ xs) (y ∷ ys) = let rest = text_leb xs ys in if x == y then rest else ltb x y

-- `[...paths].sort()`, which is stable.
abbrev pub insert_sorted : OmitPath → List OmitPath → List OmitPath
insert_sorted p [] = p ∷ []
insert_sorted p (q ∷ qs) =
    let rest = insert_sorted p qs in
    if text_leb (path_string p) (path_string q) then p ∷ q ∷ qs else q ∷ rest

abbrev pub sort_paths : List OmitPath → List OmitPath
sort_paths [] = []
sort_paths (p ∷ ps) = insert_sorted p (sort_paths ps)

abbrev pub includes_text : Text → List Text → Bool
includes_text k [] = false
includes_text k (j ∷ js) = same k j || includes_text k js

-- A path that names a member of a prototype is skipped.
abbrev pub is_unsafe : List Text → Bool
is_unsafe ss =
    includes_text (units "__proto__") ss
    || includes_text (units "constructor") ss
    || includes_text (units "prototype") ss

abbrev pub map_option : {A B : Type 0} → (A → B) → Option A → Option B
map_option f none = none
map_option f (some a) = some (f a)

-- The inner loop, on a first segment and the rest; `none` is the TypeError at a call of a method of
-- `true`.
abbrev pub insert_below : Text → Option Node → (Tree → Option Tree) → Tree → Option Tree
insert_below s none f t = map_option (λ c. set_node s (branch c) t) (f empty)
insert_below s (some leaf) f t = none
insert_below s (some (branch c)) f t = map_option (λ d. set_node s (branch d) t) (f c)

unfoldable pub insert_path : Text → List Text → Tree → Option Tree
insert_path s [] t = some (set_node s leaf t)
insert_path s (r ∷ rs) t = insert_below s (get_node s t) (insert_path r rs) t

unfoldable pub insert_segments : List Text → Tree → Option Tree
unfolding insert_path
insert_segments [] t = some t
insert_segments (s ∷ ss) t = if is_unsafe (s ∷ ss) then some t else insert_path s ss t

abbrev pub then_insert : (Tree → Option Tree) → Option Tree → Option Tree
then_insert f none = none
then_insert f (some t) = f t

unfoldable pub insert_paths : (Text → Text) → List OmitPath → Tree → Option Tree
insert_paths lower [] t = some t
insert_paths lower (p ∷ ps) t =
    then_insert (insert_paths lower ps) (insert_segments (map lower (path_segments p)) t)

-- `buildPathTree`, for a `toLowerCase` of segments
unfoldable pub build_path_tree : (Text → Text) → List OmitPath → Option Tree
unfolding insert_paths path_parts
build_path_tree lower paths = insert_paths lower (reverse (sort_paths paths)) empty

-- JavaScript values, by how `omit` takes them. A `simple` is a primitive but NaN, or a built-in of
-- `isOpaque`. An Error has its name, own or inherited, and its other own properties.
mutual
  pub data Value : Type 0 where
    simple : ℕ → Value
    not_a_number : Value
    array : Items → Value
    record_object instance_object : Fields → Value
    error : Value → Fields → Value

  pub data Items : Type 0 where
    nil : Items
    cons : Value → Items → Items

  pub data Fields : Type 0 where
    end : Fields
    field : Text → Value → Fields → Fields

-- `segmentLengths`, as the test that is made of it.
abbrev pub has_segment_length : ℕ → Tree → Bool
has_segment_length n empty = false
has_segment_length n (entry k m t) = length k == n || has_segment_length n t

-- `pathTree.get(key) ?? pathTree.get(key.toLowerCase())`, behind the test of the length.
abbrev pub find_node : (Text → Text) → Text → Tree → Option Node
find_node lower k t = elim (get_node k t) [
  | some n ↦ if has_segment_length (length k) t then some n else none
  | none ↦ if has_segment_length (length k) t then get_node (lower k) t else none
]

-- What becomes of a property: its value and whether it is another one, or nothing.
pub data Entry : Type 0 where
  kept : Bool → Value → Entry
  removed : Entry

abbrev pub to_kept : Value × Bool → Entry
to_kept (v, b) = kept b v

abbrev pub entry_step :
    Option Value → Value → Option Node → (Node → Option (Value × Bool)) → Option Entry
entry_step mask v none walk = some (kept false v)
entry_step none v (some leaf) walk = some removed
entry_step (some m) v (some leaf) walk = some (kept true m)
entry_step mask v (some (branch c)) walk = map_option to_kept (walk (branch c))

abbrev pub add_entry : Text → Option Entry → Option (Fields × Bool) → Option (Fields × Bool)
add_entry k none _ = none
add_entry k (some e) none = none
add_entry k (some (kept b v)) (some (fs, c)) = some (field k v fs, b || c)
add_entry k (some removed) (some (fs, c)) = some (fs, true)

abbrev pub add_item : Option (Value × Bool) → Option (Items × Bool) → Option (Items × Bool)
add_item none _ = none
add_item (some x) none = none
add_item (some (x, b)) (some (xs, c)) = some (cons x xs, b || c)

abbrev pub to_record : Fields × Bool → Value × Bool
to_record (fs, b) = (record_object fs, b)

-- An instance of which nothing was matched comes back itself.
abbrev pub to_instance : Fields → Fields × Bool → Value × Bool
to_instance old (fs, b) = if b then (record_object fs, true) else (instance_object old, false)

abbrev pub to_error : Fields × Bool → Value × Bool
to_error (fs, b) = (record_object fs, true)

abbrev pub to_array : Items × Bool → Value × Bool
to_array (xs, b) = (array xs, b)

-- `omit` gives the value and whether it is another than the argument by `!==`, which NaN always is;
-- `none` is the TypeError at a node that is `true` where a Map is wanted.
module _ (lower : Text → Text) (mask : Option Value) where
  unfoldable mutual
    pub omit : Value → Option Node → Option (Value × Bool)
    omit (simple n) _ = some (simple n, false)
    omit not_a_number _ = some (not_a_number, true)
    omit (array xs) none = some (array xs, false)
    omit (array xs) (some leaf) = none
    omit (array xs) (some (branch t)) =
        map_option to_array (omit_array xs (get_node (units "[]") t))
    omit (record_object fs) none = some (record_object fs, false)
    omit (record_object fs) (some leaf) = none
    omit (record_object fs) (some (branch t)) = map_option to_record (omit_object fs t)
    omit (instance_object fs) none = some (instance_object fs, false)
    omit (instance_object fs) (some leaf) = none
    omit (instance_object fs) (some (branch t)) = map_option (to_instance fs) (omit_object fs t)
    omit (error v fs) none = some (error v fs, false)
    omit (error v fs) (some leaf) = none
    omit (error v fs) (some (branch t)) = map_option to_error (
        add_entry (units "name")
          (entry_step mask v (find_node lower (units "name") t) (λ n. omit v (some n)))
          (omit_object fs t))

    pub omit_array : Items → Option Node → Option (Items × Bool)
    omit_array nil child = some (nil, false)
    omit_array (cons x xs) child = add_item (omit x child) (omit_array xs child)

    pub omit_object : Fields → Tree → Option (Fields × Bool)
    omit_object end t = some (end, false)
    omit_object (field k v fs) t =
        add_entry k (entry_step mask v (find_node lower k t) (λ n. omit v (some n)))
          (omit_object fs t)
