-- ===== src/Validation/Steps.antt =====
-- packages/util/index.js: the loops and tests that the rules are made of.
use middy.Prelude.{
  ℕ, suc, ◌==◌, Bool, true, false, ◌||◌, not, Option, none, some, or_default, List, [], ◌∷◌, ◌++◌,
  map, Settlement, fulfilled, rejected, if◌then◌else◌,
}
use middy.Texts.{Text, units, same}
use middy.Util.Omit.{text_leb}
use middy.Validation.Rules.{
  Value, string, function, array, object, Items, nil, cons, Fields, end, field, Host, Schema,
  complete, option, Properties, no_properties, properties, Additional, absent, Place, key, index,
  unknown_option, missing_option, invalid_option, not_exactly_one, not_instance, malformed, thrown,
  Check, passed, failed, also,
}
use middy.Validation.Types.{property, is_undefined, require}

-- `Object.hasOwn(schema, key)`
abbrev pub has_option : {N E : Type 0} → Text → Schema N E → Bool
has_option k complete = false
has_option k (option j r s) = same j k || has_option k s

abbrev pub fields_of : {N : Type 0} → Value N → Fields N
fields_of (object fs) = fs
fields_of _ = end

abbrev pub items_of : {N : Type 0} → Value N → Items N
items_of (array xs) = xs
items_of _ = nil

-- `stableStringify` of a value without cycles; `none` is `undefined`. The entries of an object are
-- sorted by key, and a function is left out.
abbrev pub insert_entry : Text × Text → List (Text × Text) → List (Text × Text)
insert_entry e [] = e ∷ []
insert_entry e (d ∷ ds) =
    let rest = insert_entry e ds in if text_leb e.0 d.0 then e ∷ d ∷ ds else d ∷ rest

abbrev pub joined : List Text → Text
joined [] = []
joined (t ∷ []) = t
joined (t ∷ u ∷ us) = t ++ b',' ∷ joined (u ∷ us)

abbrev pub is_function_value : {N : Type 0} → Value N → Bool
is_function_value (function f) = true
is_function_value _ = false

module _ {N : Type 0} (host : Host N) where
  abbrev pub entry_text : Text × Text → Text
  entry_text (k, t) = or_default (host.json (string k)) (units "undefined") ++ b':' ∷ t

  unfoldable mutual
    pub stable_stringify : Value N → Option Text
    stable_stringify (array xs) = some (b'[' ∷ joined (stringify_items xs) ++ units "]")
    stable_stringify (object fs) =
        some (b'{' ∷ joined (map entry_text (stringify_fields fs)) ++ units "}")
    stable_stringify v = host.json v

    pub stringify_items : Items N → List Text
    stringify_items nil = []
    stringify_items (cons x xs) = or_default (stable_stringify x) [] ∷ stringify_items xs

    pub stringify_fields : Fields N → List (Text × Text)
    stringify_fields end = []
    stringify_fields (field k v fs) =
        let rest = stringify_fields fs in
        if is_function_value v
        then rest
        else insert_entry (k, or_default (stable_stringify v) (units "undefined")) rest

  -- Whether a key was seen; `undefined` is a key as well.
  abbrev pub same_key : Option Text → Option Text → Bool
  same_key none none = true
  same_key (some s) (some t) = same s t
  same_key _ _ = false

  abbrev pub was_seen : Option Text → List (Option Text) → Bool
  was_seen k [] = false
  was_seen k (j ∷ js) = same_key k j || was_seen k js

  abbrev pub includes_value : Value N → Items N → Bool
  includes_value v nil = false
  includes_value v (cons x xs) = host.same_value x v || includes_value v xs

-- How many of the schemas of `oneOf` match, or the malformed schema that was met.
pub data Count : Type 0 where
  counted : ℕ → Count
  broken : Place → Count

module _ {E : Type 0} where
  abbrev pub check_predicate : Settlement E Bool → Place → Check E
  check_predicate (fulfilled b) p = require b invalid_option p
  check_predicate (rejected e) p = failed (thrown e)

  abbrev pub check_instance : Text → Option Bool → Place → Check E
  check_instance n none p = failed (malformed p)
  check_instance n (some b) p = require b (not_instance n) p

  abbrev pub count_one : Check E → Count → Count
  count_one (failed (malformed p)) c = broken p
  count_one (failed e) c = c
  count_one passed (counted n) = counted (suc n)
  count_one passed (broken p) = broken p

  abbrev pub check_count : Count → Place → Check E
  check_count (broken q) p = failed (malformed q)
  check_count (counted n) p = require (n == 1) not_exactly_one p

module _ {N E : Type 0} where
  abbrev pub check_required : List Text → Fields N → Place → Check E
  check_required [] fs p = passed
  check_required (k ∷ ks) fs p =
      also (require (not (is_undefined (property k fs))) missing_option (key k ∷ p))
        (check_required ks fs p)

  abbrev pub check_known : Schema N E → Fields N → Place → Check E
  check_known s end p = passed
  check_known s (field k v fs) p =
      also (require (has_option k s) unknown_option (key k ∷ p)) (check_known s fs p)

  -- A check of each element, or of each property that `properties` does not have.
  abbrev pub check_each : (Value N → Place → Check E) → Items N → ℕ → Place → Check E
  check_each f nil i p = passed
  check_each f (cons x xs) i p = also (f x (index i ∷ p)) (check_each f xs (suc i) p)

  abbrev pub has_property : Text → Properties N E → Bool
  has_property k no_properties = false
  has_property k (properties s) = has_option k s

  abbrev pub check_others :
      (Value N → Place → Check E) → Properties N E → Fields N → Place → Check E
  check_others f ps end p = passed
  check_others f ps (field k v fs) p =
      let rest = check_others f ps fs p in
      if has_property k ps then rest else also (f v (key k ∷ p)) rest

  abbrev pub when_there : Value N → Check E → Check E
  when_there v c = if is_undefined v then passed else c

  abbrev pub has_rules : Properties N E → Additional N E → Bool
  has_rules no_properties absent = false
  has_rules _ _ = true
