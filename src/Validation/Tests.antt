-- ===== src/Validation/Tests.antt =====
-- packages/util/index.js: runs of `validateOptions` at concrete inputs.
use middy.Prelude.{
  ℕ, ◌==◌, ltb, leb, ◌≡◌, refl, ◌⊎◌, ◌↔◌, Bool, true, false, not, Option, none, some, [], ◌∷◌,
  rejected, ok, err, if◌then◌else◌,
}
use middy.Texts.{Text, units, same}
use middy.Validation.Rules.{
  Value, undefined, number, boolean, string, function, array, object, nil, cons, end, field, Host,
  Limits, predicate, named, one_of, typed, RuleList, no_more, more, Schema, complete, option,
  any_items, each_item, no_properties, properties, absent, fixed, key, index, unknown_option,
  below_minimum, duplicate_item, mismatch,
}
use middy.Validation.Types.{has_type, check_type_spec, check_limits}
use middy.Validation.Steps.{stable_stringify}
use middy.Validation.Check.{
  check_unique, check_at, json_form, flat_form, type_error, rethrown, options_of, validate_options,
}
use middy.Validation.Accepted.{IsPassed, IsValid, validate_options_iff}
use middy.Validation.OneOf.{OnePasses, one_of_iff}

abbrev equal : Value ℕ → Value ℕ → Bool
equal (number m) (number n) = m == n
equal (string s) (string t) = same s t
equal (boolean true) (boolean b) = b
equal (boolean false) (boolean b) = not b
equal _ _ = false

abbrev to_text : Value ℕ → Option Text
to_text (string t) = some t
to_text (number n) = some (n ∷ [])
to_text _ = none

-- Numbers are natural, patterns are matched by equality, and there is one class, of the functions.
abbrev host : Host ℕ
host = record {
  is_nan = λ n. false;
  is_integer = λ n. true;
  less = ltb;
  at_most = leb;
  to_number = λ v. elim v [ number n ↦ n | _ ↦ 0 ];
  strict_equal = equal;
  same_value = equal;
  matches = λ p t. some (same p t);
  is_instance = λ n v.
      if same n (units "Function") then some (elim v [ function f ↦ true | _ ↦ false ]) else none;
  json = to_text;
}

abbrev no_limits : Limits ℕ
no_limits = record {
  minimum = none;
  maximum = none;
  exclusive_minimum = none;
  pattern = none;
  min_length = none;
  max_length = none;
  unique_items = false;
  required = none;
}

abbrev either : RuleList ℕ ℕ
either =
    more (named (units "boolean"))
      (more (typed (units "string") no_limits any_items no_properties absent) no_more)

abbrev schema : Schema ℕ ℕ
schema = option (units "logger") (named (units "function?")) (
    option (units "size")
      (typed (units "integer") (record no_limits { minimum = some 3 }) any_items no_properties
        absent)
      (option (units "mask") (one_of either) complete))

abbrev given : Value ℕ
given = object (field (units "mask") (string (units "*")) (field (units "size") (number 4) end))

accepts : validate_options host (flat_form schema) given ≡ ok given
unfolding validate_options check_at check_type_spec has_type check_limits
accepts = refl

refuses_unknown :
    validate_options host (flat_form schema) (object (field (units "sise") (number 4) end))
    ≡ err (type_error (mismatch unknown_option (key (units "sise") ∷ [])))
unfolding validate_options check_at
refuses_unknown = refl

refuses_small :
    validate_options host (flat_form schema) (object (field (units "size") (number 2) end))
    ≡ err (type_error (mismatch below_minimum (key (units "size") ∷ [])))
unfolding validate_options check_at check_type_spec has_type check_limits
refuses_small = refl

rethrows :
    validate_options {E = ℕ} host
      (flat_form (option (units "a") (predicate (λ v. rejected 9)) complete))
      (object (field (units "a") (number 2) end))
    ≡ err (rethrown 9)
unfolding validate_options check_at
rethrows = refl

-- The JSON form: an array of distinct strings, and no other property.
refuses_duplicate :
    validate_options {E = ℕ} host
      (json_form no_limits
        (properties (
          option
            (units "a")
            (typed
              (units "array")
              (record no_limits { unique_items = true })
              (each_item (named (units "string")))
              no_properties
              absent)
            complete))
        (fixed false))
      (object
        (field (units "a") (array (cons (string (units "x")) (cons (string (units "x")) nil))) end))
    ≡ err (type_error (mismatch duplicate_item (index 1 ∷ key (units "a") ∷ [])))
unfolding validate_options check_at check_type_spec has_type check_limits check_unique
    stable_stringify
refuses_duplicate = refl

validate_options_iff_example :
    (validate_options host (flat_form schema) given ≡ ok given)
    ↔ ((options_of given ≡ given) × IsValid host schema (options_of given))
validate_options_iff_example = validate_options_iff host schema given given

abbrev one_text : Value ℕ
one_text = string (units "x")

one_of_iff_example :
    IsPassed (check_at host false (one_of either) one_text [])
    ↔ ((one_text ≡ undefined) ⊎ OnePasses host one_text [] either)
unfolding check_at check_type_spec has_type check_limits
one_of_iff_example = one_of_iff host one_text [] either (λ m. m, (λ m. m, tt))
