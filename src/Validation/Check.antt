-- ===== src/Validation/Check.antt =====
-- packages/util/index.js: `checkRule`, `checkSchemaObject` and `validateOptions`.
use middy.Prelude.{
  ℕ, suc, Bool, true, false, not, Option, none, some, or_default, List, [], ◌∷◌, Outcome, ok, err,
  if◌then◌else◌,
}
use middy.Texts.{Text, units, same}
use middy.Validation.Rules.{
  Value, undefined, object, Items, nil, cons, Fields, end, Host, Limits, Rule, predicate, named,
  constant, all_of, one_of, instance_of, enumerated, typed, flat, no_rule, RuleList, no_more, more,
  Schema, complete, option, ItemsRule, any_items, each_item, Properties, no_properties, properties,
  Additional, absent, fixed, every, Place, key, index, must_be, unknown_option, not_equal,
  not_listed, duplicate_item, CheckError, mismatch, malformed, thrown, Check, passed, failed, also,
}
use middy.Validation.Types.{
  base_type, property, is_plain_object, require, on_spec, check_type_spec, check_limits,
}
use middy.Validation.Steps.{
  fields_of, items_of, stable_stringify, was_seen, includes_value, Count, check_predicate,
  check_instance, count_one, check_count, check_required, check_known, check_each, check_others,
  when_there, has_rules, counted,
}

module _ {N E : Type 0} (host : Host N) where
  -- The loop of `uniqueItems`.
  unfoldable pub check_unique : Items N → List (Option Text) → ℕ → Place → Check E
  unfolding stable_stringify
  check_unique nil seen i p = passed
  check_unique (cons x xs) seen i p =
      also
        (require (not (was_seen host (stable_stringify host x) seen)) duplicate_item (index i ∷ p))
        (check_unique xs (stable_stringify host x ∷ seen) (suc i) p)

  -- The elements of an array, or the properties of an object, from the checks of either.
  abbrev pub check_parts :
      Text → Limits N → Bool → Value N → Place → Check E → Check E → Check E → Check E
  check_parts t l ruled v p elements others ps =
      if same t (units "array")
      then also elements (if l.unique_items then check_unique (items_of v) [] 0 p else passed)
      else if same t (units "object")
      then also (check_required (or_default l.required []) (fields_of v) p)
          (if ruled then also others ps else passed)
      else passed

  unfoldable mutual
    -- `checkRule`, or `checkNestedRule` where the flag is set.
    pub check_at : Bool → Rule N E → Value N → Place → Check E
    check_at nested (predicate f) v p = when_there v (check_predicate (f v) p)
    check_at nested (named t) v p = on_spec (check_type_spec host t v p) passed
    check_at nested (constant c) v p = when_there v (require (host.strict_equal v c) not_equal p)
    check_at nested (all_of rs) v p = when_there v (check_all rs v p)
    check_at nested (one_of rs) v p = when_there v (check_count (count_matches rs v p) p)
    check_at nested (instance_of n) v p = when_there v (check_instance n (host.is_instance n v) p)
    check_at nested (enumerated none vs) v p =
        when_there v (require (includes_value host v vs) not_listed p)
    check_at nested (enumerated (some t) vs) v p =
        on_spec (check_type_spec host t v p) (require (includes_value host v vs) not_listed p)
    check_at nested (typed t l is ps ad) v p = on_spec (check_type_spec host t v p) (
        also (check_limits host l v p) (
          check_parts (base_type t) l (has_rules ps ad) v p (check_items is (items_of v) p)
            (check_additional ad ps (fields_of v) p) (check_properties ps (fields_of v) p)))
    check_at false (flat s) v p = failed (malformed p)
    check_at true (flat s) v p =
        also (require (is_plain_object v) (must_be (units "object")) p)
          (also (check_known s (fields_of v) p) (check_options s (fields_of v) p))
    check_at nested no_rule v p = failed (malformed p)

    pub check_all : RuleList N E → Value N → Place → Check E
    check_all no_more v p = passed
    check_all (more r rs) v p = also (check_at false r v p) (check_all rs v p)

    pub count_matches : RuleList N E → Value N → Place → Count
    count_matches no_more v p = counted 0
    count_matches (more r rs) v p = count_one (check_at false r v p) (count_matches rs v p)

    pub check_items : ItemsRule N E → Items N → Place → Check E
    check_items any_items xs p = passed
    check_items (each_item r) xs p = check_each (check_at true r) xs 0 p

    pub check_additional : Additional N E → Properties N E → Fields N → Place → Check E
    check_additional absent ps fs p =
        check_others (λ v q. failed (mismatch unknown_option q)) ps fs p
    check_additional (fixed true) ps fs p = passed
    check_additional (fixed false) ps fs p =
        check_others (λ v q. failed (mismatch unknown_option q)) ps fs p
    check_additional (every r) ps fs p = check_others (check_at true r) ps fs p

    pub check_properties : Properties N E → Fields N → Place → Check E
    check_properties no_properties fs p = passed
    check_properties (properties s) fs p = check_present s fs p

    -- The properties that are there, against their rules.
    pub check_present : Schema N E → Fields N → Place → Check E
    check_present complete fs p = passed
    check_present (option k r s) fs p =
        also (when_there (property k fs) (check_at false r (property k fs) (key k ∷ p)))
          (check_present s fs p)

    -- All properties of a flat schema.
    pub check_options : Schema N E → Fields N → Place → Check E
    check_options complete fs p = passed
    check_options (option k r s) fs p =
        also (check_at false r (property k fs) (key k ∷ p)) (check_options s fs p)

  abbrev pub check_rule : Rule N E → Value N → Place → Check E
  check_rule r v p = check_at false r v p

-- The schema that `validateOptions` is given: one that `isJsonSchemaForm` accepts, which is of the type
-- `object` with one of `properties`, `required` and `additionalProperties`, or a flat one.
pub data OptionSchema (N E : Type 0) : Type 0 where
  json_form : Limits N → Properties N E → Additional N E → OptionSchema N E
  flat_form : Schema N E → OptionSchema N E

-- The TypeError with the package in its cause, for a mismatch or a malformed schema, or what a
-- predicate has thrown.
pub data OptionError (E : Type 0) : Type 0 where
  type_error : CheckError E → OptionError E
  rethrown : E → OptionError E

abbrev pub to_outcome : {N E : Type 0} → Check E → Value N → Outcome (OptionError E) (Value N)
to_outcome passed v = ok v
to_outcome (failed (thrown e)) v = err (rethrown e)
to_outcome (failed e) v = err (type_error e)

abbrev pub options_of : {N : Type 0} → Value N → Value N
options_of undefined = object end
options_of v = v

module _ {N E : Type 0} (host : Host N) where
  abbrev pub check_form : OptionSchema N E → Value N → Check E
  check_form (json_form l ps ad) v =
      also (require (is_plain_object v) (must_be (units "object")) [])
        (check_at host false (typed (units "object") l any_items ps ad) v [])
  check_form (flat_form s) v = check_at host true (flat s) v []

  -- `validateOptions`, with `{}` for options that are not given.
  unfoldable pub validate_options : OptionSchema N E → Value N → Outcome (OptionError E) (Value N)
  unfolding check_at
  validate_options s v = to_outcome (check_form s (options_of v)) (options_of v)
