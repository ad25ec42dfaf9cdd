-- ===== src/Validation/Rules.antt =====
-- packages/util/index.js: the values that are validated, the rules of a schema, and the errors.
use middy.Prelude.{ℕ, Bool, Option, List, Settlement}
use middy.Texts.{Text}

-- A JavaScript value; numbers are of the type `N`, and an object lists its own properties.
mutual
  pub data Value (N : Type 0) : Type 0 where
    undefined null : Value N
    number : N → Value N
    boolean : Bool → Value N
    string : Text → Value N
    function : ℕ → Value N
    array : Items N → Value N
    object : Fields N → Value N

  pub data Items (N : Type 0) : Type 0 where
    nil : Items N
    cons : Value N → Items N → Items N

  pub data Fields (N : Type 0) : Type 0 where
    end : Fields N
    field : Text → Value N → Fields N → Fields N

-- The language's operations on numbers and values, and two of its services: whether a pattern
-- matches a text (`none` where it does not compile), and whether a value is an instance of a global
-- class (`none` where there is none of that name). `json` is `JSON.stringify` of what is no object,
-- and `none` where that gives `undefined`.
pub record Host (N : Type 0) : Type 0 where
  pub is_nan : N → Bool
  pub is_integer : N → Bool
  pub less : N → N → Bool
  pub at_most : N → N → Bool
  pub to_number : Value N → N
  pub strict_equal : Value N → Value N → Bool
  pub same_value : Value N → Value N → Bool
  pub matches : Text → Text → Option Bool
  pub is_instance : Text → Value N → Option Bool
  pub json : Value N → Option Text

pub record Limits (N : Type 0) : Type 0 where
  pub minimum : Option N
  pub maximum : Option N
  pub exclusive_minimum : Option N
  pub pattern : Option Text
  pub min_length : Option ℕ
  pub max_length : Option ℕ
  pub unique_items : Bool
  pub required : Option (List Text)

-- A rule, by the key that `checkRule` finds first in it; `flat` is a plain object with none of the
-- keys, and `no_rule` anything else. A predicate may throw.
mutual
  pub data Rule (N E : Type 0) : Type 0 where
    predicate : (Value N → Settlement E Bool) → Rule N E
    named : Text → Rule N E
    constant : Value N → Rule N E
    all_of one_of : RuleList N E → Rule N E
    instance_of : Text → Rule N E
    enumerated : Option Text → Items N → Rule N E
    typed : Text → Limits N → ItemsRule N E → Properties N E → Additional N E → Rule N E
    flat : Schema N E → Rule N E
    no_rule : Rule N E

  pub data RuleList (N E : Type 0) : Type 0 where
    no_more : RuleList N E
    more : Rule N E → RuleList N E → RuleList N E

  pub data Schema (N E : Type 0) : Type 0 where
    complete : Schema N E
    option : Text → Rule N E → Schema N E → Schema N E

  pub data ItemsRule (N E : Type 0) : Type 0 where
    any_items : ItemsRule N E
    each_item : Rule N E → ItemsRule N E

  pub data Properties (N E : Type 0) : Type 0 where
    no_properties : Properties N E
    properties : Schema N E → Properties N E

  pub data Additional (N E : Type 0) : Type 0 where
    absent : Additional N E
    fixed : Bool → Additional N E
    every : Rule N E → Additional N E

-- Where a value stands in the options, the last step first.
pub data Segment : Type 0 where
  key : Text → Segment
  index : ℕ → Segment

abbrev pub Place : Type 0
Place = List Segment

pub data Reason : Type 0 where
  must_be : Text → Reason
  unknown_option missing_option invalid_option not_equal not_exactly_one not_listed : Reason
  not_instance : Text → Reason
  below_minimum above_maximum at_exclusive_minimum : Reason
  not_text no_match too_short too_long duplicate_item : Reason

-- What `fail` throws, what `schemaFail` throws, and what a predicate has thrown.
pub data CheckError (E : Type 0) : Type 0 where
  mismatch : Reason → Place → CheckError E
  malformed : Place → CheckError E
  thrown : E → CheckError E

pub data Check (E : Type 0) : Type 0 where
  passed : Check E
  failed : CheckError E → Check E

-- One check after another.
abbrev pub also : {E : Type 0} → Check E → Check E → Check E
also passed c = c
also (failed e) c = failed e
