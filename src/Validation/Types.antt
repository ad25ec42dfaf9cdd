-- ===== src/Validation/Types.antt =====
-- packages/util/index.js: the types that a schema names, and the limits of a value.
use middy.Prelude.{
  ℕ, ◌==◌, ltb, Bool, true, false, ◌||◌, not, Option, none, some, is_some, [], ◌∷◌, length,
  if◌then◌else◌,
}
use middy.Texts.{Text, units, same}
use middy.Validation.Rules.{
  Value, undefined, number, boolean, string, function, array, object, Fields, end, field, Host,
  Limits, Place, Reason, must_be, missing_option, below_minimum, above_maximum,
  at_exclusive_minimum, not_text, no_match, too_short, too_long, CheckError, mismatch, malformed,
  Check, passed, failed, also,
}

-- A type's name with or without a `?` at its end.
abbrev pub is_optional : Text → Bool
is_optional [] = false
is_optional (c ∷ []) = c == b'?'
is_optional (c ∷ d ∷ ds) = is_optional (d ∷ ds)

abbrev pub drop_last : Text → Text
drop_last [] = []
drop_last (c ∷ []) = []
drop_last (c ∷ d ∷ ds) = c ∷ drop_last (d ∷ ds)

abbrev pub base_type : Text → Text
base_type t = if is_optional t then drop_last t else t

-- `value[key]` for an own property.
abbrev pub property : {N : Type 0} → Text → Fields N → Value N
property k end = undefined
property k (field j v fs) = if same j k then v else property k fs

abbrev pub is_undefined : {N : Type 0} → Value N → Bool
is_undefined undefined = true
is_undefined _ = false

abbrev pub is_string : {N : Type 0} → Value N → Bool
is_string (string t) = true
is_string _ = false

abbrev pub is_plain_object : {N : Type 0} → Value N → Bool
is_plain_object (object fs) = true
is_plain_object _ = false

abbrev pub require : {E : Type 0} → Bool → Reason → Place → Check E
require b r p = if b then passed else failed (mismatch r p)

module _ {N : Type 0} (host : Host N) where
  abbrev pub is_number : Value N → Bool
  is_number (number n) = not (host.is_nan n)
  is_number _ = false

  abbrev pub is_whole : Value N → Bool
  is_whole (number n) = host.is_integer n
  is_whole _ = false

  abbrev pub is_boolean : Value N → Bool
  is_boolean (boolean b) = true
  is_boolean _ = false

  abbrev pub is_function : Value N → Bool
  is_function (function f) = true
  is_function _ = false

  abbrev pub is_array : Value N → Bool
  is_array (array xs) = true
  is_array _ = false

  -- `validateOptionsTypeCheckers[type]` on a value.
  unfoldable pub has_type : Text → Value N → Option Bool
  has_type t v =
      if same t (units "string")
      then some (is_string v)
      else if same t (units "number")
      then some (is_number v)
      else if same t (units "integer")
      then some (is_whole v)
      else if same t (units "boolean")
      then some (is_boolean v)
      else if same t (units "function")
      then some (is_function v)
      else if same t (units "object")
      then some (is_plain_object v)
      else if same t (units "array")
      then some (is_array v)
      else none

-- What `checkTypeSpec` comes to: it throws, or says whether there is a value to go on with.
pub data Spec (E : Type 0) : Type 0 where
  refused : CheckError E → Spec E
  nothing_there there : Spec E

-- A bound that is not given is passed.
abbrev pub within : {B : Type 0} → Option B → (B → Bool) → Bool
within none f = true
within (some b) f = f b

abbrev pub text_length : {N : Type 0} → Value N → ℕ
text_length (string t) = length t
text_length _ = 0

abbrev pub text_of : {N : Type 0} → Value N → Text
text_of (string t) = t
text_of _ = []

abbrev pub match_of : {N : Type 0} → Host N → Option Text → Value N → Option (Option Bool)
match_of host none v = none
match_of host (some pattern) v = some (host.matches pattern (text_of v))

abbrev pub type_spec : {N E : Type 0} → Text → Bool → Value N → Option Bool → Place → Spec E
type_spec t optional v none p = refused (malformed p)
type_spec t optional v (some ok) p =
    if is_undefined v
    then (if optional then nothing_there else refused (mismatch missing_option p))
    else if ok
    then there
    else refused (mismatch (must_be t) p)

-- A check of what is there.
abbrev pub on_spec : {E : Type 0} → Spec E → Check E → Check E
on_spec (refused e) c = failed e
on_spec nothing_there c = passed
on_spec there c = c

abbrev pub check_pattern : {E : Type 0} → Option (Option Bool) → Place → Check E
check_pattern none p = passed
check_pattern (some none) p = failed (malformed p)
check_pattern (some (some b)) p = require b no_match p

module _ {N E : Type 0} (host : Host N) where
  -- `checkTypeSpec`
  unfoldable pub check_type_spec : Text → Value N → Place → Spec E
  unfolding has_type
  check_type_spec t v p =
      type_spec (base_type t) (is_optional t) v (has_type host (base_type t) v) p

  -- The numeric limits, then those of a string.
  unfoldable pub check_limits : Limits N → Value N → Place → Check E
  check_limits l v p =
      also (require (within l.minimum (λ m. not (host.less (host.to_number v) m))) below_minimum p)
        (also
          (require (within l.maximum (λ m. not (host.less m (host.to_number v)))) above_maximum p)
          (also
            (require (within l.exclusive_minimum (λ m. not (host.at_most (host.to_number v) m)))
              at_exclusive_minimum p)
            (also
              (require
                (not (is_some l.pattern || is_some l.min_length || is_some l.max_length)
                  || is_string v)
                not_text p)
              (also (check_pattern (match_of host l.pattern v) p) (
                also (require (within l.min_length (λ m. not (ltb (text_length v) m))) too_short p)
                  (require (within l.max_length (λ m. not (ltb m (text_length v)))) too_long p))))))
