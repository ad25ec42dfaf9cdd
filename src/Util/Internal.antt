-- ===== src/Util/Internal.antt =====
-- packages/util/index.js: `sanitizeKey` and `getInternal`.
pub mod Agreement
mod Tests
use middy.Prelude.{
  ℕ, ◌==◌, leb, Bool, true, false, ◌&&◌, ◌||◌, not, Option, none, some, is_some, or_default, List,
  [], ◌∷◌, ◌++◌, map, length, if◌then◌else◌, Outcome, ok, err, Settlement, fulfilled, rejected,
}
use middy.Texts.{Text, same, Table, lookup, insert}

abbrev pub is_digit : ℕ → Bool
is_digit c = leb b'0' c && leb c b'9'

abbrev pub is_alphanumeric : ℕ → Bool
is_alphanumeric c = is_digit c || (leb b'a' c && leb c b'z') || (leb b'A' c && leb c b'Z')

-- `.replace(sanitizeKeyRemoveDisallowedChar, "_")`; the flag says that a run is being replaced.
unfoldable pub replace_runs : Bool → Text → Text
replace_runs running [] = []
replace_runs running (c ∷ cs) =
    let rest = replace_runs (not (is_alphanumeric c)) cs in
    if is_alphanumeric c then c ∷ rest else if running then rest else b'_' ∷ rest

-- `.replace(sanitizeKeyPrefixLeadingNumber, "_$1")`
abbrev pub prefix_digit : Text → Text
prefix_digit [] = []
prefix_digit (c ∷ cs) = if is_digit c then b'_' ∷ c ∷ cs else c ∷ cs

unfoldable pub sanitized : Text → Text
unfolding replace_runs
sanitized k = replace_runs false (prefix_digit k)

abbrev pub sanitize_key_cache_max_size : ℕ
sanitize_key_cache_max_size = 1024

-- `sanitizeKey`, with its memo, which is flushed when it is full.
unfoldable pub sanitize_key : Text → Table Text → Text × Table Text
unfolding sanitized
sanitize_key k memo = elim (lookup k memo) [
  | some t ↦ (t, memo)
  | none ↦ (
    sanitized k,
    insert k (sanitized k) (if length memo == sanitize_key_cache_max_size then [] else memo),
  )
]

-- `key.split(".")`
abbrev pub add_to_part : ℕ → List Text → List Text
add_to_part c [] = (c ∷ []) ∷ []
add_to_part c (p ∷ ps) = (c ∷ p) ∷ ps

unfoldable pub path_parts : Text → List Text
path_parts [] = [] ∷ []
path_parts (c ∷ cs) =
    let rest = path_parts cs in if c == b'.' then [] ∷ rest else add_to_part c rest

-- JavaScript values as `getInternal` reads them: `thenable` gives what a value with a `then`
-- settles with, and is `none` for any other.
pub record Values (E A : Type 0) : Type 0 where
  pub undefined : A
  pub is_nullish : A → Bool
  pub own_field : A → Text → Option A
  pub thenable : A → Option (Settlement E A)

-- The `variables` argument.
pub data Variables : Type 0 where
  nothing all : Variables
  one : Text → Variables
  several : List Text → Variables
  renamed : List (Text × Text) → Variables

-- The TypeError at two keys with one name, or the AggregateError of what was rejected.
pub data InternalError (E : Type 0) : Type 0 where
  duplicate : Text → InternalError E
  unresolved : List E → InternalError E

-- The names and the paths or keys that are read for them.
abbrev pub pair : Text → Text × Text
pair k = (k, k)

abbrev pub keys_of : {A : Type 0} → Table A → List Text
keys_of [] = []
keys_of ((k, v) ∷ m) = k ∷ keys_of m

module _ {E A : Type 0} (values : Values E A) where
  -- `safeGet`
  unfoldable pub safe_get : A → Text → A
  safe_get a k =
      if values.is_nullish a
      then values.undefined
      else or_default (values.own_field a k) values.undefined

  abbrev pub walk : A → List Text → A
  walk a [] = a
  walk a (p ∷ ps) = walk (safe_get a p) ps

  -- The root's key and the rest of the path; a key is no path when all keys are read.
  abbrev pub parts_of : Bool → Text → List Text
  parts_of paths k = if paths then path_parts k else k ∷ []

  abbrev pub read_root : Table A → List Text → A
  read_root internal [] = values.undefined
  read_root internal (p ∷ ps) = or_default (lookup p internal) values.undefined

  abbrev pub path_rest : List Text → List Text
  path_rest [] = []
  path_rest (p ∷ ps) = ps

  abbrev pub is_pending : A → Bool
  is_pending a = is_some (values.thenable a)

  -- The value of a path, or `none` if the fast loop stops at it.
  unfoldable pub read_sync : Table A → List Text → Option A
  unfolding safe_get
  read_sync internal ps =
      let root = read_root internal ps in
      let value = walk root (path_rest ps) in
      if is_pending root then none else if is_pending value then none else some value

  -- The fast loop; `none` hands over to the fallback.
  unfoldable pub get_sync :
      Bool → Table A → List (Text × Text) → Table A → Option (Outcome (InternalError E) (Table A))
  unfolding sanitized
  get_sync paths internal [] obj = some (ok obj)
  get_sync paths internal ((k, v) ∷ kvs) obj = elim (read_sync internal (parts_of paths v)) [
    | none ↦ none
    | some value ↦
        let rest = get_sync paths internal kvs (insert (sanitized k) value obj) in
        if is_some (lookup (sanitized k) obj) then some (err (duplicate (sanitized k))) else rest
  ]

  -- What a value settles with, by `Promise.resolve` and `then`.
  abbrev pub settlement : A → Settlement E A
  settlement a = or_default (values.thenable a) (fulfilled a)

  unfoldable pub read_async : Table A → List Text → Settlement E A
  unfolding safe_get
  read_async internal ps = elim (settlement (read_root internal ps)) [
    | rejected e ↦ rejected e
    | fulfilled root ↦ settlement (walk root (path_rest ps))
  ]

  -- The loop over the settled values, with the errors so far.
  unfoldable pub get_async :
      Bool → Table A → List (Text × Text) → Table A → List E → Outcome (InternalError E) (Table A)
  unfolding sanitized
  get_async paths internal [] obj [] = ok obj
  get_async paths internal [] obj (e ∷ es) = err (unresolved (e ∷ es))
  get_async paths internal ((k, v) ∷ kvs) obj es = elim (read_async internal (parts_of paths v)) [
    | rejected e ↦ get_async paths internal kvs obj (es ++ e ∷ [])
    | fulfilled value ↦
        let rest = get_async paths internal kvs (insert (sanitized k) value obj) es in
        if is_some (lookup (sanitized k) obj) then err (duplicate (sanitized k)) else rest
  ]

  unfoldable pub get_pairs :
      Bool → Table A → List (Text × Text) → Outcome (InternalError E) (Table A)
  unfolding get_sync get_async
  get_pairs paths internal kvs =
      or_default (get_sync paths internal kvs []) (get_async paths internal kvs [] [])

  -- `getInternal`
  unfoldable pub get_internal : Variables → Table A → Outcome (InternalError E) (Table A)
  unfolding get_pairs
  get_internal nothing internal = ok []
  get_internal all internal = get_pairs false internal (map pair (keys_of internal))
  get_internal (one k) internal = get_pairs true internal (pair k ∷ [])
  get_internal (several ks) internal = get_pairs true internal (map pair ks)
  get_internal (renamed kvs) internal = get_pairs true internal kvs
