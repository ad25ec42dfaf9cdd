-- ===== src/HttpRouter/Routes.antt =====
-- packages/http-router/index.js: the route tables that the constructor builds.
use middy.Prelude.{
  ℕ, ◌-◌, ◌==◌, ◌||◌, ◌&&◌, not, Bool, false, List, [], ◌∷◌, ◌++◌, String, str_eq, Assoc, get, set,
  is_some, or_default, take, length, if◌then◌else◌,
}
use middy.Texts.{Text, slash, same, ends_in_slash, Table, lookup, insert}
use middy.HttpRouter.Regexp.{same_signature}
use middy.HttpRouter.Compile.{
  DynamicRoute, method_not_allowed, duplicate_route, Compiled, done, throws, compile_dynamic_route,
}

pub record Route (H : Type 0) : Type 0 where
  pub method : String
  pub path : Text
  pub handler : H

-- The tables, static ones by path and dynamic ones in registration order. A `Map` of dynamic
-- routes has their signatures as keys.
pub record Tables (H : Type 0) : Type 0 where
  pub static : Assoc (Table H)
  pub static_any : Table H
  pub dynamic : Assoc (List (DynamicRoute H))
  pub dynamic_any : List (DynamicRoute H)

abbrev pub all_methods : List String
all_methods = "GET" ∷ "POST" ∷ "PUT" ∷ "PATCH" ∷ "DELETE" ∷ "OPTIONS" ∷ "HEAD" ∷ "ANY" ∷ []

abbrev pub includes : String → List String → Bool
includes k [] = false
includes k (j ∷ js) = str_eq j k || includes k js

-- Removes a trailing slash, but not the only one.
unfoldable pub strip_slash : Text → Text
strip_slash path =
    if ends_in_slash false path && not (same path (slash ∷ []))
    then take (length path - 1) path
    else path

-- `path.includes("{")`
abbrev pub is_dynamic : Text → Bool
is_dynamic [] = false
is_dynamic (c ∷ cs) = c == b'{' || is_dynamic cs

module _ {H : Type 0} where
  abbrev pub no_tables : Tables H
  no_tables = record { static = []; static_any = []; dynamic = []; dynamic_any = [] }

  -- `attachStaticRoute`
  unfoldable pub attach_static_route : Text → H → Table H → Compiled (Table H)
  attach_static_route path h t =
      if is_some (lookup path t)
      then throws duplicate_route
      else done (insert (path ++ slash ∷ []) h (insert path h t))

  abbrev pub has_signature : DynamicRoute H → List (DynamicRoute H) → Bool
  has_signature r [] = false
  has_signature r (s ∷ ss) = same_signature s.pattern r.pattern || has_signature r ss

  -- `attachDynamicRoute`
  unfoldable pub attach_dynamic_route :
      DynamicRoute H → List (DynamicRoute H) → Compiled (List (DynamicRoute H))
  attach_dynamic_route r t =
      if has_signature r t then throws duplicate_route else done (t ++ r ∷ [])

  -- The table of a method, by `tableFor`.
  abbrev pub static_table : String → Tables H → Table H
  static_table m t = if str_eq m "ANY" then t.static_any else or_default (get m t.static) []

  abbrev pub dynamic_table : String → Tables H → List (DynamicRoute H)
  dynamic_table m t = if str_eq m "ANY" then t.dynamic_any else or_default (get m t.dynamic) []

  abbrev pub put_static : String → Compiled (Table H) → Tables H → Compiled (Tables H)
  put_static m (throws e) t = throws e
  put_static m (done new) t =
      if str_eq m "ANY"
      then done (record t { static_any = new })
      else done (record t { static = set m new t.static })

  abbrev pub put_dynamic :
      String → Compiled (List (DynamicRoute H)) → Tables H → Compiled (Tables H)
  put_dynamic m (throws e) t = throws e
  put_dynamic m (done new) t =
      if str_eq m "ANY"
      then done (record t { dynamic_any = new })
      else done (record t { dynamic = set m new t.dynamic })

  abbrev pub attach_compiled : String → Compiled (DynamicRoute H) → Tables H → Compiled (Tables H)
  attach_compiled m (throws e) t = throws e
  attach_compiled m (done r) t = put_dynamic m (attach_dynamic_route r (dynamic_table m t)) t

  -- A round of the constructor's loop, from the check of the method on.
  unfoldable pub attach_route :
      (Bool → ℕ → Bool) → String → Text → H → Tables H → Compiled (Tables H)
  unfolding attach_static_route attach_dynamic_route
  attach_route letter method path h t =
      if not (includes method all_methods)
      then throws method_not_allowed
      else if not (is_dynamic path)
      then put_static method (attach_static_route path h (static_table method t)) t
      else attach_compiled method (compile_dynamic_route letter path h) t

  unfoldable pub add_route : (Bool → ℕ → Bool) → Route H → Tables H → Compiled (Tables H)
  unfolding strip_slash attach_route
  add_route letter r t = attach_route letter r.method (strip_slash r.path) r.handler t

  unfoldable pub add_routes : (Bool → ℕ → Bool) → List (Route H) → Tables H → Compiled (Tables H)
  unfolding add_route
  add_routes letter [] t = done t
  add_routes letter (r ∷ rs) t = elim (add_route letter r t) [
    | throws e ↦ throws e
    | done t' ↦ add_routes letter rs t'
  ]
