-- ===== src/HttpRouter/Dispatch.antt =====
-- packages/http-router/index.js: the handler that the constructor returns.
use middy.Prelude.{
  ℕ, ◌-◌, ◌==◌, not, Bool, true, false, Option, none, some, List, [], ◌∷◌, String, get, or_default,
  if◌then◌else◌,
}
use middy.Texts.{Text, units, same, count_slashes, ends_in_slash, Table, lookup, insert}
use middy.HttpRouter.Regexp.{Groups, proxy, match_pattern}
use middy.HttpRouter.Compile.{DynamicRoute}
use middy.HttpRouter.Routes.{Tables}
use middy.HttpRouter.Event.{Event, Location, locate, is_truthy, decode_uri_component}

pub data RequestError : Type 0 where
  missing_method missing_path malformed_path uri_error : RequestError

-- The tail call that a request ends in, or what is thrown before it.
pub data Routed (H : Type 0) : Type 0 where
  invoke : H → Event → Routed H
  not_found : String → Text → Routed H
  fails : RequestError → Routed H

-- The slashes of the path, less a trailing one.
unfoldable pub request_segments : Text → ℕ
request_segments path =
    if ends_in_slash false path then count_slashes path - 1 else count_slashes path

-- The `continue` of the loop does not happen.
abbrev pub passes_filter : Option ℕ → ℕ → Bool
passes_filter none n = true
passes_filter (some k) n = k == n

-- A `proxy` group that took no part counts as empty.
abbrev pub fill_proxy : Groups → Groups
fill_proxy [] = []
fill_proxy ((n, none) ∷ gs) = (n, (if same n proxy then some [] else none)) ∷ fill_proxy gs
fill_proxy ((n, some v) ∷ gs) = (n, some v) ∷ fill_proxy gs

-- `decodeURIComponent` of a value; `undefined` is made a string first.
abbrev pub value_text : Option Text → Text
value_text none = units "undefined"
value_text (some v) = v

unfoldable pub decode_groups : Groups → Option Groups
decode_groups [] = some []
decode_groups ((n, v) ∷ gs) =
    let rest = decode_groups gs in
    elim (decode_uri_component (value_text v)) [
      | none ↦ none
      | some t ↦ elim rest [ none ↦ none | some ts ↦ some ((n, some t) ∷ ts) ]
    ]

unfoldable pub params_of : Bool → Groups → Option Groups
unfolding decode_groups
params_of encoded gs = if encoded then decode_groups (fill_proxy gs) else some (fill_proxy gs)

-- `{ ...params, ...event.pathParameters }`
unfoldable pub spread : Groups → Table (Option Text) → Groups
spread params [] = params
spread params ((n, v) ∷ rest) = spread (insert n v params) rest

module _ {H : Type 0} where
  -- The first route that the filter lets pass and that matches.
  unfoldable pub find_route : Text → List (DynamicRoute H) → Option (DynamicRoute H × Groups)
  unfolding request_segments match_pattern
  find_route path [] = none
  find_route path (r ∷ rs) =
      let rest = find_route path rs in
      if not (passes_filter r.segment_count (request_segments path))
      then rest
      else elim (match_pattern r.pattern path) [ none ↦ rest | some gs ↦ some (r, gs) ]

  -- The method's routes, then those of ANY.
  unfoldable pub find_dynamic : Tables H → String → Text → Option (DynamicRoute H × Groups)
  unfolding find_route
  find_dynamic t method path = elim (find_route path (or_default (get method t.dynamic) [])) [
    | some found ↦ some found
    | none ↦ find_route path t.dynamic_any
  ]

  unfoldable pub find_static : Tables H → String → Text → Option H
  find_static t method path = elim (lookup path (or_default (get method t.static) [])) [
    | some h ↦ some h
    | none ↦ lookup path t.static_any
  ]

  unfoldable pub call_dynamic : Bool → Event → DynamicRoute H × Groups → Routed H
  unfolding params_of spread
  call_dynamic encoded e (r, gs) = elim (params_of encoded gs) [
    | none ↦ fails uri_error
    | some ps ↦ invoke r.handler (record e { path_parameters = spread ps e.path_parameters })
  ]

  -- The request's method and path are known.
  unfoldable pub dispatch_to : Tables H → Event → Bool → String → Text → Routed H
  unfolding find_static find_dynamic call_dynamic
  dispatch_to t e encoded method path = elim (find_static t method path) [
    | some h ↦ invoke h e
    | none ↦ elim (find_dynamic t method path) [
      | some found ↦ call_dynamic encoded e found
      | none ↦ not_found method path
    ]
  ]

  abbrev pub check_path : Tables H → Event → Bool → String → Option Text → Routed H
  check_path t e encoded method none = fails missing_path
  check_path t e encoded method (some []) = fails missing_path
  check_path t e encoded method (some (c ∷ cs)) = dispatch_to t e encoded method (c ∷ cs)

  abbrev pub check_method : Tables H → Event → Location → Routed H
  check_method t e (none, path, encoded) = fails missing_method
  check_method t e (some method, path, encoded) =
      if is_truthy (some method) then check_path t e encoded method path else fails missing_method

  unfoldable pub dispatch : Tables H → Event → Routed H
  unfolding dispatch_to
  dispatch t e = elim (locate e) [ none ↦ fails malformed_path | some l ↦ check_method t e l ]
