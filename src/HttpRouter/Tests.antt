-- ===== src/HttpRouter/Tests.antt =====
-- packages/http-router: runs at concrete inputs.
use middy.Prelude.{ℕ, ◌≡◌, refl, String, Bool, false, none, some, List, [], ◌∷◌, map}
use middy.Texts.{slash, units, count_slashes, split}
use middy.HttpRouter.Regexp.{
  same_signature, match_tokens, capturing, match_end, match_pattern, Pattern, Groups, one, group,
}
use middy.HttpRouter.Routes.{Route, Tables, no_tables, add_routes}
use middy.HttpRouter.Compile.{Compiled, done, throws, compile_dynamic_route, DynamicRoute}
use middy.HttpRouter.Event.{Event, normalize_raw_path, locate, decode_uri_component}
use middy.HttpRouter.Dispatch.{Routed, invoke, fails, uri_error, dispatch, dispatch_to, find_route}
use middy.HttpRouter.Matching.{Matched, fill_tokens, AreSegments}
use middy.HttpRouter.Completeness.{match_pattern-Matched}
use middy.HttpRouter.Prefilter.{IsCounted, first_match, find_route-eq-first_match}
use middy.HttpRouter.Encoding.{normalize_raw_path-split}
use middy.HttpRouter.Dispatching.{static_route_round_trip}

abbrev ascii_only : Bool → ℕ → Bool
ascii_only first c = false

abbrev sample_routes : List (Route ℕ)
sample_routes =
    record { method = "GET"; path = units "/users"; handler = 1 }
    ∷ record { method = "ANY"; path = units "/users/{id}"; handler = 2 }
    ∷ record { method = "GET"; path = units "/users/{name}/posts"; handler = 3 }
    ∷ record { method = "POST"; path = units "/files/{proxy+}"; handler = 4 }
    ∷ record { method = "GET"; path = units "/by/{id}F"; handler = 5 }
    ∷ []

abbrev tables_of : Compiled (Tables ℕ) → Tables ℕ
tables_of (throws e) = no_tables
tables_of (done t) = t

abbrev sample_tables : Tables ℕ
sample_tables = tables_of (add_routes ascii_only sample_routes no_tables)

abbrev get_event : String → String → Event
get_event method path = record {
  version = some "2.0";
  http_method = none;
  path = none;
  method = none;
  vpc_raw_path = none;
  http = some (record { method = some method; path = none });
  raw_path = some (units path);
  path_parameters = [];
}

handler_of : Routed ℕ → ℕ
handler_of (invoke h e) = h
handler_of _ = 0

routes_users : handler_of (dispatch sample_tables (get_event "GET" "/users/")) ≡ 1
unfolding dispatch add_routes handler_of locate normalize_raw_path decode_uri_component
    compile_dynamic_route same_signature count_slashes match_tokens capturing
routes_users = refl

routes_any :
    dispatch sample_tables (get_event "GET" "/users/a%20b")
    ≡ invoke 2 (record (get_event "GET" "/users/a%20b") {
      path_parameters = (units "id", some (units "a b")) ∷ [];
    })
unfolding dispatch add_routes locate normalize_raw_path decode_uri_component compile_dynamic_route
    same_signature count_slashes match_tokens capturing
routes_any = refl

routes_proxy : handler_of (dispatch sample_tables (get_event "POST" "/files/a/b")) ≡ 4
unfolding dispatch add_routes handler_of locate normalize_raw_path decode_uri_component
    compile_dynamic_route same_signature count_slashes match_tokens capturing
routes_proxy = refl

-- An escaped slash is cut in two by the literal after the parameter, and `decodeURIComponent`
-- throws.
cut_escape_throws : dispatch sample_tables (get_event "GET" "/by/a%2F") ≡ fails uri_error
unfolding dispatch add_routes locate normalize_raw_path decode_uri_component compile_dynamic_route
    same_signature count_slashes match_tokens capturing
cut_escape_throws = refl

abbrev odd_tables : Tables ℕ
odd_tables = tables_of (
    add_routes ascii_only
      (record { method = "GET"; path = units "/a*/{id}"; handler = 1 }
        ∷ record { method = "GET"; path = units "/b/{id}//"; handler = 2 }
        ∷ [])
      no_tables)

-- A star in a dynamic route repeats the unit before it, and does not stand for itself.
star_repeats :
    (handler_of (dispatch odd_tables (get_event "GET" "/aa/1")) ≡ 1)
    × (handler_of (dispatch odd_tables (get_event "GET" "/a*/1")) ≡ 0)
unfolding dispatch add_routes handler_of locate normalize_raw_path decode_uri_component
    compile_dynamic_route same_signature count_slashes match_tokens capturing
star_repeats = (refl, refl)

-- A route that was registered with two slashes at its end counts one more than its match has.
two_slashes_are_skipped : handler_of (dispatch odd_tables (get_event "GET" "/b/1/")) ≡ 0
unfolding dispatch add_routes handler_of locate normalize_raw_path decode_uri_component
    compile_dynamic_route same_signature count_slashes match_tokens capturing
two_slashes_are_skipped = refl

-- Witnesses.
abbrev id_pattern : Pattern
id_pattern = record {
  tokens = one slash false ∷ one b'u' false ∷ one slash false ∷ group (units "id") false ∷ [];
  wildcard = false;
}

abbrev id_groups : Groups
id_groups = (units "id", some (units "42")) ∷ []

id_groups-Matched : Matched false id_pattern.tokens (units "/u/42/") id_groups
unfolding fill_tokens AreSegments match_end count_slashes
id_groups-Matched = record {
  end = slash ∷ [];
  end_groups = [];
  parts = refl;
  segments = ((refl, (λ e. cc), refl), refl);
  ending = refl;
}

match_pattern-Matched_example : Matched false id_pattern.tokens (units "/u/42/") id_groups
unfolding match_pattern match_tokens capturing match_end
match_pattern-Matched_example =
    match_pattern-Matched id_pattern (units "/u/42/") id_groups (refl, (refl, (refl, (refl, tt))))
      refl

abbrev id_route : DynamicRoute ℕ
id_route = record { pattern = id_pattern; handler = 7; segment_count = some 2 }

id_route-IsCounted : IsCounted id_route
unfolding count_slashes
id_route-IsCounted = ((refl, (refl, (refl, (refl, tt)))), (refl, refl))

find_route-eq-first_match_example :
    find_route (units "/u/42/") (id_route ∷ []) ≡ first_match (units "/u/42/") (id_route ∷ [])
find_route-eq-first_match_example =
    find_route-eq-first_match (units "/u/42/") (id_route ∷ []) (id_route-IsCounted, tt)

normalize_raw_path-split_example :
    map decode_uri_component (split (units "/a%2Fb/c d"))
    ≡ map decode_uri_component (split (units "/a%2fb/c%20d"))
unfolding normalize_raw_path decode_uri_component split
normalize_raw_path-split_example =
    normalize_raw_path-split (units "/a%2fb/c%20d") (units "/a%2Fb/c d") refl

abbrev users_route : Route ℕ
users_route = record { method = "GET"; path = units "/users"; handler = 1 }

abbrev other_routes : List (Route ℕ)
other_routes =
    record { method = "ANY"; path = units "/users"; handler = 2 }
    ∷ record { method = "GET"; path = units "/users/{id}"; handler = 3 }
    ∷ []

abbrev root_route : Route ℕ
root_route = record { method = "GET"; path = units "/"; handler = 4 }

static_route_round_trip_example :
    (dispatch_to
        (tables_of (add_routes ascii_only (root_route ∷ users_route ∷ other_routes) no_tables))
        (get_event "GET" "/users")
        false
        "GET"
        (units "/users")
      ≡ invoke 1 (get_event "GET" "/users"))
    × (dispatch_to
          (tables_of (add_routes ascii_only (root_route ∷ users_route ∷ other_routes) no_tables))
          (get_event "GET" "/users")
          false
          "GET"
          (units "/users/")
        ≡ invoke 1 (get_event "GET" "/users"))
unfolding add_routes compile_dynamic_route split count_slashes same_signature
static_route_round_trip_example =
    static_route_round_trip ascii_only (root_route ∷ []) other_routes users_route
      (tables_of (add_routes ascii_only (root_route ∷ users_route ∷ other_routes) no_tables))
      (get_event "GET" "/users") false (refl, (refl, (refl, (refl, tt)))) refl refl refl
