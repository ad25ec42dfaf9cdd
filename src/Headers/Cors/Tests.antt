-- ===== src/Headers/Cors/Tests.antt =====
-- packages/http-cors/index.js: runs at concrete inputs.
use middy.Prelude.{ℕ, ◌≡◌, ◌≢◌, refl, sym, subst, true, false, Option, none, some, [], ◌∷◌, ok, err}
use middy.Texts.{Text, units, ascii_lower, lookup}
use middy.HttpRouter.Event.{Event, resolve_http_event_version}
use middy.Headers.Fields.{
  single, many, HttpEvent, Shape, no_shape, split_on, read_http_method, normalize_http_response,
}
use middy.Headers.Cors.Origins.{
  star, drop_prefix, matches_pattern, origin_to_punycode, is_ascii_origin, split_origin,
  hostname_to_punycode, hide_stars, show_stars,
}
use middy.Headers.Cors.Options.{
  unset, flag, word, Options, Rules, Platform, wildcard_with_credentials, add_origin, add_origins,
  rules_of, normalize_options, http_cors, get_origin, origin_form,
}
use middy.Headers.Cors.Modify.{Headers, find_key, add_header_part, modify_headers}
use middy.Headers.Cors.Hooks.{add_preflight_vary, cors_before}
use middy.Headers.Cors.Allowed.{IsAllowed, get_origin-IsAllowed}
use middy.Headers.Cors.Pairing.{HasNeither}
use middy.Headers.Cors.Credentials.{wildcard_without_credentials}
use middy.Headers.Security.Placing.{sent}
use middy.Headers.Cors.Listing.{some_eq}
use middy.Headers.Cors.Preflight.{rejected_preflight_is_bare}

abbrev host_of : Text → Option Text
host_of t = elim (drop_prefix (units "https://") t) [ none ↦ none | some h ↦ some (ascii_lower h) ]

abbrev platform : Platform
platform = record { lower = ascii_lower; upper = λ t. t; host_of = host_of }

abbrev options : Options
options = record {
  disable_before_preflight_response = false;
  get_origin = none;
  credentials = flag true;
  headers = none;
  methods = some (units "GET,PUT");
  origin = none;
  origins = units "https://*.Example.com" ∷ units "https://a.org" ∷ [];
  expose_headers = none;
  max_age = some (units "60");
  request_headers = some (units "X-Id" ∷ []);
  request_methods = some (units "GET" ∷ units "PUT" ∷ []);
  cache_control = none;
  vary = none;
}

abbrev wildcard : Options
wildcard = record options { credentials = unset; origins = units "*" ∷ [] }

abbrev rules : Rules
rules = record {
  origin_any = false;
  origin_varies = true;
  origin_static = units "https://a.org" ∷ [];
  origin_dynamic = units "https://*.example.com" ∷ [];
}

abbrev any_rules : Rules
any_rules = record {
  origin_any = true;
  origin_varies = false;
  origin_static = [];
  origin_dynamic = [];
}

sets_up_wildcard : http_cors platform wildcard ≡ ok (normalize_options platform wildcard, any_rules)
unfolding http_cors rules_of add_origins add_origin origin_to_punycode is_ascii_origin split_origin
sets_up_wildcard = refl

refuses_wildcard :
    http_cors platform (record wildcard { credentials = word (units "true") })
    ≡ err wildcard_with_credentials
unfolding http_cors rules_of add_origins add_origin origin_to_punycode is_ascii_origin split_origin
refuses_wildcard = refl

abbrev target : Event
target = record {
  version = none;
  http_method = some "OPTIONS";
  path = none;
  method = none;
  vpc_raw_path = none;
  http = none;
  raw_path = none;
  path_parameters = [];
}

abbrev event : Text → HttpEvent
event method = record {
  target = target;
  headers = some (
      (units "origin", single (units "https://B.example.com"))
      ∷ (units "Access-Control-Request-Method", single method)
      ∷ (units "Access-Control-Request-Headers", many (units "Accept" ∷ units "X-ID" ∷ []))
      ∷ []);
  multi_value_headers = none;
  elb = false;
}

abbrev whole : Shape ℕ → ℕ
whole s = 0

abbrev accepted : Headers
accepted =
    (units "Access-Control-Allow-Credentials", units "true")
    ∷ (units "Access-Control-Allow-Methods", units "GET,PUT")
    ∷ (units "Access-Control-Allow-Origin", units "https://b.example.com")
    ∷ (units "Vary", units "Origin, Access-Control-Request-Method, Access-Control-Request-Headers")
    ∷ (units "Access-Control-Max-Age", units "60")
    ∷ []

accepts :
    cors_before platform whole (normalize_options platform options) rules (event (units "PUT")) none
    ≡ some (record no_shape { status_code = some 204; headers = some accepted })
unfolding cors_before modify_headers add_preflight_vary add_header_part find_key get_origin
    matches_pattern split_on normalize_http_response read_http_method resolve_http_event_version
    origin_to_punycode is_ascii_origin
accepts = refl

abbrev bare : Headers
bare =
    (units "Vary", units "Origin, Access-Control-Request-Method, Access-Control-Request-Headers")
    ∷ []

abbrev bare_response : Shape ℕ
bare_response = record no_shape { status_code = some 204; headers = some bare }

rejects :
    cors_before platform whole
      (normalize_options platform options)
      rules
      (event (units "DELETE"))
      none
    ≡ some bare_response
unfolding cors_before add_preflight_vary add_header_part split_on normalize_http_response
    read_http_method resolve_http_event_version
rejects = refl

rejected_preflight_is_bare_example :
    (bare_response.status_code ≡ some 204)
    × (sent bare_response (units "Access-Control-Allow-Origin") ≡ none)
rejected_preflight_is_bare_example =
    rejected_preflight_is_bare platform whole (normalize_options platform options) rules
      (event (units "DELETE")) bare_response (units "Access-Control-Allow-Origin") refl refl rejects
      refl

get_origin-IsAllowed_example :
    IsAllowed platform options (units "https://B.example.com") (units "https://b.example.com")
unfolding rules_of add_origins add_origin origin_to_punycode is_ascii_origin split_origin
    hostname_to_punycode hide_stars show_stars get_origin matches_pattern
get_origin-IsAllowed_example =
    get_origin-IsAllowed platform options (units "https://B.example.com")
      (units "https://b.example.com") (units "https://*.Example.com") (units "https://a.org" ∷ [])
      refl refl

unstarred :
    (x : Text) → some (units "https://B.example.com") ≡ some x → origin_form platform x ≢ star ∷ []
unfolding origin_to_punycode is_ascii_origin
unstarred x e h =
    let d : units "https://B.example.com" ≡ x = some_eq (units "https://B.example.com") x e in
    let g : units "https://b.example.com" ≡ star ∷ [] =
      subst (λ y. origin_form platform y ≡ star ∷ []) {x = x} {y = units "https://B.example.com"}
        (sym d) h in
    absurd cc

abbrev cached : Headers
cached = (units "Content-Type", units "text/plain") ∷ []

cached-HasNeither : HasNeither platform cached
unfolding find_key
cached-HasNeither = ((refl, refl), (refl, refl))

wildcard_without_credentials_example :
    lookup (units "Access-Control-Allow-Credentials") (
      modify_headers platform
        (normalize_options platform wildcard)
        any_rules
        (event (units "GET"))
        cached)
    ≢ some (units "true")
unfolding modify_headers add_header_part find_key get_origin read_http_method
wildcard_without_credentials_example =
    wildcard_without_credentials platform wildcard (normalize_options platform wildcard, any_rules)
      (event (units "GET")) cached refl cached-HasNeither sets_up_wildcard refl unstarred refl
