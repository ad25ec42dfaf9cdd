-- ===== src/Headers/Cors/Options.antt =====
-- packages/http-cors/index.js: the options, and what the set-up makes of them.
use middy.Prelude.{
  ◌==◌, Bool, true, false, ◌&&◌, ◌||◌, not, Option, none, some, is_some, List, [], ◌∷◌, ◌++◌, map,
  if◌then◌else◌, Outcome, ok, err,
}
use middy.Texts.{Text, units, same}
use middy.Headers.Fields.{includes, truthy}
use middy.Headers.Cors.Origins.{star, origin_to_punycode, matches_pattern}

pub data Credentials : Type 0 where
  unset : Credentials
  flag : Bool → Credentials
  word : Text → Credentials

-- `String(credentials)`, where it is not `undefined`.
abbrev pub credentials_string : Credentials → Text
credentials_string unset = units "undefined"
credentials_string (flag b) = if b then units "true" else units "false"
credentials_string (word t) = t

abbrev pub is_truthy : Credentials → Bool
is_truthy unset = false
is_truthy (flag b) = b
is_truthy (word t) = is_some (truthy (some t))

-- A `getOrigin` of the options, which is given the Origin header and, with the other options, the
-- credentials.
abbrev pub GetOrigin : Type 0
GetOrigin = Option Text → Credentials → Option Text

-- The options as the schema has them; `max_age` is `String(options.maxAge)` unless that is 0.
pub record Options : Type 0 where
  pub disable_before_preflight_response : Bool
  pub get_origin : Option GetOrigin
  pub credentials : Credentials
  pub headers : Option Text
  pub methods : Option Text
  pub origin : Option Text
  pub origins : List Text
  pub expose_headers : Option Text
  pub max_age : Option Text
  pub request_headers : Option (List Text)
  pub request_methods : Option (List Text)
  pub cache_control : Option Text
  pub vary : Option Text

-- What the loop over the origins collects.
pub record Rules : Type 0 where
  pub origin_any : Bool
  pub origin_varies : Bool
  pub origin_static : List Text
  pub origin_dynamic : List Text

pub data CorsError : Type 0 where
  wildcard_with_credentials : CorsError

-- The platform: `toLowerCase`, `toUpperCase`, and the `host` of `new URL`.
pub record Platform : Type 0 where
  pub lower : Text → Text
  pub upper : Text → Text
  pub host_of : Text → Option Text

module _ (platform : Platform) where
  -- An entry of `origins` that is not "*" makes the header vary.
  abbrev pub varies_by : List Text → Bool
  varies_by [] = false
  varies_by (o ∷ os) =
      (is_some (truthy (some o)) && not (same (origin_to_punycode platform.host_of o) (star ∷ [])))
      || varies_by os

-- `origin.includes("*")`
abbrev pub any_star : Text → Bool
any_star [] = false
any_star (c ∷ cs) = c == star || any_star cs

-- One round of the loop, for an origin in its form.
unfoldable pub add_origin : Text → Rules → Rules
add_origin o r =
    if same o (star ∷ [])
    then record r { origin_any = true }
    else if not (any_star o)
    then record r { origin_static = o ∷ r.origin_static }
    else record r { origin_varies = true; origin_dynamic = r.origin_dynamic ++ o ∷ [] }

abbrev pub option_list : Option Text → List Text
option_list none = []
option_list (some t) = t ∷ []

abbrev pub map_list : (Text → Text) → Option (List Text) → Option (List Text)
map_list f none = none
map_list f (some ts) = some (map f ts)

-- `originDynamic.some(…)`
abbrev pub any_match : List Text → Text → Bool
any_match [] t = false
any_match (p ∷ ps) t = matches_pattern p t || any_match ps t

module _ (platform : Platform) where
  abbrev pub origin_form : Text → Text
  origin_form o = origin_to_punycode platform.host_of o

  unfoldable pub add_origins : List Text → Rules → Rules
  unfolding add_origin
  add_origins [] r = r
  add_origins ([] ∷ os) r = add_origins os r
  add_origins ((c ∷ cs) ∷ os) r = add_origins os (add_origin (origin_form (c ∷ cs)) r)

  abbrev pub first_rules : Options → Rules
  first_rules o = record {
    origin_any = false;
    origin_varies = varies_by platform o.origins;
    origin_static = [];
    origin_dynamic = [];
  }

  unfoldable pub rules_of : Options → Rules
  unfolding add_origins
  rules_of o = add_origins (option_list o.origin ++ o.origins) (first_rules o)

  abbrev pub normalize_options : Options → Options
  normalize_options o = record o {
    request_headers = map_list platform.lower o.request_headers;
    request_methods = map_list platform.upper o.request_methods;
  }

  -- `httpCorsMiddleware`: the options and rules that the hooks close over, or what it throws.
  unfoldable pub http_cors : Options → Outcome CorsError (Options × Rules)
  unfolding rules_of
  http_cors o =
      if (rules_of o).origin_any && same (credentials_string o.credentials) (units "true")
      then err wildcard_with_credentials
      else ok (normalize_options o, rules_of o)

  -- An Origin header in its form; the tables are asked for the text of `undefined` as well.
  abbrev pub incoming_form : Option Text → Option Text
  incoming_form none = none
  incoming_form (some t) = some (origin_form t)

  abbrev pub key_text : Option Text → Text
  key_text none = units "undefined"
  key_text (some t) = t

  -- The `getOrigin` of the middleware; `null` and `undefined` are `none`.
  unfoldable pub get_origin : Options → Rules → Option Text → Option Text
  get_origin o r incoming = elim o.origins [
    | [] ↦ o.origin
    | _ ∷ _ ↦
        let i = incoming_form incoming in
        if includes (key_text i) r.origin_static
        then i
        else if r.origin_any
        then some (star ∷ [])
        else if any_match r.origin_dynamic (key_text i)
        then i
        else none
  ]

  abbrev pub call_get_origin : Options → Rules → Option Text → Credentials → Option Text
  call_get_origin o r incoming credentials = elim o.get_origin [
    | none ↦ get_origin o r incoming
    | some f ↦ f incoming credentials
  ]
