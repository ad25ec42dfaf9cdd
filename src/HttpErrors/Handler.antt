-- ===== src/HttpErrors/Handler.antt =====
-- packages/http-error-handler/index.js
use middy.Prelude.{
  ℕ, ◌==◌, ltb, Bool, false, ◌||◌, not, Option, none, some, or_default, [], ◌∷◌, if◌then◌else◌,
}
use middy.Texts.{Text, units, Table, insert}
use middy.Util.Omit.{Value, Tree, Node, branch, omit}
use middy.Headers.Fields.{
  truthy, HttpEvent, is_alb_multi_value, Shape, Returned, normalize_http_response,
}
use middy.Headers.Security.Hooks.{assign_all, in_arrays}

-- What the hook reads of an error that is an object.
pub record ErrorObject : Type 0 where
  pub status_code : Option ℕ
  pub expose : Option Bool
  pub message : Option Text
  pub headers : Option (Table Text)

-- `request.error`: an object, or `null` and the values of other types.
pub data Thrown : Type 0 where
  object : ErrorObject → Thrown
  other : Thrown

-- `request.error` after the hook: the error itself, or a FallbackError with it as its cause.
pub data Handled : Type 0 where
  exposed : ErrorObject → Handled
  fallback_error : Option Text → Thrown → Handled

-- `logger` is whether there is one; the paths to omit are compiled.
pub record HandlerOptions : Type 0 where
  pub logger : Bool
  pub fallback_message : Option Text
  pub omit_path_tree : Option Tree
  pub mask : Option Value

pub record Answer : Type 0 where
  pub logged : Option Value
  pub error : Handled
  pub response : Shape Text

-- A status code as a condition.
abbrev pub has_code : Option ℕ → Bool
has_code none = false
has_code (some c) = not (c == 0)

-- `error.expose = error.statusCode < 500`, where it is not set.
abbrev pub default_expose : Option ℕ → Option Bool → Option Bool
default_expose code (some b) = some b
default_expose none none = none
default_expose (some c) none = if c == 0 then none else some (ltb c 500)

abbrev pub set_expose : Thrown → Thrown
set_expose (object o) = object (record o { expose = default_expose o.status_code o.expose })
set_expose other = other

-- `if (!error.expose || !error.statusCode)`
unfoldable pub replace_error : Option Text → Thrown → Handled
replace_error message other = fallback_error message other
replace_error message (object o) =
    if not (or_default o.expose false) || not (has_code o.status_code)
    then fallback_error message (object o)
    else exposed o

abbrev pub code_of : Handled → Option ℕ
code_of (exposed o) = o.status_code
code_of (fallback_error message cause) = some 500

abbrev pub message_of : Handled → Option Text
message_of (exposed o) = o.message
message_of (fallback_error message cause) = message

abbrev pub headers_of : Handled → Table Text
headers_of (exposed o) = or_default o.headers []
headers_of (fallback_error message cause) = []

-- `isJsonStructured`
abbrev pub is_json_structured : Text → Bool
is_json_structured [] = false
is_json_structured (c ∷ cs) = c == 123 || c == 91

abbrev pub content_type : Text → Text
content_type t = if is_json_structured t then units "application/json" else units "text/plain"

abbrev pub set_message : Option Text → Shape Text → Shape Text
set_message none s = s
set_message (some t) s = record s {
  body = some t;
  headers = some (insert (units "Content-Type") (content_type t) (or_default s.headers []));
}

-- `moveToMultiValueHeaders`
abbrev pub move_to_multi_value_headers : Shape Text → Shape Text
move_to_multi_value_headers s = record s {
  headers = some [];
  multi_value_headers = some (in_arrays (or_default s.headers []));
}

abbrev pub with_headers : Table Text → Shape Text → Shape Text
with_headers hs s = record s { headers = some (assign_all (or_default s.headers []) hs) }

-- The response to an error, in the place of one that is `undefined`.
unfoldable pub error_response : HttpEvent → Handled → Shape Text
unfolding normalize_http_response
error_response e h =
    let s = normalize_http_response {B = Text} (λ _. []) none in
    let answered =
      with_headers (headers_of h)
        (set_message (truthy (message_of h)) (record s { status_code = code_of h })) in
    if is_alb_multi_value e then move_to_multi_value_headers answered else answered

abbrev pub root_of : Option Tree → Option Node
root_of none = none
root_of (some t) = some (branch t)

abbrev pub logged_of : Option (Value × Bool) → Option (Option Value)
logged_of none = none
logged_of (some (v, changed)) = some (some v)

module _ (lower : Text → Text) where
  -- What the logger is given; the outer `none` is an error of `omit`.
  abbrev pub log_request : HandlerOptions → Value → Option (Option Value)
  log_request o request =
      if o.logger
      then logged_of (omit lower o.mask request (root_of o.omit_path_tree))
      else some none

  -- `httpErrorHandlerMiddlewareOnError`, where `request` is the request as a value to log. The result
  -- is `none` if it throws, and `some none` if it leaves the request as it is.
  unfoldable pub error_handler :
      HandlerOptions → HttpEvent → Value → Thrown → Option (Returned Text) → Option (Option Answer)
  unfolding error_response replace_error
  error_handler o e request t (some r) = some none
  error_handler o e request t none = elim (log_request o request) [
    | none ↦ none
    | some l ↦
        let h = replace_error o.fallback_message (set_expose t) in
        some (some (record { logged = l; error = h; response = error_response e h }))
  ]
