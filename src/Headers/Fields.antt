-- ===== src/Headers/Fields.antt =====
-- Header fields of events and responses: what the header middlewares share, with
-- `normalizeHttpResponse` of packages/util/index.js.
use middy.Prelude.{
  ℕ, ◌==◌, leb, Bool, true, false, ◌&&◌, ◌||◌, Option, none, some, or_default, is_some, List, [],
  ◌∷◌, ◌++◌, String, str_eq, if◌then◌else◌,
}
use middy.Texts.{Text, units, same, Table, lookup}
use middy.HttpRouter.Event.{Event, Http, resolve_http_event_version}

-- `text.split(",")`
abbrev pub put_unit : ℕ → List Text → List Text
put_unit c [] = (c ∷ []) ∷ []
put_unit c (s ∷ ss) = (c ∷ s) ∷ ss

unfoldable pub split_on : ℕ → Text → List Text
split_on d [] = [] ∷ []
split_on d (c ∷ cs) = let rest = split_on d cs in if c == d then [] ∷ rest else put_unit c rest

-- `values.join(", ")`
abbrev pub join_with : Text → List Text → Text
join_with d [] = []
join_with d (s ∷ []) = s
join_with d (s ∷ t ∷ ts) = s ++ d ++ join_with d (t ∷ ts)

-- The white space and line terminators that `trim` takes off.
abbrev pub is_space : ℕ → Bool
is_space c =
    (leb 9 c && leb c 13)
    || c == 32
    || c == 160
    || c == 5760
    || (leb 8192 c && leb c 8202)
    || c == 8232
    || c == 8233
    || c == 8239
    || c == 8287
    || c == 12288
    || c == 65279

abbrev pub trim_start : Text → Text
trim_start [] = []
trim_start (c ∷ cs) = if is_space c then trim_start cs else c ∷ cs

abbrev pub is_blank : Text → Bool
is_blank [] = true
is_blank (c ∷ cs) = is_space c && is_blank cs

abbrev pub trim_end : Text → Text
trim_end [] = []
trim_end (c ∷ cs) = if is_space c && is_blank cs then [] else c ∷ trim_end cs

abbrev pub trim : Text → Text
trim t = trim_end (trim_start t)

-- A text that is not empty, as a condition; `undefined` is none either.
abbrev pub truthy : Option Text → Option Text
truthy none = none
truthy (some []) = none
truthy (some (c ∷ cs)) = some (c ∷ cs)

abbrev pub includes : Text → List Text → Bool
includes x [] = false
includes x (y ∷ ys) = same x y || includes x ys

-- An event's header: VPC Lattice V2 and multi-value events carry an array.
pub data HeaderValue : Type 0 where
  single : Text → HeaderValue
  many : List Text → HeaderValue

-- What the hooks read of an event: what the http-router reads, the headers, and whether it carries
-- `requestContext.elb`.
pub record HttpEvent : Type 0 where
  pub target : Event
  pub headers : Option (Table HeaderValue)
  pub multi_value_headers : Option (Table HeaderValue)
  pub elb : Bool

abbrev pub first_text : List Text → Option Text
first_text [] = none
first_text (t ∷ ts) = some t

-- `headerValue`
abbrev pub header_value : Option HeaderValue → Option Text
header_value none = none
header_value (some (single t)) = some t
header_value (some (many ts)) = first_text ts

-- `headerListValue`
abbrev pub header_list_value : Option HeaderValue → Option Text
header_list_value none = none
header_list_value (some (single t)) = some t
header_list_value (some (many ts)) = some (join_with (units ", ") ts)

-- `a ?? b`
abbrev pub or_else : {A : Type 0} → Option A → Option A → Option A
or_else none b = b
or_else (some a) b = some a

-- `readEventHeaders`
abbrev pub read_event_headers : HttpEvent → Table HeaderValue
read_event_headers e = or_default (or_else e.headers e.multi_value_headers) []

-- A header in the official name, or in lower case.
abbrev pub read_either : Text → Text → Table HeaderValue → Option HeaderValue
read_either official lower_name hs = or_else (lookup official hs) (lookup lower_name hs)

-- `readHttpMethod`
abbrev pub context_method : Option Http → Option String
context_method none = none
context_method (some http) = http.method

abbrev pub string_or : Option String → Option String → Option String
string_or none b = b
string_or (some a) b = some a

unfoldable pub read_http_method : HttpEvent → Option String
unfolding resolve_http_event_version
read_http_method e =
    let v = resolve_http_event_version e.target in
    if str_eq v "1.0"
    then e.target.http_method
    else if str_eq v "2.0"
    then string_or (context_method e.target.http) e.target.method
    else if str_eq v "vpc"
    then e.target.method
    else none

-- `isAlbMultiValue`
abbrev pub is_alb_multi_value : HttpEvent → Bool
is_alb_multi_value e = e.elb && is_some e.multi_value_headers

-- A response with one of `statusCode`, `body` and `headers`; `none` is `undefined`.
pub record Shape (B : Type 0) : Type 0 where
  pub status_code : Option ℕ
  pub body : Option B
  pub headers : Option (Table Text)
  pub multi_value_headers : Option (Table (List Text))

-- What a handler returns: an object with such fields, or any other value.
pub data Returned (B : Type 0) : Type 0 where
  shaped : Shape B → Returned B
  plain : B → Returned B

abbrev pub no_shape : {B : Type 0} → Shape B
no_shape = record { status_code = none; body = none; headers = none; multi_value_headers = none }

module _ {B : Type 0} (whole : Shape B → B) where
  -- A value without the three fields becomes the body of a 200.
  abbrev pub wrap_returned : Option (Returned B) → Shape B
  wrap_returned none = no_shape
  wrap_returned (some (plain b)) = record no_shape { status_code = some 200; body = some b }
  wrap_returned (some (shaped s)) =
      if is_some s.status_code || is_some s.body || is_some s.headers
      then s
      else record no_shape { status_code = some 200; body = some (whole s) }

  abbrev pub fill_shape : Shape B → Shape B
  fill_shape s = record s {
    status_code = some (or_default s.status_code 500);
    headers = some (or_default s.headers []);
  }

  -- `normalizeHttpResponse`, where `whole` is an object as a body.
  unfoldable pub normalize_http_response : Option (Returned B) → Shape B
  normalize_http_response r = fill_shape (wrap_returned r)
