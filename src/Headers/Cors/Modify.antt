-- ===== src/Headers/Cors/Modify.antt =====
-- packages/http-cors/index.js: the headers that the middleware adds to a response.
use middy.Prelude.{
  Bool, false, ◌&&◌, ◌||◌, not, Option, none, some, is_some, or_default, List, [], ◌∷◌, ◌++◌,
  if◌then◌else◌, str_eq,
}
use middy.Texts.{Text, units, same, Table, lookup, insert}
use middy.Headers.Fields.{
  truthy, or_else, split_on, trim, HttpEvent, header_value, read_event_headers, read_either,
  read_http_method,
}
use middy.Headers.Cors.Origins.{star}
use middy.Headers.Cors.Options.{
  Credentials, flag, credentials_string, is_truthy, Options, Rules, Platform, call_get_origin,
}

abbrev pub Headers : Type 0
Headers = Table Text

-- A header that is there and not empty.
abbrev pub read_truthy : Text → Headers → Option Text
read_truthy k hs = truthy (lookup k hs)

-- `if (value) headers[key] = value`
abbrev pub put_header : Text → Option Text → Headers → Headers
put_header k none hs = hs
put_header k (some v) hs = insert k v hs

-- `httpMethod === "OPTIONS"`
abbrev pub is_options_request : HttpEvent → Bool
is_options_request e = str_eq (or_default (read_http_method e) "") "OPTIONS"

module _ (platform : Platform) where
  -- `present.get(key)`: the last header of that name in lower case.
  unfoldable pub find_key : Text → Headers → Option Text
  find_key k [] = none
  find_key k ((j, v) ∷ hs) =
      or_else (find_key k hs) (if same (platform.lower j) k then some j else none)

  abbrev pub lists_token : Text → List Text → Bool
  lists_token wanted [] = false
  lists_token wanted (t ∷ ts) =
      same (trim t) (star ∷ []) || same (platform.lower (trim t)) wanted || lists_token wanted ts

  -- `addHeaderPart` with a value that is not empty, under the key that it has chosen.
  abbrev pub extend_header : Text → Option Text → Text → Headers → Headers
  extend_header k none v hs = insert k v hs
  extend_header k (some current) v hs =
      if lists_token (platform.lower v) (split_on b',' current)
      then hs
      else insert k (current ++ b',' ∷ b' ' ∷ v) hs

  abbrev pub sanitized_header : Text → Headers → Text
  sanitized_header k hs =
      if is_some (read_truthy (platform.lower k) hs) then platform.lower k else k

  -- `addHeaderPart`
  unfoldable pub add_header_part : Text → Option Text → Headers → Headers
  unfolding split_on
  add_header_part k value hs = elim (truthy value) [
    | none ↦ hs
    | some v ↦ extend_header (sanitized_header k hs) (read_truthy (sanitized_header k hs) hs) v hs
  ]

  -- `if (value && !present.has(name)) headers[header] = value`
  abbrev pub put_absent : Headers → Text → Text → Option Text → Headers → Headers
  put_absent present name k value hs =
      if is_some (find_key name present) then hs else put_header k (truthy value) hs

  -- The credentials that apply, and the header for them; `before` is what the handler has set.
  abbrev pub effective_credentials : Headers → Credentials → Credentials
  effective_credentials before c =
      elim (find_key (units "access-control-allow-credentials") before) [
        | none ↦ c
        | some k ↦ flag (same (or_default (lookup k before) []) (units "true"))
      ]

  abbrev pub put_credentials : Headers → Credentials → Headers → Headers
  put_credentials before c hs =
      if is_some (find_key (units "access-control-allow-credentials") before)
      then hs
      else if is_truthy c
      then insert (units "Access-Control-Allow-Credentials") (credentials_string c) hs
      else hs

  -- `newOrigin`
  abbrev pub new_origin : Options → Rules → HttpEvent → Headers → Option Text
  new_origin o r e before =
      if is_some (find_key (units "access-control-allow-origin") before)
      then none
      else call_get_origin platform o r
          (header_value (read_either (units "Origin") (units "origin") (read_event_headers e)))
          (effective_credentials before o.credentials)

  -- Whether the response is one of those that vary by the origin.
  abbrev pub varies_by_origin : Rules → Credentials → Option Text → Bool
  varies_by_origin r c origin =
      let is_star = same (or_default origin []) (star ∷ []) in
      r.origin_varies || (r.origin_any && not is_star) || (is_star && is_truthy c)

  abbrev pub add_default_vary : Options → Headers → Headers
  add_default_vary o hs =
      if is_some (read_truthy (units "Vary") hs) || is_some (read_truthy (units "vary") hs)
      then hs
      else add_header_part (units "Vary") o.vary hs

  -- The headers up to the origin, and those after it.
  abbrev pub first_headers : Options → Headers → Headers
  first_headers o before =
      put_absent before (units "access-control-allow-methods")
        (units "Access-Control-Allow-Methods") o.methods
        (put_absent before (units "access-control-allow-headers")
          (units "Access-Control-Allow-Headers") o.headers
          (put_credentials before o.credentials before))

  abbrev pub vary_headers : Options → Rules → Headers → Option Text → Headers → Headers
  vary_headers o r before origin hs =
      let varied = add_default_vary o hs in
      if varies_by_origin r (effective_credentials before o.credentials) origin
      then add_header_part (units "Vary") (some (units "Origin")) varied
      else varied

  abbrev pub last_headers : Options → HttpEvent → Headers → Headers → Headers
  last_headers o e before hs =
      let cached =
        put_absent before (units "access-control-max-age") (units "Access-Control-Max-Age")
          o.max_age
          (put_absent before (units "access-control-expose-headers")
            (units "Access-Control-Expose-Headers") o.expose_headers hs) in
      if is_options_request e
      then put_absent before (units "cache-control") (units "Cache-Control") o.cache_control cached
      else cached

  -- `modifyHeaders`
  unfoldable pub modify_headers : Options → Rules → HttpEvent → Headers → Headers
  modify_headers o r e before =
      let origin = new_origin o r e before in
      last_headers o e before (
        vary_headers o r before origin (
          put_header (units "Access-Control-Allow-Origin") (truthy origin)
            (first_headers o before)))
