-- ===== src/Headers/Negotiation.antt =====
-- packages/http-content-negotiation/index.js
use middy.Prelude.{Bool, true, false, ◌&&◌, not, Option, none, some, List, [], ◌∷◌, if◌then◌else◌}
use middy.Texts.{Text, units, Table, insert}
use middy.Headers.Fields.{HeaderValue, HttpEvent, header_list_value, read_either}
use middy.HttpErrors.Codes.{HttpError, http_error}
pub mod Preferring
pub mod Negotiating
mod Tests

pub data Kind : Type 0 where
  charset : Kind
  encoding : Kind
  language : Kind
  media_type : Kind

-- The options of one kind.
pub record Preference : Type 0 where
  pub parses : Bool
  pub available : Option (List Text)
  pub default_to_first : Bool

pub record NegotiationOptions : Type 0 where
  pub preference : Kind → Preference
  pub fail_on_mismatch : Bool

-- The names of a header, and of the two results.
abbrev pub header_name : Kind → Text
header_name charset = units "Accept-Charset"
header_name encoding = units "Accept-Encoding"
header_name language = units "Accept-Language"
header_name media_type = units "Accept"

abbrev pub lower_name : Kind → Text
lower_name charset = units "accept-charset"
lower_name encoding = units "accept-encoding"
lower_name language = units "accept-language"
lower_name media_type = units "accept"

abbrev pub results_name : Kind → Text
results_name charset = units "preferredCharsets"
results_name encoding = units "preferredEncodings"
results_name language = units "preferredLanguages"
results_name media_type = units "preferredMediaTypes"

abbrev pub result_name : Kind → Text
result_name charset = units "preferredCharset"
result_name encoding = units "preferredEncoding"
result_name language = units "preferredLanguage"
result_name media_type = units "preferredMediaType"

-- A value in the namespace of the context: `results`, or `results[0]`.
pub data Preferred : Type 0 where
  all_of : List Text → Preferred
  first_of : Option Text → Preferred

abbrev pub Namespace : Type 0
Namespace = Table Preferred

abbrev pub first : List Text → Option Text
first [] = none
first (t ∷ ts) = some t

-- What is preferred where no result is: the first of the available values, or an error.
abbrev pub settle_mismatch :
    Kind → Bool → Bool → Option (List Text) → Namespace → Namespace × Option HttpError
settle_mismatch k first_is_default fails none c = (c, none)
settle_mismatch k first_is_default fails (some []) c = (c, none)
settle_mismatch k first_is_default fails (some (t ∷ ts)) c =
    if first_is_default
    then (insert (result_name k) (first_of (some t)) c, none)
    else if fails
    then (c, some (http_error 406 none))
    else (c, none)

abbrev pub settle :
    Kind → Preference → Bool → Option Text → Namespace → Namespace × Option HttpError
settle k p fails (some t) c = (c, none)
settle k p fails none c = settle_mismatch k p.default_to_first fails p.available c

-- `negotiator`'s parsers are `parse`.
module _ (parse : Kind → Option Text → Option (List Text) → List Text) where
  -- `parseHeader`
  unfoldable pub parse_header :
      Kind → Preference → Bool → Table HeaderValue → Namespace → Namespace × Option HttpError
  parse_header k p fails headers c =
      let raw = read_either (header_name k) (lower_name k) headers in
      let results = parse k (header_list_value raw) p.available in
      let filled =
        insert (result_name k) (first_of (first results))
          (insert (results_name k) (all_of results) c) in
      settle k p fails (first results) filled

  abbrev pub parse_next :
      NegotiationOptions
      → Table HeaderValue
      → Kind
      → Namespace × Option HttpError
      → Namespace × Option HttpError
  parse_next o headers k (c, some e) = (c, some e)
  parse_next o headers k (c, none) =
      if (o.preference k).parses
      then parse_header k (o.preference k) o.fail_on_mismatch headers c
      else (c, none)

  -- `httpContentNegotiationMiddlewareBefore`, from the namespace of the context.
  unfoldable pub negotiate :
      NegotiationOptions → HttpEvent → Namespace → Namespace × Option HttpError
  unfolding parse_header
  negotiate o e c = elim (e.headers) [
    | none ↦ (c, none)
    | some headers ↦ parse_next o headers media_type (
        parse_next o headers language
          (parse_next o headers encoding (parse_next o headers charset (c, none))))
  ]
