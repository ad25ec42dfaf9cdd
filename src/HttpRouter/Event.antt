-- ===== src/HttpRouter/Event.antt =====
-- packages/http-router/index.js: method and path of an event, and `decodeURIComponent`.
use middy.Prelude.{
  ℕ, zero, suc, ◌+◌, ◌*◌, ◌-◌, ◌/◌, ◌%◌, ◌==◌, ◌||◌, ◌&&◌, not, leb, ltb, Bool, true, false, Option,
  none, some, List, [], ◌∷◌, ◌++◌, String, str_eq, or_default, if◌then◌else◌,
}
use middy.Texts.{Text, slash, units, split, join, Table}
use middy.HttpRouter.Compile.{in_range}

pub record Http : Type 0 where
  pub method : Option String
  pub path : Option Text

-- What the router reads of an event; `none` is `undefined`.
pub record Event : Type 0 where
  pub version : Option String
  pub http_method : Option String
  pub path : Option Text
  pub method : Option String
  pub vpc_raw_path : Option Text
  pub http : Option Http
  pub raw_path : Option Text
  pub path_parameters : Table (Option Text)

-- `decodeURIComponent` walks the text. Outside an escape, after `%`, or after `%` and a digit:
pub data Escape : Type 0 where
  outside percent : Escape
  high : ℕ → Escape

-- … and the bytes of a character that are still to come, its bits so far, and the least code
-- point that so many bytes may stand for.
pub record Decoding : Type 0 where
  pub escape : Escape
  pub needed : ℕ
  pub bits : ℕ
  pub least : ℕ

abbrev pub start_decoding : Decoding
start_decoding = record { escape = outside; needed = 0; bits = 0; least = 0 }

abbrev pub hex_digit : ℕ → Option ℕ
hex_digit c =
    if in_range b'0' b'9' c
    then some (c - b'0')
    else if in_range b'A' b'F' c
    then some (c - 55)
    else if in_range b'a' b'f' c
    then some (c - 87)
    else none

-- A code point as UTF-16.
abbrev pub utf16 : ℕ → Text
utf16 n =
    if ltb n 65536 then n ∷ [] else (55296 + (n - 65536) / 1024) ∷ (56320 + (n - 65536) % 1024) ∷ []

abbrev pub await_bytes : ℕ → ℕ → ℕ → Option (Decoding × Text)
await_bytes n bits least =
    some (record { escape = outside; needed = n; bits = bits; least = least }, [])

-- The first byte of a character.
abbrev pub first_byte : ℕ → Option (Decoding × Text)
first_byte b =
    if ltb b 128
    then some (start_decoding, b ∷ [])
    else if in_range 192 223 b
    then await_bytes 1 (b - 192) 128
    else if in_range 224 239 b
    then await_bytes 2 (b - 224) 2048
    else if in_range 240 247 b
    then await_bytes 3 (b - 240) 65536
    else none

abbrev pub is_code_point : ℕ → Bool
is_code_point n = leb n 1114111 && not (in_range 55296 57343 n)

abbrev pub next_byte : ℕ → Decoding → ℕ → Option (Decoding × Text)
next_byte zero d b =
    let n = d.bits * 64 + (b - 128) in
    if in_range 128 191 b && leb d.least n && is_code_point n
    then some (start_decoding, utf16 n)
    else none
next_byte (suc k) d b =
    if in_range 128 191 b then await_bytes (suc k) (d.bits * 64 + (b - 128)) d.least else none

abbrev pub take_byte : ℕ → Decoding → ℕ → Option (Decoding × Text)
take_byte zero d b = first_byte b
take_byte (suc k) d b = next_byte k d b

abbrev pub escape_step : Escape → Decoding → ℕ → Option (Decoding × Text)
escape_step outside d c =
    if c == b'%'
    then some (record d { escape = percent }, [])
    else if d.needed == 0
    then some (d, c ∷ [])
    else none
escape_step percent d c = elim (hex_digit c) [
  | none ↦ none
  | some h ↦ some (record d { escape = high h }, [])
]
escape_step (high h) d c = elim (hex_digit c) [
  | none ↦ none
  | some l ↦ take_byte d.needed d (h * 16 + l)
]

abbrev pub decoded : Decoding → Option Text
decoded d = if d.needed == 0 then (elim d.escape [ outside ↦ some [] | _ ↦ none ]) else none

abbrev pub prepend : Text → Option Text → Option Text
prepend out none = none
prepend out (some t) = some (out ++ t)

unfoldable pub decode_from : Decoding → Text → Option Text
decode_from d [] = decoded d
decode_from d (c ∷ cs) = elim (escape_step d.escape d c) [
  | none ↦ none
  | some (d', out) ↦ prepend out (decode_from d' cs)
]

-- `decodeURIComponent`; `none` is the throw of a URIError.
unfoldable pub decode_uri_component : Text → Option Text
unfolding decode_from
decode_uri_component = decode_from start_decoding

-- `.replace(regExpSegmentEscape, encodeURIComponent)`
abbrev pub escape_unit : ℕ → Text
escape_unit c = if c == b'%' then units "%25" else if c == slash then units "%2F" else c ∷ []

unfoldable pub escape_segment : Text → Text
escape_segment [] = []
escape_segment (c ∷ cs) = escape_unit c ++ escape_segment cs

-- Each segment decoded, then `%` and `/` escaped again.
unfoldable pub normalize_segments : List Text → Option (List Text)
unfolding escape_segment
normalize_segments [] = some []
normalize_segments (s ∷ ss) =
    let rest = normalize_segments ss in
    elim (decode_uri_component s) [
      | none ↦ none
      | some t ↦ elim rest [ none ↦ none | some ts ↦ some (escape_segment t ∷ ts) ]
    ]

-- `normalizeRawPath`; `none` is the HttpError with status 400.
unfoldable pub normalize_raw_path : Text → Option Text
unfolding normalize_segments join split
normalize_raw_path raw = elim (normalize_segments (split raw)) [
  | none ↦ none
  | some ts ↦ some (join ts)
]

-- `stripQueryString` of a path that is there.
unfoldable pub strip_query_string : Text → Text
strip_query_string [] = []
strip_query_string (c ∷ cs) = if c == b'?' then [] else c ∷ strip_query_string cs

-- Method, path and `encoded`, by the event's version.
abbrev pub Location : Type 0
Location = Option String × Option Text × Bool

abbrev pub stripped : Option Text → Option Text
stripped none = none
stripped (some p) = some (strip_query_string p)

abbrev pub has_percent : Text → Bool
has_percent [] = false
has_percent (c ∷ cs) = c == b'%' || has_percent cs

-- `getVersionRoute["2.0"]` of an API Gateway event; `none` is the HttpError.
unfoldable pub locate_http : Http → Option Text → Option Location
locate_http http none = some (http.method, http.path, false)
locate_http http (some raw) =
    if has_percent raw
    then (elim (normalize_raw_path raw) [
      | none ↦ none
      | some path ↦ some (http.method, some path, true)
    ])
    else some (http.method, some raw, false)

abbrev pub is_truthy : Option String → Bool
is_truthy none = false
is_truthy (some s) = not (str_eq s "")

-- `resolveHttpEventVersion`
unfoldable pub resolve_http_event_version : Event → String
resolve_http_event_version e = or_default e.version (if is_truthy e.method then "vpc" else "1.0")

-- `getVersionRoute[version]` on the event, with `{}` for a version that it does not have.
unfoldable pub locate : Event → Option Location
unfolding locate_http resolve_http_event_version strip_query_string
locate e =
    let v = resolve_http_event_version e in
    if str_eq v "1.0"
    then some (e.http_method, e.path, false)
    else if str_eq v "2.0"
    then (elim e.http [
      | some http ↦ locate_http http e.raw_path
      | none ↦ some (e.method, stripped e.path, false)
    ])
    else if str_eq v "vpc"
    then some (e.method, stripped e.vpc_raw_path, false)
    else some (none, none, false)
