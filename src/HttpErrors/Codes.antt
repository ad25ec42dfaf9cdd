-- ===== src/HttpErrors/Codes.antt =====
-- packages/util/index.js: the reason phrases, and HttpError.
use middy.Prelude.{
  ℕ, ◌==◌, leb, ltb, Bool, ◌&&◌, ◌||◌, Option, none, some, or_default, List, [], ◌∷◌, ◌++◌,
  if◌then◌else◌,
}
use middy.Texts.{Text, units, same, lower_unit}

abbrev pub status_codes : List (ℕ × Text)
status_codes =
    (100, units "Continue")
    ∷ (101, units "Switching Protocols")
    ∷ (102, units "Processing")
    ∷ (103, units "Early Hints")
    ∷ (200, units "OK")
    ∷ (201, units "Created")
    ∷ (202, units "Accepted")
    ∷ (203, units "Non-Authoritative Information")
    ∷ (204, units "No Content")
    ∷ (205, units "Reset Content")
    ∷ (206, units "Partial Content")
    ∷ (207, units "Multi-Status")
    ∷ (208, units "Already Reported")
    ∷ (226, units "IM Used")
    ∷ (300, units "Multiple Choices")
    ∷ (301, units "Moved Permanently")
    ∷ (302, units "Found")
    ∷ (303, units "See Other")
    ∷ (304, units "Not Modified")
    ∷ (305, units "Use Proxy")
    ∷ (307, units "Temporary Redirect")
    ∷ (308, units "Permanent Redirect")
    ∷ (400, units "Bad Request")
    ∷ (401, units "Unauthorized")
    ∷ (402, units "Payment Required")
    ∷ (403, units "Forbidden")
    ∷ (404, units "Not Found")
    ∷ (405, units "Method Not Allowed")
    ∷ (406, units "Not Acceptable")
    ∷ (407, units "Proxy Authentication Required")
    ∷ (408, units "Request Timeout")
    ∷ (409, units "Conflict")
    ∷ (410, units "Gone")
    ∷ (411, units "Length Required")
    ∷ (412, units "Precondition Failed")
    ∷ (413, units "Payload Too Large")
    ∷ (414, units "URI Too Long")
    ∷ (415, units "Unsupported Media Type")
    ∷ (416, units "Range Not Satisfiable")
    ∷ (417, units "Expectation Failed")
    ∷ (418, units "I'm a Teapot")
    ∷ (421, units "Misdirected Request")
    ∷ (422, units "Unprocessable Entity")
    ∷ (423, units "Locked")
    ∷ (424, units "Failed Dependency")
    ∷ (425, units "Too Early")
    ∷ (426, units "Upgrade Required")
    ∷ (428, units "Precondition Required")
    ∷ (429, units "Too Many Requests")
    ∷ (431, units "Request Header Fields Too Large")
    ∷ (451, units "Unavailable For Legal Reasons")
    ∷ (500, units "Internal Server Error")
    ∷ (501, units "Not Implemented")
    ∷ (502, units "Bad Gateway")
    ∷ (503, units "Service Unavailable")
    ∷ (504, units "Gateway Timeout")
    ∷ (505, units "HTTP Version Not Supported")
    ∷ (506, units "Variant Also Negotiates")
    ∷ (507, units "Insufficient Storage")
    ∷ (508, units "Loop Detected")
    ∷ (510, units "Not Extended")
    ∷ (511, units "Network Authentication Required")
    ∷ []

abbrev pub find_phrase : ℕ → List (ℕ × Text) → Option Text
find_phrase code [] = none
find_phrase code ((c, t) ∷ rows) = if c == code then some t else find_phrase code rows

unfoldable pub reason_phrase : ℕ → Option Text
reason_phrase code = find_phrase code status_codes

-- `replace(/[^a-zA-Z]/g, "")`
abbrev pub is_letter : ℕ → Bool
is_letter c = leb b'a' (lower_unit c) && leb (lower_unit c) b'z'

unfoldable pub letters : Text → Text
letters [] = []
letters (c ∷ cs) = let rest = letters cs in if is_letter c then c ∷ rest else rest

abbrev pub ends_with : Text → Text → Bool
ends_with e [] = same [] e
ends_with e (c ∷ cs) = same (c ∷ cs) e || ends_with e cs

abbrev pub error_name : Text → Text
error_name t = if ends_with (units "Error") t then t else t ++ units "Error"

-- The fields of an HttpError; `status` is `statusCode`.
pub record HttpError : Type 0 where
  pub message : Option Text
  pub name : Text
  pub status_code : ℕ
  pub expose : Bool

-- `new HttpError(code, { expose })`; without a phrase the message is not given.
unfoldable pub http_error : ℕ → Option Bool → HttpError
unfolding letters reason_phrase
http_error code expose = record {
  message = reason_phrase code;
  name = error_name (letters (or_default (reason_phrase code) (units "Unknown")));
  status_code = code;
  expose = or_default expose (ltb code 500);
}
