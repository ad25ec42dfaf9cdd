-- ===== src/Headers/Negotiation/Tests.antt =====
-- packages/http-content-negotiation/index.js: runs at concrete inputs.
use middy.Prelude.{◌≡◌, refl, true, false, Bool, Option, none, some, List, [], ◌∷◌}
use middy.Texts.{Text, units, Table}
use middy.HttpRouter.Event.{Event}
use middy.Headers.Fields.{HeaderValue, single, HttpEvent, includes}
use middy.HttpErrors.Codes.{http_error}
use middy.Headers.Negotiation.{
  Kind, charset, encoding, language, media_type, Preference, NegotiationOptions, first,
  parse_header, negotiate,
}
use middy.Headers.Negotiation.Preferring.{IsOneOf, ParsesAvailable, preferred}
use middy.Headers.Negotiation.Negotiating.{negotiate-IsOneOf}

-- A parser that knows the plain name of one value.
abbrev keep_if : Bool → Text → List Text
keep_if true t = t ∷ []
keep_if false t = []

abbrev parse : Kind → Option Text → Option (List Text) → List Text
parse k none available = []
parse k (some t) none = t ∷ []
parse k (some t) (some ts) = keep_if (includes t ts) t

first-keep_if :
    (b : Bool) (t x : Text) (ts : List Text)
    → includes t ts ≡ b
    → first (keep_if b t) ≡ some x
    → includes x ts ≡ true
first-keep_if true t x ts e f = cc
first-keep_if false t x ts e f = absurd cc

parse-ParsesAvailable : ParsesAvailable parse
parse-ParsesAvailable k none ts x e = absurd cc
parse-ParsesAvailable k (some t) ts x e = first-keep_if (includes t ts) t x ts refl e

abbrev languages : Preference
languages = record {
  parses = true;
  available = some (units "en" ∷ units "it" ∷ []);
  default_to_first = false;
}

abbrev headers : Table HeaderValue
headers = (units "accept-language", single (units "it")) ∷ []

abbrev silent : Preference
silent = record { parses = false; available = none; default_to_first = false }

abbrev preference : Kind → Preference
preference language = languages
preference charset = silent
preference encoding = silent
preference media_type = silent

abbrev options : NegotiationOptions
options = record { preference = preference; fail_on_mismatch = true }

abbrev target : Event
target = record {
  version = none;
  http_method = some "GET";
  path = none;
  method = none;
  vpc_raw_path = none;
  http = none;
  raw_path = none;
  path_parameters = [];
}

abbrev french : HttpEvent
french = record {
  target = target;
  headers = some ((units "Accept-Language", single (units "fr")) ∷ []);
  multi_value_headers = none;
  elb = false;
}

refuses_french : (negotiate parse options french []).1 ≡ some (http_error 406 none)
unfolding negotiate parse_header
refuses_french = refl

abbrev italian : HttpEvent
italian = record french { headers = some headers }

negotiate-IsOneOf_example :
    IsOneOf
      (units "en" ∷ units "it" ∷ [])
      (preferred language (negotiate parse options italian []).0)
unfolding negotiate parse_header
negotiate-IsOneOf_example =
    negotiate-IsOneOf parse options italian headers language (units "en") (units "it" ∷ []) []
      parse-ParsesAvailable refl refl refl refl refl
