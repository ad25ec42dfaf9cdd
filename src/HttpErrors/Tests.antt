-- ===== src/HttpErrors/Tests.antt =====
-- HttpError and packages/http-error-handler/index.js: runs at concrete inputs.
use middy.Prelude.{◌≡◌, refl, inl, inr, false, none, some, [], ◌∷◌}
use middy.Texts.{units, ascii_lower}
use middy.HttpRouter.Event.{Event}
use middy.Util.Omit.{record_object, end}
use middy.Headers.Fields.{HttpEvent, normalize_http_response}
use middy.HttpErrors.Codes.{letters, reason_phrase, http_error}
use middy.HttpErrors.Handler.{Thrown, fallback_error, HandlerOptions, error_response, error_handler}
use middy.HttpErrors.Hiding.{
  IsExposable, known, error_object, response_of, error_handler-hides, http_error-answered,
}

names : (http_error 418 none).name ≡ units "ImaTeapotError"
unfolding http_error letters reason_phrase
names = refl

names_once : (http_error 500 none).name ≡ units "InternalServerError"
unfolding http_error letters reason_phrase
names_once = refl

unknown_code :
    http_error 499 (some false)
    ≡ record { message = none; name = units "UnknownError"; status_code = 499; expose = false }
unfolding http_error letters reason_phrase
unknown_code = refl

abbrev target : Event
target = record {
  version = none;
  http_method = some "GET";
  path = none;
  method = none;
  vpc_raw_path = none;
  http = none;
  raw_path = none;
  path_parameters = [];
}

abbrev event : HttpEvent
event = record { target = target; headers = none; multi_value_headers = none; elb = false }

abbrev options : HandlerOptions
options = record {
  logger = false;
  fallback_message = some (units "{}");
  omit_path_tree = none;
  mask = none;
}

abbrev secret : Thrown
secret = known 503 false (some (units "db-7 is down"))

hides_secret : ¬ IsExposable secret
hides_secret (c, (a, (b, inl e))) = absurd cc
hides_secret (c, (a, (b, inr (e, f)))) = absurd cc

error_handler-hides_example :
    error_handler ascii_lower options event
      (record_object end)
      (known 503 false (some (units "db-7 is down")))
      none
    ≡ some (
        some (record {
          logged = none;
          error =
              fallback_error (some (units "{}")) (known 503 false (some (units "db-7 is down")));
          response = record {
            status_code = some 500;
            body = some (units "{}");
            headers = some ((units "Content-Type", units "application/json") ∷ []);
            multi_value_headers = none;
          };
        }))
unfolding error_handler error_response normalize_http_response
error_handler-hides_example =
    error_handler-hides ascii_lower options event (record_object end) secret none hides_secret refl

http_error-answered_example :
    response_of (
      error_handler ascii_lower options event
        (record_object end)
        (error_object (http_error 404 none))
        none)
    ≡ some (some 404, some (units "Not Found"))
unfolding reason_phrase
http_error-answered_example =
    http_error-answered ascii_lower options event (record_object end) 404 none none refl refl
