-- ===== src/Headers/Security/Tests.antt =====
-- packages/http-security-headers/index.js: runs at concrete inputs.
use middy.Prelude.{ℕ, ◌≡◌, refl, true, false, Option, none, some, [], ◌∷◌}
use middy.Texts.{units, ascii_lower}
use middy.HttpRouter.Event.{Event}
use middy.Headers.Fields.{HttpEvent, Shape, Returned, shaped, no_shape, normalize_http_response}
use middy.Headers.Security.Policies.{
  off, word, Policies, default_policies, digits, decimal, set_content_security_policy,
  set_permissions_policy, set_report_to,
}
use middy.Headers.Security.Hooks.{
  settings, set_strict_transport_security, precomputed_headers, without_header_names,
  security_after,
}
use middy.Headers.Security.Placing.{sent, sent-security_after}

prints : decimal 31536000 ≡ units "31536000"
unfolding digits
prints = refl

preload_left_out :
    set_strict_transport_security
      (record { max_age = some 300; include_sub_domains = some false; preload = some true })
    ≡ some (units "Strict-Transport-Security", units "max-age=300")
unfolding set_strict_transport_security digits
preload_left_out = refl

reports :
    set_report_to ((units "default", word (units "https://a")) ∷ [])
    ≡ some (
      units "Report-To",
      units
          "{ \"group\": \"default\", \"max_age\": 31536000, \"endpoints\": [ { \"url\": \"https://a\" } ], \"include_subdomains\": true }",
    )
unfolding set_report_to digits
reports = refl

default_csp :
    set_content_security_policy false []
    ≡ some (
      units "Content-Security-Policy",
      units
          "default-src 'report-sample' 'report-sha256'; base-uri 'none'; form-action 'none'; frame-ancestors 'none'; report-to default; require-trusted-types-for 'script'; sandbox; upgrade-insecure-requests",
    )
unfolding set_content_security_policy
default_csp = refl

abbrev target : Event
target = record {
  version = none;
  http_method = some "GET";
  path = none;
  method = none;
  vpc_raw_path = none;
  http = none;
  raw_path = none;
  path_parameters = [];
}

abbrev event : HttpEvent
event = record { target = target; headers = none; multi_value_headers = none; elb = false }

abbrev response : Option (Returned ℕ)
response = some (
    shaped (record no_shape {
      status_code = some 200;
      headers = some (
          (units "x-frame-options", units "SAMEORIGIN")
          ∷ (units "Server", units "x")
          ∷ (units "ETag", units "1")
          ∷ []);
    }))

abbrev policies : Policies
policies = record default_policies { permissions_policy = off }

abbrev after : Shape ℕ
after =
    security_after ascii_lower (λ _. 0) true (precomputed_headers (λ t. t) policies) event response

sets_frame_options : sent after (units "X-Frame-Options") ≡ some (units "deny" ∷ [])
unfolding security_after normalize_http_response without_header_names precomputed_headers settings
    set_content_security_policy set_permissions_policy set_report_to set_strict_transport_security
    digits
sets_frame_options = refl

removes_server : sent after (units "Server") ≡ none
unfolding security_after normalize_http_response without_header_names precomputed_headers settings
    set_content_security_policy set_permissions_policy set_report_to set_strict_transport_security
    digits
removes_server = refl

keeps_etag : sent after (units "ETag") ≡ some (units "1" ∷ [])
unfolding security_after normalize_http_response without_header_names precomputed_headers settings
    set_content_security_policy set_permissions_policy set_report_to set_strict_transport_security
    digits
keeps_etag = refl

sent-security_after_example : sent after (units "x-frame-options") ≡ none
unfolding security_after normalize_http_response without_header_names precomputed_headers settings
    set_content_security_policy set_permissions_policy set_report_to set_strict_transport_security
    digits
sent-security_after_example =
    sent-security_after ascii_lower (λ t. t) (λ _. 0) policies event response
      (units "x-frame-options")
