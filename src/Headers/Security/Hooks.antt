-- ===== src/Headers/Security/Hooks.antt =====
-- packages/http-security-headers/index.js: the other entries of `helmet`, the headers computed once,
-- and the hooks.
use middy.Prelude.{
  leb, Bool, true, false, ◌&&◌, not, Option, none, some, is_some, or_default, List, [], ◌∷◌, ◌++◌,
  if◌then◌else◌,
}
use middy.Texts.{Text, units, Table, insert}
use middy.Headers.Fields.{
  join_with, includes, HttpEvent, is_alb_multi_value, Shape, Returned, normalize_http_response,
}
use middy.Headers.Security.Policies.{
  Hsts, Policies, Setting, with_config, when, decimal, quoted, set_content_security_policy,
  set_permissions_policy, set_report_to, set_nonempty,
}

-- `helmet.reportingEndpoints`
abbrev pub endpoints : Table Text → List Text
endpoints [] = []
endpoints ((k, v) ∷ m) = (k ++ b'=' ∷ quoted v) ∷ endpoints m

abbrev pub set_reporting_endpoints : Table Text → Setting
set_reporting_endpoints c =
    set_nonempty (units "Reporting-Endpoints") (join_with (units ", ") (endpoints c))

-- `helmet.strictTransportSecurity`
unfoldable pub set_strict_transport_security : Hsts → Setting
set_strict_transport_security c =
    let max_age = or_default c.max_age 15552000 in
    let start = units "max-age=" ++ decimal max_age in
    let wide =
      if or_default c.include_sub_domains true
      then start ++ units "; includeSubDomains"
      else start in
    some (
      units "Strict-Transport-Security",
      if or_default c.preload true && leb 31536000 max_age then wide ++ units "; preload" else wide,
    )

abbrev pub no_hsts : Hsts
no_hsts = record { max_age = none; include_sub_domains = none; preload = none }

-- The entries with the one field `policy` or `action`.
abbrev pub set_field : Text → Text → Option Text → Setting
set_field k standard field = some (k, or_default field standard)

abbrev pub set_dns_prefetch_control : Option Bool → Setting
set_dns_prefetch_control allow =
    some
      (units "X-DNS-Prefetch-Control", if or_default allow false then units "on" else units "off")

abbrev pub set_frame_options : (Text → Text) → Option Text → Setting
set_frame_options upper action =
    some (units "X-Frame-Options", upper (or_default action (units "deny")))

-- The entries in the order in which `helmet` has them.
unfoldable pub settings : (Text → Text) → Policies → List Setting
unfolding set_content_security_policy set_permissions_policy set_report_to
    set_strict_transport_security
settings upper p =
    with_config p.content_security_policy []
      (set_content_security_policy p.content_security_policy_report_only)
    ∷ with_config p.cross_origin_embedder_policy none
        (set_field (units "Cross-Origin-Embedder-Policy") (units "require-corp"))
    ∷ with_config p.cross_origin_opener_policy none
        (set_field (units "Cross-Origin-Opener-Policy") (units "same-origin"))
    ∷ with_config p.cross_origin_resource_policy none
        (set_field (units "Cross-Origin-Resource-Policy") (units "same-origin"))
    ∷ with_config p.permissions_policy [] set_permissions_policy
    ∷ when p.origin_agent_cluster (some (units "Origin-Agent-Cluster", units "?1"))
    ∷ with_config p.referrer_policy none (set_field (units "Referrer-Policy") (units "no-referrer"))
    ∷ with_config p.report_to [] set_report_to
    ∷ with_config p.reporting_endpoints [] set_reporting_endpoints
    ∷ with_config p.strict_transport_security no_hsts set_strict_transport_security
    ∷ with_config p.content_type_options none
        (set_field (units "X-Content-Type-Options") (units "nosniff"))
    ∷ with_config p.dns_prefetch_control none set_dns_prefetch_control
    ∷ with_config p.download_options none (set_field (units "X-Download-Options") (units "noopen"))
    ∷ with_config p.frame_options none (set_frame_options upper)
    ∷ with_config p.permitted_cross_domain_policies none
        (set_field (units "X-Permitted-Cross-Domain-Policies") (units "none"))
    ∷ when p.powered_by none
    ∷ when p.xss_protection (some (units "X-XSS-Protection", units "0"))
    ∷ []

abbrev pub put_setting : Setting → Table Text → Table Text
put_setting none m = m
put_setting (some (k, v)) m = insert k v m

abbrev pub put_settings : List Setting → Table Text → Table Text
put_settings [] m = m
put_settings (s ∷ ss) m = put_settings ss (put_setting s m)

-- `precomputedHeaders`
unfoldable pub precomputed_headers : (Text → Text) → Policies → Table Text
unfolding settings
precomputed_headers upper p = put_settings (settings upper p) []

-- `Object.assign(headers, others)`
abbrev pub assign_all : {V : Type 0} → Table V → Table V → Table V
assign_all m [] = m
assign_all m ((k, v) ∷ others) = assign_all (insert k v m) others

abbrev pub in_arrays : Table Text → Table (List Text)
in_arrays [] = []
in_arrays ((k, v) ∷ m) = (k, v ∷ []) ∷ in_arrays m

module _ (lower : Text → Text) where
  abbrev pub lowered_keys : Table Text → List Text
  lowered_keys [] = []
  lowered_keys ((k, v) ∷ m) = lower k ∷ lowered_keys m

  -- `replacedNames`
  abbrev pub replaced_names : Bool → Table Text → List Text
  replaced_names powered_by added =
      lowered_keys added ++ (if powered_by then units "server" ∷ units "x-powered-by" ∷ [] else [])

  -- `withoutHeaderNames`
  unfoldable pub without_header_names : {V : Type 0} → Table V → List Text → Table V
  without_header_names [] names = []
  without_header_names ((k, v) ∷ m) names =
      let rest = without_header_names m names in
      if includes (lower k) names then rest else (k, v) ∷ rest

  -- The headers stand alone, or beside `multiValueHeaders`.
  abbrev pub set_headers : {B : Type 0} → Table Text → Bool → List Text → Shape B → Shape B
  set_headers added true names s = record s {
    headers = some (assign_all (without_header_names (or_default s.headers []) names) added);
  }
  set_headers added false names s = record s {
    headers = some (without_header_names (or_default s.headers []) names);
    multi_value_headers = some (
        assign_all (without_header_names (or_default s.multi_value_headers []) names)
          (in_arrays added));
  }

  module _ {B : Type 0} (whole : Shape B → B) (powered_by : Bool) (added : Table Text) where
    -- `httpSecurityHeadersMiddlewareAfter`, for the headers computed before.
    unfoldable pub security_after : HttpEvent → Option (Returned B) → Shape B
    unfolding normalize_http_response without_header_names
    security_after e response =
        let s = normalize_http_response whole response in
        set_headers added (not (is_some s.multi_value_headers) && not (is_alb_multi_value e))
          (replaced_names powered_by added) s

    -- `httpSecurityHeadersMiddlewareOnError`
    abbrev pub security_on_error : HttpEvent → Option (Returned B) → Option (Shape B)
    security_on_error e none = none
    security_on_error e (some r) = some (security_after e (some r))
