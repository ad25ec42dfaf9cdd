-- ===== src/Headers/Security/Policies.antt =====
-- packages/http-security-headers/index.js: the options, and the header that each entry of `helmet`
-- sets. Options are of the types that the schema names, and a `maxAge` is a whole number.
use middy.Prelude.{
  ℕ, zero, suc, ◌+◌, ◌/◌, ◌%◌, ltb, ◌==◌, Bool, true, false, ◌||◌, not, Option, none, some, List,
  [], ◌∷◌, ◌++◌, if◌then◌else◌,
}
use middy.Texts.{Text, units, same, Table, lookup, insert}
use middy.Headers.Fields.{or_else, join_with}
use middy.Headers.Security.Defaults.{default_content_security_policy, default_permissions_policy}

-- A policy is `false`, `true` for its default, or an object that overrides fields of the default.
pub data Switch (A : Type 0) : Type 0 where
  off : Switch A
  on : Switch A
  config : A → Switch A

-- A value of the map `reportTo`.
pub data ReportField : Type 0 where
  word : Text → ReportField
  number : ℕ → ReportField
  flag : Bool → ReportField

pub record Hsts : Type 0 where
  pub max_age : Option ℕ
  pub include_sub_domains : Option Bool
  pub preload : Option Bool

-- The options, with the defaults for those that are not given: `on`, and `off` for `xssProtection`.
pub record Policies : Type 0 where
  pub content_security_policy : Switch (Table Text)
  pub content_security_policy_report_only : Bool
  pub cross_origin_embedder_policy : Switch (Option Text)
  pub cross_origin_opener_policy : Switch (Option Text)
  pub cross_origin_resource_policy : Switch (Option Text)
  pub permissions_policy : Switch (Table Text)
  pub origin_agent_cluster : Bool
  pub referrer_policy : Switch (Option Text)
  pub report_to : Switch (Table ReportField)
  pub reporting_endpoints : Switch (Table Text)
  pub strict_transport_security : Switch Hsts
  pub content_type_options : Switch (Option Text)
  pub dns_prefetch_control : Switch (Option Bool)
  pub download_options : Switch (Option Text)
  pub frame_options : Switch (Option Text)
  pub permitted_cross_domain_policies : Switch (Option Text)
  pub powered_by : Bool
  pub xss_protection : Bool

abbrev pub default_policies : Policies
default_policies = record {
  content_security_policy = on;
  content_security_policy_report_only = false;
  cross_origin_embedder_policy = on;
  cross_origin_opener_policy = on;
  cross_origin_resource_policy = on;
  permissions_policy = on;
  origin_agent_cluster = true;
  referrer_policy = on;
  report_to = on;
  reporting_endpoints = on;
  strict_transport_security = on;
  content_type_options = on;
  dns_prefetch_control = on;
  download_options = on;
  frame_options = on;
  permitted_cross_domain_policies = on;
  powered_by = true;
  xss_protection = false;
}

-- The header that an entry of `helmet` assigns, if it assigns one.
abbrev pub Setting : Type 0
Setting = Option (Text × Text)

-- `if (!options[key]) continue`, and the configuration otherwise.
abbrev pub with_config : {A : Type 0} → Switch A → A → (A → Setting) → Setting
with_config off nothing f = none
with_config on nothing f = f nothing
with_config (config a) nothing f = f a

abbrev pub when : Bool → Setting → Setting
when false s = none
when true s = s

-- `{ ...defaults[key], ...options[key] }`
abbrev pub spread : {A : Type 0} → Table A → Table A → Table A
spread base [] = base
spread base ((k, v) ∷ m) = spread (insert k v base) m

-- A number below 10^21, which prints without an exponent.
unfoldable pub digits : ℕ → ℕ → Text
digits zero n = []
digits (suc f) n =
    let front = digits f (n / 10) in
    let last = (b'0' + n % 10) ∷ [] in if ltb n 10 then last else front ++ last

abbrev pub decimal : ℕ → Text
decimal n = digits 21 n

abbrev pub nonempty : List Text → List Text
nonempty [] = []
nonempty ([] ∷ ts) = nonempty ts
nonempty ((c ∷ cs) ∷ ts) = (c ∷ cs) ∷ nonempty ts

-- `helmet.contentSecurityPolicy`
abbrev pub directives : Table Text → List Text
directives [] = []
directives ((k, []) ∷ m) = directives m
directives ((k, c ∷ cs) ∷ m) = (k ++ b' ' ∷ c ∷ cs) ∷ directives m

abbrev pub is_empty_at : Text → Table Text → Bool
is_empty_at k m = elim (lookup k m) [ none ↦ false | some t ↦ same t [] ]

unfoldable pub set_content_security_policy : Bool → Table Text → Setting
set_content_security_policy report_only overrides =
    let c = spread default_content_security_policy overrides in
    let listed = join_with (units "; ") (directives c) in
    let boxed = if is_empty_at (units "sandbox") c then listed ++ units "; sandbox" else listed in
    let header =
      if is_empty_at (units "upgrade-insecure-requests") c
      then boxed ++ units "; upgrade-insecure-requests"
      else boxed in
    some (
      if report_only
          then units "Content-Security-Policy-Report-Only"
          else units "Content-Security-Policy",
      header,
    )

-- `helmet.permissionsPolicy`
abbrev pub permission : Text → Text → Text
permission k v = k ++ b'=' ∷ (if same v (units "*") then units "*" else b'(' ∷ v ++ units ")")

abbrev pub permissions : Table Text → List Text
permissions [] = []
permissions ((k, v) ∷ m) = permission k v ∷ permissions m

unfoldable pub set_permissions_policy : Table Text → Setting
set_permissions_policy overrides = some (
  units "Permissions-Policy",
  join_with (units ", ") (permissions (spread default_permissions_policy overrides)),
)

-- A value in a template.
abbrev pub print : Option ReportField → Text
print none = units "undefined"
print (some (word t)) = t
print (some (number n)) = decimal n
print (some (flag true)) = units "true"
print (some (flag false)) = units "false"

abbrev pub is_set : ReportField → Bool
is_set (word []) = false
is_set (word (c ∷ cs)) = true
is_set (number n) = not (n == 0)
is_set (flag b) = b

-- `helmet.reportTo`
abbrev pub default_report_to : Table ReportField
default_report_to = (units "maxAge", number 31536000) ∷ (units "includeSubDomains", flag true) ∷ []

abbrev pub is_setting_key : Text → Bool
is_setting_key k =
    same k (units "maxAge")
    || same k (units "includeSubDomains")
    || same k (units "includeSubdomains")

abbrev pub quoted : Text → Text
quoted t = b'"' ∷ t ++ units "\""

abbrev pub report_group : Table ReportField → Text → ReportField → Text
report_group c group v =
    let include =
      or_else (lookup (units "includeSubdomains") c) (lookup (units "includeSubDomains") c) in
    let subdomains =
      if same group (units "default")
      then units ", \"include_subdomains\": " ++ print include
      else [] in
    if is_setting_key group || not (is_set v)
    then []
    else units "{ \"group\": "
      ++ quoted group
      ++ units ", \"max_age\": "
      ++ print (lookup (units "maxAge") c)
      ++ units ", \"endpoints\": [ { \"url\": "
      ++ quoted (print (some v))
      ++ units " } ]"
      ++ subdomains
      ++ units " }"

abbrev pub report_groups : Table ReportField → Table ReportField → List Text
report_groups c [] = []
report_groups c ((k, v) ∷ m) = report_group c k v ∷ report_groups c m

-- A header that is not empty.
abbrev pub set_nonempty : Text → Text → Setting
set_nonempty k [] = none
set_nonempty k (c ∷ cs) = some (k, c ∷ cs)

unfoldable pub set_report_to : Table ReportField → Setting
set_report_to overrides =
    let c = spread default_report_to overrides in
    set_nonempty (units "Report-To") (join_with (units ", ") (nonempty (report_groups c c)))
