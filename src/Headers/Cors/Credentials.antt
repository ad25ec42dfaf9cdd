-- ===== src/Headers/Cors/Credentials.antt =====
-- packages/http-cors/index.js: a wildcard origin and credentials.
use middy.Prelude.{
  ◌≡◌, ◌≢◌, refl, sym, ◌∙◌, subst, inl, inr, Bool, true, false, Option, none, some, List, [], ◌∷◌,
  ◌++◌, arith, Bool-cases, if◌then◌else◌, ok, ap, is_some,
}
use middy.Texts.{Text, units, same, same_iff, lookup}
use middy.Headers.Fields.{truthy, HttpEvent, header_value, read_either, read_event_headers}
use middy.Headers.Cors.Origins.{star, origin_to_punycode, is_ascii_origin, split_origin}
use middy.Headers.Cors.Options.{
  Options, Rules, Platform, Credentials, option_list, credentials_string, is_truthy, origin_form,
  rules_of, normalize_options, http_cors, get_origin, call_get_origin,
}
use middy.Headers.Cors.Modify.{effective_credentials, Headers, find_key, new_origin, modify_headers}
use middy.Headers.Cors.Frame.{LowersVary}
use middy.Headers.Cors.Allowed.{configured_origins, SomeOrigin, rules_of-any, any_origin-SomeOrigin}
use middy.Headers.Cors.Pairing.{HasNeither, lookup_credentials, lookup_origin}

truthy-some : (v : Option Text) (w : Text) → truthy v ≡ some w → v ≡ some w
truthy-some none w e = e
truthy-some (some []) w e = absurd cc
truthy-some (some (c ∷ cs)) w e = e

if_some : (b : Bool) (v w : Text) → (if b then some v else none) ≡ some w → v ≡ w
if_some true v w e = cc
if_some false v w e = absurd cc

module _ (platform : Platform) where
  origin_form-star : origin_form platform (star ∷ []) ≡ star ∷ []
  unfolding origin_to_punycode is_ascii_origin split_origin
  origin_form-star = refl

  some_star :
      (o : Options)
      → SomeOrigin platform (λ q. q ≡ star ∷ []) (configured_origins o)
      → (rules_of platform o).origin_any ≡ true
  some_star o h =
      rules_of-any platform o
      ∙ any_origin-SomeOrigin platform (λ q. same q (star ∷ [])) (λ q. q ≡ star ∷ [])
          (configured_origins o) (λ q. (same_iff q (star ∷ [])).1) h

  lone_star :
      (o : Options)
      → o.origin ≡ some (star ∷ [])
      → SomeOrigin platform (λ q. q ≡ star ∷ []) (configured_origins o)
  lone_star o e =
      subst (λ t. SomeOrigin platform (λ q. q ≡ star ∷ []) (option_list t ++ o.origins))
        {x = some (star ∷ [])} {y = o.origin} (sym e) (inl origin_form-star)

  -- `getOrigin` answers `*` only where it is configured_origins.
  star_is_any :
      (o : Options) (incoming : Option Text) (os : List Text)
      → o.origins ≡ os
      → ((x : Text) → incoming ≡ some x → origin_form platform x ≢ star ∷ [])
      → get_origin platform o (rules_of platform o) incoming ≡ some (star ∷ [])
      → (rules_of platform o).origin_any ≡ true
  unfolding get_origin
  star_is_any o incoming [] d h e = some_star o (lone_star o (ground (arith, d, e)))
  star_is_any o none (p ∷ ps) d h e = elim (Bool-cases (rules_of platform o).origin_any) [
    | inl a ↦ a
    | inr a ↦ absurd (ground (arith, d, e, a))
  ]
  star_is_any o (some x) (p ∷ ps) d h e = elim (Bool-cases (rules_of platform o).origin_any) [
    | inl a ↦ a
    | inr a ↦ absurd (h x refl (ground (arith, d, e, a)))
  ]

  -- With a wildcard, the set-up refuses credentials.
  pub no_credentials :
      (o : Options) (s : Options × Rules)
      → http_cors platform o ≡ ok s
      → (s ≡ (normalize_options platform o, rules_of platform o))
        × ((rules_of platform o).origin_any ≡ true
            → credentials_string o.credentials ≢ units "true")
  unfolding http_cors
  no_credentials o s e = (
    ground (arith, e),
    λ a c. ground (arith, e, a, same_iff (credentials_string o.credentials) (units "true")),
  )

  call_default :
      (o : Options) (r : Rules) (incoming : Option Text) (c : Credentials)
      → o.get_origin ≡ none
      → call_get_origin platform (normalize_options platform o) r incoming c
        ≡ get_origin platform o r incoming
  unfolding get_origin
  call_default o r incoming c d = ground (arith, d)

  -- Where the default `getOrigin` gives `*`, it is configured, or the request's Origin.
  new_origin-star :
      (o : Options) (e : HttpEvent) (before : Headers)
      → find_key platform (units "access-control-allow-origin") before ≡ none
      → o.get_origin ≡ none
      → ((x : Text)
          → header_value (read_either (units "Origin") (units "origin") (read_event_headers e))
            ≡ some x
          → origin_form platform x ≢ star ∷ [])
      → truthy (new_origin platform (normalize_options platform o) (rules_of platform o) e before)
        ≡ some (star ∷ [])
      → (rules_of platform o).origin_any ≡ true
  new_origin-star o e before y d h t =
      let incoming =
        header_value (read_either (units "Origin") (units "origin") (read_event_headers e)) in
      let r = rules_of platform o in
      let o' = normalize_options platform o in
      let c = effective_credentials platform before o.credentials in
      star_is_any o incoming o.origins refl h (
        sym (call_default o r incoming c d)
        ∙ sym (ap (λ x. if is_some x then none else call_get_origin platform o' r incoming c) y)
        ∙ truthy-some (new_origin platform o' r e before) (star ∷ []) t)

-- Options that the set-up accepts, with the middleware's own `getOrigin`: the headers that
-- `modifyHeaders` makes, for a preflight or of a response's, never hold
-- `Access-Control-Allow-Origin: *` together with `Access-Control-Allow-Credentials: true`, provided
-- that neither header has been set before, in any casing: a handler that sets one of them itself can
-- still pair them. The request's Origin has another form than `*`, and the platform gives the names
-- of the two headers and `Vary` in lower case.
pub wildcard_without_credentials :
    (platform : Platform) (o : Options) (s : Options × Rules) (e : HttpEvent) (before : Headers)
    → LowersVary platform
    → HasNeither platform before
    → http_cors platform o ≡ ok s
    → o.get_origin ≡ none
    → ((x : Text)
        → header_value (read_either (units "Origin") (units "origin") (read_event_headers e))
          ≡ some x
        → origin_form platform x ≢ star ∷ [])
    → lookup (units "Access-Control-Allow-Origin") (modify_headers platform s.0 s.1 e before)
      ≡ some (star ∷ [])
    → lookup (units "Access-Control-Allow-Credentials") (modify_headers platform s.0 s.1 e before)
      ≢ some (units "true")
wildcard_without_credentials platform o s e before v absent d g h a c =
    let (q, f) = no_credentials platform o s d in
    let o' = normalize_options platform o in
    let r = rules_of platform o in
    let t : truthy (new_origin platform o' r e before) ≡ some (star ∷ []) =
      sym (lookup_origin platform o' r e before v absent)
      ∙ subst
          (λ z.
            lookup (units "Access-Control-Allow-Origin") (modify_headers platform z.0 z.1 e before)
            ≡ some (star ∷ []))
          {x = s} {y = (o', r)} q a in
    let n = f (new_origin-star platform o e before absent.1.1 g h t) in
    let k : (if is_truthy o.credentials then some (credentials_string o.credentials) else none)
        ≡ some (units "true") =
      sym (lookup_credentials platform o' r e before v absent)
      ∙ subst
          (λ z.
            lookup (units "Access-Control-Allow-Credentials")
              (modify_headers platform z.0 z.1 e before)
            ≡ some (units "true"))
          {x = s} {y = (o', r)} q c in
    n (if_some (is_truthy o.credentials) (credentials_string o.credentials) (units "true") k)
