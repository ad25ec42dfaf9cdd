-- ===== src/Headers/Cors/Preflight.antt =====
-- packages/http-cors/index.js: preflight requests.
use middy.Prelude.{
  ◌≡◌, refl, ◌∙◌, subst, Bool, true, false, ◌||◌, ◌&&◌, not, none, some, [], if◌then◌else◌,
  Bool-cases, inl, inr, arith, ◌∷◌,
}
use middy.Texts.{Text, units, lookup, same}
use middy.Headers.Fields.{HttpEvent, is_alb_multi_value, Shape, normalize_http_response}
use middy.Headers.Security.Placing.{sent}
use middy.Headers.Cors.Options.{Options, Rules, Platform}
use middy.Headers.Cors.Modify.{Headers, add_header_part, modify_headers, is_options_request}
use middy.Headers.Cors.Hooks.{
  is_nonempty, add_preflight_vary, rejected_headers, is_allowed_method, are_allowed_headers,
  set_preflight, cors_before, singletons,
}
use middy.Headers.Cors.Frame.{LowersVary, is_vary, lookup-add_header_part, lookup-if}

module _ (platform : Platform) where
  lookup-add_preflight_vary :
      (o : Options) (j : Text) (hs : Headers)
      → LowersVary platform
      → is_vary j ≡ false
      → lookup j (add_preflight_vary platform o hs) ≡ lookup j hs
  unfolding add_preflight_vary
  lookup-add_preflight_vary o j hs h n =
      let m =
        add_header_part platform (units "Vary") (some (units "Access-Control-Request-Method")) hs in
      let varied = if is_nonempty o.request_methods then m else hs in
      let k : lookup j varied ≡ lookup j hs =
        lookup-if (is_nonempty o.request_methods) j (lookup j hs) m hs
          (lookup-add_header_part platform j (some (units "Access-Control-Request-Method")) hs h n)
          refl in
      lookup-if (is_nonempty o.request_headers) j (lookup j hs)
        (add_header_part platform (units "Vary") (some (units "Access-Control-Request-Headers"))
          varied)
        varied
        (lookup-add_header_part platform j (some (units "Access-Control-Request-Headers")) varied h
            n
          ∙ k)
        k

  lookup-rejected_headers :
      (o : Options) (r : Rules) (j : Text)
      → LowersVary platform
      → is_vary j ≡ false
      → lookup j (rejected_headers platform o r) ≡ none
  lookup-rejected_headers o r j h n =
      let added = add_header_part platform (units "Vary") (some (units "Origin")) [] in
      lookup-add_preflight_vary o j (if r.origin_varies then added else []) h n
      ∙ lookup-if r.origin_varies j none added []
          (lookup-add_header_part platform j (some (units "Origin")) [] h n) refl

lookup-singletons : (j : Text) (hs : Headers) → lookup j hs ≡ none → lookup j (singletons hs) ≡ none
lookup-singletons j [] e = refl
lookup-singletons j ((k, v) ∷ hs) e = elim (Bool-cases (same k j)) [
  | inl b ↦ absurd (ground (arith, b, e))
  | inr b ↦ ground (arith, b, lookup-singletons j hs (ground (arith, b, e)))
]

-- The hook's result where the method or a header is not allowed.
second_answer :
    {A : Type 0} (a b : Bool) (x y s : A)
    → (if a then none else if b then some x else some y) ≡ some s
    → b ≡ false
    → y ≡ s
second_answer true b x y s e f = absurd cc
second_answer false true x y s e f = absurd cc
second_answer false false x y s e f = cc

-- In neither of its two places, `headers` and `multiValueHeaders`.
abbrev IsBare : {B : Type 0} → Text → Shape B → Type 0
IsBare j s = (s.status_code ≡ some 204) × (sent s j ≡ none)

set_preflight-IsBare :
    {B : Type 0} (e : HttpEvent) (hs : Headers) (s : Shape B) (j : Text)
    → s.multi_value_headers ≡ none
    → lookup j hs ≡ none
    → IsBare j (set_preflight e hs s)
set_preflight-IsBare e hs s j m n = elim (Bool-cases (is_alb_multi_value e)) [
  | inl a ↦ (ground (arith, a), ground (arith, a, lookup-singletons j hs n))
  | inr a ↦ (ground (arith, a), ground (arith, a, m, n))
]

-- A request whose method or one of whose headers is not among those of the options is, where the
-- middleware answers it and there is no response yet, answered with 204 and with no header but `Vary`,
-- in `headers` or in `multiValueHeaders`: the browser finds no `Access-Control-Allow-Origin`. The
-- platform gives `vary` for `Vary` in lower case.
pub rejected_preflight_is_bare :
    {B : Type 0} (platform : Platform) (whole : Shape B → B) (o : Options) (r : Rules)
    (e : HttpEvent) (s : Shape B) (j : Text)
    → LowersVary platform
    → (is_allowed_method o e && are_allowed_headers platform o e) ≡ false
    → cors_before platform whole o r e none ≡ some s
    → is_vary j ≡ false
    → (s.status_code ≡ some 204) × (sent s j ≡ none)
unfolding cors_before normalize_http_response
rejected_preflight_is_bare platform whole o r e s j h bad c n =
    let start = normalize_http_response whole none in
    let rejected = rejected_headers platform o r in
    let t = set_preflight e rejected start in
    let d : t ≡ s =
      second_answer (o.disable_before_preflight_response || not (is_options_request e))
        (is_allowed_method o e && are_allowed_headers platform o e)
        (set_preflight e (add_preflight_vary platform o (modify_headers platform o r e [])) start) t
        s c bad in
    subst (IsBare j) {x = t} {y = s} d
      (set_preflight-IsBare e rejected start j refl (lookup-rejected_headers platform o r j h n))
