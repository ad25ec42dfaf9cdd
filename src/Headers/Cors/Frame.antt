-- ===== src/Headers/Cors/Frame.antt =====
-- packages/http-cors/index.js: which headers a step of `modifyHeaders` leaves as they are.
use middy.Prelude.{
  ◌≡◌, refl, ◌∙◌, ◌⊎◌, inl, inr, Bool, true, false, ◌||◌, Option, none, some, is_some, ◌∷◌, ◌++◌,
  arith, Bool-cases, Option-cases, if◌then◌else◌,
}
use middy.Texts.{Text, units, same, lookup, insert, lookup-insert}
use middy.Headers.Fields.{truthy, split_on, HttpEvent}
use middy.Headers.Cors.Options.{Options, Rules, Platform}
use middy.Headers.Cors.Modify.{
  Headers, read_truthy, put_header, find_key, lists_token, extend_header, sanitized_header,
  add_header_part, put_absent, effective_credentials, add_default_vary, vary_headers, last_headers,
  is_options_request, varies_by_origin,
}

-- What a platform does to the one name that `addHeaderPart` is called with.
abbrev pub LowersVary : Platform → Type 0
LowersVary platform = platform.lower (units "Vary") ≡ units "vary"

-- The name is neither spelling of `Vary`.
abbrev pub is_vary : Text → Bool
is_vary j = same (units "Vary") j || same (units "vary") j

pub lookup-put_header :
    (k j : Text) (v : Option Text) (hs : Headers)
    → same k j ≡ false
    → lookup j (put_header k v hs) ≡ lookup j hs
lookup-put_header k j none hs h = refl
lookup-put_header k j (some v) hs h = ground (arith, lookup-insert k j v hs)

pub lookup-if :
    (b : Bool) (j : Text) (o : Option Text) (x y : Headers)
    → lookup j x ≡ o
    → lookup j y ≡ o
    → lookup j (if b then x else y) ≡ o
lookup-if true j o x y f g = f
lookup-if false j o x y f g = g

module _ (platform : Platform) where
  pub lookup-put_absent :
      (before : Headers) (name k j : Text) (v : Option Text) (hs : Headers)
      → same k j ≡ false
      → lookup j (put_absent platform before name k v hs) ≡ lookup j hs
  lookup-put_absent before name k j v hs h =
      elim (Bool-cases (is_some (find_key platform name before))) [
        | inl b ↦ ground (arith, b)
        | inr b ↦ ground (arith, b, lookup-put_header k j (truthy v) hs h)
      ]

  pub lookup-extend_header :
      (k j : Text) (current : Option Text) (v : Text) (hs : Headers)
      → same k j ≡ false
      → lookup j (extend_header platform k current v hs) ≡ lookup j hs
  lookup-extend_header k j none v hs h = ground (arith, lookup-insert k j v hs)
  lookup-extend_header k j (some c) v hs h =
      lookup-if (lists_token platform (platform.lower v) (split_on b',' c)) j (lookup j hs) hs
        (insert k (c ++ b',' ∷ b' ' ∷ v) hs) refl
        (ground (arith, lookup-insert k j (c ++ b',' ∷ b' ' ∷ v) hs))

  pub sanitized_header-cases :
      (hs : Headers)
      → LowersVary platform
      → (sanitized_header platform (units "Vary") hs ≡ units "vary")
        ⊎ (sanitized_header platform (units "Vary") hs ≡ units "Vary")
  sanitized_header-cases hs h =
      elim (Bool-cases (is_some (read_truthy (platform.lower (units "Vary")) hs))) [
        | inl b ↦ inl (ground (arith, b, h))
        | inr b ↦ inr (ground (arith, b, h))
      ]

  pub lookup-add_header_part :
      (j : Text) (v : Option Text) (hs : Headers)
      → LowersVary platform
      → is_vary j ≡ false
      → lookup j (add_header_part platform (units "Vary") v hs) ≡ lookup j hs
  unfolding add_header_part
  lookup-add_header_part j v hs h n = elim (Option-cases (truthy v)) [
    | inl t ↦ ground (arith, t)
    | inr (w, t) ↦
        let k = sanitized_header platform (units "Vary") hs in
        let e : same k j ≡ false = elim (sanitized_header-cases hs h) [
          | inl s ↦ ground (arith, s, n)
          | inr s ↦ ground (arith, s, n)
        ] in
        ground (arith, t, lookup-extend_header k j (read_truthy k hs) w hs e)
  ]

  lookup-add_default_vary :
      (o : Options) (j : Text) (hs : Headers)
      → LowersVary platform
      → is_vary j ≡ false
      → lookup j (add_default_vary platform o hs) ≡ lookup j hs
  lookup-add_default_vary o j hs h n = ground (arith, lookup-add_header_part j o.vary hs h n)

  pub lookup-vary_headers :
      (o : Options) (r : Rules) (before : Headers) (origin : Option Text) (j : Text) (hs : Headers)
      → LowersVary platform
      → is_vary j ≡ false
      → lookup j (vary_headers platform o r before origin hs) ≡ lookup j hs
  lookup-vary_headers o r before origin j hs h n =
      elim (Bool-cases (
        varies_by_origin platform r (effective_credentials platform before o.credentials) origin)) [
          | inl b ↦ ground (
            arith,
            b,
            lookup-add_header_part j (some (units "Origin")) (add_default_vary platform o hs) h n,
            lookup-add_default_vary o j hs h n,
          )
          | inr b ↦ ground (arith, b, lookup-add_default_vary o j hs h n)
        ]

  pub lookup-last_headers :
      (o : Options) (e : HttpEvent) (before : Headers) (j : Text) (hs : Headers)
      → same (units "Access-Control-Max-Age") j ≡ false
      → same (units "Access-Control-Expose-Headers") j ≡ false
      → same (units "Cache-Control") j ≡ false
      → lookup j (last_headers platform o e before hs) ≡ lookup j hs
  lookup-last_headers o e before j hs m x n =
      let exposed =
        put_absent platform before (units "access-control-expose-headers")
          (units "Access-Control-Expose-Headers") o.expose_headers hs in
      let cached =
        put_absent platform before (units "access-control-max-age") (units "Access-Control-Max-Age")
          o.max_age exposed in
      let c : lookup j cached ≡ lookup j hs =
        lookup-put_absent before (units "access-control-max-age") (units "Access-Control-Max-Age") j
          o.max_age exposed m
        ∙ lookup-put_absent before (units "access-control-expose-headers")
            (units "Access-Control-Expose-Headers") j o.expose_headers hs x in
      lookup-if (is_options_request e) j (lookup j hs)
        (put_absent platform before (units "cache-control") (units "Cache-Control") o.cache_control
          cached)
        cached
        (lookup-put_absent before (units "cache-control") (units "Cache-Control") j o.cache_control
            cached n
          ∙ c)
        c
