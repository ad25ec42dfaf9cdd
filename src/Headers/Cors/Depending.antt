-- ===== src/Headers/Cors/Depending.antt =====
-- packages/http-cors/index.js: when the set-up finds that the answer depends on the request's Origin.
use middy.Prelude.{◌≡◌, ◌≢◌, ◌∙◌, ap, inl, inr, true, List, [], ◌∷◌, ◌++◌, arith, Bool-cases, ok}
use middy.Texts.{Text, same, same_iff}
use middy.Headers.Cors.Origins.{star}
use middy.Headers.Cors.Options.{
  Options, Rules, Platform, varies_by, add_origin, option_list, add_origins, first_rules, rules_of,
  http_cors, origin_form,
}
use middy.Headers.Cors.Allowed.{SomeOrigin}
use middy.Headers.Cors.Credentials.{no_credentials}

-- Some entry of `origins` is neither empty nor the wildcard.
abbrev pub DependsOnOrigin : Platform → Options → Type 0
DependsOnOrigin platform o = SomeOrigin platform (λ q. q ≢ star ∷ []) o.origins

add_origin-varies :
    (q : Text) (r : Rules) → r.origin_varies ≡ true → (add_origin q r).origin_varies ≡ true
unfolding add_origin
add_origin-varies q r e = ground (arith, e)

module _ (platform : Platform) where
  add_origins-varies :
      (os : List Text) (r : Rules)
      → r.origin_varies ≡ true
      → (add_origins platform os r).origin_varies ≡ true
  unfolding add_origins
  add_origins-varies [] r e = e
  add_origins-varies ([] ∷ os) r e = add_origins-varies os r e
  add_origins-varies ((c ∷ cs) ∷ os) r e =
      add_origins-varies os (add_origin (origin_form platform (c ∷ cs)) r)
        (add_origin-varies (origin_form platform (c ∷ cs)) r e)

  varies_by-SomeOrigin :
      (os : List Text) → SomeOrigin platform (λ q. q ≢ star ∷ []) os → varies_by platform os ≡ true
  varies_by-SomeOrigin [] h = absurd h
  varies_by-SomeOrigin ([] ∷ os) h = ground (arith, varies_by-SomeOrigin os h)
  varies_by-SomeOrigin ((c ∷ cs) ∷ os) (inr h) = ground (arith, varies_by-SomeOrigin os h)
  varies_by-SomeOrigin ((c ∷ cs) ∷ os) (inl h) =
      elim (Bool-cases (same (origin_form platform (c ∷ cs)) (star ∷ []))) [
        | inl e ↦ absurd (h ((same_iff (origin_form platform (c ∷ cs)) (star ∷ [])).0 e))
        | inr e ↦ ground (arith, e)
      ]

  -- The rules that the set-up gives say so.
  pub http_cors-varies :
      (o : Options) (s : Options × Rules)
      → http_cors platform o ≡ ok s
      → DependsOnOrigin platform o
      → s.1.origin_varies ≡ true
  unfolding rules_of
  http_cors-varies o s e h =
      ap (λ z. z.1.origin_varies) (no_credentials platform o s e).0
      ∙ add_origins-varies (option_list o.origin ++ o.origins) (first_rules platform o)
          (varies_by-SomeOrigin o.origins h)
