-- ===== src/Headers/Cors/Allowed.antt =====
-- packages/http-cors/index.js: which origins `getOrigin` lets pass.
use middy.Prelude.{
  ◌≡◌, refl, sym, ◌∙◌, subst, ◌⊎◌, inl, inr, ◌≢◌, Bool, true, false, ◌||◌, ◌&&◌, not, some, List,
  [], ◌∷◌, ◌++◌, arith, Bool-cases,
}
use middy.Texts.{Text, same, same_iff}
use middy.Headers.Fields.{includes}
use middy.Headers.Cors.Origins.{star, matches_pattern}
use middy.Headers.Cors.Matching.{Fills, matches_pattern_iff}
use middy.Headers.Cors.Options.{
  Options, Rules, Platform, any_star, add_origin, add_origins, option_list, origin_form, rules_of,
  any_match, get_origin,
}

-- What the rules let pass, and what one origin does that is not `*`.
abbrev rules_permit : Rules → Text → Bool
rules_permit r t = includes t r.origin_static || any_match r.origin_dynamic t

abbrev permits : Text → Text → Bool
permits o t = not (same o (star ∷ [])) && matches_pattern o t

abbrev pub any_origin : Platform → (Text → Bool) → List Text → Bool
any_origin platform f [] = false
any_origin platform f ([] ∷ os) = any_origin platform f os
any_origin platform f ((c ∷ cs) ∷ os) =
    f (origin_form platform (c ∷ cs)) || any_origin platform f os

any_match-append :
    (ps : List Text) (o t : Text)
    → any_match (ps ++ o ∷ []) t ≡ (any_match ps t || matches_pattern o t)
any_match-append [] o t = ground arith
any_match-append (p ∷ ps) o t = ground (arith, any_match-append ps o t)

-- Without `*`, only the origin itself is matched.
matches_pattern-plain : (o t : Text) → any_star o ≡ false → matches_pattern o t ≡ same o t
unfolding matches_pattern
matches_pattern-plain [] [] h = refl
matches_pattern-plain [] (c ∷ cs) h = refl
matches_pattern-plain (p ∷ ps) [] h = ground arith
matches_pattern-plain (p ∷ ps) (c ∷ cs) h =
    ground (arith, matches_pattern-plain ps cs (ground (arith, h)))

same_sym : (s t : Text) → same s t ≡ same t s
same_sym s t = ground (arith, same_iff s t, same_iff t s)

add_origin-rules_permit :
    (o t : Text) (r : Rules) → rules_permit (add_origin o r) t ≡ (rules_permit r t || permits o t)
unfolding add_origin
add_origin-rules_permit o t r = elim (Bool-cases (same o (star ∷ []))) [
  | inl h ↦ ground (arith, h)
  | inr h ↦ elim (Bool-cases (any_star o)) [
    | inl g ↦ ground (arith, h, g, any_match-append r.origin_dynamic o t)
    | inr g ↦ ground (arith, h, g, matches_pattern-plain o t g, same_sym o t)
  ]
]

add_origin-any :
    (o : Text) (r : Rules) → (add_origin o r).origin_any ≡ (r.origin_any || same o (star ∷ []))
unfolding add_origin
add_origin-any o r = ground arith

module _ (platform : Platform) where
  add_origins-rules_permit :
      (os : List Text) (t : Text) (r : Rules)
      → rules_permit (add_origins platform os r) t
        ≡ (rules_permit r t || any_origin platform (λ o. permits o t) os)
  unfolding add_origins
  add_origins-rules_permit [] t r = ground arith
  add_origins-rules_permit ([] ∷ os) t r = add_origins-rules_permit os t r
  add_origins-rules_permit ((c ∷ cs) ∷ os) t r = ground (
    arith,
    add_origins-rules_permit os t (add_origin (origin_form platform (c ∷ cs)) r),
    add_origin-rules_permit (origin_form platform (c ∷ cs)) t r,
  )

  add_origins-any :
      (os : List Text) (r : Rules)
      → (add_origins platform os r).origin_any
        ≡ (r.origin_any || any_origin platform (λ o. same o (star ∷ [])) os)
  unfolding add_origins
  add_origins-any [] r = ground arith
  add_origins-any ([] ∷ os) r = add_origins-any os r
  add_origins-any ((c ∷ cs) ∷ os) r = ground (
    arith,
    add_origins-any os (add_origin (origin_form platform (c ∷ cs)) r),
    add_origin-any (origin_form platform (c ∷ cs)) r,
  )

abbrev pub configured_origins : Options → List Text
configured_origins o = option_list o.origin ++ o.origins

-- An origin of the options that is not empty, in its form, satisfies the predicate.
abbrev pub SomeOrigin : Platform → (Text → Type 0) → List Text → Type 0
SomeOrigin platform P [] = ⊥
SomeOrigin platform P ([] ∷ os) = SomeOrigin platform P os
SomeOrigin platform P ((c ∷ cs) ∷ os) = P (origin_form platform (c ∷ cs)) ⊎ SomeOrigin platform P os

-- The text fills an origin that is not `*` itself.
abbrev pub Permits : Text → Text → Type 0
Permits t o = (o ≢ star ∷ []) × Fills o t

-- What a request with an Origin header may be answered with.
abbrev pub IsAllowed : Platform → Options → Text → Text → Type 0
IsAllowed platform o x t =
    ((t ≡ origin_form platform x) × SomeOrigin platform (Permits t) (configured_origins o))
    ⊎ ((t ≡ star ∷ []) × SomeOrigin platform (λ q. q ≡ star ∷ []) (configured_origins o))

or-true : (a b : Bool) → (a || b) ≡ true → (a ≡ true) ⊎ (b ≡ true)
or-true true b e = inl refl
or-true false b e = inr e

permits-Permits : (o t : Text) → permits o t ≡ true → Permits t o
permits-Permits o t e = (
  λ h. ground (arith, e, same_iff o (star ∷ [])),
  (matches_pattern_iff o t).0 (ground (arith, e)),
)

module _ (platform : Platform) where
  SomeOrigin-any_origin :
      (f : Text → Bool) (P : Text → Type 0) (os : List Text)
      → ((q : Text) → f q ≡ true → P q)
      → any_origin platform f os ≡ true
      → SomeOrigin platform P os
  SomeOrigin-any_origin f P [] h e = absurd cc
  SomeOrigin-any_origin f P ([] ∷ os) h e = SomeOrigin-any_origin f P os h e
  SomeOrigin-any_origin f P ((c ∷ cs) ∷ os) h e =
      elim (or-true (f (origin_form platform (c ∷ cs))) (any_origin platform f os) e) [
        | inl a ↦ inl (h (origin_form platform (c ∷ cs)) a)
        | inr b ↦ inr (SomeOrigin-any_origin f P os h b)
      ]

  pub any_origin-SomeOrigin :
      (f : Text → Bool) (P : Text → Type 0) (os : List Text)
      → ((q : Text) → P q → f q ≡ true)
      → SomeOrigin platform P os
      → any_origin platform f os ≡ true
  any_origin-SomeOrigin f P [] h e = absurd e
  any_origin-SomeOrigin f P ([] ∷ os) h e = any_origin-SomeOrigin f P os h e
  any_origin-SomeOrigin f P ((c ∷ cs) ∷ os) h (inl a) =
      ground (arith, h (origin_form platform (c ∷ cs)) a)
  any_origin-SomeOrigin f P ((c ∷ cs) ∷ os) h (inr b) =
      ground (arith, any_origin-SomeOrigin f P os h b)

  rules_of-rules_permit :
      (o : Options) (t : Text)
      → rules_permit (rules_of platform o) t
        ≡ any_origin platform (λ q. permits q t) (configured_origins o)
  unfolding rules_of
  rules_of-rules_permit o t = add_origins-rules_permit platform (configured_origins o) t _

  pub rules_of-any :
      (o : Options)
      → (rules_of platform o).origin_any
        ≡ any_origin platform (λ q. same q (star ∷ [])) (configured_origins o)
  unfolding rules_of
  rules_of-any o = add_origins-any platform (configured_origins o) _

  allow_pattern :
      (o : Options) (x : Text)
      → rules_permit (rules_of platform o) (origin_form platform x) ≡ true
      → IsAllowed platform o x (origin_form platform x)
  allow_pattern o x e =
      let t = origin_form platform x in
      inl (
        refl,
        SomeOrigin-any_origin (λ q. permits q t) (Permits t) (configured_origins o)
            (λ q. permits-Permits q t) (sym (rules_of-rules_permit o t) ∙ e),
      )

  allow_any :
      (o : Options) (x : Text)
      → (rules_of platform o).origin_any ≡ true
      → IsAllowed platform o x (star ∷ [])
  allow_any o x e = inr (
    refl,
    SomeOrigin-any_origin (λ q. same q (star ∷ [])) (λ q. q ≡ star ∷ []) (configured_origins o)
        (λ q. (same_iff q (star ∷ [])).0) (sym (rules_of-any o) ∙ e),
  )

-- With a list of origins, `getOrigin` answers an Origin header only with `*`, where `*` is one of
-- the origins, or with the header's origin in its form, where that is an origin of the options or
-- fills one with a text without dots for each `*`.
pub get_origin-IsAllowed :
    (platform : Platform) (o : Options) (x t e : Text) (es : List Text)
    → o.origins ≡ e ∷ es
    → get_origin platform o (rules_of platform o) (some x) ≡ some t
    → IsAllowed platform o x t
unfolding get_origin
get_origin-IsAllowed platform o x t e es h g =
    let r = rules_of platform o in
    let i = origin_form platform x in
    elim (Bool-cases (includes i r.origin_static)) [
      | inl a ↦
          subst (IsAllowed platform o x) {x = i} {y = t} (ground (arith, h, g, a))
            (allow_pattern platform o x (ground (arith, a)))
      | inr a ↦ elim (Bool-cases r.origin_any) [
        | inl b ↦
            subst (IsAllowed platform o x) {x = star ∷ []} {y = t} (ground (arith, h, g, a, b))
              (allow_any platform o x b)
        | inr b ↦ elim (Bool-cases (any_match r.origin_dynamic i)) [
          | inl c ↦
              subst (IsAllowed platform o x) {x = i} {y = t} (ground (arith, h, g, a, b, c))
                (allow_pattern platform o x (ground (arith, a, c)))
          | inr c ↦ absurd (ground (arith, h, g, a, b, c))
        ]
      ]
    ]

Permits-permits : (o t : Text) → Permits t o → permits o t ≡ true
Permits-permits o t (n, f) = elim (Bool-cases (same o (star ∷ []))) [
  | inl e ↦ absurd (n ((same_iff o (star ∷ [])).0 e))
  | inr e ↦ ground (arith, e, (matches_pattern_iff o t).1 f)
]

-- With a list of origins and no `*` among them, an Origin header that the options permit comes back
-- in its form.
pub get_origin-permitted :
    (platform : Platform) (o : Options) (x e : Text) (es : List Text)
    → o.origins ≡ e ∷ es
    → ¬ SomeOrigin platform (λ q. q ≡ star ∷ []) (configured_origins o)
    → SomeOrigin platform (Permits (origin_form platform x)) (configured_origins o)
    → get_origin platform o (rules_of platform o) (some x) ≡ some (origin_form platform x)
unfolding get_origin
get_origin-permitted platform o x e es h n p =
    let r = rules_of platform o in
    let i = origin_form platform x in
    let k : any_origin platform (λ q. permits q i) (configured_origins o) ≡ true =
      any_origin-SomeOrigin platform (λ q. permits q i) (Permits i) (configured_origins o)
        (λ q. Permits-permits q i) p in
    elim (Bool-cases r.origin_any) [
      | inl b ↦ absurd (
          n (
            SomeOrigin-any_origin platform (λ q. same q (star ∷ [])) (λ q. q ≡ star ∷ [])
              (configured_origins o) (λ q. (same_iff q (star ∷ [])).0)
              (sym (rules_of-any platform o) ∙ b)))
      | inr b ↦ ground (arith, h, b, k, rules_of-rules_permit platform o i)
    ]
