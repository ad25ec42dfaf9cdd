-- ===== src/HttpRouter/Dispatching.antt =====
-- packages/http-router/index.js: a registered static route is the one that its requests reach.
use middy.Prelude.{
  ℕ, ◌≡◌, refl, ap, sym, ◌∙◌, subst, Bool, true, false, some, List, [], ◌∷◌, ◌++◌, String, str_eq,
  eq_iff, arith, inl, inr, All, Bool-cases,
}
use middy.Texts.{Text, slash, lookup}
use middy.HttpRouter.Compile.{Compiled, done, throws}
use middy.HttpRouter.Routes.{
  Route, Tables, no_tables, static_table, is_dynamic, attach_route, add_route, add_routes,
}
use middy.HttpRouter.Event.{Event}
use middy.HttpRouter.Dispatch.{invoke, find_static, dispatch_to}
use middy.HttpRouter.Registering.{
  is_valid_path, strip_slash_valid, Has, attach_static_route-new, attach_static_route-kept,
  attach_route-static, attach_route-dynamic,
}

abbrev pub IsValidRoute : {H : Type 0} → Route H → Type 0
IsValidRoute r = is_valid_path r.path ≡ true

module _ {H : Type 0} (letter : Bool → ℕ → Bool) where
  add_route-attach_route :
      (r : Route H) (t t' : Tables H)
      → IsValidRoute r
      → add_route letter r t ≡ done t'
      → attach_route letter r.method r.path r.handler t ≡ done t'
  unfolding add_route
  add_route-attach_route r t t' v e =
      ap (λ p. attach_route letter r.method p r.handler t) (sym (strip_slash_valid r.path v)) ∙ e

  add_route-Has :
      (r : Route H) (t t' : Tables H)
      → IsValidRoute r
      → is_dynamic r.path ≡ false
      → add_route letter r t ≡ done t'
      → Has r.path r.handler (static_table r.method t')
  add_route-Has r t t' v d e =
      let (new, attached, table) =
        attach_route-static letter r.method r.method r.path r.handler t t'
          (add_route-attach_route r t t' v e) d in
      subst (Has r.path r.handler) {x = new} {y = static_table r.method t'}
        (ground (arith, table, eq_iff r.method r.method))
        (attach_static_route-new r.path r.handler (static_table r.method t) new attached)

  add_route-kept :
      (r : Route H) (p : Text) (h : H) (n : String) (t t' : Tables H)
      → IsValidRoute r
      → is_valid_path p ≡ true
      → add_route letter r t ≡ done t'
      → Has p h (static_table n t)
      → Has p h (static_table n t')
  add_route-kept r p h n t t' v vp e has =
      let attached = add_route-attach_route r t t' v e in
      elim (Bool-cases (is_dynamic r.path)) [
        | inl d ↦
            subst (Has p h)
              (sym (attach_route-dynamic letter r.method n r.path r.handler t t' attached d)) has
        | inr d ↦
            let (new, a, table) =
              attach_route-static letter r.method n r.path r.handler t t' attached d in
            elim (Bool-cases (str_eq r.method n)) [
              | inr other ↦
                  subst (Has p h) {x = static_table n t} {y = static_table n t'}
                    (ground (arith, table)) has
              | inl same ↦
                  subst (Has p h) {x = new} {y = static_table n t'} (ground (arith, table)) (
                    attach_static_route-kept p r.path h r.handler (static_table r.method t) new vp v
                      (subst (λ m. Has p h (static_table m t)) (sym ((eq_iff r.method n).0 same))
                        has)
                      a)
            ]
      ]

  -- A loop that does not throw does not in its first round.
  add_routes-cons :
      (r : Route H) (rs : List (Route H)) (t t' : Tables H) (c : Compiled (Tables H))
      → add_route letter r t ≡ c
      → add_routes letter (r ∷ rs) t ≡ done t'
      → (t₁ : Tables H) × (add_route letter r t ≡ done t₁) × (add_routes letter rs t₁ ≡ done t')
  unfolding add_routes
  add_routes-cons r rs t t' (throws x) a e = absurd (ground arith)
  add_routes-cons r rs t t' (done t₁) a e = (t₁, a, ground arith)

  add_routes-kept :
      (rs : List (Route H)) (p : Text) (h : H) (n : String) (t t' : Tables H)
      → All IsValidRoute rs
      → is_valid_path p ≡ true
      → add_routes letter rs t ≡ done t'
      → Has p h (static_table n t)
      → Has p h (static_table n t')
  unfolding add_routes
  add_routes-kept [] p h n t t' v vp e has =
      subst (λ u. Has p h (static_table n u)) {x = t} {y = t'} (ground arith) has
  add_routes-kept (r ∷ rs) p h n t t' v vp e has =
      let (t₁, first, rest) = add_routes-cons r rs t t' (add_route letter r t) refl e in
      add_routes-kept rs p h n t₁ t' v.1 vp rest (add_route-kept r p h n t t₁ v.0 vp first has)

  add_routes-Has :
      (pre post : List (Route H)) (r : Route H) (t t' : Tables H)
      → All IsValidRoute (pre ++ r ∷ post)
      → is_dynamic r.path ≡ false
      → add_routes letter (pre ++ r ∷ post) t ≡ done t'
      → Has r.path r.handler (static_table r.method t')
  add_routes-Has [] post r t t' v d e =
      let (t₁, first, rest) = add_routes-cons r post t t' (add_route letter r t) refl e in
      add_routes-kept post r.path r.handler r.method t₁ t' v.1 v.0 rest
        (add_route-Has r t t₁ v.0 d first)
  add_routes-Has (s ∷ pre) post r t t' v d e =
      let (t₁, first, rest) =
        add_routes-cons s (pre ++ r ∷ post) t t' (add_route letter s t) refl e in
      add_routes-Has pre post r t₁ t' v.1 d rest

dispatch_to-Has :
    {H : Type 0} (r : Route H) (t : Tables H) (path : Text) (e : Event) (encoded : Bool)
    → str_eq r.method "ANY" ≡ false
    → lookup path (static_table r.method t) ≡ some r.handler
    → dispatch_to t e encoded r.method path ≡ invoke r.handler e
unfolding dispatch_to find_static
dispatch_to-Has r t path e encoded any l = ground arith

-- A static route of a method other than ANY, among routes with paths as the schema asks for: once
-- all are registered without a throw, a request with its method and its path, or its path and a
-- slash, calls its handler on the event as it is, whatever the routes before and after it are.
pub static_route_round_trip :
    {H : Type 0} (letter : Bool → ℕ → Bool) (pre post : List (Route H)) (r : Route H) (t : Tables H)
    (e : Event) (encoded : Bool)
    → All IsValidRoute (pre ++ r ∷ post)
    → is_dynamic r.path ≡ false
    → str_eq r.method "ANY" ≡ false
    → add_routes letter (pre ++ r ∷ post) no_tables ≡ done t
    → (dispatch_to t e encoded r.method r.path ≡ invoke r.handler e)
      × (dispatch_to t e encoded r.method (r.path ++ slash ∷ []) ≡ invoke r.handler e)
static_route_round_trip letter pre post r t e encoded v d any added =
    let (plain, slashed) = add_routes-Has letter pre post r no_tables t v d added in
    (
      dispatch_to-Has r t r.path e encoded any plain,
      dispatch_to-Has r t (r.path ++ slash ∷ []) e encoded any slashed,
    )
