-- ===== src/KeyRouter/Ws.antt =====
-- packages/ws-router/index.js.
use middy.Prelude.{
  ◌≡◌, String, str_eq, eq_iff, false, Option, none, some, List, [], ◌∷◌, ◌++◌, append-nil, length,
  ◌≤◌, sym, subst, Assoc, get, has, set, get-set, if◌then◌else◌, Outcome, ok, err, arith,
  Option-cases, inl, inr,
}

-- A route; a key that is no string is `none`.
pub record WsRoute (H : Type 0) : Type 0 where
  pub route_key : Option String
  pub handler : H

pub data WsError : Type 0 where
  invalid_route duplicate_route missing_route_key : WsError

-- The call that a request ends in, or what is thrown before it.
pub data WsRouted (H : Type 0) : Type 0 where
  invoke : H → WsRouted H
  not_found : String → WsRouted H
  fails : WsError → WsRouted H

module _ {H : Type 0} where
  -- The constructor's loop.
  unfoldable pub ws_routes : List (WsRoute H) → Assoc H → Outcome WsError (Assoc H)
  ws_routes [] t = ok t
  ws_routes (r ∷ rs) t = elim r.route_key [
    | none ↦ err invalid_route
    | some k ↦
        let rest = ws_routes rs (set k r.handler t) in if has k t then err duplicate_route else rest
  ]

  abbrev pub find_ws : Assoc H → String → WsRouted H
  find_ws t k = elim (get k t) [ none ↦ not_found k | some h ↦ invoke h ]

  -- The handler: a key that is absent or empty is no WebSocket event.
  unfoldable pub ws_dispatch : Assoc H → Option String → WsRouted H
  ws_dispatch t none = fails missing_route_key
  ws_dispatch t (some k) = if str_eq k "" then fails missing_route_key else find_ws t k

  -- The routes of a list that have a key.
  abbrev pub handlers_of : String → List (WsRoute H) → List H
  handlers_of k [] = []
  handlers_of k (r ∷ rs) =
      let rest = handlers_of k rs in
      elim r.route_key [ none ↦ rest | some j ↦ if str_eq j k then r.handler ∷ rest else rest ]

  abbrev pub option_list : Option H → List H
  option_list none = []
  option_list (some h) = h ∷ []

  ws_routes-get :
      (rs : List (WsRoute H)) (t t' : Assoc H) (k : String)
      → ws_routes rs t ≡ ok t'
      → option_list (get k t') ≡ option_list (get k t) ++ handlers_of k rs
  unfolding ws_routes
  ws_routes-get [] t t' k e =
      subst (λ u. option_list (get k u) ≡ option_list (get k t) ++ []) {x = t} {y = t'}
        (ground arith) (sym (append-nil (option_list (get k t))))
  ws_routes-get (r ∷ rs) t t' k e = elim (Option-cases r.route_key) [
    | inl h ↦ absurd (ground arith)
    | inr (j, h) ↦ elim (Option-cases (get j t)) [
      | inr (taken, g) ↦ absurd (ground arith)
      | inl free ↦
          ground
            (arith, ws_routes-get rs (set j r.handler t) t' k, get-set j k r.handler t, eq_iff j k)
    ]
  ]

  abbrev pub answer : String → List H → WsRouted H
  answer k [] = not_found k
  answer k (h ∷ hs) = invoke h

  find_ws-answer :
      (t : Assoc H) (k : String) (hs : List H)
      → option_list (get k t) ≡ hs
      → find_ws t k ≡ answer k hs
  find_ws-answer t k hs e = ground arith

  option_list-length : (o : Option H) (hs : List H) → option_list o ≡ hs → length hs ≤ 1
  option_list-length none hs e = ground arith
  option_list-length (some h) hs e = ground arith

  -- Routes that are registered without a throw. No key has two handlers; a request with a key that
  -- is not empty calls the handler that is registered for it, wherever in the list that is, and is
  -- not found if there is none.
  pub ws_dispatch-ws_routes :
      (rs : List (WsRoute H)) (t : Assoc H) (k : String)
      → ws_routes rs [] ≡ ok t
      → str_eq k "" ≡ false
      → (length (handlers_of k rs) ≤ 1) × (ws_dispatch t (some k) ≡ answer k (handlers_of k rs))
  unfolding ws_dispatch
  ws_dispatch-ws_routes rs t k e n =
      let found = ws_routes-get rs [] t k e in
      let answered = find_ws-answer t k (handlers_of k rs) found in
      (option_list-length (get k t) (handlers_of k rs) found, ground (arith, n, answered))
