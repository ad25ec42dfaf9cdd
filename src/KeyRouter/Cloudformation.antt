-- ===== src/KeyRouter/Cloudformation.antt =====
-- packages/cloudformation-router/index.js.
use middy.Prelude.{
  ◌≡◌, String, str_eq, Bool, ◌||◌, Option, none, some, List, [], ◌∷◌, Assoc, get, set, get-set,
  if◌then◌else◌, Outcome, ok, err, arith, Bool-cases, inl, inr,
}

pub record CloudformationRoute (H : Type 0) : Type 0 where
  pub request_type : String
  pub handler : H

pub data CloudformationError : Type 0 where
  invalid_request_route unknown_request_type : CloudformationError

-- The call that a request ends in, or what is thrown before it.
pub data CloudformationRouted (H : Type 0) : Type 0 where
  invoke : H → CloudformationRouted H
  not_found : String → CloudformationRouted H
  fails : CloudformationError → CloudformationRouted H

-- `requestTypesSet.has`
unfoldable pub is_request_type : String → Bool
is_request_type s = str_eq s "Create" || str_eq s "Update" || str_eq s "Delete"

module _ {H : Type 0} where
  -- The constructor's loop.
  unfoldable pub cloudformation_routes :
      List (CloudformationRoute H) → Assoc H → Outcome CloudformationError (Assoc H)
  unfolding is_request_type
  cloudformation_routes [] t = ok t
  cloudformation_routes (r ∷ rs) t =
      let rest = cloudformation_routes rs (set r.request_type r.handler t) in
      if is_request_type r.request_type then rest else err invalid_request_route

  abbrev pub find_cloudformation : Assoc H → String → CloudformationRouted H
  find_cloudformation t k = elim (get k t) [ none ↦ not_found k | some h ↦ invoke h ]

  -- The handler; an absent `RequestType` is `none`.
  unfoldable pub cloudformation_dispatch : Assoc H → Option String → CloudformationRouted H
  unfolding is_request_type
  cloudformation_dispatch t none = fails unknown_request_type
  cloudformation_dispatch t (some k) =
      if is_request_type k then find_cloudformation t k else fails unknown_request_type

  -- The handler of the last route for a type, or the one that is given.
  abbrev pub last_handler : String → List (CloudformationRoute H) → Option H → Option H
  last_handler k [] o = o
  last_handler k (r ∷ rs) o =
      last_handler k rs (if str_eq r.request_type k then some r.handler else o)

  cloudformation_routes-get :
      (rs : List (CloudformationRoute H)) (t t' : Assoc H) (k : String)
      → cloudformation_routes rs t ≡ ok t'
      → get k t' ≡ last_handler k rs (get k t)
  unfolding cloudformation_routes
  cloudformation_routes-get [] t t' k e = ground arith
  cloudformation_routes-get (r ∷ rs) t t' k e = elim (Bool-cases (is_request_type r.request_type)) [
    | inr h ↦ absurd (ground arith)
    | inl h ↦ ground (
      arith,
      cloudformation_routes-get rs (set r.request_type r.handler t) t' k,
      get-set r.request_type k r.handler t,
    )
  ]

  abbrev pub answer : String → Option H → CloudformationRouted H
  answer k none = not_found k
  answer k (some h) = invoke h

  -- Routes that are registered without a throw: a request of one of the three types calls the
  -- handler of the last route for it, and is not found if there is none; any other request throws.
  pub cloudformation_dispatch-routes :
      (rs : List (CloudformationRoute H)) (t : Assoc H) (k : String)
      → cloudformation_routes rs [] ≡ ok t
      → cloudformation_dispatch t (some k) ≡ (
          if is_request_type k
          then answer k (last_handler k rs none)
          else fails unknown_request_type)
  unfolding cloudformation_dispatch
  cloudformation_dispatch-routes rs t k e =
      let found = cloudformation_routes-get rs [] t k e in ground (arith, found)
