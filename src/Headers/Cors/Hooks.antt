-- ===== src/Headers/Cors/Hooks.antt =====
-- packages/http-cors/index.js: the headers of a response, and the three hooks.
use middy.Prelude.{
  Bool, true, false, ◌&&◌, ◌||◌, not, Option, none, some, is_some, or_default, List, [], ◌∷◌,
  if◌then◌else◌,
}
use middy.Texts.{Text, units, same, Table, lookup, insert}
use middy.Headers.Fields.{
  includes, truthy, split_on, join_with, trim, HttpEvent, header_value, header_list_value,
  read_event_headers, read_either, is_alb_multi_value, Shape, Returned, normalize_http_response,
}
use middy.Headers.Cors.Options.{Options, Rules, Platform}
use middy.Headers.Cors.Modify.{Headers, add_header_part, modify_headers, is_options_request}

-- `headers[key] = multiValueHeaders[key].join(", ")`
abbrev pub join_values : Table (List Text) → Headers → Headers
join_values [] hs = hs
join_values ((k, vs) ∷ m) hs = join_values m (insert k (join_with (units ", ") vs) hs)

-- The loop over the headers: those that were changed, and those that no array is kept of.
abbrev pub is_changed : Text → Text → Headers → Bool
is_changed k v old = elim (lookup k old) [ none ↦ true | some w ↦ not (same v w) ]

unfoldable pub part_headers :
    Headers → Headers → Table (List Text) → Headers → Headers × Table (List Text)
part_headers old [] multi singles = (singles, multi)
part_headers old ((k, v) ∷ hs) multi singles =
    let kept = if is_changed k v old then insert k (v ∷ []) multi else multi in
    part_headers old hs kept (if is_some (lookup k kept) then singles else insert k v singles)

-- `options.requestMethods?.length`
abbrev pub is_nonempty : Option (List Text) → Bool
is_nonempty none = false
is_nonempty (some []) = false
is_nonempty (some (t ∷ ts)) = true

abbrev pub safelisted : List Text
safelisted =
    units "accept"
    ∷ units "accept-language"
    ∷ units "content-language"
    ∷ units "content-type"
    ∷ units "range"
    ∷ []

abbrev pub is_allowed_method : Options → HttpEvent → Bool
is_allowed_method o e =
    elim (truthy (
      header_value (
        read_either (units "Access-Control-Request-Method") (units "access-control-request-method")
          (read_event_headers e)))) [
            | none ↦ true
            | some m ↦
                not (is_nonempty o.request_methods) || includes m (or_default o.request_methods [])
          ]

-- `{ [key]: [value] }` for every header.
abbrev pub singletons : Headers → Table (List Text)
singletons [] = []
singletons ((k, v) ∷ hs) = (k, v ∷ []) ∷ singletons hs

-- `setPreflightHeaders`, after the status code.
abbrev pub set_preflight : {B : Type 0} → HttpEvent → Headers → Shape B → Shape B
set_preflight e hs s =
    if is_alb_multi_value e
    then record s {
      status_code = some 204;
      headers = some [];
      multi_value_headers = some (singletons hs);
    }
    else record s { status_code = some 204; headers = some hs }

module _ (platform : Platform) where
  -- `addPreflightVary`
  unfoldable pub add_preflight_vary : Options → Headers → Headers
  unfolding add_header_part
  add_preflight_vary o hs =
      let varied =
        if is_nonempty o.request_methods
        then add_header_part platform (units "Vary") (some (units "Access-Control-Request-Method"))
            hs
        else hs in
      if is_nonempty o.request_headers
      then add_header_part platform (units "Vary") (some (units "Access-Control-Request-Headers"))
          varied
      else varied

  abbrev pub are_allowed : List Text → List Text → Bool
  are_allowed allowed [] = true
  are_allowed allowed (t ∷ ts) =
      (includes (platform.lower (trim t)) safelisted || includes (platform.lower (trim t)) allowed)
      && are_allowed allowed ts

  abbrev pub are_allowed_headers : Options → HttpEvent → Bool
  are_allowed_headers o e =
      elim (truthy (
        header_list_value (
          read_either (units "Access-Control-Request-Headers")
            (units "access-control-request-headers") (read_event_headers e)))) [
              | none ↦ true
              | some t ↦
                  not (is_nonempty o.request_headers)
                  || are_allowed (or_default o.request_headers []) (split_on b',' t)
            ]

  -- The headers of a rejected preflight.
  abbrev pub rejected_headers : Options → Rules → Headers
  rejected_headers o r = add_preflight_vary o (
      if r.origin_varies
      then add_header_part platform (units "Vary") (some (units "Origin")) []
      else [])

  module _ {B : Type 0} where
    -- `httpCorsMiddlewareBefore`: the early response, if it makes one.
    unfoldable pub cors_before :
        (Shape B → B) → Options → Rules → HttpEvent → Option (Returned B) → Option (Shape B)
    unfolding modify_headers add_preflight_vary normalize_http_response
    cors_before whole o r e response =
        let s = normalize_http_response whole response in
        if o.disable_before_preflight_response || not (is_options_request e)
        then none
        else if is_allowed_method o e && are_allowed_headers o e
        then some (set_preflight e (add_preflight_vary o (modify_headers platform o r e [])) s)
        else some (set_preflight e (rejected_headers o r) s)

    -- `httpCorsMiddlewareAfter`
    unfoldable pub cors_after :
        (Shape B → B) → Options → Rules → HttpEvent → Option (Returned B) → Shape B
    unfolding modify_headers normalize_http_response part_headers
    cors_after whole o r e response =
        let s = normalize_http_response whole response in
        let hs = or_default s.headers [] in
        if not (is_some s.multi_value_headers) && not (is_alb_multi_value e)
        then record s { headers = some (modify_headers platform o r e hs) }
        else (let multi = or_default s.multi_value_headers [] in
            let joined = join_values multi hs in
            let (singles, kept) =
              part_headers joined (modify_headers platform o r e joined) multi [] in
            record s { headers = some singles; multi_value_headers = some kept })

    -- `httpCorsMiddlewareOnError`
    unfoldable pub cors_on_error :
        (Shape B → B) → Options → Rules → HttpEvent → Option (Returned B) → Option (Shape B)
    unfolding cors_after
    cors_on_error whole o r e none = none
    cors_on_error whole o r e (some response) = some (cors_after whole o r e (some response))
