-- ===== src/Headers/Cors/Pairing.antt =====
-- packages/http-cors/index.js: the two headers of credentials and origin, where none was set before.
use middy.Prelude.{
  ◌≡◌, refl, ◌∙◌, inl, inr, Bool, true, false, Option, none, some, [], ◌∷◌, arith, Bool-cases,
  if◌then◌else◌, ap, is_some,
}
use middy.Texts.{Text, units, same, same_iff, lookup, insert, lookup-insert}
use middy.Headers.Fields.{truthy, HttpEvent, or_else}
use middy.Headers.Cors.Options.{
  Options, Rules, Platform, Credentials, credentials_string, is_truthy,
}
use middy.Headers.Cors.Modify.{
  Headers, put_header, find_key, put_absent, put_credentials, new_origin, first_headers,
  vary_headers, modify_headers,
}
use middy.Headers.Cors.Frame.{
  LowersVary, lookup-put_header, lookup-put_absent, lookup-vary_headers, lookup-last_headers,
}

lookup_only :
    (b : Bool) (k v : Text) (hs : Headers)
    → same k k ≡ true
    → lookup k hs ≡ none
    → lookup k (if b then insert k v hs else hs) ≡ (if b then some v else none)
lookup_only true k v hs h e = ground (arith, h, lookup-insert k k v hs)
lookup_only false k v hs h e = e

lookup_other :
    (b : Bool) (k j v : Text) (hs : Headers)
    → same k j ≡ false
    → lookup j hs ≡ none
    → lookup j (if b then insert k v hs else hs) ≡ none
lookup_other true k j v hs h e = ground (arith, h, e, lookup-insert k j v hs)
lookup_other false k j v hs h e = e

lookup-put_header_same :
    (k : Text) (v : Option Text) (hs : Headers)
    → same k k ≡ true
    → lookup k hs ≡ none
    → lookup k (put_header k v hs) ≡ v
lookup-put_header_same k none hs h e = e
lookup-put_header_same k (some v) hs h e = ground (arith, lookup-insert k k v hs, h)

not_found : (a b : Option Text) → or_else a b ≡ none → a ≡ none
not_found none b e = refl
not_found (some x) b e = absurd cc

found_key :
    (a : Option Text) (b : Bool) (j : Text)
    → b ≡ true
    → or_else a (if b then some j else none) ≡ none
    → ⊥
found_key none true j h e = absurd cc
found_key none false j h e = absurd cc
found_key (some x) b j h e = absurd cc

module _ (platform : Platform) where
  -- A header that is not there in any casing.
  lookup-absent :
      (k name : Text) (hs : Headers)
      → platform.lower k ≡ name
      → find_key platform name hs ≡ none
      → lookup k hs ≡ none
  unfolding find_key
  lookup-absent k name [] l e = refl
  lookup-absent k name ((j, v) ∷ hs) l e = elim (Bool-cases (same j k)) [
    | inl b ↦
        let q : platform.lower j ≡ name = ap platform.lower ((same_iff j k).0 b) ∙ l in
        absurd (
          found_key (find_key platform name hs) (same (platform.lower j) name) j
            ((same_iff (platform.lower j) name).1 q) e)
    | inr b ↦ ground (
      arith,
      b,
      lookup-absent k name hs l (
          not_found (find_key platform name hs)
            (if same (platform.lower j) name then some j else none) e),
    )
  ]

  -- Neither of the two headers has been set, and the platform gives their names in lower case.
  abbrev pub HasNeither : Headers → Type 0
  HasNeither before =
      ((platform.lower (units "Access-Control-Allow-Credentials")
          ≡ units "access-control-allow-credentials")
        × (find_key platform (units "access-control-allow-credentials") before ≡ none))
      × ((platform.lower (units "Access-Control-Allow-Origin")
            ≡ units "access-control-allow-origin")
          × (find_key platform (units "access-control-allow-origin") before ≡ none))

  put_credentials-absent :
      (before : Headers) (c : Credentials)
      → find_key platform (units "access-control-allow-credentials") before ≡ none
      → put_credentials platform before c before ≡ (
          if is_truthy c
          then insert (units "Access-Control-Allow-Credentials") (credentials_string c) before
          else before)
  put_credentials-absent before c m =
      ap
        (λ x.
          if is_some x
          then before
          else if is_truthy c
          then insert (units "Access-Control-Allow-Credentials") (credentials_string c) before
          else before)
        m

  pub lookup_credentials :
      (o : Options) (r : Rules) (e : HttpEvent) (before : Headers)
      → LowersVary platform
      → HasNeither before
      → lookup (units "Access-Control-Allow-Credentials") (modify_headers platform o r e before)
        ≡ (if is_truthy o.credentials then some (credentials_string o.credentials) else none)
  unfolding modify_headers
  lookup_credentials o r e before h ((l, m), (x, y)) =
      let k = units "Access-Control-Allow-Credentials" in
      let origin = new_origin platform o r e before in
      let credited = put_credentials platform before o.credentials before in
      let named =
        put_absent platform before (units "access-control-allow-headers")
          (units "Access-Control-Allow-Headers") o.headers credited in
      let first = first_headers platform o before in
      let placed = put_header (units "Access-Control-Allow-Origin") (truthy origin) first in
      lookup-last_headers platform o e before k (vary_headers platform o r before origin placed)
        refl refl refl
      ∙ lookup-vary_headers platform o r before origin k placed h refl
      ∙ lookup-put_header (units "Access-Control-Allow-Origin") k (truthy origin) first refl
      ∙ lookup-put_absent platform before (units "access-control-allow-methods")
          (units "Access-Control-Allow-Methods") k o.methods named refl
      ∙ lookup-put_absent platform before (units "access-control-allow-headers")
          (units "Access-Control-Allow-Headers") k o.headers credited refl
      ∙ ap (lookup k) (put_credentials-absent before o.credentials m)
      ∙ lookup_only (is_truthy o.credentials) k (credentials_string o.credentials) before refl
          (lookup-absent k (units "access-control-allow-credentials") before l m)

  pub lookup_origin :
      (o : Options) (r : Rules) (e : HttpEvent) (before : Headers)
      → LowersVary platform
      → HasNeither before
      → lookup (units "Access-Control-Allow-Origin") (modify_headers platform o r e before)
        ≡ truthy (new_origin platform o r e before)
  unfolding modify_headers
  lookup_origin o r e before h ((l, m), (x, y)) =
      let k = units "Access-Control-Allow-Origin" in
      let origin = new_origin platform o r e before in
      let credited = put_credentials platform before o.credentials before in
      let named =
        put_absent platform before (units "access-control-allow-headers")
          (units "Access-Control-Allow-Headers") o.headers credited in
      let first = first_headers platform o before in
      let placed = put_header k (truthy origin) first in
      lookup-last_headers platform o e before k (vary_headers platform o r before origin placed)
        refl refl refl
      ∙ lookup-vary_headers platform o r before origin k placed h refl
      ∙ lookup-put_header_same k (truthy origin) first refl (
          lookup-put_absent platform before (units "access-control-allow-methods")
            (units "Access-Control-Allow-Methods") k o.methods named refl
          ∙ lookup-put_absent platform before (units "access-control-allow-headers")
              (units "Access-Control-Allow-Headers") k o.headers credited refl
          ∙ ap (lookup k) (put_credentials-absent before o.credentials m)
          ∙ lookup_other (is_truthy o.credentials) (units "Access-Control-Allow-Credentials") k
              (credentials_string o.credentials) before refl
              (lookup-absent k (units "access-control-allow-origin") before x y))
