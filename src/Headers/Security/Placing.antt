-- ===== src/Headers/Security/Placing.antt =====
-- packages/http-security-headers/index.js: what a client sees of the headers after the hook.
use middy.Prelude.{
  ◌≡◌, refl, ap, ◌∙◌, Bool, true, false, ◌&&◌, not, Option, none, some, is_some, or_default, List,
  [], ◌∷◌, arith, Bool-cases, inl, inr, if◌then◌else◌,
}
use middy.Texts.{Text, same, same_iff, same→eq, Table, lookup, insert, lookup-insert}
use middy.Headers.Fields.{
  or_else, includes, HttpEvent, is_alb_multi_value, Shape, Returned, normalize_http_response,
}
use middy.Headers.Security.Policies.{Policies, Setting}
use middy.Headers.Security.Hooks.{
  settings, put_settings, precomputed_headers, assign_all, in_arrays, replaced_names,
  without_header_names, set_headers, security_after,
}

-- No key twice.
abbrev pub IsDistinct : {V : Type 0} → Table V → Type 0
IsDistinct [] = true ≡ true
IsDistinct ((k, v) ∷ m) = (lookup k m ≡ none) × IsDistinct m

insert-IsDistinct :
    {V : Type 0} (k : Text) (v : V) (m : Table V) → IsDistinct m → IsDistinct (insert k v m)
insert-IsDistinct k v [] d = (refl, refl)
insert-IsDistinct k v ((j, w) ∷ m) (a, d) = elim (Bool-cases (same j k)) [
  | inl h ↦ ground (arith, h, a, d, same_iff j k)
  | inr h ↦
      ground
        (arith, h, a, lookup-insert k j v m, same_iff j k, same_iff k j, insert-IsDistinct k v m d)
]

put_settings-IsDistinct :
    (ss : List Setting) (m : Table Text) → IsDistinct m → IsDistinct (put_settings ss m)
put_settings-IsDistinct [] m d = d
put_settings-IsDistinct (none ∷ ss) m d = put_settings-IsDistinct ss m d
put_settings-IsDistinct (some (k, v) ∷ ss) m d =
    put_settings-IsDistinct ss (insert k v m) (insert-IsDistinct k v m d)

pub precomputed_headers-IsDistinct :
    (upper : Text → Text) (p : Policies) → IsDistinct (precomputed_headers upper p)
unfolding precomputed_headers
precomputed_headers-IsDistinct upper p = put_settings-IsDistinct (settings upper p) [] refl

lookup-assign_all :
    {V : Type 0} (k : Text) (m others : Table V)
    → IsDistinct others
    → lookup k (assign_all m others) ≡ or_else (lookup k others) (lookup k m)
lookup-assign_all k m [] d = refl
lookup-assign_all k m ((j, v) ∷ others) (a, d) = elim (Bool-cases (same j k)) [
  | inl h ↦ ground (
    arith,
    h,
    lookup-assign_all k (insert j v m) others d,
    lookup-insert j k v m,
    same_iff j k,
    a,
  )
  | inr h ↦ ground (arith, h, lookup-assign_all k (insert j v m) others d, lookup-insert j k v m)
]

abbrev pub in_array : Option Text → Option (List Text)
in_array none = none
in_array (some v) = some (v ∷ [])

lookup-in_arrays : (k : Text) (m : Table Text) → lookup k (in_arrays m) ≡ in_array (lookup k m)
lookup-in_arrays k [] = refl
lookup-in_arrays k ((j, v) ∷ m) = ground (arith, lookup-in_arrays k m)

in_arrays-IsDistinct : (m : Table Text) → IsDistinct m → IsDistinct (in_arrays m)
in_arrays-IsDistinct [] d = refl
in_arrays-IsDistinct ((k, v) ∷ m) (a, d) =
    (lookup-in_arrays k m ∙ ap in_array a, in_arrays-IsDistinct m d)

-- What a client reads of a header: `multiValueHeaders` goes before `headers`.
abbrev pub sent : {B : Type 0} → Shape B → Text → Option (List Text)
sent s k =
    or_else (lookup k (or_default s.multi_value_headers []))
      (in_array (lookup k (or_default s.headers [])))

module _ (lower : Text → Text) where
  lookup-without_header_names :
      {V : Type 0} (k : Text) (m : Table V) (names : List Text)
      → lookup k (without_header_names lower m names)
        ≡ (if includes (lower k) names then none else lookup k m)
  unfolding without_header_names
  lookup-without_header_names k [] names = ground arith
  lookup-without_header_names k ((j, v) ∷ m) names = elim (Bool-cases (same j k)) [
    | inl h ↦ ground (
      arith,
      h,
      lookup-without_header_names k m names,
      ap (λ t. includes (lower t) names) (same→eq j k h),
    )
    | inr h ↦ ground (arith, h, lookup-without_header_names k m names)
  ]

  or_else-in_array :
      (a b : Option Text) → in_array (or_else a b) ≡ or_else (in_array a) (in_array b)
  or_else-in_array none b = refl
  or_else-in_array (some a) b = refl

  in_array-if :
      (b : Bool) (o : Option Text)
      → in_array (if b then none else o) ≡ (if b then none else in_array o)
  in_array-if true o = refl
  in_array-if false o = refl

  merge :
      (a m : Option (List Text)) (h : Option Text) (b : Bool) (x : Option (List Text))
      (y : Option Text)
      → x ≡ or_else a (if b then none else m)
      → y ≡ (if b then none else h)
      → or_else x (in_array y) ≡ or_else a (if b then none else or_else m (in_array h))
  merge (some a) m h b x y e f = cc
  merge none m h true x y e f = cc
  merge none m h false x y e f = cc

  -- The two places of the headers, as the hook leaves them.
  sent_singly :
      (k : Text) (hs added : Table Text) (names : List Text)
      → IsDistinct added
      → in_array (lookup k (assign_all (without_header_names lower hs names) added))
        ≡ or_else
            (in_array (lookup k added))
            (if includes (lower k) names then none else in_array (lookup k hs))
  sent_singly k hs added names d =
      ap in_array (
        lookup-assign_all k (without_header_names lower hs names) added d
        ∙ ap (or_else (lookup k added)) (lookup-without_header_names k hs names))
      ∙ or_else-in_array (lookup k added) (if includes (lower k) names then none else lookup k hs)
      ∙ ap (or_else (in_array (lookup k added)))
          (in_array-if (includes (lower k) names) (lookup k hs))

  sent_in_arrays :
      (k : Text) (hs added : Table Text) (multi : Table (List Text)) (names : List Text)
      → IsDistinct added
      → or_else
          (lookup k (assign_all (without_header_names lower multi names) (in_arrays added)))
          (in_array (lookup k (without_header_names lower hs names)))
        ≡ or_else (in_array (lookup k added)) (
            if includes (lower k) names
            then none
            else or_else (lookup k multi) (in_array (lookup k hs)))
  sent_in_arrays k hs added multi names d =
      merge (in_array (lookup k added)) (lookup k multi) (lookup k hs) (includes (lower k) names) _
        _
        (lookup-assign_all k (without_header_names lower multi names) (in_arrays added)
            (in_arrays-IsDistinct added d)
          ∙ ap (λ o. or_else o (lookup k (without_header_names lower multi names)))
              (lookup-in_arrays k added)
          ∙ ap (or_else (in_array (lookup k added))) (lookup-without_header_names k multi names))
        (lookup-without_header_names k hs names)

  sent-set_headers :
      {B : Type 0} (single : Bool) (added : Table Text) (names : List Text) (s : Shape B) (k : Text)
      → IsDistinct added
      → (single ≡ true → s.multi_value_headers ≡ none)
      → sent (set_headers lower added single names s) k
        ≡ or_else (in_array (lookup k added)) (if includes (lower k) names then none else sent s k)
  sent-set_headers true added names s k d h =
      ground (arith, h refl, sent_singly k (or_default s.headers []) added names d)
  sent-set_headers false added names s k d h =
      sent_in_arrays k (or_default s.headers []) added (or_default s.multi_value_headers []) names d

none_left : {A : Type 0} (o : Option A) (b : Bool) → (not (is_some o) && b) ≡ true → o ≡ none
none_left none b e = refl
none_left (some a) b e = absurd cc

-- On every response that the hook leaves, a header that the middleware sets has the one value that
-- it computed for it; any other header of a name that it sets, in any casing, or of the two names
-- that `poweredBy` removes, is gone; and every other header is what it was in the normalised response.
-- A client reads `multiValueHeaders` before `headers`.
pub sent-security_after :
    {B : Type 0} (lower upper : Text → Text) (whole : Shape B → B) (p : Policies) (e : HttpEvent)
    (response : Option (Returned B)) (k : Text)
    → sent (security_after lower whole p.powered_by (precomputed_headers upper p) e response) k
      ≡ or_else (in_array (lookup k (precomputed_headers upper p))) (
          if includes (lower k) (replaced_names lower p.powered_by (precomputed_headers upper p))
          then none
          else sent (normalize_http_response whole response) k)
unfolding security_after
sent-security_after lower upper whole p e response k =
    let s = normalize_http_response whole response in
    let added = precomputed_headers upper p in
    sent-set_headers lower (not (is_some s.multi_value_headers) && not (is_alb_multi_value e)) added
      (replaced_names lower p.powered_by added) s k (precomputed_headers-IsDistinct upper p)
      (none_left s.multi_value_headers (not (is_alb_multi_value e)))
