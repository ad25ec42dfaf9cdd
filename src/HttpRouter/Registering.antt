-- ===== src/HttpRouter/Registering.antt =====
-- packages/http-router/index.js: static routes, from registration to dispatch.
use middy.Prelude.{
  ℕ, ◌≡◌, ◌≢◌, refl, ap, sym, ◌∙◌, subst, Bool, true, false, not, ◌&&◌, ◌||◌, none, some, List, [],
  ◌∷◌, ◌++◌, String, str_eq, eq_iff, get-set, arith, ◌==◌, if◌then◌else◌, inl, inr, Bool-cases,
  Option-cases,
}
use middy.Texts.{
  Text, slash, same, same_refl, same→eq, same_iff, ends_in_slash, Table, lookup, insert,
  lookup-insert,
}
use middy.HttpRouter.Compile.{Compiled, done, throws, compile_dynamic_route, DynamicRoute}
use middy.HttpRouter.Routes.{
  attach_route, Tables, static_table, dynamic_table, is_dynamic, strip_slash, attach_static_route,
  attach_dynamic_route, put_static, put_dynamic, attach_compiled, includes, all_methods,
}

-- What the schema asks of a path: it starts with a slash, and ends with none unless it is one.
abbrev pub starts_with_slash : Text → Bool
starts_with_slash [] = false
starts_with_slash (c ∷ cs) = c == slash

abbrev pub is_valid_path : Text → Bool
is_valid_path p = starts_with_slash p && (same p (slash ∷ []) || not (ends_in_slash false p))

pub strip_slash_valid : (p : Text) → is_valid_path p ≡ true → strip_slash p ≡ p
unfolding strip_slash
strip_slash_valid p h = ground arith

ends_in_slash-slash : (b : Bool) (p : Text) → ends_in_slash b (p ++ slash ∷ []) ≡ true
ends_in_slash-slash b [] = refl
ends_in_slash-slash b (c ∷ p) = ends_in_slash-slash (c == slash) p

append-slash-ne-nil : (p : Text) → p ++ slash ∷ [] ≢ []
append-slash-ne-nil [] e = cc
append-slash-ne-nil (c ∷ p) e = cc

same-nil-slash : (p : Text) → same [] (p ++ slash ∷ []) ≡ false
same-nil-slash [] = refl
same-nil-slash (c ∷ p) = refl

same-slash-nil : (p : Text) → same (p ++ slash ∷ []) [] ≡ false
same-slash-nil [] = refl
same-slash-nil (c ∷ p) = refl

slash-cancel : (p q : Text) → same (p ++ slash ∷ []) (q ++ slash ∷ []) ≡ same p q
slash-cancel [] [] = refl
slash-cancel [] (c ∷ q) = ground (arith, same-nil-slash q)
slash-cancel (c ∷ p) [] = ground (arith, same-slash-nil p)
slash-cancel (c ∷ p) (d ∷ q) = ground (arith, slash-cancel p q)

-- A valid path is no valid path with a slash after it.
valid-ne-slash :
    (p q : Text)
    → is_valid_path p ≡ true
    → is_valid_path q ≡ true
    → same p (q ++ slash ∷ []) ≡ false
valid-ne-slash p [] h k = absurd cc
valid-ne-slash p (c ∷ q) h k = elim (Bool-cases (same p (c ∷ q ++ slash ∷ []))) [
  | inr s ↦ s
  | inl s ↦
      let e = same→eq p (c ∷ q ++ slash ∷ []) s in
      let ends = ap (ends_in_slash false) e ∙ ends_in_slash-slash false (c ∷ q) in
      let root = same→eq p (slash ∷ []) (ground (arith, ends)) in
      absurd (append-slash-ne-nil q (ground (arith, e, root)))
]

slash-ne-valid :
    (p q : Text)
    → is_valid_path p ≡ true
    → is_valid_path q ≡ true
    → same (q ++ slash ∷ []) p ≡ false
slash-ne-valid p q h k =
    let apart = valid-ne-slash p q h k in
    ground (arith, same_iff p (q ++ slash ∷ []), same_iff (q ++ slash ∷ []) p)

-- A static route is in a table: under its path, and under its path with a slash.
abbrev pub Has : {H : Type 0} → Text → H → Table H → Type 0
Has p h t = (lookup p t ≡ some h) × (lookup (p ++ slash ∷ []) t ≡ some h)

module _ {H : Type 0} where
  attach_static_route-insert :
      (q : Text) (k : H) (t t' : Table H)
      → attach_static_route q k t ≡ done t'
      → (lookup q t ≡ none) × (insert (q ++ slash ∷ []) k (insert q k t) ≡ t')
  unfolding attach_static_route
  attach_static_route-insert q k t t' e = elim (Option-cases (lookup q t)) [
    | inl l ↦ (l, ground arith)
    | inr (h, l) ↦ absurd (ground arith)
  ]

  pub attach_static_route-new :
      (p : Text) (h : H) (t t' : Table H) → attach_static_route p h t ≡ done t' → Has p h t'
  attach_static_route-new p h t t' e = subst (Has p h) (attach_static_route-insert p h t t' e).1 (
      ground (
        arith,
        lookup-insert (p ++ slash ∷ []) p h (insert p h t),
        lookup-insert (p ++ slash ∷ []) (p ++ slash ∷ []) h (insert p h t),
        lookup-insert p p h t,
        same_refl p,
        same_refl (p ++ slash ∷ []),
      ))

  pub attach_static_route-kept :
      (p q : Text) (h k : H) (t t' : Table H)
      → is_valid_path p ≡ true
      → is_valid_path q ≡ true
      → Has p h t
      → attach_static_route q k t ≡ done t'
      → Has p h t'
  attach_static_route-kept p q h k t t' vp vq has e =
      let (fresh, new) = attach_static_route-insert q k t t' e in
      let apart = slash-ne-valid p q vp vq in
      let apart' = valid-ne-slash q p vq vp in
      let cancel = slash-cancel q p in
      subst (Has p h) new (
        ground (
          arith,
          has.0,
          has.1,
          fresh,
          same_iff q p,
          lookup-insert (q ++ slash ∷ []) p k (insert q k t),
          lookup-insert (q ++ slash ∷ []) (p ++ slash ∷ []) k (insert q k t),
          lookup-insert q p k t,
          lookup-insert q (p ++ slash ∷ []) k t,
        ))

  -- Which static tables a registration writes.
  static_table-put_static :
      (m n : String) (new : Table H) (t t' : Tables H)
      → put_static m (done new) t ≡ done t'
      → static_table n t' ≡ (if str_eq m n then new else static_table n t)
  static_table-put_static m n new t t' e =
      ground (arith, eq_iff m "ANY", eq_iff n "ANY", eq_iff m n, get-set m n new t.static)

  static_table-put_dynamic :
      (m n : String) (new : Compiled (List (DynamicRoute H))) (t t' : Tables H)
      → put_dynamic m new t ≡ done t'
      → static_table n t' ≡ static_table n t
  static_table-put_dynamic m n (throws x) t t' e = absurd cc
  static_table-put_dynamic m n (done new) t t' e = ground arith

  add_static :
      (m : String) (new : Compiled (Table H)) (t t' : Tables H)
      → put_static m new t ≡ done t'
      → (table : Table H) × (new ≡ done table)
  add_static m (throws x) t t' e = absurd cc
  add_static m (done table) t t' e = (table, refl)

  static_table-attach_compiled :
      (m n : String) (r : Compiled (DynamicRoute H)) (t t' : Tables H)
      → attach_compiled m r t ≡ done t'
      → static_table n t' ≡ static_table n t
  static_table-attach_compiled m n (throws x) t t' e = absurd cc
  static_table-attach_compiled m n (done r) t t' e =
      static_table-put_dynamic m n (attach_dynamic_route r (dynamic_table m t)) t t' e

  -- A registration that does not throw writes its own static table, or none.
  pub attach_route-static :
      (letter : Bool → ℕ → Bool) (m n : String) (p : Text) (h : H) (t t' : Tables H)
      → attach_route letter m p h t ≡ done t'
      → is_dynamic p ≡ false
      → (new : Table H) × (attach_static_route p h (static_table m t) ≡ done new)
        × (static_table n t' ≡ (if str_eq m n then new else static_table n t))
  unfolding attach_route
  attach_route-static letter m n p h t t' e d = elim (Bool-cases (includes m all_methods)) [
    | inr i ↦ absurd (ground arith)
    | inl i ↦
        let put : put_static m (attach_static_route p h (static_table m t)) t ≡ done t' =
          ground arith in
        let (new, s) = add_static m (attach_static_route p h (static_table m t)) t t' put in
        (new, s, static_table-put_static m n new t t' (ap (λ c. put_static m c t) (sym s) ∙ put))
  ]

  pub attach_route-dynamic :
      (letter : Bool → ℕ → Bool) (m n : String) (p : Text) (h : H) (t t' : Tables H)
      → attach_route letter m p h t ≡ done t'
      → is_dynamic p ≡ true
      → static_table n t' ≡ static_table n t
  unfolding attach_route
  attach_route-dynamic letter m n p h t t' e d = elim (Bool-cases (includes m all_methods)) [
    | inr i ↦ absurd (ground arith)
    | inl i ↦
        static_table-attach_compiled m n (compile_dynamic_route letter p h) t t' (ground arith)
  ]
