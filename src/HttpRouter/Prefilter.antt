-- ===== src/HttpRouter/Prefilter.antt =====
-- packages/http-router/index.js: the filter by `segmentCount` before `path.match`.
use middy.Prelude.{
  ℕ, suc, ◌+◌, ◌≡◌, ◌≢◌, refl, sym, ◌∙◌, subst, Bool, true, false, Option, none, some, List, [],
  ◌∷◌, ◌++◌, append_assoc, arith, ◌==◌, if◌then◌else◌, ◌⊎◌, inl, inr, All, Option-cases,
}
use middy.Texts.{count_slashes-append, Text, slash, count_slashes, ends_in_slash}
use middy.HttpRouter.Regexp.{Token, one, group, Groups, match_end, match_pattern}
use middy.HttpRouter.Matching.{IsPlain, AreSegments, Matched, fill_tokens, match_tokens-Matched}
use middy.HttpRouter.Compile.{DynamicRoute}
use middy.HttpRouter.Dispatch.{find_route, request_segments, passes_filter}

abbrev pub token_slashes : List Token → ℕ
token_slashes [] = 0
token_slashes (one c starred ∷ ts) = (if c == slash then 1 else 0) + token_slashes ts
token_slashes (group n starred ∷ ts) = token_slashes ts

abbrev pub tokens_end_in_slash : Bool → List Token → Bool
tokens_end_in_slash before [] = before
tokens_end_in_slash before (one c starred ∷ ts) = tokens_end_in_slash (c == slash) ts
tokens_end_in_slash before (group n starred ∷ ts) = tokens_end_in_slash false ts

-- A text as deep as `k` slashes: it has as many, or one more at its end.
abbrev pub IsDeep : Bool → ℕ → Text → Type 0
IsDeep before k t =
    ((count_slashes t ≡ k) × (ends_in_slash before t ≡ false))
    ⊎ ((count_slashes t ≡ suc k) × (ends_in_slash before t ≡ true))

ends_in_slash-append :
    (before : Bool) (v t : Text)
    → v ≢ []
    → count_slashes v ≡ 0
    → ends_in_slash before (v ++ t) ≡ ends_in_slash false t
unfolding count_slashes
ends_in_slash-append before [] t ne h = absurd (ne refl)
ends_in_slash-append before (c ∷ []) t ne h = ground arith
ends_in_slash-append before (c ∷ d ∷ v) t ne h =
    ends_in_slash-append (c == slash) (d ∷ v) t (λ q. cc) (ground arith)

match_end-IsDeep :
    (before : Bool) (t : Text) (gs : Groups)
    → before ≡ false
    → match_end false t ≡ some gs
    → IsDeep before 0 t
unfolding match_end count_slashes
match_end-IsDeep before [] gs b e = inl (refl, b)
match_end-IsDeep before (c ∷ []) gs b e = ground arith
match_end-IsDeep before (c ∷ d ∷ t) gs b e = absurd cc

IsDeep-one :
    (before : Bool) (c : ℕ) (k : ℕ) (t : Text)
    → IsDeep (c == slash) k t
    → IsDeep before ((if c == slash then 1 else 0) + k) (c ∷ t)
unfolding count_slashes
IsDeep-one before c k t (inl d) = inl (ground (arith, d.0), d.1)
IsDeep-one before c k t (inr d) = inr (ground (arith, d.0), d.1)

IsDeep-group :
    (before : Bool) (k : ℕ) (v t : Text)
    → v ≢ []
    → count_slashes v ≡ 0
    → IsDeep false k t
    → IsDeep before k (v ++ t)
IsDeep-group before k v t ne sl (inl d) =
    inl (
      count_slashes-append v t ∙ omega (arith, sl, d.0),
      ends_in_slash-append before v t ne sl ∙ d.1,
    )
IsDeep-group before k v t ne sl (inr d) =
    inr (
      count_slashes-append v t ∙ omega (arith, sl, d.0),
      ends_in_slash-append before v t ne sl ∙ d.1,
    )

fill_tokens-IsDeep :
    (before : Bool) (ts : List Token) (gs eg : Groups) (end : Text)
    → tokens_end_in_slash before ts ≡ false
    → AreSegments ts gs eg
    → match_end false end ≡ some eg
    → IsDeep before (token_slashes ts) (fill_tokens ts gs ++ end)
unfolding fill_tokens AreSegments
fill_tokens-IsDeep before [] gs eg end h a e = match_end-IsDeep before end eg h e
fill_tokens-IsDeep before (one c starred ∷ ts) gs eg end h a e =
    IsDeep-one before c (token_slashes ts) (fill_tokens ts gs ++ end)
      (fill_tokens-IsDeep (c == slash) ts gs eg end h a e)
fill_tokens-IsDeep before (group n starred ∷ ts) [] eg end h a e = absurd a
fill_tokens-IsDeep before (group n starred ∷ ts) ((m, none) ∷ gs) eg end h a e = absurd a.0
fill_tokens-IsDeep before (group n starred ∷ ts) ((m, some v) ∷ gs) eg end h a e =
    subst (IsDeep before (token_slashes ts)) (sym (append_assoc v (fill_tokens ts gs) end)) (
      IsDeep-group before (token_slashes ts) v (fill_tokens ts gs ++ end) a.0.1 a.0.2
        (fill_tokens-IsDeep false ts gs eg end h a.1 e))

request_segments-IsDeep : (k : ℕ) (t : Text) → IsDeep false k t → request_segments t ≡ k
unfolding request_segments
request_segments-IsDeep k t (inl d) = ground (arith, d.0, d.1)
request_segments-IsDeep k t (inr d) = ground (arith, d.0, d.1)

-- A route as `compileDynamicRoute` makes it from a path without `*` that does not end with a
-- slash: no count with a wildcard, and else that of its pattern's slashes.
abbrev pub HasCount : Bool → List Token → Option ℕ → Type 0
HasCount true ts count = count ≡ none
HasCount false ts count = (count ≡ some (token_slashes ts)) × (tokens_end_in_slash false ts ≡ false)

abbrev pub IsCounted : {H : Type 0} → DynamicRoute H → Type 0
IsCounted r =
    IsPlain r.pattern.tokens × HasCount r.pattern.wildcard r.pattern.tokens r.segment_count

passes_filter-HasCount :
    (w : Bool) (ts : List Token) (count : Option ℕ) (path : Text) (gs : Groups)
    → HasCount w ts count
    → Matched w ts path gs
    → passes_filter count (request_segments path) ≡ true
passes_filter-HasCount true ts count path gs h m = rw h refl
passes_filter-HasCount false ts count path gs h m =
    let deep = request_segments-IsDeep (token_slashes ts) path (
      subst (IsDeep false (token_slashes ts)) (sym m.parts)
        (fill_tokens-IsDeep false ts gs m.end_groups m.end h.1 m.segments m.ending)) in
    ground (arith, h.0, deep)

-- `find_route` without the filter: the first route whose pattern matches.
unfoldable pub first_match :
    {H : Type 0} → Text → List (DynamicRoute H) → Option (DynamicRoute H × Groups)
first_match path [] = none
first_match path (r ∷ rs) =
    let rest = first_match path rs in
    elim (match_pattern r.pattern path) [ none ↦ rest | some gs ↦ some (r, gs) ]

-- Where every route is compiled from a path without `*` that does not end with a slash, the filter
-- by `segmentCount` never changes which route is found, nor its groups.
pub find_route-eq-first_match :
    {H : Type 0} (path : Text) (rs : List (DynamicRoute H))
    → All IsCounted rs
    → find_route path rs ≡ first_match path rs
unfolding find_route first_match
find_route-eq-first_match path [] a = refl
find_route-eq-first_match path (r ∷ rs) a = elim (Option-cases (match_pattern r.pattern path)) [
  | inl no_match ↦ ground (arith, find_route-eq-first_match path rs a.1)
  | inr (gs, match) ↦
      let passes =
        passes_filter-HasCount r.pattern.wildcard r.pattern.tokens r.segment_count path gs a.0.1
          (match_tokens-Matched r.pattern.tokens path gs a.0.0 match) in
      ground (arith, passes)
]
