-- ===== src/HttpRouter/Matching.antt =====
-- packages/http-router/index.js: what a match of a route's pattern means, for patterns without `*`.
use middy.Prelude.{
  ==→eq, ℕ, ◌≡◌, ◌≢◌, refl, ap, sym, ◌∙◌, subst, Bool, true, false, Option, none, some, List, [],
  ◌∷◌, ◌++◌, append_assoc, append-nil, arith, ◌==◌, ◌⊎◌, inl, inr, Bool-cases, Option-cases,
}
use middy.Texts.{Text, slash, count_slashes}
use middy.HttpRouter.Regexp.{
  Token, one, group, Groups, match_tokens, match_end, capture, capturing, skip_group, add, orelse,
}

-- No `*` in the path.
abbrev pub IsPlain : List Token → Type 0
IsPlain [] = Unit
IsPlain (one c starred ∷ ts) = (starred ≡ false) × IsPlain ts
IsPlain (group n starred ∷ ts) = (starred ≡ false) × IsPlain ts

orelse-some : (a b : Option Groups) (g : Groups) → orelse a b ≡ some g → (a ≡ some g) ⊎ (b ≡ some g)
orelse-some none b g e = inr e
orelse-some (some a) b g e = inl e

-- A group took `value`, and `k` matched the rest.
pub record Captured (n : Text) (k : Text → Option Groups) (taken t : Text) (g : Groups)
    : Type 0 where
  pub value : Text
  pub rest : Text
  pub groups : Groups
  pub parts : t ≡ value ++ rest
  pub segment : count_slashes value ≡ 0
  pub follows : k rest ≡ some groups
  pub result : g ≡ (n, some (taken ++ value)) ∷ groups

module _ (n : Text) (k : Text → Option Groups) where
  Captured-stop :
      (taken t : Text) (g : Groups) → add n (some taken) (k t) ≡ some g → Captured n k taken t g
  unfolding count_slashes
  Captured-stop taken t g e = elim (Option-cases (k t)) [
    | inl h ↦ absurd (ground arith)
    | inr (g', h) ↦ record {
      value = [];
      rest = t;
      groups = g';
      parts = refl;
      segment = refl;
      follows = h;
      result = ground (arith, append-nil taken);
    }
  ]

  Captured-more :
      (c : ℕ) (taken t : Text) (g : Groups)
      → c == slash ≡ false
      → Captured n k (taken ++ c ∷ []) t g
      → (r' : Captured n k taken (c ∷ t) g) × (r'.value ≢ [])
  unfolding count_slashes
  Captured-more c taken t g h r = (
    record {
      value = c ∷ r.value;
      rest = r.rest;
      groups = r.groups;
      parts = ap (λ u. c ∷ u) r.parts;
      segment = ground (arith, r.segment);
      follows = r.follows;
      result = r.result ∙ ap (λ u. (n, some u) ∷ r.groups) (append_assoc taken (c ∷ []) r.value);
    },
    λ q. cc,
  )

  capturing-Captured :
      (taken t : Text) (g : Groups) → capturing n false k taken t ≡ some g → Captured n k taken t g
  unfolding capturing
  capturing-Captured taken [] g e = Captured-stop taken [] g e
  capturing-Captured taken (c ∷ t) g e = elim (Bool-cases (c == slash)) [
    | inl h ↦ Captured-stop taken (c ∷ t) g (ground arith)
    | inr h ↦
        elim (orelse-some (capturing n false k (taken ++ c ∷ []) t) (add n (some taken) (k (c ∷ t)))
          g (ground arith)) [
            | inl more ↦
                (Captured-more c taken t g h (capturing-Captured (taken ++ c ∷ []) t g more)).0
            | inr stop ↦ Captured-stop taken (c ∷ t) g stop
          ]
  ]

  -- A group takes a segment, or the start of one, and never nothing.
  pub capture-Captured :
      (t : Text) (g : Groups)
      → capture n false k t ≡ some g
      → (r : Captured n k [] t g) × (r.value ≢ [])
  unfolding capture skip_group
  capture-Captured [] g e = absurd cc
  capture-Captured (c ∷ t) g e = elim (Bool-cases (c == slash)) [
    | inl h ↦ absurd (ground arith)
    | inr h ↦ elim (orelse-some (capturing n false k (c ∷ []) t) none g (ground arith)) [
      | inl more ↦ Captured-more c [] t g h (capturing-Captured (c ∷ []) t g more)
      | inr stop ↦ absurd cc
    ]
  ]

-- The path that a match stands for: the groups' values in the places of the groups.
abbrev pub value_of : Option Text → Text
value_of none = []
value_of (some v) = v

unfoldable pub fill_tokens : List Token → Groups → Text
fill_tokens [] gs = []
fill_tokens (one c starred ∷ ts) gs = c ∷ fill_tokens ts gs
fill_tokens (group n starred ∷ ts) [] = []
fill_tokens (group n starred ∷ ts) ((m, v) ∷ gs) = value_of v ++ fill_tokens ts gs

-- Every group has its name and a part of one segment that is not empty; what is left over are the
-- groups of the end.
abbrev pub IsSegment : Text → Option Text × Text → Type 0
IsSegment n (none, m) = ⊥
IsSegment n (some v, m) = (m ≡ n) × (v ≢ []) × (count_slashes v ≡ 0)

unfoldable pub AreSegments : List Token → Groups → Groups → Type 0
AreSegments [] gs end = gs ≡ end
AreSegments (one c starred ∷ ts) gs end = AreSegments ts gs end
AreSegments (group n starred ∷ ts) [] end = ⊥
AreSegments (group n starred ∷ ts) ((m, v) ∷ gs) end = IsSegment n (v, m) × AreSegments ts gs end

-- A match: the filled pattern, the end, and the groups of both.
pub record Matched (w : Bool) (ts : List Token) (t : Text) (gs : Groups) : Type 0 where
  pub end : Text
  pub end_groups : Groups
  pub parts : t ≡ fill_tokens ts gs ++ end
  pub segments : AreSegments ts gs end_groups
  pub ending : match_end w end ≡ some end_groups

module _ {w : Bool} where
  Matched-one :
      (c : ℕ) (starred : Bool) (ts : List Token) (t : Text) (gs : Groups)
      → Matched w ts t gs
      → Matched w (one c starred ∷ ts) (c ∷ t) gs
  unfolding fill_tokens AreSegments
  Matched-one c starred ts t gs r = record {
    end = r.end;
    end_groups = r.end_groups;
    parts = ap (λ u. c ∷ u) r.parts;
    segments = r.segments;
    ending = r.ending;
  }

  Matched-group :
      (n : Text) (starred : Bool) (ts : List Token) (v t : Text) (gs : Groups)
      → v ≢ []
      → count_slashes v ≡ 0
      → Matched w ts t gs
      → Matched w (group n starred ∷ ts) (v ++ t) ((n, some v) ∷ gs)
  unfolding fill_tokens AreSegments
  Matched-group n starred ts v t gs ne sl r = record {
    end = r.end;
    end_groups = r.end_groups;
    parts = ap (λ u. v ++ u) r.parts ∙ sym (append_assoc v (fill_tokens ts gs) r.end);
    segments = ((refl, ne, sl), r.segments);
    ending = r.ending;
  }

  Matched-refl : (t : Text) (gs : Groups) → match_end w t ≡ some gs → Matched w [] t gs
  unfolding fill_tokens AreSegments
  Matched-refl t gs e = record {
    end = t;
    end_groups = gs;
    parts = refl;
    segments = refl;
    ending = e;
  }

  pub match_tokens-Matched :
      (ts : List Token) (t : Text) (gs : Groups)
      → IsPlain ts
      → match_tokens w ts t ≡ some gs
      → Matched w ts t gs
  unfolding match_tokens
  match_tokens-Matched [] t gs p e = Matched-refl t gs e
  match_tokens-Matched (one c true ∷ ts) t gs p e = absurd cc
  match_tokens-Matched (one c false ∷ ts) [] gs p e = absurd cc
  match_tokens-Matched (one c false ∷ ts) (d ∷ t) gs p e = elim (Bool-cases (c == d)) [
    | inl h ↦
        subst (λ x. Matched w (one c false ∷ ts) (x ∷ t) gs) (==→eq c d h)
          (Matched-one c false ts t gs (match_tokens-Matched ts t gs p.1 (ground arith)))
    | inr h ↦ absurd (ground arith)
  ]
  match_tokens-Matched (group n true ∷ ts) t gs p e = absurd cc
  match_tokens-Matched (group n false ∷ ts) t gs p e =
      let (r, filled) = capture-Captured n (match_tokens w ts) t gs e in
      subst (λ u. Matched w (group n false ∷ ts) u gs) (sym r.parts)
        (subst (Matched w (group n false ∷ ts) (r.value ++ r.rest)) (sym r.result) (
          Matched-group n false ts r.value r.rest r.groups filled r.segment
            (match_tokens-Matched ts r.rest r.groups p.1 r.follows)))
