-- ===== src/HttpRouter/Completeness.antt =====
-- packages/http-router/index.js: a path that a pattern without `*` stands for is matched.
use middy.Prelude.{
  ◌≡◌, ◌≢◌, refl, sym, subst, Bool, true, false, Option, none, some, List, [], ◌∷◌, ◌++◌,
  append_assoc, arith, ◌==◌, inl, inr, Bool-cases,
}
use middy.Texts.{Text, slash, count_slashes}
use middy.HttpRouter.Regexp.{
  Token, one, group, Pattern, Groups, match_tokens, match_end, match_pattern, capture, capturing,
  skip_group, add, orelse,
}
use middy.HttpRouter.Matching.{IsPlain, AreSegments, Matched, fill_tokens, match_tokens-Matched}

add-ne-none : (n v : Text) (o : Option Groups) → o ≢ none → add n (some v) o ≢ none
add-ne-none n v none h e = h refl
add-ne-none n v (some gs) h e = cc

orelse-ne-none_left : (a b : Option Groups) → a ≢ none → orelse a b ≢ none
orelse-ne-none_left none b h e = h refl
orelse-ne-none_left (some gs) b h e = cc

orelse-ne-none_right : (a b : Option Groups) → b ≢ none → orelse a b ≢ none
orelse-ne-none_right none b h e = h e
orelse-ne-none_right (some gs) b h e = cc

module _ (n : Text) (k : Text → Option Groups) where
  -- A round that may stop here finds something.
  capturing-stop : (taken rest : Text) → k rest ≢ none → capturing n false k taken rest ≢ none
  unfolding capturing
  capturing-stop taken [] h = add-ne-none n taken (k []) h
  capturing-stop taken (c ∷ rest) h = elim (Bool-cases (c == slash)) [
    | inl s ↦ rw s (add-ne-none n taken (k (c ∷ rest)) h)
    | inr s ↦ rw s (
        orelse-ne-none_right (capturing n false k (taken ++ c ∷ []) rest)
          (add n (some taken) (k (c ∷ rest))) (add-ne-none n taken (k (c ∷ rest)) h))
  ]

  capturing-ne-none :
      (v taken rest : Text)
      → count_slashes v ≡ 0
      → k rest ≢ none
      → capturing n false k taken (v ++ rest) ≢ none
  unfolding capturing count_slashes
  capturing-ne-none [] taken rest sl h = capturing-stop taken rest h
  capturing-ne-none (c ∷ v) taken rest sl h = elim (Bool-cases (c == slash)) [
    | inl s ↦ absurd (ground arith)
    | inr s ↦ rw s (
        orelse-ne-none_left (capturing n false k (taken ++ c ∷ []) (v ++ rest))
          (add n (some taken) (k (c ∷ v ++ rest)))
          (capturing-ne-none v (taken ++ c ∷ []) rest (ground arith) h))
  ]

  capture-ne-none :
      (v rest : Text)
      → v ≢ []
      → count_slashes v ≡ 0
      → k rest ≢ none
      → capture n false k (v ++ rest) ≢ none
  unfolding capture skip_group count_slashes
  capture-ne-none [] rest ne sl h = absurd (ne refl)
  capture-ne-none (c ∷ v) rest ne sl h = elim (Bool-cases (c == slash)) [
    | inl s ↦ absurd (ground arith)
    | inr s ↦ rw s (
        orelse-ne-none_left (capturing n false k (c ∷ []) (v ++ rest)) none
          (capturing-ne-none v (c ∷ []) rest (ground arith) h))
  ]

module _ (w : Bool) where
  -- Filling a pattern gives a text that it matches.
  match_tokens-fill_tokens :
      (ts : List Token) (gs end_groups : Groups) (end : Text)
      → IsPlain ts
      → AreSegments ts gs end_groups
      → match_end w end ≡ some end_groups
      → match_tokens w ts (fill_tokens ts gs ++ end) ≢ none
  unfolding match_tokens fill_tokens AreSegments
  match_tokens-fill_tokens [] gs eg end p a e = λ q. cc
  match_tokens-fill_tokens (one c true ∷ ts) gs eg end p a e = absurd cc
  match_tokens-fill_tokens (one c false ∷ ts) gs eg end p a e =
      ground (arith, match_tokens-fill_tokens ts gs eg end p.1 a e)
  match_tokens-fill_tokens (group n true ∷ ts) gs eg end p a e = absurd cc
  match_tokens-fill_tokens (group n false ∷ ts) [] eg end p a e = absurd a
  match_tokens-fill_tokens (group n false ∷ ts) ((m, none) ∷ gs) eg end p a e = absurd a.0
  match_tokens-fill_tokens (group n false ∷ ts) ((m, some v) ∷ gs) eg end p a e =
      rw (append_assoc v (fill_tokens ts gs) end) (
        capture-ne-none n (match_tokens w ts) v (fill_tokens ts gs ++ end) a.0.1 a.0.2
          (match_tokens-fill_tokens ts gs eg end p.1 a.1 e))

  match_tokens-ne-none :
      (ts : List Token) (t : Text) (gs : Groups)
      → IsPlain ts
      → Matched w ts t gs
      → match_tokens w ts t ≢ none
  match_tokens-ne-none ts t gs p m =
      subst (λ u. match_tokens w ts u ≢ none) (sym m.parts)
        (match_tokens-fill_tokens ts gs m.end_groups m.end p m.segments m.ending)

-- A pattern without `*`: the groups that `path.match` gives fill the pattern's parameters in such a
-- way that, with what stands at the end, they give the path back, and each is a part of one segment
-- that is not empty.
pub match_pattern-Matched :
    (p : Pattern) (path : Text) (gs : Groups)
    → IsPlain p.tokens
    → match_pattern p path ≡ some gs
    → Matched p.wildcard p.tokens path gs
unfolding match_pattern
match_pattern-Matched p path gs plain e = match_tokens-Matched p.tokens path gs plain e

-- A pattern without `*`: a path that some groups, each a part of one segment that is not empty,
-- fill the pattern to, with what may stand at the end, is matched.
pub match_pattern-ne-none :
    (p : Pattern) (path : Text) (gs : Groups)
    → IsPlain p.tokens
    → Matched p.wildcard p.tokens path gs
    → match_pattern p path ≢ none
unfolding match_pattern
match_pattern-ne-none p path gs plain m = match_tokens-ne-none p.wildcard p.tokens path gs plain m
