-- ===== src/HttpRouter/Compiling.antt =====
-- packages/http-router/index.js: `compileDynamicRoute` makes routes that the filter may skip.
use middy.Prelude.{
  ℕ, ◌+◌, ◌≡◌, refl, ap, sym, ◌∙◌, subst, Bool, true, false, ◌||◌, Option, none, some, List, [],
  ◌∷◌, ◌++◌, arith, ◌==◌, if◌then◌else◌, inl, inr, Bool-cases,
}
use middy.Texts.{
  count_slashes-append, AreSlashFree, Text, slash, count_slashes, ends_in_slash, split,
}
use middy.HttpRouter.Regexp.{Token}
use middy.HttpRouter.Compile.{
  Symbol, unit, segment_symbols, literals, later_symbols, path_symbols, names, proxy_names,
  are_names, leaves_brace, done, DynamicRoute, compile_dynamic_route,
}
use middy.HttpRouter.Matching.{IsPlain}
use middy.HttpRouter.Prefilter.{HasCount, IsCounted}
use middy.HttpRouter.Counting.{
  source, has_star, has_star_symbol, symbol_slashes, plain_tokens, prefixed, whole, source-append,
  source-literals, source-segment_symbols, symbol_slashes_le, has_star_symbol-source,
  has_star-append, quantify-plain_tokens, plain_tokens-IsPlain, token_slashes-plain_tokens,
  tokens_end_in_slash-plain_tokens, whole-split, split-AreSlashFree,
}

has_star_symbol-append :
    (xs ys : List Symbol) → has_star_symbol (xs ++ ys) ≡ has_star_symbol xs || has_star_symbol ys
has_star_symbol-append [] ys = refl
has_star_symbol-append (x ∷ xs) ys = ground (arith, has_star_symbol-append xs ys)

symbol_slashes-append :
    (xs ys : List Symbol) → symbol_slashes (xs ++ ys) ≡ symbol_slashes xs + symbol_slashes ys
symbol_slashes-append [] ys = omega arith
symbol_slashes-append (unit c ∷ xs) ys = ground (arith, symbol_slashes-append xs ys)
symbol_slashes-append (Symbol.parameter n ∷ xs) ys = symbol_slashes-append xs ys

-- A segment without a slash has none in its symbols.
symbol_slashes-segment_symbols :
    (s : Text) → count_slashes s ≡ 0 → symbol_slashes (segment_symbols s) ≡ 0
symbol_slashes-segment_symbols s e =
    let le = symbol_slashes_le (segment_symbols s) in
    let same = ap count_slashes (source-segment_symbols s) in ground (arith, le, same)

has_star_symbol-later_symbols :
    (ss : List Text) → has_star (prefixed ss) ≡ false → has_star_symbol (later_symbols ss).0 ≡ false
unfolding later_symbols
has_star_symbol-later_symbols [] e = refl
has_star_symbol-later_symbols (s ∷ ss) e =
    let apart = has_star-append s (prefixed ss) in
    let first = λ (h : has_star s ≡ false).
      has_star_symbol-source (segment_symbols s) (ap has_star (source-segment_symbols s) ∙ h) in
    let rest = has_star_symbol-later_symbols ss in
    let both = has_star_symbol-append (segment_symbols s) (later_symbols ss).0 in
    ground (arith, apart, first, rest, both)

-- With no wildcard, the symbols stand for the whole path, and have its slashes.
source-later_symbols :
    (ss : List Text) → (later_symbols ss).1 ≡ false → source (later_symbols ss).0 ≡ prefixed ss
unfolding later_symbols
source-later_symbols [] e = refl
source-later_symbols (s ∷ ss) e =
    let rest = source-later_symbols ss in
    let both = source-append (segment_symbols s) (later_symbols ss).0 in
    let first = source-segment_symbols s in ground (arith, rest, both, first)

symbol_slashes-later_symbols :
    (ss : List Text)
    → AreSlashFree ss
    → (later_symbols ss).1 ≡ false
    → symbol_slashes (later_symbols ss).0 ≡ count_slashes (prefixed ss)
unfolding later_symbols count_slashes
symbol_slashes-later_symbols [] a e = refl
symbol_slashes-later_symbols (s ∷ ss) a e =
    let rest = symbol_slashes-later_symbols ss a.1 in
    let both = symbol_slashes-append (segment_symbols s) (later_symbols ss).0 in
    let first = symbol_slashes-segment_symbols s a.0 in
    let apart = count_slashes-append s (prefixed ss) in
    ground (arith, rest, both, first, apart, a.0)

symbol_slashes-literals : (t : Text) → symbol_slashes (literals t) ≡ count_slashes t
unfolding count_slashes
symbol_slashes-literals [] = refl
symbol_slashes-literals (c ∷ t) =
    ap (λ k. (if c == slash then 1 else 0) + k) (symbol_slashes-literals t)

-- Of the segments of a path.
has_star_symbol-path_symbols :
    (ss : List Text) → has_star (whole ss) ≡ false → has_star_symbol (path_symbols ss).0 ≡ false
unfolding path_symbols
has_star_symbol-path_symbols [] e = refl
has_star_symbol-path_symbols (s ∷ ss) e =
    let apart = has_star-append s (prefixed ss) in
    let first = λ (h : has_star s ≡ false).
      has_star_symbol-source (literals s) (ap has_star (source-literals s) ∙ h) in
    let rest = has_star_symbol-later_symbols ss in
    let both = has_star_symbol-append (literals s) (later_symbols ss).0 in
    ground (arith, apart, first, rest, both)

source-path_symbols :
    (ss : List Text) → (path_symbols ss).1 ≡ false → source (path_symbols ss).0 ≡ whole ss
unfolding path_symbols
source-path_symbols [] e = refl
source-path_symbols (s ∷ ss) e =
    cc (
      source-append (literals s) (later_symbols ss).0,
      source-literals s,
      source-later_symbols ss e,
    )

symbol_slashes-path_symbols :
    (ss : List Text)
    → AreSlashFree ss
    → (path_symbols ss).1 ≡ false
    → symbol_slashes (path_symbols ss).0 ≡ count_slashes (whole ss)
unfolding path_symbols count_slashes
symbol_slashes-path_symbols [] a e = refl
symbol_slashes-path_symbols (s ∷ ss) a e =
    let both = symbol_slashes-append (literals s) (later_symbols ss).0 in
    let first = symbol_slashes-literals s in
    let rest = symbol_slashes-later_symbols ss a.1 e in
    let apart = count_slashes-append s (prefixed ss) in omega (arith, both, first, rest, apart)

HasCount-plain_tokens :
    (path : Text) (xs : List Symbol) (w : Bool)
    → ends_in_slash false path ≡ false
    → (w ≡ false → source xs ≡ path)
    → (w ≡ false → symbol_slashes xs ≡ count_slashes path)
    → HasCount w (plain_tokens xs) (if w then none else some (count_slashes path))
HasCount-plain_tokens path xs true e s k = refl
HasCount-plain_tokens path xs false e s k = (
  ap some (sym (token_slashes-plain_tokens xs ∙ k refl)),
  tokens_end_in_slash-plain_tokens false xs ∙ ap (ends_in_slash false) (s refl) ∙ e,
)

IsCounted-route :
    {H : Type 0} (h : H) (ts : List Token) (w : Bool) (count : Option ℕ) (r : DynamicRoute H)
    → IsPlain ts
    → HasCount w ts count
    → record { pattern = record { tokens = ts; wildcard = w }; handler = h; segment_count = count }
      ≡ r
    → IsCounted r
IsCounted-route h ts w count r p c same = subst IsCounted same (p, c)

-- `compileDynamicRoute` that does not throw, on a path without `*` that does not end with a slash,
-- gives a pattern without `*` and the count that the pattern's matches have.
pub compile_dynamic_route-IsCounted :
    {H : Type 0} (letter : Bool → ℕ → Bool) (path : Text) (h : H) (r : DynamicRoute H)
    → has_star path ≡ false
    → ends_in_slash false path ≡ false
    → compile_dynamic_route letter path h ≡ done r
    → IsCounted r
unfolding compile_dynamic_route
compile_dynamic_route-IsCounted letter path h r star e c =
    let xs = (path_symbols (split path)).0 in
    let w = (path_symbols (split path)).1 in
    let q =
      quantify-plain_tokens xs
        (has_star_symbol-path_symbols (split path) (ap has_star (whole-split path) ∙ star)) in
    let counted =
      HasCount-plain_tokens path xs w e
        (λ no_wildcard. source-path_symbols (split path) no_wildcard ∙ whole-split path)
        (λ no_wildcard.
          symbol_slashes-path_symbols (split path) (split-AreSlashFree path) no_wildcard
          ∙ ap count_slashes (whole-split path)) in
    let plain = plain_tokens-IsPlain xs in
    elim (Bool-cases (leaves_brace xs)) [
      | inl throws_first ↦ absurd (ground arith)
      | inr no_brace ↦
          elim (Bool-cases (are_names letter (names (plain_tokens xs) ++ proxy_names w))) [
            | inl named ↦
                IsCounted-route h (plain_tokens xs) w
                  (if w then none else some (count_slashes path)) r plain counted
                  (ground (arith, q))
            | inr unnamed ↦ absurd (ground (arith, q))
          ]
    ]
