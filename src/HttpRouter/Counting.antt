-- ===== src/HttpRouter/Counting.antt =====
-- packages/http-router/index.js: what `compileDynamicRoute` counts.
use middy.Prelude.{
  ℕ, ◌+◌, ◌≤◌, ◌≡◌, refl, ap, sym, ◌∙◌, Bool, false, ◌||◌, Option, none, some, List, [], ◌∷◌, ◌++◌,
  append_assoc, arith, ◌==◌, if◌then◌else◌, inl, inr, Bool-cases,
}
use middy.Texts.{
  count_slashes-append, split-cons, AreSlashFree, Text, slash, count_slashes, ends_in_slash, split,
  cons_first,
}
use middy.HttpRouter.Regexp.{Token}
use middy.HttpRouter.Matching.{IsPlain}
use middy.HttpRouter.Compile.{
  Symbol, unit, parameter, literals, split_brace, split_brace_step, parameter_of, segment_symbols,
  is_star, token_of, quantify,
}
use middy.HttpRouter.Prefilter.{token_slashes, tokens_end_in_slash}

-- The text that symbols stand for.
abbrev pub source : List Symbol → Text
source [] = []
source (unit c ∷ xs) = c ∷ source xs
source (parameter n ∷ xs) = b'{' ∷ n ++ b'}' ∷ source xs

abbrev pub has_star : Text → Bool
has_star [] = false
has_star (c ∷ cs) = c == b'*' || has_star cs

abbrev pub has_star_symbol : List Symbol → Bool
has_star_symbol [] = false
has_star_symbol (x ∷ xs) = is_star x || has_star_symbol xs

abbrev pub symbol_slashes : List Symbol → ℕ
symbol_slashes [] = 0
symbol_slashes (unit c ∷ xs) = (if c == slash then 1 else 0) + symbol_slashes xs
symbol_slashes (parameter n ∷ xs) = symbol_slashes xs

pub source-append : (xs ys : List Symbol) → source (xs ++ ys) ≡ source xs ++ source ys
source-append [] ys = refl
source-append (unit c ∷ xs) ys = ap (λ t. c ∷ t) (source-append xs ys)
source-append (parameter n ∷ xs) ys =
    cc (source-append xs ys, append_assoc n (b'}' ∷ source xs) (source ys))

pub source-literals : (t : Text) → source (literals t) ≡ t
source-literals [] = refl
source-literals (c ∷ t) = ap (λ u. c ∷ u) (source-literals t)

split_brace_step_lem :
    (c : ℕ) (t n s : Text) (o : Option (Text × Text))
    → ((m r : Text) → o ≡ some (m, r) → t ≡ m ++ b'}' ∷ r)
    → split_brace_step c t o ≡ some (n, s)
    → c ∷ t ≡ n ++ b'}' ∷ s
split_brace_step_lem c t n s none ih e = ground arith
split_brace_step_lem c t n s (some (m, r)) ih e = ground (arith, ih m r refl)

split_brace_lem : (t n s : Text) → split_brace t ≡ some (n, s) → t ≡ n ++ b'}' ∷ s
unfolding split_brace
split_brace_lem [] n s e = absurd cc
split_brace_lem (c ∷ t) n s e = split_brace_step_lem c t n s (split_brace t) (split_brace_lem t) e

source-parameter_of :
    (t : Text) (o : Option (Text × Text))
    → split_brace t ≡ o
    → source (parameter_of (b'{' ∷ t) o) ≡ b'{' ∷ t
source-parameter_of t none e = source-literals (b'{' ∷ t)
source-parameter_of t (some ([], r)) e = source-literals (b'{' ∷ t)
source-parameter_of t (some (c ∷ n, r)) e = cc (split_brace_lem t (c ∷ n) r e, source-literals r)

pub source-segment_symbols : (t : Text) → source (segment_symbols t) ≡ t
unfolding segment_symbols
source-segment_symbols [] = refl
source-segment_symbols (c ∷ t) = elim (Bool-cases (c == b'{')) [
  | inl h ↦ let whole = source-parameter_of t (split_brace t) refl in ground (arith, whole)
  | inr h ↦ rw h (source-literals (c ∷ t))
]

pub symbol_slashes_le : (xs : List Symbol) → symbol_slashes xs ≤ count_slashes (source xs)
unfolding count_slashes
symbol_slashes_le [] = omega arith
symbol_slashes_le (unit c ∷ xs) = ground (arith, symbol_slashes_le xs)
symbol_slashes_le (parameter n ∷ xs) =
    ground (arith, symbol_slashes_le xs, count_slashes-append n (b'}' ∷ source xs))

pub has_star-append : (s t : Text) → has_star (s ++ t) ≡ has_star s || has_star t
has_star-append [] t = refl
has_star-append (c ∷ s) t = ground (arith, has_star-append s t)

pub has_star_symbol-source :
    (xs : List Symbol) → has_star (source xs) ≡ false → has_star_symbol xs ≡ false
has_star_symbol-source [] e = refl
has_star_symbol-source (unit c ∷ xs) e = ground (arith, has_star_symbol-source xs)
has_star_symbol-source (parameter n ∷ xs) e =
    ground (arith, has_star-append n (b'}' ∷ source xs), has_star_symbol-source xs)

-- The tokens of symbols that hold no star.
abbrev pub plain_tokens : List Symbol → List Token
plain_tokens [] = []
plain_tokens (x ∷ xs) = token_of x false ∷ plain_tokens xs

pub quantify-plain_tokens :
    (xs : List Symbol) → has_star_symbol xs ≡ false → quantify xs ≡ some (false, plain_tokens xs)
unfolding quantify
quantify-plain_tokens [] e = refl
quantify-plain_tokens (x ∷ xs) e = ground (arith, quantify-plain_tokens xs)

pub plain_tokens-IsPlain : (xs : List Symbol) → IsPlain (plain_tokens xs)
plain_tokens-IsPlain [] = tt
plain_tokens-IsPlain (unit c ∷ xs) = (refl, plain_tokens-IsPlain xs)
plain_tokens-IsPlain (parameter n ∷ xs) = (refl, plain_tokens-IsPlain xs)

pub token_slashes-plain_tokens :
    (xs : List Symbol) → token_slashes (plain_tokens xs) ≡ symbol_slashes xs
token_slashes-plain_tokens [] = refl
token_slashes-plain_tokens (unit c ∷ xs) = rw (token_slashes-plain_tokens xs) refl
token_slashes-plain_tokens (parameter n ∷ xs) = token_slashes-plain_tokens xs

ends_in_slash-brace :
    (before : Bool) (n t : Text) → ends_in_slash before (n ++ b'}' ∷ t) ≡ ends_in_slash false t
ends_in_slash-brace before [] t = refl
ends_in_slash-brace before (c ∷ n) t = ends_in_slash-brace (c == slash) n t

pub tokens_end_in_slash-plain_tokens :
    (before : Bool) (xs : List Symbol)
    → tokens_end_in_slash before (plain_tokens xs) ≡ ends_in_slash before (source xs)
tokens_end_in_slash-plain_tokens before [] = refl
tokens_end_in_slash-plain_tokens before (unit c ∷ xs) =
    tokens_end_in_slash-plain_tokens (c == slash) xs
tokens_end_in_slash-plain_tokens before (parameter n ∷ xs) =
    tokens_end_in_slash-plain_tokens false xs ∙ sym (ends_in_slash-brace false n (source xs))

-- A path from its segments.
abbrev pub prefixed : List Text → Text
prefixed [] = []
prefixed (s ∷ ss) = slash ∷ s ++ prefixed ss

abbrev pub whole : List Text → Text
whole [] = []
whole (s ∷ ss) = s ++ prefixed ss

pub whole-split : (t : Text) → whole (split t) ≡ t
unfolding split
whole-split [] = refl
whole-split (c ∷ t) =
    let (s, ss, e) = split-cons t in
    elim (Bool-cases (c == slash)) [
      | inl h ↦ ground (arith, e, whole-split t)
      | inr h ↦ ground (arith, e, whole-split t)
    ]

cons_first-AreSlashFree :
    (c : ℕ) (ss : List Text) → c == slash ≡ false → AreSlashFree ss → AreSlashFree (cons_first c ss)
unfolding count_slashes
cons_first-AreSlashFree c [] h a = (ground arith, tt)
cons_first-AreSlashFree c (s ∷ ss) h a = (ground (arith, a.0), a.1)

pub split-AreSlashFree : (t : Text) → AreSlashFree (split t)
unfolding split count_slashes
split-AreSlashFree [] = (refl, tt)
split-AreSlashFree (c ∷ t) = elim (Bool-cases (c == slash)) [
  | inl h ↦ rw h (refl, split-AreSlashFree t)
  | inr h ↦ rw h (cons_first-AreSlashFree c (split t) h (split-AreSlashFree t))
]
