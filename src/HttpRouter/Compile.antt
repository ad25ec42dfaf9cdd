-- ===== src/HttpRouter/Compile.antt =====
-- packages/http-router/index.js: `compileDynamicRoute`.
use middy.Prelude.{
  ℕ, ◌==◌, ◌||◌, ◌&&◌, not, leb, Bool, true, false, Option, none, some, List, [], ◌∷◌, ◌++◌, map,
  if◌then◌else◌,
}
use middy.Texts.{Text, slash, units, same, count_slashes, split}
use middy.HttpRouter.Regexp.{Token, one, group, Pattern, proxy}

-- The errors of the setup; `syntax_error` is the throw of `new RegExp`.
pub data RouteError : Type 0 where
  method_not_allowed duplicate_route invalid_path syntax_error : RouteError

pub record DynamicRoute (H : Type 0) : Type 0 where
  pub pattern : Pattern
  pub handler : H
  pub segment_count : Option ℕ

-- A code unit of the path, or a parameter.
pub data Symbol : Type 0 where
  unit : ℕ → Symbol
  parameter : Text → Symbol

-- Splits at the last `}`, as `[^/]+\}` does within a segment.
abbrev pub split_brace_step : ℕ → Text → Option (Text × Text) → Option (Text × Text)
split_brace_step c cs (some (n, s)) = some (c ∷ n, s)
split_brace_step c cs none = if c == b'}' then some ([], cs) else none

unfoldable pub split_brace : Text → Option (Text × Text)
split_brace [] = none
split_brace (c ∷ cs) = split_brace_step c cs (split_brace cs)

abbrev pub literals : Text → List Symbol
literals = map unit

abbrev pub parameter_of : Text → Option (Text × Text) → List Symbol
parameter_of s none = literals s
parameter_of s (some ([], rest)) = literals s
parameter_of s (some (c ∷ n, rest)) = parameter (c ∷ n) ∷ literals rest

-- A segment that follows a slash: `/{name}` is a parameter, by regExpDynamicParameters.
unfoldable pub segment_symbols : Text → List Symbol
unfolding split_brace
segment_symbols [] = []
segment_symbols (c ∷ cs) =
    if c == b'{' then parameter_of (c ∷ cs) (split_brace cs) else literals (c ∷ cs)

abbrev pub wildcard_segment : Text
wildcard_segment = units "{proxy+}"

-- The segments that follow a slash. A last one of `{proxy+}` is the wildcard, by
-- regExpDynamicWildcards.
abbrev pub is_wildcard : Text → List Text → Bool
is_wildcard s [] = same s wildcard_segment
is_wildcard s (t ∷ ts) = false

unfoldable pub later_symbols : List Text → List Symbol × Bool
unfolding segment_symbols
later_symbols [] = ([], false)
later_symbols (s ∷ ss) =
    let (rest, w) = later_symbols ss in
    if is_wildcard s ss then ([], true) else (unit slash ∷ segment_symbols s ++ rest, w)

unfoldable pub path_symbols : List Text → List Symbol × Bool
unfolding later_symbols
path_symbols [] = ([], false)
path_symbols (s ∷ ss) = let (rest, w) = later_symbols ss in (literals s ++ rest, w)

-- Braces that are left over.
abbrev pub has_brace : Text → Bool
has_brace [] = false
has_brace (c ∷ cs) = c == b'{' || c == b'}' || has_brace cs

abbrev pub leaves_brace : List Symbol → Bool
leaves_brace [] = false
leaves_brace (unit c ∷ xs) = has_brace (c ∷ []) || leaves_brace xs
leaves_brace (parameter n ∷ xs) = has_brace n || leaves_brace xs

-- `*` is not among regExpEscapeChars: it quantifies what stands before it, and the flag says that
-- the text starts with one.
abbrev pub token_of : Symbol → Bool → Token
token_of (unit c) = one c
token_of (parameter n) = group n

abbrev pub is_star : Symbol → Bool
is_star (unit c) = c == b'*'
is_star (parameter n) = false

abbrev pub quantify_step : Symbol → Option (Bool × List Token) → Option (Bool × List Token)
quantify_step x none = none
quantify_step x (some (starred, ts)) =
    if is_star x
    then (if starred then none else some (true, ts))
    else some (false, token_of x starred ∷ ts)

unfoldable pub quantify : List Symbol → Option (Bool × List Token)
quantify [] = some (false, [])
quantify (x ∷ xs) = quantify_step x (quantify xs)

-- The group names that `new RegExp` takes. A `$` has been escaped, so it may not stand in one;
-- `letter` says which units beyond ASCII may, and whether also in the first place.
abbrev pub in_range : ℕ → ℕ → ℕ → Bool
in_range a b c = leb a c && leb c b

abbrev pub is_name_unit : (Bool → ℕ → Bool) → Bool → ℕ → Bool
is_name_unit letter first c =
    in_range b'a' b'z' c
    || in_range b'A' b'Z' c
    || c == b'_'
    || (leb 128 c && letter first c)
    || (not first && in_range b'0' b'9' c)

abbrev pub continues_name : (Bool → ℕ → Bool) → Text → Bool
continues_name letter [] = true
continues_name letter (c ∷ cs) = is_name_unit letter false c && continues_name letter cs

abbrev pub is_name : (Bool → ℕ → Bool) → Text → Bool
is_name letter [] = false
is_name letter (c ∷ cs) = is_name_unit letter true c && continues_name letter cs

abbrev pub names : List Token → List Text
names [] = []
names (one c s ∷ ts) = names ts
names (group n s ∷ ts) = n ∷ names ts

abbrev pub mem_text : Text → List Text → Bool
mem_text n [] = false
mem_text n (m ∷ ms) = same m n || mem_text n ms

-- Valid names, none of them twice.
unfoldable pub are_names : (Bool → ℕ → Bool) → List Text → Bool
are_names letter [] = true
are_names letter (n ∷ ns) = is_name letter n && not (mem_text n ns) && are_names letter ns

abbrev pub proxy_names : Bool → List Text
proxy_names w = if w then proxy ∷ [] else []

abbrev pub to_pattern : (Bool → ℕ → Bool) → Bool → Option (Bool × List Token) → Option Pattern
to_pattern letter w none = none
to_pattern letter w (some (true, ts)) = none
to_pattern letter w (some (false, ts)) =
    if are_names letter (names ts ++ proxy_names w)
    then some (record { tokens = ts; wildcard = w })
    else none

pub data Compiled (A : Type 0) : Type 0 where
  done : A → Compiled A
  throws : RouteError → Compiled A

unfoldable pub compile_dynamic_route :
    {H : Type 0} → (Bool → ℕ → Bool) → Text → H → Compiled (DynamicRoute H)
unfolding path_symbols quantify are_names
compile_dynamic_route letter path h =
    let (xs, w) = path_symbols (split path) in
    if leaves_brace xs then throws invalid_path else elim (to_pattern letter w (quantify xs)) [
      | none ↦ throws syntax_error
      | some p ↦ done (record {
        pattern = p;
        handler = h;
        segment_count = if w then none else some (count_slashes path);
      })
    ]
