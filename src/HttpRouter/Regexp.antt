-- ===== src/HttpRouter/Regexp.antt =====
-- packages/http-router/index.js: the regular expressions that `compileDynamicRoute` writes, and
-- what `path.match` gives for them: a backtracking search with greedy quantifiers.
use middy.Prelude.{
  ℕ, ◌==◌, ◌||◌, ◌&&◌, Bool, true, false, Option, none, some, List, [], ◌∷◌, ◌++◌, if◌then◌else◌,
}
use middy.Texts.{Text, slash, units}

-- A literal code unit, or a group `(?<name>[^/]+)`; `starred` says that a `*` follows.
pub data Token : Type 0 where
  one : ℕ → Bool → Token
  group : Text → Bool → Token

-- `^` and the tokens, `(?:/(?<proxy>.*))?` if `wildcard` is set, and `/?$`.
pub record Pattern : Type 0 where
  pub tokens : List Token
  pub wildcard : Bool

-- `match.groups`, a group that took no part with `undefined`.
abbrev pub Groups : Type 0
Groups = List (Text × Option Text)

abbrev pub proxy : Text
proxy = units "proxy"

abbrev pub orelse : Option Groups → Option Groups → Option Groups
orelse none b = b
orelse (some a) b = some a

abbrev pub add : Text → Option Text → Option Groups → Option Groups
add n v none = none
add n v (some gs) = some ((n, v) ∷ gs)

abbrev pub is_line_end : ℕ → Bool
is_line_end c = c == 10 || c == 13 || c == 8232 || c == 8233

abbrev pub has_line_end : Text → Bool
has_line_end [] = false
has_line_end (c ∷ cs) = is_line_end c || has_line_end cs

-- What stands after the tokens. The dot of `.*` takes all but line ends.
unfoldable pub match_end : Bool → Text → Option Groups
match_end false [] = some []
match_end false (c ∷ []) = if c == slash then some [] else none
match_end false (c ∷ d ∷ cs) = none
match_end true [] = some ((proxy, none) ∷ [])
match_end true (c ∷ cs) =
    if c == slash then (if has_line_end cs then none else some ((proxy, some cs) ∷ [])) else none

-- `c*`, with what follows as `k`.
unfoldable pub repeat_unit : ℕ → (Text → Option Groups) → Text → Option Groups
repeat_unit c k [] = k []
repeat_unit c k (d ∷ t) =
    let more = repeat_unit c k t in if c == d then orelse more (k (d ∷ t)) else k (d ∷ t)

-- Inside a round of a group that has taken `taken`: it takes on as long as it can, then a starred
-- group tries another round, and then what follows.
unfoldable pub capturing : Text → Bool → (Text → Option Groups) → Text → Text → Option Groups
capturing n starred k taken [] = add n (some taken) (k [])
capturing n starred k taken (c ∷ t) =
    let more = capturing n starred k (taken ++ c ∷ []) t in
    let again = capturing n starred k (c ∷ []) t in
    let stop = add n (some taken) (k (c ∷ t)) in
    if c == slash then stop else orelse more (if starred then orelse again stop else stop)

unfoldable pub skip_group : Text → Bool → (Text → Option Groups) → Text → Option Groups
skip_group n starred k t = if starred then add n none (k t) else none

unfoldable pub capture : Text → Bool → (Text → Option Groups) → Text → Option Groups
unfolding skip_group
capture n starred k [] = skip_group n starred k []
capture n starred k (c ∷ t) =
    let first = capturing n starred k (c ∷ []) t in
    let skip = skip_group n starred k (c ∷ t) in if c == slash then skip else orelse first skip

unfoldable pub match_tokens : Bool → List Token → Text → Option Groups
unfolding match_end repeat_unit capture
match_tokens w [] t = match_end w t
match_tokens w (one c true ∷ ts) t = repeat_unit c (match_tokens w ts) t
match_tokens w (one c false ∷ ts) [] = none
match_tokens w (one c false ∷ ts) (d ∷ t) =
    let rest = match_tokens w ts t in if c == d then rest else none
match_tokens w (group n starred ∷ ts) t = capture n starred (match_tokens w ts) t

-- `path.match(route.path)`
unfoldable pub match_pattern : Pattern → Text → Option Groups
match_pattern p = match_tokens p.wildcard p.tokens

-- The pattern with the group names taken out: the route's `signature`.
abbrev pub erase_name : Token → Token
erase_name (one c starred) = one c starred
erase_name (group n starred) = group [] starred

abbrev pub same_bool : Bool → Bool → Bool
same_bool true b = b
same_bool false true = false
same_bool false false = true

abbrev pub same_shape : Token → Token → Bool
same_shape (one c s) (one d r) = c == d && same_bool s r
same_shape (group n s) (group m r) = same_bool s r
same_shape (one c s) (group m r) = false
same_shape (group n s) (one d r) = false

abbrev pub same_shapes : List Token → List Token → Bool
same_shapes [] [] = true
same_shapes [] (y ∷ ys) = false
same_shapes (x ∷ xs) [] = false
same_shapes (x ∷ xs) (y ∷ ys) = same_shape x y && same_shapes xs ys

-- Whether two patterns have the same signature.
unfoldable pub same_signature : Pattern → Pattern → Bool
same_signature p q = same_shapes p.tokens q.tokens && same_bool p.wildcard q.wildcard
