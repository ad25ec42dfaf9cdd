-- ===== src/Headers/Cors/Origins.antt =====
-- packages/http-cors/index.js: the form of an origin, and the regular expression of one with `*`.
use middy.Prelude.{
  ℕ, suc, zero, ◌==◌, leb, Bool, true, false, ◌&&◌, ◌||◌, not, Option, none, some, [], ◌∷◌, ◌++◌,
  if◌then◌else◌,
}
use middy.Texts.{Text, units, ascii_lower, lower_unit}

abbrev pub star : ℕ
star = b'*'

abbrev pub placeholder : Text
placeholder = units "-_ANY_-"

-- `hostname.replace(/\*/g, placeholder)`
unfoldable pub hide_stars : Text → Text
hide_stars [] = []
hide_stars (c ∷ cs) =
    let rest = hide_stars cs in if c == star then placeholder ++ rest else c ∷ rest

abbrev pub starts_with : Text → Text → Bool
starts_with [] t = true
starts_with (p ∷ ps) [] = false
starts_with (p ∷ ps) (c ∷ cs) = p == c && starts_with ps cs

-- `host.replaceAll(placeholder.toLowerCase(), "*")`; the number is of units to pass over.
unfoldable pub show_stars : ℕ → Text → Text
show_stars n [] = []
show_stars (suc n) (c ∷ cs) = show_stars n cs
show_stars zero (c ∷ cs) =
    let after_placeholder = show_stars 6 cs in
    let rest = show_stars zero cs in
    if starts_with (ascii_lower placeholder) (c ∷ cs) then star ∷ after_placeholder else c ∷ rest

-- `asciiOriginFast`, behind `http`
abbrev pub is_digit : ℕ → Bool
is_digit c = leb b'0' c && leb c b'9'

abbrev pub is_host_unit : ℕ → Bool
is_host_unit c =
    (leb b'a' (lower_unit c) && leb (lower_unit c) b'z') || is_digit c || c == b'.' || c == b'-'

abbrev pub are_digits : Text → Bool
are_digits [] = true
are_digits (c ∷ cs) = is_digit c && are_digits cs

abbrev pub is_port : Text → Bool
is_port [] = false
is_port (c ∷ cs) = is_digit c && are_digits cs

-- The flag says that a unit of the host stands before.
abbrev pub is_host : Bool → Text → Bool
is_host started [] = started
is_host started (c ∷ cs) =
    let rest = is_host true cs in
    if is_host_unit c then rest else started && c == b':' && is_port cs

abbrev pub is_authority : Text → Bool
is_authority (a ∷ b ∷ c ∷ cs) = a == b':' && b == b'/' && c == b'/' && is_host false cs
is_authority _ = false

abbrev pub is_ascii_scheme : Text → Bool
is_ascii_scheme [] = false
is_ascii_scheme (c ∷ cs) = if lower_unit c == b's' then is_authority cs else is_authority (c ∷ cs)

abbrev pub drop_prefix : Text → Text → Option Text
drop_prefix [] t = some t
drop_prefix (p ∷ ps) [] = none
drop_prefix (p ∷ ps) (c ∷ cs) = let rest = drop_prefix ps cs in if p == c then rest else none

unfoldable pub is_ascii_origin : Text → Bool
is_ascii_origin (h ∷ t ∷ u ∷ p ∷ cs) =
    lower_unit h == b'h'
    && lower_unit t == b't'
    && lower_unit u == b't'
    && lower_unit p == b'p'
    && is_ascii_scheme cs
is_ascii_origin _ = false

-- `.` of a regular expression
abbrev pub is_line_unit : ℕ → Bool
is_line_unit c = not (c == 10 || c == 13 || c == 8232 || c == 8233)

abbrev pub is_line : Text → Bool
is_line [] = true
is_line (c ∷ cs) = is_line_unit c && is_line cs

-- `origin.match(/^(https?:\/\/)(.+)$/)`
abbrev pub nonempty_line : Text → Option Text
nonempty_line [] = none
nonempty_line (c ∷ cs) = if is_line (c ∷ cs) then some (c ∷ cs) else none

abbrev pub with_protocol : Text → Option Text → Option (Text × Text)
with_protocol p none = none
with_protocol p (some rest) = elim (nonempty_line rest) [ none ↦ none | some host ↦ some (p, host) ]

unfoldable pub split_origin : Text → Option (Text × Text)
split_origin t = elim (drop_prefix (units "http://") t) [
  | some rest ↦ with_protocol (units "http://") (some rest)
  | none ↦ with_protocol (units "https://") (drop_prefix (units "https://") t)
]

-- `host_of` is the `host` of `new URL` on a text, which is not ECMAScript, and `none` where that
-- throws.
module _ (host_of : Text → Option Text) where
  -- `hostnameToPunycode`
  unfoldable pub hostname_to_punycode : Text → Text
  unfolding hide_stars show_stars
  hostname_to_punycode hostname = elim (host_of (units "https://" ++ hide_stars hostname)) [
    | none ↦ hostname
    | some host ↦ show_stars zero host
  ]

  -- `originToPunycode`
  unfoldable pub origin_to_punycode : Text → Text
  unfolding is_ascii_origin split_origin hostname_to_punycode
  origin_to_punycode [] = []
  origin_to_punycode (c ∷ cs) =
      if is_ascii_origin (c ∷ cs) then ascii_lower (c ∷ cs) else (elim (split_origin (c ∷ cs)) [
        | none ↦ c ∷ cs
        | some parts ↦ parts.0 ++ hostname_to_punycode parts.1
      ])

-- The regular expression of an origin with `*`: each `*` is `[^.]*`, and any other unit itself.
abbrev pub skip_units : (Text → Bool) → Text → Bool
skip_units rest [] = rest []
skip_units rest (c ∷ cs) = rest (c ∷ cs) || (not (c == b'.') && skip_units rest cs)

abbrev pub first_is : ℕ → (Text → Bool) → Text → Bool
first_is p rest [] = false
first_is p rest (c ∷ cs) = c == p && rest cs

abbrev pub is_end : Text → Bool
is_end [] = true
is_end (c ∷ cs) = false

unfoldable pub matches_pattern : Text → Text → Bool
matches_pattern [] t = is_end t
matches_pattern (p ∷ ps) t =
    if p == star then skip_units (matches_pattern ps) t else first_is p (matches_pattern ps) t
