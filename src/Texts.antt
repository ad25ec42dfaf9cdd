-- ===== src/Texts.antt =====
-- Texts as lists of UTF-16 code units, as the http-router walks its paths and getInternal its keys, and
-- tables with texts as keys.
use Prim.Native.Char.{code}
use middy.Prelude.{
  ℕ, ◌+◌, ◌≡◌, refl, subst, ◌↔◌, String, Bool, true, false, ◌&&◌, Option, none, some, List, [], ◌∷◌,
  ◌++◌, arith, ◌==◌, leb, if◌then◌else◌, Bool-cases, inl, inr, All,
}

abbrev pub Text : Type 0
Text = List ℕ

-- The code units of an ASCII literal.
abbrev pub units : String → Text
units String.[] = []
units (String.◌∷◌ c s) = code c ∷ units s

abbrev pub slash : ℕ
slash = b'/'

-- `toLowerCase` of a text of ASCII letters.
abbrev pub lower_unit : ℕ → ℕ
lower_unit c = if leb b'A' c && leb c b'Z' then c + 32 else c

abbrev pub ascii_lower : Text → Text
ascii_lower [] = []
ascii_lower (c ∷ cs) = lower_unit c ∷ ascii_lower cs

abbrev pub same : Text → Text → Bool
same [] [] = true
same [] (y ∷ ys) = false
same (x ∷ xs) [] = false
same (x ∷ xs) (y ∷ ys) = x == y && same xs ys

pub same_refl : (xs : Text) → same xs xs ≡ true
same_refl [] = refl
same_refl (x ∷ xs) = ground (arith, same_refl xs)

pub same→eq : (xs ys : Text) → same xs ys ≡ true → xs ≡ ys
same→eq [] [] e = refl
same→eq [] (y ∷ ys) e = absurd cc
same→eq (x ∷ xs) [] e = absurd cc
same→eq (x ∷ xs) (y ∷ ys) e = ground (arith, same→eq xs ys)

pub same_iff : (xs ys : Text) → (same xs ys ≡ true) ↔ (xs ≡ ys)
same_iff xs ys = (same→eq xs ys, λ e. subst (λ t. same xs t ≡ true) e (same_refl xs))

-- `countSlashes`
unfoldable pub count_slashes : Text → ℕ
count_slashes [] = 0
count_slashes (c ∷ cs) = (if c == slash then 1 else 0) + count_slashes cs

-- Whether a text ends with a slash, when what stands before it does as given.
abbrev pub ends_in_slash : Bool → Text → Bool
ends_in_slash before [] = before
ends_in_slash before (c ∷ cs) = ends_in_slash (c == slash) cs

abbrev pub cons_first : ℕ → List Text → List Text
cons_first c [] = (c ∷ []) ∷ []
cons_first c (s ∷ ss) = (c ∷ s) ∷ ss

-- `text.split("/")`
unfoldable pub split : Text → List Text
split [] = [] ∷ []
split (c ∷ cs) = let rest = split cs in if c == slash then [] ∷ rest else cons_first c rest

-- `segments.join("/")`
abbrev pub join_after : Text → List Text → Text
join_after s [] = s
join_after s (t ∷ ts) = s ++ slash ∷ join_after t ts

unfoldable pub join : List Text → Text
join [] = []
join (s ∷ ss) = join_after s ss

pub count_slashes-append : (v t : Text) → count_slashes (v ++ t) ≡ count_slashes v + count_slashes t
unfolding count_slashes
count_slashes-append [] t = omega arith
count_slashes-append (c ∷ v) t = omega (arith, count_slashes-append v t)

pub split-cons : (t : Text) → (s : Text) × (ss : List Text) × (split t ≡ s ∷ ss)
unfolding split
split-cons [] = ([], [], refl)
split-cons (c ∷ t) =
    let (s, ss, e) = split-cons t in
    elim (Bool-cases (c == slash)) [
      | inl h ↦ ([], split t, ground arith)
      | inr h ↦ (c ∷ s, ss, ground (arith, e))
    ]

abbrev pub AreSlashFree : List Text → Type 0
AreSlashFree = All (λ s. count_slashes s ≡ 0)

-- A `Map` or an object with texts as keys, in insertion order.
abbrev pub Table {ℓ} : Type ℓ → Type ℓ
Table V = List (Text × V)

module _ {ℓ} {V : Type ℓ} where
  abbrev pub lookup : Text → Table V → Option V
  lookup k [] = none
  lookup k ((j, v) ∷ m) = if same j k then some v else lookup k m

  abbrev pub insert : Text → V → Table V → Table V
  insert k v [] = (k, v) ∷ []
  insert k v ((j, w) ∷ m) = if same j k then (k, v) ∷ m else (j, w) ∷ insert k v m

  pub lookup-insert :
      (k j : Text) (v : V) (m : Table V)
      → lookup j (insert k v m) ≡ (if same k j then some v else lookup j m)
  lookup-insert k j v [] = refl
  lookup-insert k j v ((i, w) ∷ m) =
      ground (arith, same_iff k j, same_iff i k, same_iff i j, lookup-insert k j v m)
