-- ===== src/Headers/Cors/Matching.antt =====
-- packages/http-cors/index.js: which origins the regular expression of one with `*` matches.
use middy.Prelude.{
  ℕ, ◌==◌, ==→eq, ◌≡◌, refl, sym, ap, subst, inl, inr, ◌↔◌, Bool, true, false, ◌&&◌, not, [], ◌∷◌,
  ◌++◌, arith, Bool-cases, if◌then◌else◌,
}
use middy.Texts.{Text}
use middy.Headers.Cors.Origins.{star, skip_units, first_is, matches_pattern}

abbrev pub is_dotless : Text → Bool
is_dotless [] = true
is_dotless (c ∷ cs) = not (c == b'.') && is_dotless cs

-- The text is the pattern with a text without dots for each `*`.
abbrev pub FillsStar : (Text → Type 0) → Text → Type 0
FillsStar F t = (u : Text) × (rest : Text) × ((t ≡ u ++ rest) × ((is_dotless u ≡ true) × F rest))

abbrev pub FillsUnit : ℕ → (Text → Type 0) → Text → Type 0
FillsUnit p F t = (rest : Text) × ((t ≡ p ∷ rest) × F rest)

abbrev pub Fills : Text → Text → Type 0
Fills [] t = t ≡ []
Fills (p ∷ ps) t = if p == star then FillsStar (Fills ps) t else FillsUnit p (Fills ps) t

FillsStar-skip_units :
    (F : Text → Type 0) (f : Text → Bool) (t : Text)
    → ((r : Text) → f r ≡ true → F r)
    → skip_units f t ≡ true
    → FillsStar F t
FillsStar-skip_units F f [] h e = ([], [], (refl, (refl, h [] e)))
FillsStar-skip_units F f (c ∷ cs) h e = elim (Bool-cases (f (c ∷ cs))) [
  | inl g ↦ ([], c ∷ cs, (refl, (refl, h (c ∷ cs) g)))
  | inr g ↦
      let (u, rest, (d, (n, r))) = FillsStar-skip_units F f cs h (ground (arith, g, e)) in
      (c ∷ u, rest, (ap (λ t. c ∷ t) d, (ground (arith, g, e, n), r)))
]

skip_units-append :
    (f : Text → Bool) (u rest : Text)
    → is_dotless u ≡ true
    → f rest ≡ true
    → skip_units f (u ++ rest) ≡ true
skip_units-append f [] [] h e = e
skip_units-append f [] (c ∷ cs) h e = ground (arith, e)
skip_units-append f (c ∷ u) rest h e = ground (arith, skip_units-append f u rest, h, e)

skip_units_iff :
    (f : Text → Bool) (F : Text → Type 0) (t : Text)
    → ((r : Text) → (f r ≡ true) ↔ F r)
    → (skip_units f t ≡ true) ↔ FillsStar F t
skip_units_iff f F t h = (
  FillsStar-skip_units F f t (λ r. (h r).0),
  λ (u, rest, (d, (n, r))).
      subst (λ t. skip_units f t ≡ true) {x = u ++ rest} {y = t} (sym d)
        (skip_units-append f u rest n ((h rest).1 r)),
)

first_is_iff :
    (p : ℕ) (f : Text → Bool) (F : Text → Type 0) (t : Text)
    → ((r : Text) → (f r ≡ true) ↔ F r)
    → (first_is p f t ≡ true) ↔ FillsUnit p F t
first_is_iff p f F [] h = (λ e. absurd cc, λ (r, (d, q)). absurd cc)
first_is_iff p f F (c ∷ cs) h = (
  λ e. (cs, (ground (arith, e, ==→eq c p), (h cs).0 (ground (arith, e)))),
  λ (r, (d, q)).
      subst (λ t. first_is p f t ≡ true) {x = p ∷ r} {y = c ∷ cs} (sym d)
        (ground (arith, (h r).1 q)),
)

if_iff :
    (b x y : Bool) (P Q : Type 0)
    → (x ≡ true) ↔ P
    → (y ≡ true) ↔ Q
    → ((if b then x else y) ≡ true) ↔ (if b then P else Q)
if_iff true x y P Q f g = f
if_iff false x y P Q f g = g

-- The regular expression that is made of an origin with `*` matches a text if and only if the text
-- is the origin with a text without dots in place of each `*`.
pub matches_pattern_iff : (p t : Text) → (matches_pattern p t ≡ true) ↔ Fills p t
unfolding matches_pattern
matches_pattern_iff [] [] = (λ e. refl, λ f. refl)
matches_pattern_iff [] (c ∷ cs) = (λ e. absurd cc, λ f. absurd cc)
matches_pattern_iff (p ∷ ps) t =
    if_iff (p == star) (skip_units (matches_pattern ps) t) (first_is p (matches_pattern ps) t)
      (FillsStar (Fills ps) t) (FillsUnit p (Fills ps) t)
      (skip_units_iff (matches_pattern ps) (Fills ps) t (matches_pattern_iff ps))
      (first_is_iff p (matches_pattern ps) (Fills ps) t (matches_pattern_iff ps))
