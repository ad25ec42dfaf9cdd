-- ===== src/Validation/OneOf.antt =====
-- packages/util/index.js: `oneOf` of a schema.
use middy.Prelude.{
  ℕ, suc, ◌==◌, ==→eq, ◌≡◌, refl, sym, ap, ◌∙◌, subst, ◌⊎◌, inl, inr, ◌↔◌, true, false, arith,
}
use middy.Validation.Rules.{
  Value, undefined, null, number, boolean, string, function, array, object, Host, Rule, one_of,
  RuleList, no_more, more, Place, not_exactly_one, mismatch, malformed, thrown, Check, passed,
  failed,
}
use middy.Validation.Steps.{counted, count_one, check_count, when_there}
use middy.Validation.Check.{check_at, count_matches}
use middy.Validation.Accepted.{IsPassed, require_iff}

abbrev pub IsMalformed : {E : Type 0} → Check E → Type 0
IsMalformed (failed (malformed p)) = Unit
IsMalformed _ = ⊥

module _ {N E : Type 0} (host : Host N) (v : Value N) (p : Place) where
  abbrev pub Passes : Rule N E → Type 0
  Passes r = IsPassed (check_at host false r v p)

  abbrev pub NonePass : RuleList N E → Type 0
  NonePass no_more = Unit
  NonePass (more r rs) = (¬ Passes r) × NonePass rs

  abbrev pub OnePasses : RuleList N E → Type 0
  OnePasses no_more = ⊥
  OnePasses (more r rs) = (Passes r × NonePass rs) ⊎ ((¬ Passes r) × OnePasses rs)

  abbrev pub NoneMalformed : RuleList N E → Type 0
  NoneMalformed no_more = Unit
  NoneMalformed (more r rs) = (¬ IsMalformed (check_at host false r v p)) × NoneMalformed rs

-- What a count says of the schemas that were counted.
abbrev Counts : ℕ → Type 0 → Type 0 → Type 0
Counts n P Q = ((n ≡ 0) ↔ P) × ((n ≡ 1) ↔ Q)

module _ {E : Type 0} where
  count_one-Counts :
      (c : Check E) (n : ℕ) (P Q : Type 0)
      → ¬ IsMalformed c
      → Counts n P Q
      → (m : ℕ) × ((count_one c (counted n) ≡ counted m)
          × Counts m ((¬ IsPassed c) × P) ((IsPassed c × P) ⊎ ((¬ IsPassed c) × Q)))
  count_one-Counts passed n P Q h ((a, b), (c, d)) = (
    suc n,
    (
      refl,
      (
        (λ e. absurd (omega arith), λ (k, q). absurd (k tt)),
        (
          λ e. inl (tt, a (omega arith)),
          λ s. elim s [ inl (t, q) ↦ let z = b q in omega (arith, z) | inr (k, q) ↦ absurd (k tt) ],
        ),
      ),
    ),
  )
  count_one-Counts (failed (malformed q)) n P Q h k = absurd (h tt)
  count_one-Counts (failed (mismatch r q)) n P Q h ((a, b), (c, d)) = (
    n,
    (
      refl,
      (
        (λ e. (λ f. f, a e), λ (k, q). b q),
        (λ e. inr (λ f. f, c e), λ s. elim s [ inl (t, q) ↦ absurd t | inr (k, q) ↦ d q ]),
      ),
    ),
  )
  count_one-Counts (failed (thrown x)) n P Q h ((a, b), (c, d)) = (
    n,
    (
      refl,
      (
        (λ e. (λ f. f, a e), λ (k, q). b q),
        (λ e. inr (λ f. f, c e), λ s. elim s [ inl (t, q) ↦ absurd t | inr (k, q) ↦ d q ]),
      ),
    ),
  )

module _ {N E : Type 0} (host : Host N) (v : Value N) (p : Place) where
  count_matches-Counts :
      (rs : RuleList N E)
      → NoneMalformed host v p rs
      → (n : ℕ) × ((count_matches host rs v p ≡ counted n)
          × Counts n (NonePass host v p rs) (OnePasses host v p rs))
  unfolding check_at
  count_matches-Counts no_more h =
      (0, (refl, ((λ e. tt, λ q. refl), (λ e. absurd (omega arith), λ q. absurd q))))
  count_matches-Counts (more r rs) (m, h) =
      let (n, (e, k)) = count_matches-Counts rs h in
      let c = check_at host false r v p in
      let (i, (d, j)) = count_one-Counts c n (NonePass host v p rs) (OnePasses host v p rs) m k in
      (i, (ap (count_one c) e ∙ d, j))

when_there_iff :
    {N E : Type 0} (v : Value N) (c : Check E)
    → IsPassed (when_there v c) ↔ ((v ≡ undefined) ⊎ IsPassed c)
when_there_iff undefined c = (λ h. inl refl, λ h. tt)
when_there_iff null c = (λ h. inr h, λ s. elim s [ inl e ↦ absurd cc | inr h ↦ h ])
when_there_iff (number n) c = (λ h. inr h, λ s. elim s [ inl e ↦ absurd cc | inr h ↦ h ])
when_there_iff (boolean n) c = (λ h. inr h, λ s. elim s [ inl e ↦ absurd cc | inr h ↦ h ])
when_there_iff (string n) c = (λ h. inr h, λ s. elim s [ inl e ↦ absurd cc | inr h ↦ h ])
when_there_iff (function n) c = (λ h. inr h, λ s. elim s [ inl e ↦ absurd cc | inr h ↦ h ])
when_there_iff (array n) c = (λ h. inr h, λ s. elim s [ inl e ↦ absurd cc | inr h ↦ h ])
when_there_iff (object n) c = (λ h. inr h, λ s. elim s [ inl e ↦ absurd cc | inr h ↦ h ])

==-iff : (a b : ℕ) → (a == b ≡ true) ↔ (a ≡ b)
==-iff a b = (==→eq a b, λ e. ground (arith, e))

-- A rule `oneOf` whose schemas are well formed accepts a value if and only if it is `undefined` or
-- passes exactly one of the schemas; a schema whose predicate throws does not count as passed.
pub one_of_iff :
    {N E : Type 0} (host : Host N) (v : Value N) (p : Place) (rs : RuleList N E)
    → NoneMalformed host v p rs
    → IsPassed (check_at host false (one_of rs) v p) ↔ ((v ≡ undefined) ⊎ OnePasses host v p rs)
unfolding check_at
one_of_iff {N} {E} host v p rs h =
    let (n, (e, (z, o))) = count_matches-Counts host v p rs h in
    let c = check_count (count_matches host rs v p) p in
    let w = when_there_iff v c in
    let r = require_iff E (n == 1) not_exactly_one p in
    let q = ==-iff n 1 in
    let same_check : check_count (counted n) p ≡ c = ap (λ k. check_count k p) (sym e) in
    (
      λ t. elim (w.0 t) [
        | inl d ↦ inl d
        | inr g ↦ inr (
            o.0 (
              q.0
                (r.0 (subst IsPassed {x = c} {y = check_count (counted n) p} (sym same_check) g))))
      ],
      λ s. w.1 (elim s [
        | inl d ↦ inl d
        | inr g ↦
            inr (
              subst IsPassed {x = check_count (counted n) p} {y = c} same_check (r.1 (q.1 (o.1 g))))
      ]),
    )
