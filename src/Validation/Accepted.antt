-- ===== src/Validation/Accepted.antt =====
-- packages/util/index.js: which options `validateOptions` accepts.
use middy.Prelude.{
  ◌≡◌, refl, sym, ap, subst, ◌⊎◌, inl, inr, ◌↔◌, Bool, true, false, [], ◌∷◌, ok, arith, Bool-cases,
}
use middy.Texts.{Text, units, same, same_iff}
use middy.Validation.Rules.{
  Value, Fields, end, field, Host, Rule, flat, Schema, complete, option, Place, key, Reason,
  must_be, unknown_option, mismatch, malformed, thrown, Check, passed, failed, also,
}
use middy.Validation.Types.{property, is_plain_object, require}
use middy.Validation.Steps.{has_option, fields_of, check_known}
use middy.Validation.Check.{
  check_at, check_options, flat_form, to_outcome, options_of, validate_options,
}

abbrev pub IsPassed : {E : Type 0} → Check E → Type 0
IsPassed passed = Unit
IsPassed (failed e) = ⊥

abbrev pub HasField : {N : Type 0} → Text → Fields N → Type 0
HasField k end = ⊥
HasField k (field j v fs) = (k ≡ j) ⊎ HasField k fs

abbrev pub HasOption : {N E : Type 0} → Text → Rule N E → Schema N E → Type 0
HasOption k r complete = ⊥
HasOption k r (option j q s) = ((k ≡ j) × (r ≡ q)) ⊎ HasOption k r s

module _ {E : Type 0} where
  also_iff : (a b : Check E) → IsPassed (also a b) ↔ (IsPassed a × IsPassed b)
  also_iff passed b = (λ h. (tt, h), λ h. h.1)
  also_iff (failed e) b = (λ h. absurd h, λ h. absurd h.0)

pub require_iff :
    (E : Type 0) (b : Bool) (r : Reason) (p : Place) → IsPassed (require {E = E} b r p) ↔ (b ≡ true)
require_iff E true r p = (λ h. refl, λ h. tt)
require_iff E false r p = (λ h. absurd h, λ h. absurd cc)

has_option-some :
    {N E : Type 0} (k : Text) (s : Schema N E)
    → has_option k s ≡ true
    → (r : Rule N E) × HasOption k r s
has_option-some k complete e = absurd cc
has_option-some k (option j r s) e = elim (Bool-cases (same j k)) [
  | inl h ↦ (r, inl (sym ((same_iff j k).0 h), refl))
  | inr h ↦ let (q, i) = has_option-some k s (ground (arith, h, e)) in (q, inr i)
]

HasOption-has_option :
    {N E : Type 0} (k : Text) (r : Rule N E) (s : Schema N E)
    → HasOption k r s
    → has_option k s ≡ true
HasOption-has_option k r complete i = absurd i
HasOption-has_option k r (option j q s) (inl (e, d)) = ground (arith, same_iff j k, e)
HasOption-has_option k r (option j q s) (inr i) = ground (arith, HasOption-has_option k r s i)

module _ {N E : Type 0} (host : Host N) where
  -- Every property is an option of the schema.
  check_known_iff :
      (s : Schema N E) (fs : Fields N) (p : Place)
      → IsPassed (check_known s fs p) ↔ ((k : Text) → HasField k fs → has_option k s ≡ true)
  check_known_iff s end p = (λ h k i. absurd i, λ h. tt)
  check_known_iff s (field j v fs) p = (
    λ h k i.
        let (a, b) =
          (also_iff (require (has_option j s) unknown_option (key j ∷ p)) (check_known s fs p)).0
            h in
        known_cases s k j fs ((require_iff E (has_option j s) unknown_option (key j ∷ p)).0 a)
          ((check_known_iff s fs p).0 b) i,
    λ h. (also_iff (require (has_option j s) unknown_option (key j ∷ p)) (check_known s fs p)).1 (
      (require_iff E (has_option j s) unknown_option (key j ∷ p)).1 (h j (inl refl)),
      (check_known_iff s fs p).1 (λ k i. h k (inr i)),
    ),
  )
    where
      known_cases :
          (s : Schema N E) (k j : Text) (fs : Fields N)
          → has_option j s ≡ true
          → ((k : Text) → HasField k fs → has_option k s ≡ true)
          → (k ≡ j) ⊎ HasField k fs
          → has_option k s ≡ true
      known_cases s k j fs a b (inl e) =
          subst (λ i. has_option i s ≡ true) {x = j} {y = k} (sym e) a
      known_cases s k j fs a b (inr i) = b k i

  -- The value of every option passes its rule.
  check_options_iff :
      (s : Schema N E) (fs : Fields N) (p : Place)
      → IsPassed (check_options host s fs p) ↔ (
          (k : Text) (r : Rule N E)
          → HasOption k r s
          → IsPassed (check_at host false r (property k fs) (key k ∷ p)))
  unfolding check_at
  check_options_iff complete fs p = (λ h k r i. absurd i, λ h. tt)
  check_options_iff (option j q s) fs p =
      let f =
        also_iff (check_at host false q (property j fs) (key j ∷ p)) (check_options host s fs p) in
      let g = check_options_iff s fs p in
      (
        λ h k r i. option_cases j q s fs p (f.0 h).0 (g.0 (f.0 h).1) k r i,
        λ h. f.1 (h j q (inl (refl, refl)), g.1 (λ k r i. h k r (inr i))),
      )
    where
      option_cases :
          (j : Text) (q : Rule N E) (s : Schema N E) (fs : Fields N) (p : Place)
          → IsPassed (check_at host false q (property j fs) (key j ∷ p))
          → ((k : Text) (r : Rule N E)
              → HasOption k r s
              → IsPassed (check_at host false r (property k fs) (key k ∷ p)))
          → (k : Text) (r : Rule N E) → ((k ≡ j) × (r ≡ q)) ⊎ HasOption k r s
          → IsPassed (check_at host false r (property k fs) (key k ∷ p))
      option_cases j q s fs p a b k r (inl (e, d)) =
          subst (λ i. IsPassed (check_at host false r (property i fs) (key i ∷ p))) {x = j} {y = k}
            (sym e)
            (subst (λ z. IsPassed (check_at host false z (property j fs) (key j ∷ p))) {x = q}
              {y = r} (sym d) a)
      option_cases j q s fs p a b k r (inr i) = b k r i

  to_outcome_iff :
      (c : Check E) (v w : Value N) → ((to_outcome c v ≡ ok w) ↔ ((v ≡ w) × IsPassed c))
  to_outcome_iff passed v w = (λ e. (cc, tt), λ (e, h). ap ok e)
  to_outcome_iff (failed (thrown x)) v w = (λ e. absurd cc, λ (e, h). absurd h)
  to_outcome_iff (failed (mismatch r p)) v w = (λ e. absurd cc, λ (e, h). absurd h)
  to_outcome_iff (failed (malformed p)) v w = (λ e. absurd cc, λ (e, h). absurd h)

  -- What a flat schema asks of options, in any order.
  abbrev pub IsValid : Schema N E → Value N → Type 0
  IsValid s v =
      (is_plain_object v ≡ true)
      × (((k : Text) → HasField k (fields_of v) → (r : Rule N E) × HasOption k r s)
          × ((k : Text) (r : Rule N E)
              → HasOption k r s
              → IsPassed (check_at host false r (property k (fields_of v)) (key k ∷ []))))

-- `validateOptions` with a flat schema returns if and only if the options are an object, each of its
-- properties is an option of the schema, and the value of each option, `undefined` where there is
-- none, passes the option's rule; it returns the options, or `{}` where none are given.
pub validate_options_iff :
    {N E : Type 0} (host : Host N) (s : Schema N E) (v w : Value N)
    → (validate_options host (flat_form s) v ≡ ok w)
      ↔ ((options_of v ≡ w) × IsValid host s (options_of v))
unfolding validate_options check_at
validate_options_iff {N} {E} host s v w =
    let o = options_of v in
    let fs = fields_of o in
    let a = to_outcome_iff host (check_at host true (flat s) o []) o w in
    let known = check_known s fs [] in
    let opts = check_options host s fs [] in
    let shape = require (is_plain_object o) (must_be (units "object")) [] in
    let b = also_iff shape (also known opts) in
    let c = also_iff known opts in
    let d = require_iff E (is_plain_object o) (must_be (units "object")) [] in
    let f = check_known_iff host s fs [] in
    let g = check_options_iff host s fs [] in
    (
      λ e.
          let (x, h) = a.0 e in
          let (y, z) = b.0 h in
          (x, (d.0 y, (λ k i. has_option-some k s (f.0 (c.0 z).0 k i), g.0 (c.0 z).1))),
      λ (x, (y, (t, u))). a.1 (
        x,
        b.1 (d.1 y, c.1 (f.1 (λ k i. let (r, j) = t k i in HasOption-has_option k r s j), g.1 u)),
      ),
    )
