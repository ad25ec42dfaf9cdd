-- ===== src/Headers/Negotiation/Preferring.antt =====
-- packages/http-content-negotiation/index.js: what the handler may rely on.
use middy.Prelude.{
  ◌≡◌, refl, sym, ap, subst, ◌∙◌, Bool, true, false, Option, none, some, List, ◌∷◌, arith,
}
use middy.Texts.{Text, same_refl, Table, lookup, insert, lookup-insert}
use middy.Headers.Fields.{HeaderValue, includes, header_list_value, read_either}
use middy.Headers.Negotiation.{
  Kind, Preference, all_of, first_of, Namespace, header_name, lower_name, results_name, result_name,
  first, settle_mismatch, settle, parse_header,
}

-- The value that a client of the namespace reads as preferred.
abbrev pub preferred : Kind → Namespace → Option Text
preferred k c = elim (lookup (result_name k) c) [
  | none ↦ none
  | some (all_of ts) ↦ none
  | some (first_of t) ↦ t
]

-- What is documented of the parsers: they give none but available values, where those are given.
abbrev pub ParsesAvailable : (Kind → Option Text → Option (List Text) → List Text) → Type 0
ParsesAvailable parse =
    (k : Kind) (header : Option Text) (available : List Text) (t : Text)
    → first (parse k header (some available)) ≡ some t
    → includes t available ≡ true

-- The value is one of those.
abbrev pub IsOneOf : List Text → Option Text → Type 0
IsOneOf ts none = true ≡ false
IsOneOf ts (some t) = includes t ts ≡ true

preferred-insert :
    (k : Kind) (t : Option Text) (c : Namespace)
    → preferred k (insert (result_name k) (first_of t) c) ≡ t
preferred-insert k t c =
    ground (
      arith,
      lookup-insert (result_name k) (result_name k) (first_of t) c,
      same_refl (result_name k),
    )

pub IsOneOf-eq : (ts : List Text) (x y : Option Text) → x ≡ y → IsOneOf ts y → IsOneOf ts x
IsOneOf-eq ts none none e h = h
IsOneOf-eq ts none (some y) e h = absurd cc
IsOneOf-eq ts (some x) none e h = absurd cc
IsOneOf-eq ts (some x) (some y) e h = ground (arith, e, h)

includes-first : (t : Text) (ts : List Text) → includes t (t ∷ ts) ≡ true
includes-first t ts = ground (arith, same_refl t)

settle_mismatch-IsOneOf :
    (k : Kind) (b : Bool) (t : Text) (ts : List Text) (c : Namespace)
    → (settle_mismatch k b true (some (t ∷ ts)) c).1 ≡ none
    → IsOneOf (t ∷ ts) (preferred k (settle_mismatch k b true (some (t ∷ ts)) c).0)
settle_mismatch-IsOneOf k true t ts c e =
    IsOneOf-eq (t ∷ ts) (preferred k (insert (result_name k) (first_of (some t)) c)) (some t)
      (preferred-insert k (some t) c) (includes-first t ts)
settle_mismatch-IsOneOf k false t ts c e = absurd cc

settle-IsOneOf :
    (k : Kind) (p : Preference) (r : Option Text) (t : Text) (ts : List Text) (c : Namespace)
    → p.available ≡ some (t ∷ ts)
    → preferred k c ≡ r
    → ((x : Text) → r ≡ some x → includes x (t ∷ ts) ≡ true)
    → (settle k p true r c).1 ≡ none
    → IsOneOf (t ∷ ts) (preferred k (settle k p true r c).0)
settle-IsOneOf k p (some x) t ts c a e h f =
    IsOneOf-eq (t ∷ ts) (preferred k c) (some x) e (h x refl)
settle-IsOneOf k p none t ts c a e h f =
    subst
      (λ a.
        (settle_mismatch k p.default_to_first true a c).1 ≡ none
        → IsOneOf (t ∷ ts) (preferred k (settle_mismatch k p.default_to_first true a c).0))
      (sym a) (settle_mismatch-IsOneOf k p.default_to_first t ts c) f

-- One header that is parsed with `failOnMismatch` and at least one available value.
pub parse_header-IsOneOf :
    (parse : Kind → Option Text → Option (List Text) → List Text) (k : Kind) (p : Preference)
    (headers : Table HeaderValue) (t : Text) (ts : List Text) (c : Namespace)
    → ParsesAvailable parse
    → p.available ≡ some (t ∷ ts)
    → (parse_header parse k p true headers c).1 ≡ none
    → IsOneOf (t ∷ ts) (preferred k (parse_header parse k p true headers c).0)
unfolding parse_header
parse_header-IsOneOf parse k p headers t ts c documented a e =
    let header = header_list_value (read_either (header_name k) (lower_name k) headers) in
    let results = parse k header p.available in
    let filled = insert (results_name k) (all_of results) c in
    settle-IsOneOf k p (first results) t ts
      (insert (result_name k) (first_of (first results)) filled) a
      (preferred-insert k (first results) filled)
      (λ x f. documented k header (t ∷ ts) x (ap (λ a. first (parse k header a)) (sym a) ∙ f)) e
