-- ===== src/Headers/Negotiation/Negotiating.antt =====
-- packages/http-content-negotiation/index.js: what the handler may rely on after the hook.
use middy.Prelude.{
  ◌≡◌, refl, ap, ◌∙◌, Bool, true, false, Option, none, some, List, [], ◌∷◌, arith, Bool-cases, inl,
  inr, if◌then◌else◌, sym,
}
use middy.Texts.{Text, same, Table, lookup, insert, lookup-insert}
use middy.Headers.Fields.{HeaderValue, HttpEvent, header_list_value, read_either}
use middy.HttpErrors.Codes.{HttpError}
use middy.Headers.Negotiation.{
  Kind, charset, encoding, language, media_type, Preference, NegotiationOptions, Preferred, all_of,
  first_of, Namespace, header_name, lower_name, results_name, result_name, first, settle_mismatch,
  settle, parse_header, parse_next, negotiate,
}
use middy.Headers.Negotiation.Preferring.{
  preferred, ParsesAvailable, IsOneOf, IsOneOf-eq, parse_header-IsOneOf,
}

-- The results of another kind stand under other names.
abbrev IsOther : Kind → Kind → Type 0
IsOther k j = same (result_name k) (result_name j) ≡ false

results_name-result_name : (k j : Kind) → same (results_name k) (result_name j) ≡ false
results_name-result_name charset charset = refl
results_name-result_name charset encoding = refl
results_name-result_name charset language = refl
results_name-result_name charset media_type = refl
results_name-result_name encoding charset = refl
results_name-result_name encoding encoding = refl
results_name-result_name encoding language = refl
results_name-result_name encoding media_type = refl
results_name-result_name language charset = refl
results_name-result_name language encoding = refl
results_name-result_name language language = refl
results_name-result_name language media_type = refl
results_name-result_name media_type charset = refl
results_name-result_name media_type encoding = refl
results_name-result_name media_type language = refl
results_name-result_name media_type media_type = refl

lookup-other :
    (k j : Kind) (v : Preferred) (c : Namespace)
    → IsOther k j
    → lookup (result_name j) (insert (result_name k) v c) ≡ lookup (result_name j) c
lookup-other k j v c n = ground (arith, n, lookup-insert (result_name k) (result_name j) v c)

settle_mismatch-other :
    (k j : Kind) (b fails : Bool) (available : Option (List Text)) (c : Namespace)
    → IsOther k j
    → lookup (result_name j) (settle_mismatch k b fails available c).0 ≡ lookup (result_name j) c
settle_mismatch-other k j b fails none c n = refl
settle_mismatch-other k j b fails (some []) c n = refl
settle_mismatch-other k j true fails (some (t ∷ ts)) c n = lookup-other k j (first_of (some t)) c n
settle_mismatch-other k j false true (some (t ∷ ts)) c n = refl
settle_mismatch-other k j false false (some (t ∷ ts)) c n = refl

settle-other :
    (k j : Kind) (p : Preference) (fails : Bool) (r : Option Text) (c : Namespace)
    → IsOther k j
    → lookup (result_name j) (settle k p fails r c).0 ≡ lookup (result_name j) c
settle-other k j p fails (some t) c n = refl
settle-other k j p fails none c n =
    settle_mismatch-other k j p.default_to_first fails p.available c n

module _ (parse : Kind → Option Text → Option (List Text) → List Text) where
  parse_header-other :
      (k j : Kind) (p : Preference) (fails : Bool) (headers : Table HeaderValue) (c : Namespace)
      → IsOther k j
      → preferred j (parse_header parse k p fails headers c).0 ≡ preferred j c
  unfolding parse_header
  parse_header-other k j p fails headers c n =
      let header = header_list_value (read_either (header_name k) (lower_name k) headers) in
      let results = parse k header p.available in
      let filled = insert (results_name k) (all_of results) c in
      let v = first_of (first results) in
      ap (λ x. elim x [ none ↦ none | some (all_of ts) ↦ none | some (first_of t) ↦ t ])
        (settle-other k j p fails (first results) (insert (result_name k) v filled) n
          ∙ lookup-other k j v filled n
          ∙ lookup-insert (results_name k) (result_name j) (all_of results) c
          ∙ ap (λ b. if b then some (all_of results) else lookup (result_name j) c)
              (results_name-result_name k j))

  module _ (o : NegotiationOptions) (headers : Table HeaderValue) where
    next-none :
        (k : Kind) (x : Namespace × Option HttpError)
        → (parse_next parse o headers k x).1 ≡ none
        → x.1 ≡ none
    next-none k (c, none) e = refl
    next-none k (c, some err) e = e

    next-keeps :
        (k j : Kind) (ts : List Text) (x : Namespace × Option HttpError)
        → IsOther k j
        → IsOneOf ts (preferred j x.0)
        → IsOneOf ts (preferred j (parse_next parse o headers k x).0)
    next-keeps k j ts (c, some err) n h = h
    next-keeps k j ts (c, none) n h = elim (Bool-cases (o.preference k).parses) [
      | inl b ↦
          IsOneOf-eq ts (preferred j (parse_next parse o headers k (c, none)).0) (preferred j c)
            (ap
                (λ y.
                  preferred j
                    (if y
                      then parse_header parse k (o.preference k) o.fail_on_mismatch headers c
                      else (c, none)).0)
                b
              ∙ parse_header-other k j (o.preference k) o.fail_on_mismatch headers c n)
            h
      | inr b ↦
          IsOneOf-eq ts (preferred j (parse_next parse o headers k (c, none)).0) (preferred j c)
            (ap
              (λ y.
                preferred j
                  (if y
                    then parse_header parse k (o.preference k) o.fail_on_mismatch headers c
                    else (c, none)).0)
              b)
            h
    ]

    next-sets :
        (k : Kind) (t : Text) (ts : List Text) (x : Namespace × Option HttpError)
        → ParsesAvailable parse
        → o.fail_on_mismatch ≡ true
        → (o.preference k).parses ≡ true
        → (o.preference k).available ≡ some (t ∷ ts)
        → (parse_next parse o headers k x).1 ≡ none
        → IsOneOf (t ∷ ts) (preferred k (parse_next parse o headers k x).0)
    next-sets k t ts (c, some err) d f p a e = absurd cc
    next-sets k t ts (c, none) d f p a e =
        let g : parse_next parse o headers k (c, none)
            ≡ parse_header parse k (o.preference k) true headers c =
          ap
            (λ y.
              if y
              then parse_header parse k (o.preference k) o.fail_on_mismatch headers c
              else (c, none))
            p
          ∙ ap (λ y. parse_header parse k (o.preference k) y headers c) f in
        IsOneOf-eq (t ∷ ts) (preferred k (parse_next parse o headers k (c, none)).0)
          (preferred k (parse_header parse k (o.preference k) true headers c).0)
          (ap (λ y. preferred k y.0) g)
          (parse_header-IsOneOf parse k (o.preference k) headers t ts c d a
            (sym (ap (λ y. y.1) g) ∙ e))

    abbrev turns : Namespace → Namespace × Option HttpError
    turns c = parse_next parse o headers media_type (
        parse_next parse o headers language
          (parse_next parse o headers encoding (parse_next parse o headers charset (c, none))))

    turns-IsOneOf :
        (k : Kind) (t : Text) (ts : List Text) (c : Namespace)
        → ParsesAvailable parse
        → o.fail_on_mismatch ≡ true
        → (o.preference k).parses ≡ true
        → (o.preference k).available ≡ some (t ∷ ts)
        → (turns c).1 ≡ none
        → IsOneOf (t ∷ ts) (preferred k (turns c).0)
    turns-IsOneOf charset t ts c d f p a e =
        let x₁ = parse_next parse o headers charset (c, none) in
        let x₂ = parse_next parse o headers encoding x₁ in
        let x₃ = parse_next parse o headers language x₂ in
        next-keeps media_type charset (t ∷ ts) x₃ refl (
          next-keeps language charset (t ∷ ts) x₂ refl (
            next-keeps encoding charset (t ∷ ts) x₁ refl (
              next-sets charset t ts (c, none) d f p a
                (next-none encoding x₁ (next-none language x₂ (next-none media_type x₃ e))))))
    turns-IsOneOf encoding t ts c d f p a e =
        let x₁ = parse_next parse o headers charset (c, none) in
        let x₂ = parse_next parse o headers encoding x₁ in
        let x₃ = parse_next parse o headers language x₂ in
        next-keeps media_type encoding (t ∷ ts) x₃ refl (
          next-keeps language encoding (t ∷ ts) x₂ refl (
            next-sets encoding t ts x₁ d f p a (next-none language x₂ (next-none media_type x₃ e))))
    turns-IsOneOf language t ts c d f p a e =
        let x₁ = parse_next parse o headers charset (c, none) in
        let x₂ = parse_next parse o headers encoding x₁ in
        let x₃ = parse_next parse o headers language x₂ in
        next-keeps media_type language (t ∷ ts) x₃ refl
          (next-sets language t ts x₂ d f p a (next-none media_type x₃ e))
    turns-IsOneOf media_type t ts c d f p a e =
        let x₁ = parse_next parse o headers charset (c, none) in
        let x₂ = parse_next parse o headers encoding x₁ in
        let x₃ = parse_next parse o headers language x₂ in next-sets media_type t ts x₃ d f p a e

-- With `failOnMismatch`, a kind that is parsed and has at least one available value, and an event
-- with headers: the hook throws, or what is then preferred of that kind, after all four headers, is
-- one of its available values, and not `undefined`. The parsers give none but available values, as
-- they document. An event without `headers` is left alone, and nothing is preferred then.
pub negotiate-IsOneOf :
    (parse : Kind → Option Text → Option (List Text) → List Text) (o : NegotiationOptions)
    (e : HttpEvent) (headers : Table HeaderValue) (k : Kind) (t : Text) (ts : List Text)
    (c : Namespace)
    → ParsesAvailable parse
    → o.fail_on_mismatch ≡ true
    → (o.preference k).parses ≡ true
    → (o.preference k).available ≡ some (t ∷ ts)
    → e.headers ≡ some headers
    → (negotiate parse o e c).1 ≡ none
    → IsOneOf (t ∷ ts) (preferred k (negotiate parse o e c).0)
unfolding negotiate
negotiate-IsOneOf parse o e headers k t ts c d f p a h r =
    let g : negotiate parse o e c ≡ turns parse o headers c =
      ap (λ x. elim x [ none ↦ (c, none) | some hs ↦ turns parse o hs c ]) h in
    IsOneOf-eq (t ∷ ts) (preferred k (negotiate parse o e c).0)
      (preferred k (turns parse o headers c).0) (ap (λ y. preferred k y.0) g)
      (turns-IsOneOf parse o headers k t ts c d f p a (sym (ap (λ y. y.1) g) ∙ r))
