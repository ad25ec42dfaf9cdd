-- ===== src/Headers/Cors/Listing.antt =====
-- packages/http-cors/index.js: what a header lists, before and after `addHeaderPart`.
use middy.Prelude.{
  ◌≡◌, refl, sym, ap, ◌∙◌, subst, ◌⊎◌, inl, inr, Bool, true, false, ◌||◌, Option, none, some, List,
  [], ◌∷◌, ◌++◌, arith, Bool-cases, if◌then◌else◌, ◌==◌, ℕ,
}
use middy.Texts.{Text, units, same, same_iff, same_refl, lookup, insert, lookup-insert}
use middy.Headers.Fields.{truthy, split_on}
use middy.Headers.Cors.Options.{Platform}
use middy.Headers.Cors.Modify.{Headers, read_truthy, lists_token, extend_header}

split_on-nonempty : (d : ℕ) (t : Text) → (s : Text) × (ss : List Text) × (split_on d t ≡ s ∷ ss)
unfolding split_on
split_on-nonempty d [] = ([], [], refl)
split_on-nonempty d (c ∷ t) =
    let (s, ss, e) = split_on-nonempty d t in
    elim (Bool-cases (c == d)) [
      | inl h ↦ ([], split_on d t, ground arith)
      | inr h ↦ (c ∷ s, ss, ground (arith, e))
    ]

split_on-append : (d : ℕ) (s t : Text) → split_on d (s ++ d ∷ t) ≡ split_on d s ++ split_on d t
unfolding split_on
split_on-append d [] t = ground arith
split_on-append d (c ∷ s) t =
    let (u, us, e) = split_on-nonempty d s in
    elim (Bool-cases (c == d)) [
      | inl h ↦ ground (arith, h, split_on-append d s t)
      | inr h ↦ ground (arith, h, e, split_on-append d s t)
    ]

pub some_eq : (s t : Text) → some s ≡ some t → s ≡ t
some_eq s t e = cc

pub or_right : (a b : Bool) → b ≡ true → (a || b) ≡ true
or_right true b e = refl
or_right false b e = e

module _ (platform : Platform) where
  lists_token-append :
      (tok : Text) (ss ts : List Text)
      → lists_token platform tok (ss ++ ts)
        ≡ (lists_token platform tok ss || lists_token platform tok ts)
  lists_token-append tok [] ts = ground arith
  lists_token-append tok (s ∷ ss) ts = ground (arith, lists_token-append tok ss ts)

  -- A header that is not empty, in one of the spellings of `Vary`, lists the token, or `*`.
  abbrev pub ListsAt : Text → Text → Headers → Type 0
  ListsAt k tok hs =
      (c : Text) × ((read_truthy k hs ≡ some c)
        × (lists_token platform tok (split_on b',' c) ≡ true))

  abbrev pub Lists : Text → Headers → Type 0
  Lists tok hs = ListsAt (units "Vary") tok hs ⊎ ListsAt (units "vary") tok hs

  pub ListsAt-lookup :
      (k tok : Text) (hs gs : Headers)
      → lookup k gs ≡ lookup k hs
      → ListsAt k tok hs
      → ListsAt k tok gs
  ListsAt-lookup k tok hs gs e (c, (f, l)) = (c, (ground (arith, e, f), l))

  ListsAt-if :
      (b : Bool) (k tok : Text) (x y : Headers)
      → ListsAt k tok x
      → ListsAt k tok y
      → ListsAt k tok (if b then x else y)
  ListsAt-if true k tok x y f g = f
  ListsAt-if false k tok x y f g = g

  pub read_truthy-insert :
      (k v : Text) (o : Option Text) (t : Text) (hs : Headers)
      → truthy o ≡ some v
      → read_truthy k (insert k (v ++ t) hs) ≡ some (v ++ t)
  read_truthy-insert k v none t hs e = absurd cc
  read_truthy-insert k v (some []) t hs e = absurd cc
  read_truthy-insert k v (some (c ∷ cs)) t hs e =
      let g : read_truthy k (insert k (c ∷ cs ++ t) hs) ≡ some (c ∷ cs ++ t) =
        ground (arith, lookup-insert k k (c ∷ cs ++ t) hs, same_refl k) in
      subst (λ w. read_truthy k (insert k (w ++ t) hs) ≡ some (w ++ t)) {x = c ∷ cs} {y = v}
        (some_eq (c ∷ cs) v e) g

  -- What is listed in a value is listed when another is added to it.
  pub lists_token-extended :
      (tok c t : Text)
      → (lists_token platform tok (split_on b',' c) || lists_token platform tok (split_on b',' t))
        ≡ true
      → lists_token platform tok (split_on b',' (c ++ b',' ∷ t)) ≡ true
  lists_token-extended tok c t h =
      ap (lists_token platform tok) (split_on-append b',' c t)
      ∙ lists_token-append tok (split_on b',' c) (split_on b',' t)
      ∙ h

  -- An addition at one key keeps what is listed at any.
  pub ListsAt-extend_header :
      (k j tok v : Text) (o : Option Text) (hs : Headers)
      → read_truthy k hs ≡ o
      → ListsAt j tok hs
      → ListsAt j tok (extend_header platform k o v hs)
  ListsAt-extend_header k j tok v none hs r (c, (f, l)) = elim (Bool-cases (same k j)) [
    | inr n ↦
        ListsAt-lookup j tok hs (insert k v hs) (ground (arith, lookup-insert k j v hs, n))
          (c, (f, l))
    | inl y ↦ absurd (ground (arith, r, f, ap (λ i. read_truthy i hs) ((same_iff k j).0 y)))
  ]
  ListsAt-extend_header k j tok v (some d) hs r (c, (f, l)) =
      let t = d ++ b',' ∷ b' ' ∷ v in
      ListsAt-if (lists_token platform (platform.lower v) (split_on b',' d)) j tok hs
        (insert k t hs) (c, (f, l))
        (elim (Bool-cases (same k j)) [
          | inr n ↦
              ListsAt-lookup j tok hs (insert k t hs) (ground (arith, lookup-insert k j t hs, n))
                (c, (f, l))
          | inl y ↦
              let e : k ≡ j = (same_iff k j).0 y in
              let g : d ≡ c = some_eq d c (sym r ∙ ap (λ i. read_truthy i hs) e ∙ f) in
              subst (λ i. ListsAt i tok (insert k t hs)) {x = k} {y = j} e
                (
                  t,
                  (
                    read_truthy-insert k d (lookup k hs) (b',' ∷ b' ' ∷ v) hs r,
                    lists_token-extended tok d (b' ' ∷ v)
                        (ground (arith, ap (λ w. lists_token platform tok (split_on b',' w)) g, l)),
                  ),
                )
        ])
