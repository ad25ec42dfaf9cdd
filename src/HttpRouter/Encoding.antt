-- ===== src/HttpRouter/Encoding.antt =====
-- packages/http-router/index.js: `normalizeRawPath` keeps the segments of a path.
use middy.Prelude.{
  ℕ, ◌≡◌, ◌≢◌, refl, ap, sym, ◌∙◌, subst, Option, none, some, List, [], ◌∷◌, ◌++◌, map, arith, ◌==◌,
  inl, inr, Bool-cases, Option-cases, ==→eq,
}
use middy.Texts.{
  Text, slash, count_slashes, split, join, join_after, count_slashes-append, AreSlashFree,
  split-cons,
}
use middy.HttpRouter.Event.{
  start_decoding, decode_from, prepend, decode_uri_component, escape_unit, escape_segment,
  normalize_segments, normalize_raw_path,
}

prepend-nil : (o : Option Text) → prepend [] o ≡ o
prepend-nil none = refl
prepend-nil (some t) = refl

-- An escaped unit is decoded to itself.
decode_from-escape_unit :
    (c : ℕ) (t : Text)
    → decode_from start_decoding (escape_unit c ++ t)
      ≡ prepend (c ∷ []) (decode_from start_decoding t)
unfolding decode_from
decode_from-escape_unit c t = elim (Bool-cases (c == b'%')) [
  | inl h ↦
      subst
        (λ d.
          decode_from start_decoding (escape_unit d ++ t)
          ≡ prepend (d ∷ []) (decode_from start_decoding t))
        (sym (==→eq c b'%' h))
        (prepend-nil (prepend [] (prepend (b'%' ∷ []) (decode_from start_decoding t)))
          ∙ prepend-nil (prepend (b'%' ∷ []) (decode_from start_decoding t)))
  | inr h ↦ elim (Bool-cases (c == slash)) [
    | inl s ↦
        subst
          (λ d.
            decode_from start_decoding (escape_unit d ++ t)
            ≡ prepend (d ∷ []) (decode_from start_decoding t))
          (sym (==→eq c slash s))
          (prepend-nil (prepend [] (prepend (slash ∷ []) (decode_from start_decoding t)))
            ∙ prepend-nil (prepend (slash ∷ []) (decode_from start_decoding t)))
    | inr s ↦ ground arith
  ]
]

decode_from-escape_segment : (t : Text) → decode_from start_decoding (escape_segment t) ≡ some t
unfolding escape_segment decode_from
decode_from-escape_segment [] = refl
decode_from-escape_segment (c ∷ t) =
    cc (decode_from-escape_unit c (escape_segment t), decode_from-escape_segment t)

count_slashes-escape_unit : (c : ℕ) → count_slashes (escape_unit c) ≡ 0
unfolding count_slashes
count_slashes-escape_unit c = ground arith

count_slashes-escape_segment : (t : Text) → count_slashes (escape_segment t) ≡ 0
unfolding escape_segment count_slashes
count_slashes-escape_segment [] = refl
count_slashes-escape_segment (c ∷ t) = omega (
  arith,
  count_slashes-append (escape_unit c) (escape_segment t),
  count_slashes-escape_unit c,
  count_slashes-escape_segment t,
)

split-segment : (s : Text) → count_slashes s ≡ 0 → split s ≡ s ∷ []
unfolding split count_slashes
split-segment [] e = refl
split-segment (c ∷ s) e = ground (arith, split-segment s)

split-append : (s t : Text) → count_slashes s ≡ 0 → split (s ++ slash ∷ t) ≡ s ∷ split t
unfolding split count_slashes
split-append [] t e = refl
split-append (c ∷ s) t e = ground (arith, split-append s t)

split-join_after :
    (s : Text) (ss : List Text)
    → count_slashes s ≡ 0
    → AreSlashFree ss
    → split (join_after s ss) ≡ s ∷ ss
split-join_after s [] e a = split-segment s e
split-join_after s (t ∷ ss) e a =
    split-append s (join_after t ss) e ∙ ap (λ u. s ∷ u) (split-join_after t ss a.0 a.1)

-- What the segments of a normalised path are.
pub record Normalized (ss ts : List Text) : Type 0 where
  pub same : map decode_uri_component ts ≡ map decode_uri_component ss
  pub slash_free : AreSlashFree ts

Normalized-cons :
    (s t : Text) (ss ts : List Text)
    → decode_uri_component s ≡ some t
    → Normalized ss ts
    → Normalized (s ∷ ss) (escape_segment t ∷ ts)
unfolding decode_uri_component
Normalized-cons s t ss ts e n = record {
  same = cc (decode_from-escape_segment t, e, n.same);
  slash_free = (count_slashes-escape_segment t, n.slash_free);
}

normalize_segments-Normalized :
    (ss ts : List Text) → normalize_segments ss ≡ some ts → Normalized ss ts
unfolding normalize_segments
normalize_segments-Normalized [] ts e =
    subst (Normalized []) {x = []} (ground arith) (record { same = refl; slash_free = tt })
normalize_segments-Normalized (s ∷ ss) ts e = elim (Option-cases (decode_uri_component s)) [
  | inl d ↦ absurd (ground arith)
  | inr (t, d) ↦ elim (Option-cases (normalize_segments ss)) [
    | inl r ↦ absurd (ground arith)
    | inr (us, r) ↦
        subst (Normalized (s ∷ ss)) (ground arith)
          (Normalized-cons s t ss us d (normalize_segments-Normalized ss us r))
  ]
]

split-join : (ss ts : List Text) → ss ≢ [] → Normalized ss ts → split (join ts) ≡ ts
unfolding join
split-join [] ts ne n = absurd (ne refl)
split-join (s ∷ ss) [] ne n = absurd (ground (arith, n.same))
split-join (s ∷ ss) (t ∷ ts) ne n = split-join_after t ts n.slash_free.0 n.slash_free.1

split-ne-nil : (t : Text) → split t ≢ []
split-ne-nil t e = let (s, ss, h) = split-cons t in cc

-- A raw path that is normalised: the segments of the path that is routed on are decoded to the same
-- texts as the segments of the raw path, as many and in the same order. An encoded slash stays in
-- its segment.
pub normalize_raw_path-split :
    (raw path : Text)
    → normalize_raw_path raw ≡ some path
    → map decode_uri_component (split path) ≡ map decode_uri_component (split raw)
unfolding normalize_raw_path
normalize_raw_path-split raw path e = elim (Option-cases (normalize_segments (split raw))) [
  | inl r ↦ absurd (ground arith)
  | inr (ts, r) ↦
      let n = normalize_segments-Normalized (split raw) ts r in
      subst (λ p. map decode_uri_component (split p) ≡ map decode_uri_component (split raw))
        {x = join ts} {y = path} (ground arith)
        (ap (map decode_uri_component) (split-join (split raw) ts (split-ne-nil raw) n) ∙ n.same)
]
