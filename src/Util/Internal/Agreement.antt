-- ===== src/Util/Internal/Agreement.antt =====
-- packages/util/index.js: the two paths of `getInternal` agree, and the memo of `sanitizeKey`.
use middy.Prelude.{
  ◌≡◌, refl, Bool, some, List, [], ◌∷◌, Outcome, arith, fulfilled, Option-cases, Bool-cases, inl,
  inr, length, ◌==◌, subst,
}
use middy.Texts.{Text, same, same_iff, Table, lookup, insert, lookup-insert}
use middy.Util.Internal.{
  Values, InternalError, sanitized, sanitize_key, sanitize_key_cache_max_size, read_sync,
  read_async, get_sync, get_async, parts_of, read_root, walk, path_rest, get_pairs,
}

module _ {E A : Type 0} (values : Values E A) (internal : Table A) where
  read_async-read_sync :
      (ps : List Text) (a : A)
      → read_sync values internal ps ≡ some a
      → read_async values internal ps ≡ fulfilled a
  unfolding read_sync read_async
  read_async-read_sync ps a e =
      let root = read_root values internal ps in
      elim (Option-cases (values.thenable root)) [
        | inr (x, h) ↦ absurd (ground arith)
        | inl h ↦ elim (Option-cases (values.thenable (walk values root (path_rest values ps)))) [
          | inr (x, g) ↦ absurd (ground arith)
          | inl g ↦ ground arith
        ]
      ]

  -- Where the fast loop of `getInternal` comes to the end without a pending value, or to two keys
  -- with one name, the fallback comes to the same result or error.
  pub get_async-get_sync :
      (paths : Bool) (kvs : List (Text × Text)) (obj : Table A)
      (o : Outcome (InternalError E) (Table A))
      → get_sync values paths internal kvs obj ≡ some o
      → get_async values paths internal kvs obj [] ≡ o
  unfolding get_sync get_async
  get_async-get_sync paths [] obj o e = ground arith
  get_async-get_sync paths ((k, v) ∷ kvs) obj o e =
      elim (Option-cases (read_sync values internal (parts_of values paths v))) [
        | inl h ↦ absurd (ground arith)
        | inr (a, h) ↦ ground (
          arith,
          h,
          read_async-read_sync (parts_of values paths v) a h,
          get_async-get_sync paths kvs (insert (sanitized k) a obj) o,
        )
      ]

-- What `getInternal` gives for a list of names and paths is what the loop over the settled promises
-- gives for it: the fast loop without promises only saves time. The values, the names, the two keys
-- that an error names and the rejections are the same.
pub get_pairs-eq-get_async :
    {E A : Type 0} (values : Values E A) (paths : Bool) (internal : Table A)
    (kvs : List (Text × Text))
    → get_pairs values paths internal kvs ≡ get_async values paths internal kvs [] []
unfolding get_pairs
get_pairs-eq-get_async values paths internal kvs =
    elim (Option-cases (get_sync values paths internal kvs [])) [
      | inl h ↦ ground (arith, h)
      | inr (o, h) ↦ ground (arith, h, get_async-get_sync values internal paths kvs [] o h)
    ]

-- Every entry of the memo is right.
abbrev pub IsMemo : Table Text → Type 0
IsMemo memo = (j t : Text) → lookup j memo ≡ some t → t ≡ sanitized j

IsMemo-insert : (k : Text) (memo : Table Text) → IsMemo memo → IsMemo (insert k (sanitized k) memo)
IsMemo-insert k memo h j t e = elim (Bool-cases (same k j)) [
  | inl s ↦ ground (arith, lookup-insert k j (sanitized k) memo, same_iff k j)
  | inr s ↦ h j t (ground (arith, lookup-insert k j (sanitized k) memo))
]

IsMemo-result :
    (k t : Text) (memo : Table Text) (r : Text × Table Text)
    → (t, memo) ≡ r
    → t ≡ sanitized k
    → IsMemo memo
    → (r.0 ≡ sanitized k) × IsMemo r.1
IsMemo-result k t memo r e h m =
    subst (λ p. (p.0 ≡ sanitized k) × IsMemo p.1) {x = (t, memo)} {y = r} e (h, m)

-- `sanitizeKey` with a right memo gives the sanitized key, and leaves a right memo.
pub sanitize_key-IsMemo :
    (k : Text) (memo : Table Text)
    → IsMemo memo
    → ((sanitize_key k memo).0 ≡ sanitized k) × IsMemo (sanitize_key k memo).1
unfolding sanitize_key
sanitize_key-IsMemo k memo h = elim (Option-cases (lookup k memo)) [
  | inr (t, e) ↦ IsMemo-result k t memo (sanitize_key k memo) (ground (arith, e)) (h k t e) h
  | inl e ↦ elim (Bool-cases (length memo == sanitize_key_cache_max_size)) [
    | inl full ↦
        IsMemo-result k (sanitized k) (insert k (sanitized k) []) (sanitize_key k memo)
          (ground (arith, e, full)) refl (IsMemo-insert k [] (λ j t x. absurd cc))
    | inr room ↦
        IsMemo-result k (sanitized k) (insert k (sanitized k) memo) (sanitize_key k memo)
          (ground (arith, e, room)) refl (IsMemo-insert k memo h)
  ]
]
