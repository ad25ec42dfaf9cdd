-- ===== src/Util/Omit/Paths.antt =====
-- packages/util/index.js: the tree that `buildPathTree` makes covers the paths that it is given.
use middy.Prelude.{
  ℕ, ◌==◌, ◌≡◌, refl, sym, subst, ◌⊎◌, inl, inr, ◌≢◌, Bool, false, none, some, List, [], ◌∷◌, map,
  reverse, reverse-cons, arith, Bool-cases, ◌++◌,
}
use middy.Texts.{Text}
use middy.Util.Omit.{
  Node, leaf, branch, Tree, empty, OmitPath, path_segments, is_unsafe, omit, Value, insert_sorted,
  sort_paths, build_path_tree, text_leb, path_string, dotted, segments,
}
use middy.Util.Internal.{path_parts, add_to_part}
use middy.Util.Omit.Insertion.{Covers, OnTree, IsMember, insert_paths-Covers}
use middy.Util.Omit.Reaching.{Marks, IsFoldedTree, Reaches}
use middy.Util.Omit.Redaction.{omit-IsRedacted_lem}

IsMember-insert_sorted :
    (p q : OmitPath) (qs : List OmitPath)
    → (p ≡ q) ⊎ IsMember p qs
    → IsMember p (insert_sorted q qs)
IsMember-insert_sorted p q [] m = m
IsMember-insert_sorted p q (r ∷ rs) m =
    elim (Bool-cases (text_leb (path_string q) (path_string r))) [
      | inl b ↦
          subst (IsMember p) {x = q ∷ r ∷ rs} {y = insert_sorted q (r ∷ rs)} (ground (arith, b)) m
      | inr b ↦
          subst (IsMember p) {x = r ∷ insert_sorted q rs} {y = insert_sorted q (r ∷ rs)}
            (ground (arith, b))
            (elim m [
              | inl e ↦ inr (IsMember-insert_sorted p q rs (inl e))
              | inr (inl e) ↦ inl e
              | inr (inr n) ↦ inr (IsMember-insert_sorted p q rs (inr n))
            ])
    ]

IsMember-sort_paths :
    (p : OmitPath) (ps : List OmitPath) → IsMember p ps → IsMember p (sort_paths ps)
IsMember-sort_paths p [] m = m
IsMember-sort_paths p (q ∷ qs) (inl e) = IsMember-insert_sorted p q (sort_paths qs) (inl e)
IsMember-sort_paths p (q ∷ qs) (inr m) =
    IsMember-insert_sorted p q (sort_paths qs) (inr (IsMember-sort_paths p qs m))

IsMember-append :
    (p : OmitPath) (ps qs : List OmitPath) → IsMember p ps ⊎ IsMember p qs → IsMember p (ps ++ qs)
IsMember-append p [] qs (inl m) = absurd m
IsMember-append p [] qs (inr m) = m
IsMember-append p (r ∷ rs) qs (inl (inl e)) = inl e
IsMember-append p (r ∷ rs) qs (inl (inr m)) = inr (IsMember-append p rs qs (inl m))
IsMember-append p (r ∷ rs) qs (inr m) = inr (IsMember-append p rs qs (inr m))

IsMember-reverse : (p : OmitPath) (ps : List OmitPath) → IsMember p ps → IsMember p (reverse ps)
IsMember-reverse p [] m = m
IsMember-reverse p (q ∷ qs) m =
    subst (IsMember p) {x = reverse qs ++ q ∷ []} {y = reverse (q ∷ qs)} (sym (reverse-cons q qs)) (
      IsMember-append p (reverse qs) (q ∷ [])
        (elim m [ inl e ↦ inr (inl e) | inr n ↦ inl (IsMember-reverse p qs n) ]))

add_to_part-nonempty :
    (lower : Text → Text) (c : ℕ) (ps : List Text) → map lower (add_to_part c ps) ≢ []
add_to_part-nonempty lower c [] e = absurd cc
add_to_part-nonempty lower c (p ∷ ps) e = absurd cc

path_segments-nonempty : (lower : Text → Text) (p : OmitPath) → map lower (path_segments p) ≢ []
unfolding path_parts
path_segments-nonempty lower (segments s ss) e = absurd cc
path_segments-nonempty lower (dotted []) e = absurd cc
path_segments-nonempty lower (dotted (c ∷ cs)) e = elim (Bool-cases (c == b'.')) [
  | inl h ↦ absurd (ground (arith, h, e))
  | inr h ↦ add_to_part-nonempty lower c (path_parts cs) (ground (arith, h, e))
]

-- Every path that `buildPathTree` is given is covered by the tree that it returns: the path or a
-- beginning of it leads to a leaf, unless a segment of it is `__proto__`, `constructor` or
-- `prototype`.
pub build_path_tree-Covers :
    (lower : Text → Text) (paths : List OmitPath) (p : OmitPath) (t : Tree)
    → IsMember p paths
    → is_unsafe (map lower (path_segments p)) ≡ false
    → build_path_tree lower paths ≡ some t
    → Covers (map lower (path_segments p)) (branch t)
unfolding build_path_tree
build_path_tree-Covers lower paths p t m h e =
    subst (OnTree (λ u. Covers (map lower (path_segments p)) (branch u)))
      {x = build_path_tree lower paths} {y = some t} e
      (insert_paths-Covers lower p (reverse (sort_paths paths)) empty
        (IsMember-reverse p (sort_paths paths) (IsMember-sort_paths p paths m)) h
        (path_segments-nonempty lower p))

-- A path that is covered has a beginning that leads to a leaf.
marked_beginning :
    (p : List Text) (n : Node)
    → Covers p n
    → (q : List Text) × Marks q n
      × ((lower : Text → Text) (v w : Value)
          → Reaches lower p v w
          → (x : Value) × Reaches lower q v x)
marked_beginning p leaf c = ([], tt, λ lower v w r. (v, refl))
marked_beginning [] (branch t) c = absurd c
marked_beginning (s ∷ ss) (branch t) (n, e, c) =
    let (q, m, f) = marked_beginning ss n c in
    (s ∷ q, (n, e, m), λ lower v w (y, (d, r)). let (x, g) = f lower y w r in (x, (y, (d, g))))

-- A path that `buildPathTree` is given is read nowhere in what `omit` returns without a mask: no
-- value stands there, where a name matches a segment up to case by a lower case as long as the
-- name. The tree is in lower case with no path that ends in `[]`, and no segment of the path is
-- `__proto__`, `constructor` or `prototype`.
pub omit_removes_paths :
    (lower : Text → Text) (paths : List OmitPath) (p : OmitPath) (t : Tree) (v r : Value) (b : Bool)
    → IsMember p paths
    → is_unsafe (map lower (path_segments p)) ≡ false
    → build_path_tree lower paths ≡ some t
    → IsFoldedTree lower t
    → omit lower none v (some (branch t)) ≡ some (r, b)
    → ¬ ((w : Value) × Reaches lower (map lower (path_segments p)) r w)
omit_removes_paths lower paths p t v r b m h e g o (w, q) =
    let (s, k, f) =
      marked_beginning (map lower (path_segments p)) (branch t)
        (build_path_tree-Covers lower paths p t m h e) in
    let (x, z) = f lower r w q in
    let d : none ≡ some x = omit-IsRedacted_lem lower none v r b t s x g k o z in absurd cc
